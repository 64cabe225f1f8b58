-- ===== src/Hf/Tests/Records.antt =====
-- Records of hf/hf.c at concrete states: inserted, read, deleted, and looked for.
use adb_minirel.Prelude.{ℕ, ◌<◌, ◌≡◌, ◌≢◌, refl, [], ◌∷◌, Option, some, arith, length, replicate}
use adb_minirel.Prelude.Int.{pos, ◌+ℤ◌}
use adb_minirel.Prelude.Result.{ok}
use adb_minirel.Memory.{null}
use adb_minirel.Unix.{Buf, Name}
use adb_minirel.Bf.{BfReq}
use adb_minirel.Bf.Api.View.{View, view, find_page}
use adb_minirel.Bf.Api.Take.{IsSafe}
use adb_minirel.Bf.Api.Spec.{got, pin_again, spec_get}
use adb_minirel.Pf.Header.{header_of}
use adb_minirel.Pf.Pages.{request}
use adb_minirel.Pf.Tests.{file_3, used}
use adb_minirel.Hf.{hfe_ok, Hf}
use adb_minirel.Hf.Bytes.{
  Blocks, copy_to, load_int, load_pointer, string_at, is_vacant, place_record,
}
use adb_minirel.Hf.Bytes.Slots.{placed, place_record-record_at}
use adb_minirel.Hf.Bytes.Read.{grown, record_at}
use adb_minirel.Hf.Records.{count_record, hf_insert_rec, hf_get_this_rec}
use adb_minirel.Hf.Resident.{pinned_view, used_view, hit}
use adb_minirel.Hf.RoundTrip.{hf_insert_rec-first_vacant, hf_get_this_rec-hf_insert_rec}
use adb_minirel.Hf.Unpinning.{unpinned_view}
use adb_minirel.Hf.Reading.{ReadEnds, hf_get_this_rec-record_at}
use adb_minirel.Hf.Writing.{WriteEnds, Deletes, hf_delete_rec-Deletes}
use adb_minirel.Hf.Cursor.First.{FindsFirst, hf_get_first_rec-FindsFirst}
use adb_minirel.Hf.Cursor.Residency.{Resident}
use adb_minirel.Hf.Tests.{
  bytes, pf, pf-IsPf, pf_3, file, blocks, state, file_2, frame, rec, buf, rec-c_string, copied,
  second,
}
use adb_minirel.Prelude.{true, set, replicate}
use adb_minirel.Hf.{ScanEntry}
use adb_minirel.Hf.Bytes.{load_int, copy_to}
use adb_minirel.Pf.Header.{header_of}
use adb_minirel.Hf.Tests.{no_scan}

hf_get_this_rec-hf_insert_rec_example :
    (s' s'' : Hf) × (hf_insert_rec state (pos 2) rec
      ≡ ok (s', record { pagenum = pos 0; recnum = pos 1 }))
    × (hf_get_this_rec s' (pos 2) (record { pagenum = pos 0; recnum = pos 1 }) buf
        ≡ ok (s'', 120 ∷ 121 ∷ 0 ∷ 7 ∷ [], hfe_ok))
hf_get_this_rec-hf_insert_rec_example =
    hf_get_this_rec-hf_insert_rec state used (3 ∷ []) pf-IsPf 3 file_3 5 pf_3 2 file file_2 2 11
      refl refl rec (120 ∷ 121 ∷ []) rec-c_string (omega arith) (omega arith) 0 0 refl
      (view pf.pool used (3 ∷ [])) refl 4 frame refl (omega arith) (omega arith) refl refl 1 second
      (omega arith) buf (120 ∷ 121 ∷ 0 ∷ 7 ∷ []) copied

hf_insert_rec-first_vacant_example :
    WriteEnds
      (hf_insert_rec state (pos 2) rec)
      (λ s'. (s', record { pagenum = pos 0; recnum = pos 1 }))
      state
      2
      (count_record file)
      (grown blocks (120 ∷ 121 ∷ []))
      (used_view
        (request file_3 (pos 3) (pos 4))
        frame
        (placed bytes 2 1 (omega arith) (omega arith) blocks (120 ∷ 121 ∷ []) (omega arith))
        (view pf.pool used (3 ∷ [])))
hf_insert_rec-first_vacant_example =
    hf_insert_rec-first_vacant state used (3 ∷ []) pf-IsPf 3 file_3 5 pf_3 2 file file_2 2 11 refl
      refl rec (120 ∷ 121 ∷ []) rec-c_string (omega arith) (omega arith) 0 0 refl
      (view pf.pool used (3 ∷ [])) refl 4 frame refl (omega arith) (omega arith) refl refl 1 second
      (omega arith)

first_there : record_at blocks bytes (pos 2) (pos 0) ≡ ok (some (98 ∷ 99 ∷ []))
unfolding record_at is_vacant load_int load_pointer string_at header_of ◌+ℤ◌
first_there = refl

-- The page once it was fetched.
abbrev bq : BfReq
bq = request file_3 (pos 3) (pos 4)

abbrev fetched : View
fetched = pinned_view bq frame (view pf.pool used (3 ∷ []))

fetches : spec_get bq (view pf.pool used (3 ∷ [])) ≡ (fetched, got (pin_again frame))
fetches = hit pf used (3 ∷ []) pf-IsPf 3 file_3 5 pf_3 4 (omega arith) (omega arith) frame refl

safe : find_page pf.pool.frame (pos 3) (pos 4) used ≡ null → IsSafe pf.pool used (3 ∷ [])
safe absent full = cc

copied_first : copy_to (98 ∷ 99 ∷ []) buf ≡ ok (98 ∷ 99 ∷ 0 ∷ 7 ∷ [])
unfolding copy_to
copied_first = refl

hf_get_this_rec-record_at_example :
    ReadEnds
      (hf_get_this_rec state (pos 2) (record { pagenum = pos 0; recnum = pos 0 }) buf)
      (λ s'. (s', 98 ∷ 99 ∷ 0 ∷ 7 ∷ [], hfe_ok))
      state
      (unpinned_view bq (pin_again frame) fetched)
hf_get_this_rec-record_at_example =
    hf_get_this_rec-record_at state used (3 ∷ []) pf-IsPf 3 file_3 5 pf_3 2 file file_2 0 4 refl
      (omega arith) (omega arith) safe fetched (pin_again frame) fetches refl 0 refl buf
      (some (98 ∷ 99 ∷ [])) (98 ∷ 99 ∷ 0 ∷ 7 ∷ []) first_there copied_first

hf_delete_rec-Deletes_example :
    Deletes state used
      (3 ∷ [])
      pf-IsPf
      3
      file_3
      5
      pf_3
      2
      file
      file_2
      0
      4
      refl
      (omega arith)
      (omega arith)
      safe
      fetched
      (pin_again frame)
      fetches
      refl
      2
      0
      refl
      (omega arith)
      (omega arith)
      refl
      (some (98 ∷ 99 ∷ []))
hf_delete_rec-Deletes_example =
    hf_delete_rec-Deletes state used (3 ∷ []) pf-IsPf 3 file_3 5 pf_3 2 file file_2 0 4 refl
      (omega arith) (omega arith) safe fetched (pin_again frame) fetches refl 2 0 refl (omega arith)
      (omega arith) refl (some (98 ∷ 99 ∷ [])) first_there

hf_get_first_rec-FindsFirst_example :
    FindsFirst state used
      (3 ∷ [])
      pf-IsPf
      3
      file_3
      5
      pf_3
      2
      file
      file_2
      4
      refl
      (omega arith)
      (omega arith)
      safe
      fetched
      (pin_again frame)
      fetches
      refl
      0
      refl
      1
      refl
      buf
      (some (98 ∷ 99 ∷ []))
      (98 ∷ 99 ∷ 0 ∷ 7 ∷ [])
hf_get_first_rec-FindsFirst_example =
    hf_get_first_rec-FindsFirst state used (3 ∷ []) pf-IsPf 3 file_3 5 pf_3 2 file file_2 4 refl
      (omega arith) (omega arith) safe fetched (pin_again frame) fetches refl 0 refl 1 refl buf
      (some (98 ∷ 99 ∷ [])) (98 ∷ 99 ∷ 0 ∷ 7 ∷ []) first_there copied_first tt

place_record-record_at_example :
    (h' : Blocks) × (b' : Buf) × (place_record blocks bytes (pos 2) (pos 1) (pos 11) rec
      ≡ ok (h', b'))
    × (length b' ≡ 24)
    × (record_at h' b' (pos 2) (pos 1) ≡ ok (some (120 ∷ 121 ∷ [])))
    × ((k : ℕ) (r : Option Name)
        → k < 2
        → ◌≢◌ {A = ℕ} 1 k
        → record_at blocks bytes (pos 2) (pos k) ≡ ok r
        → record_at h' b' (pos 2) (pos k) ≡ ok r)
place_record-record_at_example =
    place_record-record_at blocks bytes 2 1 11 rec (120 ∷ 121 ∷ []) (omega arith) (omega arith)
      (omega arith) refl rec-c_string (omega arith)

-- A scan for the records whose first four bytes are an `int` greater than 5.
abbrev scan : ScanEntry
scan = record no_scan {
  valid = true;
  hf_fd = pos 2;
  op = pos 3;
  type = b'i';
  value = 5 ∷ 0 ∷ 0 ∷ 0 ∷ [];
}

abbrev scanning : Hf
scanning = record state { scan_table = set (replicate 20 no_scan) 0 scan }

abbrev zeros : Buf
zeros = 0 ∷ 0 ∷ 0 ∷ 0 ∷ []
