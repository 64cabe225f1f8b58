-- ===== src/Hf/Tests.antt =====
-- The theorems about hf/hf.c at concrete states: a file of records with one data page, the page 4 of
-- PF's file 3 of Pf/Tests.antt, which has a record at the first of its two places.
mod Records
mod Files
use adb_minirel.Prelude.{
  ℕ, zero, suc, ◌<◌, ◌≤◌, length-replicate, ◌≡◌, ◌≢◌, refl, inl, inr, true, false, [], ◌∷◌, Option,
  some, none, arith, length, set, replicate, get_elem?, ◌==◌, if◌then◌else◌,
}
use adb_minirel.Prelude.Int.{ℤ, pos, negsuc, ◌+ℤ◌}
use adb_minirel.Prelude.Result.{ok, fault, out_of_bounds, null_pointer}
use adb_minirel.Memory.{null}
use adb_minirel.Unix.{Buf, Name}
use adb_minirel.Bf.{BfReq, Frame, Pool}
use adb_minirel.Bf.Api.{set_frame}
use adb_minirel.Bf.Api.Frames.{set_frame-IsPool}
use adb_minirel.Bf.Api.View.{View, view, find_page}
use adb_minirel.Bf.Api.Take.{IsSafe}
use adb_minirel.Bf.Api.Spec.{got, pin_again, spec_get}
use adb_minirel.Bf.Tests.{two_pages, two_pages-IsPool}
use adb_minirel.Pf.{Pf}
use adb_minirel.Pf.Header.{header_of}
use adb_minirel.Pf.Pages.{request}
use adb_minirel.Pf.State.{IsPf, IsOpen}
use adb_minirel.Pf.Tests.{name, file_3, table, used}
use adb_minirel.Hf.{
  hfe_ok, hfe_attroffset, hfe_scanopen, no_name, named, HfEntry, ScanEntry, Hf, page_size, set_file,
  load_header,
}
use adb_minirel.Hf.Bytes.{
  Blocks, c_string, copy_to, load_int, load_pointer, string_at, is_vacant, first_vacant,
  place_record,
}
use adb_minirel.Hf.Bytes.Slots.{placed, place_record-record_at}
use adb_minirel.Hf.Bytes.Read.{Fits, grown, record_at}
use adb_minirel.Hf.Records.{count_record, hf_insert_rec, hf_get_this_rec}
use adb_minirel.Hf.State.{IsHfOpen}
use adb_minirel.Hf.Resident.{pinned_view, used_view, hit}
use adb_minirel.Hf.RoundTrip.{hf_insert_rec-first_vacant, hf_get_this_rec-hf_insert_rec}
use adb_minirel.Hf.Unpinning.{unpinned_view}
use adb_minirel.Hf.Reading.{ReadEnds, hf_get_this_rec-record_at}
use adb_minirel.Hf.Writing.{WriteEnds, Deletes, hf_delete_rec-Deletes}
use adb_minirel.Hf.Cursor.{hf_get_next_rec}
use adb_minirel.Hf.Cursor.First.{FindsFirst, hf_get_first_rec-FindsFirst}
use adb_minirel.Hf.Cursor.Fuel.{HasFuel}
use adb_minirel.Hf.Cursor.Residency.{Resident}
use adb_minirel.Hf.Files.{records_per_page, new_header, save_header, hf_destroy_file, hf_close_file}
use adb_minirel.Hf.Files.Capacity.{records_per_page-Fits, place_record-out_of_bounds}
use adb_minirel.Hf.Files.Header.{load_header-written}
use adb_minirel.Hf.Files.Names.{hf_destroy_file-bad_name}
use adb_minirel.Hf.Scans.{
  returned, no_value, attr_type, hf_open_file_scan, op_eq, op_lt, compares, compare_keys, int_key,
  find_loop,
}
use adb_minirel.Hf.Scans.Open.{hf_close_file-hf_open_file_scan, hf_open_file_scan-no_value}

-- A vacant second place.
abbrev pub bytes : Buf
bytes = 0 ∷ 0 ∷ 0 ∷ 0 ∷ 1 ∷ 0 ∷ 0 ∷ 0 ∷ 5 ∷ replicate 15 0

abbrev pub pool : Pool
pool = set_frame (two_pages 0 0 3) 1 (record ((two_pages 0 0 3).frame 1) { fpage = bytes })

abbrev pub pf : Pf
pf = record { pool = pool; file_table = table }

pub pf-IsPf : IsPf pf used (3 ∷ [])
pf-IsPf = record {
  pool = set_frame-IsPool (two_pages 0 0 3) used (3 ∷ []) (two_pages-IsPool 0 0) 1 _ refl refl;
  sized = refl;
}

pub pf_3 : IsOpen pf 3 file_3 5
pf_3 = record { in_table = omega arith; at = refl; valid = refl; counted = refl }

abbrev pub file : HfEntry
file = record {
  valid = true;
  pf_fd = pos 3;
  filename = named name;
  hdr = record { numrecs = pos 1; numpages = pos 1; max_num_records = pos 2; recsize = pos 11 };
  hdrchanged = false;
  scan_active = false;
  page_map = pos 4 ∷ replicate 99 (negsuc 0);
}

abbrev pub unused : HfEntry
unused = record file { valid = false; filename = no_name }

abbrev pub no_scan : ScanEntry
no_scan = record {
  valid = false;
  hf_fd = pos 0;
  offset = pos 0;
  op = pos 0;
  type = 0;
  value = [];
  last_scanned_rec = record { pagenum = pos 0; recnum = pos 0 };
}

abbrev pub blocks : Blocks
blocks = record { text = λ p. if p == 5 then some (98 ∷ 99 ∷ []) else none; fresh = 6 }

abbrev pub state : Hf
state = record {
  pf = pf;
  blocks = blocks;
  file_table = set (replicate 20 unused) 2 file;
  scan_table = replicate 20 no_scan;
}

pub file_2 : IsHfOpen state 2 file 3
file_2 = record { in_table = omega arith; at = refl; valid = refl; below = refl }

abbrev pub frame : Frame
frame = pool.frame 1

abbrev pub rec : Buf
rec = 120 ∷ 121 ∷ 0 ∷ []

abbrev pub buf : Buf
buf = 7 ∷ 7 ∷ 7 ∷ 7 ∷ []

pub rec-c_string : c_string rec ≡ ok (120 ∷ 121 ∷ [])
unfolding c_string
rec-c_string = refl

pub copied : copy_to (120 ∷ 121 ∷ []) buf ≡ ok (120 ∷ 121 ∷ 0 ∷ 7 ∷ [])
unfolding copy_to
copied = refl

pub second : first_vacant 2 0 bytes ≡ ok (some 1)
unfolding first_vacant is_vacant load_int header_of
second = refl
