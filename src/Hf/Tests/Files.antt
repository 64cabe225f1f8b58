-- ===== src/Hf/Tests/Files.antt =====
-- Files and scans of hf/hf.c at concrete states.
use adb_minirel.Prelude.{
  ℕ, suc, ◌≤◌, length-replicate, ◌≡◌, refl, inl, true, [], ◌∷◌, some, arith, set, replicate,
  get_elem?,
}
use adb_minirel.Prelude.Int.{pos, negsuc}
use adb_minirel.Prelude.Result.{ok, fault, out_of_bounds, null_pointer}
use adb_minirel.Unix.{Buf}
use adb_minirel.Pf.Header.{header_of}
use adb_minirel.Hf.{hfe_attroffset, hfe_scanopen, Hf, page_size, set_file, load_header}
use adb_minirel.Hf.Bytes.{c_string, load_int, place_record}
use adb_minirel.Hf.Bytes.Read.{Fits}
use adb_minirel.Hf.Files.{records_per_page, new_header, save_header, hf_destroy_file, hf_close_file}
use adb_minirel.Hf.Files.Capacity.{records_per_page-Fits, place_record-out_of_bounds}
use adb_minirel.Hf.Files.Header.{load_header-written}
use adb_minirel.Hf.Files.Names.{hf_destroy_file-bad_name}
use adb_minirel.Hf.Scans.{
  returned, no_value, attr_type, hf_open_file_scan, op_lt, compares, int_key,
}
use adb_minirel.Hf.Scans.Open.{hf_close_file-hf_open_file_scan, hf_open_file_scan-no_value}
use adb_minirel.Hf.Scans.Find.{asks, level, compares-int_key}
use adb_minirel.Hf.Tests.{file, unused, no_scan, blocks, state, rec}

abbrev blank_page : Buf
blank_page = replicate page_size 0

records_per_page-Fits_example :
    (max : ℕ) × (records_per_page (pos 100) ≡ ok (pos max)) × Fits blank_page max × (1 ≤ max)
records_per_page-Fits_example =
    records_per_page-Fits 100 blank_page (omega arith) (omega arith)
      (length-replicate {A = ℕ} page_size 0)

place_record-out_of_bounds_example :
    (j : ℕ) × (records_per_page (pos 4) ≡ ok (pos (suc j)))
    × (place_record blocks blank_page (pos (suc j)) (pos j) (pos 4) rec ≡ fault out_of_bounds)
place_record-out_of_bounds_example =
    place_record-out_of_bounds blocks blank_page 4 rec (omega arith)
      (length-replicate {A = ℕ} page_size 0)

header_there : load_int (replicate 16 0) (pos 8) ≡ ok (pos 0)
unfolding load_int header_of
header_there = refl

load_header-written_example :
    ((b' : Buf) × (new_header (replicate 16 0) (pos 11) (pos 341) ≡ ok b')
      × (load_header b'
          ≡ ok (record {
            numrecs = pos 0;
            numpages = pos 0;
            max_num_records = pos 341;
            recsize = pos 11;
          })))
    × ((b' : Buf) × (save_header (replicate 16 0) file.hdr ≡ ok b')
        × (load_header b' ≡ ok (record file.hdr { max_num_records = pos 0 })))
load_header-written_example =
    load_header-written (replicate 16 0) (pos 341) (pos 0) file.hdr (omega arith) refl refl refl
      refl header_there

hf_destroy_file-bad_name_example : hf_destroy_file state (101 ∷ []) ≡ fault null_pointer
hf_destroy_file-bad_name_example =
    hf_destroy_file-bad_name state (101 ∷ []) [] (set (replicate 19 unused) 1 file) unused
      null_pointer refl tt refl

hf_close_file-hf_open_file_scan_example :
    (hf_open_file_scan state (pos 2) b'c' (pos 1) (negsuc 0) (pos 1) (98 ∷ 0 ∷ [])
      ≡ ok (set_file state (pos 2) (record file { scan_active = true }), returned hfe_attroffset))
    × (hf_close_file (set_file state (pos 2) (record file { scan_active = true })) (pos 2)
        ≡ ok (set_file state (pos 2) (record file { scan_active = true }), hfe_scanopen))
hf_close_file-hf_open_file_scan_example =
    hf_close_file-hf_open_file_scan state 2 0 file (omega arith) refl refl refl b'c' (pos 1) (pos 1)
      (98 ∷ 0 ∷ []) 0

value-c_string : c_string (98 ∷ 0 ∷ []) ≡ ok (98 ∷ [])
unfolding c_string
value-c_string = refl

char_type : attr_type b'c' (pos 1) ≡ inl b'c'
unfolding attr_type
char_type = refl

hf_open_file_scan-no_value_example :
    (s' : Hf) × (hf_open_file_scan state (pos 2) b'c' (pos 1) (pos 0) (pos 9) (98 ∷ 0 ∷ [])
      ≡ ok (s', no_value))
    × (get_elem? s'.scan_table 0
        ≡ some (record no_scan {
          hf_fd = pos 2;
          op = pos 9;
          valid = true;
          type = b'c';
          value = 98 ∷ 0 ∷ [];
        }))
    × (get_elem? s'.file_table 2 ≡ some (record file { scan_active = true }))
hf_open_file_scan-no_value_example =
    hf_open_file_scan-no_value state 2 0 file (omega arith) refl refl refl b'c' (pos 1) (pos 9)
      (98 ∷ 0 ∷ []) 0 b'c' (98 ∷ []) no_scan refl value-c_string char_type

compares-int_key_example :
    compares op_lt (int_key (pos 7), int_key (negsuc 7)) ≡ asks 2 (level (pos 7)) (level (negsuc 7))
compares-int_key_example =
    compares-int_key 2 op_lt (pos 7) (negsuc 7) refl (omega arith) (omega arith)
