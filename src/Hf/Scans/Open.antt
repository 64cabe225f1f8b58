-- ===== src/Hf/Scans/Open.antt =====
-- HF_OpenFileScan of hf/hf.c, and HF_CloseFile after it.
use adb_minirel.Prelude.{
  ℕ, ◌<◌, ◌≡◌, inl, true, [], ◌∷◌, ◌++◌, some, arith, get_elem?, set, length, length-set,
}
use adb_minirel.Prelude.Int.{ℤ, pos, negsuc}
use adb_minirel.Prelude.Result.{ok}
use adb_minirel.Unix.{Buf, Name}
use adb_minirel.Hf.{hfe_attroffset, hfe_scanopen, HfEntry, ScanEntry, Hf, hf_ftab_size, set_file}
use adb_minirel.Hf.Bytes.{c_string}
use adb_minirel.Hf.Bytes.Access.{get_elem?-set_self, get_elem?-lt}
use adb_minirel.Hf.Files.{hf_close_file}
use adb_minirel.Hf.Scans.{
  free_scan, returned, no_value, attr_type, set_type, fill_scan, hf_open_file_scan,
}

module _ (s : Hf) (fd i : ℕ) (f : HfEntry) (inside : fd < hf_ftab_size)
    (at : get_elem? s.file_table fd ≡ some f) (valid : f.valid ≡ true)
    (free : free_scan s.scan_table ≡ some i) (type : ℕ) (len op : ℤ) (value : Buf) where
  -- The file with a scan.
  abbrev pub scanned : Hf
  scanned = set_file s (pos fd) (record f { scan_active = true })

  scanned-at : get_elem? scanned.file_table fd ≡ some (record f { scan_active = true })
  scanned-at = get_elem?-set_self s.file_table fd _ (get_elem?-lt s.file_table fd f at)

  -- Where a scan entry is free and the file is open, a call of HF_OpenFileScan with a negative
  -- offset returns HFE_ATTROFFSET and takes no scan entry, but HF_CloseFile of the file returns
  -- HFE_SCANOPEN right after it and changes nothing.
  pub hf_close_file-hf_open_file_scan :
      (k : ℕ)
      → (hf_open_file_scan s (pos fd) type len (negsuc k) op value
          ≡ ok (scanned, returned hfe_attroffset))
        × (hf_close_file scanned (pos fd) ≡ ok (scanned, hfe_scanopen))
  unfolding hf_open_file_scan fill_scan hf_close_file
  hf_close_file-hf_open_file_scan k =
      (ground (arith, inside, at, valid, free), ground (arith, inside, scanned-at, valid))

  -- The scan entry that a good call fills.
  abbrev pub scan_entry : ScanEntry → ℕ → ℕ → Name → ScanEntry
  scan_entry old offset kept text = record old {
    hf_fd = pos fd;
    op = op;
    offset = pos offset;
    last_scanned_rec = record { recnum = pos 0; pagenum = pos 0 };
    valid = true;
    type = kept;
    value = text ++ 0 ∷ [];
  }

  -- Where a scan entry is free and the file is open, a call of HF_OpenFileScan with an offset that
  -- is not negative, a good type and length, and a value that is a C string fills that entry,
  -- whatever the operator, and marks the file as scanned; but the function ends without a `return`,
  -- so that the caller does not learn which entry it is.
  pub hf_open_file_scan-no_value :
      (offset kept : ℕ) (text : Name) (old : ScanEntry)
      → get_elem? s.scan_table i ≡ some old
      → c_string value ≡ ok text
      → attr_type type len ≡ inl kept
      → (s' : Hf) × (hf_open_file_scan s (pos fd) type len (pos offset) op value
          ≡ ok (s', no_value))
        × (get_elem? s'.scan_table i ≡ some (scan_entry old offset kept text))
        × (get_elem? s'.file_table fd ≡ some (record f { scan_active = true }))
  unfolding hf_open_file_scan fill_scan set_type
  hf_open_file_scan-no_value offset kept text old there str good =
      let filled = record (scan_entry old offset kept text) { type = old.type } in
      let mid = set s.scan_table i filled in
      let lt = get_elem?-lt s.scan_table i old there in
      let lt' : i < length mid = rw (length-set s.scan_table i filled) lt in
      (
        record scanned { scan_table = set mid i (scan_entry old offset kept text) },
        ground (arith, inside, at, valid, free, there, str, good),
        get_elem?-set_self mid i (scan_entry old offset kept text) lt',
        scanned-at,
      )
