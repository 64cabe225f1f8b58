-- ===== src/Hf/Records.antt =====
-- hf/hf.c: inserting, deleting and reading a record, and the test of a record's identifier.
use adb_minirel.Prelude.{
  ℕ, zero, suc, Bool, true, false, not, ◌&&◌, ◌||◌, List, [], ◌∷◌, Option, none, some,
  if◌then◌else◌,
}
use adb_minirel.Prelude.Int.{ℤ, pos, negsuc, pos_part, eq_ℤ, ltb_ℤ, leb_ℤ, int_inc, int_dec}
use adb_minirel.Prelude.Result.{Result, ok, ◌>>=◌}
use adb_minirel.Memory.{Ptr}
use adb_minirel.Unix.{Buf}
use adb_minirel.Pf.{PfAnswer, pf_page, pf_failed}
use adb_minirel.Pf.Pages.{pf_alloc_page}
use adb_minirel.Hf.Bytes.{
  set_vacant, is_vacant, clear_bitmap, first_vacant, place_record, fetch_record,
}
use adb_minirel.Hf.{
  HfCode, hfe_ok, hfe_pf, hfe_fd, hfe_invalidrecord, hfe_eof, hfe_filenotopen, RecId, invalid,
  HfHdr, HfEntry, Hf, is_hf_fd, at, put, set_file, with_pf, page_bytes, set_page, unpin,
  get_this_page,
}

-- One record more.
abbrev pub count_record : HfEntry → HfEntry
count_record e = record e {
  hdr = record e.hdr { numrecs = int_inc e.hdr.numrecs };
  hdrchanged = true;
}

-- `return recid` after PF_UnpinPage, or `invalid`.
abbrev pub unpinned_rec : RecId → Hf × Bool → Hf × RecId
unpinned_rec r (s, true) = (s, r)
unpinned_rec r (s, false) = (s, invalid)

-- A record goes to the place `j` of a page, and the page is unpinned.
unfoldable pub write_record : Hf → ℤ → HfEntry → ℤ → Ptr → Buf → RecId → Buf → Result (Hf × RecId)
write_record s fd e page a b r rec = do
  (h, b) ← place_record s.blocks b e.hdr.max_num_records r.recnum e.hdr.recsize rec
  let s = set_page (record s { blocks = h }) a b
  unpinned ← unpin (set_file s fd (count_record e)) e.pf_fd page true
  ok (unpinned_rec r unpinned)

-- A page that was just allocated: every bit is set, and the record is the first.
unfoldable pub write_first : Hf → ℤ → HfEntry → ℤ → Ptr → ℤ → Buf → Result (Hf × RecId)
write_first s fd e page a index rec = do
  b ← clear_bitmap (pos_part e.hdr.max_num_records) 0 (page_bytes s a)
  write_record s fd e page a b (record { pagenum = index; recnum = pos 0 }) rec

-- `for (k = 0; k < 100; k++)`: the first entry of the page map that is -1 becomes the page. `k` ends
-- as the length of the map where no entry is.
abbrev pub map_page : List ℤ → ℤ → ℕ × List ℤ
map_page [] page = (0, [])
map_page (m ∷ ms) page =
    if eq_ℤ m (negsuc 0) then (0, page ∷ ms) else let (k, ms) = map_page ms page in (suc k, m ∷ ms)

abbrev pub one_page_more : HfEntry → List ℤ → HfEntry
one_page_more e m = record e {
  hdr = record e.hdr { numpages = int_inc e.hdr.numpages };
  page_map = m;
}

-- HF_InsertRec after PF_AllocPage where the file has no data page.
unfoldable pub start_file : ℤ → HfEntry → Buf → Hf → ℤ × PfAnswer → Result (Hf × RecId)
start_file fd e rec s (page, pf_failed code) = ok (s, invalid)
start_file fd e rec s (page, pf_page a) =
    write_first s fd (one_page_more e (put e.page_map (pos 0) page)) page a (pos 0) rec

-- HF_InsertRec after PF_AllocPage where every data page is full.
unfoldable pub extend_file : ℤ → HfEntry → Buf → Hf → ℤ × PfAnswer → Result (Hf × RecId)
extend_file fd e rec s (page, pf_failed code) = ok (s, invalid)
extend_file fd e rec s (page, pf_page a) =
    let (k, m) = map_page e.page_map page in write_first s fd (one_page_more e m) page a (pos k) rec

unfoldable pub alloc_then :
    (Hf → ℤ × PfAnswer → Result (Hf × RecId)) → HfEntry → Hf → Result (Hf × RecId)
alloc_then next e s = do
  (p, page, answer) ← pf_alloc_page s.pf e.pf_fd (pos 0)
  next (with_pf s p) (page, answer)

abbrev pub is_full : Option ℕ → Bool
is_full none = true
is_full (some j) = false

-- The page is full: it is unpinned, and the loop goes on if that succeeded.
abbrev pub go_on : (Hf → Result (Hf × RecId)) → Hf × Bool → Result (Hf × RecId)
go_on next (s, true) = next s
go_on next (s, false) = ok (s, invalid)

-- One round of the loop over the pages: `next` is the rest of it.
unfoldable pub insert_in :
    ℤ → HfEntry → Buf → ℕ → (Hf → Result (Hf × RecId)) → Hf × PfAnswer → Result (Hf × RecId)
insert_in fd e rec i next (s, pf_failed code) = ok (s, invalid)
insert_in fd e rec i next (s, pf_page a) = do
  page ← at e.page_map (pos i)
  slot ← first_vacant (pos_part e.hdr.max_num_records) 0 (page_bytes s a)
  elim slot [
    | some j ↦
        write_record s fd e page a (page_bytes s a) (record { pagenum = pos i; recnum = pos j }) rec
    | none ↦ unpin s e.pf_fd page true >>= go_on next
  ]

-- The loop over the pages from `i` on, with `n` rounds left.
unfoldable pub insert_loop : ℕ → ℕ → ℤ → HfEntry → Buf → Hf → Result (Hf × RecId)
insert_loop zero i fd e rec s = alloc_then (extend_file fd e rec) e s
insert_loop (suc n) i fd e rec s = do
  page ← at e.page_map (pos i)
  got ← get_this_page s e.pf_fd page
  insert_in fd e rec i (insert_loop n (suc i) fd e rec) got

-- HF_InsertRec
unfoldable pub hf_insert_rec : Hf → ℤ → Buf → Result (Hf × RecId)
hf_insert_rec s fd rec = if not (is_hf_fd fd) then ok (s, invalid) else do
  e ← at s.file_table fd
  if not e.valid
      then ok (s, invalid)
      else if eq_ℤ e.hdr.numpages (pos 0)
      then alloc_then (start_file fd e rec) e s
      else insert_loop (pos_part e.hdr.numpages) 0 fd e rec s

-- `recid.pagenum >= hdr->numpages || recid.recnum >= hdr->maxNumRecords`
abbrev pub is_past : HfHdr → RecId → Bool
is_past hdr r = leb_ℤ hdr.numpages r.pagenum || leb_ℤ hdr.max_num_records r.recnum

abbrev pub unpinned_code : Hf × Bool → Hf × HfCode
unpinned_code (s, true) = (s, hfe_ok)
unpinned_code (s, false) = (s, hfe_pf)

-- One record less.
abbrev pub uncount_record : HfEntry → HfEntry
uncount_record e = record e {
  hdr = record e.hdr { numrecs = int_dec e.hdr.numrecs };
  hdrchanged = true;
}

-- HF_DeleteRec after PF_GetThisPage. A record that is not there leaves the page pinned.
unfoldable pub delete_in : ℤ → HfEntry → ℤ → RecId → Hf × PfAnswer → Result (Hf × HfCode)
delete_in fd e page r (s, pf_failed code) = ok (s, hfe_pf)
delete_in fd e page r (s, pf_page a) = do
  vacant ← is_vacant (page_bytes s a) r.recnum
  if vacant then ok (s, hfe_invalidrecord) else do
    b ← set_vacant (page_bytes s a) r.recnum true
    unpinned ← unpin (set_file (set_page s a b) fd (uncount_record e)) e.pf_fd page true
    ok (unpinned_code unpinned)

-- HF_DeleteRec
unfoldable pub hf_delete_rec : Hf → ℤ → RecId → Result (Hf × HfCode)
hf_delete_rec s fd r = if not (is_hf_fd fd) then ok (s, hfe_fd) else do
  e ← at s.file_table fd
  if not e.valid
      then ok (s, hfe_filenotopen)
      else if is_past e.hdr r
      then ok (s, hfe_invalidrecord)
      else do
        page ← at e.page_map r.pagenum
        got ← get_this_page s e.pf_fd page
        delete_in fd e page r got

-- HF_GetThisRec after PF_GetThisPage: the state, the caller's buffer and the code. A record that is
-- not there leaves the page pinned.
unfoldable pub read_in : HfEntry → ℤ → RecId → Buf → Hf × PfAnswer → Result (Hf × Buf × HfCode)
read_in e page r rec (s, pf_failed code) = ok (s, rec, hfe_pf)
read_in e page r rec (s, pf_page a) = do
  vacant ← is_vacant (page_bytes s a) r.recnum
  if vacant then ok (s, rec, hfe_invalidrecord) else do
    rec ← fetch_record s.blocks (page_bytes s a) e.hdr.max_num_records r.recnum rec
    unpinned ← unpin s e.pf_fd page false
    let (s, code) = unpinned_code unpinned
    ok (s, rec, code)

-- HF_GetThisRec
unfoldable pub hf_get_this_rec : Hf → ℤ → RecId → Buf → Result (Hf × Buf × HfCode)
hf_get_this_rec s fd r rec = if not (is_hf_fd fd) then ok (s, rec, hfe_fd) else do
  e ← at s.file_table fd
  if not e.valid
      then ok (s, rec, hfe_filenotopen)
      else if eq_ℤ e.hdr.numpages (pos 0)
      then ok (s, rec, hfe_eof)
      else if is_past e.hdr r
      then ok (s, rec, hfe_invalidrecord)
      else do
        page ← at e.page_map r.pagenum
        got ← get_this_page s e.pf_fd page
        read_in e page r rec got

-- HF_ValidRecId
unfoldable pub hf_valid_rec_id : Hf → ℤ → RecId → Result Bool
hf_valid_rec_id s fd r =
    if ltb_ℤ r.pagenum (pos 0) || ltb_ℤ r.recnum (pos 0)
    then ok false
    else if not (is_hf_fd fd)
    then ok false
    else do
      e ← at s.file_table fd
      if not e.valid
          then ok false
          else ok (ltb_ℤ r.pagenum e.hdr.numpages && ltb_ℤ r.recnum e.hdr.numrecs)
