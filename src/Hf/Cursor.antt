-- ===== src/Hf/Cursor.antt =====
-- hf/hf.c: the first record of a file, and the one after a given one.
pub mod First
pub mod Fuel
pub mod Residency
pub mod Ends
use adb_minirel.Prelude.{ℕ, zero, suc, ◌+◌, ◌*◌, Bool, true, false, not, List, if◌then◌else◌}
use adb_minirel.Prelude.Int.{ℤ, pos, negsuc, pos_part, eq_ℤ, int_inc, int_dec}
use adb_minirel.Prelude.Result.{Result, ok, fault, out_of_fuel, ◌>>=◌}
use adb_minirel.Memory.{Ptr}
use adb_minirel.Unix.{Buf}
use adb_minirel.Pf.{PfAnswer, pf_page, pf_failed}
use adb_minirel.Hf.Bytes.{is_vacant, fetch_record}
use adb_minirel.Hf.{RecId, invalid, HfEntry, Hf, is_hf_fd, at, page_bytes, unpin, get_this_page}
use adb_minirel.Hf.Records.{is_past}

-- What these functions return: the state, the caller's buffer, and the identifier.
abbrev pub Found : Type 0
Found = Hf × Buf × RecId

abbrev pub found_rec : RecId → Buf → Hf × Bool → Found
found_rec r rec (s, true) = (s, rec, r)
found_rec r rec (s, false) = (s, rec, invalid)

abbrev pub go_on : Buf → (Hf → Result Found) → Hf × Bool → Result Found
go_on rec next (s, true) = next s
go_on rec next (s, false) = ok (s, rec, invalid)

-- The loop of HF_GetFirstRec over the records of a page from `j` on, with `n` left. The page is
-- unpinned after every record that is not there, and once more after the loop.
unfoldable pub first_in :
    ℕ → ℕ → HfEntry → ℕ → ℤ → Ptr → Buf → (Hf → Result Found) → Hf → Result Found
first_in zero j e i page a rec next s = unpin s e.pf_fd page false >>= go_on rec next
first_in (suc n) j e i page a rec next s = do
  vacant ← is_vacant (page_bytes s a) (pos j)
  let rest = first_in n (suc j) e i page a rec next
  if vacant then unpin s e.pf_fd page false >>= go_on rec rest else do
    rec ← fetch_record s.blocks (page_bytes s a) e.hdr.max_num_records (pos j) rec
    unpinned ← unpin s e.pf_fd page false
    ok (found_rec (record { pagenum = pos i; recnum = pos j }) rec unpinned)

-- One round of the loop over the pages: `next` is the rest of it.
unfoldable pub first_on : HfEntry → ℕ → ℤ → Buf → (Hf → Result Found) → Hf × PfAnswer → Result Found
first_on e i page rec next (s, pf_failed code) = ok (s, rec, invalid)
first_on e i page rec next (s, pf_page a) =
    first_in (pos_part e.hdr.max_num_records) 0 e i page a rec next s

-- The loop of HF_GetFirstRec over the pages from `i` on, with `n` left.
unfoldable pub first_loop : ℕ → ℕ → HfEntry → Buf → Hf → Result Found
first_loop zero i e rec s = ok (s, rec, invalid)
first_loop (suc n) i e rec s = do
  page ← at e.page_map (pos i)
  got ← get_this_page s e.pf_fd page
  first_on e i page rec (first_loop n (suc i) e rec) got

-- HF_GetFirstRec
unfoldable pub hf_get_first_rec : Hf → ℤ → Buf → Result Found
hf_get_first_rec s fd rec = if not (is_hf_fd fd) then ok (s, rec, invalid) else do
  e ← at s.file_table fd
  if not e.valid
      then ok (s, rec, invalid)
      else if eq_ℤ e.hdr.numpages (pos 0)
      then ok (s, rec, invalid)
      else first_loop (pos_part e.hdr.numpages) 0 e rec s

-- Is it the last record of a page?
abbrev pub is_last : HfEntry → RecId → Bool
is_last e r = eq_ℤ r.recnum (int_dec e.hdr.max_num_records)

-- The place after a record.
abbrev pub next_place : HfEntry → RecId → RecId
next_place e r =
    if is_last e r
    then record { pagenum = int_inc r.pagenum; recnum = pos 0 }
    else record { pagenum = r.pagenum; recnum = int_inc r.recnum }

-- The loop of HF_GetNextRec goes on with a page: `next` is given its address.
unfoldable pub enter_page : Buf → (Ptr → Hf → Result Found) → Hf × PfAnswer → Result Found
enter_page rec next (s, pf_failed code) = ok (s, rec, invalid)
enter_page rec next (s, pf_page a) = next a s

-- `pageMap[pagenum]` is looked up, and the page fetched unless the entry is -1.
unfoldable pub fetch_page : HfEntry → ℤ → Buf → (Ptr → Hf → Result Found) → Hf → Result Found
fetch_page e pagenum rec next s = do
  page ← at e.page_map pagenum
  if eq_ℤ page (negsuc 0)
      then ok (s, rec, invalid)
      else get_this_page s e.pf_fd page >>= enter_page rec next

-- The lines after the loop of HF_GetNextRec.
unfoldable pub take_record : HfEntry → Buf → RecId → Ptr → Hf → Result Found
take_record e rec r a s = do
  rec ← fetch_record s.blocks (page_bytes s a) e.hdr.max_num_records r.recnum rec
  page ← at e.page_map r.pagenum
  unpinned ← unpin s e.pf_fd page false
  ok (found_rec r rec unpinned)

-- The loop of HF_GetNextRec, with fuel for the places that are left.
unfoldable pub next_loop : ℕ → HfEntry → Buf → RecId → Ptr → Hf → Result Found
next_loop zero e rec r a s = fault out_of_fuel
next_loop (suc n) e rec r a s = do
  let rest = next_loop n e rec (next_place e r)
  vacant ← is_vacant (page_bytes s a) r.recnum
  if not vacant
      then take_record e rec r a s
      else if is_last e r
      then (do
        page ← at e.page_map r.pagenum
        unpinned ← unpin s e.pf_fd page false
        go_on rec (fetch_page e (int_inc r.pagenum) rec rest) unpinned)
      else rest a s

-- The page map has 100 entries.
abbrev pub next_fuel : HfEntry → ℕ
next_fuel e = suc (101 * pos_part e.hdr.max_num_records)

-- HF_GetNextRec
unfoldable pub hf_get_next_rec : Hf → ℤ → RecId → Buf → Result Found
hf_get_next_rec s fd r rec = if not (is_hf_fd fd) then ok (s, rec, invalid) else do
  e ← at s.file_table fd
  if not e.valid
      then ok (s, rec, invalid)
      else if eq_ℤ e.hdr.numpages (pos 0)
      then ok (s, rec, invalid)
      else if is_past e.hdr r
      then ok (s, rec, invalid)
      else let r = next_place e r in fetch_page e r.pagenum rec (next_loop (next_fuel e) e rec r) s
