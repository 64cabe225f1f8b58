-- ===== src/Hf/Files.antt =====
-- hf/hf.c: creating, destroying, opening and closing a file of records.
pub mod Capacity
pub mod Names
pub mod Header
use adb_minirel.Prelude.{
  ℕ, zero, suc, ◌+◌, ◌-◌, ◌/◌, Bool, true, false, not, ◌&&◌, List, [], ◌∷◌, Option, none, some, set,
  ltb, ◌==◌, if◌then◌else◌,
}
use adb_minirel.Prelude.Int.{ℤ, pos, negsuc, leb_ℤ, ◌+ℤ◌, sub_ℕ, int_dec}
use adb_minirel.Prelude.Result.{
  Result, ok, fault, null_pointer, dangling_pointer, out_of_bounds, division_by_zero, ◌>>=◌,
}
use adb_minirel.Unix.{Name, Buf}
use adb_minirel.Unix.Files.{eq_name}
use adb_minirel.Pf.{
  Pf, PfCode, pfe_ok, PfAnswer, pf_page, pf_failed, PfOpened, opened_as, not_opened, pf_create_file,
  pf_destroy_file, pf_open_file,
}
use adb_minirel.Pf.Pages.{pf_alloc_page, pf_get_first_page, pf_close_file}
use adb_minirel.Hf.Bytes.{store_int}
use adb_minirel.Hf.{
  HfCode, hfe_ok, hfe_pf, hfe_ftabfull, hfe_fd, hfe_recsize, hfe_fileopen, hfe_scanopen,
  hfe_filenotopen, HfHdr, FileName, no_name, freed_name, named, HfEntry, Hf, is_hf_fd, at, set_file,
  with_pf, page_size, page_bytes, set_page, load_header, is_pfe_ok, unpin,
}

-- `floor(PAGE_SIZE/(recSize + 1))`: the division is C's, of two `int`s.
unfoldable pub records_per_page : ℤ → Result ℤ
records_per_page (pos n) = ok (pos (page_size / suc n))
records_per_page (negsuc zero) = fault division_by_zero
records_per_page (negsuc (suc n)) = ok (sub_ℕ 0 (page_size / suc n))

-- The header of a new file, written into the page that was just allocated.
unfoldable pub new_header : Buf → (recsize max : ℤ) → Result Buf
new_header b recsize max = do
  b ← store_int b (pos 0) (pos 0)
  b ← store_int b (pos 4) (pos 0)
  b ← store_int b (pos 12) recsize
  store_int b (pos 8) max

abbrev pub pf_code : Bool → HfCode
pf_code true = hfe_ok
pf_code false = hfe_pf

-- PF_CloseFile at the end of HF_CreateFile.
unfoldable pub close_new : ℤ → Hf × Bool → Result (Hf × HfCode)
close_new fd (s, false) = ok (s, hfe_pf)
close_new fd (s, true) = do
  (p, code) ← pf_close_file s.pf fd
  ok (with_pf s p, pf_code (is_pfe_ok code))

-- HF_CreateFile after PF_AllocPage.
unfoldable pub fill_new : ℤ → ℤ → Hf → ℤ × PfAnswer → Result (Hf × HfCode)
fill_new fd recsize s (pagenum, pf_failed code) = ok (s, hfe_pf)
fill_new fd recsize s (pagenum, pf_page a) = do
  max ← records_per_page recsize
  b ← new_header (page_bytes s a) recsize max
  unpinned ← unpin (set_page s a b) fd pagenum true
  close_new fd unpinned

-- HF_CreateFile after PF_OpenFile.
unfoldable pub alloc_header : ℤ → Hf → PfOpened → Result (Hf × HfCode)
alloc_header recsize s (not_opened code) = ok (s, hfe_pf)
alloc_header recsize s (opened_as fd) = do
  (p, pagenum, answer) ← pf_alloc_page s.pf (pos fd) (pos 0)
  fill_new (pos fd) recsize (with_pf s p) (pagenum, answer)

-- HF_CreateFile after PF_CreateFile.
unfoldable pub open_new : ℤ → Hf → Name → Pf × PfCode → Result (Hf × HfCode)
open_new recsize s name (p, pfe_ok) =
    let (p, opened) = pf_open_file p name in alloc_header recsize (with_pf s p) opened
open_new recsize s name (p, code) = ok (with_pf s p, hfe_pf)

-- HF_CreateFile
unfoldable pub hf_create_file : Hf → Name → ℤ → Result (Hf × HfCode)
hf_create_file s name recsize =
    if leb_ℤ (pos page_size) recsize
    then ok (s, hfe_recsize)
    else open_new recsize s name (pf_create_file s.pf name)

-- `strcmp(file->filename, filename) == 0`
unfoldable pub name_is : FileName → Name → Result Bool
name_is no_name name = fault null_pointer
name_is freed_name name = fault dangling_pointer
name_is (named other) name = ok (eq_name other name)

-- The loop of HF_DestroyFile: is the file open? Every entry's name is compared, in use or not.
unfoldable pub is_open_file : List HfEntry → Name → Result Bool
is_open_file [] name = ok false
is_open_file (e ∷ es) name = do
  let rest = is_open_file es name
  same ← name_is e.filename name
  if same then ok e.valid else rest

-- HF_DestroyFile
unfoldable pub hf_destroy_file : Hf → Name → Result (Hf × HfCode)
hf_destroy_file s name = do
  busy ← is_open_file s.file_table name
  if busy
      then ok (s, hfe_fileopen)
      else let (p, code) = pf_destroy_file s.pf name in ok (with_pf s p, pf_code (is_pfe_ok code))

-- The index of the first entry that is not in use.
abbrev pub free_entry : List HfEntry → Option ℕ
free_entry [] = none
free_entry (e ∷ es) =
    if e.valid then elim (free_entry es) [ none ↦ none | some i ↦ some (suc i) ] else some 0

-- The loop that marks the entries of the page map from `k` on, with `n` rounds left.
abbrev pub unmap_from : ℕ → ℕ → List ℤ → List ℤ
unmap_from zero k m = m
unmap_from (suc n) k m = unmap_from n (suc k) (set m k (negsuc 0))

unfoldable pub unmap : ℤ → List ℤ → Result (List ℤ)
unmap (negsuc n) m = fault out_of_bounds
unmap (pos k) m = ok (unmap_from (100 - k) k m)

-- What HF_OpenFile returns: a descriptor, or a code, which is negative.
pub data HfOpened : Type 0 where
  hf_opened : ℕ → HfOpened
  hf_not_opened : HfCode → HfOpened

abbrev pub opened_or : ℕ → Bool → HfOpened
opened_or i true = hf_opened i
opened_or i false = hf_not_opened hfe_pf

-- HF_OpenFile after PF_GetFirstPage.
unfoldable pub read_header : ℕ → HfEntry → Hf → ℤ × PfAnswer → Result (Hf × HfOpened)
read_header i e s (pagenum, pf_failed code) = ok (s, hf_not_opened hfe_pf)
read_header i e s (pagenum, pf_page a) = do
  hdr ← load_header (page_bytes s a)
  m ← unmap hdr.numpages e.page_map
  let e = record e { hdr = hdr; page_map = m; hdrchanged = false; scan_active = false }
  (s, done) ← unpin (set_file s (pos i) e) e.pf_fd pagenum false
  ok (s, opened_or i done)

-- HF_OpenFile after PF_OpenFile: the entry is in use from here on. The name is kept whole, as if the
-- copy of it had room for its end.
unfoldable pub claim_entry : Hf → Name → ℕ → Pf × PfOpened → Result (Hf × HfOpened)
claim_entry s name i (p, not_opened code) = ok (with_pf s p, hf_not_opened hfe_pf)
claim_entry s name i (p, opened_as fd) = do
  old ← at s.file_table (pos i)
  let e = record old { valid = true; filename = named name; pf_fd = pos fd }
  (p, pagenum, answer) ← pf_get_first_page p (pos fd)
  read_header i e (set_file (with_pf s p) (pos i) e) (pagenum, answer)

-- HF_OpenFile
unfoldable pub hf_open_file : Hf → Name → Result (Hf × HfOpened)
hf_open_file s name = elim (free_entry s.file_table) [
  | none ↦ ok (s, hf_not_opened hfe_ftabfull)
  | some i ↦ claim_entry s name i (pf_open_file s.pf name)
]

-- The header that goes back to the file; `maxNumRecords` is not written.
unfoldable pub save_header : Buf → HfHdr → Result Buf
save_header b hdr = do
  b ← store_int b (pos 0) hdr.numrecs
  b ← store_int b (pos 4) hdr.numpages
  store_int b (pos 12) hdr.recsize

-- HF_CloseFile after PF_GetFirstPage: false if the function returns HFE_PF.
unfoldable pub write_back_header : HfEntry → Hf → ℤ × PfAnswer → Result (Hf × Bool)
write_back_header e s (pagenum, pf_failed code) = ok (s, false)
write_back_header e s (pagenum, pf_page a) = do
  b ← save_header (page_bytes s a) e.hdr
  unpin (set_page s a b) e.pf_fd pagenum true

-- The header is written back if it was changed.
unfoldable pub flush_header : HfEntry → Hf → Result (Hf × Bool)
flush_header e s = if not e.hdrchanged then ok (s, true) else do
  (p, pagenum, answer) ← pf_get_first_page s.pf e.pf_fd
  write_back_header e (with_pf s p) (pagenum, answer)

-- PF_CloseFile and the last lines of HF_CloseFile.
unfoldable pub release_entry : ℤ → HfEntry → Hf × Bool → Result (Hf × HfCode)
release_entry fd e (s, false) = ok (s, hfe_pf)
release_entry fd e (s, true) = do
  (p, code) ← pf_close_file s.pf e.pf_fd
  if is_pfe_ok code
      then ok
          (set_file (with_pf s p) fd (record e { valid = false; filename = freed_name }), hfe_ok)
      else ok (with_pf s p, hfe_pf)

-- HF_CloseFile
unfoldable pub hf_close_file : Hf → ℤ → Result (Hf × HfCode)
hf_close_file s fd = if not (is_hf_fd fd) then ok (s, hfe_fd) else do
  e ← at s.file_table fd
  if not e.valid
      then ok (s, hfe_filenotopen)
      else if e.scan_active
      then ok (s, hfe_scanopen)
      else flush_header e s >>= release_entry fd e
