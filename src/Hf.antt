-- ===== src/Hf.antt =====
-- hf/hf.c: files of records over the pages of pf/pf.c, with their table and the table of scans.
use adb_minirel.Prelude.{
  ℕ, zero, suc, Bool, true, false, not, ◌&&◌, List, map, Option, none, some, get_elem?, set, ltb,
}
use adb_minirel.Prelude.Int.{ℤ, pos, negsuc, eq_ℤ, ltb_ℤ, leb_ℤ}
use adb_minirel.Prelude.Result.{Result, ok, fault, out_of_bounds, ◌>>=◌}
use adb_minirel.Memory.{Ptr}
use adb_minirel.Unix.{Name, Buf}
use adb_minirel.Bf.Api.{set_frame}
use adb_minirel.Pf.{Pf, PfCode, pfe_ok, PfAnswer, pf_init}
use adb_minirel.Pf.Pages.{pf_get_this_page, pf_unpin_page}
use adb_minirel.Hf.Bytes.{Blocks, load_int}
pub mod Bytes
pub mod State
pub mod Pins
pub mod Files
pub mod Records
pub mod Cursor
pub mod Scans
pub mod Unpinning
pub mod Reading
pub mod Writing
pub mod Resident
pub mod Inserting
pub mod RoundTrip
pub mod Tests

-- h/hf.h
abbrev pub hf_ftab_size : ℕ
hf_ftab_size = 20

abbrev pub maxscans : ℕ
maxscans = 20

abbrev pub page_size : ℕ
page_size = 4096

pub data HfCode : Type 0 where
  hfe_ok : HfCode
  hfe_pf : HfCode
  hfe_ftabfull : HfCode
  hfe_stabfull : HfCode
  hfe_fd : HfCode
  hfe_sd : HfCode
  hfe_invalidrecord : HfCode
  hfe_eof : HfCode
  hfe_recsize : HfCode
  hfe_fileopen : HfCode
  hfe_scanopen : HfCode
  hfe_filenotopen : HfCode
  hfe_scannotopen : HfCode
  hfe_attrtype : HfCode
  hfe_attrlength : HfCode
  hfe_attroffset : HfCode
  hfe_operator : HfCode

-- RECID of h/minirel.h, and the value `invalid` of the functions that return one.
pub record RecId : Type 0 where
  pub pagenum : ℤ
  pub recnum : ℤ

abbrev pub invalid : RecId
invalid = record { pagenum = negsuc 0; recnum = negsuc 0 }

-- The test of HF_FindNextRec on the identifier that HF_GetNextRec returned.
abbrev pub is_invalid : RecId → Bool
is_invalid r = eq_ℤ r.recnum invalid.recnum && eq_ℤ r.pagenum invalid.pagenum

-- HFhdr_str
pub record HfHdr : Type 0 where
  pub numrecs : ℤ
  pub numpages : ℤ
  pub max_num_records : ℤ
  pub recsize : ℤ

-- A `char *filename`: null as the loader leaves it, freed, or a C string.
pub data FileName : Type 0 where
  no_name : FileName
  freed_name : FileName
  named : Name → FileName

-- HFftab_ele
pub record HfEntry : Type 0 where
  pub valid : Bool
  pub pf_fd : ℤ
  pub filename : FileName
  pub hdr : HfHdr
  pub hdrchanged : Bool
  pub scan_active : Bool
  pub page_map : List ℤ

-- HFScanTab_ele. `value` is the block that the pointer leads to, `type` a character.
pub record ScanEntry : Type 0 where
  pub valid : Bool
  pub hf_fd : ℤ
  pub offset : ℤ
  pub op : ℤ
  pub type : ℕ
  pub value : Buf
  pub last_scanned_rec : RecId

-- The file-scope variables of hf/hf.c, those of the layers below, and the blocks of memory that hold
-- the records.
pub record Hf : Type 0 where
  pub pf : Pf
  pub blocks : Blocks
  pub file_table : List HfEntry
  pub scan_table : List ScanEntry

-- `HFfd < 0 || HFfd >= HF_FTAB_SIZE` is its negation.
abbrev pub is_hf_fd : ℤ → Bool
is_hf_fd fd = leb_ℤ (pos 0) fd && ltb_ℤ fd (pos hf_ftab_size)

-- `scanDesc < 0 || scanDesc >= MAXSCANS` is its negation.
abbrev pub is_scan : ℤ → Bool
is_scan sd = leb_ℤ (pos 0) sd && ltb_ℤ sd (pos maxscans)

-- `HFfile_table[HFfd]`, `scan_table[scanDesc]`, `file->pageMap[i]`
abbrev pub at {ℓ} : {A : Type ℓ} → List A → ℤ → Result A
at xs (negsuc n) = fault out_of_bounds
at xs (pos i) = elim (get_elem? xs i) [ none ↦ fault out_of_bounds | some a ↦ ok a ]

-- A write of the element that `at` read.
abbrev pub put {ℓ} : {A : Type ℓ} → List A → ℤ → A → List A
put xs (negsuc n) a = xs
put xs (pos i) a = set xs i a

abbrev pub set_file : Hf → ℤ → HfEntry → Hf
set_file s fd e = record s { file_table = put s.file_table fd e }

abbrev pub set_scan : Hf → ℤ → ScanEntry → Hf
set_scan s sd e = record s { scan_table = put s.scan_table sd e }

abbrev pub with_pf : Hf → Pf → Hf
with_pf s p = record s { pf = p }

-- HF_Init. The scan table is left as it is.
unfoldable pub hf_init : Hf → Result Hf
hf_init s = do
  p ← pf_init s.pf
  ok (record s {
    pf = p;
    file_table = map (λ (e : HfEntry). record e { valid = false }) s.file_table;
  })

-- A page as `pagebuf` shows it, and a write of its bytes.
abbrev pub page_bytes : Hf → Ptr → Buf
page_bytes s a = (s.pf.pool.frame a).fpage

abbrev pub set_page : Hf → Ptr → Buf → Hf
set_page s a b =
    let pool = s.pf.pool in
    record s { pf = record s.pf { pool = set_frame pool a (record (pool.frame a) { fpage = b }) } }

-- The header page of a file.
unfoldable pub load_header : Buf → Result HfHdr
load_header b = do
  numrecs ← load_int b (pos 0)
  numpages ← load_int b (pos 4)
  max ← load_int b (pos 8)
  recsize ← load_int b (pos 12)
  ok (record { numrecs = numrecs; numpages = numpages; max_num_records = max; recsize = recsize })

abbrev pub is_pfe_ok : PfCode → Bool
is_pfe_ok pfe_ok = true
is_pfe_ok _ = false

-- PF_UnpinPage, and its code as HF sees it.
abbrev pub unpin : Hf → ℤ → ℤ → Bool → Result (Hf × Bool)
unpin s fd pagenum dirty = do
  (p, code) ← pf_unpin_page s.pf fd pagenum dirty
  ok (with_pf s p, is_pfe_ok code)

-- PF_GetThisPage
abbrev pub get_this_page : Hf → ℤ → ℤ → Result (Hf × PfAnswer)
get_this_page s fd pagenum = do
  (p, answer) ← pf_get_this_page s.pf fd pagenum
  ok (with_pf s p, answer)
