-- ===== src/Pf.antt =====
-- pf/pf.c: files of pages over the buffer pool, and the table of open files.
pub mod Header
pub mod Pages
pub mod State
pub mod Unpin
pub mod Get
pub mod Negative
pub mod Alloc
pub mod Files
pub mod Close
pub mod Reopen
pub mod Init
pub mod Tests
use adb_minirel.Prelude.{
  ℕ, zero, suc, ◌+◌, Bool, true, false, not, ◌&&◌, ◌||◌, ◌==◌, if◌then◌else◌, ltb, List, [], ◌∷◌,
  map, Option, none, some, get_elem?, set, replicate,
}
use adb_minirel.Prelude.Int.{ℤ, pos, negsuc, ltb_ℤ, leb_ℤ, int_inc, int_dec}
use adb_minirel.Prelude.Result.{Result, ok, fault, out_of_bounds, ◌>>=◌}
use adb_minirel.Memory.{Ptr}
use adb_minirel.Unix.{Unix, Name, Buf, write_at}
use adb_minirel.Unix.Files.{
  eq_name, stat, open_file, create_file, close_file, fstat, unlink_file, read_start, write_start,
}
use adb_minirel.Bf.{
  BfCode, bfe_ok, bfe_pagefixed, bfe_pageunfixed, bfe_pageinbuf, bfe_pagenotinbuf,
  bfe_incompleteread, bfe_incompletewrite, BfReq, Pool, Answer, page, failed,
}
use adb_minirel.Bf.Api.{bf_init, bf_get_buf, bf_alloc_buf, bf_unpin_buf, bf_touch_buf, bf_flush_buf}
use adb_minirel.Pf.Header.{header_bytes, header_of}

-- h/pf.h
abbrev pub pf_ftab_size : ℕ
pf_ftab_size = 20

pub data PfCode : Type 0 where
  pfe_ok : PfCode
  pfe_invalidpage : PfCode
  pfe_pagefree : PfCode
  pfe_ftabfull : PfCode
  pfe_fd : PfCode
  pfe_eof : PfCode
  pfe_fileopen : PfCode
  pfe_filenotopen : PfCode
  pfe_hdrread : PfCode
  pfe_hdrwrite : PfCode
  pfe_unix : PfCode

-- PFftab_ele; `numpages` is the only field of its header.
pub record FtabEle : Type 0 where
  pub valid : Bool
  pub inode : ℕ
  pub filename : Name
  pub unixfd : ℕ
  pub numpages : ℤ
  pub hdrchanged : Bool

-- The file-scope variables of pf/pf.c, and those of the layer below.
pub record Pf : Type 0 where
  pub pool : Pool
  pub file_table : List FtabEle

-- What a call that returns a page returns: a code, or the address written to `*pagebuf`.
pub data PfAnswer : Type 0 where
  pf_page : Ptr → PfAnswer
  pf_failed : PfCode → PfAnswer

-- What PF_OpenFile returns: a descriptor, or a code, which is negative.
pub data PfOpened : Type 0 where
  opened_as : ℕ → PfOpened
  not_opened : PfCode → PfOpened

abbrev pub with_unix : Pf → Unix → Pf
with_unix s u = record s { pool = record s.pool { unix = u } }

-- `fd < 0 || fd >= PF_FTAB_SIZE` is its negation.
abbrev pub is_fd : ℤ → Bool
is_fd fd = leb_ℤ (pos 0) fd && ltb_ℤ fd (pos pf_ftab_size)

-- `file_table[fd]`
abbrev pub entry_at : Pf → ℤ → Result FtabEle
entry_at s (negsuc n) = fault out_of_bounds
entry_at s (pos i) = elim (get_elem? s.file_table i) [ none ↦ fault out_of_bounds | some e ↦ ok e ]

-- A write of the entry that `entry_at` read.
abbrev pub set_entry : Pf → ℤ → FtabEle → Pf
set_entry s (negsuc n) e = s
set_entry s (pos i) e = record s { file_table = set s.file_table i e }

-- PF_Init
unfoldable pub pf_init : Pf → Result Pf
pf_init s = do
  pool ← bf_init s.pool
  ok (record {
    pool = pool;
    file_table = map (λ (e : FtabEle). record e { valid = false }) s.file_table;
  })

abbrev pub unix_code : Bool → PfCode
unix_code true = pfe_ok
unix_code false = pfe_unix

-- The header page of a new file: PAGE_SIZE bytes of zero.
unfoldable pub zero_page : Buf
zero_page = replicate 4096 0

-- PF_CreateFile after the write of the header.
abbrev pub close_created : ℕ → Unix × Bool → Unix × PfCode
close_created fd (u, false) = (u, pfe_hdrwrite)
close_created fd (u, true) = let (u, closed) = close_file u fd in (u, unix_code closed)

-- PF_CreateFile after `open`. A call that succeeds has not set `errno`.
abbrev pub create_header : Unix × Option ℕ → Unix × PfCode
create_header (u, none) = (u, pfe_unix)
create_header (u, some fd) =
    if u.eexist then (u, pfe_unix) else close_created fd (write_at u fd 0 zero_page)

-- PF_CreateFile
unfoldable pub pf_create_file : Pf → Name → Pf × PfCode
pf_create_file s name =
    let (u, code) = create_header (create_file s.pool.unix name) in (with_unix s u, code)

-- Is a file open under the name?
abbrev pub is_open_name : List FtabEle → Name → Bool
is_open_name [] name = false
is_open_name (e ∷ es) name = (e.valid && eq_name e.filename name) || is_open_name es name

abbrev pub unlink_code : Unix × Bool → Unix × PfCode
unlink_code (u, done) = (u, unix_code done)

-- PF_DestroyFile after `stat`.
abbrev pub destroy : List FtabEle → Name → Unix × Bool → Unix × PfCode
destroy table name (u, false) = (u, pfe_unix)
destroy table name (u, true) =
    if is_open_name table name then (u, pfe_fileopen) else unlink_code (unlink_file u name)

-- PF_DestroyFile
unfoldable pub pf_destroy_file : Pf → Name → Pf × PfCode
pf_destroy_file s name =
    let (u, code) = destroy s.file_table name (stat s.pool.unix name) in (with_unix s u, code)

-- The index of the first entry that is not in use.
abbrev pub first_free : List FtabEle → Option ℕ
first_free [] = none
first_free (e ∷ es) =
    if e.valid then elim (first_free es) [ none ↦ none | some i ↦ some (suc i) ] else some 0

-- PF_OpenFile after `fstat`.
abbrev pub fill_entry : Pf → Name → ℕ → ℕ → ℤ → Unix × Option ℕ → Pf × PfOpened
fill_entry s name i unixfd numpages (u, none) = (with_unix s u, not_opened pfe_hdrread)
fill_entry s name i unixfd numpages (u, some inode) = (
  set_entry (with_unix s u) (pos i) (record {
    valid = true;
    inode = inode;
    filename = name;
    unixfd = unixfd;
    numpages = numpages;
    hdrchanged = false;
  }),
  opened_as i,
)

-- PF_OpenFile after `read`. A read of fewer bytes is an error as well.
abbrev pub open_header : Pf → Name → ℕ → ℕ → Unix × Option Buf → Pf × PfOpened
open_header s name i unixfd (u, none) = (with_unix s u, not_opened pfe_hdrread)
open_header s name i unixfd (u, some bytes) = elim (header_of bytes) [
  | none ↦ (with_unix s u, not_opened pfe_hdrread)
  | some numpages ↦ fill_entry s name i unixfd numpages (fstat u unixfd)
]

-- PF_OpenFile after `open`.
abbrev pub open_at : Pf → Name → ℕ → Unix × Option ℕ → Pf × PfOpened
open_at s name i (u, none) = (with_unix s u, not_opened pfe_hdrread)
open_at s name i (u, some unixfd) = open_header s name i unixfd (read_start u unixfd 4)

-- PF_OpenFile after `stat`.
abbrev pub open_existing : Pf → Name → Unix × Bool → Pf × PfOpened
open_existing s name (u, false) = (with_unix s u, not_opened pfe_unix)
open_existing s name (u, true) = elim (first_free s.file_table) [
  | none ↦ (with_unix s u, not_opened pfe_ftabfull)
  | some i ↦ open_at s name i (open_file u name)
]

-- PF_OpenFile. The name is kept whole, as if the copy of it had room for its end.
unfoldable pub pf_open_file : Pf → Name → Pf × PfOpened
pf_open_file s name = open_existing s name (stat s.pool.unix name)
