-- ===== src/Pf/Files.antt =====
-- PF_CreateFile, PF_DestroyFile and PF_OpenFile of pf/pf.c.
use adb_minirel.Prelude.{
  ℕ, suc, ◌<◌, ◌≡◌, refl, ◌⊎◌, inl, inr, true, false, List, [], ◌∷◌, some, none, arith, ◌==◌,
  ==_refl, take, length, get_elem?, get_elem?-set, set, ltb, Bool-cases, Option-cases, ◌∙◌, ap,
}
use adb_minirel.Prelude.Int.{ℤ, pos}
use adb_minirel.Unix.{Unix, Name, write_at}
use adb_minirel.Unix.Files.{eq_name, stat, open_file, create_file, close_file, fstat, read_start}
use adb_minirel.Pf.{
  pfe_ok, pfe_unix, pfe_fileopen, FtabEle, Pf, opened_as, zero_page, pf_create_file, is_open_name,
  pf_destroy_file, first_free, pf_open_file,
}
use adb_minirel.Pf.Header.{header_of}

eq_name_refl : (a : Name) → eq_name a a ≡ true
eq_name_refl [] = refl
eq_name_refl (x ∷ xs) = ground (arith, eq_name_refl xs)

-- The name leads to a file with a page whose first bytes are the header of `numpages` pages.
pub record HasHeader (u : Unix) (name : Name) (numpages : ℤ) : Type 0 where
  pub inode : ℕ
  pub named : u.directory name ≡ some inode
  pub sized : ltb 0 (u.file inode).size ≡ true
  pub header : header_of (take 4 ((u.file inode).block 0)) ≡ some numpages

zero_page-header_of : header_of (take 4 zero_page) ≡ some (pos 0)
unfolding header_of zero_page
zero_page-header_of = refl

pub pf_create_file-HasHeader :
    (s : Pf) (name : Name)
    → (pf_create_file s name).1 ≡ pfe_ok
    → HasHeader (pf_create_file s name).0.pool.unix name (pos 0)
unfolding pf_create_file create_file write_at close_file
pf_create_file-HasHeader s name run =
    let same = eq_name_refl name in
    let zeros = zero_page-header_of in
    let self = ==_refl s.pool.unix.next_inode in
    let self_fd = ==_refl s.pool.unix.next_descriptor in
    record {
      inode = s.pool.unix.next_inode;
      named = ground arith;
      sized = ground arith;
      header = ground arith;
    }

-- If an earlier call has left EEXIST in errno, the name is new and open succeeds, PF_CreateFile
-- returns PFE_UNIX although it has created the file.
pub pf_create_file-stale_errno :
    (s : Pf) (name : Name)
    → s.pool.unix.errors s.pool.unix.calls ≡ false
    → s.pool.unix.directory name ≡ none
    → s.pool.unix.eexist ≡ true
    → ((pf_create_file s name).1 ≡ pfe_unix)
      × ((pf_create_file s name).0.pool.unix.directory name ≡ some s.pool.unix.next_inode)
unfolding pf_create_file create_file
pf_create_file-stale_errno s name good new e = ground (arith, eq_name_refl name)

-- PF_DestroyFile of a name under which a file is open returns PFE_FILEOPEN or, where stat fails,
-- PFE_UNIX, and every name still leads where it led.
pub pf_destroy_file-open :
    (s : Pf) (name : Name)
    → is_open_name s.file_table name ≡ true
    → (((pf_destroy_file s name).1 ≡ pfe_fileopen) ⊎ ((pf_destroy_file s name).1 ≡ pfe_unix))
      × ((pf_destroy_file s name).0.pool.unix.directory ≡ s.pool.unix.directory)
unfolding pf_destroy_file stat
pf_destroy_file-open s name e = ground arith

-- The entry of a file that was just opened.
abbrev pub opened_entry : ℕ → ℕ → Name → ℤ → FtabEle
opened_entry inode unixfd name numpages = record {
  valid = true;
  inode = inode;
  filename = name;
  unixfd = unixfd;
  numpages = numpages;
  hdrchanged = false;
}

first_free-not_valid :
    (table : List FtabEle) (i : ℕ)
    → first_free table ≡ some i
    → (e : FtabEle) × (get_elem? table i ≡ some e) × (e.valid ≡ false) × (i < length table)
first_free-not_valid [] i h = cc
first_free-not_valid (x ∷ xs) i h = elim (Bool-cases x.valid) [
  | inr unused ↦ let at : i ≡ 0 = ground arith in rw at (x, refl, unused, omega arith)
  | inl busy ↦ elim (Option-cases (first_free xs)) [
    | inl full ↦ absurd (let k = h in ground arith)
    | inr (k, there) ↦
        let at : i ≡ suc k = ground arith in
        let (e, found, unused, inside) = first_free-not_valid xs k there in
        rw at (e, found, unused, omega (arith, inside))
  ]
]

pub pf_open_file-HasHeader :
    (s : Pf) (name : Name) (numpages : ℤ) (i : ℕ) (w : HasHeader s.pool.unix name numpages)
    → (pf_open_file s name).1 ≡ opened_as i
    → (first_free s.file_table ≡ some i)
      × ((pf_open_file s name).0.file_table
          ≡ set s.file_table i (opened_entry w.inode s.pool.unix.next_descriptor name numpages))
unfolding pf_open_file stat open_file read_start fstat
pf_open_file-HasHeader s name numpages i w run =
    let self_fd = ==_refl s.pool.unix.next_descriptor in
    let named = w.named in let sized = w.sized in let header = w.header in ground arith

-- What PF_OpenFile did to the table: the entry `i`, which was not in use, is the file's.
abbrev pub Opens : Pf → Pf → ℕ → Name → ℤ → Type 0
Opens s s' i name numpages =
    (old e : FtabEle) × (get_elem? s.file_table i ≡ some old)
    × (old.valid ≡ false)
    × (get_elem? s'.file_table i ≡ some e)
    × (e.valid ≡ true)
    × (e.filename ≡ name)
    × (e.numpages ≡ numpages)
    × (e.hdrchanged ≡ false)
    × ((j : ℕ) → (j == i) ≡ false → get_elem? s'.file_table j ≡ get_elem? s.file_table j)

-- If the name leads to a file whose first bytes are the header of a number of pages, and
-- PF_OpenFile returns a descriptor, the descriptor's entry was not in use before, is now that of an
-- open file with this name, this number of pages and an unchanged header, and every other entry is
-- as it was.
pub pf_open_file-Opens :
    (s : Pf) (name : Name) (numpages : ℤ) (i : ℕ)
    → HasHeader s.pool.unix name numpages
    → (pf_open_file s name).1 ≡ opened_as i
    → Opens s (pf_open_file s name).0 i name numpages
pf_open_file-Opens s name numpages i w run =
    let (first, table) = pf_open_file-HasHeader s name numpages i w run in
    let (old, at, unused, inside) = first_free-not_valid s.file_table i first in
    let e = opened_entry w.inode s.pool.unix.next_descriptor name numpages in
    let here = get_elem?-set s.file_table i i e inside in
    let there = λ (j : ℕ). get_elem?-set s.file_table i j e inside in
    (
      old,
      e,
      at,
      unused,
      ap (λ t. get_elem? t i) table ∙ here ∙ ground (arith, ==_refl i),
      refl,
      refl,
      refl,
      refl,
      λ j other. ap (λ t. get_elem? t j) table ∙ there j ∙ rw other refl,
    )

-- If PF_CreateFile returns PFE_OK and PF_OpenFile of the same name then returns a descriptor, the
-- descriptor's entry was not in use before, is now that of an open file with this name, no page and
-- an unchanged header, and every other entry is as it was.
pub pf_open_file-pf_create_file :
    (s : Pf) (name : Name) (i : ℕ)
    → (pf_create_file s name).1 ≡ pfe_ok
    → (pf_open_file (pf_create_file s name).0 name).1 ≡ opened_as i
    → Opens s (pf_open_file (pf_create_file s name).0 name).0 i name (pos 0)
unfolding pf_create_file
pf_open_file-pf_create_file s name i made run =
    pf_open_file-Opens (pf_create_file s name).0 name (pos 0) i
      (pf_create_file-HasHeader s name made) run
