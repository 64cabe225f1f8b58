-- ===== src/Unix.antt =====
-- The operating system as the program sees it: files of whole pages, open descriptors, and system
-- calls that may fail. pf/pf.c, bf/bf.c and bf/lru.c make these calls.
pub mod Files
use adb_minirel.Prelude.{
  ℕ, suc, ◌+◌, Bool, true, false, Option, none, some, List, ◌==◌, if◌then◌else◌, ltb,
}
use adb_minirel.Prelude.Int.{ℤ, pos, negsuc}
use adb_minirel.Prelude.Result.{Result, ok, fault, out_of_bounds, int_overflow, ◌>>=◌}

-- A page's bytes, PAGE_SIZE of them.
abbrev pub Buf : Type 0
Buf = List ℕ

-- A file of `size` pages. Page 0 is the PF header; page `n + 1` holds the data page `n`.
pub record File : Type 0 where
  pub size : ℕ
  pub block : ℕ → Buf

-- A name is the bytes of a C string without its end.
abbrev pub Name : Type 0
Name = List ℕ

-- `errors n` says whether the n-th system call fails, whatever its arguments. `eexist` says whether
-- `errno` is EEXIST; a call that succeeds leaves `errno` as it is. `next_descriptor` is the number
-- that `open` gives next, `next_inode` the number of the next file.
pub record Unix : Type 0 where
  pub directory : Name → Option ℕ
  pub file : ℕ → File
  pub opened : ℕ → Option ℕ
  pub next_inode : ℕ
  pub next_descriptor : ℕ
  pub errors : ℕ → Bool
  pub calls : ℕ
  pub eexist : Bool

abbrev pub count_call : Unix → Unix
count_call u = record u { calls = suc u.calls }

-- A call that fails for another reason than that a file exists.
abbrev pub fail_call : Unix → Unix
fail_call u = record u { calls = suc u.calls; eexist = false }

-- What `read` of a page brings: an error, no byte (past the end of the file), or the page.
pub data Reading : Type 0 where
  read_error : Reading
  read_nothing : Reading
  read_page : Buf → Reading

abbrev pub read_block : File → ℕ → Reading
read_block f i = if ltb i f.size then read_page (f.block i) else read_nothing

abbrev pub write_block : File → ℕ → Buf → File
write_block f i b = record {
  size = if ltb i f.size then f.size else i + 1;
  block = λ j. if j == i then b else f.block j;
}

-- The most pages of a file whose offsets are an `int`: from here on PAGE_SIZE + PAGE_SIZE * pagenum
-- overflows.
abbrev pub max_pages : ℕ
max_pages = 0x7_ffff

-- The page of the file that data page `pagenum` stands at: the offset of `lseek`, which is computed
-- as an `int`, in pages. An offset before the start of the file, which `lseek` refuses and the
-- program ignores, is a fault.
abbrev pub slot : ℤ → Result ℕ
slot (pos n) = if ltb n max_pages then ok (n + 1) else fault int_overflow
slot (negsuc n) =
    if n == 0 then ok 0 else if ltb max_pages n then fault int_overflow else fault out_of_bounds

-- `read` of a whole page at the page `i` of the file.
unfoldable pub read_at : Unix → ℕ → ℕ → Unix × Reading
read_at u fd i = if u.errors u.calls then (fail_call u, read_error) else elim (u.opened fd) [
  | none ↦ (fail_call u, read_error)
  | some inode ↦ (count_call u, read_block (u.file inode) i)
]

abbrev pub store_block : Unix → ℕ → ℕ → Buf → Unix
store_block u inode i b = record u {
  file = λ j. if j == inode then write_block (u.file inode) i b else u.file j;
}

-- `write` of a whole page at the page `i` of the file: true if the call did not return -1.
unfoldable pub write_at : Unix → ℕ → ℕ → Buf → Unix × Bool
write_at u fd i b = if u.errors u.calls then (fail_call u, false) else elim (u.opened fd) [
  | none ↦ (fail_call u, false)
  | some inode ↦ (count_call (store_block u inode i b), true)
]

-- `lseek` to the data page, and `read` or `write` it.
unfoldable pub pread : Unix → ℕ → ℤ → Result (Unix × Reading)
pread u fd pagenum = do i ← slot pagenum; ok (read_at u fd i)

unfoldable pub pwrite : Unix → ℕ → ℤ → Buf → Result (Unix × Bool)
pwrite u fd pagenum b = do i ← slot pagenum; ok (write_at u fd i b)
