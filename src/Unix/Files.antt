-- ===== src/Unix/Files.antt =====
-- The system calls on whole files that pf/pf.c makes: stat, open, close, fstat, unlink, and reads and
-- writes at the start of a file.
use adb_minirel.Prelude.{
  ℕ, suc, Bool, true, false, Option, none, some, [], ◌∷◌, ◌++◌, ◌==◌, ◌&&◌, if◌then◌else◌, ltb,
  take, drop, length,
}
use adb_minirel.Unix.{Unix, File, Buf, Name, count_call, fail_call, store_block}

-- strcmp(a, b) == 0
abbrev pub eq_name : Name → Name → Bool
eq_name [] [] = true
eq_name [] (y ∷ ys) = false
eq_name (x ∷ xs) [] = false
eq_name (x ∷ xs) (y ∷ ys) = x == y && eq_name xs ys

abbrev pub bind_name : Unix → Name → Option ℕ → Unix
bind_name u name inode = record u {
  directory = λ other. if eq_name name other then inode else u.directory other;
}

-- `stat`: true if the call did not return -1.
unfoldable pub stat : Unix → Name → Unix × Bool
stat u name =
    if u.errors u.calls
    then (fail_call u, false)
    else elim (u.directory name) [ none ↦ (fail_call u, false) | some inode ↦ (count_call u, true) ]

abbrev pub open_inode : Unix → ℕ → Unix × Option ℕ
open_inode u inode =
    let fd = u.next_descriptor in
    (
      record (count_call u) {
        opened = λ other. if other == fd then some inode else u.opened other;
        next_descriptor = suc fd;
      },
      some fd,
    )

-- `open(name, O_RDWR)`: the descriptor, unless the call returned -1.
unfoldable pub open_file : Unix → Name → Unix × Option ℕ
open_file u name =
    if u.errors u.calls
    then (fail_call u, none)
    else elim (u.directory name) [ none ↦ (fail_call u, none) | some inode ↦ open_inode u inode ]

abbrev pub new_file : Unix → Name → Unix
new_file u name =
    let inode = u.next_inode in
    record (bind_name u name (some inode)) {
      file = λ other. if other == inode then record { size = 0; block = λ i. [] } else u.file other;
      next_inode = suc inode;
    }

-- `open(name, O_RDWR | O_CREAT | O_EXCL)`
unfoldable pub create_file : Unix → Name → Unix × Option ℕ
create_file u name = if u.errors u.calls then (fail_call u, none) else elim (u.directory name) [
  | some inode ↦ (record (count_call u) { eexist = true }, none)
  | none ↦ open_inode (new_file u name) u.next_inode
]

-- `close`: true if the call did not return -1.
unfoldable pub close_file : Unix → ℕ → Unix × Bool
close_file u fd = if u.errors u.calls then (fail_call u, false) else elim (u.opened fd) [
  | none ↦ (fail_call u, false)
  | some inode ↦ (
    record (count_call u) { opened = λ other. if other == fd then none else u.opened other },
    true,
  )
]

-- `fstat`: the inode number, unless the call returned -1.
unfoldable pub fstat : Unix → ℕ → Unix × Option ℕ
fstat u fd =
    if u.errors u.calls
    then (fail_call u, none)
    else elim (u.opened fd) [ none ↦ (fail_call u, none) | some inode ↦ (count_call u, some inode) ]

-- `unlink`: the name is gone, the file stays for those who have it open.
unfoldable pub unlink_file : Unix → Name → Unix × Bool
unlink_file u name = if u.errors u.calls then (fail_call u, false) else elim (u.directory name) [
  | none ↦ (fail_call u, false)
  | some inode ↦ (count_call (bind_name u name none), true)
]

abbrev pub first_bytes : File → ℕ → Buf
first_bytes f n = if ltb 0 f.size then take n (f.block 0) else []

-- `read` of `n` bytes at the start of the file: the bytes that came, unless the call returned -1.
unfoldable pub read_start : Unix → ℕ → ℕ → Unix × Option Buf
read_start u fd n = if u.errors u.calls then (fail_call u, none) else elim (u.opened fd) [
  | none ↦ (fail_call u, none)
  | some inode ↦ (count_call u, some (first_bytes (u.file inode) n))
]

-- `write` of less than a page at the start of the file, which has a page there.
unfoldable pub write_start : Unix → ℕ → Buf → Unix × Bool
write_start u fd b = if u.errors u.calls then (fail_call u, false) else elim (u.opened fd) [
  | none ↦ (fail_call u, false)
  | some inode ↦
      (count_call (store_block u inode 0 (b ++ drop (length b) ((u.file inode).block 0))), true)
]
