-- ===== src/Bf.antt =====
-- The buffer pool layer (bf/): its codes, its page frames, and the state that bf/bf.c keeps.
use adb_minirel.Prelude.{ℕ, suc, ◌+◌, ◌%◌, Bool, true, false, not, ◌&&◌, List, ltb}
use adb_minirel.Prelude.Int.{ℤ, eq_ℤ}
use adb_minirel.Memory.{Ptr, Links}
use adb_minirel.Unix.{Unix, Buf}
pub mod FreeList
pub mod Hash
pub mod Lru
pub mod Api
pub mod Tests

-- h/bf.h
abbrev pub bf_max_bufs : ℕ
bf_max_bufs = 40

abbrev pub bf_hash_tbl_size : ℕ
bf_hash_tbl_size = 20

pub data BfCode : Type 0 where
  bfe_ok : BfCode
  bfe_pagefixed : BfCode
  bfe_pageunfixed : BfCode
  bfe_pageinbuf : BfCode
  bfe_pagenotinbuf : BfCode
  bfe_incompleteread : BfCode
  bfe_incompletewrite : BfCode

-- BFreq of h/minirel.h. `dirty` is set by one caller and read by nobody.
pub record BfReq : Type 0 where
  pub fd : ℤ
  pub unixfd : ℕ
  pub pagenum : ℤ

-- BFpage without its links. `count` is the bit pattern of a 16-bit `short`.
pub record Frame : Type 0 where
  pub fpage : Buf
  pub dirty : Bool
  pub count : ℕ
  pub pagenum : ℤ
  pub fd : ℤ
  pub unixfd : ℕ

-- `count > 0`; the code's `count <= 0` is its negation.
abbrev pub is_pinned : ℕ → Bool
is_pinned c = ltb 0 c && ltb c 0x8000

abbrev pub short_inc : ℕ → ℕ
short_inc c = (c + 1) % 0x1_0000

abbrev pub short_dec : ℕ → ℕ
short_dec c = (c + 0xffff) % 0x1_0000

-- BFhash_entry without its links.
pub record Entry : Type 0 where
  pub fd : ℤ
  pub pagenum : ℤ
  pub bpage : Ptr

-- The hash table: `heads` is the array, `fresh` the address that `malloc` gives next.
pub record HashTable : Type 0 where
  pub heads : List Ptr
  pub links : Links
  pub entry : Ptr → Entry
  pub fresh : Ptr

-- The file-scope variables of bf/bf.c, the heap of page frames, and the operating system.
pub record Pool : Type 0 where
  pub links : Links
  pub frame : Ptr → Frame
  pub fresh : Ptr
  pub free_list_head : Ptr
  pub lru_head : Ptr
  pub hash_table : HashTable
  pub unix : Unix

-- What a call that returns a page returns: a code, or the address written to `*fpage`.
pub data Answer : Type 0 where
  page : Ptr → Answer
  failed : BfCode → Answer
