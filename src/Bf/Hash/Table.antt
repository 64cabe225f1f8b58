-- ===== src/Bf/Hash/Table.antt =====
-- The well-formed hash tables of bf/hash_table.c: each bucket heads a doubly linked chain, no two
-- chains share a cell, each entry stands in the bucket of its key, and no key stands twice.
use adb_minirel.Prelude.{
  ℕ, ◌+◌, ◌*◌, ◌%◌, ◌<◌, ◌≡◌, true, false, List, some, arith, ◌==◌, if◌then◌else◌, mem, IsDistinct,
  length, get_elem?,
}
use adb_minirel.Prelude.Int.{pos}
use adb_minirel.Prelude.Result.{ok}
use adb_minirel.Memory.{Ptr, null}
use adb_minirel.Memory.Chain.{Chain}
use adb_minirel.Bf.{HashTable, bf_hash_tbl_size}
use adb_minirel.Bf.Hash.Keys.{IsKeyed}
use adb_minirel.Bf.Hash.{ht_index}

-- The table `t`, whose buckets' chains are `chain 0`, `chain 1`, ….
pub record IsTable (t : HashTable) (chain : ℕ → List Ptr) : Type 0 where
  pub sized : length t.heads ≡ bf_hash_tbl_size
  pub linked : (i : ℕ) (p : Ptr) → get_elem? t.heads i ≡ some p → Chain t.links null (chain i) p
  pub distinct : (i : ℕ) → IsDistinct (chain i)
  pub apart : (i j : ℕ) (a : Ptr) → mem a (chain i) ≡ true → mem a (chain j) ≡ true → i ≡ j
  pub placed :
      (i : ℕ) (a : Ptr)
      → mem a (chain i) ≡ true
      → ht_index (t.entry a).fd (t.entry a).pagenum ≡ ok i
  pub keyed : (i : ℕ) → IsKeyed t.entry (chain i)
  pub pages : (i : ℕ) (a : Ptr) → mem a (chain i) ≡ true → ((t.entry a).bpage == null) ≡ false
  pub below : (i : ℕ) (a : Ptr) → mem a (chain i) ≡ true → a < t.fresh
  pub room : (i : ℕ) → length (chain i) < t.fresh

-- The chains with one of them changed.
abbrev pub with_chain : (ℕ → List Ptr) → ℕ → List Ptr → ℕ → List Ptr
with_chain chain i xs j = if j == i then xs else chain j

-- The index of a key lies in the array whenever the key has one that is not negative.
pub ht_index_pos :
    (fd pagenum : ℕ)
    → fd < 20
    → pagenum + 400 < 0x8000_0000
    → (i : ℕ) × (ht_index (pos fd) (pos pagenum) ≡ ok i) × (i < bf_hash_tbl_size)
unfolding ht_index
ht_index_pos fd pagenum h k = ((20 * fd + pagenum) % 20, ground arith, omega arith)
