-- ===== src/Bf/Hash/Find.antt =====
-- HT_Find of bf/hash_table.c on a well-formed table.
use adb_minirel.Prelude.{
  ℕ, zero, suc, ◌<◌, ◌≡◌, List, [], ◌∷◌, some, arith, length, get_elem?, get_elem?-some,
}
use adb_minirel.Prelude.Int.{ℤ}
use adb_minirel.Prelude.Result.{ok}
use adb_minirel.Memory.{Ptr, null}
use adb_minirel.Memory.Chain.{Chain}
use adb_minirel.Bf.{HashTable, bf_hash_tbl_size}
use adb_minirel.Bf.Hash.{ht_index, ht_find_loop, ht_find}
use adb_minirel.Bf.Hash.Keys.{find_entry}
use adb_minirel.Bf.Hash.Table.{IsTable}

ht_find_loop-find_entry :
    (fuel : ℕ) (t : HashTable) (fd pagenum : ℤ) (b : Ptr) (xs : List Ptr) (p : Ptr)
    → Chain t.links b xs p
    → length xs < fuel
    → ht_find_loop fuel t fd pagenum p ≡ ok (find_entry t.entry fd pagenum xs)
unfolding ht_find_loop
ht_find_loop-find_entry zero t fd pagenum b xs p c h = absurd (omega arith)
ht_find_loop-find_entry (suc k) t fd pagenum b [] p c h = ground arith
ht_find_loop-find_entry (suc k) t fd pagenum b (x ∷ xs) p c h =
    ground (arith, ht_find_loop-find_entry k t fd pagenum x xs (t.links.next x) c.4 (omega arith))

-- The heads of a well-formed table.
pub head_at-linked :
    (t : HashTable) (chain : ℕ → List Ptr) (i : ℕ)
    → IsTable t chain
    → i < bf_hash_tbl_size
    → (p : Ptr) × (get_elem? t.heads i ≡ some p) × Chain t.links null (chain i) p
head_at-linked t chain i w h =
    let (p, e) = get_elem?-some t.heads i (omega arith) in (p, e, w.linked i p e)

-- On a well-formed hash table HT_Find ends within its fuel and without undefined behaviour, and
-- gives the page of the first entry with the key in the chain of the key's bucket, or the null
-- pointer if there is none.
pub ht_find-find_entry :
    (t : HashTable) (chain : ℕ → List Ptr) (fd pagenum : ℤ) (i : ℕ)
    → IsTable t chain
    → ht_index fd pagenum ≡ ok i
    → i < bf_hash_tbl_size
    → ht_find t fd pagenum ≡ ok (find_entry t.entry fd pagenum (chain i))
unfolding ht_find
ht_find-find_entry t chain fd pagenum i w e h =
    let (p, at, c) = head_at-linked t chain i w h in
    ground (arith, ht_find_loop-find_entry t.fresh t fd pagenum null (chain i) p c (w.room i))
