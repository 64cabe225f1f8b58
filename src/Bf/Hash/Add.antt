-- ===== src/Bf/Hash/Add.antt =====
-- HT_Add of bf/hash_table.c on a well-formed table.
use adb_minirel.Prelude.{ℕ, ◌<◌, ◌≡◌, false, List, [], ◌∷◌, ◌++◌, arith, ◌==◌, if◌then◌else◌}
use adb_minirel.Prelude.Int.{ℤ}
use adb_minirel.Prelude.Result.{ok}
use adb_minirel.Memory.{Ptr, null}
use adb_minirel.Bf.{HashTable, Frame, bf_hash_tbl_size}
use adb_minirel.Bf.Hash.{same_key, ht_index, ht_add, ht_find}
use adb_minirel.Bf.Hash.Keys.{find_entry, Lacks-find_entry}
use adb_minirel.Bf.Hash.Table.{IsTable, with_chain}
use adb_minirel.Bf.Hash.Find.{head_at-linked, ht_find-find_entry}
use adb_minirel.Bf.Hash.Added.{added, ht_add-added, added-IsTable, added-find_entry}

-- On a well-formed hash table, for a page whose key has its bucket and is not found yet and whose
-- address is not null, HT_Add succeeds and leaves a well-formed table, in which HT_Find gives the
-- new page for its key and what it gave before for every other key that has a bucket.
pub ht_find-ht_add :
    (t : HashTable) (chain : ℕ → List Ptr) (page : Ptr) (f : Frame) (i : ℕ)
    → IsTable t chain
    → ht_index f.fd f.pagenum ≡ ok i
    → i < bf_hash_tbl_size
    → ht_find t f.fd f.pagenum ≡ ok null
    → (page == null) ≡ false
    → (t' : HashTable) × (chain' : ℕ → List Ptr) × (ht_add t page f ≡ ok t')
      × IsTable t' chain'
      × ((fd pagenum : ℤ) (j : ℕ)
          → ht_index fd pagenum ≡ ok j
          → j < bf_hash_tbl_size
          → ht_find t' fd pagenum
            ≡ (if same_key f.fd f.pagenum fd pagenum then ok page else ht_find t fd pagenum))
ht_find-ht_add t chain page f i w e h missing n =
    let (p, at, c) = head_at-linked t chain i w h in
    let none_there : find_entry t.entry f.fd f.pagenum (chain i) ≡ null =
      ground (arith, ht_find-find_entry t chain f.fd f.pagenum i w e h) in
    let absent = Lacks-find_entry t.entry f.fd f.pagenum (chain i) (w.pages i) none_there in
    (
      added t i (chain i) p page f,
      with_chain chain i (chain i ++ t.fresh ∷ []),
      ht_add-added t chain page f i w e h p at,
      added-IsTable t chain page f i w e h p at absent n,
      λ fd pagenum j ej hj. ground (
        arith,
        ht_find-find_entry t chain fd pagenum j w ej hj,
        ht_find-find_entry (added t i (chain i) p page f)
            (with_chain chain i (chain i ++ t.fresh ∷ [])) fd pagenum j
            (added-IsTable t chain page f i w e h p at absent n) ej hj,
        added-find_entry t chain page f i w e h p at absent fd pagenum j ej,
      ),
    )
