-- ===== src/Bf/Hash/Remove.antt =====
-- HT_Remove of bf/hash_table.c on a well-formed table.
use adb_minirel.Prelude.{
  ℕ, zero, suc, ◌<◌, ◌≡◌, refl, ◌⊎◌, inl, inr, true, false, List, [], ◌∷◌, some, arith, ◌==◌,
  if◌then◌else◌, mem, erase, length, get_elem?, Bool-cases, ◌∙◌, ap,
}
use adb_minirel.Prelude.Int.{ℤ, eq_ℤ_iff}
use adb_minirel.Prelude.Result.{ok}
use adb_minirel.Memory.{Ptr, null, Links}
use adb_minirel.Memory.Chain.{Chain}
use adb_minirel.Bf.{Entry, HashTable, bf_hash_tbl_size}
use adb_minirel.Bf.Hash.{same_key, ht_index, has_key, ht_unlink, ht_remove_loop, ht_remove, ht_find}
use adb_minirel.Bf.Hash.Keys.{Lacks, find_entry-Lacks}
use adb_minirel.Bf.Hash.Erase.{has_key-eq}
use adb_minirel.Bf.Hash.Table.{IsTable, with_chain}
use adb_minirel.Bf.Hash.Find.{head_at-linked, ht_find-find_entry}
use adb_minirel.Bf.Hash.Removed.{removed, ht_unlink-removed, removed-IsTable, removed-find_entry}

-- The first cell with the key, or the null pointer.
abbrev pub find_cell : (Ptr → Entry) → ℤ → ℤ → List Ptr → Ptr
find_cell e fd pagenum [] = null
find_cell e fd pagenum (x ∷ xs) = if has_key (e x) fd pagenum then x else find_cell e fd pagenum xs

find_cell-mem :
    (l : Links) (e : Ptr → Entry) (fd pagenum : ℤ) (b : Ptr) (xs : List Ptr) (p : Ptr)
    → Chain l b xs p
    → ((find_cell e fd pagenum xs ≡ null) × Lacks e fd pagenum xs)
      ⊎ (((find_cell e fd pagenum xs == null) ≡ false)
          × (mem (find_cell e fd pagenum xs) xs ≡ true)
          × (has_key (e (find_cell e fd pagenum xs)) fd pagenum ≡ true))
find_cell-mem l e fd pagenum b [] p c = inl (refl, tt)
find_cell-mem l e fd pagenum b (x ∷ xs) p c = elim (Bool-cases (has_key (e x) fd pagenum)) [
  | inl hit ↦ inr (ground arith, ground arith, ground arith)
  | inr miss ↦ elim (find_cell-mem l e fd pagenum x xs (l.next x) c.4) [
    | inl r ↦ inl (ground arith, (miss, r.1))
    | inr r ↦ inr (ground arith, ground arith, ground arith)
  ]
]

ht_remove_loop-find_cell :
    (fuel : ℕ) (t : HashTable) (i : ℕ) (fd pagenum : ℤ) (b : Ptr) (xs : List Ptr) (p : Ptr)
    → Chain t.links b xs p
    → length xs < fuel
    → ht_remove_loop fuel t i fd pagenum p ≡ (
        if find_cell t.entry fd pagenum xs == null
        then ok t
        else ht_unlink t i (find_cell t.entry fd pagenum xs))
unfolding ht_remove_loop
ht_remove_loop-find_cell zero t i fd pagenum b xs p c h = absurd (omega arith)
ht_remove_loop-find_cell (suc k) t i fd pagenum b [] p c h = ground arith
ht_remove_loop-find_cell (suc k) t i fd pagenum b (x ∷ xs) p c h =
    ground
      (arith, ht_remove_loop-find_cell k t i fd pagenum x xs (t.links.next x) c.4 (omega arith))

module _ (t : HashTable) (chain : ℕ → List Ptr) (fd pagenum : ℤ) (i : ℕ) (w : IsTable t chain)
    (e : ht_index fd pagenum ≡ ok i) (h : i < bf_hash_tbl_size) where
  abbrev cell : Ptr
  cell = find_cell t.entry fd pagenum (chain i)

  ht_remove-find_cell : ht_remove t fd pagenum ≡ (if cell == null then ok t else ht_unlink t i cell)
  unfolding ht_remove
  ht_remove-find_cell =
      let (p, at, c) = head_at-linked t chain i w h in
      ground (arith, ht_remove_loop-find_cell t.fresh t i fd pagenum null (chain i) p c (w.room i))

  -- Where the key is absent, nothing changes, and looking it up finds nothing.
  law_absent :
      Lacks t.entry fd pagenum (chain i)
      → (fd' pagenum' : ℤ)
      → ht_find t fd' pagenum'
        ≡ (if same_key fd pagenum fd' pagenum' then ok null else ht_find t fd' pagenum')
  law_absent lacks fd' pagenum' = elim (Bool-cases (same_key fd pagenum fd' pagenum')) [
    | inl same ↦
        let a : fd' ≡ fd = ground (arith, eq_ℤ_iff fd fd') in
        let b : pagenum' ≡ pagenum = ground (arith, eq_ℤ_iff pagenum pagenum') in
        let gone = find_entry-Lacks t.entry fd pagenum (chain i) lacks in
        rw same (rw (a, b) (ht_find-find_entry t chain fd pagenum i w e h ∙ ap ok gone))
    | inr other ↦ rw other
  ]

  law_present :
      (p : Ptr) (at : get_elem? t.heads i ≡ some p)
      → (here : mem cell (chain i) ≡ true) → has_key (t.entry cell) fd pagenum ≡ true
      → (fd' pagenum' : ℤ) (j : ℕ) → ht_index fd' pagenum' ≡ ok j
      → j < bf_hash_tbl_size
      → ht_find (removed t i p cell) fd' pagenum'
        ≡ (if same_key fd pagenum fd' pagenum' then ok null else ht_find t fd' pagenum')
  unfolding removed
  law_present p at here hit fd' pagenum' j ej hj =
      let (a, b) = has_key-eq (t.entry cell) fd pagenum hit in
      let w' = removed-IsTable t chain i p cell w h at here in
      let found = removed-find_entry t chain i p cell w h at here fd' pagenum' j ej in
      ht_find-find_entry (removed t i p cell) (with_chain chain i (erase cell (chain i))) fd'
        pagenum' j w' ej hj
      ∙ ground (arith, rw (a, b) at found, ht_find-find_entry t chain fd' pagenum' j w ej hj)

-- On a well-formed hash table, for a key that has its bucket, HT_Remove succeeds and leaves a well-
-- formed table, in which HT_Find gives the null pointer for the key and what it gave before for
-- every other key that has a bucket.
pub ht_find-ht_remove :
    (t : HashTable) (chain : ℕ → List Ptr) (fd pagenum : ℤ) (i : ℕ)
    → IsTable t chain
    → ht_index fd pagenum ≡ ok i
    → i < bf_hash_tbl_size
    → (t' : HashTable) × (chain' : ℕ → List Ptr) × (ht_remove t fd pagenum ≡ ok t')
      × IsTable t' chain'
      × ((fd' pagenum' : ℤ) (j : ℕ)
          → ht_index fd' pagenum' ≡ ok j
          → j < bf_hash_tbl_size
          → ht_find t' fd' pagenum'
            ≡ (if same_key fd pagenum fd' pagenum' then ok null else ht_find t fd' pagenum'))
ht_find-ht_remove t chain fd pagenum i w e h =
    let (p, at, c) = head_at-linked t chain i w h in
    let run = ht_remove-find_cell t chain fd pagenum i w e h in
    let x = cell t chain fd pagenum i w e h in
    elim (find_cell-mem t.links t.entry fd pagenum null (chain i) p c) [
      | inl (gone, lacks) ↦ (
        t,
        chain,
        ground arith,
        w,
        λ fd' pagenum' j ej hj. law_absent t chain fd pagenum i w e h lacks fd' pagenum',
      )
      | inr (there, here, hit) ↦ (
        removed t i p x,
        with_chain chain i (erase x (chain i)),
        ground (arith, ht_unlink-removed t chain i p x w h at here),
        removed-IsTable t chain i p x w h at here,
        law_present t chain fd pagenum i w e h p at here hit,
      )
    ]
