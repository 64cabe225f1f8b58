-- ===== src/Bf/Hash/Removed.antt =====
-- The hash table of bf/hash_table.c after an entry was taken out of its chain and freed.
use adb_minirel.Prelude.{
  ℕ, ◌<◌, ◌≡◌, inl, inr, true, false, List, some, arith, ◌==◌, if◌then◌else◌, mem, IsDistinct,
  erase, mem-erase_self, mem-erase_ne, erase-IsDistinct, length-erase, length, length-set,
  get_elem?, set, get_elem?-set, Bool-cases,
}
use adb_minirel.Prelude.Int.{ℤ, eq_ℤ_iff}
use adb_minirel.Prelude.Result.{ok}
use adb_minirel.Memory.{Ptr, null, Links, update}
use adb_minirel.Memory.Chain.{
  Chain, Chain-live, Chain-frame, prev-live, next-live, prev-ne_self, prev-mem, next-mem,
}
use adb_minirel.Memory.Unlink.{unlink, unlink-erase, unlink-next, unlink-prev, unlink-live}
use adb_minirel.Bf.{HashTable, bf_hash_tbl_size}
use adb_minirel.Bf.Hash.{ht_index, has_key, ht_unlink}
use adb_minirel.Bf.Hash.Keys.{find_entry, IsKeyed}
use adb_minirel.Bf.Hash.Erase.{IsKeyed-erase, find_entry-erase}
use adb_minirel.Bf.Hash.Table.{IsTable, with_chain}

-- The links after the cell `x` was taken out and freed.
unfoldable pub released : Links → Ptr → Links
released l x = record (unlink l x) { live = update (unlink l x).live x false }

-- The table after the cell `x` was taken out of the bucket `i`, whose head is `p`.
unfoldable pub removed : HashTable → ℕ → Ptr → Ptr → HashTable
removed t i p x = record t {
  heads = if x == p then set t.heads i (t.links.next x) else t.heads;
  links = released t.links x;
}

module _ (t : HashTable) (chain : ℕ → List Ptr) (i : ℕ) (p x : Ptr) (w : IsTable t chain)
    (inside : i < bf_hash_tbl_size) (at : get_elem? t.heads i ≡ some p)
    (here : mem x (chain i) ≡ true) where
  null-not-mem : (j : ℕ) (q : Ptr) → Chain t.links null (chain j) q → mem null (chain j) ≡ false
  null-not-mem j q c = elim (Bool-cases (mem null (chain j))) [
    | inl h ↦ absurd (let k = Chain-live t.links null (chain j) q null c h in ground arith)
    | inr h ↦ h
  ]

  pub ht_unlink-removed : ht_unlink t i x ≡ ok (removed t i p x)
  unfolding ht_unlink removed released unlink
  ht_unlink-removed =
      let c = w.linked i p at in
      ground (
        arith,
        Chain-live t.links null (chain i) p x c here,
        prev-live t.links (chain i) p x c here,
        next-live t.links (chain i) p x c here,
        prev-ne_self t.links null (chain i) p x c (w.distinct i) (null-not-mem i p c) here,
      )

  removed_here :
      Chain (released t.links x) null (erase x (chain i)) (if p == x then t.links.next x else p)
  unfolding released
  removed_here =
      let c = w.linked i p at in
      let gone = mem-erase_self x (chain i) (w.distinct i) in
      Chain-frame (unlink t.links x) (released t.links x) null (erase x (chain i))
        (if p == x then t.links.next x else p)
        (unlink-erase t.links null x (chain i) p c (w.distinct i) (null-not-mem i p c) here)
        (λ a m. ground arith)

  removed_there :
      (j : ℕ) (q : Ptr)
      → (j == i) ≡ false
      → get_elem? t.heads j ≡ some q
      → Chain (released t.links x) null (chain j) q
  unfolding released
  removed_there j q other atj =
      let c = w.linked i p at in
      let cj = w.linked j q atj in
      Chain-frame t.links (released t.links x) null (chain j) q cj λ a m. ground (
        arith,
        unlink-live t.links x,
        unlink-next t.links x a,
        unlink-prev t.links x a,
        prev-mem t.links null (chain i) p x c here,
        next-mem t.links null (chain i) p x c here,
        null-not-mem j q cj,
        w.apart i j x here,
        w.apart i j a,
      )

  -- The chain of the bucket, one shorter.
  abbrev pub shorter : List Ptr
  shorter = erase x (chain i)

  removed-head :
      (j : ℕ)
      → get_elem? (removed t i p x).heads j
        ≡ (if j == i then some (if p == x then t.links.next x else p) else get_elem? t.heads j)
  unfolding removed
  removed-head j = ground (arith, w.sized, get_elem?-set t.heads i j (t.links.next x))

  removed-linked :
      (j : ℕ) (q : Ptr)
      → get_elem? (removed t i p x).heads j ≡ some q
      → Chain (removed t i p x).links null (with_chain chain i shorter j) q
  unfolding removed
  removed-linked j q e = elim (Bool-cases (j == i)) [
    | inl same ↦
        let at' : q ≡ (if p == x then t.links.next x else p) = ground (arith, removed-head j) in
        rw (same, at') removed_here
    | inr other ↦ rw other (removed_there j q other (ground (arith, removed-head j)))
  ]

  removed-mem :
      (j : ℕ) (a : Ptr)
      → mem a (with_chain chain i shorter j) ≡ (if a == x then false else mem a (chain j))
  removed-mem j a = ground (
    arith,
    mem-erase_self x (chain i) (w.distinct i),
    mem-erase_ne a x (chain i),
    w.apart i j x here,
  )

  removed-IsDistinct : (j : ℕ) → IsDistinct (with_chain chain i shorter j)
  removed-IsDistinct j = elim (Bool-cases (j == i)) [
    | inl same ↦ rw same (erase-IsDistinct x (chain i) (w.distinct i))
    | inr other ↦ rw other (w.distinct j)
  ]

  removed-IsKeyed : (j : ℕ) → IsKeyed t.entry (with_chain chain i shorter j)
  removed-IsKeyed j = elim (Bool-cases (j == i)) [
    | inl same ↦ rw same (IsKeyed-erase t.entry x (chain i) (w.keyed i))
    | inr other ↦ rw other (w.keyed j)
  ]

  removed-sized : length (removed t i p x).heads ≡ bf_hash_tbl_size
  unfolding removed
  removed-sized = ground (arith, w.sized, length-set t.heads i (t.links.next x))

  removed-room : (j : ℕ) → length (with_chain chain i shorter j) < t.fresh
  removed-room j = ground (arith, w.room i, w.room j, length-erase x (chain i) here)

  -- HT_Remove of a cell of the table keeps the table well formed.
  pub removed-IsTable : IsTable (removed t i p x) (with_chain chain i shorter)
  unfolding removed
  removed-IsTable = record {
    sized = removed-sized;
    linked = removed-linked;
    distinct = removed-IsDistinct;
    apart = λ j k a hj hk. w.apart j k a (was j a hj) (was k a hk);
    placed = λ j a h. w.placed j a (was j a h);
    keyed = removed-IsKeyed;
    pages = λ j a h. w.pages j a (was j a h);
    below = λ j a h. w.below j a (was j a h);
    room = removed-room;
  }
    where
      was : (j : ℕ) (a : Ptr) → mem a (with_chain chain i shorter j) ≡ true → mem a (chain j) ≡ true
      was j a h = ground (arith, removed-mem j a)

  pub removed-find_entry :
      (fd pagenum : ℤ) (j : ℕ)
      → ht_index fd pagenum ≡ ok j
      → find_entry t.entry fd pagenum (with_chain chain i shorter j)
        ≡ (if has_key (t.entry x) fd pagenum then null else find_entry t.entry fd pagenum (chain j))
  removed-find_entry fd pagenum j e = elim (Bool-cases (j == i)) [
    | inl same ↦
        let j_i : j ≡ i = ground arith in
        rw (same, j_i) (find_entry-erase t.entry x fd pagenum (chain i) (w.keyed i) here)
    | inr other ↦
        let miss : has_key (t.entry x) fd pagenum ≡ false = ground (
          arith,
          w.placed i x here,
          eq_ℤ_iff (t.entry x).fd fd,
          eq_ℤ_iff (t.entry x).pagenum pagenum,
        ) in
        rw (other, miss)
  ]
