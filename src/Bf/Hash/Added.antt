-- ===== src/Bf/Hash/Added.antt =====
-- The hash table of bf/hash_table.c after HT_Add put a new entry at the end of its chain.
use adb_minirel.Prelude.{
  ℕ, zero, suc, ◌<◌, ◌≡◌, refl, inl, inr, true, false, List, [], ◌∷◌, ◌++◌, some, arith, ◌&&◌, ◌||◌,
  ◌==◌, if◌then◌else◌, mem, IsDistinct, mem-append, length, length-append, length-set, get_elem?,
  set, get_elem?-set, Bool-cases,
}
use adb_minirel.Prelude.Int.{ℤ, eq_ℤ_iff}
use adb_minirel.Prelude.Result.{ok}
use adb_minirel.Memory.{Ptr, null, Links, update}
use adb_minirel.Memory.Chain.{Chain, Chain-live, Chain-frame, last_or, last_or-mem}
use adb_minirel.Memory.Unlink.{push_back, push_back-append}
use adb_minirel.Bf.{Entry, HashTable, Frame, bf_hash_tbl_size}
use adb_minirel.Bf.Hash.{ht_index, has_key, ht_last_loop, ht_add}
use adb_minirel.Bf.Hash.Keys.{
  find_entry, Lacks, IsKeyed, find_entry-update, IsKeyed-update, IsKeyed-append,
  find_entry-append_hit, find_entry-append_miss,
}
use adb_minirel.Bf.Hash.Table.{IsTable, with_chain}

ht_last_loop-last_or :
    (fuel : ℕ) (l : Links) (b : Ptr) (xs : List Ptr) (p : Ptr)
    → Chain l b xs p
    → length xs < fuel
    → ht_last_loop fuel l b p ≡ ok (last_or b xs)
unfolding ht_last_loop
ht_last_loop-last_or zero l b xs p c h = absurd (omega arith)
ht_last_loop-last_or (suc k) l b [] p c h = ground arith
ht_last_loop-last_or (suc k) l b (x ∷ xs) p c h =
    ground (arith, ht_last_loop-last_or k l x xs (l.next x) c.4 (omega arith))

append-IsDistinct :
    (x : Ptr) (xs : List Ptr) → IsDistinct xs → mem x xs ≡ false → IsDistinct (xs ++ x ∷ [])
append-IsDistinct x [] d h = (refl, tt)
append-IsDistinct x (y ∷ ys) d h =
    (ground (arith, mem-append y ys (x ∷ [])), append-IsDistinct x ys d.1 (ground arith))

abbrev pub new_entry : Ptr → Frame → Entry
new_entry page f = record { fd = f.fd; pagenum = f.pagenum; bpage = page }

-- The table after HT_Add, for a chain `xs` in the bucket `i` whose head is `p`.
unfoldable pub added : HashTable → ℕ → List Ptr → Ptr → Ptr → Frame → HashTable
added t i xs p page f = record {
  heads = if p == null then set t.heads i t.fresh else t.heads;
  links = push_back t.links (last_or null xs) t.fresh;
  entry = update t.entry t.fresh (new_entry page f);
  fresh = suc t.fresh;
}

module _ (t : HashTable) (chain : ℕ → List Ptr) (page : Ptr) (f : Frame) (i : ℕ)
    (w : IsTable t chain) (indexed : ht_index f.fd f.pagenum ≡ ok i)
    (inside : i < bf_hash_tbl_size) where
  fresh-null : (t.fresh == null) ≡ false
  fresh-null = let h = w.room 0 in ground arith

  fresh-not-mem : (j : ℕ) → mem t.fresh (chain j) ≡ false
  fresh-not-mem j = elim (Bool-cases (mem t.fresh (chain j))) [
    | inl h ↦ absurd (let k = w.below j t.fresh h in omega arith)
    | inr h ↦ h
  ]

  pub ht_add-added :
      (p : Ptr) → get_elem? t.heads i ≡ some p → ht_add t page f ≡ ok (added t i (chain i) p page f)
  unfolding ht_add added push_back
  ht_add-added p at =
      let c = w.linked i p at in
      ground (
        arith,
        ht_last_loop-last_or t.fresh t.links null (chain i) p c (w.room i),
        fresh-null,
        fresh-not-mem i,
        last_or-mem null (chain i),
        Chain-live t.links null (chain i) p (last_or null (chain i)) c,
      )

  -- The chain of the bucket, one longer.
  abbrev pub longer : List Ptr
  longer = chain i ++ t.fresh ∷ []

  linked_here :
      (p : Ptr)
      → get_elem? t.heads i ≡ some p
      → Chain (added t i (chain i) p page f).links null longer (if p == null then t.fresh else p)
  unfolding added
  linked_here p at =
      push_back-append t.links null t.fresh (chain i) p (w.linked i p at) (w.distinct i)
        (fresh-not-mem i) fresh-null (ground (arith, fresh-null))

  linked_there :
      (p : Ptr) (j : ℕ) (q : Ptr)
      → (j == i) ≡ false
      → get_elem? t.heads j ≡ some q
      → Chain (added t i (chain i) p page f).links null (chain j) q
  unfolding added push_back
  linked_there p j q other at =
      Chain-frame t.links (added t i (chain i) p page f).links null (chain j) q (w.linked j q at)
        λ a m.
          ground (
            arith,
            fresh-not-mem j,
            last_or-mem null (chain i),
            w.apart i j (last_or null (chain i)),
          )

  module _ (p : Ptr) (at : get_elem? t.heads i ≡ some p) where
    added-head :
        (j : ℕ)
        → get_elem? (added t i (chain i) p page f).heads j
          ≡ (if j == i then some (if p == null then t.fresh else p) else get_elem? t.heads j)
    unfolding added
    added-head j = ground (arith, w.sized, get_elem?-set t.heads i j t.fresh)

    added-linked :
        (j : ℕ) (q : Ptr)
        → get_elem? (added t i (chain i) p page f).heads j ≡ some q
        → Chain (added t i (chain i) p page f).links null (with_chain chain i longer j) q
    added-linked j q e = elim (Bool-cases (j == i)) [
      | inl same ↦
          let at' : q ≡ (if p == null then t.fresh else p) = ground (arith, added-head j) in
          rw (same, at') (linked_here p at)
      | inr other ↦ rw other (linked_there p j q other (ground (arith, added-head j)))
    ]

    added-mem :
        (j : ℕ) (a : Ptr)
        → mem a (with_chain chain i longer j) ≡ ((j == i && a == t.fresh) || mem a (chain j))
    added-mem j a = ground (arith, mem-append a (chain i) (t.fresh ∷ []))

    added-IsDistinct : (j : ℕ) → IsDistinct (with_chain chain i longer j)
    added-IsDistinct j = elim (Bool-cases (j == i)) [
      | inl same ↦ rw same (append-IsDistinct t.fresh (chain i) (w.distinct i) (fresh-not-mem i))
      | inr other ↦ rw other (w.distinct j)
    ]

    added-apart :
        (j k : ℕ) (a : Ptr)
        → mem a (with_chain chain i longer j) ≡ true
        → mem a (with_chain chain i longer k) ≡ true
        → j ≡ k
    added-apart j k a hj hk =
        ground
          (arith, added-mem j a, added-mem k a, w.apart j k a, fresh-not-mem j, fresh-not-mem k)

    added-placed :
        (j : ℕ) (a : Ptr)
        → mem a (with_chain chain i longer j) ≡ true
        → ht_index
            ((added t i (chain i) p page f).entry a).fd
            ((added t i (chain i) p page f).entry a).pagenum
          ≡ ok j
    unfolding added
    added-placed j a h = ground (arith, added-mem j a, w.placed j a, indexed, fresh-not-mem j)

    added-pages :
        (page == null) ≡ false
        → (j : ℕ) (a : Ptr) → mem a (with_chain chain i longer j) ≡ true
        → (((added t i (chain i) p page f).entry a).bpage == null) ≡ false
    unfolding added
    added-pages n j a h = ground (arith, added-mem j a, w.pages j a, fresh-not-mem j)

    added-IsKeyed :
        Lacks t.entry f.fd f.pagenum (chain i)
        → (j : ℕ) → IsKeyed (added t i (chain i) p page f).entry (with_chain chain i longer j)
    unfolding added
    added-IsKeyed absent j = elim (Bool-cases (j == i)) [
      | inl same ↦ rw same (
          IsKeyed-append t.entry t.fresh (new_entry page f) (chain i) (w.keyed i) (fresh-not-mem i)
            absent)
      | inr other ↦
          rw other (IsKeyed-update t.entry t.fresh _ (chain j) (fresh-not-mem j) (w.keyed j))
    ]

    added-sized : length (added t i (chain i) p page f).heads ≡ bf_hash_tbl_size
    unfolding added
    added-sized = ground (arith, w.sized, length-set t.heads i t.fresh)

    added-below :
        (j : ℕ) (a : Ptr)
        → mem a (with_chain chain i longer j) ≡ true
        → a < (added t i (chain i) p page f).fresh
    unfolding added
    added-below j a h = ground (arith, added-mem j a, w.below j a)

    added-room :
        (j : ℕ) → length (with_chain chain i longer j) < (added t i (chain i) p page f).fresh
    unfolding added
    added-room j = ground (arith, w.room i, w.room j, length-append (chain i) (t.fresh ∷ []))

    -- HT_Add of a page whose key is absent keeps the table well formed.
    pub added-IsTable :
        Lacks t.entry f.fd f.pagenum (chain i)
        → (page == null) ≡ false
        → IsTable (added t i (chain i) p page f) (with_chain chain i longer)
    added-IsTable absent n = record {
      sized = added-sized;
      linked = added-linked;
      distinct = added-IsDistinct;
      apart = added-apart;
      placed = added-placed;
      keyed = added-IsKeyed absent;
      pages = added-pages n;
      below = added-below;
      room = added-room;
    }

    pub added-find_entry :
        Lacks t.entry f.fd f.pagenum (chain i)
        → (fd pagenum : ℤ) (j : ℕ) → ht_index fd pagenum ≡ ok j
        → find_entry (added t i (chain i) p page f).entry fd pagenum (with_chain chain i longer j)
          ≡ (if has_key (new_entry page f) fd pagenum
              then page
              else find_entry t.entry fd pagenum (chain j))
    unfolding added
    added-find_entry absent fd pagenum j e =
        elim (Bool-cases (has_key (new_entry page f) fd pagenum)) [
          | inl hit ↦
              let same_fd : f.fd ≡ fd = ground (arith, eq_ℤ_iff f.fd fd) in
              let same_num : f.pagenum ≡ pagenum = ground (arith, eq_ℤ_iff f.pagenum pagenum) in
              let lacks : Lacks t.entry fd pagenum (chain i) = rw (← same_fd, ← same_num) absent in
              let here : (j == i) ≡ true = ground (arith, indexed) in
              rw (here, hit)
                (find_entry-append_hit t.entry t.fresh (new_entry page f) fd pagenum (chain i)
                  (fresh-not-mem i) lacks hit)
          | inr miss ↦ rw miss (
              ground (
                arith,
                find_entry-append_miss t.entry t.fresh (new_entry page f) fd pagenum (chain i)
                    (fresh-not-mem i) miss,
                find_entry-update t.entry t.fresh (new_entry page f) fd pagenum (chain j)
                    (fresh-not-mem j),
              ))
        ]
