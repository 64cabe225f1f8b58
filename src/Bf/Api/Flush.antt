-- ===== src/Bf/Api/Flush.antt =====
-- BF_FlushBuf of bf/bf.c against its specification.
use adb_minirel.Prelude.{
  ℕ, zero, suc, ◌<◌, ◌≡◌, refl, inl, inr, Bool, true, false, List, [], ◌∷◌, map, arith, mem,
  IsDistinct, erase, mem-erase_ne, length, Bool-cases,
}
use adb_minirel.Prelude.Int.{ℤ, eq_ℤ}
use adb_minirel.Prelude.Result.{Result, ok}
use adb_minirel.Memory.{Ptr, null, write_next}
use adb_minirel.Memory.Chain.{Chain, Chain-frame}
use adb_minirel.Memory.Unlink.{unlink, unlink-head}
use adb_minirel.Memory.TwoLists.{push_free-TwoLists, null-not-used}
use adb_minirel.Unix.{Unix}
use adb_minirel.Bf.{HashTable, Pool, BfCode, bfe_ok, bfe_pagefixed, bfe_incompletewrite, is_pinned}
use adb_minirel.Bf.FreeList.{fl_push}
use adb_minirel.Bf.Lru.{lru_fuel}
use adb_minirel.Bf.Api.{release, flush_loop, bf_flush_buf}
use adb_minirel.Bf.Api.Frames.{page-live}
use adb_minirel.Bf.Api.Evict.{evicted-Holds, lru_remove-evict, evicted, next_head}
use adb_minirel.Bf.Api.Take.{unix-IsPool, write_back-spec, remove_frame-erase}
use adb_minirel.Bf.Api.Spec.{spec_write_back, spec_flush_loop, spec_flush}
use adb_minirel.Bf.Api.View.{IsPool, View, view, remove_frame}

-- A run that ends in a well-formed pool, whose view and code are the given ones.
abbrev pub Flushes : Result (Pool × BfCode) → View × BfCode → Type 0
Flushes r s =
    (p' : Pool) × (used' free' : List Ptr) × (r ≡ ok (p', s.1))
    × IsPool p' used' free'
    × (view p' used' free' ≡ s.0)

module _ (p : Pool) (used free : List Ptr) (w : IsPool p used free) (a : Ptr)
    (h : mem a used ≡ true) where
  -- The pool after the page `a` was released.
  abbrev pub freed : HashTable → Pool
  freed t = record (evicted p used free w a h t) {
    links = write_next (unlink p.links a) a p.free_list_head;
    free_list_head = a;
  }

  pub release-freed :
      (t : HashTable) × (release p a ≡ ok (freed t)) × IsPool (freed t) (erase a used) (a ∷ free)
  unfolding release fl_push
  release-freed =
      let (t, run, holds) = evicted-Holds p used free w a h in
      let pool = holds.pool in
      let d = holds.detached in
      (
        t,
        ground (arith, run, lru_remove-evict p used free w a h, d.live, d.not_null),
        record {
          lists =
              push_free-TwoLists (unlink p.links a) (erase a used) free
                (next_head p used free w a h) p.free_list_head pool.lists a d;
          bounded = omega (arith, holds.room);
          unique = pool.unique;
          placed = pool.placed;
          chain = pool.chain;
          table = pool.table;
          found = pool.found;
        },
      )

  -- The rest of the list is still there for the loop to walk.
  pub rest-walk :
      (t : HashTable) (b : Ptr) (xs : List Ptr)
      → Chain p.links b (a ∷ xs) a
      → IsDistinct (a ∷ xs)
      → mem b xs ≡ false
      → Chain (freed t).links b xs (p.links.next a)
  rest-walk t b xs c d out =
      Chain-frame (unlink p.links a) (freed t).links b xs (p.links.next a)
        (unlink-head p.links b a xs a c d out) (λ z m. ground arith)

flush_end :
    (fd : ℤ) (k : ℕ) (p : Pool) (a : Ptr) → a ≡ null → flush_loop (suc k) p fd a ≡ ok (p, bfe_ok)
unfolding flush_loop
flush_end fd k p a e = ground arith

-- One round of the loop at the page `x`, on each branch.
module _ (fd : ℤ) (k : ℕ) (p : Pool) (used free : List Ptr) (w : IsPool p used free) (x : Ptr)
    (h : mem x used ≡ true) where
  abbrev wrote : Unix × Bool
  wrote = spec_write_back (p.frame x) p.unix

  abbrev p₁ : Pool
  p₁ = record p { unix = wrote.0 }

  w₁ : IsPool p₁ used free
  w₁ = unix-IsPool p used free w wrote.0

  round_skip :
      eq_ℤ (p.frame x).fd fd ≡ false
      → flush_loop (suc k) p fd x ≡ flush_loop k p fd (p.links.next x)
  unfolding flush_loop
  round_skip other = ground (arith, page-live p used free w x h)

  round_pinned :
      eq_ℤ (p.frame x).fd fd ≡ true
      → is_pinned (p.frame x).count ≡ true
      → flush_loop (suc k) p fd x ≡ ok (p, bfe_pagefixed)
  unfolding flush_loop
  round_pinned same pinned = ground (arith, page-live p used free w x h)

  module _ (same : eq_ℤ (p.frame x).fd fd ≡ true)
      (unpinned : is_pinned (p.frame x).count ≡ false) where
    round_bad : wrote.1 ≡ false → flush_loop (suc k) p fd x ≡ ok (p₁, bfe_incompletewrite)
    unfolding flush_loop
    round_bad bad = ground (arith, page-live p used free w x h, write_back-spec p used free w x h)

    round_good :
        (q : Pool)
        → wrote.1 ≡ true
        → release p₁ x ≡ ok q
        → flush_loop (suc k) p fd x ≡ flush_loop k q fd (p.links.next x)
    unfolding flush_loop
    round_good q good run =
        ground (arith, page-live p used free w x h, write_back-spec p used free w x h)

  view-freed :
      (t : HashTable)
      → view (freed p₁ used free w₁ x h t) (erase x used) (x ∷ free) ≡ record {
        resident = remove_frame (p.frame x).fd (p.frame x).pagenum (map p.frame used);
        spare = p.frame x ∷ map p.frame free;
        unix = wrote.0;
      }
  view-freed t = ground (arith, remove_frame-erase p used free w x h)

flush_loop-spec :
    (fd : ℤ) (k : ℕ) (p : Pool) (used free : List Ptr) (b : Ptr) (rest : List Ptr) (a : Ptr)
    → IsPool p used free
    → Chain p.links b rest a
    → IsDistinct rest
    → mem b rest ≡ false
    → ((c : Ptr) → mem c rest ≡ true → mem c used ≡ true)
    → length rest < k
    → Flushes (flush_loop k p fd a) (spec_flush_loop fd (map p.frame rest) (view p used free))
unfolding spec_flush_loop
flush_loop-spec fd zero p used free b rest a w c d out inside fuel = absurd (omega arith)
flush_loop-spec fd (suc k) p used free b [] a w c d out inside fuel =
    (p, used, free, flush_end fd k p a c, w, refl)
flush_loop-spec fd (suc k) p used free b (x ∷ xs) a w c d out inside fuel =
    let h = inside x (ground arith) in
    let c_x : Chain p.links b (x ∷ xs) x = (refl, c.1, c.2, c.3, c.4) in
    rw c.0 (elim (Bool-cases (eq_ℤ (p.frame x).fd fd)) [
      | inr other ↦
          rw (round_skip fd k p used free w x h other, other)
            (flush_loop-spec fd k p used free x xs (p.links.next x) w c.4 d.1 d.0
              (λ z m. inside z (ground arith)) (omega arith))
      | inl same ↦ elim (Bool-cases (is_pinned (p.frame x).count)) [
        | inl pinned ↦
            rw (round_pinned fd k p used free w x h same pinned, same, pinned)
              (p, used, free, refl, w, refl)
        | inr unpinned ↦ elim (Bool-cases (wrote fd k p used free w x h).1) [
          | inr bad ↦
              rw (round_bad fd k p used free w x h same unpinned bad, same, unpinned, bad)
                (p₁ fd k p used free w x h, used, free, refl, w₁ fd k p used free w x h, refl)
          | inl good ↦
              let q = p₁ fd k p used free w x h in
              let w_q = w₁ fd k p used free w x h in
              let (t, run, pool) = release-freed q used free w_q x h in
              let p' = freed q used free w_q x h t in
              rw
                (
                  round_good fd k p used free w x h same unpinned p' good run,
                  same,
                  unpinned,
                  good,
                  ← view-freed fd k p used free w x h t,
                )
                (flush_loop-spec fd k p' (erase x used) (x ∷ free) b xs (p.links.next x) pool
                  (rest-walk q used free w_q x h t b xs c_x d (ground arith)) d.1 (ground arith)
                  (λ z m. ground (arith, inside z, mem-erase_ne z x used)) (omega arith))
        ]
      ]
    ])

-- On a well-formed pool BF_FlushBuf ends within its fuel and without undefined behaviour, leaves a
-- well-formed pool, and does what spec_flush says of the view: from the most recently used page on,
-- the pages of the file are written back if dirty and their frames freed, up to the first page that
-- is pinned or cannot be written, whose code is returned.
pub bf_flush_buf-spec_flush :
    (p : Pool) (used free : List Ptr) (w : IsPool p used free) (fd : ℤ)
    → Flushes (bf_flush_buf p fd) (spec_flush fd (view p used free))
unfolding bf_flush_buf spec_flush
bf_flush_buf-spec_flush p used free w fd =
    flush_loop-spec fd lru_fuel p used free null used p.lru_head w w.listed w.distinct
      (null-not-used p.links used free p.lru_head p.free_list_head w.lists) (λ c m. m)
      (omega (arith, w.bounded))
