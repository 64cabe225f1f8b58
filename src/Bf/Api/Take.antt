-- ===== src/Bf/Api/Take.antt =====
-- Where BF_GetBuf and BF_AllocBuf of bf/bf.c get a frame from: FL_Pop, or LRU_ClearLast.
use adb_minirel.Prelude.{
  ◌≡◌, refl, ◌⊎◌, inl, inr, Bool, true, false, List, [], ◌∷◌, map, none, some, arith, ◌==◌,
  if◌then◌else◌, mem, erase, Bool-cases,
}
use adb_minirel.Prelude.Int.{ℤ, eq_ℤ_refl}
use adb_minirel.Prelude.Result.{Result, ok, ◌>>=◌}
use adb_minirel.Memory.{Ptr, null, Links}
use adb_minirel.Memory.Chain.{Chain}
use adb_minirel.Memory.TwoLists.{pop_free-TwoLists}
use adb_minirel.Unix.{Unix, pwrite}
use adb_minirel.Bf.{Frame, Pool, Answer, page, failed, BfCode, bfe_pagefixed, bfe_incompletewrite}
use adb_minirel.Bf.FreeList.{fl_pop}
use adb_minirel.Bf.Hash.Erase.{find_entry-erase, find_entry-mem}
use adb_minirel.Bf.Lru.{write_back, lru_clear_last, find_tail, skip_pinned, lru_fuel}
use adb_minirel.Bf.Lru.Victim.{last_unpinned, last_unpinned-mem, find_tail-skip_pinned}
use adb_minirel.Bf.Api.{take_frame}
use adb_minirel.Bf.Api.Frames.{page-live}
use adb_minirel.Bf.Api.Evict.{evicted-Holds, lru_remove-evict, evicted}
use adb_minirel.Bf.Api.Spec.{victim, spec_write_back, taken, no_frame, spec_take}
use adb_minirel.Bf.Api.View.{
  IsPool, Holds, as_entry, find_page, view, remove_frame, find_page-Finds,
}

-- The victim by address and the victim by contents are the same.
last_unpinned-victim :
    (l : Links) (frame : Ptr → Frame) (b : Ptr) (xs : List Ptr) (p : Ptr)
    → Chain l b xs p
    → victim (map frame xs)
      ≡ (if last_unpinned frame xs == null then none else some (frame (last_unpinned frame xs)))
unfolding victim last_unpinned
last_unpinned-victim l frame b [] p c = refl
last_unpinned-victim l frame b (x ∷ xs) p c =
    ground (arith, last_unpinned-victim l frame x xs (l.next x) c.4)

module _ (p : Pool) (used free : List Ptr) (w : IsPool p used free) where
  pub unix-IsPool : (u : Unix) → IsPool (record p { unix = u }) used free
  unix-IsPool u = record {
    lists = w.lists;
    bounded = w.bounded;
    unique = w.unique;
    placed = w.placed;
    chain = w.chain;
    table = w.table;
    found = w.found;
  }

  pub write_back-spec :
      (a : Ptr)
      → mem a used ≡ true
      → write_back p a
        ≡ ok (
          record p { unix = (spec_write_back (p.frame a) p.unix).0 },
          (spec_write_back (p.frame a) p.unix).1,
        )
  unfolding write_back spec_write_back pwrite
  write_back-spec a h =
      let place = w.placed a h in ground (arith, page-live p used free w a h, place.located)

  pub remove_frame-erase :
      (a : Ptr)
      → mem a used ≡ true
      → remove_frame (p.frame a).fd (p.frame a).pagenum (map p.frame used)
        ≡ map p.frame (erase a used)
  remove_frame-erase a h =
      let fd = (p.frame a).fd in
      let pagenum = (p.frame a).pagenum in
      let itself : find_page p.frame fd pagenum used ≡ a =
        find_entry-mem (as_entry p.frame) a fd pagenum used w.unique h
          (ground (arith, eq_ℤ_refl fd, eq_ℤ_refl pagenum)) in
      elim (find_page-Finds p.frame fd pagenum used w.distinct) [
        | inl (gone, _) ↦ absurd (let k = page-live p used free w a h in ground arith)
        | inr r ↦ rw (← r.erased, itself)
      ]

  pub clear_last_walk :
      (used ≡ [] → ⊥)
      → (find_tail lru_fuel p.links p.lru_head >>= skip_pinned lru_fuel p.links p.frame)
        ≡ ok (last_unpinned p.frame used)
  clear_last_walk some_page =
      find_tail-skip_pinned p.links p.frame used p.lru_head w.listed (omega (arith, w.bounded))
        some_page

  -- A key that is not in the pool is still not there.
  abbrev StillAbsent : Pool → List Ptr → Type 0
  StillAbsent p' used' =
      (fd pagenum : ℤ)
      → find_page p.frame fd pagenum used ≡ null
      → find_page p'.frame fd pagenum used' ≡ null

  -- The frame that a call got, or the code, as the specification says.
  abbrev pub Takes : Result (Pool × Answer) → Type 0
  Takes r =
      ((p' : Pool) × (used' free' : List Ptr) × (a : Ptr) × (r ≡ ok (p', page a))
        × Holds p' used' free' a
        × StillAbsent p' used'
        × (spec_take (view p used free) ≡ taken (p'.frame a) (view p' used' free')))
      ⊎ ((p' : Pool) × (e : BfCode) × (r ≡ ok (p', failed e))
          × IsPool p' used free
          × (spec_take (view p used free) ≡ no_frame e (view p' used free)))

module _ (p : Pool) (used : List Ptr) (w : IsPool p used [])
    (safe : (p.lru_head == last_unpinned p.frame used) ≡ false) where
  abbrev v : Ptr
  v = last_unpinned p.frame used

  not_empty : used ≡ [] → ⊥
  unfolding last_unpinned
  not_empty e = let c = w.listed in ground arith

  abbrev wrote : Unix × Bool
  wrote = spec_write_back (p.frame v) p.unix

  clear_pinned : (v == null) ≡ true → Takes p used [] w (lru_clear_last p p.lru_head)
  unfolding lru_clear_last spec_take
  clear_pinned none_free = inr (
    p,
    bfe_pagefixed,
    ground (arith, clear_last_walk p used [] w not_empty),
    w,
    ground (arith, last_unpinned-victim p.links p.frame null used p.lru_head w.listed),
  )

  module _ (some_free : (v == null) ≡ false) (h : mem v used ≡ true) where
    clear_failed : wrote.1 ≡ false → Takes p used [] w (lru_clear_last p p.lru_head)
    unfolding lru_clear_last spec_take
    clear_failed bad = inr (
      record p { unix = wrote.0 },
      bfe_incompletewrite,
      ground (arith, clear_last_walk p used [] w not_empty, write_back-spec p used [] w v h),
      unix-IsPool p used [] w wrote.0,
      ground (arith, last_unpinned-victim p.links p.frame null used p.lru_head w.listed),
    )

    clear_done : wrote.1 ≡ true → Takes p used [] w (lru_clear_last p p.lru_head)
    unfolding lru_clear_last spec_take
    clear_done good =
        let p₁ : Pool = record p { unix = wrote.0 } in
        let w₁ = unix-IsPool p used [] w wrote.0 in
        let (t, run, holds) = evicted-Holds p₁ used [] w₁ v h in
        inl (
          evicted p₁ used [] w₁ v h t,
          erase v used,
          [],
          v,
          ground (
            arith,
            clear_last_walk p used [] w not_empty,
            write_back-spec p used [] w v h,
            run,
            lru_remove-evict p₁ used [] w₁ v h,
          ),
          holds,
          (λ fd pagenum missing.
              ground (arith, find_entry-erase (as_entry p.frame) v fd pagenum used w.unique h)),
          ground (
            arith,
            last_unpinned-victim p.links p.frame null used p.lru_head w.listed,
            remove_frame-erase p used [] w v h,
          ),
        )

-- On a well-formed pool without a free frame, where the victim is not the head of the list,
-- LRU_ClearLast ends within its fuel and without undefined behaviour, and agrees with spec_take: it
-- gives the frame of the least recently used page that is not pinned, written back if dirty and
-- taken out of the list and of the hash table, and leaves a well-formed pool; or it leaves the
-- lists as they are and returns the code for a pool of pinned pages or for a failed write.
pub lru_clear_last-Takes :
    (p : Pool) (used : List Ptr) (w : IsPool p used [])
    → (p.lru_head == last_unpinned p.frame used) ≡ false
    → Takes p used [] w (lru_clear_last p p.lru_head)
lru_clear_last-Takes p used w safe = elim (last_unpinned-mem p.frame used) [
  | inl pinned ↦ clear_pinned p used w safe (ground arith)
  | inr (h, _) ↦
      let some_free = (page-live p used [] w (last_unpinned p.frame used) h).1 in
      elim (Bool-cases (wrote p used w safe).1) [
        | inl good ↦ clear_done p used w safe some_free h good
        | inr bad ↦ clear_failed p used w safe some_free h bad
      ]
]

-- The victim is needed only if no frame is free, and it is not the head of the list.
abbrev pub IsSafe : Pool → List Ptr → List Ptr → Type 0
IsSafe p used free = free ≡ [] → (p.lru_head == last_unpinned p.frame used) ≡ false

pub take_frame-Takes :
    (p : Pool) (used free : List Ptr) (w : IsPool p used free)
    → IsSafe p used free
    → Takes p used free w (take_frame p)
unfolding take_frame fl_pop spec_take
take_frame-Takes p used [] w safe =
    let e : (p.free_list_head == null) ≡ true = let k = w.spare in ground arith in
    rw e (lru_clear_last-Takes p used w (safe refl))
take_frame-Takes p used (a ∷ free) w safe =
    let (lists, d, at) =
      pop_free-TwoLists p.links used free p.lru_head a p.free_list_head w.lists in
    inl (
      record p { free_list_head = p.links.next a },
      used,
      free,
      a,
      popped d.live d.not_null at,
      record {
        pool = record {
          lists = lists;
          bounded = omega (arith, w.bounded);
          unique = w.unique;
          placed = w.placed;
          chain = w.chain;
          table = w.table;
          found = w.found;
        };
        detached = d;
        room = omega (arith, w.bounded);
      },
      λ fd pagenum m. m,
      spec_pop,
    )
  where
    popped :
        p.links.live a ≡ true
        → (a == null) ≡ false
        → p.free_list_head ≡ a
        → take_frame p ≡ ok (record p { free_list_head = p.links.next a }, page a)
    popped live n at = ground arith

    spec_pop :
        spec_take (view p used (a ∷ free))
        ≡ taken (p.frame a) (view (record p { free_list_head = p.links.next a }) used free)
    spec_pop = refl
