-- ===== src/Bf/Api/Get.antt =====
-- BF_GetBuf and BF_AllocBuf of bf/bf.c against their specification.
use adb_minirel.Prelude.{◌≡◌, refl, inl, inr, List, map, none, arith}
use adb_minirel.Prelude.Result.{ok, ◌>>=◌}
use adb_minirel.Memory.{Ptr, null}
use adb_minirel.Bf.{Pool, page, failed, BfReq, bfe_pageinbuf}
use adb_minirel.Bf.Api.{set_frame, read_in, set_up, bf_get_buf, bf_alloc_buf, take_frame}
use adb_minirel.Bf.Api.Frames.{page-live, set_frame-IsPool}
use adb_minirel.Bf.Api.Take.{IsSafe, take_frame-Takes}
use adb_minirel.Bf.Api.Spec.{
  spec_take, got, refused, spec_get, spec_alloc, pin_again, get_into, alloc_into,
}
use adb_minirel.Bf.Api.View.{
  IsPool, HasPlace, find_page, view, find_frame, Finds, find_page-Finds, map-update_absent,
}
use adb_minirel.Bf.Api.Fill.{Refines, read_in-get_into, set_up-alloc_into}

module _ (p : Pool) (used free : List Ptr) (w : IsPool p used free) (bq : BfReq)
    (i : HasPlace bq.fd bq.pagenum)
    (safe : find_page p.frame bq.fd bq.pagenum used ≡ null → IsSafe p used free) where
  abbrev a : Ptr
  a = find_page p.frame bq.fd bq.pagenum used

  get_miss :
      a ≡ null → Refines (take_frame p >>= read_in bq) (get_into bq (spec_take (view p used free)))
  unfolding read_in
  get_miss miss = elim (take_frame-Takes p used free w (safe miss)) [
    | inl (p', used', free', b, run, holds, absent, seen) ↦
        rw (run, seen) (read_in-get_into bq i p' used' free' b holds (absent bq.fd bq.pagenum miss))
    | inr (p', e, run, pool, seen) ↦
        rw (run, seen) (p', used, free, failed e, refl, pool, refl, refl)
  ]

  alloc_miss :
      a ≡ null → Refines (take_frame p >>= set_up bq) (alloc_into bq (spec_take (view p used free)))
  unfolding set_up
  alloc_miss miss = elim (take_frame-Takes p used free w (safe miss)) [
    | inl (p', used', free', b, run, holds, absent, seen) ↦
        rw (run, seen)
          (set_up-alloc_into bq i p' used' free' b holds (absent bq.fd bq.pagenum miss))
    | inr (p', e, run, pool, seen) ↦
        rw (run, seen) (p', used, free, failed e, refl, pool, refl, refl)
  ]

  get_run_miss : a ≡ null → bf_get_buf p bq ≡ (take_frame p >>= read_in bq)
  unfolding bf_get_buf
  get_run_miss miss = ground (arith, w.found bq.fd bq.pagenum i)

  spec_get_miss :
      find_frame bq.fd bq.pagenum (map p.frame used) ≡ none
      → spec_get bq (view p used free) ≡ get_into bq (spec_take (view p used free))
  unfolding spec_get
  spec_get_miss gone = ground arith

  alloc_run_miss : a ≡ null → bf_alloc_buf p bq ≡ (take_frame p >>= set_up bq)
  unfolding bf_alloc_buf
  alloc_run_miss miss = ground (arith, w.found bq.fd bq.pagenum i)

  spec_alloc_miss :
      find_frame bq.fd bq.pagenum (map p.frame used) ≡ none
      → spec_alloc bq (view p used free) ≡ alloc_into bq (spec_take (view p used free))
  unfolding spec_alloc
  spec_alloc_miss gone = ground arith

  spec_get_hit :
      Finds p.frame bq.fd bq.pagenum used a
      → (spec_get bq (view p used free)).1 ≡ got (pin_again (p.frame a))
  unfolding spec_get
  spec_get_hit r = ground (arith, r.found)

  spec_alloc_hit :
      Finds p.frame bq.fd bq.pagenum used a
      → (spec_alloc bq (view p used free)).1 ≡ refused bfe_pageinbuf
  unfolding spec_alloc
  spec_alloc_hit r = ground (arith, r.found)

  get_run_hit :
      Finds p.frame bq.fd bq.pagenum used a
      → bf_get_buf p bq ≡ ok (set_frame p a (pin_again (p.frame a)), page a)
  unfolding bf_get_buf
  get_run_hit r = ground (arith, w.found bq.fd bq.pagenum i, page-live p used free w a r.listed)

  alloc_run_hit :
      Finds p.frame bq.fd bq.pagenum used a → bf_alloc_buf p bq ≡ ok (p, failed bfe_pageinbuf)
  unfolding bf_alloc_buf
  alloc_run_hit r = ground (arith, w.found bq.fd bq.pagenum i, page-live p used free w a r.listed)

  view-spec_get :
      Finds p.frame bq.fd bq.pagenum used a
      → view (set_frame p a (pin_again (p.frame a))) used free ≡ (spec_get bq (view p used free)).0
  unfolding spec_get
  view-spec_get r =
      let g = pin_again (p.frame a) in
      ground (arith, r.found, r.replaced g, map-update_absent p.frame a g free (w.apart a r.listed))

  view-spec_alloc :
      Finds p.frame bq.fd bq.pagenum used a
      → view p used free ≡ (spec_alloc bq (view p used free)).0
  unfolding spec_alloc
  view-spec_alloc r = ground (arith, r.found)

  -- A page that is in the pool is pinned once more, and stays where it is in the list.
  get_hit :
      Finds p.frame bq.fd bq.pagenum used a
      → Refines (bf_get_buf p bq) (spec_get bq (view p used free))
  get_hit r =
      let g = pin_again (p.frame a) in
      (
        set_frame p a g,
        used,
        free,
        page a,
        get_run_hit r,
        set_frame-IsPool p used free w a g refl refl,
        view-spec_get r,
        rw (spec_get_hit r) (r.listed, ground arith),
      )

  -- On a well-formed pool, for a page that has its place in the hash table and an int for its
  -- offset in the file, and provided that a page which must give way to it is not the head of the
  -- LRU list, BF_GetBuf ends without undefined behaviour, leaves a well-formed pool, and does what
  -- spec_get says of the view: a page in the pool is pinned once more where it stands; any other
  -- page takes a free frame or the frame of the least recently used unpinned page, written back if
  -- dirty, is read from the file and put in front; each refusal has the code of the specification.
  pub bf_get_buf-spec_get : Refines (bf_get_buf p bq) (spec_get bq (view p used free))
  bf_get_buf-spec_get = elim (find_page-Finds p.frame bq.fd bq.pagenum used w.distinct) [
    | inl (miss, gone) ↦ rw (get_run_miss miss, spec_get_miss gone) (get_miss miss)
    | inr r ↦ get_hit r
  ]

  alloc_hit :
      Finds p.frame bq.fd bq.pagenum used a
      → Refines (bf_alloc_buf p bq) (spec_alloc bq (view p used free))
  alloc_hit r = (
    p,
    used,
    free,
    failed bfe_pageinbuf,
    alloc_run_hit r,
    w,
    view-spec_alloc r,
    rw (spec_alloc_hit r) refl,
  )

  -- On a well-formed pool, for a page that has its place in the hash table and an int for its
  -- offset in the file, and provided that a page which must give way to it is not the head of the
  -- LRU list, BF_AllocBuf ends without undefined behaviour, leaves a well-formed pool, and does
  -- what spec_alloc says of the view: a page that is in the pool is refused; any other takes a
  -- frame as in BF_GetBuf, is set up clean and pinned once with the frame's old bytes, and is put
  -- in front.
  pub bf_alloc_buf-spec_alloc : Refines (bf_alloc_buf p bq) (spec_alloc bq (view p used free))
  bf_alloc_buf-spec_alloc = elim (find_page-Finds p.frame bq.fd bq.pagenum used w.distinct) [
    | inl (miss, gone) ↦ rw (alloc_run_miss miss, spec_alloc_miss gone) (alloc_miss miss)
    | inr r ↦ alloc_hit r
  ]
