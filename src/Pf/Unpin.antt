-- ===== src/Pf/Unpin.antt =====
-- PF_DirtyPage and PF_UnpinPage of pf/pf.c against what they promise of the pool's view.
use adb_minirel.Prelude.{ℕ, ◌<◌, ◌≡◌, refl, Bool, true, false, List, arith, if◌then◌else◌, ◌∙◌}
use adb_minirel.Prelude.Int.{pos}
use adb_minirel.Prelude.Result.{Result, ok, ◌>>=◌}
use adb_minirel.Memory.{Ptr}
use adb_minirel.Bf.{BfReq, BfCode}
use adb_minirel.Bf.Api.View.{HasPlace, View, view}
use adb_minirel.Bf.Api.Spec.{spec_touch, spec_unpin}
use adb_minirel.Bf.Api.Touch.{bf_touch_buf-spec_touch}
use adb_minirel.Bf.Api.Unpin.{bf_unpin_buf-spec_unpin}
use adb_minirel.Pf.{PfCode, pfe_ok, pfe_unix, pfe_pagefree, FtabEle, Pf}
use adb_minirel.Pf.Pages.{request, is_ok, touch_page, unpin_touched, pf_dirty_page, pf_unpin_page}
use adb_minirel.Pf.State.{IsPf, IsOpen, HasPlace-pos}
use adb_minirel.Unix.{max_pages}

-- BFE_OK is PFE_OK, and any other code is `other`.
abbrev pub with_code : PfCode → View × BfCode → View × PfCode
with_code other (v, code) = (v, if is_ok code then pfe_ok else other)

-- What PF_DirtyPage promises of a page that the file has.
abbrev pub spec_dirty : BfReq → View → View × PfCode
spec_dirty bq v = with_code pfe_unix (spec_touch bq v)

abbrev pub unpin_dirtied : BfReq → View × PfCode → View × PfCode
unpin_dirtied bq (v, pfe_ok) = with_code pfe_pagefree (spec_unpin bq v)
unpin_dirtied bq (v, code) = (v, code)

-- What PF_UnpinPage promises of a page that the file has.
abbrev pub spec_unpin_page : BfReq → Bool → View → View × PfCode
spec_unpin_page bq dirty v = unpin_dirtied bq (if dirty then spec_dirty bq v else (v, pfe_ok))

-- A run that ends in a well-formed state over the same table, with the given view and code.
abbrev pub Ends : Result (Pf × PfCode) → Pf → List Ptr → View × PfCode → Type 0
Ends r s free v =
    (s' : Pf) × (used' : List Ptr) × (r ≡ ok (s', v.1))
    × IsPf s' used' free
    × (s'.file_table ≡ s.file_table)
    × (view s'.pool used' free ≡ v.0)

module _ (s : Pf) (used free : List Ptr) (w : IsPf s used free) (bq : BfReq)
    (i : HasPlace bq.fd bq.pagenum) where
  touch_page-spec_dirty : Ends (touch_page s bq) s free (spec_dirty bq (view s.pool used free))
  unfolding touch_page
  touch_page-spec_dirty =
      let (p', used', run, pool, seen) = bf_touch_buf-spec_touch s.pool used free w.pool bq i in
      (
        record s { pool = p' },
        used',
        rw run refl,
        record { pool = pool; sized = w.sized },
        refl,
        seen,
      )

  unpin_touched-ok :
      Ends
        (unpin_touched bq (s, pfe_ok))
        s
        free
        (with_code pfe_pagefree (spec_unpin bq (view s.pool used free)))
  unfolding unpin_touched
  unpin_touched-ok =
      let (p', run, pool, seen) = bf_unpin_buf-spec_unpin s.pool used free w.pool bq i in
      (
        record s { pool = p' },
        used,
        rw run refl,
        record { pool = pool; sized = w.sized },
        refl,
        seen,
      )

module _ (s : Pf) (used free : List Ptr) (w : IsPf s used free) (n : ℕ) (e : FtabEle) (count : ℕ)
    (o : IsOpen s n e count) (k : ℕ) (h : k < count) (h' : k < max_pages) where
  abbrev bq : BfReq
  bq = request e (pos n) (pos k)

  place : HasPlace (pos n) (pos k)
  place = HasPlace-pos n k o.in_table h'

  dirty_run : pf_dirty_page s (pos n) (pos k) ≡ touch_page s bq
  unfolding pf_dirty_page
  dirty_run = ground (arith, o.in_table, o.at, o.valid, o.counted)

  -- On a well-formed state, for an open file with an entry and a page count, for a page that the
  -- file has, PF_DirtyPage ends without undefined behaviour, leaves a well-formed state over the
  -- same file table, and does what spec_touch says of the pool's view, with PFE_UNIX for each of
  -- its refusals.
  pub pf_dirty_page-spec_dirty :
      Ends (pf_dirty_page s (pos n) (pos k)) s free (spec_dirty bq (view s.pool used free))
  pf_dirty_page-spec_dirty = rw dirty_run (touch_page-spec_dirty s used free w bq place)

  unpin_run :
      (dirty : Bool)
      → pf_unpin_page s (pos n) (pos k) dirty
        ≡ ((if dirty then touch_page s bq else ok (s, pfe_ok)) >>= unpin_touched bq)
  unfolding pf_unpin_page
  unpin_run dirty = ground (arith, o.in_table, o.at, o.valid, o.counted)

  after_touch :
      (q : View × PfCode)
      → Ends (touch_page s bq) s free q
      → Ends (touch_page s bq >>= unpin_touched bq) s free (unpin_dirtied bq q)
  unfolding unpin_touched
  after_touch (v, pfe_ok) (s', used', run, w', same, seen) =
      let (s₂, used₂, run₂, w₂, same₂, seen₂) = unpin_touched-ok s' used' free w' bq place in
      rw (run, ← seen) (s₂, used₂, run₂, w₂, same₂ ∙ same, seen₂)
  after_touch (v, code) (s', used', run, w', same, seen) = rw run (s', used', refl, w', same, seen)

  -- On a well-formed state, for an open file with an entry and a page count, for a page below
  -- 524287 that the file has, PF_UnpinPage ends without undefined behaviour, leaves a well-formed
  -- state over the same file table, and does what the pool's specifications say one after the
  -- other: where the dirty flag is given the page is touched first, with PFE_UNIX for a page that
  -- is not pinned or not in the pool; then it is unpinned, with PFE_PAGEFREE for such a page.
  pub pf_unpin_page-spec_unpin_page :
      (dirty : Bool)
      → Ends
          (pf_unpin_page s (pos n) (pos k) dirty)
          s
          free
          (spec_unpin_page bq dirty (view s.pool used free))
  pf_unpin_page-spec_unpin_page true =
      rw (unpin_run true) (after_touch _ (touch_page-spec_dirty s used free w bq place))
  pf_unpin_page-spec_unpin_page false =
      rw (unpin_run false) (unpin_touched-ok s used free w bq place)
