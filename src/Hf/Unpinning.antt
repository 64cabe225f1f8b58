-- ===== src/Hf/Unpinning.antt =====
-- Pages of hf/hf.c that are unpinned without having been written.
use adb_minirel.Prelude.{ℕ, ◌<◌, ◌≡◌, true, false, List, arith, ◌∙◌, ap}
use adb_minirel.Prelude.Int.{pos}
use adb_minirel.Prelude.Result.{ok}
use adb_minirel.Memory.{Ptr}
use adb_minirel.Bf.{BfReq, Frame, is_pinned, short_dec}
use adb_minirel.Bf.Api.View.{View, view, replace_frame}
use adb_minirel.Bf.Api.Spec.{spec_unpin}
use adb_minirel.Pf.{pfe_ok, pfe_pagefree, FtabEle, Pf}
use adb_minirel.Pf.Pages.{request, pf_unpin_page}
use adb_minirel.Pf.State.{IsOpen}
use adb_minirel.Unix.{max_pages}
use adb_minirel.Pf.Unpin.{Ends, spec_unpin_page, pf_unpin_page-spec_unpin_page}
use adb_minirel.Hf.State.{Held, spec_unpin_page-clean}

-- The frame of the page has one pin less.
abbrev pub unpinned_view : BfReq → Frame → View → View
unpinned_view bq f v = record v {
  resident = replace_frame bq.fd bq.pagenum (record f { count = short_dec f.count }) v.resident;
}

module _ (s : Pf) (used free : List Ptr) (n : ℕ) (pe : FtabEle) (count : ℕ)
    (o : IsOpen s n pe count) (k : ℕ) (h : k < count) (h' : k < max_pages) (a : Ptr)
    (held : Held s used free (request pe (pos n) (pos k)) a) where
  abbrev bq : BfReq
  bq = request pe (pos n) (pos k)

  pub clean-Ends :
      is_pinned (s.pool.frame a).count ≡ true
      → Ends
          (pf_unpin_page s (pos n) (pos k) false)
          s
          free
          (unpinned_view bq (s.pool.frame a) (view s.pool used free), pfe_ok)
  clean-Ends pinned =
      let spec =
        spec_unpin_page-clean bq (view s.pool used free) (s.pool.frame a) held.found.found pinned in
      let (p', used', run, w, same, seen) =
        pf_unpin_page-spec_unpin_page s used free held.pf n pe count o k h h' false in
      (p', used', run ∙ ap (λ x. ok (p', x.1)) spec, w, same, seen ∙ ap (λ x. x.0) spec)

  refuses :
      is_pinned (s.pool.frame a).count ≡ false
      → spec_unpin_page bq false (view s.pool used free) ≡ (view s.pool used free, pfe_pagefree)
  unfolding spec_unpin
  refuses idle = let k = held.found.found in ground arith

  -- A page that nobody has pinned.
  pub idle-Ends :
      is_pinned (s.pool.frame a).count ≡ false
      → Ends (pf_unpin_page s (pos n) (pos k) false) s free (view s.pool used free, pfe_pagefree)
  idle-Ends idle =
      let (p', used', run, w, same, seen) =
        pf_unpin_page-spec_unpin_page s used free held.pf n pe count o k h h' false in
      (
        p',
        used',
        run ∙ ap (λ x. ok (p', x.1)) (refuses idle),
        w,
        same,
        seen ∙ ap (λ x. x.0) (refuses idle),
      )
