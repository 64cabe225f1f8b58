-- ===== src/Bf/Api/Unpin.antt =====
-- BF_UnpinBuf of bf/bf.c against its specification.
use adb_minirel.Prelude.{◌≡◌, refl, inl, inr, List, arith, Bool-cases}
use adb_minirel.Prelude.Result.{ok}
use adb_minirel.Memory.{Ptr}
use adb_minirel.Bf.{Pool, BfReq, is_pinned, short_dec}
use adb_minirel.Bf.Api.{bump_count, bf_unpin_buf}
use adb_minirel.Bf.Api.View.{IsPool, HasPlace, find_page, view, find_page-Finds, map-update_absent}
use adb_minirel.Bf.Api.Spec.{spec_unpin}
use adb_minirel.Bf.Api.Frames.{set_frame-IsPool, page-live}

module _ (p : Pool) (used free : List Ptr) (w : IsPool p used free) (bq : BfReq)
    (i : HasPlace bq.fd bq.pagenum) where
  -- On a well-formed pool, for a page that has its place in the hash table and an int for its
  -- offset in the file, BF_UnpinBuf ends without undefined behaviour, leaves a well-formed pool
  -- whose two lists are the same, and does what spec_unpin says of the view: a pinned page has its
  -- count lowered by one; a page that is not in the pool, or not pinned, is refused with its code
  -- and nothing changes.
  pub bf_unpin_buf-spec_unpin :
      (p' : Pool) × (bf_unpin_buf p bq ≡ ok (p', (spec_unpin bq (view p used free)).1))
      × IsPool p' used free
      × (view p' used free ≡ (spec_unpin bq (view p used free)).0)
  unfolding bf_unpin_buf spec_unpin
  bf_unpin_buf-spec_unpin =
      let a = find_page p.frame bq.fd bq.pagenum used in
      elim (find_page-Finds p.frame bq.fd bq.pagenum used w.distinct) [
        | inl gone ↦ (p, ground (arith, w.found bq.fd bq.pagenum i), w, ground arith)
        | inr r ↦ elim (Bool-cases (is_pinned (p.frame a).count)) [
          | inl pinned ↦ (
            bump_count p a short_dec,
            ground (arith, w.found bq.fd bq.pagenum i, page-live p used free w a r.listed, r.found),
            set_frame-IsPool p used free w a _ refl refl,
            ground (
              arith,
              r.found,
              r.replaced (record (p.frame a) { count = short_dec (p.frame a).count }),
              map-update_absent p.frame a
                  (record (p.frame a) { count = short_dec (p.frame a).count }) free
                  (w.apart a r.listed),
            ),
          )
          | inr unpinned ↦ (
            p,
            ground (arith, w.found bq.fd bq.pagenum i, page-live p used free w a r.listed, r.found),
            w,
            ground (arith, r.found),
          )
        ]
      ]
