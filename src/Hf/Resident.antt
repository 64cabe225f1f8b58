-- ===== src/Hf/Resident.antt =====
-- Pages of hf/hf.c that stand in the pool: what fetching one and unpinning it dirty does.
use adb_minirel.Prelude.{ℕ, ◌<◌, ◌≡◌, true, List, ◌∷◌, some, arith, ◌∙◌, ap, inl, inr}
use adb_minirel.Prelude.Int.{pos}
use adb_minirel.Prelude.Result.{ok}
use adb_minirel.Memory.{Ptr, null}
use adb_minirel.Unix.{Buf}
use adb_minirel.Bf.{BfReq, Frame, is_pinned, short_inc, short_dec}
use adb_minirel.Bf.Api.View.{
  View, view, find_page, find_frame, replace_frame, remove_frame, find_page-Finds,
}
use adb_minirel.Bf.Api.Frames.{page-live}
use adb_minirel.Bf.Api.Spec.{got, pin_again, spec_get}
use adb_minirel.Pf.{pfe_ok, FtabEle, Pf, pf_page}
use adb_minirel.Pf.Pages.{request, pf_get_this_page, pf_unpin_page}
use adb_minirel.Pf.State.{IsPf, IsOpen}
use adb_minirel.Unix.{max_pages}
use adb_minirel.Pf.Get.{pf_get_this_page-spec_get}
use adb_minirel.Pf.Unpin.{Ends}
use adb_minirel.Hf.State.{Held, refined-Held, filled_pf, find_frame-keyed, IsOpen-kept}
use adb_minirel.Hf.Writing.{written_view, remove_frame-replace_frame, write-Ends}

-- The page was fetched from the pool.
abbrev pub pinned_view : BfReq → Frame → View → View
pinned_view bq f v = record v { resident = replace_frame bq.fd bq.pagenum (pin_again f) v.resident }

-- The page was fetched from the pool, written, and unpinned as dirty.
abbrev pub used_view : BfReq → Frame → Buf → View → View
used_view bq f b v = record v {
  resident =
      record f { fpage = b; dirty = true; count = short_dec (short_inc f.count) }
      ∷ remove_frame bq.fd bq.pagenum v.resident;
}

module _ (s : Pf) (used free : List Ptr) (w : IsPf s used free) (n : ℕ) (pe : FtabEle) (count : ℕ)
    (o : IsOpen s n pe count) (k : ℕ) (h : k < count) (h' : k < max_pages) (f : Frame)
    (there : find_frame (pos n) (pos k) (view s.pool used free).resident ≡ some f) where
  abbrev bq : BfReq
  bq = request pe (pos n) (pos k)

  pub hit :
      spec_get bq (view s.pool used free)
      ≡ (pinned_view bq f (view s.pool used free), got (pin_again f))
  unfolding spec_get
  hit = ground arith

  pub not_absent : find_page s.pool.frame (pos n) (pos k) used ≡ null → ⊥
  not_absent absent = elim (find_page-Finds s.pool.frame (pos n) (pos k) used w.pool.distinct) [
    | inl (_, none_there) ↦ cc
    | inr r ↦ let live = page-live s.pool used free w.pool _ r.listed in ground arith
  ]

  pub resident-Held :
      (p : Pf) × (used' free' : List Ptr) × (a : Ptr) × (pf_get_this_page s (pos n) (pos k)
        ≡ ok (p, pf_page a))
      × Held p used' free' bq a
      × (p.pool.frame a ≡ pin_again f)
      × (p.file_table ≡ s.file_table)
      × (view p.pool used' free' ≡ pinned_view bq f (view s.pool used free))
  resident-Held =
      refined-Held (pf_get_this_page s (pos n) (pos k)) s bq (view s.pool used free)
        (pinned_view bq f (view s.pool used free)) (pin_again f)
        (pf_get_this_page-spec_get s used free w n pe count o k h h'
          (λ absent. absurd (not_absent absent)))
        hit

  -- What a write of the fetched page does to the view.
  pub written_view-used_view :
      (p : Pf) (used' free' : List Ptr) (a : Ptr)
      → p.pool.frame a ≡ pin_again f
      → view p.pool used' free' ≡ pinned_view bq f (view s.pool used free)
      → (b : Buf)
      → written_view bq (p.pool.frame a) b (view p.pool used' free')
        ≡ used_view bq f b (view s.pool used free)
  written_view-used_view p used' free' a frame seen b =
      ap (λ x. written_view bq x b (view p.pool used' free')) frame
      ∙ ap (λ x. written_view bq (pin_again f) b x) seen
      ∙ ap
          (λ fs. record (view s.pool used free) {
            resident =
                record f { fpage = b; dirty = true; count = short_dec (short_inc f.count) } ∷ fs;
          })
          (remove_frame-replace_frame bq.fd bq.pagenum (pin_again f)
            (view s.pool used free).resident
            (find_frame-keyed bq.fd bq.pagenum (view s.pool used free).resident f there))

  -- Once it was fetched, the page is written and unpinned.
  pub resident-written :
      (p : Pf) (used' free' : List Ptr) (a : Ptr) (held : Held p used' free' bq a)
      → p.pool.frame a ≡ pin_again f
      → p.file_table ≡ s.file_table
      → view p.pool used' free' ≡ pinned_view bq f (view s.pool used free)
      → is_pinned (short_inc f.count) ≡ true
      → (b : Buf)
      → Ends
          (pf_unpin_page (filled_pf p used' free' bq a held b) (pos n) (pos k) true)
          p
          free'
          (used_view bq f b (view s.pool used free), pfe_ok)
  resident-written p used' free' a held frame same seen pinned b =
      let (p', used₂, run₂, w₂, same₂, seen₂) =
        write-Ends p used' free' n pe count (IsOpen-kept s p n pe count o same) k h h' a held
          (rw frame pinned) b in
      (p', used₂, run₂, w₂, same₂, seen₂ ∙ written_view-used_view p used' free' a frame seen b)
