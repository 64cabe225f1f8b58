-- ===== src/Hf/Writing.antt =====
-- A page of hf/hf.c that is written and unpinned as dirty: HF_DeleteRec.
use adb_minirel.Prelude.{
  ℕ, ◌<◌, ◌≡◌, ◌≢◌, refl, true, false, List, [], ◌∷◌, Option, none, some, map, arith, get_elem?,
  ==_refl, ◌∙◌, ap,
}
use adb_minirel.Prelude.Int.{ℤ, pos}
use adb_minirel.Prelude.Result.{Result, ok, ◌>>=◌}
use adb_minirel.Memory.{Ptr, null}
use adb_minirel.Unix.{Buf, Name}
use adb_minirel.Bf.{BfReq, Frame, is_pinned, short_dec}
use adb_minirel.Bf.Api.View.{
  View, view, find_page, find_frame, is_page, replace_frame, remove_frame, map-update_absent,
}
use adb_minirel.Bf.Api.Spec.{got, spec_get}
use adb_minirel.Bf.Api.Take.{IsSafe}
use adb_minirel.Pf.{pfe_ok, FtabEle, Pf, pf_page}
use adb_minirel.Pf.Pages.{request, pf_get_this_page, pf_unpin_page}
use adb_minirel.Pf.State.{IsPf, IsOpen}
use adb_minirel.Unix.{max_pages}
use adb_minirel.Pf.Get.{pf_get_this_page-spec_get}
use adb_minirel.Pf.Unpin.{Ends, spec_unpin_page, pf_unpin_page-spec_unpin_page}
use adb_minirel.Hf.{hfe_ok, hfe_invalidrecord, RecId, HfEntry, Hf, set_file, get_this_page}
use adb_minirel.Hf.Bytes.{Blocks, is_vacant, set_vacant}
use adb_minirel.Hf.Bytes.Slots.{marked, set_vacant_run, record_at-vacated, record_at-marked_ne}
use adb_minirel.Hf.Bytes.Read.{Fits, record_at, record_at-some, record_at-none}
use adb_minirel.Hf.Records.{is_past, uncount_record, delete_in, hf_delete_rec}
use adb_minirel.Hf.Reading.{ReadEnds}
use adb_minirel.Hf.State.{
  refined-Held, IsHfOpen, Held, filled_frame, filled_pf, filled_pf-Held, spec_unpin_page-dirty,
  IsOpen-kept,
}

-- A frame after its bytes were written and its page unpinned as dirty.
abbrev pub written_frame : Frame → Buf → Frame
written_frame f b = record f { fpage = b; dirty = true; count = short_dec f.count }

abbrev pub written_view : BfReq → Frame → Buf → View → View
written_view bq f b v = record v {
  resident = written_frame f b ∷ remove_frame bq.fd bq.pagenum v.resident;
}

pub remove_frame-replace_frame :
    (fd pagenum : ℤ) (g : Frame) (fs : List Frame)
    → is_page g fd pagenum ≡ true
    → remove_frame fd pagenum (replace_frame fd pagenum g fs) ≡ remove_frame fd pagenum fs
remove_frame-replace_frame fd pagenum g [] k = refl
remove_frame-replace_frame fd pagenum g (f ∷ fs) k =
    ground (arith, remove_frame-replace_frame fd pagenum g fs)

module _ (s : Pf) (used free : List Ptr) (n : ℕ) (pe : FtabEle) (count : ℕ)
    (o : IsOpen s n pe count) (k : ℕ) (h : k < count) (h' : k < max_pages) (a : Ptr)
    (held : Held s used free (request pe (pos n) (pos k)) a)
    (pinned : is_pinned (s.pool.frame a).count ≡ true) (b : Buf) where
  abbrev bq : BfReq
  bq = request pe (pos n) (pos k)

  abbrev filled : Pf
  filled = filled_pf s used free bq a held b

  abbrev g : Frame
  g = filled_frame s used free bq a held b

  filled-view : view filled.pool used free ≡ record (view s.pool used free) {
    resident = replace_frame bq.fd bq.pagenum g (map s.pool.frame used);
  }
  filled-view =
      rw
        (
          held.found.replaced g,
          map-update_absent s.pool.frame a g free (held.pf.pool.apart a held.found.listed),
        )
        refl

  keyed : is_page g bq.fd bq.pagenum ≡ true
  keyed = held.found.keyed

  -- The page is written, and unpinned as dirty.
  pub write-Ends :
      Ends
        (pf_unpin_page filled (pos n) (pos k) true)
        filled
        free
        (written_view bq (s.pool.frame a) b (view s.pool used free), pfe_ok)
  write-Ends =
      let held' = filled_pf-Held s used free bq a held b in
      let frame : filled.pool.frame a ≡ g = ground (arith, ==_refl a) in
      let there : find_frame bq.fd bq.pagenum (view filled.pool used free).resident ≡ some g =
        held'.found.found ∙ ap some frame in
      let spec = spec_unpin_page-dirty bq (view filled.pool used free) g there pinned in
      let (p', used', run, w, same, seen) =
        pf_unpin_page-spec_unpin_page filled used free held'.pf n pe count
          (IsOpen-kept s filled n pe count o refl) k h h' true in
      let shown : (spec_unpin_page bq true (view filled.pool used free))
          ≡ (written_view bq (s.pool.frame a) b (view s.pool used free), pfe_ok) =
        spec
        ∙ ap (λ x. (written_view bq g b x, pfe_ok)) filled-view
        ∙ ap (λ fs. (record (view s.pool used free) { resident = written_frame g b ∷ fs }, pfe_ok))
            (remove_frame-replace_frame bq.fd bq.pagenum g (map s.pool.frame used) keyed) in
      (p', used', run ∙ ap (λ x. ok (p', x.1)) shown, w, same, seen ∙ ap (λ x. x.0) shown)

-- A run that ends in a state that differs from `s` in the pool, in the entry `i` of HF's table and
-- in the blocks of memory, which is well formed and has the given view.
abbrev pub WriteEnds :
    {A : Type 0} → Result A → (Hf → A) → Hf → ℕ → HfEntry → Blocks → View → Type 0
WriteEnds r tag s i e h v =
    (p : Pf) × (used' free' : List Ptr) × (r
      ≡ ok (tag (set_file (record s { pf = p; blocks = h }) (pos i) e)))
    × IsPf p used' free'
    × (p.file_table ≡ s.pf.file_table)
    × (view p.pool used' free' ≡ v)

module _ (s : Hf) (used free : List Ptr) (w : IsPf s.pf used free) (n : ℕ) (pe : FtabEle)
    (count : ℕ) (o : IsOpen s.pf n pe count) (i : ℕ) (e : HfEntry) (u : IsHfOpen s i e n) (q k : ℕ)
    (mapped : get_elem? e.page_map q ≡ some (pos k)) (h : k < count) (h' : k < max_pages)
    (safe : find_page s.pf.pool.frame (pos n) (pos k) used ≡ null → IsSafe s.pf.pool used free)
    (v : View) (f : Frame)
    (gets : spec_get (request pe (pos n) (pos k)) (view s.pf.pool used free) ≡ (v, got f))
    (pinned : is_pinned f.count ≡ true) where
  abbrev page : BfReq
  page = request pe (pos n) (pos k)

  gotten :
      (p : Pf) × (used' free' : List Ptr) × (a : Ptr) × (pf_get_this_page s.pf (pos n) (pos k)
        ≡ ok (p, pf_page a))
      × Held p used' free' page a
      × (p.pool.frame a ≡ f)
      × (p.file_table ≡ s.pf.file_table)
      × (view p.pool used' free' ≡ v)
  gotten =
      refined-Held (pf_get_this_page s.pf (pos n) (pos k)) s.pf page (view s.pf.pool used free) v f
        (pf_get_this_page-spec_get s.pf used free w n pe count o k h h' safe) gets

  -- What the frame holds after the write of `b`, once it was fetched.
  written :
      (p : Pf) (used' free' : List Ptr) (a : Ptr) (held : Held p used' free' page a)
      → p.pool.frame a ≡ f
      → p.file_table ≡ s.pf.file_table
      → view p.pool used' free' ≡ v
      → (b : Buf)
      → Ends
          (pf_unpin_page (filled_pf p used' free' page a held b) (pos n) (pos k) true)
          p
          free'
          (written_view page f b v, pfe_ok)
  written p used' free' a held frame same seen b =
      let (p', used₂, run₂, w₂, same₂, seen₂) =
        write-Ends p used' free' n pe count (IsOpen-kept s.pf p n pe count o same) k h h' a held
          (rw frame pinned) b in
      (
        p',
        used₂,
        run₂,
        w₂,
        same₂,
        seen₂
            ∙ ap (λ x. written_view page x b (view p.pool used' free')) frame
            ∙ ap (λ x. written_view page f b x) seen,
      )

  module _ (max j : ℕ) (bound : e.hdr.max_num_records ≡ pos max) (inside : j < max)
      (fits : Fits f.fpage max)
      (not_past : is_past e.hdr (record { pagenum = pos q; recnum = pos j }) ≡ false) where
    abbrev r : RecId
    r = record { pagenum = pos q; recnum = pos j }

    delete_run :
        hf_delete_rec s (pos i) r
        ≡ (get_this_page s (pos n) (pos k) >>= delete_in (pos i) e (pos k) r)
    unfolding hf_delete_rec
    delete_run = ground (arith, u.in_table, u.at, u.valid, u.below)

    -- The bytes of the page without the record.
    abbrev pub vacated : Buf
    vacated = marked f.fpage max j inside fits true

    hf_delete_rec-there :
        (text : Name)
        → record_at s.blocks f.fpage (pos max) (pos j) ≡ ok (some text)
        → WriteEnds
            (hf_delete_rec s (pos i) r)
            (λ s'. (s', hfe_ok))
            s
            i
            (uncount_record e)
            s.blocks
            (written_view page f vacated v)
    unfolding delete_in
    hf_delete_rec-there text there =
        let (p, used', free', a, run, held, frame, same, seen) = gotten in
        let (vacant, _) = record_at-some s.blocks f.fpage (pos max) (pos j) text [] there in
        let vacant' : is_vacant (p.pool.frame a).fpage (pos j) ≡ ok false = rw frame vacant in
        let marks : set_vacant (p.pool.frame a).fpage (pos j) true ≡ ok vacated =
          rw frame (set_vacant_run f.fpage max j inside fits true) in
        let (p', used₂, run₂, w₂, same₂, seen₂) =
          written p used' free' a held frame same seen vacated in
        (
          p',
          used₂,
          free',
          delete_run ∙ ground (arith, run, vacant', marks, u.below, run₂),
          w₂,
          same₂ ∙ same,
          seen₂,
        )

    hf_delete_rec-absent :
        record_at s.blocks f.fpage (pos max) (pos j) ≡ ok none
        → ReadEnds (hf_delete_rec s (pos i) r) (λ s'. (s', hfe_invalidrecord)) s v
    unfolding delete_in
    hf_delete_rec-absent there =
        let (p, used', free', a, run, held, frame, same, seen) = gotten in
        let vacant : is_vacant (p.pool.frame a).fpage (pos j) ≡ ok true =
          rw frame (record_at-none s.blocks f.fpage (pos max) (pos j) there) in
        (p, used', free', delete_run ∙ ground (arith, run, vacant), held.pf, same, seen)

    -- What a run of HF_DeleteRec does where the page holds a record at the place, or none.
    abbrev pub Deletes : Option Name → Type 0
    Deletes none = ReadEnds (hf_delete_rec s (pos i) r) (λ s'. (s', hfe_invalidrecord)) s v
    Deletes (some text) =
        WriteEnds (hf_delete_rec s (pos i) r) (λ s'. (s', hfe_ok)) s i (uncount_record e) s.blocks
          (written_view page f vacated v)
        × (record_at s.blocks vacated (pos max) (pos j) ≡ ok none)
        × ((k : ℕ)
            → j ≢ k
            → record_at s.blocks vacated (pos max) (pos k)
              ≡ record_at s.blocks f.fpage (pos max) (pos k))

    -- On a well-formed state, for an open file of HF over an open file of PF, for a record's place
    -- within the file's pages and the records of a page that fit into its bytes, whose page the
    -- page map gives and PF has below page 524287, provided that a page which must give way to it
    -- is not the head of the LRU list and that the specification of BF_GetBuf gives a pinned frame:
    -- if the frame holds a record at the place, HF_DeleteRec returns HFE_OK and counts one record
    -- less, and the page, unpinned and dirty in front of the pool, has no record at the place and
    -- the old ones at all others; if it holds none, HF_DeleteRec returns HFE_INVALIDRECORD and
    -- leaves the page pinned.
    pub hf_delete_rec-Deletes :
        (found : Option Name)
        → record_at s.blocks f.fpage (pos max) (pos j) ≡ ok found
        → Deletes found
    hf_delete_rec-Deletes none there = hf_delete_rec-absent there
    hf_delete_rec-Deletes (some text) there = (
      hf_delete_rec-there text there,
      record_at-vacated f.fpage max j inside fits s.blocks,
      λ k ne. record_at-marked_ne f.fpage max j inside fits true s.blocks k ne,
    )
