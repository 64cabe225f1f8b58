-- ===== src/Hf/Reading.antt =====
-- HF_GetThisRec of hf/hf.c against what it promises of the pool's view and of the page's records.
use adb_minirel.Prelude.{
  ℕ, ◌<◌, ◌≡◌, true, false, List, Option, none, some, arith, get_elem?, ◌∙◌, ap,
}
use adb_minirel.Prelude.Int.{pos}
use adb_minirel.Prelude.Result.{Result, ok, ◌>>=◌}
use adb_minirel.Memory.{Ptr, null}
use adb_minirel.Unix.{Buf, Name}
use adb_minirel.Bf.{BfReq, Frame, is_pinned}
use adb_minirel.Bf.Api.View.{View, view, find_page}
use adb_minirel.Bf.Api.Spec.{got, spec_get}
use adb_minirel.Bf.Api.Take.{IsSafe}
use adb_minirel.Pf.{pfe_ok, FtabEle, Pf, pf_page}
use adb_minirel.Pf.Pages.{request, pf_get_this_page, pf_unpin_page}
use adb_minirel.Pf.State.{IsPf, IsOpen}
use adb_minirel.Unix.{max_pages}
use adb_minirel.Pf.Get.{pf_get_this_page-spec_get}
use adb_minirel.Pf.Unpin.{Ends}
use adb_minirel.Hf.{HfCode, hfe_ok, hfe_invalidrecord, RecId, HfEntry, Hf, with_pf, get_this_page}
use adb_minirel.Hf.Bytes.{copy_to}
use adb_minirel.Hf.Bytes.Read.{record_at, record_at-some, record_at-none}
use adb_minirel.Hf.Records.{is_past, read_in, hf_get_this_rec}
use adb_minirel.Hf.Unpinning.{unpinned_view, clean-Ends}
use adb_minirel.Hf.State.{Held, refined-Held, IsHfOpen, IsOpen-kept}

-- What the caller's buffer holds, what the code is, and what the pool's view is after a page with
-- the frame `f` was fetched in the view `v` and a record was found there or not. Where none was
-- found the page stays pinned.
abbrev pub read_into : Option Name → Buf → Result Buf
read_into none rec = ok rec
read_into (some text) rec = copy_to text rec

abbrev pub read_code : Option Name → HfCode
read_code none = hfe_invalidrecord
read_code (some text) = hfe_ok

abbrev pub read_view : Option Name → BfReq → Frame → View → View
read_view none bq f v = v
read_view (some text) bq f v = unpinned_view bq f v

-- A run that ends with a buffer and a code, in a state that differs from `s` in the pool alone, which
-- is well formed and has the given view.
abbrev pub ReadEnds : {A : Type 0} → Result A → (Hf → A) → Hf → View → Type 0
ReadEnds r tag s v =
    (p : Pf) × (used' free' : List Ptr) × (r ≡ ok (tag (with_pf s p)))
    × IsPf p used' free'
    × (p.file_table ≡ s.pf.file_table)
    × (view p.pool used' free' ≡ v)

module _ (s : Hf) (used free : List Ptr) (w : IsPf s.pf used free) (n : ℕ) (pe : FtabEle)
    (count : ℕ) (o : IsOpen s.pf n pe count) (i : ℕ) (e : HfEntry) (u : IsHfOpen s i e n) (q k : ℕ)
    (mapped : get_elem? e.page_map q ≡ some (pos k)) (h : k < count) (h' : k < max_pages)
    (safe : find_page s.pf.pool.frame (pos n) (pos k) used ≡ null → IsSafe s.pf.pool used free)
    (v : View) (f : Frame)
    (gets : spec_get (request pe (pos n) (pos k)) (view s.pf.pool used free) ≡ (v, got f))
    (pinned : is_pinned f.count ≡ true) where
  abbrev bq : BfReq
  bq = request pe (pos n) (pos k)

  gotten :
      (p : Pf) × (used' free' : List Ptr) × (a : Ptr) × (pf_get_this_page s.pf (pos n) (pos k)
        ≡ ok (p, pf_page a))
      × Held p used' free' bq a
      × (p.pool.frame a ≡ f)
      × (p.file_table ≡ s.pf.file_table)
      × (view p.pool used' free' ≡ v)
  gotten =
      refined-Held (pf_get_this_page s.pf (pos n) (pos k)) s.pf bq (view s.pf.pool used free) v f
        (pf_get_this_page-spec_get s.pf used free w n pe count o k h h' safe) gets

  module _ (j : ℕ) (inside : is_past e.hdr (record { pagenum = pos q; recnum = pos j }) ≡ false)
      (rec : Buf) where
    abbrev r : RecId
    r = record { pagenum = pos q; recnum = pos j }

    read_run :
        hf_get_this_rec s (pos i) r rec
        ≡ (get_this_page s (pos n) (pos k) >>= read_in e (pos k) r rec)
    unfolding hf_get_this_rec
    read_run = ground (arith, u.in_table, u.at, u.valid, u.below)

    -- The page is unpinned and keeps its place.
    unpin_run :
        (p : Pf) (used' free' : List Ptr) (a : Ptr)
        → Held p used' free' bq a
        → p.pool.frame a ≡ f
        → p.file_table ≡ s.pf.file_table
        → view p.pool used' free' ≡ v
        → Ends (pf_unpin_page p (pos n) (pos k) false) p free' (unpinned_view bq f v, pfe_ok)
    unpin_run p used' free' a held frame same seen =
        let (p', used₂, run, w₂, same₂, seen₂) =
          clean-Ends p used' free' n pe count (IsOpen-kept s.pf p n pe count o same) k h h' a held
            (rw frame pinned) in
        (
          p',
          used₂,
          run,
          w₂,
          same₂,
          seen₂
              ∙ ap (λ x. unpinned_view bq x (view p.pool used' free')) frame
              ∙ ap (λ x. unpinned_view bq f x) seen,
        )

    -- On a well-formed state, for an open file of HF over an open file of PF, for a record's place
    -- within the file's pages and the records of a page, whose page the page map gives and PF has
    -- below page 524287, provided that a page which must give way to it is not the head of the LRU
    -- list and that the specification of BF_GetBuf gives a pinned frame: if the frame holds a
    -- record at the place, HF_GetThisRec copies it into the caller's buffer (where it fits),
    -- returns HFE_OK and unpins the page; if it holds none, HF_GetThisRec returns
    -- HFE_INVALIDRECORD, leaves the buffer as it was, and leaves the page pinned. Nothing else of
    -- the state changes.
    pub hf_get_this_rec-record_at :
        (found : Option Name) (rec' : Buf)
        → record_at s.blocks f.fpage e.hdr.max_num_records (pos j) ≡ ok found
        → read_into found rec ≡ ok rec'
        → ReadEnds
            (hf_get_this_rec s (pos i) r rec)
            (λ s'. (s', rec', read_code found))
            s
            (read_view found bq f v)
    unfolding read_in
    hf_get_this_rec-record_at none rec' there copied =
        let (p, used', free', a, run, held, frame, same, seen) = gotten in
        let vacant = record_at-none s.blocks f.fpage e.hdr.max_num_records (pos j) there in
        (
          p,
          used',
          free',
          read_run ∙ ground (arith, run, frame, vacant, copied),
          held.pf,
          same,
          seen,
        )
    hf_get_this_rec-record_at (some text) rec' there copied =
        let (p, used', free', a, run, held, frame, same, seen) = gotten in
        let (vacant, copies) =
          record_at-some s.blocks f.fpage e.hdr.max_num_records (pos j) text rec there in
        let (p', used₂, run₂, w₂, same₂, seen₂) = unpin_run p used' free' a held frame same seen in
        (
          p',
          used₂,
          free',
          read_run ∙ ground (arith, run, frame, vacant, copies, copied, u.below, run₂),
          w₂,
          same₂ ∙ same,
          seen₂,
        )
