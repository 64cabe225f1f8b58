-- ===== src/Pf/Alloc.antt =====
-- PF_AllocPage of pf/pf.c: a new page at the end of the file.
use adb_minirel.Prelude.{
  ℕ, ◌<◌, ◌≡◌, refl, ◌⊎◌, inl, inr, true, List, ◌∷◌, arith, ◌∙◌, ap, set, length-set, Option-cases,
}
use adb_minirel.Prelude.Int.{ℤ, pos, int_inc, eq_ℤ_refl}
use adb_minirel.Prelude.Result.{Result, ok, ◌>>=◌}
use adb_minirel.Memory.{Ptr, null}
use adb_minirel.Bf.{BfReq, BfCode, bfe_ok, bfe_pageinbuf, Frame, Pool, page, failed}
use adb_minirel.Bf.Api.{bf_alloc_buf, bf_touch_buf}
use adb_minirel.Bf.Api.View.{IsPool, HasPlace, View, view, find_page, find_frame}
use adb_minirel.Bf.Api.Spec.{
  Got, got, refused, Taking, taken, no_frame, spec_alloc, spec_touch, spec_take, set_up_frame,
  alloc_into,
}
use adb_minirel.Bf.Api.Take.{IsSafe}
use adb_minirel.Bf.Api.Touch.{bf_touch_buf-spec_touch}
use adb_minirel.Bf.Api.Get.{bf_alloc_buf-spec_alloc}
use adb_minirel.Bf.Api.Fill.{Refines, Answers}
use adb_minirel.Pf.{pfe_hdrwrite, FtabEle, Pf, PfAnswer, pf_page, pf_failed}
use adb_minirel.Pf.Pages.{request, touch_new, count_page, pf_alloc_page}
use adb_minirel.Pf.State.{IsPf, IsOpen, HasPlace-pos}
use adb_minirel.Unix.{max_pages}

-- A new page has been set up in front of the view, and the code says so, or the pool refused it.
spec_alloc-cases :
    (bq : BfReq) (v : View)
    → ((f : Frame) × (rest : List Frame) × ((spec_alloc bq v).0.resident ≡ set_up_frame bq f ∷ rest)
        × ((spec_alloc bq v).1 ≡ got (set_up_frame bq f)))
      ⊎ ((e : BfCode) × ((spec_alloc bq v).1 ≡ refused e))
unfolding spec_alloc
spec_alloc-cases bq v = elim (Option-cases (find_frame bq.fd bq.pagenum v.resident)) [
  | inl absent ↦ rw (spec_alloc, absent) (into (spec_take v))
  | inr (f, there) ↦ rw (spec_alloc, there) (inr (bfe_pageinbuf, refl))
]
  where
    into :
        (t : Taking)
        → ((f : Frame) × (rest : List Frame) × ((alloc_into bq t).0.resident
              ≡ set_up_frame bq f ∷ rest)
            × ((alloc_into bq t).1 ≡ got (set_up_frame bq f)))
          ⊎ ((e : BfCode) × ((alloc_into bq t).1 ≡ refused e))
    into (taken f u) = inl (f, u.resident, refl, refl)
    into (no_frame e u) = inr (e, refl)

-- The frame in front is pinned and has the key, so that BF_TouchBuf makes it dirty where it is.
abbrev pub new_frame : BfReq → Frame → Frame
new_frame bq f = record (set_up_frame bq f) { dirty = true }

spec_touch-front :
    (bq : BfReq) (f : Frame) (rest : List Frame) (v : View)
    → v.resident ≡ set_up_frame bq f ∷ rest
    → spec_touch bq v ≡ (record v { resident = new_frame bq f ∷ rest }, bfe_ok)
unfolding spec_touch
spec_touch-front bq f rest v e = ground (arith, eq_ℤ_refl bq.fd, eq_ℤ_refl bq.pagenum)

failed-not_got :
    (p : Pool) (used : List Ptr) (e : BfCode) (f : Frame) (g : Got)
    → Answers p used (failed e) g
    → g ≡ got f
    → ⊥
failed-not_got p used e f (got f') answers same = answers
failed-not_got p used e f (refused e') answers same = cc

page-not_refused :
    (p : Pool) (used : List Ptr) (a : Ptr) (e : BfCode) (g : Got)
    → Answers p used (page a) g
    → g ≡ refused e
    → ⊥
page-not_refused p used a e (got f) answers same = cc
page-not_refused p used a e (refused e') answers same = answers

-- The entry of the file with one page more.
abbrev pub counted_entry : FtabEle → FtabEle
counted_entry e = record e { numpages = int_inc e.numpages; hdrchanged = true }

module _ (s : Pf) (used free : List Ptr) (w : IsPf s used free) (n : ℕ) (e : FtabEle) (count : ℕ)
    (o : IsOpen s n e count) where
  abbrev bq : BfReq
  bq = request e (pos n) e.numpages

  abbrev v : View
  v = view s.pool used free

  -- The page is there, dirty and pinned once in front of the view, and the file's entry counts it.
  abbrev pub Grows : Result (Pf × ℤ × PfAnswer) → Type 0
  Grows r =
      (s' : Pf) × (used' free' : List Ptr) × (a : Ptr) × (f : Frame) × (rest : List Frame) × (r
        ≡ ok (s', pos count, pf_page a))
      × IsPf s' used' free'
      × (s'.file_table ≡ set s.file_table n (counted_entry e))
      × ((spec_alloc bq v).0.resident ≡ set_up_frame bq f ∷ rest)
      × (view s'.pool used' free' ≡ record (spec_alloc bq v).0 { resident = new_frame bq f ∷ rest })

  -- The pool had no frame for the page, and the file is as it was.
  abbrev pub Stays : ℤ → Result (Pf × ℤ × PfAnswer) → Type 0
  Stays pagenum r =
      (s' : Pf) × (used' free' : List Ptr) × (code : BfCode) × (r
        ≡ ok (s', pagenum, pf_failed pfe_hdrwrite))
      × IsPf s' used' free'
      × (s'.file_table ≡ s.file_table)
      × ((spec_alloc bq v).1 ≡ refused code)
      × (view s'.pool used' free' ≡ (spec_alloc bq v).0)

  alloc_run :
      (pagenum : ℤ)
      → pf_alloc_page s (pos n) pagenum ≡ (bf_alloc_buf s.pool bq >>= touch_new s (pos n) pagenum e)
  unfolding pf_alloc_page
  alloc_run pagenum = ground (arith, o.in_table, o.at, o.valid)

  touched :
      (pagenum : ℤ) (p : Pool) (used' free' : List Ptr) (a : Ptr) (f : Frame) (rest : List Frame)
      → HasPlace bq.fd bq.pagenum
      → IsPool p used' free'
      → view p used' free' ≡ (spec_alloc bq v).0
      → (spec_alloc bq v).0.resident ≡ set_up_frame bq f ∷ rest
      → Grows (touch_new s (pos n) pagenum e (p, page a))
  unfolding touch_new
  touched pagenum p used' free' a f rest i w' seen front =
      let (p', used₂, run, pool, seen₂) = bf_touch_buf-spec_touch p used' free' w' bq i in
      let spec : spec_touch bq (view p used' free')
          ≡ (record (spec_alloc bq v).0 { resident = new_frame bq f ∷ rest }, bfe_ok) =
        rw seen (spec_touch-front bq f rest (spec_alloc bq v).0 front) in
      let good : bf_touch_buf p bq ≡ ok (p', bfe_ok) = run ∙ ap (λ q. ok (p', q.1)) spec in
      (
        count_page (record s { pool = p' }) (pos n) e,
        used₂,
        free',
        a,
        f,
        rest,
        rw (good, o.counted) refl,
        record { pool = pool; sized = length-set s.file_table n (counted_entry e) ∙ w.sized },
        refl,
        front,
        seen₂ ∙ ap (λ q. q.0) spec,
      )

  touch_new-Stays :
      (pagenum : ℤ) (p' : Pool) (used' free' : List Ptr) (c' c : BfCode)
      → IsPool p' used' free'
      → view p' used' free' ≡ (spec_alloc bq v).0
      → (spec_alloc bq v).1 ≡ refused c
      → Stays pagenum (touch_new s (pos n) pagenum e (p', failed c'))
  unfolding touch_new
  touch_new-Stays pagenum p' used' free' c' c pool seen g = (
    record s { pool = p' },
    used',
    free',
    c,
    refl,
    record { pool = pool; sized = w.sized },
    refl,
    g,
    seen,
  )

  -- On a well-formed state, for an open file with an entry and a page count, with room for one more
  -- page, whose offset is an int, provided that a page which must give way is not the head of the
  -- LRU list, PF_AllocPage ends without undefined behaviour and leaves a well-formed state: either
  -- it returns a page and the old page count as its number, the new page stands dirty and pinned
  -- once in front of the pool that BF_AllocBuf's specification gives, and the file's entry counts
  -- one page more and its header as changed; or the pool refused the page, the code is
  -- PFE_HDRWRITE, and the file table and the number are as they were.
  pub pf_alloc_page-Grows :
      (pagenum : ℤ)
      → count < max_pages
      → (find_page s.pool.frame (pos n) (pos count) used ≡ null → IsSafe s.pool used free)
      → Grows (pf_alloc_page s (pos n) pagenum) ⊎ Stays pagenum (pf_alloc_page s (pos n) pagenum)
  pf_alloc_page-Grows pagenum h safe =
      let i : HasPlace (pos n) e.numpages = rw o.counted (HasPlace-pos n count o.in_table h) in
      let refined =
        bf_alloc_buf-spec_alloc s.pool used free w.pool bq i
          (λ absent. safe (rw (← o.counted) absent)) in
      rw (alloc_run pagenum) (wrap pagenum i refined (spec_alloc-cases bq v))
    where
      wrap :
          (pagenum : ℤ)
          → HasPlace bq.fd bq.pagenum
          → Refines (bf_alloc_buf s.pool bq) (spec_alloc bq v)
          → ((f : Frame) × (rest : List Frame) × ((spec_alloc bq v).0.resident
                ≡ set_up_frame bq f ∷ rest)
              × ((spec_alloc bq v).1 ≡ got (set_up_frame bq f)))
            ⊎ ((c : BfCode) × ((spec_alloc bq v).1 ≡ refused c))
          → Grows (bf_alloc_buf s.pool bq >>= touch_new s (pos n) pagenum e)
            ⊎ Stays pagenum (bf_alloc_buf s.pool bq >>= touch_new s (pos n) pagenum e)
      wrap pagenum i (p', used', free', page a, run, pool, seen, answers)
            (inl (f, rest, front, g)) =
          inl (rw run (touched pagenum p' used' free' a f rest i pool seen front))
      wrap pagenum i (p', used', free', failed c, run, pool, seen, answers)
            (inl (f, rest, front, g)) =
          absurd (failed-not_got p' used' c (set_up_frame bq f) (spec_alloc bq v).1 answers g)
      wrap pagenum i (p', used', free', page a, run, pool, seen, answers) (inr (c, g)) =
          absurd (page-not_refused p' used' a c (spec_alloc bq v).1 answers g)
      wrap pagenum i (p', used', free', failed c', run, pool, seen, answers) (inr (c, g)) =
          inr (rw run (touch_new-Stays pagenum p' used' free' c' c pool seen g))
