-- ===== src/Pf/Get.antt =====
-- PF_GetNextPage, PF_GetFirstPage and PF_GetThisPage of pf/pf.c against the pool's specification.
use adb_minirel.Prelude.{ℕ, zero, suc, ◌<◌, ◌≤◌, ◌≡◌, refl, true, List, arith, mem, ◌∙◌}
use adb_minirel.Prelude.Int.{ℤ, pos, negsuc, int_inc, int_dec, is_int}
use adb_minirel.Prelude.Result.{Result, ok}
use adb_minirel.Memory.{Ptr, null}
use adb_minirel.Bf.{BfReq, Pool, page, failed}
use adb_minirel.Bf.Api.{bf_get_buf}
use adb_minirel.Bf.Api.View.{View, view, find_page}
use adb_minirel.Bf.Api.Spec.{Got, got, refused, spec_get}
use adb_minirel.Bf.Api.Take.{IsSafe}
use adb_minirel.Bf.Api.Get.{bf_get_buf-spec_get}
use adb_minirel.Bf.Api.Fill.{Refines, Answers}
use adb_minirel.Pf.{
  pfe_invalidpage, pfe_eof, pfe_hdrread, FtabEle, Pf, PfAnswer, pf_page, pf_failed,
}
use adb_minirel.Pf.Pages.{request, get_page, pf_get_next_page, pf_get_this_page, this_answer}
use adb_minirel.Pf.State.{IsPf, IsOpen, HasPlace-pos}
use adb_minirel.Unix.{max_pages}

-- The page holds the frame of the specification; a refusal of the pool has PF's code.
abbrev pub PfAnswers : Pool → List Ptr → PfAnswer → Got → Type 0
PfAnswers p used (pf_page a) (got f) = (mem a used ≡ true) × (p.frame a ≡ f)
PfAnswers p used (pf_failed code) (refused e) = code ≡ pfe_hdrread
PfAnswers p used _ _ = ⊥

-- A run that ends in a well-formed state over the same table, with the given view and answer; what
-- it returns is `tag` of the state and the answer.
abbrev pub PfRefines : {A : Type 0} → Result A → (Pf → PfAnswer → A) → Pf → View × Got → Type 0
PfRefines r tag s v =
    (s' : Pf) × (used' free' : List Ptr) × (answer : PfAnswer) × (r ≡ ok (tag s' answer))
    × IsPf s' used' free'
    × (s'.file_table ≡ s.file_table)
    × (view s'.pool used' free' ≡ v.0)
    × PfAnswers s'.pool used' answer v.1

this_answer-PfAnswers :
    (p : Pool) (used : List Ptr) (answer : PfAnswer) (g : Got)
    → PfAnswers p used answer g
    → this_answer answer ≡ answer
this_answer-PfAnswers p used (pf_page a) g h = refl
this_answer-PfAnswers p used (pf_failed code) (refused e) h = rw h refl
this_answer-PfAnswers p used (pf_failed code) (got f) h = absurd h

pub int_inc-int_dec : (n : ℤ) → is_int n ≡ true → int_inc (int_dec n) ≡ n
int_inc-int_dec (pos zero) h = refl
int_inc-int_dec (pos (suc n)) h = ground arith
int_inc-int_dec (negsuc n) h = ground arith

module _ (s : Pf) (used free : List Ptr) (w : IsPf s used free) (n : ℕ) (e : FtabEle) (count : ℕ)
    (o : IsOpen s n e count) where
  next_run :
      (pagenum : ℤ) (k : ℕ)
      → int_inc pagenum ≡ pos k
      → pf_get_next_page s (pos n) pagenum ≡ get_page s (pos n) e (pos k)
  unfolding pf_get_next_page
  next_run pagenum k next = ground (arith, o.in_table, o.at, o.valid)

  -- On a well-formed state, for an open file with an entry and a page count, where the number after
  -- the given one is the file's page count or more, PF_GetNextPage stores that number, returns
  -- PFE_EOF and changes nothing else.
  pub pf_get_next_page-eof :
      (pagenum : ℤ) (k : ℕ)
      → int_inc pagenum ≡ pos k
      → count ≤ k
      → pf_get_next_page s (pos n) pagenum ≡ ok (s, pos k, pf_failed pfe_eof)
  unfolding get_page
  pf_get_next_page-eof pagenum k next past = next_run pagenum k next ∙ ground (arith, o.counted)

  module _ (k : ℕ) (h : k < count) (h' : k < max_pages)
      (safe : find_page s.pool.frame (pos n) (pos k) used ≡ null → IsSafe s.pool used free) where
    abbrev bq : BfReq
    bq = request e (pos n) (pos k)

    wrap :
        Refines (bf_get_buf s.pool bq) (spec_get bq (view s.pool used free))
        → PfRefines
            (get_page s (pos n) e (pos k))
            (λ s' answer. (s', pos k, answer))
            s
            (spec_get bq (view s.pool used free))
    unfolding get_page
    wrap (p', used', free', page a, run, pool, seen, answers) = (
      record s { pool = p' },
      used',
      free',
      pf_page a,
      ground (arith, o.counted, run),
      record { pool = pool; sized = w.sized },
      refl,
      seen,
      page_answers (spec_get bq (view s.pool used free)).1 answers,
    )
      where
        page_answers : (g : Got) → Answers p' used' (page a) g → PfAnswers p' used' (pf_page a) g
        page_answers (got f) m = m
        page_answers (refused c) m = m
    wrap (p', used', free', failed code, run, pool, seen, answers) = (
      record s { pool = p' },
      used',
      free',
      pf_failed pfe_hdrread,
      ground (arith, o.counted, run),
      record { pool = pool; sized = w.sized },
      refl,
      seen,
      failed_answers (spec_get bq (view s.pool used free)).1 answers,
    )
      where
        failed_answers :
            (g : Got)
            → Answers p' used' (failed code) g
            → PfAnswers p' used' (pf_failed pfe_hdrread) g
        failed_answers (got f) m = m
        failed_answers (refused c) m = refl

    -- On a well-formed state, for an open file with an entry and a page count, where the number
    -- after the given one is that of a page that the file has, provided that a page which must give
    -- way to it is not the head of the LRU list, PF_GetNextPage ends without undefined behaviour,
    -- leaves a well-formed state over the same file table, stores the next number, and does what
    -- spec_get says of the pool's view: the page that it returns holds the frame of the
    -- specification, and a refusal of the pool becomes PFE_HDRREAD.
    pub pf_get_next_page-spec_get :
        (pagenum : ℤ)
        → int_inc pagenum ≡ pos k
        → PfRefines
            (pf_get_next_page s (pos n) pagenum)
            (λ s' answer. (s', pos k, answer))
            s
            (spec_get bq (view s.pool used free))
    pf_get_next_page-spec_get pagenum next = rw (next_run pagenum k next) (
        wrap (bf_get_buf-spec_get s.pool used free w.pool bq (HasPlace-pos n k o.in_table h') safe))

    -- On a well-formed state, for an open file with an entry and a page count, for a page below
    -- 524287 that the file has, provided that a page which must give way to it is not the head of
    -- the LRU list, PF_GetThisPage ends without undefined behaviour, leaves a well-formed state
    -- over the same file table, and does what spec_get says of the pool's view: the page that it
    -- returns holds the frame of the specification, and a refusal of the pool becomes PFE_HDRREAD.
    pub pf_get_this_page-spec_get :
        PfRefines
          (pf_get_this_page s (pos n) (pos k))
          (λ s' answer. (s', answer))
          s
          (spec_get bq (view s.pool used free))
    unfolding pf_get_this_page
    pf_get_this_page-spec_get =
        let (s', used', free', answer, run, w', same, seen, answers) =
          pf_get_next_page-spec_get (int_dec (pos k)) (int_inc-int_dec (pos k) (ground arith)) in
        (
          s',
          used',
          free',
          answer,
          rw
              (
                run,
                this_answer-PfAnswers s'.pool used' answer (spec_get bq (view s.pool used free)).1
                    answers,
              )
              refl,
          w',
          same,
          seen,
          answers,
        )

  -- A page that the file does not have.
  pub pf_get_this_page-invalid :
      (k : ℕ)
      → count ≤ k
      → k < max_pages
      → pf_get_this_page s (pos n) (pos k) ≡ ok (s, pf_failed pfe_invalidpage)
  unfolding pf_get_this_page
  pf_get_this_page-invalid k past small =
      rw (pf_get_next_page-eof (int_dec (pos k)) k (int_inc-int_dec (pos k) (ground arith)) past)
        refl
