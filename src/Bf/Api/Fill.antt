-- ===== src/Bf/Api/Fill.antt =====
-- A frame at hand becomes a page of the pool: the last lines of BF_GetBuf and BF_AllocBuf of bf/bf.c.
use adb_minirel.Prelude.{◌≡◌, refl, true, List, ◌∷◌, arith, mem, ◌∙◌, ap}
use mathlib.Core.Path.{fun_ext}
use adb_minirel.Prelude.Result.{Result, ok}
use adb_minirel.Memory.{Ptr, null, Links, update, write_next, write_prev}
use adb_minirel.Memory.TwoLists.{reset-TwoLists}
use adb_minirel.Unix.{Unix, Reading, read_error, read_nothing, read_page, pread, read_at, Buf}
use adb_minirel.Bf.{HashTable, Frame, Pool, Answer, page, failed, BfReq, bfe_incompleteread}
use adb_minirel.Bf.Hash.{ht_find}
use adb_minirel.Bf.Api.{
  set_frame, initialize_bpage_no_read, initialize_bpage, install, read_in, set_up, fill, is_error,
}
use adb_minirel.Bf.Api.Install.{overwrite-Holds, install-IsPool, installed}
use adb_minirel.Bf.Api.Spec.{
  taken, set_up_frame, Got, got, refused, get_into, alloc_into, filled, put_front,
}
use adb_minirel.Bf.Api.View.{
  IsPool, HasPlace, Holds, find_page, View, view, map-update_absent, block_of,
}

-- The page that a call returned holds the frame of the specification; a refusal is the same code.
abbrev pub Answers : Pool → List Ptr → Answer → Got → Type 0
Answers p used (page a) (got f) = (mem a used ≡ true) × (p.frame a ≡ f)
Answers p used (failed e) (refused e') = e ≡ e'
Answers p used _ _ = ⊥

-- A run that ends in a well-formed pool, whose view and answer are the given ones.
abbrev pub Refines : Result (Pool × Answer) → View × Got → Type 0
Refines r s =
    (p' : Pool) × (used' free' : List Ptr) × (answer : Answer) × (r ≡ ok (p', answer))
    × IsPool p' used' free'
    × (view p' used' free' ≡ s.0)
    × Answers p' used' answer s.1

module _ (bq : BfReq) (i : HasPlace bq.fd bq.pagenum) (p : Pool) (used free : List Ptr) (a : Ptr)
    (w : Holds p used free a) (absent : find_page p.frame bq.fd bq.pagenum used ≡ null) where
  abbrev cleared : Links
  cleared = write_prev (write_next p.links a null) a null

  -- The pool with the frame overwritten by `f` and the system by `u`.
  abbrev with_frame : Frame → Unix → Pool
  with_frame f u = record (set_frame p a f) { links = cleared; unix = u }

  with_frame-Holds : (f : Frame) (u : Unix) → Holds (with_frame f u) used free a
  with_frame-Holds f u =
      overwrite-Holds p used free a w f cleared u
        (reset-TwoLists p.links used free p.lru_head p.free_list_head w.pool.lists a w.detached)
        (record {
          live = w.detached.live;
          not_null = w.detached.not_null;
          not_used = w.detached.not_used;
          not_free = w.detached.not_free;
        })

  view-with_frame :
      (f : Frame) (u : Unix)
      → view (with_frame f u) used free ≡ record (view p used free) { unix = u }
  view-with_frame f u = ground (
    arith,
    map-update_absent p.frame a f used w.detached.not_used,
    map-update_absent p.frame a f free w.detached.not_free,
  )

  initialize_run :
      initialize_bpage_no_read p bq a ≡ ok (with_frame (set_up_frame bq (p.frame a)) p.unix)
  unfolding initialize_bpage_no_read
  initialize_run = let live = w.detached.live in let n = w.detached.not_null in ground arith

  view-installed :
      (f : Frame) (u : Unix) (t : HashTable)
      → view (installed (with_frame f u) used free a (with_frame-Holds f u) t) (a ∷ used) free
        ≡ (put_front f (record (view p used free) { unix = u })).0
  view-installed f u t = ground (
    arith,
    map-update_absent p.frame a f used w.detached.not_used,
    map-update_absent p.frame a f free w.detached.not_free,
  )

  -- The frame set up for the page goes into the pool.
  install_run :
      (f : Frame) (u : Unix)
      → f.fd ≡ bq.fd
      → f.pagenum ≡ bq.pagenum
      → (p' : Pool) × (install (with_frame f u) a ≡ ok p')
        × IsPool p' (a ∷ used) free
        × (view p' (a ∷ used) free ≡ (put_front f (record (view p used free) { unix = u })).0)
        × (p'.frame a ≡ f)
  install_run f u e_fd e_num =
      let q : Pool = with_frame f u in
      let here : update p.frame a f a ≡ f = ground arith in
      let place : HasPlace (q.frame a).fd (q.frame a).pagenum = rw (here, e_fd, e_num) i in
      let missing : ht_find q.hash_table (q.frame a).fd (q.frame a).pagenum ≡ ok null =
        rw (here, e_fd, e_num) (w.pool.found bq.fd bq.pagenum i ∙ ap ok absent) in
      let (t, run, pool) = install-IsPool q used free a (with_frame-Holds f u) place missing in
      (installed q used free a (with_frame-Holds f u) t, run, pool, view-installed f u t, here)

  abbrev reading : Unix × Reading
  reading = read_at p.unix bq.unixfd (block_of bq.pagenum)

  abbrev blank : Frame
  blank = set_up_frame bq (p.frame a)

  initialize_bpage_run :
      (u : Unix) (r : Reading)
      → reading ≡ (u, r)
      → initialize_bpage p bq a ≡ ok (fill (with_frame blank u) a r, is_error r)
  unfolding initialize_bpage pread
  initialize_bpage_run u r e = ground (arith, initialize_run, i.located)

  fill-with_frame :
      (u : Unix) (b : Buf)
      → fill (with_frame blank u) a (read_page b) ≡ with_frame (record blank { fpage = b }) u
  fill-with_frame u b =
      let twice : update (update p.frame a blank) a
            (record (update p.frame a blank a) { fpage = b })
          ≡ update p.frame a (record blank { fpage = b }) =
        fun_ext λ c. ground arith in
      ap (λ (frame : Ptr → Frame). record p { frame = frame; links = cleared; unix = u }) twice

  reads :
      (u : Unix) (r : Reading)
      → reading ≡ (u, r)
      → Refines (read_in bq (p, page a)) (filled blank (record (view p used free) { unix = u }) r)
  unfolding read_in
  reads u read_error e = (
    with_frame blank u,
    used,
    free,
    failed bfe_incompleteread,
    ground (arith, initialize_bpage_run u read_error e),
    (with_frame-Holds blank u).pool,
    view-with_frame blank u,
    refl,
  )
  reads u read_nothing e =
      let (p', run, pool, seen, here) = install_run blank u refl refl in
      (
        p',
        a ∷ used,
        free,
        page a,
        ground (arith, initialize_bpage_run u read_nothing e, run),
        pool,
        seen,
        (ground arith, here),
      )
  reads u (read_page b) e =
      let (p', run, pool, seen, here) = install_run (record blank { fpage = b }) u refl refl in
      (
        p',
        a ∷ used,
        free,
        page a,
        ground (arith, initialize_bpage_run u (read_page b) e, fill-with_frame u b, run),
        pool,
        seen,
        (ground arith, here),
      )

  -- BF_GetBuf with a frame at hand reads the page, or keeps the code of the failed read.
  pub read_in-get_into :
      Refines (read_in bq (p, page a)) (get_into bq (taken (p.frame a) (view p used free)))
  read_in-get_into = reads reading.0 reading.1 refl

  -- BF_AllocBuf with a frame at hand puts it in as it is.
  pub set_up-alloc_into :
      Refines (set_up bq (p, page a)) (alloc_into bq (taken (p.frame a) (view p used free)))
  unfolding set_up
  set_up-alloc_into =
      let (p', run, pool, seen, here) =
        install_run (set_up_frame bq (p.frame a)) p.unix refl refl in
      (
        p',
        a ∷ used,
        free,
        page a,
        ground (arith, initialize_run, run),
        pool,
        seen,
        (ground arith, here),
      )
