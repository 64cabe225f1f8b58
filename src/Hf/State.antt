-- ===== src/Hf/State.antt =====
-- The pages of an open file of hf/hf.c in the buffer pool: fetched, written and unpinned.
use adb_minirel.Prelude.{
  ℕ, ◌<◌, ◌≡◌, refl, inl, true, false, List, [], ◌∷◌, some, none, arith, mem, get_elem?, ◌∙◌, ap,
  sym, Option-cases, ==_refl, ==_iff, inr,
}
use mathlib.Core.Path.{fun_ext}
use adb_minirel.Prelude.Int.{ℤ, pos, eq_ℤ_iff, eq_ℤ_refl}
use adb_minirel.Prelude.Result.{Result, ok}
use adb_minirel.Memory.{Ptr, null, update}
use adb_minirel.Unix.{Buf, Reading, read_error, read_nothing, read_page, read_at}
use adb_minirel.Bf.{BfReq, Frame, Pool, is_pinned, short_dec}
use adb_minirel.Bf.Hash.Keys.{IsKeyed, Lacks}
use adb_minirel.Bf.Api.{set_frame}
use adb_minirel.Bf.Api.View.{
  View, view, as_entry, block_of, find_page, find_frame, is_page, replace_frame, remove_frame,
  Finds, find_page-Finds,
}
use adb_minirel.Bf.Api.Spec.{
  Got, got, refused, Taking, taken, no_frame, spec_get, spec_take, spec_touch, spec_unpin, get_into,
  filled, set_up_frame,
}
use adb_minirel.Bf.Api.Frames.{set_frame-IsPool, page-live}
use adb_minirel.Hf.{Hf, HfEntry, hf_ftab_size}
use adb_minirel.Pf.{pfe_ok, FtabEle, Pf, PfAnswer, pf_page, pf_failed}
use adb_minirel.Pf.State.{IsPf, IsOpen}
use adb_minirel.Pf.Get.{PfRefines, PfAnswers}
use adb_minirel.Pf.Unpin.{spec_unpin_page}

Lacks-mem :
    (frame : Ptr → Frame) (fd pagenum : ℤ) (xs : List Ptr) (a : Ptr)
    → Lacks (as_entry frame) fd pagenum xs
    → mem a xs ≡ true
    → is_page (frame a) fd pagenum ≡ false
Lacks-mem frame fd pagenum [] a k m = cc
Lacks-mem frame fd pagenum (x ∷ xs) a k m = ground (arith, Lacks-mem frame fd pagenum xs a k.1)

-- A page with the key is the page that is found.
pub find_page-keyed :
    (frame : Ptr → Frame) (fd pagenum : ℤ) (xs : List Ptr) (a : Ptr)
    → IsKeyed (as_entry frame) xs
    → mem a xs ≡ true
    → is_page (frame a) fd pagenum ≡ true
    → find_page frame fd pagenum xs ≡ a
find_page-keyed frame fd pagenum [] a k m hit = cc
find_page-keyed frame fd pagenum (x ∷ xs) a k m hit = ground (
  arith,
  find_page-keyed frame fd pagenum xs a k.1,
  Lacks-mem frame (frame x).fd (frame x).pagenum xs a k.0,
  eq_ℤ_iff (frame x).fd fd,
  eq_ℤ_iff (frame x).pagenum pagenum,
  eq_ℤ_iff (frame a).fd fd,
  eq_ℤ_iff (frame a).pagenum pagenum,
  eq_ℤ_refl fd,
  eq_ℤ_refl pagenum,
)

-- The page that is asked for stands in the pool at an address.
pub record Held (s : Pf) (used free : List Ptr) (bq : BfReq) (a : Ptr) : Type 0 where
  pub pf : IsPf s used free
  pub found : Finds s.pool.frame bq.fd bq.pagenum used a

pub keyed-Held :
    (s : Pf) (used free : List Ptr) (bq : BfReq) (a : Ptr)
    → IsPf s used free
    → mem a used ≡ true
    → is_page (s.pool.frame a) bq.fd bq.pagenum ≡ true
    → Held s used free bq a
keyed-Held s used free bq a w m hit =
    let same = find_page-keyed s.pool.frame bq.fd bq.pagenum used a w.pool.unique m hit in
    elim (find_page-Finds s.pool.frame bq.fd bq.pagenum used w.pool.distinct) [
      | inl (absent, _) ↦
          let live = page-live s.pool used free w.pool a m in
          absurd (let z : a ≡ null = sym same ∙ absent in ground arith)
      | inr there ↦ record { pf = w; found = rw same at there }
    ]

-- Does the specification return a frame for the page that was asked for?
pub find_frame-keyed :
    (fd pagenum : ℤ) (fs : List Frame) (f : Frame)
    → find_frame fd pagenum fs ≡ some f
    → is_page f fd pagenum ≡ true
find_frame-keyed fd pagenum [] f e = cc
find_frame-keyed fd pagenum (g ∷ gs) f e = ground (arith, find_frame-keyed fd pagenum gs f)

filled-keyed :
    (fd pagenum : ℤ) (g : Frame) (u : View) (r : Reading) (v' : View) (f : Frame)
    → is_page g fd pagenum ≡ true
    → filled g u r ≡ (v', got f)
    → is_page f fd pagenum ≡ true
filled-keyed fd pagenum g u read_error v' f k e = absurd (let z = ap (λ q. q.1) e in cc)
filled-keyed fd pagenum g u read_nothing v' f k e = ground arith
filled-keyed fd pagenum g u (read_page b) v' f k e = ground arith

get_into-keyed :
    (bq : BfReq) (t : Taking) (v' : View) (f : Frame)
    → get_into bq t ≡ (v', got f)
    → is_page f bq.fd bq.pagenum ≡ true
get_into-keyed bq (taken g u) v' f e =
    let (x, r) = read_at u.unix bq.unixfd (block_of bq.pagenum) in
    filled-keyed bq.fd bq.pagenum (set_up_frame bq g) (record u { unix = x }) r v' f
      (ground (arith, eq_ℤ_refl bq.fd, eq_ℤ_refl bq.pagenum)) e
get_into-keyed bq (no_frame c u) v' f e = absurd (let z = ap (λ q. q.1) e in cc)

pub spec_get-keyed :
    (bq : BfReq) (v v' : View) (f : Frame)
    → spec_get bq v ≡ (v', got f)
    → is_page f bq.fd bq.pagenum ≡ true
unfolding spec_get
spec_get-keyed bq v v' f e = elim (Option-cases (find_frame bq.fd bq.pagenum v.resident)) [
  | inl absent ↦ get_into-keyed bq (spec_take v) v' f (let k = e in ground (arith))
  | inr (g, there) ↦ let k = find_frame-keyed bq.fd bq.pagenum v.resident g there in ground arith
]

-- A page that the view has stands at an address.
pub found-Held :
    (s : Pf) (used free : List Ptr) (bq : BfReq) (f : Frame)
    → IsPf s used free
    → find_frame bq.fd bq.pagenum (view s.pool used free).resident ≡ some f
    → (a : Ptr) × Held s used free bq a × (s.pool.frame a ≡ f)
found-Held s used free bq f w there =
    let a = find_page s.pool.frame bq.fd bq.pagenum used in
    elim (find_page-Finds s.pool.frame bq.fd bq.pagenum used w.pool.distinct) [
      | inl (_, absent) ↦ absurd (let z : none ≡ some f = sym absent ∙ there in cc)
      | inr r ↦ (a, record { pf = w; found = r }, some_inj (sym r.found ∙ there))
    ]
  where
    some_inj : {x y : Frame} → some x ≡ some y → x ≡ y
    some_inj e = cc

pub find_frame-replace_frame :
    (fd pagenum : ℤ) (fs : List Frame) (f g : Frame)
    → find_frame fd pagenum fs ≡ some f
    → is_page g fd pagenum ≡ true
    → find_frame fd pagenum (replace_frame fd pagenum g fs) ≡ some g
find_frame-replace_frame fd pagenum [] f g e k = cc
find_frame-replace_frame fd pagenum (x ∷ xs) f g e k =
    ground (arith, find_frame-replace_frame fd pagenum xs f g)

-- PF_GetThisPage of a page that the specification gives a frame for.
pub refined-Held :
    (r : Result (Pf × PfAnswer)) (s : Pf) (bq : BfReq) (v v' : View) (f : Frame)
    → PfRefines r (λ s' answer. (s', answer)) s (spec_get bq v)
    → spec_get bq v ≡ (v', got f)
    → (s' : Pf) × (used' free' : List Ptr) × (a : Ptr) × (r ≡ ok (s', pf_page a))
      × Held s' used' free' bq a
      × (s'.pool.frame a ≡ f)
      × (s'.file_table ≡ s.file_table)
      × (view s'.pool used' free' ≡ v')
refined-Held r s bq v v' f (s', used', free', answer, run, w, same, seen, answers) e =
    let (a, is, m, frame) =
      page-got s'.pool used' answer (spec_get bq v).1 f answers (ap (λ q. q.1) e) in
    let hit : is_page (s'.pool.frame a) bq.fd bq.pagenum ≡ true =
      rw frame (spec_get-keyed bq v v' f e) in
    (
      s',
      used',
      free',
      a,
      run ∙ ap (λ x. ok (s', x)) is,
      keyed-Held s' used' free' bq a w m hit,
      frame,
      same,
      seen ∙ ap (λ q. q.0) e,
    )
  where
    page-got :
        (p : Pool) (used : List Ptr) (answer : PfAnswer) (g : Got) (f : Frame)
        → PfAnswers p used answer g
        → g ≡ got f
        → (a : Ptr) × (answer ≡ pf_page a) × (mem a used ≡ true) × (p.frame a ≡ f)
    page-got p used (pf_page a) (got f') f h e = (a, refl, h.0, h.1 ∙ ground arith)
    page-got p used (pf_page a) (refused c) f h e = absurd h
    page-got p used (pf_failed c) (got f') f h e = absurd h
    page-got p used (pf_failed c) (refused c') f h e = cc

-- A write of the bytes of a page that stands in the pool.
module _ (s : Pf) (used free : List Ptr) (bq : BfReq) (a : Ptr) (held : Held s used free bq a)
    (b : Buf) where
  abbrev pub filled_frame : Frame
  filled_frame = record (s.pool.frame a) { fpage = b }

  abbrev pub filled_pf : Pf
  filled_pf = record s { pool = set_frame s.pool a filled_frame }

  pub filled_pf-Held : Held filled_pf used free bq a
  filled_pf-Held =
      keyed-Held filled_pf used free bq a
        (record {
          pool = set_frame-IsPool s.pool used free held.pf.pool a filled_frame refl refl;
          sized = held.pf.sized;
        })
        held.found.listed (let k = held.found.keyed in ground (arith, ==_refl a))

-- A write of the bytes that are there changes nothing.
pub filled_pf-same :
    (s : Pf) (used free : List Ptr) (bq : BfReq) (a : Ptr) (held : Held s used free bq a)
    → filled_pf s used free bq a held (s.pool.frame a).fpage ≡ s
filled_pf-same s used free bq a held =
    let same : update s.pool.frame a (s.pool.frame a) ≡ s.pool.frame =
      fun_ext λ c. ground (arith, ==_iff c a) in
    ap (λ g. record s { pool = record s.pool { frame = g } }) same

-- The specification of PF_UnpinPage on a page that is pinned.
module _ (bq : BfReq) (v : View) (f : Frame)
    (there : find_frame bq.fd bq.pagenum v.resident ≡ some f)
    (pinned : is_pinned f.count ≡ true) where
  pub spec_unpin_page-clean : spec_unpin_page bq false v ≡ (
    record v {
      resident = replace_frame bq.fd bq.pagenum (record f { count = short_dec f.count }) v.resident;
    },
    pfe_ok,
  )
  unfolding spec_unpin
  spec_unpin_page-clean = ground arith

  pub spec_unpin_page-dirty : spec_unpin_page bq true v ≡ (
    record v {
      resident =
          record f { dirty = true; count = short_dec f.count }
          ∷ remove_frame bq.fd bq.pagenum v.resident;
    },
    pfe_ok,
  )
  unfolding spec_unpin spec_touch
  spec_unpin_page-dirty =
      let k = find_frame-keyed bq.fd bq.pagenum v.resident f there in ground arith

-- The entry `i` of HF's table is that of a file which PF has open as `n`.
pub record IsHfOpen (s : Hf) (i : ℕ) (e : HfEntry) (n : ℕ) : Type 0 where
  pub in_table : i < hf_ftab_size
  pub at : get_elem? s.file_table i ≡ some e
  pub valid : e.valid ≡ true
  pub below : e.pf_fd ≡ pos n

pub IsOpen-kept :
    (s s' : Pf) (n : ℕ) (e : FtabEle) (count : ℕ)
    → IsOpen s n e count
    → s'.file_table ≡ s.file_table
    → IsOpen s' n e count
IsOpen-kept s s' n e count o same = record {
  in_table = o.in_table;
  at = ap (λ t. get_elem? t n) same ∙ o.at;
  valid = o.valid;
  counted = o.counted;
}
