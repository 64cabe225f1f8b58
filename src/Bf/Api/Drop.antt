-- ===== src/Bf/Api/Drop.antt =====
-- BF_FlushBuf of bf/bf.c where it returns BFE_OK: what is left in the pool.
use adb_minirel.Prelude.{
  ◌≡◌, refl, inl, inr, true, false, List, [], ◌∷◌, ◌++◌, map, arith, if◌then◌else◌, Bool-cases, ◌∙◌,
  ap, sym,
}
use adb_minirel.Prelude.Int.{ℤ, eq_ℤ, eq_ℤ_iff}
use adb_minirel.Prelude.Result.{ok}
use adb_minirel.Memory.{Ptr}
use adb_minirel.Bf.{Frame, Pool, bfe_ok, is_pinned}
use adb_minirel.Bf.Api.{bf_flush_buf}
use adb_minirel.Bf.Api.Spec.{spec_write_back, spec_flush_loop, spec_flush}
use adb_minirel.Bf.Api.View.{IsPool, View, view, remove_frame}
use adb_minirel.Bf.Api.Flush.{bf_flush_buf-spec_flush}

-- The pages that belong to other files.
abbrev pub without_file : ℤ → List Frame → List Frame
without_file fd [] = []
without_file fd (f ∷ fs) = if eq_ℤ f.fd fd then without_file fd fs else f ∷ without_file fd fs

-- The frames that a loop passed over are of other files.
abbrev Others : ℤ → List Frame → Type 0
Others fd [] = Unit {0}
Others fd (f ∷ fs) = (eq_ℤ f.fd fd ≡ false) × Others fd fs

remove_frame-Others :
    (fd : ℤ) (f : Frame) (ys fs : List Frame)
    → Others fd ys
    → eq_ℤ f.fd fd ≡ true
    → remove_frame f.fd f.pagenum (ys ++ f ∷ fs) ≡ ys ++ fs
remove_frame-Others fd f [] fs o e =
    ground (arith, eq_ℤ_iff f.fd f.fd, eq_ℤ_iff f.pagenum f.pagenum)
remove_frame-Others fd f (y ∷ ys) fs o e =
    ground (arith, remove_frame-Others fd f ys fs, eq_ℤ_iff y.fd f.fd, eq_ℤ_iff f.fd fd)

Others-append :
    (fd : ℤ) (f : Frame) (ys : List Frame)
    → Others fd ys
    → eq_ℤ f.fd fd ≡ false
    → Others fd (ys ++ f ∷ [])
Others-append fd f [] o e = (e, tt)
Others-append fd f (y ∷ ys) o e = (o.0, Others-append fd f ys o.1 e)

append-cons : (f : Frame) (ys fs : List Frame) → (ys ++ f ∷ []) ++ fs ≡ ys ++ f ∷ fs
append-cons f [] fs = refl
append-cons f (y ∷ ys) fs = ap (λ zs. y ∷ zs) (append-cons f ys fs)

append-nil : (ys : List Frame) → ys ++ [] ≡ ys
append-nil [] = refl
append-nil (y ∷ ys) = ap (λ zs. y ∷ zs) (append-nil ys)

spec_flush_loop-without_file :
    (fd : ℤ) (fs ys : List Frame) (v : View)
    → v.resident ≡ ys ++ fs
    → Others fd ys
    → (spec_flush_loop fd fs v).1 ≡ bfe_ok
    → (spec_flush_loop fd fs v).0.resident ≡ ys ++ without_file fd fs
unfolding spec_flush_loop
spec_flush_loop-without_file fd [] ys v e o h = e
spec_flush_loop-without_file fd (f ∷ fs) ys v e o h = elim (Bool-cases (eq_ℤ f.fd fd)) [
  | inr other ↦
      let rest =
        spec_flush_loop-without_file fd fs (ys ++ f ∷ []) v (e ∙ sym (append-cons f ys fs))
          (Others-append fd f ys o other) in
      ground (arith, rest, append-cons f ys (without_file fd fs))
  | inl same ↦ elim (Bool-cases (is_pinned f.count)) [
    | inl pinned ↦ absurd (let k = h in ground arith)
    | inr unpinned ↦ elim (Bool-cases (spec_write_back f v.unix).1) [
      | inr bad ↦ absurd (let k = h in ground arith)
      | inl good ↦
          let freed : View = record {
            resident = remove_frame f.fd f.pagenum v.resident;
            spare = f ∷ v.spare;
            unix = (spec_write_back f v.unix).0;
          } in
          let gone : freed.resident ≡ ys ++ fs =
            ap (remove_frame f.fd f.pagenum) e ∙ remove_frame-Others fd f ys fs o same in
          let rest = spec_flush_loop-without_file fd fs ys freed gone o in ground (arith, rest)
    ]
  ]
]

pub flushed :
    (p : Pool) (used free : List Ptr) (fd : ℤ)
    → (spec_flush fd (view p used free)).1 ≡ bfe_ok
    → (spec_flush fd (view p used free)).0.resident ≡ without_file fd (map p.frame used)
unfolding spec_flush
flushed p used free fd code =
    spec_flush_loop-without_file fd (map p.frame used) [] (view p used free) refl tt code

-- If BF_FlushBuf of a file returns BFE_OK on a well-formed pool, the pool is well formed
-- afterwards, and its pages are those of the other files, unchanged and in the same order.
pub bf_flush_buf-without_file :
    (p : Pool) (used free : List Ptr) (fd : ℤ) (p' : Pool)
    → IsPool p used free
    → bf_flush_buf p fd ≡ ok (p', bfe_ok)
    → (used' free' : List Ptr) × IsPool p' used' free'
      × (map p'.frame used' ≡ without_file fd (map p.frame used))
bf_flush_buf-without_file p used free fd p' w run =
    let (q, used', free', run', pool, seen) = bf_flush_buf-spec_flush p used free w fd in
    let same : q ≡ p' = cc in
    let code : (spec_flush fd (view p used free)).1 ≡ bfe_ok = cc in
    rw (← same) (used', free', pool, ap (λ v. v.resident) seen ∙ flushed p used free fd code)
