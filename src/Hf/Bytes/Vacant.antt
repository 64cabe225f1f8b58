-- ===== src/Hf/Bytes/Vacant.antt =====
-- The place that HF_InsertRec of hf/hf.c finds in the bit map of a page.
use adb_minirel.Prelude.{
  ℕ, zero, suc, ◌+◌, ◌≤◌, ◌<◌, ◌≡◌, inl, inr, refl, Bool, true, false, Option, some, arith, ◌==◌,
  ==_iff, Bool-cases, if◌then◌else◌, sym, ◌∙◌, ap,
}
use adb_minirel.Prelude.Int.{pos}
use adb_minirel.Prelude.Result.{Result, ok, fault, ◌>>=◌}
use adb_minirel.Unix.{Buf}
use adb_minirel.Hf.Bytes.{is_vacant, first_vacant}

-- The place `j` is the first vacant one from `i` on, and stands before `last`.
abbrev pub IsFirst : Buf → (i last j : ℕ) → Type 0
IsFirst b i last j =
    (i ≤ j)
    × (j < last)
    × (is_vacant b (pos j) ≡ ok true)
    × ((k : ℕ) → i ≤ k → k < j → is_vacant b (pos k) ≡ ok false)

IsFirst-step :
    (n i : ℕ) (b : Buf) (j : ℕ) (v : Result Bool) (rest : Result (Option ℕ))
    → (rest ≡ ok (some j) → IsFirst b (suc i) (suc i + n) j)
    → is_vacant b (pos i) ≡ v
    → (v >>= λ vacant. if vacant then ok (some i) else rest) ≡ ok (some j)
    → IsFirst b i (i + suc n) j
IsFirst-step n i b j (fault c) rest later is e = absurd (let z = e in cc)
IsFirst-step n i b j (ok true) rest later is e =
    let at : i ≡ j = ground arith in
    (
      omega (arith, at),
      omega (arith, at),
      ap (λ x. is_vacant b (pos x)) (sym at) ∙ is,
      λ k low high. absurd (omega (arith, at)),
    )
IsFirst-step n i b j (ok false) rest later is e =
    let (low, high, vacant, before) = later e in
    (
      omega (arith, low),
      omega (arith, high),
      vacant,
      λ k k_low k_high. elim (Bool-cases (i == k)) [
        | inl same ↦ ap (λ x. is_vacant b (pos x)) (sym ((==_iff i k).0 same)) ∙ is
        | inr other ↦ before k (ground arith) k_high
      ],
    )

-- The place that HF_InsertRec finds is vacant, and no place before it is.
pub first_vacant-IsFirst :
    (n i : ℕ) (b : Buf) (j : ℕ) → first_vacant n i b ≡ ok (some j) → IsFirst b i (i + n) j
unfolding first_vacant
first_vacant-IsFirst zero i b j e = absurd (let z = e in cc)
first_vacant-IsFirst (suc n) i b j e =
    IsFirst-step n i b j (is_vacant b (pos i)) (first_vacant n (suc i) b)
      (first_vacant-IsFirst n (suc i) b j) refl e
