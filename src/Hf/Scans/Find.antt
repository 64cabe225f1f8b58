-- ===== src/Hf/Scans/Find.antt =====
-- How HF_FindNextRec of hf/hf.c compares `int`s, which it turns into `float`s.
use adb_minirel.Prelude.{
  ℕ, suc, ◌+◌, ◌*◌, ◌≤◌, ◌<◌, ◌≡◌, refl, ◌-◌, some, Bool, ltb, leb, ◌==◌, not, true, arith,
  if◌then◌else◌, ==_refl, ◌∙◌, ap,
}
use adb_minirel.Prelude.Int.{ℤ, pos, negsuc, pos_part, neg_part, sub_ℕ}
use adb_minirel.Hf.Scans.{
  key, Op, op_of, compares, compare_keys, int_key, float_of, round_to, last_bit, op_eq, op_lt,
  op_gt, op_lteq, op_gteq, op_neq,
}

round_to_one : (n : ℕ) → round_to 1 n ≡ n
round_to_one n = ground arith

small_float : (n : ℕ) → n < 0x100_0000 → float_of n ≡ n
small_float n h =
    let one : last_bit 8 1 n ≡ 1 = ground arith in ap (λ p. round_to p n) one ∙ round_to_one n

tied_float : (m : ℕ) → round_to 2 (4 * m + 1) ≡ 4 * m
tied_float m = ground arith

even_float : (m : ℕ) → round_to 2 (4 * m) ≡ 4 * m
even_float m = ground arith

-- The number has 25 bits.
two_to_a_step : (n : ℕ) → 0x100_0000 ≤ n → n < 0x200_0000 → last_bit 8 1 n ≡ 2
two_to_a_step n h k = ground arith

small_key : (a : ℤ) → pos_part a + neg_part a < 0x100_0000 → int_key a ≡ key a
unfolding int_key
small_key (pos n) h = ap (λ x. key (pos x)) (small_float n (omega arith))
small_key (negsuc n) h =
    ap (λ x. key (sub_ℕ 0 x)) (small_float (suc n) (omega arith)) ∙ ground arith

compares-key : (op : Op) (a b : ℤ) → compares op (key a, key b) ≡ compare_keys op a b
unfolding compares
compares-key op_eq a b = refl
compares-key op_lt a b = refl
compares-key op_gt a b = refl
compares-key op_lteq a b = refl
compares-key op_gteq a b = refl
compares-key op_neq a b = refl

-- What the number of a scan's operator in hf/hf.c asks of two naturals.
abbrev pub asks : ℕ → ℕ → ℕ → Bool
asks n a b =
    if n == 1
    then a == b
    else if n == 2
    then ltb a b
    else if n == 3
    then ltb b a
    else if n == 4
    then leb a b
    else if n == 5
    then leb b a
    else not (a == b)

-- An `int` of at most 24 bits, counted from the least of them.
abbrev pub level : ℤ → ℕ
level (pos n) = 0x100_0000 + n
level (negsuc n) = 0x100_0000 - suc n

abbrev pub IsSmall : ℤ → Type 0
IsSmall a = pos_part a + neg_part a < 0x100_0000

level_order :
    (n : ℕ) (op : Op) (a b : ℤ)
    → op_of (pos n) ≡ some op
    → IsSmall a
    → IsSmall b
    → compare_keys op a b ≡ asks n (level a) (level b)
level_order n op (pos a) (pos b) o h k = ground arith
level_order n op (pos a) (negsuc b) o h k = ground arith
level_order n op (negsuc a) (pos b) o h k = ground arith
level_order n op (negsuc a) (negsuc b) o h k = ground arith

-- Two ints of at most 24 bits, compared as the floats that HF_GetRecordValue makes of them, compare
-- as the number of the scan's operator asks of the ints: 1 is equality, 2 less, 3 greater, 4 less
-- or equal, 5 greater or equal, and 6 inequality.
pub compares-int_key :
    (n : ℕ) (op : Op) (a b : ℤ)
    → op_of (pos n) ≡ some op
    → IsSmall a
    → IsSmall b
    → compares op (int_key a, int_key b) ≡ asks n (level a) (level b)
compares-int_key n op a b o h k =
    ap (λ x. compares op (x, int_key b)) (small_key a h)
    ∙ ap (λ x. compares op (key a, x)) (small_key b k)
    ∙ compares-key op a b
    ∙ level_order n op a b o h k

-- Beyond 24 bits different `int`s can have the same `float`: every number of 25 bits that is one more
-- than a multiple of four has that of the multiple, so that a scan for one finds the other.
pub int_key-collides :
    (m : ℕ)
    → 0x40_0000 ≤ m
    → m < 0x80_0000
    → compares op_eq (int_key (pos (4 * m + 1)), int_key (pos (4 * m))) ≡ true
unfolding int_key
int_key-collides m h k =
    let odd : float_of (4 * m + 1) ≡ 4 * m =
      ap (λ p. round_to p (4 * m + 1)) (two_to_a_step (4 * m + 1) (omega arith) (omega arith))
      ∙ tied_float m in
    let even : float_of (4 * m) ≡ 4 * m =
      ap (λ p. round_to p (4 * m)) (two_to_a_step (4 * m) (omega arith) (omega arith))
      ∙ even_float m in
    ap (λ x. compares op_eq (key (pos x), int_key (pos (4 * m)))) odd
    ∙ ap (λ x. compares op_eq (key (pos (4 * m)), key (pos x))) even
    ∙ compares-key op_eq (pos (4 * m)) (pos (4 * m))
    ∙ ==_refl (4 * m)
