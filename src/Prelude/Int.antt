-- ===== src/Prelude/Int.antt =====
-- C's `int` (32 bits) as a signed number, and the conversions that the program makes.
use Prim.Native.Nat.{ℕ, zero, suc, ◌+◌, ◌-◌, ◌*◌, ◌%◌, ◌^◌}
use mathlib.Core.Path.{◌≡◌, refl}
use mathlib.Core.Logic.{◌↔◌}
use mathlib.Core.Bool.{Bool, true, false}
use native.Mathlib.Omega.{arith}
use adb_minirel.Prelude.Tests.{ltb, leb, ◌==◌, if◌then◌else◌}

-- `negsuc n` is -(n + 1).
pub data ℤ : Type 0 where
  pos : ℕ → ℤ
  negsuc : ℕ → ℤ

abbrev pub pos_part : ℤ → ℕ
pos_part (pos n) = n
pos_part (negsuc n) = 0

abbrev pub neg_part : ℤ → ℕ
neg_part (pos n) = 0
neg_part (negsuc n) = suc n

abbrev pub eq_ℤ : ℤ → ℤ → Bool
eq_ℤ (pos a) (pos b) = a == b
eq_ℤ (pos a) (negsuc b) = false
eq_ℤ (negsuc a) (pos b) = false
eq_ℤ (negsuc a) (negsuc b) = a == b

abbrev pub ltb_ℤ : ℤ → ℤ → Bool
ltb_ℤ (pos a) (pos b) = ltb a b
ltb_ℤ (pos a) (negsuc b) = false
ltb_ℤ (negsuc a) (pos b) = true
ltb_ℤ (negsuc a) (negsuc b) = ltb b a

abbrev pub leb_ℤ : ℤ → ℤ → Bool
leb_ℤ (pos a) (pos b) = leb a b
leb_ℤ (pos a) (negsuc b) = false
leb_ℤ (negsuc a) (pos b) = true
leb_ℤ (negsuc a) (negsuc b) = leb b a

-- a - b, as an integer.
abbrev pub sub_ℕ : ℕ → ℕ → ℤ
sub_ℕ a b = if leb b a then pos (a - b) else negsuc (b - a - 1)

infixl 65 ◌+ℤ◌
unfoldable pub ◌+ℤ◌ : ℤ → ℤ → ℤ
a +ℤ b = sub_ℕ (pos_part a + pos_part b) (neg_part a + neg_part b)

-- A numeral times an integer.
abbrev pub scale : ℕ → ℤ → ℤ
scale k (pos a) = pos (k * a)
scale k (negsuc a) = sub_ℕ 0 (k * suc a)

-- Is the value an `int`? Signed arithmetic that leaves the range is undefined in C.
abbrev pub is_int : ℤ → Bool
is_int (pos a) = ltb a (2 ^ 31)
is_int (negsuc a) = ltb a (2 ^ 31)

-- C's `%` by a positive number: the sign is the dividend's.
abbrev pub rem : ℤ → ℕ → ℤ
rem (pos a) k = pos (a % k)
rem (negsuc a) k = sub_ℕ 0 (suc a % k)

-- The conversion of an `int` to `unsigned int`.
abbrev pub to_unsigned : ℤ → ℕ
to_unsigned (pos a) = a
to_unsigned (negsuc a) = 2 ^ 32 - suc a

-- `++` and `--` of an `int` in two's complement.
abbrev pub int_inc : ℤ → ℤ
int_inc (pos a) = if a == 2 ^ 31 - 1 then negsuc (2 ^ 31 - 1) else pos (a + 1)
int_inc (negsuc zero) = pos 0
int_inc (negsuc (suc a)) = negsuc a

abbrev pub int_dec : ℤ → ℤ
int_dec (pos zero) = negsuc 0
int_dec (pos (suc a)) = pos a
int_dec (negsuc a) = if a == 2 ^ 31 - 1 then pos (2 ^ 31 - 1) else negsuc (a + 1)

pub eq_ℤ_iff : (a b : ℤ) → (eq_ℤ a b ≡ true) ↔ (a ≡ b)
eq_ℤ_iff (pos a) (pos b) = ground arith
eq_ℤ_iff (pos a) (negsuc b) = ground arith
eq_ℤ_iff (negsuc a) (pos b) = ground arith
eq_ℤ_iff (negsuc a) (negsuc b) = ground arith

pub eq_ℤ_refl : (a : ℤ) → eq_ℤ a a ≡ true
eq_ℤ_refl a = (eq_ℤ_iff a a).1 refl
