-- ===== src/Prelude/Result.antt =====
-- A step of a C function either goes on with a value or runs into behaviour that C leaves undefined.
-- A loop that walks pointers has fuel, and its exhaustion is a fault too, so that a theorem which
-- names the value of a run also says that the run ends.

pub data Fault : Type 0 where
  null_pointer : Fault
  dangling_pointer : Fault
  out_of_bounds : Fault
  int_overflow : Fault
  division_by_zero : Fault
  uninitialised : Fault
  out_of_fuel : Fault

pub data Result {ℓ} (A : Type ℓ) : Type ℓ where
  ok : A → Result A
  fault : Fault → Result A

infixl 5 ◌>>=◌
abbrev pub ◌>>=◌ {ℓ κ} : {A : Type ℓ} {B : Type κ} → Result A → (A → Result B) → Result B
ok a >>= f = f a
fault e >>= f = fault e
