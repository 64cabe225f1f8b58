-- ===== src/Bf/Hash/Erase.antt =====
-- The entries of bf/hash_table.c as a list of keys: what an entry less does to a lookup.
use adb_minirel.Prelude.{
  ◌≡◌, inl, inr, true, false, List, [], ◌∷◌, arith, ◌==◌, if◌then◌else◌, mem, erase, Bool-cases,
}
use adb_minirel.Prelude.Int.{ℤ, eq_ℤ_iff}
use adb_minirel.Memory.{Ptr, null}
use adb_minirel.Bf.{Entry}
use adb_minirel.Bf.Hash.{has_key}
use adb_minirel.Bf.Hash.Keys.{find_entry, Lacks, IsKeyed, find_entry-Lacks, has_key-sym}

pub IsKeyed-Lacks_key :
    (e : Ptr → Entry) (x : Ptr) (fd pagenum : ℤ) (xs : List Ptr)
    → Lacks e fd pagenum xs
    → mem x xs ≡ true
    → has_key (e x) fd pagenum ≡ false
IsKeyed-Lacks_key e x fd pagenum [] k h = cc
IsKeyed-Lacks_key e x fd pagenum (y ∷ ys) k h =
    ground (arith, IsKeyed-Lacks_key e x fd pagenum ys k.1)

pub Lacks-erase :
    (e : Ptr → Entry) (x : Ptr) (fd pagenum : ℤ) (xs : List Ptr)
    → Lacks e fd pagenum xs
    → Lacks e fd pagenum (erase x xs)
Lacks-erase e x fd pagenum [] k = tt
Lacks-erase e x fd pagenum (y ∷ ys) k = elim (Bool-cases (x == y)) [
  | inl here ↦ rw here k.1
  | inr there ↦ rw there (k.0, Lacks-erase e x fd pagenum ys k.1)
]

pub IsKeyed-erase :
    (e : Ptr → Entry) (x : Ptr) (xs : List Ptr) → IsKeyed e xs → IsKeyed e (erase x xs)
IsKeyed-erase e x [] k = tt
IsKeyed-erase e x (y ∷ ys) k = elim (Bool-cases (x == y)) [
  | inl here ↦ rw here k.1
  | inr there ↦ rw there (Lacks-erase e x (e y).fd (e y).pagenum ys k.0, IsKeyed-erase e x ys k.1)
]

pub has_key-eq :
    (v : Entry) (fd pagenum : ℤ) → has_key v fd pagenum ≡ true → (v.fd ≡ fd) × (v.pagenum ≡ pagenum)
has_key-eq v fd pagenum h = ground (arith, eq_ℤ_iff v.fd fd, eq_ℤ_iff v.pagenum pagenum)

pub has_key_unique :
    (v u : Entry) (fd pagenum : ℤ)
    → has_key v fd pagenum ≡ true
    → has_key u fd pagenum ≡ true
    → has_key v u.fd u.pagenum ≡ true
has_key_unique v u fd pagenum h k =
    let (a, b) = has_key-eq v fd pagenum h in let (c, d) = has_key-eq u fd pagenum k in rw (c, d) h

pub find_entry-head :
    (e : Ptr → Entry) (x : Ptr) (fd pagenum : ℤ) (ys : List Ptr)
    → Lacks e (e x).fd (e x).pagenum ys
    → find_entry e fd pagenum ys ≡ (
        if has_key (e x) fd pagenum
        then null
        else if has_key (e x) fd pagenum
        then (e x).bpage
        else find_entry e fd pagenum ys)
find_entry-head e x fd pagenum ys k = elim (Bool-cases (has_key (e x) fd pagenum)) [
  | inl hit ↦
      let (a, b) = has_key-eq (e x) fd pagenum hit in
      let lacks : Lacks e fd pagenum ys = rw (← a, ← b) k in
      rw hit (find_entry-Lacks e fd pagenum ys lacks)
  | inr miss ↦ rw miss
]

-- Without the cell `x`, its key is not found, and every other key is found as before.
pub find_entry-erase :
    (e : Ptr → Entry) (x : Ptr) (fd pagenum : ℤ) (xs : List Ptr)
    → IsKeyed e xs
    → mem x xs ≡ true
    → find_entry e fd pagenum (erase x xs)
      ≡ (if has_key (e x) fd pagenum then null else find_entry e fd pagenum xs)
find_entry-erase e x fd pagenum [] k h = cc
find_entry-erase e x fd pagenum (y ∷ ys) k h = elim (Bool-cases (x == y)) [
  | inl here ↦
      let e_y : y ≡ x = ground arith in
      let lacks : Lacks e (e x).fd (e x).pagenum ys = rw (← e_y) k.0 in
      rw (here, e_y) (find_entry-head e x fd pagenum ys lacks)
  | inr there ↦ rw there (
      ground (
        arith,
        find_entry-erase e x fd pagenum ys k.1,
        IsKeyed-Lacks_key e x (e y).fd (e y).pagenum ys k.0,
        has_key_unique (e x) (e y) fd pagenum,
      ))
]

-- The entry of a cell of the chain is the one that is found under its key.
pub find_entry-mem :
    (e : Ptr → Entry) (x : Ptr) (fd pagenum : ℤ) (xs : List Ptr)
    → IsKeyed e xs
    → mem x xs ≡ true
    → has_key (e x) fd pagenum ≡ true
    → find_entry e fd pagenum xs ≡ (e x).bpage
find_entry-mem e x fd pagenum [] k h hit = cc
find_entry-mem e x fd pagenum (y ∷ ys) k h hit = elim (Bool-cases (x == y)) [
  | inl here ↦ let x_y : x ≡ y = ground arith in ground arith
  | inr there ↦ ground (
    arith,
    find_entry-mem e x fd pagenum ys k.1,
    IsKeyed-Lacks_key e x (e y).fd (e y).pagenum ys k.0,
    has_key_unique (e x) (e y) fd pagenum,
  )
]

-- Once a cell is taken out, the chain lacks its key.
pub Lacks-erase_self :
    (e : Ptr → Entry) (x : Ptr) (xs : List Ptr)
    → IsKeyed e xs
    → mem x xs ≡ true
    → Lacks e (e x).fd (e x).pagenum (erase x xs)
Lacks-erase_self e x [] k h = cc
Lacks-erase_self e x (y ∷ ys) k h = elim (Bool-cases (x == y)) [
  | inl here ↦ let y_x : y ≡ x = ground arith in rw here (rw (← y_x) k.0)
  | inr there ↦ rw there (
    has_key-sym (e x) (e y) (IsKeyed-Lacks_key e x (e y).fd (e y).pagenum ys k.0 (ground arith)),
    Lacks-erase_self e x ys k.1 (ground arith),
  )
]

-- A cell that moves to the front is still found, and so is every other.
pub find_entry-front :
    (e : Ptr → Entry) (x : Ptr) (fd pagenum : ℤ) (xs : List Ptr)
    → IsKeyed e xs
    → mem x xs ≡ true
    → find_entry e fd pagenum (x ∷ erase x xs) ≡ find_entry e fd pagenum xs
find_entry-front e x fd pagenum xs k h =
    ground (arith, find_entry-mem e x fd pagenum xs k h, find_entry-erase e x fd pagenum xs k h)
