-- ===== src/Am/Names.antt =====
-- The file names of indexes (am/utils.c): the name of the file, a dot, and the index number in decimal.
use native.Mathlib.Omega.{arith}
use adb_minirel.Prelude.{
  ℕ, zero, suc, ◌+◌, ◌-◌, ◌*◌, ◌/◌, ◌%◌, ◌≤◌, ◌<◌, ◌≡◌, refl, inl, inr, true, false, [], ◌∷◌, ◌++◌,
  ◌==◌, if◌then◌else◌, drop, length, length-append, set, Bool-cases, ◌∙◌, ap, sym,
}
use adb_minirel.Unix.{Buf, Name}

-- The rounds of the division loop, at most `fuel` of them.
unfoldable pub digit_count : ℕ → ℕ → ℕ
digit_count zero index_no = 0
digit_count (suc k) index_no =
    let rest = digit_count k (index_no / 10) in if index_no / 10 == 0 then 1 else suc rest

-- sizeof_filename_with_index, for an index number that is not negative.
unfoldable pub sizeof_filename_with_index : Name → ℕ → ℕ
sizeof_filename_with_index filename index_no =
    length filename + 1 + digit_count (suc index_no) index_no + 1

-- strcpy, into a buffer that has room for the string and its end.
abbrev pub strcpy : Name → Buf → Buf
strcpy name buf = name ++ (0 ∷ drop (suc (length name)) buf)

-- The loop of set_filename_with_index, from the position `at` backwards: the buffer and the position.
unfoldable pub write_digits : ℕ → Buf → ℕ → ℕ → Buf × ℕ
write_digits zero buf at index_no = (buf, at)
write_digits (suc k) buf at index_no =
    let written = set buf (at - 1) (index_no % 10 + 48) in
    let rest = write_digits k written (at - 1) (index_no / 10) in
    if index_no / 10 == 0 then (written, at - 1) else rest

-- set_filename_with_index: what it leaves in the buffer.
unfoldable pub set_filename_with_index : Name → ℕ → Buf → Buf
set_filename_with_index filename index_no buf =
    let new_length = sizeof_filename_with_index filename index_no - 1 in
    let ended = set (strcpy filename buf) new_length 0 in
    let (written, at) = write_digits (suc index_no) ended new_length index_no in
    set written (at - 1) 46

-- The decimal digits of a number, as ASCII.
unfoldable pub decimal : ℕ → ℕ → Name
decimal zero n = []
decimal (suc k) n =
    let rest = decimal k (n / 10) in
    if n / 10 == 0 then (n % 10 + 48) ∷ [] else rest ++ ((n % 10 + 48) ∷ [])

decimal_last : (k n : ℕ) → (n / 10 == 0) ≡ true → decimal (suc k) n ≡ (n % 10 + 48) ∷ []
unfolding decimal
decimal_last k n e = rw e refl

decimal_more :
    (k n : ℕ)
    → (n / 10 == 0) ≡ false
    → decimal (suc k) n ≡ decimal k (n / 10) ++ ((n % 10 + 48) ∷ [])
unfolding decimal
decimal_more k n e = rw e refl

-- The number that ASCII digits stand for, `n` being that of the digits before them.
abbrev pub number_of : ℕ → Name → ℕ
number_of n [] = n
number_of n (c ∷ cs) = number_of (10 * n + (c - 48)) cs

number_of-append :
    (n : ℕ) (cs : Name) (c : ℕ) → number_of n (cs ++ (c ∷ [])) ≡ 10 * number_of n cs + (c - 48)
number_of-append n [] c = refl
number_of-append n (d ∷ cs) c = number_of-append (10 * n + (d - 48)) cs c

number_of-decimal : (k n : ℕ) → n < k → number_of 0 (decimal k n) ≡ n
number_of-decimal zero n h = absurd (omega (arith, h))
number_of-decimal (suc k) n h = elim (Bool-cases (n / 10 == 0)) [
  | inl last ↦
      let small : n / 10 ≡ 0 = ground arith in rw (decimal_last k n last) (omega (arith, small))
  | inr more ↦
      let below : n / 10 < k = ground arith in
      let rest = number_of-decimal k (n / 10) below in
      rw (decimal_more k n more)
        (number_of-append 0 (decimal k (n / 10)) (n % 10 + 48) ∙ rw rest (omega arith))
]

set-append :
    (xs : Buf) (y : ℕ) (ys : Buf) (v : ℕ) → set (xs ++ (y ∷ ys)) (length xs) v ≡ xs ++ (v ∷ ys)
set-append [] y ys v = refl
set-append (x ∷ xs) y ys v = ap (λ zs. x ∷ zs) (set-append xs y ys v)

append_assoc : (xs ys zs : Buf) → (xs ++ ys) ++ zs ≡ xs ++ (ys ++ zs)
append_assoc [] ys zs = refl
append_assoc (x ∷ xs) ys zs = ap (λ us. x ∷ us) (append_assoc xs ys zs)

-- A list that is not empty has a last element.
snoc-cases :
    (xs : Buf) (n : ℕ)
    → length xs ≡ suc n
    → (ys : Buf) × (y : ℕ) × (xs ≡ ys ++ (y ∷ [])) × (length ys ≡ n)
snoc-cases [] n h = absurd (omega arith)
snoc-cases (x ∷ []) n h = ([], x, refl, omega arith)
snoc-cases (x ∷ y ∷ zs) zero h = absurd (omega arith)
snoc-cases (x ∷ y ∷ zs) (suc n) h =
    let (ys, z, e, k) = snoc-cases (y ∷ zs) n (omega arith) in
    (x ∷ ys, z, ap (λ us. x ∷ us) e, omega (arith, k))

count_last : (k n : ℕ) → (n / 10 == 0) ≡ true → digit_count (suc k) n ≡ 1
unfolding digit_count
count_last k n e = rw e refl

count_more :
    (k n : ℕ) → (n / 10 == 0) ≡ false → digit_count (suc k) n ≡ suc (digit_count k (n / 10))
unfolding digit_count
count_more k n e = rw e refl

nil_of_length : (xs : Buf) → length xs ≡ 0 → xs ≡ []
nil_of_length [] e = refl
nil_of_length (x ∷ xs) e = absurd (omega (arith, e))

-- A write at the end of the gap.
set-gap :
    (pre ys post : Buf) (y v : ℕ)
    → set (pre ++ ((ys ++ (y ∷ [])) ++ post)) (length pre + length ys) v ≡ pre ++ (ys ++ (v ∷ post))
set-gap pre ys post y v =
    let shape : pre ++ ((ys ++ (y ∷ [])) ++ post) ≡ (pre ++ ys) ++ (y ∷ post) =
      ap (λ zs. pre ++ zs) (append_assoc ys (y ∷ []) post) ∙ sym (append_assoc pre ys (y ∷ post)) in
    let at : length pre + length ys ≡ length (pre ++ ys) = sym (length-append pre ys) in
    rw (shape, at) (set-append (pre ++ ys) y post v ∙ append_assoc pre ys (v ∷ post))

-- One round of the loop, with the last place of the gap free.
write_digits_step :
    (k n : ℕ) (pre ys post : Buf) (y at : ℕ)
    → at ≡ suc (length pre + length ys)
    → write_digits (suc k) (pre ++ ((ys ++ (y ∷ [])) ++ post)) at n ≡ (
        if n / 10 == 0
        then (pre ++ (ys ++ ((n % 10 + 48) ∷ post)), length pre + length ys)
        else write_digits k
            (pre ++ (ys ++ ((n % 10 + 48) ∷ post)))
            (length pre + length ys)
            (n / 10))
unfolding write_digits
write_digits_step k n pre ys post y at e =
    let place : at - 1 ≡ length pre + length ys = omega (arith, e) in
    rw (place, set-gap pre ys post y (n % 10 + 48)) refl

-- The digits fill the gap before `post`, and the position stands at its start.
write_digits-decimal :
    (k n : ℕ) (pre gap post : Buf) (at : ℕ)
    → n < k
    → length gap ≡ digit_count k n
    → at ≡ length pre + length gap
    → write_digits k (pre ++ (gap ++ post)) at n ≡ (pre ++ (decimal k n ++ post), length pre)
write_digits-decimal zero n pre gap post at h e p = absurd (omega (arith, h))
write_digits-decimal (suc k) n pre gap post at h e p = elim (Bool-cases (n / 10 == 0)) [
  | inl last ↦
      let one : length gap ≡ 1 = e ∙ count_last k n last in
      let (ys, y, shape, none) = snoc-cases gap 0 one in
      let empty : ys ≡ [] = nil_of_length ys none in
      rw (shape, decimal_last k n last)
        (write_digits_step k n pre ys post y at (omega (arith, p, one, none))
          ∙ rw (last, empty) (ap (λ m. (pre ++ ((n % 10 + 48) ∷ post), m)) (omega arith)))
  | inr more ↦
      let many : length gap ≡ suc (digit_count k (n / 10)) = e ∙ count_more k n more in
      let (ys, y, shape, rest) = snoc-cases gap (digit_count k (n / 10)) many in
      let below : n / 10 < k = ground arith in
      rw (shape, decimal_more k n more)
        (write_digits_step k n pre ys post y at (omega (arith, p, many, rest))
          ∙ rw more (
              write_digits-decimal k (n / 10) pre ys ((n % 10 + 48) ∷ post) (length pre + length ys)
                below rest refl)
          ∙ ap (λ zs. (pre ++ zs, length pre))
              (sym (append_assoc (decimal k (n / 10)) ((n % 10 + 48) ∷ []) post)))
]

-- What stands behind the first `n` bytes, split at `m`.
drop-split :
    (n m : ℕ) (xs : Buf)
    → n + m < length xs
    → (gap : Buf) × (y : ℕ) × (rest : Buf) × (drop n xs ≡ gap ++ (y ∷ rest)) × (length gap ≡ m)
drop-split zero m [] h = absurd (omega (arith, h))
drop-split zero zero (x ∷ xs) h = ([], x, xs, refl, refl)
drop-split zero (suc m) (x ∷ xs) h =
    let (gap, y, rest, e, k) = drop-split zero m xs (omega (arith, h)) in
    (x ∷ gap, y, rest, ap (λ zs. x ∷ zs) e, omega (arith, k))
drop-split (suc n) m [] h = absurd (omega (arith, h))
drop-split (suc n) m (x ∷ xs) h = drop-split n m xs (omega (arith, h))

module _ (filename : Name) (n : ℕ) where
  abbrev m : ℕ
  m = digit_count (suc n) n

  abbrev pre : Buf
  pre = filename ++ (0 ∷ [])

  length-pre : length pre ≡ length filename + 1
  length-pre = omega (arith, length-append filename (0 ∷ []))

  set-end :
      (gap rest : Buf) (y : ℕ)
      → length gap ≡ m
      → set (filename ++ (0 ∷ (gap ++ (y ∷ rest)))) (length filename + 1 + m) 0
        ≡ pre ++ (gap ++ (0 ∷ rest))
  set-end gap rest y k =
      let shape : filename ++ (0 ∷ (gap ++ (y ∷ rest))) ≡ (pre ++ gap) ++ (y ∷ rest) =
        sym (append_assoc filename (0 ∷ []) (gap ++ (y ∷ rest)))
        ∙ sym (append_assoc pre gap (y ∷ rest)) in
      let at : length filename + 1 + m ≡ length (pre ++ gap) =
        sym (length-append pre gap ∙ omega (arith, k, length-pre)) in
      rw (shape, at) (set-append (pre ++ gap) y rest 0 ∙ append_assoc pre gap (0 ∷ rest))

  set-dot : (tail : Buf) → set (pre ++ tail) (length pre - 1) 46 ≡ filename ++ (46 ∷ tail)
  set-dot tail =
      let shape : pre ++ tail ≡ filename ++ (0 ∷ tail) = append_assoc filename (0 ∷ []) tail in
      let at : length pre - 1 ≡ length filename = omega (arith, length-pre) in
      rw (shape, at) (set-append filename 0 tail 46)

  -- For an index number that is not negative and a buffer of at least the size that
  -- sizeof_filename_with_index gives, set_filename_with_index leaves in the buffer the file name, a
  -- dot, digits that stand for the index number in decimal, and the end of the string.
  pub set_filename_with_index-number_of :
      (buf : Buf)
      → sizeof_filename_with_index filename n ≤ length buf
      → (digits : Name) × (rest : Buf) × (set_filename_with_index filename n buf
          ≡ filename ++ (46 ∷ (digits ++ (0 ∷ rest))))
        × (number_of 0 digits ≡ n)
  unfolding set_filename_with_index sizeof_filename_with_index
  set_filename_with_index-number_of buf room =
      let (gap, y, rest, e, k) = drop-split (suc (length filename)) m buf (omega (arith, room)) in
      let end : length filename + 1 + m + 1 - 1 ≡ length filename + 1 + m = omega arith in
      let digits =
        write_digits-decimal (suc n) n pre gap (0 ∷ rest) (length filename + 1 + m) (omega arith) k
          (omega (arith, k, length-pre)) in
      (
        decimal (suc n) n,
        rest,
        rw (end, e, set-end gap rest y k, digits) (set-dot (decimal (suc n) n ++ (0 ∷ rest))),
        number_of-decimal (suc n) n (omega arith),
      )
