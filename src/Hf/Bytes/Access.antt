-- ===== src/Hf/Bytes/Access.antt =====
-- Reads of a page's `int`s and pointers after writes, for hf/hf.c.
use adb_minirel.Prelude.{
  ℕ, zero, suc, ◌+◌, ◌^◌, ◌≤◌, ◌<◌, ◌≡◌, ◌≢◌, ◌⊎◌, inl, inr, refl, true, List, [], ◌∷◌, some, arith,
  get_elem?, set, length, length-set, ◌∙◌, ap,
}
use adb_minirel.Prelude.Int.{ℤ, pos, is_int}
use adb_minirel.Prelude.Result.{ok}
use adb_minirel.Memory.{Ptr}
use adb_minirel.Unix.{Buf}
use adb_minirel.Pf.Header.{word_bytes, header_bytes, header_of-header_bytes}
use adb_minirel.Hf.Bytes.{
  get_bytes, put_bytes, in_bounds, int_read, pointer_read, load_int, store_int, pointer_bytes,
  number_of_bytes, load_pointer, store_pointer,
}

pub get_elem?-set_ne {ℓ} :
    {A : Type ℓ} (xs : List A) (i j : ℕ) (v : A) → i ≢ j → get_elem? (set xs i v) j ≡ get_elem? xs j
get_elem?-set_ne [] i j v h = refl
get_elem?-set_ne (x ∷ xs) zero zero v h = absurd (h refl)
get_elem?-set_ne (x ∷ xs) zero (suc j) v h = refl
get_elem?-set_ne (x ∷ xs) (suc i) zero v h = refl
get_elem?-set_ne (x ∷ xs) (suc i) (suc j) v h = get_elem?-set_ne xs i j v (λ e. h (ap suc e))

pub get_elem?-set_self {ℓ} :
    {A : Type ℓ} (xs : List A) (i : ℕ) (v : A) → i < length xs → get_elem? (set xs i v) i ≡ some v
get_elem?-set_self [] i v h = elim h [ ]
get_elem?-set_self (x ∷ xs) zero v h = refl
get_elem?-set_self (x ∷ xs) (suc i) v h = get_elem?-set_self xs i v (omega arith)

pub get_elem?-lt {ℓ} :
    {A : Type ℓ} (xs : List A) (i : ℕ) (a : A) → get_elem? xs i ≡ some a → i < length xs
get_elem?-lt [] i a e = cc
get_elem?-lt (x ∷ xs) zero a e = omega arith
get_elem?-lt (x ∷ xs) (suc i) a e = omega (arith, get_elem?-lt xs i a e)

-- The bytes `j` to `j + n` are none of the `m` bytes from `i` on.
abbrev pub Apart : ℕ → ℕ → ℕ → ℕ → Type 0
Apart i m j n = (j + n ≤ i) ⊎ (i + m ≤ j)

pub length-put_bytes : (b : Buf) (i : ℕ) (xs : List ℕ) → length (put_bytes b i xs) ≡ length b
length-put_bytes b i [] = refl
length-put_bytes b i (x ∷ xs) = length-put_bytes (set b i x) (suc i) xs ∙ length-set b i x

get_elem?-put_bytes-Apart :
    (b : Buf) (i : ℕ) (xs : List ℕ) (j : ℕ)
    → Apart i (length xs) j 1
    → get_elem? (put_bytes b i xs) j ≡ get_elem? b j
get_elem?-put_bytes-Apart b i [] j h = refl
get_elem?-put_bytes-Apart b i (x ∷ xs) j h =
    get_elem?-put_bytes-Apart (set b i x) (suc i) xs j (smaller h)
    ∙ get_elem?-set_ne b i j x (omega arith)
  where
    smaller : Apart i (suc (length xs)) j 1 → Apart (suc i) (length xs) j 1
    smaller (inl k) = inl (omega arith)
    smaller (inr k) = inr (omega arith)

pub get_bytes-put_bytes-Apart :
    (b : Buf) (i : ℕ) (xs : List ℕ) (j n : ℕ)
    → Apart i (length xs) j n
    → get_bytes (put_bytes b i xs) j n ≡ get_bytes b j n
get_bytes-put_bytes-Apart b i xs j zero h = refl
get_bytes-put_bytes-Apart b i xs j (suc n) h =
    rw
      (
        get_elem?-put_bytes-Apart b i xs j (first h),
        get_bytes-put_bytes-Apart b i xs (suc j) n (rest h),
      )
      refl
  where
    first : Apart i (length xs) j (suc n) → Apart i (length xs) j 1
    first (inl k) = inl (omega arith)
    first (inr k) = inr k

    rest : Apart i (length xs) j (suc n) → Apart i (length xs) (suc j) n
    rest (inl k) = inl (omega arith)
    rest (inr k) = inr (omega arith)

pub get_bytes-put_bytes :
    (b : Buf) (i : ℕ) (xs : List ℕ)
    → i + length xs ≤ length b
    → get_bytes (put_bytes b i xs) i (length xs) ≡ some xs
get_bytes-put_bytes b i [] h = refl
get_bytes-put_bytes b i (x ∷ xs) h =
    rw
      (
        get_elem?-put_bytes-Apart (set b i x) (suc i) xs i (inl (omega arith)),
        get_elem?-set_self b i x (omega arith),
        get_bytes-put_bytes (set b i x) (suc i) xs (rw (length-set b i x) (omega arith)),
      )
      refl

length-header_bytes : (n : ℤ) → length (header_bytes n) ≡ 4
unfolding word_bytes
length-header_bytes n = refl

length-pointer_bytes : (p : Ptr) → length (pointer_bytes p) ≡ 8
unfolding word_bytes
length-pointer_bytes p = refl

number_of_bytes-pointer_bytes : (p : Ptr) → p < 2 ^ 64 → number_of_bytes (pointer_bytes p) ≡ p
unfolding word_bytes
number_of_bytes-pointer_bytes p h = omega arith

-- The write of an `int` inside the buffer, and what it changes.
module _ (b : Buf) (i : ℕ) (n : ℤ) (h : i + 4 ≤ length b) where
  abbrev pub int_stored : Buf
  int_stored = put_bytes b i (header_bytes n)

  pub store_int_run : store_int b (pos i) n ≡ ok int_stored
  unfolding store_int
  store_int_run = ground arith

  pub load_int-store_int : is_int n ≡ true → load_int int_stored (pos i) ≡ ok n
  unfolding load_int word_bytes
  load_int-store_int small =
      ap int_read (get_bytes-put_bytes b i (header_bytes n) h)
      ∙ ap in_bounds (header_of-header_bytes n small)

  pub length-int_stored : length int_stored ≡ length b
  length-int_stored = length-put_bytes b i (header_bytes n)

  pub load_int-int_stored :
      (j : ℕ) → Apart i 4 j 4 → load_int int_stored (pos j) ≡ load_int b (pos j)
  unfolding load_int word_bytes
  load_int-int_stored j apart =
      ap int_read (get_bytes-put_bytes-Apart b i (header_bytes n) j 4 apart)

  pub load_pointer-int_stored :
      (j : ℕ) → Apart i 4 j 8 → load_pointer int_stored (pos j) ≡ load_pointer b (pos j)
  unfolding load_pointer word_bytes
  load_pointer-int_stored j apart =
      ap pointer_read (get_bytes-put_bytes-Apart b i (header_bytes n) j 8 apart)

-- The write of a pointer inside the buffer, and what it changes.
module _ (b : Buf) (i : ℕ) (p : Ptr) (h : i + 8 ≤ length b) where
  abbrev pub pointer_stored : Buf
  pointer_stored = put_bytes b i (pointer_bytes p)

  pub store_pointer_run : store_pointer b (pos i) p ≡ ok pointer_stored
  unfolding store_pointer
  store_pointer_run = ground arith

  pub load_pointer-store_pointer : p < 2 ^ 64 → load_pointer pointer_stored (pos i) ≡ ok p
  unfolding load_pointer word_bytes
  load_pointer-store_pointer small =
      ap pointer_read (get_bytes-put_bytes b i (pointer_bytes p) h)
      ∙ ap ok (number_of_bytes-pointer_bytes p small)

  pub length-pointer_stored : length pointer_stored ≡ length b
  length-pointer_stored = length-put_bytes b i (pointer_bytes p)

  pub load_int-pointer_stored :
      (j : ℕ) → Apart i 8 j 4 → load_int pointer_stored (pos j) ≡ load_int b (pos j)
  unfolding load_int word_bytes
  load_int-pointer_stored j apart =
      ap int_read (get_bytes-put_bytes-Apart b i (pointer_bytes p) j 4 apart)

  pub load_pointer-pointer_stored :
      (j : ℕ) → Apart i 8 j 8 → load_pointer pointer_stored (pos j) ≡ load_pointer b (pos j)
  unfolding load_pointer word_bytes
  load_pointer-pointer_stored j apart =
      ap pointer_read (get_bytes-put_bytes-Apart b i (pointer_bytes p) j 8 apart)
