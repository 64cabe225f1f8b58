-- ===== src/Am/Child.antt =====
-- The search of am/utils.c in an internal node whose keys are integers: which child it leads to.
use adb_minirel.Prelude.{
  ℕ, zero, suc, ◌+◌, ◌*◌, ◌≡◌, refl, inl, inr, Bool, true, false, List, [], ◌∷◌, ◌++◌, arith, drop,
  length, if◌then◌else◌, Bool-cases, ◌∙◌, ap, sym,
}
use adb_minirel.Prelude.Int.{ℤ, pos, negsuc, is_int, ltb_ℤ, to_unsigned}
use adb_minirel.Prelude.Result.{Result, ok, fault, ◌>>=◌}
use adb_minirel.Unix.{Buf}
use adb_minirel.Pf.Header.{
  word_bytes, header_bytes, header_of-header_bytes, word_of_bytes, signed-to_unsigned,
  to_unsigned_bound,
}
use adb_minirel.Hf.Bytes.{load_int, in_bounds}
use adb_minirel.Am.{
  int_type, lt_op, holds, compare_ℤ, load_word, is_operation_true, get_ptr_address_internal,
  find_ptr_loop, key_below, find_ptr_index_internal,
}

-- The pointers and keys of a node, and its last pointer.
abbrev pub Entries : Type 0
Entries = List (ℤ × ℤ)

abbrev pub laid_out : Entries → ℤ → Buf
laid_out [] last = header_bytes last
laid_out ((p, k) ∷ es) last = header_bytes p ++ (header_bytes k ++ laid_out es last)

abbrev pub AllInts : Entries → ℤ → Type 0
AllInts [] last = is_int last ≡ true
AllInts ((p, k) ∷ es) last = (is_int p ≡ true) × (is_int k ≡ true) × AllInts es last

-- The child that stands before the first key above `x`, and how many keys stand before it.
abbrev pub child : ℤ → Entries → ℤ → ℤ
child x [] last = last
child x ((p, k) ∷ es) last = if ltb_ℤ x k then p else child x es last

abbrev pub place : ℤ → Entries → ℕ
place x [] = 0
place x ((p, k) ∷ es) = if ltb_ℤ x k then 0 else suc (place x es)

load_word-header_bytes :
    (n : ℤ) (rest : Buf) → is_int n ≡ true → load_word (header_bytes n ++ rest) ≡ ok (to_unsigned n)
unfolding word_bytes
load_word-header_bytes n rest h = ap ok (word_of_bytes (to_unsigned n) (to_unsigned_bound n h))

holds-lt : (x k : ℤ) → holds lt_op (compare_ℤ x k) ≡ ltb_ℤ x k
holds-lt (pos x) (pos k) = ground arith
holds-lt (pos x) (negsuc k) = ground arith
holds-lt (negsuc x) (pos k) = ground arith
holds-lt (negsuc x) (negsuc k) = ground arith

load_int-header_bytes :
    (n : ℤ) (rest : Buf) → is_int n ≡ true → load_int (header_bytes n ++ rest) (pos 0) ≡ ok n
unfolding load_int word_bytes
load_int-header_bytes n rest h = ap in_bounds (header_of-header_bytes n h)

header_bytes-alone : (n : ℤ) → header_bytes n ++ [] ≡ header_bytes n
unfolding word_bytes
header_bytes-alone n = refl

-- A search from the second key on is one in the rest of the node.
find_ptr_loop-suc :
    (test test' : ℕ → Result Bool) (n i : ℕ)
    → ((j : ℕ) → test (suc j) ≡ test' j)
    → find_ptr_loop test n (suc i) ≡ (find_ptr_loop test' n i >>= λ r. ok (suc r))
unfolding find_ptr_loop
find_ptr_loop-suc test test' zero i same = refl
find_ptr_loop-suc test test' (suc n) i same =
    by_value (test' i) (same i) (find_ptr_loop-suc test test' n (suc i) same)
  where
    by_value :
        (v : Result Bool)
        → test (suc i) ≡ v
        → find_ptr_loop test n (suc (suc i)) ≡ (find_ptr_loop test' n (suc i) >>= λ r. ok (suc r))
        → (test (suc i) >>= λ found.
            if found then ok (suc i) else find_ptr_loop test n (suc (suc i)))
          ≡ ((v >>= λ found. if found then ok i else find_ptr_loop test' n (suc i)) >>= λ r.
              ok (suc r))
    by_value (fault c) is later = rw is refl
    by_value (ok true) is later = rw is refl
    by_value (ok false) is later = rw is later

module _ (x : ℤ) (x_int : is_int x ≡ true) where
  abbrev key : Buf
  key = header_bytes x

  drop-laid_out :
      (p k : ℤ) (es : Entries) (last : ℤ) (m : ℕ)
      → drop (suc (suc (suc (suc (suc (suc (suc (suc m)))))))) (laid_out ((p, k) ∷ es) last)
        ≡ drop m (laid_out es last)
  unfolding word_bytes
  drop-laid_out p k es last m = refl

  drop-key :
      (p k : ℤ) (es : Entries) (last : ℤ)
      → drop 4 (laid_out ((p, k) ∷ es) last) ≡ header_bytes k ++ laid_out es last
  unfolding word_bytes
  drop-key p k es last = refl

  first_test :
      (p k : ℤ) (es : Entries) (last : ℤ)
      → is_int k ≡ true
      → key_below key 4 int_type (laid_out ((p, k) ∷ es) last) 0 ≡ ok (ltb_ℤ x k)
  unfolding is_operation_true
  first_test p k es last h =
      let left = ap load_word (sym (header_bytes-alone x)) ∙ load_word-header_bytes x [] x_int in
      let right =
        ap load_word (drop-key p k es last) ∙ load_word-header_bytes k (laid_out es last) h in
      rw (left, right, signed-to_unsigned x x_int, signed-to_unsigned k h) (ap ok (holds-lt x k))

  later_test :
      (p k : ℤ) (es : Entries) (last : ℤ) (j : ℕ)
      → key_below key 4 int_type (laid_out ((p, k) ∷ es) last) (suc j)
        ≡ key_below key 4 int_type (laid_out es last) j
  later_test p k es last j =
      let shift : 4 + (4 + 4) * suc j
          ≡ suc (suc (suc (suc (suc (suc (suc (suc (4 + (4 + 4) * j)))))))) =
        omega arith in
      ap (λ b. is_operation_true key b 4 int_type lt_op)
        (ap (λ m. drop m (laid_out ((p, k) ∷ es) last)) shift
          ∙ drop-laid_out p k es last (4 + (4 + 4) * j))

  search :
      (es : Entries) (last : ℤ)
      → AllInts es last
      → find_ptr_loop (key_below key 4 int_type (laid_out es last)) (length es) 0 ≡ ok (place x es)
  unfolding find_ptr_loop
  search [] last ints = refl
  search ((p, k) ∷ es) last (p_int, k_int, ints) =
      let now = first_test p k es last k_int in
      let rest =
        find_ptr_loop-suc (key_below key 4 int_type (laid_out ((p, k) ∷ es) last))
          (key_below key 4 int_type (laid_out es last)) (length es) 0 (later_test p k es last)
        ∙ ap (λ r. r >>= λ i. ok (suc i)) (search es last ints) in
      elim (Bool-cases (ltb_ℤ x k)) [
        | inl found ↦ rw (now, found) refl
        | inr passed ↦ rw (now, passed) rest
      ]

  follow :
      (es : Entries) (last : ℤ)
      → AllInts es last
      → load_int (get_ptr_address_internal (laid_out es last) 4 (place x es)) (pos 0)
        ≡ ok (child x es last)
  follow [] last ints =
      ap (λ b. load_int b (pos 0)) (sym (header_bytes-alone last))
      ∙ load_int-header_bytes last [] ints
  follow ((p, k) ∷ es) last (p_int, k_int, ints) = elim (Bool-cases (ltb_ℤ x k)) [
    | inl found ↦ rw found (load_int-header_bytes p (header_bytes k ++ laid_out es last) p_int)
    | inr passed ↦
        let shift : (4 + 4) * suc (place x es)
            ≡ suc (suc (suc (suc (suc (suc (suc (suc ((4 + 4) * place x es)))))))) =
          omega arith in
        rw passed (
          ap (λ b. load_int b (pos 0))
            (ap (λ m. drop m (laid_out ((p, k) ∷ es) last)) shift
              ∙ drop-laid_out p k es last ((4 + 4) * place x es))
          ∙ follow es last ints)
  ]

  -- For an internal node whose keys are integers, given as its pointers and keys and its last
  -- pointer, each an int, laid out in bytes one after the other: find_ptr_index_internal of an int
  -- returns how many keys stand before the first one that is greater than it, and the pointer at
  -- that index is the one before that key, or the last pointer if no key is greater.
  pub find_ptr_index_internal-child :
      (es : Entries) (last : ℤ)
      → AllInts es last
      → (find_ptr_index_internal (header_bytes x) 4 int_type (laid_out es last) (length es)
          ≡ ok (place x es))
        × (load_int (get_ptr_address_internal (laid_out es last) 4 (place x es)) (pos 0)
            ≡ ok (child x es last))
  unfolding find_ptr_index_internal
  find_ptr_index_internal-child es last ints = (search es last ints, follow es last ints)
