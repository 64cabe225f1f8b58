-- ===== src/Bf/Hash/Clean.antt =====
-- HT_Clean of bf/hash_table.c on a well-formed table.
use adb_minirel.Prelude.{
  ℕ, zero, suc, ◌+◌, ◌<◌, ◌≡◌, refl, inl, inr, Bool, true, false, List, [], ◌∷◌, ◌++◌, some, arith,
  ◌==◌, ◌||◌, if◌then◌else◌, mem, mem-append, IsDistinct, length, get_elem?, ◌∙◌, ap, Bool-cases,
}
use mathlib.Core.Path.{fun_ext}
use adb_minirel.Prelude.Result.{ok}
use adb_minirel.Memory.{Ptr, null, Links, free, update}
use adb_minirel.Memory.Chain.{Chain, Chain-frame}
use adb_minirel.Bf.{HashTable, bf_hash_tbl_size}
use adb_minirel.Bf.Hash.{ht_clean_chain, ht_clean}
use adb_minirel.Bf.Hash.Table.{IsTable}

-- The heap where the cells of a list are not allocated any more, and all else is as it was.
abbrev pub all_freed : Links → List Ptr → Links
all_freed l xs = record l { live = λ a. if mem a xs then false else l.live a }

all_freed-append :
    (l : Links) (xs ys : List Ptr) → all_freed (all_freed l xs) ys ≡ all_freed l (xs ++ ys)
all_freed-append l xs ys =
    let same : (λ (a : Ptr). if mem a ys then false else if mem a xs then false else l.live a)
        ≡ (λ (a : Ptr). if mem a (xs ++ ys) then false else l.live a) =
      fun_ext λ a. ground (arith, mem-append a xs ys) in
    ap (λ (live : Ptr → Bool). record l { live = live }) same

free-all_freed :
    (l : Links) (x : Ptr)
    → l.live x ≡ true
    → (x == null) ≡ false
    → free l x ≡ ok (all_freed l (x ∷ []))
free-all_freed l x live n =
    let same : update l.live x false ≡ (λ (a : Ptr). if a == x || false then false else l.live a) =
      fun_ext λ a. ground arith in
    let run : free l x ≡ ok (record l { live = update l.live x false }) = ground arith in
    run ∙ ap (λ (live : Ptr → Bool). ok (record l { live = live })) same

clean_step :
    (k : ℕ) (l l' : Links) (x : Ptr)
    → l.live x ≡ true
    → (x == null) ≡ false
    → free l x ≡ ok l'
    → ht_clean_chain (suc k) l x ≡ ht_clean_chain k l' (l.next x)
unfolding ht_clean_chain
clean_step k l l' x live n run = ground arith

clean_end : (k : ℕ) (l : Links) (p : Ptr) → p ≡ null → ht_clean_chain (suc k) l p ≡ ok l
unfolding ht_clean_chain
clean_end k l p e = ground arith

all_freed-nil : (l : Links) → all_freed l [] ≡ l
all_freed-nil l = refl

ht_clean_chain-all_freed :
    (fuel : ℕ) (l : Links) (b : Ptr) (xs : List Ptr) (p : Ptr)
    → Chain l b xs p
    → IsDistinct xs
    → length xs < fuel
    → ht_clean_chain fuel l p ≡ ok (all_freed l xs)
ht_clean_chain-all_freed zero l b xs p c d h = absurd (omega arith)
ht_clean_chain-all_freed (suc k) l b [] p c d h = clean_end k l p c
ht_clean_chain-all_freed (suc k) l b (x ∷ xs) p c d h =
    let l' = all_freed l (x ∷ []) in
    let kept : Chain l' x xs (l.next x) =
      Chain-frame l l' x xs (l.next x) c.4 (λ a m. ground arith) in
    let rest = ht_clean_chain-all_freed k l' x xs (l.next x) kept d.1 (omega arith) in
    rw c.0 (
      clean_step k l l' x c.2 c.1 (free-all_freed l x c.2 c.1)
      ∙ rest
      ∙ ap ok (all_freed-append l (x ∷ []) xs))

-- The cells of the chains `i`, `i + 1`, …, `n` of them.
abbrev pub cells : (ℕ → List Ptr) → ℕ → ℕ → List Ptr
cells chain i zero = []
cells chain i (suc n) = chain i ++ cells chain (suc i) n

ht_clean_cons :
    (fuel : ℕ) (l l' : Links) (p : Ptr) (heads : List Ptr)
    → ht_clean_chain fuel l p ≡ ok l'
    → ht_clean fuel l (p ∷ heads) ≡ ht_clean fuel l' heads
unfolding ht_clean
ht_clean_cons fuel l l' p heads run = rw run refl

ht_clean_nil : (fuel : ℕ) (l : Links) → ht_clean fuel l [] ≡ ok l
unfolding ht_clean
ht_clean_nil fuel l = refl

module _ (fuel : ℕ) (chain : ℕ → List Ptr) (distinct : (i : ℕ) → IsDistinct (chain i))
    (apart : (i j : ℕ) (a : Ptr) → mem a (chain i) ≡ true → mem a (chain j) ≡ true → i ≡ j)
    (room : (i : ℕ) → length (chain i) < fuel) where
  ht_clean-cells :
      (heads : List Ptr) (l : Links) (i : ℕ)
      → ((j : ℕ) (p : Ptr) → get_elem? heads j ≡ some p → Chain l null (chain (i + j)) p)
      → ht_clean fuel l heads ≡ ok (all_freed l (cells chain i (length heads)))
  ht_clean-cells [] l i linked = ht_clean_nil fuel l
  ht_clean-cells (p ∷ heads) l i linked =
      let l' = all_freed l (chain i) in
      let at : i + 0 ≡ i = omega arith in
      let here : Chain l null (chain i) p = rw (← at) (linked 0 p refl) in
      let run = ht_clean_chain-all_freed fuel l null (chain i) p here (distinct i) (room i) in
      let rest = ht_clean-cells heads l' (suc i) (λ j q e.
        let next : suc i + j ≡ i + suc j = omega arith in
        rw next (
          Chain-frame l l' null (chain (i + suc j)) q (linked (suc j) q e) (λ a m.
            let out : mem a (chain i) ≡ false = elim (Bool-cases (mem a (chain i))) [
              | inr out ↦ out
              | inl inside ↦
                  absurd (let same = apart i (i + suc j) a inside m in omega (arith, same))
            ] in
            ground arith))) in
      ht_clean_cons fuel l l' p heads run
      ∙ rest
      ∙ ap ok (all_freed-append l (chain i) (cells chain (suc i) (length heads)))

-- On a well-formed hash table HT_Clean ends within its fuel and without undefined behaviour, frees
-- the entries of all chains, and leaves the rest of the heap as it was.
pub ht_clean-all_freed :
    (t : HashTable) (chain : ℕ → List Ptr)
    → IsTable t chain
    → ht_clean t.fresh t.links t.heads ≡ ok (all_freed t.links (cells chain 0 bf_hash_tbl_size))
ht_clean-all_freed t chain w =
    ht_clean-cells t.fresh chain w.distinct w.apart w.room t.heads t.links 0
      (λ j p e. let same : 0 + j ≡ j = omega arith in rw same (w.linked j p e))
    ∙ ap (λ n. ok (all_freed t.links (cells chain 0 n))) w.sized
