-- ===== src/Memory/Chain.antt =====
-- What a linked list in the heap stands for: the addresses that its links lead through.
use adb_minirel.Prelude.{
  inl, refl, ◌≡◌, ◌⊎◌, true, false, List, [], ◌∷◌, arith, ◌==◌, mem, IsDistinct,
}
use adb_minirel.Memory.{Ptr, null, Links}

-- A doubly linked list: from `p` the `next` links lead through `xs` to the null pointer, and each
-- `prev` link leads back, the first one to `b`.
abbrev pub Chain : Links → Ptr → List Ptr → Ptr → Type 0
Chain l b [] p = p ≡ null
Chain l b (x ∷ xs) p =
    (p ≡ x) × ((x == null) ≡ false) × (l.live x ≡ true) × (l.prev x ≡ b) × Chain l x xs (l.next x)

-- A singly linked list.
abbrev pub Forward : Links → List Ptr → Ptr → Type 0
Forward l [] p = p ≡ null
Forward l (x ∷ xs) p = (p ≡ x) × ((x == null) ≡ false) × (l.live x ≡ true) × Forward l xs (l.next x)

module _ (l m : Links) where
  -- A list survives any change that spares its own cells.
  pub Chain-frame :
      (b : Ptr) (xs : List Ptr) (p : Ptr)
      → Chain l b xs p
      → ((a : Ptr)
          → mem a xs ≡ true
          → (m.live a ≡ l.live a) × (m.prev a ≡ l.prev a) × (m.next a ≡ l.next a))
      → Chain m b xs p
  Chain-frame b [] p c same = c
  Chain-frame b (x ∷ xs) p c same =
      let rest : Chain m x xs (l.next x) =
        Chain-frame x xs (l.next x) c.4 (λ a h. same a (ground arith)) in
      ground (arith, same x)

  pub Forward-frame :
      (xs : List Ptr) (p : Ptr)
      → Forward l xs p
      → ((a : Ptr) → mem a xs ≡ true → (m.live a ≡ l.live a) × (m.next a ≡ l.next a))
      → Forward m xs p
  Forward-frame [] p c same = c
  Forward-frame (x ∷ xs) p c same =
      let rest : Forward m xs (l.next x) =
        Forward-frame xs (l.next x) c.3 (λ a h. same a (ground arith)) in
      ground (arith, same x)

module _ (l : Links) where
  pub Chain-live :
      (b : Ptr) (xs : List Ptr) (p a : Ptr)
      → Chain l b xs p
      → mem a xs ≡ true
      → (l.live a ≡ true) × ((a == null) ≡ false)
  Chain-live b [] p a c h = cc
  Chain-live b (x ∷ xs) p a c h = ground (arith, Chain-live x xs (l.next x) a c.4)

  pub Forward-live :
      (xs : List Ptr) (p a : Ptr)
      → Forward l xs p
      → mem a xs ≡ true
      → (l.live a ≡ true) × ((a == null) ≡ false)
  Forward-live [] p a c h = cc
  Forward-live (x ∷ xs) p a c h = ground (arith, Forward-live xs (l.next x) a c.3)

  pub head-ne :
      (b : Ptr) (xs : List Ptr) (p a : Ptr)
      → Chain l b xs p
      → mem a xs ≡ false
      → (a == null) ≡ false
      → (p == a) ≡ false
  head-ne b [] p a c h n = ground arith
  head-ne b (x ∷ xs) p a c h n = ground arith

  -- A link leads to a cell of the list, or out at its end.
  pub next-mem :
      (b : Ptr) (xs : List Ptr) (p a : Ptr)
      → Chain l b xs p
      → mem a xs ≡ true
      → (l.next a ≡ null) ⊎ (mem (l.next a) xs ≡ true)
  next-mem b [] p a c h = cc
  next-mem b (x ∷ []) p a c h = ground arith
  next-mem b (x ∷ y ∷ ys) p a c h = ground (arith, next-mem x (y ∷ ys) (l.next x) a c.4)

  -- The head's link leads into the tail, and no link of the tail leads back to the head.
  pub next-mem_tail :
      (b : Ptr) (x : Ptr) (xs : List Ptr) (p a : Ptr)
      → Chain l b (x ∷ xs) p
      → mem a (x ∷ xs) ≡ true
      → (l.next a ≡ null) ⊎ (mem (l.next a) xs ≡ true)
  next-mem_tail b x [] p a c h = ground arith
  next-mem_tail b x (y ∷ ys) p a c h = ground (arith, next-mem x (y ∷ ys) (l.next x) a c.4)

  pub prev-mem :
      (b : Ptr) (xs : List Ptr) (p a : Ptr)
      → Chain l b xs p
      → mem a xs ≡ true
      → (l.prev a ≡ b) ⊎ (mem (l.prev a) xs ≡ true)
  prev-mem b [] p a c h = cc
  prev-mem b (x ∷ xs) p a c h = ground (arith, prev-mem x xs (l.next x) a c.4)

  -- A cell's `prev` link leads out of the list exactly at its head.
  pub prev-head :
      (b : Ptr) (xs : List Ptr) (p a : Ptr)
      → Chain l b xs p
      → IsDistinct xs
      → mem b xs ≡ false
      → mem a xs ≡ true
      → (l.prev a == b) ≡ (p == a)
  prev-head b [] p a c d out h = cc
  prev-head b (x ∷ xs) p a c d out h = ground (arith, prev-mem x xs (l.next x) a c.4)

  pub prev-ne_self :
      (b : Ptr) (xs : List Ptr) (p a : Ptr)
      → Chain l b xs p
      → IsDistinct xs
      → mem b xs ≡ false
      → mem a xs ≡ true
      → (l.prev a == a) ≡ false
  prev-ne_self b [] p a c d out h = cc
  prev-ne_self b (x ∷ xs) p a c d out h = ground (arith, prev-ne_self x xs (l.next x) a c.4)

  -- In a list that nothing leads into, the links of a cell are null or lead to allocated cells.
  pub prev-live :
      (xs : List Ptr) (p a : Ptr)
      → Chain l null xs p
      → mem a xs ≡ true
      → (l.prev a ≡ null) ⊎ ((l.live (l.prev a) ≡ true) × ((l.prev a == null) ≡ false))
  prev-live xs p a c h = ground (arith, prev-mem null xs p a c h, Chain-live null xs p (l.prev a) c)

  pub next-live :
      (xs : List Ptr) (p a : Ptr)
      → Chain l null xs p
      → mem a xs ≡ true
      → (l.next a ≡ null) ⊎ ((l.live (l.next a) ≡ true) × ((l.next a == null) ≡ false))
  next-live xs p a c h = ground (arith, next-mem null xs p a c h, Chain-live null xs p (l.next a) c)

-- The last cell of a list, or `b` if it has none.
abbrev pub last_or : Ptr → List Ptr → Ptr
last_or b [] = b
last_or b (x ∷ xs) = last_or x xs

pub last_or-mem : (b : Ptr) (xs : List Ptr) → (last_or b xs ≡ b) ⊎ (mem (last_or b xs) xs ≡ true)
last_or-mem b [] = inl refl
last_or-mem b (x ∷ xs) = ground (arith, last_or-mem x xs)
