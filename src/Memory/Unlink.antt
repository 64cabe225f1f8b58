-- ===== src/Memory/Unlink.antt =====
-- Taking a cell out of a doubly linked list, and putting one in front of it.
use adb_minirel.Prelude.{
  ◌++◌, ◌≡◌, ◌≢◌, inl, inr, true, false, List, [], ◌∷◌, arith, ◌==◌, if◌then◌else◌, mem, IsDistinct,
  erase, Bool-cases, ◌∙◌,
}
use adb_minirel.Memory.{Ptr, null, Links, write_next, write_prev, allocate}
use adb_minirel.Memory.Chain.{last_or, last_or-mem, Chain, Chain-frame, next-mem, prev-head}

-- The two conditional writes that take `x` out.
unfoldable pub unlink : Links → Ptr → Links
unlink l x =
    let m = if l.prev x == null then l else write_next l (l.prev x) (l.next x) in
    if l.next x == null then m else write_prev m (l.next x) (l.prev x)

-- The writes that put `x` in front of the list at `p`.
unfoldable pub push_front : Links → Ptr → Ptr → Links
push_front l p x =
    let m = write_next (write_prev l x null) x p in if p == null then m else write_prev m p x

-- Outside the neighbours nothing changes.
pub unlink-next : (l : Links) (x a : Ptr) → a ≢ l.prev x → (unlink l x).next a ≡ l.next a
unfolding unlink
unlink-next l x a h = ground arith

pub unlink-prev : (l : Links) (x a : Ptr) → a ≢ l.next x → (unlink l x).prev a ≡ l.prev a
unfolding unlink
unlink-prev l x a h = ground arith

pub unlink-live : (l : Links) (x : Ptr) → (unlink l x).live ≡ l.live
unfolding unlink
unlink-live l x = ground arith

-- The cell behind `x` becomes the head of what follows.
pub unlink-head :
    (l : Links) (b x : Ptr) (xs : List Ptr) (p : Ptr)
    → Chain l b (x ∷ xs) p
    → IsDistinct (x ∷ xs)
    → mem b xs ≡ false
    → Chain (unlink l x) b xs (l.next x)
unfolding unlink
unlink-head l b x [] p c d out = c.4
unlink-head l b x (y ∷ ys) p c d out =
    let rest : Chain (unlink l x) y ys (l.next y) =
      Chain-frame l (unlink l x) y ys (l.next y) c.4.4 (λ a h. ground arith) in
    ground arith

-- The cell in front of the one that is taken out is relinked, and no other.
unlink-next_head :
    (l : Links) (b y x : Ptr) (ys : List Ptr) (p : Ptr)
    → Chain l b (y ∷ ys) p
    → IsDistinct (y ∷ ys)
    → mem x ys ≡ true
    → (unlink l x).next y ≡ (if l.next y == x then l.next x else l.next y)
unfolding unlink
unlink-next_head l b y x ys p c d h = ground (arith, prev-head l y ys (l.next y) x c.4 d.1 d.0 h)

unlink-prev_head :
    (l : Links) (b y x : Ptr) (ys : List Ptr) (p : Ptr)
    → Chain l b (y ∷ ys) p
    → IsDistinct (y ∷ ys)
    → mem x ys ≡ true
    → (unlink l x).prev y ≡ l.prev y
unlink-prev_head l b y x ys p c d h =
    unlink-prev l x y (ground (arith, next-mem l y ys (l.next y) x c.4 h))

-- Unlinking a cell is erasing its address: the list that the heap holds afterwards is the old one
-- without `x`, and its head moves only if `x` was the head.
pub unlink-erase :
    (l : Links) (b x : Ptr) (xs : List Ptr) (p : Ptr)
    → Chain l b xs p
    → IsDistinct xs
    → mem b xs ≡ false
    → mem x xs ≡ true
    → Chain (unlink l x) b (erase x xs) (if p == x then l.next x else p)
unlink-erase l b x [] p c d out h = cc
unlink-erase l b x (y ∷ ys) p c d out h = elim (Bool-cases (x == y)) [
  | inl here ↦
      let e : y ≡ x = ground arith in
      let hit : (p == x) ≡ true = ground arith in
      let rest = unlink-head l b y ys p c d (ground arith) in rw (here, hit) (rw e at rest)
  | inr there ↦
      let later : mem x ys ≡ true = ground arith in
      let rest = unlink-erase l y x ys (l.next y) c.4 d.1 d.0 later in
      let miss : (p == x) ≡ false = ground arith in
      rw (there, miss)
        (
          c.0,
          c.1,
          rw (unlink-live l x) c.2,
          unlink-prev_head l b y x ys p c d later ∙ c.3,
          rw (unlink-next_head l b y x ys p c d later) rest,
        )
]

-- A cell that is in no list goes in front.
pub push_front-cons :
    (l : Links) (x : Ptr) (xs : List Ptr) (p : Ptr)
    → Chain l null xs p
    → IsDistinct xs
    → mem x xs ≡ false
    → l.live x ≡ true
    → (x == null) ≡ false
    → Chain (push_front l p x) null (x ∷ xs) x
unfolding push_front
push_front-cons l x [] p c d out a n = ground arith
push_front-cons l x (y ∷ ys) p c d out a n =
    let rest : Chain (push_front l p x) y ys (l.next y) =
      Chain-frame l (push_front l p x) y ys (l.next y) c.4 (λ z h. ground arith) in
    ground arith

-- The writes that put the new cell `x` behind the cell `last`.
unfoldable pub push_back : Links → Ptr → Ptr → Links
push_back l last x =
    let m = write_next (write_prev (allocate l x) x null) x null in
    if last == null then m else write_prev (write_next m last x) x last

push_back-next :
    (l : Links) (b y x : Ptr) (ys : List Ptr) (p : Ptr)
    → Chain l b (y ∷ ys) p
    → IsDistinct (y ∷ ys)
    → mem x (y ∷ ys) ≡ false
    → (push_back l (last_or y ys) x).next y ≡ (if l.next y == null then x else l.next y)
unfolding push_back
push_back-next l b y x [] p c d out = ground arith
push_back-next l b y x (z ∷ zs) p c d out = ground (arith, last_or-mem z zs)

push_back-other :
    (l : Links) (last x y : Ptr)
    → (y == x) ≡ false
    → ((push_back l last x).live y ≡ l.live y) × ((push_back l last x).prev y ≡ l.prev y)
unfolding push_back
push_back-other l last x y h = ground arith

push_back-nil :
    (l : Links) (b x p : Ptr)
    → p ≡ null
    → (x == null) ≡ false
    → (b == x) ≡ false
    → Chain (push_back l b x) b (x ∷ []) (if p == null then x else p)
unfolding push_back
push_back-nil l b x p c n e = ground arith

-- A new cell goes behind the last one.
pub push_back-append :
    (l : Links) (b x : Ptr) (xs : List Ptr) (p : Ptr)
    → Chain l b xs p
    → IsDistinct xs
    → mem x xs ≡ false
    → (x == null) ≡ false
    → (b == x) ≡ false
    → Chain (push_back l (last_or b xs) x) b (xs ++ x ∷ []) (if p == null then x else p)
push_back-append l b x [] p c d out n e = push_back-nil l b x p c n e
push_back-append l b x (y ∷ ys) p c d out n e =
    let rest = push_back-append l y x ys (l.next y) c.4 d.1 (ground arith) n (ground arith) in
    let full : (p == null) ≡ false = ground arith in
    let same = push_back-other l (last_or y ys) x y (ground arith) in
    rw full (c.0, c.1, same.0 ∙ c.2, same.1 ∙ c.3, rw (push_back-next l b y x ys p c d out) rest)
