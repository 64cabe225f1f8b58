-- ===== src/Bf/Lru/Relink.antt =====
-- LRU_Push and LRU_Remove of bf/lru.c on a well-formed list.
use adb_minirel.Prelude.{
  ◌≡◌, ◌⊎◌, inl, inr, true, false, List, [], ◌∷◌, arith, ◌==◌, if◌then◌else◌, mem, IsDistinct,
  erase, Bool-cases,
}
use adb_minirel.Prelude.Result.{ok}
use adb_minirel.Memory.{Ptr, null, Links}
use adb_minirel.Memory.Chain.{Chain, Chain-live, prev-live, next-live, prev-ne_self, head-ne}
use adb_minirel.Memory.Unlink.{unlink, unlink-erase, push_front, push_front-cons}
use adb_minirel.Bf.Lru.{lru_push, lru_remove}

head-live :
    (l : Links) (xs : List Ptr) (head : Ptr)
    → Chain l null xs head
    → (head ≡ null) ⊎ ((l.live head ≡ true) × ((head == null) ≡ false))
head-live l [] head c = inl c
head-live l (x ∷ xs) head c = ground arith

module _ (l : Links) (xs : List Ptr) (head a : Ptr) (c : Chain l null xs head) where
  pub lru_remove-unlink :
      IsDistinct xs
      → mem null xs ≡ false
      → mem a xs ≡ true
      → lru_remove l head a ≡ ok (unlink l a, if head == a then l.next a else head)
  unfolding lru_remove unlink
  lru_remove-unlink d out h = ground (
    arith,
    Chain-live l null xs head a c h,
    prev-live l xs head a c h,
    next-live l xs head a c h,
    prev-ne_self l null xs head a c d out h,
  )

  pub lru_push-push_front :
      (head == a) ≡ false
      → l.live a ≡ true
      → (a == null) ≡ false
      → lru_push l head a ≡ ok (push_front l head a, a)
  unfolding lru_push push_front
  lru_push-push_front miss live n = ground (arith, head-live l xs head c)

-- LRU_Remove of a page of a well-formed LRU list without repetitions follows no bad pointer, and
-- the list that the heap then holds from the new head on is the old one without that page, in the
-- same order.
pub lru_remove-erase :
    (l : Links) (xs : List Ptr) (head a : Ptr)
    → Chain l null xs head
    → IsDistinct xs
    → mem a xs ≡ true
    → (l' : Links) × (head' : Ptr) × (lru_remove l head a ≡ ok (l', head'))
      × Chain l' null (erase a xs) head'
lru_remove-erase l xs head a c d h =
    let out : mem null xs ≡ false = elim (Bool-cases (mem null xs)) [
      | inl m ↦ absurd (let k = Chain-live l null xs head null c m in ground arith)
      | inr m ↦ m
    ] in
    (
      unlink l a,
      if head == a then l.next a else head,
      lru_remove-unlink l xs head a c d out h,
      unlink-erase l null a xs head c d out h,
    )

-- LRU_Push of an allocated page that is not in a well-formed LRU list without repetitions follows
-- no bad pointer, and the list that the heap then holds is the old one with that page in front.
pub lru_push-cons :
    (l : Links) (xs : List Ptr) (head a : Ptr)
    → Chain l null xs head
    → IsDistinct xs
    → mem a xs ≡ false
    → l.live a ≡ true
    → (a == null) ≡ false
    → (l' : Links) × (lru_push l head a ≡ ok (l', a)) × Chain l' null (a ∷ xs) a
lru_push-cons l xs head a c d out live n = (
  push_front l head a,
  lru_push-push_front l xs head a c (head-ne l null xs head a c out n) live n,
  push_front-cons l a xs head c d out live n,
)
