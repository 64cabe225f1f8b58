-- ===== src/Bf/Lru/Victim.antt =====
-- The two loops of LRU_ClearLast in bf/lru.c, and the page that they choose.
use adb_minirel.Prelude.{
  ℕ, zero, suc, ◌+◌, ◌-◌, ◌<◌, ◌≡◌, refl, ◌⊎◌, inl, true, false, List, [], ◌∷◌, arith, ◌==◌,
  if◌then◌else◌, mem, length, ◌∙◌,
}
use adb_minirel.Prelude.Result.{ok, ◌>>=◌}
use adb_minirel.Memory.{Ptr, null, Links}
use adb_minirel.Memory.Chain.{Chain, last_or}
use adb_minirel.Bf.{Frame, is_pinned}
use adb_minirel.Bf.Lru.{find_tail, skip_pinned, lru_fuel}

-- The least recently used page that is not pinned, or the null pointer.
unfoldable pub last_unpinned : (Ptr → Frame) → List Ptr → Ptr
last_unpinned f [] = null
last_unpinned f (x ∷ xs) =
    let later = last_unpinned f xs in
    if later == null then (if is_pinned (f x).count then null else x) else later

pub find_tail-last :
    (l : Links) (b x : Ptr) (xs : List Ptr) (p : Ptr) (fuel : ℕ)
    → Chain l b (x ∷ xs) p
    → length xs < fuel
    → find_tail fuel l p ≡ ok (last_or x xs)
unfolding find_tail
find_tail-last l b x xs p zero c h = absurd (omega arith)
find_tail-last l b x [] p (suc k) c h = ground arith
find_tail-last l b x (y ∷ ys) p (suc k) c h =
    ground (arith, find_tail-last l x y ys (l.next x) k c.4 (omega arith))

skip_pinned-step :
    (l : Links) (f : Ptr → Frame) (b x : Ptr) (xs : List Ptr) (p : Ptr) (k : ℕ)
    → Chain l b (x ∷ xs) p
    → skip_pinned (suc k) l f x ≡ (if is_pinned (f x).count then skip_pinned k l f b else ok x)
unfolding skip_pinned
skip_pinned-step l f b x xs p k c = ground arith

skip_pinned-back :
    (l : Links) (f : Ptr → Frame) (b : Ptr) (xs : List Ptr) (p : Ptr) (fuel k : ℕ)
    → Chain l b xs p
    → fuel ≡ length xs + k
    → skip_pinned fuel l f (last_or b xs)
      ≡ (if last_unpinned f xs == null then skip_pinned k l f b else ok (last_unpinned f xs))
unfolding last_unpinned
skip_pinned-back l f b [] p fuel k c h = let e : fuel ≡ k = omega arith in rw e
skip_pinned-back l f b (x ∷ xs) p fuel k c h =
    skip_pinned-back l f x xs (l.next x) fuel (suc k) c.4 (omega arith)
    ∙ ground (arith, skip_pinned-step l f b x xs p k c)

-- The backward loop ends at the least recently used page that is not pinned.
pub skip_pinned-last_unpinned :
    (l : Links) (f : Ptr → Frame) (xs : List Ptr) (p : Ptr)
    → Chain l null xs p
    → length xs < lru_fuel
    → skip_pinned lru_fuel l f (last_or null xs) ≡ ok (last_unpinned f xs)
unfolding skip_pinned
skip_pinned-last_unpinned l f xs p c h =
    skip_pinned-back l f null xs p lru_fuel (suc (lru_fuel - length xs - 1)) c (omega arith)
    ∙ ground arith

pub last_unpinned-mem :
    (f : Ptr → Frame) (xs : List Ptr)
    → (last_unpinned f xs ≡ null)
      ⊎ ((mem (last_unpinned f xs) xs ≡ true) × (is_pinned (f (last_unpinned f xs)).count ≡ false))
unfolding last_unpinned
last_unpinned-mem f [] = inl refl
last_unpinned-mem f (x ∷ xs) = ground (arith, last_unpinned-mem f xs)

-- The two loops one after the other, on a list that is not empty.
pub find_tail-skip_pinned :
    (l : Links) (f : Ptr → Frame) (xs : List Ptr) (p : Ptr)
    → Chain l null xs p
    → length xs < lru_fuel
    → (xs ≡ [] → ⊥)
    → (find_tail lru_fuel l p >>= skip_pinned lru_fuel l f) ≡ ok (last_unpinned f xs)
unfolding last_unpinned
find_tail-skip_pinned l f [] p c h some_page = absurd (some_page refl)
find_tail-skip_pinned l f (x ∷ xs) p c h some_page =
    let tail = find_tail-last l null x xs p lru_fuel c (omega arith) in
    let back = skip_pinned-last_unpinned l f (x ∷ xs) p c h in rw tail back
