-- ===== src/Bf/FreeList/Init.antt =====
-- FL_Init of bf/free_list.c, and the list that it makes.
use adb_minirel.Prelude.{
  ℕ, zero, suc, ◌+◌, ◌-◌, ◌≤◌, ◌<◌, ◌≡◌, refl, true, false, List, [], ◌∷◌, arith, ◌==◌, mem,
  IsDistinct, length,
}
use adb_minirel.Prelude.Result.{ok}
use adb_minirel.Memory.{Ptr, null, Links, write_next, allocate}
use adb_minirel.Memory.Chain.{Forward}
use adb_minirel.Bf.FreeList.{fl_init_loop, fl_init}

-- The `n` addresses from `a` on.
abbrev pub range : Ptr → ℕ → List Ptr
range a zero = []
range a (suc n) = a ∷ range (suc a) n

pub length-range : (a : Ptr) (n : ℕ) → length (range a n) ≡ n
length-range a zero = refl
length-range a (suc n) = omega (arith, length-range (suc a) n)

range-above : (b a : Ptr) (n : ℕ) → b < a → mem b (range a n) ≡ false
range-above b a zero h = refl
range-above b a (suc n) h = ground (arith, range-above b (suc a) n)

pub range-IsDistinct : (a : Ptr) (n : ℕ) → IsDistinct (range a n)
range-IsDistinct a zero = tt
range-IsDistinct a (suc n) = (range-above a (suc a) n (omega arith), range-IsDistinct (suc a) n)

-- What the loop has built once its last cell is closed off: a list from `node` on.
record Built (l l' : Links) (node last fresh rounds : ℕ) : Type 0 where
  spare : Forward (write_next l' last null) (node ∷ range fresh rounds) node
  above : node ≤ last
  live : (a : Ptr) → a < node → l'.live a ≡ l.live a
  next : (a : Ptr) → a < node → l'.next a ≡ l.next a
  last_live : (l'.live last ≡ true) × ((last == null) ≡ false)

fl_init_loop-Built :
    (rounds : ℕ) (l : Links) (node fresh : Ptr)
    → 0 < node
    → node < fresh
    → l.live node ≡ true
    → (l' : Links) × (last : Ptr) × (fl_init_loop rounds l node fresh
        ≡ ok (l', last, fresh + rounds))
      × Built l l' node last fresh rounds
unfolding fl_init_loop
fl_init_loop-Built zero l node fresh n below live = (
  l,
  node,
  ground arith,
  record {
    spare = ground arith;
    above = omega arith;
    live = λ a h. refl;
    next = λ a h. refl;
    last_live = ground arith;
  },
)
fl_init_loop-Built (suc rounds) l node fresh n below live =
    let l₁ : Links = write_next (allocate l fresh) node fresh in
    let (l', last, run, w) =
      fl_init_loop-Built rounds l₁ fresh (suc fresh) (omega arith) (omega arith) (ground arith) in
    let same : fresh + suc rounds ≡ suc fresh + rounds = omega arith in
    let node_next : l'.next node ≡ fresh = ground (arith, w.next node) in
    let node_live : l'.live node ≡ true = ground (arith, w.live node) in
    let open_end : (write_next l' last null).next node ≡ fresh = ground (arith, w.above) in
    (
      l',
      last,
      ground (arith, run),
      record {
        spare = (refl, ground arith, node_live, rw open_end w.spare);
        above = omega (arith, w.above);
        live = λ a h. ground (arith, w.live a);
        next = λ a h. ground (arith, w.next a);
        last_live = w.last_live;
      },
    )

-- FL_Init of a positive size succeeds, where malloc gives addresses that are not null, and makes a
-- free list of that many new cells in the order of their addresses.
pub fl_init-Forward :
    (l : Links) (fresh : Ptr) (size : ℕ)
    → 0 < fresh
    → 0 < size
    → (l' : Links) × (fl_init l fresh size ≡ ok (l', fresh, fresh + size))
      × Forward l' (range fresh size) fresh
unfolding fl_init
fl_init-Forward l fresh zero n k = absurd (omega arith)
fl_init-Forward l fresh (suc size) n k =
    let (l', last, run, w) =
      fl_init_loop-Built size (allocate l fresh) fresh (suc fresh) n (omega arith) (ground arith) in
    let same : fresh + suc size ≡ suc fresh + size = omega arith in
    let less : suc size - 1 ≡ size = omega arith in
    (write_next l' last null, ground (arith, run, w.last_live), w.spare)
