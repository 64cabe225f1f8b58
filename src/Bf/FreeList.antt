-- ===== src/Bf/FreeList.antt =====
-- bf/free_list.c: the free list, a singly linked list of page frames.
pub mod Init
pub mod Clean
use adb_minirel.Prelude.{ℕ, zero, suc, ◌-◌, ◌+◌, ◌==◌, if◌then◌else◌}
use adb_minirel.Prelude.Result.{Result, ok, fault, out_of_fuel, ◌>>=◌}
use adb_minirel.Memory.{Ptr, null, Links, load_next, store_next, allocate, free}

-- The loop of FL_Init, `rounds` iterations: the last cell and the address that comes next.
unfoldable pub fl_init_loop : ℕ → Links → Ptr → Ptr → Result (Links × Ptr × Ptr)
fl_init_loop zero l node fresh = ok (l, node, fresh)
fl_init_loop (suc rounds) l node fresh = do
  l ← store_next (allocate l fresh) node fresh
  fl_init_loop rounds l fresh (suc fresh)

-- FL_Init: the links, the head and the address that `malloc` gives next.
unfoldable pub fl_init : Links → Ptr → ℕ → Result (Links × Ptr × Ptr)
unfolding fl_init_loop
fl_init l fresh size = do
  (l, node, next_fresh) ← fl_init_loop (size - 1) (allocate l fresh) fresh (suc fresh)
  l ← store_next l node null
  ok (l, fresh, next_fresh)

-- FL_Clean, with fuel for its loop.
unfoldable pub fl_clean : ℕ → Links → Ptr → Result Links
fl_clean zero l node = fault out_of_fuel
fl_clean (suc k) l node =
    if node == null
    then ok l
    else do next ← load_next l node; l ← free l next; l ← free l node; fl_clean k l next

-- FL_Pop: the page and the new head.
unfoldable pub fl_pop : Links → Ptr → Result (Ptr × Ptr)
fl_pop l head = do next ← load_next l head; ok (head, next)

-- FL_Push: the new head.
unfoldable pub fl_push : Links → Ptr → Ptr → Result (Links × Ptr)
fl_push l head page = do l ← store_next l page head; ok (l, page)
