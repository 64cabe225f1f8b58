-- ===== src/Bf/Lru.antt =====
-- bf/lru.c: the doubly linked list of the pages in use, most recently used first.
pub mod Relink
pub mod Victim
use adb_minirel.Prelude.{ℕ, zero, suc, ◌+◌, Bool, true, ◌==◌, if◌then◌else◌}
use adb_minirel.Prelude.Result.{Result, ok, fault, out_of_fuel, ◌>>=◌}
use adb_minirel.Memory.{Ptr, null, Links, deref, load_next, load_prev, store_next, store_prev}
use adb_minirel.Unix.{pwrite}
use adb_minirel.Bf.{
  Pool, Frame, Answer, page, failed, bfe_pagefixed, bfe_incompletewrite, bf_max_bufs, is_pinned,
}
use adb_minirel.Bf.Hash.{ht_remove}

-- LRU_Push: the links and the new head.
unfoldable pub lru_push : Links → Ptr → Ptr → Result (Links × Ptr)
lru_push l head node = if head == node then ok (l, head) else do
  l ← store_prev l node null
  l ← store_next l node head
  l ← if head == null then ok l else store_prev l head node
  ok (l, node)

-- LRU_Remove: the links and the new head.
unfoldable pub lru_remove : Links → Ptr → Ptr → Result (Links × Ptr)
lru_remove l head bpage = if bpage == null then ok (l, head) else do
  head ← if head == bpage then load_next l bpage else ok head
  prev ← load_prev l bpage
  next ← load_next l bpage
  l ← if prev == null then ok l else store_next l prev next
  next ← load_next l bpage
  prev ← load_prev l bpage
  l ← if next == null then ok l else store_prev l next prev
  ok (l, head)

-- `while (bpage->nextpage) bpage = bpage->nextpage;`
unfoldable pub find_tail : ℕ → Links → Ptr → Result Ptr
find_tail zero l p = fault out_of_fuel
find_tail (suc k) l p = do next ← load_next l p; if next == null then ok p else find_tail k l next

-- `while (bpage && bpage->count > 0) bpage = bpage->prevpage;`
unfoldable pub skip_pinned : ℕ → Links → (Ptr → Frame) → Ptr → Result Ptr
skip_pinned zero l frame p = fault out_of_fuel
skip_pinned (suc k) l frame p = if p == null then ok null else do
  f ← deref l p (frame p)
  if is_pinned f.count then (do prev ← load_prev l p; skip_pinned k l frame prev) else ok p

-- `if (bpage->dirty) { lseek; write }`: false if the write returned -1. BF_FlushBuf has the same
-- lines.
unfoldable pub write_back : Pool → Ptr → Result (Pool × Bool)
write_back p bpage = do
  f ← deref p.links bpage (p.frame bpage)
  if f.dirty
      then (do
        (u, written) ← pwrite p.unix f.unixfd f.pagenum f.fpage
        ok (record p { unix = u }, written))
      else ok (p, true)

-- Rounds enough for a list of all page frames.
abbrev pub lru_fuel : ℕ
lru_fuel = bf_max_bufs + 1

-- LRU_ClearLast. The head comes by value: what LRU_Remove does to it is lost.
unfoldable pub lru_clear_last : Pool → Ptr → Result (Pool × Answer)
lru_clear_last p head = do
  tail ← find_tail lru_fuel p.links head
  bpage ← skip_pinned lru_fuel p.links p.frame tail
  if bpage == null then ok (p, failed bfe_pagefixed) else do
    (p, written) ← write_back p bpage
    if written
        then (do
          t ← ht_remove p.hash_table (p.frame bpage).fd (p.frame bpage).pagenum
          (l, _) ← lru_remove p.links head bpage
          ok (record p { links = l; hash_table = t }, page bpage))
        else ok (p, failed bfe_incompletewrite)
