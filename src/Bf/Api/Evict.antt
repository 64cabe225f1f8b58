-- ===== src/Bf/Api/Evict.antt =====
-- Taking a page out of the pool, as LRU_ClearLast (bf/lru.c) and BF_FlushBuf (bf/bf.c) do.
use adb_minirel.Prelude.{
  ◌≡◌, true, List, arith, ◌==◌, if◌then◌else◌, mem, erase, mem-erase_ne, length-erase,
}
use adb_minirel.Prelude.Result.{ok}
use adb_minirel.Memory.{Ptr}
use adb_minirel.Memory.Unlink.{unlink}
use adb_minirel.Memory.TwoLists.{null-not-used, unlink-TwoLists, unlink-IsDetached}
use adb_minirel.Bf.{HashTable, Pool}
use adb_minirel.Bf.Hash.{ht_remove}
use adb_minirel.Bf.Hash.Erase.{IsKeyed-erase, find_entry-erase}
use adb_minirel.Bf.Hash.Remove.{ht_find-ht_remove}
use adb_minirel.Bf.Lru.{lru_remove}
use adb_minirel.Bf.Lru.Relink.{lru_remove-unlink}
use adb_minirel.Bf.Api.View.{IsPool, Holds, as_entry}

module _ (p : Pool) (used free : List Ptr) (w : IsPool p used free) (a : Ptr)
    (h : mem a used ≡ true) where
  abbrev pub next_head : Ptr
  next_head = if p.lru_head == a then p.links.next a else p.lru_head

  pub lru_remove-evict : lru_remove p.links p.lru_head a ≡ ok (unlink p.links a, next_head)
  lru_remove-evict =
      lru_remove-unlink p.links used p.lru_head a w.listed w.distinct
        (null-not-used p.links used free p.lru_head p.free_list_head w.lists) h

  -- The pool without the page, whose hash entry is gone as well.
  abbrev pub evicted : HashTable → Pool
  evicted t = record p { links = unlink p.links a; lru_head = next_head; hash_table = t }

  -- HT_Remove and LRU_Remove of a page leave a well-formed pool and the page's frame.
  pub evicted-Holds :
      (t : HashTable) × (ht_remove p.hash_table (p.frame a).fd (p.frame a).pagenum ≡ ok t)
      × Holds (evicted t) (erase a used) free a
  evicted-Holds =
      let place = w.placed a h in
      let (t, chain, run, table, law) =
        ht_find-ht_remove p.hash_table w.chain (p.frame a).fd (p.frame a).pagenum place.index
          w.table place.at place.inside in
      (
        t,
        run,
        record {
          pool = record {
            lists = unlink-TwoLists p.links used free p.lru_head p.free_list_head w.lists a h;
            bounded = omega (arith, w.bounded, length-erase a used h);
            unique = IsKeyed-erase (as_entry p.frame) a used w.unique;
            placed = λ b m. w.placed b (was b m);
            chain = chain;
            table = table;
            found = λ fd pagenum i. ground (
              arith,
              law fd pagenum i.index i.at i.inside,
              w.found fd pagenum i,
              find_entry-erase (as_entry p.frame) a fd pagenum used w.unique h,
            );
          };
          detached = unlink-IsDetached p.links used free p.lru_head p.free_list_head w.lists a h;
          room = omega (arith, w.bounded, length-erase a used h);
        },
      )
    where
      was : (b : Ptr) → mem b (erase a used) ≡ true → mem b used ≡ true
      was b m = ground (arith, h, mem-erase_ne b a used)
