-- ===== src/Bf/Tests/Witnesses.antt =====
-- The theorems about bf/ at the pools of Bf/Tests.antt.
use adb_minirel.Prelude.{
  ℕ, ◌<◌, ◌≡◌, refl, true, false, List, [], ◌∷◌, map, arith, ◌==◌, if◌then◌else◌, length,
}
use adb_minirel.Prelude.Int.{ℤ, pos, ◌+ℤ◌}
use adb_minirel.Prelude.Result.{Result, ok, fault, dangling_pointer}
use adb_minirel.Memory.{Ptr, null, Links}
use adb_minirel.Memory.Chain.{Chain}
use adb_minirel.Bf.{
  BfCode, Frame, Pool, HashTable, BfReq, page, bfe_ok, bf_hash_tbl_size, bf_max_bufs,
}
use adb_minirel.Bf.FreeList.{fl_clean}
use adb_minirel.Bf.FreeList.Clean.{fl_clean-dangling}
use adb_minirel.Bf.Hash.{ht_index, ht_find, ht_find_loop, ht_add, ht_remove, same_key}
use adb_minirel.Bf.Hash.Keys.{find_entry}
use adb_minirel.Bf.Hash.Table.{IsTable}
use adb_minirel.Bf.Hash.Find.{ht_find-find_entry}
use adb_minirel.Bf.Hash.Add.{ht_find-ht_add}
use adb_minirel.Bf.Hash.Remove.{ht_find-ht_remove}
use adb_minirel.Bf.Lru.{lru_clear_last, lru_remove}
use adb_minirel.Bf.Lru.Victim.{last_unpinned}
use adb_minirel.Bf.Api.{
  flush_loop, bf_init, bf_get_buf, bf_alloc_buf, bf_touch_buf, bf_unpin_buf, bf_flush_buf,
}
use adb_minirel.Bf.Api.Spec.{
  spec_get, spec_alloc, spec_touch, spec_unpin, spec_flush, spec_write_back,
}
use adb_minirel.Bf.Api.View.{IsPool, view}
use adb_minirel.Bf.Api.Init.{bf_init-IsPool}
use adb_minirel.Bf.Api.Unpin.{bf_unpin_buf-spec_unpin}
use adb_minirel.Bf.Api.Touch.{bf_touch_buf-spec_touch}
use adb_minirel.Bf.Api.Take.{Takes, lru_clear_last-Takes}
use adb_minirel.Bf.Api.Get.{bf_get_buf-spec_get, bf_alloc_buf-spec_alloc}
use adb_minirel.Bf.Api.Fill.{Refines}
use adb_minirel.Bf.Api.Flush.{Flushes, bf_flush_buf-spec_flush}
use adb_minirel.Bf.Api.Readback.{request_of, bf_get_buf-bf_flush_buf}
use adb_minirel.Unix.{pwrite, write_at}
use adb_minirel.Bf.Lru.{write_back}
use adb_minirel.Bf.Hash.{ht_remove_loop, ht_unlink}
use adb_minirel.Bf.FreeList.{fl_push}
use adb_minirel.Bf.Api.{release}
use adb_minirel.Bf.Api.Stale.{bf_alloc_buf-loses_list}
use adb_minirel.Bf.Tests.{
  disk, two_pages, two_chain, two_entries, two_frames, two_links, place_3, place_5,
  two_entries-IsTable, two_pages-IsPool, full_pool-IsPool, index_3, index_5,
}

abbrev used : List Ptr
used = 2 ∷ 1 ∷ []

abbrev request_3 : BfReq
request_3 = record { fd = pos 3; unixfd = 7; pagenum = pos 4 }

abbrev request_5 : BfReq
request_5 = record { fd = pos 5; unixfd = 7; pagenum = pos 0 }

-- Frame 1 pinned once, frame 2 not, frame 3 free.
abbrev pinned_1 : Pool
pinned_1 = two_pages 1 0 3

-- No frame is free, and the page at the end of the list is not pinned.
abbrev evicting : Pool
evicting = two_pages 0 1 0

evicting-safe : (2 == last_unpinned (two_frames 0 1) used) ≡ false
unfolding last_unpinned
evicting-safe = refl

bf_get_buf-spec_get_example :
    Refines (bf_get_buf pinned_1 request_5) (spec_get request_5 (view pinned_1 used (3 ∷ [])))
bf_get_buf-spec_get_example =
    bf_get_buf-spec_get pinned_1 used (3 ∷ []) (two_pages-IsPool 1 0) request_5 place_5
      (λ absent full. cc)

bf_alloc_buf-spec_alloc_example :
    Refines (bf_alloc_buf evicting request_5) (spec_alloc request_5 (view evicting used []))
bf_alloc_buf-spec_alloc_example =
    bf_alloc_buf-spec_alloc evicting used [] (full_pool-IsPool 0 1) request_5 place_5
      (λ absent full. evicting-safe)

bf_unpin_buf-spec_unpin_example :
    (p' : Pool) × (bf_unpin_buf pinned_1 request_3
      ≡ ok (p', (spec_unpin request_3 (view pinned_1 used (3 ∷ []))).1))
    × IsPool p' used (3 ∷ [])
    × (view p' used (3 ∷ []) ≡ (spec_unpin request_3 (view pinned_1 used (3 ∷ []))).0)
bf_unpin_buf-spec_unpin_example =
    bf_unpin_buf-spec_unpin pinned_1 used (3 ∷ []) (two_pages-IsPool 1 0) request_3 place_3

bf_touch_buf-spec_touch_example :
    (p' : Pool) × (used' : List Ptr) × (bf_touch_buf pinned_1 request_3
      ≡ ok (p', (spec_touch request_3 (view pinned_1 used (3 ∷ []))).1))
    × IsPool p' used' (3 ∷ [])
    × (view p' used' (3 ∷ []) ≡ (spec_touch request_3 (view pinned_1 used (3 ∷ []))).0)
bf_touch_buf-spec_touch_example =
    bf_touch_buf-spec_touch pinned_1 used (3 ∷ []) (two_pages-IsPool 1 0) request_3 place_3

bf_flush_buf-spec_flush_example :
    Flushes (bf_flush_buf evicting (pos 3)) (spec_flush (pos 3) (view evicting used []))
bf_flush_buf-spec_flush_example =
    bf_flush_buf-spec_flush evicting used [] (full_pool-IsPool 0 1) (pos 3)

lru_clear_last-Takes_example :
    Takes evicting used [] (full_pool-IsPool 0 1) (lru_clear_last evicting 2)
lru_clear_last-Takes_example =
    lru_clear_last-Takes evicting used (full_pool-IsPool 0 1) evicting-safe

-- A file of which no page is in the pool.
flush_other : bf_flush_buf evicting (pos 9) ≡ ok (evicting, bfe_ok)
unfolding bf_flush_buf flush_loop
flush_other = refl

-- Without a page that is not pinned but the head, the list is lost.
abbrev head_only : Pool
head_only = two_pages 1 0 0

head_only-least : last_unpinned (two_frames 1 0) used ≡ 2
unfolding last_unpinned
head_only-least = refl

head_only-good : (spec_write_back (two_frames 1 0 2) disk).1 ≡ true
unfolding spec_write_back
head_only-good = refl

bf_alloc_buf-loses_list_example :
    (p' : Pool) × (bf_alloc_buf head_only request_5 ≡ ok (p', page 2))
    × Chain p'.links null (2 ∷ []) p'.lru_head
bf_alloc_buf-loses_list_example =
    bf_alloc_buf-loses_list head_only 2 (1 ∷ []) (full_pool-IsPool 1 0) head_only-least
      head_only-good request_5 place_5 refl

-- The hash table.
ht_find-find_entry_example :
    ht_find two_entries (pos 3) (pos 4)
    ≡ ok (find_entry two_entries.entry (pos 3) (pos 4) (1 ∷ 2 ∷ []))
ht_find-find_entry_example =
    ht_find-find_entry two_entries two_chain (pos 3) (pos 4) 4 two_entries-IsTable index_3
      (omega arith)

abbrev frame_5 : Frame
frame_5 = record { fpage = []; dirty = false; count = 1; pagenum = pos 0; fd = pos 5; unixfd = 7 }

missing_5 : ht_find two_entries (pos 5) (pos 0) ≡ ok null
unfolding ht_find ht_find_loop ht_index ◌+ℤ◌
missing_5 = refl

ht_find-ht_add_example :
    (t' : HashTable) × (chain' : ℕ → List Ptr) × (ht_add two_entries 3 frame_5 ≡ ok t')
    × IsTable t' chain'
    × ((fd pagenum : ℤ) (j : ℕ)
        → ht_index fd pagenum ≡ ok j
        → j < bf_hash_tbl_size
        → ht_find t' fd pagenum
          ≡ (if same_key (pos 5) (pos 0) fd pagenum then ok 3 else ht_find two_entries fd pagenum))
ht_find-ht_add_example =
    ht_find-ht_add two_entries two_chain 3 frame_5 0 two_entries-IsTable index_5 (omega arith)
      missing_5 refl

ht_find-ht_remove_example :
    (t' : HashTable) × (chain' : ℕ → List Ptr) × (ht_remove two_entries (pos 3) (pos 4) ≡ ok t')
    × IsTable t' chain'
    × ((fd pagenum : ℤ) (j : ℕ)
        → ht_index fd pagenum ≡ ok j
        → j < bf_hash_tbl_size
        → ht_find t' fd pagenum ≡ (
            if same_key (pos 3) (pos 4) fd pagenum
            then ok null
            else ht_find two_entries fd pagenum))
ht_find-ht_remove_example =
    ht_find-ht_remove two_entries two_chain (pos 3) (pos 4) 4 two_entries-IsTable index_3
      (omega arith)

-- The program's start, and the free list.
abbrev no_links : Links
no_links = record { live = λ a. false; next = λ a. 0; prev = λ a. 0 }

abbrev at_start : Pool
at_start = record {
  links = no_links;
  frame = two_frames 0 0;
  fresh = 1;
  free_list_head = null;
  lru_head = null;
  hash_table = record { heads = []; links = no_links; entry = two_entries.entry; fresh = 1 };
  unix = disk;
}

bf_init-IsPool_example :
    (p' : Pool) × (free : List Ptr) × (bf_init at_start ≡ ok p')
    × IsPool p' [] free
    × (length free ≡ bf_max_bufs)
    × (view p' [] free ≡ record { resident = []; spare = map (two_frames 0 0) free; unix = disk })
bf_init-IsPool_example = bf_init-IsPool at_start refl (omega arith) (omega arith)

fl_clean-dangling_example : fl_clean 2 two_links 2 ≡ fault dangling_pointer
fl_clean-dangling_example =
    fl_clean-dangling 0 two_links 2 1 [] 2 (refl, refl, refl, (refl, refl, refl, refl))
      (refl, (refl, tt))

-- The dirty page of the file 3 is written when that file is flushed.
abbrev pool_of : Result (Pool × BfCode) → Pool
pool_of (ok (p, code)) = p
pool_of (fault e) = evicting

abbrev after_flush : Pool
after_flush = pool_of (bf_flush_buf evicting (pos 3))

after_flush-run : bf_flush_buf evicting (pos 3) ≡ ok (after_flush, bfe_ok)
unfolding bf_flush_buf flush_loop write_back pwrite write_at release ht_remove ht_remove_loop
    ht_unlink ht_index ◌+ℤ◌ lru_remove fl_push
after_flush-run = refl

after_flush-free : (after_flush.free_list_head == null) ≡ false
unfolding bf_flush_buf flush_loop write_back pwrite write_at release ht_remove ht_remove_loop
    ht_unlink ht_index ◌+ℤ◌ lru_remove fl_push
after_flush-free = refl

after_flush-good : after_flush.unix.errors after_flush.unix.calls ≡ false
unfolding bf_flush_buf flush_loop write_back pwrite write_at release ht_remove ht_remove_loop
    ht_unlink ht_index ◌+ℤ◌ lru_remove fl_push
after_flush-good = refl

bf_get_buf-bf_flush_buf_example :
    (p'' : Pool) × (b : Ptr) × (bf_get_buf after_flush (request_of (two_frames 0 1 1))
      ≡ ok (p'', page b))
    × ((p''.frame b).fpage ≡ 1 ∷ [])
bf_get_buf-bf_flush_buf_example =
    bf_get_buf-bf_flush_buf evicting used [] after_flush 1 1 (full_pool-IsPool 0 1) refl refl refl
      after_flush-run after_flush-free after_flush-good
