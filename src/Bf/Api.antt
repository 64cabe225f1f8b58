-- ===== src/Bf/Api.antt =====
-- bf/bf.c: the interface of the buffer pool.
pub mod Init
pub mod View
pub mod Spec
pub mod Frames
pub mod Unpin
pub mod Touch
pub mod Evict
pub mod Install
pub mod Take
pub mod Fill
pub mod Get
pub mod Flush
pub mod Drop
pub mod Durable
pub mod Readback
pub mod Codes
pub mod Stale
use adb_minirel.Prelude.{ℕ, zero, suc, Bool, true, false, ◌==◌, if◌then◌else◌}
use adb_minirel.Prelude.Int.{ℤ, eq_ℤ}
use adb_minirel.Prelude.Result.{Result, ok, fault, out_of_fuel, ◌>>=◌}
use adb_minirel.Memory.{Ptr, null, update, deref, load_next, write_next, write_prev}
use adb_minirel.Unix.{Unix, Reading, read_error, read_nothing, read_page, pread, Buf}
use adb_minirel.Bf.{
  BfCode, bfe_ok, bfe_pagefixed, bfe_pageunfixed, bfe_pageinbuf, bfe_pagenotinbuf,
  bfe_incompleteread, bfe_incompletewrite, BfReq, Frame, is_pinned, short_inc, short_dec, Pool,
  Answer, page, failed, bf_max_bufs, bf_hash_tbl_size,
}
use adb_minirel.Bf.FreeList.{fl_init, fl_pop, fl_push}
use adb_minirel.Bf.Hash.{ht_init, ht_find, ht_add, ht_remove}
use adb_minirel.Bf.Lru.{lru_push, lru_remove, lru_clear_last, write_back, lru_fuel}

abbrev pub set_frame : Pool → Ptr → Frame → Pool
set_frame p a f = record p { frame = update p.frame a f }

-- BF_Init. `lru_head` is left as it is: the loader set it to null.
unfoldable pub bf_init : Pool → Result Pool
bf_init p = do
  (l, head, fresh) ← fl_init p.links p.fresh bf_max_bufs
  ok (record p {
    links = l;
    fresh = fresh;
    free_list_head = head;
    hash_table = ht_init p.hash_table bf_hash_tbl_size;
  })

-- initialize_bpage_no_read
unfoldable pub initialize_bpage_no_read : Pool → BfReq → Ptr → Result Pool
initialize_bpage_no_read p bq a = do
  f ← deref p.links a (p.frame a)
  ok
      (record (set_frame p a (record {
        fpage = f.fpage;
        dirty = false;
        count = 1;
        pagenum = bq.pagenum;
        fd = bq.fd;
        unixfd = bq.unixfd;
      })) { links = write_prev (write_next p.links a null) a null })

-- What `read` leaves in the page's buffer. A read of no byte leaves the old bytes there.
abbrev pub fill : Pool → Ptr → Reading → Pool
fill p a read_error = p
fill p a read_nothing = p
fill p a (read_page b) = set_frame p a (record (p.frame a) { fpage = b })

abbrev pub is_error : Reading → Bool
is_error read_error = true
is_error read_nothing = false
is_error (read_page b) = false

-- initialize_bpage: true if the read returned -1.
unfoldable pub initialize_bpage : Pool → BfReq → Ptr → Result (Pool × Bool)
initialize_bpage p bq a = do
  p ← initialize_bpage_no_read p bq a
  (u, r) ← pread p.unix bq.unixfd bq.pagenum
  ok (fill (record p { unix = u }) a r, is_error r)

-- The lines that BF_GetBuf and BF_AllocBuf share: a frame from the free list, or the victim.
unfoldable pub take_frame : Pool → Result (Pool × Answer)
take_frame p = if p.free_list_head == null then lru_clear_last p p.lru_head else do
  (a, head) ← fl_pop p.links p.free_list_head
  ok (record p { free_list_head = head }, page a)

-- The lines at the end of both: LRU_Push and HT_Add.
unfoldable pub install : Pool → Ptr → Result Pool
install p a = do
  (l, head) ← lru_push p.links p.lru_head a
  t ← ht_add p.hash_table a (p.frame a)
  ok (record p { links = l; lru_head = head; hash_table = t })

-- BF_GetBuf from the point where a frame was found.
unfoldable pub read_in : BfReq → Pool × Answer → Result (Pool × Answer)
read_in bq (p, failed e) = ok (p, failed e)
read_in bq (p, page a) = do
  (p, bad) ← initialize_bpage p bq a
  if bad then ok (p, failed bfe_incompleteread) else do p ← install p a; ok (p, page a)

abbrev pub bump_count : Pool → Ptr → (ℕ → ℕ) → Pool
bump_count p a change = set_frame p a (record (p.frame a) { count = change (p.frame a).count })

-- BF_GetBuf
unfoldable pub bf_get_buf : Pool → BfReq → Result (Pool × Answer)
bf_get_buf p bq = do
  a ← ht_find p.hash_table bq.fd bq.pagenum
  if a == null
      then take_frame p >>= read_in bq
      else do p ← deref p.links a (bump_count p a short_inc); ok (p, page a)

-- BF_AllocBuf from the point where a frame was found.
unfoldable pub set_up : BfReq → Pool × Answer → Result (Pool × Answer)
set_up bq (p, failed e) = ok (p, failed e)
set_up bq (p, page a) = do p ← initialize_bpage_no_read p bq a; p ← install p a; ok (p, page a)

-- BF_AllocBuf
unfoldable pub bf_alloc_buf : Pool → BfReq → Result (Pool × Answer)
bf_alloc_buf p bq = do
  a ← ht_find p.hash_table bq.fd bq.pagenum
  if a == null then take_frame p >>= set_up bq else ok (p, failed bfe_pageinbuf)

-- BF_UnpinBuf
unfoldable pub bf_unpin_buf : Pool → BfReq → Result (Pool × BfCode)
bf_unpin_buf p bq = do
  a ← ht_find p.hash_table bq.fd bq.pagenum
  if a == null then ok (p, bfe_pagenotinbuf) else do
    f ← deref p.links a (p.frame a)
    if is_pinned f.count then ok (bump_count p a short_dec, bfe_ok) else ok (p, bfe_pageunfixed)

-- BF_TouchBuf
unfoldable pub bf_touch_buf : Pool → BfReq → Result (Pool × BfCode)
bf_touch_buf p bq = do
  a ← ht_find p.hash_table bq.fd bq.pagenum
  if a == null then ok (p, bfe_pagenotinbuf) else do
    f ← deref p.links a (p.frame a)
    if is_pinned f.count
        then (do
          let p = set_frame p a (record f { dirty = true })
          (l, head) ← lru_remove p.links p.lru_head a
          (l, head) ← lru_push l head a
          ok (record p { links = l; lru_head = head }, bfe_ok))
        else ok (p, bfe_pageunfixed)

-- The steps of BF_FlushBuf that release a page of the file.
unfoldable pub release : Pool → Ptr → Result Pool
release p a = do
  t ← ht_remove p.hash_table (p.frame a).fd (p.frame a).pagenum
  (l, head) ← lru_remove p.links p.lru_head a
  (l, free_head) ← fl_push l p.free_list_head a
  ok (record p { links = l; lru_head = head; free_list_head = free_head; hash_table = t })

-- The loop of BF_FlushBuf.
unfoldable pub flush_loop : ℕ → Pool → ℤ → Ptr → Result (Pool × BfCode)
flush_loop zero p fd a = fault out_of_fuel
flush_loop (suc k) p fd a = if a == null then ok (p, bfe_ok) else do
  next ← load_next p.links a
  let skip = flush_loop k p fd next
  if eq_ℤ (p.frame a).fd fd
      then (if is_pinned (p.frame a).count then ok (p, bfe_pagefixed) else do
        (p, written) ← write_back p a
        if written
            then (do p ← release p a; flush_loop k p fd next)
            else ok (p, bfe_incompletewrite))
      else skip

-- BF_FlushBuf
unfoldable pub bf_flush_buf : Pool → ℤ → Result (Pool × BfCode)
bf_flush_buf p fd = flush_loop lru_fuel p fd p.lru_head
