-- ===== src/Bf/Api/Stale.antt =====
-- BF_AllocBuf of bf/bf.c where LRU_ClearLast (bf/lru.c) chooses the head of the list. LRU_ClearLast
-- has the head by value, so that `lru_head` still leads to the page that was taken.
use adb_minirel.Prelude.{◌≡◌, true, List, [], ◌∷◌, arith, ◌∙◌, ap, mem}
use adb_minirel.Prelude.Result.{ok, ◌>>=◌}
use adb_minirel.Memory.{Ptr, null, Links, write_next, write_prev, update}
use adb_minirel.Memory.Chain.{Chain}
use adb_minirel.Memory.Unlink.{unlink}
use adb_minirel.Unix.{Unix}
use adb_minirel.Bf.{HashTable, Frame, Pool, page, BfReq}
use adb_minirel.Bf.Hash.{ht_find, ht_add, ht_remove}
use adb_minirel.Bf.Hash.Erase.{find_entry-erase}
use adb_minirel.Bf.Hash.Add.{ht_find-ht_add}
use adb_minirel.Bf.Lru.{lru_clear_last, lru_push}
use adb_minirel.Bf.Lru.Victim.{last_unpinned}
use adb_minirel.Bf.Api.{
  set_frame, initialize_bpage_no_read, install, set_up, take_frame, bf_alloc_buf,
}
use adb_minirel.Bf.Api.Spec.{spec_write_back, set_up_frame}
use adb_minirel.Bf.Api.View.{IsPool, HasPlace, as_entry, find_page}
use adb_minirel.Bf.Api.Frames.{page-live}
use adb_minirel.Bf.Api.Evict.{evicted-Holds, lru_remove-evict}
use adb_minirel.Bf.Api.Take.{clear_last_walk, write_back-spec, unix-IsPool}

module _ (p : Pool) (x : Ptr) (xs : List Ptr) (w : IsPool p (x ∷ xs) [])
    (least : last_unpinned p.frame (x ∷ xs) ≡ x)
    (good : (spec_write_back (p.frame x) p.unix).1 ≡ true) where
  abbrev u : Unix
  u = (spec_write_back (p.frame x) p.unix).0

  abbrev p₁ : Pool
  p₁ = record p { unix = u }

  w₁ : IsPool p₁ (x ∷ xs) []
  w₁ = unix-IsPool p (x ∷ xs) [] w u

  here : mem x (x ∷ xs) ≡ true
  here = ground arith

  -- The pool that LRU_ClearLast leaves.
  abbrev cleared : HashTable → Pool
  cleared t = record p₁ { links = unlink p.links x; hash_table = t }

  take_head :
      (t : HashTable)
      → ht_remove p.hash_table (p.frame x).fd (p.frame x).pagenum ≡ ok t
      → take_frame p ≡ ok (cleared t, page x)
  unfolding take_frame lru_clear_last
  take_head t run =
      let live = page-live p (x ∷ xs) [] w x here in
      let no_free = w.spare in
      ground (
        arith,
        clear_last_walk p (x ∷ xs) [] w,
        write_back-spec p (x ∷ xs) [] w x here,
        lru_remove-evict p (x ∷ xs) [] w x here,
      )

  module _ (bq : BfReq) (i : HasPlace bq.fd bq.pagenum)
      (absent : find_page p.frame bq.fd bq.pagenum (x ∷ xs) ≡ null) (t : HashTable) where
    abbrev f : Frame
    f = set_up_frame bq (p.frame x)

    abbrev one : Links
    one = write_prev (write_next (unlink p.links x) x null) x null

    abbrev alone : HashTable → Pool
    alone t' = record (set_frame (cleared t) x f) { links = one; hash_table = t' }

    set_up_head :
        (t' : HashTable)
        → (unlink p.links x).live x ≡ true
        → ht_add t x f ≡ ok t'
        → set_up bq (cleared t, page x) ≡ ok (alone t', page x)
    unfolding set_up initialize_bpage_no_read install lru_push
    set_up_head t' live run =
        let n = page-live p (x ∷ xs) [] w x here in
        let at = w.listed.0 in let same : update p.frame x f x ≡ f = ground arith in ground arith

  alloc_miss :
      (bq : BfReq)
      → HasPlace bq.fd bq.pagenum
      → find_page p.frame bq.fd bq.pagenum (x ∷ xs) ≡ null
      → bf_alloc_buf p bq ≡ (take_frame p >>= set_up bq)
  unfolding bf_alloc_buf
  alloc_miss bq i absent = ground (arith, w.found bq.fd bq.pagenum i)

  -- On a well-formed pool without a free frame, whose least recently used unpinned page is the head
  -- of the LRU list and can be written back, BF_AllocBuf of a page that is not in the pool and has
  -- its place, its offset an int, returns the head's frame, and leaves an LRU list of that one
  -- page: every other page has left the list.
  pub bf_alloc_buf-loses_list :
      (bq : BfReq)
      → HasPlace bq.fd bq.pagenum
      → find_page p.frame bq.fd bq.pagenum (x ∷ xs) ≡ null
      → (p' : Pool) × (bf_alloc_buf p bq ≡ ok (p', page x))
        × Chain p'.links null (x ∷ []) p'.lru_head
  bf_alloc_buf-loses_list bq i absent =
      let (t, run, holds) = evicted-Holds p₁ (x ∷ xs) [] w₁ x here in
      let missing : ht_find t bq.fd bq.pagenum ≡ ok null =
        holds.pool.found bq.fd bq.pagenum i
        ∙ ap ok (
            find_entry-erase (as_entry p.frame) x bq.fd bq.pagenum (x ∷ xs) w.unique here
            ∙ ground (arith, absent)) in
      let n = holds.detached.not_null in
      let live = holds.detached.live in
      let (t', _, add, _, _) =
        ht_find-ht_add t holds.pool.chain x (set_up_frame bq (p.frame x)) i.index holds.pool.table
          i.at i.inside missing n in
      (
        alone bq i absent t t',
        rw (alloc_miss bq i absent, take_head t run) (set_up_head bq i absent t t' live add),
        (w.listed.0, n, live, ground arith, ground arith),
      )
