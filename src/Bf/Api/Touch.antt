-- ===== src/Bf/Api/Touch.antt =====
-- BF_TouchBuf of bf/bf.c against its specification.
use adb_minirel.Prelude.{
  ◌≡◌, refl, inl, inr, true, List, ◌∷◌, arith, ◌==◌, if◌then◌else◌, mem, erase, mem-erase_ne,
  mem-erase_self, length-erase, sym, Bool-cases, ◌∙◌, ap,
}
use adb_minirel.Prelude.Result.{ok}
use adb_minirel.Memory.{Ptr, null, Links, update}
use adb_minirel.Memory.Chain.{head-ne}
use adb_minirel.Memory.Unlink.{unlink, push_front}
use adb_minirel.Memory.TwoLists.{
  TwoLists, null-not-used, unlink-TwoLists, unlink-IsDetached, push_front-TwoLists, IsDetached,
}
use adb_minirel.Bf.Lru.{lru_remove, lru_push}
use adb_minirel.Bf.Lru.Relink.{lru_remove-unlink, lru_push-push_front}
use adb_minirel.Bf.{Frame, Pool, BfReq, is_pinned}
use adb_minirel.Bf.Hash.Erase.{IsKeyed-erase, Lacks-erase_self, find_entry-front}
use adb_minirel.Bf.Api.{set_frame, bf_touch_buf}
use adb_minirel.Bf.Api.View.{
  IsPool, HasPlace, as_entry, find_page, view, find_page-Finds, map-update_absent,
}
use adb_minirel.Bf.Api.Spec.{spec_touch}
use adb_minirel.Bf.Api.Frames.{set_frame-IsPool, page-live}

module _ (p : Pool) (used free : List Ptr) (w : IsPool p used free) (bq : BfReq)
    (i : HasPlace bq.fd bq.pagenum) where
  module _ (a : Ptr) (h : mem a used ≡ true) where
    abbrev head' : Ptr
    head' = if p.lru_head == a then p.links.next a else p.lru_head

    abbrev moved : Links
    moved = push_front (unlink p.links a) head' a

    out : TwoLists (unlink p.links a) (erase a used) free head' p.free_list_head
    out = unlink-TwoLists p.links used free p.lru_head p.free_list_head w.lists a h

    detached : IsDetached (unlink p.links a) (erase a used) free a
    detached = unlink-IsDetached p.links used free p.lru_head p.free_list_head w.lists a h

    out_run : lru_remove p.links p.lru_head a ≡ ok (unlink p.links a, head')
    out_run =
        lru_remove-unlink p.links used p.lru_head a w.listed w.distinct
          (null-not-used p.links used free p.lru_head p.free_list_head w.lists) h

    in_run : lru_push (unlink p.links a) head' a ≡ ok (moved, a)
    in_run =
        lru_push-push_front (unlink p.links a) (erase a used) head' a out.listed
          (head-ne (unlink p.links a) null (erase a used) head' a out.listed detached.not_used
            detached.not_null)
          detached.live detached.not_null

    abbrev dirtied : Frame
    dirtied = record (p.frame a) { dirty = true }

    abbrev touched : Pool
    touched = record (set_frame p a dirtied) { links = moved; lru_head = a }

    touched-IsPool : IsPool touched (a ∷ erase a used) free
    touched-IsPool =
        let v = set_frame-IsPool p used free w a dirtied refl refl in
        let e = as_entry (update p.frame a dirtied) in
        record {
          lists =
              push_front-TwoLists (unlink p.links a) (erase a used) free head' p.free_list_head out
                a detached;
          bounded = omega (arith, v.bounded, length-erase a used h);
          unique = (Lacks-erase_self e a used v.unique h, IsKeyed-erase e a used v.unique);
          placed = λ b m. v.placed b (mem_back b m);
          chain = v.chain;
          table = v.table;
          found = λ fd pagenum j.
              v.found fd pagenum j ∙ ap ok (sym (find_entry-front e a fd pagenum used v.unique h));
        }
      where
        mem_back : (b : Ptr) → mem b (a ∷ erase a used) ≡ true → mem b used ≡ true
        mem_back b m = ground (arith, h, mem-erase_ne b a used)

  -- On a well-formed pool, for a page that has its place in the hash table and an int for its
  -- offset in the file, BF_TouchBuf ends without undefined behaviour, leaves a well-formed pool
  -- with the same free frames, and does what spec_touch says of the view: a pinned page is made
  -- dirty and moves to the front of the list; a page that is not in the pool, or not pinned, is
  -- refused with its code and nothing changes.
  pub bf_touch_buf-spec_touch :
      (p' : Pool) × (used' : List Ptr) × (bf_touch_buf p bq
        ≡ ok (p', (spec_touch bq (view p used free)).1))
      × IsPool p' used' free
      × (view p' used' free ≡ (spec_touch bq (view p used free)).0)
  unfolding bf_touch_buf spec_touch
  bf_touch_buf-spec_touch =
      let a = find_page p.frame bq.fd bq.pagenum used in
      elim (find_page-Finds p.frame bq.fd bq.pagenum used w.distinct) [
        | inl gone ↦ (p, used, ground (arith, w.found bq.fd bq.pagenum i), w, ground arith)
        | inr r ↦ elim (Bool-cases (is_pinned (p.frame a).count)) [
          | inl pinned ↦ (
            touched a r.listed,
            a ∷ erase a used,
            ground (
              arith,
              w.found bq.fd bq.pagenum i,
              page-live p used free w a r.listed,
              r.found,
              out_run a r.listed,
              in_run a r.listed,
            ),
            touched-IsPool a r.listed,
            ground (
              arith,
              r.found,
              r.erased,
              map-update_absent p.frame a (dirtied a r.listed) (erase a used)
                  (mem-erase_self a used w.distinct),
              map-update_absent p.frame a (dirtied a r.listed) free (w.apart a r.listed),
            ),
          )
          | inr unpinned ↦ (
            p,
            used,
            ground (arith, w.found bq.fd bq.pagenum i, page-live p used free w a r.listed, r.found),
            w,
            ground (arith, r.found),
          )
        ]
      ]
