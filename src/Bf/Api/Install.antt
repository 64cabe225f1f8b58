-- ===== src/Bf/Api/Install.antt =====
-- Putting a frame into the pool, as BF_GetBuf and BF_AllocBuf of bf/bf.c do.
use adb_minirel.Prelude.{◌≡◌, inl, inr, List, ◌∷◌, arith, ◌==◌, Bool-cases, ◌∙◌, ap, sym}
use mathlib.Core.Path.{fun_ext}
use adb_minirel.Prelude.Result.{ok}
use adb_minirel.Memory.{Ptr, null, Links, update}
use adb_minirel.Memory.Chain.{head-ne}
use adb_minirel.Memory.Unlink.{push_front}
use adb_minirel.Memory.TwoLists.{TwoLists, push_front-TwoLists, IsDetached}
use adb_minirel.Unix.{Unix}
use adb_minirel.Bf.{HashTable, Frame, Pool}
use adb_minirel.Bf.Hash.{ht_find}
use adb_minirel.Bf.Hash.Keys.{IsKeyed-update, find_entry-update, Lacks, Lacks-find_entry}
use adb_minirel.Bf.Hash.Add.{ht_find-ht_add}
use adb_minirel.Bf.Hash.Added.{new_entry}
use adb_minirel.Bf.Lru.Relink.{lru_push-push_front}
use adb_minirel.Bf.Api.{set_frame, install}
use adb_minirel.Bf.Api.Frames.{page-live}
use adb_minirel.Bf.Api.View.{IsPool, HasPlace, Holds, as_entry}

as_entry-update_new :
    (frame : Ptr → Frame) (a : Ptr) (f : Frame)
    → as_entry (update frame a f) ≡ update (as_entry frame) a (new_entry a f)
as_entry-update_new frame a f = fun_ext λ b. elim (Bool-cases (b == a)) [
  | inl same ↦ let b_a : b ≡ a = ground arith in rw (same, b_a)
  | inr other ↦ rw other
]

module _ (p : Pool) (used free : List Ptr) (a : Ptr) (w : Holds p used free a) where
  -- The frame that is held can be overwritten, and so can its links and the operating system.
  pub overwrite-Holds :
      (f : Frame) (l : Links) (u : Unix)
      → TwoLists l used free p.lru_head p.free_list_head
      → IsDetached l used free a
      → Holds (record (set_frame p a f) { links = l; unix = u }) used free a
  overwrite-Holds f l u lists d =
      let e = as_entry p.frame in
      let out = w.detached.not_used in
      record {
        pool = record {
          lists = lists;
          bounded = w.pool.bounded;
          unique =
              rw (as_entry-update_new p.frame a f)
                (IsKeyed-update e a (new_entry a f) used out w.pool.unique);
          placed = λ b m.
              let same : update p.frame a f b ≡ p.frame b = ground arith in
              rw same (w.pool.placed b m);
          chain = w.pool.chain;
          table = w.pool.table;
          found = λ fd pagenum i. rw (as_entry-update_new p.frame a f) (
              w.pool.found fd pagenum i
              ∙ ap ok (sym (find_entry-update e a (new_entry a f) fd pagenum used out)));
        };
        detached = d;
        room = w.room;
      }

  abbrev pub installed : HashTable → Pool
  installed t = record p { links = push_front p.links p.lru_head a; lru_head = a; hash_table = t }

  -- LRU_Push and HT_Add of the frame, whose key is not in the pool yet.
  pub install-IsPool :
      HasPlace (p.frame a).fd (p.frame a).pagenum
      → ht_find p.hash_table (p.frame a).fd (p.frame a).pagenum ≡ ok null
      → (t : HashTable) × (install p a ≡ ok (installed t)) × IsPool (installed t) (a ∷ used) free
  unfolding install
  install-IsPool place missing =
      let v = w.pool in
      let d = w.detached in
      let (t, chain, run, table, law) =
        ht_find-ht_add p.hash_table v.chain a (p.frame a) place.index v.table place.at place.inside
          missing d.not_null in
      let push =
        lru_push-push_front p.links used p.lru_head a v.listed
          (head-ne p.links null used p.lru_head a v.listed d.not_used d.not_null) d.live
          d.not_null in
      (
        t,
        ground (arith, push, run),
        record {
          lists = push_front-TwoLists p.links used free p.lru_head p.free_list_head v.lists a d;
          bounded = omega (arith, w.room);
          unique = (lacks, v.unique);
          placed = λ b m. elim (Bool-cases (b == a)) [
            | inl same ↦ let b_a : b ≡ a = ground arith in rw b_a place
            | inr other ↦ v.placed b (ground arith)
          ];
          chain = chain;
          table = table;
          found = λ fd pagenum i.
              ground (arith, law fd pagenum i.index i.at i.inside, v.found fd pagenum i);
        },
      )
    where
      lacks : Lacks (as_entry p.frame) (p.frame a).fd (p.frame a).pagenum used
      lacks =
          Lacks-find_entry (as_entry p.frame) (p.frame a).fd (p.frame a).pagenum used
            (λ b m. (page-live p used free w.pool b m).1)
            (ground (arith, w.pool.found (p.frame a).fd (p.frame a).pagenum place))
