-- ===== src/Bf/Api/Frames.antt =====
-- Changes of page frames that keep a pool of bf/bf.c well formed.
use adb_minirel.Prelude.{◌≡◌, true, false, List, arith, ◌==◌, mem}
use mathlib.Core.Path.{fun_ext}
use adb_minirel.Memory.{Ptr, null, update}
use adb_minirel.Memory.Chain.{Chain-live}
use adb_minirel.Bf.{Frame, Pool}
use adb_minirel.Bf.Api.{set_frame}
use adb_minirel.Bf.Api.View.{IsPool, as_entry}

pub as_entry-update :
    (frame : Ptr → Frame) (a : Ptr) (f : Frame)
    → f.fd ≡ (frame a).fd
    → f.pagenum ≡ (frame a).pagenum
    → as_entry (update frame a f) ≡ as_entry frame
as_entry-update frame a f e e' = fun_ext λ b. ground arith

module _ (p : Pool) (used free : List Ptr) (w : IsPool p used free) where
  -- A change of a frame that keeps its key keeps the pool well formed.
  pub set_frame-IsPool :
      (a : Ptr) (f : Frame)
      → f.fd ≡ (p.frame a).fd
      → f.pagenum ≡ (p.frame a).pagenum
      → IsPool (set_frame p a f) used free
  set_frame-IsPool a f e e' =
      let same = as_entry-update p.frame a f e e' in
      record {
        lists = w.lists;
        bounded = w.bounded;
        unique = rw same w.unique;
        placed = λ b h.
            let e_fd : (update p.frame a f b).fd ≡ (p.frame b).fd = ground arith in
            let e_num : (update p.frame a f b).pagenum ≡ (p.frame b).pagenum = ground arith in
            rw (e_fd, e_num) (w.placed b h);
        chain = w.chain;
        table = w.table;
        found = λ fd pagenum i. rw same (w.found fd pagenum i);
      }

  pub page-live : (a : Ptr) → mem a used ≡ true → (p.links.live a ≡ true) × ((a == null) ≡ false)
  page-live a h = Chain-live p.links null used p.lru_head a w.listed h
