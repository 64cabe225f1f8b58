-- ===== src/Hf/Cursor/Ends.antt =====
-- HF_GetNextRec of hf/hf.c ends: its loop passes over each place of the file at most once.
use adb_minirel.Prelude.{ℕ, suc, ◌+◌, ◌-◌, ◌*◌, ◌^◌, ◌<◌, ◌≡◌, true, List, some, length, get_elem?}
use adb_minirel.Prelude.Int.{pos}
use adb_minirel.Memory.{Ptr}
use adb_minirel.Unix.{Buf}
use adb_minirel.Bf.{Frame, is_pinned, short_inc}
use adb_minirel.Bf.Api.View.{View, view, find_frame}
use adb_minirel.Bf.Api.Spec.{pin_again}
use adb_minirel.Pf.{FtabEle, Pf}
use adb_minirel.Pf.Pages.{request}
use adb_minirel.Pf.State.{IsOpen}
use adb_minirel.Unix.{max_pages}
use adb_minirel.Hf.{RecId, HfEntry, Hf}
use adb_minirel.Hf.Cursor.{next_loop}
use adb_minirel.Hf.State.{Held}
use adb_minirel.Hf.Resident.{pinned_view}
use adb_minirel.Hf.Cursor.Fuel.{HasFuel}
use adb_minirel.Hf.Cursor.Residency.{Resident}

-- The loop's fuel is enough for the places from (q, j) on.
abbrev Enough : ℕ → ℕ → ℕ → ℕ → Type 0
Enough max fuel q j = (100 - q) * max < fuel + j

module _ (n : ℕ) (pe : FtabEle) (count : ℕ) (e : HfEntry) (below : e.pf_fd ≡ pos n)
    (sized : length e.page_map ≡ 100) (last : ℕ) (bound : e.hdr.max_num_records ≡ pos (suc last))
    (small : last < 2 ^ 31 - 1) (rec : Buf) where
  -- The page `k` was fetched into the address `a` of a pool whose view was `v`.
  record Fetched (p : Pf) (used free : List Ptr) (v : View) (k : ℕ) (f : Frame) (a : Ptr)
      : Type 0 where
    open_file : IsOpen p n pe count
    held : Held p used free (request pe (pos n) (pos k)) a
    frame : p.pool.frame a ≡ pin_again f
    seen : view p.pool used free ≡ pinned_view (request pe (pos n) (pos k)) f v
    inside : k < count
    placed : k < max_pages
    there : find_frame (pos n) (pos k) v.resident ≡ some f
    pinned : is_pinned (short_inc f.count) ≡ true
    all : Resident n count e v

  -- What the loop is to do with a fetched page.
  abbrev LoopEnds : ℕ → ℕ → ℕ → Type 0
  LoopEnds fuel q j =
      (s : Hf) (used free : List Ptr) (v : View) (k : ℕ) (f : Frame) (a : Ptr)
      → Fetched s.pf used free v k f a
      → get_elem? e.page_map q ≡ some (pos k)
      → HasFuel (next_loop fuel e rec (record { pagenum = pos q; recnum = pos j }) a s)

  abbrev place : ℕ → ℕ → RecId
  place q j = record { pagenum = pos q; recnum = pos j }
