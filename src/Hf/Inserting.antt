-- ===== src/Hf/Inserting.antt =====
-- HF_InsertRec of hf/hf.c on a file whose pages stand in the pool: where the record goes.
use adb_minirel.Prelude.{
  ℕ, zero, suc, ◌+◌, ◌^◌, ◌≤◌, ◌<◌, ◌≡◌, refl, true, List, none, some, arith, length, get_elem?,
  ◌∙◌, ap, sym,
}
use adb_minirel.Prelude.Int.{ℤ, pos}
use adb_minirel.Prelude.Result.{ok}
use adb_minirel.Memory.{Ptr}
use adb_minirel.Unix.{Buf, Name}
use adb_minirel.Bf.{BfReq, Frame, is_pinned, short_inc}
use adb_minirel.Bf.Api.View.{View, view, find_frame}
use adb_minirel.Pf.{pfe_ok, FtabEle, Pf}
use adb_minirel.Pf.Pages.{request, pf_unpin_page}
use adb_minirel.Pf.State.{IsPf, IsOpen}
use adb_minirel.Unix.{max_pages}
use adb_minirel.Hf.{HfEntry, Hf, with_pf}
use adb_minirel.Hf.Bytes.{c_string, first_vacant, place_record}
use adb_minirel.Hf.Bytes.Slots.{placed, place_record_run}
use adb_minirel.Hf.Bytes.Read.{Fits, grown}
use adb_minirel.Hf.Records.{count_record, write_record, insert_in, insert_loop}
use adb_minirel.Hf.State.{Held, filled_pf, filled_pf-same, IsOpen-kept}
use adb_minirel.Hf.Resident.{used_view, written_view-used_view, resident-Held, resident-written}
use adb_minirel.Hf.Writing.{written_view, write-Ends, WriteEnds}

-- The lines that write a record into a page that stands in the pool.
module _ (s : Hf) (used free : List Ptr) (n : ℕ) (pe : FtabEle) (count : ℕ)
    (o : IsOpen s.pf n pe count) (k : ℕ) (h : k < count) (h' : k < max_pages) (a : Ptr)
    (held : Held s.pf used free (request pe (pos n) (pos k)) a)
    (pinned : is_pinned (s.pf.pool.frame a).count ≡ true) (i : ℕ) (e : HfEntry)
    (below : e.pf_fd ≡ pos n) (max j size : ℕ) (bound : e.hdr.max_num_records ≡ pos max)
    (sized : e.hdr.recsize ≡ pos size) (inside : j < max) (b : Buf) (fits : Fits b max) (rec : Buf)
    (text : Name) (str : c_string rec ≡ ok text) (short : length text ≤ size)
    (small : s.blocks.fresh < 2 ^ 64) where
  abbrev bq : BfReq
  bq = request pe (pos n) (pos k)

  abbrev bytes : Buf
  bytes = placed b max j inside fits s.blocks text small

  pub write_record-placed :
      (index : ℤ)
      → WriteEnds
          (write_record s (pos i) e (pos k) a b (record { pagenum = index; recnum = pos j }) rec)
          (λ s'. (s', record { pagenum = index; recnum = pos j }))
          s
          i
          (count_record e)
          (grown s.blocks text)
          (written_view bq (s.pf.pool.frame a) bytes (view s.pf.pool used free))
  unfolding write_record
  write_record-placed index =
      let places : place_record s.blocks b e.hdr.max_num_records (pos j) e.hdr.recsize rec
          ≡ ok (grown s.blocks text, bytes) =
        rw (bound, sized)
          (place_record_run b max j inside fits s.blocks text small size rec str short) in
      let (p', used', run, w, same, seen) =
        write-Ends s.pf used free n pe count o k h h' a held pinned bytes in
      (p', used', free, ground (arith, places, below, run), w, same, seen)

-- The pages from the index `q` on, `m` of them, stand in the pool of the view `v` and are full;
-- looking into each in turn and unpinning it leads to the view `v'`.
abbrev pub FullPages : ℕ → FtabEle → ℕ → HfEntry → ℕ → ℕ → ℕ → View → View → Type 0
FullPages n pe count e max zero q v v' = v ≡ v'
FullPages n pe count e max (suc m) q v v' =
    (k : ℕ) × (f : Frame) × (get_elem? e.page_map q ≡ some (pos k))
    × (k < count)
    × (k < max_pages)
    × (find_frame (pos n) (pos k) v.resident ≡ some f)
    × (is_pinned (short_inc f.count) ≡ true)
    × (first_vacant max 0 f.fpage ≡ ok none)
    × FullPages n pe count e max m (suc q) (used_view (request pe (pos n) (pos k)) f f.fpage v) v'

module _ (n : ℕ) (pe : FtabEle) (count : ℕ) (i : ℕ) (e : HfEntry) (below : e.pf_fd ≡ pos n)
    (max : ℕ) (bound : e.hdr.max_num_records ≡ pos max) (rec : Buf) where
  -- One round of the loop over a full page.
  full_page :
      (s : Hf) (used free : List Ptr) (w : IsPf s.pf used free) (o : IsOpen s.pf n pe count)
      (m q k : ℕ) (f : Frame)
      → get_elem? e.page_map q ≡ some (pos k)
      → k < count
      → k < max_pages
      → find_frame (pos n) (pos k) (view s.pf.pool used free).resident ≡ some f
      → is_pinned (short_inc f.count) ≡ true
      → first_vacant max 0 f.fpage ≡ ok none
      → (p : Pf) × (used' free' : List Ptr) × (insert_loop (suc m) q (pos i) e rec s
          ≡ insert_loop m (suc q) (pos i) e rec (with_pf s p))
        × IsPf p used' free'
        × (p.file_table ≡ s.pf.file_table)
        × (view p.pool used' free'
            ≡ used_view (request pe (pos n) (pos k)) f f.fpage (view s.pf.pool used free))
  unfolding insert_loop insert_in
  full_page s used free w o m q k f mapped h h' there pinned full =
      let (p, used', free', a, run, held, frame, same, seen) =
        resident-Held s.pf used free w n pe count o k h h' f there in
      let full' : first_vacant max 0 (p.pool.frame a).fpage ≡ ok none = rw frame full in
      let (p', used₂, run₂, w₂, same₂, seen₂) =
        resident-written s.pf used free w n pe count o k h h' f there p used' free' a held frame
          same seen pinned f.fpage in
      let same_pf : filled_pf p used' free' (request pe (pos n) (pos k)) a held f.fpage ≡ p =
        ap (filled_pf p used' free' (request pe (pos n) (pos k)) a held)
          (ap (λ (g : Frame). g.fpage) (sym frame))
        ∙ filled_pf-same p used' free' (request pe (pos n) (pos k)) a held in
      let unpins : pf_unpin_page p (pos n) (pos k) true ≡ ok (p', pfe_ok) =
        ap (λ x. pf_unpin_page x (pos n) (pos k) true) (sym same_pf) ∙ run₂ in
      (
        p',
        used₂,
        free',
        ground (arith, run, full', unpins, below, bound, mapped),
        w₂,
        same₂ ∙ ap (λ (x : Pf). x.file_table) same_pf ∙ same,
        seen₂,
      )

  same_loop :
      (s : Hf) (a a' q q' : ℕ)
      → a ≡ a'
      → q ≡ q'
      → insert_loop a q (pos i) e rec s ≡ insert_loop a' q' (pos i) e rec s
  same_loop s a a' q q' x y = cc

  -- The loop passes over the full pages.
  pub full_pages :
      (m q : ℕ) (s : Hf) (used free : List Ptr) (w : IsPf s.pf used free)
      (o : IsOpen s.pf n pe count) (m' : ℕ) (v' : View)
      → FullPages n pe count e max m q (view s.pf.pool used free) v'
      → (p : Pf) × (used' free' : List Ptr) × (insert_loop (m + suc m') q (pos i) e rec s
          ≡ insert_loop (suc m') (q + m) (pos i) e rec (with_pf s p))
        × IsPf p used' free'
        × (p.file_table ≡ s.pf.file_table)
        × (view p.pool used' free' ≡ v')
  full_pages zero q s used free w o m' v' same =
      (s.pf, used, free, same_loop s _ _ _ _ (omega arith) (omega arith), w, refl, same)
  full_pages (suc m) q s used free w o m' v' (k, f, mapped, h, h', there, pinned, full, rest) =
      let (p, used₁, free₁, run, w₁, same, seen) =
        full_page s used free w o (m + suc m') q k f mapped h h' there pinned full in
      let (p', used₂, free₂, run₂, w₂, same₂, seen₂) =
        full_pages m (suc q) (with_pf s p) used₁ free₁ w₁ (IsOpen-kept s.pf p n pe count o same) m'
          v' (rw seen rest) in
      (
        p',
        used₂,
        free₂,
        same_loop s (suc m + suc m') (suc (m + suc m')) q q (omega arith) refl
            ∙ run
            ∙ run₂
            ∙ same_loop (with_pf s p') (suc m') (suc m') (suc q + m) (q + suc m) refl (omega arith),
        w₂,
        same₂ ∙ same,
        seen₂,
      )

  module _ (q k : ℕ) (f : Frame) (mapped : get_elem? e.page_map q ≡ some (pos k)) (h : k < count)
      (h' : k < max_pages) (pinned : is_pinned (short_inc f.count) ≡ true) (j : ℕ)
      (vacant : first_vacant max 0 f.fpage ≡ ok (some j)) (inside : j < max)
      (fits : Fits f.fpage max) (size : ℕ) (sized : e.hdr.recsize ≡ pos size) (text : Name)
      (str : c_string rec ≡ ok text) (short : length text ≤ size) where
    -- The round of the loop over the first page that is not full.
    pub last_page :
        (s : Hf) (used free : List Ptr) (w : IsPf s.pf used free) (o : IsOpen s.pf n pe count)
        (m' : ℕ) (small : s.blocks.fresh < 2 ^ 64)
        → find_frame (pos n) (pos k) (view s.pf.pool used free).resident ≡ some f
        → WriteEnds
            (insert_loop (suc m') q (pos i) e rec s)
            (λ s'. (s', record { pagenum = pos q; recnum = pos j }))
            s
            i
            (count_record e)
            (grown s.blocks text)
            (used_view
              (request pe (pos n) (pos k))
              f
              (placed f.fpage max j inside fits s.blocks text small)
              (view s.pf.pool used free))
    unfolding insert_loop insert_in
    last_page s used free w o m' small there =
        let bq : BfReq = request pe (pos n) (pos k) in
        let (p, used', free', a, run, held, frame, same, seen) =
          resident-Held s.pf used free w n pe count o k h h' f there in
        let bytes : (p.pool.frame a).fpage ≡ f.fpage = ap (λ (g : Frame). g.fpage) frame in
        let finds : first_vacant max 0 (p.pool.frame a).fpage ≡ ok (some j) = rw bytes vacant in
        let (p', used₂, free₂, run₂, w₂, same₂, seen₂) =
          write_record-placed (with_pf s p) used' free' n pe count
            (IsOpen-kept s.pf p n pe count o same) k h h' a held (rw frame pinned) i e below max j
            size bound sized inside f.fpage fits rec text str short small (pos q) in
        let writes =
          ap
            (λ b.
              write_record (with_pf s p) (pos i) e (pos k) a b
                (record { pagenum = pos q; recnum = pos j }) rec)
            bytes in
        (
          p',
          used₂,
          free₂,
          ground (arith, run, finds, below, bound, mapped) ∙ writes ∙ run₂,
          w₂,
          same₂ ∙ same,
          seen₂
              ∙ written_view-used_view s.pf used free w n pe count o k h h' f there p used' free' a
                  frame seen (placed f.fpage max j inside fits s.blocks text small),
        )
