-- ===== src/Hf/RoundTrip.antt =====
-- HF_InsertRec of hf/hf.c on a file with room, and HF_GetThisRec of what it returned.
use adb_minirel.Prelude.{
  ℕ, suc, ◌+◌, ◌^◌, ◌<◌, ◌≤◌, ◌≡◌, refl, true, false, List, some, arith, length, get_elem?, set,
  ◌∙◌, ap,
}
use adb_minirel.Prelude.Int.{pos}
use adb_minirel.Prelude.Result.{ok}
use adb_minirel.Memory.{Ptr}
use adb_minirel.Unix.{Buf, Name}
use adb_minirel.Bf.{BfReq, Frame, is_pinned, short_inc, short_dec}
use adb_minirel.Bf.Api.View.{View, view, find_frame}
use adb_minirel.Bf.Api.Spec.{pin_again}
use adb_minirel.Pf.{FtabEle}
use adb_minirel.Pf.Pages.{request}
use adb_minirel.Pf.State.{IsPf, IsOpen}
use adb_minirel.Unix.{max_pages}
use adb_minirel.Hf.{hfe_ok, RecId, HfEntry, Hf, set_file, with_pf}
use adb_minirel.Hf.Bytes.{c_string, copy_to, first_vacant}
use adb_minirel.Hf.Bytes.Access.{get_elem?-set_self, get_elem?-lt}
use adb_minirel.Hf.Bytes.Slots.{placed, record_at-placed}
use adb_minirel.Hf.Bytes.Read.{Fits, grown, record_at}
use adb_minirel.Hf.Bytes.Vacant.{first_vacant-IsFirst}
use adb_minirel.Hf.Records.{is_past, count_record, insert_loop, hf_insert_rec, hf_get_this_rec}
use adb_minirel.Hf.State.{IsHfOpen, IsOpen-kept, find_frame-keyed}
use adb_minirel.Hf.Reading.{hf_get_this_rec-record_at}
use adb_minirel.Hf.Writing.{WriteEnds}
use adb_minirel.Hf.Resident.{used_view, pinned_view, hit, not_absent}
use adb_minirel.Hf.Inserting.{FullPages, full_pages, last_page}

-- The change of HF's entry of a file leaves the file open.
pub set_file-IsHfOpen :
    (s s' : Hf) (i : ℕ) (e e' : HfEntry) (n : ℕ)
    → IsHfOpen s i e n
    → s'.file_table ≡ set s.file_table i e'
    → e'.valid ≡ e.valid
    → e'.pf_fd ≡ e.pf_fd
    → IsHfOpen s' i e' n
set_file-IsHfOpen s s' i e e' n u same valid below = record {
  in_table = u.in_table;
  at =
      ap (λ t. get_elem? t i) same
      ∙ get_elem?-set_self s.file_table i e' (get_elem?-lt s.file_table i e u.at);
  valid = valid ∙ u.valid;
  below = below ∙ u.below;
}

-- The frame in front of the view.
used_view-front :
    (bq : BfReq) (f : Frame) (b : Buf) (v : View)
    → find_frame bq.fd bq.pagenum v.resident ≡ some f
    → find_frame bq.fd bq.pagenum (used_view bq f b v).resident
      ≡ some (record f { fpage = b; dirty = true; count = short_dec (short_inc f.count) })
used_view-front bq f b v there =
    let k = find_frame-keyed bq.fd bq.pagenum v.resident f there in ground arith

short_inc-again : (c : ℕ) → short_inc (short_dec (short_inc c)) ≡ short_inc c
short_inc-again c = omega arith

module _ (s : Hf) (used free : List Ptr) (w : IsPf s.pf used free) (n : ℕ) (pe : FtabEle)
    (count : ℕ) (o : IsOpen s.pf n pe count) (i : ℕ) (e : HfEntry) (u : IsHfOpen s i e n)
    (max size : ℕ) (bound : e.hdr.max_num_records ≡ pos max) (sized : e.hdr.recsize ≡ pos size)
    (rec : Buf) (text : Name) (str : c_string rec ≡ ok text) (short : length text ≤ size)
    (small : s.blocks.fresh < 2 ^ 64) (q m : ℕ) (pages : e.hdr.numpages ≡ pos (q + suc m))
    (v : View) (full : FullPages n pe count e max q 0 (view s.pf.pool used free) v) (k : ℕ)
    (f : Frame) (mapped : get_elem? e.page_map q ≡ some (pos k)) (h : k < count)
    (h' : k < max_pages) (there : find_frame (pos n) (pos k) v.resident ≡ some f)
    (pinned : is_pinned (short_inc f.count) ≡ true) (j : ℕ)
    (vacant : first_vacant max 0 f.fpage ≡ ok (some j)) (fits : Fits f.fpage max) where
  abbrev pub inside : j < max
  inside = omega (arith, (first_vacant-IsFirst max 0 f.fpage j vacant).1)

  abbrev pub bytes : Buf
  bytes = placed f.fpage max j inside fits s.blocks text small

  abbrev bq : BfReq
  bq = request pe (pos n) (pos k)

  abbrev r : RecId
  r = record { pagenum = pos q; recnum = pos j }

  insert_run : hf_insert_rec s (pos i) rec ≡ insert_loop (q + suc m) 0 (pos i) e rec s
  unfolding hf_insert_rec
  insert_run = ground (arith, u.in_table, u.at, u.valid, pages)

  -- On a well-formed state, for an open file of HF over an open file of PF, for a C string that is
  -- no longer than the file's records, where all pages before the page `q` are below 524287 and
  -- stand in the pool and are full, and the page `q` stands there too, has the first vacant place
  -- `j`, and has room for its bit map and records, no frame of these pages having too many pins for
  -- one more, and where addresses are below 2^64: HF_InsertRec ends without undefined behaviour and
  -- returns the identifier (q, j); the file counts one record more; the string is in a new block of
  -- memory; the page stands in front of the pool, dirty, with the record at that place; the pages
  -- before it are as they were after looking into each; and nothing else changes.
  pub hf_insert_rec-first_vacant :
      WriteEnds
        (hf_insert_rec s (pos i) rec)
        (λ s'. (s', r))
        s
        i
        (count_record e)
        (grown s.blocks text)
        (used_view bq f bytes v)
  hf_insert_rec-first_vacant =
      let (p, used', free', run, w', same, seen) =
        full_pages n pe count i e u.below max bound rec q 0 s used free w o m v full in
      let (p', used₂, free₂, run₂, w₂, same₂, seen₂) =
        last_page n pe count i e u.below max bound rec q k f mapped h h' pinned j vacant inside fits
          size sized text str short (with_pf s p) used' free' w'
          (IsOpen-kept s.pf p n pe count o same) m small
          (ap (λ (x : View). find_frame (pos n) (pos k) x.resident) seen ∙ there) in
      (
        p',
        used₂,
        free₂,
        insert_run
            ∙ run
            ∙ ap (λ x. insert_loop (suc m) x (pos i) e rec (with_pf s p)) (omega arith)
            ∙ run₂,
        w₂,
        same₂ ∙ same,
        seen₂ ∙ ap (λ x. used_view bq f bytes x) seen,
      )

  -- On a well-formed state, for an open file of HF over an open file of PF, for a C string that is
  -- no longer than the file's records, where all pages before the page `q` are below 524287 and
  -- stand in the pool and are full, and the page `q` stands there too, has a vacant place, and has
  -- room for its bit map and records, no frame of these pages having too many pins for one more,
  -- and where addresses are below 2^64: HF_InsertRec ends without undefined behaviour and returns
  -- the identifier of the first vacant place of the page `q`, and HF_GetThisRec of that identifier
  -- ends so too, returns HFE_OK, and leaves in the caller's buffer what a copy of the string leaves
  -- there, if the buffer has room for it.
  pub hf_get_this_rec-hf_insert_rec :
      (buf buf' : Buf)
      → copy_to text buf ≡ ok buf'
      → (s' s'' : Hf) × (hf_insert_rec s (pos i) rec ≡ ok (s', r))
        × (hf_get_this_rec s' (pos i) r buf ≡ ok (s'', buf', hfe_ok))
  hf_get_this_rec-hf_insert_rec buf buf' copied =
      let (p, used', free', run, w', same, seen) = hf_insert_rec-first_vacant in
      let e' = count_record e in
      let s' : Hf = set_file (record s { pf = p; blocks = grown s.blocks text }) (pos i) e' in
      let g : Frame = record f {
        fpage = bytes;
        dirty = true;
        count = short_dec (short_inc f.count);
      } in
      let front : find_frame (pos n) (pos k) (view p.pool used' free').resident ≡ some g =
        ap (λ (x : View). find_frame (pos n) (pos k) x.resident) seen
        ∙ used_view-front bq f bytes v there in
      let o' = IsOpen-kept s.pf p n pe count o same in
      let past : is_past e'.hdr r ≡ false = ground (arith, pages, bound, inside) in
      let placed_there : record_at (grown s.blocks text) bytes e'.hdr.max_num_records (pos j)
          ≡ ok (some text) =
        rw bound (record_at-placed f.fpage max j inside fits s.blocks text small) in
      let (p', used₂, free₂, run₂, w₂, same₂, seen₂) =
        hf_get_this_rec-record_at s' used' free' w' n pe count o' i e'
          (set_file-IsHfOpen s s' i e e' n u refl refl refl) q k mapped h h'
          (λ absent. absurd (not_absent p used' free' w' n pe count o' k h h' g front absent))
          (pinned_view bq g (view p.pool used' free')) (pin_again g)
          (hit p used' free' w' n pe count o' k h h' g front) (rw (short_inc-again f.count) pinned)
          j past buf (some text) buf' placed_there copied in
      (s', record s' { pf = p' }, run, run₂)
