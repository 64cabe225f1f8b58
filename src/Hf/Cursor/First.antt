-- ===== src/Hf/Cursor/First.antt =====
-- HF_GetFirstRec of hf/hf.c where the first place of the file holds a record, and where it does not.
use adb_minirel.Prelude.{
  ℕ, zero, suc, ◌<◌, ◌≡◌, refl, true, false, List, Option, none, some, arith, get_elem?, ◌∙◌, ap,
  sym, ==_refl,
}
use adb_minirel.Prelude.Int.{ℤ, pos}
use adb_minirel.Prelude.Result.{Result, ok, ◌>>=◌}
use adb_minirel.Memory.{Ptr, null}
use adb_minirel.Unix.{Buf, Name}
use adb_minirel.Bf.{BfReq, Frame, is_pinned, short_dec}
use adb_minirel.Bf.Api.View.{View, view, find_page, is_page}
use adb_minirel.Bf.Api.Spec.{got, spec_get}
use adb_minirel.Bf.Api.Take.{IsSafe}
use adb_minirel.Pf.{pfe_ok, pfe_pagefree, FtabEle, Pf, pf_page}
use adb_minirel.Pf.Pages.{request, pf_get_this_page, pf_unpin_page}
use adb_minirel.Pf.State.{IsPf, IsOpen}
use adb_minirel.Unix.{max_pages}
use adb_minirel.Hf.Pins.{unpinned_pf, unpinned_pf-IsPf, unpin_run}
use adb_minirel.Pf.Get.{pf_get_this_page-spec_get}
use adb_minirel.Hf.{invalid, HfEntry, Hf, with_pf, page_bytes, unpin, get_this_page}
use adb_minirel.Hf.Bytes.{Blocks, is_vacant, fetch_record}
use adb_minirel.Hf.Bytes.Read.{record_at, record_at-some, record_at-none}
use adb_minirel.Hf.Cursor.{Found, first_in, first_on, first_loop, hf_get_first_rec}
use adb_minirel.Hf.Reading.{read_into}
use adb_minirel.Hf.State.{Held, keyed-Held, refined-Held, IsHfOpen, IsOpen-kept}
use adb_minirel.Hf.Unpinning.{idle-Ends}

-- The second place of a page with `suc x` of them, if there is one, can be read into the buffer.
abbrev pub SecondReads : Blocks → Buf → ℤ → ℕ → Buf → Type 0
SecondReads h b max zero rec = Unit {0}
SecondReads h b max (suc x) rec =
    (found : Option Name) × (rec' : Buf) × (record_at h b max (pos 1) ≡ ok found)
    × (read_into found rec ≡ ok rec')

abbrev pub WhereVacant : Option Name → Type 0 → Type 0
WhereVacant none P = P
WhereVacant (some text) P = Unit {0}

-- Once the page is not pinned any more, no record of it is returned.
module _ (n : ℕ) (e : HfEntry) (i : ℕ) (k : ℕ) (a : Ptr) (next : Hf → Result Found) (s : Hf)
    (p : Pf) (below : e.pf_fd ≡ pos n)
    (refused : pf_unpin_page s.pf (pos n) (pos k) false ≡ ok (p, pfe_pagefree)) where
  unpin_refused : unpin s e.pf_fd (pos k) false ≡ ok (with_pf s p, false)
  unpin_refused = ground (arith, below, refused)

  pub first_in-invalid :
      (x : ℕ) (rec : Buf)
      → SecondReads s.blocks (page_bytes s a) e.hdr.max_num_records x rec
      → (rec'' : Buf) × (first_in x 1 e i (pos k) a rec next s ≡ ok (with_pf s p, rec'', invalid))
  unfolding first_in
  first_in-invalid zero rec reads = (rec, rw unpin_refused refl)
  first_in-invalid (suc x) rec (none, rec', there, copied) =
      let vacant = record_at-none s.blocks (page_bytes s a) e.hdr.max_num_records (pos 1) there in
      (rec, rw (vacant, unpin_refused) refl)
  first_in-invalid (suc x) rec (some text, rec', there, copied) =
      let (vacant, copies) =
        record_at-some s.blocks (page_bytes s a) e.hdr.max_num_records (pos 1) text rec there in
      (rec', rw (vacant, copies, copied, unpin_refused) refl)

module _ (s : Hf) (used free : List Ptr) (w : IsPf s.pf used free) (n : ℕ) (pe : FtabEle)
    (count : ℕ) (o : IsOpen s.pf n pe count) (i : ℕ) (e : HfEntry) (u : IsHfOpen s i e n) (k : ℕ)
    (mapped : get_elem? e.page_map 0 ≡ some (pos k)) (h : k < count) (h' : k < max_pages)
    (safe : find_page s.pf.pool.frame (pos n) (pos k) used ≡ null → IsSafe s.pf.pool used free)
    (v : View) (f : Frame)
    (gets : spec_get (request pe (pos n) (pos k)) (view s.pf.pool used free) ≡ (v, got f))
    (once : f.count ≡ 1) (m : ℕ) (pages : e.hdr.numpages ≡ pos (suc m)) (x : ℕ)
    (bound : e.hdr.max_num_records ≡ pos (suc x)) (rec : Buf) where
  abbrev bq : BfReq
  bq = request pe (pos n) (pos k)

  first_run :
      hf_get_first_rec s (pos i) rec
      ≡ (get_this_page s (pos n) (pos k) >>= first_on e 0 (pos k) rec (first_loop m 1 e rec))
  unfolding hf_get_first_rec first_loop
  first_run = ground (arith, u.in_table, u.at, u.valid, u.below, pages, mapped)

  gotten :
      (p : Pf) × (used' free' : List Ptr) × (a : Ptr) × (pf_get_this_page s.pf (pos n) (pos k)
        ≡ ok (p, pf_page a))
      × Held p used' free' bq a
      × (p.pool.frame a ≡ f)
      × (p.file_table ≡ s.pf.file_table)
      × (view p.pool used' free' ≡ v)
  gotten =
      refined-Held (pf_get_this_page s.pf (pos n) (pos k)) s.pf bq (view s.pf.pool used free) v f
        (pf_get_this_page-spec_get s.pf used free w n pe count o k h h' safe) gets

  -- What HF_GetFirstRec does where the first place holds a record, or none.
  abbrev pub FindsFirst : Option Name → Buf → Type 0
  FindsFirst none rec' =
      (s' : Hf) × (rec'' : Buf) × (hf_get_first_rec s (pos i) rec ≡ ok (s', rec'', invalid))
  FindsFirst (some text) rec' =
      (s' : Hf) × (hf_get_first_rec s (pos i) rec
        ≡ ok (s', rec', record { pagenum = pos 0; recnum = pos 0 }))

  -- The page once it was unpinned.
  unpinned :
      (p : Pf) (used' free' : List Ptr) (a : Ptr)
      → Held p used' free' bq a
      → p.pool.frame a ≡ f
      → p.file_table ≡ s.pf.file_table
      → (p' : Pf) × (p'' : Pf) × (pf_unpin_page p (pos n) (pos k) false ≡ ok (p', pfe_ok))
        × (pf_unpin_page p' (pos n) (pos k) false ≡ ok (p'', pfe_pagefree))
        × ((p'.pool.frame a).fpage ≡ f.fpage)
  unpinned p used' free' a held frame same =
      let o' = IsOpen-kept s.pf p n pe count o same in
      let pin : is_pinned (p.pool.frame a).count ≡ true = rw (frame, once) refl in
      let p' = unpinned_pf p used' free' n pe count o' k h h' a held pin in
      let w' = unpinned_pf-IsPf p used' free' n pe count o' k h h' a held pin in
      let left : p'.pool.frame a ≡ record f { count = short_dec f.count } =
        ground (arith, frame, ==_refl a) in
      let keyed : is_page (p'.pool.frame a) (pos n) (pos k) ≡ true =
        ap (λ (y : Frame). is_page y (pos n) (pos k))
          (left ∙ ap (λ (y : Frame). record y { count = short_dec f.count }) (sym frame))
        ∙ held.found.keyed in
      let held' = keyed-Held p' used' free' bq a w' held.found.listed keyed in
      let idle : is_pinned (p'.pool.frame a).count ≡ false = rw (left, once) refl in
      let (p'', _, run', _, _, _) =
        idle-Ends p' used' free' n pe count
          (IsOpen-kept p p' n pe count o' (refl {a = p.file_table})) k h h' a held' idle in
      (
        p',
        p'',
        unpin_run p used' free' n pe count o' k h h' a held pin,
        run',
        ap (λ (y : Frame). y.fpage) left,
      )

  -- On a well-formed state, for an open file of HF over an open file of PF, with a data page and
  -- records in a page, whose first page the page map gives and PF has below page 524287, provided
  -- that a page which must give way to it is not the head of the LRU list and that the
  -- specification of BF_GetBuf gives a frame which nobody else has pinned: if the first place of
  -- the page holds a record, HF_GetFirstRec copies it into the caller's buffer (where it fits) and
  -- returns its identifier; if it holds none, and the second place, where a page has two, can be
  -- read, HF_GetFirstRec ends and returns the invalid identifier, whatever the other places hold.
  pub hf_get_first_rec-FindsFirst :
      (found : Option Name) (rec' : Buf)
      → record_at s.blocks f.fpage e.hdr.max_num_records (pos 0) ≡ ok found
      → read_into found rec ≡ ok rec'
      → WhereVacant found (SecondReads s.blocks f.fpage e.hdr.max_num_records x rec)
      → FindsFirst found rec'
  unfolding first_on first_in
  hf_get_first_rec-FindsFirst none rec' there copied second =
      let (p, used', free', a, run, held, frame, same, seen) = gotten in
      let (p', p'', once_run, twice_run, kept) = unpinned p used' free' a held frame same in
      let vacant : is_vacant (p.pool.frame a).fpage (pos 0) ≡ ok true =
        rw frame (record_at-none s.blocks f.fpage e.hdr.max_num_records (pos 0) there) in
      let stepped : hf_get_first_rec s (pos i) rec
          ≡ first_in x 1 e 0 (pos k) a rec (first_loop m 1 e rec) (with_pf s p') =
        first_run ∙ ground (arith, run, vacant, bound, u.below, once_run) in
      let second' : SecondReads s.blocks (p'.pool.frame a).fpage e.hdr.max_num_records x rec =
        rw kept second in
      let (rec'', last) =
        first_in-invalid n e 0 k a (first_loop m 1 e rec) (with_pf s p') p'' u.below twice_run x rec
          second' in
      (with_pf s p'', rec'', stepped ∙ last)
  hf_get_first_rec-FindsFirst (some text) rec' there copied second =
      let (p, used', free', a, run, held, frame, same, seen) = gotten in
      let (p', p'', once_run, twice_run, kept) = unpinned p used' free' a held frame same in
      let (vacant, copies) =
        record_at-some s.blocks f.fpage e.hdr.max_num_records (pos 0) text rec there in
      let vacant' : is_vacant (p.pool.frame a).fpage (pos 0) ≡ ok false = rw frame vacant in
      let copies' : fetch_record s.blocks (p.pool.frame a).fpage e.hdr.max_num_records (pos 0) rec
          ≡ ok rec' =
        rw frame (copies ∙ copied) in
      (with_pf s p', first_run ∙ ground (arith, run, vacant', copies', bound, u.below, once_run))
