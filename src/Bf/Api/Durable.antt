-- ===== src/Bf/Api/Durable.antt =====
-- BF_FlushBuf of bf/bf.c where it returns BFE_OK: the bytes of the file.
use adb_minirel.Prelude.{
  ℕ, ◌≡◌, inl, inr, true, false, List, [], ◌∷◌, map, some, Option, arith, ◌==◌, ==_refl, Bool-cases,
  ◌∙◌, ap, mem, ltb, IsDistinct, sym,
}
use adb_minirel.Prelude.Int.{ℤ, pos, negsuc, eq_ℤ, eq_ℤ_iff, eq_ℤ_refl}
use adb_minirel.Prelude.Result.{ok}
use adb_minirel.Memory.{Ptr}
use adb_minirel.Unix.{Unix, write_at, slot}
use adb_minirel.Bf.{Frame, Pool, bfe_ok, is_pinned}
use adb_minirel.Bf.Api.{bf_flush_buf}
use adb_minirel.Bf.Api.Codes.{spec_write_back-SameNames}
use adb_minirel.Bf.Api.Flush.{bf_flush_buf-spec_flush}
use adb_minirel.Bf.Api.Spec.{spec_write_back, spec_flush_loop, spec_flush}
use adb_minirel.Bf.Api.View.{IsPool, View, view, block_of, remove_frame, as_entry}
use adb_minirel.Bf.Hash.Erase.{find_entry-mem}
use adb_minirel.Bf.Hash.{same_key}

-- The page of the frame stands in the file.
pub record IsStored (u : Unix) (inode : ℕ) (f : Frame) : Type 0 where
  pub inside : ltb (block_of f.pagenum) (u.file inode).size ≡ true
  pub stored : (u.file inode).block (block_of f.pagenum) ≡ f.fpage

-- A write of another page does not touch it.
write_back-keeps :
    (f g : Frame) (u : Unix) (inode : ℕ)
    → (block_of f.pagenum == block_of g.pagenum) ≡ false
    → IsStored u inode f
    → IsStored (spec_write_back g u).0 inode f
unfolding spec_write_back write_at
write_back-keeps f g u inode apart w =
    let inside = w.inside in
    let stored = w.stored in record { inside = ground arith; stored = ground arith }

write_back-IsStored :
    (f : Frame) (u : Unix) (inode : ℕ)
    → f.dirty ≡ true
    → u.opened f.unixfd ≡ some inode
    → (spec_write_back f u).1 ≡ true
    → IsStored (spec_write_back f u).0 inode f
unfolding spec_write_back write_at
write_back-IsStored f u inode dirty held good =
    let self = ==_refl inode in
    let self_block = ==_refl (block_of f.pagenum) in
    record { inside = ground arith; stored = ground arith }

-- The view after a page was written back and freed.
abbrev after : Frame → View → View
after f v = record {
  resident = remove_frame f.fd f.pagenum v.resident;
  spare = f ∷ v.spare;
  unix = (spec_write_back f v.unix).0;
}

module _ (frame : Ptr → Frame) (fd : ℤ) (a : Ptr) (inode : ℕ) where
  -- The other pages of the file that the list has stand elsewhere in the file.
  abbrev Elsewhere : List Ptr → Type 0
  Elsewhere xs =
      (b : Ptr)
      → mem b xs ≡ true
      → (b == a) ≡ false
      → eq_ℤ (frame b).fd fd ≡ true
      → (block_of (frame a).pagenum == block_of (frame b).pagenum) ≡ false

  flush_keeps :
      (xs : List Ptr) (v : View)
      → mem a xs ≡ false
      → Elsewhere xs
      → IsStored v.unix inode (frame a)
      → IsStored (spec_flush_loop fd (map frame xs) v).0.unix inode (frame a)
  unfolding spec_flush_loop
  flush_keeps [] v out apart w = w
  flush_keeps (x ∷ xs) v out apart w = elim (Bool-cases (eq_ℤ (frame x).fd fd)) [
    | inr other ↦ rw other (flush_keeps xs v (ground arith) (λ b m. apart b (ground arith)) w)
    | inl same ↦
        let kept =
          write_back-keeps (frame a) (frame x) v.unix inode
            (apart x (ground arith) (ground arith) same) w in
        elim (Bool-cases (is_pinned (frame x).count)) [
          | inl pinned ↦ rw (same, pinned) w
          | inr unpinned ↦ elim (Bool-cases (spec_write_back (frame x) v.unix).1) [
            | inr bad ↦ rw (same, unpinned, bad) kept
            | inl good ↦
                rw (same, unpinned, good)
                  (flush_keeps xs (after (frame x) v) (ground arith) (λ b m. apart b (ground arith))
                    kept)
          ]
        ]
  ]

  module _ (mine : eq_ℤ (frame a).fd fd ≡ true) (dirty : (frame a).dirty ≡ true) where
    flush_stores :
        (xs : List Ptr) (v : View)
        → IsDistinct xs
        → mem a xs ≡ true
        → Elsewhere xs
        → v.unix.opened (frame a).unixfd ≡ some inode
        → (spec_flush_loop fd (map frame xs) v).1 ≡ bfe_ok
        → IsStored (spec_flush_loop fd (map frame xs) v).0.unix inode (frame a)
    unfolding spec_flush_loop
    flush_stores [] v d m apart held done = cc
    flush_stores (x ∷ xs) v d m apart held done = elim (Bool-cases (a == x)) [
      | inl here ↦
          let at : x ≡ a = ground arith in
          elim (Bool-cases (is_pinned (frame a).count)) [
            | inl pinned ↦ absurd (let k = done in ground arith)
            | inr unpinned ↦ elim (Bool-cases (spec_write_back (frame a) v.unix).1) [
              | inr bad ↦ absurd (let k = done in ground arith)
              | inl good ↦
                  let now = write_back-IsStored (frame a) v.unix inode dirty held good in
                  rw (at, mine, unpinned, good)
                    (flush_keeps xs (after (frame a) v) (ground (arith, d.0))
                      (λ b m'. apart b (ground arith)) now)
            ]
          ]
      | inr there ↦
          let later : mem a xs ≡ true = ground arith in
          let apart' : Elsewhere xs = λ b m'. apart b (ground arith) in
          elim (Bool-cases (eq_ℤ (frame x).fd fd)) [
            | inr other ↦
                let done' : (spec_flush_loop fd (map frame xs) v).1 ≡ bfe_ok = ground arith in
                rw other (flush_stores xs v d.1 later apart' held done')
            | inl same ↦ elim (Bool-cases (is_pinned (frame x).count)) [
              | inl pinned ↦ absurd (let k = done in ground arith)
              | inr unpinned ↦ elim (Bool-cases (spec_write_back (frame x) v.unix).1) [
                | inr bad ↦ absurd (let k = done in ground arith)
                | inl good ↦
                    let done' : (spec_flush_loop fd (map frame xs) (after (frame x) v)).1 ≡ bfe_ok =
                      ground arith in
                    let held' : (after (frame x) v).unix.opened (frame a).unixfd ≡ some inode =
                      ap (λ (o : ℕ → Option ℕ). o (frame a).unixfd)
                        (spec_write_back-SameNames (frame x) v.unix).1
                      ∙ held in
                    rw (same, unpinned, good)
                      (flush_stores xs (after (frame x) v) d.1 later apart' held' done')
              ]
            ]
          ]
    ]

block_of-injective :
    (p q : ℤ)
    → slot p ≡ ok (block_of p)
    → slot q ≡ ok (block_of q)
    → eq_ℤ p q ≡ false
    → (block_of p == block_of q) ≡ false
block_of-injective (pos m) (pos n) h k e = ground arith
block_of-injective (pos m) (negsuc n) h k e = ground arith
block_of-injective (negsuc m) (pos n) h k e = ground arith
block_of-injective (negsuc m) (negsuc n) h k e = ground arith

-- Two pages of the pool that belong to one file stand at different places in it.
pool-Elsewhere :
    (p : Pool) (used free : List Ptr) (w : IsPool p used free) (a : Ptr) (inode : ℕ)
    → mem a used ≡ true
    → Elsewhere p.frame (p.frame a).fd a inode used
pool-Elsewhere p used free w a inode h b m ne same =
    let differ : eq_ℤ (p.frame a).pagenum (p.frame b).pagenum ≡ false =
      elim (Bool-cases (eq_ℤ (p.frame a).pagenum (p.frame b).pagenum)) [
        | inr other ↦ other
        | inl equal ↦
            let fd = (p.frame a).fd in
            let pagenum = (p.frame a).pagenum in
            let eq_pagenum = (eq_ℤ_iff pagenum (p.frame b).pagenum).0 equal in
            let key_a : same_key (p.frame a).fd (p.frame a).pagenum fd pagenum ≡ true =
              ground (arith, eq_ℤ_refl fd, eq_ℤ_refl pagenum) in
            let key_b : same_key (p.frame b).fd (p.frame b).pagenum fd pagenum ≡ true =
              rw (← eq_pagenum) (ground (arith, eq_ℤ_refl pagenum)) in
            let at_a = find_entry-mem (as_entry p.frame) a fd pagenum used w.unique h key_a in
            let at_b = find_entry-mem (as_entry p.frame) b fd pagenum used w.unique m key_b in
            absurd (let a_b : a ≡ b = sym at_a ∙ at_b in ground arith)
      ] in
    block_of-injective (p.frame a).pagenum (p.frame b).pagenum (w.placed a h).located
      (w.placed b m).located differ

flush_unix :
    (p : Pool) (used free : List Ptr) (w : IsPool p used free) (a : Ptr) (inode : ℕ)
    → mem a used ≡ true
    → (p.frame a).dirty ≡ true
    → p.unix.opened (p.frame a).unixfd ≡ some inode
    → (spec_flush (p.frame a).fd (view p used free)).1 ≡ bfe_ok
    → IsStored (spec_flush (p.frame a).fd (view p used free)).0.unix inode (p.frame a)
unfolding spec_flush
flush_unix p used free w a inode h dirty held done =
    flush_stores p.frame (p.frame a).fd a inode
      (ground (arith, eq_ℤ_iff (p.frame a).fd (p.frame a).fd)) dirty used (view p used free)
      w.distinct h (pool-Elsewhere p used free w a inode h) held done

-- If BF_FlushBuf returns BFE_OK on a well-formed pool, then for every page of the flushed file that
-- was in the pool and dirty, and whose Unix descriptor was open, the file behind that descriptor
-- holds the page's bytes at the page's place.
pub bf_flush_buf-IsStored :
    (p : Pool) (used free : List Ptr) (p' : Pool) (a : Ptr) (inode : ℕ)
    → IsPool p used free
    → mem a used ≡ true
    → (p.frame a).dirty ≡ true
    → p.unix.opened (p.frame a).unixfd ≡ some inode
    → bf_flush_buf p (p.frame a).fd ≡ ok (p', bfe_ok)
    → IsStored p'.unix inode (p.frame a)
bf_flush_buf-IsStored p used free p' a inode w h dirty held run =
    let (q, used', free', run', pool, seen) =
      bf_flush_buf-spec_flush p used free w (p.frame a).fd in
    let same : q ≡ p' = cc in
    let code : (spec_flush (p.frame a).fd (view p used free)).1 ≡ bfe_ok = cc in
    let unix : p'.unix ≡ (spec_flush (p.frame a).fd (view p used free)).0.unix =
      ap (λ (x : Pool). x.unix) (sym same) ∙ ap (λ (x : View). x.unix) seen in
    rw unix (flush_unix p used free w a inode h dirty held code)
