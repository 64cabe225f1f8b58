-- ===== src/Am/Tree/Rounds.antt =====
-- One round of the loop of find_leaf in am/utils.c: from a node to the child that the key leads to.
use adb_minirel.Prelude.{
  ℕ, ◌+◌, ◌≤◌, ◌<◌, ◌≡◌, ◌≢◌, refl, true, false, List, Option, arith, ◌∙◌, ap, sym, length, mem,
  ==_refl,
}
use adb_minirel.Prelude.Int.{ℤ, pos, eq_ℤ}
use adb_minirel.Prelude.Result.{ok}
use adb_minirel.Memory.{Ptr}
use adb_minirel.Unix.{Buf}
use adb_minirel.Bf.{BfReq, Frame, is_pinned, short_dec}
use adb_minirel.Bf.Api.View.{is_page}
use adb_minirel.Bf.Api.Spec.{pin_again}
use adb_minirel.Pf.{FtabEle, Pf, pf_page}
use adb_minirel.Pf.Pages.{request, pf_get_this_page}
use adb_minirel.Pf.State.{IsPf, IsOpen}
use adb_minirel.Unix.{max_pages}
use adb_minirel.Hf.State.{Held, keyed-Held, filled_pf, filled_pf-Held, IsOpen-kept}
use adb_minirel.Hf.Bytes.Access.{pointer_stored, store_pointer_run}
use adb_minirel.Am.Nodes.{InternalNode, load_internal, node_bytes, Addresses, set_internal_pairs}
use adb_minirel.Am.Tree.{child_of, leave}
use adb_minirel.Hf.Pins.{
  unpinned_pf, unpin_run, unpinned_pf-IsPf, pinned_pf, get_run, pinned_pf-IsPf,
}

-- The page `k` of the file stands in the pool at `a`, and has room for the fields of a node.
pub record IsNode (s : Pf) (used : List Ptr) (n count k : ℕ) (a : Ptr) : Type 0 where
  pub inside : k < count
  pub placed : k < max_pages
  pub listed : mem a used ≡ true
  pub keyed : is_page (s.pool.frame a) (pos n) (pos k) ≡ true
  pub room : 24 + 8 ≤ length (s.pool.frame a).fpage

pub room-internal : (b : Buf) → 24 + 8 ≤ length b → 16 + 8 ≤ length b
room-internal b h = omega (arith, h)

-- A round that goes from the node at `a` to the one at `b` and leaves `gone` of the pins of `a`.
pub record IsRound (address : Addresses) (n : ℕ) (root : Ptr) (key : Option Buf) (prev_pagenum : ℤ)
    (s : Pf) (used free : List Ptr) (a : Ptr) (k' : ℕ) (b : Ptr) (gone : ℕ → ℕ)
    (room : 16 + 8 ≤ length (s.pool.frame a).fpage) : Type 0 where
  pub stored : Pf
  pub gotten : Pf
  pub state : Pf
  pub stores : set_internal_pairs address s a ≡ ok stored
  pub leads : child_of key (node_bytes stored a) ≡ ok (pos k')
  pub gets : pf_get_this_page stored (pos n) (pos k') ≡ ok (gotten, pf_page b)
  pub leaves : leave gotten (pos n) root prev_pagenum ≡ ok state
  pub pf : IsPf state used free
  pub kept : state.file_table ≡ s.file_table
  pub entered : state.pool.frame b ≡ pin_again (s.pool.frame b)
  pub passed : state.pool.frame a ≡ record (s.pool.frame a) {
    fpage = pointer_stored (s.pool.frame a).fpage 16 (address a + 24) room;
    count = gone (s.pool.frame a).count;
  }
  pub others : (c : Ptr) → c ≢ a → c ≢ b → state.pool.frame c ≡ s.pool.frame c

module _ (address : Addresses) (n : ℕ) (pe : FtabEle) (count : ℕ) (key : Option Buf) (s : Pf)
    (used free : List Ptr) (w : IsPf s used free) (o : IsOpen s n pe count) (k : ℕ) (a : Ptr)
    (at : IsNode s used n count k a) (k' : ℕ) (b : Ptr) (to : IsNode s used n count k' b)
    (apart : a ≢ b)
    (follows : child_of key (
        pointer_stored
          (s.pool.frame a).fpage
          16
          (address a + 24)
          (room-internal (s.pool.frame a).fpage at.room))
      ≡ ok (pos k'))
    (top : InternalNode) where
  abbrev from_bq : BfReq
  from_bq = request pe (pos n) (pos k)

  abbrev to_bq : BfReq
  to_bq = request pe (pos n) (pos k')

  abbrev room : 16 + 8 ≤ length (s.pool.frame a).fpage
  room = room-internal (s.pool.frame a).fpage at.room

  abbrev bytes : Buf
  bytes = pointer_stored (s.pool.frame a).fpage 16 (address a + 24) room

  x : Held s used free from_bq a
  x = keyed-Held s used free from_bq a w at.listed at.keyed

  abbrev s₁ : Pf
  s₁ = filled_pf s used free from_bq a x bytes

  x₁ : Held s₁ used free from_bq a
  x₁ = filled_pf-Held s used free from_bq a x bytes

  swapped : b ≢ a
  swapped z = apart (sym z)

  y₁ : Held s₁ used free to_bq b
  y₁ =
      let hit = to.keyed in
      let same : s₁.pool.frame b ≡ s.pool.frame b = ground (arith, swapped) in
      keyed-Held s₁ used free to_bq b x₁.pf to.listed (rw same to.keyed)

  o₁ : IsOpen s₁ n pe count
  o₁ = IsOpen-kept s s₁ n pe count o (refl {a = s.file_table})

  abbrev s₂ : Pf
  s₂ = pinned_pf s₁ used free n pe count o₁ k' to.inside to.placed b y₁

  w₂ : IsPf s₂ used free
  w₂ = pinned_pf-IsPf s₁ used free n pe count o₁ k' to.inside to.placed b y₁

  stores : set_internal_pairs address s a ≡ ok s₁
  unfolding set_internal_pairs
  stores =
      let run = store_pointer_run (s.pool.frame a).fpage 16 (address a + 24) room in
      ground (arith, run)

  gets : pf_get_this_page s₁ (pos n) (pos k') ≡ ok (s₂, pf_page b)
  gets = get_run s₁ used free n pe count o₁ k' to.inside to.placed b y₁

  filled : s₁.pool.frame a ≡ record (s.pool.frame a) { fpage = bytes }
  filled = ground (arith, ==_refl a)

  leads : child_of key (node_bytes s₁ a) ≡ ok (pos k')
  leads = ap (λ (f : Frame). child_of key f.fpage) filled ∙ follows

  filled₂ : s₂.pool.frame a ≡ record (s.pool.frame a) { fpage = bytes }
  filled₂ = ground (arith, apart, ==_refl a)

  entered₂ : s₂.pool.frame b ≡ pin_again (s.pool.frame b)
  entered₂ = ground (arith, swapped, ==_refl b)

  others₂ : (c : Ptr) → c ≢ a → c ≢ b → s₂.pool.frame c ≡ s.pool.frame c
  others₂ c i j = ground (arith, i, j)

  -- The root keeps its pins.
  pub root-IsRound :
      load_internal bytes ≡ ok top
      → eq_ℤ (pos k) top.pagenum ≡ true
      → IsRound address n a key (pos k) s used free a k' b (λ c. c) room
  unfolding leave
  root-IsRound loads same =
      let shown : load_internal (node_bytes s₂ a) ≡ ok top =
        ap (λ (f : Frame). load_internal f.fpage) filled₂ ∙ loads in
      record {
        stored = s₁;
        gotten = s₂;
        state = s₂;
        stores = stores;
        leads = leads;
        gets = gets;
        leaves = rw (shown, same) refl;
        pf = w₂;
        kept = refl {a = s.file_table};
        entered = entered₂;
        passed = filled₂;
        others = others₂;
      }

  module _ (root : Ptr) (below : root ≢ a) (below' : root ≢ b)
      (pinned : is_pinned (s.pool.frame a).count ≡ true) where
    held_still : Held s₂ used free from_bq a
    held_still =
        let keyed : is_page (s₂.pool.frame a) (pos n) (pos k) ≡ true = rw filled₂ at.keyed in
        keyed-Held s₂ used free from_bq a w₂ at.listed keyed

    pinned_still : is_pinned (s₂.pool.frame a).count ≡ true
    pinned_still = rw filled₂ pinned

    o₂ : IsOpen s₂ n pe count
    o₂ = IsOpen-kept s s₂ n pe count o (refl {a = s.file_table})

    abbrev s₃ : Pf
    s₃ = unpinned_pf s₂ used free n pe count o₂ k at.inside at.placed a held_still pinned_still

    -- Another node is unpinned.
    pub node-IsRound :
        load_internal (node_bytes s root) ≡ ok top
        → eq_ℤ (pos k) top.pagenum ≡ false
        → IsRound address n root key (pos k) s used free a k' b short_dec room
    unfolding leave
    node-IsRound loads other =
        let shown : load_internal (node_bytes s₂ root) ≡ ok top =
          ap (λ (f : Frame). load_internal f.fpage) (others₂ root below below') ∙ loads in
        let out =
          unpin_run s₂ used free n pe count o₂ k at.inside at.placed a held_still pinned_still in
        let gone : s₃.pool.frame a
            ≡ record (s₂.pool.frame a) { count = short_dec (s₂.pool.frame a).count } =
          ground (arith, ==_refl a) in
        record {
          stored = s₁;
          gotten = s₂;
          state = s₃;
          stores = stores;
          leads = leads;
          gets = gets;
          leaves = rw (shown, other, out) refl;
          pf =
              unpinned_pf-IsPf s₂ used free n pe count o₂ k at.inside at.placed a held_still
                pinned_still;
          kept = refl {a = s.file_table};
          entered =
              let still : s₃.pool.frame b ≡ s₂.pool.frame b = ground (arith, swapped) in
              still ∙ entered₂;
          passed = gone ∙ ap (λ (f : Frame). record f { count = short_dec f.count }) filled₂;
          others = λ c i j.
              let still : s₃.pool.frame c ≡ s₂.pool.frame c = ground (arith, i) in
              still ∙ others₂ c i j;
        }
