-- ===== src/Am/Leaves/Steps.antt =====
-- What update_scan_entry_key_index of am/utils.c does, in a leaf and from one leaf to the next.
use adb_minirel.Prelude.{
  ℕ, ◌+◌, ◌≤◌, ◌<◌, ◌≡◌, ◌≢◌, refl, ◌⊎◌, inl, inr, Bool-cases, true, false, List, arith, length,
  ==_refl,
}
use adb_minirel.Prelude.Int.{pos, negsuc, leb_ℤ, int_inc}
use adb_minirel.Prelude.Result.{Result, ok, ◌>>=◌}
use adb_minirel.Memory.{Ptr}
use adb_minirel.Bf.{is_pinned, short_dec}
use adb_minirel.Bf.Api.View.{is_page}
use adb_minirel.Bf.Api.Spec.{pin_again}
use adb_minirel.Pf.{FtabEle, Pf}
use adb_minirel.Pf.Pages.{request, pf_get_this_page}
use adb_minirel.Pf.State.{IsPf, IsOpen}
use adb_minirel.Unix.{max_pages}
use adb_minirel.Hf.State.{Held, keyed-Held, filled_pf, filled_pf-Held, IsOpen-kept}
use adb_minirel.Hf.Bytes.Access.{pointer_stored, store_pointer_run}
use adb_minirel.Am.Nodes.{LeafNode, load_leaf, node_bytes, Addresses, set_leaf_pairs}
use adb_minirel.Am.Tree.{AmCode, ame_ok, ame_eof}
use adb_minirel.Am.Leaves.{ScanTableEntry, enter_leaf, update_scan_entry_key_index}
use adb_minirel.Hf.Pins.{
  Held-apart, unpinned_pf, unpin_run, unpinned_pf-IsPf, pinned_pf, get_run, pinned_pf-IsPf,
}

-- The scan is at the first entry of the leaf at `b`, which has one pin more and the pointer to its
-- pairs set; the leaf where it was has one pin less, and the other pages are as before.
pub record IsNext (address : Addresses) (r : Result (Pf × ScanTableEntry × AmCode)) (s : Pf)
    (used free : List Ptr) (e : ScanTableEntry) (b : Ptr)
    (room : 24 + 8 ≤ length (s.pool.frame b).fpage) : Type 0 where
  pub state : Pf
  pub run : r ≡ ok (state, record e { key_index = pos 0; leaf = b }, ame_ok)
  pub pf : IsPf state used free
  pub kept : state.file_table ≡ s.file_table
  pub entered : state.pool.frame b ≡ record (pin_again (s.pool.frame b)) {
    fpage = pointer_stored (s.pool.frame b).fpage 24 (address b + 32) room;
  }
  pub left :
      state.pool.frame e.leaf
      ≡ record (s.pool.frame e.leaf) { count = short_dec (s.pool.frame e.leaf).count }
  pub others : (c : Ptr) → c ≢ b → c ≢ e.leaf → state.pool.frame c ≡ s.pool.frame c

-- The page that follows is another page of the file, which stands in the pool at `b`, and has room
-- for the fields of a leaf.
pub record IsReady (s : Pf) (used free : List Ptr) (n : ℕ) (pe : FtabEle) (count k k' : ℕ) (b : Ptr)
    : Type 0 where
  pub other : k ≢ k'
  pub inside : k' < count
  pub placed : k' < max_pages
  pub held : Held s used free (request pe (pos n) (pos k')) b
  pub room : 24 + 8 ≤ length (s.pool.frame b).fpage

module _ (address : Addresses) (s : Pf) (used free : List Ptr) (n : ℕ) (pe : FtabEle) (count : ℕ)
    (o : IsOpen s n pe count) (e : ScanTableEntry) (k : ℕ) (h : k < count) (h' : k < max_pages)
    (held : Held s used free (request pe (pos n) (pos k)) e.leaf)
    (pinned : is_pinned (s.pool.frame e.leaf).count ≡ true) where
  goes_on :
      (k' : ℕ) (b : Ptr) (next : IsReady s used free n pe count k k' b)
      → IsNext address
          (pf_get_this_page s (pos n) (pos k')
            >>= enter_leaf address (pos n) (pos k) (record e { key_index = pos 0 }))
          s
          used
          free
          e
          b
          next.room
  unfolding enter_leaf set_leaf_pairs
  goes_on k' b next =
      let bq = request pe (pos n) (pos k') in
      let a = e.leaf in
      let apart = Held-apart s used free n k k' pe a b next.other held next.held in
      let s₁ = pinned_pf s used free n pe count o k' next.inside next.placed b next.held in
      let got = get_run s used free n pe count o k' next.inside next.placed b next.held in
      let w₁ = pinned_pf-IsPf s used free n pe count o k' next.inside next.placed b next.held in
      let same₁ : s₁.pool.frame b ≡ pin_again (s.pool.frame b) = ground (arith, ==_refl b) in
      let y₁ =
        keyed-Held s₁ used free bq b w₁ next.held.found.listed
          (let hit = next.held.found.keyed in ground (arith, same₁)) in
      let bytes = pointer_stored (s.pool.frame b).fpage 24 (address b + 32) next.room in
      let stored = store_pointer_run (s.pool.frame b).fpage 24 (address b + 32) next.room in
      let s₂ = filled_pf s₁ used free bq b y₁ bytes in
      let y₂ = filled_pf-Held s₁ used free bq b y₁ bytes in
      let there : s₂.pool.frame a ≡ s.pool.frame a = ground (arith, apart) in
      let keyed : is_page (s₂.pool.frame a) (pos n) (pos k) ≡ true = rw there held.found.keyed in
      let pinned₂ : is_pinned (s₂.pool.frame a).count ≡ true = rw there pinned in
      let x₂ =
        keyed-Held s₂ used free (request pe (pos n) (pos k)) a y₂.pf held.found.listed keyed in
      let o₂ = IsOpen-kept s s₂ n pe count o refl in
      let s₃ = unpinned_pf s₂ used free n pe count o₂ k h h' a x₂ pinned₂ in
      let out = unpin_run s₂ used free n pe count o₂ k h h' a x₂ pinned₂ in
      let written : set_leaf_pairs address s₁ b ≡ ok s₂ = ground (arith, stored, ==_refl b) in
      record {
        state = s₃;
        run = rw (got, written, out) refl;
        pf = unpinned_pf-IsPf s₂ used free n pe count o₂ k h h' a x₂ pinned₂;
        kept = refl {a = s.file_table};
        entered = ground (arith, apart, ==_refl b);
        left = ground (arith, apart, ==_refl a);
        others = λ c i j. ground (arith, i, j);
      }

  -- The ways the scan can go on from a leaf.
  pub data Advances (node : LeafNode) (r : Result (Pf × ScanTableEntry × AmCode)) : Type 0 where
    within :
        leb_ℤ node.valid_entries (int_inc e.key_index) ≡ false
        → r ≡ ok (s, record e { key_index = int_inc e.key_index }, ame_ok)
        → Advances node r
    ended :
        leb_ℤ node.valid_entries (int_inc e.key_index) ≡ true
        → node.next_leaf ≡ negsuc 0
        → r ≡ ok (s, e, ame_eof)
        → Advances node r
    moved :
        (k' : ℕ) (b : Ptr) (next : IsReady s used free n pe count k k' b)
        → leb_ℤ node.valid_entries (int_inc e.key_index) ≡ true
        → node.next_leaf ≡ pos k'
        → IsNext address r s used free e b next.room
        → Advances node r

  -- On a well-formed state, for a scan that stands in a leaf which is pinned and whose next leaf is
  -- either none or another page of the file, below 524287, that stands in the pool:
  -- update_scan_entry_key_index goes to the next index, with AME_OK and no other change, if the
  -- leaf has an entry there; else it returns AME_EOF without a change if no leaf follows; else it
  -- moves the scan to index 0 of the next leaf with AME_OK, in a well-formed state where that leaf
  -- has one pin more and its pairs set, the one before has one pin less, and no other page has
  -- changed.
  pub update_scan_entry_key_index-Advances :
      (node : LeafNode)
      → load_leaf (node_bytes s e.leaf) ≡ ok node
      → node.pagenum ≡ pos k
      → (node.next_leaf ≡ negsuc 0)
        ⊎ ((k' : ℕ) × (b : Ptr) × (node.next_leaf ≡ pos k') × IsReady s used free n pe count k k' b)
      → Advances node (update_scan_entry_key_index address s (pos n) e)
  unfolding update_scan_entry_key_index
  update_scan_entry_key_index-Advances node loads here next =
      elim (Bool-cases (leb_ℤ node.valid_entries (int_inc e.key_index))) [
        | inr more ↦ within more (rw (loads, more) refl)
        | inl last ↦ elim next [
          | inl end ↦ ended last end (rw (loads, last, end) refl)
          | inr (k', b, is, ready) ↦
              moved k' b ready last is (rw (loads, last, is, here) (goes_on k' b ready))
        ]
      ]
