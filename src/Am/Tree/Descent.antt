-- ===== src/Am/Tree/Descent.antt =====
-- find_leaf of am/utils.c: the way from the root down to the leaf that the key leads to.
use adb_minirel.Prelude.{
  ℕ, zero, suc, ◌≤◌, ◌≡◌, ◌≢◌, refl, true, false, List, ◌∷◌, Option, arith, ◌∙◌, ap, length, ==_iff,
}
use mathlib.Core.Path.{subst}
use adb_minirel.Prelude.Int.{pos, eq_ℤ}
use adb_minirel.Prelude.Result.{ok}
use adb_minirel.Memory.{Ptr}
use adb_minirel.Unix.{Buf}
use adb_minirel.Bf.{Frame, is_pinned, short_dec}
use adb_minirel.Pf.{FtabEle, Pf}
use adb_minirel.Hf.State.{IsOpen-kept}
use adb_minirel.Pf.State.{IsPf, IsOpen}
use adb_minirel.Am.Nodes.{InternalNode, load_internal, node_bytes, Addresses}
use adb_minirel.Am.Tree.{find_leaf_loop, find_leaf}
use adb_minirel.Am.Tree.Rounds.{IsNode, room-internal, root-IsRound, node-IsRound}
use adb_minirel.Am.Tree.Ways.{ending, passes, with_pairs, Way, Leads, goes, IsFound}
use adb_minirel.Am.Tree.Arrivals.{pinned_once, round-IsNode, way_kept, passes_off, arrived}

module _ (address : Addresses) (n count : ℕ) (key : Option Buf) (top : InternalNode)
    (used : List Ptr) (pe : FtabEle) (root : Ptr) (free : List Ptr) where
  -- From a node that is not the root, which is pinned.
  loop_finds :
      (s : Pf) (fuel k : ℕ) (a : Ptr) (k' : ℕ) (b : Ptr) (way : Way)
      → IsPf s used free
      → IsOpen s n pe count
      → IsNode s used n count k a
      → is_pinned (s.pool.frame a).count ≡ true
      → load_internal (node_bytes s root) ≡ ok top
      → root ≢ a
      → passes root ((k', b) ∷ way) ≡ false
      → eq_ℤ (pos k) top.pagenum ≡ false
      → Leads address n count key top used s a ((k', b) ∷ way)
      → length ((k', b) ∷ way) ≤ fuel
      → IsFound address
          (find_leaf_loop fuel address (pos n) root key (pos k) a s)
          s
          used
          free
          a
          (ending b way)
          short_dec
  loop_finds s zero k a k' b way w o at pinned loads off off' other leads enough =
      absurd (omega (arith, enough))
  loop_finds s (suc fuel) k a _ _ _ w o at pinned loads off off' other
        (goes _ node k' b way shown is child to few other' apart rest) enough =
      let ne : a ≢ b = λ z. absurd (let r = ==_iff a b in ground arith) in
      let ne_b : root ≢ b = λ z. absurd (let r = ==_iff root b in ground arith) in
      let round =
        node-IsRound address n pe count key s used free w o k a at k' b to ne child top root off
          ne_b pinned loads other in
      let room = room-internal (s.pool.frame a).fpage at.room in
      let loads' : load_internal (node_bytes round.state root) ≡ ok top =
        ap (λ (f : Frame). load_internal f.fpage) (round.others root off ne_b) ∙ loads in
      let off_a : passes a way ≡ false = ground arith in
      arrived address n count key top used pe root free s k k' a b short_dec room ne round to fuel
        way few off_a rest
        (λ k'' c way' is_way.
          let still =
            way_kept address n count key top used pe root free s k k' a b short_dec room ne round to
              fuel way off_a
              (passes_off address n count key top used pe root free s k k' a b short_dec room ne
                round to fuel way rest)
              rest in
          loop_finds round.state fuel k' b k'' c way' round.pf
            (IsOpen-kept s round.state n pe count o round.kept)
            (round-IsNode address n count key top used pe root free s k k' a b short_dec room ne
              round to fuel)
            (pinned_once address n count key top used pe root free s k k' a b short_dec room ne
              round to fuel few)
            loads' ne_b (let e = ap (λ x. passes root x) is_way in ground arith) other'
            (subst (λ x. Leads address n count key top used round.state b x) is_way still)
            (let e = ap length is_way in omega (arith, enough, e)))

  -- On a well-formed state, for an open file whose page 0 is the root, stands in the pool and has
  -- its own number in it, where the key leads from the root along a way of internal nodes down to a
  -- leaf, each page of it below 524287 and standing in the pool with room for one pin more, and
  -- with fuel for the levels of the way: find_leaf returns that leaf, pinned once more and with the
  -- pointer to its pairs set, in a well-formed state over the same file table, and every other page
  -- has the pins that it had before.
  pub find_leaf-IsFound :
      (s : Pf) (fuel k : ℕ) (b : Ptr) (way : Way)
      → IsPf s used free
      → IsOpen s n pe count
      → IsNode s used n count 0 root
      → load_internal (with_pairs address s root) ≡ ok top
      → top.pagenum ≡ pos 0
      → Leads address n count key top used s root ((k, b) ∷ way)
      → length ((k, b) ∷ way) ≤ fuel
      → IsFound address
          (find_leaf fuel address s (pos n) root key)
          s
          used
          free
          root
          (ending b way)
          (λ c. c)
  unfolding find_leaf
  find_leaf-IsFound s zero k b way w o at loads first leads enough = absurd (omega (arith, enough))
  find_leaf-IsFound s (suc fuel) _ _ _ w o at loads first
        (goes _ node k b way shown is child to few other apart rest) enough =
      let ne : root ≢ b = λ z. absurd (let r = ==_iff root b in ground arith) in
      let round =
        root-IsRound address n pe count key s used free w o 0 root at k b to ne child top loads
          (rw first refl) in
      let room = room-internal (s.pool.frame root).fpage at.room in
      let loads' : load_internal (node_bytes round.state root) ≡ ok top =
        ap (λ (f : Frame). load_internal f.fpage) round.passed ∙ loads in
      let off : passes root way ≡ false = ground arith in
      arrived address n count key top used pe root free s 0 k root b (λ c. c) room ne round to fuel
        way few off rest
        (λ k' c way' is_way.
          let still =
            way_kept address n count key top used pe root free s 0 k root b (λ c. c) room ne round
              to fuel way off
              (passes_off address n count key top used pe root free s 0 k root b (λ c. c) room ne
                round to fuel way rest)
              rest in
          loop_finds round.state fuel k b k' c way' round.pf
            (IsOpen-kept s round.state n pe count o round.kept)
            (round-IsNode address n count key top used pe root free s 0 k root b (λ c. c) room ne
              round to fuel)
            (pinned_once address n count key top used pe root free s 0 k root b (λ c. c) room ne
              round to fuel few)
            loads' ne (let e = ap (λ x. passes root x) is_way in ground arith) other
            (subst (λ x. Leads address n count key top used round.state b x) is_way still)
            (let e = ap length is_way in omega (arith, enough, e)))
