-- ===== src/Am/Tree/Arrivals.antt =====
-- A round of the loop of find_leaf in am/utils.c has reached a node: the leaf, or the start of the
-- next round.
use adb_minirel.Prelude.{
  ℕ, suc, ◌+◌, ◌≤◌, ◌<◌, ◌^◌, ◌≡◌, ◌≢◌, refl, true, false, List, ◌∷◌, Option, arith, ◌∙◌, ap, sym,
  length, ◌==◌, ==_refl, ==_iff, Bool-cases, inl, inr,
}
use mathlib.Core.Path.{subst}
use adb_minirel.Prelude.Int.{pos}
use adb_minirel.Prelude.Result.{ok}
use adb_minirel.Memory.{Ptr}
use adb_minirel.Unix.{Buf}
use adb_minirel.Bf.{Frame, is_pinned, short_dec, short_inc}
use adb_minirel.Bf.Api.Spec.{pin_again}
use adb_minirel.Pf.{FtabEle, Pf}
use adb_minirel.Pf.Pages.{request}
use adb_minirel.Hf.State.{keyed-Held, filled_pf, filled_pf-Held}
use adb_minirel.Bf.Api.View.{is_page}
use adb_minirel.Hf.Bytes.Access.{pointer_stored, store_pointer_run}
use adb_minirel.Hf.Bytes.{put_bytes, pointer_bytes}
use adb_minirel.Am.Nodes.{
  internal_type, leaf_type, InternalNode, load_internal, node_bytes, Addresses, set_leaf_pairs,
}
use adb_minirel.Am.Tree.{find_leaf_loop}
use adb_minirel.Am.Tree.Rounds.{IsNode, IsRound}
use adb_minirel.Am.Tree.Ways.{
  ending, passes, Way, Leads, ends, goes, IsFound, Leads-kept, not_ending,
}

-- The node at `a`, whose page is `k`, has become the node at `b`.
module _ (address : Addresses) (n count : ℕ) (key : Option Buf) (top : InternalNode)
    (used : List Ptr) (pe : FtabEle) (root : Ptr) (free : List Ptr) (s : Pf) (k k' : ℕ) (a b : Ptr)
    (gone : ℕ → ℕ) (room : 16 + 8 ≤ length (s.pool.frame a).fpage) (apart : a ≢ b)
    (round : IsRound address n root key (pos k) s used free a k' b gone room)
    (to : IsNode s used n count k' b) (fuel : ℕ) where
  bytes_kept : node_bytes round.state b ≡ node_bytes s b
  bytes_kept = ap (λ (f : Frame). f.fpage) round.entered

  -- It is the leaf.
  reached :
      (node : InternalNode)
      → load_internal (node_bytes s b) ≡ ok node
      → node.type ≡ leaf_type
      → IsFound address
          (find_leaf_loop (suc fuel) address (pos n) root key (pos k) a s)
          s
          used
          free
          a
          b
          gone
  unfolding find_leaf_loop set_leaf_pairs
  reached node loads is =
      let bq = request pe (pos n) (pos k') in
      let s₃ = round.state in
      let here = round.entered in
      let keyed : is_page (s₃.pool.frame b) (pos n) (pos k') ≡ true = rw here to.keyed in
      let y = keyed-Held s₃ used free bq b round.pf to.listed keyed in
      let wide : 24 + 8 ≤ length (s₃.pool.frame b).fpage = rw here to.room in
      let bytes = pointer_stored (s₃.pool.frame b).fpage 24 (address b + 32) wide in
      let stored = store_pointer_run (s₃.pool.frame b).fpage 24 (address b + 32) wide in
      let s₄ = filled_pf s₃ used free bq b y bytes in
      let written : set_leaf_pairs address s₃ b ≡ ok s₄ = ground (arith, stored, ==_refl b) in
      let shown : load_internal (node_bytes s₃ b) ≡ ok node = rw bytes_kept loads in
      let full : s₄.pool.frame b ≡ record (s₃.pool.frame b) { fpage = bytes } =
        ground (arith, ==_refl b) in
      let still : (c : Ptr) → c ≢ b → s₄.pool.frame c ≡ s₃.pool.frame c =
        λ c i. ground (arith, i) in
      record {
        state = s₄;
        run = rw (round.stores, round.leads, round.gets, round.leaves, shown, is, written) refl;
        pf = (filled_pf-Held s₃ used free bq b y bytes).pf;
        kept = round.kept;
        entered =
            full
            ∙ ap
                (λ (f : Frame). record f {
                  fpage = put_bytes f.fpage 24 (pointer_bytes (address b + 32));
                })
                here;
        passed =
            ap (λ (f : Frame). f.count) (still a apart) ∙ ap (λ (f : Frame). f.count) round.passed;
        others = λ c i j. ap (λ (f : Frame). f.count) (still c j ∙ round.others c i j);
      }

  -- It is an internal node, and the loop goes on.
  continued :
      (node : InternalNode) (way : Way)
      → load_internal (node_bytes s b) ≡ ok node
      → node.type ≡ internal_type
      → (s.pool.frame b).count + 1 < 2 ^ 15
      → a ≢ ending b way
      → b ≢ ending b way
      → IsFound address
          (find_leaf_loop fuel address (pos n) root key (pos k') b round.state)
          round.state
          used
          free
          b
          (ending b way)
          short_dec
      → IsFound address
          (find_leaf_loop (suc fuel) address (pos n) root key (pos k) a s)
          s
          used
          free
          a
          (ending b way)
          gone
  unfolding find_leaf_loop
  continued node way loads is few ne ne' later =
      let end = ending b way in
      let shown : load_internal (node_bytes round.state b) ≡ ok node = rw bytes_kept loads in
      let same : round.state.pool.frame end ≡ s.pool.frame end =
        round.others end (λ z. ne (sym z)) (λ z. ne' (sym z)) in
      record {
        state = later.state;
        run = rw (round.stores, round.leads, round.gets, round.leaves, shown, is) later.run;
        pf = later.pf;
        kept = later.kept ∙ round.kept;
        entered =
            later.entered
            ∙ ap
                (λ (f : Frame). record (pin_again f) {
                  fpage = put_bytes f.fpage 24 (pointer_bytes (address end + 32));
                })
                same;
        passed = later.others a apart ne ∙ ap (λ (f : Frame). f.count) round.passed;
        others = λ c i j. elim (Bool-cases (c == b)) [
          | inl here ↦
              let is_b : c ≡ b = (==_iff c b).0 here in
              let back : short_dec (short_inc (s.pool.frame b).count) ≡ (s.pool.frame b).count =
                omega (arith, few) in
              let mid = later.passed ∙ ap (λ (f : Frame). short_dec f.count) round.entered ∙ back in
              subst (λ x. (later.state.pool.frame x).count ≡ (s.pool.frame x).count) (sym is_b) mid
          | inr there ↦
              let ne_b : c ≢ b = λ z. absurd (let r = ==_iff c b in ground (arith, z)) in
              later.others c ne_b j ∙ ap (λ (f : Frame). f.count) (round.others c i ne_b)
        ];
      }

  -- The node is pinned once more, which is the start of the next round.
  pub pinned_once :
      (s.pool.frame b).count + 1 < 2 ^ 15 → is_pinned (round.state.pool.frame b).count ≡ true
  pinned_once few =
      let more : is_pinned (short_inc (s.pool.frame b).count) ≡ true = ground (arith, few) in
      rw round.entered more

  pub round-IsNode : IsNode round.state used n count k' b
  round-IsNode = record {
    inside = to.inside;
    placed = to.placed;
    listed = to.listed;
    keyed = rw round.entered to.keyed;
    room = rw round.entered to.room;
  }

  pub way_kept :
      (way : Way)
      → passes a way ≡ false
      → passes b way ≡ false
      → Leads address n count key top used s b way
      → Leads address n count key top used round.state b way
  way_kept way off off' =
      Leads-kept address n count key top used s round.state b way bytes_kept (λ c on.
        round.others c (λ z. absurd (let r = ap (λ x. passes x way) z in ground arith))
          (λ z. absurd (let r = ap (λ x. passes x way) z in ground arith)))

  pub passes_off : (way : Way) → Leads address n count key top used s b way → passes b way ≡ false
  passes_off _ (ends _ _ _ _) = refl
  passes_off _ (goes _ _ _ _ _ _ _ _ _ _ _ off _) = off

  pub arrived :
      (way : Way)
      → (s.pool.frame b).count + 1 < 2 ^ 15
      → passes a way ≡ false
      → Leads address n count key top used s b way
      → ((k'' : ℕ) (c : Ptr) (rest : Way)
          → way ≡ (k'', c) ∷ rest
          → IsFound address
              (find_leaf_loop fuel address (pos n) root key (pos k') b round.state)
              round.state
              used
              free
              b
              (ending c rest)
              short_dec)
      → IsFound address
          (find_leaf_loop (suc fuel) address (pos n) root key (pos k) a s)
          s
          used
          free
          a
          (ending b way)
          gone
  arrived _ few off (ends _ node loads is) later = reached node loads is
  arrived _ few off (goes _ node k'' c rest loads is _ _ _ _ off' _) later =
      let ne_a : a ≢ c = λ z. absurd (let r = ==_iff a c in ground arith) in
      let ne_b : b ≢ c = λ z. absurd (let r = ==_iff b c in ground arith) in
      continued node ((k'', c) ∷ rest) loads is few (not_ending a c rest (ground arith) ne_a)
        (not_ending b c rest (ground arith) ne_b) (later k'' c rest refl)
