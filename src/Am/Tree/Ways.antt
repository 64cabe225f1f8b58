-- ===== src/Am/Tree/Ways.antt =====
-- The ways down a tree of am/utils.c from a node to a leaf, and what a search for the leaf returns.
use adb_minirel.Prelude.{
  ℕ, ◌+◌, ◌<◌, ◌^◌, ◌≡◌, ◌≢◌, Bool, true, false, ◌||◌, List, [], ◌∷◌, Option, arith, ◌∙◌, ap, ◌==◌,
  ==_refl, ==_iff,
}
use adb_minirel.Prelude.Int.{pos, eq_ℤ}
use adb_minirel.Prelude.Result.{Result, ok}
use adb_minirel.Memory.{Ptr}
use adb_minirel.Unix.{Buf}
use adb_minirel.Bf.{Frame}
use adb_minirel.Bf.Api.Spec.{pin_again}
use adb_minirel.Pf.{Pf}
use adb_minirel.Pf.State.{IsPf}
use adb_minirel.Hf.Bytes.{put_bytes, pointer_bytes}
use adb_minirel.Am.Nodes.{
  internal_type, leaf_type, InternalNode, load_internal, node_bytes, Addresses,
}
use adb_minirel.Am.Tree.{child_of}
use adb_minirel.Am.Tree.Rounds.{IsNode}

-- A way down: the number and the address of each page after the first.
abbrev pub Way : Type 0
Way = List (ℕ × Ptr)

abbrev pub passes : Ptr → Way → Bool
passes a [] = false
passes a ((k, b) ∷ way) = a == b || passes a way

-- Where a way from `a` ends.
abbrev pub ending : Ptr → Way → Ptr
ending a [] = a
ending a ((k, b) ∷ way) = ending b way

-- The bytes of an internal node with the pointer to its pairs set.
abbrev pub with_pairs : Addresses → Pf → Ptr → Buf
with_pairs address s a = put_bytes (node_bytes s a) 16 (pointer_bytes (address a + 24))

-- From the node at `a` the key leads along the way to a leaf: each node but the last is an internal
-- one, each page after the first is a page of the file, other than the root's, that stands in the
-- pool and can be pinned once more, and no page comes twice.
pub data Leads (address : Addresses) (n count : ℕ) (key : Option Buf) (top : InternalNode)
    (used : List Ptr) (s : Pf) : Ptr → Way → Type 0 where
  ends :
      (a : Ptr) (node : InternalNode)
      → load_internal (node_bytes s a) ≡ ok node
      → node.type ≡ leaf_type
      → Leads address n count key top used s a []
  goes :
      (a : Ptr) (node : InternalNode) (k : ℕ) (b : Ptr) (way : Way)
      → load_internal (node_bytes s a) ≡ ok node
      → node.type ≡ internal_type
      → child_of key (with_pairs address s a) ≡ ok (pos k)
      → IsNode s used n count k b
      → (s.pool.frame b).count + 1 < 2 ^ 15
      → eq_ℤ (pos k) top.pagenum ≡ false
      → passes a ((k, b) ∷ way) ≡ false
      → Leads address n count key top used s b way
      → Leads address n count key top used s a ((k, b) ∷ way)

-- The run returns the leaf, with one pin more and the pointer to its pairs set; `gone` is what
-- becomes of the pins of the node `a`, and those of the other pages are as before.
pub record IsFound (address : Addresses) (r : Result (Pf × Ptr)) (s : Pf) (used free : List Ptr)
    (a end : Ptr) (gone : ℕ → ℕ) : Type 0 where
  pub state : Pf
  pub run : r ≡ ok (state, end)
  pub pf : IsPf state used free
  pub kept : state.file_table ≡ s.file_table
  pub entered : state.pool.frame end ≡ record (pin_again (s.pool.frame end)) {
    fpage = put_bytes (node_bytes s end) 24 (pointer_bytes (address end + 32));
  }
  pub passed : (state.pool.frame a).count ≡ gone (s.pool.frame a).count
  pub others : (c : Ptr) → c ≢ a → c ≢ end → (state.pool.frame c).count ≡ (s.pool.frame c).count

module _ (address : Addresses) (n count : ℕ) (key : Option Buf) (top : InternalNode)
    (used : List Ptr) where
  IsNode-kept :
      (s s' : Pf) (k : ℕ) (b : Ptr)
      → s'.pool.frame b ≡ s.pool.frame b
      → IsNode s used n count k b
      → IsNode s' used n count k b
  IsNode-kept s s' k b same at = record {
    inside = at.inside;
    placed = at.placed;
    listed = at.listed;
    keyed = rw same at.keyed;
    room = rw same at.room;
  }

  -- A way is still there when its pages are.
  pub Leads-kept :
      (s s' : Pf) (a : Ptr) (way : Way)
      → node_bytes s' a ≡ node_bytes s a
      → ((c : Ptr) → passes c way ≡ true → s'.pool.frame c ≡ s.pool.frame c)
      → Leads address n count key top used s a way
      → Leads address n count key top used s' a way
  Leads-kept s s' a _ same on (ends _ node loads is) = ends a node (rw same loads) is
  Leads-kept s s' a _ same on (goes _ node k b way loads is child at few other apart rest) =
      let here : s'.pool.frame b ≡ s.pool.frame b = on b (ground (arith, ==_refl b)) in
      goes a node k b way (rw same loads) is
        (ap (λ x. child_of key (put_bytes x 16 (pointer_bytes (address a + 24)))) same ∙ child)
        (IsNode-kept s s' k b here at) (rw here few) other apart
        (Leads-kept s s' b way (ap (λ (f : Frame). f.fpage) here) (λ c h. on c (ground arith)) rest)

pub not_ending : (a b : Ptr) (way : Way) → passes a way ≡ false → a ≢ b → a ≢ ending b way
not_ending a b [] h ne = ne
not_ending a b ((k, c) ∷ way) h ne =
    not_ending a c way (ground arith) (λ z. absurd (let r = ==_iff a c in ground (arith, z)))
