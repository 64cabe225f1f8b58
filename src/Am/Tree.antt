-- ===== src/Am/Tree.antt =====
-- am/utils.c: the first two leaves below a root, and the ways from the root down to a leaf.
pub mod Rounds
pub mod Ways
pub mod Arrivals
pub mod Descent
use adb_minirel.Prelude.{
  ℕ, zero, suc, ◌+◌, Bool, true, false, not, ◌&&◌, ◌||◌, Option, none, some, ◌==◌, if◌then◌else◌,
}
use adb_minirel.Prelude.Int.{ℤ, pos, negsuc, pos_part, eq_ℤ, leb_ℤ, int_inc}
use adb_minirel.Prelude.Result.{Result, ok, fault, out_of_fuel, ◌>>=◌}
use adb_minirel.Memory.{Ptr}
use adb_minirel.Unix.{Buf}
use adb_minirel.Pf.{Pf, PfCode, pfe_ok, PfAnswer, pf_page, pf_failed}
use adb_minirel.Pf.Pages.{pf_alloc_page, pf_get_this_page, pf_unpin_page}
use adb_minirel.Hf.{is_pfe_ok}
use adb_minirel.Hf.Bytes.{load_int, store_int}
use adb_minirel.Am.{get_ptr_address_internal, internal_node_ptr_size, find_ptr_index_internal}
use adb_minirel.Am.Nodes.{
  internal_type, leaf_type, InternalNode, LeafNode, load_internal, load_leaf, store_leaf, memcpy,
  node_bytes, set_node, key_offset, ptr_offset, pairs_of, Addresses, set_internal_pairs,
  set_leaf_pairs,
}

-- h/am.h: the codes that these functions return.
pub data AmCode : Type 0 where
  ame_ok : AmCode
  ame_pf : AmCode
  ame_eof : AmCode

-- PF_UnpinPage, and whether it returned PFE_OK.
abbrev pub unpin_page : Pf → ℤ → ℤ → Bool → Result (Pf × Bool)
unpin_page s fd pagenum dirty = do
  (s, code) ← pf_unpin_page s fd pagenum dirty
  ok (s, is_pfe_ok code)

-- An empty leaf with the keys of the root.
abbrev pub empty_leaf : InternalNode → ℤ → (next prev : ℤ) → LeafNode
empty_leaf root pagenum next prev = record {
  type = leaf_type;
  pagenum = pagenum;
  valid_entries = pos 0;
  key_type = root.key_type;
  key_length = root.key_length;
  next_leaf = next;
  prev_leaf = prev;
}

unfoldable pub write_leaf : Pf → Ptr → LeafNode → Result Pf
write_leaf s a node = do b ← store_leaf node (node_bytes s a); ok (set_node s a b)

-- initialize_root_node after the two pages were unpinned: the key between their numbers.
unfoldable pub write_root : Pf → Ptr → Buf → (pagenum pagenum_2 : ℤ) → Result Pf
write_root s root key pagenum pagenum_2 = do
  let b = node_bytes s root
  node ← load_internal b
  b ← memcpy b (key_offset node.key_length 0) key node.key_length
  b ← store_int b (pos (ptr_offset node.key_length 0)) pagenum
  b ← store_int b (pos (ptr_offset node.key_length 1)) pagenum_2
  b ← store_int b (pos 8) (pos 1)
  ok (set_node s root b)

-- initialize_root_node once both pages were allocated, at the addresses `a` and `a_2`.
unfoldable pub write_leaves :
    Pf → ℤ → Ptr → Buf → (pagenum : ℤ) → Ptr → (pagenum_2 : ℤ) → Ptr → Result (Pf × AmCode)
write_leaves s fd root key pagenum a pagenum_2 a_2 = do
  node ← load_internal (node_bytes s root)
  s ← write_leaf s a (empty_leaf node pagenum pagenum_2 (negsuc 0))
  node ← load_internal (node_bytes s root)
  s ← write_leaf s a_2 (empty_leaf node pagenum_2 (negsuc 0) pagenum)
  (s, done) ← unpin_page s fd pagenum true
  if not done then ok (s, ame_pf) else do
    (s, done_2) ← unpin_page s fd pagenum_2 true
    if not done_2
        then ok (s, ame_pf)
        else (do s ← write_root s root key pagenum pagenum_2; ok (s, ame_ok))

unfoldable pub alloc_second :
    ℤ → Ptr → Buf → (pagenum : ℤ) → Ptr → Pf × ℤ × PfAnswer → Result (Pf × AmCode)
alloc_second fd root key pagenum a (s, pagenum_2, pf_failed code) = ok (s, ame_pf)
alloc_second fd root key pagenum a (s, pagenum_2, pf_page a_2) =
    write_leaves s fd root key pagenum a pagenum_2 a_2

unfoldable pub alloc_first : ℤ → Ptr → Buf → Pf × ℤ × PfAnswer → Result (Pf × AmCode)
alloc_first fd root key (s, pagenum, pf_failed code) = ok (s, ame_pf)
alloc_first fd root key (s, pagenum, pf_page a) =
    pf_alloc_page s fd (pos 0) >>= alloc_second fd root key pagenum a

-- initialize_root_node of the entry with the file `fd` and the root at the address `root`.
unfoldable pub initialize_root_node : Addresses → Pf → ℤ → Ptr → Buf → Result (Pf × AmCode)
initialize_root_node address s fd root key = do
  s ← set_internal_pairs address s root
  pf_alloc_page s fd (pos 0) >>= alloc_first fd root key

-- The place of the child to follow; without a key the first.
abbrev pub child_index : Option Buf → InternalNode → Buf → Result ℕ
child_index none node pairs = ok 0
child_index (some key) node pairs =
    find_ptr_index_internal key node.key_length node.key_type pairs (pos_part node.valid_entries)

-- The page number of the child to follow, once `pairs` was set.
unfoldable pub child_of : Option Buf → Buf → Result ℤ
child_of key b = do
  node ← load_internal b
  index ← child_index key node (pairs_of b)
  load_int (get_ptr_address_internal (pairs_of b) node.key_length index) (pos 0)

-- `in_node` after PF_GetThisPage, which sets it only if it returns a page.
abbrev pub after_fetch : Ptr → PfAnswer → Ptr
after_fetch in_node (pf_page a) = a
after_fetch in_node (pf_failed code) = in_node

-- The unpinning in the loop of find_leaf, whose code is not looked at.
unfoldable pub leave : Pf → ℤ → Ptr → ℤ → Result Pf
leave s fd root prev_pagenum = do
  top ← load_internal (node_bytes s root)
  if eq_ℤ prev_pagenum top.pagenum
      then ok s
      else (do (s, _) ← pf_unpin_page s fd prev_pagenum false; ok s)

-- The loop of find_leaf, with fuel for the levels of the tree.
unfoldable pub find_leaf_loop :
    ℕ → Addresses → ℤ → Ptr → Option Buf → (prev_pagenum : ℤ) → Ptr → Pf → Result (Pf × Ptr)
find_leaf_loop zero address fd root key prev_pagenum in_node s = fault out_of_fuel
find_leaf_loop (suc n) address fd root key prev_pagenum in_node s = do
  let rest = find_leaf_loop n address fd root key
  s ← set_internal_pairs address s in_node
  pagenum ← child_of key (node_bytes s in_node)
  (s, answer) ← pf_get_this_page s fd pagenum
  let in_node = after_fetch in_node answer
  s ← leave s fd root prev_pagenum
  node ← load_internal (node_bytes s in_node)
  if eq_ℤ node.type internal_type
      then rest pagenum in_node s
      else (do s ← set_leaf_pairs address s in_node; ok (s, in_node))

-- find_leaf, with fuel for the levels of the tree.
unfoldable pub find_leaf : ℕ → Addresses → Pf → ℤ → Ptr → Option Buf → Result (Pf × Ptr)
find_leaf fuel address s fd root key = find_leaf_loop fuel address fd root key (pos 0) root s
