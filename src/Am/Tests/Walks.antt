-- ===== src/Am/Tests/Walks.antt =====
-- The theorems about the walks of am/utils.c at concrete states.
use adb_minirel.Prelude.{◌*◌, ◌≡◌, refl, inr, true, [], ◌∷◌, Option, some, none, arith}
use adb_minirel.Prelude.Int.{pos, negsuc}
use adb_minirel.Prelude.Result.{ok}
use adb_minirel.Unix.{Buf}
use adb_minirel.Pf.{Pf}
use adb_minirel.Pf.Header.{header_of, word_bytes}
use adb_minirel.Pf.Pages.{request}
use adb_minirel.Pf.Tests.{used}
use adb_minirel.Hf.Bytes.{load_int}
use adb_minirel.Hf.State.{keyed-Held}
use adb_minirel.Am.{is_operation_true, find_ptr_loop, find_ptr_index_internal}
use adb_minirel.Am.Nodes.{
  internal_type, leaf_type, InternalNode, LeafNode, load_internal, load_leaf, node_bytes, Addresses,
}
use adb_minirel.Am.Tree.{child_of, find_leaf}
use adb_minirel.Am.Tree.Rounds.{IsNode}
use adb_minirel.Am.Tree.Ways.{with_pairs, ends, goes, IsFound}
use adb_minirel.Am.Tree.Descent.{find_leaf-IsFound}
use adb_minirel.Am.Leaves.{ScanTableEntry, update_scan_entry_key_index}
use adb_minirel.Am.Leaves.Steps.{IsReady, Advances, update_scan_entry_key_index-Advances}
use adb_minirel.Am.Tests.Pages.{root_bytes, leaf_bytes, file, pf, pf-IsPf, pf_3}

abbrev address : Addresses
address a = 4096 * a

abbrev tree : Pf
tree = pf root_bytes (leaf_bytes 20 0)

abbrev key : Option Buf
key = some (5 ∷ 0 ∷ 0 ∷ 0 ∷ [])

abbrev top : InternalNode
top = record {
  type = internal_type;
  pagenum = pos 0;
  valid_entries = pos 1;
  key_type = 105;
  key_length = 4;
}

abbrev end : InternalNode
end = record {
  type = leaf_type;
  pagenum = pos 20;
  valid_entries = pos 0;
  key_type = 105;
  key_length = 4;
}

root_loads : load_internal (node_bytes tree 1) ≡ ok top
unfolding load_internal load_int header_of word_bytes
root_loads = refl

root_kept : load_internal (with_pairs address tree 1) ≡ ok top
unfolding load_internal load_int header_of word_bytes
root_kept = refl

leaf_loads : load_internal (node_bytes tree 2) ≡ ok end
unfolding load_internal load_int header_of word_bytes
leaf_loads = refl

child_20 : child_of key (with_pairs address tree 1) ≡ ok (pos 20)
unfolding child_of load_internal load_int header_of word_bytes find_ptr_index_internal find_ptr_loop
    is_operation_true
child_20 = refl

root-IsNode : IsNode tree used 3 30 0 1
root-IsNode = record {
  inside = omega arith;
  placed = omega arith;
  listed = refl;
  keyed = refl;
  room = omega arith;
}

leaf-IsNode : IsNode tree used 3 30 20 2
leaf-IsNode = record {
  inside = omega arith;
  placed = omega arith;
  listed = refl;
  keyed = refl;
  room = omega arith;
}

find_leaf-IsFound_example :
    IsFound address (find_leaf 2 address tree (pos 3) 1 key) tree used (3 ∷ []) 1 2 (λ c. c)
find_leaf-IsFound_example =
    find_leaf-IsFound address 3 30 key top used file 1 (3 ∷ []) tree 2 20 2 []
      (pf-IsPf root_bytes (leaf_bytes 20 0)) (pf_3 root_bytes (leaf_bytes 20 0)) root-IsNode
      root_kept refl
      (goes 1 top 20 2 [] root_loads refl child_20 leaf-IsNode (omega arith) refl refl
        (ends 2 end leaf_loads refl))
      (omega arith)

abbrev leaves : Pf
leaves = pf (leaf_bytes 0 20) (leaf_bytes 20 0)

abbrev scan : ScanTableEntry
scan = record {
  in_use = true;
  am_fd = pos 0;
  operation = pos 0;
  key = none;
  key_index = negsuc 0;
  leaf = 1;
}

abbrev first_leaf : LeafNode
first_leaf = record {
  type = leaf_type;
  pagenum = pos 0;
  valid_entries = pos 0;
  key_type = 105;
  key_length = 4;
  next_leaf = pos 20;
  prev_leaf = pos 0;
}

first_loads : load_leaf (node_bytes leaves 1) ≡ ok first_leaf
unfolding load_leaf load_internal load_int header_of
first_loads = refl

second-IsReady : IsReady leaves used (3 ∷ []) 3 file 30 0 20 2
second-IsReady = record {
  other = λ z. cc;
  inside = omega arith;
  placed = omega arith;
  held =
      keyed-Held leaves used (3 ∷ []) (request file (pos 3) (pos 20)) 2
        (pf-IsPf (leaf_bytes 0 20) (leaf_bytes 20 0)) refl refl;
  room = omega arith;
}

update_scan_entry_key_index-Advances_example :
    Advances address leaves used
      (3 ∷ [])
      3
      file
      30
      (pf_3 (leaf_bytes 0 20) (leaf_bytes 20 0))
      scan
      0
      (omega arith)
      (omega arith)
      (keyed-Held leaves used
        (3 ∷ [])
        (request file (pos 3) (pos 0))
        1
        (pf-IsPf (leaf_bytes 0 20) (leaf_bytes 20 0))
        refl
        refl)
      refl
      first_leaf
      (update_scan_entry_key_index address leaves (pos 3) scan)
update_scan_entry_key_index-Advances_example =
    update_scan_entry_key_index-Advances address leaves used (3 ∷ []) 3 file 30
      (pf_3 (leaf_bytes 0 20) (leaf_bytes 20 0)) scan 0 (omega arith) (omega arith)
      (keyed-Held leaves used (3 ∷ []) (request file (pos 3) (pos 0)) 1
        (pf-IsPf (leaf_bytes 0 20) (leaf_bytes 20 0)) refl refl)
      refl first_leaf first_loads refl (inr (20, 2, refl, second-IsReady))
