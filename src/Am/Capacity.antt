-- ===== src/Am/Capacity.antt =====
-- The number of pairs in a node of am/utils.c.
use adb_minirel.Prelude.{ℕ, suc, ◌+◌, ◌-◌, ◌*◌, ◌/◌, ◌≤◌, ◌<◌, arith}
use native.Mathlib.Nat.{mul-suc, div-add-mod, mod-lt}
use adb_minirel.Am.{max_node_count, page_size, leaf_node_size, leaf_node_ptr_size}

-- A leaf's header and as many pairs as max_node_count says fit into a page, and one pair more does
-- not, for every key length.
pub max_node_count-fits :
    (key_length : ℕ)
    → (leaf_node_size + (key_length + leaf_node_ptr_size) * max_node_count key_length ≤ page_size)
      × (page_size
          < leaf_node_size + (key_length + leaf_node_ptr_size) * suc (max_node_count key_length))
unfolding max_node_count
max_node_count-fits key_length =
    let stride = key_length + leaf_node_ptr_size in
    let count = (page_size - leaf_node_size) / stride in
    let whole = div-add-mod (page_size - leaf_node_size) stride in
    let rest = mod-lt (page_size - leaf_node_size) {m = stride} (omega arith) in
    (omega (arith, whole), omega (arith, whole, rest, mul-suc stride count))
