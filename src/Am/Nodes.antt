-- ===== src/Am/Nodes.antt =====
-- The nodes of am/data_structures.h in the pages of the pool, on a machine with pointers of 8 bytes.
use adb_minirel.Prelude.{ℕ, ◌+◌, ◌*◌, set, get_elem?, drop, length, ltb, if◌then◌else◌}
use adb_minirel.Prelude.Int.{ℤ, pos}
use adb_minirel.Prelude.Result.{Result, ok, fault, out_of_bounds, ◌>>=◌}
use adb_minirel.Memory.{Ptr}
use adb_minirel.Unix.{Buf}
use adb_minirel.Bf.Api.{set_frame}
use adb_minirel.Pf.{Pf}
use adb_minirel.Hf.Bytes.{in_bounds, get_bytes, put_bytes, load_int, store_int, store_pointer}
use adb_minirel.Am.{internal_node_ptr_size}

-- node_type
abbrev pub internal_type : ℤ
internal_type = pos 0

abbrev pub leaf_type : ℤ
leaf_type = pos 1

-- Where the pairs of a node begin: after the pointer to them, which is at 16 and at 24.
abbrev pub internal_node_size : ℕ
internal_node_size = 24

-- internal_node, but for its pointer `pairs`, which the code sets to the bytes after it.
pub record InternalNode : Type 0 where
  pub type : ℤ
  pub pagenum : ℤ
  pub valid_entries : ℤ
  pub key_type : ℕ
  pub key_length : ℕ

-- leaf_node, but for its pointer `pairs`.
pub record LeafNode : Type 0 where
  pub type : ℤ
  pub pagenum : ℤ
  pub valid_entries : ℤ
  pub key_type : ℕ
  pub key_length : ℕ
  pub next_leaf : ℤ
  pub prev_leaf : ℤ

abbrev pub load_byte : Buf → ℕ → Result ℕ
load_byte b i = in_bounds (get_elem? b i)

unfoldable pub store_byte : Buf → ℕ → ℕ → Result Buf
store_byte b i x = if ltb i (length b) then ok (set b i x) else fault out_of_bounds

unfoldable pub load_internal : Buf → Result InternalNode
load_internal b = do
  type ← load_int b (pos 0)
  pagenum ← load_int b (pos 4)
  valid_entries ← load_int b (pos 8)
  key_type ← load_byte b 12
  key_length ← load_byte b 13
  ok (record {
    type = type;
    pagenum = pagenum;
    valid_entries = valid_entries;
    key_type = key_type;
    key_length = key_length;
  })

unfoldable pub load_leaf : Buf → Result LeafNode
load_leaf b = do
  node ← load_internal b
  next_leaf ← load_int b (pos 16)
  prev_leaf ← load_int b (pos 20)
  ok (record {
    type = node.type;
    pagenum = node.pagenum;
    valid_entries = node.valid_entries;
    key_type = node.key_type;
    key_length = node.key_length;
    next_leaf = next_leaf;
    prev_leaf = prev_leaf;
  })

unfoldable pub store_leaf : LeafNode → Buf → Result Buf
store_leaf node b = do
  b ← store_int b (pos 0) node.type
  b ← store_int b (pos 4) node.pagenum
  b ← store_int b (pos 8) node.valid_entries
  b ← store_byte b 12 node.key_type
  b ← store_byte b 13 node.key_length
  b ← store_int b (pos 20) node.prev_leaf
  store_int b (pos 16) node.next_leaf

-- `memcpy(buf + i, src, n)`
unfoldable pub memcpy : Buf → ℕ → Buf → ℕ → Result Buf
memcpy b i src n = do
  bytes ← in_bounds (get_bytes src 0 n)
  if ltb (length b) (i + n) then fault out_of_bounds else ok (put_bytes b i bytes)

-- The page of a node that is in the pool at an address, and a write of its bytes.
abbrev pub node_bytes : Pf → Ptr → Buf
node_bytes s a = (s.pool.frame a).fpage

abbrev pub set_node : Pf → Ptr → Buf → Pf
set_node s a b = record s { pool = set_frame s.pool a (record (s.pool.frame a) { fpage = b }) }

-- The offsets of a key and of a pointer in the page of an internal node.
abbrev pub key_offset : ℕ → ℕ → ℕ
key_offset key_length index =
    internal_node_size + (internal_node_ptr_size + (key_length + internal_node_ptr_size) * index)

abbrev pub ptr_offset : ℕ → ℕ → ℕ
ptr_offset key_length index = internal_node_size + (key_length + internal_node_ptr_size) * index

-- The pairs of an internal node.
abbrev pub pairs_of : Buf → Buf
pairs_of b = drop internal_node_size b

-- Where a page is in memory; the address of its first byte.
abbrev pub Addresses : Type 0
Addresses = Ptr → ℕ

-- `node->pairs = (char *)&node->pairs + sizeof(char *)` of an internal node and of a leaf.
unfoldable pub set_internal_pairs : Addresses → Pf → Ptr → Result Pf
set_internal_pairs address s a = do
  b ← store_pointer (node_bytes s a) (pos 16) (address a + 24)
  ok (set_node s a b)

unfoldable pub set_leaf_pairs : Addresses → Pf → Ptr → Result Pf
set_leaf_pairs address s a = do
  b ← store_pointer (node_bytes s a) (pos 24) (address a + 32)
  ok (set_node s a b)
