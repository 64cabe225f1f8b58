-- ===== src/Am.antt =====
-- am/utils.c: the nodes of a B+-tree as bytes, comparisons of keys, and the search within a node.
pub mod Capacity
pub mod Child
pub mod Nodes
pub mod Tree
pub mod Leaves
pub mod Names
pub mod Tests
use adb_minirel.Prelude.{
  ℕ, zero, suc, ◌+◌, ◌-◌, ◌*◌, ◌/◌, ◌%◌, ◌^◌, Bool, true, false, not, ◌||◌, ◌==◌, if◌then◌else◌,
  ltb, List, [], ◌∷◌, drop,
}
use adb_minirel.Prelude.Int.{ℤ, pos, negsuc, eq_ℤ, ltb_ℤ}
use adb_minirel.Prelude.Result.{Result, ok, fault, out_of_bounds, ◌>>=◌}
use adb_minirel.Unix.{Buf}
use adb_minirel.Pf.Header.{signed}

-- h/minirel.h: the operators, and the key types, which are the letters i, f and c.
abbrev pub eq_op : ℕ
eq_op = 1

abbrev pub lt_op : ℕ
lt_op = 2

abbrev pub gt_op : ℕ
gt_op = 3

abbrev pub le_op : ℕ
le_op = 4

abbrev pub ge_op : ℕ
ge_op = 5

abbrev pub ne_op : ℕ
ne_op = 6

abbrev pub int_type : ℕ
int_type = 105

abbrev pub real_type : ℕ
real_type = 102

abbrev pub string_type : ℕ
string_type = 99

-- sizeof(int), sizeof(RECID), and sizeof(leaf_node) on a machine with pointers of 8 bytes.
abbrev pub internal_node_ptr_size : ℕ
internal_node_ptr_size = 4

abbrev pub leaf_node_ptr_size : ℕ
leaf_node_ptr_size = 8

abbrev pub leaf_node_size : ℕ
leaf_node_size = 32

abbrev pub page_size : ℕ
page_size = 4096

-- max_node_count
unfoldable pub max_node_count : ℕ → ℕ
max_node_count key_length = (page_size - leaf_node_size) / (key_length + leaf_node_ptr_size)

-- How two keys compare; a float that is not a number compares with nothing.
pub data Comparison : Type 0 where
  less : Comparison
  same : Comparison
  more : Comparison
  unordered : Comparison

abbrev pub compare_ℤ : ℤ → ℤ → Comparison
compare_ℤ a b = if eq_ℤ a b then same else if ltb_ℤ a b then less else more

-- The 32-bit word at an address.
abbrev pub load_word : Buf → Result ℕ
load_word (a ∷ b ∷ c ∷ d ∷ rest) = ok (a + 256 * b + 0x1_0000 * c + 0x100_0000 * d)
load_word _ = fault out_of_bounds

-- A float's bits without the sign, and floats that are numbers in their order.
abbrev pub magnitude : ℕ → ℕ
magnitude w = w % 2 ^ 31

abbrev pub is_nan : ℕ → Bool
is_nan w = ltb 0x7f80_0000 (magnitude w)

abbrev pub float_order : ℕ → ℤ
float_order w =
    if ltb w (2 ^ 31) then pos w else if magnitude w == 0 then pos 0 else negsuc (magnitude w - 1)

abbrev pub compare_float : ℕ → ℕ → Comparison
compare_float a b =
    if is_nan a || is_nan b then unordered else compare_ℤ (float_order a) (float_order b)

-- memcmp
abbrev pub memcmp : ℕ → Buf → Buf → Result Comparison
memcmp zero a b = ok same
memcmp (suc n) (x ∷ xs) (y ∷ ys) =
    if x == y then memcmp n xs ys else ok (if ltb x y then less else more)
memcmp (suc n) _ _ = fault out_of_bounds

abbrev pub is_same : Comparison → Bool
is_same same = true
is_same _ = false

abbrev pub is_less : Comparison → Bool
is_less less = true
is_less _ = false

abbrev pub is_more : Comparison → Bool
is_more more = true
is_more _ = false

-- The inner switch of is_operation_true; another operator is false.
abbrev pub holds : ℕ → Comparison → Bool
holds operation c =
    if operation == eq_op
    then is_same c
    else if operation == lt_op
    then is_less c
    else if operation == gt_op
    then is_more c
    else if operation == le_op
    then (is_same c || is_less c)
    else if operation == ge_op
    then (is_same c || is_more c)
    else if operation == ne_op
    then not (is_same c)
    else false

-- is_operation_true of the keys at the addresses `a` and `b`.
unfoldable pub is_operation_true : Buf → Buf → ℕ → ℕ → ℕ → Result Bool
is_operation_true a b key_length key_type operation =
    if key_type == int_type
    then (do
      x ← load_word a
      y ← load_word b
      ok (holds operation (compare_ℤ (signed x) (signed y))))
    else if key_type == real_type
    then (do x ← load_word a; y ← load_word b; ok (holds operation (compare_float x y)))
    else if key_type == string_type
    then (do c ← memcmp key_length a b; ok (holds operation c))
    else ok false

-- The bytes from an address on.
abbrev pub get_key_address_internal : Buf → ℕ → ℕ → Buf
get_key_address_internal pairs key_length index =
    drop (internal_node_ptr_size + (key_length + internal_node_ptr_size) * index) pairs

abbrev pub get_ptr_address_internal : Buf → ℕ → ℕ → Buf
get_ptr_address_internal pairs key_length index =
    drop ((key_length + internal_node_ptr_size) * index) pairs

abbrev pub get_key_address_leaf : Buf → ℕ → ℕ → Buf
get_key_address_leaf pairs key_length index = drop ((key_length + leaf_node_ptr_size) * index) pairs

abbrev pub get_ptr_address_leaf : Buf → ℕ → ℕ → Buf
get_ptr_address_leaf pairs key_length index =
    drop (key_length + (key_length + leaf_node_ptr_size) * index) pairs

-- The loop that the two searches share: `rounds` keys from `i` on, with the test of one key.
unfoldable pub find_ptr_loop : (ℕ → Result Bool) → ℕ → ℕ → Result ℕ
find_ptr_loop test zero i = ok i
find_ptr_loop test (suc rounds) i = do
  found ← test i
  if found then ok i else find_ptr_loop test rounds (suc i)

-- The test of find_ptr_index_internal.
abbrev pub key_below : Buf → ℕ → ℕ → Buf → ℕ → Result Bool
key_below key key_length key_type pairs i =
    is_operation_true key (get_key_address_internal pairs key_length i) key_length key_type lt_op

-- The test of find_ptr_index_leaf.
abbrev pub key_at_most : Buf → ℕ → ℕ → Buf → ℕ → Result Bool
key_at_most key key_length key_type pairs i =
    is_operation_true key (get_key_address_leaf pairs key_length i) key_length key_type le_op

-- find_ptr_index_internal
unfoldable pub find_ptr_index_internal : Buf → ℕ → ℕ → Buf → ℕ → Result ℕ
find_ptr_index_internal key key_length key_type pairs key_count =
    find_ptr_loop (key_below key key_length key_type pairs) key_count 0

-- find_ptr_index_leaf
unfoldable pub find_ptr_index_leaf : Buf → ℕ → ℕ → Buf → ℕ → Result ℕ
find_ptr_index_leaf key key_length key_type pairs key_count =
    find_ptr_loop (key_at_most key key_length key_type pairs) key_count 0
