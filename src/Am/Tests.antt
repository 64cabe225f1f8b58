-- ===== src/Am/Tests.antt =====
-- The search of am/utils.c in a node of three keys: the integers 2, 5 and 9.
mod Pages
mod Walks
use adb_minirel.Prelude.{ℕ, ◌≤◌, ◌≡◌, refl, inr, [], ◌∷◌, arith}
use adb_minirel.Prelude.Result.{ok}
use adb_minirel.Unix.{Buf}
use adb_minirel.Am.{
  max_node_count, is_operation_true, key_below, key_at_most, find_ptr_loop, find_ptr_index_internal,
  find_ptr_index_leaf, int_type,
}
use adb_minirel.Prelude.{◌++◌}
use adb_minirel.Am.Names.{
  digit_count, sizeof_filename_with_index, write_digits, set_filename_with_index, number_of,
  set_filename_with_index-number_of,
}
use adb_minirel.Am.Child.{Entries, laid_out, find_ptr_index_internal-child}
use adb_minirel.Prelude.Int.{pos}
use adb_minirel.Pf.Header.{header_bytes}
use adb_minirel.Hf.Bytes.{load_int}
use adb_minirel.Am.{get_ptr_address_internal}

abbrev number : ℕ → Buf
number n = n ∷ 0 ∷ 0 ∷ 0 ∷ []

abbrev internal_pairs : Buf
internal_pairs =
    0 ∷ 0 ∷ 0 ∷ 0 ∷ 2 ∷ 0 ∷ 0 ∷ 0 ∷ 0 ∷ 0 ∷ 0 ∷ 0 ∷ 5 ∷ 0 ∷ 0 ∷ 0 ∷ 0 ∷ 0 ∷ 0 ∷ 0 ∷ 9 ∷ 0 ∷ 0 ∷ 0
    ∷ 0 ∷ 0 ∷ 0 ∷ 0 ∷ []

-- Key 5 goes behind the pointer for the keys from 5 to 8.
find_5 : find_ptr_index_internal (number 5) 4 int_type internal_pairs 3 ≡ ok 2
unfolding find_ptr_index_internal find_ptr_loop is_operation_true
find_5 = refl

max_4 : max_node_count 4 ≡ 338
unfolding max_node_count
max_4 = refl

max_15 : max_node_count 15 ≡ 176
unfolding max_node_count
max_15 = refl

-- The children 7, 8 and 9, with the keys 2 and 5 between them.
abbrev three_children : Entries
three_children = (pos 7, pos 2) ∷ (pos 8, pos 5) ∷ []

find_ptr_index_internal-child_example :
    (find_ptr_index_internal (header_bytes (pos 4)) 4 int_type (laid_out three_children (pos 9)) 2
      ≡ ok 1)
    × (load_int (get_ptr_address_internal (laid_out three_children (pos 9)) 4 1) (pos 0)
        ≡ ok (pos 8))
find_ptr_index_internal-child_example =
    find_ptr_index_internal-child (pos 4) refl three_children (pos 9)
      (refl, refl, (refl, refl, refl))

abbrev blank : Buf
blank = 0 ∷ 0 ∷ 0 ∷ 0 ∷ 0 ∷ 0 ∷ 0 ∷ 0 ∷ []

-- The name "ab" with the index 537 is "ab.537".
name_537 :
    set_filename_with_index (97 ∷ 98 ∷ []) 537 blank ≡ 97 ∷ 98 ∷ 46 ∷ 53 ∷ 51 ∷ 55 ∷ 0 ∷ 0 ∷ []
unfolding set_filename_with_index sizeof_filename_with_index digit_count write_digits
name_537 = refl

room_537 : sizeof_filename_with_index (97 ∷ 98 ∷ []) 537 ≤ 8
unfolding sizeof_filename_with_index digit_count
room_537 = omega arith

set_filename_with_index-number_of_example :
    (digits : Buf) × (rest : Buf) × (set_filename_with_index (97 ∷ 98 ∷ []) 537 blank
      ≡ 97 ∷ 98 ∷ 46 ∷ (digits ++ (0 ∷ rest)))
    × (number_of 0 digits ≡ 537)
set_filename_with_index-number_of_example =
    set_filename_with_index-number_of (97 ∷ 98 ∷ []) 537 blank room_537
