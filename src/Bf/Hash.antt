-- ===== src/Bf/Hash.antt =====
-- bf/hash_table.c: an array of doubly linked chains of entries.
pub mod Keys
pub mod Table
pub mod Erase
pub mod Clean
pub mod Find
pub mod Added
pub mod Add
pub mod Removed
pub mod Remove
use adb_minirel.Prelude.{
  ℕ, zero, suc, ◌+◌, Bool, ◌&&◌, List, [], ◌∷◌, Option, none, some, get_elem?, set, replicate, ◌==◌,
  if◌then◌else◌,
}
use adb_minirel.Prelude.Int.{ℤ, eq_ℤ, ◌+ℤ◌, scale, is_int, rem, to_unsigned}
use adb_minirel.Prelude.Result.{Result, ok, fault, out_of_bounds, int_overflow, out_of_fuel, ◌>>=◌}
use adb_minirel.Memory.{
  Ptr, null, Links, update, deref, load_next, load_prev, store_next, store_prev, allocate, free,
}
use adb_minirel.Bf.{Entry, HashTable, Frame, bf_hash_tbl_size}

-- HT_Init: the array is new, and the heap of entries is left as it is.
unfoldable pub ht_init : HashTable → ℕ → HashTable
ht_init t size = record t { heads = replicate size null }

-- The loop of HT_Clean over one chain.
unfoldable pub ht_clean_chain : ℕ → Links → Ptr → Result Links
ht_clean_chain zero l this = fault out_of_fuel
ht_clean_chain (suc k) l this =
    if this == null
    then ok l
    else do next ← load_next l this; l ← free l this; ht_clean_chain k l next

-- HT_Clean: the chains from the first on.
unfoldable pub ht_clean : ℕ → Links → List Ptr → Result Links
unfolding ht_clean_chain
ht_clean fuel l [] = ok l
ht_clean fuel l (p ∷ heads) = do l ← ht_clean_chain fuel l p; ht_clean fuel l heads

-- HT_Index. The sum is computed in `int`, and the remainder is converted to `unsigned int`.
unfoldable pub ht_index : ℤ → ℤ → Result ℕ
unfolding ◌+ℤ◌
ht_index fd pagenum =
    let v = scale bf_hash_tbl_size fd +ℤ pagenum in
    if is_int (scale bf_hash_tbl_size fd) && is_int v
    then ok (to_unsigned (rem v bf_hash_tbl_size))
    else fault int_overflow

-- `table[index]`
abbrev pub head_at : HashTable → ℕ → Result Ptr
head_at t i = elim (get_elem? t.heads i) [ none ↦ fault out_of_bounds | some p ↦ ok p ]

abbrev pub load_entry : HashTable → Ptr → Result Entry
load_entry t p = deref t.links p (t.entry p)

abbrev pub same_key : ℤ → ℤ → ℤ → ℤ → Bool
same_key fd pagenum fd' pagenum' = eq_ℤ fd fd' && eq_ℤ pagenum pagenum'

abbrev pub has_key : Entry → ℤ → ℤ → Bool
has_key e fd pagenum = same_key e.fd e.pagenum fd pagenum

-- The loop of HT_Find.
unfoldable pub ht_find_loop : ℕ → HashTable → ℤ → ℤ → Ptr → Result Ptr
ht_find_loop zero t fd pagenum p = fault out_of_fuel
ht_find_loop (suc k) t fd pagenum p = if p == null then ok null else do
  e ← load_entry t p
  if has_key e fd pagenum
      then ok e.bpage
      else do next ← load_next t.links p; ht_find_loop k t fd pagenum next

-- HT_Find: the address of the page, or the null pointer. No chain has `t.fresh` cells or more.
unfoldable pub ht_find : HashTable → ℤ → ℤ → Result Ptr
unfolding ht_find_loop
ht_find t fd pagenum = do
  i ← ht_index fd pagenum
  p ← head_at t i
  ht_find_loop t.fresh t fd pagenum p

-- The loop of HT_Add: the last cell of the chain, or the null pointer.
unfoldable pub ht_last_loop : ℕ → Links → Ptr → Ptr → Result Ptr
ht_last_loop zero l prev p = fault out_of_fuel
ht_last_loop (suc k) l prev p =
    if p == null then ok prev else do next ← load_next l p; ht_last_loop k l p next

-- initialize_entry
unfoldable pub initialize_entry : HashTable → Ptr → Ptr → Frame → Result HashTable
initialize_entry t p page f = do
  l ← store_prev t.links p null
  l ← store_next l p null
  ok (record t {
    links = l;
    entry = update t.entry p (record { fd = f.fd; pagenum = f.pagenum; bpage = page });
  })

-- `prev->nextentry = entry; entry->preventry = prev;`, if there is a `prev`
unfoldable pub link_back : Links → Ptr → Ptr → Result Links
link_back l prev p = if prev == null then ok l else do l ← store_next l prev p; store_prev l p prev

-- HT_Add of the page at the address `page`, whose fields are `f`.
unfoldable pub ht_add : HashTable → Ptr → Frame → Result HashTable
unfolding ht_last_loop initialize_entry link_back
ht_add t page f = do
  i ← ht_index f.fd f.pagenum
  head ← head_at t i
  prev ← ht_last_loop t.fresh t.links null head
  let p = t.fresh
  t ← initialize_entry (record t { links = allocate t.links p; fresh = suc t.fresh }) p page f
  l ← link_back t.links prev p
  ok (record t { links = l; heads = if head == null then set t.heads i p else t.heads })

-- The body of HT_Remove's loop at the entry that it looks for.
unfoldable pub ht_unlink : HashTable → ℕ → Ptr → Result HashTable
ht_unlink t i p = do
  prev ← load_prev t.links p
  next ← load_next t.links p
  l ← if prev == null then ok t.links else store_next t.links prev next
  next ← load_next l p
  prev ← load_prev l p
  l ← if next == null then ok l else store_prev l next prev
  head ← head_at t i
  next ← load_next l p
  let heads = if p == head then set t.heads i next else t.heads
  l ← free l p
  ok (record t { links = l; heads = heads })

-- The loop of HT_Remove.
unfoldable pub ht_remove_loop : ℕ → HashTable → ℕ → ℤ → ℤ → Ptr → Result HashTable
unfolding ht_unlink
ht_remove_loop zero t i fd pagenum p = fault out_of_fuel
ht_remove_loop (suc k) t i fd pagenum p = if p == null then ok t else do
  e ← load_entry t p
  if has_key e fd pagenum
      then ht_unlink t i p
      else do next ← load_next t.links p; ht_remove_loop k t i fd pagenum next

-- HT_Remove
unfoldable pub ht_remove : HashTable → ℤ → ℤ → Result HashTable
unfolding ht_remove_loop
ht_remove t fd pagenum = do
  i ← ht_index fd pagenum
  p ← head_at t i
  ht_remove_loop t.fresh t i fd pagenum p
