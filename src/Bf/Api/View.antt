-- ===== src/Bf/Api/View.antt =====
-- The well-formed states of bf/bf.c, and what a state stands for: the pages in the pool, most
-- recently used first, and the frames that are free.
use adb_minirel.Prelude.{
  ℕ, ◌+◌, ◌≤◌, ◌<◌, ◌≡◌, refl, ◌⊎◌, inl, inr, Bool, true, false, List, [], ◌∷◌, map, Option, none,
  some, arith, if◌then◌else◌, mem, IsDistinct, erase, length, Bool-cases,
}
use adb_minirel.Prelude.Int.{ℤ, pos, negsuc}
use adb_minirel.Prelude.Result.{ok}
use adb_minirel.Memory.{Ptr, null, update}
use adb_minirel.Memory.TwoLists.{TwoLists, IsDetached}
use adb_minirel.Unix.{Unix, slot}
use adb_minirel.Bf.{Entry, Frame, Pool, bf_hash_tbl_size, bf_max_bufs}
use adb_minirel.Bf.Hash.{ht_index, ht_find, same_key}
use adb_minirel.Bf.Hash.Keys.{find_entry, IsKeyed}
use adb_minirel.Bf.Hash.Table.{IsTable}
use adb_minirel.Bf.Hash.Added.{new_entry}

-- The page of the file that a data page stands at, where it stands at one.
abbrev pub block_of : ℤ → ℕ
block_of (pos n) = n + 1
block_of (negsuc n) = 0

-- The key (fd, pagenum) has a place in the hash table, and the page one in the file, at an offset that
-- is an `int`.
pub record HasPlace (fd pagenum : ℤ) : Type 0 where
  pub index : ℕ
  pub at : ht_index fd pagenum ≡ ok index
  pub inside : index < bf_hash_tbl_size
  pub located : slot pagenum ≡ ok (block_of pagenum)

-- The hash entry that a page should have.
abbrev pub as_entry : (Ptr → Frame) → Ptr → Entry
as_entry frame a = new_entry a (frame a)

-- The page of the list with the key, or the null pointer.
abbrev pub find_page : (Ptr → Frame) → ℤ → ℤ → List Ptr → Ptr
find_page frame = find_entry (as_entry frame)

-- The pool `p`, whose LRU list leads through `used` and whose free list leads through `free`. The
-- hash table finds exactly the pages of the LRU list.
pub record IsPool (p : Pool) (used free : List Ptr) : Type 0 where
  pub lists : TwoLists p.links used free p.lru_head p.free_list_head
  pub open lists use *
  pub bounded : length used + length free ≤ bf_max_bufs
  pub unique : IsKeyed (as_entry p.frame) used
  pub placed : (a : Ptr) → mem a used ≡ true → HasPlace (p.frame a).fd (p.frame a).pagenum
  pub chain : ℕ → List Ptr
  pub table : IsTable p.hash_table chain
  pub found :
      (fd pagenum : ℤ)
      → HasPlace fd pagenum
      → ht_find p.hash_table fd pagenum ≡ ok (find_page p.frame fd pagenum used)

-- A well-formed pool, and a frame `a` that is in neither list.
pub record Holds (p : Pool) (used free : List Ptr) (a : Ptr) : Type 0 where
  pub pool : IsPool p used free
  pub detached : IsDetached p.links used free a
  pub room : length used + length free < bf_max_bufs

-- What a state stands for.
pub record View : Type 0 where
  pub resident : List Frame
  pub spare : List Frame
  pub unix : Unix

abbrev pub view : Pool → List Ptr → List Ptr → View
view p used free = record { resident = map p.frame used; spare = map p.frame free; unix = p.unix }

abbrev pub is_page : Frame → ℤ → ℤ → Bool
is_page f fd pagenum = same_key f.fd f.pagenum fd pagenum

abbrev pub find_frame : ℤ → ℤ → List Frame → Option Frame
find_frame fd pagenum [] = none
find_frame fd pagenum (f ∷ fs) = if is_page f fd pagenum then some f else find_frame fd pagenum fs

abbrev pub remove_frame : ℤ → ℤ → List Frame → List Frame
remove_frame fd pagenum [] = []
remove_frame fd pagenum (f ∷ fs) =
    if is_page f fd pagenum then fs else f ∷ remove_frame fd pagenum fs

abbrev pub replace_frame : ℤ → ℤ → Frame → List Frame → List Frame
replace_frame fd pagenum g [] = []
replace_frame fd pagenum g (f ∷ fs) =
    if is_page f fd pagenum then g ∷ fs else f ∷ replace_frame fd pagenum g fs

-- A write to a frame outside the list does not show in it.
pub map-update_absent :
    (frame : Ptr → Frame) (a : Ptr) (g : Frame) (xs : List Ptr)
    → mem a xs ≡ false
    → map (update frame a g) xs ≡ map frame xs
map-update_absent frame a g [] h = refl
map-update_absent frame a g (x ∷ xs) h = ground (arith, map-update_absent frame a g xs)

-- The page that the addresses give and the frame that their contents give are the same.
pub record Finds (frame : Ptr → Frame) (fd pagenum : ℤ) (xs : List Ptr) (a : Ptr) : Type 0 where
  pub listed : mem a xs ≡ true
  pub keyed : is_page (frame a) fd pagenum ≡ true
  pub found : find_frame fd pagenum (map frame xs) ≡ some (frame a)
  pub erased : map frame (erase a xs) ≡ remove_frame fd pagenum (map frame xs)
  pub replaced : (g : Frame) → map (update frame a g) xs ≡ replace_frame fd pagenum g (map frame xs)

pub find_page-Finds :
    (frame : Ptr → Frame) (fd pagenum : ℤ) (xs : List Ptr)
    → IsDistinct xs
    → ((find_page frame fd pagenum xs ≡ null) × (find_frame fd pagenum (map frame xs) ≡ none))
      ⊎ Finds frame fd pagenum xs (find_page frame fd pagenum xs)
find_page-Finds frame fd pagenum [] d = inl (refl, refl)
find_page-Finds frame fd pagenum (x ∷ xs) d = elim (Bool-cases (is_page (frame x) fd pagenum)) [
  | inl hit ↦ inr (
      rw hit (record {
        listed = ground arith;
        keyed = hit;
        found = rw hit;
        erased = ground arith;
        replaced = λ g. ground (arith, map-update_absent frame x g xs);
      }))
  | inr miss ↦ elim (find_page-Finds frame fd pagenum xs d.1) [
    | inl none_there ↦ inl (ground arith, ground arith)
    | inr r ↦ inr (
        rw miss (record {
          listed = ground (arith, r.listed);
          keyed = r.keyed;
          found = rw miss r.found;
          erased = ground (arith, r.listed, r.erased);
          replaced = λ g. ground (arith, r.listed, r.replaced g);
        }))
  ]
]
