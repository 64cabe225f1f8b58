-- ===== src/Am/Tests/Pages.antt =====
-- The tree walks of am/utils.c in a pool with two pages of the file 3: the page 0 in the frame 1, the
-- root, and the page 20 in the frame 2, a leaf. Both keys fall into the bucket 0.
use adb_minirel.Prelude.{
  ℕ, ◌≡◌, refl, inl, inr, false, List, [], ◌∷◌, some, arith, ◌==◌, if◌then◌else◌, set, replicate,
  get_elem?, get_elem?-set, length-replicate, Bool-cases, ◌∙◌, ap, ◌++◌,
}
use adb_minirel.Prelude.Int.{ℤ, pos, eq_ℤ_iff, ◌+ℤ◌}
use adb_minirel.Prelude.Result.{ok}
use adb_minirel.Memory.{Ptr, null}
use adb_minirel.Unix.{Buf}
use adb_minirel.Bf.{HashTable, Frame, Pool, bf_hash_tbl_size}
use adb_minirel.Bf.Hash.{ht_index, ht_find}
use adb_minirel.Bf.Hash.Table.{IsTable}
use adb_minirel.Bf.Hash.Find.{ht_find-find_entry}
use adb_minirel.Bf.Api.Init.{get_elem?-replicate}
use adb_minirel.Bf.Api.View.{HasPlace, find_page}
use adb_minirel.Bf.Tests.{two_entries, two_pages}
use adb_minirel.Pf.{FtabEle, Pf}
use adb_minirel.Pf.State.{IsPf, IsOpen}
use adb_minirel.Pf.Tests.{closed, file_3, used}

abbrev number : Ptr → ℤ
number a = if a == 1 then pos 0 else pos 20

-- A root of one key, the integer 5, whose children are the pages 7 and 20.
abbrev pub root_bytes : Buf
root_bytes =
    replicate 8 0
    ++ 1 ∷ 0 ∷ 0 ∷ 0 ∷ 105 ∷ 4 ∷ replicate 10 0
    ++ 7 ∷ 0 ∷ 0 ∷ 0 ∷ 5 ∷ 0 ∷ 0 ∷ 0 ∷ 20 ∷ 0 ∷ 0 ∷ 0 ∷ []

-- A leaf of no entries, the page `pagenum`, with the page `next` after it.
abbrev pub leaf_bytes : ℕ → ℕ → Buf
leaf_bytes pagenum next =
    1 ∷ 0 ∷ 0 ∷ 0 ∷ pagenum ∷ replicate 7 0 ++ 105 ∷ 4 ∷ 0 ∷ 0 ∷ next ∷ replicate 15 0

abbrev entries : HashTable
entries = record two_entries {
  heads = set (replicate bf_hash_tbl_size null) 0 1;
  entry = λ a. record { fd = pos 3; pagenum = number a; bpage = a };
}

abbrev frames : Buf → Buf → Ptr → Frame
frames first second a = record {
  fpage = if a == 1 then first else second;
  dirty = false;
  count = if a == 1 then 1 else 0;
  pagenum = number a;
  fd = pos 3;
  unixfd = 7;
}

abbrev pool : Buf → Buf → Pool
pool first second = record (two_pages 1 0 3) { frame = frames first second; hash_table = entries }

abbrev chain : ℕ → List Ptr
chain i = if i == 0 then 1 ∷ 2 ∷ [] else []

index_0 : ht_index (pos 3) (pos 0) ≡ ok 0
unfolding ht_index ◌+ℤ◌
index_0 = refl

index_20 : ht_index (pos 3) (pos 20) ≡ ok 0
unfolding ht_index ◌+ℤ◌
index_20 = refl

place_0 : HasPlace (pos 3) (pos 0)
place_0 = record { index = 0; at = index_0; inside = omega arith; located = refl }

place_20 : HasPlace (pos 3) (pos 20)
place_20 = record { index = 0; at = index_20; inside = omega arith; located = refl }

number-place : (a : Ptr) → HasPlace (pos 3) (number a)
number-place a = elim (Bool-cases (a == 1)) [ inl e ↦ rw e place_0 | inr e ↦ rw e place_20 ]

number-index : (a : Ptr) → ht_index (pos 3) (number a) ≡ ok 0
number-index a = elim (Bool-cases (a == 1)) [ inl e ↦ rw e index_0 | inr e ↦ rw e index_20 ]

head : (i : ℕ) (p : Ptr) → get_elem? entries.heads i ≡ some p → p ≡ (if i == 0 then 1 else null)
head i p e =
    let blank = replicate bf_hash_tbl_size null in
    let at = get_elem?-set blank 0 i 1 (omega (arith, length-replicate bf_hash_tbl_size null)) in
    elim (Bool-cases (i == 0)) [
      | inl here ↦ ground arith
      | inr there ↦ rw there (get_elem?-replicate bf_hash_tbl_size i null p (ground arith))
    ]

entries-IsTable : IsTable entries chain
entries-IsTable = record {
  sized = refl;
  linked = λ i p e. let at = head i p e in ground arith;
  distinct = λ i. ground arith;
  apart = λ i j a m n. ground arith;
  placed = λ i a m. let at = number-index a in ground arith;
  keyed = λ i. ground arith;
  pages = λ i a m. ground arith;
  below = λ i a m. ground arith;
  room = λ i. ground arith;
}

entries_found :
    (first second : Buf) (fd pagenum : ℤ)
    → HasPlace fd pagenum
    → ht_find entries fd pagenum ≡ ok (find_page (frames first second) fd pagenum (2 ∷ 1 ∷ []))
entries_found first second fd pagenum i =
    ht_find-find_entry entries chain fd pagenum i.index entries-IsTable i.at i.inside
    ∙ ap ok (elim (Bool-cases (i.index == 0)) [
      | inl here ↦ rw here (ground (arith, eq_ℤ_iff (pos 0) pagenum, eq_ℤ_iff (pos 20) pagenum))
      | inr there ↦ rw there (
          ground (
            arith,
            i.at,
            index_0,
            index_20,
            eq_ℤ_iff (pos 3) fd,
            eq_ℤ_iff (pos 0) pagenum,
            eq_ℤ_iff (pos 20) pagenum,
          ))
    ])

abbrev pub file : FtabEle
file = record file_3 { numpages = pos 30 }

abbrev pub pf : Buf → Buf → Pf
pf first second = record { pool = pool first second; file_table = set (replicate 20 closed) 3 file }

pub pf-IsPf : (first second : Buf) → IsPf (pf first second) used (3 ∷ [])
pf-IsPf first second = record {
  pool = record {
    lists = record {
      listed = ground arith;
      spare = ground arith;
      distinct = ground arith;
      distinct_free = ground arith;
      apart = λ a m. ground arith;
    };
    bounded = omega arith;
    unique = ground arith;
    placed = λ a m. number-place a;
    chain = chain;
    table = entries-IsTable;
    found = entries_found first second;
  };
  sized = refl;
}

pub pf_3 : (first second : Buf) → IsOpen (pf first second) 3 file 30
pf_3 first second = record { in_table = omega arith; at = refl; valid = refl; counted = refl }
