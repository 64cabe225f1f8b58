-- ===== src/Bf/Tests.antt =====
-- The buffer pool of bf/ at concrete states: the pools that the witnesses share.
mod Witnesses
use adb_minirel.Prelude.{
  ℕ, zero, suc, ◌+◌, ◌<◌, ◌≡◌, refl, inl, inr, Bool, true, false, List, [], ◌∷◌, Option, none, some,
  arith, ◌==◌, if◌then◌else◌, set, replicate, get_elem?, get_elem?-set, length-replicate,
  length-set, Bool-cases, ◌∙◌, ap, sym, length, map, mem,
}
use adb_minirel.Prelude.Int.{ℤ, pos, negsuc, eq_ℤ, eq_ℤ_iff, ◌+ℤ◌}
use adb_minirel.Prelude.Result.{Result, ok, fault, int_overflow, ◌>>=◌}
use adb_minirel.Memory.{Ptr, null, Links}
use adb_minirel.Memory.Chain.{Chain}
use adb_minirel.Unix.{Unix, File, Buf, slot, pread}
use adb_minirel.Bf.{Entry, HashTable, Frame, Pool, BfReq, bf_hash_tbl_size, bf_max_bufs}
use adb_minirel.Bf.Hash.{ht_index, ht_find}
use adb_minirel.Bf.Hash.Keys.{find_entry}
use adb_minirel.Bf.Hash.Table.{IsTable}
use adb_minirel.Bf.Hash.Find.{ht_find-find_entry}
use adb_minirel.Bf.Api.Init.{get_elem?-replicate}
use adb_minirel.Bf.Api.View.{IsPool, HasPlace, find_page}

-- One file of six pages, open under the descriptor 7.
abbrev pub disk : Unix
disk = record {
  directory = λ name. some 1;
  file = λ inode. record { size = 6; block = λ i. i ∷ [] };
  opened = λ fd. if fd == 7 then some 1 else none;
  next_inode = 2;
  next_descriptor = 8;
  errors = λ n. false;
  calls = 0;
  eexist = false;
}

-- Page 4 of the file 3 stands in the frame 1, page 4 of the file 4 in the frame 2; the frame 3 may
-- be free. Both keys fall into the bucket 4.
abbrev pub owner : Ptr → ℤ
owner a = if a == 1 then pos 3 else pos 4

abbrev pub two_links : Links
two_links = record {
  live = λ a. true;
  next = λ a. if a == 2 then 1 else 0;
  prev = λ a. if a == 1 then 2 else 0;
}

abbrev pub two_frames : ℕ → ℕ → Ptr → Frame
two_frames count_1 count_2 a = record {
  fpage = a ∷ [];
  dirty = a == 1;
  count = if a == 1 then count_1 else count_2;
  pagenum = pos 4;
  fd = owner a;
  unixfd = 7;
}

abbrev pub two_entries : HashTable
two_entries = record {
  heads = set (replicate bf_hash_tbl_size null) 4 1;
  links = record {
    live = λ a. true;
    next = λ a. if a == 1 then 2 else 0;
    prev = λ a. if a == 2 then 1 else 0;
  };
  entry = λ a. record { fd = owner a; pagenum = pos 4; bpage = a };
  fresh = 9;
}

abbrev pub two_pages : ℕ → ℕ → Ptr → Pool
two_pages count_1 count_2 free_head = record {
  links = two_links;
  frame = two_frames count_1 count_2;
  fresh = 9;
  free_list_head = free_head;
  lru_head = 2;
  hash_table = two_entries;
  unix = disk;
}

abbrev pub two_chain : ℕ → List Ptr
two_chain i = if i == 4 then 1 ∷ 2 ∷ [] else []

pub index_3 : ht_index (pos 3) (pos 4) ≡ ok 4
unfolding ht_index ◌+ℤ◌
index_3 = refl

index_4 : ht_index (pos 4) (pos 4) ≡ ok 4
unfolding ht_index ◌+ℤ◌
index_4 = refl

pub index_5 : ht_index (pos 5) (pos 0) ≡ ok 0
unfolding ht_index ◌+ℤ◌
index_5 = refl

pub place_3 : HasPlace (pos 3) (pos 4)
place_3 = record { index = 4; at = index_3; inside = omega arith; located = refl }

pub place_4 : HasPlace (pos 4) (pos 4)
place_4 = record { index = 4; at = index_4; inside = omega arith; located = refl }

pub place_5 : HasPlace (pos 5) (pos 0)
place_5 = record { index = 0; at = index_5; inside = omega arith; located = refl }

owner-place : (a : Ptr) → HasPlace (owner a) (pos 4)
owner-place a = elim (Bool-cases (a == 1)) [ inl e ↦ rw e place_3 | inr e ↦ rw e place_4 ]

owner-index : (a : Ptr) → ht_index (owner a) (pos 4) ≡ ok 4
owner-index a = elim (Bool-cases (a == 1)) [ inl e ↦ rw e index_3 | inr e ↦ rw e index_4 ]

two_head :
    (i : ℕ) (p : Ptr) → get_elem? two_entries.heads i ≡ some p → p ≡ (if i == 4 then 1 else null)
two_head i p e =
    let blank = replicate bf_hash_tbl_size null in
    let at = get_elem?-set blank 4 i 1 (omega (arith, length-replicate bf_hash_tbl_size null)) in
    elim (Bool-cases (i == 4)) [
      | inl here ↦ ground arith
      | inr there ↦ rw there (get_elem?-replicate bf_hash_tbl_size i null p (ground arith))
    ]

pub two_entries-IsTable : IsTable two_entries two_chain
two_entries-IsTable = record {
  sized = refl;
  linked = λ i p e. let at = two_head i p e in ground arith;
  distinct = λ i. ground arith;
  apart = λ i j a m n. ground arith;
  placed = λ i a m. let at = owner-index a in ground arith;
  keyed = λ i. ground arith;
  pages = λ i a m. ground arith;
  below = λ i a m. ground arith;
  room = λ i. ground arith;
}

-- The keys of the two pages and of no other have an entry.
two_found :
    (fd pagenum : ℤ)
    → HasPlace fd pagenum
    → ht_find two_entries fd pagenum ≡ ok (find_page (two_frames 0 0) fd pagenum (2 ∷ 1 ∷ []))
two_found fd pagenum i =
    ht_find-find_entry two_entries two_chain fd pagenum i.index two_entries-IsTable i.at i.inside
    ∙ ap ok (elim (Bool-cases (i.index == 4)) [
      | inl here ↦ rw here (ground (arith, eq_ℤ_iff (pos 3) fd, eq_ℤ_iff (pos 4) fd))
      | inr there ↦ rw there (
          ground (
            arith,
            i.at,
            index_3,
            index_4,
            eq_ℤ_iff (pos 3) fd,
            eq_ℤ_iff (pos 4) fd,
            eq_ℤ_iff (pos 4) pagenum,
          ))
    ])

pub two_pages-IsPool :
    (count_1 count_2 : ℕ) → IsPool (two_pages count_1 count_2 3) (2 ∷ 1 ∷ []) (3 ∷ [])
two_pages-IsPool count_1 count_2 = record {
  lists = record {
    listed = ground arith;
    spare = ground arith;
    distinct = ground arith;
    distinct_free = ground arith;
    apart = λ a m. ground arith;
  };
  bounded = omega arith;
  unique = ground arith;
  placed = λ a m. owner-place a;
  chain = two_chain;
  table = two_entries-IsTable;
  found = two_found;
}

pub full_pool-IsPool : (count_1 count_2 : ℕ) → IsPool (two_pages count_1 count_2 0) (2 ∷ 1 ∷ []) []
full_pool-IsPool count_1 count_2 = record {
  lists = record {
    listed = ground arith;
    spare = refl;
    distinct = ground arith;
    distinct_free = tt;
    apart = λ a m. refl;
  };
  bounded = omega arith;
  unique = ground arith;
  placed = λ a m. owner-place a;
  chain = two_chain;
  table = two_entries-IsTable;
  found = two_found;
}

-- The offset of the page 524286 is the last one that is an `int`.
last_offset : slot (pos 0x7_fffe) ≡ ok 0x7_ffff
last_offset = refl

next_offset : pread disk 7 (pos 0x7_ffff) ≡ fault int_overflow
unfolding pread
next_offset = refl
