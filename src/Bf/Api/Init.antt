-- ===== src/Bf/Api/Init.antt =====
-- BF_Init of bf/bf.c: the first well-formed pool.
use adb_minirel.Prelude.{
  ℕ, zero, suc, ◌+◌, ◌<◌, ◌≡◌, refl, List, [], some, map, arith, length, replicate, get_elem?,
  length-replicate,
}
use adb_minirel.Prelude.Result.{ok}
use adb_minirel.Memory.{Ptr, null}
use adb_minirel.Bf.{HashTable, Pool, bf_max_bufs, bf_hash_tbl_size}
use adb_minirel.Bf.FreeList.Init.{range, length-range, range-IsDistinct, fl_init-Forward}
use adb_minirel.Bf.Hash.{ht_init}
use adb_minirel.Bf.Hash.Table.{IsTable}
use adb_minirel.Bf.Hash.Find.{ht_find-find_entry}
use adb_minirel.Bf.Api.{bf_init}
use adb_minirel.Bf.Api.View.{IsPool, view}

pub get_elem?-replicate : (n i : ℕ) (a p : Ptr) → get_elem? (replicate n a) i ≡ some p → p ≡ a
get_elem?-replicate zero i a p h = cc
get_elem?-replicate (suc n) zero a p h = cc
get_elem?-replicate (suc n) (suc i) a p h = get_elem?-replicate n i a p h

-- HT_Init makes a table without entries.
pub ht_init-IsTable : (t : HashTable) → 0 < t.fresh → IsTable (ht_init t bf_hash_tbl_size) (λ i. [])
unfolding ht_init
ht_init-IsTable t h = record {
  sized = length-replicate bf_hash_tbl_size null;
  linked = λ i p e. get_elem?-replicate bf_hash_tbl_size i null p e;
  distinct = λ i. tt;
  apart = λ i j a m n. cc;
  placed = λ i a m. cc;
  keyed = λ i. tt;
  pages = λ i a m. cc;
  below = λ i a m. cc;
  room = λ i. h;
}

-- Where the LRU head is null, as the loader leaves it, and malloc gives addresses that are not
-- null, BF_Init succeeds and leaves a well-formed pool without a page, with BF_MAX_BUFS free
-- frames, and with the operating system as it was.
pub bf_init-IsPool :
    (p : Pool)
    → p.lru_head ≡ null
    → 0 < p.fresh
    → 0 < p.hash_table.fresh
    → (p' : Pool) × (free : List Ptr) × (bf_init p ≡ ok p')
      × IsPool p' [] free
      × (length free ≡ bf_max_bufs)
      × (view p' [] free ≡ record { resident = []; spare = map p.frame free; unix = p.unix })
unfolding bf_init
bf_init-IsPool p head h k =
    let free = range p.fresh bf_max_bufs in
    let (l, run, spare) = fl_init-Forward p.links p.fresh bf_max_bufs h (omega arith) in
    let t = ht_init p.hash_table bf_hash_tbl_size in
    let table = ht_init-IsTable p.hash_table k in
    (
      record p {
        links = l;
        fresh = p.fresh + bf_max_bufs;
        free_list_head = p.fresh;
        hash_table = t;
      },
      free,
      rw run refl,
      record {
        lists = record {
          listed = head;
          spare = spare;
          distinct = tt;
          distinct_free = range-IsDistinct p.fresh bf_max_bufs;
          apart = λ a m. cc;
        };
        bounded = omega (arith, length-range p.fresh bf_max_bufs);
        unique = tt;
        placed = λ a m. cc;
        chain = λ i. [];
        table = table;
        found =
            λ fd pagenum i. ht_find-find_entry t (λ i. []) fd pagenum i.index table i.at i.inside;
      },
      length-range p.fresh bf_max_bufs,
      refl,
    )
