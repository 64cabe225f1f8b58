-- ===== src/Pf/State.antt =====
-- The well-formed states of pf/pf.c, and the pages of an open file as requests that the pool can serve.
use adb_minirel.Prelude.{ℕ, ◌<◌, ◌≡◌, true, List, some, arith, length, get_elem?}
use adb_minirel.Prelude.Int.{pos}
use adb_minirel.Memory.{Ptr}
use adb_minirel.Unix.{max_pages}
use adb_minirel.Bf.Hash.Table.{ht_index_pos}
use adb_minirel.Bf.Api.View.{IsPool, HasPlace}
use adb_minirel.Pf.{Pf, FtabEle, pf_ftab_size}

pub record IsPf (s : Pf) (used free : List Ptr) : Type 0 where
  pub pool : IsPool s.pool used free
  pub sized : length s.file_table ≡ pf_ftab_size

-- The file `n` is open with the entry `e` and has `count` pages.
pub record IsOpen (s : Pf) (n : ℕ) (e : FtabEle) (count : ℕ) : Type 0 where
  pub in_table : n < pf_ftab_size
  pub at : get_elem? s.file_table n ≡ some e
  pub valid : e.valid ≡ true
  pub counted : e.numpages ≡ pos count

pub HasPlace-pos : (n k : ℕ) → n < pf_ftab_size → k < max_pages → HasPlace (pos n) (pos k)
HasPlace-pos n k h h' =
    let (i, at, inside) = ht_index_pos n k h (omega arith) in
    record { index = i; at = at; inside = inside; located = ground arith }
