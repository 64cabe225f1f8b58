-- ===== src/Pf/Negative.antt =====
-- PF_GetThisPage of pf/pf.c on a negative page number.
use adb_minirel.Prelude.{
  ℕ, zero, suc, ◌≤◌, ◌≡◌, refl, List, [], ◌∷◌, arith, length, get_elem?, none,
}
use adb_minirel.Prelude.Int.{ℤ, pos, negsuc, ◌+ℤ◌}
use adb_minirel.Prelude.Result.{ok, fault, out_of_bounds}
use adb_minirel.Memory.{Ptr}
use adb_minirel.Bf.{HashTable, BfReq, Pool}
use adb_minirel.Bf.Hash.{ht_index, ht_find}
use adb_minirel.Bf.Api.{bf_get_buf}
use adb_minirel.Pf.{FtabEle, Pf}
use adb_minirel.Pf.Pages.{request, get_page, pf_get_next_page, pf_get_this_page}
use adb_minirel.Pf.State.{IsPf, IsOpen}

-- An index past the end of the array.
get_elem?-none : (xs : List Ptr) (i : ℕ) → length xs ≤ i → get_elem? xs i ≡ none
get_elem?-none [] i h = refl
get_elem?-none (x ∷ xs) zero h = absurd (omega arith)
get_elem?-none (x ∷ xs) (suc i) h = get_elem?-none xs i (omega arith)

index_before : ht_index (pos 0) (negsuc 0) ≡ ok 0xffff_ffff
unfolding ht_index ◌+ℤ◌
index_before = refl

find_out :
    (t : HashTable) (fd pagenum : ℤ) (i : ℕ)
    → ht_index fd pagenum ≡ ok i
    → length t.heads ≤ i
    → ht_find t fd pagenum ≡ fault out_of_bounds
unfolding ht_find
find_out t fd pagenum i e h = ground (arith, get_elem?-none t.heads i h)

get_out :
    (p : Pool) (bq : BfReq)
    → ht_find p.hash_table bq.fd bq.pagenum ≡ fault out_of_bounds
    → bf_get_buf p bq ≡ fault out_of_bounds
unfolding bf_get_buf
get_out p bq e = rw e refl

-- On a well-formed state where the descriptor 0 is open, PF_GetThisPage of page -1 reads out of the
-- bounds of the hash table's array.
pub pf_get_this_page-out_of_bounds :
    (s : Pf) (used free : List Ptr) (e : FtabEle) (count : ℕ)
    → IsPf s used free
    → IsOpen s 0 e count
    → pf_get_this_page s (pos 0) (negsuc 0) ≡ fault out_of_bounds
unfolding pf_get_this_page pf_get_next_page get_page
pf_get_this_page-out_of_bounds s used free e count w o =
    let outside = get_out s.pool (request e (pos 0) (negsuc 0)) (
      find_out s.pool.hash_table (pos 0) (negsuc 0) 0xffff_ffff index_before
        (omega (arith, w.pool.table.sized))) in
    ground (arith, o.at, o.valid, o.counted, outside)
