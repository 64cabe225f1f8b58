-- ===== src/Hf/Files/Capacity.antt =====
-- The number of records to a page that HF_CreateFile of hf/hf.c computes, and the room they take.
use adb_minirel.Prelude.{
  ℕ, suc, ◌+◌, ◌*◌, ◌/◌, ◌≤◌, ◌<◌, ◌≡◌, refl, inl, inr, true, arith, length, ltb, Bool-cases, ap,
  sym, ◌-◌,
}
use adb_minirel.Prelude.Int.{pos}
use adb_minirel.Prelude.Result.{ok, fault, out_of_bounds}
use adb_minirel.Unix.{Buf}
use adb_minirel.Pf.Header.{header_bytes}
use adb_minirel.Hf.{page_size}
use adb_minirel.Hf.Bytes.{Blocks, put_bytes, store_int, store_pointer, set_vacant, place_record}
use adb_minirel.Hf.Bytes.Access.{length-put_bytes}
use adb_minirel.Hf.Bytes.Read.{Fits, record_offset-pos}
use adb_minirel.Hf.Files.{records_per_page}

-- For records of 11 bytes and more that are smaller than a page, the number of records to a page
-- that HF_CreateFile computes is at least one, and their bit map and pointers lie within a page.
pub records_per_page-Fits :
    (recsize : ℕ) (b : Buf)
    → 11 ≤ recsize
    → recsize < page_size
    → length b ≡ page_size
    → (max : ℕ) × (records_per_page (pos recsize) ≡ ok (pos max)) × Fits b max × (1 ≤ max)
unfolding records_per_page
records_per_page-Fits recsize b h small sized =
    (page_size / suc recsize, refl, grind arith, grind arith)

too_many : (recsize : ℕ) → recsize ≤ 10 → 4096 < 12 * (4096 / suc recsize)
too_many recsize h = grind arith

-- A record whose pointer would stand beyond the page's end.
place_record-beyond :
    (h : Blocks) (b : Buf) (max j recsize : ℕ) (rec : Buf)
    → length b < 4 * max + 8 * j + 8
    → place_record h b (pos max) (pos j) (pos recsize) rec ≡ fault out_of_bounds
unfolding place_record set_vacant store_int store_pointer
place_record-beyond h b max j recsize rec beyond = elim (Bool-cases (ltb (length b) (4 * j + 4))) [
  | inl out ↦ ground arith
  | inr within ↦
      let same = length-put_bytes b (4 * j) (header_bytes (pos 0)) in
      let past : ltb (length (put_bytes b (4 * j) (header_bytes (pos 0)))) (4 * max + 8 * j + 8)
          ≡ true =
        rw same (ground arith) in
      ground (arith, record_offset-pos max j)
]

-- For records of at most 10 bytes the number of records to a page that HF_CreateFile computes is
-- larger than a page has room for: to place a record at the last of these places runs beyond the
-- page's end.
pub place_record-out_of_bounds :
    (h : Blocks) (b : Buf) (recsize : ℕ) (rec : Buf)
    → recsize ≤ 10
    → length b ≡ page_size
    → (j : ℕ) × (records_per_page (pos recsize) ≡ ok (pos (suc j)))
      × (place_record h b (pos (suc j)) (pos j) (pos recsize) rec ≡ fault out_of_bounds)
unfolding records_per_page
place_record-out_of_bounds h b recsize rec small sized =
    let many = too_many recsize small in
    let some_there : suc (4096 / suc recsize - 1) ≡ 4096 / suc recsize = omega (arith, many) in
    (
      4096 / suc recsize - 1,
      ap (λ x. ok (pos x)) (sym some_there),
      place_record-beyond h b (suc (4096 / suc recsize - 1)) (4096 / suc recsize - 1) recsize rec
          (omega (arith, many)),
    )
