-- ===== src/Hf/Files/Header.antt =====
-- The header page of a file of hf/hf.c: what HF_CreateFile and HF_CloseFile write and HF_OpenFile
-- reads.
use adb_minirel.Prelude.{◌+◌, ◌≤◌, ◌≡◌, refl, inl, inr, true, arith, length, ◌∙◌}
use adb_minirel.Prelude.Int.{ℤ, pos, is_int}
use adb_minirel.Prelude.Result.{ok}
use adb_minirel.Unix.{Buf}
use adb_minirel.Hf.{HfHdr, load_header}
use adb_minirel.Hf.Bytes.{load_int}
use adb_minirel.Hf.Bytes.Access.{
  int_stored, store_int_run, load_int-store_int, length-int_stored, load_int-int_stored,
}
use adb_minirel.Hf.Files.{new_header, save_header}

-- The writes that HF_CreateFile and HF_CloseFile share, and what the page reads as after them.
module _ (b : Buf) (numrecs numpages recsize : ℤ) (h : 16 ≤ length b) (r : is_int numrecs ≡ true)
    (p : is_int numpages ≡ true) (z : is_int recsize ≡ true) where
  abbrev room₁ : 0 + 4 ≤ length b
  room₁ = omega arith

  abbrev b₁ : Buf
  b₁ = int_stored b 0 numrecs room₁

  same₁ : length b₁ ≡ length b
  same₁ = length-int_stored b 0 numrecs room₁

  room₂ : 4 + 4 ≤ length b₁
  room₂ = omega (arith, same₁)

  abbrev b₂ : Buf
  b₂ = int_stored b₁ 4 numpages room₂

  same₂ : length b₂ ≡ length b
  same₂ = length-int_stored b₁ 4 numpages room₂ ∙ same₁

  room₃ : 12 + 4 ≤ length b₂
  room₃ = omega (arith, same₂)

  abbrev b₃ : Buf
  b₃ = int_stored b₂ 12 recsize room₃

  same₃ : length b₃ ≡ length b
  same₃ = length-int_stored b₂ 12 recsize room₃ ∙ same₂

  at_0 : load_int b₃ (pos 0) ≡ ok numrecs
  at_0 =
      load_int-int_stored b₂ 12 recsize room₃ 0 (inl (omega arith))
      ∙ load_int-int_stored b₁ 4 numpages room₂ 0 (inl (omega arith))
      ∙ load_int-store_int b 0 numrecs room₁ r

  at_4 : load_int b₃ (pos 4) ≡ ok numpages
  at_4 =
      load_int-int_stored b₂ 12 recsize room₃ 4 (inl (omega arith))
      ∙ load_int-store_int b₁ 4 numpages room₂ p

  at_8 : load_int b₃ (pos 8) ≡ load_int b (pos 8)
  at_8 =
      load_int-int_stored b₂ 12 recsize room₃ 8 (inl (omega arith))
      ∙ load_int-int_stored b₁ 4 numpages room₂ 8 (inr (omega arith))
      ∙ load_int-int_stored b 0 numrecs room₁ 8 (inr (omega arith))

  at_12 : load_int b₃ (pos 12) ≡ ok recsize
  at_12 = load_int-store_int b₂ 12 recsize room₃ z

  save_run :
      (max : ℤ)
      → save_header b (record {
        numrecs = numrecs;
        numpages = numpages;
        max_num_records = max;
        recsize = recsize;
      })
        ≡ ok b₃
  unfolding save_header
  save_run max = ground (
    arith,
    store_int_run b 0 numrecs room₁,
    store_int_run b₁ 4 numpages room₂,
    store_int_run b₂ 12 recsize room₃,
  )

  load_run :
      (max : ℤ)
      → load_int b (pos 8) ≡ ok max
      → load_header b₃
        ≡ ok (record {
          numrecs = numrecs;
          numpages = numpages;
          max_num_records = max;
          recsize = recsize;
        })
  unfolding load_header
  load_run max there = ground (arith, at_0, at_4, at_8, at_12)

  room₄ : 8 + 4 ≤ length b₃
  room₄ = omega (arith, same₃)

  module _ (max : ℤ) (m : is_int max ≡ true) where
    abbrev b₄ : Buf
    b₄ = int_stored b₃ 8 max room₄

    create_run : numrecs ≡ pos 0 → numpages ≡ pos 0 → new_header b recsize max ≡ ok b₄
    unfolding new_header
    create_run none_yet no_page = ground (
      arith,
      store_int_run b 0 numrecs room₁,
      store_int_run b₁ 4 numpages room₂,
      store_int_run b₂ 12 recsize room₃,
      store_int_run b₃ 8 max room₄,
    )

    load_new :
        load_header b₄
        ≡ ok (record {
          numrecs = numrecs;
          numpages = numpages;
          max_num_records = max;
          recsize = recsize;
        })
    unfolding load_header
    load_new = ground (
      arith,
      at_0,
      at_4,
      at_12,
      load_int-int_stored b₃ 8 max room₄ 0 (inl (omega arith)),
      load_int-int_stored b₃ 8 max room₄ 4 (inl (omega arith)),
      load_int-store_int b₃ 8 max room₄ m,
      load_int-int_stored b₃ 8 max room₄ 12 (inr (omega arith)),
    )

-- Over a page of 16 bytes or more whose third int reads as a number, for a header whose fields are
-- ints and a number of records that is one: the header that HF_CreateFile writes reads back, as
-- HF_OpenFile reads it, with no record, no page, and the record size and number of records to a
-- page that were written; the header that HF_CloseFile writes reads back as that of the file's
-- entry but for the number of records to a page, which is that of the old page.
pub load_header-written :
    (b : Buf) (max old : ℤ) (hdr : HfHdr)
    → 16 ≤ length b
    → is_int hdr.numrecs ≡ true
    → is_int hdr.numpages ≡ true
    → is_int hdr.recsize ≡ true
    → is_int max ≡ true
    → load_int b (pos 8) ≡ ok old
    → ((b' : Buf) × (new_header b hdr.recsize max ≡ ok b')
        × (load_header b'
            ≡ ok (record {
              numrecs = pos 0;
              numpages = pos 0;
              max_num_records = max;
              recsize = hdr.recsize;
            })))
      × ((b' : Buf) × (save_header b hdr ≡ ok b')
          × (load_header b' ≡ ok (record hdr { max_num_records = old })))
load_header-written b max old hdr h r p z m there = (
  (
    b₄ b (pos 0) (pos 0) hdr.recsize h refl refl z max m,
    create_run b (pos 0) (pos 0) hdr.recsize h refl refl z max m refl refl,
    load_new b (pos 0) (pos 0) hdr.recsize h refl refl z max m,
  ),
  (
    b₃ b hdr.numrecs hdr.numpages hdr.recsize h r p z,
    save_run b hdr.numrecs hdr.numpages hdr.recsize h r p z hdr.max_num_records,
    load_run b hdr.numrecs hdr.numpages hdr.recsize h r p z old there,
  ),
)
