-- ===== src/Hf/Bytes/Slots.antt =====
-- The records of a data page of hf/hf.c: what placing one and taking one away do to all of them.
use adb_minirel.Prelude.{
  ℕ, ◌+◌, ◌*◌, ◌^◌, ◌≤◌, ◌<◌, ◌≡◌, ◌≢◌, inl, inr, refl, Bool, true, false, Option, none, some,
  arith, length, sym, ◌∙◌, ap,
}
use adb_minirel.Prelude.Int.{pos, is_int}
use adb_minirel.Prelude.Result.{ok, ◌>>=◌}
use adb_minirel.Unix.{Buf, Name}
use adb_minirel.Hf.Bytes.{
  load_pointer, Blocks, c_string, is_vacant, bool_int, set_vacant, place_record,
}
use adb_minirel.Hf.Bytes.Access.{
  int_stored, store_int_run, load_int-store_int, length-int_stored, load_int-int_stored,
  load_pointer-int_stored, pointer_stored, store_pointer_run, load_pointer-store_pointer,
  length-pointer_stored, load_int-pointer_stored, load_pointer-pointer_stored,
}
use adb_minirel.Hf.Bytes.Read.{
  record_at, record_offset-pos, Fits, bits-Apart, pointers-Apart, grown, new_block_run,
  string_at-grown, record_at-record_of, record_of-grown,
}

module _ (b : Buf) (max j : ℕ) (inside : j < max) (fits : Fits b max) where
  module _ (vacant : Bool) where
    abbrev pub marked : Buf
    marked = int_stored b (4 * j) (bool_int vacant) (omega arith)

    pub set_vacant_run : set_vacant b (pos j) vacant ≡ ok marked
    unfolding set_vacant
    set_vacant_run = store_int_run b (4 * j) (bool_int vacant) (omega arith)

    pub length-marked : length marked ≡ length b
    length-marked = length-int_stored b (4 * j) (bool_int vacant) (omega arith)

    bool_int-is_int : is_int (bool_int vacant) ≡ true
    bool_int-is_int = ground arith

    pub is_vacant-marked : is_vacant marked (pos j) ≡ ok vacant
    unfolding is_vacant
    is_vacant-marked =
        rw (load_int-store_int b (4 * j) (bool_int vacant) (omega arith) bool_int-is_int)
          (ground arith)

    is_vacant-marked_ne : (k : ℕ) → j ≢ k → is_vacant marked (pos k) ≡ is_vacant b (pos k)
    unfolding is_vacant
    is_vacant-marked_ne k ne =
        rw
          (load_int-int_stored b (4 * j) (bool_int vacant) (omega arith) (4 * k)
            (bits-Apart j k ne))
          refl

    pub load_pointer-marked :
        (k : ℕ)
        → load_pointer marked (pos (4 * max + 8 * k)) ≡ load_pointer b (pos (4 * max + 8 * k))
    load_pointer-marked k =
        load_pointer-int_stored b (4 * j) (bool_int vacant) (omega arith) (4 * max + 8 * k)
          (inr (omega arith))

    pub record_at-marked_ne :
        (h : Blocks) (k : ℕ)
        → j ≢ k
        → record_at h marked (pos max) (pos k) ≡ record_at h b (pos max) (pos k)
    record_at-marked_ne h k ne =
        record_at-record_of h marked max k
        ∙ rw (is_vacant-marked_ne k ne, load_pointer-marked k) (sym (record_at-record_of h b max k))

  -- Taking a record away.
  pub record_at-vacated : (h : Blocks) → record_at h (marked true) (pos max) (pos j) ≡ ok none
  record_at-vacated h = record_at-record_of h (marked true) max j ∙ rw (is_vacant-marked true) refl

  module _ (h : Blocks) (text : Name) (small : h.fresh < 2 ^ 64) where
    pub room : 4 * max + 8 * j + 8 ≤ length (marked false)
    room = rw (length-marked false) (omega arith)

    abbrev pub placed : Buf
    placed = pointer_stored (marked false) (4 * max + 8 * j) h.fresh room

    abbrev pub blocks : Blocks
    blocks = grown h text

    pub length-placed : length placed ≡ length b
    length-placed =
        length-pointer_stored (marked false) (4 * max + 8 * j) h.fresh room ∙ length-marked false

    pub place_record_run :
        (recsize : ℕ) (rec : Buf)
        → c_string rec ≡ ok text
        → length text ≤ recsize
        → place_record h b (pos max) (pos j) (pos recsize) rec ≡ ok (blocks, placed)
    unfolding place_record
    place_record_run recsize rec str short =
        rw
          (
            set_vacant_run false,
            record_offset-pos max j,
            store_pointer_run (marked false) (4 * max + 8 * j) h.fresh room,
            str,
            new_block_run h text recsize short,
          )
          refl

    is_vacant-placed :
        (k : ℕ) → k < max → is_vacant placed (pos k) ≡ is_vacant (marked false) (pos k)
    unfolding is_vacant
    is_vacant-placed k lt =
        rw
          (load_int-pointer_stored (marked false) (4 * max + 8 * j) h.fresh room (4 * k)
            (inl (omega arith)))
          refl

    -- The record is there.
    pub record_at-placed : record_at blocks placed (pos max) (pos j) ≡ ok (some text)
    record_at-placed =
        record_at-record_of blocks placed max j
        ∙ rw
            (
              is_vacant-placed j inside,
              is_vacant-marked false,
              load_pointer-store_pointer (marked false) (4 * max + 8 * j) h.fresh room small,
            )
            (ap (λ r. r >>= λ t. ok (some t)) (string_at-grown h text))

    -- Every other place holds what it held.
    pub record_at-placed_ne :
        (k : ℕ) (r : Option Name)
        → k < max
        → j ≢ k
        → h.text h.fresh ≡ none
        → record_at h b (pos max) (pos k) ≡ ok r
        → record_at blocks placed (pos max) (pos k) ≡ ok r
    record_at-placed_ne k r lt ne new before =
        record_at-record_of blocks placed max k
        ∙ rw
            (
              is_vacant-placed k lt,
              is_vacant-marked_ne false k ne,
              load_pointer-pointer_stored (marked false) (4 * max + 8 * j) h.fresh room
                  (4 * max + 8 * k) (pointers-Apart max j k ne),
              load_pointer-marked false k,
            )
            (record_of-grown h text (is_vacant b (pos k)) (load_pointer b (pos (4 * max + 8 * k))) r
              new (sym (record_at-record_of h b max k) ∙ before))

-- To place a C string that is no longer than the records at one of a page's places, where the bit
-- map and the records lie within the page and the next block of memory is new and has an address
-- below 2^64, succeeds; afterwards the page has its old length, that place holds the string, and
-- every other place holds what it held.
pub place_record-record_at :
    (h : Blocks) (b : Buf) (max j recsize : ℕ) (rec : Buf) (text : Name)
    → j < max
    → Fits b max
    → h.fresh < 2 ^ 64
    → h.text h.fresh ≡ none
    → c_string rec ≡ ok text
    → length text ≤ recsize
    → (h' : Blocks) × (b' : Buf) × (place_record h b (pos max) (pos j) (pos recsize) rec
        ≡ ok (h', b'))
      × (length b' ≡ length b)
      × (record_at h' b' (pos max) (pos j) ≡ ok (some text))
      × ((k : ℕ) (r : Option Name)
          → k < max
          → j ≢ k
          → record_at h b (pos max) (pos k) ≡ ok r
          → record_at h' b' (pos max) (pos k) ≡ ok r)
place_record-record_at h b max j recsize rec text inside fits small new str short = (
  grown h text,
  placed b max j inside fits h text small,
  place_record_run b max j inside fits h text small recsize rec str short,
  length-placed b max j inside fits h text small,
  record_at-placed b max j inside fits h text small,
  λ k r lt ne before. record_at-placed_ne b max j inside fits h text small k r lt ne new before,
)
