-- ===== src/Pf/Header.antt =====
-- PFhdr_str of pf/pf.c, the page count, as the bytes at the start of a file.
use adb_minirel.Prelude.{
  ℕ, ◌+◌, ◌-◌, ◌*◌, ◌/◌, ◌%◌, ◌^◌, ◌<◌, ◌≡◌, true, [], ◌∷◌, Option, none, some, arith, ltb,
  if◌then◌else◌,
}
use adb_minirel.Prelude.Int.{ℤ, pos, negsuc, is_int, to_unsigned}
use adb_minirel.Unix.{Buf}

-- The bytes of an unsigned 32-bit number, the lowest first.
unfoldable pub word_bytes : ℕ → Buf
word_bytes w = w % 256 ∷ (w / 256) % 256 ∷ (w / 0x1_0000) % 256 ∷ (w / 0x100_0000) % 256 ∷ []

abbrev pub signed : ℕ → ℤ
signed w = if ltb w (2 ^ 31) then pos w else negsuc (2 ^ 32 - w - 1)

-- The header as it stands in the file.
abbrev pub header_bytes : ℤ → Buf
header_bytes numpages = word_bytes (to_unsigned numpages)

-- The header from the four bytes of a whole read, `sizeof(PFhdr_str)`.
unfoldable pub header_of : Buf → Option ℤ
header_of (a ∷ b ∷ c ∷ d ∷ []) = some (signed (a + 256 * b + 0x1_0000 * c + 0x100_0000 * d))
header_of _ = none

pub word_of_bytes :
    (w : ℕ)
    → w < 2 ^ 32
    → w % 256
        + 256 * ((w / 256) % 256)
        + 0x1_0000 * ((w / 0x1_0000) % 256)
        + 0x100_0000 * ((w / 0x100_0000) % 256)
      ≡ w
word_of_bytes w h = omega arith

pub signed-to_unsigned : (n : ℤ) → is_int n ≡ true → signed (to_unsigned n) ≡ n
signed-to_unsigned (pos n) h = ground arith
signed-to_unsigned (negsuc n) h = ground arith

pub to_unsigned_bound : (n : ℤ) → is_int n ≡ true → to_unsigned n < 2 ^ 32
to_unsigned_bound (pos n) h = ground arith
to_unsigned_bound (negsuc n) h = ground arith

-- Reading the page count from the four bytes that are written for it gives it back, for every count
-- that is an int.
pub header_of-header_bytes : (n : ℤ) → is_int n ≡ true → header_of (header_bytes n) ≡ some n
unfolding header_of word_bytes
header_of-header_bytes n h =
    rw (word_of_bytes (to_unsigned n) (to_unsigned_bound n h), signed-to_unsigned n h)
