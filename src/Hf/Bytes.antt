-- ===== src/Hf/Bytes.antt =====
-- The bytes of a page as hf/hf.c reads and writes them: `int`s and pointers at computed offsets, the
-- C strings that the pointers lead to, and the bit map and the array of records of a data page.
pub mod Access
pub mod Read
pub mod Slots
pub mod Vacant
use adb_minirel.Prelude.{
  ℕ, zero, suc, ◌+◌, ◌*◌, ◌/◌, ◌%◌, ◌^◌, Bool, true, false, not, List, [], ◌∷◌, ◌++◌, Option, none,
  some, get_elem?, set, length, drop, ltb, ◌==◌, if◌then◌else◌,
}
use adb_minirel.Prelude.Int.{ℤ, pos, negsuc, eq_ℤ, leb_ℤ, ◌+ℤ◌, scale}
use adb_minirel.Prelude.Result.{Result, ok, fault, dangling_pointer, out_of_bounds, ◌>>=◌}
use adb_minirel.Memory.{Ptr, update}
use adb_minirel.Unix.{Buf, Name}
use adb_minirel.Pf.Header.{word_bytes, header_of, header_bytes}

abbrev pub cons? : Option ℕ → Option Buf → Option Buf
cons? none r = none
cons? (some x) none = none
cons? (some x) (some xs) = some (x ∷ xs)

-- The bytes from the offset on, as many as asked for, if the buffer has them all.
abbrev pub get_bytes : Buf → ℕ → ℕ → Option Buf
get_bytes b i zero = some []
get_bytes b i (suc n) = cons? (get_elem? b i) (get_bytes b (suc i) n)

abbrev pub put_bytes : Buf → ℕ → List ℕ → Buf
put_bytes b i [] = b
put_bytes b i (x ∷ xs) = put_bytes (set b i x) (suc i) xs

abbrev pub in_bounds {ℓ} : {A : Type ℓ} → Option A → Result A
in_bounds none = fault out_of_bounds
in_bounds (some a) = ok a

abbrev pub int_read : Option Buf → Result ℤ
int_read none = fault out_of_bounds
int_read (some xs) = in_bounds (header_of xs)

-- `*(int *)(buf + i)`
unfoldable pub load_int : Buf → ℤ → Result ℤ
load_int b (negsuc n) = fault out_of_bounds
load_int b (pos i) = int_read (get_bytes b i 4)

-- `*(int *)(buf + i) = n`
unfoldable pub store_int : Buf → ℤ → ℤ → Result Buf
store_int b (negsuc k) n = fault out_of_bounds
store_int b (pos i) n =
    if ltb (length b) (i + 4) then fault out_of_bounds else ok (put_bytes b i (header_bytes n))

-- A pointer is eight bytes, the lowest first.
abbrev pub pointer_bytes : Ptr → Buf
pointer_bytes p = word_bytes (p % 2 ^ 32) ++ word_bytes (p / 2 ^ 32)

abbrev pub number_of_bytes : Buf → ℕ
number_of_bytes [] = 0
number_of_bytes (x ∷ xs) = x + 256 * number_of_bytes xs

abbrev pub pointer_read : Option Buf → Result Ptr
pointer_read none = fault out_of_bounds
pointer_read (some xs) = ok (number_of_bytes xs)

unfoldable pub load_pointer : Buf → ℤ → Result Ptr
load_pointer b (negsuc n) = fault out_of_bounds
load_pointer b (pos i) = pointer_read (get_bytes b i 8)

unfoldable pub store_pointer : Buf → ℤ → Ptr → Result Buf
store_pointer b (negsuc k) p = fault out_of_bounds
store_pointer b (pos i) p =
    if ltb (length b) (i + 8) then fault out_of_bounds else ok (put_bytes b i (pointer_bytes p))

-- The memory that `malloc` gave for records: the C string at each address, if there is one, and the
-- address that comes next. Nothing frees a record.
pub record Blocks : Type 0 where
  pub text : Ptr → Option Name
  pub fresh : Ptr

-- The bytes of a buffer before the first zero. A string without an end runs over the buffer's.
unfoldable pub c_string : Buf → Result Name
c_string [] = fault out_of_bounds
c_string (x ∷ xs) = if x == 0 then ok [] else (do rest ← c_string xs; ok (x ∷ rest))

-- `strcpy(buf, text)`
unfoldable pub copy_to : Name → Buf → Result Buf
copy_to text b =
    if ltb (length text) (length b)
    then ok (text ++ 0 ∷ drop (suc (length text)) b)
    else fault out_of_bounds

-- `strcpy` of a string into a block of `size` bytes that was just allocated.
unfoldable pub new_block : Blocks → ℤ → Name → Result Blocks
new_block h size text =
    if leb_ℤ (pos (length text) +ℤ pos 1) size
    then ok (record { text = update h.text h.fresh (some text); fresh = suc h.fresh })
    else fault out_of_bounds

-- The string that a pointer leads to.
unfoldable pub string_at : Blocks → Ptr → Result Name
string_at h p = elim (h.text p) [ none ↦ fault dangling_pointer | some text ↦ ok text ]

-- `bitmapArray[j]` of a data page. FALSE says that the record `j` is there.
unfoldable pub is_vacant : Buf → ℤ → Result Bool
is_vacant b j = do n ← load_int b (scale 4 j); ok (not (eq_ℤ n (pos 0)))

abbrev pub bool_int : Bool → ℤ
bool_int true = pos 1
bool_int false = pos 0

unfoldable pub set_vacant : Buf → ℤ → Bool → Result Buf
set_vacant b j vacant = store_int b (scale 4 j) (bool_int vacant)

-- The offset of `recordArray[j]`, where `recordArray` is `bitmapArray + maxNumRecords`.
abbrev pub record_offset : ℤ → ℤ → ℤ
record_offset max j = scale 4 max +ℤ scale 8 j

-- `for (i = 0; i < hdr->maxNumRecords; i++) bitmapArray[i] = TRUE;`, from the record `i` on, with
-- `n` rounds left.
unfoldable pub clear_bitmap : ℕ → ℕ → Buf → Result Buf
clear_bitmap zero i b = ok b
clear_bitmap (suc n) i b = do b ← set_vacant b (pos i) true; clear_bitmap n (suc i) b

-- The first record from `j` on whose bit is TRUE, with `n` records left.
unfoldable pub first_vacant : ℕ → ℕ → Buf → Result (Option ℕ)
first_vacant zero j b = ok none
first_vacant (suc n) j b = do
  let rest = first_vacant n (suc j) b
  vacant ← is_vacant b (pos j)
  if vacant then ok (some j) else rest

-- The lines that put a record in its place: the bit, the block, and the pointer to it.
unfoldable pub place_record : Blocks → Buf → (max j recsize : ℤ) → Buf → Result (Blocks × Buf)
place_record h b max j recsize rec = do
  b ← set_vacant b j false
  b ← store_pointer b (record_offset max j) h.fresh
  text ← c_string rec
  h ← new_block h (recsize +ℤ pos 1) text
  ok (h, b)

-- `strcpy(record, recordArray[j])`
unfoldable pub fetch_record : Blocks → Buf → (max j : ℤ) → Buf → Result Buf
fetch_record h b max j rec = do
  p ← load_pointer b (record_offset max j)
  text ← string_at h p
  copy_to text rec
