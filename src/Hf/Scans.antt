-- ===== src/Hf/Scans.antt =====
-- hf/hf.c: scans of a file for the records whose attribute compares with a value.
pub mod Open
pub mod Find
pub mod Match
use adb_minirel.Prelude.{
  ℕ, zero, suc, ◌+◌, ◌-◌, ◌*◌, ◌/◌, ◌%◌, ◌^◌, Bool, true, false, not, ◌&&◌, ◌||◌, List, [], ◌∷◌,
  ◌++◌, Option, none, some, inl, inr, ◌⊎◌, ltb, leb, get_elem?, ◌==◌, if◌then◌else◌,
}
use adb_minirel.Prelude.Int.{ℤ, pos, negsuc, pos_part, eq_ℤ, ltb_ℤ, leb_ℤ, ◌+ℤ◌, sub_ℕ, to_unsigned}
use adb_minirel.Prelude.Result.{Result, ok, fault, out_of_bounds, uninitialised, ◌>>=◌}
use adb_minirel.Unix.{Buf}
use adb_minirel.Hf.Bytes.{load_int, c_string}
use adb_minirel.Hf.{
  HfCode, hfe_ok, hfe_fd, hfe_sd, hfe_stabfull, hfe_filenotopen, hfe_attrtype, hfe_attrlength,
  hfe_attroffset, RecId, invalid, is_invalid, HfEntry, ScanEntry, Hf, is_hf_fd, is_scan, at,
  set_file, set_scan,
}
use adb_minirel.Hf.Cursor.{hf_get_first_rec, hf_get_next_rec}

-- The index of the first entry of the scan table that is not in use.
abbrev pub free_scan : List ScanEntry → Option ℕ
free_scan [] = none
free_scan (e ∷ es) =
    if e.valid then elim (free_scan es) [ none ↦ none | some i ↦ some (suc i) ] else some 0

-- What a function returns that ends without `return` on some paths.
pub data Returned {ℓ} (A : Type ℓ) : Type ℓ where
  returned : A → Returned A
  no_value : Returned A

-- The attribute's type as the scan table keeps it, or the code for a bad type or length.
unfoldable pub attr_type : ℕ → ℤ → ℕ ⊎ HfCode
attr_type type len =
    if type == b'c' || type == b'C'
    then (if ltb_ℤ len (pos 1) || ltb_ℤ (pos 255) len then inr hfe_attrlength else inl b'c')
    else if type == b'i' || type == b'I'
    then (if not (eq_ℤ len (pos 4)) then inr hfe_attrlength else inl b'i')
    else if type == b'f' || type == b'F'
    then (if not (eq_ℤ len (pos 4)) then inr hfe_attrlength else inl b'f')
    else inr hfe_attrtype

-- The `switch` at the end of HF_OpenFileScan. Its good cases fall off the end of the function.
unfoldable pub set_type : Hf → ℕ → ScanEntry → ℕ ⊎ HfCode → Hf × Returned HfCode
set_type s i e (inl type) = (set_scan s (pos i) (record e { type = type }), no_value)
set_type s i e (inr code) = (s, returned code)

-- HF_OpenFileScan from the check of the offset on. The operator is not checked: the statement that
-- should return HFE_OPERATOR has no effect.
unfoldable pub fill_scan :
    Hf → ℕ → (fd : ℤ) (type : ℕ) (len offset op : ℤ) → Buf → Result (Hf × Returned HfCode)
fill_scan s i fd type len offset op value =
    if ltb_ℤ offset (pos 0) then ok (s, returned hfe_attroffset) else do
      old ← at s.scan_table (pos i)
      text ← c_string value
      let e = record old {
        hf_fd = fd;
        op = op;
        offset = offset;
        last_scanned_rec = record { recnum = pos 0; pagenum = pos 0 };
        valid = true;
        value = text ++ 0 ∷ [];
      }
      ok (set_type (set_scan s (pos i) e) i e (attr_type type len))

-- HF_OpenFileScan
unfoldable pub hf_open_file_scan :
    Hf → (fd : ℤ) (type : ℕ) (len offset op : ℤ) → Buf → Result (Hf × Returned HfCode)
hf_open_file_scan s fd type len offset op value = elim (free_scan s.scan_table) [
  | none ↦ ok (s, returned hfe_stabfull)
  | some i ↦ if not (is_hf_fd fd) then ok (s, returned hfe_fd) else do
    f ← at s.file_table fd
    if not f.valid
        then ok (s, returned hfe_filenotopen)
        else fill_scan (set_file s fd (record f { scan_active = true })) i fd type len offset op
            value
]

-- A `float` that a value was converted to, up to order: two of one type compare as their keys do.
pub data FloatKey : Type 0 where
  not_a_number : FloatKey
  key : ℤ → FloatKey

-- A `char`, which has a sign.
abbrev pub char_key : ℕ → FloatKey
char_key c = key (if ltb c 128 then pos c else sub_ℕ c 256)

-- The weight of the last bit of a number's 24, from `p` on, with `n` doublings left.
abbrev pub last_bit : ℕ → ℕ → ℕ → ℕ
last_bit zero p n = p
last_bit (suc f) p n = if ltb n (0x100_0000 * p) then p else last_bit f (2 * p) n

-- A number of up to 32 bits rounded to 24 bits, ties to even.
abbrev pub round_to : ℕ → ℕ → ℕ
round_to p n =
    p
    * (if ltb (2 * (n % p)) p
        then n / p
        else if ltb p (2 * (n % p))
        then n / p + 1
        else n / p + (n / p) % 2)

abbrev pub float_of : ℕ → ℕ
float_of n = round_to (last_bit 8 1 n) n

-- The conversion of an `int`.
unfoldable pub int_key : ℤ → FloatKey
int_key (pos n) = key (pos (float_of n))
int_key (negsuc n) = key (sub_ℕ 0 (float_of (suc n)))

-- The order of `float`s is that of their bits, read as a sign and a magnitude.
unfoldable pub float_key : ℕ → FloatKey
float_key w =
    let mag : ℕ = w % 0x8000_0000 in
    if ltb 0x7f80_0000 mag
    then not_a_number
    else key (if ltb w 0x8000_0000 then pos mag else sub_ℕ 0 mag)

unfoldable pub load_char : Buf → ℤ → Result ℕ
load_char b (negsuc n) = fault out_of_bounds
load_char b (pos i) = elim (get_elem? b i) [ none ↦ fault out_of_bounds | some c ↦ ok c ]

-- One of the two assignments of HF_GetRecordValue. A scan whose type was never set reads variables
-- that were never written.
unfoldable pub attr_value : ℕ → Buf → ℤ → Result FloatKey
attr_value type b offset =
    if type == b'c'
    then (do c ← load_char b offset; ok (char_key c))
    else if type == b'i'
    then (do n ← load_int b offset; ok (int_key n))
    else if type == b'f'
    then (do n ← load_int b offset; ok (float_key (to_unsigned n)))
    else fault uninitialised

-- HF_GetRecordValue
unfoldable pub hf_get_record_value : ScanEntry → Buf → Result (FloatKey × FloatKey)
hf_get_record_value e rec = do
  val1 ← attr_value e.type rec e.offset
  val2 ← attr_value e.type e.value (pos 0)
  ok (val1, val2)

-- The comparisons that the cases of HF_FindNextRec make.
pub data Op : Type 0 where
  op_eq : Op
  op_lt : Op
  op_gt : Op
  op_lteq : Op
  op_gteq : Op
  op_neq : Op

abbrev pub op_of : ℤ → Option Op
op_of (negsuc n) = none
op_of (pos n) =
    if n == 1
    then some op_eq
    else if n == 2
    then some op_lt
    else if n == 3
    then some op_gt
    else if n == 4
    then some op_lteq
    else if n == 5
    then some op_gteq
    else if n == 6
    then some op_neq
    else none

abbrev pub compare_keys : Op → ℤ → ℤ → Bool
compare_keys op_eq a b = eq_ℤ a b
compare_keys op_lt a b = ltb_ℤ a b
compare_keys op_gt a b = ltb_ℤ b a
compare_keys op_lteq a b = leb_ℤ a b
compare_keys op_gteq a b = leb_ℤ b a
compare_keys op_neq a b = not (eq_ℤ a b)

-- A comparison with NaN is false, `!=` excepted.
unfoldable pub compares : Op → FloatKey × FloatKey → Bool
compares op (key a, key b) = compare_keys op a b
compares op_neq (key a, not_a_number) = true
compares op (key a, not_a_number) = false
compares op_neq (not_a_number, b) = true
compares op (not_a_number, b) = false

-- The loop that every case of HF_FindNextRec has, with `n` rounds left. It ends without `return`.
unfoldable pub find_loop :
    ℕ → ScanEntry → Op → Hf → RecId → Buf → Result (Hf × Buf × Returned RecId)
find_loop zero e op s r rec = ok (s, rec, no_value)
find_loop (suc n) e op s r rec = do
  vals ← hf_get_record_value e rec
  if compares op vals then ok (s, rec, returned r) else do
    (s, rec, r) ← hf_get_next_rec s e.hf_fd r rec
    let rest = find_loop n e op s r rec
    if is_invalid r then ok (s, rec, returned invalid) else rest

-- HF_FindNextRec after HF_GetFirstRec.
unfoldable pub find_from :
    ScanEntry → HfEntry → Hf × Buf × RecId → Result (Hf × Buf × Returned RecId)
find_from e f (s, rec, r) = elim (op_of e.op) [
  | none ↦ ok (s, rec, returned invalid)
  | some op ↦ find_loop (pos_part f.hdr.max_num_records) e op s r rec
]

-- HF_FindNextRec. The search starts at the first record of the file, whatever was found before.
unfoldable pub hf_find_next_rec : Hf → ℤ → Buf → Result (Hf × Buf × Returned RecId)
hf_find_next_rec s sd rec = if not (is_scan sd) then ok (s, rec, returned invalid) else do
  e ← at s.scan_table sd
  if not e.valid then ok (s, rec, returned invalid) else do
    f ← at s.file_table e.hf_fd
    first ← hf_get_first_rec s e.hf_fd rec
    find_from e f first

-- HF_CloseFileScan. Only a bad descriptor is answered.
unfoldable pub hf_close_file_scan : Hf → ℤ → Result (Hf × Returned HfCode)
hf_close_file_scan s sd = if not (is_scan sd) then ok (s, returned hfe_sd) else do
  e ← at s.scan_table sd
  f ← at s.file_table e.hf_fd
  let s = set_scan s sd (record e { valid = false })
  ok (set_file s e.hf_fd (record f { scan_active = false }), no_value)
