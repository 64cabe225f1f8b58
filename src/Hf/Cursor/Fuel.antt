-- ===== src/Hf/Cursor/Fuel.antt =====
-- The reads of hf/hf.c that no lack of fuel can stop.
use adb_minirel.Prelude.{◌≢◌, arith}
use adb_minirel.Prelude.Int.{ℤ, pos, negsuc, scale}
use adb_minirel.Prelude.Result.{Result, ok, fault, out_of_fuel, ◌>>=◌}
use adb_minirel.Memory.{Ptr}
use adb_minirel.Unix.{Buf, Name}
use adb_minirel.Hf.Bytes.{
  Blocks, load_int, load_pointer, string_at, copy_to, is_vacant, fetch_record, record_offset,
}

-- The run does not exhaust its fuel.
abbrev pub HasFuel {ℓ} : {A : Type ℓ} → Result A → Type ℓ
HasFuel r = r ≢ fault out_of_fuel

pub HasFuel-bind {ℓ κ} :
    {A : Type ℓ} {B : Type κ} (r : Result A) (f : A → Result B)
    → HasFuel r
    → ((a : A) → HasFuel (f a))
    → HasFuel (r >>= f)
HasFuel-bind (ok a) f h k = k a
HasFuel-bind (fault c) f h k = λ e. h (let z = e in cc)

pub load_int-HasFuel : (b : Buf) (i : ℤ) → HasFuel (load_int b i)
unfolding load_int
load_int-HasFuel b (negsuc n) = λ e. cc
load_int-HasFuel b (pos i) = ground arith

pub is_vacant-HasFuel : (b : Buf) (j : ℤ) → HasFuel (is_vacant b j)
unfolding is_vacant
is_vacant-HasFuel b j =
    HasFuel-bind (load_int b (scale 4 j)) _ (load_int-HasFuel b (scale 4 j)) (λ n e. cc)

load_pointer-HasFuel : (b : Buf) (i : ℤ) → HasFuel (load_pointer b i)
unfolding load_pointer
load_pointer-HasFuel b (negsuc n) = λ e. cc
load_pointer-HasFuel b (pos i) = ground arith

string_at-HasFuel : (h : Blocks) (p : Ptr) → HasFuel (string_at h p)
unfolding string_at
string_at-HasFuel h p = ground arith

copy_to-HasFuel : (t : Name) (rec : Buf) → HasFuel (copy_to t rec)
unfolding copy_to
copy_to-HasFuel t rec = ground arith

pub fetch_record-HasFuel :
    (h : Blocks) (b : Buf) (max j : ℤ) (rec : Buf) → HasFuel (fetch_record h b max j rec)
unfolding fetch_record
fetch_record-HasFuel h b max j rec =
    HasFuel-bind (load_pointer b (record_offset max j)) _
      (load_pointer-HasFuel b (record_offset max j))
      λ p. HasFuel-bind (string_at h p) _ (string_at-HasFuel h p) λ t. copy_to-HasFuel t rec
