-- ===== src/Hf/Scans/Match.antt =====
-- HF_FindNextRec of hf/hf.c on an attribute of type `int`: which record it returns.
use adb_minirel.Prelude.{ℕ, zero, suc, ◌≡◌, false}
use adb_minirel.Prelude.Int.{ℤ}
use adb_minirel.Prelude.Result.{ok}
use adb_minirel.Unix.{Buf}
use adb_minirel.Hf.{RecId, is_invalid, ScanEntry, Hf}
use adb_minirel.Hf.Bytes.{load_int}
use adb_minirel.Hf.Cursor.{Found, hf_get_next_rec}
use adb_minirel.Hf.Scans.Find.{asks, level, IsSmall}

-- From a record in the caller's buffer, as many records as the index says have a small `int` at the
-- scan's offset that does not compare with the value `v` as the operator asks, and the next one is
-- the last.
pub data Passes (e : ScanEntry) (op : ℕ) (v : ℤ) : ℕ → Found → Found → Type 0 where
  here : (s : Hf) (rec : Buf) (r : RecId) → Passes e op v zero (s, rec, r) (s, rec, r)
  past :
      (m : ℕ) (s : Hf) (rec : Buf) (r : RecId) (a : ℤ) (s' : Hf) (rec' : Buf) (r' : RecId)
      (last : Found)
      → load_int rec e.offset ≡ ok a
      → IsSmall a
      → asks op (level a) (level v) ≡ false
      → hf_get_next_rec s e.hf_fd r rec ≡ ok (s', rec', r')
      → is_invalid r' ≡ false
      → Passes e op v m (s', rec', r') last
      → Passes e op v (suc m) (s, rec, r) last
