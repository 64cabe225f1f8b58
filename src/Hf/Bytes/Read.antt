-- ===== src/Hf/Bytes/Read.antt =====
-- The record that a data page of hf/hf.c has at a place, and the blocks that records stand in.
use adb_minirel.Prelude.{
  ℕ, suc, ◌+◌, ◌*◌, ◌≤◌, ◌<◌, ◌≡◌, ◌≢◌, ◌⊎◌, inl, inr, refl, Bool, true, false, Option, none, some,
  arith, length, ==_refl, Bool-cases, if◌then◌else◌, ltb,
}
use adb_minirel.Prelude.Int.{ℤ, pos, ◌+ℤ◌}
use adb_minirel.Prelude.Result.{Result, ok, fault, ◌>>=◌}
use adb_minirel.Memory.{Ptr, update}
use adb_minirel.Unix.{Buf, Name}
use adb_minirel.Hf.Bytes.{
  load_pointer, Blocks, copy_to, new_block, string_at, is_vacant, record_offset, fetch_record,
}
use adb_minirel.Hf.Bytes.Access.{Apart}

-- The record at a place, if there is one.
unfoldable pub record_at : Blocks → Buf → (max j : ℤ) → Result (Option Name)
record_at h b max j = do
  vacant ← is_vacant b j
  if vacant
      then ok none
      else do p ← load_pointer b (record_offset max j); text ← string_at h p; ok (some text)

pub record_offset-pos : (max j : ℕ) → record_offset (pos max) (pos j) ≡ pos (4 * max + 8 * j)
unfolding ◌+ℤ◌
record_offset-pos max j = ground arith

-- The bit map and the array of `max` records lie within the page.
abbrev pub Fits : Buf → ℕ → Type 0
Fits b max = 12 * max ≤ length b

-- Different places do not overlap.
ne-cases : (j k : ℕ) → j ≢ k → (j < k) ⊎ (k < j)
ne-cases j k h = elim (Bool-cases (ltb j k)) [
  | inl lt ↦ inl (ground arith)
  | inr ge ↦ inr (ground arith)
]

pub bits-Apart : (j k : ℕ) → j ≢ k → Apart (4 * j) 4 (4 * k) 4
bits-Apart j k h = elim (ne-cases j k h) [ inl lt ↦ inr (omega arith) | inr gt ↦ inl (omega arith) ]

pub pointers-Apart : (max j k : ℕ) → j ≢ k → Apart (4 * max + 8 * j) 8 (4 * max + 8 * k) 8
pointers-Apart max j k h = elim (ne-cases j k h) [
  | inl lt ↦ inr (omega arith)
  | inr gt ↦ inl (omega arith)
]

-- The blocks with one more.
abbrev pub grown : Blocks → Name → Blocks
grown h text = record { text = update h.text h.fresh (some text); fresh = suc h.fresh }

pub new_block_run :
    (h : Blocks) (text : Name) (recsize : ℕ)
    → length text ≤ recsize
    → new_block h (pos recsize +ℤ pos 1) text ≡ ok (grown h text)
unfolding new_block ◌+ℤ◌
new_block_run h text recsize short = ground arith

pub string_at-grown : (h : Blocks) (text : Name) → string_at (grown h text) h.fresh ≡ ok text
unfolding string_at
string_at-grown h text = ground (arith, ==_refl h.fresh)

-- What the test and the copy of a record find where `record_at` finds one.
pub record_at-some :
    (h : Blocks) (b : Buf) (max j : ℤ) (text : Name) (rec : Buf)
    → record_at h b max j ≡ ok (some text)
    → (is_vacant b j ≡ ok false) × (fetch_record h b max j rec ≡ copy_to text rec)
unfolding record_at fetch_record
record_at-some h b max j text rec e = ground arith

pub record_at-none :
    (h : Blocks) (b : Buf) (max j : ℤ) → record_at h b max j ≡ ok none → is_vacant b j ≡ ok true
unfolding record_at
record_at-none h b max j e = ground arith

-- The read of a record, from the two reads of the page.
abbrev record_of : Blocks → Result Bool → Result Ptr → Result (Option Name)
record_of h vacant pointer = vacant >>= λ v.
    if v then ok none else (pointer >>= λ p. string_at h p >>= λ text. ok (some text))

pub record_at-record_of :
    (h : Blocks) (b : Buf) (max j : ℕ)
    → record_at h b (pos max) (pos j)
      ≡ record_of h (is_vacant b (pos j)) (load_pointer b (pos (4 * max + 8 * j)))
unfolding record_at
record_at-record_of h b max j = rw (record_offset-pos max j) refl

-- A new block changes no record that was there.
pub record_of-grown :
    (h : Blocks) (text : Name) (vacant : Result Bool) (pointer : Result Ptr) (r : Option Name)
    → h.text h.fresh ≡ none
    → record_of h vacant pointer ≡ ok r
    → record_of (grown h text) vacant pointer ≡ ok r
unfolding string_at
record_of-grown h text (fault e) pointer r new before = cc
record_of-grown h text (ok true) pointer r new before = before
record_of-grown h text (ok false) (fault e) r new before = before
record_of-grown h text (ok false) (ok p) r new before = ground arith
