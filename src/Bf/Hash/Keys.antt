-- ===== src/Bf/Hash/Keys.antt =====
-- The entries of bf/hash_table.c as a list of keys: looking a key up, and what an entry more, an
-- entry less and a changed entry do to that.
use adb_minirel.Prelude.{
  ◌≡◌, refl, true, false, List, [], ◌∷◌, ◌++◌, arith, ◌==◌, if◌then◌else◌, mem,
}
use adb_minirel.Prelude.Int.{ℤ, eq_ℤ_iff}
use adb_minirel.Memory.{Ptr, null, update}
use adb_minirel.Bf.{Entry}
use adb_minirel.Bf.Hash.{has_key}

-- The page of the first entry with the key, or the null pointer.
abbrev pub find_entry : (Ptr → Entry) → ℤ → ℤ → List Ptr → Ptr
find_entry e fd pagenum [] = null
find_entry e fd pagenum (x ∷ xs) =
    if has_key (e x) fd pagenum then (e x).bpage else find_entry e fd pagenum xs

-- No entry of the chain has the key.
abbrev pub Lacks : (Ptr → Entry) → ℤ → ℤ → List Ptr → Type 0
Lacks e fd pagenum [] = Unit {0}
Lacks e fd pagenum (x ∷ xs) = (has_key (e x) fd pagenum ≡ false) × Lacks e fd pagenum xs

-- The keys of a chain are distinct.
abbrev pub IsKeyed : (Ptr → Entry) → List Ptr → Type 0
IsKeyed e [] = Unit {0}
IsKeyed e (x ∷ xs) = Lacks e (e x).fd (e x).pagenum xs × IsKeyed e xs

-- A change of entries outside a chain does not show in it.
pub find_entry-update :
    (e : Ptr → Entry) (p : Ptr) (v : Entry) (fd pagenum : ℤ) (xs : List Ptr)
    → mem p xs ≡ false
    → find_entry (update e p v) fd pagenum xs ≡ find_entry e fd pagenum xs
find_entry-update e p v fd pagenum [] h = refl
find_entry-update e p v fd pagenum (x ∷ xs) h =
    ground (arith, find_entry-update e p v fd pagenum xs)

pub Lacks-update :
    (e : Ptr → Entry) (p : Ptr) (v : Entry) (fd pagenum : ℤ) (xs : List Ptr)
    → mem p xs ≡ false
    → Lacks e fd pagenum xs
    → Lacks (update e p v) fd pagenum xs
Lacks-update e p v fd pagenum [] h k = tt
Lacks-update e p v fd pagenum (x ∷ xs) h k =
    (ground arith, Lacks-update e p v fd pagenum xs (ground arith) k.1)

pub IsKeyed-update :
    (e : Ptr → Entry) (p : Ptr) (v : Entry) (xs : List Ptr)
    → mem p xs ≡ false
    → IsKeyed e xs
    → IsKeyed (update e p v) xs
IsKeyed-update e p v [] h k = tt
IsKeyed-update e p v (x ∷ xs) h k =
    let here = Lacks-update e p v (e x).fd (e x).pagenum xs (ground arith) k.0 in
    let same : update e p v x ≡ e x = ground arith in
    (rw same here, IsKeyed-update e p v xs (ground arith) k.1)

-- A key that no entry has is not found, and the other way round where every entry has a page.
pub find_entry-Lacks :
    (e : Ptr → Entry) (fd pagenum : ℤ) (xs : List Ptr)
    → Lacks e fd pagenum xs
    → find_entry e fd pagenum xs ≡ null
find_entry-Lacks e fd pagenum [] k = refl
find_entry-Lacks e fd pagenum (x ∷ xs) k = ground (arith, find_entry-Lacks e fd pagenum xs)

pub Lacks-find_entry :
    (e : Ptr → Entry) (fd pagenum : ℤ) (xs : List Ptr)
    → ((a : Ptr) → mem a xs ≡ true → ((e a).bpage == null) ≡ false)
    → find_entry e fd pagenum xs ≡ null
    → Lacks e fd pagenum xs
Lacks-find_entry e fd pagenum [] full h = tt
Lacks-find_entry e fd pagenum (x ∷ xs) full h =
    let miss : has_key (e x) fd pagenum ≡ false = ground (arith, full x) in
    let rest : find_entry e fd pagenum xs ≡ null = ground arith in
    (miss, Lacks-find_entry e fd pagenum xs (λ a m. full a (ground arith)) rest)

-- Keys that a chain lacks are lacked by a longer one too, if the new entry has another key.
pub Lacks-append :
    (e : Ptr → Entry) (x : Ptr) (v : Entry) (fd pagenum : ℤ) (xs : List Ptr)
    → Lacks e fd pagenum xs
    → mem x xs ≡ false
    → has_key v fd pagenum ≡ false
    → Lacks (update e x v) fd pagenum (xs ++ x ∷ [])
Lacks-append e x v fd pagenum [] k h o = (ground arith, tt)
Lacks-append e x v fd pagenum (y ∷ ys) k h o =
    (ground arith, Lacks-append e x v fd pagenum ys k.1 (ground arith) o)

pub has_key-sym :
    (a b : Entry) → has_key a b.fd b.pagenum ≡ false → has_key b a.fd a.pagenum ≡ false
has_key-sym a b h = ground (
  arith,
  eq_ℤ_iff a.fd b.fd,
  eq_ℤ_iff b.fd a.fd,
  eq_ℤ_iff a.pagenum b.pagenum,
  eq_ℤ_iff b.pagenum a.pagenum,
)

pub IsKeyed-append :
    (e : Ptr → Entry) (x : Ptr) (v : Entry) (xs : List Ptr)
    → IsKeyed e xs
    → mem x xs ≡ false
    → Lacks e v.fd v.pagenum xs
    → IsKeyed (update e x v) (xs ++ x ∷ [])
IsKeyed-append e x v [] k h o = (tt, tt)
IsKeyed-append e x v (y ∷ ys) k h o =
    let same : update e x v y ≡ e y = ground arith in
    let front =
      Lacks-append e x v (e y).fd (e y).pagenum ys k.0 (ground arith) (has_key-sym (e y) v o.0) in
    (rw same front, IsKeyed-append e x v ys k.1 (ground arith) o.1)

module _ (e : Ptr → Entry) (x : Ptr) (v : Entry) (fd pagenum : ℤ) where
  pub find_entry-append_hit :
      (xs : List Ptr)
      → mem x xs ≡ false
      → Lacks e fd pagenum xs
      → has_key v fd pagenum ≡ true
      → find_entry (update e x v) fd pagenum (xs ++ x ∷ []) ≡ v.bpage
  find_entry-append_hit [] h k hit = ground arith
  find_entry-append_hit (y ∷ ys) h k hit = ground (arith, find_entry-append_hit ys)

  pub find_entry-append_miss :
      (xs : List Ptr)
      → mem x xs ≡ false
      → has_key v fd pagenum ≡ false
      → find_entry (update e x v) fd pagenum (xs ++ x ∷ []) ≡ find_entry e fd pagenum xs
  find_entry-append_miss [] h miss = ground arith
  find_entry-append_miss (y ∷ ys) h miss = ground (arith, find_entry-append_miss ys)
