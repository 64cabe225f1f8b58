-- ===== src/Memory.antt =====
-- The heap cells of a linked list: which addresses are allocated, and the two link fields of each.
-- `BFpage` (bf/bf_page.h) and `BFhash_entry` (bf/hash_table.h) both carry such a pair of links.
use adb_minirel.Prelude.{ℕ, Bool, true, false, ◌==◌, if◌then◌else◌}
use adb_minirel.Prelude.Result.{Result, ok, fault, null_pointer, dangling_pointer, ◌>>=◌}
pub mod Chain
pub mod Unlink
pub mod TwoLists

abbrev pub Ptr : Type 0
Ptr = ℕ

abbrev pub null : Ptr
null = 0

pub record Links : Type 0 where
  pub live : Ptr → Bool
  pub next : Ptr → Ptr
  pub prev : Ptr → Ptr

abbrev pub update {ℓ} : {A : Type ℓ} → (Ptr → A) → Ptr → A → Ptr → A
update f p v a = if a == p then v else f a

-- The raw writes.
abbrev pub write_next : Links → Ptr → Ptr → Links
write_next l p q = record l { next = update l.next p q }

abbrev pub write_prev : Links → Ptr → Ptr → Links
write_prev l p q = record l { prev = update l.prev p q }

-- Any access through `p`.
abbrev pub deref {ℓ} : {A : Type ℓ} → Links → Ptr → A → Result A
deref l p a =
    if p == null then fault null_pointer else if l.live p then ok a else fault dangling_pointer

-- `p->nextpage`, `p->prevpage`, and the assignments to them.
abbrev pub load_next : Links → Ptr → Result Ptr
load_next l p = deref l p (l.next p)

abbrev pub load_prev : Links → Ptr → Result Ptr
load_prev l p = deref l p (l.prev p)

abbrev pub store_next : Links → Ptr → Ptr → Result Links
store_next l p q = deref l p (write_next l p q)

abbrev pub store_prev : Links → Ptr → Ptr → Result Links
store_prev l p q = deref l p (write_prev l p q)

-- `malloc` of a cell at the address `p`, whose fields are not initialised, and `free`.
abbrev pub allocate : Links → Ptr → Links
allocate l p = record l { live = update l.live p true }

abbrev pub free : Links → Ptr → Result Links
free l p = if p == null then ok l else deref l p (record l { live = update l.live p false })
