-- ===== src/Memory/TwoLists.antt =====
-- Two lists over one heap: a doubly linked one and a singly linked one that share no cell, and the
-- moves of a cell between them.
use adb_minirel.Prelude.{
  ◌≡◌, refl, true, false, List, ◌∷◌, arith, ◌==◌, if◌then◌else◌, mem, IsDistinct, erase,
  mem-erase_absent, mem-erase_self, erase-IsDistinct, Bool-cases, inl, inr,
}
use adb_minirel.Memory.{Ptr, null, Links, write_next, write_prev}
use adb_minirel.Memory.Chain.{
  Chain, Chain-frame, Chain-live, Forward, Forward-frame, Forward-live, prev-mem,
}
use adb_minirel.Memory.Unlink.{
  unlink, unlink-erase, unlink-live, unlink-next, push_front, push_front-cons,
}

-- The doubly linked list `used` at `head`, and the singly linked list `free` at `free_head`.
pub record TwoLists (l : Links) (used free : List Ptr) (head free_head : Ptr) : Type 0 where
  pub listed : Chain l null used head
  pub spare : Forward l free free_head
  pub distinct : IsDistinct used
  pub distinct_free : IsDistinct free
  pub apart : (a : Ptr) → mem a used ≡ true → mem a free ≡ false

-- The cell `a` is allocated and in neither list.
pub record IsDetached (l : Links) (used free : List Ptr) (a : Ptr) : Type 0 where
  pub live : l.live a ≡ true
  pub not_null : (a == null) ≡ false
  pub not_used : mem a used ≡ false
  pub not_free : mem a free ≡ false

module _ (l : Links) (used free : List Ptr) (head free_head : Ptr)
    (w : TwoLists l used free head free_head) where
  pub null-not-used : mem null used ≡ false
  null-not-used = elim (Bool-cases (mem null used)) [
    | inl h ↦ absurd (let k = Chain-live l null used head null w.listed h in ground arith)
    | inr h ↦ h
  ]

  -- A cell of the first list is taken out.
  pub unlink-TwoLists :
      (a : Ptr)
      → mem a used ≡ true
      → TwoLists (unlink l a) (erase a used) free (if head == a then l.next a else head) free_head
  unlink-TwoLists a h = record {
    listed = unlink-erase l null a used head w.listed w.distinct null-not-used h;
    spare = Forward-frame l (unlink l a) free free_head w.spare λ b m. ground (
      arith,
      unlink-live l a,
      unlink-next l a b,
      prev-mem l null used head a w.listed h,
      Forward-live l free free_head b w.spare m,
      w.apart b,
    );
    distinct = erase-IsDistinct a used w.distinct;
    distinct_free = w.distinct_free;
    apart = λ b m. ground (arith, w.apart b, mem-erase_absent b a used);
  }

  pub unlink-IsDetached :
      (a : Ptr) → mem a used ≡ true → IsDetached (unlink l a) (erase a used) free a
  unlink-IsDetached a h = ground (
    arith,
    unlink-live l a,
    Chain-live l null used head a w.listed h,
    mem-erase_self a used w.distinct,
    w.apart a h,
  )

  module _ (a : Ptr) (d : IsDetached l used free a) where
    -- A detached cell goes to the front of the first list.
    pub push_front-TwoLists : TwoLists (push_front l head a) (a ∷ used) free a free_head
    unfolding push_front
    push_front-TwoLists = record {
      listed = push_front-cons l a used head w.listed w.distinct d.not_used d.live d.not_null;
      spare =
          Forward-frame l (push_front l head a) free free_head w.spare
            λ b m. ground (arith, d.not_free);
      distinct = (d.not_used, w.distinct);
      distinct_free = w.distinct_free;
      apart = λ b m. ground (arith, w.apart b, d.not_free);
    }

    -- A detached cell goes to the front of the second list.
    pub push_free-TwoLists : TwoLists (write_next l a free_head) used (a ∷ free) head a
    push_free-TwoLists = record {
      listed =
          Chain-frame l (write_next l a free_head) null used head w.listed
            λ b m. ground (arith, d.not_used);
      spare =
          let rest : Forward (write_next l a free_head) free free_head =
            Forward-frame l (write_next l a free_head) free free_head w.spare
              λ b m. ground (arith, d.not_free) in
          let here : (write_next l a free_head).next a ≡ free_head = ground arith in
          (refl, d.not_null, d.live, rw here rest);
      distinct = w.distinct;
      distinct_free = (d.not_free, w.distinct_free);
      apart = λ b m. ground (arith, w.apart b, d.not_used);
    }

    -- Its links can be overwritten.
    pub reset-TwoLists : TwoLists (write_prev (write_next l a null) a null) used free head free_head
    reset-TwoLists = record {
      listed =
          Chain-frame l (write_prev (write_next l a null) a null) null used head w.listed
            λ b m. ground (arith, d.not_used);
      spare =
          Forward-frame l (write_prev (write_next l a null) a null) free free_head w.spare
            λ b m. ground (arith, d.not_free);
      distinct = w.distinct;
      distinct_free = w.distinct_free;
      apart = w.apart;
    }

-- The head of the second list is taken off.
pub pop_free-TwoLists :
    (l : Links) (used free : List Ptr) (head a : Ptr) (free_head : Ptr)
    → TwoLists l used (a ∷ free) head free_head
    → TwoLists l used free head (l.next a) × IsDetached l used free a × (free_head ≡ a)
pop_free-TwoLists l used free head a free_head w = (
  record {
    listed = w.listed;
    spare = w.spare.3;
    distinct = w.distinct;
    distinct_free = w.distinct_free.1;
    apart = λ b m. let h = w.apart b m in ground arith;
  },
  record {
    live = w.spare.2;
    not_null = w.spare.1;
    not_used = elim (Bool-cases (mem a used)) [
      | inl h ↦ absurd (let k = w.apart a h in ground arith)
      | inr h ↦ h
    ];
    not_free = w.distinct_free.0;
  },
  w.spare.0,
)
