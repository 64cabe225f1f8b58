-- ===== src/Pf/Init.antt =====
-- PF_Init of pf/pf.c, and the descriptors that its operations refuse.
use adb_minirel.Prelude.{
  ℕ, zero, suc, ◌≤◌, ◌<◌, ◌≡◌, refl, Bool, false, List, [], ◌∷◌, some, map, arith, length,
  get_elem?, ap, ◌∙◌,
}
use adb_minirel.Prelude.Int.{ℤ, pos}
use adb_minirel.Prelude.Result.{ok}
use adb_minirel.Memory.{Ptr, null}
use adb_minirel.Bf.{bf_max_bufs}
use adb_minirel.Bf.Api.Init.{bf_init-IsPool}
use adb_minirel.Pf.{pf_ftab_size, pfe_fd, pfe_filenotopen, FtabEle, Pf, pf_failed, pf_init}
use adb_minirel.Pf.Pages.{
  pf_close_file, pf_alloc_page, pf_get_next_page, pf_dirty_page, pf_unpin_page,
}
use adb_minirel.Pf.State.{IsPf}

abbrev pub AllClosed : List FtabEle → Type 0
AllClosed table = (i : ℕ) (e : FtabEle) → get_elem? table i ≡ some e → e.valid ≡ false

abbrev closed_all : List FtabEle → List FtabEle
closed_all = map (λ (e : FtabEle). record e { valid = false })

length-closed_all : (table : List FtabEle) → length (closed_all table) ≡ length table
length-closed_all [] = refl
length-closed_all (e ∷ es) = ap suc (length-closed_all es)

AllClosed-closed_all :
    (table : List FtabEle) (i : ℕ) (e : FtabEle)
    → get_elem? (closed_all table) i ≡ some e
    → e.valid ≡ false
AllClosed-closed_all [] i e h = cc
AllClosed-closed_all (x ∷ xs) zero e h = ground arith
AllClosed-closed_all (x ∷ xs) (suc i) e h = AllClosed-closed_all xs i e h

-- Where the LRU head is null, as the loader leaves it, malloc gives addresses that are not null,
-- and the file table has its size, PF_Init succeeds and leaves a well-formed state without a page,
-- with BF_MAX_BUFS free frames and with no entry of the file table in use.
pub pf_init-IsPf :
    (s : Pf)
    → s.pool.lru_head ≡ null
    → 0 < s.pool.fresh
    → 0 < s.pool.hash_table.fresh
    → length s.file_table ≡ pf_ftab_size
    → (s' : Pf) × (free : List Ptr) × (pf_init s ≡ ok s')
      × IsPf s' [] free
      × (length free ≡ bf_max_bufs)
      × AllClosed s'.file_table
unfolding pf_init
pf_init-IsPf s head h k sized =
    let (p, free, run, pool, forty, _) = bf_init-IsPool s.pool head h k in
    (
      record { pool = p; file_table = closed_all s.file_table },
      free,
      rw run refl,
      record { pool = pool; sized = length-closed_all s.file_table ∙ sized },
      forty,
      AllClosed-closed_all s.file_table,
    )

module _ (s : Pf) (k : ℤ) (dirty : Bool) where
  -- For a descriptor whose entry is not in use, PF_CloseFile, PF_AllocPage, PF_GetNextPage,
  -- PF_DirtyPage and PF_UnpinPage each return PFE_FILENOTOPEN and change nothing, whatever the page
  -- number and the dirty flag.
  pub closed_file_refused :
      (n : ℕ) (e : FtabEle)
      → n < pf_ftab_size
      → get_elem? s.file_table n ≡ some e
      → e.valid ≡ false
      → (pf_close_file s (pos n) ≡ ok (s, pfe_filenotopen))
        × (pf_alloc_page s (pos n) k ≡ ok (s, k, pf_failed pfe_filenotopen))
        × (pf_get_next_page s (pos n) k ≡ ok (s, k, pf_failed pfe_filenotopen))
        × (pf_dirty_page s (pos n) k ≡ ok (s, pfe_filenotopen))
        × (pf_unpin_page s (pos n) k dirty ≡ ok (s, pfe_filenotopen))
  unfolding pf_close_file pf_alloc_page pf_get_next_page pf_dirty_page pf_unpin_page
  closed_file_refused n e h at closed = ground arith

  pub large_descriptor_refused :
      (n : ℕ)
      → pf_ftab_size ≤ n
      → (pf_close_file s (pos n) ≡ ok (s, pfe_fd))
        × (pf_alloc_page s (pos n) k ≡ ok (s, k, pf_failed pfe_fd))
        × (pf_get_next_page s (pos n) k ≡ ok (s, k, pf_failed pfe_fd))
        × (pf_dirty_page s (pos n) k ≡ ok (s, pfe_fd))
        × (pf_unpin_page s (pos n) k dirty ≡ ok (s, pfe_fd))
  unfolding pf_close_file pf_alloc_page pf_get_next_page pf_dirty_page pf_unpin_page
  large_descriptor_refused n h = ground arith
