-- ===== src/Pf/Close.antt =====
-- PF_CloseFile of pf/pf.c where it returns PFE_OK.
use adb_minirel.Prelude.{
  ℕ, ◌≡◌, refl, ◌⊎◌, inl, inr, true, false, List, ◌++◌, some, map, arith, ==_refl, take, drop,
  length, set, ◌∙◌, ap, length-set,
}
use adb_minirel.Prelude.Int.{pos, is_int, to_unsigned}
use adb_minirel.Prelude.Result.{Result, ok}
use adb_minirel.Memory.{Ptr}
use adb_minirel.Unix.{Unix, Buf, Name}
use adb_minirel.Unix.Files.{close_file, write_start}
use adb_minirel.Bf.{BfCode, bfe_ok, bfe_pagefixed, bfe_incompletewrite, Pool}
use adb_minirel.Bf.Api.{bf_flush_buf}
use adb_minirel.Bf.Api.View.{IsPool, View, view}
use adb_minirel.Bf.Api.Spec.{spec_flush}
use adb_minirel.Bf.Api.Take.{unix-IsPool}
use adb_minirel.Bf.Api.Flush.{bf_flush_buf-spec_flush}
use adb_minirel.Bf.Api.Drop.{without_file, flushed}
use adb_minirel.Pf.{
  PfCode, pfe_ok, pfe_fileopen, pfe_hdrwrite, pfe_unix, FtabEle, Pf, with_unix, set_entry,
}
use adb_minirel.Pf.Header.{header_bytes, word_bytes, header_of-header_bytes}
use adb_minirel.Pf.Pages.{close_entry, write_header, close_flushed, pf_close_file}
use adb_minirel.Pf.State.{IsPf, IsOpen}
use adb_minirel.Pf.Files.{HasHeader}
use adb_minirel.Bf.Api.Codes.{SameNames, spec_flush_loop-SameNames, spec_flush_loop-codes}

take-word_bytes : (w : ℕ) (rest : Buf) → take 4 (word_bytes w ++ rest) ≡ word_bytes w
unfolding word_bytes
take-word_bytes w rest = refl

-- The lines of PF_CloseFile after BF_FlushBuf, where they return PFE_OK.
module _ (s : Pf) (n : ℕ) (e : FtabEle) (name : Name) (inode : ℕ)
    (named : s.pool.unix.directory name ≡ some inode)
    (held : s.pool.unix.opened e.unixfd ≡ some inode) (changed : e.hdrchanged ≡ true)
    (small : is_int e.numpages ≡ true) where
  write_header-HasHeader :
      (close_entry s (pos n) e (write_header e s.pool.unix)).1 ≡ pfe_ok
      → HasHeader (close_entry s (pos n) e (write_header e s.pool.unix)).0.pool.unix name e.numpages
  unfolding write_header write_start close_file
  write_header-HasHeader run =
      let self = ==_refl inode in
      let bytes = header_bytes e.numpages in
      record {
        inode = inode;
        named = ground arith;
        sized = ground arith;
        header = ground (
          arith,
          header_of-header_bytes e.numpages small,
          take-word_bytes (to_unsigned e.numpages)
              (drop (length bytes) ((s.pool.unix.file inode).block 0)),
        );
      }

  -- Neither the pool's lists nor the other files change there.
  close_entry-kept :
      (close_entry s (pos n) e (write_header e s.pool.unix)).1 ≡ pfe_ok
      → (u : Unix) × ((close_entry s (pos n) e (write_header e s.pool.unix)).0
          ≡ set_entry (with_unix s u) (pos n) (record e { valid = false }))
  unfolding write_header write_start close_file
  close_entry-kept run =
      ((close_entry s (pos n) e (write_header e s.pool.unix)).0.pool.unix, ground arith)

module _ (s : Pf) (used free : List Ptr) (w : IsPf s used free) (n : ℕ) (e : FtabEle) (count : ℕ)
    (o : IsOpen s n e count) (name : Name) (inode : ℕ)
    (named : s.pool.unix.directory name ≡ some inode)
    (held : s.pool.unix.opened e.unixfd ≡ some inode) (changed : e.hdrchanged ≡ true)
    (small : is_int (pos count) ≡ true) where
  -- The file is closed: none of its pages is in the pool, its header is in the file, and its entry is
  -- not in use.
  abbrev pub Closed : Pf → Type 0
  Closed s' =
      (used' free' : List Ptr) × IsPf s' used' free'
      × (map s'.pool.frame used' ≡ without_file (pos n) (map s.pool.frame used))
      × HasHeader s'.pool.unix name (pos count)
      × (s'.file_table ≡ set s.file_table n (record e { valid = false }))

  close_run :
      (p : Pool) (code : BfCode)
      → bf_flush_buf s.pool (pos n) ≡ ok (p, code)
      → pf_close_file s (pos n) ≡ ok (close_flushed (record s { pool = p }) (pos n) e code)
  unfolding pf_close_file
  close_run p code run = ground (arith, o.in_table, o.at, o.valid)

  -- The state after BF_FlushBuf returned BFE_OK.
  after_flush :
      (p : Pool) (used' free' : List Ptr)
      → IsPool p used' free'
      → SameNames s.pool.unix p.unix
      → map p.frame used' ≡ without_file (pos n) (map s.pool.frame used)
      → (close_flushed (record s { pool = p }) (pos n) e bfe_ok).1 ≡ pfe_ok
      → Closed (close_flushed (record s { pool = p }) (pos n) e bfe_ok).0
  after_flush p used' free' pool names left done =
      let q : Pf = record s { pool = p } in
      let named' : p.unix.directory name ≡ some inode = ap (λ d. d name) names.0 ∙ named in
      let held' : p.unix.opened e.unixfd ≡ some inode = ap (λ d. d e.unixfd) names.1 ∙ held in
      let small' : is_int e.numpages ≡ true = rw o.counted small in
      let header = write_header-HasHeader q n e name inode named' held' changed small' done in
      let (u, same) = close_entry-kept q n e name inode named' held' changed small' done in
      (
        used',
        free',
        rw same (record {
          pool = unix-IsPool p used' free' pool u;
          sized = length-set s.file_table n (record e { valid = false }) ∙ w.sized;
        }),
        rw same left,
        rw (← o.counted) header,
        rw same refl,
      )

  -- The file is not closed, and the state is still well formed.
  abbrev pub NotClosed : Pf → PfCode → Type 0
  NotClosed s' code =
      (used' free' : List Ptr) × IsPf s' used' free'
      × (((code ≡ pfe_fileopen) × ((spec_flush (pos n) (view s.pool used free)).1 ≡ bfe_pagefixed))
          ⊎ ((code ≡ pfe_hdrwrite) ⊎ (code ≡ pfe_unix)))

  abbrev pub Closes : Result (Pf × PfCode) → Type 0
  Closes r =
      ((s' : Pf) × (r ≡ ok (s', pfe_ok)) × Closed s')
      ⊎ ((s' : Pf) × (code : PfCode) × (r ≡ ok (s', code)) × NotClosed s' code)

  entry-codes :
      (q : Pf)
      → ((close_entry q (pos n) e (write_header e q.pool.unix)).1 ≡ pfe_ok)
        ⊎ (((close_entry q (pos n) e (write_header e q.pool.unix)).0
              ≡ with_unix q (close_entry q (pos n) e (write_header e q.pool.unix)).0.pool.unix)
            × (((close_entry q (pos n) e (write_header e q.pool.unix)).1 ≡ pfe_hdrwrite)
                ⊎ ((close_entry q (pos n) e (write_header e q.pool.unix)).1 ≡ pfe_unix)))
  unfolding write_header write_start close_file
  entry-codes q = ground arith

  close_flushed-Closes :
      (p : Pool) (used' free' : List Ptr)
      → IsPool p used' free'
      → SameNames s.pool.unix p.unix
      → map p.frame used' ≡ without_file (pos n) (map s.pool.frame used)
      → Closes (ok (close_flushed (record s { pool = p }) (pos n) e bfe_ok))
  close_flushed-Closes p used' free' pool names left =
      let q : Pf = record s { pool = p } in
      let r = close_entry q (pos n) e (write_header e q.pool.unix) in
      elim (entry-codes q) [
        | inl done ↦
            inl (r.0, ap (λ c. ok (r.0, c)) done, after_flush p used' free' pool names left done)
        | inr (same, why) ↦ inr (
          r.0,
          r.1,
          refl,
          (
            used',
            free',
            rw same
                (record { pool = unix-IsPool p used' free' pool r.0.pool.unix; sized = w.sized }),
            inr why,
          ),
        )
      ]

  flush_names : SameNames s.pool.unix (spec_flush (pos n) (view s.pool used free)).0.unix
  unfolding spec_flush
  flush_names = spec_flush_loop-SameNames (pos n) (map s.pool.frame used) (view s.pool used free)

  flush_codes :
      ((spec_flush (pos n) (view s.pool used free)).1 ≡ bfe_ok)
      ⊎ (((spec_flush (pos n) (view s.pool used free)).1 ≡ bfe_pagefixed)
          ⊎ ((spec_flush (pos n) (view s.pool used free)).1 ≡ bfe_incompletewrite))
  unfolding spec_flush
  flush_codes = spec_flush_loop-codes (pos n) (map s.pool.frame used) (view s.pool used free)

  -- On a well-formed state, for an open file with an entry and a page count, whose header has
  -- changed, whose page count is an int, and whose name and descriptor lead to the same file,
  -- PF_CloseFile ends without undefined behaviour and leaves a well-formed state: either it returns
  -- PFE_OK, and none of the file's pages is in the pool, those of the other files are unchanged and
  -- in order, the header in the file under the name holds the page count, and the entry is not in
  -- use; or it returns PFE_FILEOPEN because BF_FlushBuf met a pinned page, or PFE_HDRWRITE or
  -- PFE_UNIX.
  pub pf_close_file-Closes : Closes (pf_close_file s (pos n))
  pf_close_file-Closes =
      let v = spec_flush (pos n) (view s.pool used free) in
      let (p, used', free', run, pool, seen) =
        bf_flush_buf-spec_flush s.pool used free w.pool (pos n) in
      elim flush_codes [
        | inl good ↦
            let names : SameNames s.pool.unix p.unix = (
              ap (λ (x : View). x.unix.directory) seen ∙ flush_names.0,
              ap (λ (x : View). x.unix.opened) seen ∙ flush_names.1,
            ) in
            let left = ap (λ (x : View). x.resident) seen ∙ flushed s.pool used free (pos n) good in
            rw (close_run p bfe_ok (run ∙ ap (λ c. ok (p, c)) good))
              (close_flushed-Closes p used' free' pool names left)
        | inr (inl pinned) ↦ rw (close_run p bfe_pagefixed (run ∙ ap (λ c. ok (p, c)) pinned)) (
            inr (
              record s { pool = p },
              pfe_fileopen,
              refl,
              (used', free', record { pool = pool; sized = w.sized }, inl (refl, pinned)),
            ))
        | inr (inr bad) ↦ rw (close_run p bfe_incompletewrite (run ∙ ap (λ c. ok (p, c)) bad)) (
            inr (
              record s { pool = p },
              pfe_hdrwrite,
              refl,
              (used', free', record { pool = pool; sized = w.sized }, inr (inl refl)),
            ))
      ]
