-- ===== src/Pf/Reopen.antt =====
-- PF_CloseFile of pf/pf.c and PF_OpenFile of the same name one after the other.
use adb_minirel.Prelude.{ℕ, ◌≡◌, inl, inr, true, some, List}
use adb_minirel.Prelude.Int.{pos, is_int}
use adb_minirel.Prelude.Result.{ok}
use adb_minirel.Memory.{Ptr}
use adb_minirel.Unix.{Name}
use adb_minirel.Pf.{pfe_ok, FtabEle, Pf, opened_as, pf_open_file}
use adb_minirel.Pf.Pages.{pf_close_file}
use adb_minirel.Pf.State.{IsPf, IsOpen}
use adb_minirel.Pf.Files.{HasHeader, Opens, pf_open_file-Opens}
use adb_minirel.Pf.Close.{Closes, pf_close_file-Closes}

module _ (s : Pf) (used free : List Ptr) (w : IsPf s used free) (n : ℕ) (e : FtabEle) (count : ℕ)
    (o : IsOpen s n e count) (name : Name) (inode : ℕ)
    (named : s.pool.unix.directory name ≡ some inode)
    (held : s.pool.unix.opened e.unixfd ≡ some inode) (changed : e.hdrchanged ≡ true)
    (small : is_int (pos count) ≡ true) (s' : Pf)
    (run : pf_close_file s (pos n) ≡ ok (s', pfe_ok)) where
  closed-HasHeader :
      Closes s used free w n e count o name inode named held changed small (pf_close_file s (pos n))
      → HasHeader s'.pool.unix name (pos count)
  closed-HasHeader (inl (s₂, run₂, (used', free', w', left, header, table))) =
      let same : s₂ ≡ s' = cc in rw (← same) header
  closed-HasHeader (inr (s₂, code, run₂, (used', free', w', inl (why, _)))) =
      absurd (let k : code ≡ pfe_ok = cc in cc)
  closed-HasHeader (inr (s₂, code, run₂, (used', free', w', inr (inl why)))) =
      absurd (let k : code ≡ pfe_ok = cc in cc)
  closed-HasHeader (inr (s₂, code, run₂, (used', free', w', inr (inr why)))) =
      absurd (let k : code ≡ pfe_ok = cc in cc)

  -- On a well-formed state, for an open file with an entry and a page count, whose header has
  -- changed, whose page count is an int, and whose name and descriptor lead to the same file: if
  -- PF_CloseFile returns PFE_OK and PF_OpenFile of the name then returns a descriptor, the
  -- descriptor's entry was not in use before, is now that of an open file with this name, the page
  -- count that was closed and an unchanged header, and every other entry is as it was.
  pub pf_open_file-pf_close_file :
      (i : ℕ)
      → (pf_open_file s' name).1 ≡ opened_as i
      → Opens s' (pf_open_file s' name).0 i name (pos count)
  pf_open_file-pf_close_file i opened =
      pf_open_file-Opens s' name (pos count) i
        (closed-HasHeader
          (pf_close_file-Closes s used free w n e count o name inode named held changed small))
        opened
