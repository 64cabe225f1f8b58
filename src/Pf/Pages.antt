-- ===== src/Pf/Pages.antt =====
-- pf/pf.c: closing a file, and the pages of an open file.
use adb_minirel.Prelude.{Bool, true, false, not, if◌then◌else◌}
use adb_minirel.Prelude.Int.{ℤ, pos, negsuc, leb_ℤ, int_inc, int_dec}
use adb_minirel.Prelude.Result.{Result, ok, ◌>>=◌}
use adb_minirel.Unix.{Unix}
use adb_minirel.Unix.Files.{close_file, write_start}
use adb_minirel.Bf.{
  BfCode, bfe_ok, bfe_pagefixed, bfe_incompletewrite, BfReq, Pool, Answer, page, failed,
}
use adb_minirel.Bf.Api.{bf_get_buf, bf_alloc_buf, bf_unpin_buf, bf_touch_buf, bf_flush_buf}
use adb_minirel.Pf.{
  PfCode, pfe_ok, pfe_invalidpage, pfe_pagefree, pfe_fd, pfe_eof, pfe_fileopen, pfe_filenotopen,
  pfe_hdrread, pfe_hdrwrite, pfe_unix, FtabEle, Pf, PfAnswer, pf_page, pf_failed, with_unix, is_fd,
  entry_at, set_entry, pf_ftab_size,
}
use adb_minirel.Pf.Header.{header_bytes}

-- PF_CloseFile after `close`.
abbrev pub closed_entry : Pf → ℤ → FtabEle → Unix × Bool → Pf × PfCode
closed_entry s fd e (u, false) = (with_unix s u, pfe_unix)
closed_entry s fd e (u, true) = (set_entry (with_unix s u) fd (record e { valid = false }), pfe_ok)

-- PF_CloseFile after the write of the header.
abbrev pub close_entry : Pf → ℤ → FtabEle → Unix × Bool → Pf × PfCode
close_entry s fd e (u, false) = (with_unix s u, pfe_hdrwrite)
close_entry s fd e (u, true) = closed_entry s fd e (close_file u e.unixfd)

-- The header goes back to the file if it changed.
unfoldable pub write_header : FtabEle → Unix → Unix × Bool
write_header e u =
    if e.hdrchanged then write_start u e.unixfd (header_bytes e.numpages) else (u, true)

-- PF_CloseFile after BF_FlushBuf.
abbrev pub close_flushed : Pf → ℤ → FtabEle → BfCode → Pf × PfCode
close_flushed s fd e bfe_pagefixed = (s, pfe_fileopen)
close_flushed s fd e bfe_incompletewrite = (s, pfe_hdrwrite)
close_flushed s fd e _ = close_entry s fd e (write_header e s.pool.unix)

-- PF_CloseFile
unfoldable pub pf_close_file : Pf → ℤ → Result (Pf × PfCode)
pf_close_file s fd = if not (is_fd fd) then ok (s, pfe_fd) else do
  e ← entry_at s fd
  if not e.valid then ok (s, pfe_filenotopen) else do
    (pool, code) ← bf_flush_buf s.pool fd
    ok (close_flushed (record s { pool = pool }) fd e code)

-- The request for a page of an open file.
abbrev pub request : FtabEle → ℤ → ℤ → BfReq
request e fd pagenum = record { fd = fd; unixfd = e.unixfd; pagenum = pagenum }

abbrev pub is_ok : BfCode → Bool
is_ok bfe_ok = true
is_ok _ = false

-- The last lines of PF_AllocPage: one page more.
abbrev pub count_page : Pf → ℤ → FtabEle → Pf
count_page s fd e = set_entry s fd (record e { numpages = int_inc e.numpages; hdrchanged = true })

-- PF_AllocPage after BF_AllocBuf. `pagenum` is what `*pagenum` holds.
unfoldable pub touch_new : Pf → ℤ → ℤ → FtabEle → Pool × Answer → Result (Pf × ℤ × PfAnswer)
touch_new s fd pagenum e (pool, failed code) =
    ok (record s { pool = pool }, pagenum, pf_failed pfe_hdrwrite)
touch_new s fd pagenum e (pool, page a) = do
  (pool, code) ← bf_touch_buf pool (request e fd e.numpages)
  if is_ok code
      then ok (count_page (record s { pool = pool }) fd e, e.numpages, pf_page a)
      else ok (record s { pool = pool }, pagenum, pf_failed pfe_unix)

-- PF_AllocPage: the state, `*pagenum`, and the page or a code.
unfoldable pub pf_alloc_page : Pf → ℤ → ℤ → Result (Pf × ℤ × PfAnswer)
pf_alloc_page s fd pagenum = if not (is_fd fd) then ok (s, pagenum, pf_failed pfe_fd) else do
  e ← entry_at s fd
  if not e.valid
      then ok (s, pagenum, pf_failed pfe_filenotopen)
      else bf_alloc_buf s.pool (request e fd e.numpages) >>= touch_new s fd pagenum e

-- PF_GetNextPage after BF_GetBuf.
abbrev pub got_page : Pf → ℤ → Pool × Answer → Pf × ℤ × PfAnswer
got_page s pagenum (pool, failed code) = (record s { pool = pool }, pagenum, pf_failed pfe_hdrread)
got_page s pagenum (pool, page a) = (record s { pool = pool }, pagenum, pf_page a)

-- PF_GetNextPage after its checks, `pagenum` being incremented.
unfoldable pub get_page : Pf → ℤ → FtabEle → ℤ → Result (Pf × ℤ × PfAnswer)
get_page s fd e pagenum =
    if leb_ℤ e.numpages pagenum
    then ok (s, pagenum, pf_failed pfe_eof)
    else (do got ← bf_get_buf s.pool (request e fd pagenum); ok (got_page s pagenum got))

-- PF_GetNextPage: the state, `*pagenum`, and the page or a code. A negative `fd` is not refused.
unfoldable pub pf_get_next_page : Pf → ℤ → ℤ → Result (Pf × ℤ × PfAnswer)
pf_get_next_page s fd pagenum =
    if leb_ℤ (pos pf_ftab_size) fd then ok (s, pagenum, pf_failed pfe_fd) else do
      e ← entry_at s fd
      if not e.valid
          then ok (s, pagenum, pf_failed pfe_filenotopen)
          else get_page s fd e (int_inc pagenum)

-- PF_GetFirstPage
unfoldable pub pf_get_first_page : Pf → ℤ → Result (Pf × ℤ × PfAnswer)
pf_get_first_page s fd = pf_get_next_page s fd (negsuc 0)

-- The codes that PF_GetThisPage returns for those of PF_GetNextPage.
abbrev pub this_answer : PfAnswer → PfAnswer
this_answer (pf_page a) = pf_page a
this_answer (pf_failed pfe_eof) = pf_failed pfe_invalidpage
this_answer (pf_failed pfe_fd) = pf_failed pfe_invalidpage
this_answer (pf_failed code) = pf_failed code

-- PF_GetThisPage
unfoldable pub pf_get_this_page : Pf → ℤ → ℤ → Result (Pf × PfAnswer)
pf_get_this_page s fd pagenum = do
  (s, _, answer) ← pf_get_next_page s fd (int_dec pagenum)
  ok (s, this_answer answer)

-- BF_TouchBuf, with PF's code for any failure.
unfoldable pub touch_page : Pf → BfReq → Result (Pf × PfCode)
touch_page s bq = do
  (pool, code) ← bf_touch_buf s.pool bq
  ok (record s { pool = pool }, if is_ok code then pfe_ok else pfe_unix)

-- PF_DirtyPage
unfoldable pub pf_dirty_page : Pf → ℤ → ℤ → Result (Pf × PfCode)
pf_dirty_page s fd pagenum = if not (is_fd fd) then ok (s, pfe_fd) else do
  e ← entry_at s fd
  if not e.valid
      then ok (s, pfe_filenotopen)
      else if leb_ℤ e.numpages pagenum
      then ok (s, pfe_invalidpage)
      else touch_page s (request e fd pagenum)

-- PF_UnpinPage after BF_TouchBuf.
unfoldable pub unpin_touched : BfReq → Pf × PfCode → Result (Pf × PfCode)
unpin_touched bq (s, pfe_ok) = do
  (pool, code) ← bf_unpin_buf s.pool bq
  ok (record s { pool = pool }, if is_ok code then pfe_ok else pfe_pagefree)
unpin_touched bq (s, code) = ok (s, code)

-- PF_UnpinPage
unfoldable pub pf_unpin_page : Pf → ℤ → ℤ → Bool → Result (Pf × PfCode)
pf_unpin_page s fd pagenum dirty = if not (is_fd fd) then ok (s, pfe_fd) else do
  e ← entry_at s fd
  if not e.valid
      then ok (s, pfe_filenotopen)
      else if leb_ℤ e.numpages pagenum
      then ok (s, pfe_invalidpage)
      else do
        touched ← if dirty then touch_page s (request e fd pagenum) else ok (s, pfe_ok)
        unpin_touched (request e fd pagenum) touched
