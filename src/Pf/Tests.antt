-- ===== src/Pf/Tests.antt =====
-- The theorems about pf/pf.c at concrete states: the file 3 open with the five pages of
-- Bf/Tests.antt's disk, all other entries closed.
use adb_minirel.Prelude.{
  ◌≡◌, refl, ◌⊎◌, true, false, List, [], ◌∷◌, some, none, arith, set, replicate,
}
use adb_minirel.Prelude.Int.{pos, negsuc}
use adb_minirel.Prelude.Result.{Result, ok, fault, out_of_bounds}
use adb_minirel.Memory.{Ptr}
use adb_minirel.Unix.{Unix, Name, write_at}
use adb_minirel.Unix.Files.{create_file, stat, close_file, open_file, read_start, fstat}
use adb_minirel.Bf.Api.View.{view}
use adb_minirel.Bf.Api.Spec.{spec_get}
use adb_minirel.Bf.Tests.{disk, two_pages, two_pages-IsPool}
use adb_minirel.Pf.{
  PfCode, pfe_ok, pfe_unix, FtabEle, Pf, pf_create_file, pf_open_file, opened_as, zero_page,
}
use adb_minirel.Pf.Header.{header_of}
use adb_minirel.Pf.Pages.{request, pf_close_file, pf_alloc_page, pf_get_this_page, pf_unpin_page}
use adb_minirel.Pf.State.{IsPf, IsOpen}
use adb_minirel.Pf.Unpin.{Ends, spec_unpin_page, pf_unpin_page-spec_unpin_page}
use adb_minirel.Pf.Get.{PfRefines, pf_get_this_page-spec_get}
use adb_minirel.Pf.Negative.{pf_get_this_page-out_of_bounds}
use adb_minirel.Pf.Alloc.{Grows, Stays, pf_alloc_page-Grows}
use adb_minirel.Pf.Files.{Opens, pf_create_file-stale_errno, pf_open_file-pf_create_file}
use adb_minirel.Pf.Close.{Closes, pf_close_file-Closes}
use adb_minirel.Unix.{pwrite}
use adb_minirel.Unix.Files.{write_start}
use adb_minirel.Prelude.Int.{◌+ℤ◌}
use adb_minirel.Bf.Lru.{write_back, lru_remove}
use adb_minirel.Bf.Hash.{ht_index, ht_remove, ht_remove_loop, ht_unlink}
use adb_minirel.Bf.FreeList.{fl_push}
use adb_minirel.Bf.Api.{release, flush_loop, bf_flush_buf}
use adb_minirel.Pf.Header.{word_bytes}
use adb_minirel.Pf.Pages.{write_header}
use adb_minirel.Pf.Reopen.{pf_open_file-pf_close_file}

abbrev pub name : Name
name = 97 ∷ []

abbrev pub closed : FtabEle
closed = record {
  valid = false;
  inode = 0;
  filename = [];
  unixfd = 0;
  numpages = pos 0;
  hdrchanged = false;
}

abbrev pub file_3 : FtabEle
file_3 = record {
  valid = true;
  inode = 1;
  filename = name;
  unixfd = 7;
  numpages = pos 5;
  hdrchanged = true;
}

abbrev pub table : List FtabEle
table = set (set (replicate 20 closed) 3 file_3) 0 file_3

abbrev pub used : List Ptr
used = 2 ∷ 1 ∷ []

-- A free frame, and the page 4 of the file 3 pinned once.
abbrev state : Pf
state = record { pool = two_pages 1 0 3; file_table = table }

state-IsPf : IsPf state used (3 ∷ [])
state-IsPf = record { pool = two_pages-IsPool 1 0; sized = refl }

open_3 : IsOpen state 3 file_3 5
open_3 = record { in_table = omega arith; at = refl; valid = refl; counted = refl }

open_0 : IsOpen state 0 file_3 5
open_0 = record { in_table = omega arith; at = refl; valid = refl; counted = refl }

-- No frame is pinned.
abbrev idle : Pf
idle = record { pool = two_pages 0 0 3; file_table = table }

idle-IsPf : IsPf idle used (3 ∷ [])
idle-IsPf = record { pool = two_pages-IsPool 0 0; sized = refl }

idle_3 : IsOpen idle 3 file_3 5
idle_3 = record { in_table = omega arith; at = refl; valid = refl; counted = refl }

pf_close_file-Closes_example :
    Closes idle used
      (3 ∷ [])
      idle-IsPf
      3
      file_3
      5
      idle_3
      name
      1
      refl
      refl
      refl
      refl
      (pf_close_file idle (pos 3))
pf_close_file-Closes_example =
    pf_close_file-Closes idle used (3 ∷ []) idle-IsPf 3 file_3 5 idle_3 name 1 refl refl refl refl

pf_alloc_page-Grows_example :
    Grows state used (3 ∷ []) state-IsPf 3 file_3 5 open_3 (pf_alloc_page state (pos 3) (pos 0))
    ⊎ Stays state used
        (3 ∷ [])
        state-IsPf
        3
        file_3
        5
        open_3
        (pos 0)
        (pf_alloc_page state (pos 3) (pos 0))
pf_alloc_page-Grows_example =
    pf_alloc_page-Grows state used (3 ∷ []) state-IsPf 3 file_3 5 open_3 (pos 0) (omega arith)
      (λ absent full. cc)

pf_get_this_page-spec_get_example :
    PfRefines
      (pf_get_this_page state (pos 3) (pos 4))
      (λ s' answer. (s', answer))
      state
      (spec_get (request file_3 (pos 3) (pos 4)) (view state.pool used (3 ∷ [])))
pf_get_this_page-spec_get_example =
    pf_get_this_page-spec_get state used (3 ∷ []) state-IsPf 3 file_3 5 open_3 4 (omega arith)
      (omega arith) (λ absent full. cc)

pf_get_this_page-out_of_bounds_example :
    pf_get_this_page state (pos 0) (negsuc 0) ≡ fault out_of_bounds
pf_get_this_page-out_of_bounds_example =
    pf_get_this_page-out_of_bounds state used (3 ∷ []) file_3 5 state-IsPf open_0

pf_unpin_page-spec_unpin_page_example :
    Ends
      (pf_unpin_page state (pos 3) (pos 4) true)
      state
      (3 ∷ [])
      (spec_unpin_page (request file_3 (pos 3) (pos 4)) true (view state.pool used (3 ∷ [])))
pf_unpin_page-spec_unpin_page_example =
    pf_unpin_page-spec_unpin_page state used (3 ∷ []) state-IsPf 3 file_3 5 open_3 4 (omega arith)
      (omega arith) true

-- Creating, opening and destroying files.
abbrev new_name : Name
new_name = 98 ∷ []

abbrev empty_disk : Unix
empty_disk = record disk { directory = λ other. none }

abbrev start : Pf
start = record {
  pool = record (two_pages 0 0 3) { unix = empty_disk };
  file_table = replicate 20 closed;
}

created : (pf_create_file start new_name).1 ≡ pfe_ok
unfolding pf_create_file create_file write_at close_file
created = refl

opened : (pf_open_file (pf_create_file start new_name).0 new_name).1 ≡ opened_as 0
unfolding pf_open_file pf_create_file stat create_file write_at close_file open_file read_start
    header_of zero_page fstat
opened = refl

pf_open_file-pf_create_file_example :
    Opens start (pf_open_file (pf_create_file start new_name).0 new_name).0 0 new_name (pos 0)
pf_open_file-pf_create_file_example = pf_open_file-pf_create_file start new_name 0 created opened

abbrev stale : Pf
stale = record start { pool = record start.pool { unix = record empty_disk { eexist = true } } }

pf_create_file-stale_errno_example :
    ((pf_create_file stale new_name).1 ≡ pfe_unix)
    × ((pf_create_file stale new_name).0.pool.unix.directory new_name ≡ some 2)
pf_create_file-stale_errno_example = pf_create_file-stale_errno stale new_name refl refl refl

-- The idle file is closed, and opened again.
abbrev state_of : Result (Pf × PfCode) → Pf
state_of (ok (s, code)) = s
state_of (fault e) = idle

abbrev after_close : Pf
after_close = state_of (pf_close_file idle (pos 3))

after_close-run : pf_close_file idle (pos 3) ≡ ok (after_close, pfe_ok)
unfolding pf_close_file write_header word_bytes write_start close_file bf_flush_buf flush_loop
    write_back pwrite write_at release ht_remove ht_remove_loop ht_unlink ht_index ◌+ℤ◌ lru_remove
    fl_push
after_close-run = refl

reopened : (pf_open_file after_close name).1 ≡ opened_as 1
unfolding pf_open_file stat open_file read_start header_of fstat pf_close_file write_header
    word_bytes write_start close_file bf_flush_buf flush_loop write_back pwrite write_at release
    ht_remove ht_remove_loop ht_unlink ht_index ◌+ℤ◌ lru_remove fl_push
reopened = refl

pf_open_file-pf_close_file_example :
    Opens after_close (pf_open_file after_close name).0 1 name (pos 5)
pf_open_file-pf_close_file_example =
    pf_open_file-pf_close_file idle used (3 ∷ []) idle-IsPf 3 file_3 5 idle_3 name 1 refl refl refl
      refl after_close after_close-run 1 reopened
