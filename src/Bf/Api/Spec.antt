-- ===== src/Bf/Api/Spec.antt =====
-- What bf/bf.c promises, said of the view alone: no pointer, no hash table, no fuel. A page is
-- found by its key; the list is in order of use; a page that is needed takes a free frame, or the
-- frame of the least recently used page that nobody has pinned.
use adb_minirel.Prelude.{Bool, true, false, List, [], ◌∷◌, Option, none, some, if◌then◌else◌}
use adb_minirel.Prelude.Int.{ℤ, eq_ℤ}
use adb_minirel.Unix.{Unix, Reading, read_error, read_nothing, read_page, read_at, write_at}
use adb_minirel.Bf.{
  BfCode, bfe_ok, bfe_pagefixed, bfe_pageunfixed, bfe_pageinbuf, bfe_pagenotinbuf,
  bfe_incompleteread, bfe_incompletewrite, BfReq, Frame, is_pinned, short_inc, short_dec,
}
use adb_minirel.Bf.Api.View.{View, block_of, find_frame, remove_frame, replace_frame}

unfoldable pub spec_unpin : BfReq → View → View × BfCode
spec_unpin bq v = elim (find_frame bq.fd bq.pagenum v.resident) [
  | none ↦ (v, bfe_pagenotinbuf)
  | some f ↦
      if is_pinned f.count
      then (
        record v {
          resident =
              replace_frame bq.fd bq.pagenum (record f { count = short_dec f.count }) v.resident;
        },
        bfe_ok,
      )
      else (v, bfe_pageunfixed)
]

unfoldable pub spec_touch : BfReq → View → View × BfCode
spec_touch bq v = elim (find_frame bq.fd bq.pagenum v.resident) [
  | none ↦ (v, bfe_pagenotinbuf)
  | some f ↦
      if is_pinned f.count
      then (
        record v {
          resident = record f { dirty = true } ∷ remove_frame bq.fd bq.pagenum v.resident;
        },
        bfe_ok,
      )
      else (v, bfe_pageunfixed)
]

-- The least recently used page that is not pinned.
unfoldable pub victim : List Frame → Option Frame
victim [] = none
victim (f ∷ fs) = elim (victim fs) [
  | some g ↦ some g
  | none ↦ if is_pinned f.count then none else some f
]

-- A dirty page is written to its place in the file.
unfoldable pub spec_write_back : Frame → Unix → Unix × Bool
spec_write_back f u =
    if f.dirty then write_at u f.unixfd (block_of f.pagenum) f.fpage else (u, true)

-- A frame to put a page in: its old contents, or why there is none.
pub data Taking : Type 0 where
  taken : Frame → View → Taking
  no_frame : BfCode → View → Taking

abbrev pub evict_frame : Frame → View → Unix × Bool → Taking
evict_frame f v (u, true) =
    taken f (record v { unix = u; resident = remove_frame f.fd f.pagenum v.resident })
evict_frame f v (u, false) = no_frame bfe_incompletewrite (record v { unix = u })

abbrev pub take_from : List Frame → View → Taking
take_from (f ∷ fs) v = taken f (record v { spare = fs })
take_from [] v = elim (victim v.resident) [
  | none ↦ no_frame bfe_pagefixed v
  | some f ↦ evict_frame f v (spec_write_back f v.unix)
]

unfoldable pub spec_take : View → Taking
spec_take v = take_from v.spare v

-- What a call that returns a page returns: the frame or a code.
pub data Got : Type 0 where
  got : Frame → Got
  refused : BfCode → Got

-- A frame set up for the page that is asked for, pinned once; its bytes are still the old ones.
abbrev pub set_up_frame : BfReq → Frame → Frame
set_up_frame bq f = record {
  fpage = f.fpage;
  dirty = false;
  count = 1;
  pagenum = bq.pagenum;
  fd = bq.fd;
  unixfd = bq.unixfd;
}

abbrev pub put_front : Frame → View → View × Got
put_front f v = (record v { resident = f ∷ v.resident }, got f)

abbrev pub filled : Frame → View → Reading → View × Got
filled f v read_error = (v, refused bfe_incompleteread)
filled f v read_nothing = put_front f v
filled f v (read_page b) = put_front (record f { fpage = b }) v

abbrev pub read_frame : Frame → View → Unix × Reading → View × Got
read_frame f v (u, r) = filled f (record v { unix = u }) r

abbrev pub get_into : BfReq → Taking → View × Got
get_into bq (no_frame e v) = (v, refused e)
get_into bq (taken f v) =
    read_frame (set_up_frame bq f) v (read_at v.unix bq.unixfd (block_of bq.pagenum))

abbrev pub pin_again : Frame → Frame
pin_again f = record f { count = short_inc f.count }

unfoldable pub spec_get : BfReq → View → View × Got
spec_get bq v = elim (find_frame bq.fd bq.pagenum v.resident) [
  | some f ↦ (
    record v { resident = replace_frame bq.fd bq.pagenum (pin_again f) v.resident },
    got (pin_again f),
  )
  | none ↦ get_into bq (spec_take v)
]

abbrev pub alloc_into : BfReq → Taking → View × Got
alloc_into bq (no_frame e v) = (v, refused e)
alloc_into bq (taken f v) = put_front (set_up_frame bq f) v

unfoldable pub spec_alloc : BfReq → View → View × Got
spec_alloc bq v = elim (find_frame bq.fd bq.pagenum v.resident) [
  | some f ↦ (v, refused bfe_pageinbuf)
  | none ↦ alloc_into bq (spec_take v)
]

-- The pages from the most recently used on: those of the file are written back and freed, up to
-- the first that is pinned or cannot be written.
unfoldable pub spec_flush_loop : ℤ → List Frame → View → View × BfCode
spec_flush_loop fd [] v = (v, bfe_ok)
spec_flush_loop fd (f ∷ fs) v =
    let (u, written) = spec_write_back f v.unix in
    let freed : View = record {
      resident = remove_frame f.fd f.pagenum v.resident;
      spare = f ∷ v.spare;
      unix = u;
    } in
    let flushed = spec_flush_loop fd fs freed in
    let skipped = spec_flush_loop fd fs v in
    if eq_ℤ f.fd fd
    then (if is_pinned f.count
        then (v, bfe_pagefixed)
        else if written
        then flushed
        else (record v { unix = u }, bfe_incompletewrite))
    else skipped

unfoldable pub spec_flush : ℤ → View → View × BfCode
spec_flush fd v = spec_flush_loop fd v.resident v
