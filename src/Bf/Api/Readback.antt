-- ===== src/Bf/Api/Readback.antt =====
-- BF_FlushBuf and then BF_GetBuf of bf/bf.c.
use adb_minirel.Prelude.{
  ℕ, ◌≡◌, refl, true, false, List, [], ◌∷◌, map, some, none, Option, arith, ◌==◌, ◌∙◌, ap, sym, mem,
}
use adb_minirel.Prelude.Int.{ℤ}
use adb_minirel.Prelude.Result.{ok}
use adb_minirel.Memory.{Ptr, null}
use adb_minirel.Unix.{read_at}
use adb_minirel.Bf.{Frame, Pool, BfReq, bfe_ok, Answer, page, failed}
use adb_minirel.Bf.Api.{bf_flush_buf, bf_get_buf}
use adb_minirel.Bf.Api.Codes.{spec_flush_loop-SameNames}
use adb_minirel.Bf.Api.Flush.{bf_flush_buf-spec_flush}
use adb_minirel.Bf.Api.Drop.{without_file, bf_flush_buf-without_file}
use adb_minirel.Bf.Api.Durable.{IsStored, bf_flush_buf-IsStored}
use adb_minirel.Bf.Api.Fill.{Answers}
use adb_minirel.Bf.Api.Get.{bf_get_buf-spec_get}
use adb_minirel.Bf.Api.Spec.{Got, got, refused, spec_get, spec_take, set_up_frame, spec_flush}
use adb_minirel.Bf.Api.View.{IsPool, HasPlace, View, view, find_frame}

find_frame-without_file :
    (fd pagenum : ℤ) (fs : List Frame) → find_frame fd pagenum (without_file fd fs) ≡ none
find_frame-without_file fd pagenum [] = refl
find_frame-without_file fd pagenum (f ∷ fs) = ground (arith, find_frame-without_file fd pagenum fs)

-- A free frame takes the page that the file holds.
spec_get-reads :
    (bq : BfReq) (v : View) (f : Frame) (fs : List Frame) (inode : ℕ) (g : Frame)
    → find_frame bq.fd bq.pagenum v.resident ≡ none
    → v.spare ≡ f ∷ fs
    → v.unix.errors v.unix.calls ≡ false
    → v.unix.opened bq.unixfd ≡ some inode
    → g.pagenum ≡ bq.pagenum
    → IsStored v.unix inode g
    → (spec_get bq v).1 ≡ got (record (set_up_frame bq f) { fpage = g.fpage })
unfolding spec_get spec_take read_at
spec_get-reads bq v f fs inode g absent spare good held here w =
    let inside = w.inside in let stored = w.stored in ground arith

answer-fpage :
    (p : Pool) (used : List Ptr) (answer : Answer) (g : Got) (f : Frame)
    → Answers p used answer g
    → g ≡ got f
    → (b : Ptr) × (answer ≡ page b) × (p.frame b ≡ f)
answer-fpage p used (page b) (got f') f h e = (b, refl, h.1 ∙ ground arith)
answer-fpage p used (page b) (refused c) f h e = absurd h
answer-fpage p used (failed c) (got f') f h e = absurd h
answer-fpage p used (failed c) (refused c') f h e = cc

opened-bf_flush_buf :
    (p : Pool) (used free : List Ptr) (p' : Pool) (fd : ℤ)
    → IsPool p used free
    → bf_flush_buf p fd ≡ ok (p', bfe_ok)
    → p'.unix.opened ≡ p.unix.opened
unfolding spec_flush
opened-bf_flush_buf p used free p' fd w run =
    let (q, used', free', run', pool, seen) = bf_flush_buf-spec_flush p used free w fd in
    let same : q ≡ p' = cc in
    ap (λ (x : Pool). x.unix.opened) (sym same)
    ∙ ap (λ (x : View). x.unix.opened) seen
    ∙ (spec_flush_loop-SameNames fd (map p.frame used) (view p used free)).1

-- BF_GetBuf of a page that is not in the pool, where a frame is free and the read does not fail.
read_back :
    (p : Pool) (used free : List Ptr) (bq : BfReq) (inode : ℕ) (g : Frame)
    → IsPool p used free
    → HasPlace bq.fd bq.pagenum
    → find_frame bq.fd bq.pagenum (map p.frame used) ≡ none
    → (p.free_list_head == null) ≡ false
    → p.unix.errors p.unix.calls ≡ false
    → p.unix.opened bq.unixfd ≡ some inode
    → g.pagenum ≡ bq.pagenum
    → IsStored p.unix inode g
    → (p' : Pool) × (b : Ptr) × (bf_get_buf p bq ≡ ok (p', page b)) × ((p'.frame b).fpage ≡ g.fpage)
read_back p used [] bq inode g w i absent spare good held here stored =
    absurd (let none_free = w.spare in ground arith)
read_back p used (x ∷ xs) bq inode g w i absent spare good held here stored =
    let (p', used', free', answer, run, pool, seen, answers) =
      bf_get_buf-spec_get p used (x ∷ xs) w bq i (λ gone full. cc) in
    let reads =
      spec_get-reads bq (view p used (x ∷ xs)) (p.frame x) (map p.frame xs) inode g absent refl good
        held here stored in
    let (b, same, frame) =
      answer-fpage p' used' answer (spec_get bq (view p used (x ∷ xs))).1
        (record (set_up_frame bq (p.frame x)) { fpage = g.fpage }) answers reads in
    (p', b, run ∙ ap (λ c. ok (p', c)) same, ap (λ (f : Frame). f.fpage) frame)

-- The request for the page that the frame holds.
abbrev pub request_of : Frame → BfReq
request_of f = record { fd = f.fd; unixfd = f.unixfd; pagenum = f.pagenum }

-- If BF_FlushBuf returns BFE_OK on a well-formed pool that had a dirty page of the flushed file,
-- whose Unix descriptor was open, and afterwards a frame is free and the next system call does not
-- fail, then BF_GetBuf of that page returns a page with the same bytes.
pub bf_get_buf-bf_flush_buf :
    (p : Pool) (used free : List Ptr) (p' : Pool) (a : Ptr) (inode : ℕ)
    → IsPool p used free
    → mem a used ≡ true
    → (p.frame a).dirty ≡ true
    → p.unix.opened (p.frame a).unixfd ≡ some inode
    → bf_flush_buf p (p.frame a).fd ≡ ok (p', bfe_ok)
    → (p'.free_list_head == null) ≡ false
    → p'.unix.errors p'.unix.calls ≡ false
    → (p'' : Pool) × (b : Ptr) × (bf_get_buf p' (request_of (p.frame a)) ≡ ok (p'', page b))
      × ((p''.frame b).fpage ≡ (p.frame a).fpage)
bf_get_buf-bf_flush_buf p used free p' a inode w h dirty held run spare good =
    let f = p.frame a in
    let bq = request_of f in
    let (used', free', pool, left) = bf_flush_buf-without_file p used free f.fd p' w run in
    let stored = bf_flush_buf-IsStored p used free p' a inode w h dirty held run in
    let absent : find_frame f.fd f.pagenum (map p'.frame used') ≡ none =
      ap (find_frame f.fd f.pagenum) left
      ∙ find_frame-without_file f.fd f.pagenum (map p.frame used) in
    let held' : p'.unix.opened f.unixfd ≡ some inode =
      ap (λ (o : ℕ → Option ℕ). o f.unixfd) (opened-bf_flush_buf p used free p' f.fd w run)
      ∙ held in
    read_back p' used' free' bq inode f pool (w.placed a h) absent spare good held' refl stored
