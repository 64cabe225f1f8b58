-- ===== src/Hf/Pins.antt =====
-- Pages of hf/hf.c and am/utils.c that stand in the pool at a known address: PF_GetThisPage and PF_UnpinPage
-- change no more than the pins of one.
use adb_minirel.Prelude.{ℕ, ◌<◌, ◌≡◌, ◌≢◌, refl, true, false, List, arith}
use adb_minirel.Prelude.Int.{pos, eq_ℤ_iff}
use adb_minirel.Prelude.Result.{ok}
use adb_minirel.Memory.{Ptr}
use adb_minirel.Bf.{BfReq, is_pinned, short_dec, short_inc, bfe_ok, page}
use adb_minirel.Bf.Api.{bump_count, bf_unpin_buf, bf_get_buf}
use adb_minirel.Bf.Api.Frames.{set_frame-IsPool, page-live}
use adb_minirel.Pf.{pfe_ok, pf_page, FtabEle, Pf}
use adb_minirel.Pf.Pages.{
  request, unpin_touched, pf_unpin_page, pf_get_this_page, pf_get_next_page, get_page,
}
use adb_minirel.Pf.State.{IsPf, IsOpen, HasPlace-pos}
use adb_minirel.Unix.{max_pages}
use adb_minirel.Pf.Get.{int_inc-int_dec}
use adb_minirel.Hf.State.{Held, find_page-keyed}

-- Pages with different numbers are at different addresses.
pub Held-apart :
    (s : Pf) (used free : List Ptr) (n k k' : ℕ) (pe : FtabEle) (a b : Ptr)
    → k ≢ k'
    → Held s used free (request pe (pos n) (pos k)) a
    → Held s used free (request pe (pos n) (pos k')) b
    → a ≢ b
Held-apart s used free n k k' pe a b ne x y same =
    let hit = y.found.keyed in
    let here = x.found.keyed in
    ground (
      arith,
      ne,
      same,
      eq_ℤ_iff (s.pool.frame a).pagenum (pos k),
      eq_ℤ_iff (s.pool.frame b).pagenum (pos k'),
    )

module _ (s : Pf) (used free : List Ptr) (n : ℕ) (pe : FtabEle) (count : ℕ)
    (o : IsOpen s n pe count) (k : ℕ) (h : k < count) (h' : k < max_pages) (a : Ptr)
    (held : Held s used free (request pe (pos n) (pos k)) a)
    (pinned : is_pinned (s.pool.frame a).count ≡ true) where
  abbrev bq : BfReq
  bq = request pe (pos n) (pos k)

  abbrev pub unpinned_pf : Pf
  unpinned_pf = record s { pool = bump_count s.pool a short_dec }

  run : bf_unpin_buf s.pool bq ≡ ok (bump_count s.pool a short_dec, bfe_ok)
  unfolding bf_unpin_buf
  run =
      let at =
        find_page-keyed s.pool.frame (pos n) (pos k) used a held.pf.pool.unique held.found.listed
          held.found.keyed in
      ground (
        arith,
        held.pf.pool.found (pos n) (pos k) (HasPlace-pos n k o.in_table h'),
        page-live s.pool used free held.pf.pool a held.found.listed,
        at,
      )

  pub unpin_run : pf_unpin_page s (pos n) (pos k) false ≡ ok (unpinned_pf, pfe_ok)
  unfolding pf_unpin_page unpin_touched
  unpin_run = ground (arith, o.in_table, o.at, o.valid, o.counted, h, run)

  pub unpinned_pf-IsPf : IsPf unpinned_pf used free
  unpinned_pf-IsPf = record {
    pool = set_frame-IsPool s.pool used free held.pf.pool a _ refl refl;
    sized = held.pf.sized;
  }

module _ (s : Pf) (used free : List Ptr) (n : ℕ) (pe : FtabEle) (count : ℕ)
    (o : IsOpen s n pe count) (k : ℕ) (h : k < count) (h' : k < max_pages) (a : Ptr)
    (held : Held s used free (request pe (pos n) (pos k)) a) where
  abbrev pub pinned_pf : Pf
  pinned_pf = record s { pool = bump_count s.pool a short_inc }

  got_run :
      bf_get_buf s.pool (request pe (pos n) (pos k)) ≡ ok (bump_count s.pool a short_inc, page a)
  unfolding bf_get_buf
  got_run =
      let at =
        find_page-keyed s.pool.frame (pos n) (pos k) used a held.pf.pool.unique held.found.listed
          held.found.keyed in
      ground (
        arith,
        held.pf.pool.found (pos n) (pos k) (HasPlace-pos n k o.in_table h'),
        page-live s.pool used free held.pf.pool a held.found.listed,
        at,
      )

  pub get_run : pf_get_this_page s (pos n) (pos k) ≡ ok (pinned_pf, pf_page a)
  unfolding pf_get_this_page pf_get_next_page get_page
  get_run = ground (
    arith,
    int_inc-int_dec (pos k) (ground arith),
    o.in_table,
    o.at,
    o.valid,
    o.counted,
    h,
    got_run,
  )

  pub pinned_pf-IsPf : IsPf pinned_pf used free
  pinned_pf-IsPf = record {
    pool = set_frame-IsPool s.pool used free held.pf.pool a _ refl refl;
    sized = held.pf.sized;
  }
