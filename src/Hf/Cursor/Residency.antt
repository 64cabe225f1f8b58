-- ===== src/Hf/Cursor/Residency.antt =====
-- Files of hf/hf.c whose pages all stand in the pool, and stay there when they are looked into.
use adb_minirel.Prelude.{
  ℕ, ◌<◌, ◌≡◌, ◌≢◌, refl, ◌⊎◌, inl, inr, true, List, [], ◌∷◌, some, arith, get_elem?, ◌==◌, ==_iff,
  ◌∙◌, ap, sym, Bool-cases,
}
use adb_minirel.Prelude.Int.{ℤ, pos, negsuc, eq_ℤ_iff}
use adb_minirel.Bf.{BfReq, Frame, is_pinned, short_inc, short_dec}
use adb_minirel.Bf.Api.View.{View, find_frame, is_page, replace_frame}
use adb_minirel.Bf.Api.Spec.{pin_again}
use adb_minirel.Pf.{FtabEle}
use adb_minirel.Pf.Pages.{request}
use adb_minirel.Unix.{max_pages}
use adb_minirel.Hf.{HfEntry}
use adb_minirel.Hf.State.{find_frame-keyed, find_frame-replace_frame}
use adb_minirel.Hf.Unpinning.{unpinned_view}
use adb_minirel.Hf.Resident.{pinned_view}

-- Another page is found as before.
find_frame-replace_other :
    (n k k' : ℕ) (g : Frame) (fs : List Frame)
    → k ≢ k'
    → is_page g (pos n) (pos k) ≡ true
    → find_frame (pos n) (pos k') (replace_frame (pos n) (pos k) g fs)
      ≡ find_frame (pos n) (pos k') fs
find_frame-replace_other n k k' g [] ne hit = refl
find_frame-replace_other n k k' g (f ∷ fs) ne hit = ground (
  arith,
  find_frame-replace_other n k k' g fs ne,
  eq_ℤ_iff g.pagenum (pos k),
  eq_ℤ_iff g.pagenum (pos k'),
  eq_ℤ_iff f.pagenum (pos k),
  eq_ℤ_iff f.pagenum (pos k'),
)

-- Every entry of the page map is -1 or a page of the file that stands in the pool.
abbrev pub Resident : ℕ → ℕ → HfEntry → View → Type 0
Resident n count e v =
    (q : ℕ) (x : ℤ)
    → get_elem? e.page_map q ≡ some x
    → (x ≡ negsuc 0)
      ⊎ ((k : ℕ) × (f : Frame) × (x ≡ pos k)
          × (k < count)
          × (k < max_pages)
          × (find_frame (pos n) (pos k) v.resident ≡ some f)
          × (is_pinned (short_inc f.count) ≡ true))

-- The view after a page was fetched and unpinned.
abbrev pub seen_view : BfReq → Frame → View → View
seen_view bq f v = unpinned_view bq (pin_again f) (pinned_view bq f v)

short_again : (c : ℕ) → short_inc (short_dec (short_inc c)) ≡ short_inc c
short_again c = omega arith

pub seen_view-Resident :
    (n : ℕ) (pe : FtabEle) (count : ℕ) (e : HfEntry) (v : View) (k : ℕ) (f : Frame)
    → find_frame (pos n) (pos k) v.resident ≡ some f
    → Resident n count e v
    → Resident n count e (seen_view (request pe (pos n) (pos k)) f v)
seen_view-Resident n pe count e v k f there all q x mapped = elim (all q x mapped) [
  | inl none_there ↦ inl none_there
  | inr (k', f', is, h, h', there', pinned) ↦ elim (Bool-cases (k == k')) [
    | inl same ↦
        let at : k ≡ k' = (==_iff k k').0 same in
        let one : f ≡ f' =
          some_inj (sym there ∙ ap (λ y. find_frame (pos n) (pos y) v.resident) at ∙ there') in
        inr (
          k',
          record f { count = short_dec (short_inc f.count) },
          is,
          h,
          h',
          ap (λ y. find_frame (pos n) (pos y) (seen_view (request pe (pos n) (pos k)) f v).resident)
                (sym at)
              ∙ twice,
          ap is_pinned (short_again f.count ∙ ap (λ (y : Frame). short_inc y.count) one) ∙ pinned,
        )
    | inr other ↦
        let ne : k ≢ k' = λ z. absurd (ground arith) in
        inr (k', f', is, h, h', others k' ne ∙ there', pinned)
  ]
]
  where
    some_inj : {y z : Frame} → some y ≡ some z → y ≡ z
    some_inj e = cc

    key : is_page f (pos n) (pos k) ≡ true
    key = find_frame-keyed (pos n) (pos k) v.resident f there

    once :
        find_frame (pos n) (pos k) (replace_frame (pos n) (pos k) (pin_again f) v.resident)
        ≡ some (pin_again f)
    once = find_frame-replace_frame (pos n) (pos k) v.resident f (pin_again f) there key

    twice :
        find_frame (pos n) (pos k) (seen_view (request pe (pos n) (pos k)) f v).resident
        ≡ some (record f { count = short_dec (short_inc f.count) })
    twice =
        find_frame-replace_frame (pos n) (pos k)
          (replace_frame (pos n) (pos k) (pin_again f) v.resident) (pin_again f)
          (record f { count = short_dec (short_inc f.count) }) once key

    others :
        (k' : ℕ)
        → k ≢ k'
        → find_frame (pos n) (pos k') (seen_view (request pe (pos n) (pos k)) f v).resident
          ≡ find_frame (pos n) (pos k') v.resident
    others k' ne =
        find_frame-replace_other n k k' (record f { count = short_dec (short_inc f.count) })
          (replace_frame (pos n) (pos k) (pin_again f) v.resident) ne key
        ∙ find_frame-replace_other n k k' (pin_again f) v.resident ne key
