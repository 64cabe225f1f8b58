-- ===== src/Bf/Api/Codes.antt =====
-- What BF_FlushBuf of bf/bf.c leaves alone, and the codes that it returns, by its specification.
use adb_minirel.Prelude.{◌≡◌, refl, ◌⊎◌, inl, List, [], ◌∷◌, arith}
use adb_minirel.Prelude.Int.{ℤ}
use adb_minirel.Unix.{Unix, write_at}
use adb_minirel.Bf.{bfe_ok, bfe_pagefixed, bfe_incompletewrite, Frame}
use adb_minirel.Bf.Api.View.{View, remove_frame}
use adb_minirel.Bf.Api.Spec.{spec_write_back, spec_flush_loop}

-- Names and open descriptors are the same.
abbrev pub SameNames : Unix → Unix → Type 0
SameNames u u' = (u'.directory ≡ u.directory) × (u'.opened ≡ u.opened)

pub spec_write_back-SameNames : (f : Frame) (u : Unix) → SameNames u (spec_write_back f u).0
unfolding spec_write_back write_at
spec_write_back-SameNames f u = ground arith

pub spec_flush_loop-SameNames :
    (fd : ℤ) (fs : List Frame) (v : View) → SameNames v.unix (spec_flush_loop fd fs v).0.unix
unfolding spec_flush_loop
spec_flush_loop-SameNames fd [] v = (refl, refl)
spec_flush_loop-SameNames fd (f ∷ fs) v =
    let freed : View = record {
      resident = remove_frame f.fd f.pagenum v.resident;
      spare = f ∷ v.spare;
      unix = (spec_write_back f v.unix).0;
    } in
    ground (
      arith,
      spec_write_back-SameNames f v.unix,
      spec_flush_loop-SameNames fd fs freed,
      spec_flush_loop-SameNames fd fs v,
    )

pub spec_flush_loop-codes :
    (fd : ℤ) (fs : List Frame) (v : View)
    → ((spec_flush_loop fd fs v).1 ≡ bfe_ok)
      ⊎ (((spec_flush_loop fd fs v).1 ≡ bfe_pagefixed)
          ⊎ ((spec_flush_loop fd fs v).1 ≡ bfe_incompletewrite))
unfolding spec_flush_loop
spec_flush_loop-codes fd [] v = inl refl
spec_flush_loop-codes fd (f ∷ fs) v =
    let freed : View = record {
      resident = remove_frame f.fd f.pagenum v.resident;
      spare = f ∷ v.spare;
      unix = (spec_write_back f v.unix).0;
    } in
    ground (arith, spec_flush_loop-codes fd fs freed, spec_flush_loop-codes fd fs v)
