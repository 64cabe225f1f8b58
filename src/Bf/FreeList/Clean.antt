-- ===== src/Bf/FreeList/Clean.antt =====
-- FL_Clean of bf/free_list.c on a list of two cells or more.
use adb_minirel.Prelude.{ℕ, suc, ◌≡◌, List, ◌∷◌, arith, IsDistinct}
use adb_minirel.Prelude.Result.{fault, dangling_pointer}
use adb_minirel.Memory.{Ptr, Links}
use adb_minirel.Memory.Chain.{Forward}
use adb_minirel.Bf.FreeList.{fl_clean}

-- FL_Clean on a well-formed free list of two cells or more, without repetitions, uses a cell after
-- it was freed, with any fuel for two rounds or more.
pub fl_clean-dangling :
    (k : ℕ) (l : Links) (x y : Ptr) (rest : List Ptr) (p : Ptr)
    → Forward l (x ∷ y ∷ rest) p
    → IsDistinct (x ∷ y ∷ rest)
    → fl_clean (suc (suc k)) l p ≡ fault dangling_pointer
unfolding fl_clean
fl_clean-dangling k l x y rest p w d = ground arith
