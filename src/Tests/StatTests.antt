-- ===== src/Tests/StatTests.antt =====
-- lib/Stat.h.
use wall_mon.Base.{◌≡◌, refl, arith, some, [], ◌∷◌, pos, negsuc, ℤ}
use wall_mon.Stat.{Stat, min_val}
use wall_mon.Stat.Extremes.{Ordered, IsLeast, min_val-IsLeast}
use wall_mon.Tests.Numbers.{whole}

whole-Ordered : Ordered whole
whole-Ordered = record {
  irreflexive = λ a. ground arith;
  asymmetric = λ a b h. ground arith;
  not_less_trans = λ a b c h k. ground arith;
}

abbrev two_samples : Stat ℤ
two_samples = record { samples = (pos 4 ∷ negsuc 1 ∷ pos 7 ∷ []) ∷ (pos 1 ∷ []) ∷ [] }

min_val-IsLeast_example :
    (m : ℤ) × (min_val whole 0 two_samples ≡ some m)
    × IsLeast whole whole-Ordered m (pos 4 ∷ negsuc 1 ∷ pos 7 ∷ [])
min_val-IsLeast_example =
    min_val-IsLeast whole whole-Ordered 0 two_samples (pos 4) (negsuc 1 ∷ pos 7 ∷ []) refl
