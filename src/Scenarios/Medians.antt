-- ===== src/Scenarios/Medians.antt =====
-- A run of the weighted median (common/time.go).
use gobft.Base.{
  ◌/◌, ◌≡◌, refl, pos, ◌-ℤ◌, int64, quot_ℤ, Bool, Option, none, some, List, [], ◌∷◌, if◌then◌else◌,
  arith,
}
use mathlib.Core.List.{Perm, reverse_perm}
use gobft.Times.{WeightedTime, less, Sort, median_loop, weighted_median}
use gobft.Times.Median.{IsMedian, IsSorted, IsTimed, weight_of, whole, weighted_median-IsMedian}

-- A stable sort, by insertion.
abbrev put :
    (Option WeightedTime → Option WeightedTime → Bool)
    → Option WeightedTime
    → List (Option WeightedTime)
    → List (Option WeightedTime)
put before o [] = o ∷ []
put before o (x ∷ rest) = if before o x then o ∷ x ∷ rest else x ∷ put before o rest

abbrev by_insertion : Sort
by_insertion before [] = []
by_insertion before (o ∷ rest) = put before o (by_insertion before rest)

-- Nil, and the times 20 and 10 with the weights 3 and 1.
abbrev three_times : List (Option WeightedTime)
three_times =
    none
    ∷ some (record { time = pos 20; weight = pos 3 })
    ∷ some (record { time = pos 10; weight = pos 1 })
    ∷ []

sorts : Perm (by_insertion less three_times) three_times
unfolding int64
sorts = reverse_perm three_times

is_20 : (weighted_median by_insertion three_times (pos 4)).1 ≡ pos 20
unfolding weighted_median median_loop quot_ℤ int64 ◌-ℤ◌
is_20 = refl

enough : whole three_times ≡ 4
unfolding weight_of
enough = refl

three-IsSorted : IsSorted (by_insertion less three_times)
unfolding int64
three-IsSorted = ((refl, (refl, tt)), ((refl, tt), (tt, tt)))

three-IsTimed : IsTimed three_times
unfolding int64
three-IsTimed = (tt, (refl, (refl, tt)))

weighted_median-IsMedian_example :
    IsMedian three_times (4 / 2) (weighted_median by_insertion three_times (pos 4)).1
weighted_median-IsMedian_example =
    weighted_median-IsMedian by_insertion three_times 4 sorts three-IsSorted
      (tt, (refl, (refl, tt))) three-IsTimed (omega (arith, enough)) (omega arith)
