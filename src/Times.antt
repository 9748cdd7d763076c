-- ===== src/Times.antt =====
-- common/time.go: the weighted median of times. A time is the number of nanoseconds since 1970, of any
-- size and negative before; `UnixNano` gives its last 64 bits, as a signed integer. `sort.Slice` is an argument: it orders the caller's slice, which is
-- returned with the median. `Now` and `Canonical` concern the clock's monotonic reading, which is no
-- part of a time here.
pub mod Median
use gobft.Base.{
  ℤ, negsuc, ltb_ℤ, ◌-ℤ◌, int64, quot_ℤ, leb_ℤ, Bool, true, false, Option, none, some, List, [],
  ◌∷◌, if◌then◌else◌,
}

pub record WeightedTime : Type 0 where
  pub time : ℤ
  pub weight : ℤ

-- `NewWeightedTime`
unfoldable pub new_weighted_time : ℤ → ℤ → WeightedTime
new_weighted_time time weight = record { time = time; weight = weight }

-- The order of the sort: by `UnixNano`, nil last.
abbrev pub less : Option WeightedTime → Option WeightedTime → Bool
less none b = false
less (some a) none = true
less (some a) (some b) = ltb_ℤ (int64 a.time) (int64 b.time)

-- The zero value of a time: the start of the year 1.
abbrev pub zero_time : ℤ
zero_time = negsuc 62135596799999999999

-- The loop over the sorted slice; without a hit, the zero time.
unfoldable pub median_loop : ℤ → List (Option WeightedTime) → ℤ
median_loop median [] = zero_time
median_loop median (none ∷ rest) = median_loop median rest
median_loop median (some w ∷ rest) =
    let later = median_loop (int64 (median -ℤ w.weight)) rest in
    if leb_ℤ median w.weight then w.time else later

-- What a sort does with an order and a slice.
abbrev pub Sort : Type 0
Sort =
    (Option WeightedTime → Option WeightedTime → Bool)
    → List (Option WeightedTime)
    → List (Option WeightedTime)

unfoldable pub weighted_median :
    Sort → List (Option WeightedTime) → ℤ → List (Option WeightedTime) × ℤ
unfolding median_loop
weighted_median sort weighted_times total_voting_power =
    let sorted = sort less weighted_times in
    (sorted, median_loop (quot_ℤ total_voting_power 2) sorted)
