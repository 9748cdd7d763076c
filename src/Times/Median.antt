-- ===== src/Times/Median.antt =====
-- `WeightedMedian` (common/time.go) finds the weighted median.
use gobft.Base.{
  ℕ, ℤ, ◌≤ℤ◌, ltb_ℤ, ◌+◌, ◌-◌, ◌/◌, ◌≤◌, ◌<◌, ◌≡◌, refl, sym, ap, ap₂, ◌∙◌, subst, pos, pos_part,
  ◌-ℤ◌, int64, int64_pos, quot_ℤ, leb_ℤ, Bool, true, false, Option, none, some, List, [], ◌∷◌, All,
  if◌then◌else◌, arith,
}
use native.Mathlib.Decide.{dec_le}
use mathlib.Core.List.{Perm, Permᴰ}
use mathlib.Core.Logic.{∥∥₁_elim}
use native.Mathlib.Nat.{ℕ_set}
use native.Mathlib.Bridge.{le_prop}
use gobft.Times.{WeightedTime, less, median_loop, Sort, weighted_median}

-- The weight of the entries whose time passes the test.
abbrev pub entry_weight : (ℤ → Bool) → Option WeightedTime → ℕ
entry_weight p none = 0
entry_weight p (some w) = if p w.time then pos_part w.weight else 0

unfoldable pub weight_of : (ℤ → Bool) → List (Option WeightedTime) → ℕ
weight_of p [] = 0
weight_of p (o ∷ rest) = entry_weight p o + weight_of p rest

-- The weight of the times before this one, and of those up to it.
abbrev pub before : ℤ → List (Option WeightedTime) → ℕ
before t = weight_of (λ s. ltb_ℤ s t)

abbrev pub up_to : ℤ → List (Option WeightedTime) → ℕ
up_to t = weight_of (λ s. leb_ℤ s t)

abbrev pub whole : List (Option WeightedTime) → ℕ
whole = weight_of (λ s. true)

-- The entries up to the time reach m, and those before it do not; at m = 0 they weigh nothing.
abbrev pub IsMedian : List (Option WeightedTime) → ℕ → ℤ → Type 0
IsMedian l m t = (m ≤ up_to t l) × (before t l ≤ m - 1)

abbrev pub RealWeight : Option WeightedTime → Type 0
RealWeight none = Unit
RealWeight (some w) = leb_ℤ (pos 0) w.weight ≡ true

-- No weight is negative.
abbrev pub IsWeighed : List (Option WeightedTime) → Type 0
IsWeighed = All RealWeight

abbrev pub RealTime : Option WeightedTime → Type 0
RealTime none = Unit
RealTime (some w) = int64 w.time ≡ w.time

-- An int64 holds the nanoseconds of every time, which is so from 1678 to 2262.
abbrev pub IsTimed : List (Option WeightedTime) → Type 0
IsTimed = All RealTime

-- No entry comes before one that stands ahead of it.
abbrev pub IsSorted : List (Option WeightedTime) → Type 0
IsSorted [] = Unit
IsSorted (o ∷ rest) = All (λ later. less later o ≡ false) rest × IsSorted rest

weight_of-perm :
    (p : ℤ → Bool) {l l' : List (Option WeightedTime)} → Permᴰ l l' → weight_of p l ≡ weight_of p l'
unfolding weight_of
weight_of-perm p Permᴰ.nil = refl
weight_of-perm p (Permᴰ.cons e q) = ap₂ (λ o n. entry_weight p o + n) e (weight_of-perm p q)
weight_of-perm p (Permᴰ.swap {a = v} {b = w} {l = l} e f) = rw (← e, ← f) (omega arith)
weight_of-perm p (Permᴰ.trans q r) = weight_of-perm p q ∙ weight_of-perm p r

All-perm :
    (P : Option WeightedTime → Type 0) {l l' : List (Option WeightedTime)}
    → Permᴰ l l'
    → All P l'
    → All P l
All-perm P Permᴰ.nil h = tt
All-perm P (Permᴰ.cons e q) h = (subst P (sym e) h.0, All-perm P q h.1)
All-perm P (Permᴰ.swap e f) h = (subst P (sym e) h.1.0, (subst P (sym f) h.0, h.1.1))
All-perm P (Permᴰ.trans q r) h = All-perm P q (All-perm P r h)

-- Times that are all at least b.
abbrev IsFrom : ℤ → List (Option WeightedTime) → Type 0
IsFrom b = All λ o. elim o [ none ↦ Unit {0} | some w ↦ b ≤ℤ w.time ]

IsFrom-less :
    (w : WeightedTime) (l : List (Option WeightedTime))
    → int64 w.time ≡ w.time
    → IsTimed l
    → All (λ later. less later (some w) ≡ false) l
    → IsFrom w.time l
IsFrom-less w [] e timed h = tt
IsFrom-less w (none ∷ rest) e timed h = (tt, IsFrom-less w rest e timed.1 h.1)
IsFrom-less w (some v ∷ rest) e timed h =
    let late : ltb_ℤ v.time w.time ≡ false = ap₂ ltb_ℤ (sym timed.0) (sym e) ∙ h.0 in
    (ground (arith, late), IsFrom-less w rest e timed.1 h.1)

nothing_before : (t : ℤ) (l : List (Option WeightedTime)) → IsFrom t l → before t l ≡ 0
unfolding weight_of
nothing_before t [] h = refl
nothing_before t (none ∷ rest) h = omega (arith, nothing_before t rest h.1)
nothing_before t (some v ∷ rest) h = ground (arith, h.0, nothing_before t rest h.1)

weight_is : (w : WeightedTime) → leb_ℤ (pos 0) w.weight ≡ true → w.weight ≡ pos (pos_part w.weight)
weight_is w h = ground arith

rest_of : (m n : ℕ) → n ≤ m → m < 9223372036854775808 → int64 (pos m -ℤ pos n) ≡ pos (m - n)
unfolding ◌-ℤ◌
rest_of m n le fits =
    let exact : (pos m -ℤ pos n) ≡ pos (m - n) = ground arith in
    ap int64 exact ∙ int64_pos (m - n) (omega arith)

-- The two ways of a turn of the loop.
hit :
    (m : ℕ) (w : WeightedTime) (rest : List (Option WeightedTime))
    → leb_ℤ (pos 0) w.weight ≡ true
    → m ≤ pos_part w.weight
    → median_loop (pos m) (some w ∷ rest) ≡ w.time
unfolding median_loop
hit m w rest real le = let passes : leb_ℤ (pos m) w.weight ≡ true = ground arith in rw passes

miss :
    (m : ℕ) (w : WeightedTime) (rest : List (Option WeightedTime))
    → leb_ℤ (pos 0) w.weight ≡ true
    → pos_part w.weight < m
    → m < 9223372036854775808
    → median_loop (pos m) (some w ∷ rest) ≡ median_loop (pos (m - pos_part w.weight)) rest
unfolding median_loop
miss m w rest real lt fits =
    let fails : leb_ℤ (pos m) w.weight ≡ false = ground arith in
    rw fails (
      ap (λ x. median_loop x rest)
        (ap (λ x. int64 (pos m -ℤ x)) (weight_is w real)
          ∙ rest_of m (pos_part w.weight) (omega arith) fits))

-- A median that the weights reach is the time of an entry.
loop_from :
    (b : ℤ) (m : ℕ) (l : List (Option WeightedTime))
    → IsWeighed l
    → IsFrom b l
    → 0 < m
    → m ≤ whole l
    → m < 9223372036854775808
    → b ≤ℤ median_loop (pos m) l
unfolding weight_of median_loop
loop_from b m [] real from some_left le fits = absurd (omega arith)
loop_from b m (none ∷ rest) real from some_left le fits =
    loop_from b m rest real.1 from.1 some_left (omega arith) fits
loop_from b m (some w ∷ rest) real from some_left le fits = elim (dec_le m (pos_part w.weight)) [
  | yes reached ↦ subst (λ t. b ≤ℤ t) (sym (hit m w rest real.0 reached)) from.0
  | no p ↦
      subst (λ t. b ≤ℤ t) (sym (miss m w rest real.0 (omega arith) fits))
        (loop_from b (m - pos_part w.weight) rest real.1 from.1 (omega arith) (omega arith)
          (omega arith))
]

-- One more entry: nil, the median itself, or one before it.
IsMedian-none :
    (m : ℕ) (t : ℤ) (rest : List (Option WeightedTime))
    → IsMedian rest m t
    → IsMedian (none ∷ rest) m t
unfolding weight_of
IsMedian-none m t rest (reach, left) = (omega arith, omega arith)

IsMedian-first :
    (m : ℕ) (w : WeightedTime) (rest : List (Option WeightedTime))
    → m ≤ pos_part w.weight
    → IsFrom w.time rest
    → IsMedian (some w ∷ rest) m w.time
unfolding weight_of
IsMedian-first m w rest le from = (ground arith, ground (arith, nothing_before w.time rest from))

IsMedian-later :
    (m : ℕ) (t : ℤ) (w : WeightedTime) (rest : List (Option WeightedTime))
    → pos_part w.weight < m
    → w.time ≤ℤ t
    → IsMedian rest (m - pos_part w.weight) t
    → IsMedian (some w ∷ rest) m t
unfolding weight_of
IsMedian-later m t w rest lt le (reach, left) = (ground arith, ground arith)

loop-IsMedian :
    (m : ℕ) (l : List (Option WeightedTime))
    → IsWeighed l
    → IsTimed l
    → IsSorted l
    → m ≤ whole l
    → m < 9223372036854775808
    → IsMedian l m (median_loop (pos m) l)
unfolding weight_of median_loop
loop-IsMedian m [] real timed sorted le fits = (omega arith, omega arith)
loop-IsMedian m (none ∷ rest) real timed sorted le fits =
    IsMedian-none m _ rest (loop-IsMedian m rest real.1 timed.1 sorted.1 (omega arith) fits)
loop-IsMedian m (some w ∷ rest) real timed sorted le fits = elim (dec_le m (pos_part w.weight)) [
  | yes reached ↦
      subst (IsMedian (some w ∷ rest) m) (sym (hit m w rest real.0 reached))
        (IsMedian-first m w rest reached (IsFrom-less w rest timed.0 timed.1 sorted.0))
  | no p ↦
      let n = m - pos_part w.weight in
      let from = IsFrom-less w rest timed.0 timed.1 sorted.0 in
      let later : w.time ≤ℤ median_loop (pos n) rest =
        loop_from w.time n rest real.1 from (omega arith) (omega arith) (omega arith) in
      let found = loop-IsMedian n rest real.1 timed.1 sorted.1 (omega arith) (omega arith) in
      subst (IsMedian (some w ∷ rest) m) (sym (miss m w rest real.0 (omega arith) fits))
        (IsMedian-later m (median_loop (pos n) rest) w rest (omega arith) later found)
]

-- For any sort, stable or not, that returns its input in an order in which no entry comes before one
-- that stands ahead of it, `WeightedMedian` of times with weights that are not negative, at least
-- half of the total together, is the weighted median of its input: the times up to it weigh at least
-- half of the total, rounded down, and those before it weigh less, or nothing if that half is 0. 64
-- bits hold the total, and the nanoseconds since 1970 of every time.
pub weighted_median-IsMedian :
    (sort : Sort) (l : List (Option WeightedTime)) (total : ℕ)
    → Perm (sort less l) l
    → IsSorted (sort less l)
    → IsWeighed l
    → IsTimed l
    → total / 2 ≤ whole l
    → total < 9223372036854775808
    → IsMedian l (total / 2) (weighted_median sort l (pos total)).1
unfolding weighted_median quot_ℤ
weighted_median-IsMedian sort l total perm sorted real timed le fits =
    let sorted_l = sort less l in
    let t = median_loop (pos (total / 2)) sorted_l in
    let same = λ (p : ℤ → Bool). ∥∥₁_elim perm (ℕ_set _ _) (λ q. weight_of-perm p q) in
    let found : IsMedian sorted_l (total / 2) t = ∥∥₁_elim perm (hlevel le_prop) λ q.
      loop-IsMedian (total / 2) sorted_l (All-perm RealWeight q real) (All-perm RealTime q timed)
        sorted (omega (arith, same (λ s. true))) (omega arith) in
    (omega (arith, found.0, same (λ s. leb_ℤ s t)), omega (arith, found.1, same (λ s. ltb_ℤ s t)))
