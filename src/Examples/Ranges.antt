-- ===== src/Examples/Ranges.antt =====
-- The theorems of the ranges and their sets, at concrete ranges.
use mikrolb.Common.{
  ℕ, suc, ◌+◌, ◌-◌, ◌^◌, ◌<◌, ◌≤◌, ◌≡◌, ◌↔◌, ◌⊎◌, inl, inr, true, false, refl, some, List, [], ◌∷◌,
  ◌++◌, map, ok, err, arith, All,
}
use mikrolb.Net.{v4, ipv4, ipv6, value}
use mikrolb.Net.Order.{addr_of}
use mikrolb.IpRange.{IpRange, cidr_too_small, contains, count}
use mikrolb.IpRange.Bounds.{IsRange, contains_last}
use mikrolb.IpRange.Iter.{iter}
use mikrolb.IpRange.Iter.Cycle.{seq, offset, iter_cycle}
use mikrolb.IpRange.Parse.{cidr_range}
use mikrolb.IpRange.Prefix.{base_of, host_bits, cidr_range-all, cidr_range-inner}
use mikrolb.IpRange.Accepted.{IsWellFormed}
use mikrolb.IpRangeSet.{
  merge, subtract, intersection, IpRangeSet, merge_set, subtract_set, of_family,
}
use mikrolb.IpRangeSet.Normal.{In, IsNormal}
use mikrolb.IpRangeSet.Methods.{IsNormalSet, Holds, merge_set-Holds, subtract_set-Holds}
use mikrolb.IpRangeSet.Merge.{merge-IsNormal, merge-In}
use mikrolb.IpRangeSet.Subtract.{subtract-In, subtract_excess}
use mikrolb.IpRangeSet.Subtract.Excess.{Touches}
use mikrolb.IpRangeSet.Intersect.{intersection-In}
use mikrolb.Examples.{range, small_range}

contains_last_example : contains (record { start = v4 5; end = v4 4294967295 }) (v4 6) ≡ false
contains_last_example =
    contains_last ipv4 (record { start = v4 5; end = v4 4294967295 }) (v4 6)
      (record { start_of = omega arith; end_of = omega arith; ordered = omega arith }) (omega arith)
      refl

iter_cycle_example :
    iter (range 3 7) 12
    ≡ some (
        map (addr_of ipv4) (
          seq (3 + offset (range 3 7) 12) (count (range 3 7) - offset (range 3 7) 12)
          ++ seq 3 (offset (range 3 7) 12)))
iter_cycle_example =
    iter_cycle ipv4 (range 3 7) 12 (small_range 3 7 (omega arith) (omega arith) (omega arith))

cidr_range-all_example :
    (r : IpRange) × (cidr_range (v4 13) 29 false ≡ ok r)
    × IsRange ipv4 r
    × (value r.start ≡ base_of ipv4 (v4 13) 29)
    × (suc (value r.end) ≡ base_of ipv4 (v4 13) 29 + 2 ^ host_bits ipv4 29)
cidr_range-all_example = cidr_range-all ipv4 (v4 13) 29 (omega arith) (omega arith)

cidr_range-inner_example :
    ((2 ≤ host_bits ipv4 29)
      × (r : IpRange) × (cidr_range (v4 13) 29 true ≡ ok r)
      × IsRange ipv4 r
      × (value r.start ≡ base_of ipv4 (v4 13) 29 + 1)
      × (suc (suc (value r.end)) ≡ base_of ipv4 (v4 13) 29 + 2 ^ host_bits ipv4 29))
    ⊎ ((host_bits ipv4 29 < 2) × (cidr_range (v4 13) 29 true ≡ err cidr_too_small))
cidr_range-inner_example = cidr_range-inner ipv4 (v4 13) 29 (omega arith) (omega arith)

abbrev unsorted : List IpRange
unsorted = range 8 9 ∷ range 1 3 ∷ range 4 5 ∷ []

unsorted-AllRanges : All (IsRange ipv4) unsorted
unsorted-AllRanges = (
  small_range 8 9 (omega arith) (omega arith) (omega arith),
  (
    small_range 1 3 (omega arith) (omega arith) (omega arith),
    (small_range 4 5 (omega arith) (omega arith) (omega arith), tt),
  ),
)

merge-In_example : In 4 (merge unsorted) ↔ In 4 unsorted
merge-In_example = merge-In ipv4 unsorted unsorted-AllRanges 4

merge-IsNormal_example : IsNormal ipv4 (merge unsorted)
merge-IsNormal_example = merge-IsNormal ipv4 unsorted unsorted-AllRanges

abbrev base : List IpRange
base = range 1 9 ∷ range 20 30 ∷ []

abbrev out : List IpRange
out = range 3 5 ∷ []

base-IsNormal : IsNormal ipv4 base
base-IsNormal = (
  small_range 1 9 (omega arith) (omega arith) (omega arith),
  omega arith,
  (small_range 20 30 (omega arith) (omega arith) (omega arith), omega arith, tt),
)

out-IsNormal : IsNormal ipv4 out
out-IsNormal = (small_range 3 5 (omega arith) (omega arith) (omega arith), omega arith, tt)

base-out-Touches : Touches base out
base-out-Touches e m (inl ends) i lt = inl (inl (omega (arith, ends)))
base-out-Touches e m (inr none_other) i lt = absurd none_other

subtract-In_example : In 7 (subtract base out) ↔ (In 7 base × (¬ In 7 out))
subtract-In_example = subtract-In ipv4 base out 7 base-IsNormal out-IsNormal base-out-Touches

-- The base starts above what is excluded.
abbrev high : List IpRange
high = range 10 20 ∷ []

high-IsNormal : IsNormal ipv4 high
high-IsNormal = (small_range 10 20 (omega arith) (omega arith) (omega arith), omega arith, tt)

below_high : (k : ℕ) → k < 10 → ¬ In k high
below_high k lt (inl i) = omega arith
below_high k lt (inr x) = x

subtract_excess_example : In 6 (subtract high out) × (¬ In 6 high)
subtract_excess_example =
    subtract_excess ipv4 high out 5 12 high-IsNormal out-IsNormal (inl refl)
      (inl (omega arith, omega arith)) (omega arith) (below_high 5 (omega arith))
      (below_high 6 (omega arith))

intersection-In_example :
    IsNormal ipv4 (intersection base out)
    × ((k : ℕ) → In k (intersection base out) ↔ (In k base × In k out))
intersection-In_example = intersection-In ipv4 base out base-IsNormal out-IsNormal

abbrev base_set : IpRangeSet
base_set = record { ranges4 = base; ranges6 = [] }

base_set-IsNormalSet : IsNormalSet base_set
base_set-IsNormalSet = record { normal4 = base-IsNormal; normal6 = tt }

out-IsWellFormed : All IsWellFormed out
out-IsWellFormed = (small_range 3 5 (omega arith) (omega arith) (omega arith), tt)

merge_set-Holds_example :
    IsNormalSet (merge_set base_set out)
    × ((k : ℕ)
        → Holds (merge_set base_set out) ipv4 k
          ↔ (Holds base_set ipv4 k ⊎ In k (of_family ipv4 out)))
    × ((k : ℕ)
        → Holds (merge_set base_set out) ipv6 k
          ↔ (Holds base_set ipv6 k ⊎ In k (of_family ipv6 out)))
merge_set-Holds_example = merge_set-Holds base_set out base_set-IsNormalSet out-IsWellFormed

subtract_set-Holds_example :
    IsNormalSet (subtract_set base_set out)
    × ((k : ℕ) → Holds (subtract_set base_set out) ipv4 k → ¬ In k (of_family ipv4 out))
    × ((k : ℕ)
        → Holds base_set ipv4 k
        → ¬ In k (of_family ipv4 out)
        → Holds (subtract_set base_set out) ipv4 k)
    × ((k : ℕ) → Holds (subtract_set base_set out) ipv6 k → ¬ In k (of_family ipv6 out))
    × ((k : ℕ)
        → Holds base_set ipv6 k
        → ¬ In k (of_family ipv6 out)
        → Holds (subtract_set base_set out) ipv6 k)
subtract_set-Holds_example = subtract_set-Holds base_set out base_set-IsNormalSet out-IsWellFormed
