-- ===== src/IpRangeSet.antt =====
-- `IPRangeSet` of internal/core/ip_range_set.go: its fields, the three loops on sorted lists of
-- ranges, and its methods.
pub mod Normal
pub mod Merge
pub mod Subtract
pub mod Intersect
pub mod Methods
pub mod Print
pub mod Printed
use mikrolb.Common.{
  ℕ, ◌+◌, Bool, true, false, ◌||◌, ◌==◌, Ordering, ltb, List, [], ◌∷◌, ◌++◌, length, if◌then◌else◌,
}
use mikrolb.Net.{
  Addr, IpFamily, ipv4, ipv6, unknown, family_eq, get_ip_family, compare_addr, less, at_most,
  addr_eq, next_addr, prev_addr,
}
use mikrolb.IpRange.{IpRange, ip_family, contains, count}

pub record IpRangeSet : Type 0 where
  pub ranges4 : List IpRange
  pub ranges6 : List IpRange

-- `slices.SortFunc` by the start. The order that it leaves among equal starts is not specified;
-- here the order is kept.
unfoldable pub insert_by_start : IpRange → List IpRange → List IpRange
insert_by_start r [] = r ∷ []
insert_by_start r (s ∷ rs) = if less s.start r.start then s ∷ insert_by_start r rs else r ∷ s ∷ rs

unfoldable pub sort_by_start : List IpRange → List IpRange
unfolding insert_by_start
sort_by_start [] = []
sort_by_start (r ∷ rs) = insert_by_start r (sort_by_start rs)

-- The loop of `merge`: `current`, and `rs[i:]`. What it appends to `merged` stands in front.
unfoldable pub merge_loop : IpRange → List IpRange → List IpRange
merge_loop current [] = current ∷ []
merge_loop current (next ∷ rs) =
    elim (at_most next.start current.end || addr_eq next.start (next_addr current.end)) [
      | true ↦
          merge_loop
            (if less current.end next.end then record current { end = next.end } else current) rs
      | false ↦ current ∷ merge_loop next rs
    ]

unfoldable pub merge_sorted : List IpRange → List IpRange
unfolding merge_loop
merge_sorted [] = []
merge_sorted (r ∷ rs) = merge_loop r rs

unfoldable pub merge : List IpRange → List IpRange
unfolding sort_by_start merge_sorted
merge rs = merge_sorted (sort_by_start rs)

-- What a round of `subtract` appends to `final`.
unfoldable pub kept_before : IpRange → IpRange → List IpRange
kept_before current sub =
    if less current.end sub.start
    then current ∷ []
    else if less current.start sub.start
    then record { start = current.start; end = prev_addr sub.start } ∷ []
    else []

-- The loop of `subtract`: `current`, `rs1[i+1:]` and `rs2[j:]`. The tests
-- `sub.end.Compare(current.end) <= 0` and `current.end.Compare(sub.end) <= 0`, which advance `j` and
-- `i`, are the three outcomes of one comparison.
unfoldable pub subtract_loop : IpRange → List IpRange → List IpRange → List IpRange
unfolding kept_before
subtract_loop current rs1 [] = current ∷ rs1
subtract_loop current [] (sub ∷ rs2) =
    kept_before current sub ++ elim (compare_addr sub.end current.end) [
      | Ordering.lt ↦ subtract_loop (record current { start = next_addr sub.end }) [] rs2
      | Ordering.eq ↦ []
      | Ordering.gt ↦ []
    ]
subtract_loop current (r ∷ rs1) (sub ∷ rs2) =
    kept_before current sub ++ elim (compare_addr sub.end current.end) [
      | Ordering.lt ↦ subtract_loop (record current { start = next_addr sub.end }) (r ∷ rs1) rs2
      | Ordering.eq ↦ subtract_loop r rs1 rs2
      | Ordering.gt ↦ subtract_loop r rs1 (sub ∷ rs2)
    ]

unfoldable pub subtract : List IpRange → List IpRange → List IpRange
unfolding subtract_loop
subtract [] rs2 = []
subtract (r ∷ rs1) rs2 = subtract_loop r rs1 rs2

-- The common part of two ranges that overlap.
unfoldable pub common : IpRange → IpRange → IpRange
common r1 r2 = record {
  start = if less r1.start r2.start then r2.start else r1.start;
  end = if less r2.end r1.end then r2.end else r1.end;
}

-- The loop of `intersection`: `rs1[i:]` and `rs2[j:]`.
unfoldable pub intersection : List IpRange → List IpRange → List IpRange
unfolding common
intersection [] rs2 = []
intersection (r1 ∷ rs1) [] = []
intersection (r1 ∷ rs1) (r2 ∷ rs2) = elim (less r1.end r2.start) [
  | true ↦ intersection rs1 (r2 ∷ rs2)
  | false ↦ elim (less r2.end r1.start) [
    | true ↦ intersection (r1 ∷ rs1) rs2
    | false ↦
        (if at_most (common r1 r2).start (common r1 r2).end then common r1 r2 ∷ [] else [])
        ++ elim (at_most r1.end r2.end) [
          | true ↦ intersection rs1 (r2 ∷ rs2)
          | false ↦ intersection (r1 ∷ rs1) rs2
        ]
  ]
]

-- The ranges of a family, in order, as the `switch` in `Merge` and `Subtract` collects them.
unfoldable pub of_family : IpFamily → List IpRange → List IpRange
of_family f [] = []
of_family f (r ∷ rs) = if family_eq (ip_family r) f then r ∷ of_family f rs else of_family f rs

unfoldable pub empty_set : IpRangeSet
empty_set = record { ranges4 = []; ranges6 = [] }

-- The methods `Merge` and `Subtract`; with no arguments they return at once.
unfoldable pub merge_set : IpRangeSet → List IpRange → IpRangeSet
unfolding of_family
merge_set s [] = s
merge_set s (r ∷ rs) = record {
  ranges4 = merge (s.ranges4 ++ of_family ipv4 (r ∷ rs));
  ranges6 = merge (s.ranges6 ++ of_family ipv6 (r ∷ rs));
}

unfoldable pub subtract_set : IpRangeSet → List IpRange → IpRangeSet
unfolding of_family
subtract_set s [] = s
subtract_set s (r ∷ rs) = record {
  ranges4 = subtract s.ranges4 (merge (of_family ipv4 (r ∷ rs)));
  ranges6 = subtract s.ranges6 (merge (of_family ipv6 (r ∷ rs)));
}

unfoldable pub new_ip_range_set : List IpRange → IpRangeSet
unfolding merge_set empty_set
new_ip_range_set rs = merge_set empty_set rs

unfoldable pub intersections : IpRangeSet → IpRangeSet → IpRangeSet
intersections s rs = record {
  ranges4 = intersection s.ranges4 rs.ranges4;
  ranges6 = intersection s.ranges6 rs.ranges6;
}

unfoldable pub ranges : IpRangeSet → List IpRange
ranges s = s.ranges4 ++ s.ranges6

abbrev pub ranges_for_family : IpRangeSet → IpFamily → List IpRange
ranges_for_family s ipv4 = s.ranges4
ranges_for_family s ipv6 = s.ranges6
ranges_for_family s unknown = []

unfoldable pub has_ranges_of_family : IpRangeSet → IpFamily → Bool
has_ranges_of_family s f = ltb 0 (length (ranges_for_family s f))

unfoldable pub count_ranges : List IpRange → ℕ
count_ranges [] = 0
count_ranges (r ∷ rs) = count r + count_ranges rs

unfoldable pub count_set : IpRangeSet → IpFamily → ℕ
unfolding count_ranges
count_set s f = count_ranges (ranges_for_family s f)

unfoldable pub any_contains : List IpRange → Addr → Bool
any_contains [] ip = false
any_contains (r ∷ rs) ip = contains r ip || any_contains rs ip

unfoldable pub contains_set : IpRangeSet → Addr → Bool
unfolding any_contains
contains_set s ip = any_contains (ranges_for_family s (get_ip_family ip)) ip
