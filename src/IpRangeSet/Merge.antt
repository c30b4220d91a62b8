-- ===== src/IpRangeSet/Merge.antt =====
-- `merge` of internal/core/ip_range_set.go: the sorting, and the loop.
use mikrolb.Common.{
  ℕ, suc, ◌≤◌, ◌≡◌, refl, ◌⊎◌, inl, inr, ◌↔◌, ◌||◌, leb, List, [], ◌∷◌, if◌then◌else◌, arith,
  Bool-cases, dec_lt, max, subst, ap, ◌∙◌,
}
use mikrolb.Net.{IpFamily, value, less, at_most, addr_eq, next_addr}
use mikrolb.Net.Order.{
  space, less-value, at_most-value, addr_eq-value, next_addr_lem, value-lt-space,
}
use mikrolb.IpRange.{IpRange}
use mikrolb.IpRange.Bounds.{IsRange, IsIn}
use mikrolb.IpRangeSet.{insert_by_start, sort_by_start, merge_loop, merge_sorted, merge}
use mikrolb.IpRangeSet.Normal.{In, AllRanges, IsSortedFrom, IsNormalFrom, IsNormal, IsNormalFrom-le}

insert_by_start-AllRanges :
    (f : IpFamily) (r : IpRange) (rs : List IpRange)
    → IsRange f r
    → AllRanges f rs
    → AllRanges f (insert_by_start r rs)
unfolding insert_by_start
insert_by_start-AllRanges f r [] h hs = (h, tt)
insert_by_start-AllRanges f r (s ∷ rs) h hs =
    ground (arith, insert_by_start-AllRanges f r rs h hs.1)

insert_by_start-In :
    (k : ℕ) (r : IpRange) (rs : List IpRange) → In k (insert_by_start r rs) ↔ In k (r ∷ rs)
unfolding insert_by_start
insert_by_start-In k r [] = (λ h. h, λ h. h)
insert_by_start-In k r (s ∷ rs) =
    let (to, from) = insert_by_start-In k r rs in
    (λ h. ground (arith, to), λ h. ground (arith, from))

insert_by_start-IsSortedFrom :
    (f : IpFamily) (b : ℕ) (r : IpRange) (rs : List IpRange)
    → IsRange f r
    → AllRanges f rs
    → b ≤ value r.start
    → IsSortedFrom b rs
    → IsSortedFrom b (insert_by_start r rs)
unfolding insert_by_start
insert_by_start-IsSortedFrom f b r [] h hs le s = (le, tt)
insert_by_start-IsSortedFrom f b r (s ∷ rs) h hs le sorted = ground (
  arith,
  less-value f s.start r.start hs.0.start_of h.start_of,
  insert_by_start-IsSortedFrom f (value s.start) r rs h hs.1,
)

sort_by_start-AllRanges :
    (f : IpFamily) (rs : List IpRange) → AllRanges f rs → AllRanges f (sort_by_start rs)
unfolding sort_by_start
sort_by_start-AllRanges f [] h = tt
sort_by_start-AllRanges f (r ∷ rs) h =
    insert_by_start-AllRanges f r (sort_by_start rs) h.0 (sort_by_start-AllRanges f rs h.1)

sort_by_start-In : (k : ℕ) (rs : List IpRange) → In k (sort_by_start rs) ↔ In k rs
unfolding sort_by_start
sort_by_start-In k [] = (λ h. h, λ h. h)
sort_by_start-In k (r ∷ rs) =
    let (to, from) = insert_by_start-In k r (sort_by_start rs) in
    let (to_rest, from_rest) = sort_by_start-In k rs in
    (
      λ h. elim (to h) [ inl a ↦ inl a | inr b ↦ inr (to_rest b) ],
      λ h. from (elim h [ inl a ↦ inl a | inr b ↦ inr (from_rest b) ]),
    )

sort_by_start-IsSorted :
    (f : IpFamily) (rs : List IpRange) → AllRanges f rs → IsSortedFrom 0 (sort_by_start rs)
unfolding sort_by_start
sort_by_start-IsSorted f [] h = tt
sort_by_start-IsSorted f (r ∷ rs) h =
    insert_by_start-IsSortedFrom f 0 r (sort_by_start rs) h.0 (sort_by_start-AllRanges f rs h.1)
      (omega arith) (sort_by_start-IsSorted f rs h.1)

-- The test of the loop: the next range starts at most one behind the current end.
joins :
    (f : IpFamily) (current next : IpRange)
    → IsRange f current
    → IsRange f next
    → at_most next.start current.end || addr_eq next.start (next_addr current.end)
      ≡ leb (value next.start) (suc (value current.end))
joins f current next h g = elim (dec_lt (suc (value current.end)) (space f)) [
  | yes inside ↦
      let (of, at) = next_addr_lem f current.end h.end_of inside in
      rw
        (
          at_most-value f next.start current.end g.start_of h.end_of,
          addr_eq-value f next.start (next_addr current.end) g.start_of of,
          at,
        )
        (ground arith)
  | no last ↦ rw (at_most-value f next.start current.end g.start_of h.end_of) (
      ground (arith, value-lt-space f next.start g.start_of, value-lt-space f current.end h.end_of))
]

-- The current range, extended to the next one's end if that lies further.
abbrev extended : IpRange → IpRange → IpRange
extended current next =
    if less current.end next.end then record current { end = next.end } else current

extended_lem :
    (f : IpFamily) (current next : IpRange)
    → IsRange f current
    → IsRange f next
    → IsRange f (extended current next)
      × ((extended current next).start ≡ current.start)
      × (value (extended current next).end ≡ max (value current.end) (value next.end))
extended_lem f current next h g = elim (Bool-cases (less current.end next.end)) [
  | inl longer ↦ rw longer (
    record {
      start_of = h.start_of;
      end_of = g.end_of;
      ordered = ground (arith, h.ordered, less-value f current.end next.end h.end_of g.end_of);
    },
    refl,
    ground (arith, less-value f current.end next.end h.end_of g.end_of),
  )
  | inr covered ↦
      rw covered (h, refl, ground (arith, less-value f current.end next.end h.end_of g.end_of))
]

IsSortedFrom-le : (a b : ℕ) (rs : List IpRange) → a ≤ b → IsSortedFrom b rs → IsSortedFrom a rs
IsSortedFrom-le a b [] h s = tt
IsSortedFrom-le a b (r ∷ rs) h s = (omega arith, s.1)

merge_loop-IsNormal :
    (f : IpFamily) (current : IpRange) (rs : List IpRange)
    → IsRange f current
    → AllRanges f rs
    → IsSortedFrom (value current.start) rs
    → IsNormalFrom f (value current.start) (merge_loop current rs)
unfolding merge_loop
merge_loop-IsNormal f current [] h hs sorted = (h, omega arith, tt)
merge_loop-IsNormal f current (next ∷ rs) h hs sorted =
    elim (Bool-cases (leb (value next.start) (suc (value current.end)))) [
      | inl join ↦
          let (is_range, start, end) = extended_lem f current next h hs.0 in
          rw (joins f current next h hs.0 ∙ join, merge_loop)
            (subst (λ s. IsNormalFrom f s (merge_loop (extended current next) rs)) (ap value start)
              (merge_loop-IsNormal f (extended current next) rs is_range hs.1
                (IsSortedFrom-le _ (value next.start) rs (rw start (sorted.0)) sorted.1)))
      | inr apart ↦
          rw (joins f current next h hs.0 ∙ apart, merge_loop)
            (
              h,
              omega arith,
              IsNormalFrom-le f _ (value next.start) (merge_loop next rs) (ground arith)
                  (merge_loop-IsNormal f next rs hs.0 hs.1 sorted.1),
            )
    ]

-- If the two meet, the extended range holds what they hold.
extended-IsIn :
    (f : IpFamily) (k : ℕ) (current next : IpRange)
    → IsRange f current
    → IsRange f next
    → value current.start ≤ value next.start
    → value next.start ≤ suc (value current.end)
    → IsIn k (extended current next) ↔ (IsIn k current ⊎ IsIn k next)
extended-IsIn f k current next h g after meet =
    let (is_range, start, end) = extended_lem f current next h g in
    rw (ap value start, end) (λ a. ground arith, λ a. ground (arith, h.ordered, g.ordered))

merge_loop-In :
    (f : IpFamily) (k : ℕ) (current : IpRange) (rs : List IpRange)
    → IsRange f current
    → AllRanges f rs
    → IsSortedFrom (value current.start) rs
    → In k (merge_loop current rs) ↔ (IsIn k current ⊎ In k rs)
unfolding merge_loop
merge_loop-In f k current [] h hs sorted = (λ h. h, λ h. h)
merge_loop-In f k current (next ∷ rs) h hs sorted =
    elim (Bool-cases (leb (value next.start) (suc (value current.end)))) [
      | inl join ↦
          let (is_range, start, end) = extended_lem f current next h hs.0 in
          let (to, from) =
            merge_loop-In f k (extended current next) rs is_range hs.1
              (IsSortedFrom-le _ (value next.start) rs (rw start (sorted.0)) sorted.1) in
          let both = extended-IsIn f k current next h hs.0 sorted.0 (ground arith) in
          rw (joins f current next h hs.0 ∙ join, merge_loop)
            (
              λ m. elim (to m) [
                | inl a ↦ elim (both.0 a) [ inl b ↦ inl b | inr b ↦ inr (inl b) ]
                | inr c ↦ inr (inr c)
              ],
              λ m. from (elim m [
                | inl a ↦ inl (both.1 (inl a))
                | inr b ↦ elim b [ inl c ↦ inl (both.1 (inr c)) | inr c ↦ inr c ]
              ]),
            )
      | inr apart ↦
          let (to, from) = merge_loop-In f k next rs hs.0 hs.1 sorted.1 in
          rw (joins f current next h hs.0 ∙ apart, merge_loop)
            (
              λ m. elim m [ inl a ↦ inl a | inr b ↦ inr (to b) ],
              λ m. elim m [ inl a ↦ inl a | inr b ↦ inr (from b) ],
            )
    ]

merge_sorted_lem :
    (f : IpFamily) (rs : List IpRange)
    → AllRanges f rs
    → IsSortedFrom 0 rs
    → IsNormal f (merge_sorted rs) × ((k : ℕ) → In k (merge_sorted rs) ↔ In k rs)
unfolding merge_sorted
merge_sorted_lem f [] h s = (tt, λ k. (λ m. m, λ m. m))
merge_sorted_lem f (r ∷ rs) h s = (
  IsNormalFrom-le f 0 (value r.start) (merge_loop r rs) (omega arith)
      (merge_loop-IsNormal f r rs h.0 h.1 s.1),
  λ k. merge_loop-In f k r rs h.0 h.1 s.1,
)

module _ (f : IpFamily) (rs : List IpRange) (h : AllRanges f rs) where
  -- Merging ranges of one family, in any order, gives ascending ranges with a gap before each.
  pub merge-IsNormal : IsNormal f (merge rs)
  unfolding merge
  merge-IsNormal =
      (merge_sorted_lem f (sort_by_start rs) (sort_by_start-AllRanges f rs h)
        (sort_by_start-IsSorted f rs h)).0

  -- Merging ranges of one family, in any order, gives ranges that hold exactly the values that
  -- the given ones hold.
  pub merge-In : (k : ℕ) → In k (merge rs) ↔ In k rs
  unfolding merge
  merge-In k =
      let (to, from) =
        (merge_sorted_lem f (sort_by_start rs) (sort_by_start-AllRanges f rs h)
            (sort_by_start-IsSorted f rs h)).1
          k in
      let (sorted_to, sorted_from) = sort_by_start-In k rs in
      (λ m. sorted_to (to m), λ m. from (sorted_from m))
