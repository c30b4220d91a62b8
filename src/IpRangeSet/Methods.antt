-- ===== src/IpRangeSet/Methods.antt =====
-- The methods of `IPRangeSet` (internal/core/ip_range_set.go), by what a set holds.
use mikrolb.Common.{
  ℕ, suc, ◌<◌, ◌≡◌, refl, ◌↔◌, ◌⊎◌, inl, inr, true, List, [], ◌∷◌, ◌++◌, All, arith, Bool-cases,
  subst,
}
use mikrolb.Net.{Addr, IpFamily, ipv4, ipv6, unknown, value, family_eq}
use mikrolb.Net.Order.{IsOf, space, get_ip_family-IsOf}
use mikrolb.IpRange.{IpRange, ip_family, contains}
use mikrolb.IpRange.Bounds.{IsRange, contains-IsIn}
use mikrolb.IpRange.Accepted.{IsWellFormed}
use mikrolb.IpRangeSet.{
  IpRangeSet, of_family, merge, subtract, intersection, merge_set, subtract_set, empty_set,
  intersections, ranges_for_family, any_contains, contains_set,
}
use mikrolb.IpRangeSet.Normal.{
  In, AllRanges, IsNormal, IsNormalFrom, In-append, In-append_left, In-append_right,
}
use mikrolb.IpRangeSet.Merge.{merge-IsNormal, merge-In}
use mikrolb.IpRangeSet.Subtract.{subtract-IsNormal, subtract_excludes_and_keeps}
use mikrolb.IpRangeSet.Intersect.{intersection-In}

-- Both lists of the set are normal.
pub record IsNormalSet (s : IpRangeSet) : Type 0 where
  pub normal4 : IsNormal ipv4 s.ranges4
  pub normal6 : IsNormal ipv6 s.ranges6

-- The set holds an address of a family.
abbrev pub Holds : IpRangeSet → IpFamily → ℕ → Type 0
Holds s f k = In k (ranges_for_family s f)

pub family_eq→≡ : (f g : IpFamily) → family_eq f g ≡ true → f ≡ g
family_eq→≡ ipv4 ipv4 h = refl
family_eq→≡ ipv6 ipv6 h = refl
family_eq→≡ unknown unknown h = refl
family_eq→≡ _ _ h = ground arith

pub of_family-AllRanges :
    (f : IpFamily) (rs : List IpRange) → All IsWellFormed rs → AllRanges f (of_family f rs)
unfolding of_family
of_family-AllRanges f [] h = tt
of_family-AllRanges f (r ∷ rs) h = elim (Bool-cases (family_eq (ip_family r) f)) [
  | inl same ↦
      rw (same, of_family)
        (
          subst (λ g. IsRange g r) (family_eq→≡ (ip_family r) f same) h.0,
          of_family-AllRanges f rs h.1,
        )
  | inr other ↦ rw (other, of_family) (of_family-AllRanges f rs h.1)
]

AllRanges-append :
    (f : IpFamily) (xs ys : List IpRange) → AllRanges f xs → AllRanges f ys → AllRanges f (xs ++ ys)
AllRanges-append f [] ys hx hy = hy
AllRanges-append f (x ∷ xs) ys hx hy = (hx.0, AllRanges-append f xs ys hx.1 hy)

IsNormalFrom-AllRanges :
    (f : IpFamily) (b : ℕ) (rs : List IpRange) → IsNormalFrom f b rs → AllRanges f rs
IsNormalFrom-AllRanges f b [] n = tt
IsNormalFrom-AllRanges f b (r ∷ rs) n =
    (n.0, IsNormalFrom-AllRanges f (suc (suc (value r.end))) rs n.2)

-- A family's list after `Merge`.
merge_family :
    (f : IpFamily) (old new : List IpRange)
    → IsNormal f old
    → All IsWellFormed new
    → IsNormal f (merge (old ++ of_family f new))
      × ((k : ℕ) → In k (merge (old ++ of_family f new)) ↔ (In k old ⊎ In k (of_family f new)))
merge_family f old new n h =
    let all =
      AllRanges-append f old (of_family f new) (IsNormalFrom-AllRanges f 0 old n)
        (of_family-AllRanges f new h) in
    (
      merge-IsNormal f (old ++ of_family f new) all,
      λ k.
          let (to, from) = merge-In f (old ++ of_family f new) all k in
          (
            λ m. In-append k old (of_family f new) (to m),
            λ m. from (elim m [
              | inl a ↦ In-append_left k old (of_family f new) a
              | inr b ↦ In-append_right k old (of_family f new) b
            ]),
          ),
    )

-- Given a normal set and well-formed ranges, `Merge` gives a normal set that holds, in each
-- family, exactly what the set and the ranges hold.
pub merge_set-Holds :
    (s : IpRangeSet) (rs : List IpRange)
    → IsNormalSet s
    → All IsWellFormed rs
    → IsNormalSet (merge_set s rs)
      × ((k : ℕ) → Holds (merge_set s rs) ipv4 k ↔ (Holds s ipv4 k ⊎ In k (of_family ipv4 rs)))
      × ((k : ℕ) → Holds (merge_set s rs) ipv6 k ↔ (Holds s ipv6 k ⊎ In k (of_family ipv6 rs)))
unfolding merge_set of_family
merge_set-Holds s [] n h = (
  n,
  λ k. (λ m. inl m, λ m. elim m [ inl a ↦ a | inr b ↦ absurd b ]),
  λ k. (λ m. inl m, λ m. elim m [ inl a ↦ a | inr b ↦ absurd b ]),
)
merge_set-Holds s (r ∷ rs) n h =
    let (normal4, in4) = merge_family ipv4 s.ranges4 (r ∷ rs) n.normal4 h in
    let (normal6, in6) = merge_family ipv6 s.ranges6 (r ∷ rs) n.normal6 h in
    (record { normal4 = normal4; normal6 = normal6 }, in4, in6)

pub empty_set-IsNormalSet : IsNormalSet empty_set
unfolding empty_set
empty_set-IsNormalSet = record { normal4 = tt; normal6 = tt }

-- A family's list after `Subtract`: nothing excluded, and everything else that was there.
subtract_family :
    (f : IpFamily) (old new : List IpRange)
    → IsNormal f old
    → All IsWellFormed new
    → IsNormal f (subtract old (merge (of_family f new)))
      × ((k : ℕ) → In k (subtract old (merge (of_family f new))) → ¬ In k (of_family f new))
      × ((k : ℕ)
          → In k old
          → ¬ In k (of_family f new)
          → In k (subtract old (merge (of_family f new))))
subtract_family f old new n h =
    let all = of_family-AllRanges f new h in
    let merged = merge-IsNormal f (of_family f new) all in
    (
      subtract-IsNormal f old (merge (of_family f new)) n merged,
      λ k m x.
          (subtract_excludes_and_keeps f old (merge (of_family f new)) k n merged).0 m
            ((merge-In f (of_family f new) all k).1 x),
      λ k m x.
          (subtract_excludes_and_keeps f old (merge (of_family f new)) k n merged).1 m
            (λ y. x ((merge-In f (of_family f new) all k).0 y)),
    )

-- Given a normal set and well-formed ranges, `Subtract` gives a normal set that holds, in each
-- family, nothing of the ranges and everything else that the set held.
pub subtract_set-Holds :
    (s : IpRangeSet) (rs : List IpRange)
    → IsNormalSet s
    → All IsWellFormed rs
    → IsNormalSet (subtract_set s rs)
      × ((k : ℕ) → Holds (subtract_set s rs) ipv4 k → ¬ In k (of_family ipv4 rs))
      × ((k : ℕ) → Holds s ipv4 k → ¬ In k (of_family ipv4 rs) → Holds (subtract_set s rs) ipv4 k)
      × ((k : ℕ) → Holds (subtract_set s rs) ipv6 k → ¬ In k (of_family ipv6 rs))
      × ((k : ℕ) → Holds s ipv6 k → ¬ In k (of_family ipv6 rs) → Holds (subtract_set s rs) ipv6 k)
unfolding subtract_set of_family
subtract_set-Holds s [] n h = (n, λ k m x. x, λ k m x. m, λ k m x. x, λ k m x. m)
subtract_set-Holds s (r ∷ rs) n h =
    let (normal4, not4, keeps4) = subtract_family ipv4 s.ranges4 (r ∷ rs) n.normal4 h in
    let (normal6, not6, keeps6) = subtract_family ipv6 s.ranges6 (r ∷ rs) n.normal6 h in
    (record { normal4 = normal4; normal6 = normal6 }, not4, keeps4, not6, keeps6)

-- No range of the list ends at the last address of the family.
abbrev pub StopsBefore : IpFamily → List IpRange → Type 0
StopsBefore f = All (λ r. suc (value r.end) < space f)

any_contains-In :
    (f : IpFamily) (rs : List IpRange) (x : Addr)
    → AllRanges f rs
    → StopsBefore f rs
    → IsOf f x
    → (any_contains rs x ≡ true) ↔ In (value x) rs
unfolding any_contains
any_contains-In f [] x h stops hx = (λ e. absurd (ground arith), λ m. absurd m)
any_contains-In f (r ∷ rs) x h stops hx =
    let (to, from) = contains-IsIn f r x h.0 hx stops.0 in
    let (to_rest, from_rest) = any_contains-In f rs x h.1 stops.1 hx in
    (
      λ e. elim (Bool-cases (contains r x)) [
        | inl here ↦ inl (to here)
        | inr miss ↦ inr (to_rest (rw miss at e))
      ],
      λ m. elim m [ inl i ↦ rw (from i) | inr j ↦ rw (from_rest j) (ground arith) ],
    )

pub set-AllRanges :
    (s : IpRangeSet) (f : IpFamily) → IsNormalSet s → AllRanges f (ranges_for_family s f)
set-AllRanges s ipv4 n = IsNormalFrom-AllRanges ipv4 0 s.ranges4 n.normal4
set-AllRanges s ipv6 n = IsNormalFrom-AllRanges ipv6 0 s.ranges6 n.normal6
set-AllRanges s unknown n = tt

-- `Contains` finds exactly the addresses that the set holds, if no range of the address's family
-- ends at the family's last address.
pub contains_set-Holds :
    (s : IpRangeSet) (f : IpFamily) (x : Addr)
    → IsNormalSet s
    → IsOf f x
    → StopsBefore f (ranges_for_family s f)
    → (contains_set s x ≡ true) ↔ Holds s f (value x)
unfolding contains_set
contains_set-Holds s f x n hx stops =
    rw (get_ip_family-IsOf f x hx)
      (any_contains-In f (ranges_for_family s f) x (set-AllRanges s f n) stops hx)

-- The intersection of two sets is normal, and holds exactly what both hold, in each family.
pub intersections-Holds :
    (s t : IpRangeSet)
    → IsNormalSet s
    → IsNormalSet t
    → IsNormalSet (intersections s t)
      × ((f : IpFamily) (k : ℕ) → Holds (intersections s t) f k ↔ (Holds s f k × Holds t f k))
unfolding intersections
intersections-Holds s t n m =
    let (normal4, in4) = intersection-In ipv4 s.ranges4 t.ranges4 n.normal4 m.normal4 in
    let (normal6, in6) = intersection-In ipv6 s.ranges6 t.ranges6 n.normal6 m.normal6 in
    (record { normal4 = normal4; normal6 = normal6 }, by_family in4 in6)
  where
    by_family :
        ((k : ℕ) → In k (intersection s.ranges4 t.ranges4) ↔ (In k s.ranges4 × In k t.ranges4))
        → ((k : ℕ) → In k (intersection s.ranges6 t.ranges6) ↔ (In k s.ranges6 × In k t.ranges6))
        → (f : IpFamily) (k : ℕ) → Holds (intersections s t) f k ↔ (Holds s f k × Holds t f k)
    by_family in4 in6 ipv4 k = in4 k
    by_family in4 in6 ipv6 k = in6 k
    by_family in4 in6 unknown k = (λ h. absurd h, λ h. absurd h.0)
