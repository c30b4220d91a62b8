-- ===== src/Pool/Admission.antt =====
-- The admission webhook (internal/controller/ip_pool_webhook.go), and the pools stored over time.
use mathlib.Core.Bool.{false≢true}
use mikrolb.Common.{
  ℕ, suc, ◌≡◌, refl, sym, ◌∙◌, ◌↔◌, ◌⊎◌, inl, inr, true, false, Option, none, some, List, [], ◌∷◌,
  ◌++◌, All, length, ltb, String, str_eq, eq_iff, Bool-cases, arith, if◌then◌else◌,
}
use mikrolb.Net.{IpFamily, ipv4, ipv6, unknown, value}
use mikrolb.Net.Text.{AddrText, IsSound}
use mikrolb.IpRange.{IpRange}
use mikrolb.IpRangeSet.{IpRangeSet, new_ip_range_set, merge_set, empty_set, intersections, ranges}
use mikrolb.IpRangeSet.Normal.{In, IsNormalFrom}
use mikrolb.IpRangeSet.Methods.{
  IsNormalSet, Holds, merge_set-Holds, subtract_set-Holds, empty_set-IsNormalSet,
  intersections-Holds,
}
use mikrolb.Pool.{
  Pool, EntryError, FieldError, admitted, collect, parse_ip_pool_addresses, pool_addresses,
  entry_errors, verdict, overlap_errors, validate,
}
use mikrolb.Pool.Addresses.{collect-Right}
use mikrolb.Pool.Entries.{IsEntry, collect-errors}

-- No address is held by both pools.
abbrev pub AreDisjoint : AddrText → Pool → Pool → Type 0
AreDisjoint net p q =
    (f : IpFamily) (k : ℕ) → Holds (pool_addresses net p) f k → ¬ Holds (pool_addresses net q) f k

pub pool_addresses-IsNormalSet :
    (net : AddrText) (p : Pool) → IsSound net → IsNormalSet (pool_addresses net p)
unfolding pool_addresses new_ip_range_set
pool_addresses-IsNormalSet net p sound =
    let c = collect net p.addresses p.family p.avoid_buggy_ips in
    let right = collect-Right net sound p.addresses p.family p.avoid_buggy_ips in
    let base = merge_set-Holds empty_set c.included empty_set-IsNormalSet right.included_formed in
    (subtract_set-Holds (merge_set empty_set c.included) c.excluded base.0 right.excluded_formed).0

-- A normal set with nothing in it has no ranges.
nothing_held :
    (s : IpRangeSet) → IsNormalSet s → ((f : IpFamily) (k : ℕ) → ¬ Holds s f k) → ranges s ≡ []
unfolding ranges
nothing_held s n h = nil s.ranges4 s.ranges6 n.normal4 n.normal6 (h ipv4) (h ipv6)
  where
    nil :
        (rs4 rs6 : List IpRange)
        → IsNormalFrom ipv4 0 rs4
        → IsNormalFrom ipv6 0 rs6
        → ((k : ℕ) → ¬ In k rs4)
        → ((k : ℕ) → ¬ In k rs6)
        → rs4 ++ rs6 ≡ []
    nil [] [] n4 n6 h4 h6 = refl
    nil [] (r ∷ rs) n4 n6 h4 h6 = absurd (h6 (value r.start) (inl (omega arith, n6.0.ordered)))
    nil (r ∷ rs) rs6 n4 n6 h4 h6 = absurd (h4 (value r.start) (inl (omega arith, n4.0.ordered)))

either_family :
    (s : IpRangeSet) (f : IpFamily) (k : ℕ) → Holds s f k → In k s.ranges4 ⊎ In k s.ranges6
either_family s ipv4 k h = inl h
either_family s ipv6 k h = inr h
either_family s unknown k h = absurd h

-- A set that holds something has ranges.
something_held :
    (s : IpRangeSet) (f : IpFamily) (k : ℕ) → Holds s f k → ltb 0 (length (ranges s)) ≡ true
unfolding ranges
something_held s f k h = held s.ranges4 s.ranges6 (either_family s f k h)
  where
    held : (rs4 rs6 : List IpRange) → In k rs4 ⊎ In k rs6 → ltb 0 (length (rs4 ++ rs6)) ≡ true
    held (r ∷ rs4) rs6 h = ground arith
    held [] (r ∷ rs6) h = ground arith
    held [] [] h = elim h [ inl a ↦ absurd a | inr b ↦ absurd b ]

-- The webhook's test: two pools overlap, or are disjoint.
overlap_test :
    (net : AddrText) (p q : Pool)
    → IsSound net
    → ((ltb 0 (length (ranges (intersections (pool_addresses net p) (pool_addresses net q))))
          ≡ false)
        ↔ AreDisjoint net p q)
overlap_test net p q sound =
    let (normal, both) =
      intersections-Holds (pool_addresses net p) (pool_addresses net q)
        (pool_addresses-IsNormalSet net p sound) (pool_addresses-IsNormalSet net q sound) in
    (
      λ e f k h g. absurd (false≢true (sym e ∙ something_held _ f k ((both f k).1 (h, g)))),
      λ apart.
          rw (nothing_held _ normal (λ f k h. let (a, b) = (both f k).0 h in apart f k a b))
            (ground arith),
    )

-- What `validate` asks of the pools that it is compared with.
abbrev pub ApartFromOthers : AddrText → Pool → List Pool → Type 0
ApartFromOthers net p = All (λ q. (q.name ≡ p.name) ⊎ AreDisjoint net p q)

overlap_errors-nil :
    (net : AddrText) (p : Pool) (pools : List Pool)
    → IsSound net
    → (overlap_errors net p (pool_addresses net p) pools ≡ []) ↔ ApartFromOthers net p pools
unfolding overlap_errors
overlap_errors-nil net p [] sound = (λ e. tt, λ h. refl)
overlap_errors-nil net p (q ∷ pools) sound =
    let (to, from) = overlap_errors-nil net p pools sound in
    let same_name = eq_iff q.name p.name in
    let (test_to, test_from) = overlap_test net p q sound in
    elim (Bool-cases (str_eq q.name p.name)) [
      | inl same ↦ rw (same, overlap_errors) (λ e. (inl (same_name.0 same), to e), λ h. from h.1)
      | inr other ↦
          elim (Bool-cases (
            ltb 0
              (length (ranges (intersections (pool_addresses net p) (pool_addresses net q)))))) [
                | inl overlap ↦
                    rw (other, overlap_errors)
                      (rw (overlap, overlap_errors)
                        (
                          λ e. absurd (cc),
                          λ h. absurd (elim h.0 [
                            | inl same ↦ false≢true (sym other ∙ same_name.1 same)
                            | inr apart ↦ false≢true (sym (test_from apart) ∙ overlap)
                          ]),
                        ))
                | inr apart ↦
                    rw (other, overlap_errors)
                      (rw (apart, overlap_errors) (λ e. (inr (test_to apart), to e), λ h. from h.1))
              ]
    ]

-- The errors of a pool's own entries.
abbrev own_errors : AddrText → Pool → List (Option EntryError)
own_errors net p = (parse_ip_pool_addresses net p.addresses p.family p.avoid_buggy_ips).1

entry_errors-nil :
    (i : ℕ) (es : List (Option EntryError)) → (entry_errors i es ≡ []) ↔ All (λ e. e ≡ none) es
unfolding entry_errors
entry_errors-nil i [] = (λ e. tt, λ h. refl)
entry_errors-nil i (none ∷ es) =
    let (to, from) = entry_errors-nil (suc i) es in (λ e. (refl, to e), λ h. from h.1)
entry_errors-nil i (some x ∷ es) = (λ e. absurd (cc), λ h. absurd (ground (arith, h.0)))

verdict-admitted :
    (xs ys : List FieldError) → (verdict (xs ++ ys) ≡ admitted) ↔ ((xs ≡ []) × (ys ≡ []))
unfolding verdict
verdict-admitted [] [] = (λ e. (refl, refl), λ h. refl)
verdict-admitted [] (y ∷ ys) = (λ e. absurd (cc), λ h. absurd (ground (arith, h.1)))
verdict-admitted (x ∷ xs) ys = (λ e. absurd (cc), λ h. absurd (ground (arith, h.0)))

-- With a sound parser of addresses, the webhook admits a pool exactly if each of its entries is
-- read as a range with both ends of the pool's family, in their order, and its set is disjoint from
-- that of each listed pool with another name.
pub validate-admitted :
    (net : AddrText) (p : Pool) (pools : List Pool)
    → IsSound net
    → (validate net p (some pools) ≡ admitted)
      ↔ (All (IsEntry net p) p.addresses × ApartFromOthers net p pools)
unfolding validate parse_ip_pool_addresses
validate-admitted net p pools sound =
    let errors = own_errors net p in
    let (to, from) =
      verdict-admitted (entry_errors 0 errors)
        (overlap_errors net p (pool_addresses net p) pools) in
    let (none_to, none_from) = entry_errors-nil 0 errors in
    let (entries_to, entries_from) =
      collect-errors net p.family p.avoid_buggy_ips p.addresses sound in
    let (others_to, others_from) = overlap_errors-nil net p pools sound in
    (
      λ e. let (a, b) = to e in (entries_to (none_to a), others_to b),
      λ (a, b). from (none_from (entries_from a), others_from b),
    )

-- The pools of a cluster, one for each name: writing a pool replaces the one of its name.
abbrev pub without : String → List Pool → List Pool
without name [] = []
without name (q ∷ pools) = if str_eq q.name name then without name pools else q ∷ without name pools

-- A change of the stored pools: a pool is created or updated after the webhook admitted it against
-- the stored pools, or deleted.
pub data Change (net : AddrText) : List Pool → List Pool → Type 0 where
  written :
      (p : Pool) (pools : List Pool)
      → validate net p (some pools) ≡ admitted
      → Change net pools (p ∷ without p.name pools)
  deleted : (name : String) (pools : List Pool) → Change net pools (without name pools)

pub data Changes (net : AddrText) (pools : List Pool) : List Pool → Type 0 where
  none_yet : Changes net pools pools
  then_one : {qs rs : List Pool} → Changes net pools qs → Change net qs rs → Changes net pools rs

-- Any two of the stored pools are disjoint.
abbrev pub AllDisjoint : AddrText → List Pool → Type 0
AllDisjoint net [] = Unit {0}
AllDisjoint net (p ∷ pools) = All (AreDisjoint net p) pools × AllDisjoint net pools

without-All :
    (P : Pool → Type 0) (name : String) (pools : List Pool)
    → All P pools
    → All P (without name pools)
without-All P name [] h = tt
without-All P name (q ∷ pools) h = elim (Bool-cases (str_eq q.name name)) [
  | inl same ↦ rw same (without-All P name pools h.1)
  | inr other ↦ rw other (h.0, without-All P name pools h.1)
]

without-AllDisjoint :
    (net : AddrText) (name : String) (pools : List Pool)
    → AllDisjoint net pools
    → AllDisjoint net (without name pools)
without-AllDisjoint net name [] h = tt
without-AllDisjoint net name (q ∷ pools) h = elim (Bool-cases (str_eq q.name name)) [
  | inl same ↦ rw same (without-AllDisjoint net name pools h.1)
  | inr other ↦
      rw other
        (without-All (AreDisjoint net q) name pools h.0, without-AllDisjoint net name pools h.1)
]

apart_from_rest :
    (net : AddrText) (p : Pool) (pools : List Pool)
    → ApartFromOthers net p pools
    → All (AreDisjoint net p) (without p.name pools)
apart_from_rest net p [] h = tt
apart_from_rest net p (q ∷ pools) h = elim (Bool-cases (str_eq q.name p.name)) [
  | inl same ↦ rw same (apart_from_rest net p pools h.1)
  | inr other ↦ rw other (elim h.0 [
    | inl same ↦ absurd (false≢true (sym other ∙ (eq_iff q.name p.name).1 same))
    | inr apart ↦ (apart, apart_from_rest net p pools h.1)
  ])
]

Change-AllDisjoint :
    (net : AddrText) {pools qs : List Pool}
    → IsSound net
    → Change net pools qs
    → AllDisjoint net pools
    → AllDisjoint net qs
Change-AllDisjoint net sound (written p pools e) h = (
  apart_from_rest net p pools ((validate-admitted net p pools sound).0 e).1,
  without-AllDisjoint net p.name pools h,
)
Change-AllDisjoint net sound (deleted name pools) h = without-AllDisjoint net name pools h

-- With a sound parser of addresses: if every pool is written only after the webhook admitted it
-- against the stored pools, no address is ever held by two stored pools.
pub Changes-AllDisjoint :
    (net : AddrText) {pools : List Pool}
    → IsSound net
    → Changes net [] pools
    → AllDisjoint net pools
Changes-AllDisjoint net sound none_yet = tt
Changes-AllDisjoint net sound (then_one before change) =
    Change-AllDisjoint net sound change (Changes-AllDisjoint net sound before)
