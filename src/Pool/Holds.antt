-- ===== src/Pool/Holds.antt =====
-- What `pool_addresses` holds, next to what the pool's entries list with and without `!`.
use mikrolb.Common.{
  ℕ, suc, ◌<◌, ◌≡◌, refl, sym, dec_lt, ◌↔◌, ◌⊎◌, inl, inr, true, false, List, [], ◌∷◌, All, subst,
  ◌∙◌, ap, ap₂, arith,
}
use mikrolb.Net.{IpFamily, ipv4, ipv6, unknown, family_eq, value}
use mikrolb.Net.Text.{AddrText, IsSound}
use mikrolb.Net.Order.{family_eq_self}
use mikrolb.IpRange.{IpRange, ip_family}
use mikrolb.IpRange.Accepted.{IsWellFormed}
use mikrolb.IpRangeSet.{
  of_family, merge, subtract, new_ip_range_set, subtract_set, ranges_for_family,
}
use mikrolb.IpRangeSet.Normal.{
  In, Ends, AllRanges, IsNormal, IsNormalFrom, IsNormalFrom-In, Ends-In,
}
use mikrolb.IpRangeSet.Merge.{merge-IsNormal, merge-In}
use mikrolb.IpRangeSet.Subtract.{subtract_excludes_and_keeps, subtract-In, subtract_excess}
use mikrolb.IpRangeSet.Methods.{Holds, of_family-AllRanges}
use mikrolb.Pool.{Pool, collect, pool_addresses}
use mikrolb.Pool.Addresses.{Lists, collect-Right}

-- A family that addresses have.
abbrev pub IsFamily : IpFamily → Type 0
IsFamily ipv4 = Unit
IsFamily ipv6 = Unit
IsFamily unknown = ⊥

of_family-All :
    (f : IpFamily) (rs : List IpRange) → All (λ r. ip_family r ≡ f) rs → of_family f rs ≡ rs
unfolding of_family
of_family-All f [] h = refl
of_family-All f (r ∷ rs) h =
    let same : family_eq (ip_family r) f ≡ true = rw h.0 (family_eq_self f) in
    rw same (ap (◌∷◌ r) (of_family-All f rs h.1))

subtract-nil : (rs : List IpRange) → subtract rs [] ≡ rs
unfolding subtract
subtract-nil [] = refl
subtract-nil (r ∷ rs) = refl

merge-nil : merge [] ≡ []
unfolding merge
merge-nil = refl

-- A family's list after `NewIPRangeSet` and `Subtract`, with and without their early returns.
set_list :
    (f : IpFamily) (included excluded : List IpRange)
    → IsFamily f
    → ranges_for_family (subtract_set (new_ip_range_set included) excluded) f
      ≡ subtract (merge (of_family f included)) (merge (of_family f excluded))
unfolding subtract_set new_ip_range_set
set_list ipv4 [] [] h = rw merge-nil (sym (subtract-nil []))
set_list ipv6 [] [] h = rw merge-nil (sym (subtract-nil []))
set_list ipv4 [] (x ∷ xs) h = rw merge-nil
set_list ipv6 [] (x ∷ xs) h = rw merge-nil
set_list ipv4 (r ∷ rs) [] h = rw merge-nil (sym (subtract-nil _))
set_list ipv6 (r ∷ rs) [] h = rw merge-nil (sym (subtract-nil _))
set_list ipv4 (r ∷ rs) (x ∷ xs) h = refl
set_list ipv6 (r ∷ rs) (x ∷ xs) h = refl
set_list unknown _ _ h = absurd h

Ends-not_next :
    (f : IpFamily) (b e : ℕ) (rs : List IpRange) → IsNormalFrom f b rs → Ends e rs → ¬ In (suc e) rs
Ends-not_next f b e (r ∷ rs) n (inl h) (inl i) = omega arith
Ends-not_next f b e (r ∷ rs) n (inl h) (inr j) =
    omega (arith, IsNormalFrom-In f (suc (suc (value r.end))) (suc e) rs n.2 j)
Ends-not_next f b e (r ∷ rs) n (inr h) (inl i) = omega (
  arith,
  IsNormalFrom-In f (suc (suc (value r.end))) e rs n.2
      (Ends-In f (suc (suc (value r.end))) e rs n.2 h),
)
Ends-not_next f b e (r ∷ rs) n (inr h) (inr j) =
    Ends-not_next f (suc (suc (value r.end))) e rs n.2 h j
Ends-not_next f b e [] n h i = h

Ends-of_last :
    (f : IpFamily) (b e : ℕ) (rs : List IpRange)
    → IsNormalFrom f b rs
    → In e rs
    → ¬ In (suc e) rs
    → Ends e rs
Ends-of_last f b e (r ∷ rs) n (inl i) last = elim (dec_lt e (value r.end)) [
  | yes inside ↦ absurd (last (inl (omega arith, omega arith)))
  | no at_end ↦ inl (omega arith)
]
Ends-of_last f b e (r ∷ rs) n (inr j) last =
    inr (Ends-of_last f (suc (suc (value r.end))) e rs n.2 j (λ k. last (inr k)))
Ends-of_last f b e [] n i last = i

iff_trans : {A B C : Type 0} → A ↔ B → B ↔ C → A ↔ C
iff_trans p q = (λ a. q.0 (p.0 a), λ c. p.1 (q.1 c))

-- The values that a pool's entries without `!` list, and those that its entries with it list.
abbrev pub Included : AddrText → Pool → ℕ → Type 0
Included net p k = Lists net p.family p.avoid_buggy_ips false k p.addresses

abbrev pub Excluded : AddrText → Pool → ℕ → Type 0
Excluded net p k = Lists net p.family p.avoid_buggy_ips true k p.addresses

-- The merged lists that the pool's set is the difference of.
record Operands (net : AddrText) (p : Pool) (base out : List IpRange) : Type 0 where
  base_normal : IsNormal p.family base
  out_normal : IsNormal p.family out
  base_in : (k : ℕ) → In k base ↔ Included net p k
  out_in : (k : ℕ) → In k out ↔ Excluded net p k
  list : ranges_for_family (pool_addresses net p) p.family ≡ subtract base out

All-of :
    (f : IpFamily) (rs : List IpRange)
    → All IsWellFormed rs
    → All (λ r. ip_family r ≡ f) rs
    → AllRanges f rs
All-of f rs formed h = subst (AllRanges f) (of_family-All f rs h) (of_family-AllRanges f rs formed)

pool-Operands :
    (net : AddrText) (p : Pool)
    → IsSound net
    → IsFamily p.family
    → (base : List IpRange) × (out : List IpRange) × Operands net p base out
unfolding pool_addresses
pool-Operands net p sound fam =
    let c = collect net p.addresses p.family p.avoid_buggy_ips in
    let right = collect-Right net sound p.addresses p.family p.avoid_buggy_ips in
    let base_all = All-of p.family c.included right.included_formed right.included_family in
    let out_all = All-of p.family c.excluded right.excluded_formed right.excluded_family in
    (
      merge c.included,
      merge c.excluded,
      record {
        base_normal = merge-IsNormal p.family c.included base_all;
        out_normal = merge-IsNormal p.family c.excluded out_all;
        base_in = λ k. iff_trans (merge-In p.family c.included base_all k) (right.included_in k);
        out_in = λ k. iff_trans (merge-In p.family c.excluded out_all k) (right.excluded_in k);
        list =
            set_list p.family c.included c.excluded fam
            ∙ ap₂ (λ a b. subtract (merge a) (merge b))
                (of_family-All p.family c.included right.included_family)
                (of_family-All p.family c.excluded right.excluded_family);
      },
    )

module _ (net : AddrText) (p : Pool) (sound : IsSound net) (fam : IsFamily p.family) where
  -- With a sound parser of addresses, a pool of IPv4 or IPv6 holds no value that an entry with
  -- `!` lists, and every other value that an entry without it lists.
  pub pool_addresses_exclude :
      (k : ℕ)
      → (Holds (pool_addresses net p) p.family k → ¬ Excluded net p k)
        × (Included net p k → ¬ Excluded net p k → Holds (pool_addresses net p) p.family k)
  pool_addresses_exclude k =
      let (base, out, o) = pool-Operands net p sound fam in
      let (excludes, keeps) =
        subtract_excludes_and_keeps p.family base out k o.base_normal o.out_normal in
      rw o.list (
        λ m x. excludes m ((o.out_in k).1 x),
        λ m x. keeps ((o.base_in k).1 m) (λ y. x ((o.out_in k).0 y)),
      )

  -- The pool holds exactly the listed values that are not excluded, if no run of excluded values
  -- ends in a gap of the listed ones, or below them, without touching what follows.
  pub pool_addresses-exact :
      ((e m : ℕ)
        → Excluded net p e
        → ¬ Excluded net p (suc e)
        → Included net p m
        → e < m
        → Included net p e ⊎ Included net p (suc e))
      → (k : ℕ)
      → Holds (pool_addresses net p) p.family k ↔ (Included net p k × (¬ Excluded net p k))
  pool_addresses-exact touches k =
      let (base, out, o) = pool-Operands net p sound fam in
      let exact = subtract-In p.family base out k o.base_normal o.out_normal (λ e m ends i lt.
        elim (touches e m ((o.out_in e).0 (Ends-In p.family 0 e out o.out_normal ends))
          (λ x. Ends-not_next p.family 0 e out o.out_normal ends ((o.out_in (suc e)).1 x))
          ((o.base_in m).0 i) lt) [
            | inl a ↦ inl ((o.base_in e).1 a)
            | inr b ↦ inr ((o.base_in (suc e)).1 b)
          ]) in
      rw o.list (
        λ m. let (a, b) = exact.0 m in ((o.base_in k).0 a, λ x. b ((o.out_in k).1 x)),
        λ (a, b). exact.1 ((o.base_in k).1 a, λ y. b ((o.out_in k).0 y)),
      )

  -- A run of excluded values that ends in a gap of the listed ones, or below them, without touching
  -- what follows: the pool holds the value behind the run, which no entry lists.
  pub pool_addresses_excess :
      (e m : ℕ)
      → Excluded net p e
      → ¬ Excluded net p (suc e)
      → Included net p m
      → e < m
      → ¬ Included net p e
      → ¬ Included net p (suc e)
      → Holds (pool_addresses net p) p.family (suc e)
  pool_addresses_excess e m x last i lt gap no_next =
      let (base, out, o) = pool-Operands net p sound fam in
      rw o.list
        (subtract_excess p.family base out e m o.base_normal o.out_normal
          (Ends-of_last p.family 0 e out o.out_normal ((o.out_in e).1 x)
            (λ y. last ((o.out_in (suc e)).0 y)))
          ((o.base_in m).1 i) lt (λ y. gap ((o.base_in e).0 y))
          (λ y. no_next ((o.base_in (suc e)).0 y))).0
