-- ===== src/IpRangeSet/Subtract/Kept.antt =====
-- What a round of `subtract` keeps of the current range before an excluded one.
use mikrolb.Common.{
  ℕ, suc, ◌≤◌, ◌<◌, ◌≡◌, refl, inl, inr, ◌⊎◌, ◌↔◌, min, List, [], ◌∷◌, ◌++◌, arith, dec_lt,
}
use mikrolb.Net.{IpFamily, value, prev_addr}
use mikrolb.Net.Order.{less-value, prev_addr_lem}
use mikrolb.IpRange.{IpRange}
use mikrolb.IpRange.Bounds.{IsRange, IsIn}
use mikrolb.IpRangeSet.{kept_before}
use mikrolb.IpRangeSet.Normal.{In, IsNormalFrom, IsNormalFrom-le}

-- The one range that is kept before an excluded one.
record Part (f : IpFamily) (current sub r : IpRange) : Type 0 where
  is_range : IsRange f r
  from : value r.start ≡ value current.start
  upto : suc (value r.end) ≡ min (suc (value current.end)) (value sub.start)
  some_left : value current.start < value sub.start

module _ (f : IpFamily) (current sub : IpRange) (h : IsRange f current) (g : IsRange f sub) where
  kept_before-cases :
      ((r : IpRange) × (kept_before current sub ≡ r ∷ []) × Part f current sub r)
      ⊎ ((kept_before current sub ≡ []) × (value sub.start ≤ value current.start))
  unfolding kept_before
  kept_before-cases = elim (dec_lt (value current.end) (value sub.start)) [
    | yes apart ↦ inl (
      current,
      rw (less-value f current.end sub.start h.end_of g.start_of, kept_before) (ground arith),
      record {
        is_range = h;
        from = refl;
        upto = omega arith;
        some_left = omega (arith, h.ordered);
      },
    )
    | no meets ↦ elim (dec_lt (value current.start) (value sub.start)) [
      | yes before ↦
          let (of, at) = prev_addr_lem f sub.start g.start_of (omega arith) in
          inl (
            record { start = current.start; end = prev_addr sub.start },
            rw
                (
                  less-value f current.end sub.start h.end_of g.start_of,
                  less-value f current.start sub.start h.start_of g.start_of,
                )
                (ground arith),
            record {
              is_range = record { start_of = h.start_of; end_of = of; ordered = omega arith };
              from = refl;
              upto = omega arith;
              some_left = before;
            },
          )
      | no inside ↦ inr (
        rw
            (
              less-value f current.end sub.start h.end_of g.start_of,
              less-value f current.start sub.start h.start_of g.start_of,
            )
            (ground arith),
        omega arith,
      )
    ]
  ]

  -- What is kept before an excluded range: the values of the current range below it.
  pub kept_before-In :
      (k : ℕ) → In k (kept_before current sub) ↔ (IsIn k current × (k < value sub.start))
  kept_before-In k = elim kept_before-cases [
    | inl (r, e, p) ↦ rw e (
      λ m. elim m [ inl a ↦ ground (arith, p.from, p.upto) | inr b ↦ absurd b ],
      λ m. inl (ground (arith, p.from, p.upto)),
    )
    | inr (e, inside) ↦ rw e (λ m. absurd m, λ m. absurd (omega arith))
  ]

  pub kept_before-IsNormal :
      (b c : ℕ) (rest : List IpRange)
      → b ≤ value current.start
      → b ≤ c
      → suc (min (suc (value current.end)) (value sub.start)) ≤ c
      → IsNormalFrom f c rest
      → IsNormalFrom f b (kept_before current sub ++ rest)
  kept_before-IsNormal b c rest le bc room n = elim kept_before-cases [
    | inl (r, e, p) ↦
        rw e
          (p.is_range, omega (arith, p.from), IsNormalFrom-le f _ c rest (omega (arith, p.upto)) n)
    | inr (e, inside) ↦ rw e (IsNormalFrom-le f b c rest bc n)
  ]
