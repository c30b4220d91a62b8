-- ===== src/IpRangeSet/Subtract/Values.antt =====
-- Which values `subtract` leaves.
use mikrolb.Common.{ℕ, suc, ◌≤◌, ◌<◌, inl, inr, ◌⊎◌, List, [], ◌∷◌, ◌++◌, arith, dec_lt}
use mikrolb.Net.{IpFamily, value}
use mikrolb.IpRange.{IpRange}
use mikrolb.IpRange.Bounds.{IsRange, IsIn}
use mikrolb.IpRangeSet.{kept_before}
use mikrolb.IpRangeSet.Normal.{
  In, IsNormalFrom, IsNormalFrom-In, In-append, In-append_left, In-append_right,
}
use mikrolb.IpRangeSet.Subtract.Kept.{kept_before-In}
use mikrolb.IpRangeSet.Subtract.Rounds.{
  ReachesFrom-normal, cut, cut_lem, Trace, done, stop, trim, both, skip, Trace-IsNormal,
}

excluded_above :
    (f : IpFamily) (c k : ℕ) (sub : IpRange) (rs2 : List IpRange)
    → IsNormalFrom f c (sub ∷ rs2)
    → In k (sub ∷ rs2)
    → value sub.start ≤ k
excluded_above f c k sub rs2 n x =
    IsNormalFrom-In f (value sub.start) k (sub ∷ rs2) (n.0, omega arith, n.2) x

-- Nothing of an excluded range is left.
pub Trace-excludes :
    (f : IpFamily) (c k : ℕ) {current : IpRange} {rs1 rs2 out : List IpRange}
    → Trace current rs1 rs2 out
    → IsRange f current
    → IsNormalFrom f (suc (suc (value current.end))) rs1
    → IsNormalFrom f c rs2
    → In k out
    → ¬ In k rs2
Trace-excludes f c k (done current rs1) h n1 n2 m x = x
Trace-excludes f c k (stop current sub rs2 covers) h n1 n2 m x =
    elim (In-append k (kept_before current sub) [] m) [
      | inl a ↦ absurd (
          omega
            (arith, (kept_before-In f current sub h n2.0 k).0 a, excluded_above f c k sub rs2 n2 x))
      | inr b ↦ b
    ]
Trace-excludes f c k (trim current sub rs1 rs2 {out} lt t) h n1 n2 m x =
    let (is_range, at) = cut_lem f current sub h n2.0 lt in
    elim (In-append k (kept_before current sub) out m) [
      | inl a ↦ absurd (
          omega
            (arith, (kept_before-In f current sub h n2.0 k).0 a, excluded_above f c k sub rs2 n2 x))
      | inr o ↦ elim x [
        | inl i ↦ absurd (
            omega (
              arith,
              IsNormalFrom-In f (suc (value sub.end)) k out
                  (Trace-IsNormal f _ _ t is_range (omega arith) n1 n2.2
                    (ReachesFrom-normal f _ (suc (suc (value sub.end))) rs2 (omega arith) n2.2))
                  o,
            ))
        | inr j ↦ Trace-excludes f (suc (suc (value sub.end))) k t is_range n1 n2.2 o j
      ]
    ]
Trace-excludes f c k (both current sub r rs1 rs2 {out} eq t) h n1 n2 m x =
    elim (In-append k (kept_before current sub) out m) [
      | inl a ↦ absurd (
          omega
            (arith, (kept_before-In f current sub h n2.0 k).0 a, excluded_above f c k sub rs2 n2 x))
      | inr o ↦ elim x [
        | inl i ↦ absurd (
            omega (
              arith,
              IsNormalFrom-In f (suc (suc (value current.end))) k out
                  (Trace-IsNormal f _ _ t n1.0 n1.1 n1.2 n2.2
                    (ReachesFrom-normal f _ (suc (suc (value sub.end))) rs2 (omega arith) n2.2))
                  o,
            ))
        | inr j ↦ Trace-excludes f (suc (suc (value sub.end))) k t n1.0 n1.2 n2.2 o j
      ]
    ]
Trace-excludes f c k (skip current sub r rs1 rs2 {out} gt t) h n1 n2 m x =
    elim (In-append k (kept_before current sub) out m) [
      | inl a ↦ absurd (
          omega
            (arith, (kept_before-In f current sub h n2.0 k).0 a, excluded_above f c k sub rs2 n2 x))
      | inr o ↦ Trace-excludes f c k t n1.0 n1.2 n2 o x
    ]

-- A value of the current range is kept at once, is excluded, or lies behind the excluded range.
kept_or_behind :
    (f : IpFamily) (k : ℕ) (current sub : IpRange)
    → IsRange f current
    → IsRange f sub
    → IsIn k current
    → ¬ IsIn k sub
    → In k (kept_before current sub) ⊎ (value sub.end < k)
kept_or_behind f k current sub h g i x = elim (dec_lt k (value sub.start)) [
  | yes before ↦ inl ((kept_before-In f current sub h g k).1 (i, before))
  | no after ↦ inr (not_in after)
]
  where
    not_in : ¬ (k < value sub.start) → value sub.end < k
    not_in after = elim (dec_lt (value sub.end) k) [
      | yes behind ↦ behind
      | no inside ↦ absurd (x (omega arith, omega arith))
    ]

-- Every value of the base that is not excluded is left.
pub Trace-keeps :
    (f : IpFamily) (c k : ℕ) {current : IpRange} {rs1 rs2 out : List IpRange}
    → Trace current rs1 rs2 out
    → IsRange f current
    → IsNormalFrom f (suc (suc (value current.end))) rs1
    → IsNormalFrom f c rs2
    → In k (current ∷ rs1)
    → ¬ In k rs2
    → In k out
Trace-keeps f c k (done current rs1) h n1 n2 m x = m
Trace-keeps f c k (stop current sub rs2 covers) h n1 n2 m x = elim m [
  | inl i ↦ elim (kept_or_behind f k current sub h n2.0 i (λ j. x (inl j))) [
    | inl a ↦ In-append_left k (kept_before current sub) [] a
    | inr behind ↦ absurd (omega arith)
  ]
  | inr j ↦ absurd j
]
Trace-keeps f c k (trim current sub rs1 rs2 {out} lt t) h n1 n2 m x =
    let (is_range, at) = cut_lem f current sub h n2.0 lt in
    let later : In k (cut current sub ∷ rs1) → In k (kept_before current sub ++ out) = λ o.
      In-append_right k (kept_before current sub) out
        (Trace-keeps f (suc (suc (value sub.end))) k t is_range n1 n2.2 o (λ j. x (inr j))) in
    elim m [
      | inl i ↦ elim (kept_or_behind f k current sub h n2.0 i (λ j. x (inl j))) [
        | inl a ↦ In-append_left k (kept_before current sub) out a
        | inr behind ↦ later (inl (omega arith))
      ]
      | inr j ↦ later (inr j)
    ]
Trace-keeps f c k (both current sub r rs1 rs2 {out} eq t) h n1 n2 m x = elim m [
  | inl i ↦ elim (kept_or_behind f k current sub h n2.0 i (λ j. x (inl j))) [
    | inl a ↦ In-append_left k (kept_before current sub) out a
    | inr behind ↦ absurd (omega arith)
  ]
  | inr j ↦
      In-append_right k (kept_before current sub) out
        (Trace-keeps f (suc (suc (value sub.end))) k t n1.0 n1.2 n2.2 j (λ i. x (inr i)))
]
Trace-keeps f c k (skip current sub r rs1 rs2 {out} gt t) h n1 n2 m x = elim m [
  | inl i ↦ elim (kept_or_behind f k current sub h n2.0 i (λ j. x (inl j))) [
    | inl a ↦ In-append_left k (kept_before current sub) out a
    | inr behind ↦ absurd (omega arith)
  ]
  | inr j ↦ In-append_right k (kept_before current sub) out (Trace-keeps f c k t n1.0 n1.2 n2 j x)
]
