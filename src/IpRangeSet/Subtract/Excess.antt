-- ===== src/IpRangeSet/Subtract/Excess.antt =====
-- `subtract` where an excluded range does not meet the base.
use mikrolb.Common.{ℕ, suc, ◌≤◌, ◌<◌, ◌≡◌, refl, inl, inr, ◌⊎◌, List, [], ◌∷◌, arith}
use mikrolb.Net.{IpFamily, value}
use mikrolb.IpRange.{IpRange}
use mikrolb.IpRange.Bounds.{IsRange}
use mikrolb.IpRangeSet.{kept_before}
use mikrolb.IpRangeSet.Normal.{
  In, IsNormalFrom, IsNormalFrom-In, In-append, In-append_right, Ends, IsNormalFrom-Ends,
}
use mikrolb.IpRangeSet.Subtract.Kept.{kept_before-In}
use mikrolb.IpRangeSet.Subtract.Rounds.{cut, cut_lem, Trace, done, stop, trim, both, skip}
use mikrolb.IpRangeSet.Subtract.Values.{Trace-keeps}

-- Where the base goes on above an excluded range, it holds the last excluded value or the one
-- behind it: no excluded range lies in a gap of the base or below it without touching what follows.
abbrev pub Touches : List IpRange → List IpRange → Type 0
Touches rs1 rs2 = (e m : ℕ) → Ends e rs2 → In m rs1 → e < m → In e rs1 ⊎ In (suc e) rs1

not-In_current :
    (k : ℕ) (current : IpRange) (rs : List IpRange)
    → value current.end < k
    → In k (current ∷ rs)
    → In k rs
not-In_current k current rs above (inl i) = absurd (omega arith)
not-In_current k current rs above (inr j) = j

-- The rest of the base, for excluded ranges that end at or behind its first range.
Touches-rest :
    (current : IpRange) (rs1 rs2 rest : List IpRange)
    → ((e : ℕ) → Ends e rest → Ends e rs2 × (value current.end < e))
    → Touches (current ∷ rs1) rs2
    → Touches rs1 rest
Touches-rest current rs1 rs2 rest sub h e m x i lt = elim (h e m (sub e x).0 (inr i) lt) [
  | inl a ↦ inl (not-In_current e current rs1 ((sub e x).1) a)
  | inr b ↦ inr (not-In_current (suc e) current rs1 (omega (arith, (sub e x).1)) b)
]

-- An excluded range that ends inside the current range does not start the rest below it.
cut_within :
    (f : IpFamily) (current sub : IpRange) (rs1 rs2 : List IpRange)
    → IsRange f current
    → IsNormalFrom f (suc (suc (value current.end))) rs1
    → value sub.end < value current.end
    → Touches (current ∷ rs1) (sub ∷ rs2)
    → value current.start ≤ suc (value sub.end)
cut_within f current sub rs1 rs2 h n lt touches =
    elim (touches (value sub.end) (value current.end) (inl refl) (inl (h.ordered, omega arith))
      lt) [
        | inl a ↦ elim a [
          | inl i ↦ omega arith
          | inr j ↦
              omega
                (arith, IsNormalFrom-In f (suc (suc (value current.end))) (value sub.end) rs1 n j)
        ]
        | inr b ↦ elim b [
          | inl i ↦ i.0
          | inr j ↦ omega (
            arith,
            IsNormalFrom-In f (suc (suc (value current.end))) (suc (value sub.end)) rs1 n j,
          )
        ]
      ]

Touches-cut :
    (f : IpFamily) (current sub : IpRange) (rs1 rs2 : List IpRange)
    → value (cut current sub).start ≡ suc (value sub.end)
    → value current.start ≤ suc (value sub.end)
    → IsNormalFrom f (suc (suc (value sub.end))) rs2
    → Touches (current ∷ rs1) (sub ∷ rs2)
    → Touches (cut current sub ∷ rs1) rs2
Touches-cut f current sub rs1 rs2 at within n h e m x i lt =
    let above = IsNormalFrom-Ends f (suc (suc (value sub.end))) e rs2 n x in
    let wider : In m (current ∷ rs1) = elim i [ inl a ↦ inl (omega arith, a.1) | inr b ↦ inr b ] in
    elim (h e m (inr x) wider lt) [
      | inl a ↦ inl (elim a [ inl c ↦ inl (omega arith, c.1) | inr d ↦ inr d ])
      | inr b ↦ inr (elim b [ inl c ↦ inl (omega arith, c.1) | inr d ↦ inr d ])
    ]

Ends-behind :
    (f : IpFamily) (c e : ℕ) (sub : IpRange) (rs2 : List IpRange)
    → IsNormalFrom f c (sub ∷ rs2)
    → Ends e (sub ∷ rs2)
    → value sub.end ≤ e
Ends-behind f c e sub rs2 n (inl h) = omega arith
Ends-behind f c e sub rs2 n (inr h) =
    omega (arith, IsNormalFrom-Ends f (suc (suc (value sub.end))) e rs2 n.2 h)

-- Then nothing is left that the base does not hold.
pub Trace-within :
    (f : IpFamily) (c k : ℕ) {current : IpRange} {rs1 rs2 out : List IpRange}
    → Trace current rs1 rs2 out
    → IsRange f current
    → IsNormalFrom f (suc (suc (value current.end))) rs1
    → IsNormalFrom f c rs2
    → Touches (current ∷ rs1) rs2
    → In k out
    → In k (current ∷ rs1)
Trace-within f c k (done current rs1) h n1 n2 touches m = m
Trace-within f c k (stop current sub rs2 covers) h n1 n2 touches m =
    elim (In-append k (kept_before current sub) [] m) [
      | inl a ↦ inl ((kept_before-In f current sub h n2.0 k).0 a).0
      | inr b ↦ absurd b
    ]
Trace-within f c k (trim current sub rs1 rs2 {out} lt t) h n1 n2 touches m =
    let (is_range, at) = cut_lem f current sub h n2.0 lt in
    let within = cut_within f current sub rs1 rs2 h n1 lt touches in
    elim (In-append k (kept_before current sub) out m) [
      | inl a ↦ inl ((kept_before-In f current sub h n2.0 k).0 a).0
      | inr o ↦
          elim (Trace-within f (suc (suc (value sub.end))) k t is_range n1 n2.2
            (Touches-cut f current sub rs1 rs2 at within n2.2 touches) o) [
              | inl i ↦ inl (omega arith, i.1)
              | inr j ↦ inr j
            ]
    ]
Trace-within f c k (both current sub r rs1 rs2 {out} eq t) h n1 n2 touches m =
    elim (In-append k (kept_before current sub) out m) [
      | inl a ↦ inl ((kept_before-In f current sub h n2.0 k).0 a).0
      | inr o ↦ inr (
          Trace-within f (suc (suc (value sub.end))) k t n1.0 n1.2 n2.2
            (Touches-rest current (r ∷ rs1) (sub ∷ rs2) rs2
              (λ e x. (
                inr x,
                omega (arith, IsNormalFrom-Ends f (suc (suc (value sub.end))) e rs2 n2.2 x),
              ))
              touches)
            o)
    ]
Trace-within f c k (skip current sub r rs1 rs2 {out} gt t) h n1 n2 touches m =
    elim (In-append k (kept_before current sub) out m) [
      | inl a ↦ inl ((kept_before-In f current sub h n2.0 k).0 a).0
      | inr o ↦ inr (
          Trace-within f c k t n1.0 n1.2 n2
            (Touches-rest current (r ∷ rs1) (sub ∷ rs2) (sub ∷ rs2)
              (λ e x. (x, omega (arith, Ends-behind f c e sub rs2 n2 x))) touches)
            o)
    ]

-- Where the base goes on above an excluded range, and no range of it ends with the excluded one, the
-- value behind the excluded range is left, whether the base held it or not.
pub Trace-behind :
    (f : IpFamily) (c e m : ℕ) {current : IpRange} {rs1 rs2 out : List IpRange}
    → Trace current rs1 rs2 out
    → IsRange f current
    → IsNormalFrom f (suc (suc (value current.end))) rs1
    → IsNormalFrom f c rs2
    → Ends e rs2
    → In m (current ∷ rs1)
    → e < m
    → ¬ Ends e (current ∷ rs1)
    → In (suc e) out
Trace-behind f c e m (done current rs1) h n1 n2 x i lt apart = absurd x
Trace-behind f c e m (stop current sub rs2 covers) h n1 n2 x i lt apart =
    absurd (omega (arith, Ends-behind f c e sub rs2 n2 x, last))
  where
    last : m ≤ value current.end
    last = elim i [ inl a ↦ a.1 | inr b ↦ absurd b ]
Trace-behind f c e m (trim current sub rs1 rs2 {out} sub_lt t) h n1 n2 x i lt apart =
    let (is_range, at) = cut_lem f current sub h n2.0 sub_lt in
    In-append_right (suc e) (kept_before current sub) out (elim x [
      | inl here ↦
          Trace-keeps f (suc (suc (value sub.end))) (suc e) t is_range n1 n2.2
            (inl (omega arith, omega arith))
            (λ j.
              absurd
                (omega (arith, IsNormalFrom-In f (suc (suc (value sub.end))) (suc e) rs2 n2.2 j)))
      | inr later ↦
          let above = IsNormalFrom-Ends f (suc (suc (value sub.end))) e rs2 n2.2 later in
          Trace-behind f (suc (suc (value sub.end))) e m t is_range n1 n2.2 later
            (elim i [ inl a ↦ inl (omega arith, a.1) | inr b ↦ inr b ]) lt (λ ends. apart ends)
    ])
Trace-behind f c e m (both current sub r rs1 rs2 {out} eq t) h n1 n2 x i lt apart =
    In-append_right (suc e) (kept_before current sub) out (elim x [
      | inl here ↦ absurd (apart (inl (omega arith)))
      | inr later ↦
          Trace-behind f (suc (suc (value sub.end))) e m t n1.0 n1.2 n2.2 later
            (not-In_current m current (r ∷ rs1)
              (omega (arith, IsNormalFrom-Ends f (suc (suc (value sub.end))) e rs2 n2.2 later)) i)
            lt (λ ends. apart (inr ends))
    ])
Trace-behind f c e m (skip current sub r rs1 rs2 {out} gt t) h n1 n2 x i lt apart =
    In-append_right (suc e) (kept_before current sub) out (
      Trace-behind f c e m t n1.0 n1.2 n2 x
        (not-In_current m current (r ∷ rs1) (omega (arith, Ends-behind f c e sub rs2 n2 x)) i) lt
        (λ ends. apart (inr ends)))
