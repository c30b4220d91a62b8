-- ===== src/IpRangeSet/Subtract/Rounds.antt =====
-- The rounds of `subtract` as a relation.
use mikrolb.Common.{
  ℕ, suc, ◌≤◌, ◌<◌, ◌≡◌, inl, inr, ◌⊎◌, Ordering, compare-cases, List, [], ◌∷◌, ◌++◌, arith,
}
use mikrolb.Net.{IpFamily, value, next_addr, compare_addr}
use mikrolb.Net.Order.{compare_addr-value, next_addr_lem, value-lt-space}
use mikrolb.IpRange.{IpRange}
use mikrolb.IpRange.Bounds.{IsRange}
use mikrolb.IpRangeSet.{kept_before, subtract_loop}
use mikrolb.IpRangeSet.Normal.{IsNormalFrom}
use mikrolb.IpRangeSet.Subtract.Kept.{kept_before-IsNormal}

-- No excluded range ends more than one below the bound.
abbrev pub ReachesFrom : ℕ → List IpRange → Type 0
ReachesFrom b [] = Unit {0}
ReachesFrom b (s ∷ rs) = b ≤ suc (value s.end)

pub ReachesFrom-normal :
    (f : IpFamily) (b c : ℕ) (rs : List IpRange)
    → b ≤ suc c
    → IsNormalFrom f c rs
    → ReachesFrom b rs
ReachesFrom-normal f b c [] le n = tt
ReachesFrom-normal f b c (s ∷ rs) le n = omega (arith, n.0.ordered)

-- The current range after an excluded one that ends inside it.
abbrev pub cut : IpRange → IpRange → IpRange
cut current sub = record current { start = next_addr sub.end }

pub cut_lem :
    (f : IpFamily) (current sub : IpRange)
    → IsRange f current
    → IsRange f sub
    → value sub.end < value current.end
    → IsRange f (cut current sub) × (value (cut current sub).start ≡ suc (value sub.end))
cut_lem f current sub h g inside =
    let (of, at) =
      next_addr_lem f sub.end g.end_of (omega (arith, value-lt-space f current.end h.end_of)) in
    (record { start_of = of; end_of = h.end_of; ordered = omega arith }, at)

-- The three ways a round goes on.
module _ (f : IpFamily) (current sub : IpRange) (h : IsRange f current) (g : IsRange f sub) where
  ends-cases :
      ((compare_addr sub.end current.end ≡ Ordering.lt) × (value sub.end < value current.end))
      ⊎ ((compare_addr sub.end current.end ≡ Ordering.eq) × (value sub.end ≡ value current.end))
      ⊎ ((compare_addr sub.end current.end ≡ Ordering.gt) × (value current.end < value sub.end))
  ends-cases =
      rw (compare_addr-value f sub.end current.end g.end_of h.end_of)
        (compare-cases (value sub.end) (value current.end))

-- The rounds of the loop, with what they append.
pub data Trace : IpRange → List IpRange → List IpRange → List IpRange → Type 0 where
  done : (current : IpRange) (rs1 : List IpRange) → Trace current rs1 [] (current ∷ rs1)
  stop :
      (current sub : IpRange) (rs2 : List IpRange)
      → value current.end ≤ value sub.end
      → Trace current [] (sub ∷ rs2) (kept_before current sub ++ [])
  trim :
      (current sub : IpRange) (rs1 rs2 : List IpRange) {out : List IpRange}
      → value sub.end < value current.end
      → Trace (cut current sub) rs1 rs2 out
      → Trace current rs1 (sub ∷ rs2) (kept_before current sub ++ out)
  both :
      (current sub r : IpRange) (rs1 rs2 : List IpRange) {out : List IpRange}
      → value sub.end ≡ value current.end
      → Trace r rs1 rs2 out
      → Trace current (r ∷ rs1) (sub ∷ rs2) (kept_before current sub ++ out)
  skip :
      (current sub r : IpRange) (rs1 rs2 : List IpRange) {out : List IpRange}
      → value current.end < value sub.end
      → Trace r rs1 (sub ∷ rs2) out
      → Trace current (r ∷ rs1) (sub ∷ rs2) (kept_before current sub ++ out)

pub subtract_loop-Trace :
    (f : IpFamily) (a b : ℕ) (current : IpRange) (rs1 rs2 : List IpRange)
    → IsRange f current
    → IsNormalFrom f a rs1
    → IsNormalFrom f b rs2
    → Trace current rs1 rs2 (subtract_loop current rs1 rs2)
unfolding subtract_loop
subtract_loop-Trace f a b current rs1 [] h n1 n2 = done current rs1
subtract_loop-Trace f a b current [] (sub ∷ rs2) h n1 n2 = elim (ends-cases f current sub h n2.0) [
  | inl (e, lt) ↦
      rw (e, subtract_loop)
        (trim current sub [] rs2 lt (
          subtract_loop-Trace f a _ (cut current sub) [] rs2 (cut_lem f current sub h n2.0 lt).0 n1
            n2.2))
  | inr (inl (e, eq)) ↦ rw (e, subtract_loop) (stop current sub rs2 (omega arith))
  | inr (inr (e, gt)) ↦ rw (e, subtract_loop) (stop current sub rs2 (omega arith))
]
subtract_loop-Trace f a b current (r ∷ rs1) (sub ∷ rs2) h n1 n2 =
    elim (ends-cases f current sub h n2.0) [
      | inl (e, lt) ↦
          rw (e, subtract_loop)
            (trim current sub (r ∷ rs1) rs2 lt (
              subtract_loop-Trace f a _ (cut current sub) (r ∷ rs1) rs2
                (cut_lem f current sub h n2.0 lt).0 n1 n2.2))
      | inr (inl (e, eq)) ↦
          rw (e, subtract_loop)
            (both current sub r rs1 rs2 eq (subtract_loop-Trace f _ _ r rs1 rs2 n1.0 n1.2 n2.2))
      | inr (inr (e, gt)) ↦
          rw (e, subtract_loop)
            (skip current sub r rs1 rs2 gt
              (subtract_loop-Trace f _ b r rs1 (sub ∷ rs2) n1.0 n1.2 n2))
    ]

pub Trace-IsNormal :
    (f : IpFamily) (b c : ℕ) {current : IpRange} {rs1 rs2 out : List IpRange}
    → Trace current rs1 rs2 out
    → IsRange f current
    → b ≤ value current.start
    → IsNormalFrom f (suc (suc (value current.end))) rs1
    → IsNormalFrom f c rs2
    → ReachesFrom b rs2
    → IsNormalFrom f b out
Trace-IsNormal f b c (done current rs1) h le n1 n2 reach = (h, le, n1)
Trace-IsNormal f b c (stop current sub rs2 covers) h le n1 n2 reach =
    kept_before-IsNormal f current sub h n2.0 b (suc (suc (value current.end))) [] le
      (omega (arith, h.ordered)) (omega arith) tt
Trace-IsNormal f b c (trim current sub rs1 rs2 lt t) h le n1 n2 reach =
    let (is_range, at) = cut_lem f current sub h n2.0 lt in
    kept_before-IsNormal f current sub h n2.0 b (suc (value sub.end)) _ le reach
      (omega (arith, n2.0.ordered))
      (Trace-IsNormal f (suc (value sub.end)) _ t is_range (omega arith) n1 n2.2
        (ReachesFrom-normal f _ (suc (suc (value sub.end))) rs2 (omega arith) n2.2))
Trace-IsNormal f b c (both current sub r rs1 rs2 eq t) h le n1 n2 reach =
    kept_before-IsNormal f current sub h n2.0 b (suc (suc (value current.end))) _ le
      (omega (arith, h.ordered)) (omega arith)
      (Trace-IsNormal f (suc (suc (value current.end))) _ t n1.0 n1.1 n1.2 n2.2
        (ReachesFrom-normal f _ (suc (suc (value sub.end))) rs2 (omega arith) n2.2))
Trace-IsNormal f b c (skip current sub r rs1 rs2 gt t) h le n1 n2 reach =
    kept_before-IsNormal f current sub h n2.0 b (suc (suc (value current.end))) _ le
      (omega (arith, h.ordered)) (omega arith)
      (Trace-IsNormal f (suc (suc (value current.end))) c t n1.0 n1.1 n1.2 n2 (omega arith))
