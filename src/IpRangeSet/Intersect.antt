-- ===== src/IpRangeSet/Intersect.antt =====
-- `intersection` of internal/core/ip_range_set.go, on normal lists.
use mikrolb.Common.{
  ℕ, suc, ◌≤◌, ◌<◌, ◌≡◌, ◌↔◌, inl, inr, List, [], ◌∷◌, min, max, arith, if◌then◌else◌, dec_lt,
  dec_le, Bool-cases,
}
use mikrolb.Net.{Addr, IpFamily, value, less}
use mikrolb.Net.Order.{IsOf, less-value, less_yes, less_no, at_most_yes, at_most_no}
use mikrolb.IpRange.{IpRange}
use mikrolb.IpRange.Bounds.{IsRange}
use mikrolb.IpRangeSet.{common, intersection}
use mikrolb.IpRangeSet.Normal.{In, IsNormalFrom, IsNormal, IsNormalFrom-le, IsNormalFrom-In}

later-IsOf :
    (f : IpFamily) (a b : Addr)
    → IsOf f a
    → IsOf f b
    → IsOf f (if less a b then b else a)
      × (value (if less a b then b else a) ≡ max (value a) (value b))
later-IsOf f a b ha hb = elim (Bool-cases (less a b)) [
  | inl e ↦ rw e (hb, ground (arith, less-value f a b ha hb))
  | inr e ↦ rw e (ha, ground (arith, less-value f a b ha hb))
]

earlier-IsOf :
    (f : IpFamily) (a b : Addr)
    → IsOf f a
    → IsOf f b
    → IsOf f (if less b a then b else a)
      × (value (if less b a then b else a) ≡ min (value a) (value b))
earlier-IsOf f a b ha hb = elim (Bool-cases (less b a)) [
  | inl e ↦ rw e (hb, ground (arith, less-value f b a hb ha))
  | inr e ↦ rw e (ha, ground (arith, less-value f b a hb ha))
]

-- The common part of two ranges that overlap.
record Common (f : IpFamily) (r1 r2 r : IpRange) : Type 0 where
  is_range : IsRange f r
  from : value r.start ≡ max (value r1.start) (value r2.start)
  upto : value r.end ≡ min (value r1.end) (value r2.end)

module _ (f : IpFamily) (r1 r2 : IpRange) (h1 : IsRange f r1) (h2 : IsRange f r2) where
  common_lem :
      value r2.start ≤ value r1.end → value r1.start ≤ value r2.end → Common f r1 r2 (common r1 r2)
  unfolding common
  common_lem a b =
      let (start_of, from) = later-IsOf f r1.start r2.start h1.start_of h2.start_of in
      let (end_of, upto) = earlier-IsOf f r1.end r2.end h1.end_of h2.end_of in
      record {
        is_range = record {
          start_of = start_of;
          end_of = end_of;
          ordered = omega (arith, h1.ordered, h2.ordered);
        };
        from = from;
        upto = upto;
      }

-- The rounds of the loop, with what they append.
data Meets (f : IpFamily) : List IpRange → List IpRange → List IpRange → Type 0 where
  left_done : (rs2 : List IpRange) → Meets f [] rs2 []
  right_done : (r1 : IpRange) (rs1 : List IpRange) → Meets f (r1 ∷ rs1) [] []
  left_below :
      (r1 r2 : IpRange) (rs1 rs2 : List IpRange) {out : List IpRange}
      → value r1.end < value r2.start
      → Meets f rs1 (r2 ∷ rs2) out
      → Meets f (r1 ∷ rs1) (r2 ∷ rs2) out
  right_below :
      (r1 r2 : IpRange) (rs1 rs2 : List IpRange) {out : List IpRange}
      → value r2.end < value r1.start
      → Meets f (r1 ∷ rs1) rs2 out
      → Meets f (r1 ∷ rs1) (r2 ∷ rs2) out
  left_first :
      (r1 r2 r : IpRange) (rs1 rs2 : List IpRange) {out : List IpRange}
      → value r1.end ≤ value r2.end
      → Common f r1 r2 r
      → Meets f rs1 (r2 ∷ rs2) out
      → Meets f (r1 ∷ rs1) (r2 ∷ rs2) (r ∷ out)
  right_first :
      (r1 r2 r : IpRange) (rs1 rs2 : List IpRange) {out : List IpRange}
      → value r2.end < value r1.end
      → Common f r1 r2 r
      → Meets f (r1 ∷ rs1) rs2 out
      → Meets f (r1 ∷ rs1) (r2 ∷ rs2) (r ∷ out)

intersection-Meets :
    (f : IpFamily) (a b : ℕ) (rs1 rs2 : List IpRange)
    → IsNormalFrom f a rs1
    → IsNormalFrom f b rs2
    → Meets f rs1 rs2 (intersection rs1 rs2)
unfolding intersection
intersection-Meets f a b [] rs2 n1 n2 = left_done rs2
intersection-Meets f a b (r1 ∷ rs1) [] n1 n2 = right_done r1 rs1
intersection-Meets f a b (r1 ∷ rs1) (r2 ∷ rs2) n1 n2 =
    elim (dec_lt (value r1.end) (value r2.start)) [
      | yes left ↦
          rw (less_yes f r1.end r2.start n1.0.end_of n2.0.start_of left, intersection)
            (left_below r1 r2 rs1 rs2 left (intersection-Meets f _ b rs1 (r2 ∷ rs2) n1.2 n2))
      | no meets_left ↦ elim (dec_lt (value r2.end) (value r1.start)) [
        | yes right ↦
            rw (less_no f r1.end r2.start n1.0.end_of n2.0.start_of (omega arith), intersection)
              (rw (less_yes f r2.end r1.start n2.0.end_of n1.0.start_of right, intersection)
                (right_below r1 r2 rs1 rs2 right (intersection-Meets f a _ (r1 ∷ rs1) rs2 n1 n2.2)))
        | no meets_right ↦
            let c = common_lem f r1 r2 n1.0 n2.0 (omega arith) (omega arith) in
            rw (less_no f r1.end r2.start n1.0.end_of n2.0.start_of (omega arith), intersection)
              (rw
                (
                  less_no f r2.end r1.start n2.0.end_of n1.0.start_of (omega arith),
                  at_most_yes f _ _ c.is_range.start_of c.is_range.end_of c.is_range.ordered,
                  intersection,
                )
                (elim (dec_le (value r1.end) (value r2.end)) [
                  | yes first ↦
                      rw (at_most_yes f r1.end r2.end n1.0.end_of n2.0.end_of first, intersection)
                        (left_first r1 r2 (common r1 r2) rs1 rs2 first c
                          (intersection-Meets f _ b rs1 (r2 ∷ rs2) n1.2 n2))
                  | no second ↦
                      rw
                        (
                          at_most_no f r1.end r2.end n1.0.end_of n2.0.end_of (omega arith),
                          intersection,
                        )
                        (right_first r1 r2 (common r1 r2) rs1 rs2 (omega arith) c
                          (intersection-Meets f a _ (r1 ∷ rs1) rs2 n1 n2.2))
                ]))
      ]
    ]

Meets-IsNormal :
    (f : IpFamily) (a b : ℕ) {rs1 rs2 out : List IpRange}
    → Meets f rs1 rs2 out
    → IsNormalFrom f a rs1
    → IsNormalFrom f b rs2
    → IsNormalFrom f (max a b) out
Meets-IsNormal f a b (left_done rs2) n1 n2 = tt
Meets-IsNormal f a b (right_done r1 rs1) n1 n2 = tt
Meets-IsNormal f a b (left_below r1 r2 rs1 rs2 {out} lt t) n1 n2 =
    IsNormalFrom-le f _ (max (suc (suc (value r1.end))) b) out (omega (arith, n1.0.ordered))
      (Meets-IsNormal f (suc (suc (value r1.end))) b t n1.2 n2)
Meets-IsNormal f a b (right_below r1 r2 rs1 rs2 {out} lt t) n1 n2 =
    IsNormalFrom-le f _ (max a (suc (suc (value r2.end)))) out (omega (arith, n2.0.ordered))
      (Meets-IsNormal f a (suc (suc (value r2.end))) t n1 n2.2)
Meets-IsNormal f a b (left_first r1 r2 r rs1 rs2 {out} le c t) n1 n2 = (
  c.is_range,
  omega (arith, c.from),
  IsNormalFrom-le f _ (max (suc (suc (value r1.end))) b) out (omega (arith, c.upto))
      (Meets-IsNormal f (suc (suc (value r1.end))) b t n1.2 n2),
)
Meets-IsNormal f a b (right_first r1 r2 r rs1 rs2 {out} lt c t) n1 n2 = (
  c.is_range,
  omega (arith, c.from),
  IsNormalFrom-le f _ (max a (suc (suc (value r2.end)))) out (omega (arith, c.upto))
      (Meets-IsNormal f a (suc (suc (value r2.end))) t n1 n2.2),
)

Meets-sound :
    (f : IpFamily) (k : ℕ) {rs1 rs2 out : List IpRange}
    → Meets f rs1 rs2 out
    → In k out
    → In k rs1 × In k rs2
Meets-sound f k (left_done rs2) m = absurd m
Meets-sound f k (right_done r1 rs1) m = absurd m
Meets-sound f k (left_below r1 r2 rs1 rs2 lt t) m = let (a, b) = Meets-sound f k t m in (inr a, b)
Meets-sound f k (right_below r1 r2 rs1 rs2 lt t) m = let (a, b) = Meets-sound f k t m in (a, inr b)
Meets-sound f k (left_first r1 r2 r rs1 rs2 le c t) (inl i) =
    (inl (omega (arith, c.from, c.upto)), inl (omega (arith, c.from, c.upto)))
Meets-sound f k (left_first r1 r2 r rs1 rs2 le c t) (inr j) =
    let (a, b) = Meets-sound f k t j in (inr a, b)
Meets-sound f k (right_first r1 r2 r rs1 rs2 lt c t) (inl i) =
    (inl (omega (arith, c.from, c.upto)), inl (omega (arith, c.from, c.upto)))
Meets-sound f k (right_first r1 r2 r rs1 rs2 lt c t) (inr j) =
    let (a, b) = Meets-sound f k t j in (a, inr b)

behind_head :
    (f : IpFamily) (a k : ℕ) (r : IpRange) (rs : List IpRange)
    → IsNormalFrom f a (r ∷ rs)
    → In k (r ∷ rs)
    → value r.start ≤ k
behind_head f a k r rs n m = IsNormalFrom-In f (value r.start) k (r ∷ rs) (n.0, omega arith, n.2) m

In-rest : (k : ℕ) (r : IpRange) (rs : List IpRange) → value r.end < k → In k (r ∷ rs) → In k rs
In-rest k r rs lt (inl i) = absurd (omega arith)
In-rest k r rs lt (inr j) = j

Meets-complete :
    (f : IpFamily) (a b k : ℕ) {rs1 rs2 out : List IpRange}
    → Meets f rs1 rs2 out
    → IsNormalFrom f a rs1
    → IsNormalFrom f b rs2
    → In k rs1
    → In k rs2
    → In k out
Meets-complete f a b k (left_done rs2) n1 n2 x y = x
Meets-complete f a b k (right_done r1 rs1) n1 n2 x y = y
Meets-complete f a b k (left_below r1 r2 rs1 rs2 lt t) n1 n2 x y =
    Meets-complete f (suc (suc (value r1.end))) b k t n1.2 n2
      (In-rest k r1 rs1 (omega (arith, behind_head f b k r2 rs2 n2 y)) x) y
Meets-complete f a b k (right_below r1 r2 rs1 rs2 lt t) n1 n2 x y =
    Meets-complete f a (suc (suc (value r2.end))) k t n1 n2.2 x
      (In-rest k r2 rs2 (omega (arith, behind_head f a k r1 rs1 n1 x)) y)
Meets-complete f a b k (left_first r1 r2 r rs1 rs2 le c t) n1 n2 x y =
    elim (dec_le k (value r1.end)) [
      | yes here ↦ inl (
          omega
            (arith, c.from, c.upto, behind_head f b k r2 rs2 n2 y, behind_head f a k r1 rs1 n1 x))
      | no behind ↦ inr (
          Meets-complete f (suc (suc (value r1.end))) b k t n1.2 n2
            (In-rest k r1 rs1 (omega arith) x) y)
    ]
Meets-complete f a b k (right_first r1 r2 r rs1 rs2 lt c t) n1 n2 x y =
    elim (dec_le k (value r2.end)) [
      | yes here ↦ inl (
          omega
            (arith, c.from, c.upto, behind_head f b k r2 rs2 n2 y, behind_head f a k r1 rs1 n1 x))
      | no behind ↦ inr (
          Meets-complete f a (suc (suc (value r2.end))) k t n1 n2.2 x
            (In-rest k r2 rs2 (omega arith) y))
    ]

-- The intersection of two normal lists is a normal list, and holds exactly the values that both hold.
pub intersection-In :
    (f : IpFamily) (rs1 rs2 : List IpRange)
    → IsNormal f rs1
    → IsNormal f rs2
    → IsNormal f (intersection rs1 rs2)
      × ((k : ℕ) → In k (intersection rs1 rs2) ↔ (In k rs1 × In k rs2))
intersection-In f rs1 rs2 n1 n2 =
    let t = intersection-Meets f 0 0 rs1 rs2 n1 n2 in
    (
      Meets-IsNormal f 0 0 t n1 n2,
      λ k. (Meets-sound f k t, λ (x, y). Meets-complete f 0 0 k t n1 n2 x y),
    )
