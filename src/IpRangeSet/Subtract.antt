-- ===== src/IpRangeSet/Subtract.antt =====
-- `subtract` of internal/core/ip_range_set.go, on normal lists.
pub mod Kept
pub mod Rounds
pub mod Values
pub mod Excess
use mikrolb.Common.{ℕ, suc, ◌<◌, ◌↔◌, List, [], ◌∷◌, arith}
use mikrolb.Net.{IpFamily}
use mikrolb.IpRange.{IpRange}
use mikrolb.IpRangeSet.{subtract}
use mikrolb.IpRangeSet.Normal.{In, Ends, IsNormal, Ends-In}
use Rounds.{Trace-IsNormal, subtract_loop-Trace, ReachesFrom-normal}
use Values.{Trace-excludes, Trace-keeps}
use Excess.{Touches, Trace-within, Trace-behind}

-- The difference of two normal lists is a normal list.
pub subtract-IsNormal :
    (f : IpFamily) (rs1 rs2 : List IpRange)
    → IsNormal f rs1
    → IsNormal f rs2
    → IsNormal f (subtract rs1 rs2)
unfolding subtract
subtract-IsNormal f [] rs2 n1 n2 = tt
subtract-IsNormal f (r ∷ rs1) rs2 n1 n2 =
    Trace-IsNormal f 0 0 (subtract_loop-Trace f _ 0 r rs1 rs2 n1.0 n1.2 n2) n1.0 (omega arith) n1.2
      n2 (ReachesFrom-normal f 0 0 rs2 (omega arith) n2)

-- `subtract` leaves no excluded value, and leaves every value of the base that is not excluded.
pub subtract_excludes_and_keeps :
    (f : IpFamily) (rs1 rs2 : List IpRange) (k : ℕ)
    → IsNormal f rs1
    → IsNormal f rs2
    → (In k (subtract rs1 rs2) → ¬ In k rs2) × (In k rs1 → ¬ In k rs2 → In k (subtract rs1 rs2))
unfolding subtract
subtract_excludes_and_keeps f [] rs2 k n1 n2 = (λ m. absurd m, λ m x. m)
subtract_excludes_and_keeps f (r ∷ rs1) rs2 k n1 n2 =
    let t = subtract_loop-Trace f _ 0 r rs1 rs2 n1.0 n1.2 n2 in
    (Trace-excludes f 0 k t n1.0 n1.2 n2, Trace-keeps f 0 k t n1.0 n1.2 n2)

subtract_within :
    (f : IpFamily) (rs1 rs2 : List IpRange) (k : ℕ)
    → IsNormal f rs1
    → IsNormal f rs2
    → Touches rs1 rs2
    → In k (subtract rs1 rs2)
    → In k rs1
unfolding subtract
subtract_within f [] rs2 k n1 n2 touches m = m
subtract_within f (r ∷ rs1) rs2 k n1 n2 touches m =
    Trace-within f 0 k (subtract_loop-Trace f _ 0 r rs1 rs2 n1.0 n1.2 n2) n1.0 n1.2 n2 touches m

-- On normal lists: if every excluded range that the base goes on above ends inside the base or
-- right before one of its ranges, `subtract` leaves exactly the values of the base that are not
-- excluded.
pub subtract-In :
    (f : IpFamily) (rs1 rs2 : List IpRange) (k : ℕ)
    → IsNormal f rs1
    → IsNormal f rs2
    → Touches rs1 rs2
    → In k (subtract rs1 rs2) ↔ (In k rs1 × (¬ In k rs2))
subtract-In f rs1 rs2 k n1 n2 touches =
    let (excludes, keeps) = subtract_excludes_and_keeps f rs1 rs2 k n1 n2 in
    (λ m. (subtract_within f rs1 rs2 k n1 n2 touches m, excludes m), λ (m, x). keeps m x)

-- On normal lists: where an excluded range ends in a gap of the base or below it, the base goes
-- on above, and it does not hold the next value, `subtract` leaves that value.
pub subtract_excess :
    (f : IpFamily) (rs1 rs2 : List IpRange) (e m : ℕ)
    → IsNormal f rs1
    → IsNormal f rs2
    → Ends e rs2
    → In m rs1
    → e < m
    → ¬ In e rs1
    → ¬ In (suc e) rs1
    → In (suc e) (subtract rs1 rs2) × (¬ In (suc e) rs1)
unfolding subtract
subtract_excess f [] rs2 e m n1 n2 x i lt no_end no_next = absurd i
subtract_excess f (r ∷ rs1) rs2 e m n1 n2 x i lt no_end no_next = (
  Trace-behind f 0 e m (subtract_loop-Trace f _ 0 r rs1 rs2 n1.0 n1.2 n2) n1.0 n1.2 n2 x i lt
      (λ ends. no_end (Ends-In f 0 e (r ∷ rs1) n1 ends)),
  no_next,
)
