-- ===== src/IpRangeSet/Normal.antt =====
-- Lists of ranges of one family, what they hold, and the sorted lists with gaps between the ranges.
use mikrolb.Common.{ℕ, suc, ◌≤◌, ◌≡◌, ◌⊎◌, inl, inr, List, [], ◌∷◌, ◌++◌, arith, All}
use mikrolb.Net.{IpFamily, value}
use mikrolb.IpRange.{IpRange}
use mikrolb.IpRange.Bounds.{IsRange, IsIn}

-- Some range holds the value.
abbrev pub In : ℕ → List IpRange → Type 0
In k [] = ⊥
In k (r ∷ rs) = IsIn k r ⊎ In k rs

abbrev pub AllRanges : IpFamily → List IpRange → Type 0
AllRanges f = All (IsRange f)

-- The starts ascend, from a bound on.
abbrev pub IsSortedFrom : ℕ → List IpRange → Type 0
IsSortedFrom b [] = Unit {0}
IsSortedFrom b (r ∷ rs) = (b ≤ value r.start) × IsSortedFrom (value r.start) rs

-- Ranges of one family from a bound on, each at least one address behind the one before it.
abbrev pub IsNormalFrom : IpFamily → ℕ → List IpRange → Type 0
IsNormalFrom f b [] = Unit {0}
IsNormalFrom f b (r ∷ rs) =
    IsRange f r × (b ≤ value r.start) × IsNormalFrom f (suc (suc (value r.end))) rs

abbrev pub IsNormal : IpFamily → List IpRange → Type 0
IsNormal f = IsNormalFrom f 0

pub In-append_left : (k : ℕ) (xs ys : List IpRange) → In k xs → In k (xs ++ ys)
In-append_left k (x ∷ xs) ys (inl h) = inl h
In-append_left k (x ∷ xs) ys (inr h) = inr (In-append_left k xs ys h)
In-append_left k [] ys h = absurd h

pub In-append_right : (k : ℕ) (xs ys : List IpRange) → In k ys → In k (xs ++ ys)
In-append_right k [] ys h = h
In-append_right k (x ∷ xs) ys h = inr (In-append_right k xs ys h)

pub In-append : (k : ℕ) (xs ys : List IpRange) → In k (xs ++ ys) → In k xs ⊎ In k ys
In-append k [] ys h = inr h
In-append k (x ∷ xs) ys (inl h) = inl (inl h)
In-append k (x ∷ xs) ys (inr h) = elim (In-append k xs ys h) [ inl a ↦ inl (inr a) | inr b ↦ inr b ]

pub IsNormalFrom-le :
    (f : IpFamily) (a b : ℕ) (rs : List IpRange) → a ≤ b → IsNormalFrom f b rs → IsNormalFrom f a rs
IsNormalFrom-le f a b [] h n = tt
IsNormalFrom-le f a b (r ∷ rs) h n = (n.0, omega arith, n.2)

-- Nothing of a normal list lies below its bound.
pub IsNormalFrom-In :
    (f : IpFamily) (b k : ℕ) (rs : List IpRange) → IsNormalFrom f b rs → In k rs → b ≤ k
IsNormalFrom-In f b k (r ∷ rs) n (inl h) = omega arith
IsNormalFrom-In f b k (r ∷ rs) n (inr h) =
    omega (arith, IsNormalFrom-In f (suc (suc (value r.end))) k rs n.2 h, n.0.ordered)
IsNormalFrom-In f b k [] n h = absurd h

-- Some range ends at the value.
abbrev pub Ends : ℕ → List IpRange → Type 0
Ends e [] = ⊥
Ends e (r ∷ rs) = (value r.end ≡ e) ⊎ Ends e rs

pub IsNormalFrom-Ends :
    (f : IpFamily) (b e : ℕ) (rs : List IpRange) → IsNormalFrom f b rs → Ends e rs → b ≤ e
IsNormalFrom-Ends f b e (r ∷ rs) n (inl h) = omega (arith, n.0.ordered)
IsNormalFrom-Ends f b e (r ∷ rs) n (inr h) =
    omega (arith, IsNormalFrom-Ends f (suc (suc (value r.end))) e rs n.2 h, n.0.ordered)
IsNormalFrom-Ends f b e [] n h = absurd h

pub Ends-In :
    (f : IpFamily) (b e : ℕ) (rs : List IpRange) → IsNormalFrom f b rs → Ends e rs → In e rs
Ends-In f b e (r ∷ rs) n (inl h) = inl (omega (arith, n.0.ordered))
Ends-In f b e (r ∷ rs) n (inr h) = inr (Ends-In f (suc (suc (value r.end))) e rs n.2 h)
Ends-In f b e [] n h = h
