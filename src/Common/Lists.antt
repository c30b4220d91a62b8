-- ===== src/Common/Lists.antt =====
-- Lists measured by native numbers, and a predicate on all elements.
use Prim.Native.Nat.{ℕ, suc, ◌+◌}
use mathlib.Core.Path.{◌≡◌, refl}
use mathlib.Core.Logic.{◌⊎◌, ◌↔◌, inl, inr}
use mathlib.Core.List.{List, [], ◌∷◌, ◌++◌}
use native.Mathlib.Omega.{arith}

module _ {ℓ} {A : Type ℓ} where
  abbrev pub length : List A → ℕ
  length [] = 0
  length (x ∷ xs) = suc (length xs)

  pub length-append : (xs ys : List A) → length (xs ++ ys) ≡ length xs + length ys
  length-append [] ys = omega arith
  length-append (x ∷ xs) ys = omega (arith, length-append xs ys)

abbrev pub All {ℓ κ} : {A : Type ℓ} → (A → Type κ) → List A → Type κ
All P [] = Unit
All P (x ∷ xs) = P x × All P xs

-- The element is in the list.
abbrev pub Member : {A : Type 0} → A → List A → Type 0
Member a [] = ⊥
Member a (x ∷ xs) = (x ≡ a) ⊎ Member a xs

module _ {A : Type 0} (P : A → Type 0) where
  pub All-Member : (xs : List A) → ((a : A) → Member a xs → P a) → All P xs
  All-Member [] h = tt
  All-Member (x ∷ xs) h = (h x (inl refl), All-Member xs (λ a m. h a (inr m)))

  pub All-append : (xs ys : List A) → All P xs → All P ys → All P (xs ++ ys)
  All-append [] ys h k = k
  All-append (x ∷ xs) ys h k = (h.0, All-append xs ys h.1 k)

-- The lists are as long as each other, and related element by element.
abbrev pub Pairs : {A B : Type 0} → (A → B → Type 0) → List A → List B → Type 0
Pairs R [] [] = Unit
Pairs R [] (y ∷ ys) = ⊥
Pairs R (x ∷ xs) [] = ⊥
Pairs R (x ∷ xs) (y ∷ ys) = R x y × Pairs R xs ys

pub Member-snoc :
    {A : Type 0} (a x : A) (xs : List A) → Member a (xs ++ (x ∷ [])) ↔ (Member a xs ⊎ (x ≡ a))
Member-snoc a x [] = (
  λ h. elim h [ inl here ↦ inr here | inr n ↦ absurd n ],
  λ h. elim h [ inl n ↦ absurd n | inr here ↦ inl here ],
)
Member-snoc a x (y ∷ ys) =
    let (to, from) = Member-snoc a x ys in
    (
      λ h. elim h [
        | inl here ↦ inl (inl here)
        | inr later ↦ elim (to later) [ inl m ↦ inl (inr m) | inr last ↦ inr last ]
      ],
      λ h. elim h [
        | inl m ↦ elim m [ inl here ↦ inl here | inr later ↦ inr (from (inl later)) ]
        | inr last ↦ inr (from (inr last))
      ],
    )
