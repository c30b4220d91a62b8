-- ===== src/Route/Best.antt =====
-- Which route `determineInterfaceForIP` (internal/routeros/backend.go) matches.
use mikrolb.Common.{
  ◌≡◌, ◌<◌, ◌≤◌, ◌⊎◌, inl, inr, refl, true, false, Option, none, some, List, [], ◌∷◌, All,
  Bool-cases, arith, subst,
}
use mikrolb.Net.{Addr}
use mikrolb.Net.Text.{AddrText}
use mikrolb.Route.{Route, Matched, improves, match_route, take_better, match_routes}

-- The first is more specific, or as specific with a metric no higher.
abbrev pub IsAsGood : Matched → Matched → Type 0
IsAsGood a b = (b.bits < a.bits) ⊎ ((b.bits ≡ a.bits) × (a.metric ≤ b.metric))

-- The result is as good as a match that may be there.
abbrev pub Covers : Option Matched → Option Matched → Type 0
Covers best none = Unit
Covers none (some m) = ⊥
Covers (some a) (some b) = IsAsGood a b

-- The result is a match of one of the routes.
abbrev pub Comes : (Route → Option Matched) → List Route → Matched → Type 0
Comes f [] m = ⊥
Comes f (r ∷ rs) m = (f r ≡ some m) ⊎ Comes f rs m

IsAsGood-refl : (a : Matched) → IsAsGood a a
IsAsGood-refl a = inr (refl, omega arith)

Covers-trans : (a b c : Option Matched) → Covers a b → Covers b c → Covers a c
Covers-trans a b none h k = tt
Covers-trans none (some b) (some c) h k = absurd h
Covers-trans a none (some c) h k = absurd k
Covers-trans (some a) (some b) (some c) (inl h) (inl k) = inl (omega arith)
Covers-trans (some a) (some b) (some c) (inl h) (inr k) = inl (omega arith)
Covers-trans (some a) (some b) (some c) (inr h) (inl k) = inl (omega arith)
Covers-trans (some a) (some b) (some c) (inr h) (inr k) = inr (omega arith, omega arith)

Covers-refl : (a : Option Matched) → Covers a a
Covers-refl none = tt
Covers-refl (some a) = IsAsGood-refl a

improves-IsAsGood :
    (best new : Matched)
    → (improves (some best) new ≡ true → IsAsGood new best)
      × (improves (some best) new ≡ false → IsAsGood best new)
unfolding improves
improves-IsAsGood best new = (λ h. grind arith, λ h. grind arith)

take_better-Covers :
    (net : AddrText) (ip : Addr) (best new : Option Matched)
    → Covers (take_better net ip best new) best × Covers (take_better net ip best new) new
unfolding take_better improves
take_better-Covers net ip best none = (Covers-refl best, tt)
take_better-Covers net ip none (some new) = (tt, IsAsGood-refl new)
take_better-Covers net ip (some best) (some new) = elim (Bool-cases (improves (some best) new)) [
  | inl better ↦ rw (better, take_better) ((improves-IsAsGood best new).0 better, IsAsGood-refl new)
  | inr worse ↦ rw (worse, take_better) (IsAsGood-refl best, (improves-IsAsGood best new).1 worse)
]

take_better-choice :
    (net : AddrText) (ip : Addr) (best new : Option Matched)
    → (take_better net ip best new ≡ best) ⊎ (take_better net ip best new ≡ new)
unfolding take_better
take_better-choice net ip best none = inl refl
take_better-choice net ip best (some new) = elim (Bool-cases (improves best new)) [
  | inl better ↦ inr (rw better refl)
  | inr worse ↦ inl (rw worse refl)
]

module _ (net : AddrText) (ip : Addr) where
  -- The result is the match that was there, or that of one of the routes.
  abbrev pub Stems : Option Matched → List Route → Option Matched → Type 0
  Stems start [] result = result ≡ start
  Stems start (r ∷ rs) result = (result ≡ match_route net ip r) ⊎ Stems start rs result

  Stems-start :
      (a b : Option Matched) (rs : List Route) (result : Option Matched)
      → a ≡ b
      → Stems a rs result
      → Stems b rs result
  Stems-start a b rs result e h = subst (λ x. Stems x rs result) e h

  here :
      (r : Route) (rs : List Route) (start result : Option Matched)
      → Stems (match_route net ip r) rs result
      → Stems start (r ∷ rs) result
  here r [] start result h = inl h
  here r (q ∷ rs) start result (inl h) = inr (inl h)
  here r (q ∷ rs) start result (inr h) = elim (here r rs start result h) [
    | inl first ↦ inl first
    | inr later ↦ inr (inr later)
  ]

  match_routes-from :
      (start : Option Matched) (routes : List Route)
      → Covers (match_routes net ip start routes) start
        × All (λ r. Covers (match_routes net ip start routes) (match_route net ip r)) routes
        × Stems start routes (match_routes net ip start routes)
  unfolding match_routes
  match_routes-from start [] = (Covers-refl start, tt, refl)
  match_routes-from start (r ∷ rs) =
      let next = take_better net ip start (match_route net ip r) in
      let (kept, all, stems) = match_routes-from next rs in
      let (old, new) = take_better-Covers net ip start (match_route net ip r) in
      let result = match_routes net ip next rs in
      (
        Covers-trans result next start kept old,
        (Covers-trans result next (match_route net ip r) kept new, all),
        elim (take_better-choice net ip start (match_route net ip r)) [
          | inl same ↦ inr (Stems-start next start rs result same stems)
          | inr taken ↦
              here r rs start result (Stems-start next (match_route net ip r) rs result taken stems)
        ],
      )

  -- The match of a list of routes is nothing, or the match of one of them; and it is as good as
  -- every route's match: none is more specific, and none as specific has a lower metric. So it is
  -- nothing only where no route matches.
  pub match_routes-best :
      (routes : List Route)
      → All (λ r. Covers (match_routes net ip none routes) (match_route net ip r)) routes
        × Stems none routes (match_routes net ip none routes)
  match_routes-best routes = ((match_routes-from none routes).1, (match_routes-from none routes).2)
