-- ===== src/Allocator/Outcomes.antt =====
-- What an allocation is granted, and what a denial says.
use mikrolb.Common.{
  ℕ, ◌≡◌, refl, ap, ◌∙◌, ◌⊎◌, inl, inr, true, false, Option, none, some, List, [], ◌∷◌, All,
  Bool-cases, subst, sym,
}
use mikrolb.Net.{Addr, value}
use mikrolb.Net.Order.{IsOf}
use mikrolb.Net.Text.{AddrText}
use mikrolb.IpRangeSet.{ranges_for_family}
use mikrolb.IpRangeSet.Methods.{IsNormalSet, Holds, set-AllRanges}
use mikrolb.Pool.{Pool, pool_addresses}
use mikrolb.Allocation.{IpAllocation}
use mikrolb.Expectations.{Pending, Expectations, stage_allocation}
use mikrolb.Allocator.{
  Outcome, denied, granted, grant, passes, pending_for, try_ranges, try_pools, dynamic_denial,
  allocate_dynamic,
}
use mikrolb.Allocator.Search.{Taken, Free, Searched, try_ranges-Searched}

abbrev pub Among : Pool → List Pool → Type 0
Among p [] = ⊥
Among p (q ∷ qs) = (p ≡ q) ⊎ Among p qs

module _ (used : Addr → Option ℕ) (alloc : IpAllocation) (now : ℕ) (net : AddrText) where
  -- Every address that the pool holds in its family is taken.
  abbrev pub IsFull : Expectations → Pool → Type 0
  IsFull e p =
      (ip : Addr)
      → IsOf p.family ip
      → Holds (pool_addresses net p) p.family (value ip)
      → Taken used alloc now e ip

  -- What the search through the pools gives.
  abbrev pub PoolsSearched :
      Expectations → List Pool → Option (Pool × Pending × Expectations) → Type 0
  PoolsSearched e pools none = All (λ p. passes used alloc now p ≡ false → IsFull e p) pools
  PoolsSearched e pools (some (p, staged, e')) =
      Among p pools
      × (passes used alloc now p ≡ false)
      × (IsOf p.family staged.address
          × Holds (pool_addresses net p) p.family (value staged.address))
      × Free used alloc now e staged.address
      × (staged ≡ pending_for alloc now staged.address)
      × (e' ≡ (stage_allocation e staged).0)

  later :
      (e : Expectations) (p : Pool) (pools : List Pool) (o : Option (Pool × Pending × Expectations))
      → (passes used alloc now p ≡ false → IsFull e p)
      → PoolsSearched e pools o
      → PoolsSearched e (p ∷ pools) o
  later e p pools none h s = (h, s)
  later e p pools (some (q, staged, e')) h s = (inr s.0, s.1, s.2, s.3, s.4, s.5)

  next_pool :
      (e : Expectations) (hash : ℕ) (p : Pool) (pools : List Pool)
      → passes used alloc now p ≡ true
      → try_pools used alloc now net e hash (p ∷ pools) ≡ try_pools used alloc now net e hash pools
  unfolding try_pools
  next_pool e hash p pools h = rw (h, try_pools) refl

  -- A pool's turn, given what its ranges yield.
  at_pool :
      Pool
      → Option (Pool × Pending × Expectations)
      → Option (Pending × Expectations)
      → Option (Pool × Pending × Expectations)
  at_pool p rest (some (staged, e')) = some (p, staged, e')
  at_pool p rest none = rest

  this_pool :
      (e : Expectations) (hash : ℕ) (p : Pool) (pools : List Pool)
      → passes used alloc now p ≡ false
      → try_pools used alloc now net e hash (p ∷ pools)
        ≡ at_pool p
            (try_pools used alloc now net e hash pools)
            (try_ranges used alloc now e hash (ranges_for_family (pool_addresses net p) p.family))
  unfolding try_pools at_pool
  this_pool e hash p pools h = rw (h, try_pools) refl

  at_pool-PoolsSearched :
      (e : Expectations) (p : Pool) (pools : List Pool)
      → (rest : Option (Pool × Pending × Expectations)) (o : Option (Pending × Expectations))
      → passes used alloc now p ≡ false
      → PoolsSearched e pools rest
      → Searched used alloc now e
          (IsFull e p)
          (λ ip. IsOf p.family ip × Holds (pool_addresses net p) p.family (value ip))
          o
      → PoolsSearched e (p ∷ pools) (at_pool p rest o)
  unfolding at_pool
  at_pool-PoolsSearched e p pools rest none h s full = later e p pools rest (λ u. full) s
  at_pool-PoolsSearched e p pools rest (some (staged, e')) h s found =
      (inl refl, h, found.0, found.1, found.2, found.3)

  try_pools-PoolsSearched :
      (e : Expectations) (hash : ℕ) (pools : List Pool)
      → All (λ p. IsNormalSet (pool_addresses net p)) pools
      → PoolsSearched e pools (try_pools used alloc now net e hash pools)
  unfolding try_pools
  try_pools-PoolsSearched e hash [] h = tt
  try_pools-PoolsSearched e hash (p ∷ pools) h =
      let rest = try_pools-PoolsSearched e hash pools h.1 in
      elim (Bool-cases (passes used alloc now p)) [
        | inl passed ↦
            subst (PoolsSearched e (p ∷ pools)) (sym (next_pool e hash p pools passed))
              (later e p pools (try_pools used alloc now net e hash pools) (λ u. absurd (cc)) rest)
        | inr usable ↦ subst (PoolsSearched e (p ∷ pools)) (sym (this_pool e hash p pools usable)) (
            at_pool-PoolsSearched e p pools (try_pools used alloc now net e hash pools) _ usable
              rest
              (try_ranges-Searched used alloc now e p.family hash
                (ranges_for_family (pool_addresses net p) p.family)
                (set-AllRanges (pool_addresses net p) p.family h.0)))
      ]

  -- What a dynamic allocation may answer.
  abbrev pub DynamicRight : Expectations → List Pool → Outcome × Expectations → Type 0
  DynamicRight e pools (denied d, e') =
      All (λ p. passes used alloc now p ≡ false → IsFull e p) pools
      × (d ≡ dynamic_denial used alloc now pools)
      × (e' ≡ e)
  DynamicRight e pools (granted g, e') =
      ((p : Pool) × Among p pools
        × (passes used alloc now p ≡ false)
        × (IsOf p.family g.address × Holds (pool_addresses net p) p.family (value g.address))
        × (g ≡ grant p (pending_for alloc now g.address)))
      × Free used alloc now e g.address
      × (e' ≡ (stage_allocation e (pending_for alloc now g.address)).0)

  -- Where the sets of the pools are normal, a dynamic allocation is granted a free address that a
  -- pool open to it holds, and stages it. It is denied only if every address of every pool open
  -- to it is in use or pending for another allocation; then no expectation changes.
  pub allocate_dynamic-DynamicRight :
      (e : Expectations) (hash : ℕ) (pools : List Pool)
      → All (λ p. IsNormalSet (pool_addresses net p)) pools
      → DynamicRight e pools (allocate_dynamic used alloc now net e hash pools)
  unfolding allocate_dynamic
  allocate_dynamic-DynamicRight e hash pools h =
      go (try_pools used alloc now net e hash pools) (try_pools-PoolsSearched e hash pools h)
    where
      go :
          (o : Option (Pool × Pending × Expectations))
          → PoolsSearched e pools o
          → DynamicRight e pools (elim o [
            | some (p, staged, e') ↦ (granted (grant p staged), e')
            | none ↦ (denied (dynamic_denial used alloc now pools), e)
          ])
      go none s = (s, refl, refl)
      go (some (p, staged, e')) s =
          ((p, s.0, s.1, s.2, ap (grant p) s.4), s.3, s.5 ∙ ap (λ x. (stage_allocation e x).0) s.4)
