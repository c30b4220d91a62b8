-- ===== src/Allocator/Requested.antt =====
-- An allocation that requests an address.
use mikrolb.Common.{
  ℕ, ◌≡◌, refl, inl, inr, true, false, Option, none, some, List, [], ◌∷◌, All, Bool-cases,
  Option-cases,
}
use mikrolb.Net.{Addr}
use mikrolb.Net.Text.{AddrText}
use mikrolb.IpRangeSet.{contains_set}
use mikrolb.Pool.{Pool, pool_addresses}
use mikrolb.Allocation.{IpAllocation}
use mikrolb.Expectations.{Expectations, of_other, stage_allocation}
use mikrolb.Allocator.{
  Outcome, denied, granted, Denial, address_invalid, address_already_used, address_not_in_pool,
  pool_not_found, pool_family_mismatch, pool_exhausted, grant, skips, pending_for, find_pool,
  stage_in_pool, allocate_address,
}
use mikrolb.Allocator.Search.{Taken, Free, stage_yes, stage_no}
use mikrolb.Allocator.Outcomes.{Among}

module _ (net : AddrText) (alloc : IpAllocation) (ip : Addr) where
  -- A pool that the allocation may use and that contains the address.
  abbrev pub Offers : Pool → Type 0
  Offers p = (skips alloc p ≡ false) × (contains_set (pool_addresses net p) ip ≡ true)

  -- What the search for the pool gives: an offering pool, or none where no pool offers the address.
  abbrev pub PoolFound : List Pool → Option Pool → Type 0
  PoolFound pools none = All (λ p. ¬ Offers p) pools
  PoolFound pools (some p) = Among p pools × Offers p

  further :
      (p : Pool) (pools : List Pool) (o : Option Pool)
      → ¬ Offers p
      → PoolFound pools o
      → PoolFound (p ∷ pools) o
  further p pools none unoffered h = (unoffered, h)
  further p pools (some q) unoffered h = (inr h.0, h.1)

  pub find_pool-PoolFound : (pools : List Pool) → PoolFound pools (find_pool net alloc ip pools)
  unfolding find_pool
  find_pool-PoolFound [] = tt
  find_pool-PoolFound (p ∷ pools) =
      let rest = find_pool-PoolFound pools in
      elim (Bool-cases (skips alloc p)) [
        | inl skipped ↦
            rw (skipped, find_pool)
              (further p pools (find_pool net alloc ip pools) (λ o. absurd (cc)) rest)
        | inr usable ↦ elim (Bool-cases (contains_set (pool_addresses net p) ip)) [
          | inl inside ↦
              rw (usable, find_pool) (rw (inside, find_pool) (inl refl, (usable, inside)))
          | inr outside ↦
              rw (usable, find_pool)
                (rw (outside, find_pool)
                  (further p pools (find_pool net alloc ip pools) (λ o. absurd (cc)) rest))
        ]
      ]

module _ (used : Addr → Option ℕ) (alloc : IpAllocation) (now : ℕ) (net : AddrText) where
  -- Why a requested address may be denied.
  abbrev pub IsReason : Expectations → List Pool → Denial → Type 0
  IsReason e pools address_invalid = net.parse_addr alloc.spec.address ≡ none
  IsReason e pools (address_already_used ip) =
      (net.parse_addr alloc.spec.address ≡ some ip) × Taken used alloc now e ip
  IsReason e pools (address_not_in_pool ip) =
      (net.parse_addr alloc.spec.address ≡ some ip) × All (λ p. ¬ Offers net alloc ip p) pools
  IsReason e pools pool_not_found = ⊥
  IsReason e pools pool_family_mismatch = ⊥
  IsReason e pools pool_exhausted = ⊥

  -- What the request for an address may answer.
  abbrev pub RequestRight : Expectations → List Pool → Outcome × Expectations → Type 0
  RequestRight e pools (denied d, e') = IsReason e pools d × (e' ≡ e)
  RequestRight e pools (granted g, e') =
      (net.parse_addr alloc.spec.address ≡ some g.address)
      × ((p : Pool) × Among p pools
          × Offers net alloc g.address p
          × (g ≡ grant p (pending_for alloc now g.address)))
      × Free used alloc now e g.address
      × (e' ≡ (stage_allocation e (pending_for alloc now g.address)).0)

  stage_in_pool_lem :
      (e : Expectations) (ip : Addr) (pools : List Pool) (p : Pool)
      → net.parse_addr alloc.spec.address ≡ some ip
      → used ip ≡ none
      → Among p pools
      → Offers net alloc ip p
      → RequestRight e pools (stage_in_pool used alloc now e ip p)
  unfolding stage_in_pool
  stage_in_pool_lem e ip pools p parsed free among offers =
      elim (Bool-cases (of_other (e.pending_allocations ip) alloc.name)) [
        | inl other ↦
            rw (stage_no used alloc now e ip other, stage_in_pool) ((parsed, inr other), refl)
        | inr own ↦
            rw (stage_yes used alloc now e ip own, stage_in_pool)
              (parsed, (p, among, offers, refl), (free, own), refl)
      ]

  -- A requested address is granted only if it is free and a pool that the allocation may use
  -- contains it, and it is staged there. It is denied only because it does not parse, is in use or
  -- pending for another allocation, or no such pool contains it; then no expectation changes.
  pub allocate_address-RequestRight :
      (e : Expectations) (pools : List Pool)
      → RequestRight e pools (allocate_address used alloc now net e pools)
  unfolding allocate_address
  allocate_address-RequestRight e pools = elim (Option-cases (net.parse_addr alloc.spec.address)) [
    | inl unreadable ↦ rw (unreadable, allocate_address) (unreadable, refl)
    | inr (ip, parsed) ↦ elim (Option-cases (used ip)) [
      | inr (t, in_use) ↦
          rw (parsed, allocate_address)
            (rw (in_use, allocate_address) ((parsed, inl (λ n. cc)), refl))
      | inl free ↦
          rw (parsed, allocate_address)
            (rw (free, allocate_address)
              (go ip parsed free (find_pool net alloc ip pools)
                (find_pool-PoolFound net alloc ip pools)))
    ]
  ]
    where
      go :
          (ip : Addr)
          → net.parse_addr alloc.spec.address ≡ some ip
          → used ip ≡ none
          → (o : Option Pool) → PoolFound net alloc ip pools o
          → RequestRight e pools (elim o [
            | none ↦ (denied (address_not_in_pool ip), e)
            | some p ↦ stage_in_pool used alloc now e ip p
          ])
      go ip parsed free none h = ((parsed, h), refl)
      go ip parsed free (some p) h = stage_in_pool_lem e ip pools p parsed free h.0 h.1
