-- ===== src/Allocator.antt =====
-- The allocation phase of `IPAllocationReconciler.Reconcile`
-- (internal/controller/ip_allocation_reconciler.go): which address of which pool an allocation gets.
pub mod Search
pub mod Outcomes
pub mod Requested
pub mod Distinct
use mikrolb.Common.{
  ℕ, Bool, true, false, not, ◌&&◌, ◌||◌, Option, none, some, List, [], ◌∷◌, String, str_eq,
  if◌then◌else◌,
}
use mikrolb.Net.{Addr, IpFamily, unknown, family_eq}
use mikrolb.Net.Text.{AddrText}
use mikrolb.IpRange.{IpRange}
use mikrolb.IpRange.Iter.{iter}
use mikrolb.IpRangeSet.{contains_set, ranges_for_family}
use mikrolb.Pool.{Pool, pool_addresses}
use mikrolb.Allocation.{IpAllocation}
use mikrolb.Expectations.{Pending, Expectations, stage_allocation}

pub data Denial : Type 0 where
  address_invalid : Denial
  address_already_used address_not_in_pool : Addr → Denial
  pool_not_found pool_family_mismatch pool_exhausted : Denial

pub record Grant : Type 0 where
  pub address : Addr
  pub pool_name : String
  pub advertised : Bool
  pub interface_name : String
  pub staged : Pending

pub data Outcome : Type 0 where
  denied : Denial → Outcome
  granted : Grant → Outcome

-- The two tests at the head of both loops over the pools.
unfoldable pub skips : IpAllocation → Pool → Bool
skips alloc p =
    (not (str_eq alloc.spec.pool_name "") && not (str_eq p.name alloc.spec.pool_name))
    || (not (family_eq alloc.spec.family unknown) && not (family_eq p.family alloc.spec.family))

abbrev pub pending_for : IpAllocation → ℕ → Addr → Pending
pending_for alloc now ip = record { id = alloc.name; address = ip; allocated_at = now }

abbrev pub grant : Pool → Pending → Grant
grant p staged = record {
  address = staged.address;
  pool_name = p.name;
  advertised = p.advertise;
  interface_name = p.interface_name;
  staged = staged;
}

module _ (net : AddrText) where
  -- The first pool that the allocation may use and that contains the address.
  unfoldable pub find_pool : IpAllocation → Addr → List Pool → Option Pool
  find_pool alloc ip [] = none
  find_pool alloc ip (p ∷ pools) =
      if skips alloc p
      then find_pool alloc ip pools
      else if contains_set (pool_addresses net p) ip
      then some p
      else find_pool alloc ip pools

-- The addresses that the iterator yields.
abbrev pub yielded : Option (List Addr) → List Addr
yielded none = []
yielded (some ips) = ips

-- The calls of the loops share the addresses in use, the allocation and the time.
module _ (used : Addr → Option ℕ) (alloc : IpAllocation) (now : ℕ) where
  -- The innermost loop: the first address that is free and can be staged.
  unfoldable pub try_addresses : Expectations → List Addr → Option (Pending × Expectations)
  try_addresses e [] = none
  try_addresses e (ip ∷ ips) = elim (used ip) [
    | some _ ↦ try_addresses e ips
    | none ↦ elim (stage_allocation e (pending_for alloc now ip)).1 [
      | true ↦ some (pending_for alloc now ip, (stage_allocation e (pending_for alloc now ip)).0)
      | false ↦ try_addresses (stage_allocation e (pending_for alloc now ip)).0 ips
    ]
  ]

  unfoldable pub try_ranges : Expectations → ℕ → List IpRange → Option (Pending × Expectations)
  unfolding try_addresses
  try_ranges e hash [] = none
  try_ranges e hash (r ∷ rs) = elim (try_addresses e (yielded (iter r hash))) [
    | some found ↦ some found
    | none ↦ try_ranges e hash rs
  ]

  -- A pool that the dynamic allocation passes over.
  unfoldable pub passes : Pool → Bool
  unfolding skips
  passes p = skips alloc p || (str_eq alloc.spec.pool_name "" && not p.auto_assign)

  unfoldable pub try_pools :
      AddrText → Expectations → ℕ → List Pool → Option (Pool × Pending × Expectations)
  unfolding try_ranges
  try_pools net e hash [] = none
  try_pools net e hash (p ∷ pools) = elim (passes p) [
    | true ↦ try_pools net e hash pools
    | false ↦ elim (try_ranges e hash (ranges_for_family (pool_addresses net p) p.family)) [
      | some (staged, e') ↦ some (p, staged, e')
      | none ↦ try_pools net e hash pools
    ]
  ]

  -- Why a dynamic allocation failed: the first pool of the requested name decides.
  unfoldable pub named_pool_denial : List Pool → Denial
  named_pool_denial [] = pool_not_found
  named_pool_denial (p ∷ pools) =
      if str_eq p.name alloc.spec.pool_name
      then if not (family_eq alloc.spec.family unknown)
          && not (family_eq p.family alloc.spec.family)
        then pool_family_mismatch
        else pool_exhausted
      else named_pool_denial pools

  unfoldable pub dynamic_denial : List Pool → Denial
  unfolding named_pool_denial
  dynamic_denial pools =
      if not (str_eq alloc.spec.pool_name "") then named_pool_denial pools else pool_exhausted

  unfoldable pub allocate_dynamic : AddrText → Expectations → ℕ → List Pool → Outcome × Expectations
  unfolding try_pools dynamic_denial
  allocate_dynamic net e hash pools = elim (try_pools net e hash pools) [
    | some (p, staged, e') ↦ (granted (grant p staged), e')
    | none ↦ (denied (dynamic_denial pools), e)
  ]

  -- A pool was found for the requested address: it is staged there.
  unfoldable pub stage_in_pool : Expectations → Addr → Pool → Outcome × Expectations
  stage_in_pool e ip p =
      let (e', done) = stage_allocation e (pending_for alloc now ip) in
      if done
      then (granted (grant p (pending_for alloc now ip)), e')
      else (denied (address_already_used ip), e')

  unfoldable pub allocate_address : AddrText → Expectations → List Pool → Outcome × Expectations
  unfolding find_pool stage_in_pool
  allocate_address net e pools = elim (net.parse_addr alloc.spec.address) [
    | none ↦ (denied address_invalid, e)
    | some ip ↦ elim (used ip) [
      | some _ ↦ (denied (address_already_used ip), e)
      | none ↦ elim (find_pool net alloc ip pools) [
        | none ↦ (denied (address_not_in_pool ip), e)
        | some p ↦ stage_in_pool e ip p
      ]
    ]
  ]

  unfoldable pub allocate : AddrText → Expectations → ℕ → List Pool → Outcome × Expectations
  unfolding allocate_address allocate_dynamic
  allocate net e hash pools =
      if not (str_eq alloc.spec.address "")
      then allocate_address net e pools
      else allocate_dynamic net e hash pools
