-- ===== src/PoolStatus.antt =====
-- `IPPoolReconciler.Reconcile` of internal/controller/ip_pool_reconciler.go: which allocations a
-- pool makes reconcile again, and the counts in its status.
use mikrolb.Common.{
  ℕ, ◌-◌, leb, Bool, true, false, not, ◌&&◌, ◌||◌, Option, none, some, List, [], ◌∷◌, String,
  str_eq, length, if◌then◌else◌,
}
use mikrolb.Net.{Addr, is_valid, addr_eq}
use mikrolb.Net.Text.{AddrText}
use mikrolb.IpRangeSet.{contains_set, count_set}
use mikrolb.Pool.{Pool, pool_addresses}
use mikrolb.Allocation.{IpAllocation, pending}
use mikrolb.Reconcile.{phase_eq}
pub mod Counts
pub mod Handler

-- An integer, and `Sub`.
pub data ℤ : Type 0 where
  pos negsuc : ℕ → ℤ

unfoldable pub sub : ℕ → ℕ → ℤ
sub n m = if leb m n then pos (n - m) else negsuc (m - n - 1)

-- The status: the three counts, before they are formatted.
pub record PoolCounts : Type 0 where
  pub total_addresses : ℕ
  pub allocated_addresses : ℕ
  pub free_addresses : ℤ

-- A key is added to the map `allocatedAddresses`, of which only the keys are read.
unfoldable pub has_addr : Addr → List Addr → Bool
has_addr a [] = false
has_addr a (x ∷ xs) = addr_eq a x || has_addr a xs

unfoldable pub add_addr : Addr → List Addr → List Addr
unfolding has_addr
add_addr a xs = if has_addr a xs then xs else a ∷ xs

module _ (net : AddrText) (pool : Pool) where
  -- The address of an allocation, where it is in the pool.
  unfoldable pub matched_address : IpAllocation → Option Addr
  matched_address alloc =
      if str_eq alloc.status.address "" then none else elim (net.parse_addr alloc.status.address) [
        | none ↦ none
        | some a ↦ if is_valid a && contains_set (pool_addresses net pool) a then some a else none
      ]

  abbrev pub is_there : Option Addr → Bool
  is_there none = false
  is_there (some a) = true

  -- The three reasons to reconcile an allocation again.
  unfoldable pub has_to_update : Bool → Bool → IpAllocation → Bool
  unfolding matched_address phase_eq
  has_to_update is_new is_deleting alloc =
      let in_pool = is_there (matched_address alloc) in
      let matched_pool_name = str_eq alloc.spec.pool_name pool.name in
      let is_pending_in_pool =
        phase_eq alloc.status.phase pending
        && (matched_pool_name || str_eq alloc.spec.pool_name "") in
      (in_pool && is_deleting)
      || (matched_pool_name && not in_pool)
      || (is_new && is_pending_in_pool)

  -- The loop over the allocations: the keys of the map, from those of the rounds before.
  unfoldable pub allocated_from : List Addr → List IpAllocation → List Addr
  unfolding matched_address add_addr
  allocated_from seen [] = seen
  allocated_from seen (alloc ∷ allocs) = elim (matched_address alloc) [
    | none ↦ allocated_from seen allocs
    | some a ↦ allocated_from (add_addr a seen) allocs
  ]

  -- The counts of a pool that is not being deleted.
  unfoldable pub pool_counts : List IpAllocation → PoolCounts
  unfolding allocated_from sub
  pool_counts allocs =
      let total = count_set (pool_addresses net pool) pool.family in
      let allocated = length (allocated_from [] allocs) in
      record {
        total_addresses = total;
        allocated_addresses = allocated;
        free_addresses = sub total allocated;
      }
