-- ===== src/Reconcile/Handler.antt =====
-- `IPAllocationReconciler.Reconcile` as a whole (internal/controller/ip_allocation_reconciler.go).
-- Its three times, those of the release, of `Confirm` and of the staging, are arguments.
use mikrolb.Allocation.{IpAllocation, Meta}
use mikrolb.Allocator.{allocate}
use mikrolb.Common.{
  ℕ, zero, suc, ◌+◌, ◌*◌, Bool, not, Option, none, some, List, [], ◌∷◌, str_eq, if◌then◌else◌,
}
use mikrolb.Expectations.{Expectations, resolve, confirm}
use mikrolb.Net.Text.{AddrText}
use mikrolb.Pool.{Pool}
use mikrolb.Reconcile.{World, Texts, ReconcileError, reconcile_deleted, reconcile_outcome}
use mikrolb.RouterNames.{Digest}

-- What `Get` gives: the allocation, whether it has the finalizer, and whether it is being deleted.
pub data FetchedAllocation : Type 0 where
  allocation_missing allocation_get_failed : FetchedAllocation
  allocation_found : IpAllocation → Bool → Bool → FetchedAllocation

-- What the handler reads of the API server, and the write of the finalizer, as a parameter; the
-- pools are read directly, the allocations from the cache.
pub record AllocationReads (W : Type 0) : Type 0 where
  pub get_allocation : W → FetchedAllocation
  pub add_allocation_finalizer : W → IpAllocation → W × Bool
  pub list_pools : W → Option (List Pool)
  pub list_allocations : W → Option (List IpAllocation)

pub data HandlerError : Type 0 where
  allocation_not_read pools_not_listed allocations_not_read finalizer_not_added : HandlerError
  outcome_failed : ReconcileError → HandlerError

abbrev pub failed_with : Option ReconcileError → Option HandlerError
failed_with none = none
failed_with (some e) = some (outcome_failed e)

-- The allocations with another UID.
unfoldable pub other_allocations : IpAllocation → List IpAllocation → List IpAllocation
other_allocations alloc [] = []
other_allocations alloc (a ∷ rest) =
    let others = other_allocations alloc rest in
    if not (str_eq a.uid alloc.uid) then a ∷ others else others

-- The first bytes of a hash as a number, the first byte being the highest.
unfoldable pub bytes_value : ℕ → ℕ → List ℕ → ℕ
bytes_value result zero bytes = result
bytes_value result (suc n) [] = result
bytes_value result (suc n) (b ∷ bytes) = bytes_value (result * 256 + b) n bytes

module _ {W : Type 0} (world : World W) (reads : AllocationReads W) (net : AddrText) (meta : Meta)
    (texts : Texts) (digest : Digest) (release_time confirm_time stage_time : ℕ) where
  -- After the finalizer is there and both lists are read.
  unfoldable pub reconcile_listed :
      W
      → Expectations
      → IpAllocation
      → List Pool
      → List IpAllocation
      → W × Expectations × Option HandlerError
  unfolding confirm other_allocations resolve bytes_value allocate reconcile_outcome
  reconcile_listed w e alloc pools allocs =
      let confirmed = confirm net meta e confirm_time allocs in
      let used = resolve net meta confirmed (other_allocations alloc allocs) alloc.name in
      let start = bytes_value 0 16 (digest.sum256 alloc.name) in
      let (outcome, staged) = allocate used alloc stage_time net confirmed start pools in
      let (w', e', failed) = reconcile_outcome world net meta texts w staged alloc outcome in
      (w', e', failed_with failed)

  unfoldable pub reconcile_present :
      W → Expectations → IpAllocation → W × Expectations × Option HandlerError
  unfolding reconcile_listed
  reconcile_present w e alloc = elim (reads.list_pools w) [
    | none ↦ (w, e, some pools_not_listed)
    | some pools ↦ elim (reads.list_allocations w) [
      | none ↦ (w, e, some allocations_not_read)
      | some allocs ↦ reconcile_listed w e alloc pools allocs
    ]
  ]

  unfoldable pub reconcile_allocation : W → Expectations → W × Expectations × Option HandlerError
  unfolding reconcile_present reconcile_deleted
  reconcile_allocation w e = elim (reads.get_allocation w) [
    | allocation_missing ↦ (w, e, none)
    | allocation_get_failed ↦ (w, e, some allocation_not_read)
    | allocation_found alloc has_finalizer is_deleting ↦
        let (w1, e1, failed) = reconcile_deleted world net w e alloc has_finalizer release_time in
        let (w2, added) = reads.add_allocation_finalizer w alloc in
        if is_deleting
        then (w1, e1, failed_with failed)
        else if not has_finalizer
        then (w2, e, if added then none else some finalizer_not_added)
        else reconcile_present w e alloc
  ]
