-- ===== src/PoolStatus/Handler.antt =====
-- The handler of `IPPoolReconciler` (internal/controller/ip_pool_reconciler.go), with its calls of
-- the API server.
use mikrolb.Common.{Bool, true, false, not, Option, none, some, List, [], ◌∷◌, if◌then◌else◌}
use mikrolb.Net.Text.{AddrText}
use mikrolb.Pool.{Pool}
use mikrolb.Allocation.{IpAllocation}
use mikrolb.PoolStatus.{PoolCounts, has_to_update, pool_counts}

-- What `Get` gives: the pool, whether it has the finalizer, and whether it is being deleted.
pub data Fetched : Type 0 where
  not_found get_failed : Fetched
  fetched : Pool → Bool → Bool → Fetched

-- The writes to the API server and the list of allocations, as a parameter.
pub record PoolWorld (W : Type 0) : Type 0 where
  pub add_finalizer : W → Pool → W × Bool
  pub remove_pool_finalizer : W → Pool → W × Bool
  pub list_allocations : W → Option (List IpAllocation)
  pub annotate : W → IpAllocation → W × Bool
  pub write_counts : W → Pool → PoolCounts → W × Bool

module _ {W : Type 0} (world : PoolWorld W) (net : AddrText) where
  -- An allocation that was triggered before is left alone.
  unfoldable pub trigger_ip_allocation_update : W → IpAllocation → W × Bool
  trigger_ip_allocation_update w alloc =
      if alloc.update_triggered then (w, true) else world.annotate w alloc

  -- The loop over the allocations; it ends at the first failure.
  unfoldable pub trigger_all : Pool → Bool → Bool → W → List IpAllocation → W × Bool
  unfolding trigger_ip_allocation_update
  trigger_all pool is_new is_deleting w [] = (w, true)
  trigger_all pool is_new is_deleting w (alloc ∷ allocs) =
      let passed = trigger_all pool is_new is_deleting w allocs in
      let (w', done) = trigger_ip_allocation_update w alloc in
      let rest = trigger_all pool is_new is_deleting w' allocs in
      if not (has_to_update net pool is_new is_deleting alloc)
      then passed
      else if done
      then rest
      else (w', false)

  -- The last write: the finalizer is removed, or the counts are stored.
  unfoldable pub finish_pool : Pool → Bool → List IpAllocation → W → W × Bool
  finish_pool pool is_deleting allocs w =
      if is_deleting
      then world.remove_pool_finalizer w pool
      else world.write_counts w pool (pool_counts net pool allocs)

  -- After the finalizer is there.
  unfoldable pub reconcile_fetched : Pool → Bool → Bool → W → W × Bool
  unfolding trigger_all finish_pool
  reconcile_fetched pool is_new is_deleting w = elim (world.list_allocations w) [
    | none ↦ (w, false)
    | some allocs ↦
        let (w', done) = trigger_all pool is_new is_deleting w allocs in
        if done then finish_pool pool is_deleting allocs w' else (w', false)
  ]

  -- `Reconcile`: whether it returns without an error.
  unfoldable pub reconcile_pool : Fetched → W → W × Bool
  unfolding reconcile_fetched
  reconcile_pool not_found w = (w, true)
  reconcile_pool get_failed w = (w, false)
  reconcile_pool (fetched pool has_finalizer deletion_requested) w =
      let (w', added) = world.add_finalizer w pool in
      if has_finalizer
      then reconcile_fetched pool false deletion_requested w
      else if added
      then reconcile_fetched pool true deletion_requested w'
      else (w', false)
