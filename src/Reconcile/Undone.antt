-- ===== src/Reconcile/Undone.antt =====
-- What `IPAllocationReconciler.Reconcile` does with a staged address where a write fails.
use mathlib.Core.Bool.{false≢true}
use mikrolb.Common.{
  Option-cases, ℕ, ◌≡◌, refl, inl, inr, Bool, true, false, Option, none, some, eq_iff, Bool-cases,
  ap, arith,
}
use mikrolb.Net.{Addr}
use mikrolb.Net.Text.{AddrText}
use mikrolb.Allocation.{IpAllocation, AllocationStatus, Meta}
use mikrolb.Expectations.{
  Pending, Expectations, is_same_pending, unstage_allocation, is_time, unstage_release,
}
use mikrolb.Expectations.Staging.{addr_eq_self}
use mikrolb.Allocator.{granted, Grant}
use mikrolb.Reconcile.{
  World, Texts, ReconcileError, update_failed, patch_failed, reported, new_status, unstage_outcome,
  reconcile_outcome, write_back, release_address, Programming,
}

abbrev is_some : {A : Type 0} → Option A → Bool
is_some none = false
is_some (some x) = true

abbrev is_update_failed : Option ReconcileError → Bool
is_update_failed (some update_failed) = true
is_update_failed _ = false

is_same_pending_self : (a : Pending) → is_same_pending (some a) a ≡ true
is_same_pending_self a = rw ((eq_iff a.id a.id).1 refl) (ground arith)

unstage_allocation-empty :
    (e : Expectations) (a : Pending)
    → e.pending_allocations a.address ≡ some a
    → (unstage_allocation e a).pending_allocations a.address ≡ none
unfolding unstage_allocation
unstage_allocation-empty e a h =
    rw (h, unstage_allocation)
      (rw (is_same_pending_self a, unstage_allocation) (rw (addr_eq_self a.address) refl))

unstage_release-gone :
    (e : Expectations) (ip : Addr) (t : ℕ)
    → is_time ((unstage_release e ip t).pending_releases ip) t ≡ false
unfolding unstage_release
unstage_release-gone e ip t = elim (Bool-cases (is_time (e.pending_releases ip) t)) [
  | inl same ↦ rw (same, unstage_release) (rw (addr_eq_self ip) refl)
  | inr other ↦ rw (other, unstage_release) other
]

module _ {W : Type 0} (world : World W) (net : AddrText) (meta : Meta) (texts : Texts) (w : W)
    (e : Expectations) (alloc : IpAllocation) where
  reported_other :
      (g : Grant) (p : Programming)
      → ¬ (reported world net meta texts alloc (granted g) p ≡ some update_failed)
  unfolding reported
  reported_other g p h = elim (Option-cases p.failure) [
    | inl fine ↦ absurd (false≢true (ap is_update_failed (rw (fine, reported) at h)))
    | inr (m, bad) ↦ absurd (false≢true (ap is_update_failed (rw (bad, reported) at h)))
  ]

  write_back-unstages :
      (w1 : W) (g : Grant) (p : Programming) (status : AllocationStatus) (changed : Bool)
      → e.pending_allocations g.staged.address ≡ some g.staged
      → (write_back world net meta texts w1 e alloc (granted g) p status changed).2
        ≡ some update_failed
      → (write_back world net meta texts w1 e alloc
            (granted g)
            p
            status
            changed).1.pending_allocations
          g.staged.address
        ≡ none
  unfolding write_back unstage_outcome
  write_back-unstages w1 g p status false staged failed = absurd (reported_other g p failed)
  write_back-unstages w1 g p status true staged failed =
      elim (Bool-cases (world.update_status w1 (record alloc { status = status })).1) [
        | inl written ↦ absurd (reported_other g p (rw (written, write_back) at failed))
        | inr lost ↦ rw (lost, write_back) (unstage_allocation-empty e g.staged staged)
      ]

  -- If the status of a granted allocation cannot be written, the address is not pending any more.
  pub reconcile_outcome-unstages :
      (g : Grant)
      → e.pending_allocations g.staged.address ≡ some g.staged
      → (reconcile_outcome world net meta texts w e alloc (granted g)).2 ≡ some update_failed
      → (reconcile_outcome world net meta texts w e alloc (granted g)).1.pending_allocations
          g.staged.address
        ≡ none
  unfolding reconcile_outcome unstage_outcome
  reconcile_outcome-unstages g staged failed =
      let (w1, p, status, changed) = new_status world net meta texts w alloc (granted g) in
      write_back-unstages w1 g p status changed staged failed

  -- If the finalizer cannot be removed, no release of this time is pending for the address.
  pub release_address-unstages :
      (t : ℕ) (ip : Addr)
      → (release_address world net w e alloc t ip).2 ≡ some patch_failed
      → is_time ((release_address world net w e alloc t ip).1.pending_releases ip) t ≡ false
  unfolding release_address
  release_address-unstages t ip failed = elim (Bool-cases (world.remove_finalizer w alloc).1) [
    | inl done ↦ absurd (false≢true (ap is_some (rw (done, release_address) at failed)))
    | inr failed ↦ rw (failed, release_address) (unstage_release-gone _ ip t)
  ]
