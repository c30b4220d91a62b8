-- ===== src/Reconcile.antt =====
-- The rest of `IPAllocationReconciler.Reconcile` (internal/controller/ip_allocation_reconciler.go):
-- the clean-up of a deleted allocation, and the status that an allocation's outcome leads to.
use mikrolb.Common.{
  ℕ, Bool, true, false, not, ◌&&◌, ◌||◌, Option, none, some, String, str_eq, Result, ok, err,
  if◌then◌else◌,
}
use mikrolb.Net.{Addr, invalid, is_valid}
use mikrolb.Net.Text.{AddrText}
use mikrolb.Allocation.{
  Phase, pending, allocated, programmed, failed, ConditionType, ready_type, allocated_type,
  programmed_type, ConditionStatus, status_true, status_false, Condition, AllocationStatus,
  IpAllocation, Meta,
}
use mikrolb.Expectations.{Pending, Expectations, stage_release, unstage_release, unstage_allocation}
use mikrolb.Allocator.{
  Denial, address_invalid, address_already_used, address_not_in_pool, pool_not_found,
  pool_family_mismatch, pool_exhausted, Grant, Outcome, denied, granted,
}
pub mod Undone
pub mod Ready
pub mod Handler

-- The calls that leave the controller, as a parameter: the backend's, with what they fail with, and
-- the two writes to the API server, which succeed or not. `W` is the world that they change.
pub record World (W : Type 0) : Type 0 where
  pub ensure_ip_advertisement : W → Addr → String → W × Result String String
  pub delete_ip_advertisement : W → Addr → W × Bool
  pub remove_finalizer : W → IpAllocation → W × Bool
  pub update_status : W → IpAllocation → W × Bool

-- The texts that are formatted with `fmt` and `strings`, as a parameter. `capitalize` is
-- `strings.ToUpper(msg[:1]) + msg[1:]`, which panics on an empty message: the message of an error is
-- taken not to be empty.
pub record Texts : Type 0 where
  pub denial_message : IpAllocation → Denial → String
  pub allocated_message : Addr → String → String
  pub capitalize : String → String

pub data ReconcileError : Type 0 where
  status_address_invalid advertisement_not_deleted patch_failed update_failed : ReconcileError
  allocation_failed programming_failed : String → ReconcileError

unfoldable pub phase_eq : Phase → Phase → Bool
phase_eq pending pending = true
phase_eq allocated allocated = true
phase_eq programmed programmed = true
phase_eq failed failed = true
phase_eq _ _ = false

module _ {W : Type 0} (world : World W) (net : AddrText) where
  -- The release is staged, the finalizer is removed, and a failure takes the release back.
  unfoldable pub release_address :
      W → Expectations → IpAllocation → ℕ → Addr → W × Expectations × Option ReconcileError
  release_address w e alloc release_time ip =
      let staged = if is_valid ip then stage_release e ip release_time else e in
      let (w', done) = world.remove_finalizer w alloc in
      if done
      then (w', staged, none)
      else (w', unstage_release staged ip release_time, some patch_failed)

  -- An address that was advertised is cleaned up first.
  unfoldable pub clean_up :
      W → Expectations → IpAllocation → ℕ → Addr → W × Expectations × Option ReconcileError
  unfolding release_address
  clean_up w e alloc release_time ip =
      let (w', deleted) = world.delete_ip_advertisement w ip in
      if deleted
      then release_address w' e alloc release_time ip
      else (w', e, some advertisement_not_deleted)

  -- The branch of an allocation that is being deleted.
  unfoldable pub reconcile_deleted :
      W → Expectations → IpAllocation → Bool → ℕ → W × Expectations × Option ReconcileError
  unfolding clean_up release_address phase_eq
  reconcile_deleted w e alloc has_finalizer release_time =
      if not has_finalizer
      then (w, e, none)
      else if phase_eq alloc.status.phase allocated || phase_eq alloc.status.phase programmed
      then elim (net.parse_addr alloc.status.address) [
        | none ↦ (w, e, some status_address_invalid)
        | some ip ↦ clean_up w e alloc release_time ip
      ]
      else release_address w e alloc release_time invalid

unfoldable pub denial_reason : Denial → String
denial_reason address_invalid = "AddressInvalid"
denial_reason (address_already_used ip) = "AddressAlreadyUsed"
denial_reason (address_not_in_pool ip) = "AddressNotInPool"
denial_reason pool_not_found = "PoolNotFound"
denial_reason pool_family_mismatch = "PoolIPFamilyMismatch"
denial_reason pool_exhausted = "PoolExhausted"

-- A condition as the code fills it; the time is left to the helper that stores it.
abbrev pub condition : ConditionType → ConditionStatus → String → String → ℕ → Condition
condition type status reason message generation = record {
  type = type;
  status = status;
  reason = reason;
  message = message;
  observed_generation = generation;
  last_transition_time = 0;
}

-- What the programming of an allocated address gives: the status, whether it changed, the two
-- conditions, and the message of a failure.
pub record Programming : Type 0 where
  pub status : AllocationStatus
  pub changed : Bool
  pub programmed_condition : Condition
  pub ready_condition : Condition
  pub failure : Option String

module _ {W : Type 0} (world : World W) (net : AddrText) (meta : Meta) (texts : Texts) where
  unfoldable pub allocated_condition : IpAllocation → Outcome → Condition
  unfolding denial_reason
  allocated_condition alloc (denied d) =
      condition allocated_type status_false (denial_reason d) (texts.denial_message alloc d)
        alloc.generation
  allocated_condition alloc (granted g) =
      condition allocated_type status_true "Success" (texts.allocated_message g.address g.pool_name)
        0

  -- The status fields after the allocation phase, and whether they changed.
  unfoldable pub allocated_status : AllocationStatus → Outcome → AllocationStatus × Bool
  unfolding phase_eq
  allocated_status status (denied d) =
      if not (phase_eq status.phase failed)
      then (
        record status { phase = failed; address = ""; advertised = false; interface_name = "" },
        true,
      )
      else (status, false)
  allocated_status status (granted g) =
      if not (phase_eq status.phase allocated)
        || not (str_eq status.address (net.addr_string g.address))
      then (
        record status {
          phase = allocated;
          address = net.addr_string g.address;
          advertised = g.advertised;
          interface_name = g.interface_name;
        },
        true,
      )
      else (status, false)

  -- The answer of `EnsureIPAdvertisement` becomes the conditions.
  unfoldable pub advertised_programming :
      ℕ → AllocationStatus → Bool → Result String String → Programming
  advertised_programming generation status changed (err message) = record {
    status = status;
    changed = changed;
    programmed_condition =
        condition programmed_type status_false "BackendError" (texts.capitalize message) generation;
    ready_condition = condition ready_type status_false "BackendError" message generation;
    failure = some message;
  }
  advertised_programming generation status changed (ok interface) = record {
    status = record status { phase = programmed; advertised = true; interface_name = interface };
    changed = true;
    programmed_condition =
        condition programmed_type status_true "Configured" "Advertised on RouterOS" generation;
    ready_condition =
        condition ready_type status_true "AllocatedAndProgrammed"
          "Address is allocated and advertised" generation;
    failure = none;
  }

  unfoldable pub program : W → IpAllocation → Outcome → AllocationStatus → Bool → W × Programming
  unfolding denial_reason advertised_programming
  program w alloc (denied d) status changed = (
    w,
    record {
      status = status;
      changed = changed;
      programmed_condition =
          condition programmed_type status_false "NotAllocated" "Waiting for address allocation"
            alloc.generation;
      ready_condition =
          condition ready_type status_false (denial_reason d) (texts.denial_message alloc d)
            alloc.generation;
      failure = none;
    },
  )
  program w alloc (granted g) status changed =
      let (w1, answer) = world.ensure_ip_advertisement w g.address g.interface_name in
      let (w2, deleted) = world.delete_ip_advertisement w g.address in
      if g.advertised
      then (w1, advertised_programming alloc.generation status changed answer)
      else (
        w2,
        record {
          status = record status { phase = allocated };
          changed = true;
          programmed_condition =
              condition programmed_type status_false "NotAdvertised"
                "Address is not advertised according to pool configuration" alloc.generation;
          ready_condition =
              condition ready_type status_true "AllocatedButNotAdvertised"
                "Address is allocated but not advertised" alloc.generation;
          failure = none;
        },
      )

  -- The error that a status which was written leads to.
  unfoldable pub reported : IpAllocation → Outcome → Programming → Option ReconcileError
  reported alloc (denied d) p = some (allocation_failed (texts.denial_message alloc d))
  reported alloc (granted g) p = elim p.failure [
    | none ↦ none
    | some message ↦ some (programming_failed message)
  ]

  -- What was staged is taken back.
  unfoldable pub unstage_outcome : Expectations → Outcome → Expectations
  unstage_outcome e (denied d) = e
  unstage_outcome e (granted g) = unstage_allocation e g.staged

  -- The status with its three conditions, and whether it has to be written.
  unfoldable pub new_status : W → IpAllocation → Outcome → W × Programming × AllocationStatus × Bool
  unfolding allocated_condition allocated_status program
  new_status w alloc outcome =
      let (status, changed) = allocated_status alloc.status outcome in
      let (conditions1, changed1) =
        meta.set_status_condition status.conditions (allocated_condition alloc outcome) in
      let (w', p) =
        program w alloc outcome (record status { conditions = conditions1 })
          (changed || changed1) in
      let (conditions2, changed2) =
        meta.set_status_condition p.status.conditions p.programmed_condition in
      let (conditions3, changed3) = meta.set_status_condition conditions2 p.ready_condition in
      (w', p, record p.status { conditions = conditions3 }, p.changed || changed2 || changed3)

  -- The status is written if something changed, and a failure takes back what was staged.
  unfoldable pub write_back :
      W
      → Expectations
      → IpAllocation
      → Outcome
      → Programming
      → AllocationStatus
      → Bool
      → W × Expectations × Option ReconcileError
  unfolding reported unstage_outcome
  write_back w e alloc outcome p status changed =
      let (w', written) = world.update_status w (record alloc { status = status }) in
      if not changed
      then (w, e, reported alloc outcome p)
      else if written
      then (w', e, reported alloc outcome p)
      else (w', unstage_outcome e outcome, some update_failed)

  -- The end of `Reconcile`, from the outcome of the allocation on.
  unfoldable pub reconcile_outcome :
      W → Expectations → IpAllocation → Outcome → W × Expectations × Option ReconcileError
  unfolding new_status write_back
  reconcile_outcome w e alloc outcome =
      let (w', p, status, changed) = new_status w alloc outcome in
      write_back w' e alloc outcome p status changed
