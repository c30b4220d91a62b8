-- ===== src/Expectations.antt =====
-- `IPAllocationExpectations` of internal/controller/ip_allocation_expectations.go. A Go map from
-- addresses is a function; a loop over a map whose rounds each concern their own key is the function
-- of the new values. Each method runs under the mutex, so a method is one step.
pub mod Staging
pub mod Resolving
use mikrolb.Common.{
  ℕ, Bool, true, false, not, ◌-◌, ◌&&◌, ltb, leb, ◌==◌, Option, none, some, List, [], ◌∷◌, String,
  str_eq, if◌then◌else◌,
}
use mikrolb.Net.{Addr, addr_eq}
use mikrolb.Net.Text.{AddrText}
use mikrolb.Allocation.{
  IpAllocation, Meta, Condition, allocated_type, ConditionStatus, status_true, status_false,
  status_unknown,
}

pub record Pending : Type 0 where
  pub id : String
  pub address : Addr
  pub allocated_at : ℕ

pub record Expectations : Type 0 where
  pub allocation_timeout : ℕ
  pub pending_allocations : Addr → Option Pending
  pub pending_releases : Addr → Option ℕ

unfoldable pub new_expectations : ℕ → Expectations
new_expectations alloc_timeout = record {
  allocation_timeout = alloc_timeout;
  pending_allocations = λ ip. none;
  pending_releases = λ ip. none;
}

-- `m[ip] = v`, and `delete(m, ip)` for `none`.
abbrev pub update {ℓ} : {V : Type ℓ} → (Addr → Option V) → Addr → Option V → Addr → Option V
update m ip v other = if addr_eq other ip then v else m other

-- An entry of another allocation.
abbrev pub of_other : Option Pending → String → Bool
of_other none id = false
of_other (some existing) id = not (str_eq existing.id id)

unfoldable pub stage_allocation : Expectations → Pending → Expectations × Bool
stage_allocation e alloc =
    if of_other (e.pending_allocations alloc.address) alloc.id then (e, false) else (
      record e {
        pending_allocations = update e.pending_allocations alloc.address (some alloc);
        pending_releases = update e.pending_releases alloc.address none;
      },
      true,
    )

abbrev pub is_same_pending : Option Pending → Pending → Bool
is_same_pending none alloc = false
is_same_pending (some existing) alloc =
    str_eq existing.id alloc.id && existing.allocated_at == alloc.allocated_at

unfoldable pub unstage_allocation : Expectations → Pending → Expectations
unstage_allocation e alloc =
    if is_same_pending (e.pending_allocations alloc.address) alloc
    then record e { pending_allocations = update e.pending_allocations alloc.address none }
    else e

-- A pending allocation made after the time.
abbrev pub is_after : Option Pending → ℕ → Bool
is_after none t = false
is_after (some p) t = ltb t p.allocated_at

unfoldable pub stage_release : Expectations → Addr → ℕ → Expectations
stage_release e ip release_time =
    if is_after (e.pending_allocations ip) release_time then e else record e {
      pending_allocations = update e.pending_allocations ip none;
      pending_releases = update e.pending_releases ip (some release_time);
    }

abbrev pub is_time : Option ℕ → ℕ → Bool
is_time none t = false
is_time (some t') t = t' == t

unfoldable pub unstage_release : Expectations → Addr → ℕ → Expectations
unstage_release e ip release_time =
    if is_time (e.pending_releases ip) release_time
    then record e { pending_releases = update e.pending_releases ip none }
    else e

-- The later of a time and one that may be there.
abbrev pub keep_later : Option ℕ → ℕ → Option ℕ
keep_later none t = some t
keep_later (some existing) t = if ltb existing t then some t else some existing

-- The loops of `Resolve` over the pending allocations and releases.
abbrev pub apply_pending : Option Pending → String → Option ℕ → Option ℕ
apply_pending none exclude_id result = result
apply_pending (some p) exclude_id result =
    if not (str_eq exclude_id "") && str_eq p.id exclude_id
    then result
    else keep_later result p.allocated_at

abbrev pub apply_release : Option ℕ → Option ℕ → Option ℕ
apply_release none result = result
apply_release (some release_time) none = none
apply_release (some release_time) (some t) = if ltb t release_time then none else some t

-- The loops of `Confirm`: what becomes of a pending release and of a pending allocation.
abbrev pub confirm_release : ℕ → ℕ → Option ℕ → Option ℕ → Option ℕ
confirm_release timeout now result none = none
confirm_release timeout now none (some release_time) =
    if ltb timeout (now - release_time) then none else some release_time
confirm_release timeout now (some t) (some release_time) =
    if ltb release_time t then none else some release_time

abbrev pub confirm_allocation : Option ℕ → Option Pending → Option Pending
confirm_allocation result none = none
confirm_allocation none (some p) = some p
confirm_allocation (some t) (some p) = if not (ltb t p.allocated_at) then none else some p

module _ (net : AddrText) (meta : Meta) where
  -- The address of an allocation and the time of its condition, where the loop does not skip it.
  unfoldable pub alloc_time : IpAllocation → Option (Addr × ℕ)
  alloc_time alloc =
      if str_eq alloc.status.address "" then none else elim (net.parse_addr alloc.status.address) [
        | none ↦ none
        | some address ↦ elim (meta.find_status_condition alloc.status.conditions allocated_type) [
          | none ↦ none
          | some condition ↦ elim condition.status [
            | status_true ↦ some (address, condition.last_transition_time)
            | status_false ↦ none
            | status_unknown ↦ none
          ]
        ]
      ]

  unfoldable pub add_time : (Addr → Option ℕ) → Option (Addr × ℕ) → Addr → Option ℕ
  add_time result none = result
  add_time result (some (address, t)) = update result address (keep_later (result address) t)

  unfoldable pub time_map_from : (Addr → Option ℕ) → List IpAllocation → Addr → Option ℕ
  unfolding add_time alloc_time
  time_map_from result [] = result
  time_map_from result (alloc ∷ allocs) = time_map_from (add_time result (alloc_time alloc)) allocs

  unfoldable pub build_alloc_time_map : List IpAllocation → Addr → Option ℕ
  unfolding time_map_from
  build_alloc_time_map allocs = time_map_from (λ ip. none) allocs

  unfoldable pub resolve : Expectations → List IpAllocation → String → Addr → Option ℕ
  unfolding build_alloc_time_map
  resolve e from_cache exclude_id ip =
      apply_release (e.pending_releases ip)
        (apply_pending (e.pending_allocations ip) exclude_id (build_alloc_time_map from_cache ip))

  unfoldable pub confirm : Expectations → ℕ → List IpAllocation → Expectations
  unfolding build_alloc_time_map
  confirm e now allocs = record e {
    pending_allocations =
        λ ip. confirm_allocation (build_alloc_time_map allocs ip) (e.pending_allocations ip);
    pending_releases = λ ip.
        confirm_release e.allocation_timeout now (build_alloc_time_map allocs ip)
          (e.pending_releases ip);
  }
