-- ===== src/Expectations/Resolving.antt =====
-- Histories of calls of `IPAllocationExpectations`, and `Resolve` next to `Confirm`.
use mikrolb.Common.{ℕ, ◌≡◌, refl, ◌⊎◌, inl, none, List, [], ◌∷◌, String, arith}
use mikrolb.Net.{Addr}
use mikrolb.Net.Text.{AddrText}
use mikrolb.Allocation.{IpAllocation, Meta}
use mikrolb.Expectations.{
  Pending, Expectations, new_expectations, stage_allocation, unstage_allocation, stage_release,
  unstage_release, confirm, resolve,
}

-- No address has both a pending allocation and a pending release.
abbrev pub IsExclusive : Expectations → Type 0
IsExclusive e = (ip : Addr) → (e.pending_allocations ip ≡ none) ⊎ (e.pending_releases ip ≡ none)

-- The methods that change the expectations, with their arguments and the time of the call.
pub data Call : Type 0 where
  stages unstages : Pending → Call
  releases unreleases : Addr → ℕ → Call
  confirms : ℕ → List IpAllocation → Call

module _ (net : AddrText) (meta : Meta) where
  pub step : Expectations → Call → Expectations
  step e (stages a) = (stage_allocation e a).0
  step e (unstages a) = unstage_allocation e a
  step e (releases ip t) = stage_release e ip t
  step e (unreleases ip t) = unstage_release e ip t
  step e (confirms now allocs) = confirm net meta e now allocs

  pub run : Expectations → List Call → Expectations
  run e [] = e
  run e (c ∷ cs) = run (step e c) cs

  step-IsExclusive : (e : Expectations) (c : Call) → IsExclusive e → IsExclusive (step e c)
  unfolding step stage_allocation unstage_allocation stage_release unstage_release confirm
  step-IsExclusive e (stages a) h ip = ground (arith, h ip)
  step-IsExclusive e (unstages a) h ip = ground (arith, h ip)
  step-IsExclusive e (releases other t) h ip = ground (arith, h ip)
  step-IsExclusive e (unreleases other t) h ip = ground (arith, h ip)
  step-IsExclusive e (confirms now allocs) h ip = ground (arith, h ip)

  run-IsExclusive : (e : Expectations) (cs : List Call) → IsExclusive e → IsExclusive (run e cs)
  unfolding run
  run-IsExclusive e [] h = h
  run-IsExclusive e (c ∷ cs) h = run-IsExclusive (step e c) cs (step-IsExclusive e c h)

  -- After any history of calls, no address has both a pending allocation and a pending release.
  pub run-new-IsExclusive :
      (timeout : ℕ) (cs : List Call) → IsExclusive (run (new_expectations timeout) cs)
  unfolding new_expectations
  run-new-IsExclusive timeout cs = run-IsExclusive _ cs (λ ip. inl refl)

  -- Where pending allocations and releases exclude each other, `Confirm` changes nothing that
  -- `Resolve` reports for the same cache, for any caller.
  pub resolve-confirm :
      (e : Expectations) (now : ℕ) (allocs : List IpAllocation) (id : String) (ip : Addr)
      → IsExclusive e
      → resolve net meta (confirm net meta e now allocs) allocs id ip
        ≡ resolve net meta e allocs id ip
  unfolding resolve confirm
  resolve-confirm e now allocs id ip h = ground (arith, h ip)
