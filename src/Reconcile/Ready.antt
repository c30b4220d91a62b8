-- ===== src/Reconcile/Ready.antt =====
-- The conditions that `IPAllocationReconciler.Reconcile` sets, and what it returns.
use mikrolb.Common.{◌≡◌, ◌↔◌, refl, inl, inr, Bool, none, String, Bool-cases, Result, ok, err}
use mikrolb.Net.Text.{AddrText}
use mikrolb.Allocation.{IpAllocation, AllocationStatus, Meta, programmed, status_true}
use mikrolb.Allocator.{Outcome, Grant, denied, granted}
use mikrolb.Reconcile.{World, Texts, Programming, program, reported, advertised_programming}

module _ {W : Type 0} (world : World W) (net : AddrText) (meta : Meta) (texts : Texts) (w : W)
    (alloc : IpAllocation) (status : AllocationStatus) (changed : Bool) where
  -- How a programming's conditions and phase agree with what is reported.
  abbrev pub Agrees : Outcome → Programming → Type 0
  Agrees outcome p =
      ((p.ready_condition.status ≡ status_true)
        ↔ (reported world net meta texts alloc outcome p ≡ none))
      × (p.programmed_condition.status ≡ status_true
          → (p.ready_condition.status ≡ status_true) × (p.status.phase ≡ programmed))

  advertised-Agrees :
      (g : Grant) (answer : Result String String)
      → Agrees
          (granted g)
          (advertised_programming world net meta texts alloc.generation status changed answer)
  unfolding reported advertised_programming
  advertised-Agrees g (ok interface) = ((λ h. refl, λ h. refl), λ h. (refl, refl))
  advertised-Agrees g (err message) = ((λ h. absurd (cc), λ h. absurd (cc)), λ h. absurd (cc))

  -- The ready condition is true exactly if no error is reported; and where the programmed condition
  -- is true, so is the ready condition, and the phase is `Programmed`.
  pub program-Agrees :
      (outcome : Outcome)
      → Agrees outcome (program world net meta texts w alloc outcome status changed).1
  unfolding program reported advertised_programming
  program-Agrees (denied d) = ((λ h. absurd (cc), λ h. absurd (cc)), λ h. absurd (cc))
  program-Agrees (granted g) = elim (Bool-cases g.advertised) [
    | inr quiet ↦ rw (quiet, program) ((λ h. refl, λ h. refl), λ h. absurd (cc))
    | inl loud ↦
        rw (loud, program)
          (advertised-Agrees g (world.ensure_ip_advertisement w g.address g.interface_name).1)
  ]
