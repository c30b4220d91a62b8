-- ===== src/Expectations/Staging.antt =====
-- The staging methods of `IPAllocationExpectations`, next to one another and to `Resolve`.
use mathlib.Core.Bool.{false≢true}
use mikrolb.Common.{
  ℕ, ◌<◌, ◌≤◌, ◌≡◌, ◌≢◌, refl, sym, ◌∙◌, ◌⊎◌, inl, inr, Bool, true, false, not, Option, none, some,
  List, String, str_eq, eq_iff, Bool-cases, max, ◌&&◌, if◌then◌else◌, arith, ap,
}
use mikrolb.Net.{Addr, addr_eq, invalid, v4, v6}
use mikrolb.Net.Text.{AddrText}
use mikrolb.Allocation.{IpAllocation, Meta}
use mikrolb.Expectations.{
  Pending, Expectations, update, of_other, stage_allocation, is_after, stage_release,
  build_alloc_time_map, resolve, keep_later, apply_release,
}

pub addr_eq_self : (a : Addr) → addr_eq a a ≡ true
addr_eq_self invalid = refl
addr_eq_self (v4 n) = ground arith
addr_eq_self (v6 n) = ground arith

pub addr_eq→≡ : (a b : Addr) → addr_eq a b ≡ true → a ≡ b
addr_eq→≡ invalid invalid h = refl
addr_eq→≡ (v4 n) (v4 m) h = ground arith
addr_eq→≡ (v6 n) (v6 m) h = ground arith
addr_eq→≡ _ _ h = absurd (false≢true h)

module _ (e : Expectations) (a : Pending) where
  unfoldable pub staged : Expectations
  staged = record e {
    pending_allocations = update e.pending_allocations a.address (some a);
    pending_releases = update e.pending_releases a.address none;
  }

  stage_allocation-cases :
      ((of_other (e.pending_allocations a.address) a.id ≡ true)
        × (stage_allocation e a ≡ (e, false)))
      ⊎ ((of_other (e.pending_allocations a.address) a.id ≡ false)
          × (stage_allocation e a ≡ (staged, true)))
  unfolding stage_allocation staged
  stage_allocation-cases = elim (Bool-cases (of_other (e.pending_allocations a.address) a.id)) [
    | inl h ↦ inl (h, rw (h, stage_allocation))
    | inr h ↦ inr (h, rw (h, stage_allocation))
  ]

  pub stage_allocation-done :
      (stage_allocation e a).1 ≡ true → stage_allocation e a ≡ (staged, true)
  stage_allocation-done done = elim stage_allocation-cases [
    | inl (_, h) ↦ absurd (false≢true (sym (ap (λ (r : Expectations × Bool). r.1) h) ∙ done))
    | inr (_, h) ↦ h
  ]

pub keep_later_lem : (t u : ℕ) → keep_later (some t) u ≡ some (max t u)
keep_later_lem t u = ground arith

pub str_ne : (a b : String) → a ≢ b → str_eq a b ≡ false
str_ne a b h = elim (Bool-cases (str_eq a b)) [
  | inl same ↦ absurd (h ((eq_iff a b).0 same))
  | inr other ↦ other
]

-- After an address was staged for one allocation, staging it for another fails and changes
-- nothing.
pub stage_allocation-exclusive :
    (e : Expectations) (a b : Pending)
    → (stage_allocation e a).1 ≡ true
    → b.address ≡ a.address
    → a.id ≢ b.id
    → stage_allocation (stage_allocation e a).0 b ≡ ((stage_allocation e a).0, false)
unfolding staged
stage_allocation-exclusive e a b done same other =
    let taken : of_other ((staged e a).pending_allocations b.address) b.id ≡ true =
      rw (same, addr_eq_self a.address, str_ne a.id b.id other) in
    rw (stage_allocation-done e a done) (elim (stage_allocation-cases (staged e a) b) [
      | inl (_, h) ↦ h
      | inr (free, _) ↦ absurd (false≢true (sym free ∙ taken))
    ])

-- A staged address is used for every allocation of another name, whatever the cache shows, and
-- not from a time before its staging.
pub stage_allocation-resolve :
    (net : AddrText) (meta : Meta) (e : Expectations) (a : Pending) (allocs : List IpAllocation)
    (id : String)
    → (stage_allocation e a).1 ≡ true
    → a.id ≢ id
    → (t : ℕ) × (resolve net meta (stage_allocation e a).0 allocs id a.address ≡ some t)
      × (a.allocated_at ≤ t)
unfolding staged resolve
stage_allocation-resolve net meta e a allocs id done other =
    rw (stage_allocation-done e a done, resolve, addr_eq_self a.address, str_ne a.id id other)
      (later (build_alloc_time_map net meta allocs a.address) (not (str_eq id "")))
  where
    later :
        (r : Option ℕ) (b : Bool)
        → (t : ℕ) × (apply_release none (if b && false then r else keep_later r a.allocated_at)
            ≡ some t)
          × (a.allocated_at ≤ t)
    later none true = (a.allocated_at, refl, omega arith)
    later none false = (a.allocated_at, refl, omega arith)
    later (some t) true = (max t a.allocated_at, keep_later_lem t a.allocated_at, omega arith)
    later (some t) false = (max t a.allocated_at, keep_later_lem t a.allocated_at, omega arith)

-- A release that is not older than the pending allocation hides every cached allocation that is
-- older than it.
pub stage_release-resolve :
    (net : AddrText) (meta : Meta) (e : Expectations) (ip : Addr) (release_time : ℕ)
    (allocs : List IpAllocation) (id : String)
    → is_after (e.pending_allocations ip) release_time ≡ false
    → ((t : ℕ) → build_alloc_time_map net meta allocs ip ≡ some t → t < release_time)
    → resolve net meta (stage_release e ip release_time) allocs id ip ≡ none
unfolding stage_release resolve
stage_release-resolve net meta e ip release_time allocs id fresh older =
    rw (fresh, addr_eq_self ip) (hidden (build_alloc_time_map net meta allocs ip) older)
  where
    hidden :
        (r : Option ℕ)
        → ((t : ℕ) → r ≡ some t → t < release_time)
        → apply_release (some release_time) r ≡ none
    hidden none h = refl
    hidden (some t) h = ground (arith, h t refl)
