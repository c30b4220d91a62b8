-- ===== src/Allocator/Distinct.antt =====
-- Two dynamic allocations, one after the other.
use mathlib.Core.Bool.{false≢true}
use mikrolb.Common.{
  ℕ, ◌≡◌, ◌≢◌, refl, sym, ◌∙◌, ap, subst, Bool, true, not, Option, some, List, All,
}
use mikrolb.Net.{Addr}
use mikrolb.Net.Text.{AddrText}
use mikrolb.IpRangeSet.Methods.{IsNormalSet}
use mikrolb.Pool.{Pool, pool_addresses}
use mikrolb.Allocation.{IpAllocation}
use mikrolb.Expectations.{Expectations, of_other, stage_allocation}
use mikrolb.Expectations.Staging.{str_ne, addr_eq_self, stage_allocation-done, staged}
use mikrolb.Allocator.{granted, Grant, pending_for, allocate_dynamic}
use mikrolb.Allocator.Search.{Free, stage_yes}
use mikrolb.Allocator.Outcomes.{DynamicRight, allocate_dynamic-DynamicRight}

module _ (alloc : IpAllocation) (now : ℕ) (e : Expectations) (ip : Addr) where
  -- A staged address is pending for its allocation.
  stage-pending :
      (used : Addr → Option ℕ)
      → Free used alloc now e ip
      → (stage_allocation e (pending_for alloc now ip)).0.pending_allocations ip
        ≡ some (pending_for alloc now ip)
  unfolding staged
  stage-pending used free =
      ap (λ (r : Expectations × Bool). r.0.pending_allocations ip)
        (stage_allocation-done e (pending_for alloc now ip) (stage_yes used alloc now e ip free.1))
      ∙ rw (addr_eq_self ip) refl

-- If two dynamic allocations of different names are granted addresses one after the other, from
-- pools whose sets are normal and whatever addresses the second takes for used, the addresses
-- differ.
pub allocate_dynamic-distinct :
    (net : AddrText) (used1 used2 : Addr → Option ℕ) (alloc1 alloc2 : IpAllocation)
    (now1 now2 hash1 hash2 : ℕ) (pools1 pools2 : List Pool) (e e1 e2 : Expectations) (g1 g2 : Grant)
    → All (λ p. IsNormalSet (pool_addresses net p)) pools1
    → All (λ p. IsNormalSet (pool_addresses net p)) pools2
    → allocate_dynamic used1 alloc1 now1 net e hash1 pools1 ≡ (granted g1, e1)
    → allocate_dynamic used2 alloc2 now2 net e1 hash2 pools2 ≡ (granted g2, e2)
    → alloc1.name ≢ alloc2.name
    → g1.address ≢ g2.address
allocate_dynamic-distinct net used1 used2 alloc1 alloc2 now1 now2 hash1 hash2 pools1 pools2 e e1 e2
      g1 g2 n1 n2 r1 r2 names same =
    let (given1, free1, next1) =
      subst (DynamicRight used1 alloc1 now1 net e pools1) r1
        (allocate_dynamic-DynamicRight used1 alloc1 now1 net e hash1 pools1 n1) in
    let (given2, free2, next2) =
      subst (DynamicRight used2 alloc2 now2 net e1 pools2) r2
        (allocate_dynamic-DynamicRight used2 alloc2 now2 net e1 hash2 pools2 n2) in
    let held : e1.pending_allocations g2.address ≡ some (pending_for alloc1 now1 g1.address) =
      ap (λ a. e1.pending_allocations a) (sym same)
      ∙ ap (λ x. x.pending_allocations g1.address) next1
      ∙ stage-pending alloc1 now1 e g1.address used1 free1 in
    let other : of_other (e1.pending_allocations g2.address) alloc2.name ≡ true =
      ap (λ o. of_other o alloc2.name) held ∙ ap not (str_ne alloc1.name alloc2.name names) in
    false≢true (sym free2.1 ∙ other)
