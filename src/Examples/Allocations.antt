-- ===== src/Examples/Allocations.antt =====
-- Two allocations, one after the other, at concrete pools.
use mikrolb.Common.{eq_iff, ◌≡◌, ◌≢◌, refl, none, List, [], ◌∷◌, true, All, String}
use mathlib.Core.Bool.{false≢true}
use mikrolb.Net.{v4, less, compare_addr}
use mikrolb.IpRange.{count}
use mikrolb.IpRange.Iter.{iter}
use mikrolb.IpRange.Parse.{parse_ip_range}
use mikrolb.IpRangeSet.{merge, new_ip_range_set, subtract_set}
use mikrolb.IpRangeSet.Methods.{IsNormalSet}
use mikrolb.Expectations.{stage_allocation}
use mikrolb.Pool.{Pool, pool_addresses, collect}
use mikrolb.Pool.Admission.{pool_addresses-IsNormalSet}
use mikrolb.Allocator.{allocate_dynamic, granted, Grant, passes}
use mikrolb.Allocator.Distinct.{allocate_dynamic-distinct}
use mikrolb.Examples.{table, table-IsSound, pool_of, request, pending_at, fresh}

abbrev two_pools : List Pool
two_pools = pool_of "one" ("0.0.0.1" ∷ []) ∷ pool_of "nine" ("0.0.0.9" ∷ []) ∷ []

abbrev first_grant : Grant
first_grant = record {
  address = v4 1;
  pool_name = "one";
  advertised = true;
  interface_name = "bridge";
  staged = pending_at "a" 1 7;
}

abbrev second_grant : Grant
second_grant = record {
  address = v4 9;
  pool_name = "nine";
  advertised = true;
  interface_name = "bridge";
  staged = pending_at "b" 9 8;
}

first_granted :
    allocate_dynamic (λ ip. none) (request "a" "") 7 table fresh 12 two_pools
    ≡ (granted first_grant, (stage_allocation fresh (pending_at "a" 1 7)).0)
unfolding allocate_dynamic passes pool_addresses subtract_set collect parse_ip_range less
    compare_addr new_ip_range_set merge iter count stage_allocation
first_granted = refl

second_granted :
    allocate_dynamic
      (λ ip. none)
      (request "b" "")
      8
      table
      (stage_allocation fresh (pending_at "a" 1 7)).0
      12
      two_pools
    ≡ (
      granted second_grant,
      (stage_allocation (stage_allocation fresh (pending_at "a" 1 7)).0 (pending_at "b" 9 8)).0,
    )
unfolding allocate_dynamic passes pool_addresses subtract_set collect parse_ip_range less
    compare_addr new_ip_range_set merge iter count stage_allocation
second_granted = refl

two_pools-IsNormalSet : All (λ p. IsNormalSet (pool_addresses table p)) two_pools
two_pools-IsNormalSet = (
  pool_addresses-IsNormalSet table (pool_of "one" ("0.0.0.1" ∷ [])) table-IsSound,
  (pool_addresses-IsNormalSet table (pool_of "nine" ("0.0.0.9" ∷ [])) table-IsSound, tt),
)

names_differ : ◌≢◌ {A = String} "a" "b"
names_differ e = false≢true ((eq_iff "a" "b").1 e)

allocate_dynamic-distinct_example : v4 1 ≢ v4 9
allocate_dynamic-distinct_example =
    allocate_dynamic-distinct table (λ ip. none) (λ ip. none) (request "a" "") (request "b" "") 7 8
      12 12 two_pools two_pools fresh (stage_allocation fresh (pending_at "a" 1 7)).0
      (stage_allocation (stage_allocation fresh (pending_at "a" 1 7)).0 (pending_at "b" 9 8)).0
      first_grant second_grant two_pools-IsNormalSet two_pools-IsNormalSet first_granted
      second_granted names_differ
