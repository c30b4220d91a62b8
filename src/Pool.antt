-- ===== src/Pool.antt =====
-- Address pools: the fields of `IPPool` that the controllers read (api/v1alpha1/ippool_types.go),
-- `ParseIPPoolAddresses` of internal/controller/ip_pool.go, and the admission webhook of
-- internal/controller/ip_pool_webhook.go.
pub mod Addresses
pub mod Holds
pub mod Entries
pub mod Admission
use mikrolb.Common.{
  ℕ, zero, suc, ◌+◌, Bool, true, false, not, ltb, List, [], ◌∷◌, ◌++◌, length, Option, none, some,
  String, str_eq, Result, ok, err, if◌then◌else◌,
}
use mikrolb.Net.{IpFamily, family_eq}
use mikrolb.Net.Text.{AddrText}
use mikrolb.IpRange.{IpRange, RangeError, ip_family}
use mikrolb.IpRange.Parse.{parse_ip_range}
use mikrolb.IpRangeSet.{IpRangeSet, new_ip_range_set, subtract_set, intersections, ranges}

pub record Pool : Type 0 where
  pub name : String
  pub family : IpFamily
  pub addresses : List String
  pub auto_assign : Bool
  pub avoid_buggy_ips : Bool
  pub advertise : Bool
  pub interface_name : String

pub data EntryError : Type 0 where
  range_error : RangeError → EntryError
  family_mismatch : IpFamily → EntryError

-- What the loop collects: `ipRanges`, `ipRangesExcluded` and `errors`.
pub record Collected : Type 0 where
  pub included : List IpRange
  pub excluded : List IpRange
  pub errors : List (Option EntryError)

-- One round of the loop, in front of what the later rounds append.
unfoldable pub collect_entry : IpFamily → Result RangeError (IpRange × Bool) → Collected → Collected
collect_entry family (err e) rest = record rest { errors = some (range_error e) ∷ rest.errors }
collect_entry family (ok (r, is_excluded)) rest =
    if not (family_eq (ip_family r) family)
    then record rest { errors = some (family_mismatch (ip_family r)) ∷ rest.errors }
    else if is_excluded
    then record rest { excluded = r ∷ rest.excluded; errors = none ∷ rest.errors }
    else record rest { included = r ∷ rest.included; errors = none ∷ rest.errors }

module _ (net : AddrText) where
  unfoldable pub collect : List String → IpFamily → Bool → Collected
  unfolding collect_entry
  collect [] family edges = record { included = []; excluded = []; errors = [] }
  collect (s ∷ ss) family edges =
      collect_entry family (parse_ip_range net s edges) (collect ss family edges)

  unfoldable pub parse_ip_pool_addresses :
      List String → IpFamily → Bool → IpRangeSet × List (Option EntryError)
  parse_ip_pool_addresses addresses family edges =
      let c = collect addresses family edges in
      (subtract_set (new_ip_range_set c.included) c.excluded, c.errors)

  -- The set of a pool, with any errors ignored.
  unfoldable pub pool_addresses : Pool → IpRangeSet
  unfolding parse_ip_pool_addresses
  pool_addresses p = (parse_ip_pool_addresses p.addresses p.family p.avoid_buggy_ips).0

-- What the webhook reports: a bad entry with its index, or an overlap with another pool.
pub data FieldError : Type 0 where
  entry_invalid : ℕ → EntryError → FieldError
  overlaps_pool : String → FieldError

pub data Verdict : Type 0 where
  admitted internal_error : Verdict
  invalid_pool : List FieldError → Verdict

unfoldable pub entry_errors : ℕ → List (Option EntryError) → List FieldError
entry_errors i [] = []
entry_errors i (none ∷ es) = entry_errors (suc i) es
entry_errors i (some e ∷ es) = entry_invalid i e ∷ entry_errors (suc i) es

-- `len(allErrs) > 0` refuses the pool.
unfoldable pub verdict : List FieldError → Verdict
verdict [] = admitted
verdict (e ∷ es) = invalid_pool (e ∷ es)

module _ (net : AddrText) where
  -- The loop over the existing pools.
  unfoldable pub overlap_errors : Pool → IpRangeSet → List Pool → List FieldError
  overlap_errors pool addresses [] = []
  overlap_errors pool addresses (existing ∷ pools) =
      let rest = overlap_errors pool addresses pools in
      if str_eq existing.name pool.name
      then rest
      else if ltb 0 (length (ranges (intersections addresses (pool_addresses net existing))))
      then overlaps_pool existing.name ∷ rest
      else rest

  -- `validate`; `none`: the existing pools could not be listed.
  unfoldable pub validate : Pool → Option (List Pool) → Verdict
  unfolding overlap_errors entry_errors verdict pool_addresses
  validate pool none = internal_error
  validate pool (some pools) =
      let (addresses, errors) =
        parse_ip_pool_addresses net pool.addresses pool.family pool.avoid_buggy_ips in
      verdict (entry_errors 0 errors ++ overlap_errors pool addresses pools)

  unfoldable pub validate_create : Pool → Option (List Pool) → Verdict
  unfolding validate
  validate_create pool pools = validate pool pools

  unfoldable pub validate_update : Pool → Pool → Option (List Pool) → Verdict
  unfolding validate
  validate_update old new pools = validate new pools

  unfoldable pub validate_delete : Pool → Verdict
  validate_delete pool = admitted
