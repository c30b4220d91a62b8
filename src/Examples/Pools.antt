-- ===== src/Examples/Pools.antt =====
-- The theorems of the pools, at concrete pools.
use mikrolb.Common.{
  ◌≡◌, ◌↔◌, refl, ok, false, some, [], ◌∷◌, All, trim_left, trim_right, trim_space, cut_at,
  strip_prefix,
}
use mikrolb.Net.{ipv4, less, compare_addr}
use mikrolb.IpRange.{new_ip_range}
use mikrolb.IpRange.Parse.{parse_ip_range, parse_range_body, parse_addr}
use mikrolb.IpRange.Accepted.{IsWellFormed, parse_ip_range-IsWellFormed}
use mikrolb.IpRangeSet.Methods.{Holds}
use mikrolb.Pool.{
  Pool, pool_addresses, validate, admitted, collect_entry, collect, parse_ip_pool_addresses,
  entry_errors, verdict, overlap_errors,
}
use mikrolb.Pool.Holds.{Included, Excluded, pool_addresses_exclude}
use mikrolb.Pool.Entries.{IsEntry}
use mikrolb.Pool.Admission.{
  ApartFromOthers, validate-admitted, written, Changes, none_yet, then_one, AllDisjoint,
  Changes-AllDisjoint,
}
use mikrolb.Examples.{table, table-IsSound, pool_of, range}

abbrev first : Pool
first = pool_of "first" ("0.0.0.0/29" ∷ "!0.0.0.5" ∷ [])

pool_addresses_exclude_example :
    (Holds (pool_addresses table first) ipv4 5 → ¬ Excluded table first 5)
    × (Included table first 5
        → ¬ Excluded table first 5
        → Holds (pool_addresses table first) ipv4 5)
pool_addresses_exclude_example = pool_addresses_exclude table first table-IsSound tt 5

parse_one : parse_ip_range table "0.0.0.1-0.0.0.5" false ≡ ok (range 1 5, false)
unfolding parse_ip_range parse_range_body parse_addr new_ip_range trim_space trim_left trim_right
    cut_at strip_prefix less compare_addr
parse_one = refl

parse_ip_range-IsWellFormed_example : IsWellFormed (range 1 5)
parse_ip_range-IsWellFormed_example =
    parse_ip_range-IsWellFormed table table-IsSound "0.0.0.1-0.0.0.5" false (range 1 5) false
      parse_one

validate-admitted_example :
    (validate table first (some (pool_of "other" ("0.0.0.9" ∷ []) ∷ [])) ≡ admitted) ↔ (
      All (IsEntry table first) first.addresses
      × ApartFromOthers table first (pool_of "other" ("0.0.0.9" ∷ []) ∷ []))
validate-admitted_example =
    validate-admitted table first (pool_of "other" ("0.0.0.9" ∷ []) ∷ []) table-IsSound

abbrev single : Pool
single = pool_of "single" ("0.0.0.9" ∷ [])

single-admitted : validate table single (some []) ≡ admitted
unfolding validate pool_addresses parse_ip_pool_addresses collect collect_entry entry_errors verdict
    overlap_errors parse_ip_range parse_range_body parse_addr new_ip_range trim_space trim_left
    trim_right cut_at strip_prefix less compare_addr
single-admitted = refl

one_written : Changes table [] (single ∷ [])
one_written = then_one none_yet (written single [] single-admitted)

Changes-AllDisjoint_example : AllDisjoint table (single ∷ [])
Changes-AllDisjoint_example = Changes-AllDisjoint table table-IsSound one_written
