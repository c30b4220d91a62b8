-- ===== src/IpRange.antt =====
-- `IPRange` of internal/core/ip_range.go: its constructor, the tests and the count. The parser and
-- the iterator are in child modules.
pub mod Bounds
pub mod Iter
pub mod Parse
pub mod Cidr
pub mod Prefix
pub mod Accepted
use mikrolb.Common.{ℕ, ◌+◌, ◌-◌, Bool, true, false, not, ◌&&◌, ◌==◌, Result, ok, err, if◌then◌else◌}
use mikrolb.Net.{
  Addr, IpFamily, get_ip_family, family_eq, bit_len, value, less, at_most, next_addr, prev_addr,
}

pub record IpRange : Type 0 where
  pub start : Addr
  pub end : Addr

pub data RangeError : Type 0 where
  mixed_families end_before_start : RangeError
  address_invalid prefix_invalid cidr_end_invalid cidr_too_small : RangeError

unfoldable pub new_ip_range : Addr → Addr → Result RangeError IpRange
new_ip_range start end =
    if not (bit_len start == bit_len end)
    then err mixed_families
    else if less end start
    then err end_before_start
    else ok (record { start = start; end = end })

abbrev pub ip_family : IpRange → IpFamily
ip_family r = get_ip_family r.start

unfoldable pub contains : IpRange → Addr → Bool
contains r addr = less (prev_addr r.start) addr && less addr (next_addr r.end)

unfoldable pub overlaps : IpRange → IpRange → Bool
overlaps r other =
    if not (family_eq (ip_family r) (ip_family other))
    then false
    else at_most r.start other.end && at_most other.start r.end

-- A `big.Int` in the source; it is positive for a range that `new_ip_range` accepts.
unfoldable pub count : IpRange → ℕ
count r = value r.end + 1 - value r.start
