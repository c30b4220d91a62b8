-- ===== src/IpRange/Parse.antt =====
-- `ParseIPRange` of internal/core/ip_range.go: an address, two addresses with `-`, or a prefix,
-- each with or without a `!`.
use Prim.Native.Nat.{bit_or}
use mikrolb.Common.{
  ℕ, zero, suc, ◌+◌, ◌-◌, ◌*◌, ◌/◌, ◌%◌, ◌^◌, Bool, true, false, not, ◌||◌, ◌==◌, leb, none, some,
  List, [], ◌∷◌, String, Result, ok, err, ◌>>=◌, if◌then◌else◌, trim_space, cut_at, strip_prefix,
}
use mikrolb.Net.{Addr, value, bit_len, addr_from, is_valid, less, next_addr, prev_addr}
use mikrolb.Net.Text.{AddrText}
use mikrolb.IpRange.{
  IpRange, RangeError, address_invalid, prefix_invalid, cidr_end_invalid, cidr_too_small,
  new_ip_range,
}

-- The bytes of an address from the last one on, which is the order in which the loop meets them.
unfoldable pub bytes_back : ℕ → ℕ → List ℕ
bytes_back zero n = []
bytes_back (suc len) n = (n % 256) ∷ bytes_back len (n / 256)

unfoldable pub from_bytes_back : List ℕ → ℕ
from_bytes_back [] = 0
from_bytes_back (b ∷ bs) = b + 256 * from_bytes_back bs

-- `prefix.Masked().Addr()`: the host bits are cleared.
unfoldable pub masked : Addr → ℕ → Addr
masked a bits = addr_from (bit_len a) (value a / 2 ^ (bit_len a - bits) * 2 ^ (bit_len a - bits))

-- The loop that sets the last `count` bits: `endS[j]`, `endS[j-1]`, …
unfoldable pub fill_host : List ℕ → ℕ → List ℕ
fill_host [] count = []
fill_host (b ∷ bs) count =
    let whole = 0xff ∷ fill_host bs (count - 8) in
    if count == 0
    then b ∷ bs
    else if leb 8 count
    then whole
    else bit_or b (0xff / 2 ^ (8 - count)) ∷ bs

unfoldable pub cidr_end : Addr → ℕ → Addr
unfolding bytes_back from_bytes_back fill_host
cidr_end start bits = addr_from (bit_len start) (
    from_bytes_back
      (fill_host (bytes_back (bit_len start / 8) (value start)) (bit_len start - bits)))

-- The range of a prefix, without its first and last address where those are to be avoided.
unfoldable pub cidr_range : Addr → ℕ → Bool → Result RangeError IpRange
unfolding masked cidr_end new_ip_range
cidr_range a bits exclude_cidr_edges =
    let start = masked a bits in
    let end = cidr_end start bits in
    if not (is_valid end)
    then err cidr_end_invalid
    else if exclude_cidr_edges
    then if not (is_valid (next_addr start))
        || not (is_valid (prev_addr end))
        || less (prev_addr end) (next_addr start)
      then err cidr_too_small
      else new_ip_range (next_addr start) (prev_addr end)
    else new_ip_range start end

module _ (net : AddrText) where
  unfoldable pub parse_addr : String → Result RangeError Addr
  parse_addr s = elim (net.parse_addr s) [ none ↦ err address_invalid | some a ↦ ok a ]

  unfoldable pub parse_prefix : String → Bool → Result RangeError IpRange
  unfolding cidr_range
  parse_prefix s exclude_cidr_edges = elim (net.parse_prefix s) [
    | none ↦ err prefix_invalid
    | some (a, bits) ↦ cidr_range a bits exclude_cidr_edges
  ]

  -- The three formats, tried in this order, of a text without its `!`.
  unfoldable pub parse_range_body : String → Bool → Result RangeError IpRange
  unfolding parse_addr parse_prefix cut_at trim_space new_ip_range
  parse_range_body s exclude_cidr_edges = elim (cut_at b'-' s) [
    | some (before, after) ↦ do
      start ← parse_addr (trim_space before)
      end ← parse_addr (trim_space after)
      new_ip_range start end
    | none ↦ elim (cut_at b'/' s) [
      | some _ ↦ parse_prefix s exclude_cidr_edges
      | none ↦ do ip ← parse_addr s; new_ip_range ip ip
    ]
  ]

  -- The range, and whether the text excludes it.
  unfoldable pub parse_ip_range : String → Bool → Result RangeError (IpRange × Bool)
  unfolding parse_range_body strip_prefix trim_space
  parse_ip_range s exclude_cidr_edges = elim (strip_prefix "!" (trim_space s)) [
    | some body ↦ do r ← parse_range_body (trim_space body) exclude_cidr_edges; ok (r, true)
    | none ↦ do r ← parse_range_body (trim_space s) exclude_cidr_edges; ok (r, false)
  ]
