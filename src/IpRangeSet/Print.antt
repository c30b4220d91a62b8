-- ===== src/IpRangeSet/Print.antt =====
-- The texts of ranges and of sets: `IPRange.String` of internal/core/ip_range.go and
-- `IPRangeSet.String` of internal/core/ip_range_set.go.
use Prim.Native.String.{◌++◌ as append}
use mikrolb.Common.{◌++◌, String, if◌then◌else◌, map}
use mikrolb.Net.{addr_eq}
use mikrolb.Net.Text.{AddrText}
use mikrolb.IpRange.{IpRange}
use mikrolb.IpRangeSet.{IpRangeSet}
use mikrolb.RouterNames.{join}

module _ (net : AddrText) where
  unfoldable pub range_string : IpRange → String
  range_string r =
      if addr_eq r.start r.end
      then net.addr_string r.start
      else append (net.addr_string r.start) (append "-" (net.addr_string r.end))

  unfoldable pub set_string : IpRangeSet → String
  unfolding range_string join
  set_string s = join ", " (map range_string s.ranges4 ++ map range_string s.ranges6)
