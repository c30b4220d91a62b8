-- ===== src/Net/Text.antt =====
-- The text form of addresses and prefixes, which `netip` reads and writes, as a parameter.
use mikrolb.Common.{ℕ, ◌≤◌, ◌≡◌, Option, some, String}
use mikrolb.Net.{Addr, get_ip_family, bit_len}
use mikrolb.Net.Order.{IsOf}

-- `netip.ParseAddr`, `netip.ParsePrefix` (the address and `Bits()`) and `Addr.String`.
pub record AddrText : Type 0 where
  pub parse_addr : String → Option Addr
  pub parse_prefix : String → Option (Addr × ℕ)
  pub addr_string : Addr → String

-- What is read is an address whose value fits its family, and a prefix is no longer than it.
pub record IsSound (net : AddrText) : Type 0 where
  pub addr_of_family :
      (s : String) (a : Addr) → net.parse_addr s ≡ some a → IsOf (get_ip_family a) a
  pub prefix_of_family :
      (s : String) (a : Addr) (bits : ℕ)
      → net.parse_prefix s ≡ some (a, bits)
      → IsOf (get_ip_family a) a × (bits ≤ bit_len a)
