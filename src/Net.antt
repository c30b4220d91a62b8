-- ===== src/Net.antt =====
-- What the program uses of Go's `net/netip`: addresses without an IPv6 zone, their order, and
-- `IPFamily` with `GetIPFamily` (internal/core/ip_family.go).
pub mod Order
pub mod Text
use mikrolb.Common.{
  ℕ, ◌+◌, ◌-◌, ◌^◌, ◌<◌, ◌≡◌, Bool, true, false, Ordering, compare, ltb, ◌==◌, if◌then◌else◌,
}

-- The zero `Addr` and the two kinds of address, each with its value as an unsigned number.
pub data Addr : Type 0 where
  invalid : Addr
  v4 v6 : ℕ → Addr

-- The constants of type `IPFamily`, and any other string.
pub data IpFamily : Type 0 where
  ipv4 ipv6 unknown : IpFamily

abbrev pub family_eq : IpFamily → IpFamily → Bool
family_eq ipv4 ipv4 = true
family_eq ipv6 ipv6 = true
family_eq unknown unknown = true
family_eq _ _ = false

abbrev pub is_valid : Addr → Bool
is_valid invalid = false
is_valid _ = true

abbrev pub is4 : Addr → Bool
is4 (v4 n) = true
is4 _ = false

abbrev pub is6 : Addr → Bool
is6 (v6 n) = true
is6 _ = false

abbrev pub get_ip_family : Addr → IpFamily
get_ip_family ip = if is4 ip then ipv4 else if is6 ip then ipv6 else unknown

abbrev pub bit_len : Addr → ℕ
bit_len invalid = 0
bit_len (v4 n) = 32
bit_len (v6 n) = 128

-- `big.Int.SetBytes(a.AsSlice())`.
abbrev pub value : Addr → ℕ
value invalid = 0
value (v4 n) = n
value (v6 n) = n

-- `netip.AddrFromSlice` of a value written to a number of bytes.
abbrev pub addr_from : ℕ → ℕ → Addr
addr_from bits n = if bits == 32 then v4 n else if bits == 128 then v6 n else invalid

abbrev pub addr_eq : Addr → Addr → Bool
addr_eq invalid invalid = true
addr_eq (v4 n) (v4 m) = n == m
addr_eq (v6 n) (v6 m) = n == m
addr_eq _ _ = false

-- `Addr.Compare`: by length first, then by value.
unfoldable pub compare_addr : Addr → Addr → Ordering
compare_addr a b = elim (compare (bit_len a) (bit_len b)) [
  | Ordering.lt ↦ Ordering.lt
  | Ordering.eq ↦ compare (value a) (value b)
  | Ordering.gt ↦ Ordering.gt
]

-- `a.Compare(b) < 0`, which is `a.Less(b)`, and `a.Compare(b) <= 0`.
unfoldable pub less : Addr → Addr → Bool
less a b = elim (compare_addr a b) [ Ordering.lt ↦ true | _ ↦ false ]

unfoldable pub at_most : Addr → Addr → Bool
at_most a b = elim (compare_addr a b) [ Ordering.gt ↦ false | _ ↦ true ]

abbrev pub mod4 : ℕ
mod4 = 2 ^ 32

abbrev pub mod6 : ℕ
mod6 = 2 ^ 128

-- `Addr.Next` and `Addr.Prev`: the zero `Addr` past either end, and for the zero `Addr` itself the
-- program never asks.
unfoldable pub next_addr : Addr → Addr
next_addr invalid = invalid
next_addr (v4 n) = if n + 1 == mod4 then invalid else v4 (n + 1)
next_addr (v6 n) = if n + 1 == mod6 then invalid else v6 (n + 1)

unfoldable pub prev_addr : Addr → Addr
prev_addr invalid = invalid
prev_addr (v4 n) = if n == 0 then invalid else v4 (n - 1)
prev_addr (v6 n) = if n == 0 then invalid else v6 (n - 1)
