-- ===== src/IpRange/Iter.antt =====
-- `IPRange.Iter` of internal/core/ip_range.go: the addresses of a range, from an offset that a hash
-- gives, once around.
pub mod Cycle
use mikrolb.Common.{
  ℕ, zero, suc, ◌+◌, ◌%◌, Bool, true, false, not, ◌||◌, ◌==◌, Option, none, some, List, [], ◌∷◌,
  if◌then◌else◌,
}
use mikrolb.Net.{Addr, value, addr_eq, addr_from, bit_len, next_addr, prev_addr}
use mikrolb.IpRange.{IpRange, count}

-- One address in front of the rest of the sequence.
abbrev pub yield : Addr → Option (List Addr) → Option (List Addr)
yield addr none = none
yield addr (some rest) = some (addr ∷ rest)

-- The loop of the returned function; `end` is the variable that the closure sets when it wraps
-- around. The sequence is the one that a consumer sees who never stops it; one who stops it sees a
-- prefix. `none`: the fuel ran out.
unfoldable pub iter_loop : IpRange → Addr → ℕ → Addr → Addr → Option (List Addr)
iter_loop r start zero addr end = none
iter_loop r start (suc fuel) addr end = elim (addr_eq addr end) [
  | true ↦ elim (addr_eq start r.start || not (addr_eq end r.end)) [
    | true ↦ some (addr ∷ [])
    | false ↦ yield addr (iter_loop r start fuel r.start (prev_addr start))
  ]
  | false ↦ yield addr (iter_loop r start fuel (next_addr addr) end)
]

-- The first address: the start moved on by the hash modulo the count, unless the hash is zero.
unfoldable pub iter_start : IpRange → ℕ → Addr
iter_start r hash =
    if hash == 0 then r.start else addr_from (bit_len r.start) (value r.start + hash % count r)

-- Each address is visited once, so the count is fuel enough.
unfoldable pub iter : IpRange → ℕ → Option (List Addr)
unfolding iter_start iter_loop
iter r hash = iter_loop r (iter_start r hash) (count r) (iter_start r hash) r.end
