-- ===== src/IpRange/Bounds.antt =====
-- What a range of one family holds, and the tests on it.
use mikrolb.Common.{
  ℕ, suc, ◌<◌, ◌≤◌, ◌≡◌, ◌↔◌, ◌⊎◌, inl, inr, refl, true, false, leb, ok, err, arith, Bool-cases,
  max, dec_lt,
}
use mikrolb.Net.{
  Addr, invalid, v4, v6, IpFamily, ipv4, ipv6, value, less, next_addr, prev_addr, compare_addr,
}
use mikrolb.Net.Order.{
  IsOf, space, less-value, at_most-value, next_addr_lem, next_addr_last, prev_addr_lem,
  prev_addr_first, get_ip_family-IsOf, bit_len-IsOf, family_eq_self,
}
use mikrolb.IpRange.{IpRange, end_before_start, new_ip_range, contains, overlaps}

-- Both ends are addresses of the family, in order.
pub record IsRange (f : IpFamily) (r : IpRange) : Type 0 where
  pub start_of : IsOf f r.start
  pub end_of : IsOf f r.end
  pub ordered : value r.start ≤ value r.end

-- The value lies between the ends.
abbrev pub IsIn : ℕ → IpRange → Type 0
IsIn k r = (value r.start ≤ k) × (k ≤ value r.end)

-- `new_ip_range` of two addresses of one family succeeds exactly when they are in order, and then
-- has these ends.
pub new_ip_range-IsRange :
    (f : IpFamily) (start end : Addr)
    → IsOf f start
    → IsOf f end
    → (IsRange f (record { start = start; end = end })
        × (new_ip_range start end ≡ ok (record { start = start; end = end })))
      ⊎ ((value end < value start) × (new_ip_range start end ≡ err end_before_start))
unfolding new_ip_range
new_ip_range-IsRange f start end hs he = elim (Bool-cases (less end start)) [
  | inl before ↦ inr (
    ground (arith, less-value f end start he hs),
    rw (bit_len-IsOf f start hs, bit_len-IsOf f end he) (ground arith),
  )
  | inr after ↦ inl (
    record { start_of = hs; end_of = he; ordered = ground (arith, less-value f end start he hs) },
    rw (bit_len-IsOf f start hs, bit_len-IsOf f end he) (ground arith),
  )
]

less-invalid : (f : IpFamily) (x : Addr) → IsOf f x → less invalid x ≡ true
unfolding less compare_addr
less-invalid ipv4 (v4 n) h = refl
less-invalid ipv6 (v6 n) h = refl
less-invalid _ _ h = ground arith

less_invalid : (f : IpFamily) (x : Addr) → IsOf f x → less x invalid ≡ false
unfolding less compare_addr
less_invalid ipv4 (v4 n) h = refl
less_invalid ipv6 (v6 n) h = refl
less_invalid _ _ h = ground arith

module _ (f : IpFamily) (r : IpRange) (x : Addr) (h : IsRange f r) (hx : IsOf f x) where
  less_prev_start : less (prev_addr r.start) x ≡ leb (value r.start) (value x)
  less_prev_start = elim (dec_lt 0 (value r.start)) [
    | yes above ↦
        let (of, at) = prev_addr_lem f r.start h.start_of above in
        rw (less-value f (prev_addr r.start) x of hx, at) (ground arith)
    | no first ↦
        rw (prev_addr_first f r.start h.start_of (omega arith), less-invalid f x hx) (ground arith)
  ]

  -- For a range and an address of one family, `contains` holds exactly if the address lies
  -- between the ends, if the range stops before the last address of the family.
  pub contains-IsIn : suc (value r.end) < space f → (contains r x ≡ true) ↔ IsIn (value x) r
  unfolding contains
  contains-IsIn inside =
      let (of, at) = next_addr_lem f r.end h.end_of inside in
      rw (less_prev_start, less-value f x (next_addr r.end) hx of, at)
        (λ c. ground arith, λ c. ground arith)

  -- A range that ends at the last address of its family contains no address of the family.
  pub contains_last : suc (value r.end) ≡ space f → contains r x ≡ false
  unfolding contains
  contains_last last = rw (next_addr_last f r.end h.end_of last, less_invalid f x hx) (ground arith)

-- Two ranges of one family overlap exactly when some value lies in both.
pub overlaps-IsIn :
    (f : IpFamily) (r other : IpRange)
    → IsRange f r
    → IsRange f other
    → (overlaps r other ≡ true) ↔ ((k : ℕ) × IsIn k r × IsIn k other)
unfolding overlaps
overlaps-IsIn f r other h g =
    rw
      (
        get_ip_family-IsOf f r.start h.start_of,
        get_ip_family-IsOf f other.start g.start_of,
        at_most-value f r.start other.end h.start_of g.end_of,
        at_most-value f other.start r.end g.start_of h.end_of,
        family_eq_self f,
      )
      (
        λ c. (max (value r.start) (value other.start), ground arith, ground arith),
        λ (k, a, b). ground arith,
      )
