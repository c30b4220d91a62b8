-- ===== src/IpRange/Prefix.antt =====
-- The range that `cidr_range` gives for an address and a prefix length.
use native.Mathlib.Nat.{pow-suc}
use mikrolb.Common.{
  ℕ, zero, suc, ◌+◌, ◌-◌, ◌*◌, ◌/◌, ◌^◌, ◌≤◌, ◌<◌, ◌≡◌, refl, ◌⊎◌, inl, inr, Bool, true, false, not,
  ◌||◌, length, All, ok, err, arith, dec_lt, ◌∙◌, ap, subst,
}
use mikrolb.Net.{Addr, IpFamily, ipv4, ipv6, unknown, value, is_valid, less, next_addr, prev_addr}
use mikrolb.Net.Order.{
  IsOf, space, bits_of, bit_len-IsOf, addr_from-bits_of, IsOf-addr_of, value-addr_of,
  value-lt-space, is_valid-IsOf, next_addr_lem, prev_addr_lem, next_addr_last, prev_addr_first,
  less_yes, less_no,
}
use mikrolb.IpRange.{IpRange, cidr_too_small}
use mikrolb.IpRange.Bounds.{IsRange, new_ip_range-IsRange}
use mikrolb.IpRange.Parse.{bytes_back, from_bytes_back, fill_host, masked, cidr_end, cidr_range}
use mikrolb.IpRange.Cidr.{IsByte, fill_host-value, pow_byte}

pow_add : (m n : ℕ) → 2 ^ (m + n) ≡ 2 ^ m * 2 ^ n
pow_add zero n = let e : zero + n ≡ n = omega arith in rw e (omega arith)
pow_add (suc m) n =
    let e : suc m + n ≡ suc (m + n) = omega arith in
    rw (e, pow-suc, pow-suc) (omega (arith, ap (λ (x : ℕ). 2 * x) (pow_add m n)))

pow_pos : (n : ℕ) → 0 < 2 ^ n
pow_pos zero = omega arith
pow_pos (suc n) = rw pow-suc (omega (arith, pow_pos n))

div_mul_bound : (v p q : ℕ) → 0 < p → v < q * p → v / p * p + p ≤ q * p
div_mul_bound v p q h lt = grind arith

bytes_back-length : (len n : ℕ) → length (bytes_back len n) ≡ len
unfolding bytes_back
bytes_back-length zero n = refl
bytes_back-length (suc len) n = ap suc (bytes_back-length len (n / 256))

bytes_back-IsByte : (len n : ℕ) → All IsByte (bytes_back len n)
unfolding bytes_back
bytes_back-IsByte zero n = tt
bytes_back-IsByte (suc len) n = (omega arith, bytes_back-IsByte len (n / 256))

from_bytes_back-bytes_back :
    (len n : ℕ) → n < 2 ^ (8 * len) → from_bytes_back (bytes_back len n) ≡ n
unfolding bytes_back from_bytes_back
from_bytes_back-bytes_back zero n h = omega arith
from_bytes_back-bytes_back (suc len) n h =
    let e : 8 * suc len ≡ 8 * len + 8 = omega arith in
    let h' : n < 256 * 2 ^ (8 * len) = rw (e, pow_byte (8 * len)) at h in
    omega (arith, from_bytes_back-bytes_back len (n / 256) (omega arith))

-- The test that refuses a prefix whose edges leave nothing.
abbrev no_inner : Addr → Addr → Bool
no_inner start end =
    not (is_valid (next_addr start))
    || not (is_valid (prev_addr end))
    || less (prev_addr end) (next_addr start)

module _ (f : IpFamily) (start end : Addr) (hs : IsOf f start) (he : IsOf f end) where
  no_inner-true : value end ≤ suc (value start) → no_inner start end ≡ true
  no_inner-true le = elim (dec_lt (suc (value start)) (space f)) [
    | no last ↦ rw (next_addr_last f start hs (omega (arith, value-lt-space f start hs)))
    | yes inside ↦ elim (dec_lt 0 (value end)) [
      | no first ↦ rw (prev_addr_first f end he (omega arith)) (ground arith)
      | yes above ↦
          let (next_of, next_at) = next_addr_lem f start hs inside in
          let (prev_of, prev_at) = prev_addr_lem f end he above in
          rw (less_yes f (prev_addr end) (next_addr start) prev_of next_of (omega arith))
            (ground arith)
    ]
  ]

  no_inner-false :
      suc (suc (value start)) ≤ value end
      → (no_inner start end ≡ false)
        × IsOf f (next_addr start)
        × IsOf f (prev_addr end)
        × (value (next_addr start) ≡ suc (value start))
        × (value (prev_addr end) ≡ value end - 1)
  no_inner-false le =
      let (next_of, next_at) = next_addr_lem f start hs (omega (arith, value-lt-space f end he)) in
      let (prev_of, prev_at) = prev_addr_lem f end he (omega arith) in
      (
        rw (
          is_valid-IsOf f (next_addr start) next_of,
          is_valid-IsOf f (prev_addr end) prev_of,
          less_no f (prev_addr end) (next_addr start) prev_of next_of (omega arith),
        ),
        next_of,
        prev_of,
        next_at,
        prev_at,
      )

pow_four : (n : ℕ) → 2 ≤ n → 2 ^ n ≡ 4 * 2 ^ (n - 2)
pow_four n h =
    let split : 2 + (n - 2) ≡ n = omega arith in
    subst (λ m. 2 ^ m ≡ 4 * 2 ^ (n - 2)) split (pow_add 2 (n - 2))

pow_small : (n : ℕ) → n < 2 → 2 ^ n ≤ 2
pow_small zero h = omega arith
pow_small (suc zero) h = omega arith
pow_small (suc (suc n)) h = absurd (omega arith)

-- The first address of a prefix, as a number, and how many bits follow it.
abbrev pub host_bits : IpFamily → ℕ → ℕ
host_bits f bits = bits_of f - bits

abbrev pub base_of : IpFamily → Addr → ℕ → ℕ
base_of f a bits = value a / 2 ^ host_bits f bits * 2 ^ host_bits f bits

space-pow : (f : IpFamily) (n : ℕ) → n < space f → n < 2 ^ bits_of f
space-pow ipv4 n h = h
space-pow ipv6 n h = h
space-pow unknown n h = absurd (omega arith)

pow-space : (f : IpFamily) (a : Addr) → IsOf f a → 2 ^ bits_of f ≡ space f
pow-space ipv4 a h = refl
pow-space ipv6 a h = refl
pow-space unknown a h = absurd (omega (arith, value-lt-space unknown a h))

bytes_of : (f : IpFamily) → 8 * (bits_of f / 8) ≡ bits_of f
bytes_of ipv4 = refl
bytes_of ipv6 = refl
bytes_of unknown = refl

module _ (f : IpFamily) (a : Addr) (bits : ℕ) (ha : IsOf f a) (le : bits ≤ bits_of f) where
  base-bound : base_of f a bits + 2 ^ host_bits f bits ≤ space f
  base-bound =
      let split : bits + host_bits f bits ≡ bits_of f = omega arith in
      let whole : 2 ^ bits_of f ≡ 2 ^ bits * 2 ^ host_bits f bits =
        subst (λ n. 2 ^ n ≡ 2 ^ bits * 2 ^ host_bits f bits) split
          (pow_add bits (host_bits f bits)) in
      let lt : value a < 2 ^ bits * 2 ^ host_bits f bits =
        omega (arith, value-lt-space f a ha, pow-space f a ha, whole) in
      omega (
        arith,
        div_mul_bound (value a) (2 ^ host_bits f bits) (2 ^ bits) (pow_pos (host_bits f bits)) lt,
        whole,
        pow-space f a ha,
      )

  base-lt-space : base_of f a bits < space f
  base-lt-space = omega (arith, base-bound, pow_pos (host_bits f bits))

  masked_lem : IsOf f (masked a bits) × (value (masked a bits) ≡ base_of f a bits)
  unfolding masked
  masked_lem =
      rw (bit_len-IsOf f a ha, addr_from-bits_of f (base_of f a bits))
        (
          IsOf-addr_of f (base_of f a bits) base-lt-space,
          value-addr_of f (base_of f a bits) base-lt-space,
        )

  end_value :
      suc (
        from_bytes_back
          (fill_host (bytes_back (bits_of f / 8) (base_of f a bits)) (host_bits f bits)))
      ≡ base_of f a bits + 2 ^ host_bits f bits
  end_value =
      let n = base_of f a bits in
      let back : from_bytes_back (bytes_back (bits_of f / 8) n) ≡ n =
        from_bytes_back-bytes_back (bits_of f / 8) n
          (rw (bytes_of f) (space-pow f n base-lt-space)) in
      fill_host-value (bytes_back (bits_of f / 8) n) (host_bits f bits)
        (value a / 2 ^ host_bits f bits) (bytes_back-IsByte (bits_of f / 8) n)
        (rw (bytes_back-length (bits_of f / 8) n) (omega (arith, bytes_of f))) back
      ∙ ap (λ m. m + 2 ^ host_bits f bits) back

  cidr_end_lem :
      IsOf f (cidr_end (masked a bits) bits)
      × (suc (value (cidr_end (masked a bits) bits)) ≡ base_of f a bits + 2 ^ host_bits f bits)
  unfolding cidr_end
  cidr_end_lem =
      let (of, at) = masked_lem in
      let n =
        from_bytes_back
          (fill_host (bytes_back (bits_of f / 8) (base_of f a bits)) (host_bits f bits)) in
      let below : n < space f = omega (arith, base-bound, end_value) in
      rw (bit_len-IsOf f (masked a bits) of, at, addr_from-bits_of f n)
        (IsOf-addr_of f n below, rw (value-addr_of f n below) end_value)

  -- For an address and a length that fits its family, a prefix without edges to avoid gives the
  -- range of all addresses that share its leading bits.
  pub cidr_range-all :
      (r : IpRange) × (cidr_range a bits false ≡ ok r)
      × IsRange f r
      × (value r.start ≡ base_of f a bits)
      × (suc (value r.end) ≡ base_of f a bits + 2 ^ host_bits f bits)
  unfolding cidr_range
  cidr_range-all =
      let (of, at) = masked_lem in
      let (end_of, end_at) = cidr_end_lem in
      let valid = is_valid-IsOf f (cidr_end (masked a bits) bits) end_of in
      elim (new_ip_range-IsRange f (masked a bits) (cidr_end (masked a bits) bits) of end_of) [
        | inl (h, e) ↦ (
          record { start = masked a bits; end = cidr_end (masked a bits) bits },
          rw (valid, e),
          h,
          at,
          end_at,
        )
        | inr (lt, e) ↦ absurd (omega (arith, pow_pos (host_bits f bits)))
      ]

  -- For an address and a length that fits its family, a prefix with its edges avoided gives the
  -- range without its first and last address, and is refused if it has fewer than two host bits.
  pub cidr_range-inner :
      ((2 ≤ host_bits f bits)
        × (r : IpRange) × (cidr_range a bits true ≡ ok r)
        × IsRange f r
        × (value r.start ≡ base_of f a bits + 1)
        × (suc (suc (value r.end)) ≡ base_of f a bits + 2 ^ host_bits f bits))
      ⊎ ((host_bits f bits < 2) × (cidr_range a bits true ≡ err cidr_too_small))
  unfolding cidr_range
  cidr_range-inner =
      let (of, at) = masked_lem in
      let (end_of, end_at) = cidr_end_lem in
      let start = masked a bits in
      let end = cidr_end start bits in
      let valid = is_valid-IsOf f end end_of in
      elim (dec_lt (host_bits f bits) 2) [
        | yes small ↦ inr (
          small,
          rw (
            valid,
            no_inner-true f start end of end_of (omega (arith, pow_small (host_bits f bits) small)),
          ),
        )
        | no large ↦
            let (open_range, next_of, prev_of, next_at, prev_at) =
              no_inner-false f start end of end_of
                (omega (arith, pow_four (host_bits f bits), pow_pos (host_bits f bits - 2))) in
            let range = new_ip_range-IsRange f (next_addr start) (prev_addr end) next_of prev_of in
            elim range [
              | inl (h, e) ↦ inl (
                omega arith,
                record { start = next_addr start; end = prev_addr end },
                rw (valid, open_range, e),
                h,
                omega arith,
                omega (arith, pow_pos (host_bits f bits)),
              )
              | inr (lt, e) ↦
                  absurd
                    (omega (arith, pow_four (host_bits f bits), pow_pos (host_bits f bits - 2)))
            ]
      ]
