-- ===== src/IpRange/Accepted.antt =====
-- The ranges that `ParseIPRange` (internal/core/ip_range.go) accepts.
use mikrolb.Common.{
  ℕ, ◌≤◌, ◌≡◌, refl, sym, inl, inr, Bool, true, false, ◌==◌, Option-cases, String, Result, ok, err,
  ◌>>=◌, arith, Bool-cases, subst, trim_space, cut_at, strip_prefix,
}
use mikrolb.Net.{Addr, IpFamily, v4, v6, bit_len, get_ip_family}
use mikrolb.Net.Text.{AddrText, IsSound}
use mikrolb.Net.Order.{IsOf, bit_len-IsOf, get_ip_family-IsOf}
use mikrolb.IpRange.{IpRange, RangeError, new_ip_range, ip_family}
use mikrolb.IpRange.Bounds.{IsRange, new_ip_range-IsRange}
use mikrolb.IpRange.Parse.{cidr_range, parse_addr, parse_prefix, parse_range_body, parse_ip_range}
use mikrolb.IpRange.Prefix.{cidr_range-all, cidr_range-inner}

-- A range of the family of its start.
abbrev pub IsWellFormed : IpRange → Type 0
IsWellFormed r = IsRange (ip_family r) r

-- What a result that succeeds satisfies.
abbrev pub Gives {ℓ} : {A : Type 0} → (A → Type ℓ) → Result RangeError A → Type ℓ
Gives P (ok a) = P a
Gives P (err e) = Unit

Gives-bind {ℓ κ} :
    {A B : Type 0} (P : A → Type ℓ) (Q : B → Type κ) (m : Result RangeError A)
    (k : A → Result RangeError B)
    → Gives P m
    → ((a : A) → P a → Gives Q (k a))
    → Gives Q (m >>= k)
Gives-bind P Q (ok a) k h next = next a h
Gives-bind P Q (err e) k h next = tt

abbrev IsAddr : Addr → Type 0
IsAddr a = IsOf (get_ip_family a) a

same_family :
    (a b : Addr) → IsAddr a → IsAddr b → bit_len a ≡ bit_len b → get_ip_family a ≡ get_ip_family b
same_family (v4 n) (v4 m) ha hb e = refl
same_family (v6 n) (v6 m) ha hb e = refl
same_family _ _ ha hb e = absurd (ground arith)

range-IsWellFormed : (f : IpFamily) (r : IpRange) → IsRange f r → IsWellFormed r
range-IsWellFormed f r h =
    subst (λ g. IsRange g r) (sym (get_ip_family-IsOf f r.start h.start_of)) h

new_ip_range-IsWellFormed :
    (a b : Addr) → IsAddr a → IsAddr b → Gives IsWellFormed (new_ip_range a b)
unfolding new_ip_range
new_ip_range-IsWellFormed a b ha hb = elim (Bool-cases (bit_len a == bit_len b)) [
  | inr mixed ↦ rw (mixed, new_ip_range) tt
  | inl same ↦
      let fam : get_ip_family a ≡ get_ip_family b = same_family a b ha hb (ground arith) in
      let hb' : IsOf (get_ip_family a) b = rw fam hb in
      elim (new_ip_range-IsRange (get_ip_family a) a b ha hb') [
        | inl (h, e) ↦ rw e h
        | inr (lt, e) ↦ rw e tt
      ]
]

cidr_range-IsWellFormed :
    (a : Addr) (bits : ℕ) (edges : Bool)
    → IsAddr a
    → bits ≤ bit_len a
    → Gives IsWellFormed (cidr_range a bits edges)
cidr_range-IsWellFormed a bits false ha le =
    let (r, e, h, _, _) =
      cidr_range-all (get_ip_family a) a bits ha
        (rw (sym (bit_len-IsOf (get_ip_family a) a ha)) le) in
    rw e (range-IsWellFormed (get_ip_family a) r h)
cidr_range-IsWellFormed a bits true ha le =
    elim (cidr_range-inner (get_ip_family a) a bits ha
      (rw (sym (bit_len-IsOf (get_ip_family a) a ha)) le)) [
        | inl (_, r, e, h, _, _) ↦ rw e (range-IsWellFormed (get_ip_family a) r h)
        | inr (_, e) ↦ rw e tt
      ]

module _ (net : AddrText) (sound : IsSound net) where
  parse_addr-IsAddr : (s : String) → Gives IsAddr (parse_addr net s)
  unfolding parse_addr
  parse_addr-IsAddr s = elim (Option-cases (net.parse_addr s)) [
    | inl e ↦ rw (e, parse_addr) tt
    | inr (a, e) ↦ rw (e, parse_addr) (sound.addr_of_family s a e)
  ]

  parse_prefix-IsWellFormed :
      (s : String) (edges : Bool) → Gives IsWellFormed (parse_prefix net s edges)
  unfolding parse_prefix
  parse_prefix-IsWellFormed s edges = elim (Option-cases (net.parse_prefix s)) [
    | inl e ↦ rw (e, parse_prefix) tt
    | inr ((a, bits), e) ↦
        let (of, le) = sound.prefix_of_family s a bits e in
        rw (e, parse_prefix) (cidr_range-IsWellFormed a bits edges of le)
  ]

  parse_range_body-IsWellFormed :
      (s : String) (edges : Bool) → Gives IsWellFormed (parse_range_body net s edges)
  unfolding parse_range_body
  parse_range_body-IsWellFormed s edges = elim (Option-cases (cut_at b'-' s)) [
    | inr ((before, after), e) ↦
        rw (e, parse_range_body)
          (Gives-bind IsAddr IsWellFormed (parse_addr net (trim_space before)) _
            (parse_addr-IsAddr (trim_space before))
            λ a ha.
              Gives-bind IsAddr IsWellFormed (parse_addr net (trim_space after)) _
                (parse_addr-IsAddr (trim_space after)) λ b hb. new_ip_range-IsWellFormed a b ha hb)
    | inl e ↦ elim (Option-cases (cut_at b'/' s)) [
      | inr (_, e') ↦ rw (e, parse_range_body) (rw e' (parse_prefix-IsWellFormed s edges))
      | inl e' ↦
          rw (e, parse_range_body)
            (rw e' (
              Gives-bind IsAddr IsWellFormed (parse_addr net s) _ (parse_addr-IsAddr s)
                λ a ha. new_ip_range-IsWellFormed a a ha ha))
    ]
  ]

  parse_ip_range-Gives :
      (s : String) (edges : Bool)
      → Gives (λ (r, excluded). IsWellFormed r) (parse_ip_range net s edges)
  unfolding parse_ip_range
  parse_ip_range-Gives s edges = elim (Option-cases (strip_prefix "!" (trim_space s))) [
    | inr (body, e) ↦
        rw (e, parse_ip_range)
          (Gives-bind IsWellFormed _ (parse_range_body net (trim_space body) edges) _
            (parse_range_body-IsWellFormed (trim_space body) edges) λ r h. h)
    | inl e ↦
        rw (e, parse_ip_range)
          (Gives-bind IsWellFormed _ (parse_range_body net (trim_space s) edges) _
            (parse_range_body-IsWellFormed (trim_space s) edges) λ r h. h)
  ]

  -- With a sound parser of addresses, an accepted range has its ends in order, in one family, and
  -- within its bits.
  pub parse_ip_range-IsWellFormed :
      (s : String) (edges : Bool) (r : IpRange) (excluded : Bool)
      → parse_ip_range net s edges ≡ ok (r, excluded)
      → IsWellFormed r
  parse_ip_range-IsWellFormed s edges r excluded h =
      subst (Gives (λ (r, excluded). IsWellFormed r)) h (parse_ip_range-Gives s edges)
