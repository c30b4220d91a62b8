-- ===== src/IpRangeSet/Printed.antt =====
-- `IPRange.String` of internal/core/ip_range.go, read back by `ParseIPRange`.
use Prim.Native.String.{◌++◌ as append}
use mikrolb.Common.{
  ◌≡◌, refl, sym, ◌∙◌, subst, inl, inr, Bool, false, some, String, ok, Bool-cases, is_space, Lacks,
  is_char, Lacks-append, trim_space-Lacks, cut_at-Lacks, cut_at-append, strip_prefix-Lacks,
  append_one, arith,
}
use mikrolb.Net.{Addr, addr_eq}
use mikrolb.Net.Text.{AddrText}
use mikrolb.IpRange.{IpRange, new_ip_range, ip_family}
use mikrolb.IpRange.Bounds.{IsRange, new_ip_range-IsRange}
use mikrolb.IpRange.Parse.{parse_addr, parse_range_body, parse_ip_range}
use mikrolb.IpRangeSet.Print.{range_string}
use mikrolb.Expectations.Staging.{addr_eq→≡}

-- `netip` reads the text of the address back, and it has no space and none of the characters with a
-- meaning in a range's text.
pub record ReadsBack (net : AddrText) (a : Addr) : Type 0 where
  pub reads : net.parse_addr (net.addr_string a) ≡ some a
  pub no_space : Lacks is_space (net.addr_string a)
  pub no_dash : Lacks (is_char b'-') (net.addr_string a)
  pub no_slash : Lacks (is_char b'/') (net.addr_string a)
  pub no_bang : Lacks (is_char b'!') (net.addr_string a)

new_ip_range-IpRange : (r : IpRange) → IsRange (ip_family r) r → new_ip_range r.start r.end ≡ ok r
new_ip_range-IpRange r h =
    elim (new_ip_range-IsRange (ip_family r) r.start r.end h.start_of h.end_of) [
      | inl (h', e) ↦ e
      | inr (lt, e) ↦ absurd (omega (arith, lt, h.ordered))
    ]

module _ (net : AddrText) where
  parse_addr-reads : (a : Addr) → ReadsBack net a → parse_addr net (net.addr_string a) ≡ ok a
  unfolding parse_addr
  parse_addr-reads a h = rw (h.reads, parse_addr) refl

  single_body :
      (a : Addr) (edges : Bool)
      → ReadsBack net a
      → parse_range_body net (net.addr_string a) edges ≡ new_ip_range a a
  unfolding parse_range_body
  single_body a edges h =
      rw (cut_at-Lacks b'-' (net.addr_string a) h.no_dash, parse_range_body)
        (rw (cut_at-Lacks b'/' (net.addr_string a) h.no_slash, parse_range_body)
          (rw (parse_addr-reads a h, parse_range_body) refl))

  double_body :
      (a b : Addr) (edges : Bool)
      → ReadsBack net a
      → ReadsBack net b
      → parse_range_body net (append (net.addr_string a) (append "-" (net.addr_string b))) edges
        ≡ new_ip_range a b
  unfolding parse_range_body
  double_body a b edges ha hb = rw (append_one _ (net.addr_string b)) (
      rw
        (
          cut_at-append b'-' (net.addr_string a) _ (net.addr_string b) refl ha.no_dash,
          parse_range_body,
        )
        (rw (trim_space-Lacks (net.addr_string a) ha.no_space, parse_range_body)
          (rw (trim_space-Lacks (net.addr_string b) hb.no_space, parse_range_body)
            (rw (parse_addr-reads a ha, parse_range_body)
              (rw (parse_addr-reads b hb, parse_range_body) refl)))))

  plain_body :
      (s : String) (edges : Bool) (r : IpRange)
      → Lacks is_space s
      → Lacks (is_char b'!') s
      → parse_range_body net s edges ≡ ok r
      → parse_ip_range net s edges ≡ ok (r, false)
  unfolding parse_ip_range
  plain_body s edges r space bang e =
      rw (trim_space-Lacks s space, parse_ip_range)
        (rw (strip_prefix-Lacks s bang, parse_ip_range)
          (rw (trim_space-Lacks s space, parse_ip_range) (rw (e, parse_ip_range) refl)))

  -- Where `netip` reads the texts of the two addresses of a range back, texts without spaces and
  -- without `-`, `/` and `!`, and the range is one of a family whose end is no less than its start,
  -- `ParseIPRange` reads the text of the range as this range, not excluded, with or without the
  -- edges of prefixes.
  pub parse_ip_range-range_string :
      (r : IpRange) (edges : Bool)
      → IsRange (ip_family r) r
      → ReadsBack net r.start
      → ReadsBack net r.end
      → parse_ip_range net (range_string net r) edges ≡ ok (r, false)
  unfolding range_string is_space
  parse_ip_range-range_string r edges h ha hb =
      let built = new_ip_range-IpRange r h in
      elim (Bool-cases (addr_eq r.start r.end)) [
        | inl same ↦
            let point =
              subst (λ x. new_ip_range r.start x ≡ ok r) (sym (addr_eq→≡ r.start r.end same))
                built in
            rw (same, range_string)
              (plain_body (net.addr_string r.start) edges r ha.no_space ha.no_bang
                (single_body r.start edges ha ∙ point))
        | inr other ↦
            rw (other, range_string)
              (plain_body (append (net.addr_string r.start) (append "-" (net.addr_string r.end)))
                edges r
                (Lacks-append is_space (net.addr_string r.start) _ ha.no_space
                  (Lacks-append is_space "-" (net.addr_string r.end) (refl, tt) hb.no_space))
                (Lacks-append (is_char b'!') (net.addr_string r.start) _ ha.no_bang
                  (Lacks-append (is_char b'!') "-" (net.addr_string r.end) (refl, tt) hb.no_bang))
                (double_body r.start r.end edges ha hb ∙ built))
      ]
