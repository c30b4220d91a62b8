-- ===== src/Pool/Entries.antt =====
-- The errors of `ParseIPPoolAddresses` (internal/controller/ip_pool.go), in terms of the pool's
-- entries.
use mathlib.Core.Bool.{false≢true}
use mikrolb.Common.{
  ◌≡◌, refl, sym, ap, ◌∙◌, ◌↔◌, inl, inr, Bool, true, false, none, List, [], ◌∷◌, All, String,
  Result, ok, err, ok-injective, Bool-cases, subst,
}
use mikrolb.Net.{IpFamily, family_eq}
use mikrolb.Net.Text.{AddrText, IsSound}
use mikrolb.Net.Order.{family_eq_self, get_ip_family-IsOf}
use mikrolb.IpRange.{IpRange, RangeError, ip_family}
use mikrolb.IpRange.Bounds.{IsRange}
use mikrolb.IpRange.Parse.{parse_ip_range}
use mikrolb.IpRangeSet.Methods.{family_eq→≡}
use mikrolb.Pool.{Pool, Collected, collect_entry, collect}
use mikrolb.Pool.Addresses.{Formed, parsed-Formed}

-- What an entry is read as: a range of the family, with both ends of it and in their order.
abbrev pub ReadAs : IpFamily → Result RangeError (IpRange × Bool) → Type 0
ReadAs family res = (r : IpRange) × (excluded : Bool) × (res ≡ ok (r, excluded)) × IsRange family r

-- The entry is read as a range of the pool's family.
abbrev pub IsEntry : AddrText → Pool → String → Type 0
IsEntry net p s = ReadAs p.family (parse_ip_range net s p.avoid_buggy_ips)

not_read :
    (family : IpFamily) (r : IpRange) (excluded : Bool)
    → family_eq (ip_family r) family ≡ false
    → ¬ ReadAs family (ok (r, excluded))
not_read family r excluded other (r', excluded', same, range) =
    let start = get_ip_family-IsOf family r'.start range.start_of in
    let here : r ≡ r' = ap (λ x. x.0) (ok-injective same) in
    false≢true (
      sym other
      ∙ ap (λ x. family_eq (ip_family x) family) here
      ∙ ap (λ f. family_eq f family) start
      ∙ family_eq_self family)

collect_entry-errors :
    (family : IpFamily) (res : Result RangeError (IpRange × Bool)) (c : Collected)
    → Formed res
    → All (λ e. e ≡ none) (collect_entry family res c).errors
      ↔ (ReadAs family res × All (λ e. e ≡ none) c.errors)
unfolding collect_entry
collect_entry-errors family (err e) c formed = (λ h. absurd (cc (h.0)), λ h. absurd (cc (h.0.2)))
collect_entry-errors family (ok (r, false)) c formed =
    elim (Bool-cases (family_eq (ip_family r) family)) [
      | inr other ↦
          rw other (λ h. absurd (cc (h.0)), λ h. absurd (not_read family r false other h.0))
      | inl same ↦
          let range = subst (λ f. IsRange f r) (family_eq→≡ (ip_family r) family same) formed in
          rw same (λ h. ((r, false, refl, range), h.1), λ h. (refl, h.1))
    ]
collect_entry-errors family (ok (r, true)) c formed =
    elim (Bool-cases (family_eq (ip_family r) family)) [
      | inr other ↦
          rw other (λ h. absurd (cc (h.0)), λ h. absurd (not_read family r true other h.0))
      | inl same ↦
          let range = subst (λ f. IsRange f r) (family_eq→≡ (ip_family r) family same) formed in
          rw same (λ h. ((r, true, refl, range), h.1), λ h. (refl, h.1))
    ]

pub collect-errors :
    (net : AddrText) (family : IpFamily) (edges : Bool) (ss : List String)
    → IsSound net
    → All (λ e. e ≡ none) (collect net ss family edges).errors
      ↔ All (λ s. ReadAs family (parse_ip_range net s edges)) ss
unfolding collect
collect-errors net family edges [] sound = (λ h. tt, λ h. tt)
collect-errors net family edges (s ∷ ss) sound =
    let (to, from) = collect-errors net family edges ss sound in
    let (one_to, one_from) =
      collect_entry-errors family (parse_ip_range net s edges) (collect net ss family edges)
        (parsed-Formed net sound s edges) in
    (λ h. let (a, b) = one_to h in (a, to b), λ h. one_from (h.0, from h.1))
