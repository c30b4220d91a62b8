-- ===== src/Pool/Addresses.antt =====
-- What a pool's address set holds, in terms of the pool's entries.
use mikrolb.Common.{
  ℕ, ◌≡◌, refl, sym, ◌↔◌, ◌⊎◌, inl, inr, Bool, true, false, List, [], ◌∷◌, All, String, Result, ok,
  err, Result-cases, Bool-cases, ◌∙◌,
}
use mikrolb.Net.{IpFamily, family_eq}
use mikrolb.Net.Text.{AddrText, IsSound}
use mikrolb.Net.Order.{family_eq_self}
use mikrolb.IpRange.{IpRange, RangeError, ip_family}
use mikrolb.IpRange.Bounds.{IsIn}
use mikrolb.IpRange.Parse.{parse_ip_range}
use mikrolb.IpRange.Accepted.{IsWellFormed, parse_ip_range-IsWellFormed}
use mikrolb.IpRangeSet.Normal.{In}
use mikrolb.IpRangeSet.Methods.{family_eq→≡}
use mikrolb.Pool.{Collected, collect_entry, collect}

-- The result of parsing an entry is a range of the pool's family, excluded or not, that holds the
-- value.
abbrev pub Entry : IpFamily → Bool → ℕ → Result RangeError (IpRange × Bool) → Type 0
Entry family excluded k (err e) = ⊥
Entry family excluded k (ok (r, is_excluded)) =
    (is_excluded ≡ excluded) × (ip_family r ≡ family) × IsIn k r

-- Some entry of the pool's family, with or without `!`, holds the value.
abbrev pub Lists : AddrText → IpFamily → Bool → Bool → ℕ → List String → Type 0
Lists net family edges excluded k [] = ⊥
Lists net family edges excluded k (s ∷ ss) =
    Entry family excluded k (parse_ip_range net s edges) ⊎ Lists net family edges excluded k ss

-- The collected ranges hold what the entries list, and are all of the pool's family.
pub record Right (family : IpFamily) (P Q : ℕ → Type 0) (c : Collected) : Type 0 where
  pub included_in : (k : ℕ) → In k c.included ↔ P k
  pub excluded_in : (k : ℕ) → In k c.excluded ↔ Q k
  pub included_formed : All IsWellFormed c.included
  pub excluded_formed : All IsWellFormed c.excluded
  pub included_family : All (λ r. ip_family r ≡ family) c.included
  pub excluded_family : All (λ r. ip_family r ≡ family) c.excluded

-- An alternative that cannot be, and one that both sides gain.
or_never : {A B C : Type 0} → A ↔ B → ¬ C → A ↔ (C ⊎ B)
or_never e never = (λ a. inr (e.0 a), λ x. elim x [ inl c ↦ absurd (never c) | inr b ↦ e.1 b ])

or_both : {A B C D : Type 0} → A ↔ B → D ↔ C → (D ⊎ A) ↔ (C ⊎ B)
or_both e d = (
  λ x. elim x [ inl y ↦ inl (d.0 y) | inr a ↦ inr (e.0 a) ],
  λ x. elim x [ inl y ↦ inl (d.1 y) | inr b ↦ inr (e.1 b) ],
)

abbrev pub Formed : Result RangeError (IpRange × Bool) → Type 0
Formed (err e) = Unit {0}
Formed (ok (r, is_excluded)) = IsWellFormed r

false_not_true : ¬ (false ≡ true)
false_not_true e = cc

true_not_false : ¬ (true ≡ false)
true_not_false e = cc

not_family :
    (r : IpRange) (family : IpFamily)
    → family_eq (ip_family r) family ≡ false
    → ¬ (ip_family r ≡ family)
not_family r family other e = true_not_false (sym (family_eq_self family) ∙ rw e at other)

collect_entry-Right :
    (family : IpFamily) (P Q : ℕ → Type 0) (res : Result RangeError (IpRange × Bool))
    (c : Collected)
    → Formed res
    → Right family P Q c
    → Right family
        (λ k. Entry family false k res ⊎ P k)
        (λ k. Entry family true k res ⊎ Q k)
        (collect_entry family res c)
unfolding collect_entry
collect_entry-Right family P Q (err e) c formed h = record {
  included_in = λ k. or_never (h.included_in k) (λ x. x);
  excluded_in = λ k. or_never (h.excluded_in k) (λ x. x);
  included_formed = h.included_formed;
  excluded_formed = h.excluded_formed;
  included_family = h.included_family;
  excluded_family = h.excluded_family;
}
collect_entry-Right family P Q (ok (r, false)) c formed h =
    elim (Bool-cases (family_eq (ip_family r) family)) [
      | inr other ↦ rw other (record {
        included_in = λ k. or_never (h.included_in k) (λ x. not_family r family other x.1);
        excluded_in = λ k. or_never (h.excluded_in k) (λ x. not_family r family other x.1);
        included_formed = h.included_formed;
        excluded_formed = h.excluded_formed;
        included_family = h.included_family;
        excluded_family = h.excluded_family;
      })
      | inl same ↦
          let e = family_eq→≡ (ip_family r) family same in
          rw same (record {
            included_in = λ k. or_both (h.included_in k) (λ i. (refl, e, i), λ x. x.2);
            excluded_in = λ k. or_never (h.excluded_in k) (λ x. false_not_true x.0);
            included_formed = (formed, h.included_formed);
            excluded_formed = h.excluded_formed;
            included_family = (e, h.included_family);
            excluded_family = h.excluded_family;
          })
    ]
collect_entry-Right family P Q (ok (r, true)) c formed h =
    elim (Bool-cases (family_eq (ip_family r) family)) [
      | inr other ↦ rw other (record {
        included_in = λ k. or_never (h.included_in k) (λ x. not_family r family other x.1);
        excluded_in = λ k. or_never (h.excluded_in k) (λ x. not_family r family other x.1);
        included_formed = h.included_formed;
        excluded_formed = h.excluded_formed;
        included_family = h.included_family;
        excluded_family = h.excluded_family;
      })
      | inl same ↦
          let e = family_eq→≡ (ip_family r) family same in
          rw same (record {
            included_in = λ k. or_never (h.included_in k) (λ x. true_not_false x.0);
            excluded_in = λ k. or_both (h.excluded_in k) (λ i. (refl, e, i), λ x. x.2);
            included_formed = h.included_formed;
            excluded_formed = (formed, h.excluded_formed);
            included_family = h.included_family;
            excluded_family = (e, h.excluded_family);
          })
    ]

module _ (net : AddrText) (sound : IsSound net) where
  pub parsed-Formed : (s : String) (edges : Bool) → Formed (parse_ip_range net s edges)
  parsed-Formed s edges = elim (Result-cases (parse_ip_range net s edges)) [
    | inl ((r, excluded), e) ↦ rw e (parse_ip_range-IsWellFormed net sound s edges r excluded e)
    | inr (x, e) ↦ rw e tt
  ]

  pub collect-Right :
      (ss : List String) (family : IpFamily) (edges : Bool)
      → Right family
          (λ k. Lists net family edges false k ss)
          (λ k. Lists net family edges true k ss)
          (collect net ss family edges)
  unfolding collect
  collect-Right [] family edges = record {
    included_in = λ k. (λ m. m, λ m. m);
    excluded_in = λ k. (λ m. m, λ m. m);
    included_formed = tt;
    excluded_formed = tt;
    included_family = tt;
    excluded_family = tt;
  }
  collect-Right (s ∷ ss) family edges =
      collect_entry-Right family _ _ (parse_ip_range net s edges) (collect net ss family edges)
        (parsed-Formed s edges) (collect-Right ss family edges)
