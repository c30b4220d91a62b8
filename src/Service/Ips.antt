-- ===== src/Service/Ips.antt =====
-- The addresses of a service: `GetAllIPs` of internal/core/service.go.
use mikrolb.Common.{
  ◌≡◌, sym, ◌∙◌, ◌⊎◌, ◌↔◌, inl, inr, true, List, [], ◌∷◌, ◌++◌, Bool-cases, if◌then◌else◌, subst,
}
use mikrolb.Net.{Addr, is_valid, addr_eq}
use mikrolb.Expectations.Staging.{addr_eq→≡}
use mikrolb.Service.{Service, compact_after, compact, get_all_ips}

-- Some element is the address.
abbrev pub Has : Addr → List Addr → Type 0
Has a [] = ⊥
Has a (x ∷ xs) = (x ≡ a) ⊎ Has a xs

Has-append : (a : Addr) (xs ys : List Addr) → Has a (xs ++ ys) ↔ (Has a xs ⊎ Has a ys)
Has-append a [] ys = (λ h. inr h, λ h. elim h [ inl n ↦ absurd n | inr m ↦ m ])
Has-append a (x ∷ xs) ys =
    let (to, from) = Has-append a xs ys in
    (
      λ h. elim h [
        | inl here ↦ inl (inl here)
        | inr later ↦ elim (to later) [ inl l ↦ inl (inr l) | inr r ↦ inr r ]
      ],
      λ h. elim h [
        | inl l ↦ elim l [ inl here ↦ inl here | inr later ↦ inr (from (inl later)) ]
        | inr r ↦ inr (from (inr r))
      ],
    )

compact_after-Has :
    (a x : Addr) (ys : List Addr)
    → (Has a (compact_after x ys) → Has a ys) × (Has a ys → (x ≡ a) ⊎ Has a (compact_after x ys))
unfolding compact_after
compact_after-Has a x [] = (λ h. h, λ h. absurd h)
compact_after-Has a x (y ∷ ys) =
    let (to, from) = compact_after-Has a y ys in
    elim (Bool-cases (addr_eq y x)) [
      | inl same ↦
          rw (same, compact_after)
            (
              λ h. inr (to h),
              λ h. elim h [
                | inl here ↦ inl (sym (addr_eq→≡ y x same) ∙ here)
                | inr later ↦ elim (from later) [
                  | inl here ↦ inl (sym (addr_eq→≡ y x same) ∙ here)
                  | inr rest ↦ inr rest
                ]
              ],
            )
      | inr other ↦
          rw (other, compact_after)
            (
              λ h. elim h [ inl here ↦ inl here | inr later ↦ inr (to later) ],
              λ h. elim h [
                | inl here ↦ inr (inl here)
                | inr later ↦ elim (from later) [
                  | inl here ↦ inr (inl here)
                  | inr rest ↦ inr (inr rest)
                ]
              ],
            )
    ]

compact-Has : (a : Addr) (xs : List Addr) → Has a (compact xs) ↔ Has a xs
unfolding compact
compact-Has a [] = (λ h. h, λ h. h)
compact-Has a (x ∷ xs) =
    let (to, from) = compact_after-Has a x xs in
    (
      λ h. elim h [ inl here ↦ inl here | inr later ↦ inr (to later) ],
      λ h. elim h [ inl here ↦ inl here | inr later ↦ from later ],
    )

optional-Has :
    (a x : Addr) → Has a (if is_valid x then x ∷ [] else []) ↔ ((x ≡ a) × (is_valid a ≡ true))
optional-Has a x = elim (Bool-cases (is_valid x)) [
  | inl v ↦ rw v (
    λ h. elim h [ inl here ↦ (here, subst (λ y. is_valid y ≡ true) here v) | inr n ↦ absurd n ],
    λ h. inl h.0,
  )
  | inr n ↦ rw n (λ h. absurd h, λ h. absurd (cc))
]

-- `GetAllIPs` gives exactly the load-balancer addresses and the valid addresses for SNAT.
pub get_all_ips-Has :
    (s : Service) (a : Addr)
    → Has a (get_all_ips s)
      ↔ (Has a s.lb_ips ⊎ (((s.snat_ipv4 ≡ a) ⊎ (s.snat_ipv6 ≡ a)) × (is_valid a ≡ true)))
unfolding get_all_ips
get_all_ips-Has s a =
    let last4 = if is_valid s.snat_ipv4 then s.snat_ipv4 ∷ [] else [] in
    let last6 = if is_valid s.snat_ipv6 then s.snat_ipv6 ∷ [] else [] in
    let (out, put) = compact-Has a (s.lb_ips ++ last4 ++ last6) in
    let (out1, put1) = Has-append a (s.lb_ips ++ last4) last6 in
    let (out2, put2) = Has-append a s.lb_ips last4 in
    let (out4, put4) = optional-Has a s.snat_ipv4 in
    let (out6, put6) = optional-Has a s.snat_ipv6 in
    (
      λ h. elim (out1 (out h)) [
        | inr x ↦ inr (inr (out6 x).0, (out6 x).1)
        | inl l ↦ elim (out2 l) [ inl m ↦ inl m | inr x ↦ inr (inl (out4 x).0, (out4 x).1) ]
      ],
      λ h. put (
          put1 (elim h [
            | inl l ↦ inl (put2 (inl l))
            | inr (x, v) ↦ elim x [
              | inl same ↦ inl (put2 (inr (put4 (same, v))))
              | inr same ↦ inr (put6 (same, v))
            ]
          ])),
    )
