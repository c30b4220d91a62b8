-- ===== src/PoolStatus/Counts.antt =====
-- The addresses that a pool counts as allocated.
use mathlib.Core.Bool.{false≢true}
use mikrolb.Common.{
  ◌≡◌, ◌≢◌, refl, ap, sym, ◌∙◌, ◌⊎◌, ◌↔◌, inl, inr, Bool, ◌&&◌, true, some, List, [], ◌∷◌,
  Bool-cases, Option-cases, subst, String, str_eq, eq_iff, length, some-injective, both_hold,
}
use mikrolb.Net.{Addr, is_valid, addr_eq}
use mikrolb.Net.Text.{AddrText}
use mikrolb.IpRangeSet.{contains_set}
use mikrolb.Pool.{Pool, pool_addresses}
use mikrolb.Allocation.{IpAllocation}
use mikrolb.Expectations.Staging.{addr_eq→≡, addr_eq_self}
use mikrolb.Service.Ips.{Has}
use mikrolb.PoolStatus.{has_addr, add_addr, matched_address, allocated_from, pool_counts}

-- No address is there twice.
abbrev pub IsDistinct : List Addr → Type 0
IsDistinct [] = Unit {0}
IsDistinct (x ∷ xs) = (¬ Has x xs) × IsDistinct xs

Has-has_addr : (a : Addr) (xs : List Addr) → has_addr a xs ≡ true → Has a xs
unfolding has_addr
Has-has_addr a [] h = absurd (cc)
Has-has_addr a (x ∷ xs) h = elim (Bool-cases (addr_eq a x)) [
  | inl same ↦ inl (sym (addr_eq→≡ a x same))
  | inr other ↦ inr (Has-has_addr a xs (rw other at h))
]

has_addr-Has : (a : Addr) (xs : List Addr) → Has a xs → has_addr a xs ≡ true
unfolding has_addr
has_addr-Has a [] h = absurd h
has_addr-Has a (x ∷ xs) h = elim (Bool-cases (addr_eq a x)) [
  | inl same ↦ rw same refl
  | inr other ↦ elim h [
    | inl here ↦ absurd (false≢true (sym other ∙ ap (addr_eq a) here ∙ addr_eq_self a))
    | inr m ↦ rw other (has_addr-Has a xs m)
  ]
]

add_addr-IsDistinct : (a : Addr) (xs : List Addr) → IsDistinct xs → IsDistinct (add_addr a xs)
unfolding add_addr
add_addr-IsDistinct a xs h = elim (Bool-cases (has_addr a xs)) [
  | inl there ↦ rw (there, add_addr) h
  | inr fresh ↦ rw (fresh, add_addr) (λ m. false≢true (sym fresh ∙ has_addr-Has a xs m), h)
]

add_addr-Has : (a b : Addr) (xs : List Addr) → Has b (add_addr a xs) ↔ ((a ≡ b) ⊎ Has b xs)
unfolding add_addr
add_addr-Has a b xs = elim (Bool-cases (has_addr a xs)) [
  | inl there ↦
      rw (there, add_addr)
        (
          λ h. inr h,
          λ h. elim h [
            | inl same ↦ subst (λ x. Has x xs) same (Has-has_addr a xs there)
            | inr m ↦ m
          ],
        )
  | inr fresh ↦ rw (fresh, add_addr) (λ h. h, λ h. h)
]

module _ (net : AddrText) (pool : Pool) where
  -- The test on an address: it is valid and the pool's set contains it.
  abbrev inside : Addr → Bool
  inside a = is_valid a && contains_set (pool_addresses net pool) a

  -- The text of the allocation's status is that of the address, which the pool's set contains.
  abbrev pub HasInPool : Addr → IpAllocation → Type 0
  HasInPool a alloc =
      (◌≢◌ {A = String} alloc.status.address "")
      × (net.parse_addr alloc.status.address ≡ some a)
      × (is_valid a ≡ true)
      × (contains_set (pool_addresses net pool) a ≡ true)

  -- Some allocation has the address, in the pool.
  abbrev pub IsAllocated : Addr → List IpAllocation → Type 0
  IsAllocated a [] = ⊥
  IsAllocated a (alloc ∷ allocs) = HasInPool a alloc ⊎ IsAllocated a allocs

  matched_address-HasInPool :
      (a : Addr) (alloc : IpAllocation)
      → (matched_address net pool alloc ≡ some a) ↔ HasInPool a alloc
  unfolding matched_address
  matched_address-HasInPool a alloc =
      let (same, text) = eq_iff alloc.status.address "" in
      elim (Bool-cases (str_eq alloc.status.address "")) [
        | inl empty ↦ rw (empty, matched_address) (λ h. absurd (cc), λ h. absurd (h.0 (same empty)))
        | inr given ↦ elim (Option-cases (net.parse_addr alloc.status.address)) [
          | inl bad ↦
              rw (given, matched_address)
                (rw (bad, matched_address) (λ h. absurd (cc), λ h. absurd (cc (h.1))))
          | inr (b, read) ↦
              let nonempty : ¬ (◌≡◌ {A = String} alloc.status.address "") =
                λ e. false≢true (sym given ∙ text e) in
              elim (Bool-cases (inside b)) [
                | inl within ↦
                    rw (given, matched_address)
                      (rw (read, matched_address)
                        (rw (within, matched_address)
                          (
                            λ h.
                                let (valid, there) =
                                  both_hold (is_valid a) (contains_set (pool_addresses net pool) a)
                                    (ap inside (sym (some-injective h)) ∙ within) in
                                (nonempty, h, valid, there),
                            λ h. h.1,
                          )))
                | inr outside ↦
                    rw (given, matched_address)
                      (rw (read, matched_address)
                        (rw (outside, matched_address)
                          (
                            λ h. absurd (cc),
                            λ h. absurd (
                                false≢true
                                  (sym outside ∙ ap inside (some-injective h.1) ∙ rw (h.2) (h.3))),
                          )))
              ]
        ]
      ]

  -- The allocations as the loop tests them.
  abbrev IsMatched : Addr → List IpAllocation → Type 0
  IsMatched a [] = ⊥
  IsMatched a (alloc ∷ allocs) = (matched_address net pool alloc ≡ some a) ⊎ IsMatched a allocs

  IsMatched-IsAllocated :
      (a : Addr) (allocs : List IpAllocation) → IsMatched a allocs ↔ IsAllocated a allocs
  IsMatched-IsAllocated a [] = (λ h. h, λ h. h)
  IsMatched-IsAllocated a (alloc ∷ allocs) =
      let (one_to, one_from) = matched_address-HasInPool a alloc in
      let (to, from) = IsMatched-IsAllocated a allocs in
      (
        λ h. elim h [ inl x ↦ inl (one_to x) | inr y ↦ inr (to y) ],
        λ h. elim h [ inl x ↦ inl (one_from x) | inr y ↦ inr (from y) ],
      )

  from_lem :
      (a : Addr) (seen : List Addr) (allocs : List IpAllocation)
      → Has a (allocated_from net pool seen allocs) ↔ (Has a seen ⊎ IsMatched a allocs)
  unfolding allocated_from
  from_lem a seen [] = (λ h. inl h, λ h. elim h [ inl m ↦ m | inr n ↦ absurd n ])
  from_lem a seen (alloc ∷ allocs) = elim (Option-cases (matched_address net pool alloc)) [
    | inl outside ↦
        let (to, from) = from_lem a seen allocs in
        rw (outside, allocated_from)
          (
            λ h. elim (to h) [ inl m ↦ inl m | inr n ↦ inr (inr n) ],
            λ h. elim h [
              | inl m ↦ from (inl m)
              | inr n ↦ elim n [ inl x ↦ absurd (cc) | inr y ↦ from (inr y) ]
            ],
          )
    | inr (b, inside) ↦
        let (to, from) = from_lem a (add_addr b seen) allocs in
        let (old, new) = add_addr-Has b a seen in
        rw (inside, allocated_from)
          (
            λ h. elim (to h) [
              | inl m ↦ elim (old m) [ inl same ↦ inr (inl (ap some same)) | inr k ↦ inl k ]
              | inr n ↦ inr (inr n)
            ],
            λ h. elim h [
              | inl m ↦ from (inl (new (inr m)))
              | inr n ↦ elim n [ inl same ↦ from (inl (new (inl (cc)))) | inr y ↦ from (inr y) ]
            ],
          )
  ]

  from-IsDistinct :
      (seen : List Addr) (allocs : List IpAllocation)
      → IsDistinct seen
      → IsDistinct (allocated_from net pool seen allocs)
  unfolding allocated_from
  from-IsDistinct seen [] h = h
  from-IsDistinct seen (alloc ∷ allocs) h = elim (Option-cases (matched_address net pool alloc)) [
    | inl outside ↦ rw (outside, allocated_from) (from-IsDistinct seen allocs h)
    | inr (b, inside) ↦
        rw (inside, allocated_from)
          (from-IsDistinct (add_addr b seen) allocs (add_addr-IsDistinct b seen h))
  ]

  -- The addresses that the pool's count of allocated addresses counts.
  abbrev pub IsCount : List IpAllocation → List Addr → Type 0
  IsCount allocs xs =
      ((pool_counts net pool allocs).allocated_addresses ≡ length xs)
      × IsDistinct xs
      × ((a : Addr) → Has a xs ↔ IsAllocated a allocs)

  -- The pool's count of allocated addresses is the length of a list without repetition, of exactly
  -- the valid addresses that the pool's set contains and that the status of some allocation has.
  pub pool_counts-IsCount : (allocs : List IpAllocation) → (xs : List Addr) × IsCount allocs xs
  unfolding pool_counts
  pool_counts-IsCount allocs =
      let exact : (a : Addr) → Has a (allocated_from net pool [] allocs) ↔ IsAllocated a allocs =
        λ a.
          let (to, from) = from_lem a [] allocs in
          let (seen, had) = IsMatched-IsAllocated a allocs in
          (λ h. elim (to h) [ inl n ↦ absurd n | inr m ↦ seen m ], λ h. from (inr (had h))) in
      (allocated_from net pool [] allocs, (refl, from-IsDistinct [] allocs tt, exact))
