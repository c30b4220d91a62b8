-- ===== src/ServiceReconcile/Greatest.antt =====
-- The addresses that the loop of `ServiceReconciler.Reconcile` takes for SNAT.
use mikrolb.Allocation.{IpAllocation, Meta}
use mikrolb.Common.{
  ◌<◌, ◌≤◌, ◌≡◌, refl, sym, ◌∙◌, ap, subst, inl, inr, ◌⊎◌, ◌↔◌, true, false, ◌&&◌, Option, none,
  some, List, [], ◌∷◌, Bool-cases, some-injective, if◌then◌else◌, arith,
}
use mikrolb.Net.{Addr, invalid, v4, v6, IpFamily, ipv4, ipv6, unknown, value, less, compare_addr}
use mikrolb.Net.Text.{AddrText}
use mikrolb.ServiceReconcile.Addresses.{none-some, Provided}
use mikrolb.ServiceReconcile.Annotations.{Plan}
use mikrolb.ServiceReconcile.Expected.{Expected}
use mikrolb.ServiceReconcile.Populate.{
  Populated, unpopulated, ready_address, is_lb_ip, family_missing, is_snat_ip, greater, add_lb_ip,
  add_snat_ip, add_address, add_ready, populate,
}

-- The address is the greatest with the property, or invalid where there is none.
abbrev pub IsGreatest : (Addr → Type 0) → Addr → Type 0
IsGreatest P a =
    ((a ≡ invalid) × ((b : Addr) → ¬ P b)) ⊎ (P a × ((b : Addr) → P b → value b ≤ value a))

IsGreatest-map :
    (P Q : Addr → Type 0) (a : Addr) → ((b : Addr) → P b ↔ Q b) → IsGreatest P a → IsGreatest Q a
IsGreatest-map P Q a same h = elim h [
  | inl (e, none_of) ↦ inl (e, λ b q. none_of b ((same b).1 q))
  | inr (p, most) ↦ inr ((same a).0 p, λ b q. most b ((same b).1 q))
]

-- The field of a family.
abbrev pub snat_of : IpFamily → Populated → Addr
snat_of ipv4 p = p.snat_ipv4
snat_of ipv6 p = p.snat_ipv6
snat_of unknown p = invalid

-- An address of IPv4 or IPv6, and of this family.
abbrev pub IsIn : IpFamily → Addr → Type 0
IsIn ipv4 (v4 n) = Unit
IsIn ipv6 (v6 n) = Unit
IsIn _ _ = ⊥

module _ (conditions : Meta) (net : AddrText) (plan : Plan) (families : List IpFamily)
    (expected : List Expected) where
  greater-cases :
      (f : IpFamily) (old ip : Addr)
      → IsIn f old
      → IsIn f ip
      → ((greater conditions net plan families expected old ip ≡ ip) × (value old < value ip))
        ⊎ ((greater conditions net plan families expected old ip ≡ old) × (value ip ≤ value old))
  unfolding greater less compare_addr
  greater-cases ipv4 (v4 n) (v4 m) h k = ground arith
  greater-cases ipv6 (v6 n) (v6 m) h k = ground arith
  greater-cases _ _ _ h k = ground arith

  greater-IsGreatest :
      (f : IpFamily) (P : Addr → Type 0) (old ip : Addr)
      → ((b : Addr) → P b → IsIn f b)
      → IsIn f ip
      → IsGreatest P old
      → IsGreatest (λ b. P b ⊎ (ip ≡ b)) (greater conditions net plan families expected old ip)
  unfolding greater
  greater-IsGreatest f P old ip within here h = elim h [
    | inl (e, none_of) ↦ rw e (
        inr (
          inr refl,
          λ b x. elim x [ inl p ↦ absurd (none_of b p) | inr same ↦ omega (arith, ap value same) ],
        ))
    | inr (p, most) ↦ elim (greater-cases f old ip (within old p) here) [
      | inl (e, lt) ↦ rw e (
          inr (
            inr refl,
            λ b x. elim x [
              | inl q ↦ omega (arith, most b q, lt)
              | inr same ↦ omega (arith, ap value same)
            ],
          ))
      | inr (e, le) ↦ rw e (
          inr (
            inl p,
            λ b x. elim x [ inl q ↦ most b q | inr same ↦ omega (arith, le, ap value same) ],
          ))
    ]
  ]

  -- The address is for SNAT, and the loop does not pass it over.
  abbrev pub IsForSnat : IpFamily → Addr → Type 0
  IsForSnat f ip =
      IsIn f ip
      × (is_snat_ip conditions net plan families expected ip ≡ true)
      × (is_lb_ip conditions net plan families expected ip
            && family_missing conditions net plan families expected ip
          ≡ false)

  -- What the state has for the family is the greatest with the property, which the family's have.
  abbrev Holds : IpFamily → (Addr → Type 0) → Populated → Type 0
  Holds f P p = ((b : Addr) → P b → IsIn f b) × IsGreatest P (snat_of f p)

  add_lb_ip-snat_of :
      (f : IpFamily) (ip : Addr) (p : Populated)
      → snat_of f (add_lb_ip conditions net plan families expected ip p) ≡ snat_of f p
  unfolding add_lb_ip
  add_lb_ip-snat_of ipv4 ip p = refl
  add_lb_ip-snat_of ipv6 ip p = refl
  add_lb_ip-snat_of unknown ip p = refl

  -- The address is of the family and compared, or it leaves the field as it is.
  add_snat_ip-snat_of :
      (f : IpFamily) (ip : Addr) (p : Populated)
      → (IsIn f ip
          × (snat_of f (add_snat_ip conditions net plan families expected ip p)
              ≡ greater conditions net plan families expected (snat_of f p) ip))
        ⊎ (¬ IsIn f ip
            × (snat_of f (add_snat_ip conditions net plan families expected ip p) ≡ snat_of f p))
  unfolding add_snat_ip
  add_snat_ip-snat_of ipv4 invalid p = inr (λ n. n, refl)
  add_snat_ip-snat_of ipv4 (v4 n) p = inl (tt, refl)
  add_snat_ip-snat_of ipv4 (v6 n) p = inr (λ n. n, refl)
  add_snat_ip-snat_of ipv6 invalid p = inr (λ n. n, refl)
  add_snat_ip-snat_of ipv6 (v4 n) p = inr (λ n. n, refl)
  add_snat_ip-snat_of ipv6 (v6 n) p = inl (tt, refl)
  add_snat_ip-snat_of unknown invalid p = inr (λ n. n, refl)
  add_snat_ip-snat_of unknown (v4 n) p = inr (λ n. n, refl)
  add_snat_ip-snat_of unknown (v6 n) p = inr (λ n. n, refl)

  -- With the load balancer's address, if it is one.
  with_lb-snat_of :
      (f : IpFamily) (ip : Addr) (p : Populated)
      → snat_of f (
          if is_lb_ip conditions net plan families expected ip
          then add_lb_ip conditions net plan families expected ip p
          else p)
        ≡ snat_of f p
  with_lb-snat_of f ip p = elim (Bool-cases (is_lb_ip conditions net plan families expected ip)) [
    | inl lb ↦ rw lb (add_lb_ip-snat_of f ip p)
    | inr other ↦ rw other refl
  ]

  add_address-IsGreatest :
      (f : IpFamily) (P : Addr → Type 0) (ip : Addr) (p : Populated)
      → Holds f P p
      → IsGreatest
          (λ b. P b ⊎ ((ip ≡ b) × IsForSnat f b))
          (snat_of f (add_address conditions net plan families expected ip p))
  unfolding add_address
  add_address-IsGreatest f P ip p (within, h) =
      let New : Addr → Type 0 = λ b. P b ⊎ ((ip ≡ b) × IsForSnat f b) in
      let unchanged : ¬ IsForSnat f ip → (a : Addr) → a ≡ snat_of f p → IsGreatest New a = λ n a e.
        IsGreatest-map P New a
          (λ b. (
            λ x. inl x,
            λ y. elim y [
              | inl x ↦ x
              | inr (same, s) ↦ absurd (n (subst (IsForSnat f) (sym same) s))
            ],
          ))
          (subst (IsGreatest P) (sym e) h) in
      let q =
        if is_lb_ip conditions net plan families expected ip
        then add_lb_ip conditions net plan families expected ip p
        else p in
      let same_q = with_lb-snat_of f ip p in
      elim (Bool-cases (
        is_lb_ip conditions net plan families expected ip
        && family_missing conditions net plan families expected ip)) [
          | inl skipped ↦
              rw (skipped, add_address) (unchanged (λ s. absurd (cc)) (snat_of f p) refl)
          | inr taken ↦ elim (Bool-cases (is_snat_ip conditions net plan families expected ip)) [
            | inr other ↦
                rw (taken, add_address)
                  (rw (other, add_address) (unchanged (λ s. absurd (cc)) (snat_of f q) same_q))
            | inl snat ↦
                rw (taken, add_address)
                  (rw (snat, add_address)
                    (elim (add_snat_ip-snat_of f ip q) [
                      | inr (out, e) ↦ unchanged (λ s. out s.0) _ (e ∙ same_q)
                      | inl (here, e) ↦
                          subst (IsGreatest New)
                            (sym (
                              e
                              ∙ ap (λ a. greater conditions net plan families expected a ip)
                                  same_q))
                            (IsGreatest-map (λ b. P b ⊎ (ip ≡ b)) New _
                              (λ b. (
                                λ x. elim x [
                                  | inl y ↦ inl y
                                  | inr same ↦
                                      inr (same, subst (IsForSnat f) same (here, snat, taken))
                                ],
                                λ x. elim x [ inl y ↦ inl y | inr (same, s) ↦ inr same ],
                              ))
                              (greater-IsGreatest f P (snat_of f p) ip within here h))
                    ]))
          ]
        ]

  add_ready-IsGreatest :
      (f : IpFamily) (P : Addr → Type 0) (o : Option Addr) (p : Populated)
      → Holds f P p
      → IsGreatest
          (λ b. P b ⊎ ((o ≡ some b) × IsForSnat f b))
          (snat_of f (add_ready conditions net plan families expected o p))
  unfolding add_ready
  add_ready-IsGreatest f P none p h =
      IsGreatest-map P (λ b. P b ⊎ ((none ≡ some b) × IsForSnat f b)) (snat_of f p)
        (λ b. (λ x. inl x, λ y. elim y [ inl x ↦ x | inr (e, s) ↦ absurd (none-some e) ])) h.1
  add_ready-IsGreatest f P (some ip) p h =
      IsGreatest-map (λ b. P b ⊎ ((ip ≡ b) × IsForSnat f b))
        (λ b. P b ⊎ ((some ip ≡ some b) × IsForSnat f b))
        (snat_of f (add_address conditions net plan families expected ip p))
        (λ b. (
          λ x. elim x [ inl y ↦ inl y | inr (e, s) ↦ inr (ap some e, s) ],
          λ x. elim x [ inl y ↦ inl y | inr (e, s) ↦ inr (some-injective e, s) ],
        ))
        (add_address-IsGreatest f P ip p h)

  -- An address for SNAT that an expected and ready allocation has.
  abbrev pub IsCandidate : IpFamily → List IpAllocation → Addr → Type 0
  IsCandidate f allocs b = Provided conditions net plan families expected allocs b × IsForSnat f b

  populate_lem :
      (f : IpFamily) (P : Addr → Type 0) (allocs : List IpAllocation) (p : Populated)
      → Holds f P p
      → IsGreatest
          (λ b. P b ⊎ IsCandidate f allocs b)
          (snat_of f (populate conditions net plan families expected p allocs))
  unfolding populate
  populate_lem f P [] p h =
      IsGreatest-map P (λ b. P b ⊎ (⊥ × IsForSnat f b)) (snat_of f p)
        (λ b. (λ x. inl x, λ y. elim y [ inl x ↦ x | inr (n, s) ↦ absurd n ])) h.1
  populate_lem f P (alloc ∷ allocs) p h =
      let ready = ready_address conditions net plan families expected alloc in
      let q = add_ready conditions net plan families expected ready p in
      let Q : Addr → Type 0 = λ b. P b ⊎ ((ready ≡ some b) × IsForSnat f b) in
      IsGreatest-map (λ b. Q b ⊎ IsCandidate f allocs b)
        (λ b. P b ⊎ IsCandidate f (alloc ∷ allocs) b)
        (snat_of f (populate conditions net plan families expected q allocs))
        (λ b. (
          λ x. elim x [
            | inl y ↦ elim y [ inl z ↦ inl z | inr (e, s) ↦ inr (inl e, s) ]
            | inr (m, s) ↦ inr (inr m, s)
          ],
          λ x. elim x [
            | inl y ↦ inl (inl y)
            | inr (m, s) ↦ elim m [ inl e ↦ inl (inr (e, s)) | inr later ↦ inr (later, s) ]
          ],
        ))
        (populate_lem f Q allocs q (
          λ b x. elim x [ inl y ↦ h.0 b y | inr (e, s) ↦ s.0 ],
          add_ready-IsGreatest f P ready p h,
        ))

  -- The address for SNAT of each family is the greatest of the addresses for SNAT that expected and
  -- ready allocations have and that the loop does not pass over, and invalid where there is none.
  pub populate-IsGreatest :
      (f : IpFamily) (allocs : List IpAllocation)
      → IsGreatest
          (IsCandidate f allocs)
          (snat_of f (populate conditions net plan families expected unpopulated allocs))
  populate-IsGreatest f allocs =
      IsGreatest-map (λ b. ⊥ ⊎ IsCandidate f allocs b) (IsCandidate f allocs) _
        (λ b. (λ x. elim x [ inl n ↦ absurd n | inr y ↦ y ], λ y. inr y))
        (populate_lem f (λ b. ⊥) allocs unpopulated (λ b n. absurd n, inl (nothing f, λ b n. n)))
    where
      nothing : (f : IpFamily) → snat_of f unpopulated ≡ invalid
      nothing ipv4 = refl
      nothing ipv6 = refl
      nothing unknown = refl
