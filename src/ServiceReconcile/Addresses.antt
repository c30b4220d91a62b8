-- ===== src/ServiceReconcile/Addresses.antt =====
-- The addresses that the loop of `ServiceReconciler.Reconcile` takes for the load balancer.
use mikrolb.Allocation.{IpAllocation, Meta}
use mikrolb.Common.{
  ◌≡◌, refl, sym, ◌∙◌, ap, subst, inl, inr, ◌⊎◌, ◌↔◌, true, false, Option, none, some, List, [],
  ◌∷◌, ◌++◌, Bool-cases, Member, Member-snoc, map, some-injective, if◌then◌else◌,
}
use mikrolb.Net.{Addr, invalid, v4, v6, IpFamily}
use mikrolb.Net.Text.{AddrText}
use mikrolb.ServiceReconcile.Annotations.{Plan}
use mikrolb.ServiceReconcile.Expected.{Expected}
use mikrolb.ServiceReconcile.Populate.{
  Populated, unpopulated, ready_address, is_lb_ip, family_missing, is_snat_ip, add_lb_ip,
  add_snat_ip, add_address, add_ready, populate,
}

pub none-some : {A : Type 0} {a : A} → ¬ ◌≡◌ {A = Option A} none (some a)
none-some h = absurd (cc)

map-snoc :
    {A B : Type 0} (f : A → B) (x : A) (xs : List A)
    → map f (xs ++ (x ∷ [])) ≡ map f xs ++ (f x ∷ [])
map-snoc f x [] = refl
map-snoc f x (y ∷ ys) = ap (λ l. f y ∷ l) (map-snoc f x ys)

module _ (conditions : Meta) (net : AddrText) (plan : Plan) (families : List IpFamily)
    (expected : List Expected) where
  -- An allocation of the list passes the loop's tests and has this address.
  abbrev pub Provided : List IpAllocation → Addr → Type 0
  Provided [] ip = ⊥
  Provided (alloc ∷ allocs) ip =
      (ready_address conditions net plan families expected alloc ≡ some ip) ⊎ Provided allocs ip

  -- The loop's tests on an address for the load balancer.
  abbrev pub IsTaken : Addr → Type 0
  IsTaken ip =
      (is_lb_ip conditions net plan families expected ip ≡ true)
      × (family_missing conditions net plan families expected ip ≡ false)

  -- The second state has the addresses of the first and those with the property, and both have the
  -- texts of their addresses for the ingress.
  abbrev Extends : (Addr → Type 0) → Populated → Populated → Type 0
  Extends New p q =
      ((ip : Addr) → Member ip q.lb_ips ↔ (Member ip p.lb_ips ⊎ New ip))
      × (p.ingress ≡ map net.addr_string p.lb_ips → q.ingress ≡ map net.addr_string q.lb_ips)

  Extends-refl : (p : Populated) → Extends (λ ip. ⊥) p p
  Extends-refl p = (λ ip. (λ h. inl h, λ h. elim h [ inl m ↦ m | inr n ↦ absurd n ]), λ e. e)

  Extends-map :
      {P Q : Addr → Type 0} (p q : Populated)
      → ((ip : Addr) → P ip ↔ Q ip)
      → Extends P p q
      → Extends Q p q
  Extends-map p q same (members, texts) = (
    λ ip. (
      λ h. elim ((members ip).0 h) [ inl m ↦ inl m | inr n ↦ inr ((same ip).0 n) ],
      λ h. (members ip).1 (elim h [ inl m ↦ inl m | inr n ↦ inr ((same ip).1 n) ]),
    ),
    texts,
  )

  Extends-trans :
      {P Q : Addr → Type 0} (p q r : Populated)
      → Extends P p q
      → Extends Q q r
      → Extends (λ ip. P ip ⊎ Q ip) p r
  Extends-trans p q r (first, texts) (second, texts') = (
    λ ip. (
      λ h. elim ((second ip).0 h) [
        | inr n ↦ inr (inr n)
        | inl m ↦ elim ((first ip).0 m) [ inl m' ↦ inl m' | inr n ↦ inr (inl n) ]
      ],
      λ h. (second ip).1 (elim h [
        | inl m ↦ inl ((first ip).1 (inl m))
        | inr n ↦ elim n [ inl x ↦ inl ((first ip).1 (inr x)) | inr y ↦ inr y ]
      ]),
    ),
    λ e. texts' (texts e),
  )

  add_lb_ip-Extends :
      (ip : Addr) (p : Populated)
      → Extends (λ a. ip ≡ a) p (add_lb_ip conditions net plan families expected ip p)
  unfolding add_lb_ip
  add_lb_ip-Extends ip p = (
    λ a. Member-snoc a ip p.lb_ips,
    λ e. ap (λ l. l ++ (net.addr_string ip ∷ [])) e ∙ sym (map-snoc net.addr_string ip p.lb_ips),
  )

  add_snat_ip-Extends :
      (ip : Addr) (p : Populated)
      → Extends (λ a. ⊥) p (add_snat_ip conditions net plan families expected ip p)
  unfolding add_snat_ip
  add_snat_ip-Extends invalid p = Extends-refl p
  add_snat_ip-Extends (v4 n) p = Extends-refl p
  add_snat_ip-Extends (v6 n) p = Extends-refl p

  with_snat-Extends :
      {P : Addr → Type 0} (ip : Addr) (p q : Populated)
      → Extends P p q
      → Extends P p (
          if is_snat_ip conditions net plan families expected ip
          then add_snat_ip conditions net plan families expected ip q
          else q)
  with_snat-Extends {P = P} ip p q h =
      elim (Bool-cases (is_snat_ip conditions net plan families expected ip)) [
        | inr no_snat ↦ rw no_snat h
        | inl snat ↦ rw snat (
            Extends-map {P = λ a. P a ⊎ ⊥} {Q = P} p
              (add_snat_ip conditions net plan families expected ip q)
              (λ a. (λ x. elim x [ inl y ↦ y | inr n ↦ absurd n ], λ y. inl y))
              (Extends-trans {P = P} {Q = λ a. ⊥} p q
                (add_snat_ip conditions net plan families expected ip q) h
                (add_snat_ip-Extends ip q)))
      ]

  add_address-Extends :
      (ip : Addr) (p : Populated)
      → Extends
          (λ a. (ip ≡ a) × IsTaken a)
          p
          (add_address conditions net plan families expected ip p)
  unfolding add_address
  add_address-Extends ip p =
      let nothing : ¬ IsTaken ip → Extends (λ a. (ip ≡ a) × IsTaken a) p p = λ n.
        Extends-map {P = λ a. ⊥} {Q = λ a. (ip ≡ a) × IsTaken a} p p
          (λ a. (λ x. absurd x, λ x. n (subst IsTaken (sym x.0) x.1))) (Extends-refl p) in
      elim (Bool-cases (is_lb_ip conditions net plan families expected ip)) [
        | inr other ↦
            rw (other, add_address) (with_snat-Extends ip p p (nothing (λ f. absurd (cc))))
        | inl lb ↦ elim (Bool-cases (family_missing conditions net plan families expected ip)) [
          | inl missing ↦
              rw (lb, add_address) (rw (missing, add_address) (nothing (λ f. absurd (cc))))
          | inr present ↦
              let q = add_lb_ip conditions net plan families expected ip p in
              rw (lb, add_address)
                (rw (present, add_address)
                  (with_snat-Extends ip p q (
                    Extends-map {P = λ a. ip ≡ a} {Q = λ a. (ip ≡ a) × IsTaken a} p q
                      (λ a. (λ e. (e, subst IsTaken e (lb, present)), λ x. x.0))
                      (add_lb_ip-Extends ip p))))
        ]
      ]

  add_ready-Extends :
      (o : Option Addr) (p : Populated)
      → Extends
          (λ a. (o ≡ some a) × IsTaken a)
          p
          (add_ready conditions net plan families expected o p)
  unfolding add_ready
  add_ready-Extends none p =
      Extends-map {P = λ a. ⊥} {Q = λ a. (none ≡ some a) × IsTaken a} p p
        (λ a. (λ x. absurd x, λ x. none-some x.0)) (Extends-refl p)
  add_ready-Extends (some ip) p =
      Extends-map {P = λ a. (ip ≡ a) × IsTaken a} {Q = λ a. (some ip ≡ some a) × IsTaken a} p
        (add_address conditions net plan families expected ip p)
        (λ a. (λ x. (ap some x.0, x.1), λ x. (some-injective x.0, x.1))) (add_address-Extends ip p)

  populate-Extends :
      (p : Populated) (allocs : List IpAllocation)
      → Extends
          (λ a. Provided allocs a × IsTaken a)
          p
          (populate conditions net plan families expected p allocs)
  unfolding populate
  populate-Extends p [] =
      Extends-map {P = λ a. ⊥} {Q = λ a. ⊥ × IsTaken a} p p (λ a. (λ x. absurd x, λ x. x.0))
        (Extends-refl p)
  populate-Extends p (alloc ∷ allocs) =
      let ready = ready_address conditions net plan families expected alloc in
      let q = add_ready conditions net plan families expected ready p in
      let r = populate conditions net plan families expected q allocs in
      Extends-map {P = λ a. ((ready ≡ some a) × IsTaken a) ⊎ (Provided allocs a × IsTaken a)}
        {Q = λ a. Provided (alloc ∷ allocs) a × IsTaken a} p r
        (λ a. (
          λ x. elim x [ inl y ↦ (inl y.0, y.1) | inr y ↦ (inr y.0, y.1) ],
          λ x. elim x.0 [ inl y ↦ inl (y, x.1) | inr y ↦ inr (y, x.1) ],
        ))
        (Extends-trans {P = λ a. (ready ≡ some a) × IsTaken a}
          {Q = λ a. Provided allocs a × IsTaken a} p q r (add_ready-Extends ready p)
          (populate-Extends q allocs))

  -- The addresses taken, by the tests of the loop.
  pub populate-IsTaken :
      (allocs : List IpAllocation)
      → let p = populate conditions net plan families expected unpopulated allocs in
        ((ip : Addr) → Member ip p.lb_ips ↔ (Provided allocs ip × IsTaken ip))
        × (p.ingress ≡ map net.addr_string p.lb_ips)
  populate-IsTaken allocs =
      let (members, texts) = populate-Extends unpopulated allocs in
      (
        λ ip. (
          λ h. elim ((members ip).0 h) [ inl n ↦ absurd n | inr x ↦ x ],
          λ x. (members ip).1 (inr x),
        ),
        texts refl,
      )
