-- ===== src/ServiceReconcile/Provided.antt =====
-- The load balancer's addresses in `ServiceReconciler.Reconcile`, told by the allocations' states and
-- the service's annotations and families.
use mathlib.Core.Bool.{false≢true}
use mikrolb.Allocation.{
  IpAllocation, ready_type, Condition, ConditionStatus, status_true, status_false, status_unknown,
  Meta,
}
use mikrolb.Backend.Lists.{has_addr}
use mikrolb.Common.{
  ◌≡◌, ◌≢◌, refl, sym, ap, ◌∙◌, inl, inr, ◌⊎◌, ◌↔◌, Bool, none, if◌then◌else◌, true, false, not,
  ◌||◌, some, List, [], ◌∷◌, Option-cases, Bool-cases, Member, map, some-injective, String, str_eq,
  eq_iff,
}
use mikrolb.Expectations.Staging.{addr_eq→≡, addr_eq_self}
use mikrolb.IpRangeSet.Methods.{family_eq→≡}
use mikrolb.Net.{Addr, invalid, v4, v6, IpFamily, ipv4, ipv6, addr_eq, family_eq}
use mikrolb.Net.Order.{family_eq_self}
use mikrolb.Net.Text.{AddrText}
use mikrolb.ServiceReconcile.Addresses.{Provided as Passed, IsTaken, populate-IsTaken}
use mikrolb.ServiceReconcile.Annotations.{Plan}
use mikrolb.ServiceReconcile.Expected.{Expected, is_expected}
use mikrolb.ServiceReconcile.Populate.{
  unpopulated, is_true, has_family, ready_address, is_lb_ip, family_missing, populate,
}

or_not :
    {A B : Type 0} (p q : Bool) → (p ≡ true) ↔ A → (q ≡ true) ↔ B → (p || not q ≡ true) ↔ (A ⊎ ¬ B)
or_not true q a b = (λ h. inl (a.0 refl), λ h. refl)
or_not false true a b = (
  λ h. absurd (false≢true h),
  λ h. elim h [ inl x ↦ absurd (false≢true (a.1 x)) | inr n ↦ absurd (n (b.0 refl)) ],
)
or_not false false a b = (λ h. inr (λ y. false≢true (b.1 y)), λ h. refl)

-- A test that holds exactly of the members of a list.
abbrev Decides : {A : Type 0} → A → List A → Bool → Type 0
Decides a xs found = (found ≡ true) ↔ Member a xs

first_or_later :
    {A : Type 0} (a x : A) (xs : List A) (same found : Bool)
    → (same ≡ true) ↔ (x ≡ a)
    → Decides a xs found
    → Decides a (x ∷ xs) (same || found)
first_or_later a x xs true found here later = (λ h. inl (here.0 refl), λ h. refl)
first_or_later a x xs false found here later = (
  λ h. inr (later.0 h),
  λ h. elim h [ inl e ↦ absurd (false≢true (here.1 e)) | inr m ↦ later.1 m ],
)

has_addr-Decides : (xs : List Addr) (a : Addr) → Decides a xs (has_addr xs a)
unfolding has_addr
has_addr-Decides [] a = (λ h. absurd (false≢true h), λ h. absurd h)
has_addr-Decides (x ∷ xs) a =
    first_or_later a x xs (addr_eq x a) (has_addr xs a)
      (λ h. addr_eq→≡ x a h, λ e. ap (λ y. addr_eq y a) e ∙ addr_eq_self a) (has_addr-Decides xs a)

has_family-Decides : (fs : List IpFamily) (f : IpFamily) → Decides f fs (has_family fs f)
unfolding has_family
has_family-Decides [] f = (λ h. absurd (false≢true h), λ h. absurd h)
has_family-Decides (g ∷ fs) f =
    first_or_later f g fs (family_eq g f) (has_family fs f)
      (λ h. family_eq→≡ g f h, λ e. ap (λ y. family_eq y f) e ∙ family_eq_self f)
      (has_family-Decides fs f)

is_expected-Decides :
    (name : String) (es : List Expected) → Decides name (map (λ e. e.name) es) (is_expected name es)
unfolding is_expected
is_expected-Decides name [] = (λ h. absurd (false≢true h), λ h. absurd h)
is_expected-Decides name (e ∷ es) =
    let (to, from) = eq_iff name e.name in
    first_or_later name e.name (map (λ e. e.name) es) (str_eq name e.name) (is_expected name es)
      (λ h. sym (to h), λ same. from (sym same)) (is_expected-Decides name es)

module _ (conditions : Meta) (net : AddrText) (plan : Plan) (families : List IpFamily)
    (expected : List Expected) where
  -- The allocation's ready condition is there and true.
  abbrev pub IsReady : IpAllocation → Type 0
  IsReady alloc =
      (c : Condition) × (conditions.find_status_condition alloc.status.conditions ready_type
        ≡ some c)
      × (c.status ≡ status_true)

  -- The allocation has one of the expected names and is ready, and the text in its status is read
  -- as the address.
  abbrev pub Provides : Addr → IpAllocation → Type 0
  Provides ip alloc =
      Member alloc.name (map (λ e. e.name) expected)
      × IsReady alloc
      × (◌≢◌ {A = String} alloc.status.address "")
      × (net.parse_addr alloc.status.address ≡ some ip)

  abbrev pub Provided : List IpAllocation → Addr → Type 0
  Provided [] ip = ⊥
  Provided (alloc ∷ allocs) ip = Provides ip alloc ⊎ Provided allocs ip

  -- The service has the address's family.
  abbrev pub IsServed : Addr → Type 0
  IsServed invalid = Unit
  IsServed (v4 n) = Member ipv4 families
  IsServed (v6 n) = Member ipv6 families

  -- The annotations name the address for the load balancer, or do not name it for SNAT, and the
  -- service has its family.
  abbrev pub IsForLb : Addr → Type 0
  IsForLb ip = (Member ip plan.lb_addresses ⊎ ¬ Member ip plan.snat_addresses) × IsServed ip

  true_status : (s : ConditionStatus) → (is_true s ≡ true) ↔ (s ≡ status_true)
  true_status status_true = (λ h. refl, λ h. refl)
  true_status status_false = (λ h. absurd (false≢true h), λ h. absurd (cc))
  true_status status_unknown = (λ h. absurd (false≢true h), λ h. absurd (cc))

  unready :
      (c d : Condition) → is_true c.status ≡ false → some c ≡ some d → ¬ (d.status ≡ status_true)
  unready c d other same holds = false≢true (
      sym other ∙ ap (λ x. is_true x.status) (some-injective same) ∙ (true_status d.status).1 holds)

  -- An address is read from the text unless it is empty.
  read_text :
      (s : String) (ip : Addr)
      → ((if str_eq s "" then none else net.parse_addr s) ≡ some ip)
        ↔ ((◌≢◌ {A = String} s "") × (net.parse_addr s ≡ some ip))
  read_text s ip =
      let (blank, empty) = eq_iff s "" in
      elim (Bool-cases (str_eq s "")) [
        | inl nothing ↦ rw nothing (λ h. absurd (cc), λ h. absurd (h.0 (blank nothing)))
        | inr given ↦ rw given (λ h. (λ e. false≢true (sym given ∙ empty e), h), λ h. h.1)
      ]

  ready_address-Provides :
      (ip : Addr) (alloc : IpAllocation)
      → (ready_address conditions net plan families expected alloc ≡ some ip) ↔ Provides ip alloc
  unfolding ready_address
  ready_address-Provides ip alloc =
      let (known, named) = is_expected-Decides alloc.name expected in
      let (reads, read) = read_text alloc.status.address ip in
      let found = conditions.find_status_condition alloc.status.conditions ready_type in
      elim (Bool-cases (is_expected alloc.name expected)) [
        | inr other ↦
            rw (other, ready_address)
              (λ h. absurd (cc), λ h. absurd (false≢true (sym other ∙ named h.0)))
        | inl wanted ↦ elim (Option-cases found) [
          | inl missing ↦
              rw (wanted, ready_address)
                (rw (missing, ready_address) (λ h. absurd (cc), λ h. absurd (cc (h.1.1))))
          | inr (c, there) ↦ elim (Bool-cases (is_true c.status)) [
            | inr other ↦
                rw (wanted, ready_address)
                  (rw (there, ready_address)
                    (rw (other, ready_address)
                      (λ h. absurd (cc), λ h. absurd (unready c h.1.0 other h.1.1 h.1.2))))
            | inl sound ↦
                rw (wanted, ready_address)
                  (rw (there, ready_address)
                    (rw (sound, ready_address)
                      (
                        λ h.
                            let (given, value) = reads h in
                            (known wanted, (c, refl, (true_status c.status).0 sound), given, value),
                        λ h. read (h.2, h.3),
                      )))
          ]
        ]
      ]

  Passed-Provided :
      (ip : Addr) (allocs : List IpAllocation)
      → Passed conditions net plan families expected allocs ip ↔ Provided allocs ip
  Passed-Provided ip [] = (λ h. h, λ h. h)
  Passed-Provided ip (alloc ∷ allocs) =
      let (one_to, one_from) = ready_address-Provides ip alloc in
      let (to, from) = Passed-Provided ip allocs in
      (
        λ h. elim h [ inl x ↦ inl (one_to x) | inr y ↦ inr (to y) ],
        λ h. elim h [ inl x ↦ inl (one_from x) | inr y ↦ inr (from y) ],
      )

  family_missing-IsServed :
      (ip : Addr) → (family_missing conditions net plan families expected ip ≡ false) ↔ IsServed ip
  unfolding family_missing
  family_missing-IsServed invalid = (λ h. tt, λ h. refl)
  family_missing-IsServed (v4 n) = elim (Bool-cases (has_family families ipv4)) [
    | inl there ↦
        rw (there, family_missing) (λ h. (has_family-Decides families ipv4).0 there, λ h. refl)
    | inr missing ↦
        rw (missing, family_missing)
          (
            λ h. absurd (cc),
            λ h. absurd (false≢true (sym missing ∙ (has_family-Decides families ipv4).1 h)),
          )
  ]
  family_missing-IsServed (v6 n) = elim (Bool-cases (has_family families ipv6)) [
    | inl there ↦
        rw (there, family_missing) (λ h. (has_family-Decides families ipv6).0 there, λ h. refl)
    | inr missing ↦
        rw (missing, family_missing)
          (
            λ h. absurd (cc),
            λ h. absurd (false≢true (sym missing ∙ (has_family-Decides families ipv6).1 h)),
          )
  ]

  IsTaken-IsForLb : (ip : Addr) → IsTaken conditions net plan families expected ip ↔ IsForLb ip
  unfolding is_lb_ip
  IsTaken-IsForLb ip =
      let (named, naming) =
        or_not (has_addr plan.lb_addresses ip) (has_addr plan.snat_addresses ip)
          (has_addr-Decides plan.lb_addresses ip) (has_addr-Decides plan.snat_addresses ip) in
      let (served, serving) = family_missing-IsServed ip in
      (λ h. (named h.0, served h.1), λ h. (naming h.0, serving h.1))

  -- The load balancer's addresses are exactly those in the status of an allocation that has an
  -- expected name and is ready, as far as the annotations name them for the load balancer or do not
  -- name them for SNAT, and the service has their family; and the ingress in the status has the
  -- texts of these addresses in their order.
  pub populate-IsForLb :
      (allocs : List IpAllocation)
      → let p = populate conditions net plan families expected unpopulated allocs in
        ((ip : Addr) → Member ip p.lb_ips ↔ (Provided allocs ip × IsForLb ip))
        × (p.ingress ≡ map net.addr_string p.lb_ips)
  populate-IsForLb allocs =
      let (members, texts) = populate-IsTaken conditions net plan families expected allocs in
      (
        λ ip.
            let (passed, passing) = Passed-Provided ip allocs in
            let (taken, taking) = IsTaken-IsForLb ip in
            (
              λ m. let (a, b) = (members ip).0 m in (passed a, taken b),
              λ (a, b). (members ip).1 (passing a, taking b),
            ),
        texts,
      )
