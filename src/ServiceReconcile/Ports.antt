-- ===== src/ServiceReconcile/Ports.antt =====
-- The endpoints that `ServiceReconciler.Reconcile` hands to the backend.
use mikrolb.Common.{
  ℕ, ◌<◌, ◌^◌, ◌≡◌, ◌⊎◌, refl, sym, ap, ◌∙◌, subst, some-injective, String, str_eq, inl, inr, none,
  some, Option-cases, List, [], ◌∷◌, Bool-cases, All, arith,
}
use mikrolb.Net.Text.{AddrText}
use mikrolb.Service.{EndpointPort}
use mikrolb.ServiceReconcile.{ServicePort, SlicePort}
use mikrolb.ServiceReconcile.Endpoints.{port_by_name, text_or, to_uint16, endpoint_ports}

abbrev pub max_ports : ℕ
max_ports = 2 ^ 16

-- A port of the slice has this number and protocol, and this is the port of the service by its name.
abbrev pub IsMapped : List ServicePort → List SlicePort → EndpointPort → Type 0
IsMapped service_ports [] q = ⊥
IsMapped service_ports (p ∷ ps) q =
    ((p.port ≡ some q.target_port)
      × (port_by_name service_ports (text_or "" p.name) ≡ some q.port)
      × (q.protocol ≡ text_or "TCP" p.protocol))
    ⊎ IsMapped service_ports ps q

to_uint16-fits : (n : ℕ) → n < max_ports → to_uint16 n ≡ n
unfolding to_uint16
to_uint16-fits n h = omega arith

port_by_name-fits :
    (ports : List ServicePort) (name : String) (n : ℕ)
    → All (λ p. p.port < max_ports) ports
    → port_by_name ports name ≡ some n
    → n < max_ports
unfolding port_by_name
port_by_name-fits [] name n h = λ e. absurd (cc)
port_by_name-fits (p ∷ ps) name n h = elim (Option-cases (port_by_name ps name)) [
  | inr (m, later) ↦ rw (later, port_by_name) (λ e. port_by_name-fits ps name n h.1 (later ∙ e))
  | inl missing ↦ elim (Bool-cases (str_eq p.name name)) [
    | inl same ↦
        rw (missing, port_by_name)
          (rw (same, port_by_name) (λ e. subst (λ x. x < max_ports) (some-injective e) h.0))
    | inr other ↦ rw (missing, port_by_name) (rw (other, port_by_name) (λ e. absurd (cc)))
  ]
]

IsMapped-later :
    (services : List ServicePort) (p : SlicePort) (ps : List SlicePort) (qs : List EndpointPort)
    → All (IsMapped services ps) qs
    → All (IsMapped services (p ∷ ps)) qs
IsMapped-later services p ps [] h = tt
IsMapped-later services p ps (q ∷ qs) h = (inr h.0, IsMapped-later services p ps qs h.1)

module _ (net : AddrText) where
  without_port :
      (services : List ServicePort) (p : SlicePort) (ps : List SlicePort)
      → (p.port ≡ none) ⊎ (port_by_name services (text_or "" p.name) ≡ none)
      → endpoint_ports net services (p ∷ ps) ≡ endpoint_ports net services ps
  unfolding endpoint_ports
  without_port services p ps (inl missing) = rw (missing, endpoint_ports) refl
  without_port services p ps (inr unnamed) = elim (Option-cases p.port) [
    | inl missing ↦ rw (missing, endpoint_ports) refl
    | inr (number, there) ↦ rw (there, endpoint_ports) (rw (unnamed, endpoint_ports) refl)
  ]

  with_port :
      (services : List ServicePort) (p : SlicePort) (ps : List SlicePort) (number port : ℕ)
      → p.port ≡ some number
      → port_by_name services (text_or "" p.name) ≡ some port
      → endpoint_ports net services (p ∷ ps)
        ≡ record {
          port = to_uint16 port;
          target_port = to_uint16 number;
          protocol = text_or "TCP" p.protocol;
        }
          ∷ endpoint_ports net services ps
  unfolding endpoint_ports
  with_port services p ps number port there named =
      rw (there, endpoint_ports) (rw (named, endpoint_ports) refl)

  -- Where all port numbers are below 2^16, each port of an endpoint is a port of the slice with the
  -- same number and its protocol, TCP if there is none, together with the number of the service's
  -- port of the same name: nothing is cut off.
  pub endpoint_ports-IsMapped :
      (services : List ServicePort) (ports : List SlicePort)
      → All (λ p. p.port < max_ports) services
      → ((n : ℕ) → All (λ p. p.port ≡ some n → n < max_ports) ports)
      → All (IsMapped services ports) (endpoint_ports net services ports)
  unfolding endpoint_ports
  endpoint_ports-IsMapped services [] hs hp = tt
  endpoint_ports-IsMapped services (p ∷ ps) hs hp =
      let Mapped : List EndpointPort → Type 0 = All (IsMapped services (p ∷ ps)) in
      let rest =
        IsMapped-later services p ps (endpoint_ports net services ps)
          (endpoint_ports-IsMapped services ps hs (λ n. (hp n).1)) in
      elim (Option-cases p.port) [
        | inl missing ↦ subst Mapped (sym (without_port services p ps (inl missing))) rest
        | inr (number, there) ↦ elim (Option-cases (port_by_name services (text_or "" p.name))) [
          | inl unnamed ↦ subst Mapped (sym (without_port services p ps (inr unnamed))) rest
          | inr (port, named) ↦
              let fits = port_by_name-fits services (text_or "" p.name) port hs named in
              subst Mapped (sym (with_port services p ps number port there named)) (
                inl (
                  there ∙ ap some (sym (to_uint16-fits number ((hp number).0 there))),
                  named ∙ ap some (sym (to_uint16-fits port fits)),
                  refl,
                ),
                rest,
              )
        ]
      ]
