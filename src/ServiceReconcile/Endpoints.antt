-- ===== src/ServiceReconcile/Endpoints.antt =====
-- The endpoints of a service that `ServiceReconciler.Reconcile` makes of its `EndpointSlice`s.
use mikrolb.Common.{
  ℕ, ◌%◌, ◌^◌, Bool, true, false, not, ◌&&◌, Option, none, some, List, [], ◌∷◌, ◌++◌, String,
  str_eq, if◌then◌else◌,
}
use mikrolb.Net.{Addr}
use mikrolb.Net.Text.{AddrText}
use mikrolb.Service.{Endpoint, EndpointPort}
use mikrolb.ServiceReconcile.{ServicePort, SliceEndpoint, SlicePort, EndpointSlice}

-- `portsByName[name]`: the last port of a name is the one that stays in the map.
unfoldable pub port_by_name : List ServicePort → String → Option ℕ
port_by_name [] name = none
port_by_name (p ∷ ps) name = elim (port_by_name ps name) [
  | some port ↦ some port
  | none ↦ if str_eq p.name name then some p.port else none
]

-- A pointer to a Boolean, with the value that stands for `nil`.
abbrev pub bool_or : Bool → Option Bool → Bool
bool_or default none = default
bool_or default (some b) = b

abbrev pub text_or : String → Option String → String
text_or default none = default
text_or default (some s) = s

-- `len(x) > 0`.
abbrev pub is_filled : {A : Type 0} → List A → Bool
is_filled [] = false
is_filled (x ∷ xs) = true

-- `uint16(n)`.
unfoldable pub to_uint16 : ℕ → ℕ
to_uint16 n = n % 2 ^ 16

module _ (net : AddrText) where
  -- Invalid addresses are skipped.
  unfoldable pub parse_addresses : List String → List Addr
  parse_addresses [] = []
  parse_addresses (s ∷ rest) = elim (net.parse_addr s) [
    | none ↦ parse_addresses rest
    | some ip ↦ ip ∷ parse_addresses rest
  ]

  -- Endpoints that are not ready, or are terminating, are skipped.
  unfoldable pub ready_addresses : List SliceEndpoint → List Addr
  unfolding parse_addresses
  ready_addresses [] = []
  ready_addresses (ep ∷ eps) =
      let rest = ready_addresses eps in
      if bool_or true ep.ready && not (bool_or false ep.terminating)
      then parse_addresses ep.addresses ++ rest
      else rest

  unfoldable pub endpoint_ports : List ServicePort → List SlicePort → List EndpointPort
  unfolding port_by_name to_uint16
  endpoint_ports service_ports [] = []
  endpoint_ports service_ports (p ∷ ps) = elim p.port [
    | none ↦ endpoint_ports service_ports ps
    | some number ↦ elim (port_by_name service_ports (text_or "" p.name)) [
      | none ↦ endpoint_ports service_ports ps
      | some port ↦
          record {
            port = to_uint16 port;
            target_port = to_uint16 number;
            protocol = text_or "TCP" p.protocol;
          }
          ∷ endpoint_ports service_ports ps
    ]
  ]

  unfoldable pub map_endpoints : List ServicePort → List EndpointSlice → List Endpoint
  unfolding ready_addresses endpoint_ports
  map_endpoints service_ports [] = []
  map_endpoints service_ports (slice ∷ slices) =
      let rest = map_endpoints service_ports slices in
      let ips = ready_addresses slice.endpoints in
      let ports = endpoint_ports service_ports slice.ports in
      if is_filled ips && is_filled ports then record { ips = ips; ports = ports } ∷ rest else rest
