-- ===== src/Backend/Ports.antt =====
-- The rules for the ports of a service of internal/routeros/backend.go, as calls of `Sync`. The
-- order of a Go map is that in which its keys come in.
use Prim.Native.String.{◌++◌ as append}
use mikrolb.Backend.{
  Formats, ignored_ip_firewall_fields, get_lb_connection_chain_name, get_lb_service_port_chain_name,
  text_at,
}
use mikrolb.Backend.Lists.{mask_of, entries_for, service_comment}
use mikrolb.Backend.Rules.{firewall_path}
use mikrolb.Common.{
  ℕ, ◌+◌, Bool, ◌||◌, true, false, ltb, length, Option, none, some, List, [], ◌∷◌, ◌++◌, String,
  str_eq, if◌then◌else◌,
}
use mikrolb.Json.{text, flag, number, Gjson, Request, has_text}
use mikrolb.Net.{Addr, IpFamily, get_ip_family, family_eq}
use mikrolb.RouterNames.{get_lb_service_chain_name}
use mikrolb.Service.{Service, Endpoint, EndpointPort}
use mikrolb.Sync.{SyncCall}

-- What `reqsByPort` and `reqsChainNames` hold for a port.
pub record PortRule (Obj : Type 0) : Type 0 where
  pub key : String
  pub chain_name : String
  pub request : Obj

unfoldable pub is_tcp_or_udp : EndpointPort → Bool
is_tcp_or_udp port = str_eq port.protocol "TCP" || str_eq port.protocol "UDP"

-- The comparison with the keys of `reqsByPort`, and with those of `reqsChainNames`.
unfoldable pub has_key : {Obj : Type 0} → String → List (PortRule Obj) → Bool
has_key key [] = false
has_key key (rule ∷ rules) = str_eq rule.key key || has_key key rules

unfoldable pub has_chain : {Obj : Type 0} → String → List (PortRule Obj) → Bool
has_chain chain [] = false
has_chain chain (rule ∷ rules) = str_eq rule.chain_name chain || has_chain chain rules

unfoldable pub port_requests : {Obj : Type 0} → List (PortRule Obj) → List Obj
port_requests [] = []
port_requests (rule ∷ rules) = rule.request ∷ port_requests rules

-- `append(reqsByChain[chain], req)`.
unfoldable pub add_to_chain :
    String → Request → List (String × List Request) → List (String × List Request)
add_to_chain chain req [] = (chain, req ∷ []) ∷ []
add_to_chain chain req ((other, reqs) ∷ rest) =
    let added = add_to_chain chain req rest in
    if str_eq other chain then (other, reqs ++ (req ∷ [])) ∷ rest else (other, reqs) ∷ added

module _ {Obj Val : Type 0} (json : Gjson Obj Val) (fmt : Formats) where
  unfoldable pub lb_service_entry : String → Service → Addr → Obj
  unfolding service_comment get_lb_service_chain_name
  lb_service_entry mask svc ip = json.of_request (
      ("chain", text get_lb_connection_chain_name)
      ∷ ("action", text "jump")
      ∷ ("jump-target", text (get_lb_service_chain_name fmt.digest svc.uid))
      ∷ ("dst-address", text (append (fmt.net.addr_string ip) mask))
      ∷ ("comment", text (service_comment fmt "mikrolb: LB for" svc))
      ∷ ("disabled", flag false)
      ∷ ("log", flag false)
      ∷ [])

  unfoldable pub lb_service_rule : IpFamily → Service → Option (SyncCall Obj)
  unfolding mask_of entries_for lb_service_entry get_lb_service_chain_name
  lb_service_rule family svc = elim (mask_of family) [
    | none ↦ none
    | some mask ↦ some (record {
      path = firewall_path family "nat";
      requests = entries_for json fmt (lb_service_entry mask svc) family svc.lb_ips;
      query =
          ("chain", get_lb_connection_chain_name)
          ∷ ("action", "jump")
          ∷ ("jump-target", get_lb_service_chain_name fmt.digest svc.uid)
          ∷ [];
      filter = none;
      id_func = some (λ r. text_at json r "dst-address");
      ignored_fields = ignored_ip_firewall_fields;
    })
  ]

  -- `fmt.Sprintf("%d/%s", port.Port, port.Protocol)`.
  unfoldable pub port_key : EndpointPort → String
  port_key port = append (fmt.decimal port.port) (append "/" port.protocol)

  -- `..., port %d/%s` behind the comment of a service.
  unfoldable pub port_comment : Service → EndpointPort → String
  unfolding service_comment port_key
  port_comment svc port =
      append (service_comment fmt "mikrolb: LB for" svc) (append ", port " (port_key port))

  -- The body of the loop of `ensureLBServicePortRules`.
  unfoldable pub add_port_rule : Service → List (PortRule Obj) → EndpointPort → List (PortRule Obj)
  unfolding is_tcp_or_udp port_key has_key get_lb_service_port_chain_name port_comment
  add_port_rule svc rules port =
      let chain = get_lb_service_port_chain_name fmt svc.uid port in
      if is_tcp_or_udp port
      then if has_key (port_key port) rules
        then rules
        else rules
          ++ (record {
            key = port_key port;
            chain_name = chain;
            request = json.of_request (
                ("chain", text (get_lb_service_chain_name fmt.digest svc.uid))
                ∷ ("action", text "jump")
                ∷ ("jump-target", text chain)
                ∷ ("dst-port", number port.port)
                ∷ ("protocol", text (fmt.to_lower port.protocol))
                ∷ ("comment", text (port_comment svc port))
                ∷ ("disabled", flag false)
                ∷ ("log", flag false)
                ∷ []);
          }
              ∷ [])
      else rules

  unfoldable pub add_port_rules :
      Service → List (PortRule Obj) → List EndpointPort → List (PortRule Obj)
  unfolding add_port_rule
  add_port_rules svc rules [] = rules
  add_port_rules svc rules (port ∷ ports) = add_port_rules svc (add_port_rule svc rules port) ports

  unfoldable pub port_rules : Service → List (PortRule Obj) → List Endpoint → List (PortRule Obj)
  unfolding add_port_rules
  port_rules svc rules [] = rules
  port_rules svc rules (ep ∷ eps) = port_rules svc (add_port_rules svc rules ep.ports) eps

  unfoldable pub lb_service_port_rules : IpFamily → Service → List (PortRule Obj) → SyncCall Obj
  unfolding port_requests get_lb_service_chain_name
  lb_service_port_rules family svc rules = record {
    path = firewall_path family "nat";
    requests = port_requests rules;
    query = ("chain", get_lb_service_chain_name fmt.digest svc.uid) ∷ [];
    filter = some (λ r. true);
    id_func =
        some (λ r. append (text_at json r "dst-port") (append "/" (text_at json r "protocol")));
    ignored_fields = ignored_ip_firewall_fields;
  }

  -- The chains that the filter of `ensureLBServicePortRules` collects.
  unfoldable pub stale_chain_names : List (PortRule Obj) → List String → List Obj → List String
  unfolding has_chain has_text
  stale_chain_names rules stale [] = stale
  stale_chain_names rules stale (r ∷ rest) =
      let chain = text_at json r "jump-target" in
      let known = has_chain chain rules || has_text stale chain in
      stale_chain_names rules (if known then stale else stale ++ (chain ∷ [])) rest

  -- The request of `ensureLBServicePortDNATRules` for a port and an address.
  unfoldable pub dnat_request : String → String → Service → EndpointPort → Addr → Request
  unfolding get_lb_service_port_chain_name port_comment
  dnat_request address_field mask svc port ip =
      ("chain", text (get_lb_service_port_chain_name fmt svc.uid port))
      ∷ ("action", text "dst-nat")
      ∷ (address_field, text (append (fmt.net.addr_string ip) mask))
      ∷ ("to-ports", number port.target_port)
      ∷ ("protocol", text (fmt.to_lower port.protocol))
      ∷ (
        "comment",
        text (
            append (port_comment svc port)
              (append " -> " (fmt.addr_port_string ip port.target_port))),
      )
      ∷ ("disabled", flag false)
      ∷ ("log", flag false)
      ∷ []

  -- The loop over the addresses of an endpoint, for one of its ports.
  unfoldable pub add_dnat_addresses :
      String
      → String
      → IpFamily
      → Service
      → EndpointPort
      → List (String × List Request)
      → List Addr
      → List (String × List Request)
  unfolding dnat_request add_to_chain
  add_dnat_addresses field mask family svc port groups [] = groups
  add_dnat_addresses field mask family svc port groups (ip ∷ ips) =
      let chain = get_lb_service_port_chain_name fmt svc.uid port in
      let added = add_to_chain chain (dnat_request field mask svc port ip) groups in
      add_dnat_addresses field mask family svc port
        (if family_eq (get_ip_family ip) family then added else groups) ips

  unfoldable pub add_dnat_ports :
      String
      → String
      → IpFamily
      → Service
      → List Addr
      → List (String × List Request)
      → List EndpointPort
      → List (String × List Request)
  unfolding add_dnat_addresses is_tcp_or_udp
  add_dnat_ports field mask family svc ips groups [] = groups
  add_dnat_ports field mask family svc ips groups (port ∷ ports) =
      let added = add_dnat_addresses field mask family svc port groups ips in
      add_dnat_ports field mask family svc ips (if is_tcp_or_udp port then added else groups) ports

  unfoldable pub dnat_groups :
      String
      → String
      → IpFamily
      → Service
      → List (String × List Request)
      → List Endpoint
      → List (String × List Request)
  unfolding add_dnat_ports
  dnat_groups field mask family svc groups [] = groups
  dnat_groups field mask family svc groups (ep ∷ eps) =
      dnat_groups field mask family svc
        (add_dnat_ports field mask family svc ep.ips groups ep.ports) eps

  -- The round robin: `nth` on each of the requests but the last.
  unfoldable pub with_nth : ℕ → ℕ → List Request → List Request
  with_nth total i [] = []
  with_nth total i (req ∷ reqs) =
      let nth = append (fmt.decimal total) (append "," (fmt.decimal (i + 1))) in
      let numbered = req ++ (("nth", text nth) ∷ []) in
      (if ltb (i + 1) total then numbered else req) ∷ with_nth total (i + 1) reqs

  unfoldable pub objs_of : List Request → List Obj
  objs_of [] = []
  objs_of (req ∷ reqs) = json.of_request req ∷ objs_of reqs

  unfoldable pub dnat_rules : String → IpFamily → String → List Request → SyncCall Obj
  unfolding with_nth objs_of
  dnat_rules field family chain reqs = record {
    path = firewall_path family "nat";
    requests = objs_of (with_nth (length reqs) 0 reqs);
    query = ("chain", chain) ∷ [];
    filter = none;
    id_func = some (λ r. append "[" (
        append (text_at json r field) (
          append "]:"
            (append (text_at json r "to-ports") (append "/" (text_at json r "protocol"))))));
    ignored_fields = ignored_ip_firewall_fields;
  }
