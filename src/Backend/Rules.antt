-- ===== src/Backend/Rules.antt =====
-- The fixed rules of internal/routeros/backend.go, which `Setup` ensures, as calls of `Sync`.
use Prim.Native.String.{◌++◌ as append}
use mikrolb.Backend.{
  ignored_ip_firewall_fields, get_lb_ips_list_name, get_lb_connection_chain_name,
  get_snat_chain_name,
}
use mikrolb.Common.{Option, none, some, [], ◌∷◌, String, false}
use mikrolb.Json.{text, flag, Gjson, Request}
use mikrolb.Net.{IpFamily, ipv4, ipv6, unknown}
use mikrolb.RouterNames.{get_api_ip_family}
use mikrolb.Sync.{Query, SyncCall}

-- `fmt.Sprintf("/%s/firewall/...", getAPIIPFamily(family))`.
unfoldable pub firewall_path : IpFamily → String → String
unfolding get_api_ip_family
firewall_path family table =
    append "/" (append (get_api_ip_family family) (append "/firewall/" table))

module _ {Obj Val : Type 0} (json : Gjson Obj Val) where
  -- One rule, with neither filter nor id function.
  unfoldable pub single_rule : String → Request → Query → SyncCall Obj
  single_rule path req query = record {
    path = path;
    requests = json.of_request req ∷ [];
    query = query;
    filter = none;
    id_func = none;
    ignored_fields = ignored_ip_firewall_fields;
  }

  unfoldable pub lb_mangle_rule : IpFamily → SyncCall Obj
  unfolding single_rule
  lb_mangle_rule family =
      single_rule (firewall_path family "mangle")
        (("chain", text "prerouting")
          ∷ ("action", text "mark-connection")
          ∷ ("new-connection-mark", text "mikrolb-lb-connection")
          ∷ ("comment", text "mikrolb: mark LB connections")
          ∷ ("dst-address-list", text get_lb_ips_list_name)
          ∷ ("passthrough", text "true")
          ∷ ("disabled", flag false)
          ∷ ("log", flag false)
          ∷ [])
        (("chain", "prerouting")
          ∷ ("action", "mark-connection")
          ∷ ("new-connection-mark", "mikrolb-lb-connection")
          ∷ [])

  unfoldable pub lb_accept_rule : IpFamily → SyncCall Obj
  unfolding single_rule
  lb_accept_rule family =
      single_rule (firewall_path family "filter")
        (("chain", text "forward")
          ∷ ("action", text "accept")
          ∷ ("connection-mark", text "mikrolb-lb-connection")
          ∷ ("comment", text "mikrolb: accept LB connections")
          ∷ ("disabled", flag false)
          ∷ ("log", flag false)
          ∷ [])
        (("chain", "forward")
          ∷ ("action", "accept")
          ∷ ("connection-mark", "mikrolb-lb-connection")
          ∷ [])

  -- `none`: the family is not supported.
  unfoldable pub icmp_protocol : IpFamily → Option String
  icmp_protocol ipv4 = some "icmp"
  icmp_protocol ipv6 = some "icmpv6"
  icmp_protocol unknown = none

  unfoldable pub lb_reject_rule : IpFamily → Option (SyncCall Obj)
  unfolding single_rule icmp_protocol
  lb_reject_rule family = elim (icmp_protocol family) [
    | none ↦ none
    | some protocol ↦ some (
        single_rule (firewall_path family "filter")
          (("chain", text "input")
            ∷ ("action", text "reject")
            ∷ ("reject-with", text "icmp-admin-prohibited")
            ∷ ("protocol", text (append "!" protocol))
            ∷ ("dst-address-list", text get_lb_ips_list_name)
            ∷ ("comment", text "mikrolb: reject unmatched LB ports")
            ∷ ("disabled", flag false)
            ∷ ("log", flag false)
            ∷ [])
          (("chain", "input")
            ∷ ("action", "reject")
            ∷ ("dst-address-list", get_lb_ips_list_name)
            ∷ []))
  ]

  unfoldable pub lb_connection_chain_rule : IpFamily → SyncCall Obj
  unfolding single_rule
  lb_connection_chain_rule family =
      single_rule (firewall_path family "nat")
        (("chain", text "dstnat")
          ∷ ("action", text "jump")
          ∷ ("jump-target", text get_lb_connection_chain_name)
          ∷ ("dst-address-list", text get_lb_ips_list_name)
          ∷ ("comment", text "mikrolb: LB connections")
          ∷ ("disabled", flag false)
          ∷ ("log", flag false)
          ∷ [])
        (("chain", "dstnat")
          ∷ ("action", "jump")
          ∷ ("jump-target", get_lb_connection_chain_name)
          ∷ [])

  unfoldable pub snat_rule : IpFamily → SyncCall Obj
  unfolding single_rule
  snat_rule family =
      single_rule (firewall_path family "nat")
        (("chain", text "srcnat")
          ∷ ("action", text "jump")
          ∷ ("jump-target", text get_snat_chain_name)
          ∷ ("comment", text "mikrolb: SNAT connections")
          ∷ ("disabled", flag false)
          ∷ ("log", flag false)
          ∷ [])
        (("chain", "srcnat") ∷ ("jump-target", get_snat_chain_name) ∷ [])
