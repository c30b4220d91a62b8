-- ===== src/Backend/Snat.antt =====
-- `ensureSNATServiceRule` of internal/routeros/backend.go, as a call of `Sync`.
use mikrolb.Backend.{Formats, ignored_ip_firewall_fields, get_snat_chain_name, text_at}
use mikrolb.Backend.Lists.{address_field, service_comment}
use mikrolb.Backend.Rules.{firewall_path}
use mikrolb.Common.{Option, none, some, [], ◌∷◌, String, false, if◌then◌else◌}
use mikrolb.Json.{text, flag, Gjson}
use mikrolb.Net.{Addr, IpFamily, ipv4, family_eq, is_valid}
use mikrolb.RouterNames.{get_snat_service_ips_list_name}
use mikrolb.Service.{Service}
use mikrolb.Sync.{SyncCall}

-- `snatIP`, for a family that is supported.
abbrev pub snat_ip_of : Service → IpFamily → Addr
snat_ip_of svc family = if family_eq family ipv4 then svc.snat_ipv4 else svc.snat_ipv6

module _ {Obj Val : Type 0} (json : Gjson Obj Val) (fmt : Formats) where
  unfoldable pub snat_entry : String → Service → Addr → Obj
  unfolding service_comment get_snat_service_ips_list_name
  snat_entry field svc ip = json.of_request (
      ("chain", text get_snat_chain_name)
      ∷ ("action", text "src-nat")
      ∷ ("src-address-list", text (get_snat_service_ips_list_name fmt.digest svc.uid))
      ∷ (field, text (fmt.net.addr_string ip))
      ∷ ("comment", text (service_comment fmt "mikrolb: SNAT for" svc))
      ∷ ("disabled", flag false)
      ∷ ("log", flag false)
      ∷ [])

  unfoldable pub snat_service_rule : IpFamily → Service → Option (SyncCall Obj)
  unfolding address_field snat_entry get_snat_service_ips_list_name
  snat_service_rule family svc = elim (address_field family) [
    | none ↦ none
    | some field ↦ some (record {
      path = firewall_path family "nat";
      requests =
          if is_valid (snat_ip_of svc family)
          then snat_entry field svc (snat_ip_of svc family) ∷ []
          else [];
      query =
          ("chain", get_snat_chain_name)
          ∷ ("src-address-list", get_snat_service_ips_list_name fmt.digest svc.uid)
          ∷ [];
      filter = none;
      id_func = some (λ r. text_at json r field);
      ignored_fields = ignored_ip_firewall_fields;
    })
  ]
