-- ===== src/Backend/Lists.antt =====
-- The address lists of internal/routeros/backend.go and what deletes a service's entries, as calls
-- of `Sync`.
use Prim.Native.String.{◌++◌ as append}
use mikrolb.Backend.{
  Formats, ignored_ip_list_fields, get_lb_ips_list_name, get_snat_chain_name, text_at,
  managed_comment,
}
use mikrolb.Backend.Rules.{firewall_path}
use mikrolb.Common.{
  Bool, ◌&&◌, ◌||◌, false, Option, none, some, List, [], ◌∷◌, ◌++◌, String, cut_at, has_prefix,
  if◌then◌else◌,
}
use mikrolb.Json.{text, flag, Gjson}
use mikrolb.Net.{Addr, IpFamily, ipv4, ipv6, unknown, get_ip_family, family_eq, is6, addr_eq}
use mikrolb.RouterNames.{get_snat_service_ips_list_name}
use mikrolb.Service.{Service, Endpoint}
use mikrolb.Sync.{Query, SyncCall}

-- `slices.Contains` on addresses.
unfoldable pub has_addr : List Addr → Addr → Bool
has_addr [] ip = false
has_addr (a ∷ rest) ip = addr_eq a ip || has_addr rest ip

-- An address that does not parse is not in the list.
unfoldable pub has_parsed : List Addr → Option Addr → Bool
unfolding has_addr
has_parsed ips none = false
has_parsed ips (some ip) = has_addr ips ip

-- The mask behind an address; `none`: the family is not supported.
unfoldable pub mask_of : IpFamily → Option String
mask_of ipv4 = some ""
mask_of ipv6 = some "/128"
mask_of unknown = none

-- The field of an address that a rule translates to.
unfoldable pub address_field : IpFamily → Option String
address_field ipv4 = some "to-addresses"
address_field ipv6 = some "to-address"
address_field unknown = none

module _ (fmt : Formats) where
  -- `fmt.Sprintf("... service %s (%s)", svc.Name, svc.UID)`.
  unfoldable pub service_comment : String → Service → String
  service_comment head svc =
      append head (append " service " (append svc.name (append " (" (append svc.uid ")"))))

  -- The text before the first `/`, which is `strings.Split(s, "/")[0]`.
  unfoldable pub before_slash : String → String
  unfolding cut_at
  before_slash s = elim (cut_at b'/' s) [ none ↦ s | some (before, after) ↦ before ]

module _ {Obj Val : Type 0} (json : Gjson Obj Val) (fmt : Formats) where
  -- An entry of an address list.
  unfoldable pub list_entry : String → String → Service → Addr → Obj
  unfolding service_comment
  list_entry list mask svc ip = json.of_request (
      ("list", text list)
      ∷ ("address", text (append (fmt.net.addr_string ip) mask))
      ∷ ("comment", text (service_comment fmt "mikrolb:" svc))
      ∷ ("disabled", flag false)
      ∷ [])

  -- The loops over addresses, with the test on the family.
  unfoldable pub entries_for : (Addr → Obj) → IpFamily → List Addr → List Obj
  entries_for entry family [] = []
  entries_for entry family (ip ∷ ips) =
      let rest = entries_for entry family ips in
      if family_eq (get_ip_family ip) family then entry ip ∷ rest else rest

  unfoldable pub endpoint_entries_for : (Addr → Obj) → IpFamily → List Endpoint → List Obj
  unfolding entries_for
  endpoint_entries_for entry family [] = []
  endpoint_entries_for entry family (ep ∷ eps) =
      entries_for entry family ep.ips ++ endpoint_entries_for entry family eps

  -- The filter of `ensureLBIPsList`.
  unfoldable pub lb_ips_list_filter : Service → Obj → Bool
  unfolding managed_comment before_slash has_parsed
  lb_ips_list_filter svc r =
      let matched_comment = managed_comment svc.uid (text_at json r "comment") in
      let existing_ip = fmt.net.parse_addr (before_slash fmt (text_at json r "address")) in
      matched_comment || has_parsed svc.lb_ips existing_ip

  unfoldable pub lb_ips_list : IpFamily → Service → Option (SyncCall Obj)
  unfolding mask_of entries_for list_entry lb_ips_list_filter
  lb_ips_list family svc = elim (mask_of family) [
    | none ↦ none
    | some mask ↦ some (record {
      path = firewall_path family "address-list";
      requests = entries_for (list_entry get_lb_ips_list_name mask svc) family svc.lb_ips;
      query = ("list", get_lb_ips_list_name) ∷ [];
      filter = some (lb_ips_list_filter svc);
      id_func = some (λ r. text_at json r "address");
      ignored_fields = ignored_ip_list_fields;
    })
  ]

  unfoldable pub snat_src_ips_list : IpFamily → Service → Option (SyncCall Obj)
  unfolding mask_of endpoint_entries_for list_entry get_snat_service_ips_list_name
  snat_src_ips_list family svc =
      let list = get_snat_service_ips_list_name fmt.digest svc.uid in
      elim (mask_of family) [
        | none ↦ none
        | some mask ↦ some (record {
          path = firewall_path family "address-list";
          requests = endpoint_entries_for (list_entry list mask svc) family svc.endpoints;
          query = ("list", list) ∷ [];
          filter = none;
          id_func = some (λ r. text_at json r "address");
          ignored_fields = ignored_ip_list_fields;
        })
      ]

  -- `Sync` without requests: every entry that passes the filter is deleted.
  unfoldable pub prune : String → Query → Option (Obj → Bool) → List String → SyncCall Obj
  prune path query filter ignored = record {
    path = path;
    requests = [];
    query = query;
    filter = filter;
    id_func = none;
    ignored_fields = ignored;
  }

  unfoldable pub delete_ip_advertisement : Addr → SyncCall Obj
  unfolding prune
  delete_ip_advertisement ip =
      prune (append "/" (append (if is6 ip then "ipv6" else "ip") "/address")) []
        (some (λ r.
          has_prefix (text_at json r "comment") "mikrolb:"
          && has_prefix (text_at json r "address") (append (fmt.net.addr_string ip) "/")))
        []

  -- The filter of the two deletions by comment.
  unfoldable pub names_service : String → Obj → Bool
  unfolding managed_comment
  names_service service_uid r = managed_comment service_uid (text_at json r "comment")

  unfoldable pub cleanup_lb_ips_list : IpFamily → String → SyncCall Obj
  unfolding prune names_service
  cleanup_lb_ips_list family service_uid =
      prune (firewall_path family "address-list") (("list", get_lb_ips_list_name) ∷ [])
        (some (names_service service_uid)) ignored_ip_list_fields

  unfoldable pub delete_lb_service_rules : IpFamily → String → SyncCall Obj
  unfolding prune names_service
  delete_lb_service_rules family service_uid =
      prune (firewall_path family "nat") [] (some (names_service service_uid)) []

  unfoldable pub delete_snat_service_rule : IpFamily → String → SyncCall Obj
  unfolding prune get_snat_service_ips_list_name
  delete_snat_service_rule family service_uid =
      prune (firewall_path family "nat")
        (("chain", get_snat_chain_name)
          ∷ ("src-address-list", get_snat_service_ips_list_name fmt.digest service_uid)
          ∷ [])
        none []

  unfoldable pub delete_snat_src_ips_list : IpFamily → String → SyncCall Obj
  unfolding prune get_snat_service_ips_list_name
  delete_snat_src_ips_list family service_uid =
      prune (firewall_path family "address-list")
        (("list", get_snat_service_ips_list_name fmt.digest service_uid) ∷ []) none []
