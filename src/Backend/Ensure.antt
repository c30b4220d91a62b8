-- ===== src/Backend/Ensure.antt =====
-- The operations `Setup`, `EnsureService` and `DeleteService` of internal/routeros/backend.go, and
-- those that they call.
use mikrolb.Backend.{
  Formats, BackendError, joined, unsupported_family, Action, pure, fail, ◌>>=◌, ◌>>◌, run_sync,
  first_entry,
}
use mikrolb.Backend.Lists.{
  lb_ips_list, snat_src_ips_list, prune, cleanup_lb_ips_list, delete_lb_service_rules,
  delete_snat_service_rule, delete_snat_src_ips_list, mask_of, address_field,
}
use mikrolb.Backend.Ports.{
  lb_service_rule, port_rules, PortRule, lb_service_port_rules, stale_chain_names, dnat_groups,
  dnat_rules,
}
use mikrolb.Backend.Rules.{
  firewall_path, lb_mangle_rule, lb_accept_rule, lb_reject_rule, lb_connection_chain_rule,
  snat_rule,
}
use mikrolb.Backend.Snat.{snat_service_rule}
use mikrolb.Common.{Option, none, some, List, [], ◌∷◌, ◌++◌, String, Result, ok, err, if◌then◌else◌}
use mikrolb.Json.{Gjson, Request}
use mikrolb.Net.{IpFamily, ipv4, ipv6}
use mikrolb.Service.{Service, has_lb_ip, has_snat_ip}
use mikrolb.Sync.{Router, SyncCall, SyncError, sync}

-- `errors.Join`, where nothing failed `nil`.
abbrev pub join_errors : List SyncError → Result {0, 0} BackendError Unit
join_errors [] = ok tt
join_errors (e ∷ es) = err (joined (e ∷ es))

module _ {W Obj Val : Type 0} (json : Gjson Obj Val) (router : Router W Obj Val)
    (fmt : Formats) where
  -- A call whose family may not be supported.
  abbrev pub sync_supported : Option (SyncCall Obj) → Action W (List Obj)
  sync_supported none = fail unsupported_family
  sync_supported (some call) = run_sync json router call

  unfoldable pub ensure_lb_mangle_rule : IpFamily → Action W Obj
  ensure_lb_mangle_rule family =
      run_sync json router (lb_mangle_rule json family) >>= first_entry json router

  unfoldable pub ensure_lb_accept_rule : IpFamily → Action W Obj
  ensure_lb_accept_rule family =
      run_sync json router (lb_accept_rule json family) >>= first_entry json router

  unfoldable pub ensure_lb_reject_rule : IpFamily → Action W Obj
  ensure_lb_reject_rule family =
      sync_supported (lb_reject_rule json family) >>= first_entry json router

  unfoldable pub ensure_lb_connection_chain_rule : IpFamily → Action W Obj
  ensure_lb_connection_chain_rule family =
      run_sync json router (lb_connection_chain_rule json family) >>= first_entry json router

  unfoldable pub ensure_snat_rule : IpFamily → Action W Obj
  ensure_snat_rule family = run_sync json router (snat_rule json family) >>= first_entry json router

  -- One round of the loop of `Setup`.
  unfoldable pub setup_family : IpFamily → Action W Unit
  unfolding ensure_lb_reject_rule ensure_lb_accept_rule ensure_lb_mangle_rule
      ensure_lb_connection_chain_rule ensure_snat_rule
  setup_family family =
      ensure_lb_reject_rule family
      >> ensure_lb_accept_rule family
      >> ensure_lb_mangle_rule family
      >> ensure_lb_connection_chain_rule family
      >> ensure_snat_rule family
      >> pure tt

  unfoldable pub setup : Action W Unit
  unfolding setup_family
  setup = setup_family ipv4 >> setup_family ipv6

  unfoldable pub ensure_lb_ips_list : IpFamily → Service → Action W (List Obj)
  ensure_lb_ips_list family svc = sync_supported (lb_ips_list json fmt family svc)

  unfoldable pub ensure_lb_service_rule : IpFamily → Service → Action W (List Obj)
  ensure_lb_service_rule family svc = sync_supported (lb_service_rule json fmt family svc)

  -- The loop over the stale chains; its errors are logged only.
  unfoldable pub clean_up_chains : IpFamily → List String → W → W
  clean_up_chains family [] w = w
  clean_up_chains family (chain ∷ chains) w =
      let call = prune json fmt (firewall_path family "nat") (("chain", chain) ∷ []) none [] in
      clean_up_chains family chains (sync json router w call).0

  -- The filter sees what the router answers to the first request of `Sync`.
  unfoldable pub stale_chains : W → SyncCall Obj → List (PortRule Obj) → List String
  stale_chains w call rules = elim (router.get_array w call.path call.query) [
    | none ↦ []
    | some objs ↦ stale_chain_names json fmt rules [] objs
  ]

  unfoldable pub ensure_lb_service_port_rules : IpFamily → Service → Action W (List Obj)
  unfolding run_sync clean_up_chains stale_chains
  ensure_lb_service_port_rules family svc w =
      let rules = port_rules json fmt svc [] svc.endpoints in
      let call = lb_service_port_rules json fmt family svc rules in
      (run_sync json router call >>= λ objs w'.
      (clean_up_chains family (stale_chains w call rules) w', ok objs))
        w

  -- The loop over `reqsByChain`, with the errors in their order.
  unfoldable pub sync_dnat_groups :
      String
      → IpFamily
      → List (String × List Request)
      → W
      → W × (List (String × List Obj) × List SyncError)
  sync_dnat_groups field family [] w = (w, ([], []))
  sync_dnat_groups field family ((chain, reqs) ∷ groups) w =
      let (w', r) = sync json router w (dnat_rules json fmt field family chain reqs) in
      let (w'', rest) = sync_dnat_groups field family groups w' in
      (w'', elim r [ ok objs ↦ ((chain, objs) ∷ rest.0, rest.1) | err e ↦ (rest.0, e ∷ rest.1) ])

  unfoldable pub ensure_lb_service_port_dnat_rules :
      IpFamily → Service → Action W (List (String × List Obj))
  unfolding sync_dnat_groups
  ensure_lb_service_port_dnat_rules family svc w = elim (mask_of family) [
    | none ↦ (w, err unsupported_family)
    | some mask ↦ elim (address_field family) [
      | none ↦ (w, err unsupported_family)
      | some field ↦
          let groups = dnat_groups json fmt field mask family svc [] svc.endpoints in
          let (w', (resps, errs)) = sync_dnat_groups field family groups w in
          (w', elim (join_errors errs) [ err e ↦ err e | ok _ ↦ ok resps ])
    ]
  ]

  unfoldable pub ensure_snat_src_ips_list : IpFamily → Service → Action W (List Obj)
  ensure_snat_src_ips_list family svc = sync_supported (snat_src_ips_list json fmt family svc)

  -- `gjson.Result{}` is `none`.
  abbrev pub first_if_any : List Obj → Option Obj
  first_if_any [] = none
  first_if_any (obj ∷ objs) = some obj

  unfoldable pub ensure_snat_service_rule : IpFamily → Service → Action W (Option Obj)
  ensure_snat_service_rule family svc =
      sync_supported (snat_service_rule json fmt family svc) >>= λ objs. pure (first_if_any objs)

  unfoldable pub ensure_lb : IpFamily → Service → Action W Unit
  unfolding ensure_lb_service_port_dnat_rules ensure_lb_service_port_rules ensure_lb_service_rule
      ensure_lb_ips_list
  ensure_lb family svc =
      if has_lb_ip svc family
      then ensure_lb_service_port_dnat_rules family svc
        >> ensure_lb_service_port_rules family svc
        >> ensure_lb_service_rule family svc
        >> ensure_lb_ips_list family svc
        >> pure tt
      else run_sync json router (cleanup_lb_ips_list json fmt family svc.uid)
        >> run_sync json router (delete_lb_service_rules json fmt family svc.uid)
        >> pure tt

  unfoldable pub ensure_snat : IpFamily → Service → Action W Unit
  unfolding ensure_snat_src_ips_list ensure_snat_service_rule
  ensure_snat family svc =
      if has_snat_ip svc family
      then ensure_snat_src_ips_list family svc >> ensure_snat_service_rule family svc >> pure tt
      else run_sync json router (delete_snat_service_rule json fmt family svc.uid)
        >> run_sync json router (delete_snat_src_ips_list json fmt family svc.uid)
        >> pure tt

  unfoldable pub ensure_service : Service → Action W Unit
  unfolding ensure_lb ensure_snat
  ensure_service svc =
      ensure_lb ipv4 svc >> ensure_snat ipv4 svc >> ensure_lb ipv6 svc >> ensure_snat ipv6 svc

  -- The deletions of one round of `DeleteService`.
  unfoldable pub service_deletions : IpFamily → String → List (SyncCall Obj)
  service_deletions family uid =
      cleanup_lb_ips_list json fmt family uid
      ∷ delete_lb_service_rules json fmt family uid
      ∷ delete_snat_service_rule json fmt family uid
      ∷ delete_snat_src_ips_list json fmt family uid
      ∷ []

  -- Each is tried, whatever became of those before.
  unfoldable pub try_all : List (SyncCall Obj) → W → W × List SyncError
  try_all [] w = (w, [])
  try_all (call ∷ calls) w =
      let (w', r) = sync json router w call in
      let (w'', errs) = try_all calls w' in (w'', elim r [ ok objs ↦ errs | err e ↦ e ∷ errs ])

  unfoldable pub delete_service : String → Action W Unit
  unfolding service_deletions try_all
  delete_service uid w =
      let (w', errs) = try_all (service_deletions ipv4 uid ++ service_deletions ipv6 uid) w in
      (w', join_errors errs)
