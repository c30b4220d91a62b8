-- ===== src/Backend/Deletes.antt =====
-- What `DeleteService` of internal/routeros/backend.go may delete.
use mikrolb.Backend.{Formats, text_at, managed_comment}
use mikrolb.Backend.Ensure.{service_deletions, try_all, delete_service}
use mikrolb.Backend.Lists.{
  prune, names_service, cleanup_lb_ips_list, delete_lb_service_rules, delete_snat_service_rule,
  delete_snat_src_ips_list,
}
use mikrolb.Backend.Rules.{firewall_path}
use mikrolb.Common.{
  ◌≡◌, refl, ◌⊎◌, Bool, inl, inr, true, Option, some, List, [], ◌∷◌, ◌++◌, String, All, All-append,
  Member, has_prefix, contains_text, both_hold, Begins, Contains, has_prefix-Begins,
  contains_text-Contains,
}
use mikrolb.Json.{Gjson}
use mikrolb.Net.{IpFamily, ipv4, ipv6}
use mikrolb.RouterNames.{get_snat_service_ips_list_name}
use mikrolb.Sync.{Router, Query, SyncCall, entry_path, id_of, sync}
use mikrolb.Sync.Effects.{Listed, sync-keeps}

module _ {W Obj Val : Type 0} (json : Gjson Obj Val) (router : Router W Obj Val) (fmt : Formats)
    (uid : String) where
  -- The router lists the entry, in some state, at the path and for the query.
  abbrev pub Shown : String → Query → Obj → Type 0
  Shown path query o =
      (v : W) × (objs : List Obj) × (router.get_array v path query ≡ some objs) × Member o objs

  -- The entry's comment begins with `mikrolb:` and contains the service's UID.
  abbrev pub IsManaged : Obj → Type 0
  IsManaged o =
      Begins "mikrolb:" (text_at json o "comment") × Contains uid (text_at json o "comment")

  -- A NAT rule or an entry of our list of load-balancer addresses, if it is managed for the service;
  -- a rule of our SNAT chain for the service's list of sources; and an entry of that list.
  abbrev pub IsRemovable : String → Obj → Type 0
  IsRemovable path o =
      let sources = get_snat_service_ips_list_name fmt.digest uid in
      (family : IpFamily) × (((path ≡ firewall_path family "nat") × Shown path [] o × IsManaged o)
        ⊎ ((path ≡ firewall_path family "address-list")
            × Shown path (("list", "mikrolb-lb-ips") ∷ []) o
            × IsManaged o)
        ⊎ ((path ≡ firewall_path family "nat")
            × Shown path (("chain", "mikrolb-snat") ∷ ("src-address-list", sources) ∷ []) o)
        ⊎ ((path ≡ firewall_path family "address-list") × Shown path (("list", sources) ∷ []) o))

  names_service-IsManaged : (o : Obj) → names_service json fmt uid o ≡ true → IsManaged o
  unfolding names_service managed_comment
  names_service-IsManaged o h =
      let comment = text_at json o "comment" in
      let (ours, names) = both_hold (has_prefix comment "mikrolb:") (contains_text comment uid) h in
      ((has_prefix-Begins comment "mikrolb:").0 ours, contains_text-Contains comment uid names)

  module _ (Inv : W → Type 0)
      (deletes : (v : W) (o : Obj) (path : String)
        → IsRemovable path o
        → Inv v
        → Inv (router.delete v (entry_path path (id_of json [] o))).0) where
    -- The call keeps the invariant.
    abbrev Keeps : SyncCall Obj → Type 0
    Keeps call = (v : W) → Inv v → Inv (sync json router v call).0

    prune-Keeps :
        (path : String) (query : Query) (filter : Option (Obj → Bool)) (ignored : List String)
        → ((v : W) (o : Obj)
            → Listed router v (prune json fmt path query filter ignored) o
            → IsRemovable path o)
        → Keeps (prune json fmt path query filter ignored)
    unfolding prune
    prune-Keeps path query filter ignored removable v i =
        sync-keeps json router Inv v (prune json fmt path query filter ignored)
          (λ v' o listed. deletes v' o path (removable v o listed)) (λ v' o req listed m. absurd m)
          (λ v' req m. absurd m) i

    service_deletions-Keeps :
        (family : IpFamily) → All Keeps (service_deletions json router fmt family uid)
    unfolding service_deletions cleanup_lb_ips_list delete_lb_service_rules delete_snat_service_rule
        delete_snat_src_ips_list prune
    service_deletions-Keeps family =
        let list = prune-Keeps _ _ _ _ (λ v o (objs, there, m, ours).
          (family, inr (inl (refl, (v, objs, there, m), names_service-IsManaged o ours)))) in
        let rules = prune-Keeps _ _ _ _ (λ v o (objs, there, m, ours).
          (family, inl (refl, (v, objs, there, m), names_service-IsManaged o ours))) in
        let snat_rule =
          prune-Keeps _ _ _ _
            (λ v o (objs, there, m, all). (family, inr (inr (inl (refl, (v, objs, there, m)))))) in
        let sources =
          prune-Keeps _ _ _ _
            (λ v o (objs, there, m, all). (family, inr (inr (inr (refl, (v, objs, there, m)))))) in
        (list, (rules, (snat_rule, (sources, tt))))

    try_all-keeps :
        (calls : List (SyncCall Obj)) (v : W)
        → All Keeps calls
        → Inv v
        → Inv (try_all json router fmt calls v).0
    unfolding try_all
    try_all-keeps [] v k i = i
    try_all-keeps (call ∷ calls) v k i =
        try_all-keeps calls (sync json router v call).0 k.1 (k.0 v i)

    -- An invariant of the router's state is kept by `DeleteService`, whether it fails or not, if it
    -- is kept by the deletion of these entries: a NAT rule, or an entry of the address list of the
    -- load balancer, whose comment begins with `mikrolb:` and contains the service's UID; a rule of
    -- the SNAT chain that the router lists for the service's list of sources; an entry of this list.
    -- Nothing else is deleted, and nothing is patched or created.
    pub delete_service-keeps : (v : W) → Inv v → Inv (delete_service json router fmt uid v).0
    unfolding delete_service
    delete_service-keeps v i =
        let calls = service_deletions json router fmt in
        try_all-keeps (calls ipv4 uid ++ calls ipv6 uid) v
          (All-append Keeps (calls ipv4 uid) (calls ipv6 uid) (service_deletions-Keeps ipv4)
            (service_deletions-Keeps ipv6))
          i
