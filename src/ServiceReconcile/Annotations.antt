-- ===== src/ServiceReconcile/Annotations.antt =====
-- The annotations of a service as `ServiceReconciler.Reconcile` reads them: which addresses, pools
-- and families it asks for, and the warnings that are recorded as events.
use mikrolb.Allocation.{AllocationSpec}
use mikrolb.Common.{
  Bool, not, ◌&&◌, true, false, Option, none, some, List, [], ◌∷◌, ◌++◌, String, str_eq, split_on,
  trim_space, if◌then◌else◌,
}
use mikrolb.Json.{exists, has_text}
use mikrolb.Net.{Addr, IpFamily, unknown}
use mikrolb.Net.Text.{AddrText}
use mikrolb.ServiceReconcile.{
  KubeService, annotation, annotation_lb_enabled, annotation_lb_ips, annotation_lb_pool_names,
  annotation_snat_enabled, annotation_snat_ips,
}

-- The events, with the annotation and the text that is refused.
pub data Warning : Type 0 where
  invalid_boolean invalid_pool_name invalid_ip : String → String → Warning
  use_lb_ips_without_lb : Warning

-- What the handler holds after the annotations: `allocLBIPs`, `allocSNATIPs`, `allocsExpected`.
pub record Plan : Type 0 where
  pub lb_enabled : Bool
  pub snat_enabled : Bool
  pub lb_addresses : List Addr
  pub snat_addresses : List Addr
  pub expected : List AllocationSpec
  pub use_lb_ips_for_snat : Bool
  pub warnings : List Warning

-- `strconv.ParseBool`.
unfoldable pub parse_bool : String → Option Bool
unfolding has_text
parse_bool s =
    if has_text ("1" ∷ "t" ∷ "T" ∷ "TRUE" ∷ "true" ∷ "True" ∷ []) s
    then some true
    else if has_text ("0" ∷ "f" ∷ "F" ∷ "FALSE" ∷ "false" ∷ "False" ∷ []) s
    then some false
    else none

abbrev pub pool_spec : String → AllocationSpec
pool_spec name = record { family = unknown; pool_name = name; address = "" }

abbrev pub family_spec : IpFamily → AllocationSpec
family_spec family = record { family = family; pool_name = ""; address = "" }

unfoldable pub family_specs : List IpFamily → List AllocationSpec
family_specs [] = []
family_specs (family ∷ families) = family_spec family ∷ family_specs families

-- A missing annotation means true; an invalid one is parsed to false, with a warning.
unfoldable pub read_enabled : String → Option String → Bool × List Warning
unfolding parse_bool
read_enabled key none = (true, [])
read_enabled key (some value) = elim (parse_bool value) [
  | none ↦ (false, invalid_boolean key value ∷ [])
  | some enabled ↦ (enabled, [])
]

-- An annotation counts if it is there and not empty.
abbrev pub non_empty : Option String → Option String
non_empty none = none
non_empty (some s) = if str_eq s "" then none else some s

module _ (is_dns1123_subdomain : String → Bool) where
  -- The loop over the names of pools; the validation of Kubernetes is a parameter.
  unfoldable pub read_pools : List String → List AllocationSpec × List Warning
  read_pools [] = ([], [])
  read_pools (raw ∷ rest) =
      let name = trim_space raw in
      let (specs, warnings) = read_pools rest in
      if is_dns1123_subdomain name
      then (pool_spec name ∷ specs, warnings)
      else (specs, invalid_pool_name annotation_lb_pool_names name ∷ warnings)

  unfoldable pub lb_pools : KubeService → List AllocationSpec × List Warning
  unfolding read_pools
  lb_pools svc = elim (non_empty (annotation svc.annotations annotation_lb_pool_names)) [
    | none ↦ ([], [])
    | some names ↦ read_pools (split_on b',' names)
  ]

module _ (net : AddrText) where
  abbrev pub address_spec : Addr → AllocationSpec
  address_spec ip = record { family = unknown; pool_name = ""; address = net.addr_string ip }

  unfoldable pub address_specs : List Addr → List AllocationSpec
  address_specs [] = []
  address_specs (ip ∷ ips) = address_spec ip ∷ address_specs ips

  -- The loop over the addresses of an annotation.
  unfoldable pub read_addresses : String → List String → List Addr × List Warning
  read_addresses key [] = ([], [])
  read_addresses key (raw ∷ rest) =
      let s = trim_space raw in
      let (ips, warnings) = read_addresses key rest in
      if str_eq s "" then (ips, warnings) else elim (net.parse_addr s) [
        | none ↦ (ips, invalid_ip key s ∷ warnings)
        | some ip ↦ (ip ∷ ips, warnings)
      ]

  unfoldable pub lb_addresses_of : KubeService → List Addr × List Warning
  unfolding read_addresses
  lb_addresses_of svc = elim (non_empty (annotation svc.annotations annotation_lb_ips)) [
    | none ↦ ([], [])
    | some ips ↦ read_addresses annotation_lb_ips (split_on b',' ips)
  ]

  -- The addresses for SNAT, and whether those of the load balancer serve.
  unfoldable pub snat_addresses_of : Bool → KubeService → (List Addr × Bool) × List Warning
  unfolding read_addresses
  snat_addresses_of lb_configured svc =
      elim (non_empty (annotation svc.annotations annotation_snat_ips)) [
        | none ↦ (([], false), [])
        | some ips ↦
            let (addrs, warnings) = read_addresses annotation_snat_ips (split_on b',' ips) in
            if not (str_eq (trim_space ips) "use-lb-ips")
            then ((addrs, false), warnings)
            else if lb_configured
            then (([], true), [])
            else (([], false), use_lb_ips_without_lb ∷ [])
      ]

module _ (is_dns1123_subdomain : String → Bool) (net : AddrText) where
  -- `allocAutoAssign`: neither pools nor addresses are asked for.
  unfoldable pub auto_assign : KubeService → Bool
  auto_assign svc =
      not (exists (non_empty (annotation svc.annotations annotation_lb_pool_names)))
      && not (exists (non_empty (annotation svc.annotations annotation_lb_ips)))

  unfoldable pub plan_lb : Bool → KubeService → Plan
  unfolding read_enabled lb_pools lb_addresses_of address_specs auto_assign family_specs
  plan_lb lb_configured svc =
      let (enabled, w0) =
        read_enabled annotation_lb_enabled (annotation svc.annotations annotation_lb_enabled) in
      let (pools, w1) = lb_pools is_dns1123_subdomain svc in
      let (ips, w2) = lb_addresses_of net svc in
      let families = if auto_assign svc then family_specs svc.ip_families else [] in
      if lb_configured
      then record {
        lb_enabled = enabled;
        snat_enabled = false;
        lb_addresses = ips;
        snat_addresses = [];
        expected = pools ++ (address_specs net ips ++ families);
        use_lb_ips_for_snat = false;
        warnings = w0 ++ (w1 ++ w2);
      }
      else record {
        lb_enabled = false;
        snat_enabled = false;
        lb_addresses = [];
        snat_addresses = [];
        expected = [];
        use_lb_ips_for_snat = false;
        warnings = [];
      }

  -- Lines 147 to 251: the load balancer's annotations, then those for SNAT.
  unfoldable pub make_plan : Bool → Bool → KubeService → Plan
  unfolding plan_lb read_enabled snat_addresses_of address_specs
  make_plan lb_configured snat_configured svc =
      let base = plan_lb lb_configured svc in
      let (enabled, w0) =
        read_enabled annotation_snat_enabled (annotation svc.annotations annotation_snat_enabled) in
      let ((ips, use_lb), w1) = snat_addresses_of net lb_configured svc in
      if snat_configured
      then record base {
        snat_enabled = enabled;
        snat_addresses = ips;
        expected = base.expected ++ address_specs net ips;
        use_lb_ips_for_snat = use_lb;
        warnings = base.warnings ++ (w0 ++ w1);
      }
      else base
