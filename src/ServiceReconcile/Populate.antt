-- ===== src/ServiceReconcile/Populate.antt =====
-- The addresses that a service gets from its allocations in `ServiceReconciler.Reconcile`.
use mikrolb.Allocation.{
  IpAllocation, ready_type, ConditionStatus, status_true, status_false, status_unknown, Meta,
}
use mikrolb.Backend.Lists.{has_addr}
use mikrolb.Common.{
  Bool, not, ◌&&◌, ◌||◌, true, false, Option, none, some, List, [], ◌∷◌, ◌++◌, String, str_eq,
  if◌then◌else◌,
}
use mikrolb.Net.{Addr, invalid, IpFamily, ipv4, ipv6, family_eq, is4, is6, is_valid, less}
use mikrolb.Net.Text.{AddrText}
use mikrolb.ServiceReconcile.Annotations.{Plan}
use mikrolb.ServiceReconcile.Expected.{Expected, is_expected}

-- The fields of the service that the loop fills, with the ingress in the status.
pub record Populated : Type 0 where
  pub lb_ips : List Addr
  pub snat_ipv4 : Addr
  pub snat_ipv6 : Addr
  pub ingress : List String

abbrev pub unpopulated : Populated
unpopulated = record { lb_ips = []; snat_ipv4 = invalid; snat_ipv6 = invalid; ingress = [] }

abbrev pub is_true : ConditionStatus → Bool
is_true status_true = true
is_true status_false = false
is_true status_unknown = false

-- `slices.Contains` on the families of the service.
unfoldable pub has_family : List IpFamily → IpFamily → Bool
has_family [] family = false
has_family (f ∷ fs) family = family_eq f family || has_family fs family

module _ (conditions : Meta) (net : AddrText) (plan : Plan) (families : List IpFamily)
    (expected : List Expected) where
  -- The address of an allocation, unless the loop passes it over.
  unfoldable pub ready_address : IpAllocation → Option Addr
  unfolding is_expected
  ready_address alloc =
      if not (is_expected alloc.name expected)
      then none
      else elim (conditions.find_status_condition alloc.status.conditions ready_type) [
        | none ↦ none
        | some c ↦
            if not (is_true c.status)
            then none
            else if str_eq alloc.status.address ""
            then none
            else net.parse_addr alloc.status.address
      ]

  unfoldable pub is_lb_ip : Addr → Bool
  unfolding has_addr
  is_lb_ip ip = has_addr plan.lb_addresses ip || not (has_addr plan.snat_addresses ip)

  -- The address is of a family that the service does not have.
  unfoldable pub family_missing : Addr → Bool
  unfolding has_family
  family_missing ip =
      (is4 ip && not (has_family families ipv4)) || (is6 ip && not (has_family families ipv6))

  unfoldable pub is_snat_ip : Addr → Bool
  unfolding has_addr is_lb_ip
  is_snat_ip ip = has_addr plan.snat_addresses ip || (plan.use_lb_ips_for_snat && is_lb_ip ip)

  unfoldable pub add_lb_ip : Addr → Populated → Populated
  add_lb_ip ip p = record p {
    lb_ips = p.lb_ips ++ (ip ∷ []);
    ingress = p.ingress ++ (net.addr_string ip ∷ []);
  }

  -- The greatest address is kept.
  unfoldable pub greater : Addr → Addr → Addr
  greater old ip = if not (is_valid old) || less old ip then ip else old

  unfoldable pub add_snat_ip : Addr → Populated → Populated
  unfolding greater
  add_snat_ip ip p =
      let p4 = record p { snat_ipv4 = greater p.snat_ipv4 ip } in
      let p6 = record p { snat_ipv6 = greater p.snat_ipv6 ip } in
      if is4 ip then p4 else if is6 ip then p6 else p

  -- The rest of the loop's body, for an address.
  unfoldable pub add_address : Addr → Populated → Populated
  add_address ip p =
      if is_lb_ip ip && family_missing ip
      then p
      else let p' = if is_lb_ip ip then add_lb_ip ip p else p in
        if is_snat_ip ip then add_snat_ip ip p' else p'

  unfoldable pub add_ready : Option Addr → Populated → Populated
  unfolding add_address
  add_ready none p = p
  add_ready (some ip) p = add_address ip p

  unfoldable pub populate : Populated → List IpAllocation → Populated
  unfolding ready_address add_ready
  populate p [] = p
  populate p (alloc ∷ allocs) = populate (add_ready (ready_address alloc) p) allocs
