-- ===== src/ServiceReconcile/Handler.antt =====
-- `ServiceReconciler.Reconcile` and `cleanupService`; the logs and the events are left out.
use Prim.Native.String.{◌++◌ as append}
use mikrolb.Allocation.{IpAllocation, Meta}
use mikrolb.Common.{
  Bool, not, ◌||◌, ◌&&◌, true, Option, none, some, List, [], ◌∷◌, String, str_eq, trim_space,
  if◌then◌else◌,
}
use mikrolb.Net.Text.{AddrText}
use mikrolb.RouterNames.{Digest}
use mikrolb.Service.{Service}
use mikrolb.ServiceReconcile.{
  KubeService, EndpointSlice, ServiceConfig, is_lb_configured, is_snat_configured,
  label_service_name, label_service_namespace, label_service_uid,
}
use mikrolb.ServiceReconcile.Annotations.{Plan, make_plan}
use mikrolb.ServiceReconcile.Endpoints.{map_endpoints}
use mikrolb.ServiceReconcile.Expected.{
  Expected, AllocationWrites, compact_specs, name_specs, delete_unexpected, create_missing,
}
use mikrolb.ServiceReconcile.Populate.{Populated, unpopulated, populate}

pub data FetchedService : Type 0 where
  service_missing service_get_failed : FetchedService
  service_found : KubeService → FetchedService

-- The calls that leave the controller, as a parameter: those of the API server and the backend's.
-- Each entry of the ingress has the IP mode `Proxy`.
pub record ServiceWorld (W : Type 0) : Type 0 where
  pub get_service : W → FetchedService
  pub writes : AllocationWrites W
  pub add_finalizer : W → KubeService → W × Bool
  pub remove_service_finalizer : W → KubeService → W × Bool
  pub write_ingress : W → KubeService → List String → W × Bool
  pub list_allocations_direct : W → List (String × String) → Option (List IpAllocation)
  pub list_allocations_cached : W → List (String × String) → Option (List IpAllocation)
  pub list_slices : W → KubeService → Option (List EndpointSlice)
  pub ensure_service : W → Service → W × Bool
  pub delete_service : W → String → String → W × Bool

pub data ServiceError : Type 0 where
  service_not_read finalizer_not_patched ingress_not_patched : ServiceError
  allocations_not_listed slices_not_listed : ServiceError
  backend_not_cleaned allocations_not_deleted backend_not_configured : ServiceError

abbrev pub named : KubeService → String
named svc = append svc.namespace (append "/" svc.name)

-- A part of the handler; `none` is the nil error.
abbrev pub Step : Type 0 → Type 0
Step W = W → W × Option ServiceError

module _ {W : Type 0} where
  abbrev pub done : Step W
  done w = (w, none)

  abbrev pub call : (W → W × Bool) → ServiceError → Step W
  call f e w = let (w', success) = f w in (w', if success then none else some e)

  abbrev pub read : {A : Type 0} → (W → Option A) → ServiceError → (A → Step W) → Step W
  read f e rest w = elim (f w) [ none ↦ (w, some e) | some a ↦ rest a w ]

infixl 5 ◌>>◌
-- The second part, if the first returns no error.
abbrev pub ◌>>◌ : {W : Type 0} → Step W → Step W → Step W
◌>>◌ m k w = let (w', failed) = m w in elim failed [ none ↦ k w' | some e ↦ (w', some e) ]

module _ {W : Type 0} (world : ServiceWorld W) where
  -- The loop of `cleanupService`: whether every deletion succeeded.
  unfoldable pub delete_all : List IpAllocation → W → W × Bool
  delete_all [] w = (w, true)
  delete_all (alloc ∷ allocs) w =
      let (w', deleted) = world.writes.delete_allocation w alloc in
      let (w'', rest) = delete_all allocs w' in (w'', deleted && rest)

  unfoldable pub cleanup_labels : KubeService → List (String × String)
  cleanup_labels svc =
      if str_eq (trim_space svc.uid) ""
      then (label_service_namespace, svc.namespace) ∷ (label_service_name, svc.name) ∷ []
      else (label_service_uid, svc.uid) ∷ []

  unfoldable pub cleanup_service : KubeService → Step W
  unfolding delete_all cleanup_labels
  cleanup_service svc =
      read (λ w. world.list_allocations_cached w (cleanup_labels svc)) allocations_not_listed
        (λ allocs.
          call (λ w. world.delete_service w (named svc) svc.uid) backend_not_cleaned
          >> call (delete_all allocs) allocations_not_deleted)

  -- The branch of a service that is deleted or no longer configured.
  unfoldable pub release_service : KubeService → Step W
  release_service svc =
      if svc.has_finalizer
      then cleanup_service svc
        >> call (λ w. world.remove_service_finalizer w svc) finalizer_not_patched
        >> (if svc.is_deleting
            then done
            else call (λ w. world.write_ingress w svc []) ingress_not_patched)
      else done

  module _ (config : ServiceConfig) (conditions : Meta) (net : AddrText) (digest : Digest)
      (is_dns1123_subdomain : String → Bool) where
    unfoldable pub plan_of : KubeService → Plan
    plan_of svc =
        make_plan is_dns1123_subdomain net (is_lb_configured config svc) (is_snat_configured svc)
          svc

    unfoldable pub expected_of : KubeService → List Expected
    expected_of svc = name_specs digest svc.uid (compact_specs (plan_of svc).expected)

    unfoldable pub service_of : KubeService → Populated → List EndpointSlice → Service
    service_of svc p slices = record {
      uid = svc.uid;
      name = named svc;
      lb_enabled = (plan_of svc).lb_enabled;
      lb_ips = p.lb_ips;
      snat_enabled = (plan_of svc).snat_enabled;
      snat_ipv4 = p.snat_ipv4;
      snat_ipv6 = p.snat_ipv6;
      endpoints = map_endpoints net svc.ports slices;
    }

    -- After the list of allocations is there.
    unfoldable pub configure_service : KubeService → List IpAllocation → Step W
    configure_service svc allocs w =
        let expected = expected_of svc in
        let w1 = delete_unexpected world.writes expected allocs w in
        let w2 = create_missing world.writes svc allocs expected w1 in
        let p = populate conditions net (plan_of svc) svc.ip_families expected unpopulated allocs in
        (call (λ v. world.write_ingress v svc p.ingress) ingress_not_patched
            >> read (λ v. world.list_slices v svc) slices_not_listed
                (λ slices.
                  call (λ v. world.ensure_service v (service_of svc p slices))
                    backend_not_configured))
          w2

    -- `Reconcile`, once the service is read.
    unfoldable pub reconcile_found : KubeService → Step W
    reconcile_found svc =
        if (not (is_lb_configured config svc) && not (is_snat_configured svc)) || svc.is_deleting
        then release_service svc
        else if not svc.has_finalizer
        then call (λ w. world.add_finalizer w svc) finalizer_not_patched
        else read (λ w. world.list_allocations_direct w ((label_service_uid, svc.uid) ∷ []))
            allocations_not_listed (configure_service svc)

    unfoldable pub reconcile_service : Step W
    reconcile_service w = elim (world.get_service w) [
      | service_missing ↦ (w, none)
      | service_get_failed ↦ (w, some service_not_read)
      | service_found svc ↦ reconcile_found svc w
    ]
