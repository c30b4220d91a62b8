-- ===== src/Examples/Services.antt =====
-- The theorems of the service reconciler, at concrete inputs.
use mikrolb.Allocation.{IpAllocation, Meta, ready_type, status_true, AllocationSpec}
use mikrolb.Common.{
  ◌≡◌, ◌≢◌, ◌⊎◌, ◌↔◌, refl, subst, inl, inr, Bool, true, false, not, ◌&&◌, ◌||◌, none, some, List,
  [], ◌∷◌, String, str_eq, eq_iff, Bool-cases, map, Member, All, or_left, or_right, or_rest,
  some-injective, ◌<◌, arith,
}
use mikrolb.Examples.Texts.{printer}
use mikrolb.Examples.{request}
use mikrolb.Net.{Addr, v4, ipv4, unknown}
use mikrolb.RouterNames.{Digest}
use mikrolb.ServiceReconcile.Handler.{
  ServiceWorld, service_found, expected_of, reconcile_service, release_service,
}
use mikrolb.ServiceReconcile.Reconciled.{reconcile_service-Converges}
use mikrolb.ServiceReconcile.Released.{release_service-keeps}
use mikrolb.ServiceReconcile.{
  ServiceConfig, is_lb_configured, is_snat_configured, KubeService, ServicePort, SlicePort,
}
use mikrolb.ServiceReconcile.Provided.{Provided, IsForLb, populate-IsForLb}
use mikrolb.ServiceReconcile.Annotations.{Plan}
use mikrolb.ServiceReconcile.Converge.{StoresNames}
use mikrolb.ServiceReconcile.Endpoints.{endpoint_ports}
use mikrolb.ServiceReconcile.Expected.{Expected, AllocationWrites, is_expected, is_listed}
use mikrolb.ServiceReconcile.Greatest.{IsGreatest, IsCandidate, populate-IsGreatest}
use mikrolb.ServiceReconcile.Populate.{populate, unpopulated}
use mikrolb.ServiceReconcile.Ports.{max_ports, IsMapped, endpoint_ports-IsMapped}

-- A store of names.
abbrev NameStore : Type 0
NameStore = String → Bool

abbrev writes : AllocationWrites NameStore
writes = record {
  delete_allocation = λ w alloc. (λ name. w name && not (str_eq alloc.name name), true);
  create_allocation = λ w new. (λ name. w name || str_eq new.name name, true);
}

abbrev IsStored : NameStore → String → Type 0
IsStored w name = w name ≡ true

and_not : (a b : Bool) → (a && not b ≡ true) ↔ ((a ≡ true) × (b ≡ false))
and_not true true = (λ h. absurd (cc), λ h. absurd (cc))
and_not true false = (λ h. (refl, refl), λ h. refl)
and_not false b = (λ h. absurd (cc), λ h. absurd (cc))

differs : (s t : String) → (str_eq s t ≡ false) ↔ (s ≢ t)
differs s t = (
  λ h e. absurd (let same = (eq_iff s t).1 e in cc),
  λ n. elim (Bool-cases (str_eq s t)) [ inl same ↦ absurd (n ((eq_iff s t).0 same)) | inr h ↦ h ],
)

writes-StoresNames : StoresNames writes IsStored
writes-StoresNames = record {
  deletes = λ w alloc name.
      let (split, join) = and_not (w name) (str_eq alloc.name name) in
      let (out, back) = differs alloc.name name in
      (λ h. ((split h).0, out (split h).1), λ h. join (h.0, back h.1));
  creates = λ w new name. (
    λ h. elim (Bool-cases (w name)) [
      | inl old ↦ inl old
      | inr other ↦ inr ((eq_iff new.name name).0 (or_rest (w name) _ other h))
    ],
    λ h. elim h [
      | inl old ↦ or_left (w name) _ old
      | inr same ↦ or_right (w name) _ ((eq_iff new.name name).1 same)
    ],
  );
}

abbrev kube : KubeService
kube = record {
  namespace = "default";
  name = "web";
  uid = "u";
  is_load_balancer = true;
  load_balancer_class = none;
  annotations = [];
  ip_families = ipv4 ∷ [];
  ports = [];
  has_finalizer = true;
  is_deleting = false;
}

abbrev address_of : String → AllocationSpec
address_of s = record { family = unknown; pool_name = ""; address = s }

abbrev wanted : List Expected
wanted =
    record { name = "a"; spec = address_of "0.0.0.5" }
    ∷ record { name = "b"; spec = address_of "0.0.0.9" }
    ∷ []

abbrev stale : List IpAllocation
stale = request "a" "0.0.0.5" ∷ request "c" "" ∷ []

-- The first condition, whatever its type.
abbrev first_condition : Meta
first_condition = record {
  find_status_condition = λ cs type. elim cs [ [] ↦ none | c ∷ rest ↦ some c ];
  set_status_condition = λ cs c. (c ∷ cs, true);
}

abbrev config : ServiceConfig
config = record { load_balancer_class_name = "mikrolb"; is_default_load_balancer = true }

-- A service is found, and what is not about allocations succeeds.
abbrev cluster : ServiceWorld NameStore
cluster = record {
  get_service = λ w. service_found kube;
  writes = writes;
  add_finalizer = λ w svc. (w, true);
  remove_service_finalizer = λ w svc. (w, true);
  write_ingress = λ w svc ips. (w, true);
  list_allocations_direct = λ w labels. some stale;
  list_allocations_cached = λ w labels. some stale;
  list_slices = λ w svc. some [];
  ensure_service = λ w svc. (w, false);
  delete_service = λ w name uid. (w, true);
}

abbrev hash : Digest
hash = record { sum256 = λ s. 1 ∷ 2 ∷ [] }

kube_configured : is_lb_configured config kube || is_snat_configured kube ≡ true
unfolding is_lb_configured
kube_configured = refl

reconcile_service-Converges_example :
    IsStored
      (reconcile_service cluster config first_condition printer hash
        (λ name. true)
        (λ name. is_listed name stale)).0
      "c"
    ↔ (is_expected "c" (expected_of cluster config first_condition printer hash (λ name. true) kube)
        ≡ true)
reconcile_service-Converges_example =
    reconcile_service-Converges cluster IsStored config first_condition printer hash (λ name. true)
      writes-StoresNames (λ w svc ips name. (λ h. h, λ h. h)) (λ w svc name. (λ h. h, λ h. h)) kube
      stale (λ name. is_listed name stale) refl kube_configured refl refl refl
      (λ name. (λ h. h, λ h. h)) "c"

abbrev ready_with : String → String → IpAllocation
ready_with name address = record (request name address) {
  status = record (request name address).status {
    address = address;
    conditions =
        record {
          type = ready_type;
          status = status_true;
          reason = "";
          message = "";
          observed_generation = 1;
          last_transition_time = 1;
        }
        ∷ [];
  };
}

abbrev ready : List IpAllocation
ready = ready_with "a" "0.0.0.5" ∷ ready_with "b" "0.0.0.9" ∷ []

abbrev plan : Plan
plan = record {
  lb_enabled = true;
  snat_enabled = true;
  lb_addresses = v4 5 ∷ v4 9 ∷ [];
  snat_addresses = v4 5 ∷ v4 9 ∷ [];
  expected = [];
  use_lb_ips_for_snat = false;
  warnings = [];
}

populate-IsForLb_example :
    let p = populate first_condition printer plan (ipv4 ∷ []) wanted unpopulated ready in
    ((ip : Addr)
      → Member ip p.lb_ips ↔ (
          Provided first_condition printer plan (ipv4 ∷ []) wanted ready ip
          × IsForLb first_condition printer plan (ipv4 ∷ []) wanted ip))
    × (p.ingress ≡ map printer.addr_string p.lb_ips)
populate-IsForLb_example = populate-IsForLb first_condition printer plan (ipv4 ∷ []) wanted ready

populate-IsGreatest_example :
    IsGreatest
      (IsCandidate first_condition printer plan (ipv4 ∷ []) wanted ipv4 ready)
      (populate first_condition printer plan (ipv4 ∷ []) wanted unpopulated ready).snat_ipv4
populate-IsGreatest_example =
    populate-IsGreatest first_condition printer plan (ipv4 ∷ []) wanted ipv4 ready

abbrev service_ports : List ServicePort
service_ports = record { name = "http"; port = 80 } ∷ []

abbrev slice_ports : List SlicePort
slice_ports = record { name = some "http"; port = some 8080; protocol = none } ∷ []

endpoint_ports-IsMapped_example :
    All (IsMapped service_ports slice_ports) (endpoint_ports printer service_ports slice_ports)
endpoint_ports-IsMapped_example =
    endpoint_ports-IsMapped printer service_ports slice_ports (omega arith, tt)
      (λ n. (λ e. subst (λ x. x < max_ports) (some-injective e) (omega arith), tt))

-- Whether the backend has deleted the service, and whether the finalizer is there.
abbrev Held : Type 0
Held = Bool × Bool

abbrev closing : ServiceWorld Held
closing = record {
  get_service = λ w. service_found kube;
  writes = record {
    delete_allocation = λ w alloc. (w, true);
    create_allocation = λ w new. (w, true);
  };
  add_finalizer = λ w svc. ((w.0, true), true);
  remove_service_finalizer = λ w svc. ((w.0, false), true);
  write_ingress = λ w svc ips. (w, true);
  list_allocations_direct = λ w labels. some stale;
  list_allocations_cached = λ w labels. some stale;
  list_slices = λ w svc. some [];
  ensure_service = λ w svc. (w, true);
  delete_service = λ w name uid. ((true, w.1), true);
}

abbrev HeldOrClean : Held → Type 0
HeldOrClean w = (w.0 ≡ true) ⊎ (w.1 ≡ true)

release_service-keeps_example : HeldOrClean (release_service closing kube (false, true)).0
release_service-keeps_example =
    release_service-keeps closing kube HeldOrClean (λ w. w.0 ≡ true) (λ a w. Unit)
      (record {
        cleans = λ w h. refl;
        stays_clean = λ w a h. h;
        deletes = λ w a h. tt;
        stays_gone = λ w a b h. tt;
        safe_cleaning = λ w h. inl refl;
        safe_deletion = λ w a h. h;
        safe_ingress = λ w h. h;
        safe_removal = λ v w allocs listed clean gone h. inl clean;
      })
      (false, true) (inr refl)
