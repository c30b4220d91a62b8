-- ===== src/ServiceReconcile.antt =====
-- What `ServiceReconciler` (internal/controller/service_reconciler.go) reads of Kubernetes, and the
-- annotations of internal/controller/const.go.
use mikrolb.Common.{
  ℕ, Bool, ◌&&◌, ◌||◌, not, true, false, Option, none, some, List, [], ◌∷◌, String, str_eq,
  if◌then◌else◌,
}
use mikrolb.Json.{exists}
use mikrolb.Net.{IpFamily}
pub mod Annotations
pub mod Expected
pub mod Populate
pub mod Converge
pub mod Addresses
pub mod Provided
pub mod Greatest
pub mod Ports
pub mod Endpoints
pub mod Handler
pub mod Reconciled
pub mod Released

abbrev pub annotation_lb_enabled : String
annotation_lb_enabled = "mikrolb.de/load-balancer-enabled"

abbrev pub annotation_lb_ips : String
annotation_lb_ips = "mikrolb.de/load-balancer-ips"

abbrev pub annotation_lb_pool_names : String
annotation_lb_pool_names = "mikrolb.de/load-balancer-pools"

abbrev pub annotation_snat_enabled : String
annotation_snat_enabled = "mikrolb.de/snat-enabled"

abbrev pub annotation_snat_ips : String
annotation_snat_ips = "mikrolb.de/snat-ips"

abbrev pub label_service_name : String
label_service_name = "mikrolb.de/service-name"

abbrev pub label_service_namespace : String
label_service_namespace = "mikrolb.de/service-namespace"

abbrev pub label_service_uid : String
label_service_uid = "mikrolb.de/service-uid"

-- The port numbers of Kubernetes are of 32 bits and not negative.
pub record ServicePort : Type 0 where
  pub name : String
  pub port : ℕ

-- `corev1.Service`: whether its type is `LoadBalancer`, and the fields that are read. The finalizer
-- and the deletion timestamp are told by their presence.
pub record KubeService : Type 0 where
  pub namespace : String
  pub name : String
  pub uid : String
  pub is_load_balancer : Bool
  pub load_balancer_class : Option String
  pub annotations : List (String × String)
  pub ip_families : List IpFamily
  pub ports : List ServicePort
  pub has_finalizer : Bool
  pub is_deleting : Bool

-- `discoveryv1.EndpointSlice`; a missing pointer is `none`.
pub record SliceEndpoint : Type 0 where
  pub addresses : List String
  pub ready : Option Bool
  pub terminating : Option Bool

pub record SlicePort : Type 0 where
  pub name : Option String
  pub port : Option ℕ
  pub protocol : Option String

pub record EndpointSlice : Type 0 where
  pub endpoints : List SliceEndpoint
  pub ports : List SlicePort

-- The reconciler's configuration.
pub record ServiceConfig : Type 0 where
  pub load_balancer_class_name : String
  pub is_default_load_balancer : Bool

unfoldable pub annotation : List (String × String) → String → Option String
annotation [] key = none
annotation ((k, v) ∷ rest) key =
    let later = annotation rest key in if str_eq k key then some v else later

abbrev pub class_matches : ServiceConfig → Option String → Bool
class_matches config none = config.is_default_load_balancer
class_matches config (some class) = str_eq class config.load_balancer_class_name

unfoldable pub is_lb_configured : ServiceConfig → KubeService → Bool
is_lb_configured config svc = svc.is_load_balancer && class_matches config svc.load_balancer_class

unfoldable pub is_snat_configured : KubeService → Bool
unfolding annotation
is_snat_configured svc = exists (annotation svc.annotations annotation_snat_ips)
