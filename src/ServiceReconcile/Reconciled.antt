-- ===== src/ServiceReconcile/Reconciled.antt =====
-- The allocations of a service after `ServiceReconciler.Reconcile`.
use mikrolb.Allocation.{IpAllocation, Meta}
use mikrolb.Common.{
  ◌≡◌, ap, ap₂, subst, ◌↔◌, refl, sym, ◌∙◌, inl, inr, Bool, true, false, not, ◌&&◌, ◌||◌, Option,
  some, Option-cases, List, [], ◌∷◌, String, if◌then◌else◌,
}
use mikrolb.Net.Text.{AddrText}
use mikrolb.RouterNames.{Digest}
use mikrolb.Service.{Service}
use mikrolb.ServiceReconcile.{
  KubeService, ServiceConfig, is_lb_configured, is_snat_configured, label_service_uid,
}
use mikrolb.ServiceReconcile.Converge.{StoresNames, create_missing-Converges}
use mikrolb.ServiceReconcile.Expected.{is_expected, is_listed, delete_unexpected, create_missing}
use mikrolb.ServiceReconcile.Handler.{
  ServiceWorld, ServiceError, allocations_not_listed, ingress_not_patched, slices_not_listed,
  backend_not_configured, service_found, Step, call, read, ◌>>◌, plan_of, expected_of, service_of,
  configure_service, reconcile_found, reconcile_service,
}
use mikrolb.ServiceReconcile.Populate.{populate, unpopulated}

module _ {W : Type 0} (Same : W → W → Type 0) where
  -- The step does not change what the relation tells of the state.
  abbrev pub Keeps : Step W → Type 0
  Keeps m = (w : W) → Same w (m w).0

  call-Keeps : (f : W → W × Bool) (e : ServiceError) → ((w : W) → Same w (f w).0) → Keeps (call f e)
  call-Keeps f e h w = h w

  read-Keeps :
      {A : Type 0} (f : W → Option A) (e : ServiceError) (rest : A → Step W)
      → ((w : W) → Same w w)
      → ((a : A) → Keeps (rest a))
      → Keeps (read f e rest)
  read-Keeps f e rest same h w = elim (Option-cases (f w)) [
    | inl missing ↦ rw (missing, read) (same w)
    | inr (a, there) ↦ rw (there, read) (h a w)
  ]

  then-Keeps :
      (m k : Step W)
      → ((u v w : W) → Same u v → Same v w → Same u w)
      → Keeps m
      → Keeps k
      → Keeps (m >> k)
  then-Keeps m k trans h h' w = elim (Option-cases (m w).1) [
    | inl fine ↦ rw (fine, ◌>>◌) (trans w (m w).0 (k (m w).0).0 (h w) (h' (m w).0))
    | inr (e, stop) ↦ rw (stop, ◌>>◌) (h w)
  ]

if_false : {A : Type 0} (b : Bool) (x y : A) → b ≡ false → (if b then x else y) ≡ y
if_false true x y h = absurd (cc)
if_false false x y h = refl

read_lem :
    {W A : Type 0} (f : W → Option A) (e : ServiceError) (rest : A → Step W) (w : W) (a : A)
    → f w ≡ some a
    → read f e rest w ≡ rest a w
read_lem f e rest w a h = rw (h, read) refl

neither : (a b : Bool) → a || b ≡ true → not a && not b ≡ false
neither true b h = refl
neither false b h = rw h refl

module _ {W : Type 0} (world : ServiceWorld W) (Stored : W → String → Type 0) where
  -- The same names are stored.
  abbrev SameNames : W → W → Type 0
  SameNames v w = (name : String) → Stored w name ↔ Stored v name

  SameNames-trans : (u v w : W) → SameNames u v → SameNames v w → SameNames u w
  SameNames-trans u v w h k name = (λ x. (h name).0 ((k name).0 x), λ x. (k name).1 ((h name).1 x))

  SameNames-refl : (w : W) → SameNames w w
  SameNames-refl w name = (λ x. x, λ x. x)

  module _ (config : ServiceConfig) (conditions : Meta) (net : AddrText) (digest : Digest)
      (is_dns1123_subdomain : String → Bool) (stores : StoresNames world.writes Stored)
      (ingress : (w : W) (svc : KubeService) (ips : List String)
        → SameNames w (world.write_ingress w svc ips).0)
      (ensure : (w : W) (svc : Service) → SameNames w (world.ensure_service w svc).0) where
    configure_service-Stored :
        (svc : KubeService) (allocs : List IpAllocation) (w : W)
        → ((name : String) → Stored w name ↔ (is_listed name allocs ≡ true))
        → (name : String)
        → Stored
            (configure_service world config conditions net digest is_dns1123_subdomain svc allocs
              w).0
            name
          ↔ (is_expected name
                (expected_of world config conditions net digest is_dns1123_subdomain svc)
              ≡ true)
    unfolding configure_service
    configure_service-Stored svc allocs w start name =
        let expected = expected_of world config conditions net digest is_dns1123_subdomain svc in
        let plan = plan_of world config conditions net digest is_dns1123_subdomain svc in
        let w2 =
          create_missing world.writes svc allocs expected
            (delete_unexpected world.writes expected allocs w) in
        let p = populate conditions net plan svc.ip_families expected unpopulated allocs in
        let (to, from) =
          create_missing-Converges world.writes Stored stores svc allocs expected w start name in
        let (back, on) =
          then-Keeps SameNames (call (λ v. world.write_ingress v svc p.ingress) ingress_not_patched)
            (read (λ v. world.list_slices v svc) slices_not_listed
              (λ slices.
                call
                  (λ v. world.ensure_service v (
                    service_of world config conditions net digest is_dns1123_subdomain svc p
                      slices))
                  backend_not_configured))
            SameNames-trans (λ v. ingress v svc p.ingress)
            (read-Keeps SameNames _ _ _ SameNames-refl (λ slices v. ensure v _)) w2 name in
        (λ h. to (back h), λ h. on (from h))

    reconcile_service-configure :
        (svc : KubeService) (allocs : List IpAllocation) (w : W)
        → world.get_service w ≡ service_found svc
        → is_lb_configured config svc || is_snat_configured svc ≡ true
        → svc.is_deleting ≡ false
        → svc.has_finalizer ≡ true
        → world.list_allocations_direct w ((label_service_uid, svc.uid) ∷ []) ≡ some allocs
        → reconcile_service world config conditions net digest is_dns1123_subdomain w
          ≡ configure_service world config conditions net digest is_dns1123_subdomain svc allocs w
    unfolding reconcile_service reconcile_found
    reconcile_service-configure svc allocs w found configured alive finalizer listed =
        let configure =
          configure_service world config conditions net digest is_dns1123_subdomain svc in
        let released = neither (is_lb_configured config svc) (is_snat_configured svc) configured in
        rw (found, reconcile_service)
          (ap (λ (m : Step W). m w)
              (if_false _ _ _ (ap₂ (λ a b. a || b) released alive)
                ∙ if_false _ _ _ (ap not finalizer))
            ∙ read_lem (λ v. world.list_allocations_direct v ((label_service_uid, svc.uid) ∷ []))
                allocations_not_listed configure w allocs listed)

    -- A service is found that is configured for load balancing or SNAT, has the finalizer and is not
    -- being deleted, and the list that is read has the names that are stored of its allocations. If
    -- the deletions and creations do to these names what the API server documents of those that
    -- succeed, and the other calls leave the names as they are, then after `Reconcile` the stored
    -- names are exactly those of the allocations that the service's annotations and families ask
    -- for, whether it returns an error or not.
    pub reconcile_service-Converges :
        (svc : KubeService) (allocs : List IpAllocation) (w : W)
        → world.get_service w ≡ service_found svc
        → is_lb_configured config svc || is_snat_configured svc ≡ true
        → svc.is_deleting ≡ false
        → svc.has_finalizer ≡ true
        → world.list_allocations_direct w ((label_service_uid, svc.uid) ∷ []) ≡ some allocs
        → ((name : String) → Stored w name ↔ (is_listed name allocs ≡ true))
        → (name : String)
        → Stored
            (reconcile_service world config conditions net digest is_dns1123_subdomain w).0
            name
          ↔ (is_expected name
                (expected_of world config conditions net digest is_dns1123_subdomain svc)
              ≡ true)
    reconcile_service-Converges svc allocs w found configured alive finalizer listed start name =
        subst
          (λ v. Stored v name ↔ (
            is_expected name
              (expected_of world config conditions net digest is_dns1123_subdomain svc)
            ≡ true))
          (sym (
            ap (λ r. r.0)
              (reconcile_service-configure svc allocs w found configured alive finalizer listed)))
          (configure_service-Stored svc allocs w start name)
