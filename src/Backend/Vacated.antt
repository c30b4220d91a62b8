-- ===== src/Backend/Vacated.antt =====
-- `EnsureService` next to `DeleteService` in internal/routeros/backend.go.
use mikrolb.Backend.{Formats, Action, pure, ◌>>=◌, ◌>>◌, run_sync}
use mikrolb.Backend.Ensure.{
  ensure_lb, ensure_snat, ensure_service, service_deletions, try_all, delete_service, join_errors,
}
use mikrolb.Backend.Lists.{
  cleanup_lb_ips_list, delete_lb_service_rules, delete_snat_service_rule, delete_snat_src_ips_list,
}
use mikrolb.Common.{◌≡◌, refl, ap, ◌∙◌, inl, inr, false, List, [], ◌∷◌, ◌++◌, ok, Result-cases}
use mikrolb.Json.{Gjson}
use mikrolb.Net.{IpFamily, ipv4, ipv6}
use mikrolb.Service.{Service, has_lb_ip, has_snat_ip}
use mikrolb.Sync.{Router, SyncCall, sync}

module _ {W Obj Val : Type 0} (json : Gjson Obj Val) (router : Router W Obj Val)
    (fmt : Formats) where
  -- Where the action returns no error, trying the calls gives the same state and no error.
  abbrev Tries : {A : Type 0} → Action W A → List (SyncCall Obj) → Type 0
  Tries {A = A} m calls =
      (w : W) (a : A) → (m w).1 ≡ ok a → try_all json router fmt calls w ≡ ((m w).0, [])

  run_sync-Tries : (call : SyncCall Obj) → Tries (run_sync json router call) (call ∷ [])
  unfolding run_sync try_all
  run_sync-Tries call w a = elim (Result-cases (sync json router w call).1) [
    | inl (objs, fine) ↦ rw (fine, run_sync, try_all) (λ h. refl)
    | inr (e, failed) ↦ rw (failed, run_sync) (λ h. absurd (cc))
  ]

  pure-Tries : {A : Type 0} (a : A) → Tries (pure a) []
  unfolding try_all
  pure-Tries a w b h = refl

  try_all-append :
      (calls more : List (SyncCall Obj)) (w v : W)
      → try_all json router fmt calls w ≡ (v, [])
      → try_all json router fmt (calls ++ more) w ≡ try_all json router fmt more v
  unfolding try_all
  try_all-append [] more w v = λ h. ap (λ p. try_all json router fmt more p.0) h
  try_all-append (call ∷ calls) more w v = elim (Result-cases (sync json router w call).1) [
    | inl (objs, fine) ↦
        rw (fine, try_all) (λ h. try_all-append calls more (sync json router w call).0 v h)
    | inr (e, failed) ↦ rw (failed, try_all) (λ h. absurd (cc (ap (λ p. p.1) h)))
  ]

  then-Tries :
      {A B : Type 0} (m : Action W A) (k : Action W B) (calls more : List (SyncCall Obj))
      → Tries m calls
      → Tries k more
      → Tries (m >> k) (calls ++ more)
  then-Tries m k calls more h h' w b = elim (Result-cases (m w).1) [
    | inr (e, failed) ↦ rw (failed, ◌>>◌, ◌>>=◌) (λ x. absurd (cc))
    | inl (a, fine) ↦
        rw (fine, ◌>>◌, ◌>>=◌)
          (λ x. try_all-append calls more w (m w).0 (h w a fine) ∙ h' (m w).0 b x)
  ]

  both-Tries :
      (call next : SyncCall Obj)
      → Tries (run_sync json router call >> run_sync json router next >> pure tt) (call ∷ next ∷ [])
  both-Tries call next =
      then-Tries (run_sync json router call >> run_sync json router next) (pure tt)
        (call ∷ next ∷ []) []
        (then-Tries (run_sync json router call) (run_sync json router next) (call ∷ []) (next ∷ [])
          (run_sync-Tries call) (run_sync-Tries next))
        (pure-Tries tt)

  -- The deletions that come in place of the load-balancer's and of the SNAT's entries.
  ensure_lb-Tries :
      (family : IpFamily) (svc : Service)
      → has_lb_ip svc family ≡ false
      → Tries (ensure_lb json router fmt family svc) (
          cleanup_lb_ips_list json fmt family svc.uid
          ∷ delete_lb_service_rules json fmt family svc.uid
          ∷ [])
  unfolding ensure_lb
  ensure_lb-Tries family svc h = rw (h) (
      both-Tries (cleanup_lb_ips_list json fmt family svc.uid)
        (delete_lb_service_rules json fmt family svc.uid))

  ensure_snat-Tries :
      (family : IpFamily) (svc : Service)
      → has_snat_ip svc family ≡ false
      → Tries (ensure_snat json router fmt family svc) (
          delete_snat_service_rule json fmt family svc.uid
          ∷ delete_snat_src_ips_list json fmt family svc.uid
          ∷ [])
  unfolding ensure_snat
  ensure_snat-Tries family svc h = rw (h) (
      both-Tries (delete_snat_service_rule json fmt family svc.uid)
        (delete_snat_src_ips_list json fmt family svc.uid))

  ensure_service-Tries :
      (svc : Service)
      → has_lb_ip svc ipv4 ≡ false
      → has_lb_ip svc ipv6 ≡ false
      → has_snat_ip svc ipv4 ≡ false
      → has_snat_ip svc ipv6 ≡ false
      → Tries (ensure_service json router fmt svc) (
          service_deletions json router fmt ipv4 svc.uid
          ++ service_deletions json router fmt ipv6 svc.uid)
  unfolding ensure_service service_deletions
  ensure_service-Tries svc lb4 lb6 snat4 snat6 =
      then-Tries _ _ (_ ∷ _ ∷ _ ∷ _ ∷ _ ∷ _ ∷ []) _
        (then-Tries _ _ (_ ∷ _ ∷ _ ∷ _ ∷ []) _
          (then-Tries _ _ _ _ (ensure_lb-Tries ipv4 svc lb4) (ensure_snat-Tries ipv4 svc snat4))
          (ensure_lb-Tries ipv6 svc lb6))
        (ensure_snat-Tries ipv6 svc snat6)

  -- Where the service has neither a load-balancer's nor a SNAT's address in either family and
  -- `EnsureService` returns no error, `DeleteService` from the same state of the router leads to
  -- the same state and returns no error either.
  pub ensure_service-delete_service :
      (svc : Service) (w : W)
      → has_lb_ip svc ipv4 ≡ false
      → has_lb_ip svc ipv6 ≡ false
      → has_snat_ip svc ipv4 ≡ false
      → has_snat_ip svc ipv6 ≡ false
      → (ensure_service json router fmt svc w).1 ≡ ok tt
      → delete_service json router fmt svc.uid w ≡ ((ensure_service json router fmt svc w).0, ok tt)
  unfolding delete_service
  ensure_service-delete_service svc w lb4 lb6 snat4 snat6 fine =
      ap (λ p. (p.0, join_errors p.1)) (ensure_service-Tries svc lb4 lb6 snat4 snat6 w tt fine)
