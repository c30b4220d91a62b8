-- ===== src/ServiceReconcile/Released.antt =====
-- The finalizer of a service that `ServiceReconciler.Reconcile` releases.
use mikrolb.Allocation.{IpAllocation}
use mikrolb.Common.{
  ◌≡◌, refl, inl, inr, Bool, true, false, ◌&&◌, Option, none, some, Option-cases, List, [], ◌∷◌,
  Bool-cases, All, if◌then◌else◌,
}
use mikrolb.ServiceReconcile.{KubeService}
use mikrolb.ServiceReconcile.Handler.{
  ServiceWorld, ServiceError, backend_not_cleaned, allocations_not_deleted, finalizer_not_patched,
  ingress_not_patched, Step, done, call, read, ◌>>◌, named, delete_all, cleanup_labels,
  cleanup_service, release_service,
}

-- What the calls do to an invariant of the state: the backend's deletion and those of allocations
-- lead, where they succeed, to states that are clean and where the allocation is gone, which stays
-- so; and the removal of the finalizer keeps the invariant in states where the backend is clean and
-- all allocations of some answer to the list are gone.
pub record ReleaseRules {W : Type 0} (world : ServiceWorld W) (svc : KubeService)
    (Safe Clean : W → Type 0) (Gone : IpAllocation → W → Type 0) : Type 0 where
  pub cleans :
      (w : W)
      → (world.delete_service w (named svc) svc.uid).1 ≡ true
      → Clean (world.delete_service w (named svc) svc.uid).0
  pub stays_clean :
      (w : W) (a : IpAllocation) → Clean w → Clean (world.writes.delete_allocation w a).0
  pub deletes :
      (w : W) (a : IpAllocation)
      → (world.writes.delete_allocation w a).1 ≡ true
      → Gone a (world.writes.delete_allocation w a).0
  pub stays_gone :
      (w : W) (a b : IpAllocation) → Gone a w → Gone a (world.writes.delete_allocation w b).0
  pub safe_cleaning : (w : W) → Safe w → Safe (world.delete_service w (named svc) svc.uid).0
  pub safe_deletion :
      (w : W) (a : IpAllocation) → Safe w → Safe (world.writes.delete_allocation w a).0
  pub safe_ingress : (w : W) → Safe w → Safe (world.write_ingress w svc []).0
  pub safe_removal :
      (v w : W) (allocs : List IpAllocation)
      → world.list_allocations_cached v (cleanup_labels world svc) ≡ some allocs
      → Clean w
      → All (λ a. Gone a w) allocs
      → Safe w
      → Safe (world.remove_service_finalizer w svc).0

module _ {W : Type 0} (world : ServiceWorld W) (svc : KubeService) (Safe Clean : W → Type 0)
    (Gone : IpAllocation → W → Type 0) (rules : ReleaseRules world svc Safe Clean Gone) where
  -- An invariant that single deletions keep is kept by the loop.
  delete_all-keeps :
      (P : W → Type 0) (allocs : List IpAllocation) (w : W)
      → ((v : W) (a : IpAllocation) → P v → P (world.writes.delete_allocation v a).0)
      → P w
      → P (delete_all world allocs w).0
  unfolding delete_all
  delete_all-keeps P [] w h p = p
  delete_all-keeps P (a ∷ allocs) w h p =
      delete_all-keeps P allocs (world.writes.delete_allocation w a).0 h (h w a p)

  delete_all-Gone :
      (allocs : List IpAllocation) (w : W)
      → (delete_all world allocs w).1 ≡ true
      → All (λ a. Gone a (delete_all world allocs w).0) allocs
  unfolding delete_all
  delete_all-Gone [] w h = tt
  delete_all-Gone (a ∷ allocs) w h =
      let (w', deleted) = world.writes.delete_allocation w a in
      let (first, rest) = and_both deleted (delete_all world allocs w').1 h in
      (
        delete_all-keeps (Gone a) allocs w' (λ v b. rules.stays_gone v a b)
            (rules.deletes w a first),
        delete_all-Gone allocs w' rest,
      )
    where
      and_both : (b c : Bool) → b && c ≡ true → (b ≡ true) × (c ≡ true)
      and_both true c h = (refl, h)
      and_both false c h = absurd (cc)

  -- Everything of the service is cleaned up.
  abbrev Ready : W → Type 0
  Ready w =
      (v : W) × (allocs : List IpAllocation) × (world.list_allocations_cached v
          (cleanup_labels world svc)
        ≡ some allocs)
      × Clean w
      × All (λ a. Gone a w) allocs

  abbrev Ends : W × Option ServiceError → Type 0
  Ends r = Safe r.0 × (r.1 ≡ none → Ready r.0)

  cleanup-Ends :
      (v w : W) (allocs : List IpAllocation)
      → world.list_allocations_cached v (cleanup_labels world svc) ≡ some allocs
      → Safe w
      → Ends (
          (call (λ u. world.delete_service u (named svc) svc.uid) backend_not_cleaned
              >> call (delete_all world allocs) allocations_not_deleted)
            w)
  cleanup-Ends v w allocs listed safe =
      let (w1, cleaned) = world.delete_service w (named svc) svc.uid in
      let safe1 = rules.safe_cleaning w safe in
      let safe2 = delete_all-keeps Safe allocs w1 rules.safe_deletion safe1 in
      elim (Bool-cases cleaned) [
        | inr failed ↦ rw (failed, ◌>>◌, call) (safe1, λ h. absurd (cc))
        | inl fine ↦ elim (Bool-cases (delete_all world allocs w1).1) [
          | inr failed ↦ rw (fine, ◌>>◌, call) (rw (failed, ◌>>◌, call) (safe2, λ h. absurd (cc)))
          | inl all ↦
              rw (fine, ◌>>◌, call)
                (rw (all, ◌>>◌, call)
                  (
                    safe2,
                    λ h. (
                      v,
                      allocs,
                      listed,
                      delete_all-keeps Clean allocs w1 rules.stays_clean (rules.cleans w fine),
                      delete_all-Gone allocs w1 all,
                    ),
                  ))
        ]
      ]

  cleanup_service-Ends : (w : W) → Safe w → Ends (cleanup_service world svc w)
  unfolding cleanup_service
  cleanup_service-Ends w safe =
      elim (Option-cases (world.list_allocations_cached w (cleanup_labels world svc))) [
        | inl missing ↦ rw (missing, read) (safe, λ h. absurd (cc))
        | inr (allocs, listed) ↦ rw (listed, read) (cleanup-Ends w w allocs listed safe)
      ]

  then-Safe :
      (m k : Step W) (Mid : W → Type 0) (w : W)
      → Safe (m w).0
      → ((m w).1 ≡ none → Mid (m w).0)
      → ((v : W) → Mid v → Safe v → Safe (k v).0)
      → Safe ((m >> k) w).0
  then-Safe m k Mid w safe mid next = elim (Option-cases (m w).1) [
    | inl fine ↦ rw (fine, ◌>>◌) (next (m w).0 (mid fine) safe)
    | inr (e, stop) ↦ rw (stop, ◌>>◌) safe
  ]

  if-Safe :
      (b : Bool) (m k : Step W) (w : W)
      → Safe (m w).0
      → Safe (k w).0
      → Safe ((if b then m else k) w).0
  if-Safe true m k w h h' = h
  if-Safe false m k w h h' = h'

  -- An invariant that the clean-up keeps, and the removal of the finalizer only in states where the
  -- backend has deleted the service and every allocation of some answer to the list is deleted, is
  -- kept by the release of the service, whether it fails or not: the finalizer is removed in no
  -- other state.
  pub release_service-keeps : (w : W) → Safe w → Safe (release_service world svc w).0
  unfolding release_service
  release_service-keeps w safe =
      let remove = call (λ v. world.remove_service_finalizer v svc) finalizer_not_patched in
      let clear = call (λ v. world.write_ingress v svc []) ingress_not_patched in
      let finish = if svc.is_deleting then done else clear in
      let (cleaned, ready) = cleanup_service-Ends w safe in
      let removed =
        then-Safe (cleanup_service world svc) remove Ready w cleaned ready
          (λ v (u, allocs, listed, clean, gone) i.
            rules.safe_removal u v allocs listed clean gone i) in
      if-Safe svc.has_finalizer (cleanup_service world svc >> remove >> finish) done w
        (then-Safe (cleanup_service world svc >> remove) finish (λ v. Unit) w removed (λ h. tt)
          (λ v _ i. if-Safe svc.is_deleting done clear v i (rules.safe_ingress v i)))
        safe
