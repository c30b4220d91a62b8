-- ===== src/ServiceReconcile/Converge.antt =====
-- The allocations of a service after both loops of `ServiceReconciler.Reconcile`.
use mikrolb.Allocation.{IpAllocation}
use mikrolb.Common.{
  ◌≡◌, ◌≢◌, sym, inl, inr, ◌⊎◌, ◌↔◌, true, false, List, [], ◌∷◌, String, str_eq, eq_iff, Bool-cases,
  or_left, or_right, or_rest,
}
use mikrolb.ServiceReconcile.{KubeService}
use mikrolb.ServiceReconcile.Expected.{
  Expected, NewAllocation, AllocationWrites, is_expected, is_listed, new_allocation,
  delete_unexpected, create_missing,
}

-- What the writes do to the allocations of the service that are stored and not marked for deletion,
-- told by their names.
pub record StoresNames {W : Type 0} (writes : AllocationWrites W) (Stored : W → String → Type 0)
    : Type 0 where
  pub deletes :
      (w : W) (alloc : IpAllocation) (name : String)
      → Stored (writes.delete_allocation w alloc).0 name ↔ (Stored w name × (alloc.name ≢ name))
  pub creates :
      (w : W) (new : NewAllocation) (name : String)
      → Stored (writes.create_allocation w new).0 name ↔ (Stored w name ⊎ (new.name ≡ name))

module _ {W : Type 0} (writes : AllocationWrites W) (Stored : W → String → Type 0)
    (stores : StoresNames writes Stored) where
  -- The loop deletes the allocations of this name.
  abbrev Doomed : List Expected → List IpAllocation → String → Type 0
  Doomed expected allocs name = (is_listed name allocs ≡ true) × (is_expected name expected ≡ false)

  delete_unexpected-Stored :
      (expected : List Expected) (allocs : List IpAllocation) (w : W) (name : String)
      → Stored (delete_unexpected writes expected allocs w) name
        ↔ (Stored w name × ¬ Doomed expected allocs name)
  unfolding delete_unexpected is_listed
  delete_unexpected-Stored expected [] w name = (λ h. (h, λ d. absurd (cc)), λ h. h.0)
  delete_unexpected-Stored expected (alloc ∷ allocs) w name =
      elim (Bool-cases (is_expected alloc.name expected)) [
        | inl kept ↦
            let (to, from) = delete_unexpected-Stored expected allocs w name in
            rw (kept, delete_unexpected)
              (
                λ h. (
                  (to h).0,
                  λ d. elim (Bool-cases (str_eq alloc.name name)) [
                    | inl same ↦ let e = (eq_iff alloc.name name).0 same in absurd (cc)
                    | inr other ↦ (to h).1 (or_rest (str_eq alloc.name name) _ other d.0, d.1)
                  ],
                ),
                λ h. from (h.0, λ d. h.1 (or_right (str_eq alloc.name name) _ d.0, d.1)),
              )
        | inr dropped ↦
            let w' = (writes.delete_allocation w alloc).0 in
            let (to, from) = delete_unexpected-Stored expected allocs w' name in
            let (gone, still) = stores.deletes w alloc name in
            rw (dropped, delete_unexpected)
              (
                λ h. (
                  (gone (to h).0).0,
                  λ d. elim (Bool-cases (str_eq alloc.name name)) [
                    | inl same ↦ (gone (to h).0).1 ((eq_iff alloc.name name).0 same)
                    | inr other ↦ (to h).1 (or_rest (str_eq alloc.name name) _ other d.0, d.1)
                  ],
                ),
                λ h. from (
                  still (
                    h.0,
                    λ same.
                        h.1
                          (or_left _ (is_listed name allocs) ((eq_iff alloc.name name).1 same), cc),
                  ),
                  λ d. h.1 (or_right (str_eq alloc.name name) _ d.0, d.1),
                ),
              )
      ]

  create_missing-Stored :
      (svc : KubeService) (allocs : List IpAllocation) (expected : List Expected) (w : W)
      (name : String)
      → Stored (create_missing writes svc allocs expected w) name
        ↔ (Stored w name ⊎ ((is_expected name expected ≡ true) × (is_listed name allocs ≡ false)))
  unfolding create_missing is_expected new_allocation
  create_missing-Stored svc allocs [] w name =
      (λ h. inl h, λ h. elim h [ inl s ↦ s | inr (e, l) ↦ absurd (cc) ])
  create_missing-Stored svc allocs (e ∷ es) w name = elim (Bool-cases (is_listed e.name allocs)) [
    | inl there ↦
        let (to, from) = create_missing-Stored svc allocs es w name in
        rw (there, create_missing)
          (
            λ h. elim (to h) [
              | inl s ↦ inl s
              | inr (x, l) ↦ inr (or_right (str_eq name e.name) _ x, l)
            ],
            λ h. elim h [
              | inl s ↦ from (inl s)
              | inr (x, l) ↦ elim (Bool-cases (str_eq name e.name)) [
                | inl same ↦ let eq = (eq_iff name e.name).0 same in absurd (cc)
                | inr other ↦ from (inr (or_rest (str_eq name e.name) _ other x, l))
              ]
            ],
          )
    | inr missing ↦
        let (w', done) = writes.create_allocation w (new_allocation svc e) in
        let (to, from) = create_missing-Stored svc allocs es w' name in
        let (made, kept) = stores.creates w (new_allocation svc e) name in
        rw (missing, create_missing)
          (
            λ h. elim (to h) [
              | inl s ↦ elim (made s) [
                | inl old ↦ inl old
                | inr same ↦
                    inr (or_left _ (is_expected name es) ((eq_iff name e.name).1 (sym same)), cc)
              ]
              | inr (x, l) ↦ inr (or_right (str_eq name e.name) _ x, l)
            ],
            λ h. elim h [
              | inl s ↦ from (inl (kept (inl s)))
              | inr (x, l) ↦ elim (Bool-cases (str_eq name e.name)) [
                | inl same ↦ from (inl (kept (inr (sym ((eq_iff name e.name).0 same)))))
                | inr other ↦ from (inr (or_rest (str_eq name e.name) _ other x, l))
              ]
            ],
          )
  ]

  -- Where the deletions and creations do to the names that are stored what the API server documents
  -- of those that succeed, and the list that was read has the stored names, the names that are
  -- stored after both loops are exactly the expected ones.
  pub create_missing-Converges :
      (svc : KubeService) (allocs : List IpAllocation) (expected : List Expected) (w : W)
      → ((name : String) → Stored w name ↔ (is_listed name allocs ≡ true))
      → (name : String)
      → Stored
          (create_missing writes svc allocs expected (delete_unexpected writes expected allocs w))
          name
        ↔ (is_expected name expected ≡ true)
  create_missing-Converges svc allocs expected w start name =
      let w' = delete_unexpected writes expected allocs w in
      let (made, make) = create_missing-Stored svc allocs expected w' name in
      let (left, leave) = delete_unexpected-Stored expected allocs w name in
      let (listed, list) = start name in
      (
        λ h. elim (made h) [
          | inr (x, l) ↦ x
          | inl s ↦ elim (Bool-cases (is_expected name expected)) [
            | inl x ↦ x
            | inr other ↦ absurd ((left s).1 (listed (left s).0, other))
          ]
        ],
        λ x. elim (Bool-cases (is_listed name allocs)) [
          | inl there ↦ make (inl (leave (list there, λ d. absurd (cc))))
          | inr missing ↦ make (inr (x, missing))
        ],
      )
