-- ===== src/Sync/Slots.antt =====
-- What the slots of `Sync` (internal/routeros/api/client.go) hold after the matching.
use mikrolb.Common.{
  ◌≡◌, inl, inr, Option-cases, subst, Bool, true, not, ◌&&◌, Option, none, some, List, [], ◌∷◌,
  String, Bool-cases, All,
}
use mikrolb.Json.{Gjson, compare_objs, exists}
use mikrolb.Sync.{Slot, new_slots, match_obj, match_objs, drop_patchables}

abbrev pub Holds : {A : Type 0} → (A → Type 0) → Option A → Type 0
Holds P none = Unit
Holds P (some a) = P a

module _ {Obj Val : Type 0} (json : Gjson Obj Val) (ignored : List String)
    (P Q : Obj → Type 0) where
  -- The objects that the slot holds, and its request.
  abbrev pub SlotHolds : Slot Obj → Type 0
  SlotHolds s = Holds P s.found × (Holds P s.patchable × Q s.request)

  match_obj-SlotHolds :
      (same_id : Obj → Obj → Bool) (obj : Obj) (slots : List (Slot Obj))
      → P obj
      → All SlotHolds slots
      → All SlotHolds (match_obj json ignored same_id obj slots).1
  unfolding match_obj
  match_obj-SlotHolds same_id obj [] p h = tt
  match_obj-SlotHolds same_id obj (s ∷ ss) p h =
      let (found, (patchable, request)) = h.0 in
      elim (Bool-cases (not (exists s.found) && compare_objs json obj s.request ignored)) [
        | inl match ↦ rw (match, match_obj) ((p, (patchable, request)), h.1)
        | inr other ↦ elim (Bool-cases (not (exists s.patchable) && same_id obj s.request)) [
          | inl id ↦ rw (other, match_obj) (rw (id, match_obj) ((found, (p, request)), h.1))
          | inr fresh ↦
              rw (other, match_obj)
                (rw (fresh, match_obj) (h.0, match_obj-SlotHolds same_id obj ss p h.1))
        ]
      ]

  pub match_objs-SlotHolds :
      (keep : Obj → Bool) (same_id : Obj → Obj → Bool) (objs : List Obj) (slots : List (Slot Obj))
      → All (λ o. keep o ≡ true → P o) objs
      → All SlotHolds slots
      → All SlotHolds (match_objs json ignored keep same_id objs slots).0
        × All P (match_objs json ignored keep same_id objs slots).1
  unfolding match_objs
  match_objs-SlotHolds keep same_id [] slots p h = (h, tt)
  match_objs-SlotHolds keep same_id (obj ∷ objs) slots p h = elim (Bool-cases (keep obj)) [
    | inr drop ↦ rw (drop, match_objs) (match_objs-SlotHolds keep same_id objs slots p.1 h)
    | inl kept ↦
        let placed = match_obj-SlotHolds same_id obj slots (p.0 kept) h in
        let (slots', conflicts) =
          match_objs-SlotHolds keep same_id objs (match_obj json ignored same_id obj slots).1 p.1
            placed in
        elim (Bool-cases (match_obj json ignored same_id obj slots).0) [
          | inl matched ↦ rw (kept, match_objs) (rw (matched, match_objs) (slots', conflicts))
          | inr missed ↦
              rw (kept, match_objs) (rw (missed, match_objs) (slots', (p.0 kept, conflicts)))
        ]
  ]

  pub drop_patchables-SlotHolds :
      (slots : List (Slot Obj))
      → All SlotHolds slots
      → All SlotHolds (drop_patchables json ignored slots).0
        × All P (drop_patchables json ignored slots).1
  unfolding drop_patchables
  drop_patchables-SlotHolds [] h = (tt, tt)
  drop_patchables-SlotHolds (s ∷ ss) h =
      let (rest, conflicts) = drop_patchables-SlotHolds ss h.1 in
      elim (Option-cases s.patchable) [
        | inl empty ↦ rw (empty, drop_patchables) ((h.0, rest), conflicts)
        | inr (obj, there) ↦ elim (Bool-cases (exists s.found)) [
          | inl exact ↦
              rw (there, drop_patchables)
                (rw (exact, drop_patchables)
                  (((h.0.0, (tt, h.0.1.1)), rest), (subst (Holds P) there h.0.1.0, conflicts)))
          | inr missing ↦
              rw (there, drop_patchables) (rw (missing, drop_patchables) ((h.0, rest), conflicts))
        ]
      ]

pub new_slots-SlotHolds :
    {Obj Val : Type 0} (json : Gjson Obj Val) (ignored : List String) (P Q : Obj → Type 0)
    (reqs : List Obj)
    → All Q reqs
    → All (SlotHolds json ignored P Q) (new_slots reqs)
unfolding new_slots
new_slots-SlotHolds json ignored P Q [] h = tt
new_slots-SlotHolds json ignored P Q (req ∷ reqs) h =
    ((tt, (tt, h.0)), new_slots-SlotHolds json ignored P Q reqs h.1)
