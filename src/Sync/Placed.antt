-- ===== src/Sync/Placed.antt =====
-- What the matching of `Sync` (internal/routeros/api/client.go) finds for each request.
use mikrolb.Common.{
  ◌≡◌, refl, inl, inr, Option-cases, Bool, true, not, ◌&&◌, Option, none, some, List, [], ◌∷◌,
  String, Bool-cases, Pairs, All,
}
use mikrolb.Json.{Gjson, compare_objs, exists}
use mikrolb.Sync.{Slot, new_slots, match_obj, match_objs, drop_patchables}
use mikrolb.Sync.Slots.{Holds}

vacant_match : {A : Type 0} (o : Option A) (b : Bool) → not (exists o) && b ≡ true → b ≡ true
vacant_match none b h = h
vacant_match (some x) b h = absurd (cc)

module _ {Obj Val : Type 0} (json : Gjson Obj Val) (ignored : List String) (P : Obj → Type 0)
    (same_id : Obj → Obj → Bool) where
  -- The object is equal to the request but for the ignored fields.
  abbrev pub IsEqualTo : Obj → Obj → Type 0
  IsEqualTo req o = P o × (compare_objs json o req ignored ≡ true)

  -- The object has the request's id.
  abbrev pub HasIdOf : Obj → Obj → Type 0
  HasIdOf req o = P o × (same_id o req ≡ true)

  -- The slot is that of the request, and what was found for it has been told by these tests.
  abbrev pub SlotFor : Obj → Slot Obj → Type 0
  SlotFor req s =
      (s.request ≡ req)
      × Holds (IsEqualTo s.request) s.found
      × Holds (HasIdOf s.request) s.patchable

  pub SlotFor-new_slots : (reqs : List Obj) → Pairs SlotFor reqs (new_slots reqs)
  unfolding new_slots
  SlotFor-new_slots [] = tt
  SlotFor-new_slots (req ∷ reqs) = ((refl, tt, tt), SlotFor-new_slots reqs)

  SlotFor-match_obj :
      (obj : Obj) (reqs : List Obj) (slots : List (Slot Obj))
      → P obj
      → Pairs SlotFor reqs slots
      → Pairs SlotFor reqs (match_obj json ignored same_id obj slots).1
  unfolding match_obj
  SlotFor-match_obj obj [] [] p h = h
  SlotFor-match_obj obj [] (s ∷ ss) p h = absurd h
  SlotFor-match_obj obj (r ∷ rs) [] p h = absurd h
  SlotFor-match_obj obj (r ∷ rs) (s ∷ ss) p h =
      let (here, found, patchable) = h.0 in
      elim (Bool-cases (not (exists s.found) && compare_objs json obj s.request ignored)) [
        | inl match ↦
            rw (match, match_obj) ((here, (p, vacant_match s.found _ match), patchable), h.1)
        | inr other ↦ elim (Bool-cases (not (exists s.patchable) && same_id obj s.request)) [
          | inl id ↦
              rw (other, match_obj)
                (rw (id, match_obj) ((here, found, (p, vacant_match s.patchable _ id)), h.1))
          | inr fresh ↦
              rw (other, match_obj) (rw (fresh, match_obj) (h.0, SlotFor-match_obj obj rs ss p h.1))
        ]
      ]

  pub SlotFor-match_objs :
      (keep : Obj → Bool) (objs reqs : List Obj) (slots : List (Slot Obj))
      → All (λ o. keep o ≡ true → P o) objs
      → Pairs SlotFor reqs slots
      → Pairs SlotFor reqs (match_objs json ignored keep same_id objs slots).0
  unfolding match_objs
  SlotFor-match_objs keep [] reqs slots p h = h
  SlotFor-match_objs keep (obj ∷ objs) reqs slots p h = elim (Bool-cases (keep obj)) [
    | inr drop ↦ rw (drop, match_objs) (SlotFor-match_objs keep objs reqs slots p.1 h)
    | inl kept ↦
        let placed = match_obj json ignored same_id obj slots in
        let rest =
          SlotFor-match_objs keep objs reqs placed.1 p.1
            (SlotFor-match_obj obj reqs slots (p.0 kept) h) in
        elim (Bool-cases placed.0) [
          | inl matched ↦ rw (kept, match_objs) (rw (matched, match_objs) rest)
          | inr missed ↦ rw (kept, match_objs) (rw (missed, match_objs) rest)
        ]
  ]

  pub SlotFor-drop_patchables :
      (reqs : List Obj) (slots : List (Slot Obj))
      → Pairs SlotFor reqs slots
      → Pairs SlotFor reqs (drop_patchables json ignored slots).0
  unfolding drop_patchables
  SlotFor-drop_patchables [] [] h = h
  SlotFor-drop_patchables [] (s ∷ ss) h = absurd h
  SlotFor-drop_patchables (r ∷ rs) [] h = absurd h
  SlotFor-drop_patchables (r ∷ rs) (s ∷ ss) h =
      let rest = SlotFor-drop_patchables rs ss h.1 in
      let (here, found, patchable) = h.0 in
      elim (Option-cases s.patchable) [
        | inl empty ↦ rw (empty, drop_patchables) (h.0, rest)
        | inr (obj, there) ↦ elim (Bool-cases (exists s.found)) [
          | inl exact ↦
              rw (there, drop_patchables) (rw (exact, drop_patchables) ((here, found, tt), rest))
          | inr missing ↦ rw (there, drop_patchables) (rw (missing, drop_patchables) (h.0, rest))
        ]
      ]
