-- ===== src/Sync/Steady.antt =====
-- `Sync` (internal/routeros/api/client.go) on a router that is in line with the requests.
use mikrolb.Common.{
  ◌≡◌, refl, ap, ◌∙◌, ok, true, false, none, some, List, [], ◌∷◌, ◌++◌, All, append_assoc,
  append-nil,
}
use mikrolb.Json.{Gjson, compare_objs}
use mikrolb.Sync.{
  Router, SyncCall, Slot, passes_filter, same_id_by, new_slots, match_obj, match_objs,
  drop_patchables, delete_conflicts, write_slot, write_slots, write_matched, sync,
}

abbrev pub Pair : Type 0 → Type 0
Pair Obj = Obj × Obj

abbrev pub filled : {Obj : Type 0} → Obj → Obj → Slot Obj
filled obj req = record { request = req; found = some obj; patchable = none }

-- The slots of requests that are done, each with its object, and of those that are not.
unfoldable pub slots_of : {Obj : Type 0} → List (Pair Obj) → List Obj → List (Slot Obj)
unfolding new_slots
slots_of [] reqs = new_slots reqs
slots_of ((obj, req) ∷ done) reqs = filled obj req ∷ slots_of done reqs

unfoldable pub zip : {Obj : Type 0} → List Obj → List Obj → List (Pair Obj)
zip [] reqs = []
zip (obj ∷ objs) [] = []
zip (obj ∷ objs) (req ∷ reqs) = (obj, req) ∷ zip objs reqs

unfoldable pub firsts : {Obj : Type 0} → List (Pair Obj) → List Obj
firsts [] = []
firsts ((obj, req) ∷ done) = obj ∷ firsts done

module _ {Obj Val : Type 0} (json : Gjson Obj Val) (call : SyncCall Obj) where
  -- The entries are equal to the requests in their order, but for the ignored fields, pass the
  -- filter, and have another id than the requests before theirs.
  abbrev pub InStep : List (Pair Obj) → List Obj → List Obj → Type 0
  InStep done [] [] = Unit
  InStep done [] (req ∷ reqs) = ⊥
  InStep done (obj ∷ objs) [] = ⊥
  InStep done (obj ∷ objs) (req ∷ reqs) =
      (passes_filter call.filter obj ≡ true)
      × (compare_objs json obj req call.ignored_fields ≡ true)
      × All (λ p. same_id_by call.id_func obj p.1 ≡ false) done
      × InStep (done ++ ((obj, req) ∷ [])) objs reqs

  match_obj-fills :
      (done : List (Pair Obj)) (obj req : Obj) (reqs : List Obj)
      → compare_objs json obj req call.ignored_fields ≡ true
      → All (λ p. same_id_by call.id_func obj p.1 ≡ false) done
      → match_obj json call.ignored_fields
          (same_id_by call.id_func)
          obj
          (slots_of done (req ∷ reqs))
        ≡ (true, slots_of (done ++ ((obj, req) ∷ [])) reqs)
  unfolding match_obj slots_of new_slots
  match_obj-fills [] obj req reqs same apart = rw (same, match_obj) refl
  match_obj-fills ((o, r) ∷ done) obj req reqs same apart =
      rw (apart.0, match_obj)
        (ap (λ p. (p.0, filled o r ∷ p.1)) (match_obj-fills done obj req reqs same apart.1))

  match_objs-fills :
      (done : List (Pair Obj)) (objs reqs : List Obj)
      → InStep done objs reqs
      → match_objs json call.ignored_fields
          (passes_filter call.filter)
          (same_id_by call.id_func)
          objs
          (slots_of done reqs)
        ≡ (slots_of (done ++ zip objs reqs) [], [])
  unfolding match_objs zip
  match_objs-fills done [] [] h = rw (append-nil done) refl
  match_objs-fills done [] (req ∷ reqs) h = absurd h
  match_objs-fills done (obj ∷ objs) [] h = absurd h
  match_objs-fills done (obj ∷ objs) (req ∷ reqs) (keep, same, apart, rest) =
      rw (keep, match_objs)
        (rw (match_obj-fills done obj req reqs same apart, match_objs)
          (match_objs-fills (done ++ ((obj, req) ∷ [])) objs reqs rest
            ∙ ap (λ l. (slots_of l [], [])) (append_assoc done ((obj, req) ∷ []) (zip objs reqs))))

  drop_patchables-filled :
      (done : List (Pair Obj))
      → drop_patchables json call.ignored_fields (slots_of done []) ≡ (slots_of done [], [])
  unfolding drop_patchables slots_of new_slots
  drop_patchables-filled [] = refl
  drop_patchables-filled ((o, r) ∷ done) =
      ap (λ p. (filled o r ∷ p.0, p.1)) (drop_patchables-filled done)

  firsts-zip :
      (done : List (Pair Obj)) (objs reqs : List Obj)
      → InStep done objs reqs
      → firsts (zip objs reqs) ≡ objs
  unfolding firsts zip
  firsts-zip done [] [] h = refl
  firsts-zip done [] (req ∷ reqs) h = absurd h
  firsts-zip done (obj ∷ objs) [] h = absurd h
  firsts-zip done (obj ∷ objs) (req ∷ reqs) (keep, same, apart, rest) =
      ap (λ l. obj ∷ l) (firsts-zip (done ++ ((obj, req) ∷ [])) objs reqs rest)

  module _ {W : Type 0} (router : Router W Obj Val) where
    write_slots-filled :
        (w : W) (done : List (Pair Obj))
        → write_slots json router call.path call.ignored_fields w (slots_of done [])
          ≡ (w, ok (firsts done))
    unfolding write_slots write_slot slots_of new_slots firsts
    write_slots-filled w [] = refl
    write_slots-filled w ((o, r) ∷ done) =
        let rest = write_slots-filled w done in
        rw (ap (λ p. p.1) rest, write_slots) (ap (λ p. (p.0, ok (o ∷ firsts done))) rest)

    -- Where the router's answer has an entry for each request, equal to it but for the ignored
    -- fields, in the requests' order, and each entry passes the filter and has by the id function
    -- another id than the requests before its own, `Sync` writes nothing and returns the entries.
    pub sync-steady :
        (w : W) (objs : List Obj)
        → router.get_array w call.path call.query ≡ some objs
        → InStep [] objs call.requests
        → sync json router w call ≡ (w, ok objs)
    unfolding sync slots_of write_matched delete_conflicts
    sync-steady w objs there h =
        let done = zip objs call.requests in
        rw (there, sync)
          (rw (match_objs-fills [] objs call.requests h, sync)
            (rw (drop_patchables-filled done, sync)
              (write_slots-filled w done
                ∙ ap (λ l. (w, ok l)) (firsts-zip [] objs call.requests h))))
