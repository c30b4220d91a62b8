-- ===== src/Sync/Answers.antt =====
-- What `Sync` (internal/routeros/api/client.go) has done where it returns no error.
use mathlib.Core.Bool.{false≢true}
use mikrolb.Common.{
  false, ◌∙◌, ◌≡◌, ◌≢◌, refl, sym, subst, inl, inr, ◌⊎◌, Option-cases, Result-cases, ok-injective,
  ok, Bool, true, Option, none, some, List, [], ◌∷◌, ◌++◌, String, str_eq, eq_iff, Bool-cases,
  Pairs, All, All-Member, All-append,
}
use mikrolb.Json.{Gjson, generate_patch_request}
use mikrolb.Sync.{
  Router, SyncCall, Slot, SyncError, put_failed, patch_failed, answered, passes_filter, same_id_by,
  entry_path, id_of, new_slots, match_objs, drop_patchables, delete_conflicts, write_slot,
  write_slots, write_matched, sync,
}
use mikrolb.Sync.Effects.{Listed}
use mikrolb.Sync.Placed.{
  IsEqualTo, HasIdOf, SlotFor, SlotFor-new_slots, SlotFor-match_objs, SlotFor-drop_patchables,
}
use mikrolb.Sync.Slots.{Holds, match_objs-SlotHolds, drop_patchables-SlotHolds, new_slots-SlotHolds}

id_given : (id : String) → str_eq id "" ≡ false → ◌≢◌ {A = String} id ""
id_given id named e = false≢true (sym named ∙ (eq_iff id "").1 e)

module _ {W Obj Val : Type 0} (json : Gjson Obj Val) (router : Router W Obj Val) (path : String)
    (ignored : List String) (P : Obj → Type 0) (same_id : Obj → Obj → Bool) where
  -- The objects are deleted one after the other, but for those without an id, and this leads from
  -- the first state to the second.
  abbrev pub Deletes : W → List Obj → W → Type 0
  Deletes v [] u = v ≡ u
  Deletes v (o ∷ os) u =
      let deleted = router.delete v (entry_path path (id_of json ignored o)) in
      ((id_of json ignored o ≡ "") × Deletes v os u)
      ⊎ ((id_of json ignored o ≢ "") × (deleted.1 ≡ true) × Deletes deleted.0 os u)

  -- What is returned for a request, and the state after it: an object that is equal to it, and the
  -- state is left as it is; or the router's answer to the creation of the request, or to the patch
  -- of an object that has the request's id.
  abbrev pub Answer : W → Obj → Obj → W → Type 0
  Answer v req obj u =
      (IsEqualTo json ignored P same_id req obj × (v ≡ u))
      ⊎ (router.put v path req ≡ (u, some obj))
      ⊎ ((o : Obj) × HasIdOf json ignored P same_id req o
          × (id_of json ignored o ≢ "")
          × (router.patch v (entry_path path (id_of json ignored o))
                (generate_patch_request json o req ignored)
              ≡ (u, some obj)))

  -- One answer for each request, in their order, each from the state after the one before.
  abbrev pub Answers : W → List Obj → List Obj → W → Type 0
  Answers v [] [] u = v ≡ u
  Answers v (req ∷ reqs) (obj ∷ objs) u = (t : W) × Answer v req obj t × Answers t reqs objs u
  Answers v _ _ u = ⊥

  answered_lem :
      (e : SyncError) (p : W × Option Obj) (obj : Obj)
      → (answered e p).1 ≡ ok obj
      → p ≡ ((answered e p).0, some obj)
  answered_lem e (v, none) obj h = absurd (cc)
  answered_lem e (v, some o) obj h = rw (ok-injective h) refl

  delete_conflicts-Deletes :
      (v : W) (objs : List Obj)
      → (delete_conflicts json router path ignored v objs).1 ≡ none
      → Deletes v objs (delete_conflicts json router path ignored v objs).0
  unfolding delete_conflicts
  delete_conflicts-Deletes v [] = λ h. refl
  delete_conflicts-Deletes v (obj ∷ objs) =
      let (v', deleted) = router.delete v (entry_path path (id_of json ignored obj)) in
      elim (Bool-cases (str_eq (id_of json ignored obj) "")) [
        | inl nameless ↦
            rw (nameless, delete_conflicts)
              (λ h. inl (
                (eq_iff (id_of json ignored obj) "").0 nameless,
                delete_conflicts-Deletes v objs h,
              ))
        | inr named ↦ elim (Bool-cases deleted) [
          | inl gone ↦
              rw (named, delete_conflicts)
                (rw (gone, delete_conflicts)
                  (λ h. inr (id_given _ named, refl, delete_conflicts-Deletes v' objs h)))
          | inr failed ↦
              rw (named, delete_conflicts) (rw (failed, delete_conflicts) (λ h. absurd (cc)))
        ]
      ]

  write_slot-Answer :
      (v : W) (s : Slot Obj) (obj : Obj)
      → SlotFor json ignored P same_id s.request s
      → (write_slot json router path ignored v s).1 ≡ ok obj
      → Answer v s.request obj (write_slot json router path ignored v s).0
  unfolding write_slot
  write_slot-Answer v s obj (_, found, patchable) = elim (Option-cases s.found) [
    | inr (o, there) ↦
        rw (there, write_slot)
          (λ h. inl (
            subst (IsEqualTo json ignored P same_id s.request) (ok-injective h)
                (subst (Holds (IsEqualTo json ignored P same_id s.request)) there found),
            refl,
          ))
    | inl missing ↦ elim (Option-cases s.patchable) [
      | inl nothing ↦ rw (missing, write_slot) (rw (nothing, write_slot) created)
      | inr (o, there) ↦ elim (Bool-cases (str_eq (id_of json ignored o) "")) [
        | inl nameless ↦
            rw (missing, write_slot) (rw (there, write_slot) (rw (nameless, write_slot) created))
        | inr named ↦
            rw (missing, write_slot)
              (rw (there, write_slot)
                (rw (named, write_slot)
                  (λ h. inr (
                    inr (
                      o,
                      subst (Holds (HasIdOf json ignored P same_id s.request)) there patchable,
                      id_given _ named,
                      answered_lem patch_failed _ obj h,
                    )))))
      ]
    ]
  ]
    where
      created :
          (answered put_failed (router.put v path s.request)).1 ≡ ok obj
          → Answer v s.request obj (answered put_failed (router.put v path s.request)).0
      created h = inr (inl (answered_lem put_failed _ obj h))

  write_slots-Answers :
      (v : W) (reqs : List Obj) (slots : List (Slot Obj)) (objs : List Obj)
      → Pairs (SlotFor json ignored P same_id) reqs slots
      → (write_slots json router path ignored v slots).1 ≡ ok objs
      → Answers v reqs objs (write_slots json router path ignored v slots).0
  unfolding write_slots
  write_slots-Answers v [] [] objs p = λ h. subst (λ l. Answers v [] l v) (ok-injective h) refl
  write_slots-Answers v [] (s ∷ ss) objs p = absurd p
  write_slots-Answers v (r ∷ rs) [] objs p = absurd p
  write_slots-Answers v (r ∷ rs) (s ∷ ss) objs p =
      let (v', one) = write_slot json router path ignored v s in
      let (u, others) = write_slots json router path ignored v' ss in
      elim (Result-cases one) [
        | inr (e, failed) ↦ rw (failed, write_slots) (λ h. absurd (cc))
        | inl (obj, done) ↦
            let first =
              subst (λ x. Answer v x obj v') p.0.0
                (write_slot-Answer v s obj (refl, p.0.1, p.0.2) done) in
            elim (Result-cases others) [
              | inl (rest, all) ↦
                  rw (done, write_slots)
                    (rw (all, write_slots)
                      (λ h.
                        subst (λ l. Answers v (r ∷ rs) l u) (ok-injective h)
                          (v', first, write_slots-Answers v' rs ss rest p.1 all)))
              | inr (e, failed) ↦
                  rw (done, write_slots) (rw (failed, write_slots) (λ h. absurd (cc)))
            ]
      ]

  -- The deletions, and then the answers.
  abbrev pub Run : W → List Obj → List Obj → List Obj → W → Type 0
  Run v gone reqs objs u = (t : W) × Deletes v gone t × Answers t reqs objs u

  write_matched-Run :
      (v : W) (reqs : List Obj) (slots : List (Slot Obj)) (conflicts objs : List Obj)
      → Pairs (SlotFor json ignored P same_id) reqs slots
      → (write_matched json router path ignored v slots conflicts).1 ≡ ok objs
      → Run v conflicts reqs objs (write_matched json router path ignored v slots conflicts).0
  unfolding write_matched
  write_matched-Run v reqs slots conflicts objs p =
      let (t, failed) = delete_conflicts json router path ignored v conflicts in
      elim (Option-cases failed) [
        | inr (e, stop) ↦ rw (stop, write_matched) (λ h. absurd (cc))
        | inl fine ↦
            rw (fine, write_matched)
              (λ h. (
                t,
                delete_conflicts-Deletes v conflicts fine,
                write_slots-Answers t reqs slots objs p h,
              ))
      ]

-- Listed entries that pass the filter are deleted, and then the requests are answered with others
-- of them or by patching or creating.
abbrev pub IsRun :
    {W Obj Val : Type 0}
    → Gjson Obj Val
    → Router W Obj Val
    → SyncCall Obj
    → W
    → List Obj
    → W
    → Type 0
IsRun {Obj = Obj} json router call w objs u =
    (gone : List Obj) × All (Listed router w call) gone
    × Run json router call.path call.ignored_fields (Listed router w call) (same_id_by call.id_func)
        w gone call.requests objs u

-- Where `Sync` returns no error, it has deleted listed entries that pass the filter, but for those
-- without an id, and then answered each request in their order, with the state going through: with
-- a listed entry that passes the filter and is equal to the request but for the ignored fields,
-- without a write, or with the router's answer to the patch of such an entry that has the
-- request's id, or to the creation of the request.
pub sync-IsRun :
    {W Obj Val : Type 0} (json : Gjson Obj Val) (router : Router W Obj Val) (w : W)
    (call : SyncCall Obj) (objs : List Obj)
    → (sync json router w call).1 ≡ ok objs
    → IsRun json router call w objs (sync json router w call).0
unfolding sync
sync-IsRun {Obj = Obj} json router w call objs =
    let P = Listed router w call in
    let Any : Obj → Type 0 = λ req. Unit in
    let ignored = call.ignored_fields in
    let keep = passes_filter call.filter in
    let same_id = same_id_by call.id_func in
    let reqs = call.requests in
    elim (Option-cases (router.get_array w call.path call.query)) [
      | inl failed ↦ rw (failed, sync) (λ h. absurd (cc))
      | inr (listed, there) ↦
          let passing =
            All-Member (λ o. keep o ≡ true → P o) listed (λ o m kept. (listed, there, m, kept)) in
          let fresh =
            new_slots-SlotHolds json ignored P Any reqs (All-Member Any reqs (λ req m. tt)) in
          let matched = match_objs json ignored keep same_id listed (new_slots reqs) in
          let (slots, conflicts) =
            match_objs-SlotHolds json ignored P Any keep same_id listed (new_slots reqs) passing
              fresh in
          let more = (drop_patchables-SlotHolds json ignored P Any matched.0 slots).1 in
          let dropped = drop_patchables json ignored matched.0 in
          let placed = SlotFor-drop_patchables json ignored P same_id reqs matched.0 (
            SlotFor-match_objs json ignored P same_id keep listed reqs (new_slots reqs) passing
              (SlotFor-new_slots json ignored P same_id reqs)) in
          rw (there, sync)
            (λ h. (
              matched.1 ++ dropped.1,
              All-append P matched.1 dropped.1 conflicts more,
              write_matched-Run json router call.path ignored P same_id w reqs dropped.0
                  (matched.1 ++ dropped.1) objs placed h,
            ))
    ]
