-- ===== src/Sync/Effects.antt =====
-- What `Sync` (internal/routeros/api/client.go) may write on the router.
use mikrolb.Common.{
  ◌≡◌, inl, inr, Option-cases, Result-cases, subst, true, Option, none, some, List, [], ◌∷◌, ◌++◌,
  String, str_eq, Bool-cases, All, Member, All-Member, All-append,
}
use mikrolb.Json.{Gjson, generate_patch_request}
use mikrolb.Sync.{
  Router, SyncCall, Slot, passes_filter, same_id_by, SyncError, put_failed, patch_failed, answered,
  entry_path, id_of, new_slots, match_objs, drop_patchables, delete_conflicts, write_slot,
  write_slots, write_matched, sync,
}
use mikrolb.Sync.Slots.{
  Holds, SlotHolds, match_objs-SlotHolds, drop_patchables-SlotHolds, new_slots-SlotHolds,
}

-- An invariant of the router's state that the writes keep which concern an object with `P` or a
-- request with `Q`.
module _ {W Obj Val : Type 0} (json : Gjson Obj Val) (router : Router W Obj Val) (path : String)
    (ignored : List String) (P Q : Obj → Type 0) (Inv : W → Type 0)
    (deletes : (v : W) (o : Obj)
      → P o
      → Inv v
      → Inv (router.delete v (entry_path path (id_of json ignored o))).0)
    (patches : (v : W) (o req : Obj)
      → P o
      → Q req
      → Inv v
      → Inv
          (router.patch v
            (entry_path path (id_of json ignored o))
            (generate_patch_request json o req ignored)).0)
    (puts : (v : W) (req : Obj) → Q req → Inv v → Inv (router.put v path req).0) where
  pub delete_conflicts-keeps :
      (v : W) (objs : List Obj)
      → All P objs
      → Inv v
      → Inv (delete_conflicts json router path ignored v objs).0
  unfolding delete_conflicts
  delete_conflicts-keeps v [] h i = i
  delete_conflicts-keeps v (obj ∷ objs) h i =
      let (v', deleted) = router.delete v (entry_path path (id_of json ignored obj)) in
      let kept = deletes v obj h.0 i in
      elim (Bool-cases (str_eq (id_of json ignored obj) "")) [
        | inl nameless ↦ rw (nameless, delete_conflicts) (delete_conflicts-keeps v objs h.1 i)
        | inr named ↦ elim (Bool-cases deleted) [
          | inl gone ↦
              rw (named, delete_conflicts)
                (rw (gone, delete_conflicts) (delete_conflicts-keeps v' objs h.1 kept))
          | inr failed ↦ rw (named, delete_conflicts) (rw (failed, delete_conflicts) kept)
        ]
      ]

  answered-keeps : (e : SyncError) (v : W) (o : Option Obj) → Inv v → Inv (answered e (v, o)).0
  answered-keeps e v none i = i
  answered-keeps e v (some obj) i = i

  put-keeps :
      (v : W) (req : Obj) → Q req → Inv v → Inv (answered put_failed (router.put v path req)).0
  put-keeps v req q i =
      let (v', o) = router.put v path req in answered-keeps put_failed v' o (puts v req q i)

  write_slot-keeps :
      (v : W) (s : Slot Obj)
      → SlotHolds json ignored P Q s
      → Inv v
      → Inv (write_slot json router path ignored v s).0
  unfolding write_slot
  write_slot-keeps v s (found, (patchable, request)) i = elim (Option-cases s.found) [
    | inr (obj, there) ↦ rw (there, write_slot) i
    | inl missing ↦ elim (Option-cases s.patchable) [
      | inl nothing ↦
          rw (missing, write_slot) (rw (nothing, write_slot) (put-keeps v s.request request i))
      | inr (obj, there) ↦ elim (Bool-cases (str_eq (id_of json ignored obj) "")) [
        | inl nameless ↦
            rw (missing, write_slot)
              (rw (there, write_slot) (rw (nameless, write_slot) (put-keeps v s.request request i)))
        | inr named ↦
            let (v', o) =
              router.patch v (entry_path path (id_of json ignored obj))
                (generate_patch_request json obj s.request ignored) in
            rw (missing, write_slot)
              (rw (there, write_slot)
                (rw (named, write_slot)
                  (answered-keeps patch_failed v' o
                    (patches v obj s.request (subst (Holds P) there patchable) request i))))
      ]
    ]
  ]

  pub write_slots-keeps :
      (v : W) (slots : List (Slot Obj))
      → All (SlotHolds json ignored P Q) slots
      → Inv v
      → Inv (write_slots json router path ignored v slots).0
  unfolding write_slots
  write_slots-keeps v [] h i = i
  write_slots-keeps v (s ∷ ss) h i =
      let (v', one) = write_slot json router path ignored v s in
      let kept = write_slot-keeps v s h.0 i in
      let rest = write_slots-keeps v' ss h.1 kept in
      elim (Result-cases one) [
        | inr (e, failed) ↦ rw (failed, write_slots) kept
        | inl (obj, done) ↦ elim (Result-cases (write_slots json router path ignored v' ss).1) [
          | inl (objs, all) ↦ rw (done, write_slots) (rw (all, write_slots) rest)
          | inr (e, failed) ↦ rw (done, write_slots) (rw (failed, write_slots) rest)
        ]
      ]

  pub write_matched-keeps :
      (v : W) (slots : List (Slot Obj)) (conflicts : List Obj)
      → All (SlotHolds json ignored P Q) slots
      → All P conflicts
      → Inv v
      → Inv (write_matched json router path ignored v slots conflicts).0
  unfolding write_matched
  write_matched-keeps v slots conflicts h c i =
      let (v', failed) = delete_conflicts json router path ignored v conflicts in
      let kept = delete_conflicts-keeps v conflicts c i in
      elim (Option-cases failed) [
        | inr (e, stop) ↦ rw (stop, write_matched) kept
        | inl fine ↦ rw (fine, write_matched) (write_slots-keeps v' slots h kept)
      ]

-- The entries that the router answers with at first and that pass the filter.
abbrev pub Listed : {W Obj Val : Type 0} → Router W Obj Val → W → SyncCall Obj → Obj → Type 0
Listed {Obj = Obj} router w call o =
    (objs : List Obj) × (router.get_array w call.path call.query ≡ some objs)
    × Member o objs
    × (passes_filter call.filter o ≡ true)

-- An invariant of the router's state is kept by `Sync` if it is kept by each deletion of a listed
-- entry, each patch of a listed entry for one of the requests, and each creation of one of the
-- requests: nothing else is written, whether `Sync` fails or not.
pub sync-keeps :
    {W Obj Val : Type 0} (json : Gjson Obj Val) (router : Router W Obj Val) (Inv : W → Type 0)
    (w : W) (call : SyncCall Obj)
    → ((v : W) (o : Obj)
        → Listed router w call o
        → Inv v
        → Inv (router.delete v (entry_path call.path (id_of json call.ignored_fields o))).0)
    → ((v : W) (o req : Obj)
        → Listed router w call o
        → Member req call.requests
        → Inv v
        → Inv
            (router.patch v
              (entry_path call.path (id_of json call.ignored_fields o))
              (generate_patch_request json o req call.ignored_fields)).0)
    → ((v : W) (req : Obj) → Member req call.requests → Inv v → Inv (router.put v call.path req).0)
    → Inv w
    → Inv (sync json router w call).0
unfolding sync
sync-keeps {Obj = Obj} json router Inv w call deletes patches puts i =
    let P = Listed router w call in
    let Q : Obj → Type 0 = λ req. Member req call.requests in
    let ignored = call.ignored_fields in
    elim (Option-cases (router.get_array w call.path call.query)) [
      | inl failed ↦ rw (failed, sync) i
      | inr (objs, there) ↦
          let keep = passes_filter call.filter in
          let same_id = same_id_by call.id_func in
          let fresh =
            new_slots-SlotHolds json ignored P Q call.requests
              (All-Member Q call.requests (λ req m. m)) in
          let listed =
            All-Member (λ o. keep o ≡ true → P o) objs (λ o m kept. (objs, there, m, kept)) in
          let matched = match_objs json ignored keep same_id objs (new_slots call.requests) in
          let (held, conflicts) =
            match_objs-SlotHolds json ignored P Q keep same_id objs (new_slots call.requests) listed
              fresh in
          let (slots, more) = drop_patchables-SlotHolds json ignored P Q matched.0 held in
          let dropped = drop_patchables json ignored matched.0 in
          rw (there, sync)
            (write_matched-keeps json router call.path ignored P Q Inv deletes patches puts w
              dropped.0 (matched.1 ++ dropped.1) slots
              (All-append P matched.1 dropped.1 conflicts more) i)
    ]
