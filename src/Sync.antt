-- ===== src/Sync.antt =====
-- `Client.Sync` of internal/routeros/api/client.go: the router's entries are matched with the
-- requested ones, and what does not match is deleted, patched or created. A request is the object that
-- `json.Marshal` makes of it, which is taken to succeed.
use Prim.Native.String.{◌++◌ as append}
use mikrolb.Common.{
  Bool, true, false, not, ◌&&◌, Option, none, some, List, [], ◌∷◌, ◌++◌, String, str_eq, Result, ok,
  err, if◌then◌else◌,
}
use mikrolb.Json.{Gjson, compare_objs, generate_patch_request, exists}
pub mod Matching
pub mod Slots
pub mod Effects
pub mod Steady
pub mod Placed
pub mod Answers

abbrev pub Query : Type 0
Query = List (String × String)

-- The requests that `Sync` sends through the client, as a parameter, with the router's state: `Get`
-- of a path and a query as the array in the answer, `none` for an error or another answer, and
-- `Delete`, `Patch` and `Put` at a path.
pub record Router (W Obj Val : Type 0) : Type 0 where
  pub get_array : W → String → Query → Option (List Obj)
  pub delete : W → String → W × Bool
  pub patch : W → String → List (String × Option Val) → W × Option Obj
  pub put : W → String → Obj → W × Option Obj

-- The arguments of `Sync`; `none` stands for a function that is `nil`.
pub record SyncCall (Obj : Type 0) : Type 0 where
  pub path : String
  pub requests : List Obj
  pub query : Query
  pub filter : Option (Obj → Bool)
  pub id_func : Option (Obj → String)
  pub ignored_fields : List String

abbrev pub passes_filter : {Obj : Type 0} → Option (Obj → Bool) → Obj → Bool
passes_filter none obj = true
passes_filter (some f) obj = f obj

abbrev pub same_id_by : {Obj : Type 0} → Option (Obj → String) → Obj → Obj → Bool
same_id_by none a b = true
same_id_by (some f) a b = str_eq (f a) (f b)

-- A request with what the loop found for it: `reqObjs[j]`, `found[j]`, `patchable[j]`.
pub record Slot (Obj : Type 0) : Type 0 where
  pub request : Obj
  pub found : Option Obj
  pub patchable : Option Obj

-- What a failed call makes `Sync` return.
pub data SyncError : Type 0 where
  get_failed delete_failed patch_failed put_failed : SyncError

abbrev pub new_slot : {Obj : Type 0} → Obj → Slot Obj
new_slot req = record { request = req; found = none; patchable = none }

unfoldable pub new_slots : {Obj : Type 0} → List Obj → List (Slot Obj)
new_slots [] = []
new_slots (req ∷ reqs) = new_slot req ∷ new_slots reqs

-- The answer to a write, or what `Sync` returns where it failed.
abbrev pub answered : {W Obj : Type 0} → SyncError → W × Option Obj → W × Result SyncError Obj
answered e (w, none) = (w, err e)
answered e (w, some obj) = (w, ok obj)

-- `fmt.Sprintf("%s/%s", path, id)`.
abbrev pub entry_path : String → String → String
entry_path path id = append path (append "/" id)

module _ {Obj Val : Type 0} (json : Gjson Obj Val) (ignored : List String) where
  -- The inner loop of the matching; the test on the ids is true where there is no id function.
  unfoldable pub match_obj : (Obj → Obj → Bool) → Obj → List (Slot Obj) → Bool × List (Slot Obj)
  match_obj same_id obj [] = (false, [])
  match_obj same_id obj (slot ∷ slots) =
      let rest = match_obj same_id obj slots in
      if not (exists slot.found) && compare_objs json obj slot.request ignored
      then (true, record slot { found = some obj } ∷ slots)
      else if not (exists slot.patchable) && same_id obj slot.request
      then (true, record slot { patchable = some obj } ∷ slots)
      else (rest.0, slot ∷ rest.1)

  -- The outer loop: the slots, and the conflicts in front of those of the later objects.
  unfoldable pub match_objs :
      (Obj → Bool) → (Obj → Obj → Bool) → List Obj → List (Slot Obj) → List (Slot Obj) × List Obj
  unfolding match_obj
  match_objs keep same_id [] slots = (slots, [])
  match_objs keep same_id (obj ∷ objs) slots =
      let skipped = match_objs keep same_id objs slots in
      let placed = match_obj same_id obj slots in
      let rest = match_objs keep same_id objs placed.1 in
      if not (keep obj) then skipped else if placed.0 then rest else (rest.0, obj ∷ rest.1)

  -- An object that could be patched is a conflict where an exact match was found.
  unfoldable pub drop_patchables : List (Slot Obj) → List (Slot Obj) × List Obj
  drop_patchables [] = ([], [])
  drop_patchables (slot ∷ slots) =
      let (rest, conflicts) = drop_patchables slots in
      elim slot.patchable [
        | none ↦ (slot ∷ rest, conflicts)
        | some obj ↦
            if exists slot.found
            then (record slot { patchable = none } ∷ rest, obj ∷ conflicts)
            else (slot ∷ rest, conflicts)
      ]

  -- The text at `.id`, with the escape that `Get` wants, or the empty one.
  abbrev pub id_of : Obj → String
  id_of obj = elim (json.get obj "\\.id") [ none ↦ "" | some v ↦ json.string_of v ]

module _ {W Obj Val : Type 0} (json : Gjson Obj Val) (router : Router W Obj Val) (path : String)
    (ignored : List String) where
  unfoldable pub delete_conflicts : W → List Obj → W × Option SyncError
  delete_conflicts w [] = (w, none)
  delete_conflicts w (obj ∷ objs) =
      let id = id_of json ignored obj in
      let skipped = delete_conflicts w objs in
      let (w', deleted) = router.delete w (entry_path path id) in
      let rest = delete_conflicts w' objs in
      if str_eq id "" then skipped else if deleted then rest else (w', some delete_failed)

  -- One request: kept, patched or created.
  unfoldable pub write_slot : W → Slot Obj → W × Result SyncError Obj
  write_slot w slot = elim slot.found [
    | some obj ↦ (w, ok obj)
    | none ↦ elim slot.patchable [
      | none ↦ answered put_failed (router.put w path slot.request)
      | some obj ↦
          if not (str_eq (id_of json ignored obj) "")
          then answered patch_failed (
              router.patch w (entry_path path (id_of json ignored obj))
                (generate_patch_request json obj slot.request ignored))
          else answered put_failed (router.put w path slot.request)
    ]
  ]

  unfoldable pub write_slots : W → List (Slot Obj) → W × Result SyncError (List Obj)
  unfolding write_slot
  write_slots w [] = (w, ok [])
  write_slots w (slot ∷ slots) =
      let (w', one) = write_slot w slot in
      let (w'', rest) = write_slots w' slots in
      elim one [
        | err e ↦ (w', err e)
        | ok obj ↦ elim rest [ err e ↦ (w'', err e) | ok objs ↦ (w'', ok (obj ∷ objs)) ]
      ]

  -- The end of `Sync`, after the matching.
  unfoldable pub write_matched : W → List (Slot Obj) → List Obj → W × Result SyncError (List Obj)
  unfolding delete_conflicts write_slots
  write_matched w slots conflicts =
      let (w', failed) = delete_conflicts w conflicts in
      elim failed [ some e ↦ (w', err e) | none ↦ write_slots w' slots ]

module _ {W Obj Val : Type 0} (json : Gjson Obj Val) (router : Router W Obj Val) where
  unfoldable pub sync : W → SyncCall Obj → W × Result SyncError (List Obj)
  unfolding new_slots match_objs drop_patchables write_matched
  sync w call = elim (router.get_array w call.path call.query) [
    | none ↦ (w, err get_failed)
    | some objs ↦
        let (matched, conflicts) =
          match_objs json call.ignored_fields (passes_filter call.filter) (same_id_by call.id_func)
            objs (new_slots call.requests) in
        let (slots, more) = drop_patchables json call.ignored_fields matched in
        write_matched json router call.path call.ignored_fields w slots (conflicts ++ more)
  ]
