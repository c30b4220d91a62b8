-- ===== src/Json.antt =====
-- The comparison and the patch of JSON objects: internal/routeros/api/gjson.go.
use mikrolb.Common.{
  ℕ, Bool, true, false, not, ◌&&◌, ◌||◌, Option, none, some, List, [], ◌∷◌, ◌++◌, String, str_eq,
  if◌then◌else◌,
}
pub mod Patch

-- The values that the requests hold, and `Request`.
pub data Field : Type 0 where
  text : String → Field
  flag : Bool → Field
  number : ℕ → Field

abbrev pub Request : Type 0
Request = List (String × Field)

-- What the code uses of github.com/tidwall/gjson, as a parameter: the object that a request is
-- marshalled to, `Map`, `Get` with what exists
-- there, and `String` of a value. A Go map's order is that of the list.
pub record Gjson (Obj Val : Type 0) : Type 0 where
  pub entries : Obj → List (String × Val)
  pub get : Obj → String → Option Val
  pub string_of : Val → String
  pub of_request : List (String × Field) → Obj

-- `slices.Contains`.
unfoldable pub has_text : List String → String → Bool
has_text [] s = false
has_text (x ∷ xs) s = str_eq x s || has_text xs s

abbrev pub exists {ℓ} : {A : Type ℓ} → Option A → Bool
exists none = false
exists (some x) = true

module _ {Obj Val : Type 0} (json : Gjson Obj Val) where
  -- The other object has the value at its key.
  unfoldable pub same_text : Option Val → Val → Bool
  same_text none v = false
  same_text (some w) v = str_eq (json.string_of w) (json.string_of v)

  -- The loops over the two maps.
  unfoldable pub values_agree : List (String × Val) → Obj → List String → Bool
  unfolding has_text same_text
  values_agree [] b ignored = true
  values_agree ((key, v) ∷ rest) b ignored =
      (has_text ignored key || same_text (json.get b key) v) && values_agree rest b ignored

  unfoldable pub keys_exist : List (String × Val) → Obj → List String → Bool
  unfolding has_text
  keys_exist [] a ignored = true
  keys_exist ((key, v) ∷ rest) a ignored =
      (has_text ignored key || exists (json.get a key)) && keys_exist rest a ignored

  unfoldable pub compare_objs : Obj → Obj → List String → Bool
  unfolding values_agree keys_exist
  compare_objs a b ignored =
      values_agree (json.entries a) b ignored && keys_exist (json.entries b) a ignored

  -- The loops that fill the request; `none` is the `nil` that unsets a key.
  unfoldable pub set_entries : List (String × Val) → List String → List (String × Option Val)
  unfolding has_text
  set_entries [] ignored = []
  set_entries ((key, v) ∷ rest) ignored =
      if has_text ignored key
      then set_entries rest ignored
      else (key, some v) ∷ set_entries rest ignored

  unfoldable pub unset_entries :
      List (String × Val) → Obj → List String → List (String × Option Val)
  unfolding has_text
  unset_entries [] desired ignored = []
  unset_entries ((key, v) ∷ rest) desired ignored =
      if has_text ignored key || exists (json.get desired key)
      then unset_entries rest desired ignored
      else (key, none) ∷ unset_entries rest desired ignored

  unfoldable pub generate_patch_request : Obj → Obj → List String → List (String × Option Val)
  unfolding set_entries unset_entries
  generate_patch_request current desired ignored =
      set_entries (json.entries desired) ignored
      ++ unset_entries (json.entries current) desired ignored
