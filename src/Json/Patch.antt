-- ===== src/Json/Patch.antt =====
-- The patch requests of internal/routeros/api/gjson.go, key by key.
use mikrolb.Common.{
  ◌≡◌, refl, sym, ◌∙◌, inl, inr, Bool, true, false, ◌||◌, Option, none, some, List, [], ◌∷◌, ◌++◌,
  String, str_eq, eq_iff, if◌then◌else◌, Bool-cases, subst,
}
use mikrolb.Json.{Gjson, has_text, exists, set_entries, unset_entries, generate_patch_request}

-- The first value at a key.
abbrev pub at_key : {A : Type 0} → String → List (String × A) → Option A
at_key key [] = none
at_key key ((k, v) ∷ rest) = if str_eq k key then some v else at_key key rest

abbrev pub or_else : {A : Type 0} → Option A → Option A → Option A
or_else none o = o
or_else (some x) o = some x

at_key-append :
    {A : Type 0} (key : String) (xs ys : List (String × A))
    → at_key key (xs ++ ys) ≡ or_else (at_key key xs) (at_key key ys)
at_key-append key [] ys = refl
at_key-append key ((k, v) ∷ xs) ys = elim (Bool-cases (str_eq k key)) [
  | inl same ↦ rw same refl
  | inr other ↦ rw other (at_key-append key xs ys)
]

-- A patch's entry for a key, from the current and the desired value.
abbrev pub patched : {A : Type 0} → Option A → Option A → Option (Option A)
patched none none = none
patched (some v) none = some none
patched _ (some w) = some (some w)

abbrev pub set_to : {A : Type 0} → Option A → Option (Option A)
set_to none = none
set_to (some v) = some (some v)

abbrev pub unset_from : {A : Type 0} → Option A → Bool → Option (Option A)
unset_from none there = none
unset_from (some v) there = if there then none else some none

unset_from-there : {A : Type 0} (o : Option A) → unset_from o true ≡ none
unset_from-there none = refl
unset_from-there (some v) = refl

module _ {Obj Val : Type 0} (json : Gjson Obj Val) (ignored : List String) (key : String) where
  set_entries-at_key :
      (entries : List (String × Val))
      → has_text ignored key ≡ false
      → at_key key (set_entries json entries ignored) ≡ set_to (at_key key entries)
  unfolding set_entries
  set_entries-at_key [] h = refl
  set_entries-at_key ((k, v) ∷ rest) h = elim (Bool-cases (str_eq k key)) [
    | inl same ↦
        let seen : has_text ignored k ≡ false =
          subst (λ x. has_text ignored x ≡ false) (sym ((eq_iff k key).0 same)) h in
        rw (seen, set_entries) (rw same refl)
    | inr other ↦ elim (Bool-cases (has_text ignored k)) [
      | inl skip ↦ rw (skip, set_entries) (rw other (set_entries-at_key rest h))
      | inr keep ↦ rw (keep, set_entries) (rw other (set_entries-at_key rest h))
    ]
  ]

  unset_entries-at_key :
      (entries : List (String × Val)) (desired : Obj)
      → has_text ignored key ≡ false
      → at_key key (unset_entries json entries desired ignored)
        ≡ unset_from (at_key key entries) (exists (json.get desired key))
  unfolding unset_entries
  unset_entries-at_key [] desired h = refl
  unset_entries-at_key ((k, v) ∷ rest) desired h = elim (Bool-cases (str_eq k key)) [
    | inl same ↦
        let skips = λ (x : String). has_text ignored x || exists (json.get desired x) in
        let at_k = λ (b : Bool) (e : skips key ≡ b).
          subst (λ x. skips x ≡ b) (sym ((eq_iff k key).0 same)) e in
        elim (Bool-cases (exists (json.get desired key))) [
          | inl there ↦
              rw (at_k true (rw h there), unset_entries)
                (unset_entries-at_key rest desired h
                  ∙ rw there (
                      unset_from-there (at_key key rest)
                      ∙ sym (unset_from-there (at_key key ((k, v) ∷ rest)))))
          | inr gone ↦ rw (at_k false (rw h gone), unset_entries) (rw same (rw gone refl))
        ]
    | inr other ↦ elim (Bool-cases (has_text ignored k || exists (json.get desired k))) [
      | inl skip ↦ rw (skip, unset_entries) (rw other (unset_entries-at_key rest desired h))
      | inr drop ↦ rw (drop, unset_entries) (rw other (unset_entries-at_key rest desired h))
    ]
  ]

  or_else-patched :
      (current desired : Option Val)
      → or_else (set_to desired) (unset_from current (exists desired)) ≡ patched current desired
  or_else-patched none none = refl
  or_else-patched (some v) none = refl
  or_else-patched none (some w) = refl
  or_else-patched (some v) (some w) = refl

  -- If `Get` of the desired object reads the key among its entries, the patch sets a key that is
  -- not ignored to the desired value, unsets it where only the current object has it, and does not
  -- name it where neither has it.
  pub generate_patch_request-at_key :
      (current desired : Obj)
      → json.get desired key ≡ at_key key (json.entries desired)
      → has_text ignored key ≡ false
      → at_key key (generate_patch_request json current desired ignored)
        ≡ patched (at_key key (json.entries current)) (at_key key (json.entries desired))
  unfolding generate_patch_request
  generate_patch_request-at_key current desired reads h =
      at_key-append key (set_entries json (json.entries desired) ignored)
        (unset_entries json (json.entries current) desired ignored)
      ∙ rw
          (
            set_entries-at_key (json.entries desired) h,
            unset_entries-at_key (json.entries current) desired h,
            reads,
          )
          (or_else-patched (at_key key (json.entries current)) (at_key key (json.entries desired)))
