-- ===== src/Sync/Matching.antt =====
-- The matching of `Sync` (internal/routeros/api/client.go), by the number of objects.
use mikrolb.Common.{
  ℕ, ◌+◌, ◌≡◌, refl, ap, inl, inr, Option-cases, Bool, true, false, not, ◌&&◌, Option, none, some,
  List, [], ◌∷◌, ◌++◌, String, arith, Bool-cases, All,
}
use mikrolb.Json.{Gjson, compare_objs, exists}
use mikrolb.Sync.{Slot, new_slots, match_obj, match_objs, drop_patchables}

abbrev pub counted : Bool → ℕ
counted false = 0
counted true = 1

-- How often a test holds of an object, and of those in a list.
abbrev pub one : {A : Type 0} → (A → Bool) → Option A → ℕ
one test none = 0
one test (some x) = counted (test x)

abbrev pub number : {A : Type 0} → (A → Bool) → List A → ℕ
number test [] = 0
number test (x ∷ xs) = counted (test x) + number test xs

-- The objects that the slots hold and of which the test holds.
abbrev pub held : {Obj : Type 0} → (Obj → Bool) → List (Slot Obj) → ℕ
held test [] = 0
held test (s ∷ ss) = one test s.found + one test s.patchable + held test ss

number-append :
    {A : Type 0} (test : A → Bool) (xs ys : List A)
    → number test (xs ++ ys) ≡ number test xs + number test ys
number-append test [] ys = omega arith
number-append test (x ∷ xs) ys = omega (arith, number-append test xs ys)

held-new_slots :
    {Obj : Type 0} (test : Obj → Bool) (reqs : List Obj) → held test (new_slots reqs) ≡ 0
unfolding new_slots
held-new_slots test [] = refl
held-new_slots test (r ∷ rs) = omega (arith, held-new_slots test rs)

vacant :
    {A : Type 0} (test : A → Bool) (o : Option A) (b : Bool)
    → not (exists o) && b ≡ true
    → (one test o ≡ 0) × (b ≡ true)
vacant test none b h = (refl, h)
vacant test (some x) b h = absurd (cc)

both_once : (a b : Bool) → a ≡ true → counted (a && b) ≡ counted b
both_once a b h = rw h refl

both_never : (a b : Bool) → a ≡ false → counted (a && b) ≡ 0
both_never a b h = rw h refl

module _ {Obj Val : Type 0} (json : Gjson Obj Val) (ignored : List String) where
  -- What the loop found for a request is equal to it but for the ignored fields.
  abbrev pub IsMatch : Slot Obj → Option Obj → Type 0
  IsMatch s none = Unit
  IsMatch s (some obj) = compare_objs json obj s.request ignored ≡ true

  abbrev pub AllMatch : List (Slot Obj) → Type 0
  AllMatch = All (λ s. IsMatch s s.found)

  AllMatch-new_slots : (reqs : List Obj) → AllMatch (new_slots reqs)
  unfolding new_slots
  AllMatch-new_slots [] = tt
  AllMatch-new_slots (req ∷ reqs) = (tt, AllMatch-new_slots reqs)

  module _ (test : Obj → Bool) where
    match_obj_lem :
        (same_id : Obj → Obj → Bool) (obj : Obj) (slots : List (Slot Obj))
        → AllMatch slots
        → AllMatch (match_obj json ignored same_id obj slots).1
          × (held test (match_obj json ignored same_id obj slots).1
              ≡ held test slots
                + counted ((match_obj json ignored same_id obj slots).0 && test obj))
    unfolding match_obj
    match_obj_lem same_id obj [] h = (tt, refl)
    match_obj_lem same_id obj (s ∷ ss) h =
        let rest = match_obj_lem same_id obj ss h.1 in
        elim (Bool-cases (not (exists s.found) && compare_objs json obj s.request ignored)) [
          | inl found ↦
              let (empty, same) = vacant test s.found _ found in
              rw (found, match_obj) ((same, h.1), omega arith)
          | inr other ↦ elim (Bool-cases (not (exists s.patchable) && same_id obj s.request)) [
            | inl id ↦
                let (empty, same) = vacant test s.patchable _ id in
                rw (other, match_obj) (rw (id, match_obj) ((h.0, h.1), omega arith))
            | inr fresh ↦
                rw (other, match_obj) (rw (fresh, match_obj) ((h.0, rest.0), omega (arith, rest.1)))
          ]
        ]

    match_objs_lem :
        (keep : Obj → Bool) (same_id : Obj → Obj → Bool) (objs : List Obj) (slots : List (Slot Obj))
        → AllMatch slots
        → AllMatch (match_objs json ignored keep same_id objs slots).0
          × (held test (match_objs json ignored keep same_id objs slots).0
                + number test (match_objs json ignored keep same_id objs slots).1
              ≡ held test slots + number (λ o. keep o && test o) objs)
    unfolding match_objs
    match_objs_lem keep same_id [] slots h = (h, omega arith)
    match_objs_lem keep same_id (obj ∷ objs) slots h =
        let skipped = match_objs_lem keep same_id objs slots h in
        let placed = match_obj_lem same_id obj slots h in
        let rest =
          match_objs_lem keep same_id objs (match_obj json ignored same_id obj slots).1 placed.0 in
        elim (Bool-cases (keep obj)) [
          | inr drop ↦
              rw (drop, match_objs)
                (skipped.0, omega (arith, skipped.1, both_never (keep obj) (test obj) drop))
          | inl keeps ↦ elim (Bool-cases (match_obj json ignored same_id obj slots).0) [
            | inl matched ↦
                rw (keeps, match_objs)
                  (rw (matched, match_objs)
                    (
                      rest.0,
                      omega (
                        arith,
                        rest.1,
                        placed.1,
                        both_once _ (test obj) matched,
                        both_once (keep obj) (test obj) keeps,
                      ),
                    ))
            | inr missed ↦
                rw (keeps, match_objs)
                  (rw (missed, match_objs)
                    (
                      rest.0,
                      omega (
                        arith,
                        rest.1,
                        placed.1,
                        both_never _ (test obj) missed,
                        both_once (keep obj) (test obj) keeps,
                      ),
                    ))
          ]
        ]

    drop_patchables_lem :
        (slots : List (Slot Obj))
        → AllMatch slots
        → AllMatch (drop_patchables json ignored slots).0
          × (held test (drop_patchables json ignored slots).0
                + number test (drop_patchables json ignored slots).1
              ≡ held test slots)
    unfolding drop_patchables
    drop_patchables_lem [] h = (tt, refl)
    drop_patchables_lem (s ∷ ss) h =
        let rest = drop_patchables_lem ss h.1 in
        elim (Option-cases s.patchable) [
          | inl empty ↦
              rw (empty, drop_patchables)
                ((h.0, rest.0), omega (arith, rest.1, ap (one test) empty))
          | inr (obj, there) ↦ elim (Bool-cases (exists s.found)) [
            | inl exact ↦
                rw (there, drop_patchables)
                  (rw (exact, drop_patchables) ((h.0, rest.0), omega (arith, rest.1)))
            | inr missing ↦
                rw (there, drop_patchables)
                  (rw (missing, drop_patchables)
                    ((h.0, rest.0), omega (arith, rest.1, ap (one test) there)))
          ]
        ]

    -- After the matching every request's exact match is equal to it but for the ignored fields.
    -- Whatever test tells the entries apart, it holds as often of the entries that pass the filter
    -- as of those held for the requests and of the conflicts of both loops: no entry is lost and
    -- none is used twice.
    pub match_objs-held :
        (keep : Obj → Bool) (same_id : Obj → Obj → Bool) (objs reqs : List Obj)
        → let (matched, conflicts) = match_objs json ignored keep same_id objs (new_slots reqs) in
          let (slots, more) = drop_patchables json ignored matched in
          AllMatch slots
          × (held test slots + number test (conflicts ++ more)
              ≡ number (λ o. keep o && test o) objs)
    match_objs-held keep same_id objs reqs =
        let (all, count) =
          match_objs_lem keep same_id objs (new_slots reqs) (AllMatch-new_slots reqs) in
        let matched = match_objs json ignored keep same_id objs (new_slots reqs) in
        let (all', count') = drop_patchables_lem matched.0 all in
        (
          all',
          omega (
            arith,
            count,
            count',
            held-new_slots test reqs,
            number-append test matched.1 (drop_patchables json ignored matched.0).1,
          ),
        )
