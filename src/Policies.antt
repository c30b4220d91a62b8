-- ===== src/Policies.antt =====
-- `Policies` of internal/routeros/api/client.go: the policies of the user's group, with their cache.
-- A time is a number of nanoseconds.
use mikrolb.Common.{
  ℕ, ◌-◌, ltb, Option, none, some, List, [], ◌∷◌, String, split_on, trim_space, if◌then◌else◌,
  Result, ok, err,
}
use mikrolb.Sync.{Query}

-- The fields of `Client` for the cache, with the user's name; `none` is the nil slice.
pub record PolicyState : Type 0 where
  pub username : String
  pub policy_timeout : ℕ
  pub policy_cache : Option (List String)
  pub policy_fetched_at : ℕ

pub data PolicyError : Type 0 where
  user_request_failed user_not_found group_request_failed group_not_found : PolicyError

-- `Get` of a path and a query as a parameter: `none` for an error, else the field of each element of
-- the array in the answer, which has none where the answer is empty.
abbrev pub Fetch : Type 0
Fetch = String → Query → String → Option (List String)

-- The loop that trims the parts.
unfoldable pub trim_all : List String → List String
trim_all [] = []
trim_all (s ∷ rest) = trim_space s ∷ trim_all rest

unfoldable pub parse_policies : String → List String
unfolding trim_all
parse_policies s = trim_all (split_on b',' s)

-- The answer to the request for the group.
abbrev pub policies_of : Option (List String) → Result PolicyError (List String)
policies_of none = err group_request_failed
policies_of (some []) = err group_not_found
policies_of (some (policies ∷ rest)) = ok (parse_policies policies)

module _ (fetch : Fetch) where
  unfoldable pub fetch_policies : String → Result PolicyError (List String)
  fetch_policies username = elim (fetch "/user" (("name", username) ∷ []) "group") [
    | none ↦ err user_request_failed
    | some groups ↦ elim groups [
      | [] ↦ err user_not_found
      | group ∷ rest ↦ policies_of (fetch "/user/group" (("name", group) ∷ []) "policy")
    ]
  ]

  -- The cache serves until the timeout, if there is one.
  unfoldable pub cached : ℕ → PolicyState → Option (List String)
  cached now c = if ltb (now - c.policy_fetched_at) c.policy_timeout then c.policy_cache else none

  -- The times are those of the call and of the answer.
  unfoldable pub policies : ℕ → ℕ → PolicyState → PolicyState × Result PolicyError (List String)
  unfolding cached fetch_policies
  policies now answered_at c = elim (cached now c) [
    | some found ↦ (c, ok found)
    | none ↦ elim (fetch_policies c.username) [
      | err e ↦ (c, err e)
      | ok found ↦
          (record c { policy_cache = some found; policy_fetched_at = answered_at }, ok found)
    ]
  ]
