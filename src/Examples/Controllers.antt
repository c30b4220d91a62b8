-- ===== src/Examples/Controllers.antt =====
-- The theorems of the controllers and of the router's client, at concrete inputs.
use mathlib.Core.Bool.{false≢true}
use mikrolb.Common.{
  Bool, ◌&&◌, eq_iff, ℕ, ◌+◌, ◌≡◌, ◌≢◌, ◌≤◌, refl, inl, true, false, some, none, List, [], ◌∷◌,
  ◌++◌, All, String, ok,
}
use mikrolb.Net.{Addr, v4}
use mikrolb.Allocation.{IpAllocation}
use mikrolb.Expectations.{Expectations, new_expectations, stage_allocation, resolve, confirm}
use mikrolb.Expectations.Staging.{stage_allocation-exclusive, stage_allocation-resolve}
use mikrolb.Expectations.Resolving.{IsExclusive, stages, run, run-new-IsExclusive, resolve-confirm}
use mikrolb.Pool.{Pool}
use mikrolb.Pool.Admission.{pool_addresses-IsNormalSet}
use mikrolb.Allocator.{allocate_dynamic, allocate_address, granted, Grant}
use mikrolb.Allocator.Outcomes.{DynamicRight, allocate_dynamic-DynamicRight}
use mikrolb.Allocator.Requested.{RequestRight, allocate_address-RequestRight}
use mikrolb.Json.{generate_patch_request, has_text, exists}
use mikrolb.Json.Patch.{at_key, patched, generate_patch_request-at_key}
use mikrolb.Sync.{match_objs, drop_patchables, new_slots}
use mikrolb.Sync.Matching.{AllMatch, held, number, match_objs-held}
use mikrolb.Route.{Route, match_route, match_routes}
use mikrolb.Route.Best.{Covers, Stems, match_routes-best}
use mikrolb.Reconcile.{
  World, Texts, reconcile_outcome, new_status, write_back, update_failed, program,
}
use mikrolb.Reconcile.Undone.{reconcile_outcome-unstages}
use mikrolb.Reconcile.Ready.{Agrees, program-Agrees}
use mikrolb.PoolStatus.Counts.{IsCount, pool_counts-IsCount}
use mikrolb.Examples.{
  table, table-IsSound, conditions, pool_of, request, pending_at, fresh, texts_json,
}

staged_first : (stage_allocation fresh (pending_at "a" 5 7)).1 ≡ true
unfolding stage_allocation
staged_first = refl

a_not_b : ◌≢◌ {A = String} "a" "b"
a_not_b e = false≢true ((eq_iff "a" "b").1 e)

stage_allocation-exclusive_example :
    stage_allocation (stage_allocation fresh (pending_at "a" 5 7)).0 (pending_at "b" 5 9)
    ≡ ((stage_allocation fresh (pending_at "a" 5 7)).0, false)
stage_allocation-exclusive_example =
    stage_allocation-exclusive fresh (pending_at "a" 5 7) (pending_at "b" 5 9) staged_first refl
      a_not_b

stage_allocation-resolve_example :
    (t : ℕ) × (resolve table conditions
        (stage_allocation fresh (pending_at "a" 5 7)).0
        []
        "b"
        (v4 5)
      ≡ some t)
    × (7 ≤ t)
stage_allocation-resolve_example =
    stage_allocation-resolve table conditions fresh (pending_at "a" 5 7) [] "b" staged_first a_not_b

run-new-IsExclusive_example :
    IsExclusive (run table conditions (new_expectations 30) (stages (pending_at "a" 5 7) ∷ []))
run-new-IsExclusive_example =
    run-new-IsExclusive table conditions 30 (stages (pending_at "a" 5 7) ∷ [])

resolve-confirm_example :
    resolve table conditions
      (confirm table conditions fresh 50 (request "a" "" ∷ []))
      (request "a" "" ∷ [])
      "b"
      (v4 5)
    ≡ resolve table conditions fresh (request "a" "" ∷ []) "b" (v4 5)
resolve-confirm_example =
    resolve-confirm table conditions fresh 50 (request "a" "" ∷ []) "b" (v4 5) (λ ip. inl refl)

abbrev pools : List Pool
pools = pool_of "first" ("0.0.0.0/29" ∷ "!0.0.0.5" ∷ []) ∷ pool_of "second" ("0.0.0.9" ∷ []) ∷ []

allocate_dynamic-DynamicRight_example :
    DynamicRight
      (λ ip. none)
      (request "a" "")
      7
      table
      fresh
      pools
      (allocate_dynamic (λ ip. none) (request "a" "") 7 table fresh 12 pools)
allocate_dynamic-DynamicRight_example =
    allocate_dynamic-DynamicRight (λ ip. none) (request "a" "") 7 table fresh 12 pools
      (
        pool_addresses-IsNormalSet table (pool_of "first" ("0.0.0.0/29" ∷ "!0.0.0.5" ∷ []))
            table-IsSound,
        (pool_addresses-IsNormalSet table (pool_of "second" ("0.0.0.9" ∷ [])) table-IsSound, tt),
      )

allocate_address-RequestRight_example :
    RequestRight
      (λ ip. none)
      (request "a" "0.0.0.9")
      7
      table
      fresh
      pools
      (allocate_address (λ ip. none) (request "a" "0.0.0.9") 7 table fresh pools)
allocate_address-RequestRight_example =
    allocate_address-RequestRight (λ ip. none) (request "a" "0.0.0.9") 7 table fresh pools

abbrev current : List (String × String)
current = (".id", "*1") ∷ ("chain", "srcnat") ∷ ("log", "yes") ∷ []

abbrev desired : List (String × String)
desired = ("chain", "dstnat") ∷ []

not_ignored : has_text (".id" ∷ []) "log" ≡ false
unfolding has_text
not_ignored = refl

generate_patch_request-at_key_example :
    at_key "log" (generate_patch_request texts_json current desired (".id" ∷ []))
    ≡ patched (at_key "log" current) (at_key "log" desired)
generate_patch_request-at_key_example =
    generate_patch_request-at_key texts_json (".id" ∷ []) "log" current desired refl not_ignored

abbrev is_listed : List (String × String) → Bool
is_listed o = exists (texts_json.get o "log")

match_objs-held_example :
    let (matched, conflicts) =
      match_objs texts_json
        (".id" ∷ [])
        (λ o. true)
        (λ a b. false)
        (current ∷ [])
        (new_slots (desired ∷ [])) in
    let (slots, more) = drop_patchables texts_json (".id" ∷ []) matched in
    AllMatch texts_json (".id" ∷ []) slots
    × (held is_listed slots + number is_listed (conflicts ++ more)
        ≡ number (λ o. true && is_listed o) (current ∷ []))
match_objs-held_example =
    match_objs-held texts_json (".id" ∷ []) is_listed (λ o. true) (λ a b. false) (current ∷ [])
      (desired ∷ [])

abbrev routes : List Route
routes =
    record {
      dst_address = "0.0.0.0/29";
      active = true;
      immediate_gw = "10.0.0.1%ether1";
      distance = 1;
    }
    ∷ []

match_routes-best_example :
    All (λ r. Covers (match_routes table (v4 5) none routes) (match_route table (v4 5) r)) routes
    × Stems table (v4 5) none routes (match_routes table (v4 5) none routes)
match_routes-best_example = match_routes-best table (v4 5) routes

-- A world in which every write to the API server fails.
abbrev broken : World ℕ
broken = record {
  ensure_ip_advertisement = λ w ip interface. (w, ok interface);
  delete_ip_advertisement = λ w ip. (w, true);
  remove_finalizer = λ w alloc. (w, false);
  update_status = λ w alloc. (w, false);
}

abbrev texts : Texts
texts = record {
  denial_message = λ alloc d. "denied";
  allocated_message = λ ip pool. "allocated";
  capitalize = λ s. s;
}

abbrev grant_five : Grant
grant_five = record {
  address = v4 5;
  pool_name = "first";
  advertised = true;
  interface_name = "bridge";
  staged = pending_at "a" 5 7;
}

abbrev holding : Expectations
holding = record {
  allocation_timeout = 30;
  pending_allocations = λ ip. some (pending_at "a" 5 7);
  pending_releases = λ ip. none;
}

update_lost :
    (reconcile_outcome broken table conditions texts 0 holding
      (request "a" "")
      (granted grant_five)).2
    ≡ some update_failed
unfolding reconcile_outcome new_status write_back program
update_lost = refl

reconcile_outcome-unstages_example :
    (reconcile_outcome broken table conditions texts 0 holding
        (request "a" "")
        (granted grant_five)).1.pending_allocations
      (v4 5)
    ≡ none
reconcile_outcome-unstages_example =
    reconcile_outcome-unstages broken table conditions texts 0 holding (request "a" "") grant_five
      refl update_lost

program-Agrees_example :
    Agrees broken table conditions texts 0
      (request "a" "")
      (request "a" "").status
      false
      (granted grant_five)
      (program broken table conditions texts 0
        (request "a" "")
        (granted grant_five)
        (request "a" "").status
        false).1
program-Agrees_example =
    program-Agrees broken table conditions texts 0 (request "a" "") (request "a" "").status false
      (granted grant_five)

abbrev allocations : List IpAllocation
allocations =
    record (request "a" "") { status = record (request "a" "").status { address = "0.0.0.5" } } ∷ []

pool_counts-IsCount_example :
    (xs : List Addr) × IsCount table (pool_of "first" ("0.0.0.0/29" ∷ [])) allocations xs
pool_counts-IsCount_example =
    pool_counts-IsCount table (pool_of "first" ("0.0.0.0/29" ∷ [])) allocations
