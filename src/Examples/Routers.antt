-- ===== src/Examples/Routers.antt =====
-- The theorems of the router's client and of the backend, at concrete inputs.
use mikrolb.Backend.{Formats, index_out_of_range, run_sync}
use mathlib.Core.Bool.{false≢true}
use mikrolb.Backend.Deletes.{IsManaged, IsRemovable, delete_service-keeps}
use mikrolb.Backend.Rules.{firewall_path}
use mikrolb.Backend.Ensure.{setup, delete_service, ensure_service, ensure_lb, ensure_snat}
use mikrolb.Backend.Lists.{
  cleanup_lb_ips_list, delete_lb_service_rules, delete_snat_service_rule, delete_snat_src_ips_list,
}
use mikrolb.Backend.Panics.{setup-NeverPanics}
use mikrolb.Backend.Vacated.{ensure_service-delete_service}
use mikrolb.Common.{
  ℕ, suc, has_prefix, strip_prefix, has_prefix-Begins, ◌⊎◌, ◌≡◌, refl, sym, ap, subst, inl, inr,
  Bool, true, false, not, ◌&&◌, none, some, List, [], ◌∷◌, String, str_eq, ok, err, Member,
  some-injective,
}
use mikrolb.Examples.{table, texts_json}
use mikrolb.Json.{compare_objs, values_agree, keys_exist, has_text, same_text}
use mikrolb.Net.{invalid, IpFamily, ipv4, ipv6, unknown}
use mikrolb.RouterNames.{get_api_ip_family}
use mikrolb.Service.{Service, has_lb_ip, has_snat_ip}
use mikrolb.Sync.{Router, Query, SyncCall, entry_path, id_of, sync}
use mikrolb.Sync.Answers.{IsRun, sync-IsRun}
use mikrolb.Sync.Effects.{Listed, sync-keeps}
use mikrolb.Sync.Steady.{InStep, sync-steady}

abbrev Entry : Type 0
Entry = List (String × String)

abbrev managed : Entry
managed = (".id", "*1") ∷ ("chain", "srcnat") ∷ []

-- A router that always lists one entry; the state says whether another, of the user's, is there.
abbrev guarded : Router Bool Entry String
guarded = record {
  get_array = λ w path query. some (managed ∷ []);
  delete = λ w path. (w && not (str_eq path "/nat/*9"), true);
  patch = λ w path fields. (w && not (str_eq path "/nat/*9"), none);
  put = λ w path obj. (w, some obj);
}

abbrev call_for : List Entry → SyncCall Entry
call_for reqs = record {
  path = "/nat";
  requests = reqs;
  query = [];
  filter = none;
  id_func = none;
  ignored_fields = ".id" ∷ [];
}

only_managed :
    (w : Bool) (call : SyncCall Entry) (o : Entry) → Listed guarded w call o → managed ≡ o
only_managed w call o (objs, there, m, keep) =
    elim (subst (Member o) (sym (some-injective there)) m) [ inl here ↦ here | inr n ↦ absurd n ]

not_the_users : not (str_eq (entry_path "/nat" "*1") "/nat/*9") ≡ true
not_the_users = refl

abbrev wanted : Entry
wanted = ("chain", "srcnat") ∷ []

in_line : InStep texts_json (call_for (wanted ∷ [])) [] (managed ∷ []) (wanted ∷ [])
unfolding compare_objs values_agree keys_exist has_text same_text
in_line = (refl, refl, tt, tt)

sync-steady_one : sync texts_json guarded true (call_for (wanted ∷ [])) ≡ (true, ok (managed ∷ []))
sync-steady_one =
    sync-steady texts_json (call_for (wanted ∷ [])) guarded true (managed ∷ []) refl in_line

sync-steady_example :
    sync texts_json guarded true (call_for (wanted ∷ [])) ≡ (true, ok (managed ∷ []))
sync-steady_example =
    sync-steady texts_json (call_for (wanted ∷ [])) guarded true (managed ∷ []) refl in_line

sync-IsRun_example :
    IsRun texts_json guarded
      (call_for (wanted ∷ []))
      true
      (managed ∷ [])
      (sync texts_json guarded true (call_for (wanted ∷ []))).0
sync-IsRun_example =
    sync-IsRun texts_json guarded true (call_for (wanted ∷ [])) (managed ∷ [])
      (ap (λ p. p.1) sync-steady_one)

abbrev UserEntry : Bool → Type 0
UserEntry w = w ≡ true

other_entry :
    (v : Bool) (o : Entry)
    → managed ≡ o
    → UserEntry v
    → UserEntry (v && not (str_eq (entry_path "/nat" (id_of texts_json (".id" ∷ []) o)) "/nat/*9"))
other_entry v o here i =
    subst
      (λ x.
        UserEntry
          (v && not (str_eq (entry_path "/nat" (id_of texts_json (".id" ∷ []) x)) "/nat/*9")))
      here (rw i refl)

sync-keeps_example : UserEntry (sync texts_json guarded true (call_for (wanted ∷ []))).0
sync-keeps_example =
    sync-keeps texts_json guarded UserEntry true (call_for (wanted ∷ []))
      (λ v o listed i. other_entry v o (only_managed true (call_for (wanted ∷ [])) o listed) i)
      (λ v o req listed m i.
        other_entry v o (only_managed true (call_for (wanted ∷ [])) o listed) i)
      (λ v req m i. i) refl

abbrev formats : Formats
formats = record {
  net = table;
  digest = record { sum256 = λ s. 1 ∷ 2 ∷ [] };
  decimal = λ n. "80";
  to_lower = λ s. "tcp";
  addr_port_string = λ ip port. "0.0.0.5:80";
}

abbrev services_rule : Entry
services_rule = (".id", "*1") ∷ ("comment", "mikrolb: service web (u)") ∷ []

abbrev users_rule : Entry
users_rule = (".id", "*9") ∷ ("comment", "mine") ∷ []

abbrev listing : Query → List Entry
listing [] = services_rule ∷ users_rule ∷ []
listing (q ∷ qs) = services_rule ∷ []

-- The state says that the user's rule was not deleted.
abbrev shared : Router Bool Entry String
shared = record {
  get_array = λ w path query. some (listing query);
  delete = λ w path. (w && not (str_eq path "/ip/firewall/nat/*9"), true);
  patch = λ w path fields. (false, none);
  put = λ w path obj. (false, some obj);
}

-- The deletion of the service's rule leaves the user's.
services_path :
    (family : IpFamily) (table : String)
    → (table ≡ "nat") ⊎ (table ≡ "address-list")
    → str_eq (entry_path (firewall_path family table) "*1") "/ip/firewall/nat/*9" ≡ false
unfolding firewall_path get_api_ip_family
services_path ipv4 table h = elim h [ inl e ↦ rw e refl | inr e ↦ rw e refl ]
services_path ipv6 table h = elim h [ inl e ↦ rw e refl | inr e ↦ rw e refl ]
services_path unknown table h = elim h [ inl e ↦ rw e refl | inr e ↦ rw e refl ]

services_rule_kept :
    (v : Bool) (o : Entry) (path : String) (family : IpFamily) (table : String)
    → services_rule ≡ o
    → path ≡ firewall_path family table
    → (table ≡ "nat") ⊎ (table ≡ "address-list")
    → UserEntry v
    → UserEntry (v && not (str_eq (entry_path path (id_of texts_json [] o)) "/ip/firewall/nat/*9"))
services_rule_kept v o path family table here at_path h i =
    subst
      (λ x.
        UserEntry
          (v && not (str_eq (entry_path path (id_of texts_json [] x)) "/ip/firewall/nat/*9")))
      here (rw (at_path, i, services_path family table h) refl)

users_stays : ¬ IsManaged texts_json shared formats "u" users_rule
unfolding has_prefix strip_prefix
users_stays (begins, names) = false≢true ((has_prefix-Begins "mine" "mikrolb:").1 begins)

only_services :
    (o : Entry) (objs : List Entry)
    → some (services_rule ∷ []) ≡ some objs
    → Member o objs
    → services_rule ≡ o
only_services o objs there m = elim (subst (Member o) (sym (some-injective there)) m) [
  | inl here ↦ here
  | inr n ↦ absurd n
]

one_of_both :
    (o : Entry) (objs : List Entry)
    → some (services_rule ∷ users_rule ∷ []) ≡ some objs
    → Member o objs
    → (services_rule ≡ o) ⊎ (users_rule ≡ o)
one_of_both o objs there m = elim (subst (Member o) (sym (some-injective there)) m) [
  | inl here ↦ inl here
  | inr more ↦ elim more [ inl here ↦ inr here | inr n ↦ absurd n ]
]

-- Whatever is removable on this router is the service's rule.
removable_kept :
    (v : Bool) (o : Entry) (path : String)
    → IsRemovable texts_json shared formats "u" path o
    → UserEntry v
    → UserEntry (v && not (str_eq (entry_path path (id_of texts_json [] o)) "/ip/firewall/nat/*9"))
removable_kept v o path (family, removable) i = elim removable [
  | inl (at, (u, objs, there, m), managed_one) ↦ elim (one_of_both o objs there m) [
    | inl here ↦ services_rule_kept v o path family "nat" here at (inl refl) i
    | inr users ↦
        absurd
          (users_stays (subst (IsManaged texts_json shared formats "u") (sym users) managed_one))
  ]
  | inr (inl (at, (u, objs, there, m), _)) ↦
      services_rule_kept v o path family "address-list" (only_services o objs there m) at (inr refl)
        i
  | inr (inr (inl (at, (u, objs, there, m)))) ↦
      services_rule_kept v o path family "nat" (only_services o objs there m) at (inl refl) i
  | inr (inr (inr (at, (u, objs, there, m)))) ↦
      services_rule_kept v o path family "address-list" (only_services o objs there m) at (inr refl)
        i
]

delete_service-keeps_example : UserEntry (delete_service texts_json shared formats "u" true).0
delete_service-keeps_example =
    delete_service-keeps texts_json shared formats "u" UserEntry removable_kept true refl

setup-NeverPanics_example : ¬ ((setup texts_json guarded formats true).1 ≡ err index_out_of_range)
setup-NeverPanics_example = setup-NeverPanics texts_json guarded formats true

-- The state counts the deletions.
abbrev counting : Router ℕ Entry String
counting = record {
  get_array = λ w path query. some (managed ∷ []);
  delete = λ w path. (suc w, true);
  patch = λ w path fields. (w, none);
  put = λ w path obj. (w, some obj);
}

abbrev vacated : Service
vacated = record {
  uid = "u";
  name = "web";
  lb_enabled = true;
  lb_ips = [];
  snat_enabled = true;
  snat_ipv4 = invalid;
  snat_ipv6 = invalid;
  endpoints = [];
}

vacated_fine : (ensure_service texts_json counting formats vacated 0).1 ≡ ok tt
unfolding ensure_service ensure_lb ensure_snat run_sync sync has_lb_ip has_snat_ip has_prefix
    cleanup_lb_ips_list delete_lb_service_rules delete_snat_service_rule delete_snat_src_ips_list
vacated_fine = refl

ensure_service-delete_service_example :
    delete_service texts_json counting formats "u" 0
    ≡ ((ensure_service texts_json counting formats vacated 0).0, ok tt)
unfolding has_lb_ip has_snat_ip
ensure_service-delete_service_example =
    ensure_service-delete_service texts_json counting formats vacated 0 refl refl refl refl
      vacated_fine
