-- ===== src/Backend/Panics.antt =====
-- The accesses to `resp[0]` in internal/routeros/backend.go.
use mikrolb.Backend.{Formats, index_out_of_range, Action, pure, ◌>>=◌, ◌>>◌, run_sync, first_entry}
use mikrolb.Backend.Ensure.{
  ensure_lb_mangle_rule, ensure_lb_accept_rule, ensure_lb_reject_rule,
  ensure_lb_connection_chain_rule, ensure_snat_rule, setup_family, setup,
}
use mikrolb.Backend.Rules.{
  single_rule, icmp_protocol, lb_mangle_rule, lb_accept_rule, lb_reject_rule,
  lb_connection_chain_rule, snat_rule,
}
use mikrolb.Common.{
  ◌≡◌, refl, ap, ◌∙◌, subst, inl, inr, List, [], ◌∷◌, err, Result-cases, err-injective,
}
use mikrolb.Json.{Gjson}
use mikrolb.Net.{IpFamily, ipv4, ipv6, unknown}
use mikrolb.Sync.{Router, SyncCall, same_id_by, sync}
use mikrolb.Sync.Effects.{Listed}
use mikrolb.Sync.Answers.{Answers, sync-IsRun}

abbrev pub NeverPanics : {W A : Type 0} → Action W A → Type 0
NeverPanics {W = W} m = (w : W) → ¬ ((m w).1 ≡ err index_out_of_range)

pure-NeverPanics : {W A : Type 0} (a : A) → NeverPanics {W = W} (pure a)
pure-NeverPanics a w h = absurd (cc)

then-NeverPanics :
    {W A B : Type 0} (m : Action W A) (k : Action W B)
    → NeverPanics m
    → NeverPanics k
    → NeverPanics (m >> k)
then-NeverPanics m k safe_m safe_k w = elim (Result-cases (m w).1) [
  | inl (a, done) ↦ rw (done, ◌>>◌, ◌>>=◌) (safe_k (m w).0)
  | inr (e, failed) ↦ rw (failed, ◌>>◌, ◌>>=◌) (λ h. safe_m w (failed ∙ ap err (err-injective h)))
]

module _ {W Obj Val : Type 0} (json : Gjson Obj Val) (router : Router W Obj Val) where
  -- What `Sync` returns for one request has an element.
  first_entry-NeverPanics :
      (call : SyncCall Obj) (req : Obj)
      → call.requests ≡ req ∷ []
      → NeverPanics (run_sync json router call >>= first_entry json router)
  unfolding run_sync
  first_entry-NeverPanics call req single w = elim (Result-cases (sync json router w call).1) [
    | inr (e, failed) ↦ rw (failed, ◌>>=◌, run_sync) (λ h. absurd (cc))
    | inl (objs, done) ↦
        rw (done, ◌>>=◌, run_sync)
          (let (gone, listed, run) = sync-IsRun json router w call objs done in
            let (v, deletes, answers) = run in
            has_first v (sync json router w call).0 objs (
              subst
                (λ reqs.
                  Answers json router call.path call.ignored_fields (Listed router w call)
                    (same_id_by call.id_func) v reqs objs (sync json router w call).0)
                single answers))
  ]
    where
      has_first :
          (v u : W) (objs : List Obj)
          → Answers json router call.path call.ignored_fields
              (Listed router w call)
              (same_id_by call.id_func)
              v
              (req ∷ [])
              objs
              u
          → ¬ (
              (first_entry json router objs (sync json router w call).0).1 ≡ err index_out_of_range)
      has_first v u [] p h = absurd p
      has_first v u (obj ∷ objs) p h = absurd (cc)

  module _ (fmt : Formats) where
    reject-NeverPanics :
        (family : IpFamily) → NeverPanics (ensure_lb_reject_rule json router fmt family)
    unfolding ensure_lb_reject_rule lb_reject_rule icmp_protocol single_rule
    reject-NeverPanics ipv4 w = first_entry-NeverPanics _ _ refl w
    reject-NeverPanics ipv6 w = first_entry-NeverPanics _ _ refl w
    reject-NeverPanics unknown w = λ h. absurd (cc)

    setup_family-NeverPanics :
        (family : IpFamily) → NeverPanics (setup_family json router fmt family)
    unfolding setup_family ensure_lb_accept_rule ensure_lb_mangle_rule
        ensure_lb_connection_chain_rule ensure_snat_rule lb_accept_rule lb_mangle_rule
        lb_connection_chain_rule snat_rule single_rule
    setup_family-NeverPanics family =
        let reject = ensure_lb_reject_rule json router fmt family in
        let accept = ensure_lb_accept_rule json router fmt family in
        let mangle = ensure_lb_mangle_rule json router fmt family in
        let chain = ensure_lb_connection_chain_rule json router fmt family in
        let snat = ensure_snat_rule json router fmt family in
        let two =
          then-NeverPanics reject accept (reject-NeverPanics family)
            (first_entry-NeverPanics (lb_accept_rule json family) _ refl) in
        let three =
          then-NeverPanics (reject >> accept) mangle two
            (first_entry-NeverPanics (lb_mangle_rule json family) _ refl) in
        let four =
          then-NeverPanics (reject >> accept >> mangle) chain three
            (first_entry-NeverPanics (lb_connection_chain_rule json family) _ refl) in
        let five =
          then-NeverPanics (reject >> accept >> mangle >> chain) snat four
            (first_entry-NeverPanics (snat_rule json family) _ refl) in
        then-NeverPanics (reject >> accept >> mangle >> chain >> snat) (pure tt) five
          (pure-NeverPanics tt)

    -- `Setup` never indexes a slice out of its range, whatever the router answers: the first element
    -- of what `Sync` returns for a rule is there wherever it is read.
    pub setup-NeverPanics : NeverPanics (setup json router fmt)
    unfolding setup
    setup-NeverPanics =
        then-NeverPanics (setup_family json router fmt ipv4) (setup_family json router fmt ipv6)
          (setup_family-NeverPanics ipv4) (setup_family-NeverPanics ipv6)
