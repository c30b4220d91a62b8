-- ===== src/Backend/Advertise.antt =====
-- The advertisement of an address and the check of the router: `Check`, `EnsureIPAdvertisement` and
-- `DeleteIPAdvertisement` of internal/routeros/backend.go. The fields that are read of an answer
-- stand for the gjson results.
use Prim.Native.String.{◌++◌ as append}
use mikrolb.Backend.{
  Formats, BackendError, request_failed, no_route, not_permitted, Action, pure, fail, ◌>>=◌, ◌>>◌,
  run_sync, ignored_ip_address_fields,
}
use mikrolb.Backend.Lists.{delete_ip_advertisement}
use mikrolb.Common.{
  ℕ, Bool, not, ◌||◌, true, false, Option, none, some, List, [], ◌∷◌, String, str_eq, ok, err,
  if◌then◌else◌,
}
use mikrolb.Gratuitous.{Layer, generate_gratuitous_advertisement}
use mikrolb.Json.{text, flag, Gjson, Request, has_text}
use mikrolb.Net.{Addr, is6}
use mikrolb.Policies.{Fetch, PolicyState, policies}
use mikrolb.Route.{Route, determine_interface_for_ip}
use mikrolb.Sync.{Router, SyncCall}

-- What else the backend asks the router, as a parameter; `none` is a request that failed. With it
-- what the libraries do for the packet: `net.ParseMAC`, gopacket and `hex.EncodeToString`. The cache
-- of `Policies` is a part of the state.
pub record Device (W : Type 0) : Type 0 where
  pub fetch : W → Fetch
  pub now : W → ℕ
  pub answered_at : W → ℕ
  pub policy_state : W → PolicyState
  pub set_policy_state : W → PolicyState → W
  pub routeros_version : W → Option (Option String)
  pub routes : W → Option (List Route)
  pub traffic_gen : W → Option Bool
  pub mac_addresses : W → String → Option (List String)
  pub parse_mac : String → Option (List ℕ)
  pub serialize_layers : List Layer → Option (List ℕ)
  pub encode_hex : List ℕ → String
  pub inject : W → String → String → W × Bool

module _ {W Obj Val : Type 0} (json : Gjson Obj Val) (router : Router W Obj Val) (device : Device W)
    (fmt : Formats) where
  abbrev pub or_fail : {A : Type 0} → BackendError → Option A → Action W A
  or_fail e none = fail e
  or_fail e (some a) = pure a

  -- `m.client.Policies()`, with the cache in the state.
  unfoldable pub get_policies : Action W (List String)
  unfolding policies
  get_policies w =
      let (c, found) =
        policies (device.fetch w) (device.now w) (device.answered_at w) (device.policy_state w) in
      (device.set_policy_state w c, elim found [ ok names ↦ ok names | err e ↦ err request_failed ])

  unfoldable pub lacks : String → String → List String → Bool
  unfolding has_text
  lacks p q names = not (has_text names p) || not (has_text names q)

  -- The package is missing, or its version is.
  abbrev pub version_of : Option String → Action W String
  version_of none = fail request_failed
  version_of (some version) = if str_eq version "" then fail request_failed else pure version

  unfoldable pub check : Action W String
  unfolding get_policies lacks
  check = get_policies >>= λ names. if lacks "read" "write" names then fail not_permitted else λ w.
      (or_fail request_failed (device.routeros_version w) >>= version_of) w

  -- The entry of `ensureIPAdvertisement`; IPv6 needs some more parameters.
  unfoldable pub advertisement_request : Addr → String → Request
  advertisement_request ip interface =
      ("interface", text interface)
      ∷ ("address", text (append (fmt.net.addr_string ip) (if is6 ip then "/128" else "/32")))
      ∷ ("comment", text "mikrolb: IP advertisement")
      ∷ ("disabled", flag false)
      ∷ (if is6 ip
          then ("advertise", flag false)
            ∷ ("auto-link-local", flag true)
            ∷ ("eui-64", flag false)
            ∷ ("no-dad", flag false)
            ∷ []
          else [])

  unfoldable pub ip_advertisement : Addr → String → SyncCall Obj
  unfolding advertisement_request
  ip_advertisement ip interface = record {
    path = append "/" (append (if is6 ip then "ipv6" else "ip") "/address");
    requests = json.of_request (advertisement_request ip interface) ∷ [];
    query = ("address", append (fmt.net.addr_string ip) (if is6 ip then "/128" else "/32")) ∷ [];
    filter = none;
    id_func = none;
    ignored_fields = ignored_ip_address_fields;
  }

  -- The end of `triggerGratuitousAdvertisement`: no interface was found, or the first has the
  -- address from which the packet is made.
  unfoldable pub inject_packet : Addr → String → List String → Action W Unit
  unfolding generate_gratuitous_advertisement
  inject_packet ip interface [] w = (w, err request_failed)
  inject_packet ip interface (mac_text ∷ rest) w = elim (device.parse_mac mac_text) [
    | none ↦ (w, err request_failed)
    | some mac ↦ elim (generate_gratuitous_advertisement device.serialize_layers mac ip) [
      | none ↦ (w, err request_failed)
      | some packet ↦
          let (w', sent) = device.inject w interface (device.encode_hex packet) in
          (w', if sent then ok tt else err request_failed)
    ]
  ]

  unfoldable pub send_gratuitous : Addr → String → Action W Unit
  unfolding inject_packet
  send_gratuitous ip interface w =
      (or_fail request_failed (device.traffic_gen w) >>= λ enabled.
      if not enabled then pure tt else λ w'.
      (or_fail request_failed (device.mac_addresses w' interface) >>= inject_packet ip interface)
        w')
        w

  unfoldable pub trigger_gratuitous_advertisement : Addr → String → Action W Unit
  unfolding get_policies lacks send_gratuitous
  trigger_gratuitous_advertisement ip interface = get_policies >>= λ names.
      if lacks "sniff" "test" names then pure tt else send_gratuitous ip interface

  -- The interface that was asked for, or that of the best route.
  unfoldable pub choose_interface : Addr → String → Action W String
  choose_interface ip interface w =
      if str_eq interface ""
      then (or_fail request_failed (device.routes w) >>= λ routes.
            or_fail no_route (determine_interface_for_ip fmt.net ip routes))
          w
      else (w, ok interface)

  unfoldable pub ensure_ip_advertisement : Addr → String → Action W String
  unfolding choose_interface ip_advertisement trigger_gratuitous_advertisement
  ensure_ip_advertisement ip interface = choose_interface ip interface >>= λ chosen.
      run_sync json router (ip_advertisement ip chosen)
      >> trigger_gratuitous_advertisement ip chosen
      >> pure chosen

  unfoldable pub delete_advertisement : Addr → Action W Unit
  delete_advertisement ip = run_sync json router (delete_ip_advertisement json fmt ip) >> pure tt
