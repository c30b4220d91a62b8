-- ===== src/Backend.antt =====
-- internal/routeros/backend.go: what its operations share. The requests go through `Sync`; the
-- mutex makes each operation one step.
use Prim.Native.String.{◌++◌ as append}
use mikrolb.Common.{
  ℕ, Bool, ◌&&◌, Option, none, some, List, [], ◌∷◌, String, Result, ok, err, has_prefix,
  contains_text,
}
use mikrolb.Json.{Gjson}
use mikrolb.Net.{Addr}
use mikrolb.Net.Text.{AddrText}
use mikrolb.RouterNames.{Digest, get_lb_service_chain_name}
use mikrolb.Service.{EndpointPort}
use mikrolb.Sync.{Router, SyncCall, SyncError, sync}
pub mod Rules
pub mod Lists
pub mod Ports
pub mod Snat
pub mod Ensure
pub mod Advertise
pub mod Deletes
pub mod Panics
pub mod Vacated

-- The texts that Go's `fmt`, `strings` and `netip` make, as a parameter: `%d` of a number,
-- `ToLower`, and `AddrPort.String`; with the addresses' texts and the hash.
pub record Formats : Type 0 where
  pub net : AddrText
  pub digest : Digest
  pub decimal : ℕ → String
  pub to_lower : String → String
  pub addr_port_string : Addr → ℕ → String

-- What an operation returns where it fails; `index_out_of_range` stands for the panic of an access
-- to a slice.
pub data BackendError : Type 0 where
  sync_failed : SyncError → BackendError
  joined : List SyncError → BackendError
  unsupported_family index_out_of_range request_failed no_route not_permitted : BackendError

abbrev pub ignored_ip_firewall_fields : List String
ignored_ip_firewall_fields =
    ".id" ∷ "bytes" ∷ "dynamic" ∷ "invalid" ∷ "log" ∷ "log-prefix" ∷ "packets" ∷ "vrf" ∷ []

abbrev pub ignored_ip_list_fields : List String
ignored_ip_list_fields = ".id" ∷ "dynamic" ∷ "creation-time" ∷ []

abbrev pub ignored_ip_address_fields : List String
ignored_ip_address_fields =
    ".id" ∷ "actual-interface" ∷ "deprecated" ∷ "dynamic" ∷ "eui-64" ∷ "from-pool" ∷ "global"
    ∷ "invalid" ∷ "network" ∷ "slave" ∷ "vrf" ∷ []

abbrev pub get_lb_ips_list_name : String
get_lb_ips_list_name = "mikrolb-lb-ips"

abbrev pub get_lb_connection_chain_name : String
get_lb_connection_chain_name = "mikrolb-dnat"

abbrev pub get_snat_chain_name : String
get_snat_chain_name = "mikrolb-snat"

module _ (fmt : Formats) where
  unfoldable pub get_lb_service_port_chain_name : String → EndpointPort → String
  get_lb_service_port_chain_name service_uid port =
      append (get_lb_service_chain_name fmt.digest service_uid)
        (append "-port-" (append (fmt.decimal port.port) (append "-" (fmt.to_lower port.protocol))))

-- `r.Get(key).String()`.
abbrev pub text_at : {Obj Val : Type 0} → Gjson Obj Val → Obj → String → String
text_at json obj key = elim (json.get obj key) [ none ↦ "" | some v ↦ json.string_of v ]

-- The filters' test on a comment: it is one of ours and names the service.
unfoldable pub managed_comment : String → String → Bool
managed_comment service_uid comment =
    has_prefix comment "mikrolb:" && contains_text comment service_uid

-- An operation: the router's state goes through it, whether it fails or not.
abbrev pub Action : Type 0 → Type 0 → Type 0
Action W A = W → W × Result BackendError A

module _ {W : Type 0} where
  abbrev pub pure : {A : Type 0} → A → Action W A
  pure a w = (w, ok a)

  abbrev pub fail : {A : Type 0} → BackendError → Action W A
  fail e w = (w, err e)

infixl 5 ◌>>=◌ ◌>>◌
abbrev pub ◌>>=◌ : {W A B : Type 0} → Action W A → (A → Action W B) → Action W B
◌>>=◌ m f w = let (w', r) = m w in elim r [ ok a ↦ f a w' | err e ↦ (w', err e) ]

abbrev pub ◌>>◌ : {W A B : Type 0} → Action W A → Action W B → Action W B
m >> k = m >>= λ _. k

module _ {W Obj Val : Type 0} (json : Gjson Obj Val) (router : Router W Obj Val) where
  -- `m.client.Sync`.
  unfoldable pub run_sync : SyncCall Obj → Action W (List Obj)
  run_sync call w =
      let (w', r) = sync json router w call in
      (w', elim r [ ok objs ↦ ok objs | err e ↦ err (sync_failed e) ])

  -- `return resp[0], nil` behind the test on the error.
  abbrev pub first_entry : {A : Type 0} → List A → Action W A
  first_entry [] = fail index_out_of_range
  first_entry (obj ∷ objs) = pure obj
