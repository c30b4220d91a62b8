-- ===== src/RouterNames.antt =====
-- The names of lists and chains on the router: internal/routeros/backend.go, with the hash of
-- internal/utils/hash.go, and internal/routeros/utils.go.
use Prim.Native.String.{◌++◌ as append, slice}
use mikrolb.Common.{ℕ, zero, suc, ◌%◌, ◌+◌, List, [], ◌∷◌, String, min, length}
use mikrolb.Net.{IpFamily, ipv4, ipv6, unknown}

-- SHA-256 of a text, as bytes, as a parameter.
pub record Digest : Type 0 where
  pub sum256 : String → List ℕ

unfoldable pub get_api_ip_family : IpFamily → String
get_api_ip_family ipv4 = "ip"
get_api_ip_family ipv6 = "ipv6"
get_api_ip_family unknown = ""

-- `strings.Join`.
unfoldable pub join : String → List String → String
join sep [] = ""
join sep (s ∷ []) = s
join sep (s ∷ t ∷ rest) = append s (append sep (join sep (t ∷ rest)))

abbrev pub charset : String
charset = "0123456789abcdefghijklmnopqrstuvwxyz"

module _ (digest : Digest) where
  -- The loop over the first bytes of the hash, with 36 characters to choose from.
  unfoldable pub hash_text : String → ℕ → List ℕ → String
  hash_text result zero bytes = result
  hash_text result (suc n) [] = result
  hash_text result (suc n) (b ∷ bytes) =
      hash_text (append result (slice charset (b % 36) (b % 36 + 1))) n bytes

  unfoldable pub generate_unique_hash : ℕ → List String → String
  unfolding hash_text join
  generate_unique_hash count parts =
      let hash = digest.sum256 (join "#" parts) in hash_text "" (min count (length hash)) hash

  unfoldable pub get_lb_service_chain_name : String → String
  unfolding generate_unique_hash
  get_lb_service_chain_name service_uid =
      append "mikrolb-svc-" (generate_unique_hash 8 (service_uid ∷ []))

  unfoldable pub get_snat_service_ips_list_name : String → String
  unfolding generate_unique_hash
  get_snat_service_ips_list_name service_uid =
      append "mikrolb-src-ips-" (generate_unique_hash 8 (service_uid ∷ []))
