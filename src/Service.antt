-- ===== src/Service.antt =====
-- Services and their endpoints: internal/core/service.go.
use mikrolb.Common.{ℕ, Bool, true, false, ◌||◌, List, [], ◌∷◌, ◌++◌, String, if◌then◌else◌}
use mikrolb.Net.{Addr, IpFamily, ipv4, family_eq, get_ip_family, is_valid, addr_eq}
pub mod Ips

pub record EndpointPort : Type 0 where
  pub port : ℕ
  pub target_port : ℕ
  pub protocol : String

pub record Endpoint : Type 0 where
  pub ips : List Addr
  pub ports : List EndpointPort

pub record Service : Type 0 where
  pub uid : String
  pub name : String
  pub lb_enabled : Bool
  pub lb_ips : List Addr
  pub snat_enabled : Bool
  pub snat_ipv4 : Addr
  pub snat_ipv6 : Addr
  pub endpoints : List Endpoint

-- `slices.Compact`: an element equal to the one before it is dropped.
unfoldable pub compact_after : Addr → List Addr → List Addr
compact_after x [] = []
compact_after x (y ∷ ys) = let rest = compact_after y ys in if addr_eq y x then rest else y ∷ rest

unfoldable pub compact : List Addr → List Addr
unfolding compact_after
compact [] = []
compact (x ∷ xs) = x ∷ compact_after x xs

unfoldable pub get_all_ips : Service → List Addr
unfolding compact
get_all_ips s = compact (
    s.lb_ips
    ++ (if is_valid s.snat_ipv4 then s.snat_ipv4 ∷ [] else [])
    ++ (if is_valid s.snat_ipv6 then s.snat_ipv6 ∷ [] else []))

unfoldable pub any_of_family : List Addr → IpFamily → Bool
any_of_family [] family = false
any_of_family (ip ∷ ips) family = family_eq (get_ip_family ip) family || any_of_family ips family

unfoldable pub has_lb_ip : Service → IpFamily → Bool
unfolding any_of_family
has_lb_ip s family = any_of_family s.lb_ips family

unfoldable pub has_snat_ip : Service → IpFamily → Bool
has_snat_ip s family = if family_eq family ipv4 then is_valid s.snat_ipv4 else is_valid s.snat_ipv6
