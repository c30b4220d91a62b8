-- ===== src/Route.antt =====
-- `determineInterfaceForIP` of internal/routeros/backend.go: the interface of the most specific
-- active route to an address. The fields that are read of a route stand for the gjson results.
use mikrolb.Common.{
  ℕ, ◌/◌, ◌-◌, ◌^◌, Bool, true, false, not, ◌&&◌, ltb, leb, ◌==◌, Option, none, some, List, [], ◌∷◌,
  String, str_eq, cut_at, if◌then◌else◌,
}
use mikrolb.Net.{Addr, value, bit_len, get_ip_family, family_eq}
use mikrolb.Net.Text.{AddrText}
pub mod Best

pub record Route : Type 0 where
  pub dst_address : String
  pub active : Bool
  pub immediate_gw : String
  pub distance : ℕ

-- `matchedInterfaceName`, `matchedRouteMetric` and the bits of `matchedRouteDst`.
pub record Matched : Type 0 where
  pub interface_name : String
  pub metric : ℕ
  pub bits : ℕ

-- `dst.Contains(ip)`: the same family, and equal but for the host bits.
unfoldable pub prefix_contains : Addr × ℕ → Addr → Bool
prefix_contains (a, bits) ip =
    family_eq (get_ip_family a) (get_ip_family ip)
    && value a / 2 ^ (bit_len a - bits) == value ip / 2 ^ (bit_len a - bits)

-- The part behind the first `%`, or all of the text.
unfoldable pub gateway_interface : String → String
unfolding cut_at
gateway_interface s = elim (cut_at b'%' s) [ some (before, after) ↦ after | none ↦ s ]

-- The tests on what was matched before: a less specific route is passed over, and one as specific
-- whose metric is no lower.
unfoldable pub improves : Option Matched → Matched → Bool
improves none new = true
improves (some best) new =
    not (ltb new.bits best.bits) && not (new.bits == best.bits && leb best.metric new.metric)

module _ (net : AddrText) (ip : Addr) where
  -- The match of a route, unless the loop passes it over.
  unfoldable pub match_route : Route → Option Matched
  unfolding prefix_contains gateway_interface
  match_route route =
      if str_eq route.dst_address ""
      then none
      else if not route.active
      then none
      else elim (net.parse_prefix route.dst_address) [
        | none ↦ none
        | some (a, bits) ↦
            if not (prefix_contains (a, bits) ip)
            then none
            else if str_eq route.immediate_gw ""
            then none
            else some (record {
              interface_name = gateway_interface route.immediate_gw;
              metric = route.distance;
              bits = bits;
            })
      ]

  unfoldable pub take_better : Option Matched → Option Matched → Option Matched
  unfolding improves
  take_better best none = best
  take_better best (some new) = if improves best new then some new else best

  unfoldable pub match_routes : Option Matched → List Route → Option Matched
  unfolding match_route take_better
  match_routes best [] = best
  match_routes best (route ∷ routes) = match_routes (take_better best (match_route route)) routes

  -- `none`: no matching route was found.
  unfoldable pub determine_interface_for_ip : List Route → Option String
  unfolding match_routes
  determine_interface_for_ip routes = elim (match_routes none routes) [
    | none ↦ none
    | some best ↦ if str_eq best.interface_name "" then none else some best.interface_name
  ]
