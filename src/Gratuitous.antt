-- ===== src/Gratuitous.antt =====
-- internal/routeros/gratuitous.go: the layers of the packet that announces an address. gopacket,
-- which makes bytes of them, is a parameter.
use mikrolb.Common.{ℕ, ◌/◌, ◌%◌, ◌^◌, not, ◌==◌, length, Option, none, List, [], ◌∷◌, if◌then◌else◌}
use mikrolb.Net.{Addr, invalid, v4, v6, is4, is_valid}

-- The constants of gopacket that name the payload of a layer.
pub data Payload : Type 0 where
  payload_arp payload_ipv4 payload_ipv6 payload_icmpv6 payload_neighbor_advertisement : Payload

-- The fields that the code sets; an address stands for its `AsSlice()`.
pub record Ethernet : Type 0 where
  pub src_mac : List ℕ
  pub dst_mac : List ℕ
  pub ethernet_type : Payload

pub record Arp : Type 0 where
  pub protocol_type : Payload
  pub hw_address_size : ℕ
  pub prot_address_size : ℕ
  pub source_hw_address : List ℕ
  pub source_prot_address : Addr
  pub dst_hw_address : List ℕ
  pub dst_prot_address : Addr

pub record Ip6Header : Type 0 where
  pub version : ℕ
  pub src_ip : Addr
  pub dst_ip : Addr
  pub next_header : Payload
  pub hop_limit : ℕ

-- `arp_layer` is an ARP request; `icmpv6_layer` has the type, the code 0 and the layer for its
-- checksum; the last has the flags, the target and the option with the target's link-layer address.
pub data Layer : Type 0 where
  ethernet_layer : Ethernet → Layer
  arp_layer : Arp → Layer
  ipv6_layer : Ip6Header → Layer
  icmpv6_layer : Payload → Ip6Header → Layer
  neighbor_layer : ℕ → Addr → List ℕ → Layer

-- `Addr.Unmap`.
unfoldable pub unmap : Addr → Addr
unmap invalid = invalid
unmap (v4 n) = v4 n
unmap (v6 n) = if n / 2 ^ 32 == 0xffff then v4 (n % 2 ^ 32) else v6 n

-- `net.IPv6linklocalallnodes`, ff02::1.
abbrev pub link_local_all_nodes : Addr
link_local_all_nodes = v6 0xff020000000000000000000000000001

unfoldable pub arp_packet : List ℕ → Addr → List Layer
arp_packet mac ip =
    ethernet_layer (record {
      src_mac = mac;
      dst_mac = 0xff ∷ 0xff ∷ 0xff ∷ 0xff ∷ 0xff ∷ 0xff ∷ [];
      ethernet_type = payload_arp;
    })
    ∷ arp_layer (record {
      protocol_type = payload_ipv4;
      hw_address_size = 6;
      prot_address_size = 4;
      source_hw_address = mac;
      source_prot_address = ip;
      dst_hw_address = 0 ∷ 0 ∷ 0 ∷ 0 ∷ 0 ∷ 0 ∷ [];
      dst_prot_address = ip;
    })
    ∷ []

unfoldable pub ipv6_header : Addr → Ip6Header
ipv6_header ip = record {
  version = 6;
  src_ip = ip;
  dst_ip = link_local_all_nodes;
  next_header = payload_icmpv6;
  hop_limit = 255;
}

unfoldable pub neighbor_packet : List ℕ → Addr → List Layer
unfolding ipv6_header
neighbor_packet mac ip =
    ethernet_layer (record {
      src_mac = mac;
      dst_mac = 0x33 ∷ 0x33 ∷ 0 ∷ 0 ∷ 0 ∷ 1 ∷ [];
      ethernet_type = payload_ipv6;
    })
    ∷ ipv6_layer (ipv6_header ip)
    ∷ icmpv6_layer payload_neighbor_advertisement (ipv6_header ip)
    ∷ neighbor_layer 0x20 ip mac
    ∷ []

-- `gopacket.SerializeLayers` is the parameter; `none` is an error.
unfoldable pub generate_gratuitous_advertisement :
    (List Layer → Option (List ℕ)) → List ℕ → Addr → Option (List ℕ)
unfolding unmap arp_packet neighbor_packet
generate_gratuitous_advertisement serialize mac ip =
    if not (length mac == 6)
    then none
    else if not (is_valid ip)
    then none
    else if is4 (unmap ip)
    then serialize (arp_packet mac (unmap ip))
    else serialize (neighbor_packet mac (unmap ip))
