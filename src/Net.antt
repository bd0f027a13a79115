-- ===== src/Net.antt =====
-- The network: bytes of a packet (includes/drivers/net/ip.h), an interface
-- (includes/drivers/net/netif.h) and what the stack sends and calls (drivers/net/eth.c).
pub mod Checksum
pub mod Arp
pub mod Ip
pub mod Icmp
pub mod Udp
pub mod Dns
pub mod Tcp
pub mod Eth
pub mod Exchange
mod Tests
use core_z_os.Base.{
  ℕ, ◌+◌, ◌*◌, ◌/◌, ◌%◌, ◌^◌, Bool, Option, none, some, List, [], ◌∷◌, ◌++◌, ltb, if◌then◌else◌,
  length, get_or,
}

-- Six bytes.
pub record Mac : Type 0 where
  pub m0 : ℕ
  pub m1 : ℕ
  pub m2 : ℕ
  pub m3 : ℕ
  pub m4 : ℕ
  pub m5 : ℕ

abbrev pub mac_bytes : Mac → List ℕ
mac_bytes m = m.m0 ∷ m.m1 ∷ m.m2 ∷ m.m3 ∷ m.m4 ∷ m.m5 ∷ []

-- The byte at an offset; the callers test the length first.
abbrev pub byte_at : List ℕ → ℕ → ℕ
byte_at p o = get_or p o 0

abbrev pub mac_at : List ℕ → ℕ → Mac
mac_at p o = record {
  m0 = byte_at p o;
  m1 = byte_at p (o + 1);
  m2 = byte_at p (o + 2);
  m3 = byte_at p (o + 3);
  m4 = byte_at p (o + 4);
  m5 = byte_at p (o + 5);
}

unfoldable pub net_be16 : List ℕ → ℕ → ℕ
net_be16 p o = byte_at p o * 2 ^ 8 + byte_at p (o + 1)

unfoldable pub net_be32 : List ℕ → ℕ → ℕ
net_be32 p o =
    byte_at p o * 2 ^ 24
    + byte_at p (o + 1) * 2 ^ 16
    + byte_at p (o + 2) * 2 ^ 8
    + byte_at p (o + 3)

-- The bytes that are written.
unfoldable pub net_put16 : ℕ → List ℕ
net_put16 v = v / 2 ^ 8 % 256 ∷ v % 256 ∷ []

unfoldable pub net_put32 : ℕ → List ℕ
net_put32 v = v / 2 ^ 24 % 256 ∷ v / 2 ^ 16 % 256 ∷ v / 2 ^ 8 % 256 ∷ v % 256 ∷ []

-- `has_tx` is `tx != NULL`.
pub record Netif : Type 0 where
  pub mac : Mac
  pub ip : ℕ
  pub mask : ℕ
  pub gw : ℕ
  pub has_tx : Bool

-- What the stack does beside changing its own state: the frame that it hands to `tx`, and the calls
-- of `ip_arp_resolved` and `ip_input`.
pub data Event : Type 0 where
  transmit : List ℕ → Event
  arp_resolved : ℕ → Mac → Event
  ip_packet : List ℕ → Event

abbrev pub eth_hdr_len : ℕ
eth_hdr_len = 14

abbrev pub eth_frame_max : ℕ
eth_frame_max = 1518

abbrev pub eth_arp : ℕ
eth_arp = 0x0806

abbrev pub eth_ip : ℕ
eth_ip = 0x0800

unfoldable pub eth_output : Netif → Mac → ℕ → List ℕ → List Event
unfolding net_put16
eth_output ifp dst ethertype payload =
    if ifp.has_tx
    then if ltb eth_frame_max (eth_hdr_len + length payload)
      then []
      else transmit (mac_bytes dst ++ mac_bytes ifp.mac ++ net_put16 ethertype ++ payload) ∷ []
    else []
