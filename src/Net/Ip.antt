-- ===== src/Net/Ip.antt =====
-- drivers/net/ip.c: packets in and out, and the packets that wait for an address.
pub mod RoundTrip
pub mod Pending
use Prim.Native.Nat.{bit_and}
use core_z_os.Base.{
  ℕ, ◌+◌, ◌-◌, ◌*◌, ◌/◌, ◌%◌, ◌^◌, Bool, true, false, not, ◌&&◌, ◌||◌, Option, none, some, List, [],
  ◌∷◌, ◌++◌, ltb, leb, ◌==◌, if◌then◌else◌, length, take, drop, set, suc,
}
use mathlib.Core.Option
use core_z_os.Net.{
  Mac, Netif, Event, byte_at, net_be16, net_be32, net_put16, net_put32, eth_ip, eth_output,
}
use core_z_os.Net.Checksum.{ip_csum}
use core_z_os.Net.Arp.{Arp, arp_resolve}

abbrev pub ip_hdr_len : ℕ
ip_hdr_len = 20

abbrev pub tcp_mss : ℕ
tcp_mss = 1460

-- The call of `icmp_input`, `tcp_input` or `udp_input` that a packet leads to: the protocol's
-- number, the sender's address and the payload.
pub record Delivery : Type 0 where
  pub proto : ℕ
  pub src : ℕ
  pub payload : List ℕ

-- The tests of the header.
unfoldable pub header_ok : List ℕ → Bool
header_ok pkt =
    let ihlen = byte_at pkt 0 % 16 * 4 in
    (byte_at pkt 0 / 16 == 4)
    && (not (ltb ihlen ip_hdr_len))
    && (not (ltb (length pkt) ihlen))
    && (ip_csum (take ihlen pkt) == 0)

unfoldable pub ip_input : Netif → List ℕ → Option Delivery
ip_input ifp pkt =
    let ihlen = byte_at pkt 0 % 16 * 4 in
    let total = net_be16 pkt 2 in
    let len = if leb ihlen total && leb total (length pkt) then total else length pkt in
    let daddr = net_be32 pkt 16 in
    let proto = byte_at pkt 9 in
    if ltb (length pkt) ip_hdr_len
    then none
    else if not (header_ok pkt)
    then none
    else if not (daddr == ifp.ip) && not (daddr == 0xffffffff)
    then none
    else if (proto == 1) || ((proto == 6) || (proto == 17))
    then some (record {
      proto = proto;
      src = net_be32 pkt 12;
      payload = take (len - ihlen) (drop ihlen pkt);
    })
    else none

-- A place for a packet that waits until an address is known.
pub record Pend : Type 0 where
  pub dst : ℕ
  pub len : ℕ
  pub active : Bool
  pub frame : List ℕ

-- `ip_pend_slot`: the first place that is not active, or else the first one for that address.
unfoldable pub free_slot : List Pend → Option ℕ
free_slot [] = none
free_slot (e ∷ es) = if not e.active then some 0 else Option.map suc (free_slot es)

unfoldable pub same_slot : List Pend → ℕ → Option ℕ
same_slot [] nh = none
same_slot (e ∷ es) nh = if e.dst == nh then some 0 else Option.map suc (same_slot es nh)

unfoldable pub ip_pend_slot : List Pend → ℕ → Option ℕ
ip_pend_slot pend nh = elim (free_slot pend) [ some i ↦ some i | none ↦ same_slot pend nh ]

unfoldable pub ip_header : Netif → ℕ → ℕ → ℕ → ℕ → List ℕ
unfolding net_put16 net_put32
ip_header ifp tot daddr proto csum =
    0x45 ∷ 0 ∷ net_put16 tot
    ++ (net_put16 0
        ++ (net_put16 0 ++ (64 ∷ proto ∷ net_put16 csum ++ (net_put32 ifp.ip ++ net_put32 daddr))))

-- The packet that `ip_output` builds.
unfoldable pub ip_packet : Netif → ℕ → ℕ → List ℕ → List ℕ
unfolding ip_header
ip_packet ifp daddr proto payload =
    let tot = (ip_hdr_len + length payload) % 2 ^ 32 in
    ip_header ifp tot daddr proto (ip_csum (ip_header ifp tot daddr proto 0)) ++ payload

-- The address that a packet goes to next.
unfoldable pub next_hop : Netif → ℕ → ℕ
next_hop ifp daddr = if bit_and daddr ifp.mask == bit_and ifp.ip ifp.mask then daddr else ifp.gw

-- How `ip_output` ends: -1; what `eth_output` gives for the frames that it sends; or 0, with the
-- ARP request sent and the packet kept, or dropped where there is no place.
pub data Outcome : Type 0 where
  refused : Outcome
  sent : List Event → Outcome
  waits : List Event → List Pend → Outcome

-- The packet in its place.
abbrev pub keep : List Pend → ℕ → List ℕ → List Pend
keep pend nh pkt = elim (ip_pend_slot pend nh) [
  | none ↦ pend
  | some i ↦ set pend i (record { dst = nh; len = length pkt; active = true; frame = pkt })
]

unfoldable pub ip_output : Netif → Arp → List Pend → ℕ → ℕ → List ℕ → Outcome
ip_output ifp arp pend daddr proto payload =
    let tot = (ip_hdr_len + length payload) % 2 ^ 32 in
    let pkt = ip_packet ifp daddr proto payload in
    let nh = next_hop ifp daddr in
    let (known, request) = arp_resolve ifp nh arp in
    if ltb (ip_hdr_len + tcp_mss) tot then refused else elim known [
      | some mac ↦ sent (eth_output ifp mac eth_ip pkt)
      | none ↦ waits request (keep pend nh pkt)
    ]

-- The places for the address are sent and freed.
unfoldable pub ip_arp_resolved : Netif → ℕ → Mac → List Pend → List Event × List Pend
ip_arp_resolved ifp ip mac [] = ([], [])
ip_arp_resolved ifp ip mac (e ∷ es) =
    let (events, rest) = ip_arp_resolved ifp ip mac es in
    if not e.active || not (e.dst == ip) then (events, e ∷ rest) else (
      eth_output ifp mac eth_ip (take e.len e.frame) ++ events,
      record e { active = false } ∷ rest,
    )
