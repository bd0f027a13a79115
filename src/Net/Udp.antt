-- ===== src/Net/Udp.antt =====
-- drivers/net/udp.c. What a function does under `net_lock` and after it is one step. A control block
-- is named by its place among `s_upcb`.
pub mod Ring
pub mod Recv
pub mod Fifo
pub mod Ports
pub mod Deliver
use core_z_os.Base.{
  ℕ, zero, suc, ◌+◌, ◌-◌, ◌*◌, ◌/◌, ◌%◌, ◌^◌, Bool, true, false, not, ◌&&◌, ◌||◌, Option, none,
  some, List, [], ◌∷◌, ◌++◌, ltb, leb, ◌==◌, if◌then◌else◌, length, take, drop, set, get_or,
  replicate, min, map,
}
use core_z_os.Net.{Netif, byte_at, net_be16, net_be32, net_put16, net_put32}
use core_z_os.Net.Checksum.{sum_words, complement_sum}
use core_z_os.Net.Arp.{Arp}
use core_z_os.Net.Ip.{Pend, Outcome, refused, ip_output}

abbrev pub udp_hdr_len : ℕ
udp_hdr_len = 8

abbrev pub udp_payload_max : ℕ
udp_payload_max = 1400

abbrev pub udp_rcv_buf : ℕ
udp_rcv_buf = 16384

abbrev pub max_udp_pcb : ℕ
max_udp_pcb = 32

-- `active` is `active != 0`; the two positions are 16 bits wide.
pub record UdpPcb : Type 0 where
  pub active : Bool
  pub local_ip : ℕ
  pub local_port : ℕ
  pub remote_ip : ℕ
  pub remote_port : ℕ
  pub rx : List ℕ
  pub rx_head : ℕ
  pub rx_tail : ℕ

abbrev pub cleared : UdpPcb
cleared = record {
  active = false;
  local_ip = 0;
  local_port = 0;
  remote_ip = 0;
  remote_port = 0;
  rx = replicate udp_rcv_buf 0;
  rx_head = 0;
  rx_tail = 0;
}

unfoldable pub udp_init : List UdpPcb
udp_init = replicate max_udp_pcb cleared

unfoldable pub udp_sum : List ℕ → ℕ → ℕ → ℕ
udp_sum pkt saddr daddr =
    let sum =
      saddr / 2 ^ 16 % 2 ^ 16
      + saddr % 2 ^ 16
      + daddr / 2 ^ 16 % 2 ^ 16
      + daddr % 2 ^ 16
      + 0x11
      + length pkt in
    complement_sum (sum_words (sum % 2 ^ 32) pkt)

-- The first block that is not active, or none.
unfoldable pub free_pcb : List UdpPcb → Option ℕ
free_pcb [] = none
free_pcb (p ∷ ps) =
    if not p.active then some 0 else elim (free_pcb ps) [ none ↦ none | some i ↦ some (suc i) ]

unfoldable pub udp_pcb_alloc : List UdpPcb → Option ℕ × List UdpPcb
udp_pcb_alloc pcbs = elim (free_pcb pcbs) [
  | none ↦ (none, pcbs)
  | some i ↦ (some i, set pcbs i (record cleared { active = true }))
]

abbrev pub pcb_at : List UdpPcb → ℕ → UdpPcb
pcb_at pcbs i = get_or pcbs i cleared

unfoldable pub udp_pcb_free : ℕ → List UdpPcb → List UdpPcb
udp_pcb_free i pcbs = set pcbs i (record (pcb_at pcbs i) { active = false })

-- Another active block has the port; j is the place of the first block of the list.
unfoldable pub port_taken : ℕ → ℕ → ℕ → List UdpPcb → Bool
port_taken port i j [] = false
port_taken port i j (o ∷ os) =
    (o.active && not (j == i) && (o.local_port == port)) || port_taken port i (suc j) os

-- None is -1.
unfoldable pub udp_bind : ℕ → ℕ → ℕ → List UdpPcb → Option (List UdpPcb)
udp_bind i ip port pcbs =
    if port_taken port i 0 pcbs
    then none
    else some (set pcbs i (record (pcb_at pcbs i) { local_ip = ip; local_port = port }))

unfoldable pub udp_connect : ℕ → ℕ → ℕ → List UdpPcb → List UdpPcb
udp_connect i ip port pcbs =
    set pcbs i (record (pcb_at pcbs i) { remote_ip = ip; remote_port = port })

unfoldable pub udp_header : ℕ → ℕ → ℕ → ℕ → List ℕ
udp_header sport dport tot csum =
    net_put16 sport ++ (net_put16 dport ++ (net_put16 tot ++ net_put16 csum))

-- The segment that `udp_sendto` builds.
unfoldable pub udp_segment : ℕ → ℕ → ℕ → ℕ → List ℕ → List ℕ
udp_segment laddr daddr sport dport payload =
    let tot = (udp_hdr_len + length payload) % 2 ^ 32 in
    udp_header sport dport tot (udp_sum (udp_header sport dport tot 0 ++ payload) laddr daddr)
    ++ payload

-- `refused` is -1; else the code returns the length of the payload.
unfoldable pub udp_sendto : Netif → Arp → List Pend → UdpPcb → List ℕ → ℕ → ℕ → Outcome
udp_sendto ifp arp pend pcb payload daddr dport =
    let laddr = if not (pcb.local_ip == 0) then pcb.local_ip else ifp.ip in
    if ltb (udp_hdr_len + udp_payload_max) ((udp_hdr_len + length payload) % 2 ^ 32)
    then refused
    else ip_output ifp arp pend daddr 17 (udp_segment laddr daddr pcb.local_port dport payload)

-- How many bytes wait, by the two positions.
unfoldable pub rx_used : UdpPcb → ℕ
rx_used p = (p.rx_tail + 2 ^ 16 - p.rx_head) % 2 ^ 16

-- An `int`, read as the `uint32_t` that it is compared as.
unfoldable pub udp_rx_room : UdpPcb → ℕ
udp_rx_room p = (udp_rcv_buf + 2 ^ 32 - rx_used p) % 2 ^ 32

unfoldable pub udp_rx_ready : UdpPcb → Bool
udp_rx_ready p = not (rx_used p == 0)

-- `rx[rx_tail++ & UDP_MASK] = b`.
unfoldable pub put_byte : UdpPcb → ℕ → UdpPcb
put_byte p b = record p {
  rx = set p.rx (p.rx_tail % udp_rcv_buf) b;
  rx_tail = (p.rx_tail + 1) % 2 ^ 16;
}

unfoldable pub put_bytes : UdpPcb → List ℕ → UdpPcb
put_bytes p [] = p
put_bytes p (b ∷ bs) = put_bytes (put_byte p b) bs

unfoldable pub udp_rx_put : UdpPcb → List ℕ → ℕ → ℕ → UdpPcb
udp_rx_put p payload saddr sport =
    if ltb (udp_rx_room p) (8 + length payload)
    then p
    else put_bytes p
        (net_put16 (length payload) ++ (net_put32 saddr ++ (net_put16 sport ++ payload)))

-- How `udp_recv` ends: -1; the bytes, who sent them and the block; or a read outside `rx`.
pub data Received : Type 0 where
  nothing : Received
  received : List ℕ → ℕ → ℕ → UdpPcb → Received
  outside : Received

-- The bytes that the two copies give, n of them from h on.
unfoldable pub ring_copy : List ℕ → ℕ → ℕ → List ℕ
ring_copy rx h n =
    if leb (h + n) udp_rcv_buf
    then take n (drop h rx)
    else take (udp_rcv_buf - h) (drop h rx) ++ take (n - (udp_rcv_buf - h)) rx

-- The head and the reads at it, for a buffer of len bytes.
unfoldable pub udp_recv : UdpPcb → ℕ → Received
udp_recv p len =
    let h1 = (p.rx_head + 1) % udp_rcv_buf in
    let h2 = (h1 + 1) % udp_rcv_buf in
    let h6 = (h2 + 4) % udp_rcv_buf in
    let h8 = (h6 + 2) % udp_rcv_buf in
    let n = get_or p.rx (p.rx_head % udp_rcv_buf) 0 * 2 ^ 8 + get_or p.rx h1 0 in
    let dlen = if ltb len n then len else n in
    if not (udp_rx_ready p)
    then nothing
    else if ltb udp_rcv_buf (h2 + 4)
        || ltb udp_rcv_buf (h6 + 2)
        || ltb (udp_rcv_buf + udp_rcv_buf) (h8 + dlen)
    then outside
    else received (ring_copy p.rx h8 dlen) (net_be32 p.rx h2) (net_be16 p.rx h6)
        (record p { rx_head = (h8 + n) % udp_rcv_buf })

-- The block that a datagram from src and sport for dport is for, or none.
unfoldable pub takes : Netif → ℕ → ℕ → ℕ → UdpPcb → Bool
takes ifp src sport dport p =
    p.active
    && (p.local_port == dport)
    && ((p.remote_port == 0) || ((p.remote_port == sport) && (p.remote_ip == src)))
    && ((p.local_ip == 0) || (p.local_ip == ifp.ip))

unfoldable pub deliver : Netif → ℕ → ℕ → ℕ → List ℕ → List UdpPcb → List UdpPcb
deliver ifp src sport dport payload [] = []
deliver ifp src sport dport payload (p ∷ ps) =
    let rest = deliver ifp src sport dport payload ps in
    if takes ifp src sport dport p then udp_rx_put p payload src sport ∷ ps else p ∷ rest

unfoldable pub udp_input : Netif → ℕ → List ℕ → List UdpPcb → List UdpPcb
udp_input ifp src pkt pcbs =
    let sport = net_be16 pkt 0 in
    let dport = net_be16 pkt 2 in
    let udp_len = net_be16 pkt 4 in
    if ltb (length pkt) udp_hdr_len
    then pcbs
    else if ltb udp_len udp_hdr_len || ltb (length pkt) udp_len
    then pcbs
    else if not (net_be16 pkt 6 == 0) && not (udp_sum (take udp_len pkt) src ifp.ip == 0)
    then pcbs
    else deliver ifp src sport dport (take (udp_len - udp_hdr_len) (drop udp_hdr_len pkt)) pcbs
