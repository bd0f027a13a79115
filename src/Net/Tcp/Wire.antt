-- ===== src/Net/Tcp/Wire.antt =====
-- A segment that `tcp_emit` of drivers/net/tcp.c sends reaches the block that it is for.
use core_z_os.Base.{
  ℕ, ◌+◌, ◌*◌, ◌/◌, ◌%◌, ◌^◌, ◌≤◌, ◌<◌, ◌≡◌, inl, inr, refl, sym, ap, ◌∙◌, false, none, some, List,
  [], ◌++◌, arith, ltb, ◌==◌, if◌then◌else◌, length, drop,
}
use core_z_os.Net.{Netif, net_put16, net_put32, net_be16, net_be32}
use core_z_os.Net.Checksum.{
  IsBytes, total, total-le, complement_sum, pseudo, pseudo_sum, own_sum_balances,
}
use core_z_os.Net.Ip.{ip_input, ip_packet}
use core_z_os.Net.Ip.RoundTrip.{ip_roundtrip}
use core_z_os.Net.Tcp.{TcpPcb, Segment, tcp_sum, tcp_header, segment_bytes}
use core_z_os.Net.Tcp.Input.{to_block, tcp_input}

-- The fields have the width that they have in the packet, and the packet fits.
pub record IsWire (s : Segment) : Type 0 where
  pub sport_lt : s.sport < 2 ^ 16
  pub dport_lt : s.dport < 2 ^ 16
  pub saddr_lt : s.saddr < 2 ^ 32
  pub daddr_lt : s.daddr < 2 ^ 32
  pub seq_fits : s.seq < 2 ^ 32
  pub ack_lt : s.ack < 2 ^ 32
  pub flags_lt : s.flags < 2 ^ 8
  pub wnd_lt : s.wnd < 2 ^ 16
  pub bytes : IsBytes s.payload
  pub fits : length s.payload ≤ 1440

module _ (s : Segment) (w : IsWire s) where
  with_csum : ℕ → List ℕ
  with_csum c = tcp_header s c ++ s.payload

  length-with_csum : (c : ℕ) → length (with_csum c) ≡ 20 + length s.payload
  unfolding with_csum tcp_header net_put16 net_put32
  length-with_csum c = omega arith

  total-with_csum : (c : ℕ) → c < 2 ^ 16 → total (with_csum c) ≡ total (with_csum 0) + c
  unfolding with_csum tcp_header net_put16 net_put32
  total-with_csum c h = omega arith

  total-lt : total (with_csum 0) < 2 ^ 30
  unfolding with_csum tcp_header net_put16 net_put32
  total-lt = omega (arith, total-le s.payload w.bytes, w.fits)

  base : ℕ
  base = pseudo 6 s.saddr s.daddr (20 + length s.payload) + total (with_csum 0)

  sum-eq : (c : ℕ) → c < 2 ^ 16 → tcp_sum (with_csum c) s.saddr s.daddr ≡ complement_sum (base + c)
  unfolding base tcp_sum
  sum-eq c h =
      pseudo_sum (with_csum c) 6 s.saddr s.daddr (omega arith)
        (omega (arith, length-with_csum c, total-with_csum c h, total-lt, w.fits))
      ∙ ap complement_sum
          (omega (arith, ap (pseudo 6 s.saddr s.daddr) (length-with_csum c), total-with_csum c h))

  own : ℕ
  own = tcp_sum (with_csum 0) s.saddr s.daddr

  segment-eq : segment_bytes s ≡ with_csum own
  unfolding segment_bytes with_csum own
  segment-eq = refl

  balanced : tcp_sum (segment_bytes s) s.saddr s.daddr ≡ 0
  unfolding own base
  balanced =
      ap (λ seg. tcp_sum seg s.saddr s.daddr) segment-eq
      ∙ own_sum_balances (λ c. tcp_sum (with_csum c) s.saddr s.daddr) base sum-eq
          (omega (arith, total-lt, w.fits))

  fields :
      (net_be16 (segment_bytes s) 0 ≡ s.sport)
      × (net_be16 (segment_bytes s) 2 ≡ s.dport)
      × (net_be32 (segment_bytes s) 4 ≡ s.seq)
      × (net_be32 (segment_bytes s) 8 ≡ s.ack)
      × (net_be16 (segment_bytes s) 12 ≡ 5 * 2 ^ 12 + s.flags)
      × (net_be16 (segment_bytes s) 14 ≡ s.wnd)
      × (drop 20 (segment_bytes s) ≡ s.payload)
      × (length (segment_bytes s) ≡ 20 + length s.payload)
  unfolding segment_bytes tcp_header net_put16 net_put32 net_be16 net_be32
  fields = (
    omega (arith, w.sport_lt),
    omega (arith, w.dport_lt),
    omega (arith, w.seq_fits),
    omega (arith, w.ack_lt),
    omega (arith, w.flags_lt),
    omega (arith, w.wnd_lt),
    refl,
    omega arith,
  )

tcp_input-passes :
    (to : Netif) (now src sport dport seq ack flags wnd : ℕ) (pkt payload : List ℕ)
    (pcbs : List TcpPcb)
    → tcp_sum pkt src to.ip ≡ 0
    → flags < 2 ^ 8
    → net_be16 pkt 0 ≡ sport
    → net_be16 pkt 2 ≡ dport
    → net_be32 pkt 4 ≡ seq
    → net_be32 pkt 8 ≡ ack
    → net_be16 pkt 12 ≡ 5 * 2 ^ 12 + flags
    → net_be16 pkt 14 ≡ wnd
    → drop 20 pkt ≡ payload
    → length pkt ≡ 20 + length payload
    → tcp_input to now src pkt pcbs ≡ to_block to now src sport dport seq ack flags wnd payload pcbs
unfolding tcp_input
tcp_input-passes to now src sport dport seq ack flags wnd pkt payload pcbs sum small a b c d e f g
      h =
    let offset : (5 * 2 ^ 12 + flags) / 2 ^ 12 * 4 ≡ 20 = omega (arith, small) in
    let low : (5 * 2 ^ 12 + flags) % 256 ≡ flags = omega (arith, small) in
    let long : ltb (20 + length payload) 20 ≡ false = ground arith in
    rw (a, b, c, d, e, f, offset, low, g, h, long, sum) refl

-- The part of `ip_input` that calls `tcp_input`.
unfoldable pub ip_input_tcp : Netif → ℕ → List ℕ → List TcpPcb → List TcpPcb × List Segment
ip_input_tcp ifp now pkt pcbs = elim (ip_input ifp pkt) [
  | none ↦ (pcbs, [])
  | some d ↦ if d.proto == 6 then tcp_input ifp now d.src d.payload pcbs else (pcbs, [])
]

-- A segment of at most 1440 bytes whose fields have their widths, for the address of an interface:
-- the packet that `ip_output` builds goes through `ip_input` there, both checksums hold, and
-- `tcp_input` gives the segment's fields and bytes to the block that they are for.
pub tcp_over_ip :
    (from to : Netif) (now : ℕ) (s : Segment) (pcbs : List TcpPcb)
    → IsWire s
    → from.ip ≡ s.saddr
    → to.ip ≡ s.daddr
    → ip_input_tcp to now (ip_packet from s.daddr 6 (segment_bytes s)) pcbs
      ≡ to_block to now s.saddr s.sport s.dport s.seq s.ack s.flags s.wnd s.payload pcbs
unfolding ip_input_tcp
tcp_over_ip from to now s pcbs w source target =
    let (sp, dp, seq, ack, flags, wnd, rest, len) = fields s w in
    let arrives : ip_input to (ip_packet from s.daddr 6 (segment_bytes s))
        ≡ some (record { proto = 6; src = from.ip; payload = segment_bytes s }) =
      ip_roundtrip from to s.daddr 6 (segment_bytes s) (omega (arith, source, w.saddr_lt))
        w.daddr_lt (omega (arith, len, w.fits)) (inl (sym target)) (inr (inl refl)) in
    rw (ip_input_tcp, arrives, source)
      (tcp_input-passes to now s.saddr s.sport s.dport s.seq s.ack s.flags s.wnd (segment_bytes s)
        s.payload pcbs (ap (tcp_sum (segment_bytes s) s.saddr) target ∙ balanced s w) w.flags_lt sp
        dp seq ack flags wnd rest len)
