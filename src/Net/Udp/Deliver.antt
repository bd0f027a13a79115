-- ===== src/Net/Udp/Deliver.antt =====
-- A datagram that `udp_sendto` of drivers/net/udp.c sends reaches the block that it is for.
use core_z_os.Base.{
  ℕ, ◌+◌, ◌-◌, ◌%◌, ◌^◌, ◌≤◌, ◌<◌, ◌≡◌, inl, inr, refl, ap, ◌∙◌, false, not, ◌&&◌, none, some, List,
  ◌++◌, arith, ltb, ◌==◌, if◌then◌else◌, length, take, drop, take_all,
}
use core_z_os.Net.{Netif, net_put16, net_be16}
use core_z_os.Net.Checksum.{
  IsBytes, total, total-le, complement_sum, pseudo, pseudo_sum, own_sum_balances,
}
use core_z_os.Net.Ip.{ip_input, ip_packet}
use core_z_os.Net.Ip.RoundTrip.{ip_roundtrip}
use core_z_os.Net.Udp.{UdpPcb, udp_sum, udp_header, udp_segment, udp_input, deliver}

udp_sum-eq :
    (pkt : List ℕ) (saddr daddr : ℕ)
    → total pkt + length pkt < 2 ^ 31
    → udp_sum pkt saddr daddr ≡ complement_sum (pseudo 0x11 saddr daddr (length pkt) + total pkt)
unfolding udp_sum
udp_sum-eq pkt saddr daddr h = pseudo_sum pkt 0x11 saddr daddr (omega arith) h

udp_input-passes :
    (to : Netif) (src sport dport : ℕ) (seg payload : List ℕ) (pcbs : List UdpPcb)
    → udp_sum seg src to.ip ≡ 0
    → length seg ≡ 8 + length payload
    → net_be16 seg 0 ≡ sport
    → net_be16 seg 2 ≡ dport
    → net_be16 seg 4 ≡ 8 + length payload
    → drop 8 seg ≡ payload
    → udp_input to src seg pcbs ≡ deliver to src sport dport payload pcbs
unfolding udp_input
udp_input-passes to src sport dport seg payload pcbs sum len s d tot rest =
    rw (s, d, tot, len, rest, whole, sum, right_len, bytes, short, unused) refl
  where
    n : ℕ
    n = 8 + length payload

    short : ltb n 8 ≡ false
    short = ground arith

    right_len : ltb n n ≡ false
    right_len = ground arith

    whole : take n seg ≡ seg
    whole = take_all n seg (omega (arith, len))

    bytes : take (n - 8) payload ≡ payload
    bytes = take_all (n - 8) payload (omega arith)

    unused : (not (net_be16 seg 6 == 0) && false) ≡ false
    unused = ground arith

module _ (saddr daddr sport dport : ℕ) (payload : List ℕ) (bytes : IsBytes payload)
    (fits : length payload ≤ 1400) where
  tot : ℕ
  tot = (8 + length payload) % 2 ^ 32

  with_csum : ℕ → List ℕ
  with_csum c = udp_header sport dport tot c ++ payload

  length-with_csum : (c : ℕ) → length (with_csum c) ≡ 8 + length payload
  unfolding with_csum udp_header net_put16
  length-with_csum c = omega arith

  total-with_csum : (c : ℕ) → c < 2 ^ 16 → total (with_csum c) ≡ total (with_csum 0) + c
  unfolding with_csum udp_header net_put16
  total-with_csum c h = omega arith

  total-lt : total (with_csum 0) < 2 ^ 30
  unfolding with_csum udp_header net_put16
  total-lt = omega (arith, total-le payload bytes, fits)

  base : ℕ
  base = pseudo 0x11 saddr daddr (8 + length payload) + total (with_csum 0)

  sum-eq : (c : ℕ) → c < 2 ^ 16 → udp_sum (with_csum c) saddr daddr ≡ complement_sum (base + c)
  unfolding base
  sum-eq c h =
      udp_sum-eq (with_csum c) saddr daddr
        (omega (arith, length-with_csum c, total-with_csum c h, total-lt, fits))
      ∙ ap complement_sum
          (omega (arith, ap (pseudo 0x11 saddr daddr) (length-with_csum c), total-with_csum c h))

  own : ℕ
  own = udp_sum (with_csum 0) saddr daddr

  balanced : udp_sum (with_csum own) saddr daddr ≡ 0
  unfolding own base
  balanced =
      own_sum_balances (λ c. udp_sum (with_csum c) saddr daddr) base sum-eq
        (omega (arith, total-lt, fits))

  segment-eq : udp_segment saddr daddr sport dport payload ≡ with_csum own
  unfolding udp_segment with_csum own tot
  segment-eq = refl

  fields :
      sport < 2 ^ 16
      → dport < 2 ^ 16
      → (net_be16 (with_csum own) 0 ≡ sport)
        × (net_be16 (with_csum own) 2 ≡ dport)
        × (net_be16 (with_csum own) 4 ≡ 8 + length payload)
        × (drop 8 (with_csum own) ≡ payload)
  unfolding with_csum udp_header net_put16 net_be16 tot
  fields s d = (omega arith, omega arith, omega (arith, fits), refl)

-- The part of `ip_input` that calls `udp_input`.
unfoldable pub ip_input_udp : Netif → List ℕ → List UdpPcb → List UdpPcb
ip_input_udp ifp pkt pcbs = elim (ip_input ifp pkt) [
  | none ↦ pcbs
  | some d ↦ if d.proto == 17 then udp_input ifp d.src d.payload pcbs else pcbs
]

-- A datagram of at most 1400 bytes that a block not bound to an address sends to the address of
-- an interface, with addresses of 32 bits and ports of 16: the packet that `ip_output` builds
-- goes through `ip_input` there, both checksums hold, and `udp_input` gives the datagram's
-- bytes, with the sender's address and port, to the block that takes them.
pub udp_over_ip :
    (from to : Netif) (sport dport : ℕ) (payload : List ℕ) (pcbs : List UdpPcb)
    → from.ip < 2 ^ 32
    → to.ip < 2 ^ 32
    → sport < 2 ^ 16
    → dport < 2 ^ 16
    → IsBytes payload
    → length payload ≤ 1400
    → ip_input_udp to (ip_packet from to.ip 17 (udp_segment from.ip to.ip sport dport payload)) pcbs
      ≡ deliver to from.ip sport dport payload pcbs
unfolding ip_input_udp
udp_over_ip from to sport dport payload pcbs source target sp dp bytes fits =
    rw (ip_input_udp, arrives)
      (ap (λ seg. udp_input to from.ip seg pcbs)
          (segment-eq from.ip to.ip sport dport payload bytes fits)
        ∙ udp_input-passes to from.ip sport dport seg payload pcbs
            (balanced from.ip to.ip sport dport payload bytes fits)
            (length-with_csum from.ip to.ip sport dport payload bytes fits c) read.0 read.1 read.2
            read.3)
  where
    c : ℕ
    c = own from.ip to.ip sport dport payload bytes fits

    seg : List ℕ
    seg = with_csum from.ip to.ip sport dport payload bytes fits c

    read :
        (net_be16 seg 0 ≡ sport)
        × (net_be16 seg 2 ≡ dport)
        × (net_be16 seg 4 ≡ 8 + length payload)
        × (drop 8 seg ≡ payload)
    read = fields from.ip to.ip sport dport payload bytes fits sp dp

    small : length (udp_segment from.ip to.ip sport dport payload) ≤ 1460
    small = omega (
      arith,
      ap length (segment-eq from.ip to.ip sport dport payload bytes fits),
      length-with_csum from.ip to.ip sport dport payload bytes fits c,
    )

    arrives :
        ip_input to (ip_packet from to.ip 17 (udp_segment from.ip to.ip sport dport payload))
        ≡ some (record {
          proto = 17;
          src = from.ip;
          payload = udp_segment from.ip to.ip sport dport payload;
        })
    arrives =
        ip_roundtrip from to to.ip 17 (udp_segment from.ip to.ip sport dport payload) source target
          small (inl refl) (inr (inr refl))
