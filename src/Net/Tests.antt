-- ===== src/Net/Tests.antt =====
-- Runs of drivers/net.
use mathlib.Core.List.{append-nil}
use core_z_os.Base.{
  ℕ, ◌<◌, zero, suc, ◌≡◌, ◌≢◌, ◌⊎◌, ◌^◌, ◌≤◌, refl, sym, true, false, none, some, List, [], ◌∷◌,
  ◌++◌, arith, replicate, length-replicate, length, drop,
}
use core_z_os.Net.{Mac, Netif, arp_resolved, eth_output, eth_arp, eth_ip, net_put16}
use core_z_os.Net.Checksum.{ip_csum, complement_sum, sum_words, fold_carries}
use core_z_os.Net.Arp.{
  unused, Arp, arp_find, arp_cache_add, arp_build, arp_input, arp_resolve, arp_slot, arp_cache_size,
  no_mac, broadcast,
}
use core_z_os.Net.Arp.Cache.{Holds, IsSlot, arp_slot-IsSlot}
use core_z_os.Net.Arp.Keeps.{IsValid, IsOldest, arp_cache_add-arp_resolve, arp_input-IsValid}
use core_z_os.Net.Ip.{Pend, waits, ip_packet, next_hop, free_slot, keep, ip_output, ip_arp_resolved}
use core_z_os.Net.Ip.Pending.{Inserts, NoneWaits, ip_pending_sent}
use core_z_os.Net.Icmp.{
  PingQueue, no_reply, icmp_input, echo_reply, echo_request, request_bytes, ping_push, nt_icmp_recv,
}
use core_z_os.Net.Icmp.Between.{ping_between}
use core_z_os.Net.Icmp.Ping
use core_z_os.Net.Icmp.Ping.{contents, reply_at, ping_fifo}
use core_z_os.Net.Udp.{
  UdpPcb, cleared, udp_rx_ready, udp_rx_put, received, udp_recv, deliver, udp_segment,
}
use core_z_os.Net.Udp.Ring
use core_z_os.Net.Udp.Ring.{unread, stored, udp_drained_drops}
use core_z_os.Net.Udp.Fifo.{udp_fifo}
use core_z_os.Net.Udp.Ports
use core_z_os.Net.Udp.Ports.{Names, PortsApart, PortOp, run, run-PortsApart}
use core_z_os.Net.Udp.Deliver.{ip_input_udp, udp_over_ip}
use core_z_os.Net.Dns.{
  bad, skipped, dns_skip_name, label, bad_label, write_label, build_labels, dns_build_query,
  dns_parse_answer,
}
use core_z_os.Net.Dns.Query.{query_of}
use core_z_os.Net.Dns.Answer.{record_a, dns_skip_name_ends}
use core_z_os.Net.Dns.RoundTrip.{answer_header, dns_roundtrip}
use core_z_os.Net.Exchange.{IsUp, delivered, arp_exchange}

abbrev empty : Arp
empty = record { cache = replicate arp_cache_size unused; tick = 3 }

no_entry : (n ip i : ℕ) → ¬ Holds (replicate n unused) ip i
no_entry zero ip i (l, v, q) = elim l [ ]
no_entry (suc n) ip zero (l, v, q) = absurd cc
no_entry (suc n) ip (suc i) (l, v, q) = no_entry n ip i (omega arith, v, q)

empty-IsValid : IsValid empty
empty-IsValid = record {
  some_entries = omega arith;
  apart = λ ip i j h h'. absurd (no_entry 16 ip i h);
}

abbrev mac_of : ℕ → Mac
mac_of n = record { m0 = 2; m1 = 0; m2 = 0; m3 = 0; m4 = 0; m5 = n }

abbrev asker : Netif
asker = record {
  mac = mac_of 1;
  ip = 0x0a000001;
  mask = 0xffffff00;
  gw = 0x0a0000fe;
  has_tx = true;
}

abbrev holder : Netif
holder = record {
  mac = mac_of 2;
  ip = 0x0a000002;
  mask = 0xffffff00;
  gw = 0x0a0000fe;
  has_tx = true;
}

asker-IsUp : IsUp asker
asker-IsUp = record { has_address = λ e. omega arith; small = omega arith; sends = refl }

holder-IsUp : IsUp holder
holder-IsUp = record { has_address = λ e. omega arith; small = omega arith; sends = refl }

arp_exchange_example :
    let (b', reply) = delivered holder (arp_resolve asker 0x0a000002 empty).1 empty in
    let (a', calls) = delivered asker reply empty in
    ((arp_resolve asker 0x0a000002 a').0 ≡ some (mac_of 2))
    × ((arp_resolve holder 0x0a000001 b').0 ≡ some (mac_of 1))
    × (calls ≡ arp_resolved 0x0a000002 (mac_of 2) ∷ [])
unfolding arp_find
arp_exchange_example =
    arp_exchange asker holder empty empty asker-IsUp holder-IsUp empty-IsValid empty-IsValid refl

arp_input-IsValid_example :
    IsValid (arp_input holder (arp_build asker 1 no_mac 0x0a000001 0x0a000002) empty).0
arp_input-IsValid_example =
    arp_input-IsValid holder (arp_build asker 1 no_mac 0x0a000001 0x0a000002) empty empty-IsValid

arp_cache_add-arp_resolve_example :
    ((arp_resolve asker 7 (arp_cache_add empty 7 (mac_of 9))).0 ≡ some (mac_of 9))
    × ((ip' : ℕ)
        → ip' ≢ 7
        → ((arp_resolve asker ip' (arp_cache_add empty 7 (mac_of 9))).0
            ≡ (arp_resolve asker ip' empty).0)
          ⊎ (((arp_resolve asker ip' (arp_cache_add empty 7 (mac_of 9))).0 ≡ none)
              × IsOldest empty ip'))
arp_cache_add-arp_resolve_example = arp_cache_add-arp_resolve asker empty 7 (mac_of 9) empty-IsValid

arp_slot-IsSlot_example : IsSlot (unused ∷ []) (arp_slot (unused ∷ []))
arp_slot-IsSlot_example = arp_slot-IsSlot (unused ∷ []) (omega arith)

abbrev nobody : List Pend
nobody = replicate 4 (record { dst = 0; len = 0; active = false; frame = [] })

ip_pending_sent_example :
    let pkt = ip_packet asker 0x0a000002 17 (1 ∷ []) in
    let kept = keep nobody 0x0a000002 pkt in
    (ip_output asker empty nobody 0x0a000002 17 (1 ∷ [])
      ≡ waits
          (eth_output asker broadcast eth_arp (arp_build asker 1 broadcast 0x0a000001 0x0a000002))
          kept)
    × Inserts
        (eth_output asker (mac_of 2) eth_ip pkt)
        (ip_arp_resolved asker 0x0a000002 (mac_of 2) nobody).0
        (ip_arp_resolved asker 0x0a000002 (mac_of 2) kept).0
    × NoneWaits 0x0a000002 (ip_arp_resolved asker 0x0a000002 (mac_of 2) kept).1
unfolding next_hop arp_find free_slot
ip_pending_sent_example =
    ip_pending_sent asker empty nobody 0x0a000002 17 (1 ∷ []) (mac_of 2) 0 (omega arith) refl refl

abbrev pinging : PingQueue
pinging = record { q = replicate 32 no_reply; head = 31; tail = 0; cnt = 1; tmo = 5; active = true }

ping_between_example :
    let request = echo_request (ip_csum (echo_request 0 7 1)) 7 1 in
    (icmp_input holder empty nobody 9 0x0a000001 request pinging
      ≡ (pinging, some (ip_output holder empty nobody 0x0a000001 1 (echo_reply request))))
    × (icmp_input asker empty nobody 9 0x0a000002 (echo_reply request) pinging ≡ (pinging, none))
unfolding ip_csum complement_sum sum_words fold_carries echo_request request_bytes net_put16
ping_between_example =
    ping_between asker holder empty empty nobody nobody 9 9 0x0a000001 0x0a000002 7 1 pinging
      pinging (λ e. omega (arith, e))

ping_fifo_example :
    Ping.IsValid (ping_push 9 3 7 1 pinging)
    × (contents (ping_push 9 3 7 1 pinging) ≡ contents pinging ++ reply_at 9 3 7 1 pinging ∷ [])
    × ((nt_icmp_recv 4 pinging).0 ≡ no_reply ∷ [])
    × Ping.IsValid (nt_icmp_recv 4 pinging).1
    × (contents (nt_icmp_recv 4 pinging).1 ≡ [])
ping_fifo_example =
    ping_fifo 9 3 7 1 4 pinging
      (record { size = refl; in_ring = omega arith; bounded = omega arith; next = refl })

abbrev bound : UdpPcb
bound = record cleared { active = true; local_port = 53 }

udp_over_ip_example :
    ip_input_udp holder
      (ip_packet asker 0x0a000002 17 (udp_segment 0x0a000001 0x0a000002 4000 53 (1 ∷ 2 ∷ [])))
      (bound ∷ [])
    ≡ deliver holder 0x0a000001 4000 53 (1 ∷ 2 ∷ []) (bound ∷ [])
udp_over_ip_example =
    udp_over_ip asker holder 4000 53 (1 ∷ 2 ∷ []) (bound ∷ []) (omega arith) (omega arith)
      (omega arith) (omega arith) (omega arith, (omega arith, tt)) (omega arith)

udp_fifo_example :
    (p' : UdpPcb) × (udp_recv (udp_rx_put bound (1 ∷ 2 ∷ 3 ∷ []) 0x0a000001 4000) 2
      ≡ received (1 ∷ 2 ∷ []) 0x0a000001 4000 p')
    × Ring.IsValid p'
    × (unread p' ≡ [])
udp_fifo_example =
    udp_fifo bound (1 ∷ 2 ∷ 3 ∷ []) (1 ∷ 2 ∷ 3 ∷ []) [] 0x0a000001 4000 0x0a000001 4000 2
      (record {
        size = length-replicate {A = ℕ} 16384 0;
        ordered = omega arith;
        inside = omega arith;
      })
      (omega arith) (sym (append-nil (stored (1 ∷ 2 ∷ 3 ∷ []) 0x0a000001 4000))) (omega arith)
      (omega arith) (omega arith)

abbrev drained : UdpPcb
drained = record bound { rx_head = 4; rx_tail = 16388 }

udp_drained_drops_example :
    (udp_rx_ready drained ≡ true)
    × ((payload : List ℕ) (saddr sport : ℕ)
        → length payload < 2 ^ 16
        → udp_rx_put drained payload saddr sport ≡ drained)
udp_drained_drops_example = udp_drained_drops drained refl (omega arith) (omega arith)

run-PortsApart_example : PortsApart (run (Ports.bind 0 0 53) (cleared ∷ cleared ∷ []))
unfolding Names
run-PortsApart_example =
    run-PortsApart (Ports.bind 0 0 53) (cleared ∷ cleared ∷ []) (omega arith) both_unused
  where
    both_unused : PortsApart (cleared ∷ cleared ∷ [])
    both_unused zero j n on = absurd cc
    both_unused (suc zero) j n on = absurd cc
    both_unused (suc (suc i)) j n on = absurd cc

-- "ab.c"
abbrev name : List ℕ
name = 97 ∷ 98 ∷ 46 ∷ 99 ∷ []

dns_skip_name_ends_example :
    (dns_skip_name (1 ∷ 97 ∷ 0 ∷ []) 0 ≡ bad)
    ⊎ ((o : ℕ) × (dns_skip_name (1 ∷ 97 ∷ 0 ∷ []) 0 ≡ skipped o) × (0 < o) × (o ≤ 4))
dns_skip_name_ends_example = dns_skip_name_ends (1 ∷ 97 ∷ 0 ∷ []) 0

dns_roundtrip_example :
    dns_parse_answer
      (answer_header 7 129 128 1 0 0
        ++ (drop 12 (query_of 7 (2 ∷ 97 ∷ 98 ∷ 1 ∷ 99 ∷ [])) ++ record_a 60 0x0a000005 []))
      7
    ≡ some 0x0a000005
unfolding dns_build_query label bad_label write_label build_labels
dns_roundtrip_example =
    dns_roundtrip name (query_of 7 (2 ∷ 97 ∷ 98 ∷ 1 ∷ 99 ∷ [])) [] 7 129 128 0 0 0 60 0x0a000005
      refl (omega arith) (omega arith) refl (omega arith)
