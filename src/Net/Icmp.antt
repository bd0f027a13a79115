-- ===== src/Net/Icmp.antt =====
-- drivers/net/icmp.c: echo requests and replies, and the replies that wait for who pinged. What a
-- function does under `net_lock` and after it is one step; `now` is what `net_now_ms` gives.
pub mod Echo
pub mod Ping
pub mod Between
use core_z_os.Base.{
  ℕ, zero, suc, ◌+◌, ◌-◌, ◌%◌, ◌^◌, Bool, true, false, not, ◌&&◌, ◌||◌, Option, none, some, List,
  [], ◌∷◌, ◌++◌, ltb, leb, ◌==◌, if◌then◌else◌, length, take, drop, set, get_or, min,
}
use core_z_os.Net.{Netif, byte_at, net_be16, net_put16}
use core_z_os.Net.Checksum.{ip_csum}
use core_z_os.Net.Arp.{Arp}
use core_z_os.Net.Ip.{Pend, Outcome, ip_output}

abbrev pub ping_queue_max : ℕ
ping_queue_max = 32

abbrev pub icmp_hdr_len : ℕ
icmp_hdr_len = 8

-- `struct NET_PING_REPLY`.
pub record NetPingReply : Type 0 where
  pub src : ℕ
  pub id : ℕ
  pub seq : ℕ
  pub rtt_ms : ℕ

-- The `s_ping_` statics.
pub record PingQueue : Type 0 where
  pub q : List NetPingReply
  pub head : ℕ
  pub tail : ℕ
  pub cnt : ℕ
  pub tmo : ℕ
  pub active : Bool

unfoldable pub ping_push : ℕ → ℕ → ℕ → ℕ → PingQueue → PingQueue
ping_push now src id seq p = if leb ping_queue_max p.cnt then p else record p {
  q =
      set p.q p.tail
        (record { src = src; id = id; seq = seq; rtt_ms = (now + 2 ^ 32 - p.tmo) % 2 ^ 32 });
  tail = (p.tail + 1) % ping_queue_max;
  cnt = p.cnt + 1;
  active = false;
}

-- The reply that is built from a request.
unfoldable pub echo_reply : List ℕ → List ℕ
unfolding net_put16
echo_reply pkt =
    let rlen = if ltb (length pkt) 64 then length pkt else 64 in
    let reply = 0 ∷ 0 ∷ drop 2 (take rlen pkt) in 0 ∷ 0 ∷ net_put16 (ip_csum reply) ++ drop 4 reply

-- The queue, and what the call of `ip_output` gives where a reply is sent.
unfoldable pub icmp_input :
    Netif → Arp → List Pend → ℕ → ℕ → List ℕ → PingQueue → PingQueue × Option Outcome
icmp_input ifp arp pend now src pkt p =
    let type = byte_at pkt 0 in
    let code = byte_at pkt 1 in
    if ltb (length pkt) icmp_hdr_len
    then (p, none)
    else if not (ip_csum pkt == 0)
    then (p, none)
    else if (type == 8) && (code == 0)
    then (p, some (ip_output ifp arp pend src 1 (echo_reply pkt)))
    else if (type == 0) && (code == 0)
    then (if p.active then ping_push now src (net_be16 pkt 4) (net_be16 pkt 6) p else p, none)
    else (p, none)

-- The bytes of a request from the offset i on, n of them.
unfoldable pub request_bytes : ℕ → ℕ → List ℕ
request_bytes i zero = []
request_bytes i (suc n) = (0x41 + i % 32) % 256 ∷ request_bytes (i + 1) n

unfoldable pub echo_request : ℕ → ℕ → ℕ → List ℕ
unfolding net_put16
echo_request csum id seq =
    8 ∷ 0 ∷ net_put16 csum ++ (net_put16 id ++ (net_put16 seq ++ request_bytes 8 56))

-- None is the -1 for an address that cannot be pinged.
unfoldable pub nt_icmp_send :
    Netif → Arp → List Pend → ℕ → ℕ → ℕ → ℕ → PingQueue → PingQueue × Option Outcome
nt_icmp_send ifp arp pend now dst id seq p = if (dst == 0) || (dst == ifp.ip) then (p, none) else (
  record p { tmo = now; active = true },
  some (ip_output ifp arp pend dst 1 (echo_request (ip_csum (echo_request 0 id seq)) id seq)),
)

abbrev pub no_reply : NetPingReply
no_reply = record { src = 0; id = 0; seq = 0; rtt_ms = 0 }

-- At most that many replies, and the queue without them.
unfoldable pub nt_icmp_recv : ℕ → PingQueue → List NetPingReply × PingQueue
nt_icmp_recv zero p = ([], p)
nt_icmp_recv (suc n) p =
    let rest =
      nt_icmp_recv n (record p { head = (p.head + 1) % ping_queue_max; cnt = p.cnt - 1 }) in
    if p.cnt == 0 then ([], p) else (get_or p.q p.head no_reply ∷ rest.0, rest.1)
