-- ===== src/Net/Tcp.antt =====
-- drivers/net/tcp.c: a connection's control block, sequence numbers and segments. A function works
-- on the block that it is handed, and gives the segments that it hands to `tcp_emit`, in their
-- order; what it does under `net_lock` and after it is one step. `now` is what `net_now_ms` gives.
pub mod Send
pub mod Receive
pub mod Table
pub mod Input
pub mod Tick
pub mod Ring
pub mod Stream
pub mod Take
pub mod Sender
pub mod Keeps
pub mod Established
pub mod Duplex
pub mod Delivery
pub mod Handshake
pub mod Wire
pub mod Oversize
pub mod Recover
pub mod Halfopen
pub mod Ends
pub mod EarlyFin
mod Tests
use core_z_os.Base.{
  ℕ, zero, suc, ◌+◌, ◌-◌, ◌*◌, ◌/◌, ◌%◌, ◌^◌, Bool, true, false, not, ◌&&◌, ◌||◌, Option, none,
  some, List, [], ◌∷◌, ◌++◌, ltb, leb, ◌==◌, if◌then◌else◌, length, take, drop, set, get_or,
  replicate,
}
use core_z_os.Net.{Netif, byte_at, net_be16, net_be32, net_put16, net_put32}
use core_z_os.Net.Checksum.{sum_words, complement_sum}
use core_z_os.Net.Arp.{Arp}
use core_z_os.Net.Ip.{Pend, Outcome, refused, ip_output, tcp_mss}

abbrev pub tcp_hdr_len : ℕ
tcp_hdr_len = 20

abbrev pub tcp_rcv_buf : ℕ
tcp_rcv_buf = 4096

abbrev pub tcp_snd_buf : ℕ
tcp_snd_buf = 8192

abbrev pub tcp_backlog : ℕ
tcp_backlog = 8

abbrev pub max_tcp_pcb : ℕ
max_tcp_pcb = 64

abbrev pub tcp_init_rto : ℕ
tcp_init_rto = 1000

abbrev pub tcp_max_retry : ℕ
tcp_max_retry = 5

abbrev pub flag_fin : ℕ
flag_fin = 1

abbrev pub flag_syn : ℕ
flag_syn = 2

abbrev pub flag_rst : ℕ
flag_rst = 4

abbrev pub flag_ack : ℕ
flag_ack = 16

-- `flags & bit`, for a power of two.
abbrev pub has : ℕ → ℕ → Bool
has flags bit = flags / bit % 2 == 1

pub data TcpState : Type 0 where
  closed : TcpState
  listen : TcpState
  syn_sent : TcpState
  syn_rcvd : TcpState
  established : TcpState
  fin_wait1 : TcpState
  fin_wait2 : TcpState
  closing : TcpState
  time_wait : TcpState
  close_wait : TcpState
  last_ack : TcpState

-- `a == b` on states.
unfoldable pub same_state : TcpState → TcpState → Bool
same_state closed closed = true
same_state listen listen = true
same_state syn_sent syn_sent = true
same_state syn_rcvd syn_rcvd = true
same_state established established = true
same_state fin_wait1 fin_wait1 = true
same_state fin_wait2 fin_wait2 = true
same_state closing closing = true
same_state time_wait time_wait = true
same_state close_wait close_wait = true
same_state last_ack last_ack = true
same_state a b = false

-- The fields of a block that are the queue of a listener.
pub record AcceptQueue : Type 0 where
  pub q : List ℕ
  pub head : ℕ
  pub tail : ℕ
  pub len : ℕ

-- Its ring of received bytes; the two positions have 16 bits.
pub record Rx : Type 0 where
  pub buf : List ℕ
  pub head : ℕ
  pub tail : ℕ

-- `struct TCP_PCB`.
pub record TcpPcb : Type 0 where
  pub active : Bool
  pub state : TcpState
  pub local_ip : ℕ
  pub local_port : ℕ
  pub remote_ip : ℕ
  pub remote_port : ℕ
  pub iss : ℕ
  pub irs : ℕ
  pub snd_una : ℕ
  pub snd_nxt : ℕ
  pub rcv_nxt : ℕ
  pub snd_wnd : ℕ
  pub tmo : ℕ
  pub retry : ℕ
  pub accept : AcceptQueue
  pub rx : Rx
  pub txb : List ℕ
  pub tx_len : ℕ
  pub fin_sent : Bool
  pub fin_rcvd : Bool

abbrev pub cleared : TcpPcb
cleared = record {
  active = false;
  state = closed;
  local_ip = 0;
  local_port = 0;
  remote_ip = 0;
  remote_port = 0;
  iss = 0;
  irs = 0;
  snd_una = 0;
  snd_nxt = 0;
  rcv_nxt = 0;
  snd_wnd = 0;
  tmo = 0;
  retry = 0;
  accept = record { q = replicate tcp_backlog 0; head = 0; tail = 0; len = 0 };
  rx = record { buf = replicate tcp_rcv_buf 0; head = 0; tail = 0 };
  txb = replicate tcp_snd_buf 0;
  tx_len = 0;
  fin_sent = false;
  fin_rcvd = false;
}

unfoldable pub tcp_init : List TcpPcb
tcp_init = replicate max_tcp_pcb cleared

-- Sums and differences of `uint32_t`.
abbrev pub add32 : ℕ → ℕ → ℕ
add32 a b = (a + b) % 2 ^ 32

abbrev pub sub32 : ℕ → ℕ → ℕ
sub32 a b = (a + 2 ^ 32 - b) % 2 ^ 32

-- A `uint32_t` that is negative as an `int32_t`.
abbrev pub negative32 : ℕ → Bool
negative32 x = leb (2 ^ 31) x

unfoldable pub seq_lt : ℕ → ℕ → Bool
seq_lt a b = negative32 (sub32 a b)

unfoldable pub tcp_sum : List ℕ → ℕ → ℕ → ℕ
tcp_sum seg saddr daddr =
    let sum =
      saddr / 2 ^ 16 % 2 ^ 16
      + saddr % 2 ^ 16
      + daddr / 2 ^ 16 % 2 ^ 16
      + daddr % 2 ^ 16
      + 6
      + length seg in
    complement_sum (sum_words (sum % 2 ^ 32) seg)

-- How many bytes wait in the ring, and how many more fit.
unfoldable pub tcp_rx_len : Rx → ℕ
tcp_rx_len rx = (rx.tail + 2 ^ 16 - rx.head) % 2 ^ 16

-- An `int`, read as the `uint32_t` that it is compared as.
unfoldable pub tcp_rx_room : Rx → ℕ
tcp_rx_room rx = sub32 tcp_rcv_buf (tcp_rx_len rx)

-- What a call of `tcp_emit` puts into a segment.
pub record Segment : Type 0 where
  pub sport : ℕ
  pub dport : ℕ
  pub saddr : ℕ
  pub daddr : ℕ
  pub seq : ℕ
  pub ack : ℕ
  pub flags : ℕ
  pub wnd : ℕ
  pub payload : List ℕ

-- The segment that `tcp_emit` makes for a block.
unfoldable pub segment : TcpPcb → ℕ → ℕ → ℕ → List ℕ → Segment
segment p seq ack flags payload = record {
  sport = p.local_port;
  dport = p.remote_port;
  saddr = p.local_ip;
  daddr = p.remote_ip;
  seq = seq;
  ack = ack;
  flags = flags;
  wnd = (tcp_rcv_buf + 2 ^ 16 - tcp_rx_len p.rx) % 2 ^ 16;
  payload = payload;
}

unfoldable pub tcp_header : Segment → ℕ → List ℕ
tcp_header s csum =
    net_put16 s.sport
    ++ (net_put16 s.dport
        ++ (net_put32 s.seq
            ++ (net_put32 s.ack
                ++ (net_put16 (5 * 2 ^ 12 + s.flags)
                    ++ (net_put16 s.wnd ++ (net_put16 csum ++ net_put16 0))))))

-- The bytes of a segment.
unfoldable pub segment_bytes : Segment → List ℕ
segment_bytes s = tcp_header s (tcp_sum (tcp_header s 0 ++ s.payload) s.saddr s.daddr) ++ s.payload

-- `refused` is -1.
unfoldable pub tcp_emit : Netif → Arp → List Pend → Segment → Outcome
tcp_emit ifp arp pend s =
    if ltb (tcp_hdr_len + tcp_mss) (tcp_hdr_len + length s.payload)
    then refused
    else ip_output ifp arp pend s.daddr 6 (segment_bytes s)
