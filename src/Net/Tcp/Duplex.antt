-- ===== src/Net/Tcp/Duplex.antt =====
-- Two ends of a connection of drivers/net/tcp.c with a network between them, and how they open it.
-- The network may lose, hold back, repeat and reorder segments: a step takes any segment that the
-- other end has sent so far, or none. No step calls `tcp_close` or `tcp_shutdown`: this is a connection
-- while it is open, and Net.Tcp.EarlyFin has what a FIN does.
use core_z_os.Base.{ℕ, ◌+◌, ◌≡◌, true, some, List, [], ◌∷◌, ◌++◌}
use core_z_os.Net.{Netif}
use core_z_os.Net.Tcp.{TcpPcb, Segment, segment, cleared, flag_syn, flag_ack}
use core_z_os.Net.Tcp.Send.{tcp_send, tcp_connect}
use core_z_os.Net.Tcp.Receive.{tcp_recv}
use core_z_os.Net.Tcp.Input.{child_of, tcp_segment}
use core_z_os.Net.Tcp.Tick.{tick_pcb}

-- What a segment does to the block that it is for.
abbrev pub arrive : ℕ → Segment → TcpPcb → TcpPcb × List Segment
arrive now x p = tcp_segment now x.seq x.ack x.flags x.wnd x.payload p

-- An end: its block, the bytes that `tcp_send` has taken from its program, those that `tcp_recv` has
-- given to it, and the segments that it has sent.
pub record End : Type 0 where
  pub pcb : TcpPcb
  pub written : List ℕ
  pub taken : List ℕ
  pub sent : List Segment

abbrev pub start : TcpPcb → End
start p = record { pcb = p; written = []; taken = []; sent = [] }

pub data IsAmong (x : Segment) : List Segment → Type 0 where
  first : {xs : List Segment} → IsAmong x (x ∷ xs)
  later : {y : Segment} {xs : List Segment} → IsAmong x xs → IsAmong x (y ∷ xs)

-- What an end does while the other one has sent the segments `net`.
pub data Move (net : List Segment) (e : End) : End → Type 0 where
  send :
      (now : ℕ) (payload : List ℕ) (q : TcpPcb) (segs : List Segment)
      → tcp_send now e.pcb payload ≡ some (q, segs)
      → Move net e (record {
        pcb = q;
        written = e.written ++ payload;
        taken = e.taken;
        sent = e.sent ++ segs;
      })
  recv :
      (len : ℕ) (bytes : List ℕ) (q : TcpPcb) (segs : List Segment)
      → tcp_recv e.pcb len ≡ some (bytes, q, segs)
      → Move net e
          (record { pcb = q; written = e.written; taken = e.taken ++ bytes; sent = e.sent ++ segs })
  timer :
      (now : ℕ)
      → Move net e
          (record e { pcb = (tick_pcb now e.pcb).0; sent = e.sent ++ (tick_pcb now e.pcb).1 })
  input :
      (now : ℕ) (x : Segment)
      → IsAmong x net
      → Move net e
          (record e { pcb = (arrive now x e.pcb).0; sent = e.sent ++ (arrive now x e.pcb).1 })

pub data Reach (a b : End) : End → End → Type 0 where
  here : Reach a b a b
  left : {x y x' : End} → Reach a b x y → Move y.sent x x' → Reach a b x' y
  right : {x y y' : End} → Reach a b x y → Move x.sent y y' → Reach a b x y'

-- The three segments that open a connection: the block that connects and the listener's new one,
-- after each has got what the other sent. Times and `iss0` are those that each side reads.
pub record Opening : Type 0 where
  pub client_if : Netif
  pub server_if : Netif
  pub client_time : ℕ
  pub server_time : ℕ
  pub client_iss0 : ℕ
  pub server_iss0 : ℕ
  pub stack : ℕ
  pub answer_time : ℕ
  pub opened_time : ℕ
  pub ip : ℕ
  pub port : ℕ
  pub listener : TcpPcb

abbrev pub connecting : Opening → TcpPcb
connecting o =
    (tcp_connect o.client_if o.client_time o.client_iss0 o.stack (record cleared { active = true })
      o.ip o.port).0

abbrev pub accepting : Opening → TcpPcb
accepting o =
    child_of o.server_if o.server_time o.server_iss0 o.listener (connecting o).local_ip
      (connecting o).local_port (connecting o).iss

abbrev pub syn_ack : Opening → Segment
syn_ack o = segment (accepting o) (accepting o).iss (accepting o).rcv_nxt (flag_syn + flag_ack) []

abbrev pub connected : Opening → TcpPcb × List Segment
connected o = arrive o.answer_time (syn_ack o) (connecting o)

abbrev pub accepted : Opening → TcpPcb × List Segment
accepted o =
    arrive o.opened_time
      (segment (connected o).0 (connected o).0.snd_nxt (connected o).0.rcv_nxt flag_ack [])
      (accepting o)
