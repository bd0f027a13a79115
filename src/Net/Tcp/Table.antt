-- ===== src/Net/Tcp/Table.antt =====
-- The table of blocks of drivers/net/tcp.c, and listeners. A block is named by its place.
use core_z_os.Base.{
  ℕ, zero, suc, ◌+◌, ◌-◌, ◌%◌, Bool, true, false, not, ◌&&◌, ◌||◌, Option, none, some, List, [],
  ◌∷◌, ltb, ◌==◌, if◌then◌else◌, set, get_or,
}
use core_z_os.Net.Tcp.{
  TcpPcb, listen, established, same_state, AcceptQueue, cleared, tcp_backlog, max_tcp_pcb,
}

abbrev pub pcb_at : List TcpPcb → ℕ → TcpPcb
pcb_at pcbs i = get_or pcbs i cleared

-- The connection that a segment is for.
unfoldable pub is_peer : ℕ → ℕ → ℕ → ℕ → TcpPcb → Bool
is_peer daddr dport saddr sport p =
    (p.remote_port == sport)
    && (p.remote_ip == saddr)
    && (p.local_port == dport)
    && ((p.local_ip == 0) || (p.local_ip == daddr))

-- The loop of `pcb_find`, from the place i on, with the listener that it has found so far.
unfoldable pub find_from : ℕ → ℕ → ℕ → ℕ → List TcpPcb → ℕ → Option ℕ → Option ℕ
find_from daddr dport saddr sport [] i any = any
find_from daddr dport saddr sport (p ∷ ps) i any =
    let next =
      find_from daddr dport saddr sport ps (suc i) (
        if p.active && same_state p.state listen && (p.local_port == dport) then some i else any) in
    if p.active && not (same_state p.state listen) && is_peer daddr dport saddr sport p
    then some i
    else next

unfoldable pub pcb_find : ℕ → ℕ → ℕ → ℕ → List TcpPcb → Option ℕ
pcb_find daddr dport saddr sport pcbs = find_from daddr dport saddr sport pcbs 0 none

unfoldable pub free_pcb : List TcpPcb → Option ℕ
free_pcb [] = none
free_pcb (p ∷ ps) =
    if not p.active then some 0 else elim (free_pcb ps) [ none ↦ none | some i ↦ some (suc i) ]

unfoldable pub tcp_pcb_alloc : List TcpPcb → Option ℕ × List TcpPcb
tcp_pcb_alloc pcbs = elim (free_pcb pcbs) [
  | none ↦ (none, pcbs)
  | some i ↦ (some i, set pcbs i (record cleared { active = true }))
]

unfoldable pub tcp_pcb_free : ℕ → List TcpPcb → List TcpPcb
tcp_pcb_free i pcbs = set pcbs i (record (pcb_at pcbs i) { active = false })

-- Another active block has the port; j is the place of the first block of the list.
unfoldable pub port_taken : ℕ → ℕ → ℕ → List TcpPcb → Bool
port_taken port i j [] = false
port_taken port i j (o ∷ os) =
    (o.active && not (j == i) && (o.local_port == port)) || port_taken port i (suc j) os

-- None is -1.
unfoldable pub tcp_bind : ℕ → ℕ → List TcpPcb → Option (List TcpPcb)
tcp_bind i port pcbs =
    if port_taken port i 0 pcbs
    then none
    else some (set pcbs i (record (pcb_at pcbs i) { local_port = port; local_ip = 0 }))

-- None is -1.
unfoldable pub tcp_listen : TcpPcb → Option TcpPcb
tcp_listen p =
    if p.local_port == 0
    then none
    else some (record p {
      state = listen;
      accept = record { q = p.accept.q; head = 0; tail = 0; len = 0 };
    })

-- The k-th place of the queue, and whether the connection there can be accepted.
unfoldable pub queued : AcceptQueue → ℕ → ℕ
queued a k = get_or a.q ((a.head + k) % tcp_backlog) 0

unfoldable pub acceptable : List TcpPcb → ℕ → Bool
acceptable pcbs idx =
    ltb idx max_tcp_pcb
    && (pcb_at pcbs idx).active
    && same_state (pcb_at pcbs idx).state established

-- The first of the n places from k on with such a connection.
unfoldable pub first_acceptable : List TcpPcb → AcceptQueue → ℕ → ℕ → Option ℕ
first_acceptable pcbs a zero k = none
first_acceptable pcbs a (suc n) k =
    let next = first_acceptable pcbs a n (suc k) in
    if acceptable pcbs (queued a k) then some k else next

unfoldable pub tcp_accept_ready : List TcpPcb → TcpPcb → Bool
tcp_accept_ready pcbs p =
    if not (same_state p.state listen) || (p.accept.len == 0)
    then false
    else elim (first_acceptable pcbs p.accept p.accept.len 0) [ none ↦ false | some k ↦ true ]

-- The n places behind m move up by one.
unfoldable pub move_up : ℕ → ℕ → AcceptQueue → AcceptQueue
move_up zero m a = a
move_up (suc n) m a =
    move_up n (suc m) (record a { q = set a.q ((a.head + m) % tcp_backlog) (queued a (m + 1)) })

-- The connection that is accepted, and the listener.
unfoldable pub tcp_accept : List TcpPcb → TcpPcb → Option (ℕ × TcpPcb)
tcp_accept pcbs p =
    if not (same_state p.state listen) || (p.accept.len == 0)
    then none
    else elim (first_acceptable pcbs p.accept p.accept.len 0) [
      | none ↦ none
      | some k ↦
          let moved = move_up (p.accept.len - 1 - k) k p.accept in
          some (
            queued p.accept k,
            record p {
              accept = record moved {
                len = p.accept.len - 1;
                tail = (p.accept.tail + tcp_backlog - 1) % tcp_backlog;
              };
            },
          )
    ]
