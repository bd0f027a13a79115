-- ===== src/Net/Tcp/Input.antt =====
-- `tcp_input` of drivers/net/tcp.c.
use core_z_os.Base.{
  ℕ, ◌+◌, ◌*◌, ◌/◌, ◌%◌, ◌^◌, true, false, not, ◌&&◌, ◌||◌, none, some, List, [], ◌∷◌, ◌++◌, ltb,
  leb, ◌==◌, if◌then◌else◌, length, drop, set,
}
use core_z_os.Net.{Netif, net_be16, net_be32}
use core_z_os.Net.Ip.{tcp_mss}
use core_z_os.Net.Tcp.{
  TcpPcb, listen, syn_sent, syn_rcvd, established, fin_wait1, fin_wait2, close_wait, last_ack,
  time_wait, same_state, Segment, segment, cleared, add32, has, flag_fin, flag_syn, flag_ack,
  tcp_sum, tcp_hdr_len, tcp_init_rto, tcp_backlog,
}
use core_z_os.Net.Tcp.Send.{tcp_iss}
use core_z_os.Net.Tcp.Receive.{ack_segment, tcp_input_established}
use core_z_os.Net.Tcp.Table.{pcb_at, pcb_find, tcp_pcb_alloc}

-- The block of a connection that a listener takes.
unfoldable pub child_of : Netif → (now iss0 : ℕ) → TcpPcb → (saddr sport seq : ℕ) → TcpPcb
child_of ifp now iss0 listener saddr sport seq =
    let iss = tcp_iss now iss0 in
    record cleared {
      active = true;
      state = syn_rcvd;
      local_ip = ifp.ip;
      local_port = listener.local_port;
      remote_ip = saddr;
      remote_port = sport;
      iss = iss;
      irs = seq;
      snd_una = add32 iss 1;
      snd_nxt = add32 iss 1;
      rcv_nxt = add32 seq 1;
      tmo = add32 now tcp_init_rto;
      retry = 0;
    }

-- The listener with a connection at the end of its queue.
unfoldable pub enqueue : TcpPcb → ℕ → TcpPcb
enqueue l idx = record l {
  accept = record {
    q = set l.accept.q l.accept.tail idx;
    head = l.accept.head;
    tail = (l.accept.tail + 1) % tcp_backlog;
    len = l.accept.len + 1;
  };
}

unfoldable pub tcp_accept_child :
    Netif → (now : ℕ) → (i : ℕ) → (saddr sport seq : ℕ) → List TcpPcb → List TcpPcb × List Segment
tcp_accept_child ifp now i saddr sport seq pcbs =
    let listener = pcb_at pcbs i in
    let (slot, allocated) = tcp_pcb_alloc pcbs in
    if leb tcp_backlog listener.accept.len then (pcbs, []) else elim slot [
      | none ↦ (pcbs, [])
      | some idx ↦
          let child = child_of ifp now (pcb_at allocated 0).iss listener saddr sport seq in
          (
            set (set allocated idx child) i (enqueue listener idx),
            segment child child.iss child.rcv_nxt (flag_syn + flag_ack) [] ∷ [],
          )
    ]

-- A segment for a connection that is there: what follows `tcp_input_established`.
unfoldable pub after_established : (now flags ack : ℕ) → TcpPcb → TcpPcb × List Segment
after_established now flags ack p =
    if same_state p.state fin_wait1 && has flags flag_fin
    then (record p { state = time_wait; tmo = add32 now 2000 }, ack_segment p ∷ [])
    else if same_state p.state fin_wait1 && has flags flag_ack
    then (record p { state = fin_wait2; retry = 0; tmo = add32 now tcp_init_rto }, [])
    else if same_state p.state fin_wait2 && has flags flag_fin
    then (record p { state = time_wait; tmo = add32 now 2000 }, ack_segment p ∷ [])
    else if same_state p.state close_wait
    then (
      record p {
        state = last_ack;
        snd_nxt = add32 p.snd_nxt 1;
        tmo = add32 now tcp_init_rto;
        retry = 0;
      },
      segment p p.snd_nxt p.rcv_nxt (flag_ack + flag_fin) [] ∷ [],
    )
    else if same_state p.state last_ack && has flags flag_ack && (ack == p.snd_nxt)
    then (record p { active = false }, [])
    else (p, [])

-- A segment for a block that does not listen, by the block's state.
unfoldable pub tcp_segment : (now seq ack flags wnd : ℕ) → List ℕ → TcpPcb → TcpPcb × List Segment
tcp_segment now seq ack flags wnd payload p0 =
    let p = record p0 { snd_wnd = if not (wnd == 0) then wnd else tcp_mss } in
    let opened = record p {
      irs = seq;
      rcv_nxt = add32 seq 1;
      snd_una = ack;
      snd_nxt = ack;
      state = established;
      retry = 0;
      tmo = 0;
    } in
    let first = tcp_input_established now opened (add32 seq 1) flags payload ack in
    let second =
      tcp_input_established now (record p { state = established; retry = 0; tmo = 0 }) seq flags
        payload ack in
    let (q, segs) = tcp_input_established now p seq flags payload ack in
    let (r, more) = after_established now flags ack q in
    if same_state p.state syn_sent
    then (if has flags flag_syn && has flags flag_ack
        then (first.0, ack_segment opened ∷ first.1)
        else (p, []))
    else if same_state p.state syn_rcvd
    then (if has flags flag_ack && (ack == p.snd_nxt) then second else (p, []))
    else (r, segs ++ more)

-- The part behind the checks: the block that the segment is for, or its listener, takes it.
unfoldable pub to_block :
    Netif
    → (now src sport dport seq ack flags wnd : ℕ) → List ℕ
    → List TcpPcb
    → List TcpPcb × List Segment
to_block ifp now src sport dport seq ack flags wnd payload pcbs =
    elim (pcb_find ifp.ip dport src sport pcbs) [
      | none ↦ (pcbs, [])
      | some i ↦
          let p = pcb_at pcbs i in
          let (q, segs) = tcp_segment now seq ack flags wnd payload p in
          if same_state p.state listen
          then (if has flags flag_syn && not (has flags flag_ack)
              then tcp_accept_child ifp now i src sport seq pcbs
              else (pcbs, []))
          else (set pcbs i q, segs)
    ]

unfoldable pub tcp_input : Netif → (now src : ℕ) → List ℕ → List TcpPcb → List TcpPcb × List Segment
tcp_input ifp now src pkt pcbs =
    let hlen = net_be16 pkt 12 / 2 ^ 12 * 4 in
    if ltb (length pkt) tcp_hdr_len
    then (pcbs, [])
    else if ltb hlen tcp_hdr_len || ltb (length pkt) hlen
    then (pcbs, [])
    else if not (tcp_sum pkt src ifp.ip == 0)
    then (pcbs, [])
    else to_block ifp now src (net_be16 pkt 0) (net_be16 pkt 2) (net_be32 pkt 4) (net_be32 pkt 8)
        (net_be16 pkt 12 % 256) (net_be16 pkt 14) (drop hlen pkt) pcbs
