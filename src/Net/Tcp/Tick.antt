-- ===== src/Net/Tcp/Tick.antt =====
-- `tcp_tick` of drivers/net/tcp.c, the timers.
use core_z_os.Base.{
  ℕ, zero, suc, ◌+◌, ◌*◌, ◌%◌, ◌^◌, Bool, false, not, ◌&&◌, ◌||◌, List, [], ◌∷◌, ◌++◌, ltb, leb,
  ◌==◌, if◌then◌else◌, length, take, drop, set, get_or,
}
use core_z_os.Net.Ip.{tcp_mss}
use core_z_os.Net.Tcp.{
  TcpPcb, listen, syn_sent, syn_rcvd, fin_wait1, last_ack, time_wait, same_state, Segment, segment,
  add32, sub32, negative32, seq_lt, flag_fin, flag_syn, flag_ack, tcp_init_rto, tcp_max_retry,
  tcp_backlog, tcp_snd_buf,
}
use core_z_os.Net.Tcp.Table.{pcb_at}

-- The time is up.
abbrev pub is_due : ℕ → ℕ → Bool
is_due now tmo = not (negative32 (sub32 now tmo))

-- A connection in a listener's queue.
unfoldable pub tick_child : ℕ → TcpPcb → TcpPcb × List Segment
tick_child now c =
    let retry = (c.retry + 1) % 256 in
    if c.active && same_state c.state syn_rcvd && not (c.retry == 0) && is_due now c.tmo
    then (
      record c {
        tmo = add32 now (tcp_init_rto * c.retry);
        retry = retry;
        active = not (ltb tcp_max_retry retry);
      },
      segment c c.iss c.rcv_nxt (flag_syn + flag_ack) [] ∷ [],
    )
    else (c, [])

-- The loop over the queue of the listener at the place i, from h on.
unfoldable pub tick_queue : ℕ → ℕ → ℕ → ℕ → List TcpPcb → List TcpPcb × List Segment
tick_queue zero now i h pcbs = (pcbs, [])
tick_queue (suc fuel) now i h pcbs =
    let a = (pcb_at pcbs i).accept in
    let idx = get_or a.q h 0 in
    let (c, segs) = tick_child now (pcb_at pcbs idx) in
    let (rest, more) = tick_queue fuel now i ((h + 1) % tcp_backlog) (set pcbs idx c) in
    if h == a.tail then (pcbs, []) else (rest, segs ++ more)

-- The loop that sends again what is not acknowledged, from the cursor on.
unfoldable pub resend_loop : ℕ → TcpPcb → ℕ → ℕ → List Segment
resend_loop zero p limit cursor = []
resend_loop (suc fuel) p limit cursor =
    let left = sub32 limit cursor in
    let seg = if ltb tcp_mss left then tcp_mss else left in
    let rest = resend_loop fuel p limit (add32 cursor seg) in
    if seq_lt cursor limit
    then segment p cursor p.rcv_nxt flag_ack (take seg (drop (sub32 cursor p.snd_una) p.txb)) ∷ rest
    else []

-- A block that does not listen.
unfoldable pub tick_pcb : ℕ → TcpPcb → TcpPcb × List Segment
tick_pcb now p =
    let retry = (p.retry + 1) % 256 in
    let dead : TcpPcb × List Segment = (record p { retry = retry; active = false }, []) in
    if not p.active || (p.tmo == 0) || not (is_due now p.tmo)
    then (p, [])
    else if same_state p.state syn_sent
    then (if leb tcp_max_retry p.retry then (record p { active = false }, []) else (
      record p { tmo = add32 now tcp_init_rto; retry = 1 },
      segment p p.iss 0 flag_syn [] ∷ [],
    ))
    else if seq_lt p.snd_una p.snd_nxt
    then (if ltb tcp_max_retry retry then dead else (
      record p { retry = retry; tmo = add32 now (tcp_init_rto * 2 ^ retry) },
      resend_loop (tcp_snd_buf + 1) p (add32 p.snd_una p.tx_len) p.snd_una,
    ))
    else if same_state p.state fin_wait1 || same_state p.state last_ack
    then (if ltb tcp_max_retry retry then dead else (
      record p { retry = retry; tmo = add32 now (tcp_init_rto * retry) },
      segment p p.snd_nxt p.rcv_nxt (flag_ack + flag_fin) [] ∷ [],
    ))
    else if same_state p.state time_wait
    then (record p { active = false }, [])
    else (p, [])

-- The block at the place i.
unfoldable pub tick_at : ℕ → ℕ → List TcpPcb → List TcpPcb × List Segment
tick_at now i pcbs =
    let p = pcb_at pcbs i in
    let (q, segs) = tick_pcb now p in
    if not p.active
    then (pcbs, [])
    else if same_state p.state listen
    then tick_queue tcp_backlog now i p.accept.head pcbs
    else (set pcbs i q, segs)

-- The n blocks from the place i on.
unfoldable pub tick_from : ℕ → ℕ → ℕ → List TcpPcb → List TcpPcb × List Segment
tick_from zero now i pcbs = (pcbs, [])
tick_from (suc n) now i pcbs =
    let (one, segs) = tick_at now i pcbs in
    let (all, more) = tick_from n now (suc i) one in (all, segs ++ more)

unfoldable pub tcp_tick : ℕ → List TcpPcb → List TcpPcb × List Segment
tcp_tick now pcbs = tick_from (length pcbs) now 0 pcbs
