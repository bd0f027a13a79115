-- ===== src/Net/Tcp/Send.antt =====
-- The calls of drivers/net/tcp.c that send: `tcp_fire`, `tcp_send`, `tcp_connect`, `tcp_close` and
-- `tcp_shutdown`.
use Prim.Native.Nat.{bit_xor, bit_and}
use core_z_os.Base.{
  ℕ, zero, suc, ◌+◌, ◌*◌, ◌%◌, ◌^◌, Bool, true, false, not, ◌&&◌, ◌||◌, Option, none, some, List,
  [], ◌∷◌, ◌++◌, ltb, ◌==◌, if◌then◌else◌, length, take, drop,
}
use core_z_os.Net.{Netif}
use core_z_os.Net.Ip.{tcp_mss}
use core_z_os.Net.Tcp.{
  TcpPcb, TcpState, closed, syn_sent, established, fin_wait1, close_wait, last_ack, same_state,
  Segment, segment, seq_lt, add32, sub32, negative32, flag_fin, flag_syn, flag_ack, tcp_snd_buf,
  tcp_init_rto, tcp_max_retry,
}

-- How many bytes go into the next segment.
unfoldable pub next_len : ℕ → ℕ → ℕ
next_len avail window =
    let seg = if ltb tcp_mss avail then tcp_mss else avail in if ltb window seg then window else seg

-- The test of the loop of `tcp_fire`, and of what it sends next.
unfoldable pub may_send : TcpPcb → ℕ → ℕ → ℕ → Bool
may_send p window limit cursor =
    let sent = sub32 cursor p.snd_una in
    seq_lt cursor limit
    && (negative32 sent || ltb sent (window + 1))
    && not (next_len (sub32 limit cursor) window == 0)

-- The loop, and where its cursor ends.
unfoldable pub fire_loop : ℕ → TcpPcb → ℕ → ℕ → ℕ → List Segment × ℕ
fire_loop zero p window limit cursor = ([], cursor)
fire_loop (suc fuel) p window limit cursor =
    let seg = next_len (sub32 limit cursor) window in
    let rest = fire_loop fuel p window limit (add32 cursor seg) in
    if may_send p window limit cursor
    then (
      segment p cursor p.rcv_nxt flag_ack (take seg (drop (sub32 cursor p.snd_una) p.txb)) ∷ rest.0,
      rest.1,
    )
    else ([], cursor)

abbrev pub window_of : TcpPcb → ℕ
window_of p = if p.snd_wnd == 0 then tcp_mss else p.snd_wnd

unfoldable pub tcp_fire : ℕ → TcpPcb → TcpPcb × List Segment
tcp_fire now p =
    let (segs, cursor) =
      fire_loop (tcp_snd_buf + 1) p (window_of p) (add32 p.snd_una p.tx_len) p.snd_nxt in
    if ltb p.snd_nxt cursor
    then (
      record p {
        snd_nxt = cursor;
        tmo = add32 now tcp_init_rto;
        retry = if ltb p.retry tcp_max_retry then p.retry + 1 else p.retry;
      },
      segs,
    )
    else (p, segs)

-- The bytes are copied behind those that wait.
unfoldable pub tx_put : List ℕ → ℕ → List ℕ → List ℕ
tx_put txb tx_len payload = take tx_len txb ++ (payload ++ drop (tx_len + length payload) txb)

-- None is -1.
unfoldable pub tcp_send : ℕ → TcpPcb → List ℕ → Option (TcpPcb × List Segment)
tcp_send now p payload =
    if not (same_state p.state established) || (length payload == 0)
    then none
    else if ltb (sub32 tcp_snd_buf p.tx_len) (length payload)
    then none
    else some (
        tcp_fire now
          (record p { txb = tx_put p.txb p.tx_len payload; tx_len = p.tx_len + length payload }))

-- A port for a block that has none, made of the time and of an address on the stack.
unfoldable pub ephemeral_port : ℕ → ℕ → ℕ
ephemeral_port now stack = (bit_xor now stack % 0x8000 + 1024) % 20000 + 10000

-- `iss0` is the `iss` of the first block.
unfoldable pub tcp_iss : ℕ → ℕ → ℕ
tcp_iss now iss0 = bit_xor now (iss0 * 8 % 2 ^ 32)

unfoldable pub tcp_connect : Netif → (now iss0 stack : ℕ) → TcpPcb → ℕ → ℕ → TcpPcb × List Segment
tcp_connect ifp now iss0 stack p ip port =
    let iss = tcp_iss now iss0 in
    let q = record p {
      local_ip = ifp.ip;
      local_port = if p.local_port == 0 then ephemeral_port now stack else p.local_port;
      remote_ip = ip;
      remote_port = port;
      iss = iss;
      snd_una = add32 iss 1;
      snd_nxt = add32 iss 1;
      rcv_nxt = 0;
      state = syn_sent;
      tx_len = 0;
      tmo = add32 now tcp_init_rto;
      retry = 0;
    } in
    (q, segment q iss 0 flag_syn [] ∷ [])

-- A FIN goes out, and the block takes the state.
unfoldable pub send_fin : ℕ → TcpPcb → TcpState → TcpPcb × List Segment
send_fin now p state = (
  record p {
    state = state;
    fin_sent = true;
    snd_nxt = add32 p.snd_nxt 1;
    tmo = add32 now tcp_init_rto;
    retry = 0;
  },
  segment p p.snd_nxt p.rcv_nxt (flag_fin + flag_ack) [] ∷ [],
)

-- None is -1.
unfoldable pub tcp_close : ℕ → TcpPcb → Option (TcpPcb × List Segment)
tcp_close now p =
    if same_state p.state established
    then some (send_fin now p fin_wait1)
    else if same_state p.state syn_sent || same_state p.state closed
    then some (record p { state = closed; active = false }, [])
    else none

-- As includes/drivers/net/socket.h has them.
abbrev pub shut_rd : ℕ
shut_rd = 0

abbrev pub shut_wr : ℕ
shut_wr = 1

abbrev pub shut_rdwr : ℕ
shut_rdwr = 2

unfoldable pub tcp_shutdown : ℕ → ℕ → TcpPcb → TcpPcb × List Segment
tcp_shutdown how now p =
    let wr = not (bit_and how shut_wr == 0) in
    let (q, segs) =
      if wr && same_state p.state established
      then send_fin now p fin_wait1
      else if wr && same_state p.state close_wait
      then send_fin now p last_ack
      else (p, []) in
    (if not (bit_and how shut_rd == 0) then record q { fin_rcvd = true } else q, segs)
