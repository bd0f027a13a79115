-- ===== src/Net/Tcp/Receive.antt =====
-- The ring of received bytes of drivers/net/tcp.c, `tcp_recv`, and `tcp_input_established`.
use core_z_os.Base.{
  ℕ, zero, suc, ◌+◌, ◌-◌, ◌%◌, ◌^◌, Bool, true, false, not, ◌&&◌, Option, none, some, List, [], ◌∷◌,
  ◌++◌, ltb, leb, ◌==◌, if◌then◌else◌, length, take, drop, set, get_or,
}
use core_z_os.Net.Ip.{tcp_mss}
use core_z_os.Net.Tcp.{
  TcpPcb, closed, established, close_wait, same_state, Segment, segment, Rx, seq_lt, add32, sub32,
  negative32, has, flag_fin, flag_syn, flag_rst, flag_ack, tcp_rcv_buf, tcp_rx_len, tcp_rx_room,
}
use core_z_os.Net.Tcp.Send.{tcp_fire}

unfoldable pub tcp_rx_put : Rx → List ℕ → Rx
tcp_rx_put rx [] = rx
tcp_rx_put rx (b ∷ bs) =
    tcp_rx_put
      (record {
        buf = set rx.buf (rx.tail % tcp_rcv_buf) b;
        head = rx.head;
        tail = (rx.tail + 1) % 2 ^ 16;
      })
      bs

-- The loop of `tcp_recv`.
unfoldable pub rx_take : ℕ → Rx → List ℕ × Rx
rx_take zero rx = ([], rx)
rx_take (suc n) rx =
    let (bytes, rest) = rx_take n (record rx { head = (rx.head + 1) % 2 ^ 16 }) in
    (get_or rx.buf (rx.head % tcp_rcv_buf) 0 ∷ bytes, rest)

-- An acknowledgement of what has been received.
abbrev pub ack_segment : TcpPcb → Segment
ack_segment p = segment p p.snd_nxt p.rcv_nxt flag_ack []

-- The bytes, the block and what is sent; none is -1.
unfoldable pub tcp_recv : TcpPcb → ℕ → Option (List ℕ × TcpPcb × List Segment)
tcp_recv p len =
    let avail = tcp_rx_len p.rx in
    let (bytes, rx) = rx_take (if ltb len avail then len else avail) p.rx in
    let q = record p { rx = rx } in
    let opened =
      ltb (tcp_rx_room p.rx) tcp_mss
      && not (negative32 (tcp_rx_room rx))
      && leb tcp_mss (tcp_rx_room rx)
      && p.active
      && not (p.remote_port == 0) in
    if avail == 0 then none else some (bytes, q, if opened then ack_segment q ∷ [] else [])

-- The bytes that are acknowledged leave the send buffer.
unfoldable pub tx_drop : TcpPcb → ℕ → ℕ → TcpPcb
tx_drop p d ack =
    let all_acked = leb p.snd_nxt ack in
    record p {
      txb = take (p.tx_len - d) (drop d p.txb) ++ drop (p.tx_len - d) p.txb;
      tx_len = p.tx_len - d;
      snd_una = ack;
      retry = if all_acked then 0 else p.retry;
      tmo = if all_acked then 0 else p.tmo;
    }

-- What an acknowledgement does, or none where it is for more than was sent.
unfoldable pub take_ack : ℕ → TcpPcb → ℕ → Option (TcpPcb × List Segment)
take_ack now p ack =
    let acked = sub32 ack p.snd_una in
    let d = if ltb p.tx_len acked then p.tx_len else acked in
    if seq_lt p.snd_nxt ack
    then none
    else if seq_lt p.snd_una ack && not (d == 0)
    then some (tcp_fire now (tx_drop p d ack))
    else some (p, [])

-- The bytes that fit into the ring.
unfoldable pub fitting : Rx → List ℕ → List ℕ
fitting rx fresh =
    if ltb (tcp_rx_room rx) (length fresh) then take (tcp_rx_room rx) fresh else fresh

-- Bytes none of which has come before, with the number of the first: the block with those that fit,
-- and whether these are all; or none where others are wanted first.
unfoldable pub put_fresh : TcpPcb → ℕ → List ℕ → Option (TcpPcb × Bool)
put_fresh p seq fresh =
    let bytes = fitting p.rx fresh in
    if not (length fresh == 0) && not (seq == p.rcv_nxt)
    then none
    else some (
      record p { rx = tcp_rx_put p.rx bytes; rcv_nxt = add32 p.rcv_nxt (length bytes) },
      length bytes == length fresh,
    )

-- The bytes of a segment without those that have come before; none where all of them have.
unfoldable pub take_data : TcpPcb → ℕ → List ℕ → Option (TcpPcb × Bool)
take_data p seq payload =
    let past = sub32 p.rcv_nxt seq in
    if not (length payload == 0) && seq_lt seq p.rcv_nxt
    then (if leb (length payload) past
        then none
        else put_fresh p (add32 seq past) (drop past payload))
    else put_fresh p seq payload

-- How the bytes and a FIN are answered.
unfoldable pub answer_data : TcpPcb → ℕ → ℕ → List ℕ → TcpPcb × List Segment
answer_data p seq flags payload = elim (take_data p seq payload) [
  | none ↦ (p, ack_segment p ∷ [])
  | some (q, whole) ↦
      let r = record q {
        fin_rcvd = true;
        state = if same_state q.state established then close_wait else q.state;
        rcv_nxt = add32 q.rcv_nxt 1;
      } in
      if has flags flag_fin
      then (if whole then (r, ack_segment r ∷ []) else (q, ack_segment q ∷ []))
      else (q, if length payload == 0 then [] else ack_segment q ∷ [])
]

unfoldable pub tcp_input_established :
    ℕ → TcpPcb → (seq flags : ℕ) → List ℕ → ℕ → TcpPcb × List Segment
tcp_input_established now p seq flags payload ack =
    if has flags flag_rst
    then (record p { state = closed; active = false }, [])
    else if has flags flag_syn
    then (p, [])
    else if has flags flag_ack
    then elim (take_ack now p ack) [
      | none ↦ (p, ack_segment p ∷ [])
      | some (q, segs) ↦ let (r, more) = answer_data q seq flags payload in (r, segs ++ more)
    ]
    else answer_data p seq flags payload
