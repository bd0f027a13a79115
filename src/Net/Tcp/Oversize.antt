-- ===== src/Net/Tcp/Oversize.antt =====
-- Segments of drivers/net/tcp.c that drivers/net/ip.c does not take: a full one has 20 bytes of
-- header besides the 1460 that `ip_output` has room for.
use core_z_os.Base.{
  ℕ, suc, ◌+◌, ◌%◌, ◌^◌, ◌≤◌, ◌<◌, ◌≡◌, ◌≢◌, refl, ap, ◌∙◌, Bool-cases, inl, inr, true, false, not,
  ◌||◌, some, List, ◌∷◌, ◌++◌, arith, ltb, ◌==◌, if◌then◌else◌, length, take, drop, length-append,
  length-take, length-drop,
}
use core_z_os.Net.{Netif, net_put16, net_put32}
use core_z_os.Net.Arp.{Arp}
use core_z_os.Net.Ip.{Pend, refused, ip_output}
use core_z_os.Net.Tcp.{
  TcpPcb, established, syn_sent, same_state, Segment, segment, segment_bytes, tcp_header, tcp_emit,
  seq_lt, sub32, add32, flag_ack,
}
use core_z_os.Net.Tcp.Send.{next_len, may_send, fire_loop, window_of, tcp_fire, tx_put, tcp_send}
use core_z_os.Net.Tcp.Tick.{is_due, resend_loop, tick_pcb}

length-segment_bytes : (s : Segment) → length (segment_bytes s) ≡ 20 + length s.payload
unfolding segment_bytes tcp_header net_put16 net_put32
length-segment_bytes s = omega arith

-- `ip_output` has no room for the packet.
tcp_emit-refused :
    (ifp : Netif) (arp : Arp) (pend : List Pend) (s : Segment)
    → 1440 < length s.payload
    → length s.payload < 2 ^ 31
    → tcp_emit ifp arp pend s ≡ refused
unfolding tcp_emit ip_output
tcp_emit-refused ifp arp pend s h k =
    let big : ltb (20 + 1460) ((20 + length (segment_bytes s)) % 2 ^ 32) ≡ true =
      ground (arith, length-segment_bytes s, h, k) in
    elim (Bool-cases (ltb (20 + 1460) (20 + length s.payload))) [
      | inl t ↦ rw (t) refl
      | inr f ↦ rw (f, big) refl
    ]

-- The first segment begins with the given number and never goes out.
pub FirstRefused : Netif → Arp → List Pend → ℕ → List Segment → Type 0
FirstRefused ifp arp pend seq segs =
    (x : Segment) × (rest : List Segment) × (segs ≡ x ∷ rest)
    × (x.seq ≡ seq)
    × (tcp_emit ifp arp pend x ≡ refused)

pub fire_loop-first :
    (fuel : ℕ) (p : TcpPcb) (window limit cursor : ℕ)
    → may_send p window limit cursor ≡ true
    → (fire_loop (suc fuel) p window limit cursor).0
      ≡ segment p cursor p.rcv_nxt flag_ack
          (take (next_len (sub32 limit cursor) window) (drop (sub32 cursor p.snd_una) p.txb))
        ∷ (fire_loop fuel p window limit (add32 cursor (next_len (sub32 limit cursor) window))).0
unfolding fire_loop
fire_loop-first fuel p window limit cursor t = rw (t) refl

pub tcp_fire-segments :
    (now : ℕ) (p : TcpPcb)
    → (tcp_fire now p).1 ≡ (fire_loop 8193 p (window_of p) (add32 p.snd_una p.tx_len) p.snd_nxt).0
unfolding tcp_fire
tcp_fire-segments now p =
    elim (Bool-cases
      (ltb p.snd_nxt (fire_loop 8193 p (window_of p) (add32 p.snd_una p.tx_len) p.snd_nxt).1)) [
        | inl t ↦ rw (t) refl
        | inr f ↦ rw (f) refl
      ]

next_len-long :
    (avail window : ℕ)
    → 1440 < avail
    → 1440 < window
    → (1440 < next_len avail window) × (next_len avail window ≤ 1460)
unfolding next_len
next_len-long avail window h k = (ground (arith, h, k), ground (arith, h, k))

-- With nothing on its way, the first segment begins at the next number, and is a long one.
fire-refused :
    (ifp : Netif) (arp : Arp) (pend : List Pend) (now n : ℕ) (p : TcpPcb)
    → p.snd_una ≡ n
    → p.snd_nxt ≡ n
    → n < 2 ^ 32
    → 1440 < p.snd_wnd
    → 1440 < p.tx_len
    → p.tx_len ≤ 8192
    → length p.txb ≡ 8192
    → FirstRefused ifp arp pend n (tcp_fire now p).1
unfolding FirstRefused may_send seq_lt segment
fire-refused ifp arp pend now n p una nxt small wnd long fits size = (
  x,
  _,
  tcp_fire-segments now p
      ∙ fire_loop-first 8192 p (window_of p) (add32 p.snd_una p.tx_len) p.snd_nxt may,
  nxt,
  tcp_emit-refused ifp arp pend x (omega (arith, len, k.0)) (omega (arith, len, k.1)),
)
  where
    left : sub32 (add32 p.snd_una p.tx_len) p.snd_nxt ≡ p.tx_len
    left = omega (arith, una, nxt, small, fits)

    window : window_of p ≡ p.snd_wnd
    window = ground (arith, wnd)

    len0 : ℕ
    len0 = next_len (sub32 (add32 p.snd_una p.tx_len) p.snd_nxt) (window_of p)

    k : (1440 < len0) × (len0 ≤ 1460)
    k =
        next_len-long (sub32 (add32 p.snd_una p.tx_len) p.snd_nxt) (window_of p)
          (omega (arith, left, long)) (omega (arith, window, wnd))

    start : sub32 p.snd_nxt p.snd_una ≡ 0
    start = omega (arith, una, nxt, small)

    x : Segment
    x = segment p p.snd_nxt p.rcv_nxt flag_ack (take len0 (drop (sub32 p.snd_nxt p.snd_una) p.txb))

    len : length x.payload ≡ len0
    len = omega (
      arith,
      length-take len0 (drop (sub32 p.snd_nxt p.snd_una) p.txb),
      length-drop (sub32 p.snd_nxt p.snd_una) p.txb,
      start,
      size,
      k.1,
    )

    may : may_send p (window_of p) (add32 p.snd_una p.tx_len) p.snd_nxt ≡ true
    may = ground (arith, una, nxt, small, fits, long, k.0, start, wnd)

-- An established connection with nothing on its way, whose peer has a window of more than 1440
-- bytes: `tcp_send` takes from 1441 to 8192 bytes and sends from the next number on, but its first
-- segment has more than 1440 bytes, and `tcp_emit` gives -1 for it.
pub long_send_refused :
    (ifp : Netif) (arp : Arp) (pend : List Pend) (now : ℕ) (p : TcpPcb) (payload : List ℕ)
    → p.state ≡ established
    → p.tx_len ≡ 0
    → length p.txb ≡ 8192
    → p.snd_una ≡ p.snd_nxt
    → p.snd_nxt < 2 ^ 32
    → 1440 < p.snd_wnd
    → 1440 < length payload
    → length payload ≤ 8192
    → (q : TcpPcb) × (segs : List Segment) × (tcp_send now p payload ≡ some (q, segs))
      × FirstRefused ifp arp pend p.snd_nxt segs
unfolding tcp_send tx_put same_state
long_send_refused ifp arp pend now p payload open_state empty size una small wnd long fits = (
  (tcp_fire now r).0,
  (tcp_fire now r).1,
  rw (may, room) refl,
  fire-refused ifp arp pend now p.snd_nxt r una refl small wnd (omega (arith, empty, long))
      (omega (arith, empty, fits)) put_size,
)
  where
    r : TcpPcb
    r = record p { txb = tx_put p.txb p.tx_len payload; tx_len = p.tx_len + length payload }

    may : (not (same_state p.state established) || (length payload == 0)) ≡ false
    may = ground (arith, ap (λ s. same_state s established) open_state, long)

    room : ltb (sub32 8192 p.tx_len) (length payload) ≡ false
    room = ground (arith, empty, fits)

    put_size : length (tx_put p.txb p.tx_len payload) ≡ 8192
    put_size = omega (
      arith,
      empty,
      fits,
      size,
      length-take p.tx_len p.txb,
      length-drop (p.tx_len + length payload) p.txb,
      length-append (take p.tx_len p.txb) (payload ++ drop (p.tx_len + length payload) p.txb),
      length-append payload (drop (p.tx_len + length payload) p.txb),
    )

resend_loop-first :
    (fuel : ℕ) (p : TcpPcb) (n len : ℕ)
    → n < 2 ^ 32
    → 1440 < len
    → len ≤ 8192
    → resend_loop (suc fuel) p (add32 n len) n
      ≡ segment p n p.rcv_nxt flag_ack
          (take (if ltb 1460 len then 1460 else len) (drop (sub32 n p.snd_una) p.txb))
        ∷ resend_loop fuel p (add32 n len) (add32 n (if ltb 1460 len then 1460 else len))
unfolding resend_loop seq_lt
resend_loop-first fuel p n len small long fits =
    let left : sub32 (add32 n len) n ≡ len = omega (arith, small, fits) in
    let more : seq_lt n (add32 n len) ≡ true = ground (arith, small, long, fits) in
    rw (more, left) refl

-- The timer of an established connection, once it is due, with more than 1440 bytes that are not
-- acknowledged and fewer than five tries behind it: it goes on trying, but the segment that begins
-- at the first of these bytes has more than 1440 bytes again, and `tcp_emit` gives -1 for it.
pub long_resend_refused :
    (ifp : Netif) (arp : Arp) (pend : List Pend) (now : ℕ) (p : TcpPcb)
    → p.state ≡ established
    → p.active ≡ true
    → p.tmo ≢ 0
    → is_due now p.tmo ≡ true
    → seq_lt p.snd_una p.snd_nxt ≡ true
    → p.retry < 5
    → p.snd_una < 2 ^ 32
    → 1440 < p.tx_len
    → p.tx_len ≤ 8192
    → length p.txb ≡ 8192
    → ((tick_pcb now p).0.active ≡ true)
      × ((tick_pcb now p).0.retry ≡ p.retry + 1)
      × FirstRefused ifp arp pend p.snd_una (tick_pcb now p).1
unfolding tick_pcb same_state segment FirstRefused
long_resend_refused ifp arp pend now p open_state active timed due out few small long fits size =
    let opening : same_state p.state syn_sent ≡ false =
      ap (λ s. same_state s syn_sent) open_state in
    let early : (not p.active || (p.tmo == 0) || not (is_due now p.tmo)) ≡ false =
      ground (arith, active, timed, due) in
    let more : ltb 5 ((p.retry + 1) % 256) ≡ false = ground (arith, few) in
    rw (early, opening, out, more)
      (
        active,
        omega (arith, few),
        (
          x,
          _,
          resend_loop-first 8192 p p.snd_una p.tx_len small long fits,
          refl,
          tcp_emit-refused ifp arp pend x (omega (arith, len, k.0)) (omega (arith, len, k.1)),
        ),
      )
  where
    len0 : ℕ
    len0 = if ltb 1460 p.tx_len then 1460 else p.tx_len

    k : (1440 < len0) × (len0 ≤ 1460)
    k = (ground (arith, long), ground (arith, long))

    x : Segment
    x = segment p p.snd_una p.rcv_nxt flag_ack (take len0 (drop (sub32 p.snd_una p.snd_una) p.txb))

    len : length x.payload ≡ len0
    len = omega (
      arith,
      length-take len0 (drop (sub32 p.snd_una p.snd_una) p.txb),
      length-drop (sub32 p.snd_una p.snd_una) p.txb,
      size,
      k.1,
      small,
    )
