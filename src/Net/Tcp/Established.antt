-- ===== src/Net/Tcp/Established.antt =====
-- What the calls of drivers/net/tcp.c keep of an established connection: both of its directions.
use mathlib.Core.List.{append-nil}
use core_z_os.Base.{
  ℕ, ◌^◌, ◌≤◌, ◌<◌, ◌≡◌, ◌⊎◌, inl, inr, refl, sym, ap, ◌∙◌, subst, Bool-cases, Option-cases, Bool,
  false, not, ◌&&◌, none, some, List, [], ◌∷◌, ◌++◌, arith, ltb, leb, ◌==◌, if◌then◌else◌, length,
  All, All-append,
}
use core_z_os.Net.Tcp.{
  TcpPcb, established, syn_sent, syn_rcvd, same_state, Segment, segment, flag_ack, negative32,
  tcp_rx_len, tcp_rx_room,
}
use core_z_os.Net.Tcp.Send.{tcp_send}
use core_z_os.Net.Tcp.Receive.{
  ack_segment, take_ack, take_data, answer_data, tcp_input_established, tcp_recv, rx_take,
}
use core_z_os.Net.Tcp.Input.{tcp_segment, after_established}
use core_z_os.Net.Tcp.Tick.{tick_pcb}
use core_z_os.Net.Tcp.Ring.{rx_take_lem}
use core_z_os.Net.Tcp.Stream.{at, StandsAt, Receives, Receives-take, Receives-more}
use core_z_os.Net.Tcp.Take.{take_data-Receives}
use core_z_os.Net.Tcp.Sender.{Carries, IsSender}
use core_z_os.Net.Tcp.Keeps.{Kept, OnSome, take_ack-Kept, tcp_send-Kept, tick_pcb-Kept}

-- The block of an established connection that sends the bytes `own`, numbered from b on, and gets
-- the bytes `other`, numbered from c on, of which its caller has taken some.
pub record Talks (own : List ℕ) (b : ℕ) (other : List ℕ) (c : ℕ) (taken : List ℕ) (p : TcpPcb)
    : Type 0 where
  pub sender : IsSender own b p
  pub receiver : Receives other c p.rx p.rcv_nxt taken
  pub open_state : p.state ≡ established

-- The block and the segments that it hands out.
abbrev pub Talked : List ℕ → ℕ → List ℕ → ℕ → List ℕ → TcpPcb × List Segment → Type 0
Talked own b other c taken r = Talks own b other c taken r.0 × All (Carries own b) r.1

after_established-open :
    (now ack : ℕ) (q : TcpPcb)
    → q.state ≡ established
    → after_established now flag_ack ack q ≡ (q, [])
unfolding after_established same_state
after_established-open now ack q e = rw (e) refl

-- In an established connection a segment without FIN is `tcp_input_established` alone.
pub tcp_segment_established :
    (p : TcpPcb) (now seq ack wnd : ℕ) (payload : List ℕ) (r : TcpPcb × List Segment)
    → p.state ≡ established
    → tcp_input_established now
        (record p { snd_wnd = if not (wnd == 0) then wnd else 1460 })
        seq
        flag_ack
        payload
        ack
      ≡ r
    → r.0.state ≡ established
    → tcp_segment now seq ack flag_ack wnd payload p ≡ r
unfolding tcp_segment same_state
tcp_segment_established p now seq ack wnd payload r e f g =
    let opening : same_state p.state syn_sent ≡ false = ap (λ x. same_state x syn_sent) e in
    let opened : same_state p.state syn_rcvd ≡ false = ap (λ x. same_state x syn_rcvd) e in
    rw (opening, opened, f, after_established-open now ack r.0 g, append-nil r.1) refl

module _ (own other : List ℕ) (b c : ℕ) (short : length own < 2 ^ 31) (taken : List ℕ) where
  rcv_nxt-lt : (p : TcpPcb) → Talks own b other c taken p → p.rcv_nxt < 2 ^ 32
  rcv_nxt-lt p t = omega (arith, t.receiver.next)

  Kept-Talked :
      (own0 : List ℕ) (p q : TcpPcb) (segs : List Segment)
      → Talks own0 b other c taken p
      → Kept own b p q segs
      → Talked own b other c taken (q, segs)
  Kept-Talked own0 p q segs t (cs, s, st, rx, nxt) = (
    record {
      sender = s;
      receiver =
          subst (λ n. Receives other c q.rx n taken) (sym nxt)
            (subst (λ x. Receives other c x p.rcv_nxt taken) (sym rx) t.receiver);
      open_state = st ∙ t.open_state;
    },
    cs,
  )

  ack_segment-Carries : (p : TcpPcb) → Talks own b other c taken p → Carries own b (ack_segment p)
  unfolding segment
  ack_segment-Carries p t = record {
    offset = t.sender.sent;
    number = t.sender.nxt_eq;
    bytes = record { inside = omega (arith, t.sender.limit); same = refl };
    plain = refl;
    ack_lt = rcv_nxt-lt p t;
  }

  -- The bytes of the peer.
  answer_data-Talked :
      (p : TcpPcb) (o : ℕ) (payload : List ℕ)
      → length other < 2 ^ 31
      → Talks own b other c taken p
      → StandsAt other o payload
      → Talked own b other c taken (answer_data p (at c o) flag_ack payload)
  unfolding answer_data
  answer_data-Talked p o payload room t s = elim (Option-cases (take_data p (at c o) payload)) [
    | inl n ↦ rw (answer_data, n) (t, (ack_segment-Carries p t, tt))
    | inr ((q, whole), e) ↦
        rw (answer_data, e)
          (let (r, same) =
              take_data-Receives other c p taken t.receiver room o payload q whole s e in
            let u : Talks own b other c taken q = record {
              sender = subst (IsSender own b) same t.sender;
              receiver = r;
              open_state = sym (ap (λ x. x.state) same) ∙ t.open_state;
            } in
            elim (Bool-cases (length payload == 0)) [
              | inl z ↦ rw (z) (u, tt)
              | inr nz ↦ rw (nz) (u, (ack_segment-Carries q u, tt))
            ])
  ]

  input_established-Talked :
      (p : TcpPcb) (now o ack : ℕ) (payload : List ℕ)
      → length other < 2 ^ 31
      → Talks own b other c taken p
      → ack < 2 ^ 32
      → StandsAt other o payload
      → Talked own b other c taken (tcp_input_established now p (at c o) flag_ack payload ack)
  unfolding tcp_input_established
  input_established-Talked p now o ack payload room t small s =
      let kept : OnSome (λ r. Kept own b p r.0 r.1) (take_ack now p ack) =
        take_ack-Kept own b p now ack t.sender short (rcv_nxt-lt p t) small in
      elim (Option-cases (take_ack now p ack)) [
        | inl n ↦ rw (n) (t, (ack_segment-Carries p t, tt))
        | inr ((q, segs), e) ↦ rw (e) (
            let (u, cs) =
              Kept-Talked own p q segs t (subst (OnSome (λ r. Kept own b p r.0 r.1)) e kept) in
            let (v, more) = answer_data-Talked q o payload room u s in
            (
              v,
              All-append (Carries own b) segs (answer_data q (at c o) flag_ack payload).1 cs more,
            ))
      ]

  -- A segment of the peer.
  pub tcp_segment-Talked :
      (p : TcpPcb) (now : ℕ) (x : Segment)
      → length other < 2 ^ 31
      → Talks own b other c taken p
      → Carries other c x
      → Talked own b other c taken (tcp_segment now x.seq x.ack x.flags x.wnd x.payload p)
  tcp_segment-Talked p now x room t car =
      let p' : TcpPcb = record p { snd_wnd = if not (x.wnd == 0) then x.wnd else 1460 } in
      let t' : Talks own b other c taken p' = record {
        sender = t.sender;
        receiver = t.receiver;
        open_state = t.open_state;
      } in
      let (u, cs) =
        input_established-Talked p' now car.offset x.ack x.payload room t' car.ack_lt car.bytes in
      rw
        (
          car.plain,
          car.number,
          tcp_segment_established p now (at c car.offset) x.ack x.wnd x.payload
              (tcp_input_established now p' (at c car.offset) flag_ack x.payload x.ack) t.open_state
              refl u.open_state,
        )
        (u, cs)

tcp_recv-cases :
    (p : TcpPcb) (len : ℕ)
    → (tcp_recv p len ≡ none)
      ⊎ ((n : ℕ) × (w : Bool) × (n ≤ tcp_rx_len p.rx)
          × (tcp_recv p len
              ≡ some (
                (rx_take n p.rx).0,
                record p { rx = (rx_take n p.rx).1 },
                if w then ack_segment (record p { rx = (rx_take n p.rx).1 }) ∷ [] else [],
              )))
unfolding tcp_recv
tcp_recv-cases p len = elim (Bool-cases (tcp_rx_len p.rx == 0)) [
  | inl z ↦ inl (rw (z) refl)
  | inr nz ↦ inr (
    wanted,
    ltb (tcp_rx_room p.rx) 1460
        && not (negative32 (tcp_rx_room (rx_take wanted p.rx).1))
        && leb 1460 (tcp_rx_room (rx_take wanted p.rx).1)
        && p.active
        && not (p.remote_port == 0),
    ground arith,
    rw (nz) refl,
  )
]
  where
    wanted : ℕ
    wanted = if ltb len (tcp_rx_len p.rx) then len else tcp_rx_len p.rx

-- The caller takes bytes.
pub tcp_recv-Talked :
    (own other : List ℕ) (b c : ℕ) (taken : List ℕ) (p : TcpPcb) (len : ℕ)
    → length own < 2 ^ 31
    → Talks own b other c taken p
    → OnSome (λ r. Talked own b other c (taken ++ r.0) (r.1, r.2)) (tcp_recv p len)
tcp_recv-Talked own other b c taken p len short t = elim (tcp_recv-cases p len) [
  | inl n ↦ subst (OnSome Is) (sym n) tt
  | inr (n, w, le, e) ↦
      let (valid, rest, size) = rx_take_lem n p.rx t.receiver.ring le in
      let q : TcpPcb = record p { rx = (rx_take n p.rx).1 } in
      let u : Talks own b other c (taken ++ (rx_take n p.rx).0) q = record {
        sender = t.sender;
        receiver =
            Receives-take other c p.rx (rx_take n p.rx).1 p.rcv_nxt taken (rx_take n p.rx).0
              t.receiver valid rest;
        open_state = t.open_state;
      } in
      subst (OnSome Is) (sym e) (
        u,
        elim (Bool-cases w) [
          | inl l ↦
              rw (l) (ack_segment-Carries own other b c short (taken ++ (rx_take n p.rx).0) q u, tt)
          | inr l ↦ rw (l) tt
        ],
      )
]
  where
    Is : List ℕ × TcpPcb × List Segment → Type 0
    Is r = Talked own b other c (taken ++ r.0) (r.1, r.2)

-- The caller hands over bytes.
pub tcp_send-Talked :
    (own other payload : List ℕ) (b c : ℕ) (taken : List ℕ) (p : TcpPcb) (now : ℕ)
    → length (own ++ payload) < 2 ^ 31
    → Talks own b other c taken p
    → OnSome (Talked (own ++ payload) b other c taken) (tcp_send now p payload)
tcp_send-Talked own other payload b c taken p now short t =
    elim (Option-cases (tcp_send now p payload)) [
      | inl n ↦ subst (OnSome (Talked (own ++ payload) b other c taken)) (sym n) tt
      | inr ((q, segs), e) ↦ subst (OnSome (Talked (own ++ payload) b other c taken)) (sym e) (
          Kept-Talked (own ++ payload) other b c short taken own p q segs t (
            subst (OnSome (λ r. Kept (own ++ payload) b p r.0 r.1)) e
              (tcp_send-Kept own payload b p now t.sender short (omega (arith, t.receiver.next)))))
    ]

-- The timer.
pub tick_pcb-Talked :
    (own other : List ℕ) (b c : ℕ) (taken : List ℕ) (p : TcpPcb) (now : ℕ)
    → length own < 2 ^ 31
    → Talks own b other c taken p
    → Talked own b other c taken (tick_pcb now p)
tick_pcb-Talked own other b c taken p now short t =
    Kept-Talked own other b c short taken own p (tick_pcb now p).0 (tick_pcb now p).1 t (
      tick_pcb-Kept own b p now t.sender short (rcv_nxt-lt own other b c short taken p t)
        t.open_state)

-- The peer has more bytes to send.
pub Talks-more :
    (own other more : List ℕ) (b c : ℕ) (taken : List ℕ) (p : TcpPcb)
    → Talks own b other c taken p
    → Talks own b (other ++ more) c taken p
Talks-more own other more b c taken p t = record {
  sender = t.sender;
  receiver = Receives-more other more c p.rx p.rcv_nxt taken t.receiver;
  open_state = t.open_state;
}
