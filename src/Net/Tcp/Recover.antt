-- ===== src/Net/Tcp/Recover.antt =====
-- How one round of the timer of drivers/net/tcp.c makes up for lost segments.
use core_z_os.Base.{
  ℕ, suc, ◌+◌, ◌-◌, ◌*◌, ◌%◌, ◌^◌, ◌≤◌, ◌<◌, ◌≡◌, ◌≢◌, refl, sym, ap, ◌∙◌, Bool-cases, inl, inr,
  true, false, not, ◌||◌, some, List, [], ◌∷◌, ◌++◌, arith, ltb, ◌==◌, if◌then◌else◌, length, take,
  drop, length-append, length-take, length-drop, take_all,
}
use core_z_os.Net.Tcp.{
  TcpPcb, established, syn_sent, same_state, Segment, segment, seq_lt, sub32, add32, flag_ack,
}
use core_z_os.Net.Tcp.Send.{fire_loop, window_of, tcp_fire}
use core_z_os.Net.Tcp.Receive.{
  ack_segment, tcp_rx_put, put_fresh, take_data, take_ack, tx_drop, answer_data,
  tcp_input_established,
}
use core_z_os.Net.Tcp.Input.{tcp_segment}
use core_z_os.Net.Tcp.Tick.{is_due, resend_loop, tick_pcb}
use core_z_os.Net.Tcp.Ring.{contents, tcp_rx_put_lem}
use core_z_os.Net.Tcp.Stream.{seq_lt_self, at, StandsAt, Receives}
use core_z_os.Net.Tcp.Take.{take_data-last, take_data-Receives}
use core_z_os.Net.Tcp.Sender.{IsSender}
use core_z_os.Net.Tcp.Established.{Talks, tcp_segment_established}
use core_z_os.Net.Tcp.Duplex.{arrive}

more_than : (n len : ℕ) → n < 2 ^ 32 → 0 < len → len ≤ 1440 → seq_lt n (add32 n len) ≡ true
unfolding seq_lt
more_than n len small some_bytes fits = ground (arith, small, some_bytes, fits)

-- What the timer sends of up to 1440 bytes: all of them, in one segment.
resend_loop-one :
    (fuel : ℕ) (p : TcpPcb) (n len : ℕ)
    → p.snd_una ≡ n
    → n < 2 ^ 32
    → 0 < len
    → len ≤ 1440
    → resend_loop (suc (suc fuel)) p (add32 n len) n
      ≡ segment p n p.rcv_nxt flag_ack (take len p.txb) ∷ []
unfolding resend_loop
resend_loop-one fuel p n len una small some_bytes fits =
    let left : sub32 (add32 n len) n ≡ len = omega (arith, small, fits) in
    let more : seq_lt n (add32 n len) ≡ true = more_than n len small some_bytes fits in
    let one : (if ltb 1460 len then 1460 else len) ≡ len = ground (arith, fits) in
    let over : seq_lt (add32 n len) (add32 n len) ≡ false = seq_lt_self (add32 n len) in
    let begin : sub32 n p.snd_una ≡ 0 = omega (arith, una, small) in
    rw (more, left, one, over, begin) refl

-- The new timer.
again : ℕ → TcpPcb → TcpPcb
again now p = record p {
  retry = (p.retry + 1) % 256;
  tmo = add32 now (1000 * 2 ^ ((p.retry + 1) % 256));
}

tick_pcb-one :
    (now : ℕ) (p : TcpPcb)
    → p.state ≡ established
    → p.active ≡ true
    → p.tmo ≢ 0
    → is_due now p.tmo ≡ true
    → p.retry < 5
    → p.snd_nxt ≡ add32 p.snd_una p.tx_len
    → p.snd_una < 2 ^ 32
    → 0 < p.tx_len
    → p.tx_len ≤ 1440
    → tick_pcb now p
      ≡ (again now p, segment p p.snd_una p.rcv_nxt flag_ack (take p.tx_len p.txb) ∷ [])
unfolding tick_pcb same_state again
tick_pcb-one now p open_state active timed due few nxt small some_bytes fits =
    let opening : same_state p.state syn_sent ≡ false =
      ap (λ s. same_state s syn_sent) open_state in
    let early : (not p.active || (p.tmo == 0) || not (is_due now p.tmo)) ≡ false =
      ground (arith, active, timed, due) in
    let more : ltb 5 ((p.retry + 1) % 256) ≡ false = ground (arith, few) in
    let out : seq_lt p.snd_una p.snd_nxt ≡ true =
      ap (seq_lt p.snd_una) nxt ∙ more_than p.snd_una p.tx_len small some_bytes fits in
    rw
      (
        early,
        opening,
        out,
        more,
        resend_loop-one 8191 p p.snd_una p.tx_len refl small some_bytes fits,
      )
      refl

-- A number that is acknowledged already.
pub take_ack-same :
    (now n : ℕ) (p : TcpPcb) → p.snd_una ≡ n → p.snd_nxt ≡ n → take_ack now p n ≡ some (p, [])
unfolding take_ack
take_ack-same now n p una nxt =
    let beyond : seq_lt p.snd_nxt n ≡ false = ap (λ k. seq_lt k n) nxt ∙ seq_lt_self n in
    let new : seq_lt p.snd_una n ≡ false = ap (λ k. seq_lt k n) una ∙ seq_lt_self n in
    rw (beyond, new) refl

-- The last bytes of the stream at a receiver that has nothing on its way itself.
takes_last :
    (stream : List ℕ) (b : ℕ) (q : TcpPcb) (taken : List ℕ) (now o n wnd : ℕ) (payload : List ℕ)
    → Receives stream b q.rx q.rcv_nxt taken
    → q.state ≡ established
    → q.snd_una ≡ n
    → q.snd_nxt ≡ n
    → length stream < 2 ^ 31
    → o ≤ length taken + length (contents q.rx)
    → o + length payload ≡ length stream
    → length payload ≢ 0
    → length stream ≤ length taken + 4096
    → StandsAt stream o payload
    → (q' : TcpPcb) × (tcp_segment now (at b o) n flag_ack wnd payload q
        ≡ (q', ack_segment q' ∷ []))
      × Receives stream b q'.rx q'.rcv_nxt taken
      × (length taken + length (contents q'.rx) ≡ length stream)
unfolding tcp_input_established answer_data
takes_last stream b q taken now o n wnd payload r open_state una nxt short old end some_bytes room
      s =
    let q0 : TcpPcb = record q { snd_wnd = if not (wnd == 0) then wnd else 1460 } in
    let answered : (length payload == 0) ≡ false = ground (arith, some_bytes) in
    elim (take_data-last stream b q0 taken o payload r short old end some_bytes room) [
      | inl (nothing, all) ↦ (
        q0,
        tcp_segment_established q now (at b o) n wnd payload (q0, ack_segment q0 ∷ []) open_state
            (rw (take_ack-same now n q0 una nxt, answer_data, nothing) refl) open_state,
        r,
        all,
      )
      | inr (bytes, new, all, fits) ↦
          let q1 : TcpPcb = record q0 {
            rx = tcp_rx_put q0.rx bytes;
            rcv_nxt = add32 q0.rcv_nxt (length bytes);
          } in
          (
            q1,
            tcp_segment_established q now (at b o) n wnd payload (q1, ack_segment q1 ∷ [])
                open_state (rw (take_ack-same now n q0 una nxt, answer_data, new, answered) refl)
                open_state,
            (take_data-Receives stream b q0 taken r short o payload q1 true s new).0,
            omega (
              arith,
              all,
              ap length (tcp_rx_put_lem bytes q.rx r.ring fits).1,
              length-append (contents q.rx) bytes,
            ),
          )
    ]

-- The acknowledgement of all that was sent empties the send buffer.
tcp_fire-tx_len :
    (now : ℕ) (p : TcpPcb)
    → ((tcp_fire now p).0.tx_len ≡ p.tx_len)
      × ((tcp_fire now p).0.state ≡ p.state)
      × ((tcp_fire now p).0.snd_una ≡ p.snd_una)
unfolding tcp_fire
tcp_fire-tx_len now p =
    elim (Bool-cases
      (ltb p.snd_nxt (fire_loop 8193 p (window_of p) (add32 p.snd_una p.tx_len) p.snd_nxt).1)) [
        | inl t ↦ rw (t) (refl, refl, refl)
        | inr f ↦ rw (f) (refl, refl, refl)
      ]

take_ack-all :
    (now n : ℕ) (p : TcpPcb)
    → p.snd_una < 2 ^ 32
    → n ≡ add32 p.snd_una p.tx_len
    → p.snd_nxt ≡ n
    → 0 < p.tx_len
    → p.tx_len ≤ 1440
    → take_ack now p n ≡ some (tcp_fire now (tx_drop p p.tx_len n))
unfolding take_ack
take_ack-all now n p small e nxt some_bytes fits =
    let beyond : seq_lt p.snd_nxt n ≡ false = ap (λ k. seq_lt k n) nxt ∙ seq_lt_self n in
    let new : seq_lt p.snd_una n ≡ true =
      ap (seq_lt p.snd_una) e ∙ more_than p.snd_una p.tx_len small some_bytes fits in
    let acked : sub32 n p.snd_una ≡ p.tx_len = omega (arith, e, small, fits) in
    let whole : (if ltb p.tx_len p.tx_len then p.tx_len else p.tx_len) ≡ p.tx_len = ground arith in
    let rest : (p.tx_len == 0) ≡ false = ground (arith, some_bytes) in
    rw (beyond, new, acked, whole, rest) refl

answer_data-nothing :
    (p : TcpPcb) (seq : ℕ)
    → ((answer_data p seq flag_ack []).0.tx_len ≡ p.tx_len)
      × ((answer_data p seq flag_ack []).0.state ≡ p.state)
      × ((answer_data p seq flag_ack []).0.snd_una ≡ p.snd_una)
unfolding answer_data take_data put_fresh
answer_data-nothing p seq = (refl, refl, refl)

acked_all :
    (now n seq wnd : ℕ) (p : TcpPcb)
    → p.state ≡ established
    → p.snd_una < 2 ^ 32
    → n ≡ add32 p.snd_una p.tx_len
    → p.snd_nxt ≡ n
    → 0 < p.tx_len
    → p.tx_len ≤ 1440
    → ((tcp_segment now seq n flag_ack wnd [] p).0.tx_len ≡ 0)
      × ((tcp_segment now seq n flag_ack wnd [] p).0.snd_una ≡ n)
unfolding tcp_input_established tx_drop
acked_all now n seq wnd p open_state small e nxt some_bytes fits =
    let p0 : TcpPcb = record p { snd_wnd = if not (wnd == 0) then wnd else 1460 } in
    let (fired, fired_state, fired_una) = tcp_fire-tx_len now (tx_drop p0 p.tx_len n) in
    let q : TcpPcb = (tcp_fire now (tx_drop p0 p.tx_len n)).0 in
    let (kept, kept_state, kept_una) = answer_data-nothing q seq in
    let same =
      tcp_segment_established p now seq n wnd []
        (
          (answer_data q seq flag_ack []).0,
          (tcp_fire now (tx_drop p0 p.tx_len n)).1 ++ (answer_data q seq flag_ack []).1,
        )
        open_state (rw (take_ack-all now n p0 small e nxt some_bytes fits) refl)
        (kept_state ∙ (fired_state ∙ open_state)) in
    (
      ap (λ r. r.0.tx_len) same
          ∙ (kept ∙ (fired ∙ (let z : p.tx_len - p.tx_len ≡ 0 = omega arith in z))),
      ap (λ r. r.0.snd_una) same ∙ (kept_una ∙ fired_una),
    )

-- The two ends of an established connection, with from 1 to 1440 bytes that one has sent and that
-- are not acknowledged, nothing on its way the other way, and room for these bytes at the other end,
-- which may have any of them or none. Once the timer is due, with fewer than five tries behind it,
-- it sends one segment, which fits. If that arrives, the other end has all that was written, and
-- answers with one segment; if that arrives too, nothing is left that is not acknowledged.
pub timer_recovers :
    (own other : List ℕ) (b c : ℕ) (got_p got_q : List ℕ) (p q : TcpPcb) (now at_q at_p : ℕ)
    → Talks own b other c got_p p
    → Talks other c own b got_q q
    → length own < 2 ^ 31
    → p.active ≡ true
    → p.tmo ≢ 0
    → is_due now p.tmo ≡ true
    → p.retry < 5
    → p.snd_nxt ≡ add32 p.snd_una p.tx_len
    → 0 < p.tx_len
    → p.tx_len ≤ 1440
    → q.snd_una ≡ p.rcv_nxt
    → q.snd_nxt ≡ p.rcv_nxt
    → length own ≤ length got_q + length (contents q.rx) + p.tx_len
    → length own ≤ length got_q + 4096
    → (x : Segment) × (q' : TcpPcb) × (a : Segment) × ((tick_pcb now p).1 ≡ x ∷ [])
      × (length x.payload ≤ 1440)
      × (arrive at_q x q ≡ (q', a ∷ []))
      × (got_q ++ contents q'.rx ≡ own)
      × ((arrive at_p a (tick_pcb now p).0).0.tx_len ≡ 0)
unfolding segment again
timer_recovers own other b c got_p got_q p q now at_q at_p t u short active timed due few nxt
      some_bytes fits una_q nxt_q near room =
    (x, q', ack_segment q', ap (λ r. r.1) ticked, omega (arith, size, fits), came, all, acked)
  where
    s : IsSender own b p
    s = t.sender

    una_lt : p.snd_una < 2 ^ 32
    una_lt = omega (arith, s.una_eq)

    x : Segment
    x = segment p p.snd_una p.rcv_nxt flag_ack (take p.tx_len p.txb)

    size : length x.payload ≡ p.tx_len
    size = omega (arith, length-take p.tx_len p.txb, s.size, s.room)

    ticked : tick_pcb now p ≡ (again now p, x ∷ [])
    ticked = tick_pcb-one now p t.open_state active timed due few nxt una_lt some_bytes fits

    stands : StandsAt own s.acked x.payload
    stands = record {
      inside = omega (arith, size, s.total);
      same =
          s.held
          ∙ sym (
              take_all (length x.payload) (drop s.acked own)
                (omega (arith, size, s.total, length-drop s.acked own)));
    }

    taken :
        (q' : TcpPcb) × (tcp_segment at_q (at b s.acked) p.rcv_nxt flag_ack x.wnd x.payload q
          ≡ (q', ack_segment q' ∷ []))
        × Receives own b q'.rx q'.rcv_nxt got_q
        × (length got_q + length (contents q'.rx) ≡ length own)
    taken =
        takes_last own b q got_q at_q s.acked p.rcv_nxt x.wnd x.payload u.receiver u.open_state
          una_q nxt_q short (omega (arith, near, s.total)) (omega (arith, size, s.total))
          (omega (arith, size, some_bytes)) room stands

    q' : TcpPcb
    q' = taken.0

    came : arrive at_q x q ≡ (q', ack_segment q' ∷ [])
    came = ap (λ n. tcp_segment at_q n p.rcv_nxt flag_ack x.wnd x.payload q) s.una_eq ∙ taken.1

    all : got_q ++ contents q'.rx ≡ own
    all =
        taken.2.prefix
        ∙ take_all (length got_q + length (contents q'.rx)) own (omega (arith, taken.3))

    acked : (arrive at_p (ack_segment q') (tick_pcb now p).0).0.tx_len ≡ 0
    acked =
        ap (λ r. (arrive at_p (ack_segment q') r.0).0.tx_len) ticked
        ∙ (acked_all at_p q'.rcv_nxt q'.snd_nxt (ack_segment q').wnd (again now p) t.open_state
            una_lt
            (let e : q'.rcv_nxt ≡ add32 p.snd_una p.tx_len =
                omega (arith, taken.2.next, taken.3, s.una_eq, s.total) in
              e)
            (let e : p.snd_nxt ≡ q'.rcv_nxt =
                omega (arith, nxt, taken.2.next, taken.3, s.una_eq, s.total) in
              e)
            some_bytes fits).0
