-- ===== src/Net/Tcp/Sender.antt =====
-- What a sender of drivers/net/tcp.c has of its bytes, and what it puts into segments.
use core_z_os.Base.{
  ℕ, zero, suc, ◌+◌, ◌-◌, ◌^◌, ◌≤◌, ◌<◌, ◌≡◌, inl, inr, refl, sym, ap, ap₂, ◌∙◌, subst, Bool-cases,
  List, arith, ltb, if◌then◌else◌, length, take, drop, All, length-take, length-drop, drop-drop,
  drop-take, take-take,
}
use core_z_os.Net.Tcp.{TcpPcb, Segment, segment, seq_lt, add32, sub32, flag_ack}
use core_z_os.Net.Tcp.Send.{next_len, may_send, fire_loop, window_of, tcp_fire}
use core_z_os.Net.Tcp.Tick.{resend_loop}
use core_z_os.Net.Tcp.Stream.{at, sub32-at, add32-at, StandsAt}

-- The bytes of a segment stand in the stream where its number says, and it has no flag but ACK.
pub record Carries (stream : List ℕ) (b : ℕ) (s : Segment) : Type 0 where
  pub offset : ℕ
  pub number : s.seq ≡ at b offset
  pub bytes : StandsAt stream offset s.payload
  pub plain : s.flags ≡ flag_ack
  pub ack_lt : s.ack < 2 ^ 32

-- The send buffer holds what the peer has not acknowledged; `acked` and `sent` are the offsets that
-- `snd_una` and `snd_nxt` stand for.
pub record Sends (stream : List ℕ) (b una nxt : ℕ) (txb : List ℕ) (tx_len : ℕ) : Type 0 where
  pub acked : ℕ
  pub sent : ℕ
  pub una_eq : una ≡ at b acked
  pub nxt_eq : nxt ≡ at b sent
  pub order : acked ≤ sent
  pub limit : sent ≤ length stream
  pub total : acked + tx_len ≡ length stream
  pub room : tx_len ≤ 8192
  pub size : length txb ≡ 8192
  pub held : take tx_len txb ≡ drop acked stream

-- What the block of a sender is for its stream.
abbrev pub IsSender : List ℕ → ℕ → TcpPcb → Type 0
IsSender stream b p = Sends stream b p.snd_una p.snd_nxt p.txb p.tx_len

-- Bytes read from the send buffer stand in the stream.
held-StandsAt :
    (stream : List ℕ) (b una nxt : ℕ) (txb : List ℕ) (tx_len : ℕ)
    (s : Sends stream b una nxt txb tx_len) (c n : ℕ)
    → s.acked ≤ c
    → c + n ≤ length stream
    → StandsAt stream c (take n (drop (c - s.acked) txb))
held-StandsAt stream b una nxt txb tx_len s c n low high = record {
  inside = omega (arith, size, high);
  same = bytes ∙ ap (λ k. take k (drop c stream)) (sym size);
}
  where
    k : ℕ
    k = c - s.acked

    bytes : take n (drop k txb) ≡ take n (drop c stream)
    bytes =
        sym (take-take n (tx_len - k) (drop k txb) (omega (arith, s.total, low, high)))
        ∙ (ap (take n) (sym (drop-take k tx_len txb))
            ∙ ap (take n) (
                ap (drop k) s.held
                ∙ (drop-drop s.acked k stream
                    ∙ ap (λ i. drop i stream) (let e : s.acked + k ≡ c = omega (arith, low) in e))))

    size : length (take n (drop k txb)) ≡ n
    size = omega (arith, ap length bytes, length-take n (drop c stream), length-drop c stream, high)

-- Where a loop of segments ends: at an offset between two.
pub record EndsAt (b low high cursor : ℕ) : Type 0 where
  pub offset : ℕ
  pub number : cursor ≡ at b offset
  pub above : low ≤ offset
  pub below : offset ≤ high

next_len-le : (avail window : ℕ) → next_len avail window ≤ avail
unfolding next_len
next_len-le avail window = ground arith

module _ (stream : List ℕ) (b : ℕ) (p : TcpPcb) (s : IsSender stream b p)
    (short : length stream < 2 ^ 31) (small : p.rcv_nxt < 2 ^ 32) where
  -- What is left behind the offset c, and how far c is from what is acknowledged.
  left : (c : ℕ) → c ≤ length stream → sub32 (at b (length stream)) (at b c) ≡ length stream - c
  left c h = sub32-at b c (length stream) h (omega (arith, short))

  past : (c : ℕ) → s.acked ≤ c → c ≤ length stream → sub32 (at b c) p.snd_una ≡ c - s.acked
  past c l h = ap (sub32 (at b c)) s.una_eq ∙ sub32-at b s.acked c l (omega (arith, h, short))

  -- A segment of n bytes from the offset c on.
  Carries-segment :
      (c n k : ℕ)
      → s.acked ≤ c
      → c + n ≤ length stream
      → k ≡ c - s.acked
      → Carries stream b (segment p (at b c) p.rcv_nxt flag_ack (take n (drop k p.txb)))
  unfolding segment
  Carries-segment c n k low high e = record {
    offset = c;
    number = refl;
    bytes =
        subst (λ i. StandsAt stream c (take n (drop i p.txb))) (sym e)
          (held-StandsAt stream b p.snd_una p.snd_nxt p.txb p.tx_len s c n low high);
    plain = refl;
    ack_lt = small;
  }

  fire_loop-Carries :
      (fuel window c : ℕ)
      → s.acked ≤ c
      → c ≤ length stream
      → All (Carries stream b) (fire_loop fuel p window (at b (length stream)) (at b c)).0
        × EndsAt b c (length stream) (fire_loop fuel p window (at b (length stream)) (at b c)).1
  unfolding fire_loop
  fire_loop-Carries zero window c low high =
      (tt, record { offset = c; number = refl; above = omega arith; below = high })
  fire_loop-Carries (suc fuel) window c low high =
      let n : ℕ = next_len (length stream - c) window in
      let n-le : n ≤ length stream - c = next_len-le (length stream - c) window in
      let (segs, end) =
        fire_loop-Carries fuel window (c + n) (omega (arith, low)) (omega (arith, n-le, high)) in
      elim (Bool-cases (may_send p window (at b (length stream)) (at b c))) [
        | inl t ↦
            rw (t, left c high, add32-at b c n)
              (
                (
                  Carries-segment c n (sub32 (at b c) p.snd_una) low (omega (arith, n-le, high))
                      (past c low high),
                  segs,
                ),
                record {
                  offset = end.offset;
                  number = end.number;
                  above = omega (arith, end.above);
                  below = end.below;
                },
              )
        | inr f ↦
            rw (f) (tt, record { offset = c; number = refl; above = omega arith; below = high })
      ]

  pub resend_loop-Carries :
      (fuel c : ℕ)
      → s.acked ≤ c
      → c ≤ length stream
      → All (Carries stream b) (resend_loop fuel p (at b (length stream)) (at b c))
  unfolding resend_loop
  resend_loop-Carries zero c low high = tt
  resend_loop-Carries (suc fuel) c low high =
      let n : ℕ = if ltb 1460 (length stream - c) then 1460 else length stream - c in
      let n-le : n ≤ length stream - c = ground arith in
      let segs =
        resend_loop-Carries fuel (c + n) (omega (arith, low)) (omega (arith, n-le, high)) in
      elim (Bool-cases (seq_lt (at b c) (at b (length stream)))) [
        | inl t ↦
            rw (t, left c high, add32-at b c n)
              (
                Carries-segment c n (sub32 (at b c) p.snd_una) low (omega (arith, n-le, high))
                    (past c low high),
                segs,
              )
        | inr f ↦ rw (f) tt
      ]

  -- `tcp_fire` sends bytes of the stream, and goes on holding what is not acknowledged.
  pub tcp_fire-Carries :
      (now : ℕ)
      → All (Carries stream b) (tcp_fire now p).1
        × IsSender stream b (tcp_fire now p).0
        × ((tcp_fire now p).0.state ≡ p.state)
        × ((tcp_fire now p).0.rx ≡ p.rx)
        × ((tcp_fire now p).0.rcv_nxt ≡ p.rcv_nxt)
  unfolding tcp_fire
  tcp_fire-Carries now =
      let (segs, end) = fire_loop-Carries 8193 (window_of p) s.sent s.order s.limit in
      let same : fire_loop 8193 p (window_of p) (add32 p.snd_una p.tx_len) p.snd_nxt
          ≡ fire_loop 8193 p (window_of p) (at b (length stream)) (at b s.sent) =
        ap₂ (fire_loop 8193 p (window_of p)) (omega (arith, s.una_eq, s.total)) s.nxt_eq in
      let cursor : ℕ = (fire_loop 8193 p (window_of p) (at b (length stream)) (at b s.sent)).1 in
      elim (Bool-cases (ltb p.snd_nxt cursor)) [
        | inl t ↦
            rw (same, t)
              (
                segs,
                record {
                  acked = s.acked;
                  sent = end.offset;
                  una_eq = s.una_eq;
                  nxt_eq = end.number;
                  order = omega (arith, s.order, end.above);
                  limit = end.below;
                  total = s.total;
                  room = s.room;
                  size = s.size;
                  held = s.held;
                },
                refl,
                refl,
                refl,
              )
        | inr f ↦ rw (same, f) (segs, s, refl, refl, refl)
      ]
