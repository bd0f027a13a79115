-- ===== src/Net/Tcp/Keeps.antt =====
-- The calls of drivers/net/tcp.c keep a sender's stream, and send nothing but bytes of it.
use mathlib.Core.List.{append_assoc}
use core_z_os.Base.{
  ℕ, ◌+◌, ◌-◌, ◌%◌, ◌^◌, ◌≤◌, ◌<◌, ◌≡◌, ◌⊎◌, inl, inr, refl, sym, ap, ap₂, ◌∙◌, subst, Bool-cases,
  true, false, not, ◌||◌, Option, none, some, List, [], ◌++◌, arith, ltb, ◌==◌, length, take, drop,
  All, length-append, length-take, length-drop, drop-drop, drop-take, take_all, take-prefix,
  drop-prefix,
}
use core_z_os.Net.Tcp.{
  TcpPcb, syn_sent, established, fin_wait1, last_ack, time_wait, same_state, Segment, seq_lt, add32,
  sub32,
}
use core_z_os.Net.Tcp.Send.{tcp_fire, tx_put, tcp_send}
use core_z_os.Net.Tcp.Receive.{tx_drop, take_ack}
use core_z_os.Net.Tcp.Tick.{is_due, tick_pcb, resend_loop}
use core_z_os.Net.Tcp.Stream.{at, StandsAt-more}
use core_z_os.Net.Tcp.Sender.{Carries, Sends, IsSender, tcp_fire-Carries, resend_loop-Carries}

pub Carries-more :
    (stream more : List ℕ) (b : ℕ) (x : Segment) → Carries stream b x → Carries (stream ++ more) b x
Carries-more stream more b x c = record {
  offset = c.offset;
  number = c.number;
  bytes = StandsAt-more stream more c.offset x.payload c.bytes;
  plain = c.plain;
  ack_lt = c.ack_lt;
}

-- Bytes are put behind those that wait.
tx_put-Sends :
    (stream payload : List ℕ) (b una nxt : ℕ) (txb : List ℕ) (tx_len : ℕ)
    → Sends stream b una nxt txb tx_len
    → tx_len + length payload ≤ 8192
    → Sends (stream ++ payload) b una nxt (tx_put txb tx_len payload) (tx_len + length payload)
unfolding tx_put
tx_put-Sends stream payload b una nxt txb tx_len s room = record {
  acked = s.acked;
  sent = s.sent;
  una_eq = s.una_eq;
  nxt_eq = s.nxt_eq;
  order = s.order;
  limit = omega (arith, s.limit, length-append stream payload);
  total = omega (arith, s.total, length-append stream payload);
  room = room;
  size = omega (
    arith,
    s.size,
    room,
    front,
    length-append (take tx_len txb) (payload ++ behind),
    length-append payload behind,
    length-drop (tx_len + length payload) txb,
  );
  held =
      ap (λ k. take k (take tx_len txb ++ (payload ++ behind)))
        (omega (arith, front, length-append (take tx_len txb) payload))
      ∙ (ap (take (length (take tx_len txb ++ payload)))
            (sym (append_assoc (take tx_len txb) payload behind))
          ∙ (take-prefix (length (take tx_len txb ++ payload)) (take tx_len txb ++ payload) behind
                (omega arith)
              ∙ (take_all (length (take tx_len txb ++ payload)) (take tx_len txb ++ payload)
                    (omega arith)
                  ∙ (ap (λ u. u ++ payload) s.held
                      ∙ sym (
                          drop-prefix s.acked stream payload (omega (arith, s.order, s.limit)))))));
}
  where
    behind : List ℕ
    behind = drop (tx_len + length payload) txb

    front : length (take tx_len txb) ≡ tx_len
    front = omega (arith, length-take tx_len txb, s.size, room)

-- An acknowledgement is of bytes that have been sent.
ack-offset :
    (stream : List ℕ) (b una nxt : ℕ) (txb : List ℕ) (tx_len ack : ℕ)
    (s : Sends stream b una nxt txb tx_len)
    → ack < 2 ^ 32
    → seq_lt nxt ack ≡ false
    → seq_lt una ack ≡ true
    → (sub32 ack una ≤ tx_len)
      × (s.acked + sub32 ack una ≤ s.sent)
      × (ack ≡ at b (s.acked + sub32 ack una))
unfolding seq_lt
ack-offset stream b una nxt txb tx_len ack s small h k =
    let near : sub32 nxt ack < 2 ^ 31 = ground (arith, h) in
    let new : 2 ^ 31 ≤ sub32 una ack = ground (arith, k) in
    (
      omega (arith, near, new, s.una_eq, s.nxt_eq, s.order, s.limit, s.total, s.room, small),
      omega (arith, near, new, s.una_eq, s.nxt_eq, s.order, s.limit, s.total, s.room, small),
      omega (arith, s.una_eq, small),
    )

tx_drop-IsSender :
    (stream : List ℕ) (b : ℕ) (p : TcpPcb) (ack : ℕ) (s : IsSender stream b p)
    → (sub32 ack p.snd_una ≤ p.tx_len)
    → (s.acked + sub32 ack p.snd_una ≤ s.sent)
    → (ack ≡ at b (s.acked + sub32 ack p.snd_una))
    → IsSender stream b (tx_drop p (sub32 ack p.snd_una) ack)
unfolding tx_drop
tx_drop-IsSender stream b p ack s le sent e = record {
  acked = s.acked + sub32 ack p.snd_una;
  sent = s.sent;
  una_eq = e;
  nxt_eq = s.nxt_eq;
  order = sent;
  limit = s.limit;
  total = omega (arith, s.total, le);
  room = omega (arith, s.room);
  size = omega (
    arith,
    s.size,
    s.room,
    le,
    front,
    length-append (take left (drop d p.txb)) (drop left p.txb),
    length-drop left p.txb,
  );
  held =
      take-prefix left (take left (drop d p.txb)) (drop left p.txb) (omega (arith, front))
      ∙ (take_all left (take left (drop d p.txb)) (omega (arith, front))
          ∙ (sym (drop-take d p.tx_len p.txb) ∙ (ap (drop d) s.held ∙ drop-drop s.acked d stream)));
}
  where
    d : ℕ
    d = sub32 ack p.snd_una

    left : ℕ
    left = p.tx_len - d

    front : length (take left (drop d p.txb)) ≡ left
    front = omega (arith, length-take left (drop d p.txb), length-drop d p.txb, s.size, s.room, le)

-- What the block and the segments are after a call: a sender's, with its state, its ring and its
-- next number as they were.
abbrev pub Kept : List ℕ → ℕ → TcpPcb → TcpPcb → List Segment → Type 0
Kept stream b p q segs =
    All (Carries stream b) segs
    × IsSender stream b q
    × (q.state ≡ p.state)
    × (q.rx ≡ p.rx)
    × (q.rcv_nxt ≡ p.rcv_nxt)

-- What `take_ack` does, by where the number lies.
take_ack-cases :
    (now : ℕ) (p : TcpPcb) (ack : ℕ)
    → (take_ack now p ack ≡ none)
      ⊎ ((take_ack now p ack ≡ some (p, []))
          ⊎ ((seq_lt p.snd_nxt ack ≡ false)
              × (seq_lt p.snd_una ack ≡ true)
              × ((sub32 ack p.snd_una ≤ p.tx_len)
                  → take_ack now p ack
                    ≡ some (tcp_fire now (tx_drop p (sub32 ack p.snd_una) ack)))))
unfolding take_ack
take_ack-cases now p ack = elim (Bool-cases (seq_lt p.snd_nxt ack)) [
  | inl far ↦ inl (rw (far) refl)
  | inr near ↦ elim (Bool-cases (seq_lt p.snd_una ack)) [
    | inr old ↦ inr (inl (rw (near, old) refl))
    | inl new ↦ elim (Bool-cases (sub32 ack p.snd_una == 0 || (p.tx_len == 0))) [
      | inl z ↦ inr (inl (rw (near, new) (ground (arith, z))))
      | inr nz ↦ inr (inr (near, new, λ le. rw (near, new) (ground (arith, nz, le))))
    ]
  ]
]

-- The property of a result, where there is one.
abbrev pub OnSome {ℓ κ} : {A : Type ℓ} → (A → Type κ) → Option A → Type κ
OnSome P none = Unit
OnSome P (some x) = P x

-- An acknowledgement by any number.
pub take_ack-Kept :
    (stream : List ℕ) (b : ℕ) (p : TcpPcb) (now ack : ℕ)
    → IsSender stream b p
    → length stream < 2 ^ 31
    → p.rcv_nxt < 2 ^ 32
    → ack < 2 ^ 32
    → OnSome (λ r. Kept stream b p r.0 r.1) (take_ack now p ack)
unfolding tx_drop
take_ack-Kept stream b p now ack s short r small = elim (take_ack-cases now p ack) [
  | inl n ↦ subst Is (sym n) tt
  | inr (inl same) ↦ subst Is (sym same) (tt, s, refl, refl, refl)
  | inr (inr (near, new, fired)) ↦
      let (le, sent, at_eq) =
        ack-offset stream b p.snd_una p.snd_nxt p.txb p.tx_len ack s small near new in
      subst Is (sym (fired le)) (
        tcp_fire-Carries stream b (tx_drop p (sub32 ack p.snd_una) ack)
          (tx_drop-IsSender stream b p ack s le sent at_eq) short r now)
]
  where
    Is : Option (TcpPcb × List Segment) → Type 0
    Is = OnSome (λ r. Kept stream b p r.0 r.1)

-- `tcp_send` adds its bytes to the stream.
pub tcp_send-Kept :
    (stream payload : List ℕ) (b : ℕ) (p : TcpPcb) (now : ℕ)
    → IsSender stream b p
    → length (stream ++ payload) < 2 ^ 31
    → p.rcv_nxt < 2 ^ 32
    → OnSome (λ r. Kept (stream ++ payload) b p r.0 r.1) (tcp_send now p payload)
unfolding tcp_send
tcp_send-Kept stream payload b p now s short r =
    elim (Bool-cases (not (same_state p.state established) || (length payload == 0))) [
      | inl no_send ↦ rw (no_send) tt
      | inr may ↦ elim (Bool-cases (ltb (sub32 8192 p.tx_len) (length payload))) [
        | inl full ↦ rw (may, full) tt
        | inr room ↦
            rw (may, room)
              (tcp_fire-Carries (stream ++ payload) b
                (record p {
                  txb = tx_put p.txb p.tx_len payload;
                  tx_len = p.tx_len + length payload;
                })
                (tx_put-Sends stream payload b p.snd_una p.snd_nxt p.txb p.tx_len s
                  (ground (arith, room, s.room)))
                short r now)
      ]
    ]

-- The timer of an established connection sends bytes of the stream again, or gives up.
pub tick_pcb-Kept :
    (stream : List ℕ) (b : ℕ) (p : TcpPcb) (now : ℕ)
    → IsSender stream b p
    → length stream < 2 ^ 31
    → p.rcv_nxt < 2 ^ 32
    → p.state ≡ established
    → Kept stream b p (tick_pcb now p).0 (tick_pcb now p).1
unfolding tick_pcb same_state
tick_pcb-Kept stream b p now s short r e =
    let opening : same_state p.state syn_sent ≡ false = ap (λ x. same_state x syn_sent) e in
    let closing : (same_state p.state fin_wait1 || same_state p.state last_ack) ≡ false =
      ap (λ x. same_state x fin_wait1 || same_state x last_ack) e in
    let waiting : same_state p.state time_wait ≡ false = ap (λ x. same_state x time_wait) e in
    let again : resend_loop 8193 p (add32 p.snd_una p.tx_len) p.snd_una
        ≡ resend_loop 8193 p (at b (length stream)) (at b s.acked) =
      ap₂ (resend_loop 8193 p) (omega (arith, s.una_eq, s.total)) s.una_eq in
    elim (Bool-cases (not p.active || (p.tmo == 0) || not (is_due now p.tmo))) [
      | inl early ↦ rw (early) (tt, s, refl, refl, refl)
      | inr due ↦ elim (Bool-cases (seq_lt p.snd_una p.snd_nxt)) [
        | inl out ↦ elim (Bool-cases (ltb 5 ((p.retry + 1) % 256))) [
          | inl over ↦ rw (due, opening, out, over) (tt, s, refl, refl, refl)
          | inr more ↦
              rw (due, opening, out, more, again)
                (
                  resend_loop-Carries stream b p s short r 8193 s.acked (omega arith)
                      (omega (arith, s.total)),
                  s,
                  refl,
                  refl,
                  refl,
                )
        ]
        | inr idle ↦ rw (due, opening, idle, closing, waiting) (tt, s, refl, refl, refl)
      ]
    ]
