-- ===== src/Net/Tcp/Take.antt =====
-- What `take_data` of a receiver makes of its peer's bytes, whatever segments come.
use native.Mathlib.Decide.{ℕ_discrete, dec_lt}
use core_z_os.Base.{
  ℕ, ◌+◌, ◌-◌, ◌^◌, ◌≤◌, ◌<◌, ◌≡◌, ◌≢◌, ◌⊎◌, inl, inr, refl, sym, ap, ◌∙◌, subst, Bool-cases, Bool,
  true, false, not, ◌&&◌, Option, none, some, List, arith, ltb, leb, ◌==◌, length, take, drop,
  length-take, length-drop, take_all,
}
use core_z_os.Net.Tcp.{TcpPcb, seq_lt, add32, sub32, tcp_rx_room, tcp_rx_len}
use core_z_os.Net.Tcp.Receive.{tcp_rx_put, fitting, put_fresh, take_data}
use core_z_os.Net.Tcp.Ring.{contents, length-window, tcp_rx_room_lem}
use core_z_os.Net.Tcp.Stream.{
  at, seq_lt-at, sub32-at, add32-at, at-injective, StandsAt, StandsAt-drop, StandsAt-take, Receives,
  Receives-put,
}

take-new :
    (p : TcpPcb) (seq : ℕ) (payload : List ℕ)
    → (length payload ≡ 0) ⊎ (seq_lt seq p.rcv_nxt ≡ false)
    → take_data p seq payload ≡ put_fresh p seq payload
unfolding take_data
take-new p seq payload h = ground (arith, h)

pub take-old :
    (p : TcpPcb) (seq k : ℕ) (payload : List ℕ)
    → length payload ≢ 0
    → seq_lt seq p.rcv_nxt ≡ true
    → sub32 p.rcv_nxt seq ≡ k
    → length payload ≤ k
    → take_data p seq payload ≡ none
unfolding take_data
take-old p seq k payload n l e h = ground (arith, n, l, e, h)

pub take-part :
    (p : TcpPcb) (seq k : ℕ) (payload : List ℕ)
    → seq_lt seq p.rcv_nxt ≡ true
    → sub32 p.rcv_nxt seq ≡ k
    → k < length payload
    → take_data p seq payload ≡ put_fresh p (add32 seq k) (drop k payload)
unfolding take_data
take-part p seq k payload l e h =
    rw
      (
        l,
        e,
        (let t : (length payload == 0) ≡ false = ground (arith, h) in t),
        (let t : leb (length payload) k ≡ false = ground (arith, h) in t),
      )
      refl

-- What `take_data` makes of bytes of the stream: none, or the next bytes are put into the ring.
TakesNext : List ℕ → ℕ → TcpPcb → List ℕ → Option (TcpPcb × Bool) → Type 0
TakesNext stream b p taken result =
    (result ≡ none)
    ⊎ ((bytes : List ℕ) × (whole : Bool) × (result
          ≡ some (
            record p { rx = tcp_rx_put p.rx bytes; rcv_nxt = add32 p.rcv_nxt (length bytes) },
            whole,
          ))
        × (tcp_rx_len p.rx + length bytes ≤ 4096)
        × StandsAt stream (length taken + length (contents p.rx)) bytes)

module _ (stream : List ℕ) (b : ℕ) (p : TcpPcb) (taken : List ℕ)
    (r : Receives stream b p.rx p.rcv_nxt taken) (short : length stream < 2 ^ 31) where
  -- How many bytes it has.
  got : ℕ
  got = length taken + length (contents p.rx)

  fitting-StandsAt :
      (fresh : List ℕ)
      → StandsAt stream got fresh
      → StandsAt stream got (fitting p.rx fresh)
        × (tcp_rx_len p.rx + length (fitting p.rx fresh) ≤ 4096)
  unfolding fitting
  fitting-StandsAt fresh s = elim (Bool-cases (ltb (tcp_rx_room p.rx) (length fresh))) [
    | inl more ↦ rw (more) (
      StandsAt-take stream got (tcp_rx_room p.rx) fresh (ground (arith, more)) s,
      omega (arith, length-take (tcp_rx_room p.rx) fresh, tcp_rx_room_lem p.rx r.ring),
    )
    | inr all ↦ rw (all) (s, ground (arith, all, tcp_rx_room_lem p.rx r.ring))
  ]

  none-StandsAt : (fresh : List ℕ) → length fresh ≡ 0 → StandsAt stream got fresh
  unfolding got
  none-StandsAt fresh z = record {
    inside = omega (arith, z, r.bound);
    same = sym (take_all 0 fresh (omega arith)) ∙ ap (λ n. take n (drop got stream)) (sym z);
  }

  put_fresh-TakesNext :
      (seq : ℕ) (fresh : List ℕ)
      → ((length fresh ≢ 0) × (seq ≢ p.rcv_nxt)) ⊎ StandsAt stream got fresh
      → TakesNext stream b p taken (put_fresh p seq fresh)
  unfolding put_fresh TakesNext got
  put_fresh-TakesNext seq fresh h =
      elim (Bool-cases (not (length fresh == 0) && not (seq == p.rcv_nxt))) [
        | inl other ↦ inl (rw (other) refl)
        | inr next ↦
            let s : StandsAt stream got fresh = elim h [
              | inl (n, m) ↦ absurd (ground (arith, next, n, m))
              | inr s ↦ s
            ] in
            inr (
              fitting p.rx fresh,
              length (fitting p.rx fresh) == length fresh,
              rw (next) refl,
              (fitting-StandsAt fresh s).1,
              (fitting-StandsAt fresh s).0,
            )
      ]

  -- The bytes of a segment are taken where they are the next ones, or some of them are.
  take_data-TakesNext :
      (o : ℕ) (payload : List ℕ)
      → StandsAt stream o payload
      → TakesNext stream b p taken (take_data p (at b o) payload)
  unfolding got TakesNext
  take_data-TakesNext o payload s = elim (ℕ_discrete (length payload) 0) [
    | yes z ↦
        subst (TakesNext stream b p taken) (sym (take-new p (at b o) payload (inl z)))
          (put_fresh-TakesNext (at b o) payload (inr (none-StandsAt payload z)))
    | no n ↦ elim (dec_lt o got) [
      | yes l ↦
          let known : sub32 p.rcv_nxt (at b o) ≡ got - o =
            ap (λ x. sub32 x (at b o)) r.next
            ∙ sub32-at b o got (omega (arith, l)) (omega (arith, r.bound, short)) in
          let before : seq_lt (at b o) p.rcv_nxt ≡ true =
            ap (seq_lt (at b o)) r.next
            ∙ (seq_lt-at b o got (omega (arith, l, r.bound, short)) (omega (arith, r.bound, short))
                ∙ ground (arith, l)) in
          elim (dec_lt (got - o) (length payload)) [
            | yes part ↦
                subst (TakesNext stream b p taken)
                  (sym (take-part p (at b o) (got - o) payload before known part))
                  (put_fresh-TakesNext (add32 (at b o) (got - o)) (drop (got - o) payload) (
                    inr (
                      subst (λ k. StandsAt stream k (drop (got - o) payload))
                        (let e : o + (got - o) ≡ got = omega (arith, l) in e)
                        (StandsAt-drop stream o (got - o) payload (omega (arith, part)) s))))
            | no all ↦
                inl (take-old p (at b o) (got - o) payload n before known (omega (arith, all)))
          ]
      | no m ↦
          subst (TakesNext stream b p taken)
            (sym (
              take-new p (at b o) payload (
                inr (
                  ap (seq_lt (at b o)) r.next
                  ∙ (seq_lt-at b o got (omega (arith, s.inside, short))
                        (omega (arith, r.bound, short))
                      ∙ ground (arith, m))))))
            (put_fresh-TakesNext (at b o) payload (elim (ℕ_discrete o got) [
              | yes e ↦ inr (subst (λ k. StandsAt stream k payload) e s)
              | no d ↦ inl (
                n,
                λ e. d (
                    at-injective b o got (omega (arith, s.inside, short))
                      (omega (arith, r.bound, short)) (e ∙ r.next)),
              )
            ]))
    ]
  ]

  -- Segments of the stream leave the receiver with the first bytes of it.
  pub take_data-Receives :
      (o : ℕ) (payload : List ℕ) (q : TcpPcb) (whole : Bool)
      → StandsAt stream o payload
      → take_data p (at b o) payload ≡ some (q, whole)
      → Receives stream b q.rx q.rcv_nxt taken × (record p { rx = q.rx; rcv_nxt = q.rcv_nxt } ≡ q)
  unfolding TakesNext
  take_data-Receives o payload q whole s e = elim (take_data-TakesNext o payload s) [
    | inl n ↦ absurd (ground (arith, e, n))
    | inr (bytes, w, f, room, t) ↦
        let same : record p { rx = tcp_rx_put p.rx bytes; rcv_nxt = add32 p.rcv_nxt (length bytes) }
            ≡ q =
          ground (arith, sym f ∙ e) in
        subst
          (λ x.
            Receives stream b x.rx x.rcv_nxt taken
            × (record p { rx = x.rx; rcv_nxt = x.rcv_nxt } ≡ x))
          same (Receives-put stream b p.rx p.rcv_nxt taken bytes r room t, refl)
  ]

pub put_fresh-fits :
    (p : TcpPcb) (seq : ℕ) (fresh : List ℕ)
    → seq ≡ p.rcv_nxt
    → length fresh ≤ tcp_rx_room p.rx
    → put_fresh p seq fresh
      ≡ some
          (record p { rx = tcp_rx_put p.rx fresh; rcv_nxt = add32 p.rcv_nxt (length fresh) }, true)
unfolding put_fresh fitting
put_fresh-fits p seq fresh e h =
    let all : ltb (tcp_rx_room p.rx) (length fresh) ≡ false = ground (arith, h) in
    let next : (not (length fresh == 0) && not (seq == p.rcv_nxt)) ≡ false = ground (arith, e) in
    let whole : (length fresh == length fresh) ≡ true = ground arith in rw (next, all, whole) refl

-- The last bytes of the stream, with room for what is new of them: all are there already, or what
-- is new is put into the ring.
pub take_data-last :
    (stream : List ℕ) (b : ℕ) (p : TcpPcb) (taken : List ℕ) (o : ℕ) (payload : List ℕ)
    → Receives stream b p.rx p.rcv_nxt taken
    → length stream < 2 ^ 31
    → o ≤ length taken + length (contents p.rx)
    → o + length payload ≡ length stream
    → length payload ≢ 0
    → length stream ≤ length taken + 4096
    → ((take_data p (at b o) payload ≡ none)
        × (length taken + length (contents p.rx) ≡ length stream))
      ⊎ ((bytes : List ℕ) × (take_data p (at b o) payload
            ≡ some (
              record p { rx = tcp_rx_put p.rx bytes; rcv_nxt = add32 p.rcv_nxt (length bytes) },
              true,
            ))
          × (length taken + length (contents p.rx) + length bytes ≡ length stream)
          × (tcp_rx_len p.rx + length bytes ≤ 4096))
take_data-last stream b p taken o payload r short old end some_bytes room = elim (dec_lt o got) [
  | no m ↦
      let new : take_data p (at b o) payload ≡ put_fresh p (at b o) payload =
        take-new p (at b o) payload (
          inr (
            ap (seq_lt (at b o)) r.next
            ∙ (seq_lt-at b o got (omega (arith, r.bound, short, old))
                  (omega (arith, r.bound, short))
                ∙ ground (arith, m)))) in
      inr (
        payload,
        new
            ∙ put_fresh-fits p (at b o) payload
                (ap (at b) (let e : o ≡ got = omega (arith, m, old) in e) ∙ sym r.next)
                (omega (arith, m, old, end, held, room, tcp_rx_room_lem p.rx r.ring)),
        omega (arith, m, old, end),
        omega (arith, m, old, end, held, room),
      )
  | yes l ↦
      let known : sub32 p.rcv_nxt (at b o) ≡ got - o =
        ap (λ x. sub32 x (at b o)) r.next
        ∙ sub32-at b o got (omega (arith, l)) (omega (arith, r.bound, short)) in
      let before : seq_lt (at b o) p.rcv_nxt ≡ true =
        ap (seq_lt (at b o)) r.next
        ∙ (seq_lt-at b o got (omega (arith, l, r.bound, short)) (omega (arith, r.bound, short))
            ∙ ground (arith, l)) in
      elim (dec_lt (got - o) (length payload)) [
        | yes part ↦ inr (
          drop (got - o) payload,
          take-part p (at b o) (got - o) payload before known part
              ∙ put_fresh-fits p (add32 (at b o) (got - o)) (drop (got - o) payload)
                  (add32-at b o (got - o)
                    ∙ (ap (at b) (let e : o + (got - o) ≡ got = omega (arith, l) in e)
                        ∙ sym r.next))
                  (omega (
                    arith,
                    l,
                    end,
                    held,
                    room,
                    tcp_rx_room_lem p.rx r.ring,
                    length-drop (got - o) payload,
                  )),
          omega (arith, l, part, end, length-drop (got - o) payload),
          omega (arith, l, part, end, held, room, length-drop (got - o) payload),
        )
        | no all ↦ inl (
          take-old p (at b o) (got - o) payload some_bytes before known (omega (arith, all)),
          omega (arith, all, end, r.bound, l),
        )
      ]
]
  where
    got : ℕ
    got = length taken + length (contents p.rx)

    held : length (contents p.rx) ≡ tcp_rx_len p.rx
    held = length-window p.rx.buf p.rx.head (tcp_rx_len p.rx)
