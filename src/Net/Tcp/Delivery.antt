-- ===== src/Net/Tcp/Delivery.antt =====
-- What two programs get of each other's bytes over a connection of drivers/net/tcp.c.
use core_z_os.Base.{
  ℕ, ◌+◌, ◌^◌, ◌≤◌, ◌<◌, ◌≡◌, refl, sym, ap, ◌∙◌, subst, List, [], ◌∷◌, ◌++◌, arith, length, take,
  All, All-append, length-append, take_all,
}
use core_z_os.Net.Tcp.{TcpPcb, established, Segment, tcp_rx_len}
use core_z_os.Net.Tcp.Tick.{tick_pcb}
use core_z_os.Net.Tcp.Ring.{IsRing, contents, window}
use core_z_os.Net.Tcp.Stream.{at}
use core_z_os.Net.Tcp.Sender.{Carries}
use core_z_os.Net.Tcp.Keeps.{OnSome, Carries-more}
use core_z_os.Net.Tcp.Established.{
  Talks, Talked, tcp_segment-Talked, tcp_recv-Talked, tcp_send-Talked, tick_pcb-Talked, Talks-more,
}
use core_z_os.Net.Tcp.Duplex.{
  arrive, End, start, IsAmong, first, later, Move, send, recv, timer, input, Reach, here, left,
  right,
}

-- A connection that has just been opened: nothing is on its way, the next byte that it sends has
-- the number b, and the next one that it wants the number c.
pub record IsFresh (b c : ℕ) (p : TcpPcb) : Type 0 where
  pub open_state : p.state ≡ established
  pub una_eq : p.snd_una ≡ at b 0
  pub nxt_eq : p.snd_nxt ≡ at b 0
  pub rcv_eq : p.rcv_nxt ≡ at c 0
  pub nothing : p.tx_len ≡ 0
  pub size : length p.txb ≡ 8192
  pub ring : IsRing p.rx
  pub empty : tcp_rx_len p.rx ≡ 0

fresh-Talks : (b c : ℕ) (p : TcpPcb) → IsFresh b c p → Talks [] b [] c [] p
fresh-Talks b c p f = record {
  sender = record {
    acked = 0;
    sent = 0;
    una_eq = f.una_eq;
    nxt_eq = f.nxt_eq;
    order = omega arith;
    limit = omega arith;
    total = omega (arith, f.nothing);
    room = omega (arith, f.nothing);
    size = f.size;
    held = ap (λ n. take n p.txb) f.nothing ∙ take_zero p.txb;
  };
  receiver = record {
    ring = f.ring;
    next =
        f.rcv_eq
        ∙ ap (at c) (let e : 0 ≡ 0 + length (contents p.rx) = omega (arith, none_held) in e);
    bound = omega (arith, none_held);
    prefix =
        ap (window p.rx.buf p.rx.head) f.empty
        ∙ sym (take_all (0 + length (contents p.rx)) [] (omega arith));
  };
  open_state = f.open_state;
}
  where
    none_held : length (contents p.rx) ≡ 0
    none_held = ap (λ n. length (window p.rx.buf p.rx.head n)) f.empty

    take_zero : (xs : List ℕ) → take 0 xs ≡ []
    take_zero [] = refl
    take_zero (x ∷ xs) = refl

-- One end, of bytes numbered from b on, and what the other one has written.
pub record Sound (b c : ℕ) (e : End) (other : List ℕ) : Type 0 where
  pub talks : Talks e.written b other c e.taken e.pcb
  pub out : All (Carries e.written b) e.sent

among-All : (P : Segment → Type 0) (x : Segment) (xs : List Segment) → All P xs → IsAmong x xs → P x
among-All P x [] h m = elim m [ ]
among-All P x (y ∷ ys) h first = h.0
among-All P x (y ∷ ys) h (later m) = among-All P x ys h.1 m

All-Carries-more :
    (stream more : List ℕ) (b : ℕ) (xs : List Segment)
    → All (Carries stream b) xs
    → All (Carries (stream ++ more) b) xs
All-Carries-more stream more b [] h = tt
All-Carries-more stream more b (x ∷ xs) (h, t) =
    (Carries-more stream more b x h, All-Carries-more stream more b xs t)

-- An end after a call that gave the block and the segments r.
called :
    (own other more : List ℕ) (b c : ℕ) (taken : List ℕ) (sent : List Segment)
    (r : TcpPcb × List Segment)
    → All (Carries own b) sent
    → Talked (own ++ more) b other c taken r
    → Sound b c
        (record { pcb = r.0; written = own ++ more; taken = taken; sent = sent ++ r.1 })
        other
called own other more b c taken sent r s (t, cs) = record {
  talks = t;
  out = All-append (Carries (own ++ more) b) sent r.1 (All-Carries-more own more b sent s) cs;
}

same-called :
    (own other : List ℕ) (b c : ℕ) (taken : List ℕ) (sent : List Segment)
    (r : TcpPcb × List Segment)
    → All (Carries own b) sent
    → Talked own b other c taken r
    → Sound b c (record { pcb = r.0; written = own; taken = taken; sent = sent ++ r.1 }) other
same-called own other b c taken sent r s (t, cs) = record {
  talks = t;
  out = All-append (Carries own b) sent r.1 s cs;
}

-- A move of an end keeps both sound: its own bytes are only added to.
Move-Sound :
    (b c : ℕ) (e f e' : End)
    → Sound b c e f.written
    → Sound c b f e.written
    → length e'.written < 2 ^ 31
    → length f.written < 2 ^ 31
    → Move f.sent e e'
    → Sound b c e' f.written × Sound c b f e'.written
Move-Sound b c e f e' s t short room (send now payload q segs k) = (
  called e.written f.written payload b c e.taken e.sent (q, segs) s.out
      (subst (OnSome (Talked (e.written ++ payload) b f.written c e.taken)) k
        (tcp_send-Talked e.written f.written payload b c e.taken e.pcb now short s.talks)),
  record { talks = Talks-more f.written e.written payload c b f.taken f.pcb t.talks; out = t.out },
)
Move-Sound b c e f e' s t short room (recv len bytes q segs k) = (
  same-called e.written f.written b c (e.taken ++ bytes) e.sent (q, segs) s.out
      (subst (OnSome (λ r. Talked e.written b f.written c (e.taken ++ r.0) (r.1, r.2))) k
        (tcp_recv-Talked e.written f.written b c e.taken e.pcb len short s.talks)),
  t,
)
Move-Sound b c e f e' s t short room (timer now) = (
  same-called e.written f.written b c e.taken e.sent (tick_pcb now e.pcb) s.out
      (tick_pcb-Talked e.written f.written b c e.taken e.pcb now short s.talks),
  t,
)
Move-Sound b c e f e' s t short room (input now x m) = (
  same-called e.written f.written b c e.taken e.sent (arrive now x e.pcb) s.out (
      tcp_segment-Talked e.written f.written b c short e.taken e.pcb now x room s.talks
        (among-All (Carries f.written c) x f.sent t.out m)),
  t,
)

Move-grows :
    (net : List Segment) (e e' : End) → Move net e e' → length e.written ≤ length e'.written
Move-grows net e e' (send now payload q segs k) = omega (arith, length-append e.written payload)
Move-grows net e e' (recv len bytes q segs k) = omega arith
Move-grows net e e' (timer now) = omega arith
Move-grows net e e' (input now x m) = omega arith

pub reach-Sound :
    (b c : ℕ) (p q : TcpPcb) (e f : End)
    → IsFresh b c p
    → IsFresh c b q
    → Reach (start p) (start q) e f
    → length e.written < 2 ^ 31
    → length f.written < 2 ^ 31
    → Sound b c e f.written × Sound c b f e.written
reach-Sound b c p q e f i j here h k = (
  record { talks = fresh-Talks b c p i; out = tt },
  record { talks = fresh-Talks c b q j; out = tt },
)
reach-Sound b c p q e f i j (left {x = e0} r m) h k =
    let (s, t) = reach-Sound b c p q e0 f i j r (omega (arith, h, Move-grows f.sent e0 e m)) k in
    Move-Sound b c e0 f e s t h k m
reach-Sound b c p q e f i j (right {y = f0} r m) h k =
    let (s, t) = reach-Sound b c p q e f0 i j r h (omega (arith, k, Move-grows e.sent f0 f m)) in
    let (t', s') = Move-Sound c b f0 e f t s k h m in (s', t')
