-- ===== src/Net/Tcp/EarlyFin.antt =====
-- A FIN of drivers/net/tcp.c that overtakes bytes.
use core_z_os.Base.{
  ℕ, ◌+◌, ◌^◌, ◌≤◌, ◌<◌, ◌≡◌, refl, sym, ap, ◌∙◌, Bool-cases, inl, inr, true, false, not, some,
  List, [], ◌∷◌, ◌++◌, arith, leb, ◌==◌, if◌then◌else◌, length,
}
use mathlib.Core.List.{append-nil}
use core_z_os.Net.Tcp.{
  TcpPcb, syn_sent, syn_rcvd, established, close_wait, last_ack, same_state, Segment, seq_lt, sub32,
  add32, flag_fin, flag_ack, tcp_rx_len,
}
use core_z_os.Net.Tcp.Receive.{
  ack_segment, tcp_rx_put, put_fresh, take_data, take_ack, answer_data, tcp_input_established,
}
use core_z_os.Net.Tcp.Input.{tcp_segment, after_established}
use core_z_os.Net.Tcp.Ring.{IsRing, contents, tcp_rx_put_lem, tcp_rx_room_lem}
use core_z_os.Net.Tcp.Stream.{seq_lt_self}
use core_z_os.Net.Tcp.Take.{take-part, take-old, put_fresh-fits}
use core_z_os.Net.Tcp.Recover.{take_ack-same}
use core_z_os.Net.Tcp.Handshake.{fitting-nil}

-- The block with the FIN taken, and its own FIN sent.
abbrev finished : ℕ → ℕ → ℕ → TcpPcb → TcpPcb
finished now n wnd p = record p {
  snd_wnd = if not (wnd == 0) then wnd else 1460;
  state = last_ack;
  fin_rcvd = true;
  rcv_nxt = add32 (add32 p.rcv_nxt 0) 1;
  snd_nxt = add32 p.snd_nxt 1;
  tmo = add32 now 1000;
  retry = 0;
}

abbrev half_closed : ℕ → TcpPcb → TcpPcb
half_closed wnd p = record p {
  snd_wnd = if not (wnd == 0) then wnd else 1460;
  state = close_wait;
  fin_rcvd = true;
  rcv_nxt = add32 (add32 p.rcv_nxt 0) 1;
}

fin-input :
    (now seq n wnd : ℕ) (p : TcpPcb)
    → p.state ≡ established
    → p.snd_una ≡ n
    → p.snd_nxt ≡ n
    → tcp_input_established now
        (record p { snd_wnd = if not (wnd == 0) then wnd else 1460 })
        seq
        (flag_fin + flag_ack)
        []
        n
      ≡ (half_closed wnd p, ack_segment (half_closed wnd p) ∷ [])
unfolding tcp_input_established answer_data take_data put_fresh tcp_rx_put
fin-input now seq n wnd p e una nxt =
    let opened : same_state p.state established ≡ true =
      unfold same_state in ap (λ s. same_state s established) e in
    rw
      (
        take_ack-same now n (record p { snd_wnd = if not (wnd == 0) then wnd else 1460 }) una nxt,
        fitting-nil p.rx,
        opened,
      )
      refl

-- Whatever its number, a FIN is taken at once.
fin_arrives :
    (now seq n wnd : ℕ) (p : TcpPcb)
    → p.state ≡ established
    → p.snd_una ≡ n
    → p.snd_nxt ≡ n
    → (tcp_segment now seq n (flag_fin + flag_ack) wnd [] p).0 ≡ finished now n wnd p
unfolding tcp_segment same_state after_established
fin_arrives now seq n wnd p e una nxt =
    let opening : same_state p.state syn_sent ≡ false = ap (λ s. same_state s syn_sent) e in
    let opened : same_state p.state syn_rcvd ≡ false = ap (λ s. same_state s syn_rcvd) e in
    rw (opening, opened, fin-input now seq n wnd p e una nxt) refl

last_ack-rx :
    (now ack : ℕ) (p : TcpPcb)
    → p.state ≡ last_ack
    → (after_established now flag_ack ack p).0.rx ≡ p.rx
unfolding after_established same_state
last_ack-rx now ack p e = elim (Bool-cases (ack == p.snd_nxt)) [
  | inl t ↦ rw (e, t) refl
  | inr f ↦ rw (e, f) refl
]

-- A segment for a block in LAST_ACK: the ring is what `tcp_input_established` leaves.
last_ack-input :
    (now seq n wnd : ℕ) (payload : List ℕ) (q : TcpPcb) (r : TcpPcb × List Segment)
    → q.state ≡ last_ack
    → tcp_input_established now
        (record q { snd_wnd = if not (wnd == 0) then wnd else 1460 })
        seq
        flag_ack
        payload
        n
      ≡ r
    → r.0.state ≡ last_ack
    → (tcp_segment now seq n flag_ack wnd payload q).0.rx ≡ r.0.rx
unfolding tcp_segment same_state
last_ack-input now seq n wnd payload q r e f g =
    let opening : same_state q.state syn_sent ≡ false = ap (λ s. same_state s syn_sent) e in
    let opened : same_state q.state syn_rcvd ≡ false = ap (λ s. same_state s syn_rcvd) e in
    rw (opening, opened, f) (last_ack-rx now n r.0 g)

-- A number that is acknowledged already, behind a FIN of one's own.
take_ack-finished :
    (now n : ℕ) (p : TcpPcb)
    → n < 2 ^ 32
    → p.snd_una ≡ n
    → p.snd_nxt ≡ add32 n 1
    → take_ack now p n ≡ some (p, [])
unfolding take_ack
take_ack-finished now n p small una nxt =
    let beyond : seq_lt p.snd_nxt n ≡ false =
      ap (λ k. seq_lt k n) nxt
      ∙ unfold seq_lt in
        (let e : leb (2 ^ 31) (sub32 (add32 n 1) n) ≡ false = ground (arith, small) in e) in
    let new : seq_lt p.snd_una n ≡ false = ap (λ k. seq_lt k n) una ∙ seq_lt_self n in
    rw (beyond, new) refl

before : (m k : ℕ) → m < 2 ^ 32 → k ≡ add32 m 1 → seq_lt m k ≡ true
unfolding seq_lt
before m k low e = ground (arith, low, e)

-- The bytes from the number m on, where the block counts the first of them as taken.
late_bytes :
    (now m n wnd x : ℕ) (xs : List ℕ) (q : TcpPcb)
    → q.state ≡ last_ack
    → q.snd_una ≡ n
    → q.snd_nxt ≡ add32 n 1
    → q.rcv_nxt ≡ add32 m 1
    → n < 2 ^ 32
    → m < 2 ^ 32
    → IsRing q.rx
    → tcp_rx_len q.rx + length xs ≤ 4096
    → contents (tcp_segment now m n flag_ack wnd (x ∷ xs) q).0.rx ≡ contents q.rx ++ xs
unfolding tcp_input_established answer_data
late_bytes now m n wnd x [] q e una nxt rcv small low ring room =
    let old : seq_lt m q.rcv_nxt ≡ true = before m q.rcv_nxt low rcv in
    let past : sub32 q.rcv_nxt m ≡ 1 = omega (arith, rcv, low) in
    let q0 : TcpPcb = record q { snd_wnd = if not (wnd == 0) then wnd else 1460 } in
    ap contents (
      last_ack-input now m n wnd (x ∷ []) q (q0, ack_segment q0 ∷ []) e
        (rw
          (
            take_ack-finished now n q0 small una nxt,
            answer_data,
            take-old q0 m 1 (x ∷ []) (omega arith) old past (omega arith),
          )
          refl)
        e)
    ∙ sym (append-nil (contents q.rx))
late_bytes now m n wnd x (y ∷ ys) q e una nxt rcv small low ring room =
    let old : seq_lt m q.rcv_nxt ≡ true = before m q.rcv_nxt low rcv in
    let past : sub32 q.rcv_nxt m ≡ 1 = omega (arith, rcv, low) in
    let q0 : TcpPcb = record q { snd_wnd = if not (wnd == 0) then wnd else 1460 } in
    let q1 : TcpPcb = record q0 {
      rx = tcp_rx_put q0.rx (y ∷ ys);
      rcv_nxt = add32 q0.rcv_nxt (length (y ∷ ys));
    } in
    let some_bytes : (length (x ∷ y ∷ ys) == 0) ≡ false = ground arith in
    let taken : take_data q0 m (x ∷ y ∷ ys) ≡ some (q1, true) =
      take-part q0 m 1 (x ∷ y ∷ ys) old past (omega arith)
      ∙ put_fresh-fits q0 (add32 m 1) (y ∷ ys) (sym rcv)
          (omega (arith, room, tcp_rx_room_lem q.rx ring)) in
    ap contents (
      last_ack-input now m n wnd (x ∷ y ∷ ys) q (q1, ack_segment q1 ∷ []) e
        (rw (take_ack-finished now n q0 small una nxt, answer_data, taken, some_bytes) refl) e)
    ∙ (tcp_rx_put_lem (y ∷ ys) q.rx ring room).1

-- A connection with nothing on its way from this end. A FIN comes, with any number, before the bytes
-- from the next number on, then these bytes, which fit but for the first: the first of them is
-- never put into the ring, and the others follow what was there.
pub early_fin_skips_byte :
    (now later seq n wnd wnd' x : ℕ) (xs : List ℕ) (p : TcpPcb)
    → p.state ≡ established
    → p.snd_una ≡ n
    → p.snd_nxt ≡ n
    → n < 2 ^ 32
    → p.rcv_nxt < 2 ^ 32
    → IsRing p.rx
    → tcp_rx_len p.rx + length xs ≤ 4096
    → contents
        (tcp_segment later p.rcv_nxt n flag_ack wnd'
          (x ∷ xs)
          (tcp_segment now seq n (flag_fin + flag_ack) wnd [] p).0).0.rx
      ≡ contents p.rx ++ xs
early_fin_skips_byte now later seq n wnd wnd' x xs p e una nxt small low ring room =
    ap (λ q. contents (tcp_segment later p.rcv_nxt n flag_ack wnd' (x ∷ xs) q).0.rx)
      (fin_arrives now seq n wnd p e una nxt)
    ∙ late_bytes later p.rcv_nxt n wnd' x xs (finished now n wnd p) refl una
        (ap (λ k. add32 k 1) nxt) (omega (arith, low)) small low ring room
