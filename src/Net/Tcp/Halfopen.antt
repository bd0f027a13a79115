-- ===== src/Net/Tcp/Halfopen.antt =====
-- Openings of drivers/net/tcp.c that are never answered.
use core_z_os.Base.{
  ℕ, ◌≤◌, ◌≡◌, refl, ap, ◌∙◌, Bool-cases, inl, inr, true, false, not, ◌&&◌, ◌||◌, List, [], ◌∷◌,
  arith, leb, ◌==◌,
}
use core_z_os.Net.Tcp.{
  TcpPcb, syn_sent, syn_rcvd, fin_wait1, last_ack, time_wait, same_state, seq_lt,
}
use core_z_os.Net.Tcp.Send.{tcp_connect}
use core_z_os.Net.Tcp.Input.{child_of}
use core_z_os.Net.Tcp.Tick.{is_due, tick_child, tick_pcb}
use core_z_os.Net.Tcp.Stream.{seq_lt_self}
use core_z_os.Net.Tcp.Duplex.{Opening, connecting, accepting}

-- The block after the timer has run at the times.
unfoldable pub ticked : List ℕ → TcpPcb → TcpPcb
ticked [] p = p
ticked (now ∷ times) p = ticked times (tick_pcb now p).0

-- A block that waits for the answer to its SYN, with at most one try counted.
record IsTrying (p : TcpPcb) : Type 0 where
  waits : p.state ≡ syn_sent
  there : p.active ≡ true
  few : p.retry ≤ 1

tick_pcb-IsTrying : (now : ℕ) (p : TcpPcb) → IsTrying p → IsTrying (tick_pcb now p).0
unfolding tick_pcb same_state
tick_pcb-IsTrying now p i =
    let opening : same_state p.state syn_sent ≡ true = ap (λ s. same_state s syn_sent) i.waits in
    let tries : leb 5 p.retry ≡ false = ground (arith, i.few) in
    elim (Bool-cases (not p.active || (p.tmo == 0) || not (is_due now p.tmo))) [
      | inl early ↦ rw (early) i
      | inr due ↦
          rw (due, opening, tries) (record { waits = i.waits; there = i.there; few = omega arith })
    ]

ticked-IsTrying : (times : List ℕ) (p : TcpPcb) → IsTrying p → IsTrying (ticked times p)
unfolding ticked
ticked-IsTrying [] p i = i
ticked-IsTrying (now ∷ times) p i =
    ticked-IsTrying times (tick_pcb now p).0 (tick_pcb-IsTrying now p i)

-- The timer does nothing for a block that waits for the third segment.
tick_pcb-quiet :
    (now : ℕ) (p : TcpPcb) → p.state ≡ syn_rcvd → p.snd_una ≡ p.snd_nxt → tick_pcb now p ≡ (p, [])
unfolding tick_pcb same_state
tick_pcb-quiet now p waits idle =
    let opening : same_state p.state syn_sent ≡ false = ap (λ s. same_state s syn_sent) waits in
    let out : seq_lt p.snd_una p.snd_nxt ≡ false =
      ap (λ n. seq_lt n p.snd_nxt) idle ∙ seq_lt_self p.snd_nxt in
    let closing : (same_state p.state fin_wait1 || same_state p.state last_ack) ≡ false =
      ap (λ s. same_state s fin_wait1 || same_state s last_ack) waits in
    let over : same_state p.state time_wait ≡ false = ap (λ s. same_state s time_wait) waits in
    elim (Bool-cases (not p.active || (p.tmo == 0) || not (is_due now p.tmo))) [
      | inl early ↦ rw (early) refl
      | inr due ↦ rw (due, opening, out, closing, over) refl
    ]

tick_child-quiet : (now : ℕ) (p : TcpPcb) → p.retry ≡ 0 → tick_child now p ≡ (p, [])
unfolding tick_child
tick_child-quiet now p z =
    let quiet : (p.active && same_state p.state syn_rcvd && not (p.retry == 0) && is_due now p.tmo)
        ≡ false =
      ground (arith, z) in
    rw (quiet) refl

-- An opening whose segments get no answer, at whatever times the timer runs: after any number of
-- runs the block that connects still waits in SYN_SENT and is in use; and neither loop of the timer
-- changes the block that a listener has taken, or sends its SYN and ACK again.
pub opening_never_ends :
    (o : Opening) (times : List ℕ) (now : ℕ)
    → ((ticked times (connecting o)).state ≡ syn_sent)
      × ((ticked times (connecting o)).active ≡ true)
      × (tick_pcb now (accepting o) ≡ (accepting o, []))
      × (tick_child now (accepting o) ≡ (accepting o, []))
unfolding child_of tcp_connect
opening_never_ends o times now =
    let i =
      ticked-IsTrying times (connecting o)
        (record { waits = refl; there = refl; few = omega arith }) in
    (
      i.waits,
      i.there,
      tick_pcb-quiet now (accepting o) refl refl,
      tick_child-quiet now (accepting o) refl,
    )
