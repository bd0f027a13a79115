-- ===== src/Net/Tcp/Handshake.antt =====
-- What opening a connection of drivers/net/tcp.c leaves at its two ends.
use core_z_os.Base.{
  ℕ, ◌+◌, ◌^◌, ◌<◌, ◌≡◌, refl, sym, ap, ◌∙◌, subst, true, not, if◌then◌else◌, List, [], ◌++◌, arith,
  length, take, length-append, length-replicate, ◌==◌,
}
use core_z_os.Net.Tcp.{
  TcpPcb, Rx, syn_rcvd, established, segment, cleared, same_state, tcp_rx_len, add32, flag_ack,
}
use core_z_os.Net.Tcp.Send.{tcp_connect}
use core_z_os.Net.Tcp.Receive.{
  take_ack, take_data, put_fresh, fitting, tcp_rx_put, answer_data, tcp_input_established,
}
use core_z_os.Net.Tcp.Input.{child_of, tcp_segment}
use core_z_os.Net.Tcp.Ring.{IsRing, contents}
use core_z_os.Net.Tcp.Stream.{seq_lt_self, Receives}
use core_z_os.Net.Tcp.Delivery.{IsFresh, reach-Sound}
use core_z_os.Net.Tcp.Duplex.{
  End, start, Reach, Opening, connecting, accepting, connected, accepted,
}

pub cleared-IsRing : IsRing cleared.rx
unfolding tcp_rx_len
cleared-IsRing = record {
  size = length-replicate {A = ℕ} 4096 0;
  head_lt = omega arith;
  tail_lt = omega arith;
  fits = omega arith;
}

pub connected-IsFresh :
    (o : Opening) → IsFresh ((connecting o).iss + 1) ((accepting o).iss + 1) (connected o).0
unfolding tcp_segment same_state child_of tcp_connect segment tcp_rx_len tcp_input_established
connected-IsFresh o = record {
  open_state = refl;
  una_eq = omega arith;
  nxt_eq = omega arith;
  rcv_eq = omega arith;
  nothing = refl;
  size = length-replicate {A = ℕ} 8192 0;
  ring = cleared-IsRing;
  empty = refl;
}

self-eq : (n : ℕ) → (n == n) ≡ true
self-eq n = ground arith

pub fitting-nil : (rx : Rx) → fitting rx [] ≡ []
unfolding fitting
fitting-nil rx = ground arith

-- The third segment opens a connection that has answered the first one.
third_segment :
    (p : TcpPcb) (now seq wnd n : ℕ)
    → p.state ≡ syn_rcvd
    → p.snd_una ≡ n
    → p.snd_nxt ≡ n
    → (tcp_segment now seq n flag_ack wnd [] p).0 ≡ record p {
      snd_wnd = if not (wnd == 0) then wnd else 1460;
      state = established;
      retry = 0;
      tmo = 0;
      rcv_nxt = add32 p.rcv_nxt 0;
    }
unfolding tcp_segment same_state tcp_input_established take_ack answer_data take_data put_fresh
    tcp_rx_put
third_segment p now seq wnd n e f g = rw (e, f, g, self-eq n, seq_lt_self n, fitting-nil p.rx) refl

pub accepted-IsFresh :
    (o : Opening) → IsFresh ((accepting o).iss + 1) ((connecting o).iss + 1) (accepted o).0
unfolding child_of tcp_connect tcp_segment same_state tcp_input_established segment tcp_rx_len
accepted-IsFresh o =
    let same =
      third_segment (accepting o) o.opened_time (connected o).0.snd_nxt
        (segment (connected o).0 0 0 0 []).wnd (accepting o).snd_nxt refl refl refl in
    subst (IsFresh ((accepting o).iss + 1) ((connecting o).iss + 1)) (sym same) (record {
      open_state = refl;
      una_eq = omega arith;
      nxt_eq = omega arith;
      rcv_eq = omega arith;
      nothing = refl;
      size = length-replicate {A = ℕ} 8192 0;
      ring = cleared-IsRing;
      empty = refl;
    })

-- Over a connection that the three segments have opened, while neither end closes it or shuts it down
-- (a segment has no FIN), whatever the network does: while each program has written fewer than
-- 2 ^ 31 bytes, what `tcp_recv` has given to a program and what waits in its ring are, one after the
-- other, the first bytes that the other program has written.
pub received_in_order :
    (o : Opening) (e f : End)
    → Reach (start (connected o).0) (start (accepted o).0) e f
    → length e.written < 2 ^ 31
    → length f.written < 2 ^ 31
    → (f.taken ++ contents f.pcb.rx ≡ take (length (f.taken ++ contents f.pcb.rx)) e.written)
      × (e.taken ++ contents e.pcb.rx ≡ take (length (e.taken ++ contents e.pcb.rx)) f.written)
received_in_order o e f r h k =
    let (s, t) =
      reach-Sound ((connecting o).iss + 1) ((accepting o).iss + 1) (connected o).0 (accepted o).0 e
        f (connected-IsFresh o) (accepted-IsFresh o) r h k in
    (in_order t.talks.receiver, in_order s.talks.receiver)
  where
    in_order :
        {stream : List ℕ} {b : ℕ} {rx : Rx} {n : ℕ} {taken : List ℕ}
        → Receives stream b rx n taken
        → taken ++ contents rx ≡ take (length (taken ++ contents rx)) stream
    in_order {stream} {b} {rx} {n} {taken} r =
        r.prefix ∙ ap (λ k. take k stream) (sym (length-append taken (contents rx)))
