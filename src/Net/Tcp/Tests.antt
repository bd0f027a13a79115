-- ===== src/Net/Tcp/Tests.antt =====
-- Runs of the model of drivers/net/tcp.c.
use core_z_os.Base.{
  ℕ, ◌+◌, ◌≤◌, ◌≡◌, refl, sym, ◌∙◌, subst, true, some, List, [], ◌∷◌, ◌++◌, arith, length, take,
  drop, replicate, length-replicate,
}
use core_z_os.Net.{Netif}
use core_z_os.Net.Arp.{Arp, arp_cache_size, unused}
use core_z_os.Net.Ip.{ip_packet}
use core_z_os.Net.Tcp.{
  TcpPcb, established, syn_sent, same_state, Segment, segment, cleared, tcp_init, segment_bytes,
  tcp_rx_len, tcp_rx_room, seq_lt, sub32, add32,
}
use core_z_os.Net.Tcp.Send.{
  next_len, may_send, fire_loop, window_of, tcp_fire, tx_put, tcp_send, tcp_connect, tcp_iss,
}
use core_z_os.Net.Tcp.Receive.{
  tcp_rx_put, fitting, put_fresh, take_data, take_ack, answer_data, tcp_input_established,
}
use core_z_os.Net.Tcp.Input.{to_block, child_of, tcp_segment, after_established}
use core_z_os.Net.Tcp.Tick.{tick_pcb, tick_child}
use core_z_os.Net.Tcp.Ring.{contents}
use core_z_os.Net.Tcp.Duplex.{
  arrive, End, start, IsAmong, first, send, input, Reach, here, left, right, Opening, connecting,
  accepting, connected, accepted,
}
use core_z_os.Net.Tcp.Oversize.{tcp_fire-segments, fire_loop-first, FirstRefused, long_send_refused}
use core_z_os.Net.Tcp.Recover.{timer_recovers}
use core_z_os.Net.Tcp.EarlyFin.{early_fin_skips_byte}
use core_z_os.Net.Tcp.Wire.{ip_input_tcp, tcp_over_ip}
use core_z_os.Net.Tcp.Halfopen.{ticked, opening_never_ends}
use core_z_os.Net.Tcp.Delivery.{Sound, reach-Sound}
use core_z_os.Net.Tcp.Handshake.{
  cleared-IsRing, connected-IsFresh, accepted-IsFresh, received_in_order,
}

abbrev card : ℕ → Netif
card ip = record {
  mac = record { m0 = 2; m1 = 0; m2 = 0; m3 = 0; m4 = 0; m5 = 1 };
  ip = ip;
  mask = 0xffffff00;
  gw = 0x0a000002;
  has_tx = true;
}

abbrev no_cache : Arp
no_cache = record { cache = replicate arp_cache_size unused; tick = 3 }

abbrev opening : Opening
opening = record {
  client_if = card 0x0a00000f;
  server_if = card 0x0a000010;
  client_time = 5000;
  server_time = 7000;
  client_iss0 = 0;
  server_iss0 = 0;
  stack = 4096;
  answer_time = 5010;
  opened_time = 7020;
  ip = 0x0a000010;
  port = 80;
  listener = record cleared { active = true; local_port = 80 };
}

-- The client writes two bytes.
abbrev client : TcpPcb
client = (connected opening).0

abbrev sending : TcpPcb
sending = record client {
  txb = tx_put client.txb client.tx_len (72 ∷ 105 ∷ []);
  tx_len = client.tx_len + 2;
}

abbrev wrote : End
wrote = record {
  pcb = (tcp_fire 5100 sending).0;
  written = [] ++ (72 ∷ 105 ∷ []);
  taken = [];
  sent = [] ++ (tcp_fire 5100 sending).1;
}

wrote-Reach : Reach (start client) (start (accepted opening).0) wrote (start (accepted opening).0)
unfolding tcp_send tcp_connect tcp_segment same_state tcp_input_established child_of segment
wrote-Reach =
    left here (send 5100 (72 ∷ 105 ∷ []) (tcp_fire 5100 sending).0 (tcp_fire 5100 sending).1 refl)

-- The server gets them.
abbrev limit : ℕ
limit = add32 sending.snd_una sending.tx_len

abbrev carried : Segment
carried = segment sending sending.snd_nxt sending.rcv_nxt 16 (
    take (next_len (sub32 limit sending.snd_nxt) (window_of sending))
      (drop (sub32 sending.snd_nxt sending.snd_una) sending.txb))

sends_more : may_send sending (window_of sending) limit sending.snd_nxt ≡ true
unfolding tcp_connect tcp_segment same_state tcp_input_established child_of segment may_send
    next_len seq_lt tcp_iss tcp_rx_len
sends_more = refl

carried-IsAmong : IsAmong carried wrote.sent
carried-IsAmong =
    subst (IsAmong carried)
      (sym (
        tcp_fire-segments 5100 sending
        ∙ fire_loop-first 8192 sending (window_of sending) limit sending.snd_nxt sends_more))
      first

abbrev got : End
got = record {
  pcb = (arrive 7100 carried (accepted opening).0).0;
  written = [];
  taken = [];
  sent = [] ++ (arrive 7100 carried (accepted opening).0).1;
}

got-Reach : Reach (start client) (start (accepted opening).0) wrote got
got-Reach = right wrote-Reach (input 7100 carried carried-IsAmong)

-- The client's bytes wait in the server's ring.
received_in_order_example :
    (got.taken ++ contents got.pcb.rx
      ≡ take (length (got.taken ++ contents got.pcb.rx)) wrote.written)
    × (wrote.taken ++ contents wrote.pcb.rx
        ≡ take (length (wrote.taken ++ contents wrote.pcb.rx)) got.written)
received_in_order_example =
    received_in_order opening wrote got got-Reach (omega arith) (omega arith)

got_both : contents got.pcb.rx ≡ 72 ∷ 105 ∷ []
unfolding tcp_connect tcp_segment same_state tcp_input_established child_of segment tcp_fire
    fire_loop may_send next_len seq_lt tx_put take_ack answer_data take_data put_fresh fitting
    tcp_rx_put tcp_rx_room tcp_rx_len after_established tcp_iss
got_both = refl

-- The segment was lost, and the timer of the client is due.
ends_Sound :
    Sound ((connecting opening).iss + 1) ((accepting opening).iss + 1) wrote []
    × Sound
        ((accepting opening).iss + 1)
        ((connecting opening).iss + 1)
        (start (accepted opening).0)
        (72 ∷ 105 ∷ [])
ends_Sound =
    reach-Sound ((connecting opening).iss + 1) ((accepting opening).iss + 1) (connected opening).0
      (accepted opening).0 wrote (start (accepted opening).0) (connected-IsFresh opening)
      (accepted-IsFresh opening) wrote-Reach (omega arith) (omega arith)

timer_recovers_example :
    (x : Segment) × (q' : TcpPcb) × (a : Segment) × ((tick_pcb 9000 wrote.pcb).1 ≡ x ∷ [])
    × (length x.payload ≤ 1440)
    × (arrive 9010 x (accepted opening).0 ≡ (q', a ∷ []))
    × ([] ++ contents q'.rx ≡ 72 ∷ 105 ∷ [])
    × ((arrive 9020 a (tick_pcb 9000 wrote.pcb).0).0.tx_len ≡ 0)
unfolding tcp_connect tcp_segment same_state tcp_input_established child_of segment tcp_fire
    fire_loop may_send next_len seq_lt tx_put take_ack answer_data take_data put_fresh fitting
    tcp_rx_put tcp_rx_room tcp_rx_len after_established tcp_iss
timer_recovers_example =
    timer_recovers (72 ∷ 105 ∷ []) [] ((connecting opening).iss + 1) ((accepting opening).iss + 1)
      [] [] wrote.pcb (accepted opening).0 9000 9010 9020 ends_Sound.0.talks ends_Sound.1.talks
      (omega arith) refl (omega arith) refl (omega arith) refl (omega arith) (omega arith) refl refl
      (omega arith) (omega arith)

abbrev to_server : Segment
to_server = record {
  sport = 10000;
  dport = 80;
  saddr = 0x0a00000f;
  daddr = 0x0a000010;
  seq = 5000;
  ack = 0;
  flags = 2;
  wnd = 4096;
  payload = [];
}

tcp_over_ip_example :
    ip_input_tcp
      (card 0x0a000010)
      7000
      (ip_packet (card 0x0a00000f) 0x0a000010 6 (segment_bytes to_server))
      tcp_init
    ≡ to_block (card 0x0a000010) 7000 0x0a00000f 10000 80 5000 0 2 4096 [] tcp_init
tcp_over_ip_example =
    tcp_over_ip (card 0x0a00000f) (card 0x0a000010) 7000 to_server tcp_init
      (record {
        sport_lt = omega arith;
        dport_lt = omega arith;
        saddr_lt = omega arith;
        daddr_lt = omega arith;
        seq_fits = omega arith;
        ack_lt = omega arith;
        flags_lt = omega arith;
        wnd_lt = omega arith;
        bytes = tt;
        fits = omega arith;
      })
      refl refl

-- A connection that has been opened, with a wide window.
abbrev wide : TcpPcb
wide = record cleared {
  active = true;
  state = established;
  snd_una = 100;
  snd_nxt = 100;
  snd_wnd = 4096;
}

long_send_refused_example :
    (q : TcpPcb) × (segs : List Segment) × (tcp_send 5000 wide (replicate 2000 7) ≡ some (q, segs))
    × FirstRefused (card 0x0a00000f) no_cache [] 100 segs
long_send_refused_example =
    long_send_refused (card 0x0a00000f) no_cache [] 5000 wide (replicate 2000 7) refl refl
      (length-replicate {A = ℕ} 8192 0) refl (omega arith) (omega arith)
      (omega (arith, length-replicate {A = ℕ} 2000 7))
      (omega (arith, length-replicate {A = ℕ} 2000 7))

opening_never_ends_example :
    ((ticked (6000 ∷ 12000 ∷ []) (connecting opening)).state ≡ syn_sent)
    × ((ticked (6000 ∷ 12000 ∷ []) (connecting opening)).active ≡ true)
    × (tick_pcb 9000 (accepting opening) ≡ (accepting opening, []))
    × (tick_child 9000 (accepting opening) ≡ (accepting opening, []))
opening_never_ends_example = opening_never_ends opening (6000 ∷ 12000 ∷ []) 9000

abbrev waiting : TcpPcb
waiting = record cleared {
  active = true;
  state = established;
  snd_una = 100;
  snd_nxt = 100;
  rcv_nxt = 700;
}

-- "Hi" comes after the FIN, and "i" is what the program gets.
early_fin_skips_byte_example :
    contents
      (tcp_segment 9200 700 100 16 4096
        (72 ∷ 105 ∷ [])
        (tcp_segment 9100 702 100 17 4096 [] waiting).0).0.rx
    ≡ contents waiting.rx ++ (105 ∷ [])
early_fin_skips_byte_example =
    early_fin_skips_byte 9100 9200 702 100 4096 4096 72 (105 ∷ []) waiting refl refl refl
      (omega arith) (omega arith) cleared-IsRing (unfold tcp_rx_len in omega arith)
