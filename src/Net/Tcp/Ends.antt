-- ===== src/Net/Tcp/Ends.antt =====
-- The loops of drivers/net/tcp.c over the send buffer come to their ends.
use core_z_os.Base.{ℕ, zero, suc, ◌≤◌, ◌<◌, ◌≡◌, Bool-cases, inl, inr, true, false, arith}
use core_z_os.Net.Tcp.{TcpPcb, sub32, add32}
use core_z_os.Net.Tcp.Send.{next_len, may_send, fire_loop}

-- Every round takes at least one byte, and no more than are left.
round-takes :
    (p : TcpPcb) (window limit cursor : ℕ)
    → may_send p window limit cursor ≡ true
    → (0 < next_len (sub32 limit cursor) window)
      × (next_len (sub32 limit cursor) window ≤ sub32 limit cursor)
unfolding may_send next_len
round-takes p window limit cursor t = (ground (arith, t), ground arith)

-- With fuel for one round more than there are bytes, the loop of `tcp_fire` ends as its test says.
pub fire_loop_ends :
    (fuel : ℕ) (p : TcpPcb) (window limit cursor : ℕ)
    → sub32 limit cursor < fuel
    → may_send p window limit (fire_loop fuel p window limit cursor).1 ≡ false
unfolding fire_loop
fire_loop_ends zero p window limit cursor h = absurd (omega (arith, h))
fire_loop_ends (suc fuel) p window limit cursor h =
    elim (Bool-cases (may_send p window limit cursor)) [
      | inl t ↦
          let (more, less) = round-takes p window limit cursor t in
          let rest =
            fire_loop_ends fuel p window limit (add32 cursor (next_len (sub32 limit cursor) window))
              (omega (arith, h, more, less)) in
          rw (t) rest
      | inr f ↦ rw (f) f
    ]
