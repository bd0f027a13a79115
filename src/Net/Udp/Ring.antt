-- ===== src/Net/Udp/Ring.antt =====
-- The datagrams that wait in the ring of a block of drivers/net/udp.c, while its tail is inside the
-- buffer.
use mathlib.Core.List.{append_assoc, append-nil}
use core_z_os.Base.{
  ℕ, suc, ◌+◌, ◌-◌, ◌%◌, ◌^◌, ◌≤◌, ◌<◌, ◌≡◌, sym, ap, ap₂, ◌∙◌, true, false, List, [], ◌∷◌, ◌++◌,
  arith, ltb, length, take, drop, set, length-set, slice-set,
}
use core_z_os.Net.{net_put16, net_put32}
use core_z_os.Net.Udp.{UdpPcb, put_byte, put_bytes, udp_rx_put, udp_rx_room, rx_used, udp_rx_ready}

pub record IsValid (p : UdpPcb) : Type 0 where
  pub size : length p.rx ≡ 16384
  pub ordered : p.rx_head ≤ p.rx_tail
  pub inside : p.rx_tail < 16384

-- The bytes that wait.
abbrev pub unread : UdpPcb → List ℕ
unread p = take (p.rx_tail - p.rx_head) (drop p.rx_head p.rx)

-- A datagram in the ring: its length, who sent it, and its bytes.
unfoldable pub stored : List ℕ → ℕ → ℕ → List ℕ
unfolding net_put16 net_put32
stored payload saddr sport =
    net_put16 (length payload) ++ (net_put32 saddr ++ (net_put16 sport ++ payload))

put_byte_lem :
    (p : UdpPcb) (b : ℕ)
    → IsValid p
    → p.rx_tail + 1 < 16384
    → IsValid (put_byte p b)
      × (unread (put_byte p b) ≡ unread p ++ b ∷ [])
      × ((put_byte p b).rx_tail ≡ p.rx_tail + 1)
unfolding put_byte
put_byte_lem p b v room = (
  record {
    size = length-set p.rx (p.rx_tail % 16384) b ∙ v.size;
    ordered = omega (arith, v.ordered, room);
    inside = omega (arith, room);
  },
  ap₂ (λ n i. take n (drop p.rx_head (set p.rx i b)))
        (let e : (p.rx_tail + 1) % 2 ^ 16 - p.rx_head ≡ suc (p.rx_tail - p.rx_head) =
            omega (arith, v.ordered, room) in
          e)
        (let e : p.rx_tail % 16384 ≡ p.rx_head + (p.rx_tail - p.rx_head) =
            omega (arith, v.ordered, room) in
          e)
      ∙ slice-set p.rx p.rx_head (p.rx_tail - p.rx_head) b (omega (arith, v.ordered, v.size, room)),
  omega (arith, room),
)

put_bytes_lem :
    (bs : List ℕ) (p : UdpPcb)
    → IsValid p
    → p.rx_tail + length bs < 16384
    → IsValid (put_bytes p bs) × (unread (put_bytes p bs) ≡ unread p ++ bs)
unfolding put_bytes
put_bytes_lem [] p v room = (v, sym (append-nil (unread p)))
put_bytes_lem (b ∷ bs) p v room =
    let (valid, one, tail) = put_byte_lem p b v (omega arith) in
    let (valid', all) = put_bytes_lem bs (put_byte p b) valid (omega arith) in
    (valid', all ∙ (ap (λ u. u ++ bs) one ∙ append_assoc (unread p) (b ∷ []) bs))

put-fits : (p : UdpPcb) (n : ℕ) → IsValid p → p.rx_tail + n < 16384 → ltb (udp_rx_room p) n ≡ false
unfolding udp_rx_room rx_used
put-fits p n v room = ground (arith, v.ordered, v.inside, room)

-- While the tail stays inside the buffer, a datagram that comes is stored behind those that wait,
-- and the ring stays valid.
pub udp_rx_put_lem :
    (p : UdpPcb) (payload : List ℕ) (saddr sport : ℕ)
    → IsValid p
    → p.rx_tail + (8 + length payload) < 16384
    → IsValid (udp_rx_put p payload saddr sport)
      × (unread (udp_rx_put p payload saddr sport) ≡ unread p ++ stored payload saddr sport)
unfolding udp_rx_put stored net_put16 net_put32
udp_rx_put_lem p payload saddr sport v room =
    rw (put-fits p (8 + length payload) v room)
      (put_bytes_lem (stored payload saddr sport) p v (omega (arith, room)))

-- A block whose bytes have all been received, once its tail has left the buffer and has not gone
-- round it twice: `udp_rx_ready` holds of it, and each datagram of fewer than 2 ^ 16 bytes that
-- comes is dropped.
pub udp_drained_drops :
    (p : UdpPcb)
    → p.rx_head ≡ p.rx_tail % 16384
    → 16384 ≤ p.rx_tail
    → p.rx_tail < 32768
    → (udp_rx_ready p ≡ true)
      × ((payload : List ℕ) (saddr sport : ℕ)
          → length payload < 2 ^ 16
          → udp_rx_put p payload saddr sport ≡ p)
unfolding udp_rx_ready udp_rx_put udp_rx_room rx_used
udp_drained_drops p e l h =
    (ground (arith, e, l, h), λ payload saddr sport s. ground (arith, e, l, h, s))
