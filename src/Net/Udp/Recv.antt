-- ===== src/Net/Udp/Recv.antt =====
-- What `udp_recv` of drivers/net/udp.c gives of the bytes that wait.
use core_z_os.Base.{
  ℕ, ◌+◌, ◌-◌, ◌*◌, ◌%◌, ◌^◌, ◌≤◌, ◌<◌, ◌≡◌, inl, inr, refl, sym, ap, ap₂, ◌∙◌, Bool-cases, true,
  false, ◌||◌, List, ◌++◌, arith, ltb, leb, if◌then◌else◌, length, take, drop, get_or,
  length-append, length-take, length-drop, get_or-drop, get_or-take, drop-take, take-prefix,
  take-take, drop-length-append, drop-drop, take_all,
}
use core_z_os.Net.{net_put16, net_put32, net_be16, net_be32}
use core_z_os.Net.Udp.{UdpPcb, rx_used, udp_rx_ready, received, ring_copy, udp_recv}
use core_z_os.Net.Udp.Ring.{IsValid, unread, stored}

udp_rx_ready-some : (p : UdpPcb) → IsValid p → p.rx_head < p.rx_tail → udp_rx_ready p ≡ true
unfolding udp_rx_ready rx_used
udp_rx_ready-some p v h = ground (arith, v.inside, h)

-- Reads at the head are reads of the bytes that wait.
read-unread :
    (p : UdpPcb) (k : ℕ)
    → p.rx_head + k < p.rx_tail
    → get_or p.rx (p.rx_head + k) 0 ≡ get_or (unread p) k 0
read-unread p k h =
    get_or-drop p.rx_head k p.rx 0
    ∙ sym (get_or-take (p.rx_tail - p.rx_head) k (drop p.rx_head p.rx) 0 (omega arith))

length-unread : (p : UdpPcb) → IsValid p → length (unread p) ≡ p.rx_tail - p.rx_head
length-unread p v = omega (
  arith,
  length-take (p.rx_tail - p.rx_head) (drop p.rx_head p.rx),
  length-drop p.rx_head p.rx,
  v.size,
  v.inside,
  v.ordered,
)

module _ (p : UdpPcb) (v : IsValid p) (payload rest : List ℕ) (saddr sport : ℕ)
    (waits : unread p ≡ stored payload saddr sport ++ rest) (small_len : length payload < 2 ^ 16)
    (small_addr : saddr < 2 ^ 32) (small_port : sport < 2 ^ 16) where
  long : p.rx_head + (8 + length payload) ≤ p.rx_tail
  unfolding stored net_put16 net_put32
  long = omega (arith, length-unread p v, ap length waits, length-append payload rest)

  byte :
      (k : ℕ)
      → k < 8
      → get_or p.rx (p.rx_head + k) 0 ≡ get_or (stored payload saddr sport ++ rest) k 0
  byte k h = read-unread p k (omega (arith, long)) ∙ ap (λ u. get_or u k 0) waits

  byte_from :
      (i k : ℕ)
      → i + k < 8
      → get_or p.rx (p.rx_head + i + k) 0 ≡ get_or (stored payload saddr sport ++ rest) (i + k) 0
  byte_from i k h =
      ap (λ j. get_or p.rx j 0) (let e : p.rx_head + i + k ≡ p.rx_head + (i + k) = omega arith in e)
      ∙ byte (i + k) h

  first : get_or p.rx p.rx_head 0 ≡ get_or (stored payload saddr sport ++ rest) 0 0
  first =
      ap (λ j. get_or p.rx j 0) (let e : p.rx_head ≡ p.rx_head + 0 = omega arith in e)
      ∙ byte 0 (omega arith)

  len-eq : get_or p.rx p.rx_head 0 * 2 ^ 8 + get_or p.rx (p.rx_head + 1) 0 ≡ length payload
  unfolding stored net_put16 net_put32
  len-eq = omega (arith, first, byte 1 (omega arith), small_len)

  addr-eq : net_be32 p.rx (p.rx_head + 2) ≡ saddr
  unfolding stored net_put16 net_put32 net_be32
  addr-eq = omega (
    arith,
    byte 2 (omega arith),
    byte_from 2 1 (omega arith),
    byte_from 2 2 (omega arith),
    byte_from 2 3 (omega arith),
    small_addr,
  )

  port-eq : net_be16 p.rx (p.rx_head + 6) ≡ sport
  unfolding stored net_put16 net_put32 net_be16
  port-eq = omega (arith, byte 6 (omega arith), byte_from 6 1 (omega arith), small_port)

  -- The ring behind the header, and behind the datagram.
  behind : drop 8 (unread p) ≡ payload ++ rest
  unfolding stored net_put16 net_put32
  behind = ap (drop 8) waits

  unread-drop : (n : ℕ) → unread (record p { rx_head = p.rx_head + n }) ≡ drop n (unread p)
  unread-drop n =
      ap₂ take (let e : p.rx_tail - (p.rx_head + n) ≡ p.rx_tail - p.rx_head - n = omega arith in e)
        (sym (drop-drop p.rx_head n p.rx))
      ∙ sym (drop-take n (p.rx_tail - p.rx_head) (drop p.rx_head p.rx))

  rest-eq : unread (record p { rx_head = p.rx_head + (8 + length payload) }) ≡ rest
  rest-eq =
      unread-drop (8 + length payload)
      ∙ (sym (drop-drop 8 (length payload) (unread p))
          ∙ (ap (drop (length payload)) behind ∙ drop-length-append payload rest))

  copy-eq : (n : ℕ) → n ≤ length payload → ring_copy p.rx (p.rx_head + 8) n ≡ take n payload
  unfolding ring_copy
  copy-eq n h =
      rw (let e : leb (p.rx_head + 8 + n) 16384 ≡ true = ground (arith, h, long, v.inside) in e) (
        sym (
          take-take n (p.rx_tail - (p.rx_head + 8)) (drop (p.rx_head + 8) p.rx)
            (omega (arith, long, h)))
        ∙ (ap (take n) (unread-drop 8 ∙ behind) ∙ take-prefix n payload rest h))

  -- What `udp_recv` gives.
  gives :
      (len : ℕ)
      → udp_recv p len
        ≡ received
            (take len payload)
            saddr
            sport
            (record p { rx_head = p.rx_head + (8 + length payload) })
  unfolding udp_recv
  gives len = rw (h0, h1, h2, h6, h8, len-eq, addr-eq, port-eq, ready, within, copied, end) refl
    where
      h0 : p.rx_head % 16384 ≡ p.rx_head
      h0 = omega (arith, long, v.inside)

      h1 : (p.rx_head + 1) % 16384 ≡ p.rx_head + 1
      h1 = omega (arith, long, v.inside)

      h2 : (p.rx_head + 1 + 1) % 16384 ≡ p.rx_head + 2
      h2 = omega (arith, long, v.inside)

      h6 : (p.rx_head + 2 + 4) % 16384 ≡ p.rx_head + 6
      h6 = omega (arith, long, v.inside)

      h8 : (p.rx_head + 6 + 2) % 16384 ≡ p.rx_head + 8
      h8 = omega (arith, long, v.inside)

      ready : udp_rx_ready p ≡ true
      ready = udp_rx_ready-some p v (omega (arith, long))

      m : ℕ
      m = if ltb len (length payload) then len else length payload

      m-le : m ≤ length payload
      m-le = ground arith

      within :
          (ltb 16384 (p.rx_head + 2 + 4)
            || ltb 16384 (p.rx_head + 6 + 2)
            || ltb (16384 + 16384) (p.rx_head + 8 + m))
          ≡ false
      within = ground (arith, m-le, long, v.inside)

      same : take m payload ≡ take len payload
      same = elim (Bool-cases (ltb len (length payload))) [
        | inl s ↦ rw (s) refl
        | inr s ↦ rw (s) (
            take_all (length payload) payload (omega arith)
            ∙ sym (take_all len payload (ground (arith, s))))
      ]

      copied : ring_copy p.rx (p.rx_head + 8) m ≡ take len payload
      copied = copy-eq m m-le ∙ same

      end : (p.rx_head + 8 + length payload) % 16384 ≡ p.rx_head + (8 + length payload)
      end = omega (arith, long, v.inside)

  after-IsValid : IsValid (record p { rx_head = p.rx_head + (8 + length payload) })
  after-IsValid = record { size = v.size; ordered = long; inside = v.inside }

-- Where the tail is inside the buffer and a datagram waits first, `udp_recv` gives its bytes, as
-- many as the caller's buffer takes, and who sent it; the bytes that wait after it are left as they are
-- and the ring stays valid.
pub udp_recv_lem :
    (p : UdpPcb) (payload rest : List ℕ) (saddr sport len : ℕ)
    → IsValid p
    → unread p ≡ stored payload saddr sport ++ rest
    → length payload < 2 ^ 16
    → saddr < 2 ^ 32
    → sport < 2 ^ 16
    → (p' : UdpPcb) × (udp_recv p len ≡ received (take len payload) saddr sport p')
      × IsValid p'
      × (unread p' ≡ rest)
udp_recv_lem p payload rest saddr sport len v waits l a s = (
  record p { rx_head = p.rx_head + (8 + length payload) },
  gives p v payload rest saddr sport waits l a s len,
  after-IsValid p v payload rest saddr sport waits l a s,
  rest-eq p v payload rest saddr sport waits l a s,
)
