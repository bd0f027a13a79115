-- ===== src/Net/Udp/Fifo.antt =====
-- The ring of a block of drivers/net/udp.c as a queue of datagrams.
use core_z_os.Base.{ℕ, ◌+◌, ◌^◌, ◌<◌, ◌≡◌, ◌∙◌, List, ◌++◌, length, take}
use core_z_os.Net.Udp.{UdpPcb, udp_rx_put, received, udp_recv}
use core_z_os.Net.Udp.Ring.{IsValid, unread, stored, udp_rx_put_lem}
use core_z_os.Net.Udp.Recv.{udp_recv_lem}

-- A datagram comes while the tail of a valid ring stays inside the buffer. Then `udp_recv` gives
-- the bytes of the datagram that came first among all that wait, as many as the caller's buffer
-- takes, and who sent it, and the others go on waiting in their order in a valid ring. The first
-- one's length and port have 16 bits, and its address 32.
pub udp_fifo :
    (p : UdpPcb) (payload oldest rest : List ℕ) (saddr sport saddr' sport' len : ℕ)
    → IsValid p
    → p.rx_tail + (8 + length payload) < 16384
    → unread p ++ stored payload saddr sport ≡ stored oldest saddr' sport' ++ rest
    → length oldest < 2 ^ 16
    → saddr' < 2 ^ 32
    → sport' < 2 ^ 16
    → (p' : UdpPcb) × (udp_recv (udp_rx_put p payload saddr sport) len
        ≡ received (take len oldest) saddr' sport' p')
      × IsValid p'
      × (unread p' ≡ rest)
udp_fifo p payload oldest rest saddr sport saddr' sport' len v room first l a s =
    let (valid, all) = udp_rx_put_lem p payload saddr sport v room in
    udp_recv_lem (udp_rx_put p payload saddr sport) oldest rest saddr' sport' len valid
      (all ∙ first) l a s
