-- ===== src/Net/Icmp/Between.antt =====
-- An echo request of drivers/net/icmp.c between two hosts that run it.
use core_z_os.Base.{
  ℕ, zero, suc, ◌+◌, ◌^◌, ◌≤◌, ◌<◌, ◌≡◌, ◌≢◌, ◌↔◌, ◌⊎◌, inl, inr, refl, sym, ap, ◌∙◌, none, some,
  List, ◌∷◌, arith, length, drop,
}
use core_z_os.Net.{Netif, byte_at, net_put16, net_be16}
use core_z_os.Net.Checksum.{
  ip_csum, IsBytes, total, complement_sum, complement_sum-lt, complement_balances, complement_lem,
}
use core_z_os.Net.Arp.{Arp}
use core_z_os.Net.Ip.{Pend, ip_output}
use core_z_os.Net.Icmp.{PingQueue, icmp_input, echo_reply, echo_request, request_bytes}
use core_z_os.Net.Icmp.Echo.{ip_csum-eq, echo_reply_checksum}

payload-IsBytes : (i n : ℕ) → IsBytes (request_bytes i n)
unfolding request_bytes
payload-IsBytes i zero = tt
payload-IsBytes i (suc n) = (omega arith, payload-IsBytes (i + 1) n)

module _ (id seq : ℕ) where
  plain : ℕ
  plain = total (echo_request 0 id seq)

  request-total : (c : ℕ) → c < 2 ^ 16 → total (echo_request c id seq) ≡ plain + c
  unfolding plain echo_request net_put16 request_bytes
  request-total c h = omega arith

  plain-lt : (2048 ≤ plain) × (plain + 65535 < 2 ^ 32)
  unfolding plain echo_request net_put16 request_bytes
  plain-lt = (omega arith, omega arith)

  request-csum : (c : ℕ) → c < 2 ^ 16 → ip_csum (echo_request c id seq) ≡ complement_sum (plain + c)
  request-csum c h =
      ip_csum-eq (echo_request c id seq) (omega (arith, request-total c h, plain-lt.1))
      ∙ ap complement_sum (request-total c h)

  own : ip_csum (echo_request 0 id seq) ≡ complement_sum plain
  own =
      request-csum 0 (omega arith)
      ∙ ap complement_sum (let e : plain + 0 ≡ plain = omega arith in e)

  sent : List ℕ
  sent = echo_request (ip_csum (echo_request 0 id seq)) id seq

  sent-csum : ip_csum sent ≡ 0
  unfolding sent
  sent-csum =
      ap (λ c. ip_csum (echo_request c id seq)) own
      ∙ (request-csum (complement_sum plain) (complement_sum-lt plain)
          ∙ complement_balances plain plain-lt.1)

  request-IsBytes : (c : ℕ) → IsBytes (echo_request c id seq)
  unfolding echo_request net_put16
  request-IsBytes c = (
    omega arith,
    (
      omega arith,
      (
        omega arith,
        (
          omega arith,
          (omega arith, (omega arith, (omega arith, (omega arith, payload-IsBytes 8 56)))),
        ),
      ),
    ),
  )

  request-shape :
      (c : ℕ)
      → c < 2 ^ 16
      → (length (echo_request c id seq) ≡ 64)
        × (byte_at (echo_request c id seq) 0 ≡ 8)
        × (byte_at (echo_request c id seq) 1 ≡ 0)
        × (net_be16 (echo_request c id seq) 2 ≡ c)
  unfolding echo_request net_put16 request_bytes net_be16
  request-shape c h = (refl, refl, refl, omega arith)

-- A request of `nt_icmp_send` whose checksum is not 0: the host that gets it answers, and
-- changes nothing else; the host that asked drops the answer, and its queue stays as it is.
pub ping_between :
    (ifp ifp' : Netif) (arp arp' : Arp) (pend pend' : List Pend) (now now' src src' id seq : ℕ)
    (p p' : PingQueue)
    → ip_csum (echo_request 0 id seq) ≢ 0
    → let request = echo_request (ip_csum (echo_request 0 id seq)) id seq in
      (icmp_input ifp' arp' pend' now' src request p'
        ≡ (p', some (ip_output ifp' arp' pend' src 1 (echo_reply request))))
      × (icmp_input ifp arp pend now src' (echo_reply request) p ≡ (p, none))
unfolding icmp_input sent
ping_between ifp ifp' arp arp' pend pend' now now' src src' id seq p p' n =
    (ground (arith, sent-csum id seq, shape.0, shape.1, shape.2), ground (arith, unbalanced))
  where
    c : ℕ
    c = ip_csum (echo_request 0 id seq)

    small : c < 2 ^ 16
    small = omega (arith, own id seq, complement_sum-lt (plain id seq))

    shape :
        (length (sent id seq) ≡ 64)
        × (byte_at (sent id seq) 0 ≡ 8)
        × (byte_at (sent id seq) 1 ≡ 0)
        × (net_be16 (sent id seq) 2 ≡ c)
    shape = request-shape id seq c small

    not_full : c ≢ 65535
    not_full e = ground (arith, own id seq, e, complement_lem (plain id seq), plain-lt id seq)

    unbalanced : ip_csum (echo_reply (sent id seq)) ≢ 0
    unbalanced e = elim (answer.1.0 e) [
      | inl z ↦ n (sym shape.3 ∙ z)
      | inr f ↦ not_full (sym shape.3 ∙ f)
    ]
      where
        answer :
            (echo_reply (sent id seq) ≡ 0 ∷ 0 ∷ 8 ∷ 0 ∷ drop 4 (sent id seq))
            × ((ip_csum (echo_reply (sent id seq)) ≡ 0)
                ↔ ((net_be16 (sent id seq) 2 ≡ 0) ⊎ (net_be16 (sent id seq) 2 ≡ 65535)))
        answer =
            echo_reply_checksum (sent id seq) (request-IsBytes id seq c) (omega (arith, shape.0))
              (omega (arith, shape.0)) shape.1 shape.2 (sent-csum id seq)
