-- ===== src/Net/Ip/RoundTrip.antt =====
-- What `ip_output` builds, `ip_input` takes.
use core_z_os.Base.{
  ℕ, ◌+◌, ◌-◌, ◌%◌, ◌^◌, ◌≤◌, ◌<◌, ◌≡◌, ◌⊎◌, refl, ap, ◌∙◌, true, false, not, ◌&&◌, ◌||◌, some,
  List, arith, ltb, leb, ◌==◌, if◌then◌else◌, length, take, drop, take_all,
}
use core_z_os.Net.{Netif, byte_at, net_be16, net_be32, net_put16, net_put32}
use core_z_os.Net.Checksum.{
  ip_csum, complement_sum, total, sum_words-eq, complement_balances, complement_sum-lt,
}
use core_z_os.Net.Ip.{header_ok, ip_input, ip_header, ip_packet}

module _ (ifp : Netif) (tot daddr proto : ℕ) (small : proto < 256) where
  plain : ℕ
  plain = total (ip_header ifp tot daddr proto 0)

  header-total-lt : plain + 65535 < 2 ^ 32
  unfolding plain ip_header net_put16 net_put32
  header-total-lt = omega arith

  header-total : (c : ℕ) → c < 2 ^ 16 → total (ip_header ifp tot daddr proto c) ≡ plain + c
  unfolding plain ip_header net_put16 net_put32
  header-total c h = omega arith

  header-csum :
      (c : ℕ) → c < 2 ^ 16 → ip_csum (ip_header ifp tot daddr proto c) ≡ complement_sum (plain + c)
  unfolding ip_csum
  header-csum c h = ap complement_sum (
      sum_words-eq 0 (ip_header ifp tot daddr proto c)
        (omega (arith, header-total c h, header-total-lt))
      ∙ omega (arith, header-total c h))

  -- The header with its checksum in has the checksum 0.
  header_balances :
      ip_csum (ip_header ifp tot daddr proto (ip_csum (ip_header ifp tot daddr proto 0))) ≡ 0
  header_balances =
      ap (λ c. ip_csum (ip_header ifp tot daddr proto c)) own
      ∙ (header-csum (complement_sum plain) (complement_sum-lt plain)
          ∙ complement_balances plain header-total-lt)
    where
      own : ip_csum (ip_header ifp tot daddr proto 0) ≡ complement_sum plain
      own =
          header-csum 0 (omega arith)
          ∙ ap complement_sum (let e : plain + 0 ≡ plain = omega arith in e)

module _ (from : Netif) (daddr proto : ℕ) (payload : List ℕ) (small : proto < 256) where
  accepted : header_ok (ip_packet from daddr proto payload) ≡ true
  unfolding ip_packet ip_header net_put16 net_put32 header_ok
  accepted = ground (arith, header_balances from ((20 + length payload) % 2 ^ 32) daddr proto small)

  total-eq :
      length payload ≤ 1460 → net_be16 (ip_packet from daddr proto payload) 2 ≡ 20 + length payload
  unfolding ip_packet ip_header net_put16 net_put32 net_be16
  total-eq fits = omega arith

  dst-eq : daddr < 2 ^ 32 → net_be32 (ip_packet from daddr proto payload) 16 ≡ daddr
  unfolding ip_packet ip_header net_put16 net_put32 net_be32
  dst-eq h = omega arith

  src-eq : from.ip < 2 ^ 32 → net_be32 (ip_packet from daddr proto payload) 12 ≡ from.ip
  unfolding ip_packet ip_header net_put16 net_put32 net_be32
  src-eq h = omega arith

  rest-eq : drop 20 (ip_packet from daddr proto payload) ≡ payload
  unfolding ip_packet ip_header net_put16 net_put32
  rest-eq = refl

  proto-eq : byte_at (ip_packet from daddr proto payload) 9 ≡ proto
  unfolding ip_packet ip_header net_put16 net_put32
  proto-eq = refl

  first-eq : byte_at (ip_packet from daddr proto payload) 0 ≡ 0x45
  unfolding ip_packet ip_header net_put16 net_put32
  first-eq = refl

  length-ip_packet : length (ip_packet from daddr proto payload) ≡ 20 + length payload
  unfolding ip_packet ip_header net_put16 net_put32
  length-ip_packet = omega arith

-- A packet that passes the tests reaches its protocol.
ip_input-passes :
    (to : Netif) (pkt payload : List ℕ) (src daddr proto : ℕ)
    → header_ok pkt ≡ true
    → byte_at pkt 0 ≡ 0x45
    → length pkt ≡ 20 + length payload
    → net_be16 pkt 2 ≡ 20 + length payload
    → net_be32 pkt 12 ≡ src
    → net_be32 pkt 16 ≡ daddr
    → byte_at pkt 9 ≡ proto
    → drop 20 pkt ≡ payload
    → (daddr ≡ to.ip) ⊎ (daddr ≡ 0xffffffff)
    → (proto ≡ 1) ⊎ ((proto ≡ 6) ⊎ (proto ≡ 17))
    → ip_input to pkt ≡ some (record { proto = proto; src = src; payload = payload })
unfolding ip_input
ip_input-passes to pkt payload src daddr proto ok first len tot s d p rest mine known =
    rw (ok, first, len, tot, s, d, p, rest, long, mine-eq, known-eq, whole) refl
  where
    n : ℕ
    n = 20 + length payload

    long : ltb n 20 ≡ false
    long = ground arith

    mine-eq : (not (daddr == to.ip) && not (daddr == 0xffffffff)) ≡ false
    mine-eq = ground (arith, mine)

    known-eq : ((proto == 1) || ((proto == 6) || (proto == 17))) ≡ true
    known-eq = ground (arith, known)

    len-eq : ((if leb 20 n && leb n n then n else n) - 20) ≡ length payload
    len-eq = ground arith

    whole : take ((if leb 20 n && leb n n then n else n) - 20) payload ≡ payload
    whole = ap (λ k. take k payload) len-eq ∙ take_all (length payload) payload (omega arith)

-- A packet that `ip_output` builds, with addresses of 32 bits, a payload of at most 1460 bytes
-- and one of the three protocols, goes through `ip_input` of the interface it is for, or of any
-- interface where it is broadcast, and the protocol gets the payload and the sender's address.
pub ip_roundtrip :
    (from to : Netif) (daddr proto : ℕ) (payload : List ℕ)
    → from.ip < 2 ^ 32
    → daddr < 2 ^ 32
    → length payload ≤ 1460
    → (daddr ≡ to.ip) ⊎ (daddr ≡ 0xffffffff)
    → (proto ≡ 1) ⊎ ((proto ≡ 6) ⊎ (proto ≡ 17))
    → ip_input to (ip_packet from daddr proto payload)
      ≡ some (record { proto = proto; src = from.ip; payload = payload })
ip_roundtrip from to daddr proto payload source target fits mine known =
    ip_input-passes to (ip_packet from daddr proto payload) payload from.ip daddr proto
      (accepted from daddr proto payload (ground (arith, known)))
      (first-eq from daddr proto payload small) (length-ip_packet from daddr proto payload small)
      (total-eq from daddr proto payload small fits) (src-eq from daddr proto payload small source)
      (dst-eq from daddr proto payload small target) (proto-eq from daddr proto payload small)
      (rest-eq from daddr proto payload small) mine known
  where
    small : proto < 256
    small = ground (arith, known)
