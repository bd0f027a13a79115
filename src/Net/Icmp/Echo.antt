-- ===== src/Net/Icmp/Echo.antt =====
-- Which echo replies of drivers/net/icmp.c have a checksum that holds.
use core_z_os.Base.{
  ℕ, ◌+◌, ◌*◌, ◌/◌, ◌%◌, ◌^◌, ◌≤◌, ◌<◌, ◌≡◌, ◌≢◌, ◌↔◌, ◌⊎◌, refl, sym, ap, ◌∙◌, subst, List, [],
  ◌∷◌, arith, ltb, if◌then◌else◌, length, take, drop, take_all,
}
use core_z_os.Net.{byte_at, net_put16, net_be16}
use core_z_os.Net.Checksum.{
  ip_csum, IsBytes, total, total-le, sum_words-eq, complement_sum, complement_zero, complement_lem,
}
use core_z_os.Net.Icmp.{echo_reply}

pub ip_csum-eq : (p : List ℕ) → total p < 2 ^ 32 → ip_csum p ≡ complement_sum (total p)
unfolding ip_csum
ip_csum-eq p h = ap complement_sum (sum_words-eq 0 p (omega arith) ∙ omega arith)

-- A request with the bytes c and d for its checksum, and the rest of it.
module _ (c d : ℕ) (rest : List ℕ) where
  request : List ℕ
  request = 8 ∷ 0 ∷ c ∷ d ∷ rest

  -- The reply, before its checksum is computed.
  raw_reply : List ℕ
  raw_reply = 0 ∷ 0 ∷ c ∷ d ∷ rest

  shape :
      length request ≤ 64
      → echo_reply request
        ≡ 0 ∷ 0 ∷ ip_csum raw_reply / 2 ^ 8 % 256 ∷ ip_csum raw_reply % 256 ∷ rest
  unfolding echo_reply net_put16 request raw_reply
  shape h = rw (whole) refl
    where
      whole : take (if ltb (length request) 64 then length request else 64) request ≡ request
      whole =
          take_all (if ltb (length request) 64 then length request else 64) request
            (ground (arith, h))

  module _ (b : IsBytes request) (h : length request ≤ 64) (valid : ip_csum request ≡ 0) where
    request-total : total request ≡ 2048 + (c * 2 ^ 8 + d) + total rest
    unfolding request
    request-total = omega arith

    request-valid : (total request ≢ 0) × (total request % 65535 ≡ 0)
    request-valid =
        (complement_zero (total request) small).0 (sym (ip_csum-eq request small) ∙ valid)
      where
        small : total request < 2 ^ 32
        small = omega (arith, total-le request b, h)

    -- The checksum of the reply is 0x0800 whatever the request was.
    reply-csum : ip_csum raw_reply ≡ 2048
    unfolding raw_reply
    reply-csum =
        ip_csum-eq raw_reply (omega (arith, total-le request b, request-total))
        ∙ ground (
          arith,
          total-le request b,
          request-total,
          request-valid.1,
          complement_lem (total raw_reply),
        )

    reply-eq : echo_reply request ≡ 0 ∷ 0 ∷ 8 ∷ 0 ∷ rest
    reply-eq = rw (shape h, reply-csum) refl

    reply-total : total (0 ∷ 0 ∷ 8 ∷ 0 ∷ rest) + (c * 2 ^ 8 + d) ≡ total request
    reply-total = omega (arith, request-total)

    balanced :
        (ip_csum (0 ∷ 0 ∷ 8 ∷ 0 ∷ rest) ≡ 0) ↔ ((c * 2 ^ 8 + d ≡ 0) ⊎ (c * 2 ^ 8 + d ≡ 65535))
    unfolding request
    balanced = (
      λ e. whole_or_zero (zero-iff.0 e).1,
      λ e. zero-iff.1 (omega arith, ground (arith, e, reply-total, request-valid.1)),
    )
      where
        small : total (0 ∷ 0 ∷ 8 ∷ 0 ∷ rest) < 2 ^ 32
        small = omega (arith, reply-total, total-le request b, h)

        whole_or_zero :
            total (0 ∷ 0 ∷ 8 ∷ 0 ∷ rest) % 65535 ≡ 0 → (c * 2 ^ 8 + d ≡ 0) ⊎ (c * 2 ^ 8 + d ≡ 65535)
        whole_or_zero z = ground (arith, z, reply-total, request-valid.1, b.1.1.0, b.1.1.1.0)

        zero-iff :
            (ip_csum (0 ∷ 0 ∷ 8 ∷ 0 ∷ rest) ≡ 0)
            ↔ ((total (0 ∷ 0 ∷ 8 ∷ 0 ∷ rest) ≢ 0) × (total (0 ∷ 0 ∷ 8 ∷ 0 ∷ rest) % 65535 ≡ 0))
        zero-iff =
            subst
              (λ x.
                (x ≡ 0)
                ↔ ((total (0 ∷ 0 ∷ 8 ∷ 0 ∷ rest) ≢ 0) × (total (0 ∷ 0 ∷ 8 ∷ 0 ∷ rest) % 65535 ≡ 0)))
              (sym (ip_csum-eq (0 ∷ 0 ∷ 8 ∷ 0 ∷ rest) small))
              (complement_zero (total (0 ∷ 0 ∷ 8 ∷ 0 ∷ rest)) small)

-- A valid echo request of 8 to 64 bytes is answered with the bytes of the request, the type 0 and
-- the checksum 0x0800, whatever it asks; the reply's checksum holds exactly where the request's own
-- checksum field is 0 or 0xffff, since that field is not cleared before the sum is made.
pub echo_reply_checksum :
    (pkt : List ℕ)
    → IsBytes pkt
    → 8 ≤ length pkt
    → length pkt ≤ 64
    → byte_at pkt 0 ≡ 8
    → byte_at pkt 1 ≡ 0
    → ip_csum pkt ≡ 0
    → (echo_reply pkt ≡ 0 ∷ 0 ∷ 8 ∷ 0 ∷ drop 4 pkt)
      × ((ip_csum (echo_reply pkt) ≡ 0) ↔ ((net_be16 pkt 2 ≡ 0) ⊎ (net_be16 pkt 2 ≡ 65535)))
unfolding net_be16 request
echo_reply_checksum [] b l h t k v = elim l [ ]
echo_reply_checksum (x ∷ []) b l h t k v = absurd (omega arith)
echo_reply_checksum (x ∷ y ∷ []) b l h t k v = absurd (omega arith)
echo_reply_checksum (x ∷ y ∷ z ∷ []) b l h t k v = absurd (omega arith)
echo_reply_checksum (x ∷ y ∷ c ∷ d ∷ rest) b l h t k v =
    subst
      (λ p.
        (echo_reply p ≡ 0 ∷ 0 ∷ 8 ∷ 0 ∷ drop 4 p)
        × ((ip_csum (echo_reply p) ≡ 0) ↔ ((net_be16 p 2 ≡ 0) ⊎ (net_be16 p 2 ≡ 65535))))
      same
      (
        made,
        subst (λ r. (ip_csum r ≡ 0) ↔ ((c * 2 ^ 8 + d ≡ 0) ⊎ (c * 2 ^ 8 + d ≡ 65535))) (sym made)
            (balanced c d rest bytes h valid),
      )
  where
    same : request c d rest ≡ x ∷ y ∷ c ∷ d ∷ rest
    same = rw (t, k) refl

    bytes : IsBytes (request c d rest)
    bytes = subst IsBytes (sym same) b

    valid : ip_csum (request c d rest) ≡ 0
    valid = ap ip_csum same ∙ v

    made : echo_reply (request c d rest) ≡ 0 ∷ 0 ∷ 8 ∷ 0 ∷ rest
    made = reply-eq c d rest bytes h valid
