-- ===== src/Net/Exchange.antt =====
-- Two hosts on one wire: `arp_resolve`, `eth_output`, `eth_input` and `arp_input` together.
use core_z_os.Base.{
  ℕ, ◌+◌, ◌*◌, ◌/◌, ◌%◌, ◌^◌, ◌<◌, ◌≡◌, ◌≢◌, ◌⊎◌, inl, inr, refl, ap, subst, ◌∙◌, true, none, some,
  List, [], ◌∷◌, arith, length,
}
use core_z_os.Net.{
  Mac, mac_at, net_be16, net_be32, net_put16, net_put32, Netif, Event, transmit, arp_resolved,
  eth_arp, eth_output,
}
use core_z_os.Net.Eth.{eth_input, same_mac}
use core_z_os.Net.Arp.{
  Arp, arp_find, arp_cache_add, arp_build, is_arp, arp_answer, arp_input, arp_resolve, broadcast,
}
use core_z_os.Net.Arp.Keeps.{IsValid, find_new, resolve_new}

-- An interface that is set up.
pub record IsUp (ifp : Netif) : Type 0 where
  pub has_address : ifp.ip ≢ 0
  pub small : ifp.ip < 2 ^ 32
  pub sends : ifp.has_tx ≡ true

-- The frame that was sent reaches the other host.
abbrev pub delivered : Netif → List Event → Arp → Arp × List Event
delivered ifp (transmit frame ∷ []) a = eth_input ifp frame a
delivered ifp _ a = (a, [])

same_mac_refl : (m : Mac) → same_mac m m ≡ true
same_mac_refl m = ground arith

be32_put32 :
    (v : ℕ)
    → v < 2 ^ 32
    → v / 2 ^ 24 % 256 * 2 ^ 24 + v / 2 ^ 16 % 256 * 2 ^ 16 + v / 2 ^ 8 % 256 * 2 ^ 8 + v % 256 ≡ v
be32_put32 v h = omega arith

module _ (ifp : Netif) (op : ℕ) (tha : Mac) (spa ipa : ℕ) where
  built : List ℕ
  built = arp_build ifp op tha spa ipa

  built-is_arp : is_arp built ≡ true
  unfolding arp_build net_put16 net_put32 is_arp net_be16 built
  built-is_arp = refl

  built-spa : spa < 2 ^ 32 → net_be32 built 14 ≡ spa
  unfolding arp_build net_put16 net_put32 net_be32 built
  built-spa h = be32_put32 spa h

  built-tpa : ipa < 2 ^ 32 → net_be32 built 24 ≡ ipa
  unfolding arp_build net_put16 net_put32 net_be32 built
  built-tpa h = be32_put32 ipa h

  built-op : op < 2 ^ 16 → net_be16 built 6 ≡ op
  unfolding arp_build net_put16 net_put32 net_be16 built
  built-op h = omega arith

  built-sha : mac_at built 8 ≡ ifp.mac
  unfolding arp_build net_put16 net_put32 built
  built-sha = refl

  built-length : length built ≡ 28
  unfolding arp_build net_put16 net_put32 built
  built-length = refl

-- A frame for the host, or for all, reaches `arp_input` as it was built.
delivered_to :
    (from to : Netif) (dst : Mac) (op : ℕ) (tha : Mac) (spa ipa : ℕ) (a : Arp)
    → from.has_tx ≡ true
    → (same_mac dst to.mac ≡ true) ⊎ (same_mac dst broadcast ≡ true)
    → delivered to (eth_output from dst eth_arp (arp_build from op tha spa ipa)) a
      ≡ arp_input to (arp_build from op tha spa ipa) a
unfolding eth_output eth_input arp_build net_put16 net_put32 net_be16
delivered_to from to dst op tha spa ipa a s (inl m) = ground (arith, s, m)
delivered_to from to dst op tha spa ipa a s (inr m) = ground (arith, s, m)

-- What `arp_input` does with a packet, by the fields that it reads.
module _ (ifp : Netif) (pkt : List ℕ) (ip : ℕ) (mac : Mac) (a : Arp) where
  learnt : Arp
  learnt = arp_cache_add a ip mac

  arp_input_lem :
      is_arp pkt ≡ true
      → net_be32 pkt 14 ≡ ip
      → ip ≢ 0
      → mac_at pkt 8 ≡ mac
      → arp_input ifp pkt a ≡ (learnt, arp_answer ifp pkt learnt)
  unfolding arp_input learnt
  arp_input_lem t e n m =
      subst
        (λ x.
          arp_input ifp pkt a ≡ (arp_cache_add a x mac, arp_answer ifp pkt (arp_cache_add a x mac)))
        e
        (subst
          (λ y. arp_input ifp pkt a ≡ (
            arp_cache_add a (net_be32 pkt 14) y,
            arp_answer ifp pkt (arp_cache_add a (net_be32 pkt 14) y),
          ))
          m (ground (arith, t, e, n)))

  answer_request :
      net_be16 pkt 6 ≡ 1
      → net_be32 pkt 14 ≡ ip
      → net_be32 pkt 24 ≡ ifp.ip
      → mac_at pkt 8 ≡ mac
      → arp_answer ifp pkt a ≡ eth_output ifp mac eth_arp (arp_build ifp 2 mac ifp.ip ip)
  unfolding arp_answer
  answer_request o e t m =
      subst (λ x. arp_answer ifp pkt a ≡ eth_output ifp mac eth_arp (arp_build ifp 2 mac ifp.ip x))
        e
        (subst
          (λ y.
            arp_answer ifp pkt a
            ≡ eth_output ifp y eth_arp (arp_build ifp 2 y ifp.ip (net_be32 pkt 14)))
          m (ground (arith, o, t)))

  answer_reply :
      {i : ℕ}
      → net_be16 pkt 6 ≡ 2
      → net_be32 pkt 14 ≡ ip
      → mac_at pkt 8 ≡ mac
      → arp_find a.cache ip ≡ some i
      → arp_answer ifp pkt a ≡ arp_resolved ip mac ∷ []
  unfolding arp_answer
  answer_reply {i} o e m k =
      subst (λ x. arp_answer ifp pkt a ≡ arp_resolved x mac ∷ []) e
        (subst (λ y. arp_answer ifp pkt a ≡ arp_resolved (net_be32 pkt 14) y ∷ []) m
          (ground (arith, o, ap (arp_find a.cache) e ∙ k)))

module _ (asker holder : Netif) (u : IsUp asker) (w : IsUp holder) where
  asks :
      (a : Arp)
      → arp_find a.cache holder.ip ≡ none
      → (arp_resolve asker holder.ip a).1
        ≡ eth_output asker broadcast eth_arp (arp_build asker 1 broadcast asker.ip holder.ip)
  unfolding arp_resolve
  asks a e = ground (arith, e)

  -- The host that has the address learns who asked, and answers.
  answers_request :
      (b : Arp)
      → delivered holder
          (eth_output asker broadcast eth_arp (arp_build asker 1 broadcast asker.ip holder.ip))
          b
        ≡ (
          arp_cache_add b asker.ip asker.mac,
          eth_output holder asker.mac eth_arp (arp_build holder 2 asker.mac holder.ip asker.ip),
        )
  unfolding built learnt
  answers_request b =
      delivered_to asker holder broadcast 1 broadcast asker.ip holder.ip b u.sends (inr refl)
      ∙ (arp_input_lem holder request asker.ip asker.mac b is_request spa u.has_address sha
          ∙ ap (λ e. (arp_cache_add b asker.ip asker.mac, e))
              (answer_request holder request asker.ip asker.mac (arp_cache_add b asker.ip asker.mac)
                (built-op asker 1 broadcast asker.ip holder.ip (omega arith)) spa
                (built-tpa asker 1 broadcast asker.ip holder.ip w.small) sha))
    where
      request : List ℕ
      request = arp_build asker 1 broadcast asker.ip holder.ip

      is_request : is_arp request ≡ true
      is_request = built-is_arp asker 1 broadcast asker.ip holder.ip

      spa : net_be32 request 14 ≡ asker.ip
      spa = built-spa asker 1 broadcast asker.ip holder.ip u.small

      sha : mac_at request 8 ≡ asker.mac
      sha = built-sha asker 1 broadcast asker.ip holder.ip

  -- The host that asked learns the answer.
  takes_reply :
      (a : Arp)
      → IsValid a
      → delivered asker
          (eth_output holder asker.mac eth_arp (arp_build holder 2 asker.mac holder.ip asker.ip))
          a
        ≡ (arp_cache_add a holder.ip holder.mac, arp_resolved holder.ip holder.mac ∷ [])
  unfolding built learnt
  takes_reply a v =
      delivered_to holder asker asker.mac 2 asker.mac holder.ip asker.ip a w.sends
        (inl (same_mac_refl asker.mac))
      ∙ (arp_input_lem asker reply holder.ip holder.mac a is_reply spa w.has_address sha
          ∙ ap (λ e. (arp_cache_add a holder.ip holder.mac, e))
              (answer_reply asker reply holder.ip holder.mac (arp_cache_add a holder.ip holder.mac)
                (built-op holder 2 asker.mac holder.ip asker.ip (omega arith)) spa sha
                (find_new a holder.ip holder.mac v)))
    where
      reply : List ℕ
      reply = arp_build holder 2 asker.mac holder.ip asker.ip

      is_reply : is_arp reply ≡ true
      is_reply = built-is_arp holder 2 asker.mac holder.ip asker.ip

      spa : net_be32 reply 14 ≡ holder.ip
      spa = built-spa holder 2 asker.mac holder.ip asker.ip w.small

      sha : mac_at reply 8 ≡ holder.mac
      sha = built-sha holder 2 asker.mac holder.ip asker.ip

-- A host that does not know another's address asks, and the request and the answer go over the wire:
-- then each of them resolves the other's address to its MAC, and the first has called
-- `ip_arp_resolved` with it. Both interfaces are up with an address, and both caches are valid.
pub arp_exchange :
    (asker holder : Netif) (a b : Arp)
    → IsUp asker
    → IsUp holder
    → IsValid a
    → IsValid b
    → arp_find a.cache holder.ip ≡ none
    → let (b', reply) = delivered holder (arp_resolve asker holder.ip a).1 b in
      let (a', calls) = delivered asker reply a in
      ((arp_resolve asker holder.ip a').0 ≡ some holder.mac)
      × ((arp_resolve holder asker.ip b').0 ≡ some asker.mac)
      × (calls ≡ arp_resolved holder.ip holder.mac ∷ [])
arp_exchange asker holder a b u w v v' e = (
  ap (λ x. (arp_resolve asker holder.ip x.0).0) second ∙ resolve_new asker a holder.ip holder.mac v,
  ap (λ x. (arp_resolve holder asker.ip x.0).0) first ∙ resolve_new holder b asker.ip asker.mac v',
  ap (λ x. x.1) second,
)
  where
    first : delivered holder (arp_resolve asker holder.ip a).1 b ≡ (
      arp_cache_add b asker.ip asker.mac,
      eth_output holder asker.mac eth_arp (arp_build holder 2 asker.mac holder.ip asker.ip),
    )
    first =
        ap (λ x. delivered holder x b) (asks asker holder u w a e)
        ∙ answers_request asker holder u w b

    second :
        delivered asker (delivered holder (arp_resolve asker holder.ip a).1 b).1 a
        ≡ (arp_cache_add a holder.ip holder.mac, arp_resolved holder.ip holder.mac ∷ [])
    second = ap (λ x. delivered asker x.1 a) first ∙ takes_reply asker holder u w a v
