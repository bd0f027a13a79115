-- ===== src/Net/Ip/Pending.antt =====
-- A packet of drivers/net/ip.c that waits until the address it goes to is known.
use core_z_os.Base.{
  Bool-cases, ℕ, suc, ◌≤◌, ◌≡◌, inl, inr, refl, sym, ap, ◌∙◌, subst, Bool, true, false, ◌&&◌, none,
  some, List, [], ◌∷◌, ◌++◌, arith, ◌==◌, length, set, All, take, Option-cases, take_all,
}
use mathlib.Core.List.{append_assoc}
use core_z_os.Net.{Mac, Netif, Event, eth_arp, eth_ip, eth_output}
use core_z_os.Net.Arp.{Arp, arp_find, arp_resolve, arp_build, broadcast}
use core_z_os.Net.Ip.{
  Pend, free_slot, ip_pend_slot, keep, waits, ip_packet, next_hop, ip_output, ip_arp_resolved,
}

-- No packet waits for the address.
abbrev pub NoneWaits : ℕ → List Pend → Type 0
NoneWaits ip = All (λ e. (e.active && (e.dst == ip)) ≡ false)

-- The events are the old ones with those of one more packet among them.
abbrev pub Inserts : List Event → List Event → List Event → Type 0
Inserts more old new =
    (before : List Event) × (after : List Event) × (old ≡ before ++ after)
    × (new ≡ before ++ (more ++ after))

module _ (ifp : Netif) (ip : ℕ) (mac : Mac) where
  sends : Pend → List Event
  sends e = eth_output ifp mac eth_ip (take e.len e.frame)

  waiting : Pend → Bool
  waiting e = e.active && (e.dst == ip)

  resolved-sent :
      (e : Pend) (es : List Pend)
      → waiting e ≡ true
      → ip_arp_resolved ifp ip mac (e ∷ es) ≡ (
        sends e ++ (ip_arp_resolved ifp ip mac es).0,
        record e { active = false } ∷ (ip_arp_resolved ifp ip mac es).1,
      )
  unfolding ip_arp_resolved sends waiting
  resolved-sent e es h = ground (arith, h)

  resolved-kept :
      (e : Pend) (es : List Pend)
      → waiting e ≡ false
      → ip_arp_resolved ifp ip mac (e ∷ es)
        ≡ ((ip_arp_resolved ifp ip mac es).0, e ∷ (ip_arp_resolved ifp ip mac es).1)
  unfolding ip_arp_resolved waiting
  resolved-kept e es h = ground (arith, h)

  resolved-NoneWaits : (pend : List Pend) → NoneWaits ip (ip_arp_resolved ifp ip mac pend).1
  unfolding ip_arp_resolved waiting
  resolved-NoneWaits [] = tt
  resolved-NoneWaits (e ∷ es) = elim (Bool-cases (waiting e)) [
    | inl h ↦
        subst (λ r. NoneWaits ip r.1) (sym (resolved-sent e es h)) (refl, resolved-NoneWaits es)
    | inr h ↦ subst (λ r. NoneWaits ip r.1) (sym (resolved-kept e es h)) (h, resolved-NoneWaits es)
  ]

  -- The first place is sent, or not; what is inserted later stays inserted.
  resolved-cons :
      (e : Pend) (es fs : List Pend) (more : List Event)
      → Inserts more (ip_arp_resolved ifp ip mac es).0 (ip_arp_resolved ifp ip mac fs).0
      → Inserts more (ip_arp_resolved ifp ip mac (e ∷ es)).0 (ip_arp_resolved ifp ip mac (e ∷ fs)).0
  resolved-cons e es fs more (before, after, q, r) = elim (Bool-cases (waiting e)) [
    | inl h ↦ (
      sends e ++ before,
      after,
      ap (λ x. x.0) (resolved-sent e es h)
          ∙ (ap (λ x. sends e ++ x) q ∙ sym (append_assoc (sends e) before after)),
      ap (λ x. x.0) (resolved-sent e fs h)
          ∙ (ap (λ x. sends e ++ x) r ∙ sym (append_assoc (sends e) before (more ++ after))),
    )
    | inr h ↦ (
      before,
      after,
      ap (λ x. x.0) (resolved-kept e es h) ∙ q,
      ap (λ x. x.0) (resolved-kept e fs h) ∙ r,
    )
  ]

  resolved-set :
      (pend : List Pend) (i : ℕ) (p : Pend)
      → free_slot pend ≡ some i
      → waiting p ≡ true
      → Inserts
          (sends p)
          (ip_arp_resolved ifp ip mac pend).0
          (ip_arp_resolved ifp ip mac (set pend i p)).0
  unfolding free_slot waiting
  resolved-set [] i p h w = absurd cc
  resolved-set (e ∷ es) i p h w = elim (Bool-cases e.active) [
    | inr off ↦
        subst
          (λ k.
            Inserts (sends p) (ip_arp_resolved ifp ip mac (e ∷ es)).0
              (ip_arp_resolved ifp ip mac (set (e ∷ es) k p)).0)
          (let k : 0 ≡ i = ground (arith, off, h) in k)
          (
            [],
            (ip_arp_resolved ifp ip mac es).0,
            ap (λ x. x.0) (resolved-kept e es (ground (arith, off))),
            ap (λ x. x.0) (resolved-sent p es w),
          )
    | inl on ↦ elim (Option-cases (free_slot es)) [
      | inl n ↦ absurd (ground (arith, on, n, h))
      | inr (j, f) ↦
          subst
            (λ k.
              Inserts (sends p) (ip_arp_resolved ifp ip mac (e ∷ es)).0
                (ip_arp_resolved ifp ip mac (set (e ∷ es) k p)).0)
            (let k : suc j ≡ i = ground (arith, on, f, h) in k)
            (resolved-cons e es (set es j p) (sends p) (resolved-set es j p f w))
    ]
  ]

keep-eq :
    (pend : List Pend) (nh : ℕ) (pkt : List ℕ) (i : ℕ)
    → free_slot pend ≡ some i
    → set pend i (record { dst = nh; len = length pkt; active = true; frame = pkt })
      ≡ keep pend nh pkt
unfolding ip_pend_slot
keep-eq pend nh pkt i free = rw (keep, free) refl

-- A packet of at most 1460 bytes for an address that the cache does not have, with a place free:
-- `ip_output` asks for the address and keeps the packet. When the address becomes known, the
-- packet is handed to the card once, with what it would have been handed without it, in the
-- order of the places; afterwards nothing waits for the address.
pub ip_pending_sent :
    (ifp : Netif) (arp : Arp) (pend : List Pend) (daddr proto : ℕ) (payload : List ℕ) (mac : Mac)
    (i : ℕ)
    → length payload ≤ 1460
    → arp_find arp.cache (next_hop ifp daddr) ≡ none
    → free_slot pend ≡ some i
    → let nh = next_hop ifp daddr in
      let pkt = ip_packet ifp daddr proto payload in
      let kept = keep pend nh pkt in
      (ip_output ifp arp pend daddr proto payload
        ≡ waits (eth_output ifp broadcast eth_arp (arp_build ifp 1 broadcast ifp.ip nh)) kept)
      × Inserts
          (eth_output ifp mac eth_ip pkt)
          (ip_arp_resolved ifp nh mac pend).0
          (ip_arp_resolved ifp nh mac kept).0
      × NoneWaits nh (ip_arp_resolved ifp nh mac kept).1
unfolding ip_output arp_resolve ip_pend_slot sends waiting
ip_pending_sent ifp arp pend daddr proto payload mac i fits unknown free = (
  ground (arith, unknown),
  subst
      (λ o.
        Inserts o (ip_arp_resolved ifp nh mac pend).0
          (ip_arp_resolved ifp nh mac (keep pend nh pkt)).0)
      (ap (eth_output ifp mac eth_ip) (take_all (length pkt) pkt (omega arith)))
      (subst
        (λ l.
          Inserts (sends ifp nh mac p) (ip_arp_resolved ifp nh mac pend).0
            (ip_arp_resolved ifp nh mac l).0)
        kept-eq (resolved-set ifp nh mac pend i p free (ground arith))),
  resolved-NoneWaits ifp nh mac (keep pend nh pkt),
)
  where
    nh : ℕ
    nh = next_hop ifp daddr

    pkt : List ℕ
    pkt = ip_packet ifp daddr proto payload

    p : Pend
    p = record { dst = nh; len = length pkt; active = true; frame = pkt }

    kept-eq : set pend i p ≡ keep pend nh pkt
    kept-eq = keep-eq pend nh pkt i free
