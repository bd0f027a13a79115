-- ===== src/Net/Arp.antt =====
-- drivers/net/arp.c. What an operation does under `net_lock` and after it is one step.
pub mod Cache
pub mod Keeps
use core_z_os.Base.{
  ℕ, suc, ◌+◌, ◌%◌, ◌^◌, Bool, true, false, not, ◌&&◌, ◌||◌, Option, none, some, List, [], ◌∷◌,
  ◌++◌, ltb, ◌==◌, if◌then◌else◌, length, get_or, set, replicate,
}
use core_z_os.Net.{
  Mac, mac_bytes, byte_at, mac_at, net_be16, net_be32, net_put16, net_put32, Netif, Event, transmit,
  arp_resolved, eth_arp, eth_output,
}

pub record Entry : Type 0 where
  pub ip : ℕ
  pub mac : Mac
  pub tmo : ℕ
  pub valid : Bool

abbrev pub no_mac : Mac
no_mac = record { m0 = 0; m1 = 0; m2 = 0; m3 = 0; m4 = 0; m5 = 0 }

abbrev pub unused : Entry
unused = record { ip = 0; mac = no_mac; tmo = 0; valid = false }

pub record Arp : Type 0 where
  pub cache : List Entry
  pub tick : ℕ

abbrev pub arp_cache_size : ℕ
arp_cache_size = 16

-- The statics are zero before `arp_init`, which only makes the entries invalid.
abbrev pub invalidated : List Entry → List Entry
invalidated [] = []
invalidated (e ∷ es) = record e { valid = false } ∷ invalidated es

unfoldable pub arp_init : Arp → Arp
arp_init a = record { cache = invalidated a.cache; tick = 0 }

-- None is the code's -1.
unfoldable pub arp_find : List Entry → ℕ → Option ℕ
arp_find [] ip = none
arp_find (e ∷ es) ip =
    if e.valid && (e.ip == ip)
    then some 0
    else elim (arp_find es ip) [ none ↦ none | some i ↦ some (suc i) ]

-- The entry at an index.
abbrev pub entry : List Entry → ℕ → Entry
entry c i = get_or c i unused

-- The loop of `arp_slot`, with the entries from i on to go.
unfoldable pub slot_from : List Entry → List Entry → ℕ → ℕ → ℕ
slot_from c [] i oldest = oldest
slot_from c (e ∷ es) i oldest =
    let next = slot_from c es (suc i) in
    let same = next oldest in
    let older = next i in
    if not e.valid then i else if ltb e.tmo (entry c oldest).tmo then older else same

unfoldable pub arp_slot : List Entry → ℕ
arp_slot c = slot_from c c 0 0

-- Where `arp_cache_add` writes.
unfoldable pub place : List Entry → ℕ → ℕ
place c ip = elim (arp_find c ip) [ none ↦ arp_slot c | some i ↦ i ]

unfoldable pub arp_cache_add : Arp → ℕ → Mac → Arp
arp_cache_add a ip mac = record a {
  cache =
      set a.cache (place a.cache ip) (record { ip = ip; mac = mac; tmo = a.tick; valid = true });
}

unfoldable pub arp_build : Netif → ℕ → Mac → ℕ → ℕ → List ℕ
unfolding net_put16 net_put32
arp_build ifp op tha spa ipa =
    net_put16 1
    ++ net_put16 0x0800
    ++ (6 ∷ 4 ∷ [])
    ++ net_put16 op
    ++ mac_bytes ifp.mac
    ++ net_put32 spa
    ++ mac_bytes tha
    ++ net_put32 ipa

-- The tests at the head of `arp_input`.
unfoldable pub is_arp : List ℕ → Bool
unfolding net_be16
is_arp pkt =
    not (ltb (length pkt) 28)
    && (net_be16 pkt 0 == 1)
    && (net_be16 pkt 2 == 0x0800)
    && (byte_at pkt 4 == 6)
    && (byte_at pkt 5 == 4)

-- What follows once the cache is up to date.
unfoldable pub arp_answer : Netif → List ℕ → Arp → List Event
unfolding net_be16 net_be32
arp_answer ifp pkt a =
    let op = net_be16 pkt 6 in
    let spa = net_be32 pkt 14 in
    let known : Bool = elim (arp_find a.cache spa) [ none ↦ false | some _ ↦ true ] in
    if op == 1
    then if net_be32 pkt 24 == ifp.ip
      then eth_output ifp (mac_at pkt 8) eth_arp (arp_build ifp 2 (mac_at pkt 8) ifp.ip spa)
      else []
    else if (op == 2) && known
    then arp_resolved spa (mac_at pkt 8) ∷ []
    else []

unfoldable pub arp_input : Netif → List ℕ → Arp → Arp × List Event
unfolding net_be32
arp_input ifp pkt a =
    let spa = net_be32 pkt 14 in
    let learnt = if spa == 0 then a else arp_cache_add a spa (mac_at pkt 8) in
    if is_arp pkt then (learnt, arp_answer ifp pkt learnt) else (a, [])

abbrev pub broadcast : Mac
broadcast = record { m0 = 255; m1 = 255; m2 = 255; m3 = 255; m4 = 255; m5 = 255 }

-- The address, or none and the request that is sent.
unfoldable pub arp_resolve : Netif → ℕ → Arp → Option Mac × List Event
arp_resolve ifp ip a = elim (arp_find a.cache ip) [
  | some i ↦ (some (entry a.cache i).mac, [])
  | none ↦ (none, eth_output ifp broadcast eth_arp (arp_build ifp 1 broadcast ifp.ip ip))
]

unfoldable pub arp_tick : Arp → Arp
arp_tick a = record a { tick = (a.tick + 1) % 2 ^ 32 }
