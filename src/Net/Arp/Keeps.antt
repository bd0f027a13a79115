-- ===== src/Net/Arp/Keeps.antt =====
-- `arp_cache_add` and `arp_input` against what `arp_resolve` finds.
use native.Mathlib.Decide.{ℕ_discrete}
use core_z_os.Base.{
  ℕ, ◌≤◌, ◌<◌, ◌≡◌, ◌≢◌, ◌⊎◌, inl, inr, sym, ap, subst, ◌∙◌, true, none, some, List, arith, length,
  length-set, get_or-set_self, get_or-set_ne, Bool-cases, Option-cases,
}
use core_z_os.Net.{Mac, mac_at, net_be32, Netif}
use core_z_os.Net.Arp.{
  Entry, unused, entry, Arp, arp_find, arp_slot, place, arp_cache_add, arp_input, is_arp,
  arp_resolve,
}
use core_z_os.Net.Arp.Cache.{Holds, arp_find-Holds, arp_find_le, IsSlot, arp_slot-IsSlot}

-- The cache has its entries, and no address stands in two of them.
pub record IsValid (a : Arp) : Type 0 where
  pub some_entries : 0 < length a.cache
  pub apart : (ip i j : ℕ) → Holds a.cache ip i → Holds a.cache ip j → i ≡ j

pub place-lt : (c : List Entry) (ip : ℕ) → 0 < length c → place c ip < length c
unfolding place
place-lt c ip l = elim (Option-cases (arp_find c ip)) [
  | inl n ↦ ground (arith, n, (arp_slot-IsSlot c l).0)
  | inr (i, e) ↦ ground (arith, e, (arp_find-Holds c ip e).0)
]

module _ (a : Arp) (ip : ℕ) (mac : Mac) where
  new : Entry
  new = record { ip = ip; mac = mac; tmo = a.tick; valid = true }

  after : List Entry
  after = (arp_cache_add a ip mac).cache

  length-after : length after ≡ length a.cache
  unfolding arp_cache_add after new
  length-after = length-set a.cache (place a.cache ip) new

  at_place : 0 < length a.cache → entry after (place a.cache ip) ≡ new
  unfolding arp_cache_add after new
  at_place l = get_or-set_self a.cache (place a.cache ip) new unused (place-lt a.cache ip l)

  elsewhere : (j : ℕ) → place a.cache ip ≢ j → entry after j ≡ entry a.cache j
  unfolding arp_cache_add after new
  elsewhere j n = get_or-set_ne a.cache new unused n

  -- An entry of the new cache is the new one, or was there before.
  Holds-after :
      (ip' i : ℕ)
      → 0 < length a.cache
      → Holds after ip' i
      → ((i ≡ place a.cache ip) × (ip' ≡ ip)) ⊎ ((i ≢ place a.cache ip) × Holds a.cache ip' i)
  unfolding new
  Holds-after ip' i l (h, v, q) = elim (ℕ_discrete i (place a.cache ip)) [
    | yes e ↦ inl (e, sym q ∙ ap (λ y. y.ip) (ap (entry after) e ∙ at_place l))
    | no n ↦ inr (
      n,
      (
        omega (arith, length-after),
        sym (ap (λ y. y.valid) (elsewhere i (λ e. n (sym e)))) ∙ v,
        sym (ap (λ y. y.ip) (elsewhere i (λ e. n (sym e)))) ∙ q,
      ),
    )
  ]

  Holds-kept : (ip' i : ℕ) → i ≢ place a.cache ip → Holds a.cache ip' i → Holds after ip' i
  Holds-kept ip' i n (h, v, q) = (
    omega (arith, length-after),
    ap (λ y. y.valid) (elsewhere i (λ e. n (sym e))) ∙ v,
    ap (λ y. y.ip) (elsewhere i (λ e. n (sym e))) ∙ q,
  )

  Holds-new : 0 < length a.cache → Holds after ip (place a.cache ip)
  unfolding new
  Holds-new l = (
    omega (arith, length-after, place-lt a.cache ip l),
    ap (λ y. y.valid) (at_place l),
    ap (λ y. y.ip) (at_place l),
  )

-- With no duplicates, an index that holds the address is the one found.
pub found_at : (a : Arp) (ip i : ℕ) → IsValid a → Holds a.cache ip i → arp_find a.cache ip ≡ some i
found_at a ip i v h =
    let (j, e, l) = arp_find_le a.cache ip i h in
    e ∙ ap some (v.apart ip j i (arp_find-Holds a.cache ip e) h)

-- The entry that holds an address already is the one that is written.
placed_at : (a : Arp) (ip i : ℕ) → IsValid a → Holds a.cache ip i → i ≡ place a.cache ip
unfolding place
placed_at a ip i v h = ground (arith, found_at a ip i v h)

pub arp_cache_add-IsValid :
    (a : Arp) (ip : ℕ) (mac : Mac) → IsValid a → IsValid (arp_cache_add a ip mac)
unfolding after
arp_cache_add-IsValid a ip mac v = record {
  some_entries = omega (arith, v.some_entries, length-after a ip mac);
  apart = λ ip' i j h h'. elim (Holds-after a ip mac ip' i v.some_entries h) [
    | inl (e, q) ↦ elim (Holds-after a ip mac ip' j v.some_entries h') [
      | inl (e', q') ↦ e ∙ sym e'
      | inr (n, g) ↦ absurd (n (placed_at a ip j v (subst (λ k. Holds a.cache k j) q g)))
    ]
    | inr (n, g) ↦ elim (Holds-after a ip mac ip' j v.some_entries h') [
      | inl (e', q') ↦ absurd (n (placed_at a ip i v (subst (λ k. Holds a.cache k i) q' g)))
      | inr (n', g') ↦ v.apart ip' i j g g'
    ]
  ];
}

pub resolve_found :
    (ifp : Netif) (a : Arp) (ip : ℕ) {i : ℕ}
    → arp_find a.cache ip ≡ some i
    → (arp_resolve ifp ip a).0 ≡ some (entry a.cache i).mac
unfolding arp_resolve
resolve_found ifp a ip e = ground (arith, e)

resolve_none :
    (ifp : Netif) (a : Arp) (ip : ℕ) → arp_find a.cache ip ≡ none → (arp_resolve ifp ip a).0 ≡ none
unfolding arp_resolve
resolve_none ifp a ip e = ground (arith, e)

pub find_new :
    (a : Arp) (ip : ℕ) (mac : Mac)
    → IsValid a
    → arp_find (arp_cache_add a ip mac).cache ip ≡ some (place a.cache ip)
unfolding after
find_new a ip mac v =
    found_at (arp_cache_add a ip mac) ip (place a.cache ip) (arp_cache_add-IsValid a ip mac v)
      (Holds-new a ip mac v.some_entries)

pub resolve_new :
    (ifp : Netif) (a : Arp) (ip : ℕ) (mac : Mac)
    → IsValid a
    → (arp_resolve ifp ip (arp_cache_add a ip mac)).0 ≡ some mac
unfolding after new
resolve_new ifp a ip mac v =
    resolve_found ifp (arp_cache_add a ip mac) ip (find_new a ip mac v)
    ∙ ap (λ e. some e.mac) (at_place a ip mac v.some_entries)

-- Every entry is in use, and the address stands in an oldest one.
abbrev pub IsOldest : Arp → ℕ → Type 0
IsOldest a ip =
    (i : ℕ) × Holds a.cache ip i
    × ((j : ℕ)
        → j < length a.cache
        → ((entry a.cache j).valid ≡ true) × ((entry a.cache i).tmo ≤ (entry a.cache j).tmo))

-- The address that stands where another is written was an oldest one.
evicted :
    (a : Arp) (ip ip' i : ℕ)
    → IsValid a
    → ip' ≢ ip
    → Holds a.cache ip' i
    → i ≡ place a.cache ip
    → IsOldest a ip'
unfolding place
evicted a ip ip' i v n h e = elim (Option-cases (arp_find a.cache ip)) [
  | inr (k, q) ↦ absurd (
      n (
        sym h.2
        ∙ (ap (λ j. (entry a.cache j).ip) (let d : i ≡ k = ground (arith, q) in d)
            ∙ (arp_find-Holds a.cache ip q).2)))
  | inl q ↦ (i, h, by_slot (let d : i ≡ arp_slot a.cache = ground (arith, q) in d))
]
  where
    by_slot :
        i ≡ arp_slot a.cache
        → (j : ℕ) → j < length a.cache
        → ((entry a.cache j).valid ≡ true) × ((entry a.cache i).tmo ≤ (entry a.cache j).tmo)
    by_slot d = elim (subst (IsSlot a.cache) (sym d) (arp_slot-IsSlot a.cache v.some_entries)).1 [
      | inl f ↦ absurd (ground (arith, f, h.1))
      | inr old ↦ old
    ]

-- An index of the new cache that holds another address held it before.
unmoved :
    (a : Arp) (ip : ℕ) (mac : Mac) (ip' j : ℕ)
    → IsValid a
    → ip' ≢ ip
    → arp_find (arp_cache_add a ip mac).cache ip' ≡ some j
    → (j ≢ place a.cache ip) × Holds a.cache ip' j
unfolding after
unmoved a ip mac ip' j v n e =
    elim (Holds-after a ip mac ip' j v.some_entries
      (arp_find-Holds (arp_cache_add a ip mac).cache ip' e)) [
        | inl (_, q) ↦ absurd (n q)
        | inr g ↦ g
      ]

-- The other addresses, one by one.
resolve_other :
    (ifp : Netif) (a : Arp) (ip : ℕ) (mac : Mac) (ip' : ℕ)
    → IsValid a
    → ip' ≢ ip
    → let new = (arp_resolve ifp ip' (arp_cache_add a ip mac)).0 in
      (new ≡ (arp_resolve ifp ip' a).0) ⊎ ((new ≡ none) × IsOldest a ip')
unfolding after
resolve_other ifp a ip mac ip' v n = elim (Option-cases (arp_find after_cache ip')) [
  | inr (j, e) ↦
      (let (moved, held) = unmoved a ip mac ip' j v n e in
        inl (
          resolve_found ifp (arp_cache_add a ip mac) ip' e
          ∙ (ap (λ y. some y.mac) (elsewhere a ip mac j (λ q. moved (sym q)))
              ∙ sym (resolve_found ifp a ip' (found_at a ip' j v held)))))
  | inl e ↦ elim (Option-cases (arp_find a.cache ip')) [
    | inl q ↦ inl (resolve_none ifp (arp_cache_add a ip mac) ip' e ∙ sym (resolve_none ifp a ip' q))
    | inr (i, q) ↦ elim (ℕ_discrete i (place a.cache ip)) [
      | yes p ↦ inr (
        resolve_none ifp (arp_cache_add a ip mac) ip' e,
        evicted a ip ip' i v n (arp_find-Holds a.cache ip' q) p,
      )
      | no p ↦ absurd (
          let (j, g, _) =
            arp_find_le after_cache ip' i
              (Holds-kept a ip mac ip' i p (arp_find-Holds a.cache ip' q)) in
          ground (arith, e, g))
    ]
  ]
]
  where
    after_cache : List Entry
    after_cache = (arp_cache_add a ip mac).cache

-- After `arp_cache_add` on a valid cache, `arp_resolve` gives the new address's MAC; for every
-- other address it gives what it gave before, unless every entry was in use and the address stood
-- in an oldest one: then it gives none.
pub arp_cache_add-arp_resolve :
    (ifp : Netif) (a : Arp) (ip : ℕ) (mac : Mac)
    → IsValid a
    → ((arp_resolve ifp ip (arp_cache_add a ip mac)).0 ≡ some mac)
      × ((ip' : ℕ)
          → ip' ≢ ip
          → ((arp_resolve ifp ip' (arp_cache_add a ip mac)).0 ≡ (arp_resolve ifp ip' a).0)
            ⊎ (((arp_resolve ifp ip' (arp_cache_add a ip mac)).0 ≡ none) × IsOldest a ip'))
arp_cache_add-arp_resolve ifp a ip mac v =
    (resolve_new ifp a ip mac v, λ ip' n. resolve_other ifp a ip mac ip' v n)

-- Whatever packet comes, `arp_input` leaves no address in two entries of a valid cache.
pub arp_input-IsValid :
    (ifp : Netif) (pkt : List ℕ) (a : Arp) → IsValid a → IsValid (arp_input ifp pkt a).0
unfolding arp_input
arp_input-IsValid ifp pkt a v = elim (Bool-cases (is_arp pkt)) [
  | inl t ↦ elim (ℕ_discrete (net_be32 pkt 14) 0) [
    | yes z ↦ subst IsValid (let e : a ≡ (arp_input ifp pkt a).0 = ground (arith, t) in e) v
    | no n ↦
        subst IsValid
          (let e : arp_cache_add a (net_be32 pkt 14) (mac_at pkt 8) ≡ (arp_input ifp pkt a).0 =
              ground (arith, t) in
            e)
          (arp_cache_add-IsValid a (net_be32 pkt 14) (mac_at pkt 8) v)
  ]
  | inr f ↦ subst IsValid (let e : a ≡ (arp_input ifp pkt a).0 = ground (arith, f) in e) v
]
