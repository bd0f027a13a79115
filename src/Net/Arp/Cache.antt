-- ===== src/Net/Arp/Cache.antt =====
-- What `arp_find` and `arp_slot` find.
use native.Mathlib.Decide.{ℕ_discrete, dec_lt}
use core_z_os.Base.{
  ℕ, zero, suc, ◌+◌, ◌≤◌, ◌<◌, ◌≡◌, refl, sym, ap, true, false, ◌&&◌, Option, none, some, List, [],
  ◌∷◌, arith, ◌==◌, if◌then◌else◌, length, Bool-cases, Option-cases, inl, inr, subst, ◌⊎◌, ◌∙◌,
}
use core_z_os.Net.Arp.{Entry, entry, arp_find, slot_from, arp_slot}

-- The entry at i holds the address.
abbrev pub Holds : List Entry → ℕ → ℕ → Type 0
Holds c ip i = (i < length c) × ((entry c i).valid ≡ true) × ((entry c i).ip ≡ ip)

Holds-cons : (e : Entry) (es : List Entry) (ip i : ℕ) → Holds es ip i → Holds (e ∷ es) ip (suc i)
Holds-cons e es ip i (l, v, q) = (omega arith, v, q)

abbrev next : Option ℕ → Option ℕ
next none = none
next (some i) = some (suc i)

find_cons :
    (e : Entry) (es : List Entry) (ip : ℕ)
    → arp_find (e ∷ es) ip ≡ (if e.valid && (e.ip == ip) then some 0 else next (arp_find es ip))
unfolding arp_find
find_cons e es ip = elim (arp_find es ip) [ none ↦ refl | some i ↦ refl ]

pub arp_find-Holds : (c : List Entry) (ip : ℕ) {i : ℕ} → arp_find c ip ≡ some i → Holds c ip i
unfolding arp_find
arp_find-Holds [] ip e = absurd cc
arp_find-Holds (x ∷ es) ip {i} e = elim (Bool-cases (x.valid && (x.ip == ip))) [
  | inl t ↦ ground (arith, t, e, find_cons x es ip)
  | inr f ↦ elim (Option-cases (arp_find es ip)) [
    | inl n ↦ absurd (ground (arith, n, f, e, find_cons x es ip))
    | inr (j, q) ↦
        subst (Holds (x ∷ es) ip) (ground (arith, q, f, e, find_cons x es ip))
          (Holds-cons x es ip j (arp_find-Holds es ip q))
  ]
]

-- An index that holds the address is found, or one before it.
pub arp_find_le :
    (c : List Entry) (ip i : ℕ) → Holds c ip i → (j : ℕ) × (arp_find c ip ≡ some j) × (j ≤ i)
arp_find_le [] ip i (l, v, q) = elim l [ ]
arp_find_le (x ∷ es) ip zero (l, v, q) = (0, ground (arith, find_cons x es ip), omega arith)
arp_find_le (x ∷ es) ip (suc i) (l, v, q) = elim (Bool-cases (x.valid && (x.ip == ip))) [
  | inl t ↦ (0, ground (arith, t, find_cons x es ip), omega arith)
  | inr f ↦
      (let (j, g, h) = arp_find_le es ip i (omega arith, v, q) in
        (suc j, ground (arith, g, f, find_cons x es ip), omega arith))
]

-- The entries before i are in use, and none of them is older than the one at s.
abbrev Oldest : List Entry → ℕ → ℕ → Type 0
Oldest c i s = (j : ℕ) → j < i → ((entry c j).valid ≡ true) × ((entry c s).tmo ≤ (entry c j).tmo)

-- The entry at s is a free one, or every entry is in use and it is an oldest one.
abbrev pub IsSlot : List Entry → ℕ → Type 0
IsSlot c s = (s < length c) × (((entry c s).valid ≡ false) ⊎ Oldest c (length c) s)

Oldest-suc :
    (c : List Entry) (i o t : ℕ)
    → Oldest c i o
    → (entry c i).valid ≡ true
    → (entry c t).tmo ≤ (entry c o).tmo
    → (entry c t).tmo ≤ (entry c i).tmo
    → Oldest c (suc i) t
Oldest-suc c i o t old v le le' j l = elim (ℕ_discrete j i) [
  | yes e ↦
      subst (λ k. ((entry c k).valid ≡ true) × ((entry c t).tmo ≤ (entry c k).tmo)) (sym e) (v, le')
  | no n ↦ (let (u, m) = old j (omega arith) in (u, omega arith))
]

slot_from-IsSlot :
    (c es : List Entry) (i o : ℕ)
    → length c ≡ i + length es
    → ((j : ℕ) → entry es j ≡ entry c (i + j))
    → o < length c
    → Oldest c i o
    → IsSlot c (slot_from c es i o)
unfolding slot_from
slot_from-IsSlot c [] i o n same l old =
    (l, inr (subst (λ k. Oldest c k o) (let e : i ≡ length c = omega arith in e) old))
slot_from-IsSlot c (x ∷ es) i o n same l old = elim (Bool-cases x.valid) [
  | inl v ↦ elim (dec_lt x.tmo (entry c o).tmo) [
    | yes h ↦ subst (IsSlot c) (ground (arith, v)) (
        slot_from-IsSlot c es (suc i) i (omega arith) shifted (omega arith)
          (Oldest-suc c i o i old (valid_at v) (omega (arith, tmo_at)) (omega arith)))
    | no g ↦ subst (IsSlot c) (ground (arith, v)) (
        slot_from-IsSlot c es (suc i) o (omega arith) shifted l
          (Oldest-suc c i o o old (valid_at v) (omega arith) (omega (arith, tmo_at))))
  ]
  | inr f ↦
      subst (IsSlot c) (let e : i ≡ slot_from c (x ∷ es) i o = ground (arith, f) in e)
        (omega arith, inl (sym (ap (λ y. y.valid) first) ∙ f))
]
  where
    shifted : (j : ℕ) → entry es j ≡ entry c (suc i + j)
    shifted j = same (suc j) ∙ ap (entry c) (let e : i + suc j ≡ suc i + j = omega arith in e)

    first : x ≡ entry c i
    first = same 0 ∙ ap (entry c) (let e : i + 0 ≡ i = omega arith in e)

    valid_at : x.valid ≡ true → (entry c i).valid ≡ true
    valid_at v = sym (ap (λ y. y.valid) first) ∙ v

    tmo_at : (entry c i).tmo ≡ x.tmo
    tmo_at = sym (ap (λ y. y.tmo) first)

-- `arp_slot` gives a free entry, or else an oldest one.
pub arp_slot-IsSlot : (c : List Entry) → 0 < length c → IsSlot c (arp_slot c)
unfolding arp_slot
arp_slot-IsSlot c l =
    slot_from-IsSlot c c 0 0 (omega arith) (λ j. ap (entry c) (omega arith)) l (λ j h. elim h [ ])
