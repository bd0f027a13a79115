-- ===== src/Net/Dns/Answer.antt =====
-- How drivers/net/dns.c reads an answer.
use mathlib.Core.List.{append_assoc}
use core_z_os.Base.{
  ℕ, zero, suc, ◌+◌, ◌^◌, ◌≤◌, ◌<◌, ◌≡◌, ◌⊎◌, inl, inr, refl, sym, ap, ap₂, ◌∙◌, false, Option,
  some, List, [], ◌∷◌, ◌++◌, arith, ltb, length, length-append, get_or, All,
}
use core_z_os.Net.{byte_at, net_put32, net_be16, net_be32}
use core_z_os.Net.Dns.{
  Skip, bad, skipped, skip_loop, dns_skip_name, after_name, read_record, find_address,
}
use core_z_os.Net.Dns.Query.{IsLabel, wire}

skip-label :
    (fuel off : ℕ) (b : List ℕ)
    → off < length b
    → 0 < byte_at b off
    → byte_at b off ≤ 63
    → skip_loop (suc fuel) b off ≡ skip_loop fuel b (off + (1 + byte_at b off))
unfolding skip_loop
skip-label fuel off b l p s = ground (arith, l, p, s)

skip-end :
    (fuel off : ℕ) (b : List ℕ)
    → off < length b
    → byte_at b off ≡ 0
    → skip_loop (suc fuel) b off ≡ skipped (off + 1)
unfolding skip_loop
skip-end fuel off b l e = ground (arith, l, e)

skip-pointer :
    (fuel off : ℕ) (b : List ℕ)
    → off < length b
    → 192 ≤ byte_at b off
    → skip_loop (suc fuel) b off ≡ skipped (off + 2)
unfolding skip_loop
skip-pointer fuel off b l e = ground (arith, l, e)

skip-bad :
    (fuel off : ℕ) (b : List ℕ)
    → (length b ≤ off) ⊎ ((63 < byte_at b off) × (byte_at b off < 192))
    → skip_loop (suc fuel) b off ≡ bad
unfolding skip_loop
skip-bad fuel off b h = ground (arith, h)

-- A name ends, by a position behind where it starts, or is bad.
Ends : List ℕ → ℕ → Skip → Type 0
Ends b off s = (s ≡ bad) ⊎ ((o : ℕ) × (s ≡ skipped o) × (off < o) × (o ≤ length b + 1))

byte-cases :
    (b : List ℕ) (off : ℕ)
    → ((length b ≤ off) ⊎ ((63 < byte_at b off) × (byte_at b off < 192)))
      ⊎ ((off < length b)
          × ((byte_at b off ≡ 0)
              ⊎ ((192 ≤ byte_at b off) ⊎ ((0 < byte_at b off) × (byte_at b off ≤ 63)))))
byte-cases b off = ground arith

skip_loop-Ends :
    (fuel off : ℕ) (b : List ℕ)
    → 0 < fuel
    → length b < off + fuel
    → Ends b off (skip_loop fuel b off)
unfolding Ends
skip_loop-Ends zero off b z h = elim z [ ]
skip_loop-Ends (suc fuel) off b z h = elim (byte-cases b off) [
  | inl e ↦ inl (skip-bad fuel off b e)
  | inr (l, inl e) ↦ inr (off + 1, skip-end fuel off b l e, omega arith, omega (arith, l))
  | inr (l, inr (inl e)) ↦ inr (off + 2, skip-pointer fuel off b l e, omega arith, omega (arith, l))
  | inr (l, inr (inr (p, s))) ↦
      elim (skip_loop-Ends fuel (off + (1 + byte_at b off)) b (omega (arith, l, h))
        (omega (arith, l, h))) [
          | inl e ↦ inl (skip-label fuel off b l p s ∙ e)
          | inr (o, e, lt, le) ↦ inr (o, skip-label fuel off b l p s ∙ e, omega (arith, lt), le)
        ]
]

-- Reading a name ends, with -1 or with a position behind where it began and at most one behind the
-- message; the loop needs no more rounds than the message has bytes, and one.
pub dns_skip_name_ends :
    (b : List ℕ) (off : ℕ)
    → (dns_skip_name b off ≡ bad)
      ⊎ ((o : ℕ) × (dns_skip_name b off ≡ skipped o) × (off < o) × (o ≤ length b + 1))
unfolding dns_skip_name Ends
dns_skip_name_ends b off = skip_loop-Ends (length b + 1) off b (omega arith) (omega arith)

get_or-append : (xs ys : List ℕ) (k : ℕ) → get_or (xs ++ ys) (length xs + k) 0 ≡ get_or ys k 0
get_or-append [] ys k = ap (λ i. get_or ys i 0) (let e : 0 + k ≡ k = omega arith in e)
get_or-append (x ∷ xs) ys k =
    ap (λ i. get_or (x ∷ xs ++ ys) i 0)
      (let e : suc (length xs) + k ≡ suc (length xs + k) = omega arith in e)
    ∙ get_or-append xs ys k

byte_at-append : (xs ys : List ℕ) → byte_at (xs ++ ys) (length xs) ≡ byte_at ys 0
byte_at-append xs ys =
    ap (λ i. get_or (xs ++ ys) i 0) (let e : length xs ≡ length xs + 0 = omega arith in e)
    ∙ get_or-append xs ys 0

-- A name of labels, and the byte 0 behind it, is skipped.
pub skip-wire :
    (ls : List (List ℕ)) (fuel : ℕ) (before after : List ℕ)
    → All IsLabel ls
    → length (wire ls) < fuel
    → skip_loop fuel (before ++ (wire ls ++ 0 ∷ after)) (length before)
      ≡ skipped (length before + (length (wire ls) + 1))
skip-wire [] zero before after h f = elim f [ ]
skip-wire [] (suc fuel) before after h f =
    skip-end fuel (length before) (before ++ 0 ∷ after)
      (omega (arith, length-append before (0 ∷ after))) (byte_at-append before (0 ∷ after))
    ∙ ap skipped (omega arith)
skip-wire (l ∷ ls) zero before after h f = elim f [ ]
skip-wire (l ∷ ls) (suc fuel) before after (h, t) f =
    skip-label fuel (length before) b (omega (arith, length-append before rest))
      (omega (arith, here, h.0)) (omega (arith, here, h.1))
    ∙ (ap₂ (skip_loop fuel) moved (omega (arith, here, length-append before (length l ∷ l)))
        ∙ (skip-wire ls fuel (before ++ length l ∷ l) after t
              (omega (arith, f, length-append l (wire ls)))
            ∙ ap skipped
                (omega (arith, length-append before (length l ∷ l), length-append l (wire ls)))))
  where
    rest : List ℕ
    rest = wire (l ∷ ls) ++ 0 ∷ after

    b : List ℕ
    b = before ++ rest

    here : byte_at b (length before) ≡ length l
    here = byte_at-append before rest

    moved : b ≡ (before ++ length l ∷ l) ++ (wire ls ++ 0 ∷ after)
    moved =
        ap (λ x. before ++ length l ∷ x) (append_assoc l (wire ls) (0 ∷ after))
        ∙ sym (append_assoc before (length l ∷ l) (wire ls ++ 0 ∷ after))

-- An address record of an answer: a pointer to the name, type and class 1, the time to live, and
-- the four bytes.
abbrev pub record_a : ℕ → ℕ → List ℕ → List ℕ
record_a ttl ip after = 192 ∷ 12 ∷ 0 ∷ 1 ∷ 0 ∷ 1 ∷ net_put32 ttl ++ (0 ∷ 4 ∷ net_put32 ip ++ after)

module _ (before after : List ℕ) (ttl ip : ℕ) (small : ip < 2 ^ 32) where
  message : List ℕ
  message = before ++ record_a ttl ip after

  at : (k : ℕ) → get_or message (length before + k) 0 ≡ get_or (record_a ttl ip after) k 0
  unfolding message
  at k = get_or-append before (record_a ttl ip after) k

  at_from :
      (i k : ℕ)
      → get_or message (length before + i + k) 0 ≡ get_or (record_a ttl ip after) (i + k) 0
  at_from i k =
      ap (λ j. get_or message j 0)
        (let e : length before + i + k ≡ length before + (i + k) = omega arith in e)
      ∙ at (i + k)

  length-message : length message ≡ length before + (16 + length after)
  unfolding message net_put32
  length-message = omega (arith, length-append before (record_a ttl ip after))

  pointer : dns_skip_name message (length before) ≡ skipped (length before + 2)
  unfolding dns_skip_name
  pointer =
      ap (λ n. skip_loop n message (length before))
        (let e : length message + 1 ≡ suc (length message) = omega arith in e)
      ∙ skip-pointer (length message) (length before) message (omega (arith, length-message))
          (omega (arith, first))
    where
      first : byte_at message (length before) ≡ 192
      first =
          ap (λ i. get_or message i 0)
            (let e : length before ≡ length before + 0 = omega arith in e)
          ∙ at 0

  type-eq : net_be16 message (length before + 2) ≡ 1
  unfolding net_be16
  type-eq = omega (arith, at 2, at_from 2 1)

  rdlen-eq : net_be16 message (length before + 2 + 8) ≡ 4
  unfolding net_be16 net_put32
  rdlen-eq = omega (
    arith,
    at_from 2 8,
    at 10,
    ap (λ i. get_or message i 0)
        (let e : length before + 2 + 8 + 1 ≡ length before + 11 = omega arith in e),
    at 11,
  )

  addr-eq : net_be32 message (length before + 2 + 10) ≡ ip
  unfolding net_be32 net_put32
  addr-eq =
      omega
        (arith, small, at_from 2 10, at 12, shifted 1, at 13, shifted 2, at 14, shifted 3, at 15)
    where
      shifted :
          (k : ℕ)
          → get_or message (length before + 2 + 10 + k) 0
            ≡ get_or message (length before + (12 + k)) 0
      shifted k =
          ap (λ i. get_or message i 0)
            (let e : length before + 2 + 10 + k ≡ length before + (12 + k) = omega arith in e)

  read : (next : ℕ → Option ℕ) → read_record message next (length before + 2) ≡ some ip
  unfolding read_record
  read next = rw (type-eq, rdlen-eq, addr-eq, short, short') refl
    where
      short : ltb (length message) (length before + 2 + 10) ≡ false
      short = ground (arith, length-message)

      short' : ltb (length message) (length before + 2 + 10 + 4) ≡ false
      short' = ground (arith, length-message)

  find-record : (an : ℕ) → find_address (suc an) message (length before) ≡ some ip
  unfolding find_address after_name
  find-record an =
      ap (λ s. after_name s (read_record message (find_address an message))) pointer
      ∙ read (find_address an message)

-- Where an address record is next, `find_address` gives its address.
pub find_address-record :
    (before after : List ℕ) (ttl ip an : ℕ)
    → ip < 2 ^ 32
    → find_address (suc an) (before ++ record_a ttl ip after) (length before) ≡ some ip
unfolding message
find_address-record before after ttl ip an small = find-record before after ttl ip small an
