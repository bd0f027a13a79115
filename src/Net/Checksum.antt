-- ===== src/Net/Checksum.antt =====
-- `ip_csum` of drivers/net/ip.c, the internet checksum, and the sum that drivers/net/udp.c shares
-- with it.
use core_z_os.Base.{
  ℕ, zero, suc, ◌+◌, ◌-◌, ◌*◌, ◌/◌, ◌%◌, ◌^◌, ◌≤◌, ◌<◌, ◌≡◌, ◌≢◌, ◌↔◌, ap, ◌∙◌, true, false, List,
  [], ◌∷◌, arith, ◌==◌, if◌then◌else◌, length, All,
}

-- The loop over pairs of bytes and the byte that may be left, into a `uint32_t`.
unfoldable pub sum_words : ℕ → List ℕ → ℕ
sum_words sum [] = sum
sum_words sum (x ∷ []) = (sum + x * 2 ^ 8) % 2 ^ 32
sum_words sum (x ∷ y ∷ p) = sum_words ((sum + (x * 2 ^ 8 + y)) % 2 ^ 32) p

-- The loop that adds the carries in; three rounds are enough.
unfoldable pub fold_carries : ℕ → ℕ → ℕ
fold_carries zero sum = sum
fold_carries (suc rounds) sum = elim (sum / 2 ^ 16 == 0) [
  | true ↦ sum
  | false ↦ fold_carries rounds (sum % 2 ^ 16 + sum / 2 ^ 16)
]

-- `(uint16_t)~sum`, once the carries are in.
unfoldable pub complement_sum : ℕ → ℕ
unfolding fold_carries
complement_sum sum = 2 ^ 16 - 1 - fold_carries 3 sum % 2 ^ 16

unfoldable pub ip_csum : List ℕ → ℕ
unfolding sum_words
ip_csum p = complement_sum (sum_words 0 p)

abbrev pub IsBytes : List ℕ → Type 0
IsBytes = All (λ b. b < 256)

-- The sum of the words of a packet, without a bound.
abbrev pub total : List ℕ → ℕ
total [] = 0
total (x ∷ []) = x * 2 ^ 8
total (x ∷ y ∷ p) = x * 2 ^ 8 + y + total p

pub total-le : (p : List ℕ) → IsBytes p → total p ≤ 65535 * length p
total-le [] h = omega arith
total-le (x ∷ []) h = omega arith
total-le (x ∷ y ∷ p) (h, (k, t)) = omega (arith, total-le p t)

pub sum_words-eq : (sum : ℕ) (p : List ℕ) → sum + total p < 2 ^ 32 → sum_words sum p ≡ sum + total p
unfolding sum_words
sum_words-eq sum [] h = omega arith
sum_words-eq sum (x ∷ []) h = omega arith
sum_words-eq sum (x ∷ y ∷ p) h =
    ap (λ s. sum_words s p)
      (let e : (sum + (x * 2 ^ 8 + y)) % 2 ^ 32 ≡ sum + (x * 2 ^ 8 + y) = omega arith in e)
    ∙ (sum_words-eq (sum + (x * 2 ^ 8 + y)) p (omega arith) ∙ omega arith)

-- The loop of carries ends by its test, and leaves the sum modulo 65535: 0 only for 0.
pub fold_carries_ends :
    (sum : ℕ) → sum < 2 ^ 32 → fold_carries 3 sum ≡ (if sum == 0 then 0 else (sum - 1) % 65535 + 1)
unfolding fold_carries
fold_carries_ends sum h = ground arith

-- A sum has the complement 0 exactly if it is a multiple of 65535, and not 0.
pub complement_zero :
    (sum : ℕ) → sum < 2 ^ 32 → (complement_sum sum ≡ 0) ↔ ((sum ≢ 0) × (sum % 65535 ≡ 0))
unfolding complement_sum
complement_zero sum h =
    (λ e. ground (arith, fold_carries_ends sum h), λ e. ground (arith, fold_carries_ends sum h))

pub complement_sum-lt : (sum : ℕ) → complement_sum sum < 2 ^ 16
unfolding complement_sum
complement_sum-lt sum = omega arith

pub complement_lem :
    (sum : ℕ)
    → sum < 2 ^ 32
    → complement_sum sum ≡ 65535 - (if sum == 0 then 0 else (sum - 1) % 65535 + 1)
unfolding complement_sum
complement_lem sum h = ground (arith, fold_carries_ends sum h)

-- A sum and its own complement.
pub complement_balances :
    (sum : ℕ) → sum + 65535 < 2 ^ 32 → complement_sum (sum + complement_sum sum) ≡ 0
complement_balances sum h =
    (complement_zero (sum + complement_sum sum) (omega (arith, complement_sum-lt sum))).1
      (ground (arith, complement_lem sum), ground (arith, complement_lem sum))

-- The first words of the sum of UDP and TCP: the addresses, the protocol and the length.
abbrev pub pseudo : ℕ → ℕ → ℕ → ℕ → ℕ
pseudo proto saddr daddr len =
    saddr / 2 ^ 16 % 2 ^ 16
    + saddr % 2 ^ 16
    + daddr / 2 ^ 16 % 2 ^ 16
    + daddr % 2 ^ 16
    + proto
    + len

pub pseudo_sum :
    (pkt : List ℕ) (proto saddr daddr : ℕ)
    → proto < 2 ^ 8
    → total pkt + length pkt < 2 ^ 31
    → complement_sum (sum_words (pseudo proto saddr daddr (length pkt) % 2 ^ 32) pkt)
      ≡ complement_sum (pseudo proto saddr daddr (length pkt) + total pkt)
pseudo_sum pkt proto saddr daddr p h =
    ap (λ s. complement_sum (sum_words s pkt))
      (let e : pseudo proto saddr daddr (length pkt) % 2 ^ 32
            ≡ pseudo proto saddr daddr (length pkt) =
          omega (arith, p, h) in
        e)
    ∙ ap complement_sum
        (sum_words-eq (pseudo proto saddr daddr (length pkt)) pkt (omega (arith, p, h)))

-- A checksum put into the packet that it was computed of with 0 in its place makes the sum 0.
pub own_sum_balances :
    (sum : ℕ → ℕ) (base : ℕ)
    → ((c : ℕ) → c < 2 ^ 16 → sum c ≡ complement_sum (base + c))
    → base < 2 ^ 31
    → sum (sum 0) ≡ 0
own_sum_balances sum base f h =
    f (sum 0) (omega (arith, f 0 (omega arith), complement_sum-lt (base + 0)))
    ∙ (ap (λ c. complement_sum (base + c))
          (f 0 (omega arith) ∙ ap complement_sum (let e : base + 0 ≡ base = omega arith in e))
        ∙ complement_balances base (omega (arith, h)))
