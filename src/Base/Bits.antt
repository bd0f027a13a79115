-- ===== src/Base/Bits.antt =====
-- The bits of a number, and what the operations on words do to them.
use Prim.Native.Nat.{
  ℕ, zero, suc, ◌+◌, ◌-◌, ◌*◌, ◌/◌, ◌%◌, ◌^◌, ◌≤◌, ◌<◌, min, max, bit_and, bit_or, digits,
  bit_and-bitwise, bit_or-bitwise,
}
use mathlib.Core.Path.{◌≡◌, refl, sym, ap, ◌∙◌}
use mathlib.Core.Bool.{Bool, true, false}
use native.Mathlib.Decide.{ℕ_discrete}
use native.Mathlib.Nat.{pow-suc}
use native.Mathlib.Omega.{arith}

-- Bit i of x.
abbrev pub bit : ℕ → ℕ → ℕ
bit x zero = x % 2
bit x (suc i) = bit (x / 2) i

-- x >> n.
abbrev pub shr : ℕ → ℕ → ℕ
shr x zero = x
shr x (suc n) = shr (x / 2) n

pub bit-le_one : (x i : ℕ) → bit x i ≤ 1
bit-le_one x zero = omega arith
bit-le_one x (suc i) = bit-le_one (x / 2) i

pub bit-shr : (x n i : ℕ) → bit (shr x n) i ≡ bit x (n + i)
bit-shr x zero i = ap (bit x) (let e : i ≡ zero + i = omega arith in e)
bit-shr x (suc n) i =
    bit-shr (x / 2) n i ∙ ap (bit x) (let e : suc (n + i) ≡ suc n + i = omega arith in e)

pub bit-zero : (i : ℕ) → bit 0 i ≡ 0
bit-zero zero = refl
bit-zero (suc i) = bit-zero i

-- A word has no bits from its width on.
pub bit_of_lt : (w x i : ℕ) → x < 2 ^ w → w ≤ i → bit x i ≡ 0
bit_of_lt zero zero i h l = bit-zero i
bit_of_lt zero (suc x) i h l = absurd (omega arith)
bit_of_lt (suc w) x zero h l = absurd (omega arith)
bit_of_lt (suc w) x (suc i) h l = bit_of_lt w (x / 2) i (omega (arith, pow-suc 2 w)) (omega arith)

-- An operation on numbers that works digit by digit, `z` giving the rest once the first number has
-- run out and `f` one digit.
module _ (z : ℕ → ℕ) (f : ℕ → ℕ → ℕ) (ends : (y : ℕ) → z y ≡ z (y / 2) * 2 + f 0 (y % 2)) where
  one_more_digit : (n x y : ℕ) → x ≤ n → digits z f (suc n) x y ≡ digits z f n x y
  one_more_digit zero zero y l = refl
  one_more_digit zero (suc x) y l = elim l [ ]
  one_more_digit (suc n) zero y l = refl
  one_more_digit (suc n) (suc x) y l =
      ap (λ r. r * 2 + f (suc x % 2) (y % 2))
        (one_more_digit n (suc x / 2) (y / 2) (let h : suc x / 2 ≤ n = omega arith in h))

  more_digits : (n x y : ℕ) → x ≤ n → digits z f n x y ≡ digits z f x x y
  more_digits zero zero y l = refl
  more_digits zero (suc x) y l = elim l [ ]
  more_digits (suc n) x y l = elim (ℕ_discrete x (suc n)) [
    | yes e ↦ sym (ap (λ k. digits z f k x y) e)
    | no d ↦ one_more_digit n x y (omega arith) ∙ more_digits n x y (omega arith)
  ]

  lowest_digit :
      (x y : ℕ) → digits z f x x y ≡ digits z f (x / 2) (x / 2) (y / 2) * 2 + f (x % 2) (y % 2)
  lowest_digit zero y = ends y
  lowest_digit (suc x) y =
      ap (λ r. r * 2 + f (suc x % 2) (y % 2)) (more_digits x (suc x / 2) (y / 2) (omega arith))

and_digit : (x y : ℕ) → bit_and x y ≡ bit_and (x / 2) (y / 2) * 2 + min (x % 2) (y % 2)
and_digit x y = omega (
  arith,
  lowest_digit (λ b. zero) min (λ y. omega arith) x y,
  bit_and-bitwise x y,
  bit_and-bitwise (x / 2) (y / 2),
)

or_digit : (x y : ℕ) → bit_or x y ≡ bit_or (x / 2) (y / 2) * 2 + max (x % 2) (y % 2)
or_digit x y = omega (
  arith,
  lowest_digit (λ b. b) max (λ y. omega arith) x y,
  bit_or-bitwise x y,
  bit_or-bitwise (x / 2) (y / 2),
)

-- A bit of a conjunction.
pub bit-bit_and : (a b i : ℕ) → bit (bit_and a b) i ≡ min (bit a i) (bit b i)
bit-bit_and a b zero = omega (arith, and_digit a b)
bit-bit_and a b (suc i) =
    ap (λ x. bit x i)
      (let e : bit_and a b / 2 ≡ bit_and (a / 2) (b / 2) = omega (arith, and_digit a b) in e)
    ∙ bit-bit_and (a / 2) (b / 2) i

-- A bit of a disjunction.
pub bit-bit_or : (a b i : ℕ) → bit (bit_or a b) i ≡ max (bit a i) (bit b i)
bit-bit_or a b zero = omega (arith, or_digit a b)
bit-bit_or a b (suc i) =
    ap (λ x. bit x i)
      (let e : bit_or a b / 2 ≡ bit_or (a / 2) (b / 2) = omega (arith, or_digit a b) in e)
    ∙ bit-bit_or (a / 2) (b / 2) i

and_le_fuel : (n a b : ℕ) → a ≤ n → bit_and a b ≤ b
and_le_fuel zero zero b h = omega (arith, bit_and-bitwise 0 b)
and_le_fuel zero (suc a) b h = elim h [ ]
and_le_fuel (suc n) zero b h = omega (arith, bit_and-bitwise 0 b)
and_le_fuel (suc n) (suc a) b h =
    omega (arith, and_digit (suc a) b, and_le_fuel n (suc a / 2) (b / 2) (omega arith))

-- A conjunction is no larger than its second part.
pub bit_and-le : (a b : ℕ) → bit_and a b ≤ b
bit_and-le a b = and_le_fuel a a b (omega arith)

-- A bit of x << 1.
pub bit-double : (x i : ℕ) → bit (x * 2) (suc i) ≡ bit x i
bit-double x i = ap (λ y. bit y i) (let e : x * 2 / 2 ≡ x = omega arith in e)

-- A test of every number below n, run.
unfoldable pub each_below : (ℕ → Bool) → ℕ → Bool
each_below p zero = true
each_below p (suc n) = elim (p n) [ true ↦ each_below p n | false ↦ false ]

pub each_below_lem : (p : ℕ → Bool) {n : ℕ} (k : ℕ) → k < n → each_below p n ≡ true → p k ≡ true
unfolding each_below
each_below_lem p {n = zero} k l e = elim l [ ]
each_below_lem p {n = suc n} k l e = elim (ℕ_discrete k n) [
  | yes q ↦ ground (arith, ap p q)
  | no d ↦ ground (arith, each_below_lem p {n = n} k)
]

double_pow : (s x : ℕ) → x * 2 ^ suc s ≡ x * 2 ^ s * 2
double_pow s x = omega (arith, ap (λ t. x * t) (pow-suc 2 s))

half_pow : (s x : ℕ) → x * 2 ^ suc s / 2 ≡ x * 2 ^ s
half_pow s x = omega (arith, double_pow s x)

-- Bits of x << s.
pub bit-mul_pow : (s x i : ℕ) → bit (x * 2 ^ s) (s + i) ≡ bit x i
bit-mul_pow zero x i =
    ap (bit (x * 2 ^ zero)) (let e : zero + i ≡ i = omega arith in e)
    ∙ ap (λ y. bit y i) (let e : x * 2 ^ zero ≡ x = omega arith in e)
bit-mul_pow (suc s) x i =
    ap (bit (x * 2 ^ suc s)) (let e : suc s + i ≡ suc (s + i) = omega arith in e)
    ∙ (ap (λ y. bit y (s + i)) (half_pow s x) ∙ bit-mul_pow s x i)

pub bit-mul_pow_lt : (s x i : ℕ) → i < s → bit (x * 2 ^ s) i ≡ 0
bit-mul_pow_lt zero x i h = elim h [ ]
bit-mul_pow_lt (suc s) x zero h = omega (arith, double_pow s x)
bit-mul_pow_lt (suc s) x (suc i) h =
    ap (λ y. bit y i) (half_pow s x) ∙ bit-mul_pow_lt s x i (omega arith)

or_le_fuel : (n a b : ℕ) → a ≤ n → bit_or a b ≤ a + b
or_le_fuel zero zero b h = omega (arith, bit_or-bitwise 0 b)
or_le_fuel zero (suc a) b h = elim h [ ]
or_le_fuel (suc n) zero b h = omega (arith, bit_or-bitwise 0 b)
or_le_fuel (suc n) (suc a) b h =
    omega (arith, or_digit (suc a) b, or_le_fuel n (suc a / 2) (b / 2) (omega arith))

pub bit_or-le_add : (a b : ℕ) → bit_or a b ≤ a + b
bit_or-le_add a b = or_le_fuel a a b (omega arith)

pub shr-le : (x n : ℕ) → shr x n ≤ x
shr-le x zero = omega arith
shr-le x (suc n) = omega (arith, shr-le (x / 2) n)

-- The bits of the complement of a word of w bits.
pub bit-complement : (w x i : ℕ) → x < 2 ^ w → i < w → bit (2 ^ w - 1 - x) i + bit x i ≡ 1
bit-complement zero x i h l = elim l [ ]
bit-complement (suc w) x zero h l = omega (arith, pow-suc 2 w)
bit-complement (suc w) x (suc i) h l =
    ap (λ y. bit y i + bit (x / 2) i) half
    ∙ bit-complement w (x / 2) i (omega (arith, pow-suc 2 w)) (omega arith)
  where
    half : (2 ^ suc w - 1 - x) / 2 ≡ 2 ^ w - 1 - x / 2
    half = omega (arith, pow-suc 2 w)
