-- ===== src/Bitmap/Ctz.antt =====
-- `__builtin_ctzll` as `ctz`, and one round of the loop over a word.
use core_z_os.Base.{
  ℕ, zero, suc, ◌+◌, ◌-◌, ◌/◌, ◌%◌, ◌^◌, ◌≤◌, ◌<◌, ◌≡◌, ◌≢◌, sym, ap, ◌∙◌, inl, inr, Bool-cases,
  arith, ◌==◌,
}
use core_z_os.Base.Bits.{bit, bit-shr, bit-zero, bit_of_lt, bit-complement, shr, shr-le}
use native.Mathlib.Nat.{pow-suc}
use native.Mathlib.Decide.{ℕ_discrete, dec_lt}
use core_z_os.Bitmap.{ctz}

pub ctz-le : (n x : ℕ) → ctz n x ≤ n
unfolding ctz
ctz-le zero x = omega arith
ctz-le (suc n) x = ground (arith, ctz-le n (x / 2))

-- The bits below are zeros,
pub bit_below_ctz : (n x i : ℕ) → i < ctz n x → bit x i ≡ 0
unfolding ctz
bit_below_ctz zero x i h = elim h [ ]
bit_below_ctz (suc n) x zero h = ground arith
bit_below_ctz (suc n) x (suc i) h = bit_below_ctz n (x / 2) i (ground arith)

-- and the bit itself is a one, if the word is not 0.
pub bit_at_ctz : (n x : ℕ) → x < 2 ^ n → x ≢ 0 → bit x (ctz n x) ≡ 1
unfolding ctz
bit_at_ctz zero x h z = absurd (omega arith)
bit_at_ctz (suc n) x h z = elim (Bool-cases (x % 2 == 1)) [
  | inl e ↦ rw e (ground arith)
  | inr e ↦ rw e (bit_at_ctz n (x / 2) (omega (arith, pow-suc 2 n)) (ground arith))
]

pub ctz_pos : (n x : ℕ) → x % 2 ≡ 0 → 0 < ctz (suc n) x
unfolding ctz
ctz_pos n x h = ground arith

-- A word v seen from the position pos: `rest`, the zeros below its lowest one, and what is above.
module _ (v pos : ℕ) (small : v < 2 ^ 64) (in_word : pos < 64) (some_left : shr v pos ≢ 0) where
  abbrev pub zeros : ℕ
  zeros = ctz 64 (shr v pos)

  abbrev pub high : ℕ
  high = shr (shr v pos) zeros

  abbrev pub ones : ℕ
  ones = ctz 64 (2 ^ 64 - 1 - high)

  one : bit v (pos + zeros) ≡ 1
  one = omega (
    arith,
    bit-shr v pos zeros,
    bit_at_ctz 64 (shr v pos) (omega (arith, shr-le v pos)) some_left,
  )

  pub zeros_in : pos + zeros < 64
  zeros_in = ground (arith, one, bit_of_lt 64 v (pos + zeros) small)

  bit-high : (i : ℕ) → bit high i ≡ bit v (pos + (zeros + i))
  bit-high i = bit-shr (shr v pos) zeros i ∙ bit-shr v pos (zeros + i)

  high-lt : high < 2 ^ 64
  high-lt = omega (arith, shr-le (shr v pos) zeros, shr-le v pos)

  high_odd : high % 2 ≡ 1
  high_odd =
      bit-high 0 ∙ (ap (bit v) (let e : pos + (zeros + 0) ≡ pos + zeros = omega arith in e) ∙ one)

  pub ones_pos : 0 < ones
  ones_pos = ctz_pos 63 (2 ^ 64 - 1 - high) (omega (arith, high_odd, high-lt))

  -- The ones end inside the word: above it the bits of `high` are zeros.
  past_end : (m : ℕ) → pos + zeros + m ≡ 64 → m < ones → ⊥
  past_end m e h = omega (
    arith,
    bit_below_ctz 64 (2 ^ 64 - 1 - high) m h,
    bit-complement 64 high m high-lt (omega (arith, ctz-le 64 (2 ^ 64 - 1 - high))),
    bit-high m,
    bit_of_lt 64 v (pos + (zeros + m)) small,
  )

  pub ones_in : pos + zeros + ones ≤ 64
  ones_in = elim (dec_lt 64 (pos + zeros + ones)) [
    | yes h ↦
        absurd (past_end (64 - (pos + zeros)) (omega (arith, zeros_in)) (omega (arith, zeros_in)))
    | no h ↦ omega arith
  ]

  -- The bits from `pos` to the lowest one are zeros.
  pub zeros_free : (i : ℕ) → pos ≤ i → i < pos + zeros → bit v i ≡ 0
  zeros_free i l h =
      ap (bit v) (let e : i ≡ pos + (i - pos) = omega arith in e)
      ∙ (sym (bit-shr v pos (i - pos)) ∙ bit_below_ctz 64 (shr v pos) (i - pos) (omega arith))

pub rest_free : (v pos : ℕ) → shr v pos ≡ 0 → (i : ℕ) → pos ≤ i → bit v i ≡ 0
rest_free v pos z i l =
    ap (bit v) (let e : i ≡ pos + (i - pos) = omega arith in e)
    ∙ (sym (bit-shr v pos (i - pos)) ∙ (ap (λ x. bit x (i - pos)) z ∙ bit-zero (i - pos)))

-- A word whose bits are all zeros is 0.
pub eq_zero_of_bits : (x : ℕ) → x < 2 ^ 64 → ((i : ℕ) → bit x i ≡ 0) → x ≡ 0
eq_zero_of_bits x h f = elim (ℕ_discrete x 0) [
  | yes e ↦ e
  | no n ↦ absurd (omega (arith, bit_at_ctz 64 x h n, f (ctz 64 x)))
]
