-- ===== src/Bitmap/Word.antt =====
-- `bitmap_word`: bit i of a word is the bitmap's bit 64 * w + i.
use Prim.Native.Nat.{bit_and, bit_or, max}
use native.Mathlib.Nat.{mod-eq_of_lt}
use native.Mathlib.Decide.{dec_lt}
use core_z_os.Base.{
  ℕ, zero, suc, ◌+◌, ◌-◌, ◌*◌, ◌/◌, ◌%◌, ◌^◌, ◌≤◌, ◌<◌, ◌≡◌, refl, ap, ap₂, ◌∙◌, Bool, true, arith,
  ◌==◌, ==_iff, if◌then◌else◌, get_or, min,
}
use core_z_os.Base.Bits.{
  bit, bit-le_one, bit-bit_and, bit-bit_or, bit_and-le, bit_or-le_add, bit-mul_pow, bit-mul_pow_lt,
  bit-shr, each_below, each_below_lem, shr,
}
use core_z_os.Bitmap.{Bitmap, word_at, swap_pairs, swap_twos, swap_fours, bitmap_word}

-- Whether the bitmap's bit idx is set.
abbrev pub used : Bitmap → ℕ → ℕ
used b idx = bit (get_or b (idx / 8) 0) (7 - idx % 8)

-- 1 at the positions whose group of s is an even one.
abbrev low : ℕ → ℕ → ℕ
low s i = if i / s % 2 == 0 then 1 else 0

-- The position in the neighbouring group of s.
abbrev flip : ℕ → ℕ → ℕ
flip s i = if i / s % 2 == 0 then i + s else i - s

-- One stage of the reversal, for a mask of even groups.
module _ (s mask : ℕ) (fits : mask * 2 ^ s < 2 ^ 64) where
  stage : ℕ → ℕ
  stage x = bit_or (bit_and x mask * 2 ^ s % 2 ^ 64) (bit_and (shr x s) mask)

  no_wrap : (x : ℕ) → bit_and x mask * 2 ^ s % 2 ^ 64 ≡ bit_and x mask * 2 ^ s
  no_wrap x = mod-eq_of_lt (grind (arith, bit_and-le x mask))

  stage_lem : (x : ℕ) → stage x ≡ bit_or (bit_and x mask * 2 ^ s) (bit_and (shr x s) mask)
  unfolding stage
  stage_lem x = rw (no_wrap x)

  bit-stage_lt : (x i : ℕ) → i < s → bit mask i ≡ 1 → bit (stage x) i ≡ bit x (s + i)
  bit-stage_lt x i h e = rw (stage_lem x) (
      omega (
        arith,
        bit-bit_or (bit_and x mask * 2 ^ s) (bit_and (shr x s) mask) i,
        bit-mul_pow_lt s (bit_and x mask) i h,
        bit-bit_and (shr x s) mask i,
        bit-shr x s i,
        bit-le_one x (s + i),
      ))

  bit-stage_ge :
      (x i : ℕ)
      → bit (stage x) (s + i)
        ≡ max (min (bit x i) (bit mask i)) (min (bit x (s + (s + i))) (bit mask (s + i)))
  bit-stage_ge x i = rw (stage_lem x) (
      omega (
        arith,
        bit-bit_or (bit_and x mask * 2 ^ s) (bit_and (shr x s) mask) (s + i),
        bit-mul_pow s (bit_and x mask) i,
        bit-bit_and x mask i,
        bit-bit_and (shr x s) mask (s + i),
        bit-shr x s (s + i),
      ))

  module _ (table : (i : ℕ) → i < 64 → bit mask i ≡ low s i) where
    bit-stage-low : (x i : ℕ) → i < 64 → i < s → low s i ≡ 1 → bit (stage x) i ≡ bit x (flip s i)
    bit-stage-low x i h l e =
        bit-stage_lt x i l (table i h ∙ e)
        ∙ ap (bit x) (let q : s + i ≡ flip s i = ground arith in q)

    bit-stage_high :
        (x j i : ℕ)
        → i ≡ s + j
        → i < 64
        → low s i + low s j ≡ 1
        → bit (stage x) i ≡ bit x (flip s i)
    bit-stage_high x j i q h e = ap (bit (stage x)) q ∙ (bit-stage_ge x j ∙ pick)
      where
        up : i + s ≡ s + (s + j)
        up = omega arith

        down : i - s ≡ j
        down = omega arith

        pick :
            max (min (bit x j) (bit mask j)) (min (bit x (s + (s + j))) (bit mask (s + j)))
            ≡ bit x (flip s i)
        pick = ground (
          arith,
          table j,
          table i h,
          ap (bit mask) q,
          bit-le_one x j,
          bit-le_one x (s + (s + j)),
          e,
          ap (bit x) up,
          ap (bit x) down,
        )

    -- A bit of a stage is the bit of the neighbouring group.
    bit-stage :
        (x i : ℕ)
        → i < 64
        → (i < s → low s i ≡ 1)
        → (s ≤ i → low s i + low s (i - s) ≡ 1)
        → bit (stage x) i ≡ bit x (flip s i)
    bit-stage x i h l g = elim (dec_lt i s) [
      | yes p ↦ bit-stage-low x i h p (l p)
      | no p ↦ bit-stage_high x (i - s) i (omega arith) h (g (omega arith))
    ]

-- A table of a mask's bits.
groups_of : ℕ → ℕ → Bool
groups_of s mask = each_below (λ i. bit mask i == low s i) 64

groups_table : (s mask : ℕ) → groups_of s mask ≡ true → (i : ℕ) → i < 64 → bit mask i ≡ low s i
unfolding groups_of
groups_table s mask t i h =
    (==_iff (bit mask i) (low s i)).0 (each_below_lem (λ i. bit mask i == low s i) {n = 64} i h t)

bit-swap_pairs : (x i : ℕ) → i < 64 → bit (swap_pairs x) i ≡ bit x (flip 1 i)
unfolding swap_pairs stage
bit-swap_pairs x i h =
    bit-stage 1 0x5555555555555555 (omega arith) (groups_table 1 0x5555555555555555 table) x i h
      (λ l. ground arith) (λ l. ground arith)
  where
    table : groups_of 1 0x5555555555555555 ≡ true
    table = unfold groups_of each_below in refl

bit-swap_twos : (x i : ℕ) → i < 64 → bit (swap_twos x) i ≡ bit x (flip 2 i)
unfolding swap_twos stage
bit-swap_twos x i h =
    bit-stage 2 0x3333333333333333 (omega arith) (groups_table 2 0x3333333333333333 table) x i h
      (λ l. ground arith) (λ l. ground arith)
  where
    table : groups_of 2 0x3333333333333333 ≡ true
    table = unfold groups_of each_below in refl

bit-swap_fours : (x i : ℕ) → i < 64 → bit (swap_fours x) i ≡ bit x (flip 4 i)
unfolding swap_fours stage
bit-swap_fours x i h =
    bit-stage 4 0x0f0f0f0f0f0f0f0f (omega arith) (groups_table 4 0x0f0f0f0f0f0f0f0f table) x i h
      (λ l. ground arith) (λ l. ground arith)
  where
    table : groups_of 4 0x0f0f0f0f0f0f0f0f ≡ true
    table = unfold groups_of each_below in refl

-- The three stages together turn each byte round.
flips-eq : (i : ℕ) → i < 64 → flip 1 (flip 2 (flip 4 i)) ≡ i / 8 * 8 + (7 - i % 8)
flips-eq i h =
    (==_iff (flip 1 (flip 2 (flip 4 i))) (i / 8 * 8 + (7 - i % 8))).0 (
      each_below_lem (λ i. flip 1 (flip 2 (flip 4 i)) == i / 8 * 8 + (7 - i % 8)) {n = 64} i h
        table)
  where
    table : each_below (λ i. flip 1 (flip 2 (flip 4 i)) == i / 8 * 8 + (7 - i % 8)) 64 ≡ true
    table = unfold each_below in refl

bit_byte_low : (c y r : ℕ) → r < 8 → bit (c + 256 * y) r ≡ bit c r
bit_byte_low c y zero h = omega arith
bit_byte_low c y (suc zero) h = omega arith
bit_byte_low c y (suc (suc zero)) h = omega arith
bit_byte_low c y (suc (suc (suc zero))) h = omega arith
bit_byte_low c y (suc (suc (suc (suc zero)))) h = omega arith
bit_byte_low c y (suc (suc (suc (suc (suc zero))))) h = omega arith
bit_byte_low c y (suc (suc (suc (suc (suc (suc zero)))))) h = omega arith
bit_byte_low c y (suc (suc (suc (suc (suc (suc (suc zero))))))) h = omega arith
bit_byte_low c y (suc (suc (suc (suc (suc (suc (suc (suc r)))))))) h = absurd (omega arith)

bit_byte_high : (c y i : ℕ) → c < 256 → bit (c + 256 * y) (8 + i) ≡ bit y i
bit_byte_high c y i h =
    ap (bit (c + 256 * y))
      (let e : 8 + i ≡ suc (suc (suc (suc (suc (suc (suc (suc i))))))) = omega arith in e)
    ∙ ap (λ z. bit z i)
        (let e : (c + 256 * y) / 2 / 2 / 2 / 2 / 2 / 2 / 2 / 2 ≡ y = omega arith in e)

-- Every byte is one.
abbrev pub IsBytes : Bitmap → Type 0
IsBytes b = (k : ℕ) → get_or b k 0 < 256

bit-word_at :
    (b : Bitmap)
    → IsBytes b
    → (n byte j r : ℕ) → j < n
    → r < 8
    → bit (word_at b byte n) (8 * j + r) ≡ bit (get_or b (byte + j) 0) r
unfolding word_at
bit-word_at b h zero byte j r l m = elim l [ ]
bit-word_at b h (suc n) byte zero r l m =
    ap (bit (word_at b byte (suc n))) (let e : 8 * zero + r ≡ r = omega arith in e)
    ∙ (bit_byte_low (get_or b byte 0) (word_at b (suc byte) n) r m
        ∙ ap (λ k. bit (get_or b k 0) r) (let e : byte ≡ byte + zero = omega arith in e))
bit-word_at b h (suc n) byte (suc j) r l m =
    ap (bit (word_at b byte (suc n))) (let e : 8 * suc j + r ≡ 8 + (8 * j + r) = omega arith in e)
    ∙ (bit_byte_high (get_or b byte 0) (word_at b (suc byte) n) (8 * j + r) (h byte)
        ∙ (bit-word_at b h n (suc byte) j r (omega arith) m
            ∙ ap (λ k. bit (get_or b k 0) r)
                (let e : suc byte + j ≡ byte + suc j = omega arith in e)))

pub bitmap_word-lt : (b : Bitmap) (w : ℕ) → bitmap_word b w < 2 ^ 64
unfolding bitmap_word swap_fours
bitmap_word-lt b w = omega (
  arith,
  bit_or-le_add (bit_and x 0x0f0f0f0f0f0f0f0f * 2 ^ 4 % 2 ^ 64)
      (bit_and (shr x 4) 0x0f0f0f0f0f0f0f0f),
  bit_and-le x 0x0f0f0f0f0f0f0f0f,
  bit_and-le (shr x 4) 0x0f0f0f0f0f0f0f0f,
)
  where
    x : ℕ
    x = swap_twos (swap_pairs (word_at b (8 * w) 8))

-- Bit i of the word w that `bitmap_scan` reads is bit 64 * w + i of the bitmap.
pub bit-bitmap_word :
    (b : Bitmap) → IsBytes b → (w i : ℕ) → i < 64 → bit (bitmap_word b w) i ≡ used b (w * 64 + i)
unfolding bitmap_word
bit-bitmap_word b h w i l =
    bit-swap_fours (swap_twos (swap_pairs x)) i l
    ∙ (bit-swap_twos (swap_pairs x) (flip 4 i) (ground arith)
        ∙ (bit-swap_pairs x (flip 2 (flip 4 i)) (ground arith)
            ∙ (ap (bit x) (
                  flips-eq i l
                  ∙ (let e : i / 8 * 8 + (7 - i % 8) ≡ 8 * (i / 8) + (7 - i % 8) = omega arith in
                      e))
                ∙ (bit-word_at b h 8 (8 * w) (i / 8) (7 - i % 8) (omega arith) (omega arith)
                    ∙ ap₂ (λ k r. bit (get_or b k 0) r)
                        (let e : 8 * w + i / 8 ≡ (w * 64 + i) / 8 = omega arith in e)
                        (let e : 7 - i % 8 ≡ 7 - (w * 64 + i) % 8 = omega arith in e)))))
  where
    x : ℕ
    x = word_at b (8 * w) 8
