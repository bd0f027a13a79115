-- ===== src/Bitmap/Missed.antt =====
-- Free runs that `bitmap_scan` does not find: the run that a word ends in is counted, and is tested
-- only when another free bit, or a set bit in a word that is not full, comes after it.
use core_z_os.Base.{
  ℕ, suc, ◌+◌, ◌-◌, ◌*◌, ◌/◌, ◌%◌, ◌^◌, ◌≤◌, ◌<◌, ◌≡◌, ◌≢◌, refl, sym, ap, subst, ◌∙◌, true, false,
  none, arith, leb, ◌==◌, length,
}
use native.Mathlib.Decide.{ℕ_discrete, dec_lt}
use core_z_os.Base.Bits.{bit, bit-zero, bit_of_lt, bit-shr, shr, shr-le, bit-complement}
use core_z_os.Bitmap.{
  Bitmap, ctz, found, carry, bitmap_word, scan_word, scan_one, scan_words, scan_bytes, scan_tail,
  bitmap_scan,
}
use core_z_os.Bitmap.Word.{used, IsBytes, bit-bitmap_word, bitmap_word-lt}
use core_z_os.Bitmap.Ctz.{bit_below_ctz, bit_at_ctz, eq_zero_of_bits}

-- The lowest one is where the zeros end.
ctz-eq : (x m : ℕ) → x < 2 ^ 64 → bit x m ≡ 1 → ((i : ℕ) → i < m → bit x i ≡ 0) → ctz 64 x ≡ m
ctz-eq x m h one below = elim (dec_lt (ctz 64 x) m) [
  | yes l ↦ absurd (omega (arith, below (ctz 64 x) l, bit_at_ctz 64 x h not_zero))
  | no g ↦ elim (dec_lt m (ctz 64 x)) [
    | yes l ↦ absurd (omega (arith, bit_below_ctz 64 x m l))
    | no g' ↦ omega arith
  ]
]
  where
    not_zero : x ≢ 0
    not_zero e = omega (arith, ap (λ y. bit y m) e, bit-zero m)

-- A round that finds nothing but zeros.
round_empty :
    (rounds v base cnt run pos : ℕ)
    → pos < 64
    → shr v pos ≡ 0
    → scan_word (suc rounds) v base cnt run pos ≡ carry ((run + (64 - pos)) % 2 ^ 32)
unfolding scan_word
round_empty rounds v base cnt run pos l z = rw (in_word, is_zero)
  where
    in_word : leb 64 pos ≡ false
    in_word = ground arith

    is_zero : (shr v pos == 0) ≡ true
    is_zero = ground arith

-- A round that goes on behind the next ones.
round_on :
    (rounds v base cnt run pos : ℕ)
    → pos < 64
    → shr v pos ≢ 0
    → (run + ctz 64 (shr v pos)) % 2 ^ 32 < cnt
    → shr (shr v pos) (ctz 64 (shr v pos)) ≢ 2 ^ 64 - 1
    → scan_word (suc rounds) v base cnt run pos
      ≡ scan_word rounds v base cnt 0
          (pos + ctz 64 (shr v pos) + ctz 64 (2 ^ 64 - 1 - shr (shr v pos) (ctz 64 (shr v pos))))
unfolding scan_word
round_on rounds v base cnt run pos l z c f = rw (in_word, not_zero, short, not_full)
  where
    in_word : leb 64 pos ≡ false
    in_word = ground arith

    not_zero : (shr v pos == 0) ≡ false
    not_zero = ground arith

    short : leb cnt ((run + ctz 64 (shr v pos)) % 2 ^ 32) ≡ false
    short = ground arith

    not_full : (shr (shr v pos) (ctz 64 (shr v pos)) == 2 ^ 64 - 1) ≡ false
    not_full = ground arith

-- The first m bits of the word are ones, the others zeros.
record Prefix (v m : ℕ) : Type 0 where
  small : v < 2 ^ 64
  pos : 0 < m
  lt : m < 64
  ones : (k : ℕ) → k < m → bit v k ≡ 1
  zeros : (k : ℕ) → m ≤ k → bit v k ≡ 0

module _ {v m : ℕ} (p : Prefix v m) (cnt : ℕ) (some_wanted : 0 < cnt) where
  odd : v % 2 ≡ 1
  odd = p.ones 0 p.pos

  not_full : v ≢ 2 ^ 64 - 1
  not_full e = omega (arith, p.zeros 63 (omega (arith, p.lt)), ap (λ x. bit x 63) e)

  rest_empty : shr v m ≡ 0
  rest_empty =
      eq_zero_of_bits (shr v m) (omega (arith, shr-le v m, p.small))
        (λ i. bit-shr v m i ∙ p.zeros (m + i) (omega arith))

  next_pos : ctz 64 (2 ^ 64 - 1 - v) ≡ m
  next_pos =
      ctz-eq (2 ^ 64 - 1 - v) m (omega arith)
        (omega (arith, bit-complement 64 v m p.small p.lt, p.zeros m))
        (λ i h. omega (arith, bit-complement 64 v i p.small, p.ones i h, p.lt))

  no_zeros : ctz 64 v ≡ 0
  no_zeros = ctz-eq v 0 p.small odd (λ i h. elim h [ ])

  scan_word_misses : scan_word 64 v 0 cnt 0 0 ≡ carry ((64 - m) % 2 ^ 32)
  scan_word_misses =
      round_on 63 v 0 cnt 0 0 (omega arith) (λ e. omega (arith, odd)) (omega (arith, no_zeros))
        not_high
      ∙ (ap (scan_word 63 v 0 cnt 0) moved
          ∙ (round_empty 62 v 0 cnt 0 m p.lt rest_empty
              ∙ ap (λ n. carry (n % 2 ^ 32)) (let e : 0 + (64 - m) ≡ 64 - m = omega arith in e)))
    where
      not_high : shr v (ctz 64 v) ≢ 2 ^ 64 - 1
      not_high = rw no_zeros not_full

      moved : 0 + ctz 64 v + ctz 64 (2 ^ 64 - 1 - shr v (ctz 64 v)) ≡ m
      moved =
          ap (λ t. 0 + t + ctz 64 (2 ^ 64 - 1 - shr v t)) no_zeros
          ∙ (let e : 0 + 0 + ctz 64 (2 ^ 64 - 1 - v) ≡ m = omega (arith, next_pos) in e)

  scan_one_misses : scan_one v 0 cnt 0 ≡ carry ((64 - m) % 2 ^ 32)
  unfolding scan_one
  scan_one_misses = rw (not_zero, not_ones) scan_word_misses
    where
      not_zero : (v == 0) ≡ false
      not_zero = ground (arith, odd)

      not_ones : (v == 2 ^ 64 - 1) ≡ false
      not_ones = ground (arith, not_full)

nothing_wanted : (b : Bitmap) (cnt : ℕ) → cnt ≡ 0 → bitmap_scan b cnt ≡ none
unfolding bitmap_scan
nothing_wanted b cnt z = ground arith

words_of_one :
    (b : Bitmap) (cnt : ℕ) {run : ℕ}
    → scan_one (bitmap_word b 0) 0 cnt 0 ≡ carry run
    → scan_words 1 b 0 cnt 0 ≡ carry run
unfolding scan_words
words_of_one b cnt {run} e =
    subst (λ p. elim p [ found i ↦ found i | carry run' ↦ scan_words 0 b 1 cnt run' ] ≡ carry run)
      (sym e) refl

no_tail : (b : Bitmap) (cnt run : ℕ) → length b ≡ 8 → scan_tail b cnt (carry run) ≡ none
unfolding scan_tail scan_bytes
no_tail b cnt run len = rw len refl

one_word :
    (b : Bitmap) (cnt : ℕ) {run : ℕ}
    → cnt ≢ 0
    → length b ≡ 8
    → scan_one (bitmap_word b 0) 0 cnt 0 ≡ carry run
    → bitmap_scan b cnt ≡ none
unfolding bitmap_scan
one_word b cnt {run} nz len e =
    rw (wanted, some_bytes, words, words_of_one b cnt e) (no_tail b cnt run len)
  where
    wanted : (cnt == 0) ≡ false
    wanted = ground arith

    some_bytes : (length b == 0) ≡ false
    some_bytes = ground arith

    words : length b / 8 ≡ 1
    words = omega arith

-- Where the first m bits of a bitmap of one word are set and the others are free, with m between 1
-- and 63, `bitmap_scan` finds no free bit: it returns none for every count.
pub bitmap_scan_misses :
    (b : Bitmap) (m cnt : ℕ)
    → IsBytes b
    → length b ≡ 8
    → 0 < m
    → m < 64
    → ((k : ℕ) → k < m → used b k ≡ 1)
    → ((k : ℕ) → m ≤ k → k < 64 → used b k ≡ 0)
    → bitmap_scan b cnt ≡ none
bitmap_scan_misses b m cnt h len pos lt ones zeros = elim (ℕ_discrete cnt 0) [
  | yes z ↦ nothing_wanted b cnt z
  | no nz ↦ one_word b cnt nz len (scan_one_misses prefix cnt (omega arith))
]
  where
    prefix : Prefix (bitmap_word b 0) m
    prefix = record {
      small = bitmap_word-lt b 0;
      pos = pos;
      lt = lt;
      ones = λ k l.
          bit-bitmap_word b h 0 k (omega arith)
          ∙ (ap (used b) (let e : 0 * 64 + k ≡ k = omega arith in e) ∙ ones k l);
      zeros = λ k l. elim (dec_lt k 64) [
        | yes g ↦
            bit-bitmap_word b h 0 k g
            ∙ (ap (used b) (let e : 0 * 64 + k ≡ k = omega arith in e) ∙ zeros k l g)
        | no g ↦ bit_of_lt 64 (bitmap_word b 0) k (bitmap_word-lt b 0) (omega arith)
      ];
    }
