-- ===== src/Bitmap/Sound.antt =====
-- What `bitmap_scan` returns is the start of a free run that is long enough.
use native.Mathlib.Decide.{dec_lt}
use core_z_os.Base.{
  ℕ, zero, suc, ◌+◌, ◌-◌, ◌*◌, ◌/◌, ◌%◌, ◌^◌, ◌≤◌, ◌<◌, ◌≡◌, sym, ap, ap₂, subst, ◌∙◌, false, inl,
  inr, Bool-cases, some, arith, leb, if◌then◌else◌, length, get_or,
}
use core_z_os.Base.Bits.{bit, bit-double}
use core_z_os.Bitmap.{
  Bitmap, Progress, found, carry, bitmap_word, scan_one, scan_words, scan_bits, scan_bytes, result,
  scan_tail, bitmap_scan,
}
use core_z_os.Bitmap.Word.{used, IsBytes, bit-bitmap_word, bitmap_word-lt}
use core_z_os.Bitmap.WordSound.{IsFree, RunTo, Says, none_free, scan_one-Says}

-- What is said of a place holds of a later one, but for the run that ends there.
words_go :
    (u : ℕ → ℕ) (cnt p q n : ℕ) (b : Bitmap) (w : ℕ) (r : Progress)
    → p ≤ q
    → Says u cnt p r
    → ((run : ℕ) → RunTo u p run → Says u cnt q (scan_words n b w cnt run))
    → Says u cnt q (elim r [ found i ↦ found i | carry run ↦ scan_words n b w cnt run ])
words_go u cnt p q n b w (found i) l h f = (omega (arith, h.0), h.1)
words_go u cnt p q n b w (carry run) l h f = f run h

scan_words-Says :
    (b : Bitmap) (cnt : ℕ)
    → IsBytes b
    → (n w run : ℕ) → (w + n) * 64 < 2 ^ 31
    → RunTo (used b) (w * 64) run
    → Says (used b) cnt ((w + n) * 64) (scan_words n b w cnt run)
unfolding scan_words
scan_words-Says b cnt h zero w run l r =
    subst (λ p. RunTo (used b) p run) (let e : w * 64 ≡ (w + zero) * 64 = omega arith in e) r
scan_words-Says b cnt h (suc n) w run l r =
    words_go (used b) cnt (w * 64 + 64) ((w + suc n) * 64) n b (suc w)
      (scan_one (bitmap_word b w) w cnt run) (omega arith)
      (scan_one-Says (used b) (bitmap_word b w) w cnt run (bitmap_word-lt b w) (omega arith)
        (bit-bitmap_word b h w) r)
      (λ run' r'.
        subst (λ p. Says (used b) cnt p (scan_words n b (suc w) cnt run'))
          (let e : (suc w + n) * 64 ≡ (w + suc n) * 64 = omega arith in e)
          (scan_words-Says b cnt h n (suc w) run' (omega arith) (
            subst (λ p. RunTo (used b) p run') (let e : w * 64 + 64 ≡ suc w * 64 = omega arith in e)
              r')))

-- The low eight bits of a number.
bit_mod_byte : (x i : ℕ) → i < 8 → bit (x % 256) i ≡ bit x i
bit_mod_byte x zero h = omega arith
bit_mod_byte x (suc zero) h = omega arith
bit_mod_byte x (suc (suc zero)) h = omega arith
bit_mod_byte x (suc (suc (suc zero))) h = omega arith
bit_mod_byte x (suc (suc (suc (suc zero)))) h = omega arith
bit_mod_byte x (suc (suc (suc (suc (suc zero))))) h = omega arith
bit_mod_byte x (suc (suc (suc (suc (suc (suc zero)))))) h = omega arith
bit_mod_byte x (suc (suc (suc (suc (suc (suc (suc zero))))))) h = omega arith
bit_mod_byte x (suc (suc (suc (suc (suc (suc (suc (suc i)))))))) h = absurd (omega arith)

-- `bits <<= 1` brings the next bit to the top.
bit_shifted : (bits k : ℕ) → k < 7 → bit (bits * 2 % 256) (7 - k) ≡ bit bits (7 - suc k)
bit_shifted bits k h =
    bit_mod_byte (bits * 2) (7 - k) (omega arith)
    ∙ (ap (bit (bits * 2)) (let e : 7 - k ≡ suc (7 - suc k) = omega arith in e)
        ∙ bit-double bits (7 - suc k))

top_bit : (bits : ℕ) → bits < 256 → (if leb 128 bits then 1 else 0) ≡ bit bits 7
top_bit bits h = ground arith

scan_bits-Says :
    (u : ℕ → ℕ) (byte cnt n bits j run : ℕ)
    → bits < 256
    → n ≤ 8
    → byte * 8 + j + n < 2 ^ 31
    → ((k : ℕ) → k < n → bit bits (7 - k) ≡ u (byte * 8 + j + k))
    → RunTo u (byte * 8 + j) run
    → Says u cnt (byte * 8 + j + n) (scan_bits n bits byte j cnt run)
unfolding scan_bits
scan_bits-Says u byte cnt zero bits j run small l early h r =
    subst (λ p. RunTo u p run) (let e : byte * 8 + j ≡ byte * 8 + j + zero = omega arith in e) r
scan_bits-Says u byte cnt (suc n) bits j run small l early h r = elim (Bool-cases (leb 128 bits)) [
  | inl e1 ↦ rw e1 (
      at_end (scan_bits n (bits * 2 % 256) byte (suc j) cnt 0) (
        scan_bits-Says u byte cnt n (bits * 2 % 256) (suc j) 0 (omega arith) (omega arith)
          (omega arith) shifted (none_free u (byte * 8 + suc j))))
  | inr e1 ↦ rw e1 (elim (Bool-cases (leb cnt ((run + 1) % 2 ^ 32))) [
    | inl e2 ↦ rw e2 (enough e1 (ground arith))
    | inr e2 ↦ rw e2 (
        at_end (scan_bits n (bits * 2 % 256) byte (suc j) cnt ((run + 1) % 2 ^ 32)) (
          scan_bits-Says u byte cnt n (bits * 2 % 256) (suc j) ((run + 1) % 2 ^ 32) (omega arith)
            (omega arith) (omega arith) shifted (one_more e1)))
  ])
]
  where
    at_end :
        (p : Progress) → Says u cnt (byte * 8 + suc j + n) p → Says u cnt (byte * 8 + j + suc n) p
    at_end p s =
        subst (λ q. Says u cnt q p)
          (let e : byte * 8 + suc j + n ≡ byte * 8 + j + suc n = omega arith in e) s

    shifted : (k : ℕ) → k < n → bit (bits * 2 % 256) (7 - k) ≡ u (byte * 8 + suc j + k)
    shifted k m =
        bit_shifted bits k (omega arith)
        ∙ (h (suc k) (omega arith)
            ∙ ap u (let e : byte * 8 + j + suc k ≡ byte * 8 + suc j + k = omega arith in e))

    free : leb 128 bits ≡ false → u (byte * 8 + j) ≡ 0
    free e =
        ap u (let q : byte * 8 + j ≡ byte * 8 + j + 0 = omega arith in q)
        ∙ (sym (h 0 (omega arith)) ∙ (sym (top_bit bits small) ∙ ap (λ t. if t then 1 else 0) e))

    one_more : leb 128 bits ≡ false → RunTo u (byte * 8 + suc j) ((run + 1) % 2 ^ 32)
    one_more e = (
      omega (arith, r.0),
      λ k g m. elim (dec_lt k (byte * 8 + j)) [
        | yes b ↦ r.1 k (omega (arith, r.0)) b
        | no b ↦ ap u (let q : k ≡ byte * 8 + j = omega arith in q) ∙ free e
      ],
    )

    enough :
        leb 128 bits ≡ false
        → cnt ≤ (run + 1) % 2 ^ 32
        → Says u cnt (byte * 8 + j + suc n) (found ((byte * 8 + j + 1 + 2 ^ 32 - cnt) % 2 ^ 32))
    enough e c = (
      omega (arith, (one_more e).0),
      λ k g m. (one_more e).1 k (omega (arith, (one_more e).0)) (omega (arith, (one_more e).0)),
    )

bytes_go :
    (u : ℕ → ℕ) (cnt p q n : ℕ) (b : Bitmap) (byte : ℕ) (r : Progress)
    → p ≤ q
    → Says u cnt p r
    → ((run : ℕ) → RunTo u p run → Says u cnt q (scan_bytes n b byte cnt run))
    → Says u cnt q (elim r [ found i ↦ found i | carry run ↦ scan_bytes n b byte cnt run ])
bytes_go u cnt p q n b byte (found i) l h f = (omega (arith, h.0), h.1)
bytes_go u cnt p q n b byte (carry run) l h f = f run h

scan_bytes-Says :
    (b : Bitmap) (cnt : ℕ)
    → IsBytes b
    → (n byte run : ℕ) → (byte + n) * 8 < 2 ^ 31
    → RunTo (used b) (byte * 8) run
    → Says (used b) cnt ((byte + n) * 8) (scan_bytes n b byte cnt run)
unfolding scan_bytes
scan_bytes-Says b cnt h zero byte run l r =
    subst (λ p. RunTo (used b) p run) (let e : byte * 8 ≡ (byte + zero) * 8 = omega arith in e) r
scan_bytes-Says b cnt h (suc n) byte run l r =
    bytes_go (used b) cnt (byte * 8 + 0 + 8) ((byte + suc n) * 8) n b (suc byte)
      (scan_bits 8 (get_or b byte 0) byte 0 cnt run) (omega arith)
      (scan_bits-Says (used b) byte cnt 8 (get_or b byte 0) 0 run (h byte) (omega arith)
        (omega arith) bits
        (subst (λ p. RunTo (used b) p run) (let e : byte * 8 ≡ byte * 8 + 0 = omega arith in e) r))
      (λ run' r'.
        subst (λ p. Says (used b) cnt p (scan_bytes n b (suc byte) cnt run'))
          (let e : (suc byte + n) * 8 ≡ (byte + suc n) * 8 = omega arith in e)
          (scan_bytes-Says b cnt h n (suc byte) run' (omega arith) (
            subst (λ p. RunTo (used b) p run')
              (let e : byte * 8 + 0 + 8 ≡ suc byte * 8 = omega arith in e) r')))
  where
    bits : (k : ℕ) → k < 8 → bit (get_or b byte 0) (7 - k) ≡ used b (byte * 8 + 0 + k)
    bits k m =
        ap₂ (λ c i. bit (get_or b c 0) i) (let e : byte ≡ (byte * 8 + 0 + k) / 8 = omega arith in e)
          (let e : 7 - k ≡ 7 - (byte * 8 + 0 + k) % 8 = omega arith in e)

result_go :
    (u : ℕ → ℕ) (cnt p i : ℕ) (r : Progress)
    → Says u cnt p r
    → result r ≡ some i
    → (i + cnt ≤ p) × IsFree u i cnt
result_go u cnt p i (found j) h e =
    subst (λ m. (m + cnt ≤ p) × IsFree u m cnt) (let q : j ≡ i = cc in q) h
result_go u cnt p i (carry run) h e = absurd (cc)

scan_tail-IsFree :
    (b : Bitmap) (cnt i : ℕ) (r : Progress)
    → IsBytes b
    → length b < 2 ^ 28
    → Says (used b) cnt (length b / 8 * 64) r
    → scan_tail b cnt r ≡ some i
    → (i + cnt ≤ length b * 8) × IsFree (used b) i cnt
unfolding scan_tail
scan_tail-IsFree b cnt i (found j) h l s e =
    let (w, f) = result_go (used b) cnt (length b / 8 * 64) i (found j) s e in (omega arith, f)
scan_tail-IsFree b cnt i (carry run) h l s e =
    result_go (used b) cnt (length b * 8) i
      (scan_bytes (length b - length b / 8 * 8) b (length b / 8 * 8) cnt run)
      (subst
        (λ p.
          Says (used b) cnt p
            (scan_bytes (length b - length b / 8 * 8) b (length b / 8 * 8) cnt run))
        (let q : (length b / 8 * 8 + (length b - length b / 8 * 8)) * 8 ≡ length b * 8 =
            omega arith in
          q)
        (scan_bytes-Says b cnt h (length b - length b / 8 * 8) (length b / 8 * 8) run (omega arith)
          (subst (λ p. RunTo (used b) p run)
            (let q : length b / 8 * 64 ≡ length b / 8 * 8 * 8 = omega arith in q) s)))
      e

-- The tests before the scan.
scan_starts :
    (b : Bitmap) (cnt : ℕ) {i : ℕ}
    → bitmap_scan b cnt ≡ some i
    → (0 < cnt) × (scan_tail b cnt (scan_words (length b / 8) b 0 cnt 0) ≡ some i)
unfolding bitmap_scan
scan_starts b cnt e = ground arith

-- If `bitmap_scan` returns an index, the `cnt` bits from there on lie inside the bitmap and are free,
-- and `cnt` is not 0; for a bitmap of fewer than 2 ^ 28 bytes.
pub bitmap_scan-IsFree :
    (b : Bitmap) (cnt : ℕ) {i : ℕ}
    → IsBytes b
    → length b < 2 ^ 28
    → bitmap_scan b cnt ≡ some i
    → (0 < cnt) × (i + cnt ≤ length b * 8) × IsFree (used b) i cnt
bitmap_scan-IsFree b cnt {i} h l e =
    let (positive, tail) = scan_starts b cnt e in
    let (inside, free) =
      scan_tail-IsFree b cnt i (scan_words (length b / 8) b 0 cnt 0) h l says tail in
    (positive, inside, free)
  where
    says : Says (used b) cnt (length b / 8 * 64) (scan_words (length b / 8) b 0 cnt 0)
    says =
        subst (λ p. Says (used b) cnt p (scan_words (length b / 8) b 0 cnt 0))
          (let q : (0 + length b / 8) * 64 ≡ length b / 8 * 64 = omega arith in q)
          (scan_words-Says b cnt h (length b / 8) 0 0 (omega arith) (none_free (used b) 0))
