-- ===== src/Bitmap/WordSound.antt =====
-- What the scan of one word may say: the start of a free run that is long enough, or the free run
-- that the word ends in.
use native.Mathlib.Decide.{dec_lt}
use core_z_os.Base.{
  ℕ, zero, suc, ◌+◌, ◌-◌, ◌*◌, ◌%◌, ◌^◌, ◌≤◌, ◌<◌, ◌≡◌, ◌≢◌, sym, ap, subst, ◌∙◌, true, inl, inr,
  Bool-cases, arith, leb, ◌==◌, ==_iff,
}
use core_z_os.Base.Bits.{bit, bit-zero, shr}
use core_z_os.Bitmap.{ctz, Progress, found, carry, scan_word, scan_one}
use core_z_os.Bitmap.Ctz.{zeros_in, ones_pos, ones_in, zeros_free, rest_free}

-- The n bits from i on are free.
abbrev pub IsFree : (ℕ → ℕ) → ℕ → ℕ → Type 0
IsFree u i n = (k : ℕ) → i ≤ k → k < i + n → u k ≡ 0

-- The `run` bits before p are free.
abbrev pub RunTo : (ℕ → ℕ) → ℕ → ℕ → Type 0
RunTo u p run = (run ≤ p) × ((k : ℕ) → p ≤ k + run → k < p → u k ≡ 0)

-- What a part of the scan that stops before p may say.
abbrev pub Says : (ℕ → ℕ) → ℕ → ℕ → Progress → Type 0
Says u cnt p (found i) = (i + cnt ≤ p) × IsFree u i cnt
Says u cnt p (carry run) = RunTo u p run

pub none_free : (u : ℕ → ℕ) (p : ℕ) → RunTo u p 0
none_free u p = (omega arith, λ k h l. absurd (omega arith))

pub longer :
    (u : ℕ → ℕ) (p q run : ℕ)
    → RunTo u p run
    → p ≤ q
    → ((k : ℕ) → p ≤ k → k < q → u k ≡ 0)
    → RunTo u q (run + (q - p))
longer u p q run r l f = (
  omega (arith, r.0),
  λ k h m. elim (dec_lt k p) [ yes b ↦ r.1 k (omega (arith, r.0)) b | no b ↦ f k (omega arith) m ],
)

-- A run that is long enough gives the answer.
answer : (u : ℕ → ℕ) (p cnt run : ℕ) → RunTo u p run → cnt ≤ run → IsFree u (p - run) cnt
answer u p cnt run r l k h m = r.1 k (omega (arith, r.0)) (omega (arith, r.0))

-- The run and the answer as the code computes them, where nothing wraps.
pub no_wrap : (a : ℕ) → a < 2 ^ 32 → a % 2 ^ 32 ≡ a
no_wrap a h = omega arith

start_no_wrap : (p run : ℕ) → run ≤ p → p < 2 ^ 32 → (p + 2 ^ 32 - run) % 2 ^ 32 ≡ p - run
start_no_wrap p run h l = omega arith

carry-Says :
    (u : ℕ → ℕ) (cnt p run run' : ℕ) → run' ≡ run → RunTo u p run → Says u cnt p (carry run')
carry-Says u cnt p run run' e r = rw e r

found-Says :
    (u : ℕ → ℕ) (cnt p q run i : ℕ)
    → i ≡ p - run
    → RunTo u p run
    → cnt ≤ run
    → p ≤ q
    → Says u cnt q (found i)
found-Says u cnt p q run i e r c l = rw e (omega (arith, r.0), answer u p cnt run r c)

module _ (u : ℕ → ℕ) (v base cnt : ℕ) (small : v < 2 ^ 64) (early : base < 2 ^ 31)
    (bits : (i : ℕ) → i < 64 → bit v i ≡ u (base + i)) where
  -- Free bits of the word are free bits of the map.
  in_map :
      (p q : ℕ)
      → q ≤ 64
      → ((i : ℕ) → p ≤ i → i < q → bit v i ≡ 0)
      → (k : ℕ) → base + p ≤ k
      → k < base + q
      → u k ≡ 0
  in_map p q l f k h m =
      ap u (let e : k ≡ base + (k - base) = omega arith in e)
      ∙ (sym (bits (k - base) (omega arith)) ∙ f (k - base) (omega arith) (omega arith))

  -- The branches of one round.
  empty_rest-Says :
      (run pos : ℕ)
      → pos ≤ 64
      → RunTo u (base + pos) run
      → shr v pos ≡ 0
      → Says u cnt (base + 64) (carry ((run + (64 - pos)) % 2 ^ 32))
  empty_rest-Says run pos l r z =
      carry-Says u cnt (base + 64) (run + (base + 64 - (base + pos))) ((run + (64 - pos)) % 2 ^ 32)
        (omega (arith, r.0))
        (longer u (base + pos) (base + 64) run r (omega arith)
          (in_map pos 64 (omega arith) (λ i h m. rest_free v pos z i h)))

  module _ (run pos : ℕ) (in_word : pos < 64) (r : RunTo u (base + pos) run)
      (some_left : shr v pos ≢ 0) where
    abbrev tz : ℕ
    tz = ctz 64 (shr v pos)

    tz_in : pos + tz < 64
    tz_in = zeros_in v pos small in_word some_left

    run-tz : RunTo u (base + (pos + tz)) (run + tz)
    run-tz =
        subst (λ n. RunTo u (base + (pos + tz)) (run + n))
          (let e : base + (pos + tz) - (base + pos) ≡ tz = omega arith in e)
          (longer u (base + pos) (base + (pos + tz)) run r (omega arith) (
            in_map pos (pos + tz) (omega (arith, tz_in))
              (zeros_free v pos small in_word some_left)))

    found_here-Says :
        cnt ≤ (run + tz) % 2 ^ 32
        → Says u cnt (base + 64) (found ((base + pos + 2 ^ 32 - run) % 2 ^ 32))
    found_here-Says h =
        found-Says u cnt (base + (pos + tz)) (base + 64) (run + tz)
          ((base + pos + 2 ^ 32 - run) % 2 ^ 32) (omega (arith, r.0, tz_in)) run-tz (omega arith)
          (omega (arith, tz_in))

  scan_word-Says :
      (rounds run pos : ℕ)
      → 64 ≤ pos + rounds
      → pos ≤ 64
      → RunTo u (base + pos) run
      → Says u cnt (base + 64) (scan_word rounds v base cnt run pos)
  unfolding scan_word
  scan_word-Says zero run pos f l r =
      subst (λ p. RunTo u p run) (let e : base + pos ≡ base + 64 = omega arith in e) r
  scan_word-Says (suc rounds) run pos f l r = elim (Bool-cases (leb 64 pos)) [
    | inl e1 ↦
        rw e1 (subst (λ p. RunTo u p run) (let e : base + pos ≡ base + 64 = ground arith in e) r)
    | inr e1 ↦ rw e1 (elim (Bool-cases (shr v pos == 0)) [
      | inl e2 ↦ rw e2 (empty_rest-Says run pos l r ((==_iff (shr v pos) 0).0 e2))
      | inr e2 ↦ rw e2 (elim (Bool-cases (leb cnt ((run + ctz 64 (shr v pos)) % 2 ^ 32))) [
        | inl e3 ↦ rw e3 (found_here-Says run pos (ground arith) r (ground arith) (ground arith))
        | inr e3 ↦ rw e3 (elim (Bool-cases (shr (shr v pos) (ctz 64 (shr v pos)) == 2 ^ 64 - 1)) [
          | inl e4 ↦ rw e4 (none_free u (base + 64))
          | inr e4 ↦ rw e4 (
              scan_word-Says rounds 0 next (omega (arith, further (ground arith) (ground arith)))
                (omega (arith, within (ground arith) (ground arith))) (none_free u (base + next)))
        ])
      ])
    ])
  ]
    where
      next : ℕ
      next = pos + ctz 64 (shr v pos) + ctz 64 (2 ^ 64 - 1 - shr (shr v pos) (ctz 64 (shr v pos)))

      further : pos < 64 → shr v pos ≢ 0 → pos < next
      further p z = omega (arith, ones_pos v pos small p z)

      within : pos < 64 → shr v pos ≢ 0 → next ≤ 64
      within p z = ones_in v pos small p z

pub scan_one-Says :
    (u : ℕ → ℕ) (v w cnt run : ℕ)
    → v < 2 ^ 64
    → w * 64 < 2 ^ 31
    → ((i : ℕ) → i < 64 → bit v i ≡ u (w * 64 + i))
    → RunTo u (w * 64) run
    → Says u cnt (w * 64 + 64) (scan_one v w cnt run)
unfolding scan_one
scan_one-Says u v w cnt run small early bits r = elim (Bool-cases (v == 0)) [
  | inl e1 ↦ rw e1 (elim (Bool-cases (leb cnt ((run + 64) % 2 ^ 32))) [
    | inl e2 ↦ rw e2 (
        found-Says u cnt (w * 64 + 64) (w * 64 + 64) (run + 64) _ (omega (arith, r.0)) (whole e1)
          (ground (arith, r.0)) (omega arith))
    | inr e2 ↦ rw e2 (carry-Says u cnt (w * 64 + 64) (run + 64) _ (omega (arith, r.0)) (whole e1))
  ])
  | inr e1 ↦ rw e1 (elim (Bool-cases (v == 2 ^ 64 - 1)) [
    | inl e2 ↦ rw e2 (none_free u (w * 64 + 64))
    | inr e2 ↦ rw e2 (
        scan_word-Says u v (w * 64) cnt small early bits 64 run 0 (omega arith) (omega arith)
          (subst (λ p. RunTo u p run) (let e : w * 64 ≡ w * 64 + 0 = omega arith in e) r))
  ])
]
  where
    whole : (v == 0) ≡ true → RunTo u (w * 64 + 64) (run + 64)
    whole e =
        subst (λ n. RunTo u (w * 64 + 64) (run + n))
          (let q : w * 64 + 64 - w * 64 ≡ 64 = omega arith in q)
          (longer u (w * 64) (w * 64 + 64) run r (omega arith) free)
      where
        free : (k : ℕ) → w * 64 ≤ k → k < w * 64 + 64 → u k ≡ 0
        free k h m =
            ap u (let q : k ≡ w * 64 + (k - w * 64) = omega arith in q)
            ∙ (sym (bits (k - w * 64) (omega arith))
                ∙ (ap (λ x. bit x (k - w * 64)) ((==_iff v 0).0 e) ∙ bit-zero (k - w * 64)))
