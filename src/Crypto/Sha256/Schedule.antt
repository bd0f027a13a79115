-- ===== src/Crypto/Sha256/Schedule.antt =====
-- The schedule of lib/crypto/sha256.c against that of FIPS 180-4.
use native.Mathlib.Nat.{pow-suc, div-div-eq-div-mul}
use core_z_os.Base.{
  ℕ, zero, suc, ◌+◌, ◌-◌, ◌*◌, ◌/◌, ◌%◌, ◌^◌, ◌<◌, ◌≡◌, refl, sym, ap, ◌∙◌, Bool-cases, inl, inr,
  List, [], ◌∷◌, ◌++◌, arith, ◌==◌, length, length-append, get_or, get_or-drop, drop,
}
use core_z_os.Base.Bits.{shr}
use core_z_os.Crypto.Sha256.{load_words, schedule_word, schedule}
use core_z_os.Crypto.Sha256.Fips.{fips_shr, message_word, fips_w, fips_sigma0, fips_sigma1}

pub shr-eq : (x n : ℕ) → shr x n ≡ fips_shr n x
shr-eq x zero = omega arith
shr-eq x (suc n) =
    shr-eq (x / 2) n
    ∙ (div-div-eq-div-mul x 2 (2 ^ n) ∙ ap (λ k. x / k) (omega (arith, pow-suc 2 n)))

-- The schedule is the code's list of words, index by index.
get_or-append_left :
    (xs ys : List ℕ) (i : ℕ) → i < length xs → get_or (xs ++ ys) i 0 ≡ get_or xs i 0
get_or-append_left [] ys i h = absurd (omega (arith, h))
get_or-append_left (x ∷ xs) ys zero h = refl
get_or-append_left (x ∷ xs) ys (suc i) h = get_or-append_left xs ys i (omega (arith, h))

get_or-append_last : (xs : List ℕ) (y : ℕ) → get_or (xs ++ y ∷ []) (length xs) 0 ≡ y
get_or-append_last [] y = refl
get_or-append_last (x ∷ xs) y = get_or-append_last xs y

schedule-snoc :
    (n i : ℕ) (w : List ℕ)
    → schedule (suc n) i w ≡ schedule n i w ++ schedule_word (i + n) (schedule n i w) ∷ []
unfolding schedule
schedule-snoc zero i w =
    ap (λ k. w ++ schedule_word k w ∷ []) (let e : i ≡ i + 0 = omega arith in e)
schedule-snoc (suc n) i w =
    schedule-snoc n (suc i) (w ++ schedule_word i w ∷ [])
    ∙ ap
        (λ k.
          schedule n (suc i) (w ++ schedule_word i w ∷ [])
          ++ schedule_word k (schedule n (suc i) (w ++ schedule_word i w ∷ [])) ∷ [])
        (let e : suc i + n ≡ i + suc n = omega arith in e)

pub length-schedule : (n i : ℕ) (w : List ℕ) → length (schedule n i w) ≡ length w + n
unfolding schedule
length-schedule zero i w = omega arith
length-schedule (suc n) i w = omega (
  arith,
  length-schedule n (suc i) (w ++ schedule_word i w ∷ []),
  length-append w (schedule_word i w ∷ []),
)

pub length-load_words : (n : ℕ) (block : List ℕ) → length (load_words n block) ≡ n
unfolding load_words
length-load_words zero block = refl
length-load_words (suc n) block = ap suc (length-load_words n (drop 4 block))

next_byte : (m : List ℕ) (t k : ℕ) → get_or (drop 4 m) (4 * t + k) 0 ≡ get_or m (4 * suc t + k) 0
next_byte m t k =
    sym (get_or-drop 4 (4 * t + k) m 0)
    ∙ ap (λ i. get_or m i 0) (let e : 4 + (4 * t + k) ≡ 4 * suc t + k = omega arith in e)

first_byte : (m : List ℕ) (t : ℕ) → get_or (drop 4 m) (4 * t) 0 ≡ get_or m (4 * suc t) 0
first_byte m t =
    sym (get_or-drop 4 (4 * t) m 0)
    ∙ ap (λ i. get_or m i 0) (let e : 4 + 4 * t ≡ 4 * suc t = omega arith in e)

load_words-eq : (n t : ℕ) (m : List ℕ) → t < n → get_or (load_words n m) t 0 ≡ message_word m t
unfolding load_words
load_words-eq zero t m h = absurd (omega (arith, h))
load_words-eq (suc n) zero m h = omega arith
load_words-eq (suc n) (suc t) m h =
    load_words-eq n t (drop 4 m) (omega (arith, h))
    ∙ omega (arith, first_byte m t, next_byte m t 1, next_byte m t 2, next_byte m t 3)

schedule_word-eq :
    (i : ℕ) (w : List ℕ) (f : ℕ → ℕ)
    → get_or w (i - 2) 0 ≡ f (i - 2)
    → get_or w (i - 7) 0 ≡ f (i - 7)
    → get_or w (i - 15) 0 ≡ f (i - 15)
    → get_or w (i - 16) 0 ≡ f (i - 16)
    → schedule_word i w
      ≡ (fips_sigma1 (f (i - 2)) + f (i - 7) + fips_sigma0 (f (i - 15)) + f (i - 16)) % 2 ^ 32
unfolding schedule_word
schedule_word-eq i w f a b c d =
    rw
      (
        a,
        b,
        c,
        d,
        shr-eq (f (i - 15)) 18,
        shr-eq (f (i - 15)) 7,
        shr-eq (f (i - 15)) 3,
        shr-eq (f (i - 2)) 19,
        shr-eq (f (i - 2)) 17,
        shr-eq (f (i - 2)) 10,
      )
      (omega arith)

pub schedule-eq :
    (m : List ℕ) (n t : ℕ)
    → t < 16 + n
    → get_or (schedule n 16 (load_words 16 m)) t 0 ≡ fips_w n m t
unfolding fips_w
schedule-eq m zero t h = unfold schedule in load_words-eq 16 t m (omega (arith, h))
schedule-eq m (suc n) t h = elim (Bool-cases (t == 16 + n)) [
  | inl e ↦ rw (e) (
      ap (λ s. get_or s t 0) (schedule-snoc n 16 (load_words 16 m))
      ∙ (ap (λ i. get_or (s ++ schedule_word (16 + n) s ∷ []) i 0)
            (let f : t ≡ length s = ground (arith, e, size) in f)
          ∙ (get_or-append_last s (schedule_word (16 + n) s)
              ∙ (ap (λ i. schedule_word i s) (let f : 16 + n ≡ t = ground (arith, e) in f)
                  ∙ schedule_word-eq t s (fips_w n m) (schedule-eq m n (t - 2) (ground (arith, e)))
                      (schedule-eq m n (t - 7) (ground (arith, e)))
                      (schedule-eq m n (t - 15) (ground (arith, e)))
                      (schedule-eq m n (t - 16) (ground (arith, e)))))))
  | inr o ↦ rw (o) (
      ap (λ s. get_or s t 0) (schedule-snoc n 16 (load_words 16 m))
      ∙ (get_or-append_left s (schedule_word (16 + n) s ∷ []) t (ground (arith, o, h, size))
          ∙ schedule-eq m n t (ground (arith, o, h))))
]
  where
    s : List ℕ
    s = schedule n 16 (load_words 16 m)

    size : length s ≡ 16 + n
    size = length-schedule n 16 (load_words 16 m) ∙ ap (λ k. k + n) (length-load_words 16 m)
