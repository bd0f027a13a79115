-- ===== src/Crypto/Sha256/Standard.antt =====
-- lib/crypto/sha256.c against FIPS 180-4.
use mathlib.Core.List.{append-nil}
use core_z_os.Base.{
  ℕ, zero, suc, ◌+◌, ◌-◌, ◌*◌, ◌/◌, ◌%◌, ◌^◌, ◌<◌, ◌≡◌, refl, sym, ap, ap₂, ◌∙◌, List, [], ◌∷◌,
  ◌++◌, arith, length, get_or, map, take, drop, replicate,
}
use core_z_os.Crypto.Sha256.{
  add_words, Words, sha256_k, load_words, schedule, round, rounds, sha256_transform, initial_words,
  blocks, be64, digest, sha256_init, sha256_final, sha256,
}
use core_z_os.Crypto.Sha256.Padding.{padding, padded_hash, updates, concat, stream-eq-padded_hash}
use core_z_os.Crypto.Sha256.Schedule.{shr-eq, schedule-eq, length-schedule, length-load_words}
use core_z_os.Crypto.Sha256.Fips.{
  root, square_root_bits, cube_root_bits, primes, fips_k, fips_initial, fips_w, fips_round,
  fips_rounds, fips_block, fips_blocks, bytes_of, fips_padding, fips_digest, fips_sha256,
}

constants : sha256_k ≡ map cube_root_bits primes
unfolding cube_root_bits root
constants = refl

initial : initial_words ≡ fips_initial
unfolding fips_initial square_root_bits root
initial = refl

round-eq : (k w : ℕ) (v : Words) → round k w v ≡ fips_round k w v
unfolding round fips_round
round-eq k w v =
    rw (shr-eq v.e 25, shr-eq v.e 11, shr-eq v.e 6, shr-eq v.a 22, shr-eq v.a 13, shr-eq v.a 2) refl

over_one : (x : ℕ) → x / 1 ≡ x
over_one x = omega arith

length_bytes : (v : ℕ) → be64 (v % 2 ^ 64) ≡ bytes_of 8 v
unfolding bytes_of
length_bytes v =
    let b7 : v % 2 ^ 64 / 2 ^ 56 % 256 ≡ v / 2 ^ 56 % 256 = omega arith in
    let b6 : v % 2 ^ 64 / 2 ^ 48 % 256 ≡ v / 2 ^ 48 % 256 = omega arith in
    let b5 : v % 2 ^ 64 / 2 ^ 40 % 256 ≡ v / 2 ^ 40 % 256 = omega arith in
    let b4 : v % 2 ^ 64 / 2 ^ 32 % 256 ≡ v / 2 ^ 32 % 256 = omega arith in
    let b3 : v % 2 ^ 64 / 2 ^ 24 % 256 ≡ v / 2 ^ 24 % 256 = omega arith in
    let b2 : v % 2 ^ 64 / 2 ^ 16 % 256 ≡ v / 2 ^ 16 % 256 = omega arith in
    let b1 : v % 2 ^ 64 / 2 ^ 8 % 256 ≡ v / 2 ^ 8 % 256 = omega arith in
    let b0 : v % 2 ^ 64 % 256 ≡ v / 1 % 256 = omega arith in
    rw (b7, b6, b5, b4, b3, b2, b1, b0) refl

digest-eq : (v : Words) → digest v ≡ fips_digest v
unfolding fips_digest bytes_of
digest-eq v =
    rw
      (
        over_one v.a,
        over_one v.b,
        over_one v.c,
        over_one v.d,
        over_one v.e,
        over_one v.f,
        over_one v.g,
        over_one v.h,
      )
      refl

padding-eq : (n : ℕ) → padding n ≡ fips_padding n
unfolding padding fips_padding bytes_of
padding-eq n = ap (λ bs. 0x80 ∷ replicate ((119 - n % 64) % 64) 0 ++ bs) (length_bytes (n * 8))

-- The rounds, over the lists and by the index.
rounds-eq :
    (ks ws : List ℕ) (t : ℕ) (w : ℕ → ℕ) (v : Words)
    → length ks ≡ length ws
    → ((j : ℕ) → j < length ks → get_or ks j 0 ≡ fips_k (t + j))
    → ((j : ℕ) → j < length ks → get_or ws j 0 ≡ w (t + j))
    → rounds ks ws v ≡ fips_rounds (length ks) t w v
unfolding rounds fips_rounds
rounds-eq [] ws t w v e f g = refl
rounds-eq (k ∷ ks) [] t w v e f g = absurd (omega (arith, e))
rounds-eq (k ∷ ks) (x ∷ ws) t w v e f g =
    rounds-eq ks ws (suc t) w (round k x v) (omega (arith, e))
      (λ j h.
        f (suc j) (omega (arith, h)) ∙ ap fips_k (let i : t + suc j ≡ suc t + j = omega arith in i))
      (λ j h.
        g (suc j) (omega (arith, h)) ∙ ap w (let i : t + suc j ≡ suc t + j = omega arith in i))
    ∙ ap (fips_rounds (length ks) (suc t) w) (
        round-eq k x v
        ∙ ap₂ (λ a b. fips_round a b v)
            (f 0 (omega arith) ∙ ap fips_k (let i : t + 0 ≡ t = omega arith in i))
            (g 0 (omega arith) ∙ ap w (let i : t + 0 ≡ t = omega arith in i)))

all_rounds-eq :
    (s : Words) (m : List ℕ)
    → rounds sha256_k (schedule 48 16 (load_words 16 m)) s ≡ fips_rounds 64 0 (fips_w 48 m) s
all_rounds-eq s m =
    rounds-eq sha256_k ws 0 (fips_w 48 m) s (sym size)
      (λ j h.
        unfold fips_k in
        (ap (λ ks. get_or ks j 0) constants
          ∙ ap (λ i. get_or (map cube_root_bits primes) i 0)
              (let e : j ≡ 0 + j = omega arith in e)))
      (λ j h. schedule-eq m 48 j h ∙ ap (fips_w 48 m) (let e : j ≡ 0 + j = omega arith in e))
  where
    ws : List ℕ
    ws = schedule 48 16 (load_words 16 m)

    size : length ws ≡ 64
    size = length-schedule 48 16 (load_words 16 m) ∙ ap (λ k. k + 48) (length-load_words 16 m)

sha256_transform-eq : (s : Words) (m : List ℕ) → sha256_transform s m ≡ fips_block s m
unfolding sha256_transform fips_block
sha256_transform-eq s m = ap (add_words s) (all_rounds-eq s m)

blocks-eq : (n : ℕ) (s : Words) (m : List ℕ) → blocks n s m ≡ fips_blocks n s m
unfolding blocks fips_blocks
blocks-eq zero s m = refl
blocks-eq (suc n) s m =
    blocks-eq n (sha256_transform s (take 64 m)) (drop 64 m)
    ∙ ap (λ v. fips_blocks n v (drop 64 m)) (sha256_transform-eq s (take 64 m))

padded_hash-eq : (xs : List ℕ) → padded_hash xs ≡ fips_sha256 xs
unfolding padded_hash fips_sha256
padded_hash-eq xs =
    ap (λ p. digest (blocks (length (xs ++ p) / 64) initial_words (xs ++ p)))
      (padding-eq (length xs))
    ∙ (digest-eq (blocks n initial_words m)
        ∙ ap fips_digest (blocks-eq n initial_words m ∙ ap (λ s. fips_blocks n s m) initial))
  where
    m : List ℕ
    m = xs ++ fips_padding (length xs)

    n : ℕ
    n = length m / 64

-- However a message is cut into the parts that `sha256_update` is called with, and whatever the
-- context's buffer of 64 bytes held before, `sha256_final` gives the hash of FIPS 180-4, which
-- `fips_sha256` states apart from the code: its constants, functions, schedule, rounds, padding and
-- order of bytes. A length of 2 ^ 64 bits or more counts modulo 2 ^ 64.
pub sha256_stream :
    (buf : List ℕ) (ps : List (List ℕ))
    → length buf ≡ 64
    → (sha256_final (updates (sha256_init buf) ps)).1 ≡ fips_sha256 (concat ps)
sha256_stream buf ps h = stream-eq-padded_hash buf ps h ∙ padded_hash-eq (concat ps)

pub sha256-eq-fips_sha256 : (buf xs : List ℕ) → length buf ≡ 64 → sha256 buf xs ≡ fips_sha256 xs
unfolding sha256
sha256-eq-fips_sha256 buf xs h = sha256_stream buf (xs ∷ []) h ∙ ap fips_sha256 (append-nil xs)
