-- ===== src/Crypto/Sha256/Fips.antt =====
-- SHA-256 as FIPS 180-4 has it, apart from the code of lib/crypto/sha256.c: the constants by the roots
-- of primes, the functions of section 4.1.2, the schedule and the rounds of section 6.2.2 by the
-- index t, and the padding of section 5.1.1.
use Prim.Native.Nat.{bit_and, bit_or, bit_xor}
use core_z_os.Base.{
  ℕ, zero, suc, ◌+◌, ◌-◌, ◌*◌, ◌/◌, ◌%◌, ◌^◌, List, [], ◌∷◌, ◌++◌, leb, ◌==◌, if◌then◌else◌, length,
  get_or, map, take, drop, replicate,
}
use core_z_os.Crypto.Sha256.{Words}

-- The largest r + s with s below 2 ^ bits whose power e is at most n.
unfoldable pub root : ℕ → ℕ → ℕ → ℕ → ℕ
root e zero n r = r
root e (suc bits) n r = let s = r + 2 ^ bits in root e bits n (if leb (s ^ e) n then s else r)

-- The first 32 bits of the fraction of the square root and of the cube root.
unfoldable pub square_root_bits : ℕ → ℕ
square_root_bits p = root 2 40 (p * 2 ^ 64) 0 % 2 ^ 32

unfoldable pub cube_root_bits : ℕ → ℕ
cube_root_bits p = root 3 40 (p * 2 ^ 96) 0 % 2 ^ 32

-- The first 64 primes.
abbrev pub primes : List ℕ
primes =
    2 ∷ 3 ∷ 5 ∷ 7 ∷ 11 ∷ 13 ∷ 17 ∷ 19 ∷ 23 ∷ 29 ∷ 31 ∷ 37 ∷ 41 ∷ 43 ∷ 47 ∷ 53 ∷ 59 ∷ 61 ∷ 67 ∷ 71
    ∷ 73 ∷ 79 ∷ 83 ∷ 89 ∷ 97 ∷ 101 ∷ 103 ∷ 107 ∷ 109 ∷ 113 ∷ 127 ∷ 131 ∷ 137 ∷ 139 ∷ 149 ∷ 151 ∷ 157
    ∷ 163 ∷ 167 ∷ 173 ∷ 179 ∷ 181 ∷ 191 ∷ 193 ∷ 197 ∷ 199 ∷ 211 ∷ 223 ∷ 227 ∷ 229 ∷ 233 ∷ 239 ∷ 241
    ∷ 251 ∷ 257 ∷ 263 ∷ 269 ∷ 271 ∷ 277 ∷ 281 ∷ 283 ∷ 293 ∷ 307 ∷ 311 ∷ []

unfoldable pub fips_k : ℕ → ℕ
fips_k t = get_or (map cube_root_bits primes) t 0

unfoldable pub fips_initial : Words
fips_initial = record {
  a = square_root_bits 2;
  b = square_root_bits 3;
  c = square_root_bits 5;
  d = square_root_bits 7;
  e = square_root_bits 11;
  f = square_root_bits 13;
  g = square_root_bits 17;
  h = square_root_bits 19;
}

-- Shifted and rotated to the right.
abbrev pub fips_shr : ℕ → ℕ → ℕ
fips_shr n x = x / 2 ^ n

abbrev pub fips_rotr : ℕ → ℕ → ℕ
fips_rotr n x = bit_or (fips_shr n x) (x * 2 ^ (32 - n) % 2 ^ 32)

abbrev pub fips_ch : ℕ → ℕ → ℕ → ℕ
fips_ch x y z = bit_xor (bit_and x y) (bit_and (2 ^ 32 - 1 - x) z)

abbrev pub fips_maj : ℕ → ℕ → ℕ → ℕ
fips_maj x y z = bit_xor (bit_xor (bit_and x y) (bit_and x z)) (bit_and y z)

abbrev pub fips_sum0 : ℕ → ℕ
fips_sum0 x = bit_xor (bit_xor (fips_rotr 2 x) (fips_rotr 13 x)) (fips_rotr 22 x)

abbrev pub fips_sum1 : ℕ → ℕ
fips_sum1 x = bit_xor (bit_xor (fips_rotr 6 x) (fips_rotr 11 x)) (fips_rotr 25 x)

abbrev pub fips_sigma0 : ℕ → ℕ
fips_sigma0 x = bit_xor (bit_xor (fips_rotr 7 x) (fips_rotr 18 x)) (fips_shr 3 x)

abbrev pub fips_sigma1 : ℕ → ℕ
fips_sigma1 x = bit_xor (bit_xor (fips_rotr 17 x) (fips_rotr 19 x)) (fips_shr 10 x)

-- Word t of a block, highest byte first.
abbrev pub message_word : List ℕ → ℕ → ℕ
message_word m t =
    ((get_or m (4 * t) 0 * 256 + get_or m (4 * t + 1) 0) * 256 + get_or m (4 * t + 2) 0) * 256
    + get_or m (4 * t + 3) 0

-- The schedule: W[t] where t is below 16 + n.
unfoldable pub fips_w : ℕ → List ℕ → ℕ → ℕ
fips_w zero m t = message_word m t
fips_w (suc n) m t =
    if t == 16 + n
    then (fips_sigma1 (fips_w n m (t - 2))
        + fips_w n m (t - 7)
        + fips_sigma0 (fips_w n m (t - 15))
        + fips_w n m (t - 16))
      % 2 ^ 32
    else fips_w n m t

-- The round with the constant k and the word w.
unfoldable pub fips_round : ℕ → ℕ → Words → Words
fips_round k w v =
    let t1 = (v.h + fips_sum1 v.e + fips_ch v.e v.f v.g + k + w) % 2 ^ 32 in
    let t2 = (fips_sum0 v.a + fips_maj v.a v.b v.c) % 2 ^ 32 in
    record {
      a = (t1 + t2) % 2 ^ 32;
      b = v.a;
      c = v.b;
      d = v.c;
      e = (v.d + t1) % 2 ^ 32;
      f = v.e;
      g = v.f;
      h = v.g;
    }

-- n rounds from round t on.
unfoldable pub fips_rounds : ℕ → ℕ → (ℕ → ℕ) → Words → Words
fips_rounds zero t w v = v
fips_rounds (suc n) t w v = fips_rounds n (suc t) w (fips_round (fips_k t) (w t) v)

-- The hash value after a block.
unfoldable pub fips_block : Words → List ℕ → Words
fips_block s m =
    let v = fips_rounds 64 0 (fips_w 48 m) s in
    record {
      a = (s.a + v.a) % 2 ^ 32;
      b = (s.b + v.b) % 2 ^ 32;
      c = (s.c + v.c) % 2 ^ 32;
      d = (s.d + v.d) % 2 ^ 32;
      e = (s.e + v.e) % 2 ^ 32;
      f = (s.f + v.f) % 2 ^ 32;
      g = (s.g + v.g) % 2 ^ 32;
      h = (s.h + v.h) % 2 ^ 32;
    }

-- n blocks.
unfoldable pub fips_blocks : ℕ → Words → List ℕ → Words
fips_blocks zero s m = s
fips_blocks (suc n) s m = fips_blocks n (fips_block s (take 64 m)) (drop 64 m)

-- The lowest n bytes of a number, highest byte first.
unfoldable pub bytes_of : ℕ → ℕ → List ℕ
bytes_of zero v = []
bytes_of (suc n) v = v / 256 ^ n % 256 ∷ bytes_of n v

-- A bit 1 and zeros up to 56 bytes of the last block, and the length in bits in 64 of them.
unfoldable pub fips_padding : ℕ → List ℕ
fips_padding n = 0x80 ∷ replicate ((119 - n % 64) % 64) 0 ++ bytes_of 8 (n * 8)

unfoldable pub fips_digest : Words → List ℕ
fips_digest s =
    bytes_of 4 s.a
    ++ (bytes_of 4 s.b
        ++ (bytes_of 4 s.c
            ++ (bytes_of 4 s.d
                ++ (bytes_of 4 s.e ++ (bytes_of 4 s.f ++ (bytes_of 4 s.g ++ bytes_of 4 s.h))))))

unfoldable pub fips_sha256 : List ℕ → List ℕ
fips_sha256 xs =
    let m = xs ++ fips_padding (length xs) in
    fips_digest (fips_blocks (length m / 64) fips_initial m)
