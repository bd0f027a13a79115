-- ===== src/Crypto/Sha256.antt =====
-- The hash of lib/crypto/sha256.c. Bytes are a list; 32-bit words wrap.
pub mod Absorb
pub mod Stream
pub mod Padding
pub mod Fips
pub mod Schedule
pub mod Standard
use Prim.Native.Nat.{bit_and, bit_or, bit_xor}
use core_z_os.Base.{
  ℕ, zero, suc, ◌+◌, ◌-◌, ◌*◌, ◌/◌, ◌%◌, ◌^◌, true, false, List, [], ◌∷◌, ◌++◌, ltb, ◌==◌,
  if◌then◌else◌, length, get_or, set, take, drop, replicate,
}
use core_z_os.Base.Bits.{shr}

abbrev u32 : ℕ → ℕ
u32 n = n % 2 ^ 32

-- `ROTR(x, n)`.
abbrev rotr : ℕ → ℕ → ℕ
rotr x n = bit_or (shr x n) (u32 (x * 2 ^ (32 - n)))

abbrev pub sha256_k : List ℕ
sha256_k =
    0x428a2f98 ∷ 0x71374491 ∷ 0xb5c0fbcf ∷ 0xe9b5dba5 ∷ 0x3956c25b ∷ 0x59f111f1 ∷ 0x923f82a4
    ∷ 0xab1c5ed5 ∷ 0xd807aa98 ∷ 0x12835b01 ∷ 0x243185be ∷ 0x550c7dc3 ∷ 0x72be5d74 ∷ 0x80deb1fe
    ∷ 0x9bdc06a7 ∷ 0xc19bf174 ∷ 0xe49b69c1 ∷ 0xefbe4786 ∷ 0x0fc19dc6 ∷ 0x240ca1cc ∷ 0x2de92c6f
    ∷ 0x4a7484aa ∷ 0x5cb0a9dc ∷ 0x76f988da ∷ 0x983e5152 ∷ 0xa831c66d ∷ 0xb00327c8 ∷ 0xbf597fc7
    ∷ 0xc6e00bf3 ∷ 0xd5a79147 ∷ 0x06ca6351 ∷ 0x14292967 ∷ 0x27b70a85 ∷ 0x2e1b2138 ∷ 0x4d2c6dfc
    ∷ 0x53380d13 ∷ 0x650a7354 ∷ 0x766a0abb ∷ 0x81c2c92e ∷ 0x92722c85 ∷ 0xa2bfe8a1 ∷ 0xa81a664b
    ∷ 0xc24b8b70 ∷ 0xc76c51a3 ∷ 0xd192e819 ∷ 0xd6990624 ∷ 0xf40e3585 ∷ 0x106aa070 ∷ 0x19a4c116
    ∷ 0x1e376c08 ∷ 0x2748774c ∷ 0x34b0bcb5 ∷ 0x391c0cb3 ∷ 0x4ed8aa4a ∷ 0x5b9cca4f ∷ 0x682e6ff3
    ∷ 0x748f82ee ∷ 0x78a5636f ∷ 0x84c87814 ∷ 0x8cc70208 ∷ 0x90befffa ∷ 0xa4506ceb ∷ 0xbef9a3f7
    ∷ 0xc67178f2 ∷ []

-- Writes the bytes of the list from an index on.
unfoldable pub copy_mem : List ℕ → ℕ → List ℕ → List ℕ
copy_mem dst i [] = dst
copy_mem dst i (x ∷ src) = copy_mem (set dst i x) (suc i) src

-- The eight words of the state, and the eight variables of a round.
pub record Words : Type 0 where
  pub a : ℕ
  pub b : ℕ
  pub c : ℕ
  pub d : ℕ
  pub e : ℕ
  pub f : ℕ
  pub g : ℕ
  pub h : ℕ

unfoldable pub load_words : ℕ → List ℕ → List ℕ
load_words zero block = []
load_words (suc n) block =
    (get_or block 0 0 * 2 ^ 24
      + get_or block 1 0 * 2 ^ 16
      + get_or block 2 0 * 2 ^ 8
      + get_or block 3 0)
    ∷ load_words n (drop 4 block)

-- w[i], from the words before it.
unfoldable pub schedule_word : ℕ → List ℕ → ℕ
schedule_word i w =
    let x = get_or w (i - 15) 0 in
    let y = get_or w (i - 2) 0 in
    let s0 = bit_xor (bit_xor (rotr x 7) (rotr x 18)) (shr x 3) in
    let s1 = bit_xor (bit_xor (rotr y 17) (rotr y 19)) (shr y 10) in
    u32 (get_or w (i - 16) 0 + s0 + get_or w (i - 7) 0 + s1)

-- n more words from i on.
unfoldable pub schedule : ℕ → ℕ → List ℕ → List ℕ
unfolding schedule_word
schedule zero i w = w
schedule (suc n) i w = schedule n (suc i) (w ++ schedule_word i w ∷ [])

-- `~e` on 32 bits.
abbrev complement : ℕ → ℕ
complement x = 2 ^ 32 - 1 - x

unfoldable pub round : ℕ → ℕ → Words → Words
round k w v =
    let big_s1 = bit_xor (bit_xor (rotr v.e 6) (rotr v.e 11)) (rotr v.e 25) in
    let ch = bit_xor (bit_and v.e v.f) (bit_and (complement v.e) v.g) in
    let t1 = u32 (v.h + big_s1 + ch + k + w) in
    let big_s0 = bit_xor (bit_xor (rotr v.a 2) (rotr v.a 13)) (rotr v.a 22) in
    let maj = bit_xor (bit_xor (bit_and v.a v.b) (bit_and v.a v.c)) (bit_and v.b v.c) in
    let t2 = u32 (big_s0 + maj) in
    record {
      a = u32 (t1 + t2);
      b = v.a;
      c = v.b;
      d = v.c;
      e = u32 (v.d + t1);
      f = v.e;
      g = v.f;
      h = v.g;
    }

-- The loop of rounds, over the constants and the words together.
unfoldable pub rounds : List ℕ → List ℕ → Words → Words
unfolding round
rounds [] w v = v
rounds (k ∷ ks) [] v = v
rounds (k ∷ ks) (x ∷ w) v = rounds ks w (round k x v)

abbrev add_words : Words → Words → Words
add_words s v = record {
  a = u32 (s.a + v.a);
  b = u32 (s.b + v.b);
  c = u32 (s.c + v.c);
  d = u32 (s.d + v.d);
  e = u32 (s.e + v.e);
  f = u32 (s.f + v.f);
  g = u32 (s.g + v.g);
  h = u32 (s.h + v.h);
}

unfoldable pub sha256_transform : Words → List ℕ → Words
unfolding load_words schedule rounds
sha256_transform s block = add_words s (rounds sha256_k (schedule 48 16 (load_words 16 block)) s)

pub record Ctx : Type 0 where
  pub words : Words
  pub len : ℕ
  pub buf : List ℕ
  pub buf_len : ℕ

abbrev pub initial_words : Words
initial_words = record {
  a = 0x6a09e667;
  b = 0xbb67ae85;
  c = 0x3c6ef372;
  d = 0xa54ff53a;
  e = 0x510e527f;
  f = 0x9b05688c;
  g = 0x1f83d9ab;
  h = 0x5be0cd19;
}

-- `sha256_init` leaves the bytes of the buffer as they are.
unfoldable pub sha256_init : List ℕ → Ctx
sha256_init buf = record { words = initial_words; len = 0; buf = buf; buf_len = 0 }

-- The bytes go behind those in the buffer, which is transformed if that fills it.
unfoldable pub fill : Ctx → List ℕ → Ctx
unfolding copy_mem
fill c p =
    let buf = copy_mem c.buf c.buf_len p in
    if c.buf_len + length p == 64
    then record c { words = sha256_transform c.words buf; buf = buf; buf_len = 0 }
    else record c { buf = buf; buf_len = c.buf_len + length p }

-- The loop over whole blocks, n of them.
unfoldable pub blocks : ℕ → Words → List ℕ → Words
blocks zero s p = s
blocks (suc n) s p = blocks n (sha256_transform s (take 64 p)) (drop 64 p)

unfoldable pub leftover : Ctx → List ℕ → Ctx
unfolding copy_mem
leftover c [] = c
leftover c (x ∷ p) = record c { buf = copy_mem c.buf 0 (x ∷ p); buf_len = length (x ∷ p) }

-- Whole blocks, then the bytes that are left.
unfoldable pub absorb_rest : Ctx → List ℕ → Ctx
unfolding blocks leftover
absorb_rest c p =
    let n = length p / 64 in leftover (record c { words = blocks n c.words p }) (drop (64 * n) p)

unfoldable pub sha256_update : Ctx → List ℕ → Ctx
unfolding fill absorb_rest
sha256_update c0 p =
    let c = record c0 { len = (c0.len + length p) % 2 ^ 64 } in
    let need = 64 - c.buf_len in
    let n = if ltb (length p) need then length p else need in
    if c.buf_len == 0 then absorb_rest c p else absorb_rest (fill c (take n p)) (drop n p)

-- The loop that adds zeros until 56 bytes are in the buffer; 64 rounds are enough.
unfoldable pub pad_zeros : ℕ → Ctx → Ctx
pad_zeros zero c = c
pad_zeros (suc rounds) c = elim (c.buf_len == 56) [
  | true ↦ c
  | false ↦ pad_zeros rounds (sha256_update c (0 ∷ []))
]

-- A 64-bit number, highest byte first.
abbrev pub be64 : ℕ → List ℕ
be64 v =
    v / 2 ^ 56 % 256
    ∷ v / 2 ^ 48 % 256
    ∷ v / 2 ^ 40 % 256
    ∷ v / 2 ^ 32 % 256
    ∷ v / 2 ^ 24 % 256
    ∷ v / 2 ^ 16 % 256
    ∷ v / 2 ^ 8 % 256
    ∷ v % 256
    ∷ []

abbrev be32 : ℕ → List ℕ
be32 v = v / 2 ^ 24 % 256 ∷ v / 2 ^ 16 % 256 ∷ v / 2 ^ 8 % 256 ∷ v % 256 ∷ []

abbrev pub digest : Words → List ℕ
digest s =
    be32 s.a
    ++ (be32 s.b ++ (be32 s.c ++ (be32 s.d ++ (be32 s.e ++ (be32 s.f ++ (be32 s.g ++ be32 s.h))))))

-- The context with all of the message in it.
unfoldable pub sha256_finish : Ctx → Ctx
unfolding pad_zeros
sha256_finish c =
    sha256_update (pad_zeros 64 (sha256_update c (0x80 ∷ []))) (be64 (c.len * 8 % 2 ^ 64))

unfoldable pub sha256_final : Ctx → Ctx × List ℕ
unfolding sha256_finish
sha256_final c = (sha256_finish c, digest (sha256_finish c).words)

-- `buf` is what the local context's buffer holds.
unfoldable pub sha256 : List ℕ → List ℕ → List ℕ
unfolding sha256_init sha256_final
sha256 buf p = (sha256_final (sha256_update (sha256_init buf) p)).1
