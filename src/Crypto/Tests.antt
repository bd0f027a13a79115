-- ===== src/Crypto/Tests.antt =====
-- Known answers for lib/crypto/sha256.c, and its theorems at small inputs.
use core_z_os.Base.{ℕ, ◌≡◌, refl, arith, List, [], ◌∷◌, take, replicate, min}
use core_z_os.Crypto.Sha256.{Ctx, sha256, sha256_init, sha256_update, sha256_final, pad_zeros}
use core_z_os.Crypto.Sha256.Absorb.{absorb}
use core_z_os.Crypto.Sha256.Stream.{IsValid, view}
use core_z_os.Crypto.Sha256.Padding.{concat, updates, pad_zeros_ends}
use core_z_os.Crypto.Sha256.Fips.{fips_sha256}
use core_z_os.Crypto.Sha256.Standard.{sha256_stream}
use core_z_os.Crypto.Hmac.{
  hmac_sha256_init, hmac_sha256_final, hmac_updates, rfc_hmac, hmac_sha256_stream,
}
use core_z_os.Crypto.Hkdf.{hkdf_expand, rfc_blocks, hkdf_expand-eq}

abbrev buffer : List ℕ
buffer = replicate 64 7

-- FIPS 180-4, "abc".
sha256_abc : take 4 (sha256 buffer (b'a' ∷ b'b' ∷ b'c' ∷ [])) ≡ 0xba ∷ 0x78 ∷ 0x16 ∷ 0xbf ∷ []
unfolding sha256 core_z_os.Crypto.Sha256.copy_mem core_z_os.Crypto.Sha256.load_words
    core_z_os.Crypto.Sha256.schedule_word core_z_os.Crypto.Sha256.schedule
    core_z_os.Crypto.Sha256.round core_z_os.Crypto.Sha256.rounds
    core_z_os.Crypto.Sha256.sha256_transform sha256_init core_z_os.Crypto.Sha256.fill
    core_z_os.Crypto.Sha256.blocks core_z_os.Crypto.Sha256.leftover
    core_z_os.Crypto.Sha256.absorb_rest sha256_update pad_zeros
    core_z_os.Crypto.Sha256.sha256_finish sha256_final
sha256_abc = refl

sha256_stream_example :
    (sha256_final (updates (sha256_init buffer) ((1 ∷ 2 ∷ []) ∷ [] ∷ (3 ∷ []) ∷ []))).1
    ≡ fips_sha256 (concat ((1 ∷ 2 ∷ []) ∷ [] ∷ (3 ∷ []) ∷ []))
sha256_stream_example = sha256_stream buffer ((1 ∷ 2 ∷ []) ∷ [] ∷ (3 ∷ []) ∷ []) refl

abbrev started : Ctx
started = record {
  words = record { a = 1; b = 2; c = 3; d = 4; e = 5; f = 6; g = 7; h = 8 };
  len = 60;
  buf = buffer;
  buf_len = 60;
}

pad_zeros_ends_example :
    ((pad_zeros 64 started).buf_len ≡ 56)
    × (view (pad_zeros 64 started) ≡ absorb (view started) (replicate 60 0))
    × IsValid (pad_zeros 64 started)
pad_zeros_ends_example =
    pad_zeros_ends 64 started (record { full_size = refl; room = omega arith }) (omega arith)

hmac_sha256_stream_example :
    (hmac_sha256_final
      (hmac_updates (hmac_sha256_init buffer (9 ∷ [])) ((1 ∷ []) ∷ (2 ∷ []) ∷ []))).1
    ≡ rfc_hmac (9 ∷ []) (concat ((1 ∷ []) ∷ (2 ∷ []) ∷ []))
hmac_sha256_stream_example = hmac_sha256_stream buffer (9 ∷ []) ((1 ∷ []) ∷ (2 ∷ []) ∷ []) refl

hkdf_expand-eq_example :
    hkdf_expand buffer (5 ∷ []) (6 ∷ []) 40
    ≡ take (min 40 8160) (rfc_blocks 255 (5 ∷ []) (6 ∷ []) [] 1)
hkdf_expand-eq_example = hkdf_expand-eq buffer (5 ∷ []) (6 ∷ []) 40 refl
