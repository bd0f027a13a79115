-- ===== src/Crypto/Hmac.antt =====
-- The HMAC of lib/crypto/sha256.c.
use Prim.Native.Nat.{bit_xor}
use mathlib.Core.List.{append-nil}
use core_z_os.Base.{
  ℕ, ◌-◌, ◌≡◌, refl, ap, ◌∙◌, List, [], ◌∷◌, ◌++◌, map, ltb, if◌then◌else◌, length, replicate,
}
use core_z_os.Crypto.Sha256.{Ctx, sha256, sha256_init, sha256_update, sha256_final}
use core_z_os.Crypto.Sha256.Padding.{updates, concat}
use core_z_os.Crypto.Sha256.Fips.{fips_sha256}
use core_z_os.Crypto.Sha256.Standard.{sha256_stream, sha256-eq-fips_sha256}

pub record HmacCtx : Type 0 where
  pub inner : Ctx
  pub outer : Ctx

-- The bytes that the local buffers and contexts hold before they are written.
abbrev pub Garbage : Type 0
Garbage = List ℕ

-- The key in 64 bytes.
unfoldable pub key_block : Garbage → List ℕ → List ℕ
key_block buf key =
    if ltb 64 (length key)
    then sha256 buf key ++ replicate 32 0
    else key ++ replicate (64 - length key) 0

unfoldable pub hmac_sha256_init : Garbage → List ℕ → HmacCtx
unfolding key_block
hmac_sha256_init buf key =
    let k = key_block buf key in
    record {
      inner = sha256_update (sha256_init buf) (map (λ b. bit_xor b 0x36) k);
      outer = sha256_update (sha256_init buf) (map (λ b. bit_xor b 0x5c) k);
    }

unfoldable pub hmac_sha256_update : HmacCtx → List ℕ → HmacCtx
hmac_sha256_update c p = record c { inner = sha256_update c.inner p }

unfoldable pub hmac_sha256_final : HmacCtx → HmacCtx × List ℕ
hmac_sha256_final c =
    let (inner, inner_hash) = sha256_final c.inner in
    let (outer, out) = sha256_final (sha256_update c.outer inner_hash) in
    (record { inner = inner; outer = outer }, out)

unfoldable pub hmac_sha256 : Garbage → List ℕ → List ℕ → List ℕ
unfolding hmac_sha256_init hmac_sha256_update hmac_sha256_final
hmac_sha256 buf key msg = (hmac_sha256_final (hmac_sha256_update (hmac_sha256_init buf key) msg)).1

-- The key of RFC 2104, in 64 bytes.
abbrev pub rfc_key : List ℕ → List ℕ
rfc_key key =
    if ltb 64 (length key)
    then fips_sha256 key ++ replicate 32 0
    else key ++ replicate (64 - length key) 0

-- H(K xor opad, H(K xor ipad, text)).
unfoldable pub rfc_hmac : List ℕ → List ℕ → List ℕ
rfc_hmac key msg = fips_sha256 (
    map (λ b. bit_xor b 0x5c) (rfc_key key)
    ++ fips_sha256 (map (λ b. bit_xor b 0x36) (rfc_key key) ++ msg))

key_block-eq : (buf key : List ℕ) → length buf ≡ 64 → key_block buf key ≡ rfc_key key
unfolding key_block
key_block-eq buf key h = rw (sha256-eq-fips_sha256 buf key h)

-- One call of `hmac_sha256_update` for each part.
abbrev pub hmac_updates : HmacCtx → List (List ℕ) → HmacCtx
hmac_updates c [] = c
hmac_updates c (p ∷ ps) = hmac_updates (hmac_sha256_update c p) ps

hmac_updates-inner :
    (c : HmacCtx) (ps : List (List ℕ)) → hmac_updates c ps ≡ record c { inner = updates c.inner ps }
unfolding hmac_sha256_update
hmac_updates-inner c [] = refl
hmac_updates-inner c (p ∷ ps) = hmac_updates-inner (hmac_sha256_update c p) ps

-- However the message is cut into the parts that `hmac_sha256_update` is called with,
-- `hmac_sha256_final` gives the HMAC of RFC 2104 over SHA-256; a key of more than 64 bytes is
-- hashed first. The buffers have 64 bytes, with any contents.
pub hmac_sha256_stream :
    (buf key : List ℕ) (ps : List (List ℕ))
    → length buf ≡ 64
    → (hmac_sha256_final (hmac_updates (hmac_sha256_init buf key) ps)).1 ≡ rfc_hmac key (concat ps)
unfolding hmac_sha256_init hmac_sha256_final rfc_hmac
hmac_sha256_stream buf key ps h =
    ap (λ c. (hmac_sha256_final c).1) (hmac_updates-inner (hmac_sha256_init buf key) ps)
    ∙ (sha256_stream buf (outer_pad ∷ inner_hash ∷ []) h
        ∙ (ap (λ x. fips_sha256 (outer_pad ++ x))
              (append-nil inner_hash ∙ sha256_stream buf (inner_pad ∷ ps) h)
            ∙ ap
                (λ k. fips_sha256 (
                  map (λ b. bit_xor b 0x5c) k
                  ++ fips_sha256 (map (λ b. bit_xor b 0x36) k ++ concat ps)))
                (key_block-eq buf key h)))
  where
    outer_pad : List ℕ
    outer_pad = map (λ b. bit_xor b 0x5c) (key_block buf key)

    inner_pad : List ℕ
    inner_pad = map (λ b. bit_xor b 0x36) (key_block buf key)

    inner_hash : List ℕ
    inner_hash = (sha256_final (updates (sha256_init buf) (inner_pad ∷ ps))).1

pub hmac_sha256-eq-rfc_hmac :
    (buf key msg : List ℕ) → length buf ≡ 64 → hmac_sha256 buf key msg ≡ rfc_hmac key msg
unfolding hmac_sha256
hmac_sha256-eq-rfc_hmac buf key msg h =
    hmac_sha256_stream buf key (msg ∷ []) h ∙ ap (rfc_hmac key) (append-nil msg)
