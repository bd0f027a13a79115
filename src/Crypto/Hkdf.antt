-- ===== src/Crypto/Hkdf.antt =====
-- The HKDF of lib/crypto/sha256.c.
use native.Mathlib.Decide.{ℕ_discrete, dec_lt}
use core_z_os.Base.{
  take_all, ℕ, zero, suc, ◌+◌, ◌-◌, ◌*◌, ◌/◌, ◌%◌, ◌^◌, ◌≤◌, ◌<◌, ◌≡◌, ◌≢◌, refl, sym, ap, ap₂, ◌∙◌,
  false, List, [], ◌∷◌, ◌++◌, arith, ltb, ◌==◌, if◌then◌else◌, length, take, replicate, min, ◌⊎◌,
  inl, inr,
}
use core_z_os.Crypto.Sha256.Padding.{concat}
use core_z_os.Crypto.Sha256.Fips.{bytes_of, fips_digest, fips_sha256}
use core_z_os.Crypto.Hmac.{
  hmac_sha256_init, hmac_sha256_update, hmac_sha256_final, hmac_sha256, rfc_hmac, hmac_updates,
  hmac_sha256_stream,
}

unfoldable pub hkdf_extract : List ℕ → List ℕ → List ℕ → List ℕ
hkdf_extract buf salt ikm =
    if length salt == 0 then hmac_sha256 buf (replicate 32 0) ikm else hmac_sha256 buf salt ikm

-- One round's block. `t` is the block before.
unfoldable pub hkdf_block : List ℕ → List ℕ → List ℕ → List ℕ → ℕ → List ℕ
hkdf_block buf prk info t counter =
    let c0 = hmac_sha256_init buf prk in
    let c1 = if ltb 1 counter then hmac_sha256_update c0 t else c0 in
    let c2 = if length info == 0 then c1 else hmac_sha256_update c1 info in
    (hmac_sha256_final (hmac_sha256_update c2 (counter ∷ []))).1

-- The loop, over the bytes that are still wanted; the counter is a `uint8_t`.
unfoldable pub hkdf_loop : ℕ → List ℕ → List ℕ → List ℕ → List ℕ → ℕ → ℕ → List ℕ
hkdf_loop zero buf prk info t counter wanted = []
hkdf_loop (suc rounds) buf prk info t counter wanted =
    let block = hkdf_block buf prk info t counter in
    let n = if ltb 32 wanted then 32 else wanted in
    let rest = hkdf_loop rounds buf prk info block ((counter + 1) % 256) (wanted - n) in
    if wanted == 0 then [] else take n block ++ rest

-- What is written to `out`. 255 rounds are enough.
unfoldable pub hkdf_expand : List ℕ → List ℕ → List ℕ → ℕ → List ℕ
hkdf_expand buf prk info out_len =
    let wanted = if ltb (255 * 32) out_len then 255 * 32 else out_len in
    hkdf_loop 255 buf prk info [] 1 wanted

-- The characters before the first zero, 249 at most.
unfoldable pub label_chars : ℕ → List ℕ → List ℕ
label_chars zero label = []
label_chars (suc n) [] = []
label_chars (suc n) (c ∷ label) = if c == 0 then [] else c ∷ label_chars n label

-- `hkdf_label` as it is sent to `hkdf_expand`.
unfoldable pub hkdf_label : List ℕ → List ℕ → ℕ → List ℕ
unfolding label_chars
hkdf_label label context out_len =
    let name = label_chars 249 label in
    let used = take 255 context in
    out_len / 2 ^ 8 % 256
      ∷ out_len % 256
      ∷ (6 + length name) % 256
      ∷ (b't' ∷ b'l' ∷ b's' ∷ b'1' ∷ b'3' ∷ b' ' ∷ [])
    ++ (name ++ (length used % 256 ∷ used))

unfoldable pub hkdf_expand_label : List ℕ → List ℕ → List ℕ → List ℕ → ℕ → List ℕ
unfolding hkdf_label
hkdf_expand_label buf secret label context out_len =
    hkdf_expand buf secret (hkdf_label label context out_len) out_len

-- T(k) ++ ... ++ T(k + n - 1) of RFC 5869, where t is T(k - 1).
unfoldable pub rfc_blocks : ℕ → List ℕ → List ℕ → List ℕ → ℕ → List ℕ
rfc_blocks zero prk info t k = []
rfc_blocks (suc n) prk info t k =
    rfc_hmac prk (t ++ (info ++ k ∷ []))
    ++ rfc_blocks n prk info (rfc_hmac prk (t ++ (info ++ k ∷ []))) (k + 1)

rfc_hmac-length : (key msg : List ℕ) → length (rfc_hmac key msg) ≡ 32
unfolding rfc_hmac fips_sha256 fips_digest bytes_of
rfc_hmac-length key msg = refl

-- What a block's HMAC is updated with.
parts : List ℕ → List ℕ → ℕ → List (List ℕ)
parts info t k =
    (if ltb 1 k then t ∷ [] else [])
    ++ ((if length info == 0 then [] else info ∷ []) ++ (k ∷ []) ∷ [])

hkdf_block-parts :
    (buf prk info t : List ℕ) (k : ℕ)
    → hkdf_block buf prk info t k
      ≡ (hmac_sha256_final (hmac_updates (hmac_sha256_init buf prk) (parts info t k))).1
unfolding hkdf_block parts
hkdf_block-parts buf prk info t k = ground arith

concat-parts :
    (info t : List ℕ) (k : ℕ)
    → (1 < k) ⊎ ((k ≡ 1) × (t ≡ []))
    → concat (parts info t k) ≡ t ++ (info ++ k ∷ [])
unfolding parts
concat-parts [] t k (inl l) = ground arith
concat-parts (x ∷ info) t k (inl l) = ground arith
concat-parts [] t k (inr (e, z)) = ground arith
concat-parts (x ∷ info) t k (inr (e, z)) = ground arith

-- T(k) from T(k - 1), which is empty for the first block.
hkdf_block-eq :
    (buf prk info t : List ℕ) (k : ℕ)
    → length buf ≡ 64
    → (1 < k) ⊎ ((k ≡ 1) × (t ≡ []))
    → hkdf_block buf prk info t k ≡ rfc_hmac prk (t ++ (info ++ k ∷ []))
hkdf_block-eq buf prk info t k h f =
    hkdf_block-parts buf prk info t k
    ∙ (hmac_sha256_stream buf prk (parts info t k) h ∙ ap (rfc_hmac prk) (concat-parts info t k f))

take-append : (n : ℕ) (xs ys : List ℕ) → take n (xs ++ ys) ≡ take n xs ++ take (n - length xs) ys
take-append zero [] ys = ap (λ k. take k ys) (let e : 0 ≡ 0 - 0 = omega arith in e)
take-append (suc n) [] ys = ap (λ k. take k ys) (let e : suc n ≡ suc n - 0 = omega arith in e)
take-append zero (x ∷ xs) ys =
    ap (λ k. take k ys) (let e : 0 ≡ 0 - suc (length xs) = omega arith in e)
take-append (suc n) (x ∷ xs) ys =
    ap (λ r. x ∷ r)
      (take-append n xs ys
        ∙ ap (λ k. take n xs ++ take k ys)
            (let e : n - length xs ≡ suc n - suc (length xs) = omega arith in e))

loop_end : (rounds : ℕ) (buf prk info t : List ℕ) (k : ℕ) → hkdf_loop rounds buf prk info t k 0 ≡ []
unfolding hkdf_loop
loop_end zero buf prk info t k = refl
loop_end (suc rounds) buf prk info t k = refl

-- The bytes that a block gives.
abbrev given : ℕ → ℕ
given wanted = if ltb 32 wanted then 32 else wanted

loop_on :
    (rounds : ℕ) (buf prk info t : List ℕ) (k wanted : ℕ)
    → wanted ≢ 0
    → hkdf_loop (suc rounds) buf prk info t k wanted
      ≡ take (given wanted) (hkdf_block buf prk info t k)
        ++ hkdf_loop rounds buf prk info
            (hkdf_block buf prk info t k)
            ((k + 1) % 256)
            (wanted - given wanted)
unfolding hkdf_loop
loop_on rounds buf prk info t k wanted n = rw (let e : (wanted == 0) ≡ false = ground arith in e)

take-given : (wanted : ℕ) (xs : List ℕ) → length xs ≡ 32 → take (given wanted) xs ≡ take wanted xs
take-given wanted xs h = elim (dec_lt 32 wanted) [
  | yes l ↦
      ap (λ n. take n xs) (let e : given wanted ≡ 32 = ground arith in e)
      ∙ (take_all 32 xs (omega arith) ∙ sym (take_all wanted xs (omega arith)))
  | no g ↦ ap (λ n. take n xs) (let e : given wanted ≡ wanted = ground arith in e)
]

-- The counter wraps behind the last round only.
rfc_counter :
    (rounds : ℕ) (prk info t : List ℕ) (k : ℕ)
    → k + suc rounds ≤ 256
    → rfc_blocks rounds prk info t ((k + 1) % 256) ≡ rfc_blocks rounds prk info t (k + 1)
unfolding rfc_blocks
rfc_counter zero prk info t k l = refl
rfc_counter (suc rounds) prk info t k l =
    ap (rfc_blocks (suc rounds) prk info t) (let e : (k + 1) % 256 ≡ k + 1 = omega arith in e)

rfc_blocks-suc :
    (rounds : ℕ) (prk info t : List ℕ) (k : ℕ)
    → rfc_blocks (suc rounds) prk info t k
      ≡ rfc_hmac prk (t ++ (info ++ k ∷ []))
        ++ rfc_blocks rounds prk info (rfc_hmac prk (t ++ (info ++ k ∷ []))) (k + 1)
unfolding rfc_blocks
rfc_blocks-suc rounds prk info t k = refl

hkdf_loop-eq :
    (rounds : ℕ) (buf prk info t : List ℕ) (k wanted : ℕ)
    → length buf ≡ 64
    → (rounds ≡ 0) ⊎ ((k + rounds ≤ 256) × ((1 < k) ⊎ ((k ≡ 1) × (t ≡ []))))
    → wanted ≤ 32 * rounds
    → hkdf_loop rounds buf prk info t k wanted ≡ take wanted (rfc_blocks rounds prk info t k)
hkdf_loop-eq zero buf prk info t k wanted h f w =
    ap (hkdf_loop zero buf prk info t k) (let e : wanted ≡ 0 = omega arith in e)
    ∙ (loop_end zero buf prk info t k
        ∙ ap (λ n. take n (rfc_blocks zero prk info t k)) (let e : 0 ≡ wanted = omega arith in e))
hkdf_loop-eq (suc rounds) buf prk info t k wanted h (inl e) w = absurd (omega arith)
hkdf_loop-eq (suc rounds) buf prk info t k wanted h (inr (l, f)) w = elim (ℕ_discrete wanted 0) [
  | yes z ↦
      ap (hkdf_loop (suc rounds) buf prk info t k) z
      ∙ (loop_end (suc rounds) buf prk info t k
          ∙ ap (λ n. take n (rfc_blocks (suc rounds) prk info t k)) (sym z))
  | no n ↦
      loop_on rounds buf prk info t k wanted n
      ∙ (ap₂ (λ x y. x ++ y) (ap (take (given wanted)) same ∙ take-given wanted block size)
            (hkdf_loop-eq rounds buf prk info (hkdf_block buf prk info t k) ((k + 1) % 256)
                (wanted - given wanted) h later (ground arith)
              ∙ rest)
          ∙ (sym (take-append wanted block (rfc_blocks rounds prk info block (k + 1)))
              ∙ ap (take wanted) (sym (rfc_blocks-suc rounds prk info t k))))
]
  where
    block : List ℕ
    block = rfc_hmac prk (t ++ (info ++ k ∷ []))

    size : length block ≡ 32
    size = rfc_hmac-length prk (t ++ (info ++ k ∷ []))

    same : hkdf_block buf prk info t k ≡ block
    same = hkdf_block-eq buf prk info t k h f

    later :
        (rounds ≡ 0)
        ⊎ (((k + 1) % 256 + rounds ≤ 256)
            × ((1 < (k + 1) % 256) ⊎ (((k + 1) % 256 ≡ 1) × (hkdf_block buf prk info t k ≡ []))))
    later = elim (ℕ_discrete rounds 0) [
      | yes z ↦ inl z
      | no n ↦ inr (omega arith, inl (elim f [ inl g ↦ omega arith | inr (g, _) ↦ omega arith ]))
    ]

    rest :
        take
          (wanted - given wanted)
          (rfc_blocks rounds prk info (hkdf_block buf prk info t k) ((k + 1) % 256))
        ≡ take (wanted - length block) (rfc_blocks rounds prk info block (k + 1))
    rest =
        ap (λ b. take (wanted - given wanted) (rfc_blocks rounds prk info b ((k + 1) % 256))) same
        ∙ ap₂ take
            (let e : wanted - given wanted ≡ wanted - length block = ground (arith, size) in e)
            (rfc_counter rounds prk info block k l)

-- `hkdf_expand` writes the first bytes of the blocks of RFC 5869, T(1) ++ T(2) ++ ..., as many
-- as are asked for, but 8160 at most. The buffers have 64 bytes, with any contents.
pub hkdf_expand-eq :
    (buf prk info : List ℕ) (out_len : ℕ)
    → length buf ≡ 64
    → hkdf_expand buf prk info out_len ≡ take (min out_len 8160) (rfc_blocks 255 prk info [] 1)
unfolding hkdf_expand
hkdf_expand-eq buf prk info out_len h =
    ap (hkdf_loop 255 buf prk info [] 1)
      (let e : (if ltb 8160 out_len then 8160 else out_len) ≡ min out_len 8160 = ground arith in e)
    ∙ hkdf_loop-eq 255 buf prk info [] 1 (min out_len 8160) h (inr (omega arith, inr (refl, refl)))
        (omega arith)
