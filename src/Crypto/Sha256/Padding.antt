-- ===== src/Crypto/Sha256/Padding.antt =====
-- `sha256_final` against the padded message of FIPS 180-4, cut into blocks.
use mathlib.Core.List.{append_assoc, append-nil}
use native.Mathlib.Decide.{ℕ_discrete}
use core_z_os.Base.{
  drop_all, ℕ, zero, suc, ◌+◌, ◌-◌, ◌*◌, ◌/◌, ◌%◌, ◌^◌, ◌≤◌, ◌≡◌, ◌≢◌, refl, sym, ap, ap₂, ◌∙◌,
  subst, true, false, List, [], ◌∷◌, ◌++◌, arith, ◌==◌, length, length-append, take, length-take,
  replicate, length-replicate,
}
use core_z_os.Crypto.Sha256.{
  Ctx, initial_words, blocks, sha256_update, sha256_init, pad_zeros, be64, digest, sha256_finish,
  sha256_final,
}
use core_z_os.Crypto.Sha256.Absorb.{absorb, absorb-append, absorb-blocks, length-absorb}
use core_z_os.Crypto.Sha256.Stream.{IsValid, view, sha256_update-view, sha256_update-len}

waiting : (c : Ctx) → IsValid c → length (take c.buf_len c.buf) ≡ c.buf_len
waiting c v = omega (arith, length-take c.buf_len c.buf, v.full_size, v.room)

-- How many bytes an update leaves in the buffer.
update-buf_len :
    (c : Ctx) (p : List ℕ) → IsValid c → (sha256_update c p).buf_len ≡ (c.buf_len + length p) % 64
update-buf_len c p v =
    let (e, w) = sha256_update-view c p v in
    sym (waiting (sha256_update c p) w)
    ∙ (ap (λ s. length s.1) e
        ∙ (length-absorb (view c) p (omega (arith, waiting c v, v.room))
            ∙ ap (λ n. (n + length p) % 64) (waiting c v)))

-- The zeros that are missing to 56 bytes.
abbrev gap : ℕ → ℕ
gap n = (120 - n) % 64

pad_stop : (rounds : ℕ) (c : Ctx) → c.buf_len ≡ 56 → pad_zeros (suc rounds) c ≡ c
unfolding pad_zeros
pad_stop rounds c h = rw (let e : (c.buf_len == 56) ≡ true = ground arith in e, pad_zeros)

pad_on :
    (rounds : ℕ) (c : Ctx)
    → c.buf_len ≢ 56
    → pad_zeros (suc rounds) c ≡ pad_zeros rounds (sha256_update c (0 ∷ []))
unfolding pad_zeros
pad_on rounds c h = rw (let e : (c.buf_len == 56) ≡ false = ground arith in e, pad_zeros)

-- A context with k zeros more, and 56 bytes in the buffer.
abbrev Padded : Ctx → ℕ → Ctx → Type 0
Padded c k c' = (c'.buf_len ≡ 56) × (view c' ≡ absorb (view c) (replicate k 0)) × IsValid c'

unpadded : (c : Ctx) (k : ℕ) → IsValid c → c.buf_len ≡ 56 → k ≡ gap c.buf_len → Padded c k c
unfolding absorb
unpadded c k v e h =
    (e, ap (λ k. absorb (view c) (replicate k 0)) (let e : 0 ≡ k = omega arith in e), v)

one_zero :
    (c : Ctx) (k : ℕ) (c' : Ctx)
    → IsValid c
    → Padded (sha256_update c (0 ∷ [])) k c'
    → Padded c (suc k) c'
unfolding absorb
one_zero c k c' v (e, f, w) =
    (e, f ∙ ap (λ t. absorb t (replicate k 0)) (sha256_update-view c (0 ∷ []) v).0, w)

-- With as many rounds as zeros are missing, or more, the loop of `sha256_final` ends by its own test,
-- with 56 bytes in the buffer, and what it has added are those zeros; 64 rounds are always enough.
pub pad_zeros_ends :
    (rounds : ℕ) (c : Ctx)
    → IsValid c
    → (120 - c.buf_len) % 64 ≤ rounds
    → ((pad_zeros rounds c).buf_len ≡ 56)
      × (view (pad_zeros rounds c) ≡ absorb (view c) (replicate ((120 - c.buf_len) % 64) 0))
      × IsValid (pad_zeros rounds c)
pad_zeros_ends zero c v h =
    subst (Padded c (gap c.buf_len)) (let e : c ≡ pad_zeros zero c = unfold pad_zeros in refl in e)
      (unpadded c (gap c.buf_len) v (omega (arith, v.room)) refl)
pad_zeros_ends (suc rounds) c v h = elim (ℕ_discrete c.buf_len 56) [
  | yes e ↦
      subst (Padded c (gap c.buf_len)) (sym (pad_stop rounds c e))
        (unpadded c (gap c.buf_len) v e refl)
  | no n ↦
      (let l = update-buf_len c (0 ∷ []) v in
        let k : suc (gap (sha256_update c (0 ∷ [])).buf_len) ≡ gap c.buf_len =
          omega (arith, v.room) in
        subst (Padded c (gap c.buf_len)) (sym (pad_on rounds c n)) (
          subst (λ k. Padded c k (pad_zeros rounds (sha256_update c (0 ∷ [])))) k
            (one_zero c (gap (sha256_update c (0 ∷ [])).buf_len)
              (pad_zeros rounds (sha256_update c (0 ∷ []))) v
              (pad_zeros_ends rounds (sha256_update c (0 ∷ [])) (sha256_update-view c (0 ∷ []) v).1
                (omega arith)))))
]

-- What is added to a message of n bytes.
unfoldable pub padding : ℕ → List ℕ
padding n = 0x80 ∷ replicate ((119 - n % 64) % 64) 0 ++ be64 (n * 8 % 2 ^ 64)

finish-view :
    (c : Ctx)
    → IsValid c
    → view (sha256_finish c)
      ≡ absorb (view c) (0x80 ∷ replicate ((119 - c.buf_len) % 64) 0 ++ be64 (c.len * 8 % 2 ^ 64))
unfolding sha256_finish absorb
finish-view c v =
    (sha256_update-view (pad_zeros 64 first) tail ended.2).0
    ∙ (ap (λ t. absorb t tail)
          (ended.1 ∙ ap (λ t. absorb t (replicate (gap first.buf_len) 0)) started.0)
        ∙ (sym (absorb-append (absorb (view c) (0x80 ∷ [])) (replicate (gap first.buf_len) 0) tail)
            ∙ ap (λ k. absorb (view c) (0x80 ∷ replicate k 0 ++ tail)) zeros))
  where
    first : Ctx
    first = sha256_update c (0x80 ∷ [])

    tail : List ℕ
    tail = be64 (c.len * 8 % 2 ^ 64)

    started : (view first ≡ absorb (view c) (0x80 ∷ [])) × IsValid first
    started = sha256_update-view c (0x80 ∷ []) v

    ended : Padded first (gap first.buf_len) (pad_zeros 64 first)
    ended = pad_zeros_ends 64 first started.1 (omega arith)

    zeros : gap first.buf_len ≡ (119 - c.buf_len) % 64
    zeros = omega (arith, update-buf_len c (0x80 ∷ []) v, v.room)

-- The hash of a message by the code's own transform: its blocks, with the padding, from the initial words on.
unfoldable pub padded_hash : List ℕ → List ℕ
padded_hash xs =
    let m = xs ++ padding (length xs) in digest (blocks (length m / 64) initial_words m)

padded_blocks :
    (xs : List ℕ)
    → absorb (initial_words, []) (xs ++ padding (length xs)) ≡ (
      blocks (length (xs ++ padding (length xs)) / 64) initial_words (xs ++ padding (length xs)),
      [],
    )
unfolding padding absorb
padded_blocks xs =
    absorb-blocks n initial_words m (omega arith)
    ∙ ap (absorb (blocks n initial_words m, [])) (drop_all (64 * n) m (omega (arith, size)))
  where
    m : List ℕ
    m = xs ++ padding (length xs)

    n : ℕ
    n = length m / 64

    size : length m % 64 ≡ 0
    size = omega (
      arith,
      length-append xs (padding (length xs)),
      length-append (replicate ((119 - length xs % 64) % 64) 0) (be64 (length xs * 8 % 2 ^ 64)),
      (let k = length-replicate {A = ℕ} ((119 - length xs % 64) % 64) 0 in k),
    )

-- A context that has absorbed a message ends in its hash.
final_lem :
    (c : Ctx) (xs : List ℕ)
    → IsValid c
    → view c ≡ absorb (initial_words, []) xs
    → c.len ≡ length xs % 2 ^ 64
    → (sha256_final c).1 ≡ padded_hash xs
unfolding sha256_final padded_hash padding
final_lem c xs v e l =
    ap (λ t. digest t.0)
      (finish-view c v
        ∙ (ap (absorb (view c)) (ap₂ (λ k n. 0x80 ∷ replicate k 0 ++ be64 n) zeros bits)
            ∙ (ap (λ t. absorb t (padding (length xs))) e
                ∙ (sym (absorb-append (initial_words, []) xs (padding (length xs)))
                    ∙ padded_blocks xs))))
  where
    zeros : (119 - c.buf_len) % 64 ≡ (119 - length xs % 64) % 64
    zeros = omega (
      arith,
      waiting c v,
      ap (λ s. length s.1) e,
      length-absorb (initial_words, []) xs (omega arith),
    )

    bits : c.len * 8 % 2 ^ 64 ≡ length xs * 8 % 2 ^ 64
    bits = omega arith

init-IsValid : (buf : List ℕ) → length buf ≡ 64 → IsValid (sha256_init buf)
unfolding sha256_init
init-IsValid buf h = record { full_size = h; room = omega arith }

abbrev pub concat : List (List ℕ) → List ℕ
concat [] = []
concat (p ∷ ps) = p ++ concat ps

-- One call of `sha256_update` for each part.
abbrev pub updates : Ctx → List (List ℕ) → Ctx
updates c [] = c
updates c (p ∷ ps) = updates (sha256_update c p) ps

updates_lem :
    (c : Ctx) (ps : List (List ℕ)) (xs : List ℕ)
    → IsValid c
    → view c ≡ absorb (initial_words, []) xs
    → c.len ≡ length xs % 2 ^ 64
    → (sha256_final (updates c ps)).1 ≡ padded_hash (xs ++ concat ps)
updates_lem c [] xs v e l = final_lem c xs v e l ∙ ap padded_hash (sym (append-nil xs))
updates_lem c (p ∷ ps) xs v e l =
    updates_lem (sha256_update c p) ps (xs ++ p) (sha256_update-view c p v).1
      ((sha256_update-view c p v).0
        ∙ (ap (λ t. absorb t p) e ∙ sym (absorb-append (initial_words, []) xs p)))
      (omega (arith, sha256_update-len c p, length-append xs p))
    ∙ ap padded_hash (append_assoc xs p (concat ps))

-- However a message is cut into the parts that `sha256_update` is called with, and whatever the
-- context's buffer of 64 bytes held before, `sha256_final` gives what the code's transform makes of the
-- blocks of the message, with the padding behind it.
pub stream-eq-padded_hash :
    (buf : List ℕ) (ps : List (List ℕ))
    → length buf ≡ 64
    → (sha256_final (updates (sha256_init buf) ps)).1 ≡ padded_hash (concat ps)
unfolding sha256_init absorb
stream-eq-padded_hash buf ps h = updates_lem (sha256_init buf) ps [] (init-IsValid buf h) refl refl
