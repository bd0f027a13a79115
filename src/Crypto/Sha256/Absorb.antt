-- ===== src/Crypto/Sha256/Absorb.antt =====
-- A hash state that takes bytes one at a time: the words, and the bytes that wait for a block.
use mathlib.Core.List.{append_assoc, append-nil}
use native.Mathlib.Decide.{ℕ_discrete}
use core_z_os.Base.{
  ℕ, zero, suc, ◌+◌, ◌*◌, ◌%◌, ◌≤◌, ◌<◌, ◌≡◌, refl, sym, ap, ◌∙◌, List, [], ◌∷◌, ◌++◌, arith, ◌==◌,
  if◌then◌else◌, length, length-append, take, drop, length-take, length-drop, take-append-drop,
  drop-drop,
}
use core_z_os.Crypto.Sha256.{Words, sha256_transform, blocks}

abbrev pub State : Type 0
State = Words × List ℕ

abbrev pub absorb_byte : State → ℕ → State
absorb_byte (s, p) x =
    if length p == 63 then (sha256_transform s (p ++ x ∷ []), []) else (s, p ++ x ∷ [])

unfoldable pub absorb : State → List ℕ → State
absorb v [] = v
absorb v (x ∷ xs) = absorb (absorb_byte v x) xs

pub absorb-append : (v : State) (xs ys : List ℕ) → absorb v (xs ++ ys) ≡ absorb (absorb v xs) ys
unfolding absorb
absorb-append v [] ys = refl
absorb-append v (x ∷ xs) ys = absorb-append (absorb_byte v x) xs ys

-- Bytes that do not fill the block wait.
pub absorb_few :
    (s : Words) (p xs : List ℕ) → length p + length xs < 64 → absorb (s, p) xs ≡ (s, p ++ xs)
unfolding absorb
absorb_few s p [] h = ap (λ q. (s, q)) (sym (append-nil p))
absorb_few s p (x ∷ xs) h =
    ap (λ v. absorb v xs) (let e : absorb_byte (s, p) x ≡ (s, p ++ x ∷ []) = ground arith in e)
    ∙ (absorb_few s (p ++ x ∷ []) xs (omega (arith, length-append p (x ∷ [])))
        ∙ ap (λ q. (s, q)) (append_assoc p (x ∷ []) xs))

-- Bytes that fill it make one block with those before.
pub absorb_full :
    (s : Words) (p : List ℕ) (x : ℕ) (xs : List ℕ)
    → length p + suc (length xs) ≡ 64
    → absorb (s, p) (x ∷ xs) ≡ (sha256_transform s (p ++ x ∷ xs), [])
unfolding absorb
absorb_full s p x [] h = ground arith
absorb_full s p x (y ∷ xs) h =
    ap (λ v. absorb v (y ∷ xs))
      (let e : absorb_byte (s, p) x ≡ (s, p ++ x ∷ []) = ground arith in e)
    ∙ (absorb_full s (p ++ x ∷ []) y xs (omega (arith, length-append p (x ∷ [])))
        ∙ ap (λ q. (sha256_transform s q, [])) (append_assoc p (x ∷ []) (y ∷ xs)))

absorb_block :
    (s : Words) (b : List ℕ) → length b ≡ 64 → absorb (s, []) b ≡ (sha256_transform s b, [])
absorb_block s [] h = absurd (omega arith)
absorb_block s (x ∷ b) h = absorb_full s [] x b (omega arith)

-- Whole blocks, and the bytes behind them.
pub absorb-blocks :
    (n : ℕ) (s : Words) (p : List ℕ)
    → 64 * n ≤ length p
    → absorb (s, []) p ≡ absorb (blocks n s p, []) (drop (64 * n) p)
unfolding blocks
absorb-blocks zero s p h =
    ap (absorb (s, [])) (ap (λ k. drop k p) (let e : 0 ≡ 64 * 0 = omega arith in e))
absorb-blocks (suc n) s p h =
    ap (absorb (s, [])) (sym (take-append-drop 64 p))
    ∙ (absorb-append (s, []) (take 64 p) (drop 64 p)
        ∙ (ap (λ v. absorb v (drop 64 p))
              (absorb_block s (take 64 p) (omega (arith, length-take 64 p)))
            ∙ (absorb-blocks n (sha256_transform s (take 64 p)) (drop 64 p)
                  (omega (arith, length-drop 64 p))
                ∙ ap (absorb (blocks n (sha256_transform s (take 64 p)) (drop 64 p), [])) (
                    drop-drop 64 (64 * n) p
                    ∙ ap (λ k. drop k p) (let e : 64 + 64 * n ≡ 64 * suc n = omega arith in e)))))

-- How many bytes wait.
pub length-absorb :
    (v : State) (xs : List ℕ)
    → length v.1 < 64
    → length (absorb v xs).1 ≡ (length v.1 + length xs) % 64
unfolding absorb
length-absorb v [] h = omega arith
length-absorb v (x ∷ xs) h = elim (ℕ_discrete (length v.1) 63) [
  | yes e ↦ ground (arith, length-absorb (absorb_byte v x) xs)
  | no n ↦ ground (arith, length-absorb (absorb_byte v x) xs, length-append v.1 (x ∷ []))
]
