-- ===== src/Base/Slices.antt =====
-- Slices of a list: `take`, `drop` and a read inside one.
use Prim.Native.Nat.{ℕ, zero, suc, ◌+◌, ◌-◌, ◌≤◌, ◌<◌}
use mathlib.Core.Path.{◌≡◌, refl, ap, ◌∙◌}
use mathlib.Core.List.{List, [], ◌∷◌, ◌++◌}
use native.Mathlib.Omega.{arith}
use core_z_os.Base.Lists.{length, set, get_or, take, drop}

module _ {ℓ} {A : Type ℓ} where
  pub get_or-drop : (h k : ℕ) (xs : List A) (d : A) → get_or xs (h + k) d ≡ get_or (drop h xs) k d
  get_or-drop zero k xs d = ap (λ i. get_or xs i d) (let e : zero + k ≡ k = omega arith in e)
  get_or-drop (suc h) k [] d = refl
  get_or-drop (suc h) k (x ∷ xs) d =
      ap (λ i. get_or (x ∷ xs) i d) (let e : suc h + k ≡ suc (h + k) = omega arith in e)
      ∙ get_or-drop h k xs d

  pub get_or-take : (n k : ℕ) (xs : List A) (d : A) → k < n → get_or (take n xs) k d ≡ get_or xs k d
  get_or-take zero k xs d h = elim h [ ]
  get_or-take (suc n) k [] d h = refl
  get_or-take (suc n) zero (x ∷ xs) d h = refl
  get_or-take (suc n) (suc k) (x ∷ xs) d h = get_or-take n k xs d (omega arith)

  take_nil : (k : ℕ) → ◌≡◌ {A = List A} [] (take k [])
  take_nil zero = refl
  take_nil (suc k) = refl

  pub drop-take : (n m : ℕ) (xs : List A) → drop n (take m xs) ≡ take (m - n) (drop n xs)
  drop-take zero m xs = ap (λ k. take k xs) (let e : m ≡ m - zero = omega arith in e)
  drop-take (suc n) zero xs =
      ap (λ k. take k (drop (suc n) xs)) (let e : 0 ≡ zero - suc n = omega arith in e)
  drop-take (suc n) (suc m) [] = take_nil (suc m - suc n)
  drop-take (suc n) (suc m) (x ∷ xs) =
      drop-take n m xs
      ∙ ap (λ k. take k (drop n xs)) (let e : m - n ≡ suc m - suc n = omega arith in e)

  pub take-prefix : (n : ℕ) (xs ys : List A) → n ≤ length xs → take n (xs ++ ys) ≡ take n xs
  take-prefix zero xs ys h = refl
  take-prefix (suc n) [] ys h = absurd (omega arith)
  take-prefix (suc n) (x ∷ xs) ys h = ap (λ r. x ∷ r) (take-prefix n xs ys (omega arith))

  pub drop-prefix : (n : ℕ) (xs ys : List A) → n ≤ length xs → drop n (xs ++ ys) ≡ drop n xs ++ ys
  drop-prefix zero xs ys h = refl
  drop-prefix (suc n) [] ys h = absurd (omega arith)
  drop-prefix (suc n) (x ∷ xs) ys h = drop-prefix n xs ys (omega arith)

  pub take-take : (n m : ℕ) (xs : List A) → n ≤ m → take n (take m xs) ≡ take n xs
  take-take zero m xs h = refl
  take-take (suc n) zero xs h = absurd (omega arith)
  take-take (suc n) (suc m) [] h = refl
  take-take (suc n) (suc m) (x ∷ xs) h = ap (λ r. x ∷ r) (take-take n m xs (omega arith))

  pub drop-length-append : (xs ys : List A) → drop (length xs) (xs ++ ys) ≡ ys
  drop-length-append [] ys = refl
  drop-length-append (x ∷ xs) ys = drop-length-append xs ys

  -- A write behind a slice makes it longer.
  pub slice-set :
      (xs : List A) (h n : ℕ) (v : A)
      → h + n < length xs
      → take (suc n) (drop h (set xs (h + n) v)) ≡ take n (drop h xs) ++ v ∷ []
  slice-set [] h n v l = elim l [ ]
  slice-set (x ∷ xs) zero zero v l = refl
  slice-set (x ∷ xs) zero (suc n) v l =
      ap (λ i. take (suc (suc n)) (set (x ∷ xs) i v))
        (let e : zero + suc n ≡ suc (zero + n) = omega arith in e)
      ∙ ap (λ r. x ∷ r) (slice-set xs zero n v (omega arith))
  slice-set (x ∷ xs) (suc h) n v l =
      ap (λ i. take (suc n) (drop (suc h) (set (x ∷ xs) i v)))
        (let e : suc h + n ≡ suc (h + n) = omega arith in e)
      ∙ slice-set xs h n v (omega arith)
