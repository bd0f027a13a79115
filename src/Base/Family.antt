-- ===== src/Base/Family.antt =====
-- Families indexed by a thread's number: a write at one index, and sums over the first `n`.
use Prim.Native.Nat.{ℕ, zero, suc, ◌+◌, ◌≤◌, ◌<◌}
use mathlib.Core.Path.{◌≡◌, refl}
use mathlib.Core.Logic.{◌≢◌}
use native.Mathlib.Decide.{ℕ_discrete, dec_lt}
use native.Mathlib.Omega.{arith}
use core_z_os.Base.Tests.{◌==◌, if◌then◌else◌}

abbrev pub update {ℓ} : {A : Type ℓ} → (ℕ → A) → ℕ → A → ℕ → A
update f i a j = if i == j then a else f j

module _ {ℓ} {A : Type ℓ} (weight : A → ℕ) where
  pub sum_over : ℕ → (ℕ → A) → ℕ
  sum_over zero f = 0
  sum_over (suc n) f = weight (f n) + sum_over n f

  -- A write at or above `n` is not counted.
  sum_over-update_ge :
      (n : ℕ) (f : ℕ → A) (i : ℕ) (a : A) → n ≤ i → sum_over n (update f i a) ≡ sum_over n f
  unfolding sum_over
  sum_over-update_ge zero f i a h = refl
  sum_over-update_ge (suc n) f i a h = ground (arith, sum_over-update_ge n f i a)

  -- A write below `n` trades the old weight for the new one.
  pub sum_over-update :
      (n : ℕ) (f : ℕ → A) (i : ℕ) (a : A)
      → i < n
      → sum_over n (update f i a) + weight (f i) ≡ sum_over n f + weight a
  unfolding sum_over
  sum_over-update zero f i a h = elim h [ ]
  sum_over-update (suc n) f i a h =
      ground (arith, sum_over-update n f i a, sum_over-update_ge n f i a)

  pub sum_over-const : (n : ℕ) (a : A) → weight a ≡ 0 → sum_over n (λ _. a) ≡ 0
  unfolding sum_over
  sum_over-const zero a h = refl
  sum_over-const (suc n) a h = omega (arith, sum_over-const n a h)

  -- Each member below `n` weighs no more than the sum.
  pub le-sum_over : (n : ℕ) (f : ℕ → A) (i : ℕ) → i < n → weight (f i) ≤ sum_over n f
  unfolding sum_over
  le-sum_over zero f i h = elim h [ ]
  le-sum_over (suc n) f i h = ground (arith, le-sum_over n f i)

  -- So do two different members together.
  pub add-le-sum_over :
      (n : ℕ) (f : ℕ → A) (i j : ℕ) → i < j → j < n → weight (f i) + weight (f j) ≤ sum_over n f
  unfolding sum_over
  add-le-sum_over zero f i j h k = elim k [ ]
  add-le-sum_over (suc n) f i j h k = ground (arith, add-le-sum_over n f i j, le-sum_over n f i)

  -- A sum that is not 0 has a member that is not.
  pub sum_over-ne-zero :
      (n : ℕ) (f : ℕ → A) → sum_over n f ≢ 0 → (i : ℕ) × (i < n) × (weight (f i) ≢ 0)
  unfolding sum_over
  sum_over-ne-zero zero f h = absurd (h refl)
  sum_over-ne-zero (suc n) f h = elim (ℕ_discrete (weight (f n)) 0) [
    | yes e ↦ let (i, l, g) = sum_over-ne-zero n f (omega arith) in (i, omega arith, g)
    | no g ↦ (n, omega arith, g)
  ]

  -- Two different members together weigh no more than the sum, in either order.
  pub add-le-sum_over_ne :
      (n : ℕ) (f : ℕ → A) (i j : ℕ)
      → i ≢ j
      → i < n
      → j < n
      → weight (f i) + weight (f j) ≤ sum_over n f
  add-le-sum_over_ne n f i j d h k = elim (dec_lt i j) [
    | yes l ↦ add-le-sum_over n f i j l k
    | no g ↦ omega (arith, add-le-sum_over n f j i)
  ]

module _ {ℓ} {A : Type ℓ} (u v w : A → ℕ) where
  -- Two weights that are together at most a third have sums that are.
  pub sum_over-add-le :
      ((a : A) → u a + v a ≤ w a)
      → (n : ℕ) (f : ℕ → A) → sum_over u n f + sum_over v n f ≤ sum_over w n f
  unfolding sum_over
  sum_over-add-le h zero f = omega arith
  sum_over-add-le h (suc n) f = omega (arith, h (f n), sum_over-add-le h n f)

module _ {ℓ} {A : Type ℓ} (weight : A → ℕ) where
  -- Weights of at most 1 add up to no more than the number of members.
  pub sum_over-le_count : ((a : A) → weight a ≤ 1) → (n : ℕ) (f : ℕ → A) → sum_over weight n f ≤ n
  unfolding sum_over
  sum_over-le_count h zero f = omega arith
  sum_over-le_count h (suc n) f = omega (arith, h (f n), sum_over-le_count h n f)
