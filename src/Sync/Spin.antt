-- ===== src/Sync/Spin.antt =====
-- The spinlocks of kernel/sched/sync.c: processors that go round `spinlock_acquire`, their critical
-- section and `spinlock_release`, one memory access at a time.
use core_z_os.Base.{
  ℕ, ◌≤◌, ◌<◌, ◌≡◌, ◌≢◌, refl, arith, update, sum_over, sum_over-update, sum_over-const,
  add-le-sum_over, ◌==◌, if◌then◌else◌,
}

-- `trying` is before the exchange of `spinlock_acquire`, `spinning` before the test of its inner
-- loop, `critical` before the store of `spinlock_release`.
pub data Pc : Type 0 where
  idle trying spinning critical : Pc

pub record Machine : Type 0 where
  pub locked : ℕ
  pub pc : ℕ → Pc

-- `asm_xchg(&s->locked, 1)`, and where the outer loop goes from there.
unfoldable pub exchange : ℕ → Machine → Machine
exchange i m = record {
  locked = 1;
  pc = update m.pc i (if m.locked == 0 then critical else spinning);
}

-- The test of the inner loop.
unfoldable pub spin : ℕ → Machine → Machine
spin i m = record m { pc = update m.pc i (if m.locked == 0 then trying else spinning) }

unfoldable pub spinlock_release : ℕ → Machine → Machine
spinlock_release i m = record { locked = 0; pc = update m.pc i idle }

pub data Step (n : ℕ) (m : Machine) : Machine → Type 0 where
  begin : (i : ℕ) → i < n → m.pc i ≡ idle → Step n m (record m { pc = update m.pc i trying })
  try_exchange : (i : ℕ) → i < n → m.pc i ≡ trying → Step n m (exchange i m)
  test : (i : ℕ) → i < n → m.pc i ≡ spinning → Step n m (spin i m)
  leave : (i : ℕ) → i < n → m.pc i ≡ critical → Step n m (spinlock_release i m)

-- `spinlock_init`.
abbrev pub spinlock_init : Machine
spinlock_init = record { locked = 0; pc = λ _. idle }

pub data Reach (n : ℕ) : Machine → Type 0 where
  here : Reach n spinlock_init
  next : {m m' : Machine} → Reach n m → Step n m m' → Reach n m'

abbrev pub is_critical : Pc → ℕ
is_critical critical = 1
is_critical _ = 0

abbrev Inv : ℕ → Machine → Type 0
Inv n m = (m.locked ≡ sum_over is_critical n m.pc) × (m.locked ≤ 1)

Step-Inv : {n : ℕ} {m m' : Machine} → Step n m m' → Inv n m → Inv n m'
unfolding exchange spin spinlock_release
Step-Inv {n} {m} (begin i l e) inv = ground (arith, sum_over-update is_critical n m.pc i trying l)
Step-Inv {n} {m} (try_exchange i l e) inv = ground (
  arith,
  sum_over-update is_critical n m.pc i critical l,
  sum_over-update is_critical n m.pc i spinning l,
)
Step-Inv {n} {m} (test i l e) inv = ground (
  arith,
  sum_over-update is_critical n m.pc i trying l,
  sum_over-update is_critical n m.pc i spinning l,
)
Step-Inv {n} {m} (leave i l e) inv = ground (arith, sum_over-update is_critical n m.pc i idle l)

Reach-Inv : {n : ℕ} {m : Machine} → Reach n m → Inv n m
Reach-Inv {n} here = omega (arith, sum_over-const is_critical n idle refl)
Reach-Inv (next r st) = Step-Inv st (Reach-Inv r)

-- In every reachable state of n processors over a spinlock, the word `locked` is the number of
-- processors in the critical section, and two different processors are never there together.
pub spin_exclusion :
    {n : ℕ} {m : Machine}
    → Reach n m
    → (m.locked ≡ sum_over is_critical n m.pc)
      × ((i j : ℕ) → i < j → j < n → m.pc i ≡ critical → m.pc j ≢ critical)
spin_exclusion {n} {m} r = (
  (Reach-Inv r).0,
  λ i j h l e f. ground (arith, Reach-Inv r, add-le-sum_over is_critical n m.pc i j h l),
)
