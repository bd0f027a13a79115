-- ===== src/Futex/Wake.antt =====
-- Whom `futex_do_wake` of kernel/syscall/futex.c wakes.
use core_z_os.Base.{
  ℕ, zero, suc, ◌≡◌, inl, inr, refl, ap, Bool-cases, Bool, not, if◌then◌else◌, List, [], ◌∷◌, map,
  take, drop,
}
use core_z_os.Futex.{Waiter, wake_loop}

-- Those for which the test holds, in their order.
abbrev pub select : (Waiter → Bool) → List Waiter → List Waiter
select test [] = []
select test (w ∷ ws) = if test w then w ∷ select test ws else select test ws

abbrev pub task_of : Waiter → ℕ
task_of w = w.task

-- The loop wakes the first n of those that the test is true of, and of the others no one leaves
-- the bucket; who stays keeps his place.
pub wake_loop_lem :
    (test : Waiter → Bool) (n : ℕ) (ws : List Waiter)
    → ((wake_loop test n ws).0 ≡ map task_of (take n (select test ws)))
      × (select test (wake_loop test n ws).1 ≡ drop n (select test ws))
      × (select (λ w. not (test w)) (wake_loop test n ws).1 ≡ select (λ w. not (test w)) ws)
unfolding wake_loop
wake_loop_lem test zero [] = (refl, refl, refl)
wake_loop_lem test (suc n) [] = (refl, refl, refl)
wake_loop_lem test zero (w ∷ ws) = (refl, refl, refl)
wake_loop_lem test (suc n) (w ∷ ws) = elim (Bool-cases (test w)) [
  | inl t ↦ let (a, b, c) = wake_loop_lem test n ws in rw (t) (ap (λ x. w.task ∷ x) a, b, c)
  | inr f ↦
      let (a, b, c) = wake_loop_lem test (suc n) ws in
      rw (f) (a, rw (f) b, rw (f) (ap (λ x. w ∷ x) c))
]
