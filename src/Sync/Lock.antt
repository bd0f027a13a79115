-- ===== src/Sync/Lock.antt =====
-- The recursive locks of kernel/sched/sync.c. A task is a number; `current` is an option, none
-- before the scheduler runs, when both operations do nothing.
pub mod System
pub mod Inv
pub mod Safety
use core_z_os.Base.{
  ℕ, ◌+◌, ◌-◌, ◌%◌, ◌^◌, Bool, true, false, not, ◌||◌, Option, none, some, List, [], ◌∷◌, ltb, ◌==◌,
  if◌then◌else◌,
}
use core_z_os.Sync.Sema.{Sema, sema_init, sema_down_pass, sema_up}

pub record Lock : Type 0 where
  pub holder : Option ℕ
  pub sema : Sema
  pub holder_repeat_nr : ℕ

unfoldable pub lock_init : Lock
unfolding sema_init
lock_init = record { holder = none; sema = sema_init 1; holder_repeat_nr = 0 }

abbrev pub is_holder : Lock → ℕ → Bool
is_holder lk t = elim lk.holder [ none ↦ false | some h ↦ h == t ]

abbrev pub is_free : Lock → Bool
is_free lk = elim lk.holder [ none ↦ lk.holder_repeat_nr == 0 | some _ ↦ false ]

-- How a part of an operation ends.
pub data Outcome : Type 0 where
  done : Lock → Outcome  -- the operation returns
  contend : Outcome  -- `lock_acquire` goes on to its loop
  blocked : Lock → Outcome  -- the task is queued and sleeps
  released : Option ℕ → Lock → Outcome  -- `lock_release` returns, having woken a task or none
  assert_fail : Outcome

-- `lock_acquire` up to its loop.
unfoldable pub lock_enter : Option ℕ → Lock → Outcome
lock_enter none lk = done lk
lock_enter (some t) lk =
    if is_holder lk t
    then done (record lk { holder_repeat_nr = (lk.holder_repeat_nr + 1) % 2 ^ 32 })
    else contend

-- One pass of its loop, under the semaphore's spinlock.
unfoldable pub lock_pass : ℕ → Lock → Outcome
unfolding sema_down_pass
lock_pass t lk =
    let (through, sema) = sema_down_pass t lk.sema in
    if not through
    then blocked (record lk { sema = sema })
    else if is_free lk
    then done (record { holder = some t; sema = sema; holder_repeat_nr = 1 })
    else assert_fail

unfoldable pub lock_release : Option ℕ → Lock → Outcome
unfolding sema_up
lock_release none lk = released none lk
lock_release (some t) lk =
    if not (is_holder lk t)
    then assert_fail
    else if ltb 1 lk.holder_repeat_nr
    then released none (record lk { holder_repeat_nr = lk.holder_repeat_nr - 1 })
    else (let (woken, sema) = sema_up lk.sema in
        released woken (record { holder = none; sema = sema; holder_repeat_nr = 0 }))
