-- ===== src/Sync/Sema.antt =====
-- The semaphores of kernel/sched/sync.c. What a thread does between `spinlock_acquire` and
-- `spinlock_release` is one step: interrupts are off and the spinlock is held.
pub mod System
pub mod Safety
use core_z_os.Base.{
  ℕ, ◌+◌, ◌-◌, ◌%◌, ◌≡◌, Bool, true, false, Option, none, some, List, [], ◌∷◌, ◌++◌, ◌==◌,
  if◌then◌else◌,
}

-- `value` is a `uint8_t`; the waiters are task numbers, the one that waits longest first.
pub record Sema : Type 0 where
  pub value : ℕ
  pub waiters : List ℕ

unfoldable pub sema_init : ℕ → Sema
sema_init v = record { value = v % 256; waiters = [] }

-- One pass through the critical section of `sema_down` by the task t: true if it goes through,
-- false if it is queued and blocks (it makes another pass when it is woken).
unfoldable pub sema_down_pass : ℕ → Sema → Bool × Sema
sema_down_pass t s =
    if s.value == 0
    then (false, record s { waiters = s.waiters ++ t ∷ [] })
    else (true, record s { value = s.value - 1 })

abbrev pub pop_front : List ℕ → Option ℕ × List ℕ
pop_front [] = (none, [])
pop_front (w ∷ ws) = (some w, ws)

-- The task that `thread_unblock` is called on, if any, and the new semaphore.
unfoldable pub sema_up : Sema → Option ℕ × Sema
sema_up s =
    let (woken, rest) = pop_front s.waiters in
    (woken, record { value = (s.value + 1) % 256; waiters = rest })
