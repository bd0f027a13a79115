-- ===== src/Sync/Lock/System.antt =====
-- Threads that share one lock, interleaved in any order. A thread may take the lock again while it
-- holds it, and releases it as often.
use core_z_os.Base.{ℕ, suc, ◌^◌, ◌<◌, ◌≡◌, Bool, true, false, Option, none, some, update}
use core_z_os.Sync.Lock.{
  Lock, lock_init, Outcome, done, contend, blocked, released, assert_fail, lock_enter, lock_pass,
  lock_release,
}

-- `run d` has returned from `lock_acquire` d times more than from `lock_release`; `wanting` is
-- before a pass of the loop of `lock_acquire`; `asleep` is TASK_BLOCKED in it.
pub data Pc : Type 0 where
  run : (depth : ℕ) → Pc
  wanting asleep : Pc

pub record System : Type 0 where
  pub lock : Lock
  pub pc : ℕ → Pc
  pub panicked : Bool

abbrev pub wake : Option ℕ → (ℕ → Pc) → ℕ → Pc
wake none pc = pc
wake (some w) pc = update pc w wanting

-- The state after thread i, with the lock taken d times, has run a part that ended so.
abbrev pub after_acquire : ℕ → ℕ → System → Outcome → System
after_acquire i d s (done lk) = record s { lock = lk; pc = update s.pc i (run (suc d)) }
after_acquire i d s contend = record s { pc = update s.pc i wanting }
after_acquire i d s (blocked lk) = record s { lock = lk; pc = update s.pc i asleep }
after_acquire i d s (released w lk) = s
after_acquire i d s assert_fail = record s { panicked = true }

abbrev pub after_release : ℕ → ℕ → System → Outcome → System
after_release i d s (released w lk) = record s { lock = lk; pc = wake w (update s.pc i (run d)) }
after_release i d s assert_fail = record s { panicked = true }
after_release i d s _ = s

-- The counter of nested takes is a `uint32_t`: nesting deeper than it counts is left out.
pub data Step (n : ℕ) (s : System) : System → Type 0 where
  enter :
      (i d : ℕ)
      → i < n
      → s.pc i ≡ run d
      → suc d < 2 ^ 32
      → Step n s (after_acquire i d s (lock_enter (some i) s.lock))
  pass : (i : ℕ) → i < n → s.pc i ≡ wanting → Step n s (after_acquire i 0 s (lock_pass i s.lock))
  leave :
      (i d : ℕ)
      → i < n
      → s.pc i ≡ run (suc d)
      → Step n s (after_release i d s (lock_release (some i) s.lock))

abbrev pub start : System
start = record { lock = lock_init; pc = λ _. run 0; panicked = false }

pub data Reach (n : ℕ) : System → Type 0 where
  here : Reach n start
  next : {s t : System} → Reach n s → Step n s t → Reach n t
