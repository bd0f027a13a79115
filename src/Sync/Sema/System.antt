-- ===== src/Sync/Sema/System.antt =====
-- Threads that share one semaphore, each going round `sema_down`, its own work and `sema_up`,
-- interleaved in any order.
use core_z_os.Base.{ℕ, ◌<◌, ◌≡◌, Option, none, some, update, if◌then◌else◌}
use core_z_os.Sync.Sema.{Sema, sema_init, sema_down_pass, sema_up}

-- `wanting` is ready to run, before a pass of `sema_down`; `asleep` is TASK_BLOCKED in it.
pub data Pc : Type 0 where
  outside wanting asleep inside : Pc

pub record System : Type 0 where
  pub sema : Sema
  pub pc : ℕ → Pc

abbrev pub wake : Option ℕ → (ℕ → Pc) → ℕ → Pc
wake none pc = pc
wake (some w) pc = update pc w wanting

abbrev pub down_by : ℕ → System → System
down_by i s =
    let (through, sema) = sema_down_pass i s.sema in
    record { sema = sema; pc = update s.pc i (if through then inside else asleep) }

abbrev pub up_by : ℕ → System → System
up_by i s =
    let (woken, sema) = sema_up s.sema in
    record { sema = sema; pc = wake woken (update s.pc i outside) }

pub data Step (n : ℕ) (s : System) : System → Type 0 where
  call : (i : ℕ) → i < n → s.pc i ≡ outside → Step n s (record s { pc = update s.pc i wanting })
  down : (i : ℕ) → i < n → s.pc i ≡ wanting → Step n s (down_by i s)
  up : (i : ℕ) → i < n → s.pc i ≡ inside → Step n s (up_by i s)

abbrev pub start : ℕ → System
start k = record { sema = sema_init k; pc = λ _. outside }

pub data Reach (n k : ℕ) : System → Type 0 where
  here : Reach n k (start k)
  next : {s t : System} → Reach n k s → Step n s t → Reach n k t
