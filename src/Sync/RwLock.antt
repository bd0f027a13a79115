-- ===== src/Sync/RwLock.antt =====
-- The readers-writer locks of kernel/sched/sync.c: threads that go round the read or the write
-- side, one semaphore operation or one change of `readers` at a time. A pass of `sema_down` that does
-- not go through puts its thread to sleep, and `sema_up` wakes the one that waits longest.
pub mod Inv
pub mod Safety
pub mod Queues
pub mod Wakes
pub mod Awake
pub mod Progress
use core_z_os.Base.{
  ℕ, ◌+◌, ◌-◌, ◌%◌, ◌^◌, ◌<◌, ◌≡◌, Bool, true, false, not, Option, none, some, update, ◌==◌,
  if◌then◌else◌,
}
use core_z_os.Sync.Sema.{Sema, sema_init, sema_down_pass, sema_up}

pub record RwLock : Type 0 where
  pub gate : Sema
  pub rmutex : Sema
  pub wlock : Sema
  pub readers : ℕ  -- a `uint32_t`

unfoldable pub rwlock_init : RwLock
unfolding sema_init
rwlock_init = record { gate = sema_init 1; rmutex = sema_init 1; wlock = sema_init 1; readers = 0 }

-- What a thread does next.
pub data Pc : Type 0 where
  outside : Pc
  -- `rwlock_read_acquire`
  r_gate r_rmutex r_count r_wlock r_rmutex_up r_gate_up : Pc
  reading : Pc
  -- `rwlock_read_release`
  x_rmutex x_count x_wlock_up x_rmutex_up : Pc
  -- `rwlock_write_acquire`
  w_gate w_wlock : Pc
  writing : Pc
  -- `rwlock_write_release`
  v_wlock_up v_gate_up : Pc

-- What a step leaves: where the thread is, the lock, whether `sema_down` has queued the thread and
-- blocks it, and the task that `sema_up` unblocks.
abbrev pub Outcome : Type 0
Outcome = Pc × RwLock × Bool × Option ℕ

-- A pass of `sema_down` by thread i leads on to `p`, or leaves it where it was, blocked.
abbrev pub down_gate : ℕ → Pc → Pc → RwLock → Outcome
down_gate i stay go rw =
    let (through, sema) = sema_down_pass i rw.gate in
    (if through then go else stay, record rw { gate = sema }, not through, none)

abbrev pub down_rmutex : ℕ → Pc → Pc → RwLock → Outcome
down_rmutex i stay go rw =
    let (through, sema) = sema_down_pass i rw.rmutex in
    (if through then go else stay, record rw { rmutex = sema }, not through, none)

abbrev pub down_wlock : ℕ → Pc → Pc → RwLock → Outcome
down_wlock i stay go rw =
    let (through, sema) = sema_down_pass i rw.wlock in
    (if through then go else stay, record rw { wlock = sema }, not through, none)

abbrev pub up_gate : Pc → RwLock → Outcome
up_gate go rw = let (woken, sema) = sema_up rw.gate in (go, record rw { gate = sema }, false, woken)

abbrev pub up_rmutex : Pc → RwLock → Outcome
up_rmutex go rw =
    let (woken, sema) = sema_up rw.rmutex in (go, record rw { rmutex = sema }, false, woken)

abbrev pub up_wlock : Pc → RwLock → Outcome
up_wlock go rw =
    let (woken, sema) = sema_up rw.wlock in (go, record rw { wlock = sema }, false, woken)

-- `++rw->readers == 1` and `--rw->readers == 0`.
abbrev pub count_in : RwLock → Outcome
count_in rw =
    let readers = (rw.readers + 1) % 2 ^ 32 in
    (if readers == 1 then r_wlock else r_rmutex_up, record rw { readers = readers }, false, none)

abbrev pub count_out : RwLock → Outcome
count_out rw =
    let readers = (rw.readers + 2 ^ 32 - 1) % 2 ^ 32 in
    (if readers == 0 then x_wlock_up else x_rmutex_up, record rw { readers = readers }, false, none)

-- What thread i does at each point of the four operations, in the order of the code. Outside and
-- in the critical sections it is the caller's choice: see `Step`.
unfoldable pub advance : ℕ → Pc → RwLock → Outcome
advance i r_gate rw = down_gate i r_gate r_rmutex rw
advance i r_rmutex rw = down_rmutex i r_rmutex r_count rw
advance i r_count rw = count_in rw
advance i r_wlock rw = down_wlock i r_wlock r_rmutex_up rw
advance i r_rmutex_up rw = up_rmutex r_gate_up rw
advance i r_gate_up rw = up_gate reading rw
advance i x_rmutex rw = down_rmutex i x_rmutex x_count rw
advance i x_count rw = count_out rw
advance i x_wlock_up rw = up_wlock x_rmutex_up rw
advance i x_rmutex_up rw = up_rmutex outside rw
advance i w_gate rw = down_gate i w_gate w_wlock rw
advance i w_wlock rw = down_wlock i w_wlock writing rw
advance i v_wlock_up rw = up_wlock v_gate_up rw
advance i v_gate_up rw = up_gate outside rw
advance i p rw = (p, rw, false, none)

-- A thread that is asleep is TASK_BLOCKED in a `sema_down`, and takes no step until it is woken.
pub record System : Type 0 where
  pub rw : RwLock
  pub pc : ℕ → Pc
  pub asleep : ℕ → Bool

abbrev pub wake : Option ℕ → (ℕ → Bool) → ℕ → Bool
wake none asleep = asleep
wake (some w) asleep = update asleep w false

abbrev pub goes : ℕ → Pc → System → System
goes i p s = record s { pc = update s.pc i p }

abbrev pub advanced : ℕ → System → System
advanced i s =
    let (p, rw, blocked, woken) = advance i (s.pc i) s.rw in
    record { rw = rw; pc = update s.pc i p; asleep = wake woken (update s.asleep i blocked) }

pub data Step (n : ℕ) (s : System) : System → Type 0 where
  read_acquire : (i : ℕ) → i < n → s.pc i ≡ outside → Step n s (goes i r_gate s)
  write_acquire : (i : ℕ) → i < n → s.pc i ≡ outside → Step n s (goes i w_gate s)
  read_release : (i : ℕ) → i < n → s.pc i ≡ reading → Step n s (goes i x_rmutex s)
  write_release : (i : ℕ) → i < n → s.pc i ≡ writing → Step n s (goes i v_wlock_up s)
  run : (i : ℕ) → i < n → s.asleep i ≡ false → Step n s (advanced i s)

abbrev pub start : System
start = record { rw = rwlock_init; pc = λ _. outside; asleep = λ _. false }

pub data Reach (n : ℕ) : System → Type 0 where
  here : Reach n start
  next : {s t : System} → Reach n s → Step n s t → Reach n t
