-- ===== src/Sync/RwLock/Inv.antt =====
-- Who holds which semaphore of a readers-writer lock, as sums over the threads; kept by every step.
use core_z_os.Base.{
  ℕ, ◌+◌, ◌^◌, ◌≤◌, ◌<◌, ◌≡◌, ◌≢◌, refl, sym, min, arith, update, sum_over, sum_over-update,
  sum_over-const, add-le-sum_over_ne, sum_over-add-le, sum_over-le_count,
}
use core_z_os.Sync.Sema.{sema_down_pass, sema_up}
use core_z_os.Sync.RwLock.{
  rwlock_init, Pc, outside, r_gate, r_rmutex, r_count, r_wlock, r_rmutex_up, r_gate_up, reading,
  x_rmutex, x_count, x_wlock_up, x_rmutex_up, w_gate, w_wlock, writing, v_wlock_up, v_gate_up,
  advance, System, goes, advanced, Step, read_acquire, write_acquire, read_release, write_release,
  run, start, Reach, here, next,
}

abbrev pub has_gate : Pc → ℕ
has_gate r_rmutex = 1
has_gate r_count = 1
has_gate r_wlock = 1
has_gate r_rmutex_up = 1
has_gate r_gate_up = 1
has_gate w_wlock = 1
has_gate writing = 1
has_gate v_wlock_up = 1
has_gate v_gate_up = 1
has_gate _ = 0

abbrev pub has_rmutex : Pc → ℕ
has_rmutex r_count = 1
has_rmutex r_wlock = 1
has_rmutex r_rmutex_up = 1
has_rmutex x_count = 1
has_rmutex x_wlock_up = 1
has_rmutex x_rmutex_up = 1
has_rmutex _ = 0

-- A reader that `readers` counts.
abbrev pub is_counted : Pc → ℕ
is_counted r_wlock = 1
is_counted r_rmutex_up = 1
is_counted r_gate_up = 1
is_counted reading = 1
is_counted x_rmutex = 1
is_counted x_count = 1
is_counted _ = 0

-- A writer that has `wlock`.
abbrev pub is_writer : Pc → ℕ
is_writer writing = 1
is_writer v_wlock_up = 1
is_writer _ = 0

-- The first reader, before it takes `wlock`, and the last, before it gives it back.
abbrev pub is_first : Pc → ℕ
is_first r_wlock = 1
is_first _ = 0

abbrev pub is_last : Pc → ℕ
is_last x_wlock_up = 1
is_last _ = 0

pub record Inv (n : ℕ) (s : System) : Type 0 where
  pub small : n < 2 ^ 32
  pub idle : (i : ℕ) → n ≤ i → s.pc i ≡ outside
  pub gate : s.rw.gate.value + sum_over has_gate n s.pc ≡ 1
  pub rmutex : s.rw.rmutex.value + sum_over has_rmutex n s.pc ≡ 1
  pub readers : s.rw.readers ≡ sum_over is_counted n s.pc
  pub wlock :
      s.rw.wlock.value + sum_over is_writer n s.pc + min 1 s.rw.readers + sum_over is_last n s.pc
      ≡ 1 + sum_over is_first n s.pc
  pub first : (i : ℕ) → s.pc i ≡ r_wlock → s.rw.readers ≡ 1
  pub last : (i : ℕ) → s.pc i ≡ x_wlock_up → s.rw.readers ≡ 0

Inv-start : (n : ℕ) → n < 2 ^ 32 → Inv n start
unfolding rwlock_init
Inv-start n h = record {
  small = h;
  idle = λ i l. refl;
  gate = omega (arith, sum_over-const has_gate n outside refl);
  rmutex = omega (arith, sum_over-const has_rmutex n outside refl);
  readers = sym (sum_over-const is_counted n outside refl);
  wlock = omega (
    arith,
    sum_over-const is_writer n outside refl,
    sum_over-const is_last n outside refl,
    sum_over-const is_first n outside refl,
  );
  first = λ i e. cc;
  last = λ i e. cc;
}

-- One thread moves from `p` to `p'`: how each sum changes.
record Moved (n : ℕ) (pc : ℕ → Pc) (i : ℕ) (p p' : Pc) : Type 0 where
  here_pc : pc i ≡ p
  gates : sum_over has_gate n (update pc i p') + has_gate p ≡ sum_over has_gate n pc + has_gate p'
  rmutexes :
      sum_over has_rmutex n (update pc i p') + has_rmutex p
      ≡ sum_over has_rmutex n pc + has_rmutex p'
  counted :
      sum_over is_counted n (update pc i p') + is_counted p
      ≡ sum_over is_counted n pc + is_counted p'
  writers :
      sum_over is_writer n (update pc i p') + is_writer p ≡ sum_over is_writer n pc + is_writer p'
  firsts : sum_over is_first n (update pc i p') + is_first p ≡ sum_over is_first n pc + is_first p'
  lasts : sum_over is_last n (update pc i p') + is_last p ≡ sum_over is_last n pc + is_last p'

moved : {n : ℕ} {pc : ℕ → Pc} (i : ℕ) (p p' : Pc) → i < n → pc i ≡ p → Moved n pc i p p'
moved {n} {pc} i p p' l e = record {
  here_pc = e;
  gates = rw e at (sum_over-update has_gate n pc i p' l);
  rmutexes = rw e at (sum_over-update has_rmutex n pc i p' l);
  counted = rw e at (sum_over-update is_counted n pc i p' l);
  writers = rw e at (sum_over-update is_writer n pc i p' l);
  firsts = rw e at (sum_over-update is_first n pc i p' l);
  lasts = rw e at (sum_over-update is_last n pc i p' l);
}

pub first-last-le : (p : Pc) → is_first p + is_last p ≤ has_rmutex p
first-last-le p = ground arith

pub first-writer-le : (p : Pc) → is_first p + is_writer p ≤ has_gate p
first-writer-le p = ground arith

counted-le : (p : Pc) → is_counted p ≤ 1
counted-le p = ground arith

module _ {n : ℕ} {s : System} (inv : Inv n s) (i : ℕ) (l : i < n) where
  abbrev after : Pc → System
  after p = record {
    rw = (advance i p s.rw).1;
    pc = update s.pc i (advance i p s.rw).0;
    asleep = s.asleep;
  }

  step_gate : (p : Pc) → s.pc i ≡ p → (after p).rw.gate.value + sum_over has_gate n (after p).pc ≡ 1
  unfolding advance sema_down_pass sema_up
  step_gate outside e = ground (arith, inv.gate, moved {pc = s.pc} i outside outside l e)
  step_gate p e = ground (arith, inv.gate, moved {pc = s.pc} i p (advance i p s.rw).0 l e)

  step_rmutex :
      (p : Pc) → s.pc i ≡ p → (after p).rw.rmutex.value + sum_over has_rmutex n (after p).pc ≡ 1
  unfolding advance sema_down_pass sema_up
  step_rmutex outside e = ground (arith, inv.rmutex, moved {pc = s.pc} i outside outside l e)
  step_rmutex p e = ground (arith, inv.rmutex, moved {pc = s.pc} i p (advance i p s.rw).0 l e)

  -- `readers` does not wrap: no more threads are counted than there are.
  counted_room : (pc : ℕ → Pc) → sum_over is_counted n pc < 2 ^ 32
  counted_room pc = omega (arith, inv.small, sum_over-le_count is_counted counted-le n pc)

  step_readers : (p : Pc) → s.pc i ≡ p → (after p).rw.readers ≡ sum_over is_counted n (after p).pc
  unfolding advance sema_down_pass sema_up
  step_readers outside e = ground (arith, inv.readers, moved {pc = s.pc} i outside outside l e)
  step_readers p e = ground (
    arith,
    inv.readers,
    counted_room (after p).pc,
    moved {pc = s.pc} i p (advance i p s.rw).0 l e,
  )

  -- No other thread has `rmutex`.
  alone : (j : ℕ) → s.pc j ≢ outside → i ≢ j → has_rmutex (s.pc i) + has_rmutex (s.pc j) ≤ 1
  alone j h d = omega (arith, inv.rmutex, add-le-sum_over_ne has_rmutex n s.pc i j d l (below j h))
    where
      below : (j : ℕ) → s.pc j ≢ outside → j < n
      below j h = ground (arith, inv.idle j)

  step_wlock :
      (p : Pc)
      → s.pc i ≡ p
      → (after p).rw.wlock.value
          + sum_over is_writer n (after p).pc
          + min 1 (after p).rw.readers
          + sum_over is_last n (after p).pc
        ≡ 1 + sum_over is_first n (after p).pc
  unfolding advance sema_down_pass sema_up
  step_wlock outside e = ground (arith, inv.wlock, moved {pc = s.pc} i outside outside l e)
  step_wlock p e = ground (
    arith,
    inv.wlock,
    inv.readers,
    inv.first i,
    inv.last i,
    counted_room (after p).pc,
    step_readers p e,
    sum_over-add-le is_first is_last has_rmutex first-last-le n s.pc,
    sum_over-add-le is_first is_writer has_gate first-writer-le n s.pc,
    inv.rmutex,
    moved {pc = s.pc} i p (advance i p s.rw).0 l e,
  )

  step_first : (p : Pc) → s.pc i ≡ p → (j : ℕ) → (after p).pc j ≡ r_wlock → (after p).rw.readers ≡ 1
  unfolding advance sema_down_pass sema_up
  step_first outside e j h = ground (arith, inv.first j, inv.first i)
  step_first p e j h = ground (arith, inv.first j, inv.first i, alone j)

  step_last :
      (p : Pc) → s.pc i ≡ p → (j : ℕ) → (after p).pc j ≡ x_wlock_up → (after p).rw.readers ≡ 0
  unfolding advance sema_down_pass sema_up
  step_last outside e j h = ground (arith, inv.last j, inv.last i)
  step_last p e j h = ground (arith, inv.last j, inv.last i, alone j)

  step-Inv : Inv n (advanced i s)
  step-Inv = record {
    small = inv.small;
    idle = λ j h. ground (arith, inv.idle j h);
    gate = step_gate (s.pc i) refl;
    rmutex = step_rmutex (s.pc i) refl;
    readers = step_readers (s.pc i) refl;
    wlock = step_wlock (s.pc i) refl;
    first = step_first (s.pc i) refl;
    last = step_last (s.pc i) refl;
  }

-- A move that changes no sum: the caller begins an operation.
goes-Inv :
    {n : ℕ} {s : System} (i : ℕ) (p p' : Pc)
    → i < n
    → s.pc i ≡ p
    → (has_gate p ≡ has_gate p')
      × (has_rmutex p ≡ has_rmutex p')
      × (is_counted p ≡ is_counted p')
      × (is_writer p ≡ is_writer p')
      × (is_first p ≡ is_first p')
      × (is_last p ≡ is_last p')
    → (is_first p' ≡ 0) × (is_last p' ≡ 0)
    → Inv n s
    → Inv n (goes i p' s)
goes-Inv {n} {s} i p p' l e same plain inv = record {
  small = inv.small;
  idle = λ j h. ground (arith, inv.idle j h);
  gate = omega (arith, inv.gate, (moved {pc = s.pc} i p p' l e).gates);
  rmutex = omega (arith, inv.rmutex, (moved {pc = s.pc} i p p' l e).rmutexes);
  readers = omega (arith, inv.readers, (moved {pc = s.pc} i p p' l e).counted);
  wlock = omega (
    arith,
    inv.wlock,
    (moved {pc = s.pc} i p p' l e).writers,
    (moved {pc = s.pc} i p p' l e).firsts,
    (moved {pc = s.pc} i p p' l e).lasts,
  );
  first = λ j h. ground (arith, inv.first j);
  last = λ j h. ground (arith, inv.last j);
}

Step-Inv : {n : ℕ} {s t : System} → Step n s t → Inv n s → Inv n t
Step-Inv (read_acquire i l e) inv = goes-Inv i outside r_gate l e (omega arith) (omega arith) inv
Step-Inv (write_acquire i l e) inv = goes-Inv i outside w_gate l e (omega arith) (omega arith) inv
Step-Inv (read_release i l e) inv = goes-Inv i reading x_rmutex l e (omega arith) (omega arith) inv
Step-Inv (write_release i l e) inv =
    goes-Inv i writing v_wlock_up l e (omega arith) (omega arith) inv
Step-Inv (run i l w) inv = step-Inv inv i l

pub Reach-Inv : {n : ℕ} {s : System} → n < 2 ^ 32 → Reach n s → Inv n s
Reach-Inv {n} h here = Inv-start n h
Reach-Inv h (next r st) = Step-Inv st (Reach-Inv h r)
