-- ===== src/Sync/RwLock/Wakes.antt =====
-- The passes of `sema_down`, `sema_up` and the steps between them, on the queues of a readers-writer lock.
use core_z_os.Base.{ℕ, ◌+◌, ◌≤◌, ◌≡◌, ap, ◌∙◌, Bool, true, false, not, arith, update, if◌then◌else◌}
use core_z_os.Sync.Sema.{Sema, sema_down_pass, sema_up}
use core_z_os.Sync.RwLock.{Pc, System, wake}
use core_z_os.Sync.RwLock.Queues.{
  at_gate, at_rmutex, at_wlock, at_any, Queues, AllQueues, other-Queues, pass-Queues, up-Queues,
  at_gate-le, at_rmutex-le, at_wlock-le, at_any-le, Queues-woken, calm-woken, woken-at, calm-update,
}

module _ (s : System) (i : ℕ) (up : s.asleep i ≡ false) (q : AllQueues s) where
  -- A pass of a semaphore by the thread i, for the other two.
  pass_other :
      (at : Pc → ℕ) (sema : Sema) (through : Bool) (go stay : Pc)
      → s.pc i ≡ stay
      → at stay ≡ 0
      → Queues at sema s.pc s.asleep
      → Queues at sema
          (update s.pc i (if through then go else stay))
          (update s.asleep i (not through))
  pass_other at sema through go stay e out r =
      other-Queues at sema s.pc s.asleep i (if through then go else stay) (not through) up
        (ap at e ∙ out) (λ b. ground (arith, b, out)) r

  pass_calm :
      (through : Bool) (go stay : Pc)
      → at_any stay ≡ 1
      → (j : ℕ) → update s.asleep i (not through) j ≡ true
      → at_any (update s.pc i (if through then go else stay) j) ≡ 1
  pass_calm through go stay is =
      calm-update at_any s.pc s.asleep i (if through then go else stay) (not through)
        (blocked_at through) q.calm up
    where
      blocked_at : (t : Bool) → not t ≡ true → at_any (if t then go else stay) ≡ 1
      blocked_at true e = absurd cc
      blocked_at false e = is

  -- A `sema_up` by the thread i of another semaphore.
  up_other :
      (at : Pc → ℕ) (sema : Sema) (at' : Pc → ℕ) (sema' : Sema) (go : Pc)
      → at (s.pc i) ≡ 0
      → ((j : ℕ) → at (s.pc j) + at' (s.pc j) ≤ 1)
      → Queues at sema s.pc s.asleep
      → Queues at' sema' s.pc s.asleep
      → Queues at sema (update s.pc i go) (wake (sema_up sema').0 (update s.asleep i false))
  up_other at sema at' sema' go out one r r' =
      Queues-woken at sema (update s.pc i go) (update s.asleep i false) (sema_up sema').0
        (λ w e.
          let (a, k) = woken-at at' sema'.value sema'.waiters s.pc s.asleep w r' e in
          ground (arith, a, k, one w, up))
        (other-Queues at sema s.pc s.asleep i go false up out (λ e. absurd cc) r)

  pub pass_gate :
      (go stay : Pc)
      → s.pc i ≡ stay
      → at_gate stay ≡ 1
      → at_rmutex stay ≡ 0
      → at_wlock stay ≡ 0
      → s.rw.gate.value ≤ 1
      → AllQueues (record {
        rw = record s.rw { gate = (sema_down_pass i s.rw.gate).1 };
        pc = update s.pc i (if (sema_down_pass i s.rw.gate).0 then go else stay);
        asleep = update s.asleep i (not (sema_down_pass i s.rw.gate).0);
      })
  pass_gate go stay e is out out' small = record {
    gate = pass-Queues at_gate s.rw.gate s.pc s.asleep i go stay up is small q.gate;
    rmutex = pass_other at_rmutex s.rw.rmutex (sema_down_pass i s.rw.gate).0 go stay e out q.rmutex;
    wlock = pass_other at_wlock s.rw.wlock (sema_down_pass i s.rw.gate).0 go stay e out' q.wlock;
    calm = pass_calm (sema_down_pass i s.rw.gate).0 go stay (omega (arith, is, out, out'));
  }

  pub up_gate_lem :
      (go : Pc)
      → at_any (s.pc i) ≡ 0
      → AllQueues (record {
        rw = record s.rw { gate = (sema_up s.rw.gate).1 };
        pc = update s.pc i go;
        asleep = wake (sema_up s.rw.gate).0 (update s.asleep i false);
      })
  up_gate_lem go out = record {
    gate =
        up-Queues at_gate s.rw.gate.value s.rw.gate.waiters s.pc s.asleep i go up
          (omega (arith, out)) (λ j. at_gate-le (s.pc j)) q.gate;
    rmutex =
        up_other at_rmutex s.rw.rmutex at_gate s.rw.gate go (omega (arith, out))
          (λ j. omega (arith, at_any-le (s.pc j))) q.rmutex q.gate;
    wlock =
        up_other at_wlock s.rw.wlock at_gate s.rw.gate go (omega (arith, out))
          (λ j. omega (arith, at_any-le (s.pc j))) q.wlock q.gate;
    calm =
        calm-woken (update s.pc i go) (update s.asleep i false) (sema_up s.rw.gate).0
          (calm-update at_any s.pc s.asleep i go false (λ e. cc) q.calm up);
  }

  pub pass_rmutex :
      (go stay : Pc)
      → s.pc i ≡ stay
      → at_rmutex stay ≡ 1
      → at_gate stay ≡ 0
      → at_wlock stay ≡ 0
      → s.rw.rmutex.value ≤ 1
      → AllQueues (record {
        rw = record s.rw { rmutex = (sema_down_pass i s.rw.rmutex).1 };
        pc = update s.pc i (if (sema_down_pass i s.rw.rmutex).0 then go else stay);
        asleep = update s.asleep i (not (sema_down_pass i s.rw.rmutex).0);
      })
  pass_rmutex go stay e is out out' small = record {
    rmutex = pass-Queues at_rmutex s.rw.rmutex s.pc s.asleep i go stay up is small q.rmutex;
    gate = pass_other at_gate s.rw.gate (sema_down_pass i s.rw.rmutex).0 go stay e out q.gate;
    wlock = pass_other at_wlock s.rw.wlock (sema_down_pass i s.rw.rmutex).0 go stay e out' q.wlock;
    calm = pass_calm (sema_down_pass i s.rw.rmutex).0 go stay (omega (arith, is, out, out'));
  }

  pub up_rmutex_lem :
      (go : Pc)
      → at_any (s.pc i) ≡ 0
      → AllQueues (record {
        rw = record s.rw { rmutex = (sema_up s.rw.rmutex).1 };
        pc = update s.pc i go;
        asleep = wake (sema_up s.rw.rmutex).0 (update s.asleep i false);
      })
  up_rmutex_lem go out = record {
    rmutex =
        up-Queues at_rmutex s.rw.rmutex.value s.rw.rmutex.waiters s.pc s.asleep i go up
          (omega (arith, out)) (λ j. at_rmutex-le (s.pc j)) q.rmutex;
    gate =
        up_other at_gate s.rw.gate at_rmutex s.rw.rmutex go (omega (arith, out))
          (λ j. omega (arith, at_any-le (s.pc j))) q.gate q.rmutex;
    wlock =
        up_other at_wlock s.rw.wlock at_rmutex s.rw.rmutex go (omega (arith, out))
          (λ j. omega (arith, at_any-le (s.pc j))) q.wlock q.rmutex;
    calm =
        calm-woken (update s.pc i go) (update s.asleep i false) (sema_up s.rw.rmutex).0
          (calm-update at_any s.pc s.asleep i go false (λ e. cc) q.calm up);
  }

  pub pass_wlock :
      (go stay : Pc)
      → s.pc i ≡ stay
      → at_wlock stay ≡ 1
      → at_gate stay ≡ 0
      → at_rmutex stay ≡ 0
      → s.rw.wlock.value ≤ 1
      → AllQueues (record {
        rw = record s.rw { wlock = (sema_down_pass i s.rw.wlock).1 };
        pc = update s.pc i (if (sema_down_pass i s.rw.wlock).0 then go else stay);
        asleep = update s.asleep i (not (sema_down_pass i s.rw.wlock).0);
      })
  pass_wlock go stay e is out out' small = record {
    wlock = pass-Queues at_wlock s.rw.wlock s.pc s.asleep i go stay up is small q.wlock;
    gate = pass_other at_gate s.rw.gate (sema_down_pass i s.rw.wlock).0 go stay e out q.gate;
    rmutex =
        pass_other at_rmutex s.rw.rmutex (sema_down_pass i s.rw.wlock).0 go stay e out' q.rmutex;
    calm = pass_calm (sema_down_pass i s.rw.wlock).0 go stay (omega (arith, is, out, out'));
  }

  pub up_wlock_lem :
      (go : Pc)
      → at_any (s.pc i) ≡ 0
      → AllQueues (record {
        rw = record s.rw { wlock = (sema_up s.rw.wlock).1 };
        pc = update s.pc i go;
        asleep = wake (sema_up s.rw.wlock).0 (update s.asleep i false);
      })
  up_wlock_lem go out = record {
    wlock =
        up-Queues at_wlock s.rw.wlock.value s.rw.wlock.waiters s.pc s.asleep i go up
          (omega (arith, out)) (λ j. at_wlock-le (s.pc j)) q.wlock;
    gate =
        up_other at_gate s.rw.gate at_wlock s.rw.wlock go (omega (arith, out))
          (λ j. omega (arith, at_any-le (s.pc j))) q.gate q.wlock;
    rmutex =
        up_other at_rmutex s.rw.rmutex at_wlock s.rw.wlock go (omega (arith, out))
          (λ j. omega (arith, at_any-le (s.pc j))) q.rmutex q.wlock;
    calm =
        calm-woken (update s.pc i go) (update s.asleep i false) (sema_up s.rw.wlock).0
          (calm-update at_any s.pc s.asleep i go false (λ e. cc) q.calm up);
  }

  -- A step without a semaphore.
  pub plain_lem :
      (go : Pc) (readers : ℕ)
      → at_any (s.pc i) ≡ 0
      → AllQueues (record {
        rw = record s.rw { readers = readers };
        pc = update s.pc i go;
        asleep = update s.asleep i false;
      })
  plain_lem go readers out = record {
    gate =
        other-Queues at_gate s.rw.gate s.pc s.asleep i go false up (omega (arith, out))
          (λ e. absurd cc) q.gate;
    rmutex =
        other-Queues at_rmutex s.rw.rmutex s.pc s.asleep i go false up (omega (arith, out))
          (λ e. absurd cc) q.rmutex;
    wlock =
        other-Queues at_wlock s.rw.wlock s.pc s.asleep i go false up (omega (arith, out))
          (λ e. absurd cc) q.wlock;
    calm = calm-update at_any s.pc s.asleep i go false (λ e. absurd cc) q.calm up;
  }
