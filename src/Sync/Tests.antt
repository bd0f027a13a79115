-- ===== src/Sync/Tests.antt =====
-- Runs of the locks, and the theorems on them at the states that the runs reach.
use core_z_os.Base.{ℕ, ◌+◌, ◌<◌, ◌≡◌, ◌≢◌, refl, ◌⊎◌, false, some, arith, update, sum_over, suc}
use core_z_os.Sync.Spin
use core_z_os.Sync.Spin.{exchange, spin_exclusion}
use core_z_os.Sync.Sema.{sema_init, sema_down_pass, sema_up}
use core_z_os.Sync.Sema.System as Sem
use core_z_os.Sync.Sema.Safety.{is_inside, sema_conserved, no_lost_wakeup}
use core_z_os.Sync.Lock.{lock_init, lock_enter, lock_pass}
use core_z_os.Sync.Lock.System as Lk
use core_z_os.Sync.Lock.Safety.{lock_exclusion, lock_no_deadlock}
use core_z_os.Sync.RwLock as Rw
use core_z_os.Sync.RwLock.{rwlock_init, advance}
use core_z_os.Sync.RwLock.Safety.{rwlock_exclusion}
use core_z_os.Sync.RwLock.Progress.{Goes, rwlock_no_deadlock}

-- Processor 0 is in the critical section, processor 1 has lost the exchange.
abbrev spun : Spin.Machine
spun =
    let m0 = record Spin.spinlock_init { pc = update (λ _. Spin.Pc.idle) 0 Spin.Pc.trying } in
    let m1 = exchange 0 m0 in exchange 1 (record m1 { pc = update m1.pc 1 Spin.Pc.trying })

spun-Reach : Spin.Reach 2 spun
unfolding exchange
spun-Reach =
    Spin.next
      (Spin.next
        (Spin.next (Spin.next Spin.here (Spin.begin 0 (omega arith) refl))
          (Spin.try_exchange 0 (omega arith) refl))
        (Spin.begin 1 (omega arith) refl))
      (Spin.try_exchange 1 (omega arith) refl)

spin_exclusion_example :
    (spun.locked ≡ sum_over Spin.is_critical 2 spun.pc)
    × ((i j : ℕ) → i < j → j < 2 → spun.pc i ≡ Spin.critical → spun.pc j ≢ Spin.critical)
spin_exclusion_example = spin_exclusion spun-Reach

-- Of three threads over a semaphore of value 1, two sleep; the first to go has just left.
abbrev called : ℕ → Sem.System → Sem.System
called i s = record s { pc = update s.pc i Sem.wanting }

abbrev queued : Sem.System
queued =
    Sem.down_by 2 (called 2 (Sem.down_by 1 (called 1 (Sem.down_by 0 (called 0 (Sem.start 1))))))

queued_Reach : Sem.Reach 3 1 queued
unfolding sema_init sema_down_pass
queued_Reach =
    Sem.next
      (Sem.next
        (Sem.next
          (Sem.next
            (Sem.next (Sem.next Sem.here (Sem.call 0 (omega arith) refl))
              (Sem.down 0 (omega arith) refl))
            (Sem.call 1 (omega arith) refl))
          (Sem.down 1 (omega arith) refl))
        (Sem.call 2 (omega arith) refl))
      (Sem.down 2 (omega arith) refl)

left_Reach : Sem.Reach 3 1 (Sem.up_by 0 queued)
unfolding sema_init sema_down_pass
left_Reach = Sem.next queued_Reach (Sem.up 0 (omega arith) refl)

sema_conserved_example : queued.sema.value + sum_over is_inside 3 queued.pc ≡ 1
sema_conserved_example = sema_conserved (omega arith) queued_Reach

no_lost_wakeup_example : (j : ℕ) × ((Sem.up_by 0 queued).pc j ≡ Sem.wanting)
unfolding sema_init sema_down_pass sema_up
no_lost_wakeup_example = no_lost_wakeup 2 (omega arith) left_Reach refl (omega arith)

-- Thread 0 has taken the lock twice, thread 1 sleeps.
abbrev entered : ℕ → ℕ → Lk.System → Lk.System
entered i d s = Lk.after_acquire i d s (lock_enter (some i) s.lock)

abbrev passed : ℕ → Lk.System → Lk.System
passed i s = Lk.after_acquire i 0 s (lock_pass i s.lock)

abbrev twice_taken : Lk.System
twice_taken = passed 1 (entered 1 0 (entered 0 1 (passed 0 (entered 0 0 Lk.start))))

twice_taken-Reach : Lk.Reach 2 twice_taken
unfolding lock_init lock_enter lock_pass
twice_taken-Reach =
    Lk.next
      (Lk.next
        (Lk.next
          (Lk.next (Lk.next Lk.here (Lk.enter 0 0 (omega arith) refl (omega arith)))
            (Lk.pass 0 (omega arith) refl))
          (Lk.enter 0 1 (omega arith) refl (omega arith)))
        (Lk.enter 1 0 (omega arith) refl (omega arith)))
      (Lk.pass 1 (omega arith) refl)

lock_exclusion_example :
    (twice_taken.panicked ≡ false)
    × ((i d : ℕ)
        → twice_taken.pc i ≡ Lk.run (suc d)
        → (twice_taken.lock.holder ≡ some i) × (twice_taken.lock.holder_repeat_nr ≡ suc d))
    × ((i j d e : ℕ)
        → twice_taken.pc i ≡ Lk.run (suc d)
        → twice_taken.pc j ≡ Lk.run (suc e)
        → i ≡ j)
lock_exclusion_example = lock_exclusion twice_taken-Reach

lock_no_deadlock_example :
    ((j : ℕ) × (twice_taken.pc j ≡ Lk.wanting))
    ⊎ ((j d : ℕ) × (twice_taken.pc j ≡ Lk.run (suc d)) × (twice_taken.lock.holder ≡ some j))
unfolding lock_init lock_enter lock_pass
lock_no_deadlock_example = lock_no_deadlock 1 twice_taken-Reach refl

-- Thread 0 writes, thread 1 waits for the gate.
abbrev writes : Rw.System
writes =
    Rw.advanced 1
      (Rw.goes 1 Rw.r_gate (Rw.advanced 0 (Rw.advanced 0 (Rw.goes 0 Rw.w_gate Rw.start))))

writes-Reach : Rw.Reach 2 writes
unfolding rwlock_init advance sema_down_pass
writes-Reach =
    Rw.next
      (Rw.next
        (Rw.next
          (Rw.next (Rw.next Rw.here (Rw.write_acquire 0 (omega arith) refl))
            (Rw.run 0 (omega arith) refl))
          (Rw.run 0 (omega arith) refl))
        (Rw.read_acquire 1 (omega arith) refl))
      (Rw.run 1 (omega arith) refl)

rwlock_exclusion_example : (writes.pc 1 ≡ Rw.writing → ◌≡◌ {A = ℕ} 0 1) × (writes.pc 1 ≢ Rw.reading)
unfolding rwlock_init advance sema_down_pass
rwlock_exclusion_example = rwlock_exclusion (omega arith) writes-Reach 0 1 refl

rwlock_no_deadlock_example : (j : ℕ) × (writes.asleep j ≡ false) × Goes j (writes.pc j) writes.rw
unfolding rwlock_init advance sema_down_pass
rwlock_no_deadlock_example = rwlock_no_deadlock (omega arith) writes-Reach 1 (λ e. cc)

-- The first reader is before `sema_down(&rw->wlock)`.
abbrev first_in : Rw.System
first_in = Rw.advanced 0 (Rw.advanced 0 (Rw.advanced 0 (Rw.goes 0 Rw.r_gate Rw.start)))

first_in-Reach : Rw.Reach 1 first_in
unfolding rwlock_init advance sema_down_pass
first_in-Reach =
    Rw.next
      (Rw.next
        (Rw.next (Rw.next Rw.here (Rw.read_acquire 0 (omega arith) refl))
          (Rw.run 0 (omega arith) refl))
        (Rw.run 0 (omega arith) refl))
      (Rw.run 0 (omega arith) refl)
