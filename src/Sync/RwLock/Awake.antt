-- ===== src/Sync/RwLock/Awake.antt =====
-- In every reachable state of a readers-writer lock the sleeping threads are queued, and a semaphore
-- that is not taken has a thread awake before its pass, or no waiters.
use core_z_os.Base.{
  ℕ, ◌+◌, ◌-◌, ◌%◌, ◌^◌, ◌≤◌, ◌<◌, ◌≡◌, ◌≢◌, refl, ap, ◌∙◌, inl, inr, false, Bool-cases, arith,
  update, ◌==◌, if◌then◌else◌, sum_over, sum_over-ne-zero,
}
use native.Mathlib.Decide.{ℕ_discrete}
use core_z_os.Sync.RwLock.{
  RwLock, Pc, outside, r_gate, r_rmutex, r_count, r_wlock, r_rmutex_up, r_gate_up, reading,
  x_rmutex, x_count, x_wlock_up, x_rmutex_up, w_gate, w_wlock, writing, v_wlock_up, v_gate_up,
  advance, System, wake, goes, read_acquire, write_acquire, read_release, write_release, run, Reach,
  here, next,
}
use core_z_os.Sync.RwLock.Inv.{is_first, Inv, Reach-Inv}
use core_z_os.Sync.RwLock.Safety.{first_reader_goes_through}
use core_z_os.Sync.RwLock.Queues.{
  at_gate, at_rmutex, at_wlock, at_any, AllQueues, start-AllQueues, goes-Queues,
}
use core_z_os.Sync.RwLock.Wakes.{
  pass_gate, pass_rmutex, pass_wlock, up_gate_lem, up_rmutex_lem, up_wlock_lem, plain_lem,
}

-- The values of the semaphores.
record Binary (rw : RwLock) : Type 0 where
  gate : rw.gate.value ≤ 1
  rmutex : rw.rmutex.value ≤ 1
  wlock : rw.wlock.value ≤ 1

Reach-Binary : {n : ℕ} {s : System} → n < 2 ^ 32 → Reach n s → Binary s.rw
Reach-Binary {n} {s} h r = record {
  gate = omega (arith, inv.gate);
  rmutex = omega (arith, inv.rmutex);
  wlock = elim (ℕ_discrete (sum_over is_first n s.pc) 0) [
    | yes z ↦ omega (arith, inv.wlock, z)
    | no f ↦
        let (j, l, w) = sum_over-ne-zero is_first n s.pc f in
        omega (arith, first_reader_goes_through h r j (first (s.pc j) w))
  ];
}
  where
    inv : Inv n s
    inv = Reach-Inv h r

    first : (p : Pc) → is_first p ≢ 0 → p ≡ r_wlock
    first r_wlock w = refl
    first p w = absurd (ground (arith, w))

-- The state after a step of thread i, which is at p.
abbrev after : System → ℕ → Pc → System
after s i p =
    let (p', rw, blocked, woken) = advance i p s.rw in
    record { rw = rw; pc = update s.pc i p'; asleep = wake woken (update s.asleep i blocked) }

run-AllQueues :
    (s : System) (i : ℕ) (p : Pc)
    → s.pc i ≡ p
    → s.asleep i ≡ false
    → Binary s.rw
    → AllQueues s
    → AllQueues (after s i p)
unfolding advance
run-AllQueues s i r_gate e up v q = pass_gate s i up q r_rmutex r_gate e refl refl refl v.gate
run-AllQueues s i r_rmutex e up v q =
    pass_rmutex s i up q r_count r_rmutex e refl refl refl v.rmutex
run-AllQueues s i r_count e up v q =
    plain_lem s i up q (if (s.rw.readers + 1) % 2 ^ 32 == 1 then r_wlock else r_rmutex_up)
      ((s.rw.readers + 1) % 2 ^ 32) (ap at_any e)
run-AllQueues s i r_wlock e up v q =
    pass_wlock s i up q r_rmutex_up r_wlock e refl refl refl v.wlock
run-AllQueues s i r_rmutex_up e up v q = up_rmutex_lem s i up q r_gate_up (ap at_any e)
run-AllQueues s i r_gate_up e up v q = up_gate_lem s i up q reading (ap at_any e)
run-AllQueues s i x_rmutex e up v q =
    pass_rmutex s i up q x_count x_rmutex e refl refl refl v.rmutex
run-AllQueues s i x_count e up v q =
    plain_lem s i up q
      (if (s.rw.readers + 2 ^ 32 - 1) % 2 ^ 32 == 0 then x_wlock_up else x_rmutex_up)
      ((s.rw.readers + 2 ^ 32 - 1) % 2 ^ 32) (ap at_any e)
run-AllQueues s i x_wlock_up e up v q = up_wlock_lem s i up q x_rmutex_up (ap at_any e)
run-AllQueues s i x_rmutex_up e up v q = up_rmutex_lem s i up q outside (ap at_any e)
run-AllQueues s i w_gate e up v q = pass_gate s i up q w_wlock w_gate e refl refl refl v.gate
run-AllQueues s i w_wlock e up v q = pass_wlock s i up q writing w_wlock e refl refl refl v.wlock
run-AllQueues s i v_wlock_up e up v q = up_wlock_lem s i up q v_gate_up (ap at_any e)
run-AllQueues s i v_gate_up e up v q = up_gate_lem s i up q outside (ap at_any e)
run-AllQueues s i outside e up v q = plain_lem s i up q outside s.rw.readers (ap at_any e)
run-AllQueues s i reading e up v q = plain_lem s i up q reading s.rw.readers (ap at_any e)
run-AllQueues s i writing e up v q = plain_lem s i up q writing s.rw.readers (ap at_any e)

-- A thread that is not before a pass is awake.
awake_at :
    {s : System} → AllQueues s → (i : ℕ) (p : Pc) → s.pc i ≡ p → at_any p ≡ 0 → s.asleep i ≡ false
awake_at {s} q i p e z = elim (Bool-cases (s.asleep i)) [
  | inl t ↦ absurd (omega (arith, q.calm i t, ap at_any e, z))
  | inr f ↦ f
]

goes-AllQueues :
    {s : System} (i : ℕ) (p p' : Pc)
    → s.pc i ≡ p
    → at_any p ≡ 0
    → AllQueues s
    → AllQueues (goes i p' s)
goes-AllQueues {s} i p p' e z q =
    let up = awake_at q i p e z in
    let out : at_any (s.pc i) ≡ 0 = ap at_any e ∙ z in
    record {
      gate = goes-Queues at_gate s.rw.gate s.pc s.asleep i p' up (omega (arith, out)) q.gate;
      rmutex =
          goes-Queues at_rmutex s.rw.rmutex s.pc s.asleep i p' up (omega (arith, out)) q.rmutex;
      wlock = goes-Queues at_wlock s.rw.wlock s.pc s.asleep i p' up (omega (arith, out)) q.wlock;
      calm = λ j f. ground (arith, q.calm j f, up, f);
    }

pub Reach-AllQueues : {n : ℕ} {s : System} → n < 2 ^ 32 → Reach n s → AllQueues s
Reach-AllQueues h here = start-AllQueues
Reach-AllQueues h (next r (read_acquire i l e)) =
    goes-AllQueues i outside r_gate e refl (Reach-AllQueues h r)
Reach-AllQueues h (next r (write_acquire i l e)) =
    goes-AllQueues i outside w_gate e refl (Reach-AllQueues h r)
Reach-AllQueues h (next r (read_release i l e)) =
    goes-AllQueues i reading x_rmutex e refl (Reach-AllQueues h r)
Reach-AllQueues h (next r (write_release i l e)) =
    goes-AllQueues i writing v_wlock_up e refl (Reach-AllQueues h r)
Reach-AllQueues h (next {s = s} r (run i l up)) =
    run-AllQueues s i (s.pc i) refl up (Reach-Binary h r) (Reach-AllQueues h r)
