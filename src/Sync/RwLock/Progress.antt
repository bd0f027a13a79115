-- ===== src/Sync/RwLock/Progress.antt =====
-- A readers-writer lock never stands still while a thread is inside one of its operations.
use core_z_os.Base.{
  ℕ, ◌^◌, ◌<◌, ◌≡◌, ◌≢◌, refl, ap, ◌⊎◌, inl, inr, Bool, true, false, Bool-cases, arith, count,
  sum_over, sum_over-ne-zero, sum_over-add-le, le-sum_over,
}
use native.Mathlib.Decide.{ℕ_discrete}
use core_z_os.Sync.Sema.{Sema, sema_down_pass}
use core_z_os.Sync.RwLock.{
  RwLock, Pc, outside, r_gate, r_rmutex, x_rmutex, w_gate, r_wlock, reading, w_wlock, writing,
  advance, System, Reach,
}
use core_z_os.Sync.RwLock.Inv.{
  has_gate, has_rmutex, is_counted, is_writer, is_first, is_last, Inv, first-last-le, Reach-Inv,
}
use core_z_os.Sync.RwLock.Queues.{at_gate, at_rmutex, at_wlock, at_any, Queues, AllQueues}
use core_z_os.Sync.RwLock.Awake.{Reach-AllQueues}
use core_z_os.Sync.RwLock.Safety.{first_reader_goes_through}

-- A thread that is in a critical section of the caller's, or that its next step takes further.
abbrev pub Goes : ℕ → Pc → RwLock → Type 0
Goes i p rw = (p ≡ reading) ⊎ (p ≡ writing) ⊎ ((advance i p rw).0 ≢ p)

rmutex_goes :
    (i : ℕ) (p : Pc) (rw : RwLock)
    → has_rmutex p ≢ 0
    → (p ≡ r_wlock → rw.wlock.value ≢ 0)
    → (advance i p rw).0 ≢ p
unfolding advance sema_down_pass
rmutex_goes i r_wlock rw h w = ground (arith, w refl)
rmutex_goes i p rw h w = ground arith

counted-Goes :
    (i : ℕ) (p : Pc) (rw : RwLock)
    → is_counted p ≢ 0
    → has_rmutex p ≡ 0
    → rw.rmutex.value ≢ 0
    → Goes i p rw
unfolding advance sema_down_pass
counted-Goes i reading rw h r v = inl refl
counted-Goes i p rw h r v = inr (inr (ground arith))

writer-Goes : (i : ℕ) (p : Pc) (rw : RwLock) → is_writer p ≢ 0 → Goes i p rw
unfolding advance
writer-Goes i writing rw h = inr (inl refl)
writer-Goes i p rw h = inr (inr (ground arith))

gate-Goes :
    (i : ℕ) (p : Pc) (rw : RwLock)
    → has_gate p ≢ 0
    → has_rmutex p ≡ 0
    → rw.rmutex.value ≢ 0
    → (p ≡ w_wlock → rw.wlock.value ≢ 0)
    → Goes i p rw
unfolding advance sema_down_pass
gate-Goes i writing rw h r v w = inr (inl refl)
gate-Goes i w_wlock rw h r v w = inr (inr (ground (arith, w refl)))
gate-Goes i p rw h r v w = inr (inr (ground arith))

waiting-Goes :
    (i : ℕ) (p : Pc) (rw : RwLock)
    → p ≢ outside
    → has_gate p ≡ 0
    → has_rmutex p ≡ 0
    → rw.rmutex.value ≢ 0
    → rw.gate.value ≢ 0
    → Goes i p rw
unfolding advance sema_down_pass
waiting-Goes i reading rw o h r v w = inl refl
waiting-Goes i p rw o h r v w = inr (inr (ground arith))

module _ {n : ℕ} {s : System} (h : n < 2 ^ 32) (r : Reach n s) where
  inv : Inv n s
  inv = Reach-Inv h r

  abbrev Someone : Type 0
  Someone = (j : ℕ) × Goes j (s.pc j) s.rw

  -- A thread with `rmutex` goes on.
  rmutex_Someone : sum_over has_rmutex n s.pc ≢ 0 → Someone
  rmutex_Someone z =
      let (j, l, w) = sum_over-ne-zero has_rmutex n s.pc z in
      (j, inr (inr (rmutex_goes j (s.pc j) s.rw w (open_wlock j))))
    where
      open_wlock : (j : ℕ) → s.pc j ≡ r_wlock → s.rw.wlock.value ≢ 0
      open_wlock j e = omega (arith, first_reader_goes_through h r j e)

  -- A writer that waits for `wlock` waits for a reader or a writer, which goes on.
  wlock_Someone : sum_over has_rmutex n s.pc ≡ 0 → s.rw.wlock.value ≡ 0 → Someone
  wlock_Someone z v = elim (ℕ_discrete (sum_over is_writer n s.pc) 0) [
    | yes none_writes ↦
        (let (j, l, w) = sum_over-ne-zero is_counted n s.pc (reader none_writes) in
          (j, counted-Goes j (s.pc j) s.rw w (quiet j l) (omega (arith, inv.rmutex))))
    | no some_writes ↦
        (let (j, l, w) = sum_over-ne-zero is_writer n s.pc some_writes in
          (j, writer-Goes j (s.pc j) s.rw w))
  ]
    where
      quiet : (j : ℕ) → j < n → has_rmutex (s.pc j) ≡ 0
      quiet j l = omega (arith, le-sum_over has_rmutex n s.pc j l)

      reader : sum_over is_writer n s.pc ≡ 0 → sum_over is_counted n s.pc ≢ 0
      reader none_writes = omega (
        arith,
        inv.wlock,
        inv.readers,
        sum_over-add-le is_first is_last has_rmutex first-last-le n s.pc,
      )

  gate_Someone : sum_over has_rmutex n s.pc ≡ 0 → sum_over has_gate n s.pc ≢ 0 → Someone
  gate_Someone z g = elim (ℕ_discrete s.rw.wlock.value 0) [
    | yes v ↦ wlock_Someone z v
    | no v ↦
        (let (j, l, w) = sum_over-ne-zero has_gate n s.pc g in
          (
            j,
            gate-Goes j (s.pc j) s.rw w (omega (arith, le-sum_over has_rmutex n s.pc j l))
                (omega (arith, inv.rmutex)) (λ _. v),
          ))
  ]

  waiting_Someone :
      (i : ℕ)
      → s.pc i ≢ outside
      → sum_over has_rmutex n s.pc ≡ 0
      → sum_over has_gate n s.pc ≡ 0
      → Someone
  waiting_Someone i o z g = (
    i,
    waiting-Goes i (s.pc i) s.rw o (omega (arith, le-sum_over has_gate n s.pc i below))
        (omega (arith, le-sum_over has_rmutex n s.pc i below)) (omega (arith, inv.rmutex))
        (omega (arith, inv.gate)),
  )
    where
      below : i < n
      below = ground (arith, inv.idle i)

-- A semaphore that is not taken, with a thread asleep before its pass, has another awake there.
awake_before :
    (at : Pc → ℕ) (sema : Sema) (pc : ℕ → Pc) (asleep : ℕ → Bool) (j : ℕ)
    → Queues at sema pc asleep
    → sema.value ≢ 0
    → at (pc j) ≡ 1
    → asleep j ≡ true
    → (k : ℕ) × (at (pc k) ≡ 1) × (asleep k ≡ false)
awake_before at sema pc asleep j q v is down = elim q.awake [
  | inl z ↦ absurd (v z)
  | inr (inl e) ↦ absurd (ground (arith, q.queued j, ap (count j) e, is, down))
  | inr (inr k) ↦ k
]

-- A thread before a pass goes on where the semaphore is not taken, and only there.
open_gate : (i : ℕ) (p : Pc) (rw : RwLock) → at_gate p ≡ 1 → Goes i p rw → rw.gate.value ≢ 0
unfolding advance sema_down_pass
open_gate i r_gate rw is (inl e) z = absurd cc
open_gate i r_gate rw is (inr (inl e)) z = absurd cc
open_gate i r_gate rw is (inr (inr g)) z = ground (arith, g, z)
open_gate i w_gate rw is (inl e) z = absurd cc
open_gate i w_gate rw is (inr (inl e)) z = absurd cc
open_gate i w_gate rw is (inr (inr g)) z = ground (arith, g, z)
open_gate i p rw is g z = absurd (ground (arith, is))

open_rmutex : (i : ℕ) (p : Pc) (rw : RwLock) → at_rmutex p ≡ 1 → Goes i p rw → rw.rmutex.value ≢ 0
unfolding advance sema_down_pass
open_rmutex i r_rmutex rw is (inl e) z = absurd cc
open_rmutex i r_rmutex rw is (inr (inl e)) z = absurd cc
open_rmutex i r_rmutex rw is (inr (inr g)) z = ground (arith, g, z)
open_rmutex i x_rmutex rw is (inl e) z = absurd cc
open_rmutex i x_rmutex rw is (inr (inl e)) z = absurd cc
open_rmutex i x_rmutex rw is (inr (inr g)) z = ground (arith, g, z)
open_rmutex i p rw is g z = absurd (ground (arith, is))

open_wlock : (i : ℕ) (p : Pc) (rw : RwLock) → at_wlock p ≡ 1 → Goes i p rw → rw.wlock.value ≢ 0
unfolding advance sema_down_pass
open_wlock i r_wlock rw is (inl e) z = absurd cc
open_wlock i r_wlock rw is (inr (inl e)) z = absurd cc
open_wlock i r_wlock rw is (inr (inr g)) z = ground (arith, g, z)
open_wlock i w_wlock rw is (inl e) z = absurd cc
open_wlock i w_wlock rw is (inr (inl e)) z = absurd cc
open_wlock i w_wlock rw is (inr (inr g)) z = ground (arith, g, z)
open_wlock i p rw is g z = absurd (ground (arith, is))

gate_goes :
    (i : ℕ) (p : Pc) (rw : RwLock) → at_gate p ≡ 1 → rw.gate.value ≢ 0 → (advance i p rw).0 ≢ p
unfolding advance sema_down_pass
gate_goes i p rw is v = ground arith

rmutex_pass_goes :
    (i : ℕ) (p : Pc) (rw : RwLock) → at_rmutex p ≡ 1 → rw.rmutex.value ≢ 0 → (advance i p rw).0 ≢ p
unfolding advance sema_down_pass
rmutex_pass_goes i p rw is v = ground arith

wlock_goes :
    (i : ℕ) (p : Pc) (rw : RwLock) → at_wlock p ≡ 1 → rw.wlock.value ≢ 0 → (advance i p rw).0 ≢ p
unfolding advance sema_down_pass
wlock_goes i p rw is v = ground arith

-- A thread that is asleep is before the pass of one semaphore.
before_one : (p : Pc) → at_any p ≡ 1 → (at_gate p ≡ 1) ⊎ ((at_rmutex p ≡ 1) ⊎ (at_wlock p ≡ 1))
before_one r_gate e = inl refl
before_one w_gate e = inl refl
before_one r_rmutex e = inr (inl refl)
before_one x_rmutex e = inr (inl refl)
before_one r_wlock e = inr (inr refl)
before_one w_wlock e = inr (inr refl)
before_one p e = absurd (ground (arith, e))

awake_Someone :
    (s : System)
    → AllQueues s
    → (j : ℕ) → Goes j (s.pc j) s.rw
    → (k : ℕ) × (s.asleep k ≡ false) × Goes k (s.pc k) s.rw
awake_Someone s q j g = elim (Bool-cases (s.asleep j)) [
  | inr up ↦ (j, up, g)
  | inl down ↦ elim (before_one (s.pc j) (q.calm j down)) [
    | inl is ↦
        (let v = open_gate j (s.pc j) s.rw is g in
          let (k, at, up) = awake_before at_gate s.rw.gate s.pc s.asleep j q.gate v is down in
          (k, up, inr (inr (gate_goes k (s.pc k) s.rw at v))))
    | inr (inl is) ↦
        (let v = open_rmutex j (s.pc j) s.rw is g in
          let (k, at, up) = awake_before at_rmutex s.rw.rmutex s.pc s.asleep j q.rmutex v is down in
          (k, up, inr (inr (rmutex_pass_goes k (s.pc k) s.rw at v))))
    | inr (inr is) ↦
        (let v = open_wlock j (s.pc j) s.rw is g in
          let (k, at, up) = awake_before at_wlock s.rw.wlock s.pc s.asleep j q.wlock v is down in
          (k, up, inr (inr (wlock_goes k (s.pc k) s.rw at v))))
  ]
]

-- In every reachable state of fewer than 2 ^ 32 threads over a readers-writer lock where some thread
-- is not outside it, a thread that is awake is in a critical section or has a step that takes it further.
pub rwlock_no_deadlock :
    {n : ℕ} {s : System}
    → n < 2 ^ 32
    → Reach n s
    → (i : ℕ) → s.pc i ≢ outside
    → (j : ℕ) × (s.asleep j ≡ false) × Goes j (s.pc j) s.rw
rwlock_no_deadlock {n} {s} h r i o =
    let (j, g) = one_goes in awake_Someone s (Reach-AllQueues h r) j g
  where
    one_goes : (j : ℕ) × Goes j (s.pc j) s.rw
    one_goes = elim (ℕ_discrete (sum_over has_rmutex n s.pc) 0) [
      | yes z ↦ elim (ℕ_discrete (sum_over has_gate n s.pc) 0) [
        | yes g ↦ waiting_Someone h r i o z g
        | no g ↦ gate_Someone h r z g
      ]
      | no z ↦ rmutex_Someone h r z
    ]
