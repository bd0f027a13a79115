-- ===== src/Sync/RwLock/Queues.antt =====
-- Who sleeps in which `sema_down` of a readers-writer lock.
use core_z_os.Base.{
  ℕ, ◌+◌, ◌≤◌, ◌≡◌, ◌≢◌, refl, ◌⊎◌, inl, inr, Bool, true, false, not, Option, none, some, List, [],
  ◌∷◌, arith, update, ◌==◌, if◌then◌else◌, count, count-append,
}
use native.Mathlib.Decide.{ℕ_discrete}
use core_z_os.Sync.Sema.{Sema, sema_init, sema_down_pass, sema_up}
use core_z_os.Sync.RwLock.{
  rwlock_init, Pc, outside, r_gate, r_rmutex, r_wlock, x_rmutex, w_gate, w_wlock, System, wake,
  start,
}

-- The passes of each semaphore.
abbrev pub at_gate : Pc → ℕ
at_gate r_gate = 1
at_gate w_gate = 1
at_gate _ = 0

abbrev pub at_rmutex : Pc → ℕ
at_rmutex r_rmutex = 1
at_rmutex x_rmutex = 1
at_rmutex _ = 0

abbrev pub at_wlock : Pc → ℕ
at_wlock r_wlock = 1
at_wlock w_wlock = 1
at_wlock _ = 0

-- A semaphore's waiters are the threads that sleep in its passes; where it has waiters and is not
-- taken, a thread is awake before a pass.
pub record Queues (at : Pc → ℕ) (sema : Sema) (pc : ℕ → Pc) (asleep : ℕ → Bool) : Type 0 where
  pub queued : (i : ℕ) → count i sema.waiters ≡ (if asleep i then at (pc i) else 0)
  pub awake :
      (sema.value ≡ 0) ⊎ ((sema.waiters ≡ []) ⊎ ((j : ℕ) × (at (pc j) ≡ 1) × (asleep j ≡ false)))

-- A thread moves without touching the semaphore, and may wake one that does not wait for it.
pub other-Queues :
    (at : Pc → ℕ) (sema : Sema) (pc : ℕ → Pc) (asleep : ℕ → Bool) (i : ℕ) (p' : Pc) (blocked : Bool)
    → asleep i ≡ false
    → at (pc i) ≡ 0
    → (blocked ≡ true → at p' ≡ 0)
    → Queues at sema pc asleep
    → Queues at sema (update pc i p') (update asleep i blocked)
other-Queues at sema pc asleep i p' blocked up out quiet q = record {
  queued = λ j. ground (arith, q.queued j, up, quiet);
  awake = elim q.awake [
    | inl v ↦ inl v
    | inr (inl e) ↦ inr (inl e)
    | inr (inr (j, a, w)) ↦ inr (inr (j, ground (arith, a, out), ground (arith, a, out, w)))
  ];
}

wake-Queues :
    (at : Pc → ℕ) (sema : Sema) (pc : ℕ → Pc) (asleep : ℕ → Bool) (w : ℕ)
    → at (pc w) ≡ 0
    → Queues at sema pc asleep
    → Queues at sema pc (update asleep w false)
wake-Queues at sema pc asleep w out q = record {
  queued = λ j. ground (arith, q.queued j, out);
  awake = elim q.awake [
    | inl v ↦ inl v
    | inr (inl e) ↦ inr (inl e)
    | inr (inr (j, a, k)) ↦ inr (inr (j, a, ground (arith, k)))
  ];
}

-- A pass of `sema_down`.
pub pass-Queues :
    (at : Pc → ℕ) (sema : Sema) (pc : ℕ → Pc) (asleep : ℕ → Bool) (i : ℕ) (go stay : Pc)
    → asleep i ≡ false
    → at stay ≡ 1
    → sema.value ≤ 1
    → Queues at sema pc asleep
    → Queues at
        (sema_down_pass i sema).1
        (update pc i (if (sema_down_pass i sema).0 then go else stay))
        (update asleep i (not (sema_down_pass i sema).0))
unfolding sema_down_pass
pass-Queues at sema pc asleep i go stay up is small q = elim (ℕ_discrete sema.value 0) [
  | yes z ↦
      let t : (sema.value == 0) ≡ true = ground (arith, z) in
      rw (t) (record {
        queued = λ j.
            ground (arith, q.queued j, q.queued i, up, is, count-append sema.waiters (i ∷ []) j);
        awake = inl z;
      })
  | no n ↦
      let t : (sema.value == 0) ≡ false = ground (arith, n) in
      rw (t) (record {
        queued = λ j. ground (arith, q.queued j, q.queued i, up);
        awake = inl (omega (arith, small, n));
      })
]

-- `sema_up`.
pub up-Queues :
    (at : Pc → ℕ) (value : ℕ) (waiters : List ℕ) (pc : ℕ → Pc) (asleep : ℕ → Bool) (i : ℕ) (go : Pc)
    → asleep i ≡ false
    → at (pc i) ≡ 0
    → ((j : ℕ) → at (pc j) ≤ 1)
    → Queues at (record { value = value; waiters = waiters }) pc asleep
    → Queues at
        (sema_up (record { value = value; waiters = waiters })).1
        (update pc i go)
        (wake (sema_up (record { value = value; waiters = waiters })).0 (update asleep i false))
unfolding sema_up
up-Queues at value [] pc asleep i go up out one q = record {
  queued = λ j. ground (arith, q.queued j, up);
  awake = inr (inl refl);
}
up-Queues at value (w ∷ ws) pc asleep i go up out one q = record {
  queued = λ j. ground (arith, q.queued j, q.queued w, one w, up);
  awake = inr (inr (w, ground (arith, q.queued w, one w, up, out), ground arith));
}

-- The caller begins an operation.
pub goes-Queues :
    (at : Pc → ℕ) (sema : Sema) (pc : ℕ → Pc) (asleep : ℕ → Bool) (i : ℕ) (p' : Pc)
    → asleep i ≡ false
    → at (pc i) ≡ 0
    → Queues at sema pc asleep
    → Queues at sema (update pc i p') asleep
goes-Queues at sema pc asleep i p' up out q = record {
  queued = λ j. ground (arith, q.queued j, up);
  awake = elim q.awake [
    | inl v ↦ inl v
    | inr (inl e) ↦ inr (inl e)
    | inr (inr (j, a, w)) ↦ inr (inr (j, ground (arith, a, out), w))
  ];
}

-- Which passes a thread is before: one at most.
abbrev pub at_any : Pc → ℕ
at_any p = at_gate p + at_rmutex p + at_wlock p

pub record AllQueues (s : System) : Type 0 where
  pub gate : Queues at_gate s.rw.gate s.pc s.asleep
  pub rmutex : Queues at_rmutex s.rw.rmutex s.pc s.asleep
  pub wlock : Queues at_wlock s.rw.wlock s.pc s.asleep
  pub calm : (i : ℕ) → s.asleep i ≡ true → at_any (s.pc i) ≡ 1

pub start-AllQueues : AllQueues start
unfolding rwlock_init sema_init
start-AllQueues = record {
  gate = none_wait;
  rmutex = none_wait;
  wlock = none_wait;
  calm = λ i e. cc;
}
  where
    none_wait : {at : Pc → ℕ} → Queues at (sema_init 1) (λ _. outside) (λ _. false)
    none_wait {at} = record { queued = λ i. refl; awake = inr (inl refl) }

pub at_gate-le : (p : Pc) → at_gate p ≤ 1
at_gate-le p = ground arith

pub at_rmutex-le : (p : Pc) → at_rmutex p ≤ 1
at_rmutex-le p = ground arith

pub at_wlock-le : (p : Pc) → at_wlock p ≤ 1
at_wlock-le p = ground arith

pub at_any-le : (p : Pc) → at_any p ≤ 1
at_any-le p = ground arith

-- A wake-up of a thread before a pass of one semaphore, for another semaphore.
pub Queues-woken :
    (at : Pc → ℕ) (sema : Sema) (pc : ℕ → Pc) (asleep : ℕ → Bool) (woken : Option ℕ)
    → ((w : ℕ) → woken ≡ some w → at (pc w) ≡ 0)
    → Queues at sema pc asleep
    → Queues at sema pc (wake woken asleep)
Queues-woken at sema pc asleep none out q = q
Queues-woken at sema pc asleep (some w) out q = wake-Queues at sema pc asleep w (out w refl) q

pub calm-woken :
    (pc : ℕ → Pc) (asleep : ℕ → Bool) (woken : Option ℕ)
    → ((i : ℕ) → asleep i ≡ true → at_any (pc i) ≡ 1)
    → (i : ℕ) → wake woken asleep i ≡ true
    → at_any (pc i) ≡ 1
calm-woken pc asleep none c i e = c i e
calm-woken pc asleep (some w) c i e = ground (arith, c i, e)

-- The task that a `sema_up` wakes waits for that semaphore.
pub woken-at :
    (at : Pc → ℕ) (value : ℕ) (waiters : List ℕ) (pc : ℕ → Pc) (asleep : ℕ → Bool) (w : ℕ)
    → Queues at (record { value = value; waiters = waiters }) pc asleep
    → (sema_up (record { value = value; waiters = waiters })).0 ≡ some w
    → (at (pc w) ≢ 0) × (asleep w ≡ true)
unfolding sema_up
woken-at at value [] pc asleep w q e = absurd cc
woken-at at value (v ∷ ws) pc asleep w q e =
    let same : v ≡ w = ground (arith, e) in
    (ground (arith, q.queued w, same), ground (arith, q.queued w, same))

pub calm-update :
    (at : Pc → ℕ) (pc : ℕ → Pc) (asleep : ℕ → Bool) (i : ℕ) (p' : Pc) (blocked : Bool)
    → (blocked ≡ true → at p' ≡ 1)
    → ((j : ℕ) → asleep j ≡ true → at (pc j) ≡ 1)
    → asleep i ≡ false
    → (j : ℕ) → update asleep i blocked j ≡ true
    → at (update pc i p' j) ≡ 1
calm-update at pc asleep i p' blocked f c up j e = ground (arith, f, c j, e)
