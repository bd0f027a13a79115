-- ===== src/Sync/Sema/Safety.antt =====
-- What holds of a semaphore in every reachable state.
use core_z_os.Base.{
  ℕ, ◌+◌, ◌≤◌, ◌<◌, ◌≡◌, ◌≢◌, refl, ◌⊎◌, inl, inr, List, [], ◌∷◌, arith, update, sum_over,
  sum_over-update, sum_over-const, sum_over-ne-zero, le-sum_over, count, count-append,
}
use native.Mathlib.Decide.{ℕ_discrete}
use core_z_os.Sync.Sema.{sema_init, sema_down_pass, sema_up}
use core_z_os.Sync.Sema.System.{
  Pc, outside, wanting, asleep, inside, System, down_by, up_by, Step, call, down, up, start, Reach,
  here, next,
}

abbrev pub is_inside : Pc → ℕ
is_inside inside = 1
is_inside _ = 0

abbrev is_wanting : Pc → ℕ
is_wanting wanting = 1
is_wanting _ = 0

abbrev is_asleep : Pc → ℕ
is_asleep asleep = 1
is_asleep _ = 0

record Inv (n k : ℕ) (s : System) : Type 0 where
  small : k < 256
  conserved : s.sema.value + sum_over is_inside n s.pc ≡ k
  queued : (i : ℕ) → count i s.sema.waiters ≡ is_asleep (s.pc i)
  idle : (i : ℕ) → n ≤ i → s.pc i ≡ outside
  awake : (s.sema.waiters ≡ []) ⊎ (s.sema.value ≤ sum_over is_wanting n s.pc)

Inv-start : (n k : ℕ) → k < 256 → Inv n k (start k)
unfolding sema_init
Inv-start n k h = record {
  small = h;
  conserved = omega (arith, sum_over-const is_inside n outside refl);
  queued = λ i. refl;
  idle = λ i l. refl;
  awake = inl refl;
}

call-Inv :
    {n k : ℕ} {s : System} (i : ℕ)
    → i < n
    → s.pc i ≡ outside
    → Inv n k s
    → Inv n k (record s { pc = update s.pc i wanting })
call-Inv {n} {k} {s} i l e inv = record {
  small = inv.small;
  conserved = ground (arith, inv.conserved, sum_over-update is_inside n s.pc i wanting l);
  queued = λ j. ground (arith, inv.queued j, inv.queued i);
  idle = λ j h. ground (arith, inv.idle j h);
  awake = ground (arith, inv.awake, sum_over-update is_wanting n s.pc i wanting l);
}

down-Inv :
    {n k : ℕ} {s : System} (i : ℕ) → i < n → s.pc i ≡ wanting → Inv n k s → Inv n k (down_by i s)
unfolding sema_down_pass
down-Inv {n} {k} {s} i l e inv = record {
  small = inv.small;
  conserved = ground (
    arith,
    inv.conserved,
    sum_over-update is_inside n s.pc i inside l,
    sum_over-update is_inside n s.pc i asleep l,
  );
  queued = λ j. ground (arith, inv.queued j, inv.queued i, count-append s.sema.waiters (i ∷ []) j);
  idle = λ j h. ground (arith, inv.idle j h);
  awake = ground (
    arith,
    inv.awake,
    sum_over-update is_wanting n s.pc i inside l,
    sum_over-update is_wanting n s.pc i asleep l,
  );
}

-- The semaphore and the threads, with the queue in sight.
abbrev state : ℕ → List ℕ → (ℕ → Pc) → System
state v ws pc = record { sema = record { value = v; waiters = ws }; pc = pc }

-- The thread at the head of the queue sleeps.
front_asleep :
    {n k v w : ℕ} {ws : List ℕ} {pc : ℕ → Pc}
    → Inv n k (state v (w ∷ ws) pc)
    → (pc w ≡ asleep) × (w < n)
front_asleep {n} {w} {pc} inv = (is, ground (arith, is, inv.idle w))
  where
    is : pc w ≡ asleep
    is = ground (arith, inv.queued w)

up-Inv_none :
    {n k v : ℕ} {pc : ℕ → Pc} (i : ℕ)
    → i < n
    → pc i ≡ inside
    → Inv n k (state v [] pc)
    → Inv n k (up_by i (state v [] pc))
unfolding sema_up
up-Inv_none {n} {k} {v} {pc} i l e inv = record {
  small = inv.small;
  conserved = ground (
    arith,
    inv.small,
    inv.conserved,
    sum_over-update is_inside n pc i outside l,
    le-sum_over is_inside n pc i l,
  );
  queued = λ j. ground (arith, inv.queued j);
  idle = λ j h. ground (arith, inv.idle j h);
  awake = inl refl;
}

up-Inv_some :
    {n k v w : ℕ} {ws : List ℕ} {pc : ℕ → Pc} (i : ℕ)
    → i < n
    → pc i ≡ inside
    → (pc w ≡ asleep) × (w < n)
    → Inv n k (state v (w ∷ ws) pc)
    → Inv n k (up_by i (state v (w ∷ ws) pc))
unfolding sema_up
up-Inv_some {n} {k} {v} {w} {ws} {pc} i l e front inv = record {
  small = inv.small;
  conserved = ground (
    arith,
    inv.small,
    inv.conserved,
    sum_over-update is_inside n pc i outside l,
    sum_over-update is_inside n (update pc i outside) w wanting front.1,
    le-sum_over is_inside n pc i l,
  );
  queued = λ j. ground (arith, inv.queued j, inv.queued w);
  idle = λ j h. ground (arith, inv.idle j h);
  awake = ground (
    arith,
    inv.awake,
    sum_over-update is_wanting n pc i outside l,
    sum_over-update is_wanting n (update pc i outside) w wanting front.1,
  );
}

up-Inv :
    {n k : ℕ} (v : ℕ) (ws : List ℕ) (pc : ℕ → Pc) (i : ℕ)
    → i < n
    → pc i ≡ inside
    → Inv n k (state v ws pc)
    → Inv n k (up_by i (state v ws pc))
up-Inv v [] pc i l e inv = up-Inv_none i l e inv
up-Inv v (w ∷ ws) pc i l e inv = up-Inv_some i l e (front_asleep inv) inv

Step-Inv : {n k : ℕ} {s t : System} → Step n s t → Inv n k s → Inv n k t
Step-Inv (call i l e) inv = call-Inv i l e inv
Step-Inv (down i l e) inv = down-Inv i l e inv
Step-Inv {s = s} (up i l e) inv = up-Inv s.sema.value s.sema.waiters s.pc i l e inv

Reach-Inv : {n k : ℕ} {s : System} → k < 256 → Reach n k s → Inv n k s
Reach-Inv {n} {k} h here = Inv-start n k h
Reach-Inv h (next r st) = Step-Inv st (Reach-Inv h r)

-- In every reachable state of n threads over a semaphore that began at k, below 256, its value and
-- the number of threads between `sema_down` and `sema_up` add up to k: the value never wraps, and
-- never more than k threads are inside.
pub sema_conserved :
    {n k : ℕ} {s : System} → k < 256 → Reach n k s → s.sema.value + sum_over is_inside n s.pc ≡ k
sema_conserved h r = (Reach-Inv h r).conserved

nonempty : (i : ℕ) (ws : List ℕ) → count i ws ≢ 0 → ws ≢ []
nonempty i [] h e = h refl
nonempty i (w ∷ ws) h e = cc

-- No wake-up is lost: in every reachable state of a semaphore that began below 256, where a thread
-- sleeps in `sema_down` and the value is not 0, a thread is awake and about to make its pass.
pub no_lost_wakeup :
    {n k : ℕ} {s : System} (i : ℕ)
    → k < 256
    → Reach n k s
    → s.pc i ≡ asleep
    → s.sema.value ≢ 0
    → (j : ℕ) × (s.pc j ≡ wanting)
no_lost_wakeup {n} {k} {s} i h r e v =
    let (j, l, w) = sum_over-ne-zero is_wanting n s.pc (ground (arith, inv.awake, queued)) in
    (j, ground arith)
  where
    inv : Inv n k s
    inv = Reach-Inv h r

    queued : s.sema.waiters ≢ []
    queued = nonempty i s.sema.waiters (ground (arith, inv.queued i))

-- No deadlock: in every reachable state of a semaphore that began above 0 and below 256, where a
-- thread sleeps in `sema_down`, some thread is about to make its pass or is between `sema_down` and
-- `sema_up`.
pub no_deadlock :
    {n k : ℕ} {s : System} (i : ℕ)
    → 0 < k
    → k < 256
    → Reach n k s
    → s.pc i ≡ asleep
    → (j : ℕ) × ((s.pc j ≡ wanting) ⊎ (s.pc j ≡ inside))
no_deadlock {n} {k} {s} i pos h r e = elim (ℕ_discrete s.sema.value 0) [
  | yes zero_value ↦ (let (j, l, w) = holder zero_value in (j, inr (ground arith)))
  | no v ↦ (let (j, w) = no_lost_wakeup i h r e v in (j, inl w))
]
  where
    inv : Inv n k s
    inv = Reach-Inv h r

    holder : s.sema.value ≡ 0 → (j : ℕ) × (j < n) × (is_inside (s.pc j) ≢ 0)
    holder z = sum_over-ne-zero is_inside n s.pc (omega (arith, inv.conserved))
