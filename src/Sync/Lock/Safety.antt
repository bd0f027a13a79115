-- ===== src/Sync/Lock/Safety.antt =====
-- What holds of a lock in every reachable state: mutual exclusion, assertions that never fail, and
-- no lost wake-up.
use native.Mathlib.Decide.{ℕ_discrete}
use core_z_os.Base.{
  ℕ, zero, suc, ◌+◌, ◌-◌, ◌^◌, ◌<◌, ◌≡◌, ◌≢◌, refl, ◌⊎◌, inl, inr, Bool, false, Option, none, some,
  List, [], ◌∷◌, ◌++◌, arith, sum_over-ne-zero, count,
}
use core_z_os.Sync.Lock.{
  Lock, done, contend, blocked, released, lock_enter, lock_pass, lock_release,
}
use core_z_os.Sync.Lock.System.{
  Pc, run, wanting, asleep, System, after_acquire, after_release, Step, enter, pass, leave, Reach,
  here, next,
}
use core_z_os.Sync.Lock.Inv.{
  holds, is_wanting, Inv, Inv-start, contend-Inv, nested-Inv, blocked-Inv, taken-Inv, unnested-Inv,
  state, front_asleep, released_none-Inv, released_some-Inv,
}

-- `lock_acquire` by a thread that does not hold the lock goes on to the loop.
lock_enter_free :
    {n : ℕ} {s : System} (i : ℕ) → s.pc i ≡ run 0 → Inv n s → lock_enter (some i) s.lock ≡ contend
unfolding lock_enter
lock_enter_free i e inv = ground (arith, inv.held i)

-- By the holder, it counts one more.
lock_enter_held :
    {n : ℕ} {s : System} (i d : ℕ)
    → s.pc i ≡ run (suc d)
    → suc (suc d) < 2 ^ 32
    → Inv n s
    → lock_enter (some i) s.lock ≡ done (record s.lock { holder_repeat_nr = suc (suc d) })
unfolding lock_enter
lock_enter_held i d e b inv = ground (arith, inv.held i)

enter-Inv :
    {n : ℕ} {s : System} (i d : ℕ)
    → i < n
    → s.pc i ≡ run d
    → suc d < 2 ^ 32
    → Inv n s
    → Inv n (after_acquire i d s (lock_enter (some i) s.lock))
enter-Inv i zero l e b inv = rw (lock_enter_free i e inv) (contend-Inv i l e inv)
enter-Inv i (suc d) l e b inv = rw (lock_enter_held i d e b inv) (nested-Inv i d l e b inv)

lock_pass_zero :
    (i : ℕ) (lk : Lock)
    → lk.sema.value ≡ 0
    → lock_pass i lk
      ≡ blocked (record lk { sema = record lk.sema { waiters = lk.sema.waiters ++ i ∷ [] } })
unfolding lock_pass
lock_pass_zero i lk z = ground arith

lock_pass_pos :
    (i : ℕ) (lk : Lock)
    → lk.sema.value ≢ 0
    → (lk.holder ≡ none) × (lk.holder_repeat_nr ≡ 0)
    → lock_pass i lk
      ≡ done (record {
        holder = some i;
        sema = record lk.sema { value = lk.sema.value - 1 };
        holder_repeat_nr = 1;
      })
unfolding lock_pass
lock_pass_pos i lk nz f = ground arith

pass-Inv :
    {n : ℕ} {s : System} (i : ℕ)
    → i < n
    → s.pc i ≡ wanting
    → Inv n s
    → Inv n (after_acquire i 0 s (lock_pass i s.lock))
pass-Inv {n} {s} i l e inv = elim (ℕ_discrete s.lock.sema.value 0) [
  | yes z ↦ rw (lock_pass_zero i s.lock z) (blocked-Inv i l e z inv)
  | no nz ↦ rw (lock_pass_pos i s.lock nz (free nz)) (taken-Inv i l e nz inv)
]
  where
    free : s.lock.sema.value ≢ 0 → (s.lock.holder ≡ none) × (s.lock.holder_repeat_nr ≡ 0)
    free nz = ground (arith, inv.free)

lock_release_nested :
    {n : ℕ} {s : System} (i d : ℕ)
    → s.pc i ≡ run (suc (suc d))
    → Inv n s
    → lock_release (some i) s.lock ≡ released none (record s.lock { holder_repeat_nr = suc d })
unfolding lock_release
lock_release_nested i d e inv = ground (arith, inv.held i)

lock_release-none :
    {n v k : ℕ} {h : Option ℕ} {pc : ℕ → Pc} {b : Bool} (i : ℕ)
    → i < n
    → pc i ≡ run 1
    → Inv n (state h v [] k pc b)
    → lock_release (some i) (state h v [] k pc b).lock
      ≡ released none (state none (v + 1) [] 0 pc b).lock
unfolding lock_release
lock_release-none i l e inv = ground (arith, inv.held i, inv.conserved)

lock_release-some :
    {n v w k : ℕ} {h : Option ℕ} {ws : List ℕ} {pc : ℕ → Pc} {b : Bool} (i : ℕ)
    → i < n
    → pc i ≡ run 1
    → Inv n (state h v (w ∷ ws) k pc b)
    → lock_release (some i) (state h v (w ∷ ws) k pc b).lock
      ≡ released (some w) (state none (v + 1) ws 0 pc b).lock
unfolding lock_release
lock_release-some i l e inv = ground (arith, inv.held i, inv.conserved)

last_leave-Inv :
    {n : ℕ} (h : Option ℕ) (v : ℕ) (ws : List ℕ) (k : ℕ) (pc : ℕ → Pc) (b : Bool) (i : ℕ)
    → i < n
    → pc i ≡ run 1
    → Inv n (state h v ws k pc b)
    → Inv n
        (after_release i 0 (state h v ws k pc b) (lock_release (some i) (state h v ws k pc b).lock))
last_leave-Inv h v [] k pc b i l e inv =
    rw (lock_release-none i l e inv) (released_none-Inv i l e inv)
last_leave-Inv h v (w ∷ ws) k pc b i l e inv =
    rw (lock_release-some i l e inv) (released_some-Inv i l e (front_asleep inv) inv)

leave-Inv :
    {n : ℕ} (s : System) (i d : ℕ)
    → i < n
    → s.pc i ≡ run (suc d)
    → Inv n s
    → Inv n (after_release i d s (lock_release (some i) s.lock))
leave-Inv s i zero l e inv =
    last_leave-Inv s.lock.holder s.lock.sema.value s.lock.sema.waiters s.lock.holder_repeat_nr s.pc
      s.panicked i l e inv
leave-Inv s i (suc d) l e inv = rw (lock_release_nested i d e inv) (unnested-Inv i d l e inv)

Step-Inv : {n : ℕ} {s t : System} → Step n s t → Inv n s → Inv n t
Step-Inv (enter i d l e b) inv = enter-Inv i d l e b inv
Step-Inv (pass i l e) inv = pass-Inv i l e inv
Step-Inv {s = s} (leave i d l e) inv = leave-Inv s i d l e inv

pub Reach-Inv : {n : ℕ} {s : System} → Reach n s → Inv n s
Reach-Inv {n} here = Inv-start n
Reach-Inv (next r st) = Step-Inv st (Reach-Inv r)

-- In every reachable state of threads over a lock: no assertion of `lock_acquire` or `lock_release`
-- has failed, and a thread that has taken the lock is its holder, with as many takes in
-- `holder_repeat_nr` as it has made. So two threads never hold it together.
pub lock_exclusion :
    {n : ℕ} {s : System}
    → Reach n s
    → (s.panicked ≡ false)
      × ((i d : ℕ)
          → s.pc i ≡ run (suc d)
          → (s.lock.holder ≡ some i) × (s.lock.holder_repeat_nr ≡ suc d))
      × ((i j d e : ℕ) → s.pc i ≡ run (suc d) → s.pc j ≡ run (suc e) → i ≡ j)
lock_exclusion {n} {s} r = (
  inv.calm,
  λ i d e. ground (arith, inv.held i),
  λ i j d e p q. ground (arith, inv.held i, inv.held j),
)
  where
    inv : Inv n s
    inv = Reach-Inv r

nonempty : (i : ℕ) (ws : List ℕ) → count i ws ≢ 0 → ws ≢ []
nonempty i [] h e = h refl
nonempty i (w ∷ ws) h e = cc

run_of_holds : (p : Pc) → holds p ≢ 0 → (d : ℕ) × (p ≡ run (suc d))
run_of_holds (run zero) h = absurd (h refl)
run_of_holds (run (suc d)) h = (d, refl)
run_of_holds wanting h = absurd (h refl)
run_of_holds asleep h = absurd (h refl)

-- No deadlock: in every reachable state where a thread sleeps in `lock_acquire`, another one is
-- about to make its pass of the loop, or holds the lock; and with the lock free it is the former.
pub lock_no_deadlock :
    {n : ℕ} {s : System} (i : ℕ)
    → Reach n s
    → s.pc i ≡ asleep
    → ((j : ℕ) × (s.pc j ≡ wanting))
      ⊎ ((j d : ℕ) × (s.pc j ≡ run (suc d)) × (s.lock.holder ≡ some j))
lock_no_deadlock {n} {s} i r e = elim (ℕ_discrete s.lock.sema.value 0) [
  | yes z ↦
      (let (j, l, w) = sum_over-ne-zero holds n s.pc (omega (arith, inv.conserved)) in
        let (d, q) = run_of_holds (s.pc j) w in inr (j, d, q, ground (arith, inv.held j)))
  | no nz ↦
      (let (j, l, w) = sum_over-ne-zero is_wanting n s.pc (ground (arith, inv.awake, queued)) in
        inl (j, ground arith))
]
  where
    inv : Inv n s
    inv = Reach-Inv r

    queued : s.lock.sema.waiters ≢ []
    queued = nonempty i s.lock.sema.waiters (ground (arith, inv.queued i))
