-- ===== src/Sync/Lock/Inv.antt =====
-- The invariant of a lock and its threads, and that each way an operation can end keeps it.
use core_z_os.Base.{
  ◌^◌, ℕ, suc, ◌+◌, ◌-◌, ◌≤◌, ◌<◌, ◌≡◌, ◌≢◌, refl, ◌⊎◌, inl, inr, Bool, false, Option, none, some,
  List, [], ◌∷◌, ◌++◌, arith, update, sum_over, sum_over-update, sum_over-const, le-sum_over, count,
  count-append,
}
use core_z_os.Sync.Lock.{Lock, lock_init}
use core_z_os.Sync.Lock.System.{Pc, run, wanting, asleep, System, start}

-- How often a thread has taken the lock.
abbrev pub depth : Pc → ℕ
depth (run d) = d
depth _ = 0

abbrev pub holds : Pc → ℕ
holds (run (suc d)) = 1
holds _ = 0

abbrev pub is_wanting : Pc → ℕ
is_wanting wanting = 1
is_wanting _ = 0

abbrev pub is_asleep : Pc → ℕ
is_asleep asleep = 1
is_asleep _ = 0

-- The holder's number and the count belong to the thread that holds the lock.
abbrev pub Held : Lock → ℕ → Pc → Type 0
Held lk i (run (suc d)) = (lk.holder ≡ some i) × (lk.holder_repeat_nr ≡ suc d) × (suc d < 2 ^ 32)
Held lk i _ = lk.holder ≢ some i

pub record Inv (n : ℕ) (s : System) : Type 0 where
  pub calm : s.panicked ≡ false
  pub conserved : s.lock.sema.value + sum_over holds n s.pc ≡ 1
  pub free : (s.lock.sema.value ≡ 0) ⊎ ((s.lock.holder ≡ none) × (s.lock.holder_repeat_nr ≡ 0))
  pub held : (i : ℕ) → Held s.lock i (s.pc i)
  pub queued : (i : ℕ) → count i s.lock.sema.waiters ≡ is_asleep (s.pc i)
  pub idle : (i : ℕ) → n ≤ i → s.pc i ≡ run 0
  pub awake : (s.lock.sema.waiters ≡ []) ⊎ (s.lock.sema.value ≤ sum_over is_wanting n s.pc)

pub Inv-start : (n : ℕ) → Inv n start
unfolding lock_init
Inv-start n = record {
  calm = refl;
  conserved = omega (arith, sum_over-const holds n (run 0) refl);
  free = inr (refl, refl);
  held = λ i e. cc;
  queued = λ i. refl;
  idle = λ i l. refl;
  awake = inl refl;
}

pub contend-Inv :
    {n : ℕ} {s : System} (i : ℕ)
    → i < n
    → s.pc i ≡ run 0
    → Inv n s
    → Inv n (record s { pc = update s.pc i wanting })
contend-Inv {n} {s} i l e inv = record {
  calm = inv.calm;
  conserved = ground (arith, inv.conserved, sum_over-update holds n s.pc i wanting l);
  free = inv.free;
  held = λ j. ground (arith, inv.held j, inv.held i);
  queued = λ j. ground (arith, inv.queued j, inv.queued i);
  idle = λ j h. ground (arith, inv.idle j h);
  awake = ground (arith, inv.awake, sum_over-update is_wanting n s.pc i wanting l);
}

pub nested-Inv :
    {n : ℕ} {s : System} (i d : ℕ)
    → i < n
    → s.pc i ≡ run (suc d)
    → suc (suc d) < 2 ^ 32
    → Inv n s
    → Inv n (record {
      lock = record s.lock { holder_repeat_nr = suc (suc d) };
      pc = update s.pc i (run (suc (suc d)));
      panicked = s.panicked;
    })
nested-Inv {n} {s} i d l e b inv = record {
  calm = inv.calm;
  conserved = ground (arith, inv.conserved, sum_over-update holds n s.pc i (run (suc (suc d))) l);
  free = ground (arith, inv.held i, inv.free);
  held = λ j. ground (arith, inv.held j, inv.held i);
  queued = λ j. ground (arith, inv.queued j, inv.queued i);
  idle = λ j h. ground (arith, inv.idle j h);
  awake = ground (arith, inv.awake, sum_over-update is_wanting n s.pc i (run (suc (suc d))) l);
}

pub blocked-Inv :
    {n : ℕ} {s : System} (i : ℕ)
    → i < n
    → s.pc i ≡ wanting
    → s.lock.sema.value ≡ 0
    → Inv n s
    → Inv n (record {
      lock = record s.lock {
        sema = record s.lock.sema { waiters = s.lock.sema.waiters ++ i ∷ [] };
      };
      pc = update s.pc i asleep;
      panicked = s.panicked;
    })
blocked-Inv {n} {s} i l e z inv = record {
  calm = inv.calm;
  conserved = ground (arith, inv.conserved, sum_over-update holds n s.pc i asleep l);
  free = inl z;
  held = λ j. ground (arith, inv.held j, inv.held i);
  queued =
      λ j. ground (arith, inv.queued j, inv.queued i, count-append s.lock.sema.waiters (i ∷ []) j);
  idle = λ j h. ground (arith, inv.idle j h);
  awake = inr (omega arith);
}

pub taken-Inv :
    {n : ℕ} {s : System} (i : ℕ)
    → i < n
    → s.pc i ≡ wanting
    → s.lock.sema.value ≢ 0
    → Inv n s
    → Inv n (record {
      lock = record {
        holder = some i;
        sema = record s.lock.sema { value = s.lock.sema.value - 1 };
        holder_repeat_nr = 1;
      };
      pc = update s.pc i (run 1);
      panicked = s.panicked;
    })
taken-Inv {n} {s} i l e nz inv = record {
  calm = inv.calm;
  conserved = ground (arith, inv.conserved, sum_over-update holds n s.pc i (run 1) l);
  free = inl (omega (arith, inv.conserved));
  held = λ j. ground (arith, inv.held j, inv.free);
  queued = λ j. ground (arith, inv.queued j, inv.queued i);
  idle = λ j h. ground (arith, inv.idle j h);
  awake = inr (omega (arith, inv.conserved));
}

pub unnested-Inv :
    {n : ℕ} {s : System} (i d : ℕ)
    → i < n
    → s.pc i ≡ run (suc (suc d))
    → Inv n s
    → Inv n (record {
      lock = record s.lock { holder_repeat_nr = suc d };
      pc = update s.pc i (run (suc d));
      panicked = s.panicked;
    })
unnested-Inv {n} {s} i d l e inv = record {
  calm = inv.calm;
  conserved = ground (arith, inv.conserved, sum_over-update holds n s.pc i (run (suc d)) l);
  free = ground (arith, inv.held i, inv.free);
  held = λ j. ground (arith, inv.held j, inv.held i);
  queued = λ j. ground (arith, inv.queued j, inv.queued i);
  idle = λ j h. ground (arith, inv.idle j h);
  awake = ground (arith, inv.awake, sum_over-update is_wanting n s.pc i (run (suc d)) l);
}

-- The state with the queue in sight.
abbrev pub state : Option ℕ → ℕ → List ℕ → ℕ → (ℕ → Pc) → Bool → System
state h v ws k pc b = record {
  lock = record { holder = h; sema = record { value = v; waiters = ws }; holder_repeat_nr = k };
  pc = pc;
  panicked = b;
}

pub front_asleep :
    {n v w k : ℕ} {h : Option ℕ} {ws : List ℕ} {pc : ℕ → Pc} {b : Bool}
    → Inv n (state h v (w ∷ ws) k pc b)
    → (pc w ≡ asleep) × (w < n)
front_asleep {n} {w = w} {pc = pc} inv = (is, ground (arith, is, inv.idle w))
  where
    is : pc w ≡ asleep
    is = ground (arith, inv.queued w)

pub released_none-Inv :
    {n v k : ℕ} {h : Option ℕ} {pc : ℕ → Pc} {b : Bool} (i : ℕ)
    → i < n
    → pc i ≡ run 1
    → Inv n (state h v [] k pc b)
    → Inv n (state none (v + 1) [] 0 (update pc i (run 0)) b)
released_none-Inv {n} {pc = pc} i l e inv = record {
  calm = inv.calm;
  conserved = ground (arith, inv.conserved, sum_over-update holds n pc i (run 0) l);
  free = inr (refl, refl);
  held = λ j. ground (arith, inv.held j, inv.held i);
  queued = λ j. ground (arith, inv.queued j);
  idle = λ j h. ground (arith, inv.idle j h);
  awake = inl refl;
}

pub released_some-Inv :
    {n v w k : ℕ} {h : Option ℕ} {ws : List ℕ} {pc : ℕ → Pc} {b : Bool} (i : ℕ)
    → i < n
    → pc i ≡ run 1
    → (pc w ≡ asleep) × (w < n)
    → Inv n (state h v (w ∷ ws) k pc b)
    → Inv n (state none (v + 1) ws 0 (update (update pc i (run 0)) w wanting) b)
released_some-Inv {n} {v} {w} {pc = pc} i l e front inv = record {
  calm = inv.calm;
  conserved = ground (
    arith,
    inv.conserved,
    sum_over-update holds n pc i (run 0) l,
    sum_over-update holds n (update pc i (run 0)) w wanting front.1,
  );
  free = inr (refl, refl);
  held = λ j. ground (arith, inv.held j, inv.held i);
  queued = λ j. ground (arith, inv.queued j, inv.queued w);
  idle = λ j h. ground (arith, inv.idle j h);
  awake = inr (
      ground (
        arith,
        inv.conserved,
        le-sum_over holds n pc i l,
        le-sum_over is_wanting n (update (update pc i (run 0)) w wanting) w front.1,
      ));
}
