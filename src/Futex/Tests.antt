-- ===== src/Futex/Tests.antt =====
-- Runs of kernel/syscall/futex.c.
use core_z_os.Base.{ℕ, ◌≡◌, refl, Bool, true, some, arith, List, [], ◌∷◌, ◌++◌, map}
use core_z_os.Base.Int.{pos}
use core_z_os.Futex.{
  Clock, Waiter, futex_init, bucket, futex_bucket_for, futex_parse_timeout, futex_do_wait,
  futex_do_wake, wakes, sleeps, failed,
}
use core_z_os.Futex.Timeout.{realtime_expired}
use core_z_os.Futex.Wake.{select, task_of}
use core_z_os.Futex.Rendezvous.{futex_rendezvous}

abbrev sleeper : Waiter
sleeper = record { task = 3; uaddr = 4096; pml4 = 0; bitset = 1 }

-- In 2026.
abbrev today : Clock
today = record { unix = 1780000000; tick = 500 }

realtime_expired_example :
    (futex_parse_timeout today (pos 1780000005) (pos 0) true true ≡ some 0)
    × (futex_do_wait sleeper 1 1 true 0 futex_init ≡ failed 110)
realtime_expired_example =
    realtime_expired today 1780000005 0 sleeper 1 futex_init (omega arith) (omega arith)

abbrev all_wake : ℕ → Bool
all_wake t = true

futex_rendezvous_example :
    (b' : List (List Waiter)) × (futex_do_wait sleeper 1 1 true 7 futex_init ≡ sleeps 7 b')
    × ((futex_do_wake 4096 0 1 1 all_wake b').0
        ≡ map task_of
            (select (wakes 4096 0 1 all_wake) (bucket futex_init (futex_bucket_for 4096 0)))
          ++ 3 ∷ [])
unfolding futex_init futex_bucket_for wakes
futex_rendezvous_example =
    futex_rendezvous futex_init sleeper 1 7 1 1 true all_wake refl refl refl (omega arith)
      (omega arith)
