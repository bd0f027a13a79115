-- ===== src/Futex/Timeout.antt =====
-- The timeouts of kernel/syscall/futex.c.
use core_z_os.Base.{
  ℕ, ◌+◌, ◌*◌, ◌≤◌, ◌<◌, ◌≡◌, ◌↔◌, ◌⊎◌, Bool, true, false, some, arith, ltb, leb, ◌==◌,
  if◌then◌else◌, List,
}
use core_z_os.Base.Int.{pos}
use core_z_os.Futex.{Clock, ticks_of, ns_left, futex_parse_timeout, Waiter, futex_do_wait, failed}

-- The ticks for a time that is left.
left_in_ticks : ℕ → ℕ
left_in_ticks ns = if ns == 0 then 0 else ticks_of ns

parse-relative :
    (clock : Clock) (realtime : Bool) (sec nsec : ℕ)
    → sec ≤ 100000000
    → nsec < 1000000000
    → futex_parse_timeout clock (pos sec) (pos nsec) false realtime
      ≡ some (left_in_ticks (sec * 1000000000 + nsec))
unfolding futex_parse_timeout ns_left left_in_ticks
parse-relative clock realtime sec nsec s n =
    rw
      (
        let e : ltb 100000000 sec ≡ false = ground (arith, s) in e,
        let e : leb 1000000000 nsec ≡ false = ground (arith, n) in e,
      )
      (ground arith)

left-zero : (ns : ℕ) → (left_in_ticks ns ≡ 0) ↔ (ns ≡ 0)
unfolding left_in_ticks ticks_of
left-zero ns = (λ e. ground (arith, e), λ e. ground (arith, e))

left-bounds :
    (ns : ℕ)
    → (left_in_ticks ns ≡ 0x7fffffff)
      ⊎ (((left_in_ticks ns * 10000000 ≤ ns) ⊎ (left_in_ticks ns ≡ 1))
          × (ns < (left_in_ticks ns + 1) * 10000000))
unfolding left_in_ticks ticks_of
left-bounds ns = ground arith

-- A relative timeout of at most 10^8 seconds, and less than 10^9 nanoseconds: no ticks exactly for no
-- time; else the whole ticks of 10 ms, but one for less than a tick and 2^31 - 1 for too many.
pub relative_timeout :
    (clock : Clock) (realtime : Bool) (sec nsec : ℕ)
    → sec ≤ 100000000
    → nsec < 1000000000
    → (t : ℕ) × (futex_parse_timeout clock (pos sec) (pos nsec) false realtime ≡ some t)
      × ((t ≡ 0) ↔ (sec * 1000000000 + nsec ≡ 0))
      × ((t ≡ 0x7fffffff)
          ⊎ (((t * 10000000 ≤ sec * 1000000000 + nsec) ⊎ (t ≡ 1))
              × (sec * 1000000000 + nsec < (t + 1) * 10000000)))
relative_timeout clock realtime sec nsec s n = (
  left_in_ticks (sec * 1000000000 + nsec),
  parse-relative clock realtime sec nsec s n,
  left-zero (sec * 1000000000 + nsec),
  left-bounds (sec * 1000000000 + nsec),
)

-- A wait with an absolute deadline on the real clock, once that clock is past 10 ^ 8 seconds:
-- whatever the deadline, of seconds and fewer than 10 ^ 9 nanoseconds, the timeout is no ticks,
-- and the wait fails with ETIMEDOUT at once where the word has the value.
pub realtime_expired :
    (clock : Clock) (sec nsec : ℕ) (w : Waiter) (val : ℕ) (b : List (List Waiter))
    → 100000000 < clock.unix
    → nsec < 1000000000
    → (futex_parse_timeout clock (pos sec) (pos nsec) true true ≡ some 0)
      × (futex_do_wait w val val true 0 b ≡ failed 110)
unfolding futex_parse_timeout ns_left futex_do_wait
realtime_expired clock sec nsec w val b u n = (ground (arith, u, n), ground arith)
