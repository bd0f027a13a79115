-- ===== src/Futex.antt =====
-- kernel/syscall/futex.c. What a call does while it holds a bucket's lock is one step; Sync.Spin
-- shows that such steps exclude one another. A task is a number.
pub mod Timeout
pub mod Wake
pub mod Rendezvous
mod Tests
use Prim.Native.Nat.{bit_and, bit_xor}
use core_z_os.Base.{
  ℕ, zero, suc, ◌+◌, ◌-◌, ◌*◌, ◌/◌, ◌%◌, ◌^◌, Bool, true, false, not, ◌&&◌, ◌||◌, Option, none,
  some, List, [], ◌∷◌, ◌++◌, ltb, leb, ◌==◌, if◌then◌else◌, length, set, get_or, replicate,
}
use core_z_os.Base.Int.{ℤ, pos, negsuc}

abbrev pub futex_buckets : ℕ
futex_buckets = 64

abbrev pub ns_per_sec : ℕ
ns_per_sec = 1000000000

-- `FUTEX_TICK_NS`, for 100 ticks in a second.
abbrev pub tick_ns : ℕ
tick_ns = ns_per_sec / 100

abbrev pub max_ticks : ℕ
max_ticks = 0x7fffffff

abbrev pub max_delta_sec : ℕ
max_delta_sec = 100000000

abbrev pub match_any : ℕ
match_any = 0xffffffff

-- What a task that waits has in its `futex_` fields.
pub record Waiter : Type 0 where
  pub task : ℕ
  pub uaddr : ℕ
  pub pml4 : ℕ
  pub bitset : ℕ

unfoldable pub futex_init : List (List Waiter)
futex_init = replicate futex_buckets []

-- The number of an address's bucket.
unfoldable pub futex_bucket_for : ℕ → ℕ → ℕ
futex_bucket_for uaddr pml4 = bit_xor pml4 (uaddr / 4) % futex_buckets

abbrev pub bucket : List (List Waiter) → ℕ → List Waiter
bucket b i = get_or b i []

-- The clocks: `rtc_unix_time()` and `tick`.
pub record Clock : Type 0 where
  pub unix : ℕ
  pub tick : ℕ

-- Nanoseconds in ticks, at least one and at most `max_ticks`.
unfoldable pub ticks_of : ℕ → ℕ
ticks_of ns =
    let t = ns / tick_ns in
    let t' = if t == 0 then 1 else t in if ltb max_ticks t' then max_ticks else t'

-- The nanoseconds that are left, where the code's are negative 0.
unfoldable pub ns_left : Clock → Bool → Bool → ℕ → ℕ → ℕ
ns_left clock absolute realtime sec nsec =
    let now_sec = if realtime then clock.unix else clock.tick / 100 in
    let now_ns = if realtime then 0 else clock.tick % 100 * tick_ns in
    if not absolute
    then sec * ns_per_sec + nsec
    else (sec * ns_per_sec + nsec) - (now_sec * ns_per_sec + now_ns)

-- None is -EINVAL.
unfoldable pub futex_parse_timeout : Clock → ℤ → ℤ → Bool → Bool → Option ℕ
futex_parse_timeout clock (negsuc s) nsec absolute realtime = none
futex_parse_timeout clock (pos s) (negsuc n) absolute realtime = none
futex_parse_timeout clock (pos s) (pos n) absolute realtime =
    let sec = if ltb max_delta_sec s then max_delta_sec else s in
    let ns = ns_left clock absolute realtime sec n in
    if leb ns_per_sec n then none else if ns == 0 then some 0 else some (ticks_of ns)

-- How a call ends: with an error number; with the tasks that `thread_unblock` was called on, whose
-- number it returns; or its task sleeps, for that many ticks, or without an end for 0.
pub data Result : Type 0 where
  failed : ℕ → Result
  woke : List ℕ → List (List Waiter) → Result
  sleeps : ℕ → List (List Waiter) → Result

abbrev pub eintr : ℕ
eintr = 4

abbrev pub eagain : ℕ
eagain = 11

abbrev pub einval : ℕ
einval = 22

abbrev pub enosys : ℕ
enosys = 38

abbrev pub etimedout : ℕ
etimedout = 110

-- `futex_do_wait` by the task up to where it sleeps; `word` is what stands at the address.
unfoldable pub futex_do_wait : Waiter → ℕ → ℕ → Bool → ℕ → List (List Waiter) → Result
futex_do_wait w word val has_timeout ticks b =
    let i = futex_bucket_for w.uaddr w.pml4 in
    if not (word == val)
    then failed eagain
    else if has_timeout && (ticks == 0)
    then failed etimedout
    else sleeps (if has_timeout then ticks else 0) (set b i (bucket b i ++ w ∷ []))

-- The task is not in the bucket from here on.
unfoldable pub list_remove : ℕ → List Waiter → List Waiter
list_remove task [] = []
list_remove task (w ∷ ws) =
    let rest = list_remove task ws in if w.task == task then ws else w ∷ rest

-- What it does when it runs again; `ready` is its `futex_ready`, with 2 for a timeout. None is 0.
unfoldable pub futex_resume : Waiter → ℕ → Bool → List (List Waiter) → Option ℕ × List (List Waiter)
futex_resume w ready sleep_eintr b =
    let i = futex_bucket_for w.uaddr w.pml4 in
    (
      if ready == 2 then some etimedout else if sleep_eintr then some eintr else none,
      set b i (list_remove w.task (bucket b i)),
    )

-- The test of a waiter; `wakeable` is the test of its status.
unfoldable pub wakes : ℕ → ℕ → ℕ → (ℕ → Bool) → Waiter → Bool
wakes uaddr pml4 bitset wakeable w =
    (w.uaddr == uaddr)
    && (w.pml4 == pml4)
    && (not (bit_and w.bitset bitset == 0))
    && wakeable w.task

-- The loop over a bucket: the tasks that are woken, at most that many, and who is left.
unfoldable pub wake_loop : (Waiter → Bool) → ℕ → List Waiter → List ℕ × List Waiter
wake_loop test n [] = ([], [])
wake_loop test zero (w ∷ ws) = ([], w ∷ ws)
wake_loop test (suc n) (w ∷ ws) =
    let fewer = wake_loop test n ws in
    let same = wake_loop test (suc n) ws in
    if test w then (w.task ∷ fewer.0, fewer.1) else (same.0, w ∷ same.1)

-- `(int32_t)nr`, where a negative one wakes nobody.
unfoldable pub wake_limit : ℕ → ℕ
wake_limit nr = if ltb nr (2 ^ 31) then nr else 0

unfoldable pub futex_do_wake :
    ℕ → ℕ → ℕ → ℕ → (ℕ → Bool) → List (List Waiter) → List ℕ × List (List Waiter)
futex_do_wake uaddr pml4 nr bitset wakeable b =
    let i = futex_bucket_for uaddr pml4 in
    let (tasks, left) = wake_loop (wakes uaddr pml4 bitset wakeable) (wake_limit nr) (bucket b i) in
    (tasks, set b i left)

-- The call, by the task of an address space; `word` and `timespec` read the caller's memory.
unfoldable pub sys_futex :
    (ℕ → ℕ)
    → (ℕ → ℤ × ℤ)
    → (ℕ → Bool)
    → Clock
    → (task pml4 uaddr op val timeout val3 : ℕ) → List (List Waiter)
    → Result
sys_futex word timespec wakeable clock task pml4 uaddr op val timeout val3 b =
    let cmd = bit_and op 0x7f in
    let bitset = if cmd == 0 then match_any else val3 in
    let w : Waiter = record { task = task; uaddr = uaddr; pml4 = pml4; bitset = bitset } in
    let woken : ℕ → Result =
      λ set_of. let (tasks, b') = futex_do_wake uaddr pml4 val set_of wakeable b in woke tasks b' in
    let parsed =
      futex_parse_timeout clock (timespec timeout).0 (timespec timeout).1 (cmd == 9)
        (not (bit_and op 256 == 0)) in
    if uaddr == 0
    then failed einval
    else if cmd == 1
    then woken match_any
    else if cmd == 10
    then (if val3 == 0 then failed einval else woken val3)
    else if (cmd == 0) || (cmd == 9)
    then (if bitset == 0
        then failed einval
        else if timeout == 0
        then futex_do_wait w (word uaddr) val false 0 b
        else elim parsed [
          | none ↦ failed einval
          | some ticks ↦ futex_do_wait w (word uaddr) val true ticks b
        ])
    else failed enosys
