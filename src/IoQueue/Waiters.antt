-- ===== src/IoQueue/Waiters.antt =====
-- Who is woken. The queue remembers one sleeping producer and one sleeping consumer.
use core_z_os.Base.{All, ℕ, ◌≡◌, ◌≢◌, Option, none, some, List, [], ◌∷◌, arith}
use core_z_os.IoQueue.{IoQueue, ioq_length, Pass, returned, slept, ioq_putchar, ioq_getchar}
use core_z_os.IoQueue.Fifo.{Op, put, get}
use core_z_os.IoQueue.Inv.{IsValid, left}

-- The task that a pass wakes.
abbrev pub woken : {A : Type 0} → Pass A → Option ℕ
woken (returned a w q) = w
woken (slept q) = none

-- The passes that some calls make in turn, and the tasks that they wake.
unfoldable pub wakes : IoQueue → List Op → List (Option ℕ)
wakes q [] = []
wakes q (put t b ∷ ops) = let p = ioq_putchar t b q in woken p ∷ wakes (left p) ops
wakes q (get t ∷ ops) = let p = ioq_getchar t q in woken p ∷ wakes (left p) ops

abbrev pub task : Op → ℕ
task (put t b) = t
task (get t) = t

-- Neither waiter is the task t.
abbrev Apart : ℕ → IoQueue → Type 0
Apart t q = (q.producer ≢ some t) × (q.consumer ≢ some t)

put-Apart :
    (t u b : ℕ) (q : IoQueue)
    → u ≢ t
    → Apart t q
    → (woken (ioq_putchar u b q) ≢ some t) × Apart t (left (ioq_putchar u b q))
unfolding ioq_putchar
put-Apart t u b q d a = (λ e. ground arith, (λ e. ground arith, λ e. ground arith))

get-Apart :
    (t u : ℕ) (q : IoQueue)
    → u ≢ t
    → Apart t q
    → (woken (ioq_getchar u q) ≢ some t) × Apart t (left (ioq_getchar u q))
unfolding ioq_getchar
get-Apart t u q d a = (λ e. ground arith, (λ e. ground arith, λ e. ground arith))

wakes-All :
    (t : ℕ) (ops : List Op) (q : IoQueue)
    → All (λ op. task op ≢ t) ops
    → Apart t q
    → All (λ w. w ≢ some t) (wakes q ops)
unfolding wakes
wakes-All t [] q h a = tt
wakes-All t (put u b ∷ ops) q h a =
    let (w, a') = put-Apart t u b q h.0 a in (w, wakes-All t ops (left (ioq_putchar u b q)) h.1 a')
wakes-All t (get u ∷ ops) q h a =
    let (w, a') = get-Apart t u q h.0 a in (w, wakes-All t ops (left (ioq_getchar u q)) h.1 a')

slept_twice :
    {q : IoQueue} (t u b c : ℕ)
    → IsValid q
    → ioq_length q ≡ 1023
    → ioq_putchar u c (left (ioq_putchar t b q)) ≡ slept (record q { producer = some u })
unfolding ioq_putchar ioq_length
slept_twice t u b c v full = ground arith

-- A valid queue has one place for a sleeping producer: where the task t, which is not its sleeping
-- consumer, finds it full, and then another task u does, no later pass of any other task wakes t,
-- whatever the passes are.
pub producer_forgotten :
    {q : IoQueue} (t u b c : ℕ) (ops : List Op)
    → IsValid q
    → ioq_length q ≡ 1023
    → q.consumer ≢ some t
    → u ≢ t
    → All (λ op. task op ≢ t) ops
    → (woken (ioq_putchar u c (left (ioq_putchar t b q))) ≢ some t)
      × All (λ w. w ≢ some t) (wakes (left (ioq_putchar u c (left (ioq_putchar t b q)))) ops)
producer_forgotten {q} t u b c ops v full away d others =
    rw (slept_twice t u b c v full) (
      (λ e. cc),
      wakes-All t ops (record q { producer = some u }) others ((λ e. ground arith), away),
    )
