-- ===== src/IoQueue.antt =====
-- drivers/char/ioqueue.c: the ring of 1023 bytes between a producer and a consumer, which terminals
-- and pipes share. What an operation does between taking the queue's lock and giving it back is one
-- step; Sync.Lock shows that such steps exclude one another. A task is a number.
pub mod Inv
pub mod Fifo
pub mod Refine
pub mod Waiters
mod Tests
use core_z_os.Base.{
  ℕ, ◌+◌, ◌-◌, ◌%◌, Bool, true, false, Option, none, some, List, leb, ◌==◌, if◌then◌else◌,
  get_elem?, set, replicate,
}

abbrev pub bufsize : ℕ
bufsize = 1024

-- `head` is where the next byte goes, `tail` where the oldest one is.
pub record IoQueue : Type 0 where
  pub producer : Option ℕ
  pub consumer : Option ℕ
  pub buf : List ℕ
  pub head : ℕ
  pub tail : ℕ

-- `ioq_init` leaves the bytes of the buffer as they are.
unfoldable pub ioq_init : List ℕ → IoQueue
ioq_init buf = record { producer = none; consumer = none; buf = buf; head = 0; tail = 0 }

unfoldable pub next_pos : ℕ → ℕ
next_pos pos = (pos + 1) % bufsize

unfoldable pub ioq_full : IoQueue → Bool
unfolding next_pos
ioq_full q = next_pos q.head == q.tail

unfoldable pub ioq_empty : IoQueue → Bool
ioq_empty q = q.head == q.tail

unfoldable pub ioq_length : IoQueue → ℕ
ioq_length q = if leb q.tail q.head then q.head - q.tail else bufsize - (q.tail - q.head)

-- How a pass of an operation ends: it returns `result`, having called `thread_unblock` on a task or
-- on none, or the calling task sleeps and makes another pass when it is woken.
pub data Pass (A : Type 0) : Type 0 where
  returned : A → Option ℕ → IoQueue → Pass A
  slept : IoQueue → Pass A

-- A pass of `ioq_putchar` by the task `current`.
unfoldable pub ioq_putchar : ℕ → ℕ → IoQueue → Pass (Unit {0})
unfolding ioq_full next_pos
ioq_putchar current byte q =
    if ioq_full q
    then slept (record q { producer = some current })
    else returned tt q.consumer
        (record q { buf = set q.buf q.head byte; head = next_pos q.head; consumer = none })

-- A pass of `ioq_getchar` by the task `current`. The byte is none for a read outside the buffer.
unfoldable pub ioq_getchar : ℕ → IoQueue → Pass (Option ℕ)
unfolding ioq_empty next_pos
ioq_getchar current q =
    if ioq_empty q
    then slept (record q { consumer = some current })
    else returned (get_elem? q.buf q.tail) q.producer
        (record q { tail = next_pos q.tail; producer = none })
