-- ===== src/IoQueue/Inv.antt =====
-- The queue's invariant, and the bytes that it holds, oldest first.
use core_z_os.Base.{
  ℕ, zero, suc, ◌+◌, ◌%◌, ◌≤◌, ◌<◌, ◌≡◌, refl, ap, List, [], ◌∷◌, arith, ◌==◌, length, length-set,
  get_or,
}
use core_z_os.IoQueue.{
  IoQueue, bufsize, ioq_init, ioq_full, ioq_empty, ioq_length, Pass, returned, slept, ioq_putchar,
  ioq_getchar,
}

pub record IsValid (q : IoQueue) : Type 0 where
  pub room : length q.buf ≡ bufsize
  pub head_in : q.head < bufsize
  pub tail_in : q.tail < bufsize

-- The k bytes that begin at the position p, going round at the end of the buffer.
abbrev pub bytes_from : List ℕ → ℕ → ℕ → List ℕ
bytes_from buf p zero = []
bytes_from buf p (suc k) = get_or buf p 0 ∷ bytes_from buf ((p + 1) % bufsize) k

abbrev pub contents : IoQueue → List ℕ
contents q = bytes_from q.buf q.tail (ioq_length q)

length-bytes_from : (buf : List ℕ) (p k : ℕ) → length (bytes_from buf p k) ≡ k
length-bytes_from buf p zero = refl
length-bytes_from buf p (suc k) = ap suc (length-bytes_from buf ((p + 1) % bufsize) k)

pub length-contents : (q : IoQueue) → length (contents q) ≡ ioq_length q
length-contents q = length-bytes_from q.buf q.tail (ioq_length q)

-- What the tests of the code say of the length.
pub ioq_length_lem :
    {q : IoQueue}
    → IsValid q
    → (ioq_length q ≤ 1023)
      × (ioq_full q ≡ (ioq_length q == 1023))
      × (ioq_empty q ≡ (ioq_length q == 0))
      × ((q.tail + ioq_length q) % bufsize ≡ q.head)
unfolding ioq_length ioq_full ioq_empty
ioq_length_lem v = (ground arith, ground arith, ground arith, ground arith)

-- `ioq_init` over a buffer of 1024 bytes is valid and empty.
pub ioq_init-IsValid :
    (buf : List ℕ) → length buf ≡ bufsize → IsValid (ioq_init buf) × (contents (ioq_init buf) ≡ [])
unfolding ioq_init ioq_length
ioq_init-IsValid buf h = (record { room = h; head_in = omega arith; tail_in = omega arith }, refl)

-- The queue that a pass leaves.
abbrev pub left : {A : Type 0} → Pass A → IoQueue
left (returned a w q) = q
left (slept q) = q

pub ioq_putchar-IsValid : {q : IoQueue} (t b : ℕ) → IsValid q → IsValid (left (ioq_putchar t b q))
unfolding ioq_putchar
ioq_putchar-IsValid {q} t b v = ground (arith, length-set q.buf q.head b)

pub ioq_getchar-IsValid : {q : IoQueue} (t : ℕ) → IsValid q → IsValid (left (ioq_getchar t q))
unfolding ioq_getchar
ioq_getchar-IsValid t v = ground arith
