-- ===== src/IoQueue/Refine.antt =====
-- A valid queue behaves as a first-in first-out queue of at most 1023 bytes.
use core_z_os.Base.{
  ℕ, zero, suc, ◌+◌, ◌%◌, ◌<◌, ◌≡◌, ◌≢◌, refl, ap, ap₂, subst, Option, none, some, List, [], ◌∷◌,
  ◌++◌, arith, lt→ltb, length, set, get_or, get_or-set_self, get_or-set_ne, get_elem?-eq-get_or,
}
use native.Mathlib.Decide.{ℕ_discrete, dec_lt}
use core_z_os.IoQueue.{
  IoQueue, bufsize, ioq_length, Pass, returned, slept, ioq_putchar, ioq_getchar,
}
use core_z_os.IoQueue.Fifo.{Op, put, get, Reply, stored, got, sleeps, answer, answers}
use core_z_os.IoQueue.Inv.{
  IsValid, bytes_from, contents, length-contents, ioq_length_lem, left, ioq_putchar-IsValid,
  ioq_getchar-IsValid,
}

-- Storing just past the end of a stretch of fewer than 1024 bytes adds the byte to it.
bytes_from-set :
    (buf : List ℕ) (b k p i : ℕ)
    → length buf ≡ bufsize
    → p < bufsize
    → k < bufsize
    → (p + k) % bufsize ≡ i
    → bytes_from (set buf i b) p (suc k) ≡ bytes_from buf p k ++ b ∷ []
bytes_from-set buf b zero p i h hp hk e =
    ap (λ x. x ∷ [])
      (subst (λ j. get_or (set buf i b) j 0 ≡ b) at (get_or-set_self buf i b 0 (omega arith)))
  where
    at : i ≡ p
    at = omega arith
bytes_from-set buf b (suc k) p i h hp hk e =
    ap₂ ◌∷◌ (get_or-set_ne buf b 0 (λ same. absurd (omega arith)))
      (bytes_from-set buf b k ((p + 1) % bufsize) i h (omega arith) (omega arith) (omega arith))

-- A pass of a call, as its client sees it.
abbrev pub reply_put : Pass (Unit {0}) → Reply
reply_put (returned _ w q) = stored
reply_put (slept q) = sleeps

abbrev pub reply_get : Pass (Option ℕ) → Reply
reply_get (returned b w q) = got b
reply_get (slept q) = sleeps

unfoldable pub respond : Op → IoQueue → Reply × IoQueue
respond (put t b) q = (reply_put (ioq_putchar t b q), left (ioq_putchar t b q))
respond (get t) q = (reply_get (ioq_getchar t q), left (ioq_getchar t q))

unfoldable pub responses : IoQueue → List Op → List Reply
responses q [] = []
responses q (op ∷ ops) = let (r, q') = respond op q in r ∷ responses q' ops

-- The queue with a byte stored at the head, and with the oldest byte gone.
abbrev stored_in : IoQueue → ℕ → IoQueue
stored_in q b = record q {
  consumer = none;
  buf = set q.buf q.head b;
  head = (q.head + 1) % bufsize;
}

abbrev taken_from : IoQueue → IoQueue
taken_from q = record q { producer = none; tail = (q.tail + 1) % bufsize }

stored_length :
    {q : IoQueue} (b : ℕ)
    → IsValid q
    → ioq_length q < 1023
    → ioq_length (stored_in q b) ≡ suc (ioq_length q)
unfolding ioq_length
stored_length b v h = ground arith

taken_length :
    {q : IoQueue} → IsValid q → ioq_length q ≢ 0 → ioq_length q ≡ suc (ioq_length (taken_from q))
unfolding ioq_length
taken_length v h = ground arith

contents-stored_in :
    {q : IoQueue} (b : ℕ)
    → IsValid q
    → ioq_length q < 1023
    → contents (stored_in q b) ≡ contents q ++ b ∷ []
contents-stored_in {q} b v h = rw (stored_length b v h) (
    bytes_from-set q.buf b (ioq_length q) q.tail q.head v.room v.tail_in (omega arith)
      (ioq_length_lem v).3)

contents-taken_from :
    {q : IoQueue}
    → IsValid q
    → ioq_length q ≢ 0
    → contents q ≡ get_or q.buf q.tail 0 ∷ contents (taken_from q)
contents-taken_from {q} v h = ap (bytes_from q.buf q.tail) (taken_length v h)

-- The two ends of `ioq_putchar` and of `ioq_getchar`.
putchar_room :
    {q : IoQueue} (t b : ℕ)
    → IsValid q
    → ioq_length q < 1023
    → ioq_putchar t b q ≡ returned tt q.consumer (stored_in q b)
unfolding ioq_putchar
putchar_room t b v h = ground (arith, ioq_length_lem v)

putchar_full :
    {q : IoQueue} (t b : ℕ)
    → IsValid q
    → ioq_length q ≡ 1023
    → ioq_putchar t b q ≡ slept (record q { producer = some t })
unfolding ioq_putchar
putchar_full t b v h = ground (arith, ioq_length_lem v)

getchar_some :
    {q : IoQueue} (t : ℕ)
    → IsValid q
    → ioq_length q ≢ 0
    → ioq_getchar t q ≡ returned (some (get_or q.buf q.tail 0)) q.producer (taken_from q)
unfolding ioq_getchar
getchar_some {q} t v h = ground (arith, ioq_length_lem v, get_elem?-eq-get_or q.buf q.tail 0)

getchar_empty :
    {q : IoQueue} (t : ℕ)
    → IsValid q
    → ioq_length q ≡ 0
    → ioq_getchar t q ≡ slept (record q { consumer = some t })
unfolding ioq_getchar
getchar_empty t v h = ground (arith, ioq_length_lem v)

contents-nil : (q : IoQueue) → ioq_length q ≡ 0 → contents q ≡ []
contents-nil q h = ap (bytes_from q.buf q.tail) h

-- Who waits does not matter to what the queue holds.
contents-waiter :
    (q : IoQueue) (t : ℕ)
    → (contents (record q { producer = some t }) ≡ contents q)
      × (contents (record q { consumer = some t }) ≡ contents q)
unfolding ioq_length
contents-waiter q t = (refl, refl)

put_refines :
    {q : IoQueue} (t b : ℕ)
    → IsValid q
    → let (r, q') = respond (put t b) q in (r, contents q') ≡ answer (put t b) (contents q)
unfolding respond answer
put_refines {q} t b v = elim (dec_lt (ioq_length q) 1023) [
  | yes h ↦
      rw (putchar_room t b v h, contents-stored_in b v h, length-contents q, lt→ltb _ _ h) refl
  | no h ↦
      ground (arith, putchar_full t b v, length-contents q, ioq_length_lem v, contents-waiter q t)
]

get_refines :
    {q : IoQueue} (t : ℕ)
    → IsValid q
    → let (r, q') = respond (get t) q in (r, contents q') ≡ answer (get t) (contents q)
unfolding respond answer
get_refines {q} t v = elim (ℕ_discrete (ioq_length q) 0) [
  | yes h ↦ rw (getchar_empty t v h, (contents-waiter q t).1, contents-nil q h) refl
  | no h ↦ rw (getchar_some t v h, contents-taken_from v h) refl
]

respond-IsValid : {q : IoQueue} (op : Op) → IsValid q → IsValid (respond op q).1
unfolding respond
respond-IsValid (put t b) v = ioq_putchar-IsValid t b v
respond-IsValid (get t) v = ioq_getchar-IsValid t v

respond_refines :
    {q : IoQueue} (op : Op)
    → IsValid q
    → let (r, q') = respond op q in (r, contents q') ≡ answer op (contents q)
respond_refines (put t b) v = put_refines t b v
respond_refines (get t) v = get_refines t v

-- No sequence of passes of `ioq_putchar` and `ioq_getchar` tells a valid queue from a list of at most
-- 1023 bytes: each byte is stored behind the others or its task sleeps at 1023, and the oldest byte
-- comes out or the task sleeps at 0.
pub ioq_refines :
    (ops : List Op) {q : IoQueue} → IsValid q → responses q ops ≡ answers (contents q) ops
unfolding responses answers
ioq_refines [] v = refl
ioq_refines (op ∷ ops) v = rw (ioq_refines ops (respond-IsValid op v), ← respond_refines op v)
