-- ===== src/IoQueue/Tests.antt =====
-- A full queue and an empty one, and the theorems at them.
use core_z_os.Base.{All, ℕ, ◌≡◌, ◌≢◌, refl, none, some, [], ◌∷◌, arith, length-replicate, replicate}
use core_z_os.IoQueue.{IoQueue, ioq_length, ioq_putchar}
use core_z_os.IoQueue.Inv.{IsValid, contents, left}
use core_z_os.IoQueue.Fifo.{put, get, answers}
use core_z_os.IoQueue.Refine.{responses, ioq_refines}
use core_z_os.IoQueue.Waiters.{woken, wakes, producer_forgotten}

-- Holds 1023 bytes from position 5 on.
abbrev crowded : IoQueue
crowded = record { producer = none; consumer = none; buf = replicate 1024 b'x'; head = 4; tail = 5 }

crowded-IsValid : IsValid crowded
crowded-IsValid = record {
  room = length-replicate {A = ℕ} 1024 b'x';
  head_in = omega arith;
  tail_in = omega arith;
}

abbrev vacant : IoQueue
vacant = record { producer = none; consumer = none; buf = replicate 1024 b'x'; head = 7; tail = 7 }

vacant-IsValid : IsValid vacant
vacant-IsValid = record {
  room = length-replicate {A = ℕ} 1024 b'x';
  head_in = omega arith;
  tail_in = omega arith;
}

ioq_refines_example :
    responses vacant (put 1 b'a' ∷ put 1 b'b' ∷ get 2 ∷ get 2 ∷ get 2 ∷ [])
    ≡ answers (contents vacant) (put 1 b'a' ∷ put 1 b'b' ∷ get 2 ∷ get 2 ∷ get 2 ∷ [])
ioq_refines_example =
    ioq_refines (put 1 b'a' ∷ put 1 b'b' ∷ get 2 ∷ get 2 ∷ get 2 ∷ []) vacant-IsValid

crowded_length : ioq_length crowded ≡ 1023
unfolding ioq_length
crowded_length = refl

producer_forgotten_example :
    (woken (ioq_putchar 2 b'b' (left (ioq_putchar 1 b'a' crowded))) ≢ some 1)
    × All
        (λ w. w ≢ some 1)
        (wakes (left (ioq_putchar 2 b'b' (left (ioq_putchar 1 b'a' crowded)))) (get 3 ∷ get 3 ∷ []))
producer_forgotten_example =
    producer_forgotten 1 2 b'a' b'b' (get 3 ∷ get 3 ∷ []) crowded-IsValid crowded_length (λ e. cc)
      (omega arith) (omega arith, (omega arith, tt))
