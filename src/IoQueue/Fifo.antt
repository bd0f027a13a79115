-- ===== src/IoQueue/Fifo.antt =====
-- What a client sees of a queue of at most 1023 bytes, oldest first.
use core_z_os.Base.{ℕ, Option, some, List, [], ◌∷◌, ◌++◌, length, ltb, if◌then◌else◌}

-- A call by a task.
pub data Op : Type 0 where
  put : (task byte : ℕ) → Op
  get : (task : ℕ) → Op

-- The call stores or returns a byte, or its task sleeps.
pub data Reply : Type 0 where
  stored : Reply
  got : Option ℕ → Reply
  sleeps : Reply

unfoldable pub answer : Op → List ℕ → Reply × List ℕ
answer (put t b) q = if ltb (length q) 1023 then (stored, q ++ b ∷ []) else (sleeps, q)
answer (get t) [] = (sleeps, [])
answer (get t) (b ∷ q) = (got (some b), q)

unfoldable pub answers : List ℕ → List Op → List Reply
answers q [] = []
answers q (op ∷ ops) = let (r, q') = answer op q in r ∷ answers q' ops
