-- ===== src/Sync/RwLock/Safety.antt =====
-- What a readers-writer lock promises, in every reachable state of fewer than 2 ^ 32 threads.
use core_z_os.Base.{ℕ, ◌^◌, ◌<◌, ◌≡◌, ◌≢◌, arith, le-sum_over, add-le-sum_over_ne, sum_over-add-le}
use native.Mathlib.Decide.{ℕ_discrete}
use core_z_os.Sync.RwLock.{outside, r_wlock, reading, writing, System, Reach}
use core_z_os.Sync.RwLock.Inv.{
  has_gate, has_rmutex, is_counted, is_writer, is_first, is_last, Inv, first-last-le,
  first-writer-le, Reach-Inv,
}

module _ {n : ℕ} {s : System} (inv : Inv n s) where
  below : (i : ℕ) → s.pc i ≢ outside → i < n
  below i h = ground (arith, inv.idle i)

  writers_exclude : (i j : ℕ) → s.pc i ≡ writing → s.pc j ≡ writing → i ≡ j
  writers_exclude i j e f = elim (ℕ_discrete i j) [
    | yes p ↦ p
    | no d ↦ ground (arith, below i, below j, inv.gate, add-le-sum_over_ne has_gate n s.pc i j d)
  ]

  writer_excludes_reader : (i j : ℕ) → s.pc i ≡ writing → s.pc j ≢ reading
  writer_excludes_reader i j e f = ground (
    arith,
    below i,
    below j,
    inv.gate,
    inv.wlock,
    inv.readers,
    le-sum_over is_counted n s.pc j,
    le-sum_over is_writer n s.pc i,
    sum_over-add-le is_first is_writer has_gate first-writer-le n s.pc,
  )

-- In every reachable state of fewer than 2 ^ 32 threads, a writer between `rwlock_write_acquire` and
-- `rwlock_write_release` is alone: no other thread writes, and none reads.
pub rwlock_exclusion :
    {n : ℕ} {s : System}
    → n < 2 ^ 32
    → Reach n s
    → (i j : ℕ) → s.pc i ≡ writing
    → (s.pc j ≡ writing → i ≡ j) × (s.pc j ≢ reading)
rwlock_exclusion h r i j e =
    (writers_exclude (Reach-Inv h r) i j e, writer_excludes_reader (Reach-Inv h r) i j e)

-- In every reachable state of fewer than 2 ^ 32 threads, the first reader, which takes `wlock` while
-- it has `rmutex`, does not wait there: the value of `wlock` is 1 when a reader comes to that
-- `sema_down`.
pub first_reader_goes_through :
    {n : ℕ} {s : System}
    → n < 2 ^ 32
    → Reach n s
    → (i : ℕ) → s.pc i ≡ r_wlock
    → s.rw.wlock.value ≡ 1
first_reader_goes_through {n} {s} h r i e = ground (
  arith,
  below inv i,
  inv.gate,
  inv.rmutex,
  inv.wlock,
  inv.first i,
  le-sum_over is_first n s.pc i,
  sum_over-add-le is_first is_last has_rmutex first-last-le n s.pc,
  sum_over-add-le is_first is_writer has_gate first-writer-le n s.pc,
)
  where
    inv : Inv n s
    inv = Reach-Inv h r
