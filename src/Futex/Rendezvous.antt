-- ===== src/Futex/Rendezvous.antt =====
-- A wait and the wake-up that follows it, of kernel/syscall/futex.c.
use core_z_os.Base.{
  ℕ, ◌^◌, ◌<◌, ◌≡◌, refl, ap, ◌∙◌, Bool-cases, inl, inr, Bool, true, false, ◌&&◌, arith, ◌==◌,
  if◌then◌else◌, List, [], ◌∷◌, ◌++◌, map, take, take_all, length, length-append, set,
  get_or-set_self,
}
use core_z_os.Futex.{
  Waiter, sleeps, bucket, futex_bucket_for, futex_do_wait, futex_do_wake, wakes, wake_loop,
  wake_limit,
}
use core_z_os.Futex.Wake.{select, task_of, wake_loop_lem}

select-append :
    (test : Waiter → Bool) (ws : List Waiter) (w : Waiter)
    → test w ≡ true
    → select test (ws ++ w ∷ []) ≡ select test ws ++ w ∷ []
select-append test [] w t = rw (t) refl
select-append test (v ∷ ws) w t = elim (Bool-cases (test v)) [
  | inl y ↦ rw (y) (ap (λ x. v ∷ x) (select-append test ws w t))
  | inr n ↦ rw (n) (select-append test ws w t)
]

map-append_one :
    (ws : List Waiter) (w : Waiter) → map task_of (ws ++ w ∷ []) ≡ map task_of ws ++ w.task ∷ []
map-append_one [] w = refl
map-append_one (v ∷ ws) w = ap (λ x. v.task ∷ x) (map-append_one ws w)

wake_limit-small : (nr : ℕ) → nr < 2 ^ 31 → wake_limit nr ≡ nr
unfolding wake_limit
wake_limit-small nr s = ground (arith, s)

wakes_from :
    (b : List (List Waiter)) (ws : List Waiter) (uaddr pml4 nr bitset : ℕ) (wakeable : ℕ → Bool)
    → bucket b (futex_bucket_for uaddr pml4) ≡ ws
    → nr < 2 ^ 31
    → (futex_do_wake uaddr pml4 nr bitset wakeable b).0
      ≡ map task_of (take nr (select (wakes uaddr pml4 bitset wakeable) ws))
unfolding futex_do_wake
wakes_from b ws uaddr pml4 nr bitset wakeable e s =
    ap (λ x. (wake_loop (wakes uaddr pml4 bitset wakeable) (wake_limit nr) x).0) e
    ∙ (ap (λ n. (wake_loop (wakes uaddr pml4 bitset wakeable) n ws).0) (wake_limit-small nr s)
        ∙ (wake_loop_lem (wakes uaddr pml4 bitset wakeable) nr ws).0)

bucket-lt : (uaddr pml4 : ℕ) → futex_bucket_for uaddr pml4 < 64
unfolding futex_bucket_for
bucket-lt uaddr pml4 = omega arith

-- A task waits where the word has the value that it expects, with a timeout that is not over. A
-- wake-up for its address and a bit of its bitset, in the same address space, for more tasks
-- than those that wait there already and fewer than 2 ^ 31, wakes these in their order and then
-- the task, where its status lets it be woken.
pub futex_rendezvous :
    (b : List (List Waiter)) (w : Waiter) (val ticks nr bitset : ℕ) (has_timeout : Bool)
    (wakeable : ℕ → Bool)
    → length b ≡ 64
    → (has_timeout && (ticks == 0)) ≡ false
    → wakes w.uaddr w.pml4 bitset wakeable w ≡ true
    → length
        (select (wakes w.uaddr w.pml4 bitset wakeable) (bucket b (futex_bucket_for w.uaddr w.pml4)))
      < nr
    → nr < 2 ^ 31
    → (b' : List (List Waiter)) × (futex_do_wait w val val has_timeout ticks b
        ≡ sleeps (if has_timeout then ticks else 0) b')
      × ((futex_do_wake w.uaddr w.pml4 nr bitset wakeable b').0
          ≡ map task_of (
              select
                (wakes w.uaddr w.pml4 bitset wakeable)
                (bucket b (futex_bucket_for w.uaddr w.pml4)))
            ++ w.task ∷ [])
unfolding futex_do_wait
futex_rendezvous b w val ticks nr bitset has_timeout wakeable size awake t few s = (
  set b i (bucket b i ++ w ∷ []),
  ground (arith, awake),
  wakes_from (set b i (bucket b i ++ w ∷ [])) (bucket b i ++ w ∷ []) w.uaddr w.pml4 nr bitset
        wakeable
        (get_or-set_self b i (bucket b i ++ w ∷ []) []
          (omega (arith, size, bucket-lt w.uaddr w.pml4)))
        s
      ∙ (ap (λ x. map task_of (take nr x)) (select-append test (bucket b i) w t)
          ∙ (ap (map task_of) (
                take_all nr (select test (bucket b i) ++ w ∷ [])
                  (omega (arith, few, length-append (select test (bucket b i)) (w ∷ []))))
              ∙ map-append_one (select test (bucket b i)) w)),
)
  where
    i : ℕ
    i = futex_bucket_for w.uaddr w.pml4

    test : Waiter → Bool
    test = wakes w.uaddr w.pml4 bitset wakeable
