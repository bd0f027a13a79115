-- ===== src/Shm/Pages.antt =====
-- The pages of the buffers of kernel/gui/shm.c: where each one is that was ever handed out.
use core_z_os.Base.{
  ℕ, zero, suc, ◌+◌, ◌-◌, ◌<◌, ◌≡◌, ◌≢◌, ◌⊎◌, inl, inr, refl, sym, ap, subst, Bool-cases,
  Option-cases, false, not, ◌||◌, Option, none, some, List, [], ◌∷◌, ◌++◌, arith, ltb, ◌==◌,
  if◌then◌else◌, set, get_or, length, count, count-append,
}
use core_z_os.Shm.{
  Buffer, no_buffer, unused_buffer, pages_for, wl_buffer_create, buffer_at, wl_buffer_ref,
  page_addresses, wl_buffer_release, wl_buffer_set_state, Shm, no_pool, unused_pool, release_pool,
  shm_pool_create, shm_pool_destroy,
}

-- The pages of a buffer, and of all buffers.
abbrev pages_of : Buffer → List ℕ
pages_of b = if b.refcnt == 0 then [] else page_addresses b.pages b.data_at

abbrev pub held : List Buffer → List ℕ
held [] = []
held (b ∷ bs) = pages_of b ++ held bs

-- Another buffer in a place: the pages of the one for those of the other.
held-set :
    (bufs : List Buffer) (i k : ℕ) (b : Buffer)
    → i < length bufs
    → count k (held (set bufs i b)) + count k (pages_of (buffer_at bufs i))
      ≡ count k (held bufs) + count k (pages_of b)
held-set [] i k b h = absurd (omega (arith, h))
held-set (c ∷ cs) zero k b h =
    omega (arith, count-append (pages_of b) (held cs) k, count-append (pages_of c) (held cs) k)
held-set (c ∷ cs) (suc i) k b h = omega (
  arith,
  held-set cs i k b (omega (arith, h)),
  count-append (pages_of c) (held (set cs i b)) k,
  count-append (pages_of c) (held cs) k,
)

in_use-inside : (bufs : List Buffer) (i : ℕ) → (buffer_at bufs i).refcnt ≢ 0 → i < length bufs
in_use-inside [] i h = absurd (h refl)
in_use-inside (b ∷ bs) zero h = omega arith
in_use-inside (b ∷ bs) (suc i) h = omega (arith, in_use-inside bs i h)

unused_buffer-cases :
    (bufs : List Buffer)
    → (unused_buffer bufs ≡ none)
      ⊎ ((i : ℕ) × (unused_buffer bufs ≡ some i)
          × (i < length bufs)
          × ((buffer_at bufs i).refcnt ≡ 0))
unfolding unused_buffer
unused_buffer-cases [] = inl refl
unused_buffer-cases (b ∷ bs) = elim (Bool-cases (b.refcnt == 0)) [
  | inl z ↦ inr (0, rw (z) refl, omega arith, ground (arith, z))
  | inr nz ↦ elim (unused_buffer-cases bs) [
    | inl n ↦ inl (rw (nz, n) refl)
    | inr (i, e, l, z) ↦ inr (suc i, rw (nz, e) refl, omega (arith, l), z)
  ]
]

abbrev new_buffer : ℕ → ℕ → Buffer
new_buffer size mem = record {
  data_at = mem;
  size = size;
  pages = pages_for size;
  refcnt = 1;
  state = 1;
}

create-cases :
    (size mem : ℕ) (bufs : List Buffer)
    → (wl_buffer_create size mem bufs ≡ (none, bufs))
      ⊎ ((i : ℕ) × (wl_buffer_create size mem bufs ≡ (some i, set bufs i (new_buffer size mem)))
          × (i < length bufs)
          × ((buffer_at bufs i).refcnt ≡ 0))
unfolding wl_buffer_create
create-cases size mem bufs = elim (unused_buffer-cases bufs) [
  | inl n ↦ inl (rw (wl_buffer_create, n) refl)
  | inr (i, e, l, z) ↦ elim (Bool-cases ((size == 0) || (mem == 0))) [
    | inl t ↦ inl (rw (wl_buffer_create, e, t) refl)
    | inr f ↦ inr (i, rw (wl_buffer_create, e, f) refl, l, z)
  ]
]

-- The pages that a call of `wl_buffer_create` that goes through gets from `get_kernel_pages`.
abbrev given : ℕ → ℕ → Option ℕ → List ℕ
given size mem none = []
given size mem (some i) = page_addresses (pages_for size) mem

abbrev pub handed : ℕ → ℕ → List Buffer → List ℕ
handed size mem bufs = given size mem (wl_buffer_create size mem bufs).0

pub create-held :
    (size mem k : ℕ) (bufs : List Buffer)
    → count k (held (wl_buffer_create size mem bufs).1)
      ≡ count k (held bufs) + count k (handed size mem bufs)
create-held size mem k bufs = elim (create-cases size mem bufs) [
  | inl e ↦ subst Is (sym e) (omega arith)
  | inr (i, e, l, z) ↦ subst Is (sym e) (
      omega (
        arith,
        held-set bufs i k (new_buffer size mem) l,
        ap (count k) (pages_of-unused (buffer_at bufs i) z),
      ))
]
  where
    Is : Option ℕ × List Buffer → Type 0
    Is r = count k (held r.1) ≡ count k (held bufs) + count k (given size mem r.0)

    pages_of-unused : (b : Buffer) → b.refcnt ≡ 0 → pages_of b ≡ []
    pages_of-unused b z = rw (z) refl

release-cases :
    (i : ℕ) (bufs : List Buffer)
    → (wl_buffer_release bufs i ≡ (bufs, []))
      ⊎ (((buffer_at bufs i).refcnt ≢ 0)
          × ((wl_buffer_release bufs i ≡ (set bufs i no_buffer, pages_of (buffer_at bufs i)))
              ⊎ ((n : ℕ) × (wl_buffer_release bufs i
                    ≡ (set bufs i (record (buffer_at bufs i) { refcnt = suc n }), [])))))
unfolding wl_buffer_release
release-cases i bufs = elim (Bool-cases (not (ltb i 32))) [
  | inl out ↦ inl (rw (out) refl)
  | inr inside ↦ elim (Bool-cases ((buffer_at bufs i).refcnt == 0)) [
    | inl z ↦ inl (rw (inside, z) refl)
    | inr nz ↦ inr (
      ground (arith, nz),
      elim (Bool-cases ((buffer_at bufs i).refcnt - 1 == 0)) [
        | inl last ↦ inl (rw (inside, nz, last) refl)
        | inr more ↦
            let m : (buffer_at bufs i).refcnt - 1 ≢ 0 = ground (arith, more) in
            inr (
              (buffer_at bufs i).refcnt - 2,
              rw (inside, nz, more)
                  (ap (λ n. (set bufs i (record (buffer_at bufs i) { refcnt = n }), []))
                    (omega (arith, m))),
            )
      ],
    )
  ]
]

pub release-held :
    (k i : ℕ) (bufs : List Buffer)
    → count k (held (wl_buffer_release bufs i).0) + count k (wl_buffer_release bufs i).1
      ≡ count k (held bufs)
release-held k i bufs = elim (release-cases i bufs) [
  | inl e ↦ subst Is (sym e) (omega arith)
  | inr (nz, inl e) ↦
      subst Is (sym e) (omega (arith, held-set bufs i k no_buffer (in_use-inside bufs i nz)))
  | inr (nz, inr (n, e)) ↦ subst Is (sym e) (
      omega (
        arith,
        held-set bufs i k (record (buffer_at bufs i) { refcnt = suc n }) (in_use-inside bufs i nz),
        ap (count k) (same_pages (buffer_at bufs i) n nz),
      ))
]
  where
    Is : List Buffer × List ℕ → Type 0
    Is r = count k (held r.0) + count k r.1 ≡ count k (held bufs)

    same_pages :
        (b : Buffer) (n : ℕ) → b.refcnt ≢ 0 → pages_of (record b { refcnt = suc n }) ≡ pages_of b
    same_pages b n nz =
        let f : (b.refcnt == 0) ≡ false = ground (arith, nz) in
        let g : (suc n == 0) ≡ false = ground arith in rw (f, g) refl

reset-held :
    (bufs : List Buffer) (i k : ℕ) (b : Buffer)
    → pages_of b ≡ pages_of (buffer_at bufs i)
    → i < length bufs
    → count k (held (set bufs i b)) ≡ count k (held bufs)
reset-held bufs i k b e l = omega (arith, held-set bufs i k b l, ap (count k) e)

pub ref-held :
    (i k : ℕ) (bufs : List Buffer) → count k (held (wl_buffer_ref bufs i)) ≡ count k (held bufs)
unfolding wl_buffer_ref
ref-held i k bufs = elim (Bool-cases (not (ltb i 32))) [
  | inl out ↦ rw (wl_buffer_ref, out) refl
  | inr inside ↦ elim (Bool-cases (ltb 0 (buffer_at bufs i).refcnt)) [
    | inl t ↦
        rw (wl_buffer_ref, inside, t)
          (reset-held bufs i k
            (record (buffer_at bufs i) { refcnt = (buffer_at bufs i).refcnt + 1 })
            (let f : ((buffer_at bufs i).refcnt == 0) ≡ false = ground (arith, t) in
              let g : ((buffer_at bufs i).refcnt + 1 == 0) ≡ false = ground arith in rw (f, g) refl)
            (in_use-inside bufs i (ground (arith, t))))
    | inr f ↦ rw (wl_buffer_ref, inside, f) refl
  ]
]

pub set_state-held :
    (i st k : ℕ) (bufs : List Buffer)
    → count k (held (wl_buffer_set_state bufs i st)) ≡ count k (held bufs)
unfolding wl_buffer_set_state
set_state-held i st k bufs = elim (Bool-cases (not (ltb i 32))) [
  | inl out ↦ rw (wl_buffer_set_state, out) refl
  | inr inside ↦ elim (Bool-cases (ltb 0 (buffer_at bufs i).refcnt)) [
    | inl t ↦
        rw (wl_buffer_set_state, inside, t)
          (reset-held bufs i k (record (buffer_at bufs i) { state = st }) refl
            (in_use-inside bufs i (ground (arith, t))))
    | inr f ↦ rw (wl_buffer_set_state, inside, f) refl
  ]
]

release_pool-held :
    (k : ℕ) (id : Option ℕ) (bufs : List Buffer)
    → count k (held (release_pool bufs id).0) + count k (release_pool bufs id).1
      ≡ count k (held bufs)
unfolding release_pool
release_pool-held k none bufs = omega arith
release_pool-held k (some i) bufs = release-held k i bufs

pub pool_create-held :
    (size mem k : ℕ) (s : Shm)
    → count k (held (shm_pool_create size mem s).1.bufs) + count k (shm_pool_create size mem s).2
      ≡ count k (held s.bufs) + count k (handed size mem s.bufs)
unfolding shm_pool_create
pool_create-held size mem k s = elim (Option-cases (wl_buffer_create size mem s.bufs).0) [
  | inl n ↦
      rw (shm_pool_create, n)
        (omega (arith, create-held size mem k s.bufs, ap (λ o. count k (given size mem o)) n))
  | inr (i, e) ↦ elim (Option-cases (unused_pool s.pools)) [
    | inl n ↦
        rw (shm_pool_create, e, n)
          (omega (
            arith,
            create-held size mem k s.bufs,
            ap (λ o. count k (given size mem o)) e,
            release-held k i (wl_buffer_create size mem s.bufs).1,
          ))
    | inr (j, f) ↦
        rw (shm_pool_create, e, f)
          (omega (arith, create-held size mem k s.bufs, ap (λ o. count k (given size mem o)) e))
  ]
]

pub pool_destroy-held :
    (j k : ℕ) (s : Shm)
    → count k (held (shm_pool_destroy j s).0.bufs) + count k (shm_pool_destroy j s).1
      ≡ count k (held s.bufs)
unfolding shm_pool_destroy
pool_destroy-held j k s = elim (Bool-cases (not (get_or s.pools j no_pool).in_use)) [
  | inl t ↦ rw (shm_pool_destroy, t) (omega arith)
  | inr f ↦ rw (shm_pool_destroy, f) (release_pool-held k (get_or s.pools j no_pool).buf_id s.bufs)
]
