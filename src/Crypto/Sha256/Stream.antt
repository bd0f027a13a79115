-- ===== src/Crypto/Sha256/Stream.antt =====
-- `sha256_update` takes the bytes as if they came one at a time.
use mathlib.Core.List.{append_assoc, append-nil}
use native.Mathlib.Decide.{ℕ_discrete, dec_lt}
use core_z_os.Base.{
  take_all, drop_all, ℕ, zero, suc, ◌+◌, ◌-◌, ◌*◌, ◌/◌, ◌%◌, ◌^◌, ◌≤◌, ◌<◌, ◌≡◌, ◌≢◌, refl, sym, ap,
  ◌∙◌, subst, true, false, List, [], ◌∷◌, ◌++◌, arith, ltb, ◌==◌, if◌then◌else◌, length, set, take,
  drop, length-set, length-take, length-drop, take-append-drop, ◌⊎◌, inl, inr,
}
use core_z_os.Crypto.Sha256.{Ctx, copy_mem, blocks, fill, leftover, absorb_rest, sha256_update}
use core_z_os.Crypto.Sha256.Absorb.{
  State, absorb, absorb-append, absorb_few, absorb_full, absorb-blocks,
}

pub record IsValid (c : Ctx) : Type 0 where
  pub full_size : length c.buf ≡ 64
  pub room : c.buf_len < 64

-- The words, and the bytes that wait in the buffer.
abbrev pub view : Ctx → State
view c = (c.words, take c.buf_len c.buf)

take_next : (d : List ℕ) (i x : ℕ) → i < length d → take (suc i) (set d i x) ≡ take i d ++ x ∷ []
take_next [] i x h = elim h [ ]
take_next (y ∷ d) zero x h = refl
take_next (y ∷ d) (suc i) x h = ap (λ r. y ∷ r) (take_next d i x (omega arith))

length-copy_mem : (d : List ℕ) (i : ℕ) (s : List ℕ) → length (copy_mem d i s) ≡ length d
unfolding copy_mem
length-copy_mem d i [] = refl
length-copy_mem d i (x ∷ s) = length-copy_mem (set d i x) (suc i) s ∙ length-set d i x

take-copy_mem :
    (d : List ℕ) (i : ℕ) (s : List ℕ)
    → i + length s ≤ length d
    → take (i + length s) (copy_mem d i s) ≡ take i d ++ s
unfolding copy_mem
take-copy_mem d i [] h =
    ap (λ k. take k d) (let e : i + 0 ≡ i = omega arith in e) ∙ sym (append-nil (take i d))
take-copy_mem d i (x ∷ s) h =
    ap (λ k. take k (copy_mem (set d i x) (suc i) s))
      (let e : i + suc (length s) ≡ suc i + length s = omega arith in e)
    ∙ (take-copy_mem (set d i x) (suc i) s (omega (arith, length-set d i x))
        ∙ (ap (λ r. r ++ s) (take_next d i x (omega arith)) ∙ append_assoc (take i d) (x ∷ []) s))

-- A buffer that is filled to its end.
copy_mem_full :
    (d : List ℕ) (i : ℕ) (s : List ℕ) → i + length s ≡ length d → copy_mem d i s ≡ take i d ++ s
copy_mem_full d i s h =
    sym (take_all (i + length s) (copy_mem d i s) (omega (arith, length-copy_mem d i s)))
    ∙ take-copy_mem d i s (omega arith)

fill-view :
    (c : Ctx) (x : ℕ) (p : List ℕ)
    → IsValid c
    → c.buf_len + suc (length p) ≤ 64
    → (view (fill c (x ∷ p)) ≡ absorb (view c) (x ∷ p)) × IsValid (fill c (x ∷ p))
unfolding fill
fill-view c x p v h = elim (ℕ_discrete (c.buf_len + suc (length p)) 64) [
  | yes e ↦ (
    ground (
      arith,
      e,
      v.full_size,
      copied e,
      absorb_full c.words (take c.buf_len c.buf) x p (omega (arith, waits)),
    ),
    ground (arith, v.full_size, length-copy_mem c.buf c.buf_len (x ∷ p)),
  )
  | no n ↦ (
    ground (
      arith,
      n,
      take-copy_mem c.buf c.buf_len (x ∷ p) (omega (arith, v.full_size)),
      absorb_few c.words (take c.buf_len c.buf) (x ∷ p) (omega (arith, waits)),
    ),
    ground (arith, n, v.full_size, length-copy_mem c.buf c.buf_len (x ∷ p)),
  )
]
  where
    waits : length (take c.buf_len c.buf) ≡ c.buf_len
    waits = omega (arith, length-take c.buf_len c.buf, v.full_size, v.room)

    copied :
        c.buf_len + suc (length p) ≡ 64
        → copy_mem c.buf c.buf_len (x ∷ p) ≡ take c.buf_len c.buf ++ x ∷ p
    copied e = copy_mem_full c.buf c.buf_len (x ∷ p) (omega (arith, v.full_size))

leftover-view :
    (c : Ctx) (p : List ℕ)
    → IsValid c
    → c.buf_len ≡ 0
    → length p < 64
    → (view (leftover c p) ≡ absorb (c.words, []) p) × IsValid (leftover c p)
unfolding leftover absorb
leftover-view c [] v z h = (ap (λ n. (c.words, take n c.buf)) z, v)
leftover-view c (x ∷ p) v z h = (
  ap (λ q. (c.words, q))
        (ap (λ n. take n (copy_mem c.buf 0 (x ∷ p)))
            (let e : suc (length p) ≡ 0 + suc (length p) = omega arith in e)
          ∙ take-copy_mem c.buf 0 (x ∷ p) (omega (arith, v.full_size)))
      ∙ sym (absorb_few c.words [] (x ∷ p) (omega arith)),
  record { full_size = length-copy_mem c.buf 0 (x ∷ p) ∙ v.full_size; room = h },
)

absorb_rest-view :
    (c : Ctx) (p : List ℕ)
    → IsValid c
    → c.buf_len ≡ 0
    → (view (absorb_rest c p) ≡ absorb (c.words, []) p) × IsValid (absorb_rest c p)
unfolding absorb_rest
absorb_rest-view c p v z =
    let (e, w) =
      leftover-view (record c { words = blocks (length p / 64) c.words p })
        (drop (64 * (length p / 64)) p) (record { full_size = v.full_size; room = v.room }) z
        (omega (arith, length-drop (64 * (length p / 64)) p)) in
    (e ∙ sym (absorb-blocks (length p / 64) c.words p (omega arith)), w)

rest_nil : (c : Ctx) → absorb_rest c [] ≡ c
unfolding absorb_rest
rest_nil c = refl

fill_full : (c : Ctx) (p : List ℕ) → c.buf_len + length p ≡ 64 → (fill c p).buf_len ≡ 0
unfolding fill
fill_full c p h = ground arith

-- The bytes that fill the buffer, or all there are, and the rest.
two_parts :
    (c : Ctx) (x : ℕ) (q r : List ℕ)
    → IsValid c
    → c.buf_len + suc (length q) ≤ 64
    → (c.buf_len + suc (length q) ≡ 64) ⊎ (r ≡ [])
    → (view (absorb_rest (fill c (x ∷ q)) r) ≡ absorb (view c) (x ∷ q ++ r))
      × IsValid (absorb_rest (fill c (x ∷ q)) r)
two_parts c x q r v h (inl e) =
    let (f, w) = fill-view c x q v h in
    let z = fill_full c (x ∷ q) e in
    let (g, u) = absorb_rest-view (fill c (x ∷ q)) r w z in
    (
      g
          ∙ (ap (λ k. absorb ((fill c (x ∷ q)).words, take k (fill c (x ∷ q)).buf) r) (sym z)
              ∙ (ap (λ t. absorb t r) f ∙ sym (absorb-append (view c) (x ∷ q) r))),
      u,
    )
two_parts c x q r v h (inr e) =
    let (f, w) = fill-view c x q v h in
    let z = ap (absorb_rest (fill c (x ∷ q))) e ∙ rest_nil (fill c (x ∷ q)) in
    (
      ap view z
          ∙ (f ∙ ap (absorb (view c)) (sym (append-nil (x ∷ q)) ∙ ap (λ t. x ∷ q ++ t) (sym e))),
      subst IsValid (sym z) w,
    )

-- The context with the bytes counted.
abbrev counted : Ctx → List ℕ → Ctx
counted c p = record c { len = (c.len + length p) % 2 ^ 64 }

update_empty :
    (c : Ctx) (p : List ℕ) → c.buf_len ≡ 0 → sha256_update c p ≡ absorb_rest (counted c p) p
unfolding sha256_update
update_empty c p z = rw (let e : (c.buf_len == 0) ≡ true = ground arith in e)

-- How many bytes go to the buffer that is there.
abbrev taken : Ctx → List ℕ → ℕ
taken c p = if ltb (length p) (64 - c.buf_len) then length p else 64 - c.buf_len

update_some :
    (c : Ctx) (p : List ℕ)
    → c.buf_len ≢ 0
    → sha256_update c p ≡ absorb_rest (fill (counted c p) (take (taken c p) p)) (drop (taken c p) p)
unfolding sha256_update
update_some c p z = rw (let e : (c.buf_len == 0) ≡ false = ground arith in e)

fill_nil : (c : Ctx) → IsValid c → fill c [] ≡ c
unfolding fill
fill_nil c v = ground (arith, v.room)

-- What a context is after the bytes have been absorbed.
abbrev Absorbed : Ctx → List ℕ → Ctx → Type 0
Absorbed c p c' = (view c' ≡ absorb (view c) p) × IsValid c'

Absorbed-some :
    (c : Ctx) (p : List ℕ) (n : ℕ)
    → IsValid c
    → (n ≡ 64 - c.buf_len) ⊎ ((n ≡ length p) × (length p ≤ 64 - c.buf_len))
    → n ≤ length p
    → Absorbed c p (absorb_rest (fill (counted c p) (take n p)) (drop n p))
unfolding absorb
Absorbed-some c [] zero v w h =
    let e : absorb_rest (fill (counted c []) []) [] ≡ counted c [] =
      rest_nil (fill (counted c []) [])
      ∙ fill_nil (counted c []) (record { full_size = v.full_size; room = v.room }) in
    (ap view e, subst IsValid (sym e) (record { full_size = v.full_size; room = v.room }))
Absorbed-some c [] (suc n) v w h = absurd (omega arith)
Absorbed-some c (x ∷ p) zero v w h =
    absurd (elim w [ inl e ↦ omega (arith, v.room) | inr (e, _) ↦ omega arith ])
Absorbed-some c (x ∷ p) (suc n) v w h =
    let (e, u) =
      two_parts (counted c (x ∷ p)) x (take n p) (drop n p)
        (record { full_size = v.full_size; room = v.room })
        (elim w [
          | inl e ↦ omega (arith, length-take n p, v.room)
          | inr (e, l) ↦ omega (arith, length-take n p, v.room)
        ])
        (elim w [
          | inl e ↦ inl (omega (arith, length-take n p, v.room))
          | inr (e, l) ↦ inr (drop_all n p (omega arith))
        ]) in
    (e ∙ ap (λ t. absorb (view c) (x ∷ t)) (take-append-drop n p), u)

-- `sha256_update` absorbs the bytes.
pub sha256_update-view :
    (c : Ctx) (p : List ℕ)
    → IsValid c
    → (view (sha256_update c p) ≡ absorb (view c) p) × IsValid (sha256_update c p)
sha256_update-view c p v = elim (ℕ_discrete c.buf_len 0) [
  | yes z ↦ subst (Absorbed c p) (sym (update_empty c p z)) (
      let (e, w) =
        absorb_rest-view (counted c p) p (record { full_size = v.full_size; room = v.room }) z in
      (e ∙ ap (λ n. absorb (c.words, take n c.buf) p) (sym z), w))
  | no n ↦ subst (Absorbed c p) (sym (update_some c p n)) (
      Absorbed-some c p (taken c p) v
        (elim (dec_lt (length p) (64 - c.buf_len)) [
          | yes l ↦ inr (ground arith, omega arith)
          | no g ↦ inl (ground arith)
        ])
        (ground arith))
]

-- And it counts them.
pub sha256_update-len :
    (c : Ctx) (p : List ℕ) → (sha256_update c p).len ≡ (c.len + length p) % 2 ^ 64
sha256_update-len c p = elim (ℕ_discrete c.buf_len 0) [
  | yes z ↦ ap (λ d. d.len) (update_empty c p z) ∙ absorb_rest-len (counted c p) p
  | no n ↦
      ap (λ d. d.len) (update_some c p n)
      ∙ (absorb_rest-len (fill (counted c p) (take (taken c p) p)) (drop (taken c p) p)
          ∙ fill-len (counted c p) (take (taken c p) p))
]
  where
    leftover-len : (c : Ctx) (p : List ℕ) → (leftover c p).len ≡ c.len
    leftover-len c [] = unfold leftover in refl
    leftover-len c (x ∷ p) = unfold leftover in refl

    absorb_rest-len : (c : Ctx) (p : List ℕ) → (absorb_rest c p).len ≡ c.len
    absorb_rest-len c p =
        unfold absorb_rest in
        leftover-len (record c { words = blocks (length p / 64) c.words p })
          (drop (64 * (length p / 64)) p)

    fill-len : (c : Ctx) (p : List ℕ) → (fill c p).len ≡ c.len
    fill-len c p = unfold fill in ground arith
