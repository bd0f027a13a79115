-- ===== src/Net/Dns/Query.antt =====
-- The query that `dns_build_query` of drivers/net/dns.c makes of a name.
use mathlib.Core.List.{append-nil}
use core_z_os.Base.{
  ℕ, zero, suc, ◌+◌, ◌≤◌, ◌<◌, ◌≡◌, ◌≢◌, ◌↔◌, ◌⊎◌, inl, inr, refl, sym, ap, ◌∙◌, subst, Bool-cases,
  Option-cases, Bool, true, false, Option, none, some, List, [], ◌∷◌, ◌++◌, arith, ltb, ◌==◌,
  length, length-append, All,
}
use core_z_os.Net.Dns.{label, bad_label, write_label, build_labels, query_header, dns_build_query}

abbrev pub HasNoDot : List ℕ → Type 0
HasNoDot = All (λ c. c ≢ 46)

-- A label fits its length byte, and has no dot.
abbrev pub IsLabel : List ℕ → Type 0
IsLabel l = (0 < length l) × (length l ≤ 63) × HasNoDot l

-- Labels as they stand in a query: each behind its length.
abbrev pub wire : List (List ℕ) → List ℕ
wire [] = []
wire (l ∷ ls) = length l ∷ l ++ wire ls

-- The name that the labels spell, each but the last with a dot behind it, and the last with or
-- without one.
pub data Spells : List (List ℕ) → List ℕ → Type 0 where
  done : Spells [] []
  last : (l : List ℕ) → Spells (l ∷ []) l
  more :
      (l : List ℕ) (ls : List (List ℕ)) (p : List ℕ) → Spells ls p → Spells (l ∷ ls) (l ++ 46 ∷ p)

label-last : (l : List ℕ) → HasNoDot l → label l ≡ (l, none)
unfolding label
label-last [] h = refl
label-last (c ∷ l) (n, h) = ground (arith, n, label-last l h)

label-more : (l p : List ℕ) → HasNoDot l → label (l ++ 46 ∷ p) ≡ (l, some p)
unfolding label
label-more [] p h = refl
label-more (c ∷ l) p (n, h) = ground (arith, n, label-more l p h)

label-HasNoDot : (p : List ℕ) → HasNoDot (label p).0
unfolding label
label-HasNoDot [] = tt
label-HasNoDot (c ∷ p) = elim (Bool-cases (c == 46)) [
  | inl d ↦ rw (d) tt
  | inr n ↦ rw (n) (ground (arith, n), label-HasNoDot p)
]

label-none : (p : List ℕ) → (label p).1 ≡ none → (label p).0 ≡ p
unfolding label
label-none [] e = refl
label-none (c ∷ p) e = elim (Bool-cases (c == 46)) [
  | inl d ↦ absurd (ground (arith, d, e))
  | inr n ↦ ground (arith, n, label-none p (ground (arith, n, e)))
]

label-some : (p q : List ℕ) → (label p).1 ≡ some q → p ≡ (label p).0 ++ 46 ∷ q
unfolding label
label-some [] q e = absurd cc
label-some (c ∷ p) q e = elim (Bool-cases (c == 46)) [
  | inl d ↦ ground (arith, d, e)
  | inr n ↦ ground (arith, n, label-some p q (ground (arith, n, e)))
]

fits : (n : ℕ) (l : List ℕ) → IsLabel l → n + length l + 6 ≤ 512 → bad_label n l ≡ false
unfolding bad_label
fits n l (h, h', d) s = ground (arith, h, h', s)

step :
    (fuel n c : ℕ) (p l : List ℕ) (rest : Option (List ℕ))
    → label (c ∷ p) ≡ (l, rest)
    → build_labels (suc fuel) n (c ∷ p)
      ≡ write_label (bad_label n l) l rest (build_labels fuel (n + 1 + length l))
unfolding build_labels
step fuel n c p l rest e =
    ap (λ x. write_label (bad_label n x.0) x.0 x.1 (build_labels fuel (n + 1 + length x.0))) e

build-last :
    (fuel n : ℕ) (l : List ℕ)
    → IsLabel l
    → length l ≤ fuel
    → n + length l + 6 ≤ 512
    → build_labels fuel n l ≡ some (length l ∷ l)
unfolding write_label
build-last fuel n [] (h, h', d) f s = elim h [ ]
build-last zero n (c ∷ l) (h, h', d) f s = absurd (omega arith)
build-last (suc fuel) n (c ∷ l) (h, h', d) f s =
    step fuel n c l (c ∷ l) none (label-last (c ∷ l) d) ∙ rw (fits n (c ∷ l) (h, h', d) s) refl

build-more :
    (fuel n : ℕ) (l p rest : List ℕ)
    → IsLabel l
    → n + length l + 6 ≤ 512
    → build_labels fuel (n + 1 + length l) p ≡ some rest
    → build_labels (suc fuel) n (l ++ 46 ∷ p) ≡ some (length l ∷ l ++ rest)
unfolding write_label
build-more fuel n [] p rest (h, h', d) s e = elim h [ ]
build-more fuel n (c ∷ l) p rest (h, h', d) s e =
    step fuel n c (l ++ 46 ∷ p) (c ∷ l) (some p) (label-more (c ∷ l) p d)
    ∙ rw (fits n (c ∷ l) (h, h', d) s, e) refl

-- A name that labels spell gives them.
build_labels_complete :
    (fuel n : ℕ) (ls : List (List ℕ)) (p : List ℕ)
    → Spells ls p
    → All IsLabel ls
    → length p ≤ fuel
    → n + length p + 6 ≤ 512
    → build_labels fuel n p ≡ some (wire ls)
unfolding build_labels
build_labels_complete fuel n _ _ done h f s = refl
build_labels_complete fuel n _ _ (last l) (h, t) f s =
    build-last fuel n l h f s ∙ ap (λ w. some (length l ∷ w)) (sym (append-nil l))
build_labels_complete zero n _ _ (more l ls p k) (h, t) f s =
    absurd (omega (arith, f, length-append l (46 ∷ p)))
build_labels_complete (suc fuel) n _ _ (more l ls p k) (h, t) f s =
    build-more fuel n l p (wire ls) h (omega (arith, s, length-append l (46 ∷ p))) (
      build_labels_complete fuel (n + 1 + length l) ls p k t
        (omega (arith, f, length-append l (46 ∷ p))) (omega (arith, s, length-append l (46 ∷ p))))

write_label-cases :
    (b : Bool) (l : List ℕ) (rest : Option (List ℕ)) (others : List ℕ → Option (List ℕ))
    (w : List ℕ)
    → write_label b l rest others ≡ some w
    → (b ≡ false)
      × (((rest ≡ none) × (w ≡ length l ∷ l))
          ⊎ ((p : List ℕ) × (v : List ℕ) × (rest ≡ some p)
              × (others p ≡ some v)
              × (w ≡ length l ∷ l ++ v)))
unfolding write_label
write_label-cases true l rest others w e = absurd cc
write_label-cases false l none others w e = (refl, inl (refl, cc))
write_label-cases false l (some p) others w e = elim (Option-cases (others p)) [
  | inl n ↦ absurd (ground (arith, n, e))
  | inr (v, f) ↦ (refl, inr (p, v, refl, f, ground (arith, f, e)))
]

good-IsLabel : (n : ℕ) (p : List ℕ) → bad_label n (label p).0 ≡ false → IsLabel (label p).0
unfolding bad_label
good-IsLabel n p g = (ground (arith, g), ground (arith, g), label-HasNoDot p)

build_labels-nil : (fuel n : ℕ) → build_labels fuel n [] ≡ some []
unfolding build_labels
build_labels-nil zero n = refl
build_labels-nil (suc fuel) n = refl

-- What the code writes spells the name.
build_labels_sound :
    (fuel n : ℕ) (p w : List ℕ)
    → build_labels fuel n p ≡ some w
    → (ls : List (List ℕ)) × Spells ls p × All IsLabel ls × (w ≡ wire ls)
unfolding build_labels
build_labels_sound fuel n [] w e = ([], done, tt, ground (arith, e, build_labels-nil fuel n))
build_labels_sound zero n (c ∷ p) w e = absurd cc
build_labels_sound (suc fuel) n (c ∷ p) w e =
    let (g, cases) =
      write_label-cases (bad_label n (label (c ∷ p)).0) (label (c ∷ p)).0 (label (c ∷ p)).1
        (build_labels fuel (n + 1 + length (label (c ∷ p)).0)) w e in
    elim cases [
      | inl (no_rest, q) ↦ (
        (label (c ∷ p)).0 ∷ [],
        subst (Spells ((label (c ∷ p)).0 ∷ [])) (label-none (c ∷ p) no_rest)
            (last (label (c ∷ p)).0),
        (good-IsLabel n (c ∷ p) g, tt),
        q ∙ ap (λ v. length (label (c ∷ p)).0 ∷ v) (sym (append-nil (label (c ∷ p)).0)),
      )
      | inr (p', v, rest, f, q) ↦
          let (ls, k, t, r) = build_labels_sound fuel (n + 1 + length (label (c ∷ p)).0) p' v f in
          (
            (label (c ∷ p)).0 ∷ ls,
            subst (Spells ((label (c ∷ p)).0 ∷ ls)) (sym (label-some (c ∷ p) p' rest))
                (more (label (c ∷ p)).0 ls p' k),
            (good-IsLabel n (c ∷ p) g, t),
            q ∙ ap (λ x. length (label (c ∷ p)).0 ∷ (label (c ∷ p)).0 ++ x) r,
          )
    ]

-- A query with its labels in it.
abbrev pub query_of : ℕ → List ℕ → List ℕ
query_of id labels = query_header id ++ (labels ++ (0 ∷ 0 ∷ 1 ∷ 0 ∷ 1 ∷ []))

query-some :
    (host w : List ℕ) (id : ℕ)
    → length host ≤ 253
    → build_labels (length host) 12 host ≡ some w
    → dns_build_query host id ≡ some (query_of id w)
unfolding dns_build_query
query-some host w id h e =
    rw (let t : ltb 253 (length host) ≡ false = ground (arith, h) in t, e) refl

query-cases :
    (host q : List ℕ) (id : ℕ)
    → dns_build_query host id ≡ some q
    → (w : List ℕ) × (length host ≤ 253)
      × (build_labels (length host) 12 host ≡ some w)
      × (q ≡ query_of id w)
unfolding dns_build_query
query-cases host q id e = elim (Bool-cases (ltb 253 (length host))) [
  | inl long ↦ absurd (ground (arith, long, e))
  | inr s ↦ elim (Option-cases (build_labels (length host) 12 host)) [
    | inl n ↦ absurd (ground (arith, s, n, e))
    | inr (w, f) ↦ (w, ground (arith, s), f, ground (arith, s, f, e))
  ]
]

-- The query for a name of at most 253 bytes that labels of 1 to 63 bytes spell, with a dot behind
-- each but perhaps the last: the header, the labels behind their lengths, the end, and the type and
-- class. For any other name `dns_build_query` fails.
pub dns_build_query_lem :
    (host : List ℕ) (id : ℕ) (q : List ℕ)
    → (dns_build_query host id ≡ some q) ↔ (
        (ls : List (List ℕ)) × Spells ls host
        × All IsLabel ls
        × (length host ≤ 253)
        × (q ≡ query_of id (wire ls)))
dns_build_query_lem host id q = (
  λ e.
      let (w, small, f, r) = query-cases host q id e in
      let (ls, k, t, v) = build_labels_sound (length host) 12 host w f in
      (ls, k, t, small, r ∙ ap (query_of id) v),
  λ made.
      let (ls, k, t, small, r) = made in
      query-some host (wire ls) id small
        (build_labels_complete (length host) 12 ls host k t (omega arith) (omega (arith, small)))
      ∙ ap some (sym r),
)
