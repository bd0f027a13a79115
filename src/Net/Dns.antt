-- ===== src/Net/Dns.antt =====
-- The queries and the answers of drivers/net/dns.c. The buffers have 512 and 1024 bytes, so that no
-- position wraps.
pub mod Query
pub mod Answer
pub mod RoundTrip
use core_z_os.Base.{
  ℕ, zero, suc, ◌+◌, ◌-◌, ◌*◌, ◌/◌, ◌%◌, ◌^◌, Bool, true, false, not, ◌&&◌, ◌||◌, Option, none,
  some, List, [], ◌∷◌, ◌++◌, ltb, leb, ◌==◌, if◌then◌else◌, length,
}
use mathlib.Core.Option
use core_z_os.Net.{byte_at, net_be16, net_be32, net_put16}

-- 0 is for the code's default.
unfoldable pub dns_set_nameserver : ℕ → ℕ → ℕ
dns_set_nameserver ns s_ns = if not (ns == 0) then ns else s_ns

-- The bytes up to the next dot, and what follows it where there is one.
unfoldable pub label : List ℕ → List ℕ × Option (List ℕ)
label [] = ([], none)
label (c ∷ p) = let rest = label p in if c == 46 then ([], some p) else (c ∷ rest.0, rest.1)

-- The tests of a label, with n bytes written before it.
unfoldable pub bad_label : ℕ → List ℕ → Bool
bad_label n l = (length l == 0) || ltb 63 (length l) || ltb 512 (n + length l + 6)

-- The label is written, and what `others` gives for the rest of the name.
unfoldable pub write_label :
    Bool → List ℕ → Option (List ℕ) → (List ℕ → Option (List ℕ)) → Option (List ℕ)
write_label true l rest others = none
write_label false l none others = some (length l ∷ l)
write_label false l (some p) others = Option.map (λ w. length l ∷ l ++ w) (others p)

-- The loop over the labels, with n bytes written before it; the fuel is the length of the name.
unfoldable pub build_labels : ℕ → ℕ → List ℕ → Option (List ℕ)
build_labels fuel n [] = some []
build_labels zero n (c ∷ p) = none
build_labels (suc fuel) n (c ∷ p) =
    let (l, rest) = label (c ∷ p) in
    write_label (bad_label n l) l rest (build_labels fuel (n + 1 + length l))

unfoldable pub query_header : ℕ → List ℕ
query_header id = net_put16 id ++ (1 ∷ 0 ∷ 0 ∷ 1 ∷ 0 ∷ 0 ∷ 0 ∷ 0 ∷ 0 ∷ 0 ∷ [])

unfoldable pub dns_build_query : List ℕ → ℕ → Option (List ℕ)
dns_build_query host id =
    if ltb 253 (length host) then none else elim (build_labels (length host) 12 host) [
      | none ↦ none
      | some labels ↦ some (query_header id ++ (labels ++ (0 ∷ 0 ∷ 1 ∷ 0 ∷ 1 ∷ [])))
    ]

-- How `dns_skip_name` ends: -1, or with the position behind the name; the model can also run out of
-- fuel.
pub data Skip : Type 0 where
  bad : Skip
  skipped : ℕ → Skip
  no_fuel : Skip

unfoldable pub skip_loop : ℕ → List ℕ → ℕ → Skip
skip_loop zero b off = no_fuel
skip_loop (suc fuel) b off =
    let l = byte_at b off in
    let next = skip_loop fuel b (off + (1 + l)) in
    if leb (length b) off
    then bad
    else if l == 0
    then skipped (off + 1)
    else if leb 192 l
    then skipped (off + 2)
    else if ltb 63 l
    then bad
    else next

unfoldable pub dns_skip_name : List ℕ → ℕ → Skip
dns_skip_name b off = skip_loop (length b + 1) b off

-- What comes behind a name; none is -1.
unfoldable pub after_name : Skip → (ℕ → Option ℕ) → Option ℕ
after_name bad next = none
after_name (skipped off) next = next off
after_name no_fuel next = none

-- The loop over the questions: the position behind them, or none for -1.
unfoldable pub skip_questions : ℕ → List ℕ → ℕ → Option ℕ
skip_questions zero b off = some off
skip_questions (suc qd) b off = after_name (dns_skip_name b off) (λ o. skip_questions qd b (o + 4))

-- The record behind its name, and `next` for the position behind it.
unfoldable pub read_record : List ℕ → (ℕ → Option ℕ) → ℕ → Option ℕ
read_record b next o =
    let type = net_be16 b o in
    let rdlen = net_be16 b (o + 8) in
    let others = next (o + 10 + rdlen) in
    if ltb (length b) (o + 10)
    then none
    else if ltb (length b) (o + 10 + rdlen)
    then none
    else if (type == 1) && (rdlen == 4)
    then some (net_be32 b (o + 10))
    else others

-- The loop over the answers: the first address, or none for -1.
unfoldable pub find_address : ℕ → List ℕ → ℕ → Option ℕ
find_address zero b off = none
find_address (suc an) b off = after_name (dns_skip_name b off) (read_record b (find_address an b))

unfoldable pub dns_parse_answer : List ℕ → ℕ → Option ℕ
dns_parse_answer b id =
    if ltb (length b) 12
    then none
    else if not (net_be16 b 0 == id)
    then none
    else if not (byte_at b 3 % 16 == 0)
    then none
    else elim (skip_questions (net_be16 b 4) b 12) [
      | none ↦ none
      | some off ↦ find_address (net_be16 b 6) b off
    ]
