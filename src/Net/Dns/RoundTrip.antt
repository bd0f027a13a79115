-- ===== src/Net/Dns/RoundTrip.antt =====
-- A query of drivers/net/dns.c and the answer to it.
use mathlib.Core.List.{append_assoc}
use core_z_os.Base.{
  ℕ, suc, ◌+◌, ◌%◌, ◌^◌, ◌≤◌, ◌<◌, ◌≡◌, refl, sym, ap, ap₂, ◌∙◌, true, false, some, List, [], ◌∷◌,
  ◌++◌, arith, ltb, ◌==◌, length, length-append, drop, All,
}
use core_z_os.Net.{byte_at, net_put16, net_be16}
use core_z_os.Net.Dns.{
  query_header, skip_loop, skipped, dns_skip_name, after_name, skip_questions, find_address,
  dns_build_query, dns_parse_answer,
}
use core_z_os.Net.Dns.Query.{IsLabel, wire, dns_build_query_lem}
use core_z_os.Net.Dns.Answer.{record_a, skip-wire, find_address-record}

-- The header of an answer to one question with an records, whatever its other counts are.
abbrev pub answer_header : ℕ → ℕ → ℕ → ℕ → ℕ → ℕ → List ℕ
answer_header id f0 f1 an ns ar =
    net_put16 id ++ (f0 ∷ f1 ∷ 0 ∷ 1 ∷ net_put16 an ++ (net_put16 ns ++ net_put16 ar))

module _ (id f0 f1 an ns ar ttl ip : ℕ) (ls : List (List ℕ)) (after : List ℕ)
    (labels : All IsLabel ls) where
  head : List ℕ
  head = answer_header id f0 f1 (suc an) ns ar

  question : List ℕ
  question = wire ls ++ (0 ∷ 0 ∷ 1 ∷ 0 ∷ 1 ∷ [])

  answer : List ℕ
  answer = head ++ (question ++ record_a ttl ip after)

  length-head : length head ≡ 12
  unfolding head net_put16
  length-head = refl

  skip : dns_skip_name answer 12 ≡ skipped (12 + (length (wire ls) + 1))
  unfolding answer question dns_skip_name
  skip =
      ap₂ (skip_loop (length answer + 1)) moved (sym length-head)
      ∙ (skip-wire ls (length answer + 1) head rest labels (omega (arith, long))
          ∙ ap (λ n. skipped (n + (length (wire ls) + 1))) length-head)
    where
      rest : List ℕ
      rest = 0 ∷ 1 ∷ 0 ∷ 1 ∷ record_a ttl ip after

      moved : answer ≡ head ++ (wire ls ++ 0 ∷ rest)
      moved =
          ap (λ x. head ++ x)
            (append_assoc (wire ls) (0 ∷ 0 ∷ 1 ∷ 0 ∷ 1 ∷ []) (record_a ttl ip after))

      long : length (wire ls) ≤ length answer
      long = omega (
        arith,
        ap length moved,
        length-append head (wire ls ++ 0 ∷ rest),
        length-append (wire ls) (0 ∷ rest),
      )

  skip_one : skip_questions 1 answer 12 ≡ some (12 + (length (wire ls) + 1) + 4)
  unfolding skip_questions after_name
  skip_one = ap (λ s. after_name s (λ o. some (o + 4))) skip

  found : ip < 2 ^ 32 → find_address (suc an) answer (12 + (length (wire ls) + 1) + 4) ≡ some ip
  unfolding answer question
  found small =
      ap₂ (find_address (suc an)) (sym (append_assoc head question (record_a ttl ip after))) (
        omega (
          arith,
          length-append head question,
          length-head,
          length-append (wire ls) (0 ∷ 0 ∷ 1 ∷ 0 ∷ 1 ∷ []),
        ))
      ∙ find_address-record (head ++ question) after ttl ip an small

  fields :
      id < 2 ^ 16
      → suc an < 2 ^ 16
      → (net_be16 answer 0 ≡ id)
        × (byte_at answer 3 ≡ f1)
        × (net_be16 answer 4 ≡ 1)
        × (net_be16 answer 6 ≡ suc an)
        × (ltb (length answer) 12 ≡ false)
  unfolding answer head net_put16 net_be16
  fields i a = (omega arith, refl, refl, omega arith, ground arith)

  parsed :
      id < 2 ^ 16
      → suc an < 2 ^ 16
      → f1 % 16 ≡ 0
      → ip < 2 ^ 32
      → dns_parse_answer answer id ≡ some ip
  unfolding dns_parse_answer
  parsed i a f s =
      let (id_eq, flags, qd, an_eq, long) = fields i a in
      rw
        (
          long,
          id_eq,
          flags,
          f,
          qd,
          skip_one,
          an_eq,
          found s,
          (let e : (id == id) ≡ true = ground arith in e),
        )
        refl

-- An answer to a query that `dns_build_query` made for a name: with the query's id of 16 bits,
-- no error, the question repeated, and the record of an address of 32 bits, which names the
-- question's name by the pointer 0xC00C, first among its fewer than 2 ^ 16 records.
-- `dns_parse_answer` gives that address, whatever follows it.
pub dns_roundtrip :
    (host q after : List ℕ) (id f0 f1 an ns ar ttl ip : ℕ)
    → dns_build_query host id ≡ some q
    → id < 2 ^ 16
    → suc an < 2 ^ 16
    → f1 % 16 ≡ 0
    → ip < 2 ^ 32
    → dns_parse_answer
        (answer_header id f0 f1 (suc an) ns ar ++ (drop 12 q ++ record_a ttl ip after))
        id
      ≡ some ip
unfolding query_header net_put16 answer head question
dns_roundtrip host q after id f0 f1 an ns ar ttl ip built i a f s =
    let (ls, k, labels, small, e) = (dns_build_query_lem host id q).0 built in
    ap
      (λ x.
        dns_parse_answer
          (answer_header id f0 f1 (suc an) ns ar ++ (drop 12 x ++ record_a ttl ip after)) id)
      e
    ∙ parsed id f0 f1 an ns ar ttl ip ls after labels i a f s
