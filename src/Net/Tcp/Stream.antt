-- ===== src/Net/Tcp/Stream.antt =====
-- Bytes of a stream by their sequence numbers, and what a receiver of drivers/net/tcp.c has of them.
use mathlib.Core.List.{append_assoc}
use core_z_os.Base.{
  false, ℕ, zero, suc, ◌+◌, ◌-◌, ◌%◌, ◌^◌, ◌≤◌, ◌<◌, ◌≡◌, sym, ap, ap₂, ◌∙◌, List, [], ◌∷◌, ◌++◌,
  arith, ltb, length, take, drop, length-append, length-take, length-drop, drop-drop, drop-take,
  take_all, take-take, take-prefix, drop-prefix,
}
use core_z_os.Net.Tcp.{Rx, seq_lt, add32, sub32, tcp_rx_len}
use core_z_os.Net.Tcp.Receive.{tcp_rx_put}
use core_z_os.Net.Tcp.Ring.{IsRing, contents, tcp_rx_put_lem}

-- The sequence number of the byte at the offset o of a stream whose first byte has the number b.
abbrev pub at : ℕ → ℕ → ℕ
at b o = (b + o) % 2 ^ 32

-- Numbers that are fewer than 2 ^ 31 apart are told apart as their offsets are.
pub seq_lt-at : (b x y : ℕ) → x < 2 ^ 31 → y < 2 ^ 31 → seq_lt (at b x) (at b y) ≡ ltb x y
unfolding seq_lt
seq_lt-at b x y h k = ground (arith, h, k)

pub seq_lt_self : (n : ℕ) → seq_lt n n ≡ false
unfolding seq_lt
seq_lt_self n = ground arith

pub sub32-at : (b x y : ℕ) → x ≤ y → y < 2 ^ 32 → sub32 (at b y) (at b x) ≡ y - x
sub32-at b x y h k = omega arith

pub add32-at : (b x n : ℕ) → add32 (at b x) n ≡ at b (x + n)
add32-at b x n = omega arith

pub at-injective : (b x y : ℕ) → x < 2 ^ 31 → y < 2 ^ 31 → at b x ≡ at b y → x ≡ y
at-injective b x y h k e = omega (arith, e)

-- The bytes stand in the stream at the offset o.
pub record StandsAt (stream : List ℕ) (o : ℕ) (bytes : List ℕ) : Type 0 where
  pub inside : o + length bytes ≤ length stream
  pub same : bytes ≡ take (length bytes) (drop o stream)

pub StandsAt-drop :
    (stream : List ℕ) (o n : ℕ) (bytes : List ℕ)
    → n ≤ length bytes
    → StandsAt stream o bytes
    → StandsAt stream (o + n) (drop n bytes)
StandsAt-drop stream o n bytes h s = record {
  inside = omega (arith, length-drop n bytes, s.inside);
  same =
      ap (drop n) s.same
      ∙ (drop-take n (length bytes) (drop o stream)
          ∙ ap₂ take
              (let e : length bytes - n ≡ length (drop n bytes) =
                  omega (arith, length-drop n bytes) in
                e)
              (drop-drop o n stream));
}

pub StandsAt-take :
    (stream : List ℕ) (o n : ℕ) (bytes : List ℕ)
    → n ≤ length bytes
    → StandsAt stream o bytes
    → StandsAt stream o (take n bytes)
StandsAt-take stream o n bytes h s = record {
  inside = omega (arith, size, s.inside);
  same =
      ap (take n) s.same
      ∙ (take-take n (length bytes) (drop o stream) h
          ∙ ap (λ k. take k (drop o stream)) (sym size));
}
  where
    size : length (take n bytes) ≡ n
    size = omega (arith, length-take n bytes)

-- The receiver has the first bytes of the stream: those that its caller has taken, and those in the
-- ring.
pub record Receives (stream : List ℕ) (b : ℕ) (rx : Rx) (rcv_nxt : ℕ) (taken : List ℕ)
    : Type 0 where
  pub ring : IsRing rx
  pub next : rcv_nxt ≡ at b (length taken + length (contents rx))
  pub bound : length taken + length (contents rx) ≤ length stream
  pub prefix : taken ++ contents rx ≡ take (length taken + length (contents rx)) stream

take-append-drop-take : (n k : ℕ) (xs : List ℕ) → take n xs ++ take k (drop n xs) ≡ take (n + k) xs
take-append-drop-take zero k xs = ap (λ m. take m xs) (let e : k ≡ zero + k = omega arith in e)
take-append-drop-take (suc n) k [] =
    take_all k [] (omega arith) ∙ sym (take_all (suc n + k) [] (omega arith))
take-append-drop-take (suc n) k (x ∷ xs) =
    ap (λ r. x ∷ r) (take-append-drop-take n k xs)
    ∙ ap (λ m. take m (x ∷ xs)) (let e : suc (n + k) ≡ suc n + k = omega arith in e)

-- New bytes are put behind those that are there.
pub Receives-put :
    (stream : List ℕ) (b : ℕ) (rx : Rx) (rcv_nxt : ℕ) (taken bytes : List ℕ)
    → Receives stream b rx rcv_nxt taken
    → tcp_rx_len rx + length bytes ≤ 4096
    → StandsAt stream (length taken + length (contents rx)) bytes
    → Receives stream b (tcp_rx_put rx bytes) (add32 rcv_nxt (length bytes)) taken
Receives-put stream b rx rcv_nxt taken bytes r room s =
    let (valid, more) = tcp_rx_put_lem bytes rx r.ring room in
    let grown : length taken + length (contents (tcp_rx_put rx bytes))
        ≡ length taken + length (contents rx) + length bytes =
      omega (arith, ap length more, length-append (contents rx) bytes) in
    record {
      ring = valid;
      next = omega (arith, r.next, grown);
      bound = omega (arith, s.inside, grown);
      prefix =
          ap (λ u. taken ++ u) more
          ∙ (sym (append_assoc taken (contents rx) bytes)
              ∙ (ap₂ (λ u v. u ++ v) r.prefix s.same
                  ∙ (take-append-drop-take (length taken + length (contents rx)) (length bytes)
                        stream
                      ∙ ap (λ k. take k stream) (sym grown))));
    }

-- The caller takes bytes out of the ring.
pub Receives-take :
    (stream : List ℕ) (b : ℕ) (rx rx' : Rx) (rcv_nxt : ℕ) (taken bytes : List ℕ)
    → Receives stream b rx rcv_nxt taken
    → IsRing rx'
    → bytes ++ contents rx' ≡ contents rx
    → Receives stream b rx' rcv_nxt (taken ++ bytes)
Receives-take stream b rx rx' rcv_nxt taken bytes r valid e = record {
  ring = valid;
  next = r.next ∙ ap (at b) (sym same);
  bound = omega (arith, r.bound, same);
  prefix =
      append_assoc taken bytes (contents rx')
      ∙ (ap (λ u. taken ++ u) e ∙ (r.prefix ∙ ap (λ k. take k stream) (sym same)));
}
  where
    same : length (taken ++ bytes) + length (contents rx') ≡ length taken + length (contents rx)
    same = omega (arith, ap length e, length-append bytes (contents rx'), length-append taken bytes)

-- More bytes are added to the stream.
pub Receives-more :
    (stream more : List ℕ) (b : ℕ) (rx : Rx) (rcv_nxt : ℕ) (taken : List ℕ)
    → Receives stream b rx rcv_nxt taken
    → Receives (stream ++ more) b rx rcv_nxt taken
Receives-more stream more b rx rcv_nxt taken r = record {
  ring = r.ring;
  next = r.next;
  bound = omega (arith, r.bound, length-append stream more);
  prefix = r.prefix ∙ sym (take-prefix (length taken + length (contents rx)) stream more r.bound);
}

pub StandsAt-more :
    (stream more : List ℕ) (o : ℕ) (bytes : List ℕ)
    → StandsAt stream o bytes
    → StandsAt (stream ++ more) o bytes
StandsAt-more stream more o bytes s = record {
  inside = omega (arith, s.inside, length-append stream more);
  same =
      s.same
      ∙ sym (
          ap (take (length bytes)) (drop-prefix o stream more (omega (arith, s.inside)))
          ∙ take-prefix (length bytes) (drop o stream) more
              (omega (arith, s.inside, length-drop o stream)));
}
