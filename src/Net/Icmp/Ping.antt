-- ===== src/Net/Icmp/Ping.antt =====
-- The replies that wait in the ring of drivers/net/icmp.c, in the order in which they came.
use core_z_os.Base.{
  ℕ, zero, suc, ◌+◌, ◌-◌, ◌%◌, ◌^◌, ◌≤◌, ◌<◌, ◌≡◌, ◌≢◌, inl, inr, refl, sym, ap, ap₂, ◌∙◌,
  Bool-cases, List, [], ◌∷◌, ◌++◌, arith, leb, ◌==◌, if◌then◌else◌, length, take, drop, set, get_or,
  length-set, get_or-set_self, get_or-set_ne,
}
use core_z_os.Net.Icmp.{NetPingReply, PingQueue, ping_push, nt_icmp_recv, no_reply}

pub record IsValid (p : PingQueue) : Type 0 where
  pub size : length p.q ≡ 32
  pub in_ring : p.head < 32
  pub bounded : p.cnt ≤ 32
  pub next : p.tail ≡ (p.head + p.cnt) % 32

-- n places of the ring, from h on.
abbrev pub window : List NetPingReply → ℕ → ℕ → List NetPingReply
window q h zero = []
window q h (suc n) = get_or q h no_reply ∷ window q ((h + 1) % 32) n

abbrev pub contents : PingQueue → List NetPingReply
contents p = window p.q p.head p.cnt

window-set :
    (q : List NetPingReply) (h n t : ℕ) (v : NetPingReply)
    → h < 32
    → ((k : ℕ) → k < n → t ≢ (h + k) % 32)
    → window (set q t v) h n ≡ window q h n
window-set q h zero t v l f = refl
window-set q h (suc n) t v l f =
    ap₂ (λ x xs. x ∷ xs) (get_or-set_ne q v no_reply (λ e. f 0 (omega arith) (omega (arith, e, l))))
      (window-set q ((h + 1) % 32) n t v (omega arith)
        (λ k k< e. f (k + 1) (omega arith) (omega (arith, e))))

window-snoc :
    (q : List NetPingReply) (h n : ℕ)
    → h < 32
    → window q h (suc n) ≡ window q h n ++ get_or q ((h + n) % 32) no_reply ∷ []
window-snoc q h zero l =
    ap (λ i. get_or q i no_reply ∷ []) (let e : h ≡ (h + 0) % 32 = omega arith in e)
window-snoc q h (suc n) l =
    ap (λ xs. get_or q h no_reply ∷ xs)
      (window-snoc q ((h + 1) % 32) n (omega arith)
        ∙ ap (λ i. window q ((h + 1) % 32) n ++ get_or q i no_reply ∷ [])
            (let e : ((h + 1) % 32 + n) % 32 ≡ (h + suc n) % 32 = omega arith in e))

abbrev pub reply_at : ℕ → ℕ → ℕ → ℕ → PingQueue → NetPingReply
reply_at now src id seq p = record {
  src = src;
  id = id;
  seq = seq;
  rtt_ms = (now + 2 ^ 32 - p.tmo) % 2 ^ 32;
}

pushed :
    (p : PingQueue) (r : NetPingReply)
    → IsValid p
    → p.cnt < 32
    → window (set p.q p.tail r) p.head (p.cnt + 1) ≡ contents p ++ r ∷ []
pushed p r v room =
    ap (window (set p.q p.tail r) p.head) (let e : p.cnt + 1 ≡ suc p.cnt = omega arith in e)
    ∙ (window-snoc (set p.q p.tail r) p.head p.cnt v.in_ring
        ∙ ap₂ (λ xs x. xs ++ x ∷ [])
            (window-set p.q p.head p.cnt p.tail r v.in_ring
              (λ k k< e. omega (arith, v.next, e, v.in_ring)))
            (ap (λ i. get_or (set p.q p.tail r) i no_reply) (sym v.next)
              ∙ get_or-set_self p.q p.tail r no_reply (omega (arith, v.next, v.size))))

-- A reply that is pushed comes after those that wait, or is dropped where 32 of them wait. The ring
-- stays valid.
pub ping_push_lem :
    (now src id seq : ℕ) (p : PingQueue)
    → IsValid p
    → IsValid (ping_push now src id seq p)
      × (contents (ping_push now src id seq p)
          ≡ (if leb 32 p.cnt then contents p else contents p ++ reply_at now src id seq p ∷ []))
unfolding ping_push
ping_push_lem now src id seq p v = elim (Bool-cases (leb 32 p.cnt)) [
  | inl full ↦ rw (full) (v, refl)
  | inr room ↦ rw (room) (
    record {
      size = length-set p.q p.tail (reply_at now src id seq p) ∙ v.size;
      in_ring = v.in_ring;
      bounded = ground (arith, room, v.bounded);
      next = omega (arith, v.next);
    },
    pushed p (reply_at now src id seq p) v (ground (arith, room)),
  )
]

-- The queue without its oldest reply.
abbrev taken : PingQueue → PingQueue
taken p = record p { head = (p.head + 1) % 32; cnt = p.cnt - 1 }

taken-IsValid : (p : PingQueue) → IsValid p → 0 < p.cnt → IsValid (taken p)
taken-IsValid p v some_wait = record {
  size = v.size;
  in_ring = omega arith;
  bounded = omega (arith, v.bounded);
  next = omega (arith, v.next, some_wait);
}

-- `nt_icmp_recv` gives the oldest replies, as many as there are and at most as many as it may, and
-- leaves the others in their order. The ring stays valid.
pub nt_icmp_recv_lem :
    (n : ℕ) (p : PingQueue)
    → IsValid p
    → ((nt_icmp_recv n p).0 ≡ take n (contents p))
      × IsValid (nt_icmp_recv n p).1
      × (contents (nt_icmp_recv n p).1 ≡ drop n (contents p))
unfolding nt_icmp_recv
nt_icmp_recv_lem zero p v = (refl, v, refl)
nt_icmp_recv_lem (suc n) p v = elim (Bool-cases (p.cnt == 0)) [
  | inl z ↦
      let none_wait : contents p ≡ [] =
        ap (window p.q p.head) (let e : p.cnt ≡ 0 = ground (arith, z) in e) in
      rw (z, none_wait) (refl, v, refl)
  | inr w ↦
      let one_waits : contents p ≡ get_or p.q p.head no_reply ∷ contents (taken p) =
        ap (window p.q p.head) (let e : p.cnt ≡ suc (p.cnt - 1) = ground (arith, w) in e) in
      let (first, valid, rest) =
        nt_icmp_recv_lem n (taken p) (taken-IsValid p v (ground (arith, w))) in
      rw (w, one_waits) (ap (λ xs. get_or p.q p.head no_reply ∷ xs) first, valid, rest)
]

-- The replies of a valid ring are a queue of at most 32: a reply that is pushed comes after those
-- that wait, or is dropped where 32 wait; `nt_icmp_recv` gives the oldest, as many as there are and at
-- most as many as it may, and leaves the others in their order. Both keep the ring valid.
pub ping_fifo :
    (now src id seq n : ℕ) (p : PingQueue)
    → IsValid p
    → IsValid (ping_push now src id seq p)
      × (contents (ping_push now src id seq p)
          ≡ (if leb 32 p.cnt then contents p else contents p ++ reply_at now src id seq p ∷ []))
      × ((nt_icmp_recv n p).0 ≡ take n (contents p))
      × IsValid (nt_icmp_recv n p).1
      × (contents (nt_icmp_recv n p).1 ≡ drop n (contents p))
ping_fifo now src id seq n p v =
    let (valid, pushed_at_end) = ping_push_lem now src id seq p v in
    let (oldest, valid', others) = nt_icmp_recv_lem n p v in
    (valid, pushed_at_end, oldest, valid', others)
