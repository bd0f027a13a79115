-- ===== src/Net/Tcp/Ring.antt =====
-- The ring of received bytes of drivers/net/tcp.c as a queue.
use mathlib.Core.List.{append_assoc, append-nil}
use core_z_os.Base.{
  ℕ, zero, suc, ◌+◌, ◌%◌, ◌^◌, ◌≤◌, ◌<◌, ◌≡◌, ◌≢◌, refl, sym, ap, ap₂, ◌∙◌, List, [], ◌∷◌, ◌++◌,
  arith, length, set, get_or, length-set, get_or-set_self, get_or-set_ne,
}
use core_z_os.Net.Tcp.{Rx, tcp_rx_len, tcp_rx_room}
use core_z_os.Net.Tcp.Receive.{tcp_rx_put, rx_take}

pub record IsRing (rx : Rx) : Type 0 where
  pub size : length rx.buf ≡ 4096
  pub head_lt : rx.head < 2 ^ 16
  pub tail_lt : rx.tail < 2 ^ 16
  pub fits : tcp_rx_len rx ≤ 4096

-- n bytes of the ring, from the position h on.
abbrev pub window : List ℕ → ℕ → ℕ → List ℕ
window buf h zero = []
window buf h (suc n) = get_or buf (h % 4096) 0 ∷ window buf (suc h) n

abbrev pub contents : Rx → List ℕ
contents rx = window rx.buf rx.head (tcp_rx_len rx)

pub length-window : (buf : List ℕ) (h n : ℕ) → length (window buf h n) ≡ n
length-window buf h zero = refl
length-window buf h (suc n) = ap suc (length-window buf (suc h) n)

window-cong : (buf : List ℕ) (h k n : ℕ) → h % 4096 ≡ k % 4096 → window buf h n ≡ window buf k n
window-cong buf h k zero e = refl
window-cong buf h k (suc n) e =
    ap₂ (λ x xs. x ∷ xs) (ap (λ i. get_or buf i 0) e)
      (window-cong buf (suc h) (suc k) n (omega (arith, e)))

window-set :
    (buf : List ℕ) (h n t b : ℕ)
    → ((k : ℕ) → k < n → t ≢ (h + k) % 4096)
    → window (set buf t b) h n ≡ window buf h n
window-set buf h zero t b f = refl
window-set buf h (suc n) t b f =
    ap₂ (λ x xs. x ∷ xs) (get_or-set_ne buf b 0 (λ e. f 0 (omega arith) (omega (arith, e))))
      (window-set buf (suc h) n t b (λ k l e. f (k + 1) (omega arith) (omega (arith, e))))

window-snoc :
    (buf : List ℕ) (h n : ℕ)
    → window buf h (suc n) ≡ window buf h n ++ get_or buf ((h + n) % 4096) 0 ∷ []
window-snoc buf h zero =
    ap (λ i. get_or buf i 0 ∷ []) (let e : h % 4096 ≡ (h + 0) % 4096 = omega arith in e)
window-snoc buf h (suc n) =
    ap (λ xs. get_or buf (h % 4096) 0 ∷ xs)
      (window-snoc buf (suc h) n
        ∙ ap (λ i. window buf (suc h) n ++ get_or buf i 0 ∷ [])
            (let e : (suc h + n) % 4096 ≡ (h + suc n) % 4096 = omega arith in e))

-- The ring with one byte more.
abbrev put_one : Rx → ℕ → Rx
put_one rx b = record {
  buf = set rx.buf (rx.tail % 4096) b;
  head = rx.head;
  tail = (rx.tail + 1) % 2 ^ 16;
}

put_one-len :
    (rx : Rx) (b : ℕ)
    → IsRing rx
    → tcp_rx_len rx < 4096
    → tcp_rx_len (put_one rx b) ≡ suc (tcp_rx_len rx)
unfolding tcp_rx_len
put_one-len rx b v room = omega (arith, v.head_lt, v.tail_lt, room)

tail-eq : (rx : Rx) → IsRing rx → rx.tail ≡ (rx.head + tcp_rx_len rx) % 2 ^ 16
unfolding tcp_rx_len
tail-eq rx v = omega (arith, v.head_lt, v.tail_lt)

put_one-IsRing : (rx : Rx) (b : ℕ) → IsRing rx → tcp_rx_len rx < 4096 → IsRing (put_one rx b)
put_one-IsRing rx b v room = record {
  size = length-set rx.buf (rx.tail % 4096) b ∙ v.size;
  head_lt = v.head_lt;
  tail_lt = omega arith;
  fits = omega (arith, put_one-len rx b v room, room);
}

put_one-contents :
    (rx : Rx) (b : ℕ)
    → IsRing rx
    → tcp_rx_len rx < 4096
    → contents (put_one rx b) ≡ contents rx ++ b ∷ []
put_one-contents rx b v room =
    ap (window buf rx.head) (put_one-len rx b v room)
    ∙ (window-snoc buf rx.head (tcp_rx_len rx)
        ∙ ap₂ (λ xs x. xs ++ x ∷ [])
            (window-set rx.buf rx.head (tcp_rx_len rx) (rx.tail % 4096) b
              (λ k l e. omega (arith, tail-eq rx v, room, l, e)))
            (ap (λ i. get_or buf i 0) (omega (arith, tail-eq rx v))
              ∙ get_or-set_self rx.buf (rx.tail % 4096) b 0 (omega (arith, v.size))))
  where
    buf : List ℕ
    buf = set rx.buf (rx.tail % 4096) b

-- Bytes that fit go behind those that wait.
pub tcp_rx_put_lem :
    (bs : List ℕ) (rx : Rx)
    → IsRing rx
    → tcp_rx_len rx + length bs ≤ 4096
    → IsRing (tcp_rx_put rx bs) × (contents (tcp_rx_put rx bs) ≡ contents rx ++ bs)
unfolding tcp_rx_put
tcp_rx_put_lem [] rx v room = (v, sym (append-nil (contents rx)))
tcp_rx_put_lem (b ∷ bs) rx v room =
    let (valid, all) =
      tcp_rx_put_lem bs (put_one rx b) (put_one-IsRing rx b v (omega arith))
        (omega (arith, put_one-len rx b v (omega arith))) in
    (
      valid,
      all
          ∙ (ap (λ u. u ++ bs) (put_one-contents rx b v (omega arith))
              ∙ append_assoc (contents rx) (b ∷ []) bs),
    )

pub tcp_rx_room_lem : (rx : Rx) → IsRing rx → tcp_rx_len rx + tcp_rx_room rx ≡ 4096
unfolding tcp_rx_room
tcp_rx_room_lem rx v = omega (arith, v.fits)

-- The ring without its oldest byte.
abbrev less_one : Rx → Rx
less_one rx = record rx { head = (rx.head + 1) % 2 ^ 16 }

less_one-len :
    (rx : Rx) (n : ℕ)
    → IsRing rx
    → suc n ≤ tcp_rx_len rx
    → suc (tcp_rx_len (less_one rx)) ≡ tcp_rx_len rx
unfolding tcp_rx_len
less_one-len rx n v l = omega (arith, v.head_lt, v.tail_lt, l)

less_one-contents :
    (rx : Rx) (n : ℕ)
    → IsRing rx
    → suc n ≤ tcp_rx_len rx
    → contents rx ≡ get_or rx.buf (rx.head % 4096) 0 ∷ contents (less_one rx)
less_one-contents rx n v l =
    ap (window rx.buf rx.head) (sym (less_one-len rx n v l))
    ∙ ap (λ xs. get_or rx.buf (rx.head % 4096) 0 ∷ xs)
        (window-cong rx.buf (suc rx.head) ((rx.head + 1) % 2 ^ 16) (tcp_rx_len (less_one rx))
          (omega arith))

-- As many bytes as are asked for, of those that wait, come out in their order.
pub rx_take_lem :
    (n : ℕ) (rx : Rx)
    → IsRing rx
    → n ≤ tcp_rx_len rx
    → IsRing (rx_take n rx).1
      × ((rx_take n rx).0 ++ contents (rx_take n rx).1 ≡ contents rx)
      × (length (rx_take n rx).0 ≡ n)
unfolding rx_take
rx_take_lem zero rx v l = (v, refl, refl)
rx_take_lem (suc n) rx v l =
    let (valid, rest, len) =
      rx_take_lem n (less_one rx)
        (record {
          size = v.size;
          head_lt = omega arith;
          tail_lt = v.tail_lt;
          fits = omega (arith, v.fits, less_one-len rx n v l);
        })
        (omega (arith, less_one-len rx n v l)) in
    (
      valid,
      ap (λ xs. get_or rx.buf (rx.head % 4096) 0 ∷ xs) rest ∙ sym (less_one-contents rx n v l),
      ap suc len,
    )
