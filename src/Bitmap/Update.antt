-- ===== src/Bitmap/Update.antt =====
-- `bitmap_set` against `bitmap_scan_test`.
use Prim.Native.Nat.{bit_and, bit_or}
use native.Mathlib.Decide.{ℕ_discrete, dec_lt}
use core_z_os.Base.{
  ℕ, ◌+◌, ◌-◌, ◌*◌, ◌/◌, ◌%◌, ◌≤◌, ◌<◌, ◌≡◌, ◌≢◌, refl, ap, subst, Bool, true, false, not, none,
  some, arith, ltb, leb, ◌==◌, ==_iff, if◌then◌else◌, length, get_or, set, length-set,
  get_or-set_self, get_or-set_ne,
}
use core_z_os.Base.Bits.{
  bit, bit-zero, bit-le_one, bit_of_lt, bit-bit_and, bit-bit_or, bit-complement, bit_and-le, shr,
  shr-le, each_below, each_below_lem,
}
use core_z_os.Bitmap.{Bitmap, mask, bitmap_scan_test, bitmap_set}
use core_z_os.Bitmap.Word.{used, IsBytes}
use core_z_os.Bitmap.Ctz.{eq_zero_of_bits}

abbrev flag : Bool → ℕ
flag b = if b then 1 else 0

mask_table : ℕ → Bool
mask_table n = bit (shr 128 (n / 8)) (n % 8) == flag (n % 8 + n / 8 == 7)

-- The mask of an index has one bit.
bit-mask : (i m : ℕ) → m < 8 → bit (mask i) m ≡ flag (m + i % 8 == 7)
unfolding mask_table
bit-mask i m h =
    subst (λ k. bit (shr 128 k) m ≡ flag (m + k == 7)) high
      (subst (λ k. bit (shr 128 (n / 8)) k ≡ flag (k + n / 8 == 7)) low
        ((==_iff (bit (shr 128 (n / 8)) (n % 8)) (flag (n % 8 + n / 8 == 7))).0
          (each_below_lem mask_table {n = 64} n (omega arith) checked)))
  where
    n : ℕ
    n = i % 8 * 8 + m

    low : n % 8 ≡ m
    low = omega arith

    high : n / 8 ≡ i % 8
    high = omega arith

    checked : each_below mask_table 64 ≡ true
    checked = unfold each_below mask_table in refl

mask-le : (i : ℕ) → mask i ≤ 128
mask-le i = shr-le 128 (i % 8)

module _ (x i : ℕ) (h : x < 256) where
  and_bits : (m : ℕ) → bit (bit_and x (mask i)) m ≡ (if m + i % 8 == 7 then bit x m else 0)
  and_bits m = elim (dec_lt m 8) [
    | yes l ↦ ground (arith, bit-bit_and x (mask i) m, bit-mask i m l, bit-le_one x m)
    | no g ↦ ground (
      arith,
      bit-bit_and x (mask i) m,
      bit_of_lt 8 x m h,
      bit_of_lt 8 (mask i) m (omega (arith, mask-le i)),
    )
  ]

  tested : (not (bit_and x (mask i) == 0)) ≡ (bit x (7 - i % 8) == 1)
  tested = elim (ℕ_discrete (bit x (7 - i % 8)) 1) [
    | yes e ↦ ground (arith, e, nonzero e)
    | no n ↦ ground (arith, n, is_zero n)
  ]
    where
      nonzero : bit x (7 - i % 8) ≡ 1 → bit_and x (mask i) ≢ 0
      nonzero e z =
          ground (arith, and_bits (7 - i % 8), ap (λ y. bit y (7 - i % 8)) z, bit-zero (7 - i % 8))

      is_zero : bit x (7 - i % 8) ≢ 1 → bit_and x (mask i) ≡ 0
      is_zero n =
          eq_zero_of_bits (bit_and x (mask i)) (omega (arith, bit_and-le x (mask i), mask-le i))
            (λ m. off n m)
        where
          off : bit x (7 - i % 8) ≢ 1 → (m : ℕ) → bit (bit_and x (mask i)) m ≡ 0
          off n m = elim (ℕ_discrete m (7 - i % 8)) [
            | yes e ↦ ground (arith, and_bits m, bit-le_one x m, ap (bit x) e)
            | no d ↦ ground (arith, and_bits m)
          ]

  bit-set_bit :
      (m : ℕ) → m < 8 → bit (bit_or x (mask i)) m ≡ (if m + i % 8 == 7 then 1 else bit x m)
  bit-set_bit m l = ground (arith, bit-bit_or x (mask i) m, bit-mask i m l, bit-le_one x m)

  bit-clear_bit :
      (m : ℕ) → m < 8 → bit (bit_and x (255 - mask i)) m ≡ (if m + i % 8 == 7 then 0 else bit x m)
  bit-clear_bit m l = ground (
    arith,
    bit-bit_and x (255 - mask i) m,
    bit-mask i m l,
    bit-complement 8 (mask i) m (omega (arith, mask-le i)) l,
    bit-le_one x m,
  )

-- `bitmap_scan_test` reads the bit.
pub bitmap_scan_test-used :
    (b : Bitmap) (j : ℕ)
    → IsBytes b
    → bitmap_scan_test b j ≡ (if ltb (j / 8) (length b) then some (used b j == 1) else none)
unfolding bitmap_scan_test
bitmap_scan_test-used b j h = ground (arith, tested (get_or b (j / 8) 0) j (h (j / 8)))

bit-new_byte :
    (x i : ℕ) (v : Bool) (m : ℕ)
    → x < 256
    → m < 8
    → bit (if v then bit_or x (mask i) else bit_and x (255 - mask i)) m
      ≡ (if m + i % 8 == 7 then flag v else bit x m)
bit-new_byte x i true m h l = bit-set_bit x i h m l
bit-new_byte x i false m h l = bit-clear_bit x i h m l

-- `bitmap_set` changes the bit of its index and no other.
pub used-bitmap_set :
    (b : Bitmap) (i : ℕ) (v : Bool) (j : ℕ)
    → IsBytes b
    → i / 8 < length b
    → used (bitmap_set b i v) j ≡ (if j == i then flag v else used b j)
unfolding bitmap_set
used-bitmap_set b i v j h l = rw inside (elim (ℕ_discrete (i / 8) (j / 8)) [
  | yes e ↦ at_byte e
  | no n ↦ ground (arith, get_or-set_ne b new 0 n)
])
  where
    inside : leb (length b) (i / 8) ≡ false
    inside = ground arith

    new : ℕ
    new =
        if v
        then bit_or (get_or b (i / 8) 0) (mask i)
        else bit_and (get_or b (i / 8) 0) (255 - mask i)

    at_byte :
        i / 8 ≡ j / 8
        → bit (get_or (set b (i / 8) new) (j / 8) 0) (7 - j % 8)
          ≡ (if j == i then flag v else used b j)
    at_byte e =
        subst
          (λ k.
            bit (get_or (set b (i / 8) new) k 0) (7 - j % 8)
            ≡ (if j == i then flag v else bit (get_or b k 0) (7 - j % 8)))
          e
          (rw (get_or-set_self b (i / 8) new 0 l) (
            ground
              (arith, bit-new_byte (get_or b (i / 8) 0) i v (7 - j % 8) (h (i / 8)) (omega arith))))

new_byte_table : ℕ → Bool
new_byte_table n = ltb (bit_or (n / 8) (shr 128 (n % 8))) 256

new_byte-lt :
    (x i : ℕ) (v : Bool)
    → x < 256
    → (if v then bit_or x (mask i) else bit_and x (255 - mask i)) < 256
unfolding new_byte_table
new_byte-lt x i true h =
    subst (λ k. bit_or x (shr 128 k) < 256) low
      (subst (λ y. bit_or y (shr 128 (n % 8)) < 256) high
        (let t = each_below_lem new_byte_table {n = 2048} n (omega arith) checked in
          ground (arith, t)))
  where
    n : ℕ
    n = x * 8 + i % 8

    low : n % 8 ≡ i % 8
    low = omega arith

    high : n / 8 ≡ x
    high = omega arith

    checked : each_below new_byte_table 2048 ≡ true
    checked = unfold each_below new_byte_table in refl
new_byte-lt x i false h = omega (arith, bit_and-le x (255 - mask i))

-- A bitmap stays one of bytes.
pub bitmap_set-IsBytes : (b : Bitmap) (i : ℕ) (v : Bool) → IsBytes b → IsBytes (bitmap_set b i v)
unfolding bitmap_set
bitmap_set-IsBytes b i v h k = elim (dec_lt (i / 8) (length b)) [
  | yes l ↦ elim (ℕ_discrete (i / 8) k) [
    | yes e ↦ ground (
      arith,
      new_byte-lt (get_or b (i / 8) 0) i v (h (i / 8)),
      get_or-set_self b (i / 8)
          (if v
            then bit_or (get_or b (i / 8) 0) (mask i)
            else bit_and (get_or b (i / 8) 0) (255 - mask i))
          0 l,
      e,
    )
    | no n ↦ ground (
      arith,
      h k,
      get_or-set_ne b
          (if v
            then bit_or (get_or b (i / 8) 0) (mask i)
            else bit_and (get_or b (i / 8) 0) (255 - mask i))
          0 n,
    )
  ]
  | no g ↦ ground (arith, h k)
]

length-bitmap_set : (b : Bitmap) (i : ℕ) (v : Bool) → length (bitmap_set b i v) ≡ length b
unfolding bitmap_set
length-bitmap_set b i v = ground (
  arith,
  length-set b (i / 8) (
      if v
      then bit_or (get_or b (i / 8) 0) (mask i)
      else bit_and (get_or b (i / 8) 0) (255 - mask i)),
)

set_outside : (b : Bitmap) (i : ℕ) (v : Bool) → length b ≤ i / 8 → bitmap_set b i v ≡ b
unfolding bitmap_set
set_outside b i v h = ground arith

-- After `bitmap_set` with an index of the bitmap, `bitmap_scan_test` gives the value that was set at
-- that index and what it gave before at every other index; with an index past the bitmap
-- `bitmap_set` changes nothing.
pub bitmap_scan_test-bitmap_set :
    (b : Bitmap) (i : ℕ) (v : Bool) (j : ℕ)
    → IsBytes b
    → bitmap_scan_test (bitmap_set b i v) j ≡ (
        if leb (length b) (i / 8)
        then bitmap_scan_test b j
        else if j == i
        then some v
        else bitmap_scan_test b j)
bitmap_scan_test-bitmap_set b i v j h = elim (dec_lt (i / 8) (length b)) [
  | no g ↦ ground (arith, ap (λ c. bitmap_scan_test c j) (set_outside b i v (omega arith)))
  | yes l ↦
      rw
        (
          bitmap_scan_test-used (bitmap_set b i v) j (bitmap_set-IsBytes b i v h),
          bitmap_scan_test-used b j h,
          length-bitmap_set b i v,
          used-bitmap_set b i v j h l,
        )
        (by_value v l)
]
  where
    by_value :
        (v : Bool)
        → i / 8 < length b
        → (if ltb (j / 8) (length b)
            then some ((if j == i then flag v else used b j) == 1)
            else none)
          ≡ (if leb (length b) (i / 8)
              then (if ltb (j / 8) (length b) then some (used b j == 1) else none)
              else if j == i
              then some v
              else if ltb (j / 8) (length b)
              then some (used b j == 1)
              else none)
    by_value true l = elim (ℕ_discrete j i) [
      | yes e ↦ ground (arith, ap (λ n. n / 8) e)
      | no n ↦ ground arith
    ]
    by_value false l = elim (ℕ_discrete j i) [
      | yes e ↦ ground (arith, ap (λ n. n / 8) e)
      | no n ↦ ground arith
    ]
