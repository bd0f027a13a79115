-- ===== src/Bitmap.antt =====
-- kernel/mm/bitmap/bitmap.c: the bitmaps of free pages and addresses. Bit idx is bit 7 - idx % 8 of
-- byte idx / 8. A bitmap is its bytes; `btmp_bytes_len` is their number.
pub mod Word
pub mod Ctz
pub mod Update
pub mod WordSound
pub mod Sound
pub mod Missed
mod Tests
use Prim.Native.Nat.{bit_and, bit_or}
use core_z_os.Base.{
  ℕ, zero, suc, ◌+◌, ◌-◌, ◌*◌, ◌/◌, ◌%◌, ◌^◌, Bool, true, false, not, Option, none, some, List, [],
  ◌∷◌, ltb, leb, ◌==◌, if◌then◌else◌, length, get_or, set, replicate,
}
use core_z_os.Base.Bits.{shr}

abbrev pub Bitmap : Type 0
Bitmap = List ℕ

-- Every byte becomes 0.
unfoldable pub bitmap_init : Bitmap → Bitmap
bitmap_init b = replicate (length b) 0

-- `BITMAP_MASK >> (bit_idx & 7)`.
abbrev pub mask : ℕ → ℕ
mask bit_idx = shr 0x80 (bit_idx % 8)

-- None is the code's -1.
unfoldable pub bitmap_scan_test : Bitmap → ℕ → Option Bool
bitmap_scan_test b bit_idx =
    let byte = bit_idx / 8 in
    if leb (length b) byte then none else some (not (bit_and (get_or b byte 0) (mask bit_idx) == 0))

unfoldable pub bitmap_set : Bitmap → ℕ → Bool → Bitmap
bitmap_set b bit_idx value =
    let byte = bit_idx / 8 in
    let old = get_or b byte 0 in
    if leb (length b) byte
    then b
    else set b byte (if value then bit_or old (mask bit_idx) else bit_and old (255 - mask bit_idx))

-- The eight bytes of a word in memory, lowest first.
unfoldable pub word_at : Bitmap → ℕ → ℕ → ℕ
word_at b byte zero = 0
word_at b byte (suc n) = get_or b byte 0 + 256 * word_at b (suc byte) n

-- The bits of each byte of a 64-bit word, reversed.
unfoldable pub swap_pairs : ℕ → ℕ
swap_pairs x =
    bit_or (bit_and x 0x5555555555555555 * 2 ^ 1 % 2 ^ 64) (bit_and (shr x 1) 0x5555555555555555)

unfoldable pub swap_twos : ℕ → ℕ
swap_twos x =
    bit_or (bit_and x 0x3333333333333333 * 2 ^ 2 % 2 ^ 64) (bit_and (shr x 2) 0x3333333333333333)

unfoldable pub swap_fours : ℕ → ℕ
swap_fours x =
    bit_or (bit_and x 0x0f0f0f0f0f0f0f0f * 2 ^ 4 % 2 ^ 64) (bit_and (shr x 4) 0x0f0f0f0f0f0f0f0f)

unfoldable pub bitmap_word : Bitmap → ℕ → ℕ
bitmap_word b w = swap_fours (swap_twos (swap_pairs (word_at b (8 * w) 8)))

-- `__builtin_ctzll`, the number of zeros below the lowest one of a 64-bit word that is not 0.
unfoldable pub ctz : ℕ → ℕ → ℕ
ctz zero x = 0
ctz (suc n) x = if x % 2 == 1 then 0 else suc (ctz n (x / 2))

-- A part of the scan returns an index, or hands on the length of the free run that it ends in.
pub data Progress : Type 0 where
  found : ℕ → Progress
  carry : ℕ → Progress

abbrev u32 : ℕ → ℕ
u32 n = n % 2 ^ 32

-- The loop over the positions of one word; 64 rounds are enough.
unfoldable pub scan_word : ℕ → ℕ → ℕ → ℕ → ℕ → ℕ → Progress
scan_word zero v base cnt run pos = carry run
scan_word (suc rounds) v base cnt run pos =
    let rest = shr v pos in
    let tz = ctz 64 rest in
    let high = shr rest tz in
    let again = scan_word rounds v base cnt 0 (pos + tz + ctz 64 (2 ^ 64 - 1 - high)) in
    if leb 64 pos
    then carry run
    else if rest == 0
    then carry (u32 (run + (64 - pos)))
    else if leb cnt (u32 (run + tz))
    then found (u32 (base + pos + 2 ^ 32 - run))
    else if high == 2 ^ 64 - 1
    then carry 0
    else again

-- One word.
unfoldable pub scan_one : ℕ → ℕ → ℕ → ℕ → Progress
scan_one v w cnt run =
    let run' = u32 (run + 64) in
    if v == 0
    then if leb cnt run' then found (u32 (w * 64 + 64 + 2 ^ 32 - run')) else carry run'
    else if v == 2 ^ 64 - 1
    then carry 0
    else scan_word 64 v (w * 64) cnt run 0

-- The loop over the words, with n of them to go.
unfoldable pub scan_words : ℕ → Bitmap → ℕ → ℕ → ℕ → Progress
scan_words zero b w cnt run = carry run
scan_words (suc n) b w cnt run = elim (scan_one (bitmap_word b w) w cnt run) [
  | found i ↦ found i
  | carry run' ↦ scan_words n b (suc w) cnt run'
]

-- The loop over the bits of one byte past the words, with n of them to go.
unfoldable pub scan_bits : ℕ → ℕ → ℕ → ℕ → ℕ → ℕ → Progress
scan_bits zero bits byte j cnt run = carry run
scan_bits (suc n) bits byte j cnt run =
    let run' = u32 (run + 1) in
    let next = scan_bits n (bits * 2 % 256) byte (suc j) cnt in
    let used = next 0 in
    let free = next run' in
    if leb 128 bits
    then used
    else if leb cnt run'
    then found (u32 (byte * 8 + j + 1 + 2 ^ 32 - cnt))
    else free

-- The loop over the bytes past the words, with n of them to go.
unfoldable pub scan_bytes : ℕ → Bitmap → ℕ → ℕ → ℕ → Progress
scan_bytes zero b byte cnt run = carry run
scan_bytes (suc n) b byte cnt run = elim (scan_bits 8 (get_or b byte 0) byte 0 cnt run) [
  | found i ↦ found i
  | carry run' ↦ scan_bytes n b (suc byte) cnt run'
]

abbrev pub result : Progress → Option ℕ
result (found i) = some i
result (carry run) = none

-- After the words, the bytes that are left, if the words gave no answer.
unfoldable pub scan_tail : Bitmap → ℕ → Progress → Option ℕ
scan_tail b cnt (found i) = some i
scan_tail b cnt (carry run) =
    let words = length b / 8 in result (scan_bytes (length b - words * 8) b (words * 8) cnt run)

-- None is the code's -1.
unfoldable pub bitmap_scan : Bitmap → ℕ → Option ℕ
bitmap_scan b cnt =
    if cnt == 0
    then none
    else if length b == 0
    then none
    else scan_tail b cnt (scan_words (length b / 8) b 0 cnt 0)
