-- ===== src/Bitmap/Tests.antt =====
-- Runs of kernel/mm/bitmap/bitmap.c on small bitmaps.
use core_z_os.Base.{
  ℕ, zero, suc, ◌+◌, ◌<◌, ◌≤◌, ◌≡◌, refl, true, none, some, [], ◌∷◌, ltb, get_or, ◌==◌, ==_iff,
  Bool, if◌then◌else◌, arith,
}
use core_z_os.Base.Bits.{each_below, each_below_lem}
use core_z_os.Bitmap.{Bitmap, bitmap_scan, bitmap_set, bitmap_scan_test, bitmap_word}
use core_z_os.Bitmap.Word.{used, IsBytes}
use core_z_os.Bitmap.WordSound.{IsFree}
use core_z_os.Bitmap.Sound.{bitmap_scan-IsFree}
use core_z_os.Bitmap.Missed.{bitmap_scan_misses}
use core_z_os.Bitmap.Update.{bitmap_scan_test-bitmap_set}

abbrev first_bytes : Bitmap
first_bytes = 0xf0 ∷ 0 ∷ []

first_bytes-IsBytes : IsBytes first_bytes
first_bytes-IsBytes zero = omega arith
first_bytes-IsBytes (suc zero) = omega arith
first_bytes-IsBytes (suc (suc k)) = omega arith

-- A word whose first bit is used.
abbrev first_used : Bitmap
first_used = 0x80 ∷ 0 ∷ 0 ∷ 0 ∷ 0 ∷ 0 ∷ 0 ∷ 0 ∷ []

scan_tail_bytes : bitmap_scan first_bytes 3 ≡ some 4
unfolding bitmap_scan core_z_os.Bitmap.scan_words core_z_os.Bitmap.scan_tail
    core_z_os.Bitmap.scan_bytes core_z_os.Bitmap.scan_bits
scan_tail_bytes = refl

scan_word_bytes : bitmap_scan (0xff ∷ 0xf1 ∷ 0 ∷ 0xff ∷ 0xff ∷ 0 ∷ 0 ∷ 1 ∷ []) 10 ≡ some 40
unfolding bitmap_scan core_z_os.Bitmap.scan_words core_z_os.Bitmap.scan_tail
    core_z_os.Bitmap.scan_one core_z_os.Bitmap.scan_word core_z_os.Bitmap.ctz
    core_z_os.Bitmap.bitmap_word core_z_os.Bitmap.word_at core_z_os.Bitmap.swap_pairs
    core_z_os.Bitmap.swap_twos core_z_os.Bitmap.swap_fours
scan_word_bytes = refl

bitmap_scan-IsFree_example : (0 < 3) × (4 + 3 ≤ 16) × IsFree (used first_bytes) 4 3
bitmap_scan-IsFree_example =
    bitmap_scan-IsFree first_bytes 3 first_bytes-IsBytes (omega arith) scan_tail_bytes

first_used-IsBytes : IsBytes first_used
first_used-IsBytes k = ground (arith, at k)
  where
    at : (k : ℕ) → ltb (get_or first_used k 0) 256 ≡ true
    at zero = refl
    at (suc zero) = refl
    at (suc (suc zero)) = refl
    at (suc (suc (suc zero))) = refl
    at (suc (suc (suc (suc zero)))) = refl
    at (suc (suc (suc (suc (suc zero))))) = refl
    at (suc (suc (suc (suc (suc (suc zero)))))) = refl
    at (suc (suc (suc (suc (suc (suc (suc zero))))))) = refl
    at (suc (suc (suc (suc (suc (suc (suc (suc k)))))))) = refl

first_used_table : ℕ → Bool
first_used_table k = used first_used k == (if ltb k 1 then 1 else 0)

first_used-bits : (k : ℕ) → k < 64 → used first_used k ≡ (if ltb k 1 then 1 else 0)
unfolding first_used_table
first_used-bits k h =
    (==_iff (used first_used k) (if ltb k 1 then 1 else 0)).0
      (each_below_lem first_used_table {n = 64} k h checked)
  where
    checked : each_below first_used_table 64 ≡ true
    checked = unfold each_below first_used_table in refl

bitmap_scan_misses_example : bitmap_scan first_used 5 ≡ none
bitmap_scan_misses_example =
    bitmap_scan_misses first_used 1 5 first_used-IsBytes refl (omega arith) (omega arith)
      (λ k h. ground (arith, first_used-bits k)) (λ k l h. ground (arith, first_used-bits k h))

bitmap_scan_test-bitmap_set_example : bitmap_scan_test (bitmap_set first_bytes 9 true) 9 ≡ some true
bitmap_scan_test-bitmap_set_example =
    bitmap_scan_test-bitmap_set first_bytes 9 true 9 first_bytes-IsBytes
