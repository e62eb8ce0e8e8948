-- ===== src/Bitmap/Tests.antt =====
-- The theorems on bitmaps at a small bitmap.
use qba.Prelude.{ℕ, ◌+◌, ◌≤◌, ◌≡◌, false, not, ◌⊎◌, arith, [], ◌∷◌}
use qba.Prelude.Outcome.{ok}
use qba.Bitmap.{Bitmap, bitmap_error, bitmap_scan_and_flip}
use qba.Bitmap.Single.{IsValid}
use qba.Bitmap.Multiple.{Written}
use qba.Bitmap.Scan.{AllAre, SomeIs, bitmap_scan_and_flip_lem}

-- 40 bits, of which the first three are on.
abbrev three_of_forty : Bitmap
three_of_forty = record { bit_cnt = 40; bits = 7 ∷ 0 ∷ [] }

three_of_forty-IsValid : IsValid three_of_forty
three_of_forty-IsValid = record { room = omega arith; small = omega arith }

bitmap_scan_and_flip_lem_example :
    ((i : ℕ) × (b' : Bitmap) × (bitmap_scan_and_flip three_of_forty 1 4 false ≡ ok (i, b'))
      × (1 ≤ i)
      × (i + 4 ≤ 40)
      × AllAre three_of_forty i 4 false
      × Written three_of_forty b' i 4 (not false))
    ⊎ ((bitmap_scan_and_flip three_of_forty 1 4 false ≡ ok (bitmap_error, three_of_forty))
        × ((k : ℕ) → 1 ≤ k → k + 4 ≤ 40 → SomeIs three_of_forty k 4 (not false)))
bitmap_scan_and_flip_lem_example =
    bitmap_scan_and_flip_lem three_of_forty 1 4 false three_of_forty-IsValid (omega arith)
