-- ===== src/FreeMap/Tests.antt =====
-- The theorems on the free map at a device of 40 sectors.
use qba.Prelude.{ℕ, ◌≡◌, refl, true, arith, Option, [], ◌∷◌}
use qba.Prelude.Outcome.{Outcome, ok}
use qba.Bitmap.{
  bitmap_scan, scan_loop, bitmap_contains, contains_loop, bitmap_test, set_loop, bitmap_set,
}
use qba.Bitmap.Single.{IsValid}
use qba.FreeMap.{FreeMap, free_map_allocate, free_map_release}
use qba.FreeMap.Law.{used, free_map_release-allocate}

-- Sectors 0 to 2 are in use.
abbrev device : FreeMap
device = record { free_map = record { bit_cnt = 40; bits = 7 ∷ 0 ∷ [] }; has_file = true }

device-IsValid : IsValid device.free_map
device-IsValid = record { room = omega arith; small = omega arith }

abbrev map_of : Outcome (Option ℕ × FreeMap) → FreeMap
map_of (ok r) = r.1
map_of _ = device

free_map_release-allocate_example :
    (m'' : FreeMap) × (free_map_release 3 1 (map_of (free_map_allocate 1 true device)) ≡ ok m'')
    × ((j : ℕ) → used m'' j ≡ used device j)
unfolding free_map_allocate bitmap_scan scan_loop bitmap_contains contains_loop bitmap_test set_loop
    bitmap_set
free_map_release-allocate_example =
    free_map_release-allocate 1 3 true device (map_of (free_map_allocate 1 true device))
      device-IsValid refl refl
