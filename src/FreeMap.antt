-- ===== src/FreeMap.antt =====
-- src/filesys/free-map.c: the sectors of the file system in use. Whether `bitmap_write` reaches the
-- free map file is an argument of the functions that call it.
pub mod Law
mod Tests
use qba.Prelude.{
  ℕ, zero, suc, Bool, true, false, not, ◌&&◌, Option, none, some, ◌==◌, if◌then◌else◌, List,
}
use qba.Prelude.Outcome.{Outcome, ok, panic, undefined, ◌>>=◌, ◌>>◌, assert}
use qba.Bitmap.{
  Bitmap, bitmap_error, bitmap_mark, bitmap_create, bitmap_all, bitmap_set_multiple,
  bitmap_scan_and_flip,
}

-- The two static variables; `has_file` tells whether `free_map_file` is not null.
pub record FreeMap : Type 0 where
  pub free_map : Bitmap
  pub has_file : Bool

-- `FREE_MAP_SECTOR` and `ROOT_DIR_SECTOR`
abbrev pub free_map_sector : ℕ
free_map_sector = 0

abbrev pub root_dir_sector : ℕ
root_dir_sector = 1

abbrev or_panic : Option Bitmap → Outcome Bitmap
or_panic none = panic
or_panic (some b) = ok b

-- `size` is the answer of `block_size`, and `got_header` and `storage` are those of `malloc`.
unfoldable pub free_map_init : ℕ → Bool → Option (List ℕ) → Outcome FreeMap
unfolding bitmap_create bitmap_mark
free_map_init size got_header storage = do
  created ← bitmap_create size got_header storage
  b ← or_panic created
  ok (record {
    free_map = bitmap_mark (bitmap_mark b free_map_sector) root_dir_sector;
    has_file = false;
  })

-- `written` is the answer of `bitmap_write`, which is called only if there is a file.
unfoldable pub free_map_allocate : ℕ → Bool → FreeMap → Outcome (Option ℕ × FreeMap)
unfolding bitmap_scan_and_flip bitmap_set_multiple
free_map_allocate cnt written m = do
  (sector, b) ← bitmap_scan_and_flip m.free_map 0 cnt false
  let undone = (do
    b' ← bitmap_set_multiple b sector cnt false
    ok (none, record m { free_map = b' }))
  let failed = not (sector == bitmap_error) && m.has_file && not written
  let answer = if sector == bitmap_error then none else some sector
  if failed then undone else ok (answer, record m { free_map = b })

-- `bitmap_write` to the file comes last, which is not tested for null; its answer is not used.
unfoldable pub free_map_release : ℕ → ℕ → FreeMap → Outcome FreeMap
unfolding bitmap_all bitmap_set_multiple
free_map_release sector cnt m = do
  used ← bitmap_all m.free_map sector cnt
  assert used
  b ← bitmap_set_multiple m.free_map sector cnt false
  if m.has_file then ok (record m { free_map = b }) else undefined
