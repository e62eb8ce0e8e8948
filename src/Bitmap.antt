-- ===== src/Bitmap.antt =====
-- src/lib/kernel/bitmap.c: a bitmap in 32-bit words. `bits` is the array behind the pointer, and a
-- `size_t` sum wraps at 2 ^ 32. What `malloc` answers is an argument of `bitmap_create`.
pub mod Single
pub mod Multiple
pub mod Scan
mod Tests
use qba.Prelude.{
  ℕ, zero, suc, ◌+◌, ◌-◌, ◌*◌, ◌/◌, ◌%◌, ◌^◌, bit_and, bit_or, bit_xor, Bool, true, false, not,
  Option, none, some, List, [], ltb, leb, ◌==◌, if◌then◌else◌, get_or, set,
}
use qba.Prelude.Outcome.{Outcome, ok, panic, ◌>>=◌, ◌>>◌, assert}

pub record Bitmap : Type 0 where
  pub bit_cnt : ℕ
  pub bits : List ℕ

-- `size_t` and `unsigned long` have 32 bits.
abbrev pub size_mod : ℕ
size_mod = 2 ^ 32

abbrev pub add_size : ℕ → ℕ → ℕ
add_size a b = (a + b) % size_mod

abbrev pub elem_bits : ℕ
elem_bits = 32

-- `BITMAP_ERROR`, which is `SIZE_MAX`.
abbrev pub bitmap_error : ℕ
bitmap_error = size_mod - 1

abbrev pub elem_idx : ℕ → ℕ
elem_idx bit_idx = bit_idx / elem_bits

abbrev pub bit_mask : ℕ → ℕ
bit_mask bit_idx = 2 ^ (bit_idx % elem_bits)

unfoldable pub elem_cnt : ℕ → ℕ
elem_cnt bit_cnt = add_size bit_cnt (elem_bits - 1) / elem_bits

unfoldable pub byte_cnt : ℕ → ℕ
unfolding elem_cnt
byte_cnt bit_cnt = 4 * elem_cnt bit_cnt

-- The word at index `i` of the array.
abbrev pub elem : Bitmap → ℕ → ℕ
elem b i = get_or b.bits i 0

abbrev store_elem : Bitmap → ℕ → ℕ → Bitmap
store_elem b i w = record b { bits = set b.bits i w }

unfoldable pub bitmap_mark : Bitmap → ℕ → Bitmap
bitmap_mark b bit_idx =
    let idx = elem_idx bit_idx in store_elem b idx (bit_or (elem b idx) (bit_mask bit_idx))

unfoldable pub bitmap_reset : Bitmap → ℕ → Bitmap
bitmap_reset b bit_idx =
    let idx = elem_idx bit_idx in
    store_elem b idx (bit_and (elem b idx) (2 ^ elem_bits - 1 - bit_mask bit_idx))

unfoldable pub bitmap_flip : Bitmap → ℕ → Bitmap
bitmap_flip b bit_idx =
    let idx = elem_idx bit_idx in store_elem b idx (bit_xor (elem b idx) (bit_mask bit_idx))

unfoldable pub bitmap_set : Bitmap → ℕ → Bool → Outcome Bitmap
unfolding bitmap_mark bitmap_reset
bitmap_set b idx value = do
  assert (ltb idx b.bit_cnt)
  ok (if value then bitmap_mark b idx else bitmap_reset b idx)

unfoldable pub bitmap_test : Bitmap → ℕ → Outcome Bool
bitmap_test b idx = do
  assert (ltb idx b.bit_cnt)
  ok (not (bit_and (elem b (elem_idx idx)) (bit_mask idx) == 0))

-- The two assertions on a range.
abbrev in_range : Bitmap → ℕ → ℕ → Outcome (Unit {0})
in_range b start cnt = do assert (leb start b.bit_cnt); assert (leb (add_size start cnt) b.bit_cnt)

-- `for (i = ...; i < cnt; i++)` with `left` rounds to go.
unfoldable pub set_loop : Bitmap → ℕ → ℕ → ℕ → Bool → Outcome Bitmap
set_loop b start i zero value = ok b
set_loop b start i (suc left) value = do
  b' ← bitmap_set b (add_size start i) value
  set_loop b' start (i + 1) left value

unfoldable pub bitmap_set_multiple : Bitmap → ℕ → ℕ → Bool → Outcome Bitmap
bitmap_set_multiple b start cnt value = in_range b start cnt >> set_loop b start 0 cnt value

unfoldable pub bitmap_set_all : Bitmap → Bool → Outcome Bitmap
bitmap_set_all b value = bitmap_set_multiple b 0 b.bit_cnt value

abbrev same : Bool → Bool → Bool
same true v = v
same false v = not v

unfoldable pub count_loop : Bitmap → ℕ → ℕ → ℕ → Bool → ℕ → Outcome ℕ
count_loop b start i zero value value_cnt = ok value_cnt
count_loop b start i (suc left) value value_cnt = do
  found ← bitmap_test b (add_size start i)
  count_loop b start (i + 1) left value (if same found value then value_cnt + 1 else value_cnt)

unfoldable pub bitmap_count : Bitmap → ℕ → ℕ → Bool → Outcome ℕ
bitmap_count b start cnt value = in_range b start cnt >> count_loop b start 0 cnt value 0

unfoldable pub contains_loop : Bitmap → ℕ → ℕ → ℕ → Bool → Outcome Bool
contains_loop b start i zero value = ok false
contains_loop b start i (suc left) value = do
  found ← bitmap_test b (add_size start i)
  let rest = contains_loop b start (i + 1) left value
  if same found value then ok true else rest

unfoldable pub bitmap_contains : Bitmap → ℕ → ℕ → Bool → Outcome Bool
bitmap_contains b start cnt value = in_range b start cnt >> contains_loop b start 0 cnt value

unfoldable pub bitmap_any : Bitmap → ℕ → ℕ → Outcome Bool
bitmap_any b start cnt = bitmap_contains b start cnt true

unfoldable pub bitmap_none : Bitmap → ℕ → ℕ → Outcome Bool
bitmap_none b start cnt = do found ← bitmap_contains b start cnt true; ok (not found)

unfoldable pub bitmap_all : Bitmap → ℕ → ℕ → Outcome Bool
bitmap_all b start cnt = do found ← bitmap_contains b start cnt false; ok (not found)

-- `for (i = start; i <= last; i++)`: `left` is `last + 1 - start` rounds at the start.
unfoldable pub scan_loop : Bitmap → ℕ → ℕ → ℕ → Bool → Outcome ℕ
scan_loop b i zero cnt value = ok bitmap_error
scan_loop b i (suc left) cnt value = do
  other ← bitmap_contains b i cnt (not value)
  let rest = scan_loop b (i + 1) left cnt value
  if other then rest else ok i

unfoldable pub bitmap_scan : Bitmap → ℕ → ℕ → Bool → Outcome ℕ
bitmap_scan b start cnt value = do
  assert (leb start b.bit_cnt)
  let search_all = scan_loop b start (b.bit_cnt - cnt + 1 - start) cnt value
  if leb cnt b.bit_cnt then search_all else ok bitmap_error

unfoldable pub bitmap_scan_and_flip : Bitmap → ℕ → ℕ → Bool → Outcome (ℕ × Bitmap)
bitmap_scan_and_flip b start cnt value = do
  idx ← bitmap_scan b start cnt value
  let flipped = (do b' ← bitmap_set_multiple b idx cnt (not value); ok (idx, b'))
  if idx == bitmap_error then ok (idx, b) else flipped

-- `got_header` and `storage` are what the two calls of `malloc` answer.
unfoldable pub bitmap_create : ℕ → Bool → Option (List ℕ) → Outcome (Option Bitmap)
bitmap_create bit_cnt false storage = ok none
bitmap_create bit_cnt true (some bits) = do
  b ← bitmap_set_all (record { bit_cnt = bit_cnt; bits = bits }) false
  ok (some b)
bitmap_create bit_cnt true none =
    if bit_cnt == 0
    then (do b ← bitmap_set_all (record { bit_cnt = bit_cnt; bits = [] }) false; ok (some b))
    else ok none
