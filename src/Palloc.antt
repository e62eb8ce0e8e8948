-- ===== src/Palloc.antt =====
-- src/threads/palloc.c: the two pools of pages. Addresses are numbers below 2 ^ 32, 0 is the null
-- pointer, and memory is a function from addresses to bytes. The lock of a pool is held round the
-- search of its bitmap, so that the search is one step here.
pub mod Law
pub mod Free
mod Tests
use qba.Prelude.{
  ℕ, zero, suc, ◌+◌, ◌-◌, ◌*◌, ◌/◌, ◌%◌, ◌^◌, Bool, true, false, not, ◌&&◌, ◌||◌, ltb, leb, ◌==◌,
  if◌then◌else◌, List,
}
use qba.Prelude.Outcome.{Outcome, ok, panic, ◌>>=◌, ◌>>◌, assert}
use qba.Bitmap.{
  Bitmap, size_mod, bitmap_error, bitmap_all, bitmap_set_multiple, bitmap_scan_and_flip,
}

-- `struct pool`, without its lock.
pub record Pool : Type 0 where
  pub used_map : Bitmap
  pub base : ℕ

-- The two static pools and the memory.
pub record Palloc : Type 0 where
  pub kernel_pool : Pool
  pub user_pool : Pool
  pub memory : ℕ → ℕ

-- `enum palloc_flags`: the three bits.
pub record PallocFlags : Type 0 where
  pub pal_assert : Bool
  pub pal_zero : Bool
  pub pal_user : Bool

-- `PGSIZE`
abbrev pub pg_size : ℕ
pg_size = 4096

abbrev pub pg_ofs : ℕ → ℕ
pg_ofs va = va % pg_size

abbrev pub pg_no : ℕ → ℕ
pg_no va = va / pg_size

-- What `memset` leaves: `size` bytes from `dst` on are `value`.
abbrev pub filled : (ℕ → ℕ) → ℕ → ℕ → ℕ → (ℕ → ℕ)
filled memory dst value size a = if leb dst a && ltb a (dst + size) then value else memory a

abbrev pub pool_of : Bool → Palloc → Pool
pool_of true s = s.user_pool
pool_of false s = s.kernel_pool

abbrev pub set_used : Bool → Bitmap → Palloc → Palloc
set_used true b s = record s { user_pool = record (s.user_pool) { used_map = b } }
set_used false b s = record s { kernel_pool = record (s.kernel_pool) { used_map = b } }

unfoldable pub palloc_get_multiple : PallocFlags → ℕ → Palloc → Outcome (ℕ × Palloc)
unfolding bitmap_scan_and_flip
palloc_get_multiple flags zero s = ok (0, s)
palloc_get_multiple flags (suc n) s = do
  let pool = pool_of flags.pal_user s
  (page_idx, b) ← bitmap_scan_and_flip pool.used_map 0 (suc n) false
  let s' = set_used flags.pal_user b s
  let pages = if page_idx == bitmap_error then 0 else (pool.base + pg_size * page_idx) % size_mod
  let cleared = record s' { memory = filled s'.memory pages 0 (pg_size * suc n) }
  let out_of_pages = if flags.pal_assert then panic else ok (0, s')
  let got = if flags.pal_zero then ok (pages, cleared) else ok (pages, s')
  if pages == 0 then out_of_pages else got

unfoldable pub palloc_get_page : PallocFlags → Palloc → Outcome (ℕ × Palloc)
unfolding palloc_get_multiple
palloc_get_page flags s = palloc_get_multiple flags 1 s

unfoldable pub page_from_pool : Pool → ℕ → Bool
page_from_pool pool page =
    leb (pg_no pool.base) (pg_no page)
    && ltb (pg_no page) ((pg_no pool.base + pool.used_map.bit_cnt) % size_mod)

-- The end of `palloc_free_multiple`, once the pool is known.
unfoldable pub free_in_pool : Bool → ℕ → ℕ → Palloc → Outcome Palloc
unfolding bitmap_all bitmap_set_multiple
free_in_pool user pages page_cnt s = do
  let pool = pool_of user s
  let page_idx = pg_no pages - pg_no pool.base
  let poisoned = record s { memory = filled s.memory pages 204 (pg_size * page_cnt) }
  used ← bitmap_all pool.used_map page_idx page_cnt
  assert used
  b ← bitmap_set_multiple pool.used_map page_idx page_cnt false
  ok (set_used user b poisoned)

unfoldable pub palloc_free_multiple : ℕ → ℕ → Palloc → Outcome Palloc
unfolding page_from_pool free_in_pool
palloc_free_multiple pages page_cnt s = do
  assert (pg_ofs pages == 0)
  let in_kernel = free_in_pool false pages page_cnt s
  let in_user = free_in_pool true pages page_cnt s
  if pages == 0 || page_cnt == 0
      then ok s
      else if page_from_pool s.kernel_pool pages
      then in_kernel
      else if page_from_pool s.user_pool pages
      then in_user
      else panic

unfoldable pub palloc_free_page : ℕ → Palloc → Outcome Palloc
unfolding palloc_free_multiple
palloc_free_page page s = palloc_free_multiple page 1 s
