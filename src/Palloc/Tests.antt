-- ===== src/Palloc/Tests.antt =====
-- The theorems on the page allocator at two pools of 40 pages.
use qba.Prelude.{
  ℕ, suc, ◌+◌, ◌*◌, ◌≤◌, ◌≡◌, refl, true, false, not, ◌⊎◌, inl, arith, [], ◌∷◌, if◌then◌else◌,
}
use qba.Prelude.Outcome.{ok, panic}
use qba.Bitmap.Scan.{SomeIs}
use qba.Palloc.{
  Pool, Palloc, PallocFlags, pg_size, filled, pool_of, palloc_get_multiple, palloc_free_multiple,
}
use qba.Palloc.Law.{PoolValid, Given, palloc_get_multiple_lem}
use qba.Palloc.Free.{Freed, palloc_free_multiple_lem}

-- A pool at page `n` whose first three pages are in use.
abbrev pool_at : ℕ → Pool
pool_at n = record { used_map = record { bit_cnt = 40; bits = 7 ∷ 0 ∷ [] }; base = pg_size * n }

abbrev two_pools : Palloc
two_pools = record { kernel_pool = pool_at 256; user_pool = pool_at 512; memory = λ a. 1 }

kernel-PoolValid : PoolValid two_pools.kernel_pool
kernel-PoolValid = record {
  map = record { room = omega arith; small = omega arith };
  base_page = (256, refl, omega arith);
  in_memory = omega arith;
}

user-PoolValid : PoolValid two_pools.user_pool
user-PoolValid = record {
  map = record { room = omega arith; small = omega arith };
  base_page = (512, refl, omega arith);
  in_memory = omega arith;
}

abbrev zeroed_user : PallocFlags
zeroed_user = record { pal_assert = false; pal_zero = true; pal_user = true }

palloc_get_multiple_lem_example :
    ((pages : ℕ) × (i : ℕ) × (s' : Palloc) × (palloc_get_multiple zeroed_user (suc 1) two_pools
        ≡ ok (pages, s'))
      × Given two_pools.user_pool (pool_of true s') pages (suc 1) i
      × (pool_of (not true) s' ≡ two_pools.kernel_pool)
      × ((a : ℕ)
          → s'.memory a ≡ (
              if true
              then filled two_pools.memory pages 0 (pg_size * suc 1) a
              else two_pools.memory a)))
    ⊎ ((palloc_get_multiple zeroed_user (suc 1) two_pools
          ≡ (if false then panic else ok (0, two_pools)))
        × ((k : ℕ) → k + suc 1 ≤ 40 → SomeIs two_pools.user_pool.used_map k (suc 1) true))
palloc_get_multiple_lem_example = palloc_get_multiple_lem zeroed_user 1 two_pools user-PoolValid

palloc_free_multiple_lem_example :
    Freed true 1
      (suc 1)
      two_pools
      (palloc_free_multiple (two_pools.user_pool.base + pg_size * 1) (suc 1) two_pools)
palloc_free_multiple_lem_example =
    palloc_free_multiple_lem true 1 1 two_pools kernel-PoolValid user-PoolValid (inl (omega arith))
      (omega arith)
