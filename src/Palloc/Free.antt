-- ===== src/Palloc/Free.antt =====
-- `palloc_free_multiple` against the set of pages in use.
use qba.Prelude.{
  ℕ, suc, ◌+◌, ◌-◌, ◌*◌, ◌≤◌, ◌<◌, ◌≡◌, refl, sym, subst, Bool, true, false, not, arith, ◌⊎◌, inl,
  inr,
}
use qba.Prelude.Outcome.{Outcome, ok, panic}
use qba.Bitmap.{Bitmap, bitmap_all}
use qba.Bitmap.Multiple.{Written, bitmap_set_multiple_lem}
use qba.Bitmap.Scan.{AllAre, SomeIs, bitmap_contains_lem}
use qba.Palloc.{
  Pool, Palloc, pg_size, filled, pool_of, set_used, pg_no, page_from_pool, free_in_pool,
  palloc_free_multiple,
}
use qba.Palloc.Law.{PoolValid}

-- The pages of two pools do not overlap.
abbrev pub Apart : Pool → Pool → Type 0
Apart p q =
    (p.base + pg_size * p.used_map.bit_cnt ≤ q.base)
    ⊎ (q.base + pg_size * q.used_map.bit_cnt ≤ p.base)

page_no : (p : Pool) (i : ℕ) → PoolValid p → pg_no (p.base + pg_size * i) ≡ pg_no p.base + i
page_no p i v = let (n, e, o) = v.base_page in omega (arith, e)

from_own :
    (p : Pool) (i : ℕ)
    → PoolValid p
    → i < p.used_map.bit_cnt
    → page_from_pool p (p.base + pg_size * i) ≡ true
unfolding page_from_pool
from_own p i v h = let (n, e, o) = v.base_page in ground (arith, page_no p i v, v.in_memory)

not_from_other :
    (p q : Pool) (i : ℕ)
    → PoolValid p
    → PoolValid q
    → Apart p q
    → i < p.used_map.bit_cnt
    → page_from_pool q (p.base + pg_size * i) ≡ false
unfolding page_from_pool
not_from_other p q i v w apart h =
    let (n, e, o) = v.base_page in
    let (m, f, r) = w.base_page in ground (arith, page_no p i v, v.in_memory, w.in_memory)

-- What is left of a pool whose pages from index `i` on are given back.
abbrev pub Freed : Bool → ℕ → ℕ → Palloc → Outcome Palloc → Type 0
Freed user i cnt s r =
    ((s' : Palloc) × (r ≡ ok s')
      × AllAre (pool_of user s).used_map i cnt true
      × Written (pool_of user s).used_map (pool_of user s').used_map i cnt false
      × (pool_of (not user) s' ≡ pool_of (not user) s))
    ⊎ ((r ≡ panic) × SomeIs (pool_of user s).used_map i cnt false)

free_in_pool_lem :
    (user : Bool) (i cnt : ℕ) (s : Palloc)
    → PoolValid (pool_of user s)
    → i + cnt ≤ (pool_of user s).used_map.bit_cnt
    → Freed user i cnt s (free_in_pool user ((pool_of user s).base + pg_size * i) cnt s)
unfolding free_in_pool bitmap_all
free_in_pool_lem user i cnt s v h =
    elim (bitmap_contains_lem (pool_of user s).used_map i cnt false v.map h) [
      | inl (e, found) ↦ inr (rw place (rw e refl), found)
      | inr (e, all) ↦
          let (b, f, w) =
            bitmap_set_multiple_lem {b = (pool_of user s).used_map} i cnt false v.map h in
          inl (
            set_used user b (poisoned s),
            rw place (rw e (rw f refl)),
            all,
            subst (λ p. Written (pool_of user s).used_map p.used_map i cnt false) (sym (own user b))
                w,
            other user b,
          )
    ]
  where
    place : pg_no ((pool_of user s).base + pg_size * i) - pg_no (pool_of user s).base ≡ i
    place = omega (arith, page_no (pool_of user s) i v)

    poisoned : Palloc → Palloc
    poisoned s = record s {
      memory = filled s.memory ((pool_of user s).base + pg_size * i) 204 (pg_size * cnt);
    }

    own :
        (u : Bool) (b : Bitmap)
        → pool_of u (set_used u b (poisoned s)) ≡ record (pool_of u s) { used_map = b }
    own true b = refl
    own false b = refl

    other :
        (u : Bool) (b : Bitmap) → pool_of (not u) (set_used u b (poisoned s)) ≡ pool_of (not u) s
    other true b = refl
    other false b = refl

-- `palloc_free_multiple` of pages inside a pool finds that pool and frees exactly these pages, and
-- leaves the other pool alone; if one of the pages is free already the kernel halts.
pub palloc_free_multiple_lem :
    (user : Bool) (i n : ℕ) (s : Palloc)
    → PoolValid s.kernel_pool
    → PoolValid s.user_pool
    → Apart s.kernel_pool s.user_pool
    → i + suc n ≤ (pool_of user s).used_map.bit_cnt
    → Freed user i (suc n) s (palloc_free_multiple ((pool_of user s).base + pg_size * i) (suc n) s)
unfolding palloc_free_multiple
palloc_free_multiple_lem false i n s v w apart h =
    let (m, e, o) = v.base_page in
    subst (Freed false i (suc n) s) (ground (arith, from_own s.kernel_pool i v (omega arith)))
      (free_in_pool_lem false i (suc n) s v h)
palloc_free_multiple_lem true i n s v w apart h =
    let (m, e, o) = w.base_page in
    subst (Freed true i (suc n) s)
      (ground (
        arith,
        from_own s.user_pool i w (omega arith),
        not_from_other s.user_pool s.kernel_pool i w v (swap apart) (omega arith),
      ))
      (free_in_pool_lem true i (suc n) s w h)
  where
    swap : Apart s.kernel_pool s.user_pool → Apart s.user_pool s.kernel_pool
    swap (inl a) = inr a
    swap (inr a) = inl a
