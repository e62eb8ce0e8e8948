-- ===== src/Palloc/Law.antt =====
-- `palloc_get_multiple` against the set of pages in use.
use qba.Prelude.{
  ℕ, suc, ◌+◌, ◌*◌, ◌%◌, ◌≤◌, ◌<◌, ◌≡◌, refl, sym, ap, ◌∙◌, subst, Bool, true, false, not, arith,
  ◌==◌, if◌then◌else◌, ◌⊎◌, inl, inr, Bool-cases,
}
use qba.Prelude.Outcome.{Outcome, ok, panic}
use qba.Bitmap.{Bitmap, size_mod, bitmap_error}
use qba.Bitmap.Single.{IsValid}
use qba.Bitmap.Multiple.{Written}
use qba.Bitmap.Scan.{AllAre, SomeIs, bitmap_scan_and_flip_lem}
use qba.Palloc.{Pool, Palloc, PallocFlags, pg_size, filled, pool_of, set_used, palloc_get_multiple}

-- A pool that lies in memory, at a page above the null pointer.
pub record PoolValid (p : Pool) : Type 0 where
  pub map : IsValid p.used_map
  pub base_page : (n : ℕ) × (p.base ≡ pg_size * n) × (0 < n)
  pub in_memory : p.base + pg_size * p.used_map.bit_cnt < size_mod

-- The pages at `pages` are `cnt` pages of the pool, from index `i` on, that nobody used and that are
-- now in use, and no other is.
pub record Given (p p' : Pool) (pages cnt i : ℕ) : Type 0 where
  pub place : pages ≡ p.base + pg_size * i
  pub inside : i + cnt ≤ p.used_map.bit_cnt
  pub were_free : AllAre p.used_map i cnt false
  pub written : Written p.used_map p'.used_map i cnt true
  pub same_base : p'.base ≡ p.base

pool_of-set_used :
    (user : Bool) (b : Bitmap) (s : Palloc)
    → pool_of user (set_used user b s) ≡ record (pool_of user s) { used_map = b }
pool_of-set_used true b s = refl
pool_of-set_used false b s = refl

other-set_used :
    (user : Bool) (b : Bitmap) (s : Palloc)
    → pool_of (not user) (set_used user b s) ≡ pool_of (not user) s
other-set_used true b s = refl
other-set_used false b s = refl

set_used_self : (user : Bool) (s : Palloc) → set_used user (pool_of user s).used_map s ≡ s
set_used_self true s = refl
set_used_self false s = refl

memory-set_used : (user : Bool) (b : Bitmap) (s : Palloc) → (set_used user b s).memory ≡ s.memory
memory-set_used true b s = refl
memory-set_used false b s = refl

address :
    (p : Pool) (i : ℕ)
    → PoolValid p
    → i < p.used_map.bit_cnt
    → ((if i == bitmap_error then 0 else (p.base + pg_size * i) % size_mod) ≡ p.base + pg_size * i)
      × ((p.base + pg_size * i == 0) ≡ false)
address p i v h =
    let (n, e, o) = v.base_page in
    (ground (arith, v.map.small, v.in_memory), ground (arith, v.in_memory))

after : PallocFlags → ℕ → ℕ → Palloc → Palloc
after flags pages n s =
    if flags.pal_zero then record s { memory = filled s.memory pages 0 (pg_size * suc n) } else s

pool_of-after :
    (user : Bool) (flags : PallocFlags) (pages n : ℕ) (s : Palloc)
    → pool_of user (after flags pages n s) ≡ pool_of user s
unfolding after
pool_of-after user flags pages n s = go flags.pal_zero user
  where
    go :
        (zero user : Bool)
        → pool_of user
            (if zero then record s { memory = filled s.memory pages 0 (pg_size * suc n) } else s)
          ≡ pool_of user s
    go true true = refl
    go true false = refl
    go false user = refl

ok-after :
    (flags : PallocFlags) (pages n : ℕ) (s : Palloc)
    → if◌then◌else◌ {A = Outcome (ℕ × Palloc)} flags.pal_zero
        (ok (pages, record s { memory = filled s.memory pages 0 (pg_size * suc n) }))
        (ok (pages, s))
      ≡ ok (pages, after flags pages n s)
unfolding after
ok-after flags pages n s = elim (Bool-cases flags.pal_zero) [
  | inl e ↦ rw e refl
  | inr e ↦ rw e refl
]

memory-after :
    (flags : PallocFlags) (pages n : ℕ) (s₀ s : Palloc)
    → s.memory ≡ s₀.memory
    → (a : ℕ)
    → (after flags pages n s).memory a
      ≡ (if flags.pal_zero then filled s₀.memory pages 0 (pg_size * suc n) a else s₀.memory a)
unfolding after
memory-after flags pages n s₀ s h a = elim (Bool-cases flags.pal_zero) [
  | inl e ↦ rw e (rw h refl)
  | inr e ↦ rw e (rw h refl)
]

given :
    (p p' : Pool) (b : Bitmap) (cnt i : ℕ)
    → p' ≡ record p { used_map = b }
    → i + cnt ≤ p.used_map.bit_cnt
    → AllAre p.used_map i cnt false
    → Written p.used_map b i cnt true
    → Given p p' (p.base + pg_size * i) cnt i
given p p' b cnt i e h all w = record {
  place = refl;
  inside = h;
  were_free = all;
  written = subst (λ b. Written p.used_map b i cnt true) (sym (ap (λ x. x.used_map) e)) w;
  same_base = ap (λ x. x.base) e;
}

-- `palloc_get_multiple` of at least one page gives pages that nobody used and leaves the other pool
-- alone; the pages are zero if PAL_ZERO asks for it, and no other byte changes. If there is no run
-- of free pages it answers null, or halts if PAL_ASSERT asks for it.
pub palloc_get_multiple_lem :
    (flags : PallocFlags) (n : ℕ) (s : Palloc)
    → PoolValid (pool_of flags.pal_user s)
    → ((pages : ℕ) × (i : ℕ) × (s' : Palloc) × (palloc_get_multiple flags (suc n) s
          ≡ ok (pages, s'))
        × Given (pool_of flags.pal_user s) (pool_of flags.pal_user s') pages (suc n) i
        × (pool_of (not flags.pal_user) s' ≡ pool_of (not flags.pal_user) s)
        × ((a : ℕ)
            → s'.memory a ≡ (
                if flags.pal_zero
                then filled s.memory pages 0 (pg_size * suc n) a
                else s.memory a)))
      ⊎ ((palloc_get_multiple flags (suc n) s ≡ (if flags.pal_assert then panic else ok (0, s)))
          × ((k : ℕ)
              → k + suc n ≤ (pool_of flags.pal_user s).used_map.bit_cnt
              → SomeIs (pool_of flags.pal_user s).used_map k (suc n) true))
unfolding palloc_get_multiple
palloc_get_multiple_lem flags n s v =
    elim (bitmap_scan_and_flip_lem (pool_of flags.pal_user s).used_map 0 (suc n) false v.map
      (omega arith)) [
        | inl (i, b, e, p, q, all, w) ↦
            let (f, g) = address (pool_of flags.pal_user s) i v (omega arith) in
            let pages = (pool_of flags.pal_user s).base + pg_size * i in
            let s₁ = set_used flags.pal_user b s in
            inl (
              pages,
              i,
              after flags pages n s₁,
              rw e (rw f (rw g (ok-after flags pages n s₁))),
              given (pool_of flags.pal_user s) _ b (suc n) i
                  (pool_of-after flags.pal_user flags pages n s₁
                    ∙ pool_of-set_used flags.pal_user b s)
                  q all w,
              pool_of-after (not flags.pal_user) flags pages n s₁
                  ∙ other-set_used flags.pal_user b s,
              memory-after flags pages n s s₁ (memory-set_used flags.pal_user b s),
            )
        | inr (e, none_left) ↦
            inr
              (rw e (rw (set_used_self flags.pal_user s) refl), λ k p. none_left k (omega arith) p)
      ]
