-- ===== src/CString/Search.antt =====
-- `memcmp` and `strcmp` of src/lib/string.c against the order of the bytes.
use qba.Prelude.{
  ℕ, zero, suc, ◌+◌, ◌≤◌, ◌<◌, ◌≡◌, ◌≢◌, refl, subst, arith, ltb, if◌then◌else◌, ◌⊎◌, inl, inr,
  ℕ_discrete,
}
use qba.Prelude.Outcome.{Outcome, ok}
use qba.CString.{Memory, Sign, less, equal, greater, memcmp_loop, memcmp, strcmp_loop, strcmp}
use qba.CString.Length.{Str}

-- The first `n` bytes of the two blocks agree.
abbrev pub Agree : Memory → ℕ → ℕ → ℕ → Type 0
Agree m a b n = (i : ℕ) → i < n → m (a + i) ≡ m (b + i)

-- The order of two different bytes.
abbrev pub sign_of : ℕ → ℕ → Sign
sign_of x y = if ltb x y then less else greater

Agree-suc :
    (m : Memory) (a b : ℕ) {n : ℕ} → m a ≡ m b → Agree m (a + 1) (b + 1) n → Agree m a b (suc n)
Agree-suc m a b e h zero p = ground (arith, e)
Agree-suc m a b e h (suc i) p = ground (arith, h i (omega arith))

-- What a comparison of `size` bytes answers.
abbrev pub Compared : Memory → ℕ → ℕ → ℕ → Sign → Type 0
Compared m a b size r =
    ((r ≡ equal) × Agree m a b size)
    ⊎ ((i : ℕ) × (i < size)
        × Agree m a b i
        × (m (a + i) ≢ m (b + i))
        × (r ≡ sign_of (m (a + i)) (m (b + i))))

memcmp_loop_lem : (m : Memory) (a b size : ℕ) → Compared m a b size (memcmp_loop m a b size)
unfolding memcmp_loop
memcmp_loop_lem m a b zero = inl (refl, λ i h. absurd (omega arith))
memcmp_loop_lem m a b (suc n) = elim (ℕ_discrete (m a) (m b)) [
  | no ne ↦
      inr (0, omega arith, λ i h. absurd (omega arith), (λ e. ne (ground arith)), ground arith)
  | yes e ↦ elim (memcmp_loop_lem m (a + 1) (b + 1) n) [
    | inl (r, h) ↦ inl (ground arith, Agree-suc m a b e h)
    | inr (i, p, h, ne, r) ↦
        inr (suc i, omega arith, Agree-suc m a b e h, (λ z. ne (ground arith)), ground arith)
  ]
]

-- `memcmp` answers zero if the two blocks have the same bytes, and otherwise the order of the first
-- two bytes that differ.
pub memcmp_lem :
    (m : Memory) (a b size : ℕ)
    → a ≢ 0
    → b ≢ 0
    → (r : Sign) × (memcmp m a b size ≡ ok r) × Compared m a b size r
unfolding memcmp
memcmp_lem m a b size p q = (memcmp_loop m a b size, ground arith, memcmp_loop_lem m a b size)

-- What `strcmp` answers for strings of lengths `n` and `k`.
abbrev pub StrCompared : Memory → ℕ → ℕ → ℕ → ℕ → Outcome Sign → Type 0
StrCompared m a b n k r =
    ((r ≡ ok equal) × (n ≡ k) × Agree m a b n)
    ⊎ ((i : ℕ) × (i ≤ n)
        × (i ≤ k)
        × Agree m a b i
        × (m (a + i) ≢ m (b + i))
        × (r ≡ ok (sign_of (m (a + i)) (m (b + i)))))

Str-tail : (m : Memory) (p n : ℕ) → Str m p (suc n) → Str m (p + 1) n
Str-tail m p n s = record {
  chars = λ i h. (λ e. s.chars (suc i) (omega arith) (ground arith));
  end = ground (arith, s.end);
}

strcmp_loop_lem :
    (fuel : ℕ) (m : Memory) (a b n k : ℕ)
    → Str m a n
    → Str m b k
    → n < fuel
    → StrCompared m a b n k (strcmp_loop fuel m a b)
unfolding strcmp_loop
strcmp_loop_lem zero m a b n k s t f = absurd (omega arith)
strcmp_loop_lem (suc fuel) m a b zero zero s t f =
    inl (ground (arith, s.end, t.end), refl, λ i h. absurd (omega arith))
strcmp_loop_lem (suc fuel) m a b zero (suc k) s t f = inr (
  0,
  omega arith,
  omega arith,
  (λ i h. absurd (omega arith)),
  (λ e. t.chars 0 (omega arith) (ground (arith, s.end))),
  ground (arith, s.end, t.chars 0 (omega arith)),
)
strcmp_loop_lem (suc fuel) m a b (suc n) zero s t f = inr (
  0,
  omega arith,
  omega arith,
  (λ i h. absurd (omega arith)),
  (λ e. s.chars 0 (omega arith) (ground (arith, t.end))),
  ground (arith, t.end, s.chars 0 (omega arith)),
)
strcmp_loop_lem (suc fuel) m a b (suc n) (suc k) s t f = elim (ℕ_discrete (m a) (m b)) [
  | no ne ↦ inr (
    0,
    omega arith,
    omega arith,
    (λ i h. absurd (omega arith)),
    (λ e. ne (ground arith)),
    ground arith,
  )
  | yes e ↦
      elim (strcmp_loop_lem fuel m (a + 1) (b + 1) n k (Str-tail m a n s) (Str-tail m b k t)
        (omega arith)) [
          | inl (r, z, h) ↦
              inl (ground (arith, s.chars 0 (omega arith)), omega arith, Agree-suc m a b e h)
          | inr (i, p, q, h, ne, r) ↦ inr (
            suc i,
            omega arith,
            omega arith,
            Agree-suc m a b e h,
            (λ z. ne (ground arith)),
            ground (arith, s.chars 0 (omega arith)),
          )
        ]
]

-- `strcmp` of two strings answers zero if they are the same string, and otherwise the order of the
-- first two characters that differ, where the end of a string counts as a character below all others.
pub strcmp_lem :
    (fuel : ℕ) (m : Memory) (a b n k : ℕ)
    → a ≢ 0
    → b ≢ 0
    → Str m a n
    → Str m b k
    → n < fuel
    → StrCompared m a b n k (strcmp fuel m a b)
unfolding strcmp
strcmp_lem fuel m a b n k p q s t f =
    subst (StrCompared m a b n k) (ground arith) (strcmp_loop_lem fuel m a b n k s t f)
