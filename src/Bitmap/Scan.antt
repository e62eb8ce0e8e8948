-- ===== src/Bitmap/Scan.antt =====
-- `bitmap_contains`, `bitmap_scan` and `bitmap_scan_and_flip` against the set of indices that the
-- bitmap stands for.
use qba.Prelude.{
  ℕ, zero, suc, ◌+◌, ◌-◌, ◌%◌, ◌≤◌, ◌<◌, ◌≡◌, ◌≢◌, refl, subst, ◌∙◌, Bool, true, false, ◌⊎◌, not,
  arith, inl, inr, Bool-cases, dec_le, ℕ_discrete,
}
use qba.Prelude.Outcome.{Outcome, ok}
use qba.Bitmap.{
  Bitmap, size_mod, bitmap_error, same, bitmap_test, contains_loop, bitmap_contains, scan_loop,
  bitmap_scan, bitmap_scan_and_flip,
}
use qba.Bitmap.Single.{IsValid, has, test-has}
use qba.Bitmap.Multiple.{Written, bitmap_set_multiple_lem}

-- Every bit of the range is `value`.
abbrev pub AllAre : Bitmap → ℕ → ℕ → Bool → Type 0
AllAre b lo n value = (j : ℕ) → lo ≤ j → j < lo + n → has b j ≡ value

-- Some bit of the range is `value`.
abbrev pub SomeIs : Bitmap → ℕ → ℕ → Bool → Type 0
SomeIs b lo n value = (j : ℕ) × (lo ≤ j) × (j < lo + n) × (has b j ≡ value)

abbrev pub Contains : Bitmap → ℕ → ℕ → Bool → Outcome Bool → Type 0
Contains b lo n value r =
    ((r ≡ ok true) × SomeIs b lo n value) ⊎ ((r ≡ ok false) × AllAre b lo n (not value))

contains_loop_lem :
    (left : ℕ) (b : Bitmap) (start i : ℕ) (value : Bool)
    → IsValid b
    → start + i + left ≤ b.bit_cnt
    → Contains b (start + i) left value (contains_loop b start i left value)
unfolding contains_loop
contains_loop_lem zero b start i value v h = inr (refl, λ j p q. absurd (omega arith))
contains_loop_lem (suc left) b start i value v h =
    elim (Bool-cases (same (has b (start + i)) value)) [
      | inl hit ↦ inl (ground (arith, read), (start + i, omega arith, omega arith, ground arith))
      | inr miss ↦ elim (contains_loop_lem left b start (i + 1) value v (omega arith)) [
        | inl (e, (j, p, q, r)) ↦ inl (ground (arith, read), (j, omega arith, omega arith, r))
        | inr (e, all) ↦ inr (
          ground (arith, read),
          λ j p q. elim (ℕ_discrete (start + i) j) [
            | yes here ↦ rw (← here) (ground arith)
            | no ne ↦ all j (omega arith) (omega arith)
          ],
        )
      ]
    ]
  where
    read : bitmap_test b ((start + i) % size_mod) ≡ ok (has b (start + i))
    read = ground (arith, v.small, test-has v {i = start + i} (omega arith))

-- `bitmap_contains` tells whether some bit of a range inside the bitmap has the value.
pub bitmap_contains_lem :
    (b : Bitmap) (start cnt : ℕ) (value : Bool)
    → IsValid b
    → start + cnt ≤ b.bit_cnt
    → Contains b start cnt value (bitmap_contains b start cnt value)
unfolding bitmap_contains
bitmap_contains_lem b start cnt value v h =
    elim (contains_loop_lem cnt b start 0 value v (omega arith)) [
      | inl (e, (j, p, q, r)) ↦ inl (ground (arith, v.small), (j, omega arith, omega arith, r))
      | inr (e, all) ↦ inr (ground (arith, v.small), λ j p q. all j (omega arith) (omega arith))
    ]

-- What a scan from `lo` for `cnt` bits of `value` answers, with `n` starting points to try.
abbrev pub Scanned : Bitmap → ℕ → ℕ → ℕ → Bool → Outcome ℕ → Type 0
Scanned b lo n cnt value r =
    ((i : ℕ) × (r ≡ ok i)
      × (lo ≤ i)
      × (i < lo + n)
      × AllAre b i cnt value
      × ((k : ℕ) → lo ≤ k → k < i → SomeIs b k cnt (not value)))
    ⊎ ((r ≡ ok bitmap_error) × ((k : ℕ) → lo ≤ k → k < lo + n → SomeIs b k cnt (not value)))

not-not : (v : Bool) → not (not v) ≡ v
not-not true = refl
not-not false = refl

scan_loop_lem :
    (left : ℕ) (b : Bitmap) (i cnt : ℕ) (value : Bool)
    → IsValid b
    → (left ≢ 0 → i + left + cnt ≤ b.bit_cnt + 1)
    → Scanned b i left cnt value (scan_loop b i left cnt value)
unfolding scan_loop
scan_loop_lem zero b i cnt value v h = inr (refl, λ k p q. absurd (omega arith))
scan_loop_lem (suc left) b i cnt value v h =
    elim (bitmap_contains_lem b i cnt (not value) v (omega (arith, h (λ e. cc)))) [
      | inr (e, all) ↦ inl (
        i,
        rw e refl,
        omega arith,
        omega arith,
        λ j p q. all j p q ∙ not-not value,
        λ k p q. absurd (omega arith),
      )
      | inl (e, found) ↦
          elim (scan_loop_lem left b (i + 1) cnt value v (λ ne. omega (arith, h (λ z. cc)))) [
            | inl (j, f, p, q, all, before) ↦
                inl (j, rw e f, omega arith, omega arith, all, λ k r s. earlier found before k r s)
            | inr (f, none_left) ↦ inr (rw e f, λ k r s. earlier found none_left k r (omega arith))
          ]
    ]
  where
    earlier :
        {j : ℕ}
        → SomeIs b i cnt (not value)
        → ((k : ℕ) → i + 1 ≤ k → k < j → SomeIs b k cnt (not value))
        → (k : ℕ) → i ≤ k
        → k < j
        → SomeIs b k cnt (not value)
    earlier found later k p q = elim (ℕ_discrete i k) [
      | yes here ↦ subst (λ k. SomeIs b k cnt (not value)) here found
      | no ne ↦ later k (omega arith) q
    ]

-- `bitmap_scan` finds the first group of `cnt` bits of the value at or after `start`, and answers
-- BITMAP_ERROR exactly when there is none.
pub bitmap_scan_lem :
    (b : Bitmap) (start cnt : ℕ) (value : Bool)
    → IsValid b
    → start ≤ b.bit_cnt
    → ((i : ℕ) × (bitmap_scan b start cnt value ≡ ok i)
        × (start ≤ i)
        × (i + cnt ≤ b.bit_cnt)
        × AllAre b i cnt value
        × ((k : ℕ) → start ≤ k → k < i → SomeIs b k cnt (not value)))
      ⊎ ((bitmap_scan b start cnt value ≡ ok bitmap_error)
          × ((k : ℕ) → start ≤ k → k + cnt ≤ b.bit_cnt → SomeIs b k cnt (not value)))
unfolding bitmap_scan
bitmap_scan_lem b start cnt value v h = elim (dec_le cnt b.bit_cnt) [
  | no big ↦ inr (ground arith, λ k p q. absurd (omega arith))
  | yes fits ↦
      elim (scan_loop_lem (b.bit_cnt - cnt + 1 - start) b start cnt value v (λ ne. omega arith)) [
        | inl (i, e, p, q, all, before) ↦ inl (i, ground (arith, e), p, omega arith, all, before)
        | inr (e, none_left) ↦ inr (ground (arith, e), λ k p q. none_left k p (omega arith))
      ]
]

-- `bitmap_scan_and_flip` takes a group of bits that all had the value, inside the bitmap, and turns
-- exactly these over; if there is no group it answers BITMAP_ERROR and leaves the bitmap alone.
pub bitmap_scan_and_flip_lem :
    (b : Bitmap) (start cnt : ℕ) (value : Bool)
    → IsValid b
    → start ≤ b.bit_cnt
    → ((i : ℕ) × (b' : Bitmap) × (bitmap_scan_and_flip b start cnt value ≡ ok (i, b'))
        × (start ≤ i)
        × (i + cnt ≤ b.bit_cnt)
        × AllAre b i cnt value
        × Written b b' i cnt (not value))
      ⊎ ((bitmap_scan_and_flip b start cnt value ≡ ok (bitmap_error, b))
          × ((k : ℕ) → start ≤ k → k + cnt ≤ b.bit_cnt → SomeIs b k cnt (not value)))
unfolding bitmap_scan_and_flip
bitmap_scan_and_flip_lem b start cnt value v h = elim (bitmap_scan_lem b start cnt value v h) [
  | inl (i, e, p, q, all, before) ↦
      let (b', f, w) = bitmap_set_multiple_lem {b = b} i cnt (not value) v q in
      inl (i, b', rw e (ground (arith, v.small, f)), p, q, all, w)
  | inr (e, none_left) ↦ inr (rw e refl, none_left)
]
