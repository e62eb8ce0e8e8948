-- ===== src/Bitmap/Single.antt =====
-- Single bits: a bitmap seen as a set of indices, and what the operations on one bit do to it.
use qba.Prelude.{
  ℕ, ◌-◌, ◌*◌, ◌/◌, ◌%◌, ◌^◌, ◌≤◌, ◌<◌, bit_and, bit_or, bit_xor, ◌≡◌, inl, inr, Bool, true, false,
  not, arith, ◌==◌, if◌then◌else◌, set, length, get_or-set_self, get_or-set_ne, ℕ_discrete,
  Bool-cases,
}
use qba.Prelude.Bits.{
  bit, bit-lt, bit-bit_or, bit-bit_and, bit-bit_xor, bit-pow, bit-complement, bit_and-pow, pow-pos,
  pow-lt,
}
use qba.Prelude.Outcome.{ok}
use qba.Bitmap.{Bitmap, bitmap_error, elem, bitmap_mark, bitmap_reset, bitmap_flip, bitmap_test}

-- There is a word for every bit, and the count is a `size_t` below `BITMAP_ERROR`.
pub record IsValid (b : Bitmap) : Type 0 where
  pub room : b.bit_cnt ≤ 32 * length b.bits
  pub small : b.bit_cnt < bitmap_error

-- Bit `i` is on.
unfoldable pub has : Bitmap → ℕ → Bool
has b i = bit (elem b (i / 32)) (i % 32) == 1

-- A word stored over the one that holds bit `i` changes the bits of that word only.
has-store :
    (b : Bitmap) (i j w : ℕ)
    → i / 32 < length b.bits
    → has (record b { bits = set b.bits (i / 32) w }) j
      ≡ (if i / 32 == j / 32 then bit w (j % 32) == 1 else has b j)
unfolding has
has-store b i j w h = elim (ℕ_discrete (i / 32) (j / 32)) [
  | yes e ↦ ground (arith, get_or-set_self b.bits (i / 32) w 0 h)
  | no ne ↦ ground (arith, get_or-set_ne b.bits {i = i / 32} {j = j / 32} w 0 ne)
]

module _ {b : Bitmap} (v : IsValid b) {i : ℕ} (h : i < b.bit_cnt) where
  in_words : i / 32 < length b.bits
  in_words = omega (arith, v.room)

  pub has-mark : (j : ℕ) → has (bitmap_mark b i) j ≡ (if i == j then true else has b j)
  unfolding bitmap_mark has
  has-mark j = ground (
    arith,
    in_words,
    has-store b i j (bit_or (elem b (i / 32)) (2 ^ (i % 32))),
    bit-bit_or (elem b (i / 32)) (2 ^ (i % 32)) (j % 32),
    bit-pow (i % 32) (j % 32),
    bit-lt (elem b (i / 32)) (j % 32),
  )

  pub has-reset : (j : ℕ) → has (bitmap_reset b i) j ≡ (if i == j then false else has b j)
  unfolding bitmap_reset has
  has-reset j = ground (
    arith,
    in_words,
    has-store b i j (bit_and (elem b (i / 32)) (2 ^ 32 - 1 - 2 ^ (i % 32))),
    bit-bit_and (elem b (i / 32)) (2 ^ 32 - 1 - 2 ^ (i % 32)) (j % 32),
    bit-complement 32 (2 ^ (i % 32)) (j % 32) (pow-lt (i % 32) 32 (omega arith)) (omega arith),
    bit-pow (i % 32) (j % 32),
    bit-lt (elem b (i / 32)) (j % 32),
  )

  -- `bitmap_flip` turns the one bit over.
  pub has-flip : (j : ℕ) → has (bitmap_flip b i) j ≡ (if i == j then not (has b j) else has b j)
  unfolding bitmap_flip has
  has-flip j = ground (
    arith,
    in_words,
    has-store b i j (bit_xor (elem b (i / 32)) (2 ^ (i % 32))),
    bit-bit_xor (elem b (i / 32)) (2 ^ (i % 32)) (j % 32),
    bit-pow (i % 32) (j % 32),
    bit-lt (elem b (i / 32)) (j % 32),
  )

  -- `bitmap_test` reads the bit.
  pub test-has : bitmap_test b i ≡ ok (has b i)
  unfolding bitmap_test has
  test-has = elim (Bool-cases (bit (elem b (i / 32)) (i % 32) == 0)) [
    | inl e ↦ ground (arith, bit_and-pow (elem b (i / 32)) (i % 32), pow-pos (i % 32))
    | inr e ↦ ground (
      arith,
      bit_and-pow (elem b (i / 32)) (i % 32),
      pow-pos (i % 32),
      bit-lt (elem b (i / 32)) (i % 32),
    )
  ]
