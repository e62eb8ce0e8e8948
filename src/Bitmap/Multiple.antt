-- ===== src/Bitmap/Multiple.antt =====
-- `bitmap_set` and `bitmap_set_multiple` of src/lib/kernel/bitmap.c against the set of indices that
-- the bitmap stands for.
use qba.Prelude.{
  ℕ, zero, suc, ◌+◌, ◌%◌, ◌≤◌, ◌<◌, ◌≡◌, refl, ◌∙◌, Bool, true, false, ◌&&◌, arith, ltb, leb,
  if◌then◌else◌, length, length-set,
}
use qba.Prelude.Outcome.{ok}
use qba.Bitmap.{
  Bitmap, size_mod, bitmap_mark, bitmap_reset, bitmap_set, set_loop, bitmap_set_multiple,
}
use qba.Bitmap.Single.{IsValid, has, has-mark, has-reset}

abbrev pub within : ℕ → ℕ → ℕ → Bool
within lo n j = leb lo j && ltb j (lo + n)

-- `b'` is `b` with the `n` bits from `lo` on set to `value`, in the same storage.
pub record Written (b b' : Bitmap) (lo n : ℕ) (value : Bool) : Type 0 where
  pub same_cnt : b'.bit_cnt ≡ b.bit_cnt
  pub same_room : length b'.bits ≡ length b.bits
  pub bits : (j : ℕ) → has b' j ≡ (if within lo n j then value else has b j)

pub Written-IsValid :
    {b b' : Bitmap} {lo n : ℕ} {value : Bool} → Written b b' lo n value → IsValid b → IsValid b'
Written-IsValid w v = omega (arith, v.room, v.small, w.same_cnt, w.same_room)

pub bitmap_set_lem :
    {b : Bitmap} {i : ℕ} (value : Bool)
    → IsValid b
    → i < b.bit_cnt
    → (b' : Bitmap) × (bitmap_set b i value ≡ ok b') × Written b b' i 1 value
unfolding bitmap_set
bitmap_set_lem {b} {i} true v h = (
  bitmap_mark b i,
  ground arith,
  record {
    same_cnt = unfold bitmap_mark in refl;
    same_room = unfold bitmap_mark in length-set b.bits _ _;
    bits = λ j. ground (arith, has-mark v h j);
  },
)
bitmap_set_lem {b} {i} false v h = (
  bitmap_reset b i,
  ground arith,
  record {
    same_cnt = unfold bitmap_reset in refl;
    same_room = unfold bitmap_reset in length-set b.bits _ _;
    bits = λ j. ground (arith, has-reset v h j);
  },
)

set_loop_lem :
    (left : ℕ) {b : Bitmap} (start i : ℕ) (value : Bool)
    → IsValid b
    → start + i + left ≤ b.bit_cnt
    → (b' : Bitmap) × (set_loop b start i left value ≡ ok b') × Written b b' (start + i) left value
unfolding set_loop
set_loop_lem zero {b} start i value v h =
    (b, refl, record { same_cnt = refl; same_room = refl; bits = λ j. ground arith })
set_loop_lem (suc left) {b} start i value v h =
    let (b₁, e₁, w₁) =
      bitmap_set_lem {b = b} {i = (start + i) % size_mod} value v (omega (arith, v.small)) in
    let (b₂, e₂, w₂) =
      set_loop_lem left {b = b₁} start (i + 1) value (Written-IsValid w₁ v)
        (omega (arith, w₁.same_cnt)) in
    (
      b₂,
      rw e₁ e₂,
      record {
        same_cnt = w₂.same_cnt ∙ w₁.same_cnt;
        same_room = w₂.same_room ∙ w₁.same_room;
        bits = λ j. ground (arith, w₁.bits j, w₂.bits j, v.small);
      },
    )

-- `bitmap_set_multiple` does not halt the machine on a range inside the bitmap, and sets exactly
-- the bits of the range.
pub bitmap_set_multiple_lem :
    {b : Bitmap} (start cnt : ℕ) (value : Bool)
    → IsValid b
    → start + cnt ≤ b.bit_cnt
    → (b' : Bitmap) × (bitmap_set_multiple b start cnt value ≡ ok b') × Written b b' start cnt value
unfolding bitmap_set_multiple
bitmap_set_multiple_lem {b} start cnt value v h =
    let (b', e, w) = set_loop_lem cnt {b = b} start 0 value v (omega arith) in
    (
      b',
      ground (arith, v.small, e),
      record {
        same_cnt = w.same_cnt;
        same_room = w.same_room;
        bits = λ j. ground (arith, w.bits j);
      },
    )
