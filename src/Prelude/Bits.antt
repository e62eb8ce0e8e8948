-- ===== src/Prelude/Bits.antt =====
-- The bits of a word, and what `|`, `&`, `^` and `~` do to each of them, at every width.
use Prim.Native.Nat.{
  ℕ, zero, suc, ◌+◌, ◌-◌, ◌*◌, ◌/◌, ◌%◌, ◌^◌, ◌≤◌, ◌<◌, min, max, bit_and, bit_or, bit_xor, digits,
  bitwise, differ, bit_and-bitwise, bit_or-bitwise, bit_xor-bitwise,
}
use native.Mathlib.Nat.{pow-suc, one-le-pow}
use mathlib.Core.Path.{◌≡◌, refl, ap}
use native.Mathlib.Omega.{arith}
use qba.Prelude.Tests.{◌==◌, if◌then◌else◌}

-- `bitwise`, one binary digit at a time, for an operation that keeps the rest of the second number
-- by `z` once the first has no digits left.
module _ (z : ℕ → ℕ) (f : ℕ → ℕ → ℕ) (rest : (y : ℕ) → z y ≡ 2 * z (y / 2) + f 0 (y % 2)) where
  settled : (bound fuel x y : ℕ) → fuel ≤ bound → x ≤ fuel → digits z f fuel x y ≡ bitwise z f x y
  settled bound zero zero y within enough = refl
  settled bound (suc fuel) zero y within enough = refl
  settled bound zero (suc x) y within enough = absurd (omega arith)
  settled zero (suc fuel) (suc x) y within enough = absurd (omega arith)
  settled (suc bound) (suc fuel) (suc x) y within enough = omega (
    arith,
    settled bound fuel (suc x / 2) (y / 2) (omega arith) (omega arith),
    settled bound x (suc x / 2) (y / 2) (omega arith) (omega arith),
  )

  bitwise-halves : (x y : ℕ) → bitwise z f x y ≡ 2 * bitwise z f (x / 2) (y / 2) + f (x % 2) (y % 2)
  bitwise-halves zero y = rest y
  bitwise-halves (suc x) y =
      omega (arith, settled x x (suc x / 2) (y / 2) (omega arith) (omega arith))

differ_digits : (x y : ℕ) → x < 2 → y < 2 → differ x y ≡ (if x == y then 0 else 1)
differ_digits zero zero p q = refl
differ_digits zero (suc zero) p q = refl
differ_digits zero (suc (suc y)) p q = absurd (omega arith)
differ_digits (suc zero) zero p q = refl
differ_digits (suc zero) (suc zero) p q = refl
differ_digits (suc zero) (suc (suc y)) p q = absurd (omega arith)
differ_digits (suc (suc x)) y p q = absurd (omega arith)

pub or_halves : (x y : ℕ) → bit_or x y ≡ 2 * bit_or (x / 2) (y / 2) + max (x % 2) (y % 2)
or_halves x y = simp bit_or-bitwise (bitwise-halves (λ r. r) max (λ r. omega arith) x y)

pub and_halves : (x y : ℕ) → bit_and x y ≡ 2 * bit_and (x / 2) (y / 2) + min (x % 2) (y % 2)
and_halves x y = simp bit_and-bitwise (bitwise-halves (λ r. 0) min (λ r. omega arith) x y)

xor_halves : (x y : ℕ) → bit_xor x y ≡ 2 * bit_xor (x / 2) (y / 2) + differ (x % 2) (y % 2)
xor_halves x y = simp bit_xor-bitwise (
    bitwise-halves (λ r. r) differ
      (λ r. omega (arith, differ_digits 0 (r % 2) (omega arith) (omega arith))) x y)

-- Bit `k` of `w`, as 0 or 1.
unfoldable pub bit : ℕ → ℕ → ℕ
bit w zero = w % 2
bit w (suc k) = bit (w / 2) k

pub bit-lt : (w k : ℕ) → bit w k < 2
unfolding bit
bit-lt w zero = omega arith
bit-lt w (suc k) = bit-lt (w / 2) k

pub bit-bit_or : (a b k : ℕ) → bit (bit_or a b) k ≡ max (bit a k) (bit b k)
unfolding bit
bit-bit_or a b zero = omega (arith, or_halves a b)
bit-bit_or a b (suc k) = rw (half, bit-bit_or (a / 2) (b / 2) k)
  where
    half : bit_or a b / 2 ≡ bit_or (a / 2) (b / 2)
    half = omega (arith, or_halves a b)

pub bit-bit_and : (a b k : ℕ) → bit (bit_and a b) k ≡ min (bit a k) (bit b k)
unfolding bit
bit-bit_and a b zero = omega (arith, and_halves a b)
bit-bit_and a b (suc k) = rw (half, bit-bit_and (a / 2) (b / 2) k)
  where
    half : bit_and a b / 2 ≡ bit_and (a / 2) (b / 2)
    half = omega (arith, and_halves a b)

pub bit-bit_xor : (a b k : ℕ) → bit (bit_xor a b) k ≡ (if bit a k == bit b k then 0 else 1)
unfolding bit
bit-bit_xor a b zero =
    ground (arith, xor_halves a b, differ_digits (a % 2) (b % 2) (omega arith) (omega arith))
bit-bit_xor a b (suc k) = rw (half, bit-bit_xor (a / 2) (b / 2) k)
  where
    half : bit_xor a b / 2 ≡ bit_xor (a / 2) (b / 2)
    half = ground (arith, xor_halves a b, differ_digits (a % 2) (b % 2) (omega arith) (omega arith))

pub bit-zero : (k : ℕ) → bit 0 k ≡ 0
unfolding bit
bit-zero zero = refl
bit-zero (suc k) = bit-zero k

-- `1 << k` has the one bit.
pub bit-pow : (k j : ℕ) → bit (2 ^ k) j ≡ (if k == j then 1 else 0)
unfolding bit
bit-pow zero zero = refl
bit-pow zero (suc j) = ground (arith, bit-zero j)
bit-pow (suc k) zero = ground (arith, pow-suc 2 k)
bit-pow (suc k) (suc j) = rw half (ground (arith, bit-pow k j))
  where
    half : 2 ^ suc k / 2 ≡ 2 ^ k
    half = omega (arith, pow-suc 2 k)

-- `~m` in `n` bits flips each of them.
pub bit-complement : (n m j : ℕ) → m < 2 ^ n → j < n → bit (2 ^ n - 1 - m) j ≡ 1 - bit m j
unfolding bit
bit-complement zero m j h p = absurd (omega arith)
bit-complement (suc n) m zero h p = omega (arith, pow-suc 2 n)
bit-complement (suc n) m (suc j) h p =
    rw half (bit-complement n (m / 2) j (omega (arith, pow-suc 2 n)) (omega arith))
  where
    half : (2 ^ suc n - 1 - m) / 2 ≡ 2 ^ n - 1 - m / 2
    half = omega (arith, pow-suc 2 n)

pub nothing_left : (x bound : ℕ) → x ≤ bound → bit_and x 0 ≡ 0
nothing_left zero bound fits = refl
nothing_left (suc x) zero fits = absurd (omega arith)
nothing_left (suc x) (suc bound) fits =
    omega (arith, and_halves (suc x) 0, nothing_left (suc x / 2) bound (omega arith))

-- `w & (1 << k)` is bit `k` in its place.
pub bit_and-pow : (w k : ℕ) → bit_and w (2 ^ k) ≡ bit w k * 2 ^ k
unfolding bit
bit_and-pow w zero = omega (arith, and_halves w 1, nothing_left (w / 2) (w / 2) (omega arith))
bit_and-pow w (suc k) = rw (and_halves w (2 ^ suc k), half, bit_and-pow (w / 2) k) tail
  where
    half : 2 ^ suc k / 2 ≡ 2 ^ k
    half = omega (arith, pow-suc 2 k)

    tail : 2 * (bit (w / 2) k * 2 ^ k) + min (w % 2) (2 ^ suc k % 2) ≡ bit (w / 2) k * 2 ^ suc k
    tail = omega (arith, ap (λ (t : ℕ). bit (w / 2) k * t) (pow-suc 2 k), pow-suc 2 k)

pub pow-pos : (k : ℕ) → 0 < 2 ^ k
pow-pos k = one-le-pow k 2 (omega arith)

pub pow-lt : (k n : ℕ) → k < n → 2 ^ k < 2 ^ n
pow-lt k zero h = absurd (omega arith)
pow-lt zero (suc n) h = omega (arith, pow-suc 2 n, pow-pos n)
pow-lt (suc k) (suc n) h = omega (arith, pow-suc 2 n, pow-suc 2 k, pow-lt k n (omega arith))
