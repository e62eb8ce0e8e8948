-- ===== src/Prelude/Masks.antt =====
-- Flags under an aligned address.
use Prim.Native.Nat.{ℕ, zero, suc, ◌+◌, ◌-◌, ◌*◌, ◌/◌, ◌%◌, ◌^◌, ◌≤◌, ◌<◌, bit_and, bit_or}
use native.Mathlib.Nat.{pow-suc}
use mathlib.Core.Path.{◌≡◌, refl, sym, ap, ap₂, ◌∙◌}
use native.Mathlib.Omega.{arith}
use qba.Prelude.Bits.{or_halves, and_halves, nothing_left, pow-pos}

or_zero : (bound x : ℕ) → x ≤ bound → bit_or x 0 ≡ x
or_zero bound zero h = refl
or_zero zero (suc x) h = absurd (omega arith)
or_zero (suc bound) (suc x) h =
    omega (arith, or_halves (suc x) 0, or_zero bound (suc x / 2) (omega arith))

doubled : (k q : ℕ) → 2 ^ suc k * q ≡ 2 * (2 ^ k * q)
doubled k q = omega (arith, ap (λ (t : ℕ). t * q) (pow-suc 2 k))

half : (k q f : ℕ) → (2 ^ suc k * q + f) / 2 ≡ 2 ^ k * q + f / 2
half k q f = omega (arith, doubled k q)

half_zero : (k q : ℕ) → 2 ^ suc k * q / 2 ≡ 2 ^ k * q
half_zero k q = omega (arith, doubled k q)

-- Flags or-ed to an address and its flags.
pub bit_or-flags :
    (k q f g : ℕ) → f < 2 ^ k → g < 2 ^ k → bit_or (2 ^ k * q + f) g ≡ 2 ^ k * q + bit_or f g
bit_or-flags zero q zero zero h l = omega (arith, or_zero (1 * q + 0) (1 * q + 0) (omega arith))
bit_or-flags zero q zero (suc g) h l = absurd (omega arith)
bit_or-flags zero q (suc f) g h l = absurd (omega arith)
bit_or-flags (suc k) q f g h l = omega (
  arith,
  or_halves (2 ^ suc k * q + f) g,
  or_halves f g,
  ap (λ t. bit_or t (g / 2)) (half k q f),
  bit_or-flags k q (f / 2) (g / 2) (omega (arith, pow-suc 2 k)) (omega (arith, pow-suc 2 k)),
  doubled k q,
)

-- The lowest bit.
pub bit_and-one : (x : ℕ) → bit_and x 1 ≡ x % 2
bit_and-one x = omega (arith, and_halves x 1, nothing_left (x / 2) (x / 2) (omega arith))

and_ones : (n q : ℕ) → q < 2 ^ n → bit_and q (2 ^ n - 1) ≡ q
and_ones zero q h = omega (arith, nothing_left q q (omega arith))
and_ones (suc n) q h = omega (
  arith,
  and_halves q (2 ^ suc n - 1),
  ap (bit_and (q / 2)) ones,
  and_ones n (q / 2) (omega (arith, pow-suc 2 n)),
  pow-suc 2 n,
  pow-pos n,
)
  where
    ones : (2 ^ suc n - 1) / 2 ≡ 2 ^ n - 1
    ones = omega (arith, pow-suc 2 n)

-- The mask of an address takes the flags away.
pub bit_and-mask :
    (k n q f : ℕ)
    → f < 2 ^ k
    → q < 2 ^ n
    → bit_and (2 ^ k * q + f) (2 ^ k * (2 ^ n - 1)) ≡ 2 ^ k * q
bit_and-mask zero n q zero h b = ap₂ bit_and left right ∙ and_ones n q b ∙ sym single
  where
    single : 1 * q ≡ q
    single = omega arith

    left : 1 * q + 0 ≡ q
    left = omega arith

    right : 1 * (2 ^ n - 1) ≡ 2 ^ n - 1
    right = omega arith
bit_and-mask zero n q (suc f) h b = absurd (omega arith)
bit_and-mask (suc k) n q f h b = omega (
  arith,
  and_halves (2 ^ suc k * q + f) (2 ^ suc k * (2 ^ n - 1)),
  ap (λ t. bit_and t (2 ^ suc k * (2 ^ n - 1) / 2)) (half k q f),
  ap (bit_and (2 ^ k * q + f / 2)) (half_zero k (2 ^ n - 1)),
  bit_and-mask k n q (f / 2) (omega (arith, pow-suc 2 k)) b,
  doubled k q,
  doubled k (2 ^ n - 1),
)
