-- ===== src/Prelude/Maps.antt =====
-- Memory as functions from addresses: a write at one address, and who is counted below a bound.
use Prim.Native.Nat.{ℕ, zero, suc, ◌+◌, ◌≤◌, ◌<◌}
use mathlib.Core.Path.{◌≡◌, refl}
use mathlib.Core.Bool.{Bool, true, false}
use mathlib.Core.Logic.{◌≢◌}
use native.Mathlib.Omega.{arith}
use qba.Prelude.Tests.{◌==◌, if◌then◌else◌}

module _ {ℓ} {A : Type ℓ} where
  abbrev pub update : (ℕ → A) → ℕ → A → ℕ → A
  update f p v q = if p == q then v else f q

-- How many of the addresses below `n` pass a test.
pub count_below : (ℕ → Bool) → ℕ → ℕ
count_below p zero = 0
count_below p (suc n) = count_below p n + (if p n then 1 else 0)

pub count_below-le : (p : ℕ → Bool) (n : ℕ) → count_below p n ≤ n
unfolding count_below
count_below-le p zero = omega arith
count_below-le p (suc n) = ground (arith, count_below-le p n)

-- One address leaves the set, and none enters.
pub count_below-drop :
    (p q : ℕ → Bool) (i n : ℕ)
    → ((j : ℕ) → i ≢ j → q j ≡ p j)
    → p i ≡ true
    → q i ≡ false
    → i < n
    → count_below p n ≡ suc (count_below q n)
unfolding count_below
count_below-drop p q i zero same on off h = absurd (omega arith)
count_below-drop p q i (suc n) same on off h =
    ground (arith, same n, count_below-drop p q i n same on off, count_below-same p q i n same)
  where
    count_below-same :
        (p q : ℕ → Bool) (i n : ℕ)
        → ((j : ℕ) → i ≢ j → q j ≡ p j)
        → n ≤ i
        → count_below q n ≡ count_below p n
    count_below-same p q i zero same h = refl
    count_below-same p q i (suc n) same h = ground (arith, same n, count_below-same p q i n same)
