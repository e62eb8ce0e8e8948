-- ===== src/Prelude/Outcome.antt =====
-- What a kernel function leaves: its result, the halt of the machine by `ASSERT` or `PANIC`
-- (src/lib/debug.h, src/lib/kernel/debug.c), or behaviour that the code leaves undefined, such as
-- the removal of an element from a list that it is not in.
use mathlib.Core.Path.{◌≡◌, refl, subst}
use mathlib.Core.Bool.{Bool, true, false}

pub data Outcome {ℓ} (A : Type ℓ) : Type ℓ where
  ok : A → Outcome A
  panic : Outcome A
  undefined : Outcome A

infixl 5 ◌>>=◌ ◌>>◌
abbrev pub ◌>>=◌ {ℓ κ} : {A : Type ℓ} {B : Type κ} → Outcome A → (A → Outcome B) → Outcome B
ok a >>= f = f a
panic >>= f = panic
undefined >>= f = undefined

abbrev pub ◌>>◌ {ℓ} : {B : Type ℓ} → Outcome (Unit {0}) → Outcome B → Outcome B
m >> k = m >>= λ _. k

-- `ASSERT (condition)`.
abbrev pub assert : Bool → Outcome (Unit {0})
assert true = ok tt
assert false = panic

-- Every result that is left meets `P`.
pub data Ensures {ℓ κ} {A : Type ℓ} (P : A → Type κ) : Outcome A → Type (ℓ ⊔ κ) where
  returns : (a : A) → P a → Ensures P (ok a)
  halts : Ensures P panic
  strays : Ensures P undefined

pub Ensures-bind {ℓ κ μ ν} :
    {A : Type ℓ} {B : Type κ} (P : A → Type μ) {Q : B → Type ν} {m : Outcome A} {f : A → Outcome B}
    → Ensures P m
    → ((a : A) → P a → Ensures Q (f a))
    → Ensures Q (m >>= f)
Ensures-bind P (returns a p) h = h a p
Ensures-bind P halts h = halts
Ensures-bind P strays h = strays

pub Ensures-map {ℓ μ ν} :
    {A : Type ℓ} {P : A → Type μ} {Q : A → Type ν} {m : Outcome A}
    → Ensures P m
    → ((a : A) → P a → Q a)
    → Ensures Q m
Ensures-map (returns a p) h = returns a (h a p)
Ensures-map halts h = halts
Ensures-map strays h = strays

pub Ensures-assert {ℓ κ} :
    {A : Type ℓ} {Q : A → Type κ} (b : Bool) (f : Unit {0} → Outcome A)
    → (b ≡ true → Ensures Q (f tt))
    → Ensures Q (assert b >>= f)
Ensures-assert true f h = h refl
Ensures-assert false f h = halts

pub ok-injective {ℓ} : {A : Type ℓ} {a b : A} → ok a ≡ ok b → a ≡ b
ok-injective e = cc

-- What is ensured holds of a result that is known.
pub Ensures-ok {ℓ κ} :
    {A : Type ℓ} {P : A → Type κ} {a : A} {m : Outcome A} → Ensures P m → m ≡ ok a → P a
Ensures-ok {P} (returns a p) e = subst P (ok-injective e) p
Ensures-ok halts e = cc
Ensures-ok strays e = cc
