-- ===== src/Threads/Order.antt =====
-- `list_insert_ordered`, `list_remove` and the order of the thread and lock queues, with lists as
-- sequences of addresses.
use qba.Prelude.{
  ℕ, ◌≤◌, ◌≡◌, ◌≢◌, refl, Bool, true, false, ◌||◌, arith, List, [], ◌∷◌, ◌==◌, if◌then◌else◌,
  Bool-cases, inl, inr, fun_ext,
}

-- `list_insert_ordered`: before the first element that `less` puts after the new one.
unfoldable pub insert_ordered : (ℕ → ℕ → Bool) → ℕ → List ℕ → List ℕ
insert_ordered less x [] = x ∷ []
insert_ordered less x (y ∷ ys) = if less x y then x ∷ y ∷ ys else y ∷ insert_ordered less x ys

-- `list_remove` of an element from the list that it is in.
unfoldable pub remove : ℕ → List ℕ → List ℕ
remove x [] = []
remove x (y ∷ ys) = if x == y then ys else y ∷ remove x ys

unfoldable pub mem : ℕ → List ℕ → Bool
mem x [] = false
mem x (y ∷ ys) = x == y || mem x ys

-- Every element of the list is at most `n` by the measure.
abbrev pub AtMost : (ℕ → ℕ) → ℕ → List ℕ → Type 0
AtMost f n [] = Unit {0}
AtMost f n (y ∷ ys) = (f y ≤ n) × AtMost f n ys

-- The measure falls along the list, and no element comes twice.
abbrev pub Falls : (ℕ → ℕ) → List ℕ → Type 0
Falls f [] = Unit {0}
Falls f (y ∷ ys) = AtMost f (f y) ys × (mem y ys ≡ false) × Falls f ys

pub AtMost-mono : (f : ℕ → ℕ) {m n : ℕ} (xs : List ℕ) → m ≤ n → AtMost f m xs → AtMost f n xs
AtMost-mono f [] h a = tt
AtMost-mono f (x ∷ xs) h a = (omega arith, AtMost-mono f xs h a.1)

AtMost-insert :
    (f : ℕ → ℕ) (less : ℕ → ℕ → Bool) (n x : ℕ) (xs : List ℕ)
    → f x ≤ n
    → AtMost f n xs
    → AtMost f n (insert_ordered less x xs)
unfolding insert_ordered
AtMost-insert f less n x [] h a = (h, tt)
AtMost-insert f less n x (y ∷ ys) h a = ground (arith, AtMost-insert f less n x ys h a.1)

pub mem-insert :
    (less : ℕ → ℕ → Bool) (x z : ℕ) (xs : List ℕ)
    → mem z (insert_ordered less x xs) ≡ (z == x || mem z xs)
unfolding insert_ordered mem
mem-insert less x z [] = refl
mem-insert less x z (y ∷ ys) = ground (arith, mem-insert less x z ys)

-- What the two orders of the code have in common: an element is put before one that is at most as
-- large, and after one that is at least as large.
pub record Ranks (less : ℕ → ℕ → Bool) (f : ℕ → ℕ) : Type 0 where
  pub before : (x y : ℕ) → less x y ≡ true → f y ≤ f x
  pub after : (x y : ℕ) → less x y ≡ false → f x ≤ f y

pub Falls-insert :
    {less : ℕ → ℕ → Bool} {f : ℕ → ℕ} (r : Ranks less f) (x : ℕ) (xs : List ℕ)
    → mem x xs ≡ false
    → Falls f xs
    → Falls f (insert_ordered less x xs)
unfolding insert_ordered mem
Falls-insert r x [] h s = (tt, refl, tt)
Falls-insert {less} {f} r x (y ∷ ys) h s = elim (Bool-cases (less x y)) [
  | inl e ↦ rw e ((r.before x y e, AtMost-mono f {m = f y} {n = f x} ys (r.before x y e) s.0), h, s)
  | inr e ↦ rw e (
    AtMost-insert f less (f y) x ys (r.after x y e) s.0,
    ground (arith, mem-insert less x y ys),
    Falls-insert r x ys (ground arith) s.2,
  )
]

AtMost-remove : (f : ℕ → ℕ) (n x : ℕ) (xs : List ℕ) → AtMost f n xs → AtMost f n (remove x xs)
unfolding remove
AtMost-remove f n x [] a = tt
AtMost-remove f n x (y ∷ ys) a = ground (arith, AtMost-remove f n x ys a.1)

-- Without the removed element, every other stays.
pub mem-remove :
    (f : ℕ → ℕ) (x z : ℕ) (xs : List ℕ)
    → Falls f xs
    → mem z (remove x xs) ≡ (if z == x then false else mem z xs)
unfolding remove mem
mem-remove f x z [] s = ground arith
mem-remove f x z (y ∷ ys) s = ground (arith, mem-remove f x z ys s.2)

pub Falls-remove : (f : ℕ → ℕ) (x : ℕ) (xs : List ℕ) → Falls f xs → Falls f (remove x xs)
unfolding remove mem
Falls-remove f x [] s = tt
Falls-remove f x (y ∷ ys) s = elim (Bool-cases (x == y)) [
  | inl e ↦ rw e s.2
  | inr e ↦ rw e (
    AtMost-remove f (f y) x ys s.0,
    ground (arith, mem-remove f x y ys s.2),
    Falls-remove f x ys s.2,
  )
]

AtMost-same :
    (f g : ℕ → ℕ) (m n x : ℕ) (xs : List ℕ)
    → ((y : ℕ) → x ≢ y → g y ≡ f y)
    → mem x xs ≡ false
    → m ≤ n
    → AtMost f m xs
    → AtMost g n xs
unfolding mem
AtMost-same f g m n x [] e h le a = tt
AtMost-same f g m n x (y ∷ ys) e h le a =
    (ground (arith, e y), AtMost-same f g m n x ys e (ground arith) le a.1)

-- The order does not depend on the measure of an element outside the list.
pub Falls-same :
    (f g : ℕ → ℕ) (x : ℕ) (xs : List ℕ)
    → ((y : ℕ) → x ≢ y → g y ≡ f y)
    → mem x xs ≡ false
    → Falls f xs
    → Falls g xs
unfolding mem
Falls-same f g x [] e h s = tt
Falls-same f g x (y ∷ ys) e h s = (
  AtMost-same f g (f y) (g y) x ys e (ground arith) (ground (arith, e y)) s.0,
  s.1,
  Falls-same f g x ys e (ground arith) s.2,
)

-- The front of a falling list is the largest.
pub AtMost-mem : (f : ℕ → ℕ) (n z : ℕ) (xs : List ℕ) → AtMost f n xs → mem z xs ≡ true → f z ≤ n
unfolding mem
AtMost-mem f n z [] a h = cc
AtMost-mem f n z (y ∷ ys) a h = ground (arith, AtMost-mem f n z ys a.1)

pub Falls-ext : (f g : ℕ → ℕ) (xs : List ℕ) → ((y : ℕ) → g y ≡ f y) → Falls f xs → Falls g xs
Falls-ext f g xs e s = rw (fun_ext e) s
