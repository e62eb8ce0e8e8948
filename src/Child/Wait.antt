-- ===== src/Child/Wait.antt =====
-- `process_wait` on the whole list of children.
use qba.Prelude.{
  ℕ, ◌<◌, ◌≡◌, ◌≢◌, refl, true, false, Option, none, some, List, [], ◌∷◌, ◌++◌, ◌==◌, arith,
}
use qba.Prelude.Outcome.{ok}
use qba.Child.{ChildProcess, minus_one, free_child_self, waited, wait_for, process_wait}

-- Every element of the list lives and has another pid.
abbrev pub Without : ℕ → List (Option ChildProcess) → Type 0
Without pid [] = Unit {0}
Without pid (none ∷ cs) = ⊥
Without pid (some e ∷ cs) = (e.pid ≢ pid) × Without pid cs

other : (e : ChildProcess) (pid : ℕ) → e.pid ≢ pid → (e.pid == pid) ≡ false
other e pid ne = ground arith

process_wait_absent :
    (pid : ℕ) (cs : List (Option ChildProcess))
    → Without pid cs
    → process_wait pid cs ≡ ok (waited minus_one cs)
unfolding process_wait
process_wait_absent pid [] w = refl
process_wait_absent pid (none ∷ cs) w = absurd w
process_wait_absent pid (some e ∷ cs) (ne, w) =
    rw (other e pid ne, process_wait_absent pid cs w) refl

Without-append :
    (pid : ℕ) (xs ys : List (Option ChildProcess))
    → Without pid xs
    → Without pid ys
    → Without pid (xs ++ ys)
Without-append pid [] ys a b = b
Without-append pid (none ∷ xs) ys a b = absurd a
Without-append pid (some e ∷ xs) ys (ne, a) b = (ne, Without-append pid xs ys a b)

process_wait_found :
    (e : ChildProcess) (before after : List (Option ChildProcess))
    → Without e.pid before
    → e.exited ≡ true
    → 0 < e.waiting
    → process_wait e.pid (before ++ some e ∷ after) ≡ ok (waited e.exited_code (before ++ after))
unfolding process_wait wait_for free_child_self
process_wait_found e [] after w x h = rw (same e.pid, up e.waiting h, x) refl
  where
    same : (n : ℕ) → (n == n) ≡ true
    same n = ground arith

    up : (n : ℕ) → 0 < n → (n == 0) ≡ false
    up n h = ground arith
process_wait_found e (none ∷ before) after w x h = absurd w
process_wait_found e (some o ∷ before) after (ne, w) x h =
    rw (other o e.pid ne, process_wait_found e before after w x h) refl

-- A wait for a child that has exited, where no other child has its pid, answers its status without
-- blocking and takes its element, and no other, out of the list; a second wait for the same pid
-- answers -1 and changes nothing.
pub process_wait_lem :
    (e : ChildProcess) (before after : List (Option ChildProcess))
    → Without e.pid before
    → Without e.pid after
    → e.exited ≡ true
    → 0 < e.waiting
    → (process_wait e.pid (before ++ some e ∷ after) ≡ ok (waited e.exited_code (before ++ after)))
      × (process_wait e.pid (before ++ after) ≡ ok (waited minus_one (before ++ after)))
process_wait_lem e before after b a x h = (
  process_wait_found e before after b x h,
  process_wait_absent e.pid (before ++ after) (Without-append e.pid before after b a),
)
