-- ===== src/UserLock/Law.antt =====
-- Registration, and locks that user code acquires and releases.
use qba.Prelude.{
  ℕ, ◌≡◌, ◌≢◌, refl, Bool, true, false, Option, none, some, List, ◌∷◌, arith, ◌⊎◌, inl, inr,
  Option-cases, Bool-cases,
}
use qba.Prelude.Outcome.{Outcome, ok, ◌>>=◌}
use qba.Threads.Types.{Frame, Kernel}
use qba.Threads.Sync.{lock_init, lock_acquire, lock_release, lock_held_by_current_thread}
use qba.UserLock.{
  Registered, find_registered, register, handler_lock_init, handler_lock_acquire,
  handler_lock_release,
}

-- The other identifiers stand for what they stood for.
abbrev pub SameElsewhere : ℕ → List Registered → List Registered → Type 0
SameElsewhere id tab tab' =
    (other : ℕ) → other ≢ id → find_registered other tab' ≡ find_registered other tab

-- An identifier that is not registered yet gets the lock that the memory is found for: it stands for
-- that lock from then on, no other identifier changes, and a second registration of it fails and
-- changes nothing, whatever memory there is.
pub handler_lock_init_lem :
    (object id : ℕ) (room : Option ℕ) (tab : List Registered) (k k' : Kernel)
    → find_registered id tab ≡ none
    → (tab' : List Registered) × (handler_lock_init (some object) id tab k
        ≡ (true, tab', lock_init object k))
      × (find_registered id tab' ≡ some object)
      × SameElsewhere id tab tab'
      × (handler_lock_init room id tab' k' ≡ (false, tab', k'))
unfolding handler_lock_init register find_registered
handler_lock_init_lem object id room tab k k' e = (
  record { id = id; object = object } ∷ tab,
  rw (register, e) refl,
  again,
  λ other ne. ground (arith, ne),
  rw (register, again) refl,
)
  where
    again : find_registered id (record { id = id; object = object } ∷ tab) ≡ some object
    again = ground arith

abbrev pub locks : ℕ → Kernel → Outcome (Bool × Kernel)
locks object k = do k' ← lock_acquire object k; ok (true, k')

abbrev pub unlocks : Frame → ℕ → Kernel → Outcome (Bool × Kernel)
unlocks frame object k = do k' ← lock_release object frame k; ok (true, k')

-- `lock_acquire` is called only on a registered lock that the thread does not hold, and `lock_release`
-- only on one that it holds; in every other case the handlers answer false and change nothing.
pub handler_lock_lem :
    (frame : Frame) (id : ℕ) (tab : List Registered) (k : Kernel)
    → ((handler_lock_acquire id tab k ≡ ok (false, k))
        ⊎ ((object : ℕ) × (find_registered id tab ≡ some object)
            × (lock_held_by_current_thread object k ≡ false)
            × (handler_lock_acquire id tab k ≡ locks object k)))
      × ((handler_lock_release frame id tab k ≡ ok (false, k))
          ⊎ ((object : ℕ) × (find_registered id tab ≡ some object)
              × (lock_held_by_current_thread object k ≡ true)
              × (handler_lock_release frame id tab k ≡ unlocks frame object k)))
unfolding handler_lock_acquire handler_lock_release
handler_lock_lem frame id tab k = elim (Option-cases (find_registered id tab)) [
  | inl e ↦ (inl (rw e refl), inl (rw e refl))
  | inr (object, e) ↦ elim (Bool-cases (lock_held_by_current_thread object k)) [
    | inl h ↦ (inl (rw (e, h) refl), inr (object, e, h, rw (e, h) refl))
    | inr h ↦ (inr (object, e, h, rw (e, h) refl), inl (rw (e, h) refl))
  ]
]
