-- ===== src/RwLock.antt =====
-- The readers-writers lock of src/threads/synch.c. Its counters are read and written under the guard
-- lock only, so that what a thread does between taking the guard and giving it up, or waiting for a
-- condition, is one step here; a thread that waits checks again when it has been woken.
mod Tests
use qba.Prelude.{
  ℕ, zero, suc, ◌+◌, ◌-◌, ◌≤◌, ◌<◌, ◌≡◌, refl, Bool, true, false, ltb, ◌==◌, ◌&&◌, if◌then◌else◌,
  arith, Bool-cases, inl, inr,
}

-- `struct rw_lock`, without the guard and the conditions.
pub record RwLock : Type 0 where
  pub ar : ℕ
  pub wr : ℕ
  pub aw : ℕ
  pub ww : ℕ

unfoldable pub rw_lock_init : RwLock
rw_lock_init = record { ar = 0; wr = 0; aw = 0; ww = 0 }

-- One check of the loops of `rw_lock_acquire`: whether the thread gets the lock, or counts as waiting.
unfoldable pub rw_lock_check : Bool → RwLock → Bool × RwLock
rw_lock_check true l =
    if ltb 0 (l.aw + l.ww)
    then (false, record l { wr = l.wr + 1 })
    else (true, record l { ar = l.ar + 1 })
rw_lock_check false l =
    if ltb 0 (l.ar + l.aw)
    then (false, record l { ww = l.ww + 1 })
    else (true, record l { aw = l.aw + 1 })

-- What a thread does once it has been woken.
unfoldable pub rw_lock_woken : Bool → RwLock → Bool × RwLock
unfolding rw_lock_check
rw_lock_woken true l = rw_lock_check true (record l { wr = l.wr - 1 })
rw_lock_woken false l = rw_lock_check false (record l { ww = l.ww - 1 })

-- Whom a release wakes.
pub data Wakes : Type 0 where
  nobody : Wakes
  a_writer : Wakes
  all_readers : Wakes

unfoldable pub rw_lock_release : Bool → RwLock → Wakes × RwLock
rw_lock_release true l =
    let l' = record l { ar = l.ar - 1 } in
    if (l'.ar == 0) && ltb 0 l'.ww then (a_writer, l') else (nobody, l')
rw_lock_release false l =
    let l' = record l { aw = l.aw - 1 } in
    if ltb 0 l'.ww then (a_writer, l') else if ltb 0 l'.wr then (all_readers, l') else (nobody, l')

abbrev pub waiting : Bool → RwLock → ℕ
waiting true l = l.wr
waiting false l = l.ww

abbrev pub active : Bool → RwLock → ℕ
active true l = l.ar
active false l = l.aw

-- The steps of all threads: one arrives, one that waits is woken, or one that has the lock leaves.
pub data RwStep : RwLock → RwLock → Type 0 where
  arrives : (reader : Bool) (l : RwLock) → RwStep l (rw_lock_check reader l).1
  wakes : (reader : Bool) (l : RwLock) → 0 < waiting reader l → RwStep l (rw_lock_woken reader l).1
  leaves :
      (reader : Bool) (l : RwLock) → 0 < active reader l → RwStep l (rw_lock_release reader l).1

pub data RwReach : RwLock → Type 0 where
  fresh : RwReach rw_lock_init
  next : {l l' : RwLock} → RwReach l → RwStep l l' → RwReach l'

-- At most one writer, and no readers beside it.
abbrev pub OneWriter : RwLock → Type 0
OneWriter l = (l.aw ≤ 1) × (0 < l.aw → l.ar ≡ 0)

check-OneWriter : (reader : Bool) (l : RwLock) → OneWriter l → OneWriter (rw_lock_check reader l).1
unfolding rw_lock_check
check-OneWriter true l (a, b) = (ground (arith, b), λ p. ground (arith, b))
check-OneWriter false l (a, b) = (ground (arith, b), λ p. ground (arith, b))

woken-OneWriter : (reader : Bool) (l : RwLock) → OneWriter l → OneWriter (rw_lock_woken reader l).1
unfolding rw_lock_woken
woken-OneWriter true l v = check-OneWriter true (record l { wr = l.wr - 1 }) v
woken-OneWriter false l v = check-OneWriter false (record l { ww = l.ww - 1 }) v

release-OneWriter :
    (reader : Bool) (l : RwLock) → OneWriter l → OneWriter (rw_lock_release reader l).1
unfolding rw_lock_release
release-OneWriter true l (a, b) = (ground (arith, b), λ p. ground (arith, b))
release-OneWriter false l (a, b) = (ground (arith, b), λ p. ground (arith, b))

-- From a fresh lock on, in whatever order threads arrive, are woken and leave, there is at most one
-- active writer, and while there is one there are no active readers.
pub rw_lock_exclusion : {l : RwLock} → RwReach l → OneWriter l
unfolding rw_lock_init
rw_lock_exclusion fresh = (omega arith, λ p. refl)
rw_lock_exclusion (next r (arrives reader l)) = check-OneWriter reader l (rw_lock_exclusion r)
rw_lock_exclusion (next r (wakes reader l h)) = woken-OneWriter reader l (rw_lock_exclusion r)
rw_lock_exclusion (next r (leaves reader l h)) = release-OneWriter reader l (rw_lock_exclusion r)
