-- ===== src/UserLock.antt =====
-- The locks and semaphores of user code: the handlers of src/userprog/syscall.c, on the tables of
-- src/userprog/process.h and the locks and semaphores of the kernel. A table maps a user address to
-- the address of a kernel lock or semaphore; its readers-writers lock makes each walk one step. What
-- `malloc` answers is an argument.
pub mod Law
use qba.Prelude.{
  ℕ, Bool, true, false, Option, none, some, List, [], ◌∷◌, leb, ◌==◌, not, if◌then◌else◌,
}
use qba.Prelude.Outcome.{Outcome, ok, ◌>>=◌}
use qba.Threads.Types.{Frame, Kernel}
use qba.Threads.Sync.{
  lock_init, lock_acquire, lock_release, lock_held_by_current_thread, sema_init, sema_down, sema_up,
}

-- `struct registered_lock` and `struct registered_sema`: the identifier of the user, and the address
-- of the lock or semaphore.
pub record Registered : Type 0 where
  pub id : ℕ
  pub object : ℕ

-- The walk of the table.
unfoldable pub find_registered : ℕ → List Registered → Option ℕ
find_registered id [] = none
find_registered id (r ∷ rs) =
    let rest = find_registered id rs in if r.id == id then some r.object else rest

-- What both `init` handlers do with the table; `none` where they answer false.
unfoldable pub register : Option ℕ → ℕ → List Registered → Option (ℕ × List Registered)
unfolding find_registered
register room id tab = elim (find_registered id tab) [
  | some object ↦ none
  | none ↦ elim room [
    | none ↦ none
    | some object ↦ some (object, record { id = id; object = object } ∷ tab)
  ]
]

-- The answer, the table and the kernel.
abbrev pub Answer : Type 0
Answer = Bool × List Registered × Kernel

abbrev locked : List Registered → Kernel → Option (ℕ × List Registered) → Answer
locked tab k none = (false, tab, k)
locked tab k (some (object, tab')) = (true, tab', lock_init object k)

unfoldable pub handler_lock_init : Option ℕ → ℕ → List Registered → Kernel → Answer
unfolding register lock_init
handler_lock_init room id tab k = locked tab k (register room id tab)

abbrev acquired : Kernel → Option ℕ → Outcome (Bool × Kernel)
acquired k none = ok (false, k)
acquired k (some object) =
    let taken = (do k' ← lock_acquire object k; ok (true, k')) in
    if lock_held_by_current_thread object k then ok (false, k) else taken

unfoldable pub handler_lock_acquire : ℕ → List Registered → Kernel → Outcome (Bool × Kernel)
unfolding find_registered lock_acquire lock_held_by_current_thread
handler_lock_acquire id tab k = acquired k (find_registered id tab)

-- `frame` is where the thread goes on.
abbrev released : Frame → Kernel → Option ℕ → Outcome (Bool × Kernel)
released frame k none = ok (false, k)
released frame k (some object) =
    let given = (do k' ← lock_release object frame k; ok (true, k')) in
    if not (lock_held_by_current_thread object k) then ok (false, k) else given

unfoldable pub handler_lock_release : Frame → ℕ → List Registered → Kernel → Outcome (Bool × Kernel)
unfolding find_registered lock_release lock_held_by_current_thread
handler_lock_release frame id tab k = released frame k (find_registered id tab)

abbrev counted : ℕ → List Registered → Kernel → Option (ℕ × List Registered) → Answer
counted val tab k none = (false, tab, k)
counted val tab k (some (object, tab')) = (true, tab', sema_init object val k)

-- `val` is the bit pattern of an `int`.
unfoldable pub handler_sema_init : Option ℕ → ℕ → ℕ → List Registered → Kernel → Answer
unfolding register sema_init
handler_sema_init room id val tab k =
    if leb 2147483648 val then (false, tab, k) else counted val tab k (register room id tab)

abbrev downed : Kernel → Option ℕ → Outcome (Bool × Kernel)
downed k none = ok (false, k)
downed k (some object) = do k' ← sema_down object k; ok (true, k')

unfoldable pub handler_sema_down : ℕ → List Registered → Kernel → Outcome (Bool × Kernel)
unfolding find_registered sema_down
handler_sema_down id tab k = downed k (find_registered id tab)

abbrev upped : Kernel → Option ℕ → Outcome (Bool × Kernel)
upped k none = ok (false, k)
upped k (some object) = do k' ← sema_up object k; ok (true, k')

unfoldable pub handler_sema_up : ℕ → List Registered → Kernel → Outcome (Bool × Kernel)
unfolding find_registered sema_up
handler_sema_up id tab k = upped k (find_registered id tab)
