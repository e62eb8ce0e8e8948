-- ===== src/Child/Exec.antt =====
-- `process_execute`, the end of `start_process` and `handler_exec`.
use qba.Prelude.{ℕ, ◌≡◌, refl, Bool, true, false, ◌&&◌, Option, none, some, List, ◌∷◌, ◌==◌, arith}
use qba.Prelude.Outcome.{ok, undefined}
use qba.Child.{
  ChildProcess, minus_one, Start, no_pcb, load_failed, started, new_child, free_parent_self,
  editing_up, leave_child, blocks, wait_for, process_wait, process_execute, start_process,
  exec_found,
}

-- What the parent sees of a child that started so: `handler_exec` answers the pid unless `load`
-- failed. A child without a PCB counts as started, and a wait for it blocks.
abbrev pub Sees : ℕ → List (Option ChildProcess) → Start → ChildProcess → Type 0
Sees tid cs no_pcb e =
    (exec_found tid (some e ∷ cs) ≡ ok (some (tid, some e ∷ cs)))
    × (process_wait tid (some e ∷ cs) ≡ ok blocks)
Sees tid cs load_failed e = exec_found tid (some e ∷ cs) ≡ ok (some (minus_one, cs))
Sees tid cs (started pcb) e =
    (exec_found tid (some e ∷ cs) ≡ ok (some (tid, some e ∷ cs))) × (e.child ≡ some pcb)

same : (n : ℕ) → (n == n) ≡ true
same n = ground arith

-- `handler_exec` blocks until the child has started, and answers -1 if `load` failed, where it takes
-- the element out of the list, and the child's tid otherwise. A child whose PCB could not be
-- allocated has its tid answered too, and a `process_wait` for it blocks.
pub exec_found_lem :
    (start : Start) (tid : ℕ) (cs : List (Option ChildProcess))
    → (exec_found tid (some (new_child tid) ∷ cs) ≡ ok none)
      × (e : ChildProcess) × (start_process start tid (new_child tid) ≡ ok (some e))
      × Sees tid cs start e
unfolding start_process free_parent_self editing_up exec_found process_wait wait_for
exec_found_lem no_pcb tid cs = (
  rw (same tid) refl,
  record (new_child tid) { editing = 1 },
  refl,
  (rw (same tid) refl, rw (same tid) refl),
)
exec_found_lem load_failed tid cs = (
  rw (same tid) refl,
  record (new_child tid) { editing = 1; exited_code = minus_one; waiting = 1 },
  refl,
  rw (same tid) refl,
)
exec_found_lem (started pcb) tid cs = (
  rw (same tid) refl,
  record (new_child tid) { editing = 1; child = some pcb },
  refl,
  (rw (same tid) refl, refl),
)

-- What `process_execute` leaves if there was memory for the element: whether the two allocations that
-- follow were answered, and what `thread_create` answered.
abbrev pub Leaves :
    List (Option ChildProcess) → Bool → Option ℕ → ℕ × List (Option ChildProcess) → Type 0
Leaves cs false tid r =
    (r.0 ≡ minus_one) × ((child_pid : ℕ) → process_wait child_pid r.1 ≡ undefined)
Leaves cs true none r =
    (r ≡ (minus_one, some (new_child minus_one) ∷ cs))
    × (process_wait minus_one r.1 ≡ ok blocks)
    × (leave_child (new_child minus_one) ≡ ok none)
Leaves cs true (some tid) r =
    (r ≡ (tid, some (new_child tid) ∷ cs)) × (process_wait tid r.1 ≡ ok blocks)

-- Once `process_execute` has memory for the element of the child: if an allocation after it fails, the
-- answer is -1 and the freed element is first in the list, so that a wait for any process is
-- undefined; if `thread_create` fails, the answer is -1 and the element stays with the pid -1, so that
-- a wait for -1 and the exit of the parent both block; otherwise the answer is the tid, and a wait for
-- it blocks until the child exits.
pub process_execute_lem :
    (editing init_pcb : Bool) (tid : Option ℕ) (cs : List (Option ChildProcess))
    → Leaves cs (editing && init_pcb) tid (
        process_execute
          (record { page = true; elem = true; editing = editing; init_pcb = init_pcb; tid = tid })
          cs)
unfolding process_execute process_wait wait_for leave_child
process_execute_lem true true none cs = (refl, refl, refl)
process_execute_lem true true (some tid) cs = (refl, rw (same tid) refl)
process_execute_lem true false tid cs = (refl, λ child_pid. refl)
process_execute_lem false init_pcb tid cs = (refl, λ child_pid. refl)
