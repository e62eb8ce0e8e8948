-- ===== src/Child.antt =====
-- Parent and child processes: `struct child_process` of src/userprog/process.h, `free_parent_self`,
-- `free_child_self` and the parts of `process_exit_tail` that call them (process_exit.c),
-- `process_execute`, `process_wait` and the end of `start_process` (process_create.c), and
-- `handler_exec` (syscall.c). Memory that has been freed is `none`, and what follows from a use of it
-- is undefined. A semaphore is its value; a `sema_down` at 0 blocks.
pub mod Protocol
pub mod Wait
pub mod Exec
mod Tests
use qba.Prelude.{
  ℕ, zero, suc, ◌+◌, ◌-◌, Bool, true, false, not, ◌&&◌, Option, none, some, List, [], ◌∷◌, ◌==◌,
  if◌then◌else◌,
}
pub use qba.Prelude.{minus_one}
use qba.Prelude.Outcome.{Outcome, ok, panic, undefined, ◌>>=◌, ◌>>◌}

-- `struct child_process`. `editing` is the semaphore that its field of that name points to, which is
-- freed together with the element, and `child` the address of the child's `struct process`.
pub record ChildProcess : Type 0 where
  pub pid : ℕ
  pub exited_code : ℕ
  pub editing : ℕ
  pub waiting : ℕ
  pub child : Option ℕ
  pub exited : Bool

-- The bit pattern of -2.
abbrev pub minus_two : ℕ
minus_two = 4294967294

unfoldable pub free_parent_self : ChildProcess → ℕ → Option ChildProcess
free_parent_self self exit_code =
    if self.exited
    then none
    else some (record self {
      exited = true;
      exited_code = exit_code;
      child = none;
      waiting = self.waiting + 1;
    })

abbrev free_child_of : ChildProcess → Option ℕ → Outcome (Option ChildProcess)
free_child_of child none = undefined
free_child_of child (some p) =
    ok (some (record child { exited = true; waiting = child.waiting + 1 }))

-- The write to the child's `parent` is one through its `child`; nothing reads that field.
unfoldable pub free_child_self : ChildProcess → Outcome (Option ChildProcess)
free_child_self child = if child.exited then ok none else free_child_of child child.child

-- `sema_up (editing)` after the element may have been freed.
unfoldable pub editing_up : Option ChildProcess → Outcome (Option ChildProcess)
editing_up none = undefined
editing_up (some e) = ok (some (record e { editing = e.editing + 1 }))

-- The child's part of `process_exit_tail`, from `sema_down (editing)`, which blocks at 0 (the outer
-- `none`), to `sema_up (editing)`.
unfoldable pub leave_parent : ChildProcess → ℕ → Outcome (Option (Option ChildProcess))
unfolding free_parent_self editing_up
leave_parent self exit_code =
    let left = (do
      e ← editing_up (free_parent_self (record self { editing = self.editing - 1 }) exit_code)
      ok (some e)) in
    if self.editing == 0 then ok none else left

-- The parent's part, for one element of `children`. No step of the child comes
-- between the `sema_try_down` and the `sema_down` here.
unfoldable pub leave_child : ChildProcess → Outcome (Option (Option ChildProcess))
unfolding free_child_self editing_up
leave_child child =
    let edits = (do
      e ← free_child_self (record child { editing = child.editing - 1 })
      e' ← editing_up e
      ok (some e')) in
    let blocks_or_edits = if child.editing == 0 then ok none else edits in
    let has_exited = (do
      e ← free_child_self (record child { waiting = child.waiting - 1 })
      ok (some e)) in
    if child.waiting == 0 then blocks_or_edits else has_exited

-- What `process_wait` does: it blocks, or gives the status and leaves the list.
pub data Waiting : Type 0 where
  blocks : Waiting
  waited : (result : ℕ) → List (Option ChildProcess) → Waiting

abbrev keep : Option ChildProcess → Waiting → Waiting
keep e blocks = blocks
keep e (waited result rest) = waited result (e ∷ rest)

-- `sema_down (waiting)` and what follows it. What is left of the element, which is not in the list any
-- more, is not shown.
unfoldable pub wait_for : ChildProcess → List (Option ChildProcess) → Outcome Waiting
unfolding free_child_self
wait_for e rest =
    let taken = (do
      left ← free_child_self (record e { waiting = e.waiting - 1 })
      ok (waited e.exited_code rest)) in
    if e.waiting == 0 then ok blocks else taken

unfoldable pub process_wait : ℕ → List (Option ChildProcess) → Outcome Waiting
unfolding wait_for
process_wait child_pid [] = ok (waited minus_one [])
process_wait child_pid (none ∷ cs) = undefined
process_wait child_pid (some e ∷ cs) =
    let found = wait_for e cs in
    let later = (do r ← process_wait child_pid cs; ok (keep (some e) r)) in
    if e.pid == child_pid then found else later

-- What the allocations of `process_execute` answer, in their order: `palloc_get_page`, three calls of
-- `malloc`, and `thread_create`, where `none` is `TID_ERROR`.
pub record Answers : Type 0 where
  pub page : Bool
  pub elem : Bool
  pub editing : Bool
  pub init_pcb : Bool
  pub tid : Option ℕ

-- `or_error tid` is the result of `process_execute`.
abbrev pub or_error : Option ℕ → ℕ
or_error none = minus_one
or_error (some tid) = tid

-- A new element of `children`, as `process_execute` leaves it to `start_process`.
abbrev pub new_child : ℕ → ChildProcess
new_child pid = record {
  pid = pid;
  exited_code = minus_two;
  editing = 0;
  waiting = 0;
  child = none;
  exited = false;
}

-- The result, and the list. An element is put in the list before its semaphore is allocated, and is
-- not taken out where it is freed. The copies of the command line are left out.
unfoldable pub process_execute :
    Answers → List (Option ChildProcess) → ℕ × List (Option ChildProcess)
process_execute a children =
    if not (a.page && a.elem)
    then (minus_one, children)
    else if not (a.editing && a.init_pcb)
    then (minus_one, none ∷ children)
    else (or_error a.tid, some (new_child (or_error a.tid)) ∷ children)

-- How `start_process` ends: `malloc` gave no PCB, `load` failed, or all went well, where `pcb` is the
-- address of the PCB.
pub data Start : Type 0 where
  no_pcb : Start
  load_failed : Start
  started : (pcb : ℕ) → Start

abbrev unexited : Option ChildProcess → Option ChildProcess
unexited none = none
unexited (some e) = some (record e { exited = false })

-- The element after `start_process`; `tid` is the child's. After a failed `load` it is written after
-- `free_parent_self`.
unfoldable pub start_process : Start → ℕ → ChildProcess → Outcome (Option ChildProcess)
unfolding free_parent_self editing_up
start_process no_pcb tid self = editing_up (some (record self { exited = false }))
start_process load_failed tid self = editing_up (unexited (free_parent_self self minus_one))
start_process (started pcb) tid self =
    editing_up (some (record self { pid = tid; child = some pcb; exited = false }))

abbrev kept :
    Option ChildProcess
    → Option (ℕ × List (Option ChildProcess))
    → Option (ℕ × List (Option ChildProcess))
kept e none = none
kept e (some (result, rest)) = some (result, e ∷ rest)

-- What `handler_exec` does with the list once the child has been created: `none` where it blocks.
unfoldable pub exec_found :
    ℕ → List (Option ChildProcess) → Outcome (Option (ℕ × List (Option ChildProcess)))
exec_found result [] = ok (some (result, []))
exec_found result (none ∷ cs) = undefined
exec_found result (some e ∷ cs) =
    let rest = exec_found result cs in
    let later = (do r ← rest; ok (kept (some e) r)) in
    let failed = not e.exited && (e.exited_code == minus_one) in
    let edited = if failed then some (minus_one, cs) else some (result, some e ∷ cs) in
    if e.pid == result then ok (if e.editing == 0 then none else edited) else later
