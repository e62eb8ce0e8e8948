-- ===== src/Child/Tests.antt =====
-- The theorems on parent and child at one parent with two children.
use qba.Prelude.{◌≡◌, refl, true, false, none, some, [], ◌∷◌, arith}
use qba.Prelude.Outcome.{ok, undefined}
use qba.Child.{
  ChildProcess, minus_one, new_child, started, start_process, editing_up, free_parent_self,
  leave_parent, leave_child, free_child_self, waited, process_wait,
}
use qba.Child.Protocol.{
  Reach, shares, parent_leaves, Owned, Reach-Owned, Delivers, process_wait-leave_parent,
  leave_parent_late,
}
use qba.Child.Wait.{process_wait_lem}

abbrev running : ChildProcess
running = record (new_child 5) { editing = 1; child = some 90 }

abbrev orphan : ChildProcess
orphan = record running { exited = true; waiting = 1 }

starts : start_process (started 90) 5 (new_child 5) ≡ ok (some running)
unfolding start_process editing_up
starts = refl

begins : Reach true true 0 (some running)
begins = shares 5 5 90 0 starts

leaves : leave_child running ≡ ok (some (some orphan))
unfolding leave_child free_child_self editing_up
leaves = refl

Reach-Owned_example : Owned false true 0 (some orphan)
Reach-Owned_example = Reach-Owned (parent_leaves begins leaves)

process_wait-leave_parent_example : Delivers 42 running (none ∷ [])
process_wait-leave_parent_example = process_wait-leave_parent 42 (none ∷ []) begins

leave_parent_late_example :
    (free_parent_self orphan 42 ≡ none) × (leave_parent orphan 42 ≡ undefined)
leave_parent_late_example = leave_parent_late 42 (parent_leaves begins leaves)

abbrev finished : ChildProcess
finished = record running { pid = 6; exited = true; waiting = 1; exited_code = 42; child = none }

process_wait_lem_example :
    (process_wait 6 (some running ∷ some finished ∷ []) ≡ ok (waited 42 (some running ∷ [])))
    × (process_wait 6 (some running ∷ []) ≡ ok (waited minus_one (some running ∷ [])))
process_wait_lem_example =
    process_wait_lem finished (some running ∷ []) [] ((λ e. omega (arith, e)), tt) tt refl
      (omega arith)
