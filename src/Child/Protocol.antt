-- ===== src/Child/Protocol.antt =====
-- One element that a parent and its child share, over every order in which the two leave it: each
-- enters with `editing` down, so that what it does there is one step.
use qba.Prelude.{
  ℕ, ◌+◌, ◌-◌, ◌<◌, ◌≡◌, refl, sym, subst, ◌∙◌, Bool, true, false, Option, none, some, List, ◌∷◌,
  ◌==◌, arith,
}
use qba.Prelude.Outcome.{ok, undefined, ok-injective}
use qba.Child.{
  ChildProcess, free_parent_self, free_child_self, editing_up, leave_parent, leave_child, new_child,
  started, start_process, waited, wait_for, process_wait,
}

-- Whether the parent and the child still have the element, the status that the child left, and the
-- element. The parent leaves it in `process_wait`, after `sema_down (waiting)`, or where it exits.
pub data Reach : Bool → Bool → ℕ → Option ChildProcess → Type 0 where
  shares :
      (pid tid pcb code : ℕ) {e : Option ChildProcess}
      → start_process (started pcb) tid (new_child pid) ≡ ok e
      → Reach true true code e
  child_leaves :
      {parent : Bool} {code : ℕ} {e : ChildProcess} (exit_code : ℕ)
      → Reach parent true code (some e)
      → Reach parent false exit_code (free_parent_self e exit_code)
  parent_waits :
      {child : Bool} {code : ℕ} {e : ChildProcess} {left : Option ChildProcess}
      → Reach true child code (some e)
      → 0 < e.waiting
      → free_child_self (record e { waiting = e.waiting - 1 }) ≡ ok left
      → Reach false child code left
  parent_leaves :
      {child : Bool} {code : ℕ} {e : ChildProcess} {left : Option ChildProcess}
      → Reach true child code (some e)
      → leave_child e ≡ ok (some left)
      → Reach false child code left

-- The element lives until both have left it. `exited` tells whether one has, `waiting` is up then, and
-- the status is the child's.
pub data Owned : Bool → Bool → ℕ → Option ChildProcess → Type 0 where
  both :
      {code : ℕ} {e : ChildProcess}
      → e.exited ≡ false
      → e.waiting ≡ 0
      → e.editing ≡ 1
      → (pcb : ℕ) → e.child ≡ some pcb
      → Owned true true code (some e)
  parent_only :
      {code : ℕ} {e : ChildProcess}
      → e.exited ≡ true
      → e.waiting ≡ 1
      → e.editing ≡ 1
      → e.exited_code ≡ code
      → Owned true false code (some e)
  child_only :
      {code : ℕ} {e : ChildProcess}
      → e.exited ≡ true
      → e.editing ≡ 1
      → Owned false true code (some e)
  neither : {code : ℕ} → Owned false false code none

pub free_exited : (e : ChildProcess) → e.exited ≡ true → free_child_self e ≡ ok none
unfolding free_child_self
free_exited e x = rw x refl

is_zero : (n : ℕ) → n ≡ 0 → (n == 0) ≡ true
is_zero n h = ground arith

one : (n : ℕ) → n ≡ 1 → (n == 0) ≡ false
one n h = ground arith

same : (n : ℕ) → (n == n) ≡ true
same n = ground arith

-- Where the parent leaves first, and where it leaves last.
leave_first :
    (e : ChildProcess) (pcb : ℕ)
    → e.exited ≡ false
    → e.waiting ≡ 0
    → e.editing ≡ 1
    → e.child ≡ some pcb
    → leave_child e
      ≡ ok (
          some (
            some
              (record e { exited = true; waiting = e.waiting + 1; editing = e.editing - 1 + 1 })))
unfolding leave_child free_child_self editing_up
leave_first e pcb x w d c = rw (is_zero e.waiting w, one e.editing d, x, c) refl

leave_last : (e : ChildProcess) → e.exited ≡ true → e.waiting ≡ 1 → leave_child e ≡ ok (some none)
unfolding leave_child free_child_self
leave_last e x w = rw (one e.waiting w, x) refl

child_leaves-Owned :
    {parent : Bool} {code : ℕ} {e : ChildProcess} (exit_code : ℕ)
    → Owned parent true code (some e)
    → Owned parent false exit_code (free_parent_self e exit_code)
unfolding free_parent_self
child_leaves-Owned exit_code (both {e = e} x w d pcb c) =
    rw x (parent_only refl (omega (arith, w)) d refl)
child_leaves-Owned exit_code (child_only {e = e} x d) = rw x neither

parent_waits-Owned :
    {child : Bool} {code : ℕ} {e : ChildProcess} {left : Option ChildProcess}
    → Owned true child code (some e)
    → 0 < e.waiting
    → free_child_self (record e { waiting = e.waiting - 1 }) ≡ ok left
    → Owned false child code left
parent_waits-Owned (both x w d pcb c) h f = absurd (omega (arith, w, h))
parent_waits-Owned {left} (parent_only {code = code} {e = e} x w d s) h f =
    subst (Owned false false code)
      (ok-injective (sym (free_exited (record e { waiting = e.waiting - 1 }) x) ∙ f)) neither

ok_some : {a b : Option ChildProcess} → ok (some a) ≡ ok (some b) → a ≡ b
ok_some e = cc

parent_leaves-Owned :
    {child : Bool} {code : ℕ} {e : ChildProcess} {left : Option ChildProcess}
    → Owned true child code (some e)
    → leave_child e ≡ ok (some left)
    → Owned false child code left
parent_leaves-Owned {left} (both {code = code} {e = e} x w d pcb c) f =
    subst (Owned false true code) (ok_some (sym (leave_first e pcb x w d c) ∙ f))
      (child_only refl (omega (arith, d)))
parent_leaves-Owned {left} (parent_only {code = code} {e = e} x w d s) f =
    subst (Owned false false code) (ok_some (sym (leave_last e x w) ∙ f)) neither

-- Whatever the order in which a parent and its child leave the element that they share, it is freed
-- exactly when both have left it; while both have it the child's PCB can be reached through it, and
-- once the child has left, the parent finds the child's status in it and `waiting` up.
pub Reach-Owned :
    {parent child : Bool} {code : ℕ} {e : Option ChildProcess}
    → Reach parent child code e
    → Owned parent child code e
unfolding start_process editing_up
Reach-Owned (shares pid tid pcb code f) =
    subst (Owned true true code) (ok-injective f) (both refl refl refl pcb refl)
Reach-Owned (child_leaves exit_code r) = child_leaves-Owned exit_code (Reach-Owned r)
Reach-Owned (parent_waits r h f) = parent_waits-Owned (Reach-Owned r) h f
Reach-Owned (parent_leaves r f) = parent_leaves-Owned (Reach-Owned r) f

-- The child's part where the parent still has the element, and the parent's `process_wait` after it.
abbrev pub Delivers : ℕ → ChildProcess → List (Option ChildProcess) → Type 0
Delivers exit_code e rest =
    (e' : ChildProcess) × (leave_parent e exit_code ≡ ok (some (some e')))
    × (e'.pid ≡ e.pid)
    × (process_wait e.pid (some e' ∷ rest) ≡ ok (waited exit_code rest))

Owned-Delivers :
    {code : ℕ} {e : ChildProcess} (exit_code : ℕ) (rest : List (Option ChildProcess))
    → Owned true true code (some e)
    → Delivers exit_code e rest
unfolding leave_parent free_parent_self editing_up process_wait wait_for free_child_self
Owned-Delivers exit_code rest (both {e = e} x w d pcb c) = (
  record e {
    exited = true;
    exited_code = exit_code;
    child = none;
    waiting = e.waiting + 1;
    editing = e.editing - 1 + 1;
  },
  rw (one e.editing d, x) refl,
  refl,
  rw (same e.pid, one (e.waiting + 1) (omega (arith, w))) refl,
)

-- A child that leaves while its parent has the element leaves its status there, and a later
-- `process_wait` of the parent answers that status at once and takes the element out of its list.
pub process_wait-leave_parent :
    {code : ℕ} {e : ChildProcess} (exit_code : ℕ) (rest : List (Option ChildProcess))
    → Reach true true code (some e)
    → Delivers exit_code e rest
process_wait-leave_parent exit_code rest r = Owned-Delivers exit_code rest (Reach-Owned r)

late :
    {code : ℕ} {e : ChildProcess} (exit_code : ℕ)
    → Owned false true code (some e)
    → (free_parent_self e exit_code ≡ none) × (leave_parent e exit_code ≡ undefined)
unfolding leave_parent free_parent_self editing_up
late exit_code (child_only {e = e} x d) = (rw x refl, rw (one e.editing d, x) refl)

-- A child that leaves after its parent does a `sema_up` on the semaphore `editing`, which
-- `free_parent_self` has just freed together with the element.
pub leave_parent_late :
    {code : ℕ} {e : ChildProcess} (exit_code : ℕ)
    → Reach false true code (some e)
    → (free_parent_self e exit_code ≡ none) × (leave_parent e exit_code ≡ undefined)
leave_parent_late exit_code r = late exit_code (Reach-Owned r)
