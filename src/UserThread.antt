-- ===== src/UserThread.antt =====
-- User threads and their stacks: src/userprog/userthread_create.c, and what `pthread_exit` of
-- process_exit.c does with the stack. The stack with the number 0 is that of the main thread, at the
-- top of user memory; the others lie below it, STACK_SIZE apart. What `malloc` and `thread_create`
-- answer is an argument.
pub mod Stacks
mod Tests
use qba.Prelude.{
  ℕ, zero, suc, ◌+◌, ◌-◌, ◌*◌, ◌/◌, Bool, true, false, not, Option, none, some, ltb, ◌==◌,
  if◌then◌else◌, update, u32,
}
use qba.Prelude.Outcome.{Outcome, ok, undefined, ◌>>=◌, ◌>>◌, assert}
use qba.Bitmap.{Bitmap, bitmap_error, bitmap_set, bitmap_scan_and_flip}
use qba.Elf.{Answers, Space, pgsize, phys_base, setup_stack}

-- `STACK_SIZE`
abbrev pub stack_size : ℕ
stack_size = 8388608

-- `PHYS_BASE - stack_no * STACK_SIZE`
unfoldable pub stack_top : ℕ → ℕ
stack_top stack_no = u32 (phys_base + (4294967296 - u32 (stack_no * stack_size)))

-- How `pthread_execute` goes on: it answers TID_ERROR, or waits for `finished`, which the new thread
-- raises if there is one (`created` is its tid).
pub data Execute : Type 0 where
  tid_error : Execute
  waits_for : (created : Option ℕ) → Execute

-- `got` is whether `malloc` answers memory, which is not tested.
abbrev pub created_by : Bool → Option ℕ → ℕ → Bitmap → Outcome (Execute × ℕ × Bitmap)
created_by false created stack_no stacks = undefined
created_by true (some tid) stack_no stacks = ok (waits_for (some tid), stack_no, stacks)
created_by true none stack_no stacks = do
  stacks' ← bitmap_set stacks stack_no false
  ok (waits_for none, stack_no, stacks')

-- The answer, the number of the stack, and the stacks in use.
unfoldable pub pthread_execute : Bool → Option ℕ → Bitmap → Outcome (Execute × ℕ × Bitmap)
unfolding bitmap_scan_and_flip bitmap_set
pthread_execute got created stacks = do
  (stack_no, stacks') ← bitmap_scan_and_flip stacks 0 1 false
  let executes = assert (ltb 0 stack_no) >> created_by got created stack_no stacks'
  if stack_no == bitmap_error then ok (tid_error, stack_no, stacks) else executes

-- The start of a user thread: the interrupt frame, and the words that it finds on its stack.
pub record Frame : Type 0 where
  pub eip : ℕ
  pub esp : ℕ
  pub word : ℕ → ℕ

abbrev framed : ℕ → ℕ → ℕ → ℕ → (ℕ → ℕ) → Option Space → Option (Frame × Space)
framed stack_no sf tf arg word none = none
framed stack_no sf tf arg word (some space) =
    let esp = u32 (stack_top stack_no + 4294967280) in
    some (
      record {
        eip = sf;
        esp = u32 (esp + 4294967292);
        word = update (update word (esp + 4) arg) esp tf;
      },
      space,
    )

unfoldable pub setup_thread :
    Answers → Bool → ℕ → ℕ → ℕ → ℕ → (ℕ → ℕ) → Space → Option (Frame × Space)
unfolding stack_top setup_stack
setup_thread a none_or_main stack_no sf tf arg word space =
    framed stack_no sf tf arg word (setup_stack a none_or_main (stack_top stack_no) space)

-- The part of `pthread_exit` that frees the user stack: its number, and the page that is mapped there.
unfoldable pub release_stack : ℕ → Bitmap → Space → Outcome (Bitmap × Space)
unfolding stack_top bitmap_set
release_stack stack_no stacks space = do
  stacks' ← bitmap_set stacks stack_no false
  ok (stacks', update space ((stack_top stack_no - pgsize) / pgsize) none)
