-- ===== src/UserThread/Stacks.antt =====
-- The stacks of the threads of a process.
use qba.Prelude.{
  ℕ, ◌+◌, ◌-◌, ◌*◌, ◌/◌, ◌%◌, ◌≤◌, ◌<◌, ◌≡◌, ◌≢◌, refl, ap, sym, fun_ext, ◌∙◌, Bool, true, false,
  not, Option, none, some, ltb, ◌==◌, if◌then◌else◌, update, u32, arith, ◌⊎◌, inl, inr,
}
use qba.Prelude.Outcome.{ok}
use qba.Bitmap.{Bitmap, bitmap_error}
use qba.Bitmap.Single.{IsValid, has}
use qba.Bitmap.Multiple.{within, bitmap_set_lem}
use qba.Bitmap.Scan.{bitmap_scan_and_flip_lem}
use qba.Elf.{Answers, Space, Page, pgsize, phys_base, setup_stack, install_page}
use qba.UserThread.{
  stack_size, stack_top, tid_error, waits_for, pthread_execute, Frame, setup_thread, release_stack,
}

-- A process has at most MAX_THREADS stacks.
stack_top_lem :
    (n : ℕ) → n < 128 → (stack_top n ≡ phys_base - n * stack_size) × (2147483648 < stack_top n)
unfolding stack_top
stack_top_lem n h = (omega (arith, h), omega (arith, h))

-- Two stacks do not overlap, nor the address space below them.
abbrev pub Apart : ℕ → ℕ → Type 0
Apart n m = (stack_top n + stack_size ≤ stack_top m) ⊎ (stack_top m + stack_size ≤ stack_top n)

stacks-Apart : (n m : ℕ) → n < 128 → m < 128 → n ≢ m → Apart n m
stacks-Apart n m hn hm ne =
    let (en, bn) = stack_top_lem n hn in let (em, bm) = stack_top_lem m hm in ground (arith, en, em)

-- The tests of the code on a number that the scan finds.
found_no : (n : ℕ) → 0 < n → n < 128 → ((n == bitmap_error) ≡ false) × (ltb 0 n ≡ true)
found_no n pos small = (ground (arith, pos, small), ground (arith, pos, small))

within_one : (n m : ℕ) → within n 1 m ≡ (m == n)
within_one n m = ground arith

used-free : (f : ℕ → Bool) (n m : ℕ) → f n ≡ false → f m ≡ true → n ≢ m
used-free f n m free used = λ q. ground (arith, ap f q, free, used)

free-pos : (f : ℕ → Bool) (n : ℕ) → f 0 ≡ true → f n ≡ false → 0 < n
free-pos f n used free = let ne : n ≢ 0 = used-free f n 0 free used in ground (arith, ne)

none_free :
    (f : ℕ → Bool) (m : ℕ) → ((j : ℕ) × (m ≤ j) × (j < m + 1) × (f j ≡ not false)) → f m ≡ true
none_free f m (j, lo, hi, e) = let q : j ≡ m = omega (arith, lo, hi) in sym (ap f q) ∙ e

-- In a process of at most 128 stacks, the stack 0 in use, where `malloc` answers memory and
-- `thread_create` a thread: a new thread gets a stack that no thread of the process has, away from the
-- stacks in use and in the upper half of user memory, its number and no other is in use from then on,
-- and the caller waits for the thread; or every stack is in use and the answer is TID_ERROR.
pub pthread_execute_lem :
    (tid : ℕ) (stacks : Bitmap)
    → IsValid stacks
    → 0 < stacks.bit_cnt
    → stacks.bit_cnt ≤ 128
    → has stacks 0 ≡ true
    → ((n : ℕ) × (stacks' : Bitmap) × (pthread_execute true (some tid) stacks
          ≡ ok (waits_for (some tid), n, stacks'))
        × (has stacks n ≡ false)
        × ((m : ℕ) → has stacks' m ≡ (if m == n then true else has stacks m))
        × ((m : ℕ) → m < stacks.bit_cnt → has stacks m ≡ true → Apart n m)
        × (2147483648 < stack_top n)
        × (stack_top n + stack_size ≤ phys_base))
      ⊎ ((pthread_execute true (some tid) stacks ≡ ok (tid_error, bitmap_error, stacks))
          × ((m : ℕ) → m < stacks.bit_cnt → has stacks m ≡ true))
unfolding pthread_execute
pthread_execute_lem tid stacks v pos small main =
    elim (bitmap_scan_and_flip_lem stacks 0 1 false v (omega arith)) [
      | inr (e, all) ↦
          inr (rw e refl, λ m h. none_free (has stacks) m (all m (omega arith) (omega (arith, h))))
      | inl (n, stacks', e, lo, hi, free, w) ↦
          let is_free : has stacks n ≡ false = free n (omega arith) (omega arith) in
          let n_pos : 0 < n = free-pos (has stacks) n main is_free in
          let (na, lt) = found_no n n_pos (omega arith) in
          let (en, bn) = stack_top_lem n (omega arith) in
          inl (
            n,
            stacks',
            rw e (rw (na, lt) refl),
            is_free,
            λ m. w.bits m ∙ ap (λ x. if x then true else has stacks m) (within_one n m),
            λ m h t.
                stacks-Apart n m (omega arith) (omega arith) (used-free (has stacks) n m is_free t),
            bn,
            omega (arith, en, n_pos),
          )
    ]

-- The page under the stack pointer of a thread.
abbrev pub stack_page : ℕ → ℕ
stack_page stack_no = (stack_top stack_no - pgsize) / pgsize

abbrev pub first_page : Page
first_page = record { content = λ i. 0; writable = true }

setup_stack_lem :
    (a : Answers) (top : ℕ) (space : Space)
    → a.kpage ≡ true
    → a.page_table ≡ true
    → space ((top - pgsize) / pgsize) ≡ none
    → setup_stack a true top space ≡ some (update space ((top - pgsize) / pgsize) (some first_page))
unfolding setup_stack install_page
setup_stack_lem a top space k p free = rw (k, p, free) refl

-- A thread whose page is granted and not mapped yet starts at SF, which finds TF and ARG as its
-- arguments, with its stack pointer aligned as at a call and inside the one page that is mapped for it.
pub setup_thread_lem :
    (a : Answers) (stack_no sf tf arg : ℕ) (word : ℕ → ℕ) (space : Space)
    → stack_no < 128
    → a.kpage ≡ true
    → a.page_table ≡ true
    → space (stack_page stack_no) ≡ none
    → (f : Frame) × (setup_thread a true stack_no sf tf arg word space
        ≡ some (f, update space (stack_page stack_no) (some first_page)))
      × (f.eip ≡ sf)
      × (f.word (f.esp + 4) ≡ tf)
      × (f.word (f.esp + 8) ≡ arg)
      × ((f.esp + 4) % 16 ≡ 0)
      × (f.esp + 12 ≤ stack_top stack_no)
      × (stack_top stack_no - pgsize ≤ f.esp)
unfolding setup_thread
setup_thread_lem a stack_no sf tf arg word space h k p free =
    let (e, b) = stack_top_lem stack_no h in
    let low : ℕ = u32 (stack_top stack_no + 4294967280) in
    let at : ℕ = u32 (low + 4294967292) in
    let below : low ≡ stack_top stack_no - 16 = omega (arith, e, b, h) in
    let at_lem : at + 4 ≡ low = omega (arith, below, b) in
    let call_frame : Frame = record {
      eip = sf;
      esp = at;
      word = update (update word (low + 4) arg) low tf;
    } in
    (
      call_frame,
      rw (setup_stack_lem a (stack_top stack_no) space k p free) refl,
      refl,
      ground (arith, at_lem),
      ground (arith, at_lem),
      omega (arith, at_lem, below, e, h),
      omega (arith, at_lem, below, b),
      omega (arith, at_lem, below, b),
    )

unmapped :
    (space : Space) (n : ℕ) (page : Option Page)
    → space n ≡ none
    → update (update space n page) n none ≡ space
unmapped space n page free = fun_ext (λ m. ground (arith, free, ap space))

-- The exit of a thread gives its number and its page back.
pub release_stack_lem :
    (stack_no : ℕ) (stacks : Bitmap) (space : Space) (page : Page)
    → IsValid stacks
    → stack_no < stacks.bit_cnt
    → space (stack_page stack_no) ≡ none
    → (stacks' : Bitmap) × (release_stack stack_no stacks
          (update space (stack_page stack_no) (some page))
        ≡ ok (stacks', space))
      × ((m : ℕ) → has stacks' m ≡ (if m == stack_no then false else has stacks m))
unfolding release_stack
release_stack_lem stack_no stacks space page v h free =
    let (stacks', e, w) = bitmap_set_lem {b = stacks} {i = stack_no} false v h in
    (
      stacks',
      rw (e, unmapped space (stack_page stack_no) (some page) free) refl,
      λ m. w.bits m ∙ ap (λ x. if x then false else has stacks m) (within_one stack_no m),
    )
