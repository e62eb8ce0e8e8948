-- ===== src/Exit/Kernel.antt =====
-- What the steps of threads that leave a process do, branch by branch.
use qba.Prelude.{
  ℕ, ◌<◌, ◌≡◌, ◌≢◌, refl, ap, ◌∙◌, Bool, true, false, not, ◌||◌, none, some, ◌==◌, if◌then◌else◌,
  update, arith, lt→ltb,
}
use qba.Prelude.Outcome.{Outcome, ok, panic, ◌>>=◌, ◌>>◌, assert}
use qba.Bitmap.{bitmap_set, bitmap_reset}
use qba.Threads.Types.{ready, blocked, zombie, is_blocked}
use qba.Exit.{
  Exiting, exiting_main, exiting_normal, UserThread, Proc, dec, set_status, unblock,
  unblock_pointer, unblock_joiner, wake_up_joiner, pthread_exits, Leave, leave_by, exit_if_exiting,
  pthread_exit, minus_one, set_exit_code, proceeds, exit_helper, normal_by, process_exit_normal,
}

-- What the steps leave where they neither halt nor wake a thread.
abbrev pub out : ℕ → Proc → Proc
out t p = record p {
  in_kernel_threads = dec p.in_kernel_threads;
  thread = update p.thread t (record (p.thread t) { in_handler = false });
}

abbrev pub left : ℕ → Proc → Proc
left t p =
    set_status
      (record p {
        stacks = bitmap_reset p.stacks (p.thread t).stack_no;
        active_threads = dec p.active_threads;
      })
      t zombie

pub update_other : (f : ℕ → UserThread) (t u : ℕ) (v : UserThread) → u ≢ t → update f t v u ≡ f u
update_other f t u v ne = ground arith

pub update_self : (f : ℕ → UserThread) (t : ℕ) (v : UserThread) → update f t v t ≡ v
update_self f t v = ground arith

pub equal : (a b : ℕ) → a ≡ b → (a == b) ≡ true
equal a b e = ground arith

pub unequal : (a b : ℕ) → a ≢ b → (a == b) ≡ false
unequal a b e = ground arith

pub unblock_lem :
    (t : ℕ) (p : Proc) → (p.thread t).status ≡ blocked → unblock t p ≡ ok (set_status p t ready)
unfolding unblock
unblock_lem t p b = ap (λ s. assert (is_blocked s) >> ok (set_status p t ready)) b

pub unblock_panics :
    (t : ℕ) (p : Proc) → is_blocked (p.thread t).status ≡ false → unblock t p ≡ panic
unfolding unblock
unblock_panics t p b = rw b refl

pub wake_up_joiner-none :
    (t : ℕ) (p : Proc) → (p.thread t).joined_by ≡ none → wake_up_joiner t p ≡ ok p
unfolding wake_up_joiner
wake_up_joiner-none t p j = ap (λ o. unblock_joiner o p) j

pub pthread_exit_unjoined :
    (t : ℕ) (p : Proc)
    → (p.thread t).joined_by ≡ none
    → (p.thread t).stack_no < p.stacks.bit_cnt
    → pthread_exit t p ≡ ok (left t p)
unfolding pthread_exit bitmap_set
pthread_exit_unjoined t p j s =
    rw (wake_up_joiner-none t p j, lt→ltb (p.thread t).stack_no p.stacks.bit_cnt s) refl

pub exit_by :
    (t : ℕ) (is_pthread_exit : Bool) (p : Proc) {x : Exiting}
    → p.exiting ≡ x
    → exit_if_exiting t is_pthread_exit p ≡ leave_by x is_pthread_exit (out t p)
unfolding exit_if_exiting
exit_by t is_pthread_exit p e = ap (λ x. leave_by x is_pthread_exit (out t p)) e

abbrev pub then_exits : Outcome Proc → Outcome (Leave × Proc)
then_exits o = do q ← o; ok (pthread_exits, q)

pub leave_normal_last :
    (is_pthread_exit : Bool) (p : Proc) {t : ℕ}
    → p.in_kernel_threads ≡ 1
    → p.thread_exiting ≡ some t
    → leave_by exiting_normal is_pthread_exit p ≡ then_exits (unblock t p)
leave_normal_last is_pthread_exit p n e =
    rw (equal p.in_kernel_threads 1 n) (ap (λ o. then_exits (unblock_pointer o p)) e)

pub leave_normal_other :
    (is_pthread_exit : Bool) (p : Proc)
    → p.in_kernel_threads ≢ 1
    → leave_by exiting_normal is_pthread_exit p ≡ ok (pthread_exits, p)
leave_normal_other is_pthread_exit p n = rw (unequal p.in_kernel_threads 1 n) refl

pub leave_main_last :
    (p : Proc) {m : ℕ}
    → p.active_threads ≡ 2
    → p.main_thread ≡ m
    → leave_by exiting_main true p ≡ then_exits (unblock m p)
leave_main_last p n e = rw (equal p.active_threads 2 n) (ap (λ t. then_exits (unblock t p)) e)

pub set_exit_code_only :
    (p : Proc) (exit_code : ℕ)
    → set_exit_code p exit_code ≡ record p { exit_code = (set_exit_code p exit_code).exit_code }
unfolding set_exit_code
set_exit_code_only p exit_code = by_test ((p.exit_code == 0) || not (exit_code == minus_one))
  where
    by_test :
        (b : Bool)
        → (if b then record p { exit_code = exit_code } else p)
          ≡ record p { exit_code = (if b then record p { exit_code = exit_code } else p).exit_code }
    by_test true = refl
    by_test false = refl

pub process_exit_normal_main :
    (t exit_code : ℕ) (p : Proc)
    → p.exiting ≡ exiting_main
    → (p.thread t).joined_by ≡ none
    → t ≢ p.main_thread
    → process_exit_normal t exit_code p
      ≡ ok (
        proceeds,
        record (exit_helper p.main_thread false
            (record p { exit_code = (set_exit_code p exit_code).exit_code })) {
              in_kernel_threads = dec p.in_kernel_threads;
            },
      )
unfolding process_exit_normal
process_exit_normal_main t exit_code p e j ne = rw (wake_up_joiner-none t p j) (
    ap (λ q. normal_by q.exiting t q) (set_exit_code_only p exit_code)
    ∙ ap (λ x. normal_by x t (record p { exit_code = (set_exit_code p exit_code).exit_code })) e
    ∙ rw (unequal t p.main_thread ne) refl)
