-- ===== src/Exit/Tests.antt =====
-- The theorems on exits at a process of four threads, whose main thread is 1.
use qba.Prelude.{ℕ, ◌≡◌, refl, true, false, none, some, [], ◌∷◌, ◌==◌, if◌then◌else◌, arith}
use qba.Prelude.Outcome.{ok}
use qba.Threads.Types.{running, ready, blocked, zombie}
use qba.Exit.{
  exiting_none, exiting_main, exiting_normal, UserThread, Proc, pthread_exits, goes_on, proceeds,
  exit_if_exiting, pthread_exit, main_waits, process_exit_normal, wait_for_kernel, second_pass,
  Found, join_search, join_wait,
}
use qba.Exit.Normal.{leave_all, AllZombies, SameOutside, leave_all_lem, WaitsThrough}
use qba.Exit.Hang.{pthread_exit_main_lost, process_exit_normal_lost, pthread_join_lost}

abbrev thread_of : ℕ → UserThread
thread_of t = record {
  tid = t;
  status = if t == 1 then blocked else if t == 4 then zombie else running;
  in_handler = true;
  joined_by = none;
  stack_no = t;
}

abbrev process : Proc
process = record {
  exiting = exiting_none;
  exit_code = 0;
  thread_exiting = some 1;
  main_thread = 1;
  in_kernel_threads = 3;
  active_threads = 2;
  threads = 4 ∷ 3 ∷ 2 ∷ 1 ∷ [];
  stacks = record { bit_cnt = 128; bits = 15 ∷ 0 ∷ 0 ∷ 0 ∷ [] };
  thread = thread_of;
}

abbrev exits : Proc
exits = record process { exiting = exiting_normal }

abbrev main_exits : Proc
main_exits = record process { exiting = exiting_main }

leave_all_lem_example :
    (p' : Proc) × (leave_all (2 ∷ 3 ∷ []) exits ≡ ok p')
    × ((p'.thread 1).status ≡ ready)
    × AllZombies p' (2 ∷ 3 ∷ [])
    × (p'.in_kernel_threads ≡ 1)
    × (second_pass p' ≡ ok (record p' { threads = [] }))
    × SameOutside 1 (2 ∷ 3 ∷ []) exits p'
    × WaitsThrough 1 (2 ∷ 3 ∷ []) exits
leave_all_lem_example =
    leave_all_lem 1 2 (3 ∷ []) exits refl refl refl
      (
        (λ e. omega (arith, e)),
        refl,
        omega arith,
        ((λ e. omega (arith, e)), tt),
        ((λ e. omega (arith, e)), refl, omega arith, tt, tt),
      )
      refl (omega arith)

pthread_exit_main_lost_example :
    (p₁ : Proc) × (p₂ : Proc) × (p₃ : Proc) × (q : Proc) × (exit_if_exiting 2 true main_exits
      ≡ ok (pthread_exits, p₁))
    × (main_waits 1 p₁ ≡ (false, p₂))
    × (pthread_exit 2 p₂ ≡ ok p₃)
    × ((p₃.thread 1).status ≡ blocked)
    × ((p₃.thread 2).status ≡ zombie)
    × (p₃.active_threads ≡ 1)
    × (pthread_exit 2 p₁ ≡ ok q)
    × (main_waits 1 q ≡ (true, q))
pthread_exit_main_lost_example =
    pthread_exit_main_lost 1 2 main_exits (λ e. omega (arith, e)) refl refl refl refl refl
      (omega arith)

process_exit_normal_lost_example :
    (p₁ : Proc) × (p₂ : Proc) × (p₃ : Proc) × (process_exit_normal 2 7 main_exits
      ≡ ok (proceeds, p₁))
    × (wait_for_kernel 2 p₁ ≡ (false, p₂))
    × (exit_if_exiting 3 false p₂ ≡ ok (goes_on, p₃))
    × (p₃.in_kernel_threads ≡ 1)
    × ((p₃.thread 2).status ≡ blocked)
process_exit_normal_lost_example =
    process_exit_normal_lost 1 2 3 7 main_exits (λ e. omega (arith, e)) (λ e. omega (arith, e)) refl
      refl refl refl

abbrev found : Found
found = record { pos = 2; is_main = false; block_wait = true }

pthread_join_lost_example :
    (p₁ : Proc) × (p₂ : Proc) × (pthread_exit 2 process ≡ ok p₁)
    × (join_wait 3 found p₁ ≡ some (true, p₂))
    × ((p₂.thread 2).status ≡ zombie)
    × ((p₂.thread 3).status ≡ blocked)
pthread_join_lost_example =
    pthread_join_lost 3 2 2 found process (λ e. omega (arith, e)) (unfold join_search in refl) refl
      refl refl refl refl (omega arith)
