-- ===== src/Exit/Hang.antt =====
-- Orders of the steps of threads that leave a process, where one of them is not served.
use qba.Prelude.{ℕ, ◌<◌, ◌≡◌, ◌≢◌, refl, ap, ◌∙◌, Bool, true, false, none, some, arith}
use qba.Prelude.Outcome.{ok, panic}
use qba.Threads.Types.{ready, blocked, zombie, is_blocked}
use qba.Exit.{
  exiting_none, exiting_main, exiting_normal, Proc, dec, set_thread, set_status, set_exit_code,
  pthread_exits, goes_on, exit_if_exiting, pthread_exit, main_waits, proceeds, exit_helper,
  process_exit_normal, wait_for_kernel, Found, join_search, join_wait,
}
use qba.Exit.Kernel.{
  out, left, update_other, unblock_lem, unblock_panics, process_exit_normal_main,
  pthread_exit_unjoined, exit_by, then_exits, leave_normal_last, leave_main_last,
}

-- While a process exits normally and the thread that exits it has not blocked yet, the thread that
-- leaves the kernel as the last but that one halts the machine: `thread_unblock` finds its argument
-- not blocked.
pub exit_if_exiting_early :
    (t u : ℕ) (is_pthread_exit : Bool) (p : Proc)
    → t ≢ u
    → p.exiting ≡ exiting_normal
    → p.thread_exiting ≡ some t
    → p.in_kernel_threads ≡ 2
    → is_blocked (p.thread t).status ≡ false
    → exit_if_exiting u is_pthread_exit p ≡ panic
exit_if_exiting_early t u is_pthread_exit p ne e te n b =
    exit_by u is_pthread_exit p e
    ∙ leave_normal_last is_pthread_exit (out u p) (ground arith) te
    ∙ ap then_exits (
        unblock_panics t (out u p)
          (ap (λ v. is_blocked v.status) (update_other p.thread u t _ ne) ∙ b))

-- The thread `u`, the last beside a main thread `m` that waits in `pthread_exit_main`, wakes it before
-- it counts itself out. If the main thread runs in between, it blocks again and nobody is left to wake
-- it; if it runs after, it goes on.
pub pthread_exit_main_lost :
    (m u : ℕ) (p : Proc)
    → m ≢ u
    → p.exiting ≡ exiting_main
    → p.main_thread ≡ m
    → (p.thread m).status ≡ blocked
    → p.active_threads ≡ 2
    → (p.thread u).joined_by ≡ none
    → (p.thread u).stack_no < p.stacks.bit_cnt
    → (p₁ : Proc) × (p₂ : Proc) × (p₃ : Proc) × (q : Proc) × (exit_if_exiting u true p
        ≡ ok (pthread_exits, p₁))
      × (main_waits m p₁ ≡ (false, p₂))
      × (pthread_exit u p₂ ≡ ok p₃)
      × ((p₃.thread m).status ≡ blocked)
      × ((p₃.thread u).status ≡ zombie)
      × (p₃.active_threads ≡ 1)
      × (pthread_exit u p₁ ≡ ok q)
      × (main_waits m q ≡ (true, q))
unfolding main_waits
pthread_exit_main_lost m u p ne e mt b n j s =
    let p₁ : Proc = set_status (out u p) m ready in
    let p₂ : Proc = set_status p₁ m blocked in
    let unjoined : (p₁.thread u).joined_by ≡ none = ground (arith, j) in
    let unjoined' : (p₂.thread u).joined_by ≡ none = ground (arith, j) in
    (
      p₁,
      p₂,
      left u p₂,
      left u p₁,
      exit_by u true p e
          ∙ leave_main_last (out u p) n mt
          ∙ ap then_exits (unblock_lem m (out u p) (ground (arith, b))),
      rw n refl,
      pthread_exit_unjoined u p₂ unjoined' ground (arith, b, s),
      ground (arith, b, s),
      ground (arith, b, s),
      rw n refl,
      pthread_exit_unjoined u p₁ unjoined ground (arith, b, s),
      rw n refl,
    )

-- If the main thread `m` has called `pthread_exit` and another thread `t` then calls `exit` while a
-- third, `u`, is in the kernel, `u` goes back to user code, and `t` stays blocked although it is the
-- only thread in the kernel.
pub process_exit_normal_lost :
    (m t u exit_code : ℕ) (p : Proc)
    → t ≢ u
    → t ≢ m
    → p.exiting ≡ exiting_main
    → p.main_thread ≡ m
    → (p.thread t).joined_by ≡ none
    → p.in_kernel_threads ≡ 3
    → (p₁ : Proc) × (p₂ : Proc) × (p₃ : Proc) × (process_exit_normal t exit_code p
        ≡ ok (proceeds, p₁))
      × (wait_for_kernel t p₁ ≡ (false, p₂))
      × (exit_if_exiting u false p₂ ≡ ok (goes_on, p₃))
      × (p₃.in_kernel_threads ≡ 1)
      × ((p₃.thread t).status ≡ blocked)
unfolding process_exit_normal set_exit_code exit_helper wait_for_kernel
process_exit_normal_lost m t u exit_code p tu tm e mt j n =
    let p₀ : Proc = record p { exit_code = (set_exit_code p exit_code).exit_code } in
    let p₁ : Proc = record (exit_helper p₀.main_thread false p₀) {
      in_kernel_threads = dec p₀.in_kernel_threads;
    } in
    let p₂ : Proc = set_status p₁ t blocked in
    (
      p₁,
      p₂,
      out u p₂,
      process_exit_normal_main t exit_code p e j (λ q. tm (q ∙ mt)),
      rw n refl,
      exit_by u false p₂ e,
      rw n refl,
      ground (arith, tu),
    )

-- A thread that `pthread_join` finds running and that exits before the caller has put itself down as
-- its joiner wakes nobody, and the caller then blocks although the thread is a zombie.
pub pthread_join_lost :
    (t u tid : ℕ) (f : Found) (p : Proc)
    → t ≢ u
    → join_search tid p.threads p ≡ some f
    → f.block_wait ≡ true
    → f.pos ≡ u
    → p.exiting ≡ exiting_none
    → (p.thread u).joined_by ≡ none
    → (p.thread t).joined_by ≡ none
    → (p.thread u).stack_no < p.stacks.bit_cnt
    → (p₁ : Proc) × (p₂ : Proc) × (pthread_exit u p ≡ ok p₁)
      × (join_wait t f p₁ ≡ some (true, p₂))
      × ((p₂.thread u).status ≡ zombie)
      × ((p₂.thread t).status ≡ blocked)
unfolding join_wait
pthread_join_lost t u tid f p tu s w at e ju jt k =
    let p₁ : Proc = left u p in
    (
      p₁,
      set_status (set_thread p₁ f.pos (record (p₁.thread f.pos) { joined_by = some t })) t blocked,
      pthread_exit_unjoined u p ju k,
      ground (arith, w, at, e, jt, tu),
      ground (arith, at, tu),
      ground (arith, at, tu),
    )
