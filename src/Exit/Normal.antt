-- ===== src/Exit/Normal.antt =====
-- The threads that are in the kernel when a process exits, one after the other, and the thread that
-- waits for them in `process_exit_normal`.
use qba.Prelude.{
  ℕ, ◌-◌, ◌≤◌, ◌<◌, ◌≡◌, ◌≢◌, refl, sym, ap, ◌∙◌, Bool, true, false, none, some, List, [], ◌∷◌, ◌+◌,
  arith, length, if◌then◌else◌,
}
use qba.Prelude.Outcome.{Outcome, ok, ◌>>=◌}
use qba.Bitmap.{bitmap_reset}
use qba.Threads.Order.{remove}
use qba.Threads.Types.{ready, blocked, zombie}
use qba.Exit.{
  exiting_normal, exiting_exception, UserThread, Proc, set_status, second_pass,
  process_exit_exception, exception_by, clean_each, set_exit_code, minus_one, dec, leave_kernel,
  leave_as,
}
use qba.Exit.Kernel.{
  out, left, unblock_lem, pthread_exit_unjoined, exit_by, then_exits, leave_normal_last,
  leave_normal_other, set_exit_code_only,
}

-- The threads leave the kernel one after the other.
unfoldable pub leave_all : List ℕ → Proc → Outcome Proc
unfolding leave_kernel
leave_all [] p = ok p
leave_all (t ∷ ts) p = do p' ← leave_kernel t p; leave_all ts p'

abbrev pub Without : ℕ → List ℕ → Type 0
Without t [] = Unit {0}
Without t (u ∷ us) = (t ≢ u) × Without t us

-- The threads are distinct, none is `w`, nobody joins them, and their stacks are in the bitmap.
abbrev pub Leaving : ℕ → Proc → List ℕ → Type 0
Leaving w p [] = Unit {0}
Leaving w p (t ∷ ts) =
    (w ≢ t)
    × ((p.thread t).joined_by ≡ none)
    × ((p.thread t).stack_no < p.stacks.bit_cnt)
    × Without t ts
    × Leaving w p ts

abbrev pub AllZombies : Proc → List ℕ → Type 0
AllZombies p [] = Unit {0}
AllZombies p (t ∷ ts) = ((p.thread t).status ≡ zombie) × AllZombies p ts

-- Threads that a step does not touch stay as they are.
SameFor : List ℕ → Proc → Proc → Type 0
SameFor [] p q = Unit {0}
SameFor (t ∷ ts) p q = (q.thread t ≡ p.thread t) × SameFor ts p q

Leaving-same :
    (w : ℕ) (ts : List ℕ) (p q : Proc)
    → q.stacks.bit_cnt ≡ p.stacks.bit_cnt
    → SameFor ts p q
    → Leaving w p ts
    → Leaving w q ts
unfolding SameFor
Leaving-same w [] p q c s l = tt
Leaving-same w (t ∷ ts) p q c (e, s) (ne, j, k, d, l) =
    (ne, rw e j, rw (e, c) k, d, Leaving-same w ts p q c s l)

leave_kernel_other :
    (t : ℕ) (p : Proc)
    → p.exiting ≡ exiting_normal
    → (p.thread t).joined_by ≡ none
    → (p.thread t).stack_no < p.stacks.bit_cnt
    → 2 < p.in_kernel_threads
    → p.in_kernel_threads < 4294967296
    → leave_kernel t p ≡ ok (left t (out t p))
unfolding leave_kernel
leave_kernel_other t p e j k n small =
    ap (λ o. o >>= leave_as t)
      (exit_by t false p e ∙ leave_normal_other false (out t p) (λ q. omega (arith, q)))
    ∙ pthread_exit_unjoined t (out t p) (ground (arith, j)) (ground (arith, k))

leave_kernel_last :
    (w t : ℕ) (p : Proc)
    → p.exiting ≡ exiting_normal
    → p.thread_exiting ≡ some w
    → (p.thread w).status ≡ blocked
    → w ≢ t
    → (p.thread t).joined_by ≡ none
    → (p.thread t).stack_no < p.stacks.bit_cnt
    → p.in_kernel_threads ≡ 2
    → leave_kernel t p ≡ ok (left t (set_status (out t p) w ready))
unfolding leave_kernel
leave_kernel_last w t p e te b ne j k n =
    ap (λ o. o >>= leave_as t)
      (exit_by t false p e
        ∙ leave_normal_last false (out t p) (omega (arith, n)) te
        ∙ ap then_exits (unblock_lem w (out t p) (ground (arith, b))))
    ∙ pthread_exit_unjoined t (set_status (out t p) w ready) (ground (arith, j)) (ground (arith, k))

-- Before each of the threads leaves, `w` is blocked.
abbrev pub WaitsThrough : ℕ → List ℕ → Proc → Type 0
WaitsThrough w [] p = Unit {0}
WaitsThrough w (t ∷ ts) p =
    ((p.thread w).status ≡ blocked) × (q : Proc) × (leave_kernel t p ≡ ok q) × WaitsThrough w ts q

-- Threads other than `w` and those of the list are as before.
abbrev pub SameOutside : ℕ → List ℕ → Proc → Proc → Type 0
SameOutside w ts p p' = (x : ℕ) → x ≢ w → Without x ts → p'.thread x ≡ p.thread x

same_after : (t : ℕ) (ts : List ℕ) (p : Proc) → Without t ts → SameFor ts p (left t (out t p))
unfolding SameFor
same_after t [] p d = tt
same_after t (u ∷ us) p (ne, d) = (ground (arith, ne), same_after t us p d)

-- While a process exits and the thread `w` that exits it waits, the other threads in the kernel leave
-- it one after the other without halting: `w` is blocked until the last of them wakes it, all of them
-- become zombies, and `w` then finds itself the only thread in the kernel and frees the
-- others, and no further thread has changed. Nobody may have joined the threads that leave.
pub leave_all_lem :
    (w t : ℕ) (ts : List ℕ) (p : Proc)
    → p.exiting ≡ exiting_normal
    → p.thread_exiting ≡ some w
    → (p.thread w).status ≡ blocked
    → Leaving w p (t ∷ ts)
    → p.in_kernel_threads ≡ length ts + 2
    → p.in_kernel_threads < 4294967296
    → (p' : Proc) × (leave_all (t ∷ ts) p ≡ ok p')
      × ((p'.thread w).status ≡ ready)
      × AllZombies p' (t ∷ ts)
      × (p'.in_kernel_threads ≡ 1)
      × (second_pass p' ≡ ok (record p' { threads = [] }))
      × SameOutside w (t ∷ ts) p p'
      × WaitsThrough w (t ∷ ts) p
unfolding leave_all second_pass bitmap_reset
leave_all_lem w t [] p e te b (ne, j, k, d, l) n small = (
  left t (set_status (out t p) w ready),
  rw (leave_kernel_last w t p e te b ne j k n) refl,
  ground (arith, ne),
  (ground (arith, ne), tt),
  omega (arith, n),
  rw n refl,
  (λ x nw no. ground (arith, nw, no.0)),
  (b, left t (set_status (out t p) w ready), leave_kernel_last w t p e te b ne j k n, tt),
)
leave_all_lem w t (u ∷ us) p e te b (ne, j, k, d, l) n small =
    let q : Proc = left t (out t p) in
    let (p', r, wakes, zombies, one, passes, same, through) =
      leave_all_lem w u us q e te (ground (arith, b, ne))
        (Leaving-same w (u ∷ us) p q refl (same_after t (u ∷ us) p d) l) (omega (arith, n, small))
        (omega (arith, n, small)) in
    (
      p',
      rw (leave_kernel_other t p e j k (omega (arith, n)) small) r,
      wakes,
      (ap (λ v. v.status) (same t (λ e. ne (sym e)) d) ∙ ground arith, zombies),
      one,
      passes,
      (λ x nw no. same x nw no.1 ∙ ground (arith, no.0)),
      (b, q, leave_kernel_other t p e j k (omega (arith, n)) small, through),
    )

abbrev pub count_handling : (ℕ → UserThread) → List ℕ → ℕ
count_handling f [] = 0
count_handling f (t ∷ ts) = (if (f t).in_handler then 1 else 0) + count_handling f ts

abbrev cleaned : Proc → ℕ → Proc
cleaned p n = record p { threads = []; in_kernel_threads = n }

clean_each_lem :
    (ts : List ℕ) (p : Proc)
    → count_handling p.thread ts ≤ p.in_kernel_threads
    → p.in_kernel_threads < 4294967296
    → clean_each ts p ≡ cleaned p (p.in_kernel_threads - count_handling p.thread ts)
unfolding clean_each
clean_each_lem [] p h small = ap (cleaned p) (omega arith)
clean_each_lem (t ∷ ts) p h small = by_test (clean_each_lem ts) (p.thread t).in_handler h
  where
    by_test :
        ((q : Proc)
          → count_handling q.thread ts ≤ q.in_kernel_threads
          → q.in_kernel_threads < 4294967296
          → clean_each ts q ≡ cleaned q (q.in_kernel_threads - count_handling q.thread ts))
        → (b : Bool) → (if b then 1 else 0) + count_handling p.thread ts ≤ p.in_kernel_threads
        → (if b
            then clean_each ts (record p { in_kernel_threads = dec p.in_kernel_threads })
            else clean_each ts p)
          ≡ cleaned p (p.in_kernel_threads - ((if b then 1 else 0) + count_handling p.thread ts))
    by_test rest true h =
        rest (record p { in_kernel_threads = dec p.in_kernel_threads }) (omega (arith, small))
          (omega (arith, small))
        ∙ ap (cleaned p) (omega (arith, small))
    by_test rest false h = rest p (omega arith) small ∙ ap (cleaned p) (omega arith)

-- Whatever the process was doing, an exit by an exception frees all threads but the caller and takes
-- those of them that were in the kernel out of the count, and it touches no thread: also where the
-- main thread or another one waits for the process to exit, its status stays and it is not put back
-- into the list.
pub process_exit_exception_lem :
    (t : ℕ) (p : Proc)
    → count_handling p.thread (remove t p.threads) ≤ p.in_kernel_threads
    → p.in_kernel_threads < 4294967296
    → (p' : Proc) × (process_exit_exception t minus_one p ≡ ok p')
      × (p'.exiting ≡ exiting_exception)
      × (p'.threads ≡ [])
      × (p'.in_kernel_threads + count_handling p.thread (remove t p.threads) ≡ p.in_kernel_threads)
      × ((u : ℕ) → p'.thread u ≡ p.thread u)
unfolding process_exit_exception
process_exit_exception_lem t p h small =
    let p₁ : Proc = record p {
      exiting = exiting_exception;
      exit_code = (set_exit_code (record p { exiting = exiting_exception }) minus_one).exit_code;
    } in
    (
      cleaned p₁ (p.in_kernel_threads - count_handling p.thread (remove t p.threads)),
      ap (λ q. do p₂ ← exception_by q.exiting q; ok (clean_each (remove t p₂.threads) p₂))
            (set_exit_code_only (record p { exiting = exiting_exception }) minus_one)
          ∙ ap ok (clean_each_lem (remove t p.threads) p₁ h small),
      refl,
      refl,
      omega arith,
      λ u. refl,
    )
