-- ===== src/Timer/Wake.antt =====
-- Which sleepers of src/devices/timer.c a tick of the timer wakes.
use qba.Prelude.{
  ℕ, ◌+◌, ◌≤◌, ◌≡◌, refl, sym, ap, subst, Bool, true, false, not, ◌&&◌, ◌||◌, some, List, [], ◌∷◌,
  leb, ◌==◌, if◌then◌else◌, arith, ℕ_discrete, Bool-cases, inl, inr,
}
use qba.Prelude.Outcome.{ok}
use qba.Threads.Order.{insert_ordered, mem, mem-insert}
use qba.Threads.Types.{
  Kernel, ready, blocked, sched_prio, ready_list, timer_sleep_list, set_thread, set_list,
}
use qba.Threads.Sched.{thread_before, insert_thread, thread_enqueue, thread_unblock, thread_tick}
use qba.Timer.{wake_loop, timer_interrupt}

-- Every wake-up time in the list is `n` at least.
abbrev pub AtLeast : (ℕ → ℕ) → ℕ → List ℕ → Type 0
AtLeast f n [] = Unit {0}
AtLeast f n (y ∷ ys) = (n ≤ f y) × AtLeast f n ys

-- The wake-up times rise along the list, and no thread comes twice.
abbrev pub Rises : (ℕ → ℕ) → List ℕ → Type 0
Rises f [] = Unit {0}
Rises f (y ∷ ys) = AtLeast f (f y) ys × (mem y ys ≡ false) × Rises f ys

abbrev pub wake_up_of : Kernel → ℕ → ℕ
wake_up_of k t = (k.thread t).wake_up

-- A thread of the list whose time has come.
abbrev pub due : Kernel → List ℕ → ℕ → Bool
due k ts t = mem t ts && leb (wake_up_of k t) k.ticks

-- `k'` is `k` with the due threads of the list `ts` ready and out of the list of sleepers.
pub record Woken (k : Kernel) (ts : List ℕ) (k' : Kernel) : Type 0 where
  pub asleep :
      (t : ℕ) → mem t (k'.lists timer_sleep_list) ≡ (mem t ts && not (leb (wake_up_of k t) k.ticks))
  pub in_ready : (t : ℕ) → mem t (k'.lists ready_list) ≡ (due k ts t || mem t (k.lists ready_list))
  pub status : (t : ℕ) → (k'.thread t).status ≡ (if due k ts t then ready else (k.thread t).status)

-- What `thread_unblock` leaves under the priority scheduler.
abbrev unblocked : ℕ → Kernel → Kernel
unblocked t k =
    let k' = set_thread k t (record (k.thread t) { queue = some ready_list }) in
    let k'' =
      set_list k' ready_list (insert_ordered (thread_before k'.thread) t (k'.lists ready_list)) in
    set_thread k'' t (record (k''.thread t) { status = ready })

unblock-ok :
    (t : ℕ) (k : Kernel)
    → k.policy ≡ sched_prio
    → (k.thread t).status ≡ blocked
    → thread_unblock t k ≡ ok (unblocked t k)
unfolding thread_unblock thread_enqueue insert_thread
unblock-ok t k p s = ground arith

AtLeast-mem : (f : ℕ → ℕ) (n z : ℕ) (xs : List ℕ) → AtLeast f n xs → mem z xs ≡ true → n ≤ f z
unfolding mem
AtLeast-mem f n z [] a m = absurd (cc)
AtLeast-mem f n z (y ∷ ys) a m = elim (ℕ_discrete z y) [
  | yes e ↦ ground (arith, a.0, ap f e)
  | no ne ↦ AtLeast-mem f n z ys a.1 (ground arith)
]

AtLeast-ext :
    (f g : ℕ → ℕ) (n : ℕ) (xs : List ℕ) → ((y : ℕ) → g y ≡ f y) → AtLeast f n xs → AtLeast g n xs
AtLeast-ext f g n [] e a = tt
AtLeast-ext f g n (y ∷ ys) e a = (ground (arith, e y, a.0), AtLeast-ext f g n ys e a.1)

Rises-ext : (f g : ℕ → ℕ) (xs : List ℕ) → ((y : ℕ) → g y ≡ f y) → Rises f xs → Rises g xs
Rises-ext f g [] e a = tt
Rises-ext f g (y ∷ ys) e (a, b, c) = (
  subst (λ n. AtLeast g n ys) (sym (e y)) (AtLeast-ext f g (f y) ys e a),
  b,
  Rises-ext f g ys e c,
)

step-Woken :
    (t : ℕ) (rest : List ℕ) (k k' : Kernel)
    → leb (wake_up_of k t) k.ticks ≡ true
    → mem t rest ≡ false
    → Woken (unblocked t (set_list k timer_sleep_list rest)) rest k'
    → Woken k (t ∷ rest) k'
unfolding mem
step-Woken t rest k k' now once w = record {
  asleep = λ u. ground (arith, w.asleep u);
  in_ready = λ u. ground (arith, w.in_ready u, inserted u);
  status = λ u. ground (arith, w.status u);
}
  where
    k₁ : Kernel
    k₁ = set_list k timer_sleep_list rest

    inserted :
        (u : ℕ) → mem u ((unblocked t k₁).lists ready_list) ≡ (u == t || mem u (k.lists ready_list))
    inserted u = ground (
      arith,
      mem-insert
          (thread_before
            (set_thread k₁ t (record (k₁.thread t) { queue = some ready_list })).thread)
          t u (k.lists ready_list),
    )

none_due :
    (t : ℕ) (rest : List ℕ) (k : Kernel)
    → leb (wake_up_of k t) k.ticks ≡ false
    → AtLeast (wake_up_of k) (wake_up_of k t) rest
    → (u : ℕ) → due k (t ∷ rest) u ≡ false
unfolding mem
none_due t rest k later least u = elim (ℕ_discrete u t) [
  | yes e ↦ ground (arith, ap (wake_up_of k) e)
  | no ne ↦ elim (Bool-cases (mem u rest)) [
    | inl m ↦ ground (arith, AtLeast-mem (wake_up_of k) (wake_up_of k t) u rest least m)
    | inr m ↦ ground arith
  ]
]

wake_loop_lem :
    (ts : List ℕ) (k : Kernel)
    → k.policy ≡ sched_prio
    → k.lists timer_sleep_list ≡ ts
    → Rises (wake_up_of k) ts
    → ((t : ℕ) → mem t ts ≡ true → (k.thread t).status ≡ blocked)
    → (k' : Kernel) × (wake_loop ts k ≡ ok k') × Woken k ts k'
unfolding wake_loop mem
wake_loop_lem [] k p l r s = (
  k,
  refl,
  record { asleep = λ t. ground (arith, ap (mem t) l); in_ready = λ t. refl; status = λ t. refl },
)
wake_loop_lem (t ∷ rest) k p l (least, once, r) s =
    elim (Bool-cases (leb (wake_up_of k t) k.ticks)) [
      | inr later ↦ (
        k,
        rw later refl,
        record {
          asleep = λ u. ground (arith, none_due t rest k later least u, ap (mem u) l);
          in_ready = λ u. ground (arith, none_due t rest k later least u);
          status = λ u. ground (arith, none_due t rest k later least u);
        },
      )
      | inl now ↦
          let k₁ = set_list k timer_sleep_list rest in
          let (k', e, w) =
            wake_loop_lem rest (unblocked t k₁) p refl
              (Rises-ext (wake_up_of k) (wake_up_of (unblocked t k₁)) rest (λ y. ground arith) r)
              (λ u m. ground (arith, s u)) in
          (
            k',
            rw now (rw (unblock-ok t k₁ p (s t (ground arith))) e),
            step-Woken t rest k k' now once w,
          )
    ]

-- Under the priority scheduler, a tick of the timer, when the sleepers stand by their wake-up times and sleep, makes exactly those
-- ready whose time has come by the new count of ticks, and leaves the others in the list.
pub timer_interrupt_lem :
    (k : Kernel)
    → k.policy ≡ sched_prio
    → Rises (wake_up_of k) (k.lists timer_sleep_list)
    → ((t : ℕ) → mem t (k.lists timer_sleep_list) ≡ true → (k.thread t).status ≡ blocked)
    → (k' : Kernel) × (timer_interrupt k ≡ ok k')
      × Woken (record k { ticks = k.ticks + 1 }) (k.lists timer_sleep_list) k'
unfolding timer_interrupt thread_tick
timer_interrupt_lem k p r s =
    let k₁ = record k { ticks = k.ticks + 1 } in
    let (k', e, w) = wake_loop_lem (k.lists timer_sleep_list) k₁ p refl r s in
    (
      thread_tick k',
      rw e refl,
      record { asleep = w.asleep; in_ready = w.in_ready; status = w.status },
    )
