-- ===== src/Threads/Donate/Law.antt =====
-- The priorities of threads and locks round a donation by `donate_pri_acquire` of
-- src/threads/synch.c, and how many rounds its loop takes.
use qba.Prelude.{
  ℕ, zero, suc, ◌≤◌, ◌<◌, ◌≡◌, ◌≢◌, refl, arith, Option, none, some, ltb, dec_le, ap, ◌⊎◌, inl, inr,
  count_below, count_below-drop, count_below-le, Option-cases,
}
use qba.Prelude.Outcome.{ok}
use qba.Threads.Types.{Kernel, set_e_pri}
use qba.Threads.Donate.{
  raise_lock, raise_thread, Round, finish, climb, climb_from, after_lock, donate_round, donate,
  donate_pri_acquire,
}
use qba.Threads.Donate.Chain.{
  Queues, Locks, e_pri_of, pri_of, lock_raised, raise_lock-ok, lock_raised-Queues,
  lock_raised-Locks, thread_raised, raise_thread-ok, thread_raised-Queues, thread_raised-Locks,
  requeued,
}

abbrev pub WaitsFor : Kernel → ℕ → ℕ → Type 0
WaitsFor k t l = (k.thread t).donated_for ≡ some l

abbrev pub HeldBy : Kernel → ℕ → ℕ → Type 0
HeldBy k l h = (k.lock l).holder ≡ some h

-- What holds of the queues, the locks and the priorities. `n` bounds the addresses of the locks
-- that are waited for, and each of these has a holder. The wait of `except` is left out.
pub record Donating (n : ℕ) (k : Kernel) (except : Option ℕ) : Type 0 where
  pub queues : Queues k
  pub locks : Locks k
  pub alive : (t l : ℕ) → WaitsFor k t l → (l < n) × ((h : ℕ) × HeldBy k l h)
  pub waits :
      (t l h : ℕ) → except ≢ some t → WaitsFor k t l → HeldBy k l h → e_pri_of k t ≤ pri_of k l
  pub held : (l h : ℕ) → HeldBy k l h → pri_of k l ≤ e_pri_of k h

abbrev pub Donated : ℕ → Kernel → Type 0
Donated n k = Donating n k none

pub requeued-thread : (t : ℕ) (o : Option ℕ) (k : Kernel) → (requeued t o k).thread ≡ k.thread
requeued-thread t none k = refl
requeued-thread t (some q) k = refl

pub requeued-lock : (t : ℕ) (o : Option ℕ) (k : Kernel) → (requeued t o k).lock ≡ k.lock
requeued-lock t none k = refl
requeued-lock t (some q) k = refl

requeued-current : (t : ℕ) (o : Option ℕ) (k : Kernel) → (requeued t o k).current ≡ k.current
requeued-current t none k = refl
requeued-current t (some q) k = refl

-- How many locks below `n` have a priority under `p`.
pub lower_locks : ℕ → ℕ → Kernel → ℕ
lower_locks n p k = count_below (λ l. ltb (pri_of k l) p) n

-- What a round leaves behind.
abbrev Progress : ℕ → ℕ → Kernel → Round → Type 0
Progress n p k r =
    ((k' : Kernel) × (r ≡ finish (ok k')) × Donated n k')
    ⊎ ((d : ℕ) × (m : ℕ) × (k' : Kernel) × (r ≡ climb d m k')
        × Donating n k' (some d)
        × WaitsFor k' d m
        × (e_pri_of k' d ≡ p)
        × (e_pri_of k' k'.current ≡ p)
        × (lower_locks n p k' < lower_locks n p k))

module _ {n : ℕ} {k : Kernel} {donor l h : ℕ} (v : Donating n k (some donor)) (own : HeldBy k l h)
    (wait : WaitsFor k donor l) (p : ℕ) (same : e_pri_of k donor ≡ p) (low : pri_of k l < p) where
  abbrev k₁ : Kernel
  k₁ = lock_raised h l p k

  queues₁ : Queues k₁
  queues₁ = lock_raised-Queues h l p k v.queues

  locks₁ : Locks k₁
  locks₁ = lock_raised-Locks h l p k own v.locks

  -- The holder has the priority already.
  stop_lem : p ≤ e_pri_of k h → Donated n k₁
  stop_lem le = record {
    queues = queues₁;
    locks = locks₁;
    alive = λ t m w. ground (arith, v.alive t m);
    waits = λ t m g ne w o. ground (arith, v.waits t m g);
    held = λ m g o. ground (arith, v.held m g);
  }

  module _ (less : e_pri_of k h < p) (away : h ≢ k.current) where
    abbrev k₂ : Kernel
    k₂ = thread_raised h p k₁

    thread_lem : (t : ℕ) → k₂.thread t ≡ (set_e_pri k₁ h p).thread t
    thread_lem t = ap (λ f. f t) (requeued-thread h (k₁.thread h).queue (set_e_pri k₁ h p))

    lock_lem : (m : ℕ) → k₂.lock m ≡ k₁.lock m
    lock_lem m = ap (λ f. f m) (requeued-lock h (k₁.thread h).queue (set_e_pri k₁ h p))

    current_lem : k₂.current ≡ k.current
    current_lem = requeued-current h (k₁.thread h).queue (set_e_pri k₁ h p)

    ok_lem : raise_thread h p k₁ ≡ ok k₂
    ok_lem = raise_thread-ok h p k₁ queues₁ away {l = l} (ground arith)

    -- The holder takes the priority: what it waits for in turn is left to do.
    go_lem :
        (except : Option ℕ) → ((m : ℕ) → WaitsFor k h m → except ≡ some h) → Donating n k₂ except
    go_lem except left = record {
      queues = thread_raised-Queues h p k₁ queues₁ (ground arith) {l = l} (ground arith);
      locks = thread_raised-Locks h p k₁ queues₁ (ground arith) {l = l} (ground arith) locks₁;
      alive = λ t m w.
          let (lt, (g, o)) = v.alive t m (ground (arith, thread_lem t)) in
          (lt, (g, ground (arith, lock_lem m)));
      waits = λ t m g ne w o. ground (arith, thread_lem t, lock_lem m, v.waits t m g, left m);
      held = λ m g o. ground (arith, thread_lem g, lock_lem m, v.held m g);
    }

    fewer : l < n → lower_locks n p k₂ < lower_locks n p k
    unfolding lower_locks
    fewer lt = omega (
      arith,
      count_below-drop (λ m. ltb (pri_of k m) p) (λ m. ltb (pri_of k₂ m) p) l n
          (λ m ne. ground (arith, lock_lem m)) (ground arith) (ground (arith, lock_lem l)) lt,
    )

Donating-weaken :
    {n : ℕ} {k : Kernel} {donor l h : ℕ}
    → Donating n k (some donor)
    → WaitsFor k donor l
    → HeldBy k l h
    → e_pri_of k donor ≤ pri_of k l
    → Donated n k
Donating-weaken {n} {k} {donor} {l} {h} v wait own le = record {
  queues = v.queues;
  locks = v.locks;
  alive = v.alive;
  waits = λ t m g ne w o. ground (arith, v.waits t m g);
  held = v.held;
}

-- The holder's priority rises, and the round ends there or goes on to what the holder waits for.
round_up :
    {n : ℕ} {k : Kernel} (donor l h p : ℕ)
    → Donating n k (some donor)
    → WaitsFor k donor l
    → HeldBy k l h
    → e_pri_of k donor ≡ p
    → e_pri_of k k.current ≡ p
    → pri_of k l < p
    → e_pri_of k h < p
    → l < n
    → ((k.thread h).donated_for ≡ none) ⊎ ((m : ℕ) × WaitsFor k h m)
    → Progress n p k (donate_round donor l (some h) k)
unfolding donate_round after_lock climb_from
round_up {n} {k} donor l h p v wait own same top low less lt cases = elim cases [
  | inl nobody ↦
      inl (k', ground (arith, lock_raises, to_k', at h, nobody), go none (λ m w. ground arith))
  | inr (m, next) ↦ inr (
    h,
    m,
    k',
    ground (arith, lock_raises, to_k', at h, next),
    go (some h) (λ m w. refl),
    ground (arith, at h, next),
    ground (arith, at h),
    ground (arith, at k.current, now),
    fewer {donor = donor} {l = l} {h = h} v own wait p same low less away lt,
  )
]
  where
    away : h ≢ k.current
    away e = ground arith

    k' : Kernel
    k' = k₂ {donor = donor} {l = l} {h = h} v own wait p same low less away

    go : (except : Option ℕ) → ((m : ℕ) → WaitsFor k h m → except ≡ some h) → Donating n k' except
    go = go_lem {donor = donor} {l = l} {h = h} v own wait p same low less away

    at : (t : ℕ) → k'.thread t ≡ (set_e_pri (lock_raised h l p k) h p).thread t
    at = thread_lem {donor = donor} {l = l} {h = h} v own wait p same low less away

    now : k'.current ≡ k.current
    now = current_lem {donor = donor} {l = l} {h = h} v own wait p same low less away

    lock_raises : raise_lock h l p k ≡ ok (lock_raised h l p k)
    lock_raises = raise_lock-ok h l p k (v.locks.holds l h own)

    to_k' : raise_thread h p (lock_raised h l p k) ≡ ok k'
    to_k' = ok_lem {donor = donor} {l = l} {h = h} v own wait p same low less away

-- One round either ends in a state where every donation has arrived, or goes up to the next donor
-- with one lock fewer to raise.
round_lem :
    {n : ℕ} {k : Kernel} (donor l h p : ℕ)
    → Donating n k (some donor)
    → WaitsFor k donor l
    → HeldBy k l h
    → e_pri_of k donor ≡ p
    → e_pri_of k k.current ≡ p
    → Progress n p k (donate_round donor l (some h) k)
unfolding donate_round after_lock climb_from
round_lem {n} {k} donor l h p v wait own same top = elim (dec_le p (pri_of k l)) [
  | yes le ↦
      inl
        (k, ground arith, Donating-weaken {donor = donor} {l = l} {h = h} v wait own (omega arith))
  | no gt ↦ elim (dec_le p (e_pri_of k h)) [
    | yes le ↦ inl (
      lock_raised h l p k,
      ground (arith, raise_lock-ok h l p k (v.locks.holds l h own)),
      stop_lem {donor = donor} {l = l} {h = h} v own wait p same (omega arith) le,
    )
    | no less ↦
        round_up donor l h p v wait own same top (omega arith) (omega arith)
          (v.alive donor l wait).0 (Option-cases (k.thread h).donated_for)
  ]
]

-- With as much fuel as there are locks to raise, and one, the loop ends, halts nowhere, and every
-- donation has arrived.
donate_lem :
    (fuel : ℕ) {n : ℕ} {k : Kernel} (donor l p : ℕ)
    → Donating n k (some donor)
    → WaitsFor k donor l
    → e_pri_of k donor ≡ p
    → e_pri_of k k.current ≡ p
    → lower_locks n p k < fuel
    → (k' : Kernel) × (donate fuel donor l k ≡ some (ok k')) × Donated n k'
unfolding donate
donate_lem zero donor l p v wait same top h = absurd (omega arith)
donate_lem (suc fuel) {n} {k} donor l p v wait same top lt =
    let (in_range, (h, own)) = v.alive donor l wait in
    elim (round_lem donor l h p v wait own same top) [
      | inl (k', e, done) ↦ (k', ground (arith, own, e), done)
      | inr (d, m, k', e, v', wait', same', top', fall) ↦
          let (k'', e', done) =
            donate_lem fuel {n = n} {k = k'} d m p v' wait' same' top' (omega arith) in
          (k'', ground (arith, own, e, e'), done)
    ]

-- From a state where the queues of threads and locks are in order (holders of locks do not sleep on
-- the timer, and those that do not run are in the list that their `queue` points to), every lock that
-- is waited for has a holder, and all donations but that of the running thread have arrived,
-- `donate_pri_acquire` of the running thread,
-- which waits for a lock, ends and does not halt the machine. After it no thread waits for a held lock
-- whose priority is below its own, no lock has a priority above its holder's, and the queues are in
-- order.
pub donate_pri_acquire_lem :
    {k : Kernel} (l : ℕ)
    → Donating k.lock_cnt k (some k.current)
    → WaitsFor k k.current l
    → (k' : Kernel) × (donate_pri_acquire k.current l k ≡ ok k') × Donated k.lock_cnt k'
unfolding donate_pri_acquire
donate_pri_acquire_lem {k} l v wait =
    let (k', e, done) =
      donate_lem (suc k.lock_cnt) {n = k.lock_cnt} {k = k} k.current l (e_pri_of k k.current) v wait
        refl refl (unfold lower_locks in omega (arith, count_below-le _ k.lock_cnt)) in
    (k', rw e refl, done)

-- `h` holds a lock that `t` waits for, or one that such a holder waits for, and so on.
pub data Blocks (k : Kernel) (t : ℕ) : ℕ → Type 0 where
  direct : {l h : ℕ} → WaitsFor k t l → HeldBy k l h → Blocks k t h
  through : {l g h : ℕ} → Blocks k t g → WaitsFor k g l → HeldBy k l h → Blocks k t h

-- Where every donation has arrived, no thread in the chain of holders that a thread waits for has
-- an effective priority below that of the thread.
Blocks-e_pri-le :
    {n : ℕ} {k : Kernel} {t h : ℕ} → Donated n k → Blocks k t h → e_pri_of k t ≤ e_pri_of k h
Blocks-e_pri-le {n} {k} {t} {h} v (direct {l} w o) =
    omega (arith, v.waits t l h (λ e. cc) w o, v.held l h o)
Blocks-e_pri-le {n} {k} {t} {h} v (through {l} {g} c w o) =
    omega (arith, Blocks-e_pri-le v c, v.waits g l h (λ e. cc) w o, v.held l h o)

-- From a state where the queues of threads and locks are in order, every lock that is waited for has a
-- holder, and all donations but that of the running thread have arrived, `donate_pri_acquire` of the
-- running thread, which waits for a lock, ends and does not halt the machine. After it, no thread in
-- the chain of holders that any thread waits for has an effective priority below that of the thread,
-- however long the chain is. Holders of locks may not sleep on the timer before it.
pub donate_pri_acquire-Blocks :
    {k : Kernel} (l : ℕ)
    → Donating k.lock_cnt k (some k.current)
    → WaitsFor k k.current l
    → (k' : Kernel) × (donate_pri_acquire k.current l k ≡ ok k')
      × ((t h : ℕ) → Blocks k' t h → e_pri_of k' t ≤ e_pri_of k' h)
donate_pri_acquire-Blocks {k} l v wait =
    let (k', e, done) = donate_pri_acquire_lem {k = k} l v wait in
    (k', e, λ t h c. Blocks-e_pri-le {n = k.lock_cnt} {k = k'} {t = t} {h = h} done c)
