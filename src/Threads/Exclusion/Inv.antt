-- ===== src/Threads/Exclusion/Inv.antt =====
-- The invariant behind mutual exclusion, and the scheduler and the donation of src/threads/synch.c
-- under it.
use qba.Prelude.{
  ℕ, zero, suc, ◌≤◌, ◌≡◌, refl, sym, ap, ◌∙◌, subst, Bool, true, false, arith, Option, none, some,
  leb, if◌then◌else◌,
}
use qba.Prelude.Outcome.{
  Outcome, ok, panic, undefined, Ensures, returns, halts, strays, Ensures-map, Ensures-ok,
}
use qba.Threads.Order.{Falls, Falls-ext, mem}
use qba.Threads.Types.{Kernel, lock_releasing, set_e_pri}
use qba.Threads.Donate.{
  raise_lock, requeue, raise_thread, Round, finish, climb, climb_from, after_lock, donate_round,
  donate, donate_pri_acquire, or_undefined,
}
use qba.Threads.Donate.Chain.{Locks, pri_of, lock_raised, raise_lock-ok, lock_raised-Locks}
use qba.Threads.Exclusion.Same.{Same, Same-refl}

abbrev pub value_of : Kernel → ℕ → ℕ
value_of k l = (k.sema (k.lock l).semaphore).value

abbrev pub Releases : Kernel → ℕ → ℕ → Type 0
Releases k t l = (k.thread t).frame ≡ lock_releasing l

-- Each lock has a semaphore of its own, which is 1 at most and 0 while the lock is held or while a
-- thread is between the two parts of its release; no two threads are there for one lock.
pub record Excl (k : Kernel) : Type 0 where
  pub locks : Locks k
  pub distinct : (l m : ℕ) → (k.lock l).semaphore ≡ (k.lock m).semaphore → l ≡ m
  pub one : (l : ℕ) → value_of k l ≤ 1
  pub held : (l h : ℕ) → (k.lock l).holder ≡ some h → value_of k l ≡ 0
  pub free : (t l : ℕ) → Releases k t l → (k.lock l).holder ≡ none
  pub pending : (t l : ℕ) → Releases k t l → value_of k l ≡ 0
  pub sole : (t u l : ℕ) → Releases k t l → Releases k u l → t ≡ u

-- What the invariant, apart from the lock queues, reads.
pub record Alike (k k' : Kernel) : Type 0 where
  pub holder : (l : ℕ) → (k'.lock l).holder ≡ (k.lock l).holder
  pub semaphore : (l : ℕ) → (k'.lock l).semaphore ≡ (k.lock l).semaphore
  pub value : (s : ℕ) → (k'.sema s).value ≡ (k.sema s).value
  pub frame : (t : ℕ) → (k'.thread t).frame ≡ (k.thread t).frame

pub Alike-trans : {k k' k'' : Kernel} → Alike k k' → Alike k' k'' → Alike k k''
Alike-trans a b = record {
  holder = λ l. b.holder l ∙ a.holder l;
  semaphore = λ l. b.semaphore l ∙ a.semaphore l;
  value = λ s. b.value s ∙ a.value s;
  frame = λ t. b.frame t ∙ a.frame t;
}

pub value-Alike : {k k' : Kernel} → Alike k k' → (l : ℕ) → value_of k' l ≡ value_of k l
value-Alike {k} {k'} a l =
    a.value (k'.lock l).semaphore ∙ ap (λ s. (k.sema s).value) (a.semaphore l)

pub Excl-Alike : {k k' : Kernel} → Alike k k' → Locks k' → Excl k → Excl k'
Excl-Alike {k} {k'} a w v = record {
  locks = w;
  distinct = λ l m e. v.distinct l m (sym (a.semaphore l) ∙ e ∙ a.semaphore m);
  one = λ l. ground (arith, value-Alike a l, v.one l);
  held = λ l h e. value-Alike a l ∙ v.held l h (sym (a.holder l) ∙ e);
  free = λ t l e. a.holder l ∙ v.free t l (sym (a.frame t) ∙ e);
  pending = λ t l e. value-Alike a l ∙ v.pending t l (sym (a.frame t) ∙ e);
  sole = λ t u l e f. v.sole t u l (sym (a.frame t) ∙ e) (sym (a.frame u) ∙ f);
}

pub Same-Alike : {k k' : Kernel} → Same k k' → Alike k k'
Same-Alike a = record {
  holder = λ l. ap (λ x. x.holder) (a.lock l);
  semaphore = λ l. ap (λ x. x.semaphore) (a.lock l);
  value = λ s. ap (λ x. x.value) (a.sema s);
  frame = λ t. a.frame t;
}

-- The lock queues are kept where the locks and their places in them are.
pub Locks-same :
    {k k' : Kernel}
    → ((l : ℕ) → (k'.lock l).holder ≡ (k.lock l).holder)
    → ((l : ℕ) → pri_of k' l ≡ pri_of k l)
    → ((t : ℕ) → (k'.thread t).lock_queue ≡ (k.thread t).lock_queue)
    → Locks k
    → Locks k'
Locks-same {k} {k'} a b c w = record {
  holds = λ l h e. ap (mem l) (c h) ∙ w.holds l h (sym (a l) ∙ e);
  owned = λ l h e. a l ∙ w.owned l h (ap (mem l) (sym (c h)) ∙ e);
  falls = λ h.
      Falls-ext (pri_of k) (pri_of k') (k'.thread h).lock_queue b
        (subst (Falls (pri_of k)) (sym (c h)) (w.falls h));
}

pub Excl-Same : {k k' : Kernel} → Excl k → Same k k' → Excl k'
Excl-Same v a =
    Excl-Alike (Same-Alike a)
      (Locks-same (λ l. ap (λ x. x.holder) (a.lock l)) (λ l. ap (λ x. x.pri) (a.lock l))
        a.lock_queue v.locks)
      v

-- A donation.
raise_lock-Excl :
    (donee l p : ℕ) (k : Kernel)
    → (k.lock l).holder ≡ some donee
    → Excl k
    → Ensures Excl (raise_lock donee l p k)
raise_lock-Excl donee l p k own v =
    subst (Ensures Excl) (sym (raise_lock-ok donee l p k (v.locks.holds l donee own))) (
      returns (lock_raised donee l p k)
        (Excl-Alike alike (lock_raised-Locks donee l p k own v.locks) v))
  where
    alike : Alike k (lock_raised donee l p k)
    alike = record {
      holder = λ m. ground arith;
      semaphore = λ m. ground arith;
      value = λ s. refl;
      frame = λ t. ground arith;
    }

may : {k k' : Kernel} (b : Bool) → Same k k' → Ensures (Same k) (if b then ok k' else undefined)
may {k' = k'} true a = returns k' a
may false a = strays

requeue-Same : (t : ℕ) (o : Option ℕ) (k : Kernel) → Ensures (Same k) (requeue t o k)
unfolding requeue
requeue-Same t none k = returns k (Same-refl k)
requeue-Same t (some q) k =
    may (mem t (k.lists q))
      (record { lock = λ l. refl; sema = λ s. refl; lock_queue = λ t. refl; frame = λ t. refl })

raise_thread-Excl : (donee p : ℕ) (k : Kernel) → Excl k → Ensures Excl (raise_thread donee p k)
unfolding raise_thread
raise_thread-Excl donee p k v =
    Ensures-map (requeue-Same donee (k.thread donee).queue (set_e_pri k donee p))
      (λ k' a. Excl-Same (Excl-Same v raised) a)
  where
    raised : Same k (set_e_pri k donee p)
    raised = record {
      lock = λ l. refl;
      sema = λ s. refl;
      lock_queue = λ t. ground arith;
      frame = λ t. ground arith;
    }

-- What a round may leave.
data Rounded : Round → Type 0 where
  finished : {m : Outcome Kernel} → Ensures Excl m → Rounded (finish m)
  climbs : {d l : ℕ} {k : Kernel} → Excl k → Rounded (climb d l k)

climb_from-Excl : (donee : ℕ) (m : Outcome Kernel) → Ensures Excl m → Rounded (climb_from donee m)
unfolding climb_from
climb_from-Excl donee (ok k) h = next (k.thread donee).donated_for
  where
    next : (o : Option ℕ) → Rounded (elim o [ none ↦ finish (ok k) | some l ↦ climb donee l k ])
    next none = finished h
    next (some l) = climbs (Ensures-ok h refl)
climb_from-Excl donee panic h = finished halts
climb_from-Excl donee undefined h = finished strays

after_lock-Excl :
    (donee p : ℕ) (m : Outcome Kernel) → Ensures Excl m → Rounded (after_lock donee p m)
unfolding after_lock
after_lock-Excl donee p (ok k) h = branch (leb p (k.thread donee).e_pri)
  where
    branch :
        (b : Bool)
        → Rounded (if b then finish (ok k) else climb_from donee (raise_thread donee p k))
    branch true = finished h
    branch false = climb_from-Excl donee _ (raise_thread-Excl donee p k (Ensures-ok h refl))
after_lock-Excl donee p panic h = finished halts
after_lock-Excl donee p undefined h = finished strays

donate_round-Excl :
    (donor l : ℕ) (o : Option ℕ) (k : Kernel)
    → (k.lock l).holder ≡ o
    → Excl k
    → Rounded (donate_round donor l o k)
unfolding donate_round
donate_round-Excl donor l none k e v = finished halts
donate_round-Excl donor l (some donee) k e v = branch (leb (k.thread donor).e_pri (k.lock l).pri)
  where
    branch :
        (b : Bool)
        → Rounded (
            if b
            then finish (ok k)
            else after_lock donee
                (k.thread donor).e_pri
                (raise_lock donee l (k.thread donor).e_pri k))
    branch true = finished (returns k v)
    branch false = after_lock-Excl donee _ _ (raise_lock-Excl donee l _ k e v)

rest-Excl :
    (go : ℕ → ℕ → Kernel → Option (Outcome Kernel)) (r : Round)
    → ((d m : ℕ) (k : Kernel) → Excl k → Ensures Excl (or_undefined (go d m k)))
    → Rounded r
    → Ensures Excl (or_undefined (elim r [ finish m ↦ some m | climb d m k' ↦ go d m k' ]))
rest-Excl go (finish m) ih (finished h) = h
rest-Excl go (climb d m k') ih (climbs w) = ih d m k' w

donate-Excl :
    (fuel donor l : ℕ) (k : Kernel) → Excl k → Ensures Excl (or_undefined (donate fuel donor l k))
unfolding donate
donate-Excl zero donor l k v = strays
donate-Excl (suc fuel) donor l k v =
    rest-Excl (donate fuel) (donate_round donor l (k.lock l).holder k)
      (λ d m k' w. donate-Excl fuel d m k' w) (donate_round-Excl donor l (k.lock l).holder k refl v)

pub donate_pri_acquire-Excl :
    (self l : ℕ) (k : Kernel) → Excl k → Ensures Excl (donate_pri_acquire self l k)
unfolding donate_pri_acquire
donate_pri_acquire-Excl self l k v = donate-Excl (suc k.lock_cnt) self l k v
