-- ===== src/Threads/Exclusion/Release.antt =====
-- The invariant behind mutual exclusion under the two parts of `lock_release` and under `sema_up`
-- (src/threads/synch.c).
use qba.Prelude.{
  ℕ, ◌+◌, ◌≡◌, ◌≢◌, refl, sym, ap, ◌∙◌, subst, true, false, arith, Option, none, some, List, ◌==◌,
  if◌then◌else◌, ℕ_discrete,
}
use qba.Prelude.Outcome.{Ensures, returns, Ensures-bind, Ensures-map}
use qba.Threads.Order.{Falls, Falls-remove, Falls-same, mem, remove, mem-remove}
use qba.Threads.Types.{Kernel, Frame, lock_releasing, set_frame, set_thread, set_lock, set_sema}
use qba.Threads.Donate.Chain.{pri_of}
use qba.Threads.Sync.{
  sema_up, lock_held_by_current_thread, priority_left, lock_dropped, lock_up, inc_int8,
}
use qba.Threads.Exclusion.Same.{Same, wake_front-Same, yield_to-Same}
use qba.Threads.Exclusion.Moves.{set_frame-Excl}
use qba.Threads.Exclusion.Inv.{
  Excl, Excl-Same, Locks-same, value_of, Releases, value-Alike, Same-Alike,
}

-- The first part of a release, by the holder.
module _ (k : Kernel) (l : ℕ) (v : Excl k) (own : (k.lock l).holder ≡ some k.current) where
  abbrev pub rest : List ℕ
  rest = remove l (k.thread k.current).lock_queue

  abbrev pub dropped : Kernel
  dropped =
      let k₁ =
        set_lock k l
          (record (k.lock l) { holder = none; pri = 0; state = inc_int8 (k.lock l).state }) in
      set_thread k₁ k.current (record (k.thread k.current) {
        lock_queue = rest;
        e_pri = priority_left (k.thread k.current) k₁.lock rest;
        frame = lock_releasing l;
      })

  rest-members :
      (m : ℕ) → mem m rest ≡ (if m == l then false else mem m (k.thread k.current).lock_queue)
  rest-members m =
      mem-remove (pri_of k) l m (k.thread k.current).lock_queue (v.locks.falls k.current)

  elsewhere : (h : ℕ) → k.current ≢ h → mem l (k.thread h).lock_queue ≡ false
  elsewhere h ne = ground (arith, v.locks.owned l h)

  dropped-Falls : (h : ℕ) → Falls (pri_of dropped) (dropped.thread h).lock_queue
  dropped-Falls h = elim (ℕ_discrete k.current h) [
    | yes e ↦ subst (λ h. Falls (pri_of dropped) (dropped.thread h).lock_queue) e here
    | no ne ↦ there ne
  ]
    where
      here : Falls (pri_of dropped) (dropped.thread k.current).lock_queue
      here = ground (
        arith,
        Falls-same (pri_of k) (pri_of dropped) l rest (λ y ne. ground arith)
            (ground (arith, rest-members l))
            (Falls-remove (pri_of k) l (k.thread k.current).lock_queue (v.locks.falls k.current)),
      )

      there : k.current ≢ h → Falls (pri_of dropped) (dropped.thread h).lock_queue
      there ne = ground (
        arith,
        Falls-same (pri_of k) (pri_of dropped) l (k.thread h).lock_queue (λ y ne. ground arith)
            (elsewhere h ne) (v.locks.falls h),
      )

  pub dropped-Excl : Excl dropped
  dropped-Excl = record {
    locks = record {
      holds = λ m h e. ground (arith, rest-members m, v.locks.holds m h);
      owned = λ m h e. ground (arith, rest-members m, v.locks.owned m h, elsewhere h);
      falls = dropped-Falls;
    };
    distinct = λ m n e. v.distinct m n (ground arith);
    one = λ m. ground (arith, v.one m);
    held = λ m h e. ground (arith, v.held m h);
    free = λ t m e. ground (arith, v.free t m);
    pending = λ t m e. ground (arith, v.pending t m, v.held l k.current own);
    sole = λ t u m e f. ground (arith, v.sole t u m, v.free t m, v.free u m);
  }

pub lock_dropped-Excl :
    (l : ℕ) (k : Kernel)
    → Excl k
    → lock_held_by_current_thread l k ≡ true
    → Ensures
        (λ k'. Excl k' × Releases k' k.current l × (k'.current ≡ k.current))
        (lock_dropped l k)
unfolding lock_dropped lock_held_by_current_thread
lock_dropped-Excl l k v e =
    rw (v.locks.holds l k.current own)
      (returns (dropped k l v own) (dropped-Excl k l v own, ground arith, refl))
  where
    own : (k.lock l).holder ≡ some k.current
    own = ground arith

-- A semaphore that no lock uses, or that of a lock that nobody holds or releases, may go up.
upped-Excl :
    (s : ℕ) (k : Kernel)
    → Excl k
    → ((l : ℕ)
        → (k.lock l).semaphore ≡ s
        → (value_of k l ≡ 0) × ((k.lock l).holder ≡ none) × ((t : ℕ) → ¬ Releases k t l))
    → Excl (set_sema k s (record (k.sema s) { value = (k.sema s).value + 1 }))
upped-Excl s k v clear = record {
  locks = Locks-same {k = k} (λ l. refl) (λ l. refl) (λ t. refl) v.locks;
  distinct = v.distinct;
  one = λ l. elim (ℕ_discrete (k.lock l).semaphore s) [
    | yes e ↦ ground (arith, (clear l e).0)
    | no ne ↦ ground (arith, v.one l)
  ];
  held = λ l h e. elim (ℕ_discrete (k.lock l).semaphore s) [
    | yes z ↦ ground (arith, (clear l z).1)
    | no ne ↦ ground (arith, v.held l h)
  ];
  free = v.free;
  pending = λ t l e. elim (ℕ_discrete (k.lock l).semaphore s) [
    | yes z ↦ absurd ((clear l z).2 t e)
    | no ne ↦ ground (arith, v.pending t l e)
  ];
  sole = v.sole;
}

pub sema_up-Excl :
    (s : ℕ) (k : Kernel)
    → Excl k
    → ((l : ℕ)
        → (k.lock l).semaphore ≡ s
        → (value_of k l ≡ 0) × ((k.lock l).holder ≡ none) × ((t : ℕ) → ¬ Releases k t l))
    → Ensures Excl (sema_up s k)
unfolding sema_up
sema_up-Excl s k v clear =
    Ensures-bind (λ (r : Option ℕ × Kernel). Same k r.1) (wake_front-Same _ _ k)
      λ r a.
        Ensures-map (yield_to-Same r.0 _)
          (λ k' b. Excl-Same (upped-Excl s r.1 (Excl-Same v a) (still r.1 a)) b)
  where
    still :
        (k₁ : Kernel)
        → Same k k₁
        → (l : ℕ) → (k₁.lock l).semaphore ≡ s
        → (value_of k₁ l ≡ 0) × ((k₁.lock l).holder ≡ none) × ((t : ℕ) → ¬ Releases k₁ t l)
    still k₁ a l e =
        let (p, q, r) = clear l (sym (ap (λ x. x.semaphore) (a.lock l)) ∙ e) in
        (
          value-Alike (Same-Alike a) l ∙ p,
          ap (λ x. x.holder) (a.lock l) ∙ q,
          λ t z. r t (sym (a.frame t) ∙ z),
        )

pub lock_up-Excl :
    (l : ℕ) (f : Frame) (k : Kernel)
    → ((m : ℕ) → f ≢ lock_releasing m)
    → Releases k k.current l
    → Excl k
    → Ensures Excl (lock_up l f k)
unfolding lock_up
lock_up-Excl l f k away e v =
    sema_up-Excl (k.lock l).semaphore (set_frame k k.current f)
      (set_frame-Excl k.current f k away v) λ m z. clear m (v.distinct m l z)
  where
    clear :
        (m : ℕ)
        → m ≡ l
        → (value_of k m ≡ 0)
          × ((k.lock m).holder ≡ none)
          × ((t : ℕ) → ¬ Releases (set_frame k k.current f) t m)
    clear m z = (
      ground (arith, v.pending k.current l e),
      ground (arith, v.free k.current l e),
      λ t r. ground (arith, away m, v.sole k.current t l e),
    )
