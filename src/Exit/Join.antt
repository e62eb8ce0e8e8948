-- ===== src/Exit/Join.antt =====
-- `pthread_join` of a thread that has exited.
use qba.Prelude.{
  ℕ, ◌≡◌, ◌≢◌, refl, sym, ap, ℕ_discrete, true, false, Option, none, some, List, [], ◌∷◌, arith,
  subst, ◌∙◌,
}
use qba.Prelude.Outcome.{ok}
use qba.Threads.Order.{remove, mem}
use qba.Threads.Types.{zombie}
use qba.Exit.{Proc, set_thread, Found, join_search, join_wait, join_take, points_to}
use qba.Exit.Kernel.{equal, unequal}

at_front :
    (u : ℕ) (p : Proc) (ts : List ℕ)
    → u ≢ p.main_thread
    → (p.thread u).joined_by ≡ none
    → (p.thread u).status ≡ zombie
    → join_search (p.thread u).tid (u ∷ ts) p
      ≡ some (record { pos = u; is_main = false; block_wait = false })
unfolding join_search
at_front u p ts ne j z =
    rw (equal (p.thread u).tid (p.thread u).tid refl, j, z, unequal u p.main_thread ne) refl

join_search_found :
    (u : ℕ) (ts : List ℕ) (p : Proc)
    → mem u ts ≡ true
    → ((x : ℕ) → mem x ts ≡ true → (p.thread x).tid ≡ (p.thread u).tid → x ≡ u)
    → u ≢ p.main_thread
    → (p.thread u).joined_by ≡ none
    → (p.thread u).status ≡ zombie
    → join_search (p.thread u).tid ts p
      ≡ some (record { pos = u; is_main = false; block_wait = false })
unfolding join_search mem
join_search_found u [] p m one ne j z = cc
join_search_found u (t ∷ ts) p m one ne j z = elim (ℕ_discrete t u) [
  | yes e ↦
      subst
        (λ v.
          join_search (p.thread u).tid (v ∷ ts) p
          ≡ some (record { pos = u; is_main = false; block_wait = false }))
        (sym e) (at_front u p ts ne j z)
  | no other ↦
      rw (unequal (p.thread t).tid (p.thread u).tid (λ e. other (one t (ground arith) e))) (
        join_search_found u ts p (ground (arith, m, unequal u t (λ e. other (sym e))))
          (λ x h. one x (ground (arith, h))) ne j z)
]

not_pointing : (o : Option ℕ) (u : ℕ) → o ≢ some u → points_to o u ≡ false
not_pointing none u ne = refl
not_pointing (some s) u ne = unequal s u (λ e. ne (ap some e))

join_search_joined :
    (u t : ℕ) (ts : List ℕ) (p : Proc)
    → ((x : ℕ) → mem x ts ≡ true → (p.thread x).tid ≡ (p.thread u).tid → x ≡ u)
    → (p.thread u).joined_by ≡ some t
    → join_search (p.thread u).tid ts p ≡ none
unfolding join_search mem
join_search_joined u t [] p one j = refl
join_search_joined u t (x ∷ ts) p one j = elim (ℕ_discrete (p.thread x).tid (p.thread u).tid) [
  | yes e ↦
      rw
        (
          equal (p.thread x).tid (p.thread u).tid e,
          ap (λ y. (p.thread y).joined_by) (one x (ground arith) e) ∙ j,
        )
        refl
  | no ne ↦
      rw (unequal (p.thread x).tid (p.thread u).tid ne)
        (join_search_joined u t ts p (λ y h. one y (ground (arith, h))) j)
]

-- In a process whose threads differ in their identifiers, a join of one that has exited, that nobody has joined and that is neither the
-- caller, nor the caller's joiner, nor the main thread, does not block: it answers the thread's
-- identifier and takes the thread out of the list. A second join of it fails, even before the thread
-- has been taken out of the list.
pub pthread_join_lem :
    (t u : ℕ) (p : Proc)
    → mem u p.threads ≡ true
    → ((x : ℕ) → mem x p.threads ≡ true → (p.thread x).tid ≡ (p.thread u).tid → x ≡ u)
    → t ≢ u
    → u ≢ p.main_thread
    → (p.thread u).joined_by ≡ none
    → (p.thread u).status ≡ zombie
    → (p.thread t).joined_by ≢ some u
    → (f : Found) × (p₁ : Proc) × (p₂ : Proc) × (join_search (p.thread u).tid p.threads p ≡ some f)
      × (join_wait t f p ≡ some (false, p₁))
      × (join_take f p₁ ≡ ok ((p.thread u).tid, p₂))
      × (p₂.threads ≡ remove u p.threads)
      × (join_search (p.thread u).tid p₁.threads p₁ ≡ none)
unfolding join_wait join_take
pthread_join_lem t u p m one tu um j z jt =
    let p₁ : Proc = set_thread p u (record (p.thread u) { joined_by = some t }) in
    let tid_same : (x : ℕ) → (p₁.thread x).tid ≡ (p.thread x).tid = λ x. ground arith in
    (
      record { pos = u; is_main = false; block_wait = false },
      p₁,
      record p₁ { threads = remove u p.threads },
      join_search_found u p.threads p m one um j z,
      rw (unequal t u tu, not_pointing (p.thread t).joined_by u jt) refl,
      ground (arith, z, tid_same u),
      refl,
      ap (λ n. join_search n p.threads p₁) (sym (tid_same u))
          ∙ join_search_joined u t p.threads p₁
              (λ x h e. one x h (sym (tid_same x) ∙ e ∙ tid_same u)) (ground arith),
    )
