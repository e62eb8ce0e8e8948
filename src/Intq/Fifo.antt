-- ===== src/Intq/Fifo.antt =====
-- The ring of src/devices/intq.c against a queue of bytes.
use qba.Prelude.{
  ℕ, ◌+◌, ◌-◌, ◌%◌, ◌<◌, ◌≡◌, ◌≢◌, refl, ap, true, false, ◌⊎◌, none, ◌==◌, update, arith, inl, inr,
  ℕ_discrete,
}
use qba.Prelude.Outcome.{ok, panic, ◌>>=◌}
use qba.Threads.Types.{Kernel}
use qba.Intq.{Intq, intq_bufsize, next_pos, intq_empty, intq_full, signal, intq_getc, intq_putc}

pub record IntqValid (q : Intq) : Type 0 where
  pub head_in : q.head < intq_bufsize
  pub tail_in : q.tail < intq_bufsize

-- How many bytes the queue holds.
abbrev pub count : Intq → ℕ
count q = (q.head + intq_bufsize - q.tail) % intq_bufsize

-- The byte that is `i` places behind the front.
abbrev pub nth : Intq → ℕ → ℕ
nth q i = q.buf ((q.tail + i) % intq_bufsize)

-- The queue `q'` is `q` with a byte more at the back.
pub record Pushed (byte : ℕ) (q q' : Intq) : Type 0 where
  pub valid : IntqValid q'
  pub more : count q' ≡ count q + 1
  pub kept : (i : ℕ) → i < count q → nth q' i ≡ nth q i
  pub last : nth q' (count q) ≡ byte

-- The queue `q'` is `q` without its front.
pub record Popped (q q' : Intq) : Type 0 where
  pub valid : IntqValid q'
  pub fewer : count q' + 1 ≡ count q
  pub moved_up : (i : ℕ) → i < count q' → nth q' i ≡ nth q (i + 1)

is_yes : {a b : ℕ} → a ≡ b → (a == b) ≡ true
is_yes e = ground arith

is_no : {a b : ℕ} → a ≢ b → (a == b) ≡ false
is_no ne = ground arith

-- `intq_putc` by an interrupt handler adds the byte at the back and wakes the thread that waits for
-- one, if any; it halts at once if the queue holds 63 bytes.
pub intq_putc_lem :
    (byte : ℕ) (q : Intq) (k : Kernel)
    → IntqValid q
    → ((count q ≡ 63) × (intq_putc byte q k ≡ panic))
      ⊎ ((count q < 63)
          × ((q' : Intq) × (intq_putc byte q k ≡ (do k' ← signal q.not_empty k; ok (q', k')))
              × Pushed byte q q'))
unfolding intq_putc intq_full
intq_putc_lem byte q k v = elim (ℕ_discrete (next_pos q.head) q.tail) [
  | yes e ↦ inl (omega (arith, v.head_in, v.tail_in, e), rw (is_yes e) refl)
  | no ne ↦ inr (
    omega (arith, v.head_in, v.tail_in, ne),
    (
      record q { buf = update q.buf q.head byte; head = next_pos q.head; not_empty = none },
      rw (is_no ne) refl,
      record {
        valid = record { head_in = omega (arith, v.head_in); tail_in = v.tail_in };
        more = omega (arith, v.head_in, v.tail_in, ne);
        kept = λ i h. ground (arith, distinct i h);
        last = ground (arith, at_head);
      },
    ),
  )
]
  where
    distinct : (i : ℕ) → i < count q → q.head ≢ (q.tail + i) % intq_bufsize
    distinct i h = λ e. omega (arith, v.head_in, v.tail_in, e, h)

    at_head : (q.tail + count q) % intq_bufsize ≡ q.head
    at_head = omega (arith, v.head_in, v.tail_in)

-- `intq_getc` by an interrupt handler answers the byte at the front, takes it out and wakes the
-- thread that waits for room, if any; it halts at once if the queue is empty.
pub intq_getc_lem :
    (q : Intq) (k : Kernel)
    → IntqValid q
    → ((count q ≡ 0) × (intq_getc q k ≡ panic))
      ⊎ ((0 < count q)
          × ((q' : Intq) × (intq_getc q k ≡ (do k' ← signal q.not_full k; ok (nth q 0, q', k')))
              × Popped q q'))
unfolding intq_getc intq_empty
intq_getc_lem q k v = elim (ℕ_discrete q.head q.tail) [
  | yes e ↦ inl (omega (arith, v.head_in, v.tail_in, e), rw (is_yes e) refl)
  | no ne ↦ inr (
    omega (arith, v.head_in, v.tail_in, ne),
    (
      record q { tail = next_pos q.tail; not_full = none },
      rw (is_no ne) (rw front refl),
      record {
        valid = record { head_in = v.head_in; tail_in = omega (arith, v.tail_in) };
        fewer = omega (arith, v.head_in, v.tail_in, ne);
        moved_up = λ i h. ap q.buf (omega (arith, v.tail_in));
      },
    ),
  )
]
  where
    front : q.buf q.tail ≡ nth q 0
    front = ap q.buf (omega (arith, v.tail_in))
