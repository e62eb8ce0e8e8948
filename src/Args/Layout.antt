-- ===== src/Args/Layout.antt =====
-- The stack that a program starts with.
use qba.Prelude.{
  ℕ, ◌+◌, ◌-◌, ◌*◌, ◌/◌, ◌%◌, ◌≤◌, ◌<◌, ◌≡◌, ◌≢◌, refl, sym, ap, ◌∙◌, false, some, List, length,
  get_elem?, leb, ltb, ◌||◌, update, u32, arith,
}
use qba.Args.Enough.{Ready, tokens_of_lem}
use qba.CString.{Memory}
use qba.Prelude.Outcome.{Outcome, ok, panic, undefined, ◌>>=◌}
use qba.Args.{
  Stack, push, align, aligned_counter, reverse_loop, pass_arguments, finish_arguments, token_loop,
  strtok_r,
}
use qba.Args.Tokens.{
  reverse_loop_lem, reverse_loop-esp, push_tokens-esp, push_tokens_lem, get_elem?-lt, push_tokens,
  tokens_of, tokens_from, loop_result, token_loop_lem, push_tokens-copy, reverse_loop-copy,
}

abbrev two : Stack → Stack
two s = push 0 (push 0 (align s))

-- What the pushes leave, `argc` and `argv` being zeros for now: the words from `base` down.
abbrev pushes : List ℕ → Stack → Stack
pushes tokens s = push 0 (push_tokens tokens (two s))

abbrev base : Stack → ℕ
base s = s.esp - s.esp % 16

update_ne : (f : ℕ → ℕ) (p v q : ℕ) → p ≢ q → update f p v q ≡ f q
update_ne f p v q ne = ground arith

update_at : (f : ℕ → ℕ) (p v q : ℕ) → p ≡ q → update f p v q ≡ v
update_at f p v q e = ground arith

-- What the words hold in the end: `s'` is reached from `s`.
abbrev pub Laid : List ℕ → Stack → Stack → Type 0
Laid tokens s s' =
    let bottom = s'.esp + 4 in
    (bottom % 16 ≡ 0)
    × (bottom + 4 * (length tokens + 3) ≤ s.esp)
    × (s'.word bottom ≡ length tokens)
    × (s'.word (bottom + 4) ≡ bottom + 8)
    × ((i t : ℕ) → get_elem? tokens i ≡ some t → s'.word (bottom + 8 + 4 * i) ≡ t)
    × (s'.word (bottom + 8 + 4 * length tokens) ≡ 0)
    × (s'.copy ≡ s.copy)

module _ (tokens : List ℕ) (s : Stack) (small : s.esp < 4294967296)
    (room : 4 * length tokens + 44 ≤ s.esp) where
  two_down : (two s).esp ≡ base s - 8
  unfolding push align
  two_down = omega (arith, small, room)

  tokens_down : (push_tokens tokens (two s)).esp ≡ base s - 8 - 4 * length tokens
  tokens_down =
      push_tokens-esp tokens (two s) (omega (arith, two_down, room))
        (omega (arith, two_down, small))
      ∙ omega (arith, two_down)

  pushes-esp : (pushes tokens s).esp ≡ base s - 4 * (length tokens + 3)
  unfolding push
  pushes-esp = omega (arith, tokens_down, room, small)

  pushes-token :
      (i : ℕ) {t : ℕ}
      → get_elem? tokens i ≡ some t
      → (pushes tokens s).word (base s - 12 - 4 * i) ≡ t
  unfolding push
  pushes-token i e =
      update_ne (push_tokens tokens (two s)).word
        (u32 ((push_tokens tokens (two s)).esp + 4294967292)) 0 (base s - 12 - 4 * i)
        (λ z. omega (arith, z, tokens_down, get_elem?-lt tokens i e, room, small))
      ∙ ap (push_tokens tokens (two s)).word (omega (arith, two_down))
      ∙ push_tokens_lem tokens (two s) i (omega (arith, two_down, room))
          (omega (arith, two_down, small)) e

  pushes-end : (pushes tokens s).word (base s - 12 - 4 * length tokens) ≡ 0
  unfolding push
  pushes-end =
      update_at (push_tokens tokens (two s)).word
        (u32 ((push_tokens tokens (two s)).esp + 4294967292)) 0 (base s - 12 - 4 * length tokens)
        (omega (arith, tokens_down, room, small))

  -- A quarter of the counter, and the bottom of the words.
  abbrev words : ℕ
  words = aligned_counter (4 * (length tokens + 3)) / 4

  counter-words :
      (aligned_counter (4 * (length tokens + 3)) ≡ 4 * words)
      × (words % 4 ≡ 0)
      × (length tokens + 3 ≤ words)
      × (words ≤ length tokens + 6)
      × (2 * ((aligned_counter (4 * (length tokens + 3)) / 2 + 3) / 4 + 0) ≡ words)
  unfolding aligned_counter
  counter-words = (ground arith, ground arith, ground arith, ground arith, ground arith)

  aligned-esp : (align (pushes tokens s)).esp ≡ base s - 4 * words
  unfolding align aligned_counter
  aligned-esp = ground (arith, pushes-esp, room)

  abbrev flipped : Stack
  flipped =
      reverse_loop ((aligned_counter (4 * (length tokens + 3)) / 2 + 3) / 4) 0
        (aligned_counter (4 * (length tokens + 3)) - 4) (align (pushes tokens s))

  abbrev flipped_from : ℕ → Stack
  flipped_from last_pos =
      reverse_loop ((aligned_counter (4 * (length tokens + 3)) / 2 + 3) / 4) (4 * 0) last_pos
        (align (pushes tokens s))

  flipped-esp : flipped.esp ≡ base s - 4 * words
  flipped-esp =
      reverse_loop-esp ((aligned_counter (4 * (length tokens + 3)) / 2 + 3) / 4) 0
        (aligned_counter (4 * (length tokens + 3)) - 4) (align (pushes tokens s))
      ∙ aligned-esp

  last : aligned_counter (4 * (length tokens + 3)) - 4 ≡ 4 * words - 4
  last = omega (arith, counter-words.0)

  not_turned : (j : ℕ) → j < words → (ltb j 0 || leb words (j + 0)) ≡ false
  not_turned j h = ground arith

  flipped-word :
      (j : ℕ)
      → j < words
      → flipped.word (base s - 4 * words + 4 * j) ≡ (pushes tokens s).word (base s - 4 - 4 * j)
  unfolding align
  flipped-word j h =
      ap (λ q. (flipped_from q).word (base s - 4 * words + 4 * j)) last
      ∙ ap (λ q. (flipped_from (4 * words - 4)).word (q + 4 * j)) (sym aligned-esp)
      ∙ reverse_loop_lem ((aligned_counter (4 * (length tokens + 3)) / 2 + 3) / 4) words 0
          (align (pushes tokens s)) j (counter-words.4) h
      ∙ rw (not_turned j h)
          (ap (pushes tokens s).word (omega (arith, aligned-esp, h, counter-words.3, room)))

  finish-copy : (finish_arguments (length tokens) (push_tokens tokens (two s))).copy ≡ s.copy
  unfolding finish_arguments align push
  finish-copy =
      reverse_loop-copy ((aligned_counter (4 * (length tokens + 3)) / 2 + 3) / 4) 0
        (aligned_counter (4 * (length tokens + 3)) - 4) (align (pushes tokens s))
      ∙ push_tokens-copy tokens (two s)

  two_set :
      (q v w : ℕ)
      → q ≢ flipped.esp
      → q ≢ flipped.esp + 4
      → update (update flipped.word (flipped.esp + 4) v) flipped.esp w q ≡ flipped.word q
  two_set q v w a b =
      update_ne (update flipped.word (flipped.esp + 4) v) flipped.esp w q (λ z. a (sym z))
      ∙ update_ne flipped.word (flipped.esp + 4) v q (λ z. b (sym z))

  abbrev laid_out : Stack
  laid_out = finish_arguments (length tokens) (push_tokens tokens (two s))

  pub finish_arguments_lem : Laid tokens s laid_out
  unfolding finish_arguments
  finish_arguments_lem =
      let down : u32 (flipped.esp + 4294967292) + 4 ≡ base s - 4 * words =
        omega (arith, flipped-esp, room, small, counter-words.3) in
      (
        omega (arith, down, counter-words.1),
        omega (arith, down, counter-words.2, counter-words.3, room),
        update_at (update flipped.word (flipped.esp + 4) (flipped.esp + 8)) flipped.esp
            (length tokens) (u32 (flipped.esp + 4294967292) + 4) (omega (arith, down, flipped-esp)),
        update_ne (update flipped.word (flipped.esp + 4) (flipped.esp + 8)) flipped.esp
              (length tokens) (u32 (flipped.esp + 4294967292) + 4 + 4)
              (λ z. omega (arith, z, down, flipped-esp))
            ∙ update_at flipped.word (flipped.esp + 4) (flipped.esp + 8)
                (u32 (flipped.esp + 4294967292) + 4 + 4) (omega (arith, down, flipped-esp))
            ∙ omega (arith, down, flipped-esp),
        λ i t e.
            two_set (u32 (flipped.esp + 4294967292) + 4 + 8 + 4 * i) (flipped.esp + 8)
              (length tokens) (λ z. omega (arith, z, down, flipped-esp))
              (λ z. omega (arith, z, down, flipped-esp))
            ∙ ap flipped.word (omega (arith, down))
            ∙ flipped-word (i + 2) (omega (arith, get_elem?-lt tokens i e, counter-words.2))
            ∙ ap (pushes tokens s).word (omega arith)
            ∙ pushes-token i e,
        two_set (u32 (flipped.esp + 4294967292) + 4 + 8 + 4 * length tokens) (flipped.esp + 8)
              (length tokens) (λ z. omega (arith, z, down, flipped-esp))
              (λ z. omega (arith, z, down, flipped-esp))
            ∙ ap flipped.word (omega (arith, down))
            ∙ flipped-word (length tokens + 2) (omega (arith, counter-words.2))
            ∙ ap (pushes tokens s).word (omega arith)
            ∙ pushes-end,
        finish-copy,
      )

-- The end of `start_process` after the loop, and what it makes of a list of tokens.
abbrev finished : ℕ × Stack → Outcome Stack
finished (argc, pushed) = ok (finish_arguments argc pushed)

abbrev laid_by : Stack → List ℕ × Memory → Outcome Stack
laid_by s (tokens, m) =
    ok (finish_arguments (length tokens) (push_tokens tokens (two (record s { copy = m }))))

finished-loop :
    (s : Stack) (m : Memory) (o : Outcome (List ℕ × Memory))
    → ((o >>= loop_result 0 (two (record s { copy = m }))) >>= finished) ≡ (o >>= laid_by s)
unfolding push align
finished-loop s m (ok (tokens, m')) =
    ap (λ n. ok (finish_arguments n (push_tokens tokens (two (record s { copy = m' })))))
      (omega arith)
finished-loop s m panic = refl
finished-loop s m undefined = refl

pass_by :
    (fuel delimiters : ℕ) (s : Stack) (o : Outcome (ℕ × ℕ × Memory))
    → (o >>= (λ r.
        token_loop fuel fuel delimiters r.0 r.1 0 (two (record s { copy = r.2 })) >>= finished))
      ≡ ((o >>= (λ r. tokens_from fuel fuel delimiters r.0 r.1 r.2)) >>= laid_by s)
unfolding push align
pass_by fuel delimiters s (ok (token, saved, m)) =
    ap (λ o. o >>= finished)
      (token_loop_lem fuel fuel delimiters token saved 0 (two (record s { copy = m })))
    ∙ finished-loop s m (tokens_from fuel fuel delimiters token saved m)
pass_by fuel delimiters s panic = refl
pass_by fuel delimiters s undefined = refl

pass_arguments-tokens :
    (fuel delimiters : ℕ) (s : Stack)
    → pass_arguments fuel delimiters s ≡ (tokens_of fuel delimiters s.esp s.copy >>= laid_by s)
unfolding pass_arguments tokens_of
pass_arguments-tokens fuel delimiters s =
    pass_by fuel delimiters s (strtok_r fuel s.copy s.esp delimiters 0)

-- The stack for the tokens that `strtok_r` answers.
pass_arguments-Laid :
    (fuel delimiters : ℕ) (tokens : List ℕ) (m : Memory) (s : Stack)
    → tokens_of fuel delimiters s.esp s.copy ≡ ok (tokens, m)
    → s.esp < 4294967296
    → 4 * length tokens + 44 ≤ s.esp
    → (s' : Stack) × (pass_arguments fuel delimiters s ≡ ok s')
      × Laid tokens (record s { copy = m }) s'
pass_arguments-Laid fuel delimiters tokens m s e small room = (
  laid_out tokens (record s { copy = m }) small room,
  pass_arguments-tokens fuel delimiters s ∙ ap (λ o. o >>= laid_by s) e,
  finish_arguments_lem tokens (record s { copy = m }) small room,
)

-- The frame that a program starts with, for a command line with a null byte at its end, the string " "
-- elsewhere, fuel above the length of the line by 4 at least, and room for four bytes for each unit of
-- fuel and 44 more below the copy: `strtok_r` answers its tokens and then the null pointer, and the
-- stack gets a word for the address to return to, then, at a multiple of 16, the number of tokens, the
-- address of the next word, the tokens in their order and a null pointer, all below the copy, in which
-- only what `strtok_r` writes has changed.
pub pass_arguments_lem :
    (fuel delimiters end : ℕ) (s : Stack)
    → Ready s.copy delimiters s.esp end
    → 0 < delimiters
    → s.esp ≤ end
    → end + 4 ≤ s.esp + fuel
    → s.esp < 4294967296
    → 4 * fuel + 44 ≤ s.esp
    → (tokens : List ℕ) × (m : Memory) × (s' : Stack) × (tokens_of fuel delimiters s.esp s.copy
        ≡ ok (tokens, m))
      × (pass_arguments fuel delimiters s ≡ ok s')
      × Laid tokens (record s { copy = m }) s'
pass_arguments_lem fuel delimiters end s r pos le enough small room =
    let (tokens, m, e, few) =
      tokens_of_lem fuel s.copy delimiters s.esp end r pos (omega (arith, room)) le enough in
    let (s', runs, laid) =
      pass_arguments-Laid fuel delimiters tokens m s e small (omega (arith, few, room)) in
    (tokens, m, s', e, runs, laid)
