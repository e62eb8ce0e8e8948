-- ===== src/Args/Tokens.antt =====
-- The loops of `start_process` on the stack: the words turned around, and the tokens pushed.
use qba.CString.Token.{strtok_r}
use qba.CString.{Memory}
use qba.Prelude.Outcome.{Outcome, ok, panic, undefined, ◌>>=◌}
use qba.Prelude.{
  ℕ, zero, suc, ◌+◌, ◌-◌, ◌*◌, ◌≤◌, ◌<◌, ◌≡◌, refl, ap, ◌∙◌, some, List, [], ◌∷◌, length, get_elem?,
  leb, ltb, ◌==◌, Bool, true, false, ◌||◌, if◌then◌else◌, update, arith,
}
use qba.Args.{Stack, push, reverse_loop, token_loop}

-- The tokens, pushed one after the other.
unfoldable pub push_tokens : List ℕ → Stack → Stack
unfolding push
push_tokens [] s = s
push_tokens (token ∷ tokens) s = push_tokens tokens (push token s)

-- What the loop leaves at the word `j`, where `r` rounds are done: the words outside are in place, and
-- those between are turned around.
abbrev turned : ℕ → ℕ → Stack → ℕ → ℕ
turned n r s j =
    if ltb j r || leb n (j + r) then s.word (s.esp + 4 * j) else s.word (s.esp + 4 * (n - suc j))

abbrev swapped : ℕ → ℕ → Stack → Stack
swapped n r s = record s {
  word =
      update (update s.word (s.esp + (4 * n - 4) - 4 * r) (s.word (s.esp + 4 * r))) (s.esp + 4 * r)
        (s.word (s.esp + (4 * n - 4) - 4 * r));
}

turned_step :
    (n r : ℕ) (s : Stack) (j : ℕ)
    → 2 * r + 2 ≤ n
    → j < n
    → turned n (suc r) (swapped n r s) j ≡ turned n r s j
turned_step n r s j e h = ground arith

pub reverse_loop_lem :
    (left n r : ℕ) (s : Stack) (j : ℕ)
    → 2 * (left + r) ≡ n
    → j < n
    → (reverse_loop left (4 * r) (4 * n - 4) s).word (s.esp + 4 * j) ≡ turned n r s j
unfolding reverse_loop
reverse_loop_lem zero n r s j e h = ground (arith, e)
reverse_loop_lem (suc left) n r s j e h =
    ap (λ i. (reverse_loop left i (4 * n - 4) (swapped n r s)).word (s.esp + 4 * j)) (omega arith)
    ∙ reverse_loop_lem left n (suc r) (swapped n r s) j (omega (arith, e)) h
    ∙ turned_step n r s j (omega (arith, e)) h

pub reverse_loop-esp :
    (left i last_pos : ℕ) (s : Stack) → (reverse_loop left i last_pos s).esp ≡ s.esp
unfolding reverse_loop
reverse_loop-esp zero i last_pos s = refl
reverse_loop-esp (suc left) i last_pos s = reverse_loop-esp left (i + 4) last_pos _

-- The tokens lie below each other, and nothing above them changes.
pub push_tokens-esp :
    (tokens : List ℕ) (s : Stack)
    → 4 * length tokens ≤ s.esp
    → s.esp < 4294967296
    → (push_tokens tokens s).esp ≡ s.esp - 4 * length tokens
unfolding push_tokens push
push_tokens-esp [] s h small = omega arith
push_tokens-esp (t ∷ ts) s h small =
    push_tokens-esp ts (push t s) (omega arith) (omega arith) ∙ omega arith

pub push_tokens-above :
    (tokens : List ℕ) (s : Stack) (p : ℕ)
    → 4 * length tokens ≤ s.esp
    → s.esp < 4294967296
    → s.esp ≤ p
    → (push_tokens tokens s).word p ≡ s.word p
unfolding push_tokens push
push_tokens-above [] s p h small le = refl
push_tokens-above (t ∷ ts) s p h small le =
    push_tokens-above ts (push t s) p (omega arith) (omega arith) (omega arith) ∙ ground arith

pub push_tokens_lem :
    (tokens : List ℕ) (s : Stack) (i : ℕ) {t : ℕ}
    → 4 * length tokens ≤ s.esp
    → s.esp < 4294967296
    → get_elem? tokens i ≡ some t
    → (push_tokens tokens s).word (s.esp - 4 * suc i) ≡ t
unfolding push_tokens push
push_tokens_lem [] s i h small e = cc
push_tokens_lem (x ∷ ts) s zero h small e =
    ap (push_tokens ts (push x s)).word (omega arith)
    ∙ push_tokens-above ts (push x s) (push x s).esp (omega arith) (omega arith) (omega arith)
    ∙ ground (arith, e)
push_tokens_lem (x ∷ ts) s (suc i) h small e =
    ap (push_tokens ts (push x s)).word (omega arith)
    ∙ push_tokens_lem ts (push x s) i (omega arith) (omega arith) e

pub reverse_loop-above :
    (left n r : ℕ) (s : Stack) (p : ℕ)
    → 2 * (left + r) ≡ n
    → s.esp + 4 * n ≤ p
    → (reverse_loop left (4 * r) (4 * n - 4) s).word p ≡ s.word p
unfolding reverse_loop
reverse_loop-above zero n r s p e h = refl
reverse_loop-above (suc left) n r s p e h =
    ap (λ i. (reverse_loop left i (4 * n - 4) (swapped n r s)).word p) (omega arith)
    ∙ reverse_loop-above left n (suc r) (swapped n r s) p (omega (arith, e)) h
    ∙ ground (arith, e)

pub get_elem?-lt :
    {A : Type 0} (xs : List A) (i : ℕ) {a : A} → get_elem? xs i ≡ some a → i < length xs
get_elem?-lt [] i e = cc
get_elem?-lt (x ∷ xs) zero e = omega arith
get_elem?-lt (x ∷ xs) (suc i) e = omega (arith, get_elem?-lt xs i e)

-- The answers of `strtok_r` from `token` on up to the null pointer, and the bytes that the calls leave.
unfoldable pub tokens_from : ℕ → ℕ → ℕ → ℕ → ℕ → Memory → Outcome (List ℕ × Memory)
unfolding strtok_r
tokens_from zero fuel delimiters token saved m = undefined
tokens_from (suc left) fuel delimiters token saved m =
    let rest = (do
      (token', saved', m') ← strtok_r fuel m 0 delimiters saved
      (tokens, m'') ← tokens_from left fuel delimiters token' saved' m'
      ok (token ∷ tokens, m'')) in
    if token == 0 then ok ([], m) else rest

unfoldable pub tokens_of : ℕ → ℕ → ℕ → Memory → Outcome (List ℕ × Memory)
unfolding strtok_r tokens_from
tokens_of fuel delimiters string m = do
  (token, saved, m') ← strtok_r fuel m string delimiters 0
  tokens_from fuel fuel delimiters token saved m'

-- What the loop makes of these tokens.
abbrev pub loop_result : ℕ → Stack → List ℕ × Memory → Outcome (ℕ × Stack)
loop_result argc s (tokens, m) =
    ok (argc + length tokens, push_tokens tokens (record s { copy = m }))

with_token :
    (argc token : ℕ) (s : Stack) (o : Outcome (List ℕ × Memory))
    → (o >>= loop_result (argc + 1) (push token s))
      ≡ ((o >>= (λ r. ok (token ∷ r.0, r.1))) >>= loop_result argc s)
unfolding push_tokens push
with_token argc token s (ok (tokens, m)) =
    ap (λ n. ok (n, push_tokens tokens (push token (record s { copy = m })))) (omega arith)
with_token argc token s panic = refl
with_token argc token s undefined = refl

pub token_loop_lem :
    (left fuel delimiters token saved argc : ℕ) (s : Stack)
    → token_loop left fuel delimiters token saved argc s
      ≡ (tokens_from left fuel delimiters token saved s.copy >>= loop_result argc s)
unfolding tokens_from token_loop push_tokens push
token_loop_lem zero fuel delimiters token saved argc s = refl
token_loop_lem (suc left) fuel delimiters token saved argc s =
    by_test (token_loop_lem left fuel delimiters) (token == 0)
  where
    after :
        ((token saved argc : ℕ) (s : Stack)
          → token_loop left fuel delimiters token saved argc s
            ≡ (tokens_from left fuel delimiters token saved s.copy >>= loop_result argc s))
        → (o : Outcome (ℕ × ℕ × Memory))
        → (o >>= (λ r.
            token_loop left fuel delimiters r.0 r.1
              (argc + 1)
              (record (push token s) { copy = r.2 })))
          ≡ ((o >>= (λ r.
                tokens_from left fuel delimiters r.0 r.1 r.2 >>= (λ q. ok (token ∷ q.0, q.1))))
              >>= loop_result argc s)
    after later (ok (token', saved', m)) =
        later token' saved' (argc + 1) (record (push token s) { copy = m })
        ∙ with_token argc token s (tokens_from left fuel delimiters token' saved' m)
    after later panic = refl
    after later undefined = refl

    by_test :
        ((token saved argc : ℕ) (s : Stack)
          → token_loop left fuel delimiters token saved argc s
            ≡ (tokens_from left fuel delimiters token saved s.copy >>= loop_result argc s))
        → (b : Bool)
        → (if b
            then ok (argc, s)
            else (strtok_r fuel s.copy 0 delimiters saved >>= (λ r.
                token_loop left fuel delimiters r.0 r.1
                  (argc + 1)
                  (record (push token s) { copy = r.2 }))))
          ≡ ((if b
                then ok ([], s.copy)
                else (strtok_r fuel s.copy 0 delimiters saved >>= (λ r.
                    tokens_from left fuel delimiters r.0 r.1 r.2 >>= (λ q. ok (token ∷ q.0, q.1)))))
              >>= loop_result argc s)
    by_test later true = ap (λ n. ok (n, s)) (omega arith)
    by_test later false = after later (strtok_r fuel s.copy 0 delimiters saved)

pub push_tokens-copy : (tokens : List ℕ) (s : Stack) → (push_tokens tokens s).copy ≡ s.copy
unfolding push_tokens push
push_tokens-copy [] s = refl
push_tokens-copy (token ∷ tokens) s = push_tokens-copy tokens (push token s)

pub reverse_loop-copy :
    (left i last_pos : ℕ) (s : Stack) → (reverse_loop left i last_pos s).copy ≡ s.copy
unfolding reverse_loop
reverse_loop-copy zero i last_pos s = refl
reverse_loop-copy (suc left) i last_pos s = reverse_loop-copy left (i + 4) last_pos _
