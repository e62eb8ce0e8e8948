-- ===== src/Args/Enough.antt =====
-- The calls of `strtok_r` in `start_process` come to an end.
use qba.Prelude.{
  ℕ, zero, suc, ◌+◌, ◌≤◌, ◌<◌, ◌≡◌, refl, Bool, true, false, not, Option, none, some, List, length,
  [], ◌∷◌, ◌==◌, if◌then◌else◌, update, arith, Bool-cases, inl, inr, ◌⊎◌,
}
use qba.Prelude.Outcome.{ok}
use qba.CString.{Memory, strchr, strchr_loop, found}
use qba.CString.Token.{delimiter_loop, strtok_r}
use qba.Args.Tokens.{tokens_from, tokens_of}

-- The string " " stands at `d`, outside the bytes from `b` to the null byte at `e`.
pub record Ready (m : Memory) (d b e : ℕ) : Type 0 where
  pub space : m d ≡ 32
  pub space_end : m (d + 1) ≡ 0
  pub end : m e ≡ 0
  pub apart : (d + 1 < b) ⊎ (e < d)

strchr_lem :
    (fuel : ℕ) (m : Memory) (d b e c : ℕ)
    → Ready m d b e
    → 0 < d
    → 2 ≤ fuel
    → (hit : Option ℕ) × (strchr fuel m d c ≡ ok hit)
unfolding strchr strchr_loop
strchr_lem zero m d b e c r pos h = absurd (omega arith)
strchr_lem (suc zero) m d b e c r pos h = absurd (omega arith)
strchr_lem (suc (suc fuel)) m d b e c r pos h = elim (Bool-cases (m d == c)) [
  | inl here ↦ (some d, ground (arith, here, pos))
  | inr other ↦ elim (Bool-cases (m (d + 1) == c)) [
    | inl last ↦ (some (d + 1), ground (arith, other, last, r.space, pos))
    | inr none_left ↦ (none, ground (arith, other, none_left, r.space, r.space_end, pos))
  ]
]

delimiter_loop_lem :
    (fuel : ℕ) (m : Memory) (d b e s : ℕ) (skips : Bool)
    → Ready m d b e
    → 0 < d
    → s ≤ e
    → e < s + fuel
    → 0 < fuel
    → (p : ℕ) × (delimiter_loop (suc fuel) m d s skips ≡ ok p) × (s ≤ p) × (p ≤ e)
unfolding delimiter_loop
delimiter_loop_lem zero m d b e s skips r pos le lt more = absurd (omega arith)
delimiter_loop_lem (suc fuel) m d b e s skips r pos le lt more =
    let (hit, c) = strchr_lem (suc (suc fuel)) m d b e (m s) r pos (omega arith) in
    elim (Bool-cases (m s == 0)) [
      | inl stop ↦ (s, rw (c, stop) refl, omega arith, le)
      | inr goes ↦ elim (Bool-cases (if skips then found hit else not (found hit))) [
        | inr stay ↦ (s, rw (c, goes, stay) refl, omega arith, le)
        | inl on ↦
            let (p, q, lo, hi) =
              delimiter_loop_lem fuel m d b e (s + 1) skips r pos (ground (arith, le, goes, r.end))
                (omega (arith, lt)) (ground (arith, lt, le, goes, r.end)) in
            (p, rw (c, goes, on) q, omega (arith, lo), hi)
      ]
    ]

-- A call finds no token, or it goes on to a place behind, or to the end of the string.
abbrev Cut : ℕ → ℕ → ℕ → ℕ × ℕ × Memory → Type 0
Cut d b e (token, saved, m) =
    Ready m d b e × (saved ≤ e) × (b ≤ saved) × ((token ≡ 0) ⊎ ((b < saved) ⊎ (m saved ≡ 0)))

not_null : (b : ℕ) → 0 < b → (b == 0) ≡ false
not_null b h = ground (arith, h)

written : (m : Memory) (d b e p : ℕ) → Ready m d b e → b ≤ p → p < e → Ready (update m p 0) d b e
written m d b e p r lo hi = record {
  space = ground (arith, r.space, r.apart, lo, hi);
  space_end = ground (arith, r.space_end, r.apart, lo, hi);
  end = ground (arith, r.end, hi);
  apart = r.apart;
}

strtok_r-Cut :
    (n : ℕ) (m : Memory) (d b e s saved t p : ℕ)
    → Ready m d b e
    → 0 < d
    → 0 < b
    → (if s == 0 then saved else s) ≡ b
    → delimiter_loop n m d b true ≡ ok t
    → b ≤ t
    → t ≤ e
    → delimiter_loop n m d t false ≡ ok p
    → t ≤ p
    → p ≤ e
    → (r : ℕ × ℕ × Memory) × (strtok_r n m s d saved ≡ ok r) × Cut d b e r
unfolding strtok_r
strtok_r-Cut n m d b e s saved t p r pos bpos from q lo hi q' lo' hi' =
    elim (Bool-cases (m t == 0)) [
      | inl empty ↦ (
        (0, t, m),
        rw (not_null d pos, from, not_null b bpos, q, empty) refl,
        (r, hi, lo, inl refl),
      )
      | inr token ↦ elim (Bool-cases (m p == 0)) [
        | inl last ↦ (
          (t, p, m),
          rw (not_null d pos, from, not_null b bpos, q, token, q', last) refl,
          (r, hi', omega (arith, lo, lo'), inr (inr (ground (arith, last)))),
        )
        | inr more ↦
            let inside : p < e = ground (arith, more, hi', r.end) in
            (
              (t, p + 1, update m p 0),
              rw (not_null d pos, from, not_null b bpos, q, token, q', more) refl,
              (
                written m d b e p r (omega (arith, lo, lo')) inside,
                omega (arith, inside),
                omega (arith, lo, lo'),
                inr (inl (omega (arith, lo, lo'))),
              ),
            )
      ]
    ]

strtok_r_lem :
    (fuel : ℕ) (m : Memory) (d b e s saved : ℕ)
    → Ready m d b e
    → 0 < d
    → 0 < b
    → b ≤ e
    → (if s == 0 then saved else s) ≡ b
    → e < b + fuel
    → (r : ℕ × ℕ × Memory) × (strtok_r (suc fuel) m s d saved ≡ ok r) × Cut d b e r
strtok_r_lem fuel m d b e s saved r pos bpos le from lt =
    let (t, q, lo, hi) =
      delimiter_loop_lem fuel m d b e b true r pos le lt (omega (arith, lt, le)) in
    let (p, q', lo', hi') =
      delimiter_loop_lem fuel m d b e t false r pos hi (omega (arith, lt, lo))
        (omega (arith, lt, le)) in
    strtok_r-Cut (suc fuel) m d b e s saved t p r pos bpos from q lo hi q' lo' hi'

Ended : ℕ → ℕ → ℕ → ℕ → ℕ → Memory → Type 0
Ended left fuel d token saved m =
    (tokens : List ℕ) × (m' : Memory) × (tokens_from left (suc fuel) d token saved m
      ≡ ok (tokens, m'))
    × (length tokens < left)

no_token :
    (left fuel d token saved : ℕ) (m : Memory)
    → token ≡ 0
    → 0 < left
    → Ended left fuel d token saved m
unfolding Ended tokens_from
no_token zero fuel d token saved m e h = absurd (omega arith)
no_token (suc left) fuel d token saved m e h =
    let stop : (token == 0) ≡ true = ground (arith, e) in ([], m, rw stop refl, omega arith)

one_more :
    (left fuel d token saved : ℕ) (m : Memory) (r : ℕ × ℕ × Memory)
    → strtok_r (suc fuel) m 0 d saved ≡ ok r
    → Ended left fuel d r.0 r.1 r.2
    → Ended (suc left) fuel d token saved m
unfolding Ended tokens_from
one_more left fuel d token saved m r e (tokens, m', f, few) = elim (Bool-cases (token == 0)) [
  | inl stop ↦ ([], m, rw stop refl, omega arith)
  | inr goes ↦ (token ∷ tokens, m', rw (goes, e, f) refl, omega (arith, few))
]

later : {m : Memory} {d b e : ℕ} (b' : ℕ) → Ready m d b e → b ≤ b' → Ready m d b' e
later b' r le = record {
  space = r.space;
  space_end = r.space_end;
  end = r.end;
  apart = ground (arith, r.apart, le);
}

at_null :
    (fuel : ℕ) (m : Memory) (d b e s : ℕ) (skips : Bool)
    → Ready m d b e
    → 0 < d
    → 0 < fuel
    → m s ≡ 0
    → delimiter_loop (suc fuel) m d s skips ≡ ok s
unfolding delimiter_loop
at_null fuel m d b e s skips r pos h z =
    let (hit, c) = strchr_lem (suc fuel) m d b e (m s) r pos (omega (arith, h)) in
    let stop : (m s == 0) ≡ true = ground (arith, z) in rw (c, stop) refl

strtok_null :
    (n : ℕ) (m : Memory) (d b : ℕ)
    → 0 < d
    → 0 < b
    → m b ≡ 0
    → delimiter_loop n m d b true ≡ ok b
    → strtok_r n m 0 d b ≡ ok (0, b, m)
unfolding strtok_r
strtok_null n m d b pos bpos z q =
    let stop : (m b == 0) ≡ true = ground (arith, z) in
    rw (not_null d pos, not_null b bpos, q, stop) refl

last_call :
    (left fuel d e token saved : ℕ) (m : Memory)
    → Ready m d saved e
    → 0 < d
    → 0 < saved
    → saved ≤ e
    → e < saved + fuel
    → m saved ≡ 0
    → 2 ≤ left
    → Ended left fuel d token saved m
last_call zero fuel d e token saved m r pos spos le lt z h = absurd (omega arith)
last_call (suc zero) fuel d e token saved m r pos spos le lt z h = absurd (omega arith)
last_call (suc (suc left)) fuel d e token saved m r pos spos le lt z h =
    one_more (suc left) fuel d token saved m (0, saved, m)
      (strtok_null (suc fuel) m d saved pos spos z
        (at_null fuel m d saved e saved true r pos (omega (arith, lt, le)) z))
      (no_token (suc left) fuel d 0 saved m refl (omega arith))

tokens_from_lem :
    (left fuel d e token saved : ℕ) (m : Memory)
    → Ready m d saved e
    → 0 < d
    → 0 < saved
    → saved ≤ e
    → e < saved + fuel
    → e + 3 ≤ saved + left
    → Ended left fuel d token saved m
tokens_from_lem zero fuel d e token saved m r pos spos le lt more = absurd (omega arith)
tokens_from_lem (suc left) fuel d e token saved m r pos spos le lt more =
    let ((token', saved', m'), q, (r', le', lo, how)) =
      strtok_r_lem fuel m d saved e 0 saved r pos spos le refl lt in
    one_more left fuel d token saved m (token', saved', m') q
      (elim how [
        | inl stop ↦ no_token left fuel d token' saved' m' stop (omega (arith, more, le))
        | inr (inl on) ↦
            tokens_from_lem left fuel d e token' saved' m' (later saved' r' lo) pos
              (omega (arith, spos, lo)) le' (omega (arith, lt, lo)) (omega (arith, more, on))
        | inr (inr z) ↦
            last_call left fuel d e token' saved' m' (later saved' r' lo) pos
              (omega (arith, spos, lo)) le' (omega (arith, lt, lo)) z (omega (arith, more, le))
      ])

all_tokens :
    (n d b : ℕ) (m : Memory) (token saved : ℕ) (m' : Memory) (tokens : List ℕ) (m'' : Memory)
    → strtok_r n m b d 0 ≡ ok (token, saved, m')
    → tokens_from n n d token saved m' ≡ ok (tokens, m'')
    → tokens_of n d b m ≡ ok (tokens, m'')
unfolding tokens_of
all_tokens n d b m token saved m' tokens m'' q f = rw (q, f) refl

-- For a command line at `b` with its null byte at `e`, and the string " " elsewhere, the calls of
-- `strtok_r` come to an end if the fuel is above the length of the line by 4 at least, with fewer tokens
-- than the fuel.
pub tokens_of_lem :
    (fuel : ℕ) (m : Memory) (d b e : ℕ)
    → Ready m d b e
    → 0 < d
    → 0 < b
    → b ≤ e
    → e + 4 ≤ b + fuel
    → (tokens : List ℕ) × (m' : Memory) × (tokens_of fuel d b m ≡ ok (tokens, m'))
      × (length tokens < fuel)
unfolding tokens_of Ended
tokens_of_lem zero m d b e r pos bpos le h = absurd (omega arith)
tokens_of_lem (suc fuel) m d b e r pos bpos le h =
    let ((token, saved, m'), q, (r', le', lo, how)) =
      strtok_r_lem fuel m d b e b 0 r pos bpos le (rw (not_null b bpos) refl) (omega (arith, h)) in
    let (tokens, m'', f, few) =
      tokens_from_lem (suc fuel) fuel d e token saved m' (later saved r' lo) pos
        (omega (arith, bpos, lo)) le' (omega (arith, h, lo)) (omega (arith, h, lo)) in
    (tokens, m'', all_tokens (suc fuel) d b m token saved m' tokens m'' q f, few)
