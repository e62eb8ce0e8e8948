-- ===== src/Args/Tests.antt =====
-- The arguments of the command line "ab c".
use qba.Args.Enough.{Ready}
use qba.Prelude.{
  ℕ, List, update, inr, ◌≡◌, refl, [], ◌∷◌, ◌==◌, if◌then◌else◌, get_or, leb, ◌-◌, arith,
}
use qba.Prelude.Outcome.{ok}
use qba.CString.{Memory}
use qba.Args.{Stack, pass_arguments}
use qba.Args.Tokens.{tokens_of}
use qba.Args.Layout.{Laid, pass_arguments_lem}

-- The command line at 3000, and the delimiters at 5000.
abbrev line : Memory
line p =
    if p == 5000 then 32 else if leb 3000 p then get_or (97 ∷ 98 ∷ 32 ∷ 99 ∷ []) (p - 3000) 0 else 0

-- A null byte after the first token.
abbrev cut_line : Memory
cut_line = update line 3002 0

abbrev copied : Stack
copied = record { esp = 3000; word = λ p. 7; copy = line }

line-Ready : Ready line 5000 3000 3004
line-Ready = record { space = refl; space_end = refl; end = refl; apart = inr (omega arith) }

pass_arguments_lem_example :
    (tokens : List ℕ) × (m : Memory) × (s' : Stack) × (tokens_of 9 5000 3000 line ≡ ok (tokens, m))
    × (pass_arguments 9 5000 copied ≡ ok s')
    × Laid tokens (record copied { copy = m }) s'
pass_arguments_lem_example =
    pass_arguments_lem 9 5000 3004 copied line-Ready (omega arith) (omega arith) (omega arith)
      (omega arith) (omega arith)

-- The tokens of this line, which is cut at 3002.
line_tokens : tokens_of 9 5000 3000 line ≡ ok (3000 ∷ 3003 ∷ [], cut_line)
unfolding tokens_of
line_tokens = refl
