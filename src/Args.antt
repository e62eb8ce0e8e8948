-- ===== src/Args.antt =====
-- The arguments of a program: what `start_process` of src/userprog/process_create.c puts on the user
-- stack. The copy of the command line is bytes at addresses, which `strtok_r` reads and cuts into
-- strings; what is pushed below it is words at addresses. `esp` is a `uint32_t`.
mod Tokens
mod Enough
pub mod Layout
mod Tests
use qba.Prelude.Outcome.{Outcome, ok, undefined, ◌>>=◌}
use qba.CString.{Memory}
use qba.CString.Token.{strtok_r}
use qba.Prelude.{
  ℕ, zero, suc, ◌+◌, ◌-◌, ◌*◌, ◌/◌, ◌%◌, Bool, true, false, not, List, [], ◌∷◌, length, ◌==◌,
  if◌then◌else◌, update, u32,
}

-- The interrupt frame's stack pointer, the words of the stack, and the bytes from the copy of the
-- command line on.
pub record Stack : Type 0 where
  pub esp : ℕ
  pub word : ℕ → ℕ
  pub copy : Memory

-- `esp -= 4`, and a write to where it points.
unfoldable pub push : ℕ → Stack → Stack
push v s = let esp = u32 (s.esp + 4294967292) in record s { esp = esp; word = update s.word esp v }

-- The loop over the tokens of the command line, where `token` and `saved` are those of the last call of
-- `strtok_r` and `argc` tokens are pushed already. `fuel` is for the loops of `strtok_r`.
unfoldable pub token_loop : ℕ → ℕ → ℕ → ℕ → ℕ → ℕ → Stack → Outcome (ℕ × Stack)
unfolding push strtok_r
token_loop zero fuel delimiters token saved argc s = undefined
token_loop (suc left) fuel delimiters token saved argc s =
    let pushed = push token s in
    let rest = (do
      (token', saved', copy) ← strtok_r fuel pushed.copy 0 delimiters saved
      token_loop left fuel delimiters token' saved' (argc + 1) (record pushed { copy = copy })) in
    if token == 0 then ok (argc, s) else rest

-- `esp & 0xfffffff0`
unfoldable pub align : Stack → Stack
align s = record s { esp = s.esp - s.esp % 16 }

-- The counter, once it has been made a multiple of 16.
unfoldable pub aligned_counter : ℕ → ℕ
aligned_counter byte_counter =
    let more = byte_counter + 16 in
    if not (byte_counter % 16 == 0) then more - more % 16 else byte_counter

-- The loop that turns the words around, with `left` rounds to go; `place` is the word kept aside.
unfoldable pub reverse_loop : ℕ → ℕ → ℕ → Stack → Stack
reverse_loop zero i last_pos s = s
reverse_loop (suc left) i last_pos s =
    let place = s.word (s.esp + last_pos - i) in
    let moved = update s.word (s.esp + last_pos - i) (s.word (s.esp + i)) in
    reverse_loop left (i + 4) last_pos (record s { word = update moved (s.esp + i) place })

-- From the null pointer after the tokens to the address to return to. The loop has a round for each
-- multiple of 4 below half the counter.
unfoldable pub finish_arguments : ℕ → Stack → Stack
unfolding push align aligned_counter reverse_loop
finish_arguments argc s =
    let pushed = align (push 0 s) in
    let byte_counter = aligned_counter (4 * (argc + 3)) in
    let turned = reverse_loop ((byte_counter / 2 + 3) / 4) 0 (byte_counter - 4) pushed in
    let esp = turned.esp in
    let with_argv = update turned.word (esp + 4) (esp + 8) in
    record turned { esp = u32 (esp + 4294967292); word = update with_argv esp argc }

-- From the alignment of the copy of the command line to the address to return to; `delimiters` is the
-- address of the string " ". The loop over tokens has `fuel` rounds.
unfoldable pub pass_arguments : ℕ → ℕ → Stack → Outcome Stack
unfolding push align token_loop finish_arguments strtok_r
pass_arguments fuel delimiters s = do
  (token, saved, copy) ← strtok_r fuel s.copy s.esp delimiters 0
  let started : Stack = push 0 (push 0 (align (record s { copy = copy })))
  (argc, pushed) ← token_loop fuel fuel delimiters token saved 0 started
  ok (finish_arguments argc pushed)
