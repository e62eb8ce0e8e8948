-- ===== src/CString/Token.antt =====
-- `strpbrk` and `strtok_r` of src/lib/string.c, where 0 is the null pointer.
use qba.Prelude.{
  ℕ, zero, suc, ◌+◌, Bool, true, false, not, Option, none, some, ◌==◌, if◌then◌else◌, update,
}
use qba.Prelude.Outcome.{Outcome, ok, undefined, ◌>>=◌, ◌>>◌, assert}
use qba.CString.{Memory, strchr, found}

unfoldable pub strpbrk : ℕ → Memory → ℕ → ℕ → Outcome (Option ℕ)
unfolding strchr
strpbrk zero m string stop = undefined
strpbrk (suc fuel) m string stop = do
  let rest = strpbrk fuel m (string + 1) stop
  hit ← strchr (suc fuel) m stop (m string)
  if m string == 0 then ok none else if found hit then ok (some string) else rest

-- The loops of `strtok_r` over delimiters (`skips` is true), up to the null byte, and over other
-- characters (false), which ends there since `strchr` finds a null byte in every string.
unfoldable pub delimiter_loop : ℕ → Memory → ℕ → ℕ → Bool → Outcome ℕ
unfolding strchr
delimiter_loop zero m delimiters s skips = undefined
delimiter_loop (suc fuel) m delimiters s skips = do
  let rest = delimiter_loop fuel m delimiters (s + 1) skips
  hit ← strchr (suc fuel) m delimiters (m s)
  let goes_on = if skips then found hit else not (found hit)
  if m s == 0 then ok s else if goes_on then rest else ok s

-- The token, what `save_ptr` points to, and the memory.
unfoldable pub strtok_r : ℕ → Memory → ℕ → ℕ → ℕ → Outcome (ℕ × ℕ × Memory)
unfolding delimiter_loop
strtok_r fuel m s delimiters saved = do
  assert (not (delimiters == 0))
  let from = if s == 0 then saved else s
  assert (not (from == 0))
  token ← delimiter_loop fuel m delimiters from true
  let cut = (do
    end ← delimiter_loop fuel m delimiters token false
    let ended = ok (token, end, m)
    let more = ok (token, end + 1, update m end 0)
    if m end == 0 then ended else more)
  if m token == 0 then ok (0, token, m) else cut
