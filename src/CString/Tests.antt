-- ===== src/CString/Tests.antt =====
-- The theorems on strings at a small memory.
use qba.Prelude.{ℕ, ◌≡◌, refl, ◌==◌, if◌then◌else◌, arith}
use qba.Prelude.Outcome.{ok}
use qba.CString.{Memory, memmove}
use qba.CString.Move.{moved, memmove_lem}
use qba.CString.Length.{Str}

-- The string "ab" at 100, and null bytes elsewhere.
abbrev small_memory : Memory
small_memory p = if p == 100 then 97 else if p == 101 then 98 else 0

ab : Str small_memory 100 2
ab = record { chars = λ i h e. ground arith; end = refl }

empty : Str small_memory 200 0
empty = record { chars = λ i h e. omega arith; end = refl }

memmove_lem_example :
    (m' : Memory) × (memmove small_memory 101 100 3 ≡ ok m')
    × ((a : ℕ) → m' a ≡ moved small_memory 101 100 3 a)
memmove_lem_example = memmove_lem small_memory 101 100 3 (λ e. omega arith) (λ e. omega arith)
