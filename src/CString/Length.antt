-- ===== src/CString/Length.antt =====
-- `strlen`, `strnlen` and `strlcpy` of src/lib/string.c on a string that is terminated.
use qba.Prelude.{ℕ, zero, suc, ◌+◌, ◌-◌, ◌≤◌, ◌<◌, ◌≡◌, ◌≢◌, arith, ◌⊎◌, inl, inr, update, dec_lt}
use qba.Prelude.Outcome.{ok}
use qba.CString.{Memory, strlen_loop, strlen, strnlen_loop, strnlen, lesser, strlcpy}
use qba.CString.Move.{memcpy_lem}

-- The string at `p` has `n` characters: its first null byte is at `p + n`.
pub record Str (m : Memory) (p n : ℕ) : Type 0 where
  pub chars : (i : ℕ) → i < n → m (p + i) ≢ 0
  pub end : m (p + n) ≡ 0

strlen_loop_lem :
    (fuel : ℕ) (m : Memory) (p i n : ℕ)
    → Str m p n
    → i ≤ n
    → n < i + fuel
    → strlen_loop fuel m p (p + i) ≡ ok n
unfolding strlen_loop
strlen_loop_lem zero m p i n s h f = absurd (omega arith)
strlen_loop_lem (suc fuel) m p i n s h f = elim (dec_lt i n) [
  | yes lt ↦
      ground (arith, s.chars i lt, strlen_loop_lem fuel m p (i + 1) n s (omega arith) (omega arith))
  | no ge ↦ ground (arith, s.end)
]

-- `strlen` answers the index of the first null byte.
pub strlen_lem :
    (fuel : ℕ) (m : Memory) (p n : ℕ) → p ≢ 0 → Str m p n → n < fuel → strlen fuel m p ≡ ok n
unfolding strlen
strlen_lem fuel m p n ne s f =
    ground (arith, strlen_loop_lem fuel m p 0 n s (omega arith) (omega arith))

strnlen_loop_lem :
    (m : Memory) (p i n left : ℕ)
    → Str m p n
    → i ≤ n
    → strnlen_loop m p i left ≡ lesser n (i + left)
unfolding strnlen_loop
strnlen_loop_lem m p i n zero s h = ground arith
strnlen_loop_lem m p i n (suc left) s h = elim (dec_lt i n) [
  | yes lt ↦ ground (arith, s.chars i lt, strnlen_loop_lem m p (i + 1) n left s (omega arith))
  | no ge ↦ ground (arith, s.end)
]

-- `strnlen` answers the length of the string, but `maxlen` at most.
pub strnlen_lem : (m : Memory) (p n maxlen : ℕ) → Str m p n → strnlen m p maxlen ≡ lesser n maxlen
unfolding strnlen
strnlen_lem m p n maxlen s = ground (arith, strnlen_loop_lem m p 0 n maxlen s (omega arith))

-- `strlcpy` into a buffer of `size` > 0 bytes that does not overlap the source leaves a string there
-- that has the first characters of the source, as many as fit beside the null byte; it answers the
-- length of the source and writes nothing outside the buffer.
pub strlcpy_lem :
    (fuel : ℕ) (m : Memory) (dst src size n : ℕ)
    → dst ≢ 0
    → src ≢ 0
    → Str m src n
    → n < fuel
    → 0 < size
    → (dst + size ≤ src) ⊎ (src + suc n ≤ dst)
    → (m' : Memory) × (strlcpy fuel m dst src size ≡ ok (n, m'))
      × Str m' dst (lesser n (size - 1))
      × ((i : ℕ) → i < lesser n (size - 1) → m' (dst + i) ≡ m (src + i))
      × ((a : ℕ) → (a < dst) ⊎ (dst + size ≤ a) → m' a ≡ m a)
unfolding strlcpy
strlcpy_lem fuel m dst src size n d s str f pos apart =
    let (m₁, e, copied) = memcpy_lem m dst src len d s within_bounds in
    (
      update m₁ (dst + len) 0,
      rw (strlen_lem fuel m src n s str f) (ground (arith, e)),
      record {
        chars = λ i h. ground (arith, copied (dst + i), str.chars i (ground arith));
        end = ground arith;
      },
      λ i h. ground (arith, copied (dst + i)),
      λ a out. ground (arith, copied a),
    )
  where
    len : ℕ
    len = lesser n (size - 1)

    within_bounds : (dst + len ≤ src) ⊎ (src + len ≤ dst)
    within_bounds = bounds apart
      where
        bounds : (dst + size ≤ src) ⊎ (src + suc n ≤ dst) → (dst + len ≤ src) ⊎ (src + len ≤ dst)
        bounds (inl e) = inl (ground arith)
        bounds (inr e) = inr (ground arith)
