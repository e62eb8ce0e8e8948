-- ===== src/CString.antt =====
-- src/lib/string.c: bytes and null-terminated strings in memory. Memory is a function from addresses
-- to bytes, and 0 is the null pointer. A loop that runs up to a null byte takes fuel, the number of
-- bytes that may be read: without a null byte among them what it does is undefined.
-- The address that `memcpy`, `memmove` and `memset` answer is left out.
pub mod Move
pub mod Length
pub mod Search
pub mod Token
mod Tests
use qba.Prelude.{
  ℕ, zero, suc, ◌+◌, ◌-◌, Bool, true, false, not, ◌&&◌, ◌||◌, Option, none, some, ltb, leb, ◌==◌,
  if◌then◌else◌, update,
}
use qba.Prelude.Outcome.{Outcome, ok, panic, undefined, ◌>>=◌, ◌>>◌, assert}

abbrev pub Memory : Type 0
Memory = ℕ → ℕ

-- `while (size-- > 0) *dst++ = *src++;`
unfoldable pub copy_up : Memory → ℕ → ℕ → ℕ → Memory
copy_up m dst src zero = m
copy_up m dst src (suc size) = copy_up (update m dst (m src)) (dst + 1) (src + 1) size

-- `while (size-- > 0) *--dst = *--src;`, where both pointers start at the ends.
unfoldable pub copy_down : Memory → ℕ → ℕ → ℕ → Memory
copy_down m dst src zero = m
copy_down m dst src (suc size) = copy_down (update m (dst + size) (m (src + size))) dst src size

abbrev assert_block : ℕ → ℕ → Outcome (Unit {0})
assert_block p size = assert (not (p == 0) || size == 0)

unfoldable pub memcpy : Memory → ℕ → ℕ → ℕ → Outcome Memory
unfolding copy_up
memcpy m dst src size =
    assert_block dst size >> (assert_block src size >> ok (copy_up m dst src size))

unfoldable pub memmove : Memory → ℕ → ℕ → ℕ → Outcome Memory
unfolding copy_up copy_down
memmove m dst src size =
    assert_block dst size
    >> (assert_block src size
        >> ok (if ltb dst src then copy_up m dst src size else copy_down m dst src size))

unfoldable pub fill_loop : Memory → ℕ → ℕ → ℕ → Memory
fill_loop m dst value zero = m
fill_loop m dst value (suc size) = fill_loop (update m dst value) (dst + 1) value size

-- `value` is converted to a byte by the caller.
unfoldable pub memset : Memory → ℕ → ℕ → ℕ → Outcome Memory
unfolding fill_loop
memset m dst value size = assert_block dst size >> ok (fill_loop m dst value size)

-- The sign of the result of a comparison.
pub data Sign : Type 0 where
  less : Sign
  equal : Sign
  greater : Sign

unfoldable pub memcmp_loop : Memory → ℕ → ℕ → ℕ → Sign
memcmp_loop m a b zero = equal
memcmp_loop m a b (suc size) =
    let rest = memcmp_loop m (a + 1) (b + 1) size in
    if m a == m b then rest else if ltb (m b) (m a) then greater else less

unfoldable pub memcmp : Memory → ℕ → ℕ → ℕ → Outcome Sign
unfolding memcmp_loop
memcmp m a b size = assert_block a size >> (assert_block b size >> ok (memcmp_loop m a b size))

unfoldable pub strcmp_loop : ℕ → Memory → ℕ → ℕ → Outcome Sign
strcmp_loop zero m a b = undefined
strcmp_loop (suc fuel) m a b =
    let rest = strcmp_loop fuel m (a + 1) (b + 1) in
    let answer = if ltb (m a) (m b) then less else if ltb (m b) (m a) then greater else equal in
    if not (m a == 0) && (m a == m b) then rest else ok answer

unfoldable pub strcmp : ℕ → Memory → ℕ → ℕ → Outcome Sign
unfolding strcmp_loop
strcmp fuel m a b = assert (not (a == 0)) >> (assert (not (b == 0)) >> strcmp_loop fuel m a b)

unfoldable pub memchr_loop : Memory → ℕ → ℕ → ℕ → Option ℕ
memchr_loop m block ch zero = none
memchr_loop m block ch (suc size) =
    let rest = memchr_loop m (block + 1) ch size in if m block == ch then some block else rest

unfoldable pub memchr : Memory → ℕ → ℕ → ℕ → Outcome (Option ℕ)
unfolding memchr_loop
memchr m block ch size = assert_block block size >> ok (memchr_loop m block ch size)

unfoldable pub strchr_loop : ℕ → Memory → ℕ → ℕ → Outcome (Option ℕ)
strchr_loop zero m string c = undefined
strchr_loop (suc fuel) m string c =
    let rest = strchr_loop fuel m (string + 1) c in
    if m string == c then ok (some string) else if m string == 0 then ok none else rest

unfoldable pub strchr : ℕ → Memory → ℕ → ℕ → Outcome (Option ℕ)
unfolding strchr_loop
strchr fuel m string c = assert (not (string == 0)) >> strchr_loop fuel m string c

abbrev pub found : Option ℕ → Bool
found none = false
found (some p) = true

-- The loop of `strcspn` (`stops` is true) and `strspn` (false): it ends at a null byte or where a
-- character is in the set or is not.
unfoldable pub span_loop : ℕ → Memory → ℕ → ℕ → Bool → ℕ → Outcome ℕ
unfolding strchr
span_loop zero m string set stops length = undefined
span_loop (suc fuel) m string set stops length = do
  let rest = span_loop fuel m string set stops (length + 1)
  let at_end = m (string + length) == 0
  hit ← if at_end then ok none else strchr (suc fuel) m set (m (string + length))
  let ends = if stops then found hit else not (found hit)
  if at_end || ends then ok length else rest

unfoldable pub strcspn : ℕ → Memory → ℕ → ℕ → Outcome ℕ
strcspn fuel m string stop = span_loop fuel m string stop true 0

unfoldable pub strspn : ℕ → Memory → ℕ → ℕ → Outcome ℕ
strspn fuel m string skip = span_loop fuel m string skip false 0

unfoldable pub strrchr_loop : ℕ → Memory → ℕ → ℕ → Option ℕ → Outcome (Option ℕ)
strrchr_loop zero m string c p = undefined
strrchr_loop (suc fuel) m string c p =
    let rest = strrchr_loop fuel m (string + 1) c (if m string == c then some string else p) in
    if m string == 0 then ok p else rest

unfoldable pub strrchr : ℕ → Memory → ℕ → ℕ → Outcome (Option ℕ)
unfolding strrchr_loop
strrchr fuel m string c = strrchr_loop fuel m string c none

unfoldable pub strlen_loop : ℕ → Memory → ℕ → ℕ → Outcome ℕ
strlen_loop zero m string p = undefined
strlen_loop (suc fuel) m string p =
    let rest = strlen_loop fuel m string (p + 1) in if m p == 0 then ok (p - string) else rest

unfoldable pub strlen : ℕ → Memory → ℕ → Outcome ℕ
unfolding strlen_loop
strlen fuel m string = assert (not (string == 0)) >> strlen_loop fuel m string string

-- `left` is what remains up to `maxlen`.
unfoldable pub strnlen_loop : Memory → ℕ → ℕ → ℕ → ℕ
strnlen_loop m string length zero = length
strnlen_loop m string length (suc left) =
    let rest = strnlen_loop m string (length + 1) left in
    if m (string + length) == 0 then length else rest

unfoldable pub strnlen : Memory → ℕ → ℕ → ℕ
unfolding strnlen_loop
strnlen m string maxlen = strnlen_loop m string 0 maxlen

abbrev pub lesser : ℕ → ℕ → ℕ
lesser a b = if ltb a b then a else b

unfoldable pub strlcpy : ℕ → Memory → ℕ → ℕ → ℕ → Outcome (ℕ × Memory)
unfolding strlen memcpy
strlcpy fuel m dst src size = do
  assert (not (dst == 0))
  assert (not (src == 0))
  src_len ← strlen fuel m src
  let dst_len = lesser src_len (size - 1)
  let copied = (do m' ← memcpy m dst src dst_len; ok (src_len, update m' (dst + dst_len) 0))
  if ltb 0 size then copied else ok (src_len, m)

unfoldable pub strlcat : ℕ → Memory → ℕ → ℕ → ℕ → Outcome (ℕ × Memory)
unfolding strlen memcpy
strlcat fuel m dst src size = do
  assert (not (dst == 0))
  assert (not (src == 0))
  src_len ← strlen fuel m src
  dst_len ← strlen fuel m dst
  let copy_cnt = lesser src_len (size - dst_len - 1)
  let copied = (do
    m' ← memcpy m (dst + dst_len) src copy_cnt
    ok (src_len + dst_len, update m' (dst + dst_len + copy_cnt) 0))
  if ltb 0 size && ltb dst_len size then copied else ok (src_len + dst_len, m)

-- The loop of `strstr` with `left` places to try.
unfoldable pub strstr_loop : Memory → ℕ → ℕ → ℕ → ℕ → ℕ → Outcome (Option ℕ)
unfolding memcmp
strstr_loop m haystack needle needle_len i zero = ok none
strstr_loop m haystack needle needle_len i (suc left) = do
  let rest = strstr_loop m haystack needle needle_len (i + 1) left
  sign ← memcmp m (haystack + i) needle needle_len
  elim sign [ less ↦ rest | equal ↦ ok (some (haystack + i)) | greater ↦ rest ]

unfoldable pub strstr : ℕ → Memory → ℕ → ℕ → Outcome (Option ℕ)
unfolding strlen strstr_loop
strstr fuel m haystack needle = do
  haystack_len ← strlen fuel m haystack
  needle_len ← strlen fuel m needle
  let search = strstr_loop m haystack needle needle_len 0 (haystack_len - needle_len + 1)
  if leb needle_len haystack_len then search else ok none
