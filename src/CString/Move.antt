-- ===== src/CString/Move.antt =====
-- `memcpy`, `memmove` and `memset` of src/lib/string.c against the memory that they should leave.
use qba.Prelude.{
  ℕ, zero, suc, ◌+◌, ◌-◌, ◌≤◌, ◌≡◌, ◌≢◌, ◌&&◌, arith, ltb, leb, if◌then◌else◌, ◌⊎◌, inl, inr,
  update, dec_lt,
}
use qba.Prelude.Outcome.{ok}
use qba.CString.{Memory, copy_up, copy_down, memcpy, memmove, fill_loop, memset}

-- The memory with the `size` bytes from `src` on also at `dst`.
abbrev pub moved : Memory → ℕ → ℕ → ℕ → Memory
moved m dst src size a = if leb dst a && ltb a (dst + size) then m (src + (a - dst)) else m a

copy_up_lem :
    (m : Memory) (dst src size : ℕ)
    → (dst ≤ src) ⊎ (src + size ≤ dst)
    → (a : ℕ) → copy_up m dst src size a ≡ moved m dst src size a
unfolding copy_up
copy_up_lem m dst src zero h a = ground arith
copy_up_lem m dst src (suc n) h a =
    ground (arith, copy_up_lem (update m dst (m src)) (dst + 1) (src + 1) n (up h) a)
  where
    up : (dst ≤ src) ⊎ (src + suc n ≤ dst) → (dst + 1 ≤ src + 1) ⊎ (src + 1 + n ≤ dst + 1)
    up (inl e) = inl (omega arith)
    up (inr e) = inr (omega arith)

copy_down_lem :
    (m : Memory) (dst src size : ℕ)
    → src ≤ dst
    → (a : ℕ) → copy_down m dst src size a ≡ moved m dst src size a
unfolding copy_down
copy_down_lem m dst src zero h a = ground arith
copy_down_lem m dst src (suc n) h a =
    ground (arith, copy_down_lem (update m (dst + n) (m (src + n))) dst src n h a)

-- `memcpy` of blocks that do not overlap leaves the bytes of the source at the destination, and all
-- other bytes as they were.
pub memcpy_lem :
    (m : Memory) (dst src size : ℕ)
    → dst ≢ 0
    → src ≢ 0
    → (dst + size ≤ src) ⊎ (src + size ≤ dst)
    → (m' : Memory) × (memcpy m dst src size ≡ ok m') × ((a : ℕ) → m' a ≡ moved m dst src size a)
unfolding memcpy
memcpy_lem m dst src size d s apart =
    (copy_up m dst src size, ground arith, copy_up_lem m dst src size (weaker apart))
  where
    weaker : (dst + size ≤ src) ⊎ (src + size ≤ dst) → (dst ≤ src) ⊎ (src + size ≤ dst)
    weaker (inl e) = inl (omega arith)
    weaker (inr e) = inr e

-- `memmove` leaves the bytes that the source had at the destination, and all other bytes as they
-- were, however the two blocks overlap.
pub memmove_lem :
    (m : Memory) (dst src size : ℕ)
    → dst ≢ 0
    → src ≢ 0
    → (m' : Memory) × (memmove m dst src size ≡ ok m') × ((a : ℕ) → m' a ≡ moved m dst src size a)
unfolding memmove
memmove_lem m dst src size d s = elim (dec_lt dst src) [
  | yes h ↦ (copy_up m dst src size, ground arith, copy_up_lem m dst src size (inl (omega arith)))
  | no h ↦ (copy_down m dst src size, ground arith, copy_down_lem m dst src size (omega arith))
]

fill_loop_lem :
    (m : Memory) (dst value size a : ℕ)
    → fill_loop m dst value size a ≡ (if leb dst a && ltb a (dst + size) then value else m a)
unfolding fill_loop
fill_loop_lem m dst value zero a = ground arith
fill_loop_lem m dst value (suc n) a =
    ground (arith, fill_loop_lem (update m dst value) (dst + 1) value n a)

-- `memset` sets the bytes of the block and no other.
pub memset_lem :
    (m : Memory) (dst value size : ℕ)
    → dst ≢ 0
    → (m' : Memory) × (memset m dst value size ≡ ok m')
      × ((a : ℕ) → m' a ≡ (if leb dst a && ltb a (dst + size) then value else m a))
unfolding memset
memset_lem m dst value size d =
    (fill_loop m dst value size, ground arith, fill_loop_lem m dst value size)
