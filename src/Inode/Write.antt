-- ===== src/Inode/Write.antt =====
-- `inode_write_at` against the file as a sequence of bytes.
use qba.Prelude.{
  ℕ, zero, suc, ◌+◌, ◌-◌, ◌*◌, ◌%◌, ◌≤◌, ◌<◌, ◌≡◌, ◌≢◌, refl, subst, ap, sym, ◌∙◌, Bool, true,
  false, not, ◌&&◌, ◌||◌, Option, some, arith, ltb, leb, ◌==◌, if◌then◌else◌, ◌⊎◌, inl, inr, dec_lt,
  ℕ_discrete, Bool-cases, update,
}
use qba.Inode.{
  Inode, Bytes, Disk, block_sector_size, chunk, sector_of, is_full, inode_read_at, new_sector,
  write_loop, inode_write_at,
}
use qba.Inode.Data.{byte, available, chunk-bounds, read_bytes, inode_read_at_lem}

-- Where in the file, as if it had no end, the byte `o` of the sector `s` is.
abbrev pub position : Inode → ℕ → ℕ → ℕ
position inode s o = (s - inode.content.start) * block_sector_size + o

-- Whether that is one of the `n` positions from `offset` on.
abbrev pub covers : Inode → ℕ → ℕ → ℕ → ℕ → Bool
covers inode offset n s o =
    leb inode.content.start s
    && (leb offset (position inode s o) && ltb (position inode s o) (offset + n))

-- The disk with `n` bytes of the buffer, from `at` on, in the file from `offset` on.
abbrev pub written_bytes : Disk → Inode → Bytes → ℕ → ℕ → ℕ → ℕ → ℕ → ℕ
written_bytes disk inode buffer at offset n s o =
    if covers inode offset n s o then buffer (at + (position inode s o - offset)) else disk s o

-- `n` more bytes have been written, all that the file has room for if the bounce buffer could be had,
-- and no other byte of the disk has changed.
abbrev pub Wrote : Disk → Inode → Bool → Bytes → ℕ → ℕ → ℕ → Option (ℕ × Disk) → Type 0
Wrote disk inode got buffer size offset at r =
    (n : ℕ) × (disk' : Disk) × (r ≡ some (at + n, disk'))
    × (n ≤ available inode size offset)
    × (got ≡ true → n ≡ available inode size offset)
    × ((s o : ℕ)
        → o < block_sector_size
        → disk' s o ≡ written_bytes disk inode buffer at offset n s o)

-- The cells of the disk that a chunk covers.
chunk-covers :
    (inode : Inode) (offset c s o : ℕ)
    → offset % block_sector_size + c ≤ block_sector_size
    → o < block_sector_size
    → covers inode offset c s o ≡ (
        (s == sector_of inode offset)
        && (leb (offset % block_sector_size) o && ltb o (offset % block_sector_size + c)))
chunk-covers inode offset c s o fits h = ground arith

write_one :
    (disk : Disk) (inode : Inode) (buffer : Bytes) (at offset c s o : ℕ)
    → offset % block_sector_size + c ≤ block_sector_size
    → o < block_sector_size
    → update disk (sector_of inode offset) (new_sector disk inode buffer offset at c) s o
      ≡ written_bytes disk inode buffer at offset c s o
unfolding new_sector
write_one disk inode buffer at offset c s o fits h =
    ground (arith, chunk-covers inode offset c s o fits h)

write_twice :
    (disk disk₁ : Disk) (inode : Inode) (buffer : Bytes) (at offset c n s o : ℕ)
    → disk₁ s o ≡ written_bytes disk inode buffer at offset c s o
    → written_bytes disk₁ inode buffer (at + c) (offset + c) n s o
      ≡ written_bytes disk inode buffer at offset (c + n) s o
write_twice disk disk₁ inode buffer at offset c n s o e =
    elim (dec_lt (position inode s o) (offset + c)) [
      | yes early ↦ ground (arith, e)
      | no late ↦
          let same : at + c + (position inode s o - (offset + c))
              ≡ at + (position inode s o - offset) =
            omega arith in
          ground (arith, e, ap buffer same)
    ]

write_loop_lem :
    (fuel : ℕ) (disk : Disk) (inode : Inode) (got : Bool) (buffer : Bytes) (size offset at : ℕ)
    → size < fuel
    → Wrote disk inode got buffer size offset at
        (write_loop fuel disk inode got buffer size offset at)
unfolding write_loop
write_loop_lem zero disk inode got buffer size offset at f = absurd (omega arith)
write_loop_lem (suc fuel) disk inode got buffer size offset at f =
    let c = chunk inode size offset in
    let (most, fits, ends) = chunk-bounds inode size offset in
    let disk₁ = update disk (sector_of inode offset) (new_sector disk inode buffer offset at c) in
    elim (Bool-cases ((c == 0) || (not (is_full offset c) && not got))) [
      | inl stop ↦ (
        0,
        disk,
        rw stop (ground arith),
        omega arith,
        (λ g. ground (arith, ends)),
        λ s o h. ground arith,
      )
      | inr go ↦
          let (n, disk', e, le, whole, cells) =
            write_loop_lem fuel disk₁ inode got buffer (size - c) (offset + c) (at + c)
              (ground arith) in
          (
            c + n,
            disk',
            rw go (ground (arith, e)),
            ground (arith, le),
            (λ g. ground (arith, whole g)),
            λ s o h.
                cells s o h
                ∙ write_twice disk disk₁ inode buffer at offset c n s o
                    (write_one disk inode buffer at offset c s o fits h),
          )
    ]

-- `inode_write_at` to an inode that may be written ends, with the bytes of the buffer in the file
-- from `offset` on and every other byte of the disk as it was: all of them that the file has room
-- for if the bounce buffer can be had, and otherwise a first part of these. If writes are denied it
-- answers 0 and leaves the disk alone.
pub inode_write_at_lem :
    (disk : Disk) (inode : Inode) (got : Bool) (buffer : Bytes) (size offset : ℕ)
    → ((inode.deny_write_cnt ≡ 0)
        × Wrote disk inode got buffer size offset 0
            (inode_write_at disk inode got buffer size offset))
      ⊎ ((inode.deny_write_cnt ≢ 0)
          × (inode_write_at disk inode got buffer size offset ≡ some (0, disk)))
unfolding inode_write_at
inode_write_at_lem disk inode got buffer size offset = elim (ℕ_discrete inode.deny_write_cnt 0) [
  | yes e ↦ inl (
    e,
    subst (Wrote disk inode got buffer size offset 0)
        (sym (
          ap
            (λ b.
              if b
              then write_loop (suc size) disk inode got buffer size offset 0
              else some (0, disk))
            (allowed e)))
        (write_loop_lem (suc size) disk inode got buffer size offset 0 (omega arith)),
  )
  | no ne ↦ inr (
    ne,
    ap
        (λ b.
          if b then write_loop (suc size) disk inode got buffer size offset 0 else some (0, disk))
        (denied ne),
  )
]
  where
    allowed : inode.deny_write_cnt ≡ 0 → (inode.deny_write_cnt == 0) ≡ true
    allowed e = ground arith

    denied : inode.deny_write_cnt ≢ 0 → (inode.deny_write_cnt == 0) ≡ false
    denied ne = ground arith

back :
    (inode : Inode) (disk disk' : Disk) (buffer into into' : Bytes) (offset n m i : ℕ)
    → i < n
    → i < m
    → byte disk' inode (offset + i)
      ≡ written_bytes disk inode buffer 0 offset n
          (sector_of inode (offset + i))
          ((offset + i) % block_sector_size)
    → into' i ≡ read_bytes disk' inode into 0 offset m i
    → into' i ≡ buffer i
back inode disk disk' buffer into into' offset n m i p q e f =
    let there : position inode (sector_of inode (offset + i)) ((offset + i) % block_sector_size)
        ≡ offset + i =
      omega arith in
    let first : i - 0 ≡ i = omega arith in
    ground (
      arith,
      e,
      f,
      ap (λ i. byte disk' inode (offset + i)) first,
      ap (λ p. buffer (0 + (p - offset))) there,
      ap buffer (i_is),
    )
  where
    i_is : 0 + (offset + i - offset) ≡ i
    i_is = omega arith

-- What has been written to a range inside the file is what a read of the range gives.
pub inode_read_at-write_at :
    (disk : Disk) (inode : Inode) (buffer into : Bytes) (size offset : ℕ)
    → inode.deny_write_cnt ≡ 0
    → offset + size ≤ inode.content.length
    → (disk' : Disk) × (into' : Bytes) × (inode_write_at disk inode true buffer size offset
        ≡ some (size, disk'))
      × (inode_read_at disk' inode true into size offset ≡ some (size, into'))
      × ((i : ℕ) → i < size → into' i ≡ buffer i)
inode_read_at-write_at disk inode buffer into size offset open_for h =
    elim (inode_write_at_lem disk inode true buffer size offset) [
      | inr (ne, e) ↦ absurd (ne open_for)
      | inl (z, (n, disk', e, le, whole, cells)) ↦
          let (m, into', f, le', whole', bytes) =
            inode_read_at_lem disk' inode true into size offset in
          let all : n ≡ size = ground (arith, whole refl) in
          let all' : m ≡ size = ground (arith, whole' refl) in
          (
            disk',
            into',
            ground (arith, e),
            ground (arith, f),
            λ i p.
                back inode disk disk' buffer into into' offset n m i (omega arith) (omega arith)
                  (cells _ _ (omega arith)) (bytes i),
          )
    ]
