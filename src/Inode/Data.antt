-- ===== src/Inode/Data.antt =====
-- `inode_read_at` and `inode_write_at` against the file as a sequence of bytes.
use qba.Prelude.{
  ℕ, zero, suc, ◌+◌, ◌-◌, ◌%◌, ◌≤◌, ◌<◌, ◌≡◌, ap, ◌∙◌, Bool, true, not, ◌&&◌, ◌||◌, Option, some,
  arith, ltb, leb, ◌==◌, if◌then◌else◌, inl, inr, dec_lt, dec_le, Bool-cases,
}
use qba.Inode.{
  Inode, Bytes, Disk, block_sector_size, chunk, copied, sector_of, is_full, inode_length, lesser,
  read_loop, inode_read_at,
}

-- The byte of the file at a position.
abbrev pub byte : Disk → Inode → ℕ → ℕ
byte disk inode pos = disk (sector_of inode pos) (pos % block_sector_size)

-- How much of a range from `offset` on lies in the file.
abbrev pub available : Inode → ℕ → ℕ → ℕ
available inode size offset = lesser size (inode.content.length - offset)

-- Facts on one chunk.
pub chunk-bounds :
    (inode : Inode) (size offset : ℕ)
    → (chunk inode size offset ≤ available inode size offset)
      × (offset % block_sector_size + chunk inode size offset ≤ block_sector_size)
      × (chunk inode size offset ≡ 0 → available inode size offset ≡ 0)
unfolding chunk inode_length
chunk-bounds inode size offset = (ground arith, ground arith, λ e. ground arith)

-- The positions of a chunk are in the sector of its first.
pub chunk-place :
    (inode : Inode) (offset i n : ℕ)
    → offset % block_sector_size + n ≤ block_sector_size
    → i < n
    → (sector_of inode (offset + i) ≡ sector_of inode offset)
      × ((offset + i) % block_sector_size ≡ offset % block_sector_size + i)
chunk-place inode offset i n h p = (omega arith, omega arith)

-- What a read leaves in the buffer from `at` on.
abbrev pub read_bytes : Disk → Inode → Bytes → ℕ → ℕ → ℕ → ℕ → ℕ
read_bytes disk inode buffer at offset n i =
    if leb at i && ltb i (at + n) then byte disk inode (offset + (i - at)) else buffer i

-- `n` more bytes have been read, all that there are if the bounce buffer could be had.
abbrev pub Read : Disk → Inode → Bool → Bytes → ℕ → ℕ → ℕ → Option (ℕ × Bytes) → Type 0
Read disk inode got buffer size offset at r =
    (n : ℕ) × (buffer' : Bytes) × (r ≡ some (at + n, buffer'))
    × (n ≤ available inode size offset)
    × (got ≡ true → n ≡ available inode size offset)
    × ((i : ℕ) → buffer' i ≡ read_bytes disk inode buffer at offset n i)

-- Two reads in a row, the first within a sector.
read_twice :
    (disk : Disk) (inode : Inode) (buffer : Bytes) (at offset c n i : ℕ)
    → offset % block_sector_size + c ≤ block_sector_size
    → read_bytes disk inode
        (copied buffer at (disk (sector_of inode offset)) (offset % block_sector_size) c)
        (at + c)
        (offset + c)
        n
        i
      ≡ read_bytes disk inode buffer at offset (c + n) i
read_twice disk inode buffer at offset c n i fits = elim (dec_lt i (at + c)) [
  | no late ↦
      let same : offset + c + (i - (at + c)) ≡ offset + (i - at) = omega arith in
      ground (arith, ap (byte disk inode) same)
  | yes early ↦ elim (dec_le at i) [
    | no before ↦ ground arith
    | yes here ↦
        let (s, o) = chunk-place inode offset (i - at) c fits (omega arith) in
        ground (
          arith,
          ap (λ s. disk s ((offset + (i - at)) % block_sector_size)) s,
          ap (disk (sector_of inode offset)) o,
        )
  ]
]

read_loop_lem :
    (fuel : ℕ) (disk : Disk) (inode : Inode) (got : Bool) (buffer : Bytes) (size offset at : ℕ)
    → size < fuel
    → Read disk inode got buffer size offset at
        (read_loop fuel disk inode got buffer size offset at)
unfolding read_loop
read_loop_lem zero disk inode got buffer size offset at f = absurd (omega arith)
read_loop_lem (suc fuel) disk inode got buffer size offset at f =
    let c = chunk inode size offset in
    let (most, fits, ends) = chunk-bounds inode size offset in
    elim (Bool-cases ((c == 0) || (not (is_full offset c) && not got))) [
      | inl stop ↦ (
        0,
        buffer,
        rw stop (ground arith),
        omega arith,
        (λ g. ground (arith, ends)),
        λ i. ground arith,
      )
      | inr go ↦
          let (n, buffer', e, le, whole, bytes) =
            read_loop_lem fuel disk inode got
              (copied buffer at (disk (sector_of inode offset)) (offset % block_sector_size) c)
              (size - c) (offset + c) (at + c) (ground arith) in
          (
            c + n,
            buffer',
            rw go (ground (arith, e)),
            ground (arith, le),
            (λ g. ground (arith, whole g)),
            λ i. bytes i ∙ read_twice disk inode buffer at offset c n i fits,
          )
    ]

-- `inode_read_at` ends, with the bytes of the file from `offset` on in the buffer and the rest of the
-- buffer as it was: all that the file has there if the bounce buffer can be had, and otherwise a
-- first part of these.
pub inode_read_at_lem :
    (disk : Disk) (inode : Inode) (got : Bool) (buffer : Bytes) (size offset : ℕ)
    → Read disk inode got buffer size offset 0 (inode_read_at disk inode got buffer size offset)
unfolding inode_read_at
inode_read_at_lem disk inode got buffer size offset =
    read_loop_lem (suc size) disk inode got buffer size offset 0 (omega arith)
