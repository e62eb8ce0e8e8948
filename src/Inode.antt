-- ===== src/Inode.antt =====
-- src/filesys/inode.c: files of fixed length in consecutive sectors. The disk gives each sector its
-- 512 bytes, a buffer is a function from offsets to bytes, and `off_t` and sector numbers are numbers
-- (a negative size or offset is not modelled). What `malloc` and `calloc` answer is an argument of
-- the functions that call them.
pub mod Data
pub mod Write
pub mod Table
mod Tests
use qba.Prelude.{
  ℕ, zero, suc, ◌+◌, ◌-◌, ◌*◌, ◌/◌, ◌%◌, Bool, true, false, not, ◌&&◌, ◌||◌, Option, none, some,
  List, [], ◌∷◌, ltb, leb, ◌==◌, if◌then◌else◌, update,
}
use qba.Prelude.Outcome.{Outcome, ok, panic, undefined, ◌>>=◌, ◌>>◌, assert}
use qba.FreeMap.{FreeMap, free_map_allocate, free_map_release}
use qba.Threads.Order.{remove, mem}

-- `BLOCK_SECTOR_SIZE`
abbrev pub block_sector_size : ℕ
block_sector_size = 512

-- `struct inode_disk`, without the magic number.
pub record InodeDisk : Type 0 where
  pub start : ℕ
  pub length : ℕ

-- `struct inode`
pub record Inode : Type 0 where
  pub sector : ℕ
  pub open_cnt : ℕ
  pub removed : Bool
  pub deny_write_cnt : ℕ
  pub content : InodeDisk

abbrev pub Bytes : Type 0
Bytes = ℕ → ℕ

-- Sector numbers to sectors.
abbrev pub Disk : Type 0
Disk = ℕ → Bytes

unfoldable pub bytes_to_sectors : ℕ → ℕ
bytes_to_sectors size = (size + block_sector_size - 1) / block_sector_size

-- `none` is the sector -1.
unfoldable pub byte_to_sector : Inode → ℕ → Option ℕ
byte_to_sector inode pos =
    if ltb pos inode.content.length
    then some (inode.content.start + pos / block_sector_size)
    else none

unfoldable pub inode_length : Inode → ℕ
inode_length inode = inode.content.length

abbrev pub lesser : ℕ → ℕ → ℕ
lesser a b = if ltb a b then a else b

-- `chunk_size` of both loops, where 0 stands for any value that ends them: `inode_left` stops at 0.
unfoldable pub chunk : Inode → ℕ → ℕ → ℕ
unfolding inode_length
chunk inode size offset =
    let inode_left = inode_length inode - offset in
    let sector_left = block_sector_size - offset % block_sector_size in
    lesser size (lesser inode_left sector_left)

-- `memcpy (dst + dst_ofs, src + src_ofs, size)` on two buffers.
abbrev pub copied : Bytes → ℕ → Bytes → ℕ → ℕ → Bytes
copied dst dst_ofs src src_ofs size i =
    if leb dst_ofs i && ltb i (dst_ofs + size) then src (src_ofs + (i - dst_ofs)) else dst i

-- A block goes between disk and buffer as a whole.
abbrev pub is_full : ℕ → ℕ → Bool
is_full offset chunk_size = (offset % block_sector_size == 0) && (chunk_size == block_sector_size)

-- The sector that `byte_to_sector` gives; the loops ask for it only inside the file.
abbrev pub sector_of : Inode → ℕ → ℕ
sector_of inode offset = inode.content.start + offset / block_sector_size

-- The loop of `inode_read_at` on fuel; `got` tells whether the bounce buffer can be had. It gives the
-- number of bytes read and the buffer.
unfoldable pub read_loop : ℕ → Disk → Inode → Bool → Bytes → ℕ → ℕ → ℕ → Option (ℕ × Bytes)
unfolding chunk
read_loop zero disk inode got buffer size offset bytes_read = none
read_loop (suc fuel) disk inode got buffer size offset bytes_read =
    let chunk_size = chunk inode size offset in
    let buffer' =
      copied buffer bytes_read (disk (sector_of inode offset)) (offset % block_sector_size)
        chunk_size in
    let rest =
      read_loop fuel disk inode got buffer' (size - chunk_size) (offset + chunk_size)
        (bytes_read + chunk_size) in
    if (chunk_size == 0) || (not (is_full offset chunk_size) && not got)
    then some (bytes_read, buffer)
    else rest

unfoldable pub inode_read_at : Disk → Inode → Bool → Bytes → ℕ → ℕ → Option (ℕ × Bytes)
unfolding read_loop
inode_read_at disk inode got buffer size offset =
    read_loop (suc size) disk inode got buffer size offset 0

-- The sector to write: the chunk over what the sector had, over zeros if the chunk covers the end of
-- the sector from its start.
unfoldable pub new_sector : Disk → Inode → Bytes → ℕ → ℕ → ℕ → Bytes
new_sector disk inode buffer offset bytes_written chunk_size =
    let sector_ofs = offset % block_sector_size in
    let sector_left = block_sector_size - sector_ofs in
    let bounce =
      if ltb 0 sector_ofs || ltb chunk_size sector_left
      then disk (sector_of inode offset)
      else (λ i. 0) in
    copied bounce sector_ofs buffer bytes_written chunk_size

unfoldable pub write_loop : ℕ → Disk → Inode → Bool → Bytes → ℕ → ℕ → ℕ → Option (ℕ × Disk)
unfolding chunk new_sector
write_loop zero disk inode got buffer size offset bytes_written = none
write_loop (suc fuel) disk inode got buffer size offset bytes_written =
    let chunk_size = chunk inode size offset in
    let disk' =
      update disk (sector_of inode offset)
        (new_sector disk inode buffer offset bytes_written chunk_size) in
    let rest =
      write_loop fuel disk' inode got buffer (size - chunk_size) (offset + chunk_size)
        (bytes_written + chunk_size) in
    if (chunk_size == 0) || (not (is_full offset chunk_size) && not got)
    then some (bytes_written, disk)
    else rest

unfoldable pub inode_write_at : Disk → Inode → Bool → Bytes → ℕ → ℕ → Option (ℕ × Disk)
unfolding write_loop
inode_write_at disk inode got buffer size offset =
    let written = write_loop (suc size) disk inode got buffer size offset 0 in
    if inode.deny_write_cnt == 0 then written else some (0, disk)

unfoldable pub inode_reopen : Inode → Inode
inode_reopen inode = record inode { open_cnt = inode.open_cnt + 1 }

unfoldable pub inode_remove : Inode → Inode
inode_remove inode = record inode { removed = true }

unfoldable pub inode_deny_write : Inode → Outcome Inode
inode_deny_write inode = do
  let inode' = record inode { deny_write_cnt = inode.deny_write_cnt + 1 }
  assert (leb inode'.deny_write_cnt inode'.open_cnt)
  ok inode'

unfoldable pub inode_allow_write : Inode → Outcome Inode
inode_allow_write inode = do
  assert (ltb 0 inode.deny_write_cnt)
  assert (leb inode.deny_write_cnt inode.open_cnt)
  ok (record inode { deny_write_cnt = inode.deny_write_cnt - 1 })
