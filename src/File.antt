-- ===== src/File.antt =====
-- src/filesys/file.c: an open file is an inode, a position and whether it denies writes to the inode.
-- The functions here are on the `struct file` and the `struct inode` that it points to.
pub mod Law
use qba.Prelude.{ℕ, ◌+◌, Bool, true, false, Option, none, some, if◌then◌else◌}
use qba.Prelude.Outcome.{Outcome, ok, panic, ◌>>=◌}
use qba.Inode.{
  Inode, Bytes, Disk, inode_length, inode_read_at, inode_write_at, inode_deny_write,
  inode_allow_write,
}

-- `struct file` with the inode that its `inode` points to.
pub record File : Type 0 where
  pub inode : Inode
  pub pos : ℕ
  pub deny_write : Bool

-- `got` is whether `calloc` answers memory; `none` is the null pointer, where `file_open` also closes
-- the inode.
unfoldable pub file_open : Option Inode → Bool → Option File
file_open none got = none
file_open (some inode) false = none
file_open (some inode) true = some (record { inode = inode; pos = 0; deny_write = false })

abbrev advance : File → Option (ℕ × Bytes) → Option (ℕ × Bytes × File)
advance file none = none
advance file (some (n, buffer)) = some (n, buffer, record file { pos = file.pos + n })

unfoldable pub file_read : Disk → Bool → File → Bytes → ℕ → Option (ℕ × Bytes × File)
unfolding inode_read_at
file_read disk got file buffer size =
    advance file (inode_read_at disk file.inode got buffer size file.pos)

unfoldable pub file_read_at : Disk → Bool → File → Bytes → ℕ → ℕ → Option (ℕ × Bytes)
unfolding inode_read_at
file_read_at disk got file buffer size file_ofs =
    inode_read_at disk file.inode got buffer size file_ofs

abbrev advance_written : File → Option (ℕ × Disk) → Option (ℕ × Disk × File)
advance_written file none = none
advance_written file (some (n, disk)) = some (n, disk, record file { pos = file.pos + n })

unfoldable pub file_write : Disk → Bool → File → Bytes → ℕ → Option (ℕ × Disk × File)
unfolding inode_write_at
file_write disk got file buffer size =
    advance_written file (inode_write_at disk file.inode got buffer size file.pos)

unfoldable pub file_write_at : Disk → Bool → File → Bytes → ℕ → ℕ → Option (ℕ × Disk)
unfolding inode_write_at
file_write_at disk got file buffer size file_ofs =
    inode_write_at disk file.inode got buffer size file_ofs

unfoldable pub file_deny_write : File → Outcome File
unfolding inode_deny_write
file_deny_write file =
    let denies = (do
      inode ← inode_deny_write file.inode
      ok (record file { deny_write = true; inode = inode })) in
    if file.deny_write then ok file else denies

unfoldable pub file_allow_write : File → Outcome File
unfolding inode_allow_write
file_allow_write file =
    let allows = (do
      inode ← inode_allow_write file.inode
      ok (record file { deny_write = false; inode = inode })) in
    if file.deny_write then allows else ok file

unfoldable pub file_length : File → ℕ
unfolding inode_length
file_length file = inode_length file.inode

unfoldable pub file_seek : File → ℕ → File
file_seek file new_pos = record file { pos = new_pos }

unfoldable pub file_tell : File → ℕ
file_tell file = file.pos
