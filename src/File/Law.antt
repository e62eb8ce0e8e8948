-- ===== src/File/Law.antt =====
-- Reads and writes through an open file (src/filesys/file.c), and the denial of writes.
use qba.Prelude.{ℕ, ◌+◌, ◌≤◌, ◌<◌, ◌≡◌, refl, true, false, some, arith}
use qba.Prelude.Outcome.{ok}
use qba.Inode.{Bytes, Disk, inode_deny_write, inode_allow_write}
use qba.Inode.Write.{inode_read_at-write_at}
use qba.File.{File, file_read, file_write, file_deny_write, file_allow_write, file_seek, file_tell}

-- Bytes that are written inside the file, by a file that may be written, come back from a read after
-- a seek to where the write began, and the position moves by their number both times.
pub file_read-seek-write :
    (disk : Disk) (file : File) (buffer into : Bytes) (size : ℕ)
    → file.inode.deny_write_cnt ≡ 0
    → file.pos + size ≤ file.inode.content.length
    → (disk' : Disk) × (file' : File) × (into' : Bytes) × (file'' : File) × (file_write disk true
          file buffer size
        ≡ some (size, disk', file'))
      × (file_read disk' true (file_seek file' file.pos) into size ≡ some (size, into', file''))
      × (file_tell file' ≡ file.pos + size)
      × (file_tell file'' ≡ file.pos + size)
      × ((i : ℕ) → i < size → into' i ≡ buffer i)
unfolding file_write file_read file_seek file_tell
file_read-seek-write disk file buffer into size open_for h =
    let (disk', into', e, f, same) =
      inode_read_at-write_at disk file.inode buffer into size file.pos open_for h in
    (
      disk',
      record file { pos = file.pos + size },
      into',
      record file { pos = file.pos + size },
      rw e refl,
      rw f refl,
      refl,
      refl,
      same,
    )

-- The number of files that deny writes to an inode is at most the number that have it open.
abbrev pub MayDeny : File → Type 0
MayDeny file = file.inode.deny_write_cnt < file.inode.open_cnt

-- A file that does not deny writes, where another opener may still deny, denies them once however
-- often it is asked to: writes are denied then, and one call that allows them gives the file back.
pub file_allow_write-deny_write :
    (file : File)
    → file.deny_write ≡ false
    → MayDeny file
    → (file' : File) × (file_deny_write file ≡ ok file')
      × (file_deny_write file' ≡ ok file')
      × (0 < file'.inode.deny_write_cnt)
      × (file_allow_write file' ≡ ok file)
unfolding file_deny_write file_allow_write inode_deny_write inode_allow_write
file_allow_write-deny_write file d may = (
  record file {
    deny_write = true;
    inode = record (file.inode) { deny_write_cnt = file.inode.deny_write_cnt + 1 };
  },
  ground arith,
  refl,
  omega arith,
  ground arith,
)
