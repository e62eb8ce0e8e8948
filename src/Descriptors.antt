-- ===== src/Descriptors.antt =====
-- The file descriptors of a process: the handlers of src/userprog/syscall.c for open files, on the
-- table of src/userprog/process.h. An open file points to an inode of the table of open inodes, which
-- other files may share. A handler holds `files_lock` while it walks the table, so that each of them
-- is one step, except `handler_open`, which reads the next descriptor before it takes the lock and
-- is two.
pub mod Step
pub mod Life
pub mod Race
mod Tests
use qba.Prelude.{
  ℕ, zero, suc, ◌+◌, ◌%◌, Bool, true, false, not, Option, none, some, List, [], ◌∷◌, ◌++◌, ltb, leb,
  ◌==◌, if◌then◌else◌, update,
}
pub use qba.Prelude.{u32, minus_one}
use qba.Prelude.Outcome.{Outcome, ok, undefined, ◌>>=◌, ◌>>◌, assert}
use qba.FreeMap.{FreeMap}
use qba.Inode.{Inode, Bytes, Disk}
use qba.Inode.Table.{Table, inode_close}
use qba.File.{
  File, file_open, file_read, file_write, file_allow_write, file_length, file_seek, file_tell,
}

-- `struct file`, with the address of its inode.
pub record Opened : Type 0 where
  pub inode : ℕ
  pub pos : ℕ
  pub deny_write : Bool

-- The same with the inode that it points to, and back: a function of file.c on it writes the inode
-- through the pointer.
abbrev pub to_file : Table → Opened → File
to_file t f = record { inode = t.inode f.inode; pos = f.pos; deny_write = f.deny_write }

abbrev pub of_file : Opened → File → Opened
of_file f g = record f { pos = g.pos; deny_write = g.deny_write }

-- `struct file_desc`, without its lock.
pub record FileDesc : Type 0 where
  pub file_desc : ℕ
  pub file : Opened

-- The files of a process and what they reach: the disk, the open inodes, the free map, and what has
-- been printed.
pub record Files : Type 0 where
  pub files_tab : List FileDesc
  pub files_next_desc : ℕ
  pub disk : Disk
  pub table : Table
  pub free_map : FreeMap
  pub console : List ℕ

-- `file_close` of a file that is not null.
unfoldable pub file_close : Opened → Table → FreeMap → Outcome (Table × FreeMap)
unfolding file_allow_write inode_close
file_close f t m = do
  file ← file_allow_write (to_file t f)
  inode_close (some f.inode) (record t { inode = update t.inode f.inode file.inode }) m

-- `list_for_each_entry` to the first entry with the descriptor.
unfoldable pub find_desc : List FileDesc → ℕ → Option FileDesc
find_desc [] fd = none
find_desc (d ∷ ds) fd = if d.file_desc == fd then some d else find_desc ds fd

-- The list without that entry.
unfoldable pub remove_desc : List FileDesc → ℕ → List FileDesc
remove_desc [] fd = []
remove_desc (d ∷ ds) fd = let rest = remove_desc ds fd in if d.file_desc == fd then ds else d ∷ rest

-- A write to the file of that entry.
unfoldable pub put_desc : List FileDesc → ℕ → Opened → List FileDesc
put_desc [] fd f = []
put_desc (d ∷ ds) fd f =
    let rest = put_desc ds fd f in
    if d.file_desc == fd then record d { file = f } ∷ ds else d ∷ rest

unfoldable pub check_fd : ℕ → Files → Bool
check_fd fd p = leb fd p.files_next_desc

-- `handler_open` up to `lock_acquire`: the entry, with the descriptor read from the process. `new_file`
-- is what `filesys_open` answers and `got` whether `malloc` answers memory, which is not tested.
unfoldable pub open_entry : Option Opened → Bool → Files → Outcome (Option FileDesc)
open_entry none got p = ok none
open_entry (some new_file) got p =
    assert (leb 3 p.files_next_desc)
    >> (if got
        then ok (some (record { file_desc = p.files_next_desc; file = new_file }))
        else undefined)

-- The rest: the entry goes into the table under the lock.
unfoldable pub open_insert : Option FileDesc → Files → ℕ × Files
open_insert none p = (minus_one, p)
open_insert (some d) p = (
  d.file_desc,
  record p { files_tab = d ∷ p.files_tab; files_next_desc = u32 (p.files_next_desc + 1) },
)

unfoldable pub handler_open : Option Opened → Bool → Files → Outcome (ℕ × Files)
unfolding open_entry open_insert
handler_open new_file got p = do d ← open_entry new_file got p; ok (open_insert d p)

abbrev pub close_done : ℕ → Files → Table × FreeMap → Outcome (ℕ × Files)
close_done fd p (table, free_map) =
    ok (0, record p { files_tab = remove_desc p.files_tab fd; table = table; free_map = free_map })

abbrev pub close_found : ℕ → Files → Option FileDesc → Outcome (ℕ × Files)
close_found fd p none = ok (minus_one, p)
close_found fd p (some d) = file_close d.file p.table p.free_map >>= close_done fd p

unfoldable pub handler_close : ℕ → Files → Outcome (ℕ × Files)
unfolding find_desc remove_desc file_close
handler_close fd p =
    let closed = close_found fd p (find_desc p.files_tab fd) in
    if ltb fd 3 then ok (minus_one, p) else closed

-- A size or position as an `off_t`: from 2 ^ 31 on it is negative. The loops of `inode_read_at` and
-- `inode_write_at`, which go on while the size is above 0, then move no byte, as for 0.
abbrev pub below_zero : ℕ → Bool
below_zero n = leb 2147483648 n

abbrev pub off_size : ℕ → ℕ
off_size size = if below_zero size then 0 else size

-- A question to the file of a descriptor.
abbrev pub asked : (File → ℕ) → Files → Option FileDesc → ℕ
asked ask p none = minus_one
asked ask p (some d) = ask (to_file p.table d.file)

unfoldable pub handler_filesize : ℕ → Files → ℕ
unfolding find_desc file_length
handler_filesize fd p =
    if ltb fd 3 then minus_one else asked file_length p (find_desc p.files_tab fd)

unfoldable pub handler_tell : ℕ → Files → ℕ
unfolding find_desc file_tell
handler_tell fd p = if ltb fd 3 then minus_one else asked file_tell p (find_desc p.files_tab fd)

abbrev pub seek_found : ℕ → ℕ → Files → Option FileDesc → Outcome (ℕ × Files)
seek_found fd new_pos p none = ok (minus_one, p)
seek_found fd new_pos p (some d) =
    let file = file_seek (to_file p.table d.file) new_pos in
    assert (not (below_zero new_pos))
    >> ok (0, record p { files_tab = put_desc p.files_tab fd (of_file d.file file) })

-- `file_seek` asserts that the position is not negative.
unfoldable pub handler_seek : ℕ → ℕ → Files → Outcome (ℕ × Files)
unfolding find_desc put_desc file_seek
handler_seek fd new_pos p =
    let sought = seek_found fd new_pos p (find_desc p.files_tab fd) in
    if ltb fd 3 then ok (minus_one, p) else sought

-- What a read leaves: its result, the buffer and the files.
abbrev pub Read : Type 0
Read = ℕ × Bytes × Files

abbrev pub read_done : ℕ → Files → FileDesc → Option (ℕ × Bytes × File) → Outcome Read
read_done fd p d none = undefined
read_done fd p d (some (n, buffer, file)) =
    ok (n, buffer, record p { files_tab = put_desc p.files_tab fd (of_file d.file file) })

abbrev pub read_found : Bool → ℕ → Bytes → ℕ → Files → Option FileDesc → Outcome Read
read_found got fd buffer size p none = ok (minus_one, buffer, p)
read_found got fd buffer size p (some d) =
    read_done fd p d (file_read p.disk got (to_file p.table d.file) buffer (off_size size))

-- `keys` are the next answers of `input_getc`, and `got` is what `inode_read_at` takes.
unfoldable pub handler_read : Bytes → Bool → ℕ → Bytes → ℕ → Files → Outcome Read
unfolding find_desc put_desc file_read
handler_read keys got fd buffer size p =
    let found = read_found got fd buffer size p (find_desc p.files_tab fd) in
    if fd == 0
    then ok (size, λ i. if ltb i size then keys i else buffer i, p)
    else if fd == 1
    then ok (minus_one, buffer, p)
    else found

-- The bytes that `putbuf` prints.
abbrev pub put_bytes : Bytes → ℕ → List ℕ
put_bytes buffer zero = []
put_bytes buffer (suc n) = put_bytes buffer n ++ buffer n ∷ []

abbrev pub write_done : ℕ → Files → FileDesc → Option (ℕ × Disk × File) → Outcome (ℕ × Files)
write_done fd p d none = undefined
write_done fd p d (some (n, disk, file)) =
    ok (n, record p { disk = disk; files_tab = put_desc p.files_tab fd (of_file d.file file) })

abbrev pub write_found : Bool → ℕ → Bytes → ℕ → Files → Option FileDesc → Outcome (ℕ × Files)
write_found got fd buffer size p none = ok (minus_one, p)
write_found got fd buffer size p (some d) =
    write_done fd p d (file_write p.disk got (to_file p.table d.file) buffer (off_size size))

unfoldable pub handler_write : Bool → ℕ → Bytes → ℕ → Files → Outcome (ℕ × Files)
unfolding find_desc put_desc file_write
handler_write got fd buffer size p =
    let found = write_found got fd buffer size p (find_desc p.files_tab fd) in
    if fd == 1
    then ok (0, record p { console = p.console ++ put_bytes buffer size })
    else if fd == 0
    then ok (minus_one, p)
    else found
