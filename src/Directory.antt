-- ===== src/Directory.antt =====
-- src/filesys/directory.c, and the files by name of src/filesys/filesys.c. The file of a directory is
-- the list of its entries: a read at a multiple of their size gives one or falls short, at the end of
-- the file or where `inode_read_at` gets no bounce buffer, and a write there replaces one, and writes
-- nothing at the end of the file. A name is the characters before its null byte. Whether the bounce
-- buffers of reads (`got`, by the number of the entry, for each loop) and of the write can be had, and
-- what `inode_open` answers, are arguments.
mod Entries
pub mod Names
pub mod Distinct
pub mod Twice
mod Tests
use qba.Prelude.{
  ℕ, zero, suc, ◌+◌, Bool, true, false, not, ◌&&◌, ◌||◌, Option, none, some, List, [], ◌∷◌, length,
  set, get_elem?, drop, ltb, ◌==◌, if◌then◌else◌,
}
use qba.Prelude.Outcome.{Outcome, ok, ◌>>=◌}
use qba.FreeMap.{FreeMap, free_map_allocate, free_map_release}
use qba.Inode.{InodeDisk, Bytes, Disk}
use qba.Inode.Table.{inode_create}

abbrev pub Name : Type 0
Name = List ℕ

-- `NAME_MAX`
abbrev pub name_max : ℕ
name_max = 14

-- `struct dir_entry`
pub record DirEntry : Type 0 where
  pub inode_sector : ℕ
  pub name : Name
  pub in_use : Bool

-- `!strcmp (a, b)`
abbrev pub same_name : Name → Name → Bool
same_name [] [] = true
same_name [] (b ∷ t) = false
same_name (a ∷ s) [] = false
same_name (a ∷ s) (b ∷ t) = (a == b) && same_name s t

-- The loop of `lookup` from the entry `i` on: the entry and where it is.
unfoldable pub lookup : (ℕ → Bool) → Name → ℕ → List DirEntry → Option (ℕ × DirEntry)
lookup got name i [] = none
lookup got name i (e ∷ es) =
    let rest = lookup got name (i + 1) es in
    let tested = if e.in_use && same_name name e.name then some (i, e) else rest in
    if got i then tested else none

abbrev pub sector_of : Option (ℕ × DirEntry) → Option ℕ
sector_of none = none
sector_of (some (i, e)) = some e.inode_sector

-- The sector that `dir_lookup` opens.
unfoldable pub dir_lookup : (ℕ → Bool) → Name → List DirEntry → Option ℕ
unfolding lookup
dir_lookup got name es = sector_of (lookup got name 0 es)

-- From the entry `i` on: the first entry that is not in use or that is not read, or the end of the
-- file.
unfoldable pub free_slot : (ℕ → Bool) → ℕ → List DirEntry → ℕ
free_slot got i [] = 0
free_slot got i (e ∷ es) =
    let rest = free_slot got (i + 1) es in if got i && e.in_use then suc rest else 0

-- `inode_write_at` of an entry: whether all of it is written.
abbrev pub write_entry : Bool → List DirEntry → ℕ → DirEntry → Bool × List DirEntry
write_entry written es i e =
    if ltb i (length es) && written then (true, set es i e) else (false, es)

abbrev pub is_found : Option (ℕ × DirEntry) → Bool
is_found none = false
is_found (some r) = true

abbrev pub is_empty : Name → Bool
is_empty [] = true
is_empty (c ∷ cs) = false

-- `got` is for the reads of `lookup`, and `got'` for those of the search for a slot.
unfoldable pub dir_add :
    (ℕ → Bool) → (ℕ → Bool) → Bool → Name → ℕ → List DirEntry → Bool × List DirEntry
unfolding lookup free_slot
dir_add got got' written name inode_sector es =
    let e : DirEntry = record { inode_sector = inode_sector; name = name; in_use = true } in
    if is_empty name || ltb name_max (length name)
    then (false, es)
    else if is_found (lookup got name 0 es)
    then (false, es)
    else write_entry written es (free_slot got' 0 es) e

-- `opened` is whether `inode_open` answers an inode, which is then removed where the result is true.
abbrev pub erase : Bool → Bool → List DirEntry → Option (ℕ × DirEntry) → Bool × List DirEntry
erase opened written es none = (false, es)
erase opened written es (some (i, e)) =
    if opened then write_entry written es i (record e { in_use = false }) else (false, es)

unfoldable pub dir_remove : (ℕ → Bool) → Bool → Bool → Name → List DirEntry → Bool × List DirEntry
unfolding lookup
dir_remove got opened written name es = erase opened written es (lookup got name 0 es)

-- The loop of `dir_readdir` over the entries from `pos` on: the name, and where the next read begins.
unfoldable pub next_name : (ℕ → Bool) → List DirEntry → ℕ → Option Name × ℕ
next_name got [] pos = (none, pos)
next_name got (e ∷ es) pos =
    let rest = next_name got es (pos + 1) in
    let named = if e.in_use then (some e.name, pos + 1) else rest in
    if got pos then named else (none, pos)

unfoldable pub dir_readdir : (ℕ → Bool) → List DirEntry → ℕ → Option Name × ℕ
unfolding next_name
dir_readdir got es pos = next_name got (drop pos es) pos

-- The parts of the file system that `filesys_create` changes.
pub record FileSystem : Type 0 where
  pub entries : List DirEntry
  pub disk : Disk
  pub free_map : FreeMap

-- The end of a creation that has failed: the sector of the inode is released if there is one.
abbrev pub undo_create : Option ℕ → FileSystem → Outcome (Bool × FileSystem)
undo_create none fs = ok (false, fs)
undo_create (some zero) fs = ok (false, fs)
undo_create (some (suc s)) fs = do
  m ← free_map_release (suc s) 1 fs.free_map
  ok (false, record fs { free_map = m })

-- `dir_add` and what follows, once the inode has been created or not.
abbrev pub create_entry :
    (ℕ → Bool)
    → (ℕ → Bool)
    → Bool
    → Name
    → ℕ
    → Bool × Disk × FreeMap
    → FileSystem
    → Outcome (Bool × FileSystem)
create_entry got got' written name sector (false, disk, m) fs =
    undo_create (some sector) (record fs { disk = disk; free_map = m })
create_entry got got' written name sector (true, disk, m) fs =
    let (added, es) = dir_add got got' written name sector fs.entries in
    let fs' : FileSystem = record { entries = es; disk = disk; free_map = m } in
    let failed = undo_create (some sector) fs' in if added then ok (true, fs') else failed

abbrev pub create_inode :
    (InodeDisk → Bytes)
    → (ℕ → Bool)
    → (ℕ → Bool)
    → Bool
    → Bool
    → Name
    → ℕ
    → FileSystem
    → Option ℕ × FreeMap
    → Outcome (Bool × FileSystem)
create_inode encode reads reads' got written name initial_size fs (none, m) =
    undo_create none (record fs { free_map = m })
create_inode encode reads reads' got written name initial_size fs (some sector, m) = do
  r ← inode_create encode got written sector initial_size fs.disk m
  create_entry reads reads' written name sector r fs

-- `root` is whether the root directory can be opened; `reads` and `reads'` are those of `dir_add`.
unfoldable pub filesys_create :
    (InodeDisk → Bytes)
    → (ℕ → Bool)
    → (ℕ → Bool)
    → Bool
    → Bool
    → Bool
    → Name
    → ℕ
    → FileSystem
    → Outcome (Bool × FileSystem)
unfolding dir_add free_map_allocate free_map_release inode_create
filesys_create encode reads reads' root got written name initial_size fs =
    let created = (do
      r ← free_map_allocate 1 written fs.free_map
      create_inode encode reads reads' got written name initial_size fs r) in
    if root then created else ok (false, fs)
