-- ===== src/Directory/Twice.antt =====
-- `dir_add` of src/filesys/directory.c where a read falls short for want of memory.
use qba.Prelude.{ℕ, true}
use qba.Directory.{Name, DirEntry}

abbrev entry : Name → ℕ → DirEntry
entry name s = record { inode_sector = s; name = name; in_use = true }
