-- ===== src/Inode/Tests.antt =====
-- The theorems on reads and writes at a file of 1000 bytes.
use qba.Prelude.{ℕ, ◌<◌, ◌≡◌, ◌≢◌, refl, true, false, ◌⊎◌, arith, some}
use qba.Inode.{Inode, Bytes, Disk, inode_read_at, inode_write_at}
use qba.Inode.Data.{Read, inode_read_at_lem}
use qba.Inode.Write.{Wrote, inode_write_at_lem, inode_read_at-write_at}

abbrev thousand : Inode
thousand = record {
  sector = 3;
  open_cnt = 1;
  removed = false;
  deny_write_cnt = 0;
  content = record { start = 4; length = 1000 };
}

abbrev ones : Disk
ones s o = 1

abbrev counting : Bytes
counting i = i

inode_read_at_lem_example :
    Read ones thousand true counting 700 500 0 (inode_read_at ones thousand true counting 700 500)
inode_read_at_lem_example = inode_read_at_lem ones thousand true counting 700 500

inode_write_at_lem_example :
    ((thousand.deny_write_cnt ≡ 0)
      × Wrote ones thousand true counting 700 500 0
          (inode_write_at ones thousand true counting 700 500))
    ⊎ ((thousand.deny_write_cnt ≢ 0)
        × (inode_write_at ones thousand true counting 700 500 ≡ some (0, ones)))
inode_write_at_lem_example = inode_write_at_lem ones thousand true counting 700 500

inode_read_at-write_at_example :
    (disk' : Disk) × (into' : Bytes) × (inode_write_at ones thousand true counting 300 500
      ≡ some (300, disk'))
    × (inode_read_at disk' thousand true counting 300 500 ≡ some (300, into'))
    × ((i : ℕ) → i < 300 → into' i ≡ counting i)
inode_read_at-write_at_example =
    inode_read_at-write_at ones thousand counting counting 300 500 refl (omega arith)
