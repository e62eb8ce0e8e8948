-- ===== src/Descriptors/Tests.antt =====
-- The theorems on descriptors at a process that opens a file of 1000 bytes.
use qba.Prelude.{ℕ, ◌<◌, ◌≡◌, ◌≢◌, refl, Bool, true, false, some, [], ◌∷◌, arith, update}
use qba.Prelude.Outcome.{ok}
use qba.FreeMap.{FreeMap}
use qba.Inode.{Bytes}
use qba.Inode.Table.{Table, inode_close}
use qba.File.{file_length, file_allow_write}
use qba.Descriptors.{
  Opened, FileDesc, Files, to_file, minus_one, find_desc, open_entry, open_insert, handler_open,
  file_close, handler_close, handler_filesize, handler_tell, handler_seek, handler_read,
  handler_write, check_fd,
}
use qba.Descriptors.Step.{Fresh, opens, starts, then_calls, FdReach-Fresh}
use qba.Descriptors.Life.{handler_close-open, handler_read-seek-write}
use qba.Descriptors.Race.{open_race}

abbrev shared : Table
shared = record {
  inode = λ i. record {
    sector = 3;
    open_cnt = 2;
    removed = false;
    deny_write_cnt = 0;
    content = record { start = 4; length = 1000 };
  };
  open_inodes = 7 ∷ [];
}

abbrev no_map : FreeMap
no_map = record { free_map = record { bit_cnt = 0; bits = [] }; has_file = false }

abbrev opened : Opened
opened = record { inode = 7; pos = 0; deny_write = false }

abbrev process : Files
process = record {
  files_tab = [];
  files_next_desc = 3;
  disk = λ s o. 0;
  table = shared;
  free_map = no_map;
  console = [];
}

abbrev first : FileDesc
first = record { file_desc = 3; file = opened }

abbrev second : FileDesc
second = record { file_desc = 4; file = opened }

abbrev after_open : Files
after_open = record process { files_tab = first ∷ []; files_next_desc = 4 }

abbrev both_open : Files
both_open = record process { files_tab = second ∷ first ∷ []; files_next_desc = 5 }

opens_first : handler_open (some opened) true process ≡ ok (3, after_open)
unfolding handler_open open_entry open_insert
opens_first = refl

FdReach-Fresh_example : Fresh after_open
FdReach-Fresh_example =
    FdReach-Fresh
      (then_calls (starts {p = process} refl refl) (opens (some opened) true opens_first))

abbrev after_close : Table
after_close = record shared {
  inode =
      update (update shared.inode 7 (shared.inode 7)) 7 (record (shared.inode 7) { open_cnt = 1 });
}

closes : file_close opened shared no_map ≡ ok (after_close, no_map)
unfolding file_close file_allow_write inode_close
closes = refl

handler_close-open_example :
    (p' : Files) × (p'' : Files) × (handler_open (some opened) true process ≡ ok (3, p'))
    × (check_fd 3 p' ≡ true)
    × (handler_filesize 3 p' ≡ file_length (to_file shared opened))
    × (handler_tell 3 p' ≡ 0)
    × ((other : ℕ) → other ≢ 3 → find_desc p'.files_tab other ≡ find_desc [] other)
    × (handler_close 3 p' ≡ ok (0, p''))
    × (p''.files_tab ≡ [])
    × (handler_close 3 p'' ≡ ok (minus_one, p''))
    × ((keys buffer : Bytes) (got : Bool) (size : ℕ)
        → handler_read keys got 3 buffer size p'' ≡ ok (minus_one, buffer, p''))
handler_close-open_example =
    handler_close-open opened process after_close no_map (3, tt, (λ h. omega arith), omega arith)
      (omega arith) (omega arith) closes

abbrev counting : Bytes
counting i = i

handler_read-seek-write_example :
    (p' : Files) × (p'' : Files) × (q : Files) × (into' : Bytes) × (handler_write true 3 counting
        300 both_open
      ≡ ok (300, p'))
    × (handler_seek 4 0 p' ≡ ok (0, p''))
    × (handler_read counting true 4 counting 300 p'' ≡ ok (300, into', q))
    × (handler_tell 3 q ≡ 300)
    × ((i : ℕ) → i < 300 → into' i ≡ counting i)
handler_read-seek-write_example =
    handler_read-seek-write both_open first second counting counting counting 300 (omega arith)
      (omega arith) (λ e. omega (arith, e)) (unfold find_desc in refl) (unfold find_desc in refl)
      refl refl (omega arith) (omega arith)

open_race_example :
    (d : FileDesc) × (e : FileDesc) × (p' : Files) × (p'' : Files) × (q : Files) × (q' : Files)
    × (open_entry (some opened) true process ≡ ok (some d))
    × (open_entry (some opened) true process ≡ ok (some e))
    × (open_insert (some d) process ≡ (3, p'))
    × (open_insert (some e) p' ≡ (3, p''))
    × (find_desc p''.files_tab 3 ≡ some e)
    × (e.file ≡ opened)
    × (handler_open (some opened) true process ≡ ok (3, q))
    × (handler_open (some opened) true q ≡ ok (4, q'))
    × (find_desc q'.files_tab 3 ≡ some d)
    × (find_desc q'.files_tab 4 ≡ some (record e { file_desc = 4 }))
open_race_example = open_race opened opened process (omega arith) (omega arith)
