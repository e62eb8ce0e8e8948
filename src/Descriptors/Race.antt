-- ===== src/Descriptors/Race.antt =====
-- `handler_open` of two threads of one process: each reads the next descriptor before it takes
-- `files_lock`, so that both may read before either inserts.
use qba.Prelude.{◌+◌, ◌≤◌, ◌<◌, ◌≡◌, refl, true, some, ◌∷◌, arith}
use qba.Prelude.Outcome.{ok}
use qba.Descriptors.{Opened, FileDesc, Files, u32, find_desc, open_entry, open_insert, handler_open}

-- If two threads of a process both read the next descriptor before either takes the lock, both calls
-- answer the same descriptor and the file of the one that inserts first cannot be reached any more,
-- while one call after the other gives two descriptors, each with its own file.
pub open_race :
    (f g : Opened) (p : Files)
    → 3 ≤ p.files_next_desc
    → p.files_next_desc < 4294967295
    → let fd = p.files_next_desc in
      (d : FileDesc) × (e : FileDesc) × (p' : Files) × (p'' : Files) × (q : Files) × (q' : Files)
      × (open_entry (some f) true p ≡ ok (some d))
      × (open_entry (some g) true p ≡ ok (some e))
      × (open_insert (some d) p ≡ (fd, p'))
      × (open_insert (some e) p' ≡ (fd, p''))
      × (find_desc p''.files_tab fd ≡ some e)
      × (e.file ≡ g)
      × (handler_open (some f) true p ≡ ok (fd, q))
      × (handler_open (some g) true q ≡ ok (fd + 1, q'))
      × (find_desc q'.files_tab fd ≡ some d)
      × (find_desc q'.files_tab (fd + 1) ≡ some (record e { file_desc = fd + 1 }))
unfolding open_entry open_insert handler_open find_desc
open_race f g p three room =
    let d : FileDesc = record { file_desc = p.files_next_desc; file = f } in
    let e : FileDesc = record { file_desc = p.files_next_desc; file = g } in
    let e' : FileDesc = record { file_desc = p.files_next_desc + 1; file = g } in
    (
      d,
      e,
      record p { files_tab = d ∷ p.files_tab; files_next_desc = p.files_next_desc + 1 },
      record p { files_tab = e ∷ d ∷ p.files_tab; files_next_desc = u32 (p.files_next_desc + 2) },
      record p { files_tab = d ∷ p.files_tab; files_next_desc = p.files_next_desc + 1 },
      record p { files_tab = e' ∷ d ∷ p.files_tab; files_next_desc = u32 (p.files_next_desc + 2) },
      ground arith,
      ground arith,
      ground arith,
      ground arith,
      ground arith,
      refl,
      ground arith,
      ground arith,
      ground arith,
      ground arith,
    )
