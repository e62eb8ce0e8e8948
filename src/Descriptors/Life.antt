-- ===== src/Descriptors/Life.antt =====
-- One descriptor from `open` to `close`, and two descriptors of one file.
use qba.Prelude.{
  ℕ, ◌+◌, ◌≤◌, ◌<◌, ◌≡◌, ◌≢◌, refl, sym, ◌∙◌, Bool, true, false, Option, none, some, List, [], ◌∷◌,
  ltb, ◌==◌, arith,
}
use qba.Prelude.Outcome.{ok}
use qba.Inode.{Bytes, Disk}
use qba.Inode.Write.{inode_read_at-write_at}
use qba.FreeMap.{FreeMap}
use qba.Inode.Table.{Table}
use qba.File.{File, file_length, file_tell, file_seek, file_read, file_write}
use qba.Descriptors.{
  Opened, FileDesc, Files, to_file, of_file, minus_one, find_desc, remove_desc, put_desc,
  open_entry, open_insert, handler_open, file_close, handler_close, handler_filesize, handler_seek,
  handler_tell, handler_read, handler_write, check_fd, below_zero,
}
use qba.Descriptors.Step.{Under, Fresh}

find_desc_above : (n fd : ℕ) (ds : List FileDesc) → Under n ds → n ≤ fd → find_desc ds fd ≡ none
unfolding find_desc
find_desc_above n fd [] u h = refl
find_desc_above n fd (d ∷ ds) (a, b, u) h =
    ground (arith, find_desc_above d.file_desc fd ds u (omega arith))

not_low : (fd : ℕ) → 3 ≤ fd → ltb fd 3 ≡ false
not_low fd h = ground arith

unequal : (a b : ℕ) → a ≢ b → (a == b) ≡ false
unequal a b h = ground arith

same : (a : ℕ) → (a == a) ≡ true
same a = ground arith

-- An open file of a process gets the next descriptor. Until the next call, the file answers for it
-- with its own length and position, every other descriptor answers as before, and once it has been
-- closed, which gives the table back as it was, reads and a second close of it fail.
pub handler_close-open :
    (f : Opened) (p : Files) (t : Table) (m : FreeMap)
    → Fresh p
    → 3 ≤ p.files_next_desc
    → p.files_next_desc < 4294967295
    → file_close f p.table p.free_map ≡ ok (t, m)
    → let fd = p.files_next_desc in
      (p' : Files) × (p'' : Files) × (handler_open (some f) true p ≡ ok (fd, p'))
      × (check_fd fd p' ≡ true)
      × (handler_filesize fd p' ≡ file_length (to_file p.table f))
      × (handler_tell fd p' ≡ f.pos)
      × ((other : ℕ) → other ≢ fd → find_desc p'.files_tab other ≡ find_desc p.files_tab other)
      × (handler_close fd p' ≡ ok (0, p''))
      × (p''.files_tab ≡ p.files_tab)
      × (handler_close fd p'' ≡ ok (minus_one, p''))
      × ((keys buffer : Bytes) (got : Bool) (size : ℕ)
          → handler_read keys got fd buffer size p'' ≡ ok (minus_one, buffer, p''))
unfolding handler_open open_entry open_insert handler_close handler_filesize handler_tell
    handler_read check_fd find_desc remove_desc file_length file_tell
handler_close-open f p t m (n, u, h, w) three room closed = (
  record p {
    files_tab = record { file_desc = p.files_next_desc; file = f } ∷ p.files_tab;
    files_next_desc = p.files_next_desc + 1;
  },
  record p { files_next_desc = p.files_next_desc + 1; table = t; free_map = m },
  ground arith,
  ground arith,
  ground arith,
  ground arith,
  λ other ne. ground arith,
  rw (not_low p.files_next_desc three, same p.files_next_desc, closed)
      (rw (same p.files_next_desc) refl),
  refl,
  rw (not_low p.files_next_desc three, find_desc_above n p.files_next_desc p.files_tab u (h three))
      refl,
  λ keys buffer got size.
      ground (arith, find_desc_above n p.files_next_desc p.files_tab u (h three)),
)

abbrev refile : Opened → Option FileDesc → Option FileDesc
refile f none = none
refile f (some d) = some (record d { file = f })

find_desc-put_self :
    (ds : List FileDesc) (fd : ℕ) (f : Opened)
    → find_desc (put_desc ds fd f) fd ≡ refile f (find_desc ds fd)
unfolding find_desc put_desc
find_desc-put_self [] fd f = refl
find_desc-put_self (x ∷ ds) fd f = ground (arith, find_desc-put_self ds fd f)

find_put :
    (ds : List FileDesc) (fd : ℕ) (f : Opened) {d : FileDesc}
    → find_desc ds fd ≡ some d
    → find_desc (put_desc ds fd f) fd ≡ some (record d { file = f })
find_put ds fd f e = rw (find_desc-put_self ds fd f, e) refl

find_desc-put_other :
    (ds : List FileDesc) (fd other : ℕ) (f : Opened)
    → other ≢ fd
    → find_desc (put_desc ds fd f) other ≡ find_desc ds other
unfolding find_desc put_desc
find_desc-put_other [] fd other f ne = refl
find_desc-put_other (x ∷ ds) fd other f ne = ground (arith, find_desc-put_other ds fd other f ne)

positive : (n : ℕ) → n < 2147483648 → below_zero n ≡ false
positive n h = ground (arith, h)

write_lem :
    (fd : ℕ) (buffer : Bytes) (size n : ℕ) (p : Files) (d : FileDesc) (disk : Disk) (file : File)
    → 3 ≤ fd
    → size < 2147483648
    → find_desc p.files_tab fd ≡ some d
    → file_write p.disk true (to_file p.table d.file) buffer size ≡ some (n, disk, file)
    → handler_write true fd buffer size p
      ≡ ok (n, record p { disk = disk; files_tab = put_desc p.files_tab fd (of_file d.file file) })
unfolding handler_write
write_lem fd buffer size n p d disk file h small e w =
    rw (unequal fd 1 (omega arith), unequal fd 0 (omega arith), e, positive size small, w) refl

read_lem :
    (keys : Bytes) (fd : ℕ) (buffer into : Bytes) (size n : ℕ) (p : Files) (d : FileDesc)
    (file : File)
    → 3 ≤ fd
    → size < 2147483648
    → find_desc p.files_tab fd ≡ some d
    → file_read p.disk true (to_file p.table d.file) buffer size ≡ some (n, into, file)
    → handler_read keys true fd buffer size p
      ≡ ok (n, into, record p { files_tab = put_desc p.files_tab fd (of_file d.file file) })
unfolding handler_read
read_lem keys fd buffer into size n p d file h small e w =
    rw (unequal fd 0 (omega arith), unequal fd 1 (omega arith), e, positive size small, w) refl

seek_lem :
    (fd new_pos : ℕ) (p : Files) (d : FileDesc)
    → 3 ≤ fd
    → new_pos < 2147483648
    → find_desc p.files_tab fd ≡ some d
    → handler_seek fd new_pos p
      ≡ ok (0, record p { files_tab = put_desc p.files_tab fd (record (d.file) { pos = new_pos }) })
unfolding handler_seek file_seek
seek_lem fd new_pos p d h small e = rw (not_low fd h, e, positive new_pos small) refl

-- What is written through one descriptor can be read through another that has the same file open:
-- bytes written inside the file, whose length is an `off_t` and to which writes are allowed, come back from the other descriptor
-- after a seek to where they were written, and the position of the first stays behind them.
pub handler_read-seek-write :
    (p : Files) (a b : FileDesc) (keys buffer into : Bytes) (size : ℕ)
    → 3 ≤ a.file_desc
    → 3 ≤ b.file_desc
    → b.file_desc ≢ a.file_desc
    → find_desc p.files_tab a.file_desc ≡ some a
    → find_desc p.files_tab b.file_desc ≡ some b
    → b.file.inode ≡ a.file.inode
    → (p.table.inode a.file.inode).deny_write_cnt ≡ 0
    → (p.table.inode a.file.inode).content.length < 2147483648
    → a.file.pos + size ≤ (p.table.inode a.file.inode).content.length
    → (p' : Files) × (p'' : Files) × (q : Files) × (into' : Bytes) × (handler_write true a.file_desc
          buffer size p
        ≡ ok (size, p'))
      × (handler_seek b.file_desc a.file.pos p' ≡ ok (0, p''))
      × (handler_read keys true b.file_desc into size p'' ≡ ok (size, into', q))
      × (handler_tell a.file_desc q ≡ a.file.pos + size)
      × ((i : ℕ) → i < size → into' i ≡ buffer i)
unfolding file_write file_read handler_tell file_tell
handler_read-seek-write p a b keys buffer into size ha hb ne ea eb shared open_for off fits =
    let (disk', into', w, r, same_bytes) =
      inode_read_at-write_at p.disk (p.table.inode a.file.inode) buffer into size a.file.pos
        open_for fits in
    let a' : Opened = record (a.file) { pos = a.file.pos + size } in
    let b' : Opened = record (b.file) { pos = a.file.pos } in
    let b'' : Opened = record (b.file) { pos = a.file.pos + size } in
    let tab : List FileDesc = put_desc p.files_tab a.file_desc a' in
    let tab' : List FileDesc = put_desc tab b.file_desc b' in
    let after : File = record (to_file p.table a.file) { pos = a.file.pos + size } in
    let after' : File = record (to_file p.table b') { pos = a.file.pos + size } in
    let found_b : find_desc tab b.file_desc ≡ some b =
      find_desc-put_other p.files_tab a.file_desc b.file_desc a' ne ∙ eb in
    let found_a : find_desc (put_desc tab' b.file_desc b'') a.file_desc
        ≡ some (record a { file = a' }) =
      find_desc-put_other tab' b.file_desc a.file_desc b'' (λ e. ne (sym e))
      ∙ find_desc-put_other tab b.file_desc a.file_desc b' (λ e. ne (sym e))
      ∙ find_put p.files_tab a.file_desc a' ea in
    (
      record p { disk = disk'; files_tab = tab },
      record p { disk = disk'; files_tab = tab' },
      record p { disk = disk'; files_tab = put_desc tab' b.file_desc b'' },
      into',
      write_lem a.file_desc buffer size size p a disk' after ha (omega (arith, off, fits)) ea
          (rw w refl),
      seek_lem b.file_desc a.file.pos (record p { disk = disk'; files_tab = tab }) b hb
          (omega (arith, off, fits)) found_b,
      read_lem keys b.file_desc into into' size size (record p { disk = disk'; files_tab = tab' })
          (record b { file = b' }) after' hb (omega (arith, off, fits))
          (find_put tab b.file_desc b' found_b) (rw (shared, r) refl),
      rw (not_low a.file_desc ha, found_a) refl,
      same_bytes,
    )
