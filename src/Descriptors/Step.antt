-- ===== src/Descriptors/Step.antt =====
-- The table of descriptors of a process with one thread, over every sequence of calls.
use qba.Prelude.{
  ℕ, ◌+◌, ◌≤◌, ◌<◌, ◌≡◌, subst, sym, Bool, true, false, Option, none, some, List, [], ◌∷◌, ltb, leb,
  ◌==◌, if◌then◌else◌, arith, Bool-cases, inl, inr,
}
use qba.Prelude.Outcome.{
  Outcome, ok, panic, undefined, ◌>>=◌, Ensures, returns, halts, strays, Ensures-ok,
}
use qba.FreeMap.{FreeMap}
use qba.Inode.{Bytes, Disk}
use qba.Inode.Table.{Table}
use qba.File.{File, file_read, file_write}
use qba.Descriptors.{
  Opened, FileDesc, Files, to_file, minus_one, find_desc, remove_desc, put_desc, open_entry,
  open_insert, handler_open, file_close, close_done, close_found, handler_close, seek_found,
  handler_seek, read_done, read_found, handler_read, write_done, write_found, handler_write,
  below_zero, off_size,
}

-- The descriptors fall along the list, below `n` and down to 3.
abbrev pub Under : ℕ → List FileDesc → Type 0
Under n [] = Unit {0}
Under n (d ∷ ds) = (3 ≤ d.file_desc) × (d.file_desc < n) × Under d.file_desc ds

pub Under-mono : (m n : ℕ) (ds : List FileDesc) → m ≤ n → Under m ds → Under n ds
Under-mono m n [] h u = tt
Under-mono m n (d ∷ ds) h (a, b, u) = (a, omega arith, u)

remove_desc-Under : (n fd : ℕ) (ds : List FileDesc) → Under n ds → Under n (remove_desc ds fd)
unfolding remove_desc
remove_desc-Under n fd [] u = tt
remove_desc-Under n fd (d ∷ ds) (a, b, u) = elim (Bool-cases (d.file_desc == fd)) [
  | inl e ↦ rw e (Under-mono d.file_desc n ds (omega arith) u)
  | inr e ↦ rw e (a, b, remove_desc-Under d.file_desc fd ds u)
]

put_desc-Under :
    (n fd : ℕ) (f : Opened) (ds : List FileDesc) → Under n ds → Under n (put_desc ds fd f)
unfolding put_desc
put_desc-Under n fd f [] u = tt
put_desc-Under n fd f (d ∷ ds) (a, b, u) = elim (Bool-cases (d.file_desc == fd)) [
  | inl e ↦ rw e (a, b, u)
  | inr e ↦ rw e (a, b, put_desc-Under d.file_desc fd f ds u)
]

-- The descriptors in use are distinct, not below 3 and below the next one; once the next one has
-- wrapped to 0 it stays there, since `handler_open` then halts.
abbrev pub Fresh : Files → Type 0
Fresh p =
    (n : ℕ) × Under n p.files_tab
    × (3 ≤ p.files_next_desc → n ≤ p.files_next_desc)
    × (p.files_next_desc < 4294967296)

-- A call of the process. The arguments are those of the handlers.
pub data FdStep : Files → Files → Type 0 where
  opens :
      {p p' : Files} (new_file : Option Opened) (got : Bool) {r : ℕ}
      → handler_open new_file got p ≡ ok (r, p')
      → FdStep p p'
  closes : {p p' : Files} (fd : ℕ) {r : ℕ} → handler_close fd p ≡ ok (r, p') → FdStep p p'
  seeks :
      {p p' : Files} (fd new_pos : ℕ) {r : ℕ} → handler_seek fd new_pos p ≡ ok (r, p') → FdStep p p'
  reads :
      {p p' : Files} (keys : Bytes) (got : Bool) (fd : ℕ) (buffer : Bytes) (size : ℕ) {r : ℕ}
      {b : Bytes}
      → handler_read keys got fd buffer size p ≡ ok (r, b, p')
      → FdStep p p'
  writes :
      {p p' : Files} (got : Bool) (fd : ℕ) (buffer : Bytes) (size : ℕ) {r : ℕ}
      → handler_write got fd buffer size p ≡ ok (r, p')
      → FdStep p p'

-- `init_process` leaves no entries, and 3 as the next descriptor.
pub data FdReach : Files → Type 0 where
  starts : {p : Files} → p.files_tab ≡ [] → p.files_next_desc ≡ 3 → FdReach p
  then_calls : {p p' : Files} → FdReach p → FdStep p p' → FdReach p'

abbrev FreshAt : ℕ × Files → Type 0
FreshAt r = Fresh r.1

open-Fresh :
    (new_file : Option Opened) (got : Bool) (p : Files)
    → Fresh p
    → Ensures FreshAt (handler_open new_file got p)
unfolding handler_open open_entry open_insert
open-Fresh none got p fresh = returns (minus_one, p) fresh
open-Fresh (some f) got p (n, u, h, w) = elim (Bool-cases (leb 3 p.files_next_desc)) [
  | inr e ↦ rw e halts
  | inl e ↦ rw e (by_room got (ground arith))
]
  where
    by_room :
        (got : Bool)
        → 3 ≤ p.files_next_desc
        → Ensures FreshAt (
            (if got
              then ok (some (record { file_desc = p.files_next_desc; file = f }))
              else undefined)
            >>= λ d. ok (open_insert d p))
    by_room false le = strays
    by_room true le =
        returns (open_insert (some (record { file_desc = p.files_next_desc; file = f })) p) (
          p.files_next_desc + 1,
          (le, omega arith, Under-mono n p.files_next_desc p.files_tab (h le) u),
          λ a. omega arith,
          omega arith,
        )

close-Fresh : (fd : ℕ) (p : Files) → Fresh p → Ensures FreshAt (handler_close fd p)
unfolding handler_close
close-Fresh fd p (n, u, h, w) = elim (Bool-cases (ltb fd 3)) [
  | inl e ↦ rw e (returns (minus_one, p) (n, u, h, w))
  | inr e ↦ rw e (by_desc (find_desc p.files_tab fd))
]
  where
    by_closed : (r : Outcome (Table × FreeMap)) → Ensures FreshAt (r >>= close_done fd p)
    by_closed (ok (t, m)) = returns (0, _) (n, remove_desc-Under n fd p.files_tab u, h, w)
    by_closed panic = halts
    by_closed undefined = strays

    by_desc : (d : Option FileDesc) → Ensures FreshAt (close_found fd p d)
    by_desc none = returns (minus_one, p) (n, u, h, w)
    by_desc (some d) = by_closed (file_close d.file p.table p.free_map)

seek-Fresh : (fd new_pos : ℕ) (p : Files) → Fresh p → Ensures FreshAt (handler_seek fd new_pos p)
unfolding handler_seek
seek-Fresh fd new_pos p (n, u, h, w) = elim (Bool-cases (ltb fd 3)) [
  | inl e ↦ rw e (returns (minus_one, p) (n, u, h, w))
  | inr e ↦ rw e (by_desc (find_desc p.files_tab fd))
]
  where
    by_desc : (d : Option FileDesc) → Ensures FreshAt (seek_found fd new_pos p d)
    by_desc none = returns (minus_one, p) (n, u, h, w)
    by_desc (some d) = elim (Bool-cases (below_zero new_pos)) [
      | inl e ↦ rw e halts
      | inr e ↦ rw e (returns (0, _) (n, put_desc-Under n fd _ p.files_tab u, h, w))
    ]

abbrev FreshRead : ℕ × Bytes × Files → Type 0
FreshRead r = Fresh r.2

read-Fresh :
    (keys : Bytes) (got : Bool) (fd : ℕ) (buffer : Bytes) (size : ℕ) (p : Files)
    → Fresh p
    → Ensures FreshRead (handler_read keys got fd buffer size p)
unfolding handler_read
read-Fresh keys got fd buffer size p (n, u, h, w) = elim (Bool-cases (fd == 0)) [
  | inl e ↦ rw e (returns _ (n, u, h, w))
  | inr e ↦ rw e (elim (Bool-cases (fd == 1)) [
    | inl e' ↦ rw e' (returns _ (n, u, h, w))
    | inr e' ↦ rw e' (by_desc (find_desc p.files_tab fd))
  ])
]
  where
    by_file :
        (d : FileDesc) (r : Option (ℕ × Bytes × File)) → Ensures FreshRead (read_done fd p d r)
    by_file d none = strays
    by_file d (some (k, b, file)) = returns _ (n, put_desc-Under n fd _ p.files_tab u, h, w)

    by_desc : (d : Option FileDesc) → Ensures FreshRead (read_found got fd buffer size p d)
    by_desc none = returns _ (n, u, h, w)
    by_desc (some d) =
        by_file d (file_read p.disk got (to_file p.table d.file) buffer (off_size size))

write-Fresh :
    (got : Bool) (fd : ℕ) (buffer : Bytes) (size : ℕ) (p : Files)
    → Fresh p
    → Ensures FreshAt (handler_write got fd buffer size p)
unfolding handler_write
write-Fresh got fd buffer size p (n, u, h, w) = elim (Bool-cases (fd == 1)) [
  | inl e ↦ rw e (returns _ (n, u, h, w))
  | inr e ↦ rw e (elim (Bool-cases (fd == 0)) [
    | inl e' ↦ rw e' (returns _ (n, u, h, w))
    | inr e' ↦ rw e' (by_desc (find_desc p.files_tab fd))
  ])
]
  where
    by_file : (d : FileDesc) (r : Option (ℕ × Disk × File)) → Ensures FreshAt (write_done fd p d r)
    by_file d none = strays
    by_file d (some (k, disk, file)) = returns _ (n, put_desc-Under n fd _ p.files_tab u, h, w)

    by_desc : (d : Option FileDesc) → Ensures FreshAt (write_found got fd buffer size p d)
    by_desc none = returns _ (n, u, h, w)
    by_desc (some d) =
        by_file d (file_write p.disk got (to_file p.table d.file) buffer (off_size size))

step-Fresh : {p p' : Files} → FdStep p p' → Fresh p → Fresh p'
step-Fresh (opens {p = p} new_file got e) fresh = Ensures-ok (open-Fresh new_file got p fresh) e
step-Fresh (closes {p = p} fd e) fresh = Ensures-ok (close-Fresh fd p fresh) e
step-Fresh (seeks {p = p} fd new_pos e) fresh = Ensures-ok (seek-Fresh fd new_pos p fresh) e
step-Fresh (reads {p = p} keys got fd buffer size e) fresh =
    Ensures-ok (read-Fresh keys got fd buffer size p fresh) e
step-Fresh (writes {p = p} got fd buffer size e) fresh =
    Ensures-ok (write-Fresh got fd buffer size p fresh) e

-- After any sequence of opens, closes, seeks, reads and writes by a process with one thread, the
-- descriptors in its table are distinct, at least 3 and, as long as `files_next_desc` is at least 3,
-- below it.
pub FdReach-Fresh : {p : Files} → FdReach p → Fresh p
FdReach-Fresh (starts e f) =
    (3, subst (Under 3) (sym e) tt, λ h. omega (arith, f), omega (arith, f))
FdReach-Fresh (then_calls r s) = step-Fresh s (FdReach-Fresh r)
