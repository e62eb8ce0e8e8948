-- ===== src/Inode/Table.antt =====
-- `inode_create`, and the open inodes of src/filesys/inode.c: `inode_open` and `inode_close`. An open
-- inode is an address. How a `struct inode_disk` is laid out in a sector, and what `malloc` and
-- `calloc` answer, are arguments.
use qba.Prelude.{
  ℕ, zero, suc, ◌+◌, ◌-◌, ◌≡◌, refl, subst, ◌∙◌, Bool, true, false, Option, none, some, List, [],
  ◌∷◌, ◌==◌, if◌then◌else◌, update, arith, Option-cases, inl, inr,
}
use qba.Prelude.Outcome.{Outcome, ok, undefined, ◌>>=◌}
use qba.Threads.Order.{remove, mem}
use qba.FreeMap.{FreeMap, free_map_allocate, free_map_release}
use qba.Inode.{Inode, InodeDisk, Bytes, Disk, bytes_to_sectors, inode_reopen}

-- The inodes behind the pointers, and the static list.
pub record Table : Type 0 where
  pub inode : ℕ → Inode
  pub open_inodes : List ℕ

-- The loop that writes zeros to the sectors of a new file.
unfoldable pub zero_loop : Disk → ℕ → ℕ → ℕ → Disk
zero_loop disk start i zero = disk
zero_loop disk start i (suc left) = zero_loop (update disk (start + i) (λ o. 0)) start (i + 1) left

-- `got` is whether `calloc` answers memory, and `encode` is the layout on disk.
unfoldable pub inode_create :
    (InodeDisk → Bytes) → Bool → Bool → ℕ → ℕ → Disk → FreeMap → Outcome (Bool × Disk × FreeMap)
unfolding free_map_allocate bytes_to_sectors zero_loop
inode_create encode false written sector length disk m = ok (false, disk, m)
inode_create encode true written sector length disk m = do
  let sectors = bytes_to_sectors length
  (start, m') ← free_map_allocate sectors written m
  elim start [
    | none ↦ ok (false, disk, m')
    | some start ↦
        let disk₁ = update disk sector (encode (record { start = start; length = length })) in
        ok (true, zero_loop disk₁ start 0 sectors, m')
  ]

-- The first open inode of a sector.
unfoldable pub find_open : (ℕ → Inode) → ℕ → List ℕ → Option ℕ
find_open inode sector [] = none
find_open inode sector (i ∷ rest) =
    if (inode i).sector == sector then some i else find_open inode sector rest

-- `room` is what `malloc` answers, and `on_disk` is what `block_read` gives.
unfoldable pub inode_open : Option ℕ → (ℕ → InodeDisk) → ℕ → Table → Option ℕ × Table
unfolding find_open inode_reopen
inode_open room on_disk sector t = elim (find_open t.inode sector t.open_inodes) [
  | some i ↦ (some i, record t { inode = update t.inode i (inode_reopen (t.inode i)) })
  | none ↦ elim room [
    | none ↦ (none, t)
    | some i ↦ (
      some i,
      record {
        inode = update t.inode i (record {
          sector = sector;
          open_cnt = 1;
          removed = false;
          deny_write_cnt = 0;
          content = on_disk sector;
        });
        open_inodes = i ∷ t.open_inodes;
      },
    )
  ]
]

-- The end of `inode_close` for the last opener; undefined if the inode is not in the list.
unfoldable pub close_last : ℕ → Table → FreeMap → Outcome (Table × FreeMap)
unfolding free_map_release bytes_to_sectors
close_last i t m =
    let t' = record t { open_inodes = remove i t.open_inodes } in
    let content = (t.inode i).content in
    let released = (do
      m₁ ← free_map_release (t.inode i).sector 1 m
      m₂ ← free_map_release content.start (bytes_to_sectors content.length) m₁
      ok (t', m₂)) in
    let closed = if (t.inode i).removed then released else ok (t', m) in
    if mem i t.open_inodes then closed else undefined

unfoldable pub inode_close : Option ℕ → Table → FreeMap → Outcome (Table × FreeMap)
unfolding close_last
inode_close none t m = ok (t, m)
inode_close (some i) t m =
    let t' = record t {
      inode = update t.inode i (record (t.inode i) { open_cnt = (t.inode i).open_cnt - 1 });
    } in
    let last = close_last i t' m in if (t'.inode i).open_cnt == 0 then last else ok (t', m)

find_open-ext :
    (f g : ℕ → Inode) (sector : ℕ) (xs : List ℕ)
    → ((i : ℕ) → (g i).sector ≡ (f i).sector)
    → find_open g sector xs ≡ find_open f sector xs
unfolding find_open
find_open-ext f g sector [] e = refl
find_open-ext f g sector (i ∷ xs) e = ground (arith, e i, find_open-ext f g sector xs e)

abbrev pub FoundBy : ℕ → Option ℕ × Table → Type 0
FoundBy sector r = find_open r.1.inode sector r.1.open_inodes ≡ r.0

open_finds :
    (room : Option ℕ) (on_disk : ℕ → InodeDisk) (sector : ℕ) (t : Table)
    → FoundBy sector (inode_open room on_disk sector t)
unfolding inode_open inode_reopen
open_finds room on_disk sector t = elim (Option-cases (find_open t.inode sector t.open_inodes)) [
  | inr (j, e) ↦
      rw (inode_open, e)
        (find_open-ext t.inode (update t.inode j (inode_reopen (t.inode j))) sector t.open_inodes
            (λ i. ground arith)
          ∙ e)
  | inl e ↦ rw (inode_open, e) (by_room room e)
]
  where
    by_room :
        (room : Option ℕ)
        → find_open t.inode sector t.open_inodes ≡ none
        → FoundBy sector (elim room [
          | none ↦ (none, t)
          | some i ↦ (
            some i,
            record {
              inode = update t.inode i (record {
                sector = sector;
                open_cnt = 1;
                removed = false;
                deny_write_cnt = 0;
                content = on_disk sector;
              });
              open_inodes = i ∷ t.open_inodes;
            },
          )
        ])
    by_room none e = e
    by_room (some a) e = unfold find_open in ground arith

-- Once a sector has been opened, to open it again gives the same inode with one opener more, and the
-- list of open inodes stays as it is.
pub inode_open_twice :
    (room room' : Option ℕ) (on_disk : ℕ → InodeDisk) (sector i : ℕ) (t t' : Table)
    → inode_open room on_disk sector t ≡ (some i, t')
    → (t'' : Table) × (inode_open room' on_disk sector t' ≡ (some i, t''))
      × ((t''.inode i).open_cnt ≡ (t'.inode i).open_cnt + 1)
      × (t''.open_inodes ≡ t'.open_inodes)
unfolding inode_open inode_reopen
inode_open_twice room room' on_disk sector i t t' e = (
  record t' { inode = update t'.inode i (inode_reopen (t'.inode i)) },
  rw (inode_open, again) refl,
  ground arith,
  refl,
)
  where
    again : find_open t'.inode sector t'.open_inodes ≡ some i
    again = subst (FoundBy sector) e (open_finds room on_disk sector t)
