-- ===== src/Elf/Step.antt =====
-- `load_page`, which is one round of the loop of `load_segment`.
use qba.Prelude.{
  ℕ, ◌+◌, ◌-◌, ◌/◌, ◌%◌, ◌≤◌, ◌<◌, ◌≡◌, refl, ap, ◌∙◌, Bool, true, false, ◌⊎◌, inl, inr, Option,
  none, some, ltb, leb, lt→ltb, ◌==◌, if◌then◌else◌, arith, update, Bool-cases,
}
use qba.Inode.{Inode, Bytes, Disk}
use qba.Inode.Data.{byte, read_bytes, inode_read_at_lem}
use qba.File.{File, file_read}
use qba.Elf.{Page, Space, Answers, Loaded, pgsize, zeroed_from, install_page, load_page}

-- Every allocation is answered.
abbrev pub Granted : (ℕ → Answers) → Type 0
Granted a = (i : ℕ) → ((a i).kpage ≡ true) × ((a i).bounce ≡ true) × ((a i).page_table ≡ true)

abbrev pub byte_of : Option Page → ℕ → Option ℕ
byte_of none i = none
byte_of (some page) i = some (page.content i)

-- The byte of user memory at an address.
abbrev pub memory : Space → ℕ → Option ℕ
memory space va = byte_of (space (va / pgsize)) (va % pgsize)

-- The byte that a segment has at a distance from its start.
abbrev pub segment_byte : Disk → File → ℕ → ℕ → ℕ
segment_byte disk file read_bytes x =
    if ltb x read_bytes then byte disk file.inode (file.pos + x) else 0

read_bytes_in :
    (disk : Disk) (inode : Inode) (buffer : Bytes) (offset n i : ℕ)
    → i < n
    → read_bytes disk inode buffer 0 offset n i ≡ byte disk inode (offset + i)
read_bytes_in disk inode buffer offset n i h =
    rw (leb_zero i, lt→ltb i (0 + n) (omega (arith, h)))
      (ap (λ q. byte disk inode (offset + q)) (minus_zero i))
  where
    leb_zero : (i : ℕ) → leb 0 i ≡ true
    leb_zero i = ground arith

    minus_zero : (i : ℕ) → i - 0 ≡ i
    minus_zero i = omega arith

-- A read that stays in the file.
file_read_lem :
    (disk : Disk) (file : File) (buffer : Bytes) (n : ℕ)
    → file.pos + n ≤ file.inode.content.length
    → (buffer' : Bytes) × (file_read disk true file buffer n
        ≡ some (n, buffer', record file { pos = file.pos + n }))
      × ((i : ℕ) → i < n → buffer' i ≡ byte disk file.inode (file.pos + i))
unfolding file_read
file_read_lem disk file buffer n fits =
    let (m, buffer', r, le, whole, bytes) =
      inode_read_at_lem disk file.inode true buffer n file.pos in
    let all : 0 + m ≡ n = ground (arith, whole refl) in
    (
      buffer',
      rw r (ap (λ q. some (q, buffer', record file { pos = file.pos + q })) all),
      λ i h. bytes i ∙ read_bytes_in disk file.inode buffer file.pos m i (omega (arith, h, all)),
    )

same : (n : ℕ) → (n == n) ≡ true
same n = ground arith

pub load_page_lem :
    (disk : Disk) (a : Answers) (upage : ℕ) (writable : Bool) (n : ℕ) (l : Loaded)
    → a.kpage ≡ true
    → a.bounce ≡ true
    → a.page_table ≡ true
    → l.space (upage / pgsize) ≡ none
    → l.file.pos + n ≤ l.file.inode.content.length
    → (c : Bytes) × (load_page disk a upage writable n l
        ≡ some (record {
          file = record (l.file) { pos = l.file.pos + n };
          space =
              update l.space (upage / pgsize) (some (record { content = c; writable = writable }));
        }))
      × ((i : ℕ) → c i ≡ segment_byte disk l.file n i)
unfolding load_page install_page
load_page_lem disk a upage writable n l k b t free fits =
    let (buffer, r, bytes) = file_read_lem disk l.file a.garbage n fits in
    (
      zeroed_from n buffer,
      rw (k, b, r, same n, free, t) refl,
      λ i. by_place buffer bytes i (Bool-cases (ltb i n)),
    )
  where
    by_place :
        (buffer : Bytes)
        → ((i : ℕ) → i < n → buffer i ≡ byte disk l.file.inode (l.file.pos + i))
        → (i : ℕ) → (ltb i n ≡ true) ⊎ (ltb i n ≡ false)
        → zeroed_from n buffer i ≡ segment_byte disk l.file n i
    by_place buffer bytes i (inl e) = rw e (bytes i (ground (arith, e)))
    by_place buffer bytes i (inr e) = rw e refl
