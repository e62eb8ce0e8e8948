-- ===== src/Elf.antt =====
-- The loader of src/userprog/process_create.c: `load` and its helpers, which bring an ELF executable
-- into the user pages of a process, and `setup_stack`. Addresses are `uint32_t` and sums of them wrap.
-- A page directory gives each user page number its page; src/userprog/pagedir.c has it in two levels.
-- What `palloc_get_page`, `pagedir_set_page` and the `malloc` of `inode_read_at` answer is given for
-- each page in turn.
pub mod Bounds
mod Step
pub mod Pages
pub mod Header
mod Tests
use qba.Prelude.{
  ℕ, zero, suc, ◌+◌, ◌-◌, ◌*◌, ◌/◌, ◌%◌, Bool, true, false, not, ◌&&◌, ◌||◌, Option, none, some,
  ltb, leb, ◌==◌, if◌then◌else◌, update,
}
pub use qba.Prelude.{u32}
use qba.Prelude.Outcome.{Outcome, ok, undefined, ◌>>=◌, ◌>>◌, assert}
use qba.Inode.{Bytes, Disk}
use qba.File.{File, file_read, file_seek, file_length, file_deny_write}

abbrev pub pgsize : ℕ
pgsize = 4096

abbrev pub phys_base : ℕ
phys_base = 3221225472

-- Little-endian fields of a structure in memory.
abbrev pub half_at : Bytes → ℕ → ℕ
half_at b i = b i + 256 * b (i + 1)

abbrev pub word_at : Bytes → ℕ → ℕ
word_at b i = half_at b i + 65536 * half_at b (i + 2)

-- `struct Elf32_Ehdr`, the fields that `load` reads.
pub record Ehdr : Type 0 where
  pub e_ident : Bytes
  pub e_type : ℕ
  pub e_machine : ℕ
  pub e_version : ℕ
  pub e_entry : ℕ
  pub e_phoff : ℕ
  pub e_phentsize : ℕ
  pub e_phnum : ℕ

unfoldable pub to_ehdr : Bytes → Ehdr
to_ehdr b = record {
  e_ident = b;
  e_type = half_at b 16;
  e_machine = half_at b 18;
  e_version = word_at b 20;
  e_entry = word_at b 24;
  e_phoff = word_at b 28;
  e_phentsize = half_at b 42;
  e_phnum = half_at b 44;
}

-- `struct Elf32_Phdr`, without `p_paddr` and `p_align`, which nothing reads.
pub record Phdr : Type 0 where
  pub p_type : ℕ
  pub p_offset : ℕ
  pub p_vaddr : ℕ
  pub p_filesz : ℕ
  pub p_memsz : ℕ
  pub p_flags : ℕ

unfoldable pub to_phdr : Bytes → Phdr
to_phdr b = record {
  p_type = word_at b 0;
  p_offset = word_at b 4;
  p_vaddr = word_at b 8;
  p_filesz = word_at b 16;
  p_memsz = word_at b 20;
  p_flags = word_at b 24;
}

abbrev pub ehdr_size : ℕ
ehdr_size = 52

abbrev pub phdr_size : ℕ
phdr_size = 32

-- `"\177ELF\1\1\1"`
abbrev is_elf : Bytes → Bool
is_elf b =
    (b 0 == 127)
    && ((b 1 == 69) && ((b 2 == 76) && ((b 3 == 70) && ((b 4 == 1) && ((b 5 == 1) && (b 6 == 1))))))

-- The test of the executable header, after the one of its size.
unfoldable pub is_loadable : Ehdr → Bool
is_loadable e =
    is_elf e.e_ident
    && ((e.e_type == 2)
        && ((e.e_machine == 3)
            && ((e.e_version == 1) && ((e.e_phentsize == phdr_size) && leb e.e_phnum 1024))))

unfoldable pub is_user_vaddr : ℕ → Bool
is_user_vaddr vaddr = ltb vaddr phys_base

-- `length` is `file_length (file)`.
unfoldable pub validate_segment : Phdr → ℕ → Bool
unfolding is_user_vaddr
validate_segment phdr length =
    if not (phdr.p_offset % pgsize == phdr.p_vaddr % pgsize)
    then false
    else if ltb length phdr.p_offset
    then false
    else if ltb phdr.p_memsz phdr.p_filesz
    then false
    else if phdr.p_memsz == 0
    then false
    else if not (is_user_vaddr phdr.p_vaddr)
    then false
    else if not (is_user_vaddr (u32 (phdr.p_vaddr + phdr.p_memsz)))
    then false
    else if ltb (u32 (phdr.p_vaddr + phdr.p_memsz)) phdr.p_vaddr
    then false
    else if ltb phdr.p_vaddr pgsize
    then false
    else true

-- `ROUND_UP (x, PGSIZE)` on `uint32_t`.
unfoldable pub round_up : ℕ → ℕ
round_up x = u32 (x + (pgsize - 1)) / pgsize * pgsize

-- The arguments of `load_segment`.
pub record Segment : Type 0 where
  pub file_page : ℕ
  pub mem_page : ℕ
  pub read_bytes : ℕ
  pub zero_bytes : ℕ
  pub writable : Bool

-- How `load` computes them from a valid header.
unfoldable pub segment_of : Phdr → Segment
unfolding round_up
segment_of phdr =
    let page_offset = phdr.p_vaddr % pgsize in
    let all_bytes = round_up (u32 (page_offset + phdr.p_memsz)) in
    let read_bytes = u32 (page_offset + phdr.p_filesz) in
    let has_file = ltb 0 phdr.p_filesz in
    record {
      file_page = phdr.p_offset - phdr.p_offset % pgsize;
      mem_page = phdr.p_vaddr - phdr.p_vaddr % pgsize;
      read_bytes = if has_file then read_bytes else 0;
      zero_bytes = if has_file then u32 (all_bytes + (4294967296 - read_bytes)) else all_bytes;
      writable = (phdr.p_flags / 2) % 2 == 1;
    }

-- A page of user memory.
pub record Page : Type 0 where
  pub content : Bytes
  pub writable : Bool

abbrev pub Space : Type 0
Space = ℕ → Option Page

-- What the allocations for one page answer, and the bytes that a page has at first.
pub record Answers : Type 0 where
  pub kpage : Bool
  pub bounce : Bool
  pub page_table : Bool
  pub garbage : Bytes

abbrev install_into : Option Page → Space → ℕ → Page → Bool → Option Space
install_into (some old) space upage page got = none
install_into none space upage page got =
    if got then some (update space (upage / pgsize) (some page)) else none

unfoldable pub install_page : Space → ℕ → Page → Bool → Option Space
install_page space upage page got = install_into (space (upage / pgsize)) space upage page got

abbrev pub zeroed_from : ℕ → Bytes → ℕ → ℕ
zeroed_from n b i = if ltb i n then b i else 0

-- The file, which `file_read` advances, and the pages.
pub record Loaded : Type 0 where
  pub file : File
  pub space : Space

abbrev page_installed : File → Option Space → Option Loaded
page_installed file none = none
page_installed file (some space) = some (record { file = file; space = space })

abbrev pub page_read : Answers → ℕ → Bool → ℕ → Space → Option (ℕ × Bytes × File) → Option Loaded
page_read a upage writable page_read_bytes space none = none
page_read a upage writable page_read_bytes space (some (n, kpage, file)) =
    if n == page_read_bytes
    then page_installed file (
        install_page space upage
          (record { content = zeroed_from page_read_bytes kpage; writable = writable })
          a.page_table)
    else none

-- One round of the loop of `load_segment`: `none` where it returns false.
unfoldable pub load_page : Disk → Answers → ℕ → Bool → ℕ → Loaded → Option Loaded
unfolding file_read install_page
load_page disk a upage writable page_read_bytes l =
    if a.kpage
    then page_read a upage writable page_read_bytes l.space
        (file_read disk a.bounce l.file a.garbage page_read_bytes)
    else none

-- The loop on fuel; `a` answers for the pages from number `i` on. The inner `none` is false.
abbrev pub then_load : (Loaded → Outcome (Option Loaded)) → Option Loaded → Outcome (Option Loaded)
then_load rest none = ok none
then_load rest (some l) = rest l

unfoldable pub load_loop :
    ℕ → Disk → (ℕ → Answers) → ℕ → ℕ → ℕ → ℕ → Bool → Loaded → Outcome (Option Loaded)
unfolding load_page
load_loop zero disk a i upage read_bytes zero_bytes writable l = undefined
load_loop (suc fuel) disk a i upage read_bytes zero_bytes writable l =
    let page_read_bytes = if ltb read_bytes pgsize then read_bytes else pgsize in
    let page_zero_bytes = pgsize - page_read_bytes in
    let rest =
      then_load
        (load_loop fuel disk a (i + 1) (u32 (upage + pgsize)) (read_bytes - page_read_bytes)
          (u32 (zero_bytes + (4294967296 - page_zero_bytes))) writable)
        (load_page disk (a i) upage writable page_read_bytes l) in
    if ltb 0 read_bytes || ltb 0 zero_bytes then rest else ok (some l)

-- `ofs` is also asserted to be a multiple of the page size.
unfoldable pub load_segment : Disk → (ℕ → Answers) → ℕ → Segment → Loaded → Outcome (Option Loaded)
unfolding load_loop file_seek
load_segment disk a i s l = do
  assert (u32 (s.read_bytes + s.zero_bytes) % pgsize == 0)
  assert (s.mem_page % pgsize == 0)
  assert (s.file_page % pgsize == 0)
  load_loop (suc (s.read_bytes + s.zero_bytes)) disk a i s.mem_page s.read_bytes s.zero_bytes
      s.writable (record l { file = file_seek l.file s.file_page })

-- What `load` does with a program header: the next one, the loading of a segment, or failure.
abbrev pub is_unsupported : ℕ → Bool
is_unsupported p_type = (p_type == 2) || ((p_type == 3) || (p_type == 5))

unfoldable pub load_header : Disk → (ℕ → Answers) → Phdr → Loaded → Outcome (Option Loaded)
unfolding validate_segment segment_of load_segment file_length
load_header disk a phdr l =
    let segment =
      if validate_segment phdr (file_length l.file)
      then load_segment disk a 0 (segment_of phdr) l
      else ok none in
    if phdr.p_type == 1
    then segment
    else if is_unsupported phdr.p_type
    then ok none
    else ok (some l)

abbrev pub header_read :
    Disk → (ℕ → Answers) → Space → Option (ℕ × Bytes × File) → Outcome (Option Loaded)
header_read disk a space none = undefined
header_read disk a space (some (n, b, file)) =
    if n == phdr_size
    then load_header disk a (to_phdr b) (record { file = file; space = space })
    else ok none

-- The loop over the program headers, `left` of them to go; `file_ofs` is the bit pattern of an `off_t`,
-- and `a j` answers for the header `j`.
unfoldable pub load_headers :
    ℕ → Disk → (ℕ → ℕ → Answers) → ℕ → ℕ → Loaded → Outcome (Option Loaded)
unfolding to_phdr load_header file_seek file_read file_length
load_headers zero disk a j file_ofs l = ok (some l)
load_headers (suc left) disk a j file_ofs l = do
  let one =
      header_read disk (a j) l.space
        (file_read disk true (file_seek l.file file_ofs) (a j 0).garbage phdr_size)
  let all = (do
    r ← one
    then_load (load_headers left disk a (j + 1) (u32 (file_ofs + phdr_size))) r)
  if leb 2147483648 file_ofs || ltb (file_length l.file) file_ofs then ok none else all

-- `setup_stack`: `NONE_OR_MAIN (exiting)` is an argument. `none` is false.
unfoldable pub setup_stack : Answers → Bool → ℕ → Space → Option Space
unfolding install_page
setup_stack a none_or_main top space =
    if none_or_main && a.kpage
    then install_page space (top - pgsize) (record { content = λ i. 0; writable = true })
        a.page_table
    else none

-- What a successful `load` leaves: the entry point, the stack pointer, and the process's pages and
-- executable.
pub record Image : Type 0 where
  pub eip : ℕ
  pub esp : ℕ
  pub loaded : Loaded

abbrev stacked : ℕ → File → Option Space → Option Image
stacked entry file none = none
stacked entry file (some space) =
    some (record { eip = entry; esp = phys_base; loaded = record { file = file; space = space } })

abbrev pub load_rest :
    Disk → (ℕ → ℕ → Answers) → Answers → Bool → Ehdr → File → Outcome (Option Image)
load_rest disk a stack none_or_main e file = do
  denied ← file_deny_write file
  let opened : Loaded = record { file = denied; space = λ n. none }
  r ← load_headers e.e_phnum disk a 0 e.e_phoff opened
  ok (elim r [
    | none ↦ none
    | some l ↦ stacked e.e_entry l.file (setup_stack stack none_or_main phys_base l.space)
  ])

abbrev ehdr_read :
    Disk → (ℕ → ℕ → Answers) → Answers → Bool → Option (ℕ × Bytes × File) → Outcome (Option Image)
ehdr_read disk a stack none_or_main none = undefined
ehdr_read disk a stack none_or_main (some (n, b, file)) =
    let rest = load_rest disk a stack none_or_main (to_ehdr b) file in
    if (n == ehdr_size) && is_loadable (to_ehdr b) then rest else ok none

-- `pagedir` is what `pagedir_create` answers and `file` what `filesys_open` does. Where the result is
-- `none`, `load` also closes the file.
unfoldable pub load :
    Disk → (ℕ → ℕ → Answers) → Answers → Bool → Bool → Option File → Outcome (Option Image)
unfolding file_read to_ehdr is_loadable load_headers setup_stack file_deny_write
load disk a stack none_or_main pagedir none = ok none
load disk a stack none_or_main pagedir (some file) =
    let read =
      ehdr_read disk a stack none_or_main (file_read disk true file stack.garbage ehdr_size) in
    if pagedir then read else ok none
