-- ===== src/Elf/Tests.antt =====
-- The theorems on the loader at one header of a file of 10000 bytes.
use qba.Prelude.{ℕ, ◌+◌, ◌*◌, ◌/◌, ◌%◌, ◌≤◌, ◌<◌, ◌≡◌, refl, true, false, ◌⊎◌, none, some, arith}
use qba.Prelude.Outcome.{ok}
use qba.Inode.{Disk}
use qba.File.{file_length}
use qba.Elf.{
  Phdr, Answers, Loaded, pgsize, phys_base, is_user_vaddr, validate_segment, segment_of,
  load_header,
}
use qba.Elf.Bounds.{IsPhdr, segment_of_lem}
use qba.Elf.Step.{Granted, memory}
use qba.Elf.Header.{header_byte, load_header_lem}

abbrev header : Phdr
header = record {
  p_type = 1;
  p_offset = 100;
  p_vaddr = 134512740;
  p_filesz = 5000;
  p_memsz = 6000;
  p_flags = 6;
}

abbrev answers : ℕ → Answers
answers i = record { kpage = true; bounce = true; page_table = true; garbage = λ j. 204 }

abbrev disk : Disk
disk s o = s + o

abbrev empty : Loaded
empty = record {
  file = record {
    inode = record {
      sector = 3;
      open_cnt = 1;
      removed = false;
      deny_write_cnt = 1;
      content = record { start = 4; length = 10000 };
    };
    pos = 84;
    deny_write = true;
  };
  space = λ j. none;
}

header-IsPhdr : IsPhdr header
header-IsPhdr = record {
  offset = omega arith;
  vaddr = omega arith;
  filesz = omega arith;
  memsz = omega arith;
}

header_valid : validate_segment header 10000 ≡ true
unfolding validate_segment is_user_vaddr
header_valid = refl

granted : Granted answers
granted i = (refl, refl, refl)

segment_of_lem_example :
    let s = segment_of header in
    ((s.read_bytes + s.zero_bytes) % pgsize ≡ 0)
    × (s.mem_page % pgsize ≡ 0)
    × (s.file_page % pgsize ≡ 0)
    × (pgsize ≤ s.mem_page)
    × (s.mem_page + (s.read_bytes + s.zero_bytes) ≤ phys_base)
    × (s.mem_page ≤ 134512740)
    × (134512740 + 6000 ≤ s.mem_page + (s.read_bytes + s.zero_bytes))
    × (s.read_bytes ≡ 134512740 % pgsize + 5000)
    × (s.mem_page + 134512740 % pgsize ≡ 134512740)
    × (s.file_page + 134512740 % pgsize ≡ 100)
segment_of_lem_example = segment_of_lem header 10000 header-IsPhdr header_valid

load_header_lem_example :
    (l' : Loaded) × (load_header disk answers header empty ≡ ok (some l'))
    × ((x : ℕ)
        → x < 6000
        → memory l'.space (134512740 + x) ≡ some (header_byte disk empty.file header x))
    × ((j : ℕ) → (j < 134512740 / pgsize) ⊎ (134512740 + 6000 ≤ j * pgsize) → l'.space j ≡ none)
load_header_lem_example =
    load_header_lem disk answers header empty header-IsPhdr refl
      (unfold file_length in header_valid) (omega arith) granted (λ j lo hi. refl)
