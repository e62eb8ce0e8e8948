-- ===== src/Elf/Bounds.antt =====
-- The arithmetic of `load` on a program header.
use qba.Prelude.{ℕ, ◌+◌, ◌%◌, ◌≤◌, ◌<◌, ◌≡◌, true, ◌==◌, if◌then◌else◌, arith}
use qba.Elf.{Phdr, pgsize, phys_base, is_user_vaddr, validate_segment, round_up, segment_of}

-- The fields of a program header are 32-bit words.
pub record IsPhdr (phdr : Phdr) : Type 0 where
  pub offset : phdr.p_offset < 4294967296
  pub vaddr : phdr.p_vaddr < 4294967296
  pub filesz : phdr.p_filesz < 4294967296
  pub memsz : phdr.p_memsz < 4294967296

-- What `validate_segment` has tested.
pub validate_segment_sound :
    (phdr : Phdr) (length : ℕ)
    → IsPhdr phdr
    → validate_segment phdr length ≡ true
    → (phdr.p_offset % pgsize ≡ phdr.p_vaddr % pgsize)
      × (phdr.p_offset ≤ length)
      × (phdr.p_filesz ≤ phdr.p_memsz)
      × (0 < phdr.p_memsz)
      × (phdr.p_vaddr + phdr.p_memsz < phys_base)
      × (pgsize ≤ phdr.p_vaddr)
unfolding validate_segment is_user_vaddr
validate_segment_sound phdr length w v = (
  ground arith,
  ground arith,
  ground arith,
  ground arith,
  ground (arith, w.vaddr, w.memsz),
  ground arith,
)

-- For a segment that `validate_segment` lets through, the arguments of `load_segment` meet its
-- assertions, their sums do not wrap, and they describe whole pages above the first one and below the
-- kernel, which hold all addresses of the segment. The bytes to read end with the last byte that the
-- segment has in the file, or are none if it has none, and the segment's address in its first page
-- goes with its offset in the file.
pub segment_of_lem :
    (phdr : Phdr) (length : ℕ)
    → IsPhdr phdr
    → validate_segment phdr length ≡ true
    → let s = segment_of phdr in
      ((s.read_bytes + s.zero_bytes) % pgsize ≡ 0)
      × (s.mem_page % pgsize ≡ 0)
      × (s.file_page % pgsize ≡ 0)
      × (pgsize ≤ s.mem_page)
      × (s.mem_page + (s.read_bytes + s.zero_bytes) ≤ phys_base)
      × (s.mem_page ≤ phdr.p_vaddr)
      × (phdr.p_vaddr + phdr.p_memsz ≤ s.mem_page + (s.read_bytes + s.zero_bytes))
      × (s.read_bytes ≡ (if phdr.p_filesz == 0 then 0 else phdr.p_vaddr % pgsize + phdr.p_filesz))
      × (s.mem_page + phdr.p_vaddr % pgsize ≡ phdr.p_vaddr)
      × (s.file_page + phdr.p_vaddr % pgsize ≡ phdr.p_offset)
unfolding segment_of round_up
segment_of_lem phdr length w v =
    let (o, l, f, z, e, b) = validate_segment_sound phdr length w v in
    (
      ground (arith, w.filesz, w.memsz),
      ground (arith, w.filesz, w.memsz),
      ground (arith, w.filesz, w.memsz),
      ground (arith, w.filesz, w.memsz),
      ground (arith, w.filesz, w.memsz),
      ground (arith, w.filesz, w.memsz),
      ground (arith, w.filesz, w.memsz),
      ground (arith, w.filesz, w.memsz),
      ground (arith, w.filesz, w.memsz),
      ground (arith, w.filesz, w.memsz, o),
    )
