-- ===== src/Elf/Header.antt =====
-- A loadable program header, from `validate_segment` to the bytes in user memory.
use qba.Prelude.{
  ℕ, ◌+◌, ◌-◌, ◌*◌, ◌/◌, ◌%◌, ◌≤◌, ◌<◌, ◌≡◌, refl, ap, ◌∙◌, true, ◌⊎◌, inl, inr, Option, none, some,
  ltb, if◌then◌else◌, arith,
}
use qba.Prelude.Outcome.{ok}
use qba.Inode.{Disk}
use qba.Inode.Data.{byte}
use qba.File.{File, file_length}
use qba.Elf.{
  Phdr, Segment, Answers, Loaded, pgsize, validate_segment, round_up, segment_of, load_segment,
  load_header,
}
use qba.Elf.Bounds.{IsPhdr, validate_segment_sound, segment_of_lem}
use qba.Elf.Step.{Granted, memory, segment_byte}
use qba.Elf.Pages.{load_segment_lem}

segment_of_exact :
    (phdr : Phdr) (length : ℕ)
    → IsPhdr phdr
    → validate_segment phdr length ≡ true
    → let s = segment_of phdr in
      (s.read_bytes ≡ (if ltb 0 phdr.p_filesz then phdr.p_vaddr % pgsize + phdr.p_filesz else 0))
      × (s.read_bytes + s.zero_bytes < phdr.p_vaddr % pgsize + phdr.p_memsz + pgsize)
      × (s.mem_page ≡ phdr.p_vaddr - phdr.p_vaddr % pgsize)
      × (s.file_page ≡ phdr.p_offset - phdr.p_offset % pgsize)
unfolding segment_of round_up
segment_of_exact phdr length w v =
    let (o, l, f, z, e, b) = validate_segment_sound phdr length w v in
    (ground arith, ground arith, refl, refl)

-- The byte of a segment at a distance from `p_vaddr`.
abbrev pub header_byte : Disk → File → Phdr → ℕ → ℕ
header_byte disk file phdr x =
    if ltb x phdr.p_filesz then byte disk file.inode (phdr.p_offset + x) else 0

same_byte :
    (disk : Disk) (file : File) (phdr : Phdr) (r page x : ℕ)
    → r ≡ (if ltb 0 phdr.p_filesz then phdr.p_vaddr % pgsize + phdr.p_filesz else 0)
    → page + phdr.p_vaddr % pgsize ≡ phdr.p_offset
    → segment_byte disk (record file { pos = page }) r (phdr.p_vaddr % pgsize + x)
      ≡ header_byte disk file phdr x
same_byte disk file phdr r page x e p =
    ap (λ t. if t then byte disk file.inode (page + (phdr.p_vaddr % pgsize + x)) else 0)
      (test phdr.p_vaddr phdr.p_filesz r x e)
    ∙ ap (λ q. if ltb x phdr.p_filesz then byte disk file.inode q else 0) (omega (arith, p))
  where
    test :
        (v f r x : ℕ)
        → r ≡ (if ltb 0 f then v % pgsize + f else 0)
        → ltb (v % pgsize + x) r ≡ ltb x f
    test v f r x e = ground arith

-- A loadable header that passes `validate_segment`, whose bytes are all in the file and whose pages
-- are not mapped yet, is loaded if every allocation is answered: then `p_filesz` bytes of the file
-- from `p_offset` on stand in user memory from `p_vaddr` on, followed by zeros up to `p_memsz`, and
-- no page without a byte of the segment has changed.
pub load_header_lem :
    (disk : Disk) (a : ℕ → Answers) (phdr : Phdr) (l : Loaded)
    → IsPhdr phdr
    → phdr.p_type ≡ 1
    → validate_segment phdr (file_length l.file) ≡ true
    → phdr.p_offset + phdr.p_filesz ≤ l.file.inode.content.length
    → Granted a
    → ((j : ℕ)
        → phdr.p_vaddr / pgsize ≤ j
        → j * pgsize < phdr.p_vaddr + phdr.p_memsz
        → l.space j ≡ none)
    → (l' : Loaded) × (load_header disk a phdr l ≡ ok (some l'))
      × ((x : ℕ)
          → x < phdr.p_memsz
          → memory l'.space (phdr.p_vaddr + x) ≡ some (header_byte disk l.file phdr x))
      × ((j : ℕ)
          → (j < phdr.p_vaddr / pgsize) ⊎ (phdr.p_vaddr + phdr.p_memsz ≤ j * pgsize)
          → l'.space j ≡ l.space j)
unfolding load_header
load_header_lem disk a phdr l w t v fits g free =
    let s : Segment = segment_of phdr in
    let (whole, start, page, above, top, le, all, reads, inside, matches) =
      segment_of_lem phdr (file_length l.file) w v in
    let (r, tight, mem, ofs) = segment_of_exact phdr (file_length l.file) w v in
    let (o, ol, f, z, e, b) = validate_segment_sound phdr (file_length l.file) w v in
    let k : ℕ = phdr.p_vaddr / pgsize in
    let start_is : s.mem_page ≡ k * pgsize = omega (arith, mem) in
    let m : ℕ = (s.read_bytes + s.zero_bytes) / pgsize in
    let (l', loads, bytes, outside) =
      load_segment_lem m k disk a s l (omega arith) start_is top page
        (ground (arith, r, ofs, o, fits)) g
        (λ j lo hi. free j lo (omega (arith, hi, tight, mem, whole))) in
    (
      l',
      by_header loads,
      λ x h.
          ap (memory l'.space) (omega (arith, mem))
          ∙ bytes (phdr.p_vaddr % pgsize + x) (omega (arith, all, mem, h))
          ∙ ap some
              (same_byte disk l.file phdr s.read_bytes s.file_page x r (omega (arith, ofs, o))),
      λ j h.
          outside j (elim h [ inl p ↦ inl p | inr p ↦ inr (omega (arith, p, tight, mem, whole)) ]),
    )
  where
    by_header :
        {r : Option Loaded}
        → load_segment disk a 0 (segment_of phdr) l ≡ ok r
        → load_header disk a phdr l ≡ ok r
    by_header e = rw (t, v) e
