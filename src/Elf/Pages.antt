-- ===== src/Elf/Pages.antt =====
-- `load_segment` against the file and the user memory as sequences of bytes.
use qba.Prelude.{
  ℕ, zero, suc, ◌+◌, ◌-◌, ◌*◌, ◌/◌, ◌%◌, ◌≤◌, ◌<◌, ◌≡◌, ◌≢◌, refl, sym, subst, ap, ◌∙◌, Bool, true,
  false, ◌||◌, ◌⊎◌, inl, inr, Option, none, some, ltb, ◌==◌, if◌then◌else◌, arith, update,
  Bool-cases, dec_lt,
}
use qba.Prelude.Outcome.{ok}
use qba.Inode.{Disk}
use qba.Inode.Data.{byte, read_bytes}
use qba.File.{File, file_seek}
use qba.Elf.{
  Page, Space, Answers, Loaded, Segment, u32, pgsize, phys_base, load_page, load_loop, load_segment,
}
use qba.Elf.Step.{byte_of, load_page_lem, Granted, memory, segment_byte}

abbrev part : ℕ → ℕ
part read_bytes = if ltb read_bytes pgsize then read_bytes else pgsize

load_loop_step :
    (fuel : ℕ) (disk : Disk) (a : ℕ → Answers) (i upage read_bytes zero_bytes : ℕ) (writable : Bool)
    (l l₁ : Loaded)
    → 0 < read_bytes + zero_bytes
    → load_page disk (a i) upage writable (part read_bytes) l ≡ some l₁
    → load_loop (suc fuel) disk a i upage read_bytes zero_bytes writable l
      ≡ load_loop fuel disk a
          (i + 1)
          (u32 (upage + pgsize))
          (read_bytes - part read_bytes)
          (u32 (zero_bytes + (4294967296 - (pgsize - part read_bytes))))
          writable
          l₁
unfolding load_loop
load_loop_step fuel disk a i upage read_bytes zero_bytes writable l l₁ h e =
    rw (more read_bytes zero_bytes h, e) refl
  where
    more : (r z : ℕ) → 0 < r + z → (ltb 0 r || ltb 0 z) ≡ true
    more r z h = ground arith

load_loop_stop :
    (fuel : ℕ) (disk : Disk) (a : ℕ → Answers) (i upage : ℕ) (writable : Bool) (l : Loaded)
    {r z : ℕ}
    → r ≡ 0
    → z ≡ 0
    → load_loop (suc fuel) disk a i upage r z writable l ≡ ok (some l)
unfolding load_loop
load_loop_stop fuel disk a i upage writable l {r} {z} er ez = rw (none_left r z er ez) refl
  where
    none_left : (r z : ℕ) → r ≡ 0 → z ≡ 0 → (ltb 0 r || ltb 0 z) ≡ false
    none_left r z er ez = ground arith

memory_at :
    (space : Space) (k x : ℕ) {page : Page}
    → x < pgsize
    → space k ≡ some page
    → memory space (k * pgsize + x) ≡ some (page.content x)
memory_at space k x h e =
    ap (λ q. byte_of (space q) ((k * pgsize + x) % pgsize)) (at_page k x h)
    ∙ ap (byte_of (space k)) (at_offset k x h)
    ∙ ap (λ o. byte_of o x) e
  where
    at_page : (k x : ℕ) → x < pgsize → (k * pgsize + x) / pgsize ≡ k
    at_page k x h = omega arith

    at_offset : (k x : ℕ) → x < pgsize → (k * pgsize + x) % pgsize ≡ x
    at_offset k x h = omega arith

-- A byte in the first page of what is left to load, and one behind it.
segment_byte_first :
    (disk : Disk) (file : File) (r x : ℕ)
    → x < pgsize
    → segment_byte disk file (part r) x ≡ segment_byte disk file r x
segment_byte_first disk file r x h =
    ap (λ b. if b then byte disk file.inode (file.pos + x) else 0) (test r x h)
  where
    test : (r x : ℕ) → x < pgsize → ltb x (part r) ≡ ltb x r
    test r x h = ground arith

segment_byte_rest :
    (disk : Disk) (file : File) (r x : ℕ)
    → pgsize ≤ x
    → segment_byte disk (record file { pos = file.pos + part r }) (r - part r) (x - pgsize)
      ≡ segment_byte disk file r x
segment_byte_rest disk file r x h = elim (Bool-cases (ltb x r)) [
  | inl e ↦ rw (e, inside r x h e) (ap (λ q. byte disk file.inode q) (place file.pos r x h e))
  | inr e ↦ rw (e, outside r x h e) refl
]
  where
    inside : (r x : ℕ) → pgsize ≤ x → ltb x r ≡ true → ltb (x - pgsize) (r - part r) ≡ true
    inside r x h e = ground arith

    outside : (r x : ℕ) → pgsize ≤ x → ltb x r ≡ false → ltb (x - pgsize) (r - part r) ≡ false
    outside r x h e = ground arith

    place : (pos r x : ℕ) → pgsize ≤ x → ltb x r ≡ true → pos + part r + (x - pgsize) ≡ pos + x
    place pos r x h e = ground arith

update_ne : (f : Space) (p q : ℕ) (v : Option Page) → p ≢ q → update f p v q ≡ f q
update_ne f p q v ne = ground arith

update_at : (f : Space) (p q : ℕ) (v : Option Page) → p ≡ q → update f p v q ≡ v
update_at f p q v e = ground arith

-- The loop brings `m` whole pages into user memory.
load_loop_lem :
    (m fuel : ℕ) (disk : Disk) (a : ℕ → Answers) (i k read_bytes zero_bytes : ℕ) (writable : Bool)
    (l : Loaded)
    → m < fuel
    → read_bytes + zero_bytes ≡ m * pgsize
    → (k + m) * pgsize ≤ phys_base
    → Granted a
    → ((j : ℕ) → k ≤ j → j < k + m → l.space j ≡ none)
    → l.file.pos + read_bytes ≤ l.file.inode.content.length
    → (l' : Loaded) × (load_loop fuel disk a i (k * pgsize) read_bytes zero_bytes writable l
        ≡ ok (some l'))
      × (l'.file ≡ record (l.file) { pos = l.file.pos + read_bytes })
      × ((x : ℕ)
          → x < read_bytes + zero_bytes
          → memory l'.space (k * pgsize + x) ≡ some (segment_byte disk l.file read_bytes x))
      × ((j : ℕ) → (j < k) ⊎ (k + m ≤ j) → l'.space j ≡ l.space j)
load_loop_lem m zero disk a i k read_bytes zero_bytes writable l f e top g free fits =
    absurd (omega arith)
load_loop_lem zero (suc fuel) disk a i k read_bytes zero_bytes writable l f e top g free fits = (
  l,
  load_loop_stop fuel disk a i (k * pgsize) writable l (omega (arith, e)) (omega (arith, e)),
  ap (λ q. record (l.file) { pos = q }) (omega (arith, e)),
  λ x h. absurd (omega arith),
  λ j h. refl,
)
load_loop_lem (suc m) (suc fuel) disk a i k read_bytes zero_bytes writable l f e top g free fits =
    let n : ℕ = part read_bytes in
    let n_le : n ≤ read_bytes = ground arith in
    let n_page : n ≤ pgsize = ground arith in
    let n_all : (n ≡ pgsize) ⊎ (read_bytes ≡ n) = ground arith in
    let here : k * pgsize / pgsize ≡ k = omega arith in
    let (c, r, bytes) =
      load_page_lem disk (a i) (k * pgsize) writable n l (g i).0 (g i).1 (g i).2
        (subst (λ q. l.space q ≡ none) (sym here) (free k (omega arith) (omega arith)))
        (omega (arith, n_le)) in
    let l₁ : Loaded = record {
      file = record (l.file) { pos = l.file.pos + n };
      space =
          update l.space (k * pgsize / pgsize) (some (record { content = c; writable = writable }));
    } in
    let (l', r', f', bytes', outside) =
      load_loop_lem m fuel disk a (i + 1) (k + 1) (read_bytes - n) (zero_bytes - (pgsize - n))
        writable l₁ (omega arith) (ground (arith, e)) (omega arith) g
        (λ j lo hi.
          update_ne l.space (k * pgsize / pgsize) j
            (some (record { content = c; writable = writable })) (λ q. omega (arith, q, here))
          ∙ free j (omega arith) (omega arith))
        (omega (arith, n_le)) in
    (
      l',
      load_loop_step fuel disk a i (k * pgsize) read_bytes zero_bytes writable l l₁
            (omega (arith, e)) r
          ∙ ap
              (λ u.
                load_loop fuel disk a (i + 1) u (read_bytes - n)
                  (u32 (zero_bytes + (4294967296 - (pgsize - n)))) writable l₁)
              (omega (arith, top))
          ∙ ap
              (λ z. load_loop fuel disk a (i + 1) ((k + 1) * pgsize) (read_bytes - n) z writable l₁)
              (ground (arith, e, top))
          ∙ r',
      f' ∙ ap (λ q. record (l.file) { pos = q }) (omega (arith, n_le)),
      λ x h. elim (dec_lt x pgsize) [
        | yes p ↦
            memory_at l'.space k x p (
              outside k (inl (omega arith))
              ∙ update_at l.space (k * pgsize / pgsize) k
                  (some (record { content = c; writable = writable })) here)
            ∙ ap some (bytes x ∙ segment_byte_first disk l.file read_bytes x p)
        | no p ↦
            ap (memory l'.space) (omega arith)
            ∙ bytes' (x - pgsize) (ground (arith, e))
            ∙ ap some (segment_byte_rest disk l.file read_bytes x (omega arith))
      ],
      λ j h.
          outside j (elim h [ inl p ↦ inl (omega arith) | inr p ↦ inr (omega arith) ])
          ∙ update_ne l.space (k * pgsize / pgsize) j
              (some (record { content = c; writable = writable }))
              (elim h [
                | inl p ↦ λ q. omega (arith, q, here)
                | inr p ↦ λ q. omega (arith, q, here)
              ]),
    )

is_zero : (n : ℕ) → n ≡ 0 → (n == 0) ≡ true
is_zero n e = ground arith

-- A segment of whole pages below the kernel that starts at a page boundary, whose bytes to read are
-- all in the file and whose pages are not mapped yet, is loaded if every allocation is answered: the
-- addresses from its start hold the bytes of the file from `file_page` on, then zeros to the end of
-- its last page, and no other page has changed.
pub load_segment_lem :
    (m k : ℕ) (disk : Disk) (a : ℕ → Answers) (s : Segment) (l : Loaded)
    → s.read_bytes + s.zero_bytes ≡ m * pgsize
    → s.mem_page ≡ k * pgsize
    → s.mem_page + (s.read_bytes + s.zero_bytes) ≤ phys_base
    → s.file_page % pgsize ≡ 0
    → s.file_page + s.read_bytes ≤ l.file.inode.content.length
    → Granted a
    → ((j : ℕ) → k ≤ j → j < k + m → l.space j ≡ none)
    → (l' : Loaded) × (load_segment disk a 0 s l ≡ ok (some l'))
      × ((x : ℕ)
          → x < s.read_bytes + s.zero_bytes
          → memory l'.space (s.mem_page + x)
            ≡ some (segment_byte disk (record (l.file) { pos = s.file_page }) s.read_bytes x))
      × ((j : ℕ) → (j < k) ⊎ (k + m ≤ j) → l'.space j ≡ l.space j)
unfolding load_segment file_seek
load_segment_lem m k disk a s l total start top page fits g free =
    let (l', r, f, bytes, outside) =
      load_loop_lem m (suc (s.read_bytes + s.zero_bytes)) disk a 0 k s.read_bytes s.zero_bytes
        s.writable (record l { file = record (l.file) { pos = s.file_page } })
        (omega (arith, total)) total (omega (arith, total, start, top)) g free fits in
    (
      l',
      rw
          (
            is_zero (u32 (s.read_bytes + s.zero_bytes) % pgsize) (omega (arith, total)),
            is_zero (s.mem_page % pgsize) (omega (arith, start)),
            is_zero (s.file_page % pgsize) page,
          )
          (ap
              (λ q.
                load_loop (suc (s.read_bytes + s.zero_bytes)) disk a 0 q s.read_bytes s.zero_bytes
                  s.writable (record l { file = record (l.file) { pos = s.file_page } }))
              start
            ∙ r),
      λ x h. ap (λ q. memory l'.space (q + x)) start ∙ bytes x h,
      outside,
    )
