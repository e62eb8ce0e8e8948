-- ===== src/Pagedir.antt =====
-- Page directories and page tables: src/userprog/pagedir.c, over threads/pte.h and threads/vaddr.h.
-- The words of the kernel's memory stand at their virtual addresses. What `palloc_get_page` answers,
-- `init_page_dir` and `init_ram_pages` are arguments. Not here: pagedir_create and pagedir_destroy, the
-- bits PTE_A and PTE_D, and the registers of the processor.
mod Tests
pub mod Entry
pub mod Lookup
use qba.Prelude.{
  ℕ, ◌+◌, ◌-◌, ◌*◌, ◌/◌, ◌%◌, Bool, true, false, not, ◌&&◌, ◌||◌, Option, none, some, ltb, leb,
  ◌==◌, if◌then◌else◌, update,
}
use qba.Prelude.Outcome.{Outcome, ok, ◌>>=◌, ◌>>◌, assert}
use Prim.Native.Nat.{bit_and, bit_or}
use qba.Palloc.{pg_ofs}
use qba.Elf.{phys_base, is_user_vaddr}

abbrev pub KernelWords : Type 0
KernelWords = ℕ → ℕ

-- `PTE_P`, `PTE_W` and `PTE_U`
abbrev pub pte_p : ℕ
pte_p = 1

abbrev pub pte_w : ℕ
pte_w = 2

abbrev pub pte_u : ℕ
pte_u = 4

-- `PTE_ADDR`
abbrev pub pte_addr : ℕ
pte_addr = 4294963200

unfoldable pub vtop : ℕ → Outcome ℕ
vtop vaddr = assert (leb phys_base vaddr) >> ok (vaddr - phys_base)

unfoldable pub ptov : ℕ → Outcome ℕ
ptov paddr = assert (ltb paddr phys_base) >> ok (paddr + phys_base)

-- `va & PTMASK` are the bits 12 to 21.
abbrev pub pt_no : ℕ → ℕ
pt_no va = va / 4096 % 1024

abbrev pub pd_no : ℕ → ℕ
pd_no va = va / 4194304

unfoldable pub pde_create : ℕ → Outcome ℕ
unfolding vtop
pde_create pt = do
  assert (pg_ofs pt == 0)
  p ← vtop pt
  ok (bit_or (bit_or (bit_or p pte_u) pte_p) pte_w)

unfoldable pub pde_get_pt : ℕ → Outcome ℕ
unfolding ptov
pde_get_pt pde = do assert (not (bit_and pde pte_p == 0)); ptov (bit_and pde pte_addr)

unfoldable pub pte_create_kernel : ℕ → Bool → Outcome ℕ
unfolding vtop
pte_create_kernel page writable = do
  assert (pg_ofs page == 0)
  p ← vtop page
  ok (bit_or (bit_or p pte_p) (if writable then pte_w else 0))

unfoldable pub pte_create_user : ℕ → Bool → Outcome ℕ
unfolding pte_create_kernel
pte_create_user page writable = do pte ← pte_create_kernel page writable; ok (bit_or pte pte_u)

unfoldable pub pte_get_page : ℕ → Outcome ℕ
unfolding ptov
pte_get_page pte = ptov (bit_and pte pte_addr)

-- `palloc_get_page (PAL_ZERO)` answers `pt`.
abbrev pub zeroed : KernelWords → ℕ → KernelWords
zeroed mem pt a = if leb pt a && ltb a (pt + 4096) then 0 else mem a

abbrev table_entry : KernelWords → ℕ → ℕ → Outcome (Option ℕ × KernelWords)
table_entry mem vaddr pde = do pt ← pde_get_pt pde; ok (some (pt + 4 * pt_no vaddr), mem)

abbrev create_table : KernelWords → ℕ → ℕ → Option ℕ → Outcome (Option ℕ × KernelWords)
create_table mem pde vaddr none = ok (none, mem)
create_table mem pde vaddr (some pt) = do
  e ← pde_create pt
  table_entry (update (zeroed mem pt) pde e) vaddr e

-- The address of the page table entry. `got` is what `palloc_get_page` answers.
unfoldable pub lookup_page :
    KernelWords → ℕ → ℕ → Bool → Option ℕ → Outcome (Option ℕ × KernelWords)
unfolding is_user_vaddr pde_create pde_get_pt
lookup_page mem pd vaddr create got =
    let pde = pd + 4 * pd_no vaddr in
    let missing = if create then create_table mem pde vaddr got else ok (none, mem) in
    let found = table_entry mem vaddr (mem pde) in
    assert (not (pd == 0))
    >> assert (not create || is_user_vaddr vaddr)
    >> (if mem pde == 0 then missing else found)

abbrev pub set_entry : ℕ → Bool → Option ℕ × KernelWords → Outcome (Bool × KernelWords)
set_entry kpage writable (none, mem) = ok (false, mem)
set_entry kpage writable (some pte, mem) = do
  assert (bit_and (mem pte) pte_p == 0)
  e ← pte_create_user kpage writable
  ok (true, update mem pte e)

abbrev pub ram_checked : ℕ → ℕ → Outcome ℕ
ram_checked init_ram_pages kpage = do p ← vtop kpage; assert (ltb (p / 4096) init_ram_pages); ok p

unfoldable pub pagedir_set_page :
    ℕ → ℕ → KernelWords → ℕ → ℕ → ℕ → Bool → Option ℕ → Outcome (Bool × KernelWords)
unfolding lookup_page pte_create_user is_user_vaddr vtop
pagedir_set_page init_ram_pages init_page_dir mem pd upage kpage writable got = do
  assert (pg_ofs upage == 0)
  assert (pg_ofs kpage == 0)
  assert (is_user_vaddr upage)
  p ← ram_checked init_ram_pages kpage
  assert (not (pd == init_page_dir))
  r ← lookup_page mem pd upage true got
  set_entry kpage writable r

abbrev pub get_entry : ℕ → Option ℕ × KernelWords → Outcome (Option ℕ)
get_entry uaddr (none, mem) = ok none
get_entry uaddr (some pte, mem) =
    let page = pte_get_page (mem pte) >>= (λ p. ok (some (p + pg_ofs uaddr))) in
    if bit_and (mem pte) pte_p == 0 then ok none else page

unfoldable pub pagedir_get_page : KernelWords → ℕ → ℕ → Outcome (Option ℕ)
unfolding lookup_page pte_get_page is_user_vaddr
pagedir_get_page mem pd uaddr = do
  assert (is_user_vaddr uaddr)
  r ← lookup_page mem pd uaddr false none
  get_entry uaddr r

-- `*pte &= ~PTE_P`
abbrev clear_entry : Option ℕ × KernelWords → KernelWords
clear_entry (none, mem) = mem
clear_entry (some pte, mem) =
    if bit_and (mem pte) pte_p == 0 then mem else update mem pte (bit_and (mem pte) 4294967294)

unfoldable pub pagedir_clear_page : KernelWords → ℕ → ℕ → Outcome KernelWords
unfolding lookup_page is_user_vaddr
pagedir_clear_page mem pd upage = do
  assert (pg_ofs upage == 0)
  assert (is_user_vaddr upage)
  r ← lookup_page mem pd upage false none
  ok (clear_entry r)
