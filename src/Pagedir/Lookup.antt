-- ===== src/Pagedir/Lookup.antt =====
-- The page that a page directory has at an address.
use qba.Prelude.{
  ℕ, ◌+◌, ◌*◌, ◌/◌, ◌%◌, ◌<◌, ◌≡◌, ◌≢◌, refl, ap, ◌∙◌, Bool, true, false, not, ◌||◌, Option, none,
  some, ltb, ◌==◌, update, ◌⊎◌, inl, inr, arith,
}
use qba.Prelude.Outcome.{Outcome, ok, ◌>>=◌, ◌>>◌, assert}
use Prim.Native.Nat.{bit_and}
use qba.Prelude.Masks.{bit_and-one}
use qba.Elf.{phys_base, is_user_vaddr}
use qba.Palloc.{pg_ofs}
use qba.Pagedir.{
  KernelWords, pt_no, pd_no, zeroed, ram_checked, set_entry, get_entry, pte_get_page, pde_get_pt,
  lookup_page, pagedir_set_page, pagedir_get_page,
}
use qba.Pagedir.Entry.{
  frame, vtop-frame, pde_create_lem, pde_get_pt_lem, user_flags, pte_create_user_lem,
  pte_get_page_lem,
}

abbrev pde_at : ℕ → ℕ → ℕ
pde_at d va = frame d + 4 * pd_no va

abbrev pte_at : ℕ → ℕ → ℕ
pte_at q va = frame q + 4 * pt_no va

apart : (d q va : ℕ) → d ≢ q → va < phys_base → pde_at d va ≢ pte_at q va
apart d q va ne h = λ e. ne (omega (arith, e, h))

not_null : (d : ℕ) → (frame d == 0) ≡ false
not_null d = ground arith

is_user : (create : Bool) (va : ℕ) → va < phys_base → (not create || ltb va phys_base) ≡ true
is_user true va h = ground (arith, h)
is_user false va h = refl

in_use : (x q : ℕ) → x ≡ 4096 * q + 7 → (x == 0) ≡ false
in_use x q e = ground (arith, e)

unused : (x : ℕ) → x ≡ 0 → (x == 0) ≡ true
unused x e = ground (arith, e)

lookup_found :
    (mem : KernelWords) (d q va : ℕ) (create : Bool) (got : Option ℕ)
    → q < 262144
    → va < phys_base
    → mem (pde_at d va) ≡ 4096 * q + 7
    → lookup_page mem (frame d) va create got ≡ ok (some (pte_at q va), mem)
unfolding lookup_page is_user_vaddr
lookup_found mem d q va create got b h e =
    rw
      (
        not_null d,
        is_user create va h,
        in_use (mem (pde_at d va)) q e,
        ap pde_get_pt e ∙ pde_get_pt_lem q b,
      )
      refl

abbrev with_table : KernelWords → ℕ → ℕ → ℕ → KernelWords
with_table mem d q va = update (zeroed mem (frame q)) (pde_at d va) (4096 * q + 7)

lookup_created :
    (mem : KernelWords) (d q va : ℕ)
    → q < 262144
    → va < phys_base
    → mem (pde_at d va) ≡ 0
    → lookup_page mem (frame d) va true (some (frame q))
      ≡ ok (some (pte_at q va), with_table mem d q va)
unfolding lookup_page is_user_vaddr
lookup_created mem d q va b h e =
    rw
      (
        not_null d,
        is_user true va h,
        unused (mem (pde_at d va)) e,
        pde_create_lem q,
        pde_get_pt_lem q b,
      )
      refl

-- The page table for the address is there, in the frame `q`, and has no page at the address; or there is
-- none, and the frame `q` is granted for it.
abbrev pub Free : KernelWords → ℕ → ℕ → ℕ → Option ℕ → Type 0
Free mem d q va got =
    ((mem (pde_at d va) ≡ 4096 * q + 7) × (mem (pte_at q va) % 2 ≡ 0))
    ⊎ ((mem (pde_at d va) ≡ 0) × (got ≡ some (frame q)))

-- What `lookup_page` leaves for `pagedir_set_page`.
Prepared : KernelWords → ℕ → ℕ → ℕ → Option ℕ → Type 0
Prepared mem d q va got =
    (mem' : KernelWords) × (lookup_page mem (frame d) va true got ≡ ok (some (pte_at q va), mem'))
    × (mem' (pde_at d va) ≡ 4096 * q + 7)
    × (mem' (pte_at q va) % 2 ≡ 0)

find_table :
    (mem : KernelWords) (d q va : ℕ) (got : Option ℕ)
    → d ≢ q
    → q < 262144
    → va < phys_base
    → Free mem d q va got
    → Prepared mem d q va got
unfolding Prepared
find_table mem d q va got ne b h (inl (e, z)) = (mem, lookup_found mem d q va true got b h e, e, z)
find_table mem d q va got ne b h (inr (e, g)) =
    let none_at : pde_at d va ≢ pte_at q va = apart d q va ne h in
    (
      with_table mem d q va,
      ap (lookup_page mem (frame d) va true) g ∙ lookup_created mem d q va b h e,
      ground arith,
      ground (arith, none_at),
    )

checked : (ram p : ℕ) → p < ram → ltb (4096 * p / 4096) ram ≡ true
checked ram p h = ground (arith, h)

not_init : (d init : ℕ) → frame d ≢ init → not (frame d == init) ≡ true
not_init d init h = ground (arith, h)

aligned : (p : ℕ) → (pg_ofs (frame p) == 0) ≡ true
aligned p = ground arith

on_page : (va : ℕ) → pg_ofs va ≡ 0 → (pg_ofs va == 0) ≡ true
on_page va h = ground (arith, h)

absent : (x : ℕ) → x % 2 ≡ 0 → (bit_and x 1 == 0) ≡ true
absent x h = ground (arith, h, bit_and-one x)

passes : {A : Type 0} (b : Bool) (r : Outcome A) → b ≡ true → (assert b >> r) ≡ r
passes b r e = rw e refl

in_ram : (ram p : ℕ) → p < ram → ram_checked ram (frame p) ≡ ok (4096 * p)
in_ram ram p h = rw (vtop-frame p, checked ram p h) refl

entered :
    (mem : KernelWords) (pte p : ℕ) (writable : Bool)
    → mem pte % 2 ≡ 0
    → set_entry (frame p) writable (some pte, mem)
      ≡ ok (true, update mem pte (4096 * p + user_flags writable))
entered mem pte p writable z = rw (absent (mem pte) z, pte_create_user_lem p writable) refl

got_entry :
    (mem : KernelWords) (pte p f uaddr : ℕ)
    → f < 4096
    → f % 2 ≡ 1
    → p < 262144
    → mem pte ≡ 4096 * p + f
    → get_entry uaddr (some pte, mem) ≡ ok (some (frame p + pg_ofs uaddr))
got_entry mem pte p f uaddr small odd h e =
    rw (present, ap pte_get_page e ∙ pte_get_page_lem p f small h) refl
  where
    present : (bit_and (mem pte) 1 == 0) ≡ false
    present = ground (arith, e, odd, bit_and-one (mem pte))

then_with : {A B : Type 0} {r : Outcome A} {a : A} (f : A → Outcome B) → r ≡ ok a → (r >>= f) ≡ f a
then_with f e = rw e refl

flags_lem : (writable : Bool) → (user_flags writable < 4096) × (user_flags writable % 2 ≡ 1)
flags_lem true = (omega arith, refl)
flags_lem false = (omega arith, refl)

get_page_lem :
    (mem : KernelWords) (d q p uaddr : ℕ) (writable : Bool)
    → q < 262144
    → p < 262144
    → uaddr < phys_base
    → mem (pde_at d uaddr) ≡ 4096 * q + 7
    → mem (pte_at q uaddr) ≡ 4096 * p + user_flags writable
    → pagedir_get_page mem (frame d) uaddr ≡ ok (some (frame p + pg_ofs uaddr))
unfolding pagedir_get_page
get_page_lem mem d q p uaddr writable bq bp h t e =
    let (small, odd) = flags_lem writable in
    passes (ltb uaddr phys_base) _ (is_user true uaddr h)
    ∙ then_with (get_entry uaddr) (lookup_found mem d q uaddr false none bq h t)
    ∙ got_entry mem (pte_at q uaddr) p (user_flags writable) uaddr small odd bp e

set_page_lem :
    (ram init d q p upage : ℕ) (mem mem' : KernelWords) (writable : Bool) (got : Option ℕ)
    → frame d ≢ init
    → p < ram
    → pg_ofs upage ≡ 0
    → upage < phys_base
    → lookup_page mem (frame d) upage true got ≡ ok (some (pte_at q upage), mem')
    → mem' (pte_at q upage) % 2 ≡ 0
    → pagedir_set_page ram init mem (frame d) upage (frame p) writable got
      ≡ ok (true, update mem' (pte_at q upage) (4096 * p + user_flags writable))
unfolding pagedir_set_page
set_page_lem ram init d q p upage mem mem' writable got ni br o h e z =
    passes (pg_ofs upage == 0) _ (on_page upage o)
    ∙ passes (pg_ofs (frame p) == 0) _ (aligned p)
    ∙ passes (ltb upage phys_base) _ (is_user true upage h)
    ∙ then_with _ (in_ram ram p br)
    ∙ passes (not (frame d == init)) _ (not_init d init ni)
    ∙ then_with (set_entry (frame p) writable) e
    ∙ entered mem' (pte_at q upage) p writable z

-- For a page directory and a page in frames of memory, a user page that is not mapped, and a page table
-- that is there or is granted in a frame of its own: `pagedir_set_page` succeeds, and then
-- `pagedir_get_page` finds the page at each address of the user page, at the offset of the address.
pub pagedir_get_page-set_page :
    (init_ram_pages init_page_dir d q p upage uaddr : ℕ) (mem : KernelWords) (writable : Bool)
    (got : Option ℕ)
    → d ≢ q
    → frame d ≢ init_page_dir
    → q < 262144
    → p < 262144
    → p < init_ram_pages
    → pg_ofs upage ≡ 0
    → upage < phys_base
    → uaddr / 4096 ≡ upage / 4096
    → Free mem d q upage got
    → (mem' : KernelWords) × (pagedir_set_page init_ram_pages init_page_dir mem
          (frame d)
          upage
          (frame p)
          writable
          got
        ≡ ok (true, mem'))
      × (pagedir_get_page mem' (frame d) uaddr ≡ ok (some (frame p + pg_ofs uaddr)))
unfolding Prepared
pagedir_get_page-set_page ram init d q p upage uaddr mem writable got ne ni bq bp br o h same free =
    let (mem', e, t, z) = find_table mem d q upage got ne bq h free in
    let directory : pde_at d uaddr ≡ pde_at d upage = omega (arith, same) in
    let table : pte_at q uaddr ≡ pte_at q upage = omega (arith, same) in
    let differ : pde_at d upage ≢ pte_at q upage = apart d q upage ne h in
    let set : KernelWords = update mem' (pte_at q upage) (4096 * p + user_flags writable) in
    let kept : set (pde_at d upage) ≡ 4096 * q + 7 = ground (arith, differ, t) in
    let there : set (pte_at q upage) ≡ 4096 * p + user_flags writable = ground arith in
    (
      set,
      set_page_lem ram init d q p upage mem mem' writable got ni br o h e z,
      get_page_lem set d q p uaddr writable bq bp (omega (arith, same, h)) (ap set directory ∙ kept)
          (ap set table ∙ there),
    )
