-- ===== src/Pagedir/Entry.antt =====
-- Page table entries and the addresses in them.
use qba.Prelude.{
  ℕ, ◌+◌, ◌*◌, ◌<◌, ◌≡◌, refl, ap, ◌∙◌, Bool, true, false, ◌==◌, if◌then◌else◌, arith,
}
use qba.Prelude.Outcome.{ok}
use Prim.Native.Nat.{bit_and, bit_or}
use qba.Prelude.Masks.{bit_or-flags, bit_and-mask, bit_and-one}
use qba.Elf.{phys_base}
use qba.Palloc.{pg_ofs}
use qba.Pagedir.{
  pte_addr, vtop, ptov, pde_create, pde_get_pt, pte_create_kernel, pte_create_user, pte_get_page,
}

-- The page with the number `q` of physical memory.
abbrev pub frame : ℕ → ℕ
frame q = phys_base + 4096 * q

pub vtop-frame : (q : ℕ) → vtop (frame q) ≡ ok (4096 * q)
unfolding vtop
vtop-frame q = ground arith

pub ptov_lem : (q : ℕ) → q < 262144 → ptov (4096 * q) ≡ ok (frame q)
unfolding ptov
ptov_lem q h = ground arith

masked : (q f : ℕ) → f < 4096 → q < 262144 → bit_and (4096 * q + f) pte_addr ≡ 4096 * q
masked q f h b = bit_and-mask 12 20 q f h (omega (arith, b))

pub pte_get_page_lem :
    (q f : ℕ) → f < 4096 → q < 262144 → pte_get_page (4096 * q + f) ≡ ok (frame q)
unfolding pte_get_page
pte_get_page_lem q f h b = ap ptov (masked q f h b) ∙ ptov_lem q b

flagged : (q f g : ℕ) → f < 4096 → g < 4096 → bit_or (4096 * q + f) g ≡ 4096 * q + bit_or f g
flagged q f g h l = bit_or-flags 12 q f g h l

first_flag : (q g : ℕ) → g < 4096 → bit_or (4096 * q) g ≡ 4096 * q + bit_or 0 g
first_flag q g l = ap (λ t. bit_or t g) plain ∙ flagged q 0 g (omega arith) l
  where
    plain : 4096 * q ≡ 4096 * q + 0
    plain = omega arith

-- A page directory entry for the page table in the frame `q`.
pub pde_create_lem : (q : ℕ) → pde_create (frame q) ≡ ok (4096 * q + 7)
unfolding pde_create
pde_create_lem q = rw (vtop-frame q, aligned, orred) refl
  where
    aligned : (pg_ofs (frame q) == 0) ≡ true
    aligned = ground arith

    orred : bit_or (bit_or (bit_or (4096 * q) 4) 1) 2 ≡ 4096 * q + 7
    orred =
        ap (λ t. bit_or (bit_or t 1) 2) (first_flag q 4 (omega arith))
        ∙ ap (λ t. bit_or t 2) (flagged q 4 1 (omega arith) (omega arith))
        ∙ flagged q 5 2 (omega arith) (omega arith)

pub pde_get_pt_lem : (q : ℕ) → q < 262144 → pde_get_pt (4096 * q + 7) ≡ ok (frame q)
unfolding pde_get_pt
pde_get_pt_lem q b = rw (present, masked q 7 (omega arith) b, ptov_lem q b) refl
  where
    present : (bit_and (4096 * q + 7) 1 == 0) ≡ false
    present = ground (arith, bit_and-one (4096 * q + 7))

-- The flags of a user page.
abbrev pub user_flags : Bool → ℕ
user_flags writable = if writable then 7 else 5

pub pte_create_user_lem :
    (q : ℕ) (writable : Bool)
    → pte_create_user (frame q) writable ≡ ok (4096 * q + user_flags writable)
unfolding pte_create_user pte_create_kernel
pte_create_user_lem q writable = rw (vtop-frame q, aligned, orred writable) refl
  where
    aligned : (pg_ofs (frame q) == 0) ≡ true
    aligned = ground arith

    orred :
        (w : Bool)
        → bit_or (bit_or (bit_or (4096 * q) 1) (if w then 2 else 0)) 4 ≡ 4096 * q + user_flags w
    orred true =
        ap (λ t. bit_or (bit_or t 2) 4) (first_flag q 1 (omega arith))
        ∙ ap (λ t. bit_or t 4) (flagged q 1 2 (omega arith) (omega arith))
        ∙ flagged q 3 4 (omega arith) (omega arith)
    orred false =
        ap (λ t. bit_or (bit_or t 0) 4) (first_flag q 1 (omega arith))
        ∙ ap (λ t. bit_or t 4) (flagged q 1 0 (omega arith) (omega arith))
        ∙ flagged q 1 4 (omega arith) (omega arith)
