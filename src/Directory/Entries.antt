-- ===== src/Directory/Entries.antt =====
-- The list of entries that stands for a map from names to sectors, and what `lookup` finds in it.
use qba.Prelude.{
  ℕ, suc, ◌+◌, ◌-◌, ◌≤◌, ◌<◌, ◌≡◌, refl, sym, subst, ap, ap₂, ◌∙◌, Bool, true, false, ◌&&◌, Option,
  none, some, List, [], ◌∷◌, length, set, if◌then◌else◌, arith, Bool-cases, inl, inr,
}
use qba.Directory.{Name, DirEntry, same_name, lookup, sector_of, free_slot}

pub same_name_refl : (a : Name) → same_name a a ≡ true
same_name_refl [] = refl
same_name_refl (x ∷ a) = ground (arith, same_name_refl a)

pub same_name_eq : (a b : Name) → same_name a b ≡ true → a ≡ b
same_name_eq [] [] e = refl
same_name_eq [] (y ∷ b) e = cc
same_name_eq (x ∷ a) [] e = cc
same_name_eq (x ∷ a) (y ∷ b) e = ap₂ ◌∷◌ (ground (arith, e)) (same_name_eq a b (ground (arith, e)))

-- No read falls short before the end of the file.
abbrev pub AllRead : (ℕ → Bool) → Type 0
AllRead got = (i : ℕ) → got i ≡ true

abbrev pub always : ℕ → Bool
always i = true

-- The map that a directory stands for, by recursion on its entries.
abbrev pub sector : Name → List DirEntry → Option ℕ
sector name [] = none
sector name (e ∷ es) =
    let rest = sector name es in
    if e.in_use && same_name name e.name then some e.inode_sector else rest

pub dir_lookup-sector :
    (got : ℕ → Bool) (name : Name) (i : ℕ) (es : List DirEntry)
    → AllRead got
    → sector_of (lookup got name i es) ≡ sector name es
unfolding lookup
dir_lookup-sector got name i [] all = refl
dir_lookup-sector got name i (e ∷ es) all =
    ground (arith, all i, dir_lookup-sector got name (i + 1) es all)

-- In the free slot, an entry answers for its name if no other does.
same_name_differs :
    (other name x : Name)
    → same_name other name ≡ true
    → same_name name x ≡ false
    → same_name other x ≡ false
same_name_differs other name x e f =
    subst (λ n. same_name n x ≡ false) (sym (same_name_eq other name e)) f

-- What it means that no entry has the name.
pub sector-none :
    (name : Name) (d : DirEntry) (es : List DirEntry)
    → sector name (d ∷ es) ≡ none
    → d.in_use ≡ true
    → (same_name name d.name ≡ false) × (sector name es ≡ none)
sector-none name d es e u = elim (Bool-cases (same_name name d.name)) [
  | inl t ↦ absurd (ground (arith, e, u, t))
  | inr t ↦ (t, ground (arith, e, u, t))
]

pub sector-add :
    (got : ℕ → Bool) (i : ℕ) (name other : Name) (s : ℕ) (es : List DirEntry)
    → AllRead got
    → sector name es ≡ none
    → free_slot got i es < length es
    → sector other
        (set es (free_slot got i es) (record { inode_sector = s; name = name; in_use = true }))
      ≡ (if same_name other name then some s else sector other es)
unfolding free_slot
sector-add got i name other s [] all e h = absurd (omega arith)
sector-add got i name other s (d ∷ es) all e h = elim (Bool-cases d.in_use) [
  | inr u ↦ rw (u, all i) refl
  | inl u ↦
      let (f, rest) = sector-none name d es e u in
      elim (Bool-cases (same_name other name)) [
        | inl t ↦
            rw (all i, u, t, same_name_differs other name d.name t f)
              (sector-add got (i + 1) name other s es all rest (ground (arith, u, h, all i))
                ∙ rw t refl)
        | inr t ↦
            rw (all i, u, t)
              (ap (λ q. if same_name other d.name then some d.inode_sector else q)
                (sector-add got (i + 1) name other s es all rest (ground (arith, u, h, all i))
                  ∙ rw t refl))
      ]
]

-- No two entries in use have one name.
abbrev pub Unique : List DirEntry → Type 0
Unique [] = Unit {0}
Unique (e ∷ es) = (e.in_use ≡ true → sector e.name es ≡ none) × Unique es

abbrev pub off : DirEntry → DirEntry
off e = record e { in_use = false }

remove_first :
    (name other : Name) (x : DirEntry) (es : List DirEntry)
    → same_name name x.name ≡ true
    → sector x.name es ≡ none
    → sector other es ≡ (
        if same_name other name
        then none
        else if x.in_use && same_name other x.name
        then some x.inode_sector
        else sector other es)
remove_first name other x es e n = elim (Bool-cases (same_name other name)) [
  | inl t ↦ rw t (
      subst (λ a. sector a es ≡ none)
        (sym (same_name_eq name x.name e) ∙ sym (same_name_eq other name t)) n)
  | inr t ↦
      rw
        (
          t,
          subst (λ a. same_name other a ≡ false) (same_name_eq name x.name e) t,
          and_false x.in_use,
        )
        refl
]
  where
    and_false : (b : Bool) → (b && false) ≡ false
    and_false true = refl
    and_false false = refl

remove_later :
    (name other : Name) (x : DirEntry) (es es' : List DirEntry)
    → (x.in_use && same_name name x.name) ≡ false
    → sector other es' ≡ (if same_name other name then none else sector other es)
    → sector other (x ∷ es') ≡ (if same_name other name then none else sector other (x ∷ es))
remove_later name other x es es' e h = elim (Bool-cases (same_name other name)) [
  | inl t ↦
      rw
        (
          t,
          subst (λ a. (x.in_use && same_name a x.name) ≡ false) (sym (same_name_eq other name t)) e,
        )
        (h ∙ rw t refl)
  | inr t ↦ rw t (
      ap (λ q. if x.in_use && same_name other x.name then some x.inode_sector else q)
        (h ∙ rw t refl))
]

-- The entry that `lookup` finds is the one that answers for the name, and no other does.
abbrev pub Cleared : Name → ℕ → ℕ → List DirEntry → DirEntry → Type 0
Cleared name i j es d =
    (i ≤ j)
    × (j < i + length es)
    × ((other : Name)
        → sector other (set es (j - i) (off d))
          ≡ (if same_name other name then none else sector other es))

some_injective : {A : Type 0} {a b : A} → some a ≡ some b → a ≡ b
some_injective e = cc

pub lookup_lem :
    (got : ℕ → Bool) (name : Name) (i j : ℕ) (es : List DirEntry) (d : DirEntry)
    → Unique es
    → lookup got name i es ≡ some (j, d)
    → Cleared name i j es d
unfolding lookup
lookup_lem got name i j [] d q e = cc
lookup_lem got name i j (x ∷ es) d (v, q) e = elim (Bool-cases (got i)) [
  | inr fails ↦ absurd (ground (arith, e, fails))
  | inl reads ↦ elim (Bool-cases (x.in_use && same_name name x.name)) [
    | inl t ↦ first t (ground (arith, e, t, reads))
    | inr t ↦ later t (lookup_lem got name (i + 1) j es d q (ground (arith, e, t, reads)))
  ]
]
  where
    at_once : (x.in_use && same_name name x.name) ≡ true → Cleared name i i (x ∷ es) x
    at_once t = (
      omega arith,
      omega arith,
      λ other.
          ap (λ k. sector other (set (x ∷ es) k (off x))) {y = 0} (omega arith)
          ∙ remove_first name other x es (ground (arith, t)) (v (ground (arith, t))),
    )

    first :
        (x.in_use && same_name name x.name) ≡ true
        → ◌≡◌ {A = Option (ℕ × DirEntry)} (some (i, x)) (some (j, d))
        → Cleared name i j (x ∷ es) d
    first t f =
        subst (λ r. Cleared name i r.0 (x ∷ es) r.1) {x = (i, x)} {y = (j, d)} (some_injective f)
          (at_once t)

    later :
        (x.in_use && same_name name x.name) ≡ false
        → Cleared name (i + 1) j es d
        → Cleared name i j (x ∷ es) d
    later t (a, b, c) = (
      omega arith,
      omega arith,
      λ other.
          ap (λ k. sector other (set (x ∷ es) k (off d))) {y = suc (j - (i + 1))} (omega arith)
          ∙ remove_later name other x es (set es (j - (i + 1)) (off d)) t (c other),
    )

-- What `lookup` finds although some reads may fail, it finds where none does.
pub lookup-always :
    (got : ℕ → Bool) (name : Name) (i : ℕ) (es : List DirEntry) {r : ℕ × DirEntry}
    → lookup got name i es ≡ some r
    → lookup always name i es ≡ some r
unfolding lookup
lookup-always got name i [] e = cc
lookup-always got name i (x ∷ es) e = elim (Bool-cases (got i)) [
  | inr fails ↦ absurd (ground (arith, e, fails))
  | inl reads ↦ elim (Bool-cases (x.in_use && same_name name x.name)) [
    | inl t ↦ ground (arith, e, t, reads)
    | inr t ↦ rw t (lookup-always got name (i + 1) es (ground (arith, e, t, reads)))
  ]
]
