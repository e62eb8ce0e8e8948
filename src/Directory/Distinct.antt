-- ===== src/Directory/Distinct.antt =====
-- The names of a directory over every sequence of additions and removals.
use qba.Prelude.{
  ℕ, zero, suc, ◌<◌, ◌≡◌, refl, sym, subst, ap, ◌∙◌, Bool, true, false, ◌&&◌, ◌||◌, Option, none,
  some, List, [], ◌∷◌, length, set, ltb, if◌then◌else◌, arith, Bool-cases, inl, inr, ◌+◌,
}
use qba.Directory.{
  Name, name_max, DirEntry, same_name, lookup, sector_of, is_empty, is_found, free_slot,
  write_entry, dir_add, dir_remove, erase,
}
use qba.Directory.Entries.{
  AllRead, sector, Unique, off, sector-none, sector-add, same_name_refl, same_name_eq,
  dir_lookup-sector,
}

same_name_sym : (a b : Name) → same_name a b ≡ false → same_name b a ≡ false
same_name_sym a b e = elim (Bool-cases (same_name b a)) [
  | inr t ↦ t
  | inl t ↦ absurd (contra (subst (λ c. same_name a c ≡ false) (same_name_eq b a t) e))
]
  where
    contra : same_name a a ≡ false → ⊥
    contra f = ground (arith, f, same_name_refl a)

add-Unique :
    (got : ℕ → Bool) (i : ℕ) (name : Name) (s : ℕ) (es : List DirEntry)
    → AllRead got
    → sector name es ≡ none
    → free_slot got i es < length es
    → Unique es
    → Unique (set es (free_slot got i es) (record { inode_sector = s; name = name; in_use = true }))
unfolding free_slot
add-Unique got i name s [] all n h u = tt
add-Unique got i name s (d ∷ es) all n h (v, u) = elim (Bool-cases d.in_use) [
  | inr t ↦ rw (all i, t) ((λ e. ground (arith, n, t)), u)
  | inl t ↦
      let (f, rest) = sector-none name d es n t in
      rw (all i, t)
        (
          (λ e.
              sector-add got (i + 1) name d.name s es all rest (ground (arith, t, h, all i))
              ∙ rw (same_name_sym name d.name f) (v t)),
          add-Unique got (i + 1) name s es all rest (ground (arith, t, h, all i)) u,
        )
]

-- To turn an entry off adds no name.
sector-off :
    (name : Name) (k : ℕ) (d : DirEntry) (es : List DirEntry)
    → sector name es ≡ none
    → sector name (set es k (off d)) ≡ none
sector-off name k d [] e = refl
sector-off name zero d (x ∷ es) e = elim (Bool-cases (x.in_use && same_name name x.name)) [
  | inl t ↦ absurd (ground (arith, e, t))
  | inr t ↦ ground (arith, e, t)
]
sector-off name (suc k) d (x ∷ es) e = elim (Bool-cases (x.in_use && same_name name x.name)) [
  | inl t ↦ absurd (ground (arith, e, t))
  | inr t ↦ rw t (sector-off name k d es (ground (arith, e, t)))
]

off-Unique : (k : ℕ) (d : DirEntry) (es : List DirEntry) → Unique es → Unique (set es k (off d))
off-Unique k d [] u = tt
off-Unique zero d (x ∷ es) (v, u) = ((λ e. absurd (ground (arith, e))), u)
off-Unique (suc k) d (x ∷ es) (v, u) = ((λ e. sector-off x.name k d es (v e)), off-Unique k d es u)

abbrev UniqueAt : Bool × List DirEntry → Type 0
UniqueAt r = Unique r.1

dir_add-Unique :
    (got got' : ℕ → Bool) (written : Bool) (name : Name) (s : ℕ) (es : List DirEntry)
    → AllRead got
    → AllRead got'
    → Unique es
    → Unique (dir_add got got' written name s es).1
unfolding dir_add
dir_add-Unique got got' written name s es all all' u =
    by_valid (is_empty name || ltb name_max (length name))
  where
    by_write :
        sector name es ≡ none
        → (b : Bool) → (ltb (free_slot got' 0 es) (length es) && written) ≡ b
        → UniqueAt (
            if b
            then (
              true,
              set es
                  (free_slot got' 0 es)
                  (record { inode_sector = s; name = name; in_use = true }),
            )
            else (false, es))
    by_write n false w = u
    by_write n true w = add-Unique got' 0 name s es all' n (ground (arith, w)) u

    by_lookup :
        (r : Option (ℕ × DirEntry))
        → lookup got name 0 es ≡ r
        → UniqueAt (
            if is_found r
            then (false, es)
            else write_entry written es
                (free_slot got' 0 es)
                (record { inode_sector = s; name = name; in_use = true }))
    by_lookup (some r) f = u
    by_lookup none f =
        by_write (sym (dir_lookup-sector got name 0 es all) ∙ ap sector_of f)
          (ltb (free_slot got' 0 es) (length es) && written) refl

    by_valid :
        (b : Bool)
        → UniqueAt (
            if b
            then (false, es)
            else if is_found (lookup got name 0 es)
            then (false, es)
            else write_entry written es
                (free_slot got' 0 es)
                (record { inode_sector = s; name = name; in_use = true }))
    by_valid true = u
    by_valid false = by_lookup (lookup got name 0 es) refl

dir_remove-Unique :
    (got : ℕ → Bool) (opened written : Bool) (name : Name) (es : List DirEntry)
    → Unique es
    → Unique (dir_remove got opened written name es).1
unfolding dir_remove
dir_remove-Unique got opened written name es u = by_lookup (lookup got name 0 es) opened
  where
    by_write :
        (j : ℕ) (d : DirEntry) (b : Bool)
        → UniqueAt (if b then (true, set es j (off d)) else (false, es))
    by_write j d false = u
    by_write j d true = off-Unique j d es u

    by_lookup : (r : Option (ℕ × DirEntry)) (o : Bool) → UniqueAt (erase o written es r)
    by_lookup none o = u
    by_lookup (some (j, d)) false = u
    by_lookup (some (j, d)) true = by_write j d (ltb j (length es) && written)

-- A directory begins with no entry in use, and then names are added and removed; no read of
-- an addition falls short for want of memory.
abbrev pub Blank : List DirEntry → Type 0
Blank [] = Unit {0}
Blank (e ∷ es) = (e.in_use ≡ false) × Blank es

pub data DirReach : List DirEntry → Type 0 where
  blank : {es : List DirEntry} → Blank es → DirReach es
  adds :
      {es : List DirEntry} (got got' : ℕ → Bool) (written : Bool) (name : Name) (s : ℕ)
      → AllRead got
      → AllRead got'
      → DirReach es
      → DirReach (dir_add got got' written name s es).1
  removes :
      {es : List DirEntry} (got : ℕ → Bool) (opened written : Bool) (name : Name)
      → DirReach es
      → DirReach (dir_remove got opened written name es).1

Blank-Unique : (es : List DirEntry) → Blank es → Unique es
Blank-Unique [] b = tt
Blank-Unique (e ∷ es) (f, b) = ((λ t. absurd (ground (arith, f, t))), Blank-Unique es b)

-- After any sequence of additions and removals of names, whether they succeed or not, no two entries
-- in use of a directory have the same name, if no read of an addition falls short for want of memory
-- (those of removals may).
pub DirReach-Unique : {es : List DirEntry} → DirReach es → Unique es
DirReach-Unique (blank {es = es} b) = Blank-Unique es b
DirReach-Unique (adds {es = es} got got' written name s all all' r) =
    dir_add-Unique got got' written name s es all all' (DirReach-Unique r)
DirReach-Unique (removes {es = es} got opened written name r) =
    dir_remove-Unique got opened written name es (DirReach-Unique r)
