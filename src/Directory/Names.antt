-- ===== src/Directory/Names.antt =====
-- A directory as a finite map from names to sectors.
use qba.Prelude.{
  ℕ, ◌-◌, ◌≤◌, ◌<◌, ◌≡◌, ◌≢◌, refl, sym, ap, ◌∙◌, Bool, true, false, ◌&&◌, ◌||◌, none, some, List,
  [], ◌∷◌, length, set, ltb, if◌then◌else◌, arith, Bool-cases, inl, inr, ◌⊎◌, Option-cases,
}
use qba.Directory.{
  Name, name_max, is_empty, is_found, DirEntry, same_name, lookup, sector_of, dir_lookup, free_slot,
  write_entry, dir_add, dir_remove,
}
use qba.Directory.Entries.{
  sector, AllRead, always, lookup-always, dir_lookup-sector, sector-add, Unique, off, Cleared,
  lookup_lem,
}

not_empty : (name : Name) → (is_empty name || ltb name_max (length name)) ≡ false → 0 < length name
not_empty [] t = cc
not_empty (c ∷ cs) t = omega arith

-- What `dir_add` does to the map: it fails and changes nothing, or the name was not there, is not empty
-- nor too long, and now stands for the sector.
abbrev pub Adds : Name → ℕ → List DirEntry → Bool × List DirEntry → Type 0
Adds name s es (false, es') = es' ≡ es
Adds name s es (true, es') =
    (dir_lookup always name es ≡ none)
    × (0 < length name)
    × (length name ≤ name_max)
    × ((other : Name)
        → dir_lookup always other es'
          ≡ (if same_name other name then some s else dir_lookup always other es))

-- Where no read falls short for want of memory, an entry is added only for a name that has none, is not empty and has at most 14 characters; then a
-- lookup of the name finds the sector, and a lookup of any other name what it found before. Where the
-- answer is false, the directory has not changed.
pub dir_add_lem :
    (got got' : ℕ → Bool) (written : Bool) (name : Name) (s : ℕ) (es : List DirEntry)
    → AllRead got
    → AllRead got'
    → Adds name s es (dir_add got got' written name s es)
unfolding dir_add dir_lookup
dir_add_lem got got' written name s es all all' =
    elim (Bool-cases (is_empty name || ltb name_max (length name))) [
      | inl t ↦ rw t refl
      | inr t ↦ rw t (by_lookup t (Option-cases (lookup got name 0 es)))
    ]
  where
    e : DirEntry
    e = record { inode_sector = s; name = name; in_use = true }

    by_write :
        (is_empty name || ltb name_max (length name)) ≡ false
        → sector name es ≡ none
        → (b : Bool) → (ltb (free_slot got' 0 es) (length es) && written) ≡ b
        → Adds name s es (if b then (true, set es (free_slot got' 0 es) e) else (false, es))
    by_write t n false w = refl
    by_write t n true w = (
      dir_lookup-sector always name 0 es (λ i. refl) ∙ n,
      not_empty name t,
      ground (arith, t),
      λ other.
          dir_lookup-sector always other 0 (set es (free_slot got' 0 es) e) (λ i. refl)
          ∙ sector-add got' 0 name other s es all' n (ground (arith, w))
          ∙ ap (λ q. if same_name other name then some s else q)
              (sym (dir_lookup-sector always other 0 es (λ i. refl))),
    )

    by_lookup :
        (is_empty name || ltb name_max (length name)) ≡ false
        → (lookup got name 0 es ≡ none) ⊎ ((r : ℕ × DirEntry) × (lookup got name 0 es ≡ some r))
        → Adds name s es (
            if is_found (lookup got name 0 es)
            then (false, es)
            else write_entry written es (free_slot got' 0 es) e)
    by_lookup t (inr (r, f)) = rw f refl
    by_lookup t (inl f) = rw f (
        by_write t (sym (dir_lookup-sector got name 0 es all) ∙ ap sector_of f)
          (ltb (free_slot got' 0 es) (length es) && written) refl)

-- What `dir_remove` does to the map.
abbrev pub Removes : Name → List DirEntry → Bool × List DirEntry → Type 0
Removes name es (false, es') = es' ≡ es
Removes name es (true, es') =
    (dir_lookup always name es ≢ none)
    × ((other : Name)
        → dir_lookup always other es'
          ≡ (if same_name other name then none else dir_lookup always other es))

-- Whether all reads succeed or not, in a directory without two entries of one name a removal succeeds only for a name that is there,
-- and then the name is not found any more and any other name as before. Where the answer is false,
-- the directory has not changed.
pub dir_remove_lem :
    (got : ℕ → Bool) (opened written : Bool) (name : Name) (es : List DirEntry)
    → Unique es
    → Removes name es (dir_remove got opened written name es)
unfolding dir_remove dir_lookup
dir_remove_lem got opened written name es q = elim (Option-cases (lookup got name 0 es)) [
  | inl f ↦ rw f refl
  | inr ((j, d), f) ↦ rw f (by_open opened j d f (lookup_lem got name 0 j es d q f))
]
  where
    by_write :
        (j : ℕ) (d : DirEntry)
        → lookup got name 0 es ≡ some (j, d)
        → Cleared name 0 j es d
        → (b : Bool) → Removes name es (if b then (true, set es j (off d)) else (false, es))
    by_write j d f c false = refl
    by_write j d f (a, b, c) true = (
      (λ n. ground (arith, lookup-always got name 0 es f, n)),
      λ other.
          dir_lookup-sector always other 0 (set es j (off d)) (λ i. refl)
          ∙ ap (λ k. sector other (set es k (off d))) {x = j} {y = j - 0} (omega arith)
          ∙ c other
          ∙ ap (λ q. if same_name other name then none else q)
              (sym (dir_lookup-sector always other 0 es (λ i. refl))),
    )

    by_open :
        (o : Bool) (j : ℕ) (d : DirEntry)
        → lookup got name 0 es ≡ some (j, d)
        → Cleared name 0 j es d
        → Removes name es (if o then write_entry written es j (off d) else (false, es))
    by_open false j d f c = refl
    by_open true j d f c = by_write j d f c (ltb j (length es) && written)
