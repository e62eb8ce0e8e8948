-- ===== src/Directory/Tests.antt =====
-- The theorems on directories at one of four entries.
use qba.Prelude.{refl, true, false, List, [], ◌∷◌}
use qba.Directory.{Name, DirEntry, dir_add, dir_remove}
use qba.Directory.Entries.{Unique, always}
use qba.Directory.Names.{Adds, dir_add_lem, Removes, dir_remove_lem}
use qba.Directory.Distinct.{blank, adds, removes, DirReach-Unique}

abbrev nothing : DirEntry
nothing = record { inode_sector = 0; name = []; in_use = false }

abbrev fresh : List DirEntry
fresh = nothing ∷ nothing ∷ nothing ∷ nothing ∷ []

abbrev ab : Name
ab = 97 ∷ 98 ∷ []

dir_add_lem_example : Adds ab 7 fresh (dir_add always always true ab 7 fresh)
dir_add_lem_example = dir_add_lem always always true ab 7 fresh (λ i. refl) (λ i. refl)

abbrev one_file : List DirEntry
one_file = record { inode_sector = 7; name = ab; in_use = true } ∷ nothing ∷ []

dir_remove_lem_example : Removes ab one_file (dir_remove always true true ab one_file)
dir_remove_lem_example = dir_remove_lem always true true ab one_file ((λ e. refl), ((λ e. cc), tt))

DirReach-Unique_example :
    Unique (dir_remove always true true ab (dir_add always always true ab 7 fresh).1).1
DirReach-Unique_example = DirReach-Unique (
    removes always true true ab (
      adds always always true ab 7 (λ i. refl) (λ i. refl)
        (blank (refl, (refl, (refl, (refl, tt)))))))
