-- ===== src/KernelList/Sort.antt =====
-- `list_sort` of src/lib/kernel/list.c, with lists as sequences: passes that merge neighbouring runs,
-- until one run is left. The loops take fuel; without it the answer is `none`.
use qba.Prelude.{
  ℕ, zero, suc, ◌+◌, Bool, true, false, Option, none, some, List, [], ◌∷◌, ◌++◌, ltb, length,
  if◌then◌else◌,
}

module _ {ℓ} {A : Type ℓ} (less : A → A → Bool) where
  -- `find_end_of_run`, from an element on: the rest of its run, and what comes after.
  unfoldable pub find_end_of_run : A → List A → List A × List A
  find_end_of_run a [] = ([], [])
  find_end_of_run a (b ∷ rest) =
      let (run, after) = find_end_of_run b rest in
      if less b a then ([], b ∷ rest) else (b ∷ run, after)

  -- `inplace_merge`
  unfoldable pub inplace_merge : List A → List A → List A
  inplace_merge [] bs = bs
  inplace_merge (a ∷ as₁) [] = a ∷ as₁
  inplace_merge (a ∷ as₁) (b ∷ bs) = elim (less b a) [
    | true ↦ b ∷ inplace_merge (a ∷ as₁) bs
    | false ↦ a ∷ inplace_merge as₁ (b ∷ bs)
  ]

  abbrev emit : List A → Option (ℕ × List A) → Option (ℕ × List A)
  emit merged none = none
  emit merged (some (output_run_cnt, rest)) = some (output_run_cnt + 1, merged ++ rest)

  -- The inner loop: how many runs a pass puts out, and the list after it.
  unfoldable pub sort_pass : ℕ → List A → Option (ℕ × List A)
  sort_pass zero list = none
  sort_pass (suc fuel) [] = some (0, [])
  sort_pass (suc fuel) (a0 ∷ list) =
      let (run, after) = find_end_of_run a0 list in
      elim after [
        | [] ↦ some (1, a0 ∷ run)
        | a1b0 ∷ list' ↦
            let (run', b1) = find_end_of_run a1b0 list' in
            emit (inplace_merge (a0 ∷ run) (a1b0 ∷ run')) (sort_pass fuel b1)
      ]

  -- The outer loop.
  unfoldable pub sort_loop : ℕ → List A → Option (List A)
  sort_loop zero list = none
  sort_loop (suc fuel) list = elim (sort_pass (suc (length list)) list) [
    | none ↦ none
    | some (output_run_cnt, out) ↦
        let again = sort_loop fuel out in if ltb 1 output_run_cnt then again else some out
  ]

  unfoldable pub list_sort : List A → Option (List A)
  unfolding sort_loop sort_pass
  list_sort list = sort_loop (length list + 2) list
