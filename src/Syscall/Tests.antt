-- ===== src/Syscall/Tests.antt =====
-- The checks at a read into the kernel.
use qba.Prelude.{◌≡◌, refl, inl, [], ◌∷◌, get_or, arith}
use qba.Syscall.{read, runs, User, check_boundary, syscall_handler}
use qba.Syscall.Checks.{Allowed, syscall_handler_lem, syscall_handler_wraps}

-- read (3, 0xc0000000, 0x40000000)
abbrev reader : User
reader = record {
  arg = λ n. get_or (8 ∷ 3 ∷ 3221225472 ∷ 1073741824 ∷ []) n 0;
  esp = 3221225400;
  string_length = λ a. 0;
  files_next_desc = 4;
}

syscall_handler_lem_example : Allowed reader (syscall_handler reader)
syscall_handler_lem_example = syscall_handler_lem reader

syscall_handler_wraps_example : syscall_handler reader ≡ runs (read 3 3221225472 1073741824)
syscall_handler_wraps_example =
    syscall_handler_wraps reader (inl refl) (unfold check_boundary in refl) (omega arith)
      (omega arith) (omega arith) (omega arith)
