-- ===== src/Pagedir/Tests.antt =====
-- A page set in an empty page directory.
use qba.Prelude.{◌+◌, ◌≡◌, refl, true, some, inr, arith}
use qba.Prelude.Outcome.{ok}
use qba.Palloc.{pg_ofs}
use qba.Pagedir.{KernelWords, pagedir_set_page, pagedir_get_page}
use qba.Pagedir.Entry.{frame}
use qba.Pagedir.Lookup.{pagedir_get_page-set_page}

pagedir_get_page-set_page_example :
    (mem' : KernelWords) × (pagedir_set_page 1024
        (frame 5)
        (λ a. 0)
        (frame 10)
        134512640
        (frame 12)
        true
        (some (frame 11))
      ≡ ok (true, mem'))
    × (pagedir_get_page mem' (frame 10) 134512740 ≡ ok (some (frame 12 + pg_ofs 134512740)))
pagedir_get_page-set_page_example =
    pagedir_get_page-set_page 1024 (frame 5) 10 11 12 134512640 134512740 (λ a. 0) true
      (some (frame 11)) (omega arith) (omega arith) (omega arith) (omega arith) (omega arith) refl
      (omega arith) refl (inr (refl, refl))
