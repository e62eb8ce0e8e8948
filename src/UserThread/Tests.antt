-- ===== src/UserThread/Tests.antt =====
-- A process with three threads that starts a fourth one.
use qba.Prelude.{
  ℕ, ◌+◌, ◌≤◌, ◌<◌, ◌≡◌, refl, true, false, ◌⊎◌, some, ◌==◌, if◌then◌else◌, [], ◌∷◌, arith,
}
use qba.Prelude.Bits.{bit}
use qba.Prelude.Outcome.{ok}
use qba.Bitmap.{Bitmap, bitmap_error}
use qba.Bitmap.Single.{IsValid, has}
use qba.Elf.{phys_base}
use qba.UserThread.{stack_size, stack_top, tid_error, waits_for, pthread_execute}
use qba.UserThread.Stacks.{Apart, pthread_execute_lem}

abbrev three : Bitmap
three = record { bit_cnt = 128; bits = 7 ∷ 0 ∷ 0 ∷ 0 ∷ [] }

three-IsValid : IsValid three
three-IsValid = record { room = omega arith; small = omega arith }

main_thread : has three 0 ≡ true
unfolding has bit
main_thread = refl

pthread_execute_lem_example :
    ((n : ℕ) × (stacks' : Bitmap) × (pthread_execute true (some 9) three
        ≡ ok (waits_for (some 9), n, stacks'))
      × (has three n ≡ false)
      × ((m : ℕ) → has stacks' m ≡ (if m == n then true else has three m))
      × ((m : ℕ) → m < 128 → has three m ≡ true → Apart n m)
      × (2147483648 < stack_top n)
      × (stack_top n + stack_size ≤ phys_base))
    ⊎ ((pthread_execute true (some 9) three ≡ ok (tid_error, bitmap_error, three))
        × ((m : ℕ) → m < 128 → has three m ≡ true))
pthread_execute_lem_example =
    pthread_execute_lem 9 three three-IsValid (omega arith) (omega arith) main_thread
