-- ===== src/RwLock/Tests.antt =====
-- The exclusion of readers and writers after a writer has arrived.
use qba.Prelude.{true, false}
use qba.RwLock.{rw_lock_init, rw_lock_check, fresh, next, arrives, OneWriter, rw_lock_exclusion}

rw_lock_exclusion_example : OneWriter (rw_lock_check true (rw_lock_check false rw_lock_init).1).1
rw_lock_exclusion_example = rw_lock_exclusion (
    next (next fresh (arrives false rw_lock_init))
      (arrives true (rw_lock_check false rw_lock_init).1))
