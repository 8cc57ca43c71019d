-- ===== src/Rwlock/Tests.antt =====
-- kernel/lib/rwlock.c: thread 0 reads and leaves while thread 1 waits to write.
use gnu_os.Base.{ℕ, ◌≡◌, refl, List, [], ◌∷◌, false, ◌==◌, arith, replicate}
use gnu_os.Rwlock.{Wish, to_read, to_write, writing, place_at, run, step, advance, init}
use gnu_os.Rwlock.Exclusion.{is_reading, is_writing}
use gnu_os.Rwlock.Safety.{fresh, rwlock_exclusion}

abbrev schedule : List (ℕ × Wish)
schedule =
    (0, to_read)
    ∷ (0, to_read)
    ∷ (0, to_read)
    ∷ (0, to_read)
    ∷ (1, to_write)
    ∷ (1, to_write)
    ∷ (1, to_write)
    ∷ (0, to_read)
    ∷ (1, to_write)
    ∷ (0, to_read)
    ∷ []

writes : place_at (run (fresh 2) schedule) 1 ≡ writing
unfolding run step advance init replicate
writes = refl

rwlock_exclusion_example :
    (is_reading (place_at (run (fresh 2) schedule) 0) ≡ false)
    × (is_writing (place_at (run (fresh 2) schedule) 0) ≡ (1 == 0))
rwlock_exclusion_example = rwlock_exclusion 2 schedule 1 0 (omega arith) writes
