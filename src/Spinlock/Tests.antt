-- ===== src/Spinlock/Tests.antt =====
-- kernel/lib/spinlock.c: thread 0 has the lock while thread 1 spins, and hands it over.
use gnu_os.Base.{ℕ, ◌≡◌, ◌↔◌, refl, List, [], ◌∷◌, ◌==◌, false, replicate}
use gnu_os.Spinlock.{
  Wish, to_lock, to_try, waits, holds, place_at, run, step, advance_lock, try_lock, unlock,
  spinlock_init,
}
use gnu_os.Spinlock.Exclusion.{is_holding, fresh, spinlock_exclusion, spinlock_handover}

abbrev spinning : List (ℕ × Wish)
spinning = (0, to_lock) ∷ (0, to_lock) ∷ (1, to_lock) ∷ (1, to_lock) ∷ []

abbrev handed_over : List (ℕ × Wish)
handed_over = (0, to_try) ∷ (1, to_lock) ∷ (1, to_lock) ∷ (0, to_try) ∷ (1, to_lock) ∷ []

spins : place_at (run (fresh 2) spinning) 1 ≡ waits
unfolding run step advance_lock try_lock spinlock_init replicate
spins = refl

has_lock : place_at (run (fresh 2) handed_over) 1 ≡ holds
unfolding run step advance_lock try_lock unlock spinlock_init replicate
has_lock = refl

spinlock_exclusion_example : is_holding (place_at (run (fresh 2) handed_over) 0) ≡ (1 == 0)
spinlock_exclusion_example = spinlock_exclusion 2 handed_over 1 0 has_lock

spinlock_handover_example :
    (place_at (step (run (fresh 2) spinning) 1 to_lock) 1 ≡ holds)
    ↔ ((j : ℕ) → is_holding (place_at (run (fresh 2) spinning) j) ≡ false)
spinlock_handover_example = spinlock_handover 2 spinning 1 to_lock spins
