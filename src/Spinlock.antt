-- ===== src/Spinlock.antt =====
-- kernel/lib/spinlock.c and kernel/lib/mutex.c, which have the same code: a word that is exchanged with 1 to
-- lock and set to 0 to unlock. Each atomic operation is one step, and the steps of all threads happen in
-- one order. The lock pointer is never NULL here; the functions do nothing for NULL, and a try answers 0.
pub mod Exclusion
mod Tests
use gnu_os.Base.{ℕ, Bool, List, [], ◌∷◌, ◌==◌, if◌then◌else◌, get_or, set, ltb, length}

-- Outside, spinning in `spinlock_lock`, and between the lock and the unlock.
pub data Place : Type 0 where
  idle waits holds : Place

-- `spinlock_t` with where each thread stands.
pub record Spinlock : Type 0 where
  pub state : ℕ
  pub threads : List Place

-- `spinlock_init`
unfoldable pub spinlock_init : Spinlock → Spinlock
spinlock_init l = record l { state = 0 }

abbrev pub place_at : Spinlock → ℕ → Place
place_at l i = get_or l.threads i idle

abbrev pub move : Spinlock → ℕ → Place → Spinlock
move l i p = record l { threads = set l.threads i p }

-- `spinlock_try_lock` by thread `i`, which goes to `otherwise` where it answers 0.
unfoldable pub try_lock : Spinlock → ℕ → (otherwise : Place) → Spinlock
try_lock l i otherwise = record l {
  state = 1;
  threads = set l.threads i (if l.state == 0 then holds else otherwise);
}

unfoldable pub unlock : Spinlock → ℕ → Spinlock
unlock l i = move (record l { state = 0 }) i idle

-- A thread that is outside calls `spinlock_lock` or `spinlock_try_lock`.
pub data Wish : Type 0 where
  to_lock to_try : Wish

-- The next operation of thread `i`; a thread that has the lock unlocks it.
unfoldable pub advance_lock : Spinlock → ℕ → Wish → Place → Spinlock
advance_lock l i to_lock idle = move l i waits
advance_lock l i to_try idle = try_lock l i idle
advance_lock l i wish waits = try_lock l i waits
advance_lock l i wish holds = unlock l i

-- A number that is not that of a thread stands for a step of something else.
unfoldable pub step : Spinlock → ℕ → Wish → Spinlock
step l i wish = if ltb i (length l.threads) then advance_lock l i wish (place_at l i) else l

-- The order in which the threads take their steps.
unfoldable pub run : Spinlock → List (ℕ × Wish) → Spinlock
run l [] = l
run l ((i, wish) ∷ rest) = run (step l i wish) rest
