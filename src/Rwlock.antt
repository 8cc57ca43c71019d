-- ===== src/Rwlock.antt =====
-- kernel/lib/rwlock.c and kernel/include/gnuos/rwlock.h: the reader-writer lock. Each atomic operation
-- is one step, and the steps of all threads happen in one order, as those of x86 do for these
-- operations. The lock pointer is never NULL here; the functions do nothing for NULL.
pub mod Exclusion
pub mod Safety
mod Tests
use gnu_os.Base.{
  ℕ, ◌+◌, ◌-◌, ◌%◌, ◌^◌, Bool, List, [], ◌∷◌, ◌==◌, if◌then◌else◌, get_or, set, ltb, length,
}

-- `readers` and `writer` of `rwlock_t` with where each thread stands.
pub data Place : Type 0 where
  -- Outside, and in the critical sections.
  idle reading writing : Place
  -- In `rwlock_read_lock`: before the load of its first loop, the addition, the second load, and the
  -- subtraction.
  read_waits read_adds read_checks read_backs : Place
  -- In `rwlock_write_lock`: before the exchange, and before the load of its second loop.
  write_waits write_drains : Place

pub record Lock : Type 0 where
  pub readers : ℕ
  pub writer : ℕ
  pub threads : List Place

-- `rwlock_init`
unfoldable pub init : Lock → Lock
init l = record l { readers = 0; writer = 0 }

abbrev pub place_at : Lock → ℕ → Place
place_at l i = get_or l.threads i idle

abbrev pub move : Lock → ℕ → Place → Lock
move l i p = record l { threads = set l.threads i p }

-- `__atomic_add_fetch` and `__atomic_sub_fetch` on the 32-bit count of readers
abbrev pub add_reader : Lock → Lock
add_reader l = record l { readers = (l.readers + 1) % 2 ^ 32 }

abbrev pub sub_reader : Lock → Lock
sub_reader l = record l { readers = (l.readers + (2 ^ 32 - 1)) % 2 ^ 32 }

-- A thread that is outside calls `rwlock_read_lock` or `rwlock_write_lock`.
pub data Wish : Type 0 where
  to_read to_write : Wish

-- The next atomic operation of thread `i`; a thread in a critical section calls the unlock.
unfoldable pub advance : Lock → ℕ → Wish → Place → Lock
advance l i to_read idle = move l i read_waits
advance l i to_write idle = move l i write_waits
advance l i wish read_waits = if l.writer == 0 then move l i read_adds else l
advance l i wish read_adds = move (add_reader l) i read_checks
advance l i wish read_checks = if l.writer == 0 then move l i reading else move l i read_backs
advance l i wish read_backs = move (sub_reader l) i read_waits
advance l i wish reading = move (sub_reader l) i idle
advance l i wish write_waits =
    if l.writer == 0 then move (record l { writer = 1 }) i write_drains else record l { writer = 1 }
advance l i wish write_drains = if l.readers == 0 then move l i writing else l
advance l i wish writing = move (record l { writer = 0 }) i idle

-- A number that is not that of a thread stands for a step of something else.
unfoldable pub step : Lock → ℕ → Wish → Lock
step l i wish = if ltb i (length l.threads) then advance l i wish (place_at l i) else l

-- The order in which the threads take their steps.
unfoldable pub run : Lock → List (ℕ × Wish) → Lock
run l [] = l
run l ((i, wish) ∷ rest) = run (step l i wish) rest
