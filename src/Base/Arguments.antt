-- ===== src/Base/Arguments.antt =====
-- What a caller may pass to the calls of kernel/ipc/ipc.c and kernel/ipc/shm.c, said without their code: a
-- number of a table's entry, and a thread number to act for. Models no code.
use Prim.Native.Nat.{ℕ, ◌%◌, ◌^◌, ◌≤◌, ◌<◌}
use mathlib.Core.Logic.{◌≢◌, ◌⊎◌}
use mathlib.Core.Path.{◌≡◌}
use mathlib.Core.Option.{Option, none, some}
use gnu_os.Base.Int.{ℤ, pos, negsuc}

-- The low 16 bits of a number that is not negative are `i`, which is below the limit.
abbrev pub Index : ℤ → (limit i : ℕ) → Type 0
Index id limit i = (n : ℕ) × (id ≡ pos n) × (i ≡ n % 2 ^ 16) × (i < limit)

-- A negative number, or one whose low 16 bits are not below the limit.
abbrev pub NoIndex : ℤ → (limit : ℕ) → Type 0
NoIndex id limit = ((n : ℕ) × (id ≡ negsuc n)) ⊎ ((n : ℕ) × (id ≡ pos n) × (limit ≤ n % 2 ^ 16))

-- The number of the running thread, or 0 where there is none.
abbrev pub own_tid : Option ℕ → ℕ
own_tid none = 0
own_tid (some tid) = tid

-- A caller acts for itself where it asks for 0. A thread with a number may ask for no other one, and one
-- without may ask for any.
abbrev pub ActsFor : Option ℕ → (requested tid : ℕ) → Type 0
ActsFor current requested tid =
    ((requested ≡ 0) × (tid ≡ own_tid current))
    ⊎ ((requested ≢ 0)
        × (tid ≡ requested)
        × ((own_tid current ≡ 0) ⊎ (own_tid current ≡ requested)))

-- A thread with a number asks for another one.
abbrev pub Foreign : Option ℕ → (requested : ℕ) → Type 0
Foreign current requested = (requested ≢ 0) × (own_tid current ≢ 0) × (own_tid current ≢ requested)
