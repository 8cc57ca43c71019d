-- ===== src/Names.antt =====
-- The name helpers that kernel/ipc/ipc.c and kernel/ipc/shm.c both write out (`ipc_strnlen`,
-- `ipc_name_equal`, `ipc_name_copy` and their `shm_` twins; both limits are 32). A C string is the
-- list of its bytes: a read past the list is its terminator. The copy is an array of 32 bytes.
pub mod Equal
pub mod Same
use gnu_os.Base.{
  ℕ, zero, suc, ◌+◌, Bool, true, false, not, List, ◌==◌, if◌then◌else◌, get_or, set, replicate,
}

-- `IPC_CHANNEL_NAME_MAX`, `SHM_SEGMENT_NAME_MAX`
abbrev pub name_max : ℕ
name_max = 32

-- The loops count their rounds left in the first argument, and their index in the second.
unfoldable pub strnlen_from : ℕ → ℕ → List ℕ → ℕ
strnlen_from zero i text = i
strnlen_from (suc n) i text = if get_or text i 0 == 0 then i else strnlen_from n (i + 1) text

unfoldable pub strnlen : List ℕ → ℕ → ℕ
unfolding strnlen_from
strnlen text limit = strnlen_from limit 0 text

unfoldable pub name_equal_from : ℕ → ℕ → List ℕ → List ℕ → Bool
name_equal_from zero i left right = false
name_equal_from (suc n) i left right =
    if not (get_or left i 0 == get_or right i 0)
    then false
    else if get_or left i 0 == 0
    then true
    else name_equal_from n (i + 1) left right

unfoldable pub name_equal : List ℕ → List ℕ → Bool
unfolding name_equal_from
name_equal left right = name_equal_from name_max 0 left right

unfoldable pub name_copy_from : ℕ → ℕ → List ℕ → List ℕ → List ℕ
name_copy_from zero i src dst = dst
name_copy_from (suc n) i src dst =
    if get_or src i 0 == 0 then dst else name_copy_from n (i + 1) src (set dst i (get_or src i 0))

unfoldable pub name_copy : List ℕ → List ℕ
unfolding name_copy_from
name_copy src = name_copy_from 31 0 src (replicate name_max 0)
