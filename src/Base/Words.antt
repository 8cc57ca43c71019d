-- ===== src/Base/Words.antt =====
-- Machine words are natural numbers, with the wrap-around of their width written out.
use Prim.Native.Nat.{ℕ, ◌+◌, ◌-◌, ◌%◌, ◌^◌}

abbrev pub u8 : ℕ → ℕ
u8 n = n % 2 ^ 8

abbrev pub u16 : ℕ → ℕ
u16 n = n % 2 ^ 16

abbrev pub u32 : ℕ → ℕ
u32 n = n % 2 ^ 32

abbrev pub u64 : ℕ → ℕ
u64 n = n % 2 ^ 64

-- `x++` and `x--` on a `uint16_t`, `x++` on a `uint64_t`
abbrev pub inc16 : ℕ → ℕ
inc16 n = u16 (n + 1)

abbrev pub dec16 : ℕ → ℕ
dec16 n = u16 (n + 2 ^ 16 - 1)

abbrev pub inc64 : ℕ → ℕ
inc64 n = u64 (n + 1)
