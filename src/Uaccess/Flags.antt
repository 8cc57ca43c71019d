-- ===== src/Uaccess/Flags.antt =====
-- kernel/mm/uaccess.c: which pages the test of one page lets through, by the bits of its flags.
use gnu_os.Base.{
  ℕ, zero, suc, ◌*◌, ◌/◌, ◌%◌, ◌≤◌, ◌≡◌, refl, ◌⊎◌, inl, inr, Bool, true, false, not, Option, some,
  Option-cases, ◌&&◌, ◌==◌, arith, bit_and,
}
use gnu_os.Base.Bits.{zero-bit_and, lowest_and_rest}
use gnu_os.Uaccess.{map_user, map_writable, page_allowed}

bit_and_zero : (fuel n : ℕ) → n ≤ fuel → bit_and n 0 ≡ 0
bit_and_zero fuel zero l = zero-bit_and 0
bit_and_zero zero (suc n) l = absurd (omega (arith, l))
bit_and_zero (suc fuel) (suc n) l =
    omega (arith, lowest_and_rest (suc n) 0, bit_and_zero fuel (suc n / 2) (omega (arith, l)))

-- The two flags as bits of the word: bit 1 and bit 2.
bit_1 : (n : ℕ) → bit_and n 2 ≡ n / 2 % 2 * 2
bit_1 n = omega (
  arith,
  lowest_and_rest n 2,
  lowest_and_rest (n / 2) 1,
  bit_and_zero (n / 2 / 2) (n / 2 / 2) (omega arith),
)

bit_2 : (n : ℕ) → bit_and n 4 ≡ n / 4 % 2 * 4
bit_2 n = omega (arith, lowest_and_rest n 4, bit_1 (n / 2))

-- The page is mapped with the flag of the user (bit 2), and with that of writing (bit 1) if it is asked for.
abbrev pub Mapped : (ℕ → Option ℕ) → (require_write : Bool) → (page_addr : ℕ) → Type 0
Mapped query_mapping require_write page_addr =
    (flags : ℕ) × (query_mapping page_addr ≡ some flags)
    × (flags / 4 % 2 ≡ 1)
    × ((require_write ≡ false) ⊎ (flags / 2 % 2 ≡ 1))

flags_allow :
    (flags : ℕ) (require_write : Bool)
    → (not (bit_and flags map_user == 0)
        && not (require_write && (bit_and flags map_writable == 0)))
      ≡ true
    → (flags / 4 % 2 ≡ 1) × ((require_write ≡ false) ⊎ (flags / 2 % 2 ≡ 1))
flags_allow flags false h = (ground (arith, h, bit_2 flags), inl refl)
flags_allow flags true h = (ground (arith, h, bit_2 flags), inr (ground (arith, h, bit_1 flags)))

allow_flags :
    (flags : ℕ) (require_write : Bool)
    → flags / 4 % 2 ≡ 1
    → (require_write ≡ false) ⊎ (flags / 2 % 2 ≡ 1)
    → (not (bit_and flags map_user == 0)
        && not (require_write && (bit_and flags map_writable == 0)))
      ≡ true
allow_flags flags require_write user write = ground (arith, user, write, bit_2 flags, bit_1 flags)

pub allowed-Mapped :
    (query_mapping : ℕ → Option ℕ) (require_write : Bool) (page_addr : ℕ)
    → page_allowed query_mapping require_write page_addr ≡ true
    → Mapped query_mapping require_write page_addr
unfolding page_allowed
allowed-Mapped query_mapping require_write page_addr h =
    elim (Option-cases (query_mapping page_addr)) [
      | inl missing ↦ absurd (ground (arith, h, missing))
      | inr (flags, e) ↦
          let (user, write) = flags_allow flags require_write (ground (arith, h, e)) in
          (flags, e, user, write)
    ]

pub Mapped-allowed :
    (query_mapping : ℕ → Option ℕ) (require_write : Bool) (page_addr : ℕ)
    → Mapped query_mapping require_write page_addr
    → page_allowed query_mapping require_write page_addr ≡ true
unfolding page_allowed
Mapped-allowed query_mapping require_write page_addr (flags, e, user, write) =
    rw (page_allowed, e) (allow_flags flags require_write user write)
