-- ===== src/Base/Bits.antt =====
-- Bitwise and: its digit recursion, associativity and idempotence, and inclusion of bit sets.
use mathlib.Core.Logic.{◌≢◌}
use Prim.Native.Nat.{ℕ, zero, suc, ◌+◌, ◌*◌, ◌/◌, ◌%◌, ◌≤◌, min, bit_and, digits, bit_and-bitwise}
use mathlib.Core.Path.{◌≡◌, refl, sym, ap, ◌∙◌}
use native.Mathlib.Decide.{ℕ_discrete}
use native.Mathlib.Omega.{arith}

-- What `bit_and` stands for, on fuel.
abbrev conj : ℕ → ℕ → ℕ → ℕ
conj fuel a b = digits (λ b. zero) min fuel a b

conj_zero : (fuel b : ℕ) → conj fuel 0 b ≡ 0
conj_zero zero b = refl
conj_zero (suc fuel) b = refl

conj_halves :
    (fuel a b : ℕ)
    → a ≢ 0
    → conj (suc fuel) a b ≡ conj fuel (a / 2) (b / 2) * 2 + min (a % 2) (b % 2)
conj_halves fuel zero b nonzero = absurd (nonzero refl)
conj_halves fuel (suc a) b nonzero = omega arith

-- Fuel past the first number changes nothing.
conj_enough : (more less a b : ℕ) → a ≤ less → less ≤ more → conj more a b ≡ conj less a b
conj_enough more zero a b covered ordered =
    let none_left : a ≡ 0 = omega arith in rw (none_left, conj_zero more b)
conj_enough zero (suc less) a b covered ordered = absurd (omega arith)
conj_enough (suc more) (suc less) a b covered ordered = elim (ℕ_discrete a 0) [
  | yes e ↦ rw e refl
  | no ne ↦
      conj_halves more a b ne
      ∙ ap (λ x. x * 2 + min (a % 2) (b % 2))
          (conj_enough more less (a / 2) (b / 2) (omega arith) (omega arith))
      ∙ sym (conj_halves less a b ne)
]

pub zero-bit_and : (mask : ℕ) → bit_and 0 mask ≡ 0
zero-bit_and = bit_and-bitwise 0

-- The lowest digit of a conjunction, and the rest.
pub lowest_and_rest : (a b : ℕ) → bit_and a b ≡ min (a % 2) (b % 2) + 2 * bit_and (a / 2) (b / 2)
lowest_and_rest a b = elim (ℕ_discrete a 0) [
  | yes e ↦ rw e (omega (arith, zero-bit_and b, zero-bit_and (b / 2)))
  | no ne ↦
      let as_digits : bit_and a b ≡ conj a a b = bit_and-bitwise a b in
      let half : bit_and (a / 2) (b / 2) ≡ conj (a / 2) (a / 2) (b / 2) =
        bit_and-bitwise (a / 2) (b / 2) in
      omega (
        arith,
        as_digits,
        half,
        conj_halves a a b ne,
        conj_enough (suc a) a a b (omega arith) (omega arith),
        conj_enough a (a / 2) (a / 2) (b / 2) (omega arith) (omega arith),
      )
]

bit_and-half : (a b : ℕ) → bit_and a b / 2 ≡ bit_and (a / 2) (b / 2)
bit_and-half a b = omega (arith, lowest_and_rest a b)

bit_and-parity : (a b : ℕ) → bit_and a b % 2 ≡ min (a % 2) (b % 2)
bit_and-parity a b = omega (arith, lowest_and_rest a b)

bit_and_assoc_fuel : (n a b c : ℕ) → a ≤ n → bit_and (bit_and a b) c ≡ bit_and a (bit_and b c)
bit_and_assoc_fuel n zero b c h =
    ap (λ x. bit_and x c) (zero-bit_and b) ∙ zero-bit_and c ∙ sym (zero-bit_and (bit_and b c))
bit_and_assoc_fuel zero (suc a) b c h = absurd (omega arith)
bit_and_assoc_fuel (suc n) (suc a) b c h =
    lowest_and_rest (bit_and (suc a) b) c
    ∙ rw (bit_and-half (suc a) b, bit_and-parity (suc a) b)
        (omega (
          arith,
          lowest_and_rest (suc a) (bit_and b c),
          ap (λ x. bit_and (suc a / 2) x) (bit_and-half b c),
          bit_and-parity b c,
          bit_and_assoc_fuel n (suc a / 2) (b / 2) (c / 2) (omega arith),
        ))

pub bit_and_assoc : (a b c : ℕ) → bit_and (bit_and a b) c ≡ bit_and a (bit_and b c)
bit_and_assoc a b c = bit_and_assoc_fuel a a b c (omega arith)

bit_and_self_fuel : (n a : ℕ) → a ≤ n → bit_and a a ≡ a
bit_and_self_fuel n zero h = refl
bit_and_self_fuel zero (suc a) h = absurd (omega arith)
bit_and_self_fuel (suc n) (suc a) h =
    omega (arith, lowest_and_rest (suc a) (suc a), bit_and_self_fuel n (suc a / 2) (omega arith))

pub bit_and_self : (a : ℕ) → bit_and a a ≡ a
bit_and_self a = bit_and_self_fuel a a (omega arith)

-- Every bit of the second word is set in the first.
abbrev pub Includes : ℕ → ℕ → Type 0
Includes a b = bit_and a b ≡ b

pub Includes-trans : (a b c : ℕ) → Includes a b → Includes b c → Includes a c
Includes-trans a b c p q =
    ap (bit_and a) (sym q) ∙ sym (bit_and_assoc a b c) ∙ ap (λ x. bit_and x c) p ∙ q
