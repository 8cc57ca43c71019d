-- ===== src/Names/Same.antt =====
-- What the name helpers decide, said of the bytes of the two strings.
use native.Mathlib.Decide.{ℕ_discrete}
use gnu_os.Base.{
  ℕ, zero, suc, ◌+◌, ◌≤◌, ◌<◌, ◌≡◌, ◌≢◌, ap, ◌∙◌, subst, ◌⊎◌, inl, inr, true, false, not, ◌&&◌,
  Bool-cases, List, arith, ◌==◌, get_or,
}
use gnu_os.Names.{name_max, strnlen_from, strnlen, name_equal_from, name_equal}

abbrev pub byte : List ℕ → ℕ → ℕ
byte name k = get_or name k 0

-- A string of `k` bytes, which is less than 32.
abbrev pub Ends : List ℕ → ℕ → Type 0
Ends name k = (k < 32) × (byte name k ≡ 0) × ((j : ℕ) → j < k → byte name j ≢ 0)

-- A string of 32 bytes or more.
abbrev pub TooLong : List ℕ → Type 0
TooLong name = (j : ℕ) → j < 32 → byte name j ≢ 0

-- Two strings that agree up to a terminator among their first 32 bytes.
abbrev pub SameName : List ℕ → List ℕ → Type 0
SameName left right =
    (k : ℕ) × (k < 32) × (byte left k ≡ 0) × ((j : ℕ) → j ≤ k → byte left j ≡ byte right j)

from_next :
    (P : ℕ → Type 0) (i top : ℕ)
    → P i
    → ((j : ℕ) → i + 1 ≤ j → j < top → P j)
    → (j : ℕ) → i ≤ j
    → j < top
    → P j
from_next P i top here rest j low high = elim (ℕ_discrete i j) [
  | yes e ↦ subst P e here
  | no ne ↦ rest j (omega (arith, low, ne)) high
]

strnlen_from_cases :
    (n i : ℕ) (name : List ℕ)
    → ((strnlen_from n i name < i + n)
        × (byte name (strnlen_from n i name) ≡ 0)
        × ((j : ℕ) → i ≤ j → j < strnlen_from n i name → byte name j ≢ 0))
      ⊎ ((strnlen_from n i name ≡ i + n) × ((j : ℕ) → i ≤ j → j < i + n → byte name j ≢ 0))
unfolding strnlen_from
strnlen_from_cases zero i name = inr (omega arith, λ j low high. absurd (omega (arith, low, high)))
strnlen_from_cases (suc n) i name = elim (Bool-cases (get_or name i 0 == 0)) [
  | inl end ↦
      rw (strnlen_from, end)
        (inl (omega arith, ground (arith, end), λ j low high. absurd (omega (arith, low, high))))
  | inr more ↦
      let here : byte name i ≢ 0 = λ e. absurd (ground (arith, more, e)) in
      rw (strnlen_from, more)
        (elim (strnlen_from_cases n (i + 1) name) [
          | inl (l, e, before) ↦ inl (
            omega (arith, l),
            e,
            from_next (λ j. byte name j ≢ 0) i (strnlen_from n (i + 1) name) here before,
          )
          | inr (e, before) ↦ inr (
            omega (arith, e),
            λ j low high.
                from_next (λ j. byte name j ≢ 0) i (i + 1 + n) here before j low
                  (omega (arith, high)),
          )
        ])
]

-- The length that is measured, or that the string is too long.
pub strnlen_cases :
    (name : List ℕ)
    → ((strnlen name name_max < name_max) × Ends name (strnlen name name_max))
      ⊎ ((strnlen name name_max ≡ name_max) × TooLong name)
unfolding strnlen
strnlen_cases name = elim (strnlen_from_cases 32 0 name) [
  | inl (l, e, before) ↦
      inl (omega (arith, l), (omega (arith, l), e, λ j m. before j (omega arith) m))
  | inr (e, before) ↦ inr (omega (arith, e), λ j l. before j (omega arith) (omega (arith, l)))
]

equal_from_true :
    (n i : ℕ) (left right : List ℕ)
    → name_equal_from n i left right ≡ true
    → (k : ℕ) × (k < i + n)
      × (byte left k ≡ 0)
      × ((j : ℕ) → i ≤ j → j < suc k → byte left j ≡ byte right j)
unfolding name_equal_from
equal_from_true zero i left right h = absurd (ground (arith, h))
equal_from_true (suc n) i left right h =
    let same : byte left i ≡ byte right i = ground (arith, h) in
    elim (Bool-cases (get_or left i 0 == 0)) [
      | inl end ↦ (
        i,
        omega arith,
        ground (arith, end),
        from_next (λ j. byte left j ≡ byte right j) i (suc i) same
            (λ j low high. absurd (omega (arith, low, high))),
      )
      | inr more ↦
          let (k, l, e, agree) = equal_from_true n (i + 1) left right (ground (arith, h, more)) in
          (k, omega (arith, l), e, from_next (λ j. byte left j ≡ byte right j) i (suc k) same agree)
    ]

equal_from_false :
    (n i k : ℕ) (left right : List ℕ)
    → name_equal_from n i left right ≡ false
    → i ≤ k
    → k < i + n
    → byte left k ≡ 0
    → ¬ ((j : ℕ) → i ≤ j → j ≤ k → byte left j ≡ byte right j)
unfolding name_equal_from
equal_from_false zero i k left right h low high end agree = absurd (omega (arith, low, high))
equal_from_false (suc n) i k left right h low high end agree =
    let same : byte left i ≡ byte right i = agree i (omega arith) low in
    elim (ℕ_discrete i k) [
      | yes e ↦
          let here : byte left i ≡ 0 = ap (byte left) e ∙ end in
          absurd (ground (arith, h, same, here))
      | no ne ↦
          equal_from_false n (i + 1) k left right (ground (arith, h, same)) (omega (arith, low, ne))
            (omega (arith, high)) end (λ j l m. agree j (omega (arith, l)) m)
    ]

pub equal-SameName : (left right : List ℕ) → name_equal left right ≡ true → SameName left right
unfolding name_equal
equal-SameName left right h =
    let (k, l, e, agree) = equal_from_true 32 0 left right h in
    (k, omega (arith, l), e, λ j m. agree j (omega arith) (omega (arith, m)))

pub differ-SameName : (left right : List ℕ) → name_equal left right ≡ false → ¬ SameName left right
unfolding name_equal
differ-SameName left right h (k, l, e, agree) =
    equal_from_false 32 0 k left right h (omega arith) (omega (arith, l)) e
      (λ j low high. agree j high)

-- An entry in use that has a name.
abbrev pub HasName : (in_use : ℕ) (stored name : List ℕ) → Type 0
HasName in_use stored name = (in_use ≢ 0) × SameName stored name

pub test-HasName :
    (in_use : ℕ) (stored name : List ℕ)
    → (not (in_use == 0) && name_equal stored name) ≡ true
    → HasName in_use stored name
test-HasName in_use stored name h =
    (ground (arith, h), equal-SameName stored name (ground (arith, h)))

pub no_test-HasName :
    (in_use : ℕ) (stored name : List ℕ)
    → (not (in_use == 0) && name_equal stored name) ≡ false
    → ¬ HasName in_use stored name
no_test-HasName in_use stored name h (used, same) = elim (Bool-cases (name_equal stored name)) [
  | inl e ↦ absurd (ground (arith, h, used, e))
  | inr e ↦ differ-SameName stored name e same
]
