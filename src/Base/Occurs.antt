-- ===== src/Base/Occurs.antt =====
-- How often a number occurs in a list, and the pigeonhole bound on a list without repetition.
use mathlib.Core.Logic.{inl, inr}
use native.Mathlib.Omega.{arith}
use native.Mathlib.Decide.{ℕ_discrete}
use gnu_os.Base.{
  ℕ, zero, suc, ◌+◌, ◌≤◌, ◌<◌, ◌≡◌, refl, sym, ap, Bool, true, false, List, [], ◌∷◌, ◌++◌, ◌==◌,
  if◌then◌else◌, Bool-cases, length, ltb, ◌≢◌,
}

-- 1 for true, 0 for false.
abbrev pub one_if : Bool → ℕ
one_if true = 1
one_if false = 0

abbrev pub occurs : ℕ → List ℕ → ℕ
occurs i [] = 0
occurs i (x ∷ xs) = one_if (x == i) + occurs i xs

abbrev pub filter : (ℕ → Bool) → List ℕ → List ℕ
filter p [] = []
filter p (x ∷ xs) = if p x then x ∷ filter p xs else filter p xs

-- The sum of `f` below `n`.
abbrev pub sum_below : (ℕ → ℕ) → ℕ → ℕ
sum_below f zero = 0
sum_below f (suc n) = f n + sum_below f n

pub occurs_append : (i : ℕ) (xs ys : List ℕ) → occurs i (xs ++ ys) ≡ occurs i xs + occurs i ys
occurs_append i [] ys = omega arith
occurs_append i (x ∷ xs) ys = omega (arith, occurs_append i xs ys)

pub occurs-filter :
    (p : ℕ → Bool) (i : ℕ) (xs : List ℕ) → occurs i (filter p xs) ≡ (if p i then occurs i xs else 0)
occurs-filter p i [] = elim (Bool-cases (p i)) [ inl e ↦ ground arith | inr e ↦ ground arith ]
occurs-filter p i (x ∷ xs) = elim (ℕ_discrete x i) [
  | yes e ↦ elim (Bool-cases (p i)) [
    | inl h ↦ ground (arith, e, occurs-filter p i xs, ap p e)
    | inr h ↦ ground (arith, e, occurs-filter p i xs, ap p e)
  ]
  | no ne ↦ elim (Bool-cases (p x)) [
    | inl h ↦ ground (arith, occurs-filter p i xs)
    | inr h ↦ ground (arith, occurs-filter p i xs)
  ]
]

pub length-filter : (p : ℕ → Bool) (xs : List ℕ) → length (filter p xs) ≤ length xs
length-filter p [] = omega arith
length-filter p (x ∷ xs) = elim (Bool-cases (p x)) [
  | inl h ↦ ground (arith, length-filter p xs)
  | inr h ↦ ground (arith, length-filter p xs)
]

sum_below-zero : (n : ℕ) → sum_below (λ i. occurs i []) n ≡ 0
sum_below-zero zero = refl
sum_below-zero (suc n) = omega (arith, sum_below-zero n)

sum_below_beyond :
    (x : ℕ) (xs : List ℕ) (n : ℕ)
    → n ≤ x
    → sum_below (λ i. occurs i (x ∷ xs)) n ≡ sum_below (λ i. occurs i xs) n
sum_below_beyond x xs zero h = refl
sum_below_beyond x xs (suc n) h = ground (arith, sum_below_beyond x xs n (omega arith))

sum_below_within :
    (x : ℕ) (xs : List ℕ) (n : ℕ)
    → x < n
    → sum_below (λ i. occurs i (x ∷ xs)) n ≡ 1 + sum_below (λ i. occurs i xs) n
sum_below_within x xs zero h = absurd (omega arith)
sum_below_within x xs (suc n) h = elim (ℕ_discrete x n) [
  | yes e ↦ ground (arith, sum_below_beyond x xs n (omega arith))
  | no ne ↦ ground (arith, sum_below_within x xs n (omega arith))
]

-- A list of numbers below `n` is as long as its numbers occur.
pub length-sum_below :
    (n : ℕ) (xs : List ℕ)
    → ((i : ℕ) → n ≤ i → occurs i xs ≡ 0)
    → length xs ≡ sum_below (λ i. occurs i xs) n
length-sum_below n [] below = sym (sum_below-zero n)
length-sum_below n (x ∷ xs) below = elim (Bool-cases (ltb x n)) [
  | inl h ↦ omega (
    arith,
    sum_below_within x xs n (ground arith),
    length-sum_below n xs (λ i l. omega (arith, below i l)),
  )
  | inr h ↦ absurd (ground (arith, below x))
]

sum_below-le : (f : ℕ → ℕ) (n : ℕ) → ((i : ℕ) → f i ≤ 1) → sum_below f n ≤ n
sum_below-le f zero each = omega arith
sum_below-le f (suc n) each = omega (arith, sum_below-le f n each, each n)

sum_below-lt : (f : ℕ → ℕ) (n i : ℕ) → ((i : ℕ) → f i ≤ 1) → i < n → f i ≡ 0 → sum_below f n < n
sum_below-lt f zero i each l e = absurd (omega arith)
sum_below-lt f (suc n) i each l e = elim (ℕ_discrete i n) [
  | yes same ↦ omega (arith, sum_below-le f n each, ap f same)
  | no ne ↦ omega (arith, sum_below-lt f n i each (omega arith) e, each n)
]

-- A list of numbers below `n` without repetition that lacks one of them is shorter than `n`.
pub length-lt :
    (n i : ℕ) (xs : List ℕ)
    → ((j : ℕ) → n ≤ j → occurs j xs ≡ 0)
    → ((j : ℕ) → occurs j xs ≤ 1)
    → i < n
    → occurs i xs ≡ 0
    → length xs < n
length-lt n i xs below once l missing =
    omega (arith, length-sum_below n xs below, sum_below-lt (λ j. occurs j xs) n i once l missing)

-- The list without the first occurrence.
abbrev pub remove_member : ℕ → List ℕ → List ℕ
remove_member j [] = []
remove_member j (y ∷ ys) = if y == j then ys else y ∷ remove_member j ys

pub occurs-remove_member :
    (i j : ℕ) (ys : List ℕ)
    → occurs j ys ≢ 0
    → occurs i (remove_member j ys) + one_if (i == j) ≡ occurs i ys
occurs-remove_member i j [] o = absurd (o refl)
occurs-remove_member i j (y ∷ ys) o = elim (ℕ_discrete y j) [
  | yes same ↦ ground arith
  | no ne ↦ ground (arith, occurs-remove_member i j ys (ground arith))
]
