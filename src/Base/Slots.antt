-- ===== src/Base/Slots.antt =====
-- Fixed tables of slots: the first slot that passes a test, how many pass, and predicates on all
-- slots or on one.
use Prim.Native.Nat.{ℕ, zero, suc, ◌+◌, ◌<◌, ◌≤◌}
use mathlib.Core.Path.{◌≡◌, refl, ap, ◌∙◌}
use mathlib.Core.Logic.{◌⊎◌, inl, inr}
use mathlib.Core.Bool.{Bool, true, false, not}
use mathlib.Core.Option.{Option, none, some}
use mathlib.Core.List.{List, [], ◌∷◌}
use native.Mathlib.Omega.{arith}
use gnu_os.Base.Tests.{if◌then◌else◌, Bool-cases, ◌==◌}
use gnu_os.Base.Lists.{length, get_or, set, replicate, get_or-set_self, get_or-set_ne}

module _ {ℓ} {A : Type ℓ} (p : A → Bool) where
  -- `for (i = 0; i < N; i++) if (p(a[i])) break;` with the index counted from `i`.
  unfoldable pub find_idx_from : ℕ → List A → Option ℕ
  find_idx_from i [] = none
  find_idx_from i (x ∷ xs) = if p x then some i else find_idx_from (suc i) xs

  unfoldable pub count_if : List A → ℕ
  count_if [] = 0
  count_if (x ∷ xs) = (if p x then 1 else 0) + count_if xs

  pub count_if_not : List A → ℕ
  count_if_not [] = 0
  count_if_not (x ∷ xs) = (if p x then 0 else 1) + count_if_not xs

  -- What the search says of the table: the first hit, or that there is none.
  pub find_idx_from-some :
      (i : ℕ) (xs : List A) (d : A) {k : ℕ}
      → find_idx_from i xs ≡ some k
      → (j : ℕ) × (k ≡ i + j)
        × (j < length xs)
        × (p (get_or xs j d) ≡ true)
        × ((m : ℕ) → m < j → p (get_or xs m d) ≡ false)
  unfolding find_idx_from
  find_idx_from-some i [] d h = absurd (ground arith)
  find_idx_from-some i (x ∷ xs) d {k} h = elim (Bool-cases (p x)) [
    | inl hit ↦ (0, ground arith, omega arith, hit, λ m l. absurd (omega arith))
    | inr miss ↦
        let rest : find_idx_from (suc i) xs ≡ some k = ground arith in
        let (j, e, l, q, before) = find_idx_from-some (suc i) xs d rest in
        (
          suc j,
          omega arith,
          omega arith,
          q,
          elim [ zero ↦ λ l'. miss | suc m ↦ λ l'. before m (omega arith) ],
        )
  ]

  pub find_idx_from-none :
      (i : ℕ) (xs : List A) (d : A) (j : ℕ)
      → find_idx_from i xs ≡ none
      → j < length xs
      → p (get_or xs j d) ≡ false
  unfolding find_idx_from
  find_idx_from-none i [] d j h l = absurd (omega arith)
  find_idx_from-none i (x ∷ xs) d zero h l = ground arith
  find_idx_from-none i (x ∷ xs) d (suc j) h l =
      find_idx_from-none (suc i) xs d j (ground arith) (omega arith)

  -- A search that fails has seen every slot fail.
  pub count_if_of_none :
      (i : ℕ) (xs : List A) → find_idx_from i xs ≡ none → count_if_not xs ≡ length xs
  unfolding find_idx_from count_if_not
  count_if_of_none i [] h = refl
  count_if_of_none i (x ∷ xs) h = ground (arith, count_if_of_none (suc i) xs)

  pub count_if-le : (xs : List A) → count_if xs ≤ length xs
  unfolding count_if
  count_if-le [] = omega arith
  count_if-le (x ∷ xs) = ground (arith, count_if-le xs)

  pub count_if-replicate : (n : ℕ) (a : A) → p a ≡ false → count_if (replicate n a) ≡ 0
  unfolding count_if replicate
  count_if-replicate zero a h = refl
  count_if-replicate (suc n) a h = ground (arith, count_if-replicate n a h)

  -- A write moves the count by the difference between the new slot and the old one.
  pub count_if-set :
      (xs : List A) (i : ℕ) (v d : A)
      → i < length xs
      → count_if (set xs i v) + (if p (get_or xs i d) then 1 else 0)
        ≡ count_if xs + (if p v then 1 else 0)
  unfolding count_if
  count_if-set [] i v d h = absurd (omega arith)
  count_if-set (x ∷ xs) zero v d h = omega arith
  count_if-set (x ∷ xs) (suc i) v d h = omega (arith, count_if-set xs i v d (omega arith))

module _ {ℓ} {A : Type ℓ} (p : A → Bool) where
  -- Writing a slot that passes into a table where none does.
  pub find_idx_from-set_hit :
      (i k : ℕ) (xs : List A) (v : A)
      → find_idx_from p i xs ≡ none
      → k < length xs
      → p v ≡ true
      → find_idx_from p i (set xs k v) ≡ some (i + k)
  unfolding find_idx_from
  find_idx_from-set_hit i k [] v h l t = absurd (omega arith)
  find_idx_from-set_hit i zero (x ∷ xs) v h l t = rw t (ap some (omega arith))
  find_idx_from-set_hit i (suc k) (x ∷ xs) v h l t = elim (Bool-cases (p x)) [
    | inl hit ↦ absurd (ground arith)
    | inr miss ↦ rw miss (
        find_idx_from-set_hit (suc i) k xs v (rw (miss, find_idx_from) at h) (omega arith) t
        ∙ ap some (omega arith))
  ]

  -- Writing a slot that fails over one that failed.
  pub find_idx_from-set_miss :
      (i k : ℕ) (xs : List A) (v d : A)
      → p (get_or xs k d) ≡ false
      → p v ≡ false
      → find_idx_from p i (set xs k v) ≡ find_idx_from p i xs
  unfolding find_idx_from
  find_idx_from-set_miss i k [] v d h t = refl
  find_idx_from-set_miss i zero (x ∷ xs) v d h t = rw (h, t)
  find_idx_from-set_miss i (suc k) (x ∷ xs) v d h t =
      rw (find_idx_from-set_miss (suc i) k xs v d h t)

-- One law for a write and a read of an array.
pub get_or-set {ℓ} :
    {A : Type ℓ} (xs : List A) (i j : ℕ) (v d : A)
    → i < length xs
    → get_or (set xs i v) j d ≡ (if j == i then v else get_or xs j d)
get_or-set xs i j v d l = elim (Bool-cases (j == i)) [
  | inl e ↦ let same : i ≡ j = ground arith in rw (e, ← same) (get_or-set_self xs i v d l)
  | inr e ↦ rw e (get_or-set_ne xs i j v d (ground arith))
]

pub count_if_not-eq {ℓ} :
    {A : Type ℓ} (p : A → Bool) (xs : List A) → count_if_not p xs ≡ count_if (λ x. not (p x)) xs
unfolding count_if count_if_not
count_if_not-eq p [] = refl
count_if_not-eq p (x ∷ xs) = ground (arith, count_if_not-eq p xs)

abbrev pub AllSlots {ℓ κ} : {A : Type ℓ} → (A → Type κ) → List A → Type κ
AllSlots P [] = Unit
AllSlots P (x ∷ xs) = P x × AllSlots P xs

abbrev pub AnyOf {ℓ} : {A : Type ℓ} → (A → Type 0) → List A → Type 0
AnyOf P [] = ⊥
AnyOf P (x ∷ xs) = P x ⊎ AnyOf P xs

pub AllSlots-get {ℓ} :
    {A : Type ℓ} (P : A → Type 0) (xs : List A) (i : ℕ) (d : A)
    → AllSlots P xs
    → i < length xs
    → P (get_or xs i d)
AllSlots-get P [] i d h l = absurd (omega arith)
AllSlots-get P (x ∷ xs) zero d h l = h.0
AllSlots-get P (x ∷ xs) (suc i) d h l = AllSlots-get P xs i d h.1 (omega arith)

pub AllSlots-set {ℓ} :
    {A : Type ℓ} (P : A → Type 0) (xs : List A) (i : ℕ) (v : A)
    → AllSlots P xs
    → P v
    → AllSlots P (set xs i v)
AllSlots-set P [] i v h p = h
AllSlots-set P (x ∷ xs) zero v h p = (p, h.1)
AllSlots-set P (x ∷ xs) (suc i) v h p = (h.0, AllSlots-set P xs i v h.1 p)
