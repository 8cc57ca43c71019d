-- ===== src/Ring/Contents.antt =====
-- The items of a ring in order, oldest first, and what a write or a step of the head does to them.
use native.Mathlib.Nat.{mod-add-mod, mod-eq_of_lt, mod-eq-sub-mod}
use native.Mathlib.Decide.{dec_lt}
use gnu_os.Base.{
  ℕ, zero, suc, ◌+◌, ◌-◌, ◌%◌, ◌≤◌, ◌<◌, ◌≡◌, refl, ◌∙◌, ap, ap₂, ◌≢◌, ◌⊎◌, inl, inr, sym, List, [],
  ◌∷◌, ◌++◌, arith, length, get_or, set, get_or-set_self, get_or-set_ne,
}
use gnu_os.Ring.{Ring}

module _ {ℓ} {A : Type ℓ} (d : A) where
  -- The `n` items from index `h` on, going round at `cap`.
  abbrev pub window : List A → ℕ → ℕ → ℕ → List A
  window items cap h zero = []
  window items cap h (suc n) = get_or items h d ∷ window items cap ((h + 1) % cap) n

  abbrev pub contents : ℕ → Ring A → List A
  contents cap r = window r.items cap r.head r.size

  pub length-window : (items : List A) (cap h n : ℕ) → length (window items cap h n) ≡ n
  length-window items cap h zero = refl
  length-window items cap h (suc n) = ap suc (length-window items cap ((h + 1) % cap) n)

  -- The code tests `size == 0`, `window` matches on `suc`.
  pub window_of_ne_zero :
      (items : List A) (cap h n : ℕ)
      → n ≢ 0
      → window items cap h n ≡ get_or items h d ∷ window items cap ((h + 1) % cap) (n - 1)
  window_of_ne_zero items cap h zero p = absurd (p refl)
  window_of_ne_zero items cap h (suc n) p = ap (λ k. window items cap h (suc k)) (omega arith)

-- Less than twice round the ring.
round_once : (cap place : ℕ) → place < cap + cap → place % cap ≡ place ⊎ place % cap + cap ≡ place
round_once cap place near = elim (dec_lt place cap) [
  | yes inside ↦ inl (mod-eq_of_lt inside)
  | no outside ↦
      let below : place - cap < cap = omega arith in
      inr (omega (arith, mod-eq-sub-mod {n = place} {m = cap} (omega arith), mod-eq_of_lt below))
]

-- Fewer than `cap` steps round the ring do not come back to the start.
head_untouched : (cap head n : ℕ) → head < cap → n + 1 < cap → (head + suc n) % cap ≢ head
head_untouched cap head n inside room back = elim (round_once cap (head + suc n) (omega arith)) [
  | inl e ↦ omega arith
  | inr e ↦ omega arith
]

-- A place counted from the head, and the same place counted from the next one.
place_from_next : (cap head n : ℕ) → (head + suc n) % cap ≡ ((head + 1) % cap + n) % cap
place_from_next cap head n =
    let regroup : head + suc n ≡ (head + 1) + n = omega arith in
    ap (λ place. place % cap) regroup ∙ sym (mod-add-mod (head + 1) cap n)

module _ {ℓ} {A : Type ℓ} (d : A) (cap : ℕ) where
  -- A write to the place just behind a window that leaves room extends it by that item.
  pub window-set :
      (items : List A) (x : A) (n h i : ℕ)
      → cap ≤ length items
      → h < cap
      → n < cap
      → i ≡ (h + n) % cap
      → window d (set items i x) cap h (suc n) ≡ window d items cap h n ++ (x ∷ [])
  window-set items x zero h i storage inside room behind =
      let no_step : (h + 0) % cap ≡ h % cap = ap (λ place. place % cap) (omega arith) in
      let here : i ≡ h = behind ∙ no_step ∙ mod-eq_of_lt inside in
      rw (here, get_or-set_self items h x d (omega arith))
  window-set items x (suc n) h i storage inside room behind =
      let elsewhere : i ≢ h = λ e. head_untouched cap h n inside (omega arith) (sym behind ∙ e) in
      let next_in : (h + 1) % cap < cap = omega arith in
      let next_behind : i ≡ ((h + 1) % cap + n) % cap = behind ∙ place_from_next cap h n in
      ap₂ ◌∷◌ (get_or-set_ne items i h x d elsewhere)
        (window-set items x n ((h + 1) % cap) i storage next_in (omega arith) next_behind)
