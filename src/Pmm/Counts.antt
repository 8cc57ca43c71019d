-- ===== src/Pmm/Counts.antt =====
-- Counting the pages below a bound that pass a test.
use gnu_os.Base.{
  ℕ, zero, suc, ◌+◌, ◌-◌, ◌≤◌, ◌<◌, ◌≡◌, refl, ap, ◌∙◌, inl, inr, Bool, true, false, Bool-cases,
  ◌&&◌, ◌||◌, not, leb, ltb, arith, min,
}
use gnu_os.Base.Occurs.{one_if}

-- Whether page `p` is one of the `m` pages from `start`.
abbrev pub within : (start m p : ℕ) → Bool
within start m p = leb start p && ltb p (start + m)

pub count_below : (ℕ → Bool) → ℕ → ℕ
count_below g zero = 0
count_below g (suc n) = one_if (g n) + count_below g n

pub count_below-le : (g : ℕ → Bool) (n : ℕ) → count_below g n ≤ n
unfolding count_below
count_below-le g zero = omega arith
count_below-le g (suc n) = ground (arith, count_below-le g n)

pub count_below-congr :
    (g g' : ℕ → Bool) (n : ℕ) → ((p : ℕ) → p < n → g' p ≡ g p) → count_below g' n ≡ count_below g n
unfolding count_below
count_below-congr g g' zero same = refl
count_below-congr g g' (suc n) same = omega (
  arith,
  ap one_if (same n (omega arith)),
  count_below-congr g g' n (λ p l. same p (omega arith)),
)

-- Where the test changes on a range of pages only, the counts differ by the size of the range.
range_below :
    (g g' : ℕ → Bool) (start m n : ℕ)
    → ((p : ℕ) → p < n → within start m p ≡ false → g' p ≡ g p)
    → ((p : ℕ) → p < n → within start m p ≡ true → (g p ≡ true) × (g' p ≡ false))
    → count_below g n ≡ count_below g' n + (min n (start + m) - min n start)
unfolding count_below
range_below g g' start m zero outside inside = omega arith
range_below g g' start m (suc n) outside inside =
    let rest =
      range_below g g' start m n (λ p l. outside p (omega arith)) (λ p l. inside p (omega arith)) in
    elim (Bool-cases (within start m n)) [
      | inl h ↦
          let (before, after) = inside n (omega arith) h in ground (arith, rest, h, before, after)
      | inr h ↦ ground (arith, rest, h, ap one_if (outside n (omega arith) h))
    ]

pub count_below-range :
    (g g' : ℕ → Bool) (start m n : ℕ)
    → start + m ≤ n
    → ((p : ℕ) → p < n → within start m p ≡ false → g' p ≡ g p)
    → ((p : ℕ) → p < n → within start m p ≡ true → (g p ≡ true) × (g' p ≡ false))
    → count_below g n ≡ count_below g' n + m
count_below-range g g' start m n fits outside inside =
    omega (arith, range_below g g' start m n outside inside)

-- A count of zero says that the test fails below the bound.
pub count_below-zero : (g : ℕ → Bool) (n : ℕ) → count_below g n ≡ 0 → (p : ℕ) → p < n → g p ≡ false
unfolding count_below
count_below-zero g zero h p l = absurd (omega arith)
count_below-zero g (suc n) h p l = elim (Bool-cases (ltb p n)) [
  | inl e ↦ count_below-zero g n (ground arith) p (ground arith)
  | inr e ↦ let same : p ≡ n = ground arith in ap g same ∙ ground (arith, h)
]

pub count_below_none :
    (g : ℕ → Bool) (n : ℕ) → ((p : ℕ) → p < n → g p ≡ false) → count_below g n ≡ 0
unfolding count_below
count_below_none g zero h = refl
count_below_none g (suc n) h =
    ground (arith, h n (omega arith), count_below_none g n (λ p l. h p (omega arith)))

-- The two halves of a range.
pub lower_half :
    (start m p : ℕ) → within start m p ≡ (within start (m + m) p && not (within (start + m) m p))
lower_half start m p = ground arith

pub upper_half :
    (start m p : ℕ) → within (start + m) m p ≡ (within start (m + m) p && not (within start m p))
upper_half start m p = ground arith

-- Two neighbours of one size make a range of twice the size.
pub join_above :
    (lower current other m twice p : ℕ)
    → twice ≡ m + m
    → lower ≡ current
    → other ≡ current + m
    → within lower twice p ≡ (within current m p || within other m p)
join_above lower current other m twice p d l o = ground arith

pub join_below :
    (lower current other m twice p : ℕ)
    → twice ≡ m + m
    → lower ≡ other
    → current ≡ other + m
    → within lower twice p ≡ (within current m p || within other m p)
join_below lower current other m twice p d l o = ground arith

pub upper_in : (start m p : ℕ) → within (start + m) m p ≡ true → within start (m + m) p ≡ true
upper_in start m p h = ground arith

pub lower_in : (start m p : ℕ) → within start m p ≡ true → within start (m + m) p ≡ true
lower_in start m p h = ground arith
