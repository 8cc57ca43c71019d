-- ===== src/Pmm/Masks.antt =====
-- kernel/mm/pmm.c: rounding addresses to pages by a mask.
use gnu_os.Base.{
  ℕ, zero, suc, ◌+◌, ◌-◌, ◌*◌, ◌/◌, ◌%◌, ◌^◌, ◌≤◌, ◌<◌, ◌≡◌, refl, sym, ap, ◌∙◌, arith, bit_and,
  ◌⊎◌, inl, inr, Bool-cases, false, ltb, leb, u64, if◌then◌else◌,
}
use gnu_os.Base.Bits.{lowest_and_rest, zero-bit_and}
use gnu_os.Pmm.{page_bytes}
use gnu_os.Pmm.Api.{page_mask, u64_max, aligned_end}

bit_and-le_fuel : (n a b : ℕ) → a ≤ n → bit_and a b ≤ a
bit_and-le_fuel n zero b h = omega (arith, zero-bit_and b)
bit_and-le_fuel zero (suc a) b h = absurd (omega arith)
bit_and-le_fuel (suc n) (suc a) b h =
    omega (arith, lowest_and_rest (suc a) b, bit_and-le_fuel n (suc a / 2) (b / 2) (omega arith))

-- The mask never raises an address.
pub bit_and-le : (a b : ℕ) → bit_and a b ≤ a
bit_and-le a b = bit_and-le_fuel a a b (omega arith)

ones : ℕ → ℕ
ones zero = 0
ones (suc k) = ones k * 2 + 1

full : ℕ → ℕ
full zero = 1
full (suc k) = full k * 2

bit_and-ones : (k a : ℕ) → a < full k → bit_and a (ones k) ≡ a
unfolding ones full
bit_and-ones zero a h =
    let e : a ≡ 0 = omega arith in ap (λ n. bit_and n 0) e ∙ zero-bit_and 0 ∙ sym e
bit_and-ones (suc k) a h =
    let half : (ones k * 2 + 1) / 2 ≡ ones k = omega arith in
    let odd : (ones k * 2 + 1) % 2 ≡ 1 = omega arith in
    lowest_and_rest a (ones k * 2 + 1)
    ∙ rw (half, odd, bit_and-ones k (a / 2) (omega arith)) (omega arith)

-- A mask with a zero at the end.
shifted : (a m : ℕ) → bit_and a (m * 2) ≡ bit_and (a / 2) m * 2
shifted a m =
    let half : m * 2 / 2 ≡ m = omega arith in
    let even : m * 2 % 2 ≡ 0 = omega arith in
    lowest_and_rest a (m * 2) ∙ rw (half, even) (omega arith)

shifts : ℕ → ℕ → ℕ
shifts zero m = m
shifts (suc k) m = shifts k m * 2

halves : ℕ → ℕ → ℕ
halves zero a = a
halves (suc k) a = halves k (a / 2)

bit_and-shifts : (k a m : ℕ) → bit_and a (shifts k m) ≡ shifts k (bit_and (halves k a) m)
unfolding shifts halves
bit_and-shifts zero a m = refl
bit_and-shifts (suc k) a m = shifted a (shifts k m) ∙ ap (λ n. n * 2) (bit_and-shifts k (a / 2) m)

-- `x & ~(MM_PAGE_SIZE - 1ULL)` is the start of the page of `x`.
pub bit_and-page_mask : (a : ℕ) → a < 2 ^ 64 → bit_and a page_mask ≡ a - a % page_bytes
unfolding shifts halves ones full
bit_and-page_mask a h =
    let low = halves 12 a in
    let small : low < full 52 = omega arith in
    bit_and-shifts 12 a (ones 52) ∙ ap (shifts 12) (bit_and-ones 52 low small) ∙ omega arith

-- The end of a range that `pmm_reserve_range` works with: the range's end rounded up to a page, or the start
-- of the last page where the range comes nearer to the end of the address space.
pub aligned_end_lem :
    (base size : ℕ)
    → base < 2 ^ 64
    → size < 2 ^ 64
    → (aligned_end base size % page_bytes ≡ 0)
      × (((base + size ≤ aligned_end base size)
            × (aligned_end base size < base + size + page_bytes))
          ⊎ ((aligned_end base size ≡ 2 ^ 64 - page_bytes) × (2 ^ 64 - page_bytes < base + size)))
unfolding aligned_end
aligned_end_lem base size b z = elim (Bool-cases (ltb (u64 (base + size)) base)) [
  | inl wraps ↦ rw wraps (refl, inr (refl, ground arith))
  | inr within ↦
      let sum : u64 (base + size) ≡ base + size = ground arith in
      let no_wrap : ltb (base + size) base ≡ false = ground arith in
      rw (sum, no_wrap)
        (elim (Bool-cases (ltb (u64_max - (page_bytes - 1)) (base + size))) [
          | inl high ↦ rw high (refl, inr (refl, ground arith))
          | inr low ↦
              let word : u64 (base + size + (page_bytes - 1)) ≡ base + size + (page_bytes - 1) =
                ground arith in
              rw (low, word, bit_and-page_mask (base + size + (page_bytes - 1)) (ground arith))
                (omega arith, inl (omega arith, omega arith))
        ])
]

-- From which page on the pages end above an address.
pub first_page_lem :
    (b base p : ℕ)
    → b % page_bytes ≡ 0
    → leb
        (((if ltb (base - base % page_bytes) b then b else base - base % page_bytes) - b)
          / page_bytes)
        p
      ≡ ltb base (b + p * page_bytes + page_bytes)
first_page_lem b base p e = elim (Bool-cases (ltb (base - base % page_bytes) b)) [
  | inl h ↦ rw h (ground arith)
  | inr h ↦ rw h (ground arith)
]

-- Up to which page the pages start below the end of the range.
pub last_page_lem :
    (b total end top p : ℕ)
    → b % page_bytes ≡ 0
    → end % page_bytes ≡ 0
    → b < end
    → p < total
    → top ≤ end
    → end < top + page_bytes
    → ltb p (
        ((if ltb (b + total * page_bytes) end then b + total * page_bytes else end) - b)
        / page_bytes)
      ≡ ltb (b + p * page_bytes) top
last_page_lem b total end top p e f after l low high =
    elim (Bool-cases (ltb (b + total * page_bytes) end)) [
      | inl h ↦ rw h (ground arith)
      | inr h ↦ rw h (ground arith)
    ]
