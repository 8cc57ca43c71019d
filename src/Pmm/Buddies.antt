-- ===== src/Pmm/Buddies.antt =====
-- kernel/mm/pmm.c: sizes of blocks, and the buddy of an aligned block, which `free_block` finds by an
-- exclusive or.
use Prim.Native.Nat.{bit_xor, digits, differ, bit_xor-bitwise}
use native.Mathlib.Decide.{ℕ_discrete}
use native.Mathlib.Nat.{pow-suc, zero-mul, eq_of_mul-eq-mul_right}
use gnu_os.Base.{
  ℕ, zero, suc, ◌+◌, ◌*◌, ◌/◌, ◌%◌, ◌≤◌, ◌≡◌, ◌≢◌, refl, sym, ap, ◌∙◌, ◌⊎◌, inl, inr, arith,
  Bool-cases, ◌==◌, if◌then◌else◌, ◌-◌,
}
use gnu_os.Pmm.{block_pages}

pub block_pages-zero : block_pages 0 ≡ 1
unfolding block_pages
block_pages-zero = refl

pub block_pages-suc : (k : ℕ) → block_pages (suc k) ≡ block_pages k + block_pages k
unfolding block_pages
block_pages-suc k = omega (arith, pow-suc 2 k)

pub block_pages-positive : (k : ℕ) → 1 ≤ block_pages k
block_pages-positive zero = omega (arith, block_pages-zero)
block_pages-positive (suc k) = omega (arith, block_pages-suc k, block_pages-positive k)

-- What `bit_xor` stands for, on fuel.
abbrev differing : ℕ → ℕ → ℕ → ℕ
differing fuel a b = digits (λ b. b) differ fuel a b

differing_zero : (fuel b : ℕ) → differing fuel 0 b ≡ b
differing_zero zero b = refl
differing_zero (suc fuel) b = refl

differing_halves :
    (fuel a b : ℕ)
    → a ≢ 0
    → differing (suc fuel) a b ≡ differing fuel (a / 2) (b / 2) * 2 + differ (a % 2) (b % 2)
differing_halves fuel zero b nonzero = absurd (nonzero refl)
differing_halves fuel (suc a) b nonzero = refl

-- As many digits as the first number are enough.
differing_enough :
    (more less a b : ℕ) → a ≤ less → less ≤ more → differing more a b ≡ differing less a b
differing_enough more zero a b covered ordered =
    let none_left : a ≡ 0 = omega arith in rw (none_left, differing_zero more b)
differing_enough zero (suc less) a b covered ordered = absurd (omega arith)
differing_enough (suc more) (suc less) a b covered ordered = elim (ℕ_discrete a 0) [
  | yes e ↦ rw e refl
  | no ne ↦
      differing_halves more a b ne
      ∙ ap (λ x. x * 2 + differ (a % 2) (b % 2))
          (differing_enough more less (a / 2) (b / 2) (omega arith) (omega arith))
      ∙ sym (differing_halves less a b ne)
]

pub zero-bit_xor : (b : ℕ) → bit_xor 0 b ≡ b
zero-bit_xor = bit_xor-bitwise 0

xor_halves : (a b : ℕ) → a ≢ 0 → bit_xor a b ≡ bit_xor (a / 2) (b / 2) * 2 + differ (a % 2) (b % 2)
xor_halves a b ne =
    bit_xor-bitwise a b
    ∙ sym (differing_enough (suc a) a a b (omega arith) (omega arith))
    ∙ differing_halves a a b ne
    ∙ ap (λ x. x * 2 + differ (a % 2) (b % 2))
        (differing_enough a (a / 2) (a / 2) (b / 2) (omega arith) (omega arith)
          ∙ sym (bit_xor-bitwise (a / 2) (b / 2)))

differ_zero : (x : ℕ) → differ x 0 ≡ x
differ_zero zero = refl
differ_zero (suc x) = refl

xor_zero : (fuel a : ℕ) → a ≤ fuel → bit_xor a 0 ≡ a
xor_zero fuel zero h = refl
xor_zero zero (suc a) h = absurd (omega arith)
xor_zero (suc fuel) (suc a) h =
    xor_halves (suc a) 0 (omega arith)
    ∙ rw (xor_zero fuel (suc a / 2) (omega arith), differ_zero (suc a % 2)) (omega arith)

-- The other block of the pair.
abbrev pub sibling : ℕ → ℕ
sibling q = if q % 2 == 0 then q + 1 else q - 1

xor_one : (q : ℕ) → bit_xor q 1 ≡ sibling q
xor_one q = elim (ℕ_discrete q 0) [
  | yes e ↦ rw e (zero-bit_xor 1)
  | no ne ↦ elim (Bool-cases (q % 2 == 0)) [
    | inl even ↦
        let low : q % 2 ≡ 0 = ground arith in
        xor_halves q 1 ne ∙ rw (xor_zero (q / 2) (q / 2) (omega arith), low) (omega arith)
    | inr odd ↦
        let low : q % 2 ≡ 1 = ground arith in
        xor_halves q 1 ne ∙ rw (xor_zero (q / 2) (q / 2) (omega arith), low) (omega arith)
  ]
]

-- The buddy of the block with number `q` among those of an order is the block with its sibling's number.
pub buddy_lem : (k q : ℕ) → bit_xor (q * block_pages k) (block_pages k) ≡ sibling q * block_pages k
buddy_lem zero q =
    rw block_pages-zero (ap (λ x. bit_xor x 1) (omega arith) ∙ xor_one q ∙ omega arith)
buddy_lem (suc k) q = elim (ℕ_discrete q 0) [
  | yes e ↦ rw (e, zero-mul (block_pages (suc k)), zero-bit_xor (block_pages (suc k))) (omega arith)
  | no ne ↦
      let size = block_pages k in
      let nonzero : q * block_pages (suc k) ≢ 0 = λ z. ne (
        eq_of_mul-eq-mul_right (block_pages (suc k)) (block_pages-positive (suc k)) q 0
          (z ∙ sym (zero-mul (block_pages (suc k))))) in
      let double : q * block_pages (suc k) ≡ q * size + q * size =
        ap (λ m. q * m) (block_pages-suc k) ∙ omega arith in
      let half : q * block_pages (suc k) / 2 ≡ q * size = omega (arith, double) in
      let even : q * block_pages (suc k) % 2 ≡ 0 = omega (arith, double) in
      let half' : block_pages (suc k) / 2 ≡ size = omega (arith, block_pages-suc k) in
      let even' : block_pages (suc k) % 2 ≡ 0 = omega (arith, block_pages-suc k) in
      xor_halves (q * block_pages (suc k)) (block_pages (suc k)) nonzero
      ∙ rw (half, even, half', even', buddy_lem k q)
          (omega arith ∙ ap (λ m. sibling q * m) (sym (block_pages-suc k)))
]

-- The buddy of an aligned block stands right above or right below it, and the two make an aligned block of
-- the next order.
pub buddy_cases :
    (k q : ℕ)
    → ((bit_xor (q * block_pages k) (block_pages k) ≡ q * block_pages k + block_pages k)
        × (q * block_pages k ≡ q / 2 * block_pages (suc k)))
      ⊎ ((q * block_pages k ≡ bit_xor (q * block_pages k) (block_pages k) + block_pages k)
          × (bit_xor (q * block_pages k) (block_pages k) ≡ q / 2 * block_pages (suc k)))
buddy_cases k q = elim (Bool-cases (q % 2 == 0)) [
  | inl even ↦
      let twice : q ≡ q / 2 + q / 2 = ground arith in
      let sum : q * block_pages k ≡ (q / 2 + q / 2) * block_pages k =
        ap (λ n. n * block_pages k) twice in
      inl (buddy_lem k q ∙ rw even (omega arith), rw (block_pages-suc k) (sum ∙ omega arith))
  | inr odd ↦
      let twice : q ≡ q / 2 + q / 2 + 1 = ground arith in
      let below : q - 1 ≡ q / 2 + q / 2 = omega (arith, twice) in
      let sum : q * block_pages k ≡ (q / 2 + q / 2 + 1) * block_pages k =
        ap (λ n. n * block_pages k) twice in
      let buddy : bit_xor (q * block_pages k) (block_pages k) ≡ (q / 2 + q / 2) * block_pages k =
        buddy_lem k q ∙ rw odd (ap (λ n. n * block_pages k) below) in
      inr (omega (arith, buddy, sum), rw (block_pages-suc k) (buddy ∙ omega arith))
]

-- A higher order has more pages.
pub block_pages_mono : (k m : ℕ) → k ≤ m → block_pages k ≤ block_pages m
block_pages_mono k zero h = let e : k ≡ 0 = omega arith in omega (arith, ap block_pages e)
block_pages_mono k (suc m) h = elim (ℕ_discrete k (suc m)) [
  | yes e ↦ omega (arith, ap block_pages e)
  | no ne ↦ omega (arith, block_pages_mono k m (omega arith), block_pages-suc m)
]
