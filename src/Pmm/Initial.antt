-- ===== src/Pmm/Initial.antt =====
-- kernel/mm/pmm.c: the state that `pmm_init` leaves.
use gnu_os.Base.{
  ℕ, ◌+◌, ◌-◌, ◌*◌, ◌/◌, ◌%◌, ◌^◌, ◌≤◌, ◌<◌, ◌≡◌, ◌⊎◌, false, true, sym, subst, refl, ◌∙◌, inl, inr,
  ◌||◌, Bool-cases, List, [], ◌==◌, leb, ltb, if◌then◌else◌, arith, bit_and, u32, u64,
}
use gnu_os.Pmm.{Pmm, BlockState, free, reserved, page_bytes, max_pages, reset}
use gnu_os.Pmm.Blocks.{reserve_page, add_free_range}
use gnu_os.Pmm.Api.{count_pages, page_mask, pmm_init}
use gnu_os.Pmm.Sound.{status_of, IsSound, settle}
use gnu_os.Pmm.Ranges.{all_free, no_hole, add_free_range-Whole, reset-Divided}
use gnu_os.Pmm.Reserving.{reserve_page_lem}
use gnu_os.Pmm.Taking.{SameMemory, SameMemory-trans, Whole}
use gnu_os.Pmm.Masks.{bit_and-le, bit_and-page_mask}

-- The pages fit between the base and the end, which is below 2^64.
count_pages-fits :
    (base end aligned : ℕ)
    → end < 2 ^ 64
    → aligned < 2 ^ 64
    → (count_pages base end aligned ≤ max_pages)
      × (aligned + count_pages base end aligned * page_bytes < 2 ^ 64)
unfolding count_pages
count_pages-fits base end aligned e a = elim (Bool-cases (ltb end base || leb end aligned)) [
  | inl h ↦ rw h (omega arith, omega (arith, a))
  | inr h ↦ rw h (elim (Bool-cases (ltb max_pages ((end - aligned) / page_bytes))) [
    | inl g ↦ rw g (omega arith, ground (arith, h, g, e))
    | inr g ↦ rw g (ground (arith, g), ground (arith, h, e, a))
  ])
]

-- The first page boundary that is not below `base`; a `base` past the start of the last page wraps to 0.
abbrev pub StartsAt : (base start : ℕ) → Type 0
StartsAt base start =
    (start % 4096 ≡ 0)
    × (((base + 4095 < 2 ^ 64) × (base ≤ start) × (start < base + 4096))
        ⊎ ((2 ^ 64 ≤ base + 4095) × (start ≡ 0)))

-- The number of whole pages from `start` to the end of the memory, but 65536 at most, and none where the
-- memory's end wraps around.
abbrev pub HasPages : (base memory_size start total : ℕ) → Type 0
HasPages base memory_size start total =
    ((total ≡ 0) × ((2 ^ 64 ≤ base + memory_size) ⊎ (base + memory_size < start + 4096)))
    ⊎ ((1 ≤ total)
        × (total ≤ 65536)
        × (base + memory_size < 2 ^ 64)
        × (start + total * 4096 ≤ base + memory_size)
        × ((total ≡ 65536) ⊎ (base + memory_size < start + (total + 1) * 4096)))

starts_at :
    (base : ℕ) → base < 2 ^ 64 → StartsAt base (bit_and (u64 (base + (page_bytes - 1))) page_mask)
starts_at base word = rw (bit_and-page_mask (u64 (base + (page_bytes - 1))) (omega arith)) (
  omega arith,
  elim (Bool-cases (ltb (base + 4095) (2 ^ 64))) [
    | inl fits ↦ inl (ground (arith, fits), ground (arith, fits), ground (arith, fits))
    | inr wraps ↦ inr (ground (arith, wraps), ground (arith, wraps, word))
  ],
)

counted_pages :
    (base memory_size start : ℕ)
    → start < base + memory_size
    → ltb (base + memory_size) (2 ^ 64) ≡ true
    → u64 (base + memory_size) ≡ base + memory_size
    → ltb (base + memory_size) base ≡ false
    → leb (base + memory_size) start ≡ false
    → HasPages base memory_size start (count_pages base (u64 (base + memory_size)) start)
unfolding count_pages
counted_pages base memory_size start l fits end forward some_left =
    elim (Bool-cases (ltb max_pages ((base + memory_size - start) / page_bytes))) [
      | inl many ↦
          rw (end, forward, some_left, many)
            (inr (omega arith, omega arith, ground (arith, fits), ground (arith, many), inl refl))
      | inr few ↦
          rw (end, forward, some_left, few)
            (elim (Bool-cases ((base + memory_size - start) / page_bytes == 0)) [
              | inl none_whole ↦
                  inl (ground (arith, none_whole), inr (ground (arith, none_whole, l)))
              | inr some_whole ↦ inr (
                ground (arith, some_whole),
                ground (arith, few),
                ground (arith, fits),
                omega (arith, l),
                inr (omega (arith, l)),
              )
            ])
    ]

has_pages :
    (base memory_size start : ℕ)
    → base < 2 ^ 64
    → memory_size < 2 ^ 64
    → HasPages base memory_size start (count_pages base (u64 (base + memory_size)) start)
unfolding count_pages
has_pages base memory_size start b m = elim (Bool-cases (ltb (base + memory_size) (2 ^ 64))) [
  | inr wraps ↦ inl (ground (arith, wraps, b, m), inl (ground (arith, wraps)))
  | inl fits ↦
      let end : u64 (base + memory_size) ≡ base + memory_size = ground (arith, fits) in
      let forward : ltb (base + memory_size) base ≡ false = ground arith in
      elim (Bool-cases (leb (base + memory_size) start)) [
        | inl none_left ↦
            rw (end, forward, none_left) (inl (ground arith, inr (ground (arith, none_left))))
        | inr some_left ↦
            counted_pages base memory_size start (ground (arith, some_left)) fits end forward
              some_left
      ]
]

-- What `pmm_init` makes of the memory.
abbrev first_status : ℕ → BlockState
first_status p = if p == 0 then reserved else free

same_reset : (s : Pmm) → SameMemory s (reset s)
unfolding reset
same_reset s = record { total = refl; base = refl }

-- The state after `pmm_init`, by the code's own start and number of pages.
abbrev pub Initial : Pmm → (start total : ℕ) → Type 0
Initial s start total =
    IsSound s
    × ((p : ℕ) → p < s.total_pages → status_of s p ≡ first_status p)
    × (s.base ≡ start)
    × (s.total_pages ≡ total)

pub init_lem :
    (s : Pmm) (base memory_size : ℕ)
    → let start = bit_and (u64 (base + (page_bytes - 1))) page_mask in
      Initial
        (pmm_init s base memory_size)
        start
        (count_pages base (u64 (base + memory_size)) start)
unfolding pmm_init
init_lem s base memory_size = elim (Bool-cases (total == 0)) [
  | inl none_left ↦
      let none_left' : total ≡ 0 = ground arith in
      let whole : Whole (reset cleared) (λ k. []) all_free =
        no_hole 0 total (reset cleared) (λ k. []) none_left' (reset-Divided cleared few refl) in
      rw none_left (
        settle_first (reset cleared) (λ k. []) all_free (same_reset cleared) whole
          (λ p l. absurd (omega (arith, none_left', l))))
  | inr some_left ↦
      let nonzero : 0 < total = ground arith in
      let word : u32 total ≡ total = omega (arith, few) in
      let (same, lists, whole) = add_free_range-Whole cleared few refl in
      let s1 = add_free_range (reset cleared) 0 total in
      let (answer, same', lists', whole') =
        reserve_page_lem s1 lists all_free 0 whole
          (omega (arith, same.total, (same_reset cleared).total, nonzero)) in
      rw (some_left, word)
        (settle_first (reserve_page s1 0).1 lists' first_status
          (SameMemory-trans cleared (reset cleared) (reserve_page s1 0).1 (same_reset cleared)
            (SameMemory-trans (reset cleared) s1 (reserve_page s1 0).1 same same'))
          whole' (λ p l. refl))
]
  where
    end : ℕ
    end = u64 (base + memory_size)

    start : ℕ
    start = bit_and (u64 (base + (page_bytes - 1))) page_mask

    total : ℕ
    total = count_pages base end start

    cleared : Pmm
    cleared = record s { base = start; total_pages = total; free_pages = 0 }

    below : start < 2 ^ 64
    below = omega (arith, bit_and-le (u64 (base + (page_bytes - 1))) page_mask)

    few : total ≤ max_pages
    few = (count_pages-fits base end start (omega arith) below).0

    fits : start + total * page_bytes < 2 ^ 64
    fits = (count_pages-fits base end start (omega arith) below).1

    on_page : start % page_bytes ≡ 0
    on_page = omega (arith, bit_and-page_mask (u64 (base + (page_bytes - 1))) (omega arith))

    settle_first :
        (s' : Pmm) (lists : ℕ → List ℕ) (status : ℕ → BlockState)
        → SameMemory cleared s'
        → Whole s' lists status
        → ((p : ℕ) → p < total → status p ≡ first_status p)
        → Initial s' start total
    settle_first s' lists status same whole says =
        let (sound, stands) = settle cleared s' lists status fits on_page same whole in
        (
          sound,
          λ p l. stands p (omega (arith, same.total, l)) ∙ says p (omega (arith, same.total, l)),
          same.base,
          same.total,
        )

-- For every 64-bit address and size: `pmm_init` leaves a sound state. Its first page is at the first page boundary
-- that is not below the address, or at 0 where the address is past the start of the last page of the address
-- space. It has as many whole pages as there are from there to the end of the memory, but 65536 at most, and none where
-- that end wraps around. Page 0 is reserved and every other page is free.
pub init_outcome :
    (s : Pmm) (base memory_size : ℕ)
    → base < 2 ^ 64
    → memory_size < 2 ^ 64
    → let s' = pmm_init s base memory_size in
      IsSound s'
      × StartsAt base s'.base
      × HasPages base memory_size s'.base s'.total_pages
      × ((p : ℕ) → p < s'.total_pages → status_of s' p ≡ first_status p)
init_outcome s base memory_size b m =
    let (sound, stands, at, counted) = init_lem s base memory_size in
    (
      sound,
      subst (StartsAt base) (sym at) (starts_at base b),
      subst (λ start. HasPages base memory_size start (pmm_init s base memory_size).total_pages)
          (sym at)
          (subst (HasPages base memory_size (bit_and (u64 (base + (page_bytes - 1))) page_mask))
            (sym counted)
            (has_pages base memory_size (bit_and (u64 (base + (page_bytes - 1))) page_mask) b m)),
      stands,
    )
