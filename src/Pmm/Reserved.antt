-- ===== src/Pmm/Reserved.antt =====
-- kernel/mm/pmm.c: `pmm_reserve_range` on any range of addresses.
use native.Mathlib.Decide.{ℕ_discrete}
use gnu_os.Base.{
  ℕ, zero, suc, ◌+◌, ◌-◌, ◌*◌, ◌/◌, ◌%◌, ◌^◌, ◌≤◌, ◌<◌, ◌≡◌, refl, sym, ◌∙◌, inl, inr, Bool, true,
  false, not, ◌&&◌, ◌||◌, Bool-cases, List, ◌==◌, ==_refl, leb, ltb, if◌then◌else◌, arith, u32, u64,
}
use gnu_os.Pmm.{Pmm, BlockState, page_bytes, update}
use gnu_os.Pmm.Blocks.{reserve_page}
use gnu_os.Pmm.Api.{aligned_end, pmm_reserve_range, reserve_pages}
use gnu_os.Pmm.Sound.{status_of, address_of, IsSound, settle}
use gnu_os.Pmm.Reserving.{reserve_status, reserve_page_lem}
use gnu_os.Pmm.Writes.{restate}
use gnu_os.Pmm.Taking.{SameMemory, SameMemory-trans, nowhere, Whole}
use gnu_os.Pmm.Masks.{bit_and-page_mask, aligned_end_lem, first_page_lem, last_page_lem}
use gnu_os.Pmm.Counts.{within}

-- What the loop of `pmm_reserve_range` makes of a status.
abbrev reserved_within : (page n : ℕ) → (ℕ → BlockState) → ℕ → BlockState
reserved_within page n status p = if within page n p then reserve_status (status p) else status p

reserved_next :
    (page n p : ℕ) (status : ℕ → BlockState)
    → reserved_within page (suc n) status p
      ≡ reserved_within (page + 1) n (update status page (reserve_status (status page))) p
reserved_next page n p status = elim (ℕ_discrete p page) [
  | yes e ↦
      let now : within page (suc n) p ≡ true = ground arith in
      let later : within (page + 1) n p ≡ false = ground arith in
      rw (now, later, e, ==_refl page) refl
  | no ne ↦
      let later : within page (suc n) p ≡ within (page + 1) n p = ground arith in
      let away : (p == page) ≡ false = ground arith in rw (later, away) refl
]

reserve_pages-Whole :
    (n page : ℕ) (s : Pmm) (lists : ℕ → List ℕ) (status : ℕ → BlockState)
    → Whole s lists status
    → page + n ≤ s.total_pages
    → SameMemory s (reserve_pages n page s)
      × (lists' : ℕ → List ℕ) × Whole
          (reserve_pages n page s)
          lists'
          (reserved_within page n status)
unfolding reserve_pages
reserve_pages-Whole zero page s lists status v fits = (
  record { total = refl; base = refl },
  lists,
  restate nowhere 0 s lists status (reserved_within page 0 status) v (λ p l q. ground arith),
)
reserve_pages-Whole (suc n) page s lists status v fits =
    let (answer, same, lists', w) = reserve_page_lem s lists status page v (omega arith) in
    let s' = (reserve_page s page).1 in
    let status' = update status page (reserve_status (status page)) in
    let (same', lists'', w') =
      reserve_pages-Whole n (page + 1) s' lists' status' w (omega (arith, same.total, fits)) in
    (
      SameMemory-trans s s' (reserve_pages n (page + 1) s') same same',
      lists'',
      restate nowhere 0 (reserve_pages n (page + 1) s') lists''
          (reserved_within (page + 1) n status') (reserved_within page (suc n) status) w'
          (λ p l q. reserved_next page n p status),
    )

-- Page `p` has an address in the `size` bytes from `base`.
abbrev pub overlaps : Pmm → (base size p : ℕ) → Bool
overlaps s base size p =
    not (size == 0)
    && (ltb base (address_of s p + page_bytes) && ltb (address_of s p) (base + size))

-- The pages from the first to the last one are those that overlap the range.
pages_overlap :
    (s : Pmm) (base size p : ℕ)
    → IsSound s
    → base < 2 ^ 64
    → size < 2 ^ 64
    → p < s.total_pages
    → s.base < aligned_end base size
    → 1 ≤ size
    → let start =
        if ltb (base - base % page_bytes) s.base then s.base else base - base % page_bytes in
      let pmm_end = s.base + s.total_pages * page_bytes in
      let stop = if ltb pmm_end (aligned_end base size) then pmm_end else aligned_end base size in
      (leb ((start - s.base) / page_bytes) p ≡ ltb base (address_of s p + page_bytes))
      × (ltb p ((stop - s.base) / page_bytes) ≡ ltb (address_of s p) (base + size))
pages_overlap s base size p v b z l after some_bytes =
    let (on_page, e) = aligned_end_lem base size b z in
    let end = aligned_end base size in
    (
      first_page_lem s.base base p v.aligned,
      elim e [
        | inl (over, close) ↦
            last_page_lem s.base s.total_pages end (base + size) p v.aligned on_page after l over
              close
        | inr (top, over) ↦
            let below : address_of s p < end = omega (arith, top, v.placed, v.aligned, l) in
            let low : ltb (address_of s p) end ≡ true = ground arith in
            let low' : ltb (address_of s p) (base + size) ≡ true = ground arith in
            last_page_lem s.base s.total_pages end end p v.aligned on_page after l (omega arith)
              (omega arith)
            ∙ low
            ∙ sym low'
      ],
    )

-- A range that ends before the memory or starts behind it overlaps no page.
outside_apart :
    (s : Pmm) (base size p : ℕ)
    → IsSound s
    → base < 2 ^ 64
    → size < 2 ^ 64
    → p < s.total_pages
    → (size == 0 || s.total_pages == 0) ≡ false
    → (leb (aligned_end base size) s.base
        || leb
            (s.base + s.total_pages * page_bytes)
            (if ltb (base - base % page_bytes) s.base then s.base else base - base % page_bytes))
      ≡ true
    → overlaps s base size p ≡ false
outside_apart s base size p v b z l asked outside =
    let (on_page, e) = aligned_end_lem base size b z in
    elim (Bool-cases (leb (aligned_end base size) s.base)) [
      | inl before ↦ elim e [
        | inl (over, close) ↦
            let high : ltb (address_of s p) (base + size) ≡ false = ground arith in
            ground (arith, high)
        | inr (top, over) ↦ absurd (ground (arith, v.placed, v.aligned, l, before, top))
      ]
      | inr later ↦
          let behind : leb (s.base + s.total_pages * page_bytes)
                (if ltb (base - base % page_bytes) s.base then s.base else base - base % page_bytes)
              ≡ true =
            ground (arith, outside, later) in
          let low : ltb base (address_of s p + page_bytes) ≡ false = ground (arith, l, behind) in
          ground (arith, low)
    ]

-- For every range of addresses, of any size and also past the end of the address space, and every sound
-- state: `pmm_reserve_range` makes the free pages that overlap the range reserved, changes the status of no
-- other page, and leaves a sound state.
pub reserve_range_outcome :
    (s : Pmm) (base size : ℕ)
    → IsSound s
    → base < 2 ^ 64
    → size < 2 ^ 64
    → IsSound (pmm_reserve_range s base size)
      × ((p : ℕ)
          → p < s.total_pages
          → status_of (pmm_reserve_range s base size) p
            ≡ (if overlaps s base size p then reserve_status (status_of s p) else status_of s p))
unfolding pmm_reserve_range
reserve_range_outcome s base size v b z = elim (Bool-cases (size == 0 || s.total_pages == 0)) [
  | inl none_asked ↦
      rw none_asked
        (v, λ p l. let apart : overlaps s base size p ≡ false = ground arith in rw apart refl)
  | inr asked ↦
      let word : u64 pmm_end ≡ pmm_end = omega (arith, v.placed) in
      let mask = bit_and-page_mask base b in
      rw (asked, word, mask)
        (elim (Bool-cases (leb end s.base || leb pmm_end start)) [
          | inl outside ↦ rw outside (
            v,
            λ p l.
                let apart : overlaps s base size p ≡ false =
                  outside_apart s base size p v b z l asked outside in
                rw apart refl,
          )
          | inr meets ↦
              let after : s.base < end = ground arith in
              let some_bytes : 1 ≤ size = ground arith in
              let few : s.total_pages ≤ 65536 = v.whole.blocks.bound in
              let first_word : u32 first ≡ first = ground arith in
              let last_word : u32 last ≡ last = ground arith in
              let (same, lists, w) =
                reserve_pages-Whole (last - first) first s v.lists (status_of s) v.whole
                  (ground arith) in
              let (sound, says) =
                settle s (reserve_pages (last - first) first s) lists
                  (reserved_within first (last - first) (status_of s)) v.placed v.aligned same w in
              rw (meets, first_word, last_word)
                (
                  sound,
                  λ p l.
                      let (f, g) = pages_overlap s base size p v b z l after some_bytes in
                      let hit : within first (last - first) p ≡ overlaps s base size p =
                        ground (arith, f, g, some_bytes) in
                      says p l ∙ rw hit refl,
                )
        ])
]
  where
    end : ℕ
    end = aligned_end base size

    pmm_end : ℕ
    pmm_end = s.base + s.total_pages * page_bytes

    start : ℕ
    start = if ltb (base - base % page_bytes) s.base then s.base else base - base % page_bytes

    first : ℕ
    first = (start - s.base) / page_bytes

    last : ℕ
    last = ((if ltb pmm_end end then pmm_end else end) - s.base) / page_bytes
