-- ===== src/Pmm/Ranges.antt =====
-- kernel/mm/pmm.c: `add_free_range` covers a range of pages by free blocks.
use gnu_os.Base.{
  ℕ, zero, suc, ◌+◌, ◌-◌, ◌≤◌, ◌≡◌, refl, sym, ◌∙◌, subst, inl, inr, true, false, not, ◌&&◌,
  Bool-cases, List, [], ◌∷◌, ◌==◌, ltb, arith, bit_and,
}
use gnu_os.Pmm.{
  Pmm, BlockState, free, max_pages, max_order, update, block_pages, add_free_block, max_order_from,
  max_order_for_pages, reset,
}
use gnu_os.Pmm.Blocks.{aligned_order, add_range_from, add_free_range}
use gnu_os.Pmm.Buddies.{block_pages-positive, block_pages-zero, block_pages_mono}
use gnu_os.Pmm.Counts.{within, count_below_none}
use gnu_os.Pmm.Divided.{Divided}
use gnu_os.Pmm.Closing.{close_free}
use gnu_os.Pmm.Taking.{
  SameMemory, SameMemory-trans, add_free_block-SameMemory, unchanged, any_exempt, Whole,
}

max_order_from-fits :
    (n order pages : ℕ)
    → block_pages order ≤ pages
    → order + n ≤ max_order
    → (block_pages (max_order_from n order pages) ≤ pages)
      × (max_order_from n order pages ≤ max_order)
unfolding max_order_from
max_order_from-fits zero order pages fits low = (fits, omega arith)
max_order_from-fits (suc n) order pages fits low =
    elim (Bool-cases (ltb pages (block_pages (order + 1)))) [
      | inl e ↦ rw e (fits, omega arith)
      | inr e ↦ rw e (max_order_from-fits n (order + 1) pages (ground arith) (omega arith))
    ]

aligned_order-le : (order page : ℕ) → aligned_order order page ≤ order
unfolding aligned_order
aligned_order-le zero page = omega arith
aligned_order-le (suc order) page =
    elim (Bool-cases (bit_and page (block_pages (suc order) - 1) == 0)) [
      | inl e ↦ rw e (omega arith)
      | inr e ↦ rw e (omega (arith, aligned_order-le order page))
    ]

-- The order chosen for the next block leaves the block inside the range.
chosen_fits :
    (page remaining : ℕ)
    → 1 ≤ remaining
    → (block_pages (aligned_order (max_order_for_pages remaining) page) ≤ remaining)
      × (aligned_order (max_order_for_pages remaining) page ≤ max_order)
unfolding max_order_for_pages
chosen_fits page remaining some_left =
    let (fits, low) =
      max_order_from-fits max_order 0 remaining (omega (arith, block_pages-zero)) (omega arith) in
    let le = aligned_order-le (max_order_for_pages remaining) page in
    (
      omega (
        arith,
        fits,
        block_pages_mono (aligned_order (max_order_for_pages remaining) page)
            (max_order_for_pages remaining) le,
      ),
      omega (arith, le, low),
    )

abbrev pub all_free : ℕ → BlockState
all_free p = free

-- A range without pages is no hole.
pub no_hole :
    (page remaining : ℕ) (s : Pmm) (lists : ℕ → List ℕ)
    → remaining ≡ 0
    → Divided (within page remaining) page s lists all_free
    → Whole s lists all_free
no_hole page remaining s lists e v =
    let same : (p : ℕ) → within page remaining p ≡ false = λ p. ground (arith, e) in
    any_exempt page 0 s lists all_free
      (subst (λ f. Divided f page s lists all_free) (λ i p. same p i) v)

-- The rest of the range is out until the loop has come to it.
add_range_from-Whole :
    (n page remaining : ℕ) (s : Pmm) (lists : ℕ → List ℕ)
    → remaining ≤ n
    → Divided (within page remaining) page s lists all_free
    → SameMemory s (add_range_from n page remaining s)
      × (lists' : ℕ → List ℕ) × Whole (add_range_from n page remaining s) lists' all_free
unfolding add_range_from
add_range_from-Whole zero page remaining s lists enough v =
    (record { total = refl; base = refl }, lists, no_hole page remaining s lists (omega arith) v)
add_range_from-Whole (suc n) page remaining s lists enough v = elim (Bool-cases (remaining == 0)) [
  | inl e ↦
      rw e (
        record { total = refl; base = refl },
        lists,
        no_hole page remaining s lists (ground arith) v,
      )
  | inr e ↦
      let (fits, low) = chosen_fits page remaining (ground arith) in
      let k = aligned_order (max_order_for_pages remaining) page in
      let m = block_pages k in
      let s' = add_free_block s page k in
      let next : Divided (within (page + m) (remaining - m)) (page + m) s'
          (update lists k (page ∷ lists k)) all_free =
        close_free (within page remaining) (within (page + m) (remaining - m)) page (page + m) s
          lists all_free all_free page k free v refl low (λ held. absurd (ground arith))
          (λ p q. ground (arith, fits, q)) (λ p. ground (arith, fits)) (λ p q ne gone. ne)
          (λ p. unchanged (within page m p) free free (λ q. refl)) refl in
      let (same, lists', w) =
        add_range_from-Whole n (page + m) (remaining - m) s' (update lists k (page ∷ lists k))
          (omega (arith, block_pages-positive k)) next in
      rw e (
        SameMemory-trans s s' (add_range_from n (page + m) (remaining - m) s')
            (add_free_block-SameMemory s page k) same,
        lists',
        w,
      )
]

-- All pages are out after `reset_allocator_state`.
pub reset-Divided :
    (s : Pmm)
    → s.total_pages ≤ max_pages
    → s.free_pages ≡ 0
    → Divided (within 0 s.total_pages) 0 (reset s) (λ k. []) all_free
unfolding reset
reset-Divided s bound none_free = record {
  blocks = record {
    bound = bound;
    inside = λ p q. ground arith;
    empty = λ p q ne. refl;
    small = λ h q. absurd (ground arith);
    single = λ h q held. absurd (ground arith);
    fits = λ h q. absurd (ground arith);
    owned = λ h p q w. absurd (ground arith);
    covered = λ p l q. absurd (ground arith);
    stands = λ p l q. absurd (ground arith);
  };
  listed = λ k p. ground arith;
  chained = λ k. refl;
  counted =
      none_free
      ∙ sym (
          count_below_none (λ p. not (within 0 s.total_pages p) && true) s.total_pages
            (λ p l. ground arith));
}

-- After `reset_allocator_state`, `add_free_range` makes all pages free.
pub add_free_range-Whole :
    (s : Pmm)
    → s.total_pages ≤ max_pages
    → s.free_pages ≡ 0
    → SameMemory (reset s) (add_free_range (reset s) 0 s.total_pages)
      × (lists : ℕ → List ℕ) × Whole (add_free_range (reset s) 0 s.total_pages) lists all_free
unfolding add_free_range
add_free_range-Whole s bound none_free =
    add_range_from-Whole s.total_pages 0 s.total_pages (reset s) (λ k. []) (omega arith)
      (reset-Divided s bound none_free)
