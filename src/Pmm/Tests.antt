-- ===== src/Pmm/Tests.antt =====
-- Tests of the page allocator on a memory of 13 pages, and the witnesses of its properties.
use gnu_os.Base.{ℕ, ◌<◌, ◌≡◌, refl, some, [], ◌∷◌, arith, ◌==◌, if◌then◌else◌}
use gnu_os.Pmm.{
  Pmm, unused, free, reserved, max_order_for_pages, max_order_from, reset, mark_from,
  mark_block_owner, set_block, clear_block_head, free_list_push, free_list_remove, add_free_block,
  remove_free_block, block_pages,
}
use gnu_os.Pmm.Blocks.{
  split_from, alloc_from, alloc_block, merge_from, free_block, narrow_to, reserve_page,
  aligned_order, add_range_from, add_free_range,
}
use gnu_os.Pmm.Api.{count_pages, pmm_init, pmm_alloc_page, pmm_free_page, pmm_reserve_range}
use gnu_os.Pmm.Sound.{status_of, IsSound}
use gnu_os.Pmm.Pages.{AllocAnswers, alloc_page_outcome}
use gnu_os.Pmm.Returns.{FreeAnswers, free_page_outcome, alloc_free_page}
use gnu_os.Pmm.Initial.{StartsAt, HasPages, init_outcome}
use gnu_os.Pmm.Reserved.{overlaps, reserve_range_outcome}
use gnu_os.Pmm.Reserving.{reserve_status}
use gnu_os.Pmm.History.{alloc_page, free_page, reserve_range, run, history-IsSound}

-- What the static variables hold before `pmm_init`.
abbrev zeroed : Pmm
zeroed = record {
  free_heads = λ i. 0;
  free_next = λ i. 0;
  free_prev = λ i. 0;
  page_owner = λ i. 0;
  block_state = λ i. unused;
  block_order = λ i. 0;
  base = 0;
  total_pages = 0;
  free_pages = 0;
}

-- 13 whole pages from 0x1000 on.
small : Pmm
small = pmm_init zeroed 100 57444

small_free : small.free_pages ≡ 12
unfolding small pmm_init count_pages reset add_free_range add_range_from aligned_order
    max_order_for_pages max_order_from block_pages add_free_block set_block mark_block_owner
    mark_from free_list_push reserve_page remove_free_block free_list_remove clear_block_head
    narrow_to
small_free = refl

small_lists : (small.free_heads 0 ≡ 1) × (small.free_heads 1 ≡ 2) × (small.free_heads 2 ≡ 4)
unfolding small pmm_init count_pages reset add_free_range add_range_from aligned_order
    max_order_for_pages max_order_from block_pages add_free_block set_block mark_block_owner
    mark_from free_list_push reserve_page remove_free_block free_list_remove clear_block_head
    narrow_to
small_lists = (refl, refl, refl)

-- The first page handed out is page 1, at 0x2000.
small_alloc : (pmm_alloc_page small).0 ≡ some 8192
unfolding small pmm_init count_pages reset add_free_range add_range_from aligned_order
    max_order_for_pages max_order_from block_pages add_free_block set_block mark_block_owner
    mark_from free_list_push reserve_page remove_free_block free_list_remove clear_block_head
    narrow_to pmm_alloc_page alloc_block alloc_from split_from
small_alloc = refl

-- Giving it back leaves the lists as they were.
small_back :
    let s = pmm_free_page (pmm_alloc_page small).1 8192 in
    (s.free_pages ≡ 12) × (s.free_heads 0 ≡ 1) × (s.free_next 1 ≡ 12)
unfolding small pmm_init count_pages reset add_free_range add_range_from aligned_order
    max_order_for_pages max_order_from block_pages add_free_block set_block mark_block_owner
    mark_from free_list_push reserve_page remove_free_block free_list_remove clear_block_head
    narrow_to pmm_alloc_page alloc_block alloc_from split_from pmm_free_page free_block merge_from
small_back = (refl, refl, refl)

small-IsSound : IsSound small
unfolding small
small-IsSound = (init_outcome zeroed 100 57444 (omega arith) (omega arith)).0

init_outcome_example :
    let s' = pmm_init zeroed 100 57444 in
    IsSound s'
    × StartsAt 100 s'.base
    × HasPages 100 57444 s'.base s'.total_pages
    × ((p : ℕ) → p < s'.total_pages → status_of s' p ≡ (if p == 0 then reserved else free))
init_outcome_example = init_outcome zeroed 100 57444 (omega arith) (omega arith)

alloc_page_outcome_example : AllocAnswers small (pmm_alloc_page small)
alloc_page_outcome_example = alloc_page_outcome small small-IsSound

-- Two pages taken.
two_taken : Pmm
two_taken = run (pmm_init zeroed 100 57444) (alloc_page ∷ alloc_page ∷ [])

two_taken-IsSound : IsSound two_taken
unfolding two_taken
two_taken-IsSound = history-IsSound zeroed 100 57444 (alloc_page ∷ alloc_page ∷ []) tt

free_page_outcome_example : FreeAnswers two_taken 8192 (pmm_free_page two_taken 8192)
free_page_outcome_example = free_page_outcome two_taken 8192 two_taken-IsSound

alloc_free_page_example :
    ((pmm_free_page (pmm_alloc_page small).1 8192).free_pages ≡ small.free_pages)
    × ((p : ℕ)
        → p < small.total_pages
        → status_of (pmm_free_page (pmm_alloc_page small).1 8192) p ≡ status_of small p)
alloc_free_page_example = alloc_free_page small 8192 small-IsSound small_alloc

reserve_range_outcome_example :
    IsSound (pmm_reserve_range small 9000 5000)
    × ((p : ℕ)
        → p < small.total_pages
        → status_of (pmm_reserve_range small 9000 5000) p ≡ (
            if overlaps small 9000 5000 p
            then reserve_status (status_of small p)
            else status_of small p))
reserve_range_outcome_example =
    reserve_range_outcome small 9000 5000 small-IsSound (omega arith) (omega arith)

history-IsSound_example : IsSound (
    run
      (pmm_init zeroed 100 57444)
      (alloc_page ∷ reserve_range 9000 5000 ∷ free_page 8192 ∷ free_page 77 ∷ []))
history-IsSound_example =
    history-IsSound zeroed 100 57444
      (alloc_page ∷ reserve_range 9000 5000 ∷ free_page 8192 ∷ free_page 77 ∷ [])
      (omega arith, omega arith, tt)
