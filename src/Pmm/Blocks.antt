-- ===== src/Pmm/Blocks.antt =====
-- kernel/mm/pmm.c: `alloc_block`, `free_block`, `reserve_page` and `add_free_range`, which split and
-- merge blocks.
use gnu_os.Base.{
  ℕ, zero, suc, ◌+◌, ◌-◌, not, ◌||◌, Option, none, some, leb, ltb, ◌==◌, if◌then◌else◌, bit_and,
}
use Prim.Native.Nat.{bit_xor}
use gnu_os.Pmm.{
  Pmm, max_order, invalid_index, free, allocated, reserved, is_free, is_reserved, block_pages,
  max_order_for_pages, set_block, clear_block_head, add_free_block, remove_free_block,
}

-- The loop that splits a block: rounds left, which are the orders above the target.
unfoldable pub split_from : ℕ → (block target_order : ℕ) → Pmm → Pmm
split_from zero block target_order s = s
split_from (suc n) block target_order s =
    split_from n block target_order
      (add_free_block s (block + block_pages (target_order + n)) (target_order + n))

-- The loop of `alloc_block`: rounds left, then the order. `none` is `PMM_INVALID_INDEX`.
unfoldable pub alloc_from : ℕ → (order target_order : ℕ) → Pmm → Option ℕ × Pmm
alloc_from zero order target_order s = (none, s)
alloc_from (suc n) order target_order s =
    let block = s.free_heads order in
    let rest = alloc_from n (order + 1) target_order s in
    if block == invalid_index then rest else (
      some block,
      set_block (split_from (order - target_order) block target_order (remove_free_block s block))
          block target_order allocated,
    )

unfoldable pub alloc_block : Pmm → ℕ → Option ℕ × Pmm
alloc_block s target_order = alloc_from (max_order + 1 - target_order) target_order target_order s

-- The loop of `free_block`: rounds left, which are the orders above the current one.
unfoldable pub merge_from : ℕ → (current current_order : ℕ) → Pmm → ℕ × ℕ × Pmm
merge_from zero current current_order s = (current, current_order, s)
merge_from (suc n) current current_order s =
    let buddy = bit_xor current (block_pages current_order) in
    let lower = if ltb buddy current then buddy else current in
    let s' = clear_block_head (clear_block_head (remove_free_block s buddy) current) buddy in
    let rest =
      merge_from n lower (current_order + 1) (set_block s' lower (current_order + 1) free) in
    if leb s.total_pages buddy
      || (not (is_free (s.block_state buddy)) || not (s.block_order buddy == current_order))
    then (current, current_order, s)
    else rest

unfoldable pub free_block : Pmm → (start_page order : ℕ) → Pmm
free_block s start_page order =
    let (current, current_order, s') =
      merge_from (max_order - order) start_page order (set_block s start_page order free) in
    add_free_block s' current current_order

-- The loop of `reserve_page`, on the order: the block that holds the page is halved.
unfoldable pub narrow_to : (order current page : ℕ) → Pmm → ℕ × Pmm
narrow_to zero current page s = (current, s)
narrow_to (suc child_order) current page s =
    let buddy = current + block_pages child_order in
    let low = ltb page buddy in
    let s' = add_free_block s (if low then buddy else current) child_order in
    let kept = if low then current else buddy in
    narrow_to child_order kept page (set_block s' kept child_order allocated)

unfoldable pub reserve_page : Pmm → ℕ → ℕ × Pmm
reserve_page s page =
    let head = s.page_owner page in
    let (current, s') = narrow_to (s.block_order head) head page (remove_free_block s head) in
    if leb s.total_pages page || head == invalid_index
    then (0, s)
    else if is_reserved (s.block_state head)
    then (1, s)
    else if is_free (s.block_state head)
    then (1, set_block s' current 0 reserved)
    else (0, s)

-- The inner loop of `add_free_range`, on the order.
unfoldable pub aligned_order : ℕ → ℕ → ℕ
aligned_order zero page = 0
aligned_order (suc order) page =
    if bit_and page (block_pages (suc order) - 1) == 0 then suc order else aligned_order order page

-- Its outer loop: rounds left.
unfoldable pub add_range_from : ℕ → (page remaining : ℕ) → Pmm → Pmm
add_range_from zero page remaining s = s
add_range_from (suc n) page remaining s =
    let order = aligned_order (max_order_for_pages remaining) page in
    let rest =
      add_range_from n (page + block_pages order) (remaining - block_pages order)
        (add_free_block s page order) in
    if remaining == 0 then s else rest

-- Each round takes a page at least, so as many rounds as pages are enough.
unfoldable pub add_free_range : Pmm → (start_page page_count : ℕ) → Pmm
add_free_range s start_page page_count = add_range_from page_count start_page page_count s
