-- ===== src/Pmm/Api.antt =====
-- kernel/mm/pmm.c: the calls of the physical page allocator. Addresses and sizes are `uint64_t`.
use gnu_os.Base.{
  ℕ, zero, suc, ◌+◌, ◌-◌, ◌*◌, ◌/◌, ◌%◌, ◌^◌, not, ◌||◌, Option, none, some, leb, ltb, ◌==◌,
  if◌then◌else◌, bit_and, u32, u64,
}
use gnu_os.Pmm.{Pmm, max_pages, page_bytes, is_allocated, reset, clear_block_head}
use gnu_os.Pmm.Blocks.{alloc_block, free_block, reserve_page, add_free_range}

-- `~(MM_PAGE_SIZE - 1ULL)`
abbrev pub page_mask : ℕ
page_mask = 2 ^ 64 - page_bytes

-- `UINT64_MAX`
abbrev pub u64_max : ℕ
u64_max = 2 ^ 64 - 1

-- The number of whole pages from `base`, which is aligned, to the end of the memory.
unfoldable pub count_pages : (base end aligned : ℕ) → ℕ
count_pages base end aligned =
    let pages = if ltb end base || leb end aligned then 0 else (end - aligned) / page_bytes in
    if ltb max_pages pages then max_pages else pages

unfoldable pub pmm_init : Pmm → (base memory_size : ℕ) → Pmm
pmm_init s base memory_size =
    let end = u64 (base + memory_size) in
    let aligned = bit_and (u64 (base + (page_bytes - 1))) page_mask in
    let total = count_pages base end aligned in
    let s' = reset (record s { base = aligned; total_pages = total; free_pages = 0 }) in
    if total == 0 then s' else (reserve_page (add_free_range s' 0 (u32 total)) 0).1

-- The address of the block that was found. `none` is `NULL`.
abbrev pub answer_page : Option ℕ × Pmm → Option ℕ × Pmm
answer_page (none, s) = (none, s)
answer_page (some block, s) = (some (u64 (s.base + block * page_bytes)), s)

unfoldable pub pmm_alloc_page : Pmm → Option ℕ × Pmm
pmm_alloc_page s = answer_page (alloc_block s 0)

unfoldable pub pmm_free_page : Pmm → ℕ → Pmm
pmm_free_page s addr =
    let diff = addr - s.base in
    let page = diff / page_bytes in
    if s.total_pages == 0 || ltb addr s.base
    then s
    else if not (diff % page_bytes == 0) || leb s.total_pages page
    then s
    else if not (is_allocated (s.block_state page)) || not (s.block_order page == 0)
    then s
    else free_block (clear_block_head s page) page 0

-- The loop of `pmm_reserve_range`: rounds left, then the page.
unfoldable pub reserve_pages : ℕ → ℕ → Pmm → Pmm
reserve_pages zero page s = s
reserve_pages (suc n) page s = reserve_pages n (page + 1) (reserve_page s page).1

-- `aligned_end`: the end of the range, which stops at the end of the address space, rounded up.
unfoldable pub aligned_end : (base size : ℕ) → ℕ
aligned_end base size =
    let sum = u64 (base + size) in
    let end = if ltb sum base then u64_max else sum in
    if ltb (u64_max - (page_bytes - 1)) end
    then bit_and u64_max page_mask
    else bit_and (u64 (end + (page_bytes - 1))) page_mask

unfoldable pub pmm_reserve_range : Pmm → (base size : ℕ) → Pmm
pmm_reserve_range s base size =
    let aligned_start = bit_and base page_mask in
    let start = if ltb aligned_start s.base then s.base else aligned_start in
    let pmm_end = u64 (s.base + s.total_pages * page_bytes) in
    let end = aligned_end base size in
    let stop = if ltb pmm_end end then pmm_end else end in
    let first_page = u32 ((start - s.base) / page_bytes) in
    let last_page = u32 ((stop - s.base) / page_bytes) in
    if size == 0 || s.total_pages == 0
    then s
    else if leb end s.base || leb pmm_end start
    then s
    else reserve_pages (last_page - first_page) first_page s
