-- ===== src/Pmm.antt =====
-- kernel/mm/pmm.c: the buddy allocator of physical pages. Its arrays have 65536 places, and are functions
-- here: the code reads and writes only places below the number of pages. The log lines are left out.
use gnu_os.Base.{
  ℕ, zero, suc, ◌+◌, ◌-◌, ◌*◌, ◌/◌, ◌%◌, ◌^◌, Bool, true, false, not, ◌&&◌, ◌||◌, Option, none,
  some, List, [], ◌∷◌, leb, ltb, ◌==◌, if◌then◌else◌, bit_and,
}
use Prim.Native.Nat.{bit_xor}
pub mod Buddies
pub mod FreeList
pub mod Counts
pub mod Partition
pub mod Links
pub mod Divided
pub mod Closing
pub mod Blocks
pub mod Taking
pub mod Writes
pub mod Merging
pub mod Reserving
pub mod Ranges
pub mod Api
pub mod Sound
pub mod Pages
pub mod Returns
pub mod Masks
pub mod Initial
pub mod Reserved
pub mod History
pub mod Tests

-- `PMM_MAX_PAGES`, `PMM_MAX_ORDER`, `PMM_INVALID_INDEX` and `MM_PAGE_SIZE`
abbrev pub max_pages : ℕ
max_pages = 65536

abbrev pub max_order : ℕ
max_order = 16

abbrev pub invalid_index : ℕ
invalid_index = 4294967295

abbrev pub page_bytes : ℕ
page_bytes = 4096

-- `PMM_BLOCK_UNUSED`, `PMM_BLOCK_FREE`, `PMM_BLOCK_ALLOCATED`, `PMM_BLOCK_RESERVED`
pub data BlockState : Type 0 where
  unused free allocated reserved : BlockState

-- The static variables of pmm.c.
pub record Pmm : Type 0 where
  pub free_heads : ℕ → ℕ
  pub free_next : ℕ → ℕ
  pub free_prev : ℕ → ℕ
  pub page_owner : ℕ → ℕ
  pub block_state : ℕ → BlockState
  pub block_order : ℕ → ℕ
  pub base : ℕ
  pub total_pages : ℕ
  pub free_pages : ℕ

-- A write to an array.
abbrev pub update {ℓ} : {A : Type ℓ} → (ℕ → A) → ℕ → A → ℕ → A
update f i v j = if j == i then v else f j

abbrev pub is_free : BlockState → Bool
is_free free = true
is_free _ = false

abbrev pub is_allocated : BlockState → Bool
is_allocated allocated = true
is_allocated _ = false

abbrev pub is_reserved : BlockState → Bool
is_reserved reserved = true
is_reserved _ = false

-- The orders are 16 at most, so the shift does not leave 32 bits.
unfoldable pub block_pages : ℕ → ℕ
block_pages order = 2 ^ order

-- Rounds left, then the order so far.
unfoldable pub max_order_from : ℕ → ℕ → ℕ → ℕ
max_order_from zero order pages = order
max_order_from (suc n) order pages =
    if ltb pages (block_pages (order + 1)) then order else max_order_from n (order + 1) pages

unfoldable pub max_order_for_pages : ℕ → ℕ
max_order_for_pages pages = max_order_from max_order 0 pages

-- `reset_allocator_state`
unfoldable pub reset : Pmm → Pmm
reset s = record s {
  free_heads = λ order. invalid_index;
  free_next = λ page. invalid_index;
  free_prev = λ page. invalid_index;
  page_owner = λ page. invalid_index;
  block_state = λ page. unused;
  block_order = λ page. 0;
}

-- Rounds left, then the index.
unfoldable pub mark_from : ℕ → ℕ → ℕ → (ℕ → ℕ) → ℕ → ℕ
mark_from zero i start_page owner = owner
mark_from (suc n) i start_page owner =
    mark_from n (i + 1) start_page (update owner (start_page + i) start_page)

unfoldable pub mark_block_owner : Pmm → (start_page order : ℕ) → Pmm
mark_block_owner s start_page order = record s {
  page_owner = mark_from (block_pages order) 0 start_page s.page_owner;
}

unfoldable pub set_block : Pmm → (start_page order : ℕ) → BlockState → Pmm
set_block s start_page order state =
    let s' = mark_block_owner s start_page order in
    record s' {
      block_order = update s'.block_order start_page order;
      block_state = update s'.block_state start_page state;
    }

unfoldable pub clear_block_head : Pmm → ℕ → Pmm
clear_block_head s start_page = record s {
  block_order = update s.block_order start_page 0;
  block_state = update s.block_state start_page unused;
}

unfoldable pub free_list_push : Pmm → (order start_page : ℕ) → Pmm
free_list_push s order start_page =
    let head = s.free_heads order in
    let prev = update s.free_prev start_page invalid_index in
    record s {
      free_next = update s.free_next start_page head;
      free_prev = if head == invalid_index then prev else update prev head start_page;
      free_heads = update s.free_heads order start_page;
    }

unfoldable pub free_list_remove : Pmm → (order start_page : ℕ) → Pmm
free_list_remove s order start_page =
    let prev = s.free_prev start_page in
    let next = s.free_next start_page in
    record s {
      free_next =
          update (if prev == invalid_index then s.free_next else update s.free_next prev next)
            start_page invalid_index;
      free_heads = if prev == invalid_index then update s.free_heads order next else s.free_heads;
      free_prev =
          update (if next == invalid_index then s.free_prev else update s.free_prev next prev)
            start_page invalid_index;
    }

-- The number of free pages stays below 2^64 both ways.
unfoldable pub add_free_block : Pmm → (start_page order : ℕ) → Pmm
add_free_block s start_page order =
    let s' = free_list_push (set_block s start_page order free) order start_page in
    record s' { free_pages = (s'.free_pages + block_pages order) % 2 ^ 64 }

unfoldable pub remove_free_block : Pmm → ℕ → Pmm
remove_free_block s start_page =
    let order = s.block_order start_page in
    let s' = free_list_remove s order start_page in
    clear_block_head
      (record s' { free_pages = (s'.free_pages + 2 ^ 64 - block_pages order) % 2 ^ 64 }) start_page
