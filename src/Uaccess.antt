-- ===== src/Uaccess.antt =====
-- kernel/mm/uaccess.c: the test of a range of user memory, and the copies from and to it. Each byte is a
-- number; the memory is a function of the address.
pub mod Flags
pub mod Pages
pub mod Range
pub mod Copy
mod Tests
use gnu_os.Base.{
  ℕ, zero, suc, ◌+◌, ◌-◌, ◌/◌, ◌^◌, Bool, true, false, not, ◌&&◌, ◌||◌, Option, none, some, ℤ, pos,
  negsuc, neg, leb, ltb, ◌==◌, if◌then◌else◌, u64, bit_and,
}
use gnu_os.Pmm.{page_bytes, update}
use gnu_os.Pmm.Api.{page_mask}

-- `UACCESS_USER_MAX_VA`
abbrev pub user_max_va : ℕ
user_max_va = 2 ^ 47 - 1

-- `VMM_MAP_WRITABLE`
abbrev pub map_writable : ℕ
map_writable = 2

-- `VMM_MAP_USER`
abbrev pub map_user : ℕ
map_user = 4

-- The loop of both copies: rounds left, then the index.
unfoldable pub copy_from : ℕ → ℕ → (memory : ℕ → ℕ) → (dst src : ℕ) → ℕ → ℕ
copy_from zero index memory dst src = memory
copy_from (suc n) index memory dst src =
    copy_from n (index + 1) (update memory (dst + index) (memory (src + index))) dst src

-- What `vmm_query_mapping` answers for a page: nothing, or the flags of its mapping.
module _ (query_mapping : ℕ → Option ℕ) where
  -- The tests of one page.
  unfoldable pub page_allowed : (require_write : Bool) → (page_addr : ℕ) → Bool
  page_allowed require_write page_addr = elim (query_mapping page_addr) [
    | none ↦ false
    | some flags ↦
        not (bit_and flags map_user == 0)
        && not (require_write && (bit_and flags map_writable == 0))
  ]

  -- The loop over the pages, on the rounds that are left.
  unfoldable pub pages_allowed_from : ℕ → (require_write : Bool) → (page_addr last_page : ℕ) → Bool
  pages_allowed_from zero require_write page_addr last_page = false
  pages_allowed_from (suc n) require_write page_addr last_page =
      let rest = pages_allowed_from n require_write (u64 (page_addr + page_bytes)) last_page in
      if not (page_allowed require_write page_addr)
      then false
      else if page_addr == last_page
      then true
      else rest

  -- The part of `uaccess_validate_range` for the first and the last address.
  unfoldable pub validate_pages : (require_write : Bool) → (user_addr end_addr : ℕ) → Bool
  validate_pages require_write user_addr end_addr =
      let page_addr = bit_and user_addr page_mask in
      let last_page = bit_and end_addr page_mask in
      pages_allowed_from (suc ((last_page - page_addr) / page_bytes)) require_write page_addr
        last_page

  -- The size is not 0 where 1 is taken off.
  unfoldable pub validate_range : (user_addr size : ℕ) → (require_write : Bool) → Bool
  validate_range user_addr size require_write =
      let end_addr = u64 (user_addr + (size - 1)) in
      if size == 0
      then true
      else if user_addr == 0 || ltb user_max_va user_addr
      then false
      else if ltb end_addr user_addr || ltb user_max_va end_addr
      then false
      else validate_pages require_write user_addr end_addr

  unfoldable pub validate_read : (user_addr size : ℕ) → Bool
  validate_read user_addr size = validate_range user_addr size false

  unfoldable pub validate_write : (user_addr size : ℕ) → Bool
  validate_write user_addr size = validate_range user_addr size true

  -- A `dst` of 0 is `NULL`.
  unfoldable pub copy_from_user : (memory : ℕ → ℕ) → (dst user_src size : ℕ) → ℤ × (ℕ → ℕ)
  copy_from_user memory dst user_src size =
      if dst == 0
      then (neg 1, memory)
      else if not (validate_read user_src size)
      then (neg 1, memory)
      else (pos 0, copy_from size 0 memory dst user_src)

  -- A `src` of 0 is `NULL`.
  unfoldable pub copy_to_user : (memory : ℕ → ℕ) → (user_dst src size : ℕ) → ℤ × (ℕ → ℕ)
  copy_to_user memory user_dst src size =
      if src == 0
      then (neg 1, memory)
      else if not (validate_write user_dst size)
      then (neg 1, memory)
      else (pos 0, copy_from size 0 memory user_dst src)
