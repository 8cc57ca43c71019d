-- ===== src/Pmm/Sound.antt =====
-- kernel/mm/pmm.c: the allocator between calls, when every page is in a block.
use native.Mathlib.Decide.{ℕ_discrete}
use gnu_os.Base.{
  ◌%◌, ℕ, ◌+◌, ◌*◌, ◌^◌, ◌≤◌, ◌<◌, ◌≡◌, ◌≢◌, refl, ap, ◌∙◌, inl, inr, true, Bool-cases, List, ◌==◌,
  ==_refl, if◌then◌else◌, arith,
}
use gnu_os.Base.Occurs.{occurs}
use gnu_os.Pmm.{Pmm, BlockState, page_bytes, max_order, invalid_index, is_free, block_pages}
use gnu_os.Pmm.Buddies.{block_pages-zero}
use gnu_os.Pmm.Counts.{within, count_below_none}
use gnu_os.Pmm.FreeList.{first_cases, member_valid}
use gnu_os.Pmm.Writes.{restate}
use gnu_os.Pmm.Taking.{SameMemory, nowhere, Whole}

-- The state of the block that a page is in.
abbrev pub status_of : Pmm → ℕ → BlockState
status_of s page = s.block_state (s.page_owner page)

abbrev pub address_of : Pmm → ℕ → ℕ
address_of s page = s.base + page * page_bytes

-- Between calls: the blocks hold every page once, the blocks that are not free are single pages, the list
-- of each order holds its free blocks, the count is that of the free pages, no address wraps, and the base
-- is the address of a page.
pub record IsSound (s : Pmm) : Type 0 where
  pub lists : ℕ → List ℕ
  pub whole : Whole s lists (status_of s)
  pub placed : address_of s s.total_pages < 2 ^ 64
  pub aligned : s.base % page_bytes ≡ 0

-- A call that keeps the memory leaves a sound state with the statuses it is said to leave.
pub settle :
    (s s' : Pmm) (lists : ℕ → List ℕ) (status : ℕ → BlockState)
    → address_of s s.total_pages < 2 ^ 64
    → s.base % page_bytes ≡ 0
    → SameMemory s s'
    → Whole s' lists status
    → IsSound s' × ((p : ℕ) → p < s.total_pages → status_of s' p ≡ status p)
settle s s' lists status placed aligned same v =
    let says : (p : ℕ) → p < s'.total_pages → status_of s' p ≡ status p =
      λ p l. v.blocks.stands p l refl in
    (
      record {
        lists = lists;
        whole = restate nowhere 0 s' lists status (status_of s') v (λ p l q. says p l);
        placed = omega (arith, same.total, same.base, placed);
        aligned = omega (arith, same.base, aligned);
      },
      λ p l. says p (omega (arith, same.total)),
    )

-- The block of order 0 is its page.
pub page_only :
    (page p : ℕ) (st before : BlockState)
    → (if within page (block_pages 0) p then st else before) ≡ (if p == page then st else before)
page_only page p st before = elim (ℕ_discrete p page) [
  | yes same ↦ ground (arith, block_pages-zero)
  | no ne ↦ ground (arith, block_pages-zero)
]

-- Where no list holds a block, no page is free.
module _ (s : Pmm) (lists : ℕ → List ℕ) (status : ℕ → BlockState) (v : Whole s lists status) where
  free_in_list :
      (p : ℕ)
      → p < s.total_pages
      → is_free (status p) ≡ true
      → (k : ℕ) × (k ≤ max_order) × (s.free_heads k ≢ invalid_index)
  free_in_list p l is =
      let head = s.page_owner p in
      let k = s.block_order head in
      let (first, here) = v.blocks.covered p l refl in
      let state : is_free (s.block_state head) ≡ true =
        ap is_free (v.blocks.stands p l refl) ∙ is in
      let there : occurs head (lists k) ≢ 0 =
        ground (arith, v.listed k head, first, state, ==_refl k) in
      (
        k,
        v.blocks.small head first,
        λ e.
            elim (first_cases s.free_next s.free_prev invalid_index (s.free_heads k) (lists k)
              (v.chained k)) [
                | inl (stop, none_left) ↦ there (ap (occurs head) none_left)
                | inr (more, back) ↦
                    member_valid s.free_next s.free_prev invalid_index (s.free_heads k) (lists k)
                      (s.free_heads k) (v.chained k) more e
              ],
      )

  pub none_left : ((k : ℕ) → k ≤ max_order → s.free_heads k ≡ invalid_index) → s.free_pages ≡ 0
  none_left empty =
      v.counted
      ∙ count_below_none (λ p. is_free (status p)) s.total_pages
          λ p l. elim (Bool-cases (is_free (status p))) [
            | inl is ↦ let (k, low, ne) = free_in_list p l is in absurd (ne (empty k low))
            | inr out ↦ out
          ]
