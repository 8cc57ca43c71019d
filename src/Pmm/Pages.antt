-- ===== src/Pmm/Pages.antt =====
-- kernel/mm/pmm.c: what `pmm_alloc_page` answers and changes, and how a page is given back.
use gnu_os.Base.{
  ℕ, ◌+◌, ◌*◌, ◌<◌, ◌≡◌, ◌≢◌, refl, sym, ap, ◌∙◌, ◌⊎◌, inl, inr, true, false, Option, none, some,
  ◌==◌, ==_refl, if◌then◌else◌, arith,
}
use gnu_os.Pmm.{
  Pmm, BlockState, free, allocated, update, is_free, is_allocated, block_pages, clear_block_head,
}
use gnu_os.Pmm.Blocks.{free_block}
use gnu_os.Pmm.Api.{answer_page, pmm_alloc_page}
use gnu_os.Pmm.Buddies.{block_pages-zero}
use gnu_os.Pmm.Counts.{within, count_below-range}
use gnu_os.Pmm.Divided.{Divided, open_held, free_count}
use gnu_os.Pmm.Writes.{restate}
use gnu_os.Pmm.Partition.{is_head, within_self}
use gnu_os.Pmm.Taking.{SameMemory, SameMemory-trans, any_exempt, nowhere, Whole, alloc_block-Takes}
use gnu_os.Pmm.Sound.{status_of, address_of, IsSound, settle, page_only, none_left}
use gnu_os.Pmm.Merging.{free_block-Whole}

-- One page less is free where a free page gets another status.
count_taken :
    (status status' : ℕ → BlockState) (page total : ℕ)
    → page < total
    → status page ≡ free
    → is_free (status' page) ≡ false
    → ((p : ℕ) → p ≢ page → status' p ≡ status p)
    → free_count nowhere status total ≡ free_count nowhere status' total + 1
count_taken status status' page total l is after same =
    count_below-range (λ p. is_free (status p)) (λ p. is_free (status' p)) page 1 total
      (omega (arith, l)) (λ p k w. ap is_free (same p (ground arith)))
      (λ p k w.
        let e : p ≡ page = ground arith in
        (ap (λ q. is_free (status q)) e ∙ ap is_free is, ap (λ q. is_free (status' q)) e ∙ after))

pub update_other :
    (status : ℕ → BlockState) (page p : ℕ) (st : BlockState)
    → p ≢ page
    → update status page st p ≡ status p
update_other status page p st ne = let away : (p == page) ≡ false = ground arith in rw away refl

pub update_self :
    (status : ℕ → BlockState) (page : ℕ) (st : BlockState) → update status page st page ≡ st
update_self status page st = rw (==_refl page) refl

-- A page is handed out, or no page is free.
abbrev pub AllocAnswers : Pmm → Option ℕ × Pmm → Type 0
AllocAnswers s out =
    ((s.free_pages ≡ 0) × (out ≡ (none, s)))
    ⊎ ((page : ℕ) × (s' : Pmm) × (out ≡ (some (address_of s page), s'))
        × (page < s.total_pages)
        × (status_of s page ≡ free)
        × (s'.free_pages + 1 ≡ s.free_pages)
        × ((p : ℕ) → p < s.total_pages → status_of s' p ≡ update (status_of s) page allocated p)
        × SameMemory s s'
        × IsSound s')

-- `pmm_alloc_page` in a sound state fails just when no page is free, and then changes nothing. Otherwise it
-- answers the address of a page that was free: that page becomes allocated, every other page keeps its
-- status, one page less is free, and the state is sound again.
pub alloc_page_outcome : (s : Pmm) → IsSound s → AllocAnswers s (pmm_alloc_page s)
unfolding pmm_alloc_page
alloc_page_outcome s v =
    elim (alloc_block-Takes 0 s v.lists (status_of s) v.whole (omega arith) refl) [
      | inl (out, empty) ↦ inl (
        none_left s v.lists (status_of s) v.whole (λ k low. empty k (omega arith, low)),
        ap answer_page out,
      )
      | inr (page, s', out, (fits, freed, same, lists, w)) ↦
          let l : page < s.total_pages = omega (arith, fits, block_pages-zero) in
          let was : status_of s page ≡ free = freed page (within_self page 0) in
          let whole : Whole s' lists (update (status_of s) page allocated) =
            restate nowhere 0 s' lists
              (λ p. if within page (block_pages 0) p then allocated else status_of s p)
              (update (status_of s) page allocated) w
              (λ p k q. sym (page_only page p allocated (status_of s p))) in
          let (sound, says) =
            settle s s' lists (update (status_of s) page allocated) v.placed v.aligned same whole in
          inr (
            page,
            s',
            ap answer_page out ∙ ap (λ a. (some a, s')) (omega (arith, same.base, v.placed, l)),
            l,
            was,
            omega (
              arith,
              v.whole.counted,
              whole.counted,
              ap (λ n. free_count nowhere (update (status_of s) page allocated) n) same.total,
              count_taken (status_of s) (update (status_of s) page allocated) page s.total_pages l
                  was (ap is_free (update_self (status_of s) page allocated))
                  (λ p ne. update_other (status_of s) page p allocated ne),
            ),
            says,
            same,
            sound,
          )
    ]

clear_block_head-SameMemory : (s : Pmm) (page : ℕ) → SameMemory s (clear_block_head s page)
unfolding clear_block_head
clear_block_head-SameMemory s page = record { total = refl; base = refl }

allocated_of : (b : BlockState) → is_allocated b ≡ true → b ≡ allocated
allocated_of b h = ground arith

-- Giving a page of an allocated block back.
pub free_allocated :
    (s : Pmm) (page : ℕ)
    → IsSound s
    → page < s.total_pages
    → is_allocated (s.block_state page) ≡ true
    → (status_of s page ≡ allocated)
      × ((free_block (clear_block_head s page) page 0).free_pages ≡ s.free_pages + 1)
      × ((p : ℕ)
          → p < s.total_pages
          → status_of (free_block (clear_block_head s page) page 0) p
            ≡ update (status_of s) page free p)
      × SameMemory s (free_block (clear_block_head s page) page 0)
      × IsSound (free_block (clear_block_head s page) page 0)
free_allocated s page v l is =
    let hole = within page (block_pages 0) in
    let first : is_head nowhere s.block_state page ≡ true = ground (arith, is) in
    let held : is_free (s.block_state page) ≡ false = ground (arith, is) in
    let order : s.block_order page ≡ 0 = v.whole.blocks.single page first held in
    let w = any_exempt 0 page s v.lists (status_of s) v.whole in
    let opened : Divided hole page (clear_block_head s page) v.lists (status_of s) =
      open_held nowhere hole page s v.lists (status_of s) page w first
        (λ p. ap (λ k. within page (block_pages k) p) (sym order)) held in
    let restated : Divided hole page (clear_block_head s page) v.lists
        (update (status_of s) page free) =
      restate hole page (clear_block_head s page) v.lists (status_of s)
        (update (status_of s) page free) opened
        (λ p k q.
          update_other (status_of s) page p free
            (λ e. absurd (ground (arith, q, e, block_pages-zero)))) in
    let (same, lists, whole) =
      free_block-Whole page 0 page (clear_block_head s page) v.lists
        (update (status_of s) page free) (omega arith)
        (omega (arith, ap (λ n. page * n) block_pages-zero)) restated
        (λ p q.
          let e : p ≡ page = ground (arith, q, block_pages-zero) in
          ap (update (status_of s) page free) e ∙ update_self (status_of s) page free) in
    let s' = free_block (clear_block_head s page) page 0 in
    let kept =
      SameMemory-trans s (clear_block_head s page) s' (clear_block_head-SameMemory s page) same in
    let (sound, says) =
      settle s s' lists (update (status_of s) page free) v.placed v.aligned kept whole in
    let was : status_of s page ≡ allocated =
      ap s.block_state
        (v.whole.blocks.owned page page first (within_self page (s.block_order page))).0
      ∙ allocated_of (s.block_state page) is in
    (
      was,
      omega (
        arith,
        v.whole.counted,
        whole.counted,
        ap (λ n. free_count nowhere (update (status_of s) page free) n) kept.total,
        count_taken (update (status_of s) page free) (status_of s) page s.total_pages l
            (update_self (status_of s) page free) (ap is_free was)
            (λ p ne. sym (update_other (status_of s) page p free ne)),
      ),
      says,
      kept,
      sound,
    )
