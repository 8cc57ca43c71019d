-- ===== src/Pmm/Reserving.antt =====
-- kernel/mm/pmm.c: `reserve_page` halves the free block that holds the page until the page is left.
use native.Mathlib.Decide.{ℕ_discrete}
use gnu_os.Base.{
  ℕ, zero, suc, ◌+◌, ◌≤◌, ◌<◌, ◌≡◌, refl, sym, ap, ◌∙◌, subst, inl, inr, true, false, ◌||◌,
  Bool-cases, List, ◌∷◌, ◌==◌, ==_refl, leb, ltb, if◌then◌else◌, arith,
}
use gnu_os.Base.Occurs.{remove_member}
use gnu_os.Pmm.{
  Pmm, BlockState, unused, free, allocated, reserved, max_order, invalid_index, update, is_free,
  block_pages, set_block, mark_block_owner, free_list_push, add_free_block, remove_free_block,
}
use gnu_os.Pmm.Blocks.{narrow_to, reserve_page}
use gnu_os.Pmm.Buddies.{block_pages-suc, block_pages-zero}
use gnu_os.Pmm.Counts.{within, lower_half, upper_half, lower_in, upper_in}
use gnu_os.Pmm.Divided.{Divided, open_free, status_in_block}
use gnu_os.Pmm.Closing.{close_free, close_held}
use gnu_os.Pmm.Writes.{set_in_hole, restate}
use gnu_os.Pmm.Partition.{is_head}
use gnu_os.Pmm.Taking.{
  first_within, any_exempt, SameMemory, SameMemory-trans, remove_free_block-SameMemory,
  set_block-SameMemory, unchanged, free_of, nowhere, Whole,
}

-- The page is left out alone, and the rest of its block is given back.
abbrev pub Narrowed : (s : Pmm) (status : ℕ → BlockState) (page : ℕ) → ℕ × Pmm → Type 0
Narrowed s status page (current, s') =
    (current ≡ page)
    × SameMemory s s'
    × (lists : ℕ → List ℕ) × Divided (within page (block_pages 0)) page s' lists status

-- One half of the block goes back, and the other, with the page in it, stays out.
module _ (k current page : ℕ) (s : Pmm) (lists : ℕ → List ℕ) (status : ℕ → BlockState)
    (low : k ≤ max_order)
    (v : Divided (within current (block_pages (suc k))) current s lists status)
    (all_free : (p : ℕ) → within current (block_pages (suc k)) p ≡ true → status p ≡ free) where
  keep_lower :
      (lists' : ℕ → List ℕ) × Divided
        (within current (block_pages k))
        current
        (set_block (add_free_block s (current + block_pages k) k) current k allocated)
        lists'
        status
  keep_lower =
      let w : Divided (within current (block_pages k)) current
          (add_free_block s (current + block_pages k) k)
          (update lists k ((current + block_pages k) ∷ lists k)) status =
        close_free (within current (block_pages (suc k))) (within current (block_pages k)) current
          current s lists status status (current + block_pages k) k free v refl low
          (λ held. absurd (ground arith))
          (λ p q. rw (block_pages-suc k) (upper_in current (block_pages k) p q))
          (λ p. rw (block_pages-suc k) (lower_half current (block_pages k) p))
          (λ p q ne gone e. gone (first_within current k p e) e)
          (λ p.
            unchanged (within (current + block_pages k) (block_pages k) p) free (status p)
              (λ q. all_free p (rw (block_pages-suc k) (upper_in current (block_pages k) p q))))
          refl in
      (
        update lists k ((current + block_pages k) ∷ lists k),
        set_in_hole (within current (block_pages k)) current
            (add_free_block s (current + block_pages k) k)
            (update lists k ((current + block_pages k) ∷ lists k)) status current k allocated w
            (λ p q. q) (λ p q ne. ne),
      )

  keep_upper :
      (lists' : ℕ → List ℕ) × Divided
        (within (current + block_pages k) (block_pages k))
        (current + block_pages k)
        (set_block (add_free_block s current k) (current + block_pages k) k allocated)
        lists'
        status
  keep_upper =
      let w : Divided (within (current + block_pages k) (block_pages k)) (current + block_pages k)
          (add_free_block s current k) (update lists k (current ∷ lists k)) status =
        close_free (within current (block_pages (suc k)))
          (within (current + block_pages k) (block_pages k)) current (current + block_pages k) s
          lists status status current k free v refl low (λ held. absurd (ground arith))
          (λ p q. rw (block_pages-suc k) (lower_in current (block_pages k) p q))
          (λ p. rw (block_pages-suc k) (upper_half current (block_pages k) p)) (λ p q ne gone. ne)
          (λ p.
            unchanged (within current (block_pages k) p) free (status p)
              (λ q. all_free p (rw (block_pages-suc k) (lower_in current (block_pages k) p q))))
          refl in
      (
        update lists k (current ∷ lists k),
        set_in_hole (within (current + block_pages k) (block_pages k)) (current + block_pages k)
            (add_free_block s current k) (update lists k (current ∷ lists k)) status
            (current + block_pages k) k allocated w (λ p q. q) (λ p q ne. ne),
      )

halving-SameMemory :
    (s : Pmm) (given kept k : ℕ)
    → SameMemory s (set_block (add_free_block s given k) kept k allocated)
unfolding set_block mark_block_owner add_free_block free_list_push
halving-SameMemory s given kept k = record { total = refl; base = refl }

Narrowed-after :
    (s : Pmm) (given kept k page : ℕ) (status : ℕ → BlockState) (out : ℕ × Pmm)
    → Narrowed (set_block (add_free_block s given k) kept k allocated) status page out
    → Narrowed s status page out
Narrowed-after s given kept k page status (c, s') (at, same, lists, v) = (
  at,
  SameMemory-trans s (set_block (add_free_block s given k) kept k allocated) s'
      (halving-SameMemory s given kept k) same,
  lists,
  v,
)

narrow_to-Narrowed :
    (order current page : ℕ) (s : Pmm) (lists : ℕ → List ℕ) (status : ℕ → BlockState)
    → order ≤ max_order
    → within current (block_pages order) page ≡ true
    → Divided (within current (block_pages order)) current s lists status
    → ((p : ℕ) → within current (block_pages order) p ≡ true → status p ≡ free)
    → Narrowed s status page (narrow_to order current page s)
unfolding narrow_to
narrow_to-Narrowed zero current page s lists status low here v all_free =
    let same : current ≡ page = ground (arith, block_pages-zero) in
    (
      same,
      record { total = refl; base = refl },
      lists,
      subst (λ c. Divided (within c (block_pages 0)) c s lists status) same v,
    )
narrow_to-Narrowed (suc k) current page s lists status low here v all_free =
    elim (Bool-cases (ltb page (current + block_pages k))) [
      | inl e ↦
          let (lists', w) = keep_lower k current page s lists status (omega arith) v all_free in
          rw (narrow_to, e)
            (Narrowed-after s (current + block_pages k) current k page status
              (narrow_to k current page
                (set_block (add_free_block s (current + block_pages k) k) current k allocated))
              (narrow_to-Narrowed k current page
                (set_block (add_free_block s (current + block_pages k) k) current k allocated)
                lists' status (omega arith) (ground (arith, e)) w
                (λ p q.
                  all_free p (rw (block_pages-suc k) (lower_in current (block_pages k) p q)))))
      | inr e ↦
          let (lists', w) = keep_upper k current page s lists status (omega arith) v all_free in
          rw (narrow_to, e)
            (Narrowed-after s current (current + block_pages k) k page status
              (narrow_to k (current + block_pages k) page
                (set_block (add_free_block s current k) (current + block_pages k) k allocated))
              (narrow_to-Narrowed k (current + block_pages k) page
                (set_block (add_free_block s current k) (current + block_pages k) k allocated)
                lists' status (omega arith) (ground (arith, e, block_pages-suc k)) w
                (λ p q.
                  all_free p (rw (block_pages-suc k) (upper_in current (block_pages k) p q)))))
    ]

single :
    (page p : ℕ) (now before : BlockState)
    → now ≡ (if p == page then reserved else before)
    → now ≡ (if within page (block_pages 0) p then reserved else before)
single page p now before e = elim (ℕ_discrete p page) [
  | yes same ↦ ground (arith, block_pages-zero, e)
  | no ne ↦ ground (arith, block_pages-zero, e)
]

-- `reserve_page` on a page of a free block: it becomes reserved, and no other page changes.
take_page :
    (s : Pmm) (lists : ℕ → List ℕ) (status : ℕ → BlockState) (page : ℕ)
    → Whole s lists status
    → page < s.total_pages
    → is_free (s.block_state (s.page_owner page)) ≡ true
    → let head = s.page_owner page in
      let (current, s') = narrow_to (s.block_order head) head page (remove_free_block s head) in
      SameMemory s (set_block s' current 0 reserved)
      × (lists' : ℕ → List ℕ) × Whole
          (set_block s' current 0 reserved)
          lists'
          (update status page reserved)
take_page s lists status page v l is =
    let head = s.page_owner page in
    let hole = within head (block_pages (s.block_order head)) in
    let (first, here) = v.blocks.covered page l refl in
    let w = any_exempt 0 head s lists status v in
    let opened = open_free nowhere hole head s lists status head w first (λ p. refl) is in
    let all_free : (p : ℕ) → hole p ≡ true → status p ≡ free = λ p q.
      (status_in_block nowhere hole head s lists status head w first (λ p. refl) p q).1
      ∙ free_of (s.block_state head) is in
    let (at, same, lists', narrowed) =
      narrow_to-Narrowed (s.block_order head) head page (remove_free_block s head)
        (update lists (s.block_order head) (remove_member head (lists (s.block_order head)))) status
        (v.blocks.small head first) here opened all_free in
    let (current, s') = narrow_to (s.block_order head) head page (remove_free_block s head) in
    (
      SameMemory-trans s (remove_free_block s head) (set_block s' current 0 reserved)
          (remove_free_block-SameMemory s head)
          (SameMemory-trans (remove_free_block s head) s' (set_block s' current 0 reserved) same
            (set_block-SameMemory s' current 0 reserved)),
      lists',
      subst (λ c. Whole (set_block s' c 0 reserved) lists' (update status page reserved)) (sym at)
          (close_held (within page (block_pages 0)) nowhere page 0 s' lists' status
            (update status page reserved) page 0 reserved narrowed refl (omega arith) (λ held. refl)
            (λ p q. q) (λ p. ground arith) (λ p q ne gone. ne)
            (λ p. single page p (update status page reserved p) (status p) refl) refl),
    )

-- What `reserve_page` does to the status of a page, and what it answers.
abbrev pub reserve_status : BlockState → BlockState
reserve_status free = reserved
reserve_status st = st

abbrev pub reserve_answer : BlockState → ℕ
reserve_answer free = 1
reserve_answer reserved = 1
reserve_answer st = 0

abbrev pub Reserves : (s : Pmm) (status : ℕ → BlockState) (page : ℕ) → ℕ × Pmm → Type 0
Reserves s status page out =
    (out.0 ≡ reserve_answer (status page))
    × SameMemory s out.1
    × (lists : ℕ → List ℕ) × Whole out.1 lists (update status page (reserve_status (status page)))

-- `reserve_page` answers by the status of the page alone, and changes the status of no other page.
pub reserve_page_lem :
    (s : Pmm) (lists : ℕ → List ℕ) (status : ℕ → BlockState) (page : ℕ)
    → Whole s lists status
    → page < s.total_pages
    → Reserves s status page (reserve_page s page)
unfolding reserve_page
reserve_page_lem s lists status page v l = by_state (s.block_state head) refl
  where
    head : ℕ
    head = s.page_owner page

    stands : s.block_state head ≡ status page
    stands = v.blocks.stands page l refl

    first : is_head nowhere s.block_state head ≡ true
    first = (v.blocks.covered page l refl).0

    known : (leb s.total_pages page || (head == invalid_index)) ≡ false
    known = ground (arith, l, v.blocks.fits head first, v.blocks.bound)

    stays :
        (answer : ℕ) (st : BlockState)
        → status page ≡ st
        → reserve_answer st ≡ answer
        → reserve_status st ≡ st
        → Reserves s status page (answer, s)
    stays answer st e a same = (
      sym a ∙ ap reserve_answer (sym e),
      record { total = refl; base = refl },
      lists,
      restate nowhere 0 s lists status (update status page (reserve_status (status page))) v
          λ p below q. elim (ℕ_discrete p page) [
            | yes here ↦ rw (here, ==_refl page, e) same
            | no ne ↦ let away : (p == page) ≡ false = ground arith in rw away refl
          ],
    )

    by_state :
        (b : BlockState) → s.block_state head ≡ b → Reserves s status page (reserve_page s page)
    by_state unused e = absurd (ground (arith, first, e))
    by_state free e =
        let (same, lists', w) = take_page s lists status page v l (ap is_free e) in
        let was : status page ≡ free = sym stands ∙ e in
        rw (reserve_page, known, e, was) (refl, same, lists', w)
    by_state allocated e =
        rw (reserve_page, known, e) (stays 0 allocated (sym stands ∙ e) refl refl)
    by_state reserved e = rw (reserve_page, known, e) (stays 1 reserved (sym stands ∙ e) refl refl)
