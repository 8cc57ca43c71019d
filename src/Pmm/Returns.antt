-- ===== src/Pmm/Returns.antt =====
-- kernel/mm/pmm.c: `pmm_free_page` on any address, and a page handed out and given back.
use native.Mathlib.Decide.{ℕ_discrete}
use gnu_os.Base.{
  ℕ, ◌+◌, ◌-◌, ◌/◌, ◌%◌, ◌<◌, ◌≡◌, refl, sym, ap, ◌∙◌, ◌⊎◌, inl, inr, true, not, ◌||◌, Bool-cases,
  some, ◌==◌, ==_refl, leb, ltb, arith,
}
use gnu_os.Pmm.{Pmm, free, allocated, page_bytes, update, is_free, is_allocated}
use gnu_os.Pmm.Api.{pmm_alloc_page, pmm_free_page}
use gnu_os.Pmm.Buddies.{block_pages-zero}
use gnu_os.Pmm.Taking.{SameMemory}
use gnu_os.Pmm.Sound.{status_of, address_of, IsSound}
use gnu_os.Pmm.Pages.{alloc_page_outcome, free_allocated, update_other, update_self}

-- `addr` is the address of an allocated page.
abbrev pub Holds : Pmm → (addr page : ℕ) → Type 0
Holds s addr page =
    (page < s.total_pages) × (addr ≡ address_of s page) × (status_of s page ≡ allocated)

-- The page at `addr` is given back, or `addr` is of no allocated page and nothing happens.
abbrev pub FreeAnswers : Pmm → (addr : ℕ) → Pmm → Type 0
FreeAnswers s addr s' =
    ((page : ℕ) × Holds s addr page
      × (s'.free_pages ≡ s.free_pages + 1)
      × ((p : ℕ) → p < s.total_pages → status_of s' p ≡ update (status_of s) page free p)
      × SameMemory s s'
      × IsSound s')
    ⊎ (((page : ℕ) → ¬ Holds s addr page) × (s' ≡ s))

-- An allocated page is a block of order 0.
allocated_head :
    (s : Pmm) (page : ℕ)
    → IsSound s
    → page < s.total_pages
    → status_of s page ≡ allocated
    → (is_allocated (s.block_state page) ≡ true) × (s.block_order page ≡ 0)
allocated_head s page v l e =
    let head = s.page_owner page in
    let (first, here) = v.whole.blocks.covered page l refl in
    let order : s.block_order head ≡ 0 = v.whole.blocks.single head first (ap is_free e) in
    let same : page ≡ head = ground (arith, rw order at here, block_pages-zero) in
    (
      ap (λ p. is_allocated (s.block_state p)) same ∙ ap is_allocated e,
      ap s.block_order same ∙ order,
    )

-- For every address and every sound state: if the address is that of an allocated page, `pmm_free_page`
-- makes that page free, changes the status of no other page, and one page more is free; otherwise nothing
-- changes. The state is sound again.
pub free_page_outcome : (s : Pmm) (addr : ℕ) → IsSound s → FreeAnswers s addr (pmm_free_page s addr)
unfolding pmm_free_page
free_page_outcome s addr v = elim (Bool-cases (s.total_pages == 0 || ltb addr s.base)) [
  | inl low ↦ rw (pmm_free_page, low) (inr (λ page (l, e, a). absurd (ground arith), refl))
  | inr high ↦ elim (Bool-cases (not (diff % page_bytes == 0) || leb s.total_pages page)) [
    | inl off ↦ rw (pmm_free_page, high, off) (inr (λ p (l, e, a). absurd (ground arith), refl))
    | inr on ↦
        elim (Bool-cases
          (not (is_allocated (s.block_state page)) || not (s.block_order page == 0))) [
            | inl other ↦
                rw (pmm_free_page, high, on, other)
                  (inr (
                    λ p (l, e, a).
                        let same : p ≡ page = omega (arith, e) in
                        let (held, order) = allocated_head s p v l a in
                        absurd (
                          ground (
                            arith,
                            other,
                            ap (λ q. is_allocated (s.block_state q)) same,
                            held,
                            ap s.block_order same,
                            order,
                          )),
                    refl,
                  ))
            | inr is ↦
                let l : page < s.total_pages = ground arith in
                let (was, counted, says, same, sound) = free_allocated s page v l (ground arith) in
                rw (pmm_free_page, high, on, is)
                  (inl (page, (l, ground arith, was), counted, says, same, sound))
          ]
  ]
]
  where
    diff : ℕ
    diff = addr - s.base

    page : ℕ
    page = diff / page_bytes

-- Where `addr` holds no page but this one.
Holds-one : (s : Pmm) (addr p q : ℕ) → Holds s addr p → Holds s addr q → p ≡ q
Holds-one s addr p q (l, e, a) (m, f, b) = omega (arith, e, f)

returned :
    (s s' : Pmm) (page : ℕ)
    → status_of s page ≡ free
    → page < s.total_pages
    → s'.free_pages + 1 ≡ s.free_pages
    → ((p : ℕ) → p < s.total_pages → status_of s' p ≡ update (status_of s) page allocated p)
    → SameMemory s s'
    → IsSound s'
    → ((pmm_free_page s' (address_of s page)).free_pages ≡ s.free_pages)
      × ((p : ℕ)
          → p < s.total_pages
          → status_of (pmm_free_page s' (address_of s page)) p ≡ status_of s p)
returned s s' page was l fewer says same sound =
    let there : Holds s' (address_of s page) page = (
      omega (arith, l, same.total),
      omega (arith, same.base),
      says page l ∙ update_self (status_of s) page allocated,
    ) in
    elim (free_page_outcome s' (address_of s page) sound) [
      | inl (page', holds, more, back, m, w) ↦
          let one : page' ≡ page = Holds-one s' (address_of s page) page' page holds there in
          (
            omega (arith, more, fewer),
            λ p k. back p (omega (arith, k, same.total)) ∙ elim (ℕ_discrete p page) [
              | yes e ↦ rw (one, e, ==_refl page) (sym was)
              | no ne ↦
                  update_other (status_of s') page' p free (λ q. ne (q ∙ one))
                  ∙ says p k
                  ∙ update_other (status_of s) page p allocated ne
            ],
          )
      | inr (nobody, kept) ↦ absurd (nobody page there)
    ]

-- In a sound state, giving back at once the page that `pmm_alloc_page` answered restores the number of free
-- pages and the status of every page.
pub alloc_free_page :
    (s : Pmm) (addr : ℕ)
    → IsSound s
    → (pmm_alloc_page s).0 ≡ some addr
    → ((pmm_free_page (pmm_alloc_page s).1 addr).free_pages ≡ s.free_pages)
      × ((p : ℕ)
          → p < s.total_pages
          → status_of (pmm_free_page (pmm_alloc_page s).1 addr) p ≡ status_of s p)
alloc_free_page s addr v got = elim (alloc_page_outcome s v) [
  | inl (full, out) ↦ absurd (ground (arith, ap (λ o. o.0) out, got))
  | inr (page, s', out, l, was, fewer, says, same, sound) ↦
      let where_it_is : addr ≡ address_of s page = ground (arith, ap (λ o. o.0) out, got) in
      rw (where_it_is, out) (returned s s' page was l fewer says same sound)
]
