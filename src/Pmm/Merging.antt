-- ===== src/Pmm/Merging.antt =====
-- kernel/mm/pmm.c: `free_block` merges a block with its free buddy as long as there is one.
use Prim.Native.Nat.{bit_xor}
use gnu_os.Base.{
  ℕ, zero, suc, ◌+◌, ◌-◌, ◌*◌, ◌/◌, ◌≤◌, ◌≡◌, refl, ap, ◌∙◌, inl, inr, true, false, not, ◌||◌,
  Bool-cases, List, ◌∷◌, ◌==◌, leb, ltb, if◌then◌else◌, arith,
}
use gnu_os.Base.Occurs.{remove_member}
use gnu_os.Pmm.{
  Pmm, BlockState, free, max_order, update, is_free, block_pages, set_block, mark_block_owner,
  clear_block_head, free_list_remove, add_free_block, remove_free_block,
}
use gnu_os.Pmm.Blocks.{merge_from, free_block}
use gnu_os.Pmm.Buddies.{block_pages-suc, block_pages-positive, buddy_cases}
use gnu_os.Pmm.Counts.{within, join_above, join_below}
use gnu_os.Pmm.Divided.{Divided, open_free, status_in_block}
use gnu_os.Pmm.Closing.{close_free}
use gnu_os.Pmm.Writes.{set_in_hole, clear_in_hole}
use gnu_os.Pmm.Partition.{is_head, within_self}
use gnu_os.Pmm.Taking.{
  SameMemory, SameMemory-trans, add_free_block-SameMemory, set_block-SameMemory, unchanged, free_of,
  nowhere, Whole,
}

-- What the merging loop leaves: a block that is out, with what it needs to be given back.
abbrev pub Merged : (s : Pmm) (status : ℕ → BlockState) → ℕ × ℕ × Pmm → Type 0
Merged s status (current, order, s') =
    (order ≤ max_order)
    × ((p : ℕ) → within current (block_pages order) p ≡ true → status p ≡ free)
    × SameMemory s s'
    × (lists : ℕ → List ℕ) × Divided (within current (block_pages order)) current s' lists status

module _ (k : ℕ) (s : Pmm) (lists : ℕ → List ℕ) (status : ℕ → BlockState) where
  -- One round: the buddy is taken out of its list, and the two are one block.
  merge_step :
      (buddy current lower : ℕ)
      → Divided (within current (block_pages k)) current s lists status
      → k + 1 ≤ max_order
      → is_free (s.block_state buddy) ≡ true
      → s.block_order buddy ≡ k
      → ((p : ℕ)
          → within lower (block_pages (k + 1)) p
            ≡ (within current (block_pages k) p || within buddy (block_pages k) p))
      → within current (block_pages k) buddy ≡ false
      → ((p : ℕ) → within current (block_pages k) p ≡ true → status p ≡ free)
      → (lists' : ℕ → List ℕ) × Divided
          (within lower (block_pages (k + 1)))
          lower
          (set_block
            (clear_block_head (clear_block_head (remove_free_block s buddy) current) buddy)
            lower
            (k + 1)
            free)
          lists'
          status
        × ((p : ℕ) → within lower (block_pages (k + 1)) p ≡ true → status p ≡ free)
  merge_step buddy current lower v low is same joined apart all_free =
      let hole = within current (block_pages k) in
      let hole' = within lower (block_pages (k + 1)) in
      let r = remove_free_block s buddy in
      let first : is_head hole s.block_state buddy ≡ true = ground (arith, apart, is) in
      let grown : (p : ℕ)
          → hole' p ≡ (hole p || within buddy (block_pages (s.block_order buddy)) p) =
        λ p. rw same (joined p) in
      let opened = open_free hole hole' current s lists status buddy v first grown is in
      let lists' =
        update lists (s.block_order buddy) (remove_member buddy (lists (s.block_order buddy))) in
      let cleared =
        clear_in_hole hole' current lower current r lists' status opened
          (ground (arith, joined current, within_self current k)) (λ p i ne nc. nc) in
      let cleared' =
        clear_in_hole hole' lower lower buddy (clear_block_head r current) lists' status cleared
          (ground (arith, joined buddy, within_self buddy k)) (λ p i ne nb. ne) in
      (
        lists',
        set_in_hole hole' lower (clear_block_head (clear_block_head r current) buddy) lists' status
            lower (k + 1) free cleared' (λ p i. i) (λ p i ne. ne),
        λ p i. elim (Bool-cases (hole p)) [
          | inl e ↦ all_free p e
          | inr e ↦
              let there : within buddy (block_pages (s.block_order buddy)) p ≡ true =
                rw same (ground (arith, joined p)) in
              (status_in_block hole hole' current s lists status buddy v first grown p there).1
              ∙ free_of (s.block_state buddy) is
        ],
      )

Merged-after :
    (s s' : Pmm) (status : ℕ → BlockState) (out : ℕ × ℕ × Pmm)
    → SameMemory s s'
    → Merged s' status out
    → Merged s status out
Merged-after s s' status (c, k, s'') same (low, all_free, m, lists, v) =
    (low, all_free, SameMemory-trans s s' s'' same m, lists, v)

round-SameMemory :
    (s : Pmm) (buddy current lower k : ℕ)
    → SameMemory s (
        set_block
          (clear_block_head (clear_block_head (remove_free_block s buddy) current) buddy)
          lower
          k
          free)
unfolding set_block mark_block_owner clear_block_head remove_free_block free_list_remove
round-SameMemory s buddy current lower k = record { total = refl; base = refl }

-- The loop from an aligned block that is out, whose pages are to be free.
merge_from-Merged :
    (n k q current : ℕ) (s : Pmm) (lists : ℕ → List ℕ) (status : ℕ → BlockState)
    → k + n ≡ max_order
    → current ≡ q * block_pages k
    → Divided (within current (block_pages k)) current s lists status
    → ((p : ℕ) → within current (block_pages k) p ≡ true → status p ≡ free)
    → Merged s status (merge_from n current k s)
unfolding merge_from
merge_from-Merged zero k q current s lists status low aligned v all_free =
    (omega arith, all_free, record { total = refl; base = refl }, lists, v)
merge_from-Merged (suc n) k q current s lists status low aligned v all_free =
    elim (Bool-cases (
      leb s.total_pages buddy
      || (not (is_free (s.block_state buddy)) || not (s.block_order buddy == k)))) [
        | inl stop ↦ rw stop (omega arith, all_free, record { total = refl; base = refl }, lists, v)
        | inr go ↦
            let is : is_free (s.block_state buddy) ≡ true = ground arith in
            let same : s.block_order buddy ≡ k = ground arith in
            let (on, joined, apart) = placed in
            let (lists', w, freed) =
              merge_step k s lists status buddy current lower v (omega arith) is same joined apart
                all_free in
            rw go (
              Merged-after s next status (merge_from n lower (k + 1) next) next-SameMemory (
                merge_from-Merged n (k + 1) (q / 2) lower next lists' status (omega arith) on w
                  freed))
      ]
  where
    buddy : ℕ
    buddy = bit_xor current (block_pages k)

    lower : ℕ
    lower = if ltb buddy current then buddy else current

    cleared : Pmm
    cleared = clear_block_head (clear_block_head (remove_free_block s buddy) current) buddy

    next : Pmm
    next = set_block cleared lower (k + 1) free

    next-SameMemory : SameMemory s next
    next-SameMemory = round-SameMemory s buddy current lower (k + 1)

    size : block_pages (k + 1) ≡ block_pages k + block_pages k
    size = ap block_pages (omega arith) ∙ block_pages-suc k

    placed :
        (lower ≡ q / 2 * block_pages (k + 1))
        × ((p : ℕ)
            → within lower (block_pages (k + 1)) p
              ≡ (within current (block_pages k) p || within buddy (block_pages k) p))
        × (within current (block_pages k) buddy ≡ false)
    placed =
        let found : buddy ≡ bit_xor (q * block_pages k) (block_pages k) =
          ap (λ c. bit_xor c (block_pages k)) aligned in
        let double : q / 2 * block_pages (k + 1) ≡ q / 2 * block_pages (suc k) =
          ap (λ m. q / 2 * block_pages m) (omega arith) in
        elim (buddy_cases k q) [
          | inl (up, even) ↦
              let above : buddy ≡ current + block_pages k = omega (arith, found, up, aligned) in
              let low : lower ≡ current = ground (arith, above) in
              (
                omega (arith, low, aligned, even, double),
                λ p.
                    join_above lower current buddy (block_pages k) (block_pages (k + 1)) p size low
                      above,
                ground (arith, above),
              )
          | inr (down, even) ↦
              let below : current ≡ buddy + block_pages k = omega (arith, found, down, aligned) in
              let low : lower ≡ buddy = ground (arith, below, block_pages-positive k) in
              (
                omega (arith, low, found, even, double),
                λ p.
                    join_below lower current buddy (block_pages k) (block_pages (k + 1)) p size low
                      below,
                ground (arith, below, block_pages-positive k),
              )
        ]

-- `free_block` gives an aligned block that is out back, with pages that are to be free.
pub free_block-Whole :
    (start order q : ℕ) (s : Pmm) (lists : ℕ → List ℕ) (status : ℕ → BlockState)
    → order ≤ max_order
    → start ≡ q * block_pages order
    → Divided (within start (block_pages order)) start s lists status
    → ((p : ℕ) → within start (block_pages order) p ≡ true → status p ≡ free)
    → SameMemory s (free_block s start order)
      × (lists' : ℕ → List ℕ) × Whole (free_block s start order) lists' status
unfolding free_block
free_block-Whole start order q s lists status low aligned v all_free =
    let hole = within start (block_pages order) in
    let s1 = set_block s start order free in
    let v1 : Divided hole start s1 lists status =
      set_in_hole hole start s lists status start order free v (λ p i. i) (λ p i ne. ne) in
    let (current, k, s2) = merge_from (max_order - order) start order s1 in
    let (low', freed, same, lists', w) =
      merge_from-Merged (max_order - order) order q start s1 lists status (omega (arith, low))
        aligned v1 all_free in
    let s3 = add_free_block s2 current k in
    (
      SameMemory-trans s s1 s3 (set_block-SameMemory s start order free)
          (SameMemory-trans s1 s2 s3 same (add_free_block-SameMemory s2 current k)),
      update lists' k (current ∷ lists' k),
      close_free (within current (block_pages k)) nowhere current 0 s2 lists' status status current
          k free w refl low' (λ held. absurd (ground arith)) (λ p i. i) (λ p. ground arith)
          (λ p i ne gone. ne)
          (λ p. unchanged (within current (block_pages k) p) free (status p) (freed p)) refl,
    )
