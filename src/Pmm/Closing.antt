-- ===== src/Pmm/Closing.antt =====
-- kernel/mm/pmm.c: a block leaves the hole: `set_block` and `add_free_block` on a part of it.
use native.Mathlib.Decide.{ℕ_discrete}
use gnu_os.Base.{
  ℕ, zero, suc, ◌+◌, ◌≤◌, ◌<◌, ◌≡◌, ◌≢◌, refl, sym, ap, ◌∙◌, subst, inl, inr, Bool, true, false,
  not, ◌&&◌, Bool-cases, List, ◌∷◌, ◌==◌, ==_refl, if◌then◌else◌, arith,
}
use gnu_os.Base.Occurs.{occurs, one_if}
use gnu_os.Pmm.{
  Pmm, BlockState, free, max_order, update, is_free, block_pages, mark_from, mark_block_owner,
  set_block, free_list_push, add_free_block,
}
use gnu_os.Pmm.Buddies.{block_pages-positive}
use gnu_os.Pmm.Counts.{within, count_below-le, count_below-congr, count_below-range}
use gnu_os.Pmm.Links.{pushed}
use gnu_os.Pmm.Divided.{Divided, Listed-Apart, free_count}
use gnu_os.Pmm.Partition.{Partition, is_head, is_used, close_block, covered_fits, within_self}

-- The loop of `mark_block_owner` writes the places of the block.
pub mark_from_lem :
    (n i start : ℕ) (owner : ℕ → ℕ) (p : ℕ)
    → mark_from n i start owner p ≡ (if within (start + i) n p then start else owner p)
unfolding mark_from
mark_from_lem zero i start owner p = ground arith
mark_from_lem (suc n) i start owner p =
    mark_from_lem n (i + 1) start (update owner (start + i) start) p ∙ ground arith

module _ (hole hole' : ℕ → Bool) (x y : ℕ) (s : Pmm) (lists : ℕ → List ℕ)
    (status status' : ℕ → BlockState) (start k : ℕ) (st : BlockState)
    (v : Divided hole x s lists status) (used : is_used st ≡ true) (low : k ≤ max_order)
    (page : is_free st ≡ false → k ≡ 0)
    (covers : (p : ℕ) → within start (block_pages k) p ≡ true → hole p ≡ true)
    (shrunk : (p : ℕ) → hole' p ≡ (hole p && not (within start (block_pages k) p)))
    (exempt : (p : ℕ) → hole p ≡ true → p ≢ start → (hole' p ≡ true → p ≢ y) → p ≢ x)
    (says : (p : ℕ) → status' p ≡ (if within start (block_pages k) p then st else status p)) where
  pub set_block-Partition :
      Partition hole' y s.total_pages
        (set_block s start k st).page_owner
        (update s.block_order start k)
        (update s.block_state start st)
        status'
  unfolding set_block mark_block_owner
  set_block-Partition =
      close_block hole hole' x y s.total_pages s.page_owner
        (mark_from (block_pages k) 0 start s.page_owner) s.block_order s.block_state status status'
        start k st v.blocks used low page covers shrunk exempt
        (λ p.
          mark_from_lem (block_pages k) 0 start s.page_owner p
          ∙ ap (λ n. if within n (block_pages k) p then start else s.page_owner p) (omega arith))
        says

  -- Of the other pages the same ones are the first of a block.
  heads_same :
      (p : ℕ)
      → p ≢ start
      → is_head hole' (update s.block_state start st) p ≡ is_head hole s.block_state p
  heads_same p ne = elim (Bool-cases (within start (block_pages k) p)) [
    | inl w ↦
        let gone : hole' p ≡ false = ground (arith, shrunk p) in
        let clear : is_used (s.block_state p) ≡ false =
          v.blocks.empty p (covers p w)
            (exempt p (covers p w) ne (λ q. absurd (ground (arith, q, gone)))) in
        ground (arith, covers p w, clear)
    | inr w ↦ ground (arith, shrunk p)
  ]

  -- The lists once the block is there.
  listed_with :
      (j p : ℕ)
      → one_if (
          is_head hole' (update s.block_state start st) p
          && (is_free (update s.block_state start st p) && (update s.block_order start k p == j)))
        ≡ (if p == start then one_if (is_free st && (k == j)) else occurs p (lists j))
  listed_with j p = elim (ℕ_discrete p start) [
    | yes same ↦
        let out : hole' start ≡ false = ground (arith, shrunk start, within_self start k) in
        rw (same, ==_refl start, out, used) refl
    | no ne ↦
        let away : (p == start) ≡ false = ground arith in
        rw (heads_same p ne, away) (sym (v.listed j p))
  ]

  -- The first page of the block was in no list.
  absent_before : (j : ℕ) → occurs start (lists j) ≡ 0
  absent_before j = ground (arith, v.listed j start, covers start (within_self start k))

  -- `set_block` with a state that is not free.
  pub close_held : is_free st ≡ false → Divided hole' y (set_block s start k st) lists status'
  unfolding set_block mark_block_owner
  close_held held = record {
    blocks = set_block-Partition;
    listed = λ j p. absent j p ∙ sym (listed_with j p);
    chained = v.chained;
    counted =
        v.counted
        ∙ sym (
            count_below-congr (λ p. not (hole p) && is_free (status p))
              (λ p. not (hole' p) && is_free (status' p)) s.total_pages same_count);
  }
    where
      absent :
          (j p : ℕ)
          → occurs p (lists j)
            ≡ (if p == start then one_if (is_free st && (k == j)) else occurs p (lists j))
      absent j p = elim (ℕ_discrete p start) [
        | yes same ↦ ground (arith, ap (λ q. occurs q (lists j)) same, absent_before j, held)
        | no ne ↦ ground arith
      ]

      same_count :
          (p : ℕ)
          → p < s.total_pages
          → (not (hole' p) && is_free (status' p)) ≡ (not (hole p) && is_free (status p))
      same_count p l = elim (Bool-cases (within start (block_pages k) p)) [
        | inl w ↦ rw (says p, w) (ground (arith, covers p w, held))
        | inr w ↦ rw (says p, w, shrunk p) (ground arith)
      ]

  -- `add_free_block`.
  pub close_free :
      st ≡ free
      → Divided hole' y (add_free_block s start k) (update lists k (start ∷ lists k)) status'
  unfolding set_block mark_block_owner add_free_block free_list_push
  close_free is = record {
    blocks =
        subst
          (λ b.
            Partition hole' y s.total_pages (mark_from (block_pages k) 0 start s.page_owner)
              (update s.block_order start k) (update s.block_state start b) status')
          is set_block-Partition;
    listed = λ j p.
        with_it j p
        ∙ sym (listed_with j p)
        ∙ ap
            (λ b. one_if (
              is_head hole' (update s.block_state start b) p
              && (is_free (update s.block_state start b p)
                  && (update s.block_order start k p == j))))
            is;
    chained =
        pushed s lists k start v.chained (Listed-Apart hole s lists v.listed)
          (ground (arith, ends, v.blocks.bound, block_pages-positive k)) absent_before;
    counted = omega (
      arith,
      v.counted,
      more,
      count_below-le (λ p. not (hole' p) && is_free (status' p)) s.total_pages,
      v.blocks.bound,
    );
  }
    where
      with_it :
          (j p : ℕ)
          → occurs p (update lists k (start ∷ lists k) j)
            ≡ (if p == start then one_if (is_free st && (k == j)) else occurs p (lists j))
      with_it j p = elim (ℕ_discrete j k) [
        | yes same ↦
            let here : (j == k) ≡ true = ground arith in
            rw (here, same)
              (elim (ℕ_discrete p start) [
                | yes e ↦ rw (e, ==_refl start, ==_refl k, is) (ground (arith, absent_before k))
                | no ne ↦ ground arith
              ])
        | no apart ↦
            let away : (j == k) ≡ false = ground arith in
            let away' : (k == j) ≡ false = ground arith in
            rw (away, away')
              (elim (ℕ_discrete p start) [
                | yes e ↦ rw (e, ==_refl start, is) (absent_before j)
                | no ne ↦ ground arith
              ])
      ]

      ends : start + block_pages k ≤ s.total_pages
      ends = covered_fits hole s.total_pages start k v.blocks.inside covers

      more :
          free_count hole' status' s.total_pages
          ≡ free_count hole status s.total_pages + block_pages k
      more =
          count_below-range (λ p. not (hole' p) && is_free (status' p))
            (λ p. not (hole p) && is_free (status p)) start (block_pages k) s.total_pages ends
            (λ p l w. rw (says p, w, shrunk p) (ground arith))
            (λ p l w. (rw (says p, shrunk p, w, covers p w, is) refl, ground (arith, covers p w)))
