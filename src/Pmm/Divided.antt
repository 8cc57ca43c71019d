-- ===== src/Pmm/Divided.antt =====
-- kernel/mm/pmm.c: the state of the allocator while a call runs: the blocks outside the hole, the free lists
-- that hold the free ones, and the count of free pages.
use native.Mathlib.Decide.{ℕ_discrete}
use gnu_os.Base.{
  ℕ, ◌+◌, ◌<◌, ◌≡◌, ◌≢◌, sym, ap, ◌∙◌, inl, inr, Bool, true, false, not, ◌&&◌, ◌||◌, Bool-cases,
  List, ◌==◌, ==_refl, if◌then◌else◌, arith,
}
use gnu_os.Base.Occurs.{remove_member, occurs-remove_member, occurs, one_if}
use gnu_os.Pmm.{
  Pmm, BlockState, unused, update, is_free, block_pages, clear_block_head, free_list_remove,
  remove_free_block,
}
use gnu_os.Pmm.Counts.{within, count_below, count_below-le, count_below-congr, count_below-range}
use gnu_os.Pmm.Links.{Chained, Apart, unlinked}
use gnu_os.Pmm.Partition.{Partition, is_head, open_block, owner_in_block, within_self}

-- The list of an order holds the free blocks of that order.
abbrev pub Listed : (hole : ℕ → Bool) → Pmm → (ℕ → List ℕ) → Type 0
Listed hole s lists =
    (k p : ℕ)
    → occurs p (lists k)
      ≡ one_if
          (is_head hole s.block_state p && (is_free (s.block_state p) && (s.block_order p == k)))

-- The free pages outside the hole.
abbrev pub free_count : (hole : ℕ → Bool) → (ℕ → BlockState) → ℕ → ℕ
free_count hole status total = count_below (λ p. not (hole p) && is_free (status p)) total

pub record Divided (hole : ℕ → Bool) (x : ℕ) (s : Pmm) (lists : ℕ → List ℕ)
    (status : ℕ → BlockState) : Type 0 where
  pub blocks : Partition hole x s.total_pages s.page_owner s.block_order s.block_state status
  pub listed : Listed hole s lists
  pub chained : Chained s lists
  pub counted : s.free_pages ≡ free_count hole status s.total_pages

pub Listed-Apart :
    (hole : ℕ → Bool) (s : Pmm) (lists : ℕ → List ℕ) → Listed hole s lists → Apart lists
Listed-Apart hole s lists l = record {
  once = λ k i. ground (arith, l k i);
  alone = λ k j i ne o. ground (arith, l k i, l j i);
}

module _ (hole hole' : ℕ → Bool) (x : ℕ) (s : Pmm) (lists : ℕ → List ℕ) (status : ℕ → BlockState)
    (h : ℕ) (v : Divided hole x s lists status) (first : is_head hole s.block_state h ≡ true)
    (grown : (p : ℕ) → hole' p ≡ (hole p || within h (block_pages (s.block_order h)) p)) where
  -- Of the other pages the same ones are the first of a block.
  heads_kept :
      (p : ℕ)
      → p ≢ h
      → is_head hole' (update s.block_state h unused) p ≡ is_head hole s.block_state p
  heads_kept p ne = elim (Bool-cases (within h (block_pages (s.block_order h)) p)) [
    | inl w ↦ elim (Bool-cases (is_head hole s.block_state p)) [
      | inl other ↦ absurd (
          ne (
            owner_in_block hole x s.total_pages s.page_owner s.block_order s.block_state status
              v.blocks h p first w other))
      | inr none_here ↦ ground (arith, grown p)
    ]
    | inr w ↦ ground (arith, grown p)
  ]

  head_closed : hole' h ≡ true
  head_closed = ground (arith, grown h, within_self h (s.block_order h))

  pub status_in_block :
      (p : ℕ)
      → within h (block_pages (s.block_order h)) p ≡ true
      → (hole p ≡ false) × (status p ≡ s.block_state h)
  status_in_block p w =
      let (o, out) = v.blocks.owned h p first w in
      let l : p < s.total_pages = ground (arith, v.blocks.fits h first) in
      (out, sym (v.blocks.stands p l out) ∙ ap s.block_state o)

  order_kept : (p : ℕ) → p ≢ h → update s.block_order h 0 p ≡ s.block_order p
  order_kept p ne = ground arith

  state_kept : (p : ℕ) → p ≢ h → update s.block_state h unused p ≡ s.block_state p
  state_kept p ne = ground arith

  -- What a list of an order must hold once the block is gone.
  listed_after :
      (k p : ℕ)
      → one_if (
          is_head hole' (update s.block_state h unused) p
          && (is_free (update s.block_state h unused p) && (update s.block_order h 0 p == k)))
        ≡ (if p == h then 0 else occurs p (lists k))
  listed_after k p = elim (ℕ_discrete p h) [
    | yes same ↦ ground (arith, head_closed, ap hole' same)
    | no ne ↦
        let away : (p == h) ≡ false = ground arith in
        rw (heads_kept p ne, state_kept p ne, order_kept p ne, away) (sym (v.listed k p))
  ]

  -- `clear_block_head` on a block that is not free.
  pub open_held :
      is_free (s.block_state h) ≡ false → Divided hole' x (clear_block_head s h) lists status
  unfolding clear_block_head
  open_held held = record {
    blocks =
        open_block hole hole' x s.total_pages s.page_owner s.block_order s.block_state status h
          v.blocks first grown;
    listed = λ k p. absent k p ∙ sym (listed_after k p);
    chained = v.chained;
    counted =
        v.counted
        ∙ sym (
            count_below-congr (λ p. not (hole p) && is_free (status p))
              (λ p. not (hole' p) && is_free (status p)) s.total_pages same_count);
  }
    where
      absent : (k p : ℕ) → occurs p (lists k) ≡ (if p == h then 0 else occurs p (lists k))
      absent k p = elim (ℕ_discrete p h) [
        | yes same ↦ ground (arith, v.listed k h, held, ap (λ q. occurs q (lists k)) same)
        | no ne ↦ ground arith
      ]

      same_count :
          (p : ℕ)
          → p < s.total_pages
          → (not (hole' p) && is_free (status p)) ≡ (not (hole p) && is_free (status p))
      same_count p l = elim (Bool-cases (within h (block_pages (s.block_order h)) p)) [
        | inl w ↦
            let (out, is) = status_in_block p w in ground (arith, grown p, held, ap is_free is)
        | inr w ↦ ground (arith, grown p)
      ]

  -- `remove_free_block`.
  pub open_free :
      is_free (s.block_state h) ≡ true
      → Divided hole' x
          (remove_free_block s h)
          (update lists (s.block_order h) (remove_member h (lists (s.block_order h))))
          status
  unfolding clear_block_head remove_free_block free_list_remove
  open_free is = record {
    blocks =
        open_block hole hole' x s.total_pages s.page_owner s.block_order s.block_state status h
          v.blocks first grown;
    listed = λ k p. without k p ∙ sym (listed_after k p);
    chained =
        unlinked s lists (s.block_order h) h v.chained (Listed-Apart hole s lists v.listed) there;
    counted = omega (
      arith,
      v.counted,
      fewer,
      count_below-le (λ p. not (hole p) && is_free (status p)) s.total_pages,
      v.blocks.bound,
    );
  }
    where
      there : occurs h (lists (s.block_order h)) ≢ 0
      there = ground (arith, v.listed (s.block_order h) h, first, is, ==_refl (s.block_order h))

      without :
          (k p : ℕ)
          → occurs p (update lists (s.block_order h) (remove_member h (lists (s.block_order h))) k)
            ≡ (if p == h then 0 else occurs p (lists k))
      without k p = elim (ℕ_discrete k (s.block_order h)) [
        | yes same ↦
            let here : (k == s.block_order h) ≡ true = ground arith in
            rw (here, same)
              (elim (ℕ_discrete p h) [
                | yes e ↦ ground (
                  arith,
                  ap (λ q. occurs q (lists (s.block_order h))) e,
                  occurs-remove_member p h (lists (s.block_order h)) there,
                  v.listed (s.block_order h) h,
                )
                | no ne ↦ ground (arith, occurs-remove_member p h (lists (s.block_order h)) there)
              ])
        | no ne ↦
            let away : (k == s.block_order h) ≡ false = ground arith in
            rw away (elim (ℕ_discrete p h) [
              | yes e ↦ ground (arith, ap (λ q. occurs q (lists k)) e, v.listed k h)
              | no apart ↦ ground arith
            ])
      ]

      fewer :
          free_count hole status s.total_pages
          ≡ free_count hole' status s.total_pages + block_pages (s.block_order h)
      fewer =
          count_below-range (λ p. not (hole p) && is_free (status p))
            (λ p. not (hole' p) && is_free (status p)) h (block_pages (s.block_order h))
            s.total_pages (v.blocks.fits h first) (λ p l w. ground (arith, grown p))
            (λ p l w.
              let (out, e) = status_in_block p w in
              (ground (arith, out, is, ap is_free e), ground (arith, grown p, w)))
