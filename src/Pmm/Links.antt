-- ===== src/Pmm/Links.antt =====
-- kernel/mm/pmm.c: `free_list_push` and `free_list_remove` on the lists of all the orders, which share the
-- two arrays of links.
use native.Mathlib.Decide.{ℕ_discrete}
use gnu_os.Base.{
  ℕ, ◌≤◌, ◌≡◌, ◌≢◌, refl, sym, ap, ◌∙◌, subst, ◌⊎◌, inl, inr, true, false, List, ◌∷◌, ◌==◌,
  if◌then◌else◌, arith,
}
use gnu_os.Base.Occurs.{remove_member, occurs}
use gnu_os.Pmm.{Pmm, invalid_index, update, free_list_push, free_list_remove}
use gnu_os.Pmm.FreeList.{
  Chain, frame, member_valid, first_cases, successor, predecessor, not_own, unlink, push,
}

abbrev pub Chained : Pmm → (ℕ → List ℕ) → Type 0
Chained s lists = (k : ℕ) → Chain s.free_next s.free_prev invalid_index (s.free_heads k) (lists k)

-- No page is in two lists, or twice in one.
pub record Apart (lists : ℕ → List ℕ) : Type 0 where
  pub once : (k i : ℕ) → occurs i (lists k) ≤ 1
  pub alone : (k j i : ℕ) → k ≢ j → occurs i (lists k) ≢ 0 → occurs i (lists j) ≡ 0

module _ (s : Pmm) (lists : ℕ → List ℕ) (order page : ℕ) (c : Chained s lists)
    (a : Apart lists) where
  invalid_out : (k : ℕ) → occurs invalid_index (lists k) ≡ 0
  invalid_out k = elim (ℕ_discrete (occurs invalid_index (lists k)) 0) [
    | yes e ↦ e
    | no ne ↦ absurd (
        member_valid s.free_next s.free_prev invalid_index (s.free_heads k) (lists k) invalid_index
          (c k) ne refl)
  ]

  -- The page at the front of a list that is pushed on.
  pub pushed :
      page ≢ invalid_index
      → ((k : ℕ) → occurs page (lists k) ≡ 0)
      → Chained (free_list_push s order page) (update lists order (page ∷ lists order))
  unfolding free_list_push
  pushed v out k = elim (ℕ_discrete k order) [
    | yes same ↦
        let here : (k == order) ≡ true = ground arith in
        rw here (
          push s.free_next s.free_prev next' prev' page invalid_index head (lists order)
            (ground arith) back next_kept linked prev_kept (c order) (a.once order) (out order) v)
    | no ne ↦
        let away : (k == order) ≡ false = ground arith in
        rw away (
          frame s.free_next s.free_prev next' prev' invalid_index (s.free_heads k) (lists k) (c k)
            λ i o. (next_kept i (unlike i k o), prev_kept i (unlike i k o) (not_head i k ne o)))
  ]
    where
      head : ℕ
      head = s.free_heads order

      next' : ℕ → ℕ
      next' = update s.free_next page head

      prev' : ℕ → ℕ
      prev' =
          let prev = update s.free_prev page invalid_index in
          if head == invalid_index then prev else update prev head page

      unlike : (i k : ℕ) → occurs i (lists k) ≢ 0 → i ≢ page
      unlike i k o e = o (ap (λ p. occurs p (lists k)) e ∙ out k)

      not_head : (i k : ℕ) → k ≢ order → occurs i (lists k) ≢ 0 → i ≢ head
      not_head i k ne o e =
          elim (first_cases s.free_next s.free_prev invalid_index head (lists order) (c order)) [
            | inl (stop, none_left) ↦ o (ap (λ p. occurs p (lists k)) (e ∙ stop) ∙ invalid_out k)
            | inr (more, b) ↦
                more (ap (λ p. occurs p (lists order)) (sym e) ∙ a.alone k order i ne o)
          ]

      next_kept : (i : ℕ) → i ≢ page → next' i ≡ s.free_next i
      next_kept i ne = ground arith

      prev_kept : (i : ℕ) → i ≢ page → i ≢ head → prev' i ≡ s.free_prev i
      prev_kept i ne ne' = ground arith

      linked : head ≢ invalid_index → prev' head ≡ page
      linked ne = ground arith

      back : prev' page ≡ invalid_index
      back = elim (first_cases s.free_next s.free_prev invalid_index head (lists order) (c order)) [
        | inl (stop, none_left) ↦ ground arith
        | inr (more, b) ↦
            let differs : page ≢ head =
              λ e. more (ap (λ p. occurs p (lists order)) (sym e) ∙ out order) in
            ground arith
      ]

  -- The page taken out of its list.
  pub unlinked :
      occurs page (lists order) ≢ 0
      → Chained
          (free_list_remove s order page)
          (update lists order (remove_member page (lists order)))
  unfolding free_list_remove
  unlinked there k = elim (ℕ_discrete k order) [
    | yes same ↦
        let here : (k == order) ≡ true = ground arith in
        let taken : Chain next' prev' invalid_index
            (if s.free_heads order == page then next else s.free_heads order)
            (remove_member page (lists order)) =
          unlink s.free_next s.free_prev next' prev' page before_skips next_kept after_skips
            prev_kept invalid_index (s.free_heads order) (lists order) (c order) (a.once order)
            there (invalid_out order) in
        rw here (
          subst (λ f. Chain next' prev' invalid_index f (remove_member page (lists order)))
            (sym (own_head k same)) taken)
    | no ne ↦
        let away : (k == order) ≡ false = ground arith in
        let spared : Chain next' prev' invalid_index (s.free_heads k) (lists k) =
          frame s.free_next s.free_prev next' prev' invalid_index (s.free_heads k) (lists k) (c k)
            λ i o. (
              next_kept i (unlike i k ne o page there) (not_prev i k ne o),
              prev_kept i (unlike i k ne o page there) (not_next i k ne o),
            ) in
        rw away
          (subst (λ f. Chain next' prev' invalid_index f (lists k)) (sym (other_head k ne)) spared)
  ]
    where
      prev : ℕ
      prev = s.free_prev page

      next : ℕ
      next = s.free_next page

      next' : ℕ → ℕ
      next' =
          update (if prev == invalid_index then s.free_next else update s.free_next prev next) page
            invalid_index

      prev' : ℕ → ℕ
      prev' =
          update (if next == invalid_index then s.free_prev else update s.free_prev next prev) page
            invalid_index

      unlike :
          (i k : ℕ)
          → k ≢ order
          → occurs i (lists k) ≢ 0
          → (j : ℕ) → occurs j (lists order) ≢ 0
          → i ≢ j
      unlike i k ne o j there e =
          there (ap (λ p. occurs p (lists order)) (sym e) ∙ a.alone k order i ne o)

      next_kept : (i : ℕ) → i ≢ page → i ≢ prev → next' i ≡ s.free_next i
      next_kept i ne ne' = ground arith

      prev_kept : (i : ℕ) → i ≢ page → i ≢ next → prev' i ≡ s.free_prev i
      prev_kept i ne ne' = ground arith

      heads' : ℕ → ℕ
      heads' = if prev == invalid_index then update s.free_heads order next else s.free_heads

      chain : Chain s.free_next s.free_prev invalid_index (s.free_heads order) (lists order)
      chain = c order

      own : (next ≢ page) × (prev ≢ page)
      own =
          not_own s.free_next s.free_prev invalid_index (s.free_heads order) (lists order) page
            chain (a.once order) (invalid_out order) there

      before_skips : prev ≢ invalid_index → next' prev ≡ next
      before_skips ne = let differs : prev ≢ page = own.1 in ground arith

      after_skips : next ≢ invalid_index → prev' next ≡ prev
      after_skips ne = let differs : next ≢ page = own.0 in ground arith

      neighbours :
          ((s.free_heads order ≡ page) × (prev ≡ invalid_index)) ⊎ (occurs prev (lists order) ≢ 0)
      neighbours =
          predecessor s.free_next s.free_prev invalid_index (s.free_heads order) (lists order) page
            chain there

      not_prev : (i k : ℕ) → k ≢ order → occurs i (lists k) ≢ 0 → i ≢ prev
      not_prev i k ne o e = elim neighbours [
        | inl (follows, stop) ↦ o (ap (λ p. occurs p (lists k)) (e ∙ stop) ∙ invalid_out k)
        | inr more ↦ unlike i k ne o prev more e
      ]

      not_next : (i k : ℕ) → k ≢ order → occurs i (lists k) ≢ 0 → i ≢ next
      not_next i k ne o e =
          elim (successor s.free_next s.free_prev invalid_index (s.free_heads order) (lists order)
            page chain there) [
              | inl stop ↦ o (ap (λ p. occurs p (lists k)) (e ∙ stop) ∙ invalid_out k)
              | inr more ↦ unlike i k ne o next more e
            ]

      other_head : (k : ℕ) → k ≢ order → heads' k ≡ s.free_heads k
      other_head k ne = ground arith

      own_head :
          (k : ℕ)
          → k ≡ order
          → heads' k ≡ (if s.free_heads order == page then next else s.free_heads order)
      own_head k same = elim neighbours [
        | inl (follows, stop) ↦ ground arith
        | inr more ↦
            let valid : prev ≢ invalid_index =
              member_valid s.free_next s.free_prev invalid_index (s.free_heads order) (lists order)
                prev chain more in
            elim (first_cases s.free_next s.free_prev invalid_index (s.free_heads order)
              (lists order) chain) [
                | inl (stop, none_left) ↦ absurd (ground (arith, none_left, there))
                | inr (some_left, back) ↦
                    let later : s.free_heads order ≢ page =
                      λ e. valid (ap s.free_prev (sym e) ∙ back) in
                    ground (arith, ap s.free_heads same)
              ]
      ]
