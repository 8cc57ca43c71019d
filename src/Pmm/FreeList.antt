-- ===== src/Pmm/FreeList.antt =====
-- kernel/mm/pmm.c: `free_list_push` and `free_list_remove` on a doubly linked list threaded through the
-- arrays of successors and predecessors.
use native.Mathlib.Decide.{ℕ_discrete}
use gnu_os.Base.{
  ℕ, ◌≤◌, ◌≡◌, ◌≢◌, refl, sym, ap, ◌∙◌, subst, ◌⊎◌, inl, inr, true, false, List, [], ◌∷◌, ◌==◌,
  if◌then◌else◌, arith,
}
use gnu_os.Base.Occurs.{remove_member, occurs}
use gnu_os.Pmm.{invalid_index}

-- From `first` the successors lead through a list to the invalid index, and the predecessors lead back to
-- `before`.
abbrev pub Chain : (next prev : ℕ → ℕ) → (before first : ℕ) → List ℕ → Type 0
Chain next prev before first [] = first ≡ invalid_index
Chain next prev before first (y ∷ ys) =
    (first ≡ y) × (prev y ≡ before) × (y ≢ invalid_index) × Chain next prev y (next y) ys

module _ (next prev next' prev' : ℕ → ℕ) where
  -- A chain survives what spares its members.
  pub frame :
      (before first : ℕ) (ys : List ℕ)
      → Chain next prev before first ys
      → ((j : ℕ) → occurs j ys ≢ 0 → (next' j ≡ next j) × (prev' j ≡ prev j))
      → Chain next' prev' before first ys
  frame before first [] c same = c
  frame before first (y ∷ ys) (e, p, v, c) same =
      let (sn, sp) = same y (ground arith) in
      (
        e,
        sp ∙ p,
        v,
        subst (λ f. Chain next' prev' y f ys) (sym sn)
            (frame y (next y) ys c (λ j o. same j (ground arith))),
      )

module _ (next prev : ℕ → ℕ) where
  pub member_valid :
      (before first : ℕ) (ys : List ℕ) (j : ℕ)
      → Chain next prev before first ys
      → occurs j ys ≢ 0
      → j ≢ invalid_index
  member_valid before first [] j c o = absurd (o refl)
  member_valid before first (y ∷ ys) j (e, p, v, c) o = elim (ℕ_discrete y j) [
    | yes same ↦ λ i. v (same ∙ i)
    | no ne ↦ member_valid y (next y) ys j c (ground arith)
  ]

  -- The first member, where there is one.
  pub first_cases :
      (before first : ℕ) (ys : List ℕ)
      → Chain next prev before first ys
      → ((first ≡ invalid_index) × (ys ≡ [])) ⊎ ((occurs first ys ≢ 0) × (prev first ≡ before))
  first_cases before first [] c = inl (c, refl)
  first_cases before first (y ∷ ys) (e, p, v, c) = inr (ground arith, ap prev e ∙ p)

  -- What follows a member is a member, or the end.
  pub successor :
      (before first : ℕ) (ys : List ℕ) (j : ℕ)
      → Chain next prev before first ys
      → occurs j ys ≢ 0
      → (next j ≡ invalid_index) ⊎ (occurs (next j) ys ≢ 0)
  successor before first [] j c o = absurd (o refl)
  successor before first (y ∷ ys) j (e, p, v, c) o = elim (ℕ_discrete y j) [
    | yes same ↦ elim (first_cases y (next y) ys c) [
      | inl (stop, none_left) ↦ inl (ap next (sym same) ∙ stop)
      | inr (more, back) ↦ inr (ground (arith, ap next same))
    ]
    | no ne ↦ elim (successor y (next y) ys j c (ground arith)) [
      | inl stop ↦ inl stop
      | inr more ↦ inr (ground arith)
    ]
  ]

  -- What precedes a member that is not the first is a member.
  pub predecessor :
      (before first : ℕ) (ys : List ℕ) (j : ℕ)
      → Chain next prev before first ys
      → occurs j ys ≢ 0
      → ((first ≡ j) × (prev j ≡ before)) ⊎ (occurs (prev j) ys ≢ 0)
  predecessor before first [] j c o = absurd (o refl)
  predecessor before first (y ∷ ys) j (e, p, v, c) o = elim (ℕ_discrete y j) [
    | yes same ↦ inl (e ∙ same, ap prev (sym same) ∙ p)
    | no ne ↦ elim (predecessor y (next y) ys j c (ground arith)) [
      | inl (follows, back) ↦ inr (ground arith)
      | inr more ↦ inr (ground arith)
    ]
  ]

  -- No member is linked to itself.
  pub not_own :
      (before first : ℕ) (ys : List ℕ) (j : ℕ)
      → Chain next prev before first ys
      → ((i : ℕ) → occurs i ys ≤ 1)
      → occurs before ys ≡ 0
      → occurs j ys ≢ 0
      → (next j ≢ j) × (prev j ≢ j)
  not_own before first [] j c once out o = absurd (o refl)
  not_own before first (y ∷ ys) j (e, p, v, c) once out o = elim (ℕ_discrete y j) [
    | yes same ↦ (
      elim (first_cases y (next y) ys c) [
        | inl (stop, none_left) ↦ λ q. v (same ∙ sym q ∙ ap next (sym same) ∙ stop)
        | inr (more, back) ↦
            λ q. more (ap (λ n. occurs n ys) (ap next same ∙ q ∙ sym same) ∙ ground (arith, once y))
      ],
      λ q. absurd (ground (arith, ap prev same, q)),
    )
    | no ne ↦
        not_own y (next y) ys j c (ground (arith, once)) (ground (arith, once y)) (ground arith)
  ]

-- What `free_list_remove` does to the links of `j` and its neighbours.
module _ (next prev next' prev' : ℕ → ℕ) (j : ℕ)
    (before_skips : prev j ≢ invalid_index → next' (prev j) ≡ next j)
    (next_kept : (i : ℕ) → i ≢ j → i ≢ prev j → next' i ≡ next i)
    (after_skips : next j ≢ invalid_index → prev' (next j) ≡ prev j)
    (prev_kept : (i : ℕ) → i ≢ j → i ≢ next j → prev' i ≡ prev i) where
  -- The member goes first.
  unlink_first :
      (before : ℕ) (ys : List ℕ)
      → Chain next prev j (next j) ys
      → prev j ≡ before
      → ((i : ℕ) → occurs i ys ≤ 1)
      → occurs j ys ≡ 0
      → occurs before ys ≡ 0
      → Chain next' prev' before (next j) ys
  unlink_first before [] c b once out apart = c
  unlink_first before (y ∷ ys) (e, p, v, c) b once out apart =
      let valid : next j ≢ invalid_index = ground (arith, e, v) in
      let kept : next' y ≡ next y = next_kept y (ground arith) (ground (arith, b)) in
      let rest : Chain next' prev' y (next y) ys =
        frame next prev next' prev' y (next y) ys c λ i o. (
          next_kept i (ground arith) (ground (arith, b)),
          prev_kept i (ground arith) (ground (arith, e, once y)),
        ) in
      (
        e,
        ap prev' (sym e) ∙ after_skips valid ∙ b,
        v,
        subst (λ f. Chain next' prev' y f ys) (sym kept) rest,
      )

  -- The new successor of a member `y` that stays, where the list goes on from it with `j` in it.
  next_after :
      (y : ℕ) (ys : List ℕ)
      → Chain next prev y (next y) ys
      → occurs j ys ≢ 0
      → occurs y ys ≡ 0
      → y ≢ invalid_index
      → next' y ≡ (if next y == j then next j else next y)
  next_after y ys c here out v = elim (ℕ_discrete (next y) j) [
    | yes follows ↦ elim (first_cases next prev y (next y) ys c) [
      | inl (stop, none_left) ↦ absurd (ground (arith, none_left))
      | inr (more, back) ↦
          let b : prev j ≡ y = ap prev (sym follows) ∙ back in
          ap next' (sym b) ∙ before_skips (ground (arith, b, v)) ∙ ground arith
    ]
    | no ne ↦ elim (predecessor next prev y (next y) ys j c here) [
      | inl (follows, back) ↦ absurd (ne follows)
      | inr more ↦
          next_kept y (ground arith) (λ k. more (ap (λ n. occurs n ys) (sym k) ∙ out))
          ∙ ground arith
    ]
  ]

  prev_before :
      (y : ℕ) (ys : List ℕ)
      → Chain next prev y (next y) ys
      → occurs j ys ≢ 0
      → occurs y ys ≡ 0
      → y ≢ invalid_index
      → prev' y ≡ prev y
  prev_before y ys c here out v = elim (successor next prev y (next y) ys j c here) [
    | inl stop ↦ prev_kept y (ground arith) (λ k. v (k ∙ stop))
    | inr more ↦ prev_kept y (ground arith) (λ k. more (ap (λ n. occurs n ys) (sym k) ∙ out))
  ]

  pub unlink :
      (before first : ℕ) (ys : List ℕ)
      → Chain next prev before first ys
      → ((i : ℕ) → occurs i ys ≤ 1)
      → occurs j ys ≢ 0
      → occurs before ys ≡ 0
      → Chain next' prev' before (if first == j then next j else first) (remove_member j ys)
  unlink before first [] c once here apart = absurd (here refl)
  unlink before first (y ∷ ys) (e, p, v, c) once here apart = elim (ℕ_discrete y j) [
    | yes same ↦
        let h1 : (first == j) ≡ true = ground arith in
        let h2 : (y == j) ≡ true = ground arith in
        rw (h1, h2)
          (unlink_first before ys (subst (λ k. Chain next prev k (next k) ys) same c)
            (ap prev (sym same) ∙ p) (ground (arith, once)) (ground (arith, once j)) (ground arith))
    | no ne ↦
        let h1 : (first == j) ≡ false = ground arith in
        let h2 : (y == j) ≡ false = ground arith in
        let there : occurs j ys ≢ 0 = ground arith in
        let out : occurs y ys ≡ 0 = ground (arith, once y) in
        let rest : Chain next' prev' y (if next y == j then next j else next y)
            (remove_member j ys) =
          unlink y (next y) ys c (ground (arith, once)) there out in
        rw (h1, h2)
          (
            e,
            prev_before y ys c there out v ∙ p,
            v,
            subst (λ f. Chain next' prev' y f (remove_member j ys))
                (sym (next_after y ys c there out v)) rest,
          )
  ]

-- What `free_list_push` does: `j` goes in front of `first`.
pub push :
    (next prev next' prev' : ℕ → ℕ) (j before first : ℕ) (ys : List ℕ)
    → next' j ≡ first
    → prev' j ≡ before
    → ((i : ℕ) → i ≢ j → next' i ≡ next i)
    → (first ≢ invalid_index → prev' first ≡ j)
    → ((i : ℕ) → i ≢ j → i ≢ first → prev' i ≡ prev i)
    → Chain next prev before first ys
    → ((i : ℕ) → occurs i ys ≤ 1)
    → occurs j ys ≡ 0
    → j ≢ invalid_index
    → Chain next' prev' before j (j ∷ ys)
push next prev next' prev' j before first [] n p ns ps pk c once out v = (refl, p, v, n ∙ c)
push next prev next' prev' j before first (y ∷ ys) n p ns ps pk (e, q, w, c) once out v =
    let rest : Chain next' prev' y (next y) ys =
      frame next prev next' prev' y (next y) ys c
        λ i o. (ns i (ground arith), pk i (ground arith) (ground (arith, e, once y))) in
    (
      refl,
      p,
      v,
      (
        n ∙ e,
        ap prev' (sym e) ∙ ps (ground (arith, e, w)),
        w,
        subst (λ f. Chain next' prev' y f ys) (sym (ns y (ground arith))) rest,
      ),
    )
