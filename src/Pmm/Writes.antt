-- ===== src/Pmm/Writes.antt =====
-- kernel/mm/pmm.c: writes to the pages of the hole, which the blocks outside it do not see.
use native.Mathlib.Decide.{ℕ_discrete}
use gnu_os.Base.{
  ◌<◌, ℕ, ◌+◌, ◌≡◌, ◌≢◌, refl, sym, ap, ◌∙◌, inl, inr, Bool, true, false, not, ◌&&◌, Bool-cases,
  List, ◌==◌, ==_refl, arith,
}
use gnu_os.Base.Occurs.{one_if}
use gnu_os.Pmm.{
  Pmm, BlockState, unused, update, is_free, block_pages, set_block, mark_block_owner, mark_from,
  clear_block_head,
}
use gnu_os.Pmm.Counts.{within, count_below-congr}
use gnu_os.Pmm.Divided.{Divided}
use gnu_os.Pmm.Closing.{mark_from_lem}
use gnu_os.Pmm.Partition.{is_head, is_used, within_self}

-- Writes in the hole change nothing outside it.
module _ (hole : ℕ → Bool) (x y : ℕ) (s : Pmm) (lists : ℕ → List ℕ) (status : ℕ → BlockState)
    (owner order : ℕ → ℕ) (state : ℕ → BlockState) (v : Divided hole x s lists status)
    (same_owner : (p : ℕ) → hole p ≡ false → owner p ≡ s.page_owner p)
    (same_order : (p : ℕ) → hole p ≡ false → order p ≡ s.block_order p)
    (same_state : (p : ℕ) → hole p ≡ false → state p ≡ s.block_state p)
    (empty : (p : ℕ) → hole p ≡ true → p ≢ y → is_used (state p) ≡ false) where
  heads_outside : (p : ℕ) → is_head hole state p ≡ is_head hole s.block_state p
  heads_outside p = elim (Bool-cases (hole p)) [
    | inl e ↦ rw e refl
    | inr e ↦ rw (e, same_state p e) refl
  ]

  outside :
      (p : ℕ)
      → is_head hole state p ≡ true
      → (hole p ≡ false) × (is_head hole s.block_state p ≡ true)
  outside p q = (ground arith, sym (heads_outside p) ∙ q)

  pub touch :
      Divided hole y
        (record s { page_owner = owner; block_order = order; block_state = state })
        lists
        status
  touch = record {
    blocks = record {
      bound = v.blocks.bound;
      inside = v.blocks.inside;
      empty = empty;
      small = λ h q. let (out, l) = outside h q in rw (same_order h out) (v.blocks.small h l);
      single = λ h q held.
          let (out, l) = outside h q in
          rw (same_order h out) (v.blocks.single h l (rw (same_state h out) at held));
      fits = λ h q. let (out, l) = outside h q in rw (same_order h out) (v.blocks.fits h l);
      owned = λ h p q w.
          let (out, l) = outside h q in
          let (o, away) = v.blocks.owned h p l (rw (same_order h out) at w) in
          (same_owner p away ∙ o, away);
      covered = λ p l q.
          let (o, w) = v.blocks.covered p l q in
          let out : hole (s.page_owner p) ≡ false = ground arith in
          rw (same_owner p q, same_order (s.page_owner p) out)
            (heads_outside (s.page_owner p) ∙ o, w);
      stands = λ p l q.
          let (o, w) = v.blocks.covered p l q in
          let out : hole (s.page_owner p) ≡ false = ground arith in
          rw (same_owner p q, same_state (s.page_owner p) out) (v.blocks.stands p l q);
    };
    listed = λ k p. v.listed k p ∙ same_listed k p;
    chained = v.chained;
    counted = v.counted;
  }
    where
      same_listed :
          (k p : ℕ)
          → one_if (
              is_head hole s.block_state p && (is_free (s.block_state p) && (s.block_order p == k)))
            ≡ one_if (is_head hole state p && (is_free (state p) && (order p == k)))
      same_listed k p = elim (Bool-cases (hole p)) [
        | inl e ↦ rw e refl
        | inr e ↦ rw (e, same_order p e, same_state p e) refl
      ]

-- `set_block` inside the hole, which has no other state in it.
pub set_in_hole :
    (hole : ℕ → Bool) (x : ℕ) (s : Pmm) (lists : ℕ → List ℕ) (status : ℕ → BlockState) (start k : ℕ)
    (st : BlockState)
    → Divided hole x s lists status
    → ((p : ℕ) → within start (block_pages k) p ≡ true → hole p ≡ true)
    → ((p : ℕ) → hole p ≡ true → p ≢ start → p ≢ x)
    → Divided hole start (set_block s start k st) lists status
unfolding set_block mark_block_owner
set_in_hole hole x s lists status start k st v covers exempt =
    touch hole x start s lists status (mark_from (block_pages k) 0 start s.page_owner)
      (update s.block_order start k) (update s.block_state start st) v
      (λ p out.
        let from : start + 0 ≡ start = omega arith in
        mark_from_lem (block_pages k) 0 start s.page_owner p ∙ rw (from, beyond p out) refl)
      (λ p out. rw (other p out) refl) (λ p out. rw (other p out) refl)
      (λ p q ne.
        let away : (p == start) ≡ false = ground arith in
        rw away (v.blocks.empty p q (exempt p q ne)))
  where
    beyond : (p : ℕ) → hole p ≡ false → within start (block_pages k) p ≡ false
    beyond p out = elim (Bool-cases (within start (block_pages k) p)) [
      | inl e ↦ absurd (ground (arith, covers p e, out))
      | inr e ↦ e
    ]

    other : (p : ℕ) → hole p ≡ false → (p == start) ≡ false
    other p out = elim (ℕ_discrete p start) [
      | yes e ↦ absurd (ground (arith, beyond p out, within_self start k, e))
      | no ne ↦ ground arith
    ]

-- `clear_block_head` inside the hole.
pub clear_in_hole :
    (hole : ℕ → Bool) (x y c : ℕ) (s : Pmm) (lists : ℕ → List ℕ) (status : ℕ → BlockState)
    → Divided hole x s lists status
    → hole c ≡ true
    → ((p : ℕ) → hole p ≡ true → p ≢ y → p ≢ c → p ≢ x)
    → Divided hole y (clear_block_head s c) lists status
unfolding clear_block_head
clear_in_hole hole x y c s lists status v inside exempt =
    touch hole x y s lists status s.page_owner (update s.block_order c 0)
      (update s.block_state c unused) v (λ p out. refl) (λ p out. rw (other p out) refl)
      (λ p out. rw (other p out) refl)
      (λ p q ne. elim (ℕ_discrete p c) [
        | yes e ↦ rw (e, ==_refl c) refl
        | no nc ↦
            let away : (p == c) ≡ false = ground arith in
            rw away (v.blocks.empty p q (exempt p q ne nc))
      ])
  where
    other : (p : ℕ) → hole p ≡ false → (p == c) ≡ false
    other p out = elim (ℕ_discrete p c) [
      | yes e ↦ absurd (ground (arith, ap hole e, inside, out))
      | no ne ↦ ground arith
    ]

-- Only what the blocks outside the hole say of the pages counts.
pub restate :
    (hole : ℕ → Bool) (x : ℕ) (s : Pmm) (lists : ℕ → List ℕ) (status status' : ℕ → BlockState)
    → Divided hole x s lists status
    → ((p : ℕ) → p < s.total_pages → hole p ≡ false → status' p ≡ status p)
    → Divided hole x s lists status'
restate hole x s lists status status' v same = record {
  blocks = record {
    bound = v.blocks.bound;
    inside = v.blocks.inside;
    empty = v.blocks.empty;
    small = v.blocks.small;
    single = v.blocks.single;
    fits = v.blocks.fits;
    owned = v.blocks.owned;
    covered = v.blocks.covered;
    stands = λ p l q. v.blocks.stands p l q ∙ sym (same p l q);
  };
  listed = v.listed;
  chained = v.chained;
  counted =
      v.counted
      ∙ sym (
          count_below-congr (λ p. not (hole p) && is_free (status p))
            (λ p. not (hole p) && is_free (status' p)) s.total_pages
            (λ p l. elim (Bool-cases (hole p)) [
              | inl e ↦ rw e refl
              | inr e ↦ rw (same p l e) refl
            ]));
}
