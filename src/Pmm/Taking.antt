-- ===== src/Pmm/Taking.antt =====
-- kernel/mm/pmm.c: `alloc_block` takes a free block, splits it down to the order asked for, and gives the
-- rest back.
use native.Mathlib.Decide.{ℕ_discrete}
use gnu_os.Base.{
  ℕ, zero, suc, ◌+◌, ◌-◌, ◌≤◌, ◌<◌, ◌≡◌, ◌≢◌, refl, ap, ◌∙◌, subst, ◌⊎◌, inl, inr, Bool, true,
  false, Bool-cases, Option, none, some, List, ◌∷◌, ◌==◌, if◌then◌else◌, arith,
}
use gnu_os.Base.Occurs.{remove_member}
use gnu_os.Pmm.{
  Pmm, BlockState, free, allocated, max_order, invalid_index, update, is_free, block_pages,
  set_block, mark_block_owner, clear_block_head, free_list_push, free_list_remove, add_free_block,
  remove_free_block,
}
use gnu_os.Pmm.Blocks.{split_from, alloc_from, alloc_block}
use gnu_os.Pmm.Buddies.{block_pages-suc, block_pages_mono}
use gnu_os.Pmm.Counts.{within, lower_half, upper_in, lower_in}
use gnu_os.Pmm.FreeList.{first_cases}
use gnu_os.Pmm.Divided.{Divided, open_free, status_in_block}
use gnu_os.Pmm.Closing.{close_free, close_held}
use gnu_os.Pmm.Partition.{is_head, within_self}

-- No page is out of the blocks.
abbrev pub nowhere : ℕ → Bool
nowhere p = false

abbrev pub Whole : Pmm → (ℕ → List ℕ) → (ℕ → BlockState) → Type 0
Whole s lists status = Divided nowhere 0 s lists status

pub any_exempt :
    (x y : ℕ) (s : Pmm) (lists : ℕ → List ℕ) (status : ℕ → BlockState)
    → Divided nowhere x s lists status
    → Divided nowhere y s lists status
any_exempt x y s lists status v = record {
  blocks = record {
    bound = v.blocks.bound;
    inside = v.blocks.inside;
    empty = λ p q. absurd (ground (arith, q));
    small = v.blocks.small;
    single = v.blocks.single;
    fits = v.blocks.fits;
    owned = v.blocks.owned;
    covered = v.blocks.covered;
    stands = v.blocks.stands;
  };
  listed = v.listed;
  chained = v.chained;
  counted = v.counted;
}

-- Two states of the same memory.
pub record SameMemory (s s' : Pmm) : Type 0 where
  pub total : s'.total_pages ≡ s.total_pages
  pub base : s'.base ≡ s.base

pub SameMemory-trans : (s s' s'' : Pmm) → SameMemory s s' → SameMemory s' s'' → SameMemory s s''
SameMemory-trans s s' s'' a b = record { total = b.total ∙ a.total; base = b.base ∙ a.base }

pub add_free_block-SameMemory : (s : Pmm) (page k : ℕ) → SameMemory s (add_free_block s page k)
unfolding add_free_block set_block mark_block_owner free_list_push
add_free_block-SameMemory s page k = record { total = refl; base = refl }

pub remove_free_block-SameMemory : (s : Pmm) (page : ℕ) → SameMemory s (remove_free_block s page)
unfolding remove_free_block clear_block_head free_list_remove
remove_free_block-SameMemory s page = record { total = refl; base = refl }

pub set_block-SameMemory :
    (s : Pmm) (page k : ℕ) (st : BlockState) → SameMemory s (set_block s page k st)
unfolding set_block mark_block_owner
set_block-SameMemory s page k st = record { total = refl; base = refl }

split_from-SameMemory : (n block target : ℕ) (s : Pmm) → SameMemory s (split_from n block target s)
unfolding split_from
split_from-SameMemory zero block target s = record { total = refl; base = refl }
split_from-SameMemory (suc n) block target s =
    SameMemory-trans s (add_free_block s (block + block_pages (target + n)) (target + n))
      (split_from (suc n) block target s)
      (add_free_block-SameMemory s (block + block_pages (target + n)) (target + n))
      (split_from-SameMemory n block target
        (add_free_block s (block + block_pages (target + n)) (target + n)))

-- A status written over the same status.
pub unchanged :
    (b : Bool) (st now : BlockState) → (b ≡ true → now ≡ st) → now ≡ (if b then st else now)
unchanged true st now same = same refl
unchanged false st now same = refl

pub first_within : (start k p : ℕ) → p ≡ start → within start (block_pages k) p ≡ true
first_within start k p e = rw e (within_self start k)

-- The upper halves of a free block that is out go back, and its lower part stays out.
split_from-Divided :
    (n block target order : ℕ) (s : Pmm) (lists : ℕ → List ℕ) (status : ℕ → BlockState)
    → order ≡ target + n
    → order ≤ max_order
    → Divided (within block (block_pages order)) block s lists status
    → ((p : ℕ) → within block (block_pages order) p ≡ true → status p ≡ free)
    → (lists' : ℕ → List ℕ) × Divided
        (within block (block_pages target))
        block
        (split_from n block target s)
        lists'
        status
unfolding split_from
split_from-Divided zero block target order s lists status e low v is =
    let same : order ≡ target = omega arith in
    (lists, subst (λ k. Divided (within block (block_pages k)) block s lists status) same v)
split_from-Divided (suc n) block target order s lists status e low v is =
    let k = target + n in
    let size : block_pages order ≡ block_pages k + block_pages k =
      ap block_pages (e ∙ omega arith) ∙ block_pages-suc k in
    let upper = block + block_pages k in
    let w : Divided (within block (block_pages k)) block (add_free_block s upper k)
        (update lists k (upper ∷ lists k)) status =
      close_free (within block (block_pages order)) (within block (block_pages k)) block block s
        lists status status upper k free v refl (omega arith) (λ held. absurd (ground arith))
        (λ p q. rw size (upper_in block (block_pages k) p q))
        (λ p. rw size (lower_half block (block_pages k) p))
        (λ p q ne same e. same (first_within block k p e) e)
        (λ p.
          unchanged (within upper (block_pages k) p) free (status p)
            (λ q. is p (rw size (upper_in block (block_pages k) p q))))
        refl in
    split_from-Divided n block target k (add_free_block s upper k)
      (update lists k (upper ∷ lists k)) status refl (omega arith) w
      (λ p q. is p (rw size (lower_in block (block_pages k) p q)))

-- A free block of the order asked for is taken, and no other page changes.
abbrev pub Took : (target : ℕ) (s : Pmm) (status : ℕ → BlockState) (block : ℕ) (s' : Pmm) → Type 0
Took target s status block s' =
    (block + block_pages target ≤ s.total_pages)
    × ((p : ℕ) → within block (block_pages target) p ≡ true → status p ≡ free)
    × SameMemory s s'
    × (lists : ℕ → List ℕ) × Whole s' lists
        (λ p. if within block (block_pages target) p then allocated else status p)

-- What `alloc_block` and its loop do: no list of the orders tried holds a block, or a block is taken.
abbrev pub Takes :
    (Tried : ℕ → Type 0) (target : ℕ) (s : Pmm) (status : ℕ → BlockState) → Option ℕ × Pmm → Type 0
Takes Tried target s status out =
    ((out ≡ (none, s)) × ((k : ℕ) → Tried k → s.free_heads k ≡ invalid_index))
    ⊎ ((block : ℕ) × (s' : Pmm) × (out ≡ (some block, s')) × Took target s status block s')

-- The block at the front of a list.
module _ (s : Pmm) (lists : ℕ → List ℕ) (status : ℕ → BlockState) (v : Whole s lists status)
    (order : ℕ) where
  pub front_of_list :
      s.free_heads order ≢ invalid_index
      → (is_head nowhere s.block_state (s.free_heads order) ≡ true)
        × (is_free (s.block_state (s.free_heads order)) ≡ true)
        × (s.block_order (s.free_heads order) ≡ order)
  front_of_list valid =
      elim (first_cases s.free_next s.free_prev invalid_index (s.free_heads order) (lists order)
        (v.chained order)) [
          | inl (stop, none_left) ↦ absurd (valid stop)
          | inr (more, back) ↦
              let l = v.listed order (s.free_heads order) in
              (ground (arith, l), ground (arith, l), ground (arith, l))
        ]

pub free_of : (b : BlockState) → is_free b ≡ true → b ≡ free
free_of b h = ground arith

-- A free block is split and taken.
take_block :
    (order target block : ℕ) (s : Pmm) (lists : ℕ → List ℕ) (status : ℕ → BlockState)
    → Whole s lists status
    → target ≤ order
    → is_head nowhere s.block_state block ≡ true
    → is_free (s.block_state block) ≡ true
    → s.block_order block ≡ order
    → target ≡ 0
    → Took target s status block (
        set_block
          (split_from (order - target) block target (remove_free_block s block))
          block
          target
          allocated)
take_block order target block s lists status v le first is same page_only =
    let hole = within block (block_pages (s.block_order block)) in
    let w = any_exempt 0 block s lists status v in
    let opened = open_free nowhere hole block s lists status block w first (λ p. refl) is in
    let all_free : (p : ℕ) → hole p ≡ true → status p ≡ free = λ p q.
      (status_in_block nowhere hole block s lists status block w first (λ p. refl) p q).1
      ∙ free_of (s.block_state block) is in
    let (lists', split) =
      split_from-Divided (order - target) block target (s.block_order block)
        (remove_free_block s block)
        (update lists (s.block_order block) (remove_member block (lists (s.block_order block))))
        status (omega (arith, same, le)) (v.blocks.small block first) opened all_free in
    let taken = within block (block_pages target) in
    let smaller = block_pages_mono target (s.block_order block) (omega (arith, same, le)) in
    let taken_in : (p : ℕ) → taken p ≡ true → hole p ≡ true = λ p q. ground (arith, smaller) in
    let halved = split_from (order - target) block target (remove_free_block s block) in
    (
      omega (arith, v.blocks.fits block first, smaller),
      λ p q. all_free p (taken_in p q),
      SameMemory-trans s (remove_free_block s block) (set_block halved block target allocated)
          (remove_free_block-SameMemory s block)
          (SameMemory-trans (remove_free_block s block) halved
            (set_block halved block target allocated)
            (split_from-SameMemory (order - target) block target (remove_free_block s block))
            (set_block-SameMemory halved block target allocated)),
      lists',
      close_held taken nowhere block 0 halved lists' status
          (λ p. if taken p then allocated else status p) block target allocated split refl
          (omega (arith, same, le, v.blocks.small block first)) (λ held. page_only) (λ p q. q)
          (λ p. ground arith) (λ p q ne gone. ne) (λ p. refl) refl,
    )

-- Enough rounds are tried for the orders from `order` on.
alloc_from-Takes :
    (n order target : ℕ) (s : Pmm) (lists : ℕ → List ℕ) (status : ℕ → BlockState)
    → Whole s lists status
    → target ≤ order
    → target ≡ 0
    → Takes (λ k. (order ≤ k) × (k < order + n)) target s status (alloc_from n order target s)
unfolding alloc_from
alloc_from-Takes zero order target s lists status v le page_only =
    inl (refl, λ k (low, high). absurd (omega arith))
alloc_from-Takes (suc n) order target s lists status v le page_only =
    elim (Bool-cases (s.free_heads order == invalid_index)) [
      | inl empty ↦
          rw empty
            (elim (alloc_from-Takes n (order + 1) target s lists status v (omega arith) page_only) [
              | inl (out, tried) ↦ inl (
                out,
                λ k (low, high). elim (ℕ_discrete k order) [
                  | yes e ↦ ap s.free_heads e ∙ ground arith
                  | no ne ↦ tried k (omega arith, omega arith)
                ],
              )
              | inr took ↦ inr took
            ])
      | inr valid ↦
          let (first, is, same) = front_of_list s lists status v order (ground arith) in
          rw valid (
            inr (
              s.free_heads order,
              set_block
                  (split_from (order - target) (s.free_heads order) target
                    (remove_free_block s (s.free_heads order)))
                  (s.free_heads order) target allocated,
              refl,
              take_block order target (s.free_heads order) s lists status v le first is same
                  page_only,
            ))
    ]

-- `alloc_block` tries the orders from the target to the highest one.
pub alloc_block-Takes :
    (target : ℕ) (s : Pmm) (lists : ℕ → List ℕ) (status : ℕ → BlockState)
    → Whole s lists status
    → target ≤ max_order
    → target ≡ 0
    → Takes (λ k. (target ≤ k) × (k ≤ max_order)) target s status (alloc_block s target)
unfolding alloc_block
alloc_block-Takes target s lists status v le page_only =
    elim (alloc_from-Takes (max_order + 1 - target) target target s lists status v (omega arith)
      page_only) [
        | inl (out, tried) ↦ inl (out, λ k (low, high). tried k (low, omega arith))
        | inr took ↦ inr took
      ]
