-- ===== src/Ring/Refine.antt =====
-- The two operations of a valid ring are those of a bounded queue.
use mathlib.Core.Option
use native.Mathlib.Nat.{mod-add-mod}
use native.Mathlib.Decide.{ℕ_discrete, dec_lt}
use gnu_os.Base.{
  ℕ, refl, suc, sym, ◌^◌, ◌+◌, ◌-◌, ◌%◌, ◌≤◌, ◌<◌, ◌≡◌, ◌∙◌, ap, ap₂, ◌≢◌, List, [], ◌∷◌, ◌++◌,
  Option, none, some, arith, length, get_or, set, length-set, leb, if◌then◌else◌, u16, inc16, dec16,
}
use gnu_os.Ring.{Ring, enqueue, dequeue, IsValid}
use gnu_os.Ring.Contents.{contents, window, length-window, window_of_ne_zero, window-set}

module _ {ℓ} {A : Type ℓ} (cap : ℕ) where
  -- A queue of at most `cap` items.
  unfoldable pub push : List A → A → Option (List A)
  push q x = if leb cap (length q) then none else some (q ++ (x ∷ []))

module _ {ℓ} {A : Type ℓ} where
  abbrev pub pop : List A → Option (A × List A)
  pop [] = none
  pop (x ∷ q) = some (x, q)

next_tail :
    (cap h n t : ℕ)
    → cap < 2 ^ 16
    → 0 < cap
    → t ≡ (h + n) % cap
    → n ≤ cap
    → n < cap
    → u16 ((t + 1) % cap) ≡ (h + inc16 n) % cap
next_tail c h n t small pos e le lt =
    let low : (t + 1) % c < c = omega arith in
    let fits : inc16 n ≡ n + 1 = omega arith in
    let shift : (t + 1) % c ≡ (h + n + 1) % c = ap (λ k. (k + 1) % c) e ∙ mod-add-mod (h + n) c 1 in
    let same : h + n + 1 ≡ h + inc16 n = omega arith in
    let drop : u16 ((t + 1) % c) ≡ (t + 1) % c = omega arith in drop ∙ shift ∙ ap (λ k. k % c) same

next_head :
    (c h n : ℕ)
    → c < 2 ^ 16
    → h < c
    → n ≤ c
    → n ≢ 0
    → (h + n) % c ≡ (u16 ((h + 1) % c) + dec16 n) % c
next_head c h n small lt le ne =
    let low : (h + 1) % c < c = omega arith in
    let drop : u16 ((h + 1) % c) + dec16 n ≡ (h + 1) % c + (n - 1) = omega arith in
    let same : h + n ≡ h + 1 + (n - 1) = omega arith in
    ap (λ k. k % c) same ∙ sym (ap (λ k. k % c) drop ∙ mod-add-mod (h + 1) c (n - 1))

module _ {ℓ} {A : Type ℓ} (cap : ℕ) (d : A) where
  pub length-contents : (r : Ring A) → length (contents d cap r) ≡ r.size
  length-contents r = length-window d r.items cap r.head r.size

  pub enqueue_full : (r : Ring A) (x : A) → cap ≤ r.size → enqueue cap r x ≡ none
  unfolding enqueue
  enqueue_full r x h = ground arith

  -- What a successful `enqueue` leaves: a valid ring with one more item at the end.
  pub enqueue_grows :
      (r : Ring A) (x : A)
      → IsValid cap r
      → r.size < cap
      → (r' : Ring A) × (enqueue cap r x ≡ some r')
        × IsValid cap r'
        × (contents d cap r' ≡ contents d cap r ++ (x ∷ []))
        × (r'.size ≡ r.size + 1)
        × (r'.items ≡ set r.items r.tail x)
  unfolding enqueue
  enqueue_grows r x v h = (
    record r { items = set r.items r.tail x; tail = u16 ((r.tail + 1) % cap); size = inc16 r.size },
    ground arith,
    record {
      small = v.small;
      storage = length-set r.items r.tail x ∙ v.storage;
      head_in = v.head_in;
      tail_at = next_tail cap r.head r.size r.tail v.small (omega arith) v.tail_at v.size_in h;
      size_in = omega arith;
    },
    rw grown (window-set d cap r.items x r.size r.head r.tail (omega arith) v.head_in h v.tail_at),
    omega arith,
    refl,
  )
    where
      grown : inc16 r.size ≡ suc r.size
      grown = omega arith

  pub dequeue_empty : (r : Ring A) → r.size ≡ 0 → dequeue cap d r ≡ none
  unfolding dequeue
  dequeue_empty r h = ground arith

  -- What a successful `dequeue` leaves: the oldest item is handed out, the others stay in order.
  pub dequeue_shrinks :
      (r : Ring A)
      → IsValid cap r
      → r.size ≢ 0
      → (x : A) × (r' : Ring A) × (dequeue cap d r ≡ some (x, r'))
        × IsValid cap r'
        × (contents d cap r ≡ x ∷ contents d cap r')
        × (r'.size + 1 ≡ r.size)
        × (r'.items ≡ r.items)
        × (x ≡ get_or r.items r.head d)
  unfolding dequeue
  dequeue_shrinks r v h = (
    get_or r.items r.head d,
    record r { head = u16 ((r.head + 1) % cap); size = dec16 r.size },
    ground arith,
    record {
      small = v.small;
      storage = v.storage;
      head_in = omega arith;
      tail_at = v.tail_at ∙ next_head cap r.head r.size v.small v.head_in v.size_in h;
      size_in = omega arith;
    },
    window_of_ne_zero d r.items cap r.head r.size h
        ∙ ap₂ (λ a n. get_or r.items r.head d ∷ window d r.items cap a n) (omega arith)
            (omega arith),
    omega arith,
    refl,
    refl,
  )

  -- Putting an item into a valid ring answers as a queue of at most `cap` items does on what the ring
  -- holds: it is refused where the ring is full, and otherwise the item comes last.
  pub enqueue_refines :
      (r : Ring A) (x : A)
      → IsValid cap r
      → Option.map (contents d cap) (enqueue cap r x) ≡ push cap (contents d cap r) x
  unfolding push
  enqueue_refines r x v = elim (dec_lt r.size cap) [
    | yes h ↦
        let (r', e, _, c, _, _) = enqueue_grows r x v h in ground (arith, e, c, length-contents r)
    | no h ↦ ground (arith, enqueue_full r x, length-contents r)
  ]

  -- Taking an item out of a valid ring answers as a queue does on what the ring holds: nothing where it is
  -- empty, and otherwise the oldest item, with the others in order left.
  pub dequeue_refines :
      (r : Ring A)
      → IsValid cap r
      → Option.map (λ o. (o.0, contents d cap o.1)) (dequeue cap d r) ≡ pop (contents d cap r)
  dequeue_refines r v = elim (ℕ_discrete r.size 0) [
    | yes h ↦ ground (arith, dequeue_empty r h, ap (λ n. pop (window d r.items cap r.head n)) h)
    | no h ↦ let (x, r', e, _, c, _, _, _) = dequeue_shrinks r v h in rw (e, c)
  ]
