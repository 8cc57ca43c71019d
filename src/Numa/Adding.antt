-- ===== src/Numa/Adding.antt =====
-- kernel/mm/numa.c: adding a range keeps the table sound.
use native.Mathlib.Decide.{ℕ_discrete}
use gnu_os.Base.{
  ℕ, ◌+◌, ◌-◌, ◌^◌, ◌≤◌, ◌<◌, ◌≡◌, ◌≢◌, sym, ap, ◌∙◌, subst, inl, inr, ◌||◌, Bool-cases,
  Option-cases, ◌==◌, leb, ltb, arith, set, length, length-set, get_or-set_self, get_or-set_ne, u32,
}
use gnu_os.Pmm.Api.{u64_max}
use gnu_os.Numa.{
  Node, Numa, max_nodes, zero_node, extended, find_node_from, add_range, add_or_extend_node,
}
use gnu_os.Numa.Nodes.{
  IsRange, node_at, IsSound, extended-IsRange, extended_keeps, find_some, find_none,
}

abbrev replaced : Numa → ℕ → Node → Numa
replaced s i n = record s { nodes = set s.nodes i n }

at_replaced : (s : Numa) (i : ℕ) (n : Node) → i < length s.nodes → node_at (replaced s i n) i ≡ n
at_replaced s i n l = get_or-set_self s.nodes i n zero_node l

beside_replaced : (s : Numa) (i j : ℕ) (n : Node) → i ≢ j → node_at (replaced s i n) j ≡ node_at s j
beside_replaced s i j n ne = get_or-set_ne s.nodes i j n zero_node ne

-- A property of the new node and of all others holds of each.
each_replaced :
    (P : Node → Type 0) (s : Numa) (i j : ℕ) (n : Node)
    → i < length s.nodes
    → P n
    → (i ≢ j → P (node_at s j))
    → P (node_at (replaced s i n) j)
each_replaced P s i j n l new old = elim (ℕ_discrete i j) [
  | yes e ↦ subst (λ k. P (node_at (replaced s i n) k)) e (subst P (sym (at_replaced s i n l)) new)
  | no ne ↦ subst P (sym (beside_replaced s i j n ne)) (old ne)
]

same_number :
    (s : Numa) (i j : ℕ) (n : Node)
    → i < length s.nodes
    → n.node_id ≡ (node_at s i).node_id
    → (node_at (replaced s i n) j).node_id ≡ (node_at s j).node_id
same_number s i j n l same = elim (ℕ_discrete i j) [
  | yes e ↦
      subst (λ k. (node_at (replaced s i n) k).node_id ≡ (node_at s k).node_id) e
        (ap (λ m. m.node_id) (at_replaced s i n l) ∙ same)
  | no ne ↦ ap (λ m. m.node_id) (beside_replaced s i j n ne)
]

-- A node is replaced by one of the same number.
replaced-IsSound :
    (s : Numa) (i : ℕ) (n : Node)
    → IsSound s
    → i < s.node_count
    → IsRange n
    → n.node_id ≡ (node_at s i).node_id
    → IsSound (replaced s i n)
replaced-IsSound s i n v l range same =
    let k : i < length s.nodes = omega (arith, v.storage, v.few, l) in
    record {
      storage = length-set s.nodes i n ∙ v.storage;
      few = v.few;
      ranges = λ j m. each_replaced IsRange s i j n k range (λ _. v.ranges j m);
      distinct = λ a b la lb e.
          v.distinct a b la lb (sym (same_number s i a n k same) ∙ e ∙ same_number s i b n k same);
    }

abbrev with_node : Numa → Node → Numa
with_node s n = record s { nodes = set s.nodes s.node_count n; node_count = u32 (s.node_count + 1) }

-- A node with a new number is put behind the others.
with_node-IsSound :
    (s : Numa) (n : Node)
    → IsSound s
    → s.node_count < max_nodes
    → IsRange n
    → ((k : ℕ) → k < s.node_count → (node_at s k).node_id ≢ n.node_id)
    → IsSound (with_node s n)
with_node-IsSound s n v room range new = record {
  storage = length-set s.nodes s.node_count n ∙ v.storage;
  few = omega (arith, room);
  ranges = λ j m.
      each_replaced IsRange s s.node_count j n k range
        (λ ne. v.ranges j (omega (arith, m, ne, room)));
  distinct = λ a b la lb e. elim (ℕ_discrete s.node_count a) [
    | yes ea ↦ elim (ℕ_discrete s.node_count b) [
      | yes eb ↦ sym ea ∙ eb
      | no nb ↦ absurd (
          new b (omega (arith, lb, nb, room)) (
            sym (ap (λ m. m.node_id) (beside_replaced s s.node_count b n nb))
            ∙ sym e
            ∙ ap (λ k. (node_at (replaced s s.node_count n) k).node_id) (sym ea)
            ∙ ap (λ m. m.node_id) (at_replaced s s.node_count n k)))
    ]
    | no na ↦ elim (ℕ_discrete s.node_count b) [
      | yes eb ↦ absurd (
          new a (omega (arith, la, na, room)) (
            sym (ap (λ m. m.node_id) (beside_replaced s s.node_count a n na))
            ∙ e
            ∙ ap (λ k. (node_at (replaced s s.node_count n) k).node_id) (sym eb)
            ∙ ap (λ m. m.node_id) (at_replaced s s.node_count n k)))
      | no nb ↦ v.distinct a b (omega (arith, la, na, room)) (omega (arith, lb, nb, room)) (
          sym (ap (λ m. m.node_id) (beside_replaced s s.node_count a n na))
          ∙ e
          ∙ ap (λ m. m.node_id) (beside_replaced s s.node_count b n nb))
    ]
  ];
}
  where
    k : s.node_count < length s.nodes
    k = omega (arith, v.storage, room)

add_range-IsSound :
    (s : Numa) (node_id base size : ℕ)
    → IsSound s
    → 1 ≤ size
    → base + size ≤ u64_max
    → IsSound (add_range s node_id base size)
unfolding add_range
add_range-IsSound s node_id base size v some_bytes top =
    elim (Option-cases (find_node_from s.node_count 0 s.nodes node_id)) [
      | inr (i, e) ↦
          let (l, same) = find_some s.node_count 0 s.nodes node_id i e in
          let l' : i < s.node_count = omega (arith, l) in
          rw (add_range, e)
            (replaced-IsSound s i (extended (node_at s i) base (base + size)) v l'
              (extended-IsRange (node_at s i) base (base + size) (v.ranges i l')
                (omega (arith, some_bytes)) top)
              (extended_keeps (node_at s i) base (base + size)))
      | inl e ↦ elim (Bool-cases (leb max_nodes s.node_count)) [
        | inl full ↦ rw (add_range, e, full) v
        | inr room ↦
            rw (add_range, e, room)
              (with_node-IsSound s (record { node_id = node_id; base = base; size = size }) v
                (ground (arith, room)) (some_bytes, top)
                (λ k l.
                  find_none s.node_count 0 s.nodes node_id k e (omega arith) (omega (arith, l))))
      ]
    ]

pub add_or_extend_node-IsSound :
    (s : Numa) (node_id base size : ℕ)
    → IsSound s
    → size < 2 ^ 64
    → IsSound (add_or_extend_node s node_id base size)
unfolding add_or_extend_node
add_or_extend_node-IsSound s node_id base size v word =
    elim (Bool-cases ((size == 0) || ltb (u64_max - size) base)) [
      | inl bad ↦ rw (add_or_extend_node, bad) v
      | inr good ↦
          rw (add_or_extend_node, good)
            (add_range-IsSound s node_id base size v (ground (arith, good))
              (ground (arith, good, word)))
    ]
