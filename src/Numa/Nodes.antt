-- ===== src/Numa/Nodes.antt =====
-- kernel/mm/numa.c: the table of nodes while ranges are added, whatever bytes the firmware's table has.
use native.Mathlib.Decide.{ℕ_discrete}
use gnu_os.Base.{
  ℕ, zero, suc, ◌+◌, ◌≤◌, ◌<◌, ◌≡◌, ◌≢◌, refl, sym, ap, ◌∙◌, inl, inr, false, Bool-cases, none,
  some, List, ◌==◌, ltb, arith, get_or, length, u64,
}
use gnu_os.Pmm.Api.{u64_max}
use gnu_os.Numa.{Node, Numa, max_nodes, zero_node, node_end, extended, find_node_from}

-- A range that is not empty and ends within the 64-bit addresses.
abbrev pub IsRange : Node → Type 0
IsRange n = (1 ≤ n.size) × (n.base + n.size ≤ u64_max)

abbrev pub node_at : Numa → ℕ → Node
node_at s i = get_or s.nodes i zero_node

-- The table has its 8 places; the nodes in use are ranges, and no two have the same number.
pub record IsSound (s : Numa) : Type 0 where
  pub storage : length s.nodes ≡ max_nodes
  pub few : s.node_count ≤ max_nodes
  pub ranges : (i : ℕ) → i < s.node_count → IsRange (node_at s i)
  pub distinct :
      (i j : ℕ)
      → i < s.node_count
      → j < s.node_count
      → (node_at s i).node_id ≡ (node_at s j).node_id
      → i ≡ j

pub node_end_lem : (n : Node) → IsRange n → node_end n ≡ n.base + n.size
unfolding node_end
node_end_lem n (some_bytes, top) =
    let same : u64 (n.base + n.size) ≡ n.base + n.size = omega (arith, top) in
    let after : ltb (n.base + n.size) n.base ≡ false = ground arith in
    rw (node_end, same, after) refl

pub extended-IsRange :
    (n : Node) (base end : ℕ)
    → IsRange n
    → base < end
    → end ≤ u64_max
    → IsRange (extended n base end)
unfolding extended
extended-IsRange n base end (some_bytes, top) some_more small =
    rw (node_end_lem n (some_bytes, top)) (ground arith, ground arith)

pub extended_keeps : (n : Node) (base end : ℕ) → (extended n base end).node_id ≡ n.node_id
unfolding extended
extended_keeps n base end = refl

pub find_some :
    (n i : ℕ) (nodes : List Node) (node_id k : ℕ)
    → find_node_from n i nodes node_id ≡ some k
    → (k < i + n) × ((get_or nodes k zero_node).node_id ≡ node_id)
unfolding find_node_from
find_some zero i nodes node_id k h = absurd (ground (arith, h))
find_some (suc n) i nodes node_id k h =
    elim (Bool-cases ((get_or nodes i zero_node).node_id == node_id)) [
      | inl here ↦
          let at : i ≡ k = ground (arith, h, here) in
          (
            omega (arith, at),
            ap (λ j. (get_or nodes j zero_node).node_id) (sym at) ∙ ground (arith, here),
          )
      | inr other ↦
          let (l, e) = find_some n (i + 1) nodes node_id k (ground (arith, h, other)) in
          (omega (arith, l), e)
    ]

pub find_none :
    (n i : ℕ) (nodes : List Node) (node_id k : ℕ)
    → find_node_from n i nodes node_id ≡ none
    → i ≤ k
    → k < i + n
    → (get_or nodes k zero_node).node_id ≢ node_id
unfolding find_node_from
find_none zero i nodes node_id k h low high same = absurd (omega (arith, low, high))
find_none (suc n) i nodes node_id k h low high same =
    elim (Bool-cases ((get_or nodes i zero_node).node_id == node_id)) [
      | inl here ↦ absurd (ground (arith, h, here))
      | inr other ↦ elim (ℕ_discrete i k) [
        | yes at ↦
            let e : (get_or nodes i zero_node).node_id ≡ node_id =
              ap (λ j. (get_or nodes j zero_node).node_id) at ∙ same in
            absurd (ground (arith, other, e))
        | no ne ↦
            find_none n (i + 1) nodes node_id k (ground (arith, h, other)) (omega (arith, low, ne))
              (omega (arith, high)) same
      ]
    ]
