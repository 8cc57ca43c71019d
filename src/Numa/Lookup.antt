-- ===== src/Numa/Lookup.antt =====
-- kernel/mm/numa.c: which node an address belongs to.
use native.Mathlib.Nat.{zero-add}
use native.Mathlib.Decide.{ℕ_discrete}
use gnu_os.Base.{
  ℕ, zero, suc, ◌+◌, ◌≤◌, ◌<◌, ◌≡◌, refl, subst, ◌⊎◌, inl, inr, true, false, ◌&&◌, Bool-cases,
  Option, none, some, List, leb, ltb, arith, get_or,
}
use gnu_os.Numa.{Node, Numa, zero_node, node_end, phys_to_node_from, phys_to_node}
use gnu_os.Numa.Nodes.{IsRange, IsSound, node_end_lem}

-- An address of a node.
abbrev pub Has : Node → (phys_addr : ℕ) → Type 0
Has n phys_addr = (n.base ≤ phys_addr) × (phys_addr < n.base + n.size)

-- The node of an address: the first one that has it, among those from `i` up to `last`.
abbrev pub Finds : (nodes : List Node) (i last : ℕ) → (phys_addr : ℕ) → Option ℕ → Type 0
Finds nodes i last phys_addr out =
    ((out ≡ none) × ((j : ℕ) → i ≤ j → j < last → ¬ Has (get_or nodes j zero_node) phys_addr))
    ⊎ ((k : ℕ) × (i ≤ k)
        × (k < last)
        × (out ≡ some (get_or nodes k zero_node).node_id)
        × Has (get_or nodes k zero_node) phys_addr
        × ((j : ℕ) → i ≤ j → j < k → ¬ Has (get_or nodes j zero_node) phys_addr))

address_cases :
    (n : Node) (phys_addr : ℕ)
    → IsRange n
    → (((leb n.base phys_addr && ltb phys_addr (node_end n)) ≡ true) × Has n phys_addr)
      ⊎ (((leb n.base phys_addr && ltb phys_addr (node_end n)) ≡ false) × ¬ Has n phys_addr)
address_cases n phys_addr range =
    rw (node_end_lem n range)
      (elim (Bool-cases (leb n.base phys_addr && ltb phys_addr (n.base + n.size))) [
        | inl has ↦ inl (has, (ground (arith, has), ground (arith, has)))
        | inr other ↦ inr (other, λ h. absurd (ground (arith, other, h.0, h.1)))
      ])

lacks_from :
    (nodes : List Node) (i top phys_addr : ℕ)
    → ¬ Has (get_or nodes i zero_node) phys_addr
    → ((j : ℕ) → i + 1 ≤ j → j < top → ¬ Has (get_or nodes j zero_node) phys_addr)
    → (j : ℕ) → i ≤ j
    → j < top
    → ¬ Has (get_or nodes j zero_node) phys_addr
lacks_from nodes i top phys_addr lacks rest j low high = elim (ℕ_discrete i j) [
  | yes e ↦ subst (λ k. ¬ Has (get_or nodes k zero_node) phys_addr) e lacks
  | no ne ↦ rest j (omega (arith, low, ne)) high
]

later :
    (n i : ℕ) (nodes : List Node) (phys_addr : ℕ) (out : Option ℕ)
    → ¬ Has (get_or nodes i zero_node) phys_addr
    → Finds nodes (i + 1) (i + 1 + n) phys_addr out
    → Finds nodes i (i + suc n) phys_addr out
later n i nodes phys_addr out lacks (inl (e, rest)) = inl (
  e,
  λ j low high. lacks_from nodes i (i + 1 + n) phys_addr lacks rest j low (omega (arith, high)),
)
later n i nodes phys_addr out lacks (inr (k, low, high, e, has, rest)) =
    inr (
      k,
      omega (arith, low),
      omega (arith, high),
      e,
      has,
      lacks_from nodes i k phys_addr lacks rest,
    )

phys_to_node_from_lem :
    (n i : ℕ) (nodes : List Node) (phys_addr : ℕ)
    → ((j : ℕ) → j < i + n → IsRange (get_or nodes j zero_node))
    → Finds nodes i (i + n) phys_addr (phys_to_node_from n i nodes phys_addr)
unfolding phys_to_node_from
phys_to_node_from_lem zero i nodes phys_addr ranges =
    inl (refl, λ j low high. absurd (omega (arith, low, high)))
phys_to_node_from_lem (suc n) i nodes phys_addr ranges =
    elim (address_cases (get_or nodes i zero_node) phys_addr (ranges i (omega arith))) [
      | inl (test, has) ↦
          rw (phys_to_node_from, test)
            (inr (
              i,
              omega arith,
              omega arith,
              refl,
              has,
              λ j low high. absurd (omega (arith, low, high)),
            ))
      | inr (test, lacks) ↦
          rw (phys_to_node_from, test)
            (later n i nodes phys_addr (phys_to_node_from n (i + 1) nodes phys_addr) lacks (
              phys_to_node_from_lem n (i + 1) nodes phys_addr (λ j l. ranges j (omega (arith, l)))))
    ]

-- `numa_phys_to_node` with a place for the answer, on a sound table that is ready: it gives the number of the first node that has the
-- address, and fails exactly where no node has it.
pub phys_to_node_outcome :
    (s : Numa) (phys_addr : ℕ)
    → IsSound s
    → s.numa_ready ≡ true
    → Finds s.nodes 0 s.node_count phys_addr (phys_to_node s phys_addr true)
unfolding phys_to_node
phys_to_node_outcome s phys_addr v ready =
    rw (phys_to_node, ready)
      (subst
        (λ last.
          Finds s.nodes 0 last phys_addr (phys_to_node_from s.node_count 0 s.nodes phys_addr))
        (zero-add s.node_count)
        (phys_to_node_from_lem s.node_count 0 s.nodes phys_addr
          (λ j l. v.ranges j (omega (arith, l)))))
