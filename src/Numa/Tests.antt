-- ===== src/Numa/Tests.antt =====
-- Tests of the memory nodes without a table of the firmware, and the witnesses of their properties.
use gnu_os.Base.{ℕ, ◌≡◌, refl, Bool, true, false, some, arith, replicate, length-replicate}
use gnu_os.Numa.{
  Numa, max_nodes, zero_node, numa_init, parse_srat, with_fallback, reset_state, add_or_extend_node,
  add_range, find_node_from, phys_to_node, phys_to_node_from, node_end,
}
use gnu_os.Numa.Nodes.{IsSound}
use gnu_os.Numa.Sound.{numa_init-IsSound}
use gnu_os.Numa.Lookup.{Finds, phys_to_node_outcome}

abbrev before : Numa
before = record {
  nodes = replicate max_nodes zero_node;
  node_count = 0;
  numa_ready = false;
  from_srat = false;
}

abbrev nothing_mapped : ℕ → Bool
nothing_mapped page = false

abbrev zeros : ℕ → ℕ
zeros a = 0

-- One node with the memory from 0x1000 on.
abbrev started : Numa
started = numa_init nothing_mapped nothing_mapped before zeros 0 4096 65536

numa_init-IsSound_example : IsSound started
numa_init-IsSound_example =
    numa_init-IsSound zeros (λ a. omega arith) nothing_mapped nothing_mapped before 0 4096 65536
      (length-replicate max_nodes zero_node) (omega arith)

started-IsSound : IsSound started
started-IsSound =
    numa_init-IsSound zeros (λ a. omega arith) nothing_mapped nothing_mapped before 0 4096 65536
      (length-replicate max_nodes zero_node) (omega arith)

ready : started.numa_ready ≡ true
unfolding numa_init parse_srat with_fallback reset_state add_or_extend_node add_range find_node_from
ready = refl

phys_to_node_outcome_example :
    Finds started.nodes 0 started.node_count 5000 (phys_to_node started 5000 true)
phys_to_node_outcome_example = phys_to_node_outcome started 5000 started-IsSound ready

in_node_0 : phys_to_node started 5000 true ≡ some 0
unfolding numa_init parse_srat with_fallback reset_state add_or_extend_node add_range find_node_from
    phys_to_node phys_to_node_from node_end replicate
in_node_0 = refl
