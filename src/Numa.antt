-- ===== src/Numa.antt =====
-- kernel/mm/numa.c and kernel/include/gnuos/numa.h: the memory nodes, which come from the SRAT table of the
-- firmware. The memory is a function from addresses to bytes. The log lines are left out.
pub mod Nodes
pub mod Adding
pub mod Sound
pub mod Lookup
mod Tests
use gnu_os.Base.{
  ℕ, zero, suc, ◌+◌, ◌-◌, ◌*◌, ◌/◌, ◌%◌, ◌^◌, Bool, true, false, not, ◌&&◌, ◌||◌, Option, none,
  some, List, [], ◌∷◌, map, leb, ltb, ◌==◌, if◌then◌else◌, get_or, set, replicate, u8, u32, u64,
  bit_and,
}
use gnu_os.Pmm.{page_bytes}
use gnu_os.Pmm.Api.{page_mask, u64_max}

-- `NUMA_MAX_NODES`
abbrev pub max_nodes : ℕ
max_nodes = 8

-- `numa_node_info_t`
pub record Node : Type 0 where
  pub node_id : ℕ
  pub base : ℕ
  pub size : ℕ

-- The static variables.
pub record Numa : Type 0 where
  pub nodes : List Node
  pub node_count : ℕ
  pub numa_ready : Bool
  pub from_srat : Bool

abbrev pub zero_node : Node
zero_node = record { node_id = 0; base = 0; size = 0 }

abbrev clear_node : Node → Node
clear_node n = zero_node

unfoldable pub reset_state : Numa → Numa
reset_state s = record {
  nodes = map clear_node s.nodes;
  node_count = 0;
  numa_ready = false;
  from_srat = false;
}

-- The end of a node, where a wrap-around is cut off.
unfoldable pub node_end : Node → ℕ
node_end n = let end = u64 (n.base + n.size) in if ltb end n.base then u64_max else end

-- A node that also takes in a range. The new end is not below the new base.
unfoldable pub extended : Node → (base end : ℕ) → Node
extended n base end =
    let new_base = if ltb base n.base then base else n.base in
    let new_end = if ltb (node_end n) end then end else node_end n in
    record n { base = new_base; size = new_end - new_base }

-- The loop over the nodes: rounds left, then the index.
unfoldable pub find_node_from : ℕ → ℕ → List Node → (node_id : ℕ) → Option ℕ
find_node_from zero i nodes node_id = none
find_node_from (suc n) i nodes node_id =
    let rest = find_node_from n (i + 1) nodes node_id in
    if (get_or nodes i zero_node).node_id == node_id then some i else rest

-- The part of `numa_add_or_extend_node` for a range without overflow.
unfoldable pub add_range : Numa → (node_id base size : ℕ) → Numa
add_range s node_id base size = elim (find_node_from s.node_count 0 s.nodes node_id) [
  | some i ↦ record s {
    nodes = set s.nodes i (extended (get_or s.nodes i zero_node) base (base + size));
  }
  | none ↦ if leb max_nodes s.node_count then s else record s {
    nodes = set s.nodes s.node_count (record { node_id = node_id; base = base; size = size });
    node_count = u32 (s.node_count + 1);
  }
]

unfoldable pub add_or_extend_node : Numa → (node_id base size : ℕ) → Numa
add_or_extend_node s node_id base size =
    if (size == 0) || ltb (u64_max - size) base then s else add_range s node_id base size

-- The loop of `numa_phys_to_node`: rounds left, then the index.
unfoldable pub phys_to_node_from : ℕ → ℕ → List Node → (phys_addr : ℕ) → Option ℕ
phys_to_node_from zero i nodes phys_addr = none
phys_to_node_from (suc n) i nodes phys_addr =
    let node = get_or nodes i zero_node in
    let rest = phys_to_node_from n (i + 1) nodes phys_addr in
    if leb node.base phys_addr && ltb phys_addr (node_end node) then some node.node_id else rest

-- The answer comes with 1, `none` is 0.
unfoldable pub phys_to_node : Numa → (phys_addr : ℕ) → (has_out : Bool) → Option ℕ
phys_to_node s phys_addr has_out =
    if not s.numa_ready || not has_out
    then none
    else phys_to_node_from s.node_count 0 s.nodes phys_addr

unfoldable pub numa_node_count : Numa → ℕ
numa_node_count s = if not s.numa_ready then 0 else s.node_count

unfoldable pub get_node : Numa → (index : ℕ) → (has_out : Bool) → Option Node
get_node s index has_out =
    if not s.numa_ready || (not has_out || leb s.node_count index)
    then none
    else some (get_or s.nodes index zero_node)

-- A little-endian number of so many bytes.
unfoldable pub load : ℕ → (memory : ℕ → ℕ) → (address : ℕ) → ℕ
load zero memory address = 0
load (suc n) memory address = memory address + 256 * load n memory (address + 1)

-- The signature "SRAT", byte by byte.
unfoldable pub sig_match : (memory : ℕ → ℕ) → (address : ℕ) → List ℕ → Bool
sig_match memory address [] = true
sig_match memory address (c ∷ cs) = (memory address == c) && sig_match memory (address + 1) cs

unfoldable pub checksum_from : ℕ → (memory : ℕ → ℕ) → (address sum : ℕ) → ℕ
checksum_from zero memory address sum = sum
checksum_from (suc n) memory address sum =
    checksum_from n memory (address + 1) (u8 (sum + memory address))

unfoldable pub checksum_ok : (memory : ℕ → ℕ) → (address length : ℕ) → Bool
checksum_ok memory address length =
    if (address == 0) || (length == 0) then false else checksum_from length memory address 0 == 0

-- An entry of the table, which counts where it is a memory range (type 1 and at least 40 bytes) that is
-- enabled and not empty.
unfoldable pub parse_entry : (memory : ℕ → ℕ) → (cursor : ℕ) → Numa → Numa
parse_entry memory cursor s =
    if (memory cursor == 1) && leb 40 (memory (cursor + 1))
    then if not (bit_and (load 4 memory (cursor + 28)) 1 == 0)
        && ltb 0 (load 8 memory (cursor + 16))
      then add_or_extend_node s (load 4 memory (cursor + 2)) (load 8 memory (cursor + 8))
          (load 8 memory (cursor + 16))
      else s
    else s

-- The loop over the entries, on fuel: each round moves the cursor on.
unfoldable pub parse_entries_from : ℕ → (memory : ℕ → ℕ) → (cursor end : ℕ) → Numa → Numa
parse_entries_from zero memory cursor end s = s
parse_entries_from (suc n) memory cursor end s =
    let rest =
      parse_entries_from n memory (cursor + memory (cursor + 1)) end
        (parse_entry memory cursor s) in
    if not (leb (cursor + 2) end)
    then s
    else if ltb (memory (cursor + 1)) 2
    then s
    else if ltb end (cursor + memory (cursor + 1))
    then s
    else rest

-- The rest of `numa_init` after the table of the firmware was looked at.
unfoldable pub with_fallback : Numa → (fallback_base fallback_size : ℕ) → Numa
with_fallback s fallback_base fallback_size =
    let s' =
      if (s.node_count == 0) && ltb 0 fallback_size
      then record (add_or_extend_node s 0 fallback_base fallback_size) { from_srat = false }
      else s in
    if s'.node_count == 0 then s' else record s' { numa_ready = true }

-- What `vmm_query_mapping` and `vmm_map_page` answer for a page that is mapped to itself.
module _ (query_mapping map_page : ℕ → Bool) where
  unfoldable pub map_pages_from : ℕ → (page end : ℕ) → Bool
  map_pages_from zero page end = true
  map_pages_from (suc n) page end =
      let rest = map_pages_from n (u64 (page + page_bytes)) end in
      if not (ltb page end)
      then true
      else if query_mapping page
      then rest
      else if not (map_page page)
      then false
      else rest

  unfoldable pub map_identity_range : (base length : ℕ) → Bool
  map_identity_range base length =
      let start = bit_and base page_mask in
      let end = bit_and (base + length + (page_bytes - 1)) page_mask in
      if (base == 0) || (length == 0)
      then false
      else if ltb (u64_max - length) base
      then false
      else if ltb (u64_max - (page_bytes - 1)) (base + length)
      then false
      else map_pages_from (suc ((end - start) / page_bytes)) start end

  -- The part of `numa_parse_srat` once the whole table is mapped and its sum is right.
  unfoldable pub parse_table : (memory : ℕ → ℕ) → (address length : ℕ) → Numa → Bool × Numa
  parse_table memory address length s =
      let s' = parse_entries_from length memory (address + 48) (address + length) s in
      (ltb 0 s'.node_count, s')

  unfoldable pub parse_srat : (memory : ℕ → ℕ) → (address : ℕ) → Numa → Bool × Numa
  parse_srat memory address s =
      let length = load 4 memory (address + 4) in
      if address == 0
      then (false, s)
      else if not (map_identity_range address 36)
      then (false, s)
      else if not (sig_match memory address (83 ∷ 82 ∷ 65 ∷ 84 ∷ []))
      then (false, s)
      else if ltb length 48
      then (false, s)
      else if not (map_identity_range address length)
      then (false, s)
      else if not (checksum_ok memory address length)
      then (false, s)
      else parse_table memory address length s

  -- `srat_address` is 0 where `acpi_get_info` has none.
  unfoldable pub numa_init :
      Numa → (memory : ℕ → ℕ) → (srat_address fallback_base fallback_size : ℕ) → Numa
  numa_init s memory srat_address fallback_base fallback_size =
      let (parsed, s') = parse_srat memory srat_address (reset_state s) in
      with_fallback (if parsed then record s' { from_srat = true } else s') fallback_base
        fallback_size
