-- ===== src/Numa/Sound.antt =====
-- kernel/mm/numa.c: `numa_init` leaves a sound table, whatever bytes the firmware's table has.
use gnu_os.Base.{
  ℕ, zero, suc, ◌+◌, ◌^◌, ◌≤◌, ◌<◌, ◌≡◌, refl, ap, ◌∙◌, inl, inr, Bool, true, false, not, ◌&&◌,
  Bool-cases, List, [], ◌∷◌, map, ◌==◌, leb, ltb, if◌then◌else◌, arith, length, bit_and,
}
use gnu_os.Numa.{
  Node, Numa, max_nodes, clear_node, reset_state, add_or_extend_node, load, sig_match, checksum_ok,
  parse_entry, parse_entries_from, map_identity_range, parse_table, parse_srat, with_fallback,
  numa_init,
}
use gnu_os.Numa.Nodes.{IsSound}
use gnu_os.Numa.Adding.{add_or_extend_node-IsSound}

-- Fuel for the bytes up to the end is enough for the loop over the entries: more of it changes nothing.
pub parse_entries_enough :
    (n m : ℕ) (memory : ℕ → ℕ) (cursor end : ℕ) (s : Numa)
    → end ≤ cursor + n
    → end ≤ cursor + m
    → parse_entries_from n memory cursor end s ≡ parse_entries_from m memory cursor end s
unfolding parse_entries_from
parse_entries_enough zero zero memory cursor end s h h' = refl
parse_entries_enough zero (suc m) memory cursor end s h h' =
    let over : leb (cursor + 2) end ≡ false = ground (arith, h) in
    rw (parse_entries_from, over) refl
parse_entries_enough (suc n) zero memory cursor end s h h' =
    let over : leb (cursor + 2) end ≡ false = ground (arith, h') in
    rw (parse_entries_from, over) refl
parse_entries_enough (suc n) (suc m) memory cursor end s h h' =
    elim (Bool-cases (ltb (memory (cursor + 1)) 2)) [
      | inl short ↦ rw (parse_entries_from, short) refl
      | inr long ↦
          let step = cursor + memory (cursor + 1) in
          rw
            (
              parse_entries_from,
              parse_entries_enough n m memory step end (parse_entry memory cursor s)
                  (ground (arith, long, h)) (ground (arith, long, h')),
            )
            refl
    ]

load_8 : (memory : ℕ → ℕ) (a : ℕ) → ((b : ℕ) → memory b < 256) → load 8 memory a < 2 ^ 64
unfolding load
load_8 memory a small = omega (
  arith,
  small a,
  small (a + 1),
  small (a + 1 + 1),
  small (a + 1 + 1 + 1),
  small (a + 1 + 1 + 1 + 1),
  small (a + 1 + 1 + 1 + 1 + 1),
  small (a + 1 + 1 + 1 + 1 + 1 + 1),
  small (a + 1 + 1 + 1 + 1 + 1 + 1 + 1),
)

keeps_if : (b : Bool) (s t : Numa) → IsSound s → IsSound t → IsSound (if b then s else t)
keeps_if true s t v w = v
keeps_if false s t v w = w

unless :
    (b : Bool) {s : Numa} (out : Bool × Numa)
    → IsSound s
    → IsSound out.1
    → IsSound (if b then (false, s) else out).1
unless true out v w = v
unless false out v w = w

flagged :
    (s : Numa) (ready srat : Bool)
    → IsSound s
    → IsSound (record s { numa_ready = ready; from_srat = srat })
flagged s ready srat v = record {
  storage = v.storage;
  few = v.few;
  ranges = v.ranges;
  distinct = v.distinct;
}

all_clear : (xs : List Node) → length (map clear_node xs) ≡ length xs
all_clear [] = refl
all_clear (x ∷ xs) = ap suc (all_clear xs)

reset_state-IsSound : (s : Numa) → length s.nodes ≡ max_nodes → IsSound (reset_state s)
unfolding reset_state
reset_state-IsSound s storage = record {
  storage = all_clear s.nodes ∙ storage;
  few = omega arith;
  ranges = λ i l. absurd (omega (arith, l));
  distinct = λ i j l m e. absurd (omega (arith, l));
}

with_fallback-IsSound :
    (s : Numa) (base size : ℕ) → IsSound s → size < 2 ^ 64 → IsSound (with_fallback s base size)
unfolding with_fallback
with_fallback-IsSound s base size v word =
    let added = record (add_or_extend_node s 0 base size) { from_srat = false } in
    let t = if (s.node_count == 0) && ltb 0 size then added else s in
    let w : IsSound t =
      keeps_if ((s.node_count == 0) && ltb 0 size) added s
        (flagged (add_or_extend_node s 0 base size) (add_or_extend_node s 0 base size).numa_ready
          false (add_or_extend_node-IsSound s 0 base size v word))
        v in
    keeps_if (t.node_count == 0) t (record t { numa_ready = true }) w (flagged t true t.from_srat w)

module _ (memory : ℕ → ℕ) (small : (a : ℕ) → memory a < 256) where
  parse_entry-IsSound : (cursor : ℕ) (s : Numa) → IsSound s → IsSound (parse_entry memory cursor s)
  unfolding parse_entry
  parse_entry-IsSound cursor s v =
      keeps_if ((memory cursor == 1) && leb 40 (memory (cursor + 1)))
        (if not (bit_and (load 4 memory (cursor + 28)) 1 == 0)
            && ltb 0 (load 8 memory (cursor + 16))
          then add_or_extend_node s (load 4 memory (cursor + 2)) (load 8 memory (cursor + 8))
              (load 8 memory (cursor + 16))
          else s)
        s
        (keeps_if
          (not (bit_and (load 4 memory (cursor + 28)) 1 == 0)
            && ltb 0 (load 8 memory (cursor + 16)))
          (add_or_extend_node s (load 4 memory (cursor + 2)) (load 8 memory (cursor + 8))
            (load 8 memory (cursor + 16)))
          s
          (add_or_extend_node-IsSound s (load 4 memory (cursor + 2)) (load 8 memory (cursor + 8))
            (load 8 memory (cursor + 16)) v (load_8 memory (cursor + 16) small))
          v)
        v

  parse_entries-IsSound :
      (n cursor end : ℕ) (s : Numa) → IsSound s → IsSound (parse_entries_from n memory cursor end s)
  unfolding parse_entries_from
  parse_entries-IsSound zero cursor end s v = v
  parse_entries-IsSound (suc n) cursor end s v =
      let step = cursor + memory (cursor + 1) in
      let rest = parse_entries_from n memory step end (parse_entry memory cursor s) in
      keeps_if (not (leb (cursor + 2) end)) s
        (if ltb (memory (cursor + 1)) 2 then s else if ltb end step then s else rest) v
        (keeps_if (ltb (memory (cursor + 1)) 2) s (if ltb end step then s else rest) v (
          keeps_if (ltb end step) s rest v (
            parse_entries-IsSound n step end (parse_entry memory cursor s)
              (parse_entry-IsSound cursor s v))))

  module _ (query_mapping map_page : ℕ → Bool) where
    parse_srat-IsSound :
        (address : ℕ) (s : Numa)
        → IsSound s
        → IsSound (parse_srat query_mapping map_page memory address s).1
    unfolding parse_srat parse_table
    parse_srat-IsSound address s v =
        let length = load 4 memory (address + 4) in
        unless (address == 0) _ v (
          unless (not (map_identity_range query_mapping map_page address 36)) _ v (
            unless (not (sig_match memory address (83 ∷ 82 ∷ 65 ∷ 84 ∷ []))) _ v (
              unless (ltb length 48) _ v (
                unless (not (map_identity_range query_mapping map_page address length)) _ v (
                  unless (not (checksum_ok memory address length)) _ v
                    (parse_entries-IsSound length (address + 48) (address + length) s v))))))

    -- Whatever the bytes at the address that the firmware gives, the mapping of pages answers, and the fallback
    -- range is, of a size below 2^64: after `numa_init` on the table of 8 places, each node in use is a range
    -- that is not empty and ends within the 64-bit addresses, and no two nodes have the same number.
    pub numa_init-IsSound :
        (s : Numa) (srat_address fallback_base fallback_size : ℕ)
        → length s.nodes ≡ max_nodes
        → fallback_size < 2 ^ 64
        → IsSound
            (numa_init query_mapping map_page s memory srat_address fallback_base fallback_size)
    unfolding numa_init
    numa_init-IsSound s srat_address fallback_base fallback_size storage word =
        let out = parse_srat query_mapping map_page memory srat_address (reset_state s) in
        let v : IsSound out.1 =
          parse_srat-IsSound srat_address (reset_state s) (reset_state-IsSound s storage) in
        with_fallback-IsSound (if out.0 then record out.1 { from_srat = true } else out.1)
          fallback_base fallback_size
          (keeps_if out.0 (record out.1 { from_srat = true }) out.1
            (flagged out.1 out.1.numa_ready true v) v)
          word
