-- ===== src/Pmm/History.antt =====
-- kernel/mm/pmm.c: any sequence of calls after `pmm_init`.
use gnu_os.Base.{ℕ, ◌^◌, ◌<◌, sym, subst, inl, inr, List, [], ◌∷◌}
use gnu_os.Pmm.{Pmm}
use gnu_os.Pmm.Api.{pmm_init, pmm_alloc_page, pmm_free_page, pmm_reserve_range}
use gnu_os.Pmm.Sound.{IsSound}
use gnu_os.Pmm.Pages.{alloc_page_outcome}
use gnu_os.Pmm.Returns.{free_page_outcome}
use gnu_os.Pmm.Initial.{init_lem}
use gnu_os.Pmm.Reserved.{reserve_range_outcome}

-- The calls that change the state, with what they are given.
pub data Call : Type 0 where
  alloc_page : Call
  free_page : (addr : ℕ) → Call
  reserve_range : (base size : ℕ) → Call

unfoldable pub step : Pmm → Call → Pmm
step s alloc_page = (pmm_alloc_page s).1
step s (free_page addr) = pmm_free_page s addr
step s (reserve_range base size) = pmm_reserve_range s base size

unfoldable pub run : Pmm → List Call → Pmm
run s [] = s
run s (c ∷ rest) = run (step s c) rest

-- The arguments are 64-bit words.
abbrev pub InWords : List Call → Type 0
InWords [] = Unit
InWords (reserve_range base size ∷ rest) = (base < 2 ^ 64) × (size < 2 ^ 64) × InWords rest
InWords (_ ∷ rest) = InWords rest

alloc_page-IsSound : (s : Pmm) → IsSound s → IsSound (pmm_alloc_page s).1
alloc_page-IsSound s v = elim (alloc_page_outcome s v) [
  | inl (full, out) ↦ subst (λ o. IsSound o.1) (sym out) v
  | inr (page, s', out, l, was, fewer, says, same, sound) ↦ subst (λ o. IsSound o.1) (sym out) sound
]

free_page-IsSound : (s : Pmm) (addr : ℕ) → IsSound s → IsSound (pmm_free_page s addr)
free_page-IsSound s addr v = elim (free_page_outcome s addr v) [
  | inl (page, holds, more, says, same, sound) ↦ sound
  | inr (nobody, kept) ↦ subst IsSound (sym kept) v
]

run-IsSound : (s : Pmm) (calls : List Call) → IsSound s → InWords calls → IsSound (run s calls)
unfolding run step
run-IsSound s [] v words = v
run-IsSound s (alloc_page ∷ rest) v words =
    run-IsSound (pmm_alloc_page s).1 rest (alloc_page-IsSound s v) words
run-IsSound s (free_page addr ∷ rest) v words =
    run-IsSound (pmm_free_page s addr) rest (free_page-IsSound s addr v) words
run-IsSound s (reserve_range base size ∷ rest) v (b, z, words) =
    run-IsSound (pmm_reserve_range s base size) rest (reserve_range_outcome s base size v b z).0
      words

-- After `pmm_init` with any memory and any sequence of page allocations, page frees and range reservations,
-- with whatever arguments of 64 bits, the state is sound: the blocks hold every page once, the list of each
-- order is a doubly linked list of its free blocks, and the count of free pages is right.
pub history-IsSound :
    (s : Pmm) (base memory_size : ℕ) (calls : List Call)
    → InWords calls
    → IsSound (run (pmm_init s base memory_size) calls)
history-IsSound s base memory_size calls words =
    run-IsSound (pmm_init s base memory_size) calls (init_lem s base memory_size).0 words
