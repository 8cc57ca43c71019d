-- ===== src/Shm/Lookup.antt =====
-- kernel/ipc/shm.c: which segment `shm_find_locked` finds, said of the names' bytes.
use gnu_os.Base.{
  ℕ, ◌<◌, ◌≡◌, subst, none, some, List, arith, length, find_idx_from, find_idx_from-some,
  find_idx_from-none,
}
use gnu_os.Names.Same.{HasName, test-HasName, no_test-HasName}
use gnu_os.Shm.{Shm, max_segments, zero_segment, segment_at, has_name}

-- Segment `i` is in use and has the name.
abbrev pub NamedAt : Shm → List ℕ → (i : ℕ) → Type 0
NamedAt s name i = HasName (segment_at s i).in_use (segment_at s i).name name

-- Segment `i` is the first one that is in use and has the name.
abbrev pub FirstNamed : Shm → List ℕ → (i : ℕ) → Type 0
FirstNamed s name i = (i < 32) × NamedAt s name i × ((j : ℕ) → j < i → ¬ NamedAt s name j)

-- No segment in use has the name.
abbrev pub NotNamed : Shm → List ℕ → Type 0
NotNamed s name = (j : ℕ) → j < 32 → ¬ NamedAt s name j

pub find_some-FirstNamed :
    (s : Shm) (name : List ℕ) (i : ℕ)
    → length s.segments ≡ max_segments
    → find_idx_from (has_name name) 0 s.segments ≡ some i
    → FirstNamed s name i
find_some-FirstNamed s name i storage h =
    let (j, at, l, hit, before) = find_idx_from-some (has_name name) 0 s.segments zero_segment h in
    let same : j ≡ i = omega (arith, at) in
    subst (FirstNamed s name) same (
      omega (arith, l, storage),
      test-HasName (segment_at s j).in_use (segment_at s j).name name hit,
      λ m k. no_test-HasName (segment_at s m).in_use (segment_at s m).name name (before m k),
    )

pub find_none-NotNamed :
    (s : Shm) (name : List ℕ)
    → length s.segments ≡ max_segments
    → find_idx_from (has_name name) 0 s.segments ≡ none
    → NotNamed s name
find_none-NotNamed s name storage h j l =
    no_test-HasName (segment_at s j).in_use (segment_at s j).name name
      (find_idx_from-none (has_name name) 0 s.segments zero_segment j h (omega (arith, l, storage)))
