-- ===== src/Ipc/Channel/Lookup.antt =====
-- kernel/ipc/ipc.c: which channel `ipc_find_channel_locked` finds, said of the names' bytes.
use gnu_os.Base.{
  ℕ, ◌<◌, ◌≡◌, refl, subst, Option, none, some, List, pos, neg, arith, length, find_idx_from-some,
  find_idx_from-none,
}
use gnu_os.Names.Same.{HasName, test-HasName, no_test-HasName}
use gnu_os.Ipc.Channel.{
  Ipc, max_channels, zero_channel, channel_at, has_name, found, find_channel_locked,
}

-- Channel `i` is in use and has the name.
abbrev pub NamedAt : Ipc → List ℕ → (i : ℕ) → Type 0
NamedAt s name i = HasName (channel_at s i).in_use (channel_at s i).name name

-- Channel `i` is the first one that is in use and has the name.
abbrev pub FirstNamed : Ipc → List ℕ → (i : ℕ) → Type 0
FirstNamed s name i = (i < 16) × NamedAt s name i × ((j : ℕ) → j < i → ¬ NamedAt s name j)

-- No channel in use has the name.
abbrev pub NotNamed : Ipc → List ℕ → Type 0
NotNamed s name = (j : ℕ) → j < 16 → ¬ NamedAt s name j

found-some : (o : Option ℕ) (i : ℕ) → found o ≡ pos i → o ≡ some i
found-some none i h = cc
found-some (some j) i h = ground (arith, h)

found-none : (o : Option ℕ) → found o ≡ neg 1 → o ≡ none
found-none none h = refl
found-none (some i) h = cc

pub find_pos-FirstNamed :
    (s : Ipc) (name : List ℕ) (i : ℕ)
    → length s.channels ≡ max_channels
    → find_channel_locked s name ≡ pos i
    → FirstNamed s name i
unfolding find_channel_locked
find_pos-FirstNamed s name i storage h =
    let (j, at, l, hit, before) =
      find_idx_from-some (has_name name) 0 s.channels zero_channel (found-some _ i h) in
    let same : j ≡ i = omega (arith, at) in
    subst (FirstNamed s name) same (
      omega (arith, l, storage),
      test-HasName (channel_at s j).in_use (channel_at s j).name name hit,
      λ m k. no_test-HasName (channel_at s m).in_use (channel_at s m).name name (before m k),
    )

pub find_neg-NotNamed :
    (s : Ipc) (name : List ℕ)
    → length s.channels ≡ max_channels
    → find_channel_locked s name ≡ neg 1
    → NotNamed s name
unfolding find_channel_locked
find_neg-NotNamed s name storage h j l =
    no_test-HasName (channel_at s j).in_use (channel_at s j).name name (
      find_idx_from-none (has_name name) 0 s.channels zero_channel j (found-none _ h)
        (omega (arith, l, storage)))
