-- ===== src/Ipc/Channel/Creation.antt =====
-- kernel/ipc/ipc.c: the branches of `ipc_channel_create`.
use mathlib.Core.Path.{fun_ext}
use native.Mathlib.Nat.{zero-add}
use gnu_os.Base.{
  ℕ, ◌≤◌, ◌<◌, ◌≡◌, ◌≢◌, sym, ap, ◌∙◌, ◌⊎◌, inl, inr, Bool, true, not, ◌&&◌, ◌||◌, none, some, List,
  ℤ, pos, neg, arith, length, set, leb, ◌==◌, find_idx_from, find_idx_from-some, count_if,
  Bool-cases, Option-cases, inc16,
}
use gnu_os.Names.{name_max, strnlen, name_equal, name_copy}
use gnu_os.Names.Equal.{name_equal_comm, name_equal-name_copy, name_equal_subst}
use gnu_os.Ipc.Channel.{
  Channel, Ipc, max_channels, zero_channel, is_unused, channel_at, reset_channel, has_name, found,
  find_channel_locked, create_in_free_slot, create,
}

abbrev pub is_used : Channel → Bool
is_used c = not (is_unused c)

-- The table has its fixed size, and the counter is the number of channels in use.
pub record IsValid (s : Ipc) : Type 0 where
  pub storage : length s.channels ≡ max_channels
  pub counted : s.channel_count ≡ count_if is_used s.channels

-- The channel that `ipc_channel_create` writes.
abbrev pub made : Channel → List ℕ → Channel
made c name = record (reset_channel c) { in_use = 1; name = name_copy name }

pub has_name-made :
    (c : Channel) (name other : List ℕ)
    → strnlen name name_max < name_max
    → has_name other (made c name) ≡ name_equal name other
has_name-made c name other fits =
    name_equal_comm (name_copy name) other
    ∙ name_equal-name_copy other name fits
    ∙ name_equal_comm other name

-- Equal names are found in the same place.
pub find_same :
    (s : Ipc) (name other : List ℕ)
    → name_equal name other ≡ true
    → find_channel_locked s other ≡ find_channel_locked s name
unfolding find_channel_locked
find_same s name other e = ap (λ p. found (find_idx_from p 0 s.channels)) same
  where
    same : has_name other ≡ has_name name
    same =
        fun_ext λ c. ap (λ b. not (is_unused c) && b) (sym (name_equal_subst name other c.name e))

-- What `create` does when the name is free: the first unused slot, or -2 if there is none.
pub data Created (s : Ipc) (name : List ℕ) : ℤ × Ipc → Type 0 where
  full : find_idx_from is_unused 0 s.channels ≡ none → Created s name (neg 2, s)
  made_at :
      (i : ℕ)
      → i < length s.channels
      → is_unused (channel_at s i) ≡ true
      → Created s name (
        pos i,
        record {
          channels = set s.channels i (made (channel_at s i) name);
          channel_count = inc16 s.channel_count;
        },
      )

pub create_in_free_slot-Created :
    (s : Ipc) (name : List ℕ) → Created s name (create_in_free_slot s name)
unfolding create_in_free_slot
create_in_free_slot-Created s name = elim (Option-cases (find_idx_from is_unused 0 s.channels)) [
  | inl e ↦ rw (e, create_in_free_slot) (full e)
  | inr (i, e) ↦
      let (j, at, l, free, _) = find_idx_from-some is_unused 0 s.channels zero_channel e in
      let same : i ≡ j = at ∙ zero-add j in
      rw (e, create_in_free_slot) (made_at i (rw same l) (rw same free))
]

-- The branches of `ipc_channel_create`: a bad name, a name that is taken, a new channel.
pub data Outcome (s : Ipc) (name : List ℕ) : ℤ × Ipc → Type 0 where
  bad : (strnlen name name_max ≡ 0) ⊎ (name_max ≤ strnlen name name_max) → Outcome s name (neg 1, s)
  taken :
      (i : ℕ)
      → strnlen name name_max ≢ 0
      → strnlen name name_max < name_max
      → find_channel_locked s name ≡ pos i
      → Outcome s name (pos i, s)
  fresh :
      {out : ℤ × Ipc}
      → strnlen name name_max ≢ 0
      → strnlen name name_max < name_max
      → find_channel_locked s name ≡ neg 1
      → Created s name out
      → Outcome s name out

pub create-Outcome : (s : Ipc) (name : List ℕ) → Outcome s name (create s (some name))
unfolding create find_channel_locked
create-Outcome s name =
    elim (Bool-cases (strnlen name name_max == 0 || leb name_max (strnlen name name_max))) [
      | inl e ↦ rw e (bad (ground arith))
      | inr e ↦ elim (Option-cases (find_idx_from (has_name name) 0 s.channels)) [
        | inl missing ↦
            rw (e, missing, create, find_channel_locked)
              (fresh (ground arith) (ground arith) (rw (missing, find_channel_locked))
                (create_in_free_slot-Created s name))
        | inr (i, hit) ↦
            rw (e, hit, create, find_channel_locked)
              (taken i (ground arith) (ground arith) (rw (hit, find_channel_locked)))
      ]
    ]
