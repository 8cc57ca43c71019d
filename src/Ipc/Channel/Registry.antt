-- ===== src/Ipc/Channel/Registry.antt =====
-- kernel/ipc/ipc.c: the channels as a registry, at most one channel in use for each name.
use native.Mathlib.Nat.{zero-add}
use gnu_os.Base.{
  ℕ, ◌+◌, ◌<◌, ◌≡◌, ◌≢◌, refl, ap, ◌∙◌, ◌⊎◌, inl, inr, false, ◌||◌, Option, none, some, List, ℤ,
  pos, neg, arith, set, length-set, if◌then◌else◌, leb, ◌==◌, find_idx_from-set_hit,
  find_idx_from-set_miss, count_if, count_if-set, count_if-le, count_if_of_none, count_if_not-eq,
  get_or-set_self, get_or-set_ne, sym, subst, Bool-cases,
}
use gnu_os.Names.{name_max, strnlen, name_equal}
use gnu_os.Names.Equal.{name_equal_self}
use gnu_os.Names.Same.{byte, TooLong}
use gnu_os.Ipc.Channel.Lookup.{FirstNamed, NotNamed, find_pos-FirstNamed, find_neg-NotNamed}
use gnu_os.Ipc.Channel.{
  Ipc, zero_channel, is_unused, channel_at, has_name, found, find_channel_locked, create, find,
}
use gnu_os.Ipc.Channel.Creation.{
  is_used, IsValid, made, has_name-made, find_same, Created, Outcome, create-Outcome, full, made_at,
  bad, taken, fresh,
}
use gnu_os.Ipc.Channel.Made.{IsNew, made-IsNew, IsGood, name-IsGood, bad_name}

found-none : (o : Option ℕ) → found o ≡ neg 1 → o ≡ none
found-none none h = refl
found-none (some i) h = cc

find-Created :
    (s : Ipc) (name other : List ℕ) (out : ℤ × Ipc) (n : ℕ)
    → strnlen name name_max < name_max
    → find_channel_locked s name ≡ neg 1
    → Created s name out
    → out.0 ≡ pos n
    → find_channel_locked out.1 other
      ≡ (if name_equal name other then pos n else find_channel_locked s other)
unfolding find_channel_locked
find-Created s name other out n fits missing (full e) h = cc
find-Created s name other out n fits missing (made_at i l unused) h =
    elim (Bool-cases (name_equal name other)) [
      | inl same ↦ rw same (
          ap found (
            find_idx_from-set_hit (has_name other) 0 i s.channels (made (channel_at s i) name)
              (found-none _ (find_same s name other same ∙ missing)) l
              (has_name-made (channel_at s i) name other fits ∙ same))
          ∙ ap pos (zero-add i)
          ∙ h)
      | inr differs ↦ rw differs (
          ap found (
            find_idx_from-set_miss (has_name other) 0 i s.channels (made (channel_at s i) name)
              zero_channel (rw unused refl)
              (has_name-made (channel_at s i) name other fits ∙ differs)))
    ]

find-Outcome :
    (s : Ipc) (name other : List ℕ) (out : ℤ × Ipc) (n : ℕ)
    → Outcome s name out
    → out.0 ≡ pos n
    → find_channel_locked out.1 other
      ≡ (if name_equal name other then pos n else find_channel_locked s other)
find-Outcome s name other out n (bad _) h = cc
find-Outcome s name other out n (taken i _ _ e) h = elim (Bool-cases (name_equal name other)) [
  | inl same ↦ rw same (find_same s name other same ∙ e ∙ h)
  | inr differs ↦ rw differs
]
find-Outcome s name other out n (fresh filled fits missing c) h =
    find-Created s name other out n fits missing c h

-- After `ipc_channel_create` has answered with channel `n`, `ipc_channel_find` answers `n` for that
-- name and every name equal to it, and for any other name what it answered before.
pub find-create :
    (s : Ipc) (name other : List ℕ) (n : ℕ)
    → (create s (some name)).0 ≡ pos n
    → find (create s (some name)).1 (some other)
      ≡ (if name_equal name other then pos n else find s (some other))
unfolding find
find-create s name other n h =
    find-Outcome s name other (create s (some name)) n (create-Outcome s name) h

create_again :
    (s : Ipc) (name : List ℕ) (n : ℕ)
    → strnlen name name_max ≢ 0
    → strnlen name name_max < name_max
    → find_channel_locked s name ≡ pos n
    → create s (some name) ≡ (pos n, s)
unfolding create
create_again s name n filled fits e =
    let ok : (strnlen name name_max == 0 || leb name_max (strnlen name name_max)) ≡ false =
      ground arith in
    rw (ok, e, create)

-- Creating a channel again answers with the same number and changes nothing.
pub create_idempotent :
    (s : Ipc) (name : List ℕ) (n : ℕ)
    → (create s (some name)).0 ≡ pos n
    → create (create s (some name)).1 (some name) ≡ (pos n, (create s (some name)).1)
create_idempotent s name n h = go (create s (some name)) (create-Outcome s name) h refl
  where
    go :
        (out : ℤ × Ipc)
        → Outcome s name out
        → out.0 ≡ pos n
        → create s (some name) ≡ out
        → create out.1 (some name) ≡ (pos n, out.1)
    go out (bad _) e same = cc
    go out (taken i _ _ _) e same = same ∙ ap (λ k. (k, s)) e
    go out (fresh filled fits missing c) e same = create_again out.1 name n filled fits (
        find-Created s name name out n fits missing c e
        ∙ ap (λ b. if b then pos n else find_channel_locked s name) (name_equal_self name fits))

Outcome-IsValid :
    (s : Ipc) (name : List ℕ) {out : ℤ × Ipc} → Outcome s name out → IsValid s → IsValid out.1
Outcome-IsValid s name (bad _) v = v
Outcome-IsValid s name (taken i _ _ _) v = v
Outcome-IsValid s name (fresh _ _ _ (full _)) v = v
Outcome-IsValid s name (fresh _ _ _ (made_at i l unused)) v = record {
  storage = length-set s.channels i (made (channel_at s i) name) ∙ v.storage;
  counted = omega (arith, v.counted, moved, count_if-le is_used s.channels, v.storage);
}
  where
    moved :
        count_if is_used (set s.channels i (made (channel_at s i) name))
        ≡ count_if is_used s.channels + 1
    moved =
        ground
          (arith, count_if-set is_used s.channels i (made (channel_at s i) name) zero_channel l)

-- `ipc_channel_create` keeps the 16 channels, and `ipc_channel_count` the number of those in use.
pub create-IsValid : (s : Ipc) (name : Option (List ℕ)) → IsValid s → IsValid (create s name).1
unfolding create
create-IsValid s none v = v
create-IsValid s (some name) v = Outcome-IsValid s name (create-Outcome s name) v

-- The answers of `ipc_channel_create`: a bad name, a name that is taken, a full table, a new channel.
abbrev pub Answers : Ipc → List ℕ → ℤ × Ipc → Type 0
Answers s name out =
    ((out ≡ (neg 1, s)) × ((byte name 0 ≡ 0) ⊎ TooLong name))
    ⊎ ((i : ℕ) × IsGood name × FirstNamed s name i × (out ≡ (pos i, s)))
    ⊎ ((out ≡ (neg 2, s)) × IsGood name × NotNamed s name × (s.channel_count ≡ 16))
    ⊎ ((i : ℕ) × IsGood name
        × NotNamed s name
        × (i < 16)
        × ((channel_at s i).in_use ≡ 0)
        × (out.0 ≡ pos i)
        × (out.1.channel_count ≡ s.channel_count + 1)
        × IsNew (channel_at out.1 i) name
        × ((j : ℕ) → j ≢ i → channel_at out.1 j ≡ channel_at s j))

Outcome-Answers :
    (s : Ipc) (name : List ℕ) {out : ℤ × Ipc} → Outcome s name out → IsValid s → Answers s name out
Outcome-Answers s name (bad h) v = inl (refl, bad_name name h)
Outcome-Answers s name (taken i filled fits e) v =
    inr (inl (i, name-IsGood name filled fits, find_pos-FirstNamed s name i v.storage e, refl))
Outcome-Answers s name (fresh filled fits missing (full e)) v = inr (
    inr (
      inl (
        refl,
        name-IsGood name filled fits,
        find_neg-NotNamed s name v.storage missing,
        omega (
          arith,
          v.counted,
          v.storage,
          count_if_of_none is_unused 0 s.channels e,
          count_if_not-eq is_unused s.channels,
        ),
      )))
Outcome-Answers s name (fresh filled fits missing (made_at i l unused)) v = inr (
    inr (
      inr (
        i,
        name-IsGood name filled fits,
        find_neg-NotNamed s name v.storage missing,
        omega (arith, v.storage, l),
        ground (arith, unused),
        refl,
        omega (arith, v.counted, v.storage, count_if-le is_used s.channels),
        subst (λ c. IsNew c name)
            (sym (get_or-set_self s.channels i (made (channel_at s i) name) zero_channel l))
            (made-IsNew (channel_at s i) name fits),
        λ j ne.
            get_or-set_ne s.channels i j (made (channel_at s i) name) zero_channel
              (λ e. ne (sym e)),
      )))

-- `ipc_channel_create` with a name that is not NULL: -1 exactly for an empty name or one of 32 bytes or
-- more; otherwise the first channel in use of that name if there is one, and -2 if all 16 channels are in
-- use, with nothing changed; or else an unused channel is put in use and counted with the name, an empty
-- queue and no rendezvous message, and every other channel stays as it was.
pub channel_create_outcome :
    (s : Ipc) (name : List ℕ) → IsValid s → Answers s name (create s (some name))
channel_create_outcome s name v = Outcome-Answers s name (create-Outcome s name) v
