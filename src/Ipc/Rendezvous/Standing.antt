-- ===== src/Ipc/Rendezvous/Standing.antt =====
-- kernel/ipc/ipc.c: what one pass of another task does to a message that stands in a rendezvous slot.
use gnu_os.Base.{
  ℕ, ◌<◌, ◌≡◌, refl, sym, subst, ap, ◌∙◌, ◌⊎◌, inl, inr, true, false, Option, none, some, List, [],
  ◌∷◌, ℤ, pos, negsuc, arith, length, if◌then◌else◌, ltb, ◌==◌, Bool-cases, get_or-set,
  get_or-set_self, length-set, inc64,
}
use gnu_os.Ipc.Channel.{
  Message, Channel, Ipc, max_channels, zero_channel, channel_at, set_channel, is_valid_channel_id,
}
use gnu_os.Ipc.Queue.{channel_index, Received, receive_message}
use gnu_os.Ipc.Rendezvous.{trying, post, sender_step, receiver_step}

-- What the other tasks do between two passes: senders put messages up, receivers take them. Their
-- other passes change nothing.
pub data Event : Type 0 where
  posts : (channel_id : ℤ) (tid size : ℕ) (payload : List ℕ) → Event
  takes : (channel_id : ℤ) (buffer : List ℕ) (payload_capacity : ℕ) → Event

unfoldable pub happen : Ipc → Event → Ipc
happen s (posts channel_id tid size payload) = (sender_step s channel_id tid size payload trying).1
happen s (takes channel_id buffer payload_capacity) =
    (receiver_step s channel_id buffer payload_capacity).1

unfoldable pub run : Ipc → List Event → Ipc
run s [] = s
run s (e ∷ es) = run (happen s e) es

-- What an event takes out of channel `i`.
unfoldable pub taken : ℕ → Ipc → Event → Option Received
taken i s (posts channel_id tid size payload) = none
taken i s (takes channel_id buffer payload_capacity) =
    if channel_index channel_id == i
    then elim (receiver_step s channel_id buffer payload_capacity).0 [
      | none ↦ none
      | some (_, r) ↦ r
    ]
    else none

-- The first message that is taken out of channel `i`.
unfoldable pub first_taken : ℕ → Ipc → List Event → Option Received
first_taken i s [] = none
first_taken i s (e ∷ es) = elim (taken i s e) [
  | some r ↦ some r
  | none ↦ first_taken i (happen s e) es
]

-- The message `m` stands in channel `i`, put up at generation `g`.
pub record Stands (i g : ℕ) (m : Message) (s : Ipc) : Type 0 where
  pub storage : length s.channels ≡ max_channels
  pub pending : (channel_at s i).rendezvous_pending ≡ 1
  pub generation : (channel_at s i).rendezvous_generation ≡ g
  pub message : (channel_at s i).rendezvous_message ≡ m

pub channel_index_in :
    (s : Ipc) (channel_id : ℤ)
    → is_valid_channel_id s channel_id ≡ true
    → channel_index channel_id < max_channels
unfolding is_valid_channel_id
channel_index_in s (pos n) h = ground arith
channel_index_in s (negsuc n) h = cc

-- A write to another channel leaves the message standing.
pub Stands-elsewhere :
    (i g k : ℕ) (m : Message) (s : Ipc) (c : Channel)
    → (k == i) ≡ false
    → k < max_channels
    → Stands i g m s
    → Stands i g m (set_channel s k c)
Stands-elsewhere i g k m s c other l h = record {
  storage = length-set s.channels k c ∙ h.storage;
  pending = ap (λ d. d.rendezvous_pending) same ∙ h.pending;
  generation = ap (λ d. d.rendezvous_generation) same ∙ h.generation;
  message = ap (λ d. d.rendezvous_message) same ∙ h.message;
}
  where
    flip : (i == k) ≡ false
    flip = ground arith

    same : channel_at (set_channel s k c) i ≡ channel_at s i
    same =
        get_or-set s.channels k i c zero_channel (omega (arith, h.storage))
        ∙ ap (λ b. if b then c else channel_at s i) flip

-- Where the slot is taken, a sender only goes round.
pub post_blocked :
    (s : Ipc) (channel_id : ℤ) (tid size : ℕ) (payload : List ℕ)
    → (channel_at s (channel_index channel_id)).rendezvous_pending ≡ 1
    → (sender_step s channel_id tid size payload trying).1 ≡ s
unfolding sender_step
post_blocked s channel_id tid size payload h =
    elim (Bool-cases (is_valid_channel_id s channel_id)) [
      | inl good ↦ rw (good, h)
      | inr bad ↦ rw bad
    ]

pub posts-Stands :
    (i g : ℕ) (m : Message) (s : Ipc) (channel_id : ℤ) (tid size : ℕ) (payload : List ℕ)
    → Stands i g m s
    → Stands i g m (sender_step s channel_id tid size payload trying).1
unfolding sender_step
posts-Stands i g m s channel_id tid size payload h =
    elim (Bool-cases (channel_index channel_id == i)) [
      | inl here ↦
          let at : i ≡ channel_index channel_id = ground arith in
          subst (Stands i g m)
            (sym (
              post_blocked s channel_id tid size payload
                (subst (λ k. (channel_at s k).rendezvous_pending ≡ 1) at h.pending)))
            h
      | inr other ↦ elim (Bool-cases (is_valid_channel_id s channel_id)) [
        | inr bad ↦ rw bad h
        | inl good ↦
            elim (Bool-cases ((channel_at s (channel_index channel_id)).rendezvous_pending == 0)) [
              | inr busy ↦ rw (good, busy) h
              | inl free ↦
                  rw (good, free)
                    (Stands-elsewhere i g (channel_index channel_id) m s
                      (post (channel_at s (channel_index channel_id)) tid size payload) other
                      (channel_index_in s channel_id good) h)
            ]
      ]
    ]

-- A receiver on another channel leaves the message standing.
pub takes_elsewhere :
    (i g : ℕ) (m : Message) (s : Ipc) (channel_id : ℤ) (buffer : List ℕ) (payload_capacity : ℕ)
    → (channel_index channel_id == i) ≡ false
    → Stands i g m s
    → Stands i g m (receiver_step s channel_id buffer payload_capacity).1
unfolding receiver_step
takes_elsewhere i g m s channel_id buffer payload_capacity other h =
    elim (Bool-cases (is_valid_channel_id s channel_id)) [
      | inr bad ↦ rw bad h
      | inl good ↦ elim (Bool-cases (c.rendezvous_pending == 0)) [
        | inl empty ↦ rw (good, empty) h
        | inr full ↦ elim (Bool-cases (ltb payload_capacity c.rendezvous_message.size)) [
          | inl small ↦ rw (good, full, small) h
          | inr fits ↦
              rw (good, full, fits)
                (Stands-elsewhere i g (channel_index channel_id) m s _ other
                  (channel_index_in s channel_id good) h)
        ]
      ]
    ]
  where
    c : Channel
    c = channel_at s (channel_index channel_id)

-- A receiver on the channel takes the message with its bytes, or leaves it standing.
pub takes_here :
    (g : ℕ) (m : Message) (s : Ipc) (channel_id : ℤ) (buffer : List ℕ) (payload_capacity : ℕ)
    → Stands (channel_index channel_id) g m s
    → ((receiver_step s channel_id buffer payload_capacity).0
          ≡ some (pos 0, some (receive_message m buffer)))
        × ((channel_at
              (receiver_step s channel_id buffer payload_capacity).1
              (channel_index channel_id)).rendezvous_pending
            ≡ 0)
        × ((channel_at
              (receiver_step s channel_id buffer payload_capacity).1
              (channel_index channel_id)).rendezvous_generation
            ≡ inc64 g)
      ⊎ ((n : ℕ) × ((receiver_step s channel_id buffer payload_capacity).0 ≡ some (negsuc n, none))
          × Stands
              (channel_index channel_id)
              g
              m
              (receiver_step s channel_id buffer payload_capacity).1)
unfolding receiver_step
takes_here g m s channel_id buffer payload_capacity h =
    elim (Bool-cases (is_valid_channel_id s channel_id)) [
      | inr bad ↦ inr (rw bad (1, refl, h))
      | inl good ↦ elim (Bool-cases (ltb payload_capacity c.rendezvous_message.size)) [
        | inl small ↦ inr (rw (good, h.pending, small) (3, refl, h))
        | inr fits ↦ inl (
            rw (good, h.pending, fits)
              (
                ap (λ r. some (pos 0, some (receive_message r buffer))) h.message,
                ap (λ d. d.rendezvous_pending) (after good),
                ap (λ d. d.rendezvous_generation) (after good) ∙ ap inc64 h.generation,
              ))
      ]
    ]
  where
    c : Channel
    c = channel_at s (channel_index channel_id)

    cleared : Channel
    cleared = record c {
      rendezvous_pending = 0;
      rendezvous_generation = inc64 c.rendezvous_generation;
    }

    after :
        is_valid_channel_id s channel_id ≡ true
        → channel_at (set_channel s (channel_index channel_id) cleared) (channel_index channel_id)
          ≡ cleared
    after good =
        get_or-set_self s.channels (channel_index channel_id) cleared zero_channel
          (omega (arith, channel_index_in s channel_id good, h.storage))
