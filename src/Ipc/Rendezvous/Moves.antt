-- ===== src/Ipc/Rendezvous/Moves.antt =====
-- kernel/ipc/ipc.c: how far the generation of a channel moves while senders and receivers pass.
use gnu_os.Base.{
  ℕ, suc, ◌+◌, ◌%◌, ◌^◌, ◌≤◌, ◌<◌, ◌≡◌, refl, sym, ◌∙◌, subst, ◌⊎◌, inl, inr, List, [], ◌∷◌, ℤ,
  arith, length, ltb, ◌==◌, if◌then◌else◌, Bool-cases, get_or-set, length-set, inc64,
}
use gnu_os.Ipc.Channel.{
  Channel, Ipc, max_channels, zero_channel, channel_at, set_channel, is_valid_channel_id,
}
use gnu_os.Ipc.Queue.{channel_index}
use gnu_os.Ipc.Rendezvous.{trying, post, sender_step, receiver_step}
use gnu_os.Ipc.Rendezvous.Standing.{Event, posts, takes, happen, run, channel_index_in}

-- From one table to the next, channel `i` stays in use or not, and its generation stays or moves by one.
pub record Moves (i : ℕ) (s s' : Ipc) : Type 0 where
  pub storage : length s'.channels ≡ length s.channels
  pub in_use : (channel_at s' i).in_use ≡ (channel_at s i).in_use
  pub generation :
      ((channel_at s' i).rendezvous_generation ≡ (channel_at s i).rendezvous_generation)
      ⊎ ((channel_at s' i).rendezvous_generation ≡ inc64 (channel_at s i).rendezvous_generation)

Moves-self : (i : ℕ) (s : Ipc) → Moves i s s
Moves-self i s = record { storage = refl; in_use = refl; generation = inl refl }

abbrev Next : (c c' : Channel) → Type 0
Next c c' =
    (c'.in_use ≡ c.in_use)
    × ((c'.rendezvous_generation ≡ c.rendezvous_generation)
        ⊎ (c'.rendezvous_generation ≡ inc64 c.rendezvous_generation))

Moves-set :
    (i k : ℕ) (s : Ipc) (c : Channel)
    → k < length s.channels
    → Next (channel_at s k) c
    → Moves i s (set_channel s k c)
Moves-set i k s c l next =
    let at : channel_at (set_channel s k c) i ≡ (if i == k then c else channel_at s i) =
      get_or-set s.channels k i c zero_channel l in
    let (used, moved) : Next (channel_at s i) (channel_at (set_channel s k c) i) =
      subst (Next (channel_at s i)) (sym at) (elim (Bool-cases (i == k)) [
        | inr other ↦ rw other (refl, inl refl)
        | inl here ↦
            let same : k ≡ i = ground (arith, here) in
            rw here (subst (λ j. Next (channel_at s j) c) same next)
      ]) in
    record { storage = length-set s.channels k c; in_use = used; generation = moved }

posts-Moves :
    (i : ℕ) (s : Ipc) (channel_id : ℤ) (tid size : ℕ) (payload : List ℕ)
    → length s.channels ≡ max_channels
    → Moves i s (sender_step s channel_id tid size payload trying).1
unfolding sender_step post
posts-Moves i s channel_id tid size payload storage =
    elim (Bool-cases (is_valid_channel_id s channel_id)) [
      | inr bad ↦ rw bad (Moves-self i s)
      | inl good ↦
          elim (Bool-cases ((channel_at s (channel_index channel_id)).rendezvous_pending == 0)) [
            | inr busy ↦ rw (good, busy) (Moves-self i s)
            | inl free ↦
                rw (good, free)
                  (Moves-set i (channel_index channel_id) s
                    (post (channel_at s (channel_index channel_id)) tid size payload)
                    (omega (arith, channel_index_in s channel_id good, storage)) (refl, inl refl))
          ]
    ]

pub takes-Moves :
    (i : ℕ) (s : Ipc) (channel_id : ℤ) (buffer : List ℕ) (payload_capacity : ℕ)
    → length s.channels ≡ max_channels
    → Moves i s (receiver_step s channel_id buffer payload_capacity).1
unfolding receiver_step
takes-Moves i s channel_id buffer payload_capacity storage =
    elim (Bool-cases (is_valid_channel_id s channel_id)) [
      | inr bad ↦ rw bad (Moves-self i s)
      | inl good ↦ elim (Bool-cases (c.rendezvous_pending == 0)) [
        | inl empty ↦ rw (good, empty) (Moves-self i s)
        | inr full ↦ elim (Bool-cases (ltb payload_capacity c.rendezvous_message.size)) [
          | inl small ↦ rw (good, full, small) (Moves-self i s)
          | inr fits ↦
              rw (good, full, fits)
                (Moves-set i (channel_index channel_id) s
                  (record c {
                    rendezvous_pending = 0;
                    rendezvous_generation = inc64 c.rendezvous_generation;
                  })
                  (omega (arith, channel_index_in s channel_id good, storage)) (refl, inr refl))
        ]
      ]
    ]
  where
    c : Channel
    c = channel_at s (channel_index channel_id)

happen-Moves :
    (i : ℕ) (s : Ipc) (e : Event) → length s.channels ≡ max_channels → Moves i s (happen s e)
unfolding happen
happen-Moves i s (posts channel_id tid size payload) storage =
    posts-Moves i s channel_id tid size payload storage
happen-Moves i s (takes channel_id buffer payload_capacity) storage =
    takes-Moves i s channel_id buffer payload_capacity storage

-- The generation of channel `i` is between 1 and `n` past `g`, counted in 64 bits.
pub record Past (i g n used : ℕ) (s : Ipc) : Type 0 where
  pub storage : length s.channels ≡ max_channels
  pub in_use : (channel_at s i).in_use ≡ used
  pub steps : ℕ
  pub some_steps : 1 ≤ steps
  pub few_steps : steps ≤ n
  pub generation : (channel_at s i).rendezvous_generation ≡ (g + steps) % 2 ^ 64

Past-Moves :
    (i g n used : ℕ) (s s' : Ipc) → Past i g n used s → Moves i s s' → Past i g (suc n) used s'
Past-Moves i g n used s s' p m = elim m.generation [
  | inl stays ↦ record {
    storage = m.storage ∙ p.storage;
    in_use = m.in_use ∙ p.in_use;
    steps = p.steps;
    some_steps = p.some_steps;
    few_steps = omega (arith, p.few_steps);
    generation = stays ∙ p.generation;
  }
  | inr moved ↦ record {
    storage = m.storage ∙ p.storage;
    in_use = m.in_use ∙ p.in_use;
    steps = suc p.steps;
    some_steps = omega arith;
    few_steps = omega (arith, p.few_steps);
    generation = omega (arith, moved, p.generation);
  }
]

pub run-Past :
    (i g n used : ℕ) (s : Ipc) (es : List Event)
    → Past i g n used s
    → Past i g (n + length es) used (run s es)
unfolding run
run-Past i g n used s [] p = subst (λ m. Past i g m used s) (omega arith) p
run-Past i g n used s (e ∷ es) p =
    subst (λ m. Past i g m used (run (happen s e) es)) (omega arith)
      (run-Past i g (suc n) used (happen s e) es
        (Past-Moves i g n used s (happen s e) p (happen-Moves i s e p.storage)))
