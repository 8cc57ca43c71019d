-- ===== src/Ipc/Rendezvous/Released.antt =====
-- kernel/ipc/ipc.c: a sender whose message was taken is let go, also when others put messages up after it.
use gnu_os.Base.{
  ℕ, ◌+◌, ◌^◌, ◌≤◌, ◌<◌, ◌≡◌, refl, sym, ap, ◌∙◌, inl, inr, true, false, Option, some, List, ℤ, pos,
  negsuc, arith, length, ltb, ◌==◌, if◌then◌else◌, Bool-cases,
}
use gnu_os.Ipc.Channel.{Message, Ipc, channel_at, is_valid_channel_id}
use gnu_os.Ipc.Queue.{channel_index, receive_message}
use gnu_os.Ipc.Rendezvous.{waiting, returned, sender_step, receiver_step}
use gnu_os.Ipc.Rendezvous.Standing.{Event, run, Stands, takes_here}
use gnu_os.Ipc.Rendezvous.Moves.{takes-Moves, Past, run-Past}

valid_by_use :
    (s s' : Ipc) (channel_id : ℤ)
    → (channel_at s' (channel_index channel_id)).in_use
      ≡ (channel_at s (channel_index channel_id)).in_use
    → is_valid_channel_id s channel_id ≡ true
    → is_valid_channel_id s' channel_id ≡ true
unfolding is_valid_channel_id
valid_by_use s s' (negsuc n) same h = h
valid_by_use s s' (pos n) same h = ground (arith, same, h)

-- The pass of a waiting sender once the generation has moved.
next_pass :
    (s s' : Ipc) (channel_id : ℤ) (g n : ℕ) (tid size : ℕ) (payload : List ℕ)
    → is_valid_channel_id s channel_id ≡ true
    → g < 2 ^ 64
    → n < 2 ^ 64
    → Past (channel_index channel_id) g n (channel_at s (channel_index channel_id)).in_use s'
    → (sender_step s' channel_id tid size payload (waiting g)).0 ≡ (
        if (channel_at s' (channel_index channel_id)).rendezvous_pending == 0
        then returned (pos 0)
        else waiting g)
unfolding sender_step
next_pass s s' channel_id g n tid size payload good small short p =
    let moved : ((channel_at s' (channel_index channel_id)).rendezvous_generation == g) ≡ false =
      ground (arith, p.generation, p.some_steps, p.few_steps, small, short) in
    elim (Bool-cases ((channel_at s' (channel_index channel_id)).rendezvous_pending == 0)) [
      | inl empty ↦ rw (valid_by_use s s' channel_id p.in_use good, moved, empty) refl
      | inr full ↦ rw (valid_by_use s s' channel_id p.in_use good, moved, full) refl
    ]

received :
    (s : Ipc) (channel_id : ℤ) (g : ℕ) (m : Message) (buffer : List ℕ) (payload_capacity : ℕ)
    → Stands (channel_index channel_id) g m s
    → is_valid_channel_id s channel_id ≡ true
    → m.size ≤ payload_capacity
    → (receiver_step s channel_id buffer payload_capacity).0
      ≡ some (pos 0, some (receive_message m buffer))
unfolding receiver_step
received s channel_id g m buffer payload_capacity h good fits =
    let room : ltb payload_capacity
          (channel_at s (channel_index channel_id)).rendezvous_message.size
        ≡ false =
      ground (arith, ap (λ (r : Message). r.size) h.message) in
    rw (good, h.pending, room) (ap (λ r. some (pos 0, some (receive_message r buffer))) h.message)

answers_differ :
    {A : Type 0} {x y : A} (n : ℕ) → ¬ Path (Option (ℤ × A)) (some (pos 0, x)) (some (negsuc n, y))
answers_differ n e = cc

received-Past :
    (s : Ipc) (channel_id : ℤ) (g : ℕ) (m : Message) (buffer : List ℕ) (payload_capacity : ℕ)
    → Stands (channel_index channel_id) g m s
    → is_valid_channel_id s channel_id ≡ true
    → m.size ≤ payload_capacity
    → Past
        (channel_index channel_id)
        g
        1
        (channel_at s (channel_index channel_id)).in_use
        (receiver_step s channel_id buffer payload_capacity).1
received-Past s channel_id g m buffer payload_capacity h good fits =
    let moves =
      takes-Moves (channel_index channel_id) s channel_id buffer payload_capacity h.storage in
    elim (takes_here g m s channel_id buffer payload_capacity h) [
      | inl (_, _, generation) ↦ record {
        storage = moves.storage ∙ h.storage;
        in_use = moves.in_use;
        steps = 1;
        some_steps = omega arith;
        few_steps = omega arith;
        generation = generation;
      }
      | inr (n, e, _) ↦ absurd (
          answers_differ n
            (sym (received s channel_id g m buffer payload_capacity h good fits) ∙ e))
    ]

-- When a message that was put up at generation `g` stands in a channel in use and a receiver with room for it makes
-- a pass, the receiver gets it. After any fewer than 2^64 - 1 passes of other tasks on any channels since then,
-- the next pass of the message's sender answers 0 where the slot of the channel is empty, and only waits
-- on where another message stands in it.
pub rendezvous_released :
    (s : Ipc) (channel_id : ℤ) (g : ℕ) (m : Message) (buffer : List ℕ) (payload_capacity : ℕ)
    (es : List Event) (tid size : ℕ) (payload : List ℕ)
    → Stands (channel_index channel_id) g m s
    → is_valid_channel_id s channel_id ≡ true
    → m.size ≤ payload_capacity
    → g < 2 ^ 64
    → 1 + length es < 2 ^ 64
    → let out = receiver_step s channel_id buffer payload_capacity in
      let s' = run out.1 es in
      (out.0 ≡ some (pos 0, some (receive_message m buffer)))
      × ((sender_step s' channel_id tid size payload (waiting g)).0 ≡ (
          if (channel_at s' (channel_index channel_id)).rendezvous_pending == 0
          then returned (pos 0)
          else waiting g))
rendezvous_released s channel_id g m buffer payload_capacity es tid size payload h good fits small
      short =
    (
      received s channel_id g m buffer payload_capacity h good fits,
      next_pass s (run (receiver_step s channel_id buffer payload_capacity).1 es) channel_id g
          (1 + length es) tid size payload good small short
          (run-Past (channel_index channel_id) g 1 (channel_at s (channel_index channel_id)).in_use
            (receiver_step s channel_id buffer payload_capacity).1 es
            (received-Past s channel_id g m buffer payload_capacity h good fits)),
    )
