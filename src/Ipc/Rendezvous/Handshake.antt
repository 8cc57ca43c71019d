-- ===== src/Ipc/Rendezvous/Handshake.antt =====
-- kernel/ipc/ipc.c: a rendezvous send returns only when its own message has been taken.
use gnu_os.Base.{
  ℕ, ◌≤◌, ◌≡◌, ◌≢◌, ap, ◌∙◌, inl, inr, some, List, ℤ, pos, arith, length, ◌==◌, Bool-cases,
  get_or-set_self, length-set,
}
use gnu_os.Ipc.Channel.{
  Message, Channel, Ipc, max_channels, zero_channel, channel_at, set_channel, is_valid_channel_id,
}
use gnu_os.Ipc.Queue.{channel_index, write_message, receive_message}
use gnu_os.Ipc.Queue.Fifo.{sent, delivered, delivered-write_message}
use gnu_os.Ipc.Rendezvous.{trying, waiting, returned, post, sender_step}
use gnu_os.Ipc.Rendezvous.Standing.{Event, run, first_taken, Stands, channel_index_in}
use gnu_os.Ipc.Rendezvous.Progress.{FirstTaken, run-FirstTaken, taken_first, not_taken}

-- While the message stands, its sender does not return 0.
standing_waits :
    (g : ℕ) (m : Message) (s : Ipc) (channel_id : ℤ) (tid size : ℕ) (payload : List ℕ)
    → Stands (channel_index channel_id) g m s
    → (sender_step s channel_id tid size payload (waiting g)).0 ≢ returned (pos 0)
unfolding sender_step
standing_waits g m s channel_id tid size payload h e =
    elim (Bool-cases (is_valid_channel_id s channel_id)) [
      | inr bad ↦ absurd (ground arith)
      | inl good ↦ absurd (ground (arith, h.pending))
    ]

FirstTaken-result :
    (s : Ipc) (channel_id : ℤ) (tid size g : ℕ) (payload : List ℕ) (es : List Event) (m : Message)
    → (sender_step (run s es) channel_id tid size payload (waiting g)).0 ≡ returned (pos 0)
    → FirstTaken (channel_index channel_id) g m s es
    → delivered m ≡ sent tid size 0 0 0 payload
    → (m : Message) × (buffer : List ℕ) × (first_taken (channel_index channel_id) s es
        ≡ some (receive_message m buffer))
      × (delivered m ≡ sent tid size 0 0 0 payload)
FirstTaken-result s channel_id tid size g payload es m done (taken_first buffer e) d =
    (m, buffer, e, d)
FirstTaken-result s channel_id tid size g payload es m done (not_taken e stands) d =
    absurd (standing_waits g m (run s es) channel_id tid size payload stands done)

post-Stands :
    (i g : ℕ) (c : Channel) (s : Ipc) (tid size : ℕ) (payload : List ℕ)
    → length s.channels ≡ max_channels
    → c.rendezvous_generation ≡ g
    → channel_at (set_channel s i (post c tid size payload)) i ≡ post c tid size payload
    → Stands i g
        (write_message c.rendezvous_message tid size 0 0 0 payload)
        (set_channel s i (post c tid size payload))
unfolding post
post-Stands i g c s tid size payload storage at here = record {
  storage = length-set s.channels i (post c tid size payload) ∙ storage;
  pending = ap (λ d. d.rendezvous_pending) here;
  generation = ap (λ d. d.rendezvous_generation) here ∙ at;
  message = ap (λ d. d.rendezvous_message) here;
}

-- Putting a message up makes it stand.
pub posted-Stands :
    (s : Ipc) (channel_id : ℤ) (tid size g : ℕ) (payload : List ℕ)
    → length s.channels ≡ max_channels
    → (sender_step s channel_id tid size payload trying).0 ≡ waiting g
    → let i = channel_index channel_id in
      Stands i g
        (write_message (channel_at s i).rendezvous_message tid size 0 0 0 payload)
        (sender_step s channel_id tid size payload trying).1
unfolding sender_step
posted-Stands s channel_id tid size g payload storage e =
    elim (Bool-cases (is_valid_channel_id s channel_id)) [
      | inr bad ↦ absurd (ground arith)
      | inl good ↦ elim (Bool-cases (c.rendezvous_pending == 0)) [
        | inr busy ↦ absurd (ground arith)
        | inl free ↦
            let at : c.rendezvous_generation ≡ g = ground arith in
            let here : channel_at (set_channel s i (post c tid size payload)) i
                ≡ post c tid size payload =
              get_or-set_self s.channels i (post c tid size payload) zero_channel
                (omega (arith, channel_index_in s channel_id good, storage)) in
            rw (good, free) (post-Stands i g c s tid size payload storage at here)
      ]
    ]
  where
    i : ℕ
    i = channel_index channel_id

    c : Channel
    c = channel_at s i

-- `ipc_channel_rendezvous_send` answers 0 only when its own message has been taken. A sender puts its
-- message up in a table of 16 channels; then other tasks send and receive on any channels; if the
-- sender's next pass answers 0, the first message that was taken out of its channel since then is the
-- one that it put up, which its receiver gets with its sender, its size and its bytes.
pub rendezvous_send_taken :
    (s : Ipc) (channel_id : ℤ) (tid size g : ℕ) (payload : List ℕ) (es : List Event)
    → length s.channels ≡ max_channels
    → size ≤ length payload
    → size ≤ length (channel_at s (channel_index channel_id)).rendezvous_message.bytes
    → (sender_step s channel_id tid size payload trying).0 ≡ waiting g
    → let s' = (sender_step s channel_id tid size payload trying).1 in
      (sender_step (run s' es) channel_id tid size payload (waiting g)).0 ≡ returned (pos 0)
      → (m : Message) × (buffer : List ℕ) × (first_taken (channel_index channel_id) s' es
          ≡ some (receive_message m buffer))
        × (delivered m ≡ sent tid size 0 0 0 payload)
rendezvous_send_taken s channel_id tid size g payload es storage given fits posted done =
    FirstTaken-result s' channel_id tid size g payload es message done
      (run-FirstTaken (channel_index channel_id) g message s' es
        (posted-Stands s channel_id tid size g payload storage posted))
      (delivered-write_message (channel_at s (channel_index channel_id)).rendezvous_message tid size
        0 0 0 payload given fits)
  where
    s' : Ipc
    s' = (sender_step s channel_id tid size payload trying).1

    message : Message
    message =
        write_message (channel_at s (channel_index channel_id)).rendezvous_message tid size 0 0 0
          payload
