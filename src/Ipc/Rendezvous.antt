-- ===== src/Ipc/Rendezvous.antt =====
-- kernel/ipc/ipc.c: `ipc_channel_rendezvous_send` and `ipc_channel_rendezvous_recv`. Each pass of their
-- loops takes `g_ipc_lock` once and is one step; between two passes other tasks run.
pub mod Standing
pub mod Progress
pub mod Handshake
pub mod Moves
pub mod Released
use gnu_os.Base.{
  ℕ, ◌+◌, Bool, true, false, not, ◌||◌, ◌&&◌, Option, none, some, List, ℤ, pos, neg, leb, ltb, ◌==◌,
  if◌then◌else◌, inc64,
}
use gnu_os.Ipc.Channel.{Channel, Ipc, data_max, channel_at, set_channel, is_valid_channel_id}
use gnu_os.Ipc.Queue.{channel_index, resolve_sender_tid, write_message, Received, receive_message}

-- Where a sender stands: in its first loop, in its second one with the generation that it saw, or
-- done with a status.
pub data Sender : Type 0 where
  trying : Sender
  waiting : (base_generation : ℕ) → Sender
  returned : ℤ → Sender

-- The checks before the loops; the number is that of the sending task.
unfoldable pub start_send : Option ℕ → Option (List ℕ) → (size sender_tid : ℕ) → Sender × ℕ
start_send current none size sender_tid = (returned (neg 1), 0)
start_send current (some payload) size sender_tid =
    if size == 0 || ltb data_max size
    then (returned (neg 1), 0)
    else elim (resolve_sender_tid current sender_tid) [
      | none ↦ (returned (neg 1), 0)
      | some tid ↦ (trying, tid)
    ]

-- The channel with a message put up in its rendezvous slot.
unfoldable pub post : Channel → (tid size : ℕ) → List ℕ → Channel
post c tid size payload = record c {
  rendezvous_message = write_message c.rendezvous_message tid size 0 0 0 payload;
  rendezvous_pending = 1;
}

-- One pass of the loop that the sender is in.
unfoldable pub sender_step : Ipc → ℤ → (tid size : ℕ) → List ℕ → Sender → Sender × Ipc
sender_step s channel_id tid size payload trying =
    let c = channel_at s (channel_index channel_id) in
    if not (is_valid_channel_id s channel_id)
    then (returned (neg 2), s)
    else if c.rendezvous_pending == 0
    then (
      waiting c.rendezvous_generation,
      set_channel s (channel_index channel_id) (post c tid size payload),
    )
    else (trying, s)
sender_step s channel_id tid size payload (waiting base_generation) =
    let c = channel_at s (channel_index channel_id) in
    if not (is_valid_channel_id s channel_id)
    then (returned (neg 2), s)
    else if c.rendezvous_pending == 0 && not (c.rendezvous_generation == base_generation)
    then (returned (pos 0), s)
    else (waiting base_generation, s)
sender_step s channel_id tid size payload (returned status) = (returned status, s)

-- One pass of the receiver's loop: a status with what goes out, or `none` for another pass.
unfoldable pub receiver_step : Ipc → ℤ → List ℕ → ℕ → Option (ℤ × Option Received) × Ipc
receiver_step s channel_id buffer payload_capacity =
    let c = channel_at s (channel_index channel_id) in
    if not (is_valid_channel_id s channel_id)
    then (some (neg 2, none), s)
    else if c.rendezvous_pending == 0
    then (none, s)
    else if ltb payload_capacity c.rendezvous_message.size
    then (some (neg 4, none), s)
    else (
      some (pos 0, some (receive_message c.rendezvous_message buffer)),
      set_channel s (channel_index channel_id) (record c {
        rendezvous_pending = 0;
        rendezvous_generation = inc64 c.rendezvous_generation;
      }),
    )

-- The checks before the receiver's loop, and its first pass.
unfoldable pub start_recv :
    Ipc → ℤ → Option (List ℕ) → ℕ → Bool → Option (ℤ × Option Received) × Ipc
start_recv s channel_id none payload_capacity has_outs = (some (neg 1, none), s)
start_recv s channel_id (some buffer) payload_capacity has_outs =
    if has_outs then receiver_step s channel_id buffer payload_capacity else (some (neg 1, none), s)
