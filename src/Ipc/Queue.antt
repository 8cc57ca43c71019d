-- ===== src/Ipc/Queue.antt =====
-- kernel/ipc/ipc.c: sending to and receiving from the queue of a channel, with or without a
-- capability. The checks before the lock and the step under it are one step here: nothing takes a
-- capability away, so a transfer that was validated before the lock stays permitted. The task that
-- `sched_current_task` returns is given by its thread number, `none` for NULL.
pub mod Bytes
pub mod Fifo
pub mod Answers
pub mod Handover
pub mod History
pub mod Aliases
use mathlib.Core.Option.{get_or as option_or}
use gnu_os.Base.{
  ℕ, zero, suc, ◌+◌, ◌-◌, ◌%◌, ◌^◌, Bool, true, false, not, ◌||◌, ◌&&◌, Option, none, some, List, ℤ,
  pos, negsuc, neg, leb, ltb, ◌==◌, if◌then◌else◌, get_or, set, u16,
}
use gnu_os.Ring.{Ring, enqueue, dequeue}
use gnu_os.Capability.Api.{CapabilityApi}
use gnu_os.Ipc.Channel.{
  Message, Channel, Ipc, queue_capacity, data_max, zero_message, channel_at, set_channel,
  is_valid_channel_id,
}

-- `for (index = 0; index < size; index++) dst[index] = src[index];`: rounds left, then the index.
unfoldable pub copy_bytes : ℕ → ℕ → List ℕ → List ℕ → List ℕ
copy_bytes zero i src dst = dst
copy_bytes (suc n) i src dst = copy_bytes n (i + 1) src (set dst i (get_or src i 0))

-- `(uint16_t)channel_id`
abbrev pub channel_index : ℤ → ℕ
channel_index (pos n) = u16 n
channel_index (negsuc n) = 2 ^ 16 - 1 - u16 n

-- `ipc_current_tid`
abbrev pub current_tid : Option ℕ → ℕ
current_tid none = 0
current_tid (some tid) = tid

-- `ipc_resolve_sender_tid`; `none` is its answer 0.
unfoldable pub resolve_sender_tid : Option ℕ → ℕ → Option ℕ
resolve_sender_tid current sender_tid =
    if sender_tid == 0
    then some (current_tid current)
    else if not (current_tid current == 0) && not (sender_tid == current_tid current)
    then none
    else some sender_tid

abbrev pub is_ok : ℤ → Bool
is_ok (pos n) = n == 0
is_ok (negsuc n) = false

-- The message that is written over the slot at `tail`: bytes past `size` stay.
unfoldable pub write_message :
    Message → (sender size has_capability id rights : ℕ) → List ℕ → Message
write_message old sender size has_capability id rights payload = record {
  sender_tid = sender;
  size = size;
  has_capability = if has_capability == 0 then 0 else 1;
  capability_id = if has_capability == 0 then 0 else id;
  capability_rights = if has_capability == 0 then 0 else rights;
  bytes = copy_bytes size 0 payload old.bytes;
}

-- The part of `ipc_channel_send_internal` that runs under the lock, given whether the channel number
-- is valid, and its index.
unfoldable pub send_at :
    Ipc → (valid : Bool) (i sender size has_capability id rights : ℕ) → List ℕ → ℤ × Ipc
send_at s valid i sender size has_capability id rights payload =
    let channel = channel_at s i in
    let old = get_or channel.queue.items channel.queue.tail zero_message in
    let message = write_message old sender size has_capability id rights payload in
    if not valid then (neg 2, s) else elim (enqueue queue_capacity channel.queue message) [
      | none ↦ (neg 3, s)
      | some q ↦ (pos 0, set_channel s i (record channel { queue = q }))
    ]

unfoldable pub send_locked : Ipc → ℤ → (sender size has_capability id rights : ℕ) → List ℕ → ℤ × Ipc
unfolding send_at
send_locked s channel_id sender size has_capability id rights payload =
    send_at s (is_valid_channel_id s channel_id) (channel_index channel_id) sender size
      has_capability id rights payload

-- What goes out through the pointers of a successful receive.
pub record Received : Type 0 where
  pub payload : List ℕ
  pub size : ℕ
  pub sender_tid : ℕ
  pub has_capability : ℕ
  pub capability_id : ℕ
  pub capability_rights : ℕ

unfoldable pub receive_message : Message → List ℕ → Received
receive_message m buffer = record {
  payload = copy_bytes m.size 0 m.bytes buffer;
  size = m.size;
  sender_tid = m.sender_tid;
  has_capability = m.has_capability;
  capability_id = m.capability_id;
  capability_rights = m.capability_rights;
}

-- The part of `ipc_channel_recv_internal` that runs under the lock.
unfoldable pub recv_at :
    Ipc
    → (valid : Bool) (i : ℕ) (buffer : List ℕ) (payload_capacity : ℕ) → ℤ × Option Received × Ipc
recv_at s valid i buffer payload_capacity =
    let channel = channel_at s i in
    if not valid
    then (neg 2, none, s)
    else elim (dequeue queue_capacity zero_message channel.queue) [
      | none ↦ (neg 3, none, s)
      | some (m, q) ↦ if ltb payload_capacity m.size then (neg 4, none, s) else (
        pos 0,
        some (receive_message m buffer),
        set_channel s i (record channel { queue = q }),
      )
    ]

-- `has_outs`: `out_size` and `out_sender_tid` are not NULL; the other pointers never are.
unfoldable pub recv_internal : Ipc → ℤ → Option (List ℕ) → ℕ → Bool → ℤ × Option Received × Ipc
unfolding recv_at
recv_internal s channel_id none payload_capacity has_outs = (neg 1, none, s)
recv_internal s channel_id (some buffer) payload_capacity has_outs =
    if not has_outs
    then (neg 1, none, s)
    else recv_at s (is_valid_channel_id s channel_id) (channel_index channel_id) buffer
        payload_capacity

unfoldable pub recv : Ipc → ℤ → Option (List ℕ) → ℕ → Bool → ℤ × Option Received × Ipc
recv s channel_id payload payload_capacity has_outs =
    recv_internal s channel_id payload payload_capacity has_outs

module _ (caps : CapabilityApi) where
  open caps use {State, validate_transfer, copy_for_owner}

  unfoldable pub send_internal :
      State
      → Ipc
      → Option ℕ
      → ℤ
      → Option (List ℕ)
      → (size sender has_capability id rights : ℕ) → ℤ × Ipc
  send_internal c s current channel_id none size sender has_capability id rights = (neg 1, s)
  send_internal c s current channel_id (some payload) size sender has_capability id rights =
      if size == 0 || ltb data_max size
      then (neg 1, s)
      else elim (resolve_sender_tid current sender) [
        | none ↦ (neg 1, s)
        | some tid ↦
            if not (has_capability == 0) && not (is_ok (validate_transfer c id tid rights))
            then (neg 4, s)
            else send_locked s channel_id tid size has_capability id rights payload
      ]

  unfoldable pub send : State → Ipc → Option ℕ → ℤ → Option (List ℕ) → (size sender : ℕ) → ℤ × Ipc
  send c s current channel_id payload size sender =
      send_internal c s current channel_id payload size sender 0 0 0

  unfoldable pub send_capability :
      State → Ipc → Option ℕ → ℤ → Option (List ℕ) → (size sender id rights : ℕ) → ℤ × Ipc
  send_capability c s current channel_id payload size sender id rights =
      if id == 0 || rights == 0
      then (neg 1, s)
      else send_internal c s current channel_id payload size sender 1 id rights

  -- The capability number and rights are `none` where nothing is written through their pointers.
  pub record CapabilityReceived : Type 0 where
    pub status : ℤ
    pub message : Option Received
    pub grant : Option (ℕ × ℕ)
    pub ipc : Ipc
    pub capabilities : State

  -- What `ipc_channel_recv_capability` does with a message that it received.
  unfoldable pub accept_grant : State → Ipc → Option ℕ → Received → CapabilityReceived
  accept_grant c s current m =
      if m.has_capability == 0
      then record {
        status = pos 0;
        message = some m;
        grant = some (0, 0);
        ipc = s;
        capabilities = c;
      }
      else let (copied, new, c') =
          copy_for_owner c m.capability_id m.sender_tid m.capability_rights (current_tid current)
            true in
        record {
          status = if is_ok copied then pos 0 else neg 5;
          message = some m;
          grant = some (option_or new 0, if is_ok copied then m.capability_rights else 0);
          ipc = s;
          capabilities = c';
        }

  -- A message comes with the status 0, and with no other.
  unfoldable pub accept_message : State → Option ℕ → ℤ × Option Received × Ipc → CapabilityReceived
  accept_message c current (status, none, s) = record {
    status = status;
    message = none;
    grant = some (0, 0);
    ipc = s;
    capabilities = c;
  }
  accept_message c current (status, some m, s) = accept_grant c s current m

  -- `has_grant_outs`: `out_capability_id` and `out_capability_rights` are not NULL.
  unfoldable pub recv_capability :
      State
      → Ipc
      → Option ℕ
      → ℤ
      → Option (List ℕ)
      → ℕ
      → (has_outs has_grant_outs : Bool) → CapabilityReceived
  recv_capability c s current channel_id payload payload_capacity has_outs false = record {
    status = neg 1;
    message = none;
    grant = none;
    ipc = s;
    capabilities = c;
  }
  recv_capability c s current channel_id payload payload_capacity has_outs true =
      accept_message c current (recv_internal s channel_id payload payload_capacity has_outs)
