-- ===== src/Ipc/Channel.antt =====
-- kernel/ipc/ipc.c: the table of channels, `ipc_init`, `ipc_channel_create`, `ipc_channel_find`.
-- Each runs under `g_ipc_lock` with interrupts off, so it is one step on the table. A `char *` that
-- may be NULL is an `Option`.
pub mod Creation
pub mod Lookup
pub mod Made
pub mod Registry
use gnu_os.Base.{
  ℕ, ◌+◌, Bool, true, false, not, ◌||◌, ◌&&◌, Option, none, some, List, [], map, ℤ, pos, negsuc,
  neg, leb, ltb, ◌==◌, if◌then◌else◌, get_or, set, replicate, find_idx_from, u16, inc16,
}
use gnu_os.Names.{name_max, strnlen, name_equal, name_copy}
use gnu_os.Ring.{Ring}

-- `IPC_MAX_CHANNELS`
abbrev pub max_channels : ℕ
max_channels = 16

-- `IPC_CHANNEL_QUEUE_CAPACITY`
abbrev pub queue_capacity : ℕ
queue_capacity = 32

-- `IPC_MESSAGE_DATA_MAX`
abbrev pub data_max : ℕ
data_max = 64

-- `ipc_message_t`; `bytes` is its `data`.
pub record Message : Type 0 where
  pub sender_tid : ℕ
  pub size : ℕ
  pub has_capability : ℕ
  pub capability_id : ℕ
  pub capability_rights : ℕ
  pub bytes : List ℕ

-- `ipc_channel_t`; `queue` is its `queue`, `head`, `tail` and `count`.
pub record Channel : Type 0 where
  pub in_use : ℕ
  pub name : List ℕ
  pub queue : Ring Message
  pub rendezvous_pending : ℕ
  pub rendezvous_generation : ℕ
  pub rendezvous_message : Message

-- `g_ipc_channels` and `g_ipc_channel_count`
pub record Ipc : Type 0 where
  pub channels : List Channel
  pub channel_count : ℕ

-- Static storage is zero before `ipc_init`.
unfoldable pub zero_message : Message
zero_message = record {
  sender_tid = 0;
  size = 0;
  has_capability = 0;
  capability_id = 0;
  capability_rights = 0;
  bytes = replicate data_max 0;
}

unfoldable pub zero_channel : Channel
zero_channel = record {
  in_use = 0;
  name = replicate name_max 0;
  queue = record { items = replicate queue_capacity zero_message; head = 0; tail = 0; size = 0 };
  rendezvous_pending = 0;
  rendezvous_generation = 0;
  rendezvous_message = zero_message;
}

unfoldable pub boot : Ipc
boot = record { channels = replicate max_channels zero_channel; channel_count = 0 }

abbrev pub is_unused : Channel → Bool
is_unused c = c.in_use == 0

abbrev pub channel_at : Ipc → ℕ → Channel
channel_at s i = get_or s.channels i zero_channel

abbrev pub set_channel : Ipc → ℕ → Channel → Ipc
set_channel s i c = record s { channels = set s.channels i c }

-- What `ipc_init` and `ipc_channel_create` both reset; the bytes of old messages stay.
unfoldable pub reset_channel : Channel → Channel
reset_channel c = record c {
  in_use = 0;
  name = name_copy [];
  queue = record (c.queue) { head = 0; tail = 0; size = 0 };
  rendezvous_pending = 0;
  rendezvous_generation = 0;
  rendezvous_message = record (c.rendezvous_message) {
    sender_tid = 0;
    size = 0;
    has_capability = 0;
    capability_id = 0;
    capability_rights = 0;
  };
}

unfoldable pub init : Ipc → Ipc
init s = record { channels = map reset_channel s.channels; channel_count = 0 }

abbrev pub has_name : List ℕ → Channel → Bool
has_name name c = not (is_unused c) && name_equal c.name name

-- An index found, or -1.
abbrev pub found : Option ℕ → ℤ
found none = neg 1
found (some i) = pos i

unfoldable pub find_channel_locked : Ipc → List ℕ → ℤ
find_channel_locked s name = found (find_idx_from (has_name name) 0 s.channels)

-- An `int` is truncated to 16 bits before it is compared with the number of channels.
unfoldable pub is_valid_channel_id : Ipc → ℤ → Bool
is_valid_channel_id s (negsuc n) = false
is_valid_channel_id s (pos n) =
    if leb max_channels (u16 n) then false else not (is_unused (channel_at s (u16 n)))

-- The body of `ipc_channel_create` once no channel has the name.
unfoldable pub create_in_free_slot : Ipc → List ℕ → ℤ × Ipc
create_in_free_slot s name = elim (find_idx_from is_unused 0 s.channels) [
  | none ↦ (neg 2, s)
  | some i ↦ (
    pos i,
    record {
      channels =
          set s.channels i
            (record (reset_channel (channel_at s i)) { in_use = 1; name = name_copy name });
      channel_count = inc16 s.channel_count;
    },
  )
]

unfoldable pub create : Ipc → Option (List ℕ) → ℤ × Ipc
create s none = (neg 1, s)
create s (some name) =
    if strnlen name name_max == 0 || leb name_max (strnlen name name_max)
    then (neg 1, s)
    else elim (find_channel_locked s name) [
      | pos i ↦ (pos i, s)
      | negsuc _ ↦ create_in_free_slot s name
    ]

unfoldable pub find : Ipc → Option (List ℕ) → ℤ
find s none = neg 1
find s (some name) = find_channel_locked s name
