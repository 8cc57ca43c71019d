-- ===== src/Ipc/Queue/Answers.antt =====
-- What `ipc_channel_send` and `ipc_channel_recv` answer on every branch, and what they do to the queue.
use gnu_os.Base.{
  ℕ, u16, leb, ◌≢◌, ◌≤◌, ◌<◌, ◌≡◌, refl, sym, ap, ap₂, ◌∙◌, ◌⊎◌, inl, inr, true, false, Option,
  none, some, List, [], ◌∷◌, ◌++◌, ℤ, pos, negsuc, neg, arith, length, get_or, take, ltb,
  Bool-cases,
}
use native.Mathlib.Decide.{ℕ_discrete, dec_lt}
use gnu_os.Ring.Refine.{enqueue_full, dequeue_empty}
use gnu_os.Ipc.Channel.{
  Message, Channel, Ipc, is_unused, max_channels, queue_capacity, data_max, zero_message,
  channel_at, is_valid_channel_id,
}
use gnu_os.Base.Arguments.{Index, NoIndex}
use gnu_os.Ipc.Queue.{
  channel_index, write_message, send_locked, Received, receive_message, recv_internal,
}
use gnu_os.Ipc.Queue.Bytes.{take-copy_bytes}
use gnu_os.Ipc.Queue.Fifo.{
  delivered, pending, sent, IsSound, OnlyAt, enqueue_message, dequeue_message, length-pending,
  set_channel_lem,
}

channel_index_in :
    (s : Ipc) (channel_id : ℤ)
    → is_valid_channel_id s channel_id ≡ true
    → channel_index channel_id < max_channels
unfolding is_valid_channel_id
channel_index_in s (pos n) h = ground arith
channel_index_in s (negsuc n) h = cc

-- The number is that of a channel in use, or of none.
abbrev pub IsChannel : Ipc → ℤ → Type 0
IsChannel s channel_id =
    Index channel_id 16 (channel_index channel_id)
    × ((channel_at s (channel_index channel_id)).in_use ≢ 0)

abbrev pub NoChannel : Ipc → ℤ → Type 0
NoChannel s channel_id =
    NoIndex channel_id 16 ⊎ ((i : ℕ) × Index channel_id 16 i × ((channel_at s i).in_use ≡ 0))

number_cases :
    (s : Ipc) (channel_id : ℤ)
    → ((is_valid_channel_id s channel_id ≡ true) × IsChannel s channel_id)
      ⊎ ((is_valid_channel_id s channel_id ≡ false) × NoChannel s channel_id)
unfolding is_valid_channel_id
number_cases s (negsuc n) = inr (refl, inl (inl (n, refl)))
number_cases s (pos n) = elim (Bool-cases (leb max_channels (u16 n))) [
  | inl high ↦ inr (rw (is_valid_channel_id, high) refl, inl (inr (n, refl, ground (arith, high))))
  | inr low ↦ elim (Bool-cases (is_unused (channel_at s (u16 n)))) [
    | inl free ↦ inr (
      rw (is_valid_channel_id, low, free) refl,
      inr (u16 n, (n, refl, refl, ground (arith, low)), ground (arith, free)),
    )
    | inr used ↦ inl (
      rw (is_valid_channel_id, low, used) refl,
      ((n, refl, refl, ground (arith, low)), ground (arith, used)),
    )
  ]
]

-- The answers of a send whose arguments and sender were accepted.
abbrev pub SendAnswers : Ipc → ℤ → Message → ℤ × Ipc → Type 0
SendAnswers s channel_id m out =
    let i = channel_index channel_id in
    (NoChannel s channel_id × (out ≡ (neg 2, s)))
    ⊎ ((IsChannel s channel_id × (length (pending (channel_at s i)) ≡ 32)) × (out ≡ (neg 3, s)))
    ⊎ ((IsChannel s channel_id × (out.0 ≡ pos 0))
        × (pending (channel_at out.1 i) ≡ pending (channel_at s i) ++ (m ∷ []))
        × OnlyAt i s out.1
        × IsSound out.1)

pub send_locked_outcome :
    (s : Ipc) (channel_id : ℤ) (sender size has_capability id rights : ℕ) (payload : List ℕ)
    → IsSound s
    → size ≤ length payload
    → size ≤ data_max
    → SendAnswers s channel_id
        (sent sender size has_capability id rights payload)
        (send_locked s channel_id sender size has_capability id rights payload)
unfolding send_locked
send_locked_outcome s channel_id sender size has_capability id rights payload v given fits =
    elim (number_cases s channel_id) [
      | inr (bad, no_channel) ↦ inl (no_channel, rw bad)
      | inl (good, channel) ↦ elim (dec_lt c.queue.size queue_capacity) [
        | no full ↦ inr (
            inl (
              (channel, omega (arith, length-pending c, (v.each i).ring.size_in, full)),
              rw (good, enqueue_full queue_capacity zero_message c.queue message (omega arith)),
            ))
        | yes room ↦
            let (q, e, grown, w) =
              enqueue_message c sender size has_capability id rights payload (v.each i) room given
                fits in
            let (here, only, sound) =
              set_channel_lem s i (record c { queue = q }) v (channel_index_in s channel_id good)
                w in
            inr (inr (rw (good, e) ((channel, refl), ap pending here ∙ grown, only, sound)))
      ]
    ]
  where
    i : ℕ
    i = channel_index channel_id

    c : Channel
    c = channel_at s i

    message : Message
    message =
        write_message (get_or c.queue.items c.queue.tail zero_message) sender size has_capability id
          rights payload

-- A message as the receiver's buffer and out-variables show it.
abbrev pub seen : Received → Message
seen r = record {
  sender_tid = r.sender_tid;
  size = r.size;
  has_capability = r.has_capability;
  capability_id = r.capability_id;
  capability_rights = r.capability_rights;
  bytes = take r.size r.payload;
}

-- The answers of `ipc_channel_recv_internal` to a buffer and out-pointers that are there.
abbrev pub RecvAnswers : Ipc → ℤ → ℕ → ℤ × Option Received × Ipc → Type 0
RecvAnswers s channel_id payload_capacity out =
    let i = channel_index channel_id in
    (NoChannel s channel_id × (out ≡ (neg 2, none, s)))
    ⊎ ((IsChannel s channel_id × (pending (channel_at s i) ≡ [])) × (out ≡ (neg 3, none, s)))
    ⊎ ((m : Message) × (rest : List Message) × (IsChannel s channel_id
          × (pending (channel_at s i) ≡ m ∷ rest))
        × (payload_capacity < m.size)
        × (out ≡ (neg 4, none, s)))
    ⊎ ((r : Received) × (pending (channel_at s i) ≡ seen r ∷ pending (channel_at out.2 i))
        × (IsChannel s channel_id × (r.size ≤ payload_capacity) × (out.0 ≡ pos 0))
        × (out.1 ≡ some r)
        × OnlyAt i s out.2
        × IsSound out.2)

length-zero : (ms : List Message) → length ms ≡ 0 → ms ≡ []
length-zero [] h = refl
length-zero (m ∷ ms) h = absurd (omega arith)

seen-receive_message :
    (m : Message) (buffer : List ℕ)
    → m.size ≤ length m.bytes
    → m.size ≤ length buffer
    → seen (receive_message m buffer) ≡ delivered m
unfolding receive_message
seen-receive_message m buffer h k =
    ap (λ b. record (delivered m) { bytes = b }) (take-copy_bytes m.size m.bytes buffer h k)

receive_fits :
    (m : Message) (buffer : List ℕ) {capacity : ℕ}
    → m.size ≤ capacity
    → (receive_message m buffer).size ≤ capacity
unfolding receive_message
receive_fits m buffer h = h

-- `ipc_channel_recv` from a sound table, into a buffer that holds `payload_capacity` bytes: -2 exactly
-- for a negative number, one whose low 16 bits are 16 or more, or a channel that is not in use; -3 for an
-- empty queue; -4 for a message that does not fit, which stays first in the queue; all with nothing
-- changed. Otherwise the oldest message leaves the queue of the channel of these low 16 bits, its bytes,
-- size, sender and capability are handed out, and no other channel changes.
pub recv_outcome :
    (s : Ipc) (channel_id : ℤ) (buffer : List ℕ) (payload_capacity : ℕ)
    → IsSound s
    → payload_capacity ≤ length buffer
    → RecvAnswers s channel_id payload_capacity
        (recv_internal s channel_id (some buffer) payload_capacity true)
unfolding recv_internal
recv_outcome s channel_id buffer payload_capacity v room = elim (number_cases s channel_id) [
  | inr (bad, no_channel) ↦ inl (no_channel, rw bad)
  | inl (good, channel) ↦ elim (ℕ_discrete c.queue.size 0) [
    | yes empty ↦ inr (
        inl (
          (channel, length-zero (pending c) (length-pending c ∙ empty)),
          rw (good, dequeue_empty queue_capacity zero_message c.queue empty),
        ))
    | no waiting ↦
        let (m, q, e, first, fits, w) = dequeue_message c (v.each i) waiting in
        elim (Bool-cases (ltb payload_capacity m.size)) [
          | inl large ↦ inr (
              inr (
                inl (
                  delivered m,
                  pending (record c { queue = q }),
                  (channel, first),
                  ground arith,
                  rw (good, e, large),
                )))
          | inr small ↦
              let (here, only, sound) =
                set_channel_lem s i (record c { queue = q }) v (channel_index_in s channel_id good)
                  w in
              inr (
                inr (
                  inr (
                    receive_message m buffer,
                    rw (good, e, small)
                        (first
                          ∙ ap₂ ◌∷◌
                              (sym (
                                seen-receive_message m buffer (omega (arith, fits.0))
                                  (ground arith)))
                              (sym (ap pending here))),
                    rw (good, e, small)
                        (channel, receive_fits m buffer (ground (arith, small)), refl),
                    rw (good, e, small),
                    rw (good, e, small) only,
                    rw (good, e, small) sound,
                  )))
        ]
  ]
]
  where
    i : ℕ
    i = channel_index channel_id

    c : Channel
    c = channel_at s i
