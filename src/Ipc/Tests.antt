-- ===== src/Ipc/Tests.antt =====
-- Channels, queues and rendezvous on small inputs.
use gnu_os.Base.{
  ℕ, ◌+◌, ◌*◌, ◌^◌, ◌≡◌, refl, true, some, List, [], ◌∷◌, ◌++◌, pos, arith, find_idx_from,
  replicate, ◌≤◌, length, ◌==◌, if◌then◌else◌,
}
use gnu_os.Names
use gnu_os.Capability
use gnu_os.Capability.{Table}
use gnu_os.Capability.Grants
use gnu_os.Capability.History
use gnu_os.Capability.Api.{capability_table}
use gnu_os.Ring
use gnu_os.Ipc.Channel.{
  Message, Ipc, boot, init, create, find_channel_locked, is_valid_channel_id, create_in_free_slot,
  reset_channel, zero_channel, zero_message, channel_at,
}
use gnu_os.Ipc.Channel.Registry
use gnu_os.Ipc.Channel.Creation
use gnu_os.Ipc.Channel.Registry.{Answers, find-create, create_idempotent}
use gnu_os.Ipc.Queue.{
  send_capability, recv_capability, send_internal, send_locked, recv_internal, resolve_sender_tid,
  write_message, receive_message, copy_bytes, accept_message, accept_grant,
}
use gnu_os.Ipc.Queue.Fifo.{IsSound, pending, delivered, sent}
use gnu_os.Ipc.Queue.Answers.{RecvAnswers, recv_outcome}
use gnu_os.Ipc.Queue.Handover.{HandedOver, SendOutcome, send_outcome, recv_capability_safe}
use gnu_os.Ipc.Queue.History.{
  Call, sends, receives, run, all_taken_in, all_handed_out, run_in_order,
}
use gnu_os.Ipc.Queue.Aliases.{channel_number_aliases}
use gnu_os.Ipc.Rendezvous.{sender_step, receiver_step, post, trying, waiting, returned}
use gnu_os.Ipc.Rendezvous.Handshake
use gnu_os.Ipc.Rendezvous.Handshake.{rendezvous_send_taken}
use gnu_os.Ipc.Rendezvous.Released.{rendezvous_released}
use gnu_os.Ipc.Rendezvous.Standing
use gnu_os.Ipc.Rendezvous.Standing.{Event, posts, takes, first_taken}
use gnu_os.Ipc.Sound.{ready, ready-IsSound, create-IsSound}

-- "ab"
abbrev ab : List ℕ
ab = 97 ∷ 98 ∷ []

abbrev abc : List ℕ
abc = 97 ∷ 98 ∷ 99 ∷ []

named : Ipc
named = (create ready (some ab)).1

created_first : (create ready (some ab)).0 ≡ pos 0
unfolding create create_in_free_slot find_channel_locked Names.strnlen ready init boot reset_channel
    zero_channel find_idx_from replicate
created_first = refl

valid_first : is_valid_channel_id named (pos 0) ≡ true
unfolding named is_valid_channel_id create create_in_free_slot find_channel_locked Names.strnlen
    ready init boot reset_channel zero_channel find_idx_from replicate
valid_first = refl

-- The number is cut to 16 bits before it is compared: 65536 stands for channel 0.
valid_wrapped : is_valid_channel_id named (pos 65536) ≡ true
unfolding named is_valid_channel_id create create_in_free_slot find_channel_locked Names.strnlen
    ready init boot reset_channel zero_channel find_idx_from replicate
valid_wrapped = refl

named-IsValid : Creation.IsValid named
unfolding named
named-IsValid = Registry.create-IsValid ready (some ab) ready-IsSound.1

named-IsSound : IsSound named
unfolding named
named-IsSound = create-IsSound ready ab ready-IsSound.1 ready-IsSound.0

-- Witnesses for the registry of names.

channel_create_outcome_example : Answers named abc (create named (some abc))
channel_create_outcome_example = Registry.channel_create_outcome named abc named-IsValid

-- Witnesses for the queue. Task 7 has read and transfer rights (0x0009) on object 5.
abbrev held : Table
held = Capability.History.run Capability.init (Capability.History.creates 7 5 0x0009 true ∷ [])

held-IsValid : Capability.Grants.IsValid held
held-IsValid = Capability.History.run-IsValid (Capability.History.creates 7 5 0x0009 true ∷ [])

buffer : List ℕ
buffer = replicate 64 0

room : 64 ≤ length buffer
unfolding buffer replicate
room = omega arith

-- The table after task 7 has sent "ab" with the right to read object 5.
carrying : Ipc
carrying = (send_capability capability_table held named (some 7) (pos 0) (some ab) 2 0 1 1).1

received_read :
    (recv_capability capability_table held carrying
      (some 9)
      (pos 0)
      (some buffer)
      64
      true
      true).grant
    ≡ some (2, 1)
unfolding carrying named buffer recv_capability accept_message accept_grant recv_internal
    send_capability send_internal send_locked resolve_sender_tid write_message receive_message
    copy_bytes Ring.enqueue Ring.dequeue is_valid_channel_id create create_in_free_slot
    find_channel_locked Names.strnlen ready init boot reset_channel zero_channel zero_message
    find_idx_from replicate Capability.History.run Capability.History.step Capability.init
    Capability.create Capability.copy_for_owner Capability.claim_first Capability.transfer_status
    Capability.validate_transfer Capability.is_valid_id
received_read = refl

recv_capability_safe_example :
    HandedOver capability_table held 9 2 1
      (recv_capability capability_table held carrying (some 9) (pos 0) (some buffer) 64 true true)
recv_capability_safe_example =
    recv_capability_safe capability_table held carrying (some 9) (pos 0) (some buffer) 64 true true
      2 1 held-IsValid received_read (omega arith)

send_outcome_example : SendOutcome capability_table held named (some 7) (pos 0) ab 2 0 1 1 1
send_outcome_example =
    send_outcome capability_table held named (some 7) (pos 0) ab 2 0 1 1 1 named-IsSound
      (omega arith)

recv_outcome_example :
    RecvAnswers named (pos 0) 64 (recv_internal named (pos 0) (some buffer) 64 true)
recv_outcome_example = recv_outcome named (pos 0) buffer 64 named-IsSound room

-- Two messages go into channel 0, and one comes out.
abbrev traffic : List (Call capability_table)
traffic =
    sends (record {
      capabilities = held;
      current = some 7;
      channel_id = pos 0;
      payload = ab;
      size = 2;
      sender = 0;
      has_capability = 0;
      id = 0;
      rights = 0;
    })
    ∷ sends (record {
      capabilities = held;
      current = some 8;
      channel_id = pos 0;
      payload = abc;
      size = 3;
      sender = 8;
      has_capability = 0;
      id = 0;
      rights = 0;
    })
    ∷ receives (record { channel_id = pos 0; buffer = buffer; payload_capacity = 64 })
    ∷ []

run_in_order_example :
    pending (channel_at named 0) ++ all_taken_in capability_table 0 named traffic
    ≡ all_handed_out capability_table 0 named traffic
      ++ pending (channel_at (run capability_table named traffic) 0)
run_in_order_example =
    run_in_order capability_table 0 named traffic named-IsSound
      (omega arith, (omega arith, (room, tt)))

channel_number_aliases_example :
    (send_locked named (pos (0 + 1 * 2 ^ 16)) 7 2 0 0 0 ab ≡ send_locked named (pos 0) 7 2 0 0 0 ab)
    × (recv_internal named (pos (0 + 1 * 2 ^ 16)) (some buffer) 64 true
        ≡ recv_internal named (pos 0) (some buffer) 64 true)
channel_number_aliases_example = channel_number_aliases named 0 1 7 2 0 0 0 64 ab (some buffer) true

-- Task 7 puts "ab" up in channel 0, and task 9 takes it.
posted_first : (sender_step named (pos 0) 7 2 ab trying).0 ≡ waiting 0
unfolding sender_step post named is_valid_channel_id create create_in_free_slot find_channel_locked
    Names.strnlen ready init boot reset_channel zero_channel find_idx_from replicate
posted_first = refl

posted : Ipc
posted = (sender_step named (pos 0) 7 2 ab trying).1

taken_then : List Event
taken_then = takes (pos 0) buffer 64 ∷ []

released :
    (sender_step (Standing.run posted taken_then) (pos 0) 7 2 ab (waiting 0)).0 ≡ returned (pos 0)
unfolding posted taken_then Standing.run Standing.happen sender_step receiver_step post buffer named
    is_valid_channel_id create create_in_free_slot find_channel_locked Names.strnlen ready init boot
    reset_channel zero_channel zero_message write_message copy_bytes find_idx_from replicate
released = refl

slot_room : 2 ≤ length (channel_at named 0).rendezvous_message.bytes
unfolding named create create_in_free_slot find_channel_locked Names.strnlen ready init boot
    reset_channel zero_channel zero_message find_idx_from replicate
slot_room = omega arith

rendezvous_send_taken_example :
    (m : Message) × (b : List ℕ) × (first_taken 0 posted taken_then ≡ some (receive_message m b))
    × (delivered m ≡ sent 7 2 0 0 0 ab)
unfolding posted
rendezvous_send_taken_example =
    rendezvous_send_taken named (pos 0) 7 2 0 ab taken_then named-IsValid.storage (omega arith)
      slot_room posted_first released

posted_valid : is_valid_channel_id posted (pos 0) ≡ true
unfolding posted sender_step post named is_valid_channel_id create create_in_free_slot
    find_channel_locked Names.strnlen ready init boot reset_channel zero_channel find_idx_from
    replicate
posted_valid = refl

abbrev standing : Message
standing = write_message (channel_at named 0).rendezvous_message 7 2 0 0 0 ab

standing_small : standing.size ≤ 64
unfolding write_message
standing_small = omega arith

posted-Stands : Standing.Stands 0 0 standing posted
unfolding posted
posted-Stands = Handshake.posted-Stands named (pos 0) 7 2 0 ab named-IsValid.storage posted_first

-- Task 8 puts "abc" up after "ab" was taken, and task 9 takes it too.
abbrev later : List Event
later = posts (pos 0) 8 3 abc ∷ takes (pos 0) buffer 64 ∷ []

rendezvous_released_example :
    let out = receiver_step posted (pos 0) buffer 64 in
    let s' = Standing.run out.1 later in
    (out.0 ≡ some (pos 0, some (receive_message standing buffer)))
    × ((sender_step s' (pos 0) 7 2 ab (waiting 0)).0
        ≡ (if (channel_at s' 0).rendezvous_pending == 0 then returned (pos 0) else waiting 0))
rendezvous_released_example =
    rendezvous_released posted (pos 0) 0 standing buffer 64 later 7 2 ab posted-Stands posted_valid
      standing_small (omega arith) (omega arith)
