-- ===== src/Ipc/Queue/Fifo.antt =====
-- The queue of a channel as a bounded first-in first-out queue of messages.
use mathlib.Core.List.{map-append}
use gnu_os.Base.{
  ℕ, suc, ◌≤◌, ◌<◌, ◌≡◌, ◌≢◌, refl, sym, subst, ap, ◌∙◌, inl, inr, some, List, [], ◌∷◌, ◌++◌, map,
  arith, length, get_or, take, AllSlots, AllSlots-get, AllSlots-set, length-set, if◌then◌else◌,
  ◌==◌, Bool-cases, get_or-set, get_or-set_self,
}
use gnu_os.Ring
use gnu_os.Ring.{Ring}
use gnu_os.Ring.Contents.{contents}
use gnu_os.Ring.Refine.{enqueue_grows, dequeue_shrinks, length-contents}
use gnu_os.Ipc.Channel.{
  Message, Channel, Ipc, max_channels, queue_capacity, data_max, zero_message, zero_channel,
  channel_at, set_channel,
}
use gnu_os.Ipc.Queue.{write_message}
use gnu_os.Ipc.Queue.Bytes.{length-copy_bytes, take-copy_bytes}

-- A message as its receiver sees it: the bytes past its size are cut off.
abbrev pub delivered : Message → Message
delivered m = record m { bytes = take m.size m.bytes }

-- The messages that wait in a channel, oldest first.
pub pending : Channel → List Message
pending c = map delivered (contents zero_message queue_capacity c.queue)

abbrev pub Fits : Message → Type 0
Fits m = (length m.bytes ≡ data_max) × (m.size ≤ data_max)

pub record IsValid (c : Channel) : Type 0 where
  pub ring : Ring.IsValid queue_capacity c.queue
  pub sized : AllSlots Fits c.queue.items

-- The message that a send puts into the queue, as its receiver will see it.
abbrev pub sent : (sender size has_capability id rights : ℕ) → List ℕ → Message
sent sender size has_capability id rights payload = record {
  sender_tid = sender;
  size = size;
  has_capability = if has_capability == 0 then 0 else 1;
  capability_id = if has_capability == 0 then 0 else id;
  capability_rights = if has_capability == 0 then 0 else rights;
  bytes = take size payload;
}

pub delivered-write_message :
    (old : Message) (sender size has_capability id rights : ℕ) (payload : List ℕ)
    → size ≤ length payload
    → size ≤ length old.bytes
    → delivered (write_message old sender size has_capability id rights payload)
      ≡ sent sender size has_capability id rights payload
unfolding write_message
delivered-write_message old sender size has_capability id rights payload h k =
    ap (λ b. record (sent sender size has_capability id rights payload) { bytes = b })
      (take-copy_bytes size payload old.bytes h k)

Fits-write_message :
    (old : Message) (sender size has_capability id rights : ℕ) (payload : List ℕ)
    → Fits old
    → size ≤ data_max
    → Fits (write_message old sender size has_capability id rights payload)
unfolding write_message
Fits-write_message old sender size has_capability id rights payload f h =
    (length-copy_bytes size 0 payload old.bytes ∙ f.0, h)

-- A channel with room takes a message in at the end, and stays valid.
pub enqueue_message :
    (c : Channel) (sender size has_capability id rights : ℕ) (payload : List ℕ)
    → IsValid c
    → c.queue.size < queue_capacity
    → size ≤ length payload
    → size ≤ data_max
    → let old = get_or c.queue.items c.queue.tail zero_message in
      let message = write_message old sender size has_capability id rights payload in
      (q : Ring Message) × (Ring.enqueue queue_capacity c.queue message ≡ some q)
      × (pending (record c { queue = q })
          ≡ pending c ++ (sent sender size has_capability id rights payload ∷ []))
      × IsValid (record c { queue = q })
unfolding pending
enqueue_message c sender size has_capability id rights payload v room given fits =
    let old = get_or c.queue.items c.queue.tail zero_message in
    let message = write_message old sender size has_capability id rights payload in
    let old_fits : Fits old =
      AllSlots-get Fits c.queue.items c.queue.tail zero_message v.sized
        (omega (arith, v.ring.storage, v.ring.tail_at)) in
    let (q, e, valid, content, _, items) =
      enqueue_grows queue_capacity zero_message c.queue message v.ring room in
    (
      q,
      e,
      ap (map delivered) content
          ∙ map-append delivered (contents zero_message queue_capacity c.queue) (message ∷ [])
          ∙ ap (λ m. map delivered (contents zero_message queue_capacity c.queue) ++ (m ∷ []))
              (delivered-write_message old sender size has_capability id rights payload given
                (omega (arith, old_fits.0))),
      record {
        ring = valid;
        sized = subst (AllSlots Fits) (sym items) (
            AllSlots-set Fits c.queue.items c.queue.tail message v.sized
              (Fits-write_message old sender size has_capability id rights payload old_fits fits));
      },
    )

-- A channel with messages gives the oldest one out, and stays valid.
pub dequeue_message :
    (c : Channel)
    → IsValid c
    → c.queue.size ≢ 0
    → (m : Message) × (q : Ring Message) × (Ring.dequeue queue_capacity zero_message c.queue
        ≡ some (m, q))
      × (pending c ≡ delivered m ∷ pending (record c { queue = q }))
      × Fits m
      × IsValid (record c { queue = q })
unfolding pending
dequeue_message c v some_wait =
    let (m, q, e, valid, content, _, items, oldest) =
      dequeue_shrinks queue_capacity zero_message c.queue v.ring some_wait in
    (
      m,
      q,
      e,
      ap (map delivered) content,
      subst Fits (sym oldest) (
          AllSlots-get Fits c.queue.items c.queue.head zero_message v.sized
            (omega (arith, v.ring.storage, v.ring.head_in))),
      record { ring = valid; sized = subst (AllSlots Fits) (sym items) v.sized },
    )

length-map : (ms : List Message) → length (map delivered ms) ≡ length ms
length-map [] = refl
length-map (m ∷ ms) = ap suc (length-map ms)

pub length-pending : (c : Channel) → length (pending c) ≡ c.queue.size
unfolding pending
length-pending c =
    length-map (contents zero_message queue_capacity c.queue)
    ∙ length-contents queue_capacity zero_message c.queue

-- All 16 channels are there, and each queue is valid.
pub record IsSound (s : Ipc) : Type 0 where
  pub storage : length s.channels ≡ max_channels
  pub each : (i : ℕ) → IsValid (channel_at s i)

-- Only the channel at `i` may have changed.
abbrev pub OnlyAt : ℕ → Ipc → Ipc → Type 0
OnlyAt i s s' =
    (s'.channel_count ≡ s.channel_count)
    × ((j : ℕ) → channel_at s' j ≡ (if j == i then channel_at s' i else channel_at s j))

pub set_channel_lem :
    (s : Ipc) (i : ℕ) (c : Channel)
    → IsSound s
    → i < max_channels
    → IsValid c
    → (channel_at (set_channel s i c) i ≡ c)
      × OnlyAt i s (set_channel s i c)
      × IsSound (set_channel s i c)
set_channel_lem s i c v l w = (
  here,
  (
    refl,
    λ j.
        get_or-set s.channels i j c zero_channel inside
        ∙ ap (λ k. if j == i then k else channel_at s j) (sym here),
  ),
  record {
    storage = length-set s.channels i c ∙ v.storage;
    each = λ j. subst IsValid (sym (get_or-set s.channels i j c zero_channel inside)) (split j);
  },
)
  where
    inside : i < length s.channels
    inside = omega (arith, v.storage)

    here : channel_at (set_channel s i c) i ≡ c
    here = get_or-set_self s.channels i c zero_channel inside

    split : (j : ℕ) → IsValid (if j == i then c else channel_at s j)
    split j = elim (Bool-cases (j == i)) [ inl e ↦ rw e w | inr e ↦ rw e (v.each j) ]
