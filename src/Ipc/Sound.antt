-- ===== src/Ipc/Sound.antt =====
-- The table of channels is sound from `ipc_init` on, and stays so when channels are created.
use gnu_os.Base.{
  ℕ, zero, suc, ◌≡◌, refl, sym, subst, ap, ◌∙◌, inl, inr, some, List, [], ◌∷◌, map, arith, length,
  replicate, get_or, get_or-replicate, length-replicate, ◌==◌, AllSlots, count_if, Bool-cases, set,
  get_or-set, ℤ, ◌<◌,
}
use gnu_os.Ipc.Channel.{
  Message, Channel, Ipc, max_channels, queue_capacity, data_max, zero_message, zero_channel,
  channel_at, reset_channel, boot, init, create,
}
use gnu_os.Ipc.Channel.Registry
use gnu_os.Ipc.Channel.Creation
use gnu_os.Ipc.Channel.Creation.{
  made, is_used, Outcome, create-Outcome, bad, taken, fresh, full, made_at,
}
use gnu_os.Ipc.Queue.Fifo.{IsValid, IsSound, Fits}

AllSlots-replicate : (n : ℕ) (m : Message) → Fits m → AllSlots Fits (replicate n m)
unfolding replicate
AllSlots-replicate zero m f = tt
AllSlots-replicate (suc n) m f = (f, AllSlots-replicate n m f)

zero_channel-IsValid : IsValid zero_channel
unfolding zero_channel zero_message
zero_channel-IsValid = record {
  ring = record {
    small = omega arith;
    storage = length-replicate queue_capacity zero_message;
    head_in = omega arith;
    tail_at = refl;
    size_in = omega arith;
  };
  sized = AllSlots-replicate queue_capacity zero_message (length-replicate data_max 0, omega arith);
}

reset_channel-IsValid : (c : Channel) → IsValid c → IsValid (reset_channel c)
unfolding reset_channel
reset_channel-IsValid c v = record {
  ring = record {
    small = v.ring.small;
    storage = v.ring.storage;
    head_in = omega arith;
    tail_at = refl;
    size_in = omega arith;
  };
  sized = v.sized;
}

made-IsValid : (c : Channel) (name : List ℕ) → IsValid c → IsValid (made c name)
made-IsValid c name v =
    let w = reset_channel-IsValid c v in record { ring = w.ring; sized = w.sized }

length-map : (cs : List Channel) → length (map reset_channel cs) ≡ length cs
length-map [] = refl
length-map (c ∷ cs) = ap suc (length-map cs)

each-map :
    (cs : List Channel)
    → ((i : ℕ) → IsValid (get_or cs i zero_channel))
    → (i : ℕ) → IsValid (get_or (map reset_channel cs) i zero_channel)
each-map [] h i = zero_channel-IsValid
each-map (c ∷ cs) h zero = reset_channel-IsValid c (h 0)
each-map (c ∷ cs) h (suc i) = each-map cs (λ j. h (suc j)) i

none_used : (cs : List Channel) → count_if is_used (map reset_channel cs) ≡ 0
unfolding count_if reset_channel
none_used [] = refl
none_used (c ∷ cs) = omega (arith, none_used cs)

boot-IsSound : IsSound boot
unfolding boot
boot-IsSound = record {
  storage = length-replicate max_channels zero_channel;
  each =
      λ i. subst IsValid (sym (get_or-replicate max_channels i zero_channel)) zero_channel-IsValid;
}

-- `ipc_init` on any sound table, and so at boot, gives a sound table with no channel in use.
pub init-IsSound : (s : Ipc) → IsSound s → IsSound (init s) × Creation.IsValid (init s)
unfolding init
init-IsSound s v = (
  record { storage = length-map s.channels ∙ v.storage; each = each-map s.channels v.each },
  record { storage = length-map s.channels ∙ v.storage; counted = sym (none_used s.channels) },
)

made_each :
    (s : Ipc) (name : List ℕ) (i j : ℕ)
    → IsSound s
    → i < length s.channels
    → IsValid (get_or (set s.channels i (made (channel_at s i) name)) j zero_channel)
made_each s name i j v l =
    subst IsValid (sym (get_or-set s.channels i j (made (channel_at s i) name) zero_channel l))
      (elim (Bool-cases (j == i)) [
        | inl e ↦ rw e (made-IsValid (channel_at s i) name (v.each i))
        | inr e ↦ rw e (v.each j)
      ])

Outcome-IsSound :
    (s : Ipc) (name : List ℕ) {out : ℤ × Ipc}
    → Outcome s name out
    → length out.1.channels ≡ max_channels
    → IsSound s
    → IsSound out.1
Outcome-IsSound s name (bad _) storage v = v
Outcome-IsSound s name (taken i _ _ _) storage v = v
Outcome-IsSound s name (fresh _ _ _ (full _)) storage v = v
Outcome-IsSound s name (fresh _ _ _ (made_at i l unused)) storage v = record {
  storage = storage;
  each = λ j. made_each s name i j v l;
}

-- `ipc_channel_create` keeps the queues sound.
pub create-IsSound :
    (s : Ipc) (name : List ℕ) → Creation.IsValid s → IsSound s → IsSound (create s (some name)).1
create-IsSound s name r v =
    Outcome-IsSound s name (create-Outcome s name) (Registry.create-IsValid s (some name) r).storage
      v

unfoldable pub ready : Ipc
ready = init boot

pub ready-IsSound : IsSound ready × Creation.IsValid ready
unfolding ready
ready-IsSound = init-IsSound boot boot-IsSound
