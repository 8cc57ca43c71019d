-- ===== src/Ipc/Queue/Aliases.antt =====
-- `ipc_is_valid_channel_id` compares the number after it was cut to 16 bits.
use gnu_os.Base.{
  ℕ, ◌+◌, ◌*◌, ◌^◌, ◌≡◌, refl, ap₂, Bool, not, if◌then◌else◌, neg, Option, none, some, List, pos,
  arith, u16,
}
use gnu_os.Ipc.Channel.{Ipc, is_valid_channel_id}
use gnu_os.Ipc.Queue.{send_at, send_locked, recv_at, recv_internal}

cut : (n k : ℕ) → u16 (n + k * 2 ^ 16) ≡ u16 n
cut n k = omega arith

valid_alias :
    (s : Ipc) (n k : ℕ)
    → is_valid_channel_id s (pos (n + k * 2 ^ 16)) ≡ is_valid_channel_id s (pos n)
unfolding is_valid_channel_id
valid_alias s n k = rw (cut n k)

-- A channel number that is too large by a multiple of 65536 is not refused: sends and receives on it
-- work on the channel whose number is left when it is cut to 16 bits.
pub channel_number_aliases :
    (s : Ipc) (n k sender size has_capability id rights payload_capacity : ℕ) (payload : List ℕ)
    (buffer : Option (List ℕ)) (has_outs : Bool)
    → (send_locked s (pos (n + k * 2 ^ 16)) sender size has_capability id rights payload
        ≡ send_locked s (pos n) sender size has_capability id rights payload)
      × (recv_internal s (pos (n + k * 2 ^ 16)) buffer payload_capacity has_outs
          ≡ recv_internal s (pos n) buffer payload_capacity has_outs)
unfolding send_locked recv_internal
channel_number_aliases s n k sender size has_capability id rights payload_capacity payload buffer
      has_outs =
    (
      ap₂ (λ v i. send_at s v i sender size has_capability id rights payload) (valid_alias s n k)
          (cut n k),
      received buffer,
    )
  where
    received :
        (b : Option (List ℕ))
        → recv_internal s (pos (n + k * 2 ^ 16)) b payload_capacity has_outs
          ≡ recv_internal s (pos n) b payload_capacity has_outs
    received none = refl
    received (some b) =
        ap₂ (λ v i. if not has_outs then (neg 1, none, s) else recv_at s v i b payload_capacity)
          (valid_alias s n k) (cut n k)
