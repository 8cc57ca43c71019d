-- ===== src/Ipc/Channel/Made.antt =====
-- kernel/ipc/ipc.c: a channel as `ipc_channel_create` sets it up, and the names that it takes.
use gnu_os.Base.{ℕ, ◌≤◌, ◌<◌, ◌≡◌, ◌≢◌, refl, ap, ◌∙◌, ◌⊎◌, inl, inr, List, arith, sym}
use gnu_os.Names.{name_max, strnlen}
use gnu_os.Names.Equal.{name_equal_self}
use gnu_os.Names.Same.{byte, Ends, TooLong, SameName, strnlen_cases, test-HasName}
use gnu_os.Ipc.Channel.{Channel, reset_channel}
use gnu_os.Ipc.Channel.Creation.{made, has_name-made}

-- A channel as `ipc_channel_create` sets it up: in use, with the name, an empty queue at its start, and no
-- message in its rendezvous slot.
pub record IsNew (c : Channel) (name : List ℕ) : Type 0 where
  pub used : c.in_use ≢ 0
  pub named : SameName c.name name
  pub empty : c.queue.size ≡ 0
  pub at_head : c.queue.head ≡ 0
  pub at_tail : c.queue.tail ≡ 0
  pub no_message : c.rendezvous_pending ≡ 0
  pub first_generation : c.rendezvous_generation ≡ 0

pub made-IsNew :
    (c : Channel) (name : List ℕ) → strnlen name name_max < name_max → IsNew (made c name) name
unfolding reset_channel
made-IsNew c name fits = record {
  used = ground arith;
  named =
      (test-HasName (made c name).in_use (made c name).name name
        (has_name-made c name name fits ∙ name_equal_self name fits)).1;
  empty = refl;
  at_head = refl;
  at_tail = refl;
  no_message = refl;
  first_generation = refl;
}

-- A name that is not empty and has less than 32 bytes.
abbrev pub IsGood : List ℕ → Type 0
IsGood name = (k : ℕ) × (1 ≤ k) × Ends name k

pub name-IsGood :
    (name : List ℕ) → strnlen name name_max ≢ 0 → strnlen name name_max < name_max → IsGood name
name-IsGood name filled fits = elim (strnlen_cases name) [
  | inl (_, ends) ↦ (strnlen name name_max, omega (arith, filled), ends)
  | inr (e, _) ↦ absurd (omega (arith, e, fits))
]

pub bad_name :
    (name : List ℕ)
    → (strnlen name name_max ≡ 0) ⊎ (name_max ≤ strnlen name name_max)
    → (byte name 0 ≡ 0) ⊎ TooLong name
bad_name name (inl e) = elim (strnlen_cases name) [
  | inl (_, (_, stop, _)) ↦ inl (ap (byte name) (sym e) ∙ stop)
  | inr (e', _) ↦ absurd (omega (arith, e, e'))
]
bad_name name (inr l) = elim (strnlen_cases name) [
  | inl (fits, _) ↦ absurd (omega (arith, fits, l))
  | inr (_, long) ↦ inr long
]
