-- ===== src/Capability.antt =====
-- kernel/security/capability.c and kernel/include/gnuos/capability.h: the table of capabilities.
-- Each function runs under `g_capability_lock` with interrupts off, so it is one step on the table.
-- An out-pointer is a Boolean (is it there?) and an `Option` (what is written through it).
pub mod Grants
pub mod Rights
pub mod Transfer
pub mod History
pub mod Api
mod Tests
use gnu_os.Base.{
  ℕ, ◌+◌, Bool, true, false, not, ◌||◌, ◌&&◌, Option, none, some, List, ℤ, pos, neg, leb, ltb, ◌==◌,
  if◌then◌else◌, get_or, set, replicate, bit_and, find_idx_from, u16, inc16, dec16,
}

-- `CAPABILITY_MAX_ENTRIES`
abbrev pub max_entries : ℕ
max_entries = 128

-- `CAP_RIGHT_TRANSFER`
abbrev pub right_transfer : ℕ
right_transfer = 0x0008

-- `capability_slot_t`
pub record Slot : Type 0 where
  pub in_use : ℕ
  pub owner_tid : ℕ
  pub object_id : ℕ
  pub rights : ℕ

-- `g_capability_slots` and `g_capability_count`
pub record Table : Type 0 where
  pub slots : List Slot
  pub count : ℕ

-- `capability_info_t`
pub record Info : Type 0 where
  pub id : ℕ
  pub owner_tid : ℕ
  pub object_id : ℕ
  pub rights : ℕ

abbrev pub empty_slot : Slot
empty_slot = record { in_use = 0; owner_tid = 0; object_id = 0; rights = 0 }

abbrev pub is_free : Slot → Bool
is_free s = s.in_use == 0

abbrev pub slot_at : Table → ℕ → Slot
slot_at t i = get_or t.slots i empty_slot

unfoldable pub is_valid_id : ℕ → Bool
is_valid_id id = ltb 0 id && leb id max_entries

abbrev pub index_from_id : ℕ → ℕ
index_from_id id = dec16 id

unfoldable pub rights_allow : ℕ → ℕ → Bool
rights_allow current requested = bit_and current requested == requested

unfoldable pub init : Table
init = record { slots = replicate max_entries empty_slot; count = 0 }

-- The body of the loops of `capability_create` and `capability_copy_for_owner` at a free slot.
unfoldable pub claim : Table → ℕ → ℕ → ℕ → ℕ → Table
claim t i owner object rights = record t {
  slots =
      set t.slots i (record { in_use = 1; owner_tid = owner; object_id = object; rights = rights });
  count = inc16 t.count;
}

-- The loop: the first free slot is claimed and its number handed out; -2 if there is none.
unfoldable pub claim_first : Table → ℕ → ℕ → ℕ → ℤ × Option ℕ × Table
unfolding claim
claim_first t owner object rights = elim (find_idx_from is_free 0 t.slots) [
  | none ↦ (neg 2, none, t)
  | some i ↦ (pos 0, some (u16 (i + 1)), claim t i owner object rights)
]

unfoldable pub create : Table → ℕ → ℕ → ℕ → Bool → ℤ × Option ℕ × Table
create t owner object rights has_out =
    if not has_out || rights == 0 then (neg 1, none, t) else claim_first t owner object rights

-- The chain of tests on the source slot.
unfoldable pub transfer_status : Slot → ℕ → ℕ → ℤ
unfolding rights_allow
transfer_status s owner rights_mask =
    if s.in_use == 0
    then neg 2
    else if not (s.owner_tid == owner)
    then neg 3
    else if bit_and s.rights right_transfer == 0
    then neg 4
    else if not (rights_allow s.rights rights_mask)
    then neg 5
    else pos 0

unfoldable pub validate_transfer : Table → ℕ → ℕ → ℕ → ℤ
validate_transfer t id owner rights_mask =
    if not (is_valid_id id) || rights_mask == 0
    then neg 1
    else transfer_status (slot_at t (index_from_id id)) owner rights_mask

unfoldable pub copy_for_owner : Table → ℕ → ℕ → ℕ → ℕ → Bool → ℤ × Option ℕ × Table
copy_for_owner t id owner rights_mask target has_out =
    if not has_out || (not (is_valid_id id) || rights_mask == 0)
    then (neg 1, none, t)
    else let source = slot_at t (index_from_id id) in
      elim (transfer_status source owner rights_mask) [
        | pos _ ↦ claim_first t target source.object_id rights_mask
        | status ↦ (status, none, t)
      ]

unfoldable pub describe : Table → ℕ → Bool → ℤ × Option Info
describe t id has_out =
    if not has_out || not (is_valid_id id)
    then (neg 1, none)
    else let slot = slot_at t (index_from_id id) in
      if slot.in_use == 0 then (neg 2, none) else (
        pos 0,
        some (record {
          id = id;
          owner_tid = slot.owner_tid;
          object_id = slot.object_id;
          rights = slot.rights;
        }),
      )
