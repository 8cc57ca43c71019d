-- ===== src/Capability/Api.antt =====
-- The capability operations as kernel/ipc/ipc.c uses them: the two calls, and what it may rely on.
use gnu_os.Base.{ℕ, ◌≢◌, ◌↔◌, bit_and, ◌≡◌, inl, inr, Bool, true, Option, some, ℤ, pos, arith}
use gnu_os.Base.Bits.{Includes}
use gnu_os.Capability.{Table, validate_transfer, copy_for_owner, describe}
use gnu_os.Capability.Grants.{IsValid}
use gnu_os.Capability.Transfer.{copy_for_owner_outcome, validate_transfer_iff}

-- Given who holds what: the owner holds the capability `id` with the right to transfer it (bit 3) and with every
-- right of the mask, which is not empty.
abbrev pub MayTransfer :
    ((id owner object rights : ℕ) → Type 0) → (id owner rights_mask : ℕ) → Type 0
MayTransfer Holds id owner rights_mask =
    (rights_mask ≢ 0)
    × (object : ℕ) × (held : ℕ) × Holds id owner object held
    × (bit_and held 8 ≢ 0)
    × Includes held rights_mask

pub record CapabilityApi : Type 1 where
  pub State : Type 0
  pub validate_transfer : State → (id owner rights_mask : ℕ) → ℤ
  pub copy_for_owner : State → (id owner rights_mask target : ℕ) → Bool → ℤ × Option ℕ × State
  pub IsOk : State → Type 0
  pub Holds : State → (id owner object rights : ℕ) → Type 0
  pub validated :
      (s : State) (id owner rights_mask : ℕ)
      → (validate_transfer s id owner rights_mask ≡ pos 0)
        ↔ MayTransfer (Holds s) id owner rights_mask
  pub copied :
      (s : State) (id owner rights_mask target : ℕ)
      → IsOk s
      → (copy_for_owner s id owner rights_mask target true).0 ≡ pos 0
      → let out = copy_for_owner s id owner rights_mask target true in
        (object : ℕ) × (rights : ℕ) × (new : ℕ) × Holds s id owner object rights
        × Includes rights rights_mask
        × (out.1 ≡ some new)
        × Holds out.2 new target object rights_mask

abbrev pub Describes : Table → (id owner object rights : ℕ) → Type 0
Describes t id owner object rights =
    describe t id true
    ≡ (pos 0, some (record { id = id; owner_tid = owner; object_id = object; rights = rights }))

pub table_validated :
    (t : Table) (id owner rights_mask : ℕ)
    → (validate_transfer t id owner rights_mask ≡ pos 0)
      ↔ MayTransfer (Describes t) id owner rights_mask
table_validated t id owner rights_mask =
    let (there, back) = validate_transfer_iff t id owner rights_mask in
    (
      λ h. let p = there h in (p.asked, p.object, p.rights, p.held, p.transferable, p.included),
      λ (asked, object, rights, held, transferable, included). back (record {
        object = object;
        rights = rights;
        held = held;
        transferable = transferable;
        included = included;
        asked = asked;
      }),
    )

pub table_copied :
    (t : Table) (id owner rights_mask target : ℕ)
    → IsValid t
    → (copy_for_owner t id owner rights_mask target true).0 ≡ pos 0
    → let out = copy_for_owner t id owner rights_mask target true in
      (object : ℕ) × (rights : ℕ) × (new : ℕ) × Describes t id owner object rights
      × Includes rights rights_mask
      × (out.1 ≡ some new)
      × Describes out.2 new target object rights_mask
table_copied t id owner rights_mask target v h =
    elim (copy_for_owner_outcome t id owner rights_mask target true v) [
      | inl (e, _) ↦ absurd (ground arith)
      | inr (inl (n, _, _, e)) ↦ absurd (ground arith)
      | inr (inr (p, _, inr (e, _))) ↦ absurd (ground arith)
      | inr (inr (p, _, inl g)) ↦
          (p.object, p.rights, g.id, p.held, p.included, g.number, ground (arith, g.described g.id))
    ]

-- kernel/security/capability.c meets the interface.
abbrev pub capability_table : CapabilityApi
capability_table = record {
  State = Table;
  validate_transfer = validate_transfer;
  copy_for_owner = copy_for_owner;
  IsOk = IsValid;
  Holds = Describes;
  validated = table_validated;
  copied = table_copied;
}
