-- ===== src/Capability/Transfer.antt =====
-- When a capability may be passed on, and what the copy that the receiver gets can do.
use gnu_os.Base.{
  ℕ, ◌≡◌, refl, ◌≢◌, ◌⊎◌, inl, inr, ◌↔◌, Bool, true, false, not, none, some, pos, neg, arith, ◌||◌,
  ◌==◌, Bool-cases, bit_and, negsuc,
}
use gnu_os.Base.Bits.{Includes}
use gnu_os.Capability.{
  Slot, Table, right_transfer, slot_at, copy_for_owner, transfer_status, validate_transfer,
  describe, is_valid_id, index_from_id,
}
use gnu_os.Capability.Grants.{IsValid}
use gnu_os.Capability.Rights.{Grants, Full, claim_first_outcome}

-- `owner` holds the capability `id`, may transfer it, and has every right of the mask.
pub record Permits (t : Table) (id owner rights_mask : ℕ) : Type 0 where
  pub object : ℕ
  pub rights : ℕ
  pub held :
      describe t id true
      ≡ (pos 0, some (record { id = id; owner_tid = owner; object_id = object; rights = rights }))
  pub transferable : bit_and rights right_transfer ≢ 0
  pub included : Includes rights rights_mask
  pub asked : rights_mask ≢ 0

-- What the chain of tests found, when it lets a slot pass.
transfer_status_cases :
    (s : Slot) (owner rights_mask : ℕ)
    → ((transfer_status s owner rights_mask ≡ pos 0)
        × (s.in_use ≢ 0)
        × (s.owner_tid ≡ owner)
        × (bit_and s.rights right_transfer ≢ 0)
        × Includes s.rights rights_mask)
      ⊎ (n : ℕ) × (transfer_status s owner rights_mask ≡ negsuc n)
unfolding transfer_status
transfer_status_cases s owner rights_mask = elim (Bool-cases (s.in_use == 0)) [
  | inl free ↦ inr (1, ground arith)
  | inr used ↦ elim (Bool-cases (s.owner_tid == owner)) [
    | inr other ↦ inr (2, ground arith)
    | inl same ↦ elim (Bool-cases (bit_and s.rights right_transfer == 0)) [
      | inl kept ↦ inr (3, ground arith)
      | inr free ↦ elim (Bool-cases (bit_and s.rights rights_mask == rights_mask)) [
        | inl all ↦ inl (ground arith, ground arith, ground arith, ground arith, ground arith)
        | inr some_missing ↦ inr (4, ground arith)
      ]
    ]
  ]
]

validate-Permits :
    (t : Table) (id owner rights_mask : ℕ)
    → validate_transfer t id owner rights_mask ≡ pos 0
    → (p : Permits t id owner rights_mask) × (p.object ≡ (slot_at t (index_from_id id)).object_id)
unfolding validate_transfer describe
validate-Permits t id owner rights_mask h =
    elim (transfer_status_cases (slot_at t (index_from_id id)) owner rights_mask) [
      | inl (_, used, own, free, all) ↦ (
        record {
          object = (slot_at t (index_from_id id)).object_id;
          rights = (slot_at t (index_from_id id)).rights;
          held = ground arith;
          transferable = free;
          included = all;
          asked = ground arith;
        },
        refl,
      )
      | inr (n, e) ↦ absurd (ground arith)
    ]

Permits-validate :
    (t : Table) (id owner rights_mask : ℕ)
    → Permits t id owner rights_mask
    → validate_transfer t id owner rights_mask ≡ pos 0
unfolding validate_transfer describe transfer_status
Permits-validate t id owner rights_mask p = ground arith

-- `capability_validate_transfer` answers 0 exactly when the transfer is permitted.
pub validate_transfer_iff :
    (t : Table) (id owner rights_mask : ℕ)
    → (validate_transfer t id owner rights_mask ≡ pos 0) ↔ Permits t id owner rights_mask
unfolding validate_transfer
validate_transfer_iff t id owner rights_mask =
    (λ h. (validate-Permits t id owner rights_mask h).0, Permits-validate t id owner rights_mask)

-- What `capability_copy_for_owner` may answer: -1 without an out-pointer; the refusal of
-- `capability_validate_transfer`; and, for a permitted transfer, the copy, or that the table is full.
abbrev pub CopyOutcome : Table → (id owner rights_mask target : ℕ) → Bool → Type 0
CopyOutcome t id owner rights_mask target has_out =
    let out = copy_for_owner t id owner rights_mask target has_out in
    ((has_out ≡ false) × (out ≡ (neg 1, none, t)))
    ⊎ ((n : ℕ) × (has_out ≡ true)
        × (validate_transfer t id owner rights_mask ≡ negsuc n)
        × (out ≡ (negsuc n, none, t)))
    ⊎ ((p : Permits t id owner rights_mask) × (has_out ≡ true)
        × (Grants t target p.object rights_mask out ⊎ Full t out))

-- `capability_copy_for_owner` in a valid table: without an out-pointer it answers -1; with one, where
-- `capability_validate_transfer` refuses, it answers with that refusal; both change nothing. With one and
-- a permitted transfer, the target is granted exactly the rights of the mask, which the source includes,
-- on the object of the source, or the table is full.
pub copy_for_owner_outcome :
    (t : Table) (id owner rights_mask target : ℕ) (has_out : Bool)
    → IsValid t
    → CopyOutcome t id owner rights_mask target has_out
unfolding copy_for_owner validate_transfer
copy_for_owner_outcome t id owner rights_mask target false v = inl (refl, refl)
copy_for_owner_outcome t id owner rights_mask target true v =
    elim (Bool-cases (not (is_valid_id id) || rights_mask == 0)) [
      | inl bad ↦ inr (inl (0, refl, rw bad, rw bad))
      | inr good ↦ elim (transfer_status_cases source owner rights_mask) [
        | inl (e, _, _, _, _) ↦
            let (p, same) = validate-Permits t id owner rights_mask (rw good e) in
            inr (
              inr (
                p,
                refl,
                rw (good, e, same) (claim_first_outcome t target source.object_id rights_mask v),
              ))
        | inr (n, e) ↦ inr (inl (n, refl, rw good e, rw (good, e)))
      ]
    ]
  where
    source : Slot
    source = slot_at t (index_from_id id)
