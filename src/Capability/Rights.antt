-- ===== src/Capability/Rights.antt =====
-- What a capability operation grants: the outcome of `capability_create` and
-- `capability_copy_for_owner` on every branch, read back through `capability_describe`.
use gnu_os.Base.{
  ℕ, ◌+◌, ◌≡◌, refl, ◌≢◌, ◌⊎◌, inl, inr, Bool, true, false, Option, none, some, ℤ, pos, neg, arith,
  if◌then◌else◌, ◌==◌, Bool-cases,
}
use gnu_os.Capability.{
  Table, max_entries, claim_first, create, describe, is_valid_id, index_from_id,
}
use gnu_os.Capability.Grants.{IsValid, Claimed, claim_first_cases}

-- A call granted `rights` on `object` to `owner`: the number that it handed out was unused, it now
-- describes that grant, every other number describes what it did, and the table stays valid.
pub record Grants (t : Table) (owner object rights : ℕ) (out : ℤ × Option ℕ × Table) : Type 0 where
  pub id : ℕ
  pub status : out.0 ≡ pos 0
  pub number : out.1 ≡ some id
  pub unused : describe t id true ≡ (neg 2, none)
  pub described :
      (other : ℕ)
      → describe out.2 other true ≡ (
          if other == id
          then (
            pos 0,
            some (record { id = id; owner_tid = owner; object_id = object; rights = rights }),
          )
          else describe t other true)
  pub valid : IsValid out.2

Claimed-Grants :
    (t : Table) (owner object rights : ℕ) (out : ℤ × Option ℕ × Table)
    → Claimed t owner object rights out
    → Grants t owner object rights out
unfolding describe is_valid_id
Claimed-Grants t owner object rights out c = record {
  id = c.index + 1;
  status = c.status;
  number = c.number;
  unused = ground (arith, c.within, c.free, at);
  described = λ other. ground (arith, c.within, at, c.here, c.elsewhere (index_from_id other));
  valid = c.valid;
}
  where
    at : index_from_id (c.index + 1) ≡ c.index
    at = omega (arith, c.within)

-- A call found no free slot: it reports -2, changes nothing, and the counter stands at the maximum.
abbrev pub Full : Table → ℤ × Option ℕ × Table → Type 0
Full t out = (out ≡ (neg 2, none, t)) × (t.count ≡ max_entries)

pub claim_first_outcome :
    (t : Table) (owner object rights : ℕ)
    → IsValid t
    → Grants t owner object rights (claim_first t owner object rights)
      ⊎ Full t (claim_first t owner object rights)
claim_first_outcome t owner object rights v = elim (claim_first_cases t owner object rights v) [
  | inl c ↦ inl (Claimed-Grants t owner object rights _ c)
  | inr f ↦ inr f
]

-- What `capability_create` may answer: -1 with nothing changed to a missing out-pointer or to empty
-- rights, the grant that was asked for, or that the table is full.
abbrev pub CreateOutcome : Table → (owner object rights : ℕ) → Bool → Type 0
CreateOutcome t owner object rights has_out =
    let out = create t owner object rights has_out in
    ((out ≡ (neg 1, none, t)) × ((has_out ≡ false) ⊎ (rights ≡ 0)))
    ⊎ (rights ≢ 0) × Grants t owner object rights out
    ⊎ Full t out

-- `capability_create` in a valid table refuses a missing out-pointer and empty rights with -1 and
-- changes nothing; otherwise it grants what was asked, or finds the table full.
pub create_outcome :
    (t : Table) (owner object rights : ℕ) (has_out : Bool)
    → IsValid t
    → CreateOutcome t owner object rights has_out
unfolding create
create_outcome t owner object rights false v = inl (refl, inl refl)
create_outcome t owner object rights true v = elim (Bool-cases (rights == 0)) [
  | inl e ↦ rw e (inl (refl, inr (ground arith)))
  | inr e ↦ rw e (elim (claim_first_outcome t owner object rights v) [
    | inl g ↦ inr (inl (ground arith, g))
    | inr f ↦ inr (inr f)
  ])
]
