-- ===== src/Capability/Grants.antt =====
-- The table of capabilities: its counter, and which slot a grant takes.
use native.Mathlib.Nat.{zero-add}
use gnu_os.Base.{
  ℕ, sym, ◌+◌, ◌<◌, ◌≡◌, refl, ◌≢◌, ◌⊎◌, inl, inr, Bool, true, not, Option, none, some, ℤ, pos, neg,
  arith, length, length-set, length-replicate, set, get_or-set_self, get_or-set_ne, find_idx_from,
  find_idx_from-some, count_if, count_if-le, count_if-set, count_if-replicate, Option-cases, u16,
  ap, ◌∙◌, count_if_of_none, count_if_not-eq,
}
use gnu_os.Capability.{
  Slot, Table, max_entries, empty_slot, is_free, slot_at, init, claim, claim_first,
}

abbrev pub is_used : Slot → Bool
is_used s = not (is_free s)

-- The counter is the number of slots in use, and the table has its fixed size.
pub record IsValid (t : Table) : Type 0 where
  pub storage : length t.slots ≡ max_entries
  pub counted : t.count ≡ count_if is_used t.slots

pub init-IsValid : IsValid init
unfolding init
init-IsValid = record {
  storage = length-replicate 128 empty_slot;
  counted = sym (count_if-replicate is_used 128 empty_slot refl);
}

-- What claiming a free slot does: the counter, every slot, and the number handed out.
pub record Claimed (t : Table) (owner object rights : ℕ) (out : ℤ × Option ℕ × Table) : Type 0 where
  pub index : ℕ
  pub within : index < max_entries
  pub free : is_free (slot_at t index) ≡ true
  pub status : out.0 ≡ pos 0
  pub number : out.1 ≡ some (index + 1)
  pub here :
      slot_at out.2 index
      ≡ record { in_use = 1; owner_tid = owner; object_id = object; rights = rights }
  pub elsewhere : (j : ℕ) → index ≢ j → slot_at out.2 j ≡ slot_at t j
  pub valid : IsValid out.2
  pub more : out.2.count ≡ t.count + 1

claim-Claimed :
    (t : Table) (owner object rights i : ℕ)
    → IsValid t
    → i < max_entries
    → is_free (slot_at t i) ≡ true
    → Claimed t owner object rights (pos 0, some (u16 (i + 1)), claim t i owner object rights)
unfolding claim
claim-Claimed t owner object rights i v l free =
    let made : Slot = record {
      in_use = 1;
      owner_tid = owner;
      object_id = object;
      rights = rights;
    } in
    let moved : count_if is_used (set t.slots i made) ≡ count_if is_used t.slots + 1 =
      ground (arith, count_if-set is_used t.slots i made empty_slot (omega (arith, v.storage))) in
    record {
      index = i;
      within = l;
      free = free;
      status = refl;
      number = ap some (omega arith);
      here = get_or-set_self t.slots i made empty_slot (omega (arith, v.storage));
      elsewhere = λ j ne. get_or-set_ne t.slots i j made empty_slot ne;
      valid = record {
        storage = length-set t.slots i made ∙ v.storage;
        counted = omega (arith, v.counted, moved, count_if-le is_used t.slots, v.storage);
      };
      more = omega (arith, v.counted, count_if-le is_used t.slots, v.storage);
    }

-- The loop claims a free slot, or reports -2 with the table untouched when every slot is in use.
pub claim_first_cases :
    (t : Table) (owner object rights : ℕ)
    → IsValid t
    → Claimed t owner object rights (claim_first t owner object rights)
      ⊎ ((claim_first t owner object rights ≡ (neg 2, none, t)) × (t.count ≡ max_entries))
unfolding claim_first
claim_first_cases t owner object rights v = elim (Option-cases (find_idx_from is_free 0 t.slots)) [
  | inl full ↦ inr (
    rw (full, claim_first),
    omega (
      arith,
      v.counted,
      v.storage,
      count_if_of_none is_free 0 t.slots full,
      count_if_not-eq is_free t.slots,
    ),
  )
  | inr (i, e) ↦
      let (j, at, l, free, _) = find_idx_from-some is_free 0 t.slots empty_slot e in
      inl (
        rw (e, claim_first)
          (claim-Claimed t owner object rights i v (omega (arith, v.storage))
            (let e' : i ≡ j = at ∙ zero-add j in rw e' free)))
]
