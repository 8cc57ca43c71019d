-- ===== src/Capability/History.antt =====
-- Any sequence of calls on the capability table: the table stays valid, and rights never grow on the
-- way from the capability that was created to its copies.
use gnu_os.Base.{
  ℕ, sym, subst, ◌≡◌, refl, inl, inr, Bool, true, Option, some, List, [], ◌∷◌, ℤ, pos, arith,
  Bool-cases, ◌==◌, AnyOf, get_or-replicate,
}
use gnu_os.Base.Bits.{Includes, Includes-trans, bit_and_self}
use gnu_os.Capability.{
  Table, Info, index_from_id, empty_slot, max_entries, init, create, copy_for_owner, describe,
}
use gnu_os.Capability.Grants.{IsValid, init-IsValid}
use gnu_os.Capability.Rights.{Grants, create_outcome}
use gnu_os.Capability.Transfer.{copy_for_owner_outcome}

-- The calls that change the table, with their arguments.
pub data Call : Type 0 where
  creates : (owner object rights : ℕ) → Bool → Call
  copies : (id owner rights_mask target : ℕ) → Bool → Call

unfoldable pub step : Table → Call → Table
step t (creates owner object rights has_out) = (create t owner object rights has_out).2
step t (copies id owner rights_mask target has_out) =
    (copy_for_owner t id owner rights_mask target has_out).2

unfoldable pub run : Table → List Call → Table
run t [] = t
run t (c ∷ cs) = run (step t c) cs

-- The objects and rights that `capability_create` was asked for, added to those of `roots`.
unfoldable pub created : List (ℕ × ℕ) → List Call → List (ℕ × ℕ)
created roots [] = roots
created roots (creates owner object rights has_out ∷ cs) = created ((object, rights) ∷ roots) cs
created roots (copies id owner rights_mask target has_out ∷ cs) = created roots cs

-- Some capability was created for the object, with all of these rights.
abbrev pub Rooted : List (ℕ × ℕ) → ℕ → ℕ → Type 0
Rooted roots object rights = AnyOf (λ r. (r.0 ≡ object) × Includes r.1 rights) roots

record Inv (roots : List (ℕ × ℕ)) (t : Table) : Type 0 where
  valid : IsValid t
  rooted :
      (id : ℕ) (info : Info)
      → describe t id true ≡ (pos 0, some info)
      → Rooted roots info.object_id info.rights

Rooted-trans :
    (roots : List (ℕ × ℕ)) (object rights mask : ℕ)
    → Rooted roots object rights
    → Includes rights mask
    → Rooted roots object mask
Rooted-trans [] object rights mask h j = elim h [ ]
Rooted-trans (r ∷ roots) object rights mask (inl (e, i)) j =
    inl (e, Includes-trans r.1 rights mask i j)
Rooted-trans (r ∷ roots) object rights mask (inr h) j =
    inr (Rooted-trans roots object rights mask h j)

init-Inv : Inv [] init
unfolding init describe
init-Inv = record {
  valid = init-IsValid;
  rooted = λ id info h.
      absurd (ground (arith, get_or-replicate max_entries (index_from_id id) empty_slot));
}

Grants-Inv :
    (roots : List (ℕ × ℕ)) (t : Table) (owner object rights : ℕ) (out : ℤ × Option ℕ × Table)
    → Inv roots t
    → Rooted roots object rights
    → Grants t owner object rights out
    → Inv roots out.2
Grants-Inv roots t owner object rights out v r g = record {
  valid = g.valid;
  rooted = λ id info h. elim (Bool-cases (id == g.id)) [
    | inl new ↦ ground (arith, g.described id)
    | inr old ↦ v.rooted id info (ground (arith, g.described id))
  ];
}

-- A root more takes nothing away.
Inv-root : (roots : List (ℕ × ℕ)) (t : Table) (r : ℕ × ℕ) → Inv roots t → Inv (r ∷ roots) t
Inv-root roots t r v = record { valid = v.valid; rooted = λ id info h. inr (v.rooted id info h) }

create-Inv :
    (roots : List (ℕ × ℕ)) (t : Table) (owner object rights : ℕ) (has_out : Bool)
    → Inv roots t
    → Inv ((object, rights) ∷ roots) (create t owner object rights has_out).2
create-Inv roots t owner object rights has_out v =
    elim (create_outcome t owner object rights has_out v.valid) [
      | inl (e, _) ↦
          subst (λ out. Inv ((object, rights) ∷ roots) out.2) (sym e)
            (Inv-root roots t (object, rights) v)
      | inr (inl (_, g)) ↦
          Grants-Inv ((object, rights) ∷ roots) t owner object rights _
            (Inv-root roots t (object, rights) v) (inl (refl, bit_and_self rights)) g
      | inr (inr (e, _)) ↦
          subst (λ out. Inv ((object, rights) ∷ roots) out.2) (sym e)
            (Inv-root roots t (object, rights) v)
    ]

copy_for_owner-Inv :
    (roots : List (ℕ × ℕ)) (t : Table) (id owner rights_mask target : ℕ) (has_out : Bool)
    → Inv roots t
    → Inv roots (copy_for_owner t id owner rights_mask target has_out).2
copy_for_owner-Inv roots t id owner rights_mask target has_out v =
    elim (copy_for_owner_outcome t id owner rights_mask target has_out v.valid) [
      | inl (_, e) ↦ subst (λ out. Inv roots out.2) (sym e) v
      | inr (inl (n, _, _, e)) ↦ subst (λ out. Inv roots out.2) (sym e) v
      | inr (inr (p, _, inl g)) ↦
          Grants-Inv roots t target p.object rights_mask _ v
            (Rooted-trans roots p.object p.rights rights_mask (v.rooted id _ p.held) p.included) g
      | inr (inr (p, _, inr (e, _))) ↦ subst (λ out. Inv roots out.2) (sym e) v
    ]

run-Inv :
    (roots : List (ℕ × ℕ)) (t : Table) (cs : List Call)
    → Inv roots t
    → Inv (created roots cs) (run t cs)
unfolding run step created
run-Inv roots t [] v = v
run-Inv roots t (creates owner object rights has_out ∷ cs) v =
    run-Inv ((object, rights) ∷ roots) _ cs (create-Inv roots t owner object rights has_out v)
run-Inv roots t (copies id owner rights_mask target has_out ∷ cs) v =
    run-Inv roots _ cs (copy_for_owner-Inv roots t id owner rights_mask target has_out v)

-- Whatever calls are made on a fresh table, every capability that the table describes has an object
-- for which some `capability_create` call asked for at least its rights.
pub run_no_amplification :
    (cs : List Call) (id : ℕ) (info : Info)
    → describe (run init cs) id true ≡ (pos 0, some info)
    → Rooted (created [] cs) info.object_id info.rights
run_no_amplification cs id info = (run-Inv [] init cs init-Inv).rooted id info

-- Whatever calls are made on a fresh table, the table keeps its 128 slots and `capability_count` is
-- the number of those in use.
pub run-IsValid : (cs : List Call) → IsValid (run init cs)
run-IsValid cs = (run-Inv [] init cs init-Inv).valid
