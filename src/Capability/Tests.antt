-- ===== src/Capability/Tests.antt =====
-- The capability table on small inputs.
use gnu_os.Base.{◌≡◌, refl, ◌↔◌, true, some, List, [], ◌∷◌, pos, neg, find_idx_from, replicate}
use gnu_os.Capability.{
  Info, init, create, copy_for_owner, validate_transfer, describe, transfer_status, claim_first,
  is_valid_id,
}
use gnu_os.Capability.Transfer.{Permits, CopyOutcome, validate_transfer_iff, copy_for_owner_outcome}
use gnu_os.Capability.History.{
  Call, creates, copies, run, step, created, Rooted, run_no_amplification, run-IsValid,
}

-- Task 7 gets read, write and transfer (0x000B) on object 5, and passes read on to task 9.
abbrev calls : List Call
calls = creates 7 5 0x000B true ∷ copies 1 7 0x0001 9 true ∷ copies 2 9 0x0001 4 true ∷ []

abbrev passed_on : Info
passed_on = record { id = 2; owner_tid = 9; object_id = 5; rights = 0x0001 }

passed_on_described : describe (run init calls) 2 true ≡ (pos 0, some passed_on)
unfolding run step init create copy_for_owner describe transfer_status claim_first is_valid_id
    find_idx_from replicate
passed_on_described = refl

-- The copy has no transfer right, so it cannot be passed on.
copy_is_final : validate_transfer (run init calls) 2 9 0x0001 ≡ neg 4
unfolding run step init create copy_for_owner validate_transfer transfer_status claim_first
    is_valid_id find_idx_from replicate
copy_is_final = refl

run_no_amplification_example : Rooted ((5, 0x000B) ∷ []) 5 0x0001
unfolding created
run_no_amplification_example = run_no_amplification calls 2 passed_on passed_on_described

validate_transfer_iff_example :
    (validate_transfer (run init calls) 1 7 0x0001 ≡ pos 0) ↔ Permits (run init calls) 1 7 0x0001
validate_transfer_iff_example = validate_transfer_iff (run init calls) 1 7 0x0001

copy_for_owner_outcome_example : CopyOutcome (run init calls) 1 7 2 8 true
copy_for_owner_outcome_example =
    copy_for_owner_outcome (run init calls) 1 7 2 8 true (run-IsValid calls)
