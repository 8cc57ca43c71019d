-- ===== src/Shm/Tests.antt =====
-- Tests of the shared memory segments on a table with one segment, and the witnesses of its properties.
use gnu_os.Base.{ℕ, ◌≡◌, refl, true, some, List, [], ◌∷◌, arith, pos, length-replicate, length}
use gnu_os.Base.Occurs.{occurs}
use gnu_os.Shm.{
  Shm, boot, zero_segment, max_segments, segment_at, find_locked, find_attachment_from,
  find_attachment_locked, reset_segment, shm_init, aligned_size, create_segment, resolve_tid,
  shm_current_tid, segment_index, append_tid, attach_at, shm_create, shm_find, shm_attach,
  shm_detach,
}
use gnu_os.Base.{find_idx_from, replicate}
use gnu_os.Names.{strnlen, strnlen_from, name_equal, name_equal_from, name_copy, name_copy_from}
use gnu_os.Shm.Attached.{members}
use gnu_os.Shm.Attach.{IsSound, AttachAnswers, DetachAnswers, attach_outcome, detach_outcome}
use gnu_os.Shm.Create.{CreateAnswers, shm_create_outcome}
use gnu_os.Shm.History.{create, attach, step, run, shm_history-IsSound}
use gnu_os.Shm.Roundtrip.{attach_detach}

abbrev ab : List ℕ
ab = 97 ∷ 98 ∷ []

-- Pages are mapped at 0x10000.
abbrev mapped : ℕ → ℕ
mapped pages = 65536

-- Thread 7 has made a segment of two pages.
one_segment : Shm
one_segment = run (shm_init boot) ((some 7, create mapped (some ab) 5000 0) ∷ [])

boot_table : length boot.segments ≡ max_segments
unfolding boot
boot_table = length-replicate max_segments zero_segment

one_segment-IsSound : IsSound one_segment
unfolding one_segment
one_segment-IsSound =
    shm_history-IsSound boot ((some 7, create mapped (some ab) 5000 0) ∷ []) boot_table

shm_history-IsSound_example : IsSound (
    run
      (shm_init boot)
      ((some 7, create mapped (some ab) 5000 0) ∷ (some 9, attach (pos 0) 0 true) ∷ []))
shm_history-IsSound_example =
    shm_history-IsSound boot
      ((some 7, create mapped (some ab) 5000 0) ∷ (some 9, attach (pos 0) 0 true) ∷ []) boot_table

attach_outcome_example :
    AttachAnswers one_segment
      (some 9)
      (pos 0)
      0
      true
      (shm_attach one_segment (some 9) (pos 0) 0 true)
attach_outcome_example = attach_outcome one_segment (some 9) (pos 0) 0 true one_segment-IsSound

detach_outcome_example :
    DetachAnswers one_segment (some 9) (pos 0) 0 (shm_detach one_segment (some 9) (pos 0) 0)
detach_outcome_example = detach_outcome one_segment (some 9) (pos 0) 0 one_segment-IsSound

shm_create_outcome_example :
    CreateAnswers mapped one_segment
      (some 9)
      ab
      5000
      0
      (shm_create mapped one_segment (some 9) (some ab) 5000 0)
shm_create_outcome_example =
    shm_create_outcome mapped one_segment (some 9) ab 5000 0 one_segment-IsSound (omega arith)

first_id : segment_index (pos 0) ≡ some 0
unfolding segment_index
first_id = refl

own_number : resolve_tid (some 9) 0 ≡ some 9
unfolding resolve_tid shm_current_tid
own_number = refl

found_again : shm_find one_segment (some ab) ≡ pos 0
unfolding one_segment run step shm_init boot zero_segment reset_segment shm_create create_segment
    resolve_tid shm_current_tid aligned_size find_locked shm_find name_equal name_equal_from
    name_copy name_copy_from strnlen strnlen_from find_idx_from replicate
found_again = refl

nobody : occurs 9 (members (segment_at one_segment 0)) ≡ 0
unfolding one_segment run step shm_init boot zero_segment reset_segment shm_create create_segment
    resolve_tid shm_current_tid aligned_size find_locked name_equal name_equal_from name_copy
    name_copy_from strnlen strnlen_from find_idx_from replicate
nobody = refl

attached : (shm_attach one_segment (some 9) (pos 0) 0 true).0 ≡ pos 0
unfolding one_segment run step shm_init boot zero_segment reset_segment shm_create create_segment
    resolve_tid shm_current_tid aligned_size find_locked name_equal name_equal_from name_copy
    name_copy_from strnlen strnlen_from find_idx_from shm_attach segment_index attach_at
    find_attachment_locked find_attachment_from append_tid replicate
attached = refl

attach_detach_example :
    let out = shm_detach (shm_attach one_segment (some 9) (pos 0) 0 true).2 (some 9) (pos 0) 0 in
    (out.0 ≡ pos 0) × (members (segment_at out.1 0) ≡ members (segment_at one_segment 0))
attach_detach_example =
    attach_detach one_segment (some 9) (pos 0) 0 0 9 one_segment-IsSound first_id own_number nobody
      attached
