-- ===== src/Uaccess/Tests.antt =====
-- Tests of the accesses to user memory on pages mapped for the user, and the witnesses of their properties.
use gnu_os.Base.{ℕ, ◌≡◌, ◌↔◌, ◌⊎◌, refl, true, false, Option, none, some, arith, ltb, if◌then◌else◌}
use gnu_os.Uaccess.{validate_range, validate_pages, pages_allowed_from, page_allowed, copy_to_user}
use gnu_os.Uaccess.Range.{UserRange, validate_range_iff}
use gnu_os.Uaccess.Copy.{CopyAnswers, copy_to_user_outcome}

-- The user's pages below 0x4000, of which those from 0x2000 on are read only.
abbrev pages : ℕ → Option ℕ
pages a = if ltb a 8192 then some 6 else if ltb a 16384 then some 4 else none

abbrev two_hundred : ℕ
two_hundred = 200

abbrev numbered : ℕ → ℕ
numbered a = a

two_pages : validate_range pages 4000 200 true ≡ true
unfolding validate_range validate_pages pages_allowed_from page_allowed
two_pages = refl

read_only : validate_range pages 8000 200 true ≡ false
unfolding validate_range validate_pages pages_allowed_from page_allowed
read_only = refl

validate_range_iff_example :
    (validate_range pages 4000 200 true ≡ true)
    ↔ ((two_hundred ≡ 0) ⊎ UserRange pages true 4000 200)
validate_range_iff_example = validate_range_iff pages true 4000 200 (omega arith) (omega arith)

copy_to_user_outcome_example :
    CopyAnswers pages true numbered 100 4000 4000 100 200 (copy_to_user pages numbered 4000 100 200)
copy_to_user_outcome_example =
    copy_to_user_outcome pages numbered 4000 100 200 (omega arith) (omega arith)
