-- ===== src/Seccomp/Tests.antt =====
-- kernel/security/seccomp.c at concrete states.
use gnu_os.Base.{◌≡◌, [], ◌∷◌, ◌++◌, pos}
use gnu_os.Seccomp.{init, errno, audit_capacity}
use gnu_os.Seccomp.Audit.{events, latest}
use gnu_os.Seccomp.Audit.Log.{Attempt, audit_all, numbered, audit_keeps_latest, init-IsValid}

abbrev denied : Attempt
denied = record { tid = 7; syscall_number = 59; action = errno; result = pos 0 }

abbrev unknown : Attempt
unknown = record { tid = 7; syscall_number = 59; action = 9; result = pos 0 }

audit_keeps_latest_example :
    events (audit_all init (denied ∷ unknown ∷ denied ∷ []))
    ≡ latest audit_capacity
        (events init ++ numbered init.audit_sequence (denied ∷ unknown ∷ denied ∷ []))
audit_keeps_latest_example = audit_keeps_latest init (denied ∷ unknown ∷ denied ∷ []) init-IsValid
