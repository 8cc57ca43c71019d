-- ===== src/Syscall/Dispatch.antt =====
-- kernel/syscall/syscall.c: what a dispatch answers, and that a denied call runs no handler.
use native.Mathlib.Decide.{ℕ_discrete}
use gnu_os.Base.{
  ℕ, ◌≤◌, ◌<◌, ◌≡◌, ◌≢◌, refl, sym, subst, ◌⊎◌, inl, inr, true, false, Bool-cases, Option, List, [],
  ◌∷◌, ◌++◌, ◌==◌, leb, arith, get_or, inc64, ℤ,
}
use gnu_os.Seccomp.{max_syscalls, audit_capacity, errno, log_only, action_valid, get_syscall_action}
use gnu_os.Seccomp.Audit.{IsValid, events, latest}
use gnu_os.Seccomp.Audit.Log.{Attempt, audit_record_outcome}
use gnu_os.Syscall.{
  System, enosys, eperm, task_tid, audited, call_handler, log_call, syscall_dispatch,
}

-- The same system with one more event in the audit ring.
abbrev pub Logged : System → (tid number action : ℕ) → ℤ → System → Type 0
Logged s tid number action result s' =
    (s' ≡ record s { seccomp = s'.seccomp })
    × IsValid s'.seccomp
    × (events s'.seccomp
        ≡ latest audit_capacity (
            events s.seccomp
            ++ (record {
              sequence = inc64 s.seccomp.audit_sequence;
              tid = tid;
              syscall_number = number;
              action = action;
              result = result;
            }
                ∷ [])))

pub errno_valid : action_valid errno ≡ true
unfolding action_valid
errno_valid = refl

log_only_valid : action_valid log_only ≡ true
unfolding action_valid
log_only_valid = refl

audited-Logged :
    (s : System) (tid number action : ℕ) (result : ℤ)
    → IsValid s.seccomp
    → action_valid action ≡ true
    → Logged s tid number action result (audited s tid number action result)
audited-Logged s tid number action result v known =
    let a : Attempt = record {
      tid = tid;
      syscall_number = number;
      action = action;
      result = result;
    } in
    let (w, kept, number', latest') = audit_record_outcome s.seccomp a v known in (refl, w, kept)

abbrev pub LogAnswers : ℤ × System → (tid number action : ℕ) → ℤ × System → Type 0
LogAnswers called tid number action out =
    ((action ≢ log_only) × (out ≡ called))
    ⊎ ((action ≡ log_only)
        × (out.0 ≡ called.0)
        × Logged called.1 tid number log_only called.0 out.1)

log_call_lem :
    (called : ℤ × System) (tid number action : ℕ)
    → IsValid called.1.seccomp
    → LogAnswers called tid number action (log_call called tid number action)
unfolding log_call
log_call_lem called tid number action v = elim (Bool-cases (action == log_only)) [
  | inr quiet ↦ inl (λ e. absurd (ground (arith, quiet, e)), rw (log_call, quiet) refl)
  | inl logs ↦
      let e : action ≡ log_only = ground (arith, logs) in
      rw (log_call, e)
        (inr (refl, refl, audited-Logged called.1 tid number log_only called.0 v log_only_valid))
]

module _ (run_handler : ℕ → List ℕ → System → ℤ × System) where
  -- The answers of a dispatch.
  abbrev pub DispatchAnswers : System → Option ℕ → (number : ℕ) → List ℕ → ℤ × System → Type 0
  DispatchAnswers s current number args out =
      let action = get_syscall_action s.seccomp number in
      let handler = get_or s.table number 0 in
      ((max_syscalls ≤ number) × (out ≡ (enosys, s)))
      ⊎ ((number < max_syscalls)
          × (action ≡ errno)
          × (out.0 ≡ eperm)
          × Logged s (task_tid current) number errno eperm out.1)
      ⊎ ((number < max_syscalls)
          × (action ≢ errno)
          × (called : ℤ × System) × (((handler ≡ 0) × (called ≡ (enosys, s)))
              ⊎ ((handler ≢ 0) × (called ≡ run_handler handler args s)))
          × LogAnswers called (task_tid current) number action out)

  called_cases :
      (s : System) (handler : ℕ) (args : List ℕ)
      → ((handler ≡ 0) × (call_handler run_handler s handler args ≡ (enosys, s)))
        ⊎ ((handler ≢ 0) × (call_handler run_handler s handler args ≡ run_handler handler args s))
  unfolding call_handler
  called_cases s handler args = elim (Bool-cases (handler == 0)) [
    | inl null ↦ inl (ground (arith, null), rw (call_handler, null) refl)
    | inr given ↦ inr (λ e. absurd (ground (arith, given, e)), rw (call_handler, given) refl)
  ]

  pub out_of_range :
      (s : System) (current : Option ℕ) (number : ℕ) (args : List ℕ)
      → leb max_syscalls number ≡ true
      → syscall_dispatch run_handler s current number args ≡ (enosys, s)
  unfolding syscall_dispatch
  out_of_range s current number args high = rw (syscall_dispatch, high) refl

  pub denied_dispatch :
      (s : System) (current : Option ℕ) (number : ℕ) (args : List ℕ)
      → number < max_syscalls
      → get_syscall_action s.seccomp number ≡ errno
      → syscall_dispatch run_handler s current number args
        ≡ (eperm, audited s (task_tid current) number errno eperm)
  unfolding syscall_dispatch
  denied_dispatch s current number args l denied =
      let low : leb max_syscalls number ≡ false = ground (arith, l) in
      rw (syscall_dispatch, low, denied) refl

  pub allowed_dispatch :
      (s : System) (current : Option ℕ) (number : ℕ) (args : List ℕ)
      → number < max_syscalls
      → get_syscall_action s.seccomp number ≢ errno
      → syscall_dispatch run_handler s current number args
        ≡ log_call
            (call_handler run_handler s (get_or s.table number 0) args)
            (task_tid current)
            number
            (get_syscall_action s.seccomp number)
  unfolding syscall_dispatch
  allowed_dispatch s current number args l allowed =
      let low : leb max_syscalls number ≡ false = ground (arith, l) in
      let test : (get_syscall_action s.seccomp number == errno) ≡ false = ground (arith, allowed) in
      rw (syscall_dispatch, low, test) refl

  called-IsValid :
      (s : System) (handler : ℕ) (args : List ℕ)
      → IsValid s.seccomp
      → IsValid (run_handler handler args s).1.seccomp
      → IsValid (call_handler run_handler s handler args).1.seccomp
  unfolding call_handler
  called-IsValid s handler args v w = elim (Bool-cases (handler == 0)) [
    | inl null ↦ rw (call_handler, null) v
    | inr given ↦ rw (call_handler, given) w
  ]

  -- A system call under seccomp, where the audit ring is valid and the handler of the number keeps it so: a
  -- number out of range answers ENOSYS and changes nothing; a denied call answers EPERM, runs no handler, and
  -- changes only the audit, which gets that one event; any other call gives what its handler gives, or ENOSYS
  -- where it has none, and its result is recorded exactly where the action says so.
  pub dispatch_outcome :
      (s : System) (current : Option ℕ) (number : ℕ) (args : List ℕ)
      → IsValid s.seccomp
      → IsValid (run_handler (get_or s.table number 0) args s).1.seccomp
      → DispatchAnswers s current number args (syscall_dispatch run_handler s current number args)
  dispatch_outcome s current number args v w = elim (Bool-cases (leb max_syscalls number)) [
    | inl high ↦ inl (ground (arith, high), out_of_range s current number args high)
    | inr low ↦
        let l : number < max_syscalls = ground (arith, low) in
        elim (ℕ_discrete (get_syscall_action s.seccomp number) errno) [
          | yes denied ↦ rw (denied_dispatch s current number args l denied) (
              inr (
                inl (
                  l,
                  denied,
                  refl,
                  audited-Logged s (task_tid current) number errno eperm v errno_valid,
                )))
          | no allowed ↦
              let handler = get_or s.table number 0 in
              let called = call_handler run_handler s handler args in
              inr (
                inr (
                  l,
                  allowed,
                  called,
                  called_cases s handler args,
                  subst
                      (LogAnswers called (task_tid current) number
                        (get_syscall_action s.seccomp number))
                      (sym (allowed_dispatch s current number args l allowed))
                      (log_call_lem called (task_tid current) number
                        (get_syscall_action s.seccomp number) (called-IsValid s handler args v w)),
                ))
        ]
  ]
