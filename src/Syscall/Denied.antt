-- ===== src/Syscall/Denied.antt =====
-- kernel/syscall/syscall.c and kernel/security/seccomp.c together: a call that was denied stays denied.
use native.Mathlib.Decide.{ℕ_discrete}
use gnu_os.Base.{
  ℕ, ◌<◌, ◌≡◌, refl, ap, ◌∙◌, inl, inr, Bool-cases, Option, List, [], ◌∷◌, ◌==◌, ==_refl, leb,
  arith, get_or, ℤ,
}
use gnu_os.Seccomp.{
  Seccomp, max_syscalls, audit_capacity, errno, log_only, action_valid, get_syscall_action,
  set_syscall_action, audit_record,
}
use gnu_os.Seccomp.Policy.{HasTable, set_action_outcome}
use gnu_os.Syscall.{System, eperm, task_tid, audited, call_handler, log_call, syscall_dispatch}
use gnu_os.Syscall.Dispatch.{errno_valid, out_of_range, denied_dispatch, allowed_dispatch}

-- The audit does not touch the actions.
get_action-audit :
    (s : Seccomp) (tid number action : ℕ) (result : ℤ) (m : ℕ)
    → get_syscall_action (audit_record s tid number action result) m ≡ get_syscall_action s m
unfolding audit_record get_syscall_action
get_action-audit s tid number action result m = elim (Bool-cases (action_valid action)) [
  | inr unknown ↦ rw (audit_record, unknown) refl
  | inl known ↦ elim (Bool-cases (s.audit_size == audit_capacity)) [
    | inl full ↦ rw (audit_record, known, full) refl
    | inr room ↦ rw (audit_record, known, room) refl
  ]
]

get_action-log_call :
    (out : ℤ × System) (tid number action m : ℕ)
    → get_syscall_action (log_call out tid number action).1.seccomp m
      ≡ get_syscall_action out.1.seccomp m
unfolding log_call
get_action-log_call out tid number action m = elim (Bool-cases (action == log_only)) [
  | inr quiet ↦ rw (log_call, quiet) refl
  | inl logs ↦ rw (log_call, logs) (get_action-audit out.1.seccomp tid number action out.0 m)
]

denied_now :
    (s : Seccomp) (number : ℕ)
    → HasTable s
    → number < max_syscalls
    → get_syscall_action (set_syscall_action s number errno).1 number ≡ errno
denied_now s number t l = elim (set_action_outcome s number errno t) [
  | inl (inl high, out) ↦ absurd (omega (arith, high, l))
  | inl (inr unknown, out) ↦ absurd (ground (arith, unknown, errno_valid))
  | inr (l', known, ok, t', gives) ↦ gives number ∙ rw (==_refl number) refl
]

module _ (run_handler : ℕ → List ℕ → System → ℤ × System) where
  -- Dispatches one after the other: the current task, the number and the arguments.
  unfoldable pub dispatches : System → List (Option ℕ × ℕ × List ℕ) → System
  dispatches s [] = s
  dispatches s ((current, number, args) ∷ rest) =
      dispatches (syscall_dispatch run_handler s current number args).1 rest

  -- The handlers leave the action of a system call alone.
  abbrev pub KeepsAction : (number : ℕ) → Type 0
  KeepsAction number =
      (handler : ℕ) (args : List ℕ) (s : System)
      → get_syscall_action (run_handler handler args s).1.seccomp number
        ≡ get_syscall_action s.seccomp number

  get_action-call_handler :
      (s : System) (handler : ℕ) (args : List ℕ) (m : ℕ)
      → KeepsAction m
      → get_syscall_action (call_handler run_handler s handler args).1.seccomp m
        ≡ get_syscall_action s.seccomp m
  unfolding call_handler
  get_action-call_handler s handler args m keeps = elim (Bool-cases (handler == 0)) [
    | inl null ↦ rw (call_handler, null) refl
    | inr given ↦ rw (call_handler, given) (keeps handler args s)
  ]

  get_action-dispatch :
      (s : System) (current : Option ℕ) (number : ℕ) (args : List ℕ) (m : ℕ)
      → KeepsAction m
      → get_syscall_action (syscall_dispatch run_handler s current number args).1.seccomp m
        ≡ get_syscall_action s.seccomp m
  get_action-dispatch s current number args m keeps = elim (Bool-cases (leb max_syscalls number)) [
    | inl high ↦
        ap (λ o. get_syscall_action o.1.seccomp m)
          (out_of_range run_handler s current number args high)
    | inr low ↦
        let l : number < max_syscalls = ground (arith, low) in
        elim (ℕ_discrete (get_syscall_action s.seccomp number) errno) [
          | yes denied ↦
              ap (λ o. get_syscall_action o.1.seccomp m)
                (denied_dispatch run_handler s current number args l denied)
              ∙ get_action-audit s.seccomp (task_tid current) number errno eperm m
          | no allowed ↦
              ap (λ o. get_syscall_action o.1.seccomp m)
                (allowed_dispatch run_handler s current number args l allowed)
              ∙ get_action-log_call (call_handler run_handler s (get_or s.table number 0) args)
                  (task_tid current) number (get_syscall_action s.seccomp number) m
              ∙ get_action-call_handler s (get_or s.table number 0) args m keeps
        ]
  ]

  get_action-dispatches :
      (s : System) (calls : List (Option ℕ × ℕ × List ℕ)) (m : ℕ)
      → KeepsAction m
      → get_syscall_action (dispatches s calls).seccomp m ≡ get_syscall_action s.seccomp m
  unfolding dispatches
  get_action-dispatches s [] m keeps = refl
  get_action-dispatches s ((current, number, args) ∷ rest) m keeps =
      get_action-dispatches (syscall_dispatch run_handler s current number args).1 rest m keeps
      ∙ get_action-dispatch s current number args m keeps

  -- Once `seccomp_set_syscall_action` denied a system call, on an action table of 512 places, and after any further
  -- system calls by any tasks whose handlers leave its action alone, the dispatch of that system call answers
  -- EPERM and changes nothing but the audit: its handler is not run, whatever is registered for it.
  pub denied_stays :
      (s : System) (calls : List (Option ℕ × ℕ × List ℕ)) (current : Option ℕ) (number : ℕ)
      (args : List ℕ)
      → HasTable s.seccomp
      → number < max_syscalls
      → KeepsAction number
      → let s' =
          dispatches (record s { seccomp = (set_syscall_action s.seccomp number errno).1 }) calls in
        syscall_dispatch run_handler s' current number args
        ≡ (eperm, audited s' (task_tid current) number errno eperm)
  denied_stays s calls current number args t l keeps =
      let start : System = record s { seccomp = (set_syscall_action s.seccomp number errno).1 } in
      denied_dispatch run_handler (dispatches start calls) current number args l
        (get_action-dispatches start calls number keeps ∙ denied_now s.seccomp number t l)
