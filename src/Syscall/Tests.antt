-- ===== src/Syscall/Tests.antt =====
-- Tests of the dispatch on a system with three handlers, and the witnesses of its properties.
use gnu_os.Base.{
  ℕ, ◌^◌, ◌-◌, ◌≡◌, refl, some, List, [], ◌∷◌, ℤ, pos, neg, arith, replicate, length-replicate, set,
}
use gnu_os.Seccomp.{init, max_syscalls, errno, allow, get_syscall_action, set_syscall_action}
use gnu_os.Seccomp.Policy.{init-HasTable}
use gnu_os.Seccomp.Audit.Log.{init-IsValid}
use gnu_os.Syscall.{
  System, eperm, audited, task_tid, syscall_init, syscall_register, syscall_dispatch, i64,
}
use gnu_os.Syscall.Register.{
  IsCounted, RegisterAnswers, syscall_init-IsCounted, register_outcome, register_dispatch,
}
use gnu_os.Syscall.Dispatch.{DispatchAnswers, dispatch_outcome}
use gnu_os.Syscall.Denied.{dispatches, denied_stays}

abbrev at_boot : System
at_boot = record {
  table = replicate max_syscalls 0;
  registered_count = 0;
  seccomp = init;
  memory = λ a. 0;
}

abbrev started : System
started = syscall_init at_boot 1000 2000 3000

started-IsCounted : IsCounted started
started-IsCounted = syscall_init-IsCounted at_boot 1000 2000 3000 (length-replicate max_syscalls 0)

-- Every handler answers its own address.
abbrev answers : ℕ → List ℕ → System → ℤ × System
answers handler args s = (pos handler, s)

abbrev getting : System
getting = record at_boot { table = set (replicate max_syscalls 0) 186 1000 }

register_outcome_example : RegisterAnswers started 9 4000 (syscall_register started 9 4000)
register_outcome_example = register_outcome started 9 4000 started-IsCounted

registers : (syscall_register started 9 4000).0 ≡ pos 0
unfolding syscall_register
registers = refl

allowed : get_syscall_action started.seccomp 9 ≡ allow
unfolding syscall_init syscall_register get_syscall_action init replicate
allowed = refl

register_dispatch_example :
    let s' = (syscall_register started 9 4000).1 in
    syscall_dispatch answers s' (some 7) 9 [] ≡ answers 4000 [] s'
register_dispatch_example =
    register_dispatch answers started (some 7) 9 4000 [] started-IsCounted registers allowed

dispatch_outcome_example :
    DispatchAnswers answers getting
      (some 7)
      186
      []
      (syscall_dispatch answers getting (some 7) 186 [])
dispatch_outcome_example =
    dispatch_outcome answers getting (some 7) 186 [] init-IsValid init-IsValid

denied_stays_example :
    let s' =
      dispatches answers
        (record getting { seccomp = (set_syscall_action init 186 errno).1 })
        ((some 9, 24, []) ∷ []) in
    syscall_dispatch answers s' (some 7) 186 []
    ≡ (eperm, audited s' (task_tid (some 7)) 186 errno eperm)
denied_stays_example =
    denied_stays answers getting ((some 9, 24, []) ∷ []) (some 7) 186 [] init-HasTable (omega arith)
      (λ handler args s. refl)

signed : i64 (2 ^ 64 - 1) ≡ neg 1
unfolding i64
signed = refl
