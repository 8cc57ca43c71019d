-- ===== src/Syscall.antt =====
-- kernel/syscall/syscall.c: the table of system calls and the dispatch, with the seccomp test before it and
-- the audit after it. Each locked part is one step.
pub mod Register
pub mod Dispatch
pub mod Denied
mod Tests
use gnu_os.Base.{
  ℕ, zero, suc, ◌+◌, ◌-◌, ◌/◌, ◌%◌, ◌^◌, Bool, true, false, not, ◌&&◌, ◌||◌, Option, none, some,
  List, ℤ, pos, negsuc, neg, leb, ltb, ◌==◌, if◌then◌else◌, get_or, set, map, length, replicate,
  inc16, u16,
}
use gnu_os.Seccomp.{Seccomp, init, max_syscalls, errno, log_only, get_syscall_action, audit_record}
use gnu_os.Pmm.{update}
use gnu_os.Uaccess.{copy_to_user}

-- `SYSCALL_ENOSYS`, `SYSCALL_EFAULT`, `SYSCALL_EPERM`
abbrev pub enosys : ℤ
enosys = neg 38

abbrev pub efault : ℤ
efault = neg 14

abbrev pub eperm : ℤ
eperm = neg 1

-- `SYS_SCHED_YIELD`, `SYS_GETTID`, `SYS_GETTID_USER`
abbrev pub sys_sched_yield_number : ℕ
sys_sched_yield_number = 24

abbrev pub sys_gettid_number : ℕ
sys_gettid_number = 186

abbrev pub sys_gettid_user_number : ℕ
sys_gettid_user_number = 400

-- The static variables of syscall.c, those of seccomp.c and the memory, which the calls change. A handler
-- is the address of its code, and 0 is `NULL`.
pub record System : Type 0 where
  pub table : List ℕ
  pub registered_count : ℕ
  pub seccomp : Seccomp
  pub memory : ℕ → ℕ

-- The thread number of the current task, or 0 where there is none.
unfoldable pub task_tid : Option ℕ → ℕ
task_tid none = 0
task_tid (some tid) = tid

-- A 64-bit word read as a signed one.
unfoldable pub i64 : ℕ → ℤ
i64 n = if ltb (n % 2 ^ 64) (2 ^ 63) then pos (n % 2 ^ 64) else neg (2 ^ 64 - n % 2 ^ 64)

unfoldable pub sys_gettid : Option ℕ → ℤ
sys_gettid current = i64 (task_tid current)

-- The bytes of a word, the lowest first: bytes left, address, value.
unfoldable pub store_from : ℕ → (memory : ℕ → ℕ) → (address value : ℕ) → ℕ → ℕ
store_from zero memory address value = memory
store_from (suc n) memory address value =
    store_from n (update memory address (value % 256)) (address + 1) (value / 256)

-- `slot` is the address of the local variable `tid`.
unfoldable pub sys_gettid_user :
    (ℕ → Option ℕ) → Option ℕ → (memory : ℕ → ℕ) → (slot arg0 : ℕ) → ℤ × (ℕ → ℕ)
sys_gettid_user query_mapping current memory slot arg0 =
    let out =
      copy_to_user query_mapping (store_from 8 memory slot (task_tid current)) arg0 slot 8 in
    elim out.0 [
      | pos zero ↦ (pos 0, out.1)
      | pos (suc n) ↦ (efault, out.1)
      | negsuc n ↦ (efault, out.1)
    ]

unfoldable pub syscall_register : System → (number handler : ℕ) → ℤ × System
syscall_register s number handler =
    if leb max_syscalls number || (handler == 0) then (neg 1, s) else (
      pos 0,
      record s {
        table = set s.table number handler;
        registered_count =
            if get_or s.table number 0 == 0 then inc16 s.registered_count else s.registered_count;
      },
    )

abbrev pub no_handler : ℕ → ℕ
no_handler h = 0

-- The addresses of the three handlers that are registered at the start.
unfoldable pub syscall_init : System → (gettid sched_yield gettid_user : ℕ) → System
syscall_init s gettid sched_yield gettid_user =
    let cleared : System = record s {
      table = map no_handler s.table;
      registered_count = 0;
      seccomp = init;
    } in
    let one = (syscall_register cleared sys_gettid_number gettid).1 in
    let two = (syscall_register one sys_sched_yield_number sched_yield).1 in
    (syscall_register two sys_gettid_user_number gettid_user).1

abbrev pub audited : System → (tid number action : ℕ) → ℤ → System
audited s tid number action result = record s {
  seccomp = audit_record s.seccomp tid number action result;
}

-- The end of the dispatch.
unfoldable pub log_call : ℤ × System → (tid number action : ℕ) → ℤ × System
log_call out tid number action =
    if action == log_only then (out.0, audited out.1 tid number action out.0) else out

-- What the code at an address does with the six arguments.
module _ (run_handler : ℕ → List ℕ → System → ℤ × System) where
  -- The call of the handler, where there is one.
  unfoldable pub call_handler : System → (handler : ℕ) → List ℕ → ℤ × System
  call_handler s handler args = if handler == 0 then (enosys, s) else run_handler handler args s

  unfoldable pub syscall_dispatch : System → Option ℕ → (number : ℕ) → List ℕ → ℤ × System
  syscall_dispatch s current number args =
      let tid = task_tid current in
      let action = get_syscall_action s.seccomp number in
      if leb max_syscalls number
      then (enosys, s)
      else if action == errno
      then (eperm, audited s tid number action eperm)
      else log_call (call_handler s (get_or s.table number 0) args) tid number action

  -- A frame is the number and the arguments; `none` is a frame that is `NULL`.
  unfoldable pub syscall_dispatch_fastpath : System → Option ℕ → Option (ℕ × List ℕ) → ℤ × System
  syscall_dispatch_fastpath s current none = (enosys, s)
  syscall_dispatch_fastpath s current (some (number, args)) = syscall_dispatch s current number args
