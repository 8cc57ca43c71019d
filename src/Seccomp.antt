-- ===== src/Seccomp.antt =====
-- kernel/security/seccomp.c and kernel/include/gnuos/seccomp.h: the action for each system call, and the
-- ring of audit events. Each call runs under `g_seccomp_lock` and is one step.
pub mod Policy
pub mod Audit
mod Tests
use gnu_os.Base.{
  ℕ, zero, suc, ◌+◌, ◌-◌, ◌%◌, Bool, true, false, not, ◌&&◌, ◌||◌, Option, none, some, List, ℤ, pos,
  negsuc, neg, leb, ltb, ◌==◌, if◌then◌else◌, get_or, set, replicate, u16, inc16, inc64,
}

-- `SYSCALL_MAX_ENTRIES`
abbrev pub max_syscalls : ℕ
max_syscalls = 512

-- `SECCOMP_AUDIT_CAPACITY`
abbrev pub audit_capacity : ℕ
audit_capacity = 128

-- `SECCOMP_ACTION_ALLOW`, `SECCOMP_ACTION_LOG`, `SECCOMP_ACTION_ERRNO`
abbrev pub allow : ℕ
allow = 0

abbrev pub log_only : ℕ
log_only = 1

abbrev pub errno : ℕ
errno = 2

-- `SECCOMP_ACTION_UNSET`
abbrev pub unset : ℕ
unset = 255

-- `seccomp_audit_event_t`
pub record Event : Type 0 where
  pub sequence : ℕ
  pub tid : ℕ
  pub syscall_number : ℕ
  pub action : ℕ
  pub result : ℤ

-- The static variables of seccomp.c.
pub record Seccomp : Type 0 where
  pub default_action : ℕ
  pub overrides : List ℕ
  pub audit_ring : List Event
  pub audit_head : ℕ
  pub audit_size : ℕ
  pub audit_sequence : ℕ
  pub audit_total : ℕ

abbrev pub no_event : Event
no_event = record { sequence = 0; tid = 0; syscall_number = 0; action = allow; result = pos 0 }

unfoldable pub action_valid : ℕ → Bool
action_valid action = action == allow || (action == log_only || action == errno)

-- What `seccomp_init` leaves, whatever was there before.
unfoldable pub init : Seccomp
init = record {
  default_action = allow;
  overrides = replicate max_syscalls unset;
  audit_ring = replicate audit_capacity no_event;
  audit_head = 0;
  audit_size = 0;
  audit_sequence = 0;
  audit_total = 0;
}

unfoldable pub set_default_action : Seccomp → ℕ → Seccomp
set_default_action s action =
    if action_valid action then record s { default_action = action } else s

unfoldable pub set_syscall_action : Seccomp → (syscall_number action : ℕ) → ℤ × Seccomp
set_syscall_action s syscall_number action =
    if leb max_syscalls syscall_number || not (action_valid action)
    then (neg 1, s)
    else (pos 0, record s { overrides = set s.overrides syscall_number action })

unfoldable pub get_syscall_action : Seccomp → ℕ → ℕ
get_syscall_action s syscall_number =
    if ltb syscall_number max_syscalls && not (get_or s.overrides syscall_number unset == unset)
    then get_or s.overrides syscall_number unset
    else s.default_action

-- The event that the next record writes.
abbrev pub next_event : Seccomp → (tid syscall_number action : ℕ) → ℤ → Event
next_event s tid syscall_number action result = record {
  sequence = inc64 s.audit_sequence;
  tid = tid;
  syscall_number = syscall_number;
  action = action;
  result = result;
}

abbrev pub write_event : Seccomp → (slot : ℕ) → Event → Seccomp
write_event s slot e = record s {
  audit_ring = set s.audit_ring slot e;
  audit_sequence = e.sequence;
  audit_total = inc64 s.audit_total;
}

unfoldable pub audit_record : Seccomp → (tid syscall_number action : ℕ) → ℤ → Seccomp
audit_record s tid syscall_number action result =
    let e = next_event s tid syscall_number action result in
    if not (action_valid action)
    then s
    else if s.audit_size == audit_capacity
    then record (write_event s s.audit_head e) {
      audit_head = u16 ((s.audit_head + 1) % audit_capacity);
    }
    else record (write_event s (u16 ((s.audit_head + s.audit_size) % audit_capacity)) e) {
      audit_size = inc16 s.audit_size;
    }

-- `has_out`: the pointer is not NULL. An event comes with the status 0.
unfoldable pub audit_latest : Seccomp → (has_out : Bool) → ℤ × Option Event
audit_latest s has_out =
    if not has_out then (neg 1, none) else if s.audit_size == 0 then (neg 2, none) else (
      pos 0,
      some
          (get_or s.audit_ring (u16 ((s.audit_head + s.audit_size - 1) % audit_capacity)) no_event),
    )
