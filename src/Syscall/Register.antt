-- ===== src/Syscall/Register.antt =====
-- kernel/syscall/syscall.c: the registration of handlers.
use gnu_os.Base.{
  ℕ, suc, ◌≤◌, ◌<◌, ◌≡◌, refl, sym, ap, ◌∙◌, subst, ◌⊎◌, inl, inr, Bool, true, false, not, ◌||◌,
  Bool-cases, Option, List, [], ◌∷◌, map, ◌==◌, leb, if◌then◌else◌, arith, get_or, set, length,
  length-set, get_or-set, get_or-set_self, count_if, count_if-set, count_if-le, inc16, ℤ, pos, neg,
}
use gnu_os.Seccomp.{max_syscalls, get_syscall_action, allow, init}
use gnu_os.Syscall.{
  no_handler, System, syscall_register, syscall_dispatch, call_handler, log_call, syscall_init,
  sys_gettid_number, sys_sched_yield_number, sys_gettid_user_number,
}

abbrev pub has_handler : ℕ → Bool
has_handler h = not (h == 0)

-- The table has a place for each number, and the counter is the number of places with a handler.
pub record IsCounted (s : System) : Type 0 where
  pub storage : length s.table ≡ max_syscalls
  pub counted : s.registered_count ≡ count_if has_handler s.table

-- The table and the counter after a handler was registered.
abbrev registered : System → (number handler : ℕ) → System
registered s number handler = record s {
  table = set s.table number handler;
  registered_count =
      if get_or s.table number 0 == 0 then inc16 s.registered_count else s.registered_count;
}

abbrev pub RegisterAnswers : System → (number handler : ℕ) → ℤ × System → Type 0
RegisterAnswers s number handler out =
    (((max_syscalls ≤ number) ⊎ (handler ≡ 0)) × (out ≡ (neg 1, s)))
    ⊎ ((number < max_syscalls)
        × (out.0 ≡ pos 0)
        × IsCounted out.1
        × (out.1.seccomp ≡ s.seccomp)
        × ((m : ℕ)
            → get_or out.1.table m 0 ≡ (if m == number then handler else get_or s.table m 0)))

registered-IsCounted :
    (s : System) (number handler : ℕ)
    → IsCounted s
    → number < max_syscalls
    → (handler == 0) ≡ false
    → IsCounted (registered s number handler)
registered-IsCounted s number handler v l given = record {
  storage = length-set s.table number handler ∙ v.storage;
  counted = ground (
    arith,
    v.counted,
    count_if-set has_handler s.table number handler 0 (omega (arith, v.storage, l)),
    count_if-le has_handler s.table,
    v.storage,
    given,
  );
}

refused :
    (number handler : ℕ)
    → (leb max_syscalls number || (handler == 0)) ≡ true
    → (max_syscalls ≤ number) ⊎ (handler ≡ 0)
refused number handler bad = elim (Bool-cases (handler == 0)) [
  | inl null ↦ inr (ground (arith, null))
  | inr given ↦ inl (ground (arith, bad, given))
]

-- `syscall_register` on a counted table: -1 with nothing changed for a number out of range or a NULL handler;
-- otherwise 0, the entry of that number is the handler and no other entry changed, and the counter is again
-- the number of entries with a handler.
pub register_outcome :
    (s : System) (number handler : ℕ)
    → IsCounted s
    → RegisterAnswers s number handler (syscall_register s number handler)
unfolding syscall_register
register_outcome s number handler v =
    elim (Bool-cases (leb max_syscalls number || (handler == 0))) [
      | inl bad ↦ inl (refused number handler bad, rw (syscall_register, bad) refl)
      | inr good ↦
          let l : number < max_syscalls = ground (arith, good) in
          rw (syscall_register, good)
            (inr (
              l,
              refl,
              registered-IsCounted s number handler v l (ground (arith, good)),
              refl,
              λ m. get_or-set s.table number m handler 0 (omega (arith, v.storage, l)),
            ))
    ]

register-IsCounted :
    (s : System) (number handler : ℕ)
    → IsCounted s
    → IsCounted (syscall_register s number handler).1
register-IsCounted s number handler v = elim (register_outcome s number handler v) [
  | inl (why, out) ↦ subst (λ (o : ℤ × System). IsCounted o.1) (sym out) v
  | inr (l, ok, w, same, others) ↦ w
]

no_handlers :
    (xs : List ℕ)
    → (length (map no_handler xs) ≡ length xs) × (count_if has_handler (map no_handler xs) ≡ 0)
unfolding count_if
no_handlers [] = (refl, refl)
no_handlers (x ∷ xs) = let (l, n) = no_handlers xs in (ap suc l, omega (arith, n))

-- The start leaves a counted table.
pub syscall_init-IsCounted :
    (s : System) (gettid sched_yield gettid_user : ℕ)
    → length s.table ≡ max_syscalls
    → IsCounted (syscall_init s gettid sched_yield gettid_user)
unfolding syscall_init
syscall_init-IsCounted s gettid sched_yield gettid_user storage =
    let (l, n) = no_handlers s.table in
    let cleared : System = record s {
      table = map no_handler s.table;
      registered_count = 0;
      seccomp = init;
    } in
    let one = (syscall_register cleared sys_gettid_number gettid).1 in
    let two = (syscall_register one sys_sched_yield_number sched_yield).1 in
    register-IsCounted two sys_gettid_user_number gettid_user (
      register-IsCounted one sys_sched_yield_number sched_yield (
        register-IsCounted cleared sys_gettid_number gettid
          (record { storage = l ∙ storage; counted = sym n })))

-- Where a handler is registered with success on a counted table, and the system call is allowed without audit,
-- the dispatch of its number runs that handler on the arguments and gives its answer.
pub register_dispatch :
    (run_handler : ℕ → List ℕ → System → ℤ × System) (s : System) (current : Option ℕ)
    (number handler : ℕ) (args : List ℕ)
    → IsCounted s
    → (syscall_register s number handler).0 ≡ pos 0
    → get_syscall_action s.seccomp number ≡ allow
    → let s' = (syscall_register s number handler).1 in
      syscall_dispatch run_handler s' current number args ≡ run_handler handler args s'
unfolding syscall_dispatch syscall_register call_handler log_call
register_dispatch run_handler s current number handler args v ok allowed =
    elim (Bool-cases (leb max_syscalls number || (handler == 0))) [
      | inl bad ↦
          let answer : (syscall_register s number handler).0 ≡ neg 1 =
            rw (syscall_register, bad) refl in
          absurd (ground (arith, ok, answer))
      | inr good ↦
          let l : number < max_syscalls = ground (arith, good) in
          let low : leb max_syscalls number ≡ false = ground (arith, good) in
          let given : (handler == 0) ≡ false = ground (arith, good) in
          let here : get_or (set s.table number handler) number 0 ≡ handler =
            get_or-set_self s.table number handler 0 (omega (arith, v.storage, l)) in
          rw
            (
              syscall_register, good, syscall_dispatch, low, allowed, log_call, here, call_handler,
              given,
            )
            refl
    ]
