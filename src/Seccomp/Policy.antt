-- ===== src/Seccomp/Policy.antt =====
-- kernel/security/seccomp.c: which action a system call gets.
use gnu_os.Base.{
  ℕ, ◌≤◌, ◌<◌, ◌≡◌, refl, sym, ap, ◌∙◌, subst, ◌⊎◌, inl, inr, Bool, true, false, not, ◌&&◌, ◌||◌,
  Bool-cases, arith, ℤ, pos, neg, leb, ltb, ◌==◌, if◌then◌else◌, get_or, set, length, get_or-set,
  length-set, length-replicate,
}
use gnu_os.Seccomp.{
  Seccomp, max_syscalls, unset, action_valid, init, set_default_action, set_syscall_action,
  get_syscall_action,
}

-- The table has a place for each system call.
abbrev pub HasTable : Seccomp → Type 0
HasTable s = length s.overrides ≡ max_syscalls

valid_set : (action : ℕ) → action_valid action ≡ true → (action == unset) ≡ false
unfolding action_valid
valid_set action h = ground arith

-- The two answers of `seccomp_set_syscall_action`.
abbrev pub SetAnswers : Seccomp → (n action : ℕ) → ℤ × Seccomp → Type 0
SetAnswers s n action out =
    (((max_syscalls ≤ n) ⊎ (action_valid action ≡ false)) × (out ≡ (neg 1, s)))
    ⊎ ((n < max_syscalls)
        × (action_valid action ≡ true)
        × (out.0 ≡ pos 0)
        × HasTable out.1
        × ((m : ℕ)
            → get_syscall_action out.1 m ≡ (if m == n then action else get_syscall_action s m)))

get_after_set :
    (s : Seccomp) (n action m : ℕ)
    → HasTable s
    → n < max_syscalls
    → action_valid action ≡ true
    → get_syscall_action (record s { overrides = set s.overrides n action }) m
      ≡ (if m == n then action else get_syscall_action s m)
unfolding get_syscall_action
get_after_set s n action m t l known = elim (Bool-cases (m == n)) [
  | inl same ↦
      let here : get_or (set s.overrides n action) m unset ≡ action =
        get_or-set s.overrides n m action unset (omega (arith, t)) ∙ rw same refl in
      let low : ltb m max_syscalls ≡ true = ground arith in
      rw (here, low, valid_set action known, same) refl
  | inr other ↦
      let there : get_or (set s.overrides n action) m unset ≡ get_or s.overrides m unset =
        get_or-set s.overrides n m action unset (omega (arith, t)) ∙ rw other refl in
      rw (there, other) refl
]

-- `seccomp_set_syscall_action` on a table of 512 places: -1 with nothing changed for a number out of
-- range or an unknown action; otherwise 0, and from then on `seccomp_get_syscall_action` gives the new
-- action for that system call, and what it gave before for any other.
pub set_action_outcome :
    (s : Seccomp) (n action : ℕ)
    → HasTable s
    → SetAnswers s n action (set_syscall_action s n action)
unfolding set_syscall_action
set_action_outcome s n action t =
    elim (Bool-cases (leb max_syscalls n || not (action_valid action))) [
      | inl bad ↦ inl (
        elim (Bool-cases (action_valid action)) [
          | inl known ↦ inl (ground (arith, bad, known))
          | inr unknown ↦ inr unknown
        ],
        rw (set_syscall_action, bad) refl,
      )
      | inr good ↦
          let l : n < max_syscalls = ground (arith, good) in
          let known : action_valid action ≡ true = ground (arith, good) in
          let done : set_syscall_action s n action
              ≡ (pos 0, record s { overrides = set s.overrides n action }) =
            rw (set_syscall_action, good) refl in
          inr (
            l,
            known,
            ap (λ o. o.0) done,
            subst (λ (o : ℤ × Seccomp). HasTable o.1) (sym done)
                (length-set s.overrides n action ∙ t),
            λ m. ap (λ o. get_syscall_action o.1 m) done ∙ get_after_set s n action m t l known,
          )
    ]

-- Whether a system call has an action of its own.
abbrev pub overridden : Seccomp → ℕ → Bool
overridden s m = ltb m max_syscalls && not (get_or s.overrides m unset == unset)

-- After `seccomp_set_default_action`, a system call with an action of its own keeps it, and every other
-- one gets the new default if that is a known action, and keeps its action if it is not.
pub default_action_outcome :
    (s : Seccomp) (m action : ℕ)
    → get_syscall_action (set_default_action s action) m
      ≡ (if action_valid action && not (overridden s m) then action else get_syscall_action s m)
unfolding set_default_action get_syscall_action
default_action_outcome s m action = elim (Bool-cases (action_valid action)) [
  | inr unknown ↦ rw (set_default_action, unknown) refl
  | inl known ↦ elim (Bool-cases (overridden s m)) [
    | inl own ↦ rw (set_default_action, known, own) refl
    | inr none ↦ rw (set_default_action, known, none) refl
  ]
]

pub init-HasTable : HasTable init
unfolding init
init-HasTable = length-replicate max_syscalls unset
