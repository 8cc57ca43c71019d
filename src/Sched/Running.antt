-- ===== src/Sched/Running.antt =====
-- kernel/sched/sched.c: the one running task, when a task slot changes.
use native.Mathlib.Decide.{ℕ_discrete}
use gnu_os.Base.{
  ℕ, ◌<◌, ◌≡◌, sym, ap, ◌∙◌, subst, true, false, arith, ◌==◌, List, length, get_or, set,
  get_or-set_self, get_or-set_ne,
}
use gnu_os.Sched.State.{Task, reset_task, Current, bootstrap, task, is_running}
use gnu_os.Sched.Consistent.{Runs}

is_running-set_same :
    (tasks : List Task) (i : ℕ) (t : Task) (j : ℕ)
    → i < length tasks
    → is_running (get_or tasks i reset_task).state ≡ is_running t.state
    → is_running (get_or (set tasks i t) j reset_task).state
      ≡ is_running (get_or tasks j reset_task).state
is_running-set_same tasks i t j l e = elim (ℕ_discrete i j) [
  | yes same ↦
      subst
        (λ k.
          is_running (get_or (set tasks i t) k reset_task).state
          ≡ is_running (get_or tasks k reset_task).state)
        same (ap (λ x. is_running x.state) (get_or-set_self tasks i t reset_task l) ∙ sym e)
  | no ne ↦ ap (λ x. is_running x.state) (get_or-set_ne tasks i j t reset_task ne)
]

pub Runs-other :
    (tasks : List Task) (i : ℕ) (t : Task) (c : Current)
    → i < length tasks
    → Runs tasks c
    → is_running (get_or tasks i reset_task).state ≡ is_running t.state
    → Runs (set tasks i t) c
Runs-other tasks i t c l v e j = is_running-set_same tasks i t j l e ∙ v j

-- The running task gives way to the bootstrap task.
pub Runs-stop :
    (tasks : List Task) (i : ℕ) (t : Task)
    → i < length tasks
    → Runs tasks (task i)
    → is_running t.state ≡ false
    → Runs (set tasks i t) bootstrap
Runs-stop tasks i t l v h j = elim (ℕ_discrete i j) [
  | yes same ↦
      subst (λ k. is_running (get_or (set tasks i t) k reset_task).state ≡ false) same
        (ap (λ x. is_running x.state) (get_or-set_self tasks i t reset_task l) ∙ h)
  | no ne ↦
      let other : (i == j) ≡ false = ground arith in
      ap (λ x. is_running x.state) (get_or-set_ne tasks i j t reset_task ne) ∙ v j ∙ other
]

-- The bootstrap task gives way to a task.
pub Runs-start :
    (tasks : List Task) (i : ℕ) (t : Task)
    → i < length tasks
    → Runs tasks bootstrap
    → is_running t.state ≡ true
    → Runs (set tasks i t) (task i)
Runs-start tasks i t l v h j = elim (ℕ_discrete i j) [
  | yes same ↦
      let here : (i == j) ≡ true = ground arith in
      subst (λ k. is_running (get_or (set tasks i t) k reset_task).state ≡ true) same
        (ap (λ x. is_running x.state) (get_or-set_self tasks i t reset_task l) ∙ h)
      ∙ sym here
  | no ne ↦
      let other : (i == j) ≡ false = ground arith in
      ap (λ x. is_running x.state) (get_or-set_ne tasks i j t reset_task ne) ∙ v j ∙ sym other
]
