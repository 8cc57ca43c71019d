-- ===== src/Sched/Consistent.antt =====
-- kernel/sched/sched.c: when the scheduler's variables fit together, and what a change of one task
-- does to that.
use native.Mathlib.Decide.{ℕ_discrete}
use gnu_os.Base.{
  ℕ, zero, suc, ◌≤◌, ◌<◌, ◌≡◌, refl, sym, ap, ◌∙◌, subst, Bool, true, false, arith, ◌==◌, List, [],
  ◌∷◌, ◌++◌, some, length, get_or, set, get_or-set_self, get_or-set_ne,
}
use gnu_os.Base.Occurs.{one_if, occurs, occurs_append, length-lt}
use gnu_os.Ring.{Ring, IsValid}
use gnu_os.Ring.Refine.{length-contents}
use gnu_os.Sched.State.{
  Task, reset_task, Current, task, Sched, max_tasks, index_none, is_ready, is_running, task_at,
  set_task, enqueue_task,
}
use gnu_os.Sched.Pick.Kept.{entries, with_queue, enqueue_task_grows}

abbrev pub is_current : Current → ℕ → Bool
is_current (task i) j = i == j
is_current _ j = false

abbrev pub index_of : Current → ℕ
index_of (task i) = i
index_of _ = index_none

-- The ready queue is valid, and holds each ready task once and nothing else.
pub record Queued (tasks : List Task) (q : Ring ℕ) : Type 0 where
  pub ring : IsValid max_tasks q
  pub exact : (j : ℕ) → occurs j (entries q) ≡ one_if (is_ready (get_or tasks j reset_task).state)

-- The one task that runs is the current one.
abbrev pub Runs : List Task → Current → Type 0
Runs tasks c = (j : ℕ) → is_running (get_or tasks j reset_task).state ≡ is_current c j

-- The variables that have to fit together.
pub record Fits (tasks : List Task) (q : Ring ℕ) (current : Current) (current_index : ℕ)
    : Type 0 where
  pub storage : length tasks ≡ max_tasks
  pub queued : Queued tasks q
  pub runs : Runs tasks current
  pub indexed : current_index ≡ index_of current

abbrev pub IsConsistent : Sched → Type 0
IsConsistent s = Fits s.tasks s.ready_queue s.current s.current_index

pub get_or-beyond :
    (tasks : List Task) (j : ℕ) → length tasks ≤ j → get_or tasks j reset_task ≡ reset_task
get_or-beyond [] j l = refl
get_or-beyond (t ∷ tasks) zero l = absurd (omega arith)
get_or-beyond (t ∷ tasks) (suc j) l = get_or-beyond tasks j (omega arith)

one_if-le : (b : Bool) → one_if b ≤ 1
one_if-le true = omega arith
one_if-le false = omega arith

-- A change of one task that leaves a test on states as it was leaves it so at every slot.
is_ready-set_same :
    (tasks : List Task) (i : ℕ) (t : Task) (j : ℕ)
    → i < length tasks
    → is_ready (get_or tasks i reset_task).state ≡ is_ready t.state
    → is_ready (get_or (set tasks i t) j reset_task).state
      ≡ is_ready (get_or tasks j reset_task).state
is_ready-set_same tasks i t j l e = elim (ℕ_discrete i j) [
  | yes same ↦
      subst
        (λ k.
          is_ready (get_or (set tasks i t) k reset_task).state
          ≡ is_ready (get_or tasks k reset_task).state)
        same (ap (λ x. is_ready x.state) (get_or-set_self tasks i t reset_task l) ∙ sym e)
  | no ne ↦ ap (λ x. is_ready x.state) (get_or-set_ne tasks i j t reset_task ne)
]

exact_ready :
    (tasks : List Task) (i : ℕ) (t : Task) (es : List ℕ) (j : ℕ)
    → i < length tasks
    → is_ready (get_or tasks i reset_task).state ≡ false
    → is_ready t.state ≡ true
    → occurs j es ≡ one_if (is_ready (get_or tasks j reset_task).state)
    → occurs j (es ++ (i ∷ [])) ≡ one_if (is_ready (get_or (set tasks i t) j reset_task).state)
exact_ready tasks i t es j l h k e = elim (ℕ_discrete i j) [
  | yes same ↦
      let before : occurs j es ≡ 0 =
        e
        ∙ ap (λ n. one_if (is_ready (get_or tasks n reset_task).state)) (sym same)
        ∙ ap one_if h in
      let after : is_ready (get_or (set tasks i t) j reset_task).state ≡ true =
        ap (λ n. is_ready (get_or (set tasks i t) n reset_task).state) (sym same)
        ∙ ap (λ x. is_ready x.state) (get_or-set_self tasks i t reset_task l)
        ∙ k in
      ground (arith, occurs_append j es (i ∷ []), after, before)
  | no ne ↦
      let after = ap (λ x. one_if (is_ready x.state)) (get_or-set_ne tasks i j t reset_task ne) in
      ground (arith, occurs_append j es (i ∷ []), after, e)
]

-- While a task is not ready there is room for it.
pub room :
    (tasks : List Task) (q : Ring ℕ) (i : ℕ)
    → length tasks ≡ max_tasks
    → Queued tasks q
    → i < max_tasks
    → is_ready (get_or tasks i reset_task).state ≡ false
    → q.size < max_tasks
room tasks q i n v l h =
    subst (λ k. k < max_tasks) (length-contents max_tasks 0 q)
      (length-lt max_tasks i (entries q)
        (λ j k.
          v.exact j ∙ ap (λ t. one_if (is_ready t.state)) (get_or-beyond tasks j (omega arith)))
        (λ j.
          subst (λ k. k ≤ 1) (sym (v.exact j))
            (one_if-le (is_ready (get_or tasks j reset_task).state)))
        l (v.exact i ∙ ap one_if h))

-- A task that was not ready becomes ready and joins the queue.
pub Queued-ready :
    (s : Sched) (i : ℕ) (t : Task)
    → length s.tasks ≡ max_tasks
    → Queued s.tasks s.ready_queue
    → i < max_tasks
    → is_ready (task_at s i).state ≡ false
    → is_ready t.state ≡ true
    → (q : Ring ℕ) × (enqueue_task (set_task s i t) i ≡ some (with_queue (set_task s i t) q))
      × Queued (set s.tasks i t) q
      × (entries q ≡ entries s.ready_queue ++ (i ∷ []))
Queued-ready s i t n v l h k =
    let space : s.ready_queue.size < max_tasks = room s.tasks s.ready_queue i n v l h in
    let (q, e, ring, c, _) = enqueue_task_grows (set_task s i t) i v.ring space in
    (
      q,
      e,
      record {
        ring = ring;
        exact = λ j.
            ap (occurs j) c
            ∙ exact_ready s.tasks i t (entries s.ready_queue) j (omega arith) h k (v.exact j);
      },
      c,
    )

-- A change of a task that was not ready and is not.
pub Queued-other :
    (tasks : List Task) (q : Ring ℕ) (i : ℕ) (t : Task)
    → i < length tasks
    → Queued tasks q
    → is_ready (get_or tasks i reset_task).state ≡ false
    → is_ready t.state ≡ false
    → Queued (set tasks i t) q
Queued-other tasks q i t l v h k = record {
  ring = v.ring;
  exact = λ j. v.exact j ∙ ap one_if (sym (is_ready-set_same tasks i t j l (h ∙ sym k)));
}
