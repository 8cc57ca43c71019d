-- ===== src/Sched/Handoff.antt =====
-- kernel/sched/sched.c: how the running task gives up the processor: `sched_yield`,
-- `sched_preempt_on_tick`, `sched_task_exit`, and the timer tick.
use native.Mathlib.Decide.{dec_lt}
use gnu_os.Base.{
  ℕ, ◌<◌, ◌≡◌, ◌≢◌, refl, sym, ap, ◌∙◌, subst, ◌⊎◌, inl, inr, true, false, Bool-cases, arith, ◌==◌,
  if◌then◌else◌, List, [], ◌∷◌, ◌++◌, some, length, get_or, length-set, inc64,
}
use gnu_os.Ring.{Ring}
use gnu_os.Sched.State.{
  ready, exited, Task, reset_task, Current, null, bootstrap, task, Sched, max_tasks, index_none,
  is_ready, is_running, task_at, set_task, set_state, enqueue_task,
}
use gnu_os.Sched.Switch.{
  running_task, to_bootstrap, requeue, yield_to_bootstrap, preempt_on_tick, task_exit,
}
use gnu_os.Sched.Pick.Kept.{entries, with_queue}
use gnu_os.Sched.Consistent.{
  IsConsistent, Runs, is_current, Queued-ready, Queued-other, get_or-beyond, index_of,
}
use gnu_os.Sched.Running.{Runs-stop}

Current-cases :
    (c : Current)
    → ((index_of c ≡ index_none) × ((i : ℕ) → is_current c i ≡ false)) ⊎ ((i : ℕ) × (c ≡ task i))
Current-cases null = inl (refl, λ i. refl)
Current-cases bootstrap = inl (refl, λ i. refl)
Current-cases (task i) = inr (i, refl)

-- A running task is in the table, and is not ready.
running_in_table :
    (tasks : List Task) (i : ℕ)
    → is_running (get_or tasks i reset_task).state ≡ true
    → i < length tasks
running_in_table tasks i h = elim (dec_lt i (length tasks)) [
  | yes l ↦ l
  | no l ↦
      absurd (ground (arith, ap (λ t. is_running t.state) (get_or-beyond tasks i (omega arith)), h))
]

pub running_not_ready : (t : Task) → is_running t.state ≡ true → is_ready t.state ≡ false
running_not_ready t h = ground arith

pub current_running :
    (s : Sched) (i : ℕ)
    → IsConsistent s
    → s.current ≡ task i
    → is_running (task_at s i).state ≡ true
current_running s i v e = v.runs i ∙ ap (λ c. is_current c i) e ∙ ground arith

pub current_in_table : (s : Sched) (i : ℕ) → IsConsistent s → s.current ≡ task i → i < max_tasks
current_in_table s i v e =
    subst (λ n. i < n) v.storage (running_in_table s.tasks i (current_running s i v e))

-- `running_task` finds exactly the task that is current.
pub running_task_lem :
    (s : Sched) (i : ℕ) → IsConsistent s → s.current ≡ task i → running_task s ≡ some i
unfolding running_task
running_task_lem s i v e =
    let runs = current_running s i v e in
    let index : s.current_index ≡ i = v.indexed ∙ ap index_of e in
    let l = current_in_table s i v e in
    let there : (s.current_index == index_none) ≡ false = ground arith in
    rw (running_task, e, runs, there) refl

-- The running task always finds room in the ready queue.
pub requeue_succeeds :
    (s : Sched) (i : ℕ)
    → IsConsistent s
    → s.current ≡ task i
    → (q : Ring ℕ) × (requeue s i ≡ some (with_queue (set_state s i ready) q))
      × (entries q ≡ entries s.ready_queue ++ (i ∷ []))
      × IsConsistent (to_bootstrap (with_queue (set_state s i ready) q))
unfolding requeue
requeue_succeeds s i v e =
    let runs = current_running s i v e in
    let l = current_in_table s i v e in
    let index : s.current_index ≡ i = v.indexed ∙ ap index_of e in
    let t : Task = record (task_at s i) { state = ready } in
    let (q, put, queued, c) =
      Queued-ready s i t v.storage v.queued l (running_not_ready (task_at s i) runs) refl in
    (
      q,
      ap (λ k. enqueue_task (set_state s i ready) k) index ∙ put,
      c,
      record {
        storage = length-set s.tasks i t ∙ v.storage;
        queued = queued;
        runs = Runs-stop s.tasks i t (omega arith) (subst (λ c. Runs s.tasks c) e v.runs) refl;
        indexed = refl;
      },
    )

-- `sched_yield` by the current task of a consistent scheduler always switches: the task becomes ready,
-- goes to the end of the ready queue, and the bootstrap task takes over in a consistent state.
pub yield_outcome :
    (s : Sched) (i : ℕ)
    → IsConsistent s
    → s.current ≡ task i
    → (q : Ring ℕ) × (yield_to_bootstrap s ≡ to_bootstrap (with_queue (set_state s i ready) q))
      × (entries q ≡ entries s.ready_queue ++ (i ∷ []))
      × IsConsistent (yield_to_bootstrap s)
unfolding yield_to_bootstrap
yield_outcome s i v e =
    let (q, put, c, w) = requeue_succeeds s i v e in
    let out : yield_to_bootstrap s ≡ to_bootstrap (with_queue (set_state s i ready) q) =
      rw (yield_to_bootstrap, running_task_lem s i v e, put) refl in
    (q, out, c, subst IsConsistent (sym out) w)

-- The state in which a preempted task has given way.
abbrev pub preempted : Sched → ℕ → Ring ℕ → Sched
preempted s i q = to_bootstrap (record (with_queue (set_state s i ready) q) {
  need_resched = 0;
  preempt_switches = inc64 s.preempt_switches;
  preempt_log_emitted = if s.preempt_log_emitted == 0 then 1 else s.preempt_log_emitted;
})

-- The answers of `sched_preempt_on_tick`: no reschedule asked for, and a switch.
abbrev pub PreemptAnswers : Sched → ℕ → Type 0
PreemptAnswers s i =
    ((s.need_resched ≡ 0) × (preempt_on_tick s ≡ (0, s)))
    ⊎ ((s.need_resched ≢ 0)
        × (q : Ring ℕ) × (preempt_on_tick s ≡ (1, preempted s i q))
        × (entries q ≡ entries s.ready_queue ++ (i ∷ []))
        × IsConsistent (preempt_on_tick s).1)

-- `sched_preempt_on_tick` in a consistent scheduler whose current task is `i`: nothing happens unless a
-- reschedule was asked for; otherwise it answers 1, the request is cleared, the switch is counted, the
-- task is ready at the end of the ready queue, and the bootstrap task takes over.
pub preempt_outcome : (s : Sched) (i : ℕ) → IsConsistent s → s.current ≡ task i → PreemptAnswers s i
unfolding preempt_on_tick
preempt_outcome s i v e = elim (Bool-cases (s.need_resched == 0)) [
  | inl none_asked ↦ inl (ground arith, rw (preempt_on_tick, none_asked) refl)
  | inr asked ↦
      let (q, put, c, w) = requeue_succeeds s i v e in
      let out : preempt_on_tick s ≡ (1, preempted s i q) =
        rw (preempt_on_tick, asked, running_task_lem s i v e, put) refl in
      inr (ground arith, q, out, c, subst (λ o. IsConsistent o.1) (sym out) w)
]

-- The state that `sched_task_exit` leaves.
abbrev pub after_exit : Sched → ℕ → Sched
after_exit s i =
    to_bootstrap (set_task s i (record (task_at s i) { state = exited; entry = 0; arg = 0 }))

-- `sched_task_exit` by the current task of a consistent scheduler does not panic: the task is exited and
-- not in the ready queue, and the bootstrap task takes over in a consistent state.
pub exit_outcome :
    (s : Sched) (i : ℕ)
    → IsConsistent s
    → s.current ≡ task i
    → (task_exit s ≡ some (after_exit s i)) × IsConsistent (after_exit s i)
unfolding task_exit
exit_outcome s i v e =
    let runs = current_running s i v e in
    let l = current_in_table s i v e in
    let t : Task = record (task_at s i) { state = exited; entry = 0; arg = 0 } in
    (
      rw (task_exit, e) refl,
      record {
        storage = length-set s.tasks i t ∙ v.storage;
        queued =
            Queued-other s.tasks s.ready_queue i t (omega arith) v.queued
              (running_not_ready (task_at s i) runs) refl;
        runs = Runs-stop s.tasks i t (omega arith) (subst (λ c. Runs s.tasks c) e v.runs) refl;
        indexed = refl;
      },
    )
