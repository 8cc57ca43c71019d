-- ===== src/Sched/Wake.antt =====
-- kernel/sched/sched.c: going to sleep on a wait queue and being woken: `sched_wait_queue_wait`,
-- `sched_wait_queue_wake_one`, `sched_wait_queue_wake_all`.
use native.Mathlib.Decide.{dec_lt}
use gnu_os.Base.{
  ℕ, ◌+◌, ◌≤◌, ◌<◌, ◌≡◌, ◌≢◌, refl, ap, ◌∙◌, subst, ◌⊎◌, inl, inr, Bool, true, false, arith, [],
  ◌∷◌, ◌++◌, none, some, length-set,
}
use gnu_os.Ring.{Ring, IsValid}
use gnu_os.Ring.Refine.{enqueue_grows, enqueue_full, dequeue_shrinks}
use gnu_os.Sched.State.{
  ready, blocked, Task, task, Sched, max_tasks, is_ready, is_running, is_blocked, task_at,
  set_state,
}
use gnu_os.Sched.Switch.{to_bootstrap}
use gnu_os.Sched.WaitQueue.{WaitQueue, waitq_enqueue, waitq_dequeue, wait_queue_wait, wake_task}
use gnu_os.Sched.Pick.Kept.{entries, with_queue}
use gnu_os.Sched.Consistent.{
  IsConsistent, Runs, Queued-ready, Queued-other, get_or-beyond, index_of,
}
use gnu_os.Sched.Running.{Runs-other, Runs-stop}
use gnu_os.Sched.Handoff.{current_running, current_in_table, running_task_lem, running_not_ready}

pub waitq_enqueue_grows :
    (q : WaitQueue) (i : ℕ)
    → IsValid max_tasks q
    → q.size < max_tasks
    → (q' : WaitQueue) × (waitq_enqueue q i ≡ some q')
      × IsValid max_tasks q'
      × (entries q' ≡ entries q ++ (i ∷ []))
unfolding waitq_enqueue
waitq_enqueue_grows q i v l =
    let (q', e, v', c, _, _) = enqueue_grows max_tasks 0 q i v l in (q', e, v', c)

waitq_enqueue_full : (q : WaitQueue) (i : ℕ) → max_tasks ≤ q.size → waitq_enqueue q i ≡ none
unfolding waitq_enqueue
waitq_enqueue_full q i l = enqueue_full max_tasks 0 q i l

pub waitq_dequeue_shrinks :
    (q : WaitQueue)
    → IsValid max_tasks q
    → q.size ≢ 0
    → (i : ℕ) × (q' : WaitQueue) × (waitq_dequeue q ≡ some (i, q'))
      × IsValid max_tasks q'
      × (entries q ≡ i ∷ entries q')
      × (q'.size + 1 ≡ q.size)
unfolding waitq_dequeue
waitq_dequeue_shrinks q v some_left =
    let (i, q', taken, v', c, less, _, _) = dequeue_shrinks max_tasks 0 q v some_left in
    (i, q', taken, v', c, less)

-- The state in which the current task sleeps.
abbrev pub asleep : Sched → ℕ → Sched
asleep s i = to_bootstrap (set_state s i blocked)

pub asleep-IsConsistent :
    (s : Sched) (i : ℕ) → IsConsistent s → s.current ≡ task i → IsConsistent (asleep s i)
asleep-IsConsistent s i v e =
    let runs = current_running s i v e in
    let l = current_in_table s i v e in
    let t : Task = record (task_at s i) { state = blocked } in
    record {
      storage = length-set s.tasks i t ∙ v.storage;
      queued =
          Queued-other s.tasks s.ready_queue i t (omega arith) v.queued
            (running_not_ready (task_at s i) runs) refl;
      runs = Runs-stop s.tasks i t (omega arith) (subst (λ c. Runs s.tasks c) e v.runs) refl;
      indexed = refl;
    }

-- The answers of `sched_wait_queue_wait`: a full wait queue, and a task that sleeps.
abbrev pub WaitAnswers : WaitQueue → Sched → ℕ → Type 0
WaitAnswers q s i =
    ((q.size ≡ max_tasks) × (wait_queue_wait q s ≡ (0, q, s)))
    ⊎ ((q.size < max_tasks)
        × (q' : WaitQueue) × (wait_queue_wait q s ≡ (1, q', asleep s i))
        × (entries q' ≡ entries q ++ (i ∷ []))
        × IsValid max_tasks q'
        × IsConsistent (asleep s i))

-- `sched_wait_queue_wait` by the current task of a consistent scheduler on a valid wait queue: with 128
-- entries in it the answer is 0 and nothing changes; otherwise the task is blocked and last in the wait
-- queue, the bootstrap task takes over in a consistent state, and the answer is 1.
pub wait_outcome :
    (q : WaitQueue) (s : Sched) (i : ℕ)
    → IsValid max_tasks q
    → IsConsistent s
    → s.current ≡ task i
    → WaitAnswers q s i
unfolding wait_queue_wait
wait_outcome q s i w v e =
    let index : s.current_index ≡ i = v.indexed ∙ ap index_of e in
    elim (dec_lt q.size max_tasks) [
      | yes l ↦
          let (q', put, w', c) = waitq_enqueue_grows q i w l in
          inr (
            l,
            q',
            rw (wait_queue_wait, running_task_lem s i v e, index, put) refl,
            c,
            w',
            asleep-IsConsistent s i v e,
          )
      | no l ↦ inl (
        omega (arith, w.size_in),
        rw
            (
              wait_queue_wait,
              running_task_lem s i v e,
              waitq_enqueue_full q s.current_index (omega arith),
            )
            refl,
      )
    ]

abbrev pub blocked_at : Sched → ℕ → Bool
blocked_at s i = is_blocked (task_at s i).state

-- The state in which a blocked task was made ready.
abbrev pub woken : Sched → ℕ → Ring ℕ → Sched
woken s i q = record (with_queue (set_state s i ready) q) { need_resched = 1 }

pub blocked_in_table : (s : Sched) (i : ℕ) → IsConsistent s → blocked_at s i ≡ true → i < max_tasks
blocked_in_table s i v h = elim (dec_lt i max_tasks) [
  | yes l ↦ l
  | no l ↦ absurd (
      ground (
        arith,
        ap (λ t. is_blocked t.state) (get_or-beyond s.tasks i (omega (arith, v.storage))),
        h,
      ))
]

pub blocked_not_ready : (t : Task) → is_blocked t.state ≡ true → is_ready t.state ≡ false
blocked_not_ready t h = ground arith

pub blocked_not_running : (t : Task) → is_blocked t.state ≡ true → is_running t.state ≡ false
blocked_not_running t h = ground arith

-- A blocked task always finds room in the ready queue.
pub wake_succeeds :
    (q : WaitQueue) (s : Sched) (i : ℕ)
    → IsConsistent s
    → blocked_at s i ≡ true
    → (r : Ring ℕ) × (wake_task q s i ≡ (1, q, woken s i r))
      × (entries r ≡ entries s.ready_queue ++ (i ∷ []))
      × IsConsistent (woken s i r)
unfolding wake_task
wake_succeeds q s i v h =
    let l = blocked_in_table s i v h in
    let t : Task = record (task_at s i) { state = ready } in
    let (r, put, queued, c) =
      Queued-ready s i t v.storage v.queued l (blocked_not_ready (task_at s i) h) refl in
    (
      r,
      rw (wake_task, put) refl,
      c,
      record {
        storage = length-set s.tasks i t ∙ v.storage;
        queued = queued;
        runs =
            Runs-other s.tasks i t s.current (omega (arith, v.storage)) v.runs
              (blocked_not_running (task_at s i) h);
        indexed = v.indexed;
      },
    )
