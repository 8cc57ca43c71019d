-- ===== src/Sched/WaitQueue.antt =====
-- kernel/sched/sched.c: wait queues. The queue pointer is never NULL here; the functions answer 0 and
-- change nothing for NULL.
use gnu_os.Base.{ℕ, zero, suc, ◌+◌, not, ◌||◌, Option, none, some, leb, ◌==◌, if◌then◌else◌}
use gnu_os.Ring.{Ring, enqueue, dequeue}
use gnu_os.Sched.State.{
  ready, blocked, Sched, max_tasks, is_blocked, task_at, set_state, enqueue_task,
}
use gnu_os.Sched.Switch.{running_task, to_bootstrap}

-- `wait_queue_t`
abbrev pub WaitQueue : Type 0
WaitQueue = Ring ℕ

-- `sched_wait_queue_init`
unfoldable pub wait_queue_init : WaitQueue → WaitQueue
wait_queue_init q = record q { head = 0; tail = 0; size = 0 }

-- `sched_waitq_enqueue` and `sched_waitq_dequeue`
unfoldable pub waitq_enqueue : WaitQueue → ℕ → Option WaitQueue
waitq_enqueue q i = enqueue max_tasks q i

unfoldable pub waitq_dequeue : WaitQueue → Option (ℕ × WaitQueue)
waitq_dequeue q = dequeue max_tasks 0 q

-- The answer, the queue, and the state at the context switch.
unfoldable pub wait_queue_wait : WaitQueue → Sched → ℕ × WaitQueue × Sched
wait_queue_wait q s = elim (running_task s) [
  | none ↦ (0, q, s)
  | some i ↦ elim (waitq_enqueue q s.current_index) [
    | none ↦ (0, q, s)
    | some q' ↦ (1, q', to_bootstrap (set_state s i blocked))
  ]
]

abbrev pub or_same : Option WaitQueue → WaitQueue → WaitQueue
or_same none q = q
or_same (some q') q = q'

-- A blocked task is made ready; where the ready queue is full it goes back to the wait queue.
unfoldable pub wake_task : WaitQueue → Sched → ℕ → ℕ × WaitQueue × Sched
wake_task q s i = elim (enqueue_task (set_state s i ready) i) [
  | none ↦ (0, or_same (waitq_enqueue q i) q, set_state (set_state s i ready) i blocked)
  | some s' ↦ (1, q, record s' { need_resched = 1 })
]

-- The loop of `sched_wake_one_locked`: attempts left.
unfoldable pub wake_one_from : ℕ → WaitQueue → Sched → ℕ × WaitQueue × Sched
wake_one_from zero q s = (0, q, s)
wake_one_from (suc attempts) q s = elim (waitq_dequeue q) [
  | none ↦ (0, q, s)
  | some (i, q') ↦
      let rest = wake_one_from attempts q' s in
      if leb max_tasks i || not (is_blocked (task_at s i).state) then rest else wake_task q' s i
]

unfoldable pub wake_one_locked : WaitQueue → Sched → ℕ × WaitQueue × Sched
wake_one_locked q s = wake_one_from q.size q s

-- The loop of `sched_wait_queue_wake_all` on fuel, with the count so far; `none` is fuel run out.
unfoldable pub wake_all_from : ℕ → ℕ → WaitQueue → Sched → Option (ℕ × WaitQueue × Sched)
wake_all_from zero woke q s = none
wake_all_from (suc fuel) woke q s =
    let (one, q', s') = wake_one_locked q s in
    let rest = wake_all_from fuel (woke + 1) q' s' in if one == 0 then some (woke, q', s') else rest
