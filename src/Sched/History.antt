-- ===== src/Sched/History.antt =====
-- kernel/sched/sched.c: sequences of its calls, in the order in which they take `g_sched_lock`.
use gnu_os.Base.{
  ℕ, ◌+◌, ◌≡◌, refl, sym, ap, arith, List, [], ◌∷◌, length, get_or-replicate, length-replicate,
}
use gnu_os.Base.Occurs.{one_if}
use gnu_os.Sched.State.{Sched, max_tasks, reset_task, init, is_ready, is_running}
use gnu_os.Sched.Pick.{run}
use gnu_os.Sched.Switch.{
  tick, request_resched, yield_to_bootstrap, preempt_on_tick, task_exit, create_kernel_task,
}
use gnu_os.Sched.WaitQueue.{WaitQueue, wait_queue_wait, wake_one_locked, wake_all_from}
use gnu_os.Sched.Consistent.{IsConsistent}
use gnu_os.Sched.Create.{create_task_outcome}
use gnu_os.Sched.Keeps.{
  state_or, woken_all, yield-IsConsistent, preempt-IsConsistent, exit-IsConsistent,
  run-IsConsistent, wait-IsConsistent, wake_one-IsConsistent, wake_all-IsConsistent,
  tick-IsConsistent,
}

-- The calls that change the scheduler. A wait queue is any queue: nothing is asked of it here.
pub data Call : Type 0 where
  run_next yields preempts ticks asks exits : Call
  creates : (name entry arg page : ℕ) → Call
  waits wakes_one wakes_all : WaitQueue → Call

unfoldable pub step : Sched → Call → Sched
step s run_next = (run s).1
step s yields = yield_to_bootstrap s
step s preempts = (preempt_on_tick s).1
step s ticks = tick s
step s asks = request_resched s
step s exits = state_or s (task_exit s)
step s (creates name entry arg page) = (create_kernel_task s name entry arg page).1
step s (waits q) = (wait_queue_wait q s).2
step s (wakes_one q) = (wake_one_locked q s).2
step s (wakes_all q) = woken_all s (wake_all_from (q.size + 1) 0 q s)

unfoldable pub steps : Sched → List Call → Sched
steps s [] = s
steps s (c ∷ cs) = steps (step s c) cs

-- Each call keeps a consistent scheduler consistent.
pub step-IsConsistent : (s : Sched) (c : Call) → IsConsistent s → IsConsistent (step s c)
unfolding step request_resched wake_one_locked
step-IsConsistent s run_next v = run-IsConsistent s v
step-IsConsistent s yields v = yield-IsConsistent s v
step-IsConsistent s preempts v = preempt-IsConsistent s v
step-IsConsistent s ticks v = tick-IsConsistent s v
step-IsConsistent s asks v = v
step-IsConsistent s exits v = exit-IsConsistent s v
step-IsConsistent s (creates name entry arg page) v =
    let (_, w) = create_task_outcome s name entry arg page v in w
step-IsConsistent s (waits q) v = wait-IsConsistent q s v
step-IsConsistent s (wakes_one q) v = wake_one-IsConsistent q.size q s v
step-IsConsistent s (wakes_all q) v = wake_all-IsConsistent (q.size + 1) 0 q s s v v

steps-IsConsistent : (s : Sched) (cs : List Call) → IsConsistent s → IsConsistent (steps s cs)
unfolding steps
steps-IsConsistent s [] v = v
steps-IsConsistent s (c ∷ cs) v = steps-IsConsistent (step s c) cs (step-IsConsistent s c v)

pub init-IsConsistent : (s : Sched) → length s.ready_queue.items ≡ max_tasks → IsConsistent (init s)
unfolding init
init-IsConsistent s n = record {
  storage = length-replicate max_tasks reset_task;
  queued = record {
    ring = record {
      small = omega arith;
      storage = n;
      head_in = omega arith;
      tail_at = refl;
      size_in = omega arith;
    };
    exact =
        λ j. ap (λ t. one_if (is_ready t.state)) (sym (get_or-replicate max_tasks j reset_task));
  };
  runs = λ j. ap (λ t. is_running t.state) (get_or-replicate max_tasks j reset_task);
  indexed = refl;
}

-- After `sched_init` and any sequence of scheduler calls, on any wait queues, the scheduler is
-- consistent: the ready queue is valid and holds each ready task once and nothing else, the current
-- task is the one task that runs, and its index is the one kept. The ready queue's array has 128 places.
pub history-IsConsistent :
    (s : Sched) (cs : List Call)
    → length s.ready_queue.items ≡ max_tasks
    → IsConsistent (steps (init s) cs)
history-IsConsistent s cs n = steps-IsConsistent (init s) cs (init-IsConsistent s n)
