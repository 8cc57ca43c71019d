-- ===== src/Sched/Samples.antt =====
-- kernel/sched/sched.c: states to try the theorems at: two tasks are created, and the first one runs.
use gnu_os.Base.{◌≡◌, refl, List, [], ◌∷◌, ◌++◌, arith, replicate, find_idx_from}
use gnu_os.Ring.{IsValid, enqueue, dequeue}
use gnu_os.Sched.State.{
  alloc_task_slot, enqueue_task, dequeue_task, Sched, null, bootstrap, task, reset_task, max_tasks,
  init, index_none,
}
use gnu_os.Sched.Pick.{
  best_from, pick_next_ready, run, run_from_bootstrap, drain, refill, switch_to,
}
use gnu_os.Sched.Switch.{create_kernel_task, reserve_task, prepare_task_stack, start_task}
use gnu_os.Sched.WaitQueue.{WaitQueue}
use gnu_os.Sched.Consistent.{IsConsistent}
use gnu_os.Sched.History.{Call, step, steps, history-IsConsistent}

-- Static storage.
abbrev pub cold : Sched
cold = record {
  processes = replicate max_tasks 0;
  tasks = replicate max_tasks reset_task;
  bootstrap_task = reset_task;
  ready_queue = record { items = replicate max_tasks 0; head = 0; tail = 0; size = 0 };
  next_pid = 1;
  next_tid = 1;
  current = null;
  current_index = index_none;
  ticks = 0;
  need_resched = 0;
  preempt_switches = 0;
  preempt_log_emitted = 0;
  min_vruntime = 0;
  trace_budget = 0;
}

abbrev pub two_tasks : List Call
two_tasks = Call.creates 1 100 0 4096 ∷ Call.creates 2 200 0 8192 ∷ []

-- Two ready tasks, and then the first of them running.
abbrev pub loaded : Sched
loaded = steps (init cold) two_tasks

abbrev pub busy : Sched
busy = steps (init cold) (two_tasks ++ (Call.run_next ∷ []))

pub busy-IsConsistent : IsConsistent busy
unfolding replicate
busy-IsConsistent = history-IsConsistent cold (two_tasks ++ (Call.run_next ∷ [])) refl

pub loaded-IsConsistent : IsConsistent loaded
unfolding replicate
loaded-IsConsistent = history-IsConsistent cold two_tasks refl

pub loaded_current : loaded.current ≡ bootstrap
unfolding init step steps run run_from_bootstrap create_kernel_task reserve_task alloc_task_slot
    find_idx_from replicate start_task prepare_task_stack enqueue_task enqueue pick_next_ready
    best_from refill drain dequeue_task dequeue switch_to
loaded_current = refl

pub busy_current : busy.current ≡ task 0
unfolding init step steps run run_from_bootstrap create_kernel_task reserve_task alloc_task_slot
    find_idx_from replicate start_task prepare_task_stack enqueue_task enqueue pick_next_ready
    best_from refill drain dequeue_task dequeue switch_to
busy_current = refl

-- A wait queue that nobody is in, and one that holds task 0.
abbrev pub nobody_waits : WaitQueue
nobody_waits = record { items = replicate max_tasks 0; head = 0; tail = 0; size = 0 }

abbrev pub one_waits : WaitQueue
one_waits = record { items = replicate max_tasks 0; head = 0; tail = 1; size = 1 }

pub nobody_waits-IsValid : IsValid max_tasks nobody_waits
unfolding replicate
nobody_waits-IsValid = record {
  small = omega arith;
  storage = refl;
  head_in = omega arith;
  tail_at = refl;
  size_in = omega arith;
}

pub one_waits-IsValid : IsValid max_tasks one_waits
unfolding replicate
one_waits-IsValid = record {
  small = omega arith;
  storage = refl;
  head_in = omega arith;
  tail_at = refl;
  size_in = omega arith;
}

-- Task 0 has gone to sleep.
abbrev pub sleepy : Sched
sleepy = steps (init cold) (two_tasks ++ (Call.run_next ∷ Call.waits nobody_waits ∷ []))

pub sleepy-IsConsistent : IsConsistent sleepy
unfolding replicate
sleepy-IsConsistent =
    history-IsConsistent cold (two_tasks ++ (Call.run_next ∷ Call.waits nobody_waits ∷ [])) refl
