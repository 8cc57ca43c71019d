-- ===== src/Sched/State.antt =====
-- kernel/sched/sched.c: the state of the scheduler, its ready queue, and the task slots. A pointer is
-- a number, 0 for NULL; `current` is where `g_current_task` points.
use gnu_os.Base.{
  ℕ, Bool, true, false, Option, none, some, List, get_or, set, replicate, find_idx_from,
}
use gnu_os.Ring.{Ring, enqueue, dequeue}

-- `SCHED_MAX_TASKS`, `SCHED_READY_QUEUE_CAPACITY`, `SCHED_WAIT_QUEUE_CAPACITY`
abbrev pub max_tasks : ℕ
max_tasks = 128

-- `SCHED_TASK_INDEX_NONE`
abbrev pub index_none : ℕ
index_none = 65535

-- `MM_PAGE_SIZE`
abbrev pub page_size : ℕ
page_size = 4096

-- `task_state_t`
pub data TaskState : Type 0 where
  unused ready running blocked exited : TaskState

-- `task_context_t`
pub record Context : Type 0 where
  pub rsp : ℕ
  pub rbx : ℕ
  pub rbp : ℕ
  pub r12 : ℕ
  pub r13 : ℕ
  pub r14 : ℕ
  pub r15 : ℕ

-- `task_t`
pub record Task : Type 0 where
  pub tid : ℕ
  pub state : TaskState
  pub name : ℕ
  pub process : Option ℕ
  pub entry : ℕ
  pub arg : ℕ
  pub runtime_ticks : ℕ
  pub vruntime : ℕ
  pub context_switches : ℕ
  pub context : Context
  pub kernel_stack_base : ℕ
  pub kernel_stack_size : ℕ

pub data Current : Type 0 where
  null : Current
  bootstrap : Current
  task : ℕ → Current

-- The static variables of sched.c. A process is its `pid`.
pub record Sched : Type 0 where
  pub processes : List ℕ
  pub tasks : List Task
  pub bootstrap_task : Task
  pub ready_queue : Ring ℕ
  pub next_pid : ℕ
  pub next_tid : ℕ
  pub current : Current
  pub current_index : ℕ
  pub ticks : ℕ
  pub need_resched : ℕ
  pub preempt_switches : ℕ
  pub preempt_log_emitted : ℕ
  pub min_vruntime : ℕ
  pub trace_budget : ℕ

abbrev pub zero_context : Context
zero_context = record { rsp = 0; rbx = 0; rbp = 0; r12 = 0; r13 = 0; r14 = 0; r15 = 0 }

-- What `sched_reset_task` leaves, and what static storage holds.
abbrev pub reset_task : Task
reset_task = record {
  tid = 0;
  state = unused;
  name = 0;
  process = none;
  entry = 0;
  arg = 0;
  runtime_ticks = 0;
  vruntime = 0;
  context_switches = 0;
  context = zero_context;
  kernel_stack_base = 0;
  kernel_stack_size = 0;
}

abbrev pub is_unused : TaskState → Bool
is_unused unused = true
is_unused _ = false

abbrev pub is_ready : TaskState → Bool
is_ready ready = true
is_ready _ = false

abbrev pub is_running : TaskState → Bool
is_running running = true
is_running _ = false

abbrev pub is_blocked : TaskState → Bool
is_blocked blocked = true
is_blocked _ = false

abbrev pub task_at : Sched → ℕ → Task
task_at s i = get_or s.tasks i reset_task

abbrev pub set_task : Sched → ℕ → Task → Sched
set_task s i t = record s { tasks = set s.tasks i t }

abbrev pub set_state : Sched → ℕ → TaskState → Sched
set_state s i st = set_task s i (record (task_at s i) { state = st })

-- `sched_enqueue_task` and `sched_dequeue_task`; `none` is their answer 0.
unfoldable pub enqueue_task : Sched → ℕ → Option Sched
enqueue_task s i = elim (enqueue max_tasks s.ready_queue i) [
  | none ↦ none
  | some q ↦ some (record s { ready_queue = q })
]

unfoldable pub dequeue_task : Sched → Option (ℕ × Sched)
dequeue_task s = elim (dequeue max_tasks 0 s.ready_queue) [
  | none ↦ none
  | some (i, q) ↦ some (i, record s { ready_queue = q })
]

unfoldable pub alloc_task_slot : Sched → Option ℕ
alloc_task_slot s = find_idx_from (λ t. is_unused t.state) 0 s.tasks

-- `sched_init`; what it leaves alone is taken from the state before.
unfoldable pub init : Sched → Sched
init s = record {
  processes = replicate max_tasks 0;
  tasks = replicate max_tasks reset_task;
  bootstrap_task = record reset_task { state = running; name = 1 };
  ready_queue = record (s.ready_queue) { head = 0; tail = 0; size = 0 };
  next_pid = 1;
  next_tid = 1;
  current = bootstrap;
  current_index = index_none;
  ticks = 0;
  need_resched = 0;
  preempt_switches = 0;
  preempt_log_emitted = 0;
  min_vruntime = 0;
  trace_budget = 8;
}
