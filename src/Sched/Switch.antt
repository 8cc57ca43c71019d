-- ===== src/Sched/Switch.antt =====
-- kernel/sched/sched.c: what a running task or the timer does: `sched_tick`, `sched_yield`,
-- `sched_preempt_on_tick`, `sched_task_exit`, and the creation of a task. A call that switches away is
-- followed to the switch; its answer there is the one that it gives when it is resumed.
use gnu_os.Base.{
  ℕ, ◌+◌, ◌-◌, Bool, true, false, not, ◌||◌, Option, none, some, ◌==◌, if◌then◌else◌, set, inc64,
  u64,
}
use gnu_os.Sched.State.{
  ready, running, blocked, exited, Task, zero_context, reset_task, bootstrap, task, Sched,
  index_none, page_size, is_running, task_at, set_task, set_state, enqueue_task, alloc_task_slot,
}

-- The test that `sched_yield`, `sched_preempt_on_tick` and `sched_wait_queue_wait` make: the index of
-- the running task, if `g_current_task` is a task that runs and has an index.
unfoldable pub running_task : Sched → Option ℕ
running_task s = elim s.current [
  | task i ↦
      if not (is_running (task_at s i).state) || s.current_index == index_none then none else some i
  | _ ↦ none
]

abbrev pub to_bootstrap : Sched → Sched
to_bootstrap s = record s { current = bootstrap; current_index = index_none }

unfoldable pub tick : Sched → Sched
tick s = elim s.current [
  | task i ↦
      if is_running (task_at s i).state
      then record (set_task s i (record (task_at s i) {
        runtime_ticks = inc64 (task_at s i).runtime_ticks;
        vruntime = inc64 (task_at s i).vruntime;
      })) { ticks = inc64 s.ticks; min_vruntime = inc64 (task_at s i).vruntime; need_resched = 1 }
      else record s { ticks = inc64 s.ticks }
  | _ ↦ record s { ticks = inc64 s.ticks }
]

unfoldable pub request_resched : Sched → Sched
request_resched s = record s { need_resched = 1 }

-- The running task goes to the ready queue; `none` is a full queue, with its state put back.
unfoldable pub requeue : Sched → ℕ → Option Sched
requeue s i = enqueue_task (set_state s i ready) s.current_index

unfoldable pub yield_to_bootstrap : Sched → Sched
yield_to_bootstrap s = elim (running_task s) [
  | none ↦ s
  | some i ↦ elim (requeue s i) [
    | none ↦ set_state (set_state s i ready) i running
    | some s' ↦ to_bootstrap s'
  ]
]

abbrev pub resched_done : Sched → Sched
resched_done s = record s { need_resched = 0 }

unfoldable pub preempt_on_tick : Sched → ℕ × Sched
preempt_on_tick s = if s.need_resched == 0 then (0, s) else elim (running_task s) [
  | none ↦ (0, resched_done s)
  | some i ↦ elim (requeue s i) [
    | none ↦ (0, resched_done (set_state (set_state s i ready) i running))
    | some s' ↦ (
      1,
      to_bootstrap (record s' {
        need_resched = 0;
        preempt_switches = inc64 s'.preempt_switches;
        preempt_log_emitted = if s'.preempt_log_emitted == 0 then 1 else s'.preempt_log_emitted;
      }),
    )
  ]
]

-- `none` is a kernel panic.
unfoldable pub task_exit : Sched → Option Sched
task_exit s = elim s.current [
  | task i ↦
      some
        (to_bootstrap (set_task s i (record (task_at s i) { state = exited; entry = 0; arg = 0 })))
  | _ ↦ none
]

-- The first locked part of `sched_create_kernel_task`: a slot is taken and blocked.
unfoldable pub reserve_task : Sched → (name entry arg : ℕ) → Option (ℕ × Sched)
reserve_task s name entry arg = if entry == 0 then none else elim (alloc_task_slot s) [
  | none ↦ none
  | some i ↦ some (
    i,
    record s {
      processes = set s.processes i s.next_pid;
      next_pid = inc64 s.next_pid;
      next_tid = inc64 s.next_tid;
      tasks = set s.tasks i (record reset_task {
        tid = s.next_tid;
        state = blocked;
        name = name;
        process = some i;
        entry = entry;
        arg = arg;
        vruntime = s.min_vruntime;
      });
    },
  )
]

-- `sched_prepare_task_stack` with the page that `pmm_alloc_page` gave (0 for none), and its answer.
-- The two words at the top of the stack are the return addresses of the trampoline and of the exit.
unfoldable pub prepare_task_stack : Task → (page : ℕ) → Bool × Task
prepare_task_stack t page =
    if page == 0 then (false, record t { kernel_stack_base = 0; kernel_stack_size = 0 }) else (
      true,
      record t {
        kernel_stack_base = page;
        kernel_stack_size = page_size;
        context = record zero_context { rsp = u64 (page + page_size - 16) };
      },
    )

abbrev pub drop_task : Sched → ℕ → Sched
drop_task s i = record (set_task s i reset_task) { processes = set s.processes i 0 }

-- The rest of `sched_create_kernel_task`: `none` is its answer NULL.
unfoldable pub start_task : Sched → ℕ → (page : ℕ) → Option ℕ × Sched
start_task s i page =
    let (prepared, t) = prepare_task_stack (task_at s i) page in
    if not prepared
    then (none, drop_task s i)
    else elim (enqueue_task (set_task s i (record t { state = ready })) i) [
      | none ↦ (none, drop_task s i)
      | some s' ↦ (some i, s')
    ]

-- The whole of it, where no other task runs in between.
unfoldable pub create_kernel_task : Sched → (name entry arg page : ℕ) → Option ℕ × Sched
create_kernel_task s name entry arg page = elim (reserve_task s name entry arg) [
  | none ↦ (none, s)
  | some (i, s') ↦ start_task s' i page
]

-- `sched_create_idle_task`, given the addresses of its name and of `sched_idle_entry`.
unfoldable pub create_idle_task : Sched → (name entry page : ℕ) → Option ℕ × Sched
create_idle_task s name entry page = create_kernel_task s name entry 0 page
