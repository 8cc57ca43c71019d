-- ===== src/Sched/Start.antt =====
-- kernel/sched/sched.c: the second half of `sched_create_kernel_task`, in which the new task starts.
use gnu_os.Base.{
  ℕ, ◌+◌, ◌-◌, ◌<◌, ◌≡◌, ◌≢◌, refl, sym, ◌∙◌, ◌⊎◌, inl, inr, true, false, Bool-cases, arith, ◌==◌,
  [], ◌∷◌, ◌++◌, none, some, set, length-set, inc64, u64,
}
use gnu_os.Ring.{Ring}
use gnu_os.Sched.State.{
  ready, blocked, Task, reset_task, zero_context, Sched, max_tasks, page_size, is_unused, is_ready,
  is_running, task_at, set_task,
}
use gnu_os.Sched.Switch.{prepare_task_stack, drop_task, start_task}
use gnu_os.Sched.Pick.Kept.{entries, with_queue}
use gnu_os.Sched.Consistent.{IsConsistent, Queued-ready, Queued-other}
use gnu_os.Sched.Running.{Runs-other}
use gnu_os.Sched.Wake.{blocked_at, blocked_in_table, blocked_not_ready, blocked_not_running}

pub unused_not_ready : (t : Task) → is_unused t.state ≡ true → is_ready t.state ≡ false
unused_not_ready t h = ground arith

pub unused_not_running : (t : Task) → is_unused t.state ≡ true → is_running t.state ≡ false
unused_not_running t h = ground arith

-- A task that neither runs nor waits to run is replaced by another such task.
pub IsConsistent-other :
    (s : Sched) (i : ℕ) (t : Task)
    → IsConsistent s
    → i < max_tasks
    → is_ready (task_at s i).state ≡ false
    → is_running (task_at s i).state ≡ false
    → is_ready t.state ≡ false
    → is_running t.state ≡ false
    → IsConsistent (set_task s i t)
IsConsistent-other s i t v l h k h' k' = record {
  storage = length-set s.tasks i t ∙ v.storage;
  queued = Queued-other s.tasks s.ready_queue i t (omega (arith, v.storage)) v.queued h h';
  runs = Runs-other s.tasks i t s.current (omega (arith, v.storage)) v.runs (k ∙ sym k');
  indexed = v.indexed;
}

-- The task that `sched_create_kernel_task` sets up in a slot, before it has a stack.
abbrev pub new_task : Sched → ℕ → (name entry arg : ℕ) → Task
new_task s i name entry arg = record reset_task {
  tid = s.next_tid;
  state = blocked;
  name = name;
  process = some i;
  entry = entry;
  arg = arg;
  vruntime = s.min_vruntime;
}

abbrev pub reserved : Sched → ℕ → (name entry arg : ℕ) → Sched
reserved s i name entry arg = record (set_task s i (new_task s i name entry arg)) {
  processes = set s.processes i s.next_pid;
  next_pid = inc64 s.next_pid;
  next_tid = inc64 s.next_tid;
}

-- The new task with its stack, ready to run.
abbrev pub started : Task → ℕ → Task
started t page = record t {
  state = ready;
  kernel_stack_base = page;
  kernel_stack_size = page_size;
  context = record zero_context { rsp = u64 (page + page_size - 16) };
}

-- A blocked task with a stack page always finds room in the ready queue.
pub start_outcome :
    (s : Sched) (i page : ℕ)
    → IsConsistent s
    → blocked_at s i ≡ true
    → ((page ≡ 0) × (start_task s i page ≡ (none, drop_task s i)) × IsConsistent (drop_task s i))
      ⊎ ((page ≢ 0)
          × (q : Ring ℕ) × (start_task s i page
              ≡ (some i, with_queue (set_task s i (started (task_at s i) page)) q))
          × (entries q ≡ entries s.ready_queue ++ (i ∷ []))
          × IsConsistent (with_queue (set_task s i (started (task_at s i) page)) q))
unfolding start_task prepare_task_stack
start_outcome s i page v h =
    let l = blocked_in_table s i v h in
    let idle = blocked_not_ready (task_at s i) h in
    let still = blocked_not_running (task_at s i) h in
    elim (Bool-cases (page == 0)) [
      | inl no_page ↦ inl (
        ground arith,
        rw (start_task, no_page) refl,
        IsConsistent-other s i reset_task v l idle still refl refl,
      )
      | inr paged ↦
          let t : Task = started (task_at s i) page in
          let (q, put, queued, c) = Queued-ready s i t v.storage v.queued l idle refl in
          inr (
            ground arith,
            q,
            rw (start_task, paged, put) refl,
            c,
            record {
              storage = length-set s.tasks i t ∙ v.storage;
              queued = queued;
              runs = Runs-other s.tasks i t s.current (omega (arith, v.storage)) v.runs still;
              indexed = v.indexed;
            },
          )
    ]
