-- ===== src/Sched/Pick.antt =====
-- kernel/sched/sched.c: `sched_pick_next_ready`, the choice of the next task, and `sched_run`.
pub mod Kept
pub mod Least
use gnu_os.Base.{
  ℕ, zero, suc, ◌+◌, ◌-◌, Bool, true, false, not, ◌&&◌, ◌||◌, Option, none, some, List, [], ◌∷◌,
  ◌++◌, ltb, ◌==◌, if◌then◌else◌, inc64,
}
use gnu_os.Sched.State.{
  running, Task, bootstrap, task, Sched, max_tasks, index_none, is_ready, task_at, set_task,
  enqueue_task, dequeue_task,
}

-- Whether the task at `i` goes before the best one so far.
abbrev pub goes_before : Task → Task → Bool
goes_before candidate best =
    ltb candidate.vruntime best.vruntime
    || (candidate.vruntime == best.vruntime && ltb candidate.tid best.tid)

-- The body of the loop over the task slots.
abbrev pub better : Sched → ℕ → ℕ → ℕ
better s i best_index =
    if not (is_ready (task_at s i).state)
    then best_index
    else if best_index == index_none
    then i
    else if goes_before (task_at s i) (task_at s best_index)
    then i
    else best_index

-- Rounds left, the slot's index, and the best index so far.
unfoldable pub best_from : Sched → ℕ → ℕ → ℕ → ℕ
best_from s zero i best_index = best_index
best_from s (suc n) i best_index = best_from s n (i + 1) (better s i best_index)

-- Whether an entry that was taken off the ready queue goes back.
abbrev pub keeps : Sched → ℕ → ℕ → Bool
keeps s best_index candidate =
    not (candidate == best_index)
    && (ltb candidate max_tasks && is_ready (task_at s candidate).state)

-- The loop that empties the queue into `kept`: attempts left, and what is kept so far.
unfoldable pub drain : ℕ → ℕ → Sched → List ℕ → List ℕ × Sched
drain best_index zero s kept = (kept, s)
drain best_index (suc attempts) s kept = elim (dequeue_task s) [
  | none ↦ (kept, s)
  | some (candidate, s') ↦
      drain best_index attempts s'
        (if keeps s best_index candidate then kept ++ (candidate ∷ []) else kept)
]

-- The loop that puts the kept entries back, and whether it got to its end.
unfoldable pub refill : List ℕ → Sched → Bool × Sched
refill [] s = (true, s)
refill (i ∷ kept) s = elim (enqueue_task s i) [ none ↦ (false, s) | some s' ↦ refill kept s' ]

abbrev pub emptied : Sched → Sched
emptied s = record s { ready_queue = record (s.ready_queue) { head = 0; tail = 0; size = 0 } }

-- A chosen task with the state that is left, or the answer 0 with the state that is left.
unfoldable pub pick_next_ready : Sched → Option ℕ × Sched
pick_next_ready s =
    let best_index = best_from s max_tasks 0 index_none in
    let (kept, s') = drain best_index s.ready_queue.size s [] in
    if best_index == index_none
    then (none, s)
    else let (done, s'') = refill kept (emptied s') in (if done then some best_index else none, s'')

-- The state in which the chosen task takes over.
unfoldable pub switch_to : Sched → ℕ → Sched
switch_to s i =
    record (set_task s i (record (task_at s i) {
      state = running;
      context_switches = inc64 (task_at s i).context_switches;
    })) { need_resched = 0; current = task i; current_index = i; trace_budget = s.trace_budget - 1 }

-- `sched_run`: its answer, and the state at the context switch or at the return.
unfoldable pub run_from_bootstrap : Sched → ℕ × Sched
run_from_bootstrap s =
    let (choice, s') = pick_next_ready s in
    elim choice [ none ↦ (0, s') | some i ↦ (1, switch_to s' i) ]

unfoldable pub run : Sched → ℕ × Sched
run s = elim s.current [ bootstrap ↦ run_from_bootstrap s | _ ↦ (0, s) ]
