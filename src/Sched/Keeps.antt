-- ===== src/Sched/Keeps.antt =====
-- kernel/sched/sched.c: each call keeps a consistent scheduler consistent, whichever task is current.
use gnu_os.Base.{
  ℕ, zero, suc, ◌+◌, ◌≡◌, refl, sym, ap, ◌∙◌, subst, ◌⊎◌, inl, inr, not, ◌||◌, Bool-cases,
  Option-cases, arith, ◌==◌, leb, if◌then◌else◌, Option, none, some, length-set, inc64,
}
use gnu_os.Sched.State.{
  Task, Current, null, bootstrap, task, Sched, max_tasks, index_none, is_running, task_at, set_task,
}
use gnu_os.Sched.Pick.{run, run_from_bootstrap}
use gnu_os.Sched.Switch.{tick, yield_to_bootstrap, preempt_on_tick, task_exit, running_task}
use gnu_os.Sched.WaitQueue.{
  WaitQueue, wait_queue_wait, waitq_enqueue, waitq_dequeue, wake_one_from, wake_one_locked,
  wake_all_from,
}
use gnu_os.Sched.Consistent.{IsConsistent, Queued-other}
use gnu_os.Sched.Running.{Runs-other}
use gnu_os.Sched.Handoff.{
  current_running, current_in_table, running_not_ready, yield_outcome, preempt_outcome,
  exit_outcome, after_exit, running_task_lem,
}
use gnu_os.Sched.Wake.{asleep-IsConsistent, blocked_at, wake_succeeds}
use gnu_os.Sched.Run.{run_outcome}

-- The state after a panic, or after fuel run out, is taken to be the one before.
abbrev pub state_or : Sched → Option Sched → Sched
state_or s none = s
state_or s (some s') = s'

abbrev pub woken_all : Sched → Option (ℕ × WaitQueue × Sched) → Sched
woken_all s none = s
woken_all s (some o) = o.2

Current-is : (c : Current) → (c ≡ null) ⊎ (c ≡ bootstrap) ⊎ ((i : ℕ) × (c ≡ task i))
Current-is null = inl refl
Current-is bootstrap = inr (inl refl)
Current-is (task i) = inr (inr (i, refl))

-- Where no task is current, nothing happens.
abbrev Idle : Sched → Type 0
Idle s = (s.current ≡ null) ⊎ (s.current ≡ bootstrap)

current_kinds : (s : Sched) → Idle s ⊎ ((i : ℕ) × (s.current ≡ task i))
current_kinds s = elim (Current-is s.current) [
  | inl e ↦ inl (inl e)
  | inr (inl e) ↦ inl (inr e)
  | inr (inr h) ↦ inr h
]

abbrev running_from : Sched → Current → Option ℕ
running_from s c = elim c [
  | task i ↦
      if not (is_running (task_at s i).state) || s.current_index == index_none then none else some i
  | _ ↦ none
]

no_running_task : (s : Sched) → Idle s → running_task s ≡ none
unfolding running_task
no_running_task s (inl e) = ap (running_from s) e
no_running_task s (inr e) = ap (running_from s) e

pub yield-IsConsistent : (s : Sched) → IsConsistent s → IsConsistent (yield_to_bootstrap s)
unfolding yield_to_bootstrap
yield-IsConsistent s v = elim (current_kinds s) [
  | inl idle ↦ rw (yield_to_bootstrap, no_running_task s idle) v
  | inr (i, e) ↦ let (q, out, c, w) = yield_outcome s i v e in w
]

pub preempt-IsConsistent : (s : Sched) → IsConsistent s → IsConsistent (preempt_on_tick s).1
unfolding preempt_on_tick
preempt-IsConsistent s v = elim (current_kinds s) [
  | inl idle ↦ elim (Bool-cases (s.need_resched == 0)) [
    | inl k ↦ rw (preempt_on_tick, k) v
    | inr k ↦ rw (preempt_on_tick, k, no_running_task s idle) v
  ]
  | inr (i, e) ↦ elim (preempt_outcome s i v e) [
    | inl (_, out) ↦ subst (λ o. IsConsistent o.1) (sym out) v
    | inr (_, q, _, _, w) ↦ w
  ]
]

abbrev exit_from : Sched → Current → Option Sched
exit_from s c = elim c [ task i ↦ some (after_exit s i) | _ ↦ none ]

pub exit-IsConsistent : (s : Sched) → IsConsistent s → IsConsistent (state_or s (task_exit s))
unfolding task_exit
exit-IsConsistent s v = elim (Current-is s.current) [
  | inl e ↦ subst (λ o. IsConsistent (state_or s o)) (sym (ap (exit_from s) e)) v
  | inr (inl e) ↦ subst (λ o. IsConsistent (state_or s o)) (sym (ap (exit_from s) e)) v
  | inr (inr (i, e)) ↦
      let (out, w) = exit_outcome s i v e in subst (λ o. IsConsistent (state_or s o)) (sym out) w
]

abbrev run_from : Sched → Current → ℕ × Sched
run_from s c = elim c [ bootstrap ↦ run_from_bootstrap s | _ ↦ (0, s) ]

pub run-IsConsistent : (s : Sched) → IsConsistent s → IsConsistent (run s).1
unfolding run
run-IsConsistent s v = elim (Current-is s.current) [
  | inl e ↦ subst (λ (o : ℕ × Sched). IsConsistent o.1) (sym (ap (run_from s) e)) v
  | inr (inr (i, e)) ↦ subst (λ (o : ℕ × Sched). IsConsistent o.1) (sym (ap (run_from s) e)) v
  | inr (inl e) ↦ elim (run_outcome s v e) [
    | inl (out, _) ↦ subst (λ o. IsConsistent o.1) (sym out) v
    | inr (b, q, out, _, _, w) ↦ subst (λ o. IsConsistent o.1) (sym out) w
  ]
]

pub wait-IsConsistent :
    (q : WaitQueue) (s : Sched) → IsConsistent s → IsConsistent (wait_queue_wait q s).2
unfolding wait_queue_wait
wait-IsConsistent q s v = elim (current_kinds s) [
  | inl idle ↦ rw (wait_queue_wait, no_running_task s idle) v
  | inr (i, e) ↦ elim (Option-cases (waitq_enqueue q s.current_index)) [
    | inl full ↦ rw (wait_queue_wait, running_task_lem s i v e, full) v
    | inr (q', put) ↦
        rw (wait_queue_wait, running_task_lem s i v e, put) (asleep-IsConsistent s i v e)
  ]
]

pub wake_one-IsConsistent :
    (n : ℕ) (q : WaitQueue) (s : Sched) → IsConsistent s → IsConsistent (wake_one_from n q s).2
unfolding wake_one_from
wake_one-IsConsistent zero q s v = v
wake_one-IsConsistent (suc n) q s v = elim (Option-cases (waitq_dequeue q)) [
  | inl e ↦ rw (wake_one_from, e) v
  | inr ((x, q'), e) ↦ elim (Bool-cases (leb max_tasks x || not (blocked_at s x))) [
    | inl h ↦ rw (wake_one_from, e, h) (wake_one-IsConsistent n q' s v)
    | inr h ↦
        let (r, out, _, w) = wake_succeeds q' s x v (ground arith) in
        rw (wake_one_from, e, h)
          (subst (λ (o : ℕ × WaitQueue × Sched). IsConsistent o.2) (sym out) w)
  ]
]

pub wake_all-IsConsistent :
    (fuel woke : ℕ) (q : WaitQueue) (s d : Sched)
    → IsConsistent s
    → IsConsistent d
    → IsConsistent (woken_all d (wake_all_from fuel woke q s))
unfolding wake_all_from wake_one_locked
wake_all-IsConsistent zero woke q s d v w = w
wake_all-IsConsistent (suc fuel) woke q s d v w =
    let one = wake_one_locked q s in
    let v' = wake_one-IsConsistent q.size q s v in
    elim (Bool-cases (one.0 == 0)) [
      | inl h ↦ rw (wake_all_from, h) v'
      | inr h ↦ rw (wake_all_from, h) (wake_all-IsConsistent fuel (woke + 1) one.1 one.2 d v' w)
    ]

-- The current task after a tick.
abbrev ticked : Task → Task
ticked t = record t { runtime_ticks = inc64 t.runtime_ticks; vruntime = inc64 t.vruntime }

abbrev tick_from : Sched → Current → Sched
tick_from s c = elim c [
  | task i ↦
      if is_running (task_at s i).state
      then record (set_task s i (ticked (task_at s i))) {
        ticks = inc64 s.ticks;
        min_vruntime = inc64 (task_at s i).vruntime;
        need_resched = 1;
      }
      else record s { ticks = inc64 s.ticks }
  | _ ↦ record s { ticks = inc64 s.ticks }
]

pub ticked-IsConsistent :
    (s : Sched) (i : ℕ) → IsConsistent s → s.current ≡ task i → IsConsistent (tick_from s (task i))
ticked-IsConsistent s i v e =
    let runs = current_running s i v e in
    let l = current_in_table s i v e in
    let idle = running_not_ready (task_at s i) runs in
    rw runs (record {
      storage = length-set s.tasks i (ticked (task_at s i)) ∙ v.storage;
      queued =
          Queued-other s.tasks s.ready_queue i (ticked (task_at s i)) (omega (arith, v.storage))
            v.queued idle idle;
      runs =
          Runs-other s.tasks i (ticked (task_at s i)) s.current (omega (arith, v.storage)) v.runs
            refl;
      indexed = v.indexed;
    })

pub tick-IsConsistent : (s : Sched) → IsConsistent s → IsConsistent (tick s)
unfolding tick
tick-IsConsistent s v = elim (Current-is s.current) [
  | inl e ↦ subst IsConsistent (sym (ap (tick_from s) e)) v
  | inr (inl e) ↦ subst IsConsistent (sym (ap (tick_from s) e)) v
  | inr (inr (i, e)) ↦ subst IsConsistent (sym (ap (tick_from s) e)) (ticked-IsConsistent s i v e)
]
