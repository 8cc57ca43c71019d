-- ===== src/Workqueue/Wakeup.antt =====
-- kernel/sched/workqueue.c: a worker that finds no item and goes to sleep, and a submission in between.
use gnu_os.Base.{
  ℕ, ◌≡◌, ◌≢◌, refl, sym, ap, ◌∙◌, subst, inl, inr, true, arith, List, [], ◌∷◌, ◌++◌, none,
  get_or-set_self, length,
}
use gnu_os.Ring.{IsValid}
use gnu_os.Ring.Contents.{window}
use gnu_os.Ring.Refine.{length-contents}
use gnu_os.Sched.WakeAll.{WakesOne}
use gnu_os.Sched.State.{Sched, Task, task, max_tasks, blocked, is_blocked, task_at, reset_task}
use gnu_os.Sched.WaitQueue.{WaitQueue, wait_queue_wait}
use gnu_os.Sched.Pick.Kept.{entries}
use gnu_os.Sched.Consistent.{IsConsistent}
use gnu_os.Sched.Handoff.{current_in_table}
use gnu_os.Sched.Wake.{wait_outcome, asleep, blocked_at}
use gnu_os.Workqueue.{WorkQueue, Item, no_item, work_capacity, take, submit, block}
use gnu_os.Workqueue.Order.{waiting, IsSound, take_outcome, submit_outcome}

none_waiting : (w : WorkQueue) → w.pending.size ≡ 0 → waiting w ≡ []
none_waiting w e = ap (λ n. window no_item w.pending.items work_capacity w.pending.head n) e

nothing_to_take : (w : WorkQueue) → IsSound w → w.pending.size ≡ 0 → take w ≡ none
nothing_to_take w v e = elim (take_outcome w v) [
  | inl (_, out) ↦ out
  | inr (item, w', out, _, more) ↦ absurd (ground (arith, sym (none_waiting w e) ∙ more))
]

block_waits :
    (w : WorkQueue) (s s' : Sched) (q : WaitQueue)
    → wait_queue_wait w.waiters s ≡ (1, q, s')
    → block w s ≡ (record w { waiters = q }, s')
unfolding block
block_waits w s s' q e = rw (block, e) refl

no_entries : (q : WaitQueue) → entries q ≡ [] → q.size ≡ 0
no_entries q e = sym (length-contents max_tasks 0 q) ∙ ap length e

-- After the wake-up of an empty wait queue there is room in it.
room_to_wait :
    (q q' : WaitQueue) (s s' : Sched) (woken : ℕ)
    → q.size ≡ 0
    → WakesOne q s (woken, q', s')
    → IsValid max_tasks q' × (q'.size ≡ 0)
room_to_wait q q' s s' woken none_there (inl (q'', out, gone, valid, _)) =
    let same : q'' ≡ q' = sym (ap (λ o. o.1) out) in
    (subst (IsValid max_tasks) same valid, no_entries q' (ap entries (sym same) ∙ gone))
room_to_wait q q' s s' woken none_there (inr (q'', i, r, skipped, out, _, _, _, _, _, fewer, _)) =
    absurd (omega arith)

-- A worker blocks with an item waiting.
abbrev pub SleepsOn : Item → ℕ → WorkQueue × Sched → Type 0
SleepsOn item i out =
    (waiting out.0 ≡ item ∷ [])
    × (blocked_at out.1 i ≡ true)
    × ((earlier : List ℕ) × (entries out.0.waiters ≡ earlier ++ (i ∷ [])))

sleeps :
    (w : WorkQueue) (s : Sched) (item : Item) (i : ℕ)
    → waiting w ≡ item ∷ []
    → IsValid max_tasks w.waiters
    → w.waiters.size ≡ 0
    → IsConsistent s
    → s.current ≡ task i
    → SleepsOn item i (block w s)
sleeps w s item i one valid none_there c e = elim (wait_outcome w.waiters s i valid c e) [
  | inl (full, _) ↦ absurd (omega arith)
  | inr (_, q, out, joined, _, _) ↦
      let t : Task = record (task_at s i) { state = blocked } in
      let l = current_in_table s i c e in
      subst (SleepsOn item i) (sym (block_waits w s (asleep s i) q out)) (
        one,
        ap (λ x. is_blocked x.state)
            (get_or-set_self s.tasks i t reset_task (omega (arith, l, c.storage))),
        (entries w.waiters, joined),
      )
]

-- A wake-up is lost when an item comes between the worker's look at the queue and its sleep. A sound
-- work queue is empty, so that the worker, task `i`, finds nothing, and its valid wait queue is empty;
-- another task of a consistent scheduler submits an item, which is accepted; then, in a later consistent
-- state, task `i` is current again and blocks: it is asleep, last among the waiters, while the item waits.
pub lost_wakeup :
    (w : WorkQueue) (s s' : Sched) (item : Item) (i : ℕ)
    → IsSound w
    → w.pending.size ≡ 0
    → IsValid max_tasks w.waiters
    → w.waiters.size ≡ 0
    → item.func ≢ 0
    → IsConsistent s
    → IsConsistent s'
    → s'.current ≡ task i
    → (take w ≡ none) × ((submit w s item).0 ≡ 1) × SleepsOn item i (block (submit w s item).1 s')
lost_wakeup w s s' item i v empty waiters nobody func c c' e =
    let found_none : take w ≡ none = nothing_to_take w v empty in
    elim (submit_outcome w s item v waiters c) [
      | inl (no_func, _) ↦ absurd (func no_func)
      | inr (inl (_, full, _)) ↦ absurd (omega arith)
      | inr (inr (_, ok, sound, more, _, (woken, wakes))) ↦
          let (valid, none_there) =
            room_to_wait w.waiters (submit w s item).1.waiters s (submit w s item).2 woken nobody
              wakes in
          let one : waiting (submit w s item).1 ≡ item ∷ [] =
            more ∙ ap (λ xs. xs ++ (item ∷ [])) (none_waiting w empty) in
          (found_none, ok, sleeps (submit w s item).1 s' item i one valid none_there c' e)
    ]
