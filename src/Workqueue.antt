-- ===== src/Workqueue.antt =====
-- kernel/sched/workqueue.c and kernel/include/gnuos/workqueue.h: work items handed to worker tasks. The
-- queue pointer is never NULL here; the functions answer 0 and change nothing for NULL.
-- `workqueue_execute_one` is followed in steps: each locked part is one, and between two of them other
-- tasks run. The function of an item is not run: it is handed to the caller.
pub mod Order
pub mod Wakeup
mod Tests
use gnu_os.Base.{
  ℕ, ◌+◌, Bool, true, false, Option, none, some, List, ◌==◌, if◌then◌else◌, replicate, inc64,
}
use gnu_os.Ring.{Ring, enqueue, dequeue}
use gnu_os.Sched.State.{Sched}
use gnu_os.Sched.Switch.{yield_to_bootstrap}
use gnu_os.Sched.WaitQueue.{WaitQueue, wait_queue_init, wait_queue_wait, wake_one_locked}

-- `WORKQUEUE_CAPACITY`
abbrev pub work_capacity : ℕ
work_capacity = 128

-- `work_item_t`; the function and the argument are addresses.
pub record Item : Type 0 where
  pub func : ℕ
  pub arg : ℕ

-- `work_queue_t`; `pending` is its `items`, `head`, `tail` and `size`.
pub record WorkQueue : Type 0 where
  pub name : ℕ
  pub pending : Ring Item
  pub submitted : ℕ
  pub completed : ℕ
  pub waiters : WaitQueue

-- `work_item_t item = {0}`
abbrev pub no_item : Item
no_item = record { func = 0; arg = 0 }

-- `workqueue_pop_locked`; `none` is its answer 0.
unfoldable pub pop_locked : WorkQueue → Option (Item × WorkQueue)
pop_locked w = elim (dequeue work_capacity no_item w.pending) [
  | none ↦ none
  | some (item, q) ↦ some (item, record w { pending = q })
]

-- `workqueue_init`
unfoldable pub init : WorkQueue → (name : ℕ) → WorkQueue
init w name = record {
  name = name;
  pending = record (w.pending) { head = 0; tail = 0; size = 0 };
  submitted = 0;
  completed = 0;
  waiters = wait_queue_init w.waiters;
}

-- The locked part of `workqueue_submit`; `none` where the item is not taken.
unfoldable pub submit_locked : WorkQueue → Item → Option WorkQueue
submit_locked w item = elim (enqueue work_capacity w.pending item) [
  | none ↦ none
  | some q ↦ some (record w { pending = q; submitted = inc64 w.submitted })
]

-- `sched_wait_queue_wake_one` on the waiters.
unfoldable pub wake_waiter : WorkQueue → Sched → WorkQueue × Sched
wake_waiter w s = let (_, q, s') = wake_one_locked w.waiters s in (record w { waiters = q }, s')

-- The whole of `workqueue_submit`, where nothing runs between the queue's part and the wake-up.
unfoldable pub submit : WorkQueue → Sched → Item → ℕ × WorkQueue × Sched
submit w s item = if item.func == 0 then (0, w, s) else elim (submit_locked w item) [
  | none ↦ (0, w, s)
  | some w' ↦ let (w'', s') = wake_waiter w' s in (1, w'', s')
]

-- A pass of the loop of `workqueue_execute_one` that finds an item, and the count that follows the item's
-- function.
unfoldable pub take : WorkQueue → Option (Item × WorkQueue)
take w = pop_locked w

unfoldable pub complete : WorkQueue → WorkQueue
complete w = record w { completed = inc64 w.completed }

-- A pass that found none and may block: the worker waits, or yields where it cannot wait.
unfoldable pub block : WorkQueue → Sched → WorkQueue × Sched
block w s =
    let (waited, q, s') = wait_queue_wait w.waiters s in
    if waited == 0 then (w, yield_to_bootstrap s) else (record w { waiters = q }, s')
