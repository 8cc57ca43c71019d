-- ===== src/Workqueue/Tests.antt =====
-- kernel/sched/workqueue.c: a queue after `workqueue_init`, with the sample states of the scheduler.
use gnu_os.Base.{◌≡◌, refl, List, [], ◌∷◌, ◌++◌, none, replicate, arith}
use gnu_os.Sched.Samples.{
  loaded, busy, busy-IsConsistent, loaded-IsConsistent, busy_current, nobody_waits,
  nobody_waits-IsValid,
}
use gnu_os.Workqueue.{WorkQueue, Item, no_item, work_capacity, take, submit, block}
use gnu_os.Workqueue.Order.{IsSound, waiting, Part, run, all_put_in, all_taken_out, work_in_order}
use gnu_os.Workqueue.Wakeup.{SleepsOn, lost_wakeup}

abbrev fresh : WorkQueue
fresh = record {
  name = 1;
  pending = record { items = replicate work_capacity no_item; head = 0; tail = 0; size = 0 };
  submitted = 0;
  completed = 0;
  waiters = nobody_waits;
}

fresh-IsSound : IsSound fresh
unfolding replicate
fresh-IsSound = record {
  small = omega arith;
  storage = refl;
  head_in = omega arith;
  tail_at = refl;
  size_in = omega arith;
}

abbrev job : Item
job = record { func = 500; arg = 6 }

abbrev jobs : List Part
jobs = Part.submits job ∷ Part.takes ∷ Part.completes ∷ Part.submits job ∷ []

work_in_order_example :
    IsSound (run fresh jobs)
    × (waiting fresh ++ all_put_in fresh jobs
        ≡ all_taken_out fresh jobs ++ waiting (run fresh jobs))
work_in_order_example = work_in_order fresh jobs fresh-IsSound

lost_wakeup_example :
    (take fresh ≡ none)
    × ((submit fresh loaded job).0 ≡ 1)
    × SleepsOn job 0 (block (submit fresh loaded job).1 busy)
lost_wakeup_example =
    lost_wakeup fresh loaded busy job 0 fresh-IsSound refl nobody_waits-IsValid refl (omega arith)
      loaded-IsConsistent busy-IsConsistent busy_current
