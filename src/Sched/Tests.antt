-- ===== src/Sched/Tests.antt =====
-- kernel/sched/sched.c: the theorems at the sample states.
use gnu_os.Base.{ℕ, ◌≡◌, refl, [], ◌∷◌, ◌++◌, arith, replicate}
use gnu_os.Ring.{Ring}
use gnu_os.Sched.State.{ready, set_state}
use gnu_os.Sched.Pick.Kept.{entries, with_queue}
use gnu_os.Sched.Switch.{to_bootstrap, yield_to_bootstrap}
use gnu_os.Sched.WaitQueue.{wake_all_from}
use gnu_os.Sched.Consistent.{IsConsistent}
use gnu_os.Sched.Handoff.{yield_outcome}
use gnu_os.Sched.WakeAll.Total.{Continues, wake_all_outcome}
use gnu_os.Sched.Run.{RunAnswers, run_outcome}
use gnu_os.Sched.History.{Call, history-IsConsistent}
use gnu_os.Sched.Samples.{
  cold, two_tasks, loaded, busy, busy-IsConsistent, loaded-IsConsistent, loaded_current,
  busy_current, one_waits, one_waits-IsValid, sleepy, sleepy-IsConsistent,
}

history-IsConsistent_example : IsConsistent busy
unfolding replicate
history-IsConsistent_example = history-IsConsistent cold (two_tasks ++ (Call.run_next ∷ [])) refl

run_outcome_example : RunAnswers loaded
run_outcome_example = run_outcome loaded loaded-IsConsistent loaded_current

yield_outcome_example :
    (q : Ring ℕ) × (yield_to_bootstrap busy ≡ to_bootstrap (with_queue (set_state busy 0 ready) q))
    × (entries q ≡ entries busy.ready_queue ++ (0 ∷ []))
    × IsConsistent (yield_to_bootstrap busy)
yield_outcome_example = yield_outcome busy 0 busy-IsConsistent busy_current

wake_all_outcome_example : Continues one_waits sleepy 0 (wake_all_from 2 0 one_waits sleepy)
wake_all_outcome_example =
    wake_all_outcome 2 0 one_waits sleepy one_waits-IsValid sleepy-IsConsistent (omega arith)
