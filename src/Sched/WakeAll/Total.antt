-- ===== src/Sched/WakeAll/Total.antt =====
-- kernel/sched/sched.c: `sched_wait_queue_wake_all` empties the wait queue.
use native.Mathlib.Decide.{ℕ_discrete}
use gnu_os.Base.{
  ℕ, zero, suc, ◌+◌, ◌<◌, ◌≡◌, refl, sym, ap, ◌∙◌, inl, inr, true, arith, List, [], ◌∷◌, ◌++◌,
  Option, some, length, get_or-set_ne, append_assoc, append-nil,
}
use gnu_os.Base.Occurs.{occurs, occurs_append}
use gnu_os.Ring.{Ring, IsValid}
use gnu_os.Sched.State.{ready, reset_task, Sched, max_tasks, is_blocked, task_at}
use gnu_os.Sched.WaitQueue.{WaitQueue, wake_one_locked, wake_all_from}
use gnu_os.Sched.Pick.Kept.{entries}
use gnu_os.Sched.Consistent.{IsConsistent}
use gnu_os.Sched.Wake.{woken, blocked_at, blocked_in_table}
use gnu_os.Sched.WakeAll.{NoneBlocked, wake_one_outcome, woken-NoneBlocked}

-- What is left after `count` tasks were woken.
pub record WakesAll (q : WaitQueue) (s : Sched) (count : ℕ) (q' : WaitQueue) (s' : Sched)
    : Type 0 where
  pub emptied : entries q' ≡ []
  pub consistent : IsConsistent s'
  pub nobody : NoneBlocked s' (entries q)
  pub others : (j : ℕ) → occurs j (entries q) ≡ 0 → task_at s' j ≡ task_at s j
  pub queued :
      (woken_ones : List ℕ) × (entries s'.ready_queue ≡ entries s.ready_queue ++ woken_ones)
      × (length woken_ones ≡ count)

abbrev pub Continues : WaitQueue → Sched → ℕ → Option (ℕ × WaitQueue × Sched) → Type 0
Continues q s woke out =
    (count : ℕ) × (q' : WaitQueue) × (s' : Sched) × (out ≡ some (woke + count, q', s'))
    × WakesAll q s count q' s'

-- One task was woken, and then the rest of the queue.
WakesAll-more :
    (q q' q'' : WaitQueue) (s s'' : Sched) (i count : ℕ) (r : Ring ℕ) (skipped : List ℕ)
    → IsConsistent s
    → entries q ≡ skipped ++ (i ∷ entries q')
    → NoneBlocked s skipped
    → blocked_at s i ≡ true
    → entries r ≡ entries s.ready_queue ++ (i ∷ [])
    → WakesAll q' (woken s i r) count q'' s''
    → WakesAll q s (count + 1) q'' s''
WakesAll-more q q' q'' s s'' i count r skipped v d nobody b c w = record {
  emptied = w.emptied;
  consistent = w.consistent;
  nobody = λ j ne. elim (ℕ_discrete (occurs j (entries q')) 0) [
    | no later ↦ w.nobody j later
    | yes gone ↦
        ap (λ t. is_blocked t.state) (w.others j gone)
        ∙ woken-NoneBlocked s i r skipped (omega (arith, v.storage, l)) nobody j
            (λ z. ne (omega (arith, split j, gone, z)))
  ];
  others = λ j none_here.
      w.others j (omega (arith, split j, none_here))
      ∙ get_or-set_ne s.tasks i j (record (task_at s i) { state = ready }) reset_task
          (λ e. absurd (ground (arith, split j, none_here, occurs_append j skipped (i ∷ []), e)));
  queued =
      let (more, e, n) = w.queued in
      (
        i ∷ more,
        e ∙ ap (λ xs. xs ++ more) c ∙ append_assoc (entries s.ready_queue) (i ∷ []) more,
        omega (arith, n),
      );
}
  where
    l : i < max_tasks
    l = blocked_in_table s i v b

    split : (j : ℕ) → occurs j (entries q) ≡ occurs j (skipped ++ (i ∷ [])) + occurs j (entries q')
    split j =
        ap (occurs j) (d ∙ sym (append_assoc skipped (i ∷ []) (entries q')))
        ∙ occurs_append j (skipped ++ (i ∷ [])) (entries q')

wake_all_stops :
    (fuel woke : ℕ) (q q' : WaitQueue) (s : Sched)
    → wake_one_locked q s ≡ (0, q', s)
    → wake_all_from (suc fuel) woke q s ≡ some (woke, q', s)
unfolding wake_all_from
wake_all_stops fuel woke q q' s o = rw (wake_all_from, o) refl

wake_all_goes_on :
    (fuel woke : ℕ) (q q' : WaitQueue) (s s' : Sched)
    → wake_one_locked q s ≡ (1, q', s')
    → wake_all_from (suc fuel) woke q s ≡ wake_all_from fuel (woke + 1) q' s'
unfolding wake_all_from
wake_all_goes_on fuel woke q q' s s' o = rw (wake_all_from, o) refl

-- `sched_wait_queue_wake_all` on a valid wait queue of a consistent scheduler, with more fuel than the
-- queue has entries, gives a result: the wait queue is empty, no task that was in it is blocked, every
-- other task is as before, the scheduler is consistent, and as many tasks were added at the end of the
-- ready queue as were counted.
pub wake_all_outcome :
    (fuel woke : ℕ) (q : WaitQueue) (s : Sched)
    → IsValid max_tasks q
    → IsConsistent s
    → q.size < fuel
    → Continues q s woke (wake_all_from fuel woke q s)
wake_all_outcome zero woke q s w v l = absurd (omega arith)
wake_all_outcome (suc fuel) woke q s w v l = elim (wake_one_outcome q s w v) [
  | inl (q', o, gone, w', nobody) ↦ (
    0,
    q',
    s,
    wake_all_stops fuel woke q q' s o ∙ ap (λ n. some (n, q', s)) (omega arith),
    record {
      emptied = gone;
      consistent = v;
      nobody = nobody;
      others = λ j e. refl;
      queued = ([], sym (append-nil (entries s.ready_queue)), refl);
    },
  )
  | inr (q', i, r, skipped, o, d, nobody, b, c, w', fewer, v') ↦
      let (count, q'', s'', e, a) =
        wake_all_outcome fuel (woke + 1) q' (woken s i r) w' v' (omega arith) in
      (
        count + 1,
        q'',
        s'',
        wake_all_goes_on fuel woke q q' s (woken s i r) o
            ∙ e
            ∙ ap (λ n. some (n, q'', s'')) (omega arith),
        WakesAll-more q q' q'' s s'' i count r skipped v d nobody b c a,
      )
]
