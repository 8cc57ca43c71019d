-- ===== src/Sched/WakeAll.antt =====
-- kernel/sched/sched.c: the loops of `sched_wait_queue_wake_one` and `sched_wait_queue_wake_all`.
pub mod Total
use native.Mathlib.Decide.{dec_lt, ℕ_discrete}
use gnu_os.Base.{
  ℕ, zero, suc, ◌+◌, ◌≤◌, ◌<◌, ◌≡◌, ◌≢◌, refl, sym, ap, ◌∙◌, subst, ◌⊎◌, inl, inr, Bool, true,
  false, not, ◌||◌, Bool-cases, arith, ◌==◌, leb, if◌then◌else◌, List, [], ◌∷◌, ◌++◌, Option, none,
  some, length, get_or, set, get_or-set_self, get_or-set_ne,
}
use gnu_os.Base.Occurs.{occurs, occurs_append, filter}
use gnu_os.Ring.{Ring, IsValid}
use gnu_os.Sched.State.{
  ready, blocked, Task, reset_task, Current, null, bootstrap, task, Sched, max_tasks, index_none,
  is_ready, is_blocked, task_at,
}
use gnu_os.Sched.WaitQueue.{
  WaitQueue, waitq_dequeue, wake_task, wake_one_from, wake_one_locked, wake_all_from,
}
use gnu_os.Sched.Pick.Kept.{entries, entries_none, with_queue}
use gnu_os.Sched.Consistent.{IsConsistent}
use gnu_os.Sched.Wake.{waitq_dequeue_shrinks, woken, blocked_at, blocked_in_table, wake_succeeds}

-- None of the tasks in the list is blocked.
abbrev pub NoneBlocked : Sched → List ℕ → Type 0
NoneBlocked s is = (j : ℕ) → occurs j is ≢ 0 → blocked_at s j ≡ false

-- The answer where no entry is blocked, and where the first blocked one is `i`.
abbrev pub WakesOne : WaitQueue → Sched → ℕ × WaitQueue × Sched → Type 0
WakesOne q s out =
    ((q' : WaitQueue) × (out ≡ (0, q', s))
      × (entries q' ≡ [])
      × IsValid max_tasks q'
      × NoneBlocked s (entries q))
    ⊎ ((q' : WaitQueue) × (i : ℕ) × (r : Ring ℕ) × (skipped : List ℕ) × (out ≡ (1, q', woken s i r))
        × (entries q ≡ skipped ++ (i ∷ entries q'))
        × NoneBlocked s skipped
        × (blocked_at s i ≡ true)
        × (entries r ≡ entries s.ready_queue ++ (i ∷ []))
        × IsValid max_tasks q'
        × (q'.size < q.size)
        × IsConsistent (woken s i r))

NoneBlocked-cons :
    (s : Sched) (x : ℕ) (xs : List ℕ)
    → blocked_at s x ≡ false
    → NoneBlocked s xs
    → NoneBlocked s (x ∷ xs)
NoneBlocked-cons s x xs h k j ne = elim (ℕ_discrete x j) [
  | yes e ↦ subst (λ i. blocked_at s i ≡ false) e h
  | no other ↦ k j (λ z. ne (ground (arith, z)))
]

-- An entry that is not blocked is passed over.
skips :
    (n : ℕ) (q q' : WaitQueue) (s : Sched) (x : ℕ)
    → waitq_dequeue q ≡ some (x, q')
    → blocked_at s x ≡ false
    → wake_one_from (suc n) q s ≡ wake_one_from n q' s
unfolding wake_one_from
skips n q q' s x taken h = elim (Bool-cases (leb max_tasks x)) [
  | inl k ↦ rw (wake_one_from, taken, k) refl
  | inr k ↦ rw (wake_one_from, taken, k, h) refl
]

takes :
    (n : ℕ) (q q' : WaitQueue) (s : Sched) (x : ℕ)
    → waitq_dequeue q ≡ some (x, q')
    → leb max_tasks x ≡ false
    → blocked_at s x ≡ true
    → wake_one_from (suc n) q s ≡ wake_task q' s x
unfolding wake_one_from
takes n q q' s x taken k h = rw (wake_one_from, taken, k, h) refl

wake_one_from-WakesOne :
    (n : ℕ) (q : WaitQueue) (s : Sched)
    → q.size ≡ n
    → IsValid max_tasks q
    → IsConsistent s
    → WakesOne q s (wake_one_from n q s)
wake_one_from-WakesOne zero q s e w v = inl (
  q,
  (unfold wake_one_from in refl),
  entries_none q e,
  w,
  λ j ne. absurd (ne (ap (occurs j) (entries_none q e))),
)
wake_one_from-WakesOne (suc n) q s e w v =
    let (x, q', taken, w', c, less) = waitq_dequeue_shrinks q w (omega arith) in
    elim (Bool-cases (blocked_at s x)) [
      | inl h ↦
          let l = blocked_in_table s x v h in
          let (r, done, c', v') = wake_succeeds q' s x v h in
          inr (
            q',
            x,
            r,
            [],
            takes n q q' s x taken (ground arith) h ∙ done,
            c,
            (λ j ne. absurd (ne refl)),
            h,
            c',
            w',
            omega arith,
            v',
          )
      | inr h ↦ subst (WakesOne q s) (sym (skips n q q' s x taken h)) (
          widen q q' s x (wake_one_from n q' s) h c less
            (wake_one_from-WakesOne n q' s (omega arith) w' v))
    ]
  where
    widen :
        (q q' : WaitQueue) (s : Sched) (x : ℕ) (out : ℕ × WaitQueue × Sched)
        → blocked_at s x ≡ false
        → entries q ≡ x ∷ entries q'
        → q'.size + 1 ≡ q.size
        → WakesOne q' s out
        → WakesOne q s out
    widen q q' s x out h c less (inl (q'', o, gone, w'', nobody)) = inl (
      q'',
      o,
      gone,
      w'',
      subst (NoneBlocked s) (sym c) (NoneBlocked-cons s x (entries q') h nobody),
    )
    widen q q' s x out h c less (inr (q'', i, r, skipped, o, d, nobody, b, k, w'', fewer, v'')) =
        inr (
          q'',
          i,
          r,
          x ∷ skipped,
          o,
          c ∙ ap (λ xs. x ∷ xs) d,
          NoneBlocked-cons s x skipped h nobody,
          b,
          k,
          w'',
          omega arith,
          v'',
        )

-- `sched_wait_queue_wake_one` on a valid wait queue of a consistent scheduler: it answers 0 only where no
-- task of the queue is blocked, and then the queue is empty and nothing else changed; otherwise the
-- first blocked task of the queue leaves it with all before it, becomes ready at the end of the ready
-- queue, a reschedule is asked for, and the answer is 1.
pub wake_one_outcome :
    (q : WaitQueue) (s : Sched)
    → IsValid max_tasks q
    → IsConsistent s
    → WakesOne q s (wake_one_locked q s)
unfolding wake_one_locked
wake_one_outcome q s w v = wake_one_from-WakesOne q.size q s refl w v

-- A blocked task does not come back by another one being woken.
woken-NoneBlocked :
    (s : Sched) (i : ℕ) (r : Ring ℕ) (is : List ℕ)
    → i < length s.tasks
    → NoneBlocked s is
    → NoneBlocked (woken s i r) (is ++ (i ∷ []))
woken-NoneBlocked s i r is l k j ne = elim (ℕ_discrete i j) [
  | yes e ↦
      subst (λ x. blocked_at (woken s i r) x ≡ false) e
        (ap (λ t. is_blocked t.state)
          (get_or-set_self s.tasks i (record (task_at s i) { state = ready }) reset_task l))
  | no other ↦
      ap (λ t. is_blocked t.state)
        (get_or-set_ne s.tasks i j (record (task_at s i) { state = ready }) reset_task other)
      ∙ k j (λ z. ne (ground (arith, occurs_append j is (i ∷ []), z)))
]
