-- ===== src/Workqueue/Order.antt =====
-- kernel/sched/workqueue.c: what `workqueue_submit` does, and the order in which items are taken.
use gnu_os.Base.{
  ℕ, ◌<◌, ◌≡◌, ◌≢◌, refl, sym, ap, ◌∙◌, subst, ◌⊎◌, inl, inr, Bool-cases, arith, ◌==◌, List, [],
  ◌∷◌, ◌++◌, append_assoc, append-nil, Option, none, some, inc64,
}
use native.Mathlib.Decide.{dec_lt, ℕ_discrete}
use gnu_os.Ring.{IsValid}
use gnu_os.Ring.Contents.{contents}
use gnu_os.Ring.Refine.{enqueue_grows, enqueue_full, dequeue_empty, dequeue_shrinks}
use gnu_os.Sched.State.{Sched, max_tasks}
use gnu_os.Sched.WaitQueue.{wake_one_locked}
use gnu_os.Sched.Consistent.{IsConsistent}
use gnu_os.Sched.WakeAll.{WakesOne, wake_one_outcome}
use gnu_os.Workqueue.{
  WorkQueue, Item, no_item, work_capacity, submit_locked, wake_waiter, submit, take, pop_locked,
  complete,
}

-- The items that wait to be taken, oldest first.
abbrev pub waiting : WorkQueue → List Item
waiting w = contents no_item work_capacity w.pending

abbrev pub IsSound : WorkQueue → Type 0
IsSound w = IsValid work_capacity w.pending

-- The two answers of the locked part of `workqueue_submit`.
abbrev pub SubmitsLocked : WorkQueue → Item → Option WorkQueue → Type 0
SubmitsLocked w item out =
    ((w.pending.size ≡ work_capacity) × (out ≡ none))
    ⊎ ((w.pending.size < work_capacity)
        × (w' : WorkQueue) × (out ≡ some w')
        × IsSound w'
        × (waiting w' ≡ waiting w ++ (item ∷ []))
        × (w'.submitted ≡ inc64 w.submitted)
        × (w'.completed ≡ w.completed)
        × (w'.waiters ≡ w.waiters))

pub submit_locked_outcome :
    (w : WorkQueue) (item : Item) → IsSound w → SubmitsLocked w item (submit_locked w item)
unfolding submit_locked
submit_locked_outcome w item v = elim (dec_lt w.pending.size work_capacity) [
  | no full ↦ inl (
    omega (arith, v.size_in),
    rw (submit_locked, enqueue_full work_capacity no_item w.pending item (omega arith)) refl,
  )
  | yes l ↦
      let (q, put, v', c, _, _) = enqueue_grows work_capacity no_item w.pending item v l in
      inr (
        l,
        record w { pending = q; submitted = inc64 w.submitted },
        rw (submit_locked, put) refl,
        v',
        c,
        refl,
        refl,
        refl,
      )
]

abbrev pub Takes : WorkQueue → Option (Item × WorkQueue) → Type 0
Takes w out =
    ((w.pending.size ≡ 0) × (out ≡ none))
    ⊎ ((item : Item) × (w' : WorkQueue) × (out ≡ some (item, w'))
        × IsSound w'
        × (waiting w ≡ item ∷ waiting w'))

pub take_outcome : (w : WorkQueue) → IsSound w → Takes w (take w)
unfolding take pop_locked
take_outcome w v = elim (ℕ_discrete w.pending.size 0) [
  | yes e ↦ inl (e, rw (take, pop_locked, dequeue_empty work_capacity no_item w.pending e) refl)
  | no ne ↦
      let (item, q, taken, v', c, _, _, _) = dequeue_shrinks work_capacity no_item w.pending v ne in
      inr (item, record w { pending = q }, rw (take, pop_locked, taken) refl, v', c)
]

-- The locked parts of the calls, in the order in which they take the queue's lock.
pub data Part : Type 0 where
  submits : Item → Part
  takes completes : Part

abbrev state_or : WorkQueue → Option WorkQueue → WorkQueue
state_or w none = w
state_or w (some w') = w'

abbrev left_by : WorkQueue → Option (Item × WorkQueue) → WorkQueue
left_by w none = w
left_by w (some (item, w')) = w'

unfoldable pub after : WorkQueue → Part → WorkQueue
after w (submits item) = state_or w (submit_locked w item)
after w takes = left_by w (take w)
after w completes = complete w

abbrev item_if : Item → Option WorkQueue → List Item
item_if item none = []
item_if item (some w') = item ∷ []

abbrev item_of : Option (Item × WorkQueue) → List Item
item_of none = []
item_of (some (item, w')) = item ∷ []

-- The items that a part puts in, and that it takes out.
abbrev put_in : WorkQueue → Part → List Item
put_in w (submits item) = item_if item (submit_locked w item)
put_in w _ = []

abbrev taken_out : WorkQueue → Part → List Item
taken_out w takes = item_of (take w)
taken_out w _ = []

unfoldable pub run : WorkQueue → List Part → WorkQueue
run w [] = w
run w (p ∷ ps) = run (after w p) ps

unfoldable pub all_put_in : WorkQueue → List Part → List Item
all_put_in w [] = []
all_put_in w (p ∷ ps) = put_in w p ++ all_put_in (after w p) ps

unfoldable pub all_taken_out : WorkQueue → List Part → List Item
all_taken_out w [] = []
all_taken_out w (p ∷ ps) = taken_out w p ++ all_taken_out (after w p) ps

step_in_order :
    (w : WorkQueue) (p : Part)
    → IsSound w
    → IsSound (after w p) × (waiting w ++ put_in w p ≡ taken_out w p ++ waiting (after w p))
unfolding after complete
step_in_order w completes v = (v, append-nil (waiting w))
step_in_order w (submits item) v = elim (submit_locked_outcome w item v) [
  | inl (_, e) ↦ rw e (v, append-nil (waiting w))
  | inr (_, w', e, v', c, _, _, _) ↦ rw e (v', sym c)
]
step_in_order w takes v = elim (take_outcome w v) [
  | inl (_, e) ↦ rw e (v, append-nil (waiting w))
  | inr (item, w', e, v', c) ↦ rw e (v', append-nil (waiting w) ∙ c)
]

-- Over any sequence of the locked parts of submissions, takes and completions on a sound work queue, the
-- items that waited at the start followed by those accepted are those taken followed by those that wait
-- at the end: every accepted item is taken once at most, in the order of submission, and none is lost.
pub work_in_order :
    (w : WorkQueue) (ps : List Part)
    → IsSound w
    → IsSound (run w ps) × (waiting w ++ all_put_in w ps ≡ all_taken_out w ps ++ waiting (run w ps))
unfolding run all_put_in all_taken_out
work_in_order w [] v = (v, append-nil (waiting w))
work_in_order w (p ∷ ps) v =
    let (v', e) = step_in_order w p v in
    let (v'', e') = work_in_order (after w p) ps v' in
    (
      v'',
      sym (append_assoc (waiting w) (put_in w p) (all_put_in (after w p) ps))
          ∙ ap (λ xs. xs ++ all_put_in (after w p) ps) e
          ∙ append_assoc (taken_out w p) (waiting (after w p)) (all_put_in (after w p) ps)
          ∙ ap (λ xs. taken_out w p ++ xs) e'
          ∙ sym (
              append_assoc (taken_out w p) (all_taken_out (after w p) ps)
                (waiting (run (after w p) ps))),
    )

-- The answers of `workqueue_submit`: no function, a full queue, and an item taken with a waiter woken.
abbrev pub Submits : WorkQueue → Sched → Item → ℕ × WorkQueue × Sched → Type 0
Submits w s item out =
    ((item.func ≡ 0) × (out ≡ (0, w, s)))
    ⊎ ((item.func ≢ 0) × (w.pending.size ≡ work_capacity) × (out ≡ (0, w, s)))
    ⊎ ((item.func ≢ 0)
        × (out.0 ≡ 1)
        × IsSound out.1
        × (waiting out.1 ≡ waiting w ++ (item ∷ []))
        × (out.1.submitted ≡ inc64 w.submitted)
        × ((woken : ℕ) × WakesOne w.waiters s (woken, out.1.waiters, out.2)))

-- `workqueue_submit` on a sound work queue with valid waiters and a consistent scheduler: 0 with nothing
-- changed for a NULL function or a full queue; otherwise the item waits last, the submission is
-- counted, the answer is 1, and the first blocked task among the waiters is made ready, if there is one.
pub submit_outcome :
    (w : WorkQueue) (s : Sched) (item : Item)
    → IsSound w
    → IsValid max_tasks w.waiters
    → IsConsistent s
    → Submits w s item (submit w s item)
unfolding submit wake_waiter
submit_outcome w s item v ready_waiters c = elim (Bool-cases (item.func == 0)) [
  | inl no_func ↦ inl (ground arith, rw (submit, no_func) refl)
  | inr func ↦ elim (submit_locked_outcome w item v) [
    | inl (full, e) ↦ inr (inl (ground arith, full, rw (submit, func, e) refl))
    | inr (_, w', e, v', more, counted, _, same) ↦
        let one = wake_one_locked w'.waiters s in
        let out : submit w s item ≡ (1, record w' { waiters = one.1 }, one.2) =
          rw (submit, func, e) refl in
        let woke : WakesOne w.waiters s one =
          subst (λ q. WakesOne w.waiters s (wake_one_locked q s)) (sym same)
            (wake_one_outcome w.waiters s ready_waiters c) in
        inr (
          inr (
            ground arith,
            ap (λ o. o.0) out,
            subst (λ (o : ℕ × WorkQueue × Sched). IsSound o.1) (sym out) v',
            ap (λ o. waiting o.1) out ∙ more,
            ap (λ o. o.1.submitted) out ∙ counted,
            (
              one.0,
              subst (λ (o : ℕ × WorkQueue × Sched). WakesOne w.waiters s (one.0, o.1.waiters, o.2))
                  (sym out) woke,
            ),
          ))
  ]
]
