-- ===== src/Sched/Pick/Kept.antt =====
-- kernel/sched/sched.c: what `sched_pick_next_ready` does to the ready queue: the loop that empties it
-- and the loop that puts the kept entries back.
use gnu_os.Base.{
  ℕ, zero, suc, ◌+◌, ◌≤◌, ◌<◌, ◌≡◌, ◌≢◌, refl, sym, ap, ◌∙◌, inl, inr, true, Bool-cases, arith,
  List, [], ◌∷◌, ◌++◌, some, length, append_assoc, append-nil,
}
use gnu_os.Base.Occurs.{filter}
use gnu_os.Ring.{Ring, IsValid}
use gnu_os.Ring.Contents.{contents, window}
use gnu_os.Ring.Refine.{enqueue_grows, dequeue_shrinks}
use gnu_os.Sched.State.{Sched, max_tasks, enqueue_task, dequeue_task}
use gnu_os.Sched.Pick.{keeps, drain, refill}

-- The entries of the ready queue, oldest first.
abbrev pub entries : Ring ℕ → List ℕ
entries q = contents 0 max_tasks q

abbrev pub with_queue : Sched → Ring ℕ → Sched
with_queue s q = record s { ready_queue = q }

pub entries_none : (q : Ring ℕ) → q.size ≡ 0 → entries q ≡ []
entries_none q e = ap (λ n. window 0 q.items max_tasks q.head n) e

pub enqueue_task_grows :
    (s : Sched) (i : ℕ)
    → IsValid max_tasks s.ready_queue
    → s.ready_queue.size < max_tasks
    → (q : Ring ℕ) × (enqueue_task s i ≡ some (with_queue s q))
      × IsValid max_tasks q
      × (entries q ≡ entries s.ready_queue ++ (i ∷ []))
      × (q.size ≡ s.ready_queue.size + 1)
unfolding enqueue_task
enqueue_task_grows s i v room =
    let (q, put, v', c, more, _) = enqueue_grows max_tasks 0 s.ready_queue i v room in
    (q, rw (enqueue_task, put) refl, v', c, more)

pub dequeue_task_shrinks :
    (s : Sched)
    → IsValid max_tasks s.ready_queue
    → s.ready_queue.size ≢ 0
    → (i : ℕ) × (q : Ring ℕ) × (dequeue_task s ≡ some (i, with_queue s q))
      × IsValid max_tasks q
      × (entries s.ready_queue ≡ i ∷ entries q)
      × (q.size + 1 ≡ s.ready_queue.size)
unfolding dequeue_task
dequeue_task_shrinks s v some_left =
    let (i, q, taken, v', c, less, _, _) = dequeue_shrinks max_tasks 0 s.ready_queue v some_left in
    (i, q, rw (dequeue_task, taken) refl, v', c, less)

pub drain_keeps :
    (b n : ℕ) (s : Sched) (kept : List ℕ)
    → IsValid max_tasks s.ready_queue
    → s.ready_queue.size ≡ n
    → (q : Ring ℕ) × (drain b n s kept
        ≡ (kept ++ filter (λ c. keeps s b c) (entries s.ready_queue), with_queue s q))
      × IsValid max_tasks q
unfolding drain
drain_keeps b zero s kept v e = (
  s.ready_queue,
  ap (λ k. (k, s))
      (sym (append-nil kept)
        ∙ ap (λ xs. kept ++ filter (λ c. keeps s b c) xs) (sym (entries_none s.ready_queue e))),
  v,
)
drain_keeps b (suc n) s kept v e =
    let (x, q, step, v', c, less) = dequeue_task_shrinks s v (omega arith) in
    elim (Bool-cases (keeps s b x)) [
      | inl h ↦
          let (q', r, v'') = drain_keeps b n (with_queue s q) (kept ++ (x ∷ [])) v' (omega arith) in
          (
            q',
            rw (drain, step, c, h)
                (r
                  ∙ ap (λ k. (k, with_queue s q'))
                      (append_assoc kept (x ∷ []) (filter (λ c. keeps s b c) (entries q)))),
            v'',
          )
      | inr h ↦
          let (q', r, v'') = drain_keeps b n (with_queue s q) kept v' (omega arith) in
          (q', rw (drain, step, c, h) r, v'')
    ]

pub refill_appends :
    (kept : List ℕ) (s : Sched)
    → IsValid max_tasks s.ready_queue
    → s.ready_queue.size + length kept ≤ max_tasks
    → (q : Ring ℕ) × (refill kept s ≡ (true, with_queue s q))
      × IsValid max_tasks q
      × (entries q ≡ entries s.ready_queue ++ kept)
unfolding refill
refill_appends [] s v l = (s.ready_queue, refl, v, sym (append-nil (entries s.ready_queue)))
refill_appends (x ∷ kept) s v l =
    let (q, step, v', c, more) = enqueue_task_grows s x v (omega arith) in
    let (q', r, v'', c') = refill_appends kept (with_queue s q) v' (omega arith) in
    (
      q',
      rw (refill, step) r,
      v'',
      c' ∙ ap (λ k. k ++ kept) c ∙ append_assoc (entries s.ready_queue) (x ∷ []) kept,
    )
