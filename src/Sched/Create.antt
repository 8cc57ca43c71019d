-- ===== src/Sched/Create.antt =====
-- kernel/sched/sched.c: `sched_create_kernel_task`.
use gnu_os.Base.{
  ℕ, ◌<◌, ◌≡◌, ◌≢◌, refl, sym, ap, ◌∙◌, subst, ◌⊎◌, inl, inr, true, false, Bool-cases, Option-cases,
  arith, ◌==◌, [], ◌∷◌, ◌++◌, Option, none, some, length, get_or-set_self, find_idx_from-some,
  find_idx_from-none, find_idx_from,
}
use gnu_os.Ring.{Ring}
use gnu_os.Sched.State.{
  reset_task, Sched, max_tasks, is_unused, is_blocked, task_at, set_task, alloc_task_slot,
}
use gnu_os.Sched.Switch.{reserve_task, drop_task, start_task, create_kernel_task}
use gnu_os.Sched.Pick.Kept.{entries, with_queue}
use gnu_os.Sched.Consistent.{IsConsistent}
use gnu_os.Sched.Start.{
  unused_not_ready, unused_not_running, IsConsistent-other, new_task, reserved, started,
  start_outcome,
}

-- The first slot that is not in use.
pub record FirstUnused (s : Sched) (i : ℕ) : Type 0 where
  pub in_table : i < max_tasks
  pub free : is_unused (task_at s i).state ≡ true
  pub first : (j : ℕ) → j < i → is_unused (task_at s j).state ≡ false

slot_cases :
    (s : Sched)
    → length s.tasks ≡ max_tasks
    → ((alloc_task_slot s ≡ none)
        × ((j : ℕ) → j < max_tasks → is_unused (task_at s j).state ≡ false))
      ⊎ ((i : ℕ) × (alloc_task_slot s ≡ some i) × FirstUnused s i)
unfolding alloc_task_slot
slot_cases s n = elim (Option-cases (find_idx_from (λ t. is_unused t.state) 0 s.tasks)) [
  | inl e ↦ inl (
    e,
    λ j l. find_idx_from-none (λ t. is_unused t.state) 0 s.tasks reset_task j e (omega (arith, n)),
  )
  | inr (k, e) ↦
      let (j, same, l, free, first) =
        find_idx_from-some (λ t. is_unused t.state) 0 s.tasks reset_task e in
      let at : j ≡ k = omega (arith, same) in
      inr (
        k,
        e,
        subst (FirstUnused s) at
            (record { in_table = omega (arith, n, l); free = free; first = first }),
      )
]

-- The answers of `sched_create_kernel_task`: no entry point, no slot, no stack page, a new task.
abbrev pub Creates : Sched → (name entry arg page : ℕ) → Option ℕ × Sched → Type 0
Creates s name entry arg page out =
    ((entry ≡ 0) × (out ≡ (none, s)))
    ⊎ ((entry ≢ 0)
        × ((j : ℕ) → j < max_tasks → is_unused (task_at s j).state ≡ false)
        × (out ≡ (none, s)))
    ⊎ ((entry ≢ 0)
        × (page ≡ 0)
        × (i : ℕ) × FirstUnused s i
        × (out ≡ (none, drop_task (reserved s i name entry arg) i)))
    ⊎ ((entry ≢ 0)
        × (page ≢ 0)
        × (i : ℕ) × FirstUnused s i
        × (q : Ring ℕ) × (entries q ≡ entries s.ready_queue ++ (i ∷ []))
        × (out ≡ (
          some i,
          with_queue
              (set_task (reserved s i name entry arg) i
                (started (new_task s i name entry arg) page))
              q,
        )))

reserve_some :
    (s : Sched) (name entry arg i : ℕ)
    → (entry == 0) ≡ false
    → alloc_task_slot s ≡ some i
    → reserve_task s name entry arg ≡ some (i, reserved s i name entry arg)
unfolding reserve_task
reserve_some s name entry arg i ok e = rw (reserve_task, ok, e) refl

reserve_none :
    (s : Sched) (name entry arg : ℕ)
    → (entry == 0) ≡ true ⊎ (alloc_task_slot s ≡ none)
    → reserve_task s name entry arg ≡ none
unfolding reserve_task
reserve_none s name entry arg (inl e) = rw (reserve_task, e) refl
reserve_none s name entry arg (inr e) = elim (Bool-cases (entry == 0)) [
  | inl k ↦ rw (reserve_task, k) refl
  | inr k ↦ rw (reserve_task, k, e) refl
]

after_reserve : Sched → (page : ℕ) → Option (ℕ × Sched) → Option ℕ × Sched
after_reserve s page o = elim o [ none ↦ (none, s) | some (i, s') ↦ start_task s' i page ]

create_after :
    (s : Sched) (name entry arg page : ℕ) (o : Option (ℕ × Sched))
    → reserve_task s name entry arg ≡ o
    → create_kernel_task s name entry arg page ≡ after_reserve s page o
unfolding create_kernel_task after_reserve
create_after s name entry arg page o e = ap (after_reserve s page) e

reserved-IsConsistent :
    (s : Sched) (i name entry arg : ℕ)
    → IsConsistent s
    → FirstUnused s i
    → IsConsistent (reserved s i name entry arg)
reserved-IsConsistent s i name entry arg v f =
    IsConsistent-other s i (new_task s i name entry arg) v f.in_table
      (unused_not_ready (task_at s i) f.free) (unused_not_running (task_at s i) f.free) refl refl

pub create_task_outcome :
    (s : Sched) (name entry arg page : ℕ)
    → IsConsistent s
    → Creates s name entry arg page (create_kernel_task s name entry arg page)
      × IsConsistent (create_kernel_task s name entry arg page).1
unfolding after_reserve
create_task_outcome s name entry arg page v = elim (Bool-cases (entry == 0)) [
  | inl k ↦
      let e = create_after s name entry arg page none (reserve_none s name entry arg (inl k)) in
      (inl (ground arith, e), subst (λ o. IsConsistent o.1) (sym e) v)
  | inr k ↦ elim (slot_cases s v.storage) [
    | inl (full, all_used) ↦
        let e =
          create_after s name entry arg page none (reserve_none s name entry arg (inr full)) in
        (inr (inl (ground arith, all_used, e)), subst (λ o. IsConsistent o.1) (sym e) v)
    | inr (i, found, f) ↦
        let r = reserved s i name entry arg in
        let e =
          create_after s name entry arg page (some (i, r))
            (reserve_some s name entry arg i k found) in
        let same : task_at r i ≡ new_task s i name entry arg =
          get_or-set_self s.tasks i (new_task s i name entry arg) reset_task
            (omega (arith, f.in_table, v.storage)) in
        elim (start_outcome r i page (reserved-IsConsistent s i name entry arg v f)
          (ap (λ t. is_blocked t.state) same)) [
            | inl (no_page, out, w) ↦ (
              inr (inr (inl (ground arith, no_page, i, f, e ∙ out))),
              subst (λ o. IsConsistent o.1) (sym (e ∙ out)) w,
            )
            | inr (paged, q, out, c, w) ↦ (
              inr (
                  inr (
                    inr (
                      ground arith,
                      paged,
                      i,
                      f,
                      q,
                      c,
                      e
                          ∙ out
                          ∙ ap (λ t. (some i, with_queue (set_task r i (started t page)) q)) same,
                    ))),
              subst (λ o. IsConsistent o.1) (sym (e ∙ out)) w,
            )
          ]
  ]
]
