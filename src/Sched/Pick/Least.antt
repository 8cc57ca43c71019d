-- ===== src/Sched/Pick/Least.antt =====
-- kernel/sched/sched.c: which task `sched_pick_next_ready` chooses.
use gnu_os.Base.{
  ℕ, zero, suc, ◌+◌, ◌≤◌, ◌<◌, ◌≡◌, refl, sym, subst, ◌⊎◌, inl, inr, Bool, true, false, Bool-cases,
  arith, ◌==◌, if◌then◌else◌,
}
use gnu_os.Sched.State.{Sched, Task, index_none, is_ready, task_at, max_tasks}
use gnu_os.Sched.Pick.{goes_before, better, best_from}
use native.Mathlib.Decide.{ℕ_discrete}

goes_before_trans :
    (a b c : Task) → goes_before a b ≡ true → goes_before c b ≡ false → goes_before c a ≡ false
goes_before_trans a b c h k = ground arith

goes_before_self : (a : Task) → goes_before a a ≡ false
goes_before_self a = ground arith

abbrev pub ready_at : Sched → ℕ → Bool
ready_at s i = is_ready (task_at s i).state

-- `b` is the best of the ready tasks below `n`: the least by virtual run time, then by thread number,
-- or `index_none` where no task is ready.
abbrev pub Best : Sched → ℕ → ℕ → Type 0
Best s n b =
    ((b ≡ index_none) × ((j : ℕ) → j < n → ready_at s j ≡ false))
    ⊎ ((b < n)
        × (ready_at s b ≡ true)
        × ((j : ℕ) → j < n → ready_at s j ≡ true → goes_before (task_at s j) (task_at s b) ≡ false))

below_suc : {P : ℕ → Type 0} (i : ℕ) → ((j : ℕ) → j < i → P j) → P i → (j : ℕ) → j < i + 1 → P j
below_suc {P} i below here j l = elim (ℕ_discrete j i) [
  | yes e ↦ subst P (sym e) here
  | no ne ↦ below j (omega arith)
]

-- The body of the loop on a slot that is not ready, on the first that is, and on a later one.
better_not_ready : (s : Sched) (i b : ℕ) → ready_at s i ≡ false → better s i b ≡ b
better_not_ready s i b h = rw h refl

better_first : (s : Sched) (i b : ℕ) → ready_at s i ≡ true → b ≡ index_none → better s i b ≡ i
better_first s i b h e = rw (h, e) refl

better_later :
    (s : Sched) (i b : ℕ) (before : Bool)
    → ready_at s i ≡ true
    → (b == index_none) ≡ false
    → goes_before (task_at s i) (task_at s b) ≡ before
    → better s i b ≡ (if before then i else b)
better_later s i b before h k e = rw (h, k, e) refl

better-Best : (s : Sched) (i b : ℕ) → i < index_none → Best s i b → Best s (i + 1) (better s i b)
better-Best s i b small h = elim (Bool-cases (ready_at s i)) [
  | inr other ↦ subst (Best s (i + 1)) (sym (better_not_ready s i b other)) (skip other h)
  | inl ready ↦ take ready h
]
  where
    skip : ready_at s i ≡ false → Best s i b → Best s (i + 1) b
    skip other (inl (e, nobody)) = inl (e, below_suc i nobody other)
    skip other (inr (l, r, least)) =
        inr (omega arith, r, below_suc i least (λ ready. absurd (ground (arith, other, ready))))

    take : ready_at s i ≡ true → Best s i b → Best s (i + 1) (better s i b)
    take ready (inl (e, nobody)) = subst (Best s (i + 1)) (sym (better_first s i b ready e)) (
        inr (
          omega arith,
          ready,
          below_suc i (λ j l r. absurd (ground (arith, nobody j l, r)))
              (λ r. goes_before_self (task_at s i)),
        ))
    take ready (inr (l, r, least)) = elim (Bool-cases (goes_before (task_at s i) (task_at s b))) [
      | inl before ↦
          subst (Best s (i + 1)) (sym (better_later s i b true ready (ground arith) before)) (
            inr (
              omega arith,
              ready,
              below_suc i
                  (λ j k q.
                    goes_before_trans (task_at s i) (task_at s b) (task_at s j) before
                      (least j k q))
                  (λ q. goes_before_self (task_at s i)),
            ))
      | inr after ↦
          subst (Best s (i + 1)) (sym (better_later s i b false ready (ground arith) after))
            (inr (omega arith, r, below_suc i least (λ q. after)))
    ]

best_from-Best :
    (s : Sched) (n i b : ℕ) → i + n ≤ index_none → Best s i b → Best s (i + n) (best_from s n i b)
unfolding best_from
best_from-Best s zero i b l h = subst (λ k. Best s k b) (omega arith) h
best_from-Best s (suc n) i b l h =
    subst (λ k. Best s k (best_from s n (i + 1) (better s i b))) (omega arith)
      (best_from-Best s n (i + 1) (better s i b) (omega arith) (better-Best s i b (omega arith) h))

pub chosen-Best : (s : Sched) → Best s max_tasks (best_from s max_tasks 0 index_none)
chosen-Best s =
    best_from-Best s max_tasks 0 index_none (omega arith) (inl (refl, λ j l. absurd (omega arith)))
