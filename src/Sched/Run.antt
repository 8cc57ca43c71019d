-- ===== src/Sched/Run.antt =====
-- kernel/sched/sched.c: `sched_run`, by which the bootstrap task hands the processor to a ready task.
use native.Mathlib.Decide.{ℕ_discrete, dec_lt}
use gnu_os.Base.{
  ℕ, ◌≤◌, ◌<◌, ◌≡◌, refl, sym, ap, ◌∙◌, subst, ◌⊎◌, inl, inr, true, false, Bool-cases, arith, ◌==◌,
  if◌then◌else◌, List, [], Option, none, some, length, get_or, set, length-set, get_or-set_self,
  get_or-set_ne, inc64,
}
use gnu_os.Base.Occurs.{occurs, one_if, filter, occurs-filter, length-filter}
use gnu_os.Ring.{Ring, IsValid}
use gnu_os.Ring.Refine.{length-contents}
use gnu_os.Sched.State.{
  running, Task, reset_task, bootstrap, Sched, max_tasks, index_none, is_ready, task_at,
}
use gnu_os.Sched.Pick.{
  keeps, emptied, best_from, pick_next_ready, goes_before, switch_to, run_from_bootstrap, run,
}
use gnu_os.Sched.Pick.Least.{ready_at, chosen-Best}
use gnu_os.Sched.Pick.Kept.{entries, with_queue, drain_keeps, refill_appends}
use gnu_os.Sched.Consistent.{IsConsistent, Queued, Runs, get_or-beyond}
use gnu_os.Sched.Running.{Runs-start}

-- The entries that stay when task `b` is taken.
abbrev pub kept_entries : Sched → ℕ → List ℕ
kept_entries s b = filter (λ c. keeps s b c) (entries s.ready_queue)

emptied-IsValid :
    (q : Ring ℕ)
    → IsValid max_tasks q
    → IsValid max_tasks (record q { head = 0; tail = 0; size = 0 })
emptied-IsValid q v = record {
  small = v.small;
  storage = v.storage;
  head_in = omega arith;
  tail_at = refl;
  size_in = omega arith;
}

-- With a valid ready queue, the choice of a task never fails once there is a ready task.
pub pick_some :
    (s : Sched) (b : ℕ)
    → IsValid max_tasks s.ready_queue
    → best_from s max_tasks 0 index_none ≡ b
    → (b == index_none) ≡ false
    → (q : Ring ℕ) × (pick_next_ready s ≡ (some b, with_queue s q))
      × IsValid max_tasks q
      × (entries q ≡ kept_entries s b)
unfolding pick_next_ready
pick_some s b v e found =
    let (q, drained, w) = drain_keeps b s.ready_queue.size s [] v refl in
    let short : length (kept_entries s b) ≤ max_tasks = omega (
      arith,
      length-filter (λ c. keeps s b c) (entries s.ready_queue),
      length-contents max_tasks 0 s.ready_queue,
      v.size_in,
    ) in
    let (q', filled, w', c) =
      refill_appends (kept_entries s b) (emptied (with_queue s q)) (emptied-IsValid q w)
        (omega (arith, short)) in
    (q', rw (pick_next_ready, e, drained, found, filled) refl, w', c)

pub pick_none :
    (s : Sched) → best_from s max_tasks 0 index_none ≡ index_none → pick_next_ready s ≡ (none, s)
unfolding pick_next_ready
pick_none s e = rw (pick_next_ready, e) refl

ready_in_table :
    (s : Sched) (i : ℕ) → length s.tasks ≡ max_tasks → ready_at s i ≡ true → i < max_tasks
ready_in_table s i n h = elim (dec_lt i max_tasks) [
  | yes l ↦ l
  | no l ↦
      absurd
        (ground (arith, ap (λ t. is_ready t.state) (get_or-beyond s.tasks i (omega (arith, n))), h))
]

kept_exact :
    (s : Sched) (b : ℕ) (t : Task) (j : ℕ)
    → length s.tasks ≡ max_tasks
    → b < max_tasks
    → is_ready t.state ≡ false
    → occurs j (entries s.ready_queue) ≡ one_if (ready_at s j)
    → (if keeps s b j then occurs j (entries s.ready_queue) else 0)
      ≡ one_if (is_ready (get_or (set s.tasks b t) j reset_task).state)
kept_exact s b t j n l h e = elim (ℕ_discrete b j) [
  | yes same ↦
      let gone : keeps s b j ≡ false = ground arith in
      let after : is_ready (get_or (set s.tasks b t) j reset_task).state ≡ false =
        ap (λ k. is_ready (get_or (set s.tasks b t) k reset_task).state) (sym same)
        ∙ ap (λ x. is_ready x.state) (get_or-set_self s.tasks b t reset_task (omega (arith, n)))
        ∙ h in
      rw (gone, after) refl
  | no other ↦
      let after : is_ready (get_or (set s.tasks b t) j reset_task).state ≡ ready_at s j =
        ap (λ x. is_ready x.state) (get_or-set_ne s.tasks b j t reset_task other) in
      elim (Bool-cases (ready_at s j)) [
        | inl r ↦
            let there : j < max_tasks = ready_in_table s j n r in
            let stays : keeps s b j ≡ true = ground arith in rw (stays, after) e
        | inr r ↦ let gone : keeps s b j ≡ false = ground arith in rw (gone, after, r) refl
      ]
]

-- Taking task `b` leaves exactly the other ready tasks in the queue.
taken-Queued :
    (s : Sched) (b : ℕ) (t : Task) (q : Ring ℕ)
    → length s.tasks ≡ max_tasks
    → Queued s.tasks s.ready_queue
    → b < max_tasks
    → is_ready t.state ≡ false
    → IsValid max_tasks q
    → entries q ≡ kept_entries s b
    → Queued (set s.tasks b t) q
taken-Queued s b t q n v l h w c = record {
  ring = w;
  exact = λ j.
      ap (occurs j) c
      ∙ occurs-filter (λ c. keeps s b c) j (entries s.ready_queue)
      ∙ kept_exact s b t j n l h (v.exact j);
}

abbrev pub NobodyReady : Sched → Type 0
NobodyReady s = (j : ℕ) → j < max_tasks → ready_at s j ≡ false

-- `b` is ready, and every ready task has more virtual run time, or as much and no smaller number.
pub record Least (s : Sched) (b : ℕ) : Type 0 where
  pub in_table : b < max_tasks
  pub is_ready : ready_at s b ≡ true
  pub least :
      (j : ℕ)
      → j < max_tasks
      → ready_at s j ≡ true
      → ((task_at s b).vruntime < (task_at s j).vruntime)
        ⊎ (((task_at s b).vruntime ≡ (task_at s j).vruntime)
            × ((task_at s b).tid ≤ (task_at s j).tid))

not_before :
    (a b : Task)
    → goes_before a b ≡ false
    → (b.vruntime < a.vruntime) ⊎ ((b.vruntime ≡ a.vruntime) × (b.tid ≤ a.tid))
not_before a b h = elim (ℕ_discrete b.vruntime a.vruntime) [
  | yes e ↦ inr (e, ground (arith, h, e))
  | no ne ↦ inl (ground (arith, h, ne))
]

run_in_bootstrap : (s : Sched) → s.current ≡ bootstrap → run s ≡ run_from_bootstrap s
unfolding run
run_in_bootstrap s e = ap (λ c. elim c [ bootstrap ↦ run_from_bootstrap s | _ ↦ (0, s) ]) e

-- What `sched_run` does with a choice.
abbrev answer : Option ℕ × Sched → ℕ × Sched
answer o = elim o.0 [ none ↦ (0, o.1) | some i ↦ (1, switch_to o.1 i) ]

-- The answers of `sched_run`: no ready task, and a switch.
abbrev pub RunAnswers : Sched → Type 0
RunAnswers s =
    ((run s ≡ (0, s)) × NobodyReady s)
    ⊎ ((b : ℕ) × (q : Ring ℕ) × (run s ≡ (1, switch_to (with_queue s q) b))
        × Least s b
        × (entries q ≡ kept_entries s b)
        × IsConsistent (switch_to (with_queue s q) b))

-- `sched_run` by the bootstrap task of a consistent scheduler: it answers 0 and changes nothing only
-- where no task is ready; otherwise it switches to the ready task with the least virtual run time, the
-- smallest number among equals, which leaves the ready queue while all others keep their order, and the
-- scheduler is consistent with that task running.
pub run_outcome : (s : Sched) → IsConsistent s → s.current ≡ bootstrap → RunAnswers s
unfolding run_from_bootstrap switch_to
run_outcome s v e = elim (chosen-Best s) [
  | inl (none_found, nobody) ↦
      inl (run_in_bootstrap s e ∙ ap answer (pick_none s none_found), nobody)
  | inr (l, r, least) ↦
      let b = best_from s max_tasks 0 index_none in
      let (q, picked, w, c) = pick_some s b v.queued.ring refl (ground arith) in
      let t : Task = record (task_at s b) {
        state = running;
        context_switches = inc64 (task_at s b).context_switches;
      } in
      inr (
        b,
        q,
        run_in_bootstrap s e ∙ ap answer picked,
        record {
          in_table = l;
          is_ready = r;
          least = λ j m k. not_before (task_at s j) (task_at s b) (least j m k);
        },
        c,
        record {
          storage = length-set s.tasks b t ∙ v.storage;
          queued = taken-Queued s b t q v.storage v.queued l refl w c;
          runs =
              Runs-start s.tasks b t (omega (arith, v.storage))
                (subst (λ c. Runs s.tasks c) e v.runs) refl;
          indexed = refl;
        },
      )
]
