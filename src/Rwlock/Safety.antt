-- ===== src/Rwlock/Safety.antt =====
-- kernel/lib/rwlock.c: who can be in a critical section at the same time.
use native.Mathlib.Decide.{ℕ_discrete}
use gnu_os.Base.{
  ℕ, zero, suc, ◌^◌, ◌≤◌, ◌<◌, ◌≡◌, ◌≢◌, refl, sym, ap, ◌∙◌, inl, inr, Bool, true, false,
  Bool-cases, List, [], ◌∷◌, ◌==◌, arith, get_or, set, length, length-replicate, replicate, ltb,
  count_if, count_if-replicate, get_or-set_ne,
}
use gnu_os.Rwlock.{Lock, Place, idle, writing, place_at, Wish, step, run, init}
use gnu_os.Rwlock.Exclusion.{
  Excludes, holds_read, holds_write, is_reading, is_writing, change, advance-Excludes,
}

step-Excludes : (l : Lock) (i : ℕ) (wish : Wish) → Excludes l → Excludes (step l i wish)
unfolding step
step-Excludes l i wish x = elim (Bool-cases (ltb i (length l.threads))) [
  | inl k ↦ rw (step, k) (advance-Excludes l i wish (place_at l i) x (ground arith) refl)
  | inr k ↦ rw (step, k) x
]

run-Excludes : (l : Lock) (schedule : List (ℕ × Wish)) → Excludes l → Excludes (run l schedule)
unfolding run
run-Excludes l [] x = x
run-Excludes l ((i, wish) ∷ rest) x = run-Excludes (step l i wish) rest (step-Excludes l i wish x)

-- A lock after `rwlock_init`, with `n` threads outside.
abbrev pub fresh : ℕ → Lock
fresh n = init (record { readers = 0; writer = 0; threads = replicate n idle })

fresh-Excludes : (n : ℕ) → n < 2 ^ 32 → Excludes (fresh n)
unfolding init
fresh-Excludes n h = record {
  few = omega (arith, length-replicate n idle, h);
  counted = sym (count_if-replicate holds_read n idle refl);
  owned = sym (count_if-replicate holds_write n idle refl);
  single = omega arith;
  apart = inl (count_if-replicate is_writing n idle refl);
}

count_if-some :
    (p : Place → Bool) (ps : List Place) (i : ℕ)
    → p idle ≡ false
    → p (get_or ps i idle) ≡ true
    → 1 ≤ count_if p ps
unfolding count_if
count_if-some p [] i outside h = absurd (ground (arith, outside, h))
count_if-some p (x ∷ ps) zero outside h = ground (arith, h)
count_if-some p (x ∷ ps) (suc i) outside h = omega (arith, count_if-some p ps i outside h)

writing_in_table : (ps : List Place) (i : ℕ) → get_or ps i idle ≡ writing → i < length ps
writing_in_table [] i h = absurd (ground (arith, ap is_writing h))
writing_in_table (x ∷ ps) zero h = omega arith
writing_in_table (x ∷ ps) (suc i) h = omega (arith, writing_in_table ps i h)

holding_writes : (p : Place) → is_writing p ≡ true → holds_write p ≡ true
holding_writes p h = ground arith

-- Two writers would be counted twice.
one_writer :
    (l : Lock) (i j : ℕ)
    → Excludes l
    → place_at l i ≡ writing
    → i ≢ j
    → is_writing (place_at l j) ≡ false
one_writer l i j x h ne = elim (Bool-cases (is_writing (place_at l j))) [
  | inr apart ↦ apart
  | inl also ↦
      let there : holds_write (get_or (set l.threads i idle) j idle) ≡ true =
        ap holds_write (get_or-set_ne l.threads i j idle idle ne)
        ∙ holding_writes (place_at l j) also in
      let other : 1 ≤ count_if holds_write (set l.threads i idle) =
        count_if-some holds_write (set l.threads i idle) j refl there in
      absurd (
        omega (
          arith,
          change holds_write l i writing idle (writing_in_table l.threads i h) h,
          other,
          x.owned,
          x.single,
        ))
]

-- For fewer than 2^32 threads on a fresh lock, and any order of their atomic operations: while a thread
-- is in its critical section as a writer, no thread is in one as a reader, and no other one as a writer.
pub rwlock_exclusion :
    (n : ℕ) (schedule : List (ℕ × Wish)) (i j : ℕ)
    → n < 2 ^ 32
    → place_at (run (fresh n) schedule) i ≡ writing
    → (is_reading (place_at (run (fresh n) schedule) j) ≡ false)
      × (is_writing (place_at (run (fresh n) schedule) j) ≡ (i == j))
rwlock_exclusion n schedule i j small h = (nobody_reads, only_one)
  where
    l : Lock
    l = run (fresh n) schedule

    x : Excludes l
    x = run-Excludes (fresh n) schedule (fresh-Excludes n small)

    some_writes : 1 ≤ count_if is_writing l.threads
    some_writes = count_if-some is_writing l.threads i refl (ap is_writing h)

    nobody_reads : is_reading (place_at l j) ≡ false
    nobody_reads = elim (Bool-cases (is_reading (place_at l j))) [
      | inr apart ↦ apart
      | inl also ↦
          let some_reads : 1 ≤ count_if is_reading l.threads =
            count_if-some is_reading l.threads j refl also in
          absurd (elim x.apart [
            | inl a ↦ omega (arith, a, some_writes)
            | inr a ↦ omega (arith, a, some_reads)
          ])
    ]

    only_one : is_writing (place_at l j) ≡ (i == j)
    only_one = elim (ℕ_discrete i j) [
      | yes e ↦ ap (λ k. is_writing (place_at l k)) (sym e) ∙ ap is_writing h ∙ ground arith
      | no ne ↦ one_writer l i j x h ne ∙ ground arith
    ]
