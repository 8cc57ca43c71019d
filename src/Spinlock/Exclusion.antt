-- ===== src/Spinlock/Exclusion.antt =====
-- kernel/lib/spinlock.c and kernel/lib/mutex.c: who has the lock, and who gets it next.
use native.Mathlib.Decide.{ℕ_discrete}
use gnu_os.Base.{
  ℕ, zero, suc, ◌<◌, ◌≡◌, ◌≢◌, ◌↔◌, refl, sym, ap, ◌∙◌, ◌⊎◌, inl, inr, Bool, true, false,
  Bool-cases, List, [], ◌∷◌, ◌==◌, if◌then◌else◌, arith, get_or, set, length, length-set, replicate,
  ltb, count_if, count_if-set, count_if-replicate, get_or-set_ne, get_or-set_self,
}
use gnu_os.Spinlock.{
  Spinlock, Place, idle, waits, holds, place_at, Wish, to_lock, to_try, try_lock, unlock,
  advance_lock, step, run, spinlock_init,
}

abbrev pub is_holding : Place → Bool
is_holding idle = false
is_holding waits = false
is_holding holds = true

abbrev is_waiting : Place → Bool
is_waiting idle = false
is_waiting waits = true
is_waiting holds = false

-- The word is 1 exactly where a thread has the lock, and then it is one thread.
pub record IsExclusive (l : Spinlock) : Type 0 where
  pub word : (l.state ≡ 0) ⊎ (l.state ≡ 1)
  pub counted : count_if is_holding l.threads ≡ l.state

place_in_table : (ps : List Place) (i : ℕ) → get_or ps i idle ≢ idle → i < length ps
place_in_table [] i ne = absurd (ne refl)
place_in_table (x ∷ ps) zero ne = omega arith
place_in_table (x ∷ ps) (suc i) ne = omega (arith, place_in_table ps i ne)

try_lock-IsExclusive :
    (l : Spinlock) (i : ℕ) (p : Place)
    → IsExclusive l
    → i < length l.threads
    → is_holding (place_at l i) ≡ false
    → is_holding p ≡ false
    → IsExclusive (try_lock l i p)
unfolding try_lock
try_lock-IsExclusive l i p v k outside q = elim (Bool-cases (l.state == 0)) [
  | inl free ↦ rw (free) (record {
    word = inr refl;
    counted =
        ground (arith, free, v.counted, outside, count_if-set is_holding l.threads i holds idle k);
  })
  | inr taken ↦ rw (taken) (record {
    word = inr refl;
    counted =
        ground (
          arith,
          taken,
          v.word,
          v.counted,
          outside,
          q,
          count_if-set is_holding l.threads i p idle k,
        );
  })
]

advance_lock-IsExclusive :
    (l : Spinlock) (i : ℕ) (wish : Wish) (p : Place)
    → IsExclusive l
    → i < length l.threads
    → place_at l i ≡ p
    → IsExclusive (advance_lock l i wish p)
unfolding advance_lock unlock
advance_lock-IsExclusive l i to_lock idle v k e = record {
  word = v.word;
  counted =
      ground (arith, v.counted, ap is_holding e, count_if-set is_holding l.threads i waits idle k);
}
advance_lock-IsExclusive l i to_try idle v k e =
    try_lock-IsExclusive l i idle v k (ap is_holding e) refl
advance_lock-IsExclusive l i wish waits v k e =
    try_lock-IsExclusive l i waits v k (ap is_holding e) refl
advance_lock-IsExclusive l i wish holds v k e = record {
  word = inl refl;
  counted =
      ground (
        arith,
        v.word,
        v.counted,
        ap is_holding e,
        count_if-set is_holding l.threads i idle idle k,
      );
}

step-IsExclusive :
    (l : Spinlock) (i : ℕ) (wish : Wish) → IsExclusive l → IsExclusive (step l i wish)
unfolding step
step-IsExclusive l i wish v = elim (Bool-cases (ltb i (length l.threads))) [
  | inl k ↦
      rw (step, k) (advance_lock-IsExclusive l i wish (place_at l i) v (ground (arith, k)) refl)
  | inr k ↦ rw (step, k) v
]

run-IsExclusive :
    (l : Spinlock) (schedule : List (ℕ × Wish)) → IsExclusive l → IsExclusive (run l schedule)
unfolding run
run-IsExclusive l [] v = v
run-IsExclusive l ((i, wish) ∷ rest) v =
    run-IsExclusive (step l i wish) rest (step-IsExclusive l i wish v)

-- A lock after `spinlock_init`, with `n` threads outside.
abbrev pub fresh : ℕ → Spinlock
fresh n = spinlock_init (record { state = 0; threads = replicate n idle })

fresh-IsExclusive : (n : ℕ) → IsExclusive (fresh n)
unfolding spinlock_init
fresh-IsExclusive n = record {
  word = inl refl;
  counted = count_if-replicate is_holding n idle refl;
}

in_table : (l : Spinlock) (i : ℕ) → is_holding (place_at l i) ≡ true → i < length l.threads
in_table l i h = place_in_table l.threads i (λ e. absurd (ground (arith, h, ap is_holding e)))

-- Two threads with the lock would be counted twice.
one_holder :
    (l : Spinlock) (i j : ℕ)
    → IsExclusive l
    → is_holding (place_at l i) ≡ true
    → is_holding (place_at l j) ≡ true
    → i ≡ j
one_holder l i j v h h' = elim (ℕ_discrete i j) [
  | yes e ↦ e
  | no ne ↦
      let k = in_table l i h in
      let k' = in_table l j h' in
      let there = ap is_holding (get_or-set_ne l.threads i j idle idle ne) ∙ h' in
      absurd (
        ground (
          arith,
          v.word,
          v.counted,
          h,
          there,
          count_if-set is_holding l.threads i idle idle k,
          count_if-set is_holding (set l.threads i idle) j idle idle
              (omega (arith, length-set l.threads i idle, k')),
        ))
]

-- For any number of threads on a fresh lock and any order of their atomic operations: while a thread has the lock,
-- no other thread has it.
pub spinlock_exclusion :
    (n : ℕ) (schedule : List (ℕ × Wish)) (i j : ℕ)
    → place_at (run (fresh n) schedule) i ≡ holds
    → is_holding (place_at (run (fresh n) schedule) j) ≡ (i == j)
spinlock_exclusion n schedule i j h = elim (Bool-cases (is_holding (place_at l j))) [
  | inl also ↦
      let same =
        one_holder l i j (run-IsExclusive (fresh n) schedule (fresh-IsExclusive n))
          (ap is_holding h) also in
      also ∙ ground (arith, same)
  | inr other ↦ elim (ℕ_discrete i j) [
    | yes e ↦ ap (λ k. is_holding (place_at l k)) (sym e) ∙ ap is_holding h ∙ ground (arith, e)
    | no ne ↦ other ∙ ground (arith, ne)
  ]
]
  where
    l : Spinlock
    l = run (fresh n) schedule

nobody_holds :
    (ps : List Place)
    → ((j : ℕ) → is_holding (get_or ps j idle) ≡ false)
    → count_if is_holding ps ≡ 0
unfolding count_if
nobody_holds [] free = refl
nobody_holds (p ∷ ps) free = ground (arith, free 0, nobody_holds ps (λ j. free (suc j)))

nobody_at : (l : Spinlock) (j : ℕ) → IsExclusive l → l.state ≡ 0 → is_holding (place_at l j) ≡ false
nobody_at l j v zero_word = elim (Bool-cases (is_holding (place_at l j))) [
  | inr free ↦ free
  | inl h ↦ absurd (
      ground (
        arith,
        v.counted,
        zero_word,
        h,
        count_if-set is_holding l.threads j idle idle (in_table l j h),
      ))
]

tries :
    (l : Spinlock) (i : ℕ) (wish : Wish)
    → place_at l i ≡ waits
    → (i < length l.threads)
      × (place_at (step l i wish) i ≡ (if l.state == 0 then holds else waits))
unfolding step advance_lock try_lock
tries l i wish e =
    let k : i < length l.threads =
      place_in_table l.threads i (λ f. absurd (ground (arith, ap is_waiting e, ap is_waiting f))) in
    let low : ltb i (length l.threads) ≡ true = ground (arith, k) in
    (
      k,
      rw (step, low, e)
          (get_or-set_self l.threads i (if l.state == 0 then holds else waits) idle k),
    )

-- For any number of threads on a fresh lock and any order of their atomic operations before: the next operation of
-- a thread that spins gets it the lock exactly where no thread has the lock.
pub spinlock_handover :
    (n : ℕ) (schedule : List (ℕ × Wish)) (i : ℕ) (wish : Wish)
    → place_at (run (fresh n) schedule) i ≡ waits
    → (place_at (step (run (fresh n) schedule) i wish) i ≡ holds)
      ↔ ((j : ℕ) → is_holding (place_at (run (fresh n) schedule) j) ≡ false)
spinlock_handover n schedule i wish e = elim (Bool-cases (l.state == 0)) [
  | inl free ↦ (λ h j. nobody_at l j v (ground (arith, free)), λ nobody. got ∙ rw free refl)
  | inr taken ↦ (
    λ h j.
        let still : place_at (step l i wish) i ≡ waits = got ∙ rw taken refl in
        absurd (ground (arith, ap is_holding h, ap is_holding still)),
    λ nobody. absurd (ground (arith, taken, v.counted, nobody_holds l.threads nobody)),
  )
]
  where
    l : Spinlock
    l = run (fresh n) schedule

    v : IsExclusive l
    v = run-IsExclusive (fresh n) schedule (fresh-IsExclusive n)

    got : place_at (step l i wish) i ≡ (if l.state == 0 then holds else waits)
    got = (tries l i wish e).1
