-- ===== src/Rwlock/Exclusion.antt =====
-- kernel/lib/rwlock.c: a writer shares its critical section with nobody.
use gnu_os.Base.{
  ℕ, ◌+◌, ◌-◌, ◌%◌, ◌^◌, ◌≤◌, ◌<◌, ◌≡◌, refl, sym, ◌∙◌, subst, ◌⊎◌, inl, inr, Bool, true, false,
  Bool-cases, List, [], ◌∷◌, ◌==◌, if◌then◌else◌, arith, set, length, length-set, count_if,
  count_if-set, count_if-le,
}
use gnu_os.Rwlock.{
  Lock, Place, idle, reading, writing, read_waits, read_adds, read_checks, read_backs, write_waits,
  write_drains, place_at, move, Wish, to_read, to_write, advance,
}

-- The places of a thread that is counted in `readers`, and that has set `writer`.
abbrev pub holds_read : Place → Bool
holds_read read_checks = true
holds_read read_backs = true
holds_read reading = true
holds_read _ = false

abbrev pub holds_write : Place → Bool
holds_write write_drains = true
holds_write writing = true
holds_write _ = false

abbrev pub is_reading : Place → Bool
is_reading reading = true
is_reading _ = false

abbrev pub is_writing : Place → Bool
is_writing writing = true
is_writing _ = false

-- Fewer than 2^32 threads, both words as the threads made them, at most one writer, and nobody reads
-- while somebody writes.
pub record Excludes (l : Lock) : Type 0 where
  pub few : length l.threads < 2 ^ 32
  pub counted : l.readers ≡ count_if holds_read l.threads
  pub owned : l.writer ≡ count_if holds_write l.threads
  pub single : l.writer ≤ 1
  pub apart : (count_if is_writing l.threads ≡ 0) ⊎ (count_if is_reading l.threads ≡ 0)

pub change :
    (p : Place → Bool) (l : Lock) (i : ℕ) (from to : Place)
    → i < length l.threads
    → place_at l i ≡ from
    → count_if p (set l.threads i to) + (if p from then 1 else 0)
      ≡ count_if p l.threads + (if p to then 1 else 0)
change p l i from to h e =
    subst
      (λ x.
        count_if p (set l.threads i to) + (if p x then 1 else 0)
        ≡ count_if p l.threads + (if p to then 1 else 0))
      e (count_if-set p l.threads i to idle h)

writing_holds : (ps : List Place) → count_if is_writing ps ≤ count_if holds_write ps
unfolding count_if
writing_holds [] = omega arith
writing_holds (writing ∷ ps) = omega (arith, writing_holds ps)
writing_holds (write_drains ∷ ps) = omega (arith, writing_holds ps)
writing_holds (idle ∷ ps) = omega (arith, writing_holds ps)
writing_holds (reading ∷ ps) = omega (arith, writing_holds ps)
writing_holds (read_waits ∷ ps) = omega (arith, writing_holds ps)
writing_holds (read_adds ∷ ps) = omega (arith, writing_holds ps)
writing_holds (read_checks ∷ ps) = omega (arith, writing_holds ps)
writing_holds (read_backs ∷ ps) = omega (arith, writing_holds ps)
writing_holds (write_waits ∷ ps) = omega (arith, writing_holds ps)

reading_holds : (ps : List Place) → count_if is_reading ps ≤ count_if holds_read ps
unfolding count_if
reading_holds [] = omega arith
reading_holds (writing ∷ ps) = omega (arith, reading_holds ps)
reading_holds (write_drains ∷ ps) = omega (arith, reading_holds ps)
reading_holds (idle ∷ ps) = omega (arith, reading_holds ps)
reading_holds (reading ∷ ps) = omega (arith, reading_holds ps)
reading_holds (read_waits ∷ ps) = omega (arith, reading_holds ps)
reading_holds (read_adds ∷ ps) = omega (arith, reading_holds ps)
reading_holds (read_checks ∷ ps) = omega (arith, reading_holds ps)
reading_holds (read_backs ∷ ps) = omega (arith, reading_holds ps)
reading_holds (write_waits ∷ ps) = omega (arith, reading_holds ps)

-- A thread goes from one place to another, with the words as they are afterwards.
moved-Excludes :
    (l : Lock) (i readers writer : ℕ) (from to : Place)
    → Excludes l
    → i < length l.threads
    → place_at l i ≡ from
    → ((readers
        ≡ l.readers + (if holds_read to then 1 else 0) - (if holds_read from then 1 else 0)))
    → writer + (if holds_write from then 1 else 0) ≡ l.writer + (if holds_write to then 1 else 0)
    → writer ≤ 1
    → ((count_if is_writing (set l.threads i to) ≡ 0)
        ⊎ (count_if is_reading (set l.threads i to) ≡ 0))
    → Excludes (record (move l i to) { readers = readers; writer = writer })
moved-Excludes l i readers writer from to x h e r w one a = record {
  few = omega (arith, length-set l.threads i to, x.few);
  counted = omega (arith, change holds_read l i from to h e, x.counted, r);
  owned = omega (arith, change holds_write l i from to h e, x.owned, w);
  single = one;
  apart = a;
}

-- A thread that comes to a place outside the critical sections leaves them apart.
apart_kept :
    (l : Lock) (i : ℕ) (from to : Place)
    → Excludes l
    → i < length l.threads
    → place_at l i ≡ from
    → is_writing to ≡ false
    → is_reading to ≡ false
    → (count_if is_writing (set l.threads i to) ≡ 0)
      ⊎ (count_if is_reading (set l.threads i to) ≡ 0)
apart_kept l i from to x h e not_writing not_reading =
    let w : count_if is_writing (set l.threads i to) ≤ count_if is_writing l.threads =
      ground (arith, change is_writing l i from to h e, not_writing) in
    let r : count_if is_reading (set l.threads i to) ≤ count_if is_reading l.threads =
      ground (arith, change is_reading l i from to h e, not_reading) in
    elim x.apart [ inl a ↦ inl (omega arith) | inr a ↦ inr (omega arith) ]

-- The new place is outside the critical sections.
outside-Excludes :
    (l : Lock) (i readers writer : ℕ) (from to : Place)
    → Excludes l
    → i < length l.threads
    → place_at l i ≡ from
    → readers ≡ l.readers + (if holds_read to then 1 else 0) - (if holds_read from then 1 else 0)
    → writer + (if holds_write from then 1 else 0) ≡ l.writer + (if holds_write to then 1 else 0)
    → writer ≤ 1
    → is_writing to ≡ false
    → is_reading to ≡ false
    → Excludes (record (move l i to) { readers = readers; writer = writer })
outside-Excludes l i readers writer from to x h e r w one not_writing not_reading =
    moved-Excludes l i readers writer from to x h e r w one
      (apart_kept l i from to x h e not_writing not_reading)

-- A thread that is counted keeps the count above 0, and the count never wraps round.
sub_reader_lem :
    (l : Lock) (i : ℕ) (from to : Place)
    → Excludes l
    → i < length l.threads
    → place_at l i ≡ from
    → holds_read from ≡ true
    → holds_read to ≡ false
    → (l.readers + (2 ^ 32 - 1)) % 2 ^ 32 ≡ l.readers - 1
sub_reader_lem l i from to x h e holds drops =
    let some : 1 ≤ l.readers =
      ground (arith, change holds_read l i from to h e, holds, drops, x.counted) in
    let low : l.readers < 2 ^ 32 =
      omega (arith, x.counted, x.few, count_if-le holds_read l.threads) in
    omega arith

add_reader_lem :
    (l : Lock) (i : ℕ)
    → Excludes l
    → i < length l.threads
    → place_at l i ≡ read_adds
    → (l.readers + 1) % 2 ^ 32 ≡ l.readers + 1
add_reader_lem l i x h e =
    let more : l.readers + 1 ≤ length l.threads = omega (
      arith,
      change holds_read l i read_adds read_checks h e,
      x.counted,
      count_if-le holds_read (set l.threads i read_checks),
      length-set l.threads i read_checks,
    ) in
    omega (arith, x.few)

pub advance-Excludes :
    (l : Lock) (i : ℕ) (wish : Wish) (p : Place)
    → Excludes l
    → i < length l.threads
    → place_at l i ≡ p
    → Excludes (advance l i wish p)
unfolding advance
advance-Excludes l i to_read idle x h e =
    outside-Excludes l i l.readers l.writer idle read_waits x h e (omega arith) (omega arith)
      x.single refl refl
advance-Excludes l i to_write idle x h e =
    outside-Excludes l i l.readers l.writer idle write_waits x h e (omega arith) (omega arith)
      x.single refl refl
advance-Excludes l i wish read_waits x h e = elim (Bool-cases (l.writer == 0)) [
  | inl k ↦
      rw (advance, k)
        (outside-Excludes l i l.readers l.writer read_waits read_adds x h e (omega arith)
          (omega arith) x.single refl refl)
  | inr k ↦ rw (advance, k) x
]
advance-Excludes l i wish read_adds x h e =
    outside-Excludes l i ((l.readers + 1) % 2 ^ 32) l.writer read_adds read_checks x h e
      (omega (arith, add_reader_lem l i x h e)) (omega arith) x.single refl refl
advance-Excludes l i wish read_checks x h e = elim (Bool-cases (l.writer == 0)) [
  | inl k ↦
      rw (advance, k)
        (moved-Excludes l i l.readers l.writer read_checks reading x h e (omega arith) (omega arith)
          x.single (inl (no_writer k)))
  | inr k ↦
      rw (advance, k)
        (outside-Excludes l i l.readers l.writer read_checks read_backs x h e (omega arith)
          (omega arith) x.single refl refl)
]
  where
    no_writer : (l.writer == 0) ≡ true → count_if is_writing (set l.threads i reading) ≡ 0
    no_writer k =
        let free : l.writer ≡ 0 = ground arith in
        omega
          (arith, change is_writing l i read_checks reading h e, writing_holds l.threads, x.owned)
advance-Excludes l i wish read_backs x h e =
    outside-Excludes l i ((l.readers + (2 ^ 32 - 1)) % 2 ^ 32) l.writer read_backs read_waits x h e
      (omega (arith, sub_reader_lem l i read_backs read_waits x h e refl refl)) (omega arith)
      x.single refl refl
advance-Excludes l i wish reading x h e =
    outside-Excludes l i ((l.readers + (2 ^ 32 - 1)) % 2 ^ 32) l.writer reading idle x h e
      (omega (arith, sub_reader_lem l i reading idle x h e refl refl)) (omega arith) x.single refl
      refl
advance-Excludes l i wish write_waits x h e = elim (Bool-cases (l.writer == 0)) [
  | inl k ↦
      rw (advance, k)
        (outside-Excludes l i l.readers 1 write_waits write_drains x h e (omega arith)
          (ground arith) (omega arith) refl refl)
  | inr k ↦
      let same : l.writer ≡ 1 = ground (arith, x.single) in
      rw (advance, k)
        (record {
          few = x.few;
          counted = x.counted;
          owned = sym same ∙ x.owned;
          single = omega arith;
          apart = x.apart;
        })
]
advance-Excludes l i wish write_drains x h e = elim (Bool-cases (l.readers == 0)) [
  | inl k ↦
      rw (advance, k)
        (moved-Excludes l i l.readers l.writer write_drains writing x h e (omega arith)
          (omega arith) x.single (inr (no_reader k)))
  | inr k ↦ rw (advance, k) x
]
  where
    no_reader : (l.readers == 0) ≡ true → count_if is_reading (set l.threads i writing) ≡ 0
    no_reader k =
        let free : l.readers ≡ 0 = ground arith in
        omega (
          arith,
          change is_reading l i write_drains writing h e,
          reading_holds l.threads,
          x.counted,
        )
advance-Excludes l i wish writing x h e =
    outside-Excludes l i l.readers 0 writing idle x h e (omega arith)
      (one_writer (change holds_write l i writing idle h e)) (omega arith) refl refl
  where
    one_writer :
        count_if holds_write (set l.threads i idle) + 1 ≡ count_if holds_write l.threads + 0
        → 0 + 1 ≡ l.writer + 0
    one_writer k = omega (arith, x.owned, x.single)
