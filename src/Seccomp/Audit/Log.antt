-- ===== src/Seccomp/Audit/Log.antt =====
-- kernel/security/seccomp.c: sequences of audit records, and the event that is read back.
use native.Mathlib.Decide.{ℕ_discrete}
use gnu_os.Base.{
  ℕ, ◌+◌, ◌-◌, ◌%◌, ◌≤◌, ◌<◌, ◌≡◌, ◌≢◌, refl, sym, ap, ◌∙◌, subst, inl, inr, true, false,
  Bool-cases, arith, ℤ, pos, ◌==◌, if◌then◌else◌, List, [], ◌∷◌, ◌++◌, append_assoc, append-nil,
  some, get_or, length, length-set, length-replicate, get_or-set_self, u16, inc64,
}
use gnu_os.Seccomp.{
  Seccomp, Event, no_event, audit_capacity, action_valid, init, audit_record, audit_latest,
}
use gnu_os.Seccomp.Audit.{
  IsValid, events, latest, drop, drop_append, latest_append, length-append, length-events,
  when_full, when_room, when_full-events, when_room-events,
}

-- A call of `seccomp_audit_record`.
pub record Attempt : Type 0 where
  pub tid : ℕ
  pub syscall_number : ℕ
  pub action : ℕ
  pub result : ℤ

abbrev pub audit : Seccomp → Attempt → Seccomp
audit s a = audit_record s a.tid a.syscall_number a.action a.result

unfoldable pub audit_all : Seccomp → List Attempt → Seccomp
audit_all s [] = s
audit_all s (a ∷ rest) = audit_all (audit s a) rest

abbrev pub event : ℕ → Attempt → Event
event sequence a = record {
  sequence = inc64 sequence;
  tid = a.tid;
  syscall_number = a.syscall_number;
  action = a.action;
  result = a.result;
}

-- The events of the attempts with a known action, numbered from after `sequence` on.
unfoldable pub numbered : ℕ → List Attempt → List Event
numbered sequence [] = []
numbered sequence (a ∷ rest) =
    if action_valid a.action
    then event sequence a ∷ numbered (inc64 sequence) rest
    else numbered sequence rest

audit_full :
    (s : Seccomp) (a : Attempt)
    → action_valid a.action ≡ true
    → s.audit_size ≡ audit_capacity
    → audit s a ≡ when_full s (event s.audit_sequence a)
unfolding audit_record
audit_full s a known full =
    let e : (s.audit_size == audit_capacity) ≡ true = ground arith in
    rw (audit_record, known, e) refl

audit_room :
    (s : Seccomp) (a : Attempt)
    → action_valid a.action ≡ true
    → s.audit_size ≢ audit_capacity
    → audit s a ≡ when_room s (event s.audit_sequence a)
unfolding audit_record
audit_room s a known room =
    let e : (s.audit_size == audit_capacity) ≡ false = ground arith in
    rw (audit_record, known, e) refl

audit_unknown : (s : Seccomp) (a : Attempt) → action_valid a.action ≡ false → audit s a ≡ s
unfolding audit_record
audit_unknown s a unknown = rw (audit_record, unknown) refl

latest_room :
    (es : List Event) (e : Event)
    → length es < audit_capacity
    → es ++ (e ∷ []) ≡ latest audit_capacity (es ++ (e ∷ []))
latest_room es e l =
    let none_dropped : length (es ++ (e ∷ [])) - audit_capacity ≡ 0 =
      omega (arith, length-append es (e ∷ [])) in
    ap (λ n. drop n (es ++ (e ∷ []))) (sym none_dropped)

latest_full :
    (es : List Event) (e : Event)
    → length es ≡ audit_capacity
    → drop 1 es ++ (e ∷ []) ≡ latest audit_capacity (es ++ (e ∷ []))
latest_full es e full =
    let one_dropped : length (es ++ (e ∷ [])) - audit_capacity ≡ 1 =
      omega (arith, length-append es (e ∷ [])) in
    sym (drop_append 1 es (e ∷ []) (omega arith))
    ∙ ap (λ n. drop n (es ++ (e ∷ []))) (sym one_dropped)

latest_at :
    (s : Seccomp) (slot : ℕ)
    → s.audit_size ≢ 0
    → u16 ((s.audit_head + s.audit_size - 1) % audit_capacity) ≡ slot
    → audit_latest s true ≡ (pos 0, some (get_or s.audit_ring slot no_event))
unfolding audit_latest
latest_at s slot ne e =
    let some_left : (s.audit_size == 0) ≡ false = ground arith in
    rw (audit_latest, some_left) (ap (λ k. (pos 0, some (get_or s.audit_ring k no_event))) e)

-- What one record with a known action does.
abbrev pub Recorded : Seccomp → Event → Seccomp → Type 0
Recorded s e s' =
    IsValid s'
    × (events s' ≡ latest audit_capacity (events s ++ (e ∷ [])))
    × (s'.audit_sequence ≡ e.sequence)
    × (audit_latest s' true ≡ (pos 0, some e))

when_full-Recorded :
    (s : Seccomp) (e : Event)
    → IsValid s
    → s.audit_size ≡ audit_capacity
    → Recorded s e (when_full s e)
when_full-Recorded s e v full = (
  record {
    storage = length-set s.audit_ring s.audit_head e ∙ v.storage;
    head_in = omega arith;
    size_in = v.size_in;
  },
  when_full-events s e v full ∙ latest_full (events s) e (length-events s ∙ full),
  refl,
  latest_at (when_full s e) s.audit_head (omega arith) (omega arith)
      ∙ ap (λ x. (pos 0, some x))
          (get_or-set_self s.audit_ring s.audit_head e no_event (omega (arith, v.storage))),
)

when_room-Recorded :
    (s : Seccomp) (e : Event)
    → IsValid s
    → s.audit_size < audit_capacity
    → Recorded s e (when_room s e)
when_room-Recorded s e v l = (
  record {
    storage =
        length-set s.audit_ring (u16 ((s.audit_head + s.audit_size) % audit_capacity)) e
        ∙ v.storage;
    head_in = v.head_in;
    size_in = omega arith;
  },
  when_room-events s e v l ∙ latest_room (events s) e (omega (arith, length-events s)),
  refl,
  latest_at (when_room s e) (u16 ((s.audit_head + s.audit_size) % audit_capacity)) (omega arith)
        (omega arith)
      ∙ ap (λ x. (pos 0, some x))
          (get_or-set_self s.audit_ring (u16 ((s.audit_head + s.audit_size) % audit_capacity)) e
            no_event (omega (arith, v.storage))),
)

-- Recording an event with a known action keeps the audit ring valid, and `seccomp_audit_latest` then
-- answers 0 with that event, numbered one after the one before.
pub audit_record_outcome :
    (s : Seccomp) (a : Attempt)
    → IsValid s
    → action_valid a.action ≡ true
    → Recorded s (event s.audit_sequence a) (audit s a)
audit_record_outcome s a v known = elim (ℕ_discrete s.audit_size audit_capacity) [
  | yes full ↦
      subst (Recorded s (event s.audit_sequence a)) (sym (audit_full s a known full))
        (when_full-Recorded s (event s.audit_sequence a) v full)
  | no room ↦
      subst (Recorded s (event s.audit_sequence a)) (sym (audit_room s a known room))
        (when_room-Recorded s (event s.audit_sequence a) v (omega (arith, v.size_in)))
]

latest_short : (es : List Event) → length es ≤ audit_capacity → latest audit_capacity es ≡ es
latest_short es l =
    let none_dropped : length es - audit_capacity ≡ 0 = omega arith in
    ap (λ n. drop n es) none_dropped

-- After any sequence of audit records on a valid audit ring, the ring holds the last 128 of the events
-- that it held before followed by those of the records with a known action, which are numbered in
-- order; records with an unknown action leave no trace.
pub audit_keeps_latest :
    (s : Seccomp) (attempts : List Attempt)
    → IsValid s
    → events (audit_all s attempts)
      ≡ latest audit_capacity (events s ++ numbered s.audit_sequence attempts)
unfolding audit_all numbered
audit_keeps_latest s [] v = sym (
    ap (latest audit_capacity) (append-nil (events s))
    ∙ latest_short (events s) (omega (arith, length-events s, v.size_in)))
audit_keeps_latest s (a ∷ rest) v = elim (Bool-cases (action_valid a.action)) [
  | inr unknown ↦
      rw (numbered, unknown)
        (ap (λ t. events (audit_all t rest)) (audit_unknown s a unknown)
          ∙ audit_keeps_latest s rest v)
  | inl known ↦
      let e : Event = event s.audit_sequence a in
      let (w, kept, number, _) = audit_record_outcome s a v known in
      rw (numbered, known)
        (audit_keeps_latest (audit s a) rest w
          ∙ ap (λ es. latest audit_capacity (es ++ numbered (audit s a).audit_sequence rest)) kept
          ∙ latest_append audit_capacity (events s ++ (e ∷ []))
              (numbered (audit s a).audit_sequence rest)
          ∙ ap (latest audit_capacity)
              (append_assoc (events s) (e ∷ []) (numbered (audit s a).audit_sequence rest))
          ∙ ap (λ n. latest audit_capacity (events s ++ (e ∷ numbered n rest))) number)
]

pub init-IsValid : IsValid init
unfolding init
init-IsValid = record {
  storage = length-replicate audit_capacity no_event;
  head_in = omega arith;
  size_in = omega arith;
}
