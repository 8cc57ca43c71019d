-- ===== src/Seccomp/Audit.antt =====
-- kernel/security/seccomp.c: the audit ring holds the latest events.
pub mod Log
use native.Mathlib.Decide.{ℕ_discrete, dec_lt}
use native.Mathlib.Nat.{mod-eq_of_lt}
use gnu_os.Base.{
  ℕ, zero, suc, ◌+◌, ◌-◌, ◌%◌, ◌≤◌, ◌<◌, ◌≡◌, ◌≢◌, refl, sym, ap, ◌∙◌, subst, ◌⊎◌, inl, inr, Bool,
  true, false, not, Bool-cases, arith, ℤ, pos, ◌==◌, if◌then◌else◌, List, [], ◌∷◌, ◌++◌,
  append_assoc, append-nil, some, get_or, set, length, length-set, length-replicate,
  get_or-set_self, u16, inc16, inc64,
}
use gnu_os.Ring.Contents.{window, length-window, window-set}
use gnu_os.Seccomp.{
  Seccomp, Event, no_event, audit_capacity, action_valid, init, audit_record, audit_latest,
  next_event, write_event,
}

abbrev pub drop : ℕ → List Event → List Event
drop zero xs = xs
drop (suc n) [] = []
drop (suc n) (x ∷ xs) = drop n xs

-- The last `n` events.
abbrev pub latest : ℕ → List Event → List Event
latest n xs = drop (length xs - n) xs

pub drop_append : (n : ℕ) (xs ys : List Event) → n ≤ length xs → drop n (xs ++ ys) ≡ drop n xs ++ ys
drop_append zero xs ys h = refl
drop_append (suc n) [] ys h = absurd (omega arith)
drop_append (suc n) (x ∷ xs) ys h = drop_append n xs ys (omega arith)

drop-nil : (n : ℕ) → drop n [] ≡ []
drop-nil zero = refl
drop-nil (suc n) = refl

drop-drop : (m n : ℕ) (xs : List Event) → drop m (drop n xs) ≡ drop (n + m) xs
drop-drop m zero xs = ap (λ k. drop k xs) (omega arith)
drop-drop m (suc n) [] = drop-nil m ∙ sym (drop-nil (suc n + m))
drop-drop m (suc n) (x ∷ xs) =
    let e : suc (n + m) ≡ suc n + m = omega arith in drop-drop m n xs ∙ ap (λ k. drop k (x ∷ xs)) e

length-drop : (n : ℕ) (xs : List Event) → length (drop n xs) ≡ length xs - n
length-drop zero xs = omega arith
length-drop (suc n) [] = omega arith
length-drop (suc n) (x ∷ xs) = omega (arith, length-drop n xs)

pub length-append : (xs ys : List Event) → length (xs ++ ys) ≡ length xs + length ys
length-append [] ys = omega arith
length-append (x ∷ xs) ys = omega (arith, length-append xs ys)

pub latest_append :
    (n : ℕ) (xs ys : List Event) → latest n (latest n xs ++ ys) ≡ latest n (xs ++ ys)
latest_append n xs ys =
    let k = length xs - n in
    ap (latest n) (sym (drop_append k xs ys (omega arith)))
    ∙ drop-drop (length (drop k (xs ++ ys)) - n) k (xs ++ ys)
    ∙ ap (λ m. drop m (xs ++ ys)) (omega (arith, length-drop k (xs ++ ys), length-append xs ys))

-- The events in the ring, oldest first.
abbrev pub events : Seccomp → List Event
events s = window no_event s.audit_ring audit_capacity s.audit_head s.audit_size

-- The audit ring has its 128 places, its head is one of them, and it holds at most 128 events.
pub record IsValid (s : Seccomp) : Type 0 where
  pub storage : length s.audit_ring ≡ audit_capacity
  pub head_in : s.audit_head < audit_capacity
  pub size_in : s.audit_size ≤ audit_capacity

pub length-events : (s : Seccomp) → length (events s) ≡ s.audit_size
length-events s = length-window no_event s.audit_ring audit_capacity s.audit_head s.audit_size

-- The states that a record leaves in a ring that is full, and in one that is not.
abbrev pub when_full : Seccomp → Event → Seccomp
when_full s e = record (write_event s s.audit_head e) {
  audit_head = u16 ((s.audit_head + 1) % audit_capacity);
}

abbrev pub when_room : Seccomp → Event → Seccomp
when_room s e = record (write_event s (u16 ((s.audit_head + s.audit_size) % audit_capacity)) e) {
  audit_size = inc16 s.audit_size;
}

pub when_room-events :
    (s : Seccomp) (e : Event)
    → IsValid s
    → s.audit_size < audit_capacity
    → events (when_room s e) ≡ events s ++ (e ∷ [])
when_room-events s e v l =
    let grown : inc16 s.audit_size ≡ suc s.audit_size = omega arith in
    let place : u16 ((s.audit_head + s.audit_size) % audit_capacity)
        ≡ (s.audit_head + s.audit_size) % audit_capacity =
      omega arith in
    ap
      (λ n.
        window no_event (set s.audit_ring (u16 ((s.audit_head + s.audit_size) % audit_capacity)) e)
          audit_capacity s.audit_head n)
      grown
    ∙ window-set no_event audit_capacity s.audit_ring e s.audit_size s.audit_head
        (u16 ((s.audit_head + s.audit_size) % audit_capacity)) (omega (arith, v.storage)) v.head_in
        l place

pub when_full-events :
    (s : Seccomp) (e : Event)
    → IsValid s
    → s.audit_size ≡ audit_capacity
    → events (when_full s e) ≡ drop 1 (events s) ++ (e ∷ [])
when_full-events s e v full =
    let next : u16 ((s.audit_head + 1) % audit_capacity) ≡ (s.audit_head + 1) % audit_capacity =
      omega arith in
    ap
      (λ n.
        window no_event (set s.audit_ring s.audit_head e) audit_capacity
          (u16 ((s.audit_head + 1) % audit_capacity)) n)
      full
    ∙ ap (λ h. window no_event (set s.audit_ring s.audit_head e) audit_capacity h audit_capacity)
        next
    ∙ window-set no_event audit_capacity s.audit_ring e 127 ((s.audit_head + 1) % audit_capacity)
        s.audit_head (omega (arith, v.storage)) (omega arith) (omega arith)
        (omega (arith, v.head_in))
    ∙ ap (λ n. drop 1 (window no_event s.audit_ring audit_capacity s.audit_head n) ++ (e ∷ []))
        (sym full)
