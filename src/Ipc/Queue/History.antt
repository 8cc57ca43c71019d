-- ===== src/Ipc/Queue/History.antt =====
-- Any sequence of sends and receives: each channel delivers what it took in, in order, once.
use mathlib.Core.Option.{get_or as option_or}
use gnu_os.Base.{
  ℕ, ◌≤◌, ◌≡◌, sym, subst, ap, ◌∙◌, inl, inr, true, false, ◌&&◌, Option, none, some, List, [], ◌∷◌,
  ◌++◌, append_assoc, append-nil, ℤ, pos, negsuc, neg, arith, length, if◌then◌else◌, ◌==◌,
  Bool-cases,
}
use gnu_os.Capability.Api.{CapabilityApi}
use gnu_os.Ipc.Channel.{Message, Ipc, channel_at}
use gnu_os.Ipc.Queue.{
  channel_index, resolve_sender_tid, is_ok, send_internal, Received, recv_internal,
}
use gnu_os.Ipc.Queue.Fifo.{sent, pending, IsSound, OnlyAt}
use gnu_os.Ipc.Queue.Answers.{seen, recv_outcome}
use gnu_os.Ipc.Queue.Handover.{send_outcome}

abbrev pub AllCalls {ℓ} : {A : Type ℓ} → (A → Type 0) → List A → Type 0
AllCalls P [] = Unit {0}
AllCalls P (x ∷ xs) = P x × AllCalls P xs

-- The messages that a receive hands out: one or none.
abbrev pub handed : Option Received → List Message
handed none = []
handed (some r) = seen r ∷ []

-- The messages that a send adds to channel `i`, when it is aimed at channel `k`.
abbrev pub logged : ℕ → ℕ → ℤ → Message → List Message
logged k i status m = if k == i && is_ok status then m ∷ [] else []

-- Channel `i` before the call with what it takes in is channel `i` after it.
abbrev pub Extends : ℕ → Ipc → List Message → Ipc → Type 0
Extends i s taken s' = (pending (channel_at s i) ++ taken ≡ pending (channel_at s' i)) × IsSound s'

refused-Extends :
    (k i n : ℕ) (s : Ipc) (m : Message) (out : ℤ × Ipc)
    → IsSound s
    → out ≡ (negsuc n, s)
    → Extends i s (logged k i out.0 m) out.1
refused-Extends k i n s m out v e =
    subst (λ o. Extends i s (logged k i o.0 m) o.1) (sym e)
      (elim (Bool-cases (k == i)) [
        | inl h ↦ (rw h (append-nil (pending (channel_at s i))), v)
        | inr h ↦ (rw h (append-nil (pending (channel_at s i))), v)
      ])

accepted-Extends :
    (k i : ℕ) (s : Ipc) (m : Message) (out : ℤ × Ipc)
    → out.0 ≡ pos 0
    → pending (channel_at out.1 k) ≡ pending (channel_at s k) ++ (m ∷ [])
    → OnlyAt k s out.1
    → IsSound out.1
    → Extends i s (logged k i out.0 m) out.1
accepted-Extends k i s m out ok grown only sound = (
  elim (Bool-cases (k == i)) [
    | inl h ↦
        let same : k ≡ i = ground arith in
        rw (h, ok)
          (subst (λ j. pending (channel_at s j) ++ (m ∷ []) ≡ pending (channel_at out.1 j)) same
            (sym grown))
    | inr h ↦
        let other : (i == k) ≡ false = ground arith in
        rw h (
          append-nil (pending (channel_at s i))
          ∙ sym (
              ap pending
                (only.1 i ∙ ap (λ b. if b then channel_at out.1 k else channel_at s i) other)))
  ],
  sound,
)

-- Channel `i` before the call is what it hands out and channel `i` after it.
abbrev pub Shrinks : ℕ → Ipc → List Message → Ipc → Type 0
Shrinks i s out s' = (pending (channel_at s i) ≡ out ++ pending (channel_at s' i)) × IsSound s'

abbrev pub shown : ℕ → ℕ → Option Received → List Message
shown k i r = if k == i then handed r else []

kept-Shrinks :
    (k i : ℕ) (s : Ipc) (status : ℤ) (out : ℤ × Option Received × Ipc)
    → IsSound s
    → out ≡ (status, none, s)
    → Shrinks i s (shown k i out.1) out.2
kept-Shrinks k i s status out v e =
    subst (λ o. Shrinks i s (shown k i o.1) o.2) (sym e)
      (elim (Bool-cases (k == i)) [ inl h ↦ (rw h, v) | inr h ↦ (rw h, v) ])

received-Shrinks :
    (k i : ℕ) (s : Ipc) (r : Received) (out : ℤ × Option Received × Ipc)
    → pending (channel_at s k) ≡ seen r ∷ pending (channel_at out.2 k)
    → out.1 ≡ some r
    → OnlyAt k s out.2
    → IsSound out.2
    → Shrinks i s (shown k i out.1) out.2
received-Shrinks k i s r out first e only sound = (
  elim (Bool-cases (k == i)) [
    | inl h ↦
        let same : k ≡ i = ground arith in
        rw (h, e)
          (subst (λ j. pending (channel_at s j) ≡ seen r ∷ pending (channel_at out.2 j)) same first)
    | inr h ↦
        let other : (i == k) ≡ false = ground arith in
        rw h (
          sym (
            ap pending
              (only.1 i ∙ ap (λ b. if b then channel_at out.2 k else channel_at s i) other)))
  ],
  sound,
)

module _ (caps : CapabilityApi) where
  open caps use {State}

  -- A call with its arguments, the capabilities and the running task at that moment.
  pub record Send : Type 0 where
    pub capabilities : State
    pub current : Option ℕ
    pub channel_id : ℤ
    pub payload : List ℕ
    pub size : ℕ
    pub sender : ℕ
    pub has_capability : ℕ
    pub id : ℕ
    pub rights : ℕ

  pub record Receive : Type 0 where
    pub channel_id : ℤ
    pub buffer : List ℕ
    pub payload_capacity : ℕ

  pub data Call : Type 0 where
    sends : Send → Call
    receives : Receive → Call

  abbrev pub do_send : Ipc → Send → ℤ × Ipc
  do_send s a =
      send_internal caps a.capabilities s a.current a.channel_id (some a.payload) a.size a.sender
        a.has_capability a.id a.rights

  abbrev pub do_receive : Ipc → Receive → ℤ × Option Received × Ipc
  do_receive s a = recv_internal s a.channel_id (some a.buffer) a.payload_capacity true

  unfoldable pub after : Ipc → Call → Ipc
  after s (sends a) = (do_send s a).1
  after s (receives a) = (do_receive s a).2

  -- What channel `i` takes in and hands out in a call.
  unfoldable pub taken_in : ℕ → Ipc → Call → List Message
  taken_in i s (sends a) = logged (channel_index a.channel_id) i (do_send s a).0 (
      sent (option_or (resolve_sender_tid a.current a.sender) 0) a.size a.has_capability a.id
        a.rights a.payload)
  taken_in i s (receives a) = []

  unfoldable pub handed_out : ℕ → Ipc → Call → List Message
  handed_out i s (sends a) = []
  handed_out i s (receives a) = shown (channel_index a.channel_id) i (do_receive s a).1

  unfoldable pub run : Ipc → List Call → Ipc
  run s [] = s
  run s (c ∷ cs) = run (after s c) cs

  unfoldable pub all_taken_in : ℕ → Ipc → List Call → List Message
  all_taken_in i s [] = []
  all_taken_in i s (c ∷ cs) = taken_in i s c ++ all_taken_in i (after s c) cs

  unfoldable pub all_handed_out : ℕ → Ipc → List Call → List Message
  all_handed_out i s [] = []
  all_handed_out i s (c ∷ cs) = handed_out i s c ++ all_handed_out i (after s c) cs

  -- The caller's part: the payload has the bytes that it is said to have, and so has the buffer.
  abbrev pub Contract : Call → Type 0
  Contract (sends a) = a.size ≤ length a.payload
  Contract (receives a) = a.payload_capacity ≤ length a.buffer

  send_keeps :
      (i : ℕ) (s : Ipc) (a : Send)
      → IsSound s
      → a.size ≤ length a.payload
      → Extends i s (taken_in i s (sends a)) (do_send s a).1
  unfolding taken_in
  send_keeps i s a v h =
      elim (send_outcome caps a.capabilities s a.current a.channel_id a.payload a.size a.sender
        a.has_capability a.id a.rights v h) [
          | inl (e, _) ↦ refused-Extends k i 0 s m (do_send s a) v e
          | inr (inl (e, _, _, _, _, _, _)) ↦ refused-Extends k i 3 s m (do_send s a) v e
          | inr (inr (tid, who, _, _, inl (_, e))) ↦ refused-Extends k i 1 s m (do_send s a) v e
          | inr (inr (tid, who, _, _, inr (inl (_, e)))) ↦
              refused-Extends k i 2 s m (do_send s a) v e
          | inr (inr (tid, who, _, _, inr (inr (ok, grown, only, sound)))) ↦
              rw who (accepted-Extends k i s _ (do_send s a) ok.1 grown only sound)
        ]
    where
      k : ℕ
      k = channel_index a.channel_id

      m : Message
      m =
          sent (option_or (resolve_sender_tid a.current a.sender) 0) a.size a.has_capability a.id
            a.rights a.payload

  receive_keeps :
      (i : ℕ) (s : Ipc) (a : Receive)
      → IsSound s
      → a.payload_capacity ≤ length a.buffer
      → Shrinks i s (handed_out i s (receives a)) (do_receive s a).2
  unfolding handed_out
  receive_keeps i s a v h = elim (recv_outcome s a.channel_id a.buffer a.payload_capacity v h) [
    | inl (_, e) ↦ kept-Shrinks k i s (neg 2) (do_receive s a) v e
    | inr (inl (_, e)) ↦ kept-Shrinks k i s (neg 3) (do_receive s a) v e
    | inr (inr (inl (_, _, _, _, e))) ↦ kept-Shrinks k i s (neg 4) (do_receive s a) v e
    | inr (inr (inr (r, first, _, e, only, sound))) ↦
        received-Shrinks k i s r (do_receive s a) first e only sound
  ]
    where
      k : ℕ
      k = channel_index a.channel_id

  step_keeps :
      (i : ℕ) (s : Ipc) (c : Call)
      → IsSound s
      → Contract c
      → (pending (channel_at s i) ++ taken_in i s c
          ≡ handed_out i s c ++ pending (channel_at (after s c) i))
        × IsSound (after s c)
  unfolding after handed_out taken_in
  step_keeps i s (sends a) v h = send_keeps i s a v h
  step_keeps i s (receives a) v h =
      let (first, sound) = receive_keeps i s a v h in
      (append-nil (pending (channel_at s i)) ∙ first, sound)

  run-IsSound : (s : Ipc) (cs : List Call) → IsSound s → AllCalls Contract cs → IsSound (run s cs)
  unfolding run
  run-IsSound s [] v h = v
  run-IsSound s (c ∷ cs) v h = run-IsSound (after s c) cs (step_keeps 0 s c v h.0).1 h.1

  -- Over any sequence of sends and receives on a sound table, by any tasks, on any channels, what
  -- channel `i` held at the start followed by the messages that it took in is what it handed out
  -- followed by what it holds at the end: nothing is lost, doubled, changed or reordered.
  pub run_in_order :
      (i : ℕ) (s : Ipc) (cs : List Call)
      → IsSound s
      → AllCalls Contract cs
      → pending (channel_at s i) ++ all_taken_in i s cs
        ≡ all_handed_out i s cs ++ pending (channel_at (run s cs) i)
  unfolding run all_taken_in all_handed_out
  run_in_order i s [] v h = append-nil (pending (channel_at s i))
  run_in_order i s (c ∷ cs) v h =
      let (one, sound) = step_keeps i s c v h.0 in
      sym (append_assoc (pending (channel_at s i)) (taken_in i s c) (all_taken_in i (after s c) cs))
      ∙ ap (λ l. l ++ all_taken_in i (after s c) cs) one
      ∙ append_assoc (handed_out i s c) (pending (channel_at (after s c) i))
          (all_taken_in i (after s c) cs)
      ∙ ap (λ l. handed_out i s c ++ l) (run_in_order i (after s c) cs sound h.1)
      ∙ sym (
          append_assoc (handed_out i s c) (all_handed_out i (after s c) cs)
            (pending (channel_at (run (after s c) cs) i)))
