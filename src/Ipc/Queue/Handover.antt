-- ===== src/Ipc/Queue/Handover.antt =====
-- Whole sends, and the capability that a receive hands over.
use gnu_os.Base.{
  ℕ, ◌≤◌, ◌<◌, ◌≡◌, ◌≢◌, refl, sym, subst, ◌⊎◌, inl, inr, Bool, true, false, ◌||◌, Option, none,
  some, List, ℤ, pos, negsuc, neg, arith, length, ltb, ◌==◌, Bool-cases,
}
use gnu_os.Base.Bits.{Includes}
use gnu_os.Base.Arguments.{own_tid, ActsFor, Foreign}
use gnu_os.Capability.Api.{CapabilityApi, MayTransfer}
use gnu_os.Ipc.Channel.{Ipc, data_max}
use gnu_os.Ipc.Queue.{
  current_tid, resolve_sender_tid, is_ok, send_internal, Received, recv_internal, accept_grant,
  accept_message, recv_capability, CapabilityReceived,
}
use gnu_os.Ipc.Queue.Fifo.{sent, IsSound}
use gnu_os.Ipc.Queue.Answers.{SendAnswers, send_locked_outcome}

own_tid_lem : (current : Option ℕ) → current_tid current ≡ own_tid current
own_tid_lem none = refl
own_tid_lem (some tid) = refl

sender_cases :
    (current : Option ℕ) (sender : ℕ)
    → ((resolve_sender_tid current sender ≡ none) × Foreign current sender)
      ⊎ ((tid : ℕ) × (resolve_sender_tid current sender ≡ some tid) × ActsFor current sender tid)
unfolding resolve_sender_tid
sender_cases current sender = elim (Bool-cases (sender == 0)) [
  | inl own ↦ inr (
    current_tid current,
    rw (resolve_sender_tid, own) refl,
    inl (ground (arith, own), own_tid_lem current),
  )
  | inr other ↦ elim (Bool-cases (own_tid current == 0)) [
    | inl nobody ↦ inr (
      sender,
      rw (resolve_sender_tid, other, own_tid_lem current, nobody) refl,
      inr (ground (arith, other), refl, inl (ground (arith, nobody))),
    )
    | inr somebody ↦ elim (Bool-cases (sender == own_tid current)) [
      | inl same ↦ inr (
        sender,
        rw (resolve_sender_tid, other, own_tid_lem current, somebody, same) refl,
        inr (ground (arith, other), refl, inr (ground (arith, same))),
      )
      | inr foreign ↦ inl (
        rw (resolve_sender_tid, other, own_tid_lem current, somebody, foreign) refl,
        (ground (arith, other), ground (arith, somebody), ground (arith, foreign)),
      )
    ]
  ]
]

is_ok_iff : (z : ℤ) → is_ok z ≡ true → z ≡ pos 0
is_ok_iff (pos n) h = ground arith
is_ok_iff (negsuc n) h = cc

bad_size :
    {F : Type 0} (size : ℕ) → (size == 0 || ltb data_max size) ≡ true → (size ≡ 0) ⊎ (64 < size) ⊎ F
bad_size size bad = elim (Bool-cases (size == 0)) [
  | inl empty ↦ inl (ground (arith, empty))
  | inr filled ↦ inr (inl (ground (arith, bad, filled)))
]

not_ok : (z : ℤ) → is_ok z ≡ false → z ≢ pos 0
not_ok (pos n) h e = absurd (ground (arith, h, e))
not_ok (negsuc n) h e = cc

module _ (caps : CapabilityApi) where
  open caps use {State, validate_transfer, copy_for_owner, IsOk, Holds}

  -- A message without a capability, or with one that its sender may transfer with these rights.
  abbrev pub Carried : State → (has_capability id tid rights : ℕ) → Type 0
  Carried c has_capability id tid rights =
      (has_capability ≡ 0) ⊎ ((has_capability ≢ 0) × MayTransfer (Holds c) id tid rights)

  abbrev pub SendOutcome :
      State → Ipc → Option ℕ → ℤ → List ℕ → (size sender has_capability id rights : ℕ) → Type 0
  SendOutcome c s current channel_id payload size sender has_capability id rights =
      let out =
        send_internal caps c s current channel_id (some payload) size sender has_capability id
          rights in
      ((out ≡ (neg 1, s)) × ((size ≡ 0) ⊎ (64 < size) ⊎ Foreign current sender))
      ⊎ ((out ≡ (neg 4, s))
          × (1 ≤ size)
          × (size ≤ 64)
          × (has_capability ≢ 0)
          × (tid : ℕ) × ActsFor current sender tid
          × ¬ MayTransfer (Holds c) id tid rights)
      ⊎ ((tid : ℕ) × (resolve_sender_tid current sender ≡ some tid)
          × (ActsFor current sender tid × (1 ≤ size) × (size ≤ 64))
          × Carried c has_capability id tid rights
          × SendAnswers s channel_id (sent tid size has_capability id rights payload) out)

  -- `ipc_channel_send_internal` on a sound table, given a payload of `size` bytes: -1 exactly for an empty
  -- message, one of more than 64 bytes, or a running task with a number that names another sender; -4
  -- exactly for a capability that the sender may not transfer, because it does not hold it, not with the
  -- right to transfer it, or not with the rights sent, or because no right is sent; both with nothing
  -- changed. Otherwise the message is in the name of the running task, or of the one that was named, and
  -- the queue answers -2 for no channel, -3 for a full queue, or takes the message at its end.
  pub send_outcome :
      (c : State) (s : Ipc) (current : Option ℕ) (channel_id : ℤ) (payload : List ℕ)
      (size sender has_capability id rights : ℕ)
      → IsSound s
      → size ≤ length payload
      → SendOutcome c s current channel_id payload size sender has_capability id rights
  unfolding send_internal
  send_outcome c s current channel_id payload size sender has_capability id rights v given =
      elim (Bool-cases (size == 0 || ltb data_max size)) [
        | inl bad ↦ inl (rw bad, bad_size size bad)
        | inr good ↦ elim (sender_cases current sender) [
          | inl (refused, foreign) ↦ inl (rw (good, refused), inr (inr foreign))
          | inr (tid, e, acts) ↦ elim (Bool-cases (has_capability == 0)) [
            | inl plain ↦ inr (
                inr (
                  tid,
                  e,
                  (acts, ground (arith, good), ground (arith, good)),
                  inl (ground arith),
                  subst (SendAnswers s channel_id (sent tid size has_capability id rights payload))
                      (sym (rw (good, e, plain, send_internal)))
                      (send_locked_outcome s channel_id tid size has_capability id rights payload v
                        given (ground arith)),
                ))
            | inr carries ↦ elim (Bool-cases (is_ok (validate_transfer c id tid rights))) [
              | inr refused ↦ inr (
                  inl (
                    rw (good, e, carries, refused),
                    ground (arith, good),
                    ground (arith, good),
                    ground (arith, carries),
                    tid,
                    acts,
                    λ may.
                        not_ok (validate_transfer c id tid rights) refused
                          ((caps.validated c id tid rights).1 may),
                  ))
              | inl allowed ↦ inr (
                  inr (
                    tid,
                    e,
                    (acts, ground (arith, good), ground (arith, good)),
                    inr (
                      ground (arith, carries),
                      (caps.validated c id tid rights).0
                          (is_ok_iff (validate_transfer c id tid rights) allowed),
                    ),
                    subst
                        (SendAnswers s channel_id (sent tid size has_capability id rights payload))
                        (sym (rw (good, e, carries, allowed, send_internal)))
                        (send_locked_outcome s channel_id tid size has_capability id rights payload
                          v given (ground arith)),
                  ))
            ]
          ]
        ]
      ]

  -- What a receiver got: the rights that the message carried, which its sender held at that moment.
  pub record HandedOver (c : State) (tid new rights : ℕ) (r : CapabilityReceived caps)
      : Type 0 where
    pub message : Received
    pub got : r.message ≡ some message
    pub carries : message.has_capability ≢ 0
    pub same : rights ≡ message.capability_rights
    pub object : ℕ
    pub held : ℕ
    pub sender : Holds c message.capability_id message.sender_tid object held
    pub included : Includes held rights
    pub receiver : Holds r.capabilities new tid object rights

  accept_grant-HandedOver :
      (c : State) (s : Ipc) (current : Option ℕ) (m : Received) (new rights : ℕ)
      → IsOk c
      → rights ≢ 0
      → (accept_grant caps c s current m).grant ≡ some (new, rights)
      → HandedOver c (current_tid current) new rights (accept_grant caps c s current m)
  unfolding accept_grant
  accept_grant-HandedOver c s current m new rights ok ne h =
      elim (Bool-cases (m.has_capability == 0)) [
        | inl plain ↦ absurd (ground arith)
        | inr carries ↦
            elim (Bool-cases (
              is_ok
                (copy_for_owner c m.capability_id m.sender_tid m.capability_rights
                  (current_tid current) true).0)) [
                    | inr refused ↦ absurd (ground arith)
                    | inl done ↦
                        let (object, held, made, sender, included, number, receiver) =
                          caps.copied c m.capability_id m.sender_tid m.capability_rights
                            (current_tid current) ok (is_ok_iff _ done) in
                        let after : State =
                          (copy_for_owner c m.capability_id m.sender_tid m.capability_rights
                            (current_tid current) true).2 in
                        let same : m.capability_rights ≡ rights = ground arith in
                        let given : made ≡ new = ground arith in
                        rw carries (record {
                          message = m;
                          got = refl;
                          carries = ground arith;
                          same = sym same;
                          object = object;
                          held = held;
                          sender = sender;
                          included = subst (Includes held) same included;
                          receiver =
                              subst (λ n. Holds after n (current_tid current) object rights) given
                                (subst (Holds after made (current_tid current) object) same
                                  receiver);
                        })
                  ]
      ]

  accept_message-HandedOver :
      (c : State) (current : Option ℕ) (new rights : ℕ) (out : ℤ × Option Received × Ipc)
      → IsOk c
      → rights ≢ 0
      → (accept_message caps c current out).grant ≡ some (new, rights)
      → HandedOver c (current_tid current) new rights (accept_message caps c current out)
  unfolding accept_message
  accept_message-HandedOver c current new rights (status, none, s) ok ne h = absurd (ground arith)
  accept_message-HandedOver c current new rights (status, some m, s) ok ne h =
      accept_grant-HandedOver c s current m new rights ok ne h

  -- Whenever `ipc_channel_recv_capability` hands out rights, the receiving task now holds the new
  -- capability, with exactly the rights of the message, on an object on which the sender of the message
  -- holds a capability with at least these rights.
  pub recv_capability_safe :
      (c : State) (s : Ipc) (current : Option ℕ) (channel_id : ℤ) (payload : Option (List ℕ))
      (payload_capacity : ℕ) (has_outs has_grant_outs : Bool) (new rights : ℕ)
      → IsOk c
      → (recv_capability caps c s current channel_id payload payload_capacity has_outs
          has_grant_outs).grant
        ≡ some (new, rights)
      → rights ≢ 0
      → HandedOver c (current_tid current) new rights (
          recv_capability caps c s current channel_id payload payload_capacity has_outs
            has_grant_outs)
  unfolding recv_capability
  recv_capability_safe c s current channel_id payload payload_capacity has_outs false new rights ok
        h ne =
      cc
  recv_capability_safe c s current channel_id payload payload_capacity has_outs true new rights ok h
        ne =
      accept_message-HandedOver c current new rights
        (recv_internal s channel_id payload payload_capacity has_outs) ok ne h
