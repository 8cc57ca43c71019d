-- ===== src/Ipc/Rendezvous/Progress.antt =====
-- kernel/ipc/ipc.c: the first message that a sequence of passes takes out of a rendezvous slot.
use gnu_os.Base.{
  ℕ, ◌≡◌, refl, sym, subst, inl, inr, none, some, List, [], ◌∷◌, arith, ◌==◌, Bool-cases,
}
use gnu_os.Ipc.Channel.{Message, Ipc}
use gnu_os.Ipc.Queue.{channel_index, receive_message}
use gnu_os.Ipc.Rendezvous.{receiver_step}
use gnu_os.Ipc.Rendezvous.Standing.{
  Event, happen, run, taken, first_taken, Stands, posts-Stands, takes_elsewhere, takes_here, posts,
  takes,
}

-- An event takes the standing message out, or leaves it standing.
pub data Progress (i g : ℕ) (m : Message) (s : Ipc) (e : Event) : Type 0 where
  taken_out : (buffer : List ℕ) → taken i s e ≡ some (receive_message m buffer) → Progress i g m s e
  left : taken i s e ≡ none → Stands i g m (happen s e) → Progress i g m s e

pub happen-Progress :
    (i g : ℕ) (m : Message) (s : Ipc) (e : Event) → Stands i g m s → Progress i g m s e
unfolding taken happen
happen-Progress i g m s (posts channel_id tid size payload) h =
    left refl (posts-Stands i g m s channel_id tid size payload h)
happen-Progress i g m s (takes channel_id buffer payload_capacity) h =
    elim (Bool-cases (channel_index channel_id == i)) [
      | inr other ↦
          left (rw other) (takes_elsewhere i g m s channel_id buffer payload_capacity other h)
      | inl here ↦
          let at : i ≡ channel_index channel_id = ground arith in
          elim (takes_here g m s channel_id buffer payload_capacity
            (subst (λ k. Stands k g m s) at h)) [
              | inl (e, _, _) ↦ taken_out buffer (rw (here, e))
              | inr (n, e, stands) ↦ left (rw (here, e)) (
                  subst (λ k. Stands k g m (receiver_step s channel_id buffer payload_capacity).1)
                    (sym at) stands)
            ]
    ]

-- The same over a sequence of events.
pub data FirstTaken (i g : ℕ) (m : Message) (s : Ipc) (es : List Event) : Type 0 where
  taken_first :
      (buffer : List ℕ)
      → first_taken i s es ≡ some (receive_message m buffer)
      → FirstTaken i g m s es
  not_taken : first_taken i s es ≡ none → Stands i g m (run s es) → FirstTaken i g m s es

pub later-FirstTaken :
    (i g : ℕ) (m : Message) (s : Ipc) (e : Event) (es : List Event)
    → taken i s e ≡ none
    → FirstTaken i g m (happen s e) es
    → FirstTaken i g m s (e ∷ es)
unfolding first_taken run
later-FirstTaken i g m s e es t (taken_first buffer f) = taken_first buffer (rw (t, first_taken) f)
later-FirstTaken i g m s e es t (not_taken f stands) = not_taken (rw (t, first_taken) f) stands

pub Progress-FirstTaken :
    (i g : ℕ) (m : Message) (s : Ipc) (e : Event) (es : List Event)
    → (Stands i g m (happen s e) → FirstTaken i g m (happen s e) es)
    → Progress i g m s e
    → FirstTaken i g m s (e ∷ es)
unfolding first_taken
Progress-FirstTaken i g m s e es next (taken_out buffer t) =
    taken_first buffer (rw (t, first_taken))
Progress-FirstTaken i g m s e es next (left t stands) =
    later-FirstTaken i g m s e es t (next stands)

pub run-FirstTaken :
    (i g : ℕ) (m : Message) (s : Ipc) (es : List Event) → Stands i g m s → FirstTaken i g m s es
unfolding first_taken run
run-FirstTaken i g m s [] h = not_taken refl h
run-FirstTaken i g m s (e ∷ es) h =
    Progress-FirstTaken i g m s e es (run-FirstTaken i g m (happen s e) es)
      (happen-Progress i g m s e h)
