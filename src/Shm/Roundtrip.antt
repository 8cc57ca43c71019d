-- ===== src/Shm/Roundtrip.antt =====
-- kernel/ipc/shm.c: a thread that attaches and detaches again, and segment numbers that alias.
use gnu_os.Base.{
  ℕ, ◌<◌, ◌≡◌, refl, sym, ap, ◌∙◌, subst, inl, inr, true, false, Option, some, List, [], ◌∷◌, ◌++◌,
  arith, get_or-set_self, ℤ, pos,
}
use gnu_os.Base.Occurs.{occurs, occurs_append, remove_member}
use gnu_os.Shm.{
  Segment, Shm, max_segments, zero_segment, is_unused, segment_at, set_segment, resolve_tid,
  segment_index, attach_at, detach_at, shm_attach, shm_detach,
}
use gnu_os.Shm.Attached.{members, remove_member-append}
use gnu_os.Shm.Attach.{IsSound, AttachAt, DetachAt, attach_at_lem, detach_at_lem, segment_index-lt}

members_set :
    (s : Shm) (i : ℕ) (c : Segment)
    → IsSound s
    → i < max_segments
    → segment_at (set_segment s i c) i ≡ c
members_set s i c v l = get_or-set_self s.segments i c zero_segment (omega (arith, v.storage, l))

-- A detachment by a thread that came last.
leaves :
    (s : Shm) (i tid : ℕ) (xs : List ℕ) (out : ℤ × Shm)
    → IsSound s
    → i < max_segments
    → is_unused (segment_at s i) ≡ false
    → members (segment_at s i) ≡ xs ++ (tid ∷ [])
    → occurs tid xs ≡ 0
    → DetachAt s i tid out
    → (out.0 ≡ pos 0) × (members (segment_at out.1 i) ≡ xs)
leaves s i tid xs out v l used m absent (inl (free, o)) = absurd (ground (arith, used, free))
leaves s i tid xs out v l used m absent (inr (inl (u, none_there, o))) =
    absurd (ground (arith, none_there, ap (occurs tid) m, occurs_append tid xs (tid ∷ [])))
leaves s i tid xs out v l used m absent (inr (inr (u, there, c', m', o, w))) = (
  ap (λ o. o.0) o,
  ap (λ o. members (segment_at o.1 i)) o
      ∙ ap members (members_set s i c' v l)
      ∙ m'
      ∙ ap (remove_member tid) m
      ∙ remove_member-append tid xs absent,
)

come_and_go :
    (s : Shm) (i tid : ℕ) (out : ℤ × Option (ℕ × ℕ) × Shm)
    → IsSound s
    → i < max_segments
    → occurs tid (members (segment_at s i)) ≡ 0
    → AttachAt s i tid out
    → out.0 ≡ pos 0
    → ((detach_at out.2 i tid).0 ≡ pos 0)
      × (members (segment_at (detach_at out.2 i tid).1 i) ≡ members (segment_at s i))
come_and_go s i tid out v l absent (inl (free, o)) ok = absurd (ground (arith, ap (λ o. o.0) o, ok))
come_and_go s i tid out v l absent (inr (inl (used, there, o))) ok =
    absurd (omega (arith, there, absent))
come_and_go s i tid out v l absent (inr (inr (inl (used, out', full, o)))) ok =
    absurd (ground (arith, ap (λ o. o.0) o, ok))
come_and_go s i tid out v l absent (inr (inr (inr (used, out', c', m, u, b, z, o, w)))) ok =
    let s' = set_segment s i c' in
    let at = members_set s i c' v l in
    subst
      (λ o.
        ((detach_at o.2 i tid).0 ≡ pos 0)
        × (members (segment_at (detach_at o.2 i tid).1 i) ≡ members (segment_at s i)))
      (sym o)
      (leaves s' i tid (members (segment_at s i)) (detach_at s' i tid) w l (ap is_unused at ∙ u)
        (ap members at ∙ m) absent (detach_at_lem s' i tid w l))

attach_passes :
    (s : Shm) (current : Option ℕ) (segment_id : ℤ) (requester_tid i tid : ℕ)
    → segment_index segment_id ≡ some i
    → resolve_tid current requester_tid ≡ some tid
    → shm_attach s current segment_id requester_tid true ≡ attach_at s i tid
unfolding shm_attach
attach_passes s current segment_id requester_tid i tid e f = rw (shm_attach, e, f) refl

detach_passes :
    (s : Shm) (current : Option ℕ) (segment_id : ℤ) (requester_tid i tid : ℕ)
    → segment_index segment_id ≡ some i
    → resolve_tid current requester_tid ≡ some tid
    → shm_detach s current segment_id requester_tid ≡ detach_at s i tid
unfolding shm_detach
detach_passes s current segment_id requester_tid i tid e f = rw (shm_detach, e, f) refl

-- Where a thread that is not attached to segment `i` of a sound table attaches with success, detaching it at
-- once also succeeds, and leaves the threads attached to the segment as they were, in the same order.
pub attach_detach :
    (s : Shm) (current : Option ℕ) (segment_id : ℤ) (requester_tid i tid : ℕ)
    → IsSound s
    → segment_index segment_id ≡ some i
    → resolve_tid current requester_tid ≡ some tid
    → occurs tid (members (segment_at s i)) ≡ 0
    → (shm_attach s current segment_id requester_tid true).0 ≡ pos 0
    → let out =
        shm_detach
          (shm_attach s current segment_id requester_tid true).2
          current
          segment_id
          requester_tid in
      (out.0 ≡ pos 0) × (members (segment_at out.1 i) ≡ members (segment_at s i))
attach_detach s current segment_id requester_tid i tid v e f absent ok =
    let attached = attach_passes s current segment_id requester_tid i tid e f in
    let detached = detach_passes (attach_at s i tid).2 current segment_id requester_tid i tid e f in
    let l = segment_index-lt segment_id i e in
    rw (attached, detached)
      (come_and_go s i tid (attach_at s i tid) v l absent (attach_at_lem s i tid v l)
        (ap (λ o. o.0) (sym attached) ∙ ok))
