-- ===== src/Shm/Attach.antt =====
-- kernel/ipc/shm.c: what `shm_attach` and `shm_detach` answer and change, on every path.
use gnu_os.Base.{
  ℕ, u16, ◌<◌, ◌≡◌, refl, ◌∙◌, ◌⊎◌, inl, inr, Bool, true, false, not, Bool-cases, Option, none,
  some, Option-cases, [], ◌∷◌, ◌++◌, ◌==◌, leb, arith, length, length-set, ℤ, pos, neg, negsuc,
  AllSlots, AllSlots-get, AllSlots-set, count_if, count_if-set,
}
use gnu_os.Base.Occurs.{occurs, remove_member}
use gnu_os.Base.Arguments.{Index, NoIndex, own_tid, ActsFor, Foreign}
use gnu_os.Shm.{
  Segment, Shm, max_segments, max_attachments, zero_segment, is_unused, segment_at, set_segment,
  find_attachment_locked, append_tid, remove_at, resolve_tid, segment_index, shm_current_tid,
  attach_at, detach_at, shm_attach, shm_detach,
}
use gnu_os.Shm.Attached.{
  members, IsSegment, locked_none, locked_some, append_tid-members, append_tid-IsSegment,
  remove_at-members, remove_at-IsSegment,
}

abbrev pub is_used : Segment → Bool
is_used c = not (is_unused c)

-- The table has its 32 segments, each with its 32 places and no thread attached twice, and the counter is
-- the number of segments in use.
pub record IsSound (s : Shm) : Type 0 where
  pub storage : length s.segments ≡ max_segments
  pub each : AllSlots IsSegment s.segments
  pub counted : s.segment_count ≡ count_if is_used s.segments

pub segment_at-IsSegment :
    (s : Shm) (i : ℕ) → IsSound s → i < max_segments → IsSegment (segment_at s i)
segment_at-IsSegment s i v l =
    AllSlots-get IsSegment s.segments i zero_segment v.each (omega (arith, v.storage, l))

-- A segment in use that stays in use.
pub set_segment-IsSound :
    (s : Shm) (i : ℕ) (c : Segment)
    → IsSound s
    → i < max_segments
    → IsSegment c
    → is_used c ≡ is_used (segment_at s i)
    → IsSound (set_segment s i c)
set_segment-IsSound s i c v l w same = record {
  storage = length-set s.segments i c ∙ v.storage;
  each = AllSlots-set IsSegment s.segments i c v.each w;
  counted = ground (
    arith,
    v.counted,
    count_if-set is_used s.segments i c zero_segment (omega (arith, v.storage, l)),
    same,
  );
}

pub segment_index-lt : (id : ℤ) (i : ℕ) → segment_index id ≡ some i → i < max_segments
unfolding segment_index
segment_index-lt (negsuc n) i h = absurd (ground (arith, h))
segment_index-lt (pos n) i h = ground (arith, h)

-- What `shm_attach` answers for a segment and a thread.
abbrev pub AttachAt : Shm → (i tid : ℕ) → ℤ × Option (ℕ × ℕ) × Shm → Type 0
AttachAt s i tid out =
    let c = segment_at s i in
    ((is_unused c ≡ true) × (out ≡ (neg 2, none, s)))
    ⊎ ((is_unused c ≡ false)
        × (occurs tid (members c) ≡ 1)
        × (out ≡ (pos 0, some (c.base, c.size), s)))
    ⊎ ((is_unused c ≡ false)
        × (occurs tid (members c) ≡ 0)
        × (c.attachments ≡ 32)
        × (out ≡ (neg 3, none, s)))
    ⊎ ((is_unused c ≡ false)
        × (occurs tid (members c) ≡ 0)
        × (c' : Segment) × (members c' ≡ members c ++ (tid ∷ []))
        × (is_unused c' ≡ false)
        × (c'.base ≡ c.base)
        × (c'.size ≡ c.size)
        × (out ≡ (pos 0, some (c.base, c.size), set_segment s i c'))
        × IsSound (set_segment s i c'))

pub attach_at_lem :
    (s : Shm) (i tid : ℕ) → IsSound s → i < max_segments → AttachAt s i tid (attach_at s i tid)
unfolding attach_at
attach_at_lem s i tid v l = elim (Bool-cases (is_unused c)) [
  | inl free ↦ inl (free, rw (attach_at, free) refl)
  | inr used ↦ elim (Option-cases (find_attachment_locked c tid)) [
    | inl absent ↦
        let out = locked_none c tid w absent in
        elim (Bool-cases (leb max_attachments c.attachments)) [
          | inl full ↦ inr (
              inr (
                inl (
                  used,
                  out,
                  ground (arith, full, w.few),
                  rw (attach_at, used, absent, full) refl,
                )))
          | inr room ↦
              let some_room : c.attachments < max_attachments = ground arith in
              inr (
                inr (
                  inr (
                    used,
                    out,
                    append_tid c tid,
                    append_tid-members c tid w some_room,
                    unfold append_tid in used,
                    unfold append_tid in refl,
                    unfold append_tid in refl,
                    rw (attach_at, used, absent, room) refl,
                    set_segment-IsSound s i (append_tid c tid) v l
                        (append_tid-IsSegment c tid w some_room out) (unfold append_tid in refl),
                  )))
        ]
    | inr (k, present) ↦
        let (below, there) = locked_some c tid k w present in
        inr (inl (used, omega (arith, there, w.once tid), rw (attach_at, used, present) refl))
  ]
]
  where
    c : Segment
    c = segment_at s i

    w : IsSegment c
    w = segment_at-IsSegment s i v l

own_tid_lem : (current : Option ℕ) → shm_current_tid current ≡ own_tid current
unfolding shm_current_tid
own_tid_lem none = refl
own_tid_lem (some tid) = refl

pub resolve_cases :
    (current : Option ℕ) (requested : ℕ)
    → ((resolve_tid current requested ≡ none) × Foreign current requested)
      ⊎ ((tid : ℕ) × (resolve_tid current requested ≡ some tid) × ActsFor current requested tid)
unfolding resolve_tid
resolve_cases current requested = elim (Bool-cases (requested == 0)) [
  | inl own ↦ inr (
    shm_current_tid current,
    rw (resolve_tid, own) refl,
    inl (ground (arith, own), own_tid_lem current),
  )
  | inr other ↦ elim (Bool-cases (own_tid current == 0)) [
    | inl nobody ↦ inr (
      requested,
      rw (resolve_tid, other, own_tid_lem current, nobody) refl,
      inr (ground (arith, other), refl, inl (ground (arith, nobody))),
    )
    | inr somebody ↦ elim (Bool-cases (requested == own_tid current)) [
      | inl same ↦ inr (
        requested,
        rw (resolve_tid, other, own_tid_lem current, somebody, same) refl,
        inr (ground (arith, other), refl, inr (ground (arith, same))),
      )
      | inr foreign ↦ inl (
        rw (resolve_tid, other, own_tid_lem current, somebody, foreign) refl,
        (ground (arith, other), ground (arith, somebody), ground (arith, foreign)),
      )
    ]
  ]
]

pub range_cases :
    (id : ℤ)
    → ((segment_index id ≡ none) × NoIndex id 32)
      ⊎ ((i : ℕ) × (segment_index id ≡ some i) × Index id 32 i)
unfolding segment_index
range_cases (negsuc n) = inl (refl, inl (n, refl))
range_cases (pos n) = elim (Bool-cases (leb max_segments (u16 n))) [
  | inl high ↦ inl (rw (segment_index, high) refl, inr (n, refl, ground (arith, high)))
  | inr low ↦ inr (u16 n, rw (segment_index, low) refl, (n, refl, refl, ground (arith, low)))
]

abbrev pub AttachAnswers :
    Shm → Option ℕ → ℤ → (requester_tid : ℕ) → (has_out : Bool) → ℤ × Option (ℕ × ℕ) × Shm → Type 0
AttachAnswers s current segment_id requester_tid has_out out =
    ((out ≡ (neg 1, none, s))
      × ((has_out ≡ false) ⊎ NoIndex segment_id 32 ⊎ Foreign current requester_tid))
    ⊎ ((i : ℕ) × (tid : ℕ) × ((has_out ≡ true) × Index segment_id 32 i)
        × ActsFor current requester_tid tid
        × AttachAt s i tid out)

-- `shm_attach` on a sound table: it answers -1 exactly without places for the answers, for a negative number
-- or one whose low 16 bits are 32 or more, and for a running thread that asks for another one. Otherwise
-- the segment is the one of these low 16 bits, and the thread the one asked for, or with 0 the running one:
-- an unused segment gives -2, and a 33rd thread -3; in all these cases nothing changes. A thread that is
-- attached already gets the address and the size again; any other thread is put behind the attached ones
-- and gets them too, and the table is sound again.
pub attach_outcome :
    (s : Shm) (current : Option ℕ) (segment_id : ℤ) (requester_tid : ℕ) (has_out : Bool)
    → IsSound s
    → AttachAnswers s current segment_id requester_tid has_out
        (shm_attach s current segment_id requester_tid has_out)
unfolding shm_attach
attach_outcome s current segment_id requester_tid false v = inl (refl, inl refl)
attach_outcome s current segment_id requester_tid true v = elim (range_cases segment_id) [
  | inl (bad, no_index) ↦ inl (rw (shm_attach, bad) refl, inr (inl no_index))
  | inr (i, e, index) ↦ elim (resolve_cases current requester_tid) [
    | inl (refused, foreign) ↦ inl (rw (shm_attach, e, refused) refl, inr (inr foreign))
    | inr (tid, f, acts) ↦
        rw (shm_attach, e, f)
          (inr (
            i,
            tid,
            (refl, index),
            acts,
            attach_at_lem s i tid v (segment_index-lt segment_id i e),
          ))
  ]
]

-- What `shm_detach` answers for a segment and a thread.
abbrev pub DetachAt : Shm → (i tid : ℕ) → ℤ × Shm → Type 0
DetachAt s i tid out =
    let c = segment_at s i in
    ((is_unused c ≡ true) × (out ≡ (neg 2, s)))
    ⊎ ((is_unused c ≡ false) × (occurs tid (members c) ≡ 0) × (out ≡ (neg 3, s)))
    ⊎ ((is_unused c ≡ false)
        × (occurs tid (members c) ≡ 1)
        × (c' : Segment) × (members c' ≡ remove_member tid (members c))
        × (out ≡ (pos 0, set_segment s i c'))
        × IsSound (set_segment s i c'))

remove_at_in_use : (c : Segment) (k : ℕ) → is_used (remove_at c k) ≡ is_used c
unfolding remove_at
remove_at_in_use c k = elim (Bool-cases (c.attachments == 0)) [
  | inl e ↦ rw (remove_at, e) refl
  | inr e ↦ rw (remove_at, e) refl
]

pub detach_at_lem :
    (s : Shm) (i tid : ℕ) → IsSound s → i < max_segments → DetachAt s i tid (detach_at s i tid)
unfolding detach_at
detach_at_lem s i tid v l = elim (Bool-cases (is_unused c)) [
  | inl free ↦ inl (free, rw (detach_at, free) refl)
  | inr used ↦ elim (Option-cases (find_attachment_locked c tid)) [
    | inl absent ↦ inr (inl (used, locked_none c tid w absent, rw (detach_at, used, absent) refl))
    | inr (k, present) ↦
        let (below, there) = locked_some c tid k w present in
        inr (
          inr (
            used,
            omega (arith, there, w.once tid),
            remove_at c k,
            remove_at-members c tid k w present,
            rw (detach_at, used, present) refl,
            set_segment-IsSound s i (remove_at c k) v l (remove_at-IsSegment c tid k w present)
                (remove_at_in_use c k),
          ))
  ]
]
  where
    c : Segment
    c = segment_at s i

    w : IsSegment c
    w = segment_at-IsSegment s i v l

abbrev pub DetachAnswers : Shm → Option ℕ → ℤ → (requester_tid : ℕ) → ℤ × Shm → Type 0
DetachAnswers s current segment_id requester_tid out =
    ((out ≡ (neg 1, s)) × (NoIndex segment_id 32 ⊎ Foreign current requester_tid))
    ⊎ ((i : ℕ) × (tid : ℕ) × Index segment_id 32 i
        × ActsFor current requester_tid tid
        × DetachAt s i tid out)

-- `shm_detach` on a sound table: it answers -1 exactly for a negative number or one whose low 16 bits are 32 or
-- more, and for a running thread that asks for another one. Otherwise the segment is the one of these low
-- 16 bits, and the thread the one asked for, or with 0 the running one: an unused segment gives -2, and a
-- thread that is not attached -3; in all these cases nothing changes. Any other thread is no longer
-- attached, the others keep their order, and the table is sound again.
pub detach_outcome :
    (s : Shm) (current : Option ℕ) (segment_id : ℤ) (requester_tid : ℕ)
    → IsSound s
    → DetachAnswers s current segment_id requester_tid
        (shm_detach s current segment_id requester_tid)
unfolding shm_detach
detach_outcome s current segment_id requester_tid v = elim (range_cases segment_id) [
  | inl (bad, no_index) ↦ inl (rw (shm_detach, bad) refl, inl no_index)
  | inr (i, e, index) ↦ elim (resolve_cases current requester_tid) [
    | inl (refused, foreign) ↦ inl (rw (shm_detach, e, refused) refl, inr foreign)
    | inr (tid, f, acts) ↦
        rw (shm_detach, e, f)
          (inr (i, tid, index, acts, detach_at_lem s i tid v (segment_index-lt segment_id i e)))
  ]
]
