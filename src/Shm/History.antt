-- ===== src/Shm/History.antt =====
-- kernel/ipc/shm.c: any sequence of calls after `shm_init`, and a thread that comes and goes.
use gnu_os.Base.{
  ℕ, suc, ◌^◌, ◌%◌, ◌≡◌, refl, sym, ap, ◌∙◌, subst, inl, inr, Bool, Option, none, some, List, [],
  ◌∷◌, map, arith, length, length-replicate, ℤ, AllSlots, count_if,
}
use gnu_os.Shm.{
  Segment, Shm, max_segments, max_attachments, reset_segment, shm_init, shm_create, shm_attach,
  shm_detach,
}
use gnu_os.Shm.Attached.{IsSegment}
use gnu_os.Shm.Attach.{is_used, IsSound, attach_outcome, detach_outcome}
use gnu_os.Shm.Create.{shm_create_outcome}

reset_segment-IsSegment : (c : Segment) → IsSegment (reset_segment c)
unfolding reset_segment
reset_segment-IsSegment c = record {
  storage = length-replicate max_attachments 0;
  few = omega arith;
  once = λ tid. omega arith;
}

all_reset :
    (xs : List Segment)
    → (length (map reset_segment xs) ≡ length xs)
      × AllSlots IsSegment (map reset_segment xs)
      × (count_if is_used (map reset_segment xs) ≡ 0)
unfolding count_if reset_segment
all_reset [] = (refl, tt, refl)
all_reset (c ∷ xs) =
    let (l, each, n) = all_reset xs in
    (ap suc l, (reset_segment-IsSegment c, each), omega (arith, n))

pub shm_init-IsSound : (s : Shm) → length s.segments ≡ max_segments → IsSound (shm_init s)
unfolding shm_init
shm_init-IsSound s storage =
    let (l, each, n) = all_reset s.segments in
    record { storage = l ∙ storage; each = each; counted = sym n }

-- The calls that change the table, each with the thread that makes it. A creation comes with what
-- `vmm_alloc_kernel_pages` answers.
pub data Call : Type 0 where
  create : (alloc_kernel_pages : ℕ → ℕ) (name : Option (List ℕ)) (size owner_tid : ℕ) → Call
  attach : (segment_id : ℤ) (requester_tid : ℕ) (has_out : Bool) → Call
  detach : (segment_id : ℤ) (requester_tid : ℕ) → Call

-- A size is a 64-bit word.
unfoldable pub step : Shm → Option ℕ → Call → Shm
step s current (create alloc name size owner_tid) =
    (shm_create alloc s current name (size % 2 ^ 64) owner_tid).1
step s current (attach segment_id requester_tid has_out) =
    (shm_attach s current segment_id requester_tid has_out).2
step s current (detach segment_id requester_tid) = (shm_detach s current segment_id requester_tid).1

unfoldable pub run : Shm → List (Option ℕ × Call) → Shm
run s [] = s
run s ((current, c) ∷ rest) = run (step s current c) rest

step-IsSound : (s : Shm) (current : Option ℕ) (c : Call) → IsSound s → IsSound (step s current c)
unfolding step shm_create
step-IsSound s current (create alloc none size owner_tid) v = v
step-IsSound s current (create alloc (some name) size owner_tid) v =
    elim (shm_create_outcome alloc s current name (size % 2 ^ 64) owner_tid v (omega arith)) [
      | inl (out, why) ↦ subst (λ o. IsSound o.1) (sym out) v
      | inr (owner, own, inl (i, there, out)) ↦ subst (λ o. IsSound o.1) (sym out) v
      | inr (owner, own, inr (missing, inl (out, full))) ↦ subst (λ o. IsSound o.1) (sym out) v
      | inr (owner, own, inr (missing, inr (inl (out, no_memory)))) ↦
          subst (λ o. IsSound o.1) (sym out) v
      | inr
            (
              owner,
              own,
              inr (missing, inr (inr (i, s', out, l, free, new, others, more, finds, w))),
            ) ↦
          subst (λ o. IsSound o.1) (sym out) w
    ]
step-IsSound s current (attach segment_id requester_tid has_out) v =
    elim (attach_outcome s current segment_id requester_tid has_out v) [
      | inl (out, why) ↦ subst (λ o. IsSound o.2) (sym out) v
      | inr (i, tid, e, f, inl (free, out)) ↦ subst (λ o. IsSound o.2) (sym out) v
      | inr (i, tid, e, f, inr (inl (used, there, out))) ↦ subst (λ o. IsSound o.2) (sym out) v
      | inr (i, tid, e, f, inr (inr (inl (used, absent, full, out)))) ↦
          subst (λ o. IsSound o.2) (sym out) v
      | inr (i, tid, e, f, inr (inr (inr (used, absent, c', m, u, b, z, out, w)))) ↦
          subst (λ o. IsSound o.2) (sym out) w
    ]
step-IsSound s current (detach segment_id requester_tid) v =
    elim (detach_outcome s current segment_id requester_tid v) [
      | inl (out, why) ↦ subst (λ o. IsSound o.1) (sym out) v
      | inr (i, tid, e, f, inl (free, out)) ↦ subst (λ o. IsSound o.1) (sym out) v
      | inr (i, tid, e, f, inr (inl (used, absent, out))) ↦ subst (λ o. IsSound o.1) (sym out) v
      | inr (i, tid, e, f, inr (inr (used, there, c', m, out, w))) ↦
          subst (λ o. IsSound o.1) (sym out) w
    ]

run-IsSound : (s : Shm) (calls : List (Option ℕ × Call)) → IsSound s → IsSound (run s calls)
unfolding run
run-IsSound s [] v = v
run-IsSound s ((current, c) ∷ rest) v =
    run-IsSound (step s current c) rest (step-IsSound s current c v)

-- After `shm_init` on the table of 32 segments and any sequence of creations, attachments and detachments
-- by any threads, with any arguments, and whatever the mapping of pages answers: no thread is attached to a
-- segment twice, each segment has at most 32 threads, and the counter is the number of segments in use.
pub shm_history-IsSound :
    (s : Shm) (calls : List (Option ℕ × Call))
    → length s.segments ≡ max_segments
    → IsSound (run (shm_init s) calls)
shm_history-IsSound s calls storage = run-IsSound (shm_init s) calls (shm_init-IsSound s storage)
