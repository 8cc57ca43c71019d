-- ===== src/Shm/Fresh.antt =====
-- kernel/ipc/shm.c: a new segment of `shm_create` in its place in the table.
use native.Mathlib.Nat.{zero-add}
use gnu_os.Base.{
  ℕ, ◌+◌, ◌-◌, ◌/◌, ◌%◌, ◌^◌, ◌≤◌, ◌<◌, ◌≡◌, ◌≢◌, sym, ap, ◌∙◌, ◌⊎◌, inl, inr, true, Bool-cases,
  none, some, List, [], ltb, arith, set, length, length-set, replicate, length-replicate, inc16,
  pos, AllSlots-set, count_if-set, count_if-le, count_if_of_none, count_if_not-eq, find_idx_from,
  find_idx_from-some, find_idx_from-set_hit, u64,
}
use gnu_os.Names.{name_max, strnlen, name_copy}
use gnu_os.Names.Equal.{name_equal_comm, name_equal-name_copy, name_equal_self}
use gnu_os.Pmm.{page_bytes}
use gnu_os.Pmm.Masks.{bit_and-page_mask}
use gnu_os.Names.Same.{SameName, test-HasName}
use gnu_os.Shm.{
  Segment, Shm, max_segments, max_attachments, zero_segment, is_unused, segment_at, has_name, found,
  find_locked, aligned_size,
}
use gnu_os.Shm.Attached.{members, IsSegment}
use gnu_os.Shm.Attach.{is_used, IsSound}

-- The size of a segment is rounded up to whole pages; a size that does not fit in 64 bits rounded up
-- becomes 0.
pub aligned_size_lem :
    (size : ℕ)
    → 1 ≤ size
    → size < 2 ^ 64
    → ((aligned_size size / page_bytes ≡ 0) × (2 ^ 64 - page_bytes < size))
      ⊎ ((aligned_size size / page_bytes ≢ 0)
          × (size ≤ 2 ^ 64 - 4096)
          × (aligned_size size % page_bytes ≡ 0)
          × (size ≤ aligned_size size)
          × (aligned_size size < size + page_bytes))
unfolding aligned_size
aligned_size_lem size some_bytes word = elim (Bool-cases (ltb (2 ^ 64 - page_bytes) size)) [
  | inl large ↦
      let wraps : u64 (size + (page_bytes - 1)) ≡ size + (page_bytes - 1) - 2 ^ 64 = ground arith in
      rw (wraps, bit_and-page_mask (size + (page_bytes - 1) - 2 ^ 64) (ground arith))
        (inl (ground arith, ground arith))
  | inr fits ↦
      let same : u64 (size + (page_bytes - 1)) ≡ size + (page_bytes - 1) = ground arith in
      rw (same, bit_and-page_mask (size + (page_bytes - 1)) (ground arith))
        (inr (omega arith, ground (arith, fits), omega arith, omega arith, omega arith))
]

-- A new segment with its name, size and owner, and without threads.
abbrev pub IsNew : Segment → List ℕ → (size owner mapping : ℕ) → Type 0
IsNew c name size owner mapping =
    (is_used c ≡ true)
    × SameName c.name name
    × (c.base ≡ mapping)
    × (mapping ≢ 0)
    × (c.owner_tid ≡ owner)
    × (members c ≡ [])
    × (size ≤ c.size)
    × (c.size < size + page_bytes)
    × (c.size % page_bytes ≡ 0)

-- What `shm_create` writes over an unused segment.
abbrev pub fresh : List ℕ → (aligned owner mapping : ℕ) → Segment
fresh name aligned owner mapping = record {
  in_use = 1;
  name = name_copy name;
  base = mapping;
  size = aligned;
  owner_tid = owner;
  attachments = 0;
  attached_tids = replicate max_attachments 0;
}

abbrev pub with_segment : Shm → ℕ → Segment → Shm
with_segment s i c = record { segments = set s.segments i c; segment_count = inc16 s.segment_count }

has_name-fresh :
    (name : List ℕ) (aligned owner mapping : ℕ)
    → strnlen name name_max < name_max
    → has_name name (fresh name aligned owner mapping) ≡ true
has_name-fresh name aligned owner mapping short =
    name_equal_comm (name_copy name) name
    ∙ name_equal-name_copy name name short
    ∙ name_equal_self name short

pub fresh-SameName :
    (name : List ℕ) (aligned owner mapping : ℕ)
    → strnlen name name_max < name_max
    → SameName (fresh name aligned owner mapping).name name
fresh-SameName name aligned owner mapping short =
    (test-HasName 1 (fresh name aligned owner mapping).name name
      (has_name-fresh name aligned owner mapping short)).1

pub all_used :
    (s : Shm)
    → IsSound s
    → find_idx_from is_unused 0 s.segments ≡ none
    → s.segment_count ≡ max_segments
all_used s v full =
    v.counted
    ∙ sym (count_if_not-eq is_unused s.segments)
    ∙ count_if_of_none is_unused 0 s.segments full
    ∙ v.storage

pub free_place :
    (s : Shm) (i : ℕ)
    → IsSound s
    → find_idx_from is_unused 0 s.segments ≡ some i
    → (i < max_segments) × (is_unused (segment_at s i) ≡ true)
free_place s i v e =
    let (j, at, l, free, earlier) = find_idx_from-some is_unused 0 s.segments zero_segment e in
    let same : i ≡ j = at ∙ zero-add j in
    (omega (arith, same, l, v.storage), ap (λ k. is_unused (segment_at s k)) same ∙ free)

pub counts_on : (s : Shm) → IsSound s → inc16 s.segment_count ≡ s.segment_count + 1
counts_on s v = omega (arith, v.counted, count_if-le is_used s.segments, v.storage)

fresh-IsSegment :
    (name : List ℕ) (aligned owner mapping : ℕ) → IsSegment (fresh name aligned owner mapping)
fresh-IsSegment name aligned owner mapping = record {
  storage = length-replicate max_attachments 0;
  few = omega arith;
  once = λ tid. omega arith;
}

pub with_segment-IsSound :
    (s : Shm) (i : ℕ) (name : List ℕ) (aligned owner mapping : ℕ)
    → IsSound s
    → i < max_segments
    → is_unused (segment_at s i) ≡ true
    → IsSound (with_segment s i (fresh name aligned owner mapping))
with_segment-IsSound s i name aligned owner mapping v l free =
    let c = fresh name aligned owner mapping in
    record {
      storage = length-set s.segments i c ∙ v.storage;
      each =
          AllSlots-set IsSegment s.segments i c v.each (fresh-IsSegment name aligned owner mapping);
      counted = ground (
        arith,
        counts_on s v,
        v.counted,
        count_if-set is_used s.segments i c zero_segment (omega (arith, v.storage, l)),
        free,
      );
    }

-- The name of the new segment is found there.
pub finds_new :
    (s : Shm) (i : ℕ) (name : List ℕ) (aligned owner mapping : ℕ)
    → strnlen name name_max < name_max
    → find_idx_from (has_name name) 0 s.segments ≡ none
    → i < length s.segments
    → find_locked (with_segment s i (fresh name aligned owner mapping)) name ≡ pos i
unfolding find_locked
finds_new s i name aligned owner mapping short missing l =
    ap found (
      find_idx_from-set_hit (has_name name) 0 i s.segments (fresh name aligned owner mapping)
        missing l (has_name-fresh name aligned owner mapping short))
    ∙ ap pos (zero-add i)
