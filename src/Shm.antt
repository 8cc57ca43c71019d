-- ===== src/Shm.antt =====
-- kernel/ipc/shm.c: segments of shared memory, found by name, and the threads attached to each. Each call
-- runs under `g_shm_lock` with interrupts off, so it is one step on the table.
pub mod Attached
pub mod Attach
pub mod Lookup
pub mod Fresh
pub mod Create
pub mod History
pub mod Roundtrip
pub mod Tests
use gnu_os.Base.{
  ℕ, zero, suc, ◌+◌, ◌-◌, ◌/◌, Bool, true, false, not, ◌&&◌, ◌||◌, Option, none, some, List, [],
  map, ℤ, pos, negsuc, neg, leb, ltb, ◌==◌, if◌then◌else◌, get_or, set, replicate, find_idx_from,
  u16, u64, inc16, dec16, bit_and,
}
use gnu_os.Names.{name_max, strnlen, name_equal, name_copy}
use gnu_os.Pmm.{page_bytes}
use gnu_os.Pmm.Api.{page_mask}

-- `SHM_MAX_SEGMENTS`
abbrev pub max_segments : ℕ
max_segments = 32

-- `SHM_MAX_ATTACHMENTS`
abbrev pub max_attachments : ℕ
max_attachments = 32

-- `shm_segment_t`; a `base` of 0 is `NULL`.
pub record Segment : Type 0 where
  pub in_use : ℕ
  pub name : List ℕ
  pub base : ℕ
  pub size : ℕ
  pub owner_tid : ℕ
  pub attachments : ℕ
  pub attached_tids : List ℕ

-- `g_shm_segments` and `g_shm_segment_count`
pub record Shm : Type 0 where
  pub segments : List Segment
  pub segment_count : ℕ

-- Static storage is zero before `shm_init`.
unfoldable pub zero_segment : Segment
zero_segment = record {
  in_use = 0;
  name = replicate name_max 0;
  base = 0;
  size = 0;
  owner_tid = 0;
  attachments = 0;
  attached_tids = replicate max_attachments 0;
}

unfoldable pub boot : Shm
boot = record { segments = replicate max_segments zero_segment; segment_count = 0 }

abbrev pub is_unused : Segment → Bool
is_unused c = c.in_use == 0

abbrev pub segment_at : Shm → ℕ → Segment
segment_at s i = get_or s.segments i zero_segment

abbrev pub set_segment : Shm → ℕ → Segment → Shm
set_segment s i c = record s { segments = set s.segments i c }

-- What `sched_current_task` gave: nothing, or the running thread's number.
unfoldable pub shm_current_tid : Option ℕ → ℕ
shm_current_tid none = 0
shm_current_tid (some tid) = tid

-- `none` is the answer 0.
unfoldable pub resolve_tid : Option ℕ → (requested_tid : ℕ) → Option ℕ
resolve_tid current requested_tid =
    if requested_tid == 0
    then some (shm_current_tid current)
    else if not (shm_current_tid current == 0) && not (requested_tid == shm_current_tid current)
    then none
    else some requested_tid

abbrev pub has_name : List ℕ → Segment → Bool
has_name name c = not (is_unused c) && name_equal c.name name

-- An index found, or -1.
abbrev pub found : Option ℕ → ℤ
found none = neg 1
found (some i) = pos i

unfoldable pub find_locked : Shm → List ℕ → ℤ
find_locked s name = found (find_idx_from (has_name name) 0 s.segments)

-- The loop of `shm_find_attachment_locked`: rounds left, then the index. `none` is -1.
unfoldable pub find_attachment_from : ℕ → ℕ → List ℕ → (tid : ℕ) → Option ℕ
find_attachment_from zero i tids tid = none
find_attachment_from (suc n) i tids tid =
    if get_or tids i 0 == tid then some i else find_attachment_from n (i + 1) tids tid

unfoldable pub find_attachment_locked : Segment → (tid : ℕ) → Option ℕ
find_attachment_locked c tid = find_attachment_from c.attachments 0 c.attached_tids tid

-- What `shm_init` resets, and what `shm_create` resets and then fills.
unfoldable pub reset_segment : Segment → Segment
reset_segment c = record {
  in_use = 0;
  name = name_copy [];
  base = 0;
  size = 0;
  owner_tid = 0;
  attachments = 0;
  attached_tids = replicate max_attachments 0;
}

unfoldable pub shm_init : Shm → Shm
shm_init s = record { segments = map reset_segment s.segments; segment_count = 0 }

unfoldable pub aligned_size : ℕ → ℕ
aligned_size size = bit_and (u64 (size + (page_bytes - 1))) page_mask

-- What `vmm_alloc_kernel_pages` answers for a number of pages.
module _ (alloc_kernel_pages : ℕ → ℕ) where
  -- The body of `shm_create` once no segment has the name.
  unfoldable pub create_segment : Shm → List ℕ → (aligned owner : ℕ) → ℤ × Shm
  create_segment s name aligned owner =
      let mapping = alloc_kernel_pages (aligned / page_bytes) in
      elim (find_idx_from is_unused 0 s.segments) [
        | none ↦ (neg 2, s)
        | some i ↦ if mapping == 0 then (neg 3, s) else (
          pos i,
          record {
            segments = set s.segments i (record {
              in_use = 1;
              name = name_copy name;
              base = mapping;
              size = aligned;
              owner_tid = owner;
              attachments = 0;
              attached_tids = replicate max_attachments 0;
            });
            segment_count = inc16 s.segment_count;
          },
        )
      ]

  unfoldable pub shm_create : Shm → Option ℕ → Option (List ℕ) → (size owner_tid : ℕ) → ℤ × Shm
  shm_create s current none size owner_tid = (neg 1, s)
  shm_create s current (some name) size owner_tid =
      if size == 0 then (neg 1, s) else elim (resolve_tid current owner_tid) [
        | none ↦ (neg 1, s)
        | some owner ↦
            if leb name_max (strnlen name name_max) || aligned_size size / page_bytes == 0
            then (neg 1, s)
            else elim (find_locked s name) [
              | pos i ↦ (pos i, s)
              | negsuc _ ↦ create_segment s name (aligned_size size) owner
            ]
      ]

unfoldable pub shm_find : Shm → Option (List ℕ) → ℤ
shm_find s none = neg 1
shm_find s (some name) = find_locked s name

-- The segment number of an `int`, which is cut to 16 bits before it is compared. `none` is refused.
unfoldable pub segment_index : ℤ → Option ℕ
segment_index (negsuc n) = none
segment_index (pos n) = if leb max_segments (u16 n) then none else some (u16 n)

-- A segment after `tid` was written behind the attached threads.
unfoldable pub append_tid : Segment → (tid : ℕ) → Segment
append_tid c tid = record c {
  attached_tids = set c.attached_tids c.attachments tid;
  attachments = inc16 c.attachments;
}

-- The rest of `shm_attach` for a segment number and a thread. The answer has the address and the size,
-- where it is 0.
unfoldable pub attach_at : Shm → ℕ → (tid : ℕ) → ℤ × Option (ℕ × ℕ) × Shm
attach_at s i tid =
    let c = segment_at s i in
    if is_unused c then (neg 2, none, s) else elim (find_attachment_locked c tid) [
      | some _ ↦ (pos 0, some (c.base, c.size), s)
      | none ↦
          if leb max_attachments c.attachments
          then (neg 3, none, s)
          else (pos 0, some (c.base, c.size), set_segment s i (append_tid c tid))
    ]

-- `has_out` says that both places for the answers are given.
unfoldable pub shm_attach :
    Shm → Option ℕ → ℤ → (requester_tid : ℕ) → (has_out : Bool) → ℤ × Option (ℕ × ℕ) × Shm
shm_attach s current segment_id requester_tid has_out =
    if not has_out then (neg 1, none, s) else elim (segment_index segment_id) [
      | none ↦ (neg 1, none, s)
      | some i ↦ elim (resolve_tid current requester_tid) [
        | none ↦ (neg 1, none, s)
        | some tid ↦ attach_at s i tid
      ]
    ]

-- The loop of `shm_detach`: rounds left, then the index.
unfoldable pub shift_from : ℕ → ℕ → List ℕ → List ℕ
shift_from zero i tids = tids
shift_from (suc n) i tids = shift_from n (i + 1) (set tids i (get_or tids (i + 1) 0))

-- A segment after the thread at `index` was taken out.
unfoldable pub remove_at : Segment → (index : ℕ) → Segment
remove_at c index =
    let tids = shift_from (c.attachments - (index + 1)) index c.attached_tids in
    if c.attachments == 0 then record c { attached_tids = tids } else record c {
      attachments = dec16 c.attachments;
      attached_tids = set tids (dec16 c.attachments) 0;
    }

unfoldable pub detach_at : Shm → ℕ → (tid : ℕ) → ℤ × Shm
detach_at s i tid =
    let c = segment_at s i in
    if is_unused c then (neg 2, s) else elim (find_attachment_locked c tid) [
      | none ↦ (neg 3, s)
      | some index ↦ (pos 0, set_segment s i (remove_at c index))
    ]

unfoldable pub shm_detach : Shm → Option ℕ → ℤ → (requester_tid : ℕ) → ℤ × Shm
shm_detach s current segment_id requester_tid = elim (segment_index segment_id) [
  | none ↦ (neg 1, s)
  | some i ↦ elim (resolve_tid current requester_tid) [
    | none ↦ (neg 1, s)
    | some tid ↦ detach_at s i tid
  ]
]
