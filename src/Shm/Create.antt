-- ===== src/Shm/Create.antt =====
-- kernel/ipc/shm.c: what `shm_create` answers and changes.
use gnu_os.Base.{
  ℕ, ◌+◌, ◌-◌, ◌/◌, ◌%◌, ◌^◌, ◌≤◌, ◌<◌, ◌≡◌, ◌≢◌, refl, sym, subst, ◌⊎◌, inl, inr, true, false,
  ◌||◌, Bool-cases, Option, none, some, Option-cases, List, ◌==◌, leb, arith, length, ℤ, pos, neg,
  find_idx_from, get_or-set_self, get_or-set_ne,
}
use gnu_os.Names.{name_max, strnlen}
use gnu_os.Pmm.{page_bytes}
use gnu_os.Base.Arguments.{ActsFor, Foreign}
use gnu_os.Names.Same.{Ends, TooLong, strnlen_cases}
use gnu_os.Shm.Lookup.{FirstNamed, NotNamed, find_some-FirstNamed, find_none-NotNamed}
use gnu_os.Shm.{
  Shm, max_segments, zero_segment, is_unused, segment_at, has_name, find_locked, aligned_size,
  create_segment, shm_create,
}
use gnu_os.Shm.Attach.{resolve_cases, IsSound}
use gnu_os.Shm.Fresh.{
  aligned_size_lem, IsNew, fresh, with_segment, fresh-SameName, all_used, free_place, counts_on,
  with_segment-IsSound, finds_new,
}

-- What the test of a name and a rounded size lets through, and what it refuses.
test_passed :
    (name : List ℕ) (size : ℕ)
    → 1 ≤ size
    → size < 2 ^ 64
    → (leb name_max (strnlen name name_max) || (aligned_size size / page_bytes == 0)) ≡ false
    → (strnlen name name_max < name_max)
      × (size ≤ 2 ^ 64 - 4096)
      × (aligned_size size % page_bytes ≡ 0)
      × (size ≤ aligned_size size)
      × (aligned_size size < size + page_bytes)
test_passed name size some_bytes word good = elim (aligned_size_lem size some_bytes word) [
  | inl (zero_pages, large) ↦ absurd (ground arith)
  | inr (pages, small, whole, low, high) ↦ (ground arith, small, whole, low, high)
]

test_failed :
    (name : List ℕ) (size : ℕ)
    → 1 ≤ size
    → size < 2 ^ 64
    → (leb name_max (strnlen name name_max) || (aligned_size size / page_bytes == 0)) ≡ true
    → (name_max ≤ strnlen name name_max) ⊎ (2 ^ 64 - page_bytes < size)
test_failed name size some_bytes word bad =
    elim (Bool-cases (leb name_max (strnlen name name_max))) [
      | inl long ↦ inl (ground arith)
      | inr short ↦ elim (aligned_size_lem size some_bytes word) [
        | inl (zero_pages, large) ↦ inr large
        | inr (pages, small, whole, low, high) ↦ absurd (ground arith)
      ]
    ]

pages_lem :
    (size : ℕ)
    → (aligned_size size % page_bytes ≡ 0)
      × (size ≤ aligned_size size)
      × (aligned_size size < size + page_bytes)
    → aligned_size size / page_bytes ≡ (size + 4095) / 4096
pages_lem size (whole, low, high) = omega (arith, whole, low, high)

name-Ends : (name : List ℕ) → strnlen name name_max < name_max → Ends name (strnlen name name_max)
name-Ends name short = elim (strnlen_cases name) [
  | inl (_, ends) ↦ ends
  | inr (e, _) ↦ absurd (omega (arith, e, short))
]

bad_arguments :
    (name : List ℕ) (size : ℕ)
    → 1 ≤ size
    → size < 2 ^ 64
    → (leb name_max (strnlen name name_max) || (aligned_size size / page_bytes == 0)) ≡ true
    → TooLong name ⊎ (2 ^ 64 - 4096 < size)
bad_arguments name size some_bytes word bad = elim (test_failed name size some_bytes word bad) [
  | inr large ↦ inr large
  | inl long ↦ elim (strnlen_cases name) [
    | inl (short, _) ↦ absurd (omega (arith, short, long))
    | inr (_, too_long) ↦ inl too_long
  ]
]

module _ (alloc_kernel_pages : ℕ → ℕ) where
  -- What `shm_create` does where no segment has the name.
  abbrev pub MakesSegment : Shm → List ℕ → (size pages owner : ℕ) → ℤ × Shm → Type 0
  MakesSegment s name size pages owner out =
      ((out ≡ (neg 2, s)) × (s.segment_count ≡ max_segments))
      ⊎ ((out ≡ (neg 3, s))
          × ((alloc_kernel_pages pages ≡ 0)
              × ((j : ℕ) × (j < 32) × (is_unused (segment_at s j) ≡ true))))
      ⊎ ((i : ℕ) × (s' : Shm) × (out ≡ (pos i, s'))
          × (i < max_segments)
          × (is_unused (segment_at s i) ≡ true)
          × IsNew (segment_at s' i) name size owner (alloc_kernel_pages pages)
          × ((j : ℕ) → j ≢ i → segment_at s' j ≡ segment_at s j)
          × (s'.segment_count ≡ s.segment_count + 1)
          × (find_locked s' name ≡ pos i)
          × IsSound s')

  makes_lem :
      (s : Shm) (name : List ℕ) (size owner : ℕ)
      → IsSound s
      → strnlen name name_max < name_max
      → find_idx_from (has_name name) 0 s.segments ≡ none
      → (aligned_size size % page_bytes ≡ 0)
        × (size ≤ aligned_size size)
        × (aligned_size size < size + page_bytes)
      → MakesSegment s name size
          (aligned_size size / page_bytes)
          owner
          (create_segment alloc_kernel_pages s name (aligned_size size) owner)
  unfolding create_segment
  makes_lem s name size owner v short missing (whole, low, high) =
      elim (Option-cases (find_idx_from is_unused 0 s.segments)) [
        | inl full ↦ rw (create_segment, full) (inl (refl, all_used s v full))
        | inr (i, e) ↦
            elim (Bool-cases (alloc_kernel_pages (aligned_size size / page_bytes) == 0)) [
              | inl no_memory ↦
                  rw (create_segment, e, no_memory)
                    (let (l, free) = free_place s i v e in
                      inr (inl (refl, (ground (arith, no_memory), (i, l, free)))))
              | inr mapped ↦
                  let mapping = alloc_kernel_pages (aligned_size size / page_bytes) in
                  let c = fresh name (aligned_size size) owner mapping in
                  let (l, free) = free_place s i v e in
                  let i_in : i < length s.segments = omega (arith, v.storage, l) in
                  let at : segment_at (with_segment s i c) i ≡ c =
                    get_or-set_self s.segments i c zero_segment i_in in
                  rw (create_segment, e, mapped)
                    (inr (
                      inr (
                        i,
                        with_segment s i c,
                        refl,
                        l,
                        free,
                        subst (λ d. IsNew d name size owner mapping) (sym at)
                            (
                              refl,
                              fresh-SameName name (aligned_size size) owner mapping short,
                              refl,
                              ground (arith, mapped),
                              refl,
                              refl,
                              low,
                              high,
                              whole,
                            ),
                        (λ j ne. get_or-set_ne s.segments i j c zero_segment (λ q. ne (sym q))),
                        counts_on s v,
                        finds_new s i name (aligned_size size) owner mapping short missing i_in,
                        with_segment-IsSound s i name (aligned_size size) owner mapping v l free,
                      )))
            ]
      ]

  -- What `shm_create` lets through: a size that can be rounded up to pages, a name of less than 32 bytes, and
  -- an owner that the caller may act for.
  abbrev pub IsAllowed : Option ℕ → List ℕ → (size owner_tid owner : ℕ) → Type 0
  IsAllowed current name size owner_tid owner =
      (1 ≤ size)
      × (size ≤ 2 ^ 64 - 4096)
      × ActsFor current owner_tid owner
      × ((k : ℕ) × Ends name k)

  -- The answers of `shm_create` for a name.
  abbrev pub CreateAnswers : Shm → Option ℕ → List ℕ → (size owner_tid : ℕ) → ℤ × Shm → Type 0
  CreateAnswers s current name size owner_tid out =
      ((out ≡ (neg 1, s))
        × ((size ≡ 0) ⊎ Foreign current owner_tid ⊎ TooLong name ⊎ (2 ^ 64 - 4096 < size)))
      ⊎ ((owner : ℕ) × IsAllowed current name size owner_tid owner
          × (((i : ℕ) × FirstNamed s name i × (out ≡ (pos i, s)))
              ⊎ (NotNamed s name × MakesSegment s name size ((size + 4095) / 4096) owner out)))

  -- `shm_create` on a sound table: -1 exactly for a size of 0 or one that does not fit in 64 bits when it is
  -- rounded up to pages, a running thread that names another one as the owner, and a name of 32 bytes or more.
  -- Otherwise the first segment in use of that name, if there is one; or else -2 for a full table and -3 for a
  -- failed mapping, all with nothing changed; or an unused segment becomes the new one, with the rounded
  -- size and no threads, the name now finds it, no other segment changes, and the table is sound again.
  pub shm_create_outcome :
      (s : Shm) (current : Option ℕ) (name : List ℕ) (size owner_tid : ℕ)
      → IsSound s
      → size < 2 ^ 64
      → CreateAnswers s current name size owner_tid
          (shm_create alloc_kernel_pages s current (some name) size owner_tid)
  unfolding shm_create find_locked
  shm_create_outcome s current name size owner_tid v word = elim (Bool-cases (size == 0)) [
    | inl none_asked ↦ rw (shm_create, none_asked) (inl (refl, inl (ground arith)))
    | inr asked ↦ elim (resolve_cases current owner_tid) [
      | inl (refused, foreign) ↦ rw (shm_create, asked, refused) (inl (refl, inr (inl foreign)))
      | inr (owner, own, acts) ↦
          elim (Bool-cases
            (leb name_max (strnlen name name_max) || (aligned_size size / page_bytes == 0))) [
              | inl bad ↦
                  rw (shm_create, asked, own, bad)
                    (inl
                      (refl, inr (inr (bad_arguments name size (ground (arith, asked)) word bad))))
              | inr good ↦
                  let (short, large, whole, low, high) =
                    test_passed name size (ground (arith, asked)) word good in
                  let allowed : IsAllowed current name size owner_tid owner = (
                    ground (arith, asked),
                    large,
                    acts,
                    (strnlen name name_max, name-Ends name short),
                  ) in
                  elim (Option-cases (find_idx_from (has_name name) 0 s.segments)) [
                    | inr (i, there) ↦
                        rw (shm_create, asked, own, good, find_locked, there)
                          (inr (
                            owner,
                            allowed,
                            inl (i, find_some-FirstNamed s name i v.storage there, refl),
                          ))
                    | inl missing ↦
                        rw (shm_create, asked, own, good, find_locked, missing)
                          (inr (
                            owner,
                            allowed,
                            inr (
                              find_none-NotNamed s name v.storage missing,
                              subst
                                  (λ pages. MakesSegment s name size pages owner (
                                    create_segment alloc_kernel_pages s name (aligned_size size)
                                      owner))
                                  (pages_lem size (whole, low, high))
                                  (makes_lem s name size owner v short missing (whole, low, high)),
                            ),
                          ))
                  ]
            ]
    ]
  ]
