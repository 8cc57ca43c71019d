-- ===== src/Shm/Attached.antt =====
-- kernel/ipc/shm.c: the threads attached to a segment, as the list of the used places of its array.
use native.Mathlib.Decide.{ℕ_discrete}
use mathlib.Core.Option
use gnu_os.Base.{
  ℕ, zero, suc, ◌+◌, ◌-◌, ◌≤◌, ◌<◌, ◌≡◌, ◌≢◌, refl, sym, ap, ◌∙◌, subst, inl, inr, false,
  Bool-cases, Option, none, some, List, [], ◌∷◌, ◌++◌, ◌==◌, ==_refl, if◌then◌else◌, arith, get_or,
  set, take, length, length-set, dec16, inc16,
}
use gnu_os.Base.Occurs.{occurs, one_if, occurs_append, remove_member, occurs-remove_member}
use gnu_os.Shm.{
  Segment, find_attachment_from, find_attachment_locked, shift_from, append_tid, remove_at,
  max_attachments,
}

-- The search in the places behind the first one.
find_behind :
    (n i x : ℕ) (tids : List ℕ) (tid : ℕ)
    → find_attachment_from n (suc i) (x ∷ tids) tid
      ≡ Option.map suc (find_attachment_from n i tids tid)
unfolding find_attachment_from
find_behind zero i x tids tid = refl
find_behind (suc n) i x tids tid = elim (Bool-cases (get_or tids i 0 == tid)) [
  | inl e ↦ rw e refl
  | inr e ↦
      let next : suc i + 1 ≡ suc (i + 1) = omega arith in
      rw (e, next) (find_behind n (i + 1) x tids tid)
]

map-none : (o : Option ℕ) → Option.map suc o ≡ none → o ≡ none
map-none none h = refl
map-none (some k) h = absurd (ground (arith, h))

-- The search from the first place on, in one step.
find_step :
    (n x : ℕ) (tids : List ℕ) (tid : ℕ)
    → find_attachment_from (suc n) 0 (x ∷ tids) tid
      ≡ (if x == tid then some 0 else Option.map suc (find_attachment_from n 0 tids tid))
unfolding find_attachment_from
find_step n x tids tid = elim (Bool-cases (x == tid)) [
  | inl e ↦ rw e refl
  | inr e ↦ rw e (find_behind n 0 x tids tid)
]

-- A search that finds nothing says that the thread is not attached.
pub find_none :
    (n : ℕ) (tids : List ℕ) (tid : ℕ)
    → n ≤ length tids
    → find_attachment_from n 0 tids tid ≡ none
    → occurs tid (take n tids) ≡ 0
find_none zero tids tid fits h = refl
find_none (suc n) [] tid fits h = absurd (omega arith)
find_none (suc n) (x ∷ tids) tid fits h = elim (Bool-cases (x == tid)) [
  | inl e ↦ absurd (ground (arith, find_step n x tids tid, e, h))
  | inr e ↦
      let rest : find_attachment_from n 0 tids tid ≡ none =
        map-none _ (rw e at (sym (find_step n x tids tid) ∙ h)) in
      ground (arith, e, find_none n tids tid (omega arith) rest)
]

map-some : (o : Option ℕ) (k : ℕ) → Option.map suc o ≡ some k → (j : ℕ) × (o ≡ some j) × (k ≡ suc j)
map-some none k h = absurd (ground (arith, h))
map-some (some j) k h = (j, refl, ground (arith, h))

-- A search that finds a place says that the thread is attached.
pub find_some :
    (n : ℕ) (tids : List ℕ) (tid k : ℕ)
    → n ≤ length tids
    → find_attachment_from n 0 tids tid ≡ some k
    → (k < n) × (occurs tid (take n tids) ≢ 0)
unfolding find_attachment_from
find_some zero tids tid k fits h = absurd (ground (arith, h))
find_some (suc n) [] tid k fits h = absurd (omega arith)
find_some (suc n) (x ∷ tids) tid k fits h = elim (Bool-cases (x == tid)) [
  | inl e ↦
      let first : k ≡ 0 = ground (arith, rw e at (sym (find_step n x tids tid) ∙ h)) in
      (omega (arith, first), ground (arith, e))
  | inr e ↦
      let (j, found, same) =
        map-some (find_attachment_from n 0 tids tid) k
          (rw e at (sym (find_step n x tids tid) ∙ h)) in
      let (l, o) = find_some n tids tid j (omega arith) found in
      (omega (arith, same, l), ground (arith, o))
]

-- Moving the places behind the first one.
shift_behind :
    (n i x : ℕ) (tids : List ℕ) → shift_from n (suc i) (x ∷ tids) ≡ x ∷ shift_from n i tids
unfolding shift_from
shift_behind zero i x tids = refl
shift_behind (suc n) i x tids =
    let next : suc i + 1 ≡ suc (i + 1) = omega arith in
    rw next (shift_behind n (i + 1) x (set tids i (get_or tids (i + 1) 0)))

-- Moving all places by one drops the first.
shift_all :
    (n x : ℕ) (tids : List ℕ) → n ≤ length tids → take n (shift_from n 0 (x ∷ tids)) ≡ take n tids
unfolding shift_from
shift_all zero x tids fits = refl
shift_all (suc n) x [] fits = absurd (omega arith)
shift_all (suc n) x (y ∷ tids) fits =
    ap (take (suc n)) (shift_behind n 0 y (y ∷ tids))
    ∙ ap (λ l. y ∷ l) (shift_all n y tids (omega arith))

-- Shifting from where a thread was found takes it out of the list.
shift_found :
    (n k : ℕ) (tids : List ℕ) (tid : ℕ)
    → n ≤ length tids
    → find_attachment_from n 0 tids tid ≡ some k
    → take (n - 1) (shift_from (n - (k + 1)) k tids) ≡ remove_member tid (take n tids)
unfolding find_attachment_from
shift_found zero k tids tid fits h = absurd (ground (arith, h))
shift_found (suc n) k [] tid fits h = absurd (omega arith)
shift_found (suc n) k (x ∷ tids) tid fits h = elim (Bool-cases (x == tid)) [
  | inl e ↦
      let first : k ≡ 0 = ground (arith, rw e at (sym (find_step n x tids tid) ∙ h)) in
      let rounds : suc n - 1 ≡ n = omega arith in
      rw (first, e, rounds) (shift_all n x tids (omega arith))
  | inr e ↦
      let (j, found, same) =
        map-some (find_attachment_from n 0 tids tid) k
          (rw e at (sym (find_step n x tids tid) ∙ h)) in
      let (l, there) = find_some n tids tid j (omega arith) found in
      let left : suc n - 1 ≡ suc (n - 1) = omega (arith, l) in
      let rounds : suc n - (suc j + 1) ≡ n - (j + 1) = omega arith in
      rw (same, e, left, rounds)
        (ap (take (suc (n - 1))) (shift_behind (n - (j + 1)) j x tids)
          ∙ ap (λ l. x ∷ l) (shift_found n j tids tid (omega arith) found))
]

take-set : (n i v : ℕ) (xs : List ℕ) → n ≤ i → take n (set xs i v) ≡ take n xs
take-set zero i v xs h = refl
take-set (suc n) i v [] h = refl
take-set (suc n) zero v (x ∷ xs) h = absurd (omega arith)
take-set (suc n) (suc i) v (x ∷ xs) h = ap (λ l. x ∷ l) (take-set n i v xs (omega arith))

take_append :
    (n v : ℕ) (xs : List ℕ) → n < length xs → take (suc n) (set xs n v) ≡ take n xs ++ (v ∷ [])
take_append n v [] h = absurd (omega arith)
take_append zero v (x ∷ xs) h = refl
take_append (suc n) v (x ∷ xs) h = ap (λ l. x ∷ l) (take_append n v xs (omega arith))

length-shift_from : (n i : ℕ) (tids : List ℕ) → length (shift_from n i tids) ≡ length tids
unfolding shift_from
length-shift_from zero i tids = refl
length-shift_from (suc n) i tids =
    length-shift_from n (i + 1) (set tids i (get_or tids (i + 1) 0))
    ∙ length-set tids i (get_or tids (i + 1) 0)

-- The attached threads, in the order in which they came.
abbrev pub members : Segment → List ℕ
members c = take c.attachments c.attached_tids

-- The array has 32 places, and no thread is attached twice.
pub record IsSegment (c : Segment) : Type 0 where
  pub storage : length c.attached_tids ≡ max_attachments
  pub few : c.attachments ≤ max_attachments
  pub once : (tid : ℕ) → occurs tid (members c) ≤ 1

pub locked_none :
    (c : Segment) (tid : ℕ)
    → IsSegment c
    → find_attachment_locked c tid ≡ none
    → occurs tid (members c) ≡ 0
unfolding find_attachment_locked
locked_none c tid v h =
    find_none c.attachments c.attached_tids tid (omega (arith, v.few, v.storage)) h

pub locked_some :
    (c : Segment) (tid k : ℕ)
    → IsSegment c
    → find_attachment_locked c tid ≡ some k
    → (k < c.attachments) × (occurs tid (members c) ≢ 0)
unfolding find_attachment_locked
locked_some c tid k v h =
    find_some c.attachments c.attached_tids tid k (omega (arith, v.few, v.storage)) h

-- A thread is appended where there is room.
pub append_tid-members :
    (c : Segment) (tid : ℕ)
    → IsSegment c
    → c.attachments < max_attachments
    → members (append_tid c tid) ≡ members c ++ (tid ∷ [])
unfolding append_tid
append_tid-members c tid v room =
    let more : inc16 c.attachments ≡ suc c.attachments = omega (arith, room) in
    rw more (take_append c.attachments tid c.attached_tids (omega (arith, v.storage, room)))

pub append_tid-IsSegment :
    (c : Segment) (tid : ℕ)
    → IsSegment c
    → c.attachments < max_attachments
    → occurs tid (members c) ≡ 0
    → IsSegment (append_tid c tid)
append_tid-IsSegment c tid v room out = record {
  storage = unfold append_tid in length-set c.attached_tids c.attachments tid ∙ v.storage;
  few = unfold append_tid in omega (arith, room);
  once = λ i. elim (ℕ_discrete tid i) [
    | yes e ↦ ground (arith, counted i, ap (λ j. occurs j (members c)) e, out)
    | no ne ↦ ground (arith, counted i, v.once i)
  ];
}
  where
    counted :
        (i : ℕ) → occurs i (members (append_tid c tid)) ≡ occurs i (members c) + one_if (tid == i)
    counted i =
        ap (occurs i) (append_tid-members c tid v room)
        ∙ occurs_append i (members c) (tid ∷ [])
        ∙ omega arith

-- The segment without the thread in one of its places.
abbrev without : Segment → ℕ → Segment
without c k = record c {
  attachments = c.attachments - 1;
  attached_tids =
      set (shift_from (c.attachments - (k + 1)) k c.attached_tids) (c.attachments - 1) 0;
}

remove_at-without :
    (c : Segment) (k : ℕ)
    → k < c.attachments
    → c.attachments ≤ max_attachments
    → remove_at c k ≡ without c k
unfolding remove_at
remove_at-without c k l few =
    let some_attached : (c.attachments == 0) ≡ false = ground arith in
    let fewer : dec16 c.attachments ≡ c.attachments - 1 = omega (arith, l, few) in
    rw (some_attached, fewer) refl

without-members :
    (c : Segment) (tid k : ℕ)
    → IsSegment c
    → find_attachment_locked c tid ≡ some k
    → members (without c k) ≡ remove_member tid (members c)
unfolding find_attachment_locked
without-members c tid k v h =
    take-set (c.attachments - 1) (c.attachments - 1) 0
      (shift_from (c.attachments - (k + 1)) k c.attached_tids) (omega arith)
    ∙ shift_found c.attachments k c.attached_tids tid (omega (arith, v.few, v.storage)) h

occurs-remove_member-le :
    (i j : ℕ) (xs : List ℕ) → occurs j xs ≢ 0 → occurs i (remove_member j xs) ≤ occurs i xs
occurs-remove_member-le i j xs o = omega (arith, occurs-remove_member i j xs o)

-- A thread is taken out where it was found.
pub remove_at-members :
    (c : Segment) (tid k : ℕ)
    → IsSegment c
    → find_attachment_locked c tid ≡ some k
    → members (remove_at c k) ≡ remove_member tid (members c)
remove_at-members c tid k v h =
    ap members (remove_at-without c k (locked_some c tid k v h).0 v.few)
    ∙ without-members c tid k v h

pub remove_at-IsSegment :
    (c : Segment) (tid k : ℕ)
    → IsSegment c
    → find_attachment_locked c tid ≡ some k
    → IsSegment (remove_at c k)
remove_at-IsSegment c tid k v h =
    let (l, there) = locked_some c tid k v h in
    subst IsSegment (sym (remove_at-without c k l v.few)) (record {
      storage =
          length-set (shift_from (c.attachments - (k + 1)) k c.attached_tids) (c.attachments - 1) 0
          ∙ length-shift_from (c.attachments - (k + 1)) k c.attached_tids
          ∙ v.storage;
      few = omega (arith, v.few);
      once = λ i. omega (
        arith,
        ap (occurs i) (without-members c tid k v h),
        occurs-remove_member-le i tid (members c) there,
        v.once i,
      );
    })

-- A list without its last member, which it has nowhere else.
pub remove_member-append :
    (tid : ℕ) (xs : List ℕ) → occurs tid xs ≡ 0 → remove_member tid (xs ++ (tid ∷ [])) ≡ xs
remove_member-append tid [] out = rw (==_refl tid) refl
remove_member-append tid (x ∷ xs) out =
    let differs : (x == tid) ≡ false = ground arith in
    rw differs (ap (λ l. x ∷ l) (remove_member-append tid xs (ground arith)))
