-- ===== src/Names/Equal.antt =====
-- Stored names compare as the names that they were copied from.
use gnu_os.Base.{
  ℕ, zero, suc, ◌+◌, ◌≤◌, ◌<◌, ◌≡◌, refl, inl, inr, true, List, arith, ◌==◌, if◌then◌else◌, length,
  get_or, set, replicate, get_or-set_self, get_or-set_ne, get_or-replicate, length-set,
  length-replicate, Bool-cases, leb, ltb, ◌&&◌,
}
use gnu_os.Names.{
  name_max, strnlen_from, strnlen, name_equal_from, name_equal, name_copy_from, name_copy,
}

le-strnlen_from : (n i : ℕ) (src : List ℕ) → i ≤ strnlen_from n i src
unfolding strnlen_from
le-strnlen_from zero i src = omega arith
le-strnlen_from (suc n) i src = ground (arith, le-strnlen_from n (i + 1) src)

strnlen_from-le : (n i : ℕ) (src : List ℕ) → strnlen_from n i src ≤ i + n
unfolding strnlen_from
strnlen_from-le zero i src = omega arith
strnlen_from-le (suc n) i src = ground (arith, strnlen_from-le n (i + 1) src)

-- A search that stops early stands on a terminator.
strnlen_from-stop :
    (n i : ℕ) (src : List ℕ)
    → strnlen_from n i src < i + n
    → get_or src (strnlen_from n i src) 0 ≡ 0
unfolding strnlen_from
strnlen_from-stop zero i src h = absurd (omega arith)
strnlen_from-stop (suc n) i src h = elim (Bool-cases (get_or src i 0 == 0)) [
  | inl stop ↦ rw stop (ground arith)
  | inr more ↦ rw more (strnlen_from-stop n (i + 1) src (ground arith))
]

-- One round more changes nothing for a search that stops early.
strnlen_from-more :
    (n i : ℕ) (src : List ℕ)
    → strnlen_from (suc n) i src < i + suc n
    → strnlen_from n i src ≡ strnlen_from (suc n) i src
unfolding strnlen_from
strnlen_from-more zero i src h = ground arith
strnlen_from-more (suc n) i src h = ground (arith, strnlen_from-more n (i + 1) src)

name_copy_from_reads :
    (n i : ℕ) (src dst : List ℕ) (j : ℕ)
    → i + n ≤ length dst
    → get_or (name_copy_from n i src dst) j 0
      ≡ (if leb i j && ltb j (strnlen_from n i src) then get_or src j 0 else get_or dst j 0)
unfolding name_copy_from strnlen_from
name_copy_from_reads zero i src dst j room = ground arith
name_copy_from_reads (suc n) i src dst j room = ground (
  arith,
  name_copy_from_reads n (i + 1) src (set dst i (get_or src i 0)) j,
  length-set dst i (get_or src i 0),
  get_or-set_self dst i (get_or src i 0) 0,
  get_or-set_ne dst i j (get_or src i 0) 0,
  le-strnlen_from n (i + 1) src,
)

-- The copy of a name that fits has the bytes of the name up to its terminator.
name_copy_reads :
    (src : List ℕ) (j : ℕ)
    → strnlen src name_max < name_max
    → j ≤ strnlen src name_max
    → get_or (name_copy src) j 0 ≡ get_or src j 0
unfolding name_copy strnlen
name_copy_reads src j fits h = ground (
  arith,
  name_copy_from_reads 31 0 src (replicate name_max 0) j,
  length-replicate name_max (ℕ.zero),
  get_or-replicate name_max j (ℕ.zero),
  strnlen_from-more 31 0 src fits,
  strnlen_from-stop 32 0 src fits,
)

name_equal_from_cong :
    (n i s : ℕ) (left right right' : List ℕ)
    → get_or right s 0 ≡ 0
    → ((k : ℕ) → k ≤ s → get_or right' k 0 ≡ get_or right k 0)
    → i ≤ s
    → name_equal_from n i left right' ≡ name_equal_from n i left right
unfolding name_equal_from
name_equal_from_cong zero i s left right right' stop same h = refl
name_equal_from_cong (suc n) i s left right right' stop same h =
    rw (same i h) (elim (Bool-cases (get_or right i 0 == 0)) [
      | inl end ↦ ground arith
      | inr more ↦
          ground (arith, name_equal_from_cong n (i + 1) s left right right' stop same (grind arith))
    ])

name_equal_from_comm :
    (n i : ℕ) (left right : List ℕ)
    → name_equal_from n i left right ≡ name_equal_from n i right left
unfolding name_equal_from
name_equal_from_comm zero i left right = refl
name_equal_from_comm (suc n) i left right =
    ground (arith, name_equal_from_comm n (i + 1) left right)

name_equal_from_self :
    (n i s : ℕ) (name : List ℕ)
    → get_or name s 0 ≡ 0
    → i ≤ s
    → s < i + n
    → name_equal_from n i name name ≡ true
unfolding name_equal_from
name_equal_from_self zero i s name stop h l = absurd (omega arith)
name_equal_from_self (suc n) i s name stop h l = elim (Bool-cases (get_or name i 0 == 0)) [
  | inl end ↦ ground arith
  | inr more ↦
      ground (arith, name_equal_from_self n (i + 1) s name stop (grind arith) (omega arith))
]

pub name_equal_comm : (left right : List ℕ) → name_equal left right ≡ name_equal right left
unfolding name_equal
name_equal_comm left right = name_equal_from_comm name_max 0 left right

-- A name that fits is found equal to exactly what its stored copy is found equal to.
pub name_equal-name_copy :
    (left name : List ℕ)
    → strnlen name name_max < name_max
    → name_equal left (name_copy name) ≡ name_equal left name
unfolding name_equal
name_equal-name_copy left name fits =
    name_equal_from_cong name_max 0 (strnlen name name_max) left name (name_copy name) (stop fits)
      (λ k h. name_copy_reads name k fits h) (omega arith)
  where
    stop : strnlen name name_max < name_max → get_or name (strnlen name name_max) 0 ≡ 0
    stop = unfold strnlen in strnlen_from-stop name_max 0 name

pub name_equal_self :
    (name : List ℕ) → strnlen name name_max < name_max → name_equal name name ≡ true
unfolding name_equal strnlen
name_equal_self name fits =
    name_equal_from_self name_max 0 (strnlen name name_max) name
      (strnlen_from-stop name_max 0 name fits) (omega arith) fits

name_equal_from_subst :
    (n i : ℕ) (a b x : List ℕ)
    → name_equal_from n i a b ≡ true
    → name_equal_from n i x a ≡ name_equal_from n i x b
unfolding name_equal_from
name_equal_from_subst zero i a b x h = refl
name_equal_from_subst (suc n) i a b x h = ground (arith, name_equal_from_subst n (i + 1) a b x)

-- Equal names are equal to the same names.
pub name_equal_subst : (a b x : List ℕ) → name_equal a b ≡ true → name_equal x a ≡ name_equal x b
unfolding name_equal
name_equal_subst a b x h = name_equal_from_subst name_max 0 a b x h
