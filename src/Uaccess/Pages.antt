-- ===== src/Uaccess/Pages.antt =====
-- kernel/mm/uaccess.c: which pages the loop of `uaccess_validate_range` goes through.
use gnu_os.Base.{
  ℕ, zero, suc, ◌+◌, ◌-◌, ◌*◌, ◌/◌, ◌%◌, ◌^◌, ◌≤◌, ◌<◌, ◌≡◌, ◌↔◌, refl, sym, ap, ◌∙◌, subst, inl,
  inr, Bool, true, false, Bool-cases, Option, ◌==◌, ==_refl, arith, u64,
}
use gnu_os.Pmm.{page_bytes}
use gnu_os.Pmm.Masks.{bit_and-page_mask}
use gnu_os.Uaccess.{user_max_va, page_allowed, pages_allowed_from, validate_pages}

-- The page of an address.
abbrev pub page_of : ℕ → ℕ
page_of a = a - a % page_bytes

module _ (query_mapping : ℕ → Option ℕ) (require_write : Bool) where
  abbrev pub allowed : ℕ → Bool
  allowed p = page_allowed query_mapping require_write p

  abbrev through : ℕ → (page_addr last_page : ℕ) → Bool
  through n page_addr last_page =
      pages_allowed_from query_mapping n require_write page_addr last_page

  stops : (n p : ℕ) → through (suc n) p p ≡ allowed p
  unfolding pages_allowed_from
  stops n p = elim (Bool-cases (allowed p)) [
    | inl ok ↦ rw (pages_allowed_from, ok, ==_refl p) refl
    | inr bad ↦ rw (pages_allowed_from, bad) refl
  ]

  refused : (n p last : ℕ) → allowed p ≡ false → through (suc n) p last ≡ false
  unfolding pages_allowed_from
  refused n p last bad = rw (pages_allowed_from, bad) refl

  goes_on :
      (n p last : ℕ)
      → allowed p ≡ true
      → p < last
      → p + page_bytes < 2 ^ 64
      → through (suc n) p last ≡ through n (p + page_bytes) last
  unfolding pages_allowed_from
  goes_on n p last ok before small =
      let more : (p == last) ≡ false = ground arith in
      let next : u64 (p + page_bytes) ≡ p + page_bytes = omega arith in
      rw (pages_allowed_from, ok, more, next) refl

  -- The pages from `first` on are all allowed.
  abbrev AllAllowed : (n first : ℕ) → Type 0
  AllAllowed n first = (k : ℕ) → k ≤ n → allowed (first + k * page_bytes) ≡ true

  next_page : (first n : ℕ) → first + page_bytes + n * page_bytes ≡ first + suc n * page_bytes
  next_page first n = omega arith

  same : (p : ℕ) → p + 0 * page_bytes ≡ p
  same p = omega arith

  from_first :
      (first n k : ℕ)
      → k ≤ suc n
      → allowed first ≡ true
      → AllAllowed n (first + page_bytes)
      → allowed (first + k * page_bytes) ≡ true
  from_first first n zero l ok rest = ap allowed (same first) ∙ ok
  from_first first n (suc k) l ok rest =
      subst (λ p. allowed p ≡ true) (next_page first k) (rest k (omega arith))

  through-AllAllowed :
      (n first : ℕ)
      → first + n * page_bytes < 2 ^ 63
      → through (suc n) first (first + n * page_bytes) ≡ true
      → AllAllowed n first
  through-AllAllowed zero first small h zero l =
      ap allowed (same first) ∙ sym (stops 0 first) ∙ ap (through 1 first) (sym (same first)) ∙ h
  through-AllAllowed zero first small h (suc k) l = absurd (omega (arith, l))
  through-AllAllowed (suc n) first small h k l = elim (Bool-cases (allowed first)) [
    | inr bad ↦ absurd (ground (arith, h, refused (suc n) first (first + suc n * page_bytes) bad))
    | inl ok ↦ from_first first n k l ok (
        through-AllAllowed n (first + page_bytes) (omega arith) (
          subst (λ last. through (suc n) (first + page_bytes) last ≡ true) (sym (next_page first n))
            (sym (goes_on (suc n) first (first + suc n * page_bytes) ok (omega arith) (omega arith))
              ∙ h)))
  ]

  AllAllowed-through :
      (n first : ℕ)
      → first + n * page_bytes < 2 ^ 63
      → AllAllowed n first
      → through (suc n) first (first + n * page_bytes) ≡ true
  AllAllowed-through zero first small h =
      ap (through 1 first) (same first)
      ∙ stops 0 first
      ∙ ap allowed (sym (same first))
      ∙ h 0 (omega arith)
  AllAllowed-through (suc n) first small h =
      goes_on (suc n) first (first + suc n * page_bytes)
        (ap allowed (sym (same first)) ∙ h 0 (omega arith)) (omega arith) (omega arith)
      ∙ subst (λ last. through (suc n) (first + page_bytes) last ≡ true) (next_page first n)
          (AllAllowed-through n (first + page_bytes) (omega arith) (λ k l.
            subst (λ p. allowed p ≡ true) (sym (next_page first k)) (h (suc k) (omega arith))))

  pages_of_range :
      (a z : ℕ)
      → a ≤ z
      → z ≤ user_max_va
      → validate_pages query_mapping require_write a z
        ≡ through
            (suc ((page_of z - page_of a) / page_bytes))
            (page_of a)
            (page_of a + (page_of z - page_of a) / page_bytes * page_bytes)
  unfolding validate_pages
  pages_of_range a z le top =
      let last : page_of z ≡ page_of a + (page_of z - page_of a) / page_bytes * page_bytes =
        omega arith in
      rw (bit_and-page_mask a (omega arith), bit_and-page_mask z (omega arith))
        (ap (through (suc ((page_of z - page_of a) / page_bytes)) (page_of a)) last)

  page_in :
      (a z : ℕ)
      → a ≤ z
      → ((x : ℕ) → a ≤ x → x ≤ z → allowed (page_of x) ≡ true)
      → AllAllowed ((page_of z - page_of a) / page_bytes) (page_of a)
  page_in a z le each zero l = ap allowed (same (page_of a)) ∙ each a (omega arith) le
  page_in a z le each (suc k) l =
      let x = page_of a + suc k * page_bytes in
      let at : page_of x ≡ x = omega arith in
      ap allowed (sym at) ∙ each x (omega arith) (omega arith)

  pub validate_pages_iff :
      (a z : ℕ)
      → a ≤ z
      → z ≤ user_max_va
      → (validate_pages query_mapping require_write a z ≡ true)
        ↔ ((x : ℕ) → a ≤ x → x ≤ z → allowed (page_of x) ≡ true)
  validate_pages_iff a z le top =
      let n = (page_of z - page_of a) / page_bytes in
      (
        λ h x low high.
            let k = (page_of x - page_of a) / page_bytes in
            let at : page_of a + k * page_bytes ≡ page_of x = omega arith in
            ap allowed (sym at)
            ∙ through-AllAllowed n (page_of a) (omega arith) (sym (pages_of_range a z le top) ∙ h) k
                (omega arith),
        λ each.
            pages_of_range a z le top
            ∙ AllAllowed-through n (page_of a) (omega arith) (page_in a z le each),
      )
