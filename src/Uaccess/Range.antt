-- ===== src/Uaccess/Range.antt =====
-- kernel/mm/uaccess.c: which ranges the test of user memory lets through.
use gnu_os.Base.{
  ℕ, zero, suc, ◌+◌, ◌-◌, ◌^◌, ◌≤◌, ◌<◌, ◌≡◌, ◌↔◌, refl, sym, ◌∙◌, ◌⊎◌, inl, inr, Bool, true, false,
  not, Bool-cases, Option, leb, ltb, ◌&&◌, ◌||◌, ◌==◌, arith, u64,
}
use gnu_os.Uaccess.Flags.{Mapped, allowed-Mapped, Mapped-allowed}
use gnu_os.Uaccess.{user_max_va, validate_pages, validate_range}
use gnu_os.Uaccess.Pages.{page_of, validate_pages_iff}

module _ (query_mapping : ℕ → Option ℕ) (require_write : Bool) where
  -- Each byte from the address on, within the user's half of the address space, is in such a page.
  abbrev pub UserRange : (user_addr size : ℕ) → Type 0
  UserRange user_addr size =
      (1 ≤ user_addr)
      × (user_addr + size ≤ 2 ^ 47)
      × ((a : ℕ)
          → user_addr ≤ a
          → a < user_addr + size
          → Mapped query_mapping require_write (page_of a))

  in_range :
      (user_addr n : ℕ)
      → 1 ≤ user_addr
      → user_addr + n ≤ user_max_va
      → validate_range query_mapping user_addr (suc n) require_write
        ≡ validate_pages query_mapping require_write user_addr (user_addr + n)
  unfolding validate_range
  in_range user_addr n above top =
      let start : (user_addr == 0) ≡ false = ground arith in
      let low : ltb user_max_va user_addr ≡ false = ground arith in
      let end : u64 (user_addr + (suc n - 1)) ≡ user_addr + n = omega arith in
      let bytes : (suc n == 0) ≡ false = ground arith in
      let after : ltb (user_addr + n) user_addr ≡ false = ground arith in
      let high : ltb user_max_va (user_addr + n) ≡ false = ground arith in
      rw (validate_range, bytes, start, low, end, after, high) refl

  ends_outside :
      (user_addr n : ℕ)
      → user_addr < 2 ^ 64
      → suc n < 2 ^ 64
      → user_max_va < user_addr + n
      → user_addr ≤ user_max_va
      → (ltb (u64 (user_addr + (suc n - 1))) user_addr
          || ltb user_max_va (u64 (user_addr + (suc n - 1))))
        ≡ true
  ends_outside user_addr n h w beyond low = elim (Bool-cases (ltb (user_addr + n) (2 ^ 64))) [
    | inl small ↦
        let end : u64 (user_addr + (suc n - 1)) ≡ user_addr + n = ground (arith, small) in
        let high : ltb user_max_va (user_addr + n) ≡ true = ground (arith, beyond) in
        rw (end, high) (ground arith)
    | inr large ↦
        let end : u64 (user_addr + (suc n - 1)) ≡ user_addr + n - 2 ^ 64 = ground (arith, large) in
        let after : ltb (user_addr + n - 2 ^ 64) user_addr ≡ true = ground (arith, large) in
        rw (end, after) refl
  ]

  out_of_range :
      (user_addr n : ℕ)
      → user_addr < 2 ^ 64
      → suc n < 2 ^ 64
      → (user_addr ≡ 0) ⊎ (user_max_va < user_addr + n)
      → validate_range query_mapping user_addr (suc n) require_write ≡ false
  unfolding validate_range
  out_of_range user_addr n h w (inl null) =
      let bytes : (suc n == 0) ≡ false = ground arith in
      let start : (user_addr == 0) ≡ true = ground (arith, null) in
      rw (validate_range, bytes, start) refl
  out_of_range user_addr n h w (inr beyond) =
      elim (Bool-cases (user_addr == 0 || ltb user_max_va user_addr)) [
        | inl bad ↦ rw (validate_range, bytes, bad) refl
        | inr ok ↦
            rw (validate_range, bytes, ok, ends_outside user_addr n h w beyond (ground (arith, ok)))
              refl
      ]
    where
      bytes : (suc n == 0) ≡ false
      bytes = ground arith

  outside_cases :
      (user_addr n : ℕ)
      → (not (user_addr == 0) && leb (user_addr + n) user_max_va) ≡ false
      → (user_addr ≡ 0) ⊎ (user_max_va < user_addr + n)
  outside_cases user_addr n outside = elim (Bool-cases (user_addr == 0)) [
    | inl null ↦ inl (ground (arith, null))
    | inr above ↦ inr (ground (arith, above, outside))
  ]

  -- The test of a range of user memory passes exactly where the range is empty, or starts above 0, ends within
  -- the user's half of the address space, and has each of its bytes in a page that is mapped for the user,
  -- and writable if that is asked for. The start and the size are 64-bit words; the range may be so long
  -- that its end wraps around.
  pub validate_range_iff :
      (user_addr size : ℕ)
      → user_addr < 2 ^ 64
      → size < 2 ^ 64
      → (validate_range query_mapping user_addr size require_write ≡ true)
        ↔ ((size ≡ 0) ⊎ UserRange user_addr size)
  unfolding validate_range
  validate_range_iff user_addr zero h w = (λ _. inl refl, λ _. refl)
  validate_range_iff user_addr (suc n) h w =
      elim (Bool-cases (not (user_addr == 0) && leb (user_addr + n) user_max_va)) [
        | inl inside ↦
            let above : 1 ≤ user_addr = ground (arith, inside) in
            let top : user_addr + n ≤ user_max_va = ground (arith, inside) in
            let (there, back) =
              validate_pages_iff query_mapping require_write user_addr (user_addr + n) (omega arith)
                top in
            let computes = in_range user_addr n above top in
            (
              λ v. inr (
                above,
                omega arith,
                λ a low high.
                    allowed-Mapped query_mapping require_write (page_of a)
                      (there (sym computes ∙ v) a low (omega (arith, high))),
              ),
              λ r. elim r [
                | inl empty ↦ absurd (omega (arith, empty))
                | inr (p, q, each) ↦
                    computes
                    ∙ back (λ a low high.
                      Mapped-allowed query_mapping require_write (page_of a)
                        (each a low (omega (arith, high))))
              ],
            )
        | inr outside ↦
            let fails = out_of_range user_addr n h w (outside_cases user_addr n outside) in
            (
              λ v. absurd (ground (arith, v, fails)),
              λ r. elim r [
                | inl empty ↦ absurd (omega (arith, empty))
                | inr (p, q, each) ↦ absurd (ground (arith, outside, p, q))
              ],
            )
      ]
