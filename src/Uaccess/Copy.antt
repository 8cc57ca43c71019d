-- ===== src/Uaccess/Copy.antt =====
-- kernel/mm/uaccess.c: what the copies between user memory and the kernel change.
use gnu_os.Base.{
  ℕ, zero, suc, ◌+◌, ◌^◌, ◌≤◌, ◌<◌, ◌≡◌, refl, sym, ap, ◌∙◌, ◌⊎◌, inl, inr, Bool, true, false,
  Bool-cases, Option, ◌==◌, ==_refl, arith, ℤ, pos, neg,
}
use gnu_os.Pmm.{update}
use gnu_os.Uaccess.{
  validate_range, validate_read, validate_write, copy_from, copy_from_user, copy_to_user,
}
use gnu_os.Uaccess.Range.{UserRange, validate_range_iff}

update_ne : (memory : ℕ → ℕ) (i v a : ℕ) → (a < i) ⊎ (i < a) → update memory i v a ≡ memory a
update_ne memory i v a apart =
    let other : (a == i) ≡ false = ground (arith, apart) in rw (other) refl

-- The copy writes nothing else.
copy_from_frame :
    (n index : ℕ) (memory : ℕ → ℕ) (dst src a : ℕ)
    → (a < dst + index) ⊎ (dst + index + n ≤ a)
    → copy_from n index memory dst src a ≡ memory a
unfolding copy_from
copy_from_frame zero index memory dst src a apart = refl
copy_from_frame (suc n) index memory dst src a apart =
    copy_from_frame n (index + 1) (update memory (dst + index) (memory (src + index))) dst src a
      (ground (arith, apart))
    ∙ update_ne memory (dst + index) (memory (src + index)) a (ground (arith, apart))

-- Bytes below `dst` that are read are those that were there, also where the ranges overlap upwards.
copy_from_lem :
    (n index : ℕ) (memory : ℕ → ℕ) (dst src i : ℕ)
    → (dst ≤ src) ⊎ (src + (index + n) ≤ dst)
    → index ≤ i
    → i < index + n
    → copy_from n index memory dst src (dst + i) ≡ memory (src + i)
unfolding copy_from
copy_from_lem zero index memory dst src i safe low high = absurd (omega (arith, low, high))
copy_from_lem (suc n) index memory dst src i safe low high = elim (Bool-cases (i == index)) [
  | inl here ↦
      let at : i ≡ index = ground (arith, here) in
      copy_from_frame n (index + 1) m' dst src (dst + i) (inl (omega (arith, at)))
      ∙ ap (λ k. m' (dst + k)) at
      ∙ rw (==_refl (dst + index)) refl
      ∙ ap (λ k. memory (src + k)) (sym at)
  | inr later ↦
      copy_from_lem n (index + 1) m' dst src i (ground (arith, safe)) (ground (arith, later, low))
        (omega (arith, high))
      ∙ update_ne memory (dst + index) (memory (src + index)) (src + i)
          (ground (arith, safe, later, low, high))
]
  where
    m' : ℕ → ℕ
    m' = update memory (dst + index) (memory (src + index))

-- The memory after `size` bytes at `src` were written to `dst`.
abbrev pub Copied : (memory memory' : ℕ → ℕ) → (dst src size : ℕ) → Type 0
Copied memory memory' dst src size =
    ((a : ℕ) → (a < dst) ⊎ (dst + size ≤ a) → memory' a ≡ memory a)
    × ((dst ≤ src) ⊎ (src + size ≤ dst) → (i : ℕ) → i < size → memory' (dst + i) ≡ memory (src + i))

copy_from-Copied :
    (memory : ℕ → ℕ) (dst src size : ℕ)
    → Copied memory (copy_from size 0 memory dst src) dst src size
copy_from-Copied memory dst src size = (
  λ a apart. copy_from_frame size 0 memory dst src a (ground (arith, apart)),
  λ safe i l.
      copy_from_lem size 0 memory dst src i (ground (arith, safe)) (omega arith) (omega (arith, l)),
)

abbrev pub CopyAnswers :
    (ℕ → Option ℕ)
    → (require_write : Bool) → (memory : ℕ → ℕ) → (kernel user dst src size : ℕ) → ℤ × (ℕ → ℕ)
    → Type 0
CopyAnswers query_mapping require_write memory kernel user dst src size out =
    ((out ≡ (neg 1, memory))
      × ((kernel ≡ 0) ⊎ (validate_range query_mapping user size require_write ≡ false)))
    ⊎ ((out.0 ≡ pos 0)
        × ((size ≡ 0) ⊎ UserRange query_mapping require_write user size)
        × Copied memory out.1 dst src size)

-- Copying `size` bytes to the user's memory: either nothing is written and the answer is -1, because the
-- source is NULL or the test of the range for writing failed; or the answer is 0, each byte written is at a
-- user address in a page that is mapped for the user and writable, no other byte changed, and the bytes are
-- those of the source, unless the source starts below the target and runs into it. Addresses and size are
-- 64-bit words.
pub copy_to_user_outcome :
    (query_mapping : ℕ → Option ℕ) (memory : ℕ → ℕ) (user_dst src size : ℕ)
    → user_dst < 2 ^ 64
    → size < 2 ^ 64
    → CopyAnswers query_mapping true memory src user_dst user_dst src size
        (copy_to_user query_mapping memory user_dst src size)
unfolding copy_to_user validate_write
copy_to_user_outcome query_mapping memory user_dst src size h w = elim (Bool-cases (src == 0)) [
  | inl null ↦ inl (rw (copy_to_user, null) refl, inl (ground (arith, null)))
  | inr given ↦ elim (Bool-cases (validate_range query_mapping user_dst size true)) [
    | inr bad ↦ inl (rw (copy_to_user, validate_write, given, bad) refl, inr bad)
    | inl good ↦
        rw (copy_to_user, validate_write, given, good)
          (inr (
            refl,
            (validate_range_iff query_mapping true user_dst size h w).0 good,
            copy_from-Copied memory user_dst src size,
          ))
  ]
]

pub copy_from_user_outcome :
    (query_mapping : ℕ → Option ℕ) (memory : ℕ → ℕ) (dst user_src size : ℕ)
    → user_src < 2 ^ 64
    → size < 2 ^ 64
    → CopyAnswers query_mapping false memory dst user_src dst user_src size
        (copy_from_user query_mapping memory dst user_src size)
unfolding copy_from_user validate_read
copy_from_user_outcome query_mapping memory dst user_src size h w = elim (Bool-cases (dst == 0)) [
  | inl null ↦ inl (rw (copy_from_user, null) refl, inl (ground (arith, null)))
  | inr given ↦ elim (Bool-cases (validate_range query_mapping user_src size false)) [
    | inr bad ↦ inl (rw (copy_from_user, validate_read, given, bad) refl, inr bad)
    | inl good ↦
        rw (copy_from_user, validate_read, given, good)
          (inr (
            refl,
            (validate_range_iff query_mapping false user_src size h w).0 good,
            copy_from-Copied memory dst user_src size,
          ))
  ]
]
