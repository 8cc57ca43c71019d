-- ===== src/Ipc/Queue/Bytes.antt =====
-- The byte-copying loop of the message operations.
use gnu_os.Base.{
  ℕ, zero, suc, ◌+◌, ◌≤◌, ◌<◌, ◌≡◌, refl, ap₂, ◌∙◌, List, [], ◌∷◌, arith, length, get_or, set, take,
  length-set, get_or-set, if◌then◌else◌, leb, ltb, ◌&&◌,
}
use gnu_os.Ipc.Queue.{copy_bytes}

pub length-copy_bytes : (n i : ℕ) (src dst : List ℕ) → length (copy_bytes n i src dst) ≡ length dst
unfolding copy_bytes
length-copy_bytes zero i src dst = refl
length-copy_bytes (suc n) i src dst =
    length-copy_bytes n (i + 1) src (set dst i (get_or src i 0)) ∙ length-set dst i (get_or src i 0)

copy_bytes_reads :
    (n i : ℕ) (src dst : List ℕ) (j : ℕ)
    → i + n ≤ length dst
    → get_or (copy_bytes n i src dst) j 0
      ≡ (if leb i j && ltb j (i + n) then get_or src j 0 else get_or dst j 0)
unfolding copy_bytes
copy_bytes_reads zero i src dst j room = ground arith
copy_bytes_reads (suc n) i src dst j room = ground (
  arith,
  copy_bytes_reads n (i + 1) src (set dst i (get_or src i 0)) j,
  length-set dst i (get_or src i 0),
  get_or-set dst i j (get_or src i 0) 0,
)

take_ext :
    (n : ℕ) (xs ys : List ℕ)
    → n ≤ length xs
    → n ≤ length ys
    → ((j : ℕ) → j < n → get_or xs j 0 ≡ get_or ys j 0)
    → take n xs ≡ take n ys
take_ext zero xs ys h k e = refl
take_ext (suc n) [] ys h k e = absurd (omega arith)
take_ext (suc n) (x ∷ xs) [] h k e = absurd (omega arith)
take_ext (suc n) (x ∷ xs) (y ∷ ys) h k e =
    ap₂ ◌∷◌ (e 0 (omega arith))
      (take_ext n xs ys (omega arith) (omega arith) (λ j l. e (suc j) (omega arith)))

-- Copying `n` bytes carries the first `n` bytes over.
pub take-copy_bytes :
    (n : ℕ) (src dst : List ℕ)
    → n ≤ length src
    → n ≤ length dst
    → take n (copy_bytes n 0 src dst) ≡ take n src
take-copy_bytes n src dst h k =
    take_ext n (copy_bytes n 0 src dst) src (omega (arith, length-copy_bytes n 0 src dst)) h
      (λ j l. ground (arith, copy_bytes_reads n 0 src dst j))
