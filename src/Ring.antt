-- ===== src/Ring.antt =====
-- The circular buffer that kernel/sched/sched.c, kernel/sched/workqueue.c and kernel/ipc/ipc.c each
-- write out for themselves: an array with `head`, `tail` and a 16-bit `size`.
pub mod Contents
pub mod Refine
use gnu_os.Base.{ℕ, ◌+◌, ◌%◌, ◌^◌, List, Option, none, some, get_or, set, leb, ◌==◌, if◌then◌else◌}
use gnu_os.Base.{inc16, dec16, ◌≤◌, ◌<◌, ◌≡◌, length, u16}

pub record Ring {ℓ} (A : Type ℓ) : Type ℓ where
  pub items : List A
  pub head : ℕ
  pub tail : ℕ
  pub size : ℕ

module _ {ℓ} {A : Type ℓ} (cap : ℕ) where
  -- `if (size >= CAP) return 0; items[tail] = x; tail = (uint16_t)((tail + 1U) % CAP); size++;`
  unfoldable pub enqueue : Ring A → A → Option (Ring A)
  enqueue r x =
      if leb cap r.size
      then none
      else some (record r {
        items = set r.items r.tail x;
        tail = u16 ((r.tail + 1) % cap);
        size = inc16 r.size;
      })

  -- `if (size == 0) return 0; *out = items[head]; head = (uint16_t)((head + 1U) % CAP); size--;`
  unfoldable pub dequeue : A → Ring A → Option (A × Ring A)
  dequeue d r =
      if r.size == 0
      then none
      else some (
        get_or r.items r.head d,
        record r { head = u16 ((r.head + 1) % cap); size = dec16 r.size },
      )

  pub record IsValid (r : Ring A) : Type 0 where
    pub small : cap < 2 ^ 16
    pub storage : length r.items ≡ cap
    pub head_in : r.head < cap
    pub tail_at : r.tail ≡ (r.head + r.size) % cap
    pub size_in : r.size ≤ cap
