-- ===== src/Osal/EventFlags.antt =====
-- targets/threadx/osal/src/cfuture_sync_ops.c and targets/zephyr/osal/src/cfuture_sync_ops.c: the events
-- of the promise library, each of which owns one bit of a group of 32 flags that the kernel keeps.
pub mod Masks
pub mod Threadx
pub mod Zephyr
pub mod Independent
pub mod Resets
mod Tests
use stm32f407vgt.Base.{
  ℕ, zero, suc, ◌-◌, ◌/◌, ◌%◌, ◌^◌, Bool, true, false, Option, none, some, leb, ◌==◌, u32_max,
  if◌then◌else◌,
}

-- Whether a word has the bit `j`.
unfoldable pub bit : ℕ → ℕ → Bool
bit m zero = m % 2 == 1
bit m (suc j) = bit (m / 2) j

-- `s_next_bit` is the argument, and comes back; the handle is the mask `1UL << s_next_bit`.
unfoldable pub event_create : ℕ → Option ℕ × ℕ
event_create next_bit =
    if leb 32 next_bit then (none, next_bit) else (some (2 ^ next_bit), suc next_bit)

-- `~mask` in 32 bits.
abbrev pub complement : ℕ → ℕ
complement mask = 2 ^ 32 - 1 - mask
