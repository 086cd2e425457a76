-- ===== src/Base/Words.antt =====
-- Unsigned machine words as native numbers: the wrap is a `%`.
use Prim.Native.Nat.{ℕ, ◌+◌, ◌-◌, ◌%◌, ◌^◌, ◌<◌}
use mathlib.Core.Path.{◌≡◌}
use native.Mathlib.Omega.{arith}

abbrev pub u32_max : ℕ
u32_max = 2 ^ 32 - 1

-- `uint32_t` arithmetic; `-` on ℕ stops at 0, so the modulus is added first.
abbrev pub add32 : ℕ → ℕ → ℕ
add32 a b = (a + b) % 2 ^ 32

abbrev pub sub32 : ℕ → ℕ → ℕ
sub32 a b = (a + 2 ^ 32 - b) % 2 ^ 32

-- A difference of two readings of a free-running counter that wraps is the time between them.
pub sub32-add32 :
    (start elapsed : ℕ)
    → start < 2 ^ 32
    → elapsed < 2 ^ 32
    → sub32 (add32 start elapsed) start ≡ elapsed
sub32-add32 start elapsed hs he = omega arith

pub sub32-lt : (a b : ℕ) → sub32 a b < 2 ^ 32
sub32-lt a b = omega arith
