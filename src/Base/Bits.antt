-- ===== src/Base/Bits.antt =====
-- Bitwise `|` and `&` of C on words of `n` bits, as native numbers.
use Prim.Native.Nat.{ℕ, zero, suc, ◌+◌, ◌*◌, ◌/◌, ◌%◌, ◌^◌, ◌≤◌, ◌<◌, min, max}
use mathlib.Core.Path.{◌≡◌, ◌∙◌}
use native.Mathlib.Omega.{arith}

pub bit_or : ℕ → ℕ → ℕ → ℕ
bit_or zero a b = 0
bit_or (suc n) a b = max (a % 2) (b % 2) + 2 * bit_or n (a / 2) (b / 2)

unfoldable pub bit_and : ℕ → ℕ → ℕ → ℕ
bit_and zero a b = 0
bit_and (suc n) a b = min (a % 2) (b % 2) + 2 * bit_and n (a / 2) (b / 2)

bit_or_zero : (n a : ℕ) → a < 2 ^ n → bit_or n a 0 ≡ a
unfolding bit_or
bit_or_zero zero a h = omega arith
bit_or_zero (suc n) a h = omega (arith, bit_or_zero n (a / 2) (omega arith))

swap : (a p : ℕ) → a * (2 * p) ≡ 2 * (a * p)
swap a p = grind arith

-- A field that starts at bit `k`, joined with what lies below the bit.
pub bit_or-disjoint :
    (n k a b : ℕ) → b < 2 ^ k → k ≤ n → a * 2 ^ k < 2 ^ n → bit_or n (a * 2 ^ k) b ≡ a * 2 ^ k + b
unfolding bit_or
bit_or-disjoint zero zero a b hb hk ha = omega arith
bit_or-disjoint zero (suc k) a b hb hk ha = absurd (omega arith)
bit_or-disjoint (suc n) zero a b hb hk ha =
    rw (b_zero) (bit_or_zero (suc n) (a * 2 ^ 0) ha ∙ omega arith)
  where
    b_zero : b ≡ 0
    b_zero = omega arith
bit_or-disjoint (suc n) (suc k) a b hb hk ha =
    let pow : 2 ^ suc k ≡ 2 * 2 ^ k = omega arith in
    let double : a * 2 ^ suc k ≡ 2 * (a * 2 ^ k) = rw pow (swap a (2 ^ k)) in
    let half : (a * 2 ^ suc k) / 2 ≡ a * 2 ^ k = omega (arith, double) in
    rw half (
      omega (
        arith,
        double,
        bit_or-disjoint n k a (b / 2) (omega arith) (omega arith) (omega (arith, double)),
      ))

bit_and_zero : (n a : ℕ) → bit_and n a 0 ≡ 0
unfolding bit_and
bit_and_zero zero a = omega arith
bit_and_zero (suc n) a = omega (arith, bit_and_zero n (a / 2))

pub bit_and_3 : (n a : ℕ) → bit_and (suc (suc n)) a 3 ≡ a % 4
unfolding bit_and
bit_and_3 n a = omega (arith, bit_and_zero n (a / 2 / 2))

pub bit_and_15 : (n a : ℕ) → bit_and (suc (suc (suc (suc n)))) a 15 ≡ a % 16
unfolding bit_and
bit_and_15 n a = omega (arith, bit_and_zero n (a / 2 / 2 / 2 / 2))

-- A test of some bits of a mask never finds more than a test of the mask.
pub bit_and-within : (n a b m : ℕ) → bit_and n b m ≡ b → bit_and n a b ≤ bit_and n a m
unfolding bit_and
bit_and-within zero a b m e = omega arith
bit_and-within (suc n) a b m e =
    omega (arith, bit_and-within n (a / 2) (b / 2) (m / 2) (omega (arith, e)), e)
