-- ===== src/Osal/EventFlags/Masks.antt =====
-- The bits of the masks of the events.
use native.Mathlib.Nat.{pow-succ'}
use stm32f407vgt.Base.{
  ℕ, zero, suc, ◌-◌, ◌/◌, ◌%◌, ◌^◌, ◌<◌, ◌≡◌, refl, ◌∙◌, false, not, ◌==◌, arith,
}
use stm32f407vgt.Osal.EventFlags.{bit, complement}

zero_bits : (j : ℕ) → bit 0 j ≡ false
unfolding bit
zero_bits zero = refl
zero_bits (suc j) = zero_bits j

half : (i : ℕ) → 2 ^ suc i / 2 ≡ 2 ^ i
half i = omega (arith, pow-succ' 2 i)

-- The mask of the event `i` has the bit `i` and no other.
pub bit_pow : (i j : ℕ) → bit (2 ^ i) j ≡ (i == j)
unfolding bit
bit_pow zero zero = refl
bit_pow zero (suc j) = zero_bits j ∙ ground arith
bit_pow (suc i) zero =
    let even : 2 ^ suc i % 2 ≡ 0 = omega (arith, pow-succ' 2 i) in rw even (ground arith)
bit_pow (suc i) (suc j) = rw (half i, bit_pow i j) (ground arith)

bit_below : (w j m : ℕ) → j < w → m < 2 ^ w → bit (2 ^ w - 1 - m) j ≡ not (bit m j)
unfolding bit
bit_below zero j m h g = absurd (omega arith)
bit_below (suc w) zero m h g =
    let p = pow-succ' 2 w in
    let odd : (2 ^ suc w - 1 - m) % 2 ≡ 1 - m % 2 = omega (arith, p) in rw odd (ground arith)
bit_below (suc w) (suc j) m h g =
    let p = pow-succ' 2 w in
    let e : (2 ^ suc w - 1 - m) / 2 ≡ 2 ^ w - 1 - m / 2 = omega (arith, p) in
    rw e (bit_below w j (m / 2) (omega arith) (omega (arith, p)))

pub bit-complement : (j m : ℕ) → j < 32 → m < 2 ^ 32 → bit (complement m) j ≡ not (bit m j)
bit-complement j m h g = bit_below 32 j m h g
