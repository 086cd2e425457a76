-- ===== src/Diagnostics/CrashDump/Hex.antt =====
-- The hex dump of a word reads back as that word.
use stm32f407vgt.Base.{
  ℕ, zero, suc, ◌+◌, ◌-◌, ◌*◌, ◌/◌, ◌%◌, ◌^◌, ◌<◌, ◌≡◌, refl, ap, ◌∙◌, List, [], ◌∷◌, ltb, arith,
  if◌then◌else◌,
}
use stm32f407vgt.Base.Bits.{bit_and_15}
use stm32f407vgt.Diagnostics.CrashDump.{and32, hex_digit, hex_digits, hex_line}

abbrev pub digit_value : ℕ → ℕ
digit_value c = if ltb c 58 then c - 48 else c - 55

-- Reads `n` hex digits behind the digits of `acc`; the rest of the text comes back too.
abbrev pub read_hex : ℕ → ℕ → List ℕ → ℕ × List ℕ
read_hex zero acc cs = (acc, cs)
read_hex (suc n) acc [] = (acc, [])
read_hex (suc n) acc (c ∷ cs) = read_hex n (16 * acc + digit_value c) cs

digit_value-hex_digit : (v : ℕ) → digit_value (hex_digit (and32 v 15)) ≡ v % 16
digit_value-hex_digit v = rw (bit_and_15 28 v) (ground arith)

scale : (acc p q : ℕ) → 16 * (acc * p + q) ≡ acc * (16 * p) + 16 * q
scale acc p q = grind arith

read_hex-hex_digits :
    (n m acc v : ℕ) (buf : List ℕ)
    → v < 16 ^ n
    → read_hex (n + m) acc (hex_digits n v buf) ≡ read_hex m (acc * 16 ^ n + v) buf
unfolding hex_digits
read_hex-hex_digits zero m acc v buf small =
    let start : 0 + m ≡ m = omega arith in
    let same : acc * 16 ^ 0 + v ≡ acc = omega arith in rw (start, same) refl
read_hex-hex_digits (suc n) m acc v buf small =
    let more : suc n + m ≡ n + suc m = omega arith in
    let pow : 16 ^ suc n ≡ 16 * 16 ^ n = omega arith in
    let value : 16 * (acc * 16 ^ n + v / 16) + v % 16 ≡ acc * 16 ^ suc n + v =
      rw pow (omega (arith, scale acc (16 ^ n) (v / 16))) in
    rw more (
      read_hex-hex_digits n (suc m) acc (v / 16) (hex_digit (and32 v 15) ∷ buf)
        (omega (arith, pow, small))
      ∙ ap (λ d. read_hex m (16 * (acc * 16 ^ n + v / 16) + d) buf) (digit_value-hex_digit v)
      ∙ ap (λ d. read_hex m d buf) value)

-- The eight digits that `crashDumpPrintHex` prints for a 32-bit word read back, as a hex number, as
-- that word, and are followed by the end of the line.
pub read_hex-hex_line :
    (value : ℕ) → value < 2 ^ 32 → read_hex 8 0 (hex_line value) ≡ (value, 13 ∷ 10 ∷ [])
unfolding hex_line
read_hex-hex_line value small =
    read_hex-hex_digits 8 0 0 value (13 ∷ 10 ∷ []) small ∙ ap (λ v. (v, 13 ∷ 10 ∷ [])) (omega arith)
