-- ===== src/Diagnostics/CrashDump/Uart.antt =====
-- `crashDumpRawUartPuts`: polled output with a bound on every wait. The `n`-th reading of the flags of
-- USART1->SR is `txe n` and `tc n`; `limit` is kUartSpinLimit.
use stm32f407vgt.Base.{
  ℕ, zero, suc, ◌+◌, ◌*◌, ◌≤◌, ◌<◌, ◌≡◌, refl, ap, inl, inr, Bool, true, false, List, [], ◌∷◌, ◌++◌,
  length, arith, if◌then◌else◌, Bool-cases,
}

abbrev pub uart_spin_limit : ℕ
uart_spin_limit = 1000000

-- The loop on a flag, with `left` spins to go at reading `n`. The first component is false if the
-- spins ran out; the second is the index of the next reading.
unfoldable pub wait : (ℕ → Bool) → ℕ → ℕ → Bool × ℕ
wait flag zero n = (false, suc n)
wait flag (suc left) n = elim (flag n) [ true ↦ (true, suc n) | false ↦ wait flag left (suc n) ]

-- The bytes written to USART1->DR, and the index of the next reading.
unfoldable pub puts : (ℕ → Bool) → (ℕ → Bool) → ℕ → List ℕ → ℕ → List ℕ × ℕ
puts txe tc limit [] n = ([], (wait tc limit n).1)
puts txe tc limit (c ∷ cs) n =
    let (up, n1) = wait txe limit n in
    let (sent, n2) = puts txe tc limit cs n1 in if up then (c ∷ sent, n2) else ([], n1)

wait_bound : (flag : ℕ → Bool) (left n : ℕ) → (wait flag left n).1 ≤ n + left + 1
unfolding wait
wait_bound flag zero n = omega arith
wait_bound flag (suc left) n = either (flag n) (wait_bound flag left (suc n))
  where
    either :
        (b : Bool)
        → (wait flag left (suc n)).1 ≤ suc n + left + 1
        → (elim b as (λ x. Bool × ℕ) [ true ↦ (true, suc n) | false ↦ wait flag left (suc n) ]).1
          ≤ n + suc left + 1
    either true h = omega arith
    either false h = omega (arith, h)

-- A transmitter that is ready within the spins from every reading on.
abbrev pub KeepsUp : (ℕ → Bool) → ℕ → Type 0
KeepsUp txe limit = (n : ℕ) → (d : ℕ) × (d < limit) × (txe (n + d) ≡ true)

wait_ready :
    (flag : ℕ → Bool) (left n d : ℕ) → d < left → flag (n + d) ≡ true → (wait flag left n).0 ≡ true
unfolding wait
wait_ready flag zero n d h up = absurd (omega arith)
wait_ready flag (suc left) n zero h up =
    let now : n + 0 ≡ n = omega arith in
    let up' : flag n ≡ true = rw now at up in rw (up', wait) refl
wait_ready flag (suc left) n (suc d) h up =
    let next : n + suc d ≡ suc n + d = omega arith in
    either (flag n) (wait_ready flag left (suc n) d (omega arith) (rw next at up))
  where
    either :
        (b : Bool)
        → (wait flag left (suc n)).0 ≡ true
        → (elim b as (λ x. Bool × ℕ) [ true ↦ (true, suc n) | false ↦ wait flag left (suc n) ]).0
          ≡ true
    either true h = refl
    either false h = h

-- Output ends whatever the UART does: after at most `limit + 1` readings for each character and as
-- many at the end. What it has sent is a beginning of the string.
pub puts_ends :
    (txe tc : ℕ → Bool) (limit : ℕ) (str : List ℕ) (n : ℕ)
    → ((puts txe tc limit str n).1 ≤ n + (length str + 1) * (limit + 1))
      × ((unsent : List ℕ) × (str ≡ (puts txe tc limit str n).0 ++ unsent))
unfolding puts
puts_ends txe tc limit [] n = (omega (arith, wait_bound tc limit n), ([], refl))
puts_ends txe tc limit (c ∷ cs) n =
    let n1 = (wait txe limit n).1 in
    let (bound, rest) = puts_ends txe tc limit cs n1 in
    let first = wait_bound txe limit n in
    elim (Bool-cases (wait txe limit n).0) [
      | inl up ↦ rw up (grind (arith, bound, first), (rest.0, ap (λ xs. c ∷ xs) rest.1))
      | inr wedged ↦ rw wedged (grind (arith, first), (c ∷ cs, refl))
    ]

-- A transmitter that is ready within `limit` readings, from every reading on, gets the whole string.
pub puts_complete :
    (txe tc : ℕ → Bool) (limit : ℕ) (str : List ℕ) (n : ℕ)
    → KeepsUp txe limit
    → (puts txe tc limit str n).0 ≡ str
unfolding puts
puts_complete txe tc limit [] n fast = refl
puts_complete txe tc limit (c ∷ cs) n fast =
    let (d, soon, up) = fast n in
    let on : (wait txe limit n).0 ≡ true = wait_ready txe limit n d soon up in
    rw on (ap (λ xs. c ∷ xs) (puts_complete txe tc limit cs (wait txe limit n).1 fast))
