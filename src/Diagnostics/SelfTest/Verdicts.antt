-- ===== src/Diagnostics/SelfTest/Verdicts.antt =====
-- What the measurements of the self-test say, across the wrap of the 32-bit clock.
use stm32f407vgt.Base.{
  ℕ, ◌+◌, ◌^◌, ◌<◌, ◌≤◌, ◌≡◌, ◌↔◌, Bool, true, false, ◌&&◌, not, leb, add32, sub32, sub32-add32,
  arith,
}
use stm32f407vgt.Diagnostics.SelfTest.{Waited}
use stm32f407vgt.Diagnostics.SelfTest.Checks.{is_timeout, timed_out_well}

well_iff :
    (a b : Bool) (timeout took : ℕ)
    → timeout + 50 < 2 ^ 32
    → (not a && b && leb timeout took && leb took (add32 timeout 50)) ≡ true
      ↔ ((a ≡ false) × (b ≡ true) × (timeout ≤ took) × (took ≤ timeout + 50))
well_iff a b timeout took h = (λ e. ground arith, λ e. ground arith)

-- Of a wait that begins at any reading of the clock and takes less than its period, for a timeout that is
-- 51 ms from the top of the 32-bit range or further: the check of the timeout passes exactly if the wait
-- ended in a timeout, not before the time asked for and at most 50 ms after it.
pub timed_out_well_lem :
    (timeout start took : ℕ) (w : Waited)
    → timeout + 50 < 2 ^ 32
    → start < 2 ^ 32
    → took < 2 ^ 32
    → timed_out_well timeout w (sub32 (add32 start took) start) ≡ true ↔ (
        (w.completed ≡ false)
        × (is_timeout w.status ≡ true)
        × (timeout ≤ took)
        × (took ≤ timeout + 50))
timed_out_well_lem timeout start took w h hs ht =
    rw (sub32-add32 start took hs ht) (well_iff w.completed (is_timeout w.status) timeout took h)
