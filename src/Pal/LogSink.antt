-- ===== src/Pal/LogSink.antt =====
-- targets/freertos/pal/src/log_sink_impl.c and its copies in targets/threadx/pal/src and
-- targets/zephyr/pal/src: lines on the UART. What a task does between two calls of the kernel or two bytes
-- is a step, and the steps of all tasks interleave. `s_mutex` has been created.
pub mod Lines
mod Tests
use stm32f407vgt.Base.{ℕ, ◌≡◌, Bool, true, false, List, [], ◌∷◌, ◌++◌}

-- `log_sink_init`: whether there is a mutex, of whether there was one and what the kernel answers to its
-- creation, which is always true on Zephyr.
pub log_sink_init : Bool → Bool → Bool
log_sink_init true created = true
log_sink_init false created = created

-- A call of `log_sink_write` that has the mutex: the bytes that it has sent, and the others.
pub record Writer : Type 0 where
  pub sent : List ℕ
  pub rest : List ℕ

-- The mutex, the calls that are behind it, what has come out of the UART, and what each call that has
-- returned had sent.
pub record Port : Type 0 where
  pub locked : Bool
  pub writers : List Writer
  pub wire : List ℕ
  pub returned : List (List ℕ)

-- A call may unlock with bytes left, when HAL_UART_Transmit has timed out.
pub data Step : Port → Port → Type 0 where
  locks :
      {ws : List Writer} {wire : List ℕ} {returned : List (List ℕ)} (line : List ℕ)
      → Step
          (record { locked = false; writers = ws; wire = wire; returned = returned })
          (record {
            locked = true;
            writers = record { sent = []; rest = line } ∷ ws;
            wire = wire;
            returned = returned;
          })
  transmits :
      {locked : Bool} {wire : List ℕ} {returned : List (List ℕ)} (before after : List Writer)
      (sent rest : List ℕ) (byte : ℕ)
      → Step
          (record {
            locked = locked;
            writers = before ++ (record { sent = sent; rest = byte ∷ rest } ∷ after);
            wire = wire;
            returned = returned;
          })
          (record {
            locked = locked;
            writers = before ++ (record { sent = sent ++ (byte ∷ []); rest = rest } ∷ after);
            wire = wire ++ (byte ∷ []);
            returned = returned;
          })
  unlocks :
      {locked : Bool} {wire : List ℕ} {returned : List (List ℕ)} (before after : List Writer)
      (sent rest : List ℕ)
      → Step
          (record {
            locked = locked;
            writers = before ++ (record { sent = sent; rest = rest } ∷ after);
            wire = wire;
            returned = returned;
          })
          (record {
            locked = false;
            writers = before ++ after;
            wire = wire;
            returned = returned ++ (sent ∷ []);
          })

pub data Run : Port → Port → Type 0 where
  stop : {p : Port} → Run p p
  go : {p q r : Port} → Step p q → Run q r → Run p r
