-- ===== src/Diagnostics/SelfTest.antt =====
-- app/src/diagnostics/cfuture_selftest.c: the self-test of the promise library, as the calls that its
-- tasks make. The library is not part of the repository: the world answers its calls.
pub mod Checks
pub mod Producer
pub mod Leaks
pub mod Verdicts
mod Tests
use Prim.Native.String.{String}
use stm32f407vgt.Base.{
  ℕ, zero, suc, ◌+◌, ◌-◌, ◌^◌, Bool, true, false, not, ◌&&◌, ◌||◌, Option, none, some, List, [],
  ◌∷◌, ltb, leb, ◌==◌, if◌then◌else◌, sub32, add32,
}
use stm32f407vgt.Base.Programs.{Program, done, call, ◌>>=◌, ◌>>◌}

-- A claimed slot, which stands for its promise and its future.
pub record Claim : Type 0 where
  pub slot_id : ℕ
  pub generation : ℕ

pub data Status : Type 0 where
  zero_status minus_one err_timeout err_dropped : Status
  other_status : ℕ → Status

pub data SelfTestProducerMode : Type 0 where
  produce_from_task produce_from_isr : SelfTestProducerMode

pub record SelfTestRequest : Type 0 where
  pub promise : Claim
  pub delay_ms : ℕ
  pub value : ℕ
  pub mode : SelfTestProducerMode

-- `value` is the variable behind the result pointer after the call.
pub record Waited : Type 0 where
  pub completed : Bool
  pub status : Status
  pub value : ℕ

-- The answer of `cfuture_cancel`, and whether it has cleared the pool pointers of the two handles.
pub record Cancelled : Type 0 where
  pub success : Bool
  pub promise_cleared : Bool
  pub future_cleared : Bool

-- What the target gives the test: an interrupt to raise, and the library's raw events.
pub record Target : Type 0 where
  pub raises_irq : Bool
  pub has_events : Bool
  pub destroys_events : Bool

-- `none` of a `wait_for` is a NULL pointer, and otherwise what the variable holds before the call.
-- `cancel_unset` cancels two handles that were never written. `raise_irq` makes `isr_fulfil` run in an interrupt, on the promise and the value. The text of the
-- line that `report` formats is left to the log.
pub data Op : Type 0 where
  time pal_time resolved_at create event_create cancel_unset exit : Op
  set_resolved_at event_destroy sleep receive : ℕ → Op
  event_wait : ℕ → ℕ → Op
  wait_for : Claim → ℕ → Option ℕ → Option Status → Op
  set_value set_value_from_isr : Claim → ℕ → Status → Op
  drop : Claim → Status → Op
  cancel is_active : Claim → Op
  raise_irq : Claim → ℕ → Op
  send : SelfTestRequest → ℕ → Op
  report_line : String → Bool → String → ℕ → ℕ → Op
  log loop_start loop_end should_stop mark_stopped : String → Op

abbrev pub Ans : Op → Type 0
Ans time = ℕ
Ans pal_time = ℕ
Ans resolved_at = ℕ
Ans create = Option Claim
Ans event_create = Option ℕ
Ans (event_wait e timeout) = Bool
Ans (receive timeout) = Option SelfTestRequest
Ans (wait_for c timeout v s) = Waited
Ans (cancel c) = Cancelled
Ans cancel_unset = Cancelled
Ans (is_active c) = Bool
Ans (send r timeout) = Bool
Ans (should_stop name) = Bool
Ans _ = Unit {0}

abbrev pub Test : Type 0 → Type 0
Test A = Program Op Ans A

abbrev pub ask : (op : Op) → Test (Ans op)
ask op = call op done

abbrev pub self_test_pool_capacity : ℕ
self_test_pool_capacity = 2

abbrev pub self_test_pause_ms : ℕ
self_test_pause_ms = 2000

abbrev pub self_test_poison : ℕ
self_test_poison = 0xDEADDEAD

abbrev pub report : String → Bool → String → ℕ → ℕ → Test (Unit {0})
report test passed detail a b = ask (report_line test passed detail a b)

-- In the interrupt.
unfoldable pub isr_fulfil : Claim → ℕ → Test (Unit {0})
isr_fulfil promise value = do
  now ← ask time
  ask (set_resolved_at now)
  ask (set_value_from_isr promise value zero_status)

abbrev pub from_isr : SelfTestProducerMode → Bool
from_isr produce_from_task = false
from_isr produce_from_isr = true

-- What the producer does with a request that it has received.
unfoldable pub produce : Target → SelfTestRequest → Test (Unit {0})
produce target r = do
  ask (sleep r.delay_ms)
  elim (from_isr r.mode && target.raises_irq) [
    | true ↦ ask (raise_irq r.promise r.value)
    | false ↦ do
      now ← ask time
      ask (set_resolved_at now)
      ask (set_value r.promise r.value zero_status)
  ]

abbrev pub producer_name : String
producer_name = "CfstProducer"

abbrev pub waiter_name : String
waiter_name = "CfstWaiter"

-- The loops are cut off by fuel: `false` is the answer of one that ran out of it.
unfoldable pub producer_task_entry : Target → ℕ → Test Bool
producer_task_entry target zero = done false
producer_task_entry target (suc fuel) = do
  ask (loop_start producer_name)
  stop ← ask (should_stop producer_name)
  elim stop [
    | true ↦ do ask (mark_stopped producer_name); ask exit; done true
    | false ↦ do
      received ← ask (receive 500)
      elim received [ none ↦ done tt | some r ↦ produce target r ]
      ask (loop_end producer_name)
      producer_task_entry target fuel
  ]
