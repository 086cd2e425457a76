-- ===== src/Storage/Client/Scenarios.antt =====
-- app/src/storage/client_tasks.c: the four scenarios.
use Prim.Native.String.{String}
use stm32f407vgt.Base.{
  ℕ, zero, suc, ◌+◌, Bool, true, false, not, ◌&&◌, Option, none, some, List, ◌∷◌, replicate, ◌==◌,
  if◌then◌else◌,
}
use stm32f407vgt.Base.Programs.{done, ◌>>=◌, ◌>>◌}
use stm32f407vgt.Storage.Protocol.{storage_block_size}
use stm32f407vgt.Storage.Service.{storage_demo_slow_block_id, storage_demo_slow_delay_ms}
use stm32f407vgt.Storage.Client.Helpers.{
  write_block_sync, read_block_byte_sync, occupy_servicer, drain_occupy_future,
}
use stm32f407vgt.Storage.Client.{
  Future, null, uninitialised, filled, Waited, Client, cfuture_create, osal_queue_send,
  cfuture_wait_for, cfuture_abandon, osal_delay_ms, queue_send_timeout_ms, happy_wait_timeout_ms,
  dequeue_settle_ms, drop_settle_ms, write_request, read_request, status_request,
  log_scenario_result, succeeded, timed_out, first_byte,
}

-- `memcmp(xs, ys, n) == 0`
unfoldable pub same_bytes : ℕ → List ℕ → List ℕ → Bool
same_bytes zero xs ys = true
same_bytes (suc n) (x ∷ xs) (y ∷ ys) = x == y && same_bytes n xs ys
same_bytes (suc n) xs ys = false

abbrev pub pattern_byte : ℕ
pattern_byte = 0xA5

abbrev pub read_back_matches : Waited → Bool
read_back_matches w =
    succeeded w
    && w.result.length == storage_block_size
    && same_bytes storage_block_size w.result.bytes (replicate storage_block_size pattern_byte)

-- The second half of `runHappyPathScenario`, once the write has succeeded.
unfoldable pub read_back_scenario : Client (Unit {0})
read_back_scenario = do
  created ← cfuture_create
  elim created [
    | none ↦ log_scenario_result "scenario1" false "pool exhausted on read"
    | some future ↦ do
      sent ← osal_queue_send (read_request 1) future queue_send_timeout_ms
      elim sent [
        | false ↦ do
          cfuture_abandon future
          log_scenario_result "scenario1" false "read send failed"
        | true ↦ do
          waited ← cfuture_wait_for future happy_wait_timeout_ms uninitialised
          let pass = read_back_matches waited
          log_scenario_result "scenario1" pass
              (if pass then "write/read roundtrip verified" else "readback mismatch")
      ]
  ]

unfoldable pub run_happy_path_scenario : Client (Unit {0})
run_happy_path_scenario = do
  created ← cfuture_create
  elim created [
    | none ↦ log_scenario_result "scenario1" false "pool exhausted"
    | some future ↦ do
      sent ← osal_queue_send (write_request 1 pattern_byte) future queue_send_timeout_ms
      elim sent [
        | false ↦ do
          cfuture_abandon future
          log_scenario_result "scenario1" false "write send failed"
        | true ↦ do
          waited ← cfuture_wait_for future happy_wait_timeout_ms uninitialised
          elim (succeeded waited) [
            | false ↦ log_scenario_result "scenario1" false "write did not complete"
            | true ↦ read_back_scenario
          ]
      ]
  ]

abbrev pub canary : ℕ
canary = 0x11

abbrev pub attempted : ℕ
attempted = 0x22

abbrev pub untouched_byte : ℕ
untouched_byte = 0x55

-- The poll that must time out without a write to the result.
abbrev pub untouched : Waited → Bool
untouched w = first_byte w.result.bytes == untouched_byte

abbrev pub is_byte : ℕ → Option ℕ → Bool
is_byte value none = false
is_byte value (some v) = v == value

-- Behind the send of the write that is to time out.
unfoldable pub poll_and_compare : String → Future → Future → Client (Unit {0})
poll_and_compare name occupied future = do
  waited ← cfuture_wait_for future 0 (filled untouched_byte)
  drain_occupy_future name occupied
  osal_delay_ms drop_settle_ms
  read_back ← read_block_byte_sync 2
  let pass = timed_out waited && untouched waited && is_byte canary read_back
  log_scenario_result "scenario2" pass (
      if pass
      then "write timed out before T_S dequeued it, block unchanged"
      else "unexpected result")

unfoldable pub attempt_late_write : String → Future → Client (Unit {0})
attempt_late_write name occupied = do
  created ← cfuture_create
  elim created [
    | none ↦ do
      log_scenario_result "scenario2" false "pool exhausted"
      drain_occupy_future name occupied
    | some future ↦ do
      sent ← osal_queue_send (write_request 2 attempted) future queue_send_timeout_ms
      elim sent [
        | false ↦ do
          cfuture_abandon future
          log_scenario_result "scenario2" false "send failed"
          drain_occupy_future name occupied
        | true ↦ poll_and_compare name occupied future
      ]
  ]

unfoldable pub run_queue_timeout_scenario : String → Client (Unit {0})
run_queue_timeout_scenario name = do
  seeded ← write_block_sync 2 canary
  elim seeded [
    | false ↦ log_scenario_result "scenario2" false "canary seed failed"
    | true ↦ do
      occupied ← occupy_servicer
      elim occupied [
        | none ↦ log_scenario_result "scenario2" false "could not occupy T_S"
        | some future ↦ attempt_late_write name future
      ]
  ]

unfoldable pub run_late_completion_scenario : Client (Unit {0})
run_late_completion_scenario = do
  created ← cfuture_create
  elim created [
    | none ↦ log_scenario_result "scenario3" false "pool exhausted"
    | some future ↦ do
      sent ←
          osal_queue_send (write_request storage_demo_slow_block_id 0x33) future
            queue_send_timeout_ms
      elim sent [
        | false ↦ do cfuture_abandon future; log_scenario_result "scenario3" false "send failed"
        | true ↦ do
          osal_delay_ms dequeue_settle_ms
          waited ← cfuture_wait_for future 0 (filled untouched_byte)
          osal_delay_ms (storage_demo_slow_delay_ms + drop_settle_ms)
          let pass = timed_out waited && untouched waited
          log_scenario_result "scenario3" pass
              (if pass then "late completion safely discarded" else "unexpected result")
      ]
  ]

-- `secondClaimed`, `distinctSlot` and `secondWriteOk`.
abbrev pub Second : Type 0
Second = Bool × Bool × Bool

unfoldable pub claim_second : ℕ → Client Second
claim_second stale_slot = do
  created ← cfuture_create
  elim created [
    | none ↦ done (false, false, false)
    | some future ↦ do
      let distinct = not (future.slot_id == stale_slot)
      sent ← osal_queue_send (write_request 42 0x44) future queue_send_timeout_ms
      elim sent [
        | true ↦ do
          waited ← cfuture_wait_for future happy_wait_timeout_ms uninitialised
          done (true, distinct, succeeded waited)
        | false ↦ do cfuture_abandon future; done (true, distinct, false)
      ]
  ]

-- Behind the send of the request that goes stale.
unfoldable pub poll_and_claim : String → Future → Future → Client (Unit {0})
poll_and_claim name occupied stale = do
  waited ← cfuture_wait_for stale 0 null
  second ← claim_second stale.slot_id
  drain_occupy_future name occupied
  osal_delay_ms drop_settle_ms
  let pass = timed_out waited && second.1 && second.0 && second.2
  log_scenario_result "scenario4" pass
      (if pass then "second requester got an isolated slot" else "unexpected result")

unfoldable pub go_stale : String → Future → Client (Unit {0})
go_stale name occupied = do
  created ← cfuture_create
  elim created [
    | none ↦ do
      log_scenario_result "scenario4" false "pool exhausted (stale)"
      drain_occupy_future name occupied
    | some stale ↦ do
      sent ← osal_queue_send (status_request 41) stale queue_send_timeout_ms
      elim sent [
        | false ↦ do
          cfuture_abandon stale
          log_scenario_result "scenario4" false "stale send failed"
          drain_occupy_future name occupied
        | true ↦ poll_and_claim name occupied stale
      ]
  ]

unfoldable pub run_aba_isolation_scenario : String → Client (Unit {0})
run_aba_isolation_scenario name = do
  occupied ← occupy_servicer
  elim occupied [
    | none ↦ log_scenario_result "scenario4" false "could not occupy T_S"
    | some future ↦ go_stale name future
  ]
