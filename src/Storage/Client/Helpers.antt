-- ===== src/Storage/Client/Helpers.antt =====
-- app/src/storage/client_tasks.c: the helpers that the scenarios share: a synchronous write and read, and
-- the request that keeps the service busy.
use Prim.Native.String.{String}
use stm32f407vgt.Base.{ℕ, Bool, true, false, not, ◌||◌, Option, none, some, ◌==◌, if◌then◌else◌}
use stm32f407vgt.Base.Programs.{done, ◌>>=◌, ◌>>◌}
use stm32f407vgt.Core.Logger.{error}
use stm32f407vgt.Storage.Service.{storage_demo_slow_block_id}
use stm32f407vgt.Storage.Client.{
  Future, null, uninitialised, Client, cfuture_create, osal_queue_send, cfuture_wait_for,
  cfuture_abandon, osal_delay_ms, logger_log, trace_checkpoint, queue_send_timeout_ms,
  happy_wait_timeout_ms, dequeue_settle_ms, occupy_drain_timeout_ms, write_request, read_request,
  status_request, succeeded, first_byte,
}

unfoldable pub write_block_sync : ℕ → ℕ → Client Bool
write_block_sync block value = do
  created ← cfuture_create
  elim created [
    | none ↦ done false
    | some future ↦ do
      sent ← osal_queue_send (write_request block value) future queue_send_timeout_ms
      elim sent [
        | false ↦ do cfuture_abandon future; done false
        | true ↦ do
          waited ← cfuture_wait_for future happy_wait_timeout_ms uninitialised
          done (succeeded waited)
      ]
  ]

-- `*outValue` where the answer is true.
unfoldable pub read_block_byte_sync : ℕ → Client (Option ℕ)
read_block_byte_sync block = do
  created ← cfuture_create
  elim created [
    | none ↦ done none
    | some future ↦ do
      sent ← osal_queue_send (read_request block) future queue_send_timeout_ms
      elim sent [
        | false ↦ do cfuture_abandon future; done none
        | true ↦ do
          waited ← cfuture_wait_for future happy_wait_timeout_ms uninitialised
          done (
              if not (succeeded waited) || waited.result.length == 0
              then none
              else some (first_byte waited.result.bytes))
      ]
  ]

-- The future that was claimed, where the answer is true.
unfoldable pub occupy_servicer : Client (Option Future)
occupy_servicer = do
  created ← cfuture_create
  elim created [
    | none ↦ done none
    | some future ↦ do
      sent ←
          osal_queue_send (status_request storage_demo_slow_block_id) future queue_send_timeout_ms
      elim sent [
        | false ↦ do cfuture_abandon future; done none
        | true ↦ do osal_delay_ms dequeue_settle_ms; done (some future)
      ]
  ]

unfoldable pub drain_occupy_future : String → Future → Client (Unit {0})
drain_occupy_future name occupied = do
  trace_checkpoint name "draining occupy request"
  waited ← cfuture_wait_for occupied occupy_drain_timeout_ms null
  elim waited.completed [
    | true ↦ done tt
    | false ↦ do
      trace_checkpoint name "T_S did not respond draining occupy request"
      logger_log error "T_S did not respond within timeout - possible stall"
  ]
