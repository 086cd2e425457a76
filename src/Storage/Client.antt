-- ===== src/Storage/Client.antt =====
-- app/src/storage/client_tasks.c: the calls that the requester tasks make, and the helpers that their
-- scenarios share. The promise library is not part of the repository: what its calls answer is left to
-- the world that a program runs in.
pub mod Helpers
pub mod Scenarios
pub mod Futures
pub mod Returned
pub mod Entry
pub mod Timing
pub mod Durations
pub mod OnTime
pub mod Stopping
pub mod Served
mod Tests
use Prim.Native.String.{String, ◌++◌, slice}
use stm32f407vgt.Base.{
  ℕ, ◌-◌, Bool, true, false, not, ◌&&◌, Option, List, [], ◌∷◌, replicate, if◌then◌else◌,
}
use stm32f407vgt.Base.Programs.{Program, done, call, ◌>>=◌, ◌>>◌}
use stm32f407vgt.Core.Logger.{LogLevel, event, error}
use stm32f407vgt.Storage.Protocol.{
  storage_block_size, read_block, write_block, get_status, StorageErrorCode, error_ok,
  StorageResult, StorageRequest,
}
use stm32f407vgt.Storage.Service.{storage_demo_slow_block_id, is_ok}

-- A claimed slot; `generation` is what else the promise library tells its claims apart by. It names the
-- promise and the future of the claim.
pub record Future : Type 0 where
  pub slot_id : ℕ
  pub generation : ℕ

-- The status that `cfuture_wait_for` writes: one of the service's, or the library's CFUTURE_ERR_TIMEOUT.
pub data Status : Type 0 where
  storage : StorageErrorCode → Status
  err_timeout : Status

-- What the result pointer points at: nothing, a variable that was not set, or one set to a byte.
pub data Buffer : Type 0 where
  null uninitialised : Buffer
  filled : ℕ → Buffer

-- `result` is what the buffer holds after the call.
pub record Waited : Type 0 where
  pub completed : Bool
  pub status : Status
  pub result : StorageResult

pub data Op : Type 0 where
  create get_ready count_failure exit : Op
  send : StorageRequest → Future → ℕ → Op
  wait_for : Future → ℕ → Buffer → Op
  abandon : Future → Op
  sleep : ℕ → Op
  log : LogLevel → String → Op
  loop_start loop_end should_stop mark_stopped : String → Op
  checkpoint : String → String → Op

abbrev pub Ans : Op → Type 0
Ans create = Option Future
Ans get_ready = Bool
Ans (send r f t) = Bool
Ans (wait_for f t b) = Waited
Ans (should_stop name) = Bool
Ans _ = Unit {0}

abbrev pub Client : Type 0 → Type 0
Client A = Program Op Ans A

-- The calls as programs, under the source's names.
abbrev pub cfuture_create : Client (Option Future)
cfuture_create = call create done

abbrev pub osal_queue_send : StorageRequest → Future → ℕ → Client Bool
osal_queue_send r f timeout = call (send r f timeout) done

abbrev pub cfuture_wait_for : Future → ℕ → Buffer → Client Waited
cfuture_wait_for f timeout buffer = call (wait_for f timeout buffer) done

abbrev pub cfuture_abandon : Future → Client (Unit {0})
cfuture_abandon f = call (abandon f) done

abbrev pub osal_delay_ms : ℕ → Client (Unit {0})
osal_delay_ms ms = call (sleep ms) done

abbrev pub logger_log : LogLevel → String → Client (Unit {0})
logger_log level message = call (log level message) done

abbrev pub trace_checkpoint : String → String → Client (Unit {0})
trace_checkpoint name point = call (checkpoint name point) done

abbrev pub queue_send_timeout_ms : ℕ
queue_send_timeout_ms = 200

abbrev pub happy_wait_timeout_ms : ℕ
happy_wait_timeout_ms = 2000

abbrev pub dequeue_settle_ms : ℕ
dequeue_settle_ms = 50

abbrev pub drop_settle_ms : ℕ
drop_settle_ms = 50

abbrev pub occupy_drain_timeout_ms : ℕ
occupy_drain_timeout_ms = 20000

abbrev pub scenario_log_message_length : ℕ
scenario_log_message_length = 64

-- `StorageRequest request = {0};` and the fields that are set.
abbrev pub write_request : ℕ → ℕ → StorageRequest
write_request block value = record {
  command = write_block;
  block_id = block;
  length = storage_block_size;
  write_data = replicate storage_block_size value;
}

abbrev pub read_request : ℕ → StorageRequest
read_request block = record {
  command = read_block;
  block_id = block;
  length = 0;
  write_data = replicate storage_block_size 0;
}

abbrev pub status_request : ℕ → StorageRequest
status_request block = record {
  command = get_status;
  block_id = block;
  length = 0;
  write_data = replicate storage_block_size 0;
}

abbrev pub verdict : Bool → String
verdict pass = if pass then " PASS: " else " FAIL: "

-- `snprintf` into a buffer of 64 bytes, the last of which ends the text.
abbrev pub result_message : String → Bool → String → String
result_message name pass detail =
    slice (name ++ (verdict pass ++ detail)) 0 (scenario_log_message_length - 1)

unfoldable pub log_scenario_result : String → Bool → String → Client (Unit {0})
log_scenario_result name pass detail = do
  logger_log (if pass then event else error) (result_message name pass detail)
  if pass then done tt else call count_failure done

abbrev pub status_is_ok : Status → Bool
status_is_ok (storage code) = is_ok code
status_is_ok err_timeout = false

abbrev pub is_timeout : Status → Bool
is_timeout (storage code) = false
is_timeout err_timeout = true

-- `completed && (statusCode == kStorageErrorOk)`
abbrev pub succeeded : Waited → Bool
succeeded w = w.completed && status_is_ok w.status

abbrev pub timed_out : Waited → Bool
timed_out w = not w.completed && is_timeout w.status

-- `data[0]` of a result, whose array always has 512 bytes.
abbrev pub first_byte : List ℕ → ℕ
first_byte [] = 0
first_byte (x ∷ xs) = x
