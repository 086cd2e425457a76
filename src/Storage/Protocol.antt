-- ===== src/Storage/Protocol.antt =====
-- app/include/storage/storage_protocol.h: requests, results and status codes.
use stm32f407vgt.Base.{ℕ, Bool, false, List, replicate}

abbrev pub storage_block_size : ℕ
storage_block_size = 512

-- `StorageCommandKind`; `other` is a value outside the enum, which the `default` case takes.
pub data StorageCommandKind : Type 0 where
  read_block write_block get_status : StorageCommandKind
  other : ℕ → StorageCommandKind

-- `StorageErrorCode`; the negative errno values are told apart and nothing else.
pub data StorageErrorCode : Type 0 where
  error_ok not_ready io_failure invalid_block cancelled : StorageErrorCode

pub record StorageResult : Type 0 where
  pub block_id : ℕ
  pub length : ℕ
  pub bytes : List ℕ
  pub ready : Bool

-- The promise is named by the caller of the service, who knows whether it is still active.
pub record StorageRequest : Type 0 where
  pub command : StorageCommandKind
  pub block_id : ℕ
  pub length : ℕ
  pub write_data : List ℕ

-- `StorageResult result = {0};`
abbrev pub zero_result : StorageResult
zero_result = record {
  block_id = 0;
  length = 0;
  bytes = replicate storage_block_size 0;
  ready = false;
}
