-- ===== src/Pal/Storage.antt =====
-- app/include/pal/pal_storage.h: an abstract block device. `State` is what `context` points at.
use stm32f407vgt.Base.{ℕ, Bool, Option, List}

pub data PalStorageResult : Type 0 where
  ok error write_protected not_ready param_error : PalStorageResult

-- Each hook returns its answer and the new state. A read returns the bytes that it puts in the
-- buffer, and a capacity query returns none where it answers false.
pub record PalStorage (State : Type 0) : Type 0 where
  pub init : State → Bool × State
  pub status : State → Bool × State
  pub read : ℕ → ℕ → State → PalStorageResult × List ℕ × State
  pub write : List ℕ → ℕ → ℕ → State → PalStorageResult × State
  pub sync : State → PalStorageResult × State
  pub get_sector_count : State → Option ℕ × State
  pub get_sector_size : State → Option ℕ × State
