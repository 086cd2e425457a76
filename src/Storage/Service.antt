-- ===== src/Storage/Service.antt =====
-- app/src/storage/storage_service.c: the task that serves block requests from one file.
pub mod Blocks
pub mod Requests
pub mod Task
pub mod Lifecycle
mod Tests
use Prim.Native.String.{String}
use stm32f407vgt.Base.{
  ℕ, ◌+◌, ◌-◌, ◌*◌, Bool, true, false, not, ◌||◌, ◌&&◌, Option, none, some, List, [], ◌∷◌, ◌++◌,
  length, take, drop, replicate, ltb, ◌==◌, u32_max, if◌then◌else◌,
}
use stm32f407vgt.Storage.Protocol.{
  storage_block_size, StorageCommandKind, read_block, write_block, get_status, other,
  StorageErrorCode, error_ok, not_ready, io_failure, invalid_block, cancelled, StorageResult,
  StorageRequest, zero_result,
}
use stm32f407vgt.Storage.Fatfs.{Fatfs, fr_ok, fr_no_filesystem}

abbrev pub storage_demo_slow_block_id : ℕ
storage_demo_slow_block_id = 0x0FFFFFFF

abbrev pub storage_demo_slow_delay_ms : ℕ
storage_demo_slow_delay_ms = 200

-- What the service does that others see: log lines, a delay, and the end of a request's promise.
pub data Effect : Type 0 where
  log : String → Effect
  delay : ℕ → Effect
  set_value : StorageResult → Effect
  drop_promise : StorageErrorCode → Effect
  marked_stopped : Effect
  task_exit : Effect

-- `computeBlockOffset`: the product is taken in 64 bits, where it cannot wrap.
unfoldable pub compute_block_offset : ℕ → Option ℕ
compute_block_offset block_id =
    let offset = block_id * storage_block_size in if ltb u32_max offset then none else some offset

abbrev pub is_ok : StorageErrorCode → Bool
is_ok error_ok = true
is_ok _ = false

abbrev pub is_io_failure : StorageErrorCode → Bool
is_io_failure io_failure = true
is_io_failure _ = false

module _ (fs : Fatfs) where
  open fs use {State, mount, mkfs, open_file, lseek, tell, read, write, sync, close, unmount}

  -- After a first `f_mount` that failed or succeeded for good: the tail of `mountVolume`.
  unfoldable pub finish_mount : Bool → ℕ × State → Bool × State × List Effect
  finish_mount quiet (result, s) =
      if not (result == fr_ok)
      then (false, s, (if quiet then [] else log "storage: FatFS mount failed" ∷ []))
      else (true, s, log "storage: FatFS mounted" ∷ [])

  unfoldable pub mount_volume : Bool → State → Bool × State × List Effect
  mount_volume quiet s =
      let (result, s1) = mount s in
      if result == fr_no_filesystem
      then (let (made, s2) = mkfs s1 in
          if not (made == fr_ok)
          then (
            false,
            s2,
            log "storage: no filesystem found, formatting"
                ∷ log "storage: FatFS format failed"
                ∷ [],
          )
          else (let (ready, s3, logs) = finish_mount quiet (mount s2) in
              (ready, s3, log "storage: no filesystem found, formatting" ∷ logs)))
      else finish_mount quiet (result, s1)

  unfoldable pub open_block_file : State → Bool × State × List Effect
  open_block_file s =
      let (result, s1) = open_file s in
      if not (result == fr_ok)
      then (false, s1, log "storage: block file open failed" ∷ [])
      else (true, s1, [])

  -- The `f_read` writes its bytes into the zeroed `data` of the result.
  unfoldable pub finish_read : ℕ → ℕ × List ℕ × State → StorageErrorCode × StorageResult × State
  finish_read block_id (code, bytes, s) =
      if not (code == fr_ok) then (io_failure, zero_result, s) else (
        error_ok,
        record zero_result {
          block_id = block_id;
          length = length bytes;
          bytes = bytes ++ replicate (storage_block_size - length bytes) 0;
        },
        s,
      )

  read_at : ℕ → ℕ → State → StorageErrorCode × StorageResult × State
  read_at block_id offset s =
      let (code, s1) = lseek offset s in
      if not (code == fr_ok)
      then (io_failure, zero_result, s1)
      else if not (tell s1 == offset)
      then (invalid_block, zero_result, s1)
      else finish_read block_id (read storage_block_size s1)

  unfoldable pub handle_read : ℕ → State → StorageErrorCode × StorageResult × State
  unfolding read_at
  handle_read block_id s = elim (compute_block_offset block_id) [
    | none ↦ (invalid_block, zero_result, s)
    | some offset ↦ read_at block_id offset s
  ]

  finish_write : ℕ → ℕ × ℕ × State → StorageErrorCode × State
  finish_write size (code, written, s) =
      if not (code == fr_ok) || not (written == size)
      then (io_failure, s)
      else (let (synced, s1) = sync s in
          if not (synced == fr_ok) then (io_failure, s1) else (error_ok, s1))

  write_at : List ℕ → ℕ → ℕ → State → StorageErrorCode × State
  write_at write_data size offset s =
      let (code, s1) = lseek offset s in
      if not (code == fr_ok)
      then (io_failure, s1)
      else finish_write size (write (take size write_data) s1)

  -- `data` points at the request's whole buffer, of which `f_write` takes the first `length` bytes.
  unfoldable pub handle_write : ℕ → List ℕ → ℕ → State → StorageErrorCode × State
  unfolding finish_write write_at
  handle_write block_id write_data size s =
      if ltb storage_block_size size
      then (invalid_block, s)
      else elim (compute_block_offset block_id) [
        | none ↦ (invalid_block, s)
        | some offset ↦ write_at write_data size offset s
      ]

  -- The `switch` on the command.
  unfoldable pub perform : StorageRequest → State → StorageErrorCode × StorageResult × State
  perform r s = elim r.command [
    | read_block ↦ handle_read r.block_id s
    | write_block ↦
        let (code, s1) = handle_write r.block_id r.write_data r.length s in (code, zero_result, s1)
    | get_status ↦ (error_ok, record zero_result { ready = true }, s)
    | other k ↦ (invalid_block, zero_result, s)
  ]

  abbrev pub resolve : StorageErrorCode → StorageResult → Effect
  resolve code result = if is_ok code then set_value result else drop_promise code

  -- `active` is the answer of `cpromise_is_active`. The result is the answer, the file system's state
  -- and the effects in order.
  unfoldable pub service_request : Bool → Bool → StorageRequest → State → Bool × State × List Effect
  service_request active volume_ready r s =
      if not active
      then (volume_ready, s, drop_promise cancelled ∷ [])
      else if not volume_ready
      then (volume_ready, s, drop_promise not_ready ∷ [])
      else (let waits =
            if r.block_id == storage_demo_slow_block_id
            then delay storage_demo_slow_delay_ms ∷ []
            else [] in
          let (code, result, s1) = perform r s in
          (not (is_io_failure code), s1, waits ++ (resolve code result ∷ [])))
