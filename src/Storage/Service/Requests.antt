-- ===== src/Storage/Service/Requests.antt =====
-- One request: its guards, its one answer, and when the volume is given up.
use stm32f407vgt.Base.{
  ℕ, suc, ◌+◌, ◌≡◌, ◌≢◌, ◌⊎◌, ◌↔◌, Bool, true, false, Option, none, some, List, [], ◌∷◌, ◌++◌,
  arith, ◌==◌, if◌then◌else◌,
}
use stm32f407vgt.Storage.Protocol.{
  read_block, write_block, StorageErrorCode, error_ok, not_ready, io_failure, invalid_block,
  cancelled, StorageResult, StorageRequest,
}
use stm32f407vgt.Storage.Fatfs.{Fatfs}
use stm32f407vgt.Storage.Service.{
  Effect, log, delay, set_value, drop_promise, marked_stopped, task_exit, compute_block_offset,
  handle_read, handle_write, perform, resolve, service_request, storage_demo_slow_block_id,
  storage_demo_slow_delay_ms,
}

-- The ends of promises among the effects.
abbrev pub resolutions : List Effect → ℕ
resolutions [] = 0
resolutions (set_value r ∷ es) = suc (resolutions es)
resolutions (drop_promise c ∷ es) = suc (resolutions es)
resolutions (log m ∷ es) = resolutions es
resolutions (delay n ∷ es) = resolutions es
resolutions (marked_stopped ∷ es) = resolutions es
resolutions (task_exit ∷ es) = resolutions es

pub resolutions-append :
    (es fs : List Effect) → resolutions (es ++ fs) ≡ resolutions es + resolutions fs
resolutions-append [] fs = omega arith
resolutions-append (set_value r ∷ es) fs = omega (arith, resolutions-append es fs)
resolutions-append (drop_promise c ∷ es) fs = omega (arith, resolutions-append es fs)
resolutions-append (log m ∷ es) fs = resolutions-append es fs
resolutions-append (delay n ∷ es) fs = resolutions-append es fs
resolutions-append (marked_stopped ∷ es) fs = resolutions-append es fs
resolutions-append (task_exit ∷ es) fs = resolutions-append es fs

abbrev waits : ℕ → List Effect
waits block_id =
    if block_id == storage_demo_slow_block_id then delay storage_demo_slow_delay_ms ∷ [] else []

-- The code with which a promise ends.
abbrev pub answer : List Effect → Option StorageErrorCode
answer [] = none
answer (set_value r ∷ es) = some error_ok
answer (drop_promise c ∷ es) = some c
answer (log m ∷ es) = answer es
answer (delay n ∷ es) = answer es
answer (marked_stopped ∷ es) = answer es
answer (task_exit ∷ es) = answer es

module _ (fs : Fatfs) where
  resolutions-answer :
      (block_id : ℕ) (code : StorageErrorCode) (r : StorageResult)
      → resolutions (waits block_id ++ (resolve fs code r ∷ [])) ≡ 1
  resolutions-answer block_id code r = ground arith

  -- Whatever the request, the volume and the promise, a request ends its promise exactly once.
  pub service_request-resolves_once :
      (active ready : Bool) (r : StorageRequest) (s : Fatfs.State fs)
      → resolutions (service_request fs active ready r s).2 ≡ 1
  unfolding service_request
  service_request-resolves_once active ready r s = ground arith

  -- A request whose promise is no longer active, and one that finds no volume, is answered without a
  -- file operation, and leaves the volume's flag as it was.
  pub service_request_guards :
      (active ready : Bool) (r : StorageRequest) (s : Fatfs.State fs)
      → (active ≡ false
          → service_request fs active ready r s ≡ (ready, s, drop_promise cancelled ∷ []))
        × (active ≡ true
            → ready ≡ false
            → service_request fs active ready r s ≡ (false, s, drop_promise not_ready ∷ []))
  unfolding service_request
  service_request_guards active ready r s = ((λ e. rw e), λ e f. rw (e, f))

  -- An active request gives a ready volume up exactly if its answer is the code of an input or output
  -- failure, and never brings a volume up that is not ready.
  pub volume_lost :
      (active ready : Bool) (r : StorageRequest) (s : Fatfs.State fs)
      → ((service_request fs active ready r s).0 ≡ true)
        ↔ (ready ≡ true) × (answer (service_request fs active ready r s).2 ≢ some io_failure)
  unfolding service_request
  volume_lost active ready r s = (λ h. ground arith, λ h. ground arith)

  -- The reserved block id is no block: a served read or write of it waits, is refused as an invalid
  -- block, and does not touch the file or the volume's flag.
  pub slow_block_refused :
      (r : StorageRequest) (s : Fatfs.State fs)
      → r.block_id ≡ storage_demo_slow_block_id
      → (r.command ≡ read_block) ⊎ (r.command ≡ write_block)
      → service_request fs true true r s
        ≡ (true, s, delay storage_demo_slow_delay_ms ∷ drop_promise invalid_block ∷ [])
  unfolding service_request perform handle_read handle_write compute_block_offset
  slow_block_refused r s e c = ground arith
