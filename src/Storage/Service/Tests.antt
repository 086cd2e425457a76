-- ===== src/Storage/Service/Tests.antt =====
-- The storage service over the small file system in memory.
use stm32f407vgt.Base.{
  ℕ, ◌+◌, ◌*◌, ◌≤◌, ◌<◌, ◌^◌, ◌≡◌, ◌≢◌, refl, ◌⊎◌, ◌↔◌, inl, Bool, true, false, none, some, List,
  [], ◌∷◌, length, take, replicate, arith, if◌then◌else◌, ltb,
}
use stm32f407vgt.Storage.Protocol.{
  storage_block_size, StorageRequest, StorageResult, read_block, get_status, error_ok,
  invalid_block, not_ready, cancelled, io_failure, zero_result,
}
use stm32f407vgt.Storage.Service.{
  delay, drop_promise, compute_block_offset, handle_read, handle_write, finish_read,
  service_request, storage_demo_slow_block_id, storage_demo_slow_delay_ms,
}
use stm32f407vgt.Base.Slices.{slice}
use stm32f407vgt.Storage.Service.Blocks.{
  compute_block_offset_lem, handle_write_stores, read_past_end, read_after_write,
}
use stm32f407vgt.Storage.Service.Requests.{
  resolutions, answer, service_request-resolves_once, service_request_guards, volume_lost,
  slow_block_refused,
}
use stm32f407vgt.Storage.Memory.{Disk, memory, memory_laws}
use stm32f407vgt.Storage.Service.Task.{Event, idle, arrives, stop_asked, start, run}
use stm32f407vgt.Storage.Service.Lifecycle.{IsSound, run-resolves, run-IsSound}

abbrev blank : Disk
blank = record { bytes = []; pos = 0 }

abbrev sevens : List ℕ
sevens = replicate 512 7

after_write : Disk
after_write = (handle_write memory 1 sevens 512 blank).1

wrote : handle_write memory 1 sevens 512 blank ≡ (error_ok, after_write)
unfolding handle_write compute_block_offset after_write
wrote = refl

abbrev got : StorageResult
got = record { block_id = 1; length = 512; bytes = sevens; ready = false }

after_read : Disk
after_read = (handle_read memory 1 after_write).2

read_back : handle_read memory 1 after_write ≡ (error_ok, got, after_read)
unfolding handle_read handle_write compute_block_offset finish_read after_write after_read
read_back = refl

-- A block past the end of the file is not refused: the seek grows the file, and the read succeeds
-- with no bytes.
unwritten_read_grows : handle_read memory 2 blank ≡ (
  error_ok,
  record zero_result { block_id = 2 },
  record { bytes = replicate 1024 0; pos = 1024 },
)
unfolding handle_read compute_block_offset finish_read
unwritten_read_grows = refl

compute_block_offset_lem_case :
    (compute_block_offset 3 ≡ (if ltb 3 (2 ^ 23) then some (3 * storage_block_size) else none))
    × (3 < 2 ^ 23 → 3 * storage_block_size + storage_block_size ≤ 2 ^ 32)
compute_block_offset_lem_case = compute_block_offset_lem 3

handle_write_stores_case :
    (slice (1 * storage_block_size) 512 after_write.bytes ≡ take 512 sevens)
    × ((q n : ℕ)
        → q + n ≤ length blank.bytes
        → (q + n ≤ 1 * storage_block_size) ⊎ (1 * storage_block_size + 512 ≤ q)
        → slice q n after_write.bytes ≡ slice q n blank.bytes)
    × (1 * storage_block_size + 512 ≤ length after_write.bytes)
handle_write_stores_case =
    handle_write_stores memory (λ d. d.bytes) memory_laws 1 512 sevens blank after_write refl
      (omega arith) wrote

read_after_write_example :
    (◌≡◌ {A = ℕ} 1 1
      → (got.bytes ≡ sevens) × (got.length ≡ storage_block_size) × (got.block_id ≡ 1))
    × (◌≢◌ {A = ℕ} 1 1
        → 1 * storage_block_size + storage_block_size ≤ length blank.bytes
        → (got.bytes ≡ slice (1 * storage_block_size) storage_block_size blank.bytes)
          × (got.length ≡ storage_block_size)
          × (got.block_id ≡ 1))
read_after_write_example =
    read_after_write memory (λ d. d.bytes) memory_laws 1 1 sevens blank after_write after_read refl
      wrote read_back

abbrev status : StorageRequest
status = record { command = get_status; block_id = 1; length = 0; write_data = [] }

abbrev slow_read : StorageRequest
slow_read = record {
  command = read_block;
  block_id = storage_demo_slow_block_id;
  length = 0;
  write_data = [];
}

service_request-resolves_once_example :
    resolutions (service_request memory true true status blank).2 ≡ 1
service_request-resolves_once_example = service_request-resolves_once memory true true status blank

service_request_guards_case :
    (◌≡◌ {A = Bool} true false
      → service_request memory true false status blank
        ≡ (false, blank, drop_promise cancelled ∷ []))
    × (◌≡◌ {A = Bool} true true
        → ◌≡◌ {A = Bool} false false
        → service_request memory true false status blank
          ≡ (false, blank, drop_promise not_ready ∷ []))
service_request_guards_case = service_request_guards memory true false status blank

volume_lost_case :
    ((service_request memory true true status blank).0 ≡ true)
    ↔ (◌≡◌ {A = Bool} true true)
      × (answer (service_request memory true true status blank).2 ≢ some io_failure)
volume_lost_case = volume_lost memory true true status blank

slow_block_refused_case :
    service_request memory true true slow_read blank
    ≡ (true, blank, delay storage_demo_slow_delay_ms ∷ drop_promise invalid_block ∷ [])
slow_block_refused_case = slow_block_refused memory slow_read blank refl (inl refl)

abbrev day : List Event
day = idle ∷ arrives status true ∷ arrives slow_read false ∷ stop_asked ∷ idle ∷ []

start-IsSound : IsSound memory (start memory blank)
start-IsSound = record { has_volume = λ e. absurd (cc); has_file = λ e. absurd (cc); seen = refl }

run-resolves_example : resolutions (run memory day (start memory blank)).1 ≡ 2
run-resolves_example = run-resolves memory day (start memory blank)

run-IsSound_case : IsSound memory (run memory day (start memory blank)).0
run-IsSound_case = run-IsSound memory day (start memory blank) start-IsSound

read_past_end_case :
    let (code, r, d) = handle_read memory 2 blank in
    (code ≡ error_ok)
    × (r.length ≡ 0)
    × (r.bytes ≡ replicate storage_block_size 0)
    × (length d.bytes ≡ 2 * storage_block_size)
read_past_end_case =
    read_past_end memory (λ d. d.bytes) memory_laws 2 blank (omega arith) (omega arith) refl refl
      refl refl
