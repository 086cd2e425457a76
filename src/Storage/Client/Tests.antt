-- ===== src/Storage/Client/Tests.antt =====
-- The requesters in small worlds: one that serves every request from a file in memory, and one that
-- refuses.
use Prim.Native.String.{String}
use stm32f407vgt.Base.{ℕ, ◌+◌, ◌≤◌, ◌≡◌, refl, true, false, some, none, List, [], ◌∷◌}
use stm32f407vgt.Base.Programs.{World, run, Follows}
use stm32f407vgt.Storage.Protocol.{error_ok, StorageRequest, StorageResult, zero_result}
use stm32f407vgt.Storage.Memory.{Disk, memory, memory_laws}
use stm32f407vgt.Storage.Service.{
  perform, handle_read, handle_write, compute_block_offset, finish_read,
}
use stm32f407vgt.Diagnostics.TaskTrace
use stm32f407vgt.Diagnostics.TaskTrace.{Table}
use stm32f407vgt.Diagnostics.TaskTrace.Supervision.{Call, starts_loop, holds}
use stm32f407vgt.Diagnostics.TaskTrace.Lookup.{lookup}
use stm32f407vgt.Storage.Client.{
  Future, Op, Ans, create, get_ready, count_failure, log, send, wait_for, should_stop, storage,
  log_scenario_result, result_message, read_request,
}
use stm32f407vgt.Storage.Client.Scenarios.{
  same_bytes, read_back_scenario, run_happy_path_scenario, run_queue_timeout_scenario,
  run_late_completion_scenario, run_aba_isolation_scenario,
}
use stm32f407vgt.Storage.Client.Entry.{
  media_wait_ms, wait_for_media, turns, happy_path_entry, queue_timeout_entry,
  late_completion_entry, aba_isolation_entry,
}
use stm32f407vgt.Storage.Client.Futures.{Returns}
use stm32f407vgt.Storage.Client.Returned.{scenarios_return}
use stm32f407vgt.Storage.Client.Timing.{EndsBy}
use stm32f407vgt.Storage.Client.OnTime.{tasks_check_in, blocking, wait_for_media_ends}
use stm32f407vgt.Storage.Client.Stopping.{among_others, turns-stops}
use stm32f407vgt.Storage.Client.Served.{IsServed, pattern, run_happy_path_scenario-passes}

record Desk : Type 0 where
  file : Disk
  pending : StorageRequest
  lines : List String
  failures : ℕ

abbrev only_slot : Future
only_slot = record { slot_id = 3; generation = 1 }

abbrev serving : World Op Ans Desk
serving create s = (some only_slot, s)
serving get_ready s = (true, s)
serving count_failure s = (tt, record s { failures = s.failures + 1 })
serving (send r f t) s = (true, record s { pending = r })
serving (wait_for f t b) s =
    let (code, result, d) = perform memory s.pending s.file in
    (record { completed = true; status = storage code; result = result }, record s { file = d })
serving (log level text) s = (tt, record s { lines = text ∷ s.lines })
serving (should_stop name) s = (false, s)
serving op s = (tt, s)

served : IsServed memory serving (λ s. s.file)
served = record {
  creates = λ s. (only_slot, refl);
  create_keeps = λ s. refl;
  sends = λ r f s. refl;
  completes = λ r f s result d ok. rw ok (refl, refl);
}

abbrev desk : Desk
desk = record {
  file = record { bytes = []; pos = 0 };
  pending = read_request 0;
  lines = [];
  failures = 0;
}

written : Disk
written = (handle_write memory 1 pattern 512 desk.file).1

abbrev read_back : StorageResult
read_back = record { block_id = 1; length = 512; bytes = pattern; ready = false }

run_happy_path_scenario-passes_example :
    (s1 : Desk) × (run serving run_happy_path_scenario desk
      ≡ run serving (log_scenario_result "scenario1" true "write/read roundtrip verified") s1)
    × (s1.file ≡ (handle_read memory 1 written).2)
unfolding written handle_write handle_read compute_block_offset finish_read
run_happy_path_scenario-passes_example =
    run_happy_path_scenario-passes memory serving (λ s. s.file) served (λ d. d.bytes) memory_laws
      desk read_back written (handle_read memory 1 written).2 refl refl

-- The report of scenario 2 is longer than its buffer.
report_is_cut :
    result_message "scenario2" true "write timed out before T_S dequeued it, block unchanged"
    ≡ "scenario2 PASS: write timed out before T_S dequeued it, block u"
report_is_cut = refl

-- A queue that is full.
abbrev refusing : World Op Ans Desk
refusing create s = (some only_slot, s)
refusing get_ready s = (false, s)
refusing count_failure s = (tt, record s { failures = s.failures + 1 })
refusing (send r f t) s = (false, s)
refusing (wait_for f t b) s =
    (record { completed = false; status = storage error_ok; result = zero_result }, s)
refusing (log level text) s = (tt, record s { lines = text ∷ s.lines })
refusing (should_stop name) s = (false, s)
refusing op s = (tt, s)

refused :
    run refusing run_happy_path_scenario desk
    ≡ (tt, record desk { lines = "scenario1 FAIL: write send failed" ∷ []; failures = 1 })
unfolding run_happy_path_scenario log_scenario_result
refused = refl

happy_runs :
    (run serving run_happy_path_scenario desk).1.lines
    ≡ "scenario1 PASS: write/read roundtrip verified" ∷ []
unfolding run_happy_path_scenario read_back_scenario log_scenario_result perform handle_write
    handle_read compute_block_offset finish_read same_bytes
happy_runs = refl

scenarios_return_example :
    Returns run_happy_path_scenario []
    × Returns (run_queue_timeout_scenario "StorageDemo") []
    × Returns run_late_completion_scenario []
    × Returns (run_aba_isolation_scenario "StorageDemo") []
scenarios_return_example = scenarios_return "StorageDemo" []

tasks_check_in_example :
    EndsBy (happy_path_entry 5) 0 3000
    × EndsBy (queue_timeout_entry 5) 0 3000
    × EndsBy (late_completion_entry 5) 0 3000
    × EndsBy (aba_isolation_entry 5) 0 3000
tasks_check_in_example = tasks_check_in 5

wait_for_media_ends_case :
    Follows blocking
      (wait_for_media "StorageDemoHappy")
      0
      (λ ended total. (ended ≡ true) × (total ≤ media_wait_ms))
wait_for_media_ends_case = wait_for_media_ends "StorageDemoHappy"

-- A task that was asked to stop, and another that checks in meanwhile.
abbrev asked : Table
asked =
    record {
      task_name = "StorageDemoHappy";
      registered_time_ms = 0;
      last_check_in_time_ms = 0;
      last_loop_start_ms = 0;
      last_loop_duration_ms = 0;
      last_cadence_ms = 0;
      iteration_count = 4;
      last_checkpoint = none;
      stop_requested = true;
      stopped = false;
    }
    ∷ []

abbrev busy : Op → Desk → List Call
busy op s = starts_loop "Blinky" 7 7 ∷ []

turns-stops_example :
    let (ended, (s1, ts1)) =
      run
        (among_others (λ s. 7) busy serving)
        (turns 3 "StorageDemoHappy" run_happy_path_scenario)
        (desk, asked) in
    (ended ≡ true) × (holds (λ t. t.stopped) (lookup "StorageDemoHappy" ts1) ≡ true)
unfolding TaskTrace.should_stop TaskTrace.find_existing
turns-stops_example =
    turns-stops (λ s. 7) busy serving 2 "StorageDemoHappy" run_happy_path_scenario desk asked refl
