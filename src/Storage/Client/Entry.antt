-- ===== src/Storage/Client/Entry.antt =====
-- app/src/storage/client_tasks.c: `waitForMedia` and the loops of the four tasks. A loop that the
-- source leaves open is cut off by fuel: `false` is the answer of a loop that ran out of it.
use Prim.Native.String.{String}
use stm32f407vgt.Base.{ℕ, zero, suc, ◌+◌, ◌*◌, Bool, true, false, ltb}
use stm32f407vgt.Base.Programs.{done, call, ◌>>=◌, ◌>>◌}
use stm32f407vgt.Storage.Client.{
  Client, get_ready, exit, should_stop, loop_start, loop_end, mark_stopped, trace_checkpoint,
  osal_delay_ms,
}
use stm32f407vgt.Storage.Client.Scenarios.{
  run_happy_path_scenario, run_queue_timeout_scenario, run_late_completion_scenario,
  run_aba_isolation_scenario,
}

abbrev pub cadence_ms : ℕ
cadence_ms = 3000

abbrev pub start_stagger_ms : ℕ
start_stagger_ms = 100

abbrev pub media_wait_ms : ℕ
media_wait_ms = 10000

abbrev pub media_poll_ms : ℕ
media_poll_ms = 50

-- The wait has 10000 / 50 rounds, and looks once more at its counter.
abbrev pub media_rounds : ℕ
media_rounds = 201

-- `if (storageServiceIsReady() || appTaskTraceShouldStop(taskName)) return;`: the second call is made
-- only where the first answers false.
abbrev pub ready_or_stopping : String → Client Bool
ready_or_stopping name = do
  up ← call get_ready done
  elim up [ true ↦ done true | false ↦ call (should_stop name) done ]

unfoldable pub wait_from : ℕ → ℕ → String → Client Bool
wait_from zero waited name = done false
wait_from (suc fuel) waited name = elim (ltb waited media_wait_ms) [
  | false ↦ done true
  | true ↦ do
    leave ← ready_or_stopping name
    elim leave [
      | true ↦ done true
      | false ↦ do
        trace_checkpoint name "waiting for media"
        osal_delay_ms media_poll_ms
        wait_from fuel (waited + media_poll_ms) name
    ]
]

unfoldable pub wait_for_media : String → Client Bool
wait_for_media name = wait_from media_rounds 0 name

-- `for (;;)` of a task, with its scenario.
unfoldable pub turns : ℕ → String → Client (Unit {0}) → Client Bool
turns zero name scenario = done false
turns (suc fuel) name scenario = do
  call (loop_start name) done
  stop ← call (should_stop name) done
  elim stop [
    | true ↦ do call (mark_stopped name) done; call exit done; done true
    | false ↦ do
      scenario
      call (loop_end name) done
      osal_delay_ms cadence_ms
      turns fuel name scenario
  ]

unfoldable pub entry : ℕ → ℕ → String → Client (Unit {0}) → Client Bool
entry fuel place name scenario = do
  osal_delay_ms (place * start_stagger_ms)
  wait_for_media name
  turns fuel name scenario

unfoldable pub happy_path_entry : ℕ → Client Bool
happy_path_entry fuel = entry fuel 0 "StorageDemoHappy" run_happy_path_scenario

unfoldable pub queue_timeout_entry : ℕ → Client Bool
queue_timeout_entry fuel =
    entry fuel 1 "StorageDemoQTimeout" (run_queue_timeout_scenario "StorageDemoQTimeout")

unfoldable pub late_completion_entry : ℕ → Client Bool
late_completion_entry fuel = entry fuel 2 "StorageDemoLateDone" run_late_completion_scenario

unfoldable pub aba_isolation_entry : ℕ → Client Bool
aba_isolation_entry fuel =
    entry fuel 3 "StorageDemoAbaIso" (run_aba_isolation_scenario "StorageDemoAbaIso")
