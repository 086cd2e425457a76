-- ===== src/Diagnostics/TaskTrace/Tests.antt =====
-- The task table at concrete inputs.
use text.Mathlib.Text.{◌==◌ as str_eq}
use mathlib.Core.Option
use stm32f407vgt.Base.{◌≡◌, refl, true, List, [], ◌∷◌, if◌then◌else◌, arith}
use stm32f407vgt.Diagnostics.TaskTrace.{
  Table, new_trace, find_existing, find_or_create, update, loop_started, register, loop_start,
  request_stop, should_stop,
}
use stm32f407vgt.Diagnostics.TaskTrace.Lookup.{lookup}
use stm32f407vgt.Diagnostics.TaskTrace.Records.{found, lookup-loop_start}
use stm32f407vgt.Diagnostics.TaskTrace.Supervision.{
  Call, registers, starts_loop, ends_loop, reaches, requests_stop, marks_stopped, perform_all,
  has_record, stop_request_sticks, should_stop-request_stop,
}
use stm32f407vgt.Diagnostics.TaskTrace.Slots.{IsWellFormed, perform_all-IsWellFormed}

abbrev blinky : Table
blinky = new_trace "Blinky" 7 ∷ []

abbrev stopping : Table
stopping = record (new_trace "Blinky" 7) { stop_requested = true } ∷ []

abbrev script : List Call
script =
    registers "Watchdog" 1
    ∷ starts_loop "Blinky" 2 3
    ∷ reaches "Blinky" "delay" 4 5
    ∷ ends_loop "Blinky" 6 7
    ∷ requests_stop "Watchdog"
    ∷ marks_stopped "Blinky"
    ∷ []

register_then_loop :
    loop_start "Blinky" 9 12 (register "Blinky" 7 [])
    ≡ record (new_trace "Blinky" 7) {
      last_cadence_ms = 5;
      last_loop_start_ms = 12;
      last_check_in_time_ms = 12;
    }
      ∷ []
unfolding loop_start register find_or_create find_existing update
register_then_loop = refl

stopping_asks : should_stop "Blinky" stopping ≡ true
unfolding should_stop find_existing
stopping_asks = refl

empty-IsWellFormed : IsWellFormed []
empty-IsWellFormed = record { fits = omega arith; own_slot = λ i t e. absurd (cc) }

lookup-loop_start_case : lookup "Blinky" (loop_start "Blinky" 9 12 blinky) ≡ (
    if str_eq "Blinky" "Blinky"
    then Option.map (loop_started 12) (found "Blinky" 9 blinky)
    else lookup "Blinky" blinky)
lookup-loop_start_case = lookup-loop_start "Blinky" "Blinky" 9 12 blinky

stop_request_sticks_case : should_stop "Blinky" (perform_all script stopping) ≡ true
stop_request_sticks_case = stop_request_sticks script "Blinky" stopping stopping_asks

should_stop-request_stop_case : should_stop "Blinky" (request_stop "Blinky" blinky) ≡ (
    if str_eq "Blinky" "Blinky"
    then has_record (lookup "Blinky" blinky)
    else should_stop "Blinky" blinky)
should_stop-request_stop_case = should_stop-request_stop "Blinky" "Blinky" blinky

perform_all-IsWellFormed_example : IsWellFormed (perform_all script [])
perform_all-IsWellFormed_example = perform_all-IsWellFormed script [] empty-IsWellFormed
