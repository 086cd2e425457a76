-- ===== src/Diagnostics/Watchdog/Tests.antt =====
-- The watchdog task at concrete inputs: one task that hangs beside one that goes on.
use stm32f407vgt.Base.{
  ◌^◌, ◌+◌, ◌≡◌, refl, true, some, List, [], ◌∷◌, ◌&&◌, ltb, add32, arith, if◌then◌else◌,
}
use stm32f407vgt.Diagnostics.TaskTrace.{Table, find_existing, get_by_index, new_trace}
use stm32f407vgt.Diagnostics.TaskTrace.Supervision.{Call, starts_loop, perform_all}
use stm32f407vgt.Diagnostics.TaskTrace.Silence.{RunsSince, silent_keeps}
use stm32f407vgt.Diagnostics.TaskTrace.Lookup.{lookup}
use stm32f407vgt.Diagnostics.Watchdog.{Turn, check_health, check_turn, run, is_stale}
use stm32f407vgt.Diagnostics.Watchdog.Health.{
  is_empty, overdue, observed, report, kick_count, check_health_lem, kick_count-check_turn,
  is_stale-add32,
}
use stm32f407vgt.Diagnostics.Watchdog.Starve.{SeesHung, no_more, sees, hung-run}

abbrev before : Table
before = new_trace "hung" 5 ∷ new_trace "busy" 5 ∷ []

abbrev calls : List Call
calls = starts_loop "busy" 0 30000 ∷ []

abbrev turn : Turn
turn = record {
  top = before;
  now = 30001;
  health_reads = perform_all calls before ∷ perform_all calls before ∷ [];
  profile_reads = [];
}

seen : SeesHung "hung" 0 5 before turn
seen = record { calls = calls; quiet = refl; read = refl; late = omega arith }

hung_slot : find_existing "hung" before ≡ some 0
unfolding find_existing
hung_slot = refl

hung_runs : RunsSince 5 (lookup "hung" before)
unfolding find_existing
hung_runs = (refl, refl)

hung-run_example : kick_count (run true 7 (turn ∷ [])) ≡ 0
hung-run_example =
    hung-run true "hung" 0 5 before hung_slot hung_runs 7 (turn ∷ []) (sees seen no_more)

silent_keeps_case :
    (find_existing "hung" (perform_all calls before) ≡ some 0)
    × RunsSince 5 (lookup "hung" (perform_all calls before))
silent_keeps_case = silent_keeps calls "hung" 0 5 before refl hung_slot hung_runs

check_health_lem_case : check_health true 30001 0 (before ∷ before ∷ []) ≡ (
  is_empty (overdue 30001 (observed 0 (before ∷ before ∷ []))),
  report true 30001 (overdue 30001 (observed 0 (before ∷ before ∷ []))),
)
check_health_lem_case = check_health_lem true 30001 0 (before ∷ before ∷ [])

kick_count-check_turn_example :
    kick_count (check_turn true 7 turn)
    ≡ (if is_empty (overdue 30001 (observed 0 turn.health_reads)) then 1 else 0)
kick_count-check_turn_example = kick_count-check_turn true 7 turn

healthy_turn :
    kick_count
      (check_turn true 7 (record turn { now = 25000; health_reads = before ∷ before ∷ [] }))
    ≡ 1
unfolding check_turn check_health get_by_index
healthy_turn = refl

-- 50000 ms after a check-in that lay 10000 ms before the wrap.
is_stale-add32_example :
    is_stale (add32 4294957296 50000) (new_trace "hung" 4294957296)
    ≡ (ltb 25000 50000 && ltb (4294957296 + 50000) (2 ^ 32))
is_stale-add32_example =
    is_stale-add32 (new_trace "hung" 4294957296) 50000 (omega arith) (omega arith)
