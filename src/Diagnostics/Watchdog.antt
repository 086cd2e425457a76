-- ===== src/Diagnostics/Watchdog.antt =====
-- app/src/diagnostics/crash_dump.c, `crashDumpWatchdogTaskEntry`: the task that refreshes the
-- hardware watchdog while every task checks in. Other tasks write to the table between two of its
-- reads, so each read has a table of its own.
pub mod Health
pub mod Starve
mod Tests
use Prim.Native.String.{String}
use stm32f407vgt.Base.{
  ℕ, zero, suc, ◌+◌, ◌-◌, ◌%◌, Bool, true, false, not, ◌&&◌, Option, none, some, List, [], ◌∷◌,
  ◌++◌, ltb, ◌==◌, add32, if◌then◌else◌,
}
use stm32f407vgt.Diagnostics.TaskTrace.{AppTaskTrace, Table, get_by_index, should_stop}

abbrev pub watchdog_refresh_interval_ms : ℕ
watchdog_refresh_interval_ms = 1000

abbrev pub watchdog_health_timeout_ms : ℕ
watchdog_health_timeout_ms = 25000

abbrev pub watchdog_profile_dump_interval_ticks : ℕ
watchdog_profile_dump_interval_ticks = 10

abbrev pub task_name : String
task_name = "Watchdog"

-- What the task does: the calls on the table of tasks, the lines that it logs (with the values that
-- they print), the write of the refresh key to IWDG->KR, and its delays.
pub data Effect : Type 0 where
  loop_start loop_end kick marked_stopped task_exit : Effect
  checkpoint : String → Effect
  log_health : AppTaskTrace → ℕ → Effect
  log_profile : AppTaskTrace → Effect
  delay : ℕ → Effect

abbrev pub since_last_check_in_ms : ℕ → AppTaskTrace → ℕ
since_last_check_in_ms now t =
    if ltb now t.last_check_in_time_ms then 0 else now - t.last_check_in_time_ms

abbrev pub is_stale : ℕ → AppTaskTrace → Bool
is_stale now t = ltb watchdog_health_timeout_ms (since_last_check_in_ms now t)

abbrev pub health_line : Bool → ℕ → AppTaskTrace → List Effect
health_line has_logger now t =
    if has_logger then log_health t (since_last_check_in_ms now t) ∷ [] else []

-- The loop over the records; `i` is the index of the first of `reads`. The first component is
-- `allHealthy`.
unfoldable pub check_health : Bool → ℕ → ℕ → List Table → Bool × List Effect
check_health has_logger now i [] = (true, [])
check_health has_logger now i (ts ∷ reads) =
    let (healthy, lines) = check_health has_logger now (suc i) reads in
    elim (get_by_index i ts) [
      | none ↦ (healthy, lines)
      | some t ↦
          if t.stopped
          then (healthy, lines)
          else if is_stale now t
          then (false, health_line has_logger now t ++ lines)
          else (healthy, lines)
    ]

pub dump_profile : ℕ → List Table → List Effect
dump_profile i [] = []
dump_profile i (ts ∷ reads) =
    let lines = dump_profile (suc i) reads in
    elim (get_by_index i ts) [ none ↦ lines | some t ↦ log_profile t ∷ delay 1 ∷ lines ]

-- What one turn of the loop finds: the table at the top, the clock, and the tables at each read of
-- the two loops, which are as many as `count`.
pub record Turn : Type 0 where
  pub top : Table
  pub now : ℕ
  pub health_reads : List Table
  pub profile_reads : List Table

abbrev pub kicks : Bool → List Effect
kicks all_healthy = if all_healthy then checkpoint "kicking IWDG" ∷ kick ∷ [] else []

abbrev pub profile : Bool → ℕ → List Table → List Effect
profile has_logger tick reads =
    if has_logger && (tick % watchdog_profile_dump_interval_ticks == 0)
    then dump_profile 0 reads
    else []

-- A turn that is not the last.
unfoldable pub check_turn : Bool → ℕ → Turn → List Effect
check_turn has_logger tick turn =
    let (all_healthy, lines) = check_health has_logger turn.now 0 turn.health_reads in
    checkpoint "checking task health"
    ∷ (lines
        ++ (kicks all_healthy
            ++ (profile has_logger tick turn.profile_reads
                ++ (loop_end ∷ delay watchdog_refresh_interval_ms ∷ []))))

unfoldable pub run : Bool → ℕ → List Turn → List Effect
run has_logger tick [] = []
run has_logger tick (turn ∷ turns) =
    let rest = run has_logger (add32 tick 1) turns in
    if should_stop task_name turn.top
    then loop_start ∷ marked_stopped ∷ task_exit ∷ []
    else loop_start ∷ (check_turn has_logger tick turn ++ rest)
