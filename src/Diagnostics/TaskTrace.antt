-- ===== src/Diagnostics/TaskTrace.antt =====
-- app/src/diagnostics/app_task_trace.c: the table in which every task checks in. `s_traces` is the
-- list of the slots in use, so `s_traceCount` is its length. Each reading of `osal_get_time_ms` is an
-- argument: `created` that of a new slot, `now` that of the operation itself.
pub mod Lookup
pub mod Records
pub mod Supervision
pub mod Slots
pub mod Silence
mod Tests
use text.Mathlib.Text.{◌==◌ as str_eq}
use mathlib.Core.Option
use Prim.Native.String.{String}
use stm32f407vgt.Base.{
  ℕ, zero, suc, Bool, true, false, ◌&&◌, Option, none, some, List, [], ◌∷◌, ◌++◌, length, get_elem?,
  ltb, leb, add32, sub32, if◌then◌else◌,
}

abbrev pub task_trace_capacity : ℕ
task_trace_capacity = 10

-- `lastCheckpoint` is NULL (`none`) until the first checkpoint.
pub record AppTaskTrace : Type 0 where
  pub task_name : String
  pub registered_time_ms : ℕ
  pub last_check_in_time_ms : ℕ
  pub last_loop_start_ms : ℕ
  pub last_loop_duration_ms : ℕ
  pub last_cadence_ms : ℕ
  pub iteration_count : ℕ
  pub last_checkpoint : Option String
  pub stop_requested : Bool
  pub stopped : Bool

abbrev pub Table : Type 0
Table = List AppTaskTrace

-- The index of the slot that the pointer points at.
unfoldable pub find_existing : String → Table → Option ℕ
find_existing name [] = none
find_existing name (t ∷ ts) =
    if str_eq t.task_name name then some 0 else Option.map suc (find_existing name ts)

abbrev pub new_trace : String → ℕ → AppTaskTrace
new_trace name created = record {
  task_name = name;
  registered_time_ms = created;
  last_check_in_time_ms = created;
  last_loop_start_ms = created;
  last_loop_duration_ms = 0;
  last_cadence_ms = 0;
  iteration_count = 0;
  last_checkpoint = none;
  stop_requested = false;
  stopped = false;
}

pub find_or_create : String → ℕ → Table → Option ℕ × Table
find_or_create name created ts = elim (find_existing name ts) [
  | some i ↦ (some i, ts)
  | none ↦
      if leb task_trace_capacity (length ts)
      then (none, ts)
      else (some (length ts), ts ++ (new_trace name created ∷ []))
]

-- The writes through the pointer to slot `i`.
unfoldable pub update : Table → ℕ → (AppTaskTrace → AppTaskTrace) → Table
update [] i f = []
update (t ∷ ts) zero f = f t ∷ ts
update (t ∷ ts) (suc i) f = t ∷ update ts i f

-- `if (trace == NULL) return;` and the writes behind it.
abbrev pub write : Option ℕ × Table → (AppTaskTrace → AppTaskTrace) → Table
write (none, ts) f = ts
write (some i, ts) f = update ts i f

abbrev pub loop_started : ℕ → AppTaskTrace → AppTaskTrace
loop_started now t = record t {
  last_cadence_ms = sub32 now t.last_loop_start_ms;
  last_loop_start_ms = now;
  last_check_in_time_ms = now;
}

abbrev pub loop_ended : ℕ → AppTaskTrace → AppTaskTrace
loop_ended now t = record t {
  last_loop_duration_ms = sub32 now t.last_loop_start_ms;
  last_check_in_time_ms = now;
  iteration_count = add32 t.iteration_count 1;
}

abbrev pub checked_point : String → ℕ → AppTaskTrace → AppTaskTrace
checked_point point now t = record t { last_checkpoint = some point; last_check_in_time_ms = now }

abbrev pub asked_to_stop : AppTaskTrace → AppTaskTrace
asked_to_stop t = record t { stop_requested = true }

abbrev pub marked : AppTaskTrace → AppTaskTrace
marked t = record t { stopped = true }

-- `appTaskTraceRegister` and its kin.
unfoldable pub register : String → ℕ → Table → Table
register name created ts = (find_or_create name created ts).1

pub loop_start : String → ℕ → ℕ → Table → Table
loop_start name created now ts = write (find_or_create name created ts) (loop_started now)

pub loop_end : String → ℕ → ℕ → Table → Table
loop_end name created now ts = write (find_or_create name created ts) (loop_ended now)

pub checkpoint : String → String → ℕ → ℕ → Table → Table
checkpoint name point created now ts =
    write (find_or_create name created ts) (checked_point point now)

pub count : Table → ℕ
count ts = length ts

-- `none` is the answer `false`; the pointer to the result is not NULL.
unfoldable pub get_by_index : ℕ → Table → Option AppTaskTrace
get_by_index i ts = if leb (length ts) i then none else get_elem? ts i

pub request_stop : String → Table → Table
request_stop name ts = write (find_existing name ts, ts) asked_to_stop

pub mark_stopped : String → Table → Table
mark_stopped name ts = write (find_existing name ts, ts) marked

abbrev pub at : Option ℕ → Table → Option AppTaskTrace
at none ts = none
at (some i) ts = get_elem? ts i

abbrev pub wants_stop : Option AppTaskTrace → Bool
wants_stop none = false
wants_stop (some t) = t.stop_requested

unfoldable pub should_stop : String → Table → Bool
should_stop name ts = wants_stop (at (find_existing name ts) ts)
