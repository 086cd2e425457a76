-- ===== src/Diagnostics/TaskTrace/Supervision.antt =====
-- Properties of any sequence of calls of the task table: the table stays well formed, and a request
-- to stop is never lost.
use text.Mathlib.Text.{◌==◌ as str_eq}
use text.Mathlib.TextEquality.{eq_iff}
use mathlib.Core.Path.{subst}
use mathlib.Core.Option
use Prim.Native.String.{String}
use stm32f407vgt.Base.{
  ℕ, ◌≡◌, refl, sym, ◌∙◌, inl, inr, Bool, true, false, Option, none, some, List, [], ◌∷◌, length,
  leb, if◌then◌else◌, Bool-cases,
}
use stm32f407vgt.Diagnostics.TaskTrace.{
  AppTaskTrace, Table, task_trace_capacity, loop_started, loop_ended, checked_point, asked_to_stop,
  marked, register, loop_start, loop_end, checkpoint, request_stop, mark_stopped, should_stop,
  wants_stop,
}
use stm32f407vgt.Diagnostics.TaskTrace.Lookup.{lookup}
use stm32f407vgt.Diagnostics.TaskTrace.Records.{
  found, or_new, map-same, lookup-register, lookup-loop_start, lookup-loop_end, lookup-checkpoint,
  lookup-request_stop, lookup-mark_stopped,
}

-- A call that changes the table, with the task that it names and the clock that it reads.
pub data Call : Type 0 where
  registers : String → ℕ → Call
  starts_loop ends_loop : String → ℕ → ℕ → Call
  reaches : String → String → ℕ → ℕ → Call
  requests_stop marks_stopped : String → Call

unfoldable pub perform : Call → Table → Table
perform (registers name created) = register name created
perform (starts_loop name created now) = loop_start name created now
perform (ends_loop name created now) = loop_end name created now
perform (reaches name point created now) = checkpoint name point created now
perform (requests_stop name) = request_stop name
perform (marks_stopped name) = mark_stopped name

unfoldable pub perform_all : List Call → Table → Table
perform_all [] ts = ts
perform_all (c ∷ cs) ts = perform_all cs (perform c ts)

-- Of a record that may be missing.
abbrev pub holds : (AppTaskTrace → Bool) → Option AppTaskTrace → Bool
holds flag none = false
holds flag (some t) = flag t

abbrev pub has_record : Option AppTaskTrace → Bool
has_record none = false
has_record (some t) = true

asked : (o : Option AppTaskTrace) → wants_stop (Option.map asked_to_stop o) ≡ has_record o
asked none = refl
asked (some t) = refl

wants_stop-holds : (o : Option AppTaskTrace) → wants_stop o ≡ holds (λ t. t.stop_requested) o
wants_stop-holds none = refl
wants_stop-holds (some t) = refl

-- A flag of the records that no call takes back, such as the request to stop.
module _ (flag : AppTaskTrace → Bool) where
  abbrev KeepsFlag : (AppTaskTrace → AppTaskTrace) → Type 0
  KeepsFlag f = (t : AppTaskTrace) → flag t ≡ true → flag (f t) ≡ true

  map-holds :
      (f : AppTaskTrace → AppTaskTrace) (o : Option AppTaskTrace)
      → KeepsFlag f
      → holds flag o ≡ true
      → holds flag (Option.map f o) ≡ true
  map-holds f none keeps h = h
  map-holds f (some t) keeps h = keeps t h

  or_new-holds :
      (name : String) (created : ℕ) (full : Bool) (o : Option AppTaskTrace)
      → holds flag o ≡ true
      → holds flag (or_new name created full o) ≡ true
  or_new-holds name created full none h = absurd (cc)
  or_new-holds name created full (some t) h = h

  same_name :
      (name j : String) (ts : Table)
      → str_eq name j ≡ true
      → holds flag (lookup j ts) ≡ true
      → holds flag (lookup name ts) ≡ true
  same_name name j ts same h = rw ((eq_iff name j).0 same) h

  -- A record with the flag still has it after a call for some task.
  found-holds :
      (name j : String) (created : ℕ) (ts : Table) (f : AppTaskTrace → AppTaskTrace)
      → KeepsFlag f
      → holds flag (lookup j ts) ≡ true
      → holds flag (if str_eq name j then Option.map f (found name created ts) else lookup j ts)
        ≡ true
  found-holds name j created ts f keeps h = elim (Bool-cases (str_eq name j)) [
    | inr other ↦ rw other h
    | inl same ↦ rw same (
        map-holds f (found name created ts) keeps (
          or_new-holds name created (leb task_trace_capacity (length ts)) (lookup name ts)
            (same_name name j ts same h)))
  ]

  kept-holds :
      (name j : String) (ts : Table) (f : AppTaskTrace → AppTaskTrace)
      → KeepsFlag f
      → holds flag (lookup j ts) ≡ true
      → holds flag (if str_eq name j then Option.map f (lookup j ts) else lookup j ts) ≡ true
  kept-holds name j ts f keeps h = elim (Bool-cases (str_eq name j)) [
    | inr other ↦ rw other h
    | inl same ↦ rw same (map-holds f (lookup j ts) keeps h)
  ]

  -- What each call writes keeps the flag.
  record IsKept : Type 0 where
    starts : (now : ℕ) → KeepsFlag (loop_started now)
    ends : (now : ℕ) → KeepsFlag (loop_ended now)
    points : (point : String) (now : ℕ) → KeepsFlag (checked_point point now)
    asks : KeepsFlag asked_to_stop
    marks : KeepsFlag marked

  module _ (kept : IsKept) where
    perform-holds :
        (c : Call) (j : String) (ts : Table)
        → holds flag (lookup j ts) ≡ true
        → holds flag (lookup j (perform c ts)) ≡ true
    unfolding perform
    perform-holds (registers name created) j ts h = rw (lookup-register name j created 0 ts) (
        subst (λ o. holds flag (if str_eq name j then o else lookup j ts) ≡ true)
          (map-same (found name created ts)) (found-holds name j created ts (λ t. t) (λ t e. e) h))
    perform-holds (starts_loop name created now) j ts h =
        rw (lookup-loop_start name j created now ts)
          (found-holds name j created ts (loop_started now) (kept.starts now) h)
    perform-holds (ends_loop name created now) j ts h =
        rw (lookup-loop_end name j created now ts)
          (found-holds name j created ts (loop_ended now) (kept.ends now) h)
    perform-holds (reaches name point created now) j ts h =
        rw (lookup-checkpoint name j created now ts point)
          (found-holds name j created ts (checked_point point now) (kept.points point now) h)
    perform-holds (requests_stop name) j ts h =
        rw (lookup-request_stop name j ts) (kept-holds name j ts asked_to_stop kept.asks h)
    perform-holds (marks_stopped name) j ts h =
        rw (lookup-mark_stopped name j ts) (kept-holds name j ts marked kept.marks h)

    perform_all-holds :
        (cs : List Call) (j : String) (ts : Table)
        → holds flag (lookup j ts) ≡ true
        → holds flag (lookup j (perform_all cs ts)) ≡ true
    unfolding perform_all
    perform_all-holds [] j ts h = h
    perform_all-holds (c ∷ cs) j ts h =
        perform_all-holds cs j (perform c ts) (perform-holds c j ts h)

stop_requested-IsKept : IsKept (λ t. t.stop_requested)
stop_requested-IsKept = record {
  starts = λ now t e. e;
  ends = λ now t e. e;
  points = λ point now t e. e;
  asks = λ t e. refl;
  marks = λ t e. e;
}

stopped-IsKept : IsKept (λ t. t.stopped)
stopped-IsKept = record {
  starts = λ now t e. e;
  ends = λ now t e. e;
  points = λ point now t e. e;
  asks = λ t e. e;
  marks = λ t e. refl;
}

-- A task that is marked stopped stays so.
pub stopped_sticks :
    (cs : List Call) (j : String) (ts : Table)
    → holds (λ t. t.stopped) (lookup j ts) ≡ true
    → holds (λ t. t.stopped) (lookup j (perform_all cs ts)) ≡ true
stopped_sticks = perform_all-holds (λ t. t.stopped) stopped-IsKept

-- Once a task has been asked to stop, `appTaskTraceShouldStop` answers true to it after any further
-- calls of any tasks.
pub stop_request_sticks :
    (cs : List Call) (j : String) (ts : Table)
    → should_stop j ts ≡ true
    → should_stop j (perform_all cs ts) ≡ true
unfolding should_stop
stop_request_sticks cs j ts h =
    wants_stop-holds (lookup j (perform_all cs ts))
    ∙ perform_all-holds (λ t. t.stop_requested) stop_requested-IsKept cs j ts
        (sym (wants_stop-holds (lookup j ts)) ∙ h)

-- A request to stop is seen by exactly the task that it names, if that has a record, and changes the
-- answer to no other.
pub should_stop-request_stop :
    (name j : String) (ts : Table)
    → should_stop j (request_stop name ts)
      ≡ (if str_eq name j then has_record (lookup j ts) else should_stop j ts)
unfolding should_stop
should_stop-request_stop name j ts = elim (Bool-cases (str_eq name j)) [
  | inr other ↦ rw (lookup-request_stop name j ts, other)
  | inl same ↦ rw (lookup-request_stop name j ts, same) (asked (lookup j ts))
]
