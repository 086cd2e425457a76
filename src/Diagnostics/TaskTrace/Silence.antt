-- ===== src/Diagnostics/TaskTrace/Silence.antt =====
-- A task that has stopped checking in, while the other tasks go on: its record keeps its slot and its
-- last check-in.
use text.Mathlib.Text.{◌==◌ as str_eq}
use mathlib.Core.Path.{subst}
use mathlib.Core.Option
use Prim.Native.String.{String}
use stm32f407vgt.Base.{
  ℕ, zero, suc, ◌≡◌, refl, ap, ◌∙◌, inl, inr, Bool, true, false, not, ◌&&◌, Option, none, some,
  List, [], ◌∷◌, ◌++◌, length, leb, Bool-cases, Option-cases,
}
use text.Mathlib.TextEquality.{eq_iff}
use stm32f407vgt.Diagnostics.TaskTrace.{
  AppTaskTrace, Table, task_trace_capacity, new_trace, find_existing, find_or_create, write,
  loop_started, loop_ended, checked_point, asked_to_stop, marked, register, loop_start, loop_end,
  checkpoint, request_stop, mark_stopped,
}
use stm32f407vgt.Diagnostics.TaskTrace.Lookup.{
  lookup, KeepsName, find_existing-update, no_zero, map-suc,
}
use stm32f407vgt.Diagnostics.TaskTrace.Records.{
  or_new, write-same, found_old, found_full, found_new, lookup-register, lookup-loop_start,
  lookup-loop_end, lookup-checkpoint, lookup-request_stop, lookup-mark_stopped,
}
use stm32f407vgt.Diagnostics.TaskTrace.Supervision.{
  Call, registers, starts_loop, ends_loop, reaches, requests_stop, marks_stopped, perform,
  perform_all,
}

-- A call that task `j` does not make itself: any call for another task, a registration, or a request
-- to stop.
abbrev pub silent : String → Call → Bool
silent j (registers name created) = true
silent j (starts_loop name created now) = not (str_eq name j)
silent j (ends_loop name created now) = not (str_eq name j)
silent j (reaches name point created now) = not (str_eq name j)
silent j (requests_stop name) = true
silent j (marks_stopped name) = not (str_eq name j)

abbrev pub all_silent : String → List Call → Bool
all_silent j [] = true
all_silent j (c ∷ cs) = silent j c && all_silent j cs

-- A record of a task that runs and last checked in at `last`.
abbrev pub RunsSince : ℕ → Option AppTaskTrace → Type 0
RunsSince last none = ⊥
RunsSince last (some t) = (t.stopped ≡ false) × (t.last_check_in_time_ms ≡ last)

find_existing-append_old :
    (ts : Table) (t : AppTaskTrace) (j : String) (k : ℕ)
    → find_existing j ts ≡ some k
    → find_existing j (ts ++ (t ∷ [])) ≡ some k
unfolding find_existing
find_existing-append_old [] t j k e = absurd (cc)
find_existing-append_old (u ∷ ts) t j k e = elim (Bool-cases (str_eq u.task_name j)) [
  | inl same ↦ let e' : some 0 ≡ some k = rw same at e in rw same e'
  | inr other ↦
      let e' : Option.map suc (find_existing j ts) ≡ some k = rw other at e in
      rw other (at_slot k e' (find_existing-append_old ts t j))
]
  where
    at_slot :
        (k : ℕ)
        → Option.map suc (find_existing j ts) ≡ some k
        → ((i : ℕ) → find_existing j ts ≡ some i → find_existing j (ts ++ (t ∷ [])) ≡ some i)
        → Option.map suc (find_existing j (ts ++ (t ∷ []))) ≡ some k
    at_slot zero e' later = absurd (no_zero (find_existing j ts) e')
    at_slot (suc i) e' later = ap (Option.map suc) (later i (map-suc (find_existing j ts) e'))

write-slot :
    (name j : String) (created k : ℕ) (ts : Table) (f : AppTaskTrace → AppTaskTrace)
    → KeepsName f
    → find_existing j ts ≡ some k
    → find_existing j (write (find_or_create name created ts) f) ≡ some k
write-slot name j created k ts f keeps e = elim (Option-cases (find_existing name ts)) [
  | inr (i, old) ↦ rw (found_old name created ts old) (find_existing-update ts j i f keeps ∙ e)
  | inl new ↦ elim (Bool-cases (leb task_trace_capacity (length ts))) [
    | inl full ↦ rw (found_full name created ts new full) e
    | inr room ↦ rw (found_new name created ts new room) (
        find_existing-update (ts ++ (new_trace name created ∷ [])) j (length ts) f keeps
        ∙ find_existing-append_old ts (new_trace name created) j k e)
  ]
]

write_existing-slot :
    (o : Option ℕ) (j : String) (k : ℕ) (ts : Table) (f : AppTaskTrace → AppTaskTrace)
    → KeepsName f
    → find_existing j ts ≡ some k
    → find_existing j (write (o, ts) f) ≡ some k
write_existing-slot none j k ts f keeps e = e
write_existing-slot (some i) j k ts f keeps e = find_existing-update ts j i f keeps ∙ e

-- A slot, once given to a task, stays its slot.
perform-slot :
    (c : Call) (j : String) (k : ℕ) (ts : Table)
    → find_existing j ts ≡ some k
    → find_existing j (perform c ts) ≡ some k
unfolding perform register loop_start loop_end checkpoint request_stop mark_stopped
perform-slot (registers name created) j k ts e =
    subst (λ (u : Table). find_existing j u ≡ some k) (write-same (find_or_create name created ts))
      (write-slot name j created k ts (λ t. t) (λ t. refl) e)
perform-slot (starts_loop name created now) j k ts e =
    write-slot name j created k ts (loop_started now) (λ t. refl) e
perform-slot (ends_loop name created now) j k ts e =
    write-slot name j created k ts (loop_ended now) (λ t. refl) e
perform-slot (reaches name point created now) j k ts e =
    write-slot name j created k ts (checked_point point now) (λ t. refl) e
perform-slot (requests_stop name) j k ts e =
    write_existing-slot (find_existing name ts) j k ts asked_to_stop (λ t. refl) e
perform-slot (marks_stopped name) j k ts e =
    write_existing-slot (find_existing name ts) j k ts marked (λ t. refl) e

other_name : (b : Bool) → not b ≡ true → b ≡ false
other_name true e = absurd (cc)
other_name false e = refl

found-RunsSince :
    (name : String) (created last : ℕ) (full : Bool) (o : Option AppTaskTrace)
    → RunsSince last o
    → RunsSince last (or_new name created full o)
found-RunsSince name created last full none h = absurd h
found-RunsSince name created last full (some t) h = h

asked-RunsSince :
    (last : ℕ) (o : Option AppTaskTrace)
    → RunsSince last o
    → RunsSince last (Option.map asked_to_stop o)
asked-RunsSince last none h = h
asked-RunsSince last (some t) h = h

perform-RunsSince :
    (c : Call) (j : String) (last : ℕ) (ts : Table)
    → silent j c ≡ true
    → RunsSince last (lookup j ts)
    → RunsSince last (lookup j (perform c ts))
unfolding perform
perform-RunsSince (registers name created) j last ts quiet h =
    rw (lookup-register name j created 0 ts) (elim (Bool-cases (str_eq name j)) [
      | inl same ↦
          let own : RunsSince last (lookup name ts) = rw ((eq_iff name j).0 same) h in
          rw same (
            found-RunsSince name created last (leb task_trace_capacity (length ts)) (lookup name ts)
              own)
      | inr other ↦ rw other h
    ])
perform-RunsSince (starts_loop name created now) j last ts quiet h =
    rw (lookup-loop_start name j created now ts, other_name (str_eq name j) quiet) h
perform-RunsSince (ends_loop name created now) j last ts quiet h =
    rw (lookup-loop_end name j created now ts, other_name (str_eq name j) quiet) h
perform-RunsSince (reaches name point created now) j last ts quiet h =
    rw (lookup-checkpoint name j created now ts point, other_name (str_eq name j) quiet) h
perform-RunsSince (requests_stop name) j last ts quiet h =
    rw (lookup-request_stop name j ts) (elim (Bool-cases (str_eq name j)) [
      | inl same ↦ rw same (asked-RunsSince last (lookup j ts) h)
      | inr other ↦ rw other h
    ])
perform-RunsSince (marks_stopped name) j last ts quiet h =
    rw (lookup-mark_stopped name j ts, other_name (str_eq name j) quiet) h

-- If task `j` has a slot, runs, and last checked in at `last`, then after any calls that it does not
-- make itself its record is in the same slot, still says that it runs, and still holds `last`.
pub silent_keeps :
    (cs : List Call) (j : String) (k last : ℕ) (ts : Table)
    → all_silent j cs ≡ true
    → find_existing j ts ≡ some k
    → RunsSince last (lookup j ts)
    → (find_existing j (perform_all cs ts) ≡ some k) × RunsSince last (lookup j (perform_all cs ts))
unfolding perform_all
silent_keeps [] j k last ts quiet e h = (e, h)
silent_keeps (c ∷ cs) j k last ts quiet e h = elim (Bool-cases (silent j c)) [
  | inl now ↦
      silent_keeps cs j k last (perform c ts) (rw now at quiet) (perform-slot c j k ts e)
        (perform-RunsSince c j last ts now h)
  | inr loud ↦ let z : false ≡ true = rw loud at quiet in absurd (cc)
]
