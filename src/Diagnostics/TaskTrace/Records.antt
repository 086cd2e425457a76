-- ===== src/Diagnostics/TaskTrace/Records.antt =====
-- What each operation of the task table does to the record of each name.
use text.Mathlib.Text.{◌==◌ as str_eq}
use text.Mathlib.TextEquality.{eq_iff}
use mathlib.Core.Option
use Prim.Native.String.{String}
use stm32f407vgt.Base.{
  ℕ, zero, suc, ◌≡◌, refl, sym, ap, ◌∙◌, inl, inr, Bool, true, false, Option, none, some, [], ◌∷◌,
  ◌++◌, length, leb, if◌then◌else◌, Bool-cases, Option-cases,
}
use stm32f407vgt.Diagnostics.TaskTrace.{
  AppTaskTrace, Table, task_trace_capacity, new_trace, find_existing, find_or_create, update, write,
  loop_started, loop_ended, asked_to_stop, marked, checked_point, register, loop_start, loop_end,
  checkpoint, request_stop, mark_stopped,
}
use stm32f407vgt.Diagnostics.TaskTrace.Lookup.{
  lookup, KeepsName, lookup-update, lookup-append, lookup-none, find_existing-some,
  find_existing-append,
}

-- The record that `findOrCreate` finds or makes; none if the table is full.
abbrev pub or_new : String → ℕ → Bool → Option AppTaskTrace → Option AppTaskTrace
or_new name created full (some t) = some t
or_new name created true none = none
or_new name created false none = some (new_trace name created)

abbrev pub found : String → ℕ → Table → Option AppTaskTrace
found name created ts = or_new name created (leb task_trace_capacity (length ts)) (lookup name ts)

found_lem :
    (name : String) (created : ℕ) (ts : Table) {full : Bool} {o : Option AppTaskTrace}
    → leb task_trace_capacity (length ts) ≡ full
    → lookup name ts ≡ o
    → found name created ts ≡ or_new name created full o
found_lem name created ts a b = λ i. or_new name created (a i) (b i)

-- The three ways in which `findOrCreate` returns.
pub found_old :
    (name : String) (created : ℕ) (ts : Table) {i : ℕ}
    → find_existing name ts ≡ some i
    → find_or_create name created ts ≡ (some i, ts)
unfolding find_or_create
found_old name created ts e = rw (e, find_or_create)

pub found_full :
    (name : String) (created : ℕ) (ts : Table)
    → find_existing name ts ≡ none
    → leb task_trace_capacity (length ts) ≡ true
    → find_or_create name created ts ≡ (none, ts)
unfolding find_or_create
found_full name created ts e full = rw (e, find_or_create, full)

pub found_new :
    (name : String) (created : ℕ) (ts : Table)
    → find_existing name ts ≡ none
    → leb task_trace_capacity (length ts) ≡ false
    → find_or_create name created ts ≡ (some (length ts), ts ++ (new_trace name created ∷ []))
unfolding find_or_create
found_new name created ts e room = rw (e, find_or_create, room)

at_name :
    (name j : String) (ts : Table) {o : Option AppTaskTrace}
    → lookup name ts ≡ o
    → lookup j ts ≡ (if str_eq name j then o else lookup j ts)
at_name name j ts {o} e = elim (Bool-cases (str_eq name j)) [
  | inl same ↦ rw same (ap (λ n. lookup n ts) (sym ((eq_iff name j).0 same)) ∙ e)
  | inr other ↦ rw other
]

-- What a call of `findOrCreate` and a write through its result do to the record of every name.
lookup-write :
    (name j : String) (created : ℕ) (ts : Table) (f : AppTaskTrace → AppTaskTrace)
    → KeepsName f
    → lookup j (write (find_or_create name created ts) f)
      ≡ (if str_eq name j then Option.map f (found name created ts) else lookup j ts)
lookup-write name j created ts f k = elim (Option-cases (find_existing name ts)) [
  | inr (i, e) ↦
      let (t, there) = find_existing-some name ts e in
      rw
        (
          found_old name created ts e,
          lookup-update ts name j i f k e,
          found_lem name created ts refl there,
        )
        (elim (Bool-cases (str_eq name j)) [
          | inl same ↦
              rw same
                (ap (Option.map f) (ap (λ n. lookup n ts) (sym ((eq_iff name j).0 same)) ∙ there))
          | inr other ↦ rw other
        ])
  | inl e ↦ elim (Bool-cases (leb task_trace_capacity (length ts))) [
    | inl full ↦
        rw
          (
            found_full name created ts e full,
            found_lem name created ts full (lookup-none name ts e),
          )
          (at_name name j ts (lookup-none name ts e))
    | inr room ↦
        rw
          (
            found_new name created ts e room,
            found_lem name created ts room (lookup-none name ts e),
            lookup-update (ts ++ (new_trace name created ∷ [])) name j (length ts) f k
                (find_existing-append ts (new_trace name created) e),
            lookup-append ts (new_trace name created) j e,
          )
          (elim (Bool-cases (str_eq name j)) [ inl same ↦ rw same | inr other ↦ rw other ])
  ]
]

update-same : (ts : Table) (i : ℕ) → update ts i (λ t. t) ≡ ts
unfolding update
update-same [] i = refl
update-same (t ∷ ts) zero = refl
update-same (t ∷ ts) (suc i) = ap (λ us. t ∷ us) (update-same ts i)

pub write-same : (p : Option ℕ × Table) → write p (λ t. t) ≡ p.1
write-same (none, ts) = refl
write-same (some i, ts) = update-same ts i

pub map-same : (o : Option AppTaskTrace) → Option.map (λ t. t) o ≡ o
map-same none = refl
map-same (some t) = refl

module _ (name j : String) (created now : ℕ) (ts : Table) where
  pub lookup-register :
      lookup j (register name created ts)
      ≡ (if str_eq name j then found name created ts else lookup j ts)
  unfolding register
  lookup-register =
      ap (lookup j) (sym (write-same (find_or_create name created ts)))
      ∙ lookup-write name j created ts (λ t. t) (λ t. refl)
      ∙ ap (λ o. if str_eq name j then o else lookup j ts) (map-same (found name created ts))

  -- `appTaskTraceLoopStart` sets the loop times of its own task, whose record it makes if there is
  -- none and a slot is free, and leaves the record of every other task alone.
  pub lookup-loop_start : lookup j (loop_start name created now ts) ≡ (
      if str_eq name j then Option.map (loop_started now) (found name created ts) else lookup j ts)
  unfolding loop_start
  lookup-loop_start = lookup-write name j created ts (loop_started now) (λ t. refl)

  pub lookup-loop_end :
      lookup j (loop_end name created now ts)
      ≡ (if str_eq name j then Option.map (loop_ended now) (found name created ts) else lookup j ts)
  unfolding loop_end
  lookup-loop_end = lookup-write name j created ts (loop_ended now) (λ t. refl)

  pub lookup-checkpoint :
      (point : String)
      → lookup j (checkpoint name point created now ts) ≡ (
          if str_eq name j
          then Option.map (checked_point point now) (found name created ts)
          else lookup j ts)
  unfolding checkpoint
  lookup-checkpoint point = lookup-write name j created ts (checked_point point now) (λ t. refl)

lookup-write_existing :
    (name j : String) (ts : Table) (f : AppTaskTrace → AppTaskTrace)
    → KeepsName f
    → lookup j (write (find_existing name ts, ts) f)
      ≡ (if str_eq name j then Option.map f (lookup j ts) else lookup j ts)
lookup-write_existing name j ts f k = elim (Option-cases (find_existing name ts)) [
  | inr (i, e) ↦ rw e (lookup-update ts name j i f k e)
  | inl e ↦ rw e (elim (Bool-cases (str_eq name j)) [
    | inl same ↦ rw same (
        let gone : lookup j ts ≡ none =
          ap (λ n. lookup n ts) (sym ((eq_iff name j).0 same)) ∙ lookup-none name ts e in
        gone ∙ sym (ap (Option.map f) gone))
    | inr other ↦ rw other
  ])
]

module _ (name j : String) (ts : Table) where
  pub lookup-request_stop :
      lookup j (request_stop name ts)
      ≡ (if str_eq name j then Option.map asked_to_stop (lookup j ts) else lookup j ts)
  unfolding request_stop
  lookup-request_stop = lookup-write_existing name j ts asked_to_stop (λ t. refl)

  pub lookup-mark_stopped :
      lookup j (mark_stopped name ts)
      ≡ (if str_eq name j then Option.map marked (lookup j ts) else lookup j ts)
  unfolding mark_stopped
  lookup-mark_stopped = lookup-write_existing name j ts marked (λ t. refl)
