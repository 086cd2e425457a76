-- ===== src/Core/Threads/Started.antt =====
-- Every thread that starts is in the task table.
use text.Mathlib.Text.{◌==◌ as str_eq}
use text.Mathlib.TextEquality.{eq_iff}
use text.Mathlib.TextPositions.{eq_refl}
use Prim.Native.String.{String}
use stm32f407vgt.Base.{
  ℕ, zero, suc, ◌+◌, ◌≤◌, ◌<◌, ◌≡◌, refl, ap, inl, inr, Bool, true, false, Option, none, some, [],
  ◌∷◌, length, get_elem?, leb, arith, length-append, Bool-cases, Option-cases,
}
use stm32f407vgt.Diagnostics.TaskTrace.{
  AppTaskTrace, Table, task_trace_capacity, new_trace, find_existing, find_or_create, register,
}
use stm32f407vgt.Diagnostics.TaskTrace.Lookup.{lookup}
use stm32f407vgt.Diagnostics.TaskTrace.Records.{
  or_new, found_old, found_full, found_new, lookup-register,
}
use stm32f407vgt.Core.Threads.{OsalTaskConfig, Registry, start_all}

abbrev pub has : Option AppTaskTrace → Bool
has none = false
has (some t) = true

size :
    (name : String) (created : ℕ) (ts : Table) {p : Option ℕ × Table}
    → find_or_create name created ts ≡ p
    → length (register name created ts) ≡ length p.1
unfolding register
size name created ts e = ap (λ (p : Option ℕ × Table). length p.1) e

length-register :
    (name : String) (created : ℕ) (ts : Table) → length (register name created ts) ≤ length ts + 1
length-register name created ts = elim (Option-cases (find_existing name ts)) [
  | inr (i, old) ↦ omega (arith, size name created ts (found_old name created ts old))
  | inl new ↦ elim (Bool-cases (leb task_trace_capacity (length ts))) [
    | inl full ↦ omega (arith, size name created ts (found_full name created ts new full))
    | inr room ↦ omega (
      arith,
      size name created ts (found_new name created ts new room),
      length-append ts (new_trace name created ∷ []),
    )
  ]
]

has-or_new_room :
    (name : String) (created : ℕ) (o : Option AppTaskTrace)
    → has (or_new name created false o) ≡ true
has-or_new_room name created none = refl
has-or_new_room name created (some t) = refl

has-or_new :
    (name : String) (created : ℕ) (full : Bool) (o : Option AppTaskTrace)
    → has o ≡ true
    → has (or_new name created full o) ≡ true
has-or_new name created full none h = absurd (cc)
has-or_new name created full (some t) h = refl

-- With a slot free, a task that is registered has a record.
register_own :
    (name : String) (created : ℕ) (ts : Table)
    → length ts < task_trace_capacity
    → has (lookup name (register name created ts)) ≡ true
register_own name created ts room =
    let free : leb task_trace_capacity (length ts) ≡ false = ground arith in
    rw (lookup-register name name created 0 ts, eq_refl name, free)
      (has-or_new_room name created (lookup name ts))

register-keeps :
    (name j : String) (created : ℕ) (ts : Table)
    → has (lookup j ts) ≡ true
    → has (lookup j (register name created ts)) ≡ true
register-keeps name j created ts h =
    rw (lookup-register name j created 0 ts) (elim (Bool-cases (str_eq name j)) [
      | inr other ↦ rw other h
      | inl same ↦
          let own : has (lookup name ts) ≡ true = rw ((eq_iff name j).0 same) h in
          rw same
            (has-or_new name created (leb task_trace_capacity (length ts)) (lookup name ts) own)
    ])

start_all-keeps :
    (created : ℕ → Bool) (clock : ℕ → ℕ) (i : ℕ) (configs : Registry) (ts : Table) (j : String)
    → has (lookup j ts) ≡ true
    → has (lookup j (start_all created clock i configs ts).1) ≡ true
unfolding start_all
start_all-keeps created clock i [] ts j h = h
start_all-keeps created clock i (config ∷ configs) ts j h = elim (Bool-cases (created i)) [
  | inl made ↦ rw made (
      start_all-keeps created clock (suc i) configs (register config.name (clock i) ts) j
        (register-keeps config.name j (clock i) ts h))
  | inr failed ↦ rw failed (start_all-keeps created clock (suc i) configs ts j h)
]

-- From a table with a slot for each thread to come, `appThreadRegistryStartAll` leaves a record in
-- the task table for every thread that the OS could create, whatever became of the others.
pub start_all-has :
    (created : ℕ → Bool) (clock : ℕ → ℕ) (i k : ℕ) (configs : Registry) (ts : Table)
    (config : OsalTaskConfig)
    → length ts + length configs ≤ task_trace_capacity
    → get_elem? configs k ≡ some config
    → created (i + k) ≡ true
    → has (lookup config.name (start_all created clock i configs ts).1) ≡ true
unfolding start_all
start_all-has created clock i k [] ts config room e made = absurd (cc)
start_all-has created clock i zero (first ∷ configs) ts config room e made =
    let here : first ≡ config = cc in
    let index : i + 0 ≡ i = omega arith in
    let made' : created i ≡ true = rw index at made in
    rw (made', here)
      (start_all-keeps created clock (suc i) configs (register config.name (clock i) ts) config.name
        (register_own config.name (clock i) ts (omega arith)))
start_all-has created clock i (suc k) (first ∷ configs) ts config room e made =
    let index : i + suc k ≡ suc i + k = omega arith in
    let made' : created (suc i + k) ≡ true = rw index at made in
    elim (Bool-cases (created i)) [
      | inl yes_first ↦ rw yes_first (
          start_all-has created clock (suc i) k configs (register first.name (clock i) ts) config
            (omega (arith, length-register first.name (clock i) ts)) e made')
      | inr no_first ↦
          rw no_first
            (start_all-has created clock (suc i) k configs ts config (omega arith) e made')
    ]

-- `appThreadRegistryStartAll` reports success exactly if every thread was created.
pub start_all-all :
    (created : ℕ → Bool) (clock : ℕ → ℕ) (i : ℕ) (configs : Registry) (ts : Table)
    → (start_all created clock i configs ts).0 ≡ true
    → (k : ℕ) → k < length configs
    → created (i + k) ≡ true
unfolding start_all
start_all-all created clock i [] ts e k h = absurd (omega arith)
start_all-all created clock i (config ∷ configs) ts e zero h = elim (Bool-cases (created i)) [
  | inl made ↦ let index : i + 0 ≡ i = omega arith in rw index made
  | inr failed ↦ let z : false ≡ true = rw failed at e in absurd (cc)
]
start_all-all created clock i (config ∷ configs) ts e (suc k) h = elim (Bool-cases (created i)) [
  | inl made ↦
      let index : i + suc k ≡ suc i + k = omega arith in
      rw index (
        start_all-all created clock (suc i) configs (register config.name (clock i) ts)
          (rw made at e) k (omega arith))
  | inr failed ↦ let z : false ≡ true = rw failed at e in absurd (cc)
]
