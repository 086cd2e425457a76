-- ===== src/Diagnostics/TaskTrace/Slots.antt =====
-- The slots of the task table: their number, and that each name has one of its own.
use text.Mathlib.Text.{◌==◌ as str_eq}
use mathlib.Core.Path.{subst}
use Prim.Native.String.{String}
use stm32f407vgt.Base.{
  ℕ, zero, suc, ◌≤◌, ◌≡◌, refl, sym, ap, ◌∙◌, ◌⊎◌, inl, inr, false, Option, none, some, List, [],
  ◌∷◌, ◌++◌, length, get_elem?, leb, arith, length-append, Bool-cases, Option-cases,
}
use stm32f407vgt.Diagnostics.TaskTrace.{
  AppTaskTrace, Table, task_trace_capacity, new_trace, find_existing, find_or_create, update, write,
  loop_started, loop_ended, checked_point, asked_to_stop, marked, register, loop_start, loop_end,
  checkpoint, request_stop, mark_stopped,
}
use stm32f407vgt.Diagnostics.TaskTrace.Lookup.{
  KeepsName, find_existing-update, find_existing-append, no_zero, map-suc,
}
use stm32f407vgt.Diagnostics.TaskTrace.Records.{write-same, found_old, found_full, found_new}
use stm32f407vgt.Diagnostics.TaskTrace.Supervision.{
  Call, registers, starts_loop, ends_loop, reaches, requests_stop, marks_stopped, perform,
  perform_all,
}

-- At most ten slots are in use, and `findExisting` finds each record at its own slot, so that no two
-- records share a name.
pub record IsWellFormed (ts : Table) : Type 0 where
  pub fits : length ts ≤ task_trace_capacity
  pub own_slot :
      (i : ℕ) (t : AppTaskTrace) → get_elem? ts i ≡ some t → find_existing t.task_name ts ≡ some i

length-update :
    (ts : Table) (i : ℕ) (f : AppTaskTrace → AppTaskTrace) → length (update ts i f) ≡ length ts
unfolding update
length-update [] i f = refl
length-update (t ∷ ts) zero f = refl
length-update (t ∷ ts) (suc i) f = ap suc (length-update ts i f)

-- The name at a slot is the one that was there.
get_elem?-update :
    (ts : Table) (i k : ℕ) (f : AppTaskTrace → AppTaskTrace) {t : AppTaskTrace}
    → KeepsName f
    → get_elem? (update ts i f) k ≡ some t
    → (u : AppTaskTrace) × (get_elem? ts k ≡ some u) × (t.task_name ≡ u.task_name)
unfolding update
get_elem?-update [] i k f keeps e = absurd (cc)
get_elem?-update (u ∷ ts) zero zero f {t} keeps e =
    let same : f u ≡ t = cc in
    (u, refl, ap (λ (r : AppTaskTrace). r.task_name) (sym same) ∙ keeps u)
get_elem?-update (u ∷ ts) zero (suc k) f {t} keeps e = (t, e, refl)
get_elem?-update (u ∷ ts) (suc i) zero f {t} keeps e =
    let same : u ≡ t = cc in (u, refl, ap (λ (r : AppTaskTrace). r.task_name) (sym same))
get_elem?-update (u ∷ ts) (suc i) (suc k) f keeps e = get_elem?-update ts i k f keeps e

update-IsWellFormed :
    (ts : Table) (i : ℕ) (f : AppTaskTrace → AppTaskTrace)
    → KeepsName f
    → IsWellFormed ts
    → IsWellFormed (update ts i f)
update-IsWellFormed ts i f keeps v = record {
  fits = rw (length-update ts i f) v.fits;
  own_slot = λ k t e.
      let (u, there, name) = get_elem?-update ts i k f keeps e in
      find_existing-update ts t.task_name i f keeps
      ∙ ap (λ n. find_existing n ts) name
      ∙ v.own_slot k u there;
}

get_elem?-append :
    (ts : Table) (u : AppTaskTrace) (k : ℕ) {t : AppTaskTrace}
    → get_elem? (ts ++ (u ∷ [])) k ≡ some t
    → (get_elem? ts k ≡ some t) ⊎ (k ≡ length ts) × (u ≡ t)
get_elem?-append [] u zero e = inr (refl, cc)
get_elem?-append [] u (suc k) e = absurd (cc)
get_elem?-append (v ∷ ts) u zero e = inl e
get_elem?-append (v ∷ ts) u (suc k) e = elim (get_elem?-append ts u k e) [
  | inl old ↦ inl old
  | inr (at_end, same) ↦ inr (ap suc at_end, same)
]

find_existing-prefix :
    (ts us : Table) (j : String) {i : ℕ}
    → find_existing j ts ≡ some i
    → find_existing j (ts ++ us) ≡ some i
unfolding find_existing
find_existing-prefix [] us j e = absurd (cc)
find_existing-prefix (t ∷ ts) us j {i = zero} e = elim (Bool-cases (str_eq t.task_name j)) [
  | inl same ↦ rw (same, find_existing)
  | inr other ↦ absurd (no_zero (find_existing j ts) (rw (other, find_existing) at e))
]
find_existing-prefix (t ∷ ts) us j {i = suc i} e = elim (Bool-cases (str_eq t.task_name j)) [
  | inl same ↦ rw (same, find_existing) (rw (same, find_existing) at e)
  | inr other ↦
      let e' : find_existing j ts ≡ some i =
        map-suc (find_existing j ts) (rw (other, find_existing) at e) in
      rw (other, find_existing, find_existing-prefix ts us j e')
]

append-IsWellFormed :
    (ts : Table) (t : AppTaskTrace)
    → find_existing t.task_name ts ≡ none
    → leb task_trace_capacity (length ts) ≡ false
    → IsWellFormed ts
    → IsWellFormed (ts ++ (t ∷ []))
append-IsWellFormed ts u fresh room v = record {
  fits = ground (arith, length-append ts (u ∷ []));
  own_slot = λ k t e. elim (get_elem?-append ts u k e) [
    | inl old ↦ find_existing-prefix ts (u ∷ []) t.task_name (v.own_slot k t old)
    | inr (at_end, same) ↦
        subst (λ (r : AppTaskTrace). find_existing r.task_name (ts ++ (u ∷ [])) ≡ some k) same
          (find_existing-append ts u fresh ∙ ap some (sym at_end))
  ];
}

write-IsWellFormed :
    (name : String) (created : ℕ) (ts : Table) (f : AppTaskTrace → AppTaskTrace)
    → KeepsName f
    → IsWellFormed ts
    → IsWellFormed (write (find_or_create name created ts) f)
write-IsWellFormed name created ts f k v = elim (Option-cases (find_existing name ts)) [
  | inr (i, e) ↦ rw (found_old name created ts e) (update-IsWellFormed ts i f k v)
  | inl e ↦ elim (Bool-cases (leb task_trace_capacity (length ts))) [
    | inl full ↦ rw (found_full name created ts e full) v
    | inr room ↦ rw (found_new name created ts e room) (
        update-IsWellFormed (ts ++ (new_trace name created ∷ [])) (length ts) f k
          (append-IsWellFormed ts (new_trace name created) e room v))
  ]
]

write_existing-IsWellFormed :
    (o : Option ℕ) (ts : Table) (f : AppTaskTrace → AppTaskTrace)
    → KeepsName f
    → IsWellFormed ts
    → IsWellFormed (write (o, ts) f)
write_existing-IsWellFormed none ts f k v = v
write_existing-IsWellFormed (some i) ts f k v = update-IsWellFormed ts i f k v

perform-IsWellFormed : (c : Call) (ts : Table) → IsWellFormed ts → IsWellFormed (perform c ts)
unfolding perform register loop_start loop_end checkpoint request_stop mark_stopped
perform-IsWellFormed (registers name created) ts v =
    subst IsWellFormed (write-same (find_or_create name created ts))
      (write-IsWellFormed name created ts (λ t. t) (λ t. refl) v)
perform-IsWellFormed (starts_loop name created now) ts v =
    write-IsWellFormed name created ts (loop_started now) (λ t. refl) v
perform-IsWellFormed (ends_loop name created now) ts v =
    write-IsWellFormed name created ts (loop_ended now) (λ t. refl) v
perform-IsWellFormed (reaches name point created now) ts v =
    write-IsWellFormed name created ts (checked_point point now) (λ t. refl) v
perform-IsWellFormed (requests_stop name) ts v =
    write_existing-IsWellFormed (find_existing name ts) ts asked_to_stop (λ t. refl) v
perform-IsWellFormed (marks_stopped name) ts v =
    write_existing-IsWellFormed (find_existing name ts) ts marked (λ t. refl) v

-- Any sequence of calls leaves a well-formed table well formed: at most ten slots in use, and a slot
-- of its own for each name.
pub perform_all-IsWellFormed :
    (cs : List Call) (ts : Table) → IsWellFormed ts → IsWellFormed (perform_all cs ts)
unfolding perform_all
perform_all-IsWellFormed [] ts v = v
perform_all-IsWellFormed (c ∷ cs) ts v =
    perform_all-IsWellFormed cs (perform c ts) (perform-IsWellFormed c ts v)
